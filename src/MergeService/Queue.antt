-- ===== src/MergeService/Queue.antt =====
-- `mergeCandidate`, `reject` and `createCandidate` of apps/api/src/admin/merge/merge.service.ts.
use Prim.Native.String
use text.Mathlib.Text.{◌==◌, is_lt}
use capbase.Base.{
  ℕ, String, Bool, true, false, not, ◌&&◌, ◌||◌, none, some, is_some, List, [], ◌∷◌, if◌then◌else◌,
  Result, ok, err, ◌>>◌, fail_if,
}
use capbase.MergeService.Store.{
  IdentifiableType, MergeStatus, MergeCandidate, Database, find_entity, find_candidate, same_type,
  pending, rejected,
}
use capbase.MergeService.Calls.{
  Draw, MergeError, candidate_decided, candidate_missing, merged_into_itself, pair_merged,
  row_missing, survivor_not_of_pair,
}
use capbase.MergeService.Merging.{decide, merge}

-- `candidate.status !== 'PENDING'`
abbrev pub is_pending : MergeStatus → Bool
is_pending pending = true
is_pending _ = false

abbrev pub is_merged : MergeStatus → Bool
is_merged MergeStatus.merged = true
is_merged _ = false

unfoldable pub merge_candidate :
    String → String → String → Draw → Database → Result MergeError Database
merge_candidate candidate_id survivor admin draw db =
    elim (find_candidate candidate_id db.candidates) [
      | none ↦ err candidate_missing
      | some c ↦ do
        fail_if (not (is_pending c.status)) (candidate_decided c.status)
        fail_if (not (survivor == c.left_id) && not (survivor == c.right_id)) survivor_not_of_pair
        merge c.entity_type survivor (if survivor == c.left_id then c.right_id else c.left_id) admin
            (some candidate_id) draw db
    ]

unfoldable pub reject : String → String → ℕ → Database → Result MergeError Database
reject candidate_id admin now db = elim (find_candidate candidate_id db.candidates) [
  | none ↦ err candidate_missing
  | some c ↦ do
    fail_if (is_merged c.status) pair_merged
    ok (record db {
      candidates = decide candidate_id rejected (some now) (some admin) db.candidates;
    })
]

-- `upsert` on the pair: an existing row is kept as it is.
unfoldable pub pair_queued : IdentifiableType → String → String → List MergeCandidate → Bool
pair_queued type left right [] = false
pair_queued type left right (row ∷ rows) =
    (same_type row.entity_type type && row.left_id == left && row.right_id == right)
    || pair_queued type left right rows

abbrev pub queued_pair : IdentifiableType → String → String → String → ℕ → MergeCandidate
queued_pair type left right id now = record {
  id = id;
  entity_type = type;
  left_id = left;
  right_id = right;
  signal = "name";
  evidence = "queued by an admin";
  status = pending;
  decided_at = none;
  decided_by_id = none;
  created_at = now;
}

unfoldable pub queue_pair : IdentifiableType → String → String → String → ℕ → Database → Database
queue_pair type left right id now db =
    if pair_queued type left right db.candidates
    then db
    else record db { candidates = queued_pair type left right id now ∷ db.candidates }

unfoldable pub create_candidate :
    IdentifiableType → String → String → String → ℕ → Database → Result MergeError Database
create_candidate type a b id now db =
    let left = if is_lt (String.compare a b) then a else b in
    let right = if is_lt (String.compare a b) then b else a in
    do
      fail_if (a == b) merged_into_itself
      fail_if (not (is_some (find_entity left (db.entities type)))) row_missing
      fail_if (not (is_some (find_entity right (db.entities type)))) row_missing
      ok (queue_pair type left right id now db)
