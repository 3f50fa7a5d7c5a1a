-- ===== src/MergeService/Counted.antt =====
-- One standing merge for each MERGED pair, after any calls: apps/api/src/admin/merge/merge.service.ts.
use Prim.Native.String
use text.Mathlib.Text.{◌==◌, is_lt}
use text.Mathlib.TextEquality.{eq_iff}
use capbase.Base.{
  ℕ, ◌+◌, String, ◌≡◌, refl, ◌∙◌, true, false, Option, none, some, is_some, List, [], ◌∷◌, ◌++◌,
  if◌then◌else◌, All, arith, Bool-cases, Option-cases, inl, inr, ok,
}
use capbase.MergeService.Store.{
  MergeRecord, MergeCandidate, MergeStatus, pending, rejected, Database, find_candidate,
  IdentifiableType,
}
use capbase.MergeService.Calls.{Draw}
use capbase.MergeService.Merging.{decide, decide_some, merge, new_record}
use capbase.MergeService.Unmerging.{mark_unmerged, unmerge}
use capbase.MergeService.Queue.{
  merge_candidate, reject, create_candidate, is_merged, is_pending, pair_queued, queue_pair,
}
use capbase.MergeService.Candidates.{
  live_for, count_live, merged_count, IsCounted, Step, merge_pair, merge_directly, reverse,
  turn_down, propose, Reaches, here, onward, merge-outside, unmerge-outside,
}
use capbase.MergeService.Counts.{
  IsKeyed-append, All-count, IsKeyed-mark_unmerged, one_if, count_live-append,
  count_live-mark_unmerged, decide-counted, find_candidate-counted,
}

merge-IsCounted :
    (type : IdentifiableType) (survivor losing admin : String) (candidate_id : Option String)
    (draw : Draw) (db after : Database)
    → All (λ row. row.id == draw.record_id ≡ false) db.records
    → ((id : String) → candidate_id ≡ some id → count_live id db.records ≡ 0)
    → merge type survivor losing admin candidate_id draw db ≡ ok after
    → IsCounted db
    → IsCounted after
unfolding new_record one_if
merge-IsCounted type survivor losing admin none draw db after f z h i =
    let (moved, rs, cs) = merge-outside type survivor losing admin none draw db after h in
    let entry = new_record type survivor losing admin none draw.record_id moved in
    record {
      keyed = rw rs (IsKeyed-append db.records entry i.keyed f);
      counted =
          rw (rs, cs)
            (All-count (λ id. count_live id db.records)
              (λ id. count_live id (db.records ++ entry ∷ [])) db.candidates
              (λ id. ground (arith, count_live-append id db.records entry)) i.counted);
    }
merge-IsCounted type survivor losing admin (some key) draw db after f z h i =
    let (moved, rs, cs) = merge-outside type survivor losing admin (some key) draw db after h in
    let entry = new_record type survivor losing admin (some key) draw.record_id moved in
    record {
      keyed = rw rs (IsKeyed-append db.records entry i.keyed f);
      counted =
          rw (rs, cs)
            (decide-counted (λ id. count_live id db.records)
              (λ id. count_live id (db.records ++ entry ∷ [])) key MergeStatus.merged
              (some draw.now) (some admin) db.candidates
              (λ id e.
                ground (arith, count_live-append id db.records entry, eq_iff id key, eq_iff key id))
              (λ id old e b.
                let same : id ≡ key = (eq_iff id key).0 e in
                ground (
                  arith,
                  count_live-append id db.records entry,
                  z key refl,
                  eq_iff id key,
                  eq_iff key id,
                ))
              i.counted);
    }

unmerge-candidates :
    (entry : MergeRecord) (before after : String → ℕ) (rows : List MergeCandidate)
    → is_some entry.unmerged_at ≡ false
    → ((id : String) → after id + one_if (live_for id entry) ≡ before id)
    → All (λ c. before c.id ≡ merged_count c.status) rows
    → All
        (λ c. after c.id ≡ merged_count c.status)
        (decide_some entry.candidate_id pending none none rows)
unfolding one_if
unmerge-candidates entry before after rows live m h = elim (Option-cases entry.candidate_id) [
  | inl e ↦ rw e (All-count before after rows (λ id. ground (arith, m id)) h)
  | inr (key, e) ↦ rw e (
      decide-counted before after key pending none none rows
        (λ id d. ground (arith, m id, eq_iff id key, eq_iff key id))
        (λ id old d b. ground (arith, m id, eq_iff id key, eq_iff key id)) h)
]

unmerge-IsCounted :
    (record_id admin : String) (draw : Draw) (db after : Database)
    → unmerge record_id admin draw db ≡ ok after
    → IsCounted db
    → IsCounted after
unmerge-IsCounted record_id admin draw db after h i =
    let (entry, found, live, rs, cs) = unmerge-outside record_id admin draw db after h in
    record {
      keyed = rw rs (IsKeyed-mark_unmerged record_id draw.now admin db.records i.keyed);
      counted =
          rw (rs, cs)
            (unmerge-candidates entry (λ id. count_live id db.records)
              (λ id. count_live id (mark_unmerged record_id draw.now admin db.records))
              db.candidates live
              (λ id.
                count_live-mark_unmerged id record_id draw.now admin db.records entry i.keyed found
                  live)
              i.counted);
    }

reject-IsCounted :
    (candidate_id admin : String) (now : ℕ) (db after : Database)
    → reject candidate_id admin now db ≡ ok after
    → IsCounted db
    → IsCounted after
unfolding reject
reject-IsCounted candidate_id admin now db after h i =
    elim (Option-cases (find_candidate candidate_id db.candidates)) [
      | inl e ↦ absurd (ground arith)
      | inr (c, e) ↦
          let (same, n) =
            find_candidate-counted (λ id. count_live id db.records) candidate_id db.candidates c e
              i.counted in
          let open_pair : is_merged c.status ≡ false = ground arith in
          let shape : after ≡ record db {
            candidates = decide candidate_id rejected (some now) (some admin) db.candidates;
          } =
            ground arith in
          let zero_count : count_live candidate_id db.records ≡ 0 =
            let n' : count_live candidate_id db.records ≡ merged_count c.status = rw (← same) n in
            ground arith in
          rw shape (record {
            keyed = i.keyed;
            counted =
                decide-counted (λ id. count_live id db.records) (λ id. count_live id db.records)
                  candidate_id rejected (some now) (some admin) db.candidates (λ id d. refl)
                  (λ id old d b.
                    let here_id : id ≡ candidate_id = (eq_iff id candidate_id).0 d in
                    rw here_id zero_count)
                  i.counted;
          })
    ]

not_merged : (status : MergeStatus) → is_pending status ≡ true → merged_count status ≡ 0
not_merged pending h = refl
not_merged rejected h = refl
not_merged MergeStatus.merged h = absurd (ground arith)

merge_candidate-IsCounted :
    (candidate_id survivor admin : String) (draw : Draw) (db after : Database)
    → All (λ row. row.id == draw.record_id ≡ false) db.records
    → merge_candidate candidate_id survivor admin draw db ≡ ok after
    → IsCounted db
    → IsCounted after
unfolding merge_candidate
merge_candidate-IsCounted candidate_id survivor admin draw db after f h i =
    elim (Option-cases (find_candidate candidate_id db.candidates)) [
      | inl e ↦ absurd (ground arith)
      | inr (c, e) ↦
          let (same, n) =
            find_candidate-counted (λ id. count_live id db.records) candidate_id db.candidates c e
              i.counted in
          let open_pair : is_pending c.status ≡ true = ground arith in
          let merged : merge c.entity_type survivor
                (if survivor == c.left_id then c.right_id else c.left_id) admin (some candidate_id)
                draw db
              ≡ ok after =
            ground arith in
          merge-IsCounted c.entity_type survivor
            (if survivor == c.left_id then c.right_id else c.left_id) admin (some candidate_id) draw
            db after f
            (λ id k.
              let here_id : candidate_id ≡ id = ground arith in
              rw (← here_id, ← same) (n ∙ not_merged c.status open_pair))
            merged i
    ]

create_candidate-inv :
    (type : IdentifiableType) (a b id : String) (now : ℕ) (db after : Database)
    → create_candidate type a b id now db ≡ ok after
    → (left : String) × (right : String) × (after ≡ queue_pair type left right id now db)
unfolding create_candidate
create_candidate-inv type a b id now db after h = (
  if is_lt (String.compare a b) then a else b,
  if is_lt (String.compare a b) then b else a,
  ground arith,
)

queue_pair-IsCounted :
    (type : IdentifiableType) (left right id : String) (now : ℕ) (db : Database)
    → count_live id db.records ≡ 0
    → IsCounted db
    → IsCounted (queue_pair type left right id now db)
unfolding queue_pair
queue_pair-IsCounted type left right id now db z i =
    elim (Bool-cases (pair_queued type left right db.candidates)) [
      | inl e ↦ rw e i
      | inr e ↦ rw e (record { keyed = i.keyed; counted = (z, i.counted) })
    ]

create_candidate-IsCounted :
    (type : IdentifiableType) (a b id : String) (now : ℕ) (db after : Database)
    → count_live id db.records ≡ 0
    → create_candidate type a b id now db ≡ ok after
    → IsCounted db
    → IsCounted after
create_candidate-IsCounted type a b id now db after z h i =
    let (left, right, e) = create_candidate-inv type a b id now db after h in
    rw e (queue_pair-IsCounted type left right id now db z i)

-- A successful call keeps one standing merge for each MERGED pair and none for the others.
Step-IsCounted : {db after : Database} → Step db after → IsCounted db → IsCounted after
Step-IsCounted {db} {after} (merge_pair c s a d f h) i =
    merge_candidate-IsCounted c s a d db after f h i
Step-IsCounted {db} {after} (merge_directly t s l a d f h) i =
    merge-IsCounted t s l a none d db after f (λ id k. absurd (ground arith)) h i
Step-IsCounted {db} {after} (reverse r a d h) i = unmerge-IsCounted r a d db after h i
Step-IsCounted {db} {after} (turn_down c a n h) i = reject-IsCounted c a n db after h i
Step-IsCounted {db} {after} (propose t a b id now z h) i =
    create_candidate-IsCounted t a b id now db after z h i

-- After any calls that succeed, from a database where it holds: a candidate pair is MERGED exactly when
-- one merge of it stands, which was not reversed, and never do two stand.
pub Reaches-IsCounted : {db after : Database} → Reaches db after → IsCounted db → IsCounted after
Reaches-IsCounted here i = i
Reaches-IsCounted (onward step rest) i = Reaches-IsCounted rest (Step-IsCounted step i)
