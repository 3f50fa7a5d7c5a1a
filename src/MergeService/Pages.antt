-- ===== src/MergeService/Pages.antt =====
-- `listCandidates` of apps/api/src/admin/merge/merge.service.ts: the rows of one page of the queue. How
-- a side is rendered is left out, but for whether it is there.
use Prim.Native.String
use text.Mathlib.Text.{◌==◌, is_lt}
use capbase.Base.{
  ℕ, zero, suc, ◌+◌, ◌-◌, ◌*◌, String, Bool, true, false, not, ◌&&◌, ◌||◌, Option, none, some,
  is_some, List, [], ◌∷◌, ◌++◌, if◌then◌else◌, keep, leb, ltb, length, take,
}
use capbase.Base.{◌==◌ as eq_ℕ}
use capbase.MergeService.Store.{
  IdentifiableType, same_type, MergeCandidate, MergeStatus, pending, merged, rejected, MergeRecord,
  Database, find_entity,
}

abbrev pub merge_page_size : ℕ
merge_page_size = 25

-- The strongest evidence first. The column `signal` holds one of these.
abbrev pub merge_signals : List String
merge_signals = "identifier" ∷ "domain" ∷ "name" ∷ []

abbrev pub same_status : MergeStatus → MergeStatus → Bool
same_status pending pending = true
same_status merged merged = true
same_status rejected rejected = true
same_status _ _ = false

-- `{ status, ...(entityType ? { entityType } : {}) }`
abbrev pub listed_pair : MergeStatus → Option IdentifiableType → MergeCandidate → Bool
listed_pair status none row = same_status row.status status
listed_pair status (some type) row = same_status row.status status && same_type row.entity_type type

-- `orderBy: [{ createdAt: 'desc' }, { id: 'desc' }]`
abbrev pub comes_first : MergeCandidate → MergeCandidate → Bool
comes_first r s =
    ltb s.created_at r.created_at
    || (eq_ℕ s.created_at r.created_at && is_lt (String.compare s.id r.id))

unfoldable pub insert_newest : MergeCandidate → List MergeCandidate → List MergeCandidate
insert_newest r [] = r ∷ []
insert_newest r (s ∷ rows) = if comes_first s r then s ∷ insert_newest r rows else r ∷ s ∷ rows

unfoldable pub newest_first : List MergeCandidate → List MergeCandidate
newest_first [] = []
newest_first (r ∷ rows) = insert_newest r (newest_first rows)

-- The rows of a signal, in the order of the query.
unfoldable pub of_signal :
    MergeStatus → Option IdentifiableType → List MergeCandidate → String → List MergeCandidate
of_signal status type candidates signal =
    newest_first (keep (λ row. listed_pair status type row && row.signal == signal) candidates)

-- `countsBySignal[signal]`, of the grouped count.
unfoldable pub count_by_signal :
    MergeStatus → Option IdentifiableType → List MergeCandidate → String → ℕ
count_by_signal status type candidates signal =
    length (keep (λ row. listed_pair status type row && row.signal == signal) candidates)

unfoldable pub skip_rows {ℓ} : {R : Type ℓ} → ℕ → List R → List R
skip_rows zero rows = rows
skip_rows (suc n) [] = []
skip_rows (suc n) (row ∷ rows) = skip_rows n rows

-- One turn of the loop for each signal, with the rows so far and the rows still to skip. The query takes
-- `remaining` rows after `skip`.
module _ (rows_of : String → List MergeCandidate) (count : String → ℕ) where
  unfoldable pub page_window : List String → List MergeCandidate → ℕ → List MergeCandidate
  page_window [] rows skip = rows
  page_window (signal ∷ signals) rows skip =
      let remaining = merge_page_size - length rows in
      let passed = page_window signals rows (skip - count signal) in
      let taken =
        page_window signals (rows ++ take remaining (skip_rows skip (rows_of signal))) 0 in
      if leb remaining 0 then rows else if leb (count signal) skip then passed else taken

-- Pages count from 1, which admin.controller.ts checks.
unfoldable pub page_rows :
    MergeStatus → Option IdentifiableType → ℕ → List MergeCandidate → List MergeCandidate
page_rows status type page candidates =
    page_window (of_signal status type candidates) (count_by_signal status type candidates)
      merge_signals [] ((page - 1) * merge_page_size)

-- A side is missing where its row was deleted.
abbrev pub has_both_sides : Database → MergeCandidate → Bool
has_both_sides db row =
    is_some (find_entity row.left_id (db.entities row.entity_type))
    && is_some (find_entity row.right_id (db.entities row.entity_type))

-- `mergeRecord.findFirst({ where: { candidateId, unmergedAt: null } })`, of a merged pair.
unfoldable pub standing_record : String → List MergeRecord → Option String
standing_record candidate_id [] = none
standing_record candidate_id (row ∷ records) =
    if not (is_some row.unmerged_at)
      && elim row.candidate_id [ none ↦ false | some c ↦ c == candidate_id ]
    then some row.id
    else standing_record candidate_id records

pub record MergeCandidateItem : Type 0 where
  pub candidate : MergeCandidate
  pub merge_record_id : Option String

unfoldable pub candidate_items : Database → List MergeCandidate → List MergeCandidateItem
candidate_items db [] = []
candidate_items db (row ∷ rows) =
    let rest = candidate_items db rows in
    let record_id =
      if same_status row.status merged then standing_record row.id db.records else none in
    let item : MergeCandidateItem = record { candidate = row; merge_record_id = record_id } in
    if has_both_sides db row then item ∷ rest else rest

pub record MergeQueueResponse : Type 0 where
  pub total : ℕ
  pub items : List MergeCandidateItem
  pub page : ℕ

unfoldable pub list_candidates :
    MergeStatus → Option IdentifiableType → ℕ → Database → MergeQueueResponse
list_candidates status type page db =
    let count = count_by_signal status type db.candidates in
    record {
      total = count "identifier" + count "domain" + count "name";
      items = candidate_items db (page_rows status type page db.candidates);
      page = page;
    }
