-- ===== src/MergeService/Candidates.antt =====
-- The status of a candidate pair over any sequence of calls: `mergeCandidate`, `merge`, `unmerge`,
-- `reject` and `createCandidate` of apps/api/src/admin/merge/merge.service.ts, one after another.
use text.Mathlib.Text.{◌==◌}
use capbase.Base.{
  ℕ, suc, String, ◌≡◌, refl, ap, ◌∙◌, Bool, false, not, ◌&&◌, Option, none, some, is_some, List, [],
  ◌∷◌, ◌++◌, if◌then◌else◌, All, arith, Option-cases, Result-cases, inl, inr, ok,
}
use capbase.MergeService.Rows.{IsKeyed}
use capbase.MergeService.Store.{
  IdentifiableType, company, investor, person, Entity, MergeRecord, MergeStatus, pending,
  MovedRecord, Database, find_record,
}
use capbase.MergeService.Calls.{Draw}
use capbase.MergeService.Merging.{
  merge_step, move_shared, move_company, decide_some, merge, new_record,
}
use capbase.MergeService.Unmerging.{
  unmerge_step, unmerge_rows, restore_shared, restore_company, mark_unmerged, unmerge,
  rows_to_unmerge,
}
use capbase.MergeService.Queue.{merge_candidate, reject, create_candidate, is_merged}
use capbase.MergeService.Undone.{merge-inv, merge_rows-inv}

-- A merge of the pair that was not reversed.
abbrev pub live_for : String → MergeRecord → Bool
live_for id row =
    not (is_some row.unmerged_at) && elim row.candidate_id [ none ↦ false | some c ↦ c == id ]

unfoldable pub count_live : String → List MergeRecord → ℕ
count_live id [] = 0
count_live id (row ∷ rows) =
    let rest = count_live id rows in if live_for id row then suc rest else rest

abbrev pub merged_count : MergeStatus → ℕ
merged_count status = if is_merged status then 1 else 0

-- A pair is MERGED exactly when one merge of it stands, and never do two stand.
pub record IsCounted (db : Database) : Type 0 where
  pub keyed : IsKeyed (λ row. row.id) db.records
  pub counted : All (λ c. count_live c.id db.records ≡ merged_count c.status) db.candidates

-- One call that succeeds; a call that throws changes nothing. The ids that a call draws are new.
pub data Step : Database → Database → Type 0 where
  merge_pair :
      (candidate_id survivor admin : String) (draw : Draw) {db after : Database}
      → All (λ row. row.id == draw.record_id ≡ false) db.records
      → merge_candidate candidate_id survivor admin draw db ≡ ok after
      → Step db after
  merge_directly :
      (type : IdentifiableType) (survivor losing admin : String) (draw : Draw) {db after : Database}
      → All (λ row. row.id == draw.record_id ≡ false) db.records
      → merge type survivor losing admin none draw db ≡ ok after
      → Step db after
  reverse :
      (record_id admin : String) (draw : Draw) {db after : Database}
      → unmerge record_id admin draw db ≡ ok after
      → Step db after
  turn_down :
      (candidate_id admin : String) (now : ℕ) {db after : Database}
      → reject candidate_id admin now db ≡ ok after
      → Step db after
  propose :
      (type : IdentifiableType) (a b id : String) (now : ℕ) {db after : Database}
      → count_live id db.records ≡ 0
      → create_candidate type a b id now db ≡ ok after
      → Step db after

pub data Reaches : Database → Database → Type 0 where
  here : {db : Database} → Reaches db db
  onward : {db next after : Database} → Step db next → Reaches next after → Reaches db after

merge_step-outside :
    (type : IdentifiableType) (survivor losing : String) (s l : Entity) (admin rid : String)
    (db : Database)
    → let done = (merge_step type survivor losing s l admin rid db).1 in
      (done.records ≡ db.records) × (done.candidates ≡ db.candidates)
unfolding merge_step move_shared move_company
merge_step-outside company survivor losing s l admin rid db = (refl, refl)
merge_step-outside investor survivor losing s l admin rid db = (refl, refl)
merge_step-outside person survivor losing s l admin rid db = (refl, refl)

unmerge_step-outside :
    (type : IdentifiableType) (survivor losing : String) (s l : Entity) (admin rid : String)
    (fresh : ℕ → String) (moved : MovedRecord) (db : Database)
    → let done = unmerge_step type survivor losing s l admin rid fresh moved db in
      (done.records ≡ db.records) × (done.candidates ≡ db.candidates)
unfolding unmerge_step restore_shared restore_company
unmerge_step-outside company survivor losing s l admin rid fresh moved db = (refl, refl)
unmerge_step-outside investor survivor losing s l admin rid fresh moved db = (refl, refl)
unmerge_step-outside person survivor losing s l admin rid fresh moved db = (refl, refl)

-- What a merge does to the records and the candidates.
pub merge-outside :
    (type : IdentifiableType) (survivor losing admin : String) (candidate_id : Option String)
    (draw : Draw) (db after : Database)
    → merge type survivor losing admin candidate_id draw db ≡ ok after
    → (moved : MovedRecord) × (after.records
        ≡ db.records
          ++ new_record type survivor losing admin candidate_id draw.record_id moved ∷ [])
      × (after.candidates
          ≡ decide_some candidate_id MergeStatus.merged (some draw.now) (some admin) db.candidates)
merge-outside type survivor losing admin candidate_id draw db after h =
    let (done, _, mr, e) = merge-inv type survivor losing admin candidate_id draw db after h in
    let (s, l, _, q) = merge_rows-inv type survivor losing admin draw.revision_id db done mr in
    let (rs, cs) = merge_step-outside type survivor losing s l admin draw.revision_id db in
    let records : done.1.records ≡ db.records = ap (λ d. d.1.records) q ∙ rs in
    let candidates : done.1.candidates ≡ db.candidates = ap (λ d. d.1.candidates) q ∙ cs in
    (
      done.0,
      ap (λ d. d.records) e
          ∙ ap
              (λ r.
                r ++ new_record type survivor losing admin candidate_id draw.record_id done.0 ∷ [])
              records,
      ap (λ d. d.candidates) e
          ∙ ap (λ c. decide_some candidate_id MergeStatus.merged (some draw.now) (some admin) c)
              candidates,
    )

pub unmerge-outside :
    (record_id admin : String) (draw : Draw) (db after : Database)
    → unmerge record_id admin draw db ≡ ok after
    → (entry : MergeRecord) × (find_record record_id db.records ≡ some entry)
      × (is_some entry.unmerged_at ≡ false)
      × (after.records ≡ mark_unmerged record_id draw.now admin db.records)
      × (after.candidates ≡ decide_some entry.candidate_id pending none none db.candidates)
unfolding unmerge unmerge_rows
unmerge-outside record_id admin draw db after h =
    elim (Option-cases (find_record record_id db.records)) [
      | inl e ↦ absurd (ground arith)
      | inr (entry, e) ↦
          elim (Result-cases
            (rows_to_unmerge entry.survivor_id entry.losing_id (db.entities entry.entity_type))) [
              | inr (f, r) ↦ absurd (ground arith)
              | inl (rows, r) ↦
                  let o =
                    unmerge_step-outside entry.entity_type entry.survivor_id entry.losing_id rows.0
                      rows.1 admin draw.revision_id draw.fresh entry.moved db in
                  (entry, e, ground arith, ground arith, ground arith)
            ]
    ]
