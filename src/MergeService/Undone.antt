-- ===== src/MergeService/Undone.antt =====
-- A reversal right after a merge gives everything back: apps/api/src/admin/merge/merge.service.ts.
use text.Mathlib.Text.{◌==◌}
use text.Mathlib.TextEquality.{eq_iff}
use capbase.Base.{
  String, ◌≡◌, refl, true, false, Option, none, some, List, [], ◌∷◌, ◌++◌, All, arith, Result-cases,
  inl, inr, ok,
}
use capbase.MergeService.Store.{
  IdentifiableType, Entity, MergeRecord, MergeCandidate, MergeStatus, pending, MovedRecord,
  Database, find_entity, find_record,
}
use capbase.MergeService.Calls.{Draw}
use capbase.MergeService.Merging.{
  rows_to_merge, merge_step, merge_rows, decide_some, merge, new_record,
}
use capbase.MergeService.Unmerging.{unmerge_step, unmerge_rows, mark_unmerged, unmerge}
use capbase.MergeService.Reversal.{rows_to_merge-inv}
use capbase.MergeService.Restoring.{
  EachTableKeyed, Restored, between, unmerge_step-merge_step, unmerge_rows-between,
  merge_step-records,
}

find_record-new :
    (id : String) (records : List MergeRecord) (entry : MergeRecord)
    → All (λ r. id == r.id ≡ false) records
    → id == entry.id ≡ true
    → find_record id (records ++ entry ∷ []) ≡ some entry
unfolding find_record
find_record-new id [] entry h e = ground (arith, eq_iff id entry.id, eq_iff entry.id id)
find_record-new id (r ∷ records) entry h e =
    ground (arith, eq_iff id r.id, eq_iff r.id id, find_record-new id records entry)

pub merge_rows-inv :
    (type : IdentifiableType) (survivor losing admin rid : String) (db : Database)
    (done : MovedRecord × Database)
    → merge_rows type survivor losing admin rid db ≡ ok done
    → (s : Entity) × (l : Entity) × (rows_to_merge survivor losing (db.entities type) ≡ ok (s, l))
      × (done ≡ merge_step type survivor losing s l admin rid db)
unfolding merge_rows
merge_rows-inv type survivor losing admin rid db done h =
    elim (Result-cases (rows_to_merge survivor losing (db.entities type))) [
      | inr (e, r) ↦ absurd (ground arith)
      | inl (rows, r) ↦ (rows.0, rows.1, r, ground arith)
    ]

pub merge-inv :
    (type : IdentifiableType) (survivor losing admin : String) (candidate_id : Option String)
    (draw : Draw) (db merged : Database)
    → merge type survivor losing admin candidate_id draw db ≡ ok merged
    → (done : MovedRecord × Database) × (survivor == losing ≡ false)
      × (merge_rows type survivor losing admin draw.revision_id db ≡ ok done)
      × (merged ≡ record done.1 {
        records =
            done.1.records
            ++ new_record type survivor losing admin candidate_id draw.record_id done.0 ∷ [];
        candidates =
            decide_some candidate_id MergeStatus.merged
              (some draw.now)
              (some admin)
              done.1.candidates;
      })
unfolding merge
merge-inv type survivor losing admin candidate_id draw db merged h =
    elim (Result-cases (merge_rows type survivor losing admin draw.revision_id db)) [
      | inr (e, r) ↦ absurd (ground arith)
      | inl (done, r) ↦ (done, ground arith, r, ground arith)
    ]

-- Restored, with what stands outside the tables of a merge.
Restored-outside :
    (before merged after : Database) (records : List MergeRecord) (candidates : List MergeCandidate)
    → Restored before merged after
    → Restored before merged (record after { records = records; candidates = candidates })
Restored-outside before merged after records candidates r = record {
  entities = r.entities;
  tables = r.tables;
  saves = r.saves;
  citations = r.citations;
  identifiers = r.identifiers;
  revisions = r.revisions;
}

unmerge-found :
    (id reviewer : String) (draw : Draw) (db after : Database) (entry : MergeRecord)
    → find_record id db.records ≡ some entry
    → entry.unmerged_at ≡ none
    → unmerge_rows entry.entity_type entry.survivor_id entry.losing_id reviewer draw.revision_id
        draw.fresh entry.moved db
      ≡ ok after
    → unmerge id reviewer draw db
      ≡ ok (record after {
        records = mark_unmerged id draw.now reviewer after.records;
        candidates = decide_some entry.candidate_id pending none none after.candidates;
      })
unfolding unmerge
unmerge-found id reviewer draw db after entry f n u = ground arith

unmerge_after :
    (type : IdentifiableType) (survivor losing admin reviewer : String)
    (candidate_id : Option String) (draw draw' : Draw) (s l : Entity) (db : Database)
    → EachTableKeyed db
    → All (λ r. draw.record_id == r.id ≡ false) db.records
    → All (λ r. draw.revision_id == r.id ≡ false) db.revisions
    → survivor == losing ≡ false
    → rows_to_merge survivor losing (db.entities type) ≡ ok (s, l)
    → find_entity losing (db.entities type) ≡ some l
    → l.merged_into_id ≡ none
    → let done = merge_step type survivor losing s l admin draw.revision_id db in
      (after : Database) × (unmerge draw.record_id reviewer draw' (record done.1 {
        records =
            done.1.records
            ++ new_record type survivor losing admin candidate_id draw.record_id done.0 ∷ [];
        candidates =
            decide_some candidate_id MergeStatus.merged
              (some draw.now)
              (some admin)
              done.1.candidates;
      })
        ≡ ok after)
      × Restored db
          (record done.1 {
            records =
                done.1.records
                ++ new_record type survivor losing admin candidate_id draw.record_id done.0 ∷ [];
            candidates =
                decide_some candidate_id MergeStatus.merged
                  (some draw.now)
                  (some admin)
                  done.1.candidates;
          })
          after
unfolding new_record between merge_step
unmerge_after type survivor losing admin reviewer candidate_id draw draw' s l db k fr fv d rows
      found free =
    let done = merge_step type survivor losing s l admin draw.revision_id db in
    let entry = new_record type survivor losing admin candidate_id draw.record_id done.0 in
    let records = done.1.records ++ entry ∷ [] in
    let candidates =
      decide_some candidate_id MergeStatus.merged (some draw.now) (some admin) done.1.candidates in
    let l' : Entity = record l { merged_into_id = some survivor } in
    let middle =
      between survivor losing admin reviewer draw.revision_id draw'.revision_id draw'.fresh s l s l'
        db records candidates k fv type in
    let after =
      unmerge_step type survivor losing s l' reviewer draw'.revision_id draw'.fresh done.0 middle in
    let there : find_record draw.record_id records ≡ some entry =
      rw
        (merge_step-records survivor losing admin reviewer draw.revision_id draw'.revision_id
          draw'.fresh s l s l' db records candidates k fv type)
        (find_record-new draw.record_id db.records entry fr
          (ground (arith, eq_iff draw.record_id draw.record_id))) in
    let reversed =
      unmerge_rows-between survivor losing admin reviewer draw.revision_id draw'.revision_id
        draw'.fresh s l s l' db records candidates k fv type done.0 d rows in
    let restored =
      unmerge_step-merge_step survivor losing admin reviewer draw.revision_id draw'.revision_id
        draw'.fresh s l s l' db records candidates k fv type found free in
    (
      record after {
        records = mark_unmerged draw.record_id draw'.now reviewer after.records;
        candidates = decide_some candidate_id pending none none after.candidates;
      },
      unmerge-found draw.record_id reviewer draw' middle after entry there refl reversed,
      Restored-outside db middle after _ _ restored,
    )

-- Where every table has its primary key and the ids drawn for the merge are new: a merge that succeeded
-- can be reversed, by its record. After the reversal the companies, investors and people and the
-- child rows are those before the merge; every saved company, citation and identifier that the merge
-- left in its table is, with its id, as it was before the merge; for each one
-- that it had deleted there is, at the end of the table, a new row with its contents; and revisions are only added. Merge records and candidates are not compared.
pub unmerge-merge :
    (type : IdentifiableType) (survivor losing admin reviewer : String)
    (candidate_id : Option String) (draw draw' : Draw) (db merged : Database)
    → EachTableKeyed db
    → All (λ r. draw.record_id == r.id ≡ false) db.records
    → All (λ r. draw.revision_id == r.id ≡ false) db.revisions
    → merge type survivor losing admin candidate_id draw db ≡ ok merged
    → (after : Database) × (unmerge draw.record_id reviewer draw' merged ≡ ok after)
      × Restored db merged after
unmerge-merge type survivor losing admin reviewer candidate_id draw draw' db merged k fr fv h =
    let (done, d, mr, e) = merge-inv type survivor losing admin candidate_id draw db merged h in
    let (s, l, rows, q) = merge_rows-inv type survivor losing admin draw.revision_id db done mr in
    let (_, found, _, free) = rows_to_merge-inv survivor losing (db.entities type) s l rows in
    rw (e, q)
      (unmerge_after type survivor losing admin reviewer candidate_id draw draw' s l db k fr fv d
        rows found free)
