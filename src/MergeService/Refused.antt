-- ===== src/MergeService/Refused.antt =====
-- A reversal that comes too early is refused: `unmerge` in apps/api/src/admin/merge/merge.service.ts.
use capbase.Base.{
  String, ◌≡◌, refl, ap, ◌∙◌, false, Option, some, is_some, List, [], ◌∷◌, ◌++◌, arith, ok, err,
}
use capbase.MergeService.Store.{
  IdentifiableType, company, investor, person, Entity, MergeRecord, Database, find_entity,
  find_record, set_merged_into,
}
use capbase.MergeService.Calls.{Draw, survivor_merged_away}
use capbase.MergeService.Merging.{move_shared, move_company, merge_step, new_record, merge}
use capbase.MergeService.Unmerging.{rows_to_unmerge, unmerge_rows, unmerge}
use capbase.MergeService.Reversal.{rows_to_merge-inv, find_entity-set_merged_into, find_entity-id}
use capbase.MergeService.Undone.{merge-inv, merge_rows-inv}

find_record-append :
    (id : String) (records more : List MergeRecord) (entry : MergeRecord)
    → find_record id records ≡ some entry
    → find_record id (records ++ more) ≡ some entry
unfolding find_record
find_record-append id [] more entry h = absurd (ground arith)
find_record-append id (row ∷ records) more entry h =
    ground (arith, find_record-append id records more entry)

rows_to_unmerge-refused :
    (next survivor losing : String) (rows : List Entity) (s l : Entity)
    → find_entity survivor rows ≡ some s
    → find_entity losing rows ≡ some l
    → rows_to_unmerge survivor losing (set_merged_into survivor (some next) rows)
      ≡ err survivor_merged_away
unfolding rows_to_unmerge
rows_to_unmerge-refused next survivor losing rows s l fs fl =
    let ms = find_entity-set_merged_into survivor survivor next rows s fs in
    let ml = find_entity-set_merged_into losing survivor next rows l fl in
    let here = find_entity-id survivor rows s fs in ground (arith, ms, ml, here)

unmerge-refused :
    (id reviewer : String) (draw : Draw) (db : Database) (entry : MergeRecord)
    → find_record id db.records ≡ some entry
    → is_some entry.unmerged_at ≡ false
    → rows_to_unmerge entry.survivor_id entry.losing_id (db.entities entry.entity_type)
      ≡ err survivor_merged_away
    → unmerge id reviewer draw db ≡ err survivor_merged_away
unfolding unmerge unmerge_rows
unmerge-refused id reviewer draw db entry f n u = ground arith

merge_step-entities :
    (type : IdentifiableType) (survivor losing : String) (s l : Entity) (admin rid : String)
    (db : Database)
    → let done = (merge_step type survivor losing s l admin rid db).1 in
      (done.entities type ≡ set_merged_into losing (some survivor) (db.entities type))
      × (done.records ≡ db.records)
unfolding merge_step move_shared move_company
merge_step-entities company survivor losing s l admin rid db = (refl, refl)
merge_step-entities investor survivor losing s l admin rid db = (refl, refl)
merge_step-entities person survivor losing s l admin rid db = (refl, refl)

-- Reversals go in the opposite order of merges: a standing merge can not be reversed after its survivor
-- was itself folded into another row. The call throws that the survivor has been merged away, whoever
-- makes it and whatever it would draw.
pub merge-unmerge_refused :
    (id reviewer next admin : String) (candidate_id : Option String) (entry : MergeRecord)
    (loser : Entity) (draw later : Draw) (db merged : Database)
    → find_record id db.records ≡ some entry
    → is_some entry.unmerged_at ≡ false
    → find_entity entry.losing_id (db.entities entry.entity_type) ≡ some loser
    → merge entry.entity_type next entry.survivor_id admin candidate_id draw db ≡ ok merged
    → unmerge id reviewer later merged ≡ err survivor_merged_away
merge-unmerge_refused id reviewer next admin candidate_id entry loser draw later db merged f n fl
      h =
    let (done, _, mr, e) =
      merge-inv entry.entity_type next entry.survivor_id admin candidate_id draw db merged h in
    let (s, l, rows, q) =
      merge_rows-inv entry.entity_type next entry.survivor_id admin draw.revision_id db done mr in
    let (_, fs, _, _) =
      rows_to_merge-inv next entry.survivor_id (db.entities entry.entity_type) s l rows in
    let (es, rs) =
      merge_step-entities entry.entity_type next entry.survivor_id s l admin draw.revision_id db in
    let step = merge_step entry.entity_type next entry.survivor_id s l admin draw.revision_id db in
    let more =
      new_record entry.entity_type next entry.survivor_id admin candidate_id draw.record_id done.0
      ∷ [] in
    let kept : find_record id step.1.records ≡ some entry = rw rs f in
    let entities : merged.entities entry.entity_type
        ≡ set_merged_into entry.survivor_id (some next) (db.entities entry.entity_type) =
      ap (λ d. d.entities entry.entity_type) e ∙ ap (λ d. d.1.entities entry.entity_type) q ∙ es in
    let records : find_record id merged.records ≡ some entry =
      ap (λ d. find_record id d.records) e
      ∙ ap (λ d. find_record id (d.1.records ++ more)) q
      ∙ find_record-append id step.1.records more entry kept in
    unmerge-refused id reviewer later merged entry records n (
      rw entities (
        rows_to_unmerge-refused next entry.survivor_id entry.losing_id
          (db.entities entry.entity_type) l loser fs fl))
