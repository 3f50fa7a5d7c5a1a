-- ===== src/MergeService/Restoring.antt =====
-- The writes of a reversal right after those of a merge: apps/api/src/admin/merge/merge.service.ts.
use text.Mathlib.Text.{◌==◌}
use mathlib.Core.List.{append_assoc, append-nil}
use capbase.MergeService.Moves.{Returned, untouched-Returned}
use capbase.Base.{
  ℕ, String, ◌≡◌, refl, sym, ap, ◌∙◌, false, none, some, List, [], ◌∷◌, ◌++◌, if◌then◌else◌, All,
  ok,
}
use capbase.MergeService.Rows.{IsKeyed}
use capbase.MergeService.Store.{
  IdentifiableType, company, investor, person, Entity, Model, Revision, MergeRecord, MergeCandidate,
  MovedRecord, Database, find_entity, set_merged_into, same_type,
}
use capbase.MergeService.Merging.{
  rows_to_merge, move_shared, move_company, merge_step, whole_row_revision,
}
use capbase.MergeService.Unmerging.{restore_shared, restore_company, unmerge_step, unmerge_rows}
use capbase.MergeService.Children.{
  save_content, citation_content, identifier_content, saves_back, citations_back, identifiers_back,
  children_back, EachKeyed,
}
use capbase.MergeService.Reversal.{revisions_back, entities_back, rows_to_unmerge-merged}

-- Every table has its primary key.
pub record EachTableKeyed (db : Database) : Type 0 where
  pub entities : (type : IdentifiableType) → IsKeyed (λ row. row.id) (db.entities type)
  pub tables : EachKeyed db.tables
  pub saves : IsKeyed (λ row. row.id) db.saves
  pub revisions : IsKeyed (λ row. row.id) db.revisions
  pub citations : IsKeyed (λ row. row.id) db.citations
  pub identifiers : IsKeyed (λ row. row.id) db.identifiers

-- What a database is like that was `before`, then `merged`, and is `after`: the entities and the child
-- rows are as they were; a saved company, citation or identifier of `before` that is still in
-- `merged` is as it was, with its id, and for each other one there is a new row with its contents;
-- revisions were only added.
pub record Restored (before merged after : Database) : Type 0 where
  pub entities : (type : IdentifiableType) → after.entities type ≡ before.entities type
  pub tables : (model : Model) → after.tables model ≡ before.tables model
  pub saves : Returned (λ s. s.id) save_content before.saves merged.saves after.saves
  pub citations :
      Returned (λ c. c.id) citation_content before.citations merged.citations after.citations
  pub identifiers :
      Returned
        (λ i. i.id)
        identifier_content
        before.identifiers
        merged.identifiers
        after.identifiers
  pub revisions : (added : List Revision) × (after.revisions ≡ before.revisions ++ added)

entities_at :
    (type t : IdentifiableType) (id target : String) (entities : IdentifiableType → List Entity)
    → set_merged_into id none (set_merged_into id (some target) (entities type)) ≡ entities type
    → (if same_type type t
        then set_merged_into id none (set_merged_into id (some target) (entities type))
        else if same_type type t
        then set_merged_into id (some target) (entities type)
        else entities t)
      ≡ entities t
entities_at company company id target entities e = e
entities_at investor investor id target entities e = e
entities_at person person id target entities e = e
entities_at _ _ id target entities e = refl

module _ (survivor losing admin reviewer rid rid' : String) (fresh : ℕ → String)
    (s l s' l' : Entity) (db : Database) (records : List MergeRecord)
    (candidates : List MergeCandidate) (k : EachTableKeyed db)
    (new : All (λ r. rid == r.id ≡ false) db.revisions) where
  -- The database between the two steps, with any records and candidates.
  unfoldable pub between : IdentifiableType → Database
  between type = record (merge_step type survivor losing s l admin rid db).1 {
    records = records;
    candidates = candidates;
  }

  pub unmerge_step-merge_step :
      (type : IdentifiableType)
      → find_entity losing (db.entities type) ≡ some l
      → l.merged_into_id ≡ none
      → Restored db (between type) (
          unmerge_step type survivor losing s' l' reviewer rid' fresh
            (merge_step type survivor losing s l admin rid db).0
            (between type))
  unfolding merge_step unmerge_step move_shared move_company restore_shared restore_company between
  unmerge_step-merge_step company f n = record {
    entities = λ t.
        entities_at company t losing survivor db.entities
          (entities_back losing survivor (db.entities company) l (k.entities company) f n);
    tables = λ m. children_back company survivor losing db.tables m k.tables;
    saves = saves_back fresh survivor losing db.saves k.saves;
    citations = citations_back fresh "company" survivor losing db.citations k.citations;
    identifiers = identifiers_back fresh "company" survivor losing db.identifiers k.identifiers;
    revisions = (
      whole_row_revision rid survivor "MERGE" l s admin
          ∷ whole_row_revision rid' survivor "UNMERGE" s' l' reviewer
          ∷ [],
      ap (λ rows. rows ++ whole_row_revision rid' survivor "UNMERGE" s' l' reviewer ∷ [])
            (revisions_back survivor losing (whole_row_revision rid survivor "MERGE" l s admin)
              db.revisions k.revisions (unfold whole_row_revision in new))
          ∙ append_assoc db.revisions _ _,
    );
  }
  unmerge_step-merge_step investor f n = record {
    entities = λ t.
        entities_at investor t losing survivor db.entities
          (entities_back losing survivor (db.entities investor) l (k.entities investor) f n);
    tables = λ m. children_back investor survivor losing db.tables m k.tables;
    saves = untouched-Returned (λ s. s.id) save_content db.saves k.saves;
    citations = citations_back fresh "investor" survivor losing db.citations k.citations;
    identifiers = identifiers_back fresh "investor" survivor losing db.identifiers k.identifiers;
    revisions = ([], sym (append-nil db.revisions));
  }
  unmerge_step-merge_step person f n = record {
    entities = λ t.
        entities_at person t losing survivor db.entities
          (entities_back losing survivor (db.entities person) l (k.entities person) f n);
    tables = λ m. children_back person survivor losing db.tables m k.tables;
    saves = untouched-Returned (λ s. s.id) save_content db.saves k.saves;
    citations = untouched-Returned (λ c. c.id) citation_content db.citations k.citations;
    identifiers = identifiers_back fresh "person" survivor losing db.identifiers k.identifiers;
    revisions = ([], sym (append-nil db.revisions));
  }

  pub unmerge_rows-between :
      (type : IdentifiableType) (moved : MovedRecord)
      → survivor == losing ≡ false
      → rows_to_merge survivor losing (db.entities type) ≡ ok (s, l)
      → unmerge_rows type survivor losing reviewer rid' fresh moved (between type)
        ≡ ok (
            unmerge_step type survivor losing s
              (record l { merged_into_id = some survivor })
              reviewer
              rid'
              fresh
              moved
              (between type))
  unfolding unmerge_rows merge_step move_shared move_company between
  unmerge_rows-between company moved d h =
      rw (rows_to_unmerge-merged survivor losing (db.entities company) s l d h) refl
  unmerge_rows-between investor moved d h =
      rw (rows_to_unmerge-merged survivor losing (db.entities investor) s l d h) refl
  unmerge_rows-between person moved d h =
      rw (rows_to_unmerge-merged survivor losing (db.entities person) s l d h) refl

  pub merge_step-records :
      (type : IdentifiableType)
      → (merge_step type survivor losing s l admin rid db).1.records ≡ db.records
  unfolding merge_step move_shared move_company
  merge_step-records company = refl
  merge_step-records investor = refl
  merge_step-records person = refl
