-- ===== src/MergeService/Parts.antt =====
-- The steps of a merge and of its reversal on one kind of row each: `remapByCompany`, `remapByColumn`,
-- the saved companies and the revisions of `mergeCompany`, `moveCitations`, `moveIdentifiers`, and what
-- restores them, in apps/api/src/admin/merge/merge.service.ts.
use text.Mathlib.Text.{◌==◌}
use capbase.Base.{
  ℕ, String, Bool, false, ◌&&◌, none, some, List, [], ◌∷◌, ◌++◌, map, if◌then◌else◌, Text, has,
  has_text, keep,
}
use capbase.MergeService.Rows.{
  Loop, ids_where, update_ids, move_loop, moved_table, update_where, create_rows,
}
use capbase.MergeService.Store.{
  Model, same_model, Column, Child, get_column, set_column, SavedCompany, Citation,
  EntityIdentifier, Revision, DeletedSave, DeletedCitation, DeletedIdentifier, with_table,
}

-- `where: { [column]: id }`
abbrev pub points_to : Column → String → Child → Bool
points_to column id row = elim (get_column column row) [ none ↦ false | some owner ↦ owner == id ]

unfoldable pub remap_children :
    List (Model × Column)
    → String
    → String
    → (Model → List Child)
    → (Model → List Child) × List (Model × List String)
remap_children [] losing survivor tables = (tables, [])
remap_children (child ∷ children) losing survivor tables =
    let ids = ids_where (λ row. row.id) (points_to child.1 losing) (tables child.0) in
    let rows = update_ids (λ row. row.id) ids (set_column child.1 survivor) (tables child.0) in
    let rest = remap_children children losing survivor (with_table child.0 rows tables) in
    (rest.0, (child.0, ids) ∷ rest.1)

-- `moved.remapped[model] ?? []`
unfoldable pub remapped_ids : Model → List (Model × List String) → List String
remapped_ids model [] = []
remapped_ids model (entry ∷ remapped) =
    if same_model entry.0 model then entry.1 else remapped_ids model remapped

unfoldable pub restore_children :
    List (Model × Column)
    → String
    → List (Model × List String)
    → (Model → List Child)
    → Model
    → List Child
restore_children [] losing remapped tables = tables
restore_children (child ∷ children) losing remapped tables =
    let rows =
      update_ids (λ row. row.id) (remapped_ids child.0 remapped) (set_column child.1 losing)
        (tables child.0) in
    restore_children children losing remapped (with_table child.0 rows tables)

-- The saved companies.
abbrev pub saved_of : String → SavedCompany → Bool
saved_of company_id save = save.company_id == company_id

abbrev pub already_saved : String → List SavedCompany → SavedCompany → Bool
already_saved survivor saves save =
    has save.user_id (map (λ s. s.user_id) (keep (saved_of survivor) saves))

abbrev pub save_on : String → SavedCompany → SavedCompany
save_on company_id save = record save { company_id = company_id }

abbrev pub deleted_save : SavedCompany → DeletedSave
deleted_save save = record { user_id = save.user_id; created_at = save.created_at }

abbrev pub create_save : (ℕ → String) → String → ℕ → DeletedSave → SavedCompany
create_save fresh losing n s = record {
  id = fresh n;
  user_id = s.user_id;
  company_id = losing;
  created_at = s.created_at;
}

unfoldable pub save_loop : String → String → List SavedCompany → Loop SavedCompany
save_loop survivor losing saves =
    move_loop (λ s. s.id) (saved_of losing) (already_saved survivor saves) saves

unfoldable pub move_saves : String → String → List SavedCompany → List SavedCompany
move_saves survivor losing saves =
    moved_table (λ s. s.id) (saved_of losing) (already_saved survivor saves) (save_on survivor)
      saves

unfoldable pub restore_saves :
    (ℕ → String) → String → List String → List DeletedSave → List SavedCompany → List SavedCompany
restore_saves fresh losing remap deleted saves =
    update_ids (λ s. s.id) remap (save_on losing) saves
    ++ create_rows (create_save fresh losing) 0 deleted

-- The citations of a row of a type.
abbrev pub cited_on : String → String → Citation → Bool
cited_on entity_type entity_id c = c.entity_type == entity_type && c.entity_id == entity_id

-- `${sourceId}:${field}`
abbrev pub citation_key : Citation → Text
citation_key c = c.source_id ++ b':' ∷ c.field

abbrev pub already_cited : String → String → List Citation → Citation → Bool
already_cited entity_type survivor citations c =
    has_text (citation_key c) (map citation_key (keep (cited_on entity_type survivor) citations))

abbrev pub cite_on : String → Citation → Citation
cite_on entity_id c = record c { entity_id = entity_id }

abbrev pub deleted_citation : Citation → DeletedCitation
deleted_citation c = record {
  source_id = c.source_id;
  entity_type = c.entity_type;
  field = c.field;
  note = c.note;
  submitted_by_id = c.submitted_by_id;
  created_at = c.created_at;
}

abbrev pub create_citation : (ℕ → String) → String → ℕ → DeletedCitation → Citation
create_citation fresh losing n c = record {
  id = fresh n;
  source_id = c.source_id;
  entity_type = c.entity_type;
  entity_id = losing;
  field = c.field;
  note = c.note;
  submitted_by_id = c.submitted_by_id;
  created_at = c.created_at;
}

unfoldable pub citation_loop : String → String → String → List Citation → Loop Citation
citation_loop entity_type survivor losing citations =
    move_loop (λ c. c.id) (cited_on entity_type losing)
      (already_cited entity_type survivor citations) citations

unfoldable pub move_citations : String → String → String → List Citation → List Citation
move_citations entity_type survivor losing citations =
    moved_table (λ c. c.id) (cited_on entity_type losing)
      (already_cited entity_type survivor citations) (cite_on survivor) citations

unfoldable pub restore_citations :
    (ℕ → String) → String → List String → List DeletedCitation → List Citation → List Citation
restore_citations fresh losing remap deleted citations =
    update_ids (λ c. c.id) remap (cite_on losing) citations
    ++ create_rows (create_citation fresh losing) 0 deleted

-- The identifiers of a row of a type.
abbrev pub identifies : String → String → EntityIdentifier → Bool
identifies entity_type entity_id i = i.entity_type == entity_type && i.entity_id == entity_id

-- `${scheme}:${value}`
abbrev pub identifier_key : EntityIdentifier → Text
identifier_key i = i.scheme ++ b':' ∷ i.value

abbrev pub already_held : String → String → List EntityIdentifier → EntityIdentifier → Bool
already_held entity_type survivor identifiers i =
    has_text (identifier_key i)
      (map identifier_key (keep (identifies entity_type survivor) identifiers))

abbrev pub identify : String → EntityIdentifier → EntityIdentifier
identify entity_id i = record i { entity_id = entity_id }

abbrev pub deleted_identifier : EntityIdentifier → DeletedIdentifier
deleted_identifier i = record {
  scheme = i.scheme;
  value = i.value;
  source = i.source;
  created_at = i.created_at;
}

abbrev pub create_identifier :
    (ℕ → String) → String → String → ℕ → DeletedIdentifier → EntityIdentifier
create_identifier fresh entity_type losing n i = record {
  id = fresh n;
  scheme = i.scheme;
  value = i.value;
  entity_type = entity_type;
  entity_id = losing;
  source = i.source;
  created_at = i.created_at;
}

unfoldable pub identifier_loop :
    String → String → String → List EntityIdentifier → Loop EntityIdentifier
identifier_loop entity_type survivor losing identifiers =
    move_loop (λ i. i.id) (identifies entity_type losing)
      (already_held entity_type survivor identifiers) identifiers

unfoldable pub move_identifiers :
    String → String → String → List EntityIdentifier → List EntityIdentifier
move_identifiers entity_type survivor losing identifiers =
    moved_table (λ i. i.id) (identifies entity_type losing)
      (already_held entity_type survivor identifiers) (identify survivor) identifiers

unfoldable pub restore_identifiers :
    (ℕ → String)
    → String
    → String
    → List String
    → List DeletedIdentifier
    → List EntityIdentifier
    → List EntityIdentifier
restore_identifiers fresh entity_type losing remap deleted identifiers =
    update_ids (λ i. i.id) remap (identify losing) identifiers
    ++ create_rows (create_identifier fresh entity_type losing) 0 deleted

-- The revisions, by both of their columns.
abbrev pub revises_company : String → Revision → Bool
revises_company losing r = r.company_id == losing

abbrev pub revises_entity : String → Revision → Bool
revises_entity losing r = r.entity_type == "company" && r.entity_id == losing

abbrev pub set_revision_company : String → Revision → Revision
set_revision_company id r = record r { company_id = id }

abbrev pub set_revision_entity : String → Revision → Revision
set_revision_entity id r = record r { entity_id = id }

unfoldable pub move_revisions : String → String → List Revision → List Revision
move_revisions survivor losing revisions =
    update_where (λ r. r.id) (revises_entity losing) (set_revision_entity survivor)
      (update_where (λ r. r.id) (revises_company losing) (set_revision_company survivor) revisions)

unfoldable pub restore_revisions :
    String → List String → List String → List Revision → List Revision
restore_revisions losing company_ids entity_ids revisions =
    update_ids (λ r. r.id) entity_ids (set_revision_entity losing)
      (update_ids (λ r. r.id) company_ids (set_revision_company losing) revisions)
