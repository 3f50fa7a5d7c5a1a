-- ===== src/MergeService/Merging.antt =====
-- `merge` of apps/api/src/admin/merge/merge.service.ts. A transaction that throws changes nothing, so a call
-- returns the new database or the error. The ids and the time that one call draws are an argument. The row
-- locks, and the refresh of the directory counts after the transaction, are left out.
use text.Mathlib.Text.{◌==◌}
use capbase.Base.{
  ℕ, String, Bool, ◌||◌, Option, none, some, is_some, List, [], ◌∷◌, ◌++◌, map, if◌then◌else◌,
  Result, ok, err, ◌>>=◌, ◌>>◌, fail_if,
}
use capbase.MergeService.Rows.{ids_where}
use capbase.MergeService.Store.{
  IdentifiableType, type_name, Entity, Model, Column, company_children, investor_children,
  person_children, Revision, MergeStatus, MergeCandidate, MovedRecord, empty_moved, MergeRecord,
  Database, is_company, find_entity, set_merged_into, same_type, with_entities, company, investor,
  person, slug_and_name,
}
use capbase.MergeService.Parts.{
  remap_children, deleted_save, save_loop, move_saves, deleted_citation, citation_loop,
  move_citations, deleted_identifier, identifier_loop, move_identifiers, revises_company,
  revises_entity, move_revisions,
}
use capbase.MergeService.Calls.{
  Draw, MergeError, already_merged_away, merged_into_itself, row_missing,
}

-- The entry on the survivor's timeline.
unfoldable pub whole_row_revision : String → String → String → Entity → Entity → String → Revision
whole_row_revision id survivor action before after admin = record {
  id = id;
  company_id = survivor;
  entity_type = "company";
  entity_id = survivor;
  field = [];
  before = some (slug_and_name before.slug before.name);
  after = some (slug_and_name after.slug after.name);
  action = action;
  actor = "ADMIN";
  actor_user_id = some admin;
}

abbrev pub merged_away : Entity → Bool
merged_away row = is_some row.merged_into_id

-- Both rows of a merge, which neither may be merged away.
unfoldable pub rows_to_merge : String → String → List Entity → Result MergeError (Entity × Entity)
rows_to_merge survivor losing rows = elim (find_entity survivor rows) [
  | none ↦ err row_missing
  | some s ↦ elim (find_entity losing rows) [
    | none ↦ err row_missing
    | some l ↦ if merged_away s || merged_away l then err already_merged_away else ok (s, l)
  ]
]

-- The columns that a merge of each type repoints.
abbrev pub children_of : IdentifiableType → List (Model × Column)
children_of company = company_children
children_of investor = investor_children
children_of person = person_children

-- The steps that all three types have; a person's citations stay.
unfoldable pub move_shared : IdentifiableType → String → String → Database → MovedRecord × Database
move_shared type survivor losing db =
    let name = type_name type in
    let children = remap_children (children_of type) losing survivor db.tables in
    let ids = identifier_loop name survivor losing db.identifiers in
    let cites = citation_loop name survivor losing db.citations in
    let keeps_citations = same_type type person in
    (
      record empty_moved {
        remapped = children.1;
        citation_ids = if keeps_citations then [] else cites.remap;
        deleted_citations = if keeps_citations then [] else map deleted_citation cites.deleted;
        identifier_ids = ids.remap;
        deleted_identifiers = map deleted_identifier ids.deleted;
      },
      record db {
        tables = children.0;
        citations =
            if keeps_citations
            then db.citations
            else move_citations name survivor losing db.citations;
        identifiers = move_identifiers name survivor losing db.identifiers;
      },
    )

-- The further steps of `mergeCompany`: the saves, the revisions, and the entry on the timeline.
unfoldable pub move_company :
    String
    → String
    → Entity
    → Entity
    → String
    → String
    → MovedRecord × Database
    → MovedRecord × Database
move_company survivor losing s l admin revision_id (moved, db) =
    let saves = save_loop survivor losing db.saves in
    (
      record moved {
        remapped_saves = saves.remap;
        deleted_saved_companies = map deleted_save saves.deleted;
        revision_company_ids = ids_where (λ r. r.id) (revises_company losing) db.revisions;
        revision_entity_ids = ids_where (λ r. r.id) (revises_entity losing) db.revisions;
      },
      record db {
        saves = move_saves survivor losing db.saves;
        revisions =
            move_revisions survivor losing db.revisions
            ++ whole_row_revision revision_id survivor "MERGE" l s admin ∷ [];
      },
    )

-- All the writes of `mergeCompany`, `mergeInvestor` or `mergePerson`.
unfoldable pub merge_step :
    IdentifiableType
    → String
    → String
    → Entity
    → Entity
    → String
    → String
    → Database
    → MovedRecord × Database
merge_step type survivor losing s l admin revision_id db =
    let shared = move_shared type survivor losing db in
    let step =
      if is_company type
      then move_company survivor losing s l admin revision_id shared
      else shared in
    (step.0, with_entities type (set_merged_into losing (some survivor) (db.entities type)) step.1)

unfoldable pub merge_rows :
    IdentifiableType
    → String
    → String
    → String
    → String
    → Database
    → Result MergeError (MovedRecord × Database)
merge_rows type survivor losing admin revision_id db =
    rows_to_merge survivor losing (db.entities type) >>= λ rows.
    ok (merge_step type survivor losing rows.0 rows.1 admin revision_id db)

-- `mergeCandidate.update` by id, which throws where there is no row; here it then changes nothing.
unfoldable pub decide :
    String → MergeStatus → Option ℕ → Option String → List MergeCandidate → List MergeCandidate
decide id status at by [] = []
decide id status at by (row ∷ rows) =
    (if row.id == id
      then record row { status = status; decided_at = at; decided_by_id = by }
      else row)
    ∷ decide id status at by rows

abbrev pub decide_some :
    Option String
    → MergeStatus
    → Option ℕ
    → Option String
    → List MergeCandidate
    → List MergeCandidate
decide_some none status at by rows = rows
decide_some (some id) status at by rows = decide id status at by rows

unfoldable pub new_record :
    IdentifiableType → String → String → String → Option String → String → MovedRecord → MergeRecord
new_record type survivor losing admin candidate_id id moved = record {
  id = id;
  entity_type = type;
  survivor_id = survivor;
  losing_id = losing;
  moved = moved;
  candidate_id = candidate_id;
  merged_by_id = admin;
  unmerged_at = none;
  unmerged_by_id = none;
}

unfoldable pub merge :
    IdentifiableType
    → String
    → String
    → String
    → Option String
    → Draw
    → Database
    → Result MergeError Database
merge type survivor losing admin candidate_id draw db = do
  fail_if (survivor == losing) merged_into_itself
  done ← merge_rows type survivor losing admin draw.revision_id db
  let entry = new_record type survivor losing admin candidate_id draw.record_id done.0
  ok (record done.1 {
    records = done.1.records ++ entry ∷ [];
    candidates =
        decide_some candidate_id MergeStatus.merged (some draw.now) (some admin) done.1.candidates;
  })
