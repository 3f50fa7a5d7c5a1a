-- ===== src/MergeService/Unmerging.antt =====
-- `unmerge` of apps/api/src/admin/merge/merge.service.ts, as a call that returns the new database or the error.
use text.Mathlib.Text.{◌==◌}
use capbase.Base.{
  ℕ, String, none, some, is_some, List, [], ◌∷◌, ◌++◌, if◌then◌else◌, Result, ok, err, ◌>>=◌, ◌>>◌,
  fail_if,
}
use capbase.MergeService.Store.{
  IdentifiableType, type_name, Entity, MovedRecord, MergeRecord, Database, is_company, find_entity,
  find_record, set_merged_into, same_type, with_entities, person, pending,
}
use capbase.MergeService.Parts.{
  restore_children, restore_saves, restore_citations, restore_identifiers, restore_revisions,
}
use capbase.MergeService.Calls.{
  Draw, MergeError, already_reversed, no_longer_merged, record_missing, row_missing,
  survivor_merged_away,
}
use capbase.MergeService.Merging.{children_of, decide_some, merged_away, whole_row_revision}

-- Both rows of a reversal: the loser is still merged into the survivor, which is not merged away.
unfoldable pub rows_to_unmerge : String → String → List Entity → Result MergeError (Entity × Entity)
rows_to_unmerge survivor losing rows = elim (find_entity survivor rows) [
  | none ↦ err row_missing
  | some s ↦ elim (find_entity losing rows) [
    | none ↦ err row_missing
    | some l ↦ if merged_away s then err survivor_merged_away else elim l.merged_into_id [
      | none ↦ err no_longer_merged
      | some target ↦ if target == survivor then ok (s, l) else err no_longer_merged
    ]
  ]
]

unfoldable pub restore_shared :
    IdentifiableType → String → (ℕ → String) → MovedRecord → Database → Database
restore_shared type losing fresh moved db = record db {
  tables = restore_children (children_of type) losing moved.remapped db.tables;
  citations =
      if same_type type person
      then db.citations
      else restore_citations fresh losing moved.citation_ids moved.deleted_citations db.citations;
  identifiers =
      restore_identifiers fresh (type_name type) losing moved.identifier_ids
        moved.deleted_identifiers db.identifiers;
}

unfoldable pub restore_company :
    String
    → String
    → Entity
    → Entity
    → String
    → String
    → (ℕ → String)
    → MovedRecord
    → Database
    → Database
restore_company survivor losing s l admin revision_id fresh moved db = record db {
  saves = restore_saves fresh losing moved.remapped_saves moved.deleted_saved_companies db.saves;
  revisions =
      restore_revisions losing moved.revision_company_ids moved.revision_entity_ids db.revisions
      ++ whole_row_revision revision_id survivor "UNMERGE" s l admin ∷ [];
}

-- All the writes of `unmergeCompany`, `unmergeInvestor` or `unmergePerson`.
unfoldable pub unmerge_step :
    IdentifiableType
    → String
    → String
    → Entity
    → Entity
    → String
    → String
    → (ℕ → String)
    → MovedRecord
    → Database
    → Database
unmerge_step type survivor losing s l admin revision_id fresh moved db =
    let shared = restore_shared type losing fresh moved db in
    let step =
      if is_company type
      then restore_company survivor losing s l admin revision_id fresh moved shared
      else shared in
    with_entities type (set_merged_into losing none (db.entities type)) step

unfoldable pub unmerge_rows :
    IdentifiableType
    → String
    → String
    → String
    → String
    → (ℕ → String)
    → MovedRecord
    → Database
    → Result MergeError Database
unmerge_rows type survivor losing admin revision_id fresh moved db =
    rows_to_unmerge survivor losing (db.entities type) >>= λ rows.
    ok (unmerge_step type survivor losing rows.0 rows.1 admin revision_id fresh moved db)

-- `mergeRecord.update` by id.
unfoldable pub mark_unmerged : String → ℕ → String → List MergeRecord → List MergeRecord
mark_unmerged id at admin [] = []
mark_unmerged id at admin (row ∷ rows) =
    (if row.id == id
      then record row { unmerged_at = some at; unmerged_by_id = some admin }
      else row)
    ∷ mark_unmerged id at admin rows

unfoldable pub unmerge : String → String → Draw → Database → Result MergeError Database
unmerge record_id admin draw db = elim (find_record record_id db.records) [
  | none ↦ err record_missing
  | some entry ↦ do
    fail_if (is_some entry.unmerged_at) already_reversed
    after ←
        unmerge_rows entry.entity_type entry.survivor_id entry.losing_id admin draw.revision_id
          draw.fresh entry.moved db
    ok (record after {
      records = mark_unmerged record_id draw.now admin after.records;
      candidates = decide_some entry.candidate_id pending none none after.candidates;
    })
]
