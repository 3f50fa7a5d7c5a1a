-- ===== src/MergeService/Tests.antt =====
-- A merge and its reversal on small tables, and the theorems at them:
-- apps/api/src/admin/merge/merge.service.ts.
use capbase.Base.{◌≡◌, refl, none, some, [], ◌∷◌, has_text, eq_text, ok, err}
use capbase.MergeService.Rows.{
  ids_where, update_ids, delete_id, move_rows, move_loop, moved_table, update_where, create_rows,
  IsKeyed,
}
use capbase.MergeService.Store.{
  IdentifiableType, company, investor, person, Model, funding_round, Database, find_entity,
  find_candidate, find_record, set_merged_into,
}
use capbase.MergeService.Parts.{
  remap_children, remapped_ids, restore_children, save_loop, move_saves, restore_saves,
  citation_loop, move_citations, restore_citations, identifier_loop, move_identifiers,
  restore_identifiers, move_revisions, restore_revisions,
}
use capbase.MergeService.Calls.{already_merged_away}
use capbase.MergeService.Merging.{
  rows_to_merge, move_shared, move_company, merge_step, merge_rows, new_record, decide, merge,
  whole_row_revision,
}
use capbase.MergeService.Unmerging.{
  rows_to_unmerge, restore_shared, restore_company, unmerge_step, unmerge_rows, mark_unmerged,
  unmerge,
}
use capbase.MergeService.Queue.{merge_candidate}
use capbase.MergeService.Restoring.{EachTableKeyed, Restored}
use capbase.MergeService.Undone.{unmerge-merge}
use capbase.MergeService.Vacated.{IsVacated, merge-IsVacated}
use capbase.MergeService.Unique.{UniqueKeys, merge-UniqueKeys}
use capbase.MergeService.Candidates.{count_live, IsCounted, merge_pair, reverse, here, onward}
use capbase.MergeService.Counted.{Reaches-IsCounted}
use capbase.MergeService.Samples.{entities, tables, db, draw, later, outcome, merged_db}

saves_after :
    merged_db.saves
    ≡ record { id = "s2"; user_id = "u"; company_id = "a"; created_at = 2 }
      ∷ record { id = "s3"; user_id = "v"; company_id = "a"; created_at = 3 }
      ∷ []
unfolding merge merge_rows rows_to_merge find_entity merge_step move_shared move_company new_record
    decide remap_children save_loop move_saves citation_loop move_citations identifier_loop
    move_identifiers move_revisions ids_where update_ids update_where move_loop move_rows
    moved_table delete_id has_text eq_text whole_row_revision set_merged_into
saves_after = refl

saves_restored :
    (outcome (unmerge "m1" "admin" later merged_db)).saves
    ≡ record { id = "s2"; user_id = "u"; company_id = "a"; created_at = 2 }
      ∷ record { id = "s3"; user_id = "v"; company_id = "b"; created_at = 3 }
      ∷ record { id = "n"; user_id = "u"; company_id = "b"; created_at = 1 }
      ∷ []
unfolding unmerge find_record unmerge_rows rows_to_unmerge unmerge_step restore_shared
    restore_company restore_children remapped_ids restore_saves restore_citations
    restore_identifiers restore_revisions create_rows mark_unmerged merge merge_rows rows_to_merge
    find_entity merge_step move_shared move_company new_record decide remap_children save_loop
    move_saves citation_loop move_citations identifier_loop move_identifiers move_revisions
    ids_where update_ids update_where move_loop move_rows moved_table delete_id has_text eq_text
    whole_row_revision set_merged_into
saves_restored = refl

refused_twice : merge company "a" "b" "admin" none later merged_db ≡ err already_merged_away
unfolding merge merge_rows rows_to_merge find_entity merge_step move_shared move_company new_record
    decide remap_children save_loop move_saves citation_loop move_citations identifier_loop
    move_identifiers move_revisions ids_where update_ids update_where move_loop move_rows
    moved_table delete_id has_text eq_text whole_row_revision set_merged_into
refused_twice = refl

db-EachTableKeyed : EachTableKeyed db
db-EachTableKeyed = record {
  entities = λ type. entities_keyed type;
  tables = λ model. tables_keyed model;
  saves = ((refl, (refl, tt)), ((refl, tt), (tt, tt)));
  revisions = tt;
  citations = ((refl, tt), (tt, tt));
  identifiers = (tt, tt);
}
  where
    entities_keyed : (type : IdentifiableType) → IsKeyed (λ row. row.id) (entities type)
    entities_keyed company = ((refl, tt), (tt, tt))
    entities_keyed investor = tt
    entities_keyed person = tt

    tables_keyed : (model : Model) → IsKeyed (λ row. row.id) (tables model)
    tables_keyed funding_round = ((refl, tt), (tt, tt))
    tables_keyed _ = tt

unmerge-merge_example :
    (after : Database) × (unmerge "m1" "admin" later merged_db ≡ ok after)
    × Restored db merged_db after
unfolding merge merge_rows rows_to_merge find_entity merge_step move_shared move_company new_record
    decide remap_children save_loop move_saves citation_loop move_citations identifier_loop
    move_identifiers move_revisions ids_where update_ids update_where move_loop move_rows
    moved_table delete_id has_text eq_text whole_row_revision set_merged_into
unmerge-merge_example =
    unmerge-merge company "a" "b" "admin" "admin" (some "p") draw later db merged_db
      db-EachTableKeyed tt tt refl

merge-IsVacated_example : IsVacated company "a" "b" merged_db
unfolding merge merge_rows rows_to_merge find_entity merge_step move_shared move_company new_record
    decide remap_children save_loop move_saves citation_loop move_citations identifier_loop
    move_identifiers move_revisions ids_where update_ids update_where move_loop move_rows
    moved_table delete_id has_text eq_text whole_row_revision set_merged_into
merge-IsVacated_example =
    merge-IsVacated company "a" "b" "admin" (some "p") draw db merged_db db-EachTableKeyed refl

db-UniqueKeys : UniqueKeys db
unfolding eq_text
db-UniqueKeys = record {
  saves = ((refl, (refl, tt)), ((refl, tt), (tt, tt)));
  citations = ((refl, tt), (tt, tt));
  identifiers = (tt, tt);
}

merge-UniqueKeys_example : UniqueKeys merged_db
unfolding merge merge_rows rows_to_merge find_entity merge_step move_shared move_company new_record
    decide remap_children save_loop move_saves citation_loop move_citations identifier_loop
    move_identifiers move_revisions ids_where update_ids update_where move_loop move_rows
    moved_table delete_id has_text eq_text whole_row_revision set_merged_into
merge-UniqueKeys_example =
    merge-UniqueKeys company "a" "b" "admin" (some "p") draw db merged_db db-EachTableKeyed
      db-UniqueKeys refl

abbrev paired_db : Database
paired_db = outcome (merge_candidate "p" "a" "admin" draw db)

-- The pair is merged, and reversed.
Reaches-IsCounted_example : IsCounted (outcome (unmerge "m1" "admin" later paired_db))
unfolding merge_candidate find_candidate count_live unmerge find_record unmerge_rows rows_to_unmerge
    unmerge_step restore_shared restore_company restore_children remapped_ids restore_saves
    restore_citations restore_identifiers restore_revisions create_rows mark_unmerged merge
    merge_rows rows_to_merge find_entity merge_step move_shared move_company new_record decide
    remap_children save_loop move_saves citation_loop move_citations identifier_loop
    move_identifiers move_revisions ids_where update_ids update_where move_loop move_rows
    moved_table delete_id has_text eq_text whole_row_revision set_merged_into
Reaches-IsCounted_example =
    Reaches-IsCounted
      (onward (merge_pair "p" "a" "admin" draw {db = db} {after = paired_db} tt refl) (
        onward
          (reverse "m1" "admin" later {db = paired_db}
            {after = outcome (unmerge "m1" "admin" later paired_db)} refl)
          here))
      (record { keyed = tt; counted = (refl, tt) })
