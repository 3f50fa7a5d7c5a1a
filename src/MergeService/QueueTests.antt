-- ===== src/MergeService/QueueTests.antt =====
-- The queue of pairs and a refused reversal, on small tables, and the theorems at them:
-- apps/api/src/admin/merge/merge.service.ts.
use capbase.Base.{String, ◌≡◌, refl, none, some, List, [], ◌∷◌, has_text, eq_text, err}
use capbase.MergeService.Rows.{
  ids_where, update_ids, delete_id, move_rows, move_loop, moved_table, update_where,
}
use capbase.MergeService.Store.{
  company, investor, person, Entity, pending, Database, find_entity, find_record, set_merged_into,
}
use capbase.MergeService.Parts.{
  remap_children, save_loop, move_saves, citation_loop, move_citations, identifier_loop,
  move_identifiers, move_revisions,
}
use capbase.MergeService.Merging.{
  rows_to_merge, move_shared, move_company, merge_step, merge_rows, new_record, decide, merge,
  whole_row_revision,
}
use capbase.MergeService.Unmerging.{unmerge}
use capbase.Base.{take, ℕ}
use capbase.MergeService.Store.{MergeRecord, MergeCandidate}
use capbase.MergeService.Calls.{survivor_merged_away}
use capbase.MergeService.Refused.{merge-unmerge_refused}
use capbase.MergeService.Pages.{
  page_rows, page_window, of_signal, count_by_signal, newest_first, insert_newest, skip_rows,
}
use capbase.MergeService.Paged.{ordered_queue, page_rows-slice}
use capbase.MergeService.Samples.{acme, acme_inc, db, later, outcome, merged_db}

-- A third company, into which the survivor goes.
abbrev zenith : Entity
zenith = record { id = "z"; slug = "zenith"; name = "Zenith"; merged_into_id = none }

abbrev three_companies : Database
three_companies = record merged_db {
  entities = λ type. elim type [
    | company ↦ zenith ∷ acme ∷ record acme_inc { merged_into_id = some "a" } ∷ []
    | investor ↦ []
    | person ↦ []
  ];
}

abbrev first_merge : MergeRecord
first_merge = record {
  id = "m1";
  entity_type = company;
  survivor_id = "a";
  losing_id = "b";
  moved = (merge_step company "a" "b" acme acme_inc "admin" "v1" db).0;
  candidate_id = some "p";
  merged_by_id = "admin";
  unmerged_at = none;
  unmerged_by_id = none;
}

merge-unmerge_refused_example :
    unmerge "m1" "admin" later (outcome (merge company "z" "a" "admin" none later three_companies))
    ≡ err survivor_merged_away
unfolding find_record merge merge_rows rows_to_merge find_entity merge_step move_shared move_company
    new_record decide remap_children save_loop move_saves citation_loop move_citations
    identifier_loop move_identifiers move_revisions ids_where update_ids update_where move_loop
    move_rows moved_table delete_id has_text eq_text whole_row_revision set_merged_into
merge-unmerge_refused_example =
    merge-unmerge_refused "m1" "admin" "z" "admin" none first_merge
      (record acme_inc { merged_into_id = some "a" }) later later three_companies
      (outcome (merge company "z" "a" "admin" none later three_companies)) refl refl refl refl

abbrev pair : String → String → ℕ → MergeCandidate
pair id signal created_at = record {
  id = id;
  entity_type = company;
  left_id = "a";
  right_id = "b";
  signal = signal;
  evidence = "acme";
  status = pending;
  decided_at = none;
  decided_by_id = none;
  created_at = created_at;
}

abbrev pairs : List MergeCandidate
pairs = pair "1" "name" 1 ∷ pair "2" "identifier" 2 ∷ pair "3" "name" 3 ∷ pair "4" "domain" 4 ∷ []

first_page :
    page_rows pending none 1 pairs
    ≡ pair "2" "identifier" 2 ∷ pair "4" "domain" 4 ∷ pair "3" "name" 3 ∷ pair "1" "name" 1 ∷ []
unfolding page_rows page_window of_signal count_by_signal newest_first insert_newest skip_rows
first_page = refl

page_rows-slice_example :
    page_rows pending none 1 pairs ≡ take 25 (skip_rows 0 (ordered_queue pending none pairs))
page_rows-slice_example = page_rows-slice pending none 1 pairs
