-- ===== src/MergeService/Vacated.antt =====
-- Nothing is left on the row that a merge folds away: apps/api/src/admin/merge/merge.service.ts.
use text.Mathlib.Text.{◌==◌}
use capbase.Base.{
  String, ◌≡◌, refl, ◌∙◌, true, false, ◌||◌, ◌++◌, Option, some, List, [], ◌∷◌, All, arith, ok,
}
use capbase.MergeService.Rows.{ids_where, update_ids, update_where, IsKeyed}
use capbase.MergeService.Store.{
  IdentifiableType, company, investor, person, type_name, Entity, Model, Column, company_id,
  investor_id, manager_id, person_id, Child, set_column, SavedCompany, Citation, EntityIdentifier,
  Revision, MergeRecord, MergeCandidate, funding_round, person_role, investor_holding,
  acquisition_deal, exit_event, diversity_signal, change_proposal, company_website_scan,
  company_app, round_investor, fund, fund_commitment, investor_focus, person_contact, Database,
  find_entity, set_merged_into, same_type, is_company,
}
use capbase.MergeService.Parts.{
  points_to, remap_children, saved_of, already_saved, save_on, move_saves, cited_on, already_cited,
  cite_on, move_citations, identifies, already_held, identify, move_identifiers, revises_company,
  revises_entity, move_revisions,
}
use capbase.MergeService.Calls.{Draw}
use capbase.MergeService.Merging.{
  merge_step, move_shared, move_company, merge, children_of, whole_row_revision,
}
use capbase.MergeService.Children.{EachKeyed}
use capbase.MergeService.Reversal.{rows_to_merge-inv, find_entity-set_merged_into, find_entity-id}
use capbase.MergeService.Restoring.{EachTableKeyed}
use capbase.MergeService.Undone.{merge-inv, merge_rows-inv}
use capbase.MergeService.Gone.{repoint-gone, moved_table-gone}

-- The columns of a child table that are foreign keys to a company, an investor or a person, as
-- packages/db/prisma/schema.prisma declares them, table by table.
abbrev pub foreign_keys : Model → List (Column × IdentifiableType)
foreign_keys funding_round = (company_id, company) ∷ []
foreign_keys person_role =
    (person_id, person) ∷ (company_id, company) ∷ (investor_id, investor) ∷ []
foreign_keys investor_holding = (company_id, company) ∷ (investor_id, investor) ∷ []
foreign_keys acquisition_deal = (company_id, company) ∷ []
foreign_keys exit_event = (company_id, company) ∷ []
foreign_keys diversity_signal = (company_id, company) ∷ []
foreign_keys change_proposal = (company_id, company) ∷ []
foreign_keys company_website_scan = (company_id, company) ∷ []
foreign_keys company_app = (company_id, company) ∷ []
foreign_keys round_investor = (investor_id, investor) ∷ []
foreign_keys fund = (manager_id, investor) ∷ []
foreign_keys fund_commitment = (investor_id, investor) ∷ []
foreign_keys investor_focus = (investor_id, investor) ∷ []
foreign_keys person_contact = (person_id, person) ∷ []

-- No foreign key to a row of the type has the id `losing`.
abbrev pub NoneRefers : IdentifiableType → String → (Model → List Child) → Type 0
NoneRefers type losing tables =
    (model : Model)
    → All
        (λ key.
          same_type key.1 type ≡ true
          → All (λ row. points_to key.0 losing row ≡ false) (tables model))
        (foreign_keys model)

-- No row of the tables that a merge of the type moves is on the loser, which points at the survivor.
pub record IsVacated (type : IdentifiableType) (survivor losing : String) (db : Database)
    : Type 0 where
  pub children : NoneRefers type losing db.tables
  pub saves : is_company type ≡ true → All (λ s. saved_of losing s ≡ false) db.saves
  pub citations :
      same_type type person ≡ false
      → All (λ c. cited_on (type_name type) losing c ≡ false) db.citations
  pub revisions :
      is_company type ≡ true
      → All (λ r. revises_company losing r || revises_entity losing r ≡ false) db.revisions
  pub identifiers : All (λ i. identifies (type_name type) losing i ≡ false) db.identifiers
  pub tombstone :
      (l : Entity) × (find_entity losing (db.entities type) ≡ some l)
      × (l.merged_into_id ≡ some survivor)

module _ (survivor losing : String) (different : survivor == losing ≡ false) where
  points_to-leaves :
      (column : Column) (row : Child)
      → points_to column losing row ≡ true
      → points_to column losing (set_column column survivor row) ≡ false
  points_to-leaves company_id row h = different
  points_to-leaves investor_id row h = different
  points_to-leaves manager_id row h = different
  points_to-leaves person_id row h = different

  child_gone :
      (column : Column) (rows : List Child)
      → IsKeyed (λ row. row.id) rows
      → All
          (λ row. points_to column losing row ≡ false)
          (update_ids
            (λ row. row.id)
            (ids_where (λ row. row.id) (points_to column losing) rows)
            (set_column column survivor)
            rows)
  child_gone column rows k =
      repoint-gone (λ row. row.id) (points_to column losing) (set_column column survivor)
        (points_to-leaves column) rows k

  children_gone :
      (type : IdentifiableType) (tables : Model → List Child)
      → EachKeyed tables
      → NoneRefers type losing (remap_children (children_of type) losing survivor tables).0
  unfolding remap_children
  children_gone company tables k funding_round =
      (λ _. child_gone company_id (tables funding_round) (k funding_round), tt)
  children_gone company tables k acquisition_deal =
      (λ _. child_gone company_id (tables acquisition_deal) (k acquisition_deal), tt)
  children_gone company tables k exit_event =
      (λ _. child_gone company_id (tables exit_event) (k exit_event), tt)
  children_gone company tables k diversity_signal =
      (λ _. child_gone company_id (tables diversity_signal) (k diversity_signal), tt)
  children_gone company tables k change_proposal =
      (λ _. child_gone company_id (tables change_proposal) (k change_proposal), tt)
  children_gone company tables k company_website_scan =
      (λ _. child_gone company_id (tables company_website_scan) (k company_website_scan), tt)
  children_gone company tables k company_app =
      (λ _. child_gone company_id (tables company_app) (k company_app), tt)
  children_gone company tables k person_role = (
    λ e. absurd (ground arith),
    (
      λ _. child_gone company_id (tables person_role) (k person_role),
      (λ e. absurd (ground arith), tt),
    ),
  )
  children_gone company tables k investor_holding = (
    λ _. child_gone company_id (tables investor_holding) (k investor_holding),
    (λ e. absurd (ground arith), tt),
  )
  children_gone company tables k _ = (λ e. absurd (ground arith), tt)
  children_gone investor tables k round_investor =
      (λ _. child_gone investor_id (tables round_investor) (k round_investor), tt)
  children_gone investor tables k fund = (λ _. child_gone manager_id (tables fund) (k fund), tt)
  children_gone investor tables k fund_commitment =
      (λ _. child_gone investor_id (tables fund_commitment) (k fund_commitment), tt)
  children_gone investor tables k investor_focus =
      (λ _. child_gone investor_id (tables investor_focus) (k investor_focus), tt)
  children_gone investor tables k person_role = (
    λ e. absurd (ground arith),
    (
      λ e. absurd (ground arith),
      (λ _. child_gone investor_id (tables person_role) (k person_role), tt),
    ),
  )
  children_gone investor tables k investor_holding = (
    λ e. absurd (ground arith),
    (λ _. child_gone investor_id (tables investor_holding) (k investor_holding), tt),
  )
  children_gone investor tables k _ = (λ e. absurd (ground arith), tt)
  children_gone person tables k person_contact =
      (λ _. child_gone person_id (tables person_contact) (k person_contact), tt)
  children_gone person tables k person_role = (
    λ _. child_gone person_id (tables person_role) (k person_role),
    (λ e. absurd (ground arith), (λ e. absurd (ground arith), tt)),
  )
  children_gone person tables k investor_holding =
      (λ e. absurd (ground arith), (λ e. absurd (ground arith), tt))
  children_gone person tables k _ = (λ e. absurd (ground arith), tt)

  saves_gone :
      (saves : List SavedCompany)
      → IsKeyed (λ s. s.id) saves
      → All (λ s. saved_of losing s ≡ false) (move_saves survivor losing saves)
  unfolding move_saves
  saves_gone saves k =
      moved_table-gone (λ s. s.id) (saved_of losing) (save_on survivor) (λ row h. different)
        (already_saved survivor saves) saves k

  citations_gone :
      (entity_type : String) (citations : List Citation)
      → IsKeyed (λ c. c.id) citations
      → All
          (λ c. cited_on entity_type losing c ≡ false)
          (move_citations entity_type survivor losing citations)
  unfolding move_citations
  citations_gone entity_type citations k =
      moved_table-gone (λ c. c.id) (cited_on entity_type losing) (cite_on survivor)
        (λ row h. ground (arith, different)) (already_cited entity_type survivor citations)
        citations k

  identifiers_gone :
      (entity_type : String) (identifiers : List EntityIdentifier)
      → IsKeyed (λ i. i.id) identifiers
      → All
          (λ i. identifies entity_type losing i ≡ false)
          (move_identifiers entity_type survivor losing identifiers)
  unfolding move_identifiers
  identifiers_gone entity_type identifiers k =
      moved_table-gone (λ i. i.id) (identifies entity_type losing) (identify survivor)
        (λ row h. ground (arith, different)) (already_held entity_type survivor identifiers)
        identifiers k

  revisions_gone :
      (new : Revision) (revisions : List Revision)
      → new.company_id ≡ survivor
      → new.entity_id ≡ survivor
      → All
          (λ r. revises_company losing r || revises_entity losing r ≡ false)
          (move_revisions survivor losing revisions ++ new ∷ [])
  unfolding move_revisions update_where
  revisions_gone new [] c e = (rw (c, e, different) (ground arith), tt)
  revisions_gone new (r ∷ revisions) c e =
      (ground (arith, different), revisions_gone new revisions c e)

  tombstone_set :
      (rows : List Entity) (l : Entity)
      → find_entity losing rows ≡ some l
      → (l' : Entity) × (find_entity losing (set_merged_into losing (some survivor) rows) ≡ some l')
        × (l'.merged_into_id ≡ some survivor)
  tombstone_set rows l f =
      let here = find_entity-id losing rows l f in
      (
        record l { merged_into_id = some survivor },
        find_entity-set_merged_into losing losing survivor rows l f ∙ rw here refl,
        refl,
      )

  merge_step-IsVacated :
      (type : IdentifiableType) (s l : Entity) (admin rid : String) (db : Database)
      (records : List MergeRecord) (candidates : List MergeCandidate)
      → EachTableKeyed db
      → find_entity losing (db.entities type) ≡ some l
      → IsVacated type survivor losing
          (record (merge_step type survivor losing s l admin rid db).1 {
            records = records;
            candidates = candidates;
          })
  unfolding merge_step move_shared move_company whole_row_revision
  merge_step-IsVacated company s l admin rid db records candidates k f = record {
    children = children_gone company db.tables k.tables;
    saves = λ _. saves_gone db.saves k.saves;
    revisions = λ _.
        revisions_gone (whole_row_revision rid survivor "MERGE" l s admin) db.revisions refl refl;
    citations = λ _. citations_gone "company" db.citations k.citations;
    identifiers = identifiers_gone "company" db.identifiers k.identifiers;
    tombstone = tombstone_set (db.entities company) l f;
  }
  merge_step-IsVacated investor s l admin rid db records candidates k f = record {
    children = children_gone investor db.tables k.tables;
    saves = λ e. absurd (ground arith);
    revisions = λ e. absurd (ground arith);
    citations = λ _. citations_gone "investor" db.citations k.citations;
    identifiers = identifiers_gone "investor" db.identifiers k.identifiers;
    tombstone = tombstone_set (db.entities investor) l f;
  }
  merge_step-IsVacated person s l admin rid db records candidates k f = record {
    children = children_gone person db.tables k.tables;
    saves = λ e. absurd (ground arith);
    revisions = λ e. absurd (ground arith);
    citations = λ e. absurd (ground arith);
    identifiers = identifiers_gone "person" db.identifiers k.identifiers;
    tombstone = tombstone_set (db.entities person) l f;
  }

-- Where every table has its primary key: after a merge that succeeded, no foreign key to the merged type
-- has the losing row's id in these tables: funding rounds, person roles, holdings, acquisition
-- deals, exit events, diversity signals, company change proposals, website scans, apps, round
-- investors, funds, fund commitments, investor focuses and person contacts. No identifier of the type
-- is on the losing row, nor, for a company or an investor, a citation, nor, for a company, a save or
-- a revision. The losing row is still there and points at the survivor. Investor change proposals,
-- which a merge leaves on the losing row, and ingest bindings, which their readers resolve through the
-- pointer, are not covered.
pub merge-IsVacated :
    (type : IdentifiableType) (survivor losing admin : String) (candidate_id : Option String)
    (draw : Draw) (db merged : Database)
    → EachTableKeyed db
    → merge type survivor losing admin candidate_id draw db ≡ ok merged
    → IsVacated type survivor losing merged
merge-IsVacated type survivor losing admin candidate_id draw db merged k h =
    let (done, d, mr, e) = merge-inv type survivor losing admin candidate_id draw db merged h in
    let (s, l, rows, q) = merge_rows-inv type survivor losing admin draw.revision_id db done mr in
    let (_, found, _, _) = rows_to_merge-inv survivor losing (db.entities type) s l rows in
    rw (e, q)
      (merge_step-IsVacated survivor losing d type s l admin draw.revision_id db _ _ k found)
