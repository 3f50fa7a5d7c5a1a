-- ===== src/MergeService/Children.antt =====
-- The rows that a merge repoints or deletes come back with its reversal, table by table:
-- apps/api/src/admin/merge/merge.service.ts.
use text.Mathlib.Text.{◌==◌}
use text.Mathlib.TextEquality.{eq_iff}
use capbase.Base.{
  ℕ, String, ◌≡◌, refl, sym, ap, ◌∙◌, true, ◌&&◌, some, List, map, arith, Option-cases, inl, inr,
}
use capbase.MergeService.Rows.{ids_where, update_ids, IsKeyed}
use capbase.MergeService.Tables.{repoint-back}
use capbase.MergeService.Moves.{Returned, moved_table-back}
use capbase.MergeService.Store.{
  IdentifiableType, company, investor, person, Model, Column, company_id, investor_id, manager_id,
  person_id, Child, get_column, set_column, funding_round, person_role, investor_holding,
  acquisition_deal, exit_event, diversity_signal, change_proposal, company_website_scan,
  company_app, round_investor, fund, fund_commitment, investor_focus, person_contact, SavedCompany,
  Citation, EntityIdentifier,
}
use capbase.MergeService.Parts.{
  points_to, remap_children, restore_children, remapped_ids, saved_of, already_saved, save_on,
  deleted_save, create_save, save_loop, move_saves, restore_saves, cited_on, already_cited, cite_on,
  deleted_citation, create_citation, citation_loop, move_citations, restore_citations, identifies,
  already_held, identify, deleted_identifier, create_identifier, identifier_loop, move_identifiers,
  restore_identifiers,
}
use capbase.MergeService.Merging.{children_of}

points_to-some :
    (column : Column) (losing : String) (row : Child)
    → points_to column losing row ≡ true
    → some losing ≡ get_column column row
points_to-some column losing row h = elim (Option-cases (get_column column row)) [
  | inl e ↦ absurd (ground arith)
  | inr (owner, e) ↦
      let same : owner ≡ losing = (eq_iff owner losing).0 (ground arith) in sym (e ∙ ap some same)
]

set_column-back :
    (column : Column) (survivor losing : String) (row : Child)
    → points_to column losing row ≡ true
    → set_column column losing (set_column column survivor row) ≡ row
set_column-back company_id survivor losing row h = rw (points_to-some company_id losing row h) refl
set_column-back investor_id survivor losing row h =
    rw (points_to-some investor_id losing row h) refl
set_column-back manager_id survivor losing row h = rw (points_to-some manager_id losing row h) refl
set_column-back person_id survivor losing row h = rw (points_to-some person_id losing row h) refl

set_column-id :
    (column : Column) (survivor : String) (row : Child)
    → (set_column column survivor row).id ≡ row.id
set_column-id company_id survivor row = refl
set_column-id investor_id survivor row = refl
set_column-id manager_id survivor row = refl
set_column-id person_id survivor row = refl

-- The contents of a row, without the id that a new row would draw.
abbrev pub save_content : SavedCompany → SavedCompany
save_content s = record s { id = "" }

abbrev pub citation_content : Citation → Citation
citation_content c = record c { id = "" }

abbrev pub identifier_content : EntityIdentifier → EntityIdentifier
identifier_content i = record i { id = "" }

pub saves_back :
    (fresh : ℕ → String) (survivor losing : String) (saves : List SavedCompany)
    → IsKeyed (λ s. s.id) saves
    → Returned
        (λ s. s.id)
        save_content
        saves
        (move_saves survivor losing saves)
        (restore_saves fresh losing
          (save_loop survivor losing saves).remap
          (map deleted_save (save_loop survivor losing saves).deleted)
          (move_saves survivor losing saves))
unfolding restore_saves save_loop move_saves
saves_back fresh survivor losing saves k =
    moved_table-back (λ s. s.id) (saved_of losing) (already_saved survivor saves) save_content
      deleted_save (create_save fresh losing) (save_on survivor) (save_on losing) 0 saves
      (λ row. refl) (λ row h. rw ((eq_iff row.company_id losing).0 h) refl)
      (λ n row h. rw ((eq_iff row.company_id losing).0 h) refl) k

-- A polymorphic row that names a row of a type.
names_row :
    (type owner entity_type losing : String)
    → type == entity_type && owner == losing ≡ true
    → (type ≡ entity_type) × (owner ≡ losing)
names_row type owner entity_type losing h =
    ((eq_iff type entity_type).0 (ground arith), (eq_iff owner losing).0 (ground arith))

pub citations_back :
    (fresh : ℕ → String) (entity_type survivor losing : String) (citations : List Citation)
    → IsKeyed (λ c. c.id) citations
    → Returned
        (λ c. c.id)
        citation_content
        citations
        (move_citations entity_type survivor losing citations)
        (restore_citations fresh losing
          (citation_loop entity_type survivor losing citations).remap
          (map deleted_citation (citation_loop entity_type survivor losing citations).deleted)
          (move_citations entity_type survivor losing citations))
unfolding restore_citations citation_loop move_citations
citations_back fresh entity_type survivor losing citations k =
    moved_table-back (λ c. c.id) (cited_on entity_type losing)
      (already_cited entity_type survivor citations) citation_content deleted_citation
      (create_citation fresh losing) (cite_on survivor) (cite_on losing) 0 citations (λ row. refl)
      (λ row h. rw ((names_row row.entity_type row.entity_id entity_type losing h).1) refl)
      (λ n row h. rw ((names_row row.entity_type row.entity_id entity_type losing h).1) refl) k

pub identifiers_back :
    (fresh : ℕ → String) (entity_type survivor losing : String)
    (identifiers : List EntityIdentifier)
    → IsKeyed (λ i. i.id) identifiers
    → Returned
        (λ i. i.id)
        identifier_content
        identifiers
        (move_identifiers entity_type survivor losing identifiers)
        (restore_identifiers fresh entity_type losing
          (identifier_loop entity_type survivor losing identifiers).remap
          (map deleted_identifier (identifier_loop entity_type survivor losing identifiers).deleted)
          (move_identifiers entity_type survivor losing identifiers))
unfolding restore_identifiers identifier_loop move_identifiers
identifiers_back fresh entity_type survivor losing identifiers k =
    moved_table-back (λ i. i.id) (identifies entity_type losing)
      (already_held entity_type survivor identifiers) identifier_content deleted_identifier
      (create_identifier fresh entity_type losing) (identify survivor) (identify losing) 0
      identifiers (λ row. refl)
      (λ row h. rw ((names_row row.entity_type row.entity_id entity_type losing h).1) refl)
      (λ n row h.
        rw
          (
            (names_row row.entity_type row.entity_id entity_type losing h).0,
            (names_row row.entity_type row.entity_id entity_type losing h).1,
          )
          refl)
      k

child_back :
    (column : Column) (survivor losing : String) (rows : List Child)
    → IsKeyed (λ row. row.id) rows
    → let ids = ids_where (λ row. row.id) (points_to column losing) rows in
      update_ids
        (λ row. row.id)
        ids
        (set_column column losing)
        (update_ids (λ row. row.id) ids (set_column column survivor) rows)
      ≡ rows
child_back column survivor losing rows k =
    repoint-back (λ row. row.id) (points_to column losing) (set_column column survivor)
      (set_column column losing) rows (set_column-id column survivor)
      (set_column-back column survivor losing) k

abbrev pub EachKeyed : (Model → List Child) → Type 0
EachKeyed tables = (m : Model) → IsKeyed (λ row. row.id) (tables m)

-- Every child table of every type, by its column.
pub children_back :
    (type : IdentifiableType) (survivor losing : String) (tables : Model → List Child)
    (model : Model)
    → EachKeyed tables
    → let moved = remap_children (children_of type) losing survivor tables in
      restore_children (children_of type) losing moved.1 moved.0 model ≡ tables model
unfolding remap_children restore_children remapped_ids
children_back company survivor losing tables funding_round k =
    child_back company_id survivor losing (tables funding_round) (k funding_round)
children_back company survivor losing tables person_role k =
    child_back company_id survivor losing (tables person_role) (k person_role)
children_back company survivor losing tables investor_holding k =
    child_back company_id survivor losing (tables investor_holding) (k investor_holding)
children_back company survivor losing tables acquisition_deal k =
    child_back company_id survivor losing (tables acquisition_deal) (k acquisition_deal)
children_back company survivor losing tables exit_event k =
    child_back company_id survivor losing (tables exit_event) (k exit_event)
children_back company survivor losing tables diversity_signal k =
    child_back company_id survivor losing (tables diversity_signal) (k diversity_signal)
children_back company survivor losing tables change_proposal k =
    child_back company_id survivor losing (tables change_proposal) (k change_proposal)
children_back company survivor losing tables company_website_scan k =
    child_back company_id survivor losing (tables company_website_scan) (k company_website_scan)
children_back company survivor losing tables company_app k =
    child_back company_id survivor losing (tables company_app) (k company_app)
children_back investor survivor losing tables investor_holding k =
    child_back investor_id survivor losing (tables investor_holding) (k investor_holding)
children_back investor survivor losing tables round_investor k =
    child_back investor_id survivor losing (tables round_investor) (k round_investor)
children_back investor survivor losing tables fund k =
    child_back manager_id survivor losing (tables fund) (k fund)
children_back investor survivor losing tables person_role k =
    child_back investor_id survivor losing (tables person_role) (k person_role)
children_back investor survivor losing tables fund_commitment k =
    child_back investor_id survivor losing (tables fund_commitment) (k fund_commitment)
children_back investor survivor losing tables investor_focus k =
    child_back investor_id survivor losing (tables investor_focus) (k investor_focus)
children_back person survivor losing tables person_role k =
    child_back person_id survivor losing (tables person_role) (k person_role)
children_back person survivor losing tables person_contact k =
    child_back person_id survivor losing (tables person_contact) (k person_contact)
children_back _ survivor losing tables _ k = refl
