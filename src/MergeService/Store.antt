-- ===== src/MergeService/Store.antt =====
-- The tables that apps/api/src/admin/merge/merge.service.ts reads and writes, by the columns that it
-- uses, and its constants. A nullable column is an `Option`; a time is a number of milliseconds.
use text.Mathlib.Text.{◌==◌}
use capbase.Base.{
  ℕ, String, Bool, true, false, Option, none, some, List, [], ◌∷◌, if◌then◌else◌, Text,
}
use capbase.Base.{◌==◌ as eq_ℕ}

pub data IdentifiableType : Type 0 where
  company investor person : IdentifiableType

-- The text of the column `entityType`.
abbrev pub type_name : IdentifiableType → String
type_name company = "company"
type_name investor = "investor"
type_name person = "person"

-- A company, an investor or a person.
pub record Entity : Type 0 where
  pub id : String
  pub slug : String
  pub name : String
  pub merged_into_id : Option String

-- The child tables that a merge repoints.
pub data Model : Type 0 where
  funding_round person_role investor_holding acquisition_deal exit_event diversity_signal : Model
  change_proposal company_website_scan company_app round_investor fund fund_commitment : Model
  investor_focus person_contact : Model

abbrev model_number : Model → ℕ
model_number funding_round = 0
model_number person_role = 1
model_number investor_holding = 2
model_number acquisition_deal = 3
model_number exit_event = 4
model_number diversity_signal = 5
model_number change_proposal = 6
model_number company_website_scan = 7
model_number company_app = 8
model_number round_investor = 9
model_number fund = 10
model_number fund_commitment = 11
model_number investor_focus = 12
model_number person_contact = 13

abbrev pub same_model : Model → Model → Bool
same_model m n = eq_ℕ (model_number m) (model_number n)

pub data Column : Type 0 where
  company_id investor_id manager_id person_id : Column

pub record Child : Type 0 where
  pub id : String
  pub company_id : Option String
  pub investor_id : Option String
  pub manager_id : Option String
  pub person_id : Option String

abbrev pub get_column : Column → Child → Option String
get_column company_id row = row.company_id
get_column investor_id row = row.investor_id
get_column manager_id row = row.manager_id
get_column person_id row = row.person_id

abbrev pub set_column : Column → String → Child → Child
set_column company_id id row = record row { company_id = some id }
set_column investor_id id row = record row { investor_id = some id }
set_column manager_id id row = record row { manager_id = some id }
set_column person_id id row = record row { person_id = some id }

abbrev pub company_children : List (Model × Column)
company_children =
    (funding_round, company_id)
    ∷ (person_role, company_id)
    ∷ (investor_holding, company_id)
    ∷ (acquisition_deal, company_id)
    ∷ (exit_event, company_id)
    ∷ (diversity_signal, company_id)
    ∷ (change_proposal, company_id)
    ∷ (company_website_scan, company_id)
    ∷ (company_app, company_id)
    ∷ []

abbrev pub investor_children : List (Model × Column)
investor_children =
    (investor_holding, investor_id)
    ∷ (round_investor, investor_id)
    ∷ (fund, manager_id)
    ∷ (person_role, investor_id)
    ∷ (fund_commitment, investor_id)
    ∷ (investor_focus, investor_id)
    ∷ []

abbrev pub person_children : List (Model × Column)
person_children = (person_role, person_id) ∷ (person_contact, person_id) ∷ []

pub record SavedCompany : Type 0 where
  pub id : String
  pub user_id : String
  pub company_id : String
  pub created_at : ℕ

pub record Citation : Type 0 where
  pub id : String
  pub source_id : Text
  pub entity_type : String
  pub entity_id : String
  pub field : Text
  pub note : Option Text
  pub submitted_by_id : Option String
  pub created_at : ℕ

pub record EntityIdentifier : Type 0 where
  pub id : String
  pub scheme : Text
  pub value : Text
  pub entity_type : String
  pub entity_id : String
  pub source : Text
  pub created_at : ℕ

-- `toJsonValue({ slug, name })`, or any other value of a column of JSON.
pub data JsonValue : Type 0 where
  slug_and_name : String → String → JsonValue
  other_value : Text → JsonValue

pub record Revision : Type 0 where
  pub id : String
  pub company_id : String
  pub entity_type : String
  pub entity_id : String
  pub field : Text
  pub before : Option JsonValue
  pub after : Option JsonValue
  pub action : String
  pub actor : String
  pub actor_user_id : Option String

pub data MergeStatus : Type 0 where
  pending merged rejected : MergeStatus

pub record MergeCandidate : Type 0 where
  pub id : String
  pub entity_type : IdentifiableType
  pub left_id : String
  pub right_id : String
  pub signal : String
  pub evidence : String
  pub status : MergeStatus
  pub decided_at : Option ℕ
  pub decided_by_id : Option String
  pub created_at : ℕ

-- The contents of rows that a merge had to delete.
pub record DeletedSave : Type 0 where
  pub user_id : String
  pub created_at : ℕ

pub record DeletedCitation : Type 0 where
  pub source_id : Text
  pub entity_type : String
  pub field : Text
  pub note : Option Text
  pub submitted_by_id : Option String
  pub created_at : ℕ

pub record DeletedIdentifier : Type 0 where
  pub scheme : Text
  pub value : Text
  pub source : Text
  pub created_at : ℕ

-- `remapped` is a table by model; the saved companies of the same object stand apart.
pub record MovedRecord : Type 0 where
  pub remapped : List (Model × List String)
  pub remapped_saves : List String
  pub revision_company_ids : List String
  pub revision_entity_ids : List String
  pub citation_ids : List String
  pub identifier_ids : List String
  pub deleted_saved_companies : List DeletedSave
  pub deleted_citations : List DeletedCitation
  pub deleted_identifiers : List DeletedIdentifier

abbrev pub empty_moved : MovedRecord
empty_moved = record {
  remapped = [];
  remapped_saves = [];
  revision_company_ids = [];
  revision_entity_ids = [];
  citation_ids = [];
  identifier_ids = [];
  deleted_saved_companies = [];
  deleted_citations = [];
  deleted_identifiers = [];
}

pub record MergeRecord : Type 0 where
  pub id : String
  pub entity_type : IdentifiableType
  pub survivor_id : String
  pub losing_id : String
  pub moved : MovedRecord
  pub candidate_id : Option String
  pub merged_by_id : String
  pub unmerged_at : Option ℕ
  pub unmerged_by_id : Option String

pub record Database : Type 0 where
  pub entities : IdentifiableType → List Entity
  pub tables : Model → List Child
  pub saves : List SavedCompany
  pub revisions : List Revision
  pub citations : List Citation
  pub identifiers : List EntityIdentifier
  pub candidates : List MergeCandidate
  pub records : List MergeRecord

abbrev pub is_company : IdentifiableType → Bool
is_company company = true
is_company _ = false

-- `findUnique({ where: { id } })`
unfoldable pub find_entity : String → List Entity → Option Entity
find_entity id [] = none
find_entity id (row ∷ rows) = if row.id == id then some row else find_entity id rows

unfoldable pub find_candidate : String → List MergeCandidate → Option MergeCandidate
find_candidate id [] = none
find_candidate id (row ∷ rows) = if row.id == id then some row else find_candidate id rows

unfoldable pub find_record : String → List MergeRecord → Option MergeRecord
find_record id [] = none
find_record id (row ∷ rows) = if row.id == id then some row else find_record id rows

-- `update({ where: { id }, data: { mergedIntoId } })`
unfoldable pub set_merged_into : String → Option String → List Entity → List Entity
set_merged_into id target [] = []
set_merged_into id target (row ∷ rows) =
    (if row.id == id then record row { merged_into_id = target } else row)
    ∷ set_merged_into id target rows

abbrev pub same_type : IdentifiableType → IdentifiableType → Bool
same_type company company = true
same_type investor investor = true
same_type person person = true
same_type _ _ = false

abbrev pub with_entities : IdentifiableType → List Entity → Database → Database
with_entities type rows db = record db {
  entities = λ t. if same_type type t then rows else db.entities t;
}

abbrev pub with_table : Model → List Child → (Model → List Child) → Model → List Child
with_table model rows tables m = if same_model model m then rows else tables m
