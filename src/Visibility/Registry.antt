-- ===== src/Visibility/Registry.antt =====
-- The registries of the gate: every gated section with its page, shape and default, and every
-- configurable header fact with its directory bindings (packages/api/src/domain/visibility.ts).
use text.Mathlib.Text.{◌==◌}
use capbase.Base.{
  String, Bool, true, false, ◌||◌, Option, none, some, List, [], ◌∷◌, map, if◌then◌else◌, lookup,
  contains, find, or_else,
}
use capbase.Visibility.Types.{
  SectionLevel, hidden, preview, full, Audience, everyone, GatedEntity, company, investor, fund,
  SectionEntity, gated, person, Kind, rows, block, SectionPolicy, FieldPolicy, GatedSection,
  GatePolicy, default_preview_rows, default_contribution_window_days,
}

-- `level`: what a default section policy says of the two lower tiers.
abbrev pub level : SectionLevel → SectionLevel → SectionPolicy
level signed_out signed_in = record {
  signed_out = signed_out;
  signed_in = signed_in;
  unlocked = full;
  preview_rows = default_preview_rows;
  partner_audience = Audience.signed_in;
}

-- `open()`, `members()`, `contributors()` and `membersBlock()`
abbrev pub open_to_all : SectionPolicy
open_to_all = level preview preview

abbrev pub members : SectionPolicy
members = level hidden preview

abbrev pub contributors_only : SectionPolicy
contributors_only = level hidden hidden

abbrev pub members_block : SectionPolicy
members_block = level hidden full

pub record SectionSpec : Type 0 where
  pub key : String
  pub entity : SectionEntity
  pub label : String
  pub kind : Kind
  pub default_policy : SectionPolicy

abbrev pub section_spec : String → SectionEntity → String → Kind → SectionPolicy → SectionSpec
section_spec key entity label kind p = record {
  key = key;
  entity = entity;
  label = label;
  kind = kind;
  default_policy = p;
}

unfoldable pub section_registry : GatedSection → SectionSpec
section_registry GatedSection.company_rounds =
    section_spec "companyRounds" (gated company) "Funding rounds" rows members
section_registry GatedSection.company_diversity =
    section_spec "companyDiversity" (gated company) "Diversity" rows members
section_registry GatedSection.company_acquisitions =
    section_spec "companyAcquisitions" (gated company) "Acquisitions" rows members
section_registry GatedSection.company_exits =
    section_spec "companyExits" (gated company) "Exits" rows members
section_registry GatedSection.company_investors =
    section_spec "companyInvestors" (gated company) "Investors" rows open_to_all
section_registry GatedSection.company_people =
    section_spec "companyPeople" (gated company) "People" rows open_to_all
section_registry GatedSection.company_technologies =
    section_spec "companyTechnologies" (gated company) "Technologies" rows open_to_all
section_registry GatedSection.company_apps =
    section_spec "companyApps" (gated company) "Apps" rows open_to_all
section_registry GatedSection.investor_portfolio =
    section_spec "investorPortfolio" (gated investor) "Portfolio" rows open_to_all
section_registry GatedSection.investor_people =
    section_spec "investorPeople" (gated investor) "People" rows open_to_all
section_registry GatedSection.investor_funds =
    section_spec "investorFunds" (gated investor) "Funds" rows open_to_all
section_registry GatedSection.investor_commitments =
    section_spec "investorCommitments" (gated investor) "Fund commitments" rows members
section_registry GatedSection.investor_focus =
    section_spec "investorFocus" (gated investor) "Investment focus" block members_block
section_registry GatedSection.fund_commitments =
    section_spec "fundCommitments" (gated fund) "LP commitments" rows members
section_registry GatedSection.fund_metrics =
    section_spec "fundMetrics" (gated fund) "Metrics" rows members
section_registry GatedSection.fund_terms =
    section_spec "fundTerms" (gated fund) "Terms" block contributors_only
section_registry GatedSection.fund_mandate =
    section_spec "fundMandate" (gated fund) "Investment mandate" block members_block
section_registry GatedSection.person_roles =
    section_spec "personRoles" person "Roles" rows open_to_all

-- `GATED_SECTION_KEYS`
unfoldable pub gated_section_keys : List GatedSection
gated_section_keys =
    GatedSection.company_rounds ∷ GatedSection.company_diversity ∷ GatedSection.company_acquisitions
    ∷ GatedSection.company_exits ∷ GatedSection.company_investors ∷ GatedSection.company_people
    ∷ GatedSection.company_technologies ∷ GatedSection.company_apps
    ∷ GatedSection.investor_portfolio ∷ GatedSection.investor_people ∷ GatedSection.investor_funds
    ∷ GatedSection.investor_commitments ∷ GatedSection.investor_focus
    ∷ GatedSection.fund_commitments ∷ GatedSection.fund_metrics ∷ GatedSection.fund_terms
    ∷ GatedSection.fund_mandate ∷ GatedSection.person_roles ∷ []

-- `isGatedSection`: the registered section of a key, if it is one.
unfoldable pub section_of_key : String → Option GatedSection
section_of_key key = find (λ s. (section_registry s).key == key) gated_section_keys

pub record FieldSpec : Type 0 where
  pub label : String
  pub filter : Option String
  pub sort : Option String
  pub partner_only_column : Bool
  pub default_audience : Option Audience
  pub default_partner_audience : Option Audience

abbrev pub plain : String → FieldSpec
plain label = record {
  label = label;
  filter = none;
  sort = none;
  partner_only_column = false;
  default_audience = none;
  default_partner_audience = none;
}

abbrev pub filtered : String → String → FieldSpec
filtered label param = record (plain label) { filter = some param }

abbrev pub sorted : String → String → FieldSpec
sorted label param = record (plain label) { sort = some param }

-- `prose`
abbrev pub prose : String → FieldSpec
prose label = record (plain label) { default_partner_audience = some everyone }

unfoldable pub field_registry : GatedEntity → List (String × FieldSpec)
field_registry company =
    ("totalRaisedUsd", sorted "Total raised" "raised")
    ∷ ("lastValuationUsd", sorted "Last valuation" "valuation")
    ∷ ("headcount", plain "Headcount")
    ∷ ("founded", plain "Founded")
    ∷ ("hq", plain "Headquarters")
    ∷ ("legalName", plain "Legal name")
    ∷ ("stage", filtered "Stage" "stage")
    ∷ ("status", filtered "Status" "status")
    ∷ ("operatingStatus", plain "Operating status")
    ∷ ("companyType", plain "Company type")
    ∷ ("primarySector", filtered "Sector" "sector")
    ∷ ("industry", plain "Industry")
    ∷ ("countryCode", filtered "Country" "country")
    ∷ ("domain", filtered "Domain" "domain")
    ∷ ("websiteUrl", plain "Website")
    ∷ ("linkedinUrl", plain "LinkedIn")
    ∷ ("twitterUrl", plain "Twitter")
    ∷ ("oneLiner", prose "One-liner")
    ∷ ("description", prose "Description")
    ∷ []
field_registry investor =
    ("type", filtered "Type" "type")
    ∷ ("legalName", plain "Legal name")
    ∷ ("hq", plain "Headquarters")
    ∷ ("countryCode", filtered "Country" "country")
    ∷ ("websiteUrl", plain "Website")
    ∷ ("linkedinUrl", plain "LinkedIn")
    ∷ ("domain", plain "Domain")
    ∷ ("description", prose "Description")
    ∷ ("fundCount", plain "Funds reported")
    ∷ ("assetsUsd", plain "Fund assets")
    ∷ ("foundedYear", plain "Founded")
    ∷ []
field_registry fund =
    ("strategy", filtered "Strategy" "strategy")
    ∷ ("status", record (filtered "Status" "status") { partner_only_column = true })
    ∷ ("vintageYear", sorted "Vintage" "vintage")
    ∷ ("targetUsd", plain "Target size")
    ∷ ("closedUsd", sorted "Capital closed" "size")
    ∷ ("grossAssetsUsd", sorted "Gross assets" "size")
    ∷ ("hq", plain "Headquarters")
    ∷ ("regionFocus", plain "Region focus")
    ∷ []

-- `GATED_ENTITIES` with their keys, and `isGatedEntity`.
abbrev pub gated_entities : List GatedEntity
gated_entities = company ∷ investor ∷ fund ∷ []

abbrev pub entity_key : GatedEntity → String
entity_key company = "company"
entity_key investor = "investor"
entity_key fund = "fund"

abbrev pub entity_of_key : String → Option GatedEntity
entity_of_key key = find (λ e. entity_key e == key) gated_entities

abbrev pub is_gated_field : GatedEntity → String → Bool
is_gated_field entity field = contains field (field_registry entity)

-- `fieldSpec`, and `fieldInfo`, which has the same parts of it.
abbrev pub field_spec : GatedEntity → String → Option FieldSpec
field_spec entity field = lookup field (field_registry entity)

-- `spec.filter === param`
abbrev pub bound_to : String → Option String → Bool
bound_to param none = false
bound_to param (some bound) = bound == param

abbrev pub label_in : String → List (String × FieldSpec) → String
label_in param [] = param
label_in param ((k, spec) ∷ specs) =
    if bound_to param spec.filter || bound_to param spec.sort
    then spec.label
    else label_in param specs

pub directory_param_label : GatedEntity → String → String
directory_param_label entity param = label_in param (field_registry entity)

abbrev pub default_field : FieldPolicy
default_field = record { audience = everyone; partner_audience = Audience.signed_in }

-- `{ ...DEFAULT_FIELD, ...spec.default }`
abbrev pub field_default : FieldSpec → FieldPolicy
field_default spec = record {
  audience = or_else spec.default_audience default_field.audience;
  partner_audience = or_else spec.default_partner_audience default_field.partner_audience;
}

-- `defaultFieldPolicy`
unfoldable pub default_field_policy : GatedEntity → String → FieldPolicy
default_field_policy entity field = elim (field_spec entity field) [
  | none ↦ default_field
  | some spec ↦ field_default spec
]

-- `buildDefaults`
unfoldable pub default_gate_policy : GatePolicy
default_gate_policy = record {
  sections = λ s. (section_registry s).default_policy;
  fields = λ e. map (λ entry. (entry.0, default_field_policy e entry.0)) (field_registry e);
  contribution_window_days = default_contribution_window_days;
}
