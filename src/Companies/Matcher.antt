-- ===== src/Companies/Matcher.antt =====
-- `decideCompanyMatch` and the helpers of apps/jobs/src/ingest/company-matcher.ts: which existing
-- company one source record is, from evidence alone.
use Prim.Native.String
use text.Mathlib.Text.{◌==◌, starts_with}
use capbase.Base.{
  String, Bool, true, false, ◌&&◌, not, Option, none, some, List, [], ◌∷◌, map, keep, any, lookup,
  if◌then◌else◌, unique, has,
}

pub data BindingStatus : Type 0 where
  resolved review_required : BindingStatus

pub record BindingView : Type 0 where
  pub company_id : Option String
  pub status : BindingStatus

pub record CandidateEvidence : Type 0 where
  pub id : String
  pub live : Bool
  pub external_source : Option String
  pub external_id : Option String
  pub record_ids : List String
  pub unresolved_aliases : List String
  pub company_number : Option String
  pub country_code : Option String

pub record MatchInput : Type 0 where
  pub source : String
  pub source_company_id : String
  pub own_company_id : Option String
  pub binding : Option BindingView
  pub legal_hits : List (String × String)
  pub record_hits : List (String × String)
  pub domain_holders : List String
  pub company_number : Option String
  pub candidates : List (String × CandidateEvidence)

pub data MatchMethod : Type 0 where
  own binding identifier record_id domain : MatchMethod

-- A non-null assertion that fails would be `broken`.
pub data CompanyMatch : Type 0 where
  existing : String → MatchMethod → CompanyMatch
  create : String → CompanyMatch
  conflict hold : String → List String → CompanyMatch
  broken : CompanyMatch

-- A text that JavaScript takes for true: neither null nor empty.
abbrev pub truthy : Option String → Option String
truthy none = none
truthy (some s) = if s == "" then none else some s

abbrev pub is_empty {ℓ} : {A : Type ℓ} → List A → Bool
is_empty [] = true
is_empty (x ∷ xs) = false

abbrev pub values : List (String × String) → List String
values table = map (λ e. e.1) table

abbrev pub record_id_schemes : List String
record_id_schemes = "PARTNER" ∷ []

-- Both are texts, and they differ.
abbrev pub differ : Option String → Option String → Bool
differ none b = false
differ (some a) none = false
differ (some a) (some b) = not (a == b)

unfoldable pub countries_compatible : Option String → Option String → Bool
countries_compatible a b = not (differ (truthy a) (truthy b))

-- `a === b` of a nullable text and a text.
abbrev pub is_text : Option String → String → Bool
is_text none b = false
is_text (some a) b = a == b

unfoldable pub holds_other_record : CandidateEvidence → String → String → Bool
holds_other_record c source source_company_id =
    if is_text c.external_source source && differ (truthy c.external_id) (some source_company_id)
    then true
    else if not (has source record_id_schemes)
    then false
    else let prefix = String.◌++◌ source ":" in
      let mine = String.◌++◌ prefix source_company_id in
      any (λ k. starts_with k prefix && not (k == mine)) c.record_ids

-- `m.candidates.get(id)?.live`
abbrev pub is_live : MatchInput → String → Bool
is_live m id = elim (lookup id m.candidates) [ none ↦ false | some c ↦ c.live ]

-- `m.companyNumber && c.companyNumber && c.companyNumber !== m.companyNumber`
abbrev pub number_differs : MatchInput → CandidateEvidence → Bool
number_differs m c = differ (truthy c.company_number) (truthy m.company_number)

-- Rule 6 and 7: a domain held by exactly one live company, or nothing structural.
unfoldable pub by_domain : MatchInput → List String → CompanyMatch
by_domain m [] = create "no-structural-match"
by_domain m (a ∷ b ∷ more) = create "domain-shared"
by_domain m (a ∷ []) = elim (lookup a m.candidates) [
  | none ↦ broken
  | some c ↦
      if holds_other_record c m.source m.source_company_id
      then create "distinct-source-record"
      else if number_differs m c
      then create "company-number-differs"
      else if not (is_empty c.unresolved_aliases)
      then hold "domain-on-unresolved-company" (c.id ∷ [])
      else existing c.id domain
]

unfoldable pub holders : MatchInput → List String
holders m = keep (is_live m) (unique m.domain_holders)

-- One legal identifier.
unfoldable pub by_identifier : MatchInput → String → CompanyMatch
by_identifier m id = elim (lookup id m.candidates) [
  | none ↦ create "identifier-target-gone"
  | some c ↦
      if not c.live
      then create "identifier-target-gone"
      else if number_differs m c
      then conflict "company-number-differs" (c.id ∷ [])
      else existing c.id identifier
]

-- Rules 4 and 5, on the companies that the legal and the record-id identifiers resolve to.
unfoldable pub by_identifiers : MatchInput → List String → List String → CompanyMatch
by_identifiers m (a ∷ b ∷ more) records = conflict "identifiers-disagree" (a ∷ b ∷ more)
by_identifiers m legal (a ∷ b ∷ more) = conflict "record-ids-disagree" (a ∷ b ∷ more)
by_identifiers m [] (r ∷ []) = hold "unbound-record-alias" (r ∷ [])
by_identifiers m (l ∷ []) (r ∷ []) =
    if not (l == r)
    then conflict "record-id-vs-identifier" (unique (l ∷ r ∷ []))
    else hold "unbound-record-alias" (r ∷ [])
by_identifiers m (l ∷ []) [] = by_identifier m l
by_identifiers m [] [] = by_domain m (holders m)

-- Rule 3: a binding that names a company.
unfoldable pub by_binding : MatchInput → String → CompanyMatch
by_binding m id = elim (lookup id m.candidates) [
  | none ↦ hold "binding-target-gone" (id ∷ [])
  | some c ↦ if c.live then existing c.id binding else hold "binding-target-gone" (id ∷ [])
]

abbrev pub needs_review : Option BindingView → Bool
needs_review none = false
needs_review (some b) = elim b.status [ resolved ↦ false | review_required ↦ true ]

-- `m.binding.companyId`, if it is neither null nor empty.
abbrev pub bound_company : Option BindingView → Option String
bound_company none = none
bound_company (some b) = truthy b.company_id

abbrev pub listed : Option String → List String
listed none = []
listed (some id) = id ∷ []

unfoldable pub decide_company_match : MatchInput → CompanyMatch
decide_company_match m =
    if needs_review m.binding
    then hold "review-required" (listed (bound_company m.binding))
    else elim (truthy m.own_company_id) [
      | some id ↦ existing id own
      | none ↦ elim (bound_company m.binding) [
        | some id ↦ by_binding m id
        | none ↦ by_identifiers m (unique (values m.legal_hits)) (unique (values m.record_hits))
      ]
    ]
