-- ===== src/Companies/Justified.antt =====
-- What a decision of `decideCompanyMatch` rests on (apps/jobs/src/ingest/company-matcher.ts).
use text.Mathlib.Text.{◌==◌}
use mathlib.Core.Bool.{or-false}
use capbase.Base.{
  String, ◌≡◌, refl, sym, ap, ◌∙◌, inl, inr, true, false, ◌&&◌, none, some, List, [], ◌∷◌, has,
  lookup, unique, has-unique, has-keep, arith, Bool-cases, Option-cases,
}
use text.Mathlib.TextPositions.{eq_refl}
use capbase.Companies.Matcher.{
  CandidateEvidence, MatchInput, MatchMethod, own, binding, identifier, record_id, domain,
  CompanyMatch, existing, create, conflict, hold, broken, truthy, is_empty, values,
  holds_other_record, is_live, number_differs, by_domain, holders, by_identifier, by_identifiers,
  by_binding, needs_review, bound_company, decide_company_match,
}

-- Every one of the texts is `a`, and there is one.
abbrev pub AllAre : List String → String → Type 0
AllAre l a = (s : String) → has s l ≡ (a == s)

unique_single : (l : List String) (a : String) → unique l ≡ a ∷ [] → AllAre l a
unique_single l a e s = sym (has-unique s l) ∙ ap (has s) e ∙ or-false (a == s)

-- No text is in the list.
abbrev pub NoneIn : List String → Type 0
NoneIn l = (s : String) → has s l ≡ false

unique_empty : (l : List String) → unique l ≡ [] → NoneIn l
unique_empty l e s = sym (has-unique s l) ∙ ap (has s) e

-- `c` is the evidence under `key`, of a live company, and names the company `id`.
abbrev pub Names : MatchInput → String → CandidateEvidence → String → Type 0
Names m key c id = (lookup key m.candidates ≡ some c) × (c.live ≡ true) × (c.id ≡ id)

-- No hold, no own row and no binding routes the record.
abbrev pub NoRoute : MatchInput → Type 0
NoRoute m =
    (needs_review m.binding ≡ false)
    × (truthy m.own_company_id ≡ none)
    × (bound_company m.binding ≡ none)

-- The evidence on which a record may be written to the company `id`.
abbrev pub Justified : MatchInput → String → MatchMethod → Type 0
Justified m id own = (needs_review m.binding ≡ false) × (truthy m.own_company_id ≡ some id)
Justified m id binding =
    (needs_review m.binding ≡ false)
    × (truthy m.own_company_id ≡ none)
    × ((key : String) × (c : CandidateEvidence) × (bound_company m.binding ≡ some key)
        × Names m key c id)
Justified m id identifier =
    NoRoute m
    × NoneIn (values m.record_hits)
    × ((key : String) × (c : CandidateEvidence) × AllAre (values m.legal_hits) key
        × Names m key c id
        × (number_differs m c ≡ false))
Justified m id record_id = ⊥
Justified m id domain =
    NoRoute m
    × NoneIn (values m.record_hits)
    × NoneIn (values m.legal_hits)
    × ((key : String) × (c : CandidateEvidence) × ((s : String)
          → (has s m.domain_holders && is_live m s) ≡ (key == s))
        × Names m key c id
        × (holds_other_record c m.source m.source_company_id ≡ false)
        × (number_differs m c ≡ false)
        × (is_empty c.unresolved_aliases ≡ true))

-- What each decision rests on. A hold needs nothing.
abbrev pub Explains : MatchInput → CompanyMatch → Type 0
Explains m (existing id method) = Justified m id method
Explains m (create reason) = NoRoute m × NoneIn (values m.record_hits)
Explains m (conflict reason ids) = NoRoute m
Explains m (hold reason ids) = Unit
Explains m broken = ⊥

has-holders :
    (m : MatchInput) (s : String) → has s (holders m) ≡ (has s m.domain_holders && is_live m s)
unfolding holders
has-holders m s =
    has-keep (is_live m) s (unique m.domain_holders)
    ∙ ap (λ b. b && is_live m s) (has-unique s m.domain_holders)

module _ (m : MatchInput) (route : NoRoute m) where
  by_domain-Explains :
      (l : List String)
      → holders m ≡ l
      → NoneIn (values m.record_hits)
      → NoneIn (values m.legal_hits)
      → Explains m (by_domain m l)
  unfolding by_domain
  by_domain-Explains [] e r h = (route, r)
  by_domain-Explains (a ∷ b ∷ l) e r h = (route, r)
  by_domain-Explains (a ∷ []) e r h =
      let sole : (s : String) → (has s m.domain_holders && is_live m s) ≡ (a == s) =
        λ s. sym (has-holders m s) ∙ ap (has s) e ∙ or-false (a == s) in
      let here : (has a m.domain_holders && is_live m a) ≡ true = sole a ∙ eq_refl a in
      elim (Option-cases (lookup a m.candidates)) [
        | inl gone ↦ absurd (ground arith)
        | inr (c, found) ↦
            rw (found, by_domain)
              (elim (Bool-cases (holds_other_record c m.source m.source_company_id)) [
                | inl other ↦ rw other (route, r)
                | inr mine ↦ elim (Bool-cases (number_differs m c)) [
                  | inl differs ↦ rw (mine, differs) (route, r)
                  | inr agrees ↦ elim (Bool-cases (is_empty c.unresolved_aliases)) [
                    | inr aliases ↦ rw (mine, agrees, aliases) tt
                    | inl certified ↦
                        rw (mine, agrees, certified)
                          (
                            route,
                            r,
                            h,
                            (a, c, sole, (found, ground arith, refl), mine, agrees, certified),
                          )
                  ]
                ]
              ])
      ]

  by_identifier-Explains :
      (a : String)
      → NoneIn (values m.record_hits)
      → AllAre (values m.legal_hits) a
      → Explains m (by_identifier m a)
  unfolding by_identifier
  by_identifier-Explains a r h = elim (Option-cases (lookup a m.candidates)) [
    | inl gone ↦ rw (gone, by_identifier) (route, r)
    | inr (c, found) ↦
        rw (found, by_identifier)
          (elim (Bool-cases c.live) [
            | inr gone ↦ rw gone (route, r)
            | inl live ↦ elim (Bool-cases (number_differs m c)) [
              | inl differs ↦ rw (live, differs) route
              | inr agrees ↦ rw (live, agrees) (route, r, (a, c, h, (found, live, refl), agrees))
            ]
          ])
  ]

  by_identifiers-Explains :
      (legal records : List String)
      → unique (values m.legal_hits) ≡ legal
      → unique (values m.record_hits) ≡ records
      → Explains m (by_identifiers m legal records)
  unfolding by_identifiers
  by_identifiers-Explains (a ∷ b ∷ legal) records e f = route
  by_identifiers-Explains [] (a ∷ b ∷ records) e f = route
  by_identifiers-Explains (l ∷ []) (a ∷ b ∷ records) e f = route
  by_identifiers-Explains [] (r ∷ []) e f = tt
  by_identifiers-Explains (l ∷ []) (r ∷ []) e f = elim (Bool-cases (l == r)) [
    | inl same ↦ rw same tt
    | inr other ↦ rw other route
  ]
  by_identifiers-Explains (l ∷ []) [] e f =
      by_identifier-Explains l (unique_empty (values m.record_hits) f)
        (unique_single (values m.legal_hits) l e)
  by_identifiers-Explains [] [] e f =
      by_domain-Explains (holders m) refl (unique_empty (values m.record_hits) f)
        (unique_empty (values m.legal_hits) e)

by_binding-Explains :
    (m : MatchInput) (key : String)
    → needs_review m.binding ≡ false
    → truthy m.own_company_id ≡ none
    → bound_company m.binding ≡ some key
    → Explains m (by_binding m key)
unfolding by_binding
by_binding-Explains m key n o b = elim (Option-cases (lookup key m.candidates)) [
  | inl gone ↦ rw (gone, by_binding) tt
  | inr (c, found) ↦
      rw (found, by_binding)
        (elim (Bool-cases c.live) [
          | inl live ↦ rw live (n, o, (key, c, b, (found, live, refl)))
          | inr gone ↦ rw gone tt
        ])
]

-- Every decision rests on the evidence for it. A record is written to an existing company only by its
-- own row; by a resolved binding to a live company; by legal identifiers that all name one live
-- company whose number does not differ; or by a domain of which that company is the only live
-- holder, where it holds no other record of the source, its number does not differ and no alias on
-- it is unresolved. A hit on a record id alone lets it neither be written nor create a company, a
-- record under review is never written, and no non-null assertion fails.
pub decide_company_match-Explains : (m : MatchInput) → Explains m (decide_company_match m)
unfolding decide_company_match
decide_company_match-Explains m = elim (Bool-cases (needs_review m.binding)) [
  | inl review ↦ rw review tt
  | inr none_needed ↦ rw none_needed (elim (Option-cases (truthy m.own_company_id)) [
    | inr (id, mine) ↦ rw (mine, decide_company_match) (none_needed, mine)
    | inl no_row ↦ elim (Option-cases (bound_company m.binding)) [
      | inr (key, bound) ↦ rw (no_row, bound) (by_binding-Explains m key none_needed no_row bound)
      | inl unbound ↦
          rw (no_row, unbound)
            (by_identifiers-Explains m (none_needed, no_row, unbound) (unique (values m.legal_hits))
              (unique (values m.record_hits)) refl refl)
    ]
  ])
]
