-- ===== src/Visibility/Overrides.antt =====
-- `resolveGatePolicy` against an independent description: the last valid row of each key wins, and
-- every invalid row is reported, in order (packages/api/src/domain/visibility.ts).
use text.Mathlib.Text.{◌==◌ as str_eq}
use mathlib.Core.List.{append_assoc, append-nil}
use capbase.Base.{
  ℕ, String, ◌≡◌, refl, sym, ap, ◌∙◌, inl, inr, ◌&&◌, Option, none, some, List, [], ◌∷◌, ◌++◌, ◌==◌,
  if◌then◌else◌, lookup, lookup-insert, or_else, or_option, ite, arith, ok, err, Result-cases,
}
use capbase.Visibility.Types.{
  GatedEntity, SectionPolicy, FieldPolicy, GatedSection, GatedSection-discrete,
}
use capbase.Visibility.Registry.{default_gate_policy}
use capbase.Visibility.Validate.{
  Raw, SectionRow, FieldRow, Overrides, validate_section_policy, validate_field_policy,
  validate_window_days, Dropped, PolicyError, section_row, field_row, window, Resolved,
  entity_index, apply_section, apply_field, apply_window, apply_sections, apply_fields, start,
  resolve_gate_policy,
}

-- The policy that the last valid row for `s` gives, if there is one.
pub latest_section : GatedSection → List SectionRow → Option SectionPolicy
latest_section s [] = none
latest_section s (row ∷ more) =
    let here : Option SectionPolicy = elim (validate_section_policy row) [
      | ok (t, p) ↦ ite (GatedSection-discrete s t) (some p) none
      | err e ↦ none
    ] in
    elim (latest_section s more) [ some p ↦ some p | none ↦ here ]

pub latest_field : GatedEntity → String → List FieldRow → Option FieldPolicy
latest_field e f [] = none
latest_field e f (row ∷ more) =
    let here : Option FieldPolicy = elim (validate_field_policy row) [
      | ok (d, p) ↦
          if (entity_index e == entity_index d) && str_eq row.field f then some p else none
      | err x ↦ none
    ] in
    elim (latest_field e f more) [ some p ↦ some p | none ↦ here ]

pub section_errors : List SectionRow → List Dropped
section_errors [] = []
section_errors (row ∷ more) = elim (validate_section_policy row) [
  | ok p ↦ section_errors more
  | err e ↦ section_row row.section e ∷ section_errors more
]

pub field_errors : List FieldRow → List Dropped
field_errors [] = []
field_errors (row ∷ more) = elim (validate_field_policy row) [
  | ok p ↦ field_errors more
  | err e ↦ field_row row.entity row.field e ∷ field_errors more
]

pub window_errors : Option Raw → List Dropped
window_errors none = []
window_errors (some days) = elim (validate_window_days days) [ ok n ↦ [] | err e ↦ window e ∷ [] ]

pub valid_days : Option Raw → ℕ → ℕ
valid_days none d = d
valid_days (some days) d = elim (validate_window_days days) [ ok n ↦ n | err e ↦ d ]

apply_sections-sections :
    (s : GatedSection) (r : Resolved) (l : List SectionRow)
    → (apply_sections r l).policy.sections s ≡ or_else (latest_section s l) (r.policy.sections s)
unfolding apply_sections latest_section apply_section
apply_sections-sections s r [] = refl
apply_sections-sections s r (row ∷ more) =
    ground (arith, apply_sections-sections s (apply_section r row) more)

apply_sections-rest :
    (r : Resolved) (l : List SectionRow)
    → ((apply_sections r l).policy.fields ≡ r.policy.fields)
      × ((apply_sections r l).policy.contribution_window_days ≡ r.policy.contribution_window_days)
unfolding apply_sections apply_section
apply_sections-rest r [] = (refl, refl)
apply_sections-rest r (row ∷ more) = ground (arith, apply_sections-rest (apply_section r row) more)

append_one : (xs ys : List Dropped) (d : Dropped) → (xs ++ d ∷ []) ++ ys ≡ xs ++ d ∷ ys
append_one xs ys d = append_assoc xs (d ∷ []) ys

apply_sections-dropped :
    (r : Resolved) (l : List SectionRow)
    → (apply_sections r l).dropped ≡ r.dropped ++ section_errors l
unfolding apply_sections section_errors apply_section
apply_sections-dropped r [] = sym (append-nil r.dropped)
apply_sections-dropped r (row ∷ more) = elim (Result-cases (validate_section_policy row)) [
  | inl (p, e) ↦ ground (arith, apply_sections-dropped (apply_section r row) more)
  | inr (x, e) ↦ ground (
    arith,
    apply_sections-dropped (apply_section r row) more,
    append_one r.dropped (section_errors more) (section_row row.section x),
  )
]

apply_field_ok :
    (d : GatedEntity) (f : String) (r : Resolved) (row : FieldRow) (c : GatedEntity)
    (p : FieldPolicy)
    → validate_field_policy row ≡ ok (c, p)
    → lookup f ((apply_field r row).policy.fields d) ≡ (
        if (entity_index d == entity_index c) && str_eq row.field f
        then some p
        else lookup f (r.policy.fields d))
unfolding apply_field
apply_field_ok d f r row c p e = ground (arith, lookup-insert row.field f p (r.policy.fields d))

apply_field_err :
    (d : GatedEntity) (r : Resolved) (row : FieldRow) (x : PolicyError)
    → validate_field_policy row ≡ err x
    → (apply_field r row).policy.fields d ≡ r.policy.fields d
unfolding apply_field
apply_field_err d r row x e = ground arith

apply_fields-fields :
    (d : GatedEntity) (f : String) (r : Resolved) (l : List FieldRow)
    → lookup f ((apply_fields r l).policy.fields d)
      ≡ or_option (latest_field d f l) (lookup f (r.policy.fields d))
unfolding apply_fields latest_field
apply_fields-fields d f r [] = refl
apply_fields-fields d f r (row ∷ more) = elim (Result-cases (validate_field_policy row)) [
  | inl ((c, p), e) ↦
      let ih = apply_fields-fields d f (apply_field r row) more in
      let here = apply_field_ok d f r row c p e in ground arith
  | inr (x, e) ↦
      let ih = apply_fields-fields d f (apply_field r row) more in
      let here = ap (lookup f) (apply_field_err d r row x e) in ground arith
]

apply_fields-rest :
    (r : Resolved) (l : List FieldRow)
    → ((apply_fields r l).policy.sections ≡ r.policy.sections)
      × ((apply_fields r l).policy.contribution_window_days ≡ r.policy.contribution_window_days)
unfolding apply_fields apply_field
apply_fields-rest r [] = (refl, refl)
apply_fields-rest r (row ∷ more) = ground (arith, apply_fields-rest (apply_field r row) more)

apply_fields-dropped :
    (r : Resolved) (l : List FieldRow) → (apply_fields r l).dropped ≡ r.dropped ++ field_errors l
unfolding apply_fields field_errors apply_field
apply_fields-dropped r [] = sym (append-nil r.dropped)
apply_fields-dropped r (row ∷ more) = elim (Result-cases (validate_field_policy row)) [
  | inl (p, e) ↦ ground (arith, apply_fields-dropped (apply_field r row) more)
  | inr (x, e) ↦ ground (
    arith,
    apply_fields-dropped (apply_field r row) more,
    append_one r.dropped (field_errors more) (field_row row.entity row.field x),
  )
]

apply_window_lem :
    (r : Resolved) (w : Option Raw)
    → ((apply_window r w).policy.sections ≡ r.policy.sections)
      × ((apply_window r w).policy.fields ≡ r.policy.fields)
      × ((apply_window r w).policy.contribution_window_days
          ≡ valid_days w r.policy.contribution_window_days)
      × ((apply_window r w).dropped ≡ r.dropped ++ window_errors w)
unfolding apply_window valid_days window_errors
apply_window_lem r none = (refl, refl, refl, sym (append-nil r.dropped))
apply_window_lem r (some days) = elim (Result-cases (validate_window_days days)) [
  | inl (n, e) ↦
      rw (e, apply_window, valid_days, window_errors) (refl, refl, refl, sym (append-nil r.dropped))
  | inr (x, e) ↦ rw (e, apply_window, valid_days, window_errors) (refl, refl, refl, refl)
]

-- What the stored overrides make of the default policy.
pub record IsMerged (o : Overrides) (r : Resolved) : Type 0 where
  pub sections_merged :
      (s : GatedSection)
      → r.policy.sections s ≡ or_else (latest_section s o.sections) (default_gate_policy.sections s)
  pub fields_merged :
      (e : GatedEntity) (f : String)
      → lookup f (r.policy.fields e)
        ≡ or_option (latest_field e f o.fields) (lookup f (default_gate_policy.fields e))
  pub days_merged :
      r.policy.contribution_window_days
      ≡ valid_days o.contribution_window_days default_gate_policy.contribution_window_days
  pub all_reported :
      r.dropped
      ≡ section_errors o.sections
        ++ (field_errors o.fields ++ window_errors o.contribution_window_days)

-- The resolved policy is the default one with, for every section and every field, the policy of the
-- last valid row for it, and the stored window if that is valid; exactly the invalid rows are
-- reported, each once and in the order of reading.
pub resolve_gate_policy-IsMerged : (o : Overrides) → IsMerged o (resolve_gate_policy o)
unfolding resolve_gate_policy start
resolve_gate_policy-IsMerged o =
    let r = apply_sections start o.sections in
    let q = apply_fields r o.fields in
    let w = apply_window_lem q o.contribution_window_days in
    let f = apply_fields-rest r o.fields in
    let s = apply_sections-rest start o.sections in
    record {
      sections_merged = λ t. ap (λ g. g t) (w.0 ∙ f.0) ∙ apply_sections-sections t start o.sections;
      fields_merged = λ e k.
          ap (λ g. lookup k (g e)) w.1
          ∙ apply_fields-fields e k r o.fields
          ∙ ap (λ g. or_option (latest_field e k o.fields) (lookup k (g e))) s.0;
      days_merged = w.2 ∙ ap (valid_days o.contribution_window_days) (f.1 ∙ s.1);
      all_reported =
          w.3
          ∙ ap (λ d. d ++ window_errors o.contribution_window_days)
              (apply_fields-dropped r o.fields
                ∙ ap (λ d. d ++ field_errors o.fields) (apply_sections-dropped start o.sections))
          ∙ append_assoc (section_errors o.sections) (field_errors o.fields)
              (window_errors o.contribution_window_days);
    }
