-- ===== src/Visibility/Sound.antt =====
-- What the gate's policy keeps whatever is stored: the soundness of `resolveGatePolicy`.
use capbase.Base.{
  ℕ, ◌≤◌, String, ◌≡◌, inl, inr, false, Option, none, some, List, [], ◌∷◌, arith, All, All-insert,
  Bool-cases, ◌==◌, ok, Result-cases, if_pos, if_neg,
}
use capbase.Visibility.Types.{
  GatedEntity, company, investor, fund, block, SectionPolicy, FieldPolicy, GatedSection,
  GatedSection-discrete, GatePolicy, preview_rows_max, contribution_window_max_days, level_rank,
  audience_rank,
}
use capbase.Visibility.Registry.{
  section_registry, field_registry, default_gate_policy, default_field_policy,
}
use capbase.Visibility.Validate.{
  SectionRow, FieldRow, Raw, Overrides, as_count, entity_index, check_levels,
  validate_section_policy, validate_field_policy, validate_window_days, Resolved, set_section,
  set_field, apply_section, apply_field, apply_window, apply_sections, apply_fields, start,
  resolve_gate_policy, some_preview,
}

-- What the admin page promises of a section's policy.
pub record IsSectionPolicy (s : GatedSection) (p : SectionPolicy) : Type 0 where
  pub some_rows : 1 ≤ p.preview_rows
  pub capped_rows : p.preview_rows ≤ preview_rows_max
  pub signed_in_no_less : level_rank p.signed_out ≤ level_rank p.signed_in
  pub unlocked_no_less : level_rank p.signed_in ≤ level_rank p.unlocked
  pub whole_block : (section_registry s).kind ≡ block → some_preview p ≡ false

abbrev pub IsFieldPolicy : FieldPolicy → Type 0
IsFieldPolicy p = audience_rank p.audience ≤ audience_rank p.partner_audience

pub record IsGatePolicy (g : GatePolicy) : Type 0 where
  pub sections_valid : (s : GatedSection) → IsSectionPolicy s (g.sections s)
  pub fields_valid : (e : GatedEntity) → All (λ f. IsFieldPolicy f.1) (g.fields e)
  pub some_days : 1 ≤ g.contribution_window_days
  pub capped_days : g.contribution_window_days ≤ contribution_window_max_days

default_section-IsSectionPolicy :
    (s : GatedSection) → IsSectionPolicy s (default_gate_policy.sections s)
unfolding section_registry default_gate_policy
default_section-IsSectionPolicy GatedSection.company_rounds = ground arith
default_section-IsSectionPolicy _ = ground arith

default_fields-IsFieldPolicy :
    (e : GatedEntity) → All (λ f. IsFieldPolicy f.1) (default_gate_policy.fields e)
unfolding field_registry default_gate_policy default_field_policy
default_fields-IsFieldPolicy company = omega arith
default_fields-IsFieldPolicy investor = omega arith
default_fields-IsFieldPolicy fund = omega arith

default-IsGatePolicy : IsGatePolicy default_gate_policy
unfolding default_gate_policy
default-IsGatePolicy = record {
  sections_valid = default_section-IsSectionPolicy;
  fields_valid = default_fields-IsFieldPolicy;
  some_days = omega arith;
  capped_days = omega arith;
}

as_count_bounds : (most : ℕ) (r : Raw) {n : ℕ} → as_count most r ≡ some n → (1 ≤ n) × (n ≤ most)
unfolding as_count
as_count_bounds most r h = ground arith

check_levels_lem :
    (s : GatedSection) (p : SectionPolicy) {q : SectionPolicy}
    → check_levels s p ≡ ok q
    → (q ≡ p)
      × (level_rank p.signed_out ≤ level_rank p.signed_in)
      × (level_rank p.signed_in ≤ level_rank p.unlocked)
      × ((section_registry s).kind ≡ block → some_preview p ≡ false)
unfolding check_levels
check_levels_lem s p h = ground arith

pub validate_section_policy-IsSectionPolicy :
    (row : SectionRow) {s : GatedSection} {p : SectionPolicy}
    → validate_section_policy row ≡ ok (s, p)
    → IsSectionPolicy s p
unfolding validate_section_policy
validate_section_policy-IsSectionPolicy row {s} {p} h =
    ground (arith, as_count_bounds preview_rows_max row.preview_rows {n = p.preview_rows})

pub validate_field_policy-IsFieldPolicy :
    (row : FieldRow) {e : GatedEntity} {p : FieldPolicy}
    → validate_field_policy row ≡ ok (e, p)
    → IsFieldPolicy p
unfolding validate_field_policy
validate_field_policy-IsFieldPolicy row h = ground arith

validate_window_days_bounds :
    (r : Raw) {n : ℕ} → validate_window_days r ≡ ok n → (1 ≤ n) × (n ≤ contribution_window_max_days)
unfolding validate_window_days as_count
validate_window_days_bounds r h = ground arith

module _ (g : GatePolicy) (h : IsGatePolicy g) where
  set_section-IsGatePolicy :
      (s : GatedSection) (p : SectionPolicy)
      → IsSectionPolicy s p
      → IsGatePolicy (set_section g s p)
  set_section-IsGatePolicy s p v = record {
    sections_valid = λ t. elim (GatedSection-discrete t s) [
      | yes e ↦ rw (if_pos _ e) (rw e v)
      | no ne ↦ rw (if_neg _ ne) (h.sections_valid t)
    ];
    fields_valid = h.fields_valid;
    some_days = h.some_days;
    capped_days = h.capped_days;
  }

  set_field-IsGatePolicy :
      (e : GatedEntity) (field : String) (p : FieldPolicy)
      → IsFieldPolicy p
      → IsGatePolicy (set_field g e field p)
  set_field-IsGatePolicy e field p v = record {
    sections_valid = h.sections_valid;
    fields_valid = λ d. elim (Bool-cases (entity_index d == entity_index e)) [
      | inl same ↦ rw same (All-insert IsFieldPolicy field p (g.fields d) v (h.fields_valid d))
      | inr other ↦ rw other (h.fields_valid d)
    ];
    some_days = h.some_days;
    capped_days = h.capped_days;
  }

apply_section-IsGatePolicy :
    (r : Resolved) (row : SectionRow)
    → IsGatePolicy r.policy
    → IsGatePolicy (apply_section r row).policy
unfolding apply_section
apply_section-IsGatePolicy r row h = elim (Result-cases (validate_section_policy row)) [
  | inl ((s, p), e) ↦
      rw (e, apply_section)
        (set_section-IsGatePolicy r.policy h s p (validate_section_policy-IsSectionPolicy row e))
  | inr (x, e) ↦ rw (e, apply_section) h
]

apply_field-IsGatePolicy :
    (r : Resolved) (row : FieldRow)
    → IsGatePolicy r.policy
    → IsGatePolicy (apply_field r row).policy
unfolding apply_field
apply_field-IsGatePolicy r row h = elim (Result-cases (validate_field_policy row)) [
  | inl ((d, p), e) ↦
      rw (e, apply_field)
        (set_field-IsGatePolicy r.policy h d row.field p
          (validate_field_policy-IsFieldPolicy row e))
  | inr (x, e) ↦ rw (e, apply_field) h
]

apply_window-IsGatePolicy :
    (r : Resolved) (w : Option Raw) → IsGatePolicy r.policy → IsGatePolicy (apply_window r w).policy
unfolding apply_window
apply_window-IsGatePolicy r none h = h
apply_window-IsGatePolicy r (some days) h = elim (Result-cases (validate_window_days days)) [
  | inl (n, e) ↦
      rw (e, apply_window)
        (record {
          sections_valid = h.sections_valid;
          fields_valid = h.fields_valid;
          some_days = (validate_window_days_bounds days e).0;
          capped_days = (validate_window_days_bounds days e).1;
        })
  | inr (x, e) ↦ rw (e, apply_window) h
]

apply_sections-IsGatePolicy :
    (r : Resolved) (l : List SectionRow)
    → IsGatePolicy r.policy
    → IsGatePolicy (apply_sections r l).policy
unfolding apply_sections
apply_sections-IsGatePolicy r [] h = h
apply_sections-IsGatePolicy r (row ∷ more) h =
    apply_sections-IsGatePolicy (apply_section r row) more (apply_section-IsGatePolicy r row h)

apply_fields-IsGatePolicy :
    (r : Resolved) (l : List FieldRow)
    → IsGatePolicy r.policy
    → IsGatePolicy (apply_fields r l).policy
unfolding apply_fields
apply_fields-IsGatePolicy r [] h = h
apply_fields-IsGatePolicy r (row ∷ more) h =
    apply_fields-IsGatePolicy (apply_field r row) more (apply_field-IsGatePolicy r row h)

-- Whatever overrides are stored, the resolved policy is valid: every section previews from 1 to 25
-- rows, a tier with more access never sees less of it, a block is never previewed, no field's
-- partner value reaches a wider audience than the field, and the window is 1 to 365 days.
pub resolve_gate_policy-IsGatePolicy : (o : Overrides) → IsGatePolicy (resolve_gate_policy o).policy
unfolding resolve_gate_policy
resolve_gate_policy-IsGatePolicy o =
    apply_window-IsGatePolicy (apply_fields (apply_sections start o.sections) o.fields)
      o.contribution_window_days
      (apply_fields-IsGatePolicy (apply_sections start o.sections) o.fields
        (apply_sections-IsGatePolicy start o.sections default-IsGatePolicy))
