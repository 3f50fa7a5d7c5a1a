-- ===== src/Visibility/Tests.antt =====
-- Runs of the gate's policy, and its theorems at concrete overrides and viewers.
use capbase.Base.{◌≡◌, refl, true, false, none, some, [], ◌∷◌, arith}
use capbase.Visibility.Types.{ViewerAccess, company, GatedSection, GatedSection-discrete, sign_in}
use capbase.Visibility.Registry.{
  section_registry, field_registry, gated_section_keys, section_of_key, default_gate_policy,
  default_field_policy,
}
use capbase.Visibility.Validate.{
  str, whole, SectionRow, Overrides, as_level, as_audience, as_count, validate_section_policy,
  validate_field_policy, validate_window_days, section_row, field_row, window, bad_preview_rows,
  wider_partner, not_a_number, block_previewed, resolve_gate_policy,
}
use capbase.Visibility.Viewer.{
  at_most, section_limit, section_partner_rows, section_view, field_gate, hide_partner,
  field_unlock_by, viewer_tier,
}
use capbase.Visibility.Sound.{IsGatePolicy, resolve_gate_policy-IsGatePolicy}
use capbase.Visibility.Overrides.{IsMerged, resolve_gate_policy-IsMerged}
use capbase.Visibility.Access.{LimitLe, section_limit_mono, shows, Reveals, field_unlock_by-Reveals}
use capbase.Visibility.Hints.{Hints, at_tier, gets_more, section_view-Hints}

abbrev row : SectionRow
row = record {
  section = "companyRounds";
  signed_out = str "hidden";
  signed_in = str "preview";
  unlocked = str "full";
  preview_rows = whole 5;
  partner_audience = str "contributors";
}

-- A valid row, one with no preview rows, one that previews a block; a field whose partner value
-- would be wider than the field, and a valid one; a window that is a text.
abbrev stored : Overrides
stored = record {
  sections =
      row ∷ record row { preview_rows = whole 0 } ∷ record row { section = "fundTerms" } ∷ [];
  fields =
      record {
        entity = "company";
        field = "headcount";
        audience = str "signedIn";
        partner_audience = str "everyone";
      }
      ∷ record {
        entity = "company";
        field = "stage";
        audience = str "signedIn";
        partner_audience = str "contributors";
      }
      ∷ [];
  contribution_window_days = some (str "30");
}

stored-dropped :
    (resolve_gate_policy stored).dropped
    ≡ section_row "companyRounds" bad_preview_rows
      ∷ section_row "fundTerms" block_previewed
      ∷ field_row "company" "headcount" wider_partner
      ∷ window not_a_number
      ∷ []
unfolding resolve_gate_policy validate_section_policy validate_field_policy validate_window_days
    section_registry field_registry gated_section_keys section_of_key as_level as_audience as_count
stored-dropped = refl

abbrev anonymous : ViewerAccess
anonymous = record { unlocked = false; signed_in = false; admin = false; window_days = 30 }

abbrev member : ViewerAccess
member = record anonymous { signed_in = true }

stored-limits :
    let g = (resolve_gate_policy stored).policy in
    (section_limit g GatedSection.company_rounds anonymous ≡ at_most 0)
    × (section_limit g GatedSection.company_rounds member ≡ at_most 5)
    × (field_gate g company "stage" member ≡ hide_partner)
unfolding resolve_gate_policy validate_section_policy validate_field_policy validate_window_days
    section_registry field_registry gated_section_keys section_of_key as_level as_audience as_count
    section_limit field_gate default_gate_policy default_field_policy GatedSection-discrete
stored-limits = (refl, refl, refl)

resolve_gate_policy-IsGatePolicy_example : IsGatePolicy (resolve_gate_policy stored).policy
resolve_gate_policy-IsGatePolicy_example = resolve_gate_policy-IsGatePolicy stored

resolve_gate_policy-IsMerged_example : IsMerged stored (resolve_gate_policy stored)
resolve_gate_policy-IsMerged_example = resolve_gate_policy-IsMerged stored

section_limit_mono_example :
    let g = (resolve_gate_policy stored).policy in
    let s = GatedSection.company_rounds in
    LimitLe (section_limit g s anonymous) (section_limit g s member)
    × (section_partner_rows g s anonymous ≡ true → section_partner_rows g s member ≡ true)
section_limit_mono_example =
    section_limit_mono stored GatedSection.company_rounds anonymous member
      (record { admin_too = λ e. e; no_lower = omega arith })

section_view-Hints_example :
    let g = (resolve_gate_policy stored).policy in
    let s = GatedSection.company_rounds in
    Hints
      (λ u. gets_more g s anonymous (at_tier u))
      (viewer_tier anonymous)
      (section_view g s anonymous).unlock_by
    × (anonymous.admin ≡ true → (section_view g s anonymous).unlock_by ≡ none)
section_view-Hints_example = section_view-Hints stored GatedSection.company_rounds anonymous

field_unlock_by-Reveals_example :
    Reveals
      (λ b. shows (field_gate default_gate_policy company "headcount" b) true)
      anonymous
      (field_unlock_by default_gate_policy company "headcount" anonymous true)
field_unlock_by-Reveals_example =
    field_unlock_by-Reveals default_gate_policy company "headcount" anonymous true

-- An admin sees the value, and has no hint.
admin_hint :
    field_unlock_by default_gate_policy company "headcount" (record anonymous { admin = true }) true
    ≡ none
unfolding field_unlock_by
admin_hint = refl

headcount_hint :
    field_unlock_by default_gate_policy company "headcount" anonymous true ≡ some sign_in
unfolding field_unlock_by default_gate_policy field_registry default_field_policy
headcount_hint = refl
