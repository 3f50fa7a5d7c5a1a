-- ===== src/Gate/Tests.antt =====
-- Runs of the gate's enforcement, and its theorems at concrete objects and viewers.
use mathlib.Core.List.{Memᴰ}
use capbase.Base.{
  distinct, String, ◌≡◌, ◌↔◌, refl, Bool, true, false, not, Option, none, some, List, [], ◌∷◌,
  or_else,
}
use capbase.Visibility.Types.{
  ViewerAccess, gated, person, SectionEntity, company, fund, GatedSection, sign_in,
}
use capbase.Visibility.Registry.{field_registry, default_gate_policy, default_field_policy}
use capbase.Visibility.Viewer.{
  field_gate, field_unlock_by, section_partner_rows, section_partner_unlock_by,
}
use capbase.Gate.Masks.{
  Entity, str, num, mask_field, mask_fields, company_blanks, reveal, withhold, partner_step,
  registry_step, partner_pass, registry_pass, withheld, gate_fields, gate_row_fields,
}
use capbase.Gate.Leaks.{Masks}
use capbase.Gate.RowLeaks.{is_row_due, gate_row_fields-Masks}
use capbase.Gate.Rows.{
  Clause, source_null, source_not, ReadsClauses, passes, public_rows_where, row_visible,
  partner_source, user, list_access_for, passes-public_rows_where, list_access_for_exact,
}
use capbase.Gate.Directory.{filter_step, sort_step, directory_loop, directory_filters}
use text.Mathlib.Text.{◌==◌}

abbrev anonymous : ViewerAccess
anonymous = record { unlocked = false; signed_in = false; admin = false; window_days = 30 }

abbrev member : ViewerAccess
member = record anonymous { signed_in = true }

abbrev acme : Entity
acme = record {
  fields = ("headcount", num 12) ∷ ("hq", str "Leeds") ∷ ("slug", str "acme") ∷ [];
  masked = [];
  masked_unlock = [];
}

abbrev partner_wrote : Option (List String)
partner_wrote = some ("headcount" ∷ "founded" ∷ [])

-- Signed out, the partner's headcount is withheld; the city, which it did not write, is not.
acme_signed_out :
    gate_fields company acme partner_wrote anonymous default_gate_policy company_blanks ≡ record {
      fields = ("headcount", num 0) ∷ ("hq", str "Leeds") ∷ ("slug", str "acme") ∷ [];
      masked = "headcount" ∷ [];
      masked_unlock = ("headcount", sign_in) ∷ [];
    }
unfolding gate_fields withheld partner_pass partner_step registry_pass registry_step withhold reveal
    distinct mask_fields mask_field field_gate field_unlock_by default_gate_policy field_registry
    default_field_policy
acme_signed_out = refl

acme_signed_in :
    gate_fields company acme partner_wrote member default_gate_policy company_blanks ≡ acme
unfolding gate_fields withheld partner_pass partner_step registry_pass registry_step distinct
    mask_fields field_gate default_gate_policy field_registry default_field_policy
acme_signed_in = refl

gate_row_fields-Masks_example :
    Masks []
      (is_row_due acme partner_wrote anonymous default_gate_policy GatedSection.company_rounds)
      (λ f.
        or_else
          (section_partner_unlock_by default_gate_policy GatedSection.company_rounds anonymous)
          sign_in)
      acme
      (gate_row_fields acme partner_wrote anonymous default_gate_policy GatedSection.company_rounds
        [])
gate_row_fields-Masks_example =
    gate_row_fields-Masks acme partner_wrote anonymous default_gate_policy
      GatedSection.company_rounds []

abbrev sql_holds : Clause → Option String → Bool
sql_holds source_null none = true
sql_holds source_null (some s) = false
sql_holds (source_not p) none = false
sql_holds (source_not p) (some s) = not (s == p)

sql_holds-ReadsClauses : ReadsClauses sql_holds
sql_holds-ReadsClauses = record {
  null_is_null = refl;
  some_not_null = λ s. refl;
  some_not = λ p s. refl;
  null_unknown = λ p. refl;
}

passes-public_rows_where_example :
    let s = GatedSection.company_rounds in
    (passes sql_holds (public_rows_where anonymous default_gate_policy s) none
      ≡ row_visible none anonymous default_gate_policy s)
    × ((row_visible none anonymous default_gate_policy s ≡ false) ↔ (
        (section_partner_rows default_gate_policy s anonymous ≡ false)
        × (◌≡◌ {A = Option String} none (some partner_source))))
passes-public_rows_where_example =
    passes-public_rows_where sql_holds sql_holds-ReadsClauses anonymous default_gate_policy
      GatedSection.company_rounds none

abbrev listed : List SectionEntity
listed = person ∷ gated company ∷ []

list_access_for_exact_example :
    field_gate default_gate_policy company "headcount"
      (list_access_for (some user) default_gate_policy listed (record member { unlocked = true }))
    ≡ field_gate default_gate_policy company "headcount" (record member { unlocked = true })
list_access_for_exact_example =
    list_access_for_exact default_gate_policy listed company "headcount"
      (record member { unlocked = true }) (Memᴰ.tail (Memᴰ.head refl)) refl refl

abbrev carries_status : String → Bool
carries_status param = param == "status"

-- The status of a fund is a partner-only column: signed out its filter is ignored.
status_ignored :
    (directory_filters default_gate_policy fund anonymous carries_status).ignored ≡ "status" ∷ []
unfolding directory_filters directory_loop filter_step sort_step field_gate field_unlock_by
    default_gate_policy field_registry default_field_policy
status_ignored = refl
