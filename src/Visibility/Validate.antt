-- ===== src/Visibility/Validate.antt =====
-- Validation of an override and the merge of the stored overrides into the default policy
-- (packages/api/src/domain/visibility.ts).
use capbase.Base.{
  ℕ, String, Bool, true, false, ◌||◌, not, Option, none, some, List, [], ◌∷◌, ◌++◌, ◌==◌, ltb,
  if◌then◌else◌, insert, ite, Result, ok, err, ◌>>=◌, ◌>>◌, fail_if,
}
use capbase.Visibility.Types.{
  ViewerTier, SectionLevel, hidden, preview, full, Audience, everyone, contributors, GatedEntity,
  Kind, rows, block, SectionPolicy, FieldPolicy, GatedSection, GatedSection-discrete, GatePolicy,
  preview_rows_max, contribution_window_max_days, level_rank, audience_rank, is_preview,
}
use capbase.Visibility.Registry.{
  section_registry, section_of_key, entity_of_key, is_gated_field, default_gate_policy,
}
use text.Mathlib.Text.{◌==◌ as str_eq}

-- A stored column, of type `unknown` in the source. `out_of_range` is a number that is negative
-- or no integer, `other` a value that is neither a text nor a number; no test of the code tells
-- two such values apart.
pub data Raw : Type 0 where
  str : String → Raw
  whole : ℕ → Raw
  out_of_range other : Raw

pub record SectionRow : Type 0 where
  pub section : String
  pub signed_out : Raw
  pub signed_in : Raw
  pub unlocked : Raw
  pub preview_rows : Raw
  pub partner_audience : Raw

pub record FieldRow : Type 0 where
  pub entity : String
  pub field : String
  pub audience : Raw
  pub partner_audience : Raw

pub record Overrides : Type 0 where
  pub sections : List SectionRow
  pub fields : List FieldRow
  pub contribution_window_days : Option Raw

-- The messages of the three validators, by what they say.
pub data PolicyError : Type 0 where
  unknown_section unknown_field : PolicyError
  bad_level : ViewerTier → PolicyError
  bad_preview_rows bad_audience bad_partner_audience : PolicyError
  not_monotone block_previewed wider_partner : PolicyError
  bad_window not_a_number : PolicyError

-- `isLevel`, with the level that a value is.
unfoldable pub level_of : String → Option SectionLevel
level_of s =
    if str_eq s "hidden"
    then some hidden
    else if str_eq s "preview"
    then some preview
    else if str_eq s "full"
    then some full
    else none

unfoldable pub as_level : Raw → Option SectionLevel
unfolding level_of
as_level (str s) = level_of s
as_level _ = none

-- `isAudience`
unfoldable pub audience_of : String → Option Audience
audience_of s =
    if str_eq s "everyone"
    then some everyone
    else if str_eq s "signedIn"
    then some Audience.signed_in
    else if str_eq s "contributors"
    then some contributors
    else none

unfoldable pub as_audience : Raw → Option Audience
unfolding audience_of
as_audience (str s) = audience_of s
as_audience _ = none

-- A test of a value's type that hands the value on at that type.
abbrev pub require {ℓ} : {A : Type ℓ} → Option A → PolicyError → Result PolicyError A
require none e = err e
require (some a) e = ok a

-- `Number.isInteger(n)` and the two bounds, from 1 to `most`.
unfoldable pub as_count : ℕ → Raw → Option ℕ
as_count most (whole n) = if ltb n 1 || ltb most n then none else some n
as_count most _ = none

abbrev pub not_monotone_levels : SectionPolicy → Bool
not_monotone_levels p =
    ltb (level_rank p.signed_in) (level_rank p.signed_out)
    || ltb (level_rank p.unlocked) (level_rank p.signed_in)

abbrev pub is_block : Kind → Bool
is_block block = true
is_block rows = false

abbrev pub some_preview : SectionPolicy → Bool
some_preview p = is_preview p.signed_out || is_preview p.signed_in || is_preview p.unlocked

-- The two checks that compare a section's settings with each other and with its shape.
unfoldable pub check_levels : GatedSection → SectionPolicy → Result PolicyError SectionPolicy
check_levels section p = do
  fail_if (not_monotone_levels p) not_monotone
  fail_if
      (elim (is_block (section_registry section).kind) [ true ↦ some_preview p | false ↦ false ])
      block_previewed
  ok p

-- `validateSectionPolicy`: its error, or the section and the policy at their types.
unfoldable pub validate_section_policy :
    SectionRow → Result PolicyError (GatedSection × SectionPolicy)
unfolding check_levels
validate_section_policy row = do
  section ← require (section_of_key row.section) unknown_section
  signed_out ← require (as_level row.signed_out) (bad_level ViewerTier.signed_out)
  signed_in ← require (as_level row.signed_in) (bad_level ViewerTier.signed_in)
  unlocked ← require (as_level row.unlocked) (bad_level ViewerTier.unlocked)
  preview_rows ← require (as_count preview_rows_max row.preview_rows) bad_preview_rows
  partner_audience ← require (as_audience row.partner_audience) bad_partner_audience
  p ← check_levels section (record {
    signed_out = signed_out;
    signed_in = signed_in;
    unlocked = unlocked;
    preview_rows = preview_rows;
    partner_audience = partner_audience;
  })
  ok (section, p)

-- `validateFieldPolicy`
unfoldable pub validate_field_policy : FieldRow → Result PolicyError (GatedEntity × FieldPolicy)
validate_field_policy row = do
  entity ← require (entity_of_key row.entity) unknown_field
  fail_if (not (is_gated_field entity row.field)) unknown_field
  audience ← require (as_audience row.audience) bad_audience
  partner_audience ← require (as_audience row.partner_audience) bad_partner_audience
  fail_if (ltb (audience_rank partner_audience) (audience_rank audience)) wider_partner
  ok (entity, record { audience = audience; partner_audience = partner_audience })

-- `typeof days === 'number' ? validateWindowDays(days) : 'not a number'`
unfoldable pub validate_window_days : Raw → Result PolicyError ℕ
validate_window_days (whole n) =
    require (as_count contribution_window_max_days (whole n)) bad_window
validate_window_days out_of_range = err bad_window
validate_window_days _ = err not_a_number

-- An entry of `dropped`: what was dropped, and the error.
pub data Dropped : Type 0 where
  section_row : String → PolicyError → Dropped
  field_row : String → String → PolicyError → Dropped
  window : PolicyError → Dropped

pub record Resolved : Type 0 where
  pub policy : GatePolicy
  pub dropped : List Dropped

abbrev pub entity_index : GatedEntity → ℕ
entity_index GatedEntity.company = 0
entity_index GatedEntity.investor = 1
entity_index GatedEntity.fund = 2

-- `policy.sections[section] = p`
abbrev pub set_section : GatePolicy → GatedSection → SectionPolicy → GatePolicy
set_section policy section p = record policy {
  sections = λ s. ite (GatedSection-discrete s section) p (policy.sections s);
}

-- `policy.fields[entity][field] = p`
abbrev pub set_field : GatePolicy → GatedEntity → String → FieldPolicy → GatePolicy
set_field policy entity field p = record policy {
  fields = λ e.
      if entity_index e == entity_index entity
      then insert field p (policy.fields e)
      else policy.fields e;
}

abbrev pub drop : Resolved → Dropped → Resolved
drop r d = record r { dropped = r.dropped ++ d ∷ [] }

-- One round of each loop of `resolveGatePolicy`.
unfoldable pub apply_section : Resolved → SectionRow → Resolved
apply_section r row = elim (validate_section_policy row) [
  | ok (section, p) ↦ record r { policy = set_section r.policy section p }
  | err e ↦ drop r (section_row row.section e)
]

unfoldable pub apply_field : Resolved → FieldRow → Resolved
apply_field r row = elim (validate_field_policy row) [
  | ok (entity, p) ↦ record r { policy = set_field r.policy entity row.field p }
  | err e ↦ drop r (field_row row.entity row.field e)
]

unfoldable pub apply_window : Resolved → Option Raw → Resolved
apply_window r none = r
apply_window r (some days) = elim (validate_window_days days) [
  | ok n ↦ record r { policy = record (r.policy) { contribution_window_days = n } }
  | err e ↦ drop r (window e)
]

unfoldable pub apply_sections : Resolved → List SectionRow → Resolved
apply_sections r [] = r
apply_sections r (row ∷ more) = apply_sections (apply_section r row) more

unfoldable pub apply_fields : Resolved → List FieldRow → Resolved
apply_fields r [] = r
apply_fields r (row ∷ more) = apply_fields (apply_field r row) more

unfoldable pub start : Resolved
start = record { policy = default_gate_policy; dropped = [] }

unfoldable pub resolve_gate_policy : Overrides → Resolved
unfolding apply_window apply_fields apply_sections apply_section apply_field start
resolve_gate_policy o =
    apply_window (apply_fields (apply_sections start o.sections) o.fields)
      o.contribution_window_days
