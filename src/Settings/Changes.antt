-- ===== src/Settings/Changes.antt =====
-- The admin's changes to the read gate's policy, and its load, in
-- apps/api/src/gate/gate-policy.service.ts. The three stored tables are an `Overrides`; a table has one
-- row for a key, as its unique index says. Who changed a row, and the log, are left out.
use text.Mathlib.Text.{◌==◌}
use capbase.Base.{
  ℕ, String, Bool, false, not, ◌&&◌, none, some, List, [], ◌∷◌, keep, if◌then◌else◌, is_some,
  Result, ok, err, ◌>>=◌, ◌>>◌, fail_if,
}
use capbase.Visibility.Types.{GatePolicy}
use capbase.Visibility.Registry.{section_of_key, entity_of_key, is_gated_field}
use capbase.Visibility.Validate.{
  Raw, SectionRow, FieldRow, Overrides, PolicyError, validate_section_policy, validate_field_policy,
  validate_window_days, resolve_gate_policy,
}

-- The exceptions: NotFoundException, and BadRequestException with its message.
pub data ServiceError : Type 0 where
  not_found : ServiceError
  bad_request : PolicyError → ServiceError

-- The handlers that write, with their arguments.
pub data Change : Type 0 where
  set_section : SectionRow → Change
  reset_section : String → Change
  set_field : FieldRow → Change
  reset_field : String → String → Change
  set_window : Raw → Change
  reset_window : Change

-- `if (error) throw new BadRequestException(error)`
abbrev pub checked {ℓ} : {A : Type ℓ} → Result PolicyError A → Result ServiceError (Unit {0})
checked (ok a) = ok tt
checked (err e) = err (bad_request e)

abbrev pub is_known_field : String → String → Bool
is_known_field entity field = elim (entity_of_key entity) [
  | none ↦ false
  | some e ↦ is_gated_field e field
]

-- `upsert` by the section, and by the entity and the field.
unfoldable pub upsert_section : SectionRow → List SectionRow → List SectionRow
upsert_section row [] = row ∷ []
upsert_section row (r ∷ rows) =
    let later = upsert_section row rows in
    if r.section == row.section then row ∷ rows else r ∷ later

unfoldable pub upsert_field : FieldRow → List FieldRow → List FieldRow
upsert_field row [] = row ∷ []
upsert_field row (r ∷ rows) =
    let later = upsert_field row rows in
    if r.entity == row.entity && r.field == row.field then row ∷ rows else r ∷ later

unfoldable pub write_change : Overrides → Change → Result ServiceError Overrides
write_change store (set_section row) = do
  fail_if (not (is_some (section_of_key row.section))) not_found
  checked (validate_section_policy row)
  ok (record store { sections = upsert_section row store.sections })
write_change store (reset_section section) = do
  fail_if (not (is_some (section_of_key section))) not_found
  ok (record store { sections = keep (λ r. not (r.section == section)) store.sections })
write_change store (set_field row) = do
  fail_if (not (is_known_field row.entity row.field)) not_found
  checked (validate_field_policy row)
  ok (record store { fields = upsert_field row store.fields })
write_change store (reset_field entity field) = do
  fail_if (not (is_known_field entity field)) not_found
  ok (record store {
    fields = keep (λ r. not (r.entity == entity && r.field == field)) store.fields;
  })
write_change store (set_window days) = do
  checked (validate_window_days days)
  ok (record store { contribution_window_days = some days })
write_change store reset_window = ok (record store { contribution_window_days = none })

-- The service: the stored tables, and its own snapshot with its time.
pub record Service : Type 0 where
  pub store : Overrides
  pub snapshot : GatePolicy
  pub loaded_at : ℕ

unfoldable pub load : Service → ℕ → Service
load s now = record s { snapshot = (resolve_gate_policy s.store).policy; loaded_at = now }

-- A handler: its write, and the reload that every one of them ends with.
unfoldable pub handle : Service → ℕ → Change → Result ServiceError Service
handle s now change = do
  store ← write_change s.store change
  ok (load (record s { store = store }) now)

-- A sequence of requests at their times; one that throws changes nothing.
unfoldable pub handle_all : Service → List (ℕ × Change) → Service
handle_all s [] = s
handle_all s ((now, change) ∷ more) = elim (handle s now change) [
  | ok next ↦ handle_all next more
  | err e ↦ handle_all s more
]
