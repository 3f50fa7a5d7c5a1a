-- ===== src/Gate/Directory.antt =====
-- The filters and sorts of a directory under the field policy: `directoryFilters`, `fieldVisible`
-- and `partnerFieldVisible` of apps/api/src/gate/gate.ts.
use capbase.Base.{
  String, Bool, true, false, ◌&&◌, ◌||◌, not, Option, none, some, List, [], ◌∷◌, ◌++◌,
  if◌then◌else◌, lookup, insert, has, add, or_else,
}
use capbase.Visibility.Types.{UnlockBy, sign_in, contribute, GatedEntity, GatePolicy, ViewerAccess}
use capbase.Visibility.Registry.{FieldSpec, field_registry}
use capbase.Visibility.Viewer.{FieldGate, hide_partner, field_gate, field_unlock_by}
use capbase.Gate.Masks.{is_show, is_hide}

-- `and` lists the fields of the conditions `NOT: { partnerFields: { has: field } }`.
pub record DirectoryGate : Type 0 where
  pub ignored : List String
  pub and : List String
  pub sorts : List String
  pub unlock_by : List (String × UnlockBy)

abbrev pub is_hide_partner : FieldGate → Bool
is_hide_partner hide_partner = true
is_hide_partner _ = false

abbrev pub strongest : Option UnlockBy → UnlockBy → UnlockBy
strongest (some contribute) b = contribute
strongest _ b = b

abbrev pub blocks : FieldGate → FieldSpec → Bool
blocks gate spec = is_hide gate || (is_hide_partner gate && spec.partner_only_column)

module _ (policy : GatePolicy) (entity : GatedEntity) (access : ViewerAccess)
    (applied : String → Bool) where
  -- The gate of a field, and what reveals it.
  abbrev pub gate_of : String → FieldGate
  gate_of field = field_gate policy entity field access

  abbrev pub reveals : String → Bool → UnlockBy
  reveals field partner = or_else (field_unlock_by policy entity field access partner) sign_in

  -- `if (info.filter) …`
  unfoldable pub filter_step : DirectoryGate → String → FieldSpec → Option String → DirectoryGate
  filter_step d field spec none = d
  filter_step d field spec (some param) =
      if blocks (gate_of field) spec
      then record d {
        ignored = add param d.ignored;
        unlock_by = insert param (reveals field (is_hide_partner (gate_of field))) d.unlock_by;
      }
      else if is_hide_partner (gate_of field) && applied param
      then record d { and = d.and ++ field ∷ [] }
      else d

  -- `if (info.sort && gate === 'hide') …`
  unfoldable pub sort_step : DirectoryGate → String → Option String → DirectoryGate
  sort_step d field none = d
  sort_step d field (some param) =
      if is_hide (gate_of field)
      then record d {
        sorts = add param d.sorts;
        unlock_by =
            insert param (strongest (lookup param d.unlock_by) (reveals field false)) d.unlock_by;
      }
      else d

  unfoldable pub directory_loop : DirectoryGate → List (String × FieldSpec) → DirectoryGate
  directory_loop d [] = d
  directory_loop d ((field, spec) ∷ more) =
      directory_loop (sort_step (filter_step d field spec spec.filter) field spec.sort) more

  unfoldable pub directory_filters : DirectoryGate
  directory_filters =
      directory_loop (record { ignored = []; and = []; sorts = []; unlock_by = [] })
        (field_registry entity)

-- `use`, and `sortLocked` of a sort that the request carries.
abbrev pub uses : DirectoryGate → String → Bool
uses d param = not (has param d.ignored)

abbrev pub sort_locked : DirectoryGate → String → Bool
sort_locked d param = has param d.sorts

unfoldable pub field_visible : GatePolicy → GatedEntity → String → ViewerAccess → Bool
field_visible policy entity field access = not (is_hide (field_gate policy entity field access))

unfoldable pub partner_field_visible : GatePolicy → GatedEntity → String → ViewerAccess → Bool
partner_field_visible policy entity field access = is_show (field_gate policy entity field access)
