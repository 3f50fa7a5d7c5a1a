-- ===== src/Gate/Filters.antt =====
-- Which filters and sorts of a directory a viewer may use (`directoryFilters` of
-- apps/api/src/gate/gate.ts).
use text.Mathlib.Text.{◌==◌}
use capbase.Base.{String, Bool, false, ◌&&◌, not, Option, none, some}
use capbase.Visibility.Types.{GatedEntity, GatePolicy, ViewerAccess}
use capbase.Visibility.Registry.{FieldSpec, bound_to}
use capbase.Visibility.Viewer.{field_gate}
use capbase.Gate.Masks.{is_hide}
use capbase.Gate.Directory.{is_hide_partner, blocks}

abbrev pub is_applied : (String → Bool) → Option String → Bool
is_applied applied none = false
is_applied applied (some param) = applied param

module _ (g : GatePolicy) (e : GatedEntity) (a : ViewerAccess) (applied : String → Bool) where
  -- Why a registered field locks the filter `p`, locks the sort `p`, or narrows an applied filter.
  abbrev pub locks_filter : String → String × FieldSpec → Bool
  locks_filter p (field, spec) = bound_to p spec.filter && blocks (field_gate g e field a) spec

  abbrev pub locks_sort : String → String × FieldSpec → Bool
  locks_sort p (field, spec) = bound_to p spec.sort && is_hide (field_gate g e field a)

  abbrev pub narrows : String → String × FieldSpec → Bool
  narrows f (field, spec) =
      field == f
      && (is_hide_partner (field_gate g e field a)
          && (not spec.partner_only_column && is_applied applied spec.filter))
