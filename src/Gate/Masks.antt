-- ===== src/Gate/Masks.antt =====
-- Masking the values that a viewer may not see: `maskFields`, `gateFields`, `gateRowFields`,
-- `isMasked` and the blanks of apps/api/src/gate/gate.ts.
use capbase.Base.{
  distinct, ℕ, String, Bool, true, false, ◌||◌, not, Option, none, some, List, [], ◌∷◌, ◌++◌, map,
  keep, if◌then◌else◌, lookup, insert, contains, has, add, or_else,
}
use capbase.Visibility.Types.{
  UnlockBy, sign_in, GatedEntity, GatedSection, GatePolicy, ViewerAccess,
}
use capbase.Visibility.Registry.{field_registry, is_gated_field}
use capbase.Visibility.Viewer.{
  FieldGate, show, hide, field_gate, field_unlock_by, section_partner_rows,
  section_partner_unlock_by,
}

-- The values of a field, as far as the masks tell them apart.
pub data Value : Type 0 where
  null : Value
  str : String → Value
  num : ℕ → Value
  list : List String → Value
  other : ℕ → Value

-- An object with its optional `masked` and `maskedUnlock`, which stand apart from its other fields;
-- absent, they are empty.
pub record Entity : Type 0 where
  pub fields : List (String × Value)
  pub masked : List String
  pub masked_unlock : List (String × UnlockBy)

abbrev pub company_blanks : List (String × Value)
company_blanks =
    ("domain", str "")
    ∷ ("hq", str "")
    ∷ ("founded", num 0)
    ∷ ("headcount", num 0)
    ∷ ("industry", list [])
    ∷ ("status", str "")
    ∷ ("stage", str "")
    ∷ ("totalRaisedUsd", num 0)
    ∷ ("oneLiner", str "")
    ∷ ("description", str "")
    ∷ []

-- `Array.isArray(blank) ? [] : (blank ?? null)`
abbrev pub blank_of : Option Value → Value
blank_of none = null
blank_of (some (list xs)) = list []
blank_of (some v) = v

abbrev pub record_unlock :
    String → Option UnlockBy → List (String × UnlockBy) → List (String × UnlockBy)
record_unlock field none table = table
record_unlock field (some by) table = insert field by table

module _ (blanks : List (String × Value)) (unlock : List (String × UnlockBy)) where
  -- One round of the loop of `maskFields`.
  unfoldable pub mask_field : Entity → String → Entity
  mask_field out field = if not (contains field out.fields) then out else record {
    fields = insert field (blank_of (lookup field blanks)) out.fields;
    masked = add field out.masked;
    masked_unlock = record_unlock field (lookup field unlock) out.masked_unlock;
  }

  unfoldable pub mask_fields : Entity → List String → Entity
  mask_fields out [] = out
  mask_fields out (field ∷ more) = mask_fields (mask_field out field) more

-- What `gateFields` gathers: the fields to withhold, and what reveals each.
pub record Withheld : Type 0 where
  pub hide : List String
  pub unlock : List (String × UnlockBy)

abbrev pub is_show : FieldGate → Bool
is_show show = true
is_show _ = false

abbrev pub is_hide : FieldGate → Bool
is_hide hide = true
is_hide _ = false

-- `Object.keys(table)`
abbrev pub keys {ℓ} : {V : Type ℓ} → List (String × V) → List String
keys table = map (λ e. e.0) table

module _ (kind : GatedEntity) (entity : Entity) (partner : List String) (access : ViewerAccess)
    (policy : GatePolicy) where
  -- What reveals a withheld field.
  unfoldable pub reveal : String → UnlockBy
  reveal field =
      if is_gated_field kind field
      then or_else (field_unlock_by policy kind field access (has field partner)) sign_in
      else sign_in

  unfoldable pub withhold : Withheld → String → Withheld
  withhold w field = record {
    hide = w.hide ++ field ∷ [];
    unlock = insert field (reveal field) w.unlock;
  }

  -- One round of the first loop: a field that the partner wrote.
  unfoldable pub partner_step : Withheld → String → Withheld
  partner_step w field =
      if not (contains field entity.fields)
      then w
      else if not (is_show (field_gate policy kind field access))
      then withhold w field
      else w

  -- One round of the second: a registered field, hidden from this viewer whoever wrote it.
  unfoldable pub registry_step : Withheld → String → Withheld
  registry_step w field =
      if not (contains field entity.fields) || has field w.hide
      then w
      else if is_hide (field_gate policy kind field access)
      then withhold w field
      else w

  unfoldable pub partner_pass : Withheld → List String → Withheld
  partner_pass w [] = w
  partner_pass w (field ∷ more) = partner_pass (partner_step w field) more

  unfoldable pub registry_pass : Withheld → List String → Withheld
  registry_pass w [] = w
  registry_pass w (field ∷ more) = registry_pass (registry_step w field) more

  unfoldable pub withheld : Withheld
  withheld =
      registry_pass (partner_pass (record { hide = []; unlock = [] }) partner)
        (keys (field_registry kind))

abbrev pub is_empty {ℓ} : {A : Type ℓ} → List A → Bool
is_empty [] = true
is_empty (x ∷ xs) = false

unfoldable pub gate_fields :
    GatedEntity
    → Entity
    → Option (List String)
    → ViewerAccess
    → GatePolicy
    → List (String × Value)
    → Entity
gate_fields kind entity partner_fields access policy blanks =
    let w = withheld kind entity (distinct [] (or_else partner_fields [])) access policy in
    if is_empty w.hide then entity else mask_fields blanks w.unlock entity w.hide

-- `Object.fromEntries(fields.map((f) => [f, by]))`
unfoldable pub all_by : UnlockBy → List String → List (String × UnlockBy)
all_by by [] = []
all_by by (f ∷ fs) = (f, by) ∷ all_by by fs

unfoldable pub gate_row_fields :
    Entity
    → Option (List String)
    → ViewerAccess
    → GatePolicy
    → GatedSection
    → List (String × Value)
    → Entity
gate_row_fields row partner_fields access policy section blanks =
    let fields = keep (λ f. contains f row.fields) (or_else partner_fields []) in
    let by = or_else (section_partner_unlock_by policy section access) sign_in in
    if is_empty (or_else partner_fields []) || section_partner_rows policy section access
    then row
    else if is_empty fields
    then row
    else mask_fields blanks (all_by by fields) row fields

-- `isMasked`
abbrev pub is_masked : Entity → String → Bool
is_masked entity field = has field entity.masked
