-- ===== src/Gate/Leaks.antt =====
-- What the masks withhold: exactly the values that the policy hides from the viewer
-- (apps/api/src/gate/gate.ts).
use text.Mathlib.Text.{◌==◌}
use text.Mathlib.TextEquality.{eq_iff}
use capbase.Base.{
  String, ◌≡◌, refl, inl, inr, Bool, ◌&&◌, ◌||◌, not, Option, none, some, List, [], ◌∷◌,
  if◌then◌else◌, lookup, contains, lookup-insert, contains-insert, has, has-add, or_option, is_some,
  arith, Bool-cases,
}
use capbase.Visibility.Types.{UnlockBy, GatedEntity, GatePolicy, ViewerAccess}
use capbase.Visibility.Registry.{is_gated_field}
use capbase.Visibility.Viewer.{field_gate}
use capbase.Gate.Masks.{
  Value, Entity, blank_of, record_unlock, mask_field, mask_fields, Withheld, is_show, is_hide,
  reveal, is_empty,
}

lookup-record_unlock :
    (g f : String) (by : Option UnlockBy) (table : List (String × UnlockBy))
    → lookup f (record_unlock g by table)
      ≡ (if g == f then or_option by (lookup f table) else lookup f table)
lookup-record_unlock g f none table = ground arith
lookup-record_unlock g f (some by) table = rw (lookup-insert g f by table)

module _ (blanks : List (String × Value)) (unlock : List (String × UnlockBy)) where
  mask_field_lem :
      (e : Entity) (g f : String)
      → (lookup f (mask_field blanks unlock e g).fields ≡ (
          if g == f && contains f e.fields
          then some (blank_of (lookup f blanks))
          else lookup f e.fields))
        × (contains f (mask_field blanks unlock e g).fields ≡ contains f e.fields)
        × (has f (mask_field blanks unlock e g).masked
            ≡ (has f e.masked || (g == f && contains f e.fields)))
        × (lookup f (mask_field blanks unlock e g).masked_unlock ≡ (
            if g == f && contains f e.fields
            then or_option (lookup f unlock) (lookup f e.masked_unlock)
            else lookup f e.masked_unlock))
  unfolding mask_field
  mask_field_lem e g f = elim (Bool-cases (contains g e.fields)) [
    | inl here ↦ ground (
      arith,
      eq_iff g f,
      lookup-insert g f (blank_of (lookup g blanks)) e.fields,
      contains-insert g f (blank_of (lookup g blanks)) e.fields,
      has-add g f e.masked,
      lookup-record_unlock g f (lookup g unlock) e.masked_unlock,
    )
    | inr away ↦ ground (arith, eq_iff g f)
  ]

  -- Every listed field that the object has is blanked, marked and, where something is said of it,
  -- marked with what reveals it; the rest is as it was.
  pub mask_fields_lem :
      (e : Entity) (l : List String) (f : String)
      → let r = mask_fields blanks unlock e l in
        let masked_now = has f l && contains f e.fields in
        (lookup f r.fields
          ≡ (if masked_now then some (blank_of (lookup f blanks)) else lookup f e.fields))
        × (has f r.masked ≡ (has f e.masked || masked_now))
        × (lookup f r.masked_unlock ≡ (
            if masked_now
            then or_option (lookup f unlock) (lookup f e.masked_unlock)
            else lookup f e.masked_unlock))
  unfolding mask_fields
  mask_fields_lem e [] f = ground arith
  mask_fields_lem e (g ∷ l) f =
      let here = mask_field_lem e g f in
      let ih = mask_fields_lem (mask_field blanks unlock e g) l f in ground (arith, eq_iff g f)

contains-eq-is_some {ℓ} :
    {V : Type ℓ} (f : String) (table : List (String × V))
    → contains f table ≡ is_some (lookup f table)
contains-eq-is_some f [] = refl
contains-eq-is_some f (x ∷ table) = ground (arith, contains-eq-is_some f table)

module _ (kind : GatedEntity) (entity : Entity) (partner : List String) (access : ViewerAccess)
    (policy : GatePolicy) where
  -- What is gathered is a list of fields, each with what reveals it.
  abbrev IsTagged : Withheld → String → Type 0
  IsTagged w f =
      lookup f w.unlock
      ≡ (if has f w.hide then some (reveal kind entity partner access policy f) else none)

  -- A value is due to be withheld when the policy hides it, or when the partner wrote it and the
  -- policy does not show the partner's.
  abbrev pub is_due : String → Bool
  is_due f =
      contains f entity.fields
      && ((has f partner && not (is_show (field_gate policy kind f access)))
          || (is_gated_field kind f && is_hide (field_gate policy kind f access)))

-- An empty list of fields masks nothing, so the test for it changes nothing.
pub mask_fields_of_empty :
    (blanks : List (String × Value)) (unlock : List (String × UnlockBy)) (e : Entity)
    (l : List String)
    → (if is_empty l then e else mask_fields blanks unlock e l) ≡ mask_fields blanks unlock e l
unfolding mask_fields
mask_fields_of_empty blanks unlock e [] = refl
mask_fields_of_empty blanks unlock e (x ∷ l) = refl

-- The outcome of a mask: the fields that are `due` are blank, marked, and marked with what reveals
-- them, and nothing else is changed.
pub record Masks (blanks : List (String × Value)) (due : String → Bool) (by : String → UnlockBy)
    (e r : Entity) : Type 0 where
  pub blanked :
      (f : String)
      → lookup f r.fields ≡ (if due f then some (blank_of (lookup f blanks)) else lookup f e.fields)
  pub marked : (f : String) → has f r.masked ≡ (has f e.masked || due f)
  pub hinted :
      (f : String)
      → lookup f r.masked_unlock ≡ (if due f then some (by f) else lookup f e.masked_unlock)
