-- ===== src/Gate/Rows.antt =====
-- Rows, and the access of a list read: `publicRowsWhere`, `rowVisible`, `stubFor`, `listAccess`,
-- `listAccessFor`, `limitRows` and `takeFor` of apps/api/src/gate/gate.ts.
use text.Mathlib.Text.{◌==◌}
use text.Mathlib.TextEquality.{eq_iff}
use capbase.Base.{
  ℕ, String, ◌≡◌, refl, sym, ◌∙◌, ◌↔◌, Bool, true, false, ◌&&◌, ◌||◌, not, Option, none, some, List,
  [], ◌∷◌, any, if◌then◌else◌, take, arith, inl, inr, Bool-cases, is_some,
}
use mathlib.Core.List.{Memᴰ}
use capbase.Visibility.Access.{no_lookup_no_difference}
use capbase.Visibility.Types.{
  SectionEntity, GatedEntity, gated, GatedSection, GatePolicy, ViewerAccess,
}
use capbase.Visibility.Viewer.{
  Limit, at_most, infinity, section_partner_rows, partner_visible, needs_contribution_lookup, meets,
  field_gate,
}

abbrev pub partner_source : String
partner_source = "PARTNER"

-- A condition of a query on a row's source: `{ externalSource: null }` and
-- `{ externalSource: { not: s } }`.
pub data Clause : Type 0 where
  source_null : Clause
  source_not : String → Clause

-- `PublicRows`: `{}`, or an `OR` of conditions.
pub data PublicRows : Type 0 where
  every_row : PublicRows
  any_of : List Clause → PublicRows

abbrev pub not_partner : PublicRows
not_partner = any_of (source_null ∷ source_not partner_source ∷ [])

unfoldable pub public_rows_where : ViewerAccess → GatePolicy → GatedSection → PublicRows
public_rows_where access policy section =
    if section_partner_rows policy section access then every_row else not_partner

unfoldable pub visible_round_investors : ViewerAccess → GatePolicy → PublicRows
unfolding public_rows_where
visible_round_investors access policy = public_rows_where access policy GatedSection.company_rounds

-- `row.externalSource !== PARTNER_SOURCE`
abbrev pub not_from_partner : Option String → Bool
not_from_partner none = true
not_from_partner (some source) = not (source == partner_source)

unfoldable pub row_visible : Option String → ViewerAccess → GatePolicy → GatedSection → Bool
row_visible external_source access policy section =
    section_partner_rows policy section access || not_from_partner external_source

unfoldable pub stub_for : Bool → ViewerAccess → Bool
unfolding partner_visible
stub_for partner_only access = partner_only && not (partner_visible access)

pub data Role : Type 0 where
  user contributor admin : Role

abbrev pub is_admin : Option Role → Bool
is_admin (some admin) = true
is_admin _ = false

abbrev pub is_contributor : Option Role → Bool
is_contributor (some contributor) = true
is_contributor _ = false

-- `listAccess`: the viewer is its role, if there is one.
unfoldable pub list_access : Option Role → Option GatePolicy → ViewerAccess
list_access viewer policy = record {
  unlocked = is_admin viewer || is_contributor viewer;
  signed_in = is_some viewer;
  admin = is_admin viewer;
  window_days = elim policy [ none ↦ 0 | some p ↦ p.contribution_window_days ];
}

-- `listAccessFor`. `looked_up` is what the lookup of the contribution would give.
unfoldable pub list_access_for :
    Option Role → GatePolicy → List SectionEntity → ViewerAccess → ViewerAccess
unfolding list_access
list_access_for viewer policy entities looked_up =
    let quick = list_access viewer (some policy) in
    if not (is_some viewer) || quick.unlocked
    then quick
    else if any (needs_contribution_lookup policy) entities
    then looked_up
    else quick

-- `limitRows`: a slice to the limit.
unfoldable pub limit_rows {ℓ} : {A : Type ℓ} → List A → Limit → List A
limit_rows rows infinity = rows
limit_rows rows (at_most n) = take n rows

unfoldable pub take_for : Limit → Option ℕ
take_for infinity = none
take_for (at_most n) = some n

-- How a database reads a condition: SQL compares with NULL to unknown, which is not true.
pub record ReadsClauses (holds : Clause → Option String → Bool) : Type 0 where
  pub null_is_null : holds source_null none ≡ true
  pub some_not_null : (s : String) → holds source_null (some s) ≡ false
  pub some_not : (p s : String) → holds (source_not p) (some s) ≡ not (s == p)
  pub null_unknown : (p : String) → holds (source_not p) none ≡ false

abbrev pub passes : (Clause → Option String → Bool) → PublicRows → Option String → Bool
passes holds every_row source = true
passes holds (any_of clauses) source = any (λ c. holds c source) clauses

-- For every database that reads the conditions so, the filter of a query and the test of a loaded row
-- agree on every row: below the section's partner audience exactly the partner's rows are left out,
-- so a row with no source never is.
pub passes-public_rows_where :
    (holds : Clause → Option String → Bool)
    → ReadsClauses holds
    → (a : ViewerAccess) (g : GatePolicy) (s : GatedSection) (source : Option String)
    → (passes holds (public_rows_where a g s) source ≡ row_visible source a g s)
      × ((row_visible source a g s ≡ false)
          ↔ ((section_partner_rows g s a ≡ false) × (source ≡ some partner_source)))
unfolding public_rows_where row_visible
passes-public_rows_where holds r a g s none =
    ground (arith, r.null_is_null, r.null_unknown partner_source)
passes-public_rows_where holds r a g s (some x) =
    ground (arith, r.some_not_null x, r.some_not partner_source x, eq_iff x partner_source)

any_of_Memᴰ {ℓ} :
    {A : Type ℓ} (p : A → Bool) {x : A} (l : List A) → any p l ≡ false → Memᴰ x l → p x ≡ false
any_of_Memᴰ p [] h m = elim m [ ]
any_of_Memᴰ p (y ∷ l) h (Memᴰ.head e) = rw e (ground arith)
any_of_Memᴰ p (y ∷ l) h (Memᴰ.tail m) = any_of_Memᴰ p l (ground arith) m

-- A field's gate reads three things of the access.
field_gate_congr :
    (g : GatePolicy) (e : GatedEntity) (f : String) (a b : ViewerAccess)
    → a.unlocked ≡ b.unlocked
    → a.signed_in ≡ b.signed_in
    → a.admin ≡ b.admin
    → field_gate g e f a ≡ field_gate g e f b
unfolding field_gate meets
field_gate_congr g e f a b h k m = ground arith

-- Skipping the lookup of the contribution is exact for a list: whatever the lookup would have given
-- a signed-in user, every field of every listed entity is gated as with it.
pub list_access_for_exact :
    (g : GatePolicy) (entities : List SectionEntity) (e : GatedEntity) (f : String)
    (looked_up : ViewerAccess)
    → Memᴰ (gated e) entities
    → looked_up.signed_in ≡ true
    → looked_up.admin ≡ false
    → field_gate g e f (list_access_for (some user) g entities looked_up)
      ≡ field_gate g e f looked_up
unfolding list_access_for
list_access_for_exact g entities e f looked_up m s h =
    elim (Bool-cases (any (needs_contribution_lookup g) entities)) [
      | inl needed ↦ rw needed
      | inr not_needed ↦ rw not_needed (
          field_gate_congr g e f _ (record looked_up { unlocked = false }) refl (sym s) (sym h)
          ∙ sym (
              (no_lookup_no_difference g e looked_up
                  (any_of_Memᴰ (needs_contribution_lookup g) entities not_needed m) s).0
                f))
    ]
