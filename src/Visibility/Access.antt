-- ===== src/Visibility/Access.antt =====
-- How a viewer's access decides what is shown, and what would show more
-- (packages/api/src/domain/visibility.ts).
use capbase.Base.{
  ◌≤◌, String, ◌≡◌, refl, ap, ◌∙◌, inl, inr, Bool, true, false, ◌||◌, not, Option, none, some, List,
  [], ◌∷◌, lookup, any, arith, Bool-cases, Option-cases, or_else,
}
use capbase.Visibility.Types.{
  ViewerTier, Audience, everyone, UnlockBy, sign_in, contribute, GatedEntity, gated, SectionPolicy,
  FieldPolicy, GatedSection, GatePolicy, ViewerAccess, tier_rank,
}
use capbase.Visibility.Registry.{default_field}
use capbase.Visibility.Validate.{Overrides, resolve_gate_policy}
use capbase.Visibility.Viewer.{
  viewer_tier, meets, Limit, at_most, infinity, tier_limit, section_limit, section_partner_rows,
  field_policy, FieldGate, show, hide, hide_partner, field_gate, sees, first_above, field_unlock_by,
  is_contributors, fields_need, card_section, card_needs, needs_contribution_lookup,
}
use capbase.Visibility.Sound.{IsSectionPolicy, resolve_gate_policy-IsGatePolicy}

abbrev pub LimitLe : Limit → Limit → Type 0
LimitLe l infinity = Unit
LimitLe infinity (at_most n) = ⊥
LimitLe (at_most m) (at_most n) = m ≤ n

-- `b` has at least the access of `a`.
pub record NoLess (a b : ViewerAccess) : Type 0 where
  pub admin_too : a.admin ≡ true → b.admin ≡ true
  pub no_lower : tier_rank (viewer_tier a) ≤ tier_rank (viewer_tier b)

tier_limit_mono :
    (s : GatedSection) (p : SectionPolicy) (t u : ViewerTier)
    → IsSectionPolicy s p
    → tier_rank t ≤ tier_rank u
    → LimitLe (tier_limit p t) (tier_limit p u)
tier_limit_mono s p t u v h = ground arith

pub meets_mono :
    (a b : ViewerAccess) (d : Audience) → NoLess a b → meets a d ≡ true → meets b d ≡ true
unfolding meets
meets_mono a b d h m = ground arith

-- Under every resolved policy, a viewer with no less access never gets fewer rows of a section, and
-- gets the partner's rows wherever the other one does.
pub section_limit_mono :
    (o : Overrides) (s : GatedSection) (a b : ViewerAccess)
    → NoLess a b
    → let g = (resolve_gate_policy o).policy in
      LimitLe (section_limit g s a) (section_limit g s b)
      × (section_partner_rows g s a ≡ true → section_partner_rows g s b ≡ true)
unfolding section_limit section_partner_rows
section_limit_mono o s a b h =
    let p = (resolve_gate_policy o).policy.sections s in
    let v = (resolve_gate_policy-IsGatePolicy o).sections_valid s in
    (
      ground (arith, tier_limit_mono s p (viewer_tier a) (viewer_tier b) v),
      meets_mono a b p.partner_audience h,
    )

-- Whether the gate shows a value of the field, by who wrote it.
abbrev pub shows : FieldGate → Bool → Bool
shows show w = true
shows hide w = false
shows hide_partner w = not w

field_gate-shows :
    (g : GatePolicy) (e : GatedEntity) (f : String) (a : ViewerAccess) (w : Bool)
    → a.admin ≡ false
    → shows (field_gate g e f a) w
      ≡ sees (or_else (field_policy g e f) default_field) w (viewer_tier a)
unfolding field_gate meets
field_gate-shows g e f a w h = elim (Option-cases (field_policy g e f)) [
  | inl missing ↦ rw missing (ground arith)
  | inr (p, found) ↦ rw found (ground arith)
]

-- The access of a viewer who took the hint: signed in, or with an approved contribution.
abbrev pub taken : UnlockBy → ViewerAccess → ViewerAccess
taken sign_in a = record a { signed_in = true }
taken contribute a = record a { unlocked = true }

-- What a hint of `p` promises: none, and the viewer sees the value; some, and the viewer does not,
-- and would after taking it.
abbrev pub Reveals : (ViewerAccess → Bool) → ViewerAccess → Option UnlockBy → Type 0
Reveals visible a none = visible a ≡ true
Reveals visible a (some by) = (visible a ≡ false) × (visible (taken by a) ≡ true)

first_above-Reveals :
    (p : FieldPolicy) (w : Bool) (a : ViewerAccess)
    → Reveals (λ b. sees p w (viewer_tier b)) a (first_above (sees p w) (viewer_tier a))
first_above-Reveals p w a = split p.audience p.partner_audience a.unlocked a.signed_in w
  where
    split :
        (d pd : Audience) (u s v : Bool)
        → let q : FieldPolicy = record { audience = d; partner_audience = pd } in
          let b : ViewerAccess = record a { unlocked = u; signed_in = s } in
          Reveals (λ b. sees q v (viewer_tier b)) b (first_above (sees q v) (viewer_tier b))
    split everyone everyone true s false = refl
    split d pd u s v = ground arith

Reveals-congr :
    (v v' : ViewerAccess → Bool) (a : ViewerAccess) (hint : Option UnlockBy)
    → v a ≡ v' a
    → ((by : UnlockBy) → v (taken by a) ≡ v' (taken by a))
    → Reveals v' a hint
    → Reveals v a hint
Reveals-congr v v' a none e k r = e ∙ r
Reveals-congr v v' a (some by) e k r = (e ∙ r.0, k by ∙ r.1)

admin-taken : (by : UnlockBy) (a : ViewerAccess) → (taken by a).admin ≡ a.admin
admin-taken sign_in a = refl
admin-taken contribute a = refl

field_unlock_by-eq-first_above :
    (g : GatePolicy) (e : GatedEntity) (f : String) (a : ViewerAccess) (w : Bool)
    → a.admin ≡ false
    → field_unlock_by g e f a w
      ≡ first_above (sees (or_else (field_policy g e f) default_field) w) (viewer_tier a)
unfolding field_unlock_by
field_unlock_by-eq-first_above g e f a w h = simp h

field_gate-admin :
    (g : GatePolicy) (e : GatedEntity) (f : String) (a : ViewerAccess) (w : Bool)
    → a.admin ≡ true
    → shows (field_gate g e f a) w ≡ true
unfolding field_gate meets
field_gate-admin g e f a w h = elim (Option-cases (field_policy g e f)) [
  | inl missing ↦ rw (missing, field_gate) (ground arith)
  | inr (p, found) ↦ rw (found, field_gate) (ground arith)
]

field_unlock_by-admin :
    (g : GatePolicy) (e : GatedEntity) (f : String) (a : ViewerAccess) (w : Bool)
    → a.admin ≡ true
    → field_unlock_by g e f a w ≡ none
unfolding field_unlock_by
field_unlock_by-admin g e f a w h = simp h

-- A field's hint is exact, for every viewer, admins included: without one the viewer sees the value, and
-- with one the viewer does not and would after signing in (`sign_in`) or contributing (`contribute`).
-- `w` says whether the partner wrote the value.
pub field_unlock_by-Reveals :
    (g : GatePolicy) (e : GatedEntity) (f : String) (a : ViewerAccess) (w : Bool)
    → Reveals (λ b. shows (field_gate g e f b) w) a (field_unlock_by g e f a w)
field_unlock_by-Reveals g e f a w = elim (Bool-cases a.admin) [
  | inl h ↦ rw (field_unlock_by-admin g e f a w h) (field_gate-admin g e f a w h)
  | inr h ↦
      let p = or_else (field_policy g e f) default_field in
      rw (field_unlock_by-eq-first_above g e f a w h) (
        Reveals-congr (λ b. shows (field_gate g e f b) w) (λ b. sees p w (viewer_tier b)) a
          (first_above (sees p w) (viewer_tier a)) (field_gate-shows g e f a w h)
          (λ by. field_gate-shows g e f (taken by a) w (admin-taken by a ∙ h))
          (first_above-Reveals p w a))
]

no_contributors :
    (f : String) (fields : List (String × FieldPolicy)) {p : FieldPolicy}
    → any (λ x. is_contributors x.1.audience || is_contributors x.1.partner_audience) fields ≡ false
    → lookup f fields ≡ some p
    → (is_contributors p.audience ≡ false) × (is_contributors p.partner_audience ≡ false)
no_contributors f [] h e = cc
no_contributors f ((k, q) ∷ fields) {p} h e = ground (arith, no_contributors f fields {p = p})

field_gate_of_no_contributors :
    (g : GatePolicy) (e : GatedEntity) (f : String) (a : ViewerAccess)
    → fields_need g (gated e) ≡ false
    → a.signed_in ≡ true
    → field_gate g e f a ≡ field_gate g e f (record a { unlocked = false })
unfolding field_gate meets
field_gate_of_no_contributors g e f a h s = elim (Option-cases (field_policy g e f)) [
  | inl missing ↦ rw (missing, field_gate) (ground arith)
  | inr (p, found) ↦
      let (wide, partner_wide) = no_contributors f (g.fields e) h found in
      rw (found, field_gate) (ground arith)
]

card_needs_lem :
    (g : GatePolicy) (t : GatedSection) (c : Option GatedSection)
    → c ≡ some t
    → card_needs g c ≡ is_contributors (g.sections t).partner_audience
card_needs_lem g t c e = ap (card_needs g) e

-- Where no lookup of the contribution is needed, it makes no difference to a signed-in viewer: every
-- field, and the partner's rows of the section that a directory card samples, are gated for the
-- viewer as for one who has not contributed.
pub no_lookup_no_difference :
    (g : GatePolicy) (e : GatedEntity) (a : ViewerAccess)
    → needs_contribution_lookup g (gated e) ≡ false
    → a.signed_in ≡ true
    → ((f : String) → field_gate g e f a ≡ field_gate g e f (record a { unlocked = false }))
      × ((s : GatedSection)
          → card_section (gated e) ≡ some s
          → section_partner_rows g s a ≡ section_partner_rows g s (record a { unlocked = false }))
unfolding needs_contribution_lookup section_partner_rows meets
no_lookup_no_difference g e a h s = (
  λ f. field_gate_of_no_contributors g e f a (ground arith) s,
  λ t c. ground (arith, card_needs_lem g t (card_section (gated e)) c),
)
