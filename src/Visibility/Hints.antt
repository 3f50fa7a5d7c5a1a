-- ===== src/Visibility/Hints.antt =====
-- What would show a viewer more of a section: the hints of `sectionView` in
-- packages/api/src/domain/visibility.ts.
use capbase.Base.{
  ℕ, ◌≤◌, ◌<◌, ◌≡◌, ◌∙◌, inl, inr, Bool, true, false, ◌||◌, ◌&&◌, not, ltb, Option, none, some,
  find, arith, Bool-cases,
}
use capbase.Visibility.Types.{
  ViewerTier, signed_out, unlocked, UnlockBy, sign_in, contribute, SectionPolicy, GatedSection,
  GatePolicy, ViewerAccess, tier_rank, SectionLevel, hidden, preview, full, level_rank, level_at,
  is_hidden,
}
use capbase.Visibility.Validate.{Overrides, resolve_gate_policy}
use capbase.Visibility.Viewer.{
  viewer_tier, meets, Limit, at_most, infinity, limit_of, tier_meets, section_limit,
  section_partner_rows, gains, tier_view, section_view, unlock_of, tiers_above, section_disabled,
}
use capbase.Visibility.Sound.{resolve_gate_policy-IsGatePolicy}

-- The tier that a hint names.
abbrev pub unlocked_tier : UnlockBy → ViewerTier
unlocked_tier sign_in = ViewerTier.signed_in
unlocked_tier contribute = unlocked

-- What a hint means where `gain` tells whether a tier shows more than `t`: the named tier is above
-- `t` and gains, and no tier between the two does.
abbrev pub Hints : (ViewerTier → Bool) → ViewerTier → Option UnlockBy → Type 0
Hints gain t none = (u : ViewerTier) → tier_rank t < tier_rank u → gain u ≡ false
Hints gain t (some by) =
    (tier_rank t < tier_rank (unlocked_tier by))
    × (gain (unlocked_tier by) ≡ true)
    × ((u : ViewerTier)
        → tier_rank t < tier_rank u
        → tier_rank u < tier_rank (unlocked_tier by)
        → gain u ≡ false)

first_gain-Hints :
    (gain : ViewerTier → Bool) (t : ViewerTier)
    → Hints gain t (unlock_of (find gain (tiers_above t)))
first_gain-Hints gain signed_out = elim (Bool-cases (gain ViewerTier.signed_in)) [
  | inl e ↦ rw e (omega arith, e, λ u h k. absurd (omega arith))
  | inr e ↦ elim (Bool-cases (gain unlocked)) [
    | inl f ↦ rw (e, f) (omega arith, f, λ u h k. ground arith)
    | inr f ↦ rw (e, f) (λ u h. ground arith)
  ]
]
first_gain-Hints gain ViewerTier.signed_in = elim (Bool-cases (gain unlocked)) [
  | inl f ↦ rw f (omega arith, f, λ u h k. absurd (omega arith))
  | inr f ↦ rw f (λ u h. ground arith)
]
first_gain-Hints gain unlocked = λ u h. ground arith

disabled-gains :
    (p : SectionPolicy) (t u : ViewerTier) → section_disabled p ≡ true → gains p t u ≡ false
disabled-gains p t u h = ground arith

tier_view-Hints :
    (p : SectionPolicy) (t : ViewerTier) → Hints (gains p t) t (tier_view p t).unlock_by
unfolding tier_view
tier_view-Hints p t = elim (Bool-cases (section_disabled p)) [
  | inl off ↦ rw off (λ u h. disabled-gains p t u off)
  | inr on ↦ rw on (first_gain-Hints (gains p t) t)
]

Hints-congr :
    (f g : ViewerTier → Bool) (t : ViewerTier) (hint : Option UnlockBy)
    → ((u : ViewerTier) → g u ≡ f u)
    → Hints f t hint
    → Hints g t hint
Hints-congr f g t none e h = λ u k. e u ∙ h u k
Hints-congr f g t (some by) e h = (h.0, e (unlocked_tier by) ∙ h.1, λ u k l. e u ∙ h.2 u k l)

-- A viewer of the tier, no admin.
abbrev pub at_tier : ViewerTier → ViewerAccess
at_tier signed_out = record { admin = false; signed_in = false; unlocked = false; window_days = 0 }
at_tier ViewerTier.signed_in = record {
  admin = false;
  signed_in = true;
  unlocked = false;
  window_days = 0;
}
at_tier unlocked = record { admin = false; signed_in = true; unlocked = true; window_days = 0 }

-- Fewer rows.
abbrev pub limit_below : Limit → Limit → Bool
limit_below infinity l = false
limit_below (at_most m) infinity = true
limit_below (at_most m) (at_most n) = ltb m n

-- `b` gets more rows of the section than `a`, or, where `b` gets rows at all, the partner's ones,
-- which `a` does not get.
abbrev pub gets_more : GatePolicy → GatedSection → ViewerAccess → ViewerAccess → Bool
gets_more g s a b =
    limit_below (section_limit g s a) (section_limit g s b)
    || (limit_below (at_most 0) (section_limit g s b)
        && section_partner_rows g s b
        && not (section_partner_rows g s a))

levels-gain :
    (l m : SectionLevel) (n : ℕ) (x y : Bool)
    → 1 ≤ n
    → (limit_below (limit_of l n) (limit_of m n)
        || (limit_below (at_most 0) (limit_of m n) && x && not y))
      ≡ (ltb (level_rank l) (level_rank m) || (not (is_hidden m) && x && not y))
levels-gain hidden m n x y h = ground arith
levels-gain preview m n x y h = ground arith
levels-gain full m n x y h = ground arith

gets_more-gains :
    (g : GatePolicy) (s : GatedSection) (a : ViewerAccess) (u : ViewerTier)
    → 1 ≤ (g.sections s).preview_rows
    → a.admin ≡ false
    → gets_more g s a (at_tier u) ≡ gains (g.sections s) (viewer_tier a) u
unfolding section_limit section_partner_rows meets
gets_more-gains g s a u n h = simp h (at u)
  where
    p : SectionPolicy
    p = g.sections s

    at :
        (u : ViewerTier)
        → gets_more g s (record a { admin = false }) (at_tier u)
          ≡ gains (g.sections s) (viewer_tier a) u
    at signed_out =
        levels-gain (level_at p (viewer_tier a)) (level_at p signed_out) p.preview_rows
          (tier_meets signed_out p.partner_audience) (tier_meets (viewer_tier a) p.partner_audience)
          n
    at ViewerTier.signed_in =
        levels-gain (level_at p (viewer_tier a)) (level_at p ViewerTier.signed_in) p.preview_rows
          (tier_meets ViewerTier.signed_in p.partner_audience)
          (tier_meets (viewer_tier a) p.partner_audience) n
    at unlocked =
        levels-gain (level_at p (viewer_tier a)) (level_at p unlocked) p.preview_rows
          (tier_meets unlocked p.partner_audience) (tier_meets (viewer_tier a) p.partner_audience) n

gets_more-admin :
    (g : GatePolicy) (s : GatedSection) (a b : ViewerAccess)
    → a.admin ≡ true
    → gets_more g s a b ≡ false
unfolding section_limit section_partner_rows meets
gets_more-admin g s a b h = ground arith

section_view-admin :
    (g : GatePolicy) (s : GatedSection) (a : ViewerAccess)
    → a.admin ≡ true
    → (section_view g s a).unlock_by ≡ none
unfolding section_view
section_view-admin g s a h = ground arith

section_view-tier :
    (g : GatePolicy) (s : GatedSection) (a : ViewerAccess)
    → a.admin ≡ false
    → (section_view g s a).unlock_by ≡ (tier_view (g.sections s) (viewer_tier a)).unlock_by
unfolding section_view
section_view-tier g s a h = ground arith

-- Under every resolved policy the hint of a section names the lowest tier above the viewer of which a
-- viewer gets more rows of it, or gets rows and the partner's ones with them where this viewer does
-- not get the partner's; without a hint no tier above does. An admin has no hint.
pub section_view-Hints :
    (o : Overrides) (s : GatedSection) (a : ViewerAccess)
    → let g = (resolve_gate_policy o).policy in
      Hints (λ u. gets_more g s a (at_tier u)) (viewer_tier a) (section_view g s a).unlock_by
      × (a.admin ≡ true → (section_view g s a).unlock_by ≡ none)
section_view-Hints o s a =
    let g = (resolve_gate_policy o).policy in
    let v = (resolve_gate_policy-IsGatePolicy o).sections_valid s in
    elim (Bool-cases a.admin) [
      | inl h ↦
          let none_shown = section_view-admin g s a h in
          (rw none_shown (λ u k. gets_more-admin g s a (at_tier u) h), λ e. none_shown)
      | inr h ↦ (
        rw (section_view-tier g s a h) (
            Hints-congr (gains (g.sections s) (viewer_tier a)) (λ u. gets_more g s a (at_tier u))
              (viewer_tier a) (tier_view (g.sections s) (viewer_tier a)).unlock_by
              (λ u. gets_more-gains g s a u v.some_rows h)
              (tier_view-Hints (g.sections s) (viewer_tier a))),
        λ e. absurd (ground arith),
      )
    ]
