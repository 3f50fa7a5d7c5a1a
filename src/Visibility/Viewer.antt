-- ===== src/Visibility/Viewer.antt =====
-- What one viewer gets under a policy: the per-viewer resolvers of
-- packages/api/src/domain/visibility.ts, and `gateLimit` and `partnerVisible` of contributions.ts.
use capbase.Base.{
  ℕ, String, Bool, true, false, ◌&&◌, ◌||◌, not, Option, none, some, List, [], ◌∷◌, ltb, leb,
  if◌then◌else◌, lookup, find, keep, any, all, or_else,
}
use capbase.Visibility.Types.{
  ViewerTier, signed_out, unlocked, Audience, everyone, contributors, UnlockBy, sign_in, contribute,
  GatedEntity, SectionEntity, gated, person, SectionLevel, hidden, preview, full, SectionPolicy,
  FieldPolicy, GatedSection, GatePolicy, SectionView, ViewerAccess, level_rank, audience_rank,
  tier_rank, level_at, is_hidden, viewer_tiers,
}
use capbase.Visibility.Registry.{section_registry, gated_section_keys, default_field}

abbrev pub viewer_tier : ViewerAccess → ViewerTier
viewer_tier access =
    if access.unlocked
    then unlocked
    else if access.signed_in
    then ViewerTier.signed_in
    else signed_out

abbrev pub tier_meets : ViewerTier → Audience → Bool
tier_meets tier everyone = true
tier_meets signed_out Audience.signed_in = false
tier_meets tier Audience.signed_in = true
tier_meets unlocked contributors = true
tier_meets tier contributors = false

unfoldable pub meets : ViewerAccess → Audience → Bool
meets access audience = access.admin || tier_meets (viewer_tier access) audience

-- A row limit: a number, or `Infinity`.
pub data Limit : Type 0 where
  at_most : ℕ → Limit
  infinity : Limit

abbrev pub limit_of : SectionLevel → ℕ → Limit
limit_of hidden n = at_most 0
limit_of preview n = at_most n
limit_of full n = infinity

abbrev pub tier_limit : SectionPolicy → ViewerTier → Limit
tier_limit p tier = limit_of (level_at p tier) p.preview_rows

unfoldable pub section_limit : GatePolicy → GatedSection → ViewerAccess → Limit
section_limit policy section access =
    if access.admin then infinity else tier_limit (policy.sections section) (viewer_tier access)

-- `gateLimit`
unfoldable pub gate_limit : GatedSection → ViewerAccess → GatePolicy → Limit
unfolding section_limit
gate_limit section access policy = section_limit policy section access

unfoldable pub partner_visible : ViewerAccess → Bool
partner_visible access = access.signed_in || access.unlocked

unfoldable pub section_partner_rows : GatePolicy → GatedSection → ViewerAccess → Bool
unfolding meets
section_partner_rows policy section access = meets access (policy.sections section).partner_audience

abbrev pub section_disabled : SectionPolicy → Bool
section_disabled p = all (λ t. is_hidden (level_at p t)) viewer_tiers

abbrev pub unlock_for : ViewerTier → UnlockBy
unlock_for ViewerTier.signed_in = sign_in
unlock_for _ = contribute

abbrev pub tiers_above : ViewerTier → List ViewerTier
tiers_above tier = keep (λ t. ltb (tier_rank tier) (tier_rank t)) viewer_tiers

abbrev pub unlock_of : Option ViewerTier → Option UnlockBy
unlock_of none = none
unlock_of (some tier) = some (unlock_for tier)

-- `partnerGain`: the partner's rows come with the tier `t`, and not with `tier`.
abbrev pub partner_gain : SectionPolicy → ViewerTier → ViewerTier → Bool
partner_gain p tier t =
    not (is_hidden (level_at p t))
    && tier_meets t p.partner_audience
    && not (tier_meets tier p.partner_audience)

abbrev pub gains : SectionPolicy → ViewerTier → ViewerTier → Bool
gains p tier t =
    ltb (level_rank (level_at p tier)) (level_rank (level_at p t)) || partner_gain p tier t

-- The view of a signed-out, signed-in or unlocked viewer, no admin.
unfoldable pub tier_view : SectionPolicy → ViewerTier → SectionView
tier_view p tier =
    if section_disabled p
    then record { disabled = true; unlock_by = none; admin_only = false }
    else record {
      disabled = false;
      unlock_by = unlock_of (find (gains p tier) (tiers_above tier));
      admin_only = false;
    }

unfoldable pub section_view : GatePolicy → GatedSection → ViewerAccess → SectionView
unfolding tier_view
section_view policy section access =
    if access.admin
    then record {
      disabled = false;
      unlock_by = none;
      admin_only = section_disabled (policy.sections section);
    }
    else tier_view (policy.sections section) (viewer_tier access)

abbrev pub same_entity : SectionEntity → SectionEntity → Bool
same_entity person person = true
same_entity (gated GatedEntity.company) (gated GatedEntity.company) = true
same_entity (gated GatedEntity.investor) (gated GatedEntity.investor) = true
same_entity (gated GatedEntity.fund) (gated GatedEntity.fund) = true
same_entity _ _ = false

views_of :
    GatePolicy
    → SectionEntity
    → ViewerAccess
    → List GatedSection
    → List (GatedSection × SectionView)
views_of policy entity access [] = []
views_of policy entity access (s ∷ more) =
    if same_entity (section_registry s).entity entity
    then (s, section_view policy s access) ∷ views_of policy entity access more
    else views_of policy entity access more

pub gate_view : GatePolicy → SectionEntity → ViewerAccess → List (GatedSection × SectionView)
unfolding views_of
gate_view policy entity access = views_of policy entity access gated_section_keys

-- `fieldPolicy`
abbrev pub field_policy : GatePolicy → GatedEntity → String → Option FieldPolicy
field_policy policy entity field = lookup field (policy.fields entity)

pub data FieldGate : Type 0 where
  show hide hide_partner : FieldGate

unfoldable pub field_gate : GatePolicy → GatedEntity → String → ViewerAccess → FieldGate
unfolding meets
field_gate policy entity field access = elim (field_policy policy entity field) [
  | none ↦ if meets access Audience.signed_in then show else hide_partner
  | some p ↦
      if not (meets access p.audience)
      then hide
      else if meets access p.partner_audience
      then show
      else hide_partner
]

-- `sees`
abbrev pub sees : FieldPolicy → Bool → ViewerTier → Bool
sees p partner_written tier =
    tier_meets tier p.audience && (not partner_written || tier_meets tier p.partner_audience)

abbrev pub first_above : (ViewerTier → Bool) → ViewerTier → Option UnlockBy
first_above test tier = if test tier then none else unlock_of (find test (tiers_above tier))

unfoldable pub field_unlock_by :
    GatePolicy → GatedEntity → String → ViewerAccess → Bool → Option UnlockBy
field_unlock_by policy entity field access partner_written =
    if access.admin
    then none
    else first_above
        (sees (or_else (field_policy policy entity field) default_field) partner_written)
        (viewer_tier access)

unfoldable pub section_partner_unlock_by :
    GatePolicy → GatedSection → ViewerAccess → Option UnlockBy
section_partner_unlock_by policy section access =
    if access.admin
    then none
    else first_above (λ t. tier_meets t (policy.sections section).partner_audience)
        (viewer_tier access)

abbrev pub is_contributors : Audience → Bool
is_contributors contributors = true
is_contributors _ = false

abbrev pub fields_need : GatePolicy → SectionEntity → Bool
fields_need policy person = false
fields_need policy (gated e) =
    any (λ f. is_contributors f.1.audience || is_contributors f.1.partner_audience)
      (policy.fields e)

-- `cardSection`
abbrev pub card_section : SectionEntity → Option GatedSection
card_section person = some GatedSection.person_roles
card_section (gated GatedEntity.investor) = some GatedSection.investor_portfolio
card_section _ = none

abbrev pub card_needs : GatePolicy → Option GatedSection → Bool
card_needs policy none = false
card_needs policy (some s) = is_contributors (policy.sections s).partner_audience

unfoldable pub needs_contribution_lookup : GatePolicy → SectionEntity → Bool
needs_contribution_lookup policy entity =
    fields_need policy entity || card_needs policy (card_section entity)

abbrev pub audience_at_least : Audience → Audience → Bool
audience_at_least a min = leb (audience_rank min) (audience_rank a)

-- What `crawlerView` says: how many rows a search engine sees, and whether only public ones.
pub data CrawlerRows : Type 0 where
  whole nothing : CrawlerRows
  first : ℕ → CrawlerRows

abbrev pub crawler_rows : SectionLevel → ℕ → CrawlerRows
crawler_rows full n = whole
crawler_rows preview n = first n
crawler_rows hidden n = nothing

abbrev pub is_everyone : Audience → Bool
is_everyone everyone = true
is_everyone _ = false

pub crawler_view : SectionPolicy → CrawlerRows × Bool
crawler_view p = (
  crawler_rows p.signed_out p.preview_rows,
  not (is_hidden p.signed_out) && not (is_everyone p.partner_audience),
)
