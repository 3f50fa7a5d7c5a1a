-- ===== src/Visibility/Types.antt =====
-- The vocabulary of the gate's policy: tiers, levels, audiences, the gated sections and the
-- shapes of a section's and a field's policy (packages/api/src/domain/visibility.ts), and the
-- access of a viewer (packages/api/src/domain/contributions.ts).
use capbase.Base.{ℕ, String, Bool, true, false, Option, List, [], ◌∷◌}

pub data ViewerTier : Type 0 where
  signed_out signed_in unlocked : ViewerTier

pub data SectionLevel : Type 0 where
  hidden preview full : SectionLevel

pub data Audience : Type 0 where
  everyone signed_in contributors : Audience

pub data UnlockBy : Type 0 where
  sign_in contribute : UnlockBy

pub data GatedEntity : Type 0 where
  company investor fund : GatedEntity

-- `GatedEntity | 'person'`
pub data SectionEntity : Type 0 where
  gated : GatedEntity → SectionEntity
  person : SectionEntity

pub data Kind : Type 0 where
  rows block : Kind

pub record SectionPolicy : Type 0 where
  pub signed_out : SectionLevel
  pub signed_in : SectionLevel
  pub unlocked : SectionLevel
  pub preview_rows : ℕ
  pub partner_audience : Audience

pub record FieldPolicy : Type 0 where
  pub audience : Audience
  pub partner_audience : Audience

pub data GatedSection : Type 0 where
  company_rounds company_diversity company_acquisitions company_exits company_investors :
      GatedSection
  company_people company_technologies company_apps investor_portfolio investor_people : GatedSection
  investor_funds investor_commitments investor_focus fund_commitments fund_metrics : GatedSection
  fund_terms fund_mandate person_roles : GatedSection

unfoldable pub GatedSection-discrete : Discrete GatedSection
GatedSection-discrete = hlevel

-- `sections` and `fields` are objects: the first has every section, so it is a function; the
-- fields of an entity are a table in registration order.
pub record GatePolicy : Type 0 where
  pub sections : GatedSection → SectionPolicy
  pub fields : GatedEntity → List (String × FieldPolicy)
  pub contribution_window_days : ℕ

pub record SectionView : Type 0 where
  pub disabled : Bool
  pub unlock_by : Option UnlockBy
  pub admin_only : Bool

-- `unlockedUntil` is only shown: no code here reads it.
pub record ViewerAccess : Type 0 where
  pub unlocked : Bool
  pub signed_in : Bool
  pub admin : Bool
  pub window_days : ℕ

abbrev pub default_preview_rows : ℕ
default_preview_rows = 2

abbrev pub default_contribution_window_days : ℕ
default_contribution_window_days = 30

abbrev pub preview_rows_max : ℕ
preview_rows_max = 25

abbrev pub contribution_window_max_days : ℕ
contribution_window_max_days = 365

abbrev pub level_rank : SectionLevel → ℕ
level_rank hidden = 0
level_rank preview = 1
level_rank full = 2

abbrev pub audience_rank : Audience → ℕ
audience_rank everyone = 0
audience_rank Audience.signed_in = 1
audience_rank contributors = 2

abbrev pub tier_rank : ViewerTier → ℕ
tier_rank ViewerTier.signed_out = 0
tier_rank ViewerTier.signed_in = 1
tier_rank ViewerTier.unlocked = 2

-- `p[tier]`
abbrev pub level_at : SectionPolicy → ViewerTier → SectionLevel
level_at p ViewerTier.signed_out = p.signed_out
level_at p ViewerTier.signed_in = p.signed_in
level_at p ViewerTier.unlocked = p.unlocked

abbrev pub is_hidden : SectionLevel → Bool
is_hidden hidden = true
is_hidden _ = false

abbrev pub is_preview : SectionLevel → Bool
is_preview preview = true
is_preview _ = false

abbrev pub viewer_tiers : List ViewerTier
viewer_tiers = ViewerTier.signed_out ∷ ViewerTier.signed_in ∷ ViewerTier.unlocked ∷ []
