-- ===== src/Mfa/Recovery.antt =====
-- `normalizeRecoveryCode` of apps/api/src/auth/mfa/recovery-codes.ts, and who may see a company's
-- history, of packages/api/src/domain/auth.ts.
use capbase.Base.{
  Bool, true, false, not, ◌||◌, ◌==◌, Option, none, some, Text, CaseTables, to_lower, keep,
  is_space,
}
use capbase.Gate.Rows.{Role, user, contributor, admin}

unfoldable pub normalize_recovery_code : CaseTables → Text → Text
normalize_recovery_code tables input =
    keep (λ c. not (is_space c || c == b'-')) (to_lower tables input)

unfoldable pub can_view_company_history : Option Role → Bool
can_view_company_history none = false
can_view_company_history (some user) = false
can_view_company_history (some contributor) = true
can_view_company_history (some admin) = true
