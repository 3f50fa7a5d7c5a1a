-- ===== src/ApiKeys/Store.antt =====
-- The rows that apps/api/src/api-keys/api-keys.service.ts reads and writes, the scopes and limits of
-- packages/api/src/domain/api-keys.ts, and the queries on the table of keys. A time is a number of
-- milliseconds.
use text.Mathlib.Text.{◌==◌}
use capbase.Base.{
  ℕ, suc, String, Bool, true, false, not, ◌&&◌, ◌||◌, Option, none, some, is_some, List, [], ◌∷◌,
  if◌then◌else◌, Text, eq_text,
}
use capbase.Gate.Rows.{Role}

pub data ApiKeyScope : Type 0 where
  contributor admin : ApiKeyScope

abbrev pub api_key_scopes : List ApiKeyScope
api_key_scopes = ApiKeyScope.contributor ∷ ApiKeyScope.admin ∷ []

abbrev pub max_active_api_keys : ℕ
max_active_api_keys = 5

unfoldable pub scopes_for_role : Role → List ApiKeyScope
scopes_for_role Role.admin = api_key_scopes
scopes_for_role Role.contributor = ApiKeyScope.contributor ∷ []
scopes_for_role Role.user = []

abbrev pub same_scope : ApiKeyScope → ApiKeyScope → Bool
same_scope ApiKeyScope.contributor ApiKeyScope.contributor = true
same_scope ApiKeyScope.admin ApiKeyScope.admin = true
same_scope _ _ = false

-- `scopes.includes(scope)`
unfoldable pub includes : List ApiKeyScope → ApiKeyScope → Bool
includes [] scope = false
includes (s ∷ scopes) scope = same_scope s scope || includes scopes scope

pub record User : Type 0 where
  pub id : String
  pub email : Text
  pub role : Role
  pub banned_at : Option ℕ
  pub email_verified_at : Option ℕ
  pub mfa_enabled_at : Option ℕ

pub record ApiKey : Type 0 where
  pub id : String
  pub user_id : String
  pub name : Text
  pub scope : ApiKeyScope
  pub prefix : Text
  pub hash : Text
  pub allowed_cidrs : List Text
  pub last_used_at : Option ℕ
  pub revoked_at : Option ℕ
  pub created_at : ℕ

pub record Database : Type 0 where
  pub users : List User
  pub keys : List ApiKey

-- `where: { userId, revokedAt: null }`
abbrev pub active_of : String → ApiKey → Bool
active_of user_id key = key.user_id == user_id && not (is_some key.revoked_at)

unfoldable pub active_count : String → List ApiKey → ℕ
active_count user_id [] = 0
active_count user_id (key ∷ keys) =
    let rest = active_count user_id keys in if active_of user_id key then suc rest else rest

-- `updateMany({ where: { …, revokedAt: null }, data: { revokedAt } })`, with the number of rows written.
unfoldable pub revoke_where : (ApiKey → Bool) → ℕ → List ApiKey → List ApiKey
revoke_where test now [] = []
revoke_where test now (key ∷ keys) =
    (if test key then record key { revoked_at = some now } else key) ∷ revoke_where test now keys

unfoldable pub count_where : (ApiKey → Bool) → List ApiKey → ℕ
count_where test [] = 0
count_where test (key ∷ keys) =
    let rest = count_where test keys in if test key then suc rest else rest

unfoldable pub find_key : Text → List ApiKey → Option ApiKey
find_key prefix [] = none
find_key prefix (key ∷ keys) = if eq_text key.prefix prefix then some key else find_key prefix keys

unfoldable pub find_user : String → List User → Option User
find_user id [] = none
find_user id (user ∷ users) = if user.id == id then some user else find_user id users
