-- ===== src/ApiKeys/Authenticate.antt =====
-- `authenticate` and `authenticateRequest` of apps/api/src/api-keys/api-keys.service.ts.
use text.Mathlib.Text.{◌==◌}
use capbase.Base.{
  ℕ, ◌+◌, String, Bool, true, not, ◌&&◌, ◌||◌, Option, none, some, is_some, or_else, List, [], ◌∷◌,
  if◌then◌else◌, Text, length, ltb, leb, eq_text, Result, ok, err, ◌>>◌, fail_if,
}
use capbase.Base.{◌==◌ as eq_ℕ}
use capbase.Gate.Rows.{Role}
use capbase.Mfa.Policy.{same_role, unmet}
use capbase.ApiKeys.Addresses.{ip_allowed, normalize_ip}
use capbase.ApiKeys.Store.{
  ApiKeyScope, scopes_for_role, includes, User, ApiKey, Database, find_key, find_user,
}
use capbase.ApiKeys.Service.{
  KeyError, email_unverified, invalid_key, mfa_required, address_refused, Env, Crypto, token_prefix,
  bearer_api_key, last_used_debounce_ms,
}

-- The principal that a key resolves to.
pub record AuthenticatedKey : Type 0 where
  pub user_id : String
  pub email : Text
  pub role : Role
  pub email_verified : Bool
  pub key_id : String
  pub scope : ApiKeyScope
  pub prefix : Text

-- The one condition of the five ways in which a key that was found is dead.
unfoldable pub is_dead : Crypto → Text → ApiKey → User → Bool
is_dead crypto token key user =
    let expected = crypto.from_hex key.hash in
    let actual = crypto.from_hex (crypto.sha256 token) in
    not (eq_ℕ (length expected) (length actual))
    || not (eq_text expected actual)
    || is_some key.revoked_at
    || is_some user.banned_at
    || not (includes (scopes_for_role user.role) key.scope)

-- The condition in memory, then the one of the write.
abbrev pub use_is_due : Option ℕ → ℕ → Bool
use_is_due none now = true
use_is_due (some last) now = leb (last + last_used_debounce_ms) now

abbrev pub use_is_old : Option ℕ → ℕ → Bool
use_is_old none now = true
use_is_old (some last) now = ltb (last + last_used_debounce_ms) now

unfoldable pub mark_used : String → ℕ → List ApiKey → List ApiKey
mark_used id now [] = []
mark_used id now (key ∷ keys) =
    (if key.id == id && use_is_old key.last_used_at now
      then record key { last_used_at = some now }
      else key)
    ∷ mark_used id now keys

unfoldable pub record_use : ApiKey → ℕ → Database → Database
record_use key now db =
    if use_is_due key.last_used_at now
    then record db { keys = mark_used key.id now db.keys }
    else db

unfoldable pub principal : ApiKey → User → AuthenticatedKey
principal key user = record {
  user_id = user.id;
  email = user.email;
  role = user.role;
  email_verified = is_some user.email_verified_at;
  key_id = key.id;
  scope = key.scope;
  prefix = key.prefix;
}

-- The checks on the row that was found.
unfoldable pub admit :
    Env → Text → Text → ℕ → ApiKey → User → Database → Result KeyError (AuthenticatedKey × Database)
admit env token ip now key user db = do
  fail_if (is_dead env.crypto token key user) invalid_key
  fail_if (unmet env.mfa_roles user.role (is_some user.mfa_enabled_at)) mfa_required
  fail_if (not (same_role user.role Role.admin) && not (is_some user.email_verified_at))
      email_unverified
  fail_if (not (ip_allowed env.net ip key.allowed_cidrs)) (address_refused (normalize_ip ip))
  ok (principal key user, record_use key now db)

-- The row of a prefix and its owner.
abbrev pub key_with_owner : Text → Database → Option (ApiKey × User)
key_with_owner prefix db = elim (find_key prefix db.keys) [
  | none ↦ none
  | some key ↦ elim (find_user key.user_id db.users) [ none ↦ none | some user ↦ some (key, user) ]
]

unfoldable pub authenticate :
    Env → Text → Text → ℕ → Database → Result KeyError (AuthenticatedKey × Database)
authenticate env token ip now db = elim (token_prefix token) [
  | none ↦ err invalid_key
  | some prefix ↦ elim (key_with_owner prefix db) [
    | none ↦ err invalid_key
    | some row ↦ admit env token ip now row.0 row.1 db
  ]
]

-- One request: its header, its `ip` and the address of its socket, of which the memo keeps the answer.
unfoldable pub authenticate_request :
    Env
    → Option Text
    → Option Text
    → Option Text
    → ℕ
    → Database
    → Result KeyError (AuthenticatedKey × Database)
authenticate_request env header ip remote now db =
    authenticate env (or_else (bearer_api_key header) []) (or_else ip (or_else remote [])) now db
