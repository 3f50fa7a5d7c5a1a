-- ===== src/ApiKeys/Service.antt =====
-- `bearerApiKey`, `TOKEN_PATTERN` and the methods of `ApiKeysService`:
-- apps/api/src/api-keys/api-keys.service.ts. A method takes the database and returns it with its
-- result, or the error that it throws; the clock and the random bytes of a call are arguments. A row with
-- its owner is one query, since the foreign key gives every key its owner.
use text.Mathlib.Text.{◌==◌}
use capbase.Base.{
  ℕ, ◌+◌, ◌-◌, ◌%◌, String, Bool, true, false, not, ◌&&◌, ◌||◌, Option, none, some, is_some, List,
  [], ◌∷◌, ◌++◌, map, if◌then◌else◌, Text, length, all, ltb, leb, is_digit, is_upper, is_lower,
  has_text, trim, Result, ok, err, ◌>>=◌, ◌>>◌, fail_if,
}
use capbase.Base.{◌==◌ as eq_ℕ}
use capbase.Gate.Rows.{Role}
use capbase.Mfa.Policy.{same_role}
use capbase.ApiKeys.Addresses.{Net, parse_cidr, cidr_text}
use capbase.ApiKeys.Store.{
  ApiKeyScope, api_key_scopes, max_active_api_keys, scopes_for_role, includes, ApiKey, Database,
  active_of, active_count, revoke_where, count_where, find_key, find_user,
}

abbrev pub api_key_prefix : Text
api_key_prefix = b'c' ∷ b'b' ∷ b'k' ∷ b'_' ∷ []

-- The first `public_id_length` characters after `cbk_`, then `_` and 43 more.
abbrev pub public_id_length : ℕ
public_id_length = 8

abbrev pub last_used_debounce_ms : ℕ
last_used_debounce_ms = 60000

-- What the method throws.
pub data KeyError : Type 0 where
  api_access_not_granted admin_scope email_unverified too_many_keys key_not_found invalid_key
        mfa_required :
      KeyError
  invalid_cidr address_refused : Text → KeyError
  unique_violation foreign_key_violation : KeyError

-- `createHash('sha256')`, `Buffer.from(s, 'hex')` and `toString('base64url')` of Node.
pub record Crypto : Type 0 where
  pub sha256 : Text → Text
  pub from_hex : Text → List ℕ
  pub base64url : List ℕ → Text

-- The libraries, and the roles of the policy that need a second factor.
pub record Env : Type 0 where
  pub net : Net
  pub crypto : Crypto
  pub mfa_roles : List Role

abbrev pub is_alphanumeric : ℕ → Bool
is_alphanumeric c = is_upper c || is_lower c || is_digit c

abbrev pub is_base64url : ℕ → Bool
is_base64url c = is_alphanumeric c || eq_ℕ c b'_' || eq_ℕ c b'-'

-- `s.startsWith(p)`, with what follows.
unfoldable pub after_start : Text → Text → Option Text
after_start [] s = some s
after_start (c ∷ p) [] = none
after_start (c ∷ p) (d ∷ s) = if eq_ℕ c d then after_start p s else none

-- `^(cbk_[A-Za-z0-9]{8})_[A-Za-z0-9_-]{43}$`, with what it captures.
unfoldable pub id_and_secret : Text → Option Text
id_and_secret (a ∷ b ∷ c ∷ d ∷ e ∷ f ∷ g ∷ h ∷ separator ∷ secret) =
    let id = a ∷ b ∷ c ∷ d ∷ e ∷ f ∷ g ∷ h ∷ [] in
    if all is_alphanumeric id
      && eq_ℕ separator b'_'
      && eq_ℕ (length secret) 43
      && all is_base64url secret
    then some (api_key_prefix ++ id)
    else none
id_and_secret _ = none

unfoldable pub token_prefix : Text → Option Text
token_prefix token = elim (after_start api_key_prefix token) [
  | none ↦ none
  | some rest ↦ id_and_secret rest
]

-- The `Authorization` header of a request, when it is a text.
unfoldable pub bearer_api_key : Option Text → Option Text
bearer_api_key none = none
bearer_api_key (some header) =
    elim (after_start (b'B' ∷ b'e' ∷ b'a' ∷ b'r' ∷ b'e' ∷ b'r' ∷ b' ' ∷ []) header) [
      | none ↦ none
      | some rest ↦
          if is_some (after_start api_key_prefix (trim rest)) then some (trim rest) else none
    ]

-- `BASE62[b % 62]`
unfoldable pub base62 : ℕ → ℕ
base62 b =
    let n = b % 62 in
    if ltb n 26 then b'A' + n else if ltb n 52 then b'a' + (n - 26) else b'0' + (n - 52)

-- What one call of `create` draws: the random bytes, the id of the row and the time.
pub record Draw : Type 0 where
  pub public_id : List ℕ
  pub secret : List ℕ
  pub row_id : String
  pub now : ℕ

pub record Minted : Type 0 where
  pub prefix : Text
  pub token : Text
  pub hash : Text

unfoldable pub mint_token : Crypto → Draw → Minted
mint_token crypto draw =
    let prefix = api_key_prefix ++ map base62 draw.public_id in
    let token = prefix ++ b'_' ∷ crypto.base64url draw.secret in
    record { prefix = prefix; token = token; hash = crypto.sha256 token }

-- `.map((c) => c.trim()).filter((c) => c.length > 0)`
unfoldable pub trimmed_entries : List Text → List Text
trimmed_entries [] = []
trimmed_entries (c ∷ cidrs) =
    let rest = trimmed_entries cidrs in if leb 1 (length (trim c)) then trim c ∷ rest else rest

unfoldable pub canonical_cidrs : Net → List Text → Result KeyError (List Text)
canonical_cidrs net [] = ok []
canonical_cidrs net (c ∷ cidrs) = elim (parse_cidr net c) [
  | none ↦ err (invalid_cidr c)
  | some parsed ↦ canonical_cidrs net cidrs >>= λ rest. ok (cidr_text parsed ∷ rest)
]

-- `[...new Set(xs)]`, with the texts that were seen.
unfoldable pub distinct_texts : List Text → List Text → List Text
distinct_texts seen [] = []
distinct_texts seen (s ∷ texts) =
    let skip = distinct_texts seen texts in
    let fresh = distinct_texts (s ∷ seen) texts in if has_text s seen then skip else s ∷ fresh

pub record Owner : Type 0 where
  pub id : String
  pub role : Role
  pub email_verified : Bool

pub record CreateApiKeyInput : Type 0 where
  pub name : Text
  pub scope : ApiKeyScope
  pub allowed_cidrs : List Text

unfoldable pub new_row : Env → Owner → CreateApiKeyInput → List Text → Draw → ApiKey
new_row env owner input cidrs draw =
    let minted = mint_token env.crypto draw in
    record {
      id = draw.row_id;
      user_id = owner.id;
      name = trim input.name;
      scope = input.scope;
      prefix = minted.prefix;
      hash = minted.hash;
      allowed_cidrs = distinct_texts [] cidrs;
      last_used_at = none;
      revoked_at = none;
      created_at = draw.now;
    }

-- The row that `create` adds, with the token that it returns.
unfoldable pub create_key :
    Env → Owner → CreateApiKeyInput → Draw → Database → Result KeyError (Text × Database)
create_key env owner input draw db = do
  fail_if (same_role owner.role Role.user) api_access_not_granted
  fail_if (not (includes (scopes_for_role owner.role) input.scope)) admin_scope
  fail_if (not (same_role owner.role Role.admin) && not owner.email_verified) email_unverified
  cidrs ← canonical_cidrs env.net (trimmed_entries input.allowed_cidrs)
  fail_if (leb max_active_api_keys (active_count owner.id db.keys)) too_many_keys
  fail_if (is_some (find_key (mint_token env.crypto draw).prefix db.keys)) unique_violation
  fail_if (not (is_some (find_user owner.id db.users))) foreign_key_violation
  ok (
    (mint_token env.crypto draw).token,
    record db { keys = new_row env owner input cidrs draw ∷ db.keys },
  )

-- The rows that `revoke` writes.
abbrev pub revocable : String → String → ApiKey → Bool
revocable user_id id key = key.id == id && active_of user_id key

unfoldable pub revoke : String → String → ℕ → Database → Result KeyError Database
revoke user_id id now db = do
  fail_if (eq_ℕ (count_where (revocable user_id id) db.keys) 0) key_not_found
  ok (record db { keys = revoke_where (revocable user_id id) now db.keys })

-- The rows that `revokeForRole` writes: active ones of a scope that is not kept.
abbrev pub not_kept : String → List ApiKeyScope → ApiKey → Bool
not_kept user_id kept key = active_of user_id key && not (includes kept key.scope)

unfoldable pub kept_scopes : Role → Bool → List ApiKeyScope
kept_scopes role true = []
kept_scopes role false = scopes_for_role role

unfoldable pub revoke_for_role : String → Role → Bool → ℕ → Database → Database
revoke_for_role user_id role banned now db =
    let kept = kept_scopes role banned in
    if eq_ℕ (length kept) (length api_key_scopes)
    then db
    else record db { keys = revoke_where (not_kept user_id kept) now db.keys }
