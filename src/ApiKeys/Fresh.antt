-- ===== src/ApiKeys/Fresh.antt =====
-- A key that `create` returned is admitted by `authenticate`:
-- apps/api/src/api-keys/api-keys.service.ts.
use capbase.Base.{
  ℕ, ◌≡◌, refl, ◌∙◌, true, false, not, ◌&&◌, none, some, is_some, List, [], ◌∷◌, ◌++◌, map, Text,
  length, all, ltb, eq_text_refl, ok, arith, Result-cases, inl, inr,
}
use capbase.Base.{◌==◌ as eq_ℕ}
use capbase.Mfa.Policy.{unmet, same_role}
use capbase.Gate.Rows.{Role}
use capbase.ApiKeys.Addresses.{ip_allowed}
use capbase.ApiKeys.Store.{
  User, ApiKey, Database, find_key, find_user, scopes_for_role, includes, max_active_api_keys,
  active_count,
}
use capbase.ApiKeys.Service.{
  Crypto, Env, Owner, CreateApiKeyInput, Draw, is_alphanumeric, is_base64url, api_key_prefix,
  base62, after_start, id_and_secret, token_prefix, mint_token, new_row, create_key,
  canonical_cidrs, distinct_texts, trimmed_entries,
}
use capbase.ApiKeys.Authenticate.{is_dead, admit, authenticate, principal, record_use}

base62-is_alphanumeric : (b : ℕ) → is_alphanumeric (base62 b) ≡ true
unfolding base62
base62-is_alphanumeric b = ground arith

all-map-base62 : (ids : List ℕ) → all is_alphanumeric (map base62 ids) ≡ true
all-map-base62 [] = refl
all-map-base62 (b ∷ ids) = rw (base62-is_alphanumeric b) (all-map-base62 ids)

eq_ℕ_refl : (n : ℕ) → eq_ℕ n n ≡ true
eq_ℕ_refl n = ground arith

-- What Node's generator and encoder give for a key: eight bytes, and 43 characters for 32 bytes.
abbrev pub DrawIsSound : Crypto → Draw → Type 0
DrawIsSound crypto draw =
    (length draw.public_id ≡ 8)
    × (length (crypto.base64url draw.secret) ≡ 43)
    × (all is_base64url (crypto.base64url draw.secret) ≡ true)

id_and_secret-base62 :
    (ids secret : Text)
    → length ids ≡ 8
    → length secret ≡ 43
    → all is_base64url secret ≡ true
    → id_and_secret (map base62 ids ++ b'_' ∷ secret) ≡ some (api_key_prefix ++ map base62 ids)
unfolding id_and_secret
id_and_secret-base62 (a ∷ b ∷ c ∷ d ∷ e ∷ f ∷ g ∷ h ∷ []) secret l m n =
    let letters : all is_alphanumeric (map base62 (a ∷ b ∷ c ∷ d ∷ e ∷ f ∷ g ∷ h ∷ [])) ≡ true =
      all-map-base62 (a ∷ b ∷ c ∷ d ∷ e ∷ f ∷ g ∷ h ∷ []) in
    rw (letters, m, n) refl
id_and_secret-base62 _ secret l m n = absurd (ground arith)

token_prefix-mint_token :
    (crypto : Crypto) (draw : Draw)
    → DrawIsSound crypto draw
    → token_prefix (mint_token crypto draw).token ≡ some (mint_token crypto draw).prefix
unfolding token_prefix mint_token after_start
token_prefix-mint_token crypto draw s =
    id_and_secret-base62 draw.public_id (crypto.base64url draw.secret) s.0 s.1 s.2

-- What held when `create` returned, and what it returned.
pub create_key-inv :
    (env : Env) (owner : Owner) (input : CreateApiKeyInput) (draw : Draw) (db : Database)
    (token : Text) (after : Database)
    → create_key env owner input draw db ≡ ok (token, after)
    → (includes (scopes_for_role owner.role) input.scope ≡ true)
      × (not (same_role owner.role Role.admin) && not owner.email_verified ≡ false)
      × (ltb (active_count owner.id db.keys) max_active_api_keys ≡ true)
      × (token ≡ (mint_token env.crypto draw).token)
      × (cidrs : List Text) × (canonical_cidrs env.net (trimmed_entries input.allowed_cidrs)
          ≡ ok cidrs)
      × (after ≡ record db { keys = new_row env owner input cidrs draw ∷ db.keys })
unfolding create_key
create_key-inv env owner input draw db token after h =
    elim (Result-cases (canonical_cidrs env.net (trimmed_entries input.allowed_cidrs))) [
      | inl (cidrs, e) ↦
          (ground arith, ground arith, ground arith, ground arith, cidrs, e, ground arith)
      | inr (f, e) ↦ absurd (ground arith)
    ]

-- The row of the owner as `create` and `authenticate` both read it.
pub record Allowed (env : Env) (owner : Owner) (user : User) : Type 0 where
  pub same_role : user.role ≡ owner.role
  pub same_verified : is_some user.email_verified_at ≡ owner.email_verified
  pub not_banned : user.banned_at ≡ none
  pub has_factor : unmet env.mfa_roles user.role (is_some user.mfa_enabled_at) ≡ false

admit-new_row :
    (env : Env) (owner : Owner) (input : CreateApiKeyInput) (cidrs : List Text) (draw : Draw)
    (user : User) (db : Database) (ip : Text) (now : ℕ)
    → Allowed env owner user
    → includes (scopes_for_role owner.role) input.scope ≡ true
    → not (same_role owner.role Role.admin) && not owner.email_verified ≡ false
    → ip_allowed env.net ip (new_row env owner input cidrs draw).allowed_cidrs ≡ true
    → let key = new_row env owner input cidrs draw in
      admit env (mint_token env.crypto draw).token ip now key user db
      ≡ ok (principal key user, record_use key now db)
unfolding admit is_dead new_row mint_token distinct_texts
admit-new_row env owner input cidrs draw user db ip now a i v p =
    let hash = env.crypto.from_hex (env.crypto.sha256 (mint_token env.crypto draw).token) in
    let factor : unmet env.mfa_roles owner.role (is_some user.mfa_enabled_at) ≡ false =
      rw (← a.same_role) a.has_factor in
    let alive : is_dead env.crypto (mint_token env.crypto draw).token
          (new_row env owner input cidrs draw) user
        ≡ false =
      rw (eq_ℕ_refl (length hash), eq_text_refl hash, a.not_banned, a.same_role, i) refl in
    rw (alive, a.same_role, factor, a.same_verified, v, p) refl

find_key-head : (key : ApiKey) (keys : List ApiKey) → find_key key.prefix (key ∷ keys) ≡ some key
unfolding find_key
find_key-head key keys = rw (eq_text_refl key.prefix) refl

authenticate-found :
    (env : Env) (token prefix ip : Text) (now : ℕ) (db : Database) (key : ApiKey) (user : User)
    → token_prefix token ≡ some prefix
    → find_key prefix db.keys ≡ some key
    → find_user key.user_id db.users ≡ some user
    → authenticate env token ip now db ≡ admit env token ip now key user db
unfolding authenticate
authenticate-found env token prefix ip now db key user t k u = rw (t, k, u, authenticate) refl

-- With the bytes and the characters that Node gives, and an owner whose row is as the session said, not
-- banned and with the factor that the role needs, the token that `create` returns is admitted at
-- once from every address that the new key allows, as that key and its owner, by the database that
-- `create` left.
pub create_key-authenticate :
    (env : Env) (owner : Owner) (input : CreateApiKeyInput) (draw : Draw) (db : Database)
    (user : User) (token : Text) (after : Database) (ip : Text) (now : ℕ)
    → create_key env owner input draw db ≡ ok (token, after)
    → DrawIsSound env.crypto draw
    → find_user owner.id db.users ≡ some user
    → Allowed env owner user
    → (key : ApiKey) × (find_key (mint_token env.crypto draw).prefix after.keys ≡ some key)
      × (key.user_id ≡ owner.id)
      × (key.scope ≡ input.scope)
      × (ip_allowed env.net ip key.allowed_cidrs ≡ true
          → authenticate env token ip now after ≡ ok (principal key user, record_use key now after))
unfolding new_row
create_key-authenticate env owner input draw db user token after ip now h s f a =
    let (i, v, _, t, cidrs, _, e) = create_key-inv env owner input draw db token after h in
    let key = new_row env owner input cidrs draw in
    let full : Database = record db { keys = key ∷ db.keys } in
    let found = find_key-head key db.keys in
    rw (e, t)
      (
        key,
        found,
        refl,
        refl,
        λ p.
            authenticate-found env (mint_token env.crypto draw).token key.prefix ip now full key
              user (token_prefix-mint_token env.crypto draw s) found f
            ∙ admit-new_row env owner input cidrs draw user full ip now a i v p,
      )
