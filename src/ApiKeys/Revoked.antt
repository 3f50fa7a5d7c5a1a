-- ===== src/ApiKeys/Revoked.antt =====
-- A revoked key is not admitted any more: `revoke` and `revokeForRole` before `authenticate` in
-- apps/api/src/api-keys/api-keys.service.ts.
use capbase.Base.{
  ℕ, ◌≡◌, refl, true, false, ◌||◌, Option, none, some, is_some, Text, eq_text, ok, arith,
  Option-cases, inl, inr,
}
use capbase.Mfa.Policy.{unmet, same_role}
use capbase.Gate.Rows.{Role}
use capbase.ApiKeys.Addresses.{ip_allowed}
use capbase.ApiKeys.Store.{User, ApiKey, Database, find_key, find_user, scopes_for_role, includes}
use capbase.ApiKeys.Service.{Env, token_prefix}
use capbase.ApiKeys.Authenticate.{
  AuthenticatedKey, is_dead, admit, authenticate, principal, record_use,
}

-- What `authenticate` has checked when it admits a token, on the row and the owner that it found.
pub record Admitted (env : Env) (token ip : Text) (db : Database) (p : AuthenticatedKey)
    (key : ApiKey) (user : User) : Type 0 where
  pub found :
      (prefix : Text) × (token_prefix token ≡ some prefix) × (find_key prefix db.keys ≡ some key)
  pub owner : find_user key.user_id db.users ≡ some user
  pub same_hash :
      eq_text (env.crypto.from_hex key.hash) (env.crypto.from_hex (env.crypto.sha256 token)) ≡ true
  pub not_revoked : key.revoked_at ≡ none
  pub not_banned : user.banned_at ≡ none
  pub scope_permitted : includes (scopes_for_role user.role) key.scope ≡ true
  pub has_factor : unmet env.mfa_roles user.role (is_some user.mfa_enabled_at) ≡ false
  pub verified : same_role user.role Role.admin || is_some user.email_verified_at ≡ true
  pub address_allowed : ip_allowed env.net ip key.allowed_cidrs ≡ true
  pub named : p ≡ principal key user

is_some-none {ℓ} : {A : Type ℓ} (o : Option A) → is_some o ≡ false → o ≡ none
is_some-none none h = refl
is_some-none (some a) h = absurd (ground arith)

admit-inv :
    (env : Env) (token ip : Text) (now : ℕ) (key : ApiKey) (user : User) (db after : Database)
    (p : AuthenticatedKey)
    → admit env token ip now key user db ≡ ok (p, after)
    → (is_dead env.crypto token key user ≡ false)
      × (unmet env.mfa_roles user.role (is_some user.mfa_enabled_at) ≡ false)
      × (same_role user.role Role.admin || is_some user.email_verified_at ≡ true)
      × (ip_allowed env.net ip key.allowed_cidrs ≡ true)
      × (p ≡ principal key user)
      × (after ≡ record_use key now db)
unfolding admit
admit-inv env token ip now key user db after p h = ground arith

is_dead-false :
    (env : Env) (token : Text) (key : ApiKey) (user : User)
    → is_dead env.crypto token key user ≡ false
    → (eq_text (env.crypto.from_hex key.hash) (env.crypto.from_hex (env.crypto.sha256 token))
        ≡ true)
      × (key.revoked_at ≡ none)
      × (user.banned_at ≡ none)
      × (includes (scopes_for_role user.role) key.scope ≡ true)
unfolding is_dead
is_dead-false env token key user h = (
  ground arith,
  is_some-none key.revoked_at (ground arith),
  is_some-none user.banned_at (ground arith),
  ground arith,
)

-- Every answer of `authenticate` that is not an error has passed all the checks.
pub authenticate-Admitted :
    (env : Env) (token ip : Text) (now : ℕ) (db after : Database) (p : AuthenticatedKey)
    → authenticate env token ip now db ≡ ok (p, after)
    → (key : ApiKey) × (user : User) × Admitted env token ip db p key user
      × (after ≡ record_use key now db)
unfolding authenticate
authenticate-Admitted env token ip now db after p h = elim (Option-cases (token_prefix token)) [
  | inl e ↦ absurd (ground arith)
  | inr (prefix, e) ↦ elim (Option-cases (find_key prefix db.keys)) [
    | inl k ↦ absurd (ground arith)
    | inr (key, k) ↦ elim (Option-cases (find_user key.user_id db.users)) [
      | inl u ↦ absurd (ground arith)
      | inr (user, u) ↦
          let h' : admit env token ip now key user db ≡ ok (p, after) = ground arith in
          let (d, f, v, a, n, r) = admit-inv env token ip now key user db after p h' in
          let (s, l, b, c) = is_dead-false env token key user d in
          (
            key,
            user,
            record {
              found = (prefix, e, k);
              owner = u;
              same_hash = s;
              not_revoked = l;
              not_banned = b;
              scope_permitted = c;
              has_factor = f;
              verified = v;
              address_allowed = a;
              named = n;
            },
            r,
          )
    ]
  ]
]
