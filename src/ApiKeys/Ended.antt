-- ===== src/ApiKeys/Ended.antt =====
-- A revoked key is not admitted any more: `revoke` and `revokeForRole` before `authenticate` in
-- apps/api/src/api-keys/api-keys.service.ts.
use text.Mathlib.Text.{◌==◌}
use text.Mathlib.TextEquality.{eq_iff}
use capbase.Base.{
  ℕ, String, ◌≡◌, refl, ap, Bool, true, false, ◌&&◌, none, some, List, [], ◌∷◌, Text, length, ok,
  arith, Bool-cases, inl, inr,
}
use capbase.Base.{◌==◌ as eq_ℕ}
use capbase.Gate.Rows.{Role}
use capbase.ApiKeys.Store.{
  ApiKeyScope, api_key_scopes, User, ApiKey, Database, find_key, find_user, scopes_for_role,
  includes, revoke_where,
}
use capbase.ApiKeys.Service.{Env, revoke, revoke_for_role, revocable, not_kept, kept_scopes}
use capbase.ApiKeys.Authenticate.{AuthenticatedKey, authenticate, principal}
use capbase.ApiKeys.Revoked.{authenticate-Admitted}

-- A row that a revocation leaves active is none that it was to revoke.
find_key-revoke_where :
    (test : ApiKey → Bool) (now : ℕ) (prefix : Text) (keys : List ApiKey) (key : ApiKey)
    → find_key prefix (revoke_where test now keys) ≡ some key
    → key.revoked_at ≡ none
    → test key ≡ false
unfolding find_key revoke_where
find_key-revoke_where test now prefix [] key h r = absurd (ground arith)
find_key-revoke_where test now prefix (k ∷ keys) key h r =
    ground (arith, find_key-revoke_where test now prefix keys key)

find_user-id :
    (id : String) (users : List User) (user : User)
    → find_user id users ≡ some user
    → (user.id == id) ≡ true
unfolding find_user
find_user-id id [] user h = absurd (ground arith)
find_user-id id (u ∷ users) user h = ground (arith, find_user-id id users user)

-- The row behind an answer, where the rows are those that a revocation left.
admitted_after :
    (env : Env) (test : ApiKey → Bool) (at : ℕ) (keys : List ApiKey) (db : Database)
    (token ip : Text) (now : ℕ) (p : AuthenticatedKey) (after : Database)
    → db.keys ≡ revoke_where test at keys
    → authenticate env token ip now db ≡ ok (p, after)
    → (key : ApiKey) × (test key ≡ false)
      × (key.revoked_at ≡ none)
      × (key.id ≡ p.key_id)
      × (key.scope ≡ p.scope)
      × (p.user_id == key.user_id ≡ true)
unfolding principal
admitted_after env test at keys db token ip now p after e a =
    let (key, user, admitted, _) = authenticate-Admitted env token ip now db after p a in
    let (prefix, _, found) = admitted.found in
    let found' : find_key prefix (revoke_where test at keys) ≡ some key = rw (← e) found in
    let left = find_key-revoke_where test at prefix keys key found' admitted.not_revoked in
    let owner = find_user-id key.user_id db.users user admitted.owner in
    (
      key,
      left,
      admitted.not_revoked,
      rw admitted.named refl,
      rw admitted.named refl,
      rw admitted.named owner,
    )

pub revoke-inv :
    (user_id id : String) (now : ℕ) (db after : Database)
    → revoke user_id id now db ≡ ok after
    → after ≡ record db { keys = revoke_where (revocable user_id id) now db.keys }
unfolding revoke
revoke-inv user_id id now db after h = ground arith

-- After the owner revoked a key, nothing is admitted as that key of that owner.
pub revoke-authenticate :
    (env : Env) (user_id id : String) (at : ℕ) (db revoked : Database) (token ip : Text) (now : ℕ)
    (p : AuthenticatedKey) (after : Database)
    → revoke user_id id at db ≡ ok revoked
    → authenticate env token ip now revoked ≡ ok (p, after)
    → p.user_id == user_id && p.key_id == id ≡ false
revoke-authenticate env user_id id at db revoked token ip now p after h a =
    let e : revoked.keys ≡ revoke_where (revocable user_id id) at db.keys =
      ap (λ d. d.keys) (revoke-inv user_id id at db revoked h) in
    let (key, left, active, same_id, _, owner) =
      admitted_after env (revocable user_id id) at db.keys revoked token ip now p after e a in
    ground (
      arith,
      eq_iff p.user_id key.user_id,
      eq_iff p.user_id user_id,
      eq_iff key.user_id user_id,
      eq_iff p.key_id id,
      eq_iff key.id id,
    )

all_scopes :
    (role : Role) (banned : Bool) (scope : ApiKeyScope)
    → eq_ℕ (length (kept_scopes role banned)) (length api_key_scopes) ≡ true
    → includes (kept_scopes role banned) scope ≡ true
unfolding kept_scopes scopes_for_role includes
all_scopes Role.admin false ApiKeyScope.admin h = refl
all_scopes Role.admin false ApiKeyScope.contributor h = refl
all_scopes _ _ _ h = absurd (ground arith)

revoke_for_role-kept :
    (env : Env) (user_id : String) (role : Role) (banned : Bool) (at : ℕ) (db : Database)
    (token ip : Text) (now : ℕ) (p : AuthenticatedKey) (after : Database)
    → authenticate env token ip now (revoke_for_role user_id role banned at db) ≡ ok (p, after)
    → (p.user_id == user_id) ≡ true
    → includes (kept_scopes role banned) p.scope ≡ true
unfolding revoke_for_role
revoke_for_role-kept env user_id role banned at db token ip now p after a u =
    elim (Bool-cases (eq_ℕ (length (kept_scopes role banned)) (length api_key_scopes))) [
      | inl all ↦ all_scopes role banned p.scope all
      | inr some_lost ↦
          let e : (revoke_for_role user_id role banned at db).keys
              ≡ revoke_where (not_kept user_id (kept_scopes role banned)) at db.keys =
            rw some_lost refl in
          let (key, left, active, _, same_scope, owner) =
            admitted_after env (not_kept user_id (kept_scopes role banned)) at db.keys
              (revoke_for_role user_id role banned at db) token ip now p after e a in
          ground (
            arith,
            eq_iff p.user_id key.user_id,
            eq_iff p.user_id user_id,
            eq_iff key.user_id user_id,
          )
    ]

-- The keys that a role may hold: an admin any, a contributor a contributor's, a plain user none.
abbrev pub MayHold : Role → ApiKeyScope → Type 0
MayHold Role.admin scope = Unit
MayHold Role.contributor ApiKeyScope.contributor = Unit
MayHold Role.contributor ApiKeyScope.admin = ⊥
MayHold Role.user scope = ⊥

kept-MayHold :
    (role : Role) (banned : Bool) (scope : ApiKeyScope)
    → includes (kept_scopes role banned) scope ≡ true
    → (banned ≡ false) × MayHold role scope
unfolding kept_scopes scopes_for_role includes
kept-MayHold role true scope h = absurd (ground arith)
kept-MayHold Role.admin false scope h = (refl, tt)
kept-MayHold Role.contributor false ApiKeyScope.contributor h = (refl, tt)
kept-MayHold Role.contributor false ApiKeyScope.admin h = absurd (ground arith)
kept-MayHold Role.user false scope h = absurd (ground arith)

-- On the database that `revokeForRole` left for a user's role and ban: where a token is admitted as one
-- of that user's keys, the user is not banned, and the key's scope is one that the role may hold. An
-- admin may hold any, a contributor only a contributor's, and a plain user none, so for a banned or
-- a plain user none is admitted, whatever the token, address and time.
pub revoke_for_role-authenticate :
    (env : Env) (user_id : String) (role : Role) (banned : Bool) (at : ℕ) (db : Database)
    (token ip : Text) (now : ℕ) (p : AuthenticatedKey) (after : Database)
    → authenticate env token ip now (revoke_for_role user_id role banned at db) ≡ ok (p, after)
    → (p.user_id == user_id) ≡ true
    → (banned ≡ false) × MayHold role p.scope
revoke_for_role-authenticate env user_id role banned at db token ip now p after a u =
    kept-MayHold role banned p.scope
      (revoke_for_role-kept env user_id role banned at db token ip now p after a u)
