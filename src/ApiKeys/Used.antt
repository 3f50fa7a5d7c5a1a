-- ===== src/ApiKeys/Used.antt =====
-- The bookkeeping of a key's last use: `authenticate` of apps/api/src/api-keys/api-keys.service.ts.
use text.Mathlib.Text.{◌==◌}
use text.Mathlib.TextEquality.{eq_iff}
use capbase.Base.{
  ℕ, ◌+◌, ◌≤◌, String, ◌≡◌, refl, ◌&&◌, Option, none, some, List, [], ◌∷◌, Text, ok, arith,
  if◌then◌else◌, Option-cases, inl, inr,
}
use capbase.ApiKeys.Store.{ApiKey, Database, find_key}
use capbase.ApiKeys.Service.{Env, last_used_debounce_ms}
use capbase.ApiKeys.Authenticate.{
  AuthenticatedKey, authenticate, principal, mark_used, record_use, use_is_old,
}
use capbase.ApiKeys.Revoked.{authenticate-Admitted}

find_key-mark_used :
    (prefix : Text) (id : String) (now : ℕ) (keys : List ApiKey) (key : ApiKey)
    → find_key prefix keys ≡ some key
    → find_key prefix (mark_used id now keys)
      ≡ some (
          if key.id == id && use_is_old key.last_used_at now
          then record key { last_used_at = some now }
          else key)
unfolding find_key mark_used
find_key-mark_used prefix id now [] key h = absurd (ground arith)
find_key-mark_used prefix id now (k ∷ keys) key h =
    ground (arith, find_key-mark_used prefix id now keys key)

-- The time that a row has after a use.
used_at : Option ℕ → ℕ → ℕ
used_at none now = now
used_at (some last) now = if use_is_old (some last) now then now else last

used_at-near : (last : Option ℕ) (now : ℕ) → now ≤ used_at last now + last_used_debounce_ms
unfolding used_at
used_at-near none now = omega arith
used_at-near (some last) now = ground arith

record_use-find_key :
    (prefix : Text) (key : ApiKey) (now : ℕ) (db : Database)
    → find_key prefix db.keys ≡ some key
    → find_key prefix (record_use key now db).keys
      ≡ some (record key { last_used_at = some (used_at key.last_used_at now) })
unfolding record_use used_at
record_use-find_key prefix key now db h =
    let marked = find_key-mark_used prefix key.id now db.keys key h in
    elim (Option-cases key.last_used_at) [
      | inl e ↦ ground (arith, marked, eq_iff key.id key.id)
      | inr (last, e) ↦ ground (arith, marked, eq_iff key.id key.id)
    ]

-- After a token was admitted, the row of its key names a last use that is at most a minute before the
-- request, whatever the row named before.
pub authenticate-last_used :
    (env : Env) (token ip : Text) (now : ℕ) (db after : Database) (p : AuthenticatedKey)
    → authenticate env token ip now db ≡ ok (p, after)
    → (prefix : Text) × (key : ApiKey) × (last : ℕ) × (find_key prefix after.keys ≡ some key)
      × (key.id ≡ p.key_id)
      × (key.last_used_at ≡ some last)
      × (now ≤ last + last_used_debounce_ms)
unfolding principal
authenticate-last_used env token ip now db after p h =
    let (key, user, admitted, e) = authenticate-Admitted env token ip now db after p h in
    let (prefix, _, found) = admitted.found in
    let last = used_at key.last_used_at now in
    (
      prefix,
      record key { last_used_at = some last },
      last,
      rw e (record_use-find_key prefix key now db found),
      rw admitted.named refl,
      refl,
      used_at-near key.last_used_at now,
    )
