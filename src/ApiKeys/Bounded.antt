-- ===== src/ApiKeys/Bounded.antt =====
-- What holds of the table of keys after any sequence of calls of `ApiKeysService`:
-- apps/api/src/api-keys/api-keys.service.ts.
use text.Mathlib.Text.{◌==◌}
use text.Mathlib.TextEquality.{eq_iff}
use capbase.Base.{
  ℕ, String, ◌≡◌, refl, ◌≤◌, Bool, true, ◌&&◌, is_some, List, [], ◌∷◌, Text, length, ltb, All,
  has_text, Result, ok, err, arith, Result-cases, Bool-cases, Option-cases, inl, inr,
}
use capbase.Base.{◌==◌ as eq_ℕ}
use capbase.Gate.Rows.{Role}
use capbase.ApiKeys.Addresses.{Net, parse_cidr, cidr_text}
use capbase.ApiKeys.Ranges.{PlainAddresses, parse_cidr-cidr_text}
use capbase.ApiKeys.Store.{
  api_key_scopes, ApiKey, Database, active_count, revoke_where, max_active_api_keys,
}
use capbase.ApiKeys.Service.{
  KeyError, Env, Owner, CreateApiKeyInput, Draw, create_key, new_row, canonical_cidrs,
  trimmed_entries, distinct_texts, revoke, revoke_for_role, revocable, not_kept, kept_scopes,
}
use capbase.ApiKeys.Authenticate.{
  AuthenticatedKey, authenticate, mark_used, use_is_due, use_is_old, record_use,
}
use capbase.ApiKeys.Fresh.{create_key-inv}
use capbase.ApiKeys.Revoked.{authenticate-Admitted}
use capbase.ApiKeys.Ended.{revoke-inv}

-- One call of the service.
pub data Call : Type 0 where
  create : Owner → CreateApiKeyInput → Draw → Call
  revoke_one : String → String → ℕ → Call
  change_role : String → Role → Bool → ℕ → Call
  use_token : Text → Text → ℕ → Call

-- The database after a call: a call that throws leaves it as it was.
abbrev after_create : Database → Result KeyError (Text × Database) → Database
after_create db (ok r) = r.1
after_create db (err e) = db

abbrev after_revoke : Database → Result KeyError Database → Database
after_revoke db (ok d) = d
after_revoke db (err e) = db

abbrev after_use : Database → Result KeyError (AuthenticatedKey × Database) → Database
after_use db (ok r) = r.1
after_use db (err e) = db

unfoldable pub perform : Env → Call → Database → Database
perform env (create owner input draw) db = after_create db (create_key env owner input draw db)
perform env (revoke_one user_id id now) db = after_revoke db (revoke user_id id now db)
perform env (change_role user_id role banned now) db = revoke_for_role user_id role banned now db
perform env (use_token token ip now) db = after_use db (authenticate env token ip now db)

unfoldable pub perform_all : Env → List Call → Database → Database
perform_all env [] db = db
perform_all env (call ∷ calls) db = perform_all env calls (perform env call db)

-- Every entry of an allowlist is one that `ipAllowed` can read.
abbrev pub Readable : Net → ApiKey → Type 0
Readable net key = All (λ entry. is_some (parse_cidr net entry) ≡ true) key.allowed_cidrs

pub record IsSound (net : Net) (db : Database) : Type 0 where
  pub capped : (id : String) → active_count id db.keys ≤ max_active_api_keys
  pub readable : All (Readable net) db.keys

active_count-revoke_where :
    (id : String) (test : ApiKey → Bool) (now : ℕ) (keys : List ApiKey)
    → active_count id (revoke_where test now keys) ≤ active_count id keys
unfolding active_count revoke_where
active_count-revoke_where id test now [] = omega arith
active_count-revoke_where id test now (key ∷ keys) =
    ground (arith, active_count-revoke_where id test now keys)

Readable-revoke_where :
    (net : Net) (test : ApiKey → Bool) (now : ℕ) (keys : List ApiKey)
    → All (Readable net) keys
    → All (Readable net) (revoke_where test now keys)
unfolding revoke_where
Readable-revoke_where net test now [] h = tt
Readable-revoke_where net test now (key ∷ keys) h = elim (Bool-cases (test key)) [
  | inl e ↦ rw e (h.0, Readable-revoke_where net test now keys h.1)
  | inr e ↦ rw e (h.0, Readable-revoke_where net test now keys h.1)
]

active_count-mark_used :
    (id key_id : String) (now : ℕ) (keys : List ApiKey)
    → active_count id (mark_used key_id now keys) ≡ active_count id keys
unfolding active_count mark_used
active_count-mark_used id key_id now [] = refl
active_count-mark_used id key_id now (key ∷ keys) =
    ground (arith, active_count-mark_used id key_id now keys)

Readable-mark_used :
    (net : Net) (key_id : String) (now : ℕ) (keys : List ApiKey)
    → All (Readable net) keys
    → All (Readable net) (mark_used key_id now keys)
unfolding mark_used
Readable-mark_used net key_id now [] h = tt
Readable-mark_used net key_id now (key ∷ keys) h =
    elim (Bool-cases (key.id == key_id && use_is_old key.last_used_at now)) [
      | inl e ↦ rw e (h.0, Readable-mark_used net key_id now keys h.1)
      | inr e ↦ rw e (h.0, Readable-mark_used net key_id now keys h.1)
    ]

All-distinct_texts {κ} :
    (P : Text → Type κ) (seen texts : List Text) → All P texts → All P (distinct_texts seen texts)
unfolding distinct_texts
All-distinct_texts P seen [] h = tt
All-distinct_texts P seen (s ∷ texts) h = elim (Bool-cases (has_text s seen)) [
  | inl e ↦ rw e (All-distinct_texts P seen texts h.1)
  | inr e ↦ rw e (h.0, All-distinct_texts P (s ∷ seen) texts h.1)
]

module _ (env : Env) (plain : PlainAddresses env.net) where
  Readable-canonical_cidrs :
      (entries cidrs : List Text)
      → canonical_cidrs env.net entries ≡ ok cidrs
      → All (λ entry. is_some (parse_cidr env.net entry) ≡ true) cidrs
  unfolding canonical_cidrs
  Readable-canonical_cidrs [] [] h = tt
  Readable-canonical_cidrs [] (c ∷ cidrs) h = absurd (ground arith)
  Readable-canonical_cidrs (entry ∷ entries) cidrs h =
      elim (Option-cases (parse_cidr env.net entry)) [
        | inl e ↦ absurd (ground arith)
        | inr (cidr, e) ↦ elim (Result-cases (canonical_cidrs env.net entries)) [
          | inr (f, r) ↦ absurd (ground arith)
          | inl (rest, r) ↦
              let same : cidrs ≡ cidr_text cidr ∷ rest = ground arith in
              rw same (
                rw (parse_cidr-cidr_text env.net plain entry cidr e) refl,
                Readable-canonical_cidrs entries rest r,
              )
        ]
      ]

  -- The rows of a revocation and of a use are the rows before it, with their scopes, owners and lists.
  revoke_where-IsSound :
      (test : ApiKey → Bool) (now : ℕ) (db : Database)
      → IsSound env.net db
      → IsSound env.net (record db { keys = revoke_where test now db.keys })
  revoke_where-IsSound test now db s = record {
    capped = λ id. omega (arith, s.capped id, active_count-revoke_where id test now db.keys);
    readable = Readable-revoke_where env.net test now db.keys s.readable;
  }

  record_use-IsSound :
      (key : ApiKey) (now : ℕ) (db : Database)
      → IsSound env.net db
      → IsSound env.net (record_use key now db)
  unfolding record_use
  record_use-IsSound key now db s = elim (Bool-cases (use_is_due key.last_used_at now)) [
    | inr e ↦ rw e s
    | inl e ↦ rw e (record {
      capped = λ id. omega (arith, s.capped id, active_count-mark_used id key.id now db.keys);
      readable = Readable-mark_used env.net key.id now db.keys s.readable;
    })
  ]

  new_row-IsSound :
      (owner : Owner) (input : CreateApiKeyInput) (cidrs : List Text) (draw : Draw) (db : Database)
      → ltb (active_count owner.id db.keys) max_active_api_keys ≡ true
      → canonical_cidrs env.net (trimmed_entries input.allowed_cidrs) ≡ ok cidrs
      → IsSound env.net db
      → IsSound env.net (record db { keys = new_row env owner input cidrs draw ∷ db.keys })
  unfolding active_count new_row
  new_row-IsSound owner input cidrs draw db few c s = record {
    capped = λ id. ground (arith, s.capped id, eq_iff owner.id id);
    readable = (
      All-distinct_texts (λ entry. is_some (parse_cidr env.net entry) ≡ true) [] cidrs
          (Readable-canonical_cidrs (trimmed_entries input.allowed_cidrs) cidrs c),
      s.readable,
    );
  }

  perform-IsSound :
      (call : Call) (db : Database) → IsSound env.net db → IsSound env.net (perform env call db)
  unfolding perform
  perform-IsSound (create owner input draw) db s =
      elim (Result-cases (create_key env owner input draw db)) [
        | inr (f, e) ↦ rw e s
        | inl (r, e) ↦
            let (_, _, few, _, cidrs, c, after) =
              create_key-inv env owner input draw db r.0 r.1 e in
            rw (e, after) (new_row-IsSound owner input cidrs draw db few c s)
      ]
  perform-IsSound (revoke_one user_id id now) db s =
      elim (Result-cases (revoke user_id id now db)) [
        | inr (f, e) ↦ rw e s
        | inl (after, e) ↦
            rw (e, revoke-inv user_id id now db after e)
              (revoke_where-IsSound (revocable user_id id) now db s)
      ]
  perform-IsSound (change_role user_id role banned now) db s =
      elim (Bool-cases (eq_ℕ (length (kept_scopes role banned)) (length api_key_scopes))) [
        | inl e ↦ unfold revoke_for_role in rw e s
        | inr e ↦
            unfold revoke_for_role in
            rw e (revoke_where-IsSound (not_kept user_id (kept_scopes role banned)) now db s)
      ]
  perform-IsSound (use_token token ip now) db s =
      elim (Result-cases (authenticate env token ip now db)) [
        | inr (f, e) ↦ rw e s
        | inl (r, e) ↦
            let (key, user, _, after) = authenticate-Admitted env token ip now db r.1 r.0 e in
            rw (e, after) (record_use-IsSound key now db s)
      ]

  -- Where `isIP` accepts no text with white space or a slash: after any calls from a database in which
  -- each user has at most five active keys and each entry of an allowlist can be read, this still holds.
  pub perform_all-IsSound :
      (calls : List Call) (db : Database)
      → IsSound env.net db
      → IsSound env.net (perform_all env calls db)
  unfolding perform_all
  perform_all-IsSound [] db s = s
  perform_all-IsSound (call ∷ calls) db s =
      perform_all-IsSound calls (perform env call db) (perform-IsSound call db s)
