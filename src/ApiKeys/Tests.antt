-- ===== src/ApiKeys/Tests.antt =====
-- Runs of the key service on small tables, and its theorems at them.
use capbase.Base.{
  ◌≡◌, refl, true, false, ◌&&◌, none, some, [], ◌∷◌, ◌++◌, Text, all, map, pad_start, eq_text, trim,
  strip_both, drop_while, decimal, digits_before, has_text, number, number_from, repeat, ok, err,
  arith, if◌then◌else◌, Bool-cases, inl, inr,
}
use text.Mathlib.Text.{◌==◌}
use capbase.Mfa.Policy.{unmet, requires}
use capbase.Gate.Rows.{Role}
use capbase.ApiKeys.Addresses.{
  Net, parse_parts, split_on, parse_host, after_mapped, one_to_three_digits, block_list, is_quad,
  normalize_ip, parse_cidr, cidr_text, ip_allowed,
}
use capbase.ApiKeys.Ranges.{is_plain, PlainAddresses}
use capbase.ApiKeys.Store.{
  ApiKeyScope, User, ApiKey, Database, find_key, find_user, scopes_for_role, revoke_where,
  count_where, includes, active_count,
}
use capbase.ApiKeys.Service.{
  Crypto, Env, Owner, CreateApiKeyInput, Draw, canonical_cidrs, trimmed_entries, distinct_texts,
  token_prefix, after_start, id_and_secret, mfa_required, invalid_key, mint_token, base62,
  create_key, revoke, revoke_for_role, kept_scopes, bearer_api_key, new_row,
}
use capbase.ApiKeys.Authenticate.{
  AuthenticatedKey, authenticate, admit, is_dead, mark_used, principal, record_use,
}
use capbase.ApiKeys.Listing.{to_summary, newest_keys, insert_newest_key, list_keys}
use capbase.ApiKeys.Fresh.{create_key-authenticate}
use capbase.ApiKeys.Revoked.{Admitted, authenticate-Admitted}
use capbase.ApiKeys.Ended.{MayHold, revoke-authenticate, revoke_for_role-authenticate}
use capbase.ApiKeys.Bounded.{
  create, revoke_one, change_role, use_token, IsSound, perform_all, perform_all-IsSound,
}

-- Addresses of four numbers, and subnets that hold one address.
abbrev net : Net
net = record {
  is_ip = λ s. if is_quad s && all is_plain s then 4 else 0;
  in_subnet = λ subnet s family. eq_text subnet.address s;
}

abbrev crypto : Crypto
crypto = record {
  sha256 = λ s. s;
  from_hex = λ s. s;
  base64url = λ bytes. pad_start 43 b'A' (map base62 bytes);
}

abbrev env : Env
env = record { net = net; crypto = crypto; mfa_roles = Role.admin ∷ [] }

net-PlainAddresses : PlainAddresses net
net-PlainAddresses s h = elim (Bool-cases (is_quad s && all is_plain s)) [
  | inl e ↦ ground arith
  | inr e ↦ absurd (ground arith)
]

abbrev ada : User
ada = record {
  id = "ada";
  email = [];
  role = Role.contributor;
  banned_at = none;
  email_verified_at = some 1;
  mfa_enabled_at = none;
}

abbrev owner : Owner
owner = record { id = "ada"; role = Role.contributor; email_verified = true }

abbrev home : Text
home = b'1' ∷ b'0' ∷ b'.' ∷ b'1' ∷ b'.' ∷ b'2' ∷ b'.' ∷ b'3' ∷ []

abbrev input : CreateApiKeyInput
input = record {
  name = b' ' ∷ b'k' ∷ [];
  scope = ApiKeyScope.contributor;
  allowed_cidrs = (b' ' ∷ home) ∷ [] ∷ [];
}

abbrev draw : Draw
draw = record {
  public_id = 1 ∷ 2 ∷ 3 ∷ 4 ∷ 5 ∷ 66 ∷ 7 ∷ 255 ∷ [];
  secret = 9 ∷ 8 ∷ [];
  row_id = "k1";
  now = 1000;
}

abbrev empty : Database
empty = record { users = ada ∷ []; keys = [] }

abbrev row : ApiKey
row = new_row env owner input ((home ++ b'/' ∷ b'3' ∷ b'2' ∷ []) ∷ []) draw

abbrev one_key : Database
one_key = record { users = ada ∷ []; keys = row ∷ [] }

abbrev token : Text
token = (mint_token crypto draw).token

created : create_key env owner input draw empty ≡ ok (token, one_key)
unfolding create_key includes scopes_for_role canonical_cidrs trimmed_entries trim strip_both
    drop_while parse_cidr parse_parts split_on parse_host is_quad normalize_ip after_mapped
    one_to_three_digits active_count find_key cidr_text base62 distinct_texts mint_token new_row
    find_user decimal digits_before has_text number number_from eq_text pad_start repeat
created = refl

-- The new key, used from the address of its list.
abbrev answer : AuthenticatedKey
answer = record {
  user_id = "ada";
  email = [];
  role = Role.contributor;
  email_verified = true;
  key_id = "k1";
  scope = ApiKeyScope.contributor;
  prefix = row.prefix;
}

used :
    authenticate env token home 5000 one_key
    ≡ ok (answer, record one_key { keys = record row { last_used_at = some 5000 } ∷ [] })
unfolding authenticate token_prefix after_start id_and_secret admit is_dead unmet requires
    block_list ip_allowed principal record_use mark_used create_key includes scopes_for_role
    canonical_cidrs trimmed_entries trim strip_both drop_while parse_cidr parse_parts split_on
    parse_host is_quad normalize_ip after_mapped one_to_three_digits active_count find_key cidr_text
    base62 distinct_texts mint_token new_row find_user decimal digits_before has_text number
    number_from eq_text pad_start repeat
used = refl

-- The administrator's second factor is asked for, and a changed token is refused.
abbrev promoted : Database
promoted = record one_key { users = record ada { role = Role.admin } ∷ [] }

factor_asked_for : authenticate env token home 5000 promoted ≡ err mfa_required
unfolding authenticate token_prefix after_start id_and_secret admit is_dead unmet requires
    block_list ip_allowed principal record_use mark_used create_key includes scopes_for_role
    canonical_cidrs trimmed_entries trim strip_both drop_while parse_cidr parse_parts split_on
    parse_host is_quad normalize_ip after_mapped one_to_three_digits active_count find_key cidr_text
    base62 distinct_texts mint_token new_row find_user decimal digits_before has_text number
    number_from eq_text pad_start repeat
factor_asked_for = refl

changed_token_refused : authenticate env (b'c' ∷ token) home 5000 one_key ≡ err invalid_key
unfolding authenticate token_prefix after_start id_and_secret admit is_dead unmet requires
    block_list ip_allowed principal record_use mark_used create_key includes scopes_for_role
    canonical_cidrs trimmed_entries trim strip_both drop_while parse_cidr parse_parts split_on
    parse_host is_quad normalize_ip after_mapped one_to_three_digits active_count find_key cidr_text
    base62 distinct_texts mint_token new_row find_user decimal digits_before has_text number
    number_from eq_text pad_start repeat
changed_token_refused = refl

header_read :
    bearer_api_key (
      some (b'B' ∷ b'e' ∷ b'a' ∷ b'r' ∷ b'e' ∷ b'r' ∷ b' ' ∷ b'c' ∷ b'b' ∷ b'k' ∷ b'_' ∷ b' ' ∷ []))
    ≡ some (b'c' ∷ b'b' ∷ b'k' ∷ b'_' ∷ [])
unfolding bearer_api_key after_start trim strip_both drop_while
header_read = refl

create_key-authenticate_example :
    (key : ApiKey) × (find_key (mint_token crypto draw).prefix one_key.keys ≡ some key)
    × (key.user_id ≡ "ada")
    × (key.scope ≡ ApiKeyScope.contributor)
    × (ip_allowed net home key.allowed_cidrs ≡ true
        → authenticate env token home 5000 one_key
          ≡ ok (principal key ada, record_use key 5000 one_key))
unfolding create_key includes scopes_for_role canonical_cidrs trimmed_entries trim strip_both
    drop_while parse_cidr parse_parts split_on parse_host is_quad normalize_ip after_mapped
    one_to_three_digits active_count find_key cidr_text base62 distinct_texts mint_token new_row
    find_user decimal digits_before has_text number number_from eq_text pad_start repeat unmet
    requires
create_key-authenticate_example =
    create_key-authenticate env owner input draw empty ada token one_key home 5000 refl
      (refl, refl, refl) refl
      (record { same_role = refl; same_verified = refl; not_banned = refl; has_factor = refl })

authenticate-Admitted_example :
    (key : ApiKey) × (user : User) × Admitted env token home one_key answer key user
    × (record one_key { keys = record row { last_used_at = some 5000 } ∷ [] }
        ≡ record_use key 5000 one_key)
authenticate-Admitted_example =
    authenticate-Admitted env token home 5000 one_key
      (record one_key { keys = record row { last_used_at = some 5000 } ∷ [] }) answer used

-- A second key of the same owner.
abbrev other_row : ApiKey
other_row = record row { id = "k0"; created_at = 2000; prefix = b'o' ∷ [] }

abbrev two_keys : Database
two_keys = record one_key { keys = other_row ∷ row ∷ [] }

abbrev one_left : Database
one_left = record one_key { keys = record other_row { revoked_at = some 7 } ∷ row ∷ [] }

revoke-authenticate_example : answer.user_id == "ada" && answer.key_id == "k0" ≡ false
unfolding revoke revoke_where count_where authenticate token_prefix after_start id_and_secret admit
    is_dead unmet requires block_list ip_allowed principal record_use mark_used create_key includes
    scopes_for_role canonical_cidrs trimmed_entries trim strip_both drop_while parse_cidr
    parse_parts split_on parse_host is_quad normalize_ip after_mapped one_to_three_digits
    active_count find_key cidr_text base62 distinct_texts mint_token new_row find_user decimal
    digits_before has_text number number_from eq_text pad_start repeat
revoke-authenticate_example =
    revoke-authenticate env "ada" "k0" 7 two_keys one_left token home 5000 answer
      (record one_left {
        keys =
            record other_row { revoked_at = some 7 } ∷ record row { last_used_at = some 5000 } ∷ [];
      })
      refl refl

revoke_for_role-authenticate_example : (false ≡ false) × MayHold Role.contributor answer.scope
unfolding revoke_for_role revoke_where kept_scopes authenticate token_prefix after_start
    id_and_secret admit is_dead unmet requires block_list ip_allowed principal record_use mark_used
    create_key includes scopes_for_role canonical_cidrs trimmed_entries trim strip_both drop_while
    parse_cidr parse_parts split_on parse_host is_quad normalize_ip after_mapped one_to_three_digits
    active_count find_key cidr_text base62 distinct_texts mint_token new_row find_user decimal
    digits_before has_text number number_from eq_text pad_start repeat
revoke_for_role-authenticate_example =
    revoke_for_role-authenticate env "ada" Role.contributor false 7 one_key token home 5000 answer
      (record one_key { keys = record row { last_used_at = some 5000 } ∷ [] }) refl refl

perform_all-IsSound_example : IsSound net (
    perform_all env
      (create owner input draw
        ∷ revoke_one "ada" "k1" 8
        ∷ use_token token home 9
        ∷ change_role "ada" Role.user true 10
        ∷ [])
      empty)
perform_all-IsSound_example =
    perform_all-IsSound env net-PlainAddresses
      (create owner input draw
        ∷ revoke_one "ada" "k1" 8
        ∷ use_token token home 9
        ∷ change_role "ada" Role.user true 10
        ∷ [])
      empty (record { capped = λ id. unfold active_count in omega arith; readable = tt })

-- Of two keys the newer is listed first, and a revoked one is not listed.
keys_listed : list_keys "ada" two_keys ≡ to_summary other_row ∷ to_summary row ∷ []
unfolding list_keys newest_keys insert_newest_key to_summary new_row
keys_listed = refl

revoked_unlisted : list_keys "ada" one_left ≡ to_summary row ∷ []
unfolding list_keys newest_keys insert_newest_key to_summary new_row
revoked_unlisted = refl
