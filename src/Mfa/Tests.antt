-- ===== src/Mfa/Tests.antt =====
-- Runs of apps/api/src/auth/mfa/totp.ts, and its theorems at concrete bytes and codes.
use capbase.Gate.Rows.{contributor, admin}
use capbase.Mfa.Policy.{
  role_named, role_texts, roles_named, parse_mfa_roles, mfa_required_roles, requires, unmet,
}
use capbase.Mfa.Recovery.{normalize_recovery_code, can_view_company_history}
use capbase.Base.{
  to_lower, true, false, none, trim, strip_both, drop_while, ℕ, ◌+◌, ◌≤◌, ◌<◌, ◌≡◌, refl, some,
  List, [], ◌∷◌, ◌++◌, Text, CaseTables, All, length, arith, repeat, pad_start, decimal,
  digits_before, eq_text, to_upper,
}
use capbase.Mfa.Base32.{
  digits_of, bits_left, encode_from, base32_encode, decode_from, base32_decode,
}
use capbase.Mfa.RoundTrip.{base32_decode-base32_encode}
use capbase.Mfa.Totp.{
  matched, refused, totp_step, counter, byte_at, last_byte, read_uint32, totp_at, try_steps,
  verify_totp,
}
use capbase.Mfa.Replay.{Past, verify_totp-matched}

abbrev plain_tables : CaseTables
plain_tables = record { upper = λ s. s; lower = λ s. s }

-- "hello!" and its RFC 4648 text.
abbrev hello : List ℕ
hello = b'h' ∷ b'e' ∷ b'l' ∷ b'l' ∷ b'o' ∷ b'!' ∷ []

hello_read :
    base32_encode hello ≡ b'N' ∷ b'B' ∷ b'S' ∷ b'W' ∷ b'Y' ∷ b'3' ∷ b'D' ∷ b'P' ∷ b'E' ∷ b'E' ∷ []
unfolding base32_encode encode_from digits_of bits_left
hello_read = refl

hello_bytes : All (λ b. b < 256) hello
hello_bytes =
    (omega arith, (omega arith, (omega arith, (omega arith, (omega arith, (omega arith, tt))))))

base32_decode-base32_encode_example : base32_decode plain_tables (base32_encode hello) ≡ some hello
base32_decode-base32_encode_example = base32_decode-base32_encode plain_tables hello hello_bytes

-- A function in the place of the HMAC, whose code at a step is the step.
abbrev step_mac : List ℕ → List ℕ → List ℕ
step_mac key (a ∷ b ∷ c ∷ d ∷ message) = message ++ repeat 16 0
step_mac key message = repeat 20 0

abbrev code : Text
code = b'0' ∷ b'0' ∷ b'0' ∷ b'0' ∷ b'0' ∷ b'3' ∷ []

-- At 61 seconds the step is 2: the code of step 3 is accepted, and then no more.
code_read : verify_totp plain_tables step_mac [] code 61000 (some 2) ≡ matched 3
unfolding verify_totp try_steps totp_step totp_at base32_decode decode_from to_upper counter byte_at
    last_byte read_uint32 repeat pad_start decimal digits_before eq_text
code_read = refl

code_again : verify_totp plain_tables step_mac [] code 61000 (some 3) ≡ refused
unfolding verify_totp try_steps totp_step totp_at base32_decode decode_from to_upper counter byte_at
    last_byte read_uint32 repeat pad_start decimal digits_before eq_text
code_again = refl

verify_totp-matched_example :
    (totp_step 61000 ≤ 3 + 1)
    × (3 ≤ totp_step 61000 + 1)
    × Past (some 2) 3
    × (totp_at plain_tables step_mac [] 3 ≡ some code)
    × (length code ≡ 6)
verify_totp-matched_example =
    verify_totp-matched plain_tables step_mac [] code 61000 3 (some 2) code_read

-- Set, even to nothing, is exactly that list; unset is the default of production.
required_read :
    (mfa_required_roles (some (b'A' ∷ b'D' ∷ b'M' ∷ b'I' ∷ b'N' ∷ b',' ∷ 32 ∷ [])) none
      ≡ admin ∷ [])
    × (mfa_required_roles
          (some [])
          (some (b'p' ∷ b'r' ∷ b'o' ∷ b'd' ∷ b'u' ∷ b'c' ∷ b't' ∷ b'i' ∷ b'o' ∷ b'n' ∷ []))
        ≡ [])
    × (unmet
          (mfa_required_roles none
            (some (b'p' ∷ b'r' ∷ b'o' ∷ b'd' ∷ b'u' ∷ b'c' ∷ b't' ∷ b'i' ∷ b'o' ∷ b'n' ∷ [])))
          contributor
          false
        ≡ true)
unfolding mfa_required_roles parse_mfa_roles role_texts roles_named role_named requires unmet trim
    strip_both drop_while eq_text
required_read = (refl, refl, refl)

-- "AB-c d" is the code "abcd".
recovery_read :
    normalize_recovery_code plain_tables (b'A' ∷ b'B' ∷ b'-' ∷ b'c' ∷ 32 ∷ b'd' ∷ [])
    ≡ b'a' ∷ b'b' ∷ b'c' ∷ b'd' ∷ []
unfolding normalize_recovery_code to_lower
recovery_read = refl

history_read : can_view_company_history (some contributor) ≡ true
unfolding can_view_company_history
history_read = refl
