-- ===== src/Mfa/RoundTrip.antt =====
-- What `base32Encode` writes, `base32Decode` reads (apps/api/src/auth/mfa/totp.ts).
use Prim.Native.Nat.{zero, suc, ◌^◌}
use capbase.Base.{
  ℕ, ◌+◌, ◌-◌, ◌*◌, ◌/◌, ◌%◌, ◌<◌, ◌≡◌, refl, ap, ◌∙◌, inl, inr, Bool, true, not, Option, some,
  List, [], ◌∷◌, ◌++◌, ◌&&◌, ◌||◌, ◌==◌, leb, ltb, if◌then◌else◌, Text, CaseTables, to_upper-none,
  keep, keep-all, all-implies, is_space, is_ascii, is_lower, all, All, arith, Bool-cases,
}
use capbase.Mfa.Base32.{
  word, digit_at, index_of, digits_of, bits_left, encode_from, base32_encode, push_byte,
  decode_from, base32_decode,
}

abbrev in_alphabet : ℕ → Bool
in_alphabet c = (leb 65 c && leb c 90) || (leb 50 c && leb c 55)

digit_at-Letter : (i : ℕ) → i < 32 → in_alphabet (digit_at i) ≡ true
digit_at-Letter i h = ground arith

index_of-digit_at : (i : ℕ) → i < 32 → index_of (digit_at i) ≡ some i
index_of-digit_at i h = ground arith

-- The decoder reads a digit that the encoder writes.
decode_from-digit_at :
    (bits value i : ℕ) (s : Text)
    → i < 32
    → decode_from bits value (digit_at i ∷ s) ≡ (
        if leb 8 (bits + 5)
        then push_byte
            ((value * 32 % word + i) / 2 ^ (bits + 5 - 8) % 256)
            (decode_from (bits + 5 - 8) (value * 32 % word + i) s)
        else decode_from (bits + 5) (value * 32 % word + i) s)
unfolding decode_from
decode_from-digit_at bits value i s h = rw (index_of-digit_at i h, decode_from) refl

-- The five states in which the encoder is between two bytes, with the decoder's.
abbrev Aligned : List ℕ → Type 0
Aligned bytes = (v d : ℕ) → decode_from 0 d (encode_from 0 v bytes) ≡ some bytes

-- `e` bits of the byte `p` are not yet written, and the decoder has read the others.
abbrev Split : ℕ → List ℕ → Type 0
Split e bytes =
    (v d p : ℕ)
    → p < 256
    → v % 2 ^ e ≡ p % 2 ^ e
    → d % 2 ^ (8 - e) ≡ p / 2 ^ e
    → decode_from (8 - e) d (encode_from e v bytes) ≡ some (p ∷ bytes)

whole_step : (b : ℕ) (bytes : List ℕ) → b < 256 → Split 3 bytes → Aligned (b ∷ bytes)
unfolding encode_from digits_of bits_left
whole_step b bytes h s v d =
    let next = v * 256 % word + b in
    decode_from-digit_at 0 d (next / 8 % 32) (encode_from 3 next bytes) (omega arith)
    ∙ s next (d * 32 % word + next / 8 % 32) b h (omega arith) (omega arith)

push_byte-some :
    (x p : ℕ) (o : Option (List ℕ)) (l : List ℕ) → x ≡ p → o ≡ some l → push_byte x o ≡ some (p ∷ l)
push_byte-some x p o l e h = ap (push_byte x) h ∙ ap (λ y. some (y ∷ l)) e

carry_step_1 : (b : ℕ) (bytes : List ℕ) → b < 256 → Split 4 bytes → Split 1 (b ∷ bytes)
unfolding encode_from digits_of bits_left
carry_step_1 b bytes h s v d p l e f =
    let next = v * 256 % word + b in
    let i = next / 16 % 32 in
    let t = d * 32 % word + i in
    decode_from-digit_at 7 d i (encode_from 4 next bytes) (omega arith)
    ∙ push_byte-some (t / 16 % 256) p (decode_from 4 t (encode_from 4 next bytes)) (b ∷ bytes)
        (omega arith) (s next t b h (omega arith) (omega arith))

carry_step_2 : (b : ℕ) (bytes : List ℕ) → b < 256 → Aligned bytes → Split 2 (b ∷ bytes)
unfolding encode_from digits_of bits_left
carry_step_2 b bytes h s v d p l e f =
    let next = v * 256 % word + b in
    let i = next / 32 % 32 in
    let j = next / 1 % 32 in
    let t = d * 32 % word + i in
    let u = t * 32 % word + j in
    decode_from-digit_at 6 d i (digit_at j ∷ encode_from 0 next bytes) (omega arith)
    ∙ push_byte-some (t / 8 % 256) p (decode_from 3 t (digit_at j ∷ encode_from 0 next bytes))
        (b ∷ bytes) (omega arith)
        (decode_from-digit_at 3 t j (encode_from 0 next bytes) (omega arith)
          ∙ push_byte-some (u / 1 % 256) b (decode_from 0 u (encode_from 0 next bytes)) bytes
              (omega arith) (s next u))

carry_step_3 : (b : ℕ) (bytes : List ℕ) → b < 256 → Split 1 bytes → Split 3 (b ∷ bytes)
unfolding encode_from digits_of bits_left
carry_step_3 b bytes h s v d p l e f =
    let next = v * 256 % word + b in
    let i = next / 64 % 32 in
    let j = next / 2 % 32 in
    let t = d * 32 % word + i in
    let u = t * 32 % word + j in
    decode_from-digit_at 5 d i (digit_at j ∷ encode_from 1 next bytes) (omega arith)
    ∙ push_byte-some (t / 4 % 256) p (decode_from 2 t (digit_at j ∷ encode_from 1 next bytes))
        (b ∷ bytes) (omega arith)
        (decode_from-digit_at 2 t j (encode_from 1 next bytes) (omega arith)
          ∙ s next u b h (omega arith) (omega arith))

carry_step_4 : (b : ℕ) (bytes : List ℕ) → b < 256 → Split 2 bytes → Split 4 (b ∷ bytes)
unfolding encode_from digits_of bits_left
carry_step_4 b bytes h s v d p l e f =
    let next = v * 256 % word + b in
    let i = next / 128 % 32 in
    let j = next / 4 % 32 in
    let t = d * 32 % word + i in
    let u = t * 32 % word + j in
    decode_from-digit_at 4 d i (digit_at j ∷ encode_from 2 next bytes) (omega arith)
    ∙ push_byte-some (t / 2 % 256) p (decode_from 1 t (digit_at j ∷ encode_from 2 next bytes))
        (b ∷ bytes) (omega arith)
        (decode_from-digit_at 1 t j (encode_from 2 next bytes) (omega arith)
          ∙ s next u b h (omega arith) (omega arith))

-- The last digit has the bits that are left, and zeros.
carry_end_1 : Split 1 []
unfolding encode_from decode_from
carry_end_1 v d p l e f =
    let i = v * 16 % word % 32 in
    let t = d * 32 % word + i in
    decode_from-digit_at 7 d i [] (omega arith)
    ∙ push_byte-some (t / 16 % 256) p (decode_from 4 t []) [] (omega arith) refl

carry_end_2 : Split 2 []
unfolding encode_from decode_from
carry_end_2 v d p l e f =
    let i = v * 8 % word % 32 in
    let t = d * 32 % word + i in
    decode_from-digit_at 6 d i [] (omega arith)
    ∙ push_byte-some (t / 8 % 256) p (decode_from 3 t []) [] (omega arith) refl

carry_end_3 : Split 3 []
unfolding encode_from decode_from
carry_end_3 v d p l e f =
    let i = v * 4 % word % 32 in
    let t = d * 32 % word + i in
    decode_from-digit_at 5 d i [] (omega arith)
    ∙ push_byte-some (t / 4 % 256) p (decode_from 2 t []) [] (omega arith) refl

carry_end_4 : Split 4 []
unfolding encode_from decode_from
carry_end_4 v d p l e f =
    let i = v * 2 % word % 32 in
    let t = d * 32 % word + i in
    decode_from-digit_at 4 d i [] (omega arith)
    ∙ push_byte-some (t / 2 % 256) p (decode_from 1 t []) [] (omega arith) refl

-- In each of the states the decoder gives back what is still to come.
five_states :
    (bytes : List ℕ)
    → All (λ b. b < 256) bytes
    → Aligned bytes × Split 1 bytes × Split 2 bytes × Split 3 bytes × Split 4 bytes
unfolding encode_from decode_from
five_states [] h = ((λ v d. refl), carry_end_1, carry_end_2, carry_end_3, carry_end_4)
five_states (b ∷ bytes) h =
    let ih = five_states bytes h.1 in
    (
      whole_step b bytes h.0 ih.3,
      carry_step_1 b bytes h.0 ih.4,
      carry_step_2 b bytes h.0 ih.0,
      carry_step_3 b bytes h.0 ih.1,
      carry_step_4 b bytes h.0 ih.2,
    )

all-digits_of :
    (fuel bits value : ℕ) (rest : Text)
    → all in_alphabet rest ≡ true
    → all in_alphabet (digits_of fuel bits value ++ rest) ≡ true
unfolding digits_of
all-digits_of zero bits value rest h = h
all-digits_of (suc fuel) bits value rest h = elim (Bool-cases (leb 5 bits)) [
  | inr done ↦ rw done h
  | inl more ↦
      let small : value / 2 ^ (bits - 5) % 32 < 32 = omega arith in
      rw more (
        ground (
          arith,
          digit_at-Letter (value / 2 ^ (bits - 5) % 32) small,
          all-digits_of fuel (bits - 5) value rest h,
        ))
]

all-encode_from :
    (bits value : ℕ) (bytes : List ℕ) → all in_alphabet (encode_from bits value bytes) ≡ true
unfolding encode_from
all-encode_from bits value [] = elim (Bool-cases (ltb 0 bits)) [
  | inr done ↦ rw done refl
  | inl more ↦
      let i = value * 2 ^ (5 - bits) % word % 32 in
      rw more (ground (arith, digit_at-Letter i (omega arith)))
]
all-encode_from bits value (byte ∷ bytes) =
    let next = value * 256 % word + byte in
    all-digits_of 3 (bits + 8) next (encode_from (bits_left 3 (bits + 8)) next bytes)
      (all-encode_from (bits_left 3 (bits + 8)) next bytes)

-- `base32Decode` gives back the bytes that `base32Encode` is given, whatever they are.
pub base32_decode-base32_encode :
    (tables : CaseTables) (bytes : List ℕ)
    → All (λ b. b < 256) bytes
    → base32_decode tables (base32_encode bytes) ≡ some bytes
unfolding base32_decode base32_encode
base32_decode-base32_encode tables bytes h =
    let s = encode_from 0 0 bytes in
    let letters = all-encode_from 0 0 bytes in
    let same = to_upper-none tables s (
      all-implies in_alphabet (λ c. is_ascii c && not (is_lower c)) s (λ c e. ground arith)
        letters) in
    let kept =
      keep-all (λ c. not (is_space c || c == b'=')) s
        (all-implies in_alphabet (λ c. not (is_space c || c == b'=')) s (λ c e. ground arith)
          letters) in
    ap (λ x. decode_from 0 0 (keep (λ c. not (is_space c || c == b'=')) x)) same
    ∙ ap (decode_from 0 0) kept
    ∙ (five_states bytes h).0 0 0
