-- ===== src/Mfa/Base32.antt =====
-- `base32Encode` and `base32Decode` of apps/api/src/auth/mfa/totp.ts. A byte is a number below 256; the
-- accumulator `value` is a 32-bit word, whose wrap is written out. What a function writes stands before
-- what the rest of its input makes it write.
use Prim.Native.Nat.{zero, suc, ◌^◌}
use capbase.Base.{
  ℕ, ◌+◌, ◌-◌, ◌*◌, ◌/◌, ◌%◌, not, Option, none, some, List, [], ◌∷◌, ◌++◌, ◌&&◌, ◌||◌, ◌==◌, leb,
  ltb, if◌then◌else◌, Text, CaseTables, to_upper, keep, is_space,
}

-- The size of a 32-bit word.
abbrev pub word : ℕ
word = 4294967296

-- `BASE32[i]`: the letters, then the digits from 2.
abbrev pub digit_at : ℕ → ℕ
digit_at i = if ltb i 26 then 65 + i else 24 + i

-- `BASE32.indexOf(char)`, none for -1.
abbrev pub index_of : ℕ → Option ℕ
index_of c =
    if leb 65 c && leb c 90
    then some (c - 65)
    else if leb 50 c && leb c 55
    then some (c - 24)
    else none

-- The inner loop of `base32Encode`: what it writes, and the bits that are left. Each round takes five
-- bits, so `fuel` at least a fifth of them is enough.
unfoldable pub digits_of : ℕ → ℕ → ℕ → Text
digits_of zero bits value = []
digits_of (suc fuel) bits value =
    let more = digits_of fuel (bits - 5) value in
    if leb 5 bits then digit_at (value / 2 ^ (bits - 5) % 32) ∷ more else []

unfoldable pub bits_left : ℕ → ℕ → ℕ
bits_left zero bits = bits
bits_left (suc fuel) bits =
    let more = bits_left fuel (bits - 5) in if leb 5 bits then more else bits

unfoldable pub encode_from : ℕ → ℕ → List ℕ → Text
encode_from bits value [] =
    if ltb 0 bits then digit_at (value * 2 ^ (5 - bits) % word % 32) ∷ [] else []
encode_from bits value (byte ∷ bytes) =
    let next = value * 256 % word + byte in
    digits_of 3 (bits + 8) next ++ encode_from (bits_left 3 (bits + 8)) next bytes

unfoldable pub base32_encode : List ℕ → Text
base32_encode bytes = encode_from 0 0 bytes

abbrev pub push_byte : ℕ → Option (List ℕ) → Option (List ℕ)
push_byte byte none = none
push_byte byte (some bytes) = some (byte ∷ bytes)

-- The loop of `base32Decode`; none is the error that it throws.
unfoldable pub decode_from : ℕ → ℕ → Text → Option (List ℕ)
decode_from bits value [] = some []
decode_from bits value (char ∷ clean) = elim (index_of char) [
  | none ↦ none
  | some index ↦
      let next = value * 32 % word + index in
      if leb 8 (bits + 5)
      then push_byte (next / 2 ^ (bits + 5 - 8) % 256) (decode_from (bits + 5 - 8) next clean)
      else decode_from (bits + 5) next clean
]

unfoldable pub base32_decode : CaseTables → Text → Option (List ℕ)
base32_decode tables input =
    decode_from 0 0 (keep (λ c. not (is_space c || c == b'=')) (to_upper tables input))
