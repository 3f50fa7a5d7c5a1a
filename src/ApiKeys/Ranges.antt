-- ===== src/ApiKeys/Ranges.antt =====
-- A stored range of an allowlist is read back as the range it was: `parseCidr` and `ipAllowed` of
-- apps/api/src/api-keys/api-keys.service.ts.
use capbase.Base.{
  ℕ, zero, suc, ◌+◌, ◌/◌, ◌%◌, ◌≤◌, ◌<◌, ◌≡◌, refl, ◌∙◌, Bool, true, false, not, ◌&&◌, Option, none,
  some, List, [], ◌∷◌, ◌++◌, ◌==◌, ltb, if◌then◌else◌, Text, length, all, is_digit, is_space, trim,
  number, decimal, digits_before, arith, all-append, Option-cases, all-implies, strip_both-none,
  number-decimal, Bool-cases, inl, inr,
}
use capbase.ApiKeys.Addresses.{
  Cidr, Net, split_on, extend_first, four_parts, one_to_three_digits, is_quad, after_mapped,
  normalize_ip, parse_host, parse_parts, parse_cidr, cidr_text,
}

-- A character of an address, in which `isIP` accepts neither white space nor a slash.
abbrev pub is_plain : ℕ → Bool
is_plain c = not (is_space c) && not (c == b'/')

abbrev pub PlainAddresses : Net → Type 0
PlainAddresses net =
    (s : Text) → not (net.is_ip s == 4) && not (net.is_ip s == 6) ≡ false → all is_plain s ≡ true

all_digits-digits_before :
    (fuel n : ℕ) (rest : Text)
    → all is_digit rest ≡ true
    → all is_digit (digits_before fuel n rest) ≡ true
unfolding digits_before
all_digits-digits_before zero n rest h = h
all_digits-digits_before (suc fuel) n rest h =
    ground (arith, all_digits-digits_before fuel (n / 10) ((48 + n % 10) ∷ rest))

length-digits_before_one :
    (fuel n : ℕ) (rest : Text)
    → n < 10
    → n < fuel
    → length (digits_before fuel n rest) ≡ suc (length rest)
unfolding digits_before
length-digits_before_one zero n rest h f = absurd (omega arith)
length-digits_before_one (suc fuel) n rest h f = ground arith

length-digits_before_two :
    (fuel n : ℕ) (rest : Text)
    → n < 100
    → n < fuel
    → (suc (length rest) ≤ length (digits_before fuel n rest))
      × (length (digits_before fuel n rest) ≤ 2 + length rest)
unfolding digits_before
length-digits_before_two zero n rest h f = absurd (omega arith)
length-digits_before_two (suc fuel) n rest h f =
    ground (arith, length-digits_before_one fuel (n / 10) ((48 + n % 10) ∷ rest))

length-digits_before_three :
    (fuel n : ℕ) (rest : Text)
    → n < 1000
    → n < fuel
    → (suc (length rest) ≤ length (digits_before fuel n rest))
      × (length (digits_before fuel n rest) ≤ 3 + length rest)
unfolding digits_before
length-digits_before_three zero n rest h f = absurd (omega arith)
length-digits_before_three (suc fuel) n rest h f =
    ground (arith, length-digits_before_two fuel (n / 10) ((48 + n % 10) ∷ rest))

one_to_three_digits-decimal : (n : ℕ) → n < 1000 → one_to_three_digits (decimal n) ≡ true
unfolding one_to_three_digits decimal
one_to_three_digits-decimal n h =
    ground
      (arith, length-digits_before_three (suc n) n [] h, all_digits-digits_before (suc n) n [] refl)

split_on-none : (c : ℕ) (s : Text) → all (λ x. not (x == c)) s ≡ true → split_on c s ≡ s ∷ []
unfolding split_on
split_on-none c [] h = refl
split_on-none c (x ∷ s) h = ground (arith, split_on-none c s)

split_on-two :
    (c : ℕ) (s t : Text)
    → all (λ x. not (x == c)) s ≡ true
    → all (λ x. not (x == c)) t ≡ true
    → split_on c (s ++ c ∷ t) ≡ s ∷ t ∷ []
unfolding split_on
split_on-two c [] t h k = ground (arith, split_on-none c t)
split_on-two c (x ∷ s) t h k = ground (arith, split_on-two c s t)

four_parts-extend_first : (parts : List Text) → four_parts (extend_first b':' parts) ≡ false
unfolding one_to_three_digits
four_parts-extend_first [] = refl
four_parts-extend_first (a ∷ []) = refl
four_parts-extend_first (a ∷ b ∷ []) = refl
four_parts-extend_first (a ∷ b ∷ c ∷ []) = refl
four_parts-extend_first (a ∷ b ∷ c ∷ d ∷ []) = ground arith
four_parts-extend_first (a ∷ b ∷ c ∷ d ∷ e ∷ rest) = refl

is_quad-colon : (s : Text) → is_quad (b':' ∷ s) ≡ false
unfolding is_quad split_on
is_quad-colon s = four_parts-extend_first (split_on b'.' s)

-- A dotted quad starts with a digit, so it is not itself a mapped address.
not_colon-after_mapped : (c : ℕ) (s : Text) → (c == b':') ≡ false → after_mapped (c ∷ s) ≡ none
unfolding after_mapped
not_colon-after_mapped c (a ∷ b ∷ d ∷ e ∷ f ∷ g ∷ s) h = ground arith
not_colon-after_mapped c _ h = refl

after_mapped-is_quad : (s : Text) → is_quad s ≡ true → after_mapped s ≡ none
after_mapped-is_quad [] h = unfold after_mapped in refl
after_mapped-is_quad (c ∷ s) h = elim (Bool-cases (c == b':')) [
  | inl e ↦
      let colon : c ≡ 58 = ground arith in
      let p = is_quad-colon s in absurd (ground (arith, is_quad-colon s))
  | inr e ↦ not_colon-after_mapped c s e
]

normalize_ip_idempotent : (s : Text) → normalize_ip (normalize_ip s) ≡ normalize_ip s
unfolding normalize_ip
normalize_ip_idempotent s = elim (Option-cases (after_mapped s)) [
  | inl e ↦ rw e (rw e refl)
  | inr (t, e) ↦ elim (Bool-cases (is_quad t)) [
    | inl q ↦ rw e (rw q (rw (after_mapped-is_quad t q) refl))
    | inr q ↦ rw e (rw q (rw e (rw q refl)))
  ]
]

digits_no_slash : (n : ℕ) → all (λ c. not (c == b'/')) (decimal n) ≡ true
unfolding decimal
digits_no_slash n =
    all-implies is_digit (λ c. not (c == b'/')) (digits_before (suc n) n []) (λ c e. ground arith)
      (all_digits-digits_before (suc n) n [] refl)

digits_no_space : (n : ℕ) → all (λ c. not (is_space c)) (decimal n) ≡ true
unfolding decimal
digits_no_space n =
    all-implies is_digit (λ c. not (is_space c)) (digits_before (suc n) n []) (λ c e. ground arith)
      (all_digits-digits_before (suc n) n [] refl)

trim-cidr_text :
    (cidr : Cidr)
    → all (λ c. not (is_space c)) cidr.address ≡ true
    → trim (cidr.address ++ b'/' ∷ decimal cidr.prefix) ≡ cidr.address ++ b'/' ∷ decimal cidr.prefix
unfolding trim
trim-cidr_text cidr h = strip_both-none is_space (cidr.address ++ b'/' ∷ decimal cidr.prefix) (
    all-append (λ c. not (is_space c)) cidr.address (b'/' ∷ decimal cidr.prefix)
    ∙ ground (arith, digits_no_space cidr.prefix))

module _ (net : Net) (plain : PlainAddresses net) where
  -- The ranges that a host with a prefix denotes.
  parse_host-inv :
      (address : Text) (bits : Option Text) (cidr : Cidr)
      → parse_host net address bits ≡ some cidr
      → (normalize_ip cidr.address ≡ cidr.address)
        × (net.is_ip cidr.address ≡ cidr.family)
        × (not (cidr.family == 4) && not (cidr.family == 6) ≡ false)
        × (ltb (if cidr.family == 4 then 32 else 128) cidr.prefix ≡ false)
  unfolding parse_host
  parse_host-inv address bits cidr h = ground (arith, normalize_ip_idempotent address)

  parse_parts-inv :
      (parts : List Text) (cidr : Cidr)
      → parse_parts net parts ≡ some cidr
      → (normalize_ip cidr.address ≡ cidr.address)
        × (net.is_ip cidr.address ≡ cidr.family)
        × (not (cidr.family == 4) && not (cidr.family == 6) ≡ false)
        × (ltb (if cidr.family == 4 then 32 else 128) cidr.prefix ≡ false)
  unfolding parse_parts
  parse_parts-inv [] cidr h = parse_host-inv [] none cidr h
  parse_parts-inv (a ∷ []) cidr h = parse_host-inv a none cidr h
  parse_parts-inv (a ∷ b ∷ []) cidr h = parse_host-inv a (some b) cidr h
  parse_parts-inv (a ∷ b ∷ c ∷ rest) cidr h = absurd (ground arith)

  parse_host-known :
      (host digits : Text) (family prefix : ℕ)
      → normalize_ip host ≡ host
      → net.is_ip host ≡ family
      → not (family == 4) && not (family == 6) ≡ false
      → ltb (if family == 4 then 32 else 128) prefix ≡ false
      → one_to_three_digits digits ≡ true
      → number digits ≡ prefix
      → parse_host net host (some digits)
        ≡ some (record { address = host; prefix = prefix; family = family })
  unfolding parse_host
  parse_host-known host digits family prefix n f k l o e = rw (n, f, k, o, e) (ground arith)

  parse_host-cidr_text :
      (cidr : Cidr)
      → normalize_ip cidr.address ≡ cidr.address
      → net.is_ip cidr.address ≡ cidr.family
      → not (cidr.family == 4) && not (cidr.family == 6) ≡ false
      → ltb (if cidr.family == 4 then 32 else 128) cidr.prefix ≡ false
      → parse_cidr net (cidr_text cidr) ≡ some cidr
  unfolding parse_cidr parse_parts cidr_text
  parse_host-cidr_text cidr n f k l =
      let small : cidr.prefix < 1000 = ground arith in
      let digits = one_to_three_digits-decimal cidr.prefix small in
      let whole = plain cidr.address (rw f k) in
      let slashes =
        all-implies is_plain (λ c. not (c == b'/')) cidr.address (λ c e. ground arith) whole in
      let spaces =
        all-implies is_plain (λ c. not (is_space c)) cidr.address (λ c e. ground arith) whole in
      rw (trim-cidr_text cidr spaces) (
        rw
          (split_on-two b'/' cidr.address (decimal cidr.prefix) slashes
            (digits_no_slash cidr.prefix))
          (parse_host-known cidr.address (decimal cidr.prefix) cidr.family cidr.prefix n f k l
            digits (number-decimal cidr.prefix)))

  -- Where `isIP` accepts no text with white space or a slash, the text that a range is stored as is read back as that range.
  pub parse_cidr-cidr_text :
      (raw : Text) (cidr : Cidr)
      → parse_cidr net raw ≡ some cidr
      → parse_cidr net (cidr_text cidr) ≡ some cidr
  parse_cidr-cidr_text raw cidr h =
      let (n, f, k, l) = parse_parts-inv (split_on b'/' (trim raw)) cidr (unfold parse_cidr in h) in
      parse_host-cidr_text cidr n f k l
