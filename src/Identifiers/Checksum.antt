-- ===== src/Identifiers/Checksum.antt =====
-- The checksum of an LEI (`isValidLei` of packages/api/src/domain/identifiers.ts).
use capbase.Base.{
  ℕ, ◌+◌, ◌-◌, ◌*◌, ◌%◌, ◌<◌, ◌≡◌, refl, sym, ap, ◌∙◌, inl, inr, Bool, true, false, ◌&&◌, ◌||◌,
  none, some, [], ◌∷◌, ◌++◌, ◌==◌, leb, if◌then◌else◌, Text, CaseTables, is_digit, is_upper, arith,
  Bool-cases, all-append, all-implies, trim, all, to_upper,
}
use capbase.Identifiers.Shapes.{is_upper_alnum}
use capbase.Identifiers.Normalize.{
  lei_step, lei_remainder, is_valid_lei, lei, normalize_lei, normalize_trimmed,
  normalize_identifier,
}
use capbase.Identifiers.Characters.{is_plain, plain_upper, is_lei_shape-all}
use capbase.Identifiers.Idempotent.{to_upper-plain, trim-plain}

-- ISO 7064: each character a number of one or two places, and all of them read as one number.
unfoldable pub lei_number_from : ℕ → Text → ℕ
lei_number_from n [] = n
lei_number_from n (c ∷ s) =
    if leb c b'9'
    then lei_number_from (n * 10 + (c - b'0')) s
    else lei_number_from (n * 100 + (c - b'A' + 10)) s

-- Every character is at least a digit.
lei_remainder-number :
    (n : ℕ) (s : Text)
    → all is_upper_alnum s ≡ true
    → lei_remainder (n % 97) s ≡ lei_number_from n s % 97
unfolding lei_remainder lei_number_from
lei_remainder-number n [] h = refl
lei_remainder-number n (c ∷ s) h = elim (Bool-cases (leb c 57)) [
  | inl digit ↦
      let step : (n % 97 * 10 + (c - 48)) % 97 ≡ (n * 10 + (c - 48)) % 97 = omega arith in
      rw digit (
        ap (λ r. lei_remainder r s) step
        ∙ lei_remainder-number (n * 10 + (c - 48)) s (ground arith))
  | inr letter ↦
      let big : leb 65 c ≡ true = ground arith in
      let step : (n % 97 * 100 + (c - 55)) % 97 ≡ (n * 100 + (c - 65 + 10)) % 97 = ground arith in
      rw letter (
        ap (λ r. lei_remainder r s) step
        ∙ lei_remainder-number (n * 100 + (c - 65 + 10)) s (ground arith))
]

-- One round tells two remainders apart, and two characters of a kind.
lei_step-injective : (a b c : ℕ) → a < 97 → b < 97 → lei_step a c ≡ lei_step b c → a ≡ b
lei_step-injective a b c h k e = ground arith

abbrev pub same_kind : ℕ → ℕ → Bool
same_kind c d = is_digit c && is_digit d || is_upper c && is_upper d

lei_step-char : (a c d : ℕ) → a < 97 → same_kind c d ≡ true → lei_step a c ≡ lei_step a d → c ≡ d
lei_step-char a c d h k e = ground arith

lei_step-Small : (a c : ℕ) → lei_step a c < 97
lei_step-Small a c = ground arith

lei_remainder-Small : (a : ℕ) (s : Text) → a < 97 → lei_remainder a s < 97
unfolding lei_remainder
lei_remainder-Small a [] h = h
lei_remainder-Small a (c ∷ s) h = lei_remainder-Small (lei_step a c) s (lei_step-Small a c)

lei_remainder-injective :
    (a b : ℕ) (s : Text) → a < 97 → b < 97 → lei_remainder a s ≡ lei_remainder b s → a ≡ b
unfolding lei_remainder
lei_remainder-injective a b [] h k e = e
lei_remainder-injective a b (c ∷ s) h k e = lei_step-injective a b c h k (
    lei_remainder-injective (lei_step a c) (lei_step b c) s (lei_step-Small a c)
      (lei_step-Small b c) e)

lei_remainder-append :
    (a : ℕ) (s t : Text) → lei_remainder a (s ++ t) ≡ lei_remainder (lei_remainder a s) t
unfolding lei_remainder
lei_remainder-append a [] t = refl
lei_remainder-append a (c ∷ s) t = lei_remainder-append (lei_step a c) s t

-- Two valid texts that differ in one character at most, of one kind, are the same.
lei_remainder-substitution :
    (s t : Text) (c d : ℕ)
    → same_kind c d ≡ true
    → lei_remainder 0 (s ++ c ∷ t) ≡ lei_remainder 0 (s ++ d ∷ t)
    → c ≡ d
unfolding lei_remainder
lei_remainder-substitution s t c d k e =
    let r = lei_remainder 0 s in
    let small = lei_remainder-Small 0 s (omega arith) in
    let tails = sym (lei_remainder-append 0 s (c ∷ t)) ∙ e ∙ lei_remainder-append 0 s (d ∷ t) in
    lei_step-char r c d small k (
      lei_remainder-injective (lei_step r c) (lei_step r d) t (lei_step-Small r c)
        (lei_step-Small r d) tails)

-- The remainder that `isValidLei` folds is that of the whole number: on letters and digits it accepts
-- exactly the texts whose number leaves 1 modulo 97.
pub is_valid_lei-number :
    (s : Text) → all is_upper_alnum s ≡ true → is_valid_lei s ≡ (lei_number_from 0 s % 97 == 1)
unfolding is_valid_lei
is_valid_lei-number s h = ap (λ r. r == 1) (lei_remainder-number 0 s h)

-- What a substitution of a character by one of its kind keeps.
plain_upper-substitution :
    (s t : Text) (c d : ℕ)
    → same_kind c d ≡ true
    → all plain_upper (s ++ c ∷ t) ≡ true
    → all plain_upper (s ++ d ∷ t) ≡ true
plain_upper-substitution s t c d k h =
    ground (arith, all-append plain_upper s (c ∷ t), all-append plain_upper s (d ∷ t))

normalize_lei-valid :
    (s v : Text)
    → normalize_lei s ≡ some v
    → (s ≡ v) × (all plain_upper v ≡ true) × (lei_remainder 0 v ≡ 1)
unfolding normalize_lei is_valid_lei
normalize_lei-valid s v e = ground (arith, is_lei_shape-all s)

normalize_lei-substitution :
    (s t : Text) (c d : ℕ)
    → same_kind c d ≡ true
    → (c == d) ≡ false
    → lei_remainder 0 (s ++ c ∷ t) ≡ 1
    → normalize_lei (s ++ d ∷ t) ≡ none
unfolding normalize_lei is_valid_lei
normalize_lei-substitution s t c d k n e = ground (arith, lei_remainder-substitution s t c d k)

-- A canonical LEI in which one digit is replaced by another digit, or one letter by another letter,
-- is refused.
pub normalize_identifier-substitution :
    (tables : CaseTables) (raw s t : Text) (c d : ℕ)
    → normalize_identifier tables lei raw ≡ some (s ++ c ∷ t)
    → same_kind c d ≡ true
    → (c == d) ≡ false
    → normalize_identifier tables lei (s ++ d ∷ t) ≡ none
unfolding normalize_identifier normalize_trimmed
normalize_identifier-substitution tables raw s t c d e k n =
    let old = s ++ c ∷ t in
    let new = s ++ d ∷ t in
    let valid = normalize_lei-valid (to_upper tables (trim raw)) old (ground arith) in
    let plain = plain_upper-substitution s t c d k valid.1 in
    let same = trim-plain new (all-implies plain_upper is_plain new (λ x h. ground arith) plain) in
    rw (same, to_upper-plain tables new plain, normalize_lei-substitution s t c d k n valid.2)
      (ground arith)
