-- ===== src/Identifiers/Numbers.antt =====
-- The numeric schemes of packages/api/src/domain/identifiers.ts: CIK, CRD and DUNS.
use Prim.Native.Nat.{zero, suc}
use capbase.Base.{
  number, number_from, ℕ, ◌+◌, ◌-◌, ◌*◌, ◌≡◌, refl, sym, ap, ◌∙◌, ◌↔◌, inl, inr, Bool, true, false,
  some, [], ◌∷◌, ◌++◌, ◌==◌, leb, Text, CaseTables, trim, drop_while, pad_start, length-pad_start,
  all-pad_start, repeat, length, is_digit, all, arith, Bool-cases,
}
use capbase.Identifiers.Normalize.{
  IdentifierScheme, cik, crd, duns, normalize_padded, normalize_crd, normalize_trimmed,
  normalize_identifier,
}

number-repeat : (n : ℕ) (s : Text) → number (repeat n b'0' ++ s) ≡ number s
unfolding number number_from repeat
number-repeat zero s = refl
number-repeat (suc n) s = number-repeat n s

number-pad_start : (n : ℕ) (s : Text) → number (pad_start n b'0' s) ≡ number s
unfolding pad_start
number-pad_start n s = number-repeat (n - length s) s

abbrev is_zero : ℕ → Bool
is_zero c = c == b'0'

number-drop_while : (s : Text) → number (drop_while is_zero s) ≡ number s
unfolding drop_while number number_from
number-drop_while [] = refl
number-drop_while (c ∷ s) = elim (Bool-cases (c == b'0')) [
  | inl same ↦
      let q : b'0' ≡ c = ground arith in
      rw same (number-drop_while s ∙ ap (λ x. number_from (0 * 10 + (x - b'0')) s) q)
  | inr other ↦ rw other refl
]

-- Digits of one length that write one number are the same digits.
number_from-injective :
    (a b : ℕ) (s t : Text)
    → length s ≡ length t
    → all is_digit s ≡ true
    → all is_digit t ≡ true
    → number_from a s ≡ number_from b t
    → (a ≡ b) × (s ≡ t)
unfolding number_from
number_from-injective a b [] [] l d k e = (e, refl)
number_from-injective a b [] (c ∷ t) l d k e = ground arith
number_from-injective a b (c ∷ s) [] l d k e = ground arith
number_from-injective a b (c ∷ s) (x ∷ t) l d k e =
    let ih =
      number_from-injective (a * 10 + (c - b'0')) (b * 10 + (x - b'0')) s t (ground arith)
        (ground arith) (ground arith) e in
    ground (arith, ih)

pad_start-number :
    (n : ℕ) (s t : Text)
    → all is_digit s ≡ true
    → all is_digit t ≡ true
    → leb (length s) n ≡ true
    → leb (length t) n ≡ true
    → number s ≡ number t
    → pad_start n b'0' s ≡ pad_start n b'0' t
unfolding number
pad_start-number n s t d k l m e =
    (number_from-injective 0 0 (pad_start n b'0' s) (pad_start n b'0' t)
      (length-pad_start n b'0' s l ∙ sym (length-pad_start n b'0' t m))
      (all-pad_start is_digit n b'0' s refl d) (all-pad_start is_digit n b'0' t refl k)
      (number-pad_start n s ∙ e ∙ sym (number-pad_start n t))).1

normalize_padded-some :
    (n : ℕ) (t v : Text)
    → normalize_padded n t ≡ some v
    → (pad_start n b'0' t ≡ v) × (all is_digit t ≡ true) × (leb (length t) n ≡ true)
unfolding normalize_padded
normalize_padded-some n t v e = ground arith

normalize_padded-number :
    (n : ℕ) (s t v w : Text)
    → normalize_padded n s ≡ some v
    → normalize_padded n t ≡ some w
    → (v ≡ w) ↔ (number s ≡ number t)
normalize_padded-number n s t v w e f =
    let p = normalize_padded-some n s v e in
    let q = normalize_padded-some n t w f in
    (
      (λ same.
          sym (number-pad_start n s) ∙ ap number (p.0 ∙ same ∙ sym q.0) ∙ number-pad_start n t),
      (λ same. sym p.0 ∙ pad_start-number n s t p.1 q.1 p.2 q.2 same ∙ q.0),
    )

drop_while-repeat :
    (n : ℕ) (s : Text) → drop_while is_zero (repeat n b'0' ++ s) ≡ drop_while is_zero s
unfolding drop_while repeat
drop_while-repeat zero s = refl
drop_while-repeat (suc n) s = drop_while-repeat n s

drop_while-pad_start :
    (n : ℕ) (s : Text) → drop_while is_zero (pad_start n b'0' s) ≡ drop_while is_zero s
unfolding pad_start
drop_while-pad_start n s = drop_while-repeat (n - length s) s

normalize_crd-some :
    (t v : Text) → normalize_crd t ≡ some v → (drop_while is_zero t ≡ v) × (all is_digit t ≡ true)
unfolding normalize_crd
normalize_crd-some t v e = ground arith

normalize_crd-number :
    (s t v w : Text)
    → normalize_crd s ≡ some v
    → normalize_crd t ≡ some w
    → (v ≡ w) ↔ (number s ≡ number t)
normalize_crd-number s t v w e f =
    let p = normalize_crd-some s v e in
    let q = normalize_crd-some t w f in
    let n = length s + length t in
    (
      (λ same. sym (number-drop_while s) ∙ ap number (p.0 ∙ same ∙ sym q.0) ∙ number-drop_while t),
      (λ same.
          sym p.0
          ∙ sym (drop_while-pad_start n s)
          ∙ ap (drop_while is_zero)
              (pad_start-number n s t p.1 q.1 (ground arith) (ground arith) same)
          ∙ drop_while-pad_start n t
          ∙ q.0),
    )

abbrev pub is_numeric : IdentifierScheme → Bool
is_numeric cik = true
is_numeric crd = true
is_numeric duns = true
is_numeric _ = false

normalize_trimmed-number :
    (tables : CaseTables) (scheme : IdentifierScheme) (s t v w : Text)
    → is_numeric scheme ≡ true
    → normalize_trimmed tables scheme s ≡ some v
    → normalize_trimmed tables scheme t ≡ some w
    → (v ≡ w) ↔ (number s ≡ number t)
unfolding normalize_trimmed
normalize_trimmed-number tables cik s t v w h = normalize_padded-number 10 s t v w
normalize_trimmed-number tables crd s t v w h = normalize_crd-number s t v w
normalize_trimmed-number tables duns s t v w h = normalize_padded-number 9 s t v w
normalize_trimmed-number tables _ s t v w h = ground arith

-- Two spellings of a CIK, a CRD or a DUNS number have one canonical form exactly when they write one
-- number.
pub normalize_identifier-number :
    (tables : CaseTables) (scheme : IdentifierScheme) (a b v w : Text)
    → is_numeric scheme ≡ true
    → normalize_identifier tables scheme a ≡ some v
    → normalize_identifier tables scheme b ≡ some w
    → (v ≡ w) ↔ (number (trim a) ≡ number (trim b))
unfolding normalize_identifier
normalize_identifier-number tables scheme a b v w h e f =
    normalize_trimmed-number tables scheme (trim a) (trim b) v w h (ground arith) (ground arith)
