-- ===== src/Identifiers/Characters.antt =====
-- Of which characters the texts are that the shapes of packages/api/src/domain/identifiers.ts accept.
use Prim.Native.Nat.{zero, suc}
use capbase.Base.{
  ℕ, ◌≡◌, refl, ap, ◌∙◌, inl, inr, Bool, true, ◌&&◌, ◌||◌, not, none, some, [], ◌∷◌, ◌++◌, ◌-◌,
  has_ℕ, ◌==◌, leb, Text, all, any, is_digit, is_upper, is_lower, all-implies, all-append, arith,
  Bool-cases, Option-cases,
}
use capbase.Identifiers.Shapes.{
  is_upper_alnum, prefix_of, exactly, is_lei_shape, is_qid, is_slug_char, is_company_path,
  in_region, after_country, is_opencorporates, is_symbol, in_exchange, ticker_groups,
  is_company_number, is_host_char, in_label, is_host, after_prefix, cut_path,
}

-- A character that is printed, and is no white space.
abbrev pub is_plain : ℕ → Bool
is_plain c = leb 33 c && leb c 126

-- A plain character that is no letter of the other case.
abbrev pub plain_upper : ℕ → Bool
plain_upper c = is_plain c && not (is_lower c)

abbrev pub plain_lower : ℕ → Bool
plain_lower c = is_plain c && not (is_upper c)

prefix_of-all :
    (n : ℕ) (p q : ℕ → Bool) (next : Text → Bool) (s : Text)
    → ((c : ℕ) → p c ≡ true → q c ≡ true)
    → ((t : Text) → next t ≡ true → all q t ≡ true)
    → prefix_of n p next s ≡ true
    → all q s ≡ true
unfolding prefix_of
prefix_of-all zero p q next s h k e = k s e
prefix_of-all (suc n) p q next [] h k e = refl
prefix_of-all (suc n) p q next (c ∷ s) h k e = ground (arith, h c, prefix_of-all n p q next s h k)

-- The characters of `exactly` a run.
exactly-all :
    (n : ℕ) (p q : ℕ → Bool) (s : Text)
    → ((c : ℕ) → p c ≡ true → q c ≡ true)
    → exactly n p s ≡ true
    → all q s ≡ true
exactly-all n p q s h e = all-implies p q s h (ground arith)

pub is_lei_shape-all : (s : Text) → is_lei_shape s ≡ true → all plain_upper s ≡ true
is_lei_shape-all s e =
    prefix_of-all 18 is_upper_alnum plain_upper (exactly 2 is_digit) s (λ c h. ground arith)
      (λ t. exactly-all 2 is_digit plain_upper t (λ c h. ground arith)) e

pub is_qid-all : (s : Text) → is_qid s ≡ true → all plain_upper s ≡ true
is_qid-all [] e = refl
is_qid-all (q ∷ []) e = ground arith
is_qid-all (q ∷ d ∷ s) e =
    let rest = all-implies is_digit plain_upper s (λ c h. ground arith) (ground arith) in
    ground arith

pub is_company_number-all : (s : Text) → is_company_number s ≡ true → all plain_upper s ≡ true
is_company_number-all s e = elim (Bool-cases (exactly 8 is_digit s)) [
  | inl digits ↦ exactly-all 8 is_digit plain_upper s (λ c h. ground arith) digits
  | inr not_digits ↦ elim (Bool-cases (prefix_of 2 is_upper (exactly 6 is_digit) s)) [
    | inl two ↦
        prefix_of-all 2 is_upper plain_upper (exactly 6 is_digit) s (λ c h. ground arith)
          (λ t. exactly-all 6 is_digit plain_upper t (λ c h. ground arith)) two
    | inr not_two ↦
        prefix_of-all 1 (λ c. c == b'R') plain_upper (exactly 7 is_digit) s (λ c h. ground arith)
          (λ t. exactly-all 7 is_digit plain_upper t (λ c h. ground arith)) (ground arith)
  ]
]

is_company_path-all : (s : Text) → is_company_path s ≡ true → all plain_lower s ≡ true
is_company_path-all [] e = refl
is_company_path-all (c ∷ s) e =
    let rest = all-implies is_slug_char plain_lower s (λ d h. ground arith) (ground arith) in
    ground arith

in_region-all : (s : Text) → in_region s ≡ true → all plain_lower s ≡ true
unfolding in_region
in_region-all [] e = refl
in_region-all (c ∷ s) e = ground (arith, in_region-all s, is_company_path-all (c ∷ s))

after_country-all : (s : Text) → after_country s ≡ true → all plain_lower s ≡ true
after_country-all [] e = refl
after_country-all (u ∷ []) e = ground arith
after_country-all (u ∷ c ∷ s) e = ground (arith, in_region-all s, is_company_path-all (u ∷ c ∷ s))

pub is_opencorporates-all : (s : Text) → is_opencorporates s ≡ true → all plain_lower s ≡ true
is_opencorporates-all s e =
    prefix_of-all 2 is_lower plain_lower after_country s (λ c h. ground arith) after_country-all e

-- The two groups of a ticker are the text before its first colon and behind it.
pub in_exchange_lem :
    (s exchange symbol : Text)
    → in_exchange s ≡ some (exchange, symbol)
    → (s ≡ exchange ++ b':' ∷ symbol) × (all plain_upper exchange ≡ true)
unfolding in_exchange
in_exchange_lem [] exchange symbol e = ground arith
in_exchange_lem (c ∷ s) exchange symbol e = elim (Option-cases (in_exchange s)) [
  | inl missing ↦ ground arith
  | inr ((before, behind), found) ↦ let ih = in_exchange_lem s before behind found in ground arith
]

is_symbol-all : (s : Text) → is_symbol s ≡ true → all plain_upper s ≡ true
is_symbol-all [] e = refl
is_symbol-all (c ∷ s) e =
    let rest =
      all-implies (λ d. is_upper_alnum d || has_ℕ d (b'.' ∷ b'-' ∷ [])) plain_upper s
        (λ d h. ground arith) (ground arith) in
    ground arith

-- A ticker is its two groups around the colon.
pub ticker_groups_lem :
    (s exchange symbol : Text)
    → ticker_groups s ≡ some (exchange, symbol)
    → (s ≡ exchange ++ b':' ∷ symbol) × (all plain_upper s ≡ true)
unfolding ticker_groups
ticker_groups_lem [] exchange symbol e = ground arith
ticker_groups_lem (c ∷ s) exchange symbol e = elim (Option-cases (in_exchange (c ∷ s))) [
  | inl missing ↦ ground arith
  | inr ((before, behind), found) ↦
      let parts = in_exchange_lem (c ∷ s) before behind found in
      let plain : all plain_upper (before ++ b':' ∷ behind) ≡ true =
        all-append plain_upper before (b':' ∷ behind)
        ∙ ground (arith, parts.1, is_symbol-all behind) in
      let whole : all plain_upper (c ∷ s) ≡ true = ap (all plain_upper) parts.0 ∙ plain in
      ground (arith, parts.0)
]

abbrev in_host : ℕ → Bool
in_host c = is_host_char c || c == b'.'

in_label-all : (dots last : ℕ) (s : Text) → in_label dots last s ≡ true → all in_host s ≡ true
unfolding in_label
in_label-all dots last [] e = refl
in_label-all dots last (c ∷ s) e = elim (Bool-cases (c == b'.')) [
  | inl dot ↦ ground (arith, in_label-all (dots - 1) b'.' s)
  | inr other ↦ ground (arith, in_label-all dots c s)
]

pub is_host-all : (s : Text) → is_host s ≡ true → all plain_lower s ≡ true
is_host-all s e = all-implies in_host plain_lower s (λ c h. ground arith) (in_label-all 1 b'.' s e)

-- A host has neither a colon nor a slash.
abbrev pub no_slash : ℕ → Bool
no_slash c = not (c == b'/' || c == b':')

pub is_host-no_slash : (s : Text) → is_host s ≡ true → all no_slash s ≡ true
is_host-no_slash s e =
    all-implies in_host no_slash s (λ c h. ground arith) (in_label-all 1 b'.' s e)

pub cut_path-none : (s : Text) → all no_slash s ≡ true → cut_path s ≡ s
unfolding cut_path
cut_path-none [] h = refl
cut_path-none (c ∷ s) h = ground (arith, cut_path-none s)

-- A prefix that has a colon is no prefix of such a text.
pub after_prefix-none :
    (prefix s : Text)
    → any (λ c. c == b':') prefix ≡ true
    → all no_slash s ≡ true
    → after_prefix prefix s ≡ none
unfolding after_prefix
after_prefix-none [] s h k = ground arith
after_prefix-none (p ∷ ps) [] h k = refl
after_prefix-none (p ∷ ps) (c ∷ s) h k = ground (arith, after_prefix-none ps s)
