-- ===== src/Geography/Canonical.antt =====
-- `normalizeCountryCode` gives canonical codes (packages/api/src/domain/geography.ts).
use mathlib.Core.Bool.{true≢false}
use capbase.Base.{
  ◌≡◌, refl, sym, ap, ◌∙◌, inl, inr, Bool, true, false, not, ◌&&◌, ◌==◌, Option, some, [], ◌∷◌,
  Text, CaseTables, to_upper, to_upper-none, trim, strip_both-none, is_space, eq_text, eq_text-same,
  has_text, or_else, all, all-implies, length, is_upper, is_lower, is_ascii, arith, Bool-cases,
}
use capbase.Geography.Countries.{
  with_first, lines, country_codes, code_alias, assigned, normalize_country_code,
}

-- Two capitals.
abbrev pub is_code : Text → Bool
is_code s = all is_upper s && length s == 2

code_alias-is_code : (s : Text) → is_code s ≡ true → is_code (code_alias s) ≡ true
unfolding code_alias
code_alias-is_code s h = ground arith

-- No alias is an assigned code.
has_text-aliases :
    (has_text (b'U' ∷ b'K' ∷ []) country_codes ≡ false)
    × (has_text (b'E' ∷ b'L' ∷ []) country_codes ≡ false)
unfolding has_text eq_text with_first lines
has_text-aliases = (refl, refl)

code_alias-assigned : (s : Text) → has_text s country_codes ≡ true → code_alias s ≡ s
unfolding code_alias
code_alias-assigned s h = elim (Bool-cases (eq_text s (b'U' ∷ b'K' ∷ []))) [
  | inl uk ↦
      let clash = ap (λ x. has_text x country_codes) (eq_text-same s (b'U' ∷ b'K' ∷ []) uk) in
      absurd (true≢false (sym h ∙ clash ∙ has_text-aliases.0))
  | inr other ↦ elim (Bool-cases (eq_text s (b'E' ∷ b'L' ∷ []))) [
    | inl el ↦
        let clash = ap (λ x. has_text x country_codes) (eq_text-same s (b'E' ∷ b'L' ∷ []) el) in
        absurd (true≢false (sym h ∙ clash ∙ has_text-aliases.1))
    | inr plain ↦ rw (other, plain) refl
  ]
]

trim-code : (s : Text) → is_code s ≡ true → trim s ≡ s
unfolding trim
trim-code s h =
    strip_both-none is_space s
      (all-implies is_upper (λ c. not (is_space c)) s (λ c e. ground arith) (ground arith))

to_upper-code : (tables : CaseTables) (s : Text) → is_code s ≡ true → to_upper tables s ≡ s
to_upper-code tables s h = to_upper-none tables s (
    all-implies is_upper (λ c. is_ascii c && not (is_lower c)) s (λ c e. ground arith)
      (ground arith))

assigned-some : (s v : Text) → assigned s ≡ some v → (s ≡ v) × (has_text v country_codes ≡ true)
unfolding assigned
assigned-some s v e = elim (Bool-cases (has_text s country_codes)) [
  | inl present ↦
      let same : s ≡ v = ground (arith, present) in
      (same, ap (λ x. has_text x country_codes) (sym same) ∙ present)
  | inr missing ↦ ground (arith, missing)
]

again :
    (tables : CaseTables) (v : Text)
    → has_text v country_codes ≡ true
    → is_code v ≡ true
    → normalize_country_code tables (some v) ≡ some v
unfolding normalize_country_code assigned
again tables v h c =
    rw (trim-code v c, to_upper-code tables v c, c, code_alias-assigned v h, h) refl

-- A country code is canonical: it is one of the assigned ISO codes, two capitals, and its own
-- canonical form, so that no alias is stored.
pub normalize_country_code_idempotent :
    (tables : CaseTables) (raw : Option Text) (v : Text)
    → normalize_country_code tables raw ≡ some v
    → (has_text v country_codes ≡ true)
      × (is_code v ≡ true)
      × (normalize_country_code tables (some v) ≡ some v)
unfolding normalize_country_code
normalize_country_code_idempotent tables raw v e =
    let upper = to_upper tables (trim (or_else raw [])) in
    elim (Bool-cases (is_code upper)) [
      | inr refused ↦ ground (arith, refused)
      | inl shape ↦
          let given : assigned (code_alias upper) ≡ some v = ground (arith, shape) in
          let parts = assigned-some (code_alias upper) v given in
          let code : is_code v ≡ true = ap is_code (sym parts.0) ∙ code_alias-is_code upper shape in
          (parts.1, code, again tables v parts.1 code)
    ]
