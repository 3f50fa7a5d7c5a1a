-- ===== src/Identifiers/Settled.antt =====
-- A canonical identifier is its own canonical form (packages/api/src/domain/identifiers.ts).
use capbase.Base.{
  ℕ, ◌≡◌, refl, sym, ap, ◌∙◌, inl, inr, Bool, true, false, Option, none, some, [], ◌∷◌, ◌++◌, ◌==◌,
  leb, Text, drop_while, drop_while_idempotent, pad_start, length-pad_start, all-pad_start,
  pad_start-full, all-drop_while, eq_text-empty, length, is_digit, all, arith, Bool-cases,
  Option-cases,
}
use capbase.Identifiers.Shapes.{
  is_number, is_lei_shape, ticker_groups, is_company_number, is_host, remove_scheme, cut_path,
  remove_prefix, www, after_prefix, prefix_of, in_label, http, authority,
}
use capbase.Identifiers.Normalize.{
  only_if, normalize_padded, normalize_crd, normalize_ticker, pad_company_number,
  check_company_number, normalize_company_number, normalize_lei, normalize_host,
}
use capbase.Identifiers.Characters.{
  plain_upper, plain_lower, is_lei_shape-all, is_company_number-all, ticker_groups_lem, is_host-all,
  is_host-no_slash, cut_path-none, after_prefix-none,
}

pub only_if-some : (b : Bool) (s v : Text) → only_if b s ≡ some v → (b ≡ true) × (s ≡ v)
only_if-some b s v e = ground arith

-- What a branch gives for `v` itself, and of which characters `v` is.
abbrev pub Fixed : (Text → Option Text) → (ℕ → Bool) → Text → Type 0
Fixed f p v = (f v ≡ some v) × (all p v ≡ true) × (leb 1 (length v) ≡ true)

-- A text that passes a test which the empty text fails has a character.
nonempty :
    (test : Text → Bool) (v : Text) → test [] ≡ false → test v ≡ true → leb 1 (length v) ≡ true
nonempty test [] n e = ground arith
nonempty test (c ∷ v) n e = ground arith

pub normalize_padded-Fixed :
    (width : ℕ) (t v : Text)
    → leb 1 width ≡ true
    → normalize_padded width t ≡ some v
    → Fixed (normalize_padded width) is_digit v
unfolding normalize_padded
normalize_padded-Fixed width t v one e = elim (Bool-cases (is_number width t)) [
  | inr refused ↦ ground arith
  | inl number ↦
      let padded : pad_start width b'0' t ≡ v = ground arith in
      let long = length-pad_start width b'0' t (ground arith) in
      let digits = all-pad_start is_digit width b'0' t refl (ground arith) in
      let full = pad_start-full width b'0' (pad_start width b'0' t) long in ground arith
]

pub normalize_crd-Fixed : (t v : Text) → normalize_crd t ≡ some v → Fixed normalize_crd is_digit v
unfolding normalize_crd
normalize_crd-Fixed t v e =
    let zero : ℕ → Bool = λ c. c == b'0' in
    let digits = all-drop_while zero is_digit t in
    ground (arith, drop_while_idempotent zero t, eq_text-empty (drop_while zero t), digits)

pub only_if-Fixed :
    (test : Text → Bool) (p : ℕ → Bool) (s v : Text)
    → ((u : Text) → test u ≡ true → all p u ≡ true)
    → test [] ≡ false
    → only_if (test s) s ≡ some v
    → Fixed (λ u. only_if (test u) u) p v
only_if-Fixed test p [] v h n e = ground arith
only_if-Fixed test p (c ∷ s) v h n e = ground (arith, h (c ∷ s))

nonempty_middle : (s t : Text) → leb 1 (length (s ++ b':' ∷ t)) ≡ true
nonempty_middle [] t = ground arith
nonempty_middle (c ∷ s) t = ground arith

pub normalize_ticker-Fixed :
    (s v : Text) → normalize_ticker s ≡ some v → Fixed normalize_ticker plain_upper v
unfolding normalize_ticker
normalize_ticker-Fixed s v e = elim (Option-cases (ticker_groups s)) [
  | inl missing ↦ ground arith
  | inr ((exchange, symbol), found) ↦
      let whole = ticker_groups_lem s exchange symbol found in
      let long : leb 1 (length (exchange ++ b':' ∷ symbol)) ≡ true =
        nonempty_middle exchange symbol in
      ground (arith, found, whole, long)
]

pad_company_number_idempotent :
    (s : Text) → pad_company_number (pad_company_number s) ≡ pad_company_number s
unfolding pad_company_number
pad_company_number_idempotent s = elim (Bool-cases (is_number 8 s)) [
  | inl number ↦
      let long = length-pad_start 8 b'0' s (ground arith) in
      let full = pad_start-full 8 b'0' (pad_start 8 b'0' s) long in rw number (ground (arith, full))
  | inr other ↦ ground arith
]

check_company_number-some :
    (s v : Text)
    → check_company_number s ≡ some v
    → (s ≡ v) × (all plain_upper v ≡ true) × (leb 1 (length v) ≡ true)
unfolding check_company_number prefix_of
check_company_number-some s v e =
    let test : is_company_number s ≡ true = ground arith in
    let same : s ≡ v = ground arith in
    rw (sym same) (refl, is_company_number-all s test, nonempty is_company_number s refl test)

pub normalize_company_number-Fixed :
    (s v : Text)
    → normalize_company_number s ≡ some v
    → Fixed normalize_company_number plain_upper v
unfolding normalize_company_number
normalize_company_number-Fixed s v e =
    let u = pad_company_number s in
    let parts = check_company_number-some u v e in
    let same : pad_company_number v ≡ u =
      ap pad_company_number (sym parts.0) ∙ pad_company_number_idempotent s in
    (ap check_company_number same ∙ e, parts.1, parts.2)

pub normalize_lei-Fixed :
    (s v : Text) → normalize_lei s ≡ some v → Fixed normalize_lei plain_upper v
unfolding normalize_lei prefix_of
normalize_lei-Fixed s v e = ground (arith, is_lei_shape-all s, nonempty is_lei_shape s refl)

pub normalize_host-Fixed :
    (s v : Text)
    → normalize_host s ≡ some v
    → after_prefix www v ≡ none
    → Fixed normalize_host plain_lower v
unfolding normalize_host in_label
normalize_host-Fixed s v e h =
    let host = remove_prefix www (cut_path (remove_scheme s)) in
    let parts = only_if-some (is_host host) host v e in
    let is : is_host v ≡ true = ap is_host (sym parts.1) ∙ parts.0 in
    let plain = is_host-no_slash v is in
    rw
      (
        after_prefix-none (http ++ authority) v refl plain,
        after_prefix-none (http ++ b's' ∷ authority) v refl plain,
        cut_path-none v plain,
        h,
        is,
      )
      (refl, is_host-all v is, nonempty is_host v refl is)
