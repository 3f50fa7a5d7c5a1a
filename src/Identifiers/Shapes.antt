-- ===== src/Identifiers/Shapes.antt =====
-- The shapes that packages/api/src/domain/identifiers.ts tests with regular expressions, and the
-- replacements that it makes, one function for each expression.
use Prim.Native.Nat.{zero, suc}
use capbase.Base.{
  ℕ, Bool, false, ◌&&◌, ◌||◌, not, [], ◌∷◌, ◌++◌, ◌==◌, leb, if◌then◌else◌, Text, all, any, length,
  is_digit, is_upper, is_lower, has_ℕ, ◌-◌, Option, none, some, or_else, or_option,
}

abbrev pub is_upper_alnum : ℕ → Bool
is_upper_alnum c = is_upper c || is_digit c

abbrev pub is_lower_alnum : ℕ → Bool
is_lower_alnum c = is_lower c || is_digit c

-- `/^\d{1,most}$/`
abbrev pub is_number : ℕ → Text → Bool
is_number most s = all is_digit s && (leb 1 (length s) && leb (length s) most)

-- `/^\d+$/`
abbrev pub is_digits : Text → Bool
is_digits s = all is_digit s && leb 1 (length s)

-- The first `n` characters pass `p`, and what follows them passes `then`.
unfoldable pub prefix_of : ℕ → (ℕ → Bool) → (Text → Bool) → Text → Bool
prefix_of zero p next s = next s
prefix_of (suc n) p next [] = false
prefix_of (suc n) p next (c ∷ s) = p c && prefix_of n p next s

-- `[…]{n}$`
abbrev pub exactly : ℕ → (ℕ → Bool) → Text → Bool
exactly n p s = all p s && length s == n

-- `/^[0-9A-Z]{18}[0-9]{2}$/`
abbrev pub is_lei_shape : Text → Bool
is_lei_shape s = prefix_of 18 is_upper_alnum (exactly 2 is_digit) s

-- `/^Q[1-9]\d*$/`
abbrev pub is_qid : Text → Bool
is_qid (q ∷ d ∷ s) = q == b'Q' && (is_digit d && not (d == b'0')) && all is_digit s
is_qid _ = false

abbrev pub is_slug_char : ℕ → Bool
is_slug_char c = is_lower_alnum c || has_ℕ c (b'_' ∷ b'-' ∷ [])

-- `\/[a-z0-9_-]+$`
abbrev pub is_company_path : Text → Bool
is_company_path [] = false
is_company_path (c ∷ s) = c == b'/' && (all is_slug_char s && leb 1 (length s))

-- The rest of a run `[a-z0-9]*`, before the path.
unfoldable pub in_region : Text → Bool
in_region [] = false
in_region (c ∷ s) = if is_lower_alnum c then in_region s else is_company_path (c ∷ s)

-- `(_[a-z0-9]+)?`, before the path.
abbrev pub after_country : Text → Bool
after_country (u ∷ c ∷ s) =
    if u == b'_' then is_lower_alnum c && in_region s else is_company_path (u ∷ c ∷ s)
after_country s = is_company_path s

-- `/^[a-z]{2}(_[a-z0-9]+)?\/[a-z0-9_-]+$/`
abbrev pub is_opencorporates : Text → Bool
is_opencorporates s = prefix_of 2 is_lower after_country s

-- `([A-Z0-9][A-Z0-9.-]*)$`
abbrev pub is_symbol : Text → Bool
is_symbol [] = false
is_symbol (c ∷ s) = is_upper_alnum c && all (λ d. is_upper_alnum d || has_ℕ d (b'.' ∷ b'-' ∷ [])) s

-- `[A-Z0-9.]*` up to the first colon: what stands before it and what behind.
unfoldable pub in_exchange : Text → Option (Text × Text)
in_exchange [] = none
in_exchange (c ∷ s) =
    let more = in_exchange s in
    if is_upper_alnum c || c == b'.'
    then elim more [ none ↦ none | some (before, behind) ↦ some (c ∷ before, behind) ]
    else if c == b':'
    then some ([], s)
    else none

-- The two groups of `/^([A-Z][A-Z0-9.]*):([A-Z0-9][A-Z0-9.-]*)$/`.
unfoldable pub ticker_groups : Text → Option (Text × Text)
ticker_groups [] = none
ticker_groups (c ∷ s) = elim (in_exchange (c ∷ s)) [
  | none ↦ none
  | some (exchange, symbol) ↦
      if is_upper c && is_symbol symbol then some (exchange, symbol) else none
]

-- `[A-HJ-NP-Z0-9]`
abbrev pub is_uei_char : ℕ → Bool
is_uei_char c = is_upper_alnum c && not (has_ℕ c (b'I' ∷ b'O' ∷ []))

-- `/^(\d{8}|[A-Z]{2}\d{6}|R\d{7})$/`
abbrev pub is_company_number : Text → Bool
is_company_number s =
    exactly 8 is_digit s
    || prefix_of 2 is_upper (exactly 6 is_digit) s
    || prefix_of 1 (λ c. c == b'R') (exactly 7 is_digit) s

-- `/^[A-Za-z0-9-]{1,64}$/`
abbrev pub is_partner_char : ℕ → Bool
is_partner_char c = is_upper c || is_lower_alnum c || c == b'-'

abbrev pub is_partner_id : Text → Bool
is_partner_id s = all is_partner_char s && (leb 1 (length s) && leb (length s) 64)

-- `[a-z0-9-]`
abbrev pub is_host_char : ℕ → Bool
is_host_char c = is_lower_alnum c || c == b'-'

-- `[a-z0-9]([a-z0-9-]*[a-z0-9])?` and then `(\.…)+$`, of which `dots` labels are still wanted: `last`
-- is the character before, and a label ends on a letter or a digit.
unfoldable pub in_label : ℕ → ℕ → Text → Bool
in_label dots last [] = is_lower_alnum last && dots == 0
in_label dots last (c ∷ s) =
    if c == b'.'
    then is_lower_alnum last && in_label (dots - 1) b'.' s
    else is_host_char c && (not (last == b'.') || is_lower_alnum c) && in_label dots c s

-- `/^[a-z0-9]([a-z0-9-]*[a-z0-9])?(\.[a-z0-9]([a-z0-9-]*[a-z0-9])?)+$/`
abbrev pub is_host : Text → Bool
is_host s = in_label 1 b'.' s

-- `text.startsWith(prefix)`, and what follows the prefix.
unfoldable pub after_prefix : Text → Text → Option Text
after_prefix [] s = some s
after_prefix (p ∷ ps) [] = none
after_prefix (p ∷ ps) (c ∷ s) = if p == c then after_prefix ps s else none

-- `.replace(/^prefix/, '')`
abbrev pub remove_prefix : Text → Text → Text
remove_prefix prefix s = or_else (after_prefix prefix s) s

abbrev pub www : Text
www = b'w' ∷ b'w' ∷ b'w' ∷ b'.' ∷ []

abbrev pub http : Text
http = b'h' ∷ b't' ∷ b't' ∷ b'p' ∷ []

abbrev pub authority : Text
authority = b':' ∷ b'/' ∷ b'/' ∷ []

-- `.replace(/^https?:\/\//, '')`
abbrev pub remove_scheme : Text → Text
remove_scheme s =
    or_else
      (or_option (after_prefix (http ++ authority) s) (after_prefix (http ++ b's' ∷ authority) s)) s

abbrev pub is_line_end : ℕ → Bool
is_line_end c = has_ℕ c (10 ∷ 13 ∷ 8232 ∷ 8233 ∷ [])

-- `.replace(/\/.*$/, '')`: from the first slash with no line end behind it.
unfoldable pub cut_path : Text → Text
cut_path [] = []
cut_path (c ∷ s) = if c == b'/' && not (any is_line_end s) then [] else c ∷ cut_path s
