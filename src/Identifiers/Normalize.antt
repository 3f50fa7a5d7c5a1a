-- ===== src/Identifiers/Normalize.antt =====
-- `isValidLei` and `normalizeIdentifier` of packages/api/src/domain/identifiers.ts, one function for
-- each branch of the switch on the scheme, from the trimmed text. The `default` branch, which a
-- scheme of the type never takes, has no function.
use capbase.Base.{
  ℕ, ◌+◌, ◌-◌, ◌*◌, ◌%◌, Bool, not, Option, none, some, [], ◌∷◌, ◌++◌, ◌==◌, leb, if◌then◌else◌,
  Text, CaseTables, to_upper, to_lower, trim, drop_while, strip_both, pad_start, repeat, eq_text,
  keep, is_space,
}
use capbase.Identifiers.Shapes.{
  is_number, is_digits, is_lei_shape, is_qid, is_opencorporates, ticker_groups, is_uei_char,
  exactly, is_company_number, is_partner_id, is_host, remove_scheme, cut_path, remove_prefix, www,
}

pub data IdentifierScheme : Type 0 where
  lei cik crd wikidata opencorporates ticker uei duns companies_house domain partner :
      IdentifierScheme

-- `identifier` when the test holds, else null.
abbrev pub only_if : Bool → Text → Option Text
only_if test s = if test then some s else none

-- One round of the loop of `isValidLei`.
abbrev pub lei_step : ℕ → ℕ → ℕ
lei_step remainder code =
    if leb code 57
    then (remainder * 10 + (code - 48)) % 97
    else (remainder * 100 + (code - 55)) % 97

unfoldable pub lei_remainder : ℕ → Text → ℕ
lei_remainder remainder [] = remainder
lei_remainder remainder (char ∷ value) = lei_remainder (lei_step remainder char) value

unfoldable pub is_valid_lei : Text → Bool
unfolding lei_remainder
is_valid_lei value = lei_remainder 0 value == 1

-- CIK at width 10 and DUNS at width 9: zeros before a number, which is not all zeros.
unfoldable pub normalize_padded : ℕ → Text → Option Text
normalize_padded width trimmed =
    let padded = pad_start width b'0' trimmed in
    if not (is_number width trimmed)
    then none
    else if eq_text padded (repeat width b'0')
    then none
    else some padded

unfoldable pub normalize_crd : Text → Option Text
normalize_crd trimmed =
    let stripped = drop_while (λ c. c == b'0') trimmed in
    if not (is_digits trimmed) then none else if eq_text stripped [] then none else some stripped

unfoldable pub normalize_ticker : Text → Option Text
normalize_ticker upper = elim (ticker_groups upper) [
  | none ↦ none
  | some (exchange, symbol) ↦ some (exchange ++ b':' ∷ symbol)
]

-- The number with its leading zeros, and the two tests on it.
unfoldable pub pad_company_number : Text → Text
pad_company_number upper = if is_number 8 upper then pad_start 8 b'0' upper else upper

unfoldable pub check_company_number : Text → Option Text
check_company_number value =
    if eq_text value (repeat 8 b'0') then none else only_if (is_company_number value) value

unfoldable pub normalize_company_number : Text → Option Text
normalize_company_number upper = check_company_number (pad_company_number upper)

unfoldable pub normalize_lei : Text → Option Text
normalize_lei upper = if not (is_lei_shape upper) then none else only_if (is_valid_lei upper) upper

unfoldable pub normalize_host : Text → Option Text
normalize_host text =
    let lower = remove_prefix www (cut_path (remove_scheme text)) in only_if (is_host lower) lower

module _ (tables : CaseTables) where
  unfoldable pub normalize_trimmed : IdentifierScheme → Text → Option Text
  normalize_trimmed cik t = normalize_padded 10 t
  normalize_trimmed crd t = normalize_crd t
  normalize_trimmed lei t = normalize_lei (to_upper tables t)
  normalize_trimmed wikidata t = only_if (is_qid (to_upper tables t)) (to_upper tables t)
  normalize_trimmed opencorporates t =
      let lower = strip_both (λ c. c == b'/') (to_lower tables t) in
      only_if (is_opencorporates lower) lower
  normalize_trimmed ticker t = normalize_ticker (to_upper tables t)
  normalize_trimmed uei t = only_if (exactly 12 is_uei_char (to_upper tables t)) (to_upper tables t)
  normalize_trimmed duns t = normalize_padded 9 t
  normalize_trimmed companies_house t =
      normalize_company_number (keep (λ c. not (is_space c)) (to_upper tables t))
  normalize_trimmed domain t = normalize_host (to_lower tables t)
  normalize_trimmed partner t = only_if (is_partner_id t) t

  unfoldable pub normalize_identifier : IdentifierScheme → Text → Option Text
  normalize_identifier scheme raw =
      if eq_text (trim raw) [] then none else normalize_trimmed scheme (trim raw)
