-- ===== src/Geography/Countries.antt =====
-- `COUNTRY_CODES` and `normalizeCountryCode` of packages/api/src/domain/geography.ts.
use capbase.Base.{
  ℕ, not, ◌&&◌, ◌==◌, Option, none, some, List, [], ◌∷◌, ◌++◌, if◌then◌else◌, Text, CaseTables,
  to_upper, trim, eq_text, has_text, or_else, all, length, is_upper,
}

-- A line of the table: the codes of one first letter, by the second.
unfoldable pub with_first : ℕ → Text → List Text
with_first a [] = []
with_first a (b ∷ seconds) = (a ∷ b ∷ []) ∷ with_first a seconds

unfoldable pub lines : List (List Text) → List Text
lines [] = []
lines (l ∷ ls) = l ++ lines ls

abbrev pub country_codes : List Text
country_codes = lines (
    with_first b'A' (
      b'D' ∷ b'E' ∷ b'F' ∷ b'G' ∷ b'I' ∷ b'L' ∷ b'M' ∷ b'O' ∷ b'Q' ∷ b'R' ∷ b'S' ∷ b'T' ∷ b'U'
      ∷ b'W' ∷ b'X' ∷ b'Z' ∷ [])
    ∷ with_first b'B' (
        b'A' ∷ b'B' ∷ b'D' ∷ b'E' ∷ b'F' ∷ b'G' ∷ b'H' ∷ b'I' ∷ b'J' ∷ b'L' ∷ b'M' ∷ b'N' ∷ b'O'
        ∷ b'Q' ∷ b'R' ∷ b'S' ∷ b'T' ∷ b'V' ∷ b'W' ∷ b'Y' ∷ b'Z' ∷ [])
    ∷ with_first b'C' (
        b'A' ∷ b'C' ∷ b'D' ∷ b'F' ∷ b'G' ∷ b'H' ∷ b'I' ∷ b'K' ∷ b'L' ∷ b'M' ∷ b'N' ∷ b'O' ∷ b'R'
        ∷ b'U' ∷ b'V' ∷ b'W' ∷ b'X' ∷ b'Y' ∷ b'Z' ∷ [])
    ∷ with_first b'D' (b'E' ∷ b'J' ∷ b'K' ∷ b'M' ∷ b'O' ∷ b'Z' ∷ [])
    ∷ with_first b'E' (b'C' ∷ b'E' ∷ b'G' ∷ b'H' ∷ b'R' ∷ b'S' ∷ b'T' ∷ [])
    ∷ with_first b'F' (b'I' ∷ b'J' ∷ b'K' ∷ b'M' ∷ b'O' ∷ b'R' ∷ [])
    ∷ with_first b'G' (
        b'A' ∷ b'B' ∷ b'D' ∷ b'E' ∷ b'F' ∷ b'G' ∷ b'H' ∷ b'I' ∷ b'L' ∷ b'M' ∷ b'N' ∷ b'P' ∷ b'Q'
        ∷ b'R' ∷ b'S' ∷ b'T' ∷ b'U' ∷ b'W' ∷ b'Y' ∷ [])
    ∷ with_first b'H' (b'K' ∷ b'M' ∷ b'N' ∷ b'R' ∷ b'T' ∷ b'U' ∷ [])
    ∷ with_first b'I' (b'D' ∷ b'E' ∷ b'L' ∷ b'M' ∷ b'N' ∷ b'O' ∷ b'Q' ∷ b'R' ∷ b'S' ∷ b'T' ∷ [])
    ∷ with_first b'J' (b'E' ∷ b'M' ∷ b'O' ∷ b'P' ∷ [])
    ∷ with_first b'K'
        (b'E' ∷ b'G' ∷ b'H' ∷ b'I' ∷ b'M' ∷ b'N' ∷ b'P' ∷ b'R' ∷ b'W' ∷ b'Y' ∷ b'Z' ∷ [])
    ∷ with_first b'L'
        (b'A' ∷ b'B' ∷ b'C' ∷ b'I' ∷ b'K' ∷ b'R' ∷ b'S' ∷ b'T' ∷ b'U' ∷ b'V' ∷ b'Y' ∷ [])
    ∷ with_first b'M' (
        b'A' ∷ b'C' ∷ b'D' ∷ b'E' ∷ b'F' ∷ b'G' ∷ b'H' ∷ b'K' ∷ b'L' ∷ b'M' ∷ b'N' ∷ b'O' ∷ b'P'
        ∷ b'Q' ∷ b'R' ∷ b'S' ∷ b'T' ∷ b'U' ∷ b'V' ∷ b'W' ∷ b'X' ∷ b'Y' ∷ b'Z' ∷ [])
    ∷ with_first b'N'
        (b'A' ∷ b'C' ∷ b'E' ∷ b'F' ∷ b'G' ∷ b'I' ∷ b'L' ∷ b'O' ∷ b'P' ∷ b'R' ∷ b'U' ∷ b'Z' ∷ [])
    ∷ with_first b'O' (b'M' ∷ [])
    ∷ with_first b'P' (
        b'A' ∷ b'E' ∷ b'F' ∷ b'G' ∷ b'H' ∷ b'K' ∷ b'L' ∷ b'M' ∷ b'N' ∷ b'R' ∷ b'S' ∷ b'T' ∷ b'W'
        ∷ b'Y' ∷ [])
    ∷ with_first b'Q' (b'A' ∷ [])
    ∷ with_first b'R' (b'E' ∷ b'O' ∷ b'S' ∷ b'U' ∷ b'W' ∷ [])
    ∷ with_first b'S' (
        b'A' ∷ b'B' ∷ b'C' ∷ b'D' ∷ b'E' ∷ b'G' ∷ b'H' ∷ b'I' ∷ b'J' ∷ b'K' ∷ b'L' ∷ b'M' ∷ b'N'
        ∷ b'O' ∷ b'R' ∷ b'S' ∷ b'T' ∷ b'V' ∷ b'X' ∷ b'Y' ∷ b'Z' ∷ [])
    ∷ with_first b'T' (
        b'C' ∷ b'D' ∷ b'F' ∷ b'G' ∷ b'H' ∷ b'J' ∷ b'K' ∷ b'L' ∷ b'M' ∷ b'N' ∷ b'O' ∷ b'R' ∷ b'T'
        ∷ b'V' ∷ b'W' ∷ b'Z' ∷ [])
    ∷ with_first b'U' (b'A' ∷ b'G' ∷ b'M' ∷ b'S' ∷ b'Y' ∷ b'Z' ∷ [])
    ∷ with_first b'V' (b'A' ∷ b'C' ∷ b'E' ∷ b'G' ∷ b'I' ∷ b'N' ∷ b'U' ∷ [])
    ∷ with_first b'W' (b'F' ∷ b'S' ∷ [])
    ∷ with_first b'Y' (b'E' ∷ b'T' ∷ [])
    ∷ with_first b'Z' (b'A' ∷ b'M' ∷ b'W' ∷ [])
    ∷ [])

-- `CODE_ALIASES[upper] ?? upper`
unfoldable pub code_alias : Text → Text
code_alias upper =
    if eq_text upper (b'U' ∷ b'K' ∷ [])
    then (b'G' ∷ b'B' ∷ [])
    else if eq_text upper (b'E' ∷ b'L' ∷ [])
    then (b'G' ∷ b'R' ∷ [])
    else upper

unfoldable pub assigned : Text → Option Text
assigned code = if has_text code country_codes then some code else none

unfoldable pub normalize_country_code : CaseTables → Option Text → Option Text
normalize_country_code tables raw =
    let upper = to_upper tables (trim (or_else raw [])) in
    if not (all is_upper upper && length upper == 2) then none else assigned (code_alias upper)
