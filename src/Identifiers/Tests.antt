-- ===== src/Identifiers/Tests.antt =====
-- Runs of `normalizeIdentifier`, and its theorems at concrete identifiers.
use capbase.Base.{
  number, ◌≡◌, ◌%◌, ◌==◌, refl, ◌↔◌, true, some, none, [], ◌∷◌, ◌++◌, Text, CaseTables, to_upper,
  to_lower, trim, strip_both, drop_while, pad_start, repeat, eq_text, leb, length, all,
}
use capbase.Identifiers.Shapes.{prefix_of, in_label, after_prefix, cut_path, www}
use capbase.Identifiers.Normalize.{
  lei, cik, companies_house, domain, lei_remainder, is_valid_lei, normalize_padded,
  pad_company_number, check_company_number, normalize_company_number, normalize_lei, normalize_host,
  normalize_trimmed, normalize_identifier,
}
use capbase.Identifiers.Characters.{is_plain}
use capbase.Identifiers.Idempotent.{normalize_identifier_idempotent}
use capbase.Identifiers.Numbers.{normalize_identifier-number}
use capbase.Identifiers.Checksum.{
  normalize_identifier-substitution, is_valid_lei-number, lei_number_from,
}

-- Tables under which a text with other characters stays as it is.
abbrev plain_tables : CaseTables
plain_tables = record { upper = λ s. s; lower = λ s. s }

abbrev raw_cik : Text
raw_cik = 32 ∷ b'3' ∷ b'2' ∷ b'0' ∷ b'1' ∷ b'9' ∷ b'3' ∷ []

abbrev apple : Text
apple = b'0' ∷ b'0' ∷ b'0' ∷ b'0' ∷ b'3' ∷ b'2' ∷ b'0' ∷ b'1' ∷ b'9' ∷ b'3' ∷ []

apple_read : normalize_identifier plain_tables cik raw_cik ≡ some apple
unfolding normalize_identifier normalize_trimmed normalize_padded trim strip_both drop_while
    pad_start repeat eq_text
apple_read = refl

apple_kept : normalize_identifier plain_tables cik apple ≡ some apple
unfolding normalize_identifier normalize_trimmed normalize_padded trim strip_both drop_while
    pad_start repeat eq_text
apple_kept = refl

-- " sc 123456" is "SC123456".
scottish_read :
    normalize_identifier plain_tables companies_house
      (32 ∷ b's' ∷ b'c' ∷ 32 ∷ b'1' ∷ b'2' ∷ b'3' ∷ b'4' ∷ b'5' ∷ b'6' ∷ [])
    ≡ some (b'S' ∷ b'C' ∷ b'1' ∷ b'2' ∷ b'3' ∷ b'4' ∷ b'5' ∷ b'6' ∷ [])
unfolding normalize_identifier normalize_trimmed normalize_company_number check_company_number
    pad_company_number trim strip_both drop_while to_upper eq_text repeat prefix_of
scottish_read = refl

-- Of "https://www.www.a.b/c" one `www.` is left, which the next reading removes.
nested_www :
    normalize_identifier plain_tables domain (
      b'h' ∷ b't' ∷ b't' ∷ b'p' ∷ b's' ∷ b':' ∷ b'/' ∷ b'/' ∷ b'w' ∷ b'w' ∷ b'w' ∷ b'.' ∷ b'w'
      ∷ b'w' ∷ b'w' ∷ b'.' ∷ b'a' ∷ b'.' ∷ b'b' ∷ b'/' ∷ b'c' ∷ [])
    ≡ some (www ++ (b'a' ∷ b'.' ∷ b'b' ∷ []))
unfolding normalize_identifier normalize_trimmed normalize_host trim strip_both drop_while to_lower
    eq_text after_prefix cut_path in_label
nested_www = refl

abbrev head : Text
head = b'5' ∷ b'4' ∷ b'9' ∷ b'3' ∷ b'0' ∷ b'0' ∷ b'1' ∷ []

abbrev tail : Text
tail = b'J' ∷ b'T' ∷ b'I' ∷ b'I' ∷ b'G' ∷ b'C' ∷ b'8' ∷ b'Y' ∷ b'1' ∷ b'R' ∷ b'1' ∷ b'2' ∷ []

lei_read : normalize_identifier plain_tables lei (head ++ b'K' ∷ tail) ≡ some (head ++ b'K' ∷ tail)
unfolding normalize_identifier normalize_trimmed normalize_lei is_valid_lei lei_remainder trim
    strip_both drop_while to_upper eq_text prefix_of
lei_read = refl

normalize_identifier_idempotent_example :
    (normalize_identifier plain_tables cik apple ≡ some apple)
    × (all is_plain apple ≡ true)
    × (leb 1 (length apple) ≡ true)
unfolding after_prefix
normalize_identifier_idempotent_example =
    normalize_identifier_idempotent plain_tables cik raw_cik apple apple_read (λ e. refl)

normalize_identifier-number_example :
    (apple ≡ apple) ↔ (number (trim raw_cik) ≡ number (trim apple))
normalize_identifier-number_example =
    normalize_identifier-number plain_tables cik raw_cik apple apple apple refl apple_read
      apple_kept

normalize_identifier-substitution_example :
    normalize_identifier plain_tables lei (head ++ b'X' ∷ tail) ≡ none
normalize_identifier-substitution_example =
    normalize_identifier-substitution plain_tables (head ++ b'K' ∷ tail) head tail b'K' b'X'
      lei_read refl refl

is_valid_lei-number_example :
    is_valid_lei (head ++ b'K' ∷ tail) ≡ (lei_number_from 0 (head ++ b'K' ∷ tail) % 97 == 1)
is_valid_lei-number_example = is_valid_lei-number (head ++ b'K' ∷ tail) refl
