-- ===== src/Geography/Tests.antt =====
-- Runs of `normalizeCountryCode`, and its theorem at a concrete code.
use capbase.Base.{
  ◌≡◌, refl, true, some, none, [], ◌∷◌, CaseTables, to_upper, trim, strip_both, drop_while, eq_text,
  has_text,
}
use capbase.Geography.Countries.{
  with_first, lines, country_codes, code_alias, assigned, normalize_country_code,
}
use capbase.Geography.Canonical.{is_code, normalize_country_code_idempotent}

abbrev plain_tables : CaseTables
plain_tables = record { upper = λ s. s; lower = λ s. s }

-- " uk" is GB, and Kosovo's XK is no assigned code.
uk_read :
    normalize_country_code plain_tables (some (32 ∷ b'u' ∷ b'k' ∷ [])) ≡ some (b'G' ∷ b'B' ∷ [])
unfolding normalize_country_code code_alias assigned trim strip_both drop_while to_upper eq_text
    has_text with_first lines
uk_read = refl

kosovo_read : normalize_country_code plain_tables (some (b'X' ∷ b'K' ∷ [])) ≡ none
unfolding normalize_country_code code_alias assigned trim strip_both drop_while to_upper eq_text
    has_text with_first lines
kosovo_read = refl

normalize_country_code_idempotent_example :
    (has_text (b'G' ∷ b'B' ∷ []) country_codes ≡ true)
    × (is_code (b'G' ∷ b'B' ∷ []) ≡ true)
    × (normalize_country_code plain_tables (some (b'G' ∷ b'B' ∷ [])) ≡ some (b'G' ∷ b'B' ∷ []))
normalize_country_code_idempotent_example =
    normalize_country_code_idempotent plain_tables (some (32 ∷ b'u' ∷ b'k' ∷ [])) (b'G' ∷ b'B' ∷ [])
      uk_read
