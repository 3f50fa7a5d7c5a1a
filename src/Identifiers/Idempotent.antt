-- ===== src/Identifiers/Idempotent.antt =====
-- `normalizeIdentifier` of packages/api/src/domain/identifiers.ts gives canonical forms.
use capbase.Base.{
  ℕ, ◌≡◌, refl, sym, ap, ◌∙◌, Bool, true, ◌&&◌, not, Option, none, some, [], ◌∷◌, ◌==◌, leb, Text,
  CaseTables, to_upper, to_lower, to_upper-none, to_lower-none, trim, strip_both, strip_both-none,
  strip_both_idempotent, drop_while, eq_text-empty, keep, keep-all, length, is_space, is_digit,
  is_upper, is_lower, is_ascii, all, all-implies, arith,
}
use capbase.Identifiers.Shapes.{
  is_qid, is_opencorporates, is_uei_char, exactly, is_partner_id, is_partner_char, www,
  after_prefix, prefix_of,
}
use capbase.Identifiers.Normalize.{
  IdentifierScheme, cik, crd, lei, wikidata, opencorporates, ticker, uei, duns, companies_house,
  domain, partner, only_if, normalize_padded, normalize_crd, normalize_ticker,
  normalize_company_number, normalize_lei, normalize_host, normalize_trimmed, normalize_identifier,
}
use capbase.Identifiers.Characters.{
  is_plain, plain_upper, plain_lower, is_qid-all, is_opencorporates-all,
}
use capbase.Identifiers.Settled.{
  Fixed, only_if-some, only_if-Fixed, normalize_padded-Fixed, normalize_crd-Fixed,
  normalize_ticker-Fixed, normalize_company_number-Fixed, normalize_lei-Fixed, normalize_host-Fixed,
}

pub to_upper-plain :
    (tables : CaseTables) (v : Text) → all plain_upper v ≡ true → to_upper tables v ≡ v
to_upper-plain tables v h =
    to_upper-none tables v
      (all-implies plain_upper (λ c. is_ascii c && not (is_lower c)) v (λ c e. ground arith) h)

to_lower-plain : (tables : CaseTables) (v : Text) → all plain_lower v ≡ true → to_lower tables v ≡ v
to_lower-plain tables v h =
    to_lower-none tables v
      (all-implies plain_lower (λ c. is_ascii c && not (is_upper c)) v (λ c e. ground arith) h)

-- What holds of a canonical form: it is its own, and has characters, all printed and no white space.
abbrev pub Settled : CaseTables → IdentifierScheme → Text → Type 0
Settled tables scheme v = Fixed (normalize_trimmed tables scheme) is_plain v

weaken :
    (f : Text → Option Text) (p : ℕ → Bool) (v : Text)
    → ((c : ℕ) → p c ≡ true → is_plain c ≡ true)
    → Fixed f p v
    → Fixed f is_plain v
weaken f p v h x = (x.0, all-implies p is_plain v h x.1, x.2)

-- A branch that changes the case of its text first.
upper_branch :
    (tables : CaseTables) (f : Text → Option Text) (v : Text)
    → Fixed f plain_upper v
    → Fixed (λ t. f (to_upper tables t)) is_plain v
upper_branch tables f v x = (
  ap f (to_upper-plain tables v x.1) ∙ x.0,
  all-implies plain_upper is_plain v (λ c e. ground arith) x.1,
  x.2,
)

lower_branch :
    (tables : CaseTables) (f : Text → Option Text) (v : Text)
    → Fixed f plain_lower v
    → Fixed (λ t. f (to_lower tables t)) is_plain v
lower_branch tables f v x = (
  ap f (to_lower-plain tables v x.1) ∙ x.0,
  all-implies plain_lower is_plain v (λ c e. ground arith) x.1,
  x.2,
)

uei_char : (u : Text) → exactly 12 is_uei_char u ≡ true → all plain_upper u ≡ true
uei_char u e = all-implies is_uei_char plain_upper u (λ c k. ground arith) (ground arith)

partner_char : (u : Text) → is_partner_id u ≡ true → all is_plain u ≡ true
partner_char u e = all-implies is_partner_char is_plain u (λ c k. ground arith) (ground arith)

abbrev slash : ℕ → Bool
slash c = c == b'/'

drop_while-opencorporates : (v : Text) → is_opencorporates v ≡ true → drop_while slash v ≡ v
unfolding drop_while prefix_of
drop_while-opencorporates [] e = refl
drop_while-opencorporates (c ∷ v) e = ground arith

opencorporates-Fixed :
    (s v : Text)
    → only_if (is_opencorporates (strip_both slash s)) (strip_both slash s) ≡ some v
    → (strip_both slash v ≡ v) × Fixed (λ u. only_if (is_opencorporates u) u) plain_lower v
unfolding prefix_of
opencorporates-Fixed s v e =
    let x = strip_both slash s in
    let parts = only_if-some (is_opencorporates x) x v e in
    let stripped = strip_both_idempotent slash s (drop_while-opencorporates x parts.0) in
    (
      ap (strip_both slash) (sym parts.1) ∙ stripped ∙ parts.1,
      only_if-Fixed is_opencorporates plain_lower x v is_opencorporates-all refl e,
    )

keep-plain : (v : Text) → all plain_upper v ≡ true → keep (λ c. not (is_space c)) v ≡ v
keep-plain v h =
    keep-all (λ c. not (is_space c)) v
      (all-implies plain_upper (λ c. not (is_space c)) v (λ c e. ground arith) h)

normalize_trimmed-Settled :
    (tables : CaseTables) (scheme : IdentifierScheme) (t v : Text)
    → (scheme ≡ domain → after_prefix www v ≡ none)
    → normalize_trimmed tables scheme t ≡ some v
    → Settled tables scheme v
unfolding normalize_trimmed
normalize_trimmed-Settled tables cik t v h e =
    weaken (normalize_padded 10) is_digit v (λ c k. ground arith)
      (normalize_padded-Fixed 10 t v refl e)
normalize_trimmed-Settled tables duns t v h e =
    weaken (normalize_padded 9) is_digit v (λ c k. ground arith)
      (normalize_padded-Fixed 9 t v refl e)
normalize_trimmed-Settled tables crd t v h e =
    weaken normalize_crd is_digit v (λ c k. ground arith) (normalize_crd-Fixed t v e)
normalize_trimmed-Settled tables lei t v h e =
    upper_branch tables normalize_lei v (normalize_lei-Fixed (to_upper tables t) v e)
normalize_trimmed-Settled tables ticker t v h e =
    upper_branch tables normalize_ticker v (normalize_ticker-Fixed (to_upper tables t) v e)
normalize_trimmed-Settled tables wikidata t v h e =
    upper_branch tables (λ u. only_if (is_qid u) u) v
      (only_if-Fixed is_qid plain_upper (to_upper tables t) v is_qid-all refl e)
normalize_trimmed-Settled tables uei t v h e =
    upper_branch tables (λ u. only_if (exactly 12 is_uei_char u) u) v
      (only_if-Fixed (exactly 12 is_uei_char) plain_upper (to_upper tables t) v uei_char refl e)
normalize_trimmed-Settled tables partner t v h e =
    only_if-Fixed is_partner_id is_plain t v partner_char refl e
normalize_trimmed-Settled tables domain t v h e =
    lower_branch tables normalize_host v (normalize_host-Fixed (to_lower tables t) v e (h refl))
normalize_trimmed-Settled tables companies_house t v h e =
    let x = normalize_company_number-Fixed (keep (λ c. not (is_space c)) (to_upper tables t)) v e in
    upper_branch tables (λ u. normalize_company_number (keep (λ c. not (is_space c)) u)) v
      (ap normalize_company_number (keep-plain v x.1) ∙ x.0, x.1, x.2)
normalize_trimmed-Settled tables opencorporates t v h e =
    let x = opencorporates-Fixed (to_lower tables t) v e in
    lower_branch tables (λ u. only_if (is_opencorporates (strip_both slash u)) (strip_both slash u))
      v (ap (λ u. only_if (is_opencorporates u) u) x.0 ∙ x.1.0, x.1.1, x.1.2)

pub trim-plain : (v : Text) → all is_plain v ≡ true → trim v ≡ v
unfolding trim
trim-plain v h =
    strip_both-none is_space v
      (all-implies is_plain (λ c. not (is_space c)) v (λ c e. ground arith) h)

-- A canonical identifier is its own canonical form, and is a text of printed characters with no white
-- space; of a domain where it does not begin with `www.` again.
pub normalize_identifier_idempotent :
    (tables : CaseTables) (scheme : IdentifierScheme) (raw v : Text)
    → normalize_identifier tables scheme raw ≡ some v
    → (scheme ≡ domain → after_prefix www v ≡ none)
    → (normalize_identifier tables scheme v ≡ some v)
      × (all is_plain v ≡ true)
      × (leb 1 (length v) ≡ true)
unfolding normalize_identifier
normalize_identifier_idempotent tables scheme raw v e h =
    let branch : normalize_trimmed tables scheme (trim raw) ≡ some v = ground arith in
    let x = normalize_trimmed-Settled tables scheme (trim raw) v h branch in
    (rw (trim-plain v x.1, eq_text-empty v, x.2) (x.0), x.1, x.2)
