-- ===== src/People/Names.antt =====
-- The keys of people's names: `normalizePersonName` of packages/api/src/domain/person.ts, `kebab` of
-- apps/jobs/src/util/slug.ts, and `personQid` and `nameVariantKey` of
-- apps/jobs/src/ingest/person-matcher.ts.
use mathlib.Core.List.{reverse}
use capbase.Base.{
  Bool, true, false, Option, none, some, List, [], ◌∷◌, ◌++◌, ◌||◌, ◌==◌, if◌then◌else◌, Text,
  CaseTables, to_lower, keep, is_space, strip_both, eq_text, has_text,
}
use capbase.Identifiers.Shapes.{is_lower_alnum}
use capbase.Identifiers.Normalize.{wikidata, normalize_identifier}

abbrev pub legal_suffixes : List Text
legal_suffixes =
    (b'i' ∷ b'n' ∷ b'c' ∷ [])
    ∷ (b'i' ∷ b'n' ∷ b'c' ∷ b'o' ∷ b'r' ∷ b'p' ∷ b'o' ∷ b'r' ∷ b'a' ∷ b't' ∷ b'e' ∷ b'd' ∷ [])
    ∷ (b'c' ∷ b'o' ∷ b'r' ∷ b'p' ∷ [])
    ∷ (b'c' ∷ b'o' ∷ b'r' ∷ b'p' ∷ b'o' ∷ b'r' ∷ b'a' ∷ b't' ∷ b'i' ∷ b'o' ∷ b'n' ∷ [])
    ∷ (b'l' ∷ b'l' ∷ b'c' ∷ [])
    ∷ (b'l' ∷ b't' ∷ b'd' ∷ [])
    ∷ (b'l' ∷ b'i' ∷ b'm' ∷ b'i' ∷ b't' ∷ b'e' ∷ b'd' ∷ [])
    ∷ (b'c' ∷ b'o' ∷ [])
    ∷ (b'c' ∷ b'o' ∷ b'm' ∷ b'p' ∷ b'a' ∷ b'n' ∷ b'y' ∷ [])
    ∷ (b'p' ∷ b'l' ∷ b'c' ∷ [])
    ∷ (b's' ∷ b'a' ∷ [])
    ∷ (b'a' ∷ b'g' ∷ [])
    ∷ []

abbrev pub name_suffixes : List Text
name_suffixes =
    (b'j' ∷ b'r' ∷ [])
    ∷ (b's' ∷ b'r' ∷ [])
    ∷ (b'i' ∷ b'i' ∷ [])
    ∷ (b'i' ∷ b'i' ∷ b'i' ∷ [])
    ∷ (b'i' ∷ b'v' ∷ [])
    ∷ (b'v' ∷ [])
    ∷ (b'm' ∷ b'd' ∷ [])
    ∷ (b'p' ∷ b'h' ∷ b'd' ∷ [])
    ∷ (b'm' ∷ b'b' ∷ b'a' ∷ [])
    ∷ (b'e' ∷ b's' ∷ b'q' ∷ [])
    ∷ []

abbrev pub wikidata_source : Text
wikidata_source = b'W' ∷ b'I' ∷ b'K' ∷ b'I' ∷ b'D' ∷ b'A' ∷ b'T' ∷ b'A' ∷ []

-- `.split(/\s+/).filter(Boolean)`, with the word that is being read.
unfoldable pub words : Text → Text → List Text
words [] [] = []
words (c ∷ word) [] = (c ∷ word) ∷ []
words word (c ∷ s) =
    let next = words [] s in
    let longer = words (word ++ c ∷ []) s in
    if is_space c then (elim word [ [] ↦ next | d ∷ w ↦ (d ∷ w) ∷ next ]) else longer

-- `.join(sep)`
unfoldable pub join : Text → List Text → Text
join sep [] = []
join sep (w ∷ []) = w
join sep (w ∷ v ∷ ws) = w ++ sep ++ join sep (v ∷ ws)

-- `while (tokens.length > 1 && set.has(last)) tokens.pop()`, on the tokens from the last to the first.
unfoldable pub pop_while : List Text → List Text → List Text
pop_while set [] = []
pop_while set (w ∷ []) = w ∷ []
pop_while set (w ∷ v ∷ ws) = if has_text w set then pop_while set (v ∷ ws) else w ∷ v ∷ ws

abbrev pub pop_suffixes : List Text → List Text → List Text
pop_suffixes set tokens = reverse (pop_while set (reverse tokens))

unfoldable pub normalize_person_name : CaseTables → Text → Text
normalize_person_name tables name =
    let letters = keep (λ c. is_lower_alnum c || is_space c) (to_lower tables name) in
    join (32 ∷ []) (pop_suffixes legal_suffixes (words [] letters))

-- `.replace(/[^a-z0-9]+/g, '-')`: one dash for a run, where `dashed` says that the run has its dash.
unfoldable pub dash_runs : Bool → Text → Text
dash_runs dashed [] = []
dash_runs dashed (c ∷ s) =
    let same = dash_runs true s in
    let fresh = dash_runs false s in
    if is_lower_alnum c then c ∷ fresh else if dashed then same else b'-' ∷ same

unfoldable pub kebab : CaseTables → Text → Text
kebab tables name =
    let slug = strip_both (λ c. c == b'-') (dash_runs false (to_lower tables name)) in
    if eq_text slug [] then (b'c' ∷ b'o' ∷ b'm' ∷ b'p' ∷ b'a' ∷ b'n' ∷ b'y' ∷ []) else slug

-- `.split(':')`
unfoldable pub split_colons : Text → Text → List Text
split_colons part [] = part ∷ []
split_colons part (c ∷ s) =
    let next = split_colons [] s in
    let longer = split_colons (part ++ c ∷ []) s in if c == b':' then part ∷ next else longer

-- The QID of the second and third part of an external id.
unfoldable pub qid_of_parts : CaseTables → List Text → Option Text
qid_of_parts tables (company ∷ kind ∷ qid ∷ more) =
    if eq_text kind (b'p' ∷ b'e' ∷ b'r' ∷ b's' ∷ b'o' ∷ b'n' ∷ [])
    then normalize_identifier tables wikidata qid
    else none
qid_of_parts tables _ = none

-- A text that is neither null nor empty.
abbrev pub given : Option Text → Option Text
given none = none
given (some s) = if eq_text s [] then none else some s

-- `source === WIKIDATA`
abbrev pub is_wikidata : Option Text → Bool
is_wikidata none = false
is_wikidata (some source) = eq_text source wikidata_source

unfoldable pub person_qid : CaseTables → Option Text → Option Text → Option Text
person_qid tables source external_id = elim (given external_id) [
  | none ↦ none
  | some id ↦ if is_wikidata source then qid_of_parts tables (split_colons [] id) else none
]

-- The first and the last token.
unfoldable pub ends_of : List Text → Text
ends_of [] = []
ends_of (w ∷ []) = w
ends_of (w ∷ v ∷ ws) = elim (reverse (v ∷ ws)) [ [] ↦ w | last ∷ _ ↦ w ++ 32 ∷ last ]

unfoldable pub name_variant_key : CaseTables → Text → Text
name_variant_key tables name =
    ends_of (pop_suffixes name_suffixes (words [] (normalize_person_name tables name)))
