-- ===== src/Merges/Detector.antt =====
-- `sweep` and `byCountry` of apps/jobs/src/ingest/merge-detector.ts. The key of a row is an argument,
-- as it is of the code.
use Prim.Native.String
use capbase.Base.{
  ℕ, String, Bool, Option, none, some, List, [], ◌∷◌, ◌++◌, leb, ltb, map, keep, if◌then◌else◌,
  length, lookup, insert, or_else, has, distinct,
}
use text.Mathlib.Text.{◌==◌}
use capbase.Companies.Matcher.{truthy, countries_compatible}

abbrev pub group_limit : ℕ
group_limit = 8

pub record DetectRow : Type 0 where
  pub id : String
  pub name : String
  pub domain : Option String
  pub country_code : Option String

pub record DetectedPair : Type 0 where
  pub a_id : String
  pub b_id : String
  pub evidence : String

-- The result, and the pairs seen.
pub record SweepResult : Type 0 where
  pub pairs : List DetectedPair
  pub skipped : List (String × ℕ)
  pub seen : List String

abbrev pub Group : Type 0
Group = String × List DetectRow

-- `groups`, by a blank or a new key, or one that is there.
unfoldable pub group_by : (DetectRow → String) → List Group → List DetectRow → List Group
group_by key groups [] = groups
group_by key groups (row ∷ rows) =
    let k = key row in
    let pushed = insert k (or_else (lookup k groups) [] ++ row ∷ []) groups in
    group_by key (if k == "" then groups else pushed) rows

-- The country codes of the rows that have one.
unfoldable pub codes : List DetectRow → List String
codes [] = []
codes (r ∷ rows) =
    let rest = codes rows in elim (truthy r.country_code) [ none ↦ rest | some c ↦ c ∷ rest ]

unfoldable pub sub_group : List DetectRow → String → Group
sub_group rows country =
    (country, keep (λ r. countries_compatible (some country) r.country_code) rows)

unfoldable pub by_country : List DetectRow → List Group
by_country rows =
    let known = distinct [] (codes rows) in
    if leb (length known) 1 then ("", rows) ∷ [] else map (sub_group rows) known

-- `${aId}|${bId}`
abbrev pub pair_key : String → String → String
pair_key a b = String.◌++◌ a (String.◌++◌ "|" b)

-- A round of the loop on `j`.
unfoldable pub propose : String → DetectRow → SweepResult → DetectRow → SweepResult
propose k a out b = if has (pair_key a.id b.id) out.seen then out else record out {
  pairs = out.pairs ++ record { a_id = a.id; b_id = b.id; evidence = k } ∷ [];
  seen = out.seen ++ pair_key a.id b.id ∷ [];
}

unfoldable pub propose_with : String → DetectRow → SweepResult → List DetectRow → SweepResult
propose_with k a out [] = out
propose_with k a out (b ∷ rows) = propose_with k a (propose k a out b) rows

-- The loop on `i`.
unfoldable pub propose_all : String → SweepResult → List DetectRow → SweepResult
propose_all k out [] = out
propose_all k out (a ∷ rows) = propose_all k (propose_with k a out rows) rows

abbrev pub label_key : String → String → String
label_key k label =
    if label == "" then k else String.◌++◌ k (String.◌++◌ " [" (String.◌++◌ label "]"))

unfoldable pub sub_step : ℕ → String → SweepResult → Group → SweepResult
sub_step limit k out sub =
    if ltb (length sub.1) 2
    then out
    else if ltb limit (length sub.1)
    then record out { skipped = out.skipped ++ (label_key k sub.0, length sub.1) ∷ [] }
    else propose_all k out sub.1

unfoldable pub sub_loop : ℕ → String → SweepResult → List Group → SweepResult
sub_loop limit k out [] = out
sub_loop limit k out (sub ∷ subs) = sub_loop limit k (sub_step limit k out sub) subs

-- The sub-groups of a group.
unfoldable pub subs_of : Bool → List DetectRow → List Group
subs_of scope_by_country rows = if scope_by_country then by_country rows else ("", rows) ∷ []

unfoldable pub group_step : ℕ → Bool → SweepResult → Group → SweepResult
group_step limit scope out group =
    if ltb (length group.1) 2 then out else sub_loop limit group.0 out (subs_of scope group.1)

unfoldable pub group_loop : ℕ → Bool → SweepResult → List Group → SweepResult
group_loop limit scope out [] = out
group_loop limit scope out (group ∷ groups) =
    group_loop limit scope (group_step limit scope out group) groups

unfoldable pub sweep : List DetectRow → (DetectRow → String) → ℕ → Bool → SweepResult
sweep rows key limit scope =
    group_loop limit scope (record { pairs = []; skipped = []; seen = [] }) (group_by key [] rows)
