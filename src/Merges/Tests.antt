-- ===== src/Merges/Tests.antt =====
-- A sweep, and its theorem at that sweep (apps/jobs/src/ingest/merge-detector.ts).
use text.Mathlib.Text.{◌==◌}
use capbase.Base.{◌≡◌, refl, String, Bool, true, Option, none, some, List, [], ◌∷◌, all, distinct}
use capbase.Companies.Matcher.{countries_compatible}
use capbase.Merges.Detector.{
  DetectRow, DetectedPair, group_limit, group_by, codes, sub_group, by_country, propose,
  propose_with, propose_all, sub_step, sub_loop, subs_of, group_step, group_loop, sweep,
}
use capbase.Merges.Shared.{sweep-Holds}

abbrev row : String → String → Option String → DetectRow
row id name country = record { id = id; name = name; domain = none; country_code = country }

-- Two countries share a name, and two rows of the name have none.
abbrev rows : List DetectRow
rows =
    row "a" "acme" (some "GB")
    ∷ row "b" "acme" (some "US")
    ∷ row "c" "acme" none
    ∷ row "d" "acme" none
    ∷ row "e" "" none
    ∷ []

abbrev by_name : DetectRow → String
by_name r = r.name

abbrev pair : String → String → DetectedPair
pair a b = record { a_id = a; b_id = b; evidence = "acme" }

rows_read :
    (sweep rows by_name group_limit true).pairs
    ≡ pair "a" "c" ∷ pair "a" "d" ∷ pair "c" "d" ∷ pair "b" "c" ∷ pair "b" "d" ∷ []
unfolding sweep group_loop group_step subs_of by_country codes sub_group sub_loop sub_step
    propose_all propose_with propose group_by distinct countries_compatible
rows_read = refl

abbrev acmes : List DetectRow
acmes = row "a" "acme" (some "GB") ∷ row "b" "acme" (some "US") ∷ row "c" "acme" none ∷ []

abbrev of_acme : DetectedPair → Bool
of_acme q = q.evidence == "acme"

sweep-Holds_example : all of_acme (sweep acmes by_name group_limit true).pairs ≡ true
sweep-Holds_example =
    sweep-Holds of_acme (λ r. r.name == "acme") acmes by_name group_limit true (λ a b h k s c. h)
      refl
