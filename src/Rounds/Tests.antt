-- ===== src/Rounds/Tests.antt =====
-- Runs of apps/jobs/src/ingest/round-dedup.ts, and its theorems at concrete rounds.
use capbase.Base.{ℕ, ◌*◌, ◌≡◌, refl, Bool, true, none, some, String, List, [], ◌∷◌, all, any}
use capbase.Rounds.Dedup.{
  RoundLike, Pair, pair_of, day_ms, same_kind_class, amounts_compatible, compatible, best_step,
  best_loop, find_near_duplicate, pairs_with, pairs_from, closer, insert_pair, sort_pairs, choose,
  chosen_pairs, get_elem, entries, pair_near_duplicates,
}
use capbase.Rounds.Nearest.{Nearest, find_near_duplicate-Nearest}
use capbase.Rounds.Pairing.{OneToOne, prevails}
use capbase.Rounds.Indices.{Compatible, chosen_pairs-OneToOne}

abbrev round : ℕ → ℕ → String → RoundLike
round day amount kind = record {
  id = none;
  date = day * day_ms;
  amount_usd = amount;
  kind = kind;
  external_source = none;
}

-- A seed in January and a series A in March, against one filing in February and a grant.
abbrev incoming : List RoundLike
incoming = round 10 0 "Seed" ∷ round 70 100 "Series A" ∷ []

abbrev existing : List RoundLike
existing = round 60 90 "Equity" ∷ round 71 100 "Grant" ∷ []

nearest_read : find_near_duplicate (round 70 100 "Series A") existing ≡ some (round 60 90 "Equity")
unfolding find_near_duplicate best_loop best_step compatible same_kind_class amounts_compatible
nearest_read = refl

paired_read : pair_near_duplicates incoming existing ≡ (1, some (round 60 90 "Equity")) ∷ []
unfolding pair_near_duplicates chosen_pairs choose sort_pairs insert_pair closer pairs_from
    pairs_with compatible same_kind_class amounts_compatible entries get_elem
paired_read = refl

find_near_duplicate-Nearest_example :
    Nearest
      (round 70 100 "Series A")
      existing
      (find_near_duplicate (round 70 100 "Series A") existing)
find_near_duplicate-Nearest_example = find_near_duplicate-Nearest (round 70 100 "Series A") existing

chosen_pairs-OneToOne_example :
    OneToOne (chosen_pairs incoming existing)
    × ((f : Pair → Bool)
        → ((i e : ℕ) (c r : RoundLike)
            → Compatible incoming existing i e c r
            → f (pair_of i e c r) ≡ true)
        → all f (chosen_pairs incoming existing) ≡ true)
    × ((i e : ℕ) (c r : RoundLike)
        → Compatible incoming existing i e c r
        → any (prevails (pair_of i e c r)) (chosen_pairs incoming existing) ≡ true)
chosen_pairs-OneToOne_example = chosen_pairs-OneToOne incoming existing
