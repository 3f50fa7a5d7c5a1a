-- ===== src/Rounds/Dedup.antt =====
-- `findNearDuplicate` and `pairNearDuplicates` of apps/jobs/src/ingest/round-dedup.ts. A date is its
-- number of milliseconds, an amount a whole number of dollars. A distance in days is compared only with
-- another one and with the window, so it is kept in milliseconds; a quarter of the larger amount is
-- compared by taking the difference four times.
use text.Mathlib.Text.{◌==◌ as eq_string}
use capbase.Base.{
  ℕ, zero, suc, ◌+◌, ◌-◌, ◌*◌, String, Bool, true, false, not, Option, none, some, List, [], ◌∷◌,
  ◌++◌, ◌&&◌, ◌||◌, ◌==◌, leb, ltb, if◌then◌else◌, any,
}

abbrev pub day_ms : ℕ
day_ms = 86400000

abbrev pub dedup_window_days : ℕ
dedup_window_days = 120

pub record RoundLike : Type 0 where
  pub id : Option String
  pub date : ℕ
  pub amount_usd : ℕ
  pub kind : String
  pub external_source : Option String

-- `Math.abs(a - b)`
abbrev pub distance : ℕ → ℕ → ℕ
distance a b = (a - b) + (b - a)

abbrev pub larger : ℕ → ℕ → ℕ
larger a b = if leb a b then b else a

abbrev pub same : Bool → Bool → Bool
same true b = b
same false b = not b

unfoldable pub same_kind_class : String → String → Bool
same_kind_class a b = same (eq_string a "Grant") (eq_string b "Grant")

unfoldable pub amounts_compatible : ℕ → ℕ → Bool
amounts_compatible a b = if a == 0 || b == 0 then true else leb (4 * distance a b) (larger a b)

abbrev pub apart : RoundLike → RoundLike → ℕ
apart a b = distance a.date b.date

abbrev pub gap_of : RoundLike → RoundLike → ℕ
gap_of a b =
    if ltb 0 a.amount_usd && ltb 0 b.amount_usd then distance a.amount_usd b.amount_usd else 0

-- The three tests that both functions begin with.
unfoldable pub compatible : RoundLike → RoundLike → Bool
unfolding same_kind_class amounts_compatible
compatible c r =
    same_kind_class c.kind r.kind
    && leb (apart c r) (dedup_window_days * day_ms)
    && amounts_compatible c.amount_usd r.amount_usd

-- `best`, `bestDays` and `bestGap`; `none` is the infinite distance of no round.
pub record Best : Type 0 where
  pub round : RoundLike
  pub days : ℕ
  pub gap : ℕ

abbrev pub improves : ℕ → ℕ → Option Best → Bool
improves days gap none = true
improves days gap (some b) = ltb days b.days || (days == b.days && ltb gap b.gap)

unfoldable pub best_step : RoundLike → Option Best → RoundLike → Option Best
unfolding compatible
best_step candidate best r =
    if not (compatible candidate r)
    then best
    else if improves (apart candidate r) (gap_of candidate r) best
    then some (record { round = r; days = apart candidate r; gap = gap_of candidate r })
    else best

unfoldable pub best_loop : RoundLike → Option Best → List RoundLike → Option Best
best_loop candidate best [] = best
best_loop candidate best (r ∷ existing) = best_loop candidate (best_step candidate best r) existing

abbrev pub round_of : Option Best → Option RoundLike
round_of none = none
round_of (some b) = some b.round

unfoldable pub find_near_duplicate : RoundLike → List RoundLike → Option RoundLike
find_near_duplicate candidate existing = round_of (best_loop candidate none existing)

pub record Pair : Type 0 where
  pub i : ℕ
  pub e : ℕ
  pub days : ℕ
  pub gap : ℕ

abbrev pub pair_of : ℕ → ℕ → RoundLike → RoundLike → Pair
pair_of i e c r = record { i = i; e = e; days = apart c r; gap = gap_of c r }

-- The inner `forEach`, from the index `e`.
unfoldable pub pairs_with : ℕ → RoundLike → ℕ → List RoundLike → List Pair
pairs_with i c e [] = []
pairs_with i c e (r ∷ existing) =
    let rest = pairs_with i c (e + 1) existing in
    if compatible c r then pair_of i e c r ∷ rest else rest

-- The outer one, from the index `i`.
unfoldable pub pairs_from : ℕ → List RoundLike → List RoundLike → List Pair
pairs_from i [] existing = []
pairs_from i (c ∷ incoming) existing =
    pairs_with i c 0 existing ++ pairs_from (i + 1) incoming existing

-- The order of the sort: by days, then by gap, then by the two indices.
unfoldable pub closer : Pair → Pair → Bool
closer p q =
    if not (p.days == q.days)
    then ltb p.days q.days
    else if not (p.gap == q.gap)
    then ltb p.gap q.gap
    else if not (p.i == q.i)
    then ltb p.i q.i
    else leb p.e q.e

unfoldable pub insert_pair : Pair → List Pair → List Pair
insert_pair p [] = p ∷ []
insert_pair p (q ∷ l) = let rest = insert_pair p l in if closer p q then p ∷ q ∷ l else q ∷ rest

unfoldable pub sort_pairs : List Pair → List Pair
sort_pairs [] = []
sort_pairs (p ∷ l) = insert_pair p (sort_pairs l)

-- `out.has(p.i) || used.has(p.e)`: the pairs that are chosen are the entries of `out`.
abbrev pub taken : Pair → List Pair → Bool
taken p chosen = any (λ q. q.i == p.i || q.e == p.e) chosen

unfoldable pub choose : List Pair → List Pair → List Pair
choose chosen [] = chosen
choose chosen (p ∷ l) = choose (if taken p chosen then chosen else chosen ++ p ∷ []) l

-- The chosen pairs, from which the map takes `incoming` index to `existing[e]`.
unfoldable pub chosen_pairs : List RoundLike → List RoundLike → List Pair
chosen_pairs incoming existing = choose [] (sort_pairs (pairs_from 0 incoming existing))

unfoldable pub get_elem : List RoundLike → ℕ → Option RoundLike
get_elem [] n = none
get_elem (r ∷ l) zero = some r
get_elem (r ∷ l) (suc n) = get_elem l n

unfoldable pub entries : List RoundLike → List Pair → List (ℕ × Option RoundLike)
entries existing [] = []
entries existing (p ∷ l) = (p.i, get_elem existing p.e) ∷ entries existing l

unfoldable pub pair_near_duplicates : List RoundLike → List RoundLike → List (ℕ × Option RoundLike)
pair_near_duplicates incoming existing = entries existing (chosen_pairs incoming existing)
