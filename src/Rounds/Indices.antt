-- ===== src/Rounds/Indices.antt =====
-- The pairs that `pairNearDuplicates` looks at, and its result (apps/jobs/src/ingest/round-dedup.ts).
use Prim.Native.Nat.{zero, suc}
use mathlib.Core.Path.{subst}
use capbase.Base.{
  ℕ, ◌+◌, ◌≡◌, refl, sym, ap, ◌∙◌, inl, inr, Bool, true, some, List, [], ◌∷◌, ◌++◌, ◌&&◌, all, any,
  arith, Bool-cases,
}
use capbase.Rounds.Dedup.{
  RoundLike, Pair, pair_of, compatible, pairs_with, pairs_from, sort_pairs, choose, chosen_pairs,
  get_elem,
}
use capbase.Rounds.Pairing.{prevails, OneToOne, all-sort_pairs, sort_pairs-Sorted}
use capbase.Rounds.Chosen.{choose-lem, all-choose}

all-append : (f : Pair → Bool) (l m : List Pair) → all f (l ++ m) ≡ (all f l && all f m)
all-append f [] m = refl
all-append f (p ∷ l) m = ground (arith, all-append f l m)

-- What holds of every pair looked at holds of each pair of compatible rounds.
pairs_with-holds :
    (f : Pair → Bool) (i n k : ℕ) (c r : RoundLike) (l : List RoundLike)
    → all f (pairs_with i c n l) ≡ true
    → get_elem l k ≡ some r
    → compatible c r ≡ true
    → f (pair_of i (n + k) c r) ≡ true
unfolding pairs_with get_elem
pairs_with-holds f i n k c r [] h e m = ground arith
pairs_with-holds f i n zero c r (x ∷ l) h e m =
    let same : x ≡ r = ground arith in
    let start : n ≡ n + 0 = omega arith in
    let passed : compatible c x ≡ true = ap (compatible c) same ∙ m in
    let own : f (pair_of i n c x) ≡ true = ground arith in
    subst (λ j. f (pair_of i j c r) ≡ true) start (subst (λ y. f (pair_of i n c y) ≡ true) same own)
pairs_with-holds f i n (suc k) c r (x ∷ l) h e m =
    let moved : n + 1 + k ≡ n + suc k = omega arith in
    subst (λ j. f (pair_of i j c r) ≡ true) moved
      (pairs_with-holds f i (n + 1) k c r l (ground arith) e m)

pairs_from-holds :
    (f : Pair → Bool) (n j k : ℕ) (c r : RoundLike) (incoming existing : List RoundLike)
    → all f (pairs_from n incoming existing) ≡ true
    → get_elem incoming j ≡ some c
    → get_elem existing k ≡ some r
    → compatible c r ≡ true
    → f (pair_of (n + j) k c r) ≡ true
unfolding pairs_from get_elem
pairs_from-holds f n j k c r [] existing h d e m = ground arith
pairs_from-holds f n zero k c r (x ∷ incoming) existing h d e m =
    let split = all-append f (pairs_with n x 0 existing) (pairs_from (n + 1) incoming existing) in
    let same : x ≡ c = ground arith in
    let start : n ≡ n + 0 = omega arith in
    let own =
      pairs_with-holds f n 0 k x r existing (ground arith) e (ap (λ y. compatible y r) same ∙ m) in
    let first : 0 + k ≡ k = omega arith in
    subst (λ t. f (pair_of (n + 0) t c r) ≡ true) first
      (subst (λ t. f (pair_of t (0 + k) c r) ≡ true) start
        (subst (λ y. f (pair_of n (0 + k) y r) ≡ true) same own))
pairs_from-holds f n (suc j) k c r (x ∷ incoming) existing h d e m =
    let split = all-append f (pairs_with n x 0 existing) (pairs_from (n + 1) incoming existing) in
    let moved : n + 1 + j ≡ n + suc j = omega arith in
    subst (λ t. f (pair_of t k c r) ≡ true) moved
      (pairs_from-holds f (n + 1) j k c r incoming existing (ground arith) d e m)

-- Two compatible rounds at these indices.
abbrev pub Compatible : List RoundLike → List RoundLike → ℕ → ℕ → RoundLike → RoundLike → Type 0
Compatible incoming existing i e c r =
    (get_elem incoming i ≡ some c) × (get_elem existing e ≡ some r) × (compatible c r ≡ true)

-- And of nothing else.
pairs_with-all :
    (f : Pair → Bool) (i n : ℕ) (c : RoundLike) (l : List RoundLike)
    → ((k : ℕ) (r : RoundLike)
        → get_elem l k ≡ some r
        → compatible c r ≡ true
        → f (pair_of i (n + k) c r) ≡ true)
    → all f (pairs_with i c n l) ≡ true
unfolding pairs_with get_elem
pairs_with-all f i n c [] h = refl
pairs_with-all f i n c (x ∷ l) h =
    let later : all f (pairs_with i c (n + 1) l) ≡ true = pairs_with-all f i (n + 1) c l (λ k r e m.
      let moved : n + suc k ≡ n + 1 + k = omega arith in
      subst (λ t. f (pair_of i t c r) ≡ true) moved (h (suc k) r e m)) in
    elim (Bool-cases (compatible c x)) [
      | inr refused ↦ rw refused later
      | inl passed ↦
          let start : n + 0 ≡ n = omega arith in
          let own = subst (λ t. f (pair_of i t c x) ≡ true) start (h 0 x refl passed) in
          rw passed (ground (arith, own, later))
    ]

pairs_from-all :
    (f : Pair → Bool) (n : ℕ) (incoming existing : List RoundLike)
    → ((j k : ℕ) (c r : RoundLike)
        → Compatible incoming existing j k c r
        → f (pair_of (n + j) k c r) ≡ true)
    → all f (pairs_from n incoming existing) ≡ true
unfolding pairs_from get_elem
pairs_from-all f n [] existing h = refl
pairs_from-all f n (x ∷ incoming) existing h =
    let own : all f (pairs_with n x 0 existing) ≡ true = pairs_with-all f n 0 x existing (λ k r e m.
      let start : n + 0 ≡ n = omega arith in
      let first : k ≡ 0 + k = omega arith in
      subst (λ t. f (pair_of n t x r) ≡ true) first
        (subst (λ t. f (pair_of t k x r) ≡ true) start (h 0 k x r (refl, e, m)))) in
    let later : all f (pairs_from (n + 1) incoming existing) ≡ true =
      pairs_from-all f (n + 1) incoming existing (λ j k c r m.
        let moved : n + suc j ≡ n + 1 + j = omega arith in
        subst (λ t. f (pair_of t k c r) ≡ true) moved (h (suc j) k c r m)) in
    all-append f (pairs_with n x 0 existing) (pairs_from (n + 1) incoming existing)
    ∙ ground (arith, own, later)

-- The pairs that `pairNearDuplicates` chooses are one to one; they are pairs of compatible rounds
-- (what holds of every such pair holds of them); and of any two compatible rounds, one is in a chosen
-- pair that is no further apart than those two.
pub chosen_pairs-OneToOne :
    (incoming existing : List RoundLike)
    → OneToOne (chosen_pairs incoming existing)
      × ((f : Pair → Bool)
          → ((i e : ℕ) (c r : RoundLike)
              → Compatible incoming existing i e c r
              → f (pair_of i e c r) ≡ true)
          → all f (chosen_pairs incoming existing) ≡ true)
      × ((i e : ℕ) (c r : RoundLike)
          → Compatible incoming existing i e c r
          → any (prevails (pair_of i e c r)) (chosen_pairs incoming existing) ≡ true)
unfolding chosen_pairs
chosen_pairs-OneToOne incoming existing =
    let pairs = pairs_from 0 incoming existing in
    let done = choose-lem [] (sort_pairs pairs) tt (sort_pairs-Sorted pairs) refl in
    let covered =
      sym (all-sort_pairs (λ p. any (prevails p) (choose [] (sort_pairs pairs))) pairs) ∙ done.1 in
    (
      done.0,
      (λ f h. all-choose f [] (sort_pairs pairs) refl (
          all-sort_pairs f pairs
          ∙ pairs_from-all f 0 incoming existing (λ j k c r m.
            let first : j ≡ 0 + j = omega arith in
            subst (λ t. f (pair_of t k c r) ≡ true) first (h j k c r m)))),
      (λ i e c r m.
          let first : 0 + i ≡ i = omega arith in
          subst (λ t. any (prevails (pair_of t e c r)) (choose [] (sort_pairs pairs)) ≡ true) first
            (pairs_from-holds (λ p. any (prevails p) (choose [] (sort_pairs pairs))) 0 i e c r
              incoming existing covered m.0 m.1 m.2)),
    )
