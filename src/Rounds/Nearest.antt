-- ===== src/Rounds/Nearest.antt =====
-- What `findNearDuplicate` finds (apps/jobs/src/ingest/round-dedup.ts).
use capbase.Base.{
  ℕ, ◌≡◌, refl, sym, inl, inr, Bool, true, false, Option, none, some, List, [], ◌∷◌, ◌&&◌, ◌||◌,
  ◌==◌, ltb, leb, All, all, arith, Bool-cases,
}
use capbase.Rounds.Dedup.{
  RoundLike, Best, compatible, apart, gap_of, improves, best_step, best_loop, find_near_duplicate,
  round_of,
}

-- In the order by days and then by gap.
abbrev pub first_by : ℕ → ℕ → ℕ → ℕ → Bool
first_by d g d2 g2 = ltb d d2 || (d == d2 && leb g g2)

first_by-improves :
    (d g d2 g2 d3 g3 : ℕ)
    → (ltb d d2 || (d == d2 && ltb g g2)) ≡ true
    → first_by d2 g2 d3 g3 ≡ true
    → first_by d g d3 g3 ≡ true
first_by-improves d g d2 g2 d3 g3 h k = ground arith

first_by-total :
    (d g d2 g2 : ℕ) → (ltb d d2 || (d == d2 && ltb g g2)) ≡ false → first_by d2 g2 d g ≡ true
first_by-total d g d2 g2 h = ground arith

-- The round is no nearer than the best one: a later date, or the same and no smaller gap.
abbrev pub no_nearer : RoundLike → RoundLike → RoundLike → Bool
no_nearer candidate best r =
    first_by (apart candidate best) (gap_of candidate best) (apart candidate r) (gap_of candidate r)

-- The best round so far is at least as near as `r`.
abbrev beats : RoundLike → Option Best → RoundLike → Bool
beats candidate none r = false
beats candidate (some b) r = no_nearer candidate b.round r

-- The distances kept are those of the round kept, which passes the tests.
abbrev Kept : RoundLike → Option Best → Type 0
Kept candidate none = Unit
Kept candidate (some b) =
    (compatible candidate b.round ≡ true)
    × (b.days ≡ apart candidate b.round)
    × (b.gap ≡ gap_of candidate b.round)

abbrev Passes : (RoundLike → Bool) → Option Best → Type 0
Passes p none = Unit
Passes p (some b) = p b.round ≡ true

module _ (candidate : RoundLike) where
  best_step-Kept :
      (best : Option Best) (r : RoundLike)
      → Kept candidate best
      → Kept candidate (best_step candidate best r)
  unfolding best_step
  best_step-Kept best r h = elim (Bool-cases (compatible candidate r)) [
    | inr refused ↦ rw refused h
    | inl passed ↦
        rw passed (elim (Bool-cases (improves (apart candidate r) (gap_of candidate r) best)) [
          | inl better ↦ rw better (passed, refl, refl)
          | inr worse ↦ rw worse h
        ])
  ]

  -- A step loses nothing, and covers its own round.
  best_step-beats :
      (best : Option Best) (r : RoundLike)
      → Kept candidate best
      → ((x : RoundLike)
          → beats candidate best x ≡ true
          → beats candidate (best_step candidate best r) x ≡ true)
        × (compatible candidate r ≡ true → beats candidate (best_step candidate best r) r ≡ true)
  unfolding best_step
  best_step-beats none r h = elim (Bool-cases (compatible candidate r)) [
    | inr refused ↦ rw refused (λ x k. k, λ k. ground arith)
    | inl passed ↦ rw passed (λ x k. ground arith, λ k. ground arith)
  ]
  best_step-beats (some b) r h = elim (Bool-cases (compatible candidate r)) [
    | inr refused ↦ rw refused (λ x k. k, λ k. ground arith)
    | inl passed ↦
        rw passed (elim (Bool-cases (improves (apart candidate r) (gap_of candidate r) (some b))) [
          | inl better ↦ rw better (
            λ x k.
                first_by-improves (apart candidate r) (gap_of candidate r) (apart candidate b.round)
                  (gap_of candidate b.round) (apart candidate x) (gap_of candidate x)
                  (rw (sym h.1, sym h.2) better) k,
            λ k. ground arith,
          )
          | inr worse ↦ rw worse (
            λ x k. k,
            λ k.
                first_by-total (apart candidate r) (gap_of candidate r) (apart candidate b.round)
                  (gap_of candidate b.round) (rw (sym h.1, sym h.2) worse),
          )
        ])
  ]

  best_step-Passes :
      (p : RoundLike → Bool) (best : Option Best) (r : RoundLike)
      → Passes p best
      → p r ≡ true
      → Passes p (best_step candidate best r)
  unfolding best_step
  best_step-Passes p best r h k = elim (Bool-cases (compatible candidate r)) [
    | inr refused ↦ rw refused h
    | inl passed ↦
        rw passed (elim (Bool-cases (improves (apart candidate r) (gap_of candidate r) best)) [
          | inl better ↦ rw better k
          | inr worse ↦ rw worse h
        ])
  ]

  best_loop-Kept :
      (best : Option Best) (l : List RoundLike)
      → Kept candidate best
      → Kept candidate (best_loop candidate best l)
        × ((x : RoundLike)
            → beats candidate best x ≡ true
            → beats candidate (best_loop candidate best l) x ≡ true)
        × All
            (λ r.
              compatible candidate r ≡ true → beats candidate (best_loop candidate best l) r ≡ true)
            l
  unfolding best_loop
  best_loop-Kept best [] h = (h, (λ x k. k), tt)
  best_loop-Kept best (r ∷ l) h =
      let step = best_step-beats best r h in
      let rest = best_loop-Kept (best_step candidate best r) l (best_step-Kept best r h) in
      (rest.0, (λ x k. rest.1 x (step.0 x k)), ((λ k. rest.1 r (step.1 k)), rest.2))

  best_loop-Passes :
      (p : RoundLike → Bool) (best : Option Best) (l : List RoundLike)
      → Passes p best
      → all p l ≡ true
      → Passes p (best_loop candidate best l)
  unfolding best_loop
  best_loop-Passes p best [] h k = h
  best_loop-Passes p best (r ∷ l) h k =
      best_loop-Passes p (best_step candidate best r) l (best_step-Passes p best r h (ground arith))
        (ground arith)

-- What is found: nothing, and then no round passes the tests; or a round of the list (whatever holds
-- of all of them holds of it) that passes them, such that no round that passes is nearer.
abbrev pub Nearest : RoundLike → List RoundLike → Option RoundLike → Type 0
Nearest candidate existing none = All (λ r. compatible candidate r ≡ false) existing
Nearest candidate existing (some best) =
    (compatible candidate best ≡ true)
    × ((p : RoundLike → Bool) → all p existing ≡ true → p best ≡ true)
    × All (λ r. compatible candidate r ≡ true → no_nearer candidate best r ≡ true) existing

none_compatible :
    (candidate : RoundLike) (l : List RoundLike)
    → All (λ r. compatible candidate r ≡ true → false ≡ true) l
    → All (λ r. compatible candidate r ≡ false) l
none_compatible candidate [] h = tt
none_compatible candidate (r ∷ l) h = (ground (arith, h.0), none_compatible candidate l h.1)

best-Nearest :
    (candidate : RoundLike) (existing : List RoundLike) (best : Option Best)
    → Kept candidate best
      × ((x : RoundLike) → beats candidate none x ≡ true → beats candidate best x ≡ true)
      × All (λ r. compatible candidate r ≡ true → beats candidate best r ≡ true) existing
    → ((p : RoundLike → Bool) → all p existing ≡ true → Passes p best)
    → Nearest candidate existing (round_of best)
best-Nearest candidate existing none h k = none_compatible candidate existing h.2
best-Nearest candidate existing (some b) h k = (h.0.0, k, h.2)

-- `findNearDuplicate` returns null only where no round of the list passes its tests, and otherwise a
-- round of the list that passes them and to which none that passes is preferred: none is closer in
-- date, nor as close in date and closer in amount.
pub find_near_duplicate-Nearest :
    (candidate : RoundLike) (existing : List RoundLike)
    → Nearest candidate existing (find_near_duplicate candidate existing)
unfolding find_near_duplicate
find_near_duplicate-Nearest candidate existing =
    best-Nearest candidate existing (best_loop candidate none existing)
      (best_loop-Kept candidate none existing tt)
      (λ p. best_loop-Passes candidate p none existing tt)
