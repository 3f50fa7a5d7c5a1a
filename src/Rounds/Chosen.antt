-- ===== src/Rounds/Chosen.antt =====
-- `pairNearDuplicates` pairs one to one, and nearest first (apps/jobs/src/ingest/round-dedup.ts).
use mathlib.Core.Path.{subst}
use capbase.Base.{
  ◌≡◌, refl, ◌∙◌, inl, inr, Bool, true, false, List, [], ◌∷◌, ◌++◌, ◌&&◌, if◌then◌else◌, all, any,
  arith, Bool-cases,
}
use capbase.Rounds.Dedup.{Pair, closer, taken, choose}
use capbase.Rounds.Pairing.{
  meets, prevails, OneToOne, closer_refl, any-append_one, all-append_one, Sorted, any-choose,
  all-weaken,
}

OneToOne-append_one :
    (l : List Pair) (p : Pair) → OneToOne l → taken p l ≡ false → OneToOne (l ++ p ∷ [])
OneToOne-append_one [] p h k = (refl, tt)
OneToOne-append_one (q ∷ l) p h k =
    (any-append_one (meets q) l p ∙ ground arith, OneToOne-append_one l p h.1 (ground arith))

-- Of the chosen pairs, all as close as `p`, one that shares a round with it prevails.
taken-prevails :
    (p : Pair) (l chosen : List Pair)
    → taken p chosen ≡ true
    → all (λ q. all (closer q) (p ∷ l)) chosen ≡ true
    → any (prevails p) chosen ≡ true
taken-prevails p l [] h k = ground arith
taken-prevails p l (q ∷ chosen) h k = ground (arith, taken-prevails p l chosen)

-- What is to hold of the pairs chosen from `p` and `l`.
abbrev Covers : Pair → List Pair → List Pair → Type 0
Covers p l out = OneToOne out × ((any (prevails p) out && all (λ q. any (prevails q) out) l) ≡ true)

-- The pairs chosen after one round.
abbrev next_of : List Pair → Pair → List Pair
next_of chosen p = if taken p chosen then chosen else chosen ++ p ∷ []

pub choose-lem :
    (chosen l : List Pair)
    → OneToOne chosen
    → Sorted l
    → all (λ q. all (closer q) l) chosen ≡ true
    → OneToOne (choose chosen l) × (all (λ p. any (prevails p) (choose chosen l)) l ≡ true)
unfolding choose
choose-lem chosen [] h s k = (h, refl)
choose-lem chosen (p ∷ l) h s k =
    let fewer =
      all-weaken (λ q. all (closer q) (p ∷ l)) (λ q. all (closer q) l) chosen (λ q a. ground arith)
        k in
    elim (Bool-cases (taken p chosen)) [
      | inl used ↦
          let same_used : chosen ≡ next_of chosen p = rw used refl in
          let ih = choose-lem chosen l h s.1 fewer in
          let own = any-choose (prevails p) chosen l (taken-prevails p l chosen used k) in
          subst (λ c. Covers p l (choose c l)) same_used (ih.0, ground (arith, own, ih.1))
      | inr free ↦
          let same_free : chosen ++ p ∷ [] ≡ next_of chosen p = rw free refl in
          let more : all (λ q. all (closer q) l) (chosen ++ p ∷ []) ≡ true =
            all-append_one (λ q. all (closer q) l) chosen p ∙ ground (arith, fewer, s.0) in
          let ih = choose-lem (chosen ++ p ∷ []) l (OneToOne-append_one chosen p h free) s.1 more in
          let own =
            any-choose (prevails p) (chosen ++ p ∷ []) l
              (any-append_one (prevails p) chosen p ∙ ground (arith, closer_refl p)) in
          subst (λ c. Covers p l (choose c l)) same_free (ih.0, ground (arith, own, ih.1))
    ]

-- Only pairs of the list are chosen.
pub all-choose :
    (f : Pair → Bool) (chosen l : List Pair)
    → all f chosen ≡ true
    → all f l ≡ true
    → all f (choose chosen l) ≡ true
unfolding choose
all-choose f chosen [] h k = h
all-choose f chosen (p ∷ l) h k = elim (Bool-cases (taken p chosen)) [
  | inl used ↦ rw used (all-choose f chosen l h (ground arith))
  | inr free ↦
      rw free (
        all-choose f (chosen ++ p ∷ []) l (all-append_one f chosen p ∙ ground arith) (ground arith))
]
