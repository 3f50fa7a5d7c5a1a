-- ===== src/Rounds/Pairing.antt =====
-- Which pairs `pairNearDuplicates` chooses (apps/jobs/src/ingest/round-dedup.ts).
use capbase.Base.{
  ◌≡◌, refl, ap, ◌∙◌, inl, inr, Bool, true, false, List, [], ◌∷◌, ◌++◌, ◌&&◌, ◌||◌, ◌==◌, all, any,
  arith, Bool-cases,
}
use capbase.Rounds.Dedup.{Pair, closer, insert_pair, sort_pairs, taken, choose}

-- The two pairs share a round.
abbrev pub meets : Pair → Pair → Bool
meets p q = q.i == p.i || q.e == p.e

-- `q` keeps `p` out: it shares a round with `p` and is no further apart.
abbrev pub prevails : Pair → Pair → Bool
prevails p q = meets p q && closer q p

-- No two of the pairs share a round.
abbrev pub OneToOne : List Pair → Type 0
OneToOne [] = Unit
OneToOne (p ∷ l) = (any (meets p) l ≡ false) × OneToOne l

closer_trans : (p q r : Pair) → closer p q ≡ true → closer q r ≡ true → closer p r ≡ true
unfolding closer
closer_trans p q r h k = ground arith

closer_total : (p q : Pair) → closer p q ≡ false → closer q p ≡ true
unfolding closer
closer_total p q h = ground arith

pub closer_refl : (p : Pair) → closer p p ≡ true
unfolding closer
closer_refl p = ground arith

pub all-weaken :
    (f g : Pair → Bool) (l : List Pair)
    → ((p : Pair) → f p ≡ true → g p ≡ true)
    → all f l ≡ true
    → all g l ≡ true
all-weaken f g [] h a = refl
all-weaken f g (p ∷ l) h a = ground (arith, h p, all-weaken f g l h)

pub any-append_one :
    (f : Pair → Bool) (l : List Pair) (p : Pair) → any f (l ++ p ∷ []) ≡ (any f l || f p)
any-append_one f [] p = ground arith
any-append_one f (q ∷ l) p = ground (arith, any-append_one f l p)

pub all-append_one :
    (f : Pair → Bool) (l : List Pair) (p : Pair) → all f (l ++ p ∷ []) ≡ (all f l && f p)
all-append_one f [] p = ground arith
all-append_one f (q ∷ l) p = ground (arith, all-append_one f l p)

all-insert_pair :
    (f : Pair → Bool) (p : Pair) (l : List Pair) → all f (insert_pair p l) ≡ (f p && all f l)
unfolding insert_pair
all-insert_pair f p [] = refl
all-insert_pair f p (q ∷ l) = ground (arith, all-insert_pair f p l)

pub all-sort_pairs : (f : Pair → Bool) (l : List Pair) → all f (sort_pairs l) ≡ all f l
unfolding sort_pairs
all-sort_pairs f [] = refl
all-sort_pairs f (p ∷ l) =
    all-insert_pair f p (sort_pairs l) ∙ ap (λ b. f p && b) (all-sort_pairs f l)

-- Each pair is at least as close as those behind it.
abbrev pub Sorted : List Pair → Type 0
Sorted [] = Unit
Sorted (p ∷ l) = (all (closer p) l ≡ true) × Sorted l

insert_pair-Sorted : (p : Pair) (l : List Pair) → Sorted l → Sorted (insert_pair p l)
unfolding insert_pair
insert_pair-Sorted p [] h = (refl, tt)
insert_pair-Sorted p (q ∷ l) h = elim (Bool-cases (closer p q)) [
  | inl before ↦
      let behind = all-weaken (closer q) (closer p) l (λ r. closer_trans p q r before) h.0 in
      rw before (ground arith, h)
  | inr after ↦ rw after (
    all-insert_pair (closer q) p l ∙ ground (arith, closer_total p q),
    insert_pair-Sorted p l h.1,
  )
]

pub sort_pairs-Sorted : (l : List Pair) → Sorted (sort_pairs l)
unfolding sort_pairs
sort_pairs-Sorted [] = tt
sort_pairs-Sorted (p ∷ l) = insert_pair-Sorted p (sort_pairs l) (sort_pairs-Sorted l)

-- A choice never drops a pair.
pub any-choose :
    (f : Pair → Bool) (chosen l : List Pair) → any f chosen ≡ true → any f (choose chosen l) ≡ true
unfolding choose
any-choose f chosen [] h = h
any-choose f chosen (p ∷ l) h = elim (Bool-cases (taken p chosen)) [
  | inl used ↦ rw used (any-choose f chosen l h)
  | inr free ↦
      rw free (any-choose f (chosen ++ p ∷ []) l (any-append_one f chosen p ∙ ground arith))
]
