-- ===== src/Merges/Proposals.antt =====
-- What `sweep` proposes (apps/jobs/src/ingest/merge-detector.ts).
use capbase.Base.{
  ℕ, ◌≡◌, ◌∙◌, inl, inr, String, Bool, true, List, [], ◌∷◌, ◌++◌, ◌&&◌, ltb, length, has, All, all,
  arith, Bool-cases,
}
use capbase.Merges.Detector.{
  DetectRow, DetectedPair, SweepResult, Group, pair_key, propose, propose_with, propose_all,
  sub_step, sub_loop, subs_of, group_step, group_loop,
}

abbrev pub Pairwise {ℓ κ} : {A : Type ℓ} → (A → A → Type κ) → List A → Type κ
Pairwise R [] = Unit
Pairwise R (x ∷ l) = All (R x) l × Pairwise R l

pub All-map {ℓ κ μ} :
    {A : Type ℓ} (Q : A → Type κ) (R : A → Type μ) (l : List A)
    → ((a : A) → Q a → R a)
    → All Q l
    → All R l
All-map Q R [] h a = tt
All-map Q R (x ∷ l) h a = (h x a.0, All-map Q R l h a.1)

pub All-Pairwise {ℓ κ μ} :
    {A : Type ℓ} (Q : A → Type κ) (R : A → A → Type μ) (l : List A)
    → ((a b : A) → Q a → Q b → R a b)
    → All Q l
    → Pairwise R l
All-Pairwise Q R [] h a = tt
All-Pairwise Q R (x ∷ l) h a =
    (All-map Q (R x) l (λ b q. h x b a.0 q) a.1, All-Pairwise Q R l h a.1)

pub All-both {ℓ κ μ} :
    {A : Type ℓ} (Q : A → Type κ) (R : A → Type μ) (l : List A)
    → All Q l
    → All R l
    → All (λ x. Q x × R x) l
All-both Q R [] h k = tt
All-both Q R (x ∷ l) h k = ((h.0, k.0), All-both Q R l h.1 k.1)

all-append_one :
    (f : DetectedPair → Bool) (l : List DetectedPair) (p : DetectedPair)
    → all f (l ++ p ∷ []) ≡ (all f l && f p)
all-append_one f [] p = ground arith
all-append_one f (q ∷ l) p = ground (arith, all-append_one f l p)

-- The proposal of two rows under a key.
abbrev pub proposal : String → DetectRow → DetectRow → DetectedPair
proposal k a b = record { a_id = a.id; b_id = b.id; evidence = k }

module _ (f : DetectedPair → Bool) where
  abbrev pub Holds : SweepResult → Type 0
  Holds out = all f out.pairs ≡ true

  abbrev pub Fits : String → DetectRow → DetectRow → Type 0
  Fits k a b = f (proposal k a b) ≡ true

  propose-Holds :
      (k : String) (a : DetectRow) (out : SweepResult) (b : DetectRow)
      → Fits k a b
      → Holds out
      → Holds (propose k a out b)
  unfolding propose
  propose-Holds k a out b h o = elim (Bool-cases (has (pair_key a.id b.id) out.seen)) [
    | inl again ↦ rw again o
    | inr new ↦ rw new (all-append_one f out.pairs (proposal k a b) ∙ ground arith)
  ]

  propose_with-Holds :
      (k : String) (a : DetectRow) (out : SweepResult) (l : List DetectRow)
      → All (Fits k a) l
      → Holds out
      → Holds (propose_with k a out l)
  unfolding propose_with
  propose_with-Holds k a out [] h o = o
  propose_with-Holds k a out (b ∷ l) h o =
      propose_with-Holds k a (propose k a out b) l h.1 (propose-Holds k a out b h.0 o)

  propose_all-Holds :
      (k : String) (out : SweepResult) (l : List DetectRow)
      → Pairwise (Fits k) l
      → Holds out
      → Holds (propose_all k out l)
  unfolding propose_all
  propose_all-Holds k out [] h o = o
  propose_all-Holds k out (a ∷ l) h o =
      propose_all-Holds k (propose_with k a out l) l h.1 (propose_with-Holds k a out l h.0 o)

  sub_loop-Holds :
      (limit : ℕ) (k : String) (out : SweepResult) (subs : List Group)
      → All (λ sub. Pairwise (Fits k) sub.1) subs
      → Holds out
      → Holds (sub_loop limit k out subs)
  unfolding sub_loop sub_step
  sub_loop-Holds limit k out [] h o = o
  sub_loop-Holds limit k out (sub ∷ subs) h o =
      sub_loop-Holds limit k (sub_step limit k out sub) subs h.1
        (elim (Bool-cases (ltb (length sub.1) 2)) [
          | inl single ↦ rw single o
          | inr more ↦ rw more (elim (Bool-cases (ltb limit (length sub.1))) [
            | inl many ↦ rw many o
            | inr few ↦ rw few (propose_all-Holds k out sub.1 h.0 o)
          ])
        ])

  pub group_loop-Holds :
      (limit : ℕ) (scope : Bool) (out : SweepResult) (groups : List Group)
      → All (λ g. All (λ sub. Pairwise (Fits g.0) sub.1) (subs_of scope g.1)) groups
      → Holds out
      → Holds (group_loop limit scope out groups)
  unfolding group_loop group_step
  group_loop-Holds limit scope out [] h o = o
  group_loop-Holds limit scope out (g ∷ groups) h o =
      group_loop-Holds limit scope (group_step limit scope out g) groups h.1
        (elim (Bool-cases (ltb (length g.1) 2)) [
          | inl single ↦ rw single o
          | inr more ↦ rw more (sub_loop-Holds limit g.0 out (subs_of scope g.1) h.0 o)
        ])
