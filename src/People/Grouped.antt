-- ===== src/People/Grouped.antt =====
-- The groups of `variantPairs`, by full key (apps/jobs/src/ingest/person-matcher.ts).
use mathlib.Core.Path.{subst}
use capbase.Base.{
  ℕ, ◌≡◌, refl, sym, ap, ◌∙◌, inl, inr, Bool, true, false, none, some, List, [], ◌∷◌, ◌++◌, ◌&&◌,
  ltb, Text, CaseTables, eq_text, eq_text-same, has_text, length, or_else, All, all, arith,
  Bool-cases, Option-cases,
}
use capbase.People.Assign.{get, put}
use capbase.People.Safe.{NoDup, NoDup-append_one}
use capbase.People.Variants.{
  AssignedRole, VariantPair, VariantResult, full_key, add_text, add_to_group, group_people,
  evidence_of, pairs_after, pairs_of, propose_group, propose_groups, variant_pairs,
}

All-append_one {ℓ κ} :
    {A : Type ℓ} (P : A → Type κ) (l : List A) (x : A) → All P l → P x → All P (l ++ x ∷ [])
All-append_one P [] x h k = (k, tt)
All-append_one P (y ∷ l) x h k = (h.0, All-append_one P l x h.1 k)

All-map {ℓ κ μ} :
    {A : Type ℓ} (Q : A → Type κ) (R : A → Type μ) (l : List A)
    → ((a : A) → Q a → R a)
    → All Q l
    → All R l
All-map Q R [] h a = tt
All-map Q R (x ∷ l) h a = (h x a.0, All-map Q R l h a.1)

all-append :
    (f : VariantPair → Bool) (l m : List VariantPair) → all f (l ++ m) ≡ (all f l && all f m)
all-append f [] m = refl
all-append f (p ∷ l) m = ground (arith, all-append f l m)

abbrev pub variant : Text → Text → Text → VariantPair
variant full a b = record { a_id = a; b_id = b; evidence = evidence_of full }

module _ (tables : CaseTables) (p : AssignedRole → Bool) where
  -- The person has a role with the key.
  abbrev Holder : Text → Text → Type 0
  Holder full id =
      (r : AssignedRole) × (p r ≡ true) × (full_key tables r ≡ some full) × (r.person_id ≡ id)

  -- A group has different people, each with a role of its key.
  abbrev Grouped : Text × List Text → Type 0
  Grouped g = NoDup g.1 × All (Holder g.0) g.1

  get-Grouped :
      (k : Text) (groups : List (Text × List Text))
      → All Grouped groups
      → NoDup (or_else (get k groups) []) × All (Holder k) (or_else (get k groups) [])
  unfolding get
  get-Grouped k [] h = (tt, tt)
  get-Grouped k (g ∷ groups) h = elim (Bool-cases (eq_text g.0 k)) [
    | inr other ↦ rw other (get-Grouped k groups h.1)
    | inl same ↦
        let q = eq_text-same g.0 k same in
        rw same (
          h.0.0,
          All-map (Holder g.0) (Holder k) g.1 (λ id m. (m.0, m.1, m.2 ∙ ap some q, m.3)) h.0.1,
        )
  ]

  put-Grouped :
      (k : Text) (people : List Text) (groups : List (Text × List Text))
      → NoDup people
      → All (Holder k) people
      → All Grouped groups
      → All Grouped (put k people groups)
  unfolding put
  put-Grouped k people [] n m h = ((n, m), tt)
  put-Grouped k people (g ∷ groups) n m h = elim (Bool-cases (eq_text g.0 k)) [
    | inr other ↦ rw other (h.0, put-Grouped k people groups n m h.1)
    | inl same ↦
        let q = eq_text-same g.0 k same in
        rw same (
          (
            n,
            All-map (Holder k) (Holder g.0) people (λ id x. (x.0, x.1, x.2 ∙ ap some (sym q), x.3))
                m,
          ),
          h.1,
        )
  ]

  add_text-Grouped :
      (k id : Text) (people : List Text)
      → Holder k id
      → NoDup people
      → All (Holder k) people
      → NoDup (add_text id people) × All (Holder k) (add_text id people)
  unfolding add_text
  add_text-Grouped k id people x n m = elim (Bool-cases (has_text id people)) [
    | inl present ↦ rw present (n, m)
    | inr new ↦ rw new (NoDup-append_one id people n new, All-append_one (Holder k) people id m x)
  ]

  add_to_group-unkeyed :
      (groups : List (Text × List Text)) (r : AssignedRole)
      → full_key tables r ≡ none
      → add_to_group tables groups r ≡ groups
  unfolding add_to_group
  add_to_group-unkeyed groups r e = rw (e, add_to_group) refl

  add_to_group-keyed :
      (groups : List (Text × List Text)) (r : AssignedRole) (full : Text)
      → full_key tables r ≡ some full
      → add_to_group tables groups r
        ≡ put full (add_text r.person_id (or_else (get full groups) [])) groups
  unfolding add_to_group
  add_to_group-keyed groups r full e = rw (e, add_to_group) refl

  add_to_group-Grouped :
      (groups : List (Text × List Text)) (r : AssignedRole)
      → All Grouped groups
      → p r ≡ true
      → All Grouped (add_to_group tables groups r)
  add_to_group-Grouped groups r h a = elim (Option-cases (full_key tables r)) [
    | inl unkeyed ↦ subst (All Grouped) (sym (add_to_group-unkeyed groups r unkeyed)) h
    | inr (full, found) ↦
        let old = get-Grouped full groups h in
        let new =
          add_text-Grouped full r.person_id (or_else (get full groups) []) (r, a, found, refl) old.0
            old.1 in
        subst (All Grouped) (sym (add_to_group-keyed groups r full found)) (
          put-Grouped full (add_text r.person_id (or_else (get full groups) [])) groups new.0 new.1
            h)
  ]

  group_people-Grouped :
      (groups : List (Text × List Text)) (roles : List AssignedRole)
      → All Grouped groups
      → all p roles ≡ true
      → All Grouped (group_people tables groups roles)
  unfolding group_people
  group_people-Grouped groups [] h a = h
  group_people-Grouped groups (r ∷ roles) h a =
      group_people-Grouped (add_to_group tables groups r) roles
        (add_to_group-Grouped groups r h (ground arith)) (ground arith)

module _ (tables : CaseTables) (p : AssignedRole → Bool) (f : VariantPair → Bool) where
  -- The pairs of two roles of one full key, held by different people.
  abbrev pub KeyedPair : Type 0
  KeyedPair =
      (r s : AssignedRole) (full : Text)
      → p r ≡ true
      → p s ≡ true
      → full_key tables r ≡ some full
      → full_key tables s ≡ some full
      → eq_text s.person_id r.person_id ≡ false
      → f (variant full r.person_id s.person_id) ≡ true

  pairs_after-all :
      (full a : Text) (people : List Text)
      → KeyedPair
      → Holder tables p full a
      → has_text a people ≡ false
      → All (Holder tables p full) people
      → all f (pairs_after (evidence_of full) a people) ≡ true
  unfolding pairs_after has_text
  pairs_after-all full a [] h x n m = refl
  pairs_after-all full a (b ∷ people) h x n m =
      let y = m.0 in
      let other : eq_text y.0.person_id x.0.person_id ≡ false =
        ap (eq_text y.0.person_id) x.3 ∙ ap (λ t. eq_text t a) y.3 ∙ ground arith in
      let own : f (variant full a b) ≡ true =
        ap (λ t. f (variant full t b)) (sym x.3)
        ∙ ap (λ t. f (variant full x.0.person_id t)) (sym y.3)
        ∙ h x.0 y.0 full x.1 y.1 x.2 y.2 other in
      ground (arith, own, pairs_after-all full a people h x (ground arith) m.1)

  pairs_of-all :
      (full : Text) (people : List Text)
      → KeyedPair
      → NoDup people
      → All (Holder tables p full) people
      → all f (pairs_of (evidence_of full) people) ≡ true
  unfolding pairs_of
  pairs_of-all full [] h n m = refl
  pairs_of-all full (a ∷ people) h n m =
      all-append f (pairs_after (evidence_of full) a people) (pairs_of (evidence_of full) people)
      ∙ ground
          (arith, pairs_after-all full a people h m.0 n.0 m.1, pairs_of-all full people h n.1 m.1)

  propose_groups-all :
      (limit : ℕ) (out : VariantResult) (groups : List (Text × List Text))
      → KeyedPair
      → All (Grouped tables p) groups
      → all f out.pairs ≡ true
      → all f (propose_groups limit out groups).pairs ≡ true
  unfolding propose_groups propose_group
  propose_groups-all limit out [] h g o = o
  propose_groups-all limit out (group ∷ groups) h g o =
      propose_groups-all limit (propose_group limit out group) groups h g.1
        (elim (Bool-cases (ltb (length group.1) 2)) [
          | inl single ↦ rw single o
          | inr more ↦ rw more (elim (Bool-cases (ltb limit (length group.1))) [
            | inl many ↦ rw many o
            | inr few ↦ rw few (
                all-append f out.pairs (pairs_of (evidence_of group.0) group.1)
                ∙ ground (arith, o, pairs_of-all group.0 group.1 h g.0.0 g.0.1))
          ])
        ])

pub variant_pairs-keyed :
    (tables : CaseTables) (p : AssignedRole → Bool) (f : VariantPair → Bool)
    (roles : List AssignedRole) (limit : ℕ)
    → KeyedPair tables p f
    → all p roles ≡ true
    → all f (variant_pairs tables roles limit).pairs ≡ true
unfolding variant_pairs
variant_pairs-keyed tables p f roles limit h a =
    propose_groups-all tables p f limit (record { pairs = []; skipped = [] })
      (group_people tables [] roles) h (group_people-Grouped tables p [] roles tt a) refl
