-- ===== src/Merges/Shared.antt =====
-- Every proposal of `sweep` has its evidence (apps/jobs/src/ingest/merge-detector.ts).
use text.Mathlib.Text.{◌==◌}
use text.Mathlib.TextEquality.{eq_iff}
use mathlib.Core.Path.{subst}
use capbase.Base.{
  ℕ, ◌≡◌, refl, sym, ap, ◌∙◌, inl, inr, String, Bool, true, false, Option, none, some, List, [],
  ◌∷◌, leb, map, keep, length, has, distinct, has-distinct, All, all, arith, Bool-cases,
  Option-cases,
}
use capbase.Companies.Matcher.{truthy, countries_compatible}
use capbase.Merges.Detector.{
  DetectRow, DetectedPair, group_by, codes, sub_group, by_country, subs_of, sweep,
}
use capbase.Merges.Proposals.{
  Pairwise, All-map, All-both, All-Pairwise, proposal, Fits, group_loop-Holds,
}
use capbase.Merges.Scoped.{
  Member, Keyed, group_by-Keyed, Scoped, Listed, compatible-single, compatible_both,
}

truthy-some : (o : Option String) (c : String) → truthy o ≡ some c → (c == "") ≡ false
truthy-some none c e = ground arith
truthy-some (some s) c e = ground (arith, eq_iff s "", eq_iff c "")

codes-missing :
    (r : DetectRow) (rows : List DetectRow)
    → truthy r.country_code ≡ none
    → codes (r ∷ rows) ≡ codes rows
unfolding codes
codes-missing r rows e = rw (e, codes) refl

codes-found :
    (r : DetectRow) (rows : List DetectRow) (c : String)
    → truthy r.country_code ≡ some c
    → codes (r ∷ rows) ≡ c ∷ codes rows
unfolding codes
codes-found r rows c e = rw (e, codes) refl

codes-Listed : (rows : List DetectRow) → All (Listed (codes rows)) rows
codes-Listed [] = tt
codes-Listed (r ∷ rows) = elim (Option-cases (truthy r.country_code)) [
  | inl missing ↦
      subst (λ l. All (Listed l) (r ∷ rows)) (sym (codes-missing r rows missing))
        ((λ c e. ground arith), codes-Listed rows)
  | inr (d, found) ↦
      subst (λ l. All (Listed l) (r ∷ rows)) (sym (codes-found r rows d found))
        (
          (λ c e. ground (arith, eq_iff d c)),
          All-map (Listed (codes rows)) (Listed (d ∷ codes rows)) rows
              (λ x l c e. ground (arith, l c e)) (codes-Listed rows),
        )
]

codes-named : (rows : List DetectRow) → has "" (codes rows) ≡ false
unfolding codes
codes-named [] = refl
codes-named (r ∷ rows) = elim (Option-cases (truthy r.country_code)) [
  | inl missing ↦ ap (has "") (codes-missing r rows missing) ∙ codes-named rows
  | inr (d, found) ↦
      ap (has "") (codes-found r rows d found)
      ∙ ground (arith, truthy-some r.country_code d found, codes-named rows)
]

module _ (f : DetectedPair → Bool) (p : DetectRow → Bool) (key : DetectRow → String)
    (scope : Bool) where
  -- What the proposals are asked to satisfy: of two rows of one key, within one country if the sweep is
  -- scoped.
  abbrev pub Asked : Type 0
  Asked =
      (a b : DetectRow)
      → p a ≡ true
      → p b ≡ true
      → key a ≡ key b
      → Scoped scope a b
      → f (proposal (key a) a b) ≡ true

module _ (f : DetectedPair → Bool) (p : DetectRow → Bool) (key : DetectRow → String) where
  asked-Fits :
      (scope : Bool) (k : String) (a b : DetectRow)
      → Asked f p key scope
      → Member p key k a
      → Member p key k b
      → Scoped scope a b
      → Fits f k a b
  asked-Fits scope k a b h m n s =
      subst (λ j. f (proposal j a b) ≡ true) m.1 (h a b m.0 n.0 (m.1 ∙ sym n.1) s)

  All-keep :
      (q : DetectRow → Bool) (k : String) (rows : List DetectRow)
      → All (Member p key k) rows
      → All (λ r. Member p key k r × (q r ≡ true)) (keep q rows)
  All-keep q k [] h = tt
  All-keep q k (r ∷ rows) h = elim (Bool-cases (q r)) [
    | inl kept ↦ rw kept ((h.0, kept), All-keep q k rows h.1)
    | inr left ↦ rw left (All-keep q k rows h.1)
  ]

  sub_groups-Fits :
      (k : String) (rows : List DetectRow) (known : List String)
      → Asked f p key true
      → All (Member p key k) rows
      → has "" known ≡ false
      → All (λ sub. Pairwise (Fits f k) sub.1) (map (sub_group rows) known)
  unfolding sub_group
  sub_groups-Fits k rows [] h m n = tt
  sub_groups-Fits k rows (c ∷ known) h m n = (
    All-Pairwise (λ r. Member p key k r × (countries_compatible (some c) r.country_code ≡ true))
        (Fits f k) (keep (λ r. countries_compatible (some c) r.country_code) rows)
        (λ a b x y. asked-Fits true k a b h x.0 y.0 (compatible_both c a b (ground arith) x.1 y.1))
        (All-keep (λ r. countries_compatible (some c) r.country_code) k rows m),
    sub_groups-Fits k rows known h m (ground arith),
  )

  by_country-Fits :
      (k : String) (rows : List DetectRow)
      → Asked f p key true
      → All (Member p key k) rows
      → All (λ sub. Pairwise (Fits f k) sub.1) (by_country rows)
  unfolding by_country
  by_country-Fits k rows h m =
      let known = distinct [] (codes rows) in
      elim (Bool-cases (leb (length known) 1)) [
        | inl single ↦
            let listed : All (Listed known) rows =
              All-map (Listed (codes rows)) (Listed known) rows
                (λ r l c e. has-distinct c [] (codes rows) ∙ l c e) (codes-Listed rows) in
            rw single (
              All-Pairwise (λ r. Member p key k r × Listed known r) (Fits f k) rows
                  (λ a b x y.
                    asked-Fits true k a b h x.0 y.0 (compatible-single known a b single x.1 y.1))
                  (All-both (Member p key k) (Listed known) rows m listed),
              tt,
            )
        | inr several ↦
            rw several (
              sub_groups-Fits k rows known h m (has-distinct "" [] (codes rows) ∙ codes-named rows))
      ]

  subs_of-Fits :
      (scope : Bool) (k : String) (rows : List DetectRow)
      → Asked f p key scope
      → All (Member p key k) rows
      → All (λ sub. Pairwise (Fits f k) sub.1) (subs_of scope rows)
  unfolding subs_of
  subs_of-Fits true k rows h m = by_country-Fits k rows h m
  subs_of-Fits false k rows h m = (
    All-Pairwise (Member p key k) (Fits f k) rows (λ a b x y. asked-Fits false k a b h x y tt) m,
    tt,
  )

-- Every proposal of a sweep is of two of its rows that have the key given as evidence, and of two rows
-- with no two different countries where the sweep is scoped by country: what holds of all such
-- proposals holds of those made.
pub sweep-Holds :
    (f : DetectedPair → Bool) (p : DetectRow → Bool) (rows : List DetectRow)
    (key : DetectRow → String) (limit : ℕ) (scope : Bool)
    → Asked f p key scope
    → all p rows ≡ true
    → all f (sweep rows key limit scope).pairs ≡ true
unfolding sweep
sweep-Holds f p rows key limit scope h a =
    let groups = group_by key [] rows in
    group_loop-Holds f limit scope (record { pairs = []; skipped = []; seen = [] }) groups
      (All-map (Keyed p key) (λ g. All (λ sub. Pairwise (Fits f g.0) sub.1) (subs_of scope g.1))
        groups (λ g m. subs_of-Fits f p key scope g.0 g.1 h m) (group_by-Keyed p key [] rows tt a))
      refl
