-- ===== src/Merges/Scoped.antt =====
-- The groups of `sweep`, and what its proposals have in common
-- (apps/jobs/src/ingest/merge-detector.ts).
use text.Mathlib.Text.{◌==◌}
use text.Mathlib.TextEquality.{eq_iff}
use capbase.Base.{
  ◌≡◌, refl, sym, ◌∙◌, inl, inr, String, Bool, true, false, some, List, [], ◌∷◌, ◌++◌, leb, length,
  lookup, insert, or_else, has, All, all, arith, Bool-cases, Option-cases,
}
use capbase.Companies.Matcher.{truthy, countries_compatible}
use capbase.Merges.Detector.{DetectRow, Group, group_by}
use capbase.Merges.Proposals.{All-map}

module _ (p : DetectRow → Bool) (key : DetectRow → String) where
  abbrev pub Member : String → DetectRow → Type 0
  Member k r = (p r ≡ true) × (key r ≡ k)

  abbrev pub Keyed : Group → Type 0
  Keyed g = All (Member g.0) g.1

  lookup-Keyed :
      (k : String) (groups : List Group)
      → All Keyed groups
      → All (Member k) (or_else (lookup k groups) [])
  lookup-Keyed k [] h = tt
  lookup-Keyed k (g ∷ groups) h = elim (Bool-cases (g.0 == k)) [
    | inr other ↦ rw other (lookup-Keyed k groups h.1)
    | inl same ↦
        let q : g.0 ≡ k = ground (arith, eq_iff g.0 k) in
        rw same (All-map (Member g.0) (Member k) g.1 (λ r m. (m.0, m.1 ∙ q)) h.0)
  ]

  insert-Keyed :
      (k : String) (rows : List DetectRow) (groups : List Group)
      → All (Member k) rows
      → All Keyed groups
      → All Keyed (insert k rows groups)
  insert-Keyed k rows [] m h = (m, tt)
  insert-Keyed k rows (g ∷ groups) m h = elim (Bool-cases (g.0 == k)) [
    | inr other ↦ rw other (h.0, insert-Keyed k rows groups m h.1)
    | inl same ↦
        let q : g.0 ≡ k = ground (arith, eq_iff g.0 k) in
        rw same (All-map (Member k) (Member g.0) rows (λ r x. (x.0, x.1 ∙ sym q)) m, h.1)
  ]

  All-append_one :
      (Q : DetectRow → Type 0) (l : List DetectRow) (r : DetectRow)
      → All Q l
      → Q r
      → All Q (l ++ r ∷ [])
  All-append_one Q [] r h k = (k, tt)
  All-append_one Q (x ∷ l) r h k = (h.0, All-append_one Q l r h.1 k)

  pub group_by-Keyed :
      (groups : List Group) (rows : List DetectRow)
      → All Keyed groups
      → all p rows ≡ true
      → All Keyed (group_by key groups rows)
  unfolding group_by
  group_by-Keyed groups [] h a = h
  group_by-Keyed groups (r ∷ rows) h a =
      let k = key r in
      let found = or_else (lookup k groups) [] in
      let own : Member k r = (ground arith, refl) in
      let pushed =
        insert-Keyed k (found ++ r ∷ []) groups
          (All-append_one (Member k) found r (lookup-Keyed k groups h) own) h in
      elim (Bool-cases (k == "")) [
        | inl blank ↦ rw blank (group_by-Keyed groups rows h (ground arith))
        | inr named ↦
            rw named (group_by-Keyed (insert k (found ++ r ∷ []) groups) rows pushed (ground arith))
      ]

-- Where the sweep is scoped by country, the two rows have no two different countries.
abbrev pub Scoped : Bool → DetectRow → DetectRow → Type 0
Scoped false a b = Unit
Scoped true a b = countries_compatible a.country_code b.country_code ≡ true

-- At most one text in a list.
has-single :
    (l : List String) (a b : String)
    → leb (length l) 1 ≡ true
    → has a l ≡ true
    → has b l ≡ true
    → (a == b) ≡ true
has-single [] a b s h k = ground arith
has-single (x ∷ []) a b s h k = ground (arith, eq_iff x a, eq_iff x b, eq_iff a b)
has-single (x ∷ y ∷ l) a b s h k = ground arith

-- The row's country, if it has one, is in the list.
abbrev pub Listed : List String → DetectRow → Type 0
Listed known r = (c : String) → truthy r.country_code ≡ some c → has c known ≡ true

pub compatible-single :
    (known : List String) (a b : DetectRow)
    → leb (length known) 1 ≡ true
    → Listed known a
    → Listed known b
    → countries_compatible a.country_code b.country_code ≡ true
unfolding countries_compatible
compatible-single known a b s h k = elim (Option-cases (truthy a.country_code)) [
  | inl none_a ↦ ground (arith, none_a)
  | inr (c, found) ↦ elim (Option-cases (truthy b.country_code)) [
    | inl none_b ↦ ground (arith, found, none_b)
    | inr (d, other) ↦ ground (arith, found, other, h c found, k d other, has-single known c d)
  ]
]

pub compatible_both :
    (c : String) (a b : DetectRow)
    → (c == "") ≡ false
    → countries_compatible (some c) a.country_code ≡ true
    → countries_compatible (some c) b.country_code ≡ true
    → countries_compatible a.country_code b.country_code ≡ true
unfolding countries_compatible
compatible_both c a b n h k = elim (Option-cases (truthy a.country_code)) [
  | inl none_a ↦ ground (arith, none_a)
  | inr (d, found) ↦ elim (Option-cases (truthy b.country_code)) [
    | inl none_b ↦ ground (arith, found, none_b)
    | inr (e, other) ↦ ground (arith, found, other, eq_iff c d, eq_iff c e, eq_iff d e)
  ]
]
