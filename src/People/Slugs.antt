-- ===== src/People/Slugs.antt =====
-- `uniquePersonSlug` of apps/jobs/src/ingest/person-matcher.ts: its loop ends on a slug that is free.
use Prim.Native.Nat.{zero, suc}
use capbase.Base.{
  ℕ, ◌+◌, ◌<◌, ◌≡◌, refl, sym, ap, ◌∙◌, inl, inr, true, false, Option, none, some, List, [], ◌∷◌,
  ◌++◌, ◌==◌, if◌then◌else◌, Text, eq_text, eq_text-same, has_text, decimal, decimal-injective,
  length, is_some, arith, Bool-cases, Option-cases,
}

-- The candidates, in order: the base, and the base with `-2`, `-3`, ...
unfoldable pub slug_candidate : Text → ℕ → Text
slug_candidate base n = if n == 1 then base else base ++ b'-' ∷ decimal n

unfoldable pub free_slug : ℕ → Text → ℕ → List Text → Option Text
free_slug zero base n taken = none
free_slug (suc fuel) base n taken =
    let later = free_slug fuel base (n + 1) taken in
    if has_text (slug_candidate base n) taken then later else some (slug_candidate base n)

unfoldable pub unique_person_slug : Text → List Text → Option Text
unfolding free_slug
unique_person_slug base taken = free_slug (suc (length taken)) base 1 taken

append-ne : (s t : Text) (c : ℕ) → (s ≡ s ++ c ∷ t) → ⊥
append-ne [] t c e = ground arith
append-ne (x ∷ s) t c e = append-ne s t c (ground arith)

append-cancel : (s t u : Text) (c : ℕ) → s ++ c ∷ t ≡ s ++ c ∷ u → t ≡ u
append-cancel [] t u c e = ground arith
append-cancel (x ∷ s) t u c e = append-cancel s t u c (ground arith)

slug_candidate-injective :
    (base : Text) (m n : ℕ) → slug_candidate base m ≡ slug_candidate base n → m ≡ n
unfolding slug_candidate
slug_candidate-injective base m n e = ground (
  arith,
  append-ne base (decimal m) b'-',
  append-ne base (decimal n) b'-',
  append-cancel base (decimal m) (decimal n) b'-',
  decimal-injective m n,
)

-- The list without the texts equal to `s`.
unfoldable remove : Text → List Text → List Text
remove s [] = []
remove s (t ∷ l) = if eq_text t s then remove s l else t ∷ remove s l

length-remove : (s : Text) (l : List Text) → length (remove s l) < suc (length l)
unfolding remove
length-remove s [] = ground arith
length-remove s (t ∷ l) = ground (arith, length-remove s l)

length-remove_has :
    (s : Text) (l : List Text) → has_text s l ≡ true → length (remove s l) < length l
unfolding remove has_text
length-remove_has s [] h = ground arith
length-remove_has s (t ∷ l) h = ground (arith, length-remove_has s l, length-remove s l)

has_text-remove :
    (s t : Text) (l : List Text) → eq_text s t ≡ false → has_text t (remove s l) ≡ has_text t l
unfolding remove has_text
has_text-remove s t [] h = refl
has_text-remove s t (x ∷ l) h =
    ground (arith, has_text-remove s t l h, eq_text-same x s, eq_text-same x t)

-- The search reads the taken slugs only at the candidates that it tries.
free_slug-congr :
    (fuel : ℕ) (base : Text) (n : ℕ) (taken other : List Text)
    → ((k : ℕ)
        → n < suc k
        → has_text (slug_candidate base k) taken ≡ has_text (slug_candidate base k) other)
    → free_slug fuel base n taken ≡ free_slug fuel base n other
unfolding free_slug
free_slug-congr zero base n taken other h = refl
free_slug-congr (suc fuel) base n taken other h = ground (
  arith,
  h n (omega arith),
  free_slug-congr fuel base (n + 1) taken other (λ k l. h k (omega arith)),
)

later_differs :
    (base : Text) (n k : ℕ)
    → n + 1 < suc k
    → eq_text (slug_candidate base n) (slug_candidate base k) ≡ false
later_differs base n k l = ground (
  arith,
  slug_candidate-injective base n k,
  eq_text-same (slug_candidate base n) (slug_candidate base k),
)

free_slug-total :
    (fuel : ℕ) (base : Text) (n : ℕ) (taken : List Text)
    → length taken < fuel
    → is_some (free_slug fuel base n taken) ≡ true
unfolding free_slug
free_slug-total zero base n taken h = ground arith
free_slug-total (suc fuel) base n taken h =
    elim (Bool-cases (has_text (slug_candidate base n) taken)) [
      | inr free ↦ ground arith
      | inl used ↦
          let fewer = remove (slug_candidate base n) taken in
          let same = free_slug-congr fuel base (n + 1) taken fewer (λ k l. sym (
            has_text-remove (slug_candidate base n) (slug_candidate base k) taken
              (later_differs base n k l))) in
          let small = length-remove_has (slug_candidate base n) taken used in
          rw used (ap is_some same ∙ free_slug-total fuel base (n + 1) fewer (ground arith))
    ]

free_slug-free :
    (fuel : ℕ) (base : Text) (n : ℕ) (taken : List Text) (slug : Text)
    → free_slug fuel base n taken ≡ some slug
    → has_text slug taken ≡ false
unfolding free_slug
free_slug-free zero base n taken slug e = ground arith
free_slug-free (suc fuel) base n taken slug e =
    ground (arith, free_slug-free fuel base (n + 1) taken slug)

-- The loop ends, and on a slug that is not taken.
pub unique_person_slug-Free :
    (base : Text) (taken : List Text)
    → (slug : Text) × (unique_person_slug base taken ≡ some slug) × (has_text slug taken ≡ false)
unfolding unique_person_slug
unique_person_slug-Free base taken =
    elim (Option-cases (free_slug (suc (length taken)) base 1 taken)) [
      | inl missing ↦
          let total = free_slug-total (suc (length taken)) base 1 taken (omega arith) in
          ground arith
      | inr (slug, found) ↦
          (slug, found, free_slug-free (suc (length taken)) base 1 taken slug found)
    ]
