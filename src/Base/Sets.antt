-- ===== src/Base/Sets.antt =====
-- `[...new Set(xs)].sort()`: the distinct texts of a list, in order.
use Prim.Native.String
use Prim.Native.String.{String}
use text.Mathlib.Text.{is_le, ◌==◌}
use mathlib.Core.Path.{◌≡◌, refl, ◌∙◌}
use mathlib.Core.Bool.{Bool, false, ◌||◌}
use text.Mathlib.TextEquality.{eq_iff}
use mathlib.Core.List.{List, [], ◌∷◌, ◌++◌}
use mathlib.Core.Logic.{inl, inr}
use native.Mathlib.Omega.{arith}
use capbase.Base.Tests.{if◌then◌else◌, Bool-cases}
use capbase.Base.Lists.{has, add, has-add, has-append_one}

-- JavaScript orders texts by their code units, which for ASCII ids is the order of code points.
abbrev str_le : String → String → Bool
str_le s t = is_le (String.compare s t)

unfoldable pub insert_sorted : String → List String → List String
insert_sorted x [] = x ∷ []
insert_sorted x (y ∷ ys) = if str_le x y then x ∷ y ∷ ys else y ∷ insert_sorted x ys

unfoldable pub sort : List String → List String
sort [] = []
sort (x ∷ xs) = insert_sorted x (sort xs)

unfoldable pub distinct : List String → List String → List String
distinct seen [] = seen
distinct seen (x ∷ xs) = distinct (add x seen) xs

unfoldable pub unique : List String → List String
unique xs = sort (distinct [] xs)

has-insert_sorted :
    (s x : String) (l : List String) → has s (insert_sorted x l) ≡ (x == s || has s l)
unfolding insert_sorted
has-insert_sorted s x [] = refl
has-insert_sorted s x (y ∷ l) = let ih = has-insert_sorted s x l in ground arith

has-sort : (s : String) (l : List String) → has s (sort l) ≡ has s l
unfolding sort
has-sort s [] = refl
has-sort s (x ∷ l) =
    let ih = has-sort s l in let step = has-insert_sorted s x (sort l) in ground arith

pub has-distinct :
    (s : String) (seen l : List String) → has s (distinct seen l) ≡ (has s seen || has s l)
unfolding distinct
has-distinct s seen [] = ground arith
has-distinct s seen (x ∷ l) =
    let ih = has-distinct s (add x seen) l in let step = has-add x s seen in ground arith

-- Sorting and removing repetitions loses no text and adds none.
pub has-unique : (s : String) (l : List String) → has s (unique l) ≡ has s l
unfolding unique
has-unique s l = has-sort s (distinct [] l) ∙ has-distinct s [] l

-- No text stands in the list twice.
abbrev pub NoRepeat : List String → Type 0
NoRepeat [] = Unit
NoRepeat (x ∷ l) = (has x l ≡ false) × NoRepeat l

append_one-NoRepeat :
    (s : String) (l : List String) → has s l ≡ false → NoRepeat l → NoRepeat (l ++ s ∷ [])
append_one-NoRepeat s [] h n = (refl, tt)
append_one-NoRepeat s (x ∷ l) h n = (
  has-append_one x s l ∙ ground (arith, eq_iff x s, eq_iff s x),
  append_one-NoRepeat s l (ground arith) n.1,
)

add-NoRepeat : (s : String) (l : List String) → NoRepeat l → NoRepeat (add s l)
add-NoRepeat s l h = elim (Bool-cases (has s l)) [
  | inl e ↦ rw e h
  | inr e ↦ rw e (append_one-NoRepeat s l e h)
]

distinct-NoRepeat : (seen l : List String) → NoRepeat seen → NoRepeat (distinct seen l)
unfolding distinct
distinct-NoRepeat seen [] h = h
distinct-NoRepeat seen (x ∷ l) h = distinct-NoRepeat (add x seen) l (add-NoRepeat x seen h)

insert_sorted-NoRepeat :
    (x : String) (l : List String) → has x l ≡ false → NoRepeat l → NoRepeat (insert_sorted x l)
unfolding insert_sorted
insert_sorted-NoRepeat x [] h n = (refl, tt)
insert_sorted-NoRepeat x (y ∷ l) h n = elim (Bool-cases (str_le x y)) [
  | inl e ↦ rw e (h, n)
  | inr e ↦ rw e (
    has-insert_sorted y x l ∙ ground (arith, eq_iff x y, eq_iff y x, h, n.0),
    insert_sorted-NoRepeat x l (ground arith) n.1,
  )
]

sort-NoRepeat : (l : List String) → NoRepeat l → NoRepeat (sort l)
unfolding sort
sort-NoRepeat [] h = tt
sort-NoRepeat (x ∷ l) h =
    insert_sorted-NoRepeat x (sort l) (has-sort x l ∙ h.0) (sort-NoRepeat l h.1)

pub unique-NoRepeat : (l : List String) → NoRepeat (unique l)
unfolding unique
unique-NoRepeat l = sort-NoRepeat (distinct [] l) (distinct-NoRepeat [] l tt)
