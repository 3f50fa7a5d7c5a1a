-- ===== src/Base/Lists.antt =====
-- Lists over the native numbers, and tables: a JavaScript object or `Map` with text keys, in
-- insertion order, and a `Set` of texts.
use Prim.Native.Nat.{ℕ, zero, suc}
use Prim.Native.String.{String}
use mathlib.Core.Path.{◌≡◌, refl}
use mathlib.Core.Bool.{Bool, true, false, ◌&&◌, ◌||◌}
use mathlib.Core.Option.{Option, none, some}
use mathlib.Core.List.{List, [], ◌∷◌, ◌++◌}
use native.Mathlib.Omega.{arith}
use text.Mathlib.Text.{◌==◌}
use text.Mathlib.TextEquality.{eq_iff}
use capbase.Base.Tests.{◌==◌ as eq_ℕ, if◌then◌else◌}

module _ {ℓ} {A : Type ℓ} where
  abbrev pub length : List A → ℕ
  length [] = 0
  length (x ∷ xs) = suc (length xs)

  -- `xs.slice(0, n)`
  abbrev pub take : ℕ → List A → List A
  take zero xs = []
  take (suc n) [] = []
  take (suc n) (x ∷ xs) = x ∷ take n xs

  abbrev pub any : (A → Bool) → List A → Bool
  any p [] = false
  any p (x ∷ xs) = p x || any p xs

  abbrev pub all : (A → Bool) → List A → Bool
  all p [] = true
  all p (x ∷ xs) = p x && all p xs

  -- `xs.filter(p)`
  abbrev pub keep : (A → Bool) → List A → List A
  keep p [] = []
  keep p (x ∷ xs) = if p x then x ∷ keep p xs else keep p xs

  -- `xs.find(p)`
  abbrev pub find : (A → Bool) → List A → Option A
  find p [] = none
  find p (x ∷ xs) = if p x then some x else find p xs

module _ {ℓ κ} {A : Type ℓ} (P : A → Type κ) where
  abbrev pub All : List A → Type κ
  All [] = Unit
  All (x ∷ xs) = P x × All xs

-- `xs.includes(s)`, `set.has(s)`
abbrev pub has : String → List String → Bool
has s [] = false
has s (x ∷ xs) = x == s || has s xs

abbrev pub has_ℕ : ℕ → List ℕ → Bool
has_ℕ n [] = false
has_ℕ n (m ∷ ms) = eq_ℕ m n || has_ℕ n ms

-- `set.add(s)`
abbrev pub add : String → List String → List String
add s xs = if has s xs then xs else xs ++ s ∷ []

pub has-add : (s t : String) (xs : List String) → has t (add s xs) ≡ (s == t || has t xs)
has-add s t [] = ground (arith, eq_iff s t)
has-add s t (x ∷ xs) = ground (arith, eq_iff x s, eq_iff x t, eq_iff s t, has-add s t xs)

pub has-keep :
    (p : String → Bool) (f : String) (l : List String) → has f (keep p l) ≡ (has f l && p f)
has-keep p f [] = refl
has-keep p f (x ∷ l) = ground (arith, has-keep p f l, eq_iff x f)

pub has-append_one : (f g : String) (xs : List String) → has f (xs ++ g ∷ []) ≡ (has f xs || g == f)
has-append_one f g [] = ground arith
has-append_one f g (x ∷ xs) = ground (arith, has-append_one f g xs)

module _ {ℓ} {V : Type ℓ} where
  -- `table[key]`
  abbrev pub lookup : String → List (String × V) → Option V
  lookup key [] = none
  lookup key (e ∷ table) = if e.0 == key then some e.1 else lookup key table

  -- `table[key] = value`
  abbrev pub insert : String → V → List (String × V) → List (String × V)
  insert key value [] = (key, value) ∷ []
  insert key value (e ∷ table) =
      if e.0 == key then (e.0, value) ∷ table else e ∷ insert key value table

  -- `key in table`
  abbrev pub contains : String → List (String × V) → Bool
  contains key [] = false
  contains key (e ∷ table) = e.0 == key || contains key table

  -- A write is read back, and changes no other key.
  pub lookup-insert :
      (written read : String) (value : V) (table : List (String × V))
      → lookup read (insert written value table)
        ≡ (if written == read then some value else lookup read table)
  lookup-insert written read value [] = refl
  lookup-insert written read value (e ∷ table) =
      let ih = lookup-insert written read value table in
      ground (arith, eq_iff written read, eq_iff e.0 written, eq_iff e.0 read)

  pub contains-insert :
      (written read : String) (value : V) (table : List (String × V))
      → contains read (insert written value table) ≡ (written == read || contains read table)
  contains-insert written read value [] = refl
  contains-insert written read value (e ∷ table) =
      let ih = contains-insert written read value table in
      ground (arith, eq_iff written read, eq_iff e.0 written, eq_iff e.0 read)

  -- A property of every stored value survives a write of a value that has it.
  pub All-insert {κ} :
      (P : V → Type κ) (key : String) (value : V) (table : List (String × V))
      → P value
      → All (λ e. P e.1) table
      → All (λ e. P e.1) (insert key value table)
  All-insert P key value [] p h = (p, tt)
  All-insert P key value (e ∷ table) p h = ground (arith, All-insert P key value table p h.1)
