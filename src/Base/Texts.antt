-- ===== src/Base/Texts.antt =====
-- Texts as lists of UTF-16 code units, with the language's operations on them.
use Prim.Native.Nat.{ℕ, zero, suc, ◌+◌, ◌-◌}
use mathlib.Core.Path.{◌≡◌, refl, ap, ◌∙◌}
use mathlib.Core.Bool.{Bool, true, false, not, ◌&&◌, ◌||◌}
use mathlib.Core.List.{List, [], ◌∷◌, ◌++◌, map, reverse, reverse-cons, reverse-reverse}
use native.Mathlib.Omega.{arith}
use capbase.Base.Tests.{leb, ltb, ◌==◌, if◌then◌else◌}
use capbase.Base.Lists.{length, all, has_ℕ, keep}

abbrev pub Text : Type 0
Text = List ℕ

-- The white space that `trim` removes and `\s` matches.
abbrev pub is_space : ℕ → Bool
is_space c =
    (leb 9 c && leb c 13)
    || (leb 8192 c && leb c 8202)
    || has_ℕ c (32 ∷ 160 ∷ 5760 ∷ 8232 ∷ 8233 ∷ 8239 ∷ 8287 ∷ 12288 ∷ 65279 ∷ [])

unfoldable pub drop_while : (ℕ → Bool) → Text → Text
drop_while p [] = []
drop_while p (c ∷ s) = if p c then drop_while p s else c ∷ s

-- What is left between the characters of a kind at both ends.
unfoldable pub strip_both : (ℕ → Bool) → Text → Text
strip_both p s = reverse (drop_while p (reverse (drop_while p s)))

unfoldable pub trim : Text → Text
trim s = strip_both is_space s

abbrev pub is_digit : ℕ → Bool
is_digit c = leb b'0' c && leb c b'9'

abbrev pub is_upper : ℕ → Bool
is_upper c = leb b'A' c && leb c b'Z'

abbrev pub is_lower : ℕ → Bool
is_lower c = leb b'a' c && leb c b'z'

abbrev pub is_ascii : ℕ → Bool
is_ascii c = ltb c 128

-- What the Unicode case tables say of a text that is not plain ASCII.
pub record CaseTables : Type 0 where
  pub upper : Text → Text
  pub lower : Text → Text

-- `toUpperCase` and `toLowerCase`
unfoldable pub to_upper : CaseTables → Text → Text
to_upper tables s =
    if all is_ascii s then map (λ c. if is_lower c then c - 32 else c) s else tables.upper s

unfoldable pub to_lower : CaseTables → Text → Text
to_lower tables s =
    if all is_ascii s then map (λ c. if is_upper c then c + 32 else c) s else tables.lower s

unfoldable pub repeat : ℕ → ℕ → Text
repeat zero c = []
repeat (suc n) c = c ∷ repeat n c

-- `padStart(n, c)`
unfoldable pub pad_start : ℕ → ℕ → Text → Text
pad_start n c s = repeat (n - length s) c ++ s

-- `===`
unfoldable pub eq_text : Text → Text → Bool
eq_text [] [] = true
eq_text (c ∷ s) (d ∷ t) = (c == d) && eq_text s t
eq_text _ _ = false

pub all-implies :
    (p q : ℕ → Bool) (s : Text)
    → ((c : ℕ) → p c ≡ true → q c ≡ true)
    → all p s ≡ true
    → all q s ≡ true
all-implies p q [] h a = refl
all-implies p q (c ∷ s) h a = ground (arith, h c, all-implies p q s h)

pub all-append : (p : ℕ → Bool) (s t : Text) → all p (s ++ t) ≡ (all p s && all p t)
all-append p [] t = refl
all-append p (c ∷ s) t = ground (arith, all-append p s t)

pub all-reverse : (p : ℕ → Bool) (s : Text) → all p (reverse s) ≡ all p s
all-reverse p [] = refl
all-reverse p (c ∷ s) =
    ap (all p) (reverse-cons c s)
    ∙ all-append p (reverse s) (c ∷ [])
    ∙ ground (arith, all-reverse p s)

pub drop_while-none : (p : ℕ → Bool) (s : Text) → all (λ c. not (p c)) s ≡ true → drop_while p s ≡ s
unfolding drop_while
drop_while-none p [] h = refl
drop_while-none p (c ∷ s) h = ground arith

pub drop_while_idempotent :
    (p : ℕ → Bool) (s : Text) → drop_while p (drop_while p s) ≡ drop_while p s
unfolding drop_while
drop_while_idempotent p [] = refl
drop_while_idempotent p (c ∷ s) = ground (arith, drop_while_idempotent p s)

pub strip_both-none : (p : ℕ → Bool) (s : Text) → all (λ c. not (p c)) s ≡ true → strip_both p s ≡ s
unfolding strip_both
strip_both-none p s h =
    ap (λ x. reverse (drop_while p (reverse x))) (drop_while-none p s h)
    ∙ ap reverse (drop_while-none p (reverse s) (all-reverse (λ c. not (p c)) s ∙ h))
    ∙ reverse-reverse s

-- A second strip changes nothing where the first left no such character at the start.
pub strip_both_idempotent :
    (p : ℕ → Bool) (s : Text)
    → drop_while p (strip_both p s) ≡ strip_both p s
    → strip_both p (strip_both p s) ≡ strip_both p s
unfolding strip_both
strip_both_idempotent p s h =
    let b = drop_while p (reverse (drop_while p s)) in
    ap (λ x. reverse (drop_while p (reverse x))) h
    ∙ ap (λ x. reverse (drop_while p x)) (reverse-reverse b)
    ∙ ap reverse (drop_while_idempotent p (reverse (drop_while p s)))

-- A map that changes no character of a kind.
map-fixed :
    (f : ℕ → ℕ) (p : ℕ → Bool) (s : Text)
    → ((c : ℕ) → p c ≡ true → f c ≡ c)
    → all p s ≡ true
    → map f s ≡ s
map-fixed f p [] h a = refl
map-fixed f p (c ∷ s) h a = ground (arith, h c, map-fixed f p s h)

pub to_upper-none :
    (tables : CaseTables) (s : Text)
    → all (λ c. is_ascii c && not (is_lower c)) s ≡ true
    → to_upper tables s ≡ s
unfolding to_upper
to_upper-none tables s h =
    rw (all-implies (λ c. is_ascii c && not (is_lower c)) is_ascii s (λ c e. ground arith) h) (
      map-fixed (λ c. if is_lower c then c - 32 else c) (λ c. is_ascii c && not (is_lower c)) s
        (λ c e. ground arith) h)

pub to_lower-none :
    (tables : CaseTables) (s : Text)
    → all (λ c. is_ascii c && not (is_upper c)) s ≡ true
    → to_lower tables s ≡ s
unfolding to_lower
to_lower-none tables s h =
    rw (all-implies (λ c. is_ascii c && not (is_upper c)) is_ascii s (λ c e. ground arith) h) (
      map-fixed (λ c. if is_upper c then c + 32 else c) (λ c. is_ascii c && not (is_upper c)) s
        (λ c e. ground arith) h)

pub keep-all : (p : ℕ → Bool) (s : Text) → all p s ≡ true → keep p s ≡ s
keep-all p [] h = refl
keep-all p (c ∷ s) h = ground (arith, keep-all p s)

pub length-repeat : (n c : ℕ) → length (repeat n c) ≡ n
unfolding repeat
length-repeat zero c = refl
length-repeat (suc n) c = ground (arith, length-repeat n c)

pub length-append : (s t : Text) → length (s ++ t) ≡ length s + length t
length-append [] t = ground arith
length-append (c ∷ s) t = ground (arith, length-append s t)

pub all-repeat : (p : ℕ → Bool) (n c : ℕ) → p c ≡ true → all p (repeat n c) ≡ true
unfolding repeat
all-repeat p zero c h = refl
all-repeat p (suc n) c h = ground (arith, all-repeat p n c h)

pub length-pad_start : (n c : ℕ) (s : Text) → leb (length s) n ≡ true → length (pad_start n c s) ≡ n
unfolding pad_start
length-pad_start n c s h =
    length-append (repeat (n - length s) c) s ∙ ground (arith, length-repeat (n - length s) c)

pub pad_start-full : (n c : ℕ) (s : Text) → length s ≡ n → pad_start n c s ≡ s
unfolding pad_start repeat
pad_start-full n c s h = let full : n - length s ≡ 0 = omega arith in ap (λ k. repeat k c ++ s) full

pub all-pad_start :
    (p : ℕ → Bool) (n c : ℕ) (s : Text)
    → p c ≡ true
    → all p s ≡ true
    → all p (pad_start n c s) ≡ true
unfolding pad_start
all-pad_start p n c s h a =
    all-append p (repeat (n - length s) c) s ∙ ground (arith, all-repeat p (n - length s) c h)

pub all-drop_while : (p q : ℕ → Bool) (s : Text) → all q s ≡ true → all q (drop_while p s) ≡ true
unfolding drop_while
all-drop_while p q [] h = refl
all-drop_while p q (c ∷ s) h = ground (arith, all-drop_while p q s)

-- A text is empty when its length is 0.
pub eq_text-empty : (s : Text) → eq_text s [] ≡ not (leb 1 (length s))
unfolding eq_text
eq_text-empty [] = refl
eq_text-empty (c ∷ s) = ground arith
