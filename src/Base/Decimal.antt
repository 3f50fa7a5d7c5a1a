-- ===== src/Base/Decimal.antt =====
-- The decimal digits of a number, and the number that digits write.
use Prim.Native.Nat.{ℕ, zero, suc, ◌+◌, ◌-◌, ◌*◌, ◌/◌, ◌%◌, ◌<◌}
use mathlib.Core.Path.{◌≡◌, refl, sym, ap, ◌∙◌}
use mathlib.Core.Logic.{inl, inr}
use mathlib.Core.Bool.{Bool, true, false}
use mathlib.Core.List.{List, [], ◌∷◌}
use native.Mathlib.Omega.{arith}
use capbase.Base.Tests.{ltb, if◌then◌else◌, Bool-cases}
use capbase.Base.Texts.{Text, eq_text}

unfoldable pub number_from : ℕ → Text → ℕ
number_from acc [] = acc
number_from acc (c ∷ s) = number_from (acc * 10 + (c - b'0')) s

unfoldable pub number : Text → ℕ
number s = number_from 0 s

-- The digits of `n` before `rest`, on fuel greater than `n`.
unfoldable pub digits_before : ℕ → ℕ → Text → Text
digits_before zero n rest = rest
digits_before (suc fuel) n rest =
    let more = digits_before fuel (n / 10) ((b'0' + n % 10) ∷ rest) in
    if ltb n 10 then (b'0' + n) ∷ rest else more

-- `${n}`
unfoldable pub decimal : ℕ → Text
decimal n = digits_before (suc n) n []

number_from-digits_before :
    (fuel n : ℕ) (rest : Text)
    → n < fuel
    → number_from 0 (digits_before fuel n rest) ≡ number_from n rest
unfolding number_from digits_before
number_from-digits_before zero n rest h = absurd (omega arith)
number_from-digits_before (suc fuel) n rest h = elim (Bool-cases (ltb n 10)) [
  | inl small ↦
      let same : 0 * 10 + (48 + n - 48) ≡ n = omega arith in
      rw small (ap (λ k. number_from k rest) same)
  | inr large ↦
      let same : n / 10 * 10 + (48 + n % 10 - 48) ≡ n = omega arith in
      rw large (
        number_from-digits_before fuel (n / 10) ((48 + n % 10) ∷ rest) (ground arith)
        ∙ ap (λ k. number_from k rest) same)
]

pub number-decimal : (n : ℕ) → number (decimal n) ≡ n
unfolding number decimal number_from
number-decimal n = number_from-digits_before (suc n) n [] (omega arith)

pub decimal-injective : (m n : ℕ) → decimal m ≡ decimal n → m ≡ n
decimal-injective m n e = sym (number-decimal m) ∙ ap number e ∙ number-decimal n

pub eq_text-same : (s t : Text) → eq_text s t ≡ true → s ≡ t
unfolding eq_text
eq_text-same [] [] e = refl
eq_text-same [] (d ∷ t) e = ground arith
eq_text-same (c ∷ s) [] e = ground arith
eq_text-same (c ∷ s) (d ∷ t) e = ground (arith, eq_text-same s t)

pub eq_text_refl : (s : Text) → eq_text s s ≡ true
unfolding eq_text
eq_text_refl [] = refl
eq_text_refl (c ∷ s) = ground (arith, eq_text_refl s)

-- `set.has(s)`, of texts.
unfoldable pub has_text : Text → List Text → Bool
has_text s [] = false
has_text s (t ∷ l) = if eq_text t s then true else has_text s l
