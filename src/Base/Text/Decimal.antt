-- ===== src/Base/Text/Decimal.antt =====
-- strconv.FormatInt in base ten.
use itchgrep.Base.Tests.{ltb, by_if, ◌==◌, if◌then◌else◌, Bool-cases}
use mathlib.Core.Bool.{true, false}
use itchgrep.Base.Lists.{length, All, All-weaken}
use itchgrep.Base.Int.{ℤ, pos, negsuc}
use Prim.Native.Nat.{ℕ, zero, suc, ◌+◌, ◌-◌, ◌*◌, ◌/◌, ◌%◌, ◌^◌, ◌<◌, ◌≤◌}
use mathlib.Core.Path.{◌≡◌, refl, ap, sym, ◌∙◌}
use mathlib.Core.Logic.{◌≢◌, inl, inr}
use mathlib.Core.List.{[], ◌∷◌}
use native.Mathlib.Omega.{arith}
use mathlib.Core.Option.{some}
use itchgrep.Base.Text.{Text, text_eq}
use itchgrep.Base.Text.Number.{is_digit, digits_value, parse_int}

-- The digits of a number, in front of a text. A number has no more digits than its value plus one.
unfoldable pub digits_onto : ℕ → ℕ → Text → Text
digits_onto zero n rest = rest
digits_onto (suc fuel) n rest =
    let more = digits_onto fuel (n / 10) ((48 + n % 10) ∷ rest) in
    if ltb n 10 then (48 + n) ∷ rest else more

unfoldable pub digits : ℕ → Text
unfolding digits_onto
digits n = digits_onto (n + 1) n []

unfoldable pub format_int : ℤ → Text
unfolding digits
format_int (pos n) = digits n
format_int (negsuc n) = b'-' ∷ digits (n + 1)

-- The value of a text of digits, from a value before it.
value_from : ℕ → Text → ℕ
value_from v [] = v
value_from v (d ∷ ds) = value_from (v * 10 + (d - 48)) ds

value-digits_onto :
    (fuel n : ℕ) (rest : Text)
    → n < fuel
    → value_from 0 (digits_onto fuel n rest) ≡ value_from n rest
unfolding digits_onto value_from
value-digits_onto zero n rest h = absurd (omega arith)
value-digits_onto (suc fuel) n rest h = elim (Bool-cases (ltb n 10)) [
  | inl small ↦ rw small (ap (λ v. value_from v rest) (omega arith))
  | inr large ↦
      let step : n / 10 * 10 + (48 + n % 10 - 48) ≡ n = omega arith in
      let shorter : n / 10 < fuel = ground arith in
      rw large (
        value-digits_onto fuel (n / 10) ((48 + n % 10) ∷ rest) shorter
        ∙ ap (λ v. value_from v rest) step)
]

abbrev IsDigit : ℕ → Type 0
IsDigit c = (48 ≤ c) × (c ≤ 57)

All-digits_onto :
    (fuel n : ℕ) (rest : Text) → All IsDigit rest → All IsDigit (digits_onto fuel n rest)
unfolding digits_onto
All-digits_onto zero n rest h = h
All-digits_onto (suc fuel) n rest h = elim (Bool-cases (ltb n 10)) [
  | inl small ↦ rw small ((omega arith, ground arith), h)
  | inr large ↦
      rw large
        (All-digits_onto fuel (n / 10) ((48 + n % 10) ∷ rest) ((omega arith, omega arith), h))
]

digits_injective : (m n : ℕ) → digits m ≡ digits n → m ≡ n
unfolding digits value_from
digits_injective m n e =
    sym (value-digits_onto (m + 1) m [] (omega arith))
    ∙ ap (value_from 0) e
    ∙ value-digits_onto (n + 1) n [] (omega arith)

not_minus : (n : ℕ) (s : Text) → digits n ≢ b'-' ∷ s
unfolding digits
not_minus n s e = let (lo, hi) = (rw e at (All-digits_onto (n + 1) n [] tt)).0 in omega (arith, lo)

pub format_int_injective : (a b : ℤ) → format_int a ≡ format_int b → a ≡ b
unfolding format_int
format_int_injective (pos m) (pos n) e = ap pos (digits_injective m n e)
format_int_injective (pos m) (negsuc n) e = absurd (not_minus m (digits (n + 1)) e)
format_int_injective (negsuc m) (pos n) e = absurd (not_minus n (digits (m + 1)) (sym e))
format_int_injective (negsuc m) (negsuc n) e =
    let same : digits (m + 1) ≡ digits (n + 1) = cc in
    let h = digits_injective (m + 1) (n + 1) same in ap negsuc (omega (arith, h))

-- A written int has no NUL byte.
pub All-format_int : (a : ℤ) → All (λ c. c ≢ 0) (format_int a)
unfolding format_int digits
All-format_int (pos n) =
    All-weaken IsDigit (λ c. c ≢ 0) (λ c d e. omega (arith, d.0, e)) (digits n)
      (All-digits_onto (n + 1) n [] tt)
All-format_int (negsuc n) = (
  λ e. omega (arith, e),
  All-weaken IsDigit (λ c. c ≢ 0) (λ c d e. omega (arith, d.0, e)) (digits (n + 1))
      (All-digits_onto (n + 1 + 1) (n + 1) [] tt),
)

digits_value-value_from :
    (acc : ℕ) (ds : Text) → All IsDigit ds → digits_value acc ds ≡ some (value_from acc ds)
unfolding digits_value value_from
digits_value-value_from acc [] h = refl
digits_value-value_from acc (d ∷ ds) h =
    by_if (λ r. r ≡ some (value_from (acc * 10 + (d - 48)) ds)) (is_digit d)
      (λ _. digits_value-value_from (acc * 10 + (d - 48)) ds h.1) (λ e. absurd (ground arith))

digits_onto_filled :
    (fuel n : ℕ) (rest : Text) → n < fuel → text_eq (digits_onto fuel n rest) [] ≡ false
unfolding digits_onto text_eq
digits_onto_filled zero n rest h = absurd (omega arith)
digits_onto_filled (suc fuel) n rest h =
    by_if (λ ds. text_eq ds [] ≡ false) (ltb n 10) (λ _. refl)
      (λ e. digits_onto_filled fuel (n / 10) ((48 + n % 10) ∷ rest) (ground arith))

-- No number is written as the empty text.
pub format_int_filled : (n : ℕ) → text_eq (format_int (pos n)) [] ≡ false
unfolding format_int digits
format_int_filled n = digits_onto_filled (n + 1) n [] (omega arith)

read_digits :
    (n : ℕ) (ds : Text)
    → All IsDigit ds
    → value_from 0 ds ≡ n
    → text_eq ds [] ≡ false
    → n < 2 ^ 63
    → parse_int ds ≡ some (pos n)
unfolding parse_int value_from text_eq
read_digits n [] h e ne l = cc
read_digits n (d ∷ ds) h e ne l =
    let minus : (d == b'-') ≡ false = ground arith in
    let plus : (d == b'+') ≡ false = ground arith in
    let some_digit : (suc (length ds) == 0) ≡ false = ground arith in
    let small : ltb n (2 ^ 63) ≡ true = ground arith in
    rw (minus, parse_int, plus, some_digit, digits_value-value_from 0 (d ∷ ds) h, e, small) refl

-- A number is read as it was written.
pub parse_int-format_int : (n : ℕ) → n < 2 ^ 63 → parse_int (format_int (pos n)) ≡ some (pos n)
unfolding format_int digits value_from
parse_int-format_int n l =
    read_digits n (digits n) (All-digits_onto (n + 1) n [] tt)
      (value-digits_onto (n + 1) n [] (omega arith)) (format_int_filled n) l
