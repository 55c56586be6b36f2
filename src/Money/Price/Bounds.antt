-- ===== src/Money/Price/Bounds.antt =====
-- The amounts that toMinor gives fit into an int64.
use itchgrep.Base.{
  ℕ, ◌+◌, ◌-◌, ◌*◌, ◌^◌, ◌≤◌, ◌<◌, ◌≡◌, refl, not, ◌||◌, some, [], ◌∷◌, arith, select, take,
  Bool-cases, Option-cases, inl, inr, ◌⊎◌, if◌then◌else◌, by_if, any, ◌==◌,
}
use itchgrep.Base.Text.{Text, text_eq}
use itchgrep.Money.Price.{
  atoi_from, atoi, pad, minor_of, to_minor, exponent, whole_and_fraction, zero_decimal,
}

atoi_from_bound : (out n : ℕ) (s : Text) → out ≤ 2 ^ 50 → atoi_from out s ≡ some n → n ≤ 2 ^ 50
unfolding atoi_from
atoi_from_bound out n [] h e = let same : out ≡ n = cc in omega (arith, h, same)
atoi_from_bound out n (b ∷ s) h e =
    ground
      (arith, λ (k : out * 10 + (b - b'0') ≤ 2 ^ 50). atoi_from_bound (out * 10 + (b - b'0')) n s k)

atoi_bound : (n : ℕ) (s : Text) → atoi s ≡ some n → n ≤ 2 ^ 50
unfolding atoi
atoi_bound n s e = atoi_from_bound 0 n s (omega arith) e

exponent_cases : (currency : Text) → (exponent currency ≡ 0) ⊎ (exponent currency ≡ 2)
unfolding exponent
exponent_cases currency =
    by_if (λ n. (n ≡ 0) ⊎ (n ≡ 2)) (any (λ z. text_eq z currency) zero_decimal) (λ _. inl refl)
      (λ _. inr refl)

-- The whole part.
value_bound :
    (whole : Text) (v : ℕ) → (if text_eq whole [] then some 0 else atoi whole) ≡ some v → v ≤ 2 ^ 50
value_bound whole v e = elim (Bool-cases (text_eq whole [])) [
  | inl t ↦ let z : 0 ≡ v = cc (rw t at e) in omega (arith, z)
  | inr t ↦ atoi_bound v whole (rw t at e)
]

-- The two exponents that there are.
minor_of_bound :
    (whole frac : Text) (exp m : ℕ)
    → (exp ≡ 0) ⊎ (exp ≡ 2)
    → minor_of whole frac exp ≡ some m
    → m ≤ 2 ^ 50 * 100 + 2 ^ 50
unfolding minor_of
minor_of_bound whole frac exp m x e =
    elim (Option-cases (if text_eq whole [] then some 0 else atoi whole)) [
      | inl n ↦ cc (rw (n, minor_of) at e)
      | inr (v, at) ↦
          let b = value_bound whole v at in
          let sum = rw (at, minor_of) at e in
          elim (Option-cases (atoi (take exp (pad exp frac)))) [
            | inl n ↦
                let last = rw (n) at sum in
                elim x [
                  | inl z ↦ ground (arith, b, rw z at last)
                  | inr z ↦ ground (arith, b, rw z at last)
                ]
            | inr (f, at') ↦
                let c = atoi_bound f (take exp (pad exp frac)) at' in
                let last = rw at' at sum in
                elim x [
                  | inl z ↦ ground (arith, b, c, rw z at last)
                  | inr z ↦ ground (arith, b, c, rw z at last)
                ]
          ]
    ]

-- Whatever the digits, an amount in minor units that is read for a currency is below 2^63, so that
-- it fits into an int64.
pub to_minor_fits :
    (digits currency : Text) (m : ℕ) → to_minor digits (exponent currency) ≡ some m → m < 2 ^ 63
unfolding to_minor
to_minor_fits digits currency m e =
    let (whole, frac) = whole_and_fraction digits in
    omega (
      arith,
      minor_of_bound (select (λ b. not (b == b'.' || b == b',')) whole) frac (exponent currency) m
          (exponent_cases currency) e,
    )
