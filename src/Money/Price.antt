-- ===== src/Money/Price.antt =====
-- Reading a displayed price: Parse, toMinor and atoi of pkg/money/money.go.
pub mod Bounds
use mathlib.Core.Option
use itchgrep.Base.{
  ℕ, ◌≡◌, refl, zero, suc, ◌+◌, ◌-◌, ◌*◌, ◌^◌, Bool, not, ◌&&◌, ◌||◌, Option, none, some, List, [],
  ◌∷◌, ◌++◌, ltb, leb, ◌==◌, if◌then◌else◌, length, take, any, select,
}
use itchgrep.Base.Text.Number.{is_digit}
use itchgrep.Base.Text.{Text, codes, text_eq}
use itchgrep.Base.Text.Space.{trim_space}
use itchgrep.Base.Text.Cut.{cut}

pub record Money : Type 0 where
  pub minor : ℕ
  pub currency : Text
  pub display : Text

pub record Symbol : Type 0 where
  pub marker : Text
  pub currency : Text

abbrev symbol : Text → Text → Symbol
symbol m c = record { marker = m; currency = c }

-- The markers in the order in which they are tried.
abbrev pub symbols : List Symbol
symbols =
    symbol (codes "CA$") (codes "CAD")
    ∷ symbol (codes "NZ$") (codes "NZD")
    ∷ symbol (codes "HK$") (codes "HKD")
    ∷ symbol (codes "NT$") (codes "TWD")
    ∷ symbol (codes "MX$") (codes "MXN")
    ∷ symbol (codes "US$") (codes "USD")
    ∷ symbol (codes "R$") (codes "BRL")
    ∷ symbol (codes "A$") (codes "AUD")
    ∷ symbol (codes "S$") (codes "SGD")
    ∷ symbol (codes "CHF") (codes "CHF")
    ∷ symbol (0x7a ∷ 0xc5 ∷ 0x82 ∷ []) (codes "PLN")
    ∷ symbol (0x4b ∷ 0xc4 ∷ 0x8d ∷ []) (codes "CZK")
    ∷ symbol (codes "Ft") (codes "HUF")
    ∷ symbol (codes "lei") (codes "RON")
    ∷ symbol (codes "kr") (codes "SEK")
    ∷ symbol (codes "$") (codes "USD")
    ∷ symbol (0xe2 ∷ 0x82 ∷ 0xac ∷ []) (codes "EUR")
    ∷ symbol (0xc2 ∷ 0xa3 ∷ []) (codes "GBP")
    ∷ symbol (0xc2 ∷ 0xa5 ∷ []) (codes "JPY")
    ∷ symbol (0xe2 ∷ 0x82 ∷ 0xb9 ∷ []) (codes "INR")
    ∷ symbol (0xe2 ∷ 0x82 ∷ 0xbd ∷ []) (codes "RUB")
    ∷ symbol (0xe2 ∷ 0x82 ∷ 0xa9 ∷ []) (codes "KRW")
    ∷ symbol (0xe0 ∷ 0xb8 ∷ 0xbf ∷ []) (codes "THB")
    ∷ symbol (0xe2 ∷ 0x82 ∷ 0xba ∷ []) (codes "TRY")
    ∷ symbol (codes "R") (codes "ZAR")
    ∷ []

abbrev pub zero_decimal : List Text
zero_decimal =
    codes "JPY" ∷ codes "KRW" ∷ codes "CLP" ∷ codes "ISK" ∷ codes "VND" ∷ codes "HUF" ∷ []

unfoldable pub exponent : Text → ℕ
unfolding text_eq
exponent currency = if any (λ z. text_eq z currency) zero_decimal then 0 else 2

-- The first marker that the text holds: its currency, and the text without it.
unfoldable pub find_symbol : List Symbol → Text → Option (Text × Text)
unfolding cut
find_symbol [] s = none
find_symbol (m ∷ ms) s = elim (cut m.marker s) [
  | none ↦ find_symbol ms s
  | some (before, after) ↦ some (m.currency, before ++ after)
]

-- The strings.Map of Parse: it keeps digits, dots and commas. `wide_digit` is the table of
-- unicode.IsDigit outside ASCII: how many bytes a digit takes at the head of a text, or 0.
module _ (wide_digit : Text → ℕ) where
  unfoldable pub keep_digits : ℕ → Text → Text
  keep_digits n [] = []
  keep_digits (suc n) (b ∷ s) = b ∷ keep_digits n s
  keep_digits zero (b ∷ s) =
      let rest = keep_digits zero s in
      if ltb b 128
      then (if is_digit b || b == b'.' || b == b',' then b ∷ rest else rest)
      else elim (wide_digit (b ∷ s)) [ zero ↦ rest | suc n ↦ b ∷ keep_digits n s ]

-- The loop of atoi: `none` is a refusal.
unfoldable pub atoi_from : ℕ → Text → Option ℕ
atoi_from out [] = some out
atoi_from out (b ∷ s) =
    let next = out * 10 + (b - b'0') in
    let rest = atoi_from next s in
    if ltb b b'0' || ltb b'9' b then none else if ltb (2 ^ 50) next then none else rest

unfoldable pub atoi : Text → Option ℕ
unfolding atoi_from
atoi s = atoi_from 0 s

abbrev is_separator : ℕ → Bool
is_separator b = b == b'.' || b == b','

abbrev cut_last : ℕ → Text → Option (Text × Text) → Option (Text × Text)
cut_last b s (some (before, after)) = some (b ∷ before, after)
cut_last b s none = if is_separator b then some ([], s) else none

-- The text around its last separator, a dot or a comma.
unfoldable pub last_separator : Text → Option (Text × Text)
last_separator [] = none
last_separator (b ∷ s) = cut_last b s (last_separator s)

-- The whole part and the fraction, by the rule on the last separator.
unfoldable pub whole_and_fraction : Text → Text × Text
unfolding last_separator
whole_and_fraction digits = elim (last_separator digits) [
  | none ↦ (digits, [])
  | some (before, tail) ↦
      if length tail == 3 || length tail == 0 then (before ++ tail, []) else (before, tail)
]

unfoldable pub pad : ℕ → Text → Text
pad zero s = s
pad (suc n) [] = b'0' ∷ pad n []
pad (suc n) (b ∷ s) = b ∷ pad n s

-- The sum that toMinor returns, from the two parts.
unfoldable pub minor_of : Text → Text → ℕ → Option ℕ
unfolding atoi pad text_eq
minor_of whole frac exp =
    let value = if text_eq whole [] then some 0 else atoi whole in
    elim value [
      | none ↦ none
      | some v ↦
          if ltb 0 exp && not (text_eq frac [])
          then elim (atoi (take exp (pad exp frac))) [
            | none ↦ none
            | some f ↦ some (v * 10 ^ exp + f)
          ]
          else some (v * 10 ^ exp)
    ]

unfoldable pub to_minor : Text → ℕ → Option ℕ
unfolding whole_and_fraction minor_of
to_minor digits exp =
    let (whole, frac) = whole_and_fraction digits in
    minor_of (select (λ b. not (is_separator b)) whole) frac exp

module _ (wide_digit : Text → ℕ) where
  unfoldable pub parse_amount : Text → Text → Text → Option Money
  unfolding keep_digits to_minor exponent text_eq
  parse_amount display currency s =
      let digits = keep_digits wide_digit 0 s in
      if text_eq digits [] then none else elim (to_minor digits (exponent currency)) [
        | none ↦ none
        | some minor ↦
            some (record { minor = minor; currency = currency; display = trim_space display })
      ]

  unfoldable pub parse : Text → Option Money
  unfolding parse_amount find_symbol trim_space text_eq
  parse display =
      let s = trim_space display in
      if text_eq s [] then none else elim (find_symbol symbols s) [
        | none ↦ none
        | some (currency, rest) ↦ parse_amount display currency rest
      ]

parse_tests :
    (Option.map (λ m. m.minor) (parse (λ _. 0) (codes "$4.95")) ≡ some 495)
    × (Option.map (λ m. m.minor) (parse (λ _. 0) (codes " CA$1,234.5 ")) ≡ some 123450)
    × (Option.map (λ m. m.minor) (parse (λ _. 0) (codes "1.500 kr")) ≡ some 150000)
    × (parse (λ _. 0) (codes "free") ≡ none)
unfolding parse
parse_tests = (refl, refl, refl, refl)
