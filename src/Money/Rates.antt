-- ===== src/Money/Rates.antt =====
-- The exchange-rate snapshot and the conversion to dollars of pkg/money/rates.go.
use itchgrep.Base.{◌^◌, Option, none, some, List, if◌then◌else◌}
use itchgrep.Base.Text.Maps.{lookup}
use itchgrep.Base.Text.{Text, codes}
use itchgrep.Money.Float.{Float64}
use itchgrep.Money.Price.{Money, exponent}

module _ (fl : Float64) where
  pub record Rates : Type 0 where
    pub date : Text
    pub source : Text
    pub per_eur : List (Text × fl.F)

module _ (fl : Float64) (rates : Rates fl) where
  -- Money.Amount: the value in major units.
  unfoldable pub amount : Money → fl.F
  unfolding exponent
  amount m = fl.div (fl.of_nat m.minor) (fl.of_nat (10 ^ exponent m.currency))

  -- Rates.USD; `none` stands for the false flag.
  unfoldable pub usd : Money → Option fl.F
  unfolding lookup amount
  usd m = elim (lookup (codes "USD") rates.per_eur) [
    | none ↦ none
    | some to ↦ elim (lookup m.currency rates.per_eur) [
      | none ↦ none
      | some from ↦
          if fl.eq from (fl.of_nat 0) then none else some (fl.mul (fl.div (amount m) from) to)
    ]
  ]
