-- ===== src/Money/Float.antt =====
-- float64, which the hardware implements: the operations that the code uses, as a parameter.
use itchgrep.Base.{ℕ, ◌≡◌, Bool, true, false}

pub record Float64 : Type 1 where
  pub F : Type 0
  pub of_nat : ℕ → F
  pub mul : F → F → F
  pub div : F → F → F
  pub lt : F → F → Bool
  pub eq : F → F → Bool

-- What sorting by cmp.Compare needs: its order has no cycles and no incomparable middle. With
-- `lt` read as cmp.Compare's order, where a NaN comes first, this holds for every float64.
pub record IsOrdered (fl : Float64) : Type 0 where
  pub asymm : (x y : fl.F) → fl.lt x y ≡ true → fl.lt y x ≡ false
  pub trans : (x y z : fl.F) → fl.lt y x ≡ false → fl.lt z y ≡ false → fl.lt z x ≡ false
