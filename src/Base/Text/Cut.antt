-- ===== src/Base/Text/Cut.antt =====
-- strings.Cut, and with it strings.Contains and the removal of a first occurrence.
use mathlib.Core.List.{[], ◌∷◌}
use mathlib.Core.Option.{Option, none, some}
use itchgrep.Base.Text.{Text, strip_prefix}
use Prim.Native.Nat.{ℕ}

abbrev behind : ℕ → Option (Text × Text) → Option (Text × Text)
behind b none = none
behind b (some (before, after)) = some (b ∷ before, after)

-- The parts before and after the first occurrence of a separator.
unfoldable pub cut : Text → Text → Option (Text × Text)
unfolding strip_prefix
cut sep [] = elim (strip_prefix sep []) [ none ↦ none | some rest ↦ some ([], rest) ]
cut sep (b ∷ s) =
    let later = cut sep s in
    elim (strip_prefix sep (b ∷ s)) [ none ↦ behind b later | some rest ↦ some ([], rest) ]
