-- ===== src/Base/Text/Split.antt =====
-- strings.Split at one separator byte, against strings.Join.
use itchgrep.Base.Tests.{◌==◌, if◌then◌else◌}
use itchgrep.Base.Lists.{All}
use Prim.Native.Nat.{ℕ}
use mathlib.Core.Path.{◌≡◌, refl}
use mathlib.Core.Logic.{◌≢◌}
use mathlib.Core.List.{List, [], ◌∷◌, ◌++◌}
use native.Mathlib.Omega.{arith}
use itchgrep.Base.Text.{Text, join}

-- A byte put in front of the first piece.
unfoldable pub cons_first : ℕ → List Text → List Text
cons_first b [] = (b ∷ []) ∷ []
cons_first b (p ∷ ps) = (b ∷ p) ∷ ps

unfoldable pub split : ℕ → Text → List Text
unfolding cons_first
split sep [] = [] ∷ []
split sep (b ∷ s) = let rest = split sep s in if b == sep then [] ∷ rest else cons_first b rest

-- The byte does not occur in the text.
abbrev pub Avoids : ℕ → Text → Type 0
Avoids b s = All (λ x. x ≢ b) s

split-Avoids : (sep : ℕ) (s : Text) → Avoids sep s → split sep s ≡ s ∷ []
unfolding split
split-Avoids sep [] h = refl
split-Avoids sep (b ∷ s) h = ground (arith, split-Avoids sep s h.1)

split-append : (sep : ℕ) (s t : Text) → Avoids sep s → split sep (s ++ (sep ∷ t)) ≡ s ∷ split sep t
unfolding split
split-append sep [] t h = ground arith
split-append sep (b ∷ s) t h = ground (arith, split-append sep s t h.1)

-- Splitting undoes joining, for pieces that avoid the separator.
pub split-join :
    (sep : ℕ) (p : Text) (ps : List Text)
    → All (Avoids sep) (p ∷ ps)
    → split sep (join (sep ∷ []) (p ∷ ps)) ≡ p ∷ ps
unfolding join
split-join sep p [] h = split-Avoids sep p h.0
split-join sep p (q ∷ qs) h =
    rw (split-append sep p (join (sep ∷ []) (q ∷ qs)) h.0, split-join sep q qs h.1)
