-- ===== src/Base/Text/Maps.antt =====
-- Go maps keyed by texts, as association lists.
use itchgrep.Base.Tests.{if◌then◌else◌, Bool-cases}
use itchgrep.Base.Lists.{select, length}
use Prim.Native.Nat.{◌≤◌, ◌<◌}
use mathlib.Core.Logic.{inl, inr}
use mathlib.Core.Bool.{not}
use mathlib.Core.Path.{◌≡◌, refl, ◌∙◌}
use mathlib.Core.List.{List, [], ◌∷◌}
use mathlib.Core.Option.{Option, none, some}
use native.Mathlib.Omega.{arith}
use itchgrep.Base.Text.{Text, text_eq, text_eq_iff}

-- A Go map keyed by texts: the first entry with the key counts.
unfoldable pub lookup {ℓ} : {V : Type ℓ} → Text → List (Text × V) → Option V
lookup k [] = none
lookup k ((j, v) ∷ m) = if text_eq j k then some v else lookup k m

-- m[k] = v
unfoldable pub put : {V : Type 0} → Text → V → List (Text × V) → List (Text × V)
put k v [] = (k, v) ∷ []
put k v ((j, w) ∷ m) = let rest = put k v m in if text_eq j k then (k, v) ∷ m else (j, w) ∷ rest

-- A write is read back under its key, and changes no other key.
pub lookup-put :
    {V : Type 0} (k j : Text) (v : V) (m : List (Text × V))
    → lookup j (put k v m) ≡ (if text_eq k j then some v else lookup j m)
unfolding lookup put
lookup-put k j v [] = refl
lookup-put k j v ((i, w) ∷ m) =
    ground (arith, lookup-put k j v m, text_eq_iff i k, text_eq_iff i j, text_eq_iff k j)

-- delete(m, k)
unfoldable pub without : {V : Type 0} → Text → List (Text × V) → List (Text × V)
without k m = select (λ p. not (text_eq p.0 k)) m

module _ {V : Type 0} where
  -- No key occurs twice.
  abbrev pub Unique : List (Text × V) → Type 0
  Unique [] = Unit
  Unique ((k, v) ∷ m) = (lookup k m ≡ none) × Unique m

  pub lookup-without :
      (k j : Text) (m : List (Text × V))
      → lookup j (without k m) ≡ (if text_eq k j then none else lookup j m)
  unfolding lookup without
  lookup-without k j [] = ground arith
  lookup-without k j ((i, v) ∷ m) =
      ground (arith, lookup-without k j m, text_eq_iff i k, text_eq_iff i j, text_eq_iff k j)

  pub Unique-without : (k : Text) (m : List (Text × V)) → Unique m → Unique (without k m)
  unfolding without
  Unique-without k [] u = tt
  Unique-without k ((i, v) ∷ m) u = elim (Bool-cases (text_eq i k)) [
    | inl e ↦ rw e (Unique-without k m u.1)
    | inr e ↦ rw e (lookup-without k i m ∙ ground (arith, u.0), Unique-without k m u.1)
  ]

  pub length-without : (k : Text) (m : List (Text × V)) → length (without k m) ≤ length m
  unfolding without
  length-without k [] = omega arith
  length-without k (p ∷ m) = ground (arith, length-without k m)

  pub length-without_lt :
      (k : Text) (v : V) (m : List (Text × V))
      → lookup k m ≡ some v
      → length (without k m) < length m
  unfolding without lookup
  length-without_lt k v [] h = cc
  length-without_lt k v ((i, w) ∷ m) h = ground (arith, length-without_lt k v m, length-without k m)
