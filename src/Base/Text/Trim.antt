-- ===== src/Base/Text/Trim.antt =====
-- strings.TrimSpace leaves what it has trimmed as it is, and what holds no space.
use mathlib.Core.List.{map, reverse, reverse_aux, reverse-append, reverse-reverse}
use itchgrep.Base.Tests.{◌==◌, Option-cases}
use itchgrep.Base.Lists.{length, all, All}
use Prim.Native.Nat.{ℕ, zero, suc, ◌≤◌}
use mathlib.Core.Path.{◌≡◌, refl, sym, ap, ◌∙◌}
use mathlib.Core.Logic.{inl, inr}
use mathlib.Core.Bool.{Bool, true, false, not, ◌&&◌}
use mathlib.Core.List.{List, [], ◌∷◌, ◌++◌}
use mathlib.Core.Option.{Option, none, some}
use native.Mathlib.Omega.{arith}
use itchgrep.Base.Text.{Text, strip_prefix}
use itchgrep.Base.Text.Space.{spaces, space_len, trim_left, trim_space}

-- No space stands at the head.
abbrev Bare : List Text → Text → Type 0
Bare ws s = space_len ws s ≡ 0

at_head :
    (ws : List Text) (k : ℕ) (b : ℕ) (s : Text)
    → space_len ws (b ∷ s) ≡ k
    → ((n : ℕ) → Bare ws (trim_left ws n s))
    → Bare ws (elim k as (λ _. Text) [ zero ↦ b ∷ s | suc n ↦ trim_left ws n s ])
at_head ws zero b s e h = e
at_head ws (suc n) b s e h = h n

trim_left-Bare : (ws : List Text) → Bare ws [] → (n : ℕ) (s : Text) → Bare ws (trim_left ws n s)
unfolding trim_left
trim_left-Bare ws h n [] = h
trim_left-Bare ws h (suc n) (b ∷ s) = trim_left-Bare ws h n s
trim_left-Bare ws h zero (b ∷ s) =
    at_head ws (space_len ws (b ∷ s)) b s refl (λ n. trim_left-Bare ws h n s)

trim_left_same : (ws : List Text) (s : Text) → Bare ws s → trim_left ws 0 s ≡ s
unfolding trim_left
trim_left_same ws [] h = refl
trim_left_same ws (b ∷ s) h = rw (h, trim_left)

-- A head of a text with no space at the head has none either.
prefix-strip :
    (w p t r : Text) → strip_prefix w p ≡ some r → strip_prefix w (p ++ t) ≡ some (r ++ t)
unfolding strip_prefix
prefix-strip [] p t r h =
    ap (λ o. elim o as (λ _. Option Text) [ none ↦ none | some x ↦ some (x ++ t) ]) h
prefix-strip (c ∷ w) [] t r h = cc
prefix-strip (c ∷ w) (b ∷ p) t r h = ground (arith, prefix-strip w p t r)

Bare-prefix :
    (ws : List Text) (p t : Text) → All (λ w. 1 ≤ length w) ws → Bare ws (p ++ t) → Bare ws p
unfolding space_len
Bare-prefix [] p t long h = refl
Bare-prefix (w ∷ ws) p t long h = elim (Option-cases (strip_prefix w p)) [
  | inr (r, e) ↦ absurd (is_longer (rw (prefix-strip w p t r e, space_len) at h))
  | inl e ↦
      rw (e, space_len)
        (elim (Option-cases (strip_prefix w (p ++ t))) [
          | inr (r, f) ↦ absurd (is_longer (rw (f, space_len) at h))
          | inl f ↦ Bare-prefix ws p t long.1 (rw (f, space_len) at h)
        ])
]
  where
    is_longer : length w ≡ 0 → ⊥
    is_longer q = let l = long.0 in absurd (omega arith)

-- What is left is the end of the text.
record Dropped (s r : Text) : Type 0 where
  gone : Text
  same : s ≡ gone ++ r

Dropped-single : (b : ℕ) (s r : Text) → Dropped s r → Dropped (b ∷ s) r
Dropped-single b s r d = record { gone = b ∷ d.gone; same = ap (◌∷◌ b) d.same }

at_head-Dropped :
    (ws : List Text) (k : ℕ) (b : ℕ) (s : Text)
    → ((n : ℕ) → Dropped s (trim_left ws n s))
    → Dropped (b ∷ s) (elim k as (λ _. Text) [ zero ↦ b ∷ s | suc n ↦ trim_left ws n s ])
at_head-Dropped ws zero b s h = record { gone = []; same = refl }
at_head-Dropped ws (suc n) b s h = Dropped-single b s (trim_left ws n s) (h n)

trim_left-Dropped : (ws : List Text) (n : ℕ) (s : Text) → Dropped s (trim_left ws n s)
unfolding trim_left
trim_left-Dropped ws n [] = record { gone = []; same = refl }
trim_left-Dropped ws (suc n) (b ∷ s) =
    Dropped-single b s (trim_left ws n s) (trim_left-Dropped ws n s)
trim_left-Dropped ws zero (b ∷ s) =
    at_head-Dropped ws (space_len ws (b ∷ s)) b s (λ n. trim_left-Dropped ws n s)

abbrev pub ends : List Text
ends = map reverse spaces

-- A text with no space at either end is trimmed.
trimmed : (s : Text) → Bare spaces s → Bare ends (reverse s) → trim_space s ≡ s
unfolding trim_space
trimmed s h k =
    rw (trim_left_same spaces s h, trim_space)
      (ap reverse (trim_left_same ends (reverse s) k) ∙ reverse-reverse s)

spaces_long : All (λ w. 1 ≤ length w) spaces
spaces_long = omega arith

pub trim_space-trim_space : (s : Text) → trim_space (trim_space s) ≡ trim_space s
unfolding trim_space space_len strip_prefix
trim_space-trim_space s =
    let l = trim_left spaces 0 s in
    let r = trim_left ends 0 (reverse l) in
    let d = trim_left-Dropped ends 0 (reverse l) in
    let whole : l ≡ reverse r ++ reverse d.gone =
      sym (reverse-reverse l) ∙ ap reverse d.same ∙ reverse-append d.gone r in
    let left : Bare spaces (reverse r) =
      Bare-prefix spaces (reverse r) (reverse d.gone) spaces_long
        (ap (space_len spaces) (sym whole) ∙ trim_left-Bare spaces refl 0 s) in
    let right : Bare ends (reverse (reverse r)) =
      ap (space_len ends) (reverse-reverse r) ∙ trim_left-Bare ends refl 0 (reverse l) in
    trimmed (reverse r) left right

-- A byte that begins and ends no space.
abbrev pub starts_off : ℕ → Text → Bool
starts_off b [] = false
starts_off b (c ∷ w) = not (c == b)

unfoldable pub is_plain : ℕ → Bool
is_plain b = all (starts_off b) spaces && all (starts_off b) ends

off-Bare : (ws : List Text) (b : ℕ) (s : Text) → all (starts_off b) ws ≡ true → Bare ws (b ∷ s)
unfolding space_len strip_prefix
off-Bare [] b s h = refl
off-Bare ([] ∷ ws) b s h = cc
off-Bare ((c ∷ w) ∷ ws) b s h = ground (arith, off-Bare ws b s)

all-reverse_aux :
    (p : ℕ → Bool) (s t : Text) → all p s ≡ true → all p t ≡ true → all p (reverse_aux s t) ≡ true
all-reverse_aux p [] t h k = k
all-reverse_aux p (b ∷ s) t h k = all-reverse_aux p s (b ∷ t) (ground arith) (ground arith)

empty_Bare : Bare spaces [] × Bare ends []
unfolding space_len strip_prefix
empty_Bare = (refl, refl)

plain_off :
    (b : ℕ) (s : Text)
    → all is_plain (b ∷ s) ≡ true
    → (all (starts_off b) spaces ≡ true) × (all (starts_off b) ends ≡ true)
unfolding is_plain
plain_off b s h = both (all (starts_off b) spaces) (all (starts_off b) ends) (all is_plain s) h
  where
    both : (x y z : Bool) → (x && y) && z ≡ true → (x ≡ true) × (y ≡ true)
    both true true z h = (refl, refl)
    both true false z h = cc
    both false y z h = cc

plain-Bare : (s : Text) → all is_plain s ≡ true → Bare spaces s × Bare ends s
plain-Bare [] h = empty_Bare
plain-Bare (b ∷ s) h = let (l, r) = plain_off b s h in (off-Bare spaces b s l, off-Bare ends b s r)

pub trim_space-plain : (s : Text) → all is_plain s ≡ true → trim_space s ≡ s
trim_space-plain s h =
    trimmed s (plain-Bare s h).0 (plain-Bare (reverse s) (all-reverse_aux is_plain s [] h refl)).1
