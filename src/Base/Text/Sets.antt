-- ===== src/Base/Text/Sets.antt =====
-- Go's sets of strings, each as the ascending list of its members: the list that sorting the
-- members gives, in whatever order a range over the set meets them.
use itchgrep.Base.Tests.{if◌then◌else◌, Bool-cases}
use itchgrep.Base.Lists.{any, All, All-weaken}
use mathlib.Core.Path.{◌≡◌, refl}
use mathlib.Core.Bool.{Bool, true, ◌||◌}
use mathlib.Core.Logic.{inl, inr}
use mathlib.Core.List.{List, [], ◌∷◌}
use native.Mathlib.Omega.{arith}
use itchgrep.Base.Text.{Text, text_eq, text_eq_iff, text_lt, text_lt_trans, text_lt_total}

abbrev pub has : List Text → Text → Bool
has us t = any (λ u. text_eq u t) us

-- set[t] = struct{}{}
unfoldable pub set_add : Text → List Text → List Text
set_add t [] = t ∷ []
set_add t (u ∷ us) =
    let rest = set_add t us in
    if text_lt t u then t ∷ u ∷ us else if text_eq t u then u ∷ us else u ∷ rest

unfoldable pub set_of : List Text → List Text
unfolding set_add
set_of [] = []
set_of (t ∷ ts) = set_add t (set_of ts)

abbrev pub Ascending : List Text → Type 0
Ascending [] = Unit
Ascending (t ∷ ts) = All (λ u. text_lt t u ≡ true) ts × Ascending ts

pub has-set_add : (t j : Text) (us : List Text) → has (set_add t us) j ≡ text_eq t j || has us j
unfolding set_add
has-set_add t j [] = refl
has-set_add t j (u ∷ us) =
    ground (arith, has-set_add t j us, text_eq_iff t u, text_eq_iff u j, text_eq_iff t j)

All-set_add :
    (P : Text → Type 0) (t : Text) (us : List Text) → P t → All P us → All P (set_add t us)
unfolding set_add
All-set_add P t [] p h = (p, tt)
All-set_add P t (u ∷ us) p h = elim (Bool-cases (text_lt t u)) [
  | inl e ↦ rw e (p, h)
  | inr e ↦ elim (Bool-cases (text_eq t u)) [
    | inl q ↦ rw (e, q) h
    | inr q ↦ rw (e, q) (h.0, All-set_add P t us p h.1)
  ]
]

pub Ascending-set_add : (t : Text) (us : List Text) → Ascending us → Ascending (set_add t us)
unfolding set_add
Ascending-set_add t [] h = (tt, tt)
Ascending-set_add t (u ∷ us) h = elim (Bool-cases (text_lt t u)) [
  | inl e ↦ rw e (
    (
      e,
      All-weaken (λ v. text_lt u v ≡ true) (λ v. text_lt t v ≡ true)
          (λ v lt. text_lt_trans t u v e lt) us h.0,
    ),
    h,
  )
  | inr e ↦ elim (Bool-cases (text_eq t u)) [
    | inl q ↦ rw (e, q) h
    | inr q ↦
        let above : text_lt u t ≡ true = elim (Bool-cases (text_lt u t)) [
          | inl lt ↦ lt
          | inr ge ↦ cc (q, (text_eq_iff t u).1 (text_lt_total t u e ge))
        ] in
        rw (e, q) (All-set_add (λ v. text_lt u v ≡ true) t us above h.0, Ascending-set_add t us h.1)
  ]
]

pub Ascending-set_of : (ts : List Text) → Ascending (set_of ts)
unfolding set_of
Ascending-set_of [] = tt
Ascending-set_of (t ∷ ts) = Ascending-set_add t (set_of ts) (Ascending-set_of ts)

-- The set of its own members.
pub set_of-Ascending : (ts : List Text) → Ascending ts → set_of ts ≡ ts
unfolding set_of set_add
set_of-Ascending [] h = refl
set_of-Ascending (t ∷ []) h = refl
set_of-Ascending (t ∷ u ∷ ts) h = rw (set_of-Ascending (u ∷ ts) h.1, h.0.0)
