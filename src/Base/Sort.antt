-- ===== src/Base/Sort.antt =====
-- sort.SliceStable, slices.SortStableFunc and, under an order with no ties, sort.Slice: stable
-- insertion by a Boolean order.
use mathlib.Core.Path.{◌≡◌, refl}
use mathlib.Core.Logic.{inl, inr}
use mathlib.Core.Bool.{Bool, true, false}
use mathlib.Core.List.{List, [], ◌∷◌, Perm}
use mathlib.Core.List.Perm
use Prim.Native.Nat.{ℕ, zero, suc, ◌<◌}
use mathlib.Core.Option.{some}
use native.Mathlib.Omega.{arith}
use itchgrep.Base.Tests.{if◌then◌else◌, Bool-cases}
use itchgrep.Base.Lists.{All, In, length, select, take, All-take, All-at, get_elem?}

module _ {A : Type 0} (le : A → A → Bool) where
  unfoldable pub insert : A → List A → List A
  insert x [] = x ∷ []
  insert x (y ∷ ys) = let rest = insert x ys in if le x y then x ∷ y ∷ ys else y ∷ rest

  unfoldable pub sort : List A → List A
  unfolding insert
  sort [] = []
  sort (x ∷ xs) = insert x (sort xs)

  pub insert-perm : (x : A) (ys : List A) → Perm (insert x ys) (x ∷ ys)
  unfolding insert
  insert-perm x [] = Perm.refl (x ∷ [])
  insert-perm x (y ∷ ys) = elim (Bool-cases (le x y)) [
    | inl e ↦ rw e (Perm.refl (x ∷ y ∷ ys))
    | inr e ↦ rw e (Perm.trans (Perm.cons y (insert-perm x ys)) (Perm.swap x y ys))
  ]

  pub sort-perm : (xs : List A) → Perm (sort xs) xs
  unfolding sort
  sort-perm [] = Perm.refl []
  sort-perm (x ∷ xs) = Perm.trans (insert-perm x (sort xs)) (Perm.cons x (sort-perm xs))

  pub All-insert : (P : A → Type 0) (x : A) (ys : List A) → P x → All P ys → All P (insert x ys)
  unfolding insert
  All-insert P x [] px h = (px, tt)
  All-insert P x (y ∷ ys) px h = elim (Bool-cases (le x y)) [
    | inl e ↦ rw e (px, (h.0, h.1))
    | inr e ↦ rw e (h.0, All-insert P x ys px h.1)
  ]

  pub All-sort : (P : A → Type 0) (xs : List A) → All P xs → All P (sort xs)
  unfolding sort
  All-sort P [] h = tt
  All-sort P (x ∷ xs) h = All-insert P x (sort xs) h.0 (All-sort P xs h.1)

  In-insert : (a x : A) (ys : List A) → In a (x ∷ ys) → In a (insert x ys)
  unfolding insert
  In-insert a x [] m = m
  In-insert a x (y ∷ ys) m = elim (Bool-cases (le x y)) [
    | inl e ↦ rw e m
    | inr e ↦ rw e (elim m [
      | inl q ↦ inr (In-insert a x ys (inl q))
      | inr m ↦ elim m [ inl q ↦ inl q | inr q ↦ inr (In-insert a x ys (inr q)) ]
    ])
  ]

  pub In-sort : (a : A) (xs : List A) → In a xs → In a (sort xs)
  unfolding sort
  In-sort a [] m = m
  In-sort a (x ∷ xs) m =
      In-insert a x (sort xs) (elim m [ inl q ↦ inl q | inr q ↦ inr (In-sort a xs q) ])

  In-insert_inv : (a x : A) (ys : List A) → In a (insert x ys) → In a (x ∷ ys)
  unfolding insert
  In-insert_inv a x [] m = m
  In-insert_inv a x (y ∷ ys) m = elim (Bool-cases (le x y)) [
    | inl e ↦ rw e at m
    | inr e ↦ elim (rw e at m) [
      | inl q ↦ inr (inl q)
      | inr q ↦ elim (In-insert_inv a x ys q) [ inl r ↦ inl r | inr r ↦ inr (inr r) ]
    ]
  ]

  pub In-sort_inv : (a : A) (xs : List A) → In a (sort xs) → In a xs
  unfolding sort
  In-sort_inv a [] m = m
  In-sort_inv a (x ∷ xs) m = elim (In-insert_inv a x (sort xs) m) [
    | inl q ↦ inl q
    | inr q ↦ inr (In-sort_inv a xs q)
  ]

  pub length-insert : (x : A) (ys : List A) → length (insert x ys) ≡ suc (length ys)
  unfolding insert
  length-insert x [] = refl
  length-insert x (y ∷ ys) = ground (arith, length-insert x ys)

  pub length-sort : (xs : List A) → length (sort xs) ≡ length xs
  unfolding sort
  length-sort [] = refl
  length-sort (x ∷ xs) = omega (arith, length-insert x (sort xs), length-sort xs)

  -- Every element is in order with all that follow it.
  abbrev pub IsSorted : List A → Type 0
  IsSorted [] = Unit
  IsSorted (x ∷ xs) = All (λ y. le x y ≡ true) xs × IsSorted xs

  -- An order that is total and transitive on the elements that have a property.
  module _ (P : A → Type 0) (total : (x y : A) → le x y ≡ false → le y x ≡ true)
      (trans : (x y z : A) → P x → P y → P z → le x y ≡ true → le y z ≡ true → le x z ≡ true) where
    All-chain :
        (x y : A) (zs : List A)
        → P x
        → P y
        → le x y ≡ true
        → All P zs
        → All (λ z. le y z ≡ true) zs
        → All (λ z. le x z ≡ true) zs
    All-chain x y [] px py e ps h = tt
    All-chain x y (z ∷ zs) px py e ps h =
        (trans x y z px py ps.0 e h.0, All-chain x y zs px py e ps.1 h.1)

    insert-IsSorted_on :
        (x : A) (ys : List A) → P x → All P ys → IsSorted ys → IsSorted (insert x ys)
    unfolding insert
    insert-IsSorted_on x [] px ps h = (tt, tt)
    insert-IsSorted_on x (y ∷ ys) px ps h = elim (Bool-cases (le x y)) [
      | inl e ↦ rw e ((e, All-chain x y ys px ps.0 e ps.1 h.0), h)
      | inr e ↦ rw e (
        All-insert (λ z. le y z ≡ true) x ys (total x y e) h.0,
        insert-IsSorted_on x ys px ps.1 h.1,
      )
    ]

    pub sort-IsSorted_on : (xs : List A) → All P xs → IsSorted (sort xs)
    unfolding sort
    sort-IsSorted_on [] ps = tt
    sort-IsSorted_on (x ∷ xs) ps =
        insert-IsSorted_on x (sort xs) ps.0 (All-sort P xs ps.1) (sort-IsSorted_on xs ps.1)

  pub sort-IsSorted :
      ((x y : A) → le x y ≡ false → le y x ≡ true)
      → ((x y z : A) → le x y ≡ true → le y z ≡ true → le x z ≡ true)
      → (xs : List A) → IsSorted (sort xs)
  sort-IsSorted total trans xs =
      sort-IsSorted_on (λ _. Unit) total (λ x y z _ _ _ h k. trans x y z h k) xs (all_unit xs)
    where
      all_unit : (ys : List A) → All (λ _. Unit) ys
      all_unit [] = tt
      all_unit (y ∷ ys) = (tt, all_unit ys)

  -- How many elements pass a test does not depend on their order.
  length-select-insert :
      (p : A → Bool) (x : A) (ys : List A)
      → length (select p (insert x ys)) ≡ length (select p (x ∷ ys))
  unfolding insert
  length-select-insert p x [] = refl
  length-select-insert p x (y ∷ ys) = ground (arith, length-select-insert p x ys)

  pub length-select-sort :
      (p : A → Bool) (xs : List A) → length (select p (sort xs)) ≡ length (select p xs)
  unfolding sort
  length-select-sort p [] = refl
  length-select-sort p (x ∷ xs) =
      ground (arith, length-select-insert p x (sort xs), length-select-sort p xs)

pub IsSorted-take :
    {A : Type 0} (le : A → A → Bool) (n : ℕ) (xs : List A)
    → IsSorted le xs
    → IsSorted le (take n xs)
IsSorted-take le zero xs h = tt
IsSorted-take le (suc n) [] h = tt
IsSorted-take le (suc n) (x ∷ xs) h =
    (All-take (λ y. le x y ≡ true) n xs h.0, IsSorted-take le n xs h.1)

-- Of two places in a sorted list the earlier holds what comes first.
pub IsSorted-at :
    {A : Type 0} (le : A → A → Bool) (xs : List A) (i j : ℕ) (x y : A)
    → IsSorted le xs
    → i < j
    → get_elem? xs i ≡ some x
    → get_elem? xs j ≡ some y
    → le x y ≡ true
IsSorted-at le [] i j x y h lt ex ey = cc
IsSorted-at le (z ∷ xs) zero zero x y h lt ex ey = absurd (omega arith)
IsSorted-at le (z ∷ xs) zero (suc j) x y h lt ex ey =
    let q : z ≡ x = cc in rw (← q) (All-at (λ w. le z w ≡ true) xs j y h.0 ey)
IsSorted-at le (z ∷ xs) (suc i) zero x y h lt ex ey = absurd (omega arith)
IsSorted-at le (z ∷ xs) (suc i) (suc j) x y h lt ex ey =
    IsSorted-at le xs i j x y h.1 (omega arith) ex ey
