-- ===== src/Cache/Engine/Search/Newest.antt =====
-- The newest-first shape: the matches are a prefix of the ordering, found by binary search.
use itchgrep.Base.{
  ℕ, ◌≤◌, ◌<◌, ◌≡◌, Bool, true, false, not, none, some, List, arith, length, select, select_prefix,
  take, get_elem?, get_elem?-lt, get_elem?-some, All-at, Option-cases, Bool-cases, inl, inr, leb,
}
use itchgrep.Base.Int.{ℤ, ltb_ℤ}
use itchgrep.Base.Search.{search_index, search_index-Splits}
use itchgrep.Money.Float.{Float64}
use itchgrep.Cache.Engine.{Row, before, order_by, new_lt}
use itchgrep.Cache.Engine.Search.{first_seen_at}
use itchgrep.Cache.Engine.Search.Orders.{order_by-before, length-order_by, order_by-in_range}

module _ (fl : Float64) (rows : List (Row fl)) (min : ℤ) where
  new_lt_asymm : (x y : Row fl) → new_lt fl x y ≡ true → new_lt fl y x ≡ false
  new_lt_asymm x y h = ground arith

  new_lt_trans :
      (x y z : Row fl) → new_lt fl y x ≡ false → new_lt fl z y ≡ false → new_lt fl z x ≡ false
  new_lt_trans x y z h k = ground arith

  abbrev newest : List ℕ
  newest = order_by fl (new_lt fl) rows

  -- The test of the binary search: the position's asset was first seen too early.
  abbrev pub too_old : ℕ → Bool
  too_old k = elim (get_elem? (order_by fl (new_lt fl) rows) k) [
    | none ↦ true
    | some i ↦ ltb_ℤ (first_seen_at fl rows i) min
  ]

  too_old-lt :
      (i j a b : ℕ)
      → i < j
      → get_elem? newest i ≡ some a
      → get_elem? newest j ≡ some b
      → ltb_ℤ (first_seen_at fl rows a) min ≡ true
      → ltb_ℤ (first_seen_at fl rows b) min ≡ true
  unfolding before
  too_old-lt i j a b h ea eb old =
      let (x, y, ex, ey, le) =
        order_by-before fl (new_lt fl) rows new_lt_asymm new_lt_trans i j a b h ea eb in
      ground (arith, ex, ey, le)

  in_newest :
      (i j b : ℕ) → i ≤ j → get_elem? newest j ≡ some b → (a : ℕ) × (get_elem? newest i ≡ some a)
  in_newest i j b h eb =
      let lt : j < length newest = get_elem?-lt newest j b eb in
      get_elem?-some newest i (omega arith)

  too_old_mono : (i j : ℕ) → i ≤ j → too_old i ≡ true → too_old j ≡ true
  too_old_mono i j h old = elim (Option-cases (get_elem? newest j)) [
    | inl out ↦ rw (out, too_old)
    | inr (b, eb) ↦ elim (Bool-cases (leb j i)) [
      | inl ge ↦ let e : i ≡ j = ground arith in rw (← e) old
      | inr lt ↦
          let (a, ea) = in_newest i j b h eb in
          rw (eb, too_old) (too_old-lt i j a b (ground arith) ea eb (rw (ea, too_old) at old))
    ]
  ]

  in_range : (i a : ℕ) → get_elem? newest i ≡ some a → a < length rows
  in_range i a e =
      All-at (λ a. a < length rows) newest i a (order_by-in_range fl (new_lt fl) rows) e

  -- The number that the binary search finds cuts off the prefix of those seen late enough.
  pub newest_prefix :
      (p : ℕ → Bool)
      → ((i : ℕ) → i < length rows → p i ≡ not (ltb_ℤ (first_seen_at fl rows i) min))
      → (search_index (length rows) too_old ≤ length rows)
        × (select p newest ≡ take (search_index (length rows) too_old) newest)
  newest_prefix p h =
      let s = search_index-Splits too_old too_old_mono (length rows) in
      let k = search_index (length rows) too_old in
      (
        s.within,
        select_prefix p k newest
            (λ i a e lt.
              let old = rw (e, too_old) at (s.below i lt) in rw (h a (in_range i a e), old))
            (λ i a e ge.
              let len = length-order_by fl (new_lt fl) rows in
              let lt : i < length newest = get_elem?-lt newest i a e in
              let old = rw (e, too_old) at (s.above i ge (rw len at lt)) in
              rw (h a (in_range i a e), old)),
      )
