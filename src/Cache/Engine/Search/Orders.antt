-- ===== src/Cache/Engine/Search/Orders.antt =====
-- The engine's orderings: each holds every position once, sorted by its key and then by position.
use itchgrep.Base.{
  ℕ, zero, suc, ◌+◌, ◌<◌, ◌≡◌, refl, sym, ap, ◌∙◌, Bool, true, false, some, List, [], ◌∷◌, map,
  arith, length, length-map, select, get_elem?, All, All-weaken, All-map, Option-cases, inl, inr,
  length-select-map, get_elem?-map-none, get_elem?-map-some, get_elem?-lt, All-at,
}
use itchgrep.Base.Sort.{
  sort, All-sort, length-sort, length-select-sort, IsSorted, sort-IsSorted, IsSorted-at,
}
use itchgrep.Money.Float.{Float64}
use itchgrep.Cache.Engine.{Row, enumerate_from, before, order_by}
use itchgrep.Cache.Engine.Search.{iota}

module _ (fl : Float64) where
  map-enumerate :
      (i : ℕ) (rows : List (Row fl)) → map (λ p. p.0) (enumerate_from i rows) ≡ iota i (length rows)
  map-enumerate i [] = refl
  map-enumerate i (r ∷ rows) = ap (◌∷◌ i) (map-enumerate (suc i) rows)

  -- The pair is a position and the row there.
  abbrev pub AtPlace : List (Row fl) → ℕ × Row fl → Type 0
  AtPlace rows p = get_elem? rows p.0 ≡ some p.1

  enumerate-AtPlace :
      (whole : List (Row fl)) (i : ℕ) (rows : List (Row fl))
      → ((j : ℕ) (r : Row fl) (k : ℕ)
          → k ≡ i + j
          → get_elem? rows j ≡ some r
          → get_elem? whole k ≡ some r)
      → All (AtPlace whole) (enumerate_from i rows)
  enumerate-AtPlace whole i [] h = tt
  enumerate-AtPlace whole i (r ∷ rows) h = (
    h 0 r i (omega arith) refl,
    enumerate-AtPlace whole (suc i) rows (λ j s k e q. h (suc j) s k (omega arith) q),
  )

  module _ (lt : Row fl → Row fl → Bool) (rows : List (Row fl)) where
    abbrev pub sorted_pairs : List (ℕ × Row fl)
    sorted_pairs = sort (before fl lt) (enumerate_from 0 rows)

    sorted_pairs-AtPlace : All (AtPlace rows) sorted_pairs
    sorted_pairs-AtPlace =
        All-sort (before fl lt) (AtPlace rows) (enumerate_from 0 rows)
          (enumerate-AtPlace rows 0 rows (λ j r k e q. let e' : k ≡ j = omega arith in rw e' q))

    -- As many positions pass a test as in the data's own order.
    pub length-select-order_by :
        (p : ℕ → Bool)
        → length (select p (order_by fl lt rows)) ≡ length (select p (iota 0 (length rows)))
    unfolding order_by
    length-select-order_by p =
        length-select-map (λ q. q.0) p sorted_pairs
        ∙ length-select-sort (before fl lt) (λ q. p q.0) (enumerate_from 0 rows)
        ∙ sym (length-select-map (λ q. q.0) p (enumerate_from 0 rows))
        ∙ ap (λ (xs : List ℕ). length (select p xs)) (map-enumerate 0 rows)

    pub order_by-in_range : All (λ i. i < length rows) (order_by fl lt rows)
    unfolding order_by
    order_by-in_range =
        All-map (λ i. i < length rows) (λ q. q.0) sorted_pairs
          (All-weaken (AtPlace rows) (λ q. q.0 < length rows) (λ q h. get_elem?-lt rows q.0 q.1 h)
            sorted_pairs sorted_pairs-AtPlace)

    pub length-order_by : length (order_by fl lt rows) ≡ length rows
    unfolding order_by
    length-order_by =
        length-map sorted_pairs (λ q. q.0)
        ∙ length-sort (before fl lt) (enumerate_from 0 rows)
        ∙ sym (length-map (enumerate_from 0 rows) (λ q. q.0))
        ∙ ap length (map-enumerate 0 rows)
        ∙ length-iota 0 (length rows)
      where
        length-iota : (i n : ℕ) → length (iota i n) ≡ n
        length-iota i zero = refl
        length-iota i (suc n) = ap suc (length-iota (suc i) n)

    module _ (asymm : (x y : Row fl) → lt x y ≡ true → lt y x ≡ false)
        (trans : (x y z : Row fl) → lt y x ≡ false → lt z y ≡ false → lt z x ≡ false) where
      before_total : (p q : ℕ × Row fl) → before fl lt p q ≡ false → before fl lt q p ≡ true
      unfolding before
      before_total (i, x) (j, y) h = ground (arith, asymm x y, asymm y x)

      before_trans :
          (p q r : ℕ × Row fl)
          → before fl lt p q ≡ true
          → before fl lt q r ≡ true
          → before fl lt p r ≡ true
      unfolding before
      before_trans (i, x) (j, y) (k, z) h h' = ground (
        arith,
        asymm x y,
        asymm y z,
        asymm x z,
        trans x y z,
        trans z x y,
        trans y z x,
        trans z y x,
        trans y x z,
        trans x z y,
      )

      pub sorted_pairs-IsSorted : IsSorted (before fl lt) sorted_pairs
      sorted_pairs-IsSorted =
          sort-IsSorted (before fl lt) before_total before_trans (enumerate_from 0 rows)

      -- Of two places in the ordering, the earlier holds the row that comes first.
      pub order_by-before :
          (i j a b : ℕ)
          → i < j
          → get_elem? (order_by fl lt rows) i ≡ some a
          → get_elem? (order_by fl lt rows) j ≡ some b
          → (x : Row fl) × (y : Row fl) × (get_elem? rows a ≡ some x)
            × (get_elem? rows b ≡ some y)
            × (before fl lt (a, x) (b, y) ≡ true)
      unfolding order_by
      order_by-before i j a b h ea eb = elim (Option-cases (get_elem? sorted_pairs i)) [
        | inl out ↦ cc (get_elem?-map-none (λ q. q.0) sorted_pairs i out)
        | inr (p, at) ↦ elim (Option-cases (get_elem? sorted_pairs j)) [
          | inl out ↦ cc (get_elem?-map-none (λ q. q.0) sorted_pairs j out)
          | inr (q, at') ↦
              let ep : p.0 ≡ a = cc (get_elem?-map-some (λ q. q.0) sorted_pairs i p at) in
              let eq : q.0 ≡ b = cc (get_elem?-map-some (λ q. q.0) sorted_pairs j q at') in
              (
                p.1,
                q.1,
                rw (← ep) (All-at (AtPlace rows) sorted_pairs i p sorted_pairs-AtPlace at),
                rw (← eq) (All-at (AtPlace rows) sorted_pairs j q sorted_pairs-AtPlace at'),
                rw (← ep, ← eq)
                    (IsSorted-at (before fl lt) sorted_pairs i j p q sorted_pairs-IsSorted h at
                      at'),
              )
        ]
      ]
