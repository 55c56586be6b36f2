-- ===== src/Cache/Engine/Search/Positions.antt =====
-- The orderings of an engine, whichever sort is asked for: each holds every position once.
use itchgrep.Base.{
  ℕ, zero, suc, ◌+◌, ◌≤◌, ◌<◌, ◌≡◌, refl, ap, Bool, true, arith, length, select, All, Bool-cases,
  inl, inr, ◌⊎◌,
}
use itchgrep.Base.Text.{Text, text_eq, text_eq_iff}
use itchgrep.Money.Float.{Float64}
use itchgrep.Models.Asset.{sort_title, sort_price, sort_recent, sort_new}
use itchgrep.Cache.Engine.{Engine, Row, order, order_by, title_lt, price_lt, recent_lt, new_lt}
use itchgrep.Cache.Engine.Search.{iota, positions}
use itchgrep.Cache.Engine.Search.Orders.{length-select-order_by, order_by-in_range, length-order_by}

iota-length : (i n : ℕ) → length (iota i n) ≡ n
iota-length i zero = refl
iota-length i (suc n) = ap suc (iota-length (suc i) n)

iota-in_range : (i n m : ℕ) → i + n ≤ m → All (λ k. k < m) (iota i n)
iota-in_range i zero m h = tt
iota-in_range i (suc n) m h = (omega arith, iota-in_range (suc i) n m (omega arith))

module _ (fl : Float64) where
  -- The lists of positions are the orderings of the rows.
  pub record IsOrdering (e : Engine fl) : Type 0 where
    pub title : e.by_title ≡ order_by fl (title_lt fl) e.rows
    pub price : e.by_price ≡ order_by fl (price_lt fl) e.rows
    pub recent : e.by_recent ≡ order_by fl (recent_lt fl) e.rows
    pub new : e.by_new ≡ order_by fl (new_lt fl) e.rows

  module _ (e : Engine fl) (v : IsOrdering e) where
    positions-cases :
        (key : Text)
        → (positions fl e key ≡ iota 0 (length e.rows))
          ⊎ ((lt : Row fl → Row fl → Bool) × (positions fl e key ≡ order_by fl lt e.rows))
    unfolding positions order
    positions-cases key = elim (Bool-cases (text_eq key sort_title)) [
      | inl t ↦ inr (title_lt fl, rw (t, positions, order) v.title)
      | inr nt ↦ elim (Bool-cases (text_eq key sort_price)) [
        | inl p ↦ inr (price_lt fl, rw (nt, p, positions, order) v.price)
        | inr np ↦ elim (Bool-cases (text_eq key sort_recent)) [
          | inl r ↦ inr (recent_lt fl, rw (nt, np, r, positions, order) v.recent)
          | inr nr ↦ elim (Bool-cases (text_eq key sort_new)) [
            | inl n ↦ inr (new_lt fl, rw (nt, np, nr, n, positions, order) v.new)
            | inr nn ↦ inl (rw (nt, np, nr, nn, positions, order))
          ]
        ]
      ]
    ]

    pub positions-new :
        (key : Text)
        → text_eq key sort_new ≡ true
        → positions fl e key ≡ order_by fl (new_lt fl) e.rows
    positions-new key h =
        let k : key ≡ sort_new = (text_eq_iff key sort_new).0 h in
        rw k (unfold positions order text_eq in v.new)

    pub length-positions : (key : Text) → length (positions fl e key) ≡ length e.rows
    length-positions key = elim (positions-cases key) [
      | inl p ↦ rw p (iota-length 0 (length e.rows))
      | inr (lt, p) ↦ rw p (length-order_by fl lt e.rows)
    ]

    pub positions-in_range : (key : Text) → All (λ i. i < length e.rows) (positions fl e key)
    positions-in_range key = elim (positions-cases key) [
      | inl p ↦ rw p (iota-in_range 0 (length e.rows) (length e.rows) (omega arith))
      | inr (lt, p) ↦ rw p (order_by-in_range fl lt e.rows)
    ]

    pub length-select-positions :
        (p : ℕ → Bool) (key : Text)
        → length (select p (positions fl e key)) ≡ length (select p (iota 0 (length e.rows)))
    length-select-positions p key = elim (positions-cases key) [
      | inl at ↦ rw at
      | inr (lt, at) ↦ rw at (length-select-order_by fl lt e.rows p)
    ]
