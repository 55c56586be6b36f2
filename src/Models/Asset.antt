-- ===== src/Models/Asset.antt =====
-- The asset of pkg/models/models.go and what is derived from it.
use itchgrep.Base.{ℕ, ◌^◌, Bool, true, false, Option, none, some, List, [], if◌then◌else◌}
use itchgrep.Base.Int.{ℤ, pos, leb_ℤ}
use itchgrep.Base.Text.{Text, codes, text_eq, join}
use itchgrep.Base.Text.Space.{fields}
use itchgrep.Money.Float.{Float64}
use itchgrep.Money.Price.{parse}
use itchgrep.Money.Rates.{Rates, usd}

-- `first_seen` is a time.Time: `none` for its zero value, else its Unix seconds.
pub record Asset : Type 0 where
  pub game_id : Text
  pub title : Text
  pub author : Text
  pub description : Text
  pub link : Text
  pub thumb_url : Text
  pub tags : List Text
  pub price : Text
  pub pay_what_you_want : Bool
  pub inv_popularity : ℤ
  pub inv_recency : ℤ
  pub first_seen : Option ℤ

abbrev pub unranked : ℤ
unranked = pos (2 ^ 40)

unfoldable pub recency_rank : Asset → ℤ
recency_rank a = if leb_ℤ a.inv_recency (pos 0) then unranked else a.inv_recency

unfoldable pub first_seen_unix : Asset → ℤ
first_seen_unix a = elim a.first_seen [ none ↦ pos 0 | some t ↦ t ]

unfoldable pub free : Asset → Bool
free a = text_eq a.price []

abbrev pub pricing_free : Text
pricing_free = codes "free"

abbrev pub pricing_paid : Text
pricing_paid = codes "paid"

abbrev pub pricing_under_5 : Text
pricing_under_5 = codes "under-5"

abbrev pub pricing_under_20 : Text
pricing_under_20 = codes "under-20"

unfoldable pub pricing : Asset → Text
unfolding free
pricing a = if free a then pricing_free else pricing_paid

abbrev pub sort_relevance : Text
sort_relevance = codes "relevance"

abbrev pub sort_popular : Text
sort_popular = codes "popular"

abbrev pub sort_title : Text
sort_title = codes "title"

abbrev pub sort_price : Text
sort_price = codes "price"

abbrev pub sort_recent : Text
sort_recent = codes "recent"

abbrev pub sort_new : Text
sort_new = codes "new"

-- What the Go runtime knows of Unicode beyond spaces: the tables of unicode.IsDigit outside ASCII
-- and of strings.ToLower.
pub record Unicode : Type 0 where
  pub wide_digit : Text → ℕ
  pub to_lower : Text → Text

module _ (uni : Unicode) where
  unfoldable pub author_key : Text → Text
  unfolding fields join
  author_key author = uni.to_lower (join (codes " ") (fields author))

module _ (uni : Unicode) (fl : Float64) where
  abbrev pub unknown_price : fl.F
  unknown_price = fl.of_nat 1_000_000_000

  -- The price in dollars, and whether it could be read.
  unfoldable pub price_usd : Rates fl → Asset → fl.F × Bool
  unfolding free parse usd
  price_usd rates a = if free a then (fl.of_nat 0, true) else elim (parse uni.wide_digit a.price) [
    | none ↦ (unknown_price, false)
    | some m ↦ elim (usd fl rates m) [ none ↦ (unknown_price, false) | some d ↦ (d, true) ]
  ]
