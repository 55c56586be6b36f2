-- ===== src/Cache/Engine.antt =====
-- The in-memory engine of internal/cache/engine.go: buildEngine, order, filterFor and matches.
-- An asset's entries in the parallel arrays are one row; its run of tagList is the row's `run`.
pub mod Filter
pub mod Intern
pub mod Authors
pub mod Rows
pub mod Wanted
pub mod Parity
pub mod Search
use itchgrep.Base.{
  ℕ, suc, ◌+◌, Bool, true, false, not, ◌&&◌, ◌||◌, Option, none, some, List, [], ◌∷◌, ◌++◌, map,
  ltb, leb, ◌==◌, length, any, all, if◌then◌else◌,
}
use itchgrep.Base.Int.{ℤ, pos, ltb_ℤ}
use itchgrep.Base.Sort.{sort}
use itchgrep.Base.Text.{Text, text_eq, text_lt}
use itchgrep.Base.Text.Space.{trim_space}
use itchgrep.Money.Float.{Float64}
use itchgrep.Money.Rates.{Rates}
use itchgrep.Base.Text.Maps.{lookup}
use itchgrep.Models.Asset.{
  Asset, Unicode, author_key, price_usd, free, recency_rank, first_seen_unix, pricing_free,
  pricing_paid, pricing_under_5, pricing_under_20, sort_title, sort_price, sort_recent, sort_new,
}
use itchgrep.Cache.Options.{SearchOptions}

abbrev pub max_uint16 : ℕ
max_uint16 = 65535

-- tagSlugs and tagIDs.
pub record Table : Type 0 where
  pub slugs : List Text
  pub ids : List (Text × ℕ)

abbrev pub empty_table : Table
empty_table = record { slugs = []; ids = [] }

-- The id of a tag, a new one if need be; `none` when no id is left.
unfoldable pub intern : Table → Text → Option (Table × ℕ)
unfolding lookup
intern tbl t = elim (lookup t tbl.ids) [
  | some id ↦ some (tbl, id)
  | none ↦
      if ltb max_uint16 (length tbl.slugs)
      then none
      else some (
        record { slugs = tbl.slugs ++ (t ∷ []); ids = (t, length tbl.slugs) ∷ tbl.ids },
        length tbl.slugs,
      )
]

-- The loop over the tags of one asset.
unfoldable pub intern_all : Table → List Text → Option (Table × List ℕ)
unfolding intern
intern_all tbl [] = some (tbl, [])
intern_all tbl (t ∷ ts) = elim (intern tbl t) [
  | none ↦ none
  | some (tbl', id) ↦ elim (intern_all tbl' ts) [
    | none ↦ none
    | some (tbl'', ids) ↦ some (tbl'', id ∷ ids)
  ]
]

-- slices.Compact: of equal neighbours the first is kept.
unfoldable pub compact : List ℕ → List ℕ
compact [] = []
compact (x ∷ []) = x ∷ []
compact (x ∷ y ∷ ys) = let rest = compact (y ∷ ys) in if x == y then rest else x ∷ rest

unfoldable pub run_of : List ℕ → List ℕ
unfolding compact sort
run_of ids = compact (sort leb ids)

-- The author's id; 0 for none.
unfoldable pub intern_author : List (Text × ℕ) → Text → List (Text × ℕ) × ℕ
unfolding lookup
intern_author authors key = if text_eq key [] then (authors, 0) else elim (lookup key authors) [
  | some id ↦ (authors, id)
  | none ↦ ((key, length authors + 1) ∷ authors, length authors + 1)
]

pub record Row (fl : Float64) : Type 0 where
  pub title_key : Text
  pub usd : fl.F
  pub free : Bool
  pub recency : ℤ
  pub first_seen : ℤ
  pub run : List ℕ
  pub author : ℕ

pub record Tables : Type 0 where
  pub tags : Table
  pub authors : List (Text × ℕ)

pub record Engine (fl : Float64) : Type 0 where
  pub rows : List (Row fl)
  pub tables : Tables
  pub by_title : List ℕ
  pub by_price : List ℕ
  pub by_recent : List ℕ
  pub by_new : List ℕ

abbrev pub enumerate_from : {A : Type 0} → ℕ → List A → List (ℕ × A)
enumerate_from i [] = []
enumerate_from i (x ∷ xs) = (i, x) ∷ enumerate_from (suc i) xs

module _ (fl : Float64) where
  -- Equal on the key: popularity order, which is position.
  unfoldable pub before : (Row fl → Row fl → Bool) → ℕ × Row fl → ℕ × Row fl → Bool
  before lt (i, x) (j, y) = lt x y || (not (lt y x) && leb i j)

  unfoldable pub order_by : (Row fl → Row fl → Bool) → List (Row fl) → List ℕ
  unfolding before sort
  order_by lt rows = map (λ p. p.0) (sort (before lt) (enumerate_from 0 rows))

  abbrev pub title_lt : Row fl → Row fl → Bool
  title_lt x y = text_lt x.title_key y.title_key

  abbrev pub price_lt : Row fl → Row fl → Bool
  price_lt x y = fl.lt x.usd y.usd

  abbrev pub recent_lt : Row fl → Row fl → Bool
  recent_lt x y = ltb_ℤ x.recency y.recency

  -- Descending: a later first sighting is a newer arrival.
  abbrev pub new_lt : Row fl → Row fl → Bool
  new_lt x y = ltb_ℤ y.first_seen x.first_seen

  -- The positions in the order of one sort, or `none` for popularity, which is the identity.
  unfoldable pub order : Engine fl → Text → Option (List ℕ)
  order e key =
      if text_eq key sort_title
      then some e.by_title
      else if text_eq key sort_price
      then some e.by_price
      else if text_eq key sort_recent
      then some e.by_recent
      else if text_eq key sort_new
      then some e.by_new
      else none

module _ (uni : Unicode) (fl : Float64) (rates : Rates fl) where
  unfoldable pub row_of : Asset → List ℕ → ℕ → Row fl
  unfolding price_usd run_of recency_rank first_seen_unix
  row_of a ids author_id = record {
    title_key = uni.to_lower (trim_space a.title);
    usd = (price_usd uni fl rates a).0;
    free = free a;
    recency = recency_rank a;
    first_seen = first_seen_unix a;
    run = run_of ids;
    author = author_id;
  }

  unfoldable pub build_rows : Tables → List Asset → Option (Tables × List (Row fl))
  unfolding intern_all intern_author row_of author_key
  build_rows tb [] = some (tb, [])
  build_rows tb (a ∷ assets) = elim (intern_all tb.tags a.tags) [
    | none ↦ none
    | some (tags, ids) ↦
        let (authors, author_id) = intern_author tb.authors (author_key uni a.author) in
        elim (build_rows (record { tags = tags; authors = authors }) assets) [
          | none ↦ none
          | some (tb', rows) ↦ some (tb', row_of a ids author_id ∷ rows)
        ]
  ]

  -- `none` when the tags outnumber the ids: the engine is disabled.
  unfoldable pub build_engine : List Asset → Option (Engine fl)
  build_engine assets = elim (build_rows (record { tags = empty_table; authors = [] }) assets) [
    | none ↦ none
    | some (tb, rows) ↦ some (record {
      rows = rows;
      tables = tb;
      by_title = order_by fl (title_lt fl) rows;
      by_price = order_by fl (price_lt fl) rows;
      by_recent = order_by fl (recent_lt fl) rows;
      by_new = order_by fl (new_lt fl) rows;
    })
  ]
