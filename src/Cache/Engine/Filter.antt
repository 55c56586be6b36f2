-- ===== src/Cache/Engine/Filter.antt =====
-- A request's filters in the engine's terms, and the test of one row: filterFor and matches.
use itchgrep.Base.{
  ℕ, Bool, true, false, not, ◌&&◌, ◌||◌, Option, none, some, List, [], ◌∷◌, ◌==◌, length, any, all,
  if◌then◌else◌,
}
use itchgrep.Base.Int.{ℤ, pos, ltb_ℤ}
use itchgrep.Base.Text.{Text, text_eq}
use itchgrep.Money.Float.{Float64}
use itchgrep.Base.Text.Maps.{lookup}
use itchgrep.Models.Asset.{
  Unicode, author_key, pricing_free, pricing_paid, pricing_under_5, pricing_under_20,
}
use itchgrep.Cache.Options.{SearchOptions}
use itchgrep.Cache.Engine.{Table, Tables, Row}

pub record Filter : Type 0 where
  pub nothing : Bool
  pub req : List ℕ
  pub excl : List ℕ
  pub any_of : List ℕ
  pub has_any : Bool
  pub skip : Option ℕ
  pub author : ℕ
  pub has_author : Bool
  pub price : Text
  pub min_first : ℤ

-- Nothing but the first sighting narrows the catalog.
unfoldable pub pure : Filter → Bool
pure f =
    length f.req == 0
    && (length f.excl == 0
        && (not f.has_any
            && (not f.has_author
                && (text_eq f.price [] && elim f.skip [ none ↦ true | some _ ↦ false ]))))

-- The ids of those tags of a list that some asset carries.
unfoldable pub known_ids : Table → List Text → List ℕ
known_ids tbl [] = []
known_ids tbl (t ∷ ts) =
    let rest = known_ids tbl ts in elim (lookup t tbl.ids) [ none ↦ rest | some id ↦ id ∷ rest ]

-- Whether some tag of a list is carried by no asset.
unfoldable pub has_unknown : Table → List Text → Bool
has_unknown tbl [] = false
has_unknown tbl (t ∷ ts) =
    let rest = has_unknown tbl ts in elim (lookup t tbl.ids) [ none ↦ true | some _ ↦ rest ]

unfoldable pub author_id : List (Text × ℕ) → Text → ℕ
author_id authors key = elim (lookup key authors) [ none ↦ 0 | some id ↦ id ]

-- A price value that is not known is no filter.
unfoldable pub known_price : Text → Text
known_price p =
    if any (λ k. text_eq p k)
      (pricing_free ∷ pricing_paid ∷ pricing_under_5 ∷ pricing_under_20 ∷ [])
    then p
    else []

unfoldable pub filter_for : Unicode → Tables → SearchOptions → List Text → Option ℕ → Filter
filter_for uni tb opts like_tags like_idx =
    let has_author = not (text_eq opts.author []) in
    let author = author_id tb.authors (author_key uni opts.author) in
    let has_any = not (text_eq opts.like []) in
    let any_of = known_ids tb.tags like_tags in
    record {
      nothing =
          has_unknown tb.tags opts.tags
          || (has_author && author == 0 || (has_any && length any_of == 0));
      req = known_ids tb.tags opts.tags;
      excl = known_ids tb.tags opts.exclude_tags;
      any_of = if has_any then any_of else [];
      has_any = has_any;
      skip = if has_any then like_idx else none;
      author = if has_author then author else 0;
      has_author = has_author;
      price = known_price opts.price;
      min_first = opts.min_first_seen;
    }

-- slices.Contains
abbrev pub contains : List ℕ → ℕ → Bool
contains ids id = any (λ u. u == id) ids

abbrev pub is_source : Option ℕ → ℕ → Bool
is_source none i = false
is_source (some k) i = i == k

module _ (fl : Float64) where
  -- The switch over the price filter.
  unfoldable pub in_band : Text → Bool → fl.F → Bool
  in_band price is_free usd =
      if text_eq price []
      then true
      else if text_eq price pricing_free
      then is_free
      else if text_eq price pricing_paid
      then not is_free
      else if text_eq price pricing_under_5
      then fl.lt (fl.of_nat 0) usd && fl.lt usd (fl.of_nat 5)
      else if text_eq price pricing_under_20
      then fl.lt (fl.of_nat 0) usd && fl.lt usd (fl.of_nat 20)
      else true

  unfoldable pub matches : Filter → ℕ → Row fl → Bool
  matches f i row =
      if is_source f.skip i
      then false
      else if ltb_ℤ (pos 0) f.min_first && ltb_ℤ row.first_seen f.min_first
      then false
      else if f.has_author && not (row.author == f.author)
      then false
      else if not (in_band f.price row.free row.usd)
      then false
      else if not (all (λ t. contains row.run t) f.req)
      then false
      else if f.has_any && not (any (λ t. contains row.run t) f.any_of)
      then false
      else not (any (λ t. contains row.run t) f.excl)
