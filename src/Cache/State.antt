-- ===== src/Cache/State.antt =====
-- The loaded dataset and the answer to a request: Cache of internal/cache/cache.go, and Results of
-- internal/cache/search.go. Go's nil slices and pointers are `none`.
use itchgrep.Base.{
  ℕ, zero, suc, ◌+◌, ◌-◌, ◌*◌, ◌%◌, ◌^◌, Bool, false, Option, none, some, List, [], ◌∷◌, get_elem?,
}
use itchgrep.Base.Int.{ℤ, pos, negsuc, wrap64}
use itchgrep.Base.Text.{Text}
use itchgrep.Money.Float.{Float64}
use itchgrep.Models.Tag.{Tag}
use itchgrep.Models.Asset.{Asset}
use itchgrep.Cache.Engine.{Engine}

-- `data_map` leads from a game id to the asset's position; `indexed` tells whether a search index
-- is open.
pub record Cache (fl : Float64) : Type 0 where
  pub assets : Option (List Asset)
  pub data_map : List (Text × ℕ)
  pub indexed : Bool
  pub eng : Option (Engine fl)
  pub tag_counts : List Tag
  pub tag_catalog : List (Text × ℕ)
  pub has_recency : Bool
  pub has_price_bands : Bool
  pub page_size : ℕ

pub record Results : Type 0 where
  pub assets : List Asset
  pub total : ℕ
  pub tags : List Tag
  pub like_title : Text
  pub any_word_fallback : Bool

abbrev pub no_results : Results
no_results = record {
  assets = [];
  total = 0;
  tags = [];
  like_title = [];
  any_word_fallback = false;
}

pub data Answer : Type 0 where
  found : Results → Answer
  not_ready : Answer

-- int64 (page - 1) * page_size, with its wrap-around.
unfoldable pub page_start : ℤ → ℕ → ℤ
unfolding wrap64
page_start (pos zero) size = wrap64 (2 ^ 64 - size % 2 ^ 64)
page_start (pos (suc n)) size = wrap64 (n * size)
page_start (negsuc n) size = wrap64 (2 ^ 64 - (n + 2) * size % 2 ^ 64)

-- The assets at positions; the engine's positions are always in range.
unfoldable pub at_positions : List Asset → List ℕ → List Asset
at_positions assets [] = []
at_positions assets (i ∷ rest) =
    let later = at_positions assets rest in
    elim (get_elem? assets i) [ none ↦ later | some a ↦ a ∷ later ]
