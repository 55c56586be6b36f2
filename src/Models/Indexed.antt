-- ===== src/Models/Indexed.antt =====
-- The document that the search index has of an asset: IndexedAsset of pkg/models/models.go.
use itchgrep.Base.{List}
use itchgrep.Base.Int.{ℤ}
use itchgrep.Base.Text.{Text}
use itchgrep.Base.Text.Space.{trim_space}
use itchgrep.Money.Float.{Float64}
use itchgrep.Models.Asset.{Asset, Unicode, author_key, pricing, recency_rank, first_seen_unix}

module _ (fl : Float64) where
  pub record IndexedAsset : Type 0 where
    pub game_id : Text
    pub title : Text
    pub author : Text
    pub author_key : Text
    pub description : Text
    pub tags : List Text
    pub tag_slugs : List Text
    pub pricing : Text
    pub sort_title : Text
    pub inv_popularity : ℤ
    pub recency_rank : ℤ
    pub first_seen_unix : ℤ
    pub price_usd : fl.F

module _ (uni : Unicode) (fl : Float64) where
  unfoldable pub new_indexed_asset : Asset → fl.F → IndexedAsset fl
  unfolding author_key pricing recency_rank first_seen_unix trim_space
  new_indexed_asset a price_usd = record {
    game_id = a.game_id;
    title = a.title;
    author = a.author;
    author_key = author_key uni a.author;
    description = a.description;
    tags = a.tags;
    tag_slugs = a.tags;
    pricing = pricing a;
    sort_title = uni.to_lower (trim_space a.title);
    inv_popularity = a.inv_popularity;
    recency_rank = recency_rank a;
    first_seen_unix = first_seen_unix a;
    price_usd = price_usd;
  }
