-- ===== src/Crawl/Collect.antt =====
-- What a crawl has collected so far, and how a page of assets adds to it: crawler.record, attachTags
-- and attachRecency of cmd/dataservice/main.go.
pub mod Kept
pub mod Collected
pub mod Sightings
use itchgrep.Base.{
  ℕ, ◌+◌, Bool, true, false, Option, none, some, List, [], ◌∷◌, ◌++◌, map, ltb, ◌==◌, if◌then◌else◌,
}
use itchgrep.Base.Int.{ℤ, pos}
use itchgrep.Base.Text.{Text, text_eq}
use itchgrep.Base.Text.Maps.{lookup, put}
use itchgrep.Base.Text.Sets.{has, set_add}
use itchgrep.Models.Asset.{Asset}

pub record Crawler : Type 0 where
  pub items_per_page : ℕ
  pub total_assets : ℕ
  pub seen : List Text
  pub assets : List Asset
  pub tag_sets : List (Text × List Text)
  pub recency : List (Text × ℕ)
  pub max_root_rank : ℕ
  pub done_slices : List Text
  pub resumed : Bool
  pub pages_fetched : ℕ

abbrev pub fresh : ℕ → ℕ → Crawler
fresh items_per_page total_assets = record {
  items_per_page = items_per_page;
  total_assets = total_assets;
  seen = [];
  assets = [];
  tag_sets = [];
  recency = [];
  max_root_rank = 0;
  done_slices = [];
  resumed = false;
  pages_fetched = 0;
}

-- c.tagSets[id], where a missing set is empty.
unfoldable pub tag_set : Crawler → Text → List Text
unfolding lookup
tag_set c id = elim (lookup id c.tag_sets) [ none ↦ [] | some set ↦ set ]

-- The three things that one asset of a page does.
unfoldable pub collect : Asset → Crawler → Crawler
unfolding set_add
collect a c =
    if has c.seen a.game_id
    then c
    else record c { seen = set_add a.game_id c.seen; assets = c.assets ++ (a ∷ []) }

-- The lowest page wins; page 0 stands for a view that says nothing of recency.
unfoldable pub learn_recency : ℕ → Text → Crawler → Crawler
unfolding lookup put
learn_recency page id c =
    if ltb 0 page
    then elim (lookup id c.recency) [
      | none ↦ record c { recency = put id page c.recency }
      | some prev ↦ if ltb page prev then record c { recency = put id page c.recency } else c
    ]
    else c

unfoldable pub learn_tags : List Text → Text → Crawler → Crawler
unfolding tag_set set_add put
learn_tags [] id c = c
learn_tags (t ∷ ts) id c =
    learn_tags ts id (record c { tag_sets = put id (set_add t (tag_set c id)) c.tag_sets })

unfoldable pub record_asset : List Text → ℕ → Asset → Crawler → Crawler
unfolding collect learn_recency learn_tags
record_asset tags page a c =
    if text_eq a.game_id []
    then c
    else learn_tags tags a.game_id (learn_recency page a.game_id (collect a c))

-- A page of assets, and how many of them were new.
unfoldable pub record_page : List Text → ℕ → List Asset → Crawler → Crawler × ℕ
unfolding record_asset
record_page tags page [] c = (c, 0)
record_page tags page (a ∷ assets) c =
    let (c', added) = record_page tags page assets (record_asset tags page a c) in
    (c', if text_eq a.game_id [] then added else if has c.seen a.game_id then added else added + 1)

unfoldable pub tagged : Crawler → Asset → Asset
unfolding tag_set
tagged c a = elim (tag_set c a.game_id) [ [] ↦ a | t ∷ ts ↦ record a { tags = t ∷ ts } ]

unfoldable pub attach_tags : Crawler → Crawler
unfolding tagged
attach_tags c = record c { assets = map (tagged c) c.assets }

unfoldable pub ranked_recent : Crawler → Asset → Asset
unfolding lookup
ranked_recent c a = elim (lookup a.game_id c.recency) [
  | none ↦ a
  | some page ↦ record a { inv_recency = pos page }
]

unfoldable pub attach_recency : Crawler → Crawler
unfolding ranked_recent
attach_recency c = record c { assets = map (ranked_recent c) c.assets }
