-- ===== src/Crawl/Checkpoint.antt =====
-- The checkpoint of a crawl and the resumption from it: crawler.checkpoint and resume of
-- cmd/dataservice/main.go.
pub mod Resumed
use itchgrep.Base.{
  ℕ, Bool, true, false, Option, none, some, List, [], ◌∷◌, ◌++◌, map, ltb, ◌==◌, if◌then◌else◌,
}
use itchgrep.Base.Text.{Text, text_eq}
use itchgrep.Base.Text.Maps.{put}
use itchgrep.Base.Text.Sets.{has, set_add, set_of}
use itchgrep.Models.Asset.{Asset}
use itchgrep.Crawl.Collect.{Crawler, tagged}

pub record Checkpoint : Type 0 where
  pub assets : List Asset
  pub done_slices : List Text
  pub max_root_rank : ℕ
  pub total_assets : ℕ
  pub recency : List (Text × ℕ)

unfoldable pub checkpoint : Crawler → Checkpoint
unfolding tagged
checkpoint c = record {
  assets = map (tagged c) c.assets;
  done_slices = c.done_slices;
  max_root_rank = c.max_root_rank;
  total_assets = c.total_assets;
  recency = c.recency;
}

-- The loop over the assets of a checkpoint.
unfoldable pub restore_asset : Asset → Crawler → Crawler
unfolding set_add set_of put
restore_asset a c =
    if text_eq a.game_id [] then c else if has c.seen a.game_id then c else elim a.tags [
      | [] ↦ record c { seen = set_add a.game_id c.seen; assets = c.assets ++ (a ∷ []) }
      | t ∷ ts ↦ record c {
        seen = set_add a.game_id c.seen;
        assets = c.assets ++ (a ∷ []);
        tag_sets = put a.game_id (set_of (t ∷ ts)) c.tag_sets;
      }
    ]

unfoldable pub restore_assets : List Asset → Crawler → Crawler
unfolding restore_asset
restore_assets [] c = c
restore_assets (a ∷ assets) c = restore_assets assets (restore_asset a c)

unfoldable pub add_labels : List Text → List Text → List Text
unfolding set_add
add_labels [] finished = finished
add_labels (l ∷ labels) finished = set_add l (add_labels labels finished)

-- Each key of a Go map is met once, in no fixed order; here the first entry of a key wins.
unfoldable pub copy_ranks : List (Text × ℕ) → List (Text × ℕ) → List (Text × ℕ)
unfolding put
copy_ranks [] m = m
copy_ranks ((id, page) ∷ ranks) m = put id page (copy_ranks ranks m)

-- `none` is a checkpoint that cannot be read; `age` is how old the one that was read is.
unfoldable pub resume : ℕ → ℕ → Option Checkpoint → Crawler → Crawler
unfolding restore_assets add_labels copy_ranks
resume max_age age none c = c
resume max_age age (some cp) c =
    let r = restore_assets cp.assets c in
    if ltb max_age age
    then c
    else if cp.total_assets == c.total_assets
    then record r {
      done_slices = add_labels cp.done_slices r.done_slices;
      max_root_rank = cp.max_root_rank;
      recency = copy_ranks cp.recency r.recency;
      resumed = true;
    }
    else c
