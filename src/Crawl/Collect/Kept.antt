-- ===== src/Crawl/Collect/Kept.antt =====
-- What the pages of a crawl leave alone, and how often they are counted. Of crawler.record and
-- crawler.fetchPages of cmd/dataservice/main.go.
use itchgrep.Base.{ℕ, List, [], ◌∷◌, ◌≡◌, refl, Bool-cases, inl, inr, arith}
use itchgrep.Base.Text.{Text}
use itchgrep.Base.Text.Sets.{has}
use itchgrep.Models.Asset.{Asset}
use itchgrep.Crawl.Collect.{Crawler, collect, learn_recency, learn_tags, record_asset, record_page}

-- The crawler's counters and its work list.
abbrev pub Same : Crawler → Crawler → Type 0
Same c d =
    (d.items_per_page ≡ c.items_per_page)
    × (d.total_assets ≡ c.total_assets)
    × (d.max_root_rank ≡ c.max_root_rank)
    × (d.done_slices ≡ c.done_slices)
    × (d.pages_fetched ≡ c.pages_fetched)

collect-Same : (a : Asset) (c : Crawler) → Same c (collect a c)
unfolding collect
collect-Same a c = elim (Bool-cases (has c.seen a.game_id)) [
  | inl e ↦ rw e (refl, refl, refl, refl, refl)
  | inr e ↦ rw e (refl, refl, refl, refl, refl)
]

learn_recency-Same : (page : ℕ) (t : Text) (c : Crawler) → Same c (learn_recency page t c)
unfolding learn_recency
learn_recency-Same page t c = ground arith

learn_tags-Same : (tags : List Text) (t : Text) (c : Crawler) → Same c (learn_tags tags t c)
unfolding learn_tags
learn_tags-Same [] t c = (refl, refl, refl, refl, refl)
learn_tags-Same (tag ∷ tags) t c = learn_tags-Same tags t _

record_asset-Same :
    (tags : List Text) (page : ℕ) (a : Asset) (c : Crawler) → Same c (record_asset tags page a c)
unfolding record_asset
record_asset-Same tags page a c = ground (
  arith,
  collect-Same a c,
  learn_recency-Same page a.game_id (collect a c),
  learn_tags-Same tags a.game_id (learn_recency page a.game_id (collect a c)),
)

pub record_page-Same :
    (tags : List Text) (page : ℕ) (assets : List Asset) (c : Crawler)
    → Same c (record_page tags page assets c).0
unfolding record_page
record_page-Same tags page [] c = (refl, refl, refl, refl, refl)
record_page-Same tags page (a ∷ assets) c = ground (
  arith,
  record_asset-Same tags page a c,
  record_page-Same tags page assets (record_asset tags page a c),
)
