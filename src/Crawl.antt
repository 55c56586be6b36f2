-- ===== src/Crawl.antt =====
-- The dataservice's decisions: when to crawl again, and since when an asset is known. Of
-- cmd/dataservice/main.go.
pub mod Arrivals
pub mod Schedule
pub mod Collect
pub mod Run
pub mod Checkpoint
pub mod Build
pub mod Publish
use itchgrep.Base.{
  ℕ, suc, ◌+◌, ◌*◌, Bool, true, false, not, ◌&&◌, ◌||◌, Option, none, some, List, [], ◌∷◌, any, ltb,
  leb, ◌==◌, if◌then◌else◌,
}
use itchgrep.Base.Int.{ℤ}
use itchgrep.Base.Text.{Text, text_eq}
use itchgrep.Base.Text.Maps.{lookup, put}
use itchgrep.Models.Asset.{Asset}

pub data CrawlAction : Type 0 where
  nothing : CrawlAction
  crawl : CrawlAction

-- Durations are whole nanoseconds; an interval is not negative.
abbrev pub minute : ℕ
minute = 60 * 1_000_000_000

unfoldable pub decide_crawl_action : Bool → ℕ → ℕ → CrawlAction
decide_crawl_action has_data age interval =
    if not has_data
    then CrawlAction.crawl
    else if leb interval age
    then CrawlAction.crawl
    else CrawlAction.nothing

abbrev pub step_of : ℕ → ℕ → ℕ
step_of failures interval =
    if failures == 1
    then 15 * minute
    else if failures == 2
    then 60 * minute
    else if failures == 3
    then 6 * 60 * minute
    else interval

unfoldable pub backoff_delay : ℕ → ℕ → ℕ
backoff_delay failures interval =
    let delay = step_of failures interval in
    if ltb 0 interval && ltb interval delay then interval else delay

-- `missed` counts the crawls in a row that did not find the asset.
pub record Arrival : Type 0 where
  pub first_seen : Option ℤ
  pub missed : ℕ

abbrev pub first_seen_forget_after : ℕ
first_seen_forget_after = 6

-- What is known before the crawl: the last publish, overwritten by the persisted map.
unfoldable pub from_previous : List Asset → List (Text × Arrival) → List (Text × Arrival)
unfolding put
from_previous [] m = m
from_previous (a ∷ assets) m =
    from_previous assets (put a.game_id (record { first_seen = a.first_seen; missed = 0 }) m)

unfoldable pub from_known : List (Text × Arrival) → List (Text × Arrival) → List (Text × Arrival)
unfolding put
from_known [] m = m
from_known ((id, r) ∷ known) m = from_known known (put id r m)

-- Since when an asset is known: what its record says, or now.
unfoldable pub arrival_of : Option ℤ → List (Text × Arrival) → Text → Option ℤ
unfolding lookup
arrival_of published_at m id = elim (lookup id m) [ none ↦ published_at | some r ↦ r.first_seen ]

-- The loop over the current assets.
unfoldable pub stamp_all :
    Option ℤ → List (Text × Arrival) → List Asset → List Asset × List (Text × Arrival)
unfolding arrival_of put
stamp_all published_at m [] = ([], m)
stamp_all published_at m (a ∷ assets) =
    let at = arrival_of published_at m a.game_id in
    let (rest, m') =
      stamp_all published_at (put a.game_id (record { first_seen = at; missed = 0 }) m) assets in
    (record a { first_seen = at } ∷ rest, m')

abbrev pub is_current : List Asset → Text → Bool
is_current assets id = any (λ a. text_eq a.game_id id) assets

-- The loop over the records: those of absent assets count a crawl more, and go at the sixth.
unfoldable pub age_all : List Asset → List (Text × Arrival) → List (Text × Arrival)
age_all current [] = []
age_all current ((id, r) ∷ m) =
    let rest = age_all current m in
    if is_current current id
    then (id, r) ∷ rest
    else if leb first_seen_forget_after (r.missed + 1)
    then rest
    else (id, record r { missed = r.missed + 1 }) ∷ rest

-- The stamped assets and the map to persist.
unfoldable pub stamp_first_seen :
    List (Text × Arrival) → List Asset → List Asset → Option ℤ → List Asset × List (Text × Arrival)
unfolding from_previous from_known stamp_all age_all
stamp_first_seen known previous current published_at =
    let (stamped, m) =
      stamp_all published_at (from_known known (from_previous previous [])) current in
    (stamped, age_all current m)
