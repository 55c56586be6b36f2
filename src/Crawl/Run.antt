-- ===== src/Crawl/Run.antt =====
-- The crawl itself: crawler.run, runSlice and fetchPages of cmd/dataservice/main.go. What the site
-- answers, and the order in which the concurrent fetches of a batch end, is a parameter.
pub mod Rounds
pub mod Budget
pub mod Depth
pub mod Books
use itchgrep.Base.{
  ℕ, zero, suc, ◌+◌, ◌-◌, ◌*◌, Bool, true, false, not, ◌&&◌, ◌||◌, Option, none, some, List, [],
  ◌∷◌, ◌++◌, ltb, leb, ◌==◌, length, drop, if◌then◌else◌,
}
use itchgrep.Base.Text.{Text, text_eq}
use itchgrep.Base.Text.Sets.{has, set_add}
use itchgrep.Money.Float.{Float64}
use itchgrep.Models.Asset.{Asset}
use itchgrep.Fetcher.Slice.{Slice, valid, label, is_root, is_newest_root, pages_to_fetch}
use itchgrep.Crawl.Collect.{Crawler, record_page}

abbrev pub max_concurrent_requests : ℕ
max_concurrent_requests = 8

abbrev pub yield_window : ℕ
yield_window = 2 * max_concurrent_requests

-- The end of a fetch: past the last page, a failure (of the fetch or of the parse), or the assets
-- of the page, which carry the rank that they are given.
pub data Reply : Type 0 where
  exhausted : Reply
  failed : Reply
  listed : (ℕ → List Asset) → Reply

-- One page of a batch that ended.
pub record Fetched : Type 0 where
  pub page : ℕ
  pub reply : Reply

-- A view's root pages are ranks; every other page ranks behind all of them.
unfoldable pub rank_for : Crawler → Bool → ℕ → ℕ
rank_for c root page = if root then page else c.max_root_rank + page

-- One goroutine of fetchPages: the crawler, and the assets of the page that are new.
unfoldable pub take_reply : Slice → Fetched → Crawler → Crawler × ℕ
unfolding rank_for record_page is_root is_newest_root
take_reply s f c =
    let c' = record c { pages_fetched = c.pages_fetched + 1 } in
    elim f.reply [
      | exhausted ↦ (c', 0)
      | failed ↦ (c', 0)
      | listed assets ↦
          record_page s.tags (if is_newest_root s then f.page else 0)
            (assets (rank_for c' (is_root s) f.page)) c'
    ]

-- A batch in the order in which its fetches end, with the number of new assets of each page.
unfoldable pub take_replies : Slice → List Fetched → Crawler → Crawler × List (ℕ × ℕ)
unfolding take_reply
take_replies s [] c = (c, [])
take_replies s (f ∷ fs) c =
    let (c', added) = take_reply s f c in
    let (c'', rest) = take_replies s fs c' in (c'', (f.page, added) ∷ rest)

unfoldable pub any_exhausted : List Fetched → Bool
any_exhausted [] = false
any_exhausted (f ∷ fs) = elim f.reply [
  | exhausted ↦ true
  | failed ↦ any_exhausted fs
  | listed _ ↦ any_exhausted fs
]

abbrev pub added_on : List (ℕ × ℕ) → ℕ → ℕ
added_on [] page = 0
added_on ((p, n) ∷ rest) page = if p == page then n else added_on rest page

-- perPage: the numbers in the order of the pages.
unfoldable pub per_page : List (ℕ × ℕ) → ℕ → ℕ → List ℕ
per_page added page zero = []
per_page added page (suc n) = added_on added page ∷ per_page added (page + 1) n

unfoldable pub last_yields : List ℕ → List ℕ
last_yields ys = drop (length ys - yield_window) ys

abbrev pub sum : List ℕ → ℕ
sum [] = 0
sum (y ∷ ys) = y + sum ys

module _ (fl : Float64) where
  pub record Config : Type 0 where
    pub coverage_target : fl.F
    pub min_yield : fl.F
    pub max_pages : ℕ

  -- a >= b of two float64s.
  abbrev pub at_least : fl.F → fl.F → Bool
  at_least a b = fl.lt b a || fl.eq a b

  unfoldable pub coverage : Crawler → fl.F
  coverage c =
      if leb c.total_assets 0
      then fl.of_nat 0
      else fl.div (fl.of_nat (length c.assets)) (fl.of_nat c.total_assets)

  unfoldable pub done : Config → Crawler → Bool
  unfolding coverage
  done cfg c =
      (ltb 0 cfg.max_pages && leb cfg.max_pages c.pages_fetched)
      || at_least (coverage c) cfg.coverage_target

  unfoldable pub slice_spent : List ℕ → ℕ → fl.F → Bool
  slice_spent recent window threshold =
      if ltb (length recent) window
      then false
      else fl.lt (fl.div (fl.of_nat (sum recent)) (fl.of_nat (length recent))) threshold

  -- `answers s start end` are the fetches of the pages from `start` to `end` of a view.
  module _ (cfg : Config) (answers : Slice → ℕ → ℕ → List Fetched) where
    -- The last page of the batch that begins with the page `start`.
    unfoldable pub batch_end : Slice → ℕ → Crawler → ℕ
    unfolding pages_to_fetch
    batch_end s start c =
        let last = start + max_concurrent_requests - 1 in
        if ltb (pages_to_fetch s c.items_per_page) last
        then pages_to_fetch s c.items_per_page
        else last

    -- A batch: the crawler, the numbers of new assets that count, and whether the view is given up.
    unfoldable pub fetch_batch : Slice → ℕ → List ℕ → Crawler → Crawler × List ℕ × Bool
    unfolding batch_end take_replies any_exhausted per_page last_yields slice_spent is_root
    fetch_batch s start recent c =
        let end = batch_end s start c in
        let fetched = answers s start end in
        let (c', added) = take_replies s fetched c in
        let recent' = last_yields (recent ++ per_page added start (end + 1 - start)) in
        let threshold = fl.mul cfg.min_yield (fl.of_nat c.items_per_page) in
        (
          (if is_root s && ltb c'.max_root_rank end then record c' { max_root_rank = end } else c'),
          recent',
          any_exhausted fetched
              || (not (is_root s || s.page_in_full) && slice_spent recent' yield_window threshold),
        )

    -- The loop over the batches, from the page `start` on.
    unfoldable pub page_through : ℕ → Slice → ℕ → List ℕ → Crawler → Crawler
    page_through zero s start recent c = c
    page_through (suc fuel) s start recent c =
        let (c', recent', given_up) = fetch_batch s start recent c in
        let rest = page_through fuel s (start + max_concurrent_requests) recent' c' in
        if ltb (pages_to_fetch s c.items_per_page) start
        then c
        else if done cfg c
        then c
        else if given_up
        then c'
        else rest

    -- A round for each page is enough, since a round takes at least one.
    unfoldable pub run_slice : Slice → Crawler → Crawler
    unfolding page_through
    run_slice s c = page_through (pages_to_fetch s c.items_per_page + 1) s 1 [] c

    unfoldable pub run : List Slice → Crawler → Crawler
    unfolding run_slice done valid label set_add
    run [] c = c
    run (s ∷ slices) c =
        let visited = run_slice s c in
        let c' =
          if valid s && not (has c.done_slices (label s))
          then record visited { done_slices = set_add (label s) visited.done_slices }
          else c in
        let rest = run slices c' in if done cfg c then c else rest

-- The page budget of the views that are not done.
unfoldable pub planned_pages : List Slice → List Text → ℕ → ℕ
unfolding valid label pages_to_fetch
planned_pages [] finished items_per_page = 0
planned_pages (s ∷ slices) finished items_per_page =
    let rest = planned_pages slices finished items_per_page in
    if valid s && not (has finished (label s)) then pages_to_fetch s items_per_page + rest else rest
