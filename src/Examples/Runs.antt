-- ===== src/Examples/Runs.antt =====
-- The theorems on the crawl at two views of a site that answers every page.
use itchgrep.Base.{
  ℕ, zero, suc, ◌+◌, ◌-◌, ◌≤◌, ◌&&◌, ◌≡◌, ◌⊎◌, refl, true, false, none, some, List, [], ◌∷◌, arith,
  length, ltb, if◌then◌else◌,
}
use itchgrep.Base.Int.{pos}
use itchgrep.Base.Text.{codes, text_eq}
use itchgrep.Base.Text.Maps.{lookup}
use itchgrep.Models.Asset.{Asset}
use itchgrep.Fetcher.Slice.{Slice, pages_to_fetch, is_root}
use itchgrep.Crawl.Collect.{
  Crawler, fresh, record_page, record_asset, collect, learn_recency, learn_tags,
}
use itchgrep.Crawl.Collect.Collected.{Collected, fresh-Collected, record_page-Collected, holds}
use itchgrep.Crawl.Collect.Sightings.{earliest, lookup-record_page}
use itchgrep.Crawl.Run.{Reply, Fetched, Config, run_slice, run, planned_pages, done, any_exhausted}
use itchgrep.Crawl.Run.Budget.{Answered, run-pages_fetched}
use itchgrep.Crawl.Run.Depth.{run_slice-deep}
use itchgrep.Crawl.Run.Books.{run-Collected}
use itchgrep.Crawl.Checkpoint.{checkpoint, resume}
use itchgrep.Crawl.Checkpoint.Resumed.{SameCrawl, resume-checkpoint}
use itchgrep.Examples.{whole_floats, asset}

abbrev pub config : Config whole_floats
config = record { coverage_target = 9; min_yield = 0; max_pages = 0 }

-- A page's assets, which carry no tags yet.
abbrev pub listing : ℕ → List Asset
listing rank =
    record (asset (codes "7") (codes "Beta") [] (codes "$4") none) { inv_popularity = pos rank }
    ∷ record (asset (codes "8") (codes "alpha") [] [] none) { inv_popularity = pos rank }
    ∷ []

-- The pages from one on, each with the same two assets.
abbrev serve : ℕ → ℕ → List Fetched
serve page zero = []
serve page (suc n) = record { page = page; reply = Reply.listed listing } ∷ serve (page + 1) n

abbrev site : Slice → ℕ → ℕ → List Fetched
site s start end = serve start (end + 1 - start)

length-serve : (page n : ℕ) → length (serve page n) ≡ n
length-serve page zero = refl
length-serve page (suc n) = omega (arith, length-serve (page + 1) n)

site-Answered : Answered site
site-Answered s start end le = length-serve start (end + 1 - start)

serve_goes_on : (page n : ℕ) → any_exhausted (serve page n) ≡ false
unfolding any_exhausted
serve_goes_on page zero = refl
serve_goes_on page (suc n) = serve_goes_on (page + 1) n

abbrev front_view : Slice
front_view = record { sort = []; filter = []; tags = []; count = 30; page_in_full = true }

abbrev tag_view : Slice
tag_view = record {
  sort = [];
  filter = [];
  tags = codes "2d" ∷ [];
  count = 5;
  page_in_full = false;
}

abbrev start_crawl : Crawler
start_crawl = fresh 3 30

run-Collected_example :
    Collected (run whole_floats config site (front_view ∷ tag_view ∷ []) start_crawl)
run-Collected_example =
    run-Collected whole_floats config site (front_view ∷ tag_view ∷ []) start_crawl
      (fresh-Collected 3 30)

lookup-record_page_example :
    lookup (codes "8") (record_page [] 2 (listing 4) start_crawl).0.recency ≡ (
      if ltb 0 2 && holds (listing 4) (codes "8")
      then earliest 2 (lookup (codes "8") start_crawl.recency)
      else lookup (codes "8") start_crawl.recency)
unfolding text_eq
lookup-record_page_example = lookup-record_page [] 2 (listing 4) (codes "8") start_crawl refl

run-pages_fetched_example :
    (run whole_floats config site (front_view ∷ tag_view ∷ []) start_crawl).pages_fetched
    ≤ start_crawl.pages_fetched
      + planned_pages
          (front_view ∷ tag_view ∷ [])
          start_crawl.done_slices
          start_crawl.items_per_page
run-pages_fetched_example =
    run-pages_fetched whole_floats config site (front_view ∷ tag_view ∷ []) start_crawl
      site-Answered

run_slice-deep_example :
    (done whole_floats config (run_slice whole_floats config site front_view start_crawl) ≡ true)
    ⊎ ((run_slice whole_floats config site front_view start_crawl).pages_fetched
        ≡ start_crawl.pages_fetched + pages_to_fetch front_view start_crawl.items_per_page)
unfolding is_root text_eq
run_slice-deep_example =
    run_slice-deep whole_floats config site front_view start_crawl site-Answered refl
      (λ from to. serve_goes_on from (to + 1 - from))

abbrev one_page : Crawler
one_page = (record_page (codes "2d" ∷ []) 2 (listing 4) start_crawl).0

resume-checkpoint_example :
    SameCrawl one_page (
      resume 24 5
        (some (checkpoint one_page))
        (fresh one_page.items_per_page one_page.total_assets))
unfolding record_page record_asset collect learn_recency learn_tags text_eq
resume-checkpoint_example =
    resume-checkpoint 24 5 one_page
      (record_page-Collected (codes "2d" ∷ []) 2 (listing 4) start_crawl (fresh-Collected 3 30))
      (tt, (tt, tt)) (omega arith)
