-- ===== src/Fetcher/Slice/Pages.antt =====
-- How many pages of a view are requested: Slice.PagesToFetch.
use itchgrep.Base.{ℕ, ◌-◌, ◌*◌, ◌≤◌, ◌<◌, arith}
use itchgrep.Fetcher.Slice.{Slice, pages_to_fetch, max_pages_per_view}

-- With a positive page size, between one page and 200 pages are requested.
pub pages_to_fetch_bounds :
    (s : Slice) (items_per_page : ℕ)
    → 0 < items_per_page
    → (1 ≤ pages_to_fetch s items_per_page) × (pages_to_fetch s items_per_page ≤ max_pages_per_view)
unfolding pages_to_fetch
pages_to_fetch_bounds s k h = ground arith

-- With a positive page size, a view whose count fits into 200 pages is requested whole and with no
-- page to spare: the pages hold the count and, where more than one is requested, one fewer would
-- not.
pub pages_to_fetch_cover :
    (s : Slice) (items_per_page : ℕ)
    → 0 < items_per_page
    → s.count ≤ max_pages_per_view * items_per_page
    → (s.count ≤ pages_to_fetch s items_per_page * items_per_page)
      × (1 < pages_to_fetch s items_per_page
          → (pages_to_fetch s items_per_page - 1) * items_per_page < s.count)
unfolding pages_to_fetch
pages_to_fetch_cover s k h fits = (grind arith, λ more. grind arith)
