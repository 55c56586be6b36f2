-- ===== src/Fetcher/Planner.antt =====
-- PlanSlices of internal/fetcher/planner.go: the list of views that a crawl visits.
pub mod Grammar
pub mod Coverage
pub mod Ranking
use itchgrep.Base.{
  ℕ, ◌*◌, Bool, true, false, not, ◌&&◌, List, [], ◌∷◌, ◌++◌, map, ltb, leb, select, if◌then◌else◌,
}
use itchgrep.Base.Text.{Text, text_eq, text_lt}
use itchgrep.Base.Sort.{sort}
use itchgrep.Models.Tag.{Tag}
use itchgrep.Fetcher.Slice.{
  Slice, max_pages_per_view, sort_default, sort_newest, filter_none, all_sorts, all_filters,
}

-- The partition of the tags; a tag with no slug is in neither part.
unfoldable pub is_big : ℕ → Tag → Bool
is_big ceiling t = not (text_eq t.slug []) && ltb ceiling t.count

unfoldable pub is_small : ℕ → Tag → Bool
is_small ceiling t = not (text_eq t.slug []) && not (ltb ceiling t.count)

unfoldable pub by_slug : Tag → Tag → Bool
by_slug a b = not (text_lt b.slug a.slug)

abbrev pub filter_view : ℕ → Text → Slice
filter_view ceiling f = record {
  sort = sort_default;
  filter = f;
  tags = [];
  count = ceiling;
  page_in_full = false;
}

abbrev pub small_view : Tag → Slice
small_view t = record {
  sort = sort_default;
  filter = filter_none;
  tags = t.slug ∷ [];
  count = t.count;
  page_in_full = true;
}

abbrev pub sorted_view : Tag → Text → Slice
sorted_view t srt = record {
  sort = srt;
  filter = filter_none;
  tags = t.slug ∷ [];
  count = t.count;
  page_in_full = false;
}

abbrev pub filtered_view : Tag → Text → Slice
filtered_view t f = record {
  sort = sort_default;
  filter = f;
  tags = t.slug ∷ [];
  count = t.count;
  page_in_full = true;
}

-- The loop over the big tags: every ordering, then every filter.
unfoldable pub big_views : List Tag → List Slice
big_views [] = []
big_views (t ∷ ts) =
    map (sorted_view t) all_sorts ++ (map (filtered_view t) all_filters ++ big_views ts)

unfoldable pub pair_view : Tag → Tag → Slice
pair_view a b = record {
  sort = sort_default;
  filter = filter_none;
  tags = if text_lt b.slug a.slug then b.slug ∷ a.slug ∷ [] else a.slug ∷ b.slug ∷ [];
  count = if ltb b.count a.count then b.count else a.count;
  page_in_full = false;
}

-- The double loop over i < j.
unfoldable pub pair_views : List Tag → List Slice
unfolding pair_view
pair_views [] = []
pair_views (t ∷ ts) = map (pair_view t) ts ++ pair_views ts

-- The views before the final ordering, from the two sorted parts.
unfoldable pub views : ℕ → List Tag → List Tag → List Slice
unfolding big_views pair_views
views ceiling small big =
    map (filter_view ceiling) all_filters
    ++ (map small_view small ++ (big_views big ++ pair_views big))

unfoldable pub by_count : Slice → Slice → Bool
by_count x y = leb y.count x.count

abbrev pub root_view : ℕ → Slice
root_view ceiling = record {
  sort = sort_default;
  filter = filter_none;
  tags = [];
  count = ceiling;
  page_in_full = false;
}

abbrev pub newest_view : ℕ → Slice
newest_view ceiling = record {
  sort = sort_newest;
  filter = filter_none;
  tags = [];
  count = ceiling;
  page_in_full = true;
}

unfoldable pub big_tags : List Tag → ℕ → List Tag
unfolding sort is_big by_slug
big_tags tags items_per_page =
    sort by_slug (select (is_big (max_pages_per_view * items_per_page)) tags)

unfoldable pub small_tags : List Tag → ℕ → List Tag
unfolding sort is_small by_slug
small_tags tags items_per_page =
    sort by_slug (select (is_small (max_pages_per_view * items_per_page)) tags)

unfoldable pub plan_slices : List Tag → ℕ → List Slice
unfolding big_tags small_tags views by_count
plan_slices tags items_per_page =
    let ceiling = max_pages_per_view * items_per_page in
    root_view ceiling
    ∷ newest_view ceiling
    ∷ sort by_count (views ceiling (small_tags tags items_per_page) (big_tags tags items_per_page))
