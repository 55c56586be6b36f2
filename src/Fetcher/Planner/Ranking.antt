-- ===== src/Fetcher/Planner/Ranking.antt =====
-- The order of the plan: the two ranking views lead, and the rest goes from large to small.
use itchgrep.Base.{
  ℕ, ◌*◌, ◌≡◌, refl, true, false, List, [], ◌∷◌, ◌++◌, map, arith, leb, All, All-append,
}
use itchgrep.Base.Text.{text_eq}
use itchgrep.Base.Sort.{sort, All-sort, IsSorted, sort-IsSorted}
use itchgrep.Models.Tag.{Tag}
use itchgrep.Fetcher.Slice.{
  Slice, sort_default, sort_newest, filter_none, is_root, is_newest_root, all_sorts, all_filters,
  max_pages_per_view,
}
use itchgrep.Fetcher.Planner.{
  plan_slices, views, big_views, pair_view, pair_views, by_count, filter_view, small_view,
  sorted_view, filtered_view, big_tags, small_tags,
}

-- The view is neither the root view nor the untagged newest view.
abbrev pub RanksNothing : Slice → Type 0
RanksNothing s = (is_root s ≡ false) × (is_newest_root s ≡ false)

filter_views-RanksNothing : (c : ℕ) → All RanksNothing (map (filter_view c) all_filters)
unfolding is_root is_newest_root text_eq
filter_views-RanksNothing c = ground arith

small_views-RanksNothing : (ts : List Tag) → All RanksNothing (map small_view ts)
unfolding is_root is_newest_root text_eq
small_views-RanksNothing [] = tt
small_views-RanksNothing (t ∷ ts) = ((refl, refl), small_views-RanksNothing ts)

sorted_views-RanksNothing : (t : Tag) → All RanksNothing (map (sorted_view t) all_sorts)
unfolding is_root is_newest_root text_eq
sorted_views-RanksNothing t = ground arith

filtered_views-RanksNothing : (t : Tag) → All RanksNothing (map (filtered_view t) all_filters)
unfolding is_root is_newest_root text_eq
filtered_views-RanksNothing t = ground arith

big_views-RanksNothing : (ts : List Tag) → All RanksNothing (big_views ts)
unfolding big_views
big_views-RanksNothing [] = tt
big_views-RanksNothing (t ∷ ts) =
    All-append RanksNothing (map (sorted_view t) all_sorts)
      (map (filtered_view t) all_filters ++ big_views ts) (sorted_views-RanksNothing t)
      (All-append RanksNothing (map (filtered_view t) all_filters) (big_views ts)
        (filtered_views-RanksNothing t) (big_views-RanksNothing ts))

pair_view-RanksNothing : (a b : Tag) → RanksNothing (pair_view a b)
unfolding pair_view is_root is_newest_root text_eq
pair_view-RanksNothing a b = ground arith

pair_row-RanksNothing : (t : Tag) (ts : List Tag) → All RanksNothing (map (pair_view t) ts)
pair_row-RanksNothing t [] = tt
pair_row-RanksNothing t (u ∷ ts) = (pair_view-RanksNothing t u, pair_row-RanksNothing t ts)

pair_views-RanksNothing : (ts : List Tag) → All RanksNothing (pair_views ts)
unfolding pair_views
pair_views-RanksNothing [] = tt
pair_views-RanksNothing (t ∷ ts) =
    All-append RanksNothing (map (pair_view t) ts) (pair_views ts) (pair_row-RanksNothing t ts)
      (pair_views-RanksNothing ts)

views-RanksNothing : (c : ℕ) (small big : List Tag) → All RanksNothing (views c small big)
unfolding views
views-RanksNothing c small big =
    All-append RanksNothing (map (filter_view c) all_filters)
      (map small_view small ++ (big_views big ++ pair_views big)) (filter_views-RanksNothing c)
      (All-append RanksNothing (map small_view small) (big_views big ++ pair_views big)
        (small_views-RanksNothing small)
        (All-append RanksNothing (big_views big) (pair_views big) (big_views-RanksNothing big)
          (pair_views-RanksNothing big)))

by_count_total : (x y : Slice) → by_count x y ≡ false → by_count y x ≡ true
unfolding by_count
by_count_total x y h = ground arith

by_count_trans : (x y z : Slice) → by_count x y ≡ true → by_count y z ≡ true → by_count x z ≡ true
unfolding by_count
by_count_trans x y z h k = ground arith

-- The plan begins with the root view, in the default ordering, and the untagged newest view, which
-- is paged in full, both with the count of a full view. No later view is either of them, and the
-- later views stand in descending order of their counts.
pub plan_slices_order :
    (tags : List Tag) (items_per_page : ℕ)
    → (rest : List Slice) × (plan_slices tags items_per_page
        ≡ (record {
          sort = sort_default;
          filter = filter_none;
          tags = [];
          count = max_pages_per_view * items_per_page;
          page_in_full = false;
        })
          ∷ (record {
            sort = sort_newest;
            filter = filter_none;
            tags = [];
            count = max_pages_per_view * items_per_page;
            page_in_full = true;
          })
          ∷ rest)
      × All RanksNothing rest
      × IsSorted (λ x y. leb y.count x.count) rest
unfolding plan_slices
plan_slices_order tags k =
    let c = max_pages_per_view * k in
    let vs = views c (small_tags tags k) (big_tags tags k) in
    (
      sort by_count vs,
      refl,
      All-sort by_count RanksNothing vs
          (views-RanksNothing c (small_tags tags k) (big_tags tags k)),
      unfold by_count in sort-IsSorted by_count by_count_total by_count_trans vs,
    )
