-- ===== src/Fetcher/Planner/Coverage.antt =====
-- Which views the plan holds: all that the tags call for.
use itchgrep.Base.{
  ℕ, ◌*◌, ◌≤◌, ◌<◌, ◌≡◌, ap, ◌≢◌, ◌⊎◌, refl, true, false, Bool-cases, ltb, List, [], ◌∷◌, ◌++◌, map,
  arith, inl, inr, In, In-append_left, In-append_right, In-select, In-map, select,
}
use itchgrep.Base.Text.{Text, text_lt, text_lt_total, text_lt_asymm, text_eq_iff}
use itchgrep.Base.Sort.{In-sort}
use itchgrep.Models.Tag.{Tag}
use itchgrep.Fetcher.Slice.{
  Slice, valid, sort_default, filter_none, all_sorts, all_filters, max_pages_per_view,
}
use itchgrep.Fetcher.Planner.Grammar.{pair_view-IsValid}
use itchgrep.Fetcher.Planner.{
  plan_slices, views, big_views, pair_view, pair_views, by_count, by_slug, filter_view, small_view,
  sorted_view, filtered_view, big_tags, small_tags, is_big, is_small,
}

In-big_tags :
    (t : Tag) (tags : List Tag) (k : ℕ)
    → In t tags
    → t.slug ≢ []
    → max_pages_per_view * k < t.count
    → In t (big_tags tags k)
unfolding big_tags
In-big_tags t tags k m named large =
    In-sort by_slug t (select (is_big (max_pages_per_view * k)) tags) (
      In-select (is_big (max_pages_per_view * k)) t tags m
        (unfold is_big in ground (arith, text_eq_iff t.slug [])))

In-small_tags :
    (t : Tag) (tags : List Tag) (k : ℕ)
    → In t tags
    → t.slug ≢ []
    → t.count ≤ max_pages_per_view * k
    → In t (small_tags tags k)
unfolding small_tags
In-small_tags t tags k m named little =
    In-sort by_slug t (select (is_small (max_pages_per_view * k)) tags) (
      In-select (is_small (max_pages_per_view * k)) t tags m
        (unfold is_small in ground (arith, text_eq_iff t.slug [])))

In-plan :
    (s : Slice) (tags : List Tag) (k : ℕ)
    → In s (views (max_pages_per_view * k) (small_tags tags k) (big_tags tags k))
    → In s (plan_slices tags k)
unfolding plan_slices
In-plan s tags k m = inr (
    inr
      (In-sort by_count s (views (max_pages_per_view * k) (small_tags tags k) (big_tags tags k)) m))

In-views_small :
    (t : Tag) (c : ℕ) (small big : List Tag) → In t small → In (small_view t) (views c small big)
unfolding views
In-views_small t c small big m =
    In-append_right (small_view t) (map (filter_view c) all_filters)
      (map small_view small ++ (big_views big ++ pair_views big))
      (In-append_left (small_view t) (map small_view small) (big_views big ++ pair_views big)
        (In-map small_view t small m))

In-views_big :
    (s : Slice) (c : ℕ) (small big : List Tag)
    → In s (big_views big ++ pair_views big)
    → In s (views c small big)
unfolding views
In-views_big s c small big m =
    In-append_right s (map (filter_view c) all_filters)
      (map small_view small ++ (big_views big ++ pair_views big))
      (In-append_right s (map small_view small) (big_views big ++ pair_views big) m)

In-big_views_sorted :
    (t : Tag) (srt : Text) (ts : List Tag)
    → In t ts
    → In srt all_sorts
    → In (sorted_view t srt) (big_views ts)
unfolding big_views
In-big_views_sorted t srt [] m ms = elim m [ ]
In-big_views_sorted t srt (u ∷ ts) m ms = elim m [
  | inl e ↦ rw e (
      In-append_left (sorted_view t srt) (map (sorted_view t) all_sorts)
        (map (filtered_view t) all_filters ++ big_views ts)
        (In-map (sorted_view t) srt all_sorts ms))
  | inr m ↦
      In-append_right (sorted_view t srt) (map (sorted_view u) all_sorts)
        (map (filtered_view u) all_filters ++ big_views ts)
        (In-append_right (sorted_view t srt) (map (filtered_view u) all_filters) (big_views ts)
          (In-big_views_sorted t srt ts m ms))
]

In-big_views_filtered :
    (t : Tag) (f : Text) (ts : List Tag)
    → In t ts
    → In f all_filters
    → In (filtered_view t f) (big_views ts)
unfolding big_views
In-big_views_filtered t f [] m mf = elim m [ ]
In-big_views_filtered t f (u ∷ ts) m mf = elim m [
  | inl e ↦ rw e (
      In-append_right (filtered_view t f) (map (sorted_view t) all_sorts)
        (map (filtered_view t) all_filters ++ big_views ts)
        (In-append_left (filtered_view t f) (map (filtered_view t) all_filters) (big_views ts)
          (In-map (filtered_view t) f all_filters mf)))
  | inr m ↦
      In-append_right (filtered_view t f) (map (sorted_view u) all_sorts)
        (map (filtered_view u) all_filters ++ big_views ts)
        (In-append_right (filtered_view t f) (map (filtered_view u) all_filters) (big_views ts)
          (In-big_views_filtered t f ts m mf))
]

-- A pair's view does not depend on which of its two tags comes first.
pub pair_view_comm : (a b : Tag) → a.slug ≢ b.slug → pair_view a b ≡ pair_view b a
unfolding pair_view
pair_view_comm a b ne =
    ground
      (arith, text_lt_asymm a.slug b.slug, text_lt_asymm b.slug a.slug, text_lt_total a.slug b.slug)

In-pair_views :
    (a b : Tag) (ts : List Tag)
    → In a ts
    → In b ts
    → a.slug ≢ b.slug
    → In (pair_view a b) (pair_views ts)
unfolding pair_views
In-pair_views a b [] ma mb ne = elim ma [ ]
In-pair_views a b (t ∷ ts) ma mb ne = elim ma [
  | inl ea ↦ elim mb [
    | inl eb ↦ absurd (ne (ap (λ (u : Tag). u.slug) (rw ea at eb)))
    | inr mb ↦ rw ea (
        In-append_left (pair_view a b) (map (pair_view a) ts) (pair_views ts)
          (In-map (pair_view a) b ts mb))
  ]
  | inr ma' ↦ elim mb [
    | inl eb ↦
        rw (eb, pair_view_comm a b ne)
          (In-append_left (pair_view b a) (map (pair_view b) ts) (pair_views ts)
            (In-map (pair_view b) a ts ma'))
    | inr mb' ↦
        In-append_right (pair_view a b) (map (pair_view t) ts) (pair_views ts)
          (In-pair_views a b ts ma' mb' ne)
  ]
]

-- A discovered tag that has a slug and fits into one view has a view of its own in the plan: of
-- that tag alone, in the default ordering, with no filter, with the tag's count, and paged in
-- full.
pub small_tag_planned :
    (t : Tag) (tags : List Tag) (items_per_page : ℕ)
    → In t tags
    → t.slug ≢ []
    → t.count ≤ max_pages_per_view * items_per_page
    → In
        (record {
          sort = sort_default;
          filter = filter_none;
          tags = t.slug ∷ [];
          count = t.count;
          page_in_full = true;
        })
        (plan_slices tags items_per_page)
small_tag_planned t tags k m named fits = In-plan (small_view t) tags k (
    In-views_small t (max_pages_per_view * k) (small_tags tags k) (big_tags tags k)
      (In-small_tags t tags k m named fits))

-- A discovered tag that has a slug and does not fit into one view is planned alone under every
-- ordering, with no filter, and alone under every filter, in the default ordering and paged in
-- full.
pub big_tag_planned :
    (t : Tag) (tags : List Tag) (items_per_page : ℕ)
    → In t tags
    → t.slug ≢ []
    → max_pages_per_view * items_per_page < t.count
    → ((srt : Text)
        → In srt all_sorts
        → In
            (record {
              sort = srt;
              filter = filter_none;
              tags = t.slug ∷ [];
              count = t.count;
              page_in_full = false;
            })
            (plan_slices tags items_per_page))
      × ((f : Text)
          → In f all_filters
          → In
              (record {
                sort = sort_default;
                filter = f;
                tags = t.slug ∷ [];
                count = t.count;
                page_in_full = true;
              })
              (plan_slices tags items_per_page))
big_tag_planned t tags k m named large =
    let c = max_pages_per_view * k in
    let small = small_tags tags k in
    let big = big_tags tags k in
    let found = In-big_tags t tags k m named large in
    (
      λ srt ms. In-plan (sorted_view t srt) tags k (
          In-views_big (sorted_view t srt) c small big (
            In-append_left (sorted_view t srt) (big_views big) (pair_views big)
              (In-big_views_sorted t srt big found ms))),
      λ f mf. In-plan (filtered_view t f) tags k (
          In-views_big (filtered_view t f) c small big (
            In-append_left (filtered_view t f) (big_views big) (pair_views big)
              (In-big_views_filtered t f big found mf))),
    )

pair_view_tags :
    (a b : Tag)
    → ((pair_view a b).tags ≡ a.slug ∷ b.slug ∷ []) ⊎ ((pair_view a b).tags ≡ b.slug ∷ a.slug ∷ [])
unfolding pair_view
pair_view_tags a b = elim (Bool-cases (text_lt b.slug a.slug)) [
  | inl e ↦ rw e (inr refl)
  | inr e ↦ rw e (inl refl)
]

pair_view_lem :
    (a b : Tag)
    → ((pair_view a b).sort ≡ sort_default)
      × ((pair_view a b).filter ≡ filter_none)
      × ((pair_view a b).count ≤ a.count)
      × ((pair_view a b).count ≤ b.count)
      × (((pair_view a b).count ≡ a.count) ⊎ ((pair_view a b).count ≡ b.count))
unfolding pair_view
pair_view_lem a b = elim (Bool-cases (ltb b.count a.count)) [
  | inl e ↦ rw e (refl, refl, ground arith, omega arith, inr refl)
  | inr e ↦ rw e (refl, refl, omega arith, ground arith, inl refl)
]

-- Any two discovered tags with different slugs that are not empty, both too large for one view,
-- are planned as a pair: a valid view of just these two, in the default ordering, with no filter
-- and with the smaller of the two counts.
pub big_pair_planned :
    (a b : Tag) (tags : List Tag) (items_per_page : ℕ)
    → In a tags
    → In b tags
    → a.slug ≢ []
    → b.slug ≢ []
    → a.slug ≢ b.slug
    → max_pages_per_view * items_per_page < a.count
    → max_pages_per_view * items_per_page < b.count
    → (s : Slice) × In s (plan_slices tags items_per_page)
      × ((s.tags ≡ a.slug ∷ b.slug ∷ []) ⊎ (s.tags ≡ b.slug ∷ a.slug ∷ []))
      × (valid s ≡ true)
      × (s.sort ≡ sort_default)
      × (s.filter ≡ filter_none)
      × (s.count ≤ a.count)
      × (s.count ≤ b.count)
      × ((s.count ≡ a.count) ⊎ (s.count ≡ b.count))
big_pair_planned a b tags k ma mb na nb ne la lb =
    let big = big_tags tags k in
    let (s, f, c, c', e) = pair_view_lem a b in
    (
      pair_view a b,
      In-plan (pair_view a b) tags k (
          In-views_big (pair_view a b) (max_pages_per_view * k) (small_tags tags k) big (
            In-append_right (pair_view a b) (big_views big) (pair_views big) (
              In-pair_views a b big (In-big_tags a tags k ma na la) (In-big_tags b tags k mb nb lb)
                ne))),
      pair_view_tags a b,
      pair_view-IsValid a b ne,
      s,
      f,
      c,
      c',
      e,
    )
