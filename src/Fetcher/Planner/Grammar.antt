-- ===== src/Fetcher/Planner/Grammar.antt =====
-- Every planned view obeys the site's URL grammar.
use itchgrep.Base.{
  ℕ, ◌*◌, ◌≡◌, refl, sym, ◌≢◌, Bool, true, List, [], ◌∷◌, ◌++◌, map, All, All-append, All-map,
  All-select, All-weaken, Bool-cases, inl, inr, select,
}
use itchgrep.Base.Text.{text_eq, text_lt, text_lt_total}
use itchgrep.Base.Sort.{sort, All-sort, insert, All-insert}
use itchgrep.Models.Tag.{Tag}
use itchgrep.Fetcher.Slice.{Slice, valid, all_sorts, all_filters, max_pages_per_view}
use itchgrep.Fetcher.Planner.{
  plan_slices, views, big_views, pair_view, pair_views, by_count, by_slug, filter_view, small_view,
  sorted_view, filtered_view, root_view, newest_view, big_tags, small_tags, is_big,
}

abbrev pub IsValid : Slice → Type 0
IsValid s = valid s ≡ true

-- No two tags of the list share a slug.
abbrev pub Distinct : List Tag → Type 0
Distinct [] = Unit
Distinct (t ∷ ts) = All (λ u. t.slug ≢ u.slug) ts × Distinct ts

filter_views-IsValid : (ceiling : ℕ) → All IsValid (map (filter_view ceiling) all_filters)
unfolding valid text_eq
filter_views-IsValid ceiling =
    (refl, (refl, (refl, (refl, (refl, (refl, (refl, (refl, (refl, tt)))))))))

small_views-IsValid : (ts : List Tag) → All IsValid (map small_view ts)
unfolding valid text_eq
small_views-IsValid [] = tt
small_views-IsValid (t ∷ ts) = (refl, small_views-IsValid ts)

sorted_views-IsValid : (t : Tag) → All IsValid (map (sorted_view t) all_sorts)
unfolding valid text_eq
sorted_views-IsValid t = (refl, (refl, (refl, (refl, tt))))

filtered_views-IsValid : (t : Tag) → All IsValid (map (filtered_view t) all_filters)
unfolding valid text_eq
filtered_views-IsValid t =
    (refl, (refl, (refl, (refl, (refl, (refl, (refl, (refl, (refl, tt)))))))))

big_views-IsValid : (ts : List Tag) → All IsValid (big_views ts)
unfolding big_views
big_views-IsValid [] = tt
big_views-IsValid (t ∷ ts) =
    All-append IsValid (map (sorted_view t) all_sorts)
      (map (filtered_view t) all_filters ++ big_views ts) (sorted_views-IsValid t)
      (All-append IsValid (map (filtered_view t) all_filters) (big_views ts)
        (filtered_views-IsValid t) (big_views-IsValid ts))

pub pair_view-IsValid : (a b : Tag) → a.slug ≢ b.slug → IsValid (pair_view a b)
unfolding valid text_eq pair_view
pair_view-IsValid a b ne = elim (Bool-cases (text_lt b.slug a.slug)) [
  | inl lt ↦ rw (lt, lt)
  | inr ge ↦ elim (Bool-cases (text_lt a.slug b.slug)) [
    | inl lt ↦ rw (ge, lt)
    | inr ge' ↦ absurd (ne (text_lt_total a.slug b.slug ge' ge))
  ]
]

pair_views-IsValid : (ts : List Tag) → Distinct ts → All IsValid (pair_views ts)
unfolding pair_views
pair_views-IsValid [] d = tt
pair_views-IsValid (t ∷ ts) d =
    All-append IsValid (map (pair_view t) ts) (pair_views ts)
      (All-map IsValid (pair_view t) ts (
        All-weaken (λ u. t.slug ≢ u.slug) (λ u. IsValid (pair_view t u)) (pair_view-IsValid t) ts
          d.0))
      (pair_views-IsValid ts d.1)

pub Distinct-select : (p : Tag → Bool) (ts : List Tag) → Distinct ts → Distinct (select p ts)
Distinct-select p [] d = tt
Distinct-select p (t ∷ ts) d = elim (Bool-cases (p t)) [
  | inl e ↦ rw e (All-select (λ u. t.slug ≢ u.slug) p ts d.0, Distinct-select p ts d.1)
  | inr e ↦ rw e (Distinct-select p ts d.1)
]

module _ (le : Tag → Tag → Bool) where
  Distinct-insert :
      (t : Tag) (ts : List Tag)
      → All (λ u. t.slug ≢ u.slug) ts
      → Distinct ts
      → Distinct (insert le t ts)
  unfolding insert
  Distinct-insert t [] h d = (tt, tt)
  Distinct-insert t (u ∷ ts) h d = elim (Bool-cases (le t u)) [
    | inl e ↦ rw e (h, d)
    | inr e ↦ rw e (
      All-insert le (λ w. u.slug ≢ w.slug) t ts (λ q. h.0 (sym q)) d.0,
      Distinct-insert t ts h.1 d.1,
    )
  ]

  pub Distinct-sort : (ts : List Tag) → Distinct ts → Distinct (sort le ts)
  unfolding sort
  Distinct-sort [] d = tt
  Distinct-sort (t ∷ ts) d =
      Distinct-insert t (sort le ts) (All-sort le (λ u. t.slug ≢ u.slug) ts d.0)
        (Distinct-sort ts d.1)

views-IsValid :
    (ceiling : ℕ) (small big : List Tag) → Distinct big → All IsValid (views ceiling small big)
unfolding views
views-IsValid c small big d =
    All-append IsValid (map (filter_view c) all_filters)
      (map small_view small ++ (big_views big ++ pair_views big)) (filter_views-IsValid c)
      (All-append IsValid (map small_view small) (big_views big ++ pair_views big)
        (small_views-IsValid small)
        (All-append IsValid (big_views big) (pair_views big) (big_views-IsValid big)
          (pair_views-IsValid big d)))

big_tags-Distinct : (tags : List Tag) (k : ℕ) → Distinct tags → Distinct (big_tags tags k)
unfolding big_tags
big_tags-Distinct tags k d =
    Distinct-sort by_slug (select (is_big (max_pages_per_view * k)) tags)
      (Distinct-select (is_big (max_pages_per_view * k)) tags d)

ranking_views-IsValid : (c : ℕ) → IsValid (root_view c) × IsValid (newest_view c)
unfolding valid text_eq
ranking_views-IsValid c = (refl, refl)

-- Of tags with different slugs, every planned view is valid by the grammar of the site.
pub plan_slices-valid :
    (tags : List Tag) (items_per_page : ℕ)
    → Distinct tags
    → All (λ s. valid s ≡ true) (plan_slices tags items_per_page)
unfolding plan_slices
plan_slices-valid tags k d =
    let c = max_pages_per_view * k in
    let small = small_tags tags k in
    let big = big_tags tags k in
    let (root, newest) = ranking_views-IsValid c in
    (
      root,
      (
        newest,
        All-sort by_count IsValid (views c small big)
            (views-IsValid c small big (big_tags-Distinct tags k d)),
      ),
    )
