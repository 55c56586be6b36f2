-- ===== src/Cache/Facets.antt =====
-- The sidebar of internal/cache/search.go: minFacetCount, rankLift, tagHistogram and topTags.
pub mod Lift
pub mod Histogram
use itchgrep.Base.{
  ℕ, suc, ◌+◌, ◌-◌, ◌*◌, ◌/◌, Bool, true, false, not, ◌&&◌, ◌||◌, Option, none, some, List, [], ◌∷◌,
  map, ltb, leb, ◌==◌, take, any, if◌then◌else◌,
}
use itchgrep.Base.Sort.{sort}
use itchgrep.Base.Text.{Text, text_eq, text_lt}
use itchgrep.Base.Text.Maps.{lookup}
use itchgrep.Models.Tag.{Tag}
use itchgrep.Models.Asset.{Asset}

abbrev pub max_facet_tags : ℕ
max_facet_tags = 200

-- At 0 the source's total-1 is negative; the last test makes it 1 either way.
unfoldable pub min_facet_count : ℕ → ℕ
min_facet_count total =
    let percent = (total + 99) / 100 in
    let floor = if ltb percent 3 then 3 else percent in
    let capped = if ltb (total - 1) floor then total - 1 else floor in
    if ltb capped 1 then 1 else capped

pub record Ranked : Type 0 where
  pub tag : Tag
  pub cat : ℕ

abbrev pub count_in : List (Text × ℕ) → Text → ℕ
count_in catalog slug = elim (lookup slug catalog) [ none ↦ 0 | some n ↦ n ]

-- The catalog count, which is never below the count among the matches.
unfoldable pub ranked : List (Text × ℕ) → Tag → Ranked
ranked catalog t =
    let cat = count_in catalog t.slug in
    record { tag = t; cat = if ltb cat t.count then t.count else cat }

-- The tag narrows the result and is common enough, and is not applied already.
unfoldable pub offered : List Text → ℕ → Tag → Bool
unfolding min_facet_count
offered applied total t =
    not (leb total t.count || ltb t.count (min_facet_count total))
    && not (any (λ a. text_eq a t.slug) applied)

-- The comparison of the sort: higher lift, then higher count, then the slug.
unfoldable pub lift_less : Ranked → Ranked → Bool
lift_less a b =
    let l = a.tag.count * b.cat in
    let r = b.tag.count * a.cat in
    if not (l == r)
    then ltb r l
    else if not (a.tag.count == b.tag.count)
    then ltb b.tag.count a.tag.count
    else text_lt a.tag.slug b.tag.slug

abbrev pub lift_le : Ranked → Ranked → Bool
lift_le a b = not (lift_less b a)

abbrev candidates : List (Text × ℕ) → List Text → ℕ → List Tag → List Ranked
candidates catalog applied total [] = []
candidates catalog applied total (t ∷ ts) =
    let rest = candidates catalog applied total ts in
    if offered applied total t then ranked catalog t ∷ rest else rest

unfoldable pub rank_lift : List (Text × ℕ) → List Tag → List Text → ℕ → List Tag
unfolding offered ranked lift_less sort
rank_lift catalog terms applied total =
    map (λ r. r.tag) (take max_facet_tags (sort lift_le (candidates catalog applied total terms)))

-- counts[t]++ on a map.
unfoldable pub bump : Text → List (Text × ℕ) → List (Text × ℕ)
bump t [] = (t, 1) ∷ []
bump t ((u, n) ∷ m) = let rest = bump t m in if text_eq u t then (u, n + 1) ∷ m else (u, n) ∷ rest

unfoldable pub bump_all : List Text → List (Text × ℕ) → List (Text × ℕ)
unfolding bump
bump_all [] m = m
bump_all (t ∷ ts) m = bump_all ts (bump t m)

unfoldable pub histogram_from : List Asset → List (Text × ℕ) → List (Text × ℕ)
unfolding bump_all
histogram_from [] m = m
histogram_from (a ∷ assets) m = histogram_from assets (bump_all a.tags m)

unfoldable pub tag_histogram : List Asset → List (Text × ℕ)
unfolding histogram_from
tag_histogram assets = histogram_from assets []

unfoldable pub count_less : Tag → Tag → Bool
count_less a b = if not (a.count == b.count) then ltb b.count a.count else text_lt a.slug b.slug

unfoldable pub top_tags : List (Text × ℕ) → List Tag
unfolding count_less sort
top_tags counts =
    take max_facet_tags
      (sort (λ a b. not (count_less b a)) (map (λ (t, n). record { slug = t; count = n }) counts))
