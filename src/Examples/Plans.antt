-- ===== src/Examples/Plans.antt =====
-- The planner's and the sidebar's theorems at a few tags.
use itchgrep.Base.{
  ℕ, ◌*◌, ◌≡◌, ◌≤◌, ◌⊎◌, refl, true, false, List, [], ◌∷◌, arith, In, All, inl, inr, leb, ◌≢◌,
}
use itchgrep.Base.Sort.{IsSorted}
use itchgrep.Base.Text.{Text, codes, text_eq, text_eq_iff}
use itchgrep.Base.Text.Split.{Avoids}
use itchgrep.Models.Tag.{Tag}
use itchgrep.Fetcher.Slice.{
  Slice, valid, label, max_pages_per_view, all_sorts, all_filters, sort_default, sort_newest,
  filter_none,
}
use itchgrep.Fetcher.Slice.Label.{label_injective}
use itchgrep.Fetcher.Planner.{plan_slices, small_view}
use itchgrep.Fetcher.Planner.Grammar.{Distinct, plan_slices-valid}
use itchgrep.Fetcher.Planner.Coverage.{small_tag_planned, big_tag_planned, big_pair_planned}
use itchgrep.Fetcher.Planner.Ranking.{RanksNothing, plan_slices_order}
use itchgrep.Cache.Facets.{tag_histogram, count_in}
use itchgrep.Cache.Facets.Histogram.{tag_histogram-carried, carried}
use itchgrep.Examples.{three_assets}

abbrev two_d : Tag
two_d = record { slug = codes "2d"; count = 9000 }

abbrev tiles : Tag
tiles = record { slug = codes "tiles"; count = 8000 }

abbrev fonts : Tag
fonts = record { slug = codes "fonts"; count = 12 }

abbrev three_tags : List Tag
three_tags = two_d ∷ tiles ∷ fonts ∷ []

abbrev newest_two_d : Slice
newest_two_d = record {
  sort = sort_newest;
  filter = filter_none;
  tags = codes "2d" ∷ [];
  count = 9000;
  page_in_full = false;
}

-- The view with the count of another day.
abbrev older_two_d : Slice
older_two_d = record newest_two_d { count = 8500 }

pub apart : (s t : Text) → text_eq s t ≡ false → s ≢ t
apart s t h e = cc ((text_eq_iff s t).1 e)

two_d-Avoids : Avoids b'/' (codes "2d")
two_d-Avoids = (λ e. omega (arith, e), (λ e. omega (arith, e), tt))

three_tags-Distinct : Distinct three_tags
unfolding text_eq
three_tags-Distinct = (
  (apart two_d.slug tiles.slug refl, (apart two_d.slug fonts.slug refl, tt)),
  ((apart tiles.slug fonts.slug refl, tt), (tt, tt)),
)

plan_slices-valid_example : All (λ s. valid s ≡ true) (plan_slices three_tags 36)
plan_slices-valid_example = plan_slices-valid three_tags 36 three_tags-Distinct

small_tag_planned_example :
    In
      (record {
        sort = sort_default;
        filter = filter_none;
        tags = fonts.slug ∷ [];
        count = fonts.count;
        page_in_full = true;
      })
      (plan_slices three_tags 36)
small_tag_planned_example =
    small_tag_planned fonts three_tags 36 (inr (inr (inl refl))) (λ e. cc) (omega arith)

big_tag_planned_example :
    ((srt : Text)
      → In srt all_sorts
      → In
          (record {
            sort = srt;
            filter = filter_none;
            tags = two_d.slug ∷ [];
            count = two_d.count;
            page_in_full = false;
          })
          (plan_slices three_tags 36))
    × ((f : Text)
        → In f all_filters
        → In
            (record {
              sort = sort_default;
              filter = f;
              tags = two_d.slug ∷ [];
              count = two_d.count;
              page_in_full = true;
            })
            (plan_slices three_tags 36))
big_tag_planned_example = big_tag_planned two_d three_tags 36 (inl refl) (λ e. cc) (omega arith)

big_pair_planned_example :
    (s : Slice) × In s (plan_slices three_tags 36)
    × ((s.tags ≡ tiles.slug ∷ two_d.slug ∷ []) ⊎ (s.tags ≡ two_d.slug ∷ tiles.slug ∷ []))
    × (valid s ≡ true)
    × (s.sort ≡ sort_default)
    × (s.filter ≡ filter_none)
    × (s.count ≤ tiles.count)
    × (s.count ≤ two_d.count)
    × ((s.count ≡ tiles.count) ⊎ (s.count ≡ two_d.count))
big_pair_planned_example =
    big_pair_planned tiles two_d three_tags 36 (inr (inl refl)) (inl refl) (λ e. cc) (λ e. cc)
      (λ e. cc) (omega arith) (omega arith)

plan_slices_order_example :
    (rest : List Slice) × (plan_slices three_tags 36
      ≡ (record {
        sort = sort_default;
        filter = filter_none;
        tags = [];
        count = max_pages_per_view * 36;
        page_in_full = false;
      })
        ∷ (record {
          sort = sort_newest;
          filter = filter_none;
          tags = [];
          count = max_pages_per_view * 36;
          page_in_full = true;
        })
        ∷ rest)
    × All RanksNothing rest
    × IsSorted (λ x y. leb y.count x.count) rest
plan_slices_order_example = plan_slices_order three_tags 36

abbrev fonts_view : Slice
fonts_view = small_view fonts

label_injective_example :
    (newest_two_d.sort ≡ older_two_d.sort)
    × (newest_two_d.filter ≡ older_two_d.filter)
    × (newest_two_d.tags ≡ older_two_d.tags)
unfolding valid text_eq label
label_injective_example =
    label_injective newest_two_d older_two_d refl refl (two_d-Avoids, tt) (two_d-Avoids, tt) refl

abbrev terms : List Tag
terms = record { slug = codes "fonts"; count = 3 } ∷ record { slug = codes "2d"; count = 8 } ∷ []

abbrev catalog : List (Text × ℕ)
catalog = (codes "2d", 9000) ∷ (codes "fonts", 12) ∷ []

tag_histogram-carried_example :
    count_in (tag_histogram three_assets) (codes "2d") ≡ carried (codes "2d") three_assets
tag_histogram-carried_example = tag_histogram-carried (codes "2d") three_assets
