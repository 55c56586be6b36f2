-- ===== src/Cache/Facets/Histogram.antt =====
-- The histogram of tags over the whole dataset: tagHistogram.
use itchgrep.Base.{ℕ, suc, ◌+◌, ◌≡◌, refl, List, [], ◌∷◌, arith, length, select, if◌then◌else◌}
use itchgrep.Base.Text.{Text, text_eq, text_eq_iff}
use itchgrep.Base.Text.Maps.{lookup}
use itchgrep.Models.Asset.{Asset}
use itchgrep.Cache.Facets.{count_in, bump, bump_all, histogram_from, tag_histogram}

-- How often the tag stands on the list, and on the assets together.
abbrev pub occurrences : Text → List Text → ℕ
occurrences t tags = length (select (λ u. text_eq u t) tags)

abbrev pub carried : Text → List Asset → ℕ
carried t [] = 0
carried t (a ∷ assets) = occurrences t a.tags + carried t assets

count_in-bump :
    (t u : Text) (m : List (Text × ℕ))
    → count_in (bump u m) t ≡ (if text_eq u t then suc (count_in m t) else count_in m t)
unfolding bump lookup
count_in-bump t u [] = ground arith
count_in-bump t u ((k, n) ∷ m) =
    ground (arith, text_eq_iff u t, text_eq_iff k u, text_eq_iff k t, count_in-bump t u m)

count_in-bump_all :
    (t : Text) (tags : List Text) (m : List (Text × ℕ))
    → count_in (bump_all tags m) t ≡ occurrences t tags + count_in m t
unfolding bump_all
count_in-bump_all t [] m = omega arith
count_in-bump_all t (u ∷ tags) m =
    ground (arith, count_in-bump_all t tags (bump u m), count_in-bump t u m)

count_in-histogram_from :
    (t : Text) (assets : List Asset) (m : List (Text × ℕ))
    → count_in (histogram_from assets m) t ≡ carried t assets + count_in m t
unfolding histogram_from
count_in-histogram_from t [] m = omega arith
count_in-histogram_from t (a ∷ assets) m =
    omega
      (arith, count_in-histogram_from t assets (bump_all a.tags m), count_in-bump_all t a.tags m)

-- The histogram gives each tag the number of times that the assets carry it, and 0 to a tag that
-- none carries.
pub tag_histogram-carried :
    (t : Text) (assets : List Asset) → count_in (tag_histogram assets) t ≡ carried t assets
unfolding tag_histogram
tag_histogram-carried t assets = omega (arith, count_in-histogram_from t assets [], nothing)
  where
    nothing : count_in [] t ≡ 0
    nothing = unfold lookup in refl
