-- ===== src/Examples/Caches.antt =====
-- The theorems on the hit cache, the tally and the filter links at small data.
use itchgrep.Base.{
  ◌≢◌, ◌≤◌, ℕ, zero, suc, ◌/◌, ◌%◌, ◌≡◌, refl, true, false, some, List, [], ◌∷◌, arith, ◌==◌,
  if◌then◌else◌,
}
use itchgrep.Base.Text.{Text, codes, text_eq, text_lt}
use itchgrep.Base.Text.Maps.{lookup}
use itchgrep.Cache.Hits.{Hits, no_hits, begin, finish, reset, Move, Moves}
use itchgrep.Base.Text.Maps.{without}
use itchgrep.Cache.Hits.Sound.{Sound, Moves-Sound}
use itchgrep.Cache.Hits.Current.{Run, cached_current}
use itchgrep.Metrics.{
  snapshot, DayBucket, empty_bucket, Tally, bump_day, bumped, days_kept, seconds_per_day,
}
use itchgrep.Base.Int.{pos}
use itchgrep.Base.Text.Split.{Avoids}
use itchgrep.Cache.Options.{SearchOptions, resolved_sort}
use itchgrep.Cache.Hits.Key.{hit_key, join_sorted}
use itchgrep.Cache.Hits.Key.Apart.{NoNul, hit_key_injective}
use itchgrep.Metrics.Ring.{searches_on, bump_day-searches_on}
use itchgrep.Metrics.Breakdown.{snapshot-breakdown, Request, breakdown, record_all}
use itchgrep.Web.Filters.{Filters, contains, values}
use itchgrep.Web.Filters.Keeps.{IsFilters, Control, visit, visit-IsFilters}
use itchgrep.Web.Filters.Routes.{values_same_tags}

-- An entry is the generation that it was computed in.
abbrev FromGen : ℕ → Text → ℕ → Type 0
FromGen g k e = g ≡ e

abbrev flying : Hits ℕ
flying = record { gen = 0; items = []; flights = (codes "cat", 0) ∷ [] }

abbrev one_hit : Hits ℕ
one_hit = finish 2 (codes "cat") 0 (some 0) flying

filled : Moves 2 FromGen no_hits one_hit
unfolding begin lookup text_eq
filled = Moves.step no_hits flying one_hit (Move.start (codes "cat") no_hits flying refl) (
    Moves.step flying one_hit one_hit (Move.fill (codes "cat") 0 0 flying refl refl)
      (Moves.stay one_hit))

Moves-Sound_example : Sound 2 FromGen one_hit
Moves-Sound_example = Moves-Sound 2 FromGen one_hit filled

-- A fill begins, the dataset is refreshed, the fill ends too late for it, and another one in time.
abbrev refreshed : Hits ℕ
refreshed = record { gen = 1; items = []; flights = (codes "cat", 0) ∷ [] }

abbrev late : Hits ℕ
late = finish 2 (codes "cat") 0 (some 0) refreshed

abbrev flying_again : Hits ℕ
flying_again = record { gen = 1; items = []; flights = (codes "cat", 1) ∷ [] }

abbrev two_fills : Hits ℕ
two_fills = finish 2 (codes "cat") 1 (some 1) flying_again

ran : Run 2 FromGen 1 two_fills []
unfolding begin lookup text_eq finish without reset
ran =
    Run.fill (codes "cat") 1 1 1
      (Run.start (codes "cat") flying_again
        (Run.fill (codes "cat") 0 0 0 (Run.refresh (Run.start (codes "cat") flying Run.empty refl))
          refl refl refl)
        refl)
      refl refl refl

cached_current_example : FromGen 1 (codes "cat") 1
unfolding begin lookup text_eq finish without
cached_current_example =
    cached_current 2 FromGen 1 (codes "cat") 1 two_fills two_fills [] ran (omega arith) refl

abbrev empty_days : ℕ → List DayBucket
empty_days zero = []
empty_days (suc n) = empty_bucket ∷ empty_days n

bump_day-searches_on_example : searches_on (bump_day 90000 (empty_days 90)) 1 ≡ (
    if 1 == 90000 / seconds_per_day
    then bumped (searches_on (empty_days 90) 1)
    else if 1 % days_kept == 90000 / seconds_per_day % days_kept
    then 0
    else searches_on (empty_days 90) 1)
bump_day-searches_on_example = bump_day-searches_on 90000 1 (empty_days 90) refl

abbrev no_requests : Tally
no_requests = record {
  total = 0;
  index = 0;
  results = 0;
  about = 0;
  stats = 0;
  static = 0;
  new = 0;
  feed = 0;
  tag = 0;
  saved = 0;
  other = 0;
  searches = 0;
  days = empty_days 90;
}

abbrev two_requests : List Request
two_requests =
    record { pattern = codes "/tag/{slug}"; search = true; status = 200; now = 90000 }
    ∷ record { pattern = codes "/robots.txt"; search = false; status = 200; now = 90001 }
    ∷ []

abbrev pixel_cats : Filters
pixel_cats = record {
  query = codes "cat";
  tags = codes "2d" ∷ codes "pixel" ∷ [];
  not_tags = codes "ai" ∷ [];
  author = [];
  price = [];
  sort = [];
  like = [];
  currency = [];
  all_tags = false;
}

pixel_cats-IsFilters : IsFilters pixel_cats
unfolding text_lt contains text_eq
pixel_cats-IsFilters = record {
  sorted = ((refl, tt), (tt, tt));
  not_sorted = (tt, tt);
  apart = (refl, (refl, tt));
  few = omega arith;
  not_few = omega arith;
}

abbrev fonts_then_ai : List Control
fonts_then_ai = Control.require (codes "fonts") ∷ Control.require (codes "ai") ∷ []

abbrev ai_then_fonts : List Control
ai_then_fonts = Control.require (codes "ai") ∷ Control.toggle (codes "fonts") ∷ []

visit-IsFilters_example : IsFilters (visit pixel_cats fonts_then_ai)
visit-IsFilters_example = visit-IsFilters pixel_cats fonts_then_ai pixel_cats-IsFilters

values_same_tags_example :
    values (visit pixel_cats fonts_then_ai) ≡ values (visit pixel_cats ai_then_fonts)
unfolding visit contains text_eq text_lt
values_same_tags_example =
    values_same_tags pixel_cats pixel_cats fonts_then_ai ai_then_fonts pixel_cats-IsFilters
      pixel_cats-IsFilters (λ t. refl) (λ t. refl) refl refl refl refl refl refl

snapshot-breakdown_example :
    breakdown (snapshot no_requests (record_all two_requests no_requests))
    ≡ (snapshot no_requests (record_all two_requests no_requests)).total
snapshot-breakdown_example = snapshot-breakdown no_requests no_requests two_requests refl refl

abbrev cats : List Text → SearchOptions
cats tags = record {
  query = codes "cat";
  tags = tags;
  exclude_tags = [];
  author = [];
  price = [];
  sort = [];
  page = pos 1;
  min_first_seen = pos 0;
  limit = pos 0;
  like = [];
  no_facets = false;
}

abbrev sorted_cats : SearchOptions
sorted_cats = cats (codes "2d" ∷ codes "ui" ∷ [])

abbrev unsorted_cats : SearchOptions
unsorted_cats = record (cats (codes "ui" ∷ codes "2d" ∷ [])) { page = pos 2 }

no_nul : (b : ℕ) → 1 ≤ b → b ≢ 0
no_nul b h e = omega (arith, h, e)

cat_no_nul : Avoids 0 (codes "cat")
cat_no_nul =
    (no_nul b'c' (omega arith), (no_nul b'a' (omega arith), (no_nul b't' (omega arith), tt)))

ui_no_nul : Avoids 0 (codes "ui")
ui_no_nul = (no_nul b'u' (omega arith), (no_nul b'i' (omega arith), tt))

two_d_no_nul : Avoids 0 (codes "2d")
two_d_no_nul = (no_nul b'2' (omega arith), (no_nul b'd' (omega arith), tt))

sorted_cats-NoNul : NoNul sorted_cats
sorted_cats-NoNul = record {
  query = cat_no_nul;
  price = tt;
  author = tt;
  like = tt;
  tags = (two_d_no_nul, (ui_no_nul, tt));
  exclude_tags = tt;
}

unsorted_cats-NoNul : NoNul unsorted_cats
unsorted_cats-NoNul = record {
  query = cat_no_nul;
  price = tt;
  author = tt;
  like = tt;
  tags = (ui_no_nul, (two_d_no_nul, tt));
  exclude_tags = tt;
}

hit_key_injective_example :
    (sorted_cats.query ≡ unsorted_cats.query)
    × (resolved_sort sorted_cats ≡ resolved_sort unsorted_cats)
    × (sorted_cats.price ≡ unsorted_cats.price)
    × (sorted_cats.author ≡ unsorted_cats.author)
    × (sorted_cats.like ≡ unsorted_cats.like)
    × (sorted_cats.min_first_seen ≡ unsorted_cats.min_first_seen)
    × (join_sorted sorted_cats.tags ≡ join_sorted unsorted_cats.tags)
    × (join_sorted sorted_cats.exclude_tags ≡ join_sorted unsorted_cats.exclude_tags)
unfolding hit_key text_lt
hit_key_injective_example =
    hit_key_injective sorted_cats unsorted_cats sorted_cats-NoNul unsorted_cats-NoNul refl
