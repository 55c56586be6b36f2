-- ===== src/Examples/Engines.antt =====
-- The engine's theorems at the catalog of three assets.
use itchgrep.Base.{◌≡◌, refl, true, none, some, [], ◌∷◌, arith, inr}
use itchgrep.Base.Int.{pos}
use itchgrep.Base.Text.{codes, text_eq, text_lt}
use itchgrep.Money.Float.{IsOrdered}
use itchgrep.Base.Text.Maps.{lookup}
use itchgrep.Cache.State.{Cache, page_start, Results, found}
use itchgrep.Cache.Engine.{Engine, build_engine, build_rows, order_by}
use itchgrep.Cache.Engine.Search.{search_engine, positions, page_limit}
use itchgrep.Cache.Engine.Search.Reference.{Source, Shows, search_engine-Shows}
use itchgrep.Cache.Engine.Search.Sorted.{comes_first, positions-comes_first}
use itchgrep.Examples.{whole_floats, ascii, par_rates, three_assets, like_seven, asset}

abbrev three_engine : Engine whole_floats
unfolding build_engine
three_engine = elim (build_engine ascii whole_floats par_rates three_assets) [
  | none ↦ record {
    rows = [];
    tables = record { tags = record { ids = []; slugs = [] }; authors = [] };
    by_title = [];
    by_price = [];
    by_recent = [];
    by_new = [];
  }
  | some e ↦ e
]

three_engine_built : build_engine ascii whole_floats par_rates three_assets ≡ some three_engine
unfolding build_engine build_rows three_engine
three_engine_built = refl

order_test : positions whole_floats three_engine (codes "title") ≡ 1 ∷ 0 ∷ 2 ∷ []
unfolding positions three_engine text_eq text_lt build_rows order_by
order_test = refl

abbrev three_cache : Cache whole_floats
three_cache = record {
  assets = some three_assets;
  data_map = (codes "7", 0) ∷ (codes "8", 1) ∷ (codes "9", 2) ∷ [];
  indexed = true;
  eng = some three_engine;
  tag_counts = [];
  tag_catalog = [];
  has_recency = true;
  has_price_bands = true;
  page_size = 36;
}

like_seven-Source :
    Source whole_floats three_cache three_assets like_seven
      (codes "Beta")
      (codes "2d" ∷ codes "tiles" ∷ [])
      (some 0)
unfolding text_eq lookup
like_seven-Source = inr (
  0,
  asset (codes "7") (codes "Beta") (codes "2d" ∷ codes "tiles" ∷ []) (codes "$4") (some (pos 50)),
  refl,
  refl,
  refl,
  refl,
  refl,
  refl,
)

search_engine-Shows_example :
    (r : Results) × (search_engine ascii whole_floats three_cache like_seven ≡ some (found r))
    × (r.like_title ≡ codes "Beta")
    × Shows ascii whole_floats par_rates three_assets three_engine three_engine_built like_seven
        (codes "2d" ∷ codes "tiles" ∷ [])
        (some 0)
        0
        (page_limit whole_floats three_cache like_seven)
        r
unfolding page_start text_eq
search_engine-Shows_example =
    search_engine-Shows ascii whole_floats par_rates three_assets three_engine three_engine_built
      three_cache like_seven (codes "Beta") (codes "2d" ∷ codes "tiles" ∷ []) (some 0) 0 refl refl
      refl like_seven-Source refl refl (omega arith)

whole_floats-IsOrdered : IsOrdered whole_floats
whole_floats-IsOrdered = record { asymm = λ x y h. ground arith; trans = λ x y z h k. ground arith }

positions-comes_first_example :
    comes_first ascii whole_floats par_rates
      (codes "title")
      1
      (asset (codes "8") (codes "alpha") (codes "2d" ∷ []) [] (some (pos 70)))
      0
      (asset
        (codes "7")
        (codes "Beta")
        (codes "2d" ∷ codes "tiles" ∷ [])
        (codes "$4")
        (some (pos 50)))
    ≡ true
unfolding positions three_engine text_eq text_lt build_rows order_by
positions-comes_first_example =
    positions-comes_first ascii whole_floats par_rates three_assets three_engine three_engine_built
      whole_floats-IsOrdered (codes "title") 0 1 1 0
      (asset (codes "8") (codes "alpha") (codes "2d" ∷ []) [] (some (pos 70)))
      (asset (codes "7") (codes "Beta") (codes "2d" ∷ codes "tiles" ∷ []) (codes "$4")
        (some (pos 50)))
      (omega arith) refl refl refl refl
