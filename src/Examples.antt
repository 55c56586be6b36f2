-- ===== src/Examples.antt =====
-- Small data on which the theorems of this library are applied: a catalog of three assets, with
-- floats that are whole numbers and a lower case that knows ASCII only.
pub mod Engines
pub mod Plans
pub mod Caches
pub mod Crawls
pub mod Runs
pub mod Publishes
pub mod Queries
pub mod Params
pub mod Prices
pub mod Tags
pub mod Fetches
pub mod Clients
pub mod Pages
use itchgrep.Base.{
  ℕ, ◌+◌, ◌*◌, ◌/◌, Bool, true, false, ◌&&◌, Option, none, some, List, [], ◌∷◌, map, ltb, leb, ◌==◌,
  if◌then◌else◌,
}
use itchgrep.Base.Int.{ℤ, pos}
use itchgrep.Base.Text.{Text, codes}
use itchgrep.Money.Float.{Float64}
use itchgrep.Money.Rates.{Rates}
use itchgrep.Models.Asset.{Asset, Unicode}
use itchgrep.Cache.Options.{SearchOptions}

abbrev pub whole_floats : Float64
whole_floats = record {
  F = ℕ;
  of_nat = λ n. n;
  mul = λ a b. a * b;
  div = λ a b. a / b;
  lt = ltb;
  eq = ◌==◌;
}

abbrev pub ascii : Unicode
ascii = record {
  wide_digit = λ _. 0;
  to_lower = map (λ c. if leb 65 c && leb c 90 then c + 32 else c);
}

abbrev pub par_rates : Rates whole_floats
par_rates = record {
  date = codes "2026-07-01";
  source = codes "ECB";
  per_eur = (codes "EUR", 1) ∷ (codes "USD", 1) ∷ [];
}

abbrev pub asset : Text → Text → List Text → Text → Option ℤ → Asset
asset game_id title tags price first_seen = record {
  game_id = game_id;
  title = title;
  author = codes "Ann";
  description = [];
  link = [];
  thumb_url = [];
  tags = tags;
  price = price;
  pay_what_you_want = false;
  inv_popularity = pos 0;
  inv_recency = pos 0;
  first_seen = first_seen;
}

abbrev pub three_assets : List Asset
three_assets =
    asset (codes "7") (codes "Beta") (codes "2d" ∷ codes "tiles" ∷ []) (codes "$4") (some (pos 50))
    ∷ asset (codes "8") (codes "alpha") (codes "2d" ∷ []) [] (some (pos 70))
    ∷ asset (codes "9") (codes "Gamma") (codes "tiles" ∷ codes "3d" ∷ []) (codes "$9") none
    ∷ []

-- Assets like the one with id 7, by title, two to a page.
abbrev pub like_seven : SearchOptions
like_seven = record {
  query = [];
  tags = [];
  exclude_tags = [];
  author = [];
  price = [];
  sort = codes "title";
  page = pos 1;
  min_first_seen = pos 0;
  limit = pos 2;
  like = codes "7";
  no_facets = true;
}
