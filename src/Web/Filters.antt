-- ===== src/Web/Filters.antt =====
-- The state of the search controls and the links that change it: Filters of
-- internal/web/templates/filters.go.
pub mod Tags
pub mod Keeps
pub mod Routes
use itchgrep.Base.{
  ℕ, Bool, true, false, not, ◌&&◌, ◌||◌, List, [], ◌∷◌, ◌++◌, any, select, length, leb, ltb, ◌==◌,
  if◌then◌else◌,
}
use itchgrep.Base.Text.{Text, codes, text_eq, text_lt, join}
use itchgrep.Models.Asset.{sort_popular, sort_relevance}

pub record Filters : Type 0 where
  pub query : Text
  pub tags : List Text
  pub not_tags : List Text
  pub author : Text
  pub price : Text
  pub sort : Text
  pub like : Text
  pub currency : Text
  pub all_tags : Bool

abbrev pub max_tags : ℕ
max_tags = 4

abbrev pub max_not_tags : ℕ
max_not_tags = 4

unfoldable pub at_tag_limit : Filters → Bool
at_tag_limit f = leb max_tags (length f.tags)

unfoldable pub at_not_tag_limit : Filters → Bool
at_not_tag_limit f = leb max_not_tags (length f.not_tags)

unfoldable pub default_sort : Filters → Text
default_sort f = if text_eq f.query [] then sort_popular else sort_relevance

unfoldable pub shown_sort : Filters → Text
unfolding default_sort
shown_sort f = if text_eq f.sort [] then default_sort f else f.sort

-- v.Set of a parameter, unless it has its default.
abbrev pub param : Bool → Text → Text → List (Text × Text) → List (Text × Text)
param default name value rest = if default then rest else (name, value) ∷ rest

-- The query parameters, each at most once.
unfoldable pub values : Filters → List (Text × Text)
unfolding default_sort
values f = param (text_eq f.query []) (codes "q") f.query (
    param (length f.tags == 0) (codes "tags") (join (codes ",") f.tags) (
      param (length f.not_tags == 0) (codes "not") (join (codes ",") f.not_tags) (
        param (text_eq f.like []) (codes "like") f.like (
          param (text_eq f.author []) (codes "author") f.author (
            param (text_eq f.price []) (codes "price") f.price (
              param (text_eq f.currency []) (codes "cur") f.currency (
                param (text_eq f.sort [] || text_eq f.sort (default_sort f)) (codes "sort") f.sort
                  [])))))))

unfoldable pub bare : Filters → Bool
unfolding values
bare f = length (values f) == 0

unfoldable pub narrowed : Filters → Bool
narrowed f =
    ltb 0 (length f.tags)
    || (ltb 0 (length f.not_tags)
        || (not (text_eq f.price []) || (not (text_eq f.author []) || not (text_eq f.like []))))

unfoldable pub any_filter : Filters → Bool
unfolding narrowed
any_filter f = not (text_eq f.query []) || narrowed f

unfoldable pub contains : List Text → Text → Bool
contains list want = any (λ t. text_eq t want) list

unfoldable pub remove : List Text → Text → List Text
remove list drop = select (λ t. not (text_eq t drop)) list

unfoldable pub insert_sorted : List Text → Text → List Text
insert_sorted [] tag = tag ∷ []
insert_sorted (t ∷ ts) tag =
    let rest = insert_sorted ts tag in if text_lt tag t then tag ∷ t ∷ ts else t ∷ rest

unfoldable pub without_tag : Filters → Text → Filters
unfolding remove
without_tag f tag = record f { tags = remove f.tags tag }

unfoldable pub without_not_tag : Filters → Text → Filters
unfolding remove
without_not_tag f tag = record f { not_tags = remove f.not_tags tag }

unfoldable pub with_tag : Filters → Text → Filters
unfolding contains at_tag_limit without_not_tag insert_sorted
with_tag f tag =
    if contains f.tags tag || at_tag_limit f
    then f
    else record (without_not_tag f tag) { tags = insert_sorted f.tags tag }

unfoldable pub with_not_tag : Filters → Text → Filters
unfolding contains at_not_tag_limit without_tag insert_sorted
with_not_tag f tag =
    if contains f.not_tags tag || at_not_tag_limit f
    then f
    else record (without_tag f tag) { not_tags = insert_sorted f.not_tags tag }

unfoldable pub toggle_tag : Filters → Text → Filters
unfolding contains without_tag with_tag
toggle_tag f tag = if contains f.tags tag then without_tag f tag else with_tag f tag

-- The toggle of author, price and like: choosing the same value again clears it.
abbrev pub toggled : Text → Text → Text
toggled old new = if text_eq old new then [] else new

unfoldable pub with_author : Filters → Text → Filters
with_author f author = record f { author = toggled f.author author }

unfoldable pub with_like : Filters → Text → Filters
with_like f game_id = record f { like = toggled f.like game_id }

unfoldable pub without_like : Filters → Filters
without_like f = record f { like = [] }

unfoldable pub with_price : Filters → Text → Filters
with_price f price = record f { price = toggled f.price price }

unfoldable pub with_sort : Filters → Text → Filters
with_sort f sort = record f { sort = sort }

unfoldable pub cleared : Filters → Filters
cleared f = record {
  query = f.query;
  tags = [];
  not_tags = [];
  author = [];
  price = [];
  sort = f.sort;
  like = [];
  currency = f.currency;
  all_tags = false;
}
