-- ===== src/Web/Params.antt =====
-- The parameters of a request: pageParam, parseFilterValues and what they call, of
-- internal/web/handlers.go.
pub mod Parsed
pub mod Again
use itchgrep.Base.{
  ℕ, zero, suc, ◌+◌, ◌*◌, ◌-◌, ◌^◌, Bool, true, false, not, ◌&&◌, ◌||◌, Option, none, some, List,
  [], ◌∷◌, ◌++◌, any, all, length, get_elem?, take, ltb, leb, ◌==◌, if◌then◌else◌,
}
use itchgrep.Base.Int.{ℤ, pos, negsuc, ltb_ℤ, leb_ℤ}
use itchgrep.Base.Text.Number.{is_digit, parse_int}
use itchgrep.Base.Text.{Text, codes, text_eq}
use itchgrep.Base.Text.Maps.{lookup}
use itchgrep.Base.Text.Space.{trim_space}
use itchgrep.Base.Text.Split.{split}
use itchgrep.Money.Float.{Float64}
use itchgrep.Money.Rates.{Rates}
use itchgrep.Models.Asset.{
  Unicode, pricing_free, pricing_paid, pricing_under_5, pricing_under_20, sort_relevance,
  sort_popular, sort_title, sort_price, sort_recent,
}
use itchgrep.Web.Filters.{Filters, at_tag_limit, at_not_tag_limit, with_tag, with_not_tag}

abbrev pub max_query_len : ℕ
max_query_len = 200

abbrev pub max_tag_len : ℕ
max_tag_len = 64

abbrev pub max_author_len : ℕ
max_author_len = 120

abbrev pub max_game_id_len : ℕ
max_game_id_len = 32

abbrev pub max_page : ℕ
max_page = 10000

-- url.Values in the order of the address: Get is the first value of a name, or the empty text.
unfoldable pub get : List (Text × Text) → Text → Text
get q name = elim (lookup name q) [ none ↦ [] | some v ↦ v ]

unfoldable pub get_all : List (Text × Text) → Text → List Text
get_all [] name = []
get_all ((k, v) ∷ q) name = let rest = get_all q name in if text_eq k name then v ∷ rest else rest

-- `none` is a page that is rejected.
unfoldable pub page_param : List (Text × Text) → Option ℤ
unfolding parse_int lookup
page_param q =
    let p = get q (codes "page") in
    if text_eq p [] then some (pos 1) else elim (parse_int p) [
      | none ↦ none
      | some n ↦ if ltb_ℤ n (pos 1) || ltb_ℤ (pos max_page) n then none else some n
    ]

abbrev pub slug_byte : ℕ → Bool
slug_byte c = (leb b'a' c && leb c b'z') || (is_digit c || c == b'-')

-- The bytes of a rune outside ASCII are none of the slug's, nor is any of its values.
unfoldable pub normalize_tag : Unicode → Text → Text
normalize_tag uni tag =
    let t = uni.to_lower (trim_space tag) in
    if text_eq t [] || ltb max_tag_len (length t) then [] else if all slug_byte t then t else []

unfoldable pub normalize_game_id : Text → Text
normalize_game_id id =
    let t = trim_space id in
    if text_eq t [] || ltb max_game_id_len (length t) then [] else if all is_digit t then t else []

unfoldable pub clamp_author : Text → Text
clamp_author author = let t = trim_space author in if ltb max_author_len (length t) then [] else t

-- utf8.RuneStart
abbrev pub rune_start : ℕ → Bool
rune_start c = not (leb 128 c && ltb c 192)

-- The loop back to a rune's first byte.
unfoldable pub cut_at : Text → ℕ → ℕ
cut_at q zero = 0
cut_at q (suc cut) =
    let back = cut_at q cut in
    elim (get_elem? q (suc cut)) [
      | none ↦ suc cut
      | some c ↦ if rune_start c then suc cut else back
    ]

unfoldable pub clamp_query : Text → Text
clamp_query q =
    let t = trim_space q in
    if leb (length t) max_query_len then t else trim_space (take (cut_at t max_query_len) t)

module _ (uni : Unicode) where
  -- The loop over the required tags, which ends at the cap.
  unfoldable pub require_all : List Text → Filters → Filters
  require_all [] f = f
  require_all (raw ∷ raws) f =
      let t = normalize_tag uni raw in
      let f' = if text_eq t [] then f else with_tag f t in
      let rest = require_all raws f' in if at_tag_limit f then f else rest

  unfoldable pub exclude_all : List Text → Filters → Filters
  exclude_all [] f = f
  exclude_all (raw ∷ raws) f =
      let t = normalize_tag uni raw in
      let f' = if text_eq t [] then f else with_not_tag f t in
      let rest = exclude_all raws f' in if at_not_tag_limit f then f else rest

-- The values of a parameter, each split at its commas.
unfoldable pub pieces : List Text → List Text
unfolding split
pieces [] = []
pieces (v ∷ vs) = split b',' v ++ pieces vs

-- A value that is one of those offered, else none.
abbrev pub one_of : List Text → Text → Text
one_of offered v = if any (λ o. text_eq o v) offered then v else []

module _ (uni : Unicode) (to_upper : Text → Text) (fl : Float64) (rates : Rates fl) where
  unfoldable pub normalize_currency : Text → Text
  normalize_currency cur =
      let c = to_upper (trim_space cur) in
      if text_eq c [] then [] else elim (lookup c rates.per_eur) [ none ↦ [] | some _ ↦ c ]

  unfoldable pub parse_filter_values : List (Text × Text) → Filters
  parse_filter_values q =
      let query = clamp_query (get q (codes "q")) in
      let start : Filters = record {
        query = query;
        tags = [];
        not_tags = [];
        author = [];
        price = [];
        sort = [];
        like = [];
        currency = [];
        all_tags = false;
      } in
      let tagged =
        exclude_all uni (pieces (get_all q (codes "not")))
          (require_all uni (pieces (get_all q (codes "tags"))) start) in
      let sort =
        one_of (sort_relevance ∷ sort_popular ∷ sort_title ∷ sort_price ∷ sort_recent ∷ [])
          (get q (codes "sort")) in
      record tagged {
        like = normalize_game_id (get q (codes "like"));
        author = clamp_author (get q (codes "author"));
        price =
            one_of (pricing_free ∷ pricing_paid ∷ pricing_under_5 ∷ pricing_under_20 ∷ [])
              (get q (codes "price"));
        sort = if text_eq sort sort_relevance && text_eq query [] then [] else sort;
        currency = normalize_currency (get q (codes "cur"));
        all_tags = text_eq (get q (codes "alltags")) (codes "1");
      }
