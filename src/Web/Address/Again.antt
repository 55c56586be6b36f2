-- ===== src/Web/Address/Again.antt =====
-- Addresses that are read again: parseFilterValues and pageParam of internal/web/handlers.go after
-- PageURL of internal/web/templates/filters.go.
use mathlib.Core.Path.{subst}
use itchgrep.Base.{
  ℕ, ◌≡◌, ◌≢◌, refl, ap, ◌∙◌, Bool, true, false, not, ◌&&◌, ◌||◌, Option, none, some, List, [], ◌∷◌,
  ◌++◌, arith, all, any, All, All-weaken, length, ◌==◌, by_if, Bool-cases, inl, inr, if◌then◌else◌,
}
use itchgrep.Base.Int.{ℤ, pos, negsuc, ltb_ℤ}
use itchgrep.Base.Text.{Text, codes, text_eq, text_eq_iff, join}
use itchgrep.Base.Text.Maps.{lookup}
use itchgrep.Base.Text.Number.{parse_int}
use itchgrep.Base.Text.Space.{trim_space}
use itchgrep.Base.Text.Decimal.{format_int, format_int_filled, parse_int-format_int}
use itchgrep.Money.Float.{Float64}
use itchgrep.Money.Rates.{Rates}
use itchgrep.Models.Asset.{
  Unicode, pricing_free, pricing_paid, pricing_under_5, pricing_under_20, sort_relevance,
  sort_popular, sort_title, sort_price, sort_recent,
}
use itchgrep.Web.Filters.{Filters, values, param, default_sort, contains}
use itchgrep.Web.Filters.Tags.{Apart}
use itchgrep.Web.Params.{
  get, get_all, slug_byte, pieces, one_of, normalize_game_id, clamp_author, clamp_query,
  require_all, exclude_all, normalize_currency, parse_filter_values, page_param, max_page,
}
use itchgrep.Web.Params.Parsed.{
  Slugs, IsSlug, untagged, parse_filter_values-Slugs, exclude_all-query, require_all-query,
}
use itchgrep.Web.Params.Again.{
  clamp_query-clamp_query, clamp_author-clamp_author, normalize_game_id_again, trim_space_empty,
  of_tags, require_all-slugs, exclude_all-slugs, pieces-join,
}
use itchgrep.Web.Address.{page_values}

-- Parameters, each with the test that leaves it out.
abbrev Entry : Type 0
Entry = Bool × Text × Text

abbrev present : List Entry → List (Text × Text)
present [] = []
present ((default, name, value) ∷ es) = param default name value (present es)

abbrev picks : List Entry → Text → List Text
picks [] want = []
picks ((default, name, value) ∷ es) want =
    if text_eq name want
    then (if default then picks es want else value ∷ picks es want)
    else picks es want

get_all-present : (es : List Entry) (want : Text) → get_all (present es) want ≡ picks es want
unfolding get_all
get_all-present [] want = refl
get_all-present ((default, name, value) ∷ es) want = ground (arith, get_all-present es want)

abbrev first_or : List Text → Text
first_or [] = []
first_or (t ∷ ts) = t

get_lem : (q : List (Text × Text)) (name : Text) → get q name ≡ first_or (get_all q name)
unfolding get get_all lookup
get_lem [] name = refl
get_lem ((k, v) ∷ q) name = elim (Bool-cases (text_eq k name)) [
  | inl e ↦ rw (e, get, lookup)
  | inr e ↦ rw (e, get, lookup) (get_lem q name)
]

abbrev entries : Filters → ℤ → List Entry
entries f n =
    (text_eq f.query [], codes "q", f.query)
    ∷ (length f.tags == 0, codes "tags", join (codes ",") f.tags)
    ∷ (length f.not_tags == 0, codes "not", join (codes ",") f.not_tags)
    ∷ (text_eq f.like [], codes "like", f.like)
    ∷ (text_eq f.author [], codes "author", f.author)
    ∷ (text_eq f.price [], codes "price", f.price)
    ∷ (text_eq f.currency [], codes "cur", f.currency)
    ∷ (text_eq f.sort [] || text_eq f.sort (default_sort f), codes "sort", f.sort)
    ∷ (not (ltb_ℤ (pos 1) n), codes "page", format_int n)
    ∷ (not f.all_tags, codes "alltags", codes "1")
    ∷ []

param-append :
    (b : Bool) (name value : Text) (rest more : List (Text × Text))
    → param b name value rest ++ more ≡ param b name value (rest ++ more)
param-append true name value rest more = refl
param-append false name value rest more = refl

page_values-entries : (f : Filters) (n : ℤ) → page_values f n ≡ present (entries f n)
unfolding page_values
page_values-entries f n = simp (param-append)

-- What a query has under each name that the parameters of a page have.
module _ (f : Filters) (n : ℤ) where
  pub written : Text → List Text
  written want = get_all (page_values f n) want

  written_at : (want : Text) → written want ≡ picks (entries f n) want
  unfolding written
  written_at want =
      ap (λ v. get_all v want) (page_values-entries f n) ∙ get_all-present (entries f n) want

  present_or : (x : Text) → first_or (if text_eq x [] then [] else x ∷ []) ≡ x
  unfolding text_eq
  present_or [] = refl
  present_or (c ∷ x) = refl

  written_query : first_or (written (codes "q")) ≡ f.query
  unfolding text_eq
  written_query = ap first_or (written_at (codes "q")) ∙ present_or f.query

  written_like : first_or (written (codes "like")) ≡ f.like
  unfolding text_eq
  written_like = ap first_or (written_at (codes "like")) ∙ present_or f.like

  written_author : first_or (written (codes "author")) ≡ f.author
  unfolding text_eq
  written_author = ap first_or (written_at (codes "author")) ∙ present_or f.author

  written_price : first_or (written (codes "price")) ≡ f.price
  unfolding text_eq
  written_price = ap first_or (written_at (codes "price")) ∙ present_or f.price

  written_currency : first_or (written (codes "cur")) ≡ f.currency
  unfolding text_eq
  written_currency = ap first_or (written_at (codes "cur")) ∙ present_or f.currency

  written_tags : All IsSlug f.tags → pieces (written (codes "tags")) ≡ f.tags
  unfolding text_eq
  written_tags s = ap pieces (written_at (codes "tags")) ∙ pieces-join f.tags s

  written_not_tags : All IsSlug f.not_tags → pieces (written (codes "not")) ≡ f.not_tags
  unfolding text_eq
  written_not_tags s = ap pieces (written_at (codes "not")) ∙ pieces-join f.not_tags s

  -- The ordering is written where it is not the default one.
  abbrev pub told_sort : Text
  told_sort = if text_eq f.sort [] || text_eq f.sort (default_sort f) then [] else f.sort

  written_sort : first_or (written (codes "sort")) ≡ told_sort
  unfolding text_eq
  written_sort =
      ap first_or (written_at (codes "sort"))
      ∙ chosen (text_eq f.sort [] || text_eq f.sort (default_sort f))
    where
      chosen : (b : Bool) → first_or (if b then [] else f.sort ∷ []) ≡ (if b then [] else f.sort)
      chosen true = refl
      chosen false = refl

  pub written_page :
      first_or (written (codes "page")) ≡ (if ltb_ℤ (pos 1) n then format_int n else [])
  unfolding text_eq
  written_page = ap first_or (written_at (codes "page")) ∙ chosen (ltb_ℤ (pos 1) n)
    where
      chosen :
          (b : Bool)
          → first_or (if not b then [] else format_int n ∷ []) ≡ (if b then format_int n else [])
      chosen true = refl
      chosen false = refl

  written_all_tags : text_eq (first_or (written (codes "alltags"))) (codes "1") ≡ f.all_tags
  unfolding text_eq
  written_all_tags =
      ap (λ ts. text_eq (first_or ts) (codes "1")) (written_at (codes "alltags"))
      ∙ chosen f.all_tags
    where
      chosen :
          (b : Bool) → text_eq (first_or (if not b then [] else codes "1" ∷ [])) (codes "1") ≡ b
      chosen true = refl
      chosen false = refl

abbrev prices : List Text
prices = pricing_free ∷ pricing_paid ∷ pricing_under_5 ∷ pricing_under_20 ∷ []

abbrev sorts : List Text
sorts = sort_relevance ∷ sort_popular ∷ sort_title ∷ sort_price ∷ sort_recent ∷ []

-- Apartness the other way round.
Apart-symm : (ts us : List Text) → Apart ts us → Apart us ts
unfolding contains
Apart-symm ts [] h = tt
Apart-symm ts (u ∷ us) h = (
  outside ts h,
  Apart-symm ts us (
      All-weaken (λ t. contains (u ∷ us) t ≡ false) (λ t. contains us t ≡ false)
        (λ t e. ground arith) ts h),
)
  where
    outside : (ts : List Text) → Apart ts (u ∷ us) → contains ts u ≡ false
    outside [] h = refl
    outside (t ∷ ts) h = ground (arith, h.0, text_eq_iff t u, text_eq_iff u t, outside ts h.1)

-- What is so of filters that were read from a request.
pub record Settled (uni : Unicode) (to_upper : Text → Text) (fl : Float64) (rates : Rates fl)
    (f : Filters) : Type 0 where
  slugs : Slugs f
  reset : text_eq f.sort sort_relevance && text_eq f.query [] ≡ false
  query : clamp_query f.query ≡ f.query
  like : normalize_game_id f.like ≡ f.like
  author : clamp_author f.author ≡ f.author
  price : one_of prices f.price ≡ f.price
  currency : normalize_currency uni to_upper fl rates f.currency ≡ f.currency
  sort : one_of sorts f.sort ≡ f.sort

one_of_again :
    (offered : List Text) (v : Text) → one_of offered (one_of offered v) ≡ one_of offered v
one_of_again offered v =
    by_if (λ r. one_of offered r ≡ r) (any (λ o. text_eq o v) offered) (λ e. rw e refl)
      (λ _. by_if (λ r. r ≡ []) (any (λ o. text_eq o []) offered) (λ _. refl) (λ _. refl))

-- Currencies that are their own upper case, and that later rates have too.
module _ (uni : Unicode) (to_upper : Text → Text) (fl : Float64) (rates after : Rates fl)
    (no_upper : to_upper [] ≡ [])
    (upper : (c : Text) → lookup c rates.per_eur ≢ none → to_upper (trim_space c) ≡ c)
    (kept : (c : Text) → lookup c rates.per_eur ≢ none → lookup c after.per_eur ≢ none) where
  currency_empty : normalize_currency uni to_upper fl after [] ≡ []
  unfolding normalize_currency text_eq
  currency_empty = rw (trim_space_empty, no_upper, normalize_currency) refl

  currency_known :
      (t : Text) {v : fl.F} (o : Option fl.F)
      → text_eq t [] ≡ false
      → lookup t rates.per_eur ≡ some v
      → lookup t after.per_eur ≡ o
      → normalize_currency uni to_upper fl after t ≡ t
  unfolding normalize_currency
  currency_known t none e h h' = absurd (kept t (λ k. cc) h')
  currency_known t (some w) e h h' =
      rw (upper t (λ k. cc), normalize_currency, e, h') (upper t (λ k. cc))

  normalize_currency_again :
      (c : Text)
      → normalize_currency uni to_upper fl after (normalize_currency uni to_upper fl rates c)
        ≡ normalize_currency uni to_upper fl rates c
  unfolding normalize_currency
  normalize_currency_again c =
      let again = normalize_currency uni to_upper fl after in
      let t = to_upper (trim_space c) in
      by_if (λ r. again r ≡ r) {x = []} (text_eq t []) (λ _. currency_empty)
        (λ e. known t e (lookup t rates.per_eur) refl)
    where
      known :
          (t : Text)
          → text_eq t [] ≡ false
          → (v : Option fl.F) → lookup t rates.per_eur ≡ v
          → normalize_currency uni to_upper fl after
              (elim v as (λ _. Text) [ none ↦ [] | some _ ↦ t ])
            ≡ (elim v as (λ _. Text) [ none ↦ [] | some _ ↦ t ])
      known t e none h = currency_empty
      known t e (some v) h = currency_known t (lookup t after.per_eur) e h refl

  query_lem :
      (q : List (Text × Text))
      → (parse_filter_values uni to_upper fl rates q).query ≡ clamp_query (get q (codes "q"))
  unfolding parse_filter_values
  query_lem q =
      exclude_all-query uni (pieces (get_all q (codes "not"))) _
      ∙ require_all-query uni (pieces (get_all q (codes "tags")))
          (untagged (clamp_query (get q (codes "q"))))

  pub settled :
      (q : List (Text × Text))
      → Settled uni to_upper fl after (parse_filter_values uni to_upper fl rates q)
  unfolding parse_filter_values text_eq
  settled q = record {
    slugs = (parse_filter_values-Slugs uni to_upper fl rates q).0;
    reset =
        by_if
          (λ r.
            text_eq r sort_relevance
              && text_eq (parse_filter_values uni to_upper fl rates q).query []
            ≡ false)
          {x = []}
          (text_eq (one_of sorts (get q (codes "sort"))) sort_relevance
            && text_eq (clamp_query (get q (codes "q"))) [])
          (λ _. refl) (λ e. rw (query_lem q) e);
    query = rw (query_lem q) (clamp_query-clamp_query _);
    like = normalize_game_id_again _;
    author = clamp_author-clamp_author _;
    price = one_of_again prices (get q (codes "price"));
    currency = normalize_currency_again _;
    sort =
        by_if (λ r. one_of sorts r ≡ r) {x = []}
          (text_eq (one_of sorts (get q (codes "sort"))) sort_relevance
            && text_eq (clamp_query (get q (codes "q"))) [])
          (λ _. refl) (λ _. one_of_again sorts (get q (codes "sort")));
  }

module _ (uni : Unicode) (to_upper : Text → Text) (fl : Float64) (rates : Rates fl)
    (lower : (t : Text) → all slug_byte t ≡ true → uni.to_lower t ≡ t) where
  module _ (f : Filters) (n : ℤ) (q : List (Text × Text)) (s : Settled uni to_upper fl rates f)
      (same : (name : Text) → get_all q name ≡ get_all (page_values f n) name) where
    pub told : (name v : Text) → first_or (written f n name) ≡ v → get q name ≡ v
    unfolding written
    told name v e = get_lem q name ∙ ap first_or (same name) ∙ e

    tags_again : pieces (get_all q (codes "tags")) ≡ f.tags
    unfolding written
    tags_again = ap pieces (same (codes "tags")) ∙ written_tags f n s.slugs.1

    not_tags_again : pieces (get_all q (codes "not")) ≡ f.not_tags
    unfolding written
    not_tags_again = ap pieces (same (codes "not")) ∙ written_not_tags f n s.slugs.2

    tagged_again :
        (b : Filters)
        → exclude_all uni
            (pieces (get_all q (codes "not")))
            (require_all uni (pieces (get_all q (codes "tags"))) (of_tags b [] []))
          ≡ of_tags b f.tags f.not_tags
    tagged_again b =
        let v = s.slugs.0 in
        rw
          (
            tags_again,
            not_tags_again,
            require_all-slugs uni lower f.tags [] b s.slugs.1 v.sorted v.few,
          )
          (exclude_all-slugs uni lower f.not_tags f.tags [] b s.slugs.2
            (Apart-symm f.tags f.not_tags v.apart) v.not_sorted v.not_few)

    sort_again :
        (t : Text)
        → t ≡ told_sort f n
        → (if text_eq (one_of sorts t) sort_relevance && text_eq f.query []
            then []
            else one_of sorts t)
          ≡ told_sort f n
    unfolding text_eq
    sort_again t e = rw e (
        by_if
          (λ r.
            (if text_eq (one_of sorts r) sort_relevance && text_eq f.query []
              then []
              else one_of sorts r)
            ≡ r)
          (text_eq f.sort [] || text_eq f.sort (default_sort f)) (λ _. refl)
          (λ _. rw (s.sort, s.reset) refl))

    -- The filters that are read differ at most in an ordering that is the default.
    pub parse_again :
        parse_filter_values uni to_upper fl rates q ≡ record f { sort = told_sort f n }
    unfolding parse_filter_values
    parse_again =
        let query_again = ap clamp_query (told (codes "q") f.query (written_query f n)) ∙ s.query in
        let like_again =
          ap normalize_game_id (told (codes "like") f.like (written_like f n)) ∙ s.like in
        let author_again =
          ap clamp_author (told (codes "author") f.author (written_author f n)) ∙ s.author in
        let price_again =
          ap (one_of prices) (told (codes "price") f.price (written_price f n)) ∙ s.price in
        let currency_again =
          ap (normalize_currency uni to_upper fl rates)
            (told (codes "cur") f.currency (written_currency f n))
          ∙ s.currency in
        let sort_told = told (codes "sort") (told_sort f n) (written_sort f n) in
        let all_again =
          ap (λ t. text_eq t (codes "1"))
            (told (codes "alltags") (first_or (written f n (codes "alltags"))) refl)
          ∙ written_all_tags f n in
        rw
          (
            query_again,
            tagged_again (untagged f.query),
            like_again,
            author_again,
            price_again,
            currency_again,
            sort_again _ sort_told,
            all_again,
          )
          refl

-- An ordering that is left out does not count.
pub page_values_again :
    (f : Filters) (n : ℤ) → page_values (record f { sort = told_sort f n }) n ≡ page_values f n
unfolding page_values values text_eq
page_values_again f n =
    by_if (λ r. page_values (record f { sort = r }) n ≡ page_values f n)
      (text_eq f.sort [] || text_eq f.sort (default_sort f)) (λ e. rw (e, values) refl) (λ _. refl)

-- A page number that is read is one of the range.
abbrev InRange : ℤ → Type 0
InRange n = ltb_ℤ n (pos 1) || ltb_ℤ (pos max_page) n ≡ false

abbrev page_or_first : Option ℤ → ℤ
page_or_first none = pos 1
page_or_first (some n) = n

read-InRange :
    (v : Option ℤ)
    → InRange (
        page_or_first (elim v [
          | none ↦ none
          | some n ↦ if ltb_ℤ n (pos 1) || ltb_ℤ (pos max_page) n then none else some n
        ]))
read-InRange none = refl
read-InRange (some n) =
    by_if (λ o. InRange (page_or_first o)) (ltb_ℤ n (pos 1) || ltb_ℤ (pos max_page) n) (λ _. refl)
      (λ e. e)

page_param-InRange : (q : List (Text × Text)) (n : ℤ) → page_param q ≡ some n → InRange n
unfolding page_param
page_param-InRange q n h =
    subst (λ o. InRange (page_or_first o)) h
      (by_if (λ o. InRange (page_or_first o)) (text_eq (get q (codes "page")) []) (λ _. refl)
        (λ _. read-InRange (parse_int (get q (codes "page")))))

later_page :
    (q : List (Text × Text)) (m : ℕ)
    → InRange (pos m)
    → get q (codes "page") ≡ format_int (pos m)
    → page_param q ≡ some (pos m)
unfolding page_param
later_page q m r e = rw (e, format_int_filled m, parse_int-format_int m (ground arith), r) refl

pub page_param_again :
    (q old : List (Text × Text)) (n : ℤ)
    → page_param old ≡ some n
    → get q (codes "page") ≡ (if ltb_ℤ (pos 1) n then format_int n else [])
    → page_param q ≡ some n
unfolding page_param text_eq
page_param_again q old (negsuc m) h e = absurd (below (page_param-InRange old (negsuc m) h))
  where
    below : ¬ InRange (negsuc m)
    below r = ground arith
page_param_again q old (pos m) h e =
    let r = page_param-InRange old (pos m) h in
    elim (Bool-cases (ltb_ℤ (pos 1) (pos m))) [
      | inl later ↦ later_page q m r (rw later at e)
      | inr first ↦ rw (rw first at e, page_param) (ap (λ k. some (pos k)) (ground arith))
    ]
