-- ===== src/Web/Handlers.antt =====
-- The handlers of result pages: HandleIndex, HandleResults, HandleResultsTags, HandleNew and
-- HandleTag with what they decide, of internal/web/handlers.go and tag.go. Times are nanoseconds, and
-- `none` is the zero time.
pub mod Redirect
pub mod Errors
use itchgrep.Base.{
  ℕ, ◌+◌, ◌-◌, ◌*◌, ◌%◌, Bool, true, false, not, ◌&&◌, ◌||◌, Option, none, some, List, [], ◌∷◌,
  ◌++◌, length, ltb, ◌==◌, if◌then◌else◌,
}
use itchgrep.Base.Int.{ℤ, pos, negsuc, ltb_ℤ}
use itchgrep.Base.Text.{Text, codes, text_eq}
use itchgrep.Money.Float.{Float64}
use itchgrep.Money.Rates.{Rates}
use itchgrep.Models.Asset.{Unicode, sort_new}
use itchgrep.Cache.Options.{SearchOptions}
use itchgrep.Cache.State.{Results}
use itchgrep.Cache.Find.{Outcome, answered, unready, bad_page, index_failed}
use itchgrep.Web.Filters.{Filters}
use itchgrep.Web.Params.{get, normalize_tag, page_param, parse_filter_values}
use itchgrep.Web.Address.{Url, Incoming, page_url, share_url, requested_form}

abbrev pub no_store : Text
no_store = codes "no-store"

-- max-age by fragmentMaxAge, and s-maxage by edgeMaxAge.
abbrev pub brief_policy : Text
brief_policy = codes "public, max-age=300"

abbrev pub long_policy : Text
long_policy = codes "public, max-age=300, s-maxage=3600"

abbrev pub max_new_assets : ℕ
max_new_assets = 72

-- What the handlers read of the server: the exchange rates, the time of the data, once they are
-- brought up to date, the start of the process, the tags of the site, and the cache.
pub record Server (fl : Float64) : Type 0 where
  pub rates : Rates fl
  pub data_time : Option ℕ
  pub started : ℕ
  pub has_tag : Text → Bool
  pub find : SearchOptions → Outcome

-- The status, the headers, and the results that are rendered.
pub record Reply : Type 0 where
  pub status : ℕ
  pub cache_control : Text
  pub dated : Option ℕ
  pub location : Option Text
  pub push_url : Option Text
  pub shown : Option Results

abbrev pub bare_reply : ℕ → Text → Reply
bare_reply status policy = record {
  status = status;
  cache_control = policy;
  dated = none;
  location = none;
  push_url = none;
  shown = none;
}

-- lastModified, where the data have a time.
unfoldable pub last_modified : ℕ → Option ℕ → Option ℕ
last_modified started none = none
last_modified started (some updated) =
    let t = if ltb updated started then started else updated in some (t - t % 1000000000)

-- cacheable and cacheableBriefly.
abbrev pub dated_reply : Text → Option ℕ → ℕ → Reply
dated_reply policy t status = record (bare_reply status policy) { dated = t }

unfoldable pub policy_for : ℤ → Results → Text
policy_for page res =
    if ltb_ℤ (pos 1) page && length res.assets == 0 then brief_policy else long_policy

unfoldable pub status_for : Outcome → ℕ
status_for (answered res) = 200
status_for unready = 503
status_for bad_page = 500
status_for index_failed = 500

unfoldable pub options_of : Filters → ℤ → Bool → SearchOptions
options_of f page facets = record {
  query = f.query;
  tags = f.tags;
  exclude_tags = f.not_tags;
  author = f.author;
  price = f.price;
  sort = f.sort;
  page = page;
  min_first_seen = pos 0;
  limit = pos 0;
  like = f.like;
  no_facets = not facets;
}

abbrev pub new_options : SearchOptions
new_options = record {
  query = [];
  tags = [];
  exclude_tags = [];
  author = [];
  price = [];
  sort = sort_new;
  page = pos 1;
  min_first_seen = pos 1;
  limit = pos max_new_assets;
  like = [];
  no_facets = true;
}

abbrev pub is_first : ℤ → Bool
is_first (pos n) = n == 1
is_first (negsuc n) = false

-- The end of a handler, by what Find returns.
unfoldable pub render : Option ℕ → (Results → Text) → Outcome → Reply
unfolding status_for
render t policy (answered res) = record (bare_reply 200 (policy res)) {
  dated = t;
  shown = some res;
}
render t policy unready = bare_reply (status_for unready) no_store
render t policy bad_page = bare_reply (status_for bad_page) no_store
render t policy index_failed = bare_reply (status_for index_failed) no_store

module _ (uni : Unicode) (to_upper : Text → Text) (fl : Float64) (u : Url)
    (parse_time : Text → Option ℕ) where
  abbrev pub filters_of : Server fl → Incoming → Filters
  filters_of s r = parse_filter_values uni to_upper fl s.rates (u.decode r.raw_query)

  -- A later page revalidates under the brief policy.
  abbrev pub revalidated : Option ℤ → Text
  revalidated none = long_policy
  revalidated (some n) = if ltb_ℤ (pos 1) n then brief_policy else long_policy

  -- The 304, or `none` to go on.
  unfoldable pub not_modified : Server fl → Incoming → Option Reply
  unfolding last_modified page_param
  not_modified s r =
      if not r.reads || (text_eq r.since [] || not (text_eq r.none_match []))
      then none
      else elim (last_modified s.started s.data_time) [
        | none ↦ none
        | some t ↦ elim (parse_time r.since) [
          | none ↦ none
          | some asked ↦
              if ltb asked t
              then none
              else some (dated_reply (revalidated (page_param (u.decode r.raw_query))) (some t) 304)
        ]
      ]

  unfoldable pub handle_index : Server fl → Incoming → Reply
  handle_index s r =
      let f = filters_of s r in
      elim (page_param (u.decode r.raw_query)) [
        | none ↦ bare_reply 400 no_store
        | some n ↦
            if not (text_eq (page_url u f n) (requested_form r))
            then record (bare_reply 302 brief_policy) { location = some (page_url u f n) }
            else elim (not_modified s r) [
              | some reply ↦ reply
              | none ↦
                  render (last_modified s.started s.data_time) (policy_for n)
                    (s.find (options_of f n true))
            ]
      ]

  -- The fragment: the address is pushed for the first page only.
  unfoldable pub handle_results : Server fl → Incoming → Reply
  handle_results s r =
      let f = filters_of s r in
      elim (page_param (u.decode r.raw_query)) [
        | none ↦ bare_reply 400 no_store
        | some n ↦
            let first = is_first n in
            let push : Option Text = if first then some (share_url u f) else none in
            let reply : Reply = elim (not_modified s r) [
              | some reply ↦ reply
              | none ↦
                  render (last_modified s.started s.data_time) (policy_for n)
                    (s.find (options_of f n first))
            ] in
            record reply { push_url = push }
      ]

  unfoldable pub handle_results_tags : Server fl → Incoming → Reply
  handle_results_tags s r = elim (not_modified s r) [
    | some reply ↦ reply
    | none ↦
        render (last_modified s.started s.data_time) (λ _. long_policy)
          (s.find (options_of (filters_of s r) (pos 1) true))
  ]

  unfoldable pub handle_new : Server fl → Incoming → Reply
  handle_new s r = elim (not_modified s r) [
    | some reply ↦ reply
    | none ↦ render (last_modified s.started s.data_time) (λ _. long_policy) (s.find new_options)
  ]

  -- HandleTag of internal/web/tag.go, for the slug of the path.
  unfoldable pub handle_tag : Server fl → Text → Incoming → Reply
  handle_tag s raw r =
      let slug = normalize_tag uni raw in
      let filters : Filters = record {
        query = [];
        tags = slug ∷ [];
        not_tags = [];
        author = [];
        price = [];
        sort = [];
        like = [];
        currency = [];
        all_tags = text_eq (get (u.decode r.raw_query) (codes "alltags")) (codes "1");
      } in
      if text_eq slug [] || not (s.has_tag slug)
      then bare_reply 404 no_store
      else if not (text_eq raw slug)
      then record (bare_reply 301 []) { location = some (codes "/tag/" ++ slug) }
      else elim (page_param (u.decode r.raw_query)) [
        | none ↦ bare_reply 400 no_store
        | some n ↦ elim (not_modified s r) [
          | some reply ↦ reply
          | none ↦
              render (last_modified s.started s.data_time) (policy_for n)
                (s.find (options_of filters n true))
        ]
      ]
