-- ===== src/Cache/Find.antt =====
-- The one way into the cache: Find of internal/cache/search.go, with browse, searchIndex, queryIndex
-- and runQuery. The search of the bleve index is an argument.
pub mod Paged
use itchgrep.Base.{
  ℕ, zero, suc, ◌+◌, ◌-◌, ◌*◌, Bool, true, false, not, ◌&&◌, ◌||◌, Option, none, some, List, [],
  ◌∷◌, map, select, any, length, get_elem?, take, drop, ltb, leb, ◌==◌, if◌then◌else◌,
}
use itchgrep.Base.Int.{ℤ, pos, negsuc, wrap64, ltb_ℤ, leb_ℤ}
use itchgrep.Base.Text.{Text, text_eq}
use itchgrep.Base.Text.Maps.{lookup}
use itchgrep.Money.Float.{Float64}
use itchgrep.Models.Tag.{Tag}
use itchgrep.Models.Asset.{
  Asset, Unicode, sort_popular, sort_recent, pricing_under_5, pricing_under_20,
}
use itchgrep.Cache.Options.{SearchOptions, resolved_sort, filtered}
use itchgrep.Cache.Facets.{max_facet_tags, rank_lift}
use itchgrep.Cache.State.{
  Cache, Results, no_results, Answer, found, not_ready, page_start, at_positions,
}
use itchgrep.Cache.Engine.Search.{page_end, page_limit, search_engine}
use itchgrep.Cache.Hits.Key.{hit_cacheable, hit_key}
use itchgrep.Cache.Query.{Bleve, build_query, sort_order, can_fall_back}

-- What Find returns: results, or one of its errors.
pub data Outcome : Type 0 where
  answered : Results → Outcome
  unready : Outcome
  bad_page : Outcome
  index_failed : Outcome

abbrev pub hit_cache_depth : ℕ
hit_cache_depth = 10

-- What a search of the index yields: the total, the ids on the page, and the facet if asked for.
pub record Reply : Type 0 where
  pub total : ℕ
  pub hits : List Text
  pub terms : Option (List Tag)

-- The hits as positions in the assets.
pub record IndexAnswer : Type 0 where
  pub positions : List ℕ
  pub total : ℕ
  pub tags : List Tag
  pub any_word : Bool

unfoldable pub facet_tags : Option (List Tag) → List Text → List Tag
facet_tags none applied = []
facet_tags (some terms) applied = select (λ t. not (any (λ a. text_eq a t.slug) applied)) terms

-- A hit with no asset behind it is dropped.
unfoldable pub positions_of : List (Text × ℕ) → List Text → List ℕ
unfolding lookup
positions_of data_map [] = []
positions_of data_map (id ∷ ids) =
    let rest = positions_of data_map ids in
    elim (lookup id data_map) [ none ↦ rest | some i ↦ i ∷ rest ]

module _ {fl : Float64} where
  unfoldable pub lift_tags : Cache fl → Option (List Tag) → List Text → ℕ → List Tag
  unfolding facet_tags rank_lift
  lift_tags c facet applied total =
      if length c.tag_catalog == 0
      then facet_tags facet applied
      else elim facet [ none ↦ [] | some terms ↦ rank_lift c.tag_catalog terms applied total ]

  unfoldable pub facet_size : Cache fl → SearchOptions → ℕ
  unfolding filtered
  facet_size c opts =
      if filtered opts && ltb max_facet_tags (length c.tag_catalog)
      then length c.tag_catalog
      else max_facet_tags

  -- The page of the popularity order.
  unfoldable pub browse : Cache fl → ℤ → Outcome
  unfolding page_start page_end
  browse c page = elim c.assets [
    | none ↦ unready
    | some assets ↦
        let n = length assets in
        let past = answered (record no_results { total = n; tags = c.tag_counts }) in
        elim (page_start page c.page_size) [
          | negsuc _ ↦ past
          | pos start ↦
              if leb n start
              then past
              else answered (record no_results {
                assets = take (page_end start c.page_size n - start) (drop start assets);
                total = n;
                tags = c.tag_counts;
              })
        ]
  ]

  module _ (uni : Unicode) (b : Bleve fl)
      (index : b.Query → List Text → ℕ → ℕ → Option ℕ → Option Reply) where
    unfoldable pub run_query :
        Cache fl → SearchOptions → List Text → ℕ → ℕ → Bool → Bool → Option IndexAnswer
    unfolding build_query sort_order resolved_sort filtered facet_size lift_tags facet_tags
        positions_of
    run_query c opts like_tags from size facets any_word =
        let query = build_query b uni opts like_tags any_word in
        let facet = if facets then some (facet_size c opts) else none in
        elim (index query (sort_order (resolved_sort opts)) size from facet) [
          | none ↦ none
          | some r ↦ some (record {
            positions = positions_of c.data_map r.hits;
            total = r.total;
            tags =
                if filtered opts
                then lift_tags c r.terms opts.tags r.total
                else facet_tags r.terms opts.tags;
            any_word = false;
          })
        ]

    -- With nothing found for all words, any word is enough.
    unfoldable pub query_index :
        Cache fl → SearchOptions → List Text → ℕ → ℕ → Bool → Option IndexAnswer
    unfolding run_query can_fall_back
    query_index c opts like_tags from size facets =
        let relaxed : Option IndexAnswer = elim (run_query c opts like_tags from size facets true) [
          | none ↦ none
          | some a ↦ some (record a { any_word = ltb 0 a.total })
        ] in
        elim (run_query c opts like_tags from size facets false) [
          | none ↦ none
          | some a ↦ if ltb 0 a.total || not (can_fall_back b opts) then some a else relaxed
        ]

    abbrev pub depth : Cache fl → ℕ
    depth c = hit_cache_depth * c.page_size

    -- The entry of a search: the one held, or the whole depth in one pass.
    unfoldable pub entry_of :
        (Text → Option IndexAnswer) → Cache fl → SearchOptions → List Text → Option IndexAnswer
    unfolding hit_key query_index
    entry_of held c opts like_tags = elim (held (hit_key opts)) [
      | some e ↦ some e
      | none ↦ query_index c opts like_tags 0 (depth c) true
    ]

    -- An entry's page.
    unfoldable pub from_entry : List Asset → SearchOptions → Text → ℕ → ℕ → IndexAnswer → Results
    unfolding at_positions
    from_entry assets opts title from size e = record {
      assets = at_positions assets (take size (drop from e.positions));
      total = e.total;
      tags = if opts.no_facets then [] else e.tags;
      like_title = title;
      any_word_fallback = e.any_word;
    }

    unfoldable pub from_answer : List Asset → Text → IndexAnswer → Results
    unfolding at_positions
    from_answer assets title a = record {
      assets = at_positions assets a.positions;
      total = a.total;
      tags = a.tags;
      like_title = title;
      any_word_fallback = a.any_word;
    }

    -- The answer for one page, through the hit cache where `use_hits` says so and it fits.
    unfoldable pub index_page :
        Bool
        → (Text → Option IndexAnswer)
        → Cache fl
        → List Asset
        → SearchOptions
        → Text
        → List Text
        → ℕ
        → Outcome
    unfolding hit_cacheable entry_of from_entry from_answer query_index
    index_page use_hits held c assets opts title like_tags from =
        let size = page_limit fl c opts in
        let through : Outcome = elim (entry_of held c opts like_tags) [
          | none ↦ index_failed
          | some e ↦ answered (from_entry assets opts title from size e)
        ] in
        let direct : Outcome = elim (query_index c opts like_tags from size (not opts.no_facets)) [
          | none ↦ index_failed
          | some a ↦ answered (from_answer assets title a)
        ] in
        if use_hits && (hit_cacheable opts && leb_ℤ (wrap64 (from + size)) (pos (depth c)))
        then through
        else direct

    unfoldable pub search_index :
        Bool → (Text → Option IndexAnswer) → Cache fl → SearchOptions → Outcome
    unfolding page_start index_page lookup
    search_index use_hits held c opts =
        let assets = elim c.assets as (λ _. List Asset) [ none ↦ [] | some xs ↦ xs ] in
        let page : Text → List Text → Outcome = λ title like_tags.
          elim (page_start opts.page c.page_size) [
            | negsuc _ ↦ answered (record no_results { like_title = title })
            | pos from ↦ index_page use_hits held c assets opts title like_tags from
          ] in
        if not c.indexed
        then unready
        else if text_eq opts.like []
        then page [] []
        else elim (lookup opts.like c.data_map) [
          | none ↦ answered no_results
          | some i ↦ elim (get_elem? assets i) [
            | none ↦ answered no_results
            | some source ↦ page source.title source.tags
          ]
        ]

    -- The orderings and price bands that the dataset cannot answer fall back.
    unfoldable pub offered_options : Cache fl → SearchOptions → SearchOptions
    offered_options c opts =
        let sort =
          if text_eq opts.sort sort_recent && not c.has_recency then sort_popular else opts.sort in
        let banded = text_eq opts.price pricing_under_5 || text_eq opts.price pricing_under_20 in
        record opts {
          sort = sort;
          price = if not c.has_price_bands && banded then [] else opts.price;
        }

    -- Find, once the cache is fresh.
    unfoldable pub find : (Text → Option IndexAnswer) → Cache fl → SearchOptions → Outcome
    unfolding offered_options filtered resolved_sort browse search_engine search_index
    find held c opts =
        let asked = offered_options c opts in
        let engine : Outcome = elim (search_engine uni fl c asked) [
          | some (found r) ↦ answered r
          | some not_ready ↦ unready
          | none ↦ search_index true held c asked
        ] in
        if ltb_ℤ opts.page (pos 1)
        then bad_page
        else if not (filtered asked) && text_eq (resolved_sort asked) sort_popular
        then browse c opts.page
        else engine
