-- ===== src/Cache/Engine/Search.antt =====
-- searchEngine of internal/cache/engine.go: the sweep over the rows, the walk down an ordering and
-- the answer.
pub mod Marks
pub mod Walk
pub mod Orders
pub mod Newest
pub mod Slices
pub mod Positions
pub mod Pages
pub mod Reference
pub mod Sorted
use itchgrep.Base.{
  ℕ, zero, suc, ◌+◌, ◌-◌, ◌<◌, Bool, true, false, not, ◌&&◌, ◌||◌, Option, none, some, List, [],
  ◌∷◌, ◌++◌, map, ltb, leb, ◌==◌, length, get_elem?, take, drop, if◌then◌else◌,
}
use itchgrep.Base.Int.{ℤ, pos, negsuc, wrap64, ltb_ℤ, pos_part}
use itchgrep.Base.Search.{search_index}
use itchgrep.Base.Text.{Text, text_eq}
use itchgrep.Money.Float.{Float64}
use itchgrep.Base.Text.Maps.{lookup}
use itchgrep.Models.Tag.{Tag}
use itchgrep.Models.Asset.{Asset, Unicode, sort_new}
use itchgrep.Cache.Options.{SearchOptions, resolved_sort, filtered}
use itchgrep.Cache.Facets.{rank_lift}
use itchgrep.Cache.State.{
  Cache, Results, no_results, Answer, found, not_ready, page_start, at_positions,
}
use itchgrep.Cache.Engine.{Engine, Row, order}
use itchgrep.Cache.Engine.Filter.{Filter, filter_for, matches, pure}

-- counts[t]++ for every tag of a run; an id past the end has no counter.
unfoldable pub bump_at : ℕ → List ℕ → List ℕ
bump_at k [] = []
bump_at zero (n ∷ ns) = suc n ∷ ns
bump_at (suc k) (n ∷ ns) = n ∷ bump_at k ns

unfoldable pub bump_run : List ℕ → List ℕ → List ℕ
unfolding bump_at
bump_run [] counts = counts
bump_run (k ∷ ks) counts = bump_run ks (bump_at k counts)

abbrev pub zeros : ℕ → List ℕ
zeros zero = []
zeros (suc n) = 0 ∷ zeros n

pub record Sweep : Type 0 where
  pub bits : List Bool
  pub total : ℕ
  pub counts : List ℕ

-- The positions 0 to n-1.
abbrev pub iota : ℕ → ℕ → List ℕ
iota i zero = []
iota i (suc n) = i ∷ iota (suc i) n

abbrev pub bit_at : List Bool → ℕ → Bool
bit_at bits i = elim (get_elem? bits i) [ none ↦ false | some b ↦ b ]

module _ (fl : Float64) where
  -- The loop over the rows, from position `i`.
  unfoldable pub sweep : Filter → Bool → ℕ → List (Row fl) → Sweep → Sweep
  unfolding bump_run
  sweep f want_tags i [] s = s
  sweep f want_tags i (r ∷ rows) s = sweep f want_tags (suc i) rows (
      if matches fl f i r
      then record {
        bits = s.bits ++ (true ∷ []);
        total = s.total + 1;
        counts = if want_tags then bump_run r.run s.counts else s.counts;
      }
      else record s { bits = s.bits ++ (false ∷ []) })

  abbrev pub first_seen_at : List (Row fl) → ℕ → ℤ
  first_seen_at rows i = elim (get_elem? rows i) [ none ↦ pos 0 | some r ↦ r.first_seen ]

  -- The positions in the order of one sort.
  unfoldable pub positions : Engine fl → Text → List ℕ
  unfolding order
  positions e key = elim (order fl e key) [ none ↦ iota 0 (length e.rows) | some os ↦ os ]

-- The walk down the ordering: from `seen` matches, the positions of the matches from the
-- `start`-th up to, and not including, the `need`-th.
unfoldable pub walk : List Bool → List ℕ → ℕ → ℤ → ℕ → List ℕ
walk bits [] start need seen = []
walk bits (i ∷ rest) start need seen =
    let hit = walk bits rest start need (seen + 1) in
    let miss = walk bits rest start need seen in
    if ltb_ℤ (pos seen) need
    then (if bit_at bits i then (if leb start seen then i ∷ hit else hit) else miss)
    else []

-- The end of a page: start+size, unless that wraps or passes the total.
unfoldable pub page_end : ℕ → ℕ → ℕ → ℕ
unfolding wrap64
page_end start size total =
    let end = wrap64 (start + size) in
    if ltb_ℤ end (pos start) || ltb_ℤ (pos total) end then total else pos_part end

-- The number of matches, the page's positions if the walk was made, and the tag counts.
pub record Pass : Type 0 where
  pub total : ℕ
  pub page : List ℕ
  pub counts : List ℕ

module _ (fl : Float64) where
  -- The switch over the shapes of a request.
  unfoldable pub pass : Engine fl → SearchOptions → Filter → ℕ → ℕ → Pass
  unfolding sweep walk search_index
  pass e opts f start size =
      let os = positions fl e (resolved_sort opts) in
      let want_tags = not opts.no_facets in
      let counted = sweep fl f want_tags 0 e.rows (record {
        bits = [];
        total = 0;
        counts = if want_tags then zeros (length e.tables.tags.slugs) else [];
      }) in
      if f.nothing
      then record { total = 0; page = []; counts = [] }
      else if pure f
          && (not (ltb_ℤ opts.min_first_seen (pos 0) || ltb_ℤ (pos 0) opts.min_first_seen)
              && not (want_tags && filtered opts))
      then record { total = length e.rows; page = []; counts = [] }
      else if pure f && (text_eq (resolved_sort opts) sort_new && not want_tags)
      then record {
        total = search_index (length e.rows) (λ k. elim (get_elem? os k) [
          | none ↦ true
          | some i ↦ ltb_ℤ (first_seen_at fl e.rows i) opts.min_first_seen
        ]);
        page = [];
        counts = [];
      }
      else record {
        total = counted.total;
        page =
            if ltb start counted.total
            then walk counted.bits os start (wrap64 (start + size)) 0
            else [];
        counts = counted.counts;
      }

-- The tags with a count above 0, in the order of their ids.
unfoldable pub counted_tags : List Text → List ℕ → List Tag
counted_tags slugs [] = []
counted_tags [] (n ∷ ns) = []
counted_tags (t ∷ slugs) (n ∷ ns) =
    let rest = counted_tags slugs ns in
    if ltb 0 n then record { slug = t; count = n } ∷ rest else rest

unfoldable pub page_positions : List ℕ → Pass → ℕ → ℕ → List ℕ
unfolding page_end
page_positions os p start size =
    if length p.page == 0 && (ltb start p.total && ltb 0 size)
    then take (page_end start size p.total - start) (drop start os)
    else p.page

module _ (fl : Float64) where
  unfoldable pub sidebar : Cache fl → Engine fl → SearchOptions → Pass → List Tag
  unfolding rank_lift counted_tags
  sidebar c e opts p =
      if opts.no_facets
      then []
      else if not (filtered opts)
      then c.tag_counts
      else rank_lift c.tag_catalog (counted_tags e.tables.tags.slugs p.counts) opts.tags p.total

  abbrev pub page_limit : Cache fl → SearchOptions → ℕ
  page_limit c opts = if ltb_ℤ (pos 0) opts.limit then pos_part opts.limit else c.page_size

module _ (uni : Unicode) (fl : Float64) where
  -- The answer once the source of `like` is known.
  unfoldable pub engine_page :
      Cache fl → Engine fl → List Asset → SearchOptions → Text → List Text → Option ℕ → Answer
  unfolding page_start pass page_positions sidebar at_positions filter_for
  engine_page c e assets opts like_title like_tags like_idx =
      elim (page_start opts.page c.page_size) [
        | negsuc _ ↦ found (record no_results { like_title = like_title })
        | pos start ↦
            let size = page_limit fl c opts in
            let f = filter_for uni e.tables opts like_tags like_idx in
            let p = pass fl e opts f start size in
            found (record {
              assets =
                  at_positions assets
                    (page_positions (positions fl e (resolved_sort opts)) p start size);
              total = p.total;
              tags = sidebar fl c e opts p;
              like_title = like_title;
              any_word_fallback = false;
            })
      ]

  -- `none` when the engine does not take the request.
  unfoldable pub search_engine : Cache fl → SearchOptions → Option Answer
  unfolding engine_page lookup
  search_engine c opts = elim c.eng [
    | none ↦ none
    | some e ↦ if not (text_eq opts.query []) then none else elim c.assets [
      | none ↦ some not_ready
      | some assets ↦
          if text_eq opts.like []
          then some (engine_page c e assets opts [] [] none)
          else elim (lookup opts.like c.data_map) [
            | none ↦ some (found no_results)
            | some idx ↦ elim (get_elem? assets idx) [
              | none ↦ some (found no_results)
              | some source ↦ some (engine_page c e assets opts source.title source.tags (some idx))
            ]
          ]
    ]
  ]
