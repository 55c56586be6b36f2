-- ===== src/Cache/Engine/Search/Reference.antt =====
-- The engine against the catalog: what searchEngine answers, said of the assets alone.
use itchgrep.Base.{
  ℕ, ◌+◌, ◌^◌, ◌<◌, ◌≡◌, refl, ap, ◌∙◌, Bool, true, false, Option, none, some, List, [], ◌∷◌, arith,
  length, get_elem?, select, select_congr, take, drop, All, Option-cases, inl, inr, ◌⊎◌,
  get_elem?-lt, get_elem?-some,
}
use itchgrep.Base.Int.{pos, ltb_ℤ}
use itchgrep.Base.Text.{Text, text_eq}
use itchgrep.Money.Float.{Float64}
use itchgrep.Money.Rates.{Rates}
use itchgrep.Base.Text.Maps.{lookup}
use itchgrep.Models.Asset.{Asset, Unicode}
use itchgrep.Cache.Options.{SearchOptions, resolved_sort}
use itchgrep.Cache.State.{Cache, Results, found, page_start, at_positions}
use itchgrep.Cache.Engine.{
  Engine, build_engine, build_rows, empty_table, order_by, title_lt, price_lt, recent_lt, new_lt,
}
use itchgrep.Cache.Engine.Filter.{Filter, filter_for}
use itchgrep.Cache.Engine.Rows.{build_engine-Built, AllFit-at, AllFit-length}
use itchgrep.Cache.Engine.Wanted.{wanted}
use itchgrep.Cache.Engine.Parity.{matches-wanted}
use itchgrep.Cache.Engine.Search.{
  positions, pass, page_positions, engine_page, search_engine, page_limit,
}
use itchgrep.Cache.Engine.Search.Slices.{cut}
use itchgrep.Cache.Engine.Search.Positions.{IsOrdering}
use itchgrep.Cache.Engine.Search.Pages.{passes, pass-IsPage}

All-everywhere : {P : ℕ → Type 0} → ((i : ℕ) → P i) → (xs : List ℕ) → All P xs
All-everywhere h [] = tt
All-everywhere h (x ∷ xs) = (h x, All-everywhere h xs)

-- The asset that `like` names, with its position; without `like`, nothing.
abbrev pub Source :
    (fl : Float64) → Cache fl → List Asset → SearchOptions → Text → List Text → Option ℕ → Type 0
Source fl c assets opts title tags idx =
    ((text_eq opts.like [] ≡ true) × (title ≡ []) × (tags ≡ []) × (idx ≡ none))
    ⊎ ((i : ℕ) × (a : Asset) × (text_eq opts.like [] ≡ false)
        × (lookup opts.like c.data_map ≡ some i)
        × (get_elem? assets i ≡ some a)
        × (title ≡ a.title)
        × (tags ≡ a.tags)
        × (idx ≡ some i))

module _ (uni : Unicode) (fl : Float64) (rates : Rates fl) (assets : List Asset) where
  abbrev pub wanted_at : SearchOptions → List Text → Option ℕ → ℕ → Bool
  wanted_at opts like_tags like_idx i = elim (get_elem? assets i) [
    | none ↦ false
    | some a ↦ wanted uni fl rates opts like_tags like_idx i a
  ]

  module _ (e : Engine fl) (built : build_engine uni fl rates assets ≡ some e) where
    pub build_engine-IsOrdering : IsOrdering fl e
    unfolding build_engine
    build_engine-IsOrdering =
        elim (Option-cases
          (build_rows uni fl rates (record { tags = empty_table; authors = [] }) assets)) [
            | inl full ↦ cc (rw (full, build_engine) at built)
            | inr ((tb, rows), made) ↦
                let same = rw (made, build_engine) at built in
                let whole : Engine fl = record {
                  rows = rows;
                  tables = tb;
                  by_title = order_by fl (title_lt fl) rows;
                  by_price = order_by fl (price_lt fl) rows;
                  by_recent = order_by fl (recent_lt fl) rows;
                  by_new = order_by fl (new_lt fl) rows;
                } in
                let e' : whole ≡ e = cc same in
                rw (← e') (record { title = refl; price = refl; recent = refl; new = refl })
          ]

    -- The wanted positions, in the order asked for.
    abbrev pub wanted_positions : SearchOptions → List Text → Option ℕ → List ℕ
    wanted_positions opts like_tags like_idx =
        select (wanted_at opts like_tags like_idx) (positions fl e (resolved_sort opts))

    module _ (opts : SearchOptions) (like_tags : List Text) (like_idx : Option ℕ) where
      abbrev asked : Filter
      asked = filter_for uni e.tables opts like_tags like_idx

      passes-wanted :
          (start size i : ℕ)
          → passes fl e build_engine-IsOrdering opts asked start size i
            ≡ wanted_at opts like_tags like_idx i
      passes-wanted start size i =
          let (tables, fit) = build_engine-Built uni fl rates assets e built in
          let len : length e.rows ≡ length assets =
            AllFit-length uni fl rates e.tables assets e.rows fit in
          elim (Option-cases (get_elem? assets i)) [
            | inr (a, at) ↦
                let (r, at_row, true_to) =
                  AllFit-at uni fl rates e.tables assets e.rows i a fit at in
                rw (at, at_row, passes, wanted_at)
                  (matches-wanted uni fl rates e.tables tables a r true_to opts like_tags like_idx
                    i)
            | inl out ↦ elim (Option-cases (get_elem? e.rows i)) [
              | inl out_row ↦ rw (out, out_row, passes, wanted_at)
              | inr (r, at_row) ↦
                  let lt : i < length assets = omega (arith, len, get_elem?-lt e.rows i r at_row) in
                  let (a, at) = get_elem?-some assets i lt in cc
            ]
          ]

      -- The pass over the rows gives a page of the wanted positions.
      pub page-wanted :
          (start size : ℕ)
          → ltb_ℤ opts.min_first_seen (pos 0) ≡ false
          → start + size < 2 ^ 63
          → ((pass fl e opts asked start size).total
              ≡ length (wanted_positions opts like_tags like_idx))
            × (page_positions
                  (positions fl e (resolved_sort opts))
                  (pass fl e opts asked start size)
                  start
                  size
                ≡ take size (drop start (wanted_positions opts like_tags like_idx)))
      page-wanted start size m fits =
          let same : select (passes fl e build_engine-IsOrdering opts asked start size)
                (positions fl e (resolved_sort opts))
              ≡ wanted_positions opts like_tags like_idx =
            select_congr (passes fl e build_engine-IsOrdering opts asked start size)
              (wanted_at opts like_tags like_idx) (positions fl e (resolved_sort opts))
              (All-everywhere (λ i. passes-wanted start size i)
                (positions fl e (resolved_sort opts))) in
          let (total, page) =
            pass-IsPage fl e build_engine-IsOrdering opts asked start size
              (unfold filter_for in refl) m fits in
          (total ∙ ap length same, page ∙ ap (cut start size) same)

    -- What the engine answers.
    abbrev pub Shows : SearchOptions → List Text → Option ℕ → ℕ → ℕ → Results → Type 0
    Shows opts like_tags like_idx start size r =
        (r.total ≡ length (wanted_positions opts like_tags like_idx))
        × (r.assets
            ≡ at_positions assets
                (take size (drop start (wanted_positions opts like_tags like_idx))))

    engine_page-Shows :
        (c : Cache fl) (opts : SearchOptions) (title : Text) (tags : List Text) (idx : Option ℕ)
        (start : ℕ)
        → page_start opts.page c.page_size ≡ pos start
        → ltb_ℤ opts.min_first_seen (pos 0) ≡ false
        → start + page_limit fl c opts < 2 ^ 63
        → (r : Results) × (engine_page uni fl c e assets opts title tags idx ≡ found r)
          × (r.like_title ≡ title)
          × Shows opts tags idx start (page_limit fl c opts) r
    unfolding engine_page
    engine_page-Shows c opts title tags idx start h m fits =
        let (total, page) = page-wanted opts tags idx start (page_limit fl c opts) m fits in
        rw (h, engine_page) (_, refl, refl, (total, ap (at_positions assets) page))

    -- For a cache with the catalog and its built engine, a request with no text query, with no
    -- like or one that names an asset, with a page whose start and end do not wrap and a first
    -- sighting that is not negative, is answered. The total is the number of positions whose
    -- assets are wanted, the assets are those at the wanted positions from the start of the page
    -- on, in the order asked for and at most as many as the limit, and the title is that of the
    -- like asset.
    pub search_engine-Shows :
        (c : Cache fl) (opts : SearchOptions) (title : Text) (tags : List Text) (idx : Option ℕ)
        (start : ℕ)
        → c.eng ≡ some e
        → c.assets ≡ some assets
        → text_eq opts.query [] ≡ true
        → Source fl c assets opts title tags idx
        → page_start opts.page c.page_size ≡ pos start
        → ltb_ℤ opts.min_first_seen (pos 0) ≡ false
        → start + page_limit fl c opts < 2 ^ 63
        → (r : Results) × (search_engine uni fl c opts ≡ some (found r))
          × (r.like_title ≡ title)
          × Shows opts tags idx start (page_limit fl c opts) r
    unfolding search_engine
    search_engine-Shows c opts title tags idx start he ha hq src h m fits =
        let (r, page, like_title, shown) = engine_page-Shows c opts title tags idx start h m fits in
        let answered : search_engine uni fl c opts
            ≡ some (engine_page uni fl c e assets opts title tags idx) =
          elim src [
            | inl (no_like, et, eg, ei) ↦ ground (arith, he, ha, hq, no_like, et, eg, ei)
            | inr (i, a, like, at, held, et, eg, ei) ↦
                ground (arith, he, ha, hq, like, at, held, et, eg, ei)
          ] in
        (r, answered ∙ ap some page, like_title, shown)
