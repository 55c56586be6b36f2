-- ===== src/Cache/Engine/Rows.antt =====
-- The rows of a built engine: one for each asset, in the assets' order, each true to its asset.
use itchgrep.Base.{
  ℕ, zero, suc, ◌≡◌, refl, ap, some, List, [], ◌∷◌, arith, length, get_elem?, inl, inr,
  Option-cases,
}
use itchgrep.Base.Text.{Text}
use itchgrep.Base.Text.Space.{trim_space}
use itchgrep.Money.Float.{Float64}
use itchgrep.Money.Rates.{Rates}
use itchgrep.Models.Asset.{
  Asset, Unicode, author_key, price_usd, free, first_seen_unix, recency_rank,
}
use itchgrep.Cache.Engine.{
  Engine, Row, Table, Tables, empty_table, intern_all, intern_author, row_of, build_rows,
  build_engine,
}
use itchgrep.Cache.Engine.Intern.{
  IsTable, Extends, Extends-refl, Extends-trans, Stands, Stands-extend, InternedAll,
  intern_all-InternedAll, run_of-Stands, empty_table-IsTable,
}
use itchgrep.Cache.Engine.Authors.{IsAuthors, Keeps, Names, nil-IsAuthors, intern_author-Entered}

pub record IsTables (tb : Tables) : Type 0 where
  pub tags : IsTable tb.tags
  pub authors : IsAuthors tb.authors

pub record Grows (tb tb' : Tables) : Type 0 where
  pub tags : Extends tb.tags tb'.tags
  pub authors : Keeps tb.authors tb'.authors

module _ (uni : Unicode) (fl : Float64) (rates : Rates fl) where
  -- The row says of its asset what the filters ask.
  pub record Fits (tb : Tables) (a : Asset) (r : Row fl) : Type 0 where
    pub title_key : r.title_key ≡ uni.to_lower (trim_space a.title)
    pub recency : r.recency ≡ recency_rank a
    pub usd : r.usd ≡ (price_usd uni fl rates a).0
    pub free : r.free ≡ free a
    pub first_seen : r.first_seen ≡ first_seen_unix a
    pub run : Stands tb.tags r.run a.tags
    pub author : Names tb.authors r.author (author_key uni a.author)

  abbrev pub AllFit : Tables → List Asset → List (Row fl) → Type 0
  AllFit tb [] [] = Unit
  AllFit tb [] (r ∷ rows) = ⊥
  AllFit tb (a ∷ assets) [] = ⊥
  AllFit tb (a ∷ assets) (r ∷ rows) = Fits tb a r × AllFit tb assets rows

  -- What the loop over the assets gives.
  pub record Built (tb : Tables) (assets : List Asset) (tb' : Tables) (rows : List (Row fl))
      : Type 0 where
    pub valid : IsTables tb'
    pub grows : Grows tb tb'
    pub fit : AllFit tb' assets rows

  Names-keep :
      (old new : List (Text × ℕ)) (id : ℕ) (key : Text)
      → Keeps old new
      → Names old id key
      → Names new id key
  Names-keep old new id key k n = elim n [ inl e ↦ inl e | inr e ↦ inr (k key id e) ]

  row_of-Fits :
      (tb tb' : Tables) (a : Asset) (ids : List ℕ) (id : ℕ)
      → Grows tb tb'
      → Stands tb.tags ids a.tags
      → Names tb.authors id (author_key uni a.author)
      → Fits tb' a (row_of uni fl rates a ids id)
  unfolding row_of
  row_of-Fits tb tb' a ids id g s n = record {
    title_key = refl;
    recency = refl;
    usd = refl;
    free = refl;
    first_seen = refl;
    run = Stands-extend g.tags (run_of-Stands tb.tags ids a.tags s);
    author = Names-keep tb.authors tb'.authors id (author_key uni a.author) g.authors n;
  }

  -- The tables after the first asset.
  abbrev tables_after : Tables → Asset → Table → Tables
  tables_after tb a tags = record {
    tags = tags;
    authors = (intern_author tb.authors (author_key uni a.author)).0;
  }

  build_rows-cons :
      (tb : Tables) (a : Asset) (assets : List Asset) (tags : Table) (ids : List ℕ) (tb' : Tables)
      (rows : List (Row fl))
      → intern_all tb.tags a.tags ≡ some (tags, ids)
      → build_rows uni fl rates (tables_after tb a tags) assets ≡ some (tb', rows)
      → build_rows uni fl rates tb (a ∷ assets)
        ≡ some (
          tb',
          row_of uni fl rates a ids (intern_author tb.authors (author_key uni a.author)).1 ∷ rows,
        )
  unfolding build_rows
  build_rows-cons tb a assets tags ids tb' rows e r = rw (e, build_rows, r)

  Built-cons :
      (tb : Tables) (a : Asset) (assets : List Asset) (tags : Table) (ids : List ℕ) (tb' : Tables)
      (rows : List (Row fl))
      → IsTables tb
      → InternedAll tb.tags a.tags tags ids
      → Built (tables_after tb a tags) assets tb' rows
      → Built tb
          (a ∷ assets)
          tb'
          (row_of uni fl rates a ids (intern_author tb.authors (author_key uni a.author)).1 ∷ rows)
  Built-cons tb a assets tags ids tb' rows v one rest =
      let who = intern_author-Entered tb.authors (author_key uni a.author) v.authors in
      record {
        valid = rest.valid;
        grows = record {
          tags = Extends-trans one.extends rest.grows.tags;
          authors = λ key id h. rest.grows.authors key id (who.keeps key id h);
        };
        fit = (
          row_of-Fits (tables_after tb a tags) tb' a ids
              (intern_author tb.authors (author_key uni a.author)).1 rest.grows one.stands
              who.names,
          rest.fit,
        );
      }

  build_rows-Built :
      (tb : Tables) (assets : List Asset) (tb' : Tables) (rows : List (Row fl))
      → IsTables tb
      → build_rows uni fl rates tb assets ≡ some (tb', rows)
      → Built tb assets tb' rows
  build_rows-Built tb [] tb' rows v h =
      let e : tb ≡ tb' = unfold build_rows in cc h in
      let e' : [] ≡ rows = unfold build_rows in cc h in
      rw (← e, ← e')
        (record {
          valid = v;
          grows = record { tags = Extends-refl tb.tags; authors = λ key id q. q };
          fit = tt;
        })
  build_rows-Built tb (a ∷ assets) tb' rows v h = elim (Option-cases (intern_all tb.tags a.tags)) [
    | inl full ↦ unfold build_rows in cc (rw (full, build_rows) at h)
    | inr ((tags, ids), first) ↦
        elim (Option-cases (build_rows uni fl rates (tables_after tb a tags) assets)) [
          | inl full ↦ unfold build_rows in cc (rw (first, build_rows, full) at h)
          | inr ((end, rest), later) ↦
              let one = intern_all-InternedAll tb.tags a.tags tags ids v.tags first in
              let who = intern_author-Entered tb.authors (author_key uni a.author) v.authors in
              let made = build_rows-cons tb a assets tags ids end rest first later in
              let e : end ≡ tb' = cc made in
              let e' : row_of uni fl rates a ids
                      (intern_author tb.authors (author_key uni a.author)).1
                    ∷ rest
                  ≡ rows =
                cc made in
              rw (← e, ← e')
                (Built-cons tb a assets tags ids end rest v one (
                  build_rows-Built (tables_after tb a tags) assets end rest
                    (record { tags = one.valid; authors = who.valid }) later))
        ]
  ]

  -- The tables and the rows of a built engine are those of the loop.
  build_engine-rows :
      (assets : List Asset) (e : Engine fl)
      → build_engine uni fl rates assets ≡ some e
      → build_rows uni fl rates (record { tags = empty_table; authors = [] }) assets
        ≡ some (e.tables, e.rows)
  unfolding build_engine
  build_engine-rows assets e h = ground arith

  pub build_engine-Built :
      (assets : List Asset) (e : Engine fl)
      → build_engine uni fl rates assets ≡ some e
      → IsTables e.tables × AllFit e.tables assets e.rows
  build_engine-Built assets e h =
      let b =
        build_rows-Built (record { tags = empty_table; authors = [] }) assets e.tables e.rows
          (record { tags = empty_table-IsTable; authors = nil-IsAuthors })
          (build_engine-rows assets e h) in
      (b.valid, b.fit)

  -- The row at an asset's position is true to the asset.
  pub AllFit-at :
      (tb : Tables) (assets : List Asset) (rows : List (Row fl)) (i : ℕ) (a : Asset)
      → AllFit tb assets rows
      → get_elem? assets i ≡ some a
      → (r : Row fl) × (get_elem? rows i ≡ some r) × Fits tb a r
  AllFit-at tb [] rows i a fit h = cc
  AllFit-at tb (b ∷ assets) [] i a fit h = elim fit [ ]
  AllFit-at tb (b ∷ assets) (r ∷ rows) zero a fit h =
      let e : b ≡ a = cc in (r, refl, rw (← e) fit.0)
  AllFit-at tb (b ∷ assets) (r ∷ rows) (suc i) a fit h = AllFit-at tb assets rows i a fit.1 h

  pub AllFit-length :
      (tb : Tables) (assets : List Asset) (rows : List (Row fl))
      → AllFit tb assets rows
      → length rows ≡ length assets
  AllFit-length tb [] [] fit = refl
  AllFit-length tb [] (r ∷ rows) fit = elim fit [ ]
  AllFit-length tb (a ∷ assets) [] fit = elim fit [ ]
  AllFit-length tb (a ∷ assets) (r ∷ rows) fit = ap suc (AllFit-length tb assets rows fit.1)
