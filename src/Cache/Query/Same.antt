-- ===== src/Cache/Query/Same.antt =====
-- The index is asked for just the assets that the engine would select: buildQueryMode of
-- internal/cache/search.go on a request with no text, against what the request asks of an asset.
use mathlib.Core.Path.{subst}
use itchgrep.Base.{
  ℕ, ◌≡◌, refl, sym, ap, ◌∙◌, Bool, false, not, ◌&&◌, ◌||◌, Option, List, [], ◌∷◌, ◌++◌, arith, any,
  all, All, Bool-cases, inl, inr,
}
use itchgrep.Base.Int.{ℤ, pos, ltb_ℤ}
use itchgrep.Base.Text.{Text, text_eq, text_eq_iff, join}
use itchgrep.Money.Float.{Float64}
use itchgrep.Money.Rates.{Rates}
use itchgrep.Models.Asset.{
  Asset, Unicode, author_key, price_usd, free, pricing, first_seen_unix, pricing_free, pricing_paid,
  pricing_under_5, pricing_under_20,
}
use itchgrep.Models.Indexed.{IndexedAsset, new_indexed_asset}
use itchgrep.Cache.Options.{SearchOptions}
use itchgrep.Cache.Engine.Filter.{in_band, is_source}
use itchgrep.Cache.Engine.Wanted.{carries, is_by, wanted}
use itchgrep.Cache.Query.{
  Bleve, split_phrases, text_queries, tag_queries, author_queries, price_query, first_seen_queries,
  like_queries, conjuncts, exclusions, assemble, build_query,
}
use itchgrep.Cache.Query.Accepts.{Exact, IsBleve}

all-append : {A : Type 0} (p : A → Bool) (xs ys : List A) → all p (xs ++ ys) ≡ all p xs && all p ys
all-append p [] ys = refl
all-append p (x ∷ xs) ys = ground (arith, all-append p xs ys)

any-append : {A : Type 0} (p : A → Bool) (xs ys : List A) → any p (xs ++ ys) ≡ any p xs || any p ys
any-append p [] ys = refl
any-append p (x ∷ xs) ys = ground (arith, any-append p xs ys)

all-append_five :
    {A : Type 0} (p : A → Bool) (x a b c d e : List A)
    → x ≡ []
    → all p (x ++ (a ++ (b ++ (c ++ (d ++ e)))))
      ≡ all p a && (all p b && (all p c && (all p d && all p e)))
all-append_five p x a b c d e none_of = rw none_of (
    ground (
      arith,
      all-append p a (b ++ (c ++ (d ++ e))),
      all-append p b (c ++ (d ++ e)),
      all-append p c (d ++ e),
      all-append p d e,
    ))

abbrev pub Named : List Text → Type 0
Named ts = All (λ t. text_eq t [] ≡ false) ts

-- What the index has of an asset.
abbrev pub document : Unicode → (fl : Float64) → Rates fl → Asset → IndexedAsset fl
document uni fl rates a = new_indexed_asset uni fl a (price_usd uni fl rates a).0

module _ (uni : Unicode) (fl : Float64) (rates : Rates fl) (b : Bleve fl)
    (accepts : b.Query → IndexedAsset fl → Bool) (bleve : IsBleve b accepts) (a : Asset) where
  abbrev doc : IndexedAsset fl
  doc = document uni fl rates a

  assemble-accepts :
      (qs xs : List b.Query)
      → accepts (assemble b qs xs) doc
        ≡ all (λ q. accepts q doc) qs && not (any (λ q. accepts q doc) xs)
  unfolding assemble
  assemble-accepts [] [] = bleve.all_accepted doc
  assemble-accepts (q ∷ []) [] = ground arith
  assemble-accepts (q ∷ r ∷ qs) [] = ground (arith, bleve.of_conjunction q (r ∷ qs) doc)
  assemble-accepts [] (x ∷ xs) =
      ground (arith, bleve.of_must b.match_all [] (x ∷ xs) doc, bleve.all_accepted doc)
  assemble-accepts (q ∷ qs) (x ∷ xs) = bleve.of_must q qs (x ∷ xs) doc

  all-tag_queries :
      (ts : List Text)
      → Named ts
      → all (λ q. accepts q doc) (tag_queries b ts) ≡ all (λ t. carries a.tags t) ts
  unfolding tag_queries new_indexed_asset
  all-tag_queries [] h = refl
  all-tag_queries (t ∷ ts) h = ground (arith, bleve.of_tag t doc h.0, all-tag_queries ts h.1)

  any-tag_queries :
      (ts : List Text)
      → Named ts
      → any (λ q. accepts q doc) (tag_queries b ts) ≡ any (λ t. carries a.tags t) ts
  unfolding tag_queries new_indexed_asset
  any-tag_queries [] h = refl
  any-tag_queries (t ∷ ts) h = ground (arith, bleve.of_tag t doc h.0, any-tag_queries ts h.1)

  author_queries-accepts :
      (author : Text)
      → (text_eq author [] ≡ false → text_eq (author_key uni author) [] ≡ false)
      → all (λ q. accepts q doc) (author_queries b uni author) ≡ is_by uni author a
  unfolding author_queries is_by new_indexed_asset
  author_queries-accepts author named = elim (Bool-cases (text_eq author [])) [
    | inl e ↦ rw e
    | inr e ↦ rw e (ground (arith, bleve.of_author (author_key uni author) doc (named e), named e))
  ]

  abbrev Priced : Text → Type 0
  Priced price =
      all (λ q. accepts q doc) (price_query b price)
      ≡ in_band fl price (free a) (price_usd uni fl rates a).0

  Priced-free : Priced pricing_free
  unfolding price_query in_band new_indexed_asset pricing text_eq
  Priced-free = ground (arith, bleve.of_pricing pricing_free doc refl)

  Priced-paid : Priced pricing_paid
  unfolding price_query in_band new_indexed_asset pricing text_eq
  Priced-paid = ground (arith, bleve.of_pricing pricing_paid doc refl)

  Priced-under_5 : Priced pricing_under_5
  unfolding price_query in_band new_indexed_asset text_eq
  Priced-under_5 = ground (arith, bleve.of_between (fl.of_nat 0) (fl.of_nat 5) doc)

  Priced-under_20 : Priced pricing_under_20
  unfolding price_query in_band new_indexed_asset text_eq
  Priced-under_20 = ground (arith, bleve.of_between (fl.of_nat 0) (fl.of_nat 20) doc)

  price_query-accepts : (price : Text) → Priced price
  unfolding price_query in_band
  price_query-accepts price = elim (Bool-cases (text_eq price [])) [
    | inl e ↦ rw e
    | inr e ↦ elim (Bool-cases (text_eq price pricing_free)) [
      | inl p ↦ subst Priced (sym ((text_eq_iff price pricing_free).0 p)) Priced-free
      | inr p ↦ elim (Bool-cases (text_eq price pricing_paid)) [
        | inl q ↦ subst Priced (sym ((text_eq_iff price pricing_paid).0 q)) Priced-paid
        | inr q ↦ elim (Bool-cases (text_eq price pricing_under_5)) [
          | inl r ↦ subst Priced (sym ((text_eq_iff price pricing_under_5).0 r)) Priced-under_5
          | inr r ↦ elim (Bool-cases (text_eq price pricing_under_20)) [
            | inl t ↦ subst Priced (sym ((text_eq_iff price pricing_under_20).0 t)) Priced-under_20
            | inr t ↦ rw (e, p, q, r, t)
          ]
        ]
      ]
    ]
  ]

  first_seen_queries-accepts :
      (min : ℤ)
      → Exact min
      → Exact (first_seen_unix a)
      → all (λ q. accepts q doc) (first_seen_queries b min)
        ≡ not (ltb_ℤ (pos 0) min && ltb_ℤ (first_seen_unix a) min)
  unfolding first_seen_queries new_indexed_asset
  first_seen_queries-accepts min h h' = elim (Bool-cases (ltb_ℤ (pos 0) min)) [
    | inl e ↦ rw e (ground (arith, bleve.of_at_least min doc h h'))
    | inr e ↦ rw e
  ]

  like_queries-accepts :
      (like : Text) (like_tags : List Text)
      → Named like_tags
      → all (λ q. accepts q doc) (like_queries b like like_tags)
        ≡ text_eq like [] || any (λ t. carries a.tags t) like_tags
  unfolding like_queries
  like_queries-accepts like [] h = ground (arith, bleve.none_accepted doc)
  like_queries-accepts like (t ∷ ts) h =
      ground (arith, bleve.of_disjunction (tag_queries b (t ∷ ts)) doc, any-tag_queries (t ∷ ts) h)

  exclusions-accepts :
      (opts : SearchOptions)
      → Named opts.exclude_tags
      → any (λ q. accepts q doc) (exclusions b opts)
        ≡ any (λ t. carries a.tags t) opts.exclude_tags
          || (not (text_eq opts.like []) && text_eq opts.like a.game_id)
  unfolding exclusions new_indexed_asset
  exclusions-accepts opts h = elim (Bool-cases (text_eq opts.like [])) [
    | inl e ↦ rw e (
        ground (
          arith,
          any-append (λ q. accepts q doc) (tag_queries b opts.exclude_tags) [],
          any-tag_queries opts.exclude_tags h,
        ))
    | inr e ↦ rw e (
        ground (
          arith,
          any-append (λ q. accepts q doc) (tag_queries b opts.exclude_tags)
              (b.doc_ids (opts.like ∷ []) ∷ []),
          any-tag_queries opts.exclude_tags h,
          bleve.of_doc_ids (opts.like ∷ []) doc,
        ))
  ]

  -- A request with no text asks nothing of it.
  text_queries_none : (any_word : Bool) → text_queries b [] any_word ≡ []
  unfolding text_queries split_phrases text_eq join
  text_queries_none any_word = refl

  conjuncts-accepts :
      (opts : SearchOptions) (like_tags : List Text) (any_word : Bool)
      → opts.query ≡ []
      → all (λ q. accepts q doc) (conjuncts b uni opts like_tags any_word)
        ≡ all (λ q. accepts q doc) (tag_queries b opts.tags)
          && (all (λ q. accepts q doc) (author_queries b uni opts.author)
              && (all (λ q. accepts q doc) (price_query b opts.price)
                  && (all (λ q. accepts q doc) (first_seen_queries b opts.min_first_seen)
                      && all (λ q. accepts q doc) (like_queries b opts.like like_tags))))
  unfolding conjuncts
  conjuncts-accepts opts like_tags any_word no_text =
      all-append_five (λ q. accepts q doc) (text_queries b opts.query any_word)
        (tag_queries b opts.tags) (author_queries b uni opts.author) (price_query b opts.price)
        (first_seen_queries b opts.min_first_seen) (like_queries b opts.like like_tags)
        (ap (λ q. text_queries b q any_word) no_text ∙ text_queries_none any_word)

  -- For a request with no text, by what bleve documents of its queries, the query that is built
  -- accepts the document of an asset just if the asset is wanted, as the in-memory engine selects
  -- it. Nothing is assumed of a boolean query in which nothing must match. No tag of the request
  -- or of the like asset is empty, the author asked for has a key, the times are integers that a
  -- float64 holds, and the asset has the id of the like asset just if it is that asset.
  pub build_query-wanted :
      (opts : SearchOptions) (like_tags : List Text) (like_idx : Option ℕ) (any_word : Bool) (i : ℕ)
      → opts.query ≡ []
      → Named opts.tags
      → Named opts.exclude_tags
      → Named like_tags
      → (text_eq opts.author [] ≡ false → text_eq (author_key uni opts.author) [] ≡ false)
      → Exact opts.min_first_seen
      → Exact (first_seen_unix a)
      → (text_eq opts.like [] ≡ false → text_eq opts.like a.game_id ≡ is_source like_idx i)
      → accepts (build_query b uni opts like_tags any_word) (document uni fl rates a)
        ≡ wanted uni fl rates opts like_tags like_idx i a
  unfolding build_query wanted
  build_query-wanted opts like_tags like_idx any_word i no_text tags excluded liked author min seen
        source =
      ground (
        arith,
        assemble-accepts (conjuncts b uni opts like_tags any_word) (exclusions b opts),
        conjuncts-accepts opts like_tags any_word no_text,
        exclusions-accepts opts excluded,
        all-tag_queries opts.tags tags,
        author_queries-accepts opts.author author,
        price_query-accepts opts.price,
        first_seen_queries-accepts opts.min_first_seen min seen,
        like_queries-accepts opts.like like_tags liked,
        source,
      )
