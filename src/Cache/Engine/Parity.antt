-- ===== src/Cache/Engine/Parity.antt =====
-- The engine's filter and test say of a row what the request asks of its asset.
use itchgrep.Base.{
  ℕ, ◌≡◌, refl, ap, Bool, true, false, not, ◌&&◌, ◌||◌, Option, none, some, List, [], ◌∷◌, arith,
  In, inl, inr, any, all, length, ◌==◌, ==_iff, Option-cases, Bool-cases, Bool-ext,
}
use itchgrep.Base.Text.{Text, text_eq, text_eq_iff}
use itchgrep.Money.Float.{Float64}
use itchgrep.Money.Rates.{Rates}
use itchgrep.Base.Text.Maps.{lookup}
use itchgrep.Models.Asset.{
  Asset, Unicode, author_key, price_usd, free, pricing_free, pricing_paid, pricing_under_5,
  pricing_under_20,
}
use itchgrep.Cache.Options.{SearchOptions}
use itchgrep.Cache.Engine.{Table, Tables, Row}
use itchgrep.Cache.Engine.Filter.{
  filter_for, matches, known_ids, has_unknown, author_id, known_price, in_band, contains,
}
use itchgrep.Cache.Engine.Intern.{IsTable, Stands}
use itchgrep.Cache.Engine.Authors.{IsAuthors, Names}
use itchgrep.Cache.Engine.Rows.{IsTables, Fits}
use itchgrep.Cache.Engine.Wanted.{carries, is_by, wanted}

contains-In_inv : (k : ℕ) (run : List ℕ) → contains run k ≡ true → In k run
contains-In_inv k [] h = cc
contains-In_inv k (x ∷ xs) h = elim (Bool-cases (x == k)) [
  | inl e ↦ inl ((==_iff x k).0 e)
  | inr e ↦ inr (contains-In_inv k xs (rw e at h))
]

contains-In : (k : ℕ) (run : List ℕ) → In k run → contains run k ≡ true
contains-In k [] m = elim m [ ]
contains-In k (x ∷ xs) m = elim m [
  | inl e ↦ rw ((==_iff x k).1 e)
  | inr m ↦ ground (arith, contains-In k xs m)
]

carries-In_inv : (t : Text) (tags : List Text) → carries tags t ≡ true → In t tags
carries-In_inv t [] h = cc
carries-In_inv t (u ∷ us) h = elim (Bool-cases (text_eq u t)) [
  | inl e ↦ inl ((text_eq_iff u t).0 e)
  | inr e ↦ inr (carries-In_inv t us (rw e at h))
]

carries-In : (t : Text) (tags : List Text) → In t tags → carries tags t ≡ true
carries-In t [] m = elim m [ ]
carries-In t (u ∷ us) m = elim m [
  | inl e ↦ rw ((text_eq_iff u t).1 e)
  | inr m ↦ ground (arith, carries-In t us m)
]

module _ (tbl : Table) (v : IsTable tbl) (run : List ℕ) (tags : List Text)
    (s : Stands tbl run tags) where
  contains-carries :
      (t : Text) (k : ℕ) → lookup t tbl.ids ≡ some k → contains run k ≡ carries tags t
  contains-carries t k at =
      Bool-ext (contains run k) (carries tags t)
        (λ h.
          let (u, slug, m) = s.sound k (contains-In_inv k run h) in
          let e : u ≡ t = cc (v.placed t k at) in carries-In t tags (rw (← e) m))
        (λ h.
          let (j, id, m) = s.complete t (carries-In_inv t tags h) in
          let e : j ≡ k = cc in contains-In k run (rw (← e) m))

  carries_unknown : (t : Text) → lookup t tbl.ids ≡ none → carries tags t ≡ false
  carries_unknown t no_id =
      Bool-ext (carries tags t) false
        (λ h. let (j, id, m) = s.complete t (carries-In_inv t tags h) in cc) (λ h. cc)

  any-known_ids :
      (ts : List Text) → any (λ k. contains run k) (known_ids tbl ts) ≡ any (λ t. carries tags t) ts
  unfolding known_ids
  any-known_ids [] = refl
  any-known_ids (t ∷ ts) = elim (Option-cases (lookup t tbl.ids)) [
    | inl no_id ↦ ground (arith, carries_unknown t no_id, any-known_ids ts)
    | inr (k, id) ↦ ground (arith, contains-carries t k id, any-known_ids ts)
  ]

  all-known_ids :
      (ts : List Text)
      → not (has_unknown tbl ts) && all (λ k. contains run k) (known_ids tbl ts)
        ≡ all (λ t. carries tags t) ts
  unfolding known_ids has_unknown
  all-known_ids [] = refl
  all-known_ids (t ∷ ts) = elim (Option-cases (lookup t tbl.ids)) [
    | inl no_id ↦ ground (arith, carries_unknown t no_id)
    | inr (k, id) ↦ ground (arith, contains-carries t k id, all-known_ids ts)
  ]

module _ (authors : List (Text × ℕ)) (v : IsAuthors authors) where
  -- The test on author ids is the test on author keys.
  author_test :
      (id : ℕ) (key asked : Text)
      → Names authors id key
      → not (author_id authors asked == 0) && (id == author_id authors asked)
        ≡ not (text_eq asked []) && text_eq key asked
  unfolding author_id
  author_test id key asked n = elim (Option-cases (lookup asked authors)) [
    | inl unknown ↦ ground (arith, text_eq_iff asked [], text_eq_iff key asked)
    | inr (k, at) ↦ ground (
      arith,
      text_eq_iff asked [],
      text_eq_iff key asked,
      v.bounds asked k at,
      λ (h : lookup key authors ≡ some k). v.injective key asked k h at,
    )
  ]

abbrev known_band : Text → Bool
known_band p =
    any (λ k. text_eq p k) (pricing_free ∷ pricing_paid ∷ pricing_under_5 ∷ pricing_under_20 ∷ [])

in_band-unknown :
    (fl : Float64) (price : Text) (is_free : Bool) (usd : fl.F)
    → known_band price ≡ false
    → in_band fl price is_free usd ≡ true
unfolding in_band
in_band-unknown fl price is_free usd h = ground arith

in_band-known_price :
    (fl : Float64) (price : Text) (is_free : Bool) (usd : fl.F)
    → in_band fl (known_price price) is_free usd ≡ in_band fl price is_free usd
unfolding known_price
in_band-known_price fl price is_free usd = elim (Bool-cases (known_band price)) [
  | inl known ↦ rw known
  | inr other ↦
      rw (other, in_band-unknown fl price is_free usd other) (unfold in_band text_eq in refl)
]

module _ (uni : Unicode) (fl : Float64) (rates : Rates fl) (tb : Tables) (v : IsTables tb)
    (a : Asset) (r : Row fl) (fit : Fits uni fl rates tb a r) (opts : SearchOptions)
    (like_tags : List Text) (like_idx : Option ℕ) where
  req_test :
      not (has_unknown tb.tags opts.tags)
        && all (λ k. contains r.run k) (known_ids tb.tags opts.tags)
      ≡ all (λ t. carries a.tags t) opts.tags
  req_test = all-known_ids tb.tags v.tags r.run a.tags fit.run opts.tags

  excl_test :
      any (λ k. contains r.run k) (known_ids tb.tags opts.exclude_tags)
      ≡ any (λ t. carries a.tags t) opts.exclude_tags
  excl_test = any-known_ids tb.tags v.tags r.run a.tags fit.run opts.exclude_tags

  like_test :
      any (λ k. contains r.run k) (known_ids tb.tags like_tags)
      ≡ any (λ t. carries a.tags t) like_tags
  like_test = any-known_ids tb.tags v.tags r.run a.tags fit.run like_tags

  -- A list of ids that is empty holds none.
  like_empty :
      length (known_ids tb.tags like_tags) ≡ 0
      → any (λ k. contains r.run k) (known_ids tb.tags like_tags) ≡ false
  like_empty h = go (known_ids tb.tags like_tags) h
    where
      go : (ks : List ℕ) → length ks ≡ 0 → any (λ k. contains r.run k) ks ≡ false
      go [] e = refl
      go (k ∷ ks) e = absurd (omega arith)

  by_test :
      (text_eq opts.author []
        || (not (author_id tb.authors (author_key uni opts.author) == 0)
            && (r.author == author_id tb.authors (author_key uni opts.author))))
      ≡ is_by uni opts.author a
  unfolding is_by
  by_test =
      ap (λ b. text_eq opts.author [] || b)
        (author_test tb.authors v.authors r.author (author_key uni a.author)
          (author_key uni opts.author) fit.author)

  band_test :
      in_band fl (known_price opts.price) r.free r.usd
      ≡ in_band fl opts.price (free a) (price_usd uni fl rates a).0
  band_test =
      rw (fit.free, fit.usd)
        (in_band-known_price fl opts.price (free a) (price_usd uni fl rates a).0)

  pub matches-wanted :
      (i : ℕ)
      → not (filter_for uni tb opts like_tags like_idx).nothing
          && matches fl (filter_for uni tb opts like_tags like_idx) i r
        ≡ wanted uni fl rates opts like_tags like_idx i a
  unfolding matches filter_for wanted
  matches-wanted i =
      ground (arith, req_test, excl_test, like_test, like_empty, by_test, band_test, fit.first_seen)
