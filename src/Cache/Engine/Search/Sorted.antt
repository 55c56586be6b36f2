-- ===== src/Cache/Engine/Search/Sorted.antt =====
-- The order of the answers, said of the assets: by the key of the sort, and by popularity where the
-- keys tie.
use itchgrep.Base.{
  ℕ, zero, suc, ◌+◌, ◌<◌, ◌≡◌, Bool, true, false, not, ◌&&◌, ◌||◌, some, List, arith, length, leb,
  get_elem?, if◌then◌else◌, Bool-cases, inl, inr,
}
use itchgrep.Base.Int.{ltb_ℤ}
use itchgrep.Base.Text.{Text, text_eq, text_lt, text_lt_asymm, text_lt_trans, text_lt_total}
use itchgrep.Base.Text.Space.{trim_space}
use itchgrep.Money.Float.{Float64, IsOrdered}
use itchgrep.Money.Rates.{Rates}
use itchgrep.Models.Asset.{
  Asset, Unicode, price_usd, recency_rank, first_seen_unix, sort_title, sort_price, sort_recent,
  sort_new,
}
use itchgrep.Cache.Engine.{
  Engine, Row, before, build_engine, order, order_by, title_lt, price_lt, recent_lt, new_lt,
}
use itchgrep.Cache.Engine.Rows.{Fits, build_engine-Built, AllFit-at}
use itchgrep.Cache.Engine.Search.{positions, iota}
use itchgrep.Cache.Engine.Search.Orders.{order_by-before}
use itchgrep.Cache.Engine.Search.Reference.{build_engine-IsOrdering}

module _ (uni : Unicode) (fl : Float64) (rates : Rates fl) where
  -- One asset's key is less than another's.
  abbrev pub asset_lt : Text → Asset → Asset → Bool
  asset_lt key x y =
      if text_eq key sort_title
      then text_lt (uni.to_lower (trim_space x.title)) (uni.to_lower (trim_space y.title))
      else if text_eq key sort_price
      then fl.lt (price_usd uni fl rates x).0 (price_usd uni fl rates y).0
      else if text_eq key sort_recent
      then ltb_ℤ (recency_rank x) (recency_rank y)
      else if text_eq key sort_new
      then ltb_ℤ (first_seen_unix y) (first_seen_unix x)
      else false

  -- The less key comes first, and of equal keys the more popular asset, which stands first in the
  -- catalog.
  abbrev pub comes_first : Text → ℕ → Asset → ℕ → Asset → Bool
  comes_first key a x b y = asset_lt key x y || (not (asset_lt key y x) && leb a b)

  abbrev ByKey : (Asset → Asset → Bool) → ℕ → Asset → ℕ → Asset → Type 0
  ByKey alt a x b y = alt x y || (not (alt y x) && leb a b) ≡ true

  module _ (assets : List Asset) (e : Engine fl)
      (built : build_engine uni fl rates assets ≡ some e) where
    -- A sort by a key of the rows is a sort by the same key of the assets.
    order_by-ByKey :
        (lt : Row fl → Row fl → Bool) (alt : Asset → Asset → Bool)
        → ((p q : Row fl) → lt p q ≡ true → lt q p ≡ false)
        → ((p q s : Row fl) → lt q p ≡ false → lt s q ≡ false → lt s p ≡ false)
        → ((p q : Row fl) (x y : Asset)
            → Fits uni fl rates e.tables x p
            → Fits uni fl rates e.tables y q
            → lt p q ≡ alt x y)
        → (i j a b : ℕ) (x y : Asset) → i < j
        → get_elem? (order_by fl lt e.rows) i ≡ some a
        → get_elem? (order_by fl lt e.rows) j ≡ some b
        → get_elem? assets a ≡ some x
        → get_elem? assets b ≡ some y
        → ByKey alt a x b y
    unfolding before
    order_by-ByKey lt alt asymm trans same i j a b x y h ei ej ax by =
        let (p, q, ep, eq, le) = order_by-before fl lt e.rows asymm trans i j a b h ei ej in
        let (_, fit) = build_engine-Built uni fl rates assets e built in
        let (p', ep', fp) = AllFit-at uni fl rates e.tables assets e.rows a x fit ax in
        let (q', eq', fq) = AllFit-at uni fl rates e.tables assets e.rows b y fit by in
        let sp : p ≡ p' = cc in
        let sq : q ≡ q' = cc in
        let le' = rw (sp, sq) at le in rw (← same p' q' x y fp fq, ← same q' p' y x fq fp) le'

    get_elem?-iota : (k n i a : ℕ) → get_elem? (iota k n) i ≡ some a → a ≡ k + i
    get_elem?-iota k zero i a h = cc
    get_elem?-iota k (suc n) zero a h = let e : k ≡ a = cc in omega arith
    get_elem?-iota k (suc n) (suc i) a h = omega (arith, get_elem?-iota (suc k) n i a h)

    text_lt_weak : (s t u : Text) → text_lt t s ≡ false → text_lt u t ≡ false → text_lt u s ≡ false
    text_lt_weak s t u h k = elim (Bool-cases (text_lt s t)) [
      | inr ge ↦ let e : s ≡ t = text_lt_total s t ge h in rw e k
      | inl st ↦ elim (Bool-cases (text_lt u s)) [
        | inl us ↦ cc (text_lt_trans u s t us st)
        | inr done ↦ done
      ]
    ]

    -- Of two places in the order of any sort over a built engine, the earlier has the asset that
    -- comes first: the one with the less key of that sort (title, price, recency, or latest first
    -- sighting) and, where neither key is less, the one that stands first in the catalog. Prices
    -- are compared by an order of floats with no cycles.
    pub positions-comes_first :
        IsOrdered fl
        → (key : Text) (i j a b : ℕ) (x y : Asset) → i < j
        → get_elem? (positions fl e key) i ≡ some a
        → get_elem? (positions fl e key) j ≡ some b
        → get_elem? assets a ≡ some x
        → get_elem? assets b ≡ some y
        → comes_first key a x b y ≡ true
    unfolding positions order
    positions-comes_first v key i j a b x y h ei ej ax by =
        let o = build_engine-IsOrdering uni fl rates assets e built in
        elim (Bool-cases (text_eq key sort_title)) [
          | inl t ↦ rw t (
              order_by-ByKey (title_lt fl)
                (λ x y.
                  text_lt (uni.to_lower (trim_space x.title)) (uni.to_lower (trim_space y.title)))
                (λ p q. text_lt_asymm p.title_key q.title_key)
                (λ p q s. text_lt_weak p.title_key q.title_key s.title_key)
                (λ p q x y fp fq. rw (fp.title_key, fq.title_key)) i j a b x y h
                (rw (t, positions, order, o.title) at ei) (rw (t, positions, order, o.title) at ej)
                ax by)
          | inr nt ↦ elim (Bool-cases (text_eq key sort_price)) [
            | inl t ↦
                rw (nt, t)
                  (order_by-ByKey (price_lt fl)
                    (λ x y. fl.lt (price_usd uni fl rates x).0 (price_usd uni fl rates y).0)
                    (λ p q. v.asymm p.usd q.usd) (λ p q s. v.trans p.usd q.usd s.usd)
                    (λ p q x y fp fq. rw (fp.usd, fq.usd)) i j a b x y h
                    (rw (nt, t, positions, order, o.price) at ei)
                    (rw (nt, t, positions, order, o.price) at ej) ax by)
            | inr np ↦ elim (Bool-cases (text_eq key sort_recent)) [
              | inl t ↦
                  rw (nt, np, t)
                    (order_by-ByKey (recent_lt fl) (λ x y. ltb_ℤ (recency_rank x) (recency_rank y))
                      (λ p q lt. ground arith) (λ p q s l l'. ground arith)
                      (λ p q x y fp fq. rw (fp.recency, fq.recency)) i j a b x y h
                      (rw (nt, np, t, positions, order, o.recent) at ei)
                      (rw (nt, np, t, positions, order, o.recent) at ej) ax by)
              | inr nr ↦ elim (Bool-cases (text_eq key sort_new)) [
                | inl t ↦
                    rw (nt, np, nr, t)
                      (order_by-ByKey (new_lt fl)
                        (λ x y. ltb_ℤ (first_seen_unix y) (first_seen_unix x))
                        (λ p q lt. ground arith) (λ p q s l l'. ground arith)
                        (λ p q x y fp fq. rw (fp.first_seen, fq.first_seen)) i j a b x y h
                        (rw (nt, np, nr, t, positions, order, o.new) at ei)
                        (rw (nt, np, nr, t, positions, order, o.new) at ej) ax by)
                | inr nn ↦
                    let ea =
                      get_elem?-iota 0 (length e.rows) i a
                        (rw (nt, np, nr, nn, positions, order) at ei) in
                    let eb =
                      get_elem?-iota 0 (length e.rows) j b
                        (rw (nt, np, nr, nn, positions, order) at ej) in
                    rw (nt, np, nr, nn) (ground arith)
              ]
            ]
          ]
        ]
