-- ===== src/Cache/Facets/Lift.antt =====
-- The ranking of the sidebar by lift.
use native.Mathlib.Nat.{mul-lt-mul_of_pos_right, mul-le-mul_right}
use itchgrep.Base.{
  ℕ, ◌*◌, ◌≤◌, ◌<◌, ◌≡◌, refl, Bool, true, false, List, [], ◌∷◌, map, arith, leb, All, All-map,
  All-weaken, All-take, length, length-map, length-take-le, take, any, Bool-cases, inl, inr, ◌⊎◌,
  In,
}
use itchgrep.Base.Sort.{sort, All-sort, IsSorted, sort-IsSorted_on, IsSorted-take}
use itchgrep.Base.Text.{Text, text_eq, text_lt, text_lt_trans, text_lt_total, text_lt_asymm}
use itchgrep.Models.Tag.{Tag}
use itchgrep.Cache.Facets.{
  Ranked, min_facet_count, max_facet_tags, ranked, offered, lift_less, lift_le, candidates,
  rank_lift,
}

-- The floor is at least 1. It is below a total of more than 1, and at a total of 4 or more it is
-- at least 3 and at least one percent of the total.
pub min_facet_count_bounds :
    (total : ℕ)
    → (1 ≤ min_facet_count total)
      × (1 < total → min_facet_count total < total)
      × (4 ≤ total → (3 ≤ min_facet_count total) × (total ≤ 100 * min_facet_count total))
unfolding min_facet_count
min_facet_count_bounds total = (ground arith, λ h. ground arith, λ h. (ground arith, ground arith))

leb_cases : (a b : ℕ) → (a ≤ b) ⊎ (b < a)
leb_cases a b = grind arith

-- Products over three fractions a/i, b/j and c/k.
module _ (a i b j c k : ℕ) where
  cross_le : 0 < j → b * i ≤ a * j → c * j ≤ b * k → c * i ≤ a * k
  cross_le hj h h' = elim (leb_cases (c * i) (a * k)) [
    | inl le ↦ le
    | inr lt ↦
        absurd (
          omega (arith, mul-lt-mul_of_pos_right lt hj, mul-le-mul_right i h', mul-le-mul_right k h))
  ]

  cross_lt_left : 0 < j → 0 < k → b * i < a * j → c * j ≤ b * k → c * i < a * k
  cross_lt_left hj hk h h' = elim (leb_cases (a * k) (c * i)) [
    | inl le ↦
        absurd (
          omega (arith, mul-le-mul_right j le, mul-le-mul_right i h', mul-lt-mul_of_pos_right h hk))
    | inr lt ↦ lt
  ]

  cross_lt_right : 0 < j → 0 < i → b * i ≤ a * j → c * j < b * k → c * i < a * k
  cross_lt_right hj hi h h' = elim (leb_cases (a * k) (c * i)) [
    | inl le ↦
        absurd (
          omega (arith, mul-le-mul_right j le, mul-lt-mul_of_pos_right h' hi, mul-le-mul_right k h))
    | inr lt ↦ lt
  ]

-- A count of a match, and a catalog count that is no smaller.
record IsCounted (r : Ranked) : Type 0 where
  some_match : 0 < r.tag.count
  within : r.tag.count ≤ r.cat

lift_le_total : (x y : Ranked) → lift_le x y ≡ false → lift_le y x ≡ true
unfolding lift_less
lift_le_total x y h = ground (arith, text_lt_asymm y.tag.slug x.tag.slug)

not_less_trans : (s t u : Text) → text_lt t s ≡ false → text_lt u t ≡ false → text_lt u s ≡ false
not_less_trans s t u h k = elim (Bool-cases (text_lt u s)) [
  | inr no_lt ↦ no_lt
  | inl lt ↦ elim (Bool-cases (text_lt s t)) [
    | inl st ↦ cc (text_lt_trans u s t lt st)
    | inr ts ↦ cc (text_lt_total s t ts h)
  ]
]

lift_le_trans :
    (x y z : Ranked)
    → IsCounted x
    → IsCounted y
    → IsCounted z
    → lift_le x y ≡ true
    → lift_le y z ≡ true
    → lift_le x z ≡ true
unfolding lift_less
lift_le_trans x y z px py pz h k = ground (
  arith,
  cross_le x.tag.count x.cat y.tag.count y.cat z.tag.count z.cat,
  cross_lt_left x.tag.count x.cat y.tag.count y.cat z.tag.count z.cat,
  cross_lt_right x.tag.count x.cat y.tag.count y.cat z.tag.count z.cat,
  not_less_trans x.tag.slug y.tag.slug z.tag.slug,
)

-- The catalog count that a tag is compared by.
abbrev pub catalog_count : List (Text × ℕ) → Tag → ℕ
catalog_count catalog t = (ranked catalog t).cat

ranked-tag : (catalog : List (Text × ℕ)) (t : Tag) → (ranked catalog t).tag ≡ t
unfolding ranked
ranked-tag catalog t = refl

ranked-IsCounted :
    (catalog : List (Text × ℕ)) (applied : List Text) (total : ℕ) (t : Tag)
    → offered applied total t ≡ true
    → IsCounted (ranked catalog t)
unfolding ranked offered
ranked-IsCounted catalog applied total t h = ground (arith, (min_facet_count_bounds total).0)

candidates-IsCounted :
    (catalog : List (Text × ℕ)) (applied : List Text) (total : ℕ) (terms : List Tag)
    → All IsCounted (candidates catalog applied total terms)
candidates-IsCounted catalog applied total [] = tt
candidates-IsCounted catalog applied total (t ∷ ts) = elim (Bool-cases (offered applied total t)) [
  | inl e ↦
      rw e
        (ranked-IsCounted catalog applied total t e, candidates-IsCounted catalog applied total ts)
  | inr e ↦ rw e (candidates-IsCounted catalog applied total ts)
]

-- The candidate is a term that is offered, with the catalog count of its tag.
abbrev FromTerm : List (Text × ℕ) → List Text → ℕ → List Tag → Ranked → Type 0
FromTerm catalog applied total terms r =
    In r.tag terms × (offered applied total r.tag ≡ true) × (r.cat ≡ catalog_count catalog r.tag)

candidates-FromTerm :
    (catalog : List (Text × ℕ)) (applied : List Text) (total : ℕ) (terms : List Tag)
    → All (FromTerm catalog applied total terms) (candidates catalog applied total terms)
candidates-FromTerm catalog applied total [] = tt
candidates-FromTerm catalog applied total (t ∷ ts) =
    let rest =
      All-weaken (FromTerm catalog applied total ts) (FromTerm catalog applied total (t ∷ ts))
        (λ r h. (inr h.0, h.1, h.2)) (candidates catalog applied total ts)
        (candidates-FromTerm catalog applied total ts) in
    elim (Bool-cases (offered applied total t)) [
      | inl e ↦ rw e (
        (
          rw (ranked-tag catalog t) (inl refl),
          rw (ranked-tag catalog t) e,
          rw (ranked-tag catalog t),
        ),
        rest,
      )
      | inr e ↦ rw e rest
    ]

offered-bounds :
    (applied : List Text) (total : ℕ) (t : Tag)
    → offered applied total t ≡ true
    → (any (λ a. text_eq a t.slug) applied ≡ false)
      × (min_facet_count total ≤ t.count)
      × (t.count < total)
unfolding offered
offered-bounds applied total t h = (ground arith, ground arith, ground arith)

-- A narrowed search offers at most 200 tags. Each is one of the counted tags, is not applied
-- already, is on no fewer results than the floor and is not on every result.
pub rank_lift-offered :
    (catalog : List (Text × ℕ)) (terms : List Tag) (applied : List Text) (total : ℕ)
    → (length (rank_lift catalog terms applied total) ≤ max_facet_tags)
      × All
          (λ t.
            In t terms
            × (any (λ a. text_eq a t.slug) applied ≡ false)
            × (min_facet_count total ≤ t.count)
            × (t.count < total))
          (rank_lift catalog terms applied total)
unfolding rank_lift
rank_lift-offered catalog terms applied total =
    let cands = candidates catalog applied total terms in
    let kept = take max_facet_tags (sort lift_le cands) in
    let from = All-take (FromTerm catalog applied total terms) max_facet_tags (sort lift_le cands) (
      All-sort lift_le (FromTerm catalog applied total terms) cands
        (candidates-FromTerm catalog applied total terms)) in
    (
      omega
          (arith, length-map kept (λ r. r.tag), length-take-le max_facet_tags (sort lift_le cands)),
      All-map
          (λ t.
            In t terms
            × (any (λ a. text_eq a t.slug) applied ≡ false)
            × (min_facet_count total ≤ t.count)
            × (t.count < total))
          (λ r. r.tag) kept
          (All-weaken (FromTerm catalog applied total terms)
            (λ r.
              In r.tag terms
              × (any (λ a. text_eq a r.tag.slug) applied ≡ false)
              × (min_facet_count total ≤ r.tag.count)
              × (r.tag.count < total))
            (λ r h. let b = offered-bounds applied total r.tag h.1 in (h.0, b.0, b.1, b.2)) kept
            from),
    )

-- The first tag is over-represented no less than the second: its count over its catalog count is
-- no smaller, by cross-multiplication.
abbrev pub lift_ge : List (Text × ℕ) → Tag → Tag → Bool
lift_ge catalog a b = leb (b.count * catalog_count catalog a) (a.count * catalog_count catalog b)

lift_le-lift_ge :
    (catalog : List (Text × ℕ)) (x y : Ranked)
    → x.cat ≡ catalog_count catalog x.tag
    → y.cat ≡ catalog_count catalog y.tag
    → lift_le x y ≡ true
    → lift_ge catalog x.tag y.tag ≡ true
unfolding lift_less
lift_le-lift_ge catalog x y ex ey h = ground arith

IsSorted-tags :
    (catalog : List (Text × ℕ)) (rs : List Ranked)
    → All (λ r. r.cat ≡ catalog_count catalog r.tag) rs
    → IsSorted lift_le rs
    → IsSorted (lift_ge catalog) (map (λ r. r.tag) rs)
IsSorted-tags catalog [] h s = tt
IsSorted-tags catalog (r ∷ rs) h s = (first rs h.1 s.0, IsSorted-tags catalog rs h.1 s.1)
  where
    first :
        (ys : List Ranked)
        → All (λ y. y.cat ≡ catalog_count catalog y.tag) ys
        → All (λ y. lift_le r y ≡ true) ys
        → All (λ t. lift_ge catalog r.tag t ≡ true) (map (λ y. y.tag) ys)
    first [] hs ls = tt
    first (y ∷ ys) hs ls = (lift_le-lift_ge catalog r y h.0 hs.0 ls.0, first ys hs.1 ls.1)

-- The offered tags stand in descending order of their lift, which is the count among the results
-- over the count in the catalog (or over the count among the results, where that is larger).
pub rank_lift-descending :
    (catalog : List (Text × ℕ)) (terms : List Tag) (applied : List Text) (total : ℕ)
    → IsSorted (lift_ge catalog) (rank_lift catalog terms applied total)
unfolding rank_lift
rank_lift-descending catalog terms applied total =
    let cands = candidates catalog applied total terms in
    let sorted = sort lift_le cands in
    IsSorted-tags catalog (take max_facet_tags sorted)
      (All-weaken (FromTerm catalog applied total terms) (λ r. r.cat ≡ catalog_count catalog r.tag)
        (λ r h. h.2) (take max_facet_tags sorted)
        (All-take (FromTerm catalog applied total terms) max_facet_tags sorted (
          All-sort lift_le (FromTerm catalog applied total terms) cands
            (candidates-FromTerm catalog applied total terms))))
      (IsSorted-take lift_le max_facet_tags sorted (
        sort-IsSorted_on lift_le IsCounted lift_le_total lift_le_trans cands
          (candidates-IsCounted catalog applied total terms)))
