-- ===== src/Crawl/Arrivals.antt =====
-- Since when each asset is known, after a crawl.
use itchgrep.Base.{
  ◌≡◌, refl, ap, ◌∙◌, Bool, true, false, Option, none, some, if◌then◌else◌, List, [], ◌∷◌, map,
  arith, any, inl, inr, Bool-cases,
}
use itchgrep.Base.Int.{ℤ}
use itchgrep.Base.Text.{Text, text_eq, text_eq_iff}
use itchgrep.Base.Text.Maps.{lookup, put, Unique, lookup-put}
use itchgrep.Models.Asset.{Asset}
use itchgrep.Crawl.{
  Arrival, arrival_of, stamp_all, stamp_first_seen, from_known, from_previous, age_all, is_current,
}

-- Recording an asset's own arrival changes no arrival.
arrival_of-put :
    (now : Option ℤ) (m : List (Text × Arrival)) (k j : Text)
    → arrival_of now (put k (record { first_seen = arrival_of now m k; missed = 0 }) m) j
      ≡ arrival_of now m j
unfolding arrival_of
arrival_of-put now m k j = elim (Bool-cases (text_eq k j)) [
  | inl e ↦
      let same : k ≡ j = (text_eq_iff k j).0 e in
      rw (lookup-put k j (record { first_seen = arrival_of now m k; missed = 0 }) m, e, arrival_of)
        (ap (arrival_of now m) same)
  | inr e ↦
      rw (lookup-put k j (record { first_seen = arrival_of now m k; missed = 0 }) m, e, arrival_of)
]

abbrev pub stamped : Option ℤ → List (Text × Arrival) → Asset → Asset
stamped now m a = record a { first_seen = arrival_of now m a.game_id }

map_same :
    (f g : Asset → Asset) → ((a : Asset) → f a ≡ g a) → (xs : List Asset) → map f xs ≡ map g xs
map_same f g h [] = refl
map_same f g h (x ∷ xs) = rw (h x, map_same f g h xs)

stamp_all-stamped :
    (now : Option ℤ) (m : List (Text × Arrival)) (assets : List Asset)
    → (stamp_all now m assets).0 ≡ map (stamped now m) assets
unfolding stamp_all
stamp_all-stamped now m [] = refl
stamp_all-stamped now m (a ∷ assets) =
    let m' = put a.game_id (record { first_seen = arrival_of now m a.game_id; missed = 0 }) m in
    ap (◌∷◌ (stamped now m a)) (
      stamp_all-stamped now m' assets
      ∙ map_same (stamped now m') (stamped now m)
          (λ b. ap (λ t. record b { first_seen = t }) (arrival_of-put now m a.game_id b.game_id))
          assets)

-- The last asset of an id.
abbrev pub last_of : List Asset → Text → Option Asset
last_of [] id = none
last_of (a ∷ assets) id = elim (last_of assets id) [
  | some b ↦ some b
  | none ↦ if text_eq a.game_id id then some a else none
]

-- Since when an id is known: by the persisted map, else by the previous publish, else since now.
abbrev pub since : List (Text × Arrival) → List Asset → Option ℤ → Text → Option ℤ
since known previous now id = elim (lookup id known) [
  | some r ↦ r.first_seen
  | none ↦ elim (last_of previous id) [ some a ↦ a.first_seen | none ↦ now ]
]

abbrev pub dated_by : (Text → Option ℤ) → Asset → Asset
dated_by arrival a = record a { first_seen = arrival a.game_id }

abbrev since_previous : Option Asset → Option Arrival → Option Arrival
since_previous (some a) old = some (record { first_seen = a.first_seen; missed = 0 })
since_previous none old = old

lookup-from_previous :
    (previous : List Asset) (m : List (Text × Arrival)) (id : Text)
    → lookup id (from_previous previous m) ≡ since_previous (last_of previous id) (lookup id m)
unfolding from_previous
lookup-from_previous [] m id = refl
lookup-from_previous (a ∷ previous) m id =
    let r : Arrival = record { first_seen = a.first_seen; missed = 0 } in
    lookup-from_previous previous (put a.game_id r m) id
    ∙ ap (since_previous (last_of previous id)) (lookup-put a.game_id id r m)
    ∙ chosen (last_of previous id) (text_eq a.game_id id)
  where
    chosen :
        (o : Option Asset) (b : Bool)
        → since_previous o
            (if b then some (record { first_seen = a.first_seen; missed = 0 }) else lookup id m)
          ≡ since_previous
              (elim o as (λ _. Option Asset) [
                | some c ↦ some c
                | none ↦ if b then some a else none
              ])
              (lookup id m)
    chosen (some c) b = refl
    chosen none true = refl
    chosen none false = refl

abbrev over : Option Arrival → Option Arrival → Option Arrival
over (some r) old = some r
over none old = old

lookup-from_known :
    (known m : List (Text × Arrival)) (id : Text)
    → Unique known
    → lookup id (from_known known m) ≡ over (lookup id known) (lookup id m)
unfolding from_known lookup
lookup-from_known [] m id u = refl
lookup-from_known ((k, r) ∷ known) m id u =
    lookup-from_known known (put k r m) id u.1
    ∙ ap (over (lookup id known)) (lookup-put k id r m)
    ∙ elim (Bool-cases (text_eq k id)) [
      | inl e ↦
          let same : k ≡ id = (text_eq_iff k id).0 e in
          let gone : lookup id known ≡ none = rw same at u.0 in rw (e, gone) refl
      | inr e ↦ rw e refl
    ]

arrival_of-since :
    (known : List (Text × Arrival)) (previous : List Asset) (now : Option ℤ) (id : Text)
    → Unique known
    → arrival_of now (from_known known (from_previous previous [])) id ≡ since known previous now id
unfolding arrival_of lookup
arrival_of-since known previous now id u =
    ap (λ o. elim o as (λ _. Option ℤ) [ none ↦ now | some r ↦ r.first_seen ])
      (lookup-from_known known (from_previous previous []) id u
        ∙ ap (over (lookup id known)) (lookup-from_previous previous [] id))
    ∙ read (lookup id known) (last_of previous id)
  where
    read :
        (o : Option Arrival) (p : Option Asset)
        → (elim (over o (since_previous p none)) as (λ _. Option ℤ) [
          | none ↦ now
          | some r ↦ r.first_seen
        ])
          ≡ (elim o as (λ _. Option ℤ) [
            | some r ↦ r.first_seen
            | none ↦ elim p as (λ _. Option ℤ) [ some a ↦ a.first_seen | none ↦ now ]
          ])
    read (some r) p = refl
    read none (some a) = refl
    read none none = refl

-- Where the known map has each id once, after a crawl each current asset, in its place, has the
-- arrival that the known map has for its id or, where that lacks it, the arrival that the last
-- asset of that id has in the previous publish; an asset that is in neither gets the time of the
-- publish. Nothing else of it changes.
pub stamp_first_seen-stamped :
    (known : List (Text × Arrival)) (previous current : List Asset) (now : Option ℤ)
    → Unique known
    → (stamp_first_seen known previous current now).0
      ≡ map (dated_by (since known previous now)) current
unfolding stamp_first_seen
stamp_first_seen-stamped known previous current now u =
    let m = from_known known (from_previous previous []) in
    stamp_all-stamped now m current
    ∙ map_same (stamped now m) (dated_by (since known previous now))
        (λ a.
          ap (λ t. record a { first_seen = t }) (arrival_of-since known previous now a.game_id u))
        current

lookup-stamp_all_absent :
    (now : Option ℤ) (m : List (Text × Arrival)) (assets : List Asset) (j : Text)
    → is_current assets j ≡ false
    → lookup j (stamp_all now m assets).1 ≡ lookup j m
unfolding stamp_all
lookup-stamp_all_absent now m [] j h = refl
lookup-stamp_all_absent now m (a ∷ assets) j h =
    let r : Arrival = record { first_seen = arrival_of now m a.game_id; missed = 0 } in
    let ne : text_eq a.game_id j ≡ false = ground (arith, h) in
    lookup-stamp_all_absent now (put a.game_id r m) assets j (ground (arith, h))
    ∙ lookup-put a.game_id j r m
    ∙ rw ne

abbrev arrived : Option ℤ → List (Text × Arrival) → Text → Arrival
arrived now m j = record { first_seen = arrival_of now m j; missed = 0 }

lookup-stamp_all :
    (now : Option ℤ) (m : List (Text × Arrival)) (assets : List Asset) (j : Text)
    → is_current assets j ≡ true
    → lookup j (stamp_all now m assets).1 ≡ some (arrived now m j)
unfolding stamp_all
lookup-stamp_all now m [] j h = cc
lookup-stamp_all now m (a ∷ assets) j h = elim (Bool-cases (is_current assets j)) [
  | inl later ↦
      lookup-stamp_all now (put a.game_id (arrived now m a.game_id) m) assets j later
      ∙ ap (λ t. some (record { first_seen = t; missed = 0 })) (arrival_of-put now m a.game_id j)
  | inr last ↦
      let e : text_eq a.game_id j ≡ true = ground (arith, h, last) in
      let same : a.game_id ≡ j = (text_eq_iff a.game_id j).0 e in
      lookup-stamp_all_absent now (put a.game_id (arrived now m a.game_id) m) assets j last
      ∙ lookup-put a.game_id j (arrived now m a.game_id) m
      ∙ rw e (ap (λ k. some (arrived now m k)) same)
]

lookup-age_all :
    (current : List Asset) (m : List (Text × Arrival)) (j : Text)
    → is_current current j ≡ true
    → lookup j (age_all current m) ≡ lookup j m
unfolding age_all lookup
lookup-age_all current [] j h = refl
lookup-age_all current ((i, r) ∷ m) j h = elim (Bool-cases (text_eq i j)) [
  | inl e ↦
      let same : i ≡ j = (text_eq_iff i j).0 e in
      let found : is_current current i ≡ true = rw same h in rw (found, e)
  | inr ne ↦ ground (arith, lookup-age_all current m j)
]

-- Where the known map has each id once, the map that a crawl persists has, for the id of each
-- current asset, the arrival that the known map has for it, else that of the last asset of the id
-- in the previous publish, else the time of the publish, and no missed crawl.
pub stamp_first_seen-kept :
    (known : List (Text × Arrival)) (previous current : List Asset) (now : Option ℤ) (id : Text)
    → Unique known
    → any (λ a. text_eq a.game_id id) current ≡ true
    → lookup id (stamp_first_seen known previous current now).1
      ≡ some (record { first_seen = since known previous now id; missed = 0 })
unfolding stamp_first_seen
stamp_first_seen-kept known previous current now id u h =
    let m = from_known known (from_previous previous []) in
    lookup-age_all current (stamp_all now m current).1 id h
    ∙ lookup-stamp_all now m current id h
    ∙ ap (λ t. some (record { first_seen = t; missed = 0 }))
        (arrival_of-since known previous now id u)
