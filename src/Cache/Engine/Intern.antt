-- ===== src/Cache/Engine/Intern.antt =====
-- Interning: an id stands for one tag, and a row's run holds exactly the ids of its asset's tags.
use itchgrep.Base.{
  ℕ, zero, suc, ◌+◌, ◌≤◌, ◌≡◌, refl, sym, ◌∙◌, ◌≢◌, none, some, List, [], ◌∷◌, ◌++◌, arith, In, inl,
  inr, get_elem?, length, length-append, leb, ◌==◌, Option-cases, Bool-cases, ==_iff,
}
use itchgrep.Base.Sort.{sort, In-sort, In-sort_inv}
use itchgrep.Base.Text.{Text, text_eq, text_eq_iff, text_eq_refl}
use itchgrep.Base.Text.Maps.{lookup}
use itchgrep.Cache.Engine.{Table, empty_table, intern, intern_all, compact, run_of, max_uint16}

-- Every id that the map gives is the place of its tag among the slugs, and fits in a uint16.
pub record IsTable (tbl : Table) : Type 0 where
  pub placed : (t : Text) (k : ℕ) → lookup t tbl.ids ≡ some k → get_elem? tbl.slugs k ≡ some t
  pub small : length tbl.slugs ≤ max_uint16 + 1

-- A later table keeps what an earlier one says.
pub record Extends (tbl tbl' : Table) : Type 0 where
  pub ids : (t : Text) (k : ℕ) → lookup t tbl.ids ≡ some k → lookup t tbl'.ids ≡ some k
  pub slugs : (t : Text) (k : ℕ) → get_elem? tbl.slugs k ≡ some t → get_elem? tbl'.slugs k ≡ some t

pub Extends-refl : (tbl : Table) → Extends tbl tbl
Extends-refl tbl = record { ids = λ t k h. h; slugs = λ t k h. h }

pub Extends-trans : {a b c : Table} → Extends a b → Extends b c → Extends a c
Extends-trans p q = record {
  ids = λ t k h. q.ids t k (p.ids t k h);
  slugs = λ t k h. q.slugs t k (p.slugs t k h);
}

-- The ids stand for the tags, each way.
pub record Stands (tbl : Table) (run : List ℕ) (tags : List Text) : Type 0 where
  pub sound : (k : ℕ) → In k run → (t : Text) × (get_elem? tbl.slugs k ≡ some t) × In t tags
  pub complete : (t : Text) → In t tags → (k : ℕ) × (lookup t tbl.ids ≡ some k) × In k run

pub Stands-extend :
    {tbl tbl' : Table} {run : List ℕ} {tags : List Text}
    → Extends tbl tbl'
    → Stands tbl run tags
    → Stands tbl' run tags
Stands-extend x s = record {
  sound = λ k m. let (t, e, i) = s.sound k m in (t, x.slugs t k e, i);
  complete = λ t m. let (k, e, i) = s.complete t m in (k, x.ids t k e, i);
}

module _ {A : Type 0} where
  get_elem?-append_left :
      (xs ys : List A) (k : ℕ) (x : A) → get_elem? xs k ≡ some x → get_elem? (xs ++ ys) k ≡ some x
  get_elem?-append_left [] ys k x h = cc
  get_elem?-append_left (y ∷ xs) ys zero x h = h
  get_elem?-append_left (y ∷ xs) ys (suc k) x h = get_elem?-append_left xs ys k x h

  get_elem?-append_length : (xs : List A) (x : A) → get_elem? (xs ++ (x ∷ [])) (length xs) ≡ some x
  get_elem?-append_length [] x = refl
  get_elem?-append_length (y ∷ xs) x = get_elem?-append_length xs x

pub empty_table-IsTable : IsTable empty_table
unfolding lookup
empty_table-IsTable = record { placed = λ t k h. cc; small = omega arith }

-- The table after a new tag has been entered.
abbrev entered : Table → Text → Table
entered tbl t = record { slugs = tbl.slugs ++ (t ∷ []); ids = (t, length tbl.slugs) ∷ tbl.ids }

lookup-cons_self : (t : Text) (k : ℕ) (m : List (Text × ℕ)) → lookup t ((t, k) ∷ m) ≡ some k
unfolding lookup
lookup-cons_self t k m = rw (text_eq_refl t)

lookup-cons_ne :
    (t u : Text) (k : ℕ) (m : List (Text × ℕ)) → t ≢ u → lookup u ((t, k) ∷ m) ≡ lookup u m
unfolding lookup
lookup-cons_ne t u k m ne = elim (Bool-cases (text_eq t u)) [
  | inl e ↦ absurd (ne ((text_eq_iff t u).0 e))
  | inr e ↦ rw e
]

entered-Extends : (tbl : Table) (t : Text) → lookup t tbl.ids ≡ none → Extends tbl (entered tbl t)
entered-Extends tbl t new = record {
  ids = λ u k h. rw (lookup-cons_ne t u (length tbl.slugs) tbl.ids (λ e. absurd (cc))) h;
  slugs = λ u k h. get_elem?-append_left tbl.slugs (t ∷ []) k u h;
}

entered-IsTable :
    (tbl : Table) (t : Text) → length tbl.slugs ≤ max_uint16 → IsTable tbl → IsTable (entered tbl t)
entered-IsTable tbl t room v = record {
  placed = λ u k h. elim (Bool-cases (text_eq t u)) [
    | inl e ↦
        let same = (text_eq_iff t u).0 e in
        let at : length tbl.slugs ≡ k =
          ground (arith, lookup-cons_self t (length tbl.slugs) tbl.ids) in
        rw (← at, ← same) (get_elem?-append_length tbl.slugs t)
    | inr e ↦ get_elem?-append_left tbl.slugs (t ∷ []) k u (
        v.placed u k (
          rw (lookup-cons_ne t u (length tbl.slugs) tbl.ids (λ q. ground (arith, text_eq_iff t u)))
            at h))
  ];
  small = omega (arith, length-append tbl.slugs (t ∷ []));
}

-- What one call of intern gives: a table that extends the old one, and the id of the tag.
pub record Interned (tbl : Table) (t : Text) (tbl' : Table) (k : ℕ) : Type 0 where
  pub valid : IsTable tbl'
  pub extends : Extends tbl tbl'
  pub found : lookup t tbl'.ids ≡ some k

intern_new :
    (tbl : Table) (t : Text) (tbl' : Table) (k : ℕ)
    → lookup t tbl.ids ≡ none
    → intern tbl t ≡ some (tbl', k)
    → (length tbl.slugs ≤ max_uint16) × (entered tbl t ≡ tbl') × (length tbl.slugs ≡ k)
unfolding intern
intern_new tbl t tbl' k new h = ground arith

intern_old :
    (tbl : Table) (t : Text) (tbl' : Table) (k id : ℕ)
    → lookup t tbl.ids ≡ some id
    → intern tbl t ≡ some (tbl', k)
    → (tbl ≡ tbl') × (id ≡ k)
unfolding intern
intern_old tbl t tbl' k id old h = ground arith

pub intern-Interned :
    (tbl : Table) (t : Text) (tbl' : Table) (k : ℕ)
    → IsTable tbl
    → intern tbl t ≡ some (tbl', k)
    → Interned tbl t tbl' k
intern-Interned tbl t tbl' k v h = elim (Option-cases (lookup t tbl.ids)) [
  | inl new ↦
      let c = intern_new tbl t tbl' k new h in
      rw (← c.1, ← c.2)
        (record {
          valid = entered-IsTable tbl t c.0 v;
          extends = entered-Extends tbl t new;
          found = lookup-cons_self t (length tbl.slugs) tbl.ids;
        })
  | inr (id, old) ↦
      let c = intern_old tbl t tbl' k id old h in
      rw (← c.0, ← c.1) (record { valid = v; extends = Extends-refl tbl; found = old })
]

-- What the loop over one asset's tags gives.
pub record InternedAll (tbl : Table) (tags : List Text) (tbl' : Table) (ids : List ℕ) : Type 0 where
  pub valid : IsTable tbl'
  pub extends : Extends tbl tbl'
  pub stands : Stands tbl' ids tags

InternedAll-cons :
    (tbl mid tbl' : Table) (t : Text) (ts : List Text) (k : ℕ) (ids : List ℕ)
    → Interned tbl t mid k
    → InternedAll mid ts tbl' ids
    → InternedAll tbl (t ∷ ts) tbl' (k ∷ ids)
InternedAll-cons tbl mid tbl' t ts k ids one rest = record {
  valid = rest.valid;
  extends = Extends-trans one.extends rest.extends;
  stands = record {
    sound = λ j m. elim m [
      | inl e ↦ (t, rw (← e) (rest.extends.slugs t k (one.valid.placed t k one.found)), inl refl)
      | inr m ↦ let (u, at, i) = rest.stands.sound j m in (u, at, inr i)
    ];
    complete = λ u m. elim m [
      | inl e ↦ (k, rw (← e) (rest.extends.ids t k one.found), inl refl)
      | inr m ↦ let (j, at, i) = rest.stands.complete u m in (j, at, inr i)
    ];
  };
}

pub intern_all-InternedAll :
    (tbl : Table) (ts : List Text) (tbl' : Table) (ids : List ℕ)
    → IsTable tbl
    → intern_all tbl ts ≡ some (tbl', ids)
    → InternedAll tbl ts tbl' ids
unfolding intern_all
intern_all-InternedAll tbl [] tbl' ids v h =
    let e : tbl ≡ tbl' = cc in
    let e' : [] ≡ ids = cc in
    rw (← e, ← e')
      (record {
        valid = v;
        extends = Extends-refl tbl;
        stands = record { sound = λ k m. elim m [ ]; complete = λ t m. elim m [ ] };
      })
intern_all-InternedAll tbl (t ∷ ts) tbl' ids v h = elim (Option-cases (intern tbl t)) [
  | inl full ↦ cc (rw (full, intern_all) at h)
  | inr ((mid, k), first) ↦ elim (Option-cases (intern_all mid ts)) [
    | inl full ↦ cc (rw (first, intern_all, full) at h)
    | inr ((end, ks), rest) ↦
        let one = intern-Interned tbl t mid k v first in
        let e : end ≡ tbl' = cc (rw (first, intern_all, rest) at h) in
        let e' : k ∷ ks ≡ ids = cc (rw (first, intern_all, rest) at h) in
        rw (← e, ← e')
          (InternedAll-cons tbl mid end t ts k ks one
            (intern_all-InternedAll mid ts end ks one.valid rest))
  ]
]

In-compact : (k : ℕ) (xs : List ℕ) → In k xs → In k (compact xs)
unfolding compact
In-compact k [] m = m
In-compact k (x ∷ []) m = m
In-compact k (x ∷ y ∷ ys) m = elim (Bool-cases (x == y)) [
  | inl e ↦ rw e (elim m [
    | inl q ↦ In-compact k (y ∷ ys) (inl (sym ((==_iff x y).0 e) ∙ q))
    | inr q ↦ In-compact k (y ∷ ys) q
  ])
  | inr e ↦ rw e (elim m [ inl q ↦ inl q | inr q ↦ inr (In-compact k (y ∷ ys) q) ])
]

In-compact_inv : (k : ℕ) (xs : List ℕ) → In k (compact xs) → In k xs
unfolding compact
In-compact_inv k [] m = m
In-compact_inv k (x ∷ []) m = m
In-compact_inv k (x ∷ y ∷ ys) m = elim (Bool-cases (x == y)) [
  | inl e ↦ inr (In-compact_inv k (y ∷ ys) (rw e at m))
  | inr e ↦ elim (rw e at m) [ inl q ↦ inl q | inr q ↦ inr (In-compact_inv k (y ∷ ys) q) ]
]

-- Sorting the ids and dropping the repeats keeps what they stand for.
pub run_of-Stands :
    (tbl : Table) (ids : List ℕ) (tags : List Text)
    → Stands tbl ids tags
    → Stands tbl (run_of ids) tags
unfolding run_of
run_of-Stands tbl ids tags s = record {
  sound = λ k m. s.sound k (In-sort_inv leb k ids (In-compact_inv k (sort leb ids) m));
  complete = λ t m.
      let (k, e, i) = s.complete t m in (k, e, In-compact k (sort leb ids) (In-sort leb k ids i));
}
