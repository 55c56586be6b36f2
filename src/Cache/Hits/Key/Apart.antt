-- ===== src/Cache/Hits/Key/Apart.antt =====
-- Searches with the same key are the same search, as far as the key can tell.
use itchgrep.Base.{
  zero, suc, ◌≡◌, refl, sym, Bool, true, false, List, [], ◌∷◌, ◌++◌, arith, any, All, Bool-cases,
  inl, inr, by_if,
}
use itchgrep.Base.Sort.{sort, All-sort}
use itchgrep.Base.Text.{Text, codes, text_eq, text_eq_iff, join}
use itchgrep.Base.Text.Split.{Avoids}
use itchgrep.Base.Text.Decimal.{format_int, format_int_injective, All-format_int}
use itchgrep.Models.Asset.{
  sort_relevance, sort_popular, sort_title, sort_price, sort_recent, sort_new,
}
use itchgrep.Cache.Options.{SearchOptions, resolved_sort}
use itchgrep.Cache.Hits.Key.{field, hit_key, join_sorted, text_le}

-- The first field of a key, and what follows it.
field_injective :
    (s t rest rest' : Text)
    → Avoids 0 s
    → Avoids 0 t
    → field s rest ≡ field t rest'
    → (s ≡ t) × (rest ≡ rest')
field_injective [] [] rest rest' hs ht e = (refl, cc)
field_injective [] (b ∷ t) rest rest' hs ht e = absurd (ht.0 (let q : 0 ≡ b = cc in sym q))
field_injective (a ∷ s) [] rest rest' hs ht e = absurd (hs.0 cc)
field_injective (a ∷ s) (b ∷ t) rest rest' hs ht e =
    let tails : field s rest ≡ field t rest' = cc in
    let heads : a ≡ b = cc in
    let (same, after) = field_injective s t rest rest' hs.1 ht.1 tails in (rw (heads, same), after)

-- The texts of a request hold no NUL byte.
pub record NoNul (o : SearchOptions) : Type 0 where
  pub query : Avoids 0 o.query
  pub price : Avoids 0 o.price
  pub author : Avoids 0 o.author
  pub like : Avoids 0 o.like
  pub tags : All (Avoids 0) o.tags
  pub exclude_tags : All (Avoids 0) o.exclude_tags

any-Avoids :
    (s : Text) (ts : List Text) → any (λ t. text_eq s t) ts ≡ true → All (Avoids 0) ts → Avoids 0 s
any-Avoids s [] h k = cc
any-Avoids s (t ∷ ts) h k = elim (Bool-cases (text_eq s t)) [
  | inl e ↦ let same : s ≡ t = (text_eq_iff s t).0 e in rw same k.0
  | inr e ↦ any-Avoids s ts (ground (arith, h, e)) k.1
]

avoids_test : Text → Bool
avoids_test [] = true
avoids_test (zero ∷ s) = false
avoids_test (suc n ∷ s) = avoids_test s

Avoids-avoids_test : (s : Text) → avoids_test s ≡ true → Avoids 0 s
unfolding avoids_test
Avoids-avoids_test [] h = tt
Avoids-avoids_test (zero ∷ s) h = cc
Avoids-avoids_test (suc n ∷ s) h = (λ e. omega (arith, e), Avoids-avoids_test s h)

Avoids-resolved_sort : (o : SearchOptions) → Avoids 0 (resolved_sort o)
unfolding resolved_sort avoids_test
Avoids-resolved_sort o =
    let no_nul = Avoids-avoids_test in
    by_if (Avoids 0)
      (any (λ s. text_eq o.sort s)
        (sort_popular ∷ sort_title ∷ sort_price ∷ sort_recent ∷ sort_new ∷ []))
      (λ h.
        any-Avoids o.sort (sort_popular ∷ sort_title ∷ sort_price ∷ sort_recent ∷ sort_new ∷ []) h (
          no_nul sort_popular refl,
          (
            no_nul sort_title refl,
            (no_nul sort_price refl, (no_nul sort_recent refl, (no_nul sort_new refl, tt))),
          ),
        ))
      (λ _.
        by_if (Avoids 0) (text_eq o.sort sort_relevance)
          (λ _.
            by_if (Avoids 0) (text_eq o.query []) (λ _. no_nul sort_popular refl)
              (λ _. no_nul sort_relevance refl))
          (λ _.
            by_if (Avoids 0) (text_eq o.query []) (λ _. no_nul sort_popular refl)
              (λ _. no_nul sort_relevance refl)))

Avoids-append : (s t : Text) → Avoids 0 s → Avoids 0 t → Avoids 0 (s ++ t)
Avoids-append [] t h k = k
Avoids-append (b ∷ s) t h k = (h.0, Avoids-append s t h.1 k)

Avoids-join : (ts : List Text) → All (Avoids 0) ts → Avoids 0 (join (codes ",") ts)
unfolding join
Avoids-join [] h = tt
Avoids-join (t ∷ []) h = h.0
Avoids-join (t ∷ u ∷ ts) h =
    Avoids-append t (codes "," ++ join (codes ",") (u ∷ ts)) h.0
      ((λ e. omega (arith, e)), Avoids-join (u ∷ ts) h.1)

Avoids-join_sorted : (ts : List Text) → All (Avoids 0) ts → Avoids 0 (join_sorted ts)
unfolding join_sorted
Avoids-join_sorted ts h = Avoids-join (sort text_le ts) (All-sort text_le (Avoids 0) ts h)

-- Two requests whose texts hold no NUL byte and that share a key of the hit cache agree in their
-- query, ordering, price, author, like and first sighting, and in their sorted and joined required
-- and excluded tags.
pub hit_key_injective :
    (a b : SearchOptions)
    → NoNul a
    → NoNul b
    → hit_key a ≡ hit_key b
    → (a.query ≡ b.query)
      × (resolved_sort a ≡ resolved_sort b)
      × (a.price ≡ b.price)
      × (a.author ≡ b.author)
      × (a.like ≡ b.like)
      × (a.min_first_seen ≡ b.min_first_seen)
      × (join_sorted a.tags ≡ join_sorted b.tags)
      × (join_sorted a.exclude_tags ≡ join_sorted b.exclude_tags)
unfolding hit_key
hit_key_injective a b va vb e =
    let (q, e1) = field_injective a.query b.query _ _ va.query vb.query e in
    let (s, e2) =
      field_injective (resolved_sort a) (resolved_sort b) _ _ (Avoids-resolved_sort a)
        (Avoids-resolved_sort b) e1 in
    let (p, e3) = field_injective a.price b.price _ _ va.price vb.price e2 in
    let (w, e4) = field_injective a.author b.author _ _ va.author vb.author e3 in
    let (l, e5) = field_injective a.like b.like _ _ va.like vb.like e4 in
    let (m, e6) =
      field_injective (format_int a.min_first_seen) (format_int b.min_first_seen) _ _
        (All-format_int a.min_first_seen) (All-format_int b.min_first_seen) e5 in
    let (t, e7) =
      field_injective (join_sorted a.tags) (join_sorted b.tags) _ _
        (Avoids-join_sorted a.tags va.tags) (Avoids-join_sorted b.tags vb.tags) e6 in
    let (x, _) =
      field_injective (join_sorted a.exclude_tags) (join_sorted b.exclude_tags) [] []
        (Avoids-join_sorted a.exclude_tags va.exclude_tags)
        (Avoids-join_sorted b.exclude_tags vb.exclude_tags) e7 in
    (q, s, p, w, l, format_int_injective a.min_first_seen b.min_first_seen m, t, x)
