-- ===== src/Fetcher/Slice/Label.antt =====
-- The label under which a finished view is recorded in a checkpoint tells views apart.
use itchgrep.Base.{
  ℕ, suc, ◌≡◌, refl, sym, ap, ◌∙◌, ◌≢◌, Bool, true, false, ◌&&◌, List, [], ◌∷◌, ◌++◌, map, arith,
  length, any, All, All-in, In, inl, inr, ◌⊎◌, Bool-cases, if◌then◌else◌, ◌==◌, All-append,
}
use itchgrep.Base.Text.{Text, codes, text_eq, text_eq_iff, join, trim_prefix}
use itchgrep.Base.Text.Split.{split, Avoids, split-join}
use itchgrep.Fetcher.Slice.{Slice, valid, label, all_sorts, all_filters, sort_default, filter_none}

-- A sort and a filter that may stand in one view.
abbrev Compatible : Text → Text → Type 0
Compatible sort filter = (In sort all_sorts × (filter ≡ [])) ⊎ ((sort ≡ []) × In filter all_filters)

any-In_inv : (x : Text) (ts : List Text) → any (λ t. text_eq x t) ts ≡ true → In x ts
any-In_inv x [] h = cc
any-In_inv x (t ∷ ts) h = elim (Bool-cases (text_eq x t)) [
  | inl e ↦ inl (sym ((text_eq_iff x t).0 e))
  | inr e ↦ inr (any-In_inv x ts (rw e at h))
]

any-In_flipped : (x : Text) (ts : List Text) → any (λ t. text_eq t x) ts ≡ true → In x ts
any-In_flipped x [] h = cc
any-In_flipped x (t ∷ ts) h = elim (Bool-cases (text_eq t x)) [
  | inl e ↦ inl ((text_eq_iff t x).0 e)
  | inr e ↦ inr (any-In_flipped x ts (rw e at h))
]

-- What passing every test of the grammar says, as facts about the tests.
valid-tests :
    (s : Slice)
    → valid s ≡ true
    → (any (λ t. text_eq s.sort t) all_sorts ≡ true)
      × ((text_eq s.filter filter_none ≡ true)
          ⊎ ((text_eq s.sort sort_default ≡ true)
              × (any (λ f. text_eq f s.filter) all_filters ≡ true)))
unfolding valid
valid-tests s h = ground arith

compatible : (s : Slice) → valid s ≡ true → Compatible s.sort s.filter
compatible s h =
    let tests = valid-tests s h in
    elim tests.1 [
      | inl e ↦ inl (any-In_inv s.sort all_sorts tests.0, (text_eq_iff s.filter filter_none).0 e)
      | inr (d, k) ↦
          inr ((text_eq_iff s.sort sort_default).0 d, any-In_flipped s.filter all_filters k)
    ]

tag_segment : Text → Text
tag_segment t = codes "tag-" ++ t

-- The segments of the label, from the three fields that shape it.
key : Text → Text → List Text → List Text
unfolding text_eq tag_segment
key sort filter tags =
    if text_eq sort sort_default && text_eq filter filter_none && length tags == 0
    then codes "root" ∷ []
    else (if text_eq sort sort_default then [] else sort ∷ [])
      ++ ((if text_eq filter filter_none then [] else filter ∷ []) ++ map tag_segment tags)

untag : List Text → List Text
untag = map (trim_prefix (codes "tag-"))

-- Reads the three fields back from the segments.
decode : List Text → Text × Text × List Text
unfolding text_eq untag
decode [] = ([], [], [])
decode (x ∷ xs) =
    if text_eq x (codes "root")
    then ([], [], [])
    else if any (λ t. text_eq x t) all_sorts
    then (x, [], untag xs)
    else if any (λ f. text_eq f x) all_filters
    then ([], x, untag xs)
    else ([], [], untag (x ∷ xs))

untag-map : (ts : List Text) → untag (map tag_segment ts) ≡ ts
unfolding untag tag_segment trim_prefix
untag-map [] = refl
untag-map (t ∷ ts) = ap (◌∷◌ t) (untag-map ts)

suc-eq-zero : (n : ℕ) → (suc n == 0) ≡ false
suc-eq-zero n = ground arith

decode-tags : (ts : List Text) → decode (key sort_default filter_none ts) ≡ ([], [], ts)
unfolding decode key trim_prefix
decode-tags [] = refl
decode-tags (t ∷ ts) =
    rw (suc-eq-zero (length ts)) (ap (λ (u : List Text). ([], [], t ∷ u)) (untag-map ts))

decode-sorted : (ts : List Text) → All (λ srt. decode (key srt [] ts) ≡ (srt, [], ts)) all_sorts
unfolding decode key
decode-sorted ts = (decode-tags ts, rw (untag-map ts) (refl, (refl, (refl, tt))))

decode-filtered : (ts : List Text) → All (λ f. decode (key [] f ts) ≡ ([], f, ts)) all_filters
unfolding decode key
decode-filtered ts =
    rw (untag-map ts) (refl, (refl, (refl, (refl, (refl, (refl, (refl, (refl, (refl, tt)))))))))

decode-key :
    (sort filter : Text) (tags : List Text)
    → Compatible sort filter
    → decode (key sort filter tags) ≡ (sort, filter, tags)
decode-key sort filter tags (inl (m, e)) = rw e (
    All-in (λ srt. decode (key srt [] tags) ≡ (srt, [], tags)) sort all_sorts (decode-sorted tags)
      m)
decode-key sort filter tags (inr (e, m)) = rw e (
    All-in (λ f. decode (key [] f tags) ≡ ([], f, tags)) filter all_filters (decode-filtered tags)
      m)

Avoids-tags : (ts : List Text) → All (Avoids b'/') ts → All (Avoids b'/') (map tag_segment ts)
unfolding tag_segment
Avoids-tags [] h = tt
Avoids-tags (t ∷ ts) h =
    ((omega arith, (omega arith, (omega arith, (omega arith, h.0)))), Avoids-tags ts h.1)

Avoids-sorts : All (Avoids b'/') all_sorts
Avoids-sorts = omega arith

Avoids-filters : All (Avoids b'/') all_filters
Avoids-filters = omega arith

Avoids-option : (b : Bool) (x : Text) → Avoids b'/' x → All (Avoids b'/') (if b then [] else x ∷ [])
Avoids-option true x h = tt
Avoids-option false x h = (h, tt)

segments_of : Text → Text → List Text → List Text
segments_of sort filter tags =
    (if text_eq sort sort_default then [] else sort ∷ [])
    ++ ((if text_eq filter filter_none then [] else filter ∷ []) ++ map tag_segment tags)

Avoids-segments :
    (sort filter : Text) (tags : List Text)
    → Compatible sort filter
    → All (Avoids b'/') tags
    → All (Avoids b'/') (segments_of sort filter tags)
unfolding segments_of
Avoids-segments sort filter tags c h =
    All-append (Avoids b'/') (if text_eq sort sort_default then [] else sort ∷ [])
      ((if text_eq filter filter_none then [] else filter ∷ []) ++ map tag_segment tags)
      (Avoids-option (text_eq sort sort_default) sort avoids_sort)
      (All-append (Avoids b'/') (if text_eq filter filter_none then [] else filter ∷ [])
        (map tag_segment tags) (Avoids-option (text_eq filter filter_none) filter avoids_filter)
        (Avoids-tags tags h))
  where
    avoids_sort : Avoids b'/' sort
    avoids_sort = elim c [
      | inl (m, e) ↦ All-in (Avoids b'/') sort all_sorts Avoids-sorts m
      | inr (e, m) ↦ rw e tt
    ]

    avoids_filter : Avoids b'/' filter
    avoids_filter = elim c [
      | inl (m, e) ↦ rw e tt
      | inr (e, m) ↦ All-in (Avoids b'/') filter all_filters Avoids-filters m
    ]

trim-path :
    (x : Text) (xs : List Text)
    → trim_prefix (codes "/game-assets/") (join (codes "/") (codes "/game-assets" ∷ x ∷ xs))
      ≡ join (codes "/") (x ∷ xs)
unfolding trim_prefix join
trim-path x xs = refl

split-trim :
    (segs : List Text)
    → segs ≢ []
    → All (Avoids b'/') segs
    → split b'/'
        (trim_prefix (codes "/game-assets/") (join (codes "/") (codes "/game-assets" ∷ segs)))
      ≡ segs
split-trim [] ne h = absurd (ne refl)
split-trim (x ∷ xs) ne h = rw (trim-path x xs) (split-join b'/' x xs h)

root_test : Text → Text → List Text → Bool
root_test sort filter tags =
    text_eq sort sort_default && text_eq filter filter_none && length tags == 0

segments_of-ne-nil :
    (sort filter : Text) (tags : List Text)
    → root_test sort filter tags ≡ false
    → segments_of sort filter tags ≢ []
unfolding segments_of root_test
segments_of-ne-nil sort filter [] h e = ground arith
segments_of-ne-nil sort filter (t ∷ ts) h e = ground arith

-- A label, cut at its slashes, is the list of its segments.
split-label :
    (s : Slice)
    → valid s ≡ true
    → All (Avoids b'/') s.tags
    → split b'/' (label s) ≡ key s.sort s.filter s.tags
unfolding label key segments_of root_test split split-trim
split-label s v h = elim (Bool-cases (root_test s.sort s.filter s.tags)) [
  | inl e ↦ rw e refl
  | inr e ↦ rw e (
      split-trim (segments_of s.sort s.filter s.tags) (segments_of-ne-nil s.sort s.filter s.tags e)
        (Avoids-segments s.sort s.filter s.tags (compatible s v) h))
]

-- Two valid views whose tags hold no slash and that share a label agree in their ordering, their
-- filter and their tags.
pub label_injective :
    (s t : Slice)
    → valid s ≡ true
    → valid t ≡ true
    → All (Avoids b'/') s.tags
    → All (Avoids b'/') t.tags
    → label s ≡ label t
    → (s.sort ≡ t.sort) × (s.filter ≡ t.filter) × (s.tags ≡ t.tags)
label_injective s t vs vt hs ht e =
    let same : (s.sort, s.filter, s.tags) ≡ (t.sort, t.filter, t.tags) =
      sym (decode-key s.sort s.filter s.tags (compatible s vs))
      ∙ ap decode (sym (split-label s vs hs) ∙ ap (split b'/') e ∙ split-label t vt ht)
      ∙ decode-key t.sort t.filter t.tags (compatible t vt) in
    (ap (λ p. p.0) same, ap (λ p. p.1) same, ap (λ p. p.2) same)
