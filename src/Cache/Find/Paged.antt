-- ===== src/Cache/Find/Paged.antt =====
-- The hit cache against the index: searchIndex of internal/cache/search.go with the hit cache on and off.
use itchgrep.Base.{
  ℕ, zero, suc, ◌+◌, ◌-◌, ◌≤◌, ◌<◌, ◌^◌, ◌≡◌, refl, sym, ap, ◌∙◌, ◌⊎◌, inl, inr, Bool, true, false,
  not, ◌&&◌, ◌||◌, Option, none, some, List, [], ◌∷◌, arith, All, take, drop, ltb, drop-take,
  take-take, if◌then◌else◌, by_if,
}
use itchgrep.Base.Int.{pos, wrap64, leb_ℤ, wrap64_fits}
use itchgrep.Base.Text.{Text}
use itchgrep.Base.Text.Maps.{lookup}
use itchgrep.Money.Float.{Float64}
use itchgrep.Models.Tag.{Tag}
use itchgrep.Models.Asset.{Asset, Unicode}
use itchgrep.Cache.Options.{SearchOptions, resolved_sort, filtered}
use itchgrep.Cache.State.{Cache, Results, at_positions}
use itchgrep.Cache.Engine.Search.{page_limit}
use itchgrep.Cache.Hits.Key.{hit_cacheable, hit_key}
use itchgrep.Cache.Query.{Bleve, build_query, sort_order, can_fall_back}
use itchgrep.Cache.Find.{
  Reply, IndexAnswer, facet_tags, positions_of, lift_tags, facet_size, run_query, query_index,
  depth, entry_of, index_page, Outcome, from_entry, from_answer, answered,
}

-- All that a search of the index finds; the facet depends on how many tags are asked for.
pub record Found : Type 0 where
  pub total : ℕ
  pub hits : List Text
  pub terms : ℕ → List Tag

abbrev pub facet_of : (ℕ → List Tag) → Option ℕ → Option (List Tag)
facet_of terms none = none
facet_of terms (some n) = some (terms n)

-- The index answers each page of a search from the same hits.
abbrev pub Pages :
    {Q : Type 0}
    → (Q → List Text → Found)
    → (Q → List Text → ℕ → ℕ → Option ℕ → Option Reply)
    → Type 0
Pages {Q} full index =
    (q : Q) (s : List Text) (size from : ℕ) (facet : Option ℕ)
    → index q s size from facet
      ≡ some (record {
        total = (full q s).total;
        hits = take size (drop from (full q s).hits);
        terms = facet_of (full q s).terms facet;
      })

-- Each of the ids is one of an asset.
abbrev pub Known : List (Text × ℕ) → List Text → Type 0
Known data_map ids = All (λ id. (i : ℕ) × (lookup id data_map ≡ some i)) ids

Known-drop : (m : List (Text × ℕ)) (n : ℕ) (ids : List Text) → Known m ids → Known m (drop n ids)
Known-drop m zero ids h = h
Known-drop m (suc n) [] h = tt
Known-drop m (suc n) (id ∷ ids) h = Known-drop m n ids h.1

positions_of-take :
    (m : List (Text × ℕ)) (n : ℕ) (ids : List Text)
    → Known m ids
    → positions_of m (take n ids) ≡ take n (positions_of m ids)
unfolding positions_of
positions_of-take m zero ids h = refl
positions_of-take m (suc n) [] h = refl
positions_of-take m (suc n) (id ∷ ids) h =
    rw (h.0.1, positions_of) (ap (◌∷◌ h.0.0) (positions_of-take m n ids h.1))

positions_of-drop :
    (m : List (Text × ℕ)) (n : ℕ) (ids : List Text)
    → Known m ids
    → positions_of m (drop n ids) ≡ drop n (positions_of m ids)
unfolding positions_of
positions_of-drop m zero ids h = refl
positions_of-drop m (suc n) [] h = refl
positions_of-drop m (suc n) (id ∷ ids) h = rw (h.0.1, positions_of) (positions_of-drop m n ids h.1)

-- A page of a deeper page.
page_of_page :
    (m : List (Text × ℕ)) (deep size from : ℕ) (ids : List Text)
    → Known m ids
    → from + size ≤ deep
    → take size (drop from (positions_of m (take deep ids)))
      ≡ positions_of m (take size (drop from ids))
page_of_page m deep size from ids h fits =
    ap (λ ps. take size (drop from ps)) (positions_of-take m deep ids h)
    ∙ (ap (take size) (drop-take from deep (positions_of m ids))
        ∙ (take-take size (deep - from) (drop from (positions_of m ids)) (omega arith)
            ∙ sym (
                positions_of-take m size (drop from ids) (Known-drop m from ids h)
                ∙ ap (take size) (positions_of-drop m from ids h))))

if_not : {X : Type 0} (P : Bool → X) (b : Bool) → (if b then P false else P true) ≡ P (not b)
if_not P true = refl
if_not P false = refl

module _ {fl : Float64} (uni : Unicode) (b : Bleve fl)
    (index : b.Query → List Text → ℕ → ℕ → Option ℕ → Option Reply)
    (full : b.Query → List Text → Found) (pages : Pages full index) (c : Cache fl)
    (opts : SearchOptions) (like_tags : List Text) where
  -- What is found for all words, or for any word.
  abbrev pub found_for : Bool → Found
  found_for any_word =
      full (build_query b uni opts like_tags any_word) (sort_order (resolved_sort opts))

  abbrev relaxed : Bool
  relaxed = not (ltb 0 (found_for false).total || not (can_fall_back b opts))

  abbrev ranked_tags : Bool → Bool → List Tag
  ranked_tags facets any_word =
      let f = found_for any_word in
      let terms = facet_of f.terms (if facets then some (facet_size c opts) else none) in
      if filtered opts then lift_tags c terms opts.tags f.total else facet_tags terms opts.tags

  abbrev page_answer : ℕ → ℕ → Bool → Bool → Bool → IndexAnswer
  page_answer from size facets any_word flag = record {
    positions = positions_of c.data_map (take size (drop from (found_for any_word).hits));
    total = (found_for any_word).total;
    tags = ranked_tags facets any_word;
    any_word = flag;
  }

  run_query-Pages :
      (from size : ℕ) (facets any_word : Bool)
      → run_query uni b index c opts like_tags from size facets any_word
        ≡ some (page_answer from size facets any_word false)
  unfolding run_query
  run_query-Pages from size facets any_word = rw (
    pages (build_query b uni opts like_tags any_word) (sort_order (resolved_sort opts)) size from
        (if facets then some (facet_size c opts) else none),
    run_query,
  )

  query_index-Pages :
      (from size : ℕ) (facets : Bool)
      → query_index uni b index c opts like_tags from size facets
        ≡ some (page_answer from size facets relaxed (relaxed && ltb 0 (found_for relaxed).total))
  unfolding query_index
  query_index-Pages from size facets =
      rw
        (run_query-Pages from size facets false, run_query-Pages from size facets true, query_index)
        (if_not (λ x. some (page_answer from size facets x (x && ltb 0 (found_for x).total)))
          (ltb 0 (found_for false).total || not (can_fall_back b opts)))

  ranked_tags_none : (any_word : Bool) → ranked_tags false any_word ≡ []
  unfolding facet_tags lift_tags
  ranked_tags_none any_word = ground arith

  shown_tags :
      (no_facets any_word : Bool)
      → (if no_facets then [] else ranked_tags true any_word) ≡ ranked_tags (not no_facets) any_word
  shown_tags true any_word = sym (ranked_tags_none any_word)
  shown_tags false any_word = refl

  -- The entry's page is the page of the answer.
  entry_page :
      (assets : List Asset) (title : Text) (from size : ℕ)
      → Known c.data_map (found_for relaxed).hits
      → from + size ≤ depth uni b index c
      → from_entry uni b index assets opts title from size (
          page_answer 0
            (depth uni b index c)
            true
            relaxed
            (relaxed && ltb 0 (found_for relaxed).total))
        ≡ from_answer uni b index assets title (
            page_answer from size
              (not opts.no_facets)
              relaxed
              (relaxed && ltb 0 (found_for relaxed).total))
  unfolding from_entry from_answer
  entry_page assets title from size known fits =
      let found = found_for relaxed in
      let deep = depth uni b index c in
      let shown : List ℕ → List Tag → Results = λ ps tags. record {
        assets = at_positions assets ps;
        total = found.total;
        tags = tags;
        like_title = title;
        any_word_fallback = relaxed && ltb 0 found.total;
      } in
      ap (λ ps. shown ps (if opts.no_facets then [] else ranked_tags true relaxed))
        (page_of_page c.data_map deep size from found.hits known fits)
      ∙ ap (shown (positions_of c.data_map (take size (drop from found.hits))))
          (shown_tags opts.no_facets relaxed)

  -- What the hit cache may hold for the request: nothing, or what the index answers for it.
  abbrev pub Fresh : (Text → Option IndexAnswer) → Type 0
  Fresh held =
      (held (hit_key opts) ≡ none)
      ⊎ (held (hit_key opts)
          ≡ query_index uni b index c opts like_tags 0 (depth uni b index c) true)

  entry_of-Fresh :
      (held : Text → Option IndexAnswer)
      → Fresh held
      → entry_of uni b index held c opts like_tags
        ≡ query_index uni b index c opts like_tags 0 (depth uni b index c) true
  unfolding entry_of
  entry_of-Fresh held fresh = elim fresh [
    | inl e ↦ rw (e, entry_of)
    | inr e ↦ rw (e, query_index-Pages 0 (depth uni b index c) true, entry_of)
  ]

  -- A page of a search is the same through the hit cache and from the index, its assets, total,
  -- tags and fallback mark: where the index answers every page of a search from the same hits,
  -- each hit is an asset of the cache, the hit cache holds nothing for the request or what the
  -- index answers for it, and the end of the page does not wrap.
  pub index_page_same :
      (held : Text → Option IndexAnswer) (assets : List Asset) (title : Text) (from : ℕ)
      → Fresh held
      → ((any_word : Bool) → Known c.data_map (found_for any_word).hits)
      → from + page_limit fl c opts < 2 ^ 63
      → index_page uni b index true held c assets opts title like_tags from
        ≡ index_page uni b index false held c assets opts title like_tags from
  unfolding index_page
  index_page_same held assets title from fresh known fits =
      let size = page_limit fl c opts in
      let deep = depth uni b index c in
      by_if {A = Outcome}
        (λ o. o ≡ index_page uni b index false held c assets opts title like_tags from)
        (hit_cacheable opts && leb_ℤ (wrap64 (from + size)) (pos deep))
        (λ small.
          let within : from + size ≤ deep = ground (arith, wrap64_fits (from + size) fits) in
          rw
            (
              entry_of-Fresh held fresh,
              query_index-Pages 0 deep true,
              query_index-Pages from size (not opts.no_facets),
            )
            (ap answered (entry_page assets title from size (known relaxed) within)))
        (λ _. refl)
