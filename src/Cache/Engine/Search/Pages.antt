-- ===== src/Cache/Engine/Search/Pages.antt =====
-- Whatever the shape of the request, the answer counts the matching rows and shows one page of them
-- in the order asked for.
use itchgrep.Base.{
  by_if, ℕ, ◌+◌, ◌^◌, ◌≤◌, ◌<◌, ◌≡◌, refl, sym, ap, ◌∙◌, Bool, true, false, not, ◌&&◌, ◌||◌, Option,
  none, some, List, [], ◌∷◌, arith, length, ltb, all, any, get_elem?, get_elem?-some, select,
  select-All, take, take_of_length-le, length-take, All, All-weaken, if◌then◌else◌,
}
use itchgrep.Base.Int.{pos, ltb_ℤ, wrap64, wrap64_fits}
use itchgrep.Base.Search.{search_index}
use itchgrep.Base.Text.{Text, text_eq}
use itchgrep.Money.Float.{Float64}
use itchgrep.Models.Asset.{sort_new}
use itchgrep.Cache.Options.{SearchOptions, resolved_sort, filtered}
use itchgrep.Cache.Engine.{Engine, Row, order_by, new_lt}
use itchgrep.Cache.Engine.Filter.{Filter, matches, pure, in_band, contains}
use itchgrep.Cache.Engine.Search.{
  Pass, pass, page_positions, positions, first_seen_at, sweep, walk, bit_at, iota, zeros, Sweep,
}
use itchgrep.Cache.Engine.Search.Marks.{
  marks, trues, length-marks, bits-sweep, total-sweep, bit_at-marks, length-select_marks,
}
use itchgrep.Cache.Engine.Search.Walk.{walk-page}
use itchgrep.Cache.Engine.Search.Newest.{newest_prefix}
use itchgrep.Cache.Engine.Search.Slices.{cut, page_positions-prefix, page_positions-walked}
use itchgrep.Cache.Engine.Search.Positions.{
  IsOrdering, positions-new, length-positions, positions-in_range, length-select-positions,
}

all_empty : (p : ℕ → Bool) (xs : List ℕ) → length xs ≡ 0 → all p xs ≡ true
all_empty p [] h = refl
all_empty p (x ∷ xs) h = absurd (omega arith)

any_empty : (p : ℕ → Bool) (xs : List ℕ) → length xs ≡ 0 → any p xs ≡ false
any_empty p [] h = refl
any_empty p (x ∷ xs) h = absurd (omega arith)

module _ (fl : Float64) where
  in_band_none :
      (price : Text) (is_free : Bool) (usd : fl.F)
      → text_eq price [] ≡ true
      → in_band fl price is_free usd ≡ true
  unfolding in_band
  in_band_none price is_free usd h = rw h

  pure-matches :
      (f : Filter) (i : ℕ) (r : Row fl)
      → pure f ≡ true
      → matches fl f i r ≡ not (ltb_ℤ (pos 0) f.min_first && ltb_ℤ r.first_seen f.min_first)
  unfolding pure matches
  pure-matches f i r h = ground (
    arith,
    all_empty (λ t. contains r.run t) f.req,
    any_empty (λ t. contains r.run t) f.excl,
    in_band_none f.price r.free r.usd,
  )

  module _ (e : Engine fl) (v : IsOrdering fl e) (opts : SearchOptions) (f : Filter)
      (start size : ℕ) where
    -- The row at a position passes the filter.
    abbrev pub passes : ℕ → Bool
    passes i = elim (get_elem? e.rows i) [
      | none ↦ false
      | some r ↦ not f.nothing && matches fl f i r
    ]

    abbrev pub hits : List ℕ
    hits = select passes (positions fl e (resolved_sort opts))

    -- The pass counts the hits, and the page is cut out of them.
    abbrev pub IsPage : Pass → Type 0
    IsPage p =
        (p.total ≡ length hits)
        × (page_positions (positions fl e (resolved_sort opts)) p start size ≡ cut start size hits)

    prefix-IsPage :
        (k : ℕ) (counts : List ℕ)
        → start + size < 2 ^ 63
        → k ≤ length e.rows
        → hits ≡ take k (positions fl e (resolved_sort opts))
        → IsPage (record { total = k; page = []; counts = counts })
    prefix-IsPage k counts fits le h =
        let os = positions fl e (resolved_sort opts) in
        let le' : k ≤ length os = rw (length-positions fl e v (resolved_sort opts)) le in
        rw h (sym (length-take k os le'), page_positions-prefix os k start size counts fits le')

    -- The rows' marks, as the sweep leaves them, are the hits.
    marks-passes : f.nothing ≡ false → (i : ℕ) → bit_at (marks fl f 0 e.rows) i ≡ passes i
    marks-passes h i = bit_at-marks fl f 0 i i e.rows (omega arith) ∙ go (get_elem? e.rows i)
      where
        go :
            (m : Option (Row fl))
            → elim m [ none ↦ false | some r ↦ matches fl f i r ]
              ≡ elim m [ none ↦ false | some r ↦ not f.nothing && matches fl f i r ]
        go none = refl
        go (some r) = rw h

    select-marks :
        f.nothing ≡ false
        → (os : List ℕ) → select (bit_at (marks fl f 0 e.rows)) os ≡ select passes os
    select-marks h [] = refl
    select-marks h (i ∷ os) = rw (marks-passes h i, select-marks h os)

    length-hits : f.nothing ≡ false → length hits ≡ trues (marks fl f 0 e.rows)
    length-hits h =
        length-select-positions fl e v passes (resolved_sort opts)
        ∙ ap (λ (xs : List ℕ). length xs) (sym (select-marks h (iota 0 (length e.rows))))
        ∙ ap (λ n. length (select (bit_at (marks fl f 0 e.rows)) (iota 0 n)))
            (sym (length-marks fl f 0 e.rows))
        ∙ length-select_marks (marks fl f 0 e.rows)

    nothing-passes : f.nothing ≡ true → (i : ℕ) → passes i ≡ false
    nothing-passes h i = go (get_elem? e.rows i)
      where
        go :
            (m : Option (Row fl))
            → elim m [ none ↦ false | some r ↦ not f.nothing && matches fl f i r ] ≡ false
        go none = refl
        go (some r) = rw h

    select-nothing : f.nothing ≡ true → (os : List ℕ) → select passes os ≡ []
    select-nothing h [] = refl
    select-nothing h (i ∷ os) = rw (nothing-passes h i, select-nothing h os)

    -- A request that nothing can match.
    nothing-IsPage :
        (counts : List ℕ)
        → start + size < 2 ^ 63
        → f.nothing ≡ true
        → IsPage (record { total = 0; page = []; counts = counts })
    nothing-IsPage counts fits h =
        prefix-IsPage 0 counts fits (omega arith)
          (select-nothing h (positions fl e (resolved_sort opts)))

    walked-IsPage :
        (w : Bool) (counts counts' : List ℕ)
        → f.nothing ≡ false
        → start + size < 2 ^ 63
        → IsPage (
            let s = sweep fl f w 0 e.rows (record { bits = []; total = 0; counts = counts }) in
            record {
              total = s.total;
              page =
                  if ltb start s.total
                  then walk s.bits
                      (positions fl e (resolved_sort opts))
                      start
                      (wrap64 (start + size))
                      0
                  else [];
              counts = counts';
            })
    walked-IsPage w counts counts' h fits =
        let os = positions fl e (resolved_sort opts) in
        let s0 : Sweep = record { bits = []; total = 0; counts = counts } in
        let bits : (sweep fl f w 0 e.rows s0).bits ≡ marks fl f 0 e.rows =
          bits-sweep fl f w 0 e.rows s0 in
        let total : (sweep fl f w 0 e.rows s0).total ≡ length hits =
          total-sweep fl f w 0 e.rows s0 ∙ sym (length-hits h ∙ omega arith) in
        let shown : walk (marks fl f 0 e.rows) os start (wrap64 (start + size)) 0
            ≡ cut start size hits =
          ap (λ n. walk (marks fl f 0 e.rows) os start n 0) (wrap64_fits (start + size) fits)
          ∙ walk-page (marks fl f 0 e.rows) os start size
          ∙ ap (cut start size) (select-marks h os) in
        (total, rw (total, bits, shown) (page_positions-walked os hits start size counts'))

    pure-passes :
        (i : ℕ)
        → f.min_first ≡ opts.min_first_seen
        → f.nothing ≡ false
        → pure f ≡ true
        → i < length e.rows
        → passes i
          ≡ not (
              ltb_ℤ (pos 0) opts.min_first_seen
              && ltb_ℤ (first_seen_at fl e.rows i) opts.min_first_seen)
    pure-passes i em h p lt =
        let (r, at) = get_elem?-some e.rows i lt in
        rw (at, passes, first_seen_at)
          (ap (λ b. not b && matches fl f i r) h
            ∙ pure-matches f i r p
            ∙ ap (λ m. not (ltb_ℤ (pos 0) m && ltb_ℤ r.first_seen m)) em)

    -- The whole catalog.
    all-IsPage :
        (counts : List ℕ)
        → f.min_first ≡ opts.min_first_seen
        → start + size < 2 ^ 63
        → f.nothing ≡ false
        → pure f ≡ true
        → ltb_ℤ (pos 0) opts.min_first_seen ≡ false
        → IsPage (record { total = length e.rows; page = []; counts = counts })
    all-IsPage counts em fits h p m =
        let os = positions fl e (resolved_sort opts) in
        let every : All (λ i. passes i ≡ true) os =
          All-weaken (λ i. i < length e.rows) (λ i. passes i ≡ true)
            (λ i lt.
              pure-passes i em h p lt
              ∙ ap (λ b. not (b && ltb_ℤ (first_seen_at fl e.rows i) opts.min_first_seen)) m)
            os (positions-in_range fl e v (resolved_sort opts)) in
        let le : length os ≤ length e.rows =
          omega (arith, length-positions fl e v (resolved_sort opts)) in
        prefix-IsPage (length e.rows) counts fits (omega arith)
          (select-All passes os every ∙ sym (take_of_length-le (length e.rows) os le))

    newest-IsPage :
        (counts : List ℕ)
        → f.min_first ≡ opts.min_first_seen
        → start + size < 2 ^ 63
        → f.nothing ≡ false
        → pure f ≡ true
        → ltb_ℤ (pos 0) opts.min_first_seen ≡ true
        → text_eq (resolved_sort opts) sort_new ≡ true
        → IsPage (record {
          total = search_index (length e.rows) (λ k.
              elim (get_elem? (positions fl e (resolved_sort opts)) k) [
                | none ↦ true
                | some i ↦ ltb_ℤ (first_seen_at fl e.rows i) opts.min_first_seen
              ]);
          page = [];
          counts = counts;
        })
    newest-IsPage counts em fits h p m k =
        let os = positions fl e (resolved_sort opts) in
        let at : os ≡ order_by fl (new_lt fl) e.rows =
          positions-new fl e v (resolved_sort opts) k in
        let late : (i : ℕ)
            → i < length e.rows
            → passes i ≡ not (ltb_ℤ (first_seen_at fl e.rows i) opts.min_first_seen) =
          λ i lt.
            pure-passes i em h p lt
            ∙ ap (λ b. not (b && ltb_ℤ (first_seen_at fl e.rows i) opts.min_first_seen)) m in
        let (within, cut_off) = newest_prefix fl e.rows opts.min_first_seen passes late in
        prefix-IsPage
          (search_index (length e.rows) (λ k. elim (get_elem? os k) [
            | none ↦ true
            | some i ↦ ltb_ℤ (first_seen_at fl e.rows i) opts.min_first_seen
          ]))
          counts fits (rw at within) (rw at cut_off)

    -- The switch over the shapes: whichever is taken, the answer is a page of the hits.
    pub pass-IsPage :
        f.min_first ≡ opts.min_first_seen
        → ltb_ℤ opts.min_first_seen (pos 0) ≡ false
        → start + size < 2 ^ 63
        → IsPage (pass fl e opts f start size)
    unfolding pass
    pass-IsPage em m fits =
        let min_zero =
          not (ltb_ℤ opts.min_first_seen (pos 0) || ltb_ℤ (pos 0) opts.min_first_seen) in
        let whole = pure f && (min_zero && not (not opts.no_facets && filtered opts)) in
        let newest =
          pure f && (text_eq (resolved_sort opts) sort_new && not (not opts.no_facets)) in
        by_if IsPage f.nothing (λ none_. nothing-IsPage [] fits none_)
          (λ live.
            by_if IsPage whole (λ t. all-IsPage [] em fits live (ground arith) (ground arith))
              (λ nt.
                by_if IsPage newest
                  (λ n. newest-IsPage [] em fits live (ground arith) (ground arith) (ground arith))
                  (λ nn.
                    walked-IsPage (not opts.no_facets)
                      (if not opts.no_facets then zeros (length e.tables.tags.slugs) else [])
                      (sweep fl f (not opts.no_facets) 0 e.rows (record {
                        bits = [];
                        total = 0;
                        counts =
                            if not opts.no_facets then zeros (length e.tables.tags.slugs) else [];
                      })).counts
                      live fits)))
