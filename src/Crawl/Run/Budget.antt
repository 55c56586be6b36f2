-- ===== src/Crawl/Run/Budget.antt =====
-- How many pages the crawl of cmd/dataservice/main.go asks for: crawler.fetchPages, runSlice and
-- run against the budget of plannedPages.
use itchgrep.Base.{
  ℕ, zero, suc, ◌+◌, ◌-◌, ◌*◌, ◌≤◌, not, ◌&&◌, List, [], ◌∷◌, ◌≡◌, refl, ap, ◌∙◌, inl, inr, arith,
  length, ltb, Bool-cases, ◌<◌, ltb→lt, lt→ltb, by_if,
}
use itchgrep.Base.Text.{Text}
use itchgrep.Base.Text.Sets.{has, set_add, has-set_add}
use itchgrep.Money.Float.{Float64}
use itchgrep.Fetcher.Slice.{Slice, valid, label, is_root, pages_to_fetch}
use itchgrep.Crawl.Collect.{Crawler}
use itchgrep.Crawl.Run.{
  Fetched, Config, page_through, fetch_batch, batch_end, run_slice, run, planned_pages,
  take_replies, done,
}
use itchgrep.Crawl.Run.Rounds.{Counted, take_replies-Counted}

planned_pages-set_add :
    (l : Text) (slices : List Slice) (finished : List Text) (n : ℕ)
    → planned_pages slices (set_add l finished) n ≤ planned_pages slices finished n
unfolding planned_pages
planned_pages-set_add l [] finished n = omega arith
planned_pages-set_add l (s ∷ slices) finished n =
    ground (arith, has-set_add l (label s) finished, planned_pages-set_add l slices finished n)

pub budget_exact :
    (m m' start end p p' p'' : ℕ)
    → m' ≡ m
    → start ≤ m
    → (start + 8 ≤ m → end ≡ start + 7)
    → (m < start + 8 → end ≡ m)
    → p' ≡ p + (end + 1 - start)
    → p'' ≡ p' + (m' + 1 - (start + 8))
    → p'' ≡ p + (m + 1 - start)
budget_exact m m' start end p p' p'' same le full rest e h = elim (Bool-cases (ltb m (start + 8))) [
  | inl lt ↦ let less = ltb→lt m (start + 8) lt in let last = rest less in omega arith
  | inr ge ↦ let more : start + 8 ≤ m = ground arith in let last = full more in omega arith
]

budget_step :
    (m m' start end p p' p'' : ℕ)
    → m' ≡ m
    → start ≤ m
    → (start + 8 ≤ m → end ≡ start + 7)
    → (m < start + 8 → end ≡ m)
    → p' ≡ p + (end + 1 - start)
    → p'' ≤ p' + (m' + 1 - (start + 8))
    → p'' ≤ p + (m + 1 - start)
budget_step m m' start end p p' p'' same le full rest e h = elim (Bool-cases (ltb m (start + 8))) [
  | inl lt ↦ let less = ltb→lt m (start + 8) lt in let last = rest less in omega arith
  | inr ge ↦ let more : start + 8 ≤ m = ground arith in let last = full more in omega arith
]

-- Each fetch of a page ends once.
abbrev pub Answered : (Slice → ℕ → ℕ → List Fetched) → Type 0
Answered answers =
    (s : Slice) (start end : ℕ) → start ≤ end → length (answers s start end) ≡ end + 1 - start

module _ (fl : Float64) (cfg : Config fl) (answers : Slice → ℕ → ℕ → List Fetched) where
  -- What a crawl does not change, and how many pages it may ask for.
  abbrev pub Within : ℕ → Crawler → Crawler → Type 0
  Within n c d =
      (d.items_per_page ≡ c.items_per_page)
      × (d.total_assets ≡ c.total_assets)
      × (d.done_slices ≡ c.done_slices)
      × (d.pages_fetched ≤ c.pages_fetched + n)

  pub batch_end-le :
      (s : Slice) (start : ℕ) (c : Crawler)
      → start ≤ pages_to_fetch s c.items_per_page
      → (start ≤ batch_end fl cfg answers s start c)
        × (batch_end fl cfg answers s start c ≤ pages_to_fetch s c.items_per_page)
        × (batch_end fl cfg answers s start c ≤ start + 7)
        × ((start + 8 ≤ pages_to_fetch s c.items_per_page)
            → batch_end fl cfg answers s start c ≡ start + 7)
        × ((pages_to_fetch s c.items_per_page < start + 8)
            → batch_end fl cfg answers s start c ≡ pages_to_fetch s c.items_per_page)
  unfolding batch_end
  batch_end-le s start c h = ground arith

  pub fetch_batch-Counted :
      (s : Slice) (start : ℕ) (recent : List ℕ) (c : Crawler)
      → Counted
          (length (answers s start (batch_end fl cfg answers s start c)))
          c
          (fetch_batch fl cfg answers s start recent c).0
  unfolding fetch_batch
  fetch_batch-Counted s start recent c =
      let end = batch_end fl cfg answers s start c in
      let counted = take_replies-Counted s (answers s start end) c in
      let taken = take_replies s (answers s start end) c in
      by_if (λ d. Counted (length (answers s start end)) c d)
        (is_root s && ltb taken.0.max_root_rank end) (λ _. counted) (λ _. counted)

  page_through-Within :
      Answered answers
      → (fuel : ℕ) (s : Slice) (start : ℕ) (recent : List ℕ) (c : Crawler)
      → Within
          (pages_to_fetch s c.items_per_page + 1 - start)
          c
          (page_through fl cfg answers fuel s start recent c)
  unfolding page_through
  page_through-Within answered zero s start recent c = (refl, refl, refl, omega arith)
  page_through-Within answered (suc fuel) s start recent c =
      let batch = fetch_batch fl cfg answers s start recent c in
      let m = pages_to_fetch s c.items_per_page in
      let P : Crawler → Type 0 = Within (m + 1 - start) c in
      by_if P (ltb m start) (λ _. (refl, refl, refl, omega arith))
        λ ge.
          let in_range : start ≤ m = ground arith in
          let ends = batch_end-le s start c in_range in
          let counted = fetch_batch-Counted s start recent c in
          let pages = counted.3 ∙ ap (◌+◌ c.pages_fetched) (answered s start _ ends.0) in
          by_if P (done fl cfg c) (λ _. (refl, refl, refl, omega arith))
            λ _.
              by_if P batch.2 (λ _. (counted.0, counted.1, counted.2, omega (arith, pages, ends)))
                λ _.
                  let later = page_through-Within answered fuel s (start + 8) batch.1 batch.0 in
                  (
                    later.0 ∙ counted.0,
                    later.1 ∙ counted.1,
                    later.2 ∙ counted.2,
                    budget_step m (pages_to_fetch s batch.0.items_per_page) start
                        (batch_end fl cfg answers s start c) c.pages_fetched batch.0.pages_fetched _
                        (ap (pages_to_fetch s) counted.0) in_range ends.3 ends.4 pages later.3,
                  )

  run_slice-Within :
      Answered answers
      → (s : Slice) (c : Crawler)
      → Within (pages_to_fetch s c.items_per_page) c (run_slice fl cfg answers s c)
  unfolding run_slice
  run_slice-Within answered s c =
      let m = pages_to_fetch s c.items_per_page in
      let e : m + 1 - 1 ≡ m = omega arith in rw e at (page_through-Within answered (m + 1) s 1 [] c)

  -- Rounds of eight pages: any fuel beyond the last page gives the same crawler.
  pub page_through_enough :
      (fuel fuel' : ℕ) (s : Slice) (start : ℕ) (recent : List ℕ) (c : Crawler)
      → pages_to_fetch s c.items_per_page < start + 8 * fuel
      → pages_to_fetch s c.items_per_page < start + 8 * fuel'
      → page_through fl cfg answers fuel s start recent c
        ≡ page_through fl cfg answers fuel' s start recent c
  unfolding page_through
  page_through_enough zero zero s start recent c h h' = refl
  page_through_enough zero (suc fuel') s start recent c h h' =
      rw (lt→ltb (pages_to_fetch s c.items_per_page) start (omega arith))
  page_through_enough (suc fuel) zero s start recent c h h' =
      rw (lt→ltb (pages_to_fetch s c.items_per_page) start (omega arith))
  page_through_enough (suc fuel) (suc fuel') s start recent c h h' =
      let batch = fetch_batch fl cfg answers s start recent c in
      let same = ap (pages_to_fetch s) (fetch_batch-Counted s start recent c).0 in
      rw (
        page_through_enough fuel fuel' s (start + 8) batch.1 batch.0 (omega (arith, same))
          (omega (arith, same)))

  -- With any fuel of at least a round for each eight pages of the view, the loop over the batches
  -- ends as runSlice does.
  pub run_slice_enough :
      (fuel : ℕ) (s : Slice) (c : Crawler)
      → pages_to_fetch s c.items_per_page ≤ 8 * fuel
      → page_through fl cfg answers fuel s 1 [] c ≡ run_slice fl cfg answers s c
  unfolding run_slice
  run_slice_enough fuel s c h =
      page_through_enough fuel (pages_to_fetch s c.items_per_page + 1) s 1 [] c (omega arith)
        (omega arith)

  -- If each page asked for is answered once, the crawl asks for at most the pages planned for the
  -- slices that are not done, beyond those it had asked for before.
  pub run-pages_fetched :
      (slices : List Slice) (c : Crawler)
      → Answered answers
      → (run fl cfg answers slices c).pages_fetched
        ≤ c.pages_fetched + planned_pages slices c.done_slices c.items_per_page
  unfolding run planned_pages
  run-pages_fetched [] c answered = omega arith
  run-pages_fetched (s ∷ slices) c answered =
      let n = c.items_per_page in
      let d = c.done_slices in
      let visited = run_slice fl cfg answers s c in
      let within = run_slice-Within answered s c in
      let c' : Crawler = record visited { done_slices = set_add (label s) visited.done_slices } in
      let fewer = planned_pages-set_add (label s) slices d n in
      let later = run-pages_fetched slices c' answered in
      let moved =
        ap (λ x. planned_pages slices (set_add (label s) x) visited.items_per_page) within.2
        ∙ ap (planned_pages slices (set_add (label s) d)) within.0 in
      let skipped = run-pages_fetched slices c answered in
      by_if {A = Crawler} (λ e. e.pages_fetched ≤ c.pages_fetched + planned_pages (s ∷ slices) d n)
        (done fl cfg c) (λ _. omega arith)
        λ _. elim (Bool-cases (valid s && not (has d (label s)))) [
          | inl e ↦ rw e (omega (arith, later, fewer, within.3, moved))
          | inr e ↦ rw e skipped
        ]
