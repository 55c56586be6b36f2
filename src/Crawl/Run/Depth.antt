-- ===== src/Crawl/Run/Depth.antt =====
-- How deep the crawl of cmd/dataservice/main.go pages: crawler.fetchPages on a root view, or on a
-- slice that it pages in full.
use itchgrep.Base.{
  ℕ, zero, suc, ◌+◌, ◌-◌, ◌*◌, ◌≤◌, true, false, ◌||◌, List, [], ◌≡◌, ap, ◌∙◌, ◌⊎◌, inl, inr, arith,
  ltb, Bool-cases, ◌<◌, ltb→lt,
}
use itchgrep.Money.Float.{Float64}
use itchgrep.Fetcher.Slice.{Slice, is_root, pages_to_fetch}
use itchgrep.Crawl.Collect.{Crawler}
use itchgrep.Crawl.Run.{
  Fetched, Config, page_through, run_slice, any_exhausted, fetch_batch, batch_end, done,
}
use itchgrep.Crawl.Run.Budget.{Answered, batch_end-le, fetch_batch-Counted, budget_exact}

module _ (fl : Float64) (cfg : Config fl) (answers : Slice → ℕ → ℕ → List Fetched) where
  fetch_batch-deep :
      (s : Slice) (start : ℕ) (recent : List ℕ) (c : Crawler)
      → (is_root s || s.page_in_full) ≡ true
      → any_exhausted (answers s start (batch_end fl cfg answers s start c)) ≡ false
      → (fetch_batch fl cfg answers s start recent c).2 ≡ false
  unfolding fetch_batch
  fetch_batch-deep s start recent c deep more = rw (more, deep)

  page_through-deep :
      Answered answers
      → (fuel : ℕ) (s : Slice) (start : ℕ) (recent : List ℕ) (c : Crawler)
      → (is_root s || s.page_in_full) ≡ true
      → ((from to : ℕ) → any_exhausted (answers s from to) ≡ false)
      → pages_to_fetch s c.items_per_page < start + 8 * fuel
      → (done fl cfg (page_through fl cfg answers fuel s start recent c) ≡ true)
        ⊎ ((page_through fl cfg answers fuel s start recent c).pages_fetched
            ≡ c.pages_fetched + (pages_to_fetch s c.items_per_page + 1 - start))
  unfolding page_through
  page_through-deep answered zero s start recent c deep more h = inr (omega arith)
  page_through-deep answered (suc fuel) s start recent c deep more h =
      let batch = fetch_batch fl cfg answers s start recent c in
      let m = pages_to_fetch s c.items_per_page in
      let kept =
        fetch_batch-deep s start recent c deep (more start (batch_end fl cfg answers s start c)) in
      elim (Bool-cases (ltb m start)) [
        | inl past ↦ let less = ltb→lt m start past in rw past (inr (omega arith))
        | inr ge ↦ elim (Bool-cases (done fl cfg c)) [
          | inl stop ↦ rw (ge, stop) (inl stop)
          | inr on ↦
              let in_range : start ≤ m = ground arith in
              let ends = batch_end-le fl cfg answers s start c in_range in
              let counted = fetch_batch-Counted fl cfg answers s start recent c in
              let pages = counted.3 ∙ ap (◌+◌ c.pages_fetched) (answered s start _ ends.0) in
              let same = ap (pages_to_fetch s) counted.0 in
              let later =
                page_through-deep answered fuel s (start + 8) batch.1 batch.0 deep more
                  (omega (arith, same)) in
              rw (ge, on, kept)
                (elim later [
                  | inl stop ↦ inl stop
                  | inr all ↦ inr (
                      budget_exact m (pages_to_fetch s batch.0.items_per_page) start
                        (batch_end fl cfg answers s start c) c.pages_fetched batch.0.pages_fetched _
                        same in_range ends.3 ends.4 pages all)
                ])
        ]
      ]

  -- If each page asked for is answered once and none is past the end, the root view and a slice
  -- that is paged in full are asked for all their pages, unless the crawl as a whole is done.
  pub run_slice-deep :
      (s : Slice) (c : Crawler)
      → Answered answers
      → (is_root s || s.page_in_full) ≡ true
      → ((from to : ℕ) → any_exhausted (answers s from to) ≡ false)
      → (done fl cfg (run_slice fl cfg answers s c) ≡ true)
        ⊎ ((run_slice fl cfg answers s c).pages_fetched
            ≡ c.pages_fetched + pages_to_fetch s c.items_per_page)
  unfolding run_slice
  run_slice-deep s c answered deep more =
      let m = pages_to_fetch s c.items_per_page in
      let e : m + 1 - 1 ≡ m = omega arith in
      rw e at (page_through-deep answered (m + 1) s 1 [] c deep more (omega arith))
