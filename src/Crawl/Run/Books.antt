-- ===== src/Crawl/Run/Books.antt =====
-- What crawler.run of cmd/dataservice/main.go keeps of the assets that it collects.
use itchgrep.Base.{ℕ, zero, suc, ◌+◌, not, ◌&&◌, List, [], ◌∷◌, ltb, if◌then◌else◌, by_if}
use itchgrep.Base.Text.{Text}
use itchgrep.Base.Text.Sets.{has, set_add}
use itchgrep.Money.Float.{Float64}
use itchgrep.Fetcher.Slice.{Slice, valid, label, is_root, is_newest_root, pages_to_fetch}
use itchgrep.Crawl.Collect.{Crawler, tag_set}
use itchgrep.Crawl.Collect.Collected.{Collected, record_page-Collected}
use itchgrep.Crawl.Run.{
  Reply, Fetched, Config, rank_for, take_reply, take_replies, batch_end, fetch_batch, page_through,
  run_slice, run, done,
}

-- The counters and the work list do not matter.
module _ (c : Crawler) (h : Collected c) where
  count-Collected : (n : ℕ) → Collected (record c { pages_fetched = n })
  unfolding tag_set
  count-Collected n = record { seen_all = h.seen_all; distinct = h.distinct; sets = h.sets }

  rank-Collected : (n : ℕ) → Collected (record c { max_root_rank = n })
  unfolding tag_set
  rank-Collected n = record { seen_all = h.seen_all; distinct = h.distinct; sets = h.sets }

  pub tick-Collected : (labels : List Text) → Collected (record c { done_slices = labels })
  unfolding tag_set
  tick-Collected labels = record { seen_all = h.seen_all; distinct = h.distinct; sets = h.sets }

take_reply-Collected_at :
    (s : Slice) (page : ℕ) (r : Reply) (c : Crawler)
    → Collected c
    → Collected (take_reply s (record { page = page; reply = r }) c).0
unfolding take_reply
take_reply-Collected_at s page Reply.exhausted c h = count-Collected c h (c.pages_fetched + 1)
take_reply-Collected_at s page Reply.failed c h = count-Collected c h (c.pages_fetched + 1)
take_reply-Collected_at s page (Reply.listed assets) c h =
    record_page-Collected s.tags (if is_newest_root s then page else 0)
      (assets (rank_for (record c { pages_fetched = c.pages_fetched + 1 }) (is_root s) page)) _
      (count-Collected c h (c.pages_fetched + 1))

take_replies-Collected :
    (s : Slice) (fs : List Fetched) (c : Crawler) → Collected c → Collected (take_replies s fs c).0
unfolding take_replies
take_replies-Collected s [] c h = h
take_replies-Collected s (f ∷ fs) c h =
    take_replies-Collected s fs (take_reply s f c).0 (take_reply-Collected_at s f.page f.reply c h)

module _ (fl : Float64) (cfg : Config fl) (answers : Slice → ℕ → ℕ → List Fetched) where
  fetch_batch-Collected :
      (s : Slice) (start : ℕ) (recent : List ℕ) (c : Crawler)
      → Collected c
      → Collected (fetch_batch fl cfg answers s start recent c).0
  unfolding fetch_batch
  fetch_batch-Collected s start recent c h =
      let end = batch_end fl cfg answers s start c in
      let taken = take_replies s (answers s start end) c in
      let h' = take_replies-Collected s (answers s start end) c h in
      by_if {A = Crawler} Collected (is_root s && ltb taken.0.max_root_rank end)
        (λ _. rank-Collected taken.0 h' end) (λ _. h')

  page_through-Collected :
      (fuel : ℕ) (s : Slice) (start : ℕ) (recent : List ℕ) (c : Crawler)
      → Collected c
      → Collected (page_through fl cfg answers fuel s start recent c)
  unfolding page_through
  page_through-Collected zero s start recent c h = h
  page_through-Collected (suc fuel) s start recent c h =
      let batch = fetch_batch fl cfg answers s start recent c in
      let h' = fetch_batch-Collected s start recent c h in
      by_if {A = Crawler} Collected (ltb (pages_to_fetch s c.items_per_page) start) (λ _. h)
        λ _.
          by_if {A = Crawler} Collected (done fl cfg c) (λ _. h)
            λ _.
              by_if {A = Crawler} Collected batch.2 (λ _. h')
                λ _. page_through-Collected fuel s (start + 8) batch.1 batch.0 h'

  -- Whatever the site answers, a crawl over any slices keeps the books: the ids seen are those of
  -- the assets, no asset has an empty id or the id of another, and the tags learned of an id are
  -- in ascending order without duplicates.
  pub run-Collected :
      (slices : List Slice) (c : Crawler) → Collected c → Collected (run fl cfg answers slices c)
  unfolding run run_slice
  run-Collected [] c h = h
  run-Collected (s ∷ slices) c h =
      let visited = run_slice fl cfg answers s c in
      let h' = page_through-Collected (pages_to_fetch s c.items_per_page + 1) s 1 [] c h in
      let c' : Crawler = record visited { done_slices = set_add (label s) visited.done_slices } in
      by_if {A = Crawler} Collected (done fl cfg c) (λ _. h)
        λ _. run-Collected slices _ (
          by_if {A = Crawler} Collected (valid s && not (has c.done_slices (label s)))
            (λ _. tick-Collected visited h' (set_add (label s) visited.done_slices)) (λ _. h))
