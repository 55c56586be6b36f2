-- ===== src/Crawl/Run/Rounds.antt =====
-- One batch and one round of crawler.fetchPages of cmd/dataservice/main.go: what they count and
-- what they leave alone.
use itchgrep.Base.{ℕ, ◌+◌, List, [], ◌∷◌, ◌≡◌, refl, arith, length, if◌then◌else◌}
use itchgrep.Fetcher.Slice.{Slice, is_root, is_newest_root}
use itchgrep.Crawl.Collect.{Crawler}
use itchgrep.Crawl.Collect.Kept.{record_page-Same}
use itchgrep.Crawl.Run.{Reply, Fetched, take_reply, take_replies, rank_for}

-- All but the view ranks, with the pages counted.
abbrev pub Counted : ℕ → Crawler → Crawler → Type 0
Counted n c d =
    (d.items_per_page ≡ c.items_per_page)
    × (d.total_assets ≡ c.total_assets)
    × (d.done_slices ≡ c.done_slices)
    × (d.pages_fetched ≡ c.pages_fetched + n)

take_reply-Counted_at :
    (s : Slice) (page : ℕ) (r : Reply) (c : Crawler)
    → Counted 1 c (take_reply s (record { page = page; reply = r }) c).0
unfolding take_reply
take_reply-Counted_at s page Reply.exhausted c = (refl, refl, refl, refl)
take_reply-Counted_at s page Reply.failed c = (refl, refl, refl, refl)
take_reply-Counted_at s page (Reply.listed assets) c =
    let c' : Crawler = record c { pages_fetched = c.pages_fetched + 1 } in
    let same =
      record_page-Same s.tags (if is_newest_root s then page else 0)
        (assets (rank_for c' (is_root s) page)) c' in
    (same.0, same.1, same.3, same.4)

take_reply-Counted : (s : Slice) (f : Fetched) (c : Crawler) → Counted 1 c (take_reply s f c).0
take_reply-Counted s f c = take_reply-Counted_at s f.page f.reply c

pub take_replies-Counted :
    (s : Slice) (fs : List Fetched) (c : Crawler) → Counted (length fs) c (take_replies s fs c).0
unfolding take_replies
take_replies-Counted s [] c = (refl, refl, refl, omega arith)
take_replies-Counted s (f ∷ fs) c =
    ground (arith, take_reply-Counted s f c, take_replies-Counted s fs (take_reply s f c).0)
