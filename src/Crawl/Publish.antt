-- ===== src/Crawl/Publish.antt =====
-- One crawl from end to end: fetchAndStoreAssets of cmd/dataservice/main.go, with crawlAndCollect,
-- publishCrawl and recordCrawlCompletion. What the site, the clock and the file system answer is an
-- argument, `World`.
pub mod Order
use itchgrep.Base.{
  ℕ, ◌+◌, Bool, true, false, not, ◌&&◌, Option, none, some, List, [], ◌∷◌, map, select, length, ltb,
  leb, ◌==◌, if◌then◌else◌,
}
use itchgrep.Base.Int.{ℤ}
use itchgrep.Base.Text.{Text}
use itchgrep.Base.Text.Sets.{has, set_of}
use itchgrep.Money.Float.{Float64}
use itchgrep.Money.Rates.{Rates}
use itchgrep.Models.Tag.{Tag}
use itchgrep.Models.Asset.{Asset, Unicode, free}
use itchgrep.Models.Indexed.{IndexedAsset}
use itchgrep.Storage.{
  File, Indexes, Outcomes, write, aside, read_list, put_history, get_checkpoint, publish_index,
}
use itchgrep.Fetcher.Slice.{Slice}
use itchgrep.Fetcher.Planner.{plan_slices}
use itchgrep.Crawl.{Arrival, stamp_first_seen}
use itchgrep.Crawl.Collect.{Crawler, fresh, attach_tags, attach_recency}
use itchgrep.Crawl.Run.{Fetched, Config, coverage, run}
use itchgrep.Crawl.Checkpoint.{Checkpoint, resume}
use itchgrep.Crawl.Build.{build_index}

pub record Stats : Type 0 where
  pub indexed : ℕ
  pub catalog : ℕ

-- Without the duration and the counters that other parts keep.
pub record CrawlRecord : Type 0 where
  pub published_at : Option ℤ
  pub indexed : ℕ
  pub catalog : ℕ
  pub new_assets : ℕ
  pub removed_assets : ℕ
  pub free_assets : ℕ
  pub pages : ℕ
  pub slices_planned : ℕ
  pub tags : ℕ
  pub resumed : Bool

abbrev pub checkpoint_version : ℕ
checkpoint_version = 3

-- How many of the ids of one list are not in another, each counted once.
abbrev pub ids : List Asset → List Text
ids assets = set_of (map (λ a. a.game_id) assets)

abbrev pub count_absent : List Text → List Text → ℕ
count_absent xs ys = length (select (λ t. not (has ys t)) xs)

-- The new and the removed assets.
unfoldable pub diff_asset_ids : List Asset → List Asset → ℕ × ℕ
unfolding set_of
diff_asset_ids previous current =
    (count_absent (ids current) (ids previous), count_absent (ids previous) (ids current))

module _ (uni : Unicode) (fl : Float64) where
  pub record Disk : Type 0 where
    pub assets : File (List Asset)
    pub tags : File (List Tag)
    pub first_seen : File (List (Text × Arrival))
    pub rates : File (Rates fl)
    pub stats : File Stats
    pub history : File (List CrawlRecord)
    pub checkpoint : File (ℕ × Checkpoint)
    pub index : Indexes (List (IndexedAsset fl))

  -- A Bool says whether a write, a removal or the move of a corrupt file succeeds.
  pub record World : Type 0 where
    pub writable : Bool
    pub asset_count : Option ℕ
    pub first_page : Option ℕ
    pub tag_age : ℕ
    pub discovered : Option (List Tag)
    pub put_tags : Bool
    pub checkpoint_age : ℕ
    pub answers : Slice → ℕ → ℕ → List Fetched
    pub checkpoint_left : File (ℕ × Checkpoint)
    pub first_seen_aside : Bool
    pub published_at : Option ℤ
    pub rates : Rates fl
    pub build : Bool
    pub staging_left : Option (List (IndexedAsset fl))
    pub renames : Outcomes (List (IndexedAsset fl))
    pub put_rates : Bool
    pub put_assets : Bool
    pub put_first_seen : Bool
    pub put_stats : Bool
    pub history_aside : Bool
    pub put_history : Bool
    pub completed_at : Option ℤ
    pub delete_checkpoint : Bool

  pub record Settings : Type 0 where
    pub crawl : Config fl
    pub coverage_floor : fl.F
    pub tag_cache_max_age : ℕ
    pub checkpoint_max_age : ℕ

  pub record CrawlResult : Type 0 where
    pub coverage : fl.F
    pub total_assets : ℕ
    pub tags_discovered : ℕ
    pub slices_planned : ℕ
    pub crawler : Crawler

  -- The tag cache, when it is young and not empty; else what is discovered, which is cached.
  unfoldable pub load_or_discover_tags : World → Settings → Disk → Option (List Tag) × Disk
  unfolding write
  load_or_discover_tags w s d =
      let cached = read_list d.tags in
      let discovered : Option (List Tag) × Disk = elim w.discovered [
        | none ↦ (none, d)
        | some tags ↦ (some tags, record d { tags = write w.put_tags tags d.tags })
      ] in
      if not (length cached == 0) && ltb w.tag_age s.tag_cache_max_age
      then (some cached, d)
      else discovered

  -- The crawl, once the catalog is sized, from the tags on.
  unfoldable pub crawl_with : World → Settings → Disk → ℕ → ℕ → List Tag → CrawlResult × Disk
  unfolding plan_slices resume run attach_tags attach_recency coverage get_checkpoint
  crawl_with w s d total items tags =
      let slices = plan_slices tags items in
      let start =
        resume s.checkpoint_max_age w.checkpoint_age
          (get_checkpoint checkpoint_version d.checkpoint) (fresh items total) in
      let c = attach_recency (attach_tags (run fl s.crawl w.answers slices start)) in
      (
        record {
          coverage = coverage fl c;
          total_assets = total;
          tags_discovered = length tags;
          slices_planned = length slices;
          crawler = c;
        },
        record d { checkpoint = w.checkpoint_left },
      )

  unfoldable pub crawl_and_collect : World → Settings → Disk → Option CrawlResult × Disk
  unfolding load_or_discover_tags crawl_with
  crawl_and_collect w s d = elim w.asset_count [
    | none ↦ (none, d)
    | some total ↦ elim w.first_page [
      | none ↦ (none, d)
      | some items ↦ if leb items 0 then (none, d) else elim (load_or_discover_tags w s d).0 [
        | none ↦ (none, (load_or_discover_tags w s d).1)
        | some tags ↦
            let (r, d') = crawl_with w s (load_or_discover_tags w s d).1 total items tags in
            (some r, d')
      ]
    ]
  ]

  unfoldable pub clears_floor : fl.F → fl.F → Bool
  clears_floor coverage floor = not (fl.lt coverage floor)

  -- The known arrivals; a file that cannot be read is an empty map.
  abbrev pub known_arrivals : Disk → List (Text × Arrival)
  known_arrivals d = read_list d.first_seen

  abbrev pub stamped_assets :
      World → List Asset → List Asset → Disk → List Asset × List (Text × Arrival)
  stamped_assets w assets previous d =
      stamp_first_seen (known_arrivals d) previous assets w.published_at

  -- The end of a publish, once the index is swapped in: the rates, then the assets, then the arrivals.
  unfoldable pub store_published : World → List Asset × List (Text × Arrival) → Disk → Disk × Bool
  unfolding write
  store_published w stamped d =
      let d' : Disk = record d { rates = write w.put_rates w.rates d.rates } in
      if w.put_assets
      then (
        record d' {
          assets = write true stamped.0 d'.assets;
          first_seen = write w.put_first_seen stamped.1 d'.first_seen;
        },
        true,
      )
      else (d', false)

  unfoldable pub publish_crawl : World → List Asset → List Asset → Disk → Disk × Bool
  unfolding aside build_index publish_index store_published stamp_first_seen
  publish_crawl w assets previous d =
      let stamped = stamped_assets w assets previous d in
      let d' : Disk = record d { first_seen = aside w.first_seen_aside d.first_seen } in
      let staging =
        if w.build then some (build_index uni fl w.rates stamped.0) else w.staging_left in
      let swapped = publish_index w.renames (record d.index { staging = staging }) in
      if w.build
      then (if swapped.1
          then store_published w stamped (record d' { index = swapped.0 })
          else (record d' { index = swapped.0 }, false))
      else (record d' { index = record d.index { staging = staging } }, false)

  -- Every write is tried, and none fails the crawl.
  unfoldable pub record_crawl_completion : World → CrawlResult → List Asset → Disk → Disk
  unfolding write put_history diff_asset_ids free
  record_crawl_completion w r previous d =
      let assets = r.crawler.assets in
      let (new_assets, removed_assets) = diff_asset_ids previous assets in
      record d {
        stats =
            write w.put_stats (record { indexed = length assets; catalog = r.total_assets })
              d.stats;
        history =
            put_history w.history_aside w.put_history
              (record {
                published_at = w.completed_at;
                indexed = length assets;
                catalog = r.total_assets;
                new_assets = new_assets;
                removed_assets = removed_assets;
                free_assets = length (select free assets);
                pages = r.crawler.pages_fetched;
                slices_planned = r.slices_planned;
                tags = r.tags_discovered;
                resumed = r.crawler.resumed;
              })
              d.history;
        checkpoint = if w.delete_checkpoint then File.missing else d.checkpoint;
      }

  abbrev pub published_assets : Disk → List Asset
  published_assets d = read_list d.assets

  -- From a finished crawl on.
  unfoldable pub gate_and_publish : World → Settings → CrawlResult → Disk → Disk × Bool
  unfolding clears_floor publish_crawl record_crawl_completion
  gate_and_publish w s r d =
      let previous = published_assets d in
      let (d', ok) = publish_crawl w r.crawler.assets previous d in
      if clears_floor r.coverage s.coverage_floor
      then (if ok then (record_crawl_completion w r previous d', true) else (d', false))
      else (d, false)

  unfoldable pub after_crawl : World → Settings → Option CrawlResult × Disk → Disk × Bool
  unfolding gate_and_publish
  after_crawl w s (none, d) = (d, false)
  after_crawl w s (some r, d) = gate_and_publish w s r d

  unfoldable pub fetch_and_store_assets : World → Settings → Disk → Disk × Bool
  unfolding crawl_and_collect after_crawl
  fetch_and_store_assets w s d =
      if w.writable then after_crawl w s (crawl_and_collect w s d) else (d, false)
