-- ===== src/Crawl/Publish/Order.antt =====
-- What a crawl leaves on the disk, if it publishes and if it does not: fetchAndStoreAssets of
-- cmd/dataservice/main.go.
use itchgrep.Base.{
  ℕ, Bool, true, false, Option, none, some, List, ◌≡◌, refl, sym, ap, ◌∙◌, Bool-cases, inl, inr,
  leb, by_if,
}
use itchgrep.Money.Float.{Float64}
use itchgrep.Models.Tag.{Tag}
use itchgrep.Models.Asset.{Asset, Unicode}
use itchgrep.Storage.{File, Indexes, write, aside, read, read_list, publish_index}
use itchgrep.Storage.Swap.{current, publish_index-Swapped}
use itchgrep.Crawl.Build.{build_index, each_document, build_index-each_document}
use itchgrep.Crawl.{Arrival}
use itchgrep.Base.Text.{Text}
use itchgrep.Crawl.Publish.{
  Disk, World, Settings, CrawlResult, load_or_discover_tags, crawl_with, crawl_and_collect,
  clears_floor, stamped_assets, store_published, publish_crawl, record_crawl_completion,
  published_assets, gate_and_publish, after_crawl, fetch_and_store_assets,
}

module _ (uni : Unicode) (fl : Float64) where
  -- All that is served, and what the next publish starts from.
  abbrev Untouched : Disk uni fl → Disk uni fl → Type 0
  Untouched d d' =
      (d'.assets ≡ d.assets)
      × (d'.first_seen ≡ d.first_seen)
      × (d'.rates ≡ d.rates)
      × (d'.stats ≡ d.stats)
      × (d'.history ≡ d.history)
      × (d'.index ≡ d.index)

  load_or_discover_tags-Untouched :
      (w : World uni fl) (s : Settings uni fl) (d : Disk uni fl)
      → Untouched d (load_or_discover_tags uni fl w s d).1
  unfolding load_or_discover_tags
  load_or_discover_tags-Untouched w s d =
      by_if {A = Option (List Tag) × Disk uni fl} (λ r. Untouched d r.1) _ (λ _. same)
        (λ _. go w.discovered)
    where
      same : Untouched d d
      same = (refl, refl, refl, refl, refl, refl)

      go :
          (found : Option (List Tag))
          → Untouched d
              (elim found as (λ _. Option (List Tag) × Disk uni fl) [
                | none ↦ (none, d)
                | some tags ↦ (some tags, record d { tags = write w.put_tags tags d.tags })
              ]).1
      go none = same
      go (some tags) = same

  crawl_and_collect-Untouched :
      (w : World uni fl) (s : Settings uni fl) (d : Disk uni fl)
      → Untouched d (crawl_and_collect uni fl w s d).1
  unfolding crawl_and_collect crawl_with
  crawl_and_collect-Untouched w s d = go w.asset_count w.first_page
    where
      loaded : Option (List Tag) × Disk uni fl
      loaded = load_or_discover_tags uni fl w s d

      same : Untouched d d
      same = (refl, refl, refl, refl, refl, refl)

      with_tags :
          (total items : ℕ) (tags : Option (List Tag))
          → Untouched d
              (elim tags as (λ _. Option (CrawlResult uni fl) × Disk uni fl) [
                | none ↦ (none, loaded.1)
                | some ts ↦
                    let (r, d') = crawl_with uni fl w s loaded.1 total items ts in (some r, d')
              ]).1
      with_tags total items none = load_or_discover_tags-Untouched w s d
      with_tags total items (some ts) = load_or_discover_tags-Untouched w s d

      go :
          (count page : Option ℕ)
          → Untouched d
              (crawl_and_collect uni fl (record w { asset_count = count; first_page = page }) s d).1
      go none page = same
      go (some total) none = same
      go (some total) (some items) =
          by_if {A = Option (CrawlResult uni fl) × Disk uni fl} (λ r. Untouched d r.1) (leb items 0)
            (λ _. same) (λ _. with_tags total items loaded.0)

  store_published_lem :
      (w : World uni fl) (stamped : List Asset × List (Text × Arrival)) (d : Disk uni fl)
      → ((store_published uni fl w stamped d).1 ≡ w.put_assets)
        × ((store_published uni fl w stamped d).0.index ≡ d.index)
        × (w.put_assets ≡ true
            → (store_published uni fl w stamped d).0.assets ≡ File.holds stamped.0)
        × (w.put_assets ≡ false → (store_published uni fl w stamped d).0.assets ≡ d.assets)
        × (w.put_assets ≡ false → (store_published uni fl w stamped d).0.first_seen ≡ d.first_seen)
        × ((store_published uni fl w stamped d).0.stats ≡ d.stats)
        × ((store_published uni fl w stamped d).0.history ≡ d.history)
  unfolding store_published write
  store_published_lem w stamped d = elim (Bool-cases w.put_assets) [
    | inl e ↦ rw e (refl, refl, (λ _. refl), (λ h. cc), (λ h. cc), refl, refl)
    | inr e ↦ rw e (refl, refl, (λ h. cc), (λ _. refl), (λ _. refl), refl, refl)
  ]

  -- What a publish leaves: the new dataset with the index of just that dataset, or the old one.
  abbrev Published :
      World uni fl → List Asset × List (Text × Arrival) → Disk uni fl → Disk uni fl × Bool → Type 0
  Published w stamped d r =
      (r.1 ≡ true
        → (r.0.assets ≡ File.holds stamped.0)
          × (r.0.index.published ≡ some (each_document uni fl w.rates stamped.0)))
      × (r.1 ≡ false
          → (r.0.assets ≡ d.assets)
            × (r.0.stats ≡ d.stats)
            × (r.0.history ≡ d.history)
            × (read r.0.first_seen ≡ read d.first_seen)
            × (w.put_assets ≡ true → (current r.0.index ≡ current d.index) × (r.0.rates ≡ d.rates)))

  read-aside : {A : Type 0} (renamed : Bool) (file : File A) → read (aside renamed file) ≡ read file
  unfolding aside
  read-aside renamed File.missing = refl
  read-aside true File.corrupt = refl
  read-aside false File.corrupt = refl
  read-aside renamed (File.holds a) = refl

  publish_crawl-Published :
      (w : World uni fl) (assets previous : List Asset) (d : Disk uni fl)
      → Published w
          (stamped_assets uni fl w assets previous d)
          d
          (publish_crawl uni fl w assets previous d)
  unfolding publish_crawl
  publish_crawl-Published w assets previous d =
      let stamped = stamped_assets uni fl w assets previous d in
      let docs = build_index uni fl w.rates stamped.0 in
      let d' : Disk uni fl = record d { first_seen = aside w.first_seen_aside d.first_seen } in
      let seen = read-aside w.first_seen_aside d.first_seen in
      elim (Bool-cases w.build) [
        | inr e ↦ rw e ((λ h. cc), λ _. (refl, refl, refl, seen, λ _. (refl, refl)))
        | inl e ↦
            let index : Indexes _ = record d.index { staging = some docs } in
            let swap = publish_index-Swapped w.renames index docs refl in
            let stored =
              store_published_lem w stamped
                (record d' { index = (publish_index w.renames index).0 }) in
            elim (Bool-cases (publish_index w.renames index).1) [
              | inr q ↦
                  rw (e, q) ((λ h. cc), λ _. (refl, refl, refl, seen, λ _. ((swap.1 q).0, refl)))
              | inl q ↦
                  rw (e, q)
                    (
                      (λ h.
                          let put = sym stored.0 ∙ h in
                          (
                            stored.2 put,
                            ap (λ i. i.published) stored.1
                                ∙ ((swap.0 q).0
                                    ∙ ap some (build_index-each_document uni fl w.rates stamped.0)),
                          )),
                      λ h.
                          let kept = sym stored.0 ∙ h in
                          (
                            stored.3 kept,
                            stored.5,
                            stored.6,
                            ap read (stored.4 kept) ∙ seen,
                            λ put. cc,
                          ),
                    )
            ]
      ]

  gate_and_publish-Published :
      (w : World uni fl) (s : Settings uni fl) (x : CrawlResult uni fl) (d : Disk uni fl)
      → Published w
          (stamped_assets uni fl w x.crawler.assets (published_assets uni fl d) d)
          d
          (gate_and_publish uni fl w s x d)
        × ((gate_and_publish uni fl w s x d).1 ≡ true
            → clears_floor uni fl x.coverage s.coverage_floor ≡ true)
  unfolding gate_and_publish record_crawl_completion
  gate_and_publish-Published w s x d =
      let p = publish_crawl-Published w x.crawler.assets (published_assets uni fl d) d in
      let done = publish_crawl uni fl w x.crawler.assets (published_assets uni fl d) d in
      elim (Bool-cases (clears_floor uni fl x.coverage s.coverage_floor)) [
        | inr e ↦ rw e (((λ h. cc), λ _. (refl, refl, refl, refl, λ _. (refl, refl))), λ h. cc)
        | inl e ↦ elim (Bool-cases done.1) [
          | inl q ↦ rw (e, q) (((λ _. p.0 q), λ h. cc), λ _. refl)
          | inr q ↦ rw (e, q) (((λ h. cc), λ _. p.1 q), λ h. cc)
        ]
      ]

  -- A crawl cleared the floor, and its assets are published with an index of just them.
  abbrev pub Succeeded :
      World uni fl
      → Settings uni fl
      → Disk uni fl
      → Option (CrawlResult uni fl)
      → Disk uni fl
      → Type 0
  Succeeded w s d crawled d' =
      (x : CrawlResult uni fl) × (crawled ≡ some x)
      × (clears_floor uni fl x.coverage s.coverage_floor ≡ true)
      × (d'.assets
          ≡ File.holds (stamped_assets uni fl w x.crawler.assets (published_assets uni fl d) d).0)
      × (d'.index.published
          ≡ some (
              each_document uni fl w.rates
                (stamped_assets uni fl w x.crawler.assets (published_assets uni fl d) d).0))

  -- What is served is as it was, but for the rates and the index if the assets could not be written.
  abbrev pub Kept : World uni fl → Disk uni fl → Disk uni fl → Type 0
  Kept w d d' =
      (d'.assets ≡ d.assets)
      × (d'.stats ≡ d.stats)
      × (d'.history ≡ d.history)
      × (read d'.first_seen ≡ read d.first_seen)
      × (w.put_assets ≡ true → (current d'.index ≡ current d.index) × (d'.rates ≡ d.rates))

  after_crawl-Succeeded :
      (w : World uni fl) (s : Settings uni fl) (d : Disk uni fl)
      (p : Option (CrawlResult uni fl) × Disk uni fl)
      → Untouched d p.1
      → (after_crawl uni fl w s p).1 ≡ true
      → Succeeded w s d p.0 (after_crawl uni fl w s p).0
  unfolding after_crawl
  after_crawl-Succeeded w s d (none, crawled) u ok = cc
  after_crawl-Succeeded w s d (some x, crawled) u ok =
      let p = gate_and_publish-Published w s x crawled in
      let same =
        ap
          (λ f.
            stamped_assets uni fl w x.crawler.assets (published_assets uni fl crawled)
              (record d { first_seen = f }))
          u.1
        ∙ ap (λ f. stamped_assets uni fl w x.crawler.assets (read_list f) d) u.0 in
      let done = p.0.0 ok in
      (
        x,
        refl,
        p.1 ok,
        done.0 ∙ ap (λ t. File.holds t.0) same,
        done.1 ∙ ap (λ t. some (each_document uni fl w.rates t.0)) same,
      )

  after_crawl-Kept :
      (w : World uni fl) (s : Settings uni fl) (d : Disk uni fl)
      (p : Option (CrawlResult uni fl) × Disk uni fl)
      → Untouched d p.1
      → (after_crawl uni fl w s p).1 ≡ false
      → Kept w d (after_crawl uni fl w s p).0
  unfolding after_crawl
  after_crawl-Kept w s d (none, crawled) u failed =
      (u.0, u.3, u.4, ap read u.1, λ _. (ap current u.5, u.2))
  after_crawl-Kept w s d (some x, crawled) u failed =
      let k = (gate_and_publish-Published w s x crawled).0.1 failed in
      (
        k.0 ∙ u.0,
        k.1 ∙ u.3,
        k.2 ∙ u.4,
        k.3 ∙ ap read u.1,
        λ put. ((k.4 put).0 ∙ ap current u.5, (k.4 put).1 ∙ u.2),
      )

  -- Whatever the site and the file system answer, a crawl that reports success collected assets,
  -- its coverage is not below the floor, the stored assets are those collected with their arrivals
  -- stamped, and the published index holds the documents of just these assets, priced with the
  -- rates of the crawl.
  pub fetch_and_store_assets-Succeeded :
      (w : World uni fl) (s : Settings uni fl) (d : Disk uni fl)
      → (fetch_and_store_assets uni fl w s d).1 ≡ true
      → Succeeded w s d (crawl_and_collect uni fl w s d).0 (fetch_and_store_assets uni fl w s d).0
  unfolding fetch_and_store_assets
  fetch_and_store_assets-Succeeded w s d =
      by_if {A = Disk uni fl × Bool}
        (λ r. r.1 ≡ true → Succeeded w s d (crawl_and_collect uni fl w s d).0 r.0) w.writable
        (λ _.
          after_crawl-Succeeded w s d (crawl_and_collect uni fl w s d)
            (crawl_and_collect-Untouched w s d))
        (λ _ h. cc)

  -- Whatever the site and the file system answer, a crawl that reports a failure leaves the stored
  -- assets, the stats, the history and what can be read of the arrivals as they were and, unless
  -- the write of the assets is what failed, the rates and the current index too.
  pub fetch_and_store_assets-Kept :
      (w : World uni fl) (s : Settings uni fl) (d : Disk uni fl)
      → (fetch_and_store_assets uni fl w s d).1 ≡ false
      → Kept w d (fetch_and_store_assets uni fl w s d).0
  unfolding fetch_and_store_assets
  fetch_and_store_assets-Kept w s d =
      by_if {A = Disk uni fl × Bool} (λ r. r.1 ≡ false → Kept w d r.0) w.writable
        (λ _.
          after_crawl-Kept w s d (crawl_and_collect uni fl w s d)
            (crawl_and_collect-Untouched w s d))
        (λ _ h. (refl, refl, refl, refl, λ _. (refl, refl)))
