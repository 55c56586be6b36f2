-- ===== src/Crawl/Checkpoint/Resumed.antt =====
-- What a resumed crawl has of the crawl that wrote the checkpoint: crawler.resume after
-- crawler.checkpoint, of cmd/dataservice/main.go.
use mathlib.Core.Path.{subst}
use mathlib.Core.List.{append_assoc, append-nil}
use itchgrep.Base.{
  ℕ, ◌≤◌, true, false, ◌||◌, some, List, [], ◌∷◌, ◌++◌, map, ◌≡◌, refl, sym, ap, ◌∙◌, ltb,
  Bool-cases, inl, inr, arith, if◌then◌else◌, by_if, All, All-weaken, ◌==◌,
}
use itchgrep.Base.Text.{Text, text_eq, text_eq_iff}
use itchgrep.Base.Text.Maps.{lookup, lookup-put}
use itchgrep.Base.Text.Sets.{has, set_add, set_of, has-set_add, Ascending, set_of-Ascending}
use itchgrep.Models.Asset.{Asset}
use itchgrep.Crawl.Collect.{Crawler, fresh, tag_set, tagged, attach_tags}
use itchgrep.Crawl.Collect.Collected.{holds, Distinct, Collected, tag_set-put}
use itchgrep.Crawl.Checkpoint.{
  Checkpoint, checkpoint, restore_asset, restore_assets, add_labels, copy_ranks, resume,
}

abbrev Fits : Crawler → Asset → Type 0
Fits r a = (has r.seen a.game_id ≡ false) × (tag_set r a.game_id ≡ []) × Ascending a.tags

-- A new asset of a checkpoint: it is appended, seen, and its tags are its set.
abbrev Restored : Asset → Crawler → Crawler → Type 0
Restored a r d =
    (d.assets ≡ r.assets ++ (a ∷ []))
    × (d.seen ≡ set_add a.game_id r.seen)
    × ((u : Text) → tag_set d u ≡ (if text_eq a.game_id u then a.tags else tag_set r u))
    × ((d.done_slices ≡ r.done_slices) × (d.recency ≡ r.recency))

restore_asset-Restored_at :
    (a : Asset) (tags : List Text) (r : Crawler)
    → text_eq a.game_id [] ≡ false
    → Fits r (record a { tags = tags })
    → Restored (record a { tags = tags }) r (restore_asset (record a { tags = tags }) r)
unfolding restore_asset tag_set
restore_asset-Restored_at a [] r named fits =
    rw (named, fits.0)
      (
        refl,
        refl,
        λ u.
            by_if (λ v. tag_set r u ≡ v) (text_eq a.game_id u)
              (λ same. subst (λ v. tag_set r v ≡ []) ((text_eq_iff a.game_id u).0 same) fits.1)
              (λ _. refl),
        (refl, refl),
      )
restore_asset-Restored_at a (t ∷ tags) r named fits =
    rw (named, fits.0)
      (
        refl,
        refl,
        λ u.
            tag_set-put a.game_id u (set_of (t ∷ tags)) r
            ∙ ap (λ ts. if text_eq a.game_id u then ts else tag_set r u)
                (set_of-Ascending (t ∷ tags) fits.2),
        (refl, refl),
      )

restore_asset-Restored :
    (a : Asset) (r : Crawler)
    → text_eq a.game_id [] ≡ false
    → Fits r a
    → Restored a r (restore_asset a r)
restore_asset-Restored a r named fits = restore_asset-Restored_at a a.tags r named fits

-- The tags of the first asset with an id.
abbrev tags_of : List Asset → Text → List Text → List Text
tags_of [] u tags = tags
tags_of (a ∷ assets) u tags = if text_eq a.game_id u then a.tags else tags_of assets u tags

Fits-later :
    (a : Asset) (r d : Crawler) (assets : List Asset)
    → Restored a r d
    → holds assets a.game_id ≡ false
    → All (Fits r) assets
    → All (Fits d) assets
Fits-later a r d [] new absent fits = tt
Fits-later a r d (b ∷ assets) new absent fits =
    let other : text_eq a.game_id b.game_id ≡ false =
      ground (arith, absent, text_eq_iff a.game_id b.game_id, text_eq_iff b.game_id a.game_id) in
    let unseen : has d.seen b.game_id ≡ false =
      ap (λ us. has us b.game_id) new.1
      ∙ (has-set_add a.game_id b.game_id r.seen ∙ rw (other, fits.0.0)) in
    let untagged : tag_set d b.game_id ≡ [] = new.2 b.game_id ∙ rw (other, fits.0.1) in
    ((unseen, untagged, fits.0.2), Fits-later a r d assets new (ground (arith, absent)) fits.1)

tags_of_absent :
    (assets : List Asset) (u : Text) (tags : List Text)
    → holds assets u ≡ false
    → tags_of assets u tags ≡ tags
tags_of_absent [] u tags h = refl
tags_of_absent (a ∷ assets) u tags h = ground (arith, tags_of_absent assets u tags)

abbrev AllRestored : List Asset → Crawler → Crawler → Type 0
AllRestored assets r d =
    (d.assets ≡ r.assets ++ assets)
    × ((u : Text) → has d.seen u ≡ holds assets u || has r.seen u)
    × ((u : Text) → tag_set d u ≡ tags_of assets u (tag_set r u))
    × ((d.done_slices ≡ r.done_slices) × (d.recency ≡ r.recency))

restore_assets_lem :
    (assets : List Asset) (r : Crawler)
    → Distinct assets
    → All (Fits r) assets
    → AllRestored assets r (restore_assets assets r)
unfolding restore_assets
restore_assets_lem [] r h fits = (sym (append-nil r.assets), λ u. refl, λ u. refl, (refl, refl))
restore_assets_lem (a ∷ assets) r h fits =
    let d = restore_asset a r in
    let new = restore_asset-Restored a r h.0 fits.0 in
    let first_wins : (u : Text)
        → tags_of assets u (if text_eq a.game_id u then a.tags else tag_set r u)
          ≡ tags_of (a ∷ assets) u (tag_set r u) =
      λ u. elim (Bool-cases (text_eq a.game_id u)) [
        | inl e ↦ rw e (
            tags_of_absent assets u a.tags
              (subst (λ v. holds assets v ≡ false) ((text_eq_iff a.game_id u).0 e) h.1))
        | inr e ↦ rw e
      ] in
    let rest = restore_assets_lem assets d h.2 (Fits-later a r d assets new h.1 fits.1) in
    (
      rest.0 ∙ rw (new.0, append_assoc),
      λ u. ground (arith, rest.1 u, ap (λ us. has us u) new.1, has-set_add a.game_id u r.seen),
      λ u. rest.2 u ∙ (ap (tags_of assets u) (new.2 u) ∙ first_wins u),
      (rest.3.0 ∙ new.3.0, rest.3.1 ∙ new.3.1),
    )

tagged-game_id : (c : Crawler) (a : Asset) → (tagged c a).game_id ≡ a.game_id
unfolding tagged
tagged-game_id c a = ground arith

holds-map-tagged :
    (c : Crawler) (assets : List Asset) (t : Text)
    → holds (map (tagged c) assets) t ≡ holds assets t
holds-map-tagged c [] t = refl
holds-map-tagged c (a ∷ assets) t = rw (tagged-game_id c a, holds-map-tagged c assets t)

Distinct-map-tagged :
    (c : Crawler) (assets : List Asset) → Distinct assets → Distinct (map (tagged c) assets)
Distinct-map-tagged c [] h = tt
Distinct-map-tagged c (a ∷ assets) h = (
  rw (tagged-game_id c a) h.0,
  rw (tagged-game_id c a, holds-map-tagged c assets a.game_id) h.1,
  Distinct-map-tagged c assets h.2,
)

abbrev with_tags : Asset → List Text → Asset
with_tags a [] = a
with_tags a (t ∷ tags) = record a { tags = t ∷ tags }

tagged-with_tags : (c : Crawler) (a : Asset) → tagged c a ≡ with_tags a (tag_set c a.game_id)
unfolding tagged
tagged-with_tags c a = refl

with_tags-Ascending :
    (a : Asset) (tags : List Text)
    → Ascending tags
    → Ascending a.tags
    → Ascending (with_tags a tags).tags
with_tags-Ascending a [] h own = own
with_tags-Ascending a (t ∷ tags) h own = h

with_tags_same : (a : Asset) (tags : List Text) → tags ≡ a.tags → with_tags a tags ≡ a
with_tags_same a [] e = refl
with_tags_same a (t ∷ tags) e = ap (λ ts. record a { tags = ts }) e

tagged-Fits :
    (c : Crawler) (a : Asset) (items total : ℕ)
    → ((t : Text) → Ascending (tag_set c t))
    → Ascending a.tags
    → Fits (fresh items total) (tagged c a)
unfolding tag_set lookup
tagged-Fits c a items total sets own = (
  refl,
  refl,
  subst (λ b. Ascending b.tags) (sym (tagged-with_tags c a))
      (with_tags-Ascending a (tag_set c a.game_id) (sets a.game_id) own),
)

All-tagged-Fits :
    (c : Crawler) (assets : List Asset) (items total : ℕ)
    → ((t : Text) → Ascending (tag_set c t))
    → All (λ a. Ascending a.tags) assets
    → All (Fits (fresh items total)) (map (tagged c) assets)
All-tagged-Fits c [] items total sets own = tt
All-tagged-Fits c (a ∷ assets) items total sets own =
    (tagged-Fits c a items total sets own.0, All-tagged-Fits c assets items total sets own.1)

-- An asset with the tags of its set is left as it is.
tagged_same : (d : Crawler) (a : Asset) → tag_set d a.game_id ≡ a.tags → tagged d a ≡ a
tagged_same d a e = tagged-with_tags d a ∙ with_tags_same a (tag_set d a.game_id) e

map-tagged_same :
    (d : Crawler) (assets : List Asset)
    → All (λ a. tag_set d a.game_id ≡ a.tags) assets
    → map (tagged d) assets ≡ assets
map-tagged_same d [] h = refl
map-tagged_same d (a ∷ assets) h = rw (tagged_same d a h.0, map-tagged_same d assets h.1)

tags_of_own_later :
    (a : Asset) (all assets : List Asset) (tags : Text → List Text)
    → holds assets a.game_id ≡ false
    → All (λ b. tags_of all b.game_id (tags b.game_id) ≡ b.tags) assets
    → All (λ b. tags_of (a ∷ all) b.game_id (tags b.game_id) ≡ b.tags) assets
tags_of_own_later a all [] tags absent h = tt
tags_of_own_later a all (b ∷ assets) tags absent h =
    let other : text_eq a.game_id b.game_id ≡ false =
      ground (arith, absent, text_eq_iff a.game_id b.game_id, text_eq_iff b.game_id a.game_id) in
    (rw other h.0, tags_of_own_later a all assets tags (ground (arith, absent)) h.1)

tags_of_own :
    (assets : List Asset) (tags : Text → List Text)
    → Distinct assets
    → All (λ a. tags_of assets a.game_id (tags a.game_id) ≡ a.tags) assets
tags_of_own [] tags h = tt
tags_of_own (a ∷ assets) tags h = (
  rw ((text_eq_iff a.game_id a.game_id).1 refl),
  tags_of_own_later a assets assets tags h.1 (tags_of_own assets tags h.2),
)

has-add_labels :
    (labels finished : List Text) (t : Text)
    → has (add_labels labels finished) t ≡ has labels t || has finished t
unfolding add_labels
has-add_labels [] finished t = refl
has-add_labels (l ∷ labels) finished t =
    ground (arith, has-set_add l t (add_labels labels finished), has-add_labels labels finished t)

has-add_labels_none : (labels : List Text) (t : Text) → has (add_labels labels []) t ≡ has labels t
has-add_labels_none labels t = ground (arith, has-add_labels labels [] t)

lookup-copy_ranks :
    (ranks : List (Text × ℕ)) (t : Text) → lookup t (copy_ranks ranks []) ≡ lookup t ranks
unfolding copy_ranks lookup
lookup-copy_ranks [] t = refl
lookup-copy_ranks ((id, page) ∷ ranks) t =
    lookup-put id t page (copy_ranks ranks [])
    ∙ ap (λ o. if text_eq id t then some page else o) (lookup-copy_ranks ranks t)

-- Two crawls have collected the same: the assets with their tags, the ids seen, the ranks, and the
-- slices that are done.
abbrev pub SameCrawl : Crawler → Crawler → Type 0
SameCrawl c d =
    ((attach_tags d).assets ≡ (attach_tags c).assets)
    × ((t : Text) → has d.seen t ≡ has c.seen t)
    × ((t : Text) → lookup t d.recency ≡ lookup t c.recency)
    × ((t : Text) → has d.done_slices t ≡ has c.done_slices t)
    × (d.max_root_rank ≡ c.max_root_rank)

resume_fresh :
    (max_age age : ℕ) (cp : Checkpoint) (items : ℕ)
    → age ≤ max_age
    → resume max_age age (some cp) (fresh items cp.total_assets) ≡ (
        let r = restore_assets cp.assets (fresh items cp.total_assets) in
        record r {
          done_slices = add_labels cp.done_slices r.done_slices;
          max_root_rank = cp.max_root_rank;
          recency = copy_ranks cp.recency r.recency;
          resumed = true;
        })
unfolding resume
resume_fresh max_age age cp items le =
    let young : ltb max_age age ≡ false = ground arith in
    let same : (cp.total_assets == cp.total_assets) ≡ true = ground arith in rw (young, same)

-- A fresh crawl of a catalog of the same size that is resumed from the checkpoint of a crawl,
-- where the checkpoint is not too old and the crawl kept its books and its assets carry sorted
-- tags of their own, has the same assets with the same tags attached, in the same order, the same
-- ids seen, the same recency ranks, the same slices done and the same highest root rank.
pub resume-checkpoint :
    (max_age age : ℕ) (c : Crawler)
    → Collected c
    → All (λ a. Ascending a.tags) c.assets
    → age ≤ max_age
    → SameCrawl c (resume max_age age (some (checkpoint c)) (fresh c.items_per_page c.total_assets))
unfolding checkpoint attach_tags tag_set
resume-checkpoint max_age age c h own le =
    let items = c.items_per_page in
    let total = c.total_assets in
    let assets = map (tagged c) c.assets in
    let d = restore_assets assets (fresh items total) in
    let distinct = Distinct-map-tagged c c.assets h.distinct in
    let r =
      restore_assets_lem assets (fresh items total) distinct
        (All-tagged-Fits c c.assets items total h.sets own) in
    let own_tags =
      All-weaken (λ a. tags_of assets a.game_id (tag_set (fresh items total) a.game_id) ≡ a.tags)
        (λ a. tag_set d a.game_id ≡ a.tags) (λ a q. r.2 a.game_id ∙ q) assets
        (tags_of_own assets (tag_set (fresh items total)) distinct) in
    subst (SameCrawl c) (sym (resume_fresh max_age age (checkpoint c) items le)) (
      ap (map (tagged d)) r.0 ∙ map-tagged_same d assets own_tags,
      λ t. ground (arith, r.1 t, holds-map-tagged c c.assets t, h.seen_all t),
      λ t. ap (λ m. lookup t (copy_ranks c.recency m)) r.3.1 ∙ lookup-copy_ranks c.recency t,
      λ t. ap (λ f. has (add_labels c.done_slices f) t) r.3.0 ∙ has-add_labels_none c.done_slices t,
      refl,
    )
