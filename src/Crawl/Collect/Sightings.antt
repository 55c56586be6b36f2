-- ===== src/Crawl/Collect/Sightings.antt =====
-- How recent an asset is, as crawler.record of cmd/dataservice/main.go learns it: the lowest page of
-- the newest view on which the asset was seen.
use itchgrep.Base.{
  ℕ, false, ◌&&◌, Option, none, some, List, [], ◌∷◌, ◌≡◌, refl, ltb, arith, if◌then◌else◌,
}
use itchgrep.Base.Text.{Text, text_eq, text_eq_iff}
use itchgrep.Base.Text.Maps.{lookup, lookup-put}
use itchgrep.Models.Asset.{Asset}
use itchgrep.Crawl.Collect.{Crawler, collect, learn_recency, learn_tags, record_asset, record_page}
use itchgrep.Crawl.Collect.Collected.{holds}

-- The earlier of a page and the earliest so far.
abbrev pub earliest : ℕ → Option ℕ → Option ℕ
earliest page none = some page
earliest page (some prev) = some (if ltb page prev then page else prev)

learn_recency-recency :
    (page : ℕ) (t u : Text) (c : Crawler)
    → lookup u (learn_recency page t c).recency ≡ (
        if ltb 0 page && text_eq t u
        then earliest page (lookup u c.recency)
        else lookup u c.recency)
unfolding learn_recency
learn_recency-recency page t u c = ground (arith, lookup-put t u page c.recency, text_eq_iff t u)

collect-recency : (a : Asset) (c : Crawler) → (collect a c).recency ≡ c.recency
unfolding collect
collect-recency a c = ground arith

learn_tags-recency :
    (tags : List Text) (t : Text) (c : Crawler) → (learn_tags tags t c).recency ≡ c.recency
unfolding learn_tags
learn_tags-recency [] t c = refl
learn_tags-recency (tag ∷ tags) t c = learn_tags-recency tags t _

record_asset-recency :
    (tags : List Text) (page : ℕ) (a : Asset) (u : Text) (c : Crawler)
    → text_eq u [] ≡ false
    → lookup u (record_asset tags page a c).recency ≡ (
        if ltb 0 page && text_eq a.game_id u
        then earliest page (lookup u c.recency)
        else lookup u c.recency)
unfolding record_asset
record_asset-recency tags page a u c named =
    let d = collect a c in
    ground (
      arith,
      learn_tags-recency tags a.game_id (learn_recency page a.game_id d),
      learn_recency-recency page a.game_id u d,
      collect-recency a c,
      text_eq_iff a.game_id u,
      text_eq_iff a.game_id [],
      text_eq_iff u [],
    )

earliest_twice : (page : ℕ) (o : Option ℕ) → earliest page (earliest page o) ≡ earliest page o
earliest_twice page none = ground arith
earliest_twice page (some prev) = ground arith

-- After a page is recorded, an id that is not empty and on the page has the page as its recency
-- rank, or the lower one that it had; where the page says nothing of recency, and for every other
-- id, the rank is as before.
pub lookup-record_page :
    (tags : List Text) (page : ℕ) (assets : List Asset) (u : Text) (c : Crawler)
    → text_eq u [] ≡ false
    → lookup u (record_page tags page assets c).0.recency ≡ (
        if ltb 0 page && holds assets u
        then earliest page (lookup u c.recency)
        else lookup u c.recency)
unfolding record_page
lookup-record_page tags page [] u c named = ground arith
lookup-record_page tags page (a ∷ assets) u c named = ground (
  arith,
  lookup-record_page tags page assets u (record_asset tags page a c),
  record_asset-recency tags page a u c,
  earliest_twice page (lookup u c.recency),
)
