-- ===== src/Crawl/Collect/Collected.antt =====
-- The crawler's assets and the set of the ids seen, as crawler.record of cmd/dataservice/main.go
-- keeps them, and how many assets a page adds.
use itchgrep.Base.{
  ℕ, ◌+◌, Bool, false, ◌||◌, List, [], ◌∷◌, ◌++◌, ◌≡◌, refl, sym, ◌∙◌, ltb, inl, inr, arith, any,
  length, length-append, if◌then◌else◌, by_if, Option-cases,
}
use mathlib.Core.Path.{subst}
use itchgrep.Base.Text.{Text, text_eq, text_eq_iff}
use itchgrep.Base.Text.Maps.{lookup, put, lookup-put}
use itchgrep.Base.Text.Sets.{has, set_add, has-set_add, Ascending, Ascending-set_add}
use itchgrep.Models.Asset.{Asset}
use itchgrep.Crawl.Collect.{
  Crawler, fresh, tag_set, collect, learn_recency, learn_tags, record_asset, record_page,
}

abbrev pub holds : List Asset → Text → Bool
holds assets t = any (λ a. text_eq a.game_id t) assets

-- No game id is empty, and none stands twice.
abbrev pub Distinct : List Asset → Type 0
Distinct [] = Unit
Distinct (a ∷ assets) =
    (text_eq a.game_id [] ≡ false) × (holds assets a.game_id ≡ false) × Distinct assets

-- The set has the ids of the assets, each once, and the tags of an id are a set.
pub record Collected (c : Crawler) : Type 0 where
  pub seen_all : (t : Text) → has c.seen t ≡ holds c.assets t
  pub distinct : Distinct c.assets
  pub sets : (t : Text) → Ascending (tag_set c t)

pub holds-append : (xs ys : List Asset) (t : Text) → holds (xs ++ ys) t ≡ holds xs t || holds ys t
holds-append [] ys t = refl
holds-append (x ∷ xs) ys t = ground (arith, holds-append xs ys t)

Distinct-append_one :
    (xs : List Asset) (a : Asset)
    → Distinct xs
    → text_eq a.game_id [] ≡ false
    → holds xs a.game_id ≡ false
    → Distinct (xs ++ (a ∷ []))
Distinct-append_one [] a h named new = (named, refl, tt)
Distinct-append_one (x ∷ xs) a h named new = (
  h.0,
  ground (
    arith,
    holds-append xs (a ∷ []) x.game_id,
    h.1,
    text_eq_iff x.game_id a.game_id,
    text_eq_iff a.game_id x.game_id,
    new,
  ),
  Distinct-append_one xs a h.2 named (ground (arith, new)),
)

pub fresh-Collected : (items total : ℕ) → Collected (fresh items total)
unfolding tag_set lookup
fresh-Collected items total = record { seen_all = λ t. refl; distinct = tt; sets = λ t. tt }

collect-Collected :
    (a : Asset) (c : Crawler) → text_eq a.game_id [] ≡ false → Collected c → Collected (collect a c)
unfolding collect tag_set
collect-Collected a c named h =
    by_if {A = Crawler} Collected (has c.seen a.game_id) (λ _. h)
      λ new. record {
        seen_all = λ t.
            ground (
              arith,
              has-set_add a.game_id t c.seen,
              holds-append c.assets (a ∷ []) t,
              h.seen_all t,
            );
        distinct =
            Distinct-append_one c.assets a h.distinct named (sym (h.seen_all a.game_id) ∙ new);
        sets = h.sets;
      }

learn_recency-Collected :
    (page : ℕ) (t : Text) (c : Crawler) → Collected c → Collected (learn_recency page t c)
unfolding learn_recency tag_set
learn_recency-Collected page t c h =
    by_if {A = Crawler} Collected (ltb 0 page)
      (λ _. elim (Option-cases (lookup t c.recency)) [
        | inl e ↦ rw e (record { seen_all = h.seen_all; distinct = h.distinct; sets = h.sets })
        | inr (prev, e) ↦ rw e (
            by_if {A = Crawler} Collected (ltb page prev)
              (λ _. record { seen_all = h.seen_all; distinct = h.distinct; sets = h.sets })
              (λ _. h))
      ])
      (λ _. h)

pub tag_set-put :
    (t u : Text) (set : List Text) (c : Crawler)
    → tag_set (record c { tag_sets = put t set c.tag_sets }) u
      ≡ (if text_eq t u then set else tag_set c u)
unfolding tag_set
tag_set-put t u set c = ground (arith, lookup-put t u set c.tag_sets)

learn_tags-Collected :
    (tags : List Text) (t : Text) (c : Crawler) → Collected c → Collected (learn_tags tags t c)
unfolding learn_tags
learn_tags-Collected [] t c h = h
learn_tags-Collected (tag ∷ tags) t c h =
    let set = set_add tag (tag_set c t) in
    learn_tags-Collected tags t (record c { tag_sets = put t set c.tag_sets })
      (record {
        seen_all = h.seen_all;
        distinct = h.distinct;
        sets = λ u. subst Ascending (sym (tag_set-put t u set c)) (
            by_if Ascending (text_eq t u) (λ _. Ascending-set_add tag (tag_set c t) (h.sets t))
              (λ _. h.sets u));
      })

record_asset-Collected :
    (tags : List Text) (page : ℕ) (a : Asset) (c : Crawler)
    → Collected c
    → Collected (record_asset tags page a c)
unfolding record_asset
record_asset-Collected tags page a c h =
    by_if {A = Crawler} Collected (text_eq a.game_id []) (λ _. h)
      λ named.
        learn_tags-Collected tags a.game_id _
          (learn_recency-Collected page a.game_id _ (collect-Collected a c named h))

-- A page keeps the books.
pub record_page-Collected :
    (tags : List Text) (page : ℕ) (assets : List Asset) (c : Crawler)
    → Collected c
    → Collected (record_page tags page assets c).0
unfolding record_page
record_page-Collected tags page [] c h = h
record_page-Collected tags page (a ∷ assets) c h =
    record_page-Collected tags page assets (record_asset tags page a c)
      (record_asset-Collected tags page a c h)

learn_recency-assets :
    (page : ℕ) (t : Text) (c : Crawler) → (learn_recency page t c).assets ≡ c.assets
unfolding learn_recency
learn_recency-assets page t c = ground arith

learn_tags-assets :
    (tags : List Text) (t : Text) (c : Crawler) → (learn_tags tags t c).assets ≡ c.assets
unfolding learn_tags
learn_tags-assets [] t c = refl
learn_tags-assets (tag ∷ tags) t c = learn_tags-assets tags t _

length-record_asset :
    (tags : List Text) (page : ℕ) (a : Asset) (c : Crawler)
    → length (record_asset tags page a c).assets ≡ (
        if text_eq a.game_id []
        then length c.assets
        else if has c.seen a.game_id
        then length c.assets
        else length c.assets + 1)
unfolding record_asset collect
length-record_asset tags page a c =
    let d = collect a c in
    ground (
      arith,
      learn_tags-assets tags a.game_id (learn_recency page a.game_id d),
      learn_recency-assets page a.game_id d,
      length-append c.assets (a ∷ []),
    )

-- The number of new assets that a page is credited with, by which a slice is given up, is the
-- number by which the list of assets grows.
length-record_page :
    (tags : List Text) (page : ℕ) (assets : List Asset) (c : Crawler)
    → length (record_page tags page assets c).0.assets
      ≡ length c.assets + (record_page tags page assets c).1
unfolding record_page
length-record_page tags page [] c = omega arith
length-record_page tags page (a ∷ assets) c = ground (
  arith,
  length-record_page tags page assets (record_asset tags page a c),
  length-record_asset tags page a c,
)
