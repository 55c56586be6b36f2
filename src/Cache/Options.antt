-- ===== src/Cache/Options.antt =====
-- SearchOptions of internal/cache/search.go, its default ordering and its emptiness test.
use itchgrep.Base.{Bool, not, ◌||◌, List, [], if◌then◌else◌, length, ltb, any, ◌∷◌}
use itchgrep.Base.Int.{ℤ, pos, ltb_ℤ}
use itchgrep.Base.Text.{Text, text_eq}
use itchgrep.Models.Asset.{
  sort_relevance, sort_popular, sort_title, sort_price, sort_recent, sort_new,
}

pub record SearchOptions : Type 0 where
  pub query : Text
  pub tags : List Text
  pub exclude_tags : List Text
  pub author : Text
  pub price : Text
  pub sort : Text
  pub page : ℤ
  pub min_first_seen : ℤ
  pub limit : ℤ
  pub like : Text
  pub no_facets : Bool

unfoldable pub resolved_sort : SearchOptions → Text
resolved_sort o =
    if any (λ s. text_eq o.sort s)
      (sort_popular ∷ sort_title ∷ sort_price ∷ sort_recent ∷ sort_new ∷ [])
    then o.sort
    else if text_eq o.sort sort_relevance
    then (if text_eq o.query [] then sort_popular else sort_relevance)
    else if text_eq o.query []
    then sort_popular
    else sort_relevance

unfoldable pub filtered : SearchOptions → Bool
filtered o =
    not (text_eq o.query [])
    || (ltb 0 (length o.tags)
        || (ltb 0 (length o.exclude_tags)
            || (not (text_eq o.price [])
                || (not (text_eq o.author [])
                    || (ltb_ℤ (pos 0) o.min_first_seen || not (text_eq o.like []))))))
