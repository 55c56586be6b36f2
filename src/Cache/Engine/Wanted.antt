-- ===== src/Cache/Engine/Wanted.antt =====
-- What a request asks of an asset, said of the asset alone: the reference for the engine's test.
use itchgrep.Base.{ℕ, Bool, not, ◌&&◌, ◌||◌, Option, List, [], any, all}
use itchgrep.Base.Int.{pos, ltb_ℤ}
use itchgrep.Base.Text.{Text, text_eq}
use itchgrep.Money.Float.{Float64}
use itchgrep.Money.Rates.{Rates}
use itchgrep.Models.Asset.{Asset, Unicode, author_key, price_usd, free, first_seen_unix}
use itchgrep.Cache.Options.{SearchOptions}
use itchgrep.Cache.Engine.Filter.{in_band, is_source}

abbrev pub carries : List Text → Text → Bool
carries tags t = any (λ u. text_eq u t) tags

module _ (uni : Unicode) where
  -- The author's key is the one asked for, which is not the empty key.
  unfoldable pub is_by : Text → Asset → Bool
  is_by author a =
      text_eq author []
      || (not (text_eq (author_key uni author) [])
          && text_eq (author_key uni a.author) (author_key uni author))

  module _ (fl : Float64) (rates : Rates fl) where
    -- The asset at a position passes: it is not the asset that `like` names, was first seen late
    -- enough, has the author and the price asked for, carries every required tag, shares a tag
    -- with the `like` asset, and carries no excluded tag.
    unfoldable pub wanted : SearchOptions → List Text → Option ℕ → ℕ → Asset → Bool
    wanted opts like_tags like_idx i a =
        not (not (text_eq opts.like []) && is_source like_idx i)
        && (not (ltb_ℤ (pos 0) opts.min_first_seen && ltb_ℤ (first_seen_unix a) opts.min_first_seen)
            && (is_by opts.author a
                && (in_band fl opts.price (free a) (price_usd uni fl rates a).0
                    && (all (λ t. carries a.tags t) opts.tags
                        && ((text_eq opts.like [] || any (λ t. carries a.tags t) like_tags)
                            && not (any (λ t. carries a.tags t) opts.exclude_tags))))))
