-- ===== src/Cache/Query/Accepts.antt =====
-- What bleve documents of its queries: which documents each of them accepts.
use itchgrep.Base.{◌≡◌, ◌≤◌, ◌^◌, Bool, true, false, not, ◌&&◌, List, [], ◌∷◌, any, all}
use itchgrep.Base.Int.{ℤ, pos_part, neg_part, ltb_ℤ}
use itchgrep.Base.Text.{Text, codes, text_eq}
use itchgrep.Money.Float.{Float64}
use itchgrep.Models.Indexed.{IndexedAsset}
use itchgrep.Cache.Query.{Bleve}

-- The integers that a float64 holds exactly.
abbrev pub Exact : ℤ → Type 0
Exact z = (pos_part z ≤ 2 ^ 53) × (neg_part z ≤ 2 ^ 53)

-- The fields are those that the index's mapping has as keywords, numbers and the document's id. A
-- conjunction of nothing matches nothing, and of a boolean query with nothing that must match no
-- more is assumed here.
pub record IsBleve {fl : Float64} (b : Bleve fl) (accepts : b.Query → IndexedAsset fl → Bool)
    : Type 0 where
  pub none_accepted : (d : IndexedAsset fl) → accepts b.match_none d ≡ false
  pub all_accepted : (d : IndexedAsset fl) → accepts b.match_all d ≡ true
  pub of_conjunction :
      (q : b.Query) (qs : List b.Query) (d : IndexedAsset fl)
      → accepts (b.conjunction (q ∷ qs)) d ≡ accepts q d && all (λ r. accepts r d) qs
  pub of_no_conjunct : (d : IndexedAsset fl) → accepts (b.conjunction []) d ≡ false
  pub of_disjunction :
      (qs : List b.Query) (d : IndexedAsset fl)
      → accepts (b.disjunction qs) d ≡ any (λ q. accepts q d) qs
  pub of_must :
      (q : b.Query) (qs xs : List b.Query) (d : IndexedAsset fl)
      → accepts (b.must (q ∷ qs) xs) d
        ≡ (accepts q d && all (λ r. accepts r d) qs) && not (any (λ r. accepts r d) xs)
  pub of_doc_ids :
      (ids : List Text) (d : IndexedAsset fl)
      → accepts (b.doc_ids ids) d ≡ any (λ id. text_eq id d.game_id) ids
  pub of_tag :
      (t : Text) (d : IndexedAsset fl)
      → text_eq t [] ≡ false
      → accepts (b.term t (codes "TagSlugs")) d ≡ any (λ u. text_eq u t) d.tag_slugs
  pub of_author :
      (key : Text) (d : IndexedAsset fl)
      → text_eq key [] ≡ false
      → accepts (b.term key (codes "AuthorKey")) d ≡ text_eq d.author_key key
  pub of_pricing :
      (p : Text) (d : IndexedAsset fl)
      → text_eq p [] ≡ false
      → accepts (b.term p (codes "Pricing")) d ≡ text_eq d.pricing p
  pub of_between :
      (lo hi : fl.F) (d : IndexedAsset fl)
      → accepts (b.between lo hi (codes "PriceUSD")) d
        ≡ fl.lt lo d.price_usd && fl.lt d.price_usd hi
  pub of_at_least :
      (min : ℤ) (d : IndexedAsset fl)
      → Exact min
      → Exact d.first_seen_unix
      → accepts (b.at_least min (codes "FirstSeenUnix")) d ≡ not (ltb_ℤ d.first_seen_unix min)
