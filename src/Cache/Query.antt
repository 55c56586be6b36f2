-- ===== src/Cache/Query.antt =====
-- The query that a request becomes: buildQueryMode and its parts, of internal/cache/search.go, and
-- textQuery of internal/cache/cache.go. bleve, which runs the query, is a parameter.
pub mod Accepts
pub mod Same
use itchgrep.Base.{
  ℕ, zero, suc, ◌+◌, Bool, true, false, not, ◌&&◌, ◌||◌, Option, none, some, List, [], ◌∷◌, ◌++◌,
  map, length, ltb, leb, ◌==◌, if◌then◌else◌, any,
}
use itchgrep.Base.Int.{ℤ, pos, ltb_ℤ}
use itchgrep.Base.Text.{Text, codes, text_eq, join}
use itchgrep.Base.Text.Cut.{cut}
use itchgrep.Base.Text.Space.{trim_space}
use itchgrep.Money.Float.{Float64}
use itchgrep.Models.Asset.{
  Unicode, author_key, pricing_free, pricing_paid, pricing_under_5, pricing_under_20, sort_title,
  sort_popular, sort_price, sort_recent, sort_new,
}
use itchgrep.Cache.Options.{SearchOptions}

-- bleve's queries and its analyzer. A match has a term, a field, a boost, an edit distance and a
-- prefix that must match exactly.
pub record Bleve (fl : Float64) : Type 1 where
  pub Query : Type 0
  pub analyze : Text → List Text
  pub match : Text → Text → ℕ → ℕ → ℕ → Query
  pub match_phrase : Text → Text → ℕ → Query
  pub term : Text → Text → Query
  pub between : fl.F → fl.F → Text → Query
  pub at_least : ℤ → Text → Query
  pub doc_ids : List Text → Query
  pub match_all : Query
  pub match_none : Query
  pub conjunction : List Query → Query
  pub disjunction : List Query → Query
  pub must : List Query → List Query → Query
  pub boosted : ℕ → Query → Query

abbrev pub quote : Text
quote = 34 ∷ []

-- The loop over the quotes: the phrases, and the text around them. A round drops two quotes, so a
-- round for each byte is enough.
unfoldable pub split_from : ℕ → Text → List Text × List Text
unfolding cut trim_space
split_from zero q = ([], q ∷ [])
split_from (suc fuel) q = elim (cut quote q) [
  | none ↦ ([], q ∷ [])
  | some (before, after) ↦ elim (cut quote after) [
    | none ↦ ([], q ∷ [])
    | some (inner, later) ↦
        let (phrases, loose) = split_from fuel later in
        let phrase = trim_space inner in
        ((if text_eq phrase [] then phrases else phrase ∷ phrases), before ∷ loose)
  ]
]

unfoldable pub split_phrases : Text → List Text × Text
unfolding split_from trim_space
split_phrases q =
    let (phrases, loose) = split_from (length q) q in (phrases, trim_space (join (codes " ") loose))

-- The orderings, as bleve's sort fields.
unfoldable pub sort_order : Text → List Text
sort_order sort =
    if text_eq sort sort_title
    then codes "SortTitle" ∷ codes "InvPopularity" ∷ []
    else if text_eq sort sort_popular
    then codes "InvPopularity" ∷ []
    else if text_eq sort sort_price
    then codes "PriceUSD" ∷ codes "InvPopularity" ∷ []
    else if text_eq sort sort_recent
    then codes "RecencyRank" ∷ codes "InvPopularity" ∷ []
    else if text_eq sort sort_new
    then codes "-FirstSeenUnix" ∷ codes "InvPopularity" ∷ []
    else codes "-_score" ∷ codes "InvPopularity" ∷ []

module _ {fl : Float64} (b : Bleve fl) where
  -- The tokens, each once.
  unfoldable pub distinct : List Text → List Text → List Text
  distinct seen [] = []
  distinct seen (t ∷ ts) =
      let old = distinct seen ts in
      let new = distinct (t ∷ seen) ts in if any (λ s. text_eq s t) seen then old else t ∷ new

  unfoldable pub query_terms : Text → List Text
  unfolding distinct
  query_terms s = distinct [] (b.analyze s)

  unfoldable pub build_field_query : Text → ℕ → ℕ → b.Query
  build_field_query term fuzziness prefix = b.disjunction (
      b.match term (codes "Title") 3 fuzziness prefix
      ∷ b.match term (codes "Description") 2 fuzziness prefix
      ∷ b.match term (codes "Author") 1 fuzziness prefix
      ∷ b.match term (codes "Tags") 4 fuzziness prefix
      ∷ [])

  unfoldable pub word_query : Text → b.Query
  unfolding build_field_query
  word_query word =
      b.disjunction
        (b.boosted 10 (build_field_query word 0 0) ∷ b.boosted 2 (build_field_query word 1 2) ∷ [])

  -- The switch over the number of terms.
  unfoldable pub combined : Bool → List b.Query → b.Query
  combined any_word [] = b.match_none
  combined any_word (q ∷ []) = q
  combined any_word (q ∷ r ∷ qs) =
      if any_word then b.disjunction (q ∷ r ∷ qs) else b.conjunction (q ∷ r ∷ qs)

  unfoldable pub text_query : Text → Bool → b.Query
  unfolding query_terms word_query combined
  text_query s any_word = combined any_word (map word_query (query_terms s))

  unfoldable pub phrase_query : Text → b.Query
  phrase_query phrase = b.disjunction (
      b.match_phrase phrase (codes "Title") 3
      ∷ b.match_phrase phrase (codes "Description") 2
      ∷ b.match_phrase phrase (codes "Tags") 4
      ∷ [])

  -- No query for no filter, and none for a price that is not known.
  unfoldable pub price_query : Text → List b.Query
  price_query price =
      if text_eq price []
      then []
      else if text_eq price pricing_free
      then b.term price (codes "Pricing") ∷ []
      else if text_eq price pricing_paid
      then b.term price (codes "Pricing") ∷ []
      else if text_eq price pricing_under_5
      then b.between (fl.of_nat 0) (fl.of_nat 5) (codes "PriceUSD") ∷ []
      else if text_eq price pricing_under_20
      then b.between (fl.of_nat 0) (fl.of_nat 20) (codes "PriceUSD") ∷ []
      else []

  unfoldable pub tag_queries : List Text → List b.Query
  tag_queries tags = map (λ t. b.term t (codes "TagSlugs")) tags

  unfoldable pub text_queries : Text → Bool → List b.Query
  unfolding split_phrases phrase_query text_query
  text_queries q any_word =
      let (phrases, rest) = split_phrases q in
      map phrase_query phrases ++ (if text_eq rest [] then [] else text_query rest any_word ∷ [])

  unfoldable pub author_queries : Unicode → Text → List b.Query
  unfolding author_key
  author_queries uni author =
      if text_eq author [] then [] else b.term (author_key uni author) (codes "AuthorKey") ∷ []

  unfoldable pub first_seen_queries : ℤ → List b.Query
  first_seen_queries min =
      if ltb_ℤ (pos 0) min then b.at_least min (codes "FirstSeenUnix") ∷ [] else []

  unfoldable pub like_queries : Text → List Text → List b.Query
  unfolding tag_queries
  like_queries like like_tags =
      if text_eq like []
      then []
      else if length like_tags == 0
      then b.match_none ∷ []
      else b.disjunction (tag_queries like_tags) ∷ []

  -- What must match.
  unfoldable pub conjuncts : Unicode → SearchOptions → List Text → Bool → List b.Query
  unfolding text_queries tag_queries author_queries price_query first_seen_queries like_queries
  conjuncts uni opts like_tags any_word =
      text_queries opts.query any_word
      ++ (tag_queries opts.tags
          ++ (author_queries uni opts.author
              ++ (price_query opts.price
                  ++ (first_seen_queries opts.min_first_seen ++ like_queries opts.like like_tags))))

  -- What must not.
  unfoldable pub exclusions : SearchOptions → List b.Query
  unfolding tag_queries
  exclusions opts =
      tag_queries opts.exclude_tags
      ++ (if text_eq opts.like [] then [] else b.doc_ids (opts.like ∷ []) ∷ [])

  unfoldable pub assemble : List b.Query → List b.Query → b.Query
  assemble [] [] = b.match_all
  assemble (q ∷ []) [] = q
  assemble (q ∷ r ∷ qs) [] = b.conjunction (q ∷ r ∷ qs)
  assemble [] (x ∷ xs) = b.must (b.match_all ∷ []) (x ∷ xs)
  assemble (q ∷ qs) (x ∷ xs) = b.must (q ∷ qs) (x ∷ xs)

  unfoldable pub build_query : Unicode → SearchOptions → List Text → Bool → b.Query
  unfolding conjuncts exclusions assemble
  build_query uni opts like_tags any_word =
      assemble (conjuncts uni opts like_tags any_word) (exclusions opts)

  -- Two terms or more, and no phrase.
  unfoldable pub can_fall_back : SearchOptions → Bool
  unfolding split_phrases query_terms
  can_fall_back opts =
      let (phrases, rest) = split_phrases opts.query in
      if ltb 0 (length phrases) then false else leb 2 (length (query_terms rest))
