-- ===== src/Examples/Queries.antt =====
-- The query of a request at an index whose queries are the tests that they denote.
use itchgrep.Base.{
  ℕ, Option, none, inl, take, drop, Bool, true, false, not, ◌&&◌, ◌≡◌, refl, some, List, [], ◌∷◌,
  any, all, length, ltb, if◌then◌else◌, arith,
}
use itchgrep.Base.Int.{pos, ltb_ℤ}
use itchgrep.Base.Text.{Text, codes, text_eq}
use itchgrep.Models.Asset.{Asset, first_seen_unix}
use itchgrep.Models.Indexed.{IndexedAsset}
use itchgrep.Cache.Engine.Wanted.{wanted}
use itchgrep.Base.Text.Maps.{lookup}
use itchgrep.Cache.Options.{SearchOptions}
use itchgrep.Cache.State.{Cache}
use itchgrep.Cache.Find.{Reply, index_page}
use itchgrep.Cache.Find.Paged.{Found, facet_of, index_page_same}
use itchgrep.Cache.Query.{Bleve, build_query}
use itchgrep.Cache.Query.Accepts.{IsBleve}
use itchgrep.Cache.Query.Same.{document, build_query-wanted}
use itchgrep.Examples.{whole_floats, ascii, par_rates, asset, three_assets, like_seven}

abbrev Test : Type 0
Test = IndexedAsset whole_floats → Bool

abbrev terms_of : Text → IndexedAsset whole_floats → List Text
terms_of field d =
    if text_eq field (codes "TagSlugs")
    then d.tag_slugs
    else if text_eq field (codes "AuthorKey")
    then d.author_key ∷ []
    else d.pricing ∷ []

abbrev tests : Bleve whole_floats
tests = record {
  Query = Test;
  analyze = λ t. t ∷ [];
  match = λ t field boost fuzziness prefix d. any (λ u. text_eq u t) (terms_of field d);
  match_phrase = λ t field boost d. any (λ u. text_eq u t) (terms_of field d);
  term = λ t field d. any (λ u. text_eq u t) (terms_of field d);
  between = λ lo hi field d. whole_floats.lt lo d.price_usd && whole_floats.lt d.price_usd hi;
  at_least = λ min field d. not (ltb_ℤ d.first_seen_unix min);
  doc_ids = λ ids d. any (λ id. text_eq id d.game_id) ids;
  match_all = λ d. true;
  match_none = λ d. false;
  conjunction = λ qs d. ltb 0 (length qs) && all (λ q. q d) qs;
  disjunction = λ qs d. any (λ q. q d) qs;
  must = λ qs xs d. (ltb 0 (length qs) && all (λ q. q d) qs) && not (any (λ q. q d) xs);
  boosted = λ boost q. q;
}

tests-IsBleve : IsBleve tests (λ q d. q d)
unfolding text_eq
tests-IsBleve = record {
  none_accepted = λ d. refl;
  all_accepted = λ d. refl;
  of_conjunction = λ q qs d. ground arith;
  of_no_conjunct = λ d. refl;
  of_disjunction = λ qs d. refl;
  of_must = λ q qs xs d. ground arith;
  of_doc_ids = λ ids d. refl;
  of_tag = λ t d h. refl;
  of_author = λ key d h. ground arith;
  of_pricing = λ p d h. ground arith;
  of_between = λ lo hi d. refl;
  of_at_least = λ min d h k. refl;
}

abbrev eight : Asset
eight = asset (codes "8") (codes "alpha") (codes "2d" ∷ []) [] (some (pos 70))

build_query-wanted_example :
    build_query tests ascii like_seven
      (codes "2d" ∷ codes "tiles" ∷ [])
      false
      (document ascii whole_floats par_rates eight)
    ≡ wanted ascii whole_floats par_rates like_seven
        (codes "2d" ∷ codes "tiles" ∷ [])
        (some 0)
        1
        eight
unfolding text_eq first_seen_unix
build_query-wanted_example =
    build_query-wanted ascii whole_floats par_rates tests (λ q d. q d) tests-IsBleve eight
      like_seven (codes "2d" ∷ codes "tiles" ∷ []) (some 0) false 1 refl tt tt (refl, (refl, tt))
      (λ h. cc) (omega arith, omega arith) (omega arith, omega arith) (λ h. refl)

-- An index that finds the three assets, whatever it is asked for.
abbrev everything : Test → List Text → Found
everything q s = record {
  total = 3;
  hits = codes "7" ∷ codes "8" ∷ codes "9" ∷ [];
  terms = λ n. [];
}

abbrev find_all : Test → List Text → ℕ → ℕ → Option ℕ → Option Reply
find_all q s size from facet = some (record {
  total = 3;
  hits = take size (drop from (everything q s).hits);
  terms = facet_of (everything q s).terms facet;
})

abbrev loaded : Cache whole_floats
loaded = record {
  assets = some three_assets;
  data_map = (codes "7", 0) ∷ (codes "8", 1) ∷ (codes "9", 2) ∷ [];
  indexed = true;
  eng = none;
  tag_counts = [];
  tag_catalog = [];
  has_recency = false;
  has_price_bands = false;
  page_size = 2;
}

abbrev for_text : SearchOptions
for_text = record like_seven { query = codes "alpha"; limit = pos 0; like = [] }

index_page_same_example :
    index_page ascii tests find_all true (λ k. none) loaded three_assets for_text [] [] 2
    ≡ index_page ascii tests find_all false (λ k. none) loaded three_assets for_text [] [] 2
unfolding lookup text_eq
index_page_same_example =
    index_page_same ascii tests find_all everything (λ q s size from facet. refl) loaded for_text []
      (λ k. none) three_assets [] 2 (inl refl)
      (λ any_word. ((0, refl), ((1, refl), ((2, refl), tt)))) (omega arith)
