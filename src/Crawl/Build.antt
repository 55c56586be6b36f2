-- ===== src/Crawl/Build.antt =====
-- The building of the search index: buildIndex of cmd/dataservice/selfheal.go. A batch that is
-- written is the list of its documents; the index itself, of bleve, is the documents written.
use itchgrep.Base.{
  ℕ, ◌+◌, ◌%◌, not, ◌&&◌, List, [], ◌∷◌, ◌++◌, map, ◌==◌, if◌then◌else◌, ◌≡◌, Bool-cases, inl, inr,
}
use mathlib.Core.List.{append_assoc, append-nil}
use itchgrep.Money.Float.{Float64}
use itchgrep.Money.Rates.{Rates}
use itchgrep.Models.Asset.{Asset, Unicode, price_usd}
use itchgrep.Models.Indexed.{IndexedAsset, new_indexed_asset}

abbrev pub index_batch_size : ℕ
index_batch_size = 1500

-- The loop over the documents, the first of which has the number `i`: the batches that it writes,
-- and the remainder.
unfoldable pub batches : {D : Type 0} → ℕ → List D → List D → List (List D)
batches i batch [] = batch ∷ []
batches i batch (d ∷ docs) =
    let filled = batch ++ (d ∷ []) in
    let written = batches (i + 1) [] docs in
    let pending = batches (i + 1) filled docs in
    if i % index_batch_size == 0 && not (i == 0) then filled ∷ written else pending

abbrev pub concat : {D : Type 0} → List (List D) → List D
concat [] = []
concat (b ∷ bs) = b ++ concat bs

module _ (uni : Unicode) (fl : Float64) where
  unfoldable pub documents : Rates fl → List Asset → List (IndexedAsset fl)
  unfolding new_indexed_asset price_usd
  documents rates assets = map (λ a. new_indexed_asset uni fl a (price_usd uni fl rates a).0) assets

  -- The staged index, when nothing fails.
  unfoldable pub build_index : Rates fl → List Asset → List (IndexedAsset fl)
  unfolding documents batches
  build_index rates assets = concat (batches 0 [] (documents rates assets))

concat-batches :
    {D : Type 0} (i : ℕ) (batch docs : List D) → concat (batches i batch docs) ≡ batch ++ docs
unfolding batches
concat-batches i batch [] = rw append-nil
concat-batches i batch (d ∷ docs) = elim (Bool-cases (i % index_batch_size == 0 && not (i == 0))) [
  | inl e ↦ rw (e, concat-batches (i + 1) [] docs, append_assoc)
  | inr e ↦ rw (e, concat-batches (i + 1) (batch ++ (d ∷ [])) docs, append_assoc)
]

-- The document of each asset, with its price by the rates.
abbrev pub each_document :
    (uni : Unicode) (fl : Float64) → Rates fl → List Asset → List (IndexedAsset fl)
each_document uni fl rates assets =
    map (λ a. new_indexed_asset uni fl a (price_usd uni fl rates a).0) assets

-- Whatever the number of assets, the batches hold each of them once, in their order.
pub build_index-each_document :
    (uni : Unicode) (fl : Float64) (rates : Rates fl) (assets : List Asset)
    → build_index uni fl rates assets ≡ each_document uni fl rates assets
unfolding build_index documents
build_index-each_document uni fl rates assets = concat-batches 0 [] (documents uni fl rates assets)
