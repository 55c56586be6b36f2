-- ===== src/Examples/Tags.antt =====
-- The discovery of tags on a site of three facets, one of which is not reachable.
use mathlib.Core.List.Perm
use itchgrep.Base.{◌≤◌, ◌≡◌, refl, true, some, List, [], ◌∷◌, All, length, if◌then◌else◌}
use itchgrep.Base.Text.{Text, codes, text_eq}
use itchgrep.Base.Sort.{sort}
use itchgrep.Models.Tag.{Tag}
use itchgrep.Fetcher.Slice.{valid}
use itchgrep.Fetcher.Planner.{plan_slices}
use itchgrep.Fetcher.Planner.Grammar.{Distinct}
use itchgrep.Fetcher.Tags.{
  Patterns, Download, unreachable, received, limit_of, discover_walk, admit_seeds, discover_from,
}
use itchgrep.Fetcher.Tags.Found.{discover_from-planned}

-- A document of this site is its count.
abbrev patterns : Patterns
patterns = record {
  tag_links = λ doc. codes "2d" ∷ codes "tiles" ∷ codes "2d" ∷ [];
  game_count = λ doc. some doc;
}

abbrev site : Text → Download
site slug =
    if text_eq slug (codes "fonts")
    then unreachable
    else received 200 (some (if text_eq slug (codes "2d") then codes "36,324" else codes "12"))

discovered :
    discover_from patterns site (λ ts. ts) (codes "tiles" ∷ codes "fonts" ∷ []) 0
    ≡ some (
        record { slug = codes "2d"; count = 36324 }
        ∷ (record { slug = codes "tiles"; count = 12 })
        ∷ [])
unfolding discover_from discover_walk admit_seeds text_eq limit_of sort
discovered = refl

discover_from-planned_example :
    (tags : List Tag) × (discover_from patterns site
        (λ ts. ts)
        (codes "tiles" ∷ codes "fonts" ∷ [])
        0
      ≡ some tags)
    × (length tags ≤ limit_of 0)
    × Distinct tags
    × All (λ v. valid v ≡ true) (plan_slices tags 36)
discover_from-planned_example =
    discover_from-planned patterns site (λ ts. ts) (λ ts. Perm.refl ts) (codes "tiles")
      (codes "fonts" ∷ []) 0 36
