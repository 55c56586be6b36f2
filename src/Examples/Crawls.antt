-- ===== src/Examples/Crawls.antt =====
-- The theorems on the crawl's decisions at a crawl of three assets.
use itchgrep.Base.{◌≡◌, refl, some, List, [], ◌∷◌, map}
use itchgrep.Base.Int.{pos}
use itchgrep.Base.Text.{Text, codes, text_eq}
use itchgrep.Base.Text.Maps.{lookup, Unique}
use itchgrep.Models.Asset.{Asset}
use itchgrep.Crawl.{Arrival, stamp_first_seen}
use itchgrep.Crawl.Arrivals.{dated_by, since, stamp_first_seen-stamped, stamp_first_seen-kept}
use itchgrep.Examples.{three_assets, asset}

-- Asset 7 is known since 10, asset 5 was missed five times.
abbrev known : List (Text × Arrival)
known =
    (codes "7", record { first_seen = some (pos 10); missed = 2 })
    ∷ (codes "5", record { first_seen = some (pos 3); missed = 5 })
    ∷ []

abbrev previous : List Asset
previous = asset (codes "8") (codes "alpha") [] [] (some (pos 20)) ∷ []

known-Unique : Unique known
unfolding lookup text_eq
known-Unique = (refl, (refl, tt))

stamp_first_seen-stamped_example :
    (stamp_first_seen known previous three_assets (some (pos 90))).0
    ≡ map (dated_by (since known previous (some (pos 90)))) three_assets
stamp_first_seen-stamped_example =
    stamp_first_seen-stamped known previous three_assets (some (pos 90)) known-Unique

stamp_first_seen-kept_example :
    lookup (codes "9") (stamp_first_seen known previous three_assets (some (pos 90))).1
    ≡ some (record { first_seen = since known previous (some (pos 90)) (codes "9"); missed = 0 })
unfolding text_eq
stamp_first_seen-kept_example =
    stamp_first_seen-kept known previous three_assets (some (pos 90)) (codes "9") known-Unique refl
