-- ===== src/Fetcher/Tags.antt =====
-- The discovery of the tags: internal/fetcher/tags.go. What the site answers, and what the two
-- regular expressions find in a document, is a parameter.
pub mod Found
use itchgrep.Base.{
  ℕ, zero, suc, ◌+◌, Bool, true, false, not, ◌&&◌, Option, none, some, List, [], ◌∷◌, ◌++◌, ltb,
  leb, ◌==◌, length, select, if◌then◌else◌,
}
use itchgrep.Base.Int.{ℤ, pos_part}
use itchgrep.Base.Text.{Text, text_eq}
use itchgrep.Base.Text.Number.{parse_int}
use itchgrep.Base.Text.Sets.{has}
use itchgrep.Base.Sort.{sort}
use itchgrep.Models.Tag.{Tag}

abbrev pub default_max_tags : ℕ
default_max_tags = 1000

-- tagLinkPattern with all its matches, and gameCountPattern with its first.
pub record Patterns : Type 0 where
  pub tag_links : Text → List Text
  pub game_count : Text → Option Text

-- The end of one request: an error, or a status with the body (`none` is an error of reading it).
pub data Download : Type 0 where
  unreachable : Download
  received : ℕ → Option Text → Download

-- The links in the order in which they are first seen.
unfoldable pub distinct_from : List Text → List Text → List Text
distinct_from seen [] = []
distinct_from seen (m ∷ ms) =
    let again = distinct_from seen ms in
    let first = m ∷ distinct_from (m ∷ seen) ms in if has seen m then again else first

unfoldable pub unique_tag_slugs : Patterns → Text → List Text
unfolding distinct_from
unique_tag_slugs p doc = distinct_from [] (p.tag_links doc)

unfoldable pub parse_game_count : Patterns → Text → Option ℤ
unfolding parse_int
parse_game_count p html = elim (p.game_count html) [
  | none ↦ none
  | some m ↦ parse_int (select (λ c. not (c == b',')) m)
]

unfoldable pub fetch_tag_links : Patterns → Download → Option (List Text)
unfolding unique_tag_slugs
fetch_tag_links p unreachable = none
fetch_tag_links p (received status body) =
    if status == 200
    then elim body [ none ↦ none | some doc ↦ some (unique_tag_slugs p doc) ]
    else none

-- The count of a facet and the tags that it links to. A match is a run of digits and commas, so the
-- count is not negative.
unfoldable pub fetch_tag_page : Patterns → Text → Download → Option (ℕ × List Text)
unfolding unique_tag_slugs parse_game_count
fetch_tag_page p slug unreachable = none
fetch_tag_page p slug (received status body) =
    if status == 200
    then elim body [
      | none ↦ none
      | some html ↦ elim (parse_game_count p html) [
        | none ↦ none
        | some n ↦ some (pos_part n, select (λ c. not (text_eq c slug)) (unique_tag_slugs p html))
      ]
    ]
    else none

-- The tag directory, or else the sitemap.
unfoldable pub discovery_seed : Patterns → Download → Download → Option (List Text)
unfolding fetch_tag_links
discovery_seed p directory sitemap = elim (fetch_tag_links p directory) [
  | none ↦ fetch_tag_links p sitemap
  | some [] ↦ fetch_tag_links p sitemap
  | some (s ∷ ss) ↦ some (s ∷ ss)
]

-- The state of the walk. `seen` lists the members of the set, latest first.
pub record Walk : Type 0 where
  pub queue : List Text
  pub seen : List Text
  pub tags : List Tag

unfoldable pub enqueue : Text → Walk → Walk
enqueue t w = record w { queue = w.queue ++ t ∷ []; seen = t ∷ w.seen }

unfoldable pub admit_seeds : List Text → Walk → Walk
unfolding enqueue
admit_seeds [] w = w
admit_seeds (s ∷ ss) w = admit_seeds ss (if has w.seen s then w else enqueue s w)

unfoldable pub admit_links : ℕ → List Text → Walk → Walk
unfolding enqueue
admit_links max [] w = w
admit_links max (co ∷ cos) w =
    admit_links max cos (if not (has w.seen co) && ltb (length w.seen) max then enqueue co w else w)

-- One facet, taken off the queue; one that is not reachable is skipped.
unfoldable pub visit_facet : ℕ → Text → Option (ℕ × List Text) → Walk → Walk
unfolding admit_links
visit_facet max slug none w = w
visit_facet max slug (some (count, co_tags)) w =
    admit_links max co_tags
      (record w { tags = w.tags ++ (record { slug = slug; count = count }) ∷ [] })

unfoldable pub limit_of : ℕ → ℕ
limit_of max_tags = if leb max_tags 0 then default_max_tags else max_tags

abbrev pub no_walk : Walk
no_walk = record { queue = []; seen = []; tags = [] }

module _ (p : Patterns) (site : Text → Download) where
  -- `none` means that the fuel ran out.
  unfoldable pub discover_walk : ℕ → ℕ → Walk → Option (List Tag)
  unfolding visit_facet fetch_tag_page
  discover_walk max zero w = none
  discover_walk max (suc fuel) w = elim w.queue [
    | [] ↦ some w.tags
    | slug ∷ rest ↦
        if ltb (length w.tags) max
        then discover_walk max fuel
            (visit_facet max slug (fetch_tag_page p slug (site slug)) (record w { queue = rest }))
        else some w.tags
  ]

  -- sort.Slice leaves the order of tags with one count open: `mix` is the order in which it meets
  -- them.
  unfoldable pub discover_from : (List Tag → List Tag) → List Text → ℕ → Option (List Tag)
  discover_from mix [] max_tags = none
  discover_from mix (s ∷ ss) max_tags =
      let limit = limit_of max_tags in
      elim (discover_walk limit (suc (length (s ∷ ss) + limit)) (admit_seeds (s ∷ ss) no_walk)) [
        | none ↦ none
        | some tags ↦ some (sort (λ a b. leb b.count a.count) (mix tags))
      ]

  -- `none` as the seed asks for the site's own; as the result it is an error.
  unfoldable pub discover_tags :
      Download → Download → (List Tag → List Tag) → Option (List Text) → ℕ → Option (List Tag)
  unfolding discovery_seed discover_from
  discover_tags directory sitemap mix none max_tags = elim (discovery_seed p directory sitemap) [
    | none ↦ none
    | some seed ↦ discover_from mix seed max_tags
  ]
  discover_tags directory sitemap mix (some seed) max_tags = discover_from mix seed max_tags
