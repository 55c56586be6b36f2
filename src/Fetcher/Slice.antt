-- ===== src/Fetcher/Slice.antt =====
-- One browse view of internal/fetcher/planner.go: its URL grammar, path, label and page count.
pub mod Pages
pub mod Label
use itchgrep.Base.{
  ℕ, ◌+◌, ◌-◌, ◌*◌, ◌/◌, Bool, true, false, not, ◌&&◌, ◌||◌, List, [], ◌∷◌, ◌++◌, map, ltb, leb,
  ◌==◌, length, any, if◌then◌else◌,
}
use itchgrep.Base.Text.{Text, codes, text_eq, text_lt, join, trim_prefix}

abbrev pub max_pages_per_view : ℕ
max_pages_per_view = 200

abbrev pub sort_default : Text
sort_default = []

abbrev pub sort_newest : Text
sort_newest = codes "newest"

abbrev pub sort_new_and_popular : Text
sort_new_and_popular = codes "new-and-popular"

abbrev pub sort_top_rated : Text
sort_top_rated = codes "top-rated"

abbrev pub all_sorts : List Text
all_sorts = sort_default ∷ sort_newest ∷ sort_new_and_popular ∷ sort_top_rated ∷ []

abbrev pub filter_none : Text
filter_none = []

abbrev pub filter_free : Text
filter_free = codes "free"

abbrev pub filter_paid : Text
filter_paid = codes "store"

abbrev pub filter_recent : Text
filter_recent = codes "last-30-days"

abbrev pub all_filters : List Text
all_filters =
    filter_free
    ∷ filter_paid
    ∷ filter_recent
    ∷ codes "genre-platformer"
    ∷ codes "genre-rpg"
    ∷ codes "genre-action"
    ∷ codes "genre-adventure"
    ∷ codes "genre-shooter"
    ∷ codes "genre-puzzle"
    ∷ []

pub record Slice : Type 0 where
  pub sort : Text
  pub filter : Text
  pub tags : List Text
  pub count : ℕ
  pub page_in_full : Bool

-- Two tags that are not in strictly ascending order.
unfoldable pub out_of_order : List Text → Bool
out_of_order (a ∷ b ∷ []) = not (text_lt a b)
out_of_order _ = false

unfoldable pub valid : Slice → Bool
unfolding out_of_order
valid s =
    if ltb 2 (length s.tags)
    then false
    else if length s.tags == 2 && not (text_eq s.sort sort_default)
    then false
    else if out_of_order s.tags
    then false
    else if not (text_eq s.filter filter_none)
        && (not (text_eq s.sort sort_default) || ltb 1 (length s.tags))
    then false
    else if not (text_eq s.filter filter_none) && not (any (λ f. text_eq f s.filter) all_filters)
    then false
    else any (λ srt. text_eq s.sort srt) all_sorts

-- The segments behind /game-assets: the sort, the filter, then the tags.
unfoldable pub segments : Slice → List Text
segments s =
    (if text_eq s.sort sort_default then [] else s.sort ∷ [])
    ++ ((if text_eq s.filter filter_none then [] else s.filter ∷ [])
        ++ map (λ t. codes "tag-" ++ t) s.tags)

unfoldable pub path : Slice → Text
unfolding segments join
path s = join (codes "/") (codes "/game-assets" ∷ segments s)

unfoldable pub is_root : Slice → Bool
is_root s = text_eq s.sort sort_default && text_eq s.filter filter_none && length s.tags == 0

unfoldable pub is_newest_root : Slice → Bool
is_newest_root s = text_eq s.sort sort_newest && text_eq s.filter filter_none && length s.tags == 0

unfoldable pub label : Slice → Text
unfolding is_root path trim_prefix
label s = if is_root s then codes "root" else trim_prefix (codes "/game-assets/") (path s)

unfoldable pub pages_to_fetch : Slice → ℕ → ℕ
pages_to_fetch s items_per_page =
    if leb items_per_page 0
    then 0
    else let pages = (s.count + items_per_page - 1) / items_per_page in
      if ltb max_pages_per_view pages then max_pages_per_view else if ltb pages 1 then 1 else pages
