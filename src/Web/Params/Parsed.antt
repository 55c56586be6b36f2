-- ===== src/Web/Params/Parsed.antt =====
-- The filters that are read from an address: parseFilterValues of
-- internal/web/handlers.go.
use mathlib.Core.List.{map, reverse, reverse_aux}
use itchgrep.Base.{
  ℕ, zero, suc, ◌+◌, ◌≤◌, ◌≡◌, refl, ap, ◌∙◌, true, false, not, ◌||◌, List, [], ◌∷◌, arith, all,
  All, All-select, length, take, length-take-le, leb, by_if,
}
use itchgrep.Base.Text.{Text, codes, text_eq, text_eq_iff}
use itchgrep.Base.Text.Number.{is_digit}
use itchgrep.Base.Text.Space.{spaces, space_len, trim_left, trim_space}
use itchgrep.Money.Float.{Float64}
use itchgrep.Money.Rates.{Rates}
use itchgrep.Models.Asset.{Unicode}
use itchgrep.Web.Filters.{
  Filters, at_tag_limit, at_not_tag_limit, with_tag, with_not_tag, without_tag, without_not_tag,
  contains, remove,
}
use itchgrep.Web.Filters.Tags.{All-insert_sorted}
use itchgrep.Web.Filters.Keeps.{IsFilters, with_tag-IsFilters, with_not_tag-IsFilters}
use itchgrep.Web.Params.{
  get, get_all, pieces, slug_byte, normalize_tag, normalize_game_id, clamp_author, clamp_query,
  cut_at, require_all, exclude_all, parse_filter_values, max_tag_len, max_query_len, max_author_len,
  max_game_id_len,
}

-- A slug: not empty, short, and of its alphabet.
abbrev pub IsSlug : Text → Type 0
IsSlug t = (text_eq t [] ≡ false) × (length t ≤ max_tag_len) × (all slug_byte t ≡ true)

normalize_tag-IsSlug :
    (uni : Unicode) (raw : Text)
    → text_eq (normalize_tag uni raw) [] ≡ false
    → IsSlug (normalize_tag uni raw)
unfolding normalize_tag
normalize_tag-IsSlug uni raw h = ground (arith, text_eq_iff [] [])

-- A text after a space of `k` bytes, or no space.
length-trim_left_at :
    (ws : List Text) (k b : ℕ) (s : Text)
    → ((n : ℕ) → length (trim_left ws n s) ≤ length s)
    → length (elim k as (λ _. Text) [ zero ↦ b ∷ s | suc n ↦ trim_left ws n s ]) ≤ length (b ∷ s)
length-trim_left_at ws zero b s h = omega arith
length-trim_left_at ws (suc n) b s h = omega (arith, h n)

length-trim_left : (ws : List Text) (n : ℕ) (s : Text) → length (trim_left ws n s) ≤ length s
unfolding trim_left
length-trim_left ws n [] = omega arith
length-trim_left ws (suc n) (b ∷ s) = omega (arith, length-trim_left ws n s)
length-trim_left ws zero (b ∷ s) =
    length-trim_left_at ws (space_len ws (b ∷ s)) b s (λ n. length-trim_left ws n s)

length-reverse_aux : (s t : Text) → length (reverse_aux s t) ≡ length s + length t
length-reverse_aux [] t = omega arith
length-reverse_aux (b ∷ s) t = omega (arith, length-reverse_aux s (b ∷ t))

length-trim_space : (s : Text) → length (trim_space s) ≤ length s
unfolding trim_space
length-trim_space s =
    let left = trim_left spaces 0 s in
    let right = trim_left (map reverse spaces) 0 (reverse left) in
    omega (
      arith,
      length-trim_left spaces 0 s,
      length-reverse_aux left [],
      length-reverse_aux right [],
      length-trim_left (map reverse spaces) 0 (reverse left),
    )

cut_at-le : (q : Text) (n : ℕ) → cut_at q n ≤ n
unfolding cut_at
cut_at-le q zero = omega arith
cut_at-le q (suc n) = ground (arith, cut_at-le q n)

pub length-clamp_query : (q : Text) → length (clamp_query q) ≤ max_query_len
unfolding clamp_query
length-clamp_query q =
    let t = trim_space q in
    let cut = cut_at t 200 in
    by_if {A = Text} (λ r. length r ≤ 200) {x = t} (leb (length t) 200) (λ e. ground arith)
      (λ _. omega (arith, length-trim_space (take cut t), length-take-le cut t, cut_at-le t 200))

-- The tags and the excluded tags are filters of slugs.
abbrev pub Slugs : Filters → Type 0
Slugs f = IsFilters f × All IsSlug f.tags × All IsSlug f.not_tags

tags_kept :
    (f : Filters) (t : Text)
    → IsSlug t
    → Slugs f
    → All IsSlug (with_tag f t).tags × All IsSlug (with_tag f t).not_tags
unfolding with_tag without_not_tag remove
tags_kept f t slug h =
    by_if {A = Filters} (λ g. All IsSlug g.tags × All IsSlug g.not_tags)
      (contains f.tags t || at_tag_limit f) (λ _. (h.1, h.2))
      (λ _. (
        All-insert_sorted IsSlug f.tags t h.1 slug,
        All-select IsSlug (λ u. not (text_eq u t)) f.not_tags h.2,
      ))

not_tags_kept :
    (f : Filters) (t : Text)
    → IsSlug t
    → Slugs f
    → All IsSlug (with_not_tag f t).tags × All IsSlug (with_not_tag f t).not_tags
unfolding with_not_tag without_tag remove
not_tags_kept f t slug h =
    by_if {A = Filters} (λ g. All IsSlug g.tags × All IsSlug g.not_tags)
      (contains f.not_tags t || at_not_tag_limit f) (λ _. (h.1, h.2))
      (λ _. (
        All-select IsSlug (λ u. not (text_eq u t)) f.tags h.1,
        All-insert_sorted IsSlug f.not_tags t h.2 slug,
      ))

with_tag-Slugs : (f : Filters) (t : Text) → IsSlug t → Slugs f → Slugs (with_tag f t)
with_tag-Slugs f t slug h =
    (with_tag-IsFilters f t h.0, (tags_kept f t slug h).0, (tags_kept f t slug h).1)

with_not_tag-Slugs : (f : Filters) (t : Text) → IsSlug t → Slugs f → Slugs (with_not_tag f t)
with_not_tag-Slugs f t slug h =
    (with_not_tag-IsFilters f t h.0, (not_tags_kept f t slug h).0, (not_tags_kept f t slug h).1)

module _ (uni : Unicode) where
  require_all-Slugs : (raws : List Text) (f : Filters) → Slugs f → Slugs (require_all uni raws f)
  unfolding require_all
  require_all-Slugs [] f h = h
  require_all-Slugs (raw ∷ raws) f h =
      let t = normalize_tag uni raw in
      by_if {A = Filters} Slugs (at_tag_limit f) (λ _. h)
        λ _. require_all-Slugs raws _ (
          by_if {A = Filters} Slugs (text_eq t []) (λ _. h)
            (λ e. with_tag-Slugs f t (normalize_tag-IsSlug uni raw e) h))

  exclude_all-Slugs : (raws : List Text) (f : Filters) → Slugs f → Slugs (exclude_all uni raws f)
  unfolding exclude_all
  exclude_all-Slugs [] f h = h
  exclude_all-Slugs (raw ∷ raws) f h =
      let t = normalize_tag uni raw in
      by_if {A = Filters} Slugs (at_not_tag_limit f) (λ _. h)
        λ _. exclude_all-Slugs raws _ (
          by_if {A = Filters} Slugs (text_eq t []) (λ _. h)
            (λ e. with_not_tag-Slugs f t (normalize_tag-IsSlug uni raw e) h))

  -- The loops change nothing but the tags.
  pub require_all-query :
      (raws : List Text) (f : Filters) → (require_all uni raws f).query ≡ f.query
  unfolding require_all with_tag without_not_tag
  require_all-query [] f = refl
  require_all-query (raw ∷ raws) f =
      ground (
        arith,
        require_all-query raws (with_tag f (normalize_tag uni raw)),
        require_all-query raws f,
      )

  pub exclude_all-query :
      (raws : List Text) (f : Filters) → (exclude_all uni raws f).query ≡ f.query
  unfolding exclude_all with_not_tag without_tag
  exclude_all-query [] f = refl
  exclude_all-query (raw ∷ raws) f = ground (
    arith,
    exclude_all-query raws (with_not_tag f (normalize_tag uni raw)),
    exclude_all-query raws f,
  )

length-clamp_author : (author : Text) → length (clamp_author author) ≤ max_author_len
unfolding clamp_author
length-clamp_author author = ground arith

normalize_game_id-digits :
    (id : Text)
    → (length (normalize_game_id id) ≤ max_game_id_len)
      × (all is_digit (normalize_game_id id) ≡ true)
unfolding normalize_game_id
normalize_game_id-digits id = ground arith

abbrev pub untagged : Text → Filters
untagged query = record {
  query = query;
  tags = [];
  not_tags = [];
  author = [];
  price = [];
  sort = [];
  like = [];
  currency = [];
  all_tags = false;
}

untagged-Slugs : (query : Text) → Slugs (untagged query)
untagged-Slugs query = (
  record { sorted = tt; not_sorted = tt; apart = tt; few = omega arith; not_few = omega arith },
  tt,
  tt,
)

-- Only the tags matter.
IsFilters-same :
    (f : Filters)
    → IsFilters f
    → (g : Filters) → g.tags ≡ f.tags
    → g.not_tags ≡ f.not_tags
    → IsFilters g
IsFilters-same f v g e e' = record {
  sorted = rw e v.sorted;
  not_sorted = rw e' v.not_sorted;
  apart = rw (e, e') v.apart;
  few = rw e v.few;
  not_few = rw e' v.not_few;
}

-- Whatever the query string, the required and the excluded tags that are read from it are in
-- ascending order without duplicates, have none in common, are at most four each, and each is a
-- slug: not empty, at most 64 bytes, of small letters, digits and hyphens. The query has at most
-- 200 bytes, the author at most 120, and the like id at most 32, all digits.
pub parse_filter_values-Slugs :
    (uni : Unicode) (to_upper : Text → Text) (fl : Float64) (rates : Rates fl)
    (q : List (Text × Text))
    → Slugs (parse_filter_values uni to_upper fl rates q)
      × (length (parse_filter_values uni to_upper fl rates q).query ≤ max_query_len)
      × (length (parse_filter_values uni to_upper fl rates q).author ≤ max_author_len)
      × (length (parse_filter_values uni to_upper fl rates q).like ≤ max_game_id_len)
      × (all is_digit (parse_filter_values uni to_upper fl rates q).like ≡ true)
unfolding parse_filter_values
parse_filter_values-Slugs uni to_upper fl rates q =
    let start = untagged (clamp_query (get q (codes "q"))) in
    let required = require_all uni (pieces (get_all q (codes "tags"))) start in
    let tagged = exclude_all uni (pieces (get_all q (codes "not"))) required in
    let slugs = exclude_all-Slugs uni (pieces (get_all q (codes "not"))) required (
      require_all-Slugs uni (pieces (get_all q (codes "tags"))) start
        (untagged-Slugs (clamp_query (get q (codes "q"))))) in
    let same =
      exclude_all-query uni (pieces (get_all q (codes "not"))) required
      ∙ require_all-query uni (pieces (get_all q (codes "tags"))) start in
    let digits = normalize_game_id-digits (get q (codes "like")) in
    (
      (
        IsFilters-same tagged slugs.0 (parse_filter_values uni to_upper fl rates q) refl refl,
        slugs.1,
        slugs.2,
      ),
      omega (arith, ap length same, length-clamp_query (get q (codes "q"))),
      length-clamp_author (get q (codes "author")),
      digits.0,
      digits.1,
    )
