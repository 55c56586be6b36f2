-- ===== src/Cache/Hits/Key.antt =====
-- What names a search in the hit cache: hitKey of internal/cache/hitcache.go.
pub mod Apart
use itchgrep.Base.{Bool, not, ◌&&◌, ◌||◌, List, [], ◌∷◌, ◌++◌, length, ltb}
use itchgrep.Base.Int.{ℤ, pos, ltb_ℤ}
use itchgrep.Base.Sort.{sort}
use itchgrep.Base.Text.{Text, codes, text_eq, text_lt, join}
use itchgrep.Base.Text.Decimal.{format_int}
use itchgrep.Cache.Options.{SearchOptions, resolved_sort}

unfoldable pub hit_cacheable : SearchOptions → Bool
hit_cacheable o = not (text_eq o.query []) && not (ltb_ℤ o.limit (pos 0) || ltb_ℤ (pos 0) o.limit)

abbrev pub text_le : Text → Text → Bool
text_le s t = not (text_lt t s)

-- A list of less than two is its own sorted copy.
unfoldable pub join_sorted : List Text → Text
unfolding sort join
join_sorted list = join (codes ",") (sort text_le list)

-- A field ends with a NUL byte.
abbrev pub field : Text → Text → Text
field s rest = s ++ (0 ∷ rest)

unfoldable pub hit_key : SearchOptions → Text
unfolding resolved_sort format_int join_sorted
hit_key o = field o.query (
    field (resolved_sort o) (
      field o.price (
        field o.author (
          field o.like (
            field (format_int o.min_first_seen)
              (field (join_sorted o.tags) (field (join_sorted o.exclude_tags) [])))))))
