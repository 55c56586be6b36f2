-- ===== src/Web/Filters/Keeps.antt =====
-- What every control of the search page keeps: the tag lists are sorted, apart and short.
use itchgrep.Base.{◌≤◌, ◌||◌, List, [], ◌∷◌, arith, length, Bool-cases, inl, inr, by_if}
use itchgrep.Base.Text.{Text}
use itchgrep.Web.Filters.{
  Filters, max_tags, max_not_tags, at_tag_limit, at_not_tag_limit, contains, without_tag,
  without_not_tag, with_tag, with_not_tag, toggle_tag, with_author, with_like, without_like,
  with_price, with_sort, cleared,
}
use itchgrep.Web.Filters.Tags.{
  Ascending, Apart, length-insert_sorted, length-remove, Ascending-insert_sorted, Ascending-remove,
  Apart-remove-insert_sorted, Apart-insert_sorted-remove, Apart-remove_left, Apart-remove_right,
}

pub record IsFilters (f : Filters) : Type 0 where
  pub sorted : Ascending f.tags
  pub not_sorted : Ascending f.not_tags
  pub apart : Apart f.tags f.not_tags
  pub few : length f.tags ≤ max_tags
  pub not_few : length f.not_tags ≤ max_not_tags

-- The controls of the page.
pub data Control : Type 0 where
  require : Text → Control
  unrequire : Text → Control
  exclude : Text → Control
  unexclude : Text → Control
  toggle : Text → Control
  author : Text → Control
  like : Text → Control
  unlike : Control
  price : Text → Control
  order : Text → Control
  clear : Control

unfoldable pub press : Filters → Control → Filters
unfolding with_tag without_tag with_not_tag without_not_tag toggle_tag with_author with_like
    without_like with_price with_sort cleared
press f (require t) = with_tag f t
press f (unrequire t) = without_tag f t
press f (exclude t) = with_not_tag f t
press f (unexclude t) = without_not_tag f t
press f (toggle t) = toggle_tag f t
press f (author a) = with_author f a
press f (like g) = with_like f g
press f unlike = without_like f
press f (price p) = with_price f p
press f (order s) = with_sort f s
press f clear = cleared f

-- A visit: one control after another.
unfoldable pub visit : Filters → List Control → Filters
unfolding press
visit f [] = f
visit f (c ∷ cs) = visit (press f c) cs

pub with_tag-IsFilters : (f : Filters) (t : Text) → IsFilters f → IsFilters (with_tag f t)
unfolding with_tag at_tag_limit without_not_tag
with_tag-IsFilters f t v = elim (Bool-cases (contains f.tags t || at_tag_limit f)) [
  | inl e ↦ rw (e, with_tag) v
  | inr e ↦
      rw (e, with_tag)
        (record {
          sorted = Ascending-insert_sorted f.tags t (ground arith) v.sorted;
          not_sorted = Ascending-remove f.not_tags t v.not_sorted;
          apart = Apart-insert_sorted-remove f.tags f.not_tags t v.apart;
          few = ground (arith, length-insert_sorted f.tags t);
          not_few = let h = v.not_few in omega (arith, length-remove f.not_tags t);
        })
]

pub with_not_tag-IsFilters : (f : Filters) (t : Text) → IsFilters f → IsFilters (with_not_tag f t)
unfolding with_not_tag at_not_tag_limit without_tag
with_not_tag-IsFilters f t v = elim (Bool-cases (contains f.not_tags t || at_not_tag_limit f)) [
  | inl e ↦ rw (e, with_not_tag) v
  | inr e ↦
      rw (e, with_not_tag)
        (record {
          sorted = Ascending-remove f.tags t v.sorted;
          not_sorted = Ascending-insert_sorted f.not_tags t (ground arith) v.not_sorted;
          apart = Apart-remove-insert_sorted f.tags f.not_tags t v.apart;
          few = let h = v.few in omega (arith, length-remove f.tags t);
          not_few = ground (arith, length-insert_sorted f.not_tags t);
        })
]

without_tag-IsFilters : (f : Filters) (t : Text) → IsFilters f → IsFilters (without_tag f t)
unfolding without_tag
without_tag-IsFilters f t v = record {
  sorted = Ascending-remove f.tags t v.sorted;
  not_sorted = v.not_sorted;
  apart = Apart-remove_left f.tags f.not_tags t v.apart;
  few = let h = v.few in omega (arith, length-remove f.tags t);
  not_few = v.not_few;
}

without_not_tag-IsFilters : (f : Filters) (t : Text) → IsFilters f → IsFilters (without_not_tag f t)
unfolding without_not_tag
without_not_tag-IsFilters f t v = record {
  sorted = v.sorted;
  not_sorted = Ascending-remove f.not_tags t v.not_sorted;
  apart = Apart-remove_right f.tags f.not_tags t v.apart;
  few = v.few;
  not_few = let h = v.not_few in omega (arith, length-remove f.not_tags t);
}

toggle_tag-IsFilters : (f : Filters) (t : Text) → IsFilters f → IsFilters (toggle_tag f t)
unfolding toggle_tag
toggle_tag-IsFilters f t v =
    by_if IsFilters (contains f.tags t) (λ _. without_tag-IsFilters f t v)
      (λ _. with_tag-IsFilters f t v)

press-IsFilters : (f : Filters) (c : Control) → IsFilters f → IsFilters (press f c)
unfolding press with_author with_like without_like with_price with_sort cleared
press-IsFilters f (require t) v = with_tag-IsFilters f t v
press-IsFilters f (unrequire t) v = without_tag-IsFilters f t v
press-IsFilters f (exclude t) v = with_not_tag-IsFilters f t v
press-IsFilters f (unexclude t) v = without_not_tag-IsFilters f t v
press-IsFilters f (toggle t) v = toggle_tag-IsFilters f t v
press-IsFilters f (author a) v = record {
  sorted = v.sorted;
  not_sorted = v.not_sorted;
  apart = v.apart;
  few = v.few;
  not_few = v.not_few;
}
press-IsFilters f (like g) v = record {
  sorted = v.sorted;
  not_sorted = v.not_sorted;
  apart = v.apart;
  few = v.few;
  not_few = v.not_few;
}
press-IsFilters f unlike v = record {
  sorted = v.sorted;
  not_sorted = v.not_sorted;
  apart = v.apart;
  few = v.few;
  not_few = v.not_few;
}
press-IsFilters f (price p) v = record {
  sorted = v.sorted;
  not_sorted = v.not_sorted;
  apart = v.apart;
  few = v.few;
  not_few = v.not_few;
}
press-IsFilters f (order s) v = record {
  sorted = v.sorted;
  not_sorted = v.not_sorted;
  apart = v.apart;
  few = v.few;
  not_few = v.not_few;
}
press-IsFilters f clear v = record {
  sorted = tt;
  not_sorted = tt;
  apart = tt;
  few = omega arith;
  not_few = omega arith;
}

-- If the required and the excluded tags of the filters are in ascending order without duplicates,
-- have no tag in common and are at most four each, then this is so after any sequence of controls.
pub visit-IsFilters : (f : Filters) (cs : List Control) → IsFilters f → IsFilters (visit f cs)
unfolding visit
visit-IsFilters f [] v = v
visit-IsFilters f (c ∷ cs) v = visit-IsFilters (press f c) cs (press-IsFilters f c v)
