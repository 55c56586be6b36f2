-- ===== src/Web/Filters/Routes.antt =====
-- The same tags give the same address, by whatever route they were chosen.
use itchgrep.Base.{
  ◌<◌, ◌≡◌, refl, sym, ap, ◌∙◌, true, false, List, [], ◌∷◌, arith, length, All, Bool-cases, inl,
  inr, leb,
}
use itchgrep.Base.Text.{
  Text, text_eq, text_eq_iff, text_eq_refl, text_lt, text_lt_irrefl, text_lt_asymm,
}
use itchgrep.Web.Filters.{
  Filters, contains, values, remove, insert_sorted, toggle_tag, with_tag, without_tag,
  without_not_tag, at_tag_limit, max_tags,
}
use itchgrep.Web.Filters.Tags.{
  Ascending, Ascending-insert_sorted, Ascending-remove, contains-remove, contains-insert_sorted,
  length-remove,
}
use itchgrep.Web.Filters.Keeps.{IsFilters, Control, visit, visit-IsFilters}

contains_above :
    (ts : List Text) (t : Text) → All (λ u. text_lt t u ≡ true) ts → contains ts t ≡ false
unfolding contains
contains_above [] t h = refl
contains_above (u ∷ ts) t h =
    ground (arith, h.0, text_eq_iff u t, text_lt_irrefl t, contains_above ts t h.1)

-- A text in an ascending list is not below its head.
contains-below :
    (t : Text) (ts : List Text) (u : Text)
    → All (λ v. text_lt t v ≡ true) ts
    → contains ts u ≡ true
    → text_lt t u ≡ true
unfolding contains
contains-below t [] u h m = cc
contains-below t (v ∷ ts) u h m = elim (Bool-cases (text_eq v u)) [
  | inl e ↦ let same : v ≡ u = (text_eq_iff v u).0 e in rw (← same) h.0
  | inr e ↦ contains-below t ts u h.1 (ground arith)
]

-- Ascending lists that hold the same texts are equal.
pub Ascending-unique :
    (ts us : List Text)
    → Ascending ts
    → Ascending us
    → ((t : Text) → contains ts t ≡ contains us t)
    → ts ≡ us
unfolding contains
Ascending-unique [] [] h k same = refl
Ascending-unique [] (u ∷ us) h k same = cc (same u, text_eq_refl u)
Ascending-unique (t ∷ ts) [] h k same = cc (same t, text_eq_refl t)
Ascending-unique (t ∷ ts) (u ∷ us) h k same = elim (Bool-cases (text_eq t u)) [
  | inl e ↦
      let heads : t ≡ u = (text_eq_iff t u).0 e in
      let k' = rw (← heads) at k in
      let tails : (x : Text) → contains ts x ≡ contains us x = λ x.
        elim (Bool-cases (text_eq t x)) [
          | inl at ↦
              let here : t ≡ x = (text_eq_iff t x).0 at in
              rw (← here) (contains_above ts t h.0 ∙ sym (contains_above us t k'.0))
          | inr off ↦ let s = rw (← heads) at (same x) in rw off at s
        ] in
      rw heads (ap (◌∷◌ u) (Ascending-unique ts us h.1 k.1 tails))
  | inr ne ↦
      let ne' : text_eq u t ≡ false = ground (arith, text_eq_iff t u, text_eq_iff u t) in
      let in_us : contains us t ≡ true = ground (arith, same t, text_eq_refl t, ne') in
      let in_ts : contains ts u ≡ true = ground (arith, same u, text_eq_refl u, ne) in
      cc (text_lt_asymm u t (contains-below u us t k.0 in_us), contains-below t ts u h.0 in_ts)
]

-- From filters that are sorted, apart and short, two sequences of controls that end with the same
-- sets of required and of excluded tags and the same query, like, author, price, currency and sort
-- end with the same address parameters.
pub values_same_tags :
    (f g : Filters) (cs ds : List Control)
    → IsFilters f
    → IsFilters g
    → ((t : Text) → contains (visit f cs).tags t ≡ contains (visit g ds).tags t)
    → ((t : Text) → contains (visit f cs).not_tags t ≡ contains (visit g ds).not_tags t)
    → (visit f cs).query ≡ (visit g ds).query
    → (visit f cs).like ≡ (visit g ds).like
    → (visit f cs).author ≡ (visit g ds).author
    → (visit f cs).price ≡ (visit g ds).price
    → (visit f cs).currency ≡ (visit g ds).currency
    → (visit f cs).sort ≡ (visit g ds).sort
    → values (visit f cs) ≡ values (visit g ds)
unfolding values
values_same_tags f g cs ds vf vg tags nots query like author price currency srt =
    let v = visit-IsFilters f cs vf in
    let w = visit-IsFilters g ds vg in
    let et = Ascending-unique (visit f cs).tags (visit g ds).tags v.sorted w.sorted tags in
    let en =
      Ascending-unique (visit f cs).not_tags (visit g ds).not_tags v.not_sorted w.not_sorted nots in
    rw (et, en, query, like, author, price, currency, srt)

remove_absent : (ts : List Text) (t : Text) → contains ts t ≡ false → remove ts t ≡ ts
unfolding remove contains
remove_absent [] t h = refl
remove_absent (u ∷ ts) t h = ground (arith, remove_absent ts t)

remove-insert_sorted :
    (ts : List Text) (t : Text) → contains ts t ≡ false → remove (insert_sorted ts t) t ≡ ts
unfolding remove insert_sorted contains
remove-insert_sorted [] t h = rw (text_eq_refl t)
remove-insert_sorted (u ∷ ts) t h = elim (Bool-cases (text_lt t u)) [
  | inl e ↦ rw (e, text_eq_refl t) (remove_absent (u ∷ ts) t h)
  | inr e ↦ rw e (ground (arith, remove-insert_sorted ts t))
]

insert_sorted-remove :
    (ts : List Text) (t : Text)
    → Ascending ts
    → contains ts t ≡ true
    → insert_sorted (remove ts t) t ≡ ts
insert_sorted-remove ts t h m =
    Ascending-unique (insert_sorted (remove ts t) t) ts
      (Ascending-insert_sorted (remove ts t) t
        (ground (arith, contains-remove ts t t, text_eq_refl t)) (Ascending-remove ts t h))
      h
      (λ x. ground (
        arith,
        contains-insert_sorted (remove ts t) t x,
        contains-remove ts t x,
        text_eq_iff t x,
        m,
      ))

-- The filters with a tag more, and no exclusion of it.
abbrev added : Filters → Text → Filters
added f t = record f { tags = insert_sorted f.tags t; not_tags = remove f.not_tags t }

toggle_tag_on :
    (f : Filters) (t : Text)
    → contains f.tags t ≡ false
    → length f.tags < max_tags
    → toggle_tag f t ≡ added f t
unfolding toggle_tag with_tag without_not_tag at_tag_limit
toggle_tag_on f t h room =
    let few : leb max_tags (length f.tags) ≡ false = ground arith in
    rw (h, toggle_tag, with_tag, few)

toggle_tag_off :
    (f : Filters) (t : Text)
    → contains f.tags t ≡ true
    → toggle_tag f t ≡ record f { tags = remove f.tags t }
unfolding toggle_tag without_tag
toggle_tag_off f t h = rw (h, toggle_tag)

-- In filters that are sorted, apart and short, with fewer than four required tags, a tag that is
-- not excluded and is toggled twice leaves the filters as they were.
pub toggle_tag-toggle_tag :
    (f : Filters) (t : Text)
    → IsFilters f
    → contains f.not_tags t ≡ false
    → length f.tags < max_tags
    → toggle_tag (toggle_tag f t) t ≡ f
toggle_tag-toggle_tag f t v free room = elim (Bool-cases (contains f.tags t)) [
  | inl has ↦
      let g : Filters = record f { tags = remove f.tags t } in
      let gone : contains g.tags t ≡ false =
        ground (arith, contains-remove f.tags t t, text_eq_refl t) in
      let few : length g.tags < max_tags = omega (arith, room, length-remove f.tags t) in
      ap (λ h. toggle_tag h t) (toggle_tag_off f t has)
      ∙ toggle_tag_on g t gone few
      ∙ rw (insert_sorted-remove f.tags t v.sorted has, remove_absent f.not_tags t free)
  | inr hasnt ↦
      let there : contains (added f t).tags t ≡ true =
        ground (arith, contains-insert_sorted f.tags t t, text_eq_refl t) in
      ap (λ h. toggle_tag h t) (toggle_tag_on f t hasnt room)
      ∙ toggle_tag_off (added f t) t there
      ∙ rw (remove-insert_sorted f.tags t hasnt, remove_absent f.not_tags t free)
]
