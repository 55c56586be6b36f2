-- ===== src/Web/Params/Again.antt =====
-- Values that were read before: parseFilterValues of internal/web/handlers.go after Values of
-- internal/web/templates/filters.go.
use mathlib.Core.List.{append-nil, append_assoc}
use mathlib.Core.Path.{subst}
use itchgrep.Base.{
  ℕ, suc, ◌≤◌, ◌<◌, ◌≡◌, refl, sym, ap, ◌∙◌, Bool, true, false, not, ◌&&◌, ◌||◌, List, [], ◌∷◌,
  ◌++◌, arith, all, All, All-in, All-weaken, In-append_right, length, length-append, leb, ltb, ◌==◌,
  by_if, Bool-cases, inl, inr, if◌then◌else◌,
}
use itchgrep.Base.Text.{
  Text, codes, text_lt, text_lt_asymm, text_lt_irrefl, text_eq, text_eq_iff, join,
}
use itchgrep.Base.Text.Split.{split, split-join, Avoids}
use itchgrep.Base.Text.Space.{spaces, trim_space}
use itchgrep.Base.Text.Trim.{ends, starts_off, is_plain, trim_space-trim_space, trim_space-plain}
use itchgrep.Base.Text.Number.{is_digit}
use itchgrep.Models.Asset.{Unicode}
use itchgrep.Web.Filters.{
  Filters, at_tag_limit, at_not_tag_limit, with_tag, with_not_tag, without_tag, without_not_tag,
  contains, remove, insert_sorted,
}
use itchgrep.Web.Filters.Tags.{Ascending}
use itchgrep.Web.Params.{
  slug_byte, normalize_tag, normalize_game_id, clamp_author, clamp_query, max_query_len,
  max_tag_len, require_all, exclude_all, pieces,
}
use itchgrep.Web.Params.Parsed.{IsSlug, length-clamp_query}

-- A sequence that begins with no byte of slugs.
abbrev foreign : Text → Bool
foreign [] = false
foreign (c ∷ w) = not (slug_byte c)

foreign-starts_off :
    (b : ℕ) (ws : List Text)
    → slug_byte b ≡ true
    → all foreign ws ≡ true
    → all (starts_off b) ws ≡ true
foreign-starts_off b [] h off = refl
foreign-starts_off b ([] ∷ ws) h off = cc
foreign-starts_off b ((c ∷ w) ∷ ws) h off = ground (arith, foreign-starts_off b ws h)

slug_byte-is_plain : (b : ℕ) → slug_byte b ≡ true → is_plain b ≡ true
unfolding is_plain
slug_byte-is_plain b h =
    rw (foreign-starts_off b spaces h refl, foreign-starts_off b ends h refl) refl

both_true : (x y : Bool) → x && y ≡ true → (x ≡ true) × (y ≡ true)
both_true true y h = (refl, h)
both_true false y h = cc

slug-all-plain : (t : Text) → all slug_byte t ≡ true → all is_plain t ≡ true
slug-all-plain [] h = refl
slug-all-plain (b ∷ t) h =
    let (x, y) = both_true (slug_byte b) (all slug_byte t) h in
    rw (slug_byte-is_plain b x, slug-all-plain t y)

clamp_query_short : (c : Text) → trim_space c ≡ c → length c ≤ max_query_len → clamp_query c ≡ c
unfolding clamp_query
clamp_query_short c e l =
    by_if (λ r. r ≡ c) (leb (length (trim_space c)) max_query_len) (λ _. e)
      (λ over. absurd (long (trim_space c) over e))
  where
    long : (t : Text) → leb (length t) max_query_len ≡ false → ¬ (t ≡ c)
    long t over same = ground (arith, ap (length {A = ℕ}) same)

clamp_query-trimmed : (q : Text) → trim_space (clamp_query q) ≡ clamp_query q
unfolding clamp_query
clamp_query-trimmed q =
    by_if (λ r. trim_space r ≡ r) (leb (length (trim_space q)) max_query_len)
      (λ _. trim_space-trim_space q) (λ _. trim_space-trim_space _)

pub clamp_query-clamp_query : (q : Text) → clamp_query (clamp_query q) ≡ clamp_query q
clamp_query-clamp_query q =
    clamp_query_short (clamp_query q) (clamp_query-trimmed q) (length-clamp_query q)

pub trim_space_empty : trim_space [] ≡ []
unfolding trim_space
trim_space_empty = refl

pub clamp_author-clamp_author : (a : Text) → clamp_author (clamp_author a) ≡ clamp_author a
unfolding clamp_author
clamp_author-clamp_author a =
    by_if (λ r. clamp_author r ≡ r) (ltb 120 (length (trim_space a)))
      (λ _. rw (trim_space_empty, clamp_author))
      (λ e. rw (trim_space-trim_space a, clamp_author, e))

pub normalize_game_id_again :
    (i : Text) → normalize_game_id (normalize_game_id i) ≡ normalize_game_id i
unfolding normalize_game_id text_eq
normalize_game_id_again i =
    by_if (λ r. normalize_game_id r ≡ r) {x = []}
      (text_eq (trim_space i) [] || ltb 32 (length (trim_space i)))
      (λ _. rw (trim_space_empty, normalize_game_id))
      (λ e.
        by_if (λ r. normalize_game_id r ≡ r) (all is_digit (trim_space i))
          (λ d. rw (trim_space-trim_space i, normalize_game_id, e, d))
          (λ _. rw (trim_space_empty, normalize_game_id)))

-- A slug is read as itself.
module _ (uni : Unicode) (lower : (t : Text) → all slug_byte t ≡ true → uni.to_lower t ≡ t) where
  normalize_tag-slug : (t : Text) → IsSlug t → normalize_tag uni t ≡ t
  unfolding normalize_tag
  normalize_tag-slug t (filled, short, slug) =
      rw (trim_space-plain t (slug-all-plain t slug), normalize_tag, lower t slug, filled, slug)
        (by_if (λ r. r ≡ t) (ltb max_tag_len (length t)) (λ e. absurd (ground arith)) (λ _. refl))

-- A text that comes behind a list goes to its end.
insert_sorted-last :
    (acc : List Text) (t : Text)
    → All (λ u. text_lt u t ≡ true) acc
    → insert_sorted acc t ≡ acc ++ (t ∷ [])
unfolding insert_sorted
insert_sorted-last [] t h = refl
insert_sorted-last (u ∷ acc) t h =
    rw (text_lt_asymm u t h.0) (ap (◌∷◌ u) (insert_sorted-last acc t h.1))

new_behind :
    (acc : List Text) (t : Text) → All (λ u. text_lt u t ≡ true) acc → contains acc t ≡ false
unfolding contains
new_behind [] t h = refl
new_behind (u ∷ acc) t h =
    ground (arith, h.0, new_behind acc t h.1, text_eq_iff u t, text_lt_irrefl t, text_lt_irrefl u)

remove_none : (ts : List Text) (t : Text) → contains ts t ≡ false → remove ts t ≡ ts
unfolding remove contains
remove_none [] t h = refl
remove_none (u ∷ ts) t h = elim (Bool-cases (text_eq u t)) [
  | inl e ↦ cc (rw e at h)
  | inr e ↦ rw e (ap (◌∷◌ u) (remove_none ts t (rw e at h)))
]

-- What stands in front of a text in an ascending list is less.
all_before :
    (acc : List Text) (t : Text) (ts : List Text)
    → Ascending (acc ++ (t ∷ ts))
    → All (λ u. text_lt u t ≡ true) acc
all_before [] t ts h = tt
all_before (a ∷ acc) t ts h = (
  All-in (λ u. text_lt a u ≡ true) t (acc ++ (t ∷ ts)) h.0
      (In-append_right t acc (t ∷ ts) (inl refl)),
  all_before acc t ts h.1,
)

abbrev pub of_tags : Filters → List Text → List Text → Filters
of_tags b tags not_tags = record b { tags = tags; not_tags = not_tags }

with_tag-last :
    (b : Filters) (acc : List Text) (t : Text)
    → All (λ u. text_lt u t ≡ true) acc
    → length acc < 4
    → with_tag (of_tags b acc []) t ≡ of_tags b (acc ++ (t ∷ [])) []
unfolding with_tag without_not_tag at_tag_limit remove
with_tag-last b acc t h l =
    by_if (λ f. f ≡ of_tags b (acc ++ (t ∷ [])) []) (contains acc t || leb 4 (length acc))
      (λ e. absurd (ground (arith, new_behind acc t h)))
      (λ _. ap (λ ts. of_tags b ts []) (insert_sorted-last acc t h))

with_not_tag-last :
    (b : Filters) (tags acc : List Text) (t : Text)
    → contains tags t ≡ false
    → All (λ u. text_lt u t ≡ true) acc
    → length acc < 4
    → with_not_tag (of_tags b tags acc) t ≡ of_tags b tags (acc ++ (t ∷ []))
unfolding with_not_tag without_tag at_not_tag_limit
with_not_tag-last b tags acc t off h l =
    by_if (λ f. f ≡ of_tags b tags (acc ++ (t ∷ []))) (contains acc t || leb 4 (length acc))
      (λ e. absurd (ground (arith, new_behind acc t h)))
      (λ _. rw (remove_none tags t off, insert_sorted-last acc t h) refl)

at_tag_limit_below :
    (b : Filters) (x y : List Text) → length x < 4 → at_tag_limit (of_tags b x y) ≡ false
unfolding at_tag_limit
at_tag_limit_below b x y h = ground arith

at_not_tag_limit_below :
    (b : Filters) (x y : List Text) → length y < 4 → at_not_tag_limit (of_tags b x y) ≡ false
unfolding at_not_tag_limit
at_not_tag_limit_below b x y h = ground arith

module _ (uni : Unicode) (lower : (t : Text) → all slug_byte t ≡ true → uni.to_lower t ≡ t) where
  joined : (acc : List Text) (t : Text) (ts : List Text) → (acc ++ (t ∷ [])) ++ ts ≡ acc ++ (t ∷ ts)
  joined acc t ts = append_assoc acc (t ∷ []) ts

  -- Slugs in ascending order are required one by one, each at the end.
  pub require_all-slugs :
      (ts acc : List Text) (b : Filters)
      → All IsSlug ts
      → Ascending (acc ++ ts)
      → length (acc ++ ts) ≤ 4
      → require_all uni ts (of_tags b acc []) ≡ of_tags b (acc ++ ts) []
  unfolding require_all
  require_all-slugs [] acc b s asc l = ap (λ x. of_tags b x []) (sym (append-nil acc))
  require_all-slugs (t ∷ ts) acc b s asc l =
      let few : length acc < 4 = omega (arith, length-append {0} acc (t ∷ ts)) in
      let step : with_tag (of_tags b acc []) t ≡ of_tags b (acc ++ (t ∷ [])) [] =
        with_tag-last b acc t (all_before acc t ts asc) few in
      let more : require_all uni ts (of_tags b (acc ++ (t ∷ [])) [])
          ≡ of_tags b ((acc ++ (t ∷ [])) ++ ts) [] =
        require_all-slugs ts (acc ++ (t ∷ [])) b s.1 (subst Ascending (sym (joined acc t ts)) asc)
          (subst (λ x. length x ≤ 4) (sym (joined acc t ts)) l) in
      let room : at_tag_limit (of_tags b acc []) ≡ false = at_tag_limit_below b acc [] few in
      rw (room, require_all, normalize_tag-slug uni lower t s.0, s.0.0, step)
        (more ∙ ap (λ x. of_tags b x []) (joined acc t ts))

  pub exclude_all-slugs :
      (ts tags acc : List Text) (b : Filters)
      → All IsSlug ts
      → All (λ t. contains tags t ≡ false) ts
      → Ascending (acc ++ ts)
      → length (acc ++ ts) ≤ 4
      → exclude_all uni ts (of_tags b tags acc) ≡ of_tags b tags (acc ++ ts)
  unfolding exclude_all
  exclude_all-slugs [] tags acc b s off asc l = ap (λ x. of_tags b tags x) (sym (append-nil acc))
  exclude_all-slugs (t ∷ ts) tags acc b s off asc l =
      let few : length acc < 4 = omega (arith, length-append {0} acc (t ∷ ts)) in
      let step : with_not_tag (of_tags b tags acc) t ≡ of_tags b tags (acc ++ (t ∷ [])) =
        with_not_tag-last b tags acc t off.0 (all_before acc t ts asc) few in
      let more : exclude_all uni ts (of_tags b tags (acc ++ (t ∷ [])))
          ≡ of_tags b tags ((acc ++ (t ∷ [])) ++ ts) =
        exclude_all-slugs ts tags (acc ++ (t ∷ [])) b s.1 off.1
          (subst Ascending (sym (joined acc t ts)) asc)
          (subst (λ x. length x ≤ 4) (sym (joined acc t ts)) l) in
      let room : at_not_tag_limit (of_tags b tags acc) ≡ false =
        at_not_tag_limit_below b tags acc few in
      rw (room, exclude_all, normalize_tag-slug uni lower t s.0, s.0.0, step)
        (more ∙ ap (λ x. of_tags b tags x) (joined acc t ts))

-- The pieces of a parameter of slugs.
slug-Avoids : (t : Text) → all slug_byte t ≡ true → Avoids b',' t
slug-Avoids [] h = tt
slug-Avoids (b ∷ t) h =
    let (x, y) = both_true (slug_byte b) (all slug_byte t) h in (λ e. ground arith, slug-Avoids t y)

pub pieces-join :
    (ts : List Text)
    → All IsSlug ts
    → pieces (if length ts == 0 then [] else join (codes ",") ts ∷ []) ≡ ts
unfolding pieces
pieces-join [] s = refl
pieces-join (t ∷ ts) s =
    by_if (λ vs. pieces vs ≡ t ∷ ts) (suc (length ts) == 0) (λ e. absurd (ground arith))
      (λ _.
        append-nil (split b',' (join (codes ",") (t ∷ ts)))
        ∙ split-join b',' t ts
            (All-weaken IsSlug (Avoids b',') (λ u h. slug-Avoids u h.2) (t ∷ ts) s))
