-- ===== src/Fetcher/Tags/Found.antt =====
-- The walk over the tags ends, and what it finds can be planned: internal/fetcher/tags.go.
use mathlib.Core.List.{Mem, mem-cons_self, mem-cons_of_mem, mem-cons, not-mem-nil, Pairwise, Perm}
use mathlib.Core.HLevel.{¬_prop}
use mathlib.Core.Nat
use mathlib.Core.List
use mathlib.Core.Logic.Or
use mathlib.Core.List.Perm
use itchgrep.Base.{
  ℕ, zero, suc, ◌+◌, ◌-◌, ◌≤◌, ◌<◌, ◌≡◌, ◌≢◌, refl, sym, ap, ◌∙◌, by_if, Bool, true, false, not,
  ◌&&◌, Option, none, some, List, [], ◌∷◌, ◌++◌, arith, All, Bool-cases, inl, inr, length,
  length-append, ltb, ltb→lt, leb,
}
use itchgrep.Base.Text.{Text, text_eq, text_eq_iff, text_eq_refl}
use itchgrep.Base.Text.Sets.{has}
use itchgrep.Base.Sort.{sort, length-sort}
use itchgrep.Models.Tag.{Tag}
use itchgrep.Fetcher.Slice.{valid}
use itchgrep.Fetcher.Planner.{plan_slices}
use itchgrep.Fetcher.Planner.Grammar.{Distinct, Distinct-sort, plan_slices-valid}
use itchgrep.Fetcher.Tags.{
  Patterns, Download, Walk, enqueue, admit_seeds, admit_links, visit_facet, fetch_tag_page,
  discover_walk, limit_of, no_walk, discover_from,
}

abbrev one_if : Bool → ℕ
one_if true = 1
one_if false = 0

-- How often a text is queued, and how often it is the slug of a tag.
times : Text → List Text → ℕ
times t [] = 0
times t (q ∷ qs) = one_if (text_eq q t) + times t qs

tagged_times : Text → List Tag → ℕ
tagged_times t [] = 0
tagged_times t (g ∷ gs) = one_if (text_eq g.slug t) + tagged_times t gs

times-append : (t : Text) (xs ys : List Text) → times t (xs ++ ys) ≡ times t xs + times t ys
unfolding times
times-append t [] ys = omega arith
times-append t (x ∷ xs) ys = omega (arith, times-append t xs ys)

tagged_times-append :
    (t : Text) (xs ys : List Tag)
    → tagged_times t (xs ++ ys) ≡ tagged_times t xs + tagged_times t ys
unfolding tagged_times
tagged_times-append t [] ys = omega arith
tagged_times-append t (x ∷ xs) ys = omega (arith, tagged_times-append t xs ys)

-- A text that was seen is in the queue or among the tags at most once; one that was not, never.
abbrev Once : Walk → Type 0
Once w = (t : Text) → times t w.queue + tagged_times t w.tags ≤ one_if (has w.seen t)

enqueue-Once : (t : Text) (w : Walk) → has w.seen t ≡ false → Once w → Once (enqueue t w)
unfolding enqueue times
enqueue-Once t w new h j = ground (arith, h j, times-append j w.queue (t ∷ []), text_eq_iff t j)

-- The visits that are still to come are bounded.
abbrev to_visit : ℕ → Walk → ℕ
to_visit max w = length w.queue + (max - length w.seen)

record Kept (max : ℕ) (w w' : Walk) : Type 0 where
  once : Once w'
  fewer : to_visit max w' ≤ to_visit max w
  same : w'.tags ≡ w.tags

enqueue-to_visit :
    (max : ℕ) (t : Text) (w : Walk)
    → length w.seen < max
    → to_visit max (enqueue t w) ≤ to_visit max w
unfolding enqueue
enqueue-to_visit max t w room = omega (arith, length-append {0} w.queue (t ∷ []))

enqueue-tags : (t : Text) (w : Walk) → (enqueue t w).tags ≡ w.tags
unfolding enqueue
enqueue-tags t w = refl

admit_links-Kept :
    (max : ℕ) (cos : List Text) (w : Walk) → Once w → Kept max w (admit_links max cos w)
unfolding admit_links
admit_links-Kept max [] w h = record { once = h; fewer = omega arith; same = refl }
admit_links-Kept max (co ∷ cos) w h =
    elim (Bool-cases (not (has w.seen co) && ltb (length w.seen) max)) [
      | inl e ↦
          let new : has w.seen co ≡ false = ground arith in
          let room : length w.seen < max = ground arith in
          let rest : Kept max (enqueue co w) (admit_links max cos (enqueue co w)) =
            admit_links-Kept max cos (enqueue co w) (enqueue-Once co w new h) in
          rw e (record {
            once = rest.once;
            fewer = let f = rest.fewer in omega (arith, enqueue-to_visit max co w room);
            same = rest.same ∙ enqueue-tags co w;
          })
      | inr e ↦ rw e (admit_links-Kept max cos w h)
    ]

enqueue-length : (t : Text) (w : Walk) → length (enqueue t w).queue ≡ length w.queue + 1
unfolding enqueue
enqueue-length t w = length-append w.queue (t ∷ [])

-- The seeds are queued, and no tag is added by it.
record Seeded (n : ℕ) (w w' : Walk) : Type 0 where
  once : Once w'
  queued : length w'.queue ≤ n + length w.queue
  same : w'.tags ≡ w.tags

admit_seeds-Seeded : (ss : List Text) (w : Walk) → Once w → Seeded (length ss) w (admit_seeds ss w)
unfolding admit_seeds
admit_seeds-Seeded [] w h = record { once = h; queued = omega arith; same = refl }
admit_seeds-Seeded (s ∷ ss) w h =
    by_if (λ w'. Seeded (suc (length ss)) w (admit_seeds ss w')) (has w.seen s)
      (λ _.
        let r = admit_seeds-Seeded ss w h in
        let q = r.queued in record { once = r.once; queued = omega arith; same = r.same })
      (λ new.
        let r = admit_seeds-Seeded ss (enqueue s w) (enqueue-Once s w new h) in
        let q = r.queued in
        record {
          once = r.once;
          queued = omega (arith, enqueue-length s w);
          same = r.same ∙ enqueue-tags s w;
        })

record Visited (max : ℕ) (left : ℕ) (w' : Walk) : Type 0 where
  once : Once w'
  fewer : to_visit max w' ≤ left
  few : length w'.tags ≤ max

-- One facet comes off the queue, and is a tag if its page was read.
visit_facet-Visited :
    (max : ℕ) (slug : Text) (rest seen : List Text) (tags : List Tag)
    (page : Option (ℕ × List Text))
    → Once (record { queue = slug ∷ rest; seen = seen; tags = tags })
    → length tags < max
    → Visited max
        (length rest + (max - length seen))
        (visit_facet max slug page (record { queue = rest; seen = seen; tags = tags }))
unfolding visit_facet times tagged_times
visit_facet-Visited max slug rest seen tags none h room = record {
  once = λ t. omega (arith, h t);
  fewer = omega arith;
  few = omega arith;
}
visit_facet-Visited max slug rest seen tags (some (count, cos)) h room =
    let tag : Tag = record { slug = slug; count = count } in
    let w : Walk = record { queue = rest; seen = seen; tags = tags ++ tag ∷ [] } in
    let k =
      admit_links-Kept max cos w (λ t. omega (arith, h t, tagged_times-append t tags (tag ∷ []))) in
    record {
      once = k.once;
      fewer = k.fewer;
      few = rw k.same (omega (arith, length-append {0} tags (tag ∷ [])));
    }

-- A walk that has ended.
record Ended (max : ℕ) (tags : List Tag) : Type 0 where
  few : length tags ≤ max
  once : (t : Text) → tagged_times t tags ≤ 1

module _ (p : Patterns) (site : Text → Download) where
  abbrev Ends : ℕ → ℕ → Walk → Type 0
  Ends max fuel w =
      (tags : List Tag) × (discover_walk p site max fuel w ≡ some tags) × Ended max tags

  once-le : (b : Bool) → one_if b ≤ 1
  once-le true = omega arith
  once-le false = omega arith

  discover_walk-Ended :
      (max fuel : ℕ) (queue seen : List Text) (tags : List Tag)
      → length queue + (max - length seen) < fuel
      → Once (record { queue = queue; seen = seen; tags = tags })
      → length tags ≤ max
      → Ends max fuel (record { queue = queue; seen = seen; tags = tags })
  unfolding discover_walk times
  discover_walk-Ended max zero queue seen tags f h few = absurd (omega arith)
  discover_walk-Ended max (suc fuel) [] seen tags f h few =
      (tags, refl, record { few = few; once = λ t. omega (arith, h t, once-le (has seen t)) })
  discover_walk-Ended max (suc fuel) (slug ∷ rest) seen tags f h few =
      let w : Walk =
        visit_facet max slug (fetch_tag_page p slug (site slug))
          (record { queue = rest; seen = seen; tags = tags }) in
      by_if (λ o. (ts : List Tag) × (o ≡ some ts) × Ended max ts) (ltb (length tags) max)
        (λ room.
          let v =
            visit_facet-Visited max slug rest seen tags (fetch_tag_page p slug (site slug)) h
              (ltb→lt (length tags) max room) in
          let left = v.fewer in
          discover_walk-Ended max fuel w.queue w.seen w.tags (omega arith) v.once v.few)
        (λ _.
          (tags, refl, record { few = few; once = λ t. omega (arith, h t, once-le (has seen t)) }))

apart_from : (t : Text) (tags : List Tag) → tagged_times t tags ≤ 0 → All (λ u. t ≢ u.slug) tags
unfolding tagged_times
apart_from t [] h = tt
apart_from t (g ∷ gs) h =
    (λ e. ground (arith, text_eq_iff g.slug t), apart_from t gs (ground arith))

once-Distinct : (tags : List Tag) → ((t : Text) → tagged_times t tags ≤ 1) → Distinct tags
unfolding tagged_times
once-Distinct [] h = tt
once-Distinct (g ∷ gs) h = (
  apart_from g.slug gs (ground (arith, h g.slug, text_eq_refl g.slug)),
  once-Distinct gs (λ t. ground (arith, h t)),
)

-- The order of the tags does not matter to their being distinct.
All-of_Mem :
    (t : Text) (gs : List Tag) → ((g : Tag) → Mem g gs → t ≢ g.slug) → All (λ u. t ≢ u.slug) gs
All-of_Mem t [] h = tt
All-of_Mem t (g ∷ gs) h = (h g mem-cons_self, All-of_Mem t gs (λ u m. h u (mem-cons_of_mem g m)))

Distinct-of_Pairwise : {gs : List Tag} → Pairwise (λ (a b : Tag). a.slug ≢ b.slug) gs → Distinct gs
Distinct-of_Pairwise Pairwise.nil = tt
Distinct-of_Pairwise (Pairwise.cons {a} {l} h t) = (All-of_Mem a.slug l h, Distinct-of_Pairwise t)

mem_of_All :
    (t : Text) (gs : List Tag) → All (λ u. t ≢ u.slug) gs → (g : Tag) → Mem g gs → t ≢ g.slug
mem_of_All t [] h g m = absurd (not-mem-nil m)
mem_of_All t (u ∷ gs) h g m =
    Or.elim ¬_prop (mem-cons.0 m) (λ e. rw e h.0) (λ m'. mem_of_All t gs h.1 g m')

Pairwise-of_Distinct : (gs : List Tag) → Distinct gs → Pairwise (λ (a b : Tag). a.slug ≢ b.slug) gs
Pairwise-of_Distinct [] d = Pairwise.nil
Pairwise-of_Distinct (g ∷ gs) d =
    Pairwise.cons (mem_of_All g.slug gs d.0) (Pairwise-of_Distinct gs d.1)

Distinct-perm : (gs hs : List Tag) → Perm gs hs → Distinct gs → Distinct hs
Distinct-perm gs hs p d = Distinct-of_Pairwise (
    Perm.pairwise {R = λ (a b : Tag). a.slug ≢ b.slug} (λ a b. ¬_prop) (λ x y n e. n (sym e)) p
      (Pairwise-of_Distinct gs d))

-- The library's length, as a native number.
native : Nat.ℕ → ℕ
native Nat.zero = 0
native (Nat.suc n) = suc (native n)

length-native : (gs : List Tag) → length gs ≡ native (List.length gs)
unfolding native
length-native [] = refl
length-native (g ∷ gs) = omega (arith, length-native gs)

length-perm : (gs hs : List Tag) → Perm gs hs → length gs ≡ length hs
length-perm gs hs p = length-native gs ∙ ap native (Perm.length-eq p) ∙ sym (length-native hs)

abbrev by_count : Tag → Tag → Bool
by_count a b = leb b.count a.count

no_walk-Once : Once no_walk
unfolding times tagged_times
no_walk-Once t = omega arith

-- The whole discovery: of any seed, it ends.
discover_walk-seeded :
    (p : Patterns) (site : Text → Download) (limit : ℕ) (seed : List Text)
    → Ends p site limit (suc (length seed + limit)) (admit_seeds seed no_walk)
discover_walk-seeded p site limit seed =
    let s = admit_seeds-Seeded seed no_walk no_walk-Once in
    let w : Walk = admit_seeds seed no_walk in
    let q = s.queued in
    discover_walk-Ended p site limit (suc (length seed + limit)) w.queue w.seen w.tags (omega arith)
      s.once (rw s.same (omega arith))

-- Whatever the site answers and whatever its documents link to, a discovery from a seed that is
-- not empty ends with a result: at most as many tags as the limit, no two with one slug, and every
-- view planned of them is valid. Sorting may put tags of one count in any order.
pub discover_from-planned :
    (p : Patterns) (site : Text → Download) (mix : List Tag → List Tag)
    → ((ts : List Tag) → Perm ts (mix ts))
    → (s : Text) (ss : List Text) (max_tags items_per_page : ℕ)
    → (tags : List Tag) × (discover_from p site mix (s ∷ ss) max_tags ≡ some tags)
      × (length tags ≤ limit_of max_tags)
      × Distinct tags
      × All (λ v. valid v ≡ true) (plan_slices tags items_per_page)
unfolding discover_from
discover_from-planned p site mix perm s ss max_tags k =
    let (ts, found, e) = discover_walk-seeded p site (limit_of max_tags) (s ∷ ss) in
    let few = e.few in
    let d : Distinct (sort by_count (mix ts)) =
      Distinct-sort by_count (mix ts)
        (Distinct-perm ts (mix ts) (perm ts) (once-Distinct ts e.once)) in
    (
      sort by_count (mix ts),
      rw (found, discover_from) refl,
      omega (arith, length-sort by_count (mix ts), length-perm ts (mix ts) (perm ts)),
      d,
      plan_slices-valid (sort by_count (mix ts)) k d,
    )
