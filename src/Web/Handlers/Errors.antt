-- ===== src/Web/Handlers/Errors.antt =====
-- The replies of the handlers of internal/web/handlers.go and tag.go, with renderProblem and
-- statusFor.
use itchgrep.Base.{
  ℕ, ◌≡◌, ◌≢◌, refl, true, false, not, ◌||◌, ◌==◌, Option, none, some, [], ◌++◌, leb, ltb, by_if,
  if◌then◌else◌,
}
use itchgrep.Base.Int.{ℤ}
use itchgrep.Base.Text.{Text, codes, text_eq}
use itchgrep.Money.Float.{Float64}
use itchgrep.Models.Asset.{Unicode}
use itchgrep.Cache.Find.{Outcome, answered, unready, bad_page, index_failed}
use itchgrep.Cache.State.{Results}
use itchgrep.Web.Params.{normalize_tag, page_param}
use itchgrep.Web.Address.{Url, Incoming, page_url, requested_form}
use itchgrep.Web.Handlers.{
  Server, Reply, no_store, bare_reply, dated_reply, last_modified, filters_of, not_modified,
  policy_for, long_policy, brief_policy, render, handle_index, handle_results, handle_results_tags,
  handle_new, handle_tag,
}

-- A failure is not stored, has no date to revalidate it by and shows no results; whatever has such
-- a date is a page or a 304, and results come with status 200.
pub record IsHonest (r : Reply) : Type 0 where
  pub unstored : leb 400 r.status ≡ true → r.cache_control ≡ no_store
  pub undated : r.dated ≢ none → (r.status == 200) || (r.status == 304) ≡ true
  pub complete : r.shown ≢ none → r.status ≡ 200

bare_reply-IsHonest : (status : ℕ) → IsHonest (bare_reply status no_store)
bare_reply-IsHonest status = record {
  unstored = λ _. refl;
  undated = λ h. absurd (h refl);
  complete = λ h. absurd (h refl);
}

render-IsHonest :
    (t : Option ℕ) (policy : Results → Text) (o : Outcome) → IsHonest (render t policy o)
unfolding render
render-IsHonest t policy (answered res) = record {
  unstored = λ h. cc;
  undated = λ _. refl;
  complete = λ _. refl;
}
render-IsHonest t policy unready = bare_reply-IsHonest 503
render-IsHonest t policy bad_page = bare_reply-IsHonest 500
render-IsHonest t policy index_failed = bare_reply-IsHonest 500

dated_reply-IsHonest : (policy : Text) (t : Option ℕ) → IsHonest (dated_reply policy t 304)
dated_reply-IsHonest policy t = record {
  unstored = λ h. cc;
  undated = λ _. refl;
  complete = λ h. absurd (h refl);
}

-- The 304, or what comes instead.
abbrev HonestOr : Option Reply → Type 0
HonestOr none = true ≡ true
HonestOr (some r) = IsHonest r

first_of :
    (v : Option Reply) (w : Reply)
    → HonestOr v
    → IsHonest w
    → IsHonest (elim v as (λ _. Reply) [ some reply ↦ reply | none ↦ w ])
first_of none w h k = k
first_of (some reply) w h k = h

by_times :
    (t asked : Option ℕ) (policy : Text)
    → HonestOr (elim t as (λ _. Option Reply) [
      | none ↦ none
      | some x ↦ elim asked as (λ _. Option Reply) [
        | none ↦ none
        | some y ↦ if ltb y x then none else some (dated_reply policy (some x) 304)
      ]
    ])
by_times none asked policy = refl
by_times (some x) none policy = refl
by_times (some x) (some y) policy =
    by_if HonestOr (ltb y x) (λ _. refl) (λ _. dated_reply-IsHonest policy (some x))

redirect-IsHonest :
    (status : ℕ) (policy to : Text)
    → leb 400 status ≡ false
    → IsHonest (record (bare_reply status policy) { location = some to })
redirect-IsHonest status policy to h = record {
  unstored = λ k. cc;
  undated = λ k. absurd (k refl);
  complete = λ k. absurd (k refl);
}

pushed-IsHonest :
    (r : Reply) (push : Option Text) → IsHonest r → IsHonest (record r { push_url = push })
pushed-IsHonest r push h = record {
  unstored = h.unstored;
  undated = h.undated;
  complete = h.complete;
}

paged :
    (body : ℤ → Reply) (v : Option ℤ)
    → ((n : ℤ) → IsHonest (body n))
    → IsHonest (elim v as (λ _. Reply) [ none ↦ bare_reply 400 no_store | some n ↦ body n ])
paged body none h = bare_reply-IsHonest 400
paged body (some n) h = h n

module _ (uni : Unicode) (to_upper : Text → Text) (fl : Float64) (u : Url)
    (parse_time : Text → Option ℕ) (s : Server fl) where
  not_modified-HonestOr : (r : Incoming) → HonestOr (not_modified uni to_upper fl u parse_time s r)
  unfolding not_modified
  not_modified-HonestOr r =
      by_if HonestOr (not r.reads || (text_eq r.since [] || not (text_eq r.none_match [])))
        (λ _. refl) (λ _. by_times (last_modified s.started s.data_time) (parse_time r.since) _)

  -- What a handler does with a request that it accepts.
  served :
      (r : Incoming) (policy : Results → Text) (o : Outcome)
      → IsHonest (elim (not_modified uni to_upper fl u parse_time s r) as (λ _. Reply) [
        | some reply ↦ reply
        | none ↦ render (last_modified s.started s.data_time) policy o
      ])
  served r policy o =
      first_of (not_modified uni to_upper fl u parse_time s r)
        (render (last_modified s.started s.data_time) policy o) (not_modified-HonestOr r)
        (render-IsHonest (last_modified s.started s.data_time) policy o)

  handle_index-IsHonest : (r : Incoming) → IsHonest (handle_index uni to_upper fl u parse_time s r)
  unfolding handle_index
  handle_index-IsHonest r = paged _ (page_param (u.decode r.raw_query)) (λ n.
      by_if IsHonest
        (not
          (text_eq (page_url u (filters_of uni to_upper fl u parse_time s r) n) (requested_form r)))
        (λ _. redirect-IsHonest 302 brief_policy _ refl) (λ _. served r (policy_for n) _))

  handle_results-IsHonest :
      (r : Incoming) → IsHonest (handle_results uni to_upper fl u parse_time s r)
  unfolding handle_results
  handle_results-IsHonest r =
      paged _ (page_param (u.decode r.raw_query))
        (λ n. pushed-IsHonest _ _ (served r (policy_for n) _))

  handle_results_tags-IsHonest :
      (r : Incoming) → IsHonest (handle_results_tags uni to_upper fl u parse_time s r)
  unfolding handle_results_tags
  handle_results_tags-IsHonest r = served r (λ _. long_policy) _

  handle_new-IsHonest : (r : Incoming) → IsHonest (handle_new uni to_upper fl u parse_time s r)
  unfolding handle_new
  handle_new-IsHonest r = served r (λ _. long_policy) _

  handle_tag-IsHonest :
      (raw : Text) (r : Incoming) → IsHonest (handle_tag uni to_upper fl u parse_time s raw r)
  unfolding handle_tag
  handle_tag-IsHonest raw r =
      let slug = normalize_tag uni raw in
      by_if IsHonest (text_eq slug [] || not (s.has_tag slug)) (λ _. bare_reply-IsHonest 404)
        (λ _.
          by_if IsHonest (not (text_eq raw slug))
            (λ _. redirect-IsHonest 301 [] (codes "/tag/" ++ slug) refl)
            (λ _. paged _ (page_param (u.decode r.raw_query)) (λ n. served r (policy_for n) _)))

  -- Each of the five handlers of results sends a reply of status 400 or above with no-store, a
  -- Last-Modified with a page or a 304 only, and results with status 200 only.
  pub handlers-IsHonest :
      (raw : Text) (r : Incoming)
      → IsHonest (handle_index uni to_upper fl u parse_time s r)
        × IsHonest (handle_results uni to_upper fl u parse_time s r)
        × IsHonest (handle_results_tags uni to_upper fl u parse_time s r)
        × IsHonest (handle_new uni to_upper fl u parse_time s r)
        × IsHonest (handle_tag uni to_upper fl u parse_time s raw r)
  handlers-IsHonest raw r = (
    handle_index-IsHonest r,
    handle_results-IsHonest r,
    handle_results_tags-IsHonest r,
    handle_new-IsHonest r,
    handle_tag-IsHonest raw r,
  )
