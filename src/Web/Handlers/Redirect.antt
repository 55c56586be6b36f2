-- ===== src/Web/Handlers/Redirect.antt =====
-- The redirect of HandleIndex of internal/web/handlers.go to the address by PageURL of
-- internal/web/templates/filters.go.
use itchgrep.Base.{
  ℕ, suc, ◌≡◌, ◌≢◌, refl, sym, ap, ◌∙◌, true, false, not, ◌||◌, Option, none, some, List, [], ◌∷◌,
  ◌++◌, arith, all, length, ltb, ◌==◌, by_if, Bool-cases, inl, inr, if◌then◌else◌,
}
use itchgrep.Base.Int.{ℤ}
use itchgrep.Base.Text.{Text, codes, text_eq, text_eq_refl}
use itchgrep.Base.Text.Maps.{lookup}
use itchgrep.Base.Text.Space.{trim_space}
use itchgrep.Money.Float.{Float64}
use itchgrep.Models.Asset.{Unicode}
use itchgrep.Cache.Find.{Outcome, answered, unready, bad_page, index_failed}
use itchgrep.Cache.State.{Results}
use itchgrep.Web.Filters.{Filters}
use itchgrep.Web.Params.{get_all, slug_byte, page_param}
use itchgrep.Web.Address.{Url, IsUrl, Incoming, page_values, front, page_url, requested_form}
use itchgrep.Web.Address.Again.{
  settled, parse_again, told, written_page, page_values_again, page_param_again,
}
use itchgrep.Web.Handlers.{
  Server, Reply, filters_of, last_modified, not_modified, policy_for, options_of, render,
  dated_reply, bare_reply, no_store, brief_policy, handle_index,
}

module _ (u : Url) (valid : IsUrl u) where
  -- The query behind an address of the front page reads as its parameters.
  query_behind :
      (v : List (Text × Text)) (r : Incoming) (name : Text)
      → r.path ≡ codes "/"
      → requested_form r ≡ front u v
      → get_all (u.decode r.raw_query) name ≡ get_all v name
  unfolding requested_form front text_eq get_all
  query_behind v r name at_front e = by_query v r.raw_query (rw at_front at e)
    where
      by_query :
          (v : List (Text × Text)) (raw : Text)
          → (if text_eq raw [] then codes "/" else codes "/" ++ (codes "?" ++ raw))
            ≡ (if length v == 0 then codes "/" else codes "/?" ++ u.encode v)
          → get_all (u.decode raw) name ≡ get_all v name
      by_query [] [] e = valid.reads_none name
      by_query [] (c ∷ raw) e = cc
      by_query (p ∷ v) [] e =
          let some_parameter : (suc (length v) == 0) ≡ false = ground arith in
          cc (rw some_parameter at e)
      by_query (p ∷ v) (c ∷ raw) e =
          let some_parameter : (suc (length v) == 0) ≡ false = ground arith in
          let full : codes "/?" ++ (c ∷ raw) ≡ codes "/?" ++ u.encode (p ∷ v) =
            rw some_parameter at e in
          let same : c ∷ raw ≡ u.encode (p ∷ v) = cc in
          ap (λ q. get_all (u.decode q) name) same ∙ valid.reads_back (p ∷ v) name

-- No answer but the redirect has an address.
render_stays :
    (t : Option ℕ) (policy : Results → Text) (o : Outcome) → (render t policy o).location ≡ none
unfolding render
render_stays t policy (answered res) = refl
render_stays t policy unready = refl
render_stays t policy bad_page = refl
render_stays t policy index_failed = refl

module _ (uni : Unicode) (to_upper : Text → Text) (fl : Float64) (u : Url)
    (parse_time : Text → Option ℕ) where
  abbrev read : Server fl → Incoming → Filters
  read s r = filters_of uni to_upper fl u parse_time s r

  abbrev location_of : Option Reply → Option Text
  location_of none = none
  location_of (some reply) = reply.location

  by_times :
      (t asked : Option ℕ) (policy : Text)
      → location_of (elim t as (λ _. Option Reply) [
        | none ↦ none
        | some x ↦ elim asked as (λ _. Option Reply) [
          | none ↦ none
          | some y ↦ if ltb y x then none else some (dated_reply policy (some x) 304)
        ]
      ])
        ≡ none
  by_times none asked policy = refl
  by_times (some x) none policy = refl
  by_times (some x) (some y) policy =
      by_if (λ o. location_of o ≡ none) (ltb y x) (λ _. refl) (λ _. refl)

  not_modified_stays :
      (s : Server fl) (r : Incoming)
      → location_of (not_modified uni to_upper fl u parse_time s r) ≡ none
  unfolding not_modified
  not_modified_stays s r =
      by_if (λ o. location_of o ≡ none)
        (not r.reads || (text_eq r.since [] || not (text_eq r.none_match []))) (λ _. refl)
        (λ _. by_times (last_modified s.started s.data_time) (parse_time r.since) _)

  stays :
      (v : Option Reply) (w : Reply)
      → location_of v ≡ none
      → w.location ≡ none
      → (elim v as (λ _. Reply) [ some reply ↦ reply | none ↦ w ]).location ≡ none
  stays none w h k = k
  stays (some reply) w h k = h

  -- What follows when the address is the canonical one.
  abbrev rest : Server fl → Incoming → ℤ → Reply
  rest s r n = elim (not_modified uni to_upper fl u parse_time s r) [
    | some reply ↦ reply
    | none ↦
        render (last_modified s.started s.data_time) (policy_for n)
          (s.find (options_of (read s r) n true))
  ]

  rest_stays : (s : Server fl) (r : Incoming) (n : ℤ) → (rest s r n).location ≡ none
  rest_stays s r n =
      stays (not_modified uni to_upper fl u parse_time s r)
        (render (last_modified s.started s.data_time) (policy_for n)
          (s.find (options_of (read s r) n true)))
        (not_modified_stays s r)
        (render_stays (last_modified s.started s.data_time) (policy_for n)
          (s.find (options_of (read s r) n true)))

  handle_index_here :
      (s : Server fl) (r : Incoming) (n : ℤ)
      → page_param (u.decode r.raw_query) ≡ some n
      → page_url u (read s r) n ≡ requested_form r
      → (handle_index uni to_upper fl u parse_time s r).location ≡ none
  unfolding handle_index
  handle_index_here s r n p e =
      rw (p, handle_index, e, text_eq_refl (requested_form r)) (rest_stays s r n)

  away :
      (url : ℤ → Text) (form to : Text) (kept : ℤ → Reply) (v : Option ℤ)
      → ((n : ℤ) → (kept n).location ≡ none)
      → (elim v as (λ _. Reply) [
        | none ↦ bare_reply 400 no_store
        | some n ↦
            if not (text_eq (url n) form)
            then record (bare_reply 302 brief_policy) { location = some (url n) }
            else kept n
      ]).location
        ≡ some to
      → (n : ℤ) × (v ≡ some n) × (url n ≡ to)
  away url form to kept none h e = cc
  away url form to kept (some n) h e = elim (Bool-cases (text_eq (url n) form)) [
    | inl same ↦ let k = h n in let e' = rw same at e in cc
    | inr other ↦ let e' : some (url n) ≡ some to = rw other at e in (n, refl, cc)
  ]

  handle_index_away :
      (s : Server fl) (r : Incoming) (to : Text)
      → (handle_index uni to_upper fl u parse_time s r).location ≡ some to
      → (n : ℤ) × (page_param (u.decode r.raw_query) ≡ some n) × (page_url u (read s r) n ≡ to)
  unfolding handle_index
  handle_index_away s r to h =
      away (page_url u (read s r)) (requested_form r) to (rest s r)
        (page_param (u.decode r.raw_query)) (rest_stays s r) h

  -- When a request is redirected, the request for the address that it is sent to reads the same
  -- page, has filters that write the same parameters, and is not redirected, though the data and the
  -- rates may have changed in between, as long as no currency has gone from the rates. A query must
  -- read back as it was written, lower case keep small letters, digits and hyphens, upper case keep
  -- the empty text, and the currencies that have a rate at first be their own upper case without
  -- spaces around.
  module _ (valid : IsUrl u) (lower : (t : Text) → all slug_byte t ≡ true → uni.to_lower t ≡ t)
      (no_upper : to_upper [] ≡ []) where
    -- When HandleIndex redirects a request, the request for the address that it names reads the
    -- same page, has filters that write the same parameters, and is not redirected again, though
    -- the data and the rates may have changed in between, as long as no currency has gone from the
    -- rates. A query must read back as it was written, lower case keep small letters, digits and
    -- hyphens, upper case keep the empty text, and the currencies that have a rate at first be
    -- their own upper case without spaces around.
    pub handle_index-settles :
        (s later : Server fl) (r next : Incoming)
        → ((c : Text) → lookup c s.rates.per_eur ≢ none → to_upper (trim_space c) ≡ c)
        → ((c : Text) → lookup c s.rates.per_eur ≢ none → lookup c later.rates.per_eur ≢ none)
        → next.path ≡ codes "/"
        → (handle_index uni to_upper fl u parse_time s r).location ≡ some (requested_form next)
        → (n : ℤ) × (page_param (u.decode r.raw_query) ≡ some n)
          × (page_param (u.decode next.raw_query) ≡ some n)
          × (page_values (read later next) n ≡ page_values (read s r) n)
          × ((handle_index uni to_upper fl u parse_time later next).location ≡ none)
    unfolding page_url
    handle_index-settles s later r next upper kept at_front sent =
        let (n, p, e) = handle_index_away s r (requested_form next) sent in
        let f = read s r in
        let q = u.decode next.raw_query in
        let same : (name : Text) → get_all q name ≡ get_all (page_values f n) name =
          λ name. query_behind u valid (page_values f n) next name at_front (sym e) in
        let ok =
          settled uni to_upper fl s.rates later.rates no_upper upper kept (u.decode r.raw_query) in
        let told_page =
          told uni to_upper fl later.rates lower f n q ok same (codes "page") _
            (written_page f n) in
        let again = page_param_again q (u.decode r.raw_query) n p told_page in
        let values_again : page_values (read later next) n ≡ page_values f n =
          ap (λ g. page_values g n) (parse_again uni to_upper fl later.rates lower f n q ok same)
          ∙ page_values_again f n in
        (
          n,
          p,
          again,
          values_again,
          handle_index_here later next n again (ap (front u) values_again ∙ e),
        )
