-- ===== src/Fetcher/Fetch/Retried.antt =====
-- How a fetch ends: FetchAssetPage of internal/fetcher/fetcher.go.
use mathlib.Core.Path.{subst}
use itchgrep.Base.{
  ℕ, zero, suc, ◌+◌, ◌<◌, ◌≡◌, refl, sym, ap, ◌∙◌, ◌⊎◌, inl, inr, Bool, true, false, not, Option,
  none, some, List, [], ◌∷◌, arith, by_if, ==_iff, ◌==◌, if◌then◌else◌,
}
use itchgrep.Fetcher.Fetch.{
  max_fetch_attempts, Sent, broken, answered, Act, acquire, request, sleep, pause_all, FetchOutcome,
  fetched, exhausted, failed, Delays, refusal_wait, nap, on_answer, fetch_from, fetch_asset_page,
}

-- How many requests a fetch makes.
unfoldable pub requests : List Act → ℕ
requests [] = 0
requests (acquire ∷ acts) = requests acts
requests (request ∷ acts) = suc (requests acts)
requests (sleep d ∷ acts) = requests acts
requests (pause_all d ∷ acts) = requests acts

requests-nap :
    (w : Delays) (attempt : ℕ) (acts : List Act) → requests (nap w attempt acts) ≡ requests acts
unfolding nap requests
requests-nap w attempt acts = ground arith

-- An answer after which the fetch is tried again.
abbrev pub IsRetried : {B : Type 0} → Sent B → Type 0
IsRetried broken = Unit
IsRetried (answered r) = r.status ≡ 429

-- The outcome that an answer stands for when it is not tried again.
abbrev pub verdict : {B A : Type 0} → (B → Option A) → Sent B → FetchOutcome A
verdict decode broken = failed
verdict decode (answered r) =
    if r.status == 404
    then exhausted
    else if r.status == 200
    then elim (decode r.body) [ none ↦ failed | some page ↦ fetched page ]
    else failed

-- What an answer comes to that is not tried again.
abbrev pub settled : {A : Type 0} → Bool → Bool → Option A → FetchOutcome A × List Act
settled gone good o =
    if gone
    then (exhausted, acquire ∷ request ∷ [])
    else if not good
    then (failed, acquire ∷ request ∷ [])
    else elim o [
      | none ↦ (failed, acquire ∷ request ∷ [])
      | some page ↦ (fetched page, acquire ∷ request ∷ [])
    ]

module _ {B A : Type 0} (w : Delays) (decode : B → Option A) (site : ℕ → Sent B) where
  -- The fetch ends at attempt `k`, the first whose answer is not tried again, or runs out of
  -- attempts.
  abbrev pub Ends : ℕ → ℕ → FetchOutcome A × List Act → Type 0
  Ends left attempt r =
      ((k : ℕ) × (k < left)
        × ((i : ℕ) → i < k → IsRetried (site (attempt + i)))
        × (¬ IsRetried (site (attempt + k)))
        × (r.0 ≡ verdict decode (site (attempt + k)))
        × (requests r.1 ≡ suc k))
      ⊎ (((i : ℕ) → i < left → IsRetried (site (attempt + i)))
          × (r.0 ≡ failed)
          × (requests r.1 ≡ left))

  at_first : (n : ℕ) → n + 0 ≡ n
  at_first n = omega arith

  at_later : (n i : ℕ) → n + suc i ≡ n + 1 + i
  at_later n i = omega arith

  shift :
      (P : ℕ → Type 0) (n attempt : ℕ)
      → P attempt
      → ((i : ℕ) → i < n → P (attempt + 1 + i))
      → (i : ℕ) → i < suc n
      → P (attempt + i)
  shift P n attempt h k zero lt = subst P (sym (at_first attempt)) h
  shift P n attempt h k (suc i) lt = subst P (sym (at_later attempt i)) (k i (omega arith))

  -- One more attempt that is tried again, in front.
  again :
      (left attempt : ℕ) (r r' : FetchOutcome A × List Act)
      → IsRetried (site attempt)
      → r'.0 ≡ r.0
      → requests r'.1 ≡ suc (requests r.1)
      → Ends left (attempt + 1) r
      → Ends (suc left) attempt r'
  again left attempt r r' h e n (inl (k, lt, before, stop, out, count)) = inl (
    suc k,
    omega arith,
    shift (λ i. IsRetried (site i)) k attempt h before,
    subst (λ i. ¬ IsRetried (site i)) (sym (at_later attempt k)) stop,
    subst (λ i. r'.0 ≡ verdict decode (site i)) (sym (at_later attempt k)) (e ∙ out),
    omega arith,
  )
  again left attempt r r' h e n (inr (before, out, count)) =
      inr (shift (λ i. IsRetried (site i)) left attempt h before, e ∙ out, omega arith)

  -- The first attempt decides.
  here :
      (left attempt : ℕ) (r : FetchOutcome A × List Act)
      → ¬ IsRetried (site attempt)
      → r.0 ≡ verdict decode (site attempt)
      → requests r.1 ≡ 1
      → Ends (suc left) attempt r
  here left attempt r h e n = inl (
    0,
    omega arith,
    λ i lt. absurd (omega arith),
    subst (λ i. ¬ IsRetried (site i)) (sym (at_first attempt)) h,
    subst (λ i. r.0 ≡ verdict decode (site i)) (sym (at_first attempt)) e,
    n,
  )

  settled_lem :
      (gone good : Bool) (o : Option A)
      → ((settled gone good o).0 ≡ (
          if gone
          then exhausted
          else if good
          then elim o [ none ↦ failed | some page ↦ fetched page ]
          else failed))
        × (requests (settled gone good o).1 ≡ 1)
  unfolding requests
  settled_lem true good o = (refl, refl)
  settled_lem false true none = (refl, refl)
  settled_lem false true (some page) = (refl, refl)
  settled_lem false false o = (refl, refl)

  on_answer-Ends :
      (left attempt : ℕ) (s : Sent B) (rest : FetchOutcome A × List Act)
      → site attempt ≡ s
      → Ends left (attempt + 1) rest
      → Ends (suc left) attempt (on_answer w decode s attempt rest)
  unfolding on_answer requests
  on_answer-Ends left attempt broken rest q h =
      again left attempt rest (on_answer w decode broken attempt rest) (rw q tt) refl
        (ap suc (requests-nap w attempt rest.1)) h
  on_answer-Ends left attempt (answered r) rest q h =
      by_if (λ x. Ends (suc left) attempt x) (r.status == 429)
        (λ e.
          again left attempt rest
            (rest.0, acquire ∷ request ∷ pause_all (refusal_wait w r.retry_after attempt) ∷ rest.1)
            (rw q ((==_iff r.status 429).0 e)) refl refl h)
        (λ e.
          let gone = r.status == 404 in
          let good = r.status == 200 in
          let (out, count) = settled_lem gone good (decode r.body) in
          here left attempt (settled gone good (decode r.body)) (rw q (λ k. ground arith))
            (rw q out) count)

  fetch_from-Ends : (left attempt : ℕ) → Ends left attempt (fetch_from w decode site left attempt)
  unfolding fetch_from requests
  fetch_from-Ends zero attempt = inr (λ i h. absurd (omega arith), refl, refl)
  fetch_from-Ends (suc left) attempt =
      on_answer-Ends left attempt (site attempt) (fetch_from w decode site left (attempt + 1)) refl
        (fetch_from-Ends left (attempt + 1))

-- A fetch of a page ends by the first of its 21 attempts that is answered by anything but a
-- refusal, with that attempt as its last request and with what that answer stands for: past the
-- last page on a 404, the page on a 200 that decodes, and a failure otherwise. Where every attempt
-- breaks or is refused, it makes 21 requests and fails.
pub fetch_asset_page-Ends :
    {B A : Type 0} (w : Delays) (decode : B → Option A) (site : ℕ → Sent B)
    → ((k : ℕ) × (k < max_fetch_attempts)
        × ((i : ℕ) → i < k → IsRetried (site i))
        × (¬ IsRetried (site k))
        × ((fetch_asset_page w decode site).0 ≡ verdict decode (site k))
        × (requests (fetch_asset_page w decode site).1 ≡ suc k))
      ⊎ (((i : ℕ) → i < max_fetch_attempts → IsRetried (site i))
          × ((fetch_asset_page w decode site).0 ≡ failed)
          × (requests (fetch_asset_page w decode site).1 ≡ max_fetch_attempts))
unfolding fetch_asset_page
fetch_asset_page-Ends w decode site =
    let at_zero : (i : ℕ) → 0 + i ≡ i = λ i. omega arith in
    elim (fetch_from-Ends w decode site max_fetch_attempts 0) [
      | inl (k, lt, before, stop, out, count) ↦ inl (
        k,
        lt,
        λ i h. subst (λ j. IsRetried (site j)) (at_zero i) (before i h),
        subst (λ j. ¬ IsRetried (site j)) (at_zero k) stop,
        out ∙ ap (λ j. verdict decode (site j)) (at_zero k),
        count,
      )
      | inr (before, out, count) ↦
          inr (λ i h. subst (λ j. IsRetried (site j)) (at_zero i) (before i h), out, count)
    ]
