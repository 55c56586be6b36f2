-- ===== src/Fetcher/Fetch/Waits.antt =====
-- How long a fetch waits: calculateBackoff, parseRetryAfter and the loop of FetchAssetPage, of
-- internal/fetcher/fetcher.go.
use itchgrep.Base.{
  ℕ, zero, suc, ◌+◌, ◌-◌, ◌*◌, ◌^◌, ◌≤◌, ◌<◌, ◌≡◌, ◌≢◌, refl, Bool, true, false, Option, none, some,
  List, [], ◌∷◌, arith, All, Bool-cases, Option-cases, inl, inr, by_if, ltb, ◌==◌, if◌then◌else◌,
}
use itchgrep.Base.Int.{ℤ, pos, negsuc, pos_part, ltb_ℤ, wrap64_fits}
use itchgrep.Base.Text.{Text, text_eq, text_eq_iff}
use itchgrep.Base.Text.Number.{parse_int}
use itchgrep.Base.Text.Space.{trim_space}
use itchgrep.Fetcher.Pace.{second}
use itchgrep.Fetcher.Fetch.Retried.{settled}
use itchgrep.Fetcher.Fetch.{
  max_fetch_attempts, max_backoff, seconds_of, clamp_wait, retry_wait, parse_retry_after,
  calculate_backoff, Sent, broken, answered, Act, acquire, request, sleep, pause_all, FetchOutcome,
  Delays, refusal_wait, nap, on_answer, fetch_from, fetch_asset_page,
}

-- How long a worker sleeps in all, outside the limiter.
unfoldable pub slept : List Act → ℕ
slept [] = 0
slept (acquire ∷ acts) = slept acts
slept (request ∷ acts) = slept acts
slept (sleep d ∷ acts) = pos_part d + slept acts
slept (pause_all d ∷ acts) = slept acts

-- A pause of all workers is at most two minutes.
abbrev pub IsShort : Act → Type 0
IsShort acquire = Unit
IsShort request = Unit
IsShort (sleep d) = Unit
IsShort (pause_all d) = pos_part d ≤ 120 * second

calculate_backoff_bound :
    (delayed : ℕ → ℤ) (n : ℕ) → pos_part (calculate_backoff delayed n) ≤ 60 * second
unfolding calculate_backoff
calculate_backoff_bound delayed n = backoff (delayed n)
  where
    backoff : (d : ℤ) → pos_part (if ltb_ℤ max_backoff d then max_backoff else d) ≤ 60 * second
    backoff (pos n) = ground arith
    backoff (negsuc n) = ground arith

clamp_wait_bounds :
    (d r : ℤ) → clamp_wait d ≡ some r → (0 < pos_part r) × (pos_part r ≤ 120 * second)
unfolding clamp_wait
clamp_wait_bounds (pos n) r h = ground arith
clamp_wait_bounds (negsuc n) r h = ground arith

retry_wait_bounds :
    (secs dated : Option ℤ) (r : ℤ)
    → retry_wait secs dated ≡ some r
    → (0 < pos_part r) × (pos_part r ≤ 120 * second)
unfolding retry_wait
retry_wait_bounds (some s) dated r h = clamp_wait_bounds (seconds_of s) r h
retry_wait_bounds none none r h = cc
retry_wait_bounds none (some d) r h = clamp_wait_bounds d r h

parse_retry_after_bounds :
    (until : Text → Option ℤ) (value : Text) (r : ℤ)
    → parse_retry_after until value ≡ some r
    → (0 < pos_part r) × (pos_part r ≤ 120 * second)
unfolding parse_retry_after
parse_retry_after_bounds until value r h = elim (Bool-cases (text_eq value [])) [
  | inl e ↦ cc (rw e at h)
  | inr e ↦ retry_wait_bounds (parse_int (trim_space value)) (until value) r (rw e at h)
]

refusal_wait_bound :
    (w : Delays) (header : Text) (n : ℕ) → pos_part (refusal_wait w header n) ≤ 120 * second
unfolding refusal_wait
refusal_wait_bound w header n = elim (Option-cases (parse_retry_after w.until header)) [
  | inl e ↦ rw (e, refusal_wait) (omega (arith, calculate_backoff_bound w.delayed n))
  | inr (d, e) ↦ rw (e, refusal_wait) (parse_retry_after_bounds w.until header d e).1
]

-- How often a worker waits in the limiter.
unfoldable pub acquires : List Act → ℕ
acquires [] = 0
acquires (acquire ∷ acts) = suc (acquires acts)
acquires (request ∷ acts) = acquires acts
acquires (sleep d ∷ acts) = acquires acts
acquires (pause_all d ∷ acts) = acquires acts

record Waits (rounds most : ℕ) (acts : List Act) : Type 0 where
  acquired : acquires acts ≤ rounds
  slept_le : slept acts ≤ most
  short : All IsShort acts

nap-Waits :
    (w : Delays) (left attempt : ℕ) (acts : List Act)
    → attempt + suc left ≡ max_fetch_attempts
    → Waits left (60 * second * (left - 1)) acts
    → Waits left (60 * second * left) (nap w attempt acts)
unfolding nap slept acquires
nap-Waits w left attempt acts q h =
    by_if (Waits left (60 * second * left)) (ltb attempt (max_fetch_attempts - 1))
      (λ e. record {
        acquired = h.acquired;
        slept_le =
            let a = h.slept_le in
            let b : 1 ≤ left = ground arith in
            omega (arith, calculate_backoff_bound w.delayed attempt);
        short = (tt, h.short);
      })
      (λ e.
        let a = h.slept_le in
        record { acquired = h.acquired; slept_le = omega arith; short = h.short })

module _ {B A : Type 0} (w : Delays) (decode : B → Option A) where
  once : (rounds most : ℕ) → Waits (suc rounds) most (acquire ∷ request ∷ [])
  unfolding slept acquires
  once rounds most = record {
    acquired = omega arith;
    slept_le = omega arith;
    short = (tt, (tt, tt));
  }

  settled-Waits :
      (gone good : Bool) (o : Option A) (rounds most : ℕ)
      → Waits (suc rounds) most (settled gone good o).1
  settled-Waits true good o rounds most = once rounds most
  settled-Waits false true none rounds most = once rounds most
  settled-Waits false true (some page) rounds most = once rounds most
  settled-Waits false false o rounds most = once rounds most

  on_answer-Waits :
      (left attempt : ℕ) (s : Sent B) (rest : FetchOutcome A × List Act)
      → attempt + suc left ≡ max_fetch_attempts
      → Waits left (60 * second * (left - 1)) rest.1
      → Waits (suc left) (60 * second * left) (on_answer w decode s attempt rest).1
  unfolding on_answer slept acquires
  on_answer-Waits left attempt broken rest q h =
      let n = nap-Waits w left attempt rest.1 q h in
      let a = n.acquired in
      record { acquired = omega arith; slept_le = n.slept_le; short = (tt, (tt, n.short)) }
  on_answer-Waits left attempt (answered r) rest q h =
      by_if {A = FetchOutcome A × List Act} (λ x. Waits (suc left) (60 * second * left) x.1)
        (r.status == 429)
        (λ e.
          let a = h.slept_le in
          let b = h.acquired in
          record {
            acquired = omega arith;
            slept_le = omega arith;
            short = (tt, (tt, (refusal_wait_bound w r.retry_after attempt, h.short)));
          })
        (λ e.
          settled-Waits (r.status == 404) (r.status == 200) (decode r.body) left
            (60 * second * left))

  fetch_from-Waits :
      (site : ℕ → Sent B) (left attempt : ℕ)
      → attempt + left ≡ max_fetch_attempts
      → Waits left (60 * second * (left - 1)) (fetch_from w decode site left attempt).1
  unfolding fetch_from slept acquires
  fetch_from-Waits site zero attempt q = record {
    acquired = omega arith;
    slept_le = omega arith;
    short = tt;
  }
  fetch_from-Waits site (suc left) attempt q =
      let e : suc left - 1 ≡ left = omega arith in
      rw e (
        on_answer-Waits left attempt (site attempt) (fetch_from w decode site left (attempt + 1)) q
          (fetch_from-Waits site left (attempt + 1) (omega arith)))

-- Whatever the site answers and its headers hold, a fetch of a page waits in the shared limiter at
-- most 21 times, sleeps at most twenty minutes in all besides these waits, and each pause of the
-- fleet that it asks for is at most two minutes.
pub fetch_asset_page_waits :
    {B A : Type 0} (w : Delays) (decode : B → Option A) (site : ℕ → Sent B)
    → (acquires (fetch_asset_page w decode site).1 ≤ max_fetch_attempts)
      × (slept (fetch_asset_page w decode site).1 ≤ 20 * 60 * second)
      × All IsShort (fetch_asset_page w decode site).1
unfolding fetch_asset_page
fetch_asset_page_waits w decode site =
    let h = fetch_from-Waits w decode site max_fetch_attempts 0 refl in
    (h.acquired, h.slept_le, h.short)

seconds_of_fits : (n : ℕ) → n * second < 2 ^ 63 → seconds_of (pos n) ≡ pos (n * second)
unfolding seconds_of
seconds_of_fits n h = wrap64_fits (n * second) h

at_most :
    (n : ℕ)
    → 0 < n
    → clamp_wait (pos (n * second)) ≡ some (pos ((if ltb 120 n then 120 else n) * second))
unfolding clamp_wait
at_most n h = ground arith

no_seconds : (v : Text) (n : ℕ) → v ≡ [] → parse_int (trim_space v) ≢ some (pos n)
unfolding parse_int trim_space
no_seconds v n e h = cc (rw e at h)

-- A header of a positive number of seconds, which as nanoseconds an int64 holds, is read as that
-- time and as at most two minutes.
pub parse_retry_after_seconds :
    (until : Text → Option ℤ) (value : Text) (n : ℕ)
    → parse_int (trim_space value) ≡ some (pos n)
    → 0 < n
    → n * second < 2 ^ 63
    → parse_retry_after until value ≡ some (pos ((if ltb 120 n then 120 else n) * second))
unfolding parse_retry_after retry_wait
parse_retry_after_seconds until value n h p fits = elim (Bool-cases (text_eq value [])) [
  | inl e ↦ absurd (no_seconds value n ((text_eq_iff value []).0 e) h)
  | inr e ↦ rw (e, h, seconds_of_fits n fits) (at_most n p)
]
