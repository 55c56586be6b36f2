-- ===== src/Fetcher/Pace/Spaced.antt =====
-- How many requests all workers together let_through.
use itchgrep.Base.{
  ℕ, ◌+◌, ◌-◌, ◌*◌, ◌/◌, ◌≤◌, ◌≡◌, refl, ap, none, some, List, [], ◌∷◌, ◌++◌, arith, All,
  All-weaken, Bool-cases, inl, inr, length, leb, ltb, if◌then◌else◌, Option,
}
use native.Mathlib.Nat.{mul-le-mul_left, le_trans}
use itchgrep.Base.Int.{ℤ, pos, negsuc}
use itchgrep.Base.Text.{Text, text_eq}
use itchgrep.Base.Text.Number.{parse_int}
use itchgrep.Fetcher.Pace.{
  pause, Fleet, Issued, idle, take_slot, issue, Event, wait, ask, let_through, refuse, Events,
  start, next, wanted_rps, scrape_rps, new_rate_limiter, second, max_scrape_rps,
}

-- How many slots are due by a time.
due : ℕ → List ℕ → ℕ
due t [] = 0
due t (s ∷ ss) = (if leb s t then 1 else 0) + due t ss

due_issued : ℕ → List Issued → ℕ
due_issued t [] = 0
due_issued t (i ∷ is) = (if leb i.slot t then 1 else 0) + due_issued t is

due-append : (t : ℕ) (xs ys : List ℕ) → due t (xs ++ ys) ≡ due t xs + due t ys
unfolding due
due-append t [] ys = omega arith
due-append t (x ∷ xs) ys = omega (arith, due-append t xs ys)

due-le : (t : ℕ) (ss : List ℕ) → due t ss ≤ length ss
unfolding due
due-le t [] = omega arith
due-le t (s ∷ ss) = ground (arith, due-le t ss)

due_issued_all : (t : ℕ) (is : List Issued) → All (λ i. i.slot ≤ t) is → due_issued t is ≡ length is
unfolding due_issued
due_issued_all t [] h = refl
due_issued_all t (i ∷ is) h = ground (arith, due_issued_all t is h.1)

module _ (from interval : ℕ) where
  -- From when on the next slot may lie.
  abbrev free_from : List ℕ → ℕ
  free_from [] = from
  free_from (s ∷ ss) = s + interval

  -- Each slot lies an interval or more after the one before it, and none before `from`.
  abbrev Spaced : List ℕ → Type 0
  Spaced [] = Unit
  Spaced (s ∷ ss) = (free_from ss ≤ s) × Spaced ss

  slots_before : (s : ℕ) (ss : List ℕ) → Spaced (s ∷ ss) → from + interval * length ss ≤ s
  slots_before s [] h = let a : from ≤ s = h.0 in grind arith
  slots_before s (r ∷ ss) h =
      let a : r + interval ≤ s = h.0 in
      let b : from + interval * length ss ≤ r = slots_before r ss h.1 in grind arith

  -- The slots by a time fit into the time since `from`.
  due-Spaced :
      (t : ℕ) (ss : List ℕ) → Spaced ss → from ≤ t → interval * due t ss ≤ t - from + interval
  unfolding due
  due-Spaced t [] h k = omega arith
  due-Spaced t (s ∷ ss) h k = elim (Bool-cases (leb s t)) [
    | inl e ↦
        let a : from + interval * length ss ≤ s = slots_before s ss h in
        let b : s ≤ t = ground arith in
        let c : interval * due t ss ≤ interval * length ss = grind (arith, due-le t ss) in
        let d : interval * (1 + due t ss) ≡ interval + interval * due t ss = grind arith in
        rw (e, d) (omega arith)
    | inr e ↦ let d : 0 + due t ss ≡ due t ss = omega arith in rw (e, d) (due-Spaced t ss h.1 k)
  ]

  record Paced (f : Fleet) : Type 0 where
    steady : f.limiter.interval ≡ interval
    spaced : Spaced f.slots
    ahead : free_from f.slots ≤ (if ltb f.limiter.next f.now then f.now else f.limiter.next)
    balanced : (t : ℕ) → due t f.slots ≡ due_issued t f.issued + due t f.waiting
    sent : All (λ i. i.slot ≤ f.now) f.issued
    begun : from ≤ f.now

  Event-Paced : {f g : Fleet} → Event f g → Paced f → Paced g
  unfolding take_slot issue pause due due_issued
  Event-Paced (wait f t le) p = record {
    steady = p.steady;
    spaced = p.spaced;
    ahead = let a = p.ahead in ground arith;
    balanced = p.balanced;
    sent = All-weaken (λ i. i.slot ≤ f.now) (λ i. i.slot ≤ t) (λ i h. omega arith) f.issued p.sent;
    begun = let b = p.begun in omega arith;
  }
  Event-Paced (ask f) p = record {
    steady = p.steady;
    spaced = (p.ahead, p.spaced);
    ahead = let s = p.steady in ground arith;
    balanced = λ t. omega (arith, p.balanced t);
    sent = p.sent;
    begun = p.begun;
  }
  Event-Paced (let_through f before slot behind epoch q le ok) p = record {
    steady = p.steady;
    spaced = p.spaced;
    ahead = p.ahead;
    balanced = λ t. omega (
      arith,
      p.balanced t,
      ap (due t) q,
      due-append t before (slot ∷ behind),
      due-append t before behind,
    );
    sent = (le, p.sent);
    begun = p.begun;
  }
  Event-Paced (refuse f epoch d) p = record {
    steady = let s = p.steady in ground arith;
    spaced = p.spaced;
    ahead = let a = p.ahead in ground arith;
    balanced = p.balanced;
    sent = p.sent;
    begun = p.begun;
  }

  Events-Paced : {f g : Fleet} → Events f g → Paced f → Paced g
  Events-Paced start p = p
  Events-Paced (next ms m) p = Event-Paced m (Events-Paced ms p)

wanted_rps_pos : (asked : Option ℤ) → 1 ≤ wanted_rps asked
unfolding wanted_rps
wanted_rps_pos none = omega arith
wanted_rps_pos (some (pos n)) = ground arith
wanted_rps_pos (some (negsuc n)) = ground arith

scrape_rps_bounds : (v : Text) → (1 ≤ scrape_rps v) × (scrape_rps v ≤ max_scrape_rps)
unfolding scrape_rps
scrape_rps_bounds v = ground (arith, wanted_rps_pos (if text_eq v [] then none else parse_int v))

interval_bound : (rps : ℕ) → 1 ≤ rps → rps ≤ 1000 → 1000000 ≤ 1000000000 / rps
interval_bound rps lo hi = grind (arith)

-- Whatever SCRAPE_RPS holds, and whatever the workers, the refusals and the clock do from an idle
-- limiter on, the returns of acquire, one for each request, times the interval are at most the
-- time since then and one interval more, and the interval is a millisecond or more.
pub issued_bound :
    (v : Text) (t : ℕ) (f : Fleet)
    → Events (idle (new_rate_limiter (scrape_rps v)) t) f
    → (1000000 ≤ second / scrape_rps v)
      × ((second / scrape_rps v) * length f.issued ≤ f.now - t + second / scrape_rps v)
unfolding due due_issued new_rate_limiter
issued_bound v t f ms =
    let (lo, hi) = scrape_rps_bounds v in
    let i = second / scrape_rps v in
    let p = Events-Paced t i ms (record {
      steady = refl;
      spaced = tt;
      ahead = ground arith;
      balanced = λ t'. omega arith;
      sent = tt;
      begun = omega arith;
    }) in
    let fewer : length f.issued ≤ due f.now f.slots =
      omega (arith, due_issued_all f.now f.issued p.sent, p.balanced f.now) in
    (
      interval_bound (scrape_rps v) lo hi,
      le_trans (mul-le-mul_left i fewer) (due-Spaced t i f.now f.slots p.spaced p.begun),
    )
