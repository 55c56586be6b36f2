-- ===== src/Fetcher/Pace.antt =====
-- The rate limiter that all requests of a crawl share: rateLimiter of internal/fetcher/fetcher.go.
-- Times and durations are nanoseconds; the zero time is 0.
pub mod Spaced
pub mod Held
use itchgrep.Base.{
  ℕ, ◌+◌, ◌-◌, ◌/◌, ◌%◌, ◌^◌, ◌≤◌, ◌≡◌, Bool, Option, none, some, List, [], ◌∷◌, ◌++◌, ltb, leb,
  ◌==◌, if◌then◌else◌,
}
use itchgrep.Base.Int.{ℤ, pos, negsuc, ltb_ℤ, pos_part}
use itchgrep.Base.Text.{Text, text_eq}
use itchgrep.Base.Text.Number.{parse_int}

abbrev pub second : ℕ
second = 1000000000

abbrev pub default_scrape_rps : ℕ
default_scrape_rps = 2

abbrev pub max_scrape_rps : ℕ
max_scrape_rps = 1000

pub record RateLimiter : Type 0 where
  pub interval : ℕ
  pub next : ℕ
  pub epoch : ℕ
  pub paused_until : ℕ

unfoldable pub new_rate_limiter : ℕ → RateLimiter
new_rate_limiter rps = record { interval = second / rps; next = 0; epoch = 0; paused_until = 0 }

-- A rate that is asked for, if it is positive.
unfoldable pub wanted_rps : Option ℤ → ℕ
wanted_rps none = default_scrape_rps
wanted_rps (some n) = if ltb_ℤ (pos 0) n then pos_part n else default_scrape_rps

-- SCRAPE_RPS, as it is read from the environment; strconv.Atoi is ParseInt here.
unfoldable pub scrape_rps : Text → ℕ
unfolding parse_int wanted_rps
scrape_rps v =
    let rps = wanted_rps (if text_eq v [] then none else parse_int v) in
    if ltb max_scrape_rps rps then max_scrape_rps else rps

-- time.Add
abbrev pub later : ℕ → ℤ → ℕ
later t (pos n) = t + n
later t (negsuc n) = t - (n + 1)

-- The first section of acquire under the mutex: the slot that is reserved.
unfoldable pub reserve : ℕ → RateLimiter → ℕ × RateLimiter
reserve now l =
    let start = if ltb l.next now then now else l.next in
    (start, record l { next = start + l.interval })

-- One round of the loop of acquire: the epoch of the request, or `none` to wait on.
unfoldable pub admitted : ℕ → RateLimiter → Option ℕ
admitted now l = if leb l.paused_until now then some l.epoch else none

unfoldable pub pause : ℕ → ℕ → ℤ → RateLimiter → RateLimiter
pause now epoch wait l =
    let resume = later now wait in
    let held : RateLimiter = record l { epoch = (l.epoch + 1) % 2 ^ 64; paused_until = resume } in
    let after : RateLimiter =
      if ltb l.paused_until resume
      then (if ltb l.next resume then record held { next = resume } else held)
      else record l { epoch = (l.epoch + 1) % 2 ^ 64 } in
    if epoch == l.epoch then after else l

-- A return of acquire: its slot, and when.
pub record Issued : Type 0 where
  pub slot : ℕ
  pub at : ℕ

-- The limiter under its workers: the slots that they wait for, and all slots and returns of acquire
-- so far, latest first. What a worker does behind its return, the request, is no part of it.
pub record Fleet : Type 0 where
  pub now : ℕ
  pub limiter : RateLimiter
  pub waiting : List ℕ
  pub slots : List ℕ
  pub issued : List Issued

abbrev pub idle : RateLimiter → ℕ → Fleet
idle l now = record { now = now; limiter = l; waiting = []; slots = []; issued = [] }

unfoldable pub take_slot : Fleet → Fleet
unfolding reserve
take_slot f =
    let (start, l) = reserve f.now f.limiter in
    record f { limiter = l; waiting = start ∷ f.waiting; slots = start ∷ f.slots }

unfoldable pub issue : ℕ → List ℕ → Fleet → Fleet
issue slot rest f = record f {
  waiting = rest;
  issued = (record { slot = slot; at = f.now }) ∷ f.issued;
}

-- What happens, in any order: time passes, a worker asks, a worker whose slot has come finds no
-- pause and returns from acquire, and a refusal is reported under an epoch.
pub data Event : Fleet → Fleet → Type 0 where
  wait : (f : Fleet) (t : ℕ) → f.now ≤ t → Event f (record f { now = t })
  ask : (f : Fleet) → Event f (take_slot f)
  let_through :
      (f : Fleet) (before : List ℕ) (slot : ℕ) (behind : List ℕ) (epoch : ℕ)
      → f.waiting ≡ before ++ (slot ∷ behind)
      → slot ≤ f.now
      → admitted f.now f.limiter ≡ some epoch
      → Event f (issue slot (before ++ behind) f)
  refuse :
      (f : Fleet) (epoch : ℕ) (d : ℤ)
      → Event f (record f { limiter = pause f.now epoch d f.limiter })

pub data Events (f : Fleet) : Fleet → Type 0 where
  start : Events f f
  next : {g h : Fleet} → Events f g → Event g h → Events f h

-- How many refusals are reported in the course of some events.
unfoldable pub refusal : {f g : Fleet} → Event f g → ℕ
refusal (wait f t le) = 0
refusal (ask f) = 0
refusal (let_through f before slot behind epoch q le ok) = 0
refusal (refuse f epoch d) = 1

unfoldable pub refusals : {f g : Fleet} → Events f g → ℕ
unfolding refusal
refusals start = 0
refusals (next ms m) = refusals ms + refusal m
