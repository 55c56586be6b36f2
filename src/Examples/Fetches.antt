-- ===== src/Examples/Fetches.antt =====
-- The limiter and the retries on a site that refuses once.
use itchgrep.Base.{
  ℕ, zero, suc, ◌+◌, ◌-◌, ◌*◌, ◌/◌, ◌≤◌, ◌<◌, ◌≡◌, refl, ◌⊎◌, Option, none, some, List, [], ◌∷◌,
  ◌++◌, arith, All, length, ltb, if◌then◌else◌,
}
use itchgrep.Base.Int.{ℤ, pos}
use itchgrep.Base.Text.{Text, codes, text_eq}
use itchgrep.Base.Text.Number.{parse_int}
use itchgrep.Base.Text.Space.{trim_space}
use itchgrep.Fetcher.Pace.{
  RateLimiter, Fleet, Issued, idle, take_slot, issue, pause, later, Events, refusals, refusal,
  start, next, wait, ask, let_through, scrape_rps, new_rate_limiter, second, admitted,
}
use itchgrep.Fetcher.Pace.Spaced.{issued_bound}
use itchgrep.Fetcher.Pace.Held.{pause_holds}
use itchgrep.Fetcher.Fetch.{
  max_fetch_attempts, Sent, broken, answered, failed, Delays, fetch_asset_page, parse_retry_after,
  retry_wait, asset_count,
}
use itchgrep.Fetcher.Fetch.Retried.{requests, IsRetried, verdict, fetch_asset_page-Ends}
use itchgrep.Fetcher.Fetch.Waits.{
  acquires, slept, IsShort, fetch_asset_page_waits, parse_retry_after_seconds,
}

abbrev two_a_second : RateLimiter
two_a_second = record { interval = 500000000; next = 0; epoch = 0; paused_until = 0 }

-- One worker asks at 7 and sends at once.
abbrev asked : Fleet
asked = record {
  now = 7;
  limiter = record { interval = 500000000; next = 500000007; epoch = 0; paused_until = 0 };
  waiting = 7 ∷ [];
  slots = 7 ∷ [];
  issued = [];
}

abbrev sent : Fleet
sent = record asked { waiting = []; issued = (record { slot = 7; at = 7 }) ∷ [] }

sent-Events : Events (idle (new_rate_limiter (scrape_rps [])) 7) sent
unfolding scrape_rps new_rate_limiter take_slot issue admitted text_eq
sent-Events =
    next (next start (ask (idle two_a_second 7)))
      (let_through asked [] 7 [] 0 refl (omega arith) refl)

issued_bound_example :
    (1000000 ≤ second / scrape_rps [])
    × ((second / scrape_rps []) * length sent.issued ≤ sent.now - 7 + second / scrape_rps [])
issued_bound_example = issued_bound [] 7 sent sent-Events

-- The request is refused for two seconds, which pass, and another worker asks.
abbrev refused : Fleet
refused = record sent { limiter = pause 7 0 (pos (2 * second)) sent.limiter }

abbrev afterwards : Fleet
afterwards = take_slot (record refused { now = 2000000009 })

afterwards-Events : Events refused afterwards
afterwards-Events =
    next (next start (wait refused 2000000009 (omega arith)))
      (ask (record refused { now = 2000000009 }))

pause_holds_example :
    (news : List Issued) × (afterwards.issued ≡ news ++ sent.issued)
    × All (λ i. later 7 (pos (2 * second)) ≤ i.at) news
    × ((d' : ℤ) → pause afterwards.now 0 d' afterwards.limiter ≡ afterwards.limiter)
unfolding refusals refusal afterwards-Events
pause_holds_example =
    pause_holds sent afterwards (pos (2 * second)) afterwards-Events (omega arith) (omega arith)

abbrev delays : Delays
delays = record { until = λ _. none; delayed = λ n. pos ((n + 1) * second) }

-- The second attempt is refused, and the third answers.
abbrev site : ℕ → Sent Text
site zero = broken
site (suc zero) = answered (record { status = 429; retry_after = codes " 2 "; body = [] })
site (suc (suc n)) = answered (record { status = 200; retry_after = []; body = codes "page" })

abbrev decode : Text → Option Text
decode t = some t

fetch_asset_page-Ends_example :
    ((k : ℕ) × (k < max_fetch_attempts)
      × ((i : ℕ) → i < k → IsRetried (site i))
      × (¬ IsRetried (site k))
      × ((fetch_asset_page delays decode site).0 ≡ verdict decode (site k))
      × (requests (fetch_asset_page delays decode site).1 ≡ suc k))
    ⊎ (((i : ℕ) → i < max_fetch_attempts → IsRetried (site i))
        × ((fetch_asset_page delays decode site).0 ≡ failed)
        × (requests (fetch_asset_page delays decode site).1 ≡ max_fetch_attempts))
fetch_asset_page-Ends_example = fetch_asset_page-Ends delays decode site

fetch_asset_page_waits_example :
    (acquires (fetch_asset_page delays decode site).1 ≤ max_fetch_attempts)
    × (slept (fetch_asset_page delays decode site).1 ≤ 20 * 60 * second)
    × All IsShort (fetch_asset_page delays decode site).1
fetch_asset_page_waits_example = fetch_asset_page_waits delays decode site

two : parse_int (trim_space (codes " 2 ")) ≡ some (pos 2)
unfolding parse_int trim_space
two = refl

parse_retry_after_seconds_example :
    parse_retry_after (λ _. none) (codes " 2 ")
    ≡ some (pos ((if ltb 120 2 then 120 else 2) * second))
parse_retry_after_seconds_example =
    parse_retry_after_seconds (λ _. none) (codes " 2 ") 2 two (omega arith) (omega arith)

-- A header of more seconds than an int64 of nanoseconds holds: a third of a second, not two minutes.
wrapped : parse_retry_after (λ _. none) (codes "18446744074") ≡ some (pos 290448384)
unfolding parse_retry_after parse_int trim_space retry_wait text_eq
wrapped = refl

counted : asset_count (codes "(53,665 results)") ≡ some (pos 53665)
unfolding asset_count
counted = refl
