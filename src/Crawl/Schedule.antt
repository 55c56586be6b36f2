-- ===== src/Crawl/Schedule.antt =====
-- How long a failing crawl waits.
use itchgrep.Base.{ℕ, ◌+◌, ◌≤◌, ◌<◌, arith}
use itchgrep.Crawl.{backoff_delay}

-- With a positive interval, the delay after any number of failures is positive and at most the
-- interval and, from the first failure on, is not shorter after one failure more.
pub backoff_delay_bounds :
    (failures interval : ℕ)
    → 0 < interval
    → (backoff_delay failures interval ≤ interval)
      × (0 < backoff_delay failures interval)
      × (1 ≤ failures → backoff_delay failures interval ≤ backoff_delay (failures + 1) interval)
unfolding backoff_delay
backoff_delay_bounds failures interval h = (ground arith, ground arith, λ k. ground arith)
