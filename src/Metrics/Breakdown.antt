-- ===== src/Metrics/Breakdown.antt =====
-- The breakdown by route is exhaustive: the named counters add up to the total.
use itchgrep.Base.{ℕ, ◌+◌, ◌%◌, ◌^◌, ◌≡◌, refl, Bool, ◌&&◌, List, [], ◌∷◌, arith, ◌==◌, by_if}
use itchgrep.Base.Text.{Text}
use itchgrep.Metrics.{
  snapshot, Tally, Route, bumped, classify, count_route, record_request, shows_results, status_ok,
}

-- The named counters, added as uint64s.
abbrev pub breakdown : Tally → ℕ
breakdown c =
    (c.index + c.results + c.about + c.stats + c.static + c.new + c.feed + c.tag + c.saved
      + c.other)
    % 2 ^ 64

-- A request as the tally sees it.
pub record Request : Type 0 where
  pub pattern : Text
  pub search : Bool
  pub status : ℕ
  pub now : ℕ

unfoldable pub record_all : List Request → Tally → Tally
unfolding record_request
record_all [] c = c
record_all (r ∷ rs) c = record_all rs (record_request r.pattern r.search r.status r.now c)

breakdown-count_route : (r : Route) (c : Tally) → breakdown (count_route r c) ≡ bumped (breakdown c)
unfolding count_route
breakdown-count_route Route.index c = omega arith
breakdown-count_route Route.results c = omega arith
breakdown-count_route Route.about c = omega arith
breakdown-count_route Route.stats c = omega arith
breakdown-count_route Route.static c = omega arith
breakdown-count_route Route.new c = omega arith
breakdown-count_route Route.feed c = omega arith
breakdown-count_route Route.tag c = omega arith
breakdown-count_route Route.saved c = omega arith
breakdown-count_route Route.other c = omega arith

total-count_route : (r : Route) (c : Tally) → (count_route r c).total ≡ c.total
unfolding count_route
total-count_route Route.index c = refl
total-count_route Route.results c = refl
total-count_route Route.about c = refl
total-count_route Route.stats c = refl
total-count_route Route.static c = refl
total-count_route Route.new c = refl
total-count_route Route.feed c = refl
total-count_route Route.tag c = refl
total-count_route Route.saved c = refl
total-count_route Route.other c = refl

abbrev Adds : Tally → Type 0
Adds c = breakdown c ≡ c.total

record_request-Adds :
    (p : Text) (search : Bool) (status now : ℕ) (c : Tally)
    → Adds c
    → Adds (record_request p search status now c)
unfolding record_request
record_request-Adds p search status now c h =
    let next : Tally = record c { total = bumped c.total } in
    let sum : Adds (count_route (classify p) next) =
      rw (breakdown-count_route (classify p) next, total-count_route (classify p) next, h) in
    by_if Adds (search && (status == status_ok && shows_results (classify p))) (λ _. sum) (λ _. sum)

-- If the named counters of the tally add up to its total, as uint64s, they still do after any
-- sequence of requests.
pub record_all-breakdown :
    (rs : List Request) (c : Tally)
    → breakdown c ≡ c.total
    → breakdown (record_all rs c) ≡ (record_all rs c).total
unfolding record_all
record_all-breakdown [] c h = h
record_all-breakdown (r ∷ rs) c h =
    record_all-breakdown rs (record_request r.pattern r.search r.status r.now c)
      (record_request-Adds r.pattern r.search r.status r.now c h)

-- If the named counters of the restored totals and of the tally at the start add up to their
-- totals, as uint64s, so do those of the snapshot after any sequence of requests.
pub snapshot-breakdown :
    (base c : Tally) (rs : List Request)
    → breakdown base ≡ base.total
    → breakdown c ≡ c.total
    → breakdown (snapshot base (record_all rs c)) ≡ (snapshot base (record_all rs c)).total
unfolding snapshot
snapshot-breakdown base c rs h k = let live = record_all-breakdown rs c k in omega (arith, h, live)
