-- ===== src/Metrics.antt =====
-- The tally of requests and the ring of search days: internal/metrics/metrics.go.
pub mod Ring
pub mod Breakdown
use itchgrep.Base.{
  ℕ, zero, suc, ◌+◌, ◌*◌, ◌/◌, ◌%◌, ◌^◌, Bool, true, false, not, ◌&&◌, ◌||◌, List, [], ◌∷◌, ltb,
  ◌==◌, get_elem?, set, Option, none, some, if◌then◌else◌,
}
use itchgrep.Base.Text.{Text, codes, text_eq}

abbrev pub days_kept : ℕ
days_kept = 90

abbrev pub seconds_per_day : ℕ
seconds_per_day = 24 * 60 * 60

abbrev pub status_ok : ℕ
status_ok = 200

-- The clock is after 1970, so its Unix seconds and days are not negative.
pub record DayBucket : Type 0 where
  pub epoch_day : ℕ
  pub searches : ℕ

abbrev pub empty_bucket : DayBucket
empty_bucket = record { epoch_day = 0; searches = 0 }

-- The routes that are counted apart, and the rest.
pub data Route : Type 0 where
  index : Route
  results : Route
  about : Route
  stats : Route
  static : Route
  new : Route
  feed : Route
  tag : Route
  saved : Route
  other : Route

unfoldable pub classify : Text → Route
classify p =
    if text_eq p (codes "/")
    then index
    else if text_eq p (codes "/results")
    then results
    else if text_eq p (codes "/about")
    then about
    else if text_eq p (codes "/stats")
    then stats
    else if text_eq p (codes "/static/*")
    then static
    else if text_eq p (codes "/new")
    then new
    else if text_eq p (codes "/feed")
    then feed
    else if text_eq p (codes "/tag/{slug}")
    then tag
    else if text_eq p (codes "/saved")
    then saved
    else other

-- A uint64 counter.
abbrev pub bumped : ℕ → ℕ
bumped n = (n + 1) % 2 ^ 64

pub record Tally : Type 0 where
  pub total : ℕ
  pub index : ℕ
  pub results : ℕ
  pub about : ℕ
  pub stats : ℕ
  pub static : ℕ
  pub new : ℕ
  pub feed : ℕ
  pub tag : ℕ
  pub saved : ℕ
  pub other : ℕ
  pub searches : ℕ
  pub days : List DayBucket

unfoldable pub count_route : Route → Tally → Tally
count_route Route.index c = record c { index = bumped c.index }
count_route Route.results c = record c { results = bumped c.results }
count_route Route.about c = record c { about = bumped c.about }
count_route Route.stats c = record c { stats = bumped c.stats }
count_route Route.static c = record c { static = bumped c.static }
count_route Route.new c = record c { new = bumped c.new }
count_route Route.feed c = record c { feed = bumped c.feed }
count_route Route.tag c = record c { tag = bumped c.tag }
count_route Route.saved c = record c { saved = bumped c.saved }
count_route Route.other c = record c { other = bumped c.other }

abbrev pub bucket_at : List DayBucket → ℕ → DayBucket
bucket_at days i = elim (get_elem? days i) [ none ↦ empty_bucket | some b ↦ b ]

-- bumpDay at a Unix time: a slot that belongs to another day starts again.
unfoldable pub bump_day : ℕ → List DayBucket → List DayBucket
bump_day now days =
    let day = now / seconds_per_day in
    let slot = day % days_kept in
    let b = bucket_at days slot in
    set days slot (
      if b.epoch_day == day
      then record b { searches = bumped b.searches }
      else record { epoch_day = day; searches = 1 })

unfoldable pub shows_results : Route → Bool
shows_results Route.index = true
shows_results Route.results = true
shows_results Route.tag = true
shows_results _ = false

-- RecordRequest at a Unix time.
unfoldable pub record_request : Text → Bool → ℕ → ℕ → Tally → Tally
unfolding classify count_route bump_day shows_results
record_request pattern search status now c =
    let counted = count_route (classify pattern) (record c { total = bumped c.total }) in
    if search && (status == status_ok && shows_results (classify pattern))
    then record counted { searches = bumped c.searches; days = bump_day now c.days }
    else counted

-- restoreDays: the persisted buckets that are still inside the window.
unfoldable pub restore_days : ℕ → List DayBucket → List DayBucket → List DayBucket
restore_days now [] ring = ring
restore_days now (b ∷ bs) ring =
    let kept = restore_days now bs (set ring (b.epoch_day % days_kept) b) in
    let skipped = restore_days now bs ring in
    if b.epoch_day == 0 || ltb (b.epoch_day + days_kept) (now / seconds_per_day + 1)
    then skipped
    else kept

-- Counters.Snapshot: the totals restored at the start, and everything tallied since. The ring is
-- the live one, into which the persisted days were restored.
abbrev pub plus64 : ℕ → ℕ → ℕ
plus64 a b = (a + b) % 2 ^ 64

unfoldable pub snapshot : Tally → Tally → Tally
snapshot base c = record {
  total = plus64 base.total c.total;
  index = plus64 base.index c.index;
  results = plus64 base.results c.results;
  about = plus64 base.about c.about;
  stats = plus64 base.stats c.stats;
  static = plus64 base.static c.static;
  new = plus64 base.new c.new;
  feed = plus64 base.feed c.feed;
  tag = plus64 base.tag c.tag;
  saved = plus64 base.saved c.saved;
  other = plus64 base.other c.other;
  searches = plus64 base.searches c.searches;
  days = c.days;
}
