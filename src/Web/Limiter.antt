-- ===== src/Web/Limiter.antt =====
-- The token buckets of the web server: internal/web/ratelimit.go. A bucket's place in the order is
-- its key. The additions of float64 and Duration.Seconds are parameters; times are nanoseconds.
pub mod Table
pub mod Served
use itchgrep.Base.{
  ℕ, ◌+◌, ◌-◌, ◌*◌, ◌%◌, ◌^◌, Bool, true, false, not, ◌||◌, Option, none, some, List, [], ◌∷◌, ltb,
  leb, length, if◌then◌else◌,
}
use itchgrep.Base.Int.{ℤ, pos, negsuc}
use itchgrep.Base.Text.{Text, codes, text_eq}
use itchgrep.Base.Text.Maps.{lookup, put, without}
use itchgrep.Money.Float.{Float64}

abbrev pub max_buckets : ℕ
max_buckets = 50000

abbrev pub overflow_log_every : ℕ
overflow_log_every = 60000000000

-- Ten minutes: how long a bucket may lie idle.
abbrev pub quiet_for : ℕ
quiet_for = 600000000000

-- list.Remove of the element that holds a key.
unfoldable pub unlink : Text → List Text → List Text
unlink k [] = []
unlink k (j ∷ js) = let rest = unlink k js in if text_eq j k then js else j ∷ rest

-- list.Back
unfoldable pub back : List Text → Option Text
back [] = none
back (k ∷ []) = some k
back (k ∷ j ∷ js) = back (j ∷ js)

pub record Arithmetic (fl : Float64) : Type 0 where
  pub add : fl.F → fl.F → fl.F
  pub sub : fl.F → fl.F → fl.F
  pub seconds : ℤ → fl.F

pub record Bucket (fl : Float64) : Type 0 where
  pub tokens : fl.F
  pub last : ℕ

pub record Limiter (fl : Float64) : Type 0 where
  pub buckets : List (Text × Bucket fl)
  pub order : List Text
  pub rate : fl.F
  pub burst : fl.F
  pub evicted : ℕ
  pub last_full_log : ℕ

-- What happens to a limiter: a request of a client at a time, or the pass of evictLoop.
pub data Call : Type 0 where
  request : ℕ → Text → Call
  quiet : ℕ → Call

-- time.Sub, which is negative where the clock of a later call was read first.
abbrev pub elapsed : ℕ → ℕ → ℤ
elapsed now last = if ltb now last then negsuc (last - now - 1) else pos (now - last)

module _ (fl : Float64) (ar : Arithmetic fl) where
  abbrev pub new_limiter : fl.F → fl.F → Limiter fl
  new_limiter rate burst = record {
    buckets = [];
    order = [];
    rate = rate;
    burst = burst;
    evicted = 0;
    last_full_log = 0;
  }

  unfoldable pub drop_bucket : Text → Limiter fl → Limiter fl
  unfolding lookup without unlink
  drop_bucket k l = elim (lookup k l.buckets) [
    | none ↦ record l { buckets = without k l.buckets }
    | some b ↦ record l { buckets = without k l.buckets; order = unlink k l.order }
  ]

  unfoldable pub note_full : ℕ → Limiter fl → Limiter fl
  note_full now l =
      let counted : Limiter fl = record l { evicted = (l.evicted + 1) % 2 ^ 64 } in
      if ltb (now - l.last_full_log) overflow_log_every
      then counted
      else record counted { last_full_log = now }

  -- Room for a bucket in a table that is full.
  unfoldable pub make_room : ℕ → Limiter fl → Limiter fl
  unfolding drop_bucket note_full back
  make_room now l =
      if leb max_buckets (length l.buckets)
      then note_full now (elim (back l.order) [ none ↦ l | some k ↦ drop_bucket k l ])
      else l

  abbrev pub fresh_bucket : ℕ → Limiter fl → Bucket fl
  fresh_bucket now l = record { tokens = ar.sub l.burst (fl.of_nat 1); last = now }

  -- The bucket of a newcomer.
  unfoldable pub admit : ℕ → Text → Limiter fl → Limiter fl
  unfolding put
  admit now key l = record l {
    buckets = put key (fresh_bucket now l) l.buckets;
    order = key ∷ l.order;
  }

  unfoldable pub refilled : ℕ → Bucket fl → Limiter fl → fl.F
  refilled now b l =
      let tokens = ar.add b.tokens (fl.mul (ar.seconds (elapsed now b.last)) l.rate) in
      if fl.lt l.burst tokens then l.burst else tokens

  -- One token of a bucket that is there.
  unfoldable pub draw : ℕ → Text → Bucket fl → Limiter fl → Limiter fl × Bool
  unfolding refilled put unlink
  draw now key b l =
      let tokens = refilled now b l in
      let front : List Text = key ∷ unlink key l.order in
      if fl.lt tokens (fl.of_nat 1)
      then (
        record l {
          order = front;
          buckets = put key (record { tokens = tokens; last = now }) l.buckets;
        },
        false,
      )
      else (
        record l {
          order = front;
          buckets = put key (record { tokens = ar.sub tokens (fl.of_nat 1); last = now }) l.buckets;
        },
        true,
      )

  unfoldable pub allow : ℕ → Text → Limiter fl → Limiter fl × Bool
  unfolding lookup make_room admit
  allow now key l =
      if fl.lt l.rate (fl.of_nat 0) || fl.eq l.rate (fl.of_nat 0)
      then (l, true)
      else elim (lookup key l.buckets) [
        | none ↦ (admit now key (make_room now l), true)
        | some b ↦ draw now key b l
      ]

  -- evictLoop over the entries of the map, in any order.
  unfoldable pub evict_quiet : ℕ → List (Text × Bucket fl) → Limiter fl → Limiter fl
  unfolding drop_bucket
  evict_quiet cutoff [] l = l
  evict_quiet cutoff ((k, b) ∷ bs) l =
      evict_quiet cutoff bs (if ltb b.last cutoff then drop_bucket k l else l)

  unfoldable pub serve : Call → Limiter fl → Limiter fl
  serve (request now key) l = (allow now key l).0
  serve (quiet now) l = evict_quiet (now - quiet_for) l.buckets l

  unfoldable pub serve_all : List Call → Limiter fl → Limiter fl
  unfolding serve
  serve_all [] l = l
  serve_all (c ∷ cs) l = serve_all cs (serve c l)
