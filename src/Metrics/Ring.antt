-- ===== src/Metrics/Ring.antt =====
-- The ring of days: what it says of a day, and what a search and a restart do to it.
use itchgrep.Base.{
  ℕ, zero, suc, ◌/◌, ◌%◌, ◌<◌, ◌≡◌, ◌≢◌, refl, ap, ◌∙◌, false, List, [], ◌∷◌, arith, length, ◌==◌,
  set, if◌then◌else◌, Bool-cases, inl, inr,
}
use itchgrep.Metrics.{days_kept, seconds_per_day, DayBucket, bumped, bucket_at, bump_day}

bucket_at-set_same :
    (days : List DayBucket) (i : ℕ) (b : DayBucket)
    → i < length days
    → bucket_at (set days i b) i ≡ b
bucket_at-set_same [] i b h = absurd (omega arith)
bucket_at-set_same (c ∷ days) zero b h = refl
bucket_at-set_same (c ∷ days) (suc i) b h = bucket_at-set_same days i b (omega arith)

bucket_at-set_other :
    (days : List DayBucket) (i j : ℕ) (b : DayBucket)
    → i ≢ j
    → bucket_at (set days i b) j ≡ bucket_at days j
bucket_at-set_other [] i j b h = refl
bucket_at-set_other (c ∷ days) zero zero b h = absurd (h refl)
bucket_at-set_other (c ∷ days) zero (suc j) b h = refl
bucket_at-set_other (c ∷ days) (suc i) zero b h = refl
bucket_at-set_other (c ∷ days) (suc i) (suc j) b h =
    bucket_at-set_other days i j b (λ e. h (ap suc e))

length-set : (days : List DayBucket) (i : ℕ) (b : DayBucket) → length (set days i b) ≡ length days
length-set [] i b = refl
length-set (c ∷ days) zero b = refl
length-set (c ∷ days) (suc i) b = ap suc (length-set days i b)

-- The searches that a bucket has for a day.
abbrev pub seen_in : DayBucket → ℕ → ℕ
seen_in b day = if b.epoch_day == day then b.searches else 0

-- The searches that the ring has for a day.
abbrev pub searches_on : List DayBucket → ℕ → ℕ
searches_on days day = seen_in (bucket_at days (day % days_kept)) day

-- The bucket that a search leaves in the slot of its day.
abbrev counted : ℕ → DayBucket → DayBucket
counted today b =
    if b.epoch_day == today
    then record b { searches = bumped b.searches }
    else record { epoch_day = today; searches = 1 }

seen_in-counted :
    (today day : ℕ) (b : DayBucket)
    → seen_in (counted today b) day ≡ (if day == today then bumped (seen_in b day) else 0)
seen_in-counted today day b = elim (Bool-cases (b.epoch_day == today)) [
  | inl e ↦ rw (e, counted) (ground arith)
  | inr e ↦ rw (e, counted) (ground arith)
]

-- In a ring of 90 buckets, a search adds one to the searches of its day, clears those of a
-- different day whose slot it takes, and leaves every other day as it was.
pub bump_day-searches_on :
    (now day : ℕ) (days : List DayBucket)
    → length days ≡ days_kept
    → searches_on (bump_day now days) day ≡ (
        if day == now / seconds_per_day
        then bumped (searches_on days day)
        else if day % days_kept == now / seconds_per_day % days_kept
        then 0
        else searches_on days day)
unfolding bump_day
bump_day-searches_on now day days full =
    let today = now / seconds_per_day in
    let slot = today % days_kept in
    let next = counted today (bucket_at days slot) in
    let in_ring : slot < length days = omega (arith, full) in
    elim (Bool-cases (day % days_kept == slot)) [
      | inl e ↦
          let at : day % days_kept ≡ slot = ground arith in
          let stored : bucket_at (set days slot next) (day % days_kept) ≡ next =
            rw at (bucket_at-set_same days slot next in_ring) in
          ap (λ b. seen_in b day) stored
          ∙ seen_in-counted today day (bucket_at days slot)
          ∙ rw (e, at)
      | inr e ↦
          let away : slot ≢ day % days_kept = λ q. ground (arith, q) in
          let kept = bucket_at-set_other days slot (day % days_kept) next away in
          let ne : (day == today) ≡ false = ground (arith, e) in
          ap (λ b. seen_in b day) kept ∙ rw (ne, e)
    ]
