-- ===== src/Cache/Hits/Current.antt =====
-- The generations of the hit cache of internal/cache/hitcache.go against the datasets that a cache
-- has had, counted without end.
use itchgrep.Base.{
  ℕ, ◌+◌, ◌^◌, ◌<◌, ◌≡◌, refl, ap, not, none, some, List, [], ◌∷◌, arith, ◌==◌, All, All-select,
  All-take, Option-cases, inl, inr, by_if,
}
use itchgrep.Base.Text.{Text, text_eq}
use itchgrep.Base.Text.Maps.{lookup, without}
use itchgrep.Cache.Hits.{Hits, no_hits, cached, filling, begin, finish, reset}
use itchgrep.Cache.Hits.Sound.{All-lookup}

module _ {E : Type 0} (max : ℕ) (At : ℕ → Text → E → Type 0) where
  -- A cache after so many refreshes, with the dataset under which each flight began. A flight that
  -- began under dataset `m` answers its key from `m`: `At m k e`.
  pub data Run : ℕ → Hits E → List (Text × ℕ) → Type 0 where
    empty : Run 0 no_hits []
    hit :
        {n : ℕ} {h : Hits E} {began : List (Text × ℕ)} (k : Text) (e : E) (h' : Hits E)
        → Run n h began
        → begin k h ≡ cached e h'
        → Run n h' began
    start :
        {n : ℕ} {h : Hits E} {began : List (Text × ℕ)} (k : Text) (h' : Hits E)
        → Run n h began
        → begin k h ≡ filling h'
        → Run n h' ((k, n) ∷ began)
    fail :
        {n : ℕ} {h : Hits E} {began : List (Text × ℕ)} (k : Text) (g : ℕ)
        → Run n h began
        → lookup k h.flights ≡ some g
        → Run n (finish max k g none h) (without k began)
    fill :
        {n : ℕ} {h : Hits E} {began : List (Text × ℕ)} (k : Text) (g m : ℕ) (e : E)
        → Run n h began
        → lookup k h.flights ≡ some g
        → lookup k began ≡ some m
        → At m k e
        → Run n (finish max k g (some e) h) (without k began)
    refresh :
        {n : ℕ} {h : Hits E} {began : List (Text × ℕ)} → Run n h began → Run (n + 1) (reset h) began

  record IsCurrent (n : ℕ) (h : Hits E) (began : List (Text × ℕ)) : Type 0 where
    counted : h.gen ≡ n
    noted : h.flights ≡ began
    fresh : All (λ p. At n p.0 p.1) h.items

  hit-IsCurrent :
      (n : ℕ) (k : Text) (e : E) (h h' : Hits E) (began : List (Text × ℕ))
      → begin k h ≡ cached e h'
      → IsCurrent n h began
      → At n k e × IsCurrent n h' began
  unfolding begin
  hit-IsCurrent n k e h h' began q s = elim (Option-cases (lookup k h.items)) [
    | inl out ↦ elim (Option-cases (lookup k h.flights)) [
      | inl idle ↦ cc (rw (out, begin, idle) at q)
      | inr (g, busy) ↦ cc (rw (out, begin, busy) at q)
    ]
    | inr (e', at) ↦
        let after : Hits E = record h { items = (k, e') ∷ without k h.items } in
        let same : after ≡ h' = cc (rw (at, begin) at q) in
        let found : e' ≡ e = cc (rw (at, begin) at q) in
        let holds = All-lookup (λ p. At n p.0 p.1) h.items k e' s.fresh at in
        (
          rw (← found) holds,
          rw (← same) (record {
            counted = s.counted;
            noted = s.noted;
            fresh = (
              holds,
              unfold without in
                  All-select (λ p. At n p.0 p.1) (λ p. not (text_eq p.0 k)) h.items s.fresh,
            );
          }),
        )
  ]

  start-IsCurrent :
      (n : ℕ) (k : Text) (h h' : Hits E) (began : List (Text × ℕ))
      → begin k h ≡ filling h'
      → IsCurrent n h began
      → IsCurrent n h' ((k, n) ∷ began)
  unfolding begin
  start-IsCurrent n k h h' began q s = elim (Option-cases (lookup k h.items)) [
    | inr (e, at) ↦ cc (rw (at, begin) at q)
    | inl out ↦ elim (Option-cases (lookup k h.flights)) [
      | inr (g, busy) ↦ cc (rw (out, begin, busy) at q)
      | inl idle ↦
          let after : Hits E = record h { flights = (k, h.gen) ∷ h.flights } in
          let same : after ≡ h' = cc (rw (out, begin, idle) at q) in
          rw (← same)
            (record { counted = s.counted; noted = rw (s.counted, s.noted) refl; fresh = s.fresh })
    ]
  ]

  landed :
      (n : ℕ) (k : Text) (h : Hits E) (began : List (Text × ℕ))
      → IsCurrent n h began
      → IsCurrent n (record h { flights = without k h.flights }) (without k began)
  landed n k h began s = record {
    counted = s.counted;
    noted = ap (without k) s.noted;
    fresh = s.fresh;
  }

  fill-IsCurrent :
      (n : ℕ) (k : Text) (g m : ℕ) (e : E) (h : Hits E) (began : List (Text × ℕ))
      → lookup k h.flights ≡ some g
      → lookup k began ≡ some m
      → At m k e
      → IsCurrent n h began
      → IsCurrent n (finish max k g (some e) h) (without k began)
  unfolding finish
  fill-IsCurrent n k g m e h began busy noted answers s =
      by_if (λ h'. IsCurrent n h' (without k began)) (h.gen == g)
        (λ now.
          let same : h.gen ≡ g = ground (arith, now) in
          let when : some g ≡ some m = cc (rw s.noted at busy, noted) in
          let current : m ≡ n = cc (s.counted, same, when) in
          record {
            counted = s.counted;
            noted = ap (without k) s.noted;
            fresh =
                All-take (λ p. At n p.0 p.1) max ((k, e) ∷ h.items)
                  ((rw current at answers), s.fresh);
          })
        (λ _. landed n k h began s)

  fail-IsCurrent :
      (n : ℕ) (k : Text) (g : ℕ) (h : Hits E) (began : List (Text × ℕ))
      → IsCurrent n h began
      → IsCurrent n (finish max k g none h) (without k began)
  unfolding finish
  fail-IsCurrent n k g h began s = landed n k h began s

  reset-IsCurrent :
      (n : ℕ) (h : Hits E) (began : List (Text × ℕ))
      → n + 1 < 2 ^ 64
      → IsCurrent n h began
      → IsCurrent (n + 1) (reset h) began
  unfolding reset
  reset-IsCurrent n h began b s =
      let c = s.counted in record { counted = omega arith; noted = s.noted; fresh = tt }

  Run-IsCurrent :
      (n : ℕ) (h : Hits E) (began : List (Text × ℕ))
      → Run n h began
      → n < 2 ^ 64
      → IsCurrent n h began
  Run-IsCurrent n h began (Run.empty) b = record { counted = refl; noted = refl; fresh = tt }
  Run-IsCurrent n h began (Run.hit {h = h₀} k e _ r q) b =
      (hit-IsCurrent n k e h₀ h began q (Run-IsCurrent n h₀ began r b)).1
  Run-IsCurrent n h began (Run.start {h = h₀} {began = began₀} k _ r q) b =
      start-IsCurrent n k h₀ h began₀ q (Run-IsCurrent n h₀ began₀ r b)
  Run-IsCurrent n h began (Run.fail {h = h₀} {began = began₀} k g r busy) b =
      fail-IsCurrent n k g h₀ began₀ (Run-IsCurrent n h₀ began₀ r b)
  Run-IsCurrent n h began (Run.fill {h = h₀} {began = began₀} k g m e r busy noted answers) b =
      fill-IsCurrent n k g m e h₀ began₀ busy noted answers (Run-IsCurrent n h₀ began₀ r b)
  Run-IsCurrent n h began (Run.refresh {n = n₀} {h = h₀} r) b =
      reset-IsCurrent n₀ h₀ began b (Run-IsCurrent n₀ h₀ began r (omega arith))

  -- Whatever hits, fills, failures and refreshes come in whatever order, with fewer than 2 ^ 64
  -- refreshes, an entry that get finds for a key was answered from the dataset of the latest
  -- refresh, also where the fills of earlier datasets end after it.
  pub cached_current :
      (n : ℕ) (k : Text) (e : E) (h h' : Hits E) (began : List (Text × ℕ))
      → Run n h began
      → n < 2 ^ 64
      → begin k h ≡ cached e h'
      → At n k e
  cached_current n k e h h' began r b q =
      (hit-IsCurrent n k e h h' began q (Run-IsCurrent n h began r b)).0
