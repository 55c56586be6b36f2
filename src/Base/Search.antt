-- ===== src/Base/Search.antt =====
-- sort.Search: binary search for the first index at which a test holds.
use itchgrep.Base.Tests.{ltb, ltb→lt, if◌then◌else◌, Bool-cases, Bool-ext}
use Prim.Native.Nat.{ℕ, zero, suc, ◌+◌, ◌/◌, ◌≤◌, ◌<◌}
use mathlib.Core.Bool.{Bool, true, false}
use mathlib.Core.Path.{◌≡◌}
use mathlib.Core.Logic.{inl, inr}
use native.Mathlib.Omega.{arith}

-- The interval halves in each round, so as many rounds as its length are enough.
unfoldable pub search_from : ℕ → ℕ → ℕ → (ℕ → Bool) → ℕ
search_from zero i j test = i
search_from (suc fuel) i j test =
    let h = (i + j) / 2 in
    let left = search_from fuel i h test in
    let right = search_from fuel (h + 1) j test in
    if ltb i j then (if test h then left else right) else i

unfoldable pub search_index : ℕ → (ℕ → Bool) → ℕ
unfolding search_from
search_index n test = search_from n 0 n test

-- Below `k` the test fails, and from `k` to `n` it holds.
pub record Splits (n : ℕ) (test : ℕ → Bool) (k : ℕ) : Type 0 where
  pub within : k ≤ n
  pub below : (i : ℕ) → i < k → test i ≡ false
  pub above : (i : ℕ) → k ≤ i → i < n → test i ≡ true

module _ (test : ℕ → Bool) (mono : (i j : ℕ) → i ≤ j → test i ≡ true → test j ≡ true) where
  search_from-Splits :
      (fuel i j n : ℕ)
      → j < fuel + i + 1
      → i ≤ j
      → j ≤ n
      → ((k : ℕ) → k < i → test k ≡ false)
      → ((k : ℕ) → j ≤ k → k < n → test k ≡ true)
      → Splits n test (search_from fuel i j test)
  unfolding search_from
  search_from-Splits zero i j n f le top lo hi = record {
    within = omega arith;
    below = lo;
    above = λ k ge lt. hi k (omega arith) lt;
  }
  search_from-Splits (suc fuel) i j n f le top lo hi = elim (Bool-cases (ltb i j)) [
    | inr done ↦
        rw (done, search_from)
          (record { within = omega arith; below = lo; above = λ k ge lt. hi k (ground arith) lt })
    | inl more ↦
        let h = (i + j) / 2 in
        let lt = ltb→lt i j more in
        elim (Bool-cases (test h)) [
          | inl yes_h ↦
              rw (more, search_from, yes_h)
                (search_from-Splits fuel i h n (omega arith) (omega arith) (omega arith) lo
                  (λ k ge _. mono h k ge yes_h))
          | inr no_h ↦
              rw (more, search_from, no_h)
                (search_from-Splits fuel (h + 1) j n (omega arith) (omega arith) top
                  (λ k below.
                    Bool-ext (test k) false (λ t. cc (mono k h (omega arith) t)) (λ q. cc))
                  hi)
        ]
  ]

  -- The index found is where the test begins to hold.
  pub search_index-Splits : (n : ℕ) → Splits n test (search_index n test)
  unfolding search_index
  search_index-Splits n =
      search_from-Splits n 0 n n (omega arith) (omega arith) (omega arith)
        (λ k lt. absurd (omega arith)) (λ k ge lt. absurd (omega arith))
