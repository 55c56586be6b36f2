-- ===== src/Cache/Engine/Search/Walk.antt =====
-- The walk down an ordering cuts one page out of the marked positions.
use itchgrep.Base.{
  ℕ, zero, suc, ◌+◌, ◌-◌, ◌≤◌, ◌≡◌, refl, sym, Bool, List, [], ◌∷◌, arith, take, drop, select, ltb,
  Bool-cases, inl, inr,
}
use itchgrep.Base.Int.{pos}
use itchgrep.Cache.Engine.Search.{walk, bit_at}

take-nil : (n : ℕ) → take {A = ℕ} n [] ≡ []
take-nil zero = refl
take-nil (suc n) = refl

drop-nil : (n : ℕ) → drop {A = ℕ} n [] ≡ []
drop-nil zero = refl
drop-nil (suc n) = refl

walk_inside :
    (bits : List Bool) (os : List ℕ) (start need seen : ℕ)
    → start ≤ seen
    → walk bits os start (pos need) seen ≡ take (need - seen) (select (bit_at bits) os)
unfolding walk
walk_inside bits [] start need seen h = sym (take-nil (need - seen))
walk_inside bits (i ∷ os) start need seen h = elim (Bool-cases (ltb seen need)) [
  | inl more ↦
      let e : need - seen ≡ suc (need - (seen + 1)) = ground arith in
      ground
        (arith, e, walk_inside bits os start need (seen + 1), walk_inside bits os start need seen)
  | inr done ↦ let e : need - seen ≡ 0 = ground arith in rw e (ground arith)
]

-- Before the page begins.
walk_before :
    (bits : List Bool) (os : List ℕ) (start need seen : ℕ)
    → seen ≤ start
    → start ≤ need
    → walk bits os start (pos need) seen
      ≡ take (need - start) (drop (start - seen) (select (bit_at bits) os))
unfolding walk
walk_before bits [] start need seen h k =
    rw (drop-nil (start - seen)) (sym (take-nil (need - start)))
walk_before bits (i ∷ os) start need seen h k = elim (Bool-cases (ltb seen start)) [
  | inl earlier ↦
      let e : start - seen ≡ suc (start - (seen + 1)) = ground arith in
      ground
        (arith, e, walk_before bits os start need (seen + 1), walk_before bits os start need seen)
  | inr now ↦
      let e : seen ≡ start = ground arith in
      let e' : start - start ≡ 0 = omega arith in
      rw (e, e') (walk_inside bits (i ∷ os) start need start (omega arith))
]

-- From the first match on, the walk is the page: `size` matches from the `start`-th on.
pub walk-page :
    (bits : List Bool) (os : List ℕ) (start size : ℕ)
    → walk bits os start (pos (start + size)) 0 ≡ take size (drop start (select (bit_at bits) os))
walk-page bits os start size =
    let e : start + size - start ≡ size = omega arith in
    let e' : start - 0 ≡ start = omega arith in
    rw (e, e') at (walk_before bits os start (start + size) 0 (omega arith) (omega arith))
