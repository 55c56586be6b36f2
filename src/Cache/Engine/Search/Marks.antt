-- ===== src/Cache/Engine/Search/Marks.antt =====
-- What the sweep leaves: a mark for each row, and their number.
use itchgrep.Base.{
  ℕ, zero, suc, ◌+◌, ◌≡◌, refl, ap, Bool, false, none, some, List, [], ◌∷◌, ◌++◌, arith, length,
  get_elem?, select, Bool-cases, inl, inr, length-append,
}
use mathlib.Core.List.{append_assoc, append-nil}
use itchgrep.Money.Float.{Float64}
use itchgrep.Cache.Engine.{Row}
use itchgrep.Cache.Engine.Filter.{Filter, matches}
use itchgrep.Cache.Engine.Search.{Sweep, sweep, bit_at, iota}

abbrev pub trues : List Bool → ℕ
trues bs = length (select (λ b. b) bs)

module _ (fl : Float64) (f : Filter) where
  abbrev pub marks : ℕ → List (Row fl) → List Bool
  marks i [] = []
  marks i (r ∷ rows) = matches fl f i r ∷ marks (suc i) rows

  pub length-marks : (i : ℕ) (rows : List (Row fl)) → length (marks i rows) ≡ length rows
  length-marks i [] = refl
  length-marks i (r ∷ rows) = ap suc (length-marks (suc i) rows)

  pub bits-sweep :
      (w : Bool) (i : ℕ) (rows : List (Row fl)) (s : Sweep)
      → (sweep fl f w i rows s).bits ≡ s.bits ++ marks i rows
  unfolding sweep
  bits-sweep w i [] s = rw append-nil
  bits-sweep w i (r ∷ rows) s = elim (Bool-cases (matches fl f i r)) [
    | inl e ↦ rw (bits-sweep w (suc i) rows, e, append_assoc)
    | inr e ↦ rw (bits-sweep w (suc i) rows, e, append_assoc)
  ]

  pub total-sweep :
      (w : Bool) (i : ℕ) (rows : List (Row fl)) (s : Sweep)
      → (sweep fl f w i rows s).total ≡ s.total + trues (marks i rows)
  unfolding sweep
  total-sweep w i [] s = omega arith
  total-sweep w i (r ∷ rows) s = elim (Bool-cases (matches fl f i r)) [
    | inl e ↦ rw (total-sweep w (suc i) rows, e) (omega arith)
    | inr e ↦ rw (total-sweep w (suc i) rows, e)
  ]

  -- The mark at a position is the test of the row there.
  pub bit_at-marks :
      (i j k : ℕ) (rows : List (Row fl))
      → k ≡ i + j
      → bit_at (marks i rows) j
        ≡ elim (get_elem? rows j) [ none ↦ false | some r ↦ matches fl f k r ]
  bit_at-marks i j k [] e = refl
  bit_at-marks i zero k (r ∷ rows) e = ap (λ m. matches fl f m r) (omega arith)
  bit_at-marks i (suc j) k (r ∷ rows) e = bit_at-marks (suc i) j k rows (omega arith)

bit_at-append : (pre bs : List Bool) (b : Bool) → bit_at (pre ++ (b ∷ bs)) (length pre) ≡ b
bit_at-append [] bs b = refl
bit_at-append (c ∷ pre) bs b = bit_at-append pre bs b

-- The marked positions are as many as the marks that are set.
trues-iota :
    (pre bs : List Bool)
    → length (select (bit_at (pre ++ bs)) (iota (length pre) (length bs))) ≡ trues bs
trues-iota pre [] = refl
trues-iota pre (b ∷ bs) =
    let e : (pre ++ (b ∷ [])) ++ bs ≡ pre ++ (b ∷ bs) = append_assoc pre (b ∷ []) bs in
    let e' : length (pre ++ (b ∷ [])) ≡ suc (length pre) =
      omega (arith, length-append pre (b ∷ [])) in
    let rest = rw (e, e') at (trues-iota (pre ++ (b ∷ [])) bs) in
    rw bit_at-append (elim (Bool-cases b) [ inl t ↦ rw t (ap suc rest) | inr t ↦ rw t rest ])

pub length-select_marks :
    (bs : List Bool) → length (select (bit_at bs) (iota 0 (length bs))) ≡ trues bs
length-select_marks bs = trues-iota [] bs
