-- ===== src/Storage/Log.antt =====
-- The history that PutHistory of internal/storage/storage.go keeps.
use itchgrep.Base.{
  ℕ, zero, suc, ◌-◌, ◌≤◌, Bool, true, List, [], ◌∷◌, ◌++◌, ◌≡◌, refl, ap, arith, ltb, length, drop,
  length-append, length-drop, Bool-cases, inl, inr,
}
use itchgrep.Storage.{File, get_history, put_history, write, max_history_entries}

drop-length-append_one :
    {A : Type 0} (n : ℕ) (xs : List A) (x : A)
    → n ≤ length xs
    → drop n (xs ++ (x ∷ [])) ≡ drop n xs ++ (x ∷ [])
drop-length-append_one zero xs x h = refl
drop-length-append_one (suc n) [] x h = absurd (omega arith)
drop-length-append_one (suc n) (y ∷ xs) x h = drop-length-append_one n xs x (omega arith)

-- A history that is written holds the latest entries of what could be read of the old one, at most
-- 103 of them and in their order, and then the new entry, so at most 104.
pub put_history_lem :
    {R : Type 0} (renamed : Bool) (r : R) (file : File (List R))
    → (put_history renamed true r file
        ≡ File.holds (drop (length (get_history file) - 103) (get_history file) ++ (r ∷ [])))
      × (length (get_history (put_history renamed true r file)) ≤ max_history_entries)
unfolding put_history write
put_history_lem renamed r file =
    let old = get_history file in
    let n = length-append old (r ∷ []) in
    elim (Bool-cases (ltb 104 (length (old ++ (r ∷ []))))) [
      | inl e ↦
          let more : 103 ≤ length old = ground arith in
          let same : length (old ++ (r ∷ [])) - 104 ≡ length old - 103 = omega arith in
          rw (e, same)
            (
              ap File.holds (drop-length-append_one (length old - 103) old r (omega arith)),
              omega (arith, length-drop (length old - 103) (old ++ (r ∷ []))),
            )
      | inr e ↦
          let none_out : length old - 103 ≡ 0 = ground arith in
          rw (e, none_out) (refl, ground arith)
    ]
