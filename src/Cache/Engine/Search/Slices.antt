-- ===== src/Cache/Engine/Search/Slices.antt =====
-- One page of a prefix, as the answer cuts it from an ordering.
use itchgrep.Base.{
  ℕ, zero, suc, ◌+◌, ◌-◌, ◌^◌, ◌≤◌, ◌<◌, ◌≡◌, refl, sym, ap, ◌∙◌, Bool, List, [], ◌∷◌, arith,
  length, ltb, take, drop, take-take, drop-take, take_of_length-le, drop_of_length-le,
  length-take-le, length-take, length-drop, if◌then◌else◌, Bool-cases, inl, inr,
}
use itchgrep.Base.Int.{wrap64_fits}
use itchgrep.Cache.Engine.Search.{page_end, page_positions}

pub take-nil : (n : ℕ) → take {A = ℕ} n [] ≡ []
take-nil zero = refl
take-nil (suc n) = refl

-- The end of a page that does not wrap is start+size or the total, whichever is less.
page_end_lem :
    (start size total : ℕ)
    → start + size < 2 ^ 63
    → page_end start size total ≡ (if ltb total (start + size) then total else start + size)
unfolding page_end
page_end_lem start size total h = rw (wrap64_fits (start + size) h) (ground arith)

abbrev pub cut : ℕ → ℕ → List ℕ → List ℕ
cut start size xs = take size (drop start xs)

pub cut_past : (start size : ℕ) (xs : List ℕ) → length xs ≤ start → cut start size xs ≡ []
cut_past start size xs h = rw (drop_of_length-le start xs h) (take-nil size)

pub cut_none : (start : ℕ) (xs : List ℕ) → cut start 0 xs ≡ []
cut_none start xs = refl

pub length-cut :
    (start size : ℕ) (xs : List ℕ) → start < length xs → 0 < size → 0 < length (cut start size xs)
length-cut start zero xs h k = absurd (omega arith)
length-cut start (suc n) xs h k = go (drop start xs) (omega (arith, length-drop start xs))
  where
    go : (ys : List ℕ) → 0 < length ys → 0 < length (take (suc n) ys)
    go [] q = absurd (omega arith)
    go (y ∷ ys) q = omega arith

-- A page of the first `k` elements, cut from the whole list.
cut-prefix :
    (start size k m : ℕ) (xs : List ℕ)
    → m ≡ (if ltb k (start + size) then k else start + size) - start
    → take m (drop start xs) ≡ cut start size (take k xs)
cut-prefix start size k m xs e = elim (Bool-cases (ltb k (start + size))) [
  | inl short ↦
      let e' : m ≡ k - start =
        e ∙ ap (λ (b : Bool). (if b then k else start + size) - start) short in
      let le : length (take (k - start) (drop start xs)) ≤ size =
        ground (arith, length-take-le (k - start) (drop start xs)) in
      rw (e', drop-take start k xs)
        (sym (take_of_length-le size (take (k - start) (drop start xs)) le))
  | inr full ↦
      let e' : m ≡ size =
        e ∙ ap (λ (b : Bool). (if b then k else start + size) - start) full ∙ omega arith in
      rw (e', drop-take start k xs)
        (sym (take-take size (k - start) (drop start xs) (ground arith)))
]

-- Without a walk, the answer cuts the page out of the first `total` positions of the ordering.
pub page_positions-prefix :
    (os : List ℕ) (k start size : ℕ) (counts : List ℕ)
    → start + size < 2 ^ 63
    → k ≤ length os
    → page_positions os (record { total = k; page = []; counts = counts }) start size
      ≡ cut start size (take k os)
unfolding page_positions
page_positions-prefix os k start size counts h le = elim (Bool-cases (ltb start k)) [
  | inl more ↦ elim (Bool-cases (ltb 0 size)) [
    | inl some_size ↦
        rw (more, some_size)
          (cut-prefix start size k (page_end start size k - start) os
            (ap (λ n. n - start) (page_end_lem start size k h)))
    | inr no_size ↦ let e : size ≡ 0 = ground arith in rw (more, no_size, e)
  ]
  | inr past ↦
      let short : length (take k os) ≤ start = ground (arith, length-take k os le) in
      rw past (sym (cut_past start size (take k os) short))
]

-- A walk's page stands.
pub page_positions-walked :
    (os hits : List ℕ) (start size : ℕ) (counts : List ℕ)
    → page_positions os
        (record {
          total = length hits;
          page = if ltb start (length hits) then cut start size hits else [];
          counts = counts;
        })
        start
        size
      ≡ cut start size hits
unfolding page_positions
page_positions-walked os hits start size counts = elim (Bool-cases (ltb start (length hits))) [
  | inl more ↦ elim (Bool-cases (ltb 0 size)) [
    | inl some_size ↦ ground (arith, length-cut start size hits)
    | inr no_size ↦ let e : size ≡ 0 = ground arith in rw (more, no_size, e)
  ]
  | inr past ↦ rw past (sym (cut_past start size hits (ground arith)))
]
