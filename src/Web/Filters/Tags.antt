-- ===== src/Web/Filters/Tags.antt =====
-- The lists of tags: strictly ascending, and apart.
use itchgrep.Base.{
  suc, ◌≤◌, ◌≡◌, refl, sym, ap, ◌∙◌, true, false, not, ◌&&◌, ◌||◌, List, [], ◌∷◌, arith, length,
  All, All-weaken, All-select, Bool-cases, inl, inr,
}
use itchgrep.Base.Text.{Text, text_eq, text_eq_iff, text_lt, text_lt_trans, text_lt_total}
use itchgrep.Web.Filters.{contains, remove, insert_sorted}

-- Sorted, and without duplicates.
abbrev pub Ascending : List Text → Type 0
Ascending [] = Unit
Ascending (t ∷ ts) = All (λ u. text_lt t u ≡ true) ts × Ascending ts

-- No text of the first list is in the second.
abbrev pub Apart : List Text → List Text → Type 0
Apart ts us = All (λ t. contains us t ≡ false) ts

pub All-insert_sorted :
    (P : Text → Type 0) (ts : List Text) (t : Text) → All P ts → P t → All P (insert_sorted ts t)
unfolding insert_sorted
All-insert_sorted P [] t h p = (p, tt)
All-insert_sorted P (u ∷ ts) t h p = elim (Bool-cases (text_lt t u)) [
  | inl e ↦ rw e (p, h)
  | inr e ↦ rw e (h.0, All-insert_sorted P ts t h.1 p)
]

pub length-insert_sorted :
    (ts : List Text) (t : Text) → length (insert_sorted ts t) ≡ suc (length ts)
unfolding insert_sorted
length-insert_sorted [] t = refl
length-insert_sorted (u ∷ ts) t = elim (Bool-cases (text_lt t u)) [
  | inl e ↦ rw e
  | inr e ↦ rw e (ap suc (length-insert_sorted ts t))
]

pub length-remove : (ts : List Text) (t : Text) → length (remove ts t) ≤ length ts
unfolding remove
length-remove [] t = omega arith
length-remove (u ∷ ts) t = ground (arith, length-remove ts t)

-- Of two different texts, one is less.
less_of_ne : (t u : Text) → text_eq u t ≡ false → text_lt t u ≡ false → text_lt u t ≡ true
less_of_ne t u ne nl = elim (Bool-cases (text_lt u t)) [
  | inl e ↦ e
  | inr e ↦ let same : t ≡ u = text_lt_total t u nl e in cc ((text_eq_iff u t).1 (sym same))
]

pub Ascending-insert_sorted :
    (ts : List Text) (t : Text)
    → contains ts t ≡ false
    → Ascending ts
    → Ascending (insert_sorted ts t)
unfolding insert_sorted contains
Ascending-insert_sorted [] t new h = (tt, tt)
Ascending-insert_sorted (u ∷ ts) t new h = elim (Bool-cases (text_lt t u)) [
  | inl e ↦ rw e (
    (
      e,
      All-weaken (λ v. text_lt u v ≡ true) (λ v. text_lt t v ≡ true)
          (λ v lt. text_lt_trans t u v e lt) ts h.0,
    ),
    h,
  )
  | inr e ↦ rw e (
    All-insert_sorted (λ v. text_lt u v ≡ true) ts t h.0 (less_of_ne t u (ground arith) e),
    Ascending-insert_sorted ts t (ground arith) h.1,
  )
]

pub Ascending-remove : (ts : List Text) (t : Text) → Ascending ts → Ascending (remove ts t)
unfolding remove
Ascending-remove [] t h = tt
Ascending-remove (u ∷ ts) t h = elim (Bool-cases (text_eq u t)) [
  | inl e ↦ rw e (Ascending-remove ts t h.1)
  | inr e ↦ rw e (
    All-select (λ v. text_lt u v ≡ true) (λ v. not (text_eq v t)) ts h.0,
    Ascending-remove ts t h.1,
  )
]

pub contains-remove :
    (ts : List Text) (t u : Text) → contains (remove ts t) u ≡ not (text_eq t u) && contains ts u
unfolding remove contains
contains-remove [] t u = ground arith
contains-remove (v ∷ ts) t u =
    ground (arith, text_eq_iff v t, text_eq_iff t u, text_eq_iff v u, contains-remove ts t u)

pub contains-insert_sorted :
    (ts : List Text) (t u : Text) → contains (insert_sorted ts t) u ≡ text_eq t u || contains ts u
unfolding insert_sorted contains
contains-insert_sorted [] t u = refl
contains-insert_sorted (v ∷ ts) t u = ground (arith, contains-insert_sorted ts t u)

-- What is left of the first list after a removal is apart from the removed text.
pub Apart-remove-insert_sorted :
    (ts us : List Text) (t : Text) → Apart ts us → Apart (remove ts t) (insert_sorted us t)
unfolding remove
Apart-remove-insert_sorted [] us t h = tt
Apart-remove-insert_sorted (v ∷ ts) us t h = elim (Bool-cases (text_eq v t)) [
  | inl e ↦ rw e (Apart-remove-insert_sorted ts us t h.1)
  | inr e ↦
      let ne : text_eq t v ≡ false = ground (arith, text_eq_iff v t, text_eq_iff t v) in
      rw e (contains-insert_sorted us t v ∙ rw ne h.0, Apart-remove-insert_sorted ts us t h.1)
]

pub Apart-insert_sorted-remove :
    (ts us : List Text) (t : Text) → Apart ts us → Apart (insert_sorted ts t) (remove us t)
Apart-insert_sorted-remove ts us t h =
    All-insert_sorted (λ v. contains (remove us t) v ≡ false) ts t
      (All-weaken (λ v. contains us v ≡ false) (λ v. contains (remove us t) v ≡ false)
        (λ v e. ground (arith, contains-remove us t v)) ts h)
      (ground (arith, contains-remove us t t, text_eq_iff t t))

pub Apart-remove_left : (ts us : List Text) (t : Text) → Apart ts us → Apart (remove ts t) us
unfolding remove
Apart-remove_left ts us t h = All-select (λ v. contains us v ≡ false) (λ v. not (text_eq v t)) ts h

pub Apart-remove_right : (ts us : List Text) (t : Text) → Apart ts us → Apart ts (remove us t)
Apart-remove_right ts us t h =
    All-weaken (λ v. contains us v ≡ false) (λ v. contains (remove us t) v ≡ false)
      (λ v e. ground (arith, contains-remove us t v)) ts h
