-- ===== src/Storage/Swap.antt =====
-- What PublishIndex of internal/storage/storage.go leaves, whichever rename or removal fails.
use mathlib.Core.Path.{subst}
use itchgrep.Base.{sym, Bool, true, false, Option, none, some, ◌≡◌, refl, Bool-cases, inl, inr}
use itchgrep.Storage.{
  left, gone, Indexes, Outcomes, Removal, swap_in, set_aside_and_swap, clear_and_swap,
  publish_index,
}

-- The index that can be served, or restored by the next publish.
abbrev pub current : {I : Type 0} → Indexes I → Option I
current d = elim d.published [ some i ↦ some i | none ↦ d.previous ]

-- A publish swaps in the staged index, or keeps the current one.
abbrev pub Swapped : {I : Type 0} → I → Option I → Indexes I × Bool → Type 0
Swapped new old r =
    (r.1 ≡ true → (r.0.published ≡ some new) × (r.0.staging ≡ none))
    × (r.1 ≡ false → (current r.0 ≡ old) × (r.0.staging ≡ some new))

module _ {I : Type 0} (o : Outcomes I) (new : I) where
  swap_in-Swapped-none :
      (d : Indexes I)
      → d.staging ≡ some new
      → d.published ≡ none
      → Swapped new d.previous (swap_in o new false d)
  unfolding swap_in
  swap_in-Swapped-none d staged e = elim (Bool-cases o.swap) [
    | inl s ↦ rw s ((λ _. (refl, refl)), λ h. cc)
    | inr s ↦ rw s ((λ h. cc), λ _. (rw e, staged))
  ]

  swap_in-Swapped-some :
      (old : I) (d : Indexes I)
      → d.staging ≡ some new
      → Swapped new
          (some old)
          (swap_in o new true (record d { published = none; previous = some old }))
  unfolding swap_in
  swap_in-Swapped-some old d staged = elim (Bool-cases o.swap) [
    | inl s ↦ rw s ((λ _. (refl, refl)), λ h. cc)
    | inr s ↦ elim (Bool-cases o.restore) [
      | inl k ↦ rw (s, k) ((λ h. cc), λ _. (refl, staged))
      | inr k ↦ rw (s, k) ((λ h. cc), λ _. (refl, staged))
    ]
  ]

  set_aside_and_swap-Swapped :
      (p : Option I) (d : Indexes I)
      → d.staging ≡ some new
      → Swapped new
          (current (record d { published = p }))
          (set_aside_and_swap o new (record d { published = p }))
  unfolding set_aside_and_swap
  set_aside_and_swap-Swapped none d staged =
      swap_in-Swapped-none (record d { published = none }) staged refl
  set_aside_and_swap-Swapped (some old) d staged = elim (Bool-cases o.set_aside) [
    | inl s ↦ rw s (swap_in-Swapped-some old d staged)
    | inr s ↦ rw s ((λ h. cc), λ _. (refl, staged))
  ]

-- The directory has a published index, or neither that nor a previous one.
clear_and_swap-Swapped :
    {I : Type 0} (o : Outcomes I) (new : I) (p q : Option I) (d : Indexes I) (cleared : Removal I)
    → d.staging ≡ some new
    → (p ≡ none → q ≡ none)
    → Swapped new p (
        clear_and_swap
          (record o { clear = cleared })
          new
          (record d { published = p; previous = q }))
unfolding clear_and_swap
clear_and_swap-Swapped o new (some old) q d (left rest) staged h = ((λ h. cc), λ _. (refl, staged))
clear_and_swap-Swapped o new none none d (left rest) staged h = ((λ h. cc), λ _. (refl, staged))
clear_and_swap-Swapped o new none (some i) d (left rest) staged h = cc (h refl)
clear_and_swap-Swapped o new none q d gone staged h =
    set_aside_and_swap-Swapped (record o { clear = gone }) new none (record d { previous = none })
      staged
clear_and_swap-Swapped o new (some old) q d gone staged h =
    set_aside_and_swap-Swapped (record o { clear = gone }) new (some old)
      (record d { previous = none }) staged

publish_index-Swapped_at :
    {I : Type 0} (o : Outcomes I) (p q : Option I) (new : I)
    → Swapped new
        (current (record { published = p; previous = q; staging = some new }))
        (publish_index o (record { published = p; previous = q; staging = some new }))
unfolding publish_index
publish_index-Swapped_at o (some old) q new =
    clear_and_swap-Swapped o new (some old) q
      (record { published = none; previous = none; staging = some new }) o.clear refl (λ e. cc)
publish_index-Swapped_at o none none new =
    clear_and_swap-Swapped o new none none
      (record { published = none; previous = none; staging = some new }) o.clear refl (λ e. e)
publish_index-Swapped_at o none (some old) new = elim (Bool-cases o.recover) [
  | inl r ↦ rw r (
      clear_and_swap-Swapped o new (some old) none
        (record { published = none; previous = none; staging = some new }) o.clear refl (λ e. cc))
  | inr r ↦ rw r ((λ h. cc), λ _. (refl, refl))
]

-- With an index staged, and whichever renames and removals fail, a publish that succeeds has
-- swapped it in, and one that fails leaves it staged and leaves the index that was published, or
-- set aside by an interrupted publish, published or set aside.
pub publish_index-Swapped :
    {I : Type 0} (o : Outcomes I) (d : Indexes I) (new : I)
    → d.staging ≡ some new
    → Swapped new (current d) (publish_index o d)
publish_index-Swapped o d new staged =
    subst
      (λ s.
        Swapped new (current (record d { staging = s }))
          (publish_index o (record d { staging = s })))
      (sym staged) (publish_index-Swapped_at o d.published d.previous new)
