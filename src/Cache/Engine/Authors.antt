-- ===== src/Cache/Engine/Authors.antt =====
-- Interning authors: 0 is no author, and any other id stands for one key.
use itchgrep.Base.{
  ℕ, ◌+◌, ◌≤◌, ◌<◌, ◌≡◌, refl, ◌≢◌, none, some, List, [], ◌∷◌, arith, length, ◌⊎◌, inl, inr,
  Option-cases, Bool-cases,
}
use itchgrep.Base.Text.{Text, text_eq, text_eq_iff, text_eq_refl}
use itchgrep.Base.Text.Maps.{lookup}
use itchgrep.Cache.Engine.{intern_author}

pub record IsAuthors (authors : List (Text × ℕ)) : Type 0 where
  pub bounds :
      (key : Text) (id : ℕ)
      → lookup key authors ≡ some id
      → (0 < id) × (id ≤ length authors) × (key ≢ [])
  pub injective :
      (a b : Text) (id : ℕ) → lookup a authors ≡ some id → lookup b authors ≡ some id → a ≡ b

abbrev pub Keeps : List (Text × ℕ) → List (Text × ℕ) → Type 0
Keeps old new = (key : Text) (id : ℕ) → lookup key old ≡ some id → lookup key new ≡ some id

-- The id says who the author is: 0 stands for no key.
abbrev pub Names : List (Text × ℕ) → ℕ → Text → Type 0
Names authors id key = ((key ≡ []) × (id ≡ 0)) ⊎ (lookup key authors ≡ some id)

pub nil-IsAuthors : IsAuthors []
unfolding lookup
nil-IsAuthors = record { bounds = λ key id h. cc; injective = λ a b id h k. cc }

abbrev added : List (Text × ℕ) → Text → List (Text × ℕ)
added authors key = (key, length authors + 1) ∷ authors

module _ (authors : List (Text × ℕ)) (key : Text) where
  lookup-added :
      (u : Text) (id : ℕ)
      → lookup u (added authors key) ≡ some id
      → ((key ≡ u) × (id ≡ length authors + 1)) ⊎ (lookup u authors ≡ some id)
  unfolding lookup
  lookup-added u id h = ground (arith, text_eq_iff key u)

  added-Keeps : lookup key authors ≡ none → Keeps authors (added authors key)
  unfolding lookup
  added-Keeps new u id h = ground (arith, text_eq_iff key u)

  added-IsAuthors :
      key ≢ [] → lookup key authors ≡ none → IsAuthors authors → IsAuthors (added authors key)
  added-IsAuthors named new v = record {
    bounds = λ u id h. elim (lookup-added u id h) [
      | inl (e, at) ↦ (omega arith, omega arith, λ q. named (cc))
      | inr old ↦ let b = v.bounds u id old in (b.0, omega arith, b.2)
    ];
    injective = λ a b id ha hb. elim (lookup-added a id ha) [
      | inl (ea, at) ↦ elim (lookup-added b id hb) [
        | inl (eb, _) ↦ cc
        | inr old ↦ absurd (omega (arith, (v.bounds b id old).1))
      ]
      | inr olda ↦ elim (lookup-added b id hb) [
        | inl (eb, at) ↦ absurd (omega (arith, (v.bounds a id olda).1))
        | inr oldb ↦ v.injective a b id olda oldb
      ]
    ];
  }

-- What one call of intern_author gives.
pub record Entered (authors : List (Text × ℕ)) (key : Text) : Type 0 where
  pub valid : IsAuthors (intern_author authors key).0
  pub keeps : Keeps authors (intern_author authors key).0
  pub names : Names (intern_author authors key).0 (intern_author authors key).1 key

pub intern_author-Entered :
    (authors : List (Text × ℕ)) (key : Text) → IsAuthors authors → Entered authors key
unfolding intern_author
intern_author-Entered authors key v = elim (Bool-cases (text_eq key [])) [
  | inl e ↦ record {
    valid = rw (e, intern_author) v;
    keeps = rw (e, intern_author) (λ u id h. h);
    names = rw (e, intern_author) (inl ((text_eq_iff key []).0 e, refl));
  }
  | inr e ↦ elim (Option-cases (lookup key authors)) [
    | inl new ↦ record {
      valid =
          rw (e, intern_author, new)
            (added-IsAuthors authors key (λ q. ground (arith, text_eq_iff key [])) new v);
      keeps = rw (e, intern_author, new) (added-Keeps authors key new);
      names = rw (e, intern_author, new) (inr (unfold lookup in rw (text_eq_refl key)));
    }
    | inr (id, old) ↦ record {
      valid = rw (e, intern_author, old) v;
      keeps = rw (e, intern_author, old) (λ u id h. h);
      names = rw (e, intern_author, old) (inr old);
    }
  ]
]
