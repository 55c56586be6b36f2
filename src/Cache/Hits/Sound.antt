-- ===== src/Cache/Hits/Sound.antt =====
-- What every move of the hit cache keeps.
use itchgrep.Base.{
  ℕ, zero, suc, ◌≤◌, ◌≡◌, refl, ◌∙◌, false, not, none, some, List, [], ◌∷◌, arith, ◌==◌, take,
  length, All, All-select, All-take, All-weaken, length-take-le, Option-cases, Bool-cases, inl, inr,
  by_if,
}
use itchgrep.Base.Text.{Text, text_eq, text_eq_iff, text_eq_refl}
use itchgrep.Base.Text.Maps.{
  lookup, without, Unique, lookup-without, Unique-without, length-without_lt,
}
use itchgrep.Cache.Hits.{Hits, no_hits, cached, filling, begin, finish, reset, Move, Moves}

module _ {V : Type 0} where
  lookup-take-none :
      (n : ℕ) (k : Text) (m : List (Text × V)) → lookup k m ≡ none → lookup k (take n m) ≡ none
  unfolding lookup
  lookup-take-none zero k m h = refl
  lookup-take-none (suc n) k [] h = refl
  lookup-take-none (suc n) k ((i, v) ∷ m) h = ground (arith, lookup-take-none n k m)

  Unique-take : (n : ℕ) (m : List (Text × V)) → Unique m → Unique (take n m)
  Unique-take zero m u = tt
  Unique-take (suc n) [] u = tt
  Unique-take (suc n) ((i, v) ∷ m) u = (lookup-take-none n i m u.0, Unique-take n m u.1)

  pub All-lookup :
      (P : Text × V → Type 0) (m : List (Text × V)) (k : Text) (v : V)
      → All P m
      → lookup k m ≡ some v
      → P (k, v)
  unfolding lookup
  All-lookup P [] k v h e = cc
  All-lookup P ((i, w) ∷ m) k v h e = elim (Bool-cases (text_eq i k)) [
    | inl at ↦
        let same : i ≡ k = (text_eq_iff i k).0 at in
        let held : w ≡ v = cc (rw (at, lookup) at e) in rw (← same, ← held) h.0
    | inr off ↦ All-lookup P m k v h.1 (rw (off, lookup) at e)
  ]

module _ {V : Type 0} where
  -- Moving an entry to the front makes no other key present.
  absent-front :
      (k : Text) (v : V) (j : Text) (m : List (Text × V))
      → lookup k m ≡ some v
      → lookup j m ≡ none
      → lookup j ((k, v) ∷ without k m) ≡ none
  unfolding lookup
  absent-front k v j m at n = elim (Bool-cases (text_eq k j)) [
    | inl e ↦ let same : k ≡ j = (text_eq_iff k j).0 e in cc (rw same at at, n)
    | inr e ↦ rw e (lookup-without k j m ∙ rw e n)
  ]

  -- The flights that are left lack an entry where their keys did.
  absent-without :
      (k : Text) (v : V) (m : List (Text × V)) (fl : List (Text × ℕ))
      → All (λ f. lookup f.0 m ≡ none) fl
      → All (λ f. lookup f.0 ((k, v) ∷ m) ≡ none) (without k fl)
  unfolding without lookup
  absent-without k v m [] h = tt
  absent-without k v m ((j, g) ∷ fl) h = elim (Bool-cases (text_eq j k)) [
    | inl e ↦ rw e (absent-without k v m fl h.1)
    | inr e ↦
        let ne : text_eq k j ≡ false = ground (arith, text_eq_iff j k, text_eq_iff k j) in
        rw e (rw ne h.0, absent-without k v m fl h.1)
  ]

module _ {E : Type 0} (max : ℕ) (Of : ℕ → Text → E → Type 0) where
  pub record Sound (h : Hits E) : Type 0 where
    pub few : length h.items ≤ max
    pub unique : Unique h.items
    pub fresh : All (λ p. Of h.gen p.0 p.1) h.items
    pub single : Unique h.flights
    pub missing : All (λ f. lookup f.0 h.items ≡ none) h.flights

  hit-Sound : (k : Text) (e : E) (h h' : Hits E) → begin k h ≡ cached e h' → Sound h → Sound h'
  unfolding begin
  hit-Sound k e h h' q s = elim (Option-cases (lookup k h.items)) [
    | inl out ↦ elim (Option-cases (lookup k h.flights)) [
      | inl idle ↦ cc (rw (out, begin, idle) at q)
      | inr (g, busy) ↦ cc (rw (out, begin, busy) at q)
    ]
    | inr (e', at) ↦
        let after : Hits E = record h { items = (k, e') ∷ without k h.items } in
        let same : after ≡ h' = cc (rw (at, begin) at q) in
        rw (← same) (record {
          few = let f = s.few in omega (arith, length-without_lt k e' h.items at);
          unique =
              (lookup-without k k h.items ∙ rw (text_eq_refl k), Unique-without k h.items s.unique);
          fresh = (
            All-lookup (λ p. Of h.gen p.0 p.1) h.items k e' s.fresh at,
            unfold without in
                All-select (λ p. Of h.gen p.0 p.1) (λ p. not (text_eq p.0 k)) h.items s.fresh,
          );
          single = s.single;
          missing =
              All-weaken (λ f. lookup f.0 h.items ≡ none)
                (λ f. lookup f.0 ((k, e') ∷ without k h.items) ≡ none)
                (λ f n. absent-front k e' f.0 h.items at n) h.flights s.missing;
        })
  ]

  start-Sound : (k : Text) (h h' : Hits E) → begin k h ≡ filling h' → Sound h → Sound h'
  unfolding begin
  start-Sound k h h' q s = elim (Option-cases (lookup k h.items)) [
    | inr (e, at) ↦ cc (rw (at, begin) at q)
    | inl out ↦ elim (Option-cases (lookup k h.flights)) [
      | inr (g, busy) ↦ cc (rw (out, begin, busy) at q)
      | inl idle ↦
          let after : Hits E = record h { flights = (k, h.gen) ∷ h.flights } in
          let same : after ≡ h' = cc (rw (out, begin, idle) at q) in
          rw (← same) (record {
            few = s.few;
            unique = s.unique;
            fresh = s.fresh;
            single = (idle, s.single);
            missing = (out, s.missing);
          })
    ]
  ]

  -- The end of a flight, with or without an entry.
  landed : (k : Text) (h : Hits E) → Sound h → Sound (record h { flights = without k h.flights })
  landed k h s = record {
    few = s.few;
    unique = s.unique;
    fresh = s.fresh;
    single = Unique-without k h.flights s.single;
    missing =
        unfold without in
        All-select (λ f. lookup f.0 h.items ≡ none) (λ p. not (text_eq p.0 k)) h.flights s.missing;
  }

  finish_ok :
      (k : Text) (g : ℕ) (e : E) (h : Hits E)
      → lookup k h.flights ≡ some g
      → Of g k e
      → Sound h
      → Sound (finish max k g (some e) h)
  unfolding finish
  finish_ok k g e h busy answers s =
      by_if Sound (h.gen == g)
        (λ now.
          let same : h.gen ≡ g = ground (arith, now) in
          let out : lookup k h.items ≡ none =
            All-lookup (λ f. lookup f.0 h.items ≡ none) h.flights k g s.missing busy in
          record {
            few = length-take-le max ((k, e) ∷ h.items);
            unique = Unique-take max ((k, e) ∷ h.items) (out, s.unique);
            fresh =
                All-take (λ p. Of h.gen p.0 p.1) max ((k, e) ∷ h.items) (rw same answers, s.fresh);
            single = Unique-without k h.flights s.single;
            missing =
                All-weaken (λ f. lookup f.0 ((k, e) ∷ h.items) ≡ none)
                  (λ f. lookup f.0 (take max ((k, e) ∷ h.items)) ≡ none)
                  (λ f n. lookup-take-none max f.0 ((k, e) ∷ h.items) n) (without k h.flights)
                  (absent-without k e h.items h.flights s.missing);
          })
        (λ _. landed k h s)

  reset-Sound : (h : Hits E) → Sound h → Sound (reset h)
  unfolding reset lookup
  reset-Sound h s = record {
    few = omega arith;
    unique = tt;
    fresh = tt;
    single = s.single;
    missing =
        All-weaken (λ f. lookup f.0 h.items ≡ none) (λ f. lookup {V = E} f.0 [] ≡ none)
          (λ f _. refl) h.flights s.missing;
  }

  step-Sound : (h h' : Hits E) → Move max Of h h' → Sound h → Sound h'
  step-Sound h h' (Move.hit k e _ _ q) s = hit-Sound k e h h' q s
  step-Sound h h' (Move.start k _ _ q) s = start-Sound k h h' q s
  step-Sound h h' (Move.fail k g _ busy) s = unfold finish in landed k h s
  step-Sound h h' (Move.fill k g e _ busy answers) s = finish_ok k g e h busy answers s
  step-Sound h h' (Move.swap _) s = reset-Sound h s

  no_hits-Sound : Sound no_hits
  no_hits-Sound = record { few = omega arith; unique = tt; fresh = tt; single = tt; missing = tt }

  all_steps-Sound : (h h' : Hits E) → Moves max Of h h' → Sound h → Sound h'
  all_steps-Sound h h' (Moves.stay _) s = s
  all_steps-Sound h h' (Moves.step _ mid _ m ms) s =
      all_steps-Sound mid h' ms (step-Sound h mid m s)

  -- Whatever moves the hit cache makes from empty on, it holds at most its maximum of entries and
  -- at most one for a key, each answers its key from the dataset of the current generation, at
  -- most one fill for a key is under way, and none for a key that has an entry.
  pub Moves-Sound : (h : Hits E) → Moves max Of no_hits h → Sound h
  Moves-Sound h ms = all_steps-Sound no_hits h ms no_hits-Sound
