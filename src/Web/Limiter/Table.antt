-- ===== src/Web/Limiter/Table.antt =====
-- The map of buckets and their order are one table, whose size is bounded.
use itchgrep.Base.{
  ℕ, suc, ◌+◌, ◌-◌, ◌≤◌, ◌<◌, ◌≡◌, refl, sym, ap, ◌∙◌, ◌⊎◌, inl, inr, Bool, true, false, ◌||◌,
  Option, none, some, List, [], ◌∷◌, arith, Bool-cases, Option-cases, length, ltb, leb, leb→le,
  by_if, if◌then◌else◌,
}
use itchgrep.Base.Text.{Text, text_eq, text_eq_iff, text_eq_refl}
use itchgrep.Base.Text.Maps.{
  lookup, put, without, lookup-put, Unique, lookup-without, Unique-without, length-without,
  length-without_lt,
}
use itchgrep.Base.Text.Sets.{has}
use itchgrep.Money.Float.{Float64}
use itchgrep.Web.Limiter.{
  max_buckets, unlink, back, Arithmetic, Bucket, Limiter, fresh_bucket, drop_bucket, note_full,
  make_room, admit,
}

-- No key stands twice in the order.
abbrev pub Apart : List Text → Type 0
Apart [] = Unit
Apart (k ∷ ks) = (has ks k ≡ false) × Apart ks

pub has-unlink :
    (k j : Text) (ks : List Text)
    → Apart ks
    → has (unlink k ks) j ≡ (if text_eq k j then false else has ks j)
unfolding unlink
has-unlink k j [] u = ground arith
has-unlink k j (i ∷ ks) u =
    ground (arith, has-unlink k j ks u.1, text_eq_iff i k, text_eq_iff i j, text_eq_iff k j, u.0)

pub Apart-unlink : (k : Text) (ks : List Text) → Apart ks → Apart (unlink k ks)
unfolding unlink
Apart-unlink k [] u = tt
Apart-unlink k (i ∷ ks) u =
    by_if Apart (text_eq i k) (λ e. u.1)
      (λ e. (has-unlink k i ks u.1 ∙ ground (arith, u.0), Apart-unlink k ks u.1))

has-back : (ks : List Text) (k : Text) → back ks ≡ some k → has ks k ≡ true
unfolding back
has-back [] k h = cc
has-back (i ∷ []) k h = ground (arith, text_eq_iff i k)
has-back (i ∷ j ∷ ks) k h = ground (arith, has-back (j ∷ ks) k h)

back-some : (i : Text) (ks : List Text) → (k : Text) × (back (i ∷ ks) ≡ some k)
unfolding back
back-some i [] = (i, refl)
back-some i (j ∷ ks) = back-some j ks

abbrev pub held : {V : Type 0} → Option V → Bool
held none = false
held (some v) = true

abbrev pub counted : {V : Type 0} → Option V → ℕ
counted none = 0
counted (some v) = 1

held-if :
    {V : Type 0} (b : Bool) (o p : Option V)
    → held (if b then p else o) ≡ (if b then held p else held o)
held-if true o p = refl
held-if false o p = refl

module _ {V : Type 0} where
  pub length-put :
      (k : Text) (v : V) (m : List (Text × V))
      → length (put k v m) + counted (lookup k m) ≡ suc (length m)
  unfolding put lookup
  length-put k v [] = omega arith
  length-put k v ((i, w) ∷ m) = elim (Bool-cases (text_eq i k)) [
    | inl e ↦ rw e (omega arith)
    | inr e ↦ rw e (omega (arith, length-put k v m))
  ]

  pub Unique-put : (k : Text) (v : V) (m : List (Text × V)) → Unique m → Unique (put k v m)
  unfolding put lookup
  Unique-put k v [] u = (refl, tt)
  Unique-put k v ((i, w) ∷ m) u = elim (Bool-cases (text_eq i k)) [
    | inl e ↦ rw e (rw (sym ((text_eq_iff i k).0 e)) u.0, u.1)
    | inr e ↦
        let off : text_eq k i ≡ false = ground (arith, text_eq_iff i k, text_eq_iff k i) in
        rw e (lookup-put k i v m ∙ rw off u.0, Unique-put k v m u.1)
  ]

  pub held-put :
      (k j : Text) (v : V) (m : List (Text × V))
      → held (lookup j (put k v m)) ≡ text_eq k j || held (lookup j m)
  held-put k j v m = rw (lookup-put k j v m) (either (text_eq k j) (lookup j m))
    where
      either : (b : Bool) (o : Option V) → held (if b then some v else o) ≡ b || held o
      either true o = refl
      either false o = refl

module _ {fl : Float64} where
  -- The order lists just the keys of the map, each once, and the map has one bucket for a key.
  pub record Linked (l : Limiter fl) : Type 0 where
    pub unique : Unique l.buckets
    pub apart : Apart l.order
    pub agree : (k : Text) → has l.order k ≡ held (lookup k l.buckets)

  -- The table, which is bounded.
  pub record IsTable (l : Limiter fl) : Type 0 where
    pub linked : Linked l
    pub few : length l.buckets ≤ max_buckets

module _ (fl : Float64) (ar : Arithmetic fl) where
  held-without :
      (k j : Text) (m : List (Text × Bucket fl))
      → held (lookup j (without k m)) ≡ (if text_eq k j then false else held (lookup j m))
  held-without k j m = rw (lookup-without k j m) (held-if (text_eq k j) (lookup j m) none)

  drop_bucket-Linked : (k : Text) (l : Limiter fl) → Linked l → Linked (drop_bucket fl ar k l)
  unfolding drop_bucket
  drop_bucket-Linked k l h = elim (Option-cases (lookup k l.buckets)) [
    | inl e ↦
        rw (e, drop_bucket)
          (record {
            unique = Unique-without k l.buckets h.unique;
            apart = h.apart;
            agree = λ j.
                h.agree j
                ∙ absent j (Bool-cases (text_eq k j)) e
                ∙ sym (held-without k j l.buckets);
          })
    | inr (b, e) ↦
        rw (e, drop_bucket)
          (record {
            unique = Unique-without k l.buckets h.unique;
            apart = Apart-unlink k l.order h.apart;
            agree = λ j.
                has-unlink k j l.order h.apart ∙ rw (h.agree j) (sym (held-without k j l.buckets));
          })
  ]
    where
      absent :
          (j : Text)
          → (text_eq k j ≡ true) ⊎ (text_eq k j ≡ false)
          → lookup k l.buckets ≡ none
          → held (lookup j l.buckets) ≡ (if text_eq k j then false else held (lookup j l.buckets))
      absent j (inl q) n = rw (q, sym ((text_eq_iff k j).0 q), n)
      absent j (inr q) n = rw q

  drop_bucket-length :
      (k : Text) (l : Limiter fl) → length (drop_bucket fl ar k l).buckets ≤ length l.buckets
  unfolding drop_bucket
  drop_bucket-length k l = elim (Option-cases (lookup k l.buckets)) [
    | inl e ↦ rw (e, drop_bucket) (length-without k l.buckets)
    | inr (b, e) ↦ rw (e, drop_bucket) (length-without k l.buckets)
  ]

  pub drop_bucket-IsTable :
      (k : Text) (l : Limiter fl) → IsTable l → IsTable (drop_bucket fl ar k l)
  drop_bucket-IsTable k l h =
      let f = h.few in
      record {
        linked = drop_bucket-Linked k l h.linked;
        few = omega (arith, drop_bucket-length k l);
      }

  -- The key at the back is one of the map's, so that dropping it makes room.
  drop_back :
      (k : Text) (l : Limiter fl)
      → Linked l
      → back l.order ≡ some k
      → length (drop_bucket fl ar k l).buckets < length l.buckets
  unfolding drop_bucket
  drop_back k l h e = there (lookup k l.buckets) refl
    where
      there :
          (o : Option (Bucket fl))
          → lookup k l.buckets ≡ o
          → length (drop_bucket fl ar k l).buckets < length l.buckets
      there none q = cc (has-back l.order k e, h.agree k, ap held q)
      there (some b) q = rw (q, drop_bucket) (length-without_lt k b l.buckets q)

  no_back :
      (m : List (Text × Bucket fl)) (ks : List Text)
      → ((k : Text) → has ks k ≡ held (lookup k m))
      → back ks ≡ none
      → length m ≡ 0
  unfolding back lookup
  no_back [] ks h e = refl
  no_back ((i, w) ∷ m) [] h e = ground (arith, h i, text_eq_refl i)
  no_back m (i ∷ ks) h e = let (k, q) = back-some i ks in cc (q, e)

  -- Room for one more.
  pub record HasRoom (l : Limiter fl) : Type 0 where
    pub linked : Linked l
    pub room : length l.buckets < max_buckets

  pub note_full_same :
      (now : ℕ) (l : Limiter fl)
      → ((note_full fl ar now l).buckets ≡ l.buckets) × ((note_full fl ar now l).order ≡ l.order)
  unfolding note_full
  note_full_same now l = ground arith

  note_full-HasRoom : (now : ℕ) (l : Limiter fl) → HasRoom l → HasRoom (note_full fl ar now l)
  unfolding note_full
  note_full-HasRoom now l h =
      let k = h.linked in
      by_if HasRoom (ltb (now - l.last_full_log) _)
        (λ _. record {
          linked = record { unique = k.unique; apart = k.apart; agree = k.agree };
          room = h.room;
        })
        (λ _. record {
          linked = record { unique = k.unique; apart = k.apart; agree = k.agree };
          room = h.room;
        })

  freed-HasRoom :
      (l : Limiter fl) (o : Option Text)
      → back l.order ≡ o
      → max_buckets ≤ length l.buckets
      → IsTable l
      → HasRoom (elim o as (λ _. Limiter fl) [ none ↦ l | some k ↦ drop_bucket fl ar k l ])
  freed-HasRoom l none e full h =
      let k = h.linked in absurd (omega (arith, no_back l.buckets l.order k.agree e))
  freed-HasRoom l (some k) e full h =
      let f = h.few in
      record {
        linked = drop_bucket-Linked k l h.linked;
        room = omega (arith, drop_back k l h.linked e);
      }

  pub make_room-HasRoom : (now : ℕ) (l : Limiter fl) → IsTable l → HasRoom (make_room fl ar now l)
  unfolding make_room
  make_room-HasRoom now l h =
      by_if HasRoom (leb max_buckets (length l.buckets))
        (λ e.
          note_full-HasRoom now _
            (freed-HasRoom l (back l.order) refl (leb→le max_buckets (length l.buckets) e) h))
        (λ e. record { linked = h.linked; room = ground arith })

  -- A newcomer, whom neither the map nor the order holds.
  pub admit-IsTable :
      (now : ℕ) (key : Text) (l : Limiter fl)
      → lookup key l.buckets ≡ none
      → HasRoom l
      → IsTable (admit fl ar now key l)
  unfolding admit
  admit-IsTable now key l new h =
      let k = h.linked in
      let r = h.room in
      record {
        linked = record {
          unique = Unique-put key (fresh_bucket fl ar now l) l.buckets k.unique;
          apart = (k.agree key ∙ ap held new, k.apart);
          agree = λ j.
              ap (λ b. text_eq key j || b) (k.agree j)
              ∙ sym (held-put key j (fresh_bucket fl ar now l) l.buckets);
        };
        few = omega (arith, length-put key (fresh_bucket fl ar now l) l.buckets, ap counted new);
      }
