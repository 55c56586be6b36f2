-- ===== src/Web/Limiter/Served.antt =====
-- What a request and a pass of evictLoop keep of the table, and of the buckets of others.
use itchgrep.Base.{
  ℕ, ◌≤◌, ◌≡◌, ◌≢◌, refl, sym, ap, ◌∙◌, ◌⊎◌, inl, inr, Bool, true, false, ◌||◌, Option, none, some,
  List, [], ◌∷◌, arith, Bool-cases, Option-cases, length, ltb, leb, leb→le, by_if, if◌then◌else◌,
}
use itchgrep.Base.Text.{Text, text_eq, text_eq_iff, text_eq_refl}
use itchgrep.Base.Text.Maps.{lookup, put, lookup-put, lookup-without}
use itchgrep.Base.Text.Sets.{has}
use itchgrep.Money.Float.{Float64}
use itchgrep.Web.Limiter.{
  max_buckets, unlink, back, Arithmetic, Bucket, Limiter, Call, request, quiet, fresh_bucket,
  drop_bucket, make_room, admit, draw, allow, evict_quiet, serve, serve_all,
}
use itchgrep.Web.Limiter.Table.{
  has-unlink, Apart-unlink, counted, length-put, Unique-put, held-put, IsTable, drop_bucket-IsTable,
  note_full_same, make_room-HasRoom, admit-IsTable,
}

module _ (fl : Float64) (ar : Arithmetic fl) where
  -- The bucket of a client that is known is put back, in front.
  put_front-IsTable :
      (key : Text) (b b' : Bucket fl) (l : Limiter fl)
      → lookup key l.buckets ≡ some b
      → IsTable l
      → IsTable (record l { order = key ∷ unlink key l.order; buckets = put key b' l.buckets })
  put_front-IsTable key b b' l at h =
      let k = h.linked in
      let f = h.few in
      record {
        linked = record {
          unique = Unique-put key b' l.buckets k.unique;
          apart = (
            has-unlink key key l.order k.apart ∙ rw (text_eq_refl key) refl,
            Apart-unlink key l.order k.apart,
          );
          agree = λ j.
              ap (λ c. text_eq key j || c) (has-unlink key j l.order k.apart)
              ∙ absorb (text_eq key j) (has l.order j)
              ∙ ap (λ c. text_eq key j || c) (k.agree j)
              ∙ sym (held-put key j b' l.buckets);
        };
        few = omega (arith, length-put key b' l.buckets, ap counted at);
      }
    where
      absorb : (c d : Bool) → c || (if c then false else d) ≡ c || d
      absorb true d = refl
      absorb false d = refl

  draw-IsTable :
      (now : ℕ) (key : Text) (b : Bucket fl) (l : Limiter fl)
      → lookup key l.buckets ≡ some b
      → IsTable l
      → IsTable (draw fl ar now key b l).0
  unfolding draw
  draw-IsTable now key b l at h =
      by_if {A = Limiter fl × Bool} (λ r. IsTable r.0) (fl.lt _ (fl.of_nat 1))
        (λ _. put_front-IsTable key b _ l at h) (λ _. put_front-IsTable key b _ l at h)

  -- What is dropped stays away, and nothing else goes.
  lookup-drop_bucket :
      (k j : Text) (l : Limiter fl)
      → lookup j (drop_bucket fl ar k l).buckets
        ≡ (if text_eq k j then none else lookup j l.buckets)
  unfolding drop_bucket
  lookup-drop_bucket k j l = elim (Option-cases (lookup k l.buckets)) [
    | inl e ↦ rw (e, drop_bucket) (lookup-without k j l.buckets)
    | inr (b, e) ↦ rw (e, drop_bucket) (lookup-without k j l.buckets)
  ]

  -- Making room takes nothing but the bucket at the back of a full table.
  make_room-kept :
      (now : ℕ) (j : Text) (l : Limiter fl)
      → (lookup j (make_room fl ar now l).buckets ≡ lookup j l.buckets)
        ⊎ ((max_buckets ≤ length l.buckets)
            × (back l.order ≡ some j)
            × (lookup j (make_room fl ar now l).buckets ≡ none))
  unfolding make_room
  make_room-kept now j l =
      by_if P (leb max_buckets (length l.buckets))
        (λ e.
          rw (note_full_same fl ar now (freed (back l.order))).0
            (freed_kept (back l.order) refl (leb→le max_buckets (length l.buckets) e)))
        (λ e. inl refl)
    where
      P : Limiter fl → Type 0
      P m =
          (lookup j m.buckets ≡ lookup j l.buckets)
          ⊎ ((max_buckets ≤ length l.buckets)
              × (back l.order ≡ some j)
              × (lookup j m.buckets ≡ none))

      freed : Option Text → Limiter fl
      freed o = elim o [ none ↦ l | some k ↦ drop_bucket fl ar k l ]

      freed_kept :
          (o : Option Text) → back l.order ≡ o → max_buckets ≤ length l.buckets → P (freed o)
      freed_kept none e full = inl refl
      freed_kept (some k) e full = elim (Bool-cases (text_eq k j)) [
        | inl q ↦
            inr (full, e ∙ ap some ((text_eq_iff k j).0 q), lookup-drop_bucket k j l ∙ rw q refl)
        | inr q ↦ inl (lookup-drop_bucket k j l ∙ rw q refl)
      ]

  make_room-absent :
      (now : ℕ) (j : Text) (l : Limiter fl)
      → lookup j l.buckets ≡ none
      → lookup j (make_room fl ar now l).buckets ≡ none
  make_room-absent now j l h = elim (make_room-kept now j l) [
    | inl same ↦ same ∙ h
    | inr (full, last, gone) ↦ gone
  ]

  allow-IsTable :
      (now : ℕ) (key : Text) (l : Limiter fl) → IsTable l → IsTable (allow fl ar now key l).0
  unfolding allow
  allow-IsTable now key l h =
      by_if {A = Limiter fl × Bool} (λ r. IsTable r.0) _ (λ _. h)
        (λ _. known (lookup key l.buckets) refl)
    where
      known :
          (o : Option (Bucket fl))
          → lookup key l.buckets ≡ o
          → IsTable
              (elim o as (λ _. Limiter fl × Bool) [
                | none ↦ (admit fl ar now key (make_room fl ar now l), true)
                | some b ↦ draw fl ar now key b l
              ]).0
      known none e =
          admit-IsTable fl ar now key (make_room fl ar now l) (make_room-absent now key l e)
            (make_room-HasRoom fl ar now l h)
      known (some b) e = draw-IsTable now key b l e h

  evict_quiet-IsTable :
      (cutoff : ℕ) (bs : List (Text × Bucket fl)) (l : Limiter fl)
      → IsTable l
      → IsTable (evict_quiet fl ar cutoff bs l)
  unfolding evict_quiet
  evict_quiet-IsTable cutoff [] l h = h
  evict_quiet-IsTable cutoff ((k, b) ∷ bs) l h =
      by_if (λ m. IsTable (evict_quiet fl ar cutoff bs m)) (ltb b.last cutoff)
        (λ _. evict_quiet-IsTable cutoff bs _ (drop_bucket-IsTable fl ar k l h))
        (λ _. evict_quiet-IsTable cutoff bs l h)

  serve-IsTable : (c : Call) (l : Limiter fl) → IsTable l → IsTable (serve fl ar c l)
  unfolding serve
  serve-IsTable (request now key) l h = allow-IsTable now key l h
  serve-IsTable (quiet now) l h = evict_quiet-IsTable _ l.buckets l h

  -- Whatever requests come and whenever quiet buckets are dropped, the limiter keeps its table: at
  -- most 50000 buckets, one for a key, and an order that lists just their keys, each once.
  pub serve_all-IsTable :
      (calls : List Call) (l : Limiter fl) → IsTable l → IsTable (serve_all fl ar calls l)
  unfolding serve_all
  serve_all-IsTable [] l h = h
  serve_all-IsTable (c ∷ cs) l h = serve_all-IsTable cs (serve fl ar c l) (serve-IsTable c l h)

  put_off :
      (key j : Text) (b : Bucket fl) (m : List (Text × Bucket fl))
      → text_eq key j ≡ false
      → lookup j (put key b m) ≡ lookup j m
  put_off key j b m ne = lookup-put key j b m ∙ rw ne refl

  draw-kept :
      (now : ℕ) (key j : Text) (b : Bucket fl) (l : Limiter fl)
      → text_eq key j ≡ false
      → lookup j (draw fl ar now key b l).0.buckets ≡ lookup j l.buckets
  unfolding draw
  draw-kept now key j b l ne =
      by_if {A = Limiter fl × Bool} (λ r. lookup j r.0.buckets ≡ lookup j l.buckets)
        (fl.lt _ (fl.of_nat 1)) (λ _. put_off key j _ l.buckets ne)
        (λ _. put_off key j _ l.buckets ne)

  admit-kept :
      (now : ℕ) (key j : Text) (l : Limiter fl)
      → text_eq key j ≡ false
      → lookup j (admit fl ar now key l).buckets ≡ lookup j l.buckets
  unfolding admit
  admit-kept now key j l ne = put_off key j (fresh_bucket fl ar now l) l.buckets ne

  -- A request leaves the bucket of any other client as it is, unless its own client is new, the
  -- table is full and the other is the last in the order of use; then that bucket is dropped.
  pub allow-kept :
      (now : ℕ) (key j : Text) (l : Limiter fl)
      → key ≢ j
      → (lookup j (allow fl ar now key l).0.buckets ≡ lookup j l.buckets)
        ⊎ ((lookup key l.buckets ≡ none)
            × (max_buckets ≤ length l.buckets)
            × (back l.order ≡ some j)
            × (lookup j (allow fl ar now key l).0.buckets ≡ none))
  unfolding allow
  allow-kept now key j l apart =
      by_if {A = Limiter fl × Bool} (λ r. P r.0) _ (λ _. inl refl)
        (λ _. known (lookup key l.buckets) refl)
    where
      ne : text_eq key j ≡ false
      ne = elim (Bool-cases (text_eq key j)) [
        | inl e ↦ absurd (apart ((text_eq_iff key j).0 e))
        | inr e ↦ e
      ]

      P : Limiter fl → Type 0
      P m =
          (lookup j m.buckets ≡ lookup j l.buckets)
          ⊎ ((lookup key l.buckets ≡ none)
              × (max_buckets ≤ length l.buckets)
              × (back l.order ≡ some j)
              × (lookup j m.buckets ≡ none))

      known :
          (o : Option (Bucket fl))
          → lookup key l.buckets ≡ o
          → P
              (elim o as (λ _. Limiter fl × Bool) [
                | none ↦ (admit fl ar now key (make_room fl ar now l), true)
                | some b ↦ draw fl ar now key b l
              ]).0
      known none e =
          let off = admit-kept now key j (make_room fl ar now l) ne in
          elim (make_room-kept now j l) [
            | inl same ↦ inl (off ∙ same)
            | inr (full, last, gone) ↦ inr (e, full, last, off ∙ gone)
          ]
      known (some b) e = inl (draw-kept now key j b l ne)
