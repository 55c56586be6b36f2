-- ===== src/Cache/Hits.antt =====
-- The hit cache of internal/cache/hitcache.go: least recently used entries, one fill for each key
-- at a time, and a generation for each dataset. The map and the list of the source are one
-- association list here, with the most recently used entry in front.
pub mod Sound
pub mod Current
pub mod Key
use itchgrep.Base.{
  ℕ, ◌+◌, ◌%◌, ◌^◌, ◌≡◌, Bool, not, Option, none, some, List, [], ◌∷◌, ◌==◌, select, take,
  if◌then◌else◌,
}
use itchgrep.Base.Text.{Text, text_eq}
use itchgrep.Base.Text.Maps.{lookup, without}

-- A flight's value is the generation in which it began.
pub record Hits (E : Type 0) : Type 0 where
  pub gen : ℕ
  pub items : List (Text × E)
  pub flights : List (Text × ℕ)

-- What get does before it returns, waits or fills.
pub data Begun (E : Type 0) : Type 0 where
  cached : E → Hits E → Begun E
  joined : Begun E
  filling : Hits E → Begun E

module _ {E : Type 0} where
  abbrev pub no_hits : Hits E
  no_hits = record { gen = 0; items = []; flights = [] }

  unfoldable pub begin : Text → Hits E → Begun E
  unfolding without lookup
  begin k h = elim (lookup k h.items) [
    | some e ↦ cached e (record h { items = (k, e) ∷ without k h.items })
    | none ↦ elim (lookup k h.flights) [
      | some _ ↦ joined
      | none ↦ filling (record h { flights = (k, h.gen) ∷ h.flights })
    ]
  ]

  -- The deferred end of a fill that began in a generation; `none` is an error or no entry.
  unfoldable pub finish : ℕ → Text → ℕ → Option E → Hits E → Hits E
  unfolding without
  finish max k began answer h = elim answer [
    | none ↦ record h { flights = without k h.flights }
    | some e ↦
        if h.gen == began
        then record h { flights = without k h.flights; items = take max ((k, e) ∷ h.items) }
        else record h { flights = without k h.flights }
  ]

  -- The flights go on.
  unfoldable pub reset : Hits E → Hits E
  reset h = record { gen = (h.gen + 1) % 2 ^ 64; items = []; flights = h.flights }

  -- The moves of the cache, in any order: `Of g k e` says that `e` answers `k` from the dataset of
  -- generation `g`, which is what a fill that began in `g` gives.
  pub data Move (max : ℕ) (Of : ℕ → Text → E → Type 0) : Hits E → Hits E → Type 0 where
    hit : (k : Text) (e : E) (h h' : Hits E) → begin k h ≡ cached e h' → Move max Of h h'
    start : (k : Text) (h h' : Hits E) → begin k h ≡ filling h' → Move max Of h h'
    fail :
        (k : Text) (g : ℕ) (h : Hits E)
        → lookup k h.flights ≡ some g
        → Move max Of h (finish max k g none h)
    fill :
        (k : Text) (g : ℕ) (e : E) (h : Hits E)
        → lookup k h.flights ≡ some g
        → Of g k e
        → Move max Of h (finish max k g (some e) h)
    swap : (h : Hits E) → Move max Of h (reset h)

  pub data Moves (max : ℕ) (Of : ℕ → Text → E → Type 0) : Hits E → Hits E → Type 0 where
    stay : (h : Hits E) → Moves max Of h h
    step : (h h' h'' : Hits E) → Move max Of h h' → Moves max Of h' h'' → Moves max Of h h''
