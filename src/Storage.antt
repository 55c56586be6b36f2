-- ===== src/Storage.antt =====
-- The data directory: the files and the index of internal/storage/storage.go. The operating system's
-- answers to the renames and removals are arguments.
pub mod Swap
pub mod Log
use itchgrep.Base.{
  ℕ, ◌-◌, Bool, true, false, ◌&&◌, Option, none, some, List, [], ◌∷◌, ◌++◌, ltb, ◌==◌, length, drop,
  if◌then◌else◌,
}

pub data File (A : Type 0) : Type 0 where
  missing : File A
  corrupt : File A
  holds : A → File A

-- writeAtomic: the new content is renamed into place whole, or the old one stays.
unfoldable pub write : {A : Type 0} → Bool → A → File A → File A
write ok new old = if ok then File.holds new else old

-- renameCorruptAside, behind a read that failed.
unfoldable pub aside : {A : Type 0} → Bool → File A → File A
aside renamed File.missing = File.missing
aside renamed File.corrupt = if renamed then File.missing else File.corrupt
aside renamed (File.holds a) = File.holds a

abbrev pub read : {A : Type 0} → File A → Option A
read File.missing = none
read File.corrupt = none
read (File.holds a) = some a

-- What a caller goes on with that ignores a failed read.
abbrev pub read_list : {A : Type 0} → File (List A) → List A
read_list File.missing = []
read_list File.corrupt = []
read_list (File.holds xs) = xs

abbrev pub max_history_entries : ℕ
max_history_entries = 104

-- GetHistory, which never fails: a missing or a corrupt history is an empty one.
abbrev pub get_history : {R : Type 0} → File (List R) → List R
get_history File.missing = []
get_history File.corrupt = []
get_history (File.holds rs) = rs

-- PutHistory, by which a corrupt history is moved aside.
unfoldable pub put_history : {R : Type 0} → Bool → Bool → R → File (List R) → File (List R)
unfolding write aside
put_history renamed ok r file =
    let history = get_history file ++ (r ∷ []) in
    let kept =
      if ltb max_history_entries (length history)
      then drop (length history - max_history_entries) history
      else history in
    write ok kept (aside renamed file)

-- A checkpoint of another version is not read.
unfoldable pub get_checkpoint : {C : Type 0} → ℕ → File (ℕ × C) → Option C
get_checkpoint version file = elim (read file) [
  | none ↦ none
  | some (v, c) ↦ if v == version then some c else none
]

-- index.bleve, index.bleve.previous and index.bleve.staging.
pub record Indexes (I : Type 0) : Type 0 where
  pub published : Option I
  pub previous : Option I
  pub staging : Option I

-- The end of os.RemoveAll: what is left of the directory, if it fails.
pub data Removal (I : Type 0) : Type 0 where
  gone : Removal I
  left : Option I → Removal I

-- Which of the renames and removals of a publish succeed.
pub record Outcomes (I : Type 0) : Type 0 where
  pub recover : Bool
  pub clear : Removal I
  pub set_aside : Bool
  pub swap : Bool
  pub restore : Bool
  pub remove : Removal I

module _ {I : Type 0} where
  abbrev pub left_of : Removal I → Option I
  left_of Removal.gone = none
  left_of (Removal.left rest) = rest

  -- The staged index takes the place of the published one, which `had` says was set aside.
  unfoldable pub swap_in : Outcomes I → I → Bool → Indexes I → Indexes I × Bool
  swap_in o new had d =
      if o.swap
      then (
        record d {
          published = some new;
          staging = none;
          previous = if had then left_of o.remove else d.previous;
        },
        true,
      )
      else if had && o.restore
      then (record d { published = d.previous; previous = none }, false)
      else (d, false)

  unfoldable pub set_aside_and_swap : Outcomes I → I → Indexes I → Indexes I × Bool
  unfolding swap_in
  set_aside_and_swap o new d = elim d.published [
    | none ↦ swap_in o new false d
    | some old ↦
        if o.set_aside
        then swap_in o new true (record d { published = none; previous = some old })
        else (d, false)
  ]

  -- Where there is no previous index, a removal that fails leaves none.
  unfoldable pub clear_and_swap : Outcomes I → I → Indexes I → Indexes I × Bool
  unfolding set_aside_and_swap
  clear_and_swap o new d = elim o.clear [
    | left rest ↦ (record d { previous = elim d.previous [ none ↦ none | some _ ↦ rest ] }, false)
    | gone ↦ set_aside_and_swap o new (record d { previous = none })
  ]

  -- An interrupted publish: nothing is published, but a previous index is there.
  unfoldable pub recovered : Outcomes I → Indexes I → Option (Indexes I)
  recovered o d = elim d.published [
    | some _ ↦ some d
    | none ↦ elim d.previous [
      | none ↦ some d
      | some old ↦
          if o.recover then some (record d { published = some old; previous = none }) else none
    ]
  ]

  -- PublishIndex, and whether it succeeds.
  unfoldable pub publish_index : Outcomes I → Indexes I → Indexes I × Bool
  unfolding recovered clear_and_swap
  publish_index o d = elim d.staging [
    | none ↦ (d, false)
    | some new ↦ elim (recovered o d) [ none ↦ (d, false) | some r ↦ clear_and_swap o new r ]
  ]
