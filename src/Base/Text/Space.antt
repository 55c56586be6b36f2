-- ===== src/Base/Text/Space.antt =====
-- strings.TrimSpace and strings.Fields over the UTF-8 bytes of every Unicode space.
use itchgrep.Base.Lists.{length}
use Prim.Native.Nat.{ℕ, zero, suc}
use mathlib.Core.List.{List, [], ◌∷◌, ◌++◌, map, reverse}
use mathlib.Core.Option.{none, some}
use itchgrep.Base.Text.{Text, strip_prefix}

-- The encodings of the runes that unicode.IsSpace accepts.
abbrev pub spaces : List Text
spaces =
    (0x20 ∷ [])
    ∷ (0x09 ∷ [])
    ∷ (0x0a ∷ [])
    ∷ (0x0b ∷ [])
    ∷ (0x0c ∷ [])
    ∷ (0x0d ∷ [])
    ∷ (0xc2 ∷ 0x85 ∷ [])
    ∷ (0xc2 ∷ 0xa0 ∷ [])
    ∷ (0xe1 ∷ 0x9a ∷ 0x80 ∷ [])
    ∷ (0xe2 ∷ 0x80 ∷ 0x80 ∷ [])
    ∷ (0xe2 ∷ 0x80 ∷ 0x81 ∷ [])
    ∷ (0xe2 ∷ 0x80 ∷ 0x82 ∷ [])
    ∷ (0xe2 ∷ 0x80 ∷ 0x83 ∷ [])
    ∷ (0xe2 ∷ 0x80 ∷ 0x84 ∷ [])
    ∷ (0xe2 ∷ 0x80 ∷ 0x85 ∷ [])
    ∷ (0xe2 ∷ 0x80 ∷ 0x86 ∷ [])
    ∷ (0xe2 ∷ 0x80 ∷ 0x87 ∷ [])
    ∷ (0xe2 ∷ 0x80 ∷ 0x88 ∷ [])
    ∷ (0xe2 ∷ 0x80 ∷ 0x89 ∷ [])
    ∷ (0xe2 ∷ 0x80 ∷ 0x8a ∷ [])
    ∷ (0xe2 ∷ 0x80 ∷ 0xa8 ∷ [])
    ∷ (0xe2 ∷ 0x80 ∷ 0xa9 ∷ [])
    ∷ (0xe2 ∷ 0x80 ∷ 0xaf ∷ [])
    ∷ (0xe2 ∷ 0x81 ∷ 0x9f ∷ [])
    ∷ (0xe3 ∷ 0x80 ∷ 0x80 ∷ [])
    ∷ []

-- How many bytes the first of the given encodings takes at the head of a text; 0 if none is there.
unfoldable pub space_len : List Text → Text → ℕ
unfolding strip_prefix
space_len [] s = 0
space_len (w ∷ ws) s = elim (strip_prefix w s) [ none ↦ space_len ws s | some _ ↦ length w ]

-- The first argument counts the bytes of a space that are still to be dropped.
unfoldable pub trim_left : List Text → ℕ → Text → Text
unfolding space_len
trim_left ws n [] = []
trim_left ws (suc n) (b ∷ s) = trim_left ws n s
trim_left ws zero (b ∷ s) = elim (space_len ws (b ∷ s)) [ zero ↦ b ∷ s | suc n ↦ trim_left ws n s ]

unfoldable pub trim_space : Text → Text
unfolding trim_left
trim_space s = reverse (trim_left (map reverse spaces) 0 (reverse (trim_left spaces 0 s)))

-- A piece between spaces; an empty one is no field.
unfoldable pub emit : Text → List Text → List Text
emit [] rest = rest
emit (b ∷ s) rest = (b ∷ s) ∷ rest

unfoldable pub fields_from : ℕ → Text → Text → List Text
unfolding space_len emit
fields_from n field [] = emit field []
fields_from (suc n) field (b ∷ s) = fields_from n field s
fields_from zero field (b ∷ s) = elim (space_len spaces (b ∷ s)) [
  | zero ↦ fields_from zero (field ++ (b ∷ [])) s
  | suc n ↦ emit field (fields_from n [] s)
]

unfoldable pub fields : Text → List Text
unfolding fields_from
fields s = fields_from 0 [] s
