-- ===== src/Strings.antt =====
-- What the pool uses of the standard library's strings package, on the bytes of a text.
use eacrpool.Prelude.{
  ℕ, zero, suc, ◌==◌, Option, none, some, List, [], ◌∷◌, map, reverse, length, if◌then◌else◌,
}
use eacrpool.Bytes.{Bytes}

-- The pieces of a text between the separators, a one-byte one; there is always a first.
unfoldable pub split_from : ℕ → Bytes → Bytes × List Bytes
split_from sep [] = ([], [])
split_from sep (c ∷ s) =
    let (piece, rest) = split_from sep s in
    if c == sep then ([], piece ∷ rest) else (c ∷ piece, rest)

-- strings.Split
unfoldable pub split : ℕ → Bytes → List Bytes
unfolding split_from
split sep s = let (piece, rest) = split_from sep s in piece ∷ rest

-- strings.Repeat of one character
unfoldable pub repeat : ℕ → ℕ → Bytes
repeat c zero = []
repeat c (suc n) = c ∷ repeat c n

-- the UTF-8 encodings of the characters that unicode.IsSpace holds for
abbrev pub spaces : List Bytes
spaces =
    (9 ∷ [])
    ∷ (10 ∷ [])
    ∷ (11 ∷ [])
    ∷ (12 ∷ [])
    ∷ (13 ∷ [])
    ∷ (32 ∷ [])
    ∷ (194 ∷ 133 ∷ [])
    ∷ (194 ∷ 160 ∷ [])
    ∷ (225 ∷ 154 ∷ 128 ∷ [])
    ∷ (226 ∷ 128 ∷ 128 ∷ [])
    ∷ (226 ∷ 128 ∷ 129 ∷ [])
    ∷ (226 ∷ 128 ∷ 130 ∷ [])
    ∷ (226 ∷ 128 ∷ 131 ∷ [])
    ∷ (226 ∷ 128 ∷ 132 ∷ [])
    ∷ (226 ∷ 128 ∷ 133 ∷ [])
    ∷ (226 ∷ 128 ∷ 134 ∷ [])
    ∷ (226 ∷ 128 ∷ 135 ∷ [])
    ∷ (226 ∷ 128 ∷ 136 ∷ [])
    ∷ (226 ∷ 128 ∷ 137 ∷ [])
    ∷ (226 ∷ 128 ∷ 138 ∷ [])
    ∷ (226 ∷ 128 ∷ 168 ∷ [])
    ∷ (226 ∷ 128 ∷ 169 ∷ [])
    ∷ (226 ∷ 128 ∷ 175 ∷ [])
    ∷ (226 ∷ 129 ∷ 159 ∷ [])
    ∷ (227 ∷ 128 ∷ 128 ∷ [])
    ∷ []

unfoldable pub strip_prefix : Bytes → Bytes → Option Bytes
strip_prefix [] s = some s
strip_prefix (p ∷ ps) [] = none
strip_prefix (p ∷ ps) (c ∷ s) = let rest = strip_prefix ps s in if p == c then rest else none

-- the text after its first space, if it begins with one
unfoldable pub strip_space : List Bytes → Bytes → Option Bytes
unfolding strip_prefix
strip_space [] s = none
strip_space (p ∷ ps) s = elim (strip_prefix p s) [ some rest ↦ some rest | none ↦ strip_space ps s ]

-- One step for each character is enough.
unfoldable pub trim_left : List Bytes → ℕ → Bytes → Bytes
trim_left table zero s = s
trim_left table (suc n) s = elim (strip_space table s) [
  | none ↦ s
  | some rest ↦ trim_left table n rest
]

-- strings.TrimSpace
unfoldable pub trim_space : Bytes → Bytes
unfolding trim_left
trim_space s =
    let left = trim_left spaces (length s) s in
    reverse (trim_left (map reverse spaces) (length left) (reverse left))
