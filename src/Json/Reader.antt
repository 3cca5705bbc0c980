-- ===== src/Json/Reader.antt =====
-- `Parser`: the strings. A parser takes the bytes that are left, and gives what it has read and the bytes
-- behind it; `none` is an exception.
use local_pc.Common.{List, Option, [], false, if◌then◌else◌, none, some, true, ℕ, ◌==◌, ◌||◌, ◌∷◌}

unfoldable pub skip_ws : List ℕ → List ℕ
skip_ws [] = []
skip_ws (c ∷ text) =
    let rest = skip_ws text in if c == 32 || c == 9 || c == 10 || c == 13 then rest else c ∷ text

-- The character that is meant by the one behind a backslash.
unfoldable pub unescape : ℕ → ℕ
unescape e = if e == 110 then 10 else if e == 114 then 13 else if e == 116 then 9 else e

abbrev pub prepend : ℕ → Option (List ℕ × List ℕ) → Option (List ℕ × List ℕ)
prepend c none = none
prepend c (some (out, rest)) = some (c ∷ out, rest)

-- The loop behind the first quotation mark. A backslash at the end is followed by the end.
unfoldable pub read_string : List ℕ → Option (List ℕ × List ℕ)
unfolding unescape
read_string [] = none
read_string (c ∷ []) = if c == 34 then some ([], []) else none
read_string (c ∷ e ∷ text) = elim (c == 34) [
  | true ↦ some ([], e ∷ text)
  | false ↦ elim (c == 92) [
    | true ↦ prepend (unescape e) (read_string text)
    | false ↦ prepend c (read_string (e ∷ text))
  ]
]

unfoldable pub parse_string : List ℕ → Option (List ℕ × List ℕ)
unfolding read_string
parse_string [] = none
parse_string (c ∷ text) = let read = read_string text in if c == 34 then read else none
