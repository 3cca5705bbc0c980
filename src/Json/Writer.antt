-- ===== src/Json/Writer.antt =====
-- The printing of JSON: strings, and `ObjectBuilder`. Texts are lists of bytes; numbers come printed. An
-- indent is a number of spaces.
use local_pc.Common.{map}
use local_pc.Common.{
  codes, Bool, List, [], false, if◌then◌else◌, suc, true, zero, ℕ, ◌*◌, ◌++◌, ◌+◌, ◌==◌, ◌∷◌,
}

-- A character of a string.
unfoldable pub escape : ℕ → List ℕ
escape c =
    if c == 34
    then codes "\\\""
    else if c == 92
    then codes "\\\\"
    else if c == 10
    then codes "\\n"
    else if c == 13
    then codes "\\r"
    else if c == 9
    then codes "\\t"
    else c ∷ []

unfoldable pub escape_all : List ℕ → List ℕ
unfolding escape
escape_all [] = []
escape_all (c ∷ text) = escape c ++ escape_all text

unfoldable pub str : List ℕ → List ℕ
unfolding escape_all
str text = 34 ∷ escape_all text ++ 34 ∷ []

abbrev pub boolean : Bool → List ℕ
boolean v = if v then codes "true" else codes "false"

unfoldable pub spaces : ℕ → List ℕ
spaces zero = []
spaces (suc n) = 32 ∷ spaces n

pub record ObjectBuilder : Type 0 where
  pub indent : ℕ
  pub depth : ℕ
  pub buf : List ℕ
  pub empty : Bool

abbrev pub new_builder : ℕ → ℕ → ObjectBuilder
new_builder indent depth = record { indent = indent; depth = depth; buf = []; empty = true }

unfoldable pub append_key : List ℕ → ObjectBuilder → ObjectBuilder
unfolding spaces str
append_key key b = record b {
  empty = false;
  buf = b.buf ++ spaces ((b.depth + 1) * b.indent) ++ str key ++ codes ": ";
}

abbrev pub append : List ℕ → ObjectBuilder → ObjectBuilder
append text b = record b { buf = b.buf ++ text }

unfoldable pub field : List ℕ → List ℕ → ObjectBuilder → ObjectBuilder
unfolding append_key
field key val b = append val (append_key key b)

-- `result[result.size()-2] = '\n'`, and the last character cut off.
unfoldable pub trim_comma : List ℕ → List ℕ
trim_comma [] = []
trim_comma (c ∷ []) = c ∷ []
trim_comma (c ∷ d ∷ []) = if c == 44 then 10 ∷ [] else c ∷ d ∷ []
trim_comma (c ∷ d ∷ e ∷ text) = c ∷ trim_comma (d ∷ e ∷ text)

unfoldable pub build : ObjectBuilder → List ℕ
unfolding trim_comma spaces
build b =
    if b.empty
    then codes "{}"
    else trim_comma (codes "{\n" ++ b.buf) ++ spaces (b.depth * b.indent) ++ codes "}"

-- `object`: the lambda fills a builder one level deeper.
unfoldable pub object : List ℕ → (ObjectBuilder → ObjectBuilder) → ObjectBuilder → ObjectBuilder
unfolding append_key build
object key fill b = append (build (fill (new_builder b.indent (b.depth + 1)))) (append_key key b)

-- The items of an array, each on a line.
unfoldable pub join_lines : List ℕ → List (List ℕ) → List ℕ
join_lines pad [] = []
join_lines pad (item ∷ []) = pad ++ item ++ 10 ∷ []
join_lines pad (item ∷ next ∷ items) = pad ++ item ++ 44 ∷ 10 ∷ join_lines pad (next ∷ items)

unfoldable pub array : List ℕ → List (List ℕ) → ObjectBuilder → ObjectBuilder
unfolding append_key spaces join_lines
array key [] b = append (codes "[]") (append_key key b)
array key (item ∷ items) b =
    let pad = spaces ((b.depth + 2) * b.indent) in
    append
      (codes "[\n"
        ++ join_lines pad (item ∷ items)
        ++ spaces ((b.depth + 1) * b.indent)
        ++ codes "]")
      (append_key key b)

-- `std::getline` until the end.
abbrev begin_line : ℕ → List (List ℕ) → List (List ℕ)
begin_line c [] = (c ∷ []) ∷ []
begin_line c (line ∷ lines) = (c ∷ line) ∷ lines

unfoldable pub split_lines : List ℕ → List (List ℕ)
split_lines [] = []
split_lines (c ∷ text) =
    let lines = split_lines text in if c == 10 then [] ∷ lines else begin_line c lines

unfoldable pub indent_lines : List ℕ → List (List ℕ) → List ℕ
indent_lines pad [] = []
indent_lines pad (line ∷ []) = pad ++ line
indent_lines pad (line ∷ next ∷ lines) = pad ++ line ++ 10 ∷ indent_lines pad (next ∷ lines)

-- The objects of an array, with each of their lines indented.
unfoldable pub raw_array : List ℕ → List (List ℕ) → ObjectBuilder → ObjectBuilder
unfolding append_key spaces join_lines split_lines indent_lines
raw_array key [] b = append (codes "[]") (append_key key b)
raw_array key (obj ∷ objs) b =
    let pad = spaces ((b.depth + 2) * b.indent) in
    let indented = map (λ (o : List ℕ). indent_lines pad (split_lines o)) (obj ∷ objs) in
    append (codes "[\n" ++ join_lines [] indented ++ spaces ((b.depth + 1) * b.indent) ++ codes "]")
      (append_key key b)
