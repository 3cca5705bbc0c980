-- ===== src/Json/Tests.antt =====
-- Strings and objects printed and read.
use local_pc.Json.Writer.{indent_lines, raw_array, split_lines}
use local_pc.Common.{codes, [], refl, some, ◌++◌, ◌∷◌, ◌≡◌}
use local_pc.Json.Writer.{
  append_key, array, build, escape, escape_all, field, join_lines, new_builder, object, spaces, str,
  trim_comma,
}
use local_pc.Json.Strings.{parse_string-str}
use local_pc.Json.Reader.{parse_string, skip_ws}

parse_string-str_example :
    parse_string (str (codes "a\"b\\\n") ++ codes "  }") ≡ some (codes "a\"b\\\n", codes "  }")
parse_string-str_example = parse_string-str (codes "a\"b\\\n") (codes "  }")

-- Between two fields the builder prints neither a comma nor a new line.
two_fields :
    build
      (field (codes "b") (str (codes "y")) (field (codes "a") (str (codes "x")) (new_builder 2 0)))
    ≡ codes "{\n  \"a\": \"x\"  \"b\": \"y\"}"
unfolding build field append_key spaces str escape_all escape trim_comma
two_fields = refl

-- A comma before the last character of a value is taken for one to remove.
lost_end : build (field (codes "a") (codes "1,2") (new_builder 2 0)) ≡ codes "{\n  \"a\": 1\n}"
unfolding build field append_key spaces str escape_all escape trim_comma
lost_end = refl

array_test :
    build (array (codes "a") (codes "1" ∷ codes "2" ∷ []) (new_builder 2 0))
    ≡ codes "{\n  \"a\": [\n    1,\n    2\n  ]}"
unfolding build array append_key spaces str escape_all escape trim_comma join_lines
array_test = refl

-- A nested object, and blanks.
nested_test : build (object (codes "o") (λ b. b) (new_builder 2 0)) ≡ codes "{\n  \"o\": {}}"
unfolding build object append_key spaces str escape_all escape trim_comma
nested_test = refl

blanks_test : skip_ws (codes " \n\tx ") ≡ codes "x "
unfolding skip_ws
blanks_test = refl

raw_array_test :
    build (raw_array (codes "a") (codes "{\n}" ∷ codes "{}" ∷ []) (new_builder 2 0))
    ≡ codes "{\n  \"a\": [\n    {\n    },\n    {}\n  ]}"
unfolding build raw_array append_key spaces str escape_all escape trim_comma join_lines split_lines
    indent_lines
raw_array_test = refl
