-- ===== src/Json/Strings.antt =====
-- A string that is printed is read back.
use local_pc.Common.{
  ==_iff, Bool-cases, List, [], ap, false, inl, inr, refl, some, subst, sym, true, ℕ, ◌++◌, ◌==◌,
  ◌∙◌, ◌∷◌, ◌≡◌,
}
use local_pc.Json.Writer.{escape, escape_all, str}
use local_pc.Json.Reader.{parse_string, prepend, read_string, unescape}
use mathlib.Core.List.{append_assoc}

read_string_plain :
    (c : ℕ) (text : List ℕ)
    → (c == 34) ≡ false
    → (c == 92) ≡ false
    → read_string (c ∷ text) ≡ prepend c (read_string text)
unfolding read_string
read_string_plain c [] h k = rw (h, read_string) refl
read_string_plain c (e ∷ text) h k = rw (h, k, read_string) refl

abbrev IsRead : List ℕ → ℕ → Type 0
IsRead text c = read_string (escape c ++ text) ≡ prepend c (read_string text)

-- What holds of a character holds of one that is equal to it.
at : (text : List ℕ) (c d : ℕ) → (c == d) ≡ true → IsRead text d → IsRead text c
at text c d e h = subst (IsRead text) (sym ((==_iff c d).0 e)) h

escape-IsRead : (c : ℕ) (text : List ℕ) → IsRead text c
unfolding escape read_string unescape
escape-IsRead c text = elim (Bool-cases (c == 34)) [
  | inl e ↦ at text c 34 e refl
  | inr quote ↦ elim (Bool-cases (c == 92)) [
    | inl e ↦ at text c 92 e refl
    | inr backslash ↦ elim (Bool-cases (c == 10)) [
      | inl e ↦ at text c 10 e refl
      | inr newline ↦ elim (Bool-cases (c == 13)) [
        | inl e ↦ at text c 13 e refl
        | inr return ↦ elim (Bool-cases (c == 9)) [
          | inl e ↦ at text c 9 e refl
          | inr tab ↦
              rw (quote, backslash, newline, return, tab) (read_string_plain c text quote backslash)
        ]
      ]
    ]
  ]
]

read_string-escape_all :
    (text rest : List ℕ) → read_string (escape_all text ++ 34 ∷ rest) ≡ some (text, rest)
unfolding escape_all
read_string-escape_all [] rest = closed rest
  where
    closed : (rest : List ℕ) → read_string (34 ∷ rest) ≡ some ([], rest)
    closed [] = unfold read_string in refl
    closed (e ∷ rest) = unfold read_string in refl
read_string-escape_all (c ∷ text) rest =
    ap read_string (append_assoc (escape c) (escape_all text) (34 ∷ rest))
    ∙ escape-IsRead c (escape_all text ++ 34 ∷ rest)
    ∙ ap (prepend c) (read_string-escape_all text rest)

-- Whatever a text holds, `parse_string` reads it back from what `str` prints, and goes on behind it.
pub parse_string-str : (text rest : List ℕ) → parse_string (str text ++ rest) ≡ some (text, rest)
unfolding parse_string str
parse_string-str text rest =
    ap read_string (append_assoc (escape_all text) (34 ∷ []) rest)
    ∙ read_string-escape_all text rest
