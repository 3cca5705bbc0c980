-- ===== src/Common/Texts.antt =====
-- Texts as the bytes of their characters.
use Prim.Native.Char.{code}
use Prim.Native.String.{String}
use Prim.Native.Nat.{ℕ, ◌-◌}
use mathlib.Core.Bool.{Bool, true, false, ◌&&◌}
use mathlib.Core.List.{List, [], ◌∷◌}
use local_pc.Common.Tests.{◌==◌, ltb, if◌then◌else◌}
use local_pc.Common.Lists.{length, drop}

abbrev pub codes : String → List ℕ
codes String.[] = []
codes (String.◌∷◌ c s) = code c ∷ codes s

-- `operator==` on texts.
unfoldable pub text_eq : List ℕ → List ℕ → Bool
text_eq [] [] = true
text_eq [] (b ∷ bs) = false
text_eq (a ∷ as') [] = false
text_eq (a ∷ as') (b ∷ bs) = a == b && text_eq as' bs

-- `operator<=` on texts.
unfoldable pub text_le : List ℕ → List ℕ → Bool
text_le [] bs = true
text_le (a ∷ as') [] = false
text_le (a ∷ as') (b ∷ bs) =
    let rest = text_le as' bs in if ltb a b then true else if ltb b a then false else rest

unfoldable pub starts_with : List ℕ → List ℕ → Bool
starts_with [] text = true
starts_with (a ∷ prefix) [] = false
starts_with (a ∷ prefix) (b ∷ text) = a == b && starts_with prefix text

-- The comparison of the last characters.
unfoldable pub ends_with : List ℕ → List ℕ → Bool
unfolding starts_with text_eq
ends_with suffix text =
    if ltb (length text) (length suffix)
    then false
    else text_eq (drop (length text - length suffix) text) suffix

abbrev pub is_empty : List ℕ → Bool
is_empty [] = true
is_empty (x ∷ xs) = false
