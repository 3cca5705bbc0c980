-- ===== src/Writer/Print.antt =====
-- `AppendContractIndex`: the text of a line of the index, without its end of line.
use local_pc.Common.{ℕ, zero, suc, ◌+◌, ◌/◌, ◌%◌, List, [], ◌∷◌, ◌++◌, ltb, if◌then◌else◌}
use local_pc.Writer.Chunks.{IndexLine}

-- The decimal digits of a number in front of a text, on fuel: one digit for each round, and a number is
-- never smaller than its count of digits.
unfoldable pub decimal_in_front : ℕ → ℕ → List ℕ → List ℕ
decimal_in_front zero n text = text
decimal_in_front (suc fuel) n text =
    let rest = decimal_in_front fuel (n / 10) ((48 + n % 10) ∷ text) in
    if ltb n 10 then (48 + n % 10) ∷ text else rest

-- `stream << n` for an unsigned integer.
unfoldable pub decimal : ℕ → List ℕ
unfolding decimal_in_front
decimal n = decimal_in_front (suc n) n []

abbrev comma : ℕ
comma = 44

unfoldable pub print_line : IndexLine → List ℕ
unfolding decimal
print_line line =
    decimal line.offset
    ++ comma ∷ decimal line.t0_ns
    ++ comma ∷ decimal line.frame_type
    ++ comma ∷ decimal line.seq
    ++ comma ∷ decimal line.chunk_id
    ++ comma ∷ decimal line.payload_size
