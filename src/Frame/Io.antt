-- ===== src/Frame/Io.antt =====
-- runtimepc/src/contract_frame_io.cpp: cutting a byte string into contract frames and checking each.
-- `ego_contract::Crc32` belongs to the vendored contract, so it is a parameter.
use local_pc.Common.{
  ℕ, zero, suc, ◌+◌, Bool, true, false, ◌||◌, not, Option, none, some, List, length, take, drop,
  ltb, ◌==◌, if◌then◌else◌,
}
use local_pc.Frame.Header.{EgoFrameHeader, frame_magic, decode_header, encode_header}

-- The texts of `*error`.
pub data FrameError : Type 0 where
  truncated_frame_header bad_magic_or_size payload_too_large truncated_frame_payload : FrameError
  frame_too_short bad_header frame_size_mismatch payload_crc_mismatch header_crc_mismatch :
      FrameError

-- `ParseFrameAt`: a frame and the offset behind it; the end of the bytes, which sets no error; or an
-- error. The last two are its `false`.
pub data Parsed : Type 0 where
  frame : List ℕ → ℕ → Parsed
  at_end : Parsed
  failed : FrameError → Parsed

unfoldable pub parse_frame_at : List ℕ → ℕ → ℕ → Parsed
parse_frame_at bytes offset max_payload =
    let header = decode_header (drop offset bytes) in
    let frame_size = 72 + header.payload_size in
    if ltb (length bytes) (offset + 72)
    then (if offset == length bytes then at_end else failed truncated_frame_header)
    else if not (header.magic == frame_magic) || not (header.header_size == 72)
    then failed bad_magic_or_size
    else if ltb max_payload header.payload_size
    then failed payload_too_large
    else if ltb (length bytes) (offset + frame_size)
    then failed truncated_frame_payload
    else frame (take frame_size (drop offset bytes)) (offset + frame_size)

-- What `ForEachContractFrame` returns, and the `*error` that it leaves.
pub record Walked {ℓ} (S : Type ℓ) : Type ℓ where
  pub state : S
  pub result : Bool
  pub error : Option FrameError

-- A round of the loop leaves it, or goes on at an offset.
pub data Round {ℓ} (S : Type ℓ) : Type ℓ where
  leave : Walked S → Round S
  again : ℕ → S → Round S

module _ (crc32 : List ℕ → ℕ) where
  -- The payload's check is skipped when there is no payload.
  unfoldable pub payload_matches : EgoFrameHeader → List ℕ → Bool
  payload_matches header frame_bytes =
      if ltb 0 header.payload_size
      then crc32 (drop 72 frame_bytes) == header.payload_crc32
      else true

  -- The header is summed with its own checksum set to zero.
  unfoldable pub header_matches : EgoFrameHeader → Bool
  header_matches header =
      crc32 (encode_header (record header { header_crc32 = 0 })) == header.header_crc32

  -- `none` is the result `true`.
  unfoldable pub validate_contract_frame : List ℕ → ℕ → Option FrameError
  validate_contract_frame frame_bytes max_payload_bytes =
      let header = decode_header frame_bytes in
      if ltb (length frame_bytes) 72
      then some frame_too_short
      else if not (header.magic == frame_magic) || not (header.header_size == 72)
      then some bad_header
      else if ltb max_payload_bytes header.payload_size
      then some payload_too_large
      else if not (length frame_bytes == 72 + header.payload_size)
      then some frame_size_mismatch
      else if not (payload_matches header frame_bytes)
      then some payload_crc_mismatch
      else if not (header_matches header)
      then some header_crc_mismatch
      else none

  module _ {ℓ} {S : Type ℓ} (bytes : List ℕ) (max_payload_bytes : ℕ)
      (handler : S → List ℕ → S × Bool) where
    -- One round of the loop, the test of the `while` included.
    unfoldable pub round : ℕ → S → Round S
    round offset s =
        let stop : Walked S = record { state = s; result = offset == length bytes; error = none } in
        elim (ltb offset (length bytes)) [
          | false ↦ leave (record { state = s; result = true; error = none })
          | true ↦ elim (parse_frame_at bytes offset max_payload_bytes) [
            | at_end ↦ leave stop
            | failed e ↦ leave (record stop { error = some e })
            | frame f next ↦ elim (validate_contract_frame f max_payload_bytes) [
              | some e ↦ leave (record { state = s; result = false; error = some e })
              | none ↦
                  let (s', go_on) = handler s f in
                  elim go_on [
                    | true ↦ again next s'
                    | false ↦ leave (record { state = s'; result = false; error = none })
                  ]
            ]
          ]
        ]

    -- The loop, on fuel: `none` means that the fuel ran out. A frame is never empty, so one round
    -- for each byte, and one to leave, are enough.
    unfoldable pub walk : ℕ → ℕ → S → Option (Walked S)
    walk zero offset s = none
    walk (suc fuel) offset s = elim (round offset s) [
      | leave w ↦ some w
      | again next s' ↦ walk fuel next s'
    ]

    unfoldable pub for_each_contract_frame : S → Option (Walked S)
    for_each_contract_frame s = walk (suc (length bytes)) 0 s

  -- The handler of the count; the result of the walk is not looked at.
  unfoldable pub count_frame : ℕ → List ℕ → ℕ × Bool
  count_frame count f = (count + 1, true)

  unfoldable pub count_contract_frames : List ℕ → ℕ → Option ℕ
  unfolding for_each_contract_frame walk round count_frame
  count_contract_frames bytes max_payload_bytes =
      elim (for_each_contract_frame bytes max_payload_bytes count_frame 0) [
        | none ↦ none
        | some w ↦ some w.state
      ]
