-- ===== src/Frame/Parse.antt =====
-- `ParseFrameAt` and `ValidateContractFrame` agree on what a frame is.
use local_pc.Common.{
  ap₂, ℕ, ◌+◌, ◌≤◌, ◌≡◌, ap, ◌∙◌, arith, none, List, ◌++◌, length, take, drop, length-append,
  length-take, length-drop, take-append, take-append-drop,
}
use local_pc.Wire.Structs.{drop_more}
use local_pc.Frame.Header.{EgoFrameHeader, frame_magic, decode_header}
use local_pc.Frame.Layout.{decode_header-append}
use local_pc.Frame.Io.{frame, parse_frame_at, validate_contract_frame}

-- The shape of a frame: its header announces it and gives its size.
pub record IsShaped (max : ℕ) (f : List ℕ) : Type 0 where
  pub long : 72 ≤ length f
  pub magic : (decode_header f).magic ≡ frame_magic
  pub size : (decode_header f).header_size ≡ 72
  pub bounded : (decode_header f).payload_size ≤ max
  pub exact : length f ≡ 72 + (decode_header f).payload_size

-- The bytes that `ValidateContractFrame` accepts.
abbrev pub IsFrame : (List ℕ → ℕ) → ℕ → List ℕ → Type 0
IsFrame crc32 max f = validate_contract_frame crc32 f max ≡ none

pub IsFrame-IsShaped :
    (crc32 : List ℕ → ℕ) (max : ℕ) (f : List ℕ) → IsFrame crc32 max f → IsShaped max f
unfolding validate_contract_frame
IsFrame-IsShaped crc32 max f h = ground arith

-- A frame that stands at an offset is cut out there.
pub parse_frame_at_front :
    (max offset : ℕ) (bytes f rest : List ℕ)
    → IsShaped max f
    → drop offset bytes ≡ f ++ rest
    → offset ≤ length bytes
    → parse_frame_at bytes offset max ≡ frame f (offset + length f)
unfolding parse_frame_at
parse_frame_at_front max offset bytes f rest s e h = rw e (
    ground (
      arith,
      s.long,
      s.magic,
      s.size,
      s.bounded,
      s.exact,
      ap (λ (t : EgoFrameHeader). t.magic) header,
      ap (λ (t : EgoFrameHeader). t.header_size) header,
      ap (λ (t : EgoFrameHeader). t.payload_size) header,
      fits,
      whole,
    ))
  where
    header : decode_header (f ++ rest) ≡ decode_header f
    header = decode_header-append f rest s.long

    fits : length bytes ≡ offset + (length f + length rest)
    fits =
        omega
          (arith, length-drop offset bytes, ap (λ (t : List ℕ). length t) e, length-append f rest)

    whole : take (72 + (decode_header (f ++ rest)).payload_size) (f ++ rest) ≡ f
    whole =
        take-append _ f rest
          (omega (arith, s.exact, ap (λ (t : EgoFrameHeader). t.payload_size) header))

-- The size that the header at an offset announces.
abbrev announced : List ℕ → ℕ → ℕ
announced bytes offset = 72 + (decode_header (drop offset bytes)).payload_size

parse_frame_at_cut :
    (max offset : ℕ) (bytes f : List ℕ) (next : ℕ)
    → parse_frame_at bytes offset max ≡ frame f next
    → (f ≡ take (announced bytes offset) (drop offset bytes))
      × (next ≡ offset + announced bytes offset)
      × (offset + announced bytes offset ≤ length bytes)
unfolding parse_frame_at
parse_frame_at_cut max offset bytes f next e = ground arith

-- What is cut out is what stands there, and it lies within the bytes.
pub parse_frame_at_bounds :
    (max offset : ℕ) (bytes f : List ℕ) (next : ℕ)
    → parse_frame_at bytes offset max ≡ frame f next
    → (72 ≤ length f)
      × (next ≡ offset + length f)
      × (next ≤ length bytes)
      × (f ++ drop next bytes ≡ drop offset bytes)
parse_frame_at_bounds max offset bytes f next e =
    let (cut, step, fits) = parse_frame_at_cut max offset bytes f next e in
    let size : length f ≡ announced bytes offset =
      ap (λ t. length t) cut
      ∙ omega (
        arith,
        length-take (announced bytes offset) (drop offset bytes),
        length-drop offset bytes,
      ) in
    (
      omega arith,
      omega arith,
      omega arith,
      ap₂ ◌++◌ cut (ap (λ t. drop t bytes) step ∙ drop_more (announced bytes offset) offset bytes)
          ∙ take-append-drop (announced bytes offset) (drop offset bytes),
    )
