-- ===== src/Frame/Layout.antt =====
-- The struct of a header and its bytes determine one another.
use local_pc.Common.{ℕ, ◌<◌, ◌≤◌, ◌≡◌, arith, List, [], ◌∷◌, ◌++◌, length, All, take}
use local_pc.Wire.{field, encode_fields, IsByte}
use local_pc.Wire.Structs.{
  Fit, width, offset, content, field-encode_fields, length-encode_fields, encode_fields-read_fields,
  field-append,
}
use local_pc.Frame.Header.{EgoFrameHeader, header_fields, decode_header, encode_header}

-- Every field holds a value of its width.
abbrev pub HeaderFits : EgoFrameHeader → Type 0
HeaderFits h = Fit (header_fields h)

pub length-encode_header : (h : EgoFrameHeader) → length (encode_header h) ≡ 72
unfolding encode_header
length-encode_header h = length-encode_fields (header_fields h)

-- A header is read back from its bytes, whatever follows them.
pub decode_header-encode_header :
    (h : EgoFrameHeader) (rest : List ℕ)
    → HeaderFits h
    → decode_header (encode_header h ++ rest) ≡ h
unfolding decode_header encode_header
decode_header-encode_header h rest f = λ i. record {
  magic = at 0 (omega arith) i;
  protocol_ver = at 1 (omega arith) i;
  header_size = at 2 (omega arith) i;
  frame_type = at 3 (omega arith) i;
  flags = at 4 (omega arith) i;
  session_id_hi = at 5 (omega arith) i;
  session_id_lo = at 6 (omega arith) i;
  seq = at 7 (omega arith) i;
  t0_ns = at 8 (omega arith) i;
  t1_ns = at 9 (omega arith) i;
  payload_size = at 10 (omega arith) i;
  payload_crc32 = at 11 (omega arith) i;
  header_crc32 = at 12 (omega arith) i;
  reserved0 = at 13 (omega arith) i;
}
  where
    at :
        (i : ℕ) (k : i < 14)
        → field
            (width (header_fields h) i)
            (offset (header_fields h) i)
            (encode_fields (header_fields h) ++ rest)
          ≡ content (header_fields h) i
    at i k = field-encode_fields (header_fields h) i rest k f

-- The struct that is read from 72 bytes or more has the first 72 of them for its bytes.
pub encode_header-decode_header :
    (bytes : List ℕ)
    → 72 ≤ length bytes
    → All IsByte bytes
    → encode_header (decode_header bytes) ≡ take 72 bytes
unfolding decode_header encode_header
encode_header-decode_header bytes h k =
    encode_fields-read_fields (4 ∷ 2 ∷ 2 ∷ 4 ∷ 4 ∷ 8 ∷ 8 ∷ 8 ∷ 8 ∷ 8 ∷ 4 ∷ 4 ∷ 4 ∷ 4 ∷ []) 0 bytes h
      k

-- A header is read from the first 72 bytes only.
pub decode_header-append :
    (bytes rest : List ℕ) → 72 ≤ length bytes → decode_header (bytes ++ rest) ≡ decode_header bytes
unfolding decode_header
decode_header-append bytes rest h = λ i. record {
  magic = field-append 4 0 bytes rest (omega arith) i;
  protocol_ver = field-append 2 4 bytes rest (omega arith) i;
  header_size = field-append 2 6 bytes rest (omega arith) i;
  frame_type = field-append 4 8 bytes rest (omega arith) i;
  flags = field-append 4 12 bytes rest (omega arith) i;
  session_id_hi = field-append 8 16 bytes rest (omega arith) i;
  session_id_lo = field-append 8 24 bytes rest (omega arith) i;
  seq = field-append 8 32 bytes rest (omega arith) i;
  t0_ns = field-append 8 40 bytes rest (omega arith) i;
  t1_ns = field-append 8 48 bytes rest (omega arith) i;
  payload_size = field-append 4 56 bytes rest (omega arith) i;
  payload_crc32 = field-append 4 60 bytes rest (omega arith) i;
  header_crc32 = field-append 4 64 bytes rest (omega arith) i;
  reserved0 = field-append 4 68 bytes rest (omega arith) i;
}
