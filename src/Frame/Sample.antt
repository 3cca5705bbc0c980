-- ===== src/Frame/Sample.antt =====
-- A frame to run the definitions on, with the checksum of the runtime side.
use local_pc.Common.{ℕ, ◌≡◌, refl, List, [], ◌∷◌, ◌++◌}
use local_pc.Crc.Runtime.{crc32}
use local_pc.Frame.Header.{EgoFrameHeader, encode_header}
use local_pc.Wire.{encode_fields, le_bytes, field, le_value}
use local_pc.Frame.Header.{decode_header}
use local_pc.Crc.Runtime.{crc_loop, crc_byte, crc_bits, crc_bit}
use local_pc.Frame.Io.{validate_contract_frame, payload_matches, header_matches}
use local_pc.Frame.Parse.{IsFrame}

abbrev pub sample_payload : List ℕ
sample_payload = 1 ∷ 2 ∷ 3 ∷ 4 ∷ 5 ∷ []

-- A header with the checksums left out.
abbrev plain_header : EgoFrameHeader
plain_header = record {
  magic = 0x314F4745;
  protocol_ver = 2;
  header_size = 72;
  frame_type = 101;
  flags = 2;
  session_id_hi = 7;
  session_id_lo = 8;
  seq = 41;
  t0_ns = 1000;
  t1_ns = 2000;
  payload_size = 5;
  payload_crc32 = 0x470B99F4;
  header_crc32 = 0;
  reserved0 = 0;
}

abbrev pub sample_header : EgoFrameHeader
sample_header = record plain_header { header_crc32 = 0xDD899F5E }

payload_sum : crc32 sample_payload ≡ 0x470B99F4
unfolding crc32 crc_loop crc_byte crc_bits crc_bit
payload_sum = refl

header_sum : crc32 (encode_header plain_header) ≡ 0xDD899F5E
unfolding crc32 crc_loop crc_byte crc_bits crc_bit encode_header encode_fields le_bytes
header_sum = refl

abbrev pub sample_frame : List ℕ
sample_frame =
    69 ∷ 71 ∷ 79 ∷ 49 ∷ 2 ∷ 0 ∷ 72 ∷ 0 ∷ 101 ∷ 0 ∷ 0 ∷ 0 ∷ 2 ∷ 0 ∷ 0 ∷ 0 ∷ 7 ∷ 0 ∷ 0 ∷ 0 ∷ 0 ∷ 0 ∷ 0
    ∷ 0 ∷ 8 ∷ 0 ∷ 0 ∷ 0 ∷ 0 ∷ 0 ∷ 0 ∷ 0 ∷ 41 ∷ 0 ∷ 0 ∷ 0 ∷ 0 ∷ 0 ∷ 0 ∷ 0 ∷ 232 ∷ 3 ∷ 0 ∷ 0 ∷ 0 ∷ 0
    ∷ 0 ∷ 0 ∷ 208 ∷ 7 ∷ 0 ∷ 0 ∷ 0 ∷ 0 ∷ 0 ∷ 0 ∷ 5 ∷ 0 ∷ 0 ∷ 0 ∷ 244 ∷ 153 ∷ 11 ∷ 71 ∷ 94 ∷ 159 ∷ 137
    ∷ 221 ∷ 0 ∷ 0 ∷ 0 ∷ 0 ∷ 1 ∷ 2 ∷ 3 ∷ 4 ∷ 5 ∷ []

sample_frame-encode_header : sample_frame ≡ encode_header sample_header ++ sample_payload
unfolding encode_header encode_fields le_bytes
sample_frame-encode_header = refl

pub sample_frame-IsFrame : IsFrame crc32 8192 sample_frame
unfolding validate_contract_frame payload_matches header_matches decode_header field le_value
    encode_header encode_fields le_bytes crc32 crc_loop crc_byte crc_bits crc_bit
sample_frame-IsFrame = refl
