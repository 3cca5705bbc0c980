-- ===== src/Client/Tests.antt =====
-- Two frames that arrive in three segments.
use local_pc.Common.{ℕ, ◌≡◌, refl, arith, true, false, none, some, List, [], ◌∷◌, ◌++◌, take, drop}
use local_pc.Crc.Runtime.{crc32, crc_loop, crc_byte, crc_bits, crc_bit}
use local_pc.Wire.{field, le_value}
use local_pc.Frame.Header.{decode_header}
use local_pc.Frame.Sample.{sample_frame, sample_frame-IsFrame}
use local_pc.Client.Receive.{ContractTcpClient, receive_loop, read_header_failed}
use local_pc.Client.Deliver.{IsSent, receive_loop-concat}

abbrev keep : List (List ℕ) → List ℕ → List (List ℕ)
keep seen f = seen ++ f ∷ []

abbrev client : ContractTcpClient (List (List ℕ))
client = record {
  socket =
      take 30 sample_frame
      ∷ (drop 30 sample_frame ++ take 75 sample_frame)
      ∷ drop 75 sample_frame
      ∷ [];
  state = [];
  frames_received = 0;
  last_error = none;
  running = true;
}

sample-IsSent : IsSent crc32 8192 sample_frame
unfolding decode_header field le_value crc32 crc_loop crc_byte crc_bits crc_bit
sample-IsSent = record { frame = sample_frame-IsFrame; payload = refl }

receive_loop-concat_example : receive_loop crc32 8192 keep 4 client ≡ record {
  socket = [];
  state = sample_frame ∷ sample_frame ∷ [];
  frames_received = 2;
  last_error = some read_header_failed;
  running = false;
}
receive_loop-concat_example =
    receive_loop-concat crc32 8192 keep (sample_frame ∷ sample_frame ∷ []) 1 client
      (sample-IsSent, (sample-IsSent, tt)) (omega arith, (omega arith, (omega arith, tt))) refl
      (omega arith)
