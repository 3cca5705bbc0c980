-- ===== src/Client/Receive.antt =====
-- `ReadExact` and `ReceiveLoop`. A socket is the list of the segments that `recv` finds, each of which it
-- returns as far as it was asked for; `recv` fails at an empty segment and at the end of the list.
-- Connecting and closing the socket is not modelled.
use local_pc.Common.{
  ℕ, zero, suc, ◌-◌, Bool, false, ◌||◌, not, Option, some, List, [], ◌∷◌, ◌++◌, length, take, drop,
  ltb, ◌==◌, if◌then◌else◌, inc64,
}
use local_pc.Frame.Header.{frame_magic, frame_header_size, decode_header}
use local_pc.Frame.Io.{header_matches}

-- What `ReadExact` has read, and the socket then; or the socket when it returned `false`.
pub data Read : Type 0 where
  got : List ℕ → List (List ℕ) → Read
  closed : List (List ℕ) → Read

-- The rest of a segment stays in the socket.
unfoldable pub put_back : List ℕ → List (List ℕ) → List (List ℕ)
put_back [] socket = socket
put_back (x ∷ xs) socket = (x ∷ xs) ∷ socket

-- Bytes read in front of what is read later.
unfoldable pub behind : List ℕ → Read → Read
behind bytes (got more socket) = got (bytes ++ more) socket
behind bytes (closed socket) = closed socket

-- The loop of `ReadExact`, with the count of bytes that are missing: one `recv` for each segment.
unfoldable pub read_exact : List (List ℕ) → ℕ → Read
unfolding put_back behind
read_exact [] size = if size == 0 then got [] [] else closed []
read_exact (segment ∷ socket) size =
    let more = read_exact socket (size - length segment) in
    if size == 0
    then got [] (segment ∷ socket)
    else if length segment == 0
    then closed socket
    else if ltb (length segment) size
    then behind segment more
    else got (take size segment) (put_back (drop size segment) socket)

-- The texts of `last_error_`.
pub data ClientError : Type 0 where
  read_header_failed bad_frame_header payload_too_large : ClientError
  read_payload_failed payload_crc_mismatch header_crc_mismatch : ClientError

-- A round of the loop: a frame for the handler, or an error that leaves the loop.
pub data Received : Type 0 where
  received : List ℕ → List (List ℕ) → Received
  failed : ClientError → List (List ℕ) → Received

pub record ContractTcpClient {ℓ} (S : Type ℓ) : Type ℓ where
  pub socket : List (List ℕ)
  -- What the handler works on.
  pub state : S
  pub frames_received : ℕ
  pub last_error : Option ClientError
  pub running : Bool

module _ (crc32 : List ℕ → ℕ) (max_payload_bytes : ℕ) where
  -- The checks of a payload that has been read.
  unfoldable pub check_payload : List ℕ → List ℕ → List (List ℕ) → Received
  check_payload header_bytes payload socket =
      let header = decode_header header_bytes in
      if not (crc32 payload == header.payload_crc32)
      then failed payload_crc_mismatch socket
      else if not (header_matches crc32 header)
      then failed header_crc_mismatch socket
      else received (header_bytes ++ payload) socket

  -- The reading of the payload that a header announces.
  unfoldable pub read_payload : List ℕ → List (List ℕ) → Received
  unfolding read_exact check_payload
  read_payload header_bytes socket =
      let header = decode_header header_bytes in
      if not (header.magic == frame_magic) || not (header.header_size == frame_header_size)
      then failed bad_frame_header socket
      else if ltb max_payload_bytes header.payload_size
      then failed payload_too_large socket
      else elim (read_exact socket header.payload_size) [
        | closed rest ↦ failed read_payload_failed rest
        | got payload rest ↦ check_payload header_bytes payload rest
      ]

  unfoldable pub receive_frame : List (List ℕ) → Received
  unfolding read_exact read_payload
  receive_frame socket = elim (read_exact socket frame_header_size) [
    | closed rest ↦ failed read_header_failed rest
    | got header_bytes rest ↦ read_payload header_bytes rest
  ]

  module _ {ℓ} {S : Type ℓ} (handler : S → List ℕ → S) where
    -- `ReceiveLoop` up to the round in which it finds that a stop was requested.
    unfoldable pub receive_loop : ℕ → ContractTcpClient S → ContractTcpClient S
    receive_loop zero c = record c { running = false }
    receive_loop (suc rounds) c = elim (receive_frame c.socket) [
      | failed e rest ↦ record c { socket = rest; last_error = some e; running = false }
      | received frame rest ↦ receive_loop rounds (record c {
        socket = rest;
        state = handler c.state frame;
        frames_received = inc64 c.frames_received;
      })
    ]
