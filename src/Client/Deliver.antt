-- ===== src/Client/Deliver.antt =====
-- The client delivers the frames of the stream, however the stream arrives.
use local_pc.Common.{
  length-drop, ℕ, suc, ◌+◌, ◌%◌, ◌^◌, ◌≤◌, ◌<◌, ◌≡◌, sym, ap, ◌∙◌, arith, true, false, some, List,
  [], ◌∷◌, ◌++◌, length, take, drop, length-append, length-take, take-append, drop-append,
  take-append-drop, All, inc64,
}
use local_pc.Frame.Header.{EgoFrameHeader, frame_magic, decode_header}
use local_pc.Wire.Structs.{drop-append_le}
use local_pc.Frame.Layout.{decode_header-append}
use local_pc.Frame.Io.{header_matches, validate_contract_frame}
use local_pc.Frame.Parse.{IsFrame, IsFrame-IsShaped}
use local_pc.Frame.Round.{concat}
use local_pc.Client.Receive.{
  got, read_exact, received, failed, check_payload, read_payload, receive_frame, receive_loop,
  ContractTcpClient, read_header_failed,
}
use local_pc.Client.Segments.{take_within, IsOpen, read_exact-HasRead, no_bytes}

-- The frames that the client takes: those of `ValidateContractFrame` whose checksum of the payload is
-- right even when there is no payload, which `ValidateContractFrame` does not ask.
pub record IsSent (crc32 : List ℕ → ℕ) (max : ℕ) (f : List ℕ) : Type 0 where
  pub frame : IsFrame crc32 max f
  pub payload : crc32 (drop 72 f) ≡ (decode_header f).payload_crc32

frame-header_matches :
    (crc32 : List ℕ → ℕ) (max : ℕ) (f : List ℕ)
    → IsFrame crc32 max f
    → header_matches crc32 (decode_header f) ≡ true
unfolding validate_contract_frame
frame-header_matches crc32 max f h = ground arith

module _ (crc32 : List ℕ → ℕ) (max : ℕ) where
  front_header : (f : List ℕ) → 72 ≤ length f → decode_header (take 72 f) ≡ decode_header f
  front_header f h =
      sym (decode_header-append (take 72 f) (drop 72 f) (omega (arith, length-take 72 f)))
      ∙ ap decode_header (take-append-drop 72 f)

  check_good :
      (header_bytes payload : List ℕ) (socket : List (List ℕ))
      → crc32 payload ≡ (decode_header header_bytes).payload_crc32
      → header_matches crc32 (decode_header header_bytes) ≡ true
      → check_payload crc32 max header_bytes payload socket
        ≡ received (header_bytes ++ payload) socket
  unfolding check_payload
  check_good header_bytes payload socket p h = ground arith

  -- The payload that was read passes the checks.
  check_sent :
      (f payload : List ℕ) (socket : List (List ℕ))
      → IsSent crc32 max f
      → payload ≡ drop 72 f
      → check_payload crc32 max (take 72 f) payload socket ≡ received f socket
  check_sent f payload socket s e =
      let same = front_header f (IsFrame-IsShaped crc32 max f s.frame).long in
      check_good (take 72 f) payload socket
        (ap crc32 e ∙ s.payload ∙ sym (ap (λ (t : EgoFrameHeader). t.payload_crc32) same))
        (ap (λ t. header_matches crc32 t) same ∙ frame-header_matches crc32 max f s.frame)
      ∙ ap (λ t. received t socket) (ap (λ t. take 72 f ++ t) e ∙ take-append-drop 72 f)

  receive_header :
      (socket rest : List (List ℕ)) (header_bytes : List ℕ)
      → read_exact socket 72 ≡ got header_bytes rest
      → receive_frame crc32 max socket ≡ read_payload crc32 max header_bytes rest
  unfolding receive_frame
  receive_header socket rest header_bytes e = ground arith

  receive_payload :
      (header_bytes payload : List ℕ) (socket rest : List (List ℕ))
      → (decode_header header_bytes).magic ≡ frame_magic
      → (decode_header header_bytes).header_size ≡ 72
      → (decode_header header_bytes).payload_size ≤ max
      → read_exact socket (decode_header header_bytes).payload_size ≡ got payload rest
      → read_payload crc32 max header_bytes socket
        ≡ check_payload crc32 max header_bytes payload rest
  unfolding read_payload
  receive_payload header_bytes payload socket rest m z l e = ground arith

  -- A header whose payload lies in front in the socket.
  receive_rest :
      (f rest : List ℕ) (socket : List (List ℕ))
      → IsSent crc32 max f
      → IsOpen socket
      → concat socket ≡ drop 72 f ++ rest
      → (socket' : List (List ℕ)) × (read_payload crc32 max (take 72 f) socket ≡ received f socket')
        × IsOpen socket'
        × (concat socket' ≡ rest)
  receive_rest f rest socket s o e =
      let shaped = IsFrame-IsShaped crc32 max f s.frame in
      let same = front_header f shaped.long in
      let size : (decode_header (take 72 f)).payload_size ≡ length (drop 72 f) =
        ap (λ (t : EgoFrameHeader). t.payload_size) same
        ∙ omega (arith, shaped.exact, length-drop 72 f) in
      let r =
        read_exact-HasRead socket (decode_header (take 72 f)).payload_size o
          (omega (arith, size, length-append (drop 72 f) rest, ap (λ (t : List ℕ). length t) e)) in
      (
        r.rest,
        receive_payload (take 72 f) (take (decode_header (take 72 f)).payload_size (concat socket))
              socket r.rest (ap (λ (t : EgoFrameHeader). t.magic) same ∙ shaped.magic)
              (ap (λ (t : EgoFrameHeader). t.header_size) same ∙ shaped.size)
              (omega (arith, shaped.bounded, ap (λ (t : EgoFrameHeader). t.payload_size) same))
              r.result
            ∙ check_sent f _ r.rest s (
                ap (take (decode_header (take 72 f)).payload_size) e
                ∙ take-append _ (drop 72 f) rest size),
        r.open_still,
        r.left
            ∙ ap (drop (decode_header (take 72 f)).payload_size) e
            ∙ drop-append _ (drop 72 f) rest size,
      )

  -- What `receive_frame` does with a socket that holds a frame and more.
  receive_sent :
      (f rest : List ℕ) (socket : List (List ℕ))
      → IsSent crc32 max f
      → IsOpen socket
      → concat socket ≡ f ++ rest
      → (socket' : List (List ℕ)) × (receive_frame crc32 max socket ≡ received f socket')
        × IsOpen socket'
        × (concat socket' ≡ rest)
  receive_sent f rest socket s o e =
      let shaped = IsFrame-IsShaped crc32 max f s.frame in
      let r =
        read_exact-HasRead socket 72 o
          (omega (arith, shaped.long, length-append f rest, ap (λ (t : List ℕ). length t) e)) in
      let (socket', given, still, left) =
        receive_rest f rest r.rest s r.open_still
          (r.left ∙ ap (drop 72) e ∙ drop-append_le 72 f rest shaped.long) in
      (
        socket',
        receive_header socket r.rest (take 72 f) (
              r.result
              ∙ ap (λ t. got t r.rest) (ap (take 72) e ∙ take_within 72 f rest shaped.long))
            ∙ given,
        still,
        left,
      )

  module _ {ℓ} {S : Type ℓ} (handler : S → List ℕ → S) where
    -- The handler on frame after frame.
    abbrev pub handle_all : S → List (List ℕ) → S
    handle_all s [] = s
    handle_all s (f ∷ fs) = handle_all (handler s f) fs

    loop_goes_on :
        (rounds : ℕ) (c : ContractTcpClient S) (f : List ℕ) (socket : List (List ℕ))
        → receive_frame crc32 max c.socket ≡ received f socket
        → receive_loop crc32 max handler (suc rounds) c
          ≡ receive_loop crc32 max handler rounds (record c {
            socket = socket;
            state = handler c.state f;
            frames_received = inc64 c.frames_received;
          })
    unfolding receive_loop
    loop_goes_on rounds c f socket e =
        ap
          (λ t. elim t [
            | failed x rest ↦ record c { socket = rest; last_error = some x; running = false }
            | received frame rest ↦ receive_loop crc32 max handler rounds (record c {
              socket = rest;
              state = handler c.state frame;
              frames_received = inc64 c.frames_received;
            })
          ])
          e

    loop_ends :
        (rounds : ℕ) (c : ContractTcpClient S)
        → c.socket ≡ []
        → receive_loop crc32 max handler (suc rounds) c
          ≡ record c { socket = []; last_error = some read_header_failed; running = false }
    unfolding receive_loop receive_frame read_exact
    loop_ends rounds c e =
        ap
          (λ t. elim (receive_frame crc32 max t) [
            | failed x rest ↦ record c { socket = rest; last_error = some x; running = false }
            | received frame rest ↦ receive_loop crc32 max handler rounds (record c {
              socket = rest;
              state = handler c.state frame;
              frames_received = inc64 c.frames_received;
            })
          ])
          e

    -- However an open connection cuts the bytes into segments: if they are frames back to back that
    -- the client takes, and no stop is requested before the end of the stream, the loop gives the
    -- handler exactly these frames in their order, counts them modulo 2 ^ 64, has read everything,
    -- and ends with the error of a header that could not be read.
    pub receive_loop-concat :
        (fs : List (List ℕ)) (more : ℕ) (c : ContractTcpClient S)
        → All (IsSent crc32 max) fs
        → IsOpen c.socket
        → concat c.socket ≡ concat fs
        → c.frames_received < 2 ^ 64
        → receive_loop crc32 max handler (length fs + suc more) c ≡ record {
          socket = [];
          state = handle_all c.state fs;
          frames_received = (c.frames_received + length fs) % 2 ^ 64;
          last_error = some read_header_failed;
          running = false;
        }
    receive_loop-concat [] more c s o e n =
        ap (λ t. receive_loop crc32 max handler t c) (omega arith)
        ∙ loop_ends more c (no_bytes c.socket o e)
        ∙ λ i. record {
          socket = [];
          state = c.state;
          frames_received = small i;
          last_error = some read_header_failed;
          running = false;
        }
      where
        small : c.frames_received ≡ (c.frames_received + 0) % 2 ^ 64
        small = omega arith
    receive_loop-concat (f ∷ fs) more c (sf, s) o e n =
        let (socket, given, still, left) = receive_sent f (concat fs) c.socket sf o e in
        ap (λ t. receive_loop crc32 max handler t c) (omega arith)
        ∙ loop_goes_on (length fs + suc more) c f socket given
        ∙ receive_loop-concat fs more _ s still left (omega arith)
        ∙ λ i. record {
          socket = [];
          state = handle_all (handler c.state f) fs;
          frames_received = counted i;
          last_error = some read_header_failed;
          running = false;
        }
      where
        counted :
            (inc64 c.frames_received + length fs) % 2 ^ 64
            ≡ (c.frames_received + length (f ∷ fs)) % 2 ^ 64
        counted = omega arith
