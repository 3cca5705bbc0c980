-- ===== src/Load/Frames.antt =====
-- Frames back to back, as a scan of a chunk reads them.
use local_pc.Common.{
  ==_iff, All, List, [], ap, arith, drop, drop-append, false, length, length-append, length-drop,
  ltb, map, not, refl, some, suc, sym, take, take-append, zero, ℕ, ◌++◌, ◌+◌, ◌<◌, ◌==◌, ◌||◌, ◌∙◌,
  ◌∷◌, ◌≡◌, ◌≢◌, ◌≤◌,
}
use local_pc.Wire.Structs.{field}
use local_pc.Frame.Layout.{decode_header-append}
use local_pc.Frame.Parse.{IsShaped}
use local_pc.Frame.Round.{concat}
use local_pc.Frame.Header.{EgoFrameHeader, decode_header, frame_magic}
use local_pc.Load.Loop.{packets_in, packets_in_break, packets_in_packet}
use local_pc.Load.Visits.{packets_of}
use local_pc.Load.Scan.{
  Format, contract, contract_packet, detect_format, fetch_contract, fetch_legacy, legacy, packet,
  unknown,
}
use local_pc.Load.Packets.{RawPacket}
use local_pc.Wire.Words.{le_value}
use mathlib.Core.List.{append-nil}
use local_pc.Wire.Structs.{drop-append_le}

contract_packet-append :
    (f rest : List ℕ) (chunk_id offset : ℕ)
    → decode_header (f ++ rest) ≡ decode_header f
    → take (decode_header f).payload_size (drop 72 (f ++ rest))
      ≡ take (decode_header f).payload_size (drop 72 f)
    → contract_packet (f ++ rest) chunk_id offset ≡ contract_packet f chunk_id offset
unfolding contract_packet
contract_packet-append f rest chunk_id offset e p = simp (e, p)

pub take_all : (n : ℕ) (xs : List ℕ) → n ≡ length xs → take n xs ≡ xs
take_all n xs e = ap (take n) (sym (append-nil xs)) ∙ take-append n xs [] e

fetch_contract-eq_packet :
    (bytes : List ℕ) (chunk_id offset : ℕ)
    → 72 ≤ length bytes
    → (decode_header bytes).magic ≡ frame_magic
    → (decode_header bytes).payload_size ≤ length (drop 72 bytes)
    → fetch_contract chunk_id bytes offset
      ≡ packet
          (contract_packet bytes chunk_id offset)
          (drop (decode_header bytes).payload_size (drop 72 bytes))
          (offset + 72 + (decode_header bytes).payload_size)
unfolding fetch_contract
fetch_contract-eq_packet bytes chunk_id offset l m p = rw (here, room)
  where
    here : (ltb (length bytes) 72 || not ((decode_header bytes).magic == frame_magic)) ≡ false
    here = ground arith

    room : ltb (length (drop 72 bytes)) (decode_header bytes).payload_size ≡ false
    room = ground arith

-- A frame that stands in front is fetched as it is.
fetch_contract_front :
    (max chunk_id offset : ℕ) (f rest : List ℕ)
    → IsShaped max f
    → fetch_contract chunk_id (f ++ rest) offset
      ≡ packet (contract_packet f chunk_id offset) rest (offset + length f)
fetch_contract_front max chunk_id offset f rest s =
    fetch_contract-eq_packet (f ++ rest) chunk_id offset
      (omega (arith, s.long, length-append f rest)) (rw header s.magic)
      (rw (header, payload) (omega (arith, size, length-append (drop 72 f) rest)))
    ∙ λ i. packet (contract_packet-append f rest chunk_id offset header cut i) (behind i) (next i)
  where
    header : decode_header (f ++ rest) ≡ decode_header f
    header = decode_header-append f rest s.long

    payload : drop 72 (f ++ rest) ≡ drop 72 f ++ rest
    payload = drop-append_le 72 f rest s.long

    size : (decode_header f).payload_size ≡ length (drop 72 f)
    size = omega (arith, s.exact, length-drop 72 f)

    cut :
        take (decode_header f).payload_size (drop 72 (f ++ rest))
        ≡ take (decode_header f).payload_size (drop 72 f)
    cut = rw payload (take-append _ (drop 72 f) rest size) ∙ sym (take_all _ (drop 72 f) size)

    behind : drop (decode_header (f ++ rest)).payload_size (drop 72 (f ++ rest)) ≡ rest
    behind = rw (header, payload) (drop-append _ (drop 72 f) rest size)

    next : offset + 72 + (decode_header (f ++ rest)).payload_size ≡ offset + length f
    next = rw header (omega (arith, s.exact))

-- The packets of frames back to back.
unfoldable pub frames_at : ℕ → ℕ → List (List ℕ) → List RawPacket
frames_at chunk_id offset [] = []
frames_at chunk_id offset (f ∷ fs) =
    contract_packet f chunk_id offset ∷ frames_at chunk_id (offset + length f) fs

packets_in-concat :
    (max chunk_id : ℕ) (fs : List (List ℕ)) (fuel offset : ℕ)
    → All (IsShaped max) fs
    → length (concat fs) < fuel
    → packets_in (fetch_contract chunk_id) fuel (concat fs) offset ≡ frames_at chunk_id offset fs
unfolding frames_at
packets_in-concat max chunk_id fs zero offset h k = absurd (omega arith)
packets_in-concat max chunk_id [] (suc fuel) offset h k =
    packets_in_break _ fuel [] offset (unfold fetch_contract in refl)
packets_in-concat max chunk_id (f ∷ fs) (suc fuel) offset (hf, hfs) k =
    packets_in_packet _ fuel (f ++ concat fs) (concat fs) offset (offset + length f) _
      (fetch_contract_front max chunk_id offset f (concat fs) hf)
    ∙ ap (λ t. contract_packet f chunk_id offset ∷ t)
        (packets_in-concat max chunk_id fs fuel (offset + length f) hfs
          (omega (arith, hf.long, length-append f (concat fs))))

-- What a frame shows in its packet: the header and the payload.
abbrev pub shown : RawPacket → EgoFrameHeader × List ℕ
shown p = (p.contract_header, p.payload)

abbrev pub of_frame : List ℕ → EgoFrameHeader × List ℕ
of_frame f = (decode_header f, drop 72 f)

shown-frames_at :
    (max chunk_id : ℕ) (fs : List (List ℕ)) (offset : ℕ)
    → All (IsShaped max) fs
    → map shown (frames_at chunk_id offset fs) ≡ map of_frame fs
unfolding frames_at contract_packet
shown-frames_at max chunk_id [] offset h = refl
shown-frames_at max chunk_id (f ∷ fs) offset (hf, hfs) = λ i.
    (
      decode_header f,
      take_all (decode_header f).payload_size (drop 72 f)
          (omega (arith, hf.exact, length-drop 72 f)) i,
    )
    ∷ shown-frames_at max chunk_id fs (offset + length f) hfs i

magic_at : (bytes : List ℕ) → field 4 0 bytes ≡ (decode_header bytes).magic
unfolding decode_header
magic_at bytes = refl

-- The format of a chunk of frames, if there are any.
pub detect_format_frame :
    (max : ℕ) (f rest : List ℕ) → IsShaped max f → detect_format (some (f ++ rest)) ≡ contract
unfolding detect_format
detect_format_frame max f rest s = rw ((==_iff _ _).1 magic)
  where
    magic : field 4 0 (f ++ rest) ≡ frame_magic
    magic =
        magic_at (f ++ rest)
        ∙ ap (λ (h : EgoFrameHeader). h.magic) (decode_header-append f rest s.long)
        ∙ s.magic

-- The packets of a chunk of frames, in a reader whose format is not the other one.
pub packets_of-concat :
    (max chunk_id : ℕ) (format : Format) (fs : List (List ℕ))
    → format ≢ legacy
    → All (IsShaped max) fs
    → packets_of format (concat fs) chunk_id ≡ frames_at chunk_id 0 fs
unfolding packets_of
packets_of-concat max chunk_id legacy fs n h = absurd (n refl)
packets_of-concat max chunk_id contract fs n h =
    packets_in-concat max chunk_id fs _ 0 h (omega arith)
packets_of-concat max chunk_id unknown [] n h =
    unfold packets_in fetch_legacy detect_format field le_value frames_at in refl
packets_of-concat max chunk_id unknown (f ∷ fs) n (hf, hfs) =
    rw (detect_format_frame max f (concat fs) hf, packets_of)
      (packets_in-concat max chunk_id (f ∷ fs) _ 0 (hf, hfs) (omega arith))

pub shown-packets_of :
    (max chunk_id : ℕ) (format : Format) (fs : List (List ℕ))
    → format ≢ legacy
    → All (IsShaped max) fs
    → map shown (packets_of format (concat fs) chunk_id) ≡ map of_frame fs
shown-packets_of max chunk_id format fs n h =
    ap (map shown) (packets_of-concat max chunk_id format fs n h)
    ∙ shown-frames_at max chunk_id fs 0 h
