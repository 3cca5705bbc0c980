-- ===== src/Load/Loop.antt =====
-- The loops of the scans: they end, and give the handler the packets of a chunk.
use local_pc.Common.{
  All, Bool, Bool-cases, List, [], arith, drop, false, inl, inr, length, length-drop, ltb, not,
  some, suc, true, zero, ℕ, ◌+◌, ◌<◌, ◌==◌, ◌||◌, ◌∙◌, ◌∷◌, ◌≡◌, ◌≤◌, ◌⊎◌,
}
use local_pc.Frame.Header.{decode_header, frame_magic}
use local_pc.Load.Scan.{contract_packet, fetch_legacy, fetch_source, legacy_packet, loop}
use local_pc.Load.Packets.{RawPacket, decode_packet_header, k_magic}
use local_pc.Load.Scan.{fetch_contract, Fetched, break, skip, packet}

-- What is left behind a packet is less than what there was.
abbrev pub Shrinks : (List ℕ → ℕ → Fetched) → Type 0
Shrinks fetch =
    (bytes : List ℕ) (offset : ℕ)
    → (fetch bytes offset ≡ break)
      ⊎ ((rest : List ℕ) × (next : ℕ) × (fetch bytes offset ≡ skip rest next)
          × (length rest < length bytes))
      ⊎ ((p : RawPacket) × (rest : List ℕ) × (next : ℕ) × (fetch bytes offset ≡ packet p rest next)
          × (length rest < length bytes))

behind-lt :
    (n m : ℕ) (bytes : List ℕ)
    → 0 < n
    → n ≤ length bytes
    → length (drop m (drop n bytes)) < length bytes
behind-lt n m bytes h k = omega (arith, length-drop m (drop n bytes), length-drop n bytes)

pub fetch_contract-Shrinks : (chunk_id : ℕ) → Shrinks (fetch_contract chunk_id)
unfolding fetch_contract
fetch_contract-Shrinks chunk_id bytes offset =
    let hdr = decode_header bytes in
    elim (Bool-cases (ltb (length bytes) 72 || not (hdr.magic == frame_magic))) [
      | inl e ↦ inl (rw e)
      | inr e ↦ elim (Bool-cases (ltb (length (drop 72 bytes)) hdr.payload_size)) [
        | inl short ↦ inl (rw (e, short))
        | inr full ↦ inr (
            inr (
              contract_packet bytes chunk_id offset,
              drop hdr.payload_size (drop 72 bytes),
              offset + 72 + hdr.payload_size,
              rw (e, full),
              behind-lt 72 hdr.payload_size bytes (omega arith) (ground arith),
            ))
      ]
    ]

pub fetch_legacy-Shrinks : (chunk_id : ℕ) → Shrinks (fetch_legacy chunk_id)
unfolding fetch_legacy
fetch_legacy-Shrinks chunk_id bytes offset =
    let hdr = decode_packet_header bytes in
    elim (Bool-cases (ltb (length bytes) 34 || not (hdr.magic == k_magic))) [
      | inl e ↦ inl (rw e)
      | inr e ↦ elim (Bool-cases (ltb (length (drop 34 bytes)) hdr.payload_size)) [
        | inl short ↦ inl (rw (e, short))
        | inr full ↦ inr (
            inr (
              legacy_packet hdr (drop 34 bytes) chunk_id offset,
              drop hdr.payload_size (drop 34 bytes),
              offset + 34 + hdr.payload_size,
              rw (e, full),
              behind-lt 34 hdr.payload_size bytes (omega arith) (ground arith),
            ))
      ]
    ]

pub fetch_source-Shrinks : (chunk_id : ℕ) → Shrinks (fetch_source chunk_id)
unfolding fetch_source
fetch_source-Shrinks chunk_id bytes offset =
    let hdr = decode_packet_header bytes in
    let less = λ (h : ltb (length bytes) 34 || not (hdr.magic == k_magic) ≡ false).
      behind-lt 34 hdr.payload_size bytes (omega arith) (ground arith) in
    elim (Bool-cases (ltb (length bytes) 34 || not (hdr.magic == k_magic))) [
      | inl e ↦ inl (rw e)
      | inr e ↦ elim (Bool-cases (ltb hdr.type 101 || ltb 199 hdr.type)) [
        | inl other ↦ inr (
            inl (
              drop hdr.payload_size (drop 34 bytes),
              offset + 34 + hdr.payload_size,
              rw (e, other),
              less e,
            ))
        | inr source ↦ elim (Bool-cases (ltb (length (drop 34 bytes)) hdr.payload_size)) [
          | inl short ↦ inl (rw (e, source, short))
          | inr full ↦ inr (
              inr (
                legacy_packet hdr (drop 34 bytes) chunk_id offset,
                drop hdr.payload_size (drop 34 bytes),
                offset + 34 + hdr.payload_size,
                rw (e, source, full),
                less e,
              ))
        ]
      ]
    ]

-- The handler on packet after packet, until it refuses one.
abbrev pub deliver_packets {ℓ} :
    {S : Type ℓ} → (S → RawPacket → S × Bool) → List RawPacket → S → S × Bool
deliver_packets handler [] s = (s, true)
deliver_packets handler (p ∷ ps) s =
    let (s', go_on) = handler s p in
    elim go_on [ true ↦ deliver_packets handler ps s' | false ↦ (s', false) ]

-- The packets that a loop reads, on fuel.
unfoldable pub packets_in : (List ℕ → ℕ → Fetched) → ℕ → List ℕ → ℕ → List RawPacket
packets_in fetch zero bytes offset = []
packets_in fetch (suc fuel) bytes offset = elim (fetch bytes offset) [
  | break ↦ []
  | skip rest next ↦ packets_in fetch fuel rest next
  | packet p rest next ↦ p ∷ packets_in fetch fuel rest next
]

module _ (fetch : List ℕ → ℕ → Fetched) where
  pub packets_in_break :
      (fuel : ℕ) (bytes : List ℕ) (offset : ℕ)
      → fetch bytes offset ≡ break
      → packets_in fetch (suc fuel) bytes offset ≡ []
  unfolding packets_in
  packets_in_break fuel bytes offset e = rw (e, packets_in)

  packets_in-skip :
      (fuel : ℕ) (bytes rest : List ℕ) (offset next : ℕ)
      → fetch bytes offset ≡ skip rest next
      → packets_in fetch (suc fuel) bytes offset ≡ packets_in fetch fuel rest next
  unfolding packets_in
  packets_in-skip fuel bytes rest offset next e = rw (e, packets_in)

  pub packets_in_packet :
      (fuel : ℕ) (bytes rest : List ℕ) (offset next : ℕ) (p : RawPacket)
      → fetch bytes offset ≡ packet p rest next
      → packets_in fetch (suc fuel) bytes offset ≡ p ∷ packets_in fetch fuel rest next
  unfolding packets_in
  packets_in_packet fuel bytes rest offset next p e = rw (e, packets_in)

module _ {ℓ} {S : Type ℓ} (handler : S → RawPacket → S × Bool) (fetch : List ℕ → ℕ → Fetched) where
  loop_break :
      (fuel : ℕ) (bytes : List ℕ) (offset : ℕ) (s : S)
      → fetch bytes offset ≡ break
      → loop handler fetch (suc fuel) bytes offset s ≡ some (s, true)
  unfolding loop
  loop_break fuel bytes offset s e = rw (e, loop)

  loop-skip :
      (fuel : ℕ) (bytes rest : List ℕ) (offset next : ℕ) (s : S)
      → fetch bytes offset ≡ skip rest next
      → loop handler fetch (suc fuel) bytes offset s ≡ loop handler fetch fuel rest next s
  unfolding loop
  loop-skip fuel bytes rest offset next s e = rw (e, loop)

  loop_packet :
      (fuel : ℕ) (bytes rest : List ℕ) (offset next : ℕ) (s : S) (p : RawPacket)
      (ps : List RawPacket)
      → fetch bytes offset ≡ packet p rest next
      → ((t : S) → loop handler fetch fuel rest next t ≡ some (deliver_packets handler ps t))
      → loop handler fetch (suc fuel) bytes offset s ≡ some (deliver_packets handler (p ∷ ps) s)
  unfolding loop
  loop_packet fuel bytes rest offset next s p ps e same = elim (Bool-cases (handler s p).1) [
    | inl takes ↦ rw (e, loop) (rw (takes, deliver_packets) (same (handler s p).0))
    | inr refuses ↦ rw (e, loop) (rw (refuses, deliver_packets))
  ]

  -- The handler gets the packets of the chunk, whichever it is, and the loop ends.
  pub loop-packets_in :
      Shrinks fetch
      → (fuel : ℕ) (bytes : List ℕ) (offset : ℕ) (s : S) → length bytes < fuel
      → loop handler fetch fuel bytes offset s
        ≡ some (deliver_packets handler (packets_in fetch fuel bytes offset) s)
  loop-packets_in shrinks zero bytes offset s h = absurd (omega arith)
  loop-packets_in shrinks (suc fuel) bytes offset s h = elim (shrinks bytes offset) [
    | inl e ↦ rw (packets_in_break fetch fuel bytes offset e) (loop_break fuel bytes offset s e)
    | inr (inl (rest, next, e, less)) ↦ rw (packets_in-skip fetch fuel bytes rest offset next e) (
        loop-skip fuel bytes rest offset next s e
        ∙ loop-packets_in shrinks fuel rest next s (omega arith))
    | inr (inr (p, rest, next, e, less)) ↦
        rw (packets_in_packet fetch fuel bytes rest offset next p e) (
          loop_packet fuel bytes rest offset next s p (packets_in fetch fuel rest next) e
            (λ t. loop-packets_in shrinks fuel rest next t (omega arith)))
  ]

module _ {ℓ} {S : Type ℓ} (handler : S → RawPacket → S × Bool) where
  pub deliver_takes :
      (p : RawPacket) (ps : List RawPacket) (s : S)
      → (handler s p).1 ≡ true
      → deliver_packets handler (p ∷ ps) s ≡ deliver_packets handler ps (handler s p).0
  deliver_takes p ps s e = rw (e, deliver_packets)

  pub deliver_refuses :
      (p : RawPacket) (ps : List RawPacket) (s : S)
      → (handler s p).1 ≡ false
      → deliver_packets handler (p ∷ ps) s ≡ ((handler s p).0, false)
  deliver_refuses p ps s e = rw (e, deliver_packets)

module _ {ℓ κ} {S : Type ℓ} (P : S → Type κ) (Fine : RawPacket → Type 0)
    (handler : S → RawPacket → S × Bool)
    (keeps : (s : S) (p : RawPacket) → Fine p → P s → P (handler s p).0) where
  pub deliver_packets-keeps :
      (ps : List RawPacket) (s : S) → All Fine ps → P s → P (deliver_packets handler ps s).0
  deliver_packets-keeps [] s f h = h
  deliver_packets-keeps (p ∷ ps) s (f, fs) h = elim (Bool-cases (handler s p).1) [
    | inl takes ↦
        rw (deliver_takes handler p ps s takes)
          (deliver_packets-keeps ps (handler s p).0 fs (keeps s p f h))
    | inr refuses ↦ rw (deliver_refuses handler p ps s refuses) (keeps s p f h)
  ]
