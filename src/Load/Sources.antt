-- ===== src/Load/Sources.antt =====
-- `SourceLogReader::scan`: all packets of the source.
use local_pc.Common.{
  All, All-append, Bool, Bool-cases, List, Option-cases, [], ap, arith, false, inl, inr, length,
  none, refl, some, suc, sym, true, zero, ℕ, ◌++◌, ◌∙◌, ◌∷◌, ◌≡◌, ◌≤◌,
}
use local_pc.Load.Packets.{ChunkInfo, Files, RawPacket}
use local_pc.Load.Loop.{
  deliver_packets, deliver_packets-keeps, deliver_refuses, deliver_takes, fetch_source-Shrinks,
  loop-packets_in, packets_in,
}
use local_pc.Load.Scan.{fetch_source, packet, scan_source_chunk, scan_sources}

unfoldable pub source_packets_of : List ℕ → ℕ → List RawPacket
source_packets_of bytes chunk_id = packets_in (fetch_source chunk_id) (suc (length bytes)) bytes 0

unfoldable pub source_packets : Files → List ChunkInfo → List RawPacket
source_packets files [] = []
source_packets files (c ∷ chunks) = elim (files c.path) [
  | none ↦ source_packets files chunks
  | some bytes ↦ source_packets_of bytes c.chunk_id ++ source_packets files chunks
]

module _ {ℓ} {S : Type ℓ} (handler : S → RawPacket → S × Bool) where
  scan_source-packets_in :
      (bytes : List ℕ) (chunk_id : ℕ) (s : S)
      → scan_source_chunk handler bytes chunk_id s
        ≡ some (deliver_packets handler (source_packets_of bytes chunk_id) s)
  unfolding scan_source_chunk source_packets_of
  scan_source-packets_in bytes chunk_id s =
      loop-packets_in handler (fetch_source chunk_id) (fetch_source-Shrinks chunk_id) _ bytes 0 s
        (omega arith)

  after : List RawPacket → S × Bool → S
  after qs (s, true) = (deliver_packets handler qs s).0
  after qs (s, false) = s

  after_takes :
      (qs : List RawPacket) (r : S × Bool)
      → r.1 ≡ true
      → after qs r ≡ (deliver_packets handler qs r.0).0
  unfolding after
  after_takes qs (s, true) e = refl
  after_takes qs (s, false) e = absurd (cc)

  after_refuses : (qs : List RawPacket) (r : S × Bool) → r.1 ≡ false → after qs r ≡ r.0
  unfolding after
  after_refuses qs (s, true) e = absurd (cc)
  after_refuses qs (s, false) e = refl

  deliver_packets-append :
      (ps qs : List RawPacket) (s : S)
      → (deliver_packets handler (ps ++ qs) s).0 ≡ after qs (deliver_packets handler ps s)
  deliver_packets-append [] qs s = unfold after in refl
  deliver_packets-append (p ∷ ps) qs s = elim (Bool-cases (handler s p).1) [
    | inl takes ↦
        rw (deliver_takes handler p (ps ++ qs) s takes, deliver_takes handler p ps s takes)
          (deliver_packets-append ps qs (handler s p).0)
    | inr refuses ↦
        rw (deliver_refuses handler p (ps ++ qs) s refuses, deliver_refuses handler p ps s refuses)
          (unfold after in refl)
  ]

  pub scan_sources-deliver_packets :
      (files : Files) (chunks : List ChunkInfo) (s : S)
      → scan_sources handler files chunks s
        ≡ some (deliver_packets handler (source_packets files chunks) s).0
  unfolding scan_sources source_packets
  scan_sources-deliver_packets files [] s = refl
  scan_sources-deliver_packets files (c ∷ chunks) s = elim (Option-cases (files c.path)) [
    | inl e ↦ rw (e, scan_sources, source_packets) (scan_sources-deliver_packets files chunks s)
    | inr (bytes, e) ↦
        let ps = source_packets_of bytes c.chunk_id in
        rw (e, scan_sources, source_packets, scan_source-packets_in bytes c.chunk_id s)
          (elim (Bool-cases (deliver_packets handler ps s).1) [
            | inl takes ↦ rw takes (
                scan_sources-deliver_packets files chunks (deliver_packets handler ps s).0
                ∙ ap some (
                    sym (
                      deliver_packets-append ps (source_packets files chunks) s
                      ∙ after_takes (source_packets files chunks) (deliver_packets handler ps s)
                          takes)))
            | inr refuses ↦ rw refuses (
                ap some (
                  sym (
                    deliver_packets-append ps (source_packets files chunks) s
                    ∙ after_refuses (source_packets files chunks) (deliver_packets handler ps s)
                        refuses)))
          ])
  ]

-- The packets that a scan of the source hands on are of the types 101 to 199.
abbrev pub IsSource : RawPacket → Type 0
IsSource p = (101 ≤ p.header.type) × (p.header.type ≤ 199)

fetch_source-IsSource :
    (chunk_id : ℕ) (bytes : List ℕ) (offset : ℕ) (p : RawPacket) (rest : List ℕ) (next : ℕ)
    → fetch_source chunk_id bytes offset ≡ packet p rest next
    → IsSource p
unfolding fetch_source
fetch_source-IsSource chunk_id bytes offset p rest next e = ground arith

packets_in-IsSource :
    (chunk_id fuel : ℕ) (bytes : List ℕ) (offset : ℕ)
    → All IsSource (packets_in (fetch_source chunk_id) fuel bytes offset)
unfolding packets_in
packets_in-IsSource chunk_id zero bytes offset = tt
packets_in-IsSource chunk_id (suc fuel) bytes offset =
    elim (fetch_source-Shrinks chunk_id bytes offset) [
      | inl e ↦ rw (e, packets_in) tt
      | inr (inl (rest, next, e, less)) ↦
          rw (e, packets_in) (packets_in-IsSource chunk_id fuel rest next)
      | inr (inr (p, rest, next, e, less)) ↦
          rw (e, packets_in)
            (
              fetch_source-IsSource chunk_id bytes offset p rest next e,
              packets_in-IsSource chunk_id fuel rest next,
            )
    ]

source_packets-IsSource :
    (files : Files) (chunks : List ChunkInfo) → All IsSource (source_packets files chunks)
unfolding source_packets source_packets_of
source_packets-IsSource files [] = tt
source_packets-IsSource files (c ∷ chunks) = elim (Option-cases (files c.path)) [
  | inl e ↦ rw (e, source_packets) (source_packets-IsSource files chunks)
  | inr (bytes, e) ↦
      rw (e, source_packets)
        (All-append IsSource _ _ (packets_in-IsSource c.chunk_id _ bytes 0)
          (source_packets-IsSource files chunks))
]

-- Whatever the files hold, the scan of a source ends, and its packets do not depend on the handler:
-- they are of the types 101 to 199, and the handler gets them in order up to the first that it
-- refuses, which ends the scan.
pub scan_sources_delivers :
    (files : Files) (chunks : List ChunkInfo)
    → (ps : List RawPacket) × All IsSource ps
      × ((S : Type 0) (handler : S → RawPacket → S × Bool) (s : S)
          → scan_sources handler files chunks s ≡ some (deliver_packets handler ps s).0)
scan_sources_delivers files chunks = (
  source_packets files chunks,
  source_packets-IsSource files chunks,
  λ S handler s. scan_sources-deliver_packets handler files chunks s,
)

module _ {ℓ κ} {S : Type ℓ} (P : S → Type κ) (Fine : RawPacket → Type 0)
    (handler : S → RawPacket → S × Bool)
    (keeps : (s : S) (p : RawPacket) → Fine p → P s → P (handler s p).0) where
  pub scan_sources-keeps :
      (files : Files) (chunks : List ChunkInfo) (s : S)
      → All Fine (source_packets files chunks)
      → P s
      → (s' : S) × (scan_sources handler files chunks s ≡ some s') × P s'
  scan_sources-keeps files chunks s f h = (
    (deliver_packets handler (source_packets files chunks) s).0,
    scan_sources-deliver_packets handler files chunks s,
    deliver_packets-keeps P Fine handler keeps (source_packets files chunks) s f h,
  )
