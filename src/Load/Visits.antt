-- ===== src/Load/Visits.antt =====
-- `EgoLogReader::scan`: chunk after chunk.
use local_pc.Common.{
  All, Bool, List, Option-cases, [], arith, inl, inr, length, none, refl, some, suc, ℕ, ◌∷◌, ◌≡◌,
  ◌⊎◌,
}
use local_pc.Load.Packets.{ChunkInfo, Files, Manifest, RawPacket}
use local_pc.Load.Loop.{
  deliver_packets, deliver_packets-keeps, fetch_contract-Shrinks, fetch_legacy-Shrinks,
  loop-packets_in, packets_in,
}
use local_pc.Load.Scan.{
  Format, contract, detect_format, fetch_contract, fetch_legacy, format_of, legacy, scan,
  scan_chunk, scan_chunks, scan_contract_chunk, scan_legacy_chunk, unknown,
}

Format-cases : (f : Format) → (f ≡ contract) ⊎ (f ≡ legacy) ⊎ (f ≡ unknown)
Format-cases contract = inl refl
Format-cases legacy = inr (inl refl)
Format-cases unknown = inr (inr refl)

-- The packets of a chunk, by its format.
unfoldable pub packets_of : Format → List ℕ → ℕ → List RawPacket
packets_of contract bytes chunk_id =
    packets_in (fetch_contract chunk_id) (suc (length bytes)) bytes 0
packets_of legacy bytes chunk_id = packets_in (fetch_legacy chunk_id) (suc (length bytes)) bytes 0
packets_of unknown bytes chunk_id = elim (detect_format (some bytes)) [
  | contract ↦ packets_in (fetch_contract chunk_id) (suc (length bytes)) bytes 0
  | _ ↦ packets_in (fetch_legacy chunk_id) (suc (length bytes)) bytes 0
]

-- The packets of each chunk that can be opened.
unfoldable pub packets_of_chunks : Files → Format → List ChunkInfo → List (List RawPacket)
packets_of_chunks files format [] = []
packets_of_chunks files format (c ∷ chunks) = elim (files c.path) [
  | none ↦ packets_of_chunks files format chunks
  | some bytes ↦ packets_of format bytes c.chunk_id ∷ packets_of_chunks files format chunks
]

-- Chunk after chunk: a refusal passes over the rest of its own chunk, and the next one is visited from
-- the state that the handler has left.
abbrev pub visit {ℓ} : {S : Type ℓ} → (S → RawPacket → S × Bool) → List (List RawPacket) → S → S
visit handler [] s = s
visit handler (ps ∷ pss) s = visit handler pss (deliver_packets handler ps s).0

module _ {ℓ} {S : Type ℓ} (handler : S → RawPacket → S × Bool) where
  scan_contract-packets_in :
      (bytes : List ℕ) (chunk_id : ℕ) (s : S)
      → scan_contract_chunk handler bytes chunk_id s
        ≡ some (deliver_packets handler (packets_of contract bytes chunk_id) s)
  unfolding scan_contract_chunk packets_of
  scan_contract-packets_in bytes chunk_id s =
      loop-packets_in handler (fetch_contract chunk_id) (fetch_contract-Shrinks chunk_id) _ bytes 0
        s (omega arith)

  scan_legacy-packets_in :
      (bytes : List ℕ) (chunk_id : ℕ) (s : S)
      → scan_legacy_chunk handler bytes chunk_id s
        ≡ some (deliver_packets handler (packets_of legacy bytes chunk_id) s)
  unfolding scan_legacy_chunk packets_of
  scan_legacy-packets_in bytes chunk_id s =
      loop-packets_in handler (fetch_legacy chunk_id) (fetch_legacy-Shrinks chunk_id) _ bytes 0 s
        (omega arith)

  scan_chunk-packets_of :
      (format : Format) (bytes : List ℕ) (chunk_id : ℕ) (s : S)
      → scan_chunk handler format bytes chunk_id s
        ≡ some (deliver_packets handler (packets_of format bytes chunk_id) s)
  unfolding packets_of scan_chunk
  scan_chunk-packets_of contract bytes chunk_id s = scan_contract-packets_in bytes chunk_id s
  scan_chunk-packets_of legacy bytes chunk_id s = scan_legacy-packets_in bytes chunk_id s
  scan_chunk-packets_of unknown bytes chunk_id s =
      elim (Format-cases (detect_format (some bytes))) [
        | inl e ↦ rw (e, scan_chunk, packets_of) (scan_contract-packets_in bytes chunk_id s)
        | inr (inl e) ↦ rw (e, scan_chunk, packets_of) (scan_legacy-packets_in bytes chunk_id s)
        | inr (inr e) ↦ rw (e, scan_chunk, packets_of) (scan_legacy-packets_in bytes chunk_id s)
      ]

  pub scan_chunks-visit :
      (files : Files) (format : Format) (chunks : List ChunkInfo) (s : S)
      → scan_chunks handler files format chunks s
        ≡ some (visit handler (packets_of_chunks files format chunks) s)
  unfolding scan_chunks packets_of_chunks
  scan_chunks-visit files format [] s = refl
  scan_chunks-visit files format (c ∷ chunks) s = elim (Option-cases (files c.path)) [
    | inl e ↦ rw (e, scan_chunks, packets_of_chunks) (scan_chunks-visit files format chunks s)
    | inr (bytes, e) ↦
        rw (e, scan_chunks, packets_of_chunks, scan_chunk-packets_of format bytes c.chunk_id s)
          (scan_chunks-visit files format chunks
            (deliver_packets handler (packets_of format bytes c.chunk_id) s).0)
  ]

-- Whatever the files hold, the scan of a session ends: the handler gets the packets of the chunks that
-- can be opened, chunk after chunk and in order. A refusal passes over the rest of its own chunk only:
-- the scan goes on with the next one.
pub scan_visits {ℓ} :
    {S : Type ℓ}
    → (files : Files) (m : Manifest) (handler : S → RawPacket → S × Bool) (s : S)
    → scan files m handler s
      ≡ some (visit handler (packets_of_chunks files (format_of files m) m.chunks) s)
unfolding scan
scan_visits files m handler s = scan_chunks-visit handler files (format_of files m) m.chunks s

module _ {ℓ κ} {S : Type ℓ} (P : S → Type κ) (Fine : RawPacket → Type 0)
    (handler : S → RawPacket → S × Bool)
    (keeps : (s : S) (p : RawPacket) → Fine p → P s → P (handler s p).0) where
  pub visit-keeps :
      (chunks : List (List RawPacket)) (s : S)
      → All (All Fine) chunks
      → P s
      → P (visit handler chunks s)
  visit-keeps [] s f h = h
  visit-keeps (ps ∷ chunks) s (f, fs) h =
      visit-keeps chunks _ fs (deliver_packets-keeps P Fine handler keeps ps s f h)

  -- What a handler keeps on the packets of the files, a scan keeps.
  pub scan-keeps :
      (files : Files) (m : Manifest) (s : S)
      → All (All Fine) (packets_of_chunks files (format_of files m) m.chunks)
      → P s
      → (s' : S) × (scan files m handler s ≡ some s') × P s'
  unfolding scan
  scan-keeps files m s f h = (
    visit handler (packets_of_chunks files (format_of files m) m.chunks) s,
    scan_chunks-visit handler files (format_of files m) m.chunks s,
    visit-keeps (packets_of_chunks files (format_of files m) m.chunks) s f h,
  )
