-- ===== src/Load/Tests.antt =====
-- A small session read back, and scans of it.
use local_pc.Load.Recorded.{keep, scan-run}
use local_pc.Load.Frames.{of_frame}
use local_pc.Load.Sample.{sample_files, sample_manifest, stored}
use local_pc.Load.Loop.{deliver_packets}
use local_pc.Load.Sources.{IsSource, scan_sources_delivers}
use local_pc.Load.Visits.{packets_of_chunks, scan_visits, visit}
use local_pc.Common.{All, Bool, List, [], ◌∷◌, false, map, refl, some, subst, sym, true, ◌≡◌}
use local_pc.Writer.Chunks.{init}
use local_pc.Writer.Runs.{run}
use local_pc.Frame.Sample.{sample_frame-IsFrame}
use local_pc.Frame.Parse.{IsFrame}
use local_pc.Frame.Header.{decode_header}
use local_pc.Writer.Sample.{calls, calls_write, small_config}
use local_pc.Load.Scan.{
  count_packet, detect_format, fetch_contract, format_of, loop, scan, scan_chunk, scan_chunks,
  scan_contract_chunk, scan_sources, verify_packet_count,
}
use local_pc.Load.Packets.{RawPacket}
use local_pc.Crc.Runtime.{crc32}
use local_pc.Wire.Structs.{field}
use local_pc.Wire.Words.{le_value}

scan-run_example :
    scan sample_files sample_manifest keep []
    ≡ some (map of_frame (run (init small_config 0) calls).1)
scan-run_example =
    scan-run crc32 8192 small_config 0 calls sample_files sample_manifest
      (refl, (refl, (refl, (refl, tt))))
      (subst (λ t. All (IsFrame crc32 8192) t) (sym calls_write)
        (sample_frame-IsFrame, (sample_frame-IsFrame, (sample_frame-IsFrame, tt))))
      stored

counted : verify_packet_count sample_files sample_manifest ≡ some (3, true)
unfolding verify_packet_count scan scan_chunks scan_chunk scan_contract_chunk loop fetch_contract
    format_of detect_format decode_header field le_value count_packet
counted = refl

-- A handler that keeps the first packet of each chunk.
abbrev keep_first : List RawPacket → RawPacket → List RawPacket × Bool
keep_first kept p = (p ∷ kept, false)

scan_visits_example :
    scan sample_files sample_manifest keep_first []
    ≡ some (
        visit keep_first
          (packets_of_chunks sample_files
            (format_of sample_files sample_manifest)
            sample_manifest.chunks)
          [])
scan_visits_example = scan_visits sample_files sample_manifest keep_first []

scan_sources_delivers_example :
    (ps : List RawPacket) × All IsSource ps
    × ((S : Type 0) (handler : S → RawPacket → S × Bool) (s : S)
        → scan_sources handler sample_files sample_manifest.chunks s
          ≡ some (deliver_packets handler ps s).0)
scan_sources_delivers_example = scan_sources_delivers sample_files sample_manifest.chunks
