-- ===== src/Service/Track.antt =====
-- `RuntimeService::TrackContractSeq`, and the check of the time gap in `OnContractFrame`.
use local_pc.Common.{
  ℕ, ◌-◌, ◌*◌, Bool, true, false, ◌&&◌, List, [], ◌∷◌, if◌then◌else◌, ltb, leb, inc64, sub64,
}
use local_pc.Service.Diagnostics.{Diagnostics, on_out_of_order, on_seq_gap, on_time_gap}

-- The members of `RuntimeService` that the two look at.
pub record Tracker : Type 0 where
  pub diagnostics : Diagnostics
  pub seq_initialized : Bool
  pub last_seq : ℕ
  pub seen_ts : Bool
  pub last_ts_ns : ℕ

-- As `StartRecording` sets them; the counters are those of the service and go on.
unfoldable pub reset : Tracker → Tracker
reset t = record t { seen_ts = false; last_ts_ns = 0; seq_initialized = false; last_seq = 0 }

unfoldable pub track_contract_seq : Tracker → ℕ → Tracker
unfolding on_out_of_order on_seq_gap
track_contract_seq t seq =
    let d = t.diagnostics in
    if t.seq_initialized
    then (if leb seq t.last_seq then record t { diagnostics = on_out_of_order d } else record t {
      last_seq = seq;
      diagnostics =
          if ltb (inc64 t.last_seq) seq then on_seq_gap d (sub64 (sub64 seq t.last_seq) 1) else d;
    })
    else record t { seq_initialized = true; last_seq = seq }

-- The threshold is in milliseconds; `* 1'000'000ULL` stays within 64 bits for a 32-bit threshold.
unfoldable pub track_time : Tracker → ℕ → ℕ → Tracker
unfolding on_time_gap
track_time t time_gap_threshold_ms t0_ns = record t {
  diagnostics =
      if t.seen_ts
        && (ltb t.last_ts_ns t0_ns
            && ltb (time_gap_threshold_ms * 1_000_000) (t0_ns - t.last_ts_ns))
      then on_time_gap t.diagnostics
      else t.diagnostics;
  last_ts_ns = t0_ns;
  seen_ts = true;
}

unfoldable pub track_all : Tracker → List ℕ → Tracker
track_all t [] = t
track_all t (seq ∷ seqs) = track_all (track_contract_seq t seq) seqs
