-- ===== src/Validate/Accounts.antt =====
-- The counts of a stream against its packets and its events.
use local_pc.Validate.Types.{ego, warning}
use local_pc.Common.{
  Bool, [], arith, if_both, inc64, is_zero, length, length-append, ltb_ℤ, not, pos, sub_ℤ, suc, ℕ,
  ℤ, ◌%◌, ◌&&◌, ◌+◌, ◌^◌, ◌∷◌, ◌≡◌,
}
use local_pc.Validate.Types.{GapEvent, StreamValidation, ValidatorConfig, error, gap, timestamp}
use local_pc.Parse.Binary.{ParseStatus, crc_fail}
use local_pc.Validate.Streams.{
  EgoScan, check_jump, check_monotonic, check_times, check_zero, extend_range, ms_to_ns,
  note_invalid, with_gap,
}

-- Every count has its event, and every packet is counted, except for `pending` ones.
pub record IsAccounted (pending : ℕ) (sv : StreamValidation) : Type 0 where
  pub total : sv.packets_total ≡ (sv.packets_valid + sv.packets_lost + pending) % 2 ^ 64
  pub events :
      length sv.gap_events % 2 ^ 64
      ≡ (sv.packets_lost + sv.timestamp_violations + sv.monotonic_violations + sv.audio_gap_count
          + sv.telemetry_gap_count)
        % 2 ^ 64

module _ (n : ℕ) (sv : StreamValidation) (h : IsAccounted n sv) where
  check_zero-IsAccounted : (ts : ℤ) → IsAccounted n (check_zero ts sv)
  unfolding check_zero
  check_zero-IsAccounted ts =
      if_both (IsAccounted n) (is_zero ts) _ _
        (record {
          total = h.total;
          events = omega (
            arith,
            h.events,
            length-append sv.gap_events (gap ts ego timestamp error (pos 0) ∷ []),
          );
        })
        h

  check_monotonic-IsAccounted :
      (first : Bool) (prev ts : ℤ) → IsAccounted n (check_monotonic first prev ts sv)
  unfolding check_monotonic
  check_monotonic-IsAccounted first prev ts =
      if_both (IsAccounted n) (not first && ltb_ℤ ts prev) _ _
        (record {
          total = h.total;
          events = omega (
            arith,
            h.events,
            length-append sv.gap_events (gap ts ego timestamp warning (sub_ℤ prev ts) ∷ []),
          );
        })
        h

  check_jump-IsAccounted :
      (cfg : ValidatorConfig) (first : Bool) (prev ts : ℤ)
      → IsAccounted n (check_jump cfg first prev ts sv)
  unfolding check_jump
  check_jump-IsAccounted cfg first prev ts =
      if_both (IsAccounted n)
        (not first && ltb_ℤ (ms_to_ns cfg.max_timestamp_jump_ms) (sub_ℤ ts prev)) _ _
        (record {
          total = h.total;
          events = omega (
            arith,
            h.events,
            length-append sv.gap_events (gap ts ego timestamp warning (sub_ℤ ts prev) ∷ []),
          );
        })
        h

  extend_range-IsAccounted : (first : Bool) (ts : ℤ) → IsAccounted n (extend_range first ts sv)
  unfolding extend_range
  extend_range-IsAccounted first ts = record { total = h.total; events = h.events }

  -- A packet that is pending is counted as lost, with its event.
  pub note_invalid-IsAccounted :
      (m : ℕ) (status : ParseStatus) (g : GapEvent)
      → n ≡ suc m
      → IsAccounted m (with_gap (note_invalid status sv) g)
  unfolding note_invalid
  note_invalid-IsAccounted m crc_fail g e = record {
    total = omega (arith, h.total);
    events = omega (arith, h.events, length-append sv.gap_events (g ∷ []));
  }
  note_invalid-IsAccounted m _ g e = record {
    total = omega (arith, h.total);
    events = omega (arith, h.events, length-append sv.gap_events (g ∷ []));
  }

pub check_times-IsAccounted :
    (cfg : ValidatorConfig) (s : EgoScan) (ts : ℤ) (sv : StreamValidation)
    → IsAccounted 1 sv
    → IsAccounted 0 (check_times cfg s ts sv)
unfolding check_times
check_times-IsAccounted cfg s ts sv h =
    let counted : IsAccounted 0 (record sv { packets_valid = inc64 sv.packets_valid }) = record {
      total = omega (arith, h.total);
      events = h.events;
    } in
    extend_range-IsAccounted 0 _
      (check_jump-IsAccounted 0 _
        (check_monotonic-IsAccounted 0 _ (check_zero-IsAccounted 0 _ counted ts) s.first_pkt
          s.prev_ts ts)
        cfg s.first_pkt s.prev_ts ts)
      s.first_pkt ts
