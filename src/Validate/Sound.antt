-- ===== src/Validate/Sound.antt =====
-- What the scan of the ego stream keeps: its counts, and the range of its times.
use local_pc.Parse.Binary.{
  ok, ParseStatus, bad_magic, bad_version, crc_fail, size_exceeded, truncated, validate,
}
use local_pc.Validate.Types.{
  ego, warning, GapEvent, StreamValidation, ValidatorConfig, audio_block, ego_audio, ego_imu, error,
  file_truncated, gap, telemetry,
}
use local_pc.Common.{
  All, All-append, Bool, Bool-cases, List, Option, [], ap, arith, false, if_both, if◌then◌else◌,
  inc64, inl, inr, is_zero, leb, length, length-append, ltb, ltb_ℤ, none, not, pos, refl, some,
  sub_ℤ, subst, sym, true, ℕ, ℤ, ◌%◌, ◌&&◌, ◌++◌, ◌==◌, ◌^◌, ◌||◌, ◌∙◌, ◌∷◌, ◌≡◌, ◌≢◌, ◌≤ℤ◌, ◌≤◌,
}
use local_pc.Validate.Accounts.{IsAccounted, check_times-IsAccounted, note_invalid-IsAccounted}
use local_pc.Load.Packets.{RawPacket, to_int64}
use local_pc.Validate.Streams.{
  EgoScan, check_audio, check_audio_gap, check_ego_packet, check_imu, check_imu_gap, check_jump,
  check_monotonic, check_times, check_valid, check_zero, ego_handler, extend_range, ms_to_ns,
  note_invalid, with_gap,
}
use local_pc.Wire.Structs.{field}

-- The times of the valid packets lie between the first and the last one.
abbrev pub Within : StreamValidation → ℕ × ℤ → Type 0
Within sv (q, t) = (sv.t_first_ns ≤ℤ t) × (t ≤ℤ sv.t_last_ns)

-- What the checks of the times leave.
check_times_lem :
    (cfg : ValidatorConfig) (s : EgoScan) (ts : ℤ) (sv : StreamValidation)
    → ((check_times cfg s ts sv).packets_valid ≡ inc64 sv.packets_valid)
      × ((check_times cfg s ts sv).t_first_ns
          ≡ (if s.first_pkt || ltb_ℤ ts sv.t_first_ns then ts else sv.t_first_ns))
      × ((check_times cfg s ts sv).t_last_ns ≡ (if ltb_ℤ sv.t_last_ns ts then ts else sv.t_last_ns))
unfolding check_times check_zero check_monotonic check_jump extend_range
check_times_lem cfg s ts sv = ground arith

-- The counts, and the times of the valid packets, which are in `seen`.
pub record IsSound (first_pkt : Bool) (seen : List (ℕ × ℤ)) (sv : StreamValidation) : Type 0 where
  pub accounted : IsAccounted 0 sv
  pub valid : sv.packets_valid ≡ length seen % 2 ^ 64
  pub within : All (Within sv) seen
  pub fresh : first_pkt ≡ true → seen ≡ []

module _ (first_pkt : Bool) (seen : List (ℕ × ℤ)) (sv : StreamValidation)
    (h : IsSound first_pkt seen sv) where
  check_audio_gap-IsSound :
      (cfg : ValidatorConfig) (nominal : ℕ) (prev ts : ℤ)
      → IsSound first_pkt seen (check_audio_gap cfg nominal prev ts sv)
  unfolding check_audio_gap
  check_audio_gap-IsSound cfg nominal prev ts =
      if_both (IsSound first_pkt seen)
        (not (is_zero prev) && ltb 0 nominal && ltb_ℤ (cfg.audio_threshold nominal) (sub_ℤ ts prev))
        _ _
        (record {
          accounted = record {
            total = h.accounted.total;
            events = omega (
              arith,
              h.accounted.events,
              length-append sv.gap_events
                  (gap ts ego_audio audio_block warning (sub_ℤ ts prev) ∷ []),
            );
          };
          valid = h.valid;
          within = h.within;
          fresh = h.fresh;
        })
        h

  check_imu_gap-IsSound :
      (cfg : ValidatorConfig) (prev ts : ℤ) → IsSound first_pkt seen (check_imu_gap cfg prev ts sv)
  unfolding check_imu_gap
  check_imu_gap-IsSound cfg prev ts =
      if_both (IsSound first_pkt seen)
        (not (is_zero prev) && ltb_ℤ (ms_to_ns cfg.telemetry_gap_ms) (sub_ℤ ts prev)) _ _
        (record {
          accounted = record {
            total = h.accounted.total;
            events = omega (
              arith,
              h.accounted.events,
              length-append sv.gap_events (gap ts ego_imu telemetry warning (sub_ℤ ts prev) ∷ []),
            );
          };
          valid = h.valid;
          within = h.within;
          fresh = h.fresh;
        })
        h

-- The same of the variables of the scan, with the first packet behind or not.
abbrev pub Sound : Bool → EgoScan → Type 0
Sound first_pkt s = IsSound first_pkt s.seq_ts_list s.sv

abbrev pub ScanIsSound : EgoScan → Type 0
ScanIsSound s = Sound s.first_pkt s

-- An audio block does not say that its sample rate is zero.
abbrev pub RateFine : RawPacket → Type 0
RateFine raw = raw.header.type ≡ 1 → 10 ≤ length raw.payload → field 4 2 raw.payload ≢ 0

-- There is a result, and it satisfies the predicate.
abbrev pub Gives {ℓ} : {A : Type ℓ} → (A → Type 0) → Option A → Type 0
Gives P none = ⊥
Gives P (some a) = P a

module _ (cfg : ValidatorConfig) (raw : RawPacket) (ts : ℤ) (b : Bool) (s : EgoScan)
    (h : Sound b s) where
  check_audio-Sound : RateFine raw → Gives (Sound b) (check_audio cfg raw ts s)
  unfolding check_audio
  check_audio-Sound fine =
      let is_audio = raw.header.type == 1 && leb 10 (length raw.payload) in
      elim (Bool-cases (not is_audio)) [
        | inl e ↦ rw e h
        | inr e ↦ elim (Bool-cases (field 4 2 raw.payload == 0)) [
          | inl zero_rate ↦ absurd (fine (ground arith) (ground arith) (ground arith))
          | inr z ↦
              rw (e, z) (check_audio_gap-IsSound b s.seq_ts_list s.sv h cfg _ s.prev_audio_ts ts)
        ]
      ]

  check_imu-Sound : Sound b (check_imu cfg raw ts s)
  unfolding check_imu
  check_imu-Sound =
      if_both (Sound b) (raw.header.type == 3) _ _
        (check_imu_gap-IsSound b s.seq_ts_list s.sv h cfg s.prev_imu_ts ts) h

-- Times that were within the range stay within it when it is extended.
Within-extends :
    (sv sv' : StreamValidation) (ts : ℤ) (seen : List (ℕ × ℤ))
    → sv'.t_first_ns ≡ (if ltb_ℤ ts sv.t_first_ns then ts else sv.t_first_ns)
    → sv'.t_last_ns ≡ (if ltb_ℤ sv.t_last_ns ts then ts else sv.t_last_ns)
    → All (Within sv) seen
    → All (Within sv') seen
Within-extends sv sv' ts [] a b h = tt
Within-extends sv sv' ts ((q, t) ∷ seen) a b (hq, h) =
    ((ground arith, ground arith), Within-extends sv sv' ts seen a b h)

-- The range after a packet: it is new, or it is extended.
check_times-Within :
    (cfg : ValidatorConfig) (s : EgoScan) (q : ℕ) (ts : ℤ) (sv : StreamValidation)
    → (s.first_pkt ≡ true → s.seq_ts_list ≡ [])
    → All (Within sv) s.seq_ts_list
    → All (Within (check_times cfg s ts sv)) (s.seq_ts_list ++ (q, ts) ∷ [])
check_times-Within cfg s q ts sv fresh h =
    let (v, first, last) = check_times_lem cfg s ts sv in
    let sv' = check_times cfg s ts sv in
    let new : Within sv' (q, ts) = (ground arith, ground arith) in
    elim (Bool-cases s.first_pkt) [
      | inl e ↦
          subst (λ (l : List (ℕ × ℤ)). All (Within sv') (l ++ (q, ts) ∷ [])) (sym (fresh e))
            (new, tt)
      | inr e ↦
          All-append (Within sv') s.seq_ts_list ((q, ts) ∷ [])
            (Within-extends sv sv' ts s.seq_ts_list
              (first ∙ ap (λ b. if b || ltb_ℤ ts sv.t_first_ns then ts else sv.t_first_ns) e) last
              h)
            (new, tt)
    ]

check_valid-IsSound :
    (cfg : ValidatorConfig) (raw : RawPacket) (s : EgoScan)
    → RateFine raw
    → IsAccounted 1 s.sv
    → s.sv.packets_valid ≡ length s.seq_ts_list % 2 ^ 64
    → All (Within s.sv) s.seq_ts_list
    → (s.first_pkt ≡ true → s.seq_ts_list ≡ [])
    → Gives ScanIsSound (check_valid cfg raw s)
unfolding check_valid
check_valid-IsSound cfg raw s fine acc valid within fresh =
    let ts = to_int64 raw.header.ts_ns in
    let sv' = check_times cfg s ts s.sv in
    let seen = s.seq_ts_list ++ (raw.header.seq, ts) ∷ [] in
    let timed : EgoScan = record s { sv = sv'; seq_ts_list = seen } in
    let h : Sound false timed = record {
      accounted = check_times-IsAccounted cfg s ts s.sv acc;
      valid = omega (
        arith,
        (check_times_lem cfg s ts s.sv).0,
        valid,
        length-append s.seq_ts_list ((raw.header.seq, ts) ∷ []),
      );
      within = check_times-Within cfg s raw.header.seq ts s.sv fresh within;
      fresh = λ e. absurd (cc);
    } in
    finish (check_audio cfg raw ts timed) (check_audio-Sound cfg raw ts false timed h fine)
  where
    finish :
        (o : Option EgoScan)
        → Gives (Sound false) o
        → Gives ScanIsSound (elim o [
          | none ↦ none
          | some heard ↦ some (record (check_imu cfg raw (to_int64 raw.header.ts_ns) heard) {
            prev_ts = to_int64 raw.header.ts_ns;
            first_pkt = false;
          })
        ])
    finish none h = absurd h
    finish (some heard) h =
        let k = check_imu-Sound cfg raw (to_int64 raw.header.ts_ns) false heard h in
        record { accounted = k.accounted; valid = k.valid; within = k.within; fresh = k.fresh }

invalid-IsSound :
    (status : ParseStatus) (g : GapEvent) (s : EgoScan)
    → ScanIsSound s
    → IsAccounted 1 (record s.sv { packets_total = inc64 s.sv.packets_total })
    → ScanIsSound (record s {
      sv =
          with_gap
            (note_invalid status (record s.sv { packets_total = inc64 s.sv.packets_total }))
            g;
    })
unfolding note_invalid
invalid-IsSound crc_fail g s h acc = record {
  accounted = note_invalid-IsAccounted 1 _ acc 0 crc_fail g refl;
  valid = h.valid;
  within = h.within;
  fresh = h.fresh;
}
invalid-IsSound status g s h acc = record {
  accounted = note_invalid-IsAccounted 1 _ acc 0 status g refl;
  valid = h.valid;
  within = h.within;
  fresh = h.fresh;
}

check_ego_packet-IsSound :
    (cfg : ValidatorConfig) (s : EgoScan) (raw : RawPacket)
    → RateFine raw
    → ScanIsSound s
    → Gives ScanIsSound (check_ego_packet cfg s raw)
unfolding check_ego_packet
check_ego_packet-IsSound cfg s raw fine h = go (validate raw).status
  where
    sv : StreamValidation
    sv = record s.sv { packets_total = inc64 s.sv.packets_total }

    acc : IsAccounted 1 sv
    acc = record { total = omega (arith, h.accounted.total); events = h.accounted.events }

    go :
        (status : ParseStatus)
        → Gives ScanIsSound (elim status [
          | ok ↦ check_valid cfg raw (record s { sv = sv })
          | bad ↦ some (record s {
            sv =
                with_gap
                  (note_invalid bad sv)
                  (gap (to_int64 raw.header.ts_ns) ego file_truncated error (pos 0));
          })
        ])
    go ok = check_valid-IsSound cfg raw (record s { sv = sv }) fine acc h.valid h.within h.fresh
    go bad_magic = invalid-IsSound bad_magic _ s h acc
    go bad_version = invalid-IsSound bad_version _ s h acc
    go truncated = invalid-IsSound truncated _ s h acc
    go crc_fail = invalid-IsSound crc_fail _ s h acc
    go size_exceeded = invalid-IsSound size_exceeded _ s h acc

pub ego_handler-IsSound :
    (cfg : ValidatorConfig) (o : Option EgoScan) (raw : RawPacket)
    → RateFine raw
    → Gives ScanIsSound o
    → Gives ScanIsSound (ego_handler cfg o raw).0
unfolding ego_handler
ego_handler-IsSound cfg none raw fine h = absurd h
ego_handler-IsSound cfg (some s) raw fine h = check_ego_packet-IsSound cfg s raw fine h
