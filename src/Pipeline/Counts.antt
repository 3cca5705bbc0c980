-- ===== src/Pipeline/Counts.antt =====
-- What the checks of a packet make of the counts that the accumulator and the validator share.
use local_pc.Common.{
  Bool, ap, false, if_both, if◌then◌else◌, inc32, inc64, is_zero, ltb, ltb_ℤ, not, refl, sub_ℤ,
  true, ℕ, ℤ, ◌&&◌, ◌≡◌,
}
use local_pc.Pipeline.Feed.{count_zero}
use local_pc.Validate.Types.{StreamId, StreamValidation, ValidatorConfig, no_validation}
use local_pc.Validate.Streams.{
  check_audio_gap, check_imu_gap, check_jump, check_monotonic, check_seq_gap, check_zero,
  extend_range, ms_to_ns,
}

-- What the two agree on, packet after packet.
abbrev pub counts : StreamValidation → StreamValidation
counts sv = record no_validation {
  packets_total = sv.packets_total;
  packets_valid = sv.packets_valid;
  timestamp_violations = sv.timestamp_violations;
  monotonic_violations = sv.monotonic_violations;
  audio_gap_count = sv.audio_gap_count;
  telemetry_gap_count = sv.telemetry_gap_count;
  t_first_ns = sv.t_first_ns;
  t_last_ns = sv.t_last_ns;
}

-- The counts of a result depend on nothing but the counts, and the packets lost are left alone.
pub record Blind (f g : StreamValidation → StreamValidation) : Type 0 where
  pub same : (x y : StreamValidation) → counts x ≡ counts y → counts (f x) ≡ counts (g y)
  pub lost_f : (x : StreamValidation) → (f x).packets_lost ≡ x.packets_lost
  pub lost_g : (x : StreamValidation) → (g x).packets_lost ≡ x.packets_lost

if_Blind :
    (b : Bool) (f g : StreamValidation → StreamValidation)
    → Blind f g
    → Blind (λ x. if b then f x else x) (λ x. if b then g x else x)
if_Blind true f g h = h
if_Blind false f g h = record { same = λ x y e. e; lost_f = λ x. refl; lost_g = λ x. refl }

pub check_zero-Blind : (ts : ℤ) → Blind (check_zero ts) (count_zero ts)
unfolding check_zero count_zero
check_zero-Blind ts = if_Blind (is_zero ts) _ _ (record {
  same = λ x y e.
      ap
        (λ (c : StreamValidation). record c { timestamp_violations = inc64 c.timestamp_violations })
        e;
  lost_f = λ x. refl;
  lost_g = λ x. refl;
})

pub check_monotonic-Blind :
    (first : Bool) (prev ts : ℤ)
    → Blind (check_monotonic first prev ts) (check_monotonic first prev ts)
unfolding check_monotonic
check_monotonic-Blind first prev ts = if_Blind (not first && ltb_ℤ ts prev) _ _ (record {
  same = λ x y e.
      ap
        (λ (c : StreamValidation). record c { monotonic_violations = inc64 c.monotonic_violations })
        e;
  lost_f = λ x. refl;
  lost_g = λ x. refl;
})

pub check_jump-Blind :
    (cfg : ValidatorConfig) (first : Bool) (prev ts : ℤ)
    → Blind (check_jump cfg first prev ts) (check_jump cfg first prev ts)
unfolding check_jump
check_jump-Blind cfg first prev ts =
    if_Blind (not first && ltb_ℤ (ms_to_ns cfg.max_timestamp_jump_ms) (sub_ℤ ts prev)) _ _ (record {
      same = λ x y e.
          ap
            (λ (c : StreamValidation). record c {
              timestamp_violations = inc64 c.timestamp_violations;
            })
            e;
      lost_f = λ x. refl;
      lost_g = λ x. refl;
    })

pub extend_range-Blind :
    (first : Bool) (ts : ℤ) → Blind (extend_range first ts) (extend_range first ts)
unfolding extend_range
extend_range-Blind first ts = record {
  same = λ x y e. ap (extend_range first ts) e;
  lost_f = λ x. refl;
  lost_g = λ x. refl;
}

pub check_audio_gap-Blind :
    (cfg : ValidatorConfig) (nominal : ℕ) (prev ts : ℤ)
    → Blind (check_audio_gap cfg nominal prev ts) (check_audio_gap cfg nominal prev ts)
unfolding check_audio_gap
check_audio_gap-Blind cfg nominal prev ts =
    if_Blind
      (not (is_zero prev) && ltb 0 nominal && ltb_ℤ (cfg.audio_threshold nominal) (sub_ℤ ts prev)) _
      _
      (record {
        same = λ x y e.
            ap (λ (c : StreamValidation). record c { audio_gap_count = inc64 c.audio_gap_count }) e;
        lost_f = λ x. refl;
        lost_g = λ x. refl;
      })

pub check_imu_gap-Blind :
    (cfg : ValidatorConfig) (prev ts : ℤ)
    → Blind (check_imu_gap cfg prev ts) (check_imu_gap cfg prev ts)
unfolding check_imu_gap
check_imu_gap-Blind cfg prev ts =
    if_Blind (not (is_zero prev) && ltb_ℤ (ms_to_ns cfg.telemetry_gap_ms) (sub_ℤ ts prev)) _ _
      (record {
        same = λ x y e.
            ap
              (λ (c : StreamValidation). record c {
                telemetry_gap_count = inc64 c.telemetry_gap_count;
              })
              e;
        lost_f = λ x. refl;
        lost_g = λ x. refl;
      })

pub check_seq_gap-counts :
    (id : StreamId) (a b : ℕ × ℤ) (x : StreamValidation)
    → counts (check_seq_gap id a b x) ≡ counts x
unfolding check_seq_gap
check_seq_gap-counts id (m, s) (n, t) x =
    if_both (λ y. counts y ≡ counts x) (ltb (inc32 m) n) _ _ refl refl
