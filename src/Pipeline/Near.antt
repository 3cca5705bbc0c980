-- ===== src/Pipeline/Near.antt =====
-- States of the accumulator and of the validator that are close, and the checks that keep them so.
use local_pc.Common.{
  Bool, Bool-cases, List, Option, [], ap, false, if◌then◌else◌, inl, inr, leb, length, none, not,
  refl, some, sym, true, ℕ, ℤ, ◌%◌, ◌&&◌, ◌*◌, ◌++◌, ◌/◌, ◌==◌, ◌^◌, ◌∙◌, ◌∷◌, ◌≡◌, ◌⊎◌,
}
use local_pc.Pipeline.Feed.{ScanAccumulator, feed_audio, feed_imu, feed_seq}
use local_pc.Pipeline.Losses.{check_seq_gap_lost, lost_over, lost_over-snoc, lost_step}
use local_pc.Pipeline.Counts.{
  Blind, check_audio_gap-Blind, check_imu_gap-Blind, check_seq_gap-counts, counts,
}
use local_pc.Load.Packets.{RawPacket}
use local_pc.Validate.Types.{StreamId, StreamValidation, ValidatorConfig}
use local_pc.Validate.Streams.{EgoScan, check_audio, check_audio_gap, check_imu, check_imu_gap}
use local_pc.Wire.Structs.{field}

-- States of the two with the same variables, counts that agree, and losses that will.
pub data Close : List (ℕ × ℤ) → EgoScan → ScanAccumulator → Type 0 where
  close :
      (seen : List (ℕ × ℤ)) (first : Bool) (prev audio imu : ℤ) (nominal prev_seq : ℕ)
      (sv sv' : StreamValidation)
      → counts sv ≡ counts sv'
      → sv'.packets_lost ≡ lost_over seen sv.packets_lost
      → Close seen
          (record {
            sv = sv;
            first_pkt = first;
            prev_ts = prev;
            prev_audio_ts = audio;
            nominal_audio_period_ns = nominal;
            prev_imu_ts = imu;
            seq_ts_list = seen;
          })
          (record {
            sv = sv';
            first = first;
            prev_ts = prev;
            prev_audio_ts = audio;
            prev_imu_ts = imu;
            nominal_audio_period_ns = nominal;
            prev_seq = prev_seq;
          })

-- The accumulator knows the last of the sequence numbers that the validator has kept.
abbrev pub KnowsLast : List (ℕ × ℤ) → ScanAccumulator → Type 0
KnowsLast seen a =
    ((a.first ≡ true) × (seen ≡ []))
    ⊎ ((a.first ≡ false) × ((l : List (ℕ × ℤ)) × (seen ≡ l ++ (a.prev_seq, a.prev_ts) ∷ [])))

abbrev pub Agrees : EgoScan → ScanAccumulator → Type 0
Agrees s a = (seen : List (ℕ × ℤ)) × Close seen s a × KnowsLast seen a

pub Close-seen :
    {seen : List (ℕ × ℤ)} {s : EgoScan} {a : ScanAccumulator}
    → Close seen s a
    → s.seq_ts_list ≡ seen
Close-seen (close seen first prev audio imu nominal prev_seq sv sv' e k) = refl

-- Both crash, or neither does.
abbrev pub Alike {ℓ} : {A : Type ℓ} {B : Type ℓ} → (A → B → Type 0) → Option A → Option B → Type 0
Alike R none none = Unit {0}
Alike R none (some b) = ⊥
Alike R (some a) none = ⊥
Alike R (some a) (some b) = R a b

pub Blind-compose :
    (f g f' g' : StreamValidation → StreamValidation)
    → Blind f g
    → Blind f' g'
    → Blind (λ x. f' (f x)) (λ x. g' (g x))
Blind-compose f g f' g' h k = record {
  same = λ x y e. k.same (f x) (g y) (h.same x y e);
  lost_f = λ x. k.lost_f (f x) ∙ h.lost_f x;
  lost_g = λ x. k.lost_g (g x) ∙ h.lost_g x;
}

pub Blind-Close :
    (f g : StreamValidation → StreamValidation) (seen : List (ℕ × ℤ)) (sv sv' : StreamValidation)
    → Blind f g
    → counts sv ≡ counts sv'
    → sv'.packets_lost ≡ lost_over seen sv.packets_lost
    → (counts (f sv) ≡ counts (g sv')) × ((g sv').packets_lost ≡ lost_over seen (f sv).packets_lost)
Blind-Close f g seen sv sv' h e k =
    (h.same sv sv' e, h.lost_g sv' ∙ k ∙ ap (lost_over seen) (sym (h.lost_f sv)))

pub check_audio-Close :
    (cfg : ValidatorConfig) (raw : RawPacket) (ts : ℤ) (seen : List (ℕ × ℤ)) (s : EgoScan)
    (a : ScanAccumulator)
    → Close seen s a
    → Alike (Close seen) (check_audio cfg raw ts s) (feed_audio cfg raw ts a)
unfolding check_audio feed_audio
check_audio-Close cfg raw ts seen _ _ (close _ first prev audio imu nominal prev_seq sv sv' e k) =
    let period = field 4 6 raw.payload * 1_000_000_000 / field 4 2 raw.payload in
    let nominal' = if nominal == 0 then period % 2 ^ 32 else nominal in
    let gap' = check_audio_gap cfg nominal' audio ts in
    let (e', k') =
      Blind-Close gap' gap' seen sv sv' (check_audio_gap-Blind cfg nominal' audio ts) e k in
    elim (Bool-cases (not (raw.header.type == 1 && leb 10 (length raw.payload)))) [
      | inl other ↦ rw other (close seen first prev audio imu nominal prev_seq sv sv' e k)
      | inr is_audio ↦ elim (Bool-cases (field 4 2 raw.payload == 0)) [
        | inl zero_rate ↦ rw (is_audio, zero_rate) tt
        | inr rate ↦
            rw (is_audio, rate)
              (close seen first prev ts imu nominal' prev_seq (gap' sv) (gap' sv') e' k')
      ]
    ]

pub check_imu-Close :
    (cfg : ValidatorConfig) (raw : RawPacket) (ts : ℤ) (seen : List (ℕ × ℤ)) (s : EgoScan)
    (a : ScanAccumulator)
    → Close seen s a
    → Close seen (check_imu cfg raw ts s) (feed_imu cfg raw ts a)
unfolding check_imu feed_imu
check_imu-Close cfg raw ts seen _ _ (close _ first prev audio imu nominal prev_seq sv sv' e k) =
    let gap' = check_imu_gap cfg imu ts in
    let (e', k') = Blind-Close gap' gap' seen sv sv' (check_imu_gap-Blind cfg imu ts) e k in
    elim (Bool-cases (raw.header.type == 3)) [
      | inl is_imu ↦
          rw is_imu (close seen first prev audio ts nominal prev_seq (gap' sv) (gap' sv') e' k')
      | inr other ↦ rw other (close seen first prev audio imu nominal prev_seq sv sv' e k)
    ]

-- The sequence number: the losses go on from those before.
pub seq-Close :
    (n : ℕ) (ts : ℤ) (seen : List (ℕ × ℤ)) (a : ScanAccumulator) (sv sv' : StreamValidation)
    → KnowsLast seen a
    → sv'.packets_lost ≡ lost_over seen sv.packets_lost
    → (feed_seq a.first (a.prev_seq, a.prev_ts) (n, ts) sv').packets_lost
      ≡ lost_over (seen ++ (n, ts) ∷ []) sv.packets_lost
unfolding feed_seq
seq-Close n ts seen a sv sv' (inl (fresh, none_seen)) k =
    rw (fresh, none_seen) (k ∙ ap (λ l. lost_over l sv.packets_lost) none_seen)
seq-Close n ts seen a sv sv' (inr (later, (l, e))) k =
    let last : ℕ × ℤ = (a.prev_seq, a.prev_ts) in
    rw later (
      check_seq_gap_lost StreamId.ego last (n, ts) sv'
      ∙ ap (lost_step last (n, ts)) (k ∙ ap (λ t. lost_over t sv.packets_lost) e)
      ∙ sym (lost_over-snoc l last (n, ts) sv.packets_lost)
      ∙ ap (λ t. lost_over (t ++ (n, ts) ∷ []) sv.packets_lost) (sym e))

pub feed_seq-counts :
    (first : Bool) (a b : ℕ × ℤ) (x : StreamValidation) → counts (feed_seq first a b x) ≡ counts x
unfolding feed_seq
feed_seq-counts true a b x = refl
feed_seq-counts false a b x = check_seq_gap-counts StreamId.ego a b x
