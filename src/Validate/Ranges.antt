-- ===== src/Validate/Ranges.antt =====
-- `LogValidator::extract_valid_ranges` and `compute_integrity`. The comparisons of durations with
-- `min_valid_duration_s` are on floating point, so they are parameters.
use local_pc.Validate.Types.{GapSeverity}
use local_pc.Common.{
  Bool, List, [], false, if◌then◌else◌, leb_ℤ, ltb, ltb_ℤ, max_ℤ, min_ℤ, not, true, ℤ, ◌++◌, ◌||◌,
  ◌∷◌,
}
use local_pc.Validate.Types.{GapEvent, StreamValidation}

pub data Stream : Type 0 where
  ego source both : Stream

-- The reason is never set.
pub record TimeRange : Type 0 where
  pub t_start_ns : ℤ
  pub t_end_ns : ℤ
  pub stream : Stream

abbrev pub range : ℤ → ℤ → Stream → TimeRange
range t_start t_end stream = record { t_start_ns = t_start; t_end_ns = t_end; stream = stream }

unfoldable pub is_error : GapEvent → Bool
is_error g = elim g.severity [ GapSeverity.error ↦ true | _ ↦ false ]

-- The times of the events that are errors.
unfoldable pub error_times : List GapEvent → List ℤ
unfolding is_error
error_times [] = []
error_times (g ∷ gs) = if is_error g then g.t_ns ∷ error_times gs else error_times gs

-- `std::sort` on times.
unfoldable pub insert_time : ℤ → List ℤ → List ℤ
insert_time t [] = t ∷ []
insert_time t (u ∷ us) = if leb_ℤ t u then t ∷ u ∷ us else u ∷ insert_time t us

unfoldable pub sort_times : List ℤ → List ℤ
sort_times [] = []
sort_times (t ∷ ts) = insert_time t (sort_times ts)

module _ (long_enough : ℤ → ℤ → Bool) where
  abbrev pub kept : TimeRange → List TimeRange → List TimeRange
  kept r rest = if long_enough r.t_start_ns r.t_end_ns then r ∷ rest else rest

  -- The loop over the breakpoints, and the final segment.
  unfoldable pub split_at : Stream → ℤ → List ℤ → ℤ → List TimeRange
  split_at s cur_start [] t_last = kept (range cur_start t_last s) []
  split_at s cur_start (bp ∷ breaks) t_last =
      let rest = split_at s (max_ℤ cur_start bp) breaks t_last in
      if leb_ℤ bp cur_start then rest else kept (range cur_start bp s) rest

  unfoldable pub build_ranges : StreamValidation → Stream → List TimeRange
  build_ranges sv s =
      if not sv.file_ok || leb_ℤ sv.t_last_ns sv.t_first_ns
      then []
      else split_at s sv.t_first_ns (sort_times (error_times sv.gap_events)) sv.t_last_ns

  -- The inner loop of the intersection.
  unfoldable pub intersect_one : TimeRange → List TimeRange → List TimeRange
  intersect_one er [] = []
  intersect_one er (sr ∷ srs) =
      let t0 = max_ℤ er.t_start_ns sr.t_start_ns in
      let t1 = min_ℤ er.t_end_ns sr.t_end_ns in
      let rest = intersect_one er srs in if ltb_ℤ t0 t1 then kept (range t0 t1 both) rest else rest

  unfoldable pub intersect : List TimeRange → List TimeRange → List TimeRange
  intersect [] srs = []
  intersect (er ∷ ers) srs = intersect_one er srs ++ intersect ers srs

  unfoldable pub combined_ranges : StreamValidation → StreamValidation → List TimeRange
  combined_ranges ego_val src_val =
      intersect (build_ranges ego_val ego) (build_ranges src_val source)

  -- When nothing is left of both, the ranges of the ego stream stand alone.
  unfoldable pub extract_valid_ranges : StreamValidation → StreamValidation → List TimeRange
  extract_valid_ranges ego_val src_val = elim (combined_ranges ego_val src_val) [
    | [] ↦ build_ranges ego_val ego
    | r ∷ rs ↦ r ∷ rs
  ]

pub data Integrity : Type 0 where
  ok warning failed : Integrity

unfoldable pub has_error : List GapEvent → Bool
unfolding is_error
has_error [] = false
has_error (g ∷ gs) = is_error g || has_error gs

-- `enough`: the durations add up to `min_valid_duration_s`.
unfoldable pub compute_integrity :
    (List TimeRange → Bool) → StreamValidation → StreamValidation → List TimeRange → Integrity
compute_integrity enough ego_val src_val ranges =
    if not ego_val.file_ok
    then failed
    else if not (enough ranges)
    then failed
    else if ltb 0 ego_val.packets_crc_failed || ltb 5 ego_val.monotonic_violations
    then warning
    else if has_error ego_val.gap_events || has_error src_val.gap_events
    then warning
    else ok
