-- ===== src/Validate/Clean.antt =====
-- The valid ranges hold no error, and the verdict.
use local_pc.Common.{
  All, All-append, Bool, Bool-cases, List, [], arith, false, if_both, if◌then◌else◌, inl, inr,
  leb_ℤ, max_ℤ, min_ℤ, not, refl, subst, true, ℤ, ◌||◌, ◌↔◌, ◌∷◌, ◌≡◌, ◌≢◌, ◌≤ℤ◌, ◌≤◌, ◌⊎◌,
}
use local_pc.Validate.Ranges.{
  Stream, TimeRange, both, build_ranges, combined_ranges, compute_integrity, error_times,
  extract_valid_ranges, failed, has_error, insert_time, intersect, intersect_one, is_error, kept,
  ok, range, sort_times, split_at,
}
use local_pc.Validate.Types.{GapEvent, StreamValidation}

-- No time of the list lies inside of the range.
abbrev pub ClearOf : List ℤ → TimeRange → Type 0
ClearOf ts r = All (λ t. (t ≤ℤ r.t_start_ns) ⊎ (r.t_end_ns ≤ℤ t)) ts

abbrev LeAll : ℤ → List ℤ → Type 0
LeAll t = All (λ u. t ≤ℤ u)

abbrev Sorted : List ℤ → Type 0
Sorted [] = Unit {0}
Sorted (t ∷ ts) = LeAll t ts × Sorted ts

LeAll-le : (a b : ℤ) (us : List ℤ) → a ≤ℤ b → LeAll b us → LeAll a us
LeAll-le a b [] h k = tt
LeAll-le a b (u ∷ us) h (k, ks) = (omega arith, LeAll-le a b us h ks)

insert_time-LeAll : (a t : ℤ) (us : List ℤ) → a ≤ℤ t → LeAll a us → LeAll a (insert_time t us)
unfolding insert_time
insert_time-LeAll a t [] h k = (h, tt)
insert_time-LeAll a t (u ∷ us) h (k, ks) =
    if_both (LeAll a) (leb_ℤ t u) _ _ (h, (k, ks)) (k, insert_time-LeAll a t us h ks)

insert_time-Sorted : (t : ℤ) (us : List ℤ) → Sorted us → Sorted (insert_time t us)
unfolding insert_time
insert_time-Sorted t [] h = (tt, tt)
insert_time-Sorted t (u ∷ us) (k, ks) = elim (Bool-cases (leb_ℤ t u)) [
  | inl e ↦ rw e ((ground arith, LeAll-le t u us (ground arith) k), (k, ks))
  | inr e ↦ rw e (insert_time-LeAll u t us (ground arith) k, insert_time-Sorted t us ks)
]

sort_times-Sorted : (ts : List ℤ) → Sorted (sort_times ts)
unfolding sort_times
sort_times-Sorted [] = tt
sort_times-Sorted (t ∷ ts) = insert_time-Sorted t (sort_times ts) (sort_times-Sorted ts)

-- What holds of all sorted times holds of all times.
insert_time-All : (P : ℤ → Type 0) (t : ℤ) (us : List ℤ) → All P (insert_time t us) → P t × All P us
unfolding insert_time
insert_time-All P t [] h = h
insert_time-All P t (u ∷ us) h = elim (Bool-cases (leb_ℤ t u)) [
  | inl e ↦
      let k : All P (t ∷ u ∷ us) =
        subst (λ b. All P (if b then t ∷ u ∷ us else u ∷ insert_time t us)) e h in
      (k.0, k.1)
  | inr e ↦
      let k : All P (u ∷ insert_time t us) =
        subst (λ b. All P (if b then t ∷ u ∷ us else u ∷ insert_time t us)) e h in
      let (ht, hs) = insert_time-All P t us k.1 in (ht, (k.0, hs))
]

sort_times-All : (P : ℤ → Type 0) (ts : List ℤ) → All P (sort_times ts) → All P ts
unfolding sort_times
sort_times-All P [] h = tt
sort_times-All P (t ∷ ts) h =
    let (ht, hs) = insert_time-All P t (sort_times ts) h in (ht, sort_times-All P ts hs)

module _ (long_enough : ℤ → ℤ → Bool) where
  kept-All :
      (P : TimeRange → Type 0) (r : TimeRange) (rest : List TimeRange)
      → P r
      → All P rest
      → All P (kept long_enough r rest)
  kept-All P r rest h hs = if_both (All P) (long_enough r.t_start_ns r.t_end_ns) _ _ (h, hs) hs

  -- The ranges begin at the start or later.
  split_at-start :
      (s : Stream) (low cur : ℤ) (breaks : List ℤ) (t_last : ℤ)
      → low ≤ℤ cur
      → All (λ r. low ≤ℤ r.t_start_ns) (split_at long_enough s cur breaks t_last)
  unfolding split_at
  split_at-start s low cur [] t_last h = kept-All _ (range cur t_last s) [] h tt
  split_at-start s low cur (bp ∷ breaks) t_last h =
      let later = split_at-start s low (max_ℤ cur bp) breaks t_last (ground arith) in
      if_both (All (λ r. low ≤ℤ r.t_start_ns)) (leb_ℤ bp cur) _ _ later
        (kept-All _ (range cur bp s) _ h later)

  clear_cons :
      (bp : ℤ) (breaks : List ℤ) (rs : List TimeRange)
      → All (λ r. bp ≤ℤ r.t_start_ns) rs
      → All (ClearOf breaks) rs
      → All (ClearOf (bp ∷ breaks)) rs
  clear_cons bp breaks [] h k = tt
  clear_cons bp breaks (r ∷ rs) (h, hs) (k, ks) = ((inl h, k), clear_cons bp breaks rs hs ks)

  clear_below : (r : TimeRange) (breaks : List ℤ) → LeAll r.t_end_ns breaks → ClearOf breaks r
  clear_below r [] h = tt
  clear_below r (b ∷ breaks) (h, hs) = (inr h, clear_below r breaks hs)

  split_at-ClearOf :
      (s : Stream) (cur : ℤ) (breaks : List ℤ) (t_last : ℤ)
      → Sorted breaks
      → All (ClearOf breaks) (split_at long_enough s cur breaks t_last)
  unfolding split_at
  split_at-ClearOf s cur [] t_last h = kept-All _ (range cur t_last s) [] tt tt
  split_at-ClearOf s cur (bp ∷ breaks) t_last (h, hs) =
      let later =
        clear_cons bp breaks _ (split_at-start s bp (max_ℤ cur bp) breaks t_last (ground arith))
          (split_at-ClearOf s (max_ℤ cur bp) breaks t_last hs) in
      if_both (All (ClearOf (bp ∷ breaks))) (leb_ℤ bp cur) _ _ later (
        kept-All _ (range cur bp s) _ (inr (omega arith), clear_below (range cur bp s) breaks h)
          later)

  All-sorted :
      (ts : List ℤ) (rs : List TimeRange) → All (ClearOf (sort_times ts)) rs → All (ClearOf ts) rs
  All-sorted ts [] h = tt
  All-sorted ts (r ∷ rs) (h, hs) = (sort_times-All _ ts h, All-sorted ts rs hs)

  build_ranges-ClearOf :
      (sv : StreamValidation) (s : Stream)
      → All (ClearOf (error_times sv.gap_events)) (build_ranges long_enough sv s)
  unfolding build_ranges
  build_ranges-ClearOf sv s =
      if_both (All (ClearOf (error_times sv.gap_events)))
        (not sv.file_ok || leb_ℤ sv.t_last_ns sv.t_first_ns) _ _ tt
        (All-sorted (error_times sv.gap_events) _ (
          split_at-ClearOf s sv.t_first_ns (sort_times (error_times sv.gap_events)) sv.t_last_ns
            (sort_times-Sorted (error_times sv.gap_events))))

  -- A part of a range is clear of what the range is clear of.
  ClearOf-part :
      (ts : List ℤ) (r r' : TimeRange)
      → r.t_start_ns ≤ℤ r'.t_start_ns
      → r'.t_end_ns ≤ℤ r.t_end_ns
      → ClearOf ts r
      → ClearOf ts r'
  ClearOf-part [] r r' a b h = tt
  ClearOf-part (t ∷ ts) r r' a b (inl h, hs) = (inl (omega arith), ClearOf-part ts r r' a b hs)
  ClearOf-part (t ∷ ts) r r' a b (inr h, hs) = (inr (omega arith), ClearOf-part ts r r' a b hs)

  intersect_one-ClearOf :
      (ts us : List ℤ) (er : TimeRange) (srs : List TimeRange)
      → ClearOf ts er
      → All (ClearOf us) srs
      → All (λ r. ClearOf ts r × ClearOf us r) (intersect_one long_enough er srs)
  unfolding intersect_one
  intersect_one-ClearOf ts us er [] h k = tt
  intersect_one-ClearOf ts us er (sr ∷ srs) h (k, ks) =
      let rest = intersect_one-ClearOf ts us er srs h ks in
      let r = range (max_ℤ er.t_start_ns sr.t_start_ns) (min_ℤ er.t_end_ns sr.t_end_ns) both in
      if_both (All (λ r. ClearOf ts r × ClearOf us r)) _ _ _
        (kept-All _ r _
          (
            ClearOf-part ts er r (ground arith) (ground arith) h,
            ClearOf-part us sr r (ground arith) (ground arith) k,
          )
          rest)
        rest

  intersect-ClearOf :
      (ts us : List ℤ) (ers srs : List TimeRange)
      → All (ClearOf ts) ers
      → All (ClearOf us) srs
      → All (λ r. ClearOf ts r × ClearOf us r) (intersect long_enough ers srs)
  unfolding intersect
  intersect-ClearOf ts us [] srs h k = tt
  intersect-ClearOf ts us (er ∷ ers) srs (h, hs) k =
      All-append _ (intersect_one long_enough er srs) (intersect long_enough ers srs)
        (intersect_one-ClearOf ts us er srs h k) (intersect-ClearOf ts us ers srs hs k)

  combined-ClearOf :
      (ego_val src_val : StreamValidation)
      → All
          (λ r.
            ClearOf (error_times ego_val.gap_events) r × ClearOf (error_times src_val.gap_events) r)
          (combined_ranges long_enough ego_val src_val)
  unfolding combined_ranges
  combined-ClearOf ego_val src_val =
      intersect-ClearOf _ _ _ _ (build_ranges-ClearOf ego_val Stream.ego)
        (build_ranges-ClearOf src_val Stream.source)

  both_parts :
      (P Q : TimeRange → Type 0) (rs : List TimeRange)
      → All (λ r. P r × Q r) rs
      → All P rs × All Q rs
  both_parts P Q [] h = (tt, tt)
  both_parts P Q (r ∷ rs) ((p, q), h) = let (ps, qs) = both_parts P Q rs h in ((p, ps), (q, qs))

  List-cases :
      (rs : List TimeRange) → (rs ≡ []) ⊎ ((r : TimeRange) × (l : List TimeRange) × (rs ≡ r ∷ l))
  List-cases [] = inl refl
  List-cases (r ∷ rs) = inr (r, rs, refl)

  -- However long a range must be to be kept: inside of the valid ranges of a session there is no error of
  -- the ego stream, and, unless the two streams have no kept range in common, none of the source.
  pub extract_valid_ranges-ClearOf :
      (ego_val src_val : StreamValidation)
      → All
          (ClearOf (error_times ego_val.gap_events))
          (extract_valid_ranges long_enough ego_val src_val)
        × (combined_ranges long_enough ego_val src_val ≢ []
            → All
                (ClearOf (error_times src_val.gap_events))
                (extract_valid_ranges long_enough ego_val src_val))
  unfolding extract_valid_ranges
  extract_valid_ranges-ClearOf ego_val src_val =
      let (of_ego, of_src) = both_parts _ _ _ (combined-ClearOf ego_val src_val) in
      elim (List-cases (combined_ranges long_enough ego_val src_val)) [
        | inl e ↦
            rw (e, extract_valid_ranges)
              (build_ranges-ClearOf ego_val Stream.ego, λ n. absurd (n refl))
        | inr (r, rs, e) ↦ rw (e, extract_valid_ranges) (rw e at of_ego, λ n. rw e at of_src)
      ]

has_error-cases :
    (gs : List GapEvent)
    → ((has_error gs ≡ false) × (error_times gs ≡ []))
      ⊎ ((has_error gs ≡ true) × (error_times gs ≢ []))
unfolding has_error error_times
has_error-cases [] = inl (refl, refl)
has_error-cases (g ∷ gs) = elim (Bool-cases (is_error g)) [
  | inl e ↦ inr (rw e, rw e (λ p. cc))
  | inr e ↦ rw e (has_error-cases gs)
]

-- The session is intact exactly when the chunks of the ego stream are there, the valid ranges are
-- long enough, no event of the two streams is an error, no packet of the ego stream has failed its
-- checksum, and its times went back five times at most; it has failed exactly when chunks are missing
-- or the ranges are too short.
pub compute_integrity_iff :
    (enough : List TimeRange → Bool) (ego_val src_val : StreamValidation) (ranges : List TimeRange)
    → ((compute_integrity enough ego_val src_val ranges ≡ ok) ↔ (
        (ego_val.file_ok ≡ true)
        × (enough ranges ≡ true)
        × (error_times ego_val.gap_events ≡ [])
        × (error_times src_val.gap_events ≡ [])
        × (ego_val.packets_crc_failed ≡ 0)
        × (ego_val.monotonic_violations ≤ 5)))
      × ((compute_integrity enough ego_val src_val ranges ≡ failed)
          ↔ ((ego_val.file_ok ≡ false) ⊎ (enough ranges ≡ false)))
unfolding compute_integrity
compute_integrity_iff enough ego_val src_val ranges = elim (has_error-cases ego_val.gap_events) [
  | inl (a, b) ↦ elim (has_error-cases src_val.gap_events) [
    | inl (c, d) ↦ (
      (λ e. ground arith, λ (f, k, x, y, z, w). ground arith),
      (λ e. ground arith, λ h. ground arith),
    )
    | inr (c, d) ↦ (
      (λ e. ground arith, λ (f, k, x, y, z, w). absurd (d y)),
      (λ e. ground arith, λ h. ground arith),
    )
  ]
  | inr (a, b) ↦ (
    (λ e. ground arith, λ (f, k, x, y, z, w). absurd (b x)),
    (λ e. ground arith, λ h. ground arith),
  )
]
