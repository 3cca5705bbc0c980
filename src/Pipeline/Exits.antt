-- ===== src/Pipeline/Exits.antt =====
-- What `run_validate` exits with.
use local_pc.Common.{
  subst, sym, ◌∙◌, Bool, List, Option, Option-cases, [], ap, false, inl, inr, none, refl, some,
  true, ℕ, ℤ, ◌↔◌, ◌∷◌, ◌≡◌, ◌⊎◌,
}
use local_pc.Pipeline.Feed.{
  feed, packet_ok, ScanAccumulator, ego_feeder, new_accumulator, source_feeder,
}
use local_pc.Pipeline.Numbers.{Numbered, Numbers, fed, feed-Numbered}
use local_pc.Load.Packets.{RawPacket, Files, Manifest}
use local_pc.Load.Loop.{deliver_packets}
use local_pc.Upload.Session.{ExitCode, validation_error}
use local_pc.Pipeline.Command.{
  conclude, exit_code, no_source, run_validate, scan_ego, scan_source, verdict,
}
use local_pc.Pipeline.Verdict.{chunks, scan_ego-visit}
use local_pc.Validate.Types.{ValidatorConfig}
use local_pc.Load.Sources.{scan_sources_delivers}
use local_pc.Load.Visits.{visit}
use local_pc.Validate.Ranges.{Integrity, TimeRange, compute_integrity, extract_valid_ranges}
use local_pc.Validate.Clean.{compute_integrity_iff}

exit_code_iff :
    (cfg : ValidatorConfig) (files : Files) (long_enough : ℤ → ℤ → Bool)
    (enough : List TimeRange → Bool) (fail : Bool) (i : Integrity)
    → (exit_code cfg files long_enough enough fail i ≡ validation_error)
      ↔ ((fail ≡ true) × (i ≡ Integrity.failed))
unfolding exit_code
exit_code_iff cfg files long_enough enough true Integrity.failed = (λ h. (refl, refl), λ h. refl)
exit_code_iff cfg files long_enough enough false Integrity.failed =
    (λ h. absurd (cc h), λ (h, k). absurd (cc h))
exit_code_iff cfg files long_enough enough fail Integrity.ok =
    (λ h. absurd (cc h), λ (h, k). absurd (cc k))
exit_code_iff cfg files long_enough enough fail Integrity.warning =
    (λ h. absurd (cc h), λ (h, k). absurd (cc k))

scan_source-some :
    (cfg : ValidatorConfig) (files : Files) (src_bin : List ℕ)
    → (o : Option ScanAccumulator) × (scan_source cfg files src_bin ≡ some o)
unfolding scan_source
scan_source-some cfg files src_bin = elim (Option-cases (files src_bin)) [
  | inl e ↦ (some (no_source cfg files), rw (e, scan_source) refl)
  | inr (bytes, e) ↦
      let (ps, from, delivers) =
        scan_sources_delivers files (record { path = src_bin; chunk_id = 0 } ∷ []) in
      (
        (deliver_packets (source_feeder cfg) ps (some (new_accumulator true))).0,
        rw (e, scan_source)
            (delivers (Option ScanAccumulator) (source_feeder cfg) (some (new_accumulator true))),
      )
]

-- A scan leaves alone whether the files are there.
abbrev Stands : Bool → Option ScanAccumulator → Type 0
Stands b none = Unit {0}
Stands b (some a) = a.sv.file_ok ≡ b

Numbered-Stands :
    (k : Numbers) (o : Option ScanAccumulator) → Numbered (Unit {0}) k o → Stands k.3 o
Numbered-Stands k none h = tt
Numbered-Stands k (some a) h = ap (λ (t : Numbers). t.3) h

feed-Stands :
    (cfg : ValidatorConfig) (a : ScanAccumulator) (raw : RawPacket) (crc_ok : Bool)
    → Stands a.sv.file_ok (feed cfg a raw crc_ok)
feed-Stands cfg a raw true =
    Numbered-Stands (fed true a.sv) (feed cfg a raw true)
      (feed-Numbered (Unit {0}) cfg a raw true (λ t l z. tt))
feed-Stands cfg a raw false =
    Numbered-Stands (fed false a.sv) (feed cfg a raw false)
      (feed-Numbered (Unit {0}) cfg a raw false (λ t l z. tt))

deliver-Stands :
    (cfg : ValidatorConfig) (b : Bool) (ps : List RawPacket) (o : Option ScanAccumulator)
    → Stands b o
    → Stands b (deliver_packets (ego_feeder cfg) ps o).0
unfolding ego_feeder
deliver-Stands cfg b [] o h = h
deliver-Stands cfg b (p ∷ ps) none h = tt
deliver-Stands cfg b (p ∷ ps) (some a) h =
    deliver-Stands cfg b ps (feed cfg a p (packet_ok p))
      (subst (λ c. Stands c (feed cfg a p (packet_ok p))) h (feed-Stands cfg a p (packet_ok p)))

visit-Stands :
    (cfg : ValidatorConfig) (b : Bool) (groups : List (List RawPacket)) (o : Option ScanAccumulator)
    → Stands b o
    → Stands b (visit (ego_feeder cfg) groups o)
visit-Stands cfg b [] o h = h
visit-Stands cfg b (ps ∷ groups) o h = visit-Stands cfg b groups _ (deliver-Stands cfg b ps o h)

module _ (cfg : ValidatorConfig) (files : Files) (long_enough : ℤ → ℤ → Bool)
    (enough : List TimeRange → Bool) (fail : Bool) (m : Manifest) (src_bin : List ℕ) where
  -- What the scans must give for an exit with an error.
  abbrev pub IsRejected : Option ScanAccumulator → Option ScanAccumulator → Type 0
  IsRejected (some a) (some b) =
      (fail ≡ true)
      × ((m.chunks ≡ []) ⊎ (enough (extract_valid_ranges long_enough a.sv b.sv) ≡ false))
  IsRejected none o = ⊥
  IsRejected (some a) none = ⊥

  conclude_iff :
      (c : Bool) (o o' : Option ScanAccumulator)
      → (c ≡ false) ↔ (m.chunks ≡ [])
      → Stands c o
      → (conclude cfg files long_enough enough fail o o' ≡ some validation_error) ↔ IsRejected o o'
  unfolding conclude verdict
  conclude_iff c none o' empty st = (λ h. absurd (cc h), λ h. absurd h)
  conclude_iff c (some a) none empty st = (λ h. absurd (cc h), λ h. absurd h)
  conclude_iff c (some a) (some b) (to_nil, from_nil) st =
      let ranges = extract_valid_ranges long_enough a.sv b.sv in
      let (sound, failing) = compute_integrity_iff enough a.sv b.sv ranges in
      let (to, from) =
        exit_code_iff cfg files long_enough enough fail
          (compute_integrity enough a.sv b.sv ranges) in
      (
        λ h.
            let (f, i) = to (cc h) in
            (f, elim (failing.0 i) [ inl e ↦ inl (to_nil (sym st ∙ e)) | inr e ↦ inr e ]),
        λ (f, k).
            ap some
              (from (f, failing.1 (elim k [ inl e ↦ inl (st ∙ from_nil e) | inr e ↦ inr e ]))),
      )

  -- With a manifest, `run_validate` ends, and so do its scans, whatever the files hold. It exits with a
  -- validation error exactly when neither scan crashes, the configuration says to fail, and either the manifest
  -- names no chunks or the valid ranges do not add up to the shortest duration.
  pub run_validate_rejects :
      (o o' : Option ScanAccumulator) × (scan_ego cfg files m ≡ some o)
      × (scan_source cfg files src_bin ≡ some o')
      × ((outcome : Option ExitCode) × (run_validate cfg files long_enough enough fail
              (some m)
              src_bin
            ≡ some outcome))
      × ((run_validate cfg files long_enough enough fail (some m) src_bin
            ≡ some (some validation_error))
          ↔ IsRejected o o')
  unfolding run_validate
  run_validate_rejects =
      let (b, scanned, empty) = scan_ego-visit cfg files m in
      let (o', from_source) = scan_source-some cfg files src_bin in
      let o = visit (ego_feeder cfg) (chunks cfg files m) (some (new_accumulator b)) in
      let (to, from) =
        conclude_iff b o o' empty
          (visit-Stands cfg b (chunks cfg files m) (some (new_accumulator b)) refl) in
      let ended : run_validate cfg files long_enough enough fail (some m) src_bin
          ≡ some (conclude cfg files long_enough enough fail o o') =
        rw (scanned, from_source, run_validate) refl in
      (
        o,
        o',
        scanned,
        from_source,
        (conclude cfg files long_enough enough fail o o', ended),
        (λ h. to (cc (sym ended ∙ h)), λ h. ended ∙ ap some (from h)),
      )
