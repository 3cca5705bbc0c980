-- ===== src/Upload/Outcomes.antt =====
-- The exit code and the report of an upload.
use local_pc.Upload.Files.{
  filename, BlockedReason, Directory, collect_files, collect_session_files, gate_allowed,
  read_pipeline_status, read_session_id, LocalFile, S3Config, object_key,
}
use local_pc.Common.{
  ap, Option, not, Bool-cases, inl, inr, none, some, ◌⊎◌, codes, All, Bool, List, [], arith, false,
  if◌then◌else◌, length, map, refl, sym, true, ℕ, ◌&&◌, ◌++◌, ◌==◌, ◌↔◌, ◌∙◌, ◌∷◌, ◌≡◌,
}
use local_pc.Upload.Session.{
  UploadStatus, failed, ExitCode, blocked, gate, upload_blocked, new_report, ok, upload_files,
  upload_session, Server, UploadFileResult, UploadReport, file_result, put_file, success,
  upload_all, upload_failed, upload_file_batch,
}
use mathlib.Core.List.{append-nil, append_assoc}

and_true : (a b : Bool) → (a && b) ≡ true → (a ≡ true) × (b ≡ true)
and_true a b h = (ground arith, ground arith)

true_and : (a b : Bool) → a ≡ true → b ≡ true → (a && b) ≡ true
true_and a b h k = ground arith

-- The exit code of a batch of puts.
code_success : (b : Bool) → ((if b then success else upload_failed) ≡ success) ↔ (b ≡ true)
code_success true = (λ h. refl, λ h. refl)
code_success false = (λ h. absurd (cc h), λ h. absurd (cc h))

module _ (cfg : S3Config) (server : Server) where
  -- The last answer for a file is a success.
  abbrev pub IsPut : List ℕ → List ℕ → LocalFile → Type 0
  IsPut session_id subdir f =
      (put_file cfg server (object_key cfg session_id subdir (filename f.name)) f).ok ≡ true

  -- The entry of a file in the report.
  abbrev pub entry : List ℕ → List ℕ → LocalFile → UploadFileResult
  entry session_id subdir f =
      let key = object_key cfg session_id subdir (filename f.name) in
      file_result key f (put_file cfg server key f)

  batch_entries :
      (session_id subdir : List ℕ) (fs : List LocalFile) (files : List UploadFileResult) (b : Bool)
      → (upload_file_batch cfg server fs session_id subdir files b).0
        ≡ files ++ map (entry session_id subdir) fs
  unfolding upload_file_batch
  batch_entries session_id subdir [] files b = sym (append-nil files)
  batch_entries session_id subdir (f ∷ fs) files b =
      batch_entries session_id subdir fs _ _
      ∙ append_assoc files (entry session_id subdir f ∷ []) (map (entry session_id subdir) fs)

  batch_ok :
      (session_id subdir : List ℕ) (fs : List LocalFile) (files : List UploadFileResult) (b : Bool)
      → (upload_file_batch cfg server fs session_id subdir files b).1 ≡ true
      → (b ≡ true) × All (IsPut session_id subdir) fs
  unfolding upload_file_batch
  batch_ok session_id subdir [] files b h = (h, tt)
  batch_ok session_id subdir (f ∷ fs) files b h =
      let (both, rest) = batch_ok session_id subdir fs _ _ h in
      let (before, here) = and_true _ _ both in (before, (here, rest))

  ok_batch :
      (session_id subdir : List ℕ) (fs : List LocalFile) (files : List UploadFileResult) (b : Bool)
      → b ≡ true
      → All (IsPut session_id subdir) fs
      → (upload_file_batch cfg server fs session_id subdir files b).1 ≡ true
  unfolding upload_file_batch
  ok_batch session_id subdir [] files b h k = h
  ok_batch session_id subdir (f ∷ fs) files b h (here, rest) =
      ok_batch session_id subdir fs _ _ (true_and _ _ h here) rest

  -- There is a file to upload.
  abbrev pub HasFiles : List LocalFile → List LocalFile → Type 0
  HasFiles session_files offline_files =
      (length offline_files == 0 && length session_files == 0) ≡ false

  upload_all_iff :
      (session_id : List ℕ) (ss os : List LocalFile) (report : UploadReport)
      → ((upload_all cfg server session_id ss os report).0 ≡ success)
        ↔ (All (IsPut session_id []) ss × All (IsPut session_id (codes "offline")) os)
  unfolding upload_all
  upload_all_iff session_id ss os report = (
    λ h.
        let all_ok = (code_success _).0 h in
        let (first, offline) = batch_ok session_id (codes "offline") os _ _ all_ok in
        ((batch_ok session_id [] ss [] true first).1, offline),
    λ (first, offline). (code_success _).1 (
        ok_batch session_id (codes "offline") os _ _ (ok_batch session_id [] ss [] true refl first)
          offline),
  )

  -- The outcome behind the switch and the gate.
  abbrev outcome :
      List ℕ
      → Bool
      → Option BlockedReason
      → ExitCode × UploadReport
      → ExitCode × Option UploadReport
  outcome session_id enabled gated (code, report) =
      if not enabled then (success, none) else elim gated [
        | some reason ↦ (
          upload_blocked,
          some (record (new_report cfg server session_id) {
            upload_status = blocked;
            blocked_reason = some (gate reason);
          }),
        )
        | none ↦ (code, some report)
      ]

  outcome_iff :
      (session_id : List ℕ) (enabled : Bool) (gated : Option BlockedReason)
      (inner : ExitCode × UploadReport)
      → ((outcome session_id enabled gated inner).0 ≡ success)
        ↔ ((enabled ≡ false) ⊎ ((gated ≡ none) × (inner.0 ≡ success)))
  outcome_iff session_id false gated inner = (λ h. inl refl, λ h. refl)
  outcome_iff session_id true (some reason) inner =
      (λ h. absurd (cc h), λ h. elim h [ inl e ↦ absurd (cc e) | inr (e, k) ↦ absurd (cc e) ])
  outcome_iff session_id true none inner =
      (λ h. inr (refl, h), λ h. elim h [ inl e ↦ absurd (cc e) | inr (e, k) ↦ k ])

  outcome_open :
      (session_id : List ℕ) (enabled : Bool) (gated : Option BlockedReason)
      (inner : ExitCode × UploadReport)
      → enabled ≡ true
      → gated ≡ none
      → outcome session_id enabled gated inner ≡ (inner.0, some inner.1)
  outcome_open session_id true none inner h k = refl
  outcome_open session_id true (some reason) inner h k = absurd (cc k)
  outcome_open session_id false gated inner h k = absurd (cc h)

  -- The status that a report says goes with the exit code.
  status_iff :
      (b : Bool)
      → ((if b then UploadStatus.ok else failed) ≡ ok)
        ↔ ((if b then success else upload_failed) ≡ success)
  status_iff true = (λ h. refl, λ h. refl)
  status_iff false = (λ h. absurd (cc h), λ h. absurd (cc h))

  upload_all_report :
      (session_id : List ℕ) (ss os : List LocalFile) (report : UploadReport)
      → let r = upload_all cfg server session_id ss os report in
        (r.1.files ≡ map (entry session_id []) ss ++ map (entry session_id (codes "offline")) os)
        × ((r.1.upload_status ≡ ok) ↔ (r.0 ≡ success))
  unfolding upload_all
  upload_all_report session_id ss os report =
      let (files, all_ok) = upload_file_batch cfg server ss session_id [] [] true in
      (
        batch_entries session_id (codes "offline") os files all_ok
            ∙ ap (λ fs. fs ++ map (entry session_id (codes "offline")) os)
                (batch_entries session_id [] ss [] true),
        status_iff _,
      )

  upload_files_open :
      (session_id : List ℕ) (ss os : List LocalFile) (report : UploadReport)
      → HasFiles ss os
      → upload_files cfg server session_id ss os false report
        ≡ upload_all cfg server session_id ss os report
  unfolding upload_files
  upload_files_open session_id ss os report h = rw h refl

  -- What the upload of a session needs to succeed.
  abbrev pub IsSuccess : List ℕ → Directory → List (List ℕ) → Directory → Type 0
  IsSuccess dir_name session_dir listing offline_dir =
      let session_id = read_session_id dir_name offline_dir in
      let ss = collect_session_files cfg session_dir listing in
      let os = collect_files cfg offline_dir in
      (gate_allowed cfg offline_dir (read_pipeline_status offline_dir) ≡ none)
      × HasFiles ss os
      × All (IsPut session_id []) ss
      × All (IsPut session_id (codes "offline")) os

  upload_files_iff :
      (session_id : List ℕ) (ss os : List LocalFile) (report : UploadReport)
      → ((upload_files cfg server session_id ss os false report).0 ≡ success) ↔ (
          HasFiles ss os
          × All (IsPut session_id []) ss
          × All (IsPut session_id (codes "offline")) os)
  unfolding upload_files
  upload_files_iff session_id ss os report = elim (Bool-cases (length os == 0 && length ss == 0)) [
    | inl e ↦ rw e (λ h. absurd (cc h), λ (h, k, l). absurd (cc h))
    | inr e ↦
        let (to, from) = upload_all_iff session_id ss os report in
        rw e (λ h. let (k, l) = to h in (refl, k, l), λ (h, k, l). from (k, l))
  ]

  -- An upload that is not a dry run gives the exit code of a success exactly when it is disabled, or when the
  -- gate allows it, there is a file to upload, and the last answer is a success for every file.
  pub upload_session_success :
      (dir_name : List ℕ) (session_dir : Directory) (listing : List (List ℕ))
      (offline_dir : Directory)
      → ((upload_session cfg server dir_name session_dir listing offline_dir false).0 ≡ success)
        ↔ ((cfg.enabled ≡ false) ⊎ IsSuccess dir_name session_dir listing offline_dir)
  unfolding upload_session
  upload_session_success dir_name session_dir listing offline_dir =
      let id = read_session_id dir_name offline_dir in
      let inner =
        upload_files cfg server id (collect_session_files cfg session_dir listing)
          (collect_files cfg offline_dir) false (new_report cfg server id) in
      let (to, from) =
        outcome_iff id cfg.enabled (gate_allowed cfg offline_dir (read_pipeline_status offline_dir))
          inner in
      let (to', from') =
        upload_files_iff id (collect_session_files cfg session_dir listing)
          (collect_files cfg offline_dir) (new_report cfg server id) in
      (
        λ h. elim (to h) [ inl e ↦ inl e | inr (e, k) ↦ let (f, l, m) = to' k in inr (e, f, l, m) ],
        λ h. elim h [ inl e ↦ from (inl e) | inr (e, f, l, m) ↦ from (inr (e, from' (f, l, m))) ],
      )

  -- An upload that is enabled, not a dry run, allowed by the gate, and that has a file writes a report. Its
  -- files are those of the session and then those of the offline directory, each with its key and the outcome
  -- of its last attempt, and it says ok exactly when the exit code is that of a success.
  pub upload_session_report :
      (dir_name : List ℕ) (session_dir : Directory) (listing : List (List ℕ))
      (offline_dir : Directory)
      → cfg.enabled ≡ true
      → gate_allowed cfg offline_dir (read_pipeline_status offline_dir) ≡ none
      → HasFiles (collect_session_files cfg session_dir listing) (collect_files cfg offline_dir)
      → (report : UploadReport) × ((upload_session cfg server dir_name session_dir listing
            offline_dir false).1
          ≡ some report)
        × (report.files
            ≡ map
                (entry (read_session_id dir_name offline_dir) [])
                (collect_session_files cfg session_dir listing)
              ++ map
                  (entry (read_session_id dir_name offline_dir) (codes "offline"))
                  (collect_files cfg offline_dir))
        × ((report.upload_status ≡ ok) ↔ (
            (upload_session cfg server dir_name session_dir listing offline_dir false).0 ≡ success))
  unfolding upload_session
  upload_session_report dir_name session_dir listing offline_dir on allowed has =
      let id = read_session_id dir_name offline_dir in
      let ss = collect_session_files cfg session_dir listing in
      let os = collect_files cfg offline_dir in
      let new = new_report cfg server id in
      let (files, status) = upload_all_report id ss os new in
      let same : upload_session cfg server dir_name session_dir listing offline_dir false
          ≡ ((upload_all cfg server id ss os new).0, some (upload_all cfg server id ss os new).1) =
        outcome_open id cfg.enabled
          (gate_allowed cfg offline_dir (read_pipeline_status offline_dir))
          (upload_files cfg server id ss os false new) on allowed
        ∙ ap (λ r. (r.0, some r.1)) (upload_files_open id ss os new has) in
      (
        (upload_all cfg server id ss os new).1,
        ap (λ r. r.1) same,
        files,
        (λ h. ap (λ r. r.0) same ∙ status.0 h, λ h. status.1 (sym (ap (λ r. r.0) same) ∙ h)),
      )
