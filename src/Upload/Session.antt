-- ===== src/Upload/Session.antt =====
-- `S3Uploader::upload_file_batch` and `upload_session`. The answers of the server are a parameter: for a key
-- and a body, what the attempt with a number gets. `sha256` and the writing of the report are left out.
use local_pc.Upload.Files.{
  filename, object_key, BlockedReason, Directory, LocalFile, S3Config, collect_files,
  collect_session_files, gate_allowed, read_pipeline_status, read_session_id, trim_slashes,
}
use local_pc.Common.{
  codes, Bool, List, Option, [], false, if◌then◌else◌, length, map, negsuc, none, not, pos, some,
  suc, true, zero, ℕ, ℤ, ◌&&◌, ◌++◌, ◌==◌, ◌||◌, ◌∷◌,
}

-- `S3PutResult`
pub record PutResult : Type 0 where
  pub ok : Bool
  pub http_status : ℕ
  pub etag : List ℕ
  pub error : List ℕ

abbrev pub no_answer : PutResult
no_answer = record { ok = false; http_status = 0; etag = []; error = [] }

abbrev pub Server : Type 0
Server = List ℕ → List ℕ → ℕ → PutResult

-- The texts of `status`.
pub data FileStatus : Type 0 where
  uploaded not_uploaded dry_run : FileStatus

pub record UploadFileResult : Type 0 where
  pub local_name : List ℕ
  pub object_key : List ℕ
  pub size_bytes : ℕ
  pub etag : List ℕ
  pub status : FileStatus
  pub message : List ℕ

-- The texts of `upload_status`.
pub data UploadStatus : Type 0 where
  ok failed skipped blocked : UploadStatus

-- The reasons of a report: that of the gate, and "no files to upload".
pub data ReportReason : Type 0 where
  gate : BlockedReason → ReportReason
  no_files : ReportReason

pub record UploadReport : Type 0 where
  pub session_id : List ℕ
  pub bucket : List ℕ
  pub prefix : List ℕ
  pub upload_status : UploadStatus
  pub blocked_reason : Option ReportReason
  pub files : List UploadFileResult

pub data ExitCode : Type 0 where
  success validation_error sync_error internal_error upload_failed upload_blocked : ExitCode

-- `attempt <= max_retries` from 0 on: the count of rounds.
abbrev pub rounds : ℤ → ℕ
rounds (pos n) = suc n
rounds (negsuc n) = 0

-- Whether an answer ends the attempts.
unfoldable pub is_final : PutResult → Bool
is_final r = r.ok || r.http_status == 403 || r.http_status == 404

-- The loop of the attempts, with the rounds that are left and the number of the next.
unfoldable pub attempts : (ℕ → PutResult) → ℕ → ℕ → PutResult → PutResult
attempts answer zero n last = last
attempts answer (suc left) n last =
    let rest = attempts answer left (suc n) (answer n) in
    if is_final (answer n) then answer n else rest

unfoldable pub file_result : List ℕ → LocalFile → PutResult → UploadFileResult
file_result key f last = record {
  local_name = f.name;
  object_key = key;
  size_bytes = length f.bytes;
  etag = last.etag;
  status = if last.ok then uploaded else not_uploaded;
  message = if last.ok then [] else last.error;
}

module _ (cfg : S3Config) (server : Server) where
  unfoldable pub put_file : List ℕ → LocalFile → PutResult
  put_file key f = attempts (server key f.bytes) (rounds cfg.max_retries) 0 no_answer

  -- The report's files so far, and `all_ok`.
  unfoldable pub upload_file_batch :
      List LocalFile → List ℕ → List ℕ → List UploadFileResult → Bool → List UploadFileResult × Bool
  upload_file_batch [] session_id subdir files all_ok = (files, all_ok)
  upload_file_batch (f ∷ fs) session_id subdir files all_ok =
      let key = object_key cfg session_id subdir (filename f.name) in
      let last = put_file key f in
      upload_file_batch fs session_id subdir (files ++ file_result key f last ∷ [])
        (all_ok && last.ok)

  abbrev pub dry_result : List ℕ → List ℕ → LocalFile → UploadFileResult
  dry_result session_id subdir f = record {
    local_name = f.name;
    object_key = object_key cfg session_id subdir (filename f.name);
    size_bytes = 0;
    etag = [];
    status = dry_run;
    message = [];
  }

  abbrev pub new_report : List ℕ → UploadReport
  new_report session_id = record {
    session_id = session_id;
    bucket = cfg.bucket;
    prefix = trim_slashes cfg.prefix ++ (47 ∷ session_id);
    upload_status = failed;
    blocked_reason = none;
    files = [];
  }

  -- The upload of the files that were collected.
  unfoldable pub upload_all :
      List ℕ → List LocalFile → List LocalFile → UploadReport → ExitCode × UploadReport
  upload_all session_id session_files offline_files report =
      let (files, all_ok) = upload_file_batch session_files session_id [] [] true in
      let (files', all_ok') =
        upload_file_batch offline_files session_id (codes "offline") files all_ok in
      (
        if all_ok' then success else upload_failed,
        record report { upload_status = if all_ok' then ok else failed; files = files' },
      )

  unfoldable pub dry_upload :
      List ℕ → List LocalFile → List LocalFile → UploadReport → ExitCode × UploadReport
  dry_upload session_id session_files offline_files report = (
    success,
    record report {
      upload_status = skipped;
      files =
          map (dry_result session_id (codes "offline")) offline_files
          ++ map (dry_result session_id []) session_files;
    },
  )

  -- What follows the gate.
  unfoldable pub upload_files :
      List ℕ → List LocalFile → List LocalFile → Bool → UploadReport → ExitCode × UploadReport
  unfolding upload_all dry_upload
  upload_files session_id session_files offline_files dry report =
      if length offline_files == 0 && length session_files == 0
      then (upload_failed, record report { upload_status = failed; blocked_reason = some no_files })
      else if dry
      then dry_upload session_id session_files offline_files report
      else upload_all session_id session_files offline_files report

  -- The exit code, and the report that is written, if any.
  unfoldable pub upload_session :
      List ℕ → Directory → List (List ℕ) → Directory → Bool → ExitCode × Option UploadReport
  unfolding upload_files
  upload_session dir_name session_dir listing offline_dir dry =
      let session_id = read_session_id dir_name offline_dir in
      let (code, report) =
        upload_files session_id (collect_session_files cfg session_dir listing)
          (collect_files cfg offline_dir) dry (new_report session_id) in
      if not cfg.enabled
      then (success, none)
      else elim (gate_allowed cfg offline_dir (read_pipeline_status offline_dir)) [
        | some reason ↦ (
          upload_blocked,
          some (record (new_report session_id) {
            upload_status = blocked;
            blocked_reason = some (gate reason);
          }),
        )
        | none ↦ (code, some report)
      ]
