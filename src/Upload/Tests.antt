-- ===== src/Upload/Tests.antt =====
-- A session with two files, one of which is put at the second attempt.
use local_pc.Common.{
  ends_with, starts_with, text_eq, codes, List, [], false, if◌then◌else◌, map, none, not, pos, refl,
  some, true, ℕ, ◌++◌, ◌<◌, ◌==◌, ◌↔◌, ◌∷◌, ◌≡◌, ◌≤◌, ◌⊎◌,
}
use local_pc.Upload.Session.{Server, UploadReport, is_final, ok, put_file, success, upload_session}
use local_pc.Upload.Attempts.{put_file_lem}
use local_pc.Upload.Outcomes.{
  HasFiles, IsSuccess, entry, upload_session_report, upload_session_success,
}
use local_pc.Upload.Files.{
  Directory, LocalFile, S3Config, behind, collect_files, collect_session_files, ego_chunks,
  gate_allowed, insert_name, is_ego_chunk, json_get_string, missing_or_empty, object_key, present,
  read_pipeline_status, read_session_id, skip_blanks, sort_names, trim_slashes, unique, until_end,
  until_quote, value_of, without,
}

abbrev cfg : S3Config
cfg = record {
  enabled = true;
  bucket = codes "b";
  prefix = codes "p//";
  access_key = codes "a";
  secret_key = codes "s";
  require_pipeline_success = true;
  require_real_mdf4 = true;
  max_retries = pos 2;
  include_session_files = true;
  include_files = codes "upload_manifest.json" ∷ codes "session.mf4" ∷ codes "gone" ∷ [];
  session_include_files = codes "session.json" ∷ [];
}

abbrev report_text : List ℕ
report_text = codes "{\"session_id\": \"id\", \"pipeline_status\": success }"

abbrev offline_dir : Directory
offline_dir name =
    if text_eq name (codes "session.mf4")
    then some (1 ∷ 2 ∷ [])
    else if text_eq name (codes "session_report.json")
    then some report_text
    else none

abbrev session_dir : Directory
session_dir name = if text_eq name (codes "ego_1.bin") then some (3 ∷ []) else none

abbrev listing : List (List ℕ)
listing = codes "ego_1.bin" ∷ codes "ego_.bi" ∷ codes "log" ∷ []

-- The first attempt gets the status 500, the next ones succeed.
abbrev server : Server
server key body n = record {
  ok = not (n == 0);
  http_status = if n == 0 then 500 else 200;
  etag = [];
  error = [];
}

abbrev two : LocalFile
two = record { name = codes "session.mf4"; bytes = 1 ∷ 2 ∷ [] }

gate_open : gate_allowed cfg offline_dir (read_pipeline_status offline_dir) ≡ none
unfolding gate_allowed read_pipeline_status json_get_string missing_or_empty behind starts_with
    skip_blanks value_of until_quote until_end text_eq
gate_open = refl

-- The key of a file of the offline directory.
key_test : object_key cfg (codes "id") (codes "offline") (codes "x") ≡ codes "p/id/offline/x"
unfolding object_key trim_slashes
key_test = refl

found :
    collect_session_files cfg session_dir listing
    ≡ record { name = codes "ego_1.bin"; bytes = 3 ∷ [] } ∷ []
unfolding collect_session_files present ego_chunks is_ego_chunk starts_with ends_with sort_names
    insert_name unique text_eq
found = refl

put_file_lem_example :
    (k : ℕ) × (k ≤ 2)
    × (put_file cfg server [] two ≡ server [] two.bytes k)
    × ((i : ℕ) → i < k → is_final (server [] two.bytes i) ≡ false)
    × ((is_final (server [] two.bytes k) ≡ true) ⊎ (k ≡ 2))
put_file_lem_example = put_file_lem cfg server [] two 2 refl

upload_session_success_example :
    ((upload_session cfg server (codes "dir") session_dir listing offline_dir false).0 ≡ success)
    ↔ ((cfg.enabled ≡ false) ⊎ IsSuccess cfg server (codes "dir") session_dir listing offline_dir)
upload_session_success_example =
    upload_session_success cfg server (codes "dir") session_dir listing offline_dir

has_files :
    HasFiles cfg server
      (collect_session_files cfg session_dir listing)
      (collect_files cfg offline_dir)
unfolding collect_files present without text_eq
has_files = refl

upload_session_report_example :
    (report : UploadReport) × ((upload_session cfg server
        (codes "dir")
        session_dir
        listing
        offline_dir
        false).1
      ≡ some report)
    × (report.files
        ≡ map
            (entry cfg server (read_session_id (codes "dir") offline_dir) [])
            (collect_session_files cfg session_dir listing)
          ++ map
              (entry cfg server (read_session_id (codes "dir") offline_dir) (codes "offline"))
              (collect_files cfg offline_dir))
    × ((report.upload_status ≡ ok) ↔ (
        (upload_session cfg server (codes "dir") session_dir listing offline_dir false).0
        ≡ success))
upload_session_report_example =
    upload_session_report cfg server (codes "dir") session_dir listing offline_dir refl gate_open
      has_files
