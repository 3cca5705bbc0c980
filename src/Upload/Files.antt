-- ===== src/Upload/Files.antt =====
-- `S3Uploader`: the gate, the files that are uploaded and their keys. A text is the list of its bytes; a
-- directory gives the contents of its regular files by their names.
use local_pc.Common.{
  ends_with, text_le, text_eq, codes, starts_with, is_empty, Bool, List, Option, [], drop, false,
  if◌then◌else◌, leb, length, map, none, not, some, true, ℕ, ℤ, ◌&&◌, ◌++◌, ◌==◌, ◌||◌, ◌∷◌,
}

pub record S3Config : Type 0 where
  pub enabled : Bool
  pub bucket : List ℕ
  pub prefix : List ℕ
  pub access_key : List ℕ
  pub secret_key : List ℕ
  pub require_pipeline_success : Bool
  pub require_real_mdf4 : Bool
  pub max_retries : ℤ
  pub include_session_files : Bool
  pub include_files : List (List ℕ)
  pub session_include_files : List (List ℕ)

abbrev pub Directory : Type 0
Directory = List ℕ → Option (List ℕ)

abbrev pub exists : Directory → List ℕ → Bool
exists dir name = elim (dir name) [ none ↦ false | some bytes ↦ true ]

-- A file that is not there, or that is empty.
unfoldable pub missing_or_empty : Option (List ℕ) → Bool
missing_or_empty none = true
missing_or_empty (some bytes) = is_empty bytes

-- What stands in a text behind the first occurrence of a needle.
unfoldable pub behind : List ℕ → List ℕ → Option (List ℕ)
unfolding starts_with
behind needle [] = if is_empty needle then some [] else none
behind needle (c ∷ text) =
    let rest = behind needle text in
    if starts_with needle (c ∷ text) then some (drop (length needle) (c ∷ text)) else rest

-- Spaces and tabs.
abbrev is_blank : ℕ → Bool
is_blank c = c == 32 || c == 9

unfoldable pub skip_blanks : List ℕ → List ℕ
skip_blanks [] = []
skip_blanks (c ∷ text) = let rest = skip_blanks text in if is_blank c then rest else c ∷ text

-- The text up to a quotation mark.
unfoldable pub until_quote : List ℕ → Option (List ℕ)
until_quote [] = none
until_quote (c ∷ text) =
    let rest = until_quote text in
    if c == 34 then some [] else elim rest [ none ↦ none | some r ↦ some (c ∷ r) ]

-- The text up to a comma, a brace or the end of the line, without the blanks at its end.
unfoldable pub until_end : List ℕ → List ℕ
until_end [] = []
until_end (c ∷ text) =
    let rest = until_end text in
    if c == 44 || c == 125 || c == 10
    then []
    else if is_blank c && is_empty rest
    then []
    else c ∷ rest

-- `json_get_string`: an empty text when there is none.
unfoldable pub value_of : List ℕ → List ℕ
unfolding until_quote until_end
value_of [] = []
value_of (c ∷ text) =
    if c == 34 then elim (until_quote text) [ none ↦ [] | some v ↦ v ] else until_end (c ∷ text)

unfoldable pub json_get_string : List ℕ → List ℕ → List ℕ
unfolding behind skip_blanks value_of
json_get_string json key = elim (behind (34 ∷ key ++ codes "\":") json) [
  | none ↦ []
  | some text ↦ value_of (skip_blanks text)
]

unfoldable pub read_pipeline_status : Directory → List ℕ
unfolding json_get_string
read_pipeline_status offline_dir = elim (offline_dir (codes "session_report.json")) [
  | none ↦ codes "unknown"
  | some json ↦ json_get_string json (codes "pipeline_status")
]

-- The name of the directory stands in for an id that the report does not give.
unfoldable pub read_session_id : List ℕ → Directory → List ℕ
unfolding json_get_string
read_session_id dir_name offline_dir = elim (offline_dir (codes "session_report.json")) [
  | none ↦ dir_name
  | some json ↦
      let id = json_get_string json (codes "session_id") in if is_empty id then dir_name else id
]

-- The texts of `blocked_reason`.
pub data BlockedReason : Type 0 where
  mf4_missing mdf4_stub bucket_not_configured credentials_missing : BlockedReason
  pipeline_status : List ℕ → BlockedReason

-- `none`: the upload is allowed.
unfoldable pub gate_allowed : S3Config → Directory → List ℕ → Option BlockedReason
unfolding missing_or_empty
gate_allowed cfg offline_dir status =
    if cfg.require_real_mdf4 && missing_or_empty (offline_dir (codes "session.mf4"))
    then some mf4_missing
    else if cfg.require_real_mdf4 && exists offline_dir (codes "session.mf4.placeholder")
    then some mdf4_stub
    else if cfg.require_pipeline_success && not (text_eq status (codes "success"))
    then some (pipeline_status status)
    else if is_empty cfg.bucket
    then some bucket_not_configured
    else if is_empty cfg.access_key || is_empty cfg.secret_key
    then some credentials_missing
    else none

-- A file to upload: its path below the directory, as it is configured, and its contents.
pub record LocalFile : Type 0 where
  pub name : List ℕ
  pub bytes : List ℕ

-- The named files that are there.
unfoldable pub present : Directory → List (List ℕ) → List LocalFile
present dir [] = []
present dir (name ∷ names) = elim (dir name) [
  | none ↦ present dir names
  | some bytes ↦ record { name = name; bytes = bytes } ∷ present dir names
]

unfoldable pub without : List ℕ → List (List ℕ) → List (List ℕ)
without name [] = []
without name (n ∷ names) = if text_eq n name then without name names else n ∷ without name names

unfoldable pub collect_files : S3Config → Directory → List LocalFile
unfolding present without
collect_files cfg offline_dir =
    present offline_dir (without (codes "upload_manifest.json") cfg.include_files)

unfoldable pub is_ego_chunk : List ℕ → Bool
is_ego_chunk name =
    leb 4 (length name)
    && starts_with (codes "ego_") name
    && leb 8 (length name)
    && ends_with (codes ".bin") name

unfoldable pub ego_chunks : List (List ℕ) → List (List ℕ)
unfolding is_ego_chunk
ego_chunks [] = []
ego_chunks (n ∷ names) = if is_ego_chunk n then n ∷ ego_chunks names else ego_chunks names

-- `std::sort` and `std::unique` on the paths, which differ in their names only.
unfoldable pub insert_name : List ℕ → List (List ℕ) → List (List ℕ)
insert_name n [] = n ∷ []
insert_name n (m ∷ names) = if text_le n m then n ∷ m ∷ names else m ∷ insert_name n names

unfoldable pub sort_names : List (List ℕ) → List (List ℕ)
unfolding insert_name
sort_names [] = []
sort_names (n ∷ names) = insert_name n (sort_names names)

unfoldable pub unique : List (List ℕ) → List (List ℕ)
unique [] = []
unique (n ∷ []) = n ∷ []
unique (n ∷ m ∷ names) = let rest = unique (m ∷ names) in if text_eq n m then rest else n ∷ rest

abbrev pub names_of : List LocalFile → List (List ℕ)
names_of files = map (λ (f : LocalFile). f.name) files

-- `listing`: the names of the regular files of the directory, in the order of its iterator.
unfoldable pub collect_session_files : S3Config → Directory → List (List ℕ) → List LocalFile
unfolding ego_chunks sort_names unique present
collect_session_files cfg session_dir listing =
    if not cfg.include_session_files
    then []
    else present session_dir (
        unique (
          sort_names
            (names_of (present session_dir cfg.session_include_files) ++ ego_chunks listing)))

-- `filename()` of a path: what stands behind its last slash.
unfoldable pub filename_from : List ℕ → List ℕ → List ℕ
filename_from name [] = name
filename_from name (c ∷ path) = filename_from (if c == 47 then [] else name ++ c ∷ []) path

abbrev pub filename : List ℕ → List ℕ
filename path = filename_from [] path

-- The prefix without the slashes at its end.
unfoldable pub trim_slashes : List ℕ → List ℕ
trim_slashes [] = []
trim_slashes (c ∷ text) =
    let rest = trim_slashes text in if c == 47 && is_empty rest then [] else c ∷ rest

unfoldable pub object_key : S3Config → List ℕ → List ℕ → List ℕ → List ℕ
unfolding trim_slashes
object_key cfg session_id subdir basename =
    if is_empty subdir
    then trim_slashes cfg.prefix ++ (47 ∷ session_id) ++ (47 ∷ basename)
    else trim_slashes cfg.prefix ++ (47 ∷ session_id) ++ (47 ∷ subdir) ++ (47 ∷ basename)
