-- ===== src/Session/Manager.antt =====
-- `SessionManager`. A text is the list of its characters' codes. The clock and the maker of session
-- names are read by the caller of an operation; the directories that `Start` creates are not modelled.
use local_pc.Common.{ℕ, Option, none, some, List, [], ◌∷◌, if◌then◌else◌, ◌==◌}

abbrev pub Text : Type 0
Text = List ℕ

pub data SessionState : Type 0 where
  idle recording stopping closed error : SessionState

pub data RuntimeErrorCode : Type 0 where
  ok session_busy not_recording storage_critical config_error internal_error : RuntimeErrorCode

pub record ScenarioMetadata : Type 0 where
  pub scenario_id : Text
  pub scenario_name : Text
  pub operator_name : Text
  pub notes : Text

pub record SessionInfo : Type 0 where
  pub session_id : Text
  pub storage_path : Text
  pub started_at_utc : Text
  pub stopped_at_utc : Text
  pub source_ip : Text
  pub stop_reason : Text
  pub state : SessionState

pub record SessionManager : Type 0 where
  pub data_root : Text
  pub active : Option SessionInfo
  pub scenario : ScenarioMetadata

abbrev pub no_scenario : ScenarioMetadata
no_scenario = record { scenario_id = []; scenario_name = []; operator_name = []; notes = [] }

abbrev pub init : Text → SessionManager
init data_root = record { data_root = data_root; active = none; scenario = no_scenario }

-- `path / part` of std::filesystem for a relative part: one separator, which is not doubled.
unfoldable pub join_path : Text → Text → Text
join_path [] part = part
join_path (c ∷ []) part = if c == 47 then c ∷ part else c ∷ 47 ∷ part
join_path (c ∷ d ∷ path) part = c ∷ join_path (d ∷ path) part

abbrev sessions_dir : Text
sessions_dir = 115 ∷ 101 ∷ 115 ∷ 115 ∷ 105 ∷ 111 ∷ 110 ∷ 115 ∷ []

unfoldable pub state_of : SessionManager → SessionState
state_of m = elim m.active [ none ↦ idle | some info ↦ info.state ]

unfoldable pub session_dir : SessionManager → Text
session_dir m = elim m.active [ none ↦ [] | some info ↦ info.storage_path ]

unfoldable pub set_source_ip : SessionManager → Text → SessionManager
set_source_ip m ip = elim m.active [
  | none ↦ m
  | some info ↦ record m { active = some (record info { source_ip = ip }) }
]

-- The session that `Start` makes active.
unfoldable pub new_session : SessionManager → Text → Text → Text → SessionInfo
unfolding join_path
new_session m session_id now source_ip = record {
  session_id = session_id;
  storage_path = join_path (join_path m.data_root sessions_dir) session_id;
  started_at_utc = now;
  stopped_at_utc = [];
  source_ip = source_ip;
  stop_reason = [];
  state = recording;
}

-- `Start`, with what `MakeSessionId` and `UtcNowIso8601` return.
unfoldable pub start :
    SessionManager → ScenarioMetadata → Text → Text → Text → SessionManager × RuntimeErrorCode
unfolding state_of new_session
start m scenario source_ip session_id now = elim (state_of m) [
  | recording ↦ (m, session_busy)
  | other ↦
      (record m { active = some (new_session m session_id now source_ip); scenario = scenario }, ok)
]

unfoldable pub stop : SessionManager → Text → SessionManager × RuntimeErrorCode
stop m reason = elim m.active [
  | none ↦ (m, not_recording)
  | some info ↦ elim info.state [
    | recording ↦
        (record m { active = some (record info { state = stopping; stop_reason = reason }) }, ok)
    | other ↦ (m, not_recording)
  ]
]

unfoldable pub emergency_stop : SessionManager → Text → SessionManager × RuntimeErrorCode
emergency_stop m reason = stop m reason

unfoldable pub mark_stopped : SessionManager → Text → Text → SessionManager
mark_stopped m reason now = elim m.active [
  | none ↦ m
  | some info ↦ record m {
    active = some (record info { stopped_at_utc = now; stop_reason = reason; state = closed });
  }
]

unfoldable pub set_error : SessionManager → Text → SessionManager
set_error m reason = elim m.active [
  | none ↦ m
  | some info ↦ record m { active = some (record info { stop_reason = reason; state = error }) }
]
