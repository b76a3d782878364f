-- ===== src/Recovery.antt =====
-- src/core/coordinator/state.ts, the data: what the coordinator persists for each profile.
-- `version` and `archive.format` are constants of the schema and carry no information.
pub mod Text
pub mod Validate
pub mod Legacy
pub mod Coherence
pub mod Tests
use browserlogin_client.Prelude.{ℕ, String, Bool, true, false, Option}
use browserlogin_client.Json.{Fields}

-- RECOVERY_STATUSES
pub data RecoveryStatus : Type 0 where
  start_intent license remote_active archive_materialized spawn_intent running archive_ready
        upload_pending done force_stop upload_ambiguous :
      RecoveryStatus

pub record ArchiveRecord : Type 0 where
  pub generation : ℕ
  pub size : ℕ
  pub sha256 : String

pub record RecoveryState : Type 0 where
  pub profile_id : String
  pub run_id : String
  pub start_key : String
  pub stop_key : Option String
  pub remote_session_id : Option String
  pub archive : Option ArchiveRecord
  pub archive_artifact : Option String
  pub work_dir : String
  pub cache_dir : String
  pub launch_file : Option String
  pub runner_pid : Option ℕ
  pub runner_start_time : Option String
  pub runner_cmdline_hash : Option String
  pub license_acquired : Bool
  pub materialized : Bool
  pub browser_launched : Bool
  pub relay_cdp_url : Option String
  pub uploaded_storage_id : Option String
  pub stop_payload : Option Fields
  pub retry_count : ℕ
  pub retry_after : Option String
  pub updated_at : String
  pub status : RecoveryStatus

-- `status === "…"`, a test for each status that the code compares with.
abbrev pub is_start_intent : RecoveryStatus → Bool
is_start_intent start_intent = true
is_start_intent _ = false

abbrev pub is_running : RecoveryStatus → Bool
is_running running = true
is_running _ = false

abbrev pub is_archive_ready : RecoveryStatus → Bool
is_archive_ready archive_ready = true
is_archive_ready _ = false

abbrev pub is_upload_pending : RecoveryStatus → Bool
is_upload_pending upload_pending = true
is_upload_pending _ = false

abbrev pub is_done : RecoveryStatus → Bool
is_done done = true
is_done _ = false

abbrev pub is_force_stop : RecoveryStatus → Bool
is_force_stop force_stop = true
is_force_stop _ = false

abbrev pub is_upload_ambiguous : RecoveryStatus → Bool
is_upload_ambiguous upload_ambiguous = true
is_upload_ambiguous _ = false
