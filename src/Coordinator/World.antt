-- ===== src/Coordinator/World.antt =====
-- What src/core/coordinator/coordinator.ts works on: the options it is given, the maps it keeps,
-- the recovery files, and the calls it makes to code and services outside the coordinator.
-- Each call is an entry of the trace; what it answers is a function of the trace so far, so the
-- environment may answer differently each time, fail, or follow any protocol of its own.
use browserlogin_client.Prelude.{ℕ, String, Bool, Option, List}
use browserlogin_client.Json.{Json}
use browserlogin_client.Recovery.{RecoveryState}
use browserlogin_client.Recovery.Legacy.{LegacyState}
use browserlogin_client.Recovery.Validate.{Fault}

-- `ProcessIdentity` of src/core/processes/identity.ts
pub record ProcessIdentity : Type 0 where
  pub pid : ℕ
  pub process_start_time : String
  pub cmdline_hash : String

-- `Session`: the fields that the coordinator reads. `archive_generation` is unchecked JSON.
pub record Session : Type 0 where
  pub id : String
  pub profile_id : String
  pub state : String
  pub status : Option String
  pub archive_generation : Option Json

-- `ArchiveIdentity` of the start response
pub record ArchiveIdentity : Type 0 where
  pub generation : ℕ
  pub size : ℕ
  pub sha256 : String

-- `StartResponse`; the profile is carried as one opaque text.
pub record StartResponse : Type 0 where
  pub session : Session
  pub profile : String
  pub archive : Option ArchiveIdentity

pub record Digest : Type 0 where
  pub size : ℕ
  pub sha256 : String

-- `LaunchSpec`; `base` is what the profile fixes, carried as one opaque text.
pub record LaunchSpec : Type 0 where
  pub base : String
  pub user_data_dir : String
  pub browser_cache_dir : String
  pub browser_cache_max_bytes : ℕ

pub record RunnerPaths : Type 0 where
  pub launch_file : String
  pub gate_file : String
  pub control_file : String
  pub ready_file : String

-- `RunnerHandle`; `stop` and `closed` are the calls and events named after it.
pub record RunnerHandle : Type 0 where
  pub identity : ProcessIdentity
  pub relay_cdp_url : Option String

-- `CoordinatorProfile`
pub record CoordinatorProfile : Type 0 where
  pub binary : Option String
  pub launch_spec : String
  pub session_launch_spec : Option (String → String)

pub data CrashPoint : Type 0 where
  after_start_intent_save after_license_save after_remote_active_save
        after_archive_materialized_save after_spawn_identity_save_before_ready after_running_save
        after_archive_ready_save after_upload_pending_save_before_stop after_force_stop_intent_save
        after_runner_stopped_before_identity_save after_license_released_before_state_save
        after_stop_response_before_adopt after_cache_publication_before_done_save :
      CrashPoint

-- `ProfileArchiveReference`
pub record ArchiveReference : Type 0 where
  pub app_origin : String
  pub profile_id : String
  pub generation : ℕ
  pub size : ℕ
  pub sha256 : String

-- `ProfileArchiveResolveResult`
pub data Resolved : Type 0 where
  hit : String → Resolved
  miss corrupt storage_error : Resolved

-- What is thrown. `storage` is a `ProfileArchiveStorageError`, `outside` any other error of a call.
pub data Failure : Type 0 where
  browser_login : String → Failure
  invalid_state : Fault → Failure
  state_error : String → Failure
  storage : String → Failure
  outside : String → Failure

pub data Result (A : Type 0) : Type 0 where
  ok : A → Result A
  err : Failure → Result A

-- A recovery file: a state, a legacy record, or JSON that is neither.
pub data Stored : Type 0 where
  current : RecoveryState → Stored
  legacy : LegacyState → Stored
  other : Stored

abbrev pub Disk : Type 0
Disk = String → Option Stored

pub data Effect : Type 0 where
  read_state write_state remove_state make_dir remove_path : String → Effect
  take_lock drop_lock : String → Effect
  read_clock random_id ensure_browser ensure_paths : Effect
  acquire_license release_license : Effect
  load_profile stop_runtime : String → Effect
  start_session : (profile key : String) → Effect
  session_status : String → Effect
  request_upload : (profile session : String) → Effect
  direct_upload : (path session : String) → Digest → Effect
  stop_session : (session : String) → Option Json → (key : String) → Effect
  force_stop_session : (session key : String) → Effect
  cache_resolve : ArchiveReference → Effect
  cache_remove : (origin profile : String) → Effect
  cache_publish : ArchiveReference → (path : String) → Effect
  download_archive : (profile : String) → ArchiveIdentity → (path : String) → Effect
  extract_archive : (path dir : String) → Digest → Effect
  create_archive : (dir path : String) → Effect
  digest_file : String → Effect
  assert_identity read_identity kill_tree stop_handle : ProcessIdentity → Effect
  stop_custom : RecoveryState → Effect
  launch_runner : LaunchSpec → (binary : String) → (license : Option String) → RunnerPaths → Effect
  crash : CrashPoint → Effect

-- A call, with the recovery files as they stand when it is made: what a crash there leaves.
pub record Entry : Type 0 where
  pub effect : Effect
  pub disk : Disk

abbrev pub Trace : Type 0
Trace = List Entry

-- How an atomic write ends: it may fail before or after the file is replaced.
pub data Written : Type 0 where
  saved : Written
  failed_before failed_after : Failure → Written

-- How the runner factory ends: the process that it reported by `onSpawned`, and its outcome.
pub record Launched : Type 0 where
  pub spawned : Option ProcessIdentity
  pub outcome : Result RunnerHandle

-- The argument of the idempotency key's digest.
pub data KeyPayload : Type 0 where
  start_of : (profile : String) → KeyPayload
  archive_of : Json → KeyPayload
  force_true rollback_start : KeyPayload

-- What the coordinator calls and does not implement: Node's `path`, hashes and files, the REST
-- client, the license relay, the runner, the archive code and the process table.
pub record Env : Type 0 where
  pub join : List String → String
  pub dirname : String → String
  pub resolve : String → String
  pub relative : String → String → String
  pub is_absolute : String → Bool
  pub sha256 : String → String
  pub key_digest : (operation run_id : String) → KeyPayload → String
  pub iso : ℕ → String
  pub clock : Trace → ℕ
  pub uuid : Trace → String
  pub lock_name : String → String
  pub ensure_paths : Trace → Result (Unit {0})
  pub take_lock : Trace → Result (Unit {0})
  pub read_file : Trace → Result (Unit {0})
  pub write_file : Trace → Written
  pub remove_file : Trace → Result (Unit {0})
  pub make_dir : Trace → Result (Unit {0})
  pub profile : Trace → Result CoordinatorProfile
  pub ensure_browser : Trace → Result String
  pub acquire : Trace → Result (Option String)
  pub release : Trace → Result (Unit {0})
  pub stop_runtime : Trace → Result (Unit {0})
  pub start_session : Trace → Result StartResponse
  pub session_status : Trace → Result Session
  pub request_upload : Trace → Result (Unit {0})
  pub direct_upload : Trace → Result String
  pub stop_session : Trace → Result Session
  pub force_stop_session : Trace → Result Session
  pub cache_resolve : Trace → Result Resolved
  pub cache_remove : Trace → Result (Unit {0})
  pub cache_publish : Trace → Result (Unit {0})
  pub download : Trace → Result (Unit {0})
  pub extract : Trace → Result (Unit {0})
  pub create : Trace → Result Digest
  pub digest : Trace → Result Digest
  pub assert_identity : Trace → Result (Unit {0})
  pub read_identity : Trace → Result (Option ProcessIdentity)
  pub kill_tree : Trace → Result (Unit {0})
  pub stop_handle : Trace → Result (Unit {0})
  pub stop_custom : Trace → Result (Unit {0})
  pub launch : Trace → Launched
  pub crashes : Trace → Result (Unit {0})

-- `CoordinatorOptions`. A callback that is present or absent is a Boolean here, and its calls are
-- effects; `license_key` is `license.key`.
pub record Options : Type 0 where
  pub root : String
  pub has_session_status : Bool
  pub has_license : Bool
  pub license_key : Option String
  pub has_runtime_stop : Bool
  pub has_stop_runner : Bool
  pub has_archive_cache : Bool
  pub app_origin : Option String

-- The fields of `LifecycleCoordinator` that change, the files, the trace, and `local`: the variable
-- `state` of `startLocked`, which its catch block and the `onSpawned` callback share.
pub record World : Type 0 where
  pub disk : Disk
  pub handles : String → Option RunnerHandle
  pub naturally_closed : String → Bool
  pub license_urls : String → Option String
  pub local : Option RecoveryState
  pub trace : Trace
