-- ===== src/Coordinator/Tests/Sample.antt =====
-- A service and a machine that answer every call, for the examples.
use browserlogin_client.Prelude.{String, true, false, none, some, List, [], ◌∷◌, append}
use browserlogin_client.Json.{num, obj, Fields, field, end}
use browserlogin_client.Recovery.{
  RecoveryState, start_intent, remote_active, running, upload_pending, upload_ambiguous,
}
use browserlogin_client.Coordinator.World.{
  ProcessIdentity, Session, Digest, RunnerHandle, ok, miss, saved, Env, Options, World, current,
}
use browserlogin_client.Recovery.Legacy.{LegacyState}
use browserlogin_client.Coordinator.Store.{put}
use browserlogin_client.Coordinator.Stop.{archive_payload}

abbrev pub profile : String
profile = "p1"

abbrev pub run : String
run = "0123456789abcdef0123456789abcdef"

abbrev pub digest_text : String
digest_text = "0123456789abcdef0123456789abcdef0123456789abcdef0123456789abcdef"

abbrev pub time : String
time = "2026-01-02T03:04:05.678Z"

abbrev slashed : List String → String
slashed [] = ""
slashed (p ∷ []) = p
slashed (p ∷ ps) = append p (append "/" (slashed ps))

abbrev pub identity : ProcessIdentity
identity = record { pid = 7; process_start_time = "now"; cmdline_hash = digest_text }

abbrev pub bytes : Digest
bytes = record { size = 3; sha256 = digest_text }

abbrev pub started : Session
started = record {
  id = "s1";
  profile_id = profile;
  state = "active";
  status = some "active";
  archive_generation = none;
}

abbrev pub ended : Session
ended = record {
  id = "s1";
  profile_id = profile;
  state = "stopped";
  status = some "stopped";
  archive_generation = some (num 4);
}

abbrev pub handle : RunnerHandle
handle = record { identity = identity; relay_cdp_url = none }

abbrev pub env : Env
env = record {
  join = slashed;
  dirname = λ p. "/dir";
  resolve = λ p. p;
  relative = λ root p. "inside";
  is_absolute = λ p. false;
  sha256 = λ s. s;
  key_digest = λ operation id payload. "key";
  iso = λ t. time;
  clock = λ t. 5;
  uuid = λ t. run;
  lock_name = λ s. s;
  ensure_paths = λ t. ok tt;
  take_lock = λ t. ok tt;
  read_file = λ t. ok tt;
  write_file = λ t. saved;
  remove_file = λ t. ok tt;
  make_dir = λ t. ok tt;
  profile = λ t.
      ok (record { binary = some "/chrome"; launch_spec = "spec"; session_launch_spec = none });
  ensure_browser = λ t. ok "/chrome";
  acquire = λ t. ok none;
  release = λ t. ok tt;
  stop_runtime = λ t. ok tt;
  start_session = λ t. ok (record { session = started; profile = "live"; archive = none });
  session_status = λ t. ok started;
  request_upload = λ t. ok tt;
  direct_upload = λ t. ok "stored";
  stop_session = λ t. ok ended;
  force_stop_session = λ t. ok ended;
  cache_resolve = λ t. ok miss;
  cache_remove = λ t. ok tt;
  cache_publish = λ t. ok tt;
  download = λ t. ok tt;
  extract = λ t. ok tt;
  create = λ t. ok bytes;
  digest = λ t. ok bytes;
  assert_identity = λ t. ok tt;
  read_identity = λ t. ok (some identity);
  kill_tree = λ t. ok tt;
  stop_handle = λ t. ok tt;
  stop_custom = λ t. ok tt;
  launch = λ t. record { spawned = some identity; outcome = ok handle };
  crashes = λ t. ok tt;
}

abbrev pub opts : Options
opts = record {
  root = "/r";
  has_session_status = true;
  has_license = false;
  license_key = none;
  has_runtime_stop = true;
  has_stop_runner = false;
  has_archive_cache = true;
  app_origin = some "https://app";
}

-- Nothing is recorded yet.
abbrev pub fresh : World
fresh = record {
  disk = λ path. none;
  handles = λ key. none;
  naturally_closed = λ key. false;
  license_urls = λ key. none;
  local = none;
  trace = [];
}

-- What a start from there ends with.
abbrev pub running_state : RecoveryState
running_state = record {
  profile_id = profile;
  run_id = run;
  start_key = "start-key";
  stop_key = none;
  remote_session_id = some "s1";
  archive = none;
  archive_artifact = none;
  work_dir = "/r/work/0123456789abcdef0123456789abcdef";
  cache_dir = "/r/browser-cache/0123456789abcdef0123456789abcdef";
  launch_file = some "/r/launch/0123456789abcdef0123456789abcdef.json";
  runner_pid = some 7;
  runner_start_time = some "now";
  runner_cmdline_hash = some digest_text;
  license_acquired = false;
  materialized = true;
  browser_launched = true;
  relay_cdp_url = none;
  uploaded_storage_id = none;
  stop_payload = none;
  retry_count = 0;
  retry_after = none;
  updated_at = time;
  status = running;
}

abbrev pub intent_state : RecoveryState
intent_state = record {
  profile_id = profile;
  run_id = run;
  start_key = "start-key";
  stop_key = none;
  remote_session_id = none;
  archive = none;
  archive_artifact = none;
  work_dir = "/r/work/0123456789abcdef0123456789abcdef";
  cache_dir = "/r/browser-cache/0123456789abcdef0123456789abcdef";
  launch_file = none;
  runner_pid = none;
  runner_start_time = none;
  runner_cmdline_hash = none;
  license_acquired = false;
  materialized = false;
  browser_launched = false;
  relay_cdp_url = none;
  uploaded_storage_id = none;
  stop_payload = none;
  retry_count = 0;
  retry_after = none;
  updated_at = time;
  status = start_intent;
}

abbrev pub active_state : RecoveryState
active_state = record intent_state { remote_session_id = some "s1"; status = remote_active }

abbrev packed_state : RecoveryState
packed_state = record active_state {
  archive = some (record { generation = 0; size = 3; sha256 = digest_text });
  archive_artifact = some "/r/artifacts/0123456789abcdef0123456789abcdef.zip";
  materialized = true;
}

abbrev pub ambiguous_state : RecoveryState
ambiguous_state = record packed_state { status = upload_ambiguous }

abbrev pub payload : Fields
payload = archive_payload "stored" bytes

abbrev pub pending_state : RecoveryState
pending_state = record packed_state {
  stop_key = some "stop-key";
  stop_payload = some (field "archive" (obj payload) end);
  uploaded_storage_id = some "stored";
  status = upload_pending;
}

-- The profile's file holds the state.
abbrev pub filed : RecoveryState → World
filed s = record fresh { disk = put fresh.disk "/r/state/p1.json" (some (current s)) }

abbrev pub legacy_record : LegacyState
legacy_record = record {
  profile_id = profile;
  run_id = run;
  start_key = "start-key";
  stop_key = some "stop-key";
  remote_session_id = "s1";
  archive = record { generation = 0; size = 3; sha256 = digest_text };
  pending_archive_artifact = "/r/artifacts/0123456789abcdef0123456789abcdef.zip";
  launch_file = none;
  license_acquired = false;
  archive_materialized = true;
  browser_launched = false;
  uploaded_storage_id = some "stored";
  stop_payload = some (field "archive" (obj payload) end);
}
