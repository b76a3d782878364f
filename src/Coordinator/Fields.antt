-- ===== src/Coordinator/Fields.antt =====
-- src/core/coordinator/coordinator.ts: what its methods set in a recovery state and read from answers.
use browserlogin_client.Prelude.{
  ℕ, String, Bool, false, not, Option, none, some, ◌||◌, ◌&&◌, str_eq, opt_eq, if◌then◌else◌,
}
use browserlogin_client.Json.{Json, obj, arr, Fields, end, get, is_num, is_str}
use browserlogin_client.Recovery.{RecoveryState}
use browserlogin_client.Coordinator.World.{ProcessIdentity, Session, Digest}

-- A key of a map is set or deleted.
abbrev pub set_key : {A : Type 0} → (String → A) → String → A → String → A
set_key m key v k = if str_eq key k then v else m k

-- The runner's fields of a state; none unless all three are there.
abbrev identity_parts : Option ℕ → Option String → Option String → Option ProcessIdentity
identity_parts (some pid) (some start) (some hash) =
    some (record { pid = pid; process_start_time = start; cmdline_hash = hash })
identity_parts _ _ _ = none

abbrev pub persisted_identity : RecoveryState → Option ProcessIdentity
persisted_identity s = identity_parts s.runner_pid s.runner_start_time s.runner_cmdline_hash

-- The live process is not the one that was recorded.
abbrev pub differs : ProcessIdentity → ProcessIdentity → Bool
differs expected actual =
    not (str_eq actual.process_start_time expected.process_start_time)
    || not (str_eq actual.cmdline_hash expected.cmdline_hash)

abbrev pub clear_identity : RecoveryState → RecoveryState
clear_identity s = record s {
  runner_pid = none;
  runner_start_time = none;
  runner_cmdline_hash = none;
}

abbrev pub clear_runner : RecoveryState → RecoveryState
clear_runner s = record s {
  runner_pid = none;
  runner_start_time = none;
  runner_cmdline_hash = none;
  browser_launched = false;
  relay_cdp_url = none;
}

-- The fields that a stopped session resets.
abbrev pub clear_session : RecoveryState → RecoveryState
clear_session s = record s {
  runner_pid = none;
  runner_start_time = none;
  runner_cmdline_hash = none;
  browser_launched = false;
  relay_cdp_url = none;
  license_acquired = false;
  launch_file = none;
}

-- `typeof v === "object" && v !== null`; an array has none of the fields that are read.
abbrev pub object_fields : Option Json → Option Fields
object_fields (some (obj fs)) = some fs
object_fields (some (arr vs)) = some end
object_fields _ = none

abbrev pub same_bytes : Digest → Fields → Bool
same_bytes d payload = is_num (get "size" payload) d.size && is_str (get "sha256" payload) d.sha256

abbrev pub stopped : Session → Bool
stopped r = str_eq r.state "stopped" && opt_eq r.status (some "stopped")

-- The test of a polled session, which asks for one of the two fields only.
abbrev pub reports_stopped : Session → Bool
reports_stopped r = str_eq r.state "stopped" || opt_eq r.status (some "stopped")
