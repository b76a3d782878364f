-- ===== src/Recovery/Validate.antt =====
-- src/core/coordinator/state.ts: `stateSchema`, `assertSecretFree` and `validateRecoveryState`, on
-- a value that already has the schema's shape. The schema's tests on texts and on the process
-- number are kept; that a field is a text, a natural or absent is what its type says.
use browserlogin_client.Prelude.{
  String, Bool, true, false, not, Option, none, some, ◌&&◌, ◌||◌, leb, if◌then◌else◌, truthy,
  is_some,
}
use browserlogin_client.Json.{
  Json, str, arr, obj, Items, nil, cons, Fields, end, field, get, is_true,
}
use browserlogin_client.Recovery.{
  RecoveryStatus, start_intent, license, RecoveryState, ArchiveRecord, is_start_intent, is_running,
  is_upload_pending, is_done, is_force_stop, is_upload_ambiguous,
}
use browserlogin_client.Recovery.Text.{safe_id, hex64, run_id_text, iso_date, forbidden}

-- Why a state is refused: the message of the `StateError`.
pub data Fault : Type 0 where
  bad_schema secret_material licensed_intent incomplete_running incomplete_upload incomplete_done
        incomplete_force_stop missing_session partial_identity incomplete_identity :
      Fault

-- `.nullable()`.
abbrev pub nullable {ℓ} : {A : Type ℓ} → (A → Bool) → Option A → Bool
nullable p none = true
nullable p (some a) = p a

unfoldable pub archive_ok : ArchiveRecord → Bool
archive_ok a = hex64 a.sha256

-- stateSchema
unfoldable pub schema_ok : RecoveryState → Bool
unfolding archive_ok
schema_ok s =
    safe_id s.profile_id
    && (run_id_text s.run_id
        && (safe_id s.start_key
            && (nullable safe_id s.stop_key
                && (nullable safe_id s.remote_session_id
                    && (nullable archive_ok s.archive
                        && (nullable safe_id s.archive_artifact
                            && (safe_id s.work_dir
                                && (safe_id s.cache_dir
                                    && (nullable safe_id s.launch_file
                                        && (nullable (leb 1) s.runner_pid
                                            && (nullable safe_id s.runner_start_time
                                                && (nullable hex64 s.runner_cmdline_hash
                                                    && (nullable safe_id s.relay_cdp_url
                                                        && (nullable safe_id s.uploaded_storage_id
                                                            && (nullable iso_date s.retry_after
                                                            && iso_date s.updated_at)))))))))))))))

-- assertSecretFree, on the free part of the state
unfoldable mutual
  pub secret_free : Json → Bool
  secret_free (arr items) = secret_free_items items
  secret_free (obj fields) = secret_free_fields fields
  secret_free _ = true

  pub secret_free_items : Items → Bool
  secret_free_items nil = true
  secret_free_items (cons v vs) = secret_free v && secret_free_items vs

  pub secret_free_fields : Fields → Bool
  secret_free_fields end = true
  secret_free_fields (field k (str s) fs) =
      not (forbidden k || forbidden s) && secret_free_fields fs
  secret_free_fields (field k v fs) = not (forbidden k) && (secret_free v && secret_free_fields fs)

abbrev clean : String → Bool
clean s = not (forbidden s)

-- assertSecretFree(state): no key of the state itself is forbidden, so its texts are tested.
unfoldable pub state_secret_free : RecoveryState → Bool
state_secret_free s =
    clean s.profile_id
    && (clean s.run_id
        && (clean s.start_key
            && (nullable clean s.stop_key
                && (nullable clean s.remote_session_id
                    && (nullable (λ a. clean a.sha256) s.archive
                        && (nullable clean s.archive_artifact
                            && (clean s.work_dir
                                && (clean s.cache_dir
                                    && (nullable clean s.launch_file
                                        && (nullable clean s.runner_start_time
                                            && (nullable clean s.runner_cmdline_hash
                                                && (nullable clean s.relay_cdp_url
                                                    && (nullable clean s.uploaded_storage_id
                                                        && (nullable secret_free_fields
                                                            s.stop_payload
                                                            && (nullable clean s.retry_after
                                                            && clean s.updated_at)))))))))))))))

abbrev pub payload_get : String → Option Fields → Option Json
payload_get key none = none
payload_get key (some fs) = get key fs

-- The statuses that the code lists as needing a remote session.
abbrev pub needs_session : RecoveryStatus → Bool
needs_session start_intent = false
needs_session license = false
needs_session _ = true

-- The tests of `validateRecoveryState` after the schema, in their order.
unfoldable pub state_fault : RecoveryState → Option Fault
state_fault s =
    if not (state_secret_free s)
    then some secret_material
    else if s.license_acquired && is_start_intent s.status
    then some licensed_intent
    else if is_running s.status && (not (truthy s.remote_session_id) || not s.browser_launched)
    then some incomplete_running
    else if (is_upload_pending s.status || is_upload_ambiguous s.status)
        && not (truthy s.archive_artifact)
    then some incomplete_upload
    else if is_done s.status && (not (truthy s.stop_key) || not (is_some s.stop_payload))
    then some incomplete_done
    else if is_force_stop s.status && not (is_true (payload_get "force" s.stop_payload))
    then some incomplete_force_stop
    else if needs_session s.status && not (truthy s.remote_session_id)
    then some missing_session
    else if not (is_some s.runner_pid)
        && (is_some s.runner_start_time || is_some s.runner_cmdline_hash)
    then some partial_identity
    else if is_some s.runner_pid
        && (not (is_some s.runner_start_time) || not (is_some s.runner_cmdline_hash))
    then some incomplete_identity
    else none

-- validateRecoveryState: none when the state is accepted.
unfoldable pub validate : RecoveryState → Option Fault
validate s = if schema_ok s then state_fault s else some bad_schema
