-- ===== src/Recovery/Legacy.antt =====
-- src/core/coordinator/legacy-state.ts: a record that an older release left in upload-pending.
use browserlogin_client.Prelude.{
  String, Bool, Option, none, some, List, [], ◌∷◌, ◌&&◌, if◌then◌else◌,
}
use browserlogin_client.Json.{Fields}
use browserlogin_client.Recovery.{RecoveryState, ArchiveRecord, upload_pending}
use browserlogin_client.Recovery.Text.{safe_id, run_id_text}
use browserlogin_client.Recovery.Validate.{nullable, archive_ok}

-- legacyUploadPendingSchema
pub record LegacyState : Type 0 where
  pub profile_id : String
  pub run_id : String
  pub start_key : String
  pub stop_key : Option String
  pub remote_session_id : String
  pub archive : ArchiveRecord
  pub pending_archive_artifact : String
  pub launch_file : Option String
  pub license_acquired : Bool
  pub archive_materialized : Bool
  pub browser_launched : Bool
  pub uploaded_storage_id : Option String
  pub stop_payload : Option Fields

unfoldable pub legacy_ok : LegacyState → Bool
legacy_ok l =
    safe_id l.profile_id
    && (run_id_text l.run_id
        && (safe_id l.start_key
            && (nullable safe_id l.stop_key
                && (safe_id l.remote_session_id
                    && (archive_ok l.archive
                        && (safe_id l.pending_archive_artifact
                            && (nullable safe_id l.launch_file
                                && nullable safe_id l.uploaded_storage_id)))))))

-- The object that `migrateLegacyRecoveryState` builds; `join` is Node's, `now` the current time.
unfoldable pub migrated : (List String → String) → String → String → LegacyState → RecoveryState
migrated join root now l = record {
  profile_id = l.profile_id;
  run_id = l.run_id;
  start_key = l.start_key;
  stop_key = l.stop_key;
  remote_session_id = some l.remote_session_id;
  archive = some l.archive;
  archive_artifact = some l.pending_archive_artifact;
  work_dir = join (root ∷ "work" ∷ l.run_id ∷ []);
  cache_dir = join (root ∷ "browser-cache" ∷ l.run_id ∷ []);
  launch_file = l.launch_file;
  runner_pid = none;
  runner_start_time = none;
  runner_cmdline_hash = none;
  license_acquired = l.license_acquired;
  materialized = l.archive_materialized;
  browser_launched = l.browser_launched;
  relay_cdp_url = none;
  uploaded_storage_id = l.uploaded_storage_id;
  stop_payload = l.stop_payload;
  retry_count = 0;
  retry_after = none;
  updated_at = now;
  status = upload_pending;
}

-- migrateLegacyRecoveryState: none when the legacy schema refuses the value, which is then
-- returned as it is and is no recovery state either.
unfoldable pub migrate :
    (List String → String) → String → String → LegacyState → Option RecoveryState
migrate join root now l = if legacy_ok l then some (migrated join root now l) else none
