-- ===== src/Coordinator/Stop.antt =====
-- src/core/coordinator/coordinator.ts: `stopLocked`.
pub mod Safety
pub mod Resume
use browserlogin_client.Prelude.{
  ℕ, String, Bool, true, false, not, Option, none, some, [], ◌∷◌, ◌||◌, ◌&&◌, str_eq, append,
  opt_eq, truthy, is_some, or_else, if◌then◌else◌, ◌==◌,
}
use browserlogin_client.Json.{
  Json, num, str, obj, Fields, end, field, get, is_str, is_true, natural,
}
use browserlogin_client.Recovery.{
  RecoveryState, RecoveryStatus, ArchiveRecord, archive_materialized, archive_ready, upload_pending,
  upload_ambiguous, is_running, is_done, is_force_stop, is_upload_pending, is_upload_ambiguous,
}
use browserlogin_client.Recovery.Text.{safe_id}
use browserlogin_client.Recovery.Validate.{payload_get}
use browserlogin_client.Coordinator.World.{
  ProcessIdentity, Session, Digest, Failure, browser_login, outside, Result, ok, err, make_dir,
  session_status, request_upload, direct_upload, stop_session, force_stop_session, create_archive,
  digest_file, assert_identity, read_identity, after_archive_ready_save, archive_of,
  after_upload_pending_save_before_stop, after_stop_response_before_adopt, Env, Options,
}
use browserlogin_client.Coordinator.Exec.{
  M, pure, throw, call, observe, gets, ◌>>=◌, ◌>>◌, try_catch, throw_if,
}
use browserlogin_client.Coordinator.Store.{save, transition, crash_at, immutable_key}
use browserlogin_client.Coordinator.Cleanup.{halt, cleanup_locked, adopt_committed}
use browserlogin_client.Coordinator.Fields.{
  persisted_identity, clear_runner, clear_session, same_bytes, stopped, reports_stopped,
}

abbrev pub has : String → Fields → Bool
has key fs = is_some (get key fs)

abbrev commit_fields : Option String → Option Json → Option (String × Fields)
commit_fields (some key) (some (obj fs)) =
    if not (str_eq key "")
      && (has "storage_id" fs
          && (has "size" fs && (has "sha256" fs && is_str (get "format" fs) "zip")))
    then some (key, fs)
    else none
commit_fields _ _ = none

-- The commit that an upload-pending state carries: its key and its archive payload.
unfoldable pub persisted_commit : RecoveryState → Option (String × Fields)
persisted_commit s =
    if is_upload_pending s.status
    then commit_fields s.stop_key (payload_get "archive" s.stop_payload)
    else none

-- The payload that `stopLocked` builds for an uploaded archive.
abbrev pub archive_payload : String → Digest → Fields
archive_payload storage d =
    field "storage_id" (str storage)
      (field "size" (num d.size) (field "sha256" (str d.sha256) (field "format" (str "zip") end)))

-- The stop response is the commit of this session.
abbrev pub committed : RecoveryState → String → Session → Bool
committed s session r =
    str_eq r.id session
    && (str_eq r.profile_id s.profile_id && (stopped r && is_some (natural r.archive_generation)))

abbrev pub same_archive : Option ArchiveRecord → Digest → Bool
same_archive none d = false
same_archive (some a) d = d.size == a.size && str_eq d.sha256 a.sha256

abbrev generation_of : Option ArchiveRecord → ℕ
generation_of none = 0
generation_of (some a) = a.generation

abbrev pub with_archive : RecoveryState → String → Digest → RecoveryState
with_archive s artifact d = record s {
  archive_artifact = some artifact;
  archive =
      some (record { generation = generation_of s.archive; size = d.size; sha256 = d.sha256 });
}

module _ (env : Env) (opts : Options) where
  finish_commit : RecoveryState → String → Session → M Session
  finish_commit s session r = do
    throw_if (not (committed s session r)) (browser_login "stop response was not committed")
    crash_at env opts after_stop_response_before_adopt
    adopt_committed env opts s r

  digest_artifact : Option String → M Digest
  digest_artifact none = throw (outside "the artifact path is no text")
  digest_artifact (some path) = call (digest_file path) env.digest

  -- `stopLocked` from a persisted commit: the same key and payload are sent again.
  unfoldable pub commit_persisted : RecoveryState → String → String → Fields → M Session
  unfolding finish_commit digest_artifact
  commit_persisted s session key payload = do
    d ← digest_artifact s.archive_artifact
    throw_if (not (same_bytes d payload))
        (browser_login "persisted upload artifact no longer matches its archive identity")
    r ← call (stop_session session (some (obj payload)) key) env.stop_session
    finish_commit s session r

  stop_browser : RecoveryState → M RecoveryState
  stop_browser s = do
    ready ← transition env opts s archive_ready
    save env opts ready
    crash_at env opts after_archive_ready_save
    halt env opts ready
    save env opts (clear_session ready)
    pure (clear_session ready)

  artifact_path : RecoveryState → String
  artifact_path s =
      or_else s.archive_artifact (env.join (opts.root ∷ "artifacts" ∷ append s.run_id ".zip" ∷ []))

  pack : RecoveryState → String → M RecoveryState
  pack s artifact = do
    d ← call (create_archive s.work_dir artifact) env.create
    save env opts (with_archive s artifact d)
    pure (with_archive s artifact d)

  archive_once : RecoveryState → String → M RecoveryState
  unfolding pack
  archive_once s artifact = do
    call (make_dir (env.dirname artifact)) env.make_dir
    if truthy s.archive_artifact then pure s else pack s artifact

  upload_once : RecoveryState → String → String → Digest → M String
  upload_once s session artifact d = do
    storage ← call (direct_upload artifact session d) env.direct_upload
    throw_if (not (safe_id storage))
        (browser_login "direct upload returned an invalid storage identity")
    pure storage

  mark_ambiguous : RecoveryState → Failure → M String
  mark_ambiguous s e = do
    again ← transition env opts s upload_ambiguous
    save env opts again
    throw e

  pending : RecoveryState → String → Digest → M RecoveryState
  pending s storage d = do
    let payload = archive_payload storage d
    let key = or_else s.stop_key (immutable_key env opts "stop" s.run_id (archive_of (obj payload)))
    transition env opts
        (record s {
          stop_key = some key;
          stop_payload = some (field "archive" (obj payload) end);
          uploaded_storage_id = some storage;
        })
        upload_pending

  commit_upload : RecoveryState → String → String → Digest → M Session
  unfolding finish_commit pending
  commit_upload s session storage d = do
    next ← pending s storage d
    save env opts next
    crash_at env opts after_upload_pending_save_before_stop
    r ←
        call
          (stop_session session (some (obj (archive_payload storage d))) (or_else next.stop_key ""))
          env.stop_session
    finish_commit next session r

  upload : RecoveryState → String → String → M Session
  unfolding upload_once mark_ambiguous commit_upload
  upload s session artifact = do
    d ← call (digest_file artifact) env.digest
    throw_if (not (same_archive s.archive d))
        (browser_login "archive bytes changed after identity was persisted")
    call (request_upload s.profile_id session) env.request_upload
    sending ← transition env opts s upload_ambiguous
    save env opts sending
    storage ← try_catch (upload_once sending session artifact d) (mark_ambiguous sending)
    commit_upload sending session storage d

  stop_afresh : RecoveryState → String → M Session
  unfolding stop_browser artifact_path archive_once upload
  stop_afresh s session = do
    halted ← stop_browser s
    packed ← archive_once halted (artifact_path halted)
    upload packed session (artifact_path halted)

  stop_or_resume : RecoveryState → String → Option (String × Fields) → M Session
  unfolding commit_persisted stop_afresh
  stop_or_resume s session none = stop_afresh s session
  stop_or_resume s session (some (key, payload)) = commit_persisted s session key payload

  stop_confirmed : RecoveryState → String → M Session
  unfolding stop_or_resume
  stop_confirmed s session = do
    throw_if (is_true (payload_get "force" s.stop_payload))
        (browser_login "force stop is pending; retry force stop")
    throw_if (is_done s.status) (browser_login "session is already stopped")
    stop_or_resume s session (persisted_commit s)

  stop_session_of : RecoveryState → Option String → M Session
  unfolding stop_confirmed
  stop_session_of s none = throw (browser_login "recovery state omitted remote session identity")
  stop_session_of s (some session) =
      if str_eq session ""
      then throw (browser_login "recovery state omitted remote session identity")
      else stop_confirmed s session

  -- stopLocked
  unfoldable pub stop_locked : RecoveryState → M Session
  unfolding stop_session_of
  stop_locked s = stop_session_of s s.remote_session_id
