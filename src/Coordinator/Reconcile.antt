-- ===== src/Coordinator/Reconcile.antt =====
-- src/core/coordinator/coordinator.ts: `cleanupRemoteStoppedLocked`, `reconcileLocked` and
-- `forceStopLocked`.
pub mod Safety
use browserlogin_client.Prelude.{
  ℕ, String, Bool, true, false, not, Option, none, some, [], ◌∷◌, ◌||◌, ◌&&◌, str_eq, append,
  opt_eq, truthy, is_some, or_else, if◌then◌else◌, ◌==◌,
}
use browserlogin_client.Json.{
  Json, num, str, obj, Fields, end, field, get, is_str, is_true, natural,
}
use browserlogin_client.Recovery.{
  RecoveryState, RecoveryStatus, ArchiveRecord, archive_materialized, archive_ready, upload_pending,
  upload_ambiguous, is_running, is_done, is_force_stop, is_upload_pending, is_upload_ambiguous,
}
use browserlogin_client.Recovery.Text.{safe_id}
use browserlogin_client.Recovery.Validate.{payload_get}
use browserlogin_client.Coordinator.World.{
  ProcessIdentity, Session, Digest, Failure, browser_login, outside, Result, ok, err, make_dir,
  session_status, request_upload, direct_upload, stop_session, force_stop_session, create_archive,
  digest_file, assert_identity, read_identity, after_archive_ready_save, archive_of,
  after_upload_pending_save_before_stop, after_stop_response_before_adopt, Env, Options,
}
use browserlogin_client.Coordinator.Exec.{
  M, pure, throw, call, observe, gets, ◌>>=◌, ◌>>◌, try_catch, throw_if,
}
use browserlogin_client.Coordinator.Store.{save, transition, crash_at, immutable_key}
use browserlogin_client.Coordinator.Cleanup.{halt, cleanup_locked, adopt_committed}
use browserlogin_client.Coordinator.Fields.{
  persisted_identity, clear_runner, clear_session, same_bytes, stopped, reports_stopped,
}
use browserlogin_client.Coordinator.Stop.{stop_locked}

module _ (env : Env) (opts : Options) where
  abbrev after_stop : RecoveryStatus → RecoveryStatus
  after_stop st = if is_running st then archive_materialized else st

  discard_stopped : RecoveryState → Session → M Session
  discard_stopped s remote = do
    halt env opts s
    let cleared = record (clear_session s) { status = after_stop s.status }
    save env opts cleared
    cleanup_locked env opts cleared true
    pure remote

  -- cleanupRemoteStoppedLocked
  unfoldable pub cleanup_remote_stopped : RecoveryState → Session → M Session
  unfolding discard_stopped
  cleanup_remote_stopped s remote =
      if is_upload_pending s.status
      then adopt_committed env opts s remote
      else discard_stopped s remote

  some_session : M Session → M (Option Session)
  some_session m = do r ← m; pure (some r)

  ask_status : String → M Session
  ask_status id = call (session_status id) env.session_status

  -- The remote session, where the API can tell and the state has one.
  status_of : Option String → M (Option Session)
  unfolding some_session ask_status
  status_of none = pure none
  status_of (some id) =
      if not (str_eq id "") && opts.has_session_status
      then some_session (ask_status id)
      else pure none

  abbrev foreign : RecoveryState → Session → Bool
  foreign s r =
      not (opt_eq (some r.id) s.remote_session_id) || not (str_eq r.profile_id s.profile_id)

  stop_dead : RecoveryState → M (Option Session)
  stop_dead s = do
    next ← transition env opts (clear_runner s) archive_materialized
    save env opts next
    r ← stop_locked env opts next
    pure (some r)

  check_dead : RecoveryState → ProcessIdentity → Result (Unit {0}) → M (Option Session)
  unfolding stop_dead
  check_dead s id (ok u) = pure none
  check_dead s id (err f) = do
    actual ← call (read_identity id) env.read_identity
    throw_if (is_some actual)
        (browser_login "persisted runner identity does not match the live process")
    stop_dead s

  check_runner : RecoveryState → Option ProcessIdentity → M (Option Session)
  unfolding check_dead
  check_runner s none = pure none
  check_runner s (some id) = do
    alive ← observe (assert_identity id) env.assert_identity
    check_dead s id alive

  reconcile_running : RecoveryState → M (Option Session)
  unfolding check_runner
  reconcile_running s = do
    handle ← gets (λ w. w.handles s.profile_id)
    (if is_running s.status && not (is_some handle)
        then check_runner s (persisted_identity s)
        else pure none)

  reconcile_local : RecoveryState → M (Option Session)
  unfolding reconcile_running
  reconcile_local s =
      if is_force_stop s.status || is_upload_ambiguous s.status
      then pure none
      else reconcile_running s

  reconcile_remote : RecoveryState → Option Session → M (Option Session)
  unfolding reconcile_local some_session
  reconcile_remote s none = reconcile_local s
  reconcile_remote s (some r) = do
    throw_if (foreign s r) (browser_login "remote session identity mismatch during reconciliation")
    if reports_stopped r then some_session (cleanup_remote_stopped s r) else reconcile_local s

  -- reconcileLocked
  unfoldable pub reconcile_locked : RecoveryState → M (Option Session)
  unfolding status_of reconcile_remote
  reconcile_locked s = do remote ← status_of s.remote_session_id; reconcile_remote s remote

  force_halted : RecoveryState → M Session
  force_halted s = do
    halt env opts s
    let cleared = clear_session s
    save env opts cleared
    r ←
        call
          (force_stop_session (or_else cleared.remote_session_id "") (or_else cleared.stop_key ""))
          env.force_stop_session
    throw_if
        (not (opt_eq (some r.id) cleared.remote_session_id)
          || (not (str_eq r.profile_id cleared.profile_id) || not (stopped r)))
        (browser_login "force stop response was not committed")
    cleanup_locked env opts cleared true
    pure r

  force_remote : RecoveryState → Option Session → M Session
  unfolding force_halted
  force_remote s none = force_halted s
  force_remote s (some r) = do
    throw_if (foreign s r) (browser_login "remote session identity mismatch during force stop")
    if reports_stopped r then cleanup_remote_stopped s r else force_halted s

  -- forceStopLocked
  unfoldable pub force_stop_locked : RecoveryState → M Session
  unfolding status_of force_remote
  force_stop_locked s = do remote ← status_of s.remote_session_id; force_remote s remote
