-- ===== src/Coordinator/Operations.antt =====
-- src/core/coordinator/coordinator.ts: `start`, `stop`, `forceStop` and `rollbackStart` of
-- `LifecycleCoordinator`, each under its transition locks.
pub mod Safety
pub mod Stopping
pub mod Ambiguous
use browserlogin_client.Prelude.{
  ℕ, ◌+◌, String, Bool, true, false, not, Option, none, some, ◌&&◌, ◌||◌, ◌==◌, ltb, str_eq, opt_eq,
  truthy, or_else, if◌then◌else◌,
}
use browserlogin_client.Json.{bool, obj, Fields, end, field}
use browserlogin_client.Recovery.{
  RecoveryStatus, start_intent, license, remote_active, archive_materialized, spawn_intent,
  upload_pending, force_stop, RecoveryState, ArchiveRecord, is_running, is_archive_ready,
  is_upload_pending, is_done, is_force_stop, is_upload_ambiguous,
}
use browserlogin_client.Recovery.Text.{safe_text}
use browserlogin_client.Coordinator.World.{
  Session, Failure, browser_login, read_clock, random_id, stop_runtime, stop_session,
  after_start_intent_save, after_force_stop_intent_save, start_of, archive_of, force_true,
  rollback_start, Env, Options,
}
use browserlogin_client.Coordinator.Exec.{
  M, pure, throw, call, observe, modify, ◌>>=◌, ◌>>◌, try_catch, when, throw_if, skip,
}
use browserlogin_client.Coordinator.Store.{
  load, save, with_transition, transition, crash_at, save_retry, require_state, new_state,
  immutable_key,
}
use browserlogin_client.Coordinator.Cleanup.{stop_runner, give_back_license, cleanup_locked}
use browserlogin_client.Coordinator.Fields.{set_key, clear_runner, stopped}
use browserlogin_client.Coordinator.Stop.{archive_payload, stop_locked}
use browserlogin_client.Coordinator.Reconcile.{reconcile_locked, force_stop_locked}
use browserlogin_client.Coordinator.Start.{start_locked}

-- The statuses that a start or a recovery goes on from.
abbrev pub resumable : RecoveryStatus → Bool
resumable start_intent = true
resumable license = true
resumable remote_active = true
resumable archive_materialized = true
resumable spawn_intent = true
resumable _ = false

-- The statuses that `rollbackStart` accepts.
abbrev pub rolls_back : RecoveryStatus → Bool
rolls_back remote_active = true
rolls_back archive_materialized = true
rolls_back spawn_intent = true
rolls_back _ = false

abbrev pub force_payload : Fields
force_payload = field "force" (bool true) end

module _ (env : Env) (opts : Options) where
  clean_done : Option RecoveryState → M (Unit {0})
  clean_done none = skip
  clean_done (some s) = if is_done s.status then cleanup_locked env opts s false else skip

  unfoldable pub start_fresh : String → Option RecoveryState → M RecoveryState
  unfolding clean_done
  start_fresh profile found = do
    clean_done found
    run ← observe random_id env.uuid
    fresh ← new_state env opts profile run (immutable_key env opts "start" run (start_of profile))
    save env opts fresh
    crash_at env opts after_start_intent_save
    start_locked env opts fresh

  -- After a reconciliation that did not end the method.
  unfoldable pub start_reconciled : String → Option RecoveryState → M RecoveryState
  unfolding start_fresh
  start_reconciled profile none = start_fresh profile none
  start_reconciled profile (some s) =
      if is_running s.status
      then pure s
      else if is_upload_ambiguous s.status
      then throw (
          browser_login
            "archive upload outcome is unresolved; resolve it before starting this profile again")
      else if resumable s.status
      then start_locked env opts s
      else start_fresh profile (some s)

  start_stored : String → RecoveryState → M RecoveryState
  unfolding start_reconciled
  start_stored profile s = do
    reconcile_locked env opts s
    again ← load env opts profile
    start_reconciled profile again

  start_found : String → Option RecoveryState → M RecoveryState
  unfolding start_stored
  start_found profile none = start_fresh profile none
  start_found profile (some s) =
      if is_done s.status then start_fresh profile (some s) else start_stored profile s

  start_work : String → M RecoveryState
  unfolding start_found
  start_work profile = do found ← load env opts profile; start_found profile found

  -- start
  unfoldable pub start : String → M RecoveryState
  unfolding start_work
  start profile = with_transition env opts profile (start_work profile)

  stop_current : RecoveryState → M Session
  stop_current s = do
    throw_if (not (truthy s.remote_session_id))
        (browser_login "force stop requires a confirmed remote session")
    throw_if (is_upload_ambiguous s.status) (
        browser_login "archive upload outcome is unresolved; resolve it explicitly before stopping")
    stop_locked env opts s

  stop_loaded : Option RecoveryState → M Session
  unfolding stop_current
  stop_loaded none = throw (browser_login "lifecycle state disappeared during reconciliation")
  stop_loaded (some s) = stop_current s

  stop_unless : String → Option Session → M Session
  unfolding stop_loaded
  stop_unless profile (some r) = pure r
  stop_unless profile none = do again ← load env opts profile; stop_loaded again

  stop_work : String → M Session
  unfolding stop_unless
  stop_work profile = do
    s ← require_state env opts profile
    reconciled ← reconcile_locked env opts s
    stop_unless profile reconciled

  -- stop
  unfoldable pub stop : String → M Session
  unfolding stop_work
  stop profile = with_transition env opts profile (stop_work profile)

  intend_force : RecoveryState → M RecoveryState
  intend_force s = do
    next ←
        transition env opts
          (record s {
            stop_key = some (immutable_key env opts "force-stop" s.run_id force_true);
            stop_payload = some force_payload;
          })
          force_stop
    save env opts next
    crash_at env opts after_force_stop_intent_save
    pure next

  force_stop_work : String → M Session
  unfolding intend_force
  force_stop_work profile = do
    s ← require_state env opts profile
    throw_if (not (truthy s.remote_session_id))
        (browser_login "force stop requires a confirmed remote session")
    intended ← if is_force_stop s.status then pure s else intend_force s
    force_stop_locked env opts intended

  -- forceStop
  unfoldable pub force_stop_session : String → M Session
  unfolding force_stop_work
  force_stop_session profile = with_transition env opts profile (force_stop_work profile)

  roll_back : RecoveryState → M Session
  roll_back s = do
    when opts.has_runtime_stop (call (stop_runtime s.profile_id) env.stop_runtime)
    stop_runner env opts s
    when s.license_acquired (give_back_license env opts s)
    r ←
        call
          (stop_session (or_else s.remote_session_id "") none
            (immutable_key env opts "stop" s.run_id rollback_start))
          env.stop_session
    throw_if
        (not (opt_eq (some r.id) s.remote_session_id)
          || (not (str_eq r.profile_id s.profile_id) || not (stopped r)))
        (browser_login "start rollback was not committed")
    cleanup_locked env opts s false
    pure r

  rollback_work : String → M Session
  unfolding roll_back
  rollback_work profile = do
    s ← require_state env opts profile
    throw_if (not (truthy s.remote_session_id))
        (browser_login "start rollback requires a confirmed remote session")
    throw_if (not (rolls_back s.status))
        (browser_login "start rollback is only available before browser readiness")
    roll_back s

  -- rollbackStart
  unfoldable pub rollback : String → M Session
  unfolding rollback_work
  rollback profile = with_transition env opts profile (rollback_work profile)
