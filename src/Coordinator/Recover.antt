-- ===== src/Coordinator/Recover.antt =====
-- src/core/coordinator/coordinator.ts: `recover`, `resolveUploadAmbiguous` and
-- `browserProcessClosed` of `LifecycleCoordinator`, and the callbacks that the runner's end makes.
pub mod Safety
pub mod Ambiguous
pub mod Resolve
use browserlogin_client.Prelude.{
  ℕ, ◌+◌, String, Bool, true, false, not, Option, none, some, ◌&&◌, ◌||◌, ◌==◌, ltb, str_eq, opt_eq,
  truthy, or_else, if◌then◌else◌,
}
use browserlogin_client.Json.{bool, obj, Fields, end, field}
use browserlogin_client.Recovery.{
  RecoveryStatus, start_intent, license, remote_active, archive_materialized, spawn_intent,
  upload_pending, force_stop, RecoveryState, ArchiveRecord, is_running, is_archive_ready,
  is_upload_pending, is_done, is_force_stop, is_upload_ambiguous,
}
use browserlogin_client.Recovery.Text.{safe_text}
use browserlogin_client.Coordinator.World.{
  Session, Failure, browser_login, read_clock, random_id, stop_runtime, stop_session,
  after_start_intent_save, after_force_stop_intent_save, start_of, archive_of, force_true,
  rollback_start, Env, Options,
}
use browserlogin_client.Coordinator.Exec.{
  M, pure, throw, call, observe, modify, ◌>>=◌, ◌>>◌, try_catch, when, throw_if, skip,
}
use browserlogin_client.Coordinator.Store.{
  load, save, with_transition, transition, crash_at, save_retry, require_state, new_state,
  immutable_key,
}
use browserlogin_client.Coordinator.Cleanup.{stop_runner, give_back_license, cleanup_locked}
use browserlogin_client.Coordinator.Fields.{set_key, clear_runner, stopped}
use browserlogin_client.Coordinator.Stop.{archive_payload, stop_locked}
use browserlogin_client.Coordinator.Reconcile.{reconcile_locked, force_stop_locked}
use browserlogin_client.Coordinator.Start.{start_locked}
use browserlogin_client.Coordinator.Operations.{resumable, stop}

abbrev pub storage_payload : String → ArchiveRecord → Fields
storage_payload storage a = archive_payload storage (record { size = a.size; sha256 = a.sha256 })

-- RECOVERY_LIMIT_MS
abbrev pub recovery_limit : ℕ
recovery_limit = 30000

-- What a branch of `recover` does with the session that a stop returns: it returns null.
abbrev pub Recovered : Type 0
Recovered = Option RecoveryState

module _ (env : Env) (opts : Options) where
  -- Some state is left when the loop of `recover` ends.
  unfoldable pub after_loop : ℕ → Option RecoveryState → M Recovered
  after_loop deadline none = pure none
  after_loop deadline (some s) = do
    now ← observe read_clock env.clock
    when (not (ltb now deadline)) (save_retry env opts s)
    pure (if is_done s.status then none else some s)

  then_null : M Session → M Recovered
  then_null m = do m; pure none

  then_state : M RecoveryState → M Recovered
  then_state m = do s ← m; pure (some s)

  -- The loop's body after the reconciliation. Every branch leaves the loop.
  recover_loaded : ℕ → Option RecoveryState → M Recovered
  unfolding after_loop then_null then_state
  recover_loaded deadline none = after_loop deadline none
  recover_loaded deadline (some s) =
      if is_done s.status || is_upload_ambiguous s.status
      then after_loop deadline (some s)
      else if is_force_stop s.status
      then then_null (force_stop_locked env opts s)
      else if is_upload_pending s.status || is_archive_ready s.status
      then then_null (stop_locked env opts s)
      else if resumable s.status
      then then_state (start_locked env opts s)
      else after_loop deadline (some s)

  recover_unless : String → ℕ → Option Session → M Recovered
  unfolding recover_loaded
  recover_unless profile deadline (some r) = pure none
  recover_unless profile deadline none = do
    again ← load env opts profile
    recover_loaded deadline again

  recover_round : String → ℕ → RecoveryState → M Recovered
  unfolding recover_unless
  recover_round profile deadline s = do
    reconciled ← reconcile_locked env opts s
    recover_unless profile deadline reconciled

  -- The loop's test.
  recover_state : String → ℕ → Option RecoveryState → M Recovered
  unfolding recover_round
  recover_state profile deadline none = after_loop deadline none
  recover_state profile deadline (some s) = do
    now ← observe read_clock env.clock
    if ltb now deadline then recover_round profile deadline s else after_loop deadline (some s)

  recover_work : String → ℕ → M Recovered
  unfolding recover_state
  recover_work profile deadline = do
    found ← load env opts profile
    recover_state profile deadline found

  -- recover
  unfoldable pub recover : String → M Recovered
  unfolding recover_work
  recover profile = do
    now ← observe read_clock env.clock
    with_transition env opts profile (recover_work profile (now + recovery_limit))

  resolve_with : RecoveryState → String → ArchiveRecord → M (Unit {0})
  resolve_with s storage a = do
    next ←
        transition env opts
          (record s {
            stop_key = some (
                immutable_key env opts "stop" s.run_id
                  (archive_of (obj (storage_payload storage a))));
            stop_payload = some (field "archive" (obj (storage_payload storage a)) end);
            uploaded_storage_id = some storage;
          })
          upload_pending
    save env opts next

  resolve_archive : RecoveryState → String → Option ArchiveRecord → M (Unit {0})
  unfolding resolve_with
  resolve_archive s storage none =
      throw (browser_login "ambiguous upload state lacks a verifiable archive identity")
  resolve_archive s storage (some a) =
      if truthy s.archive_artifact && safe_text storage
      then resolve_with s storage a
      else throw (browser_login "ambiguous upload state lacks a verifiable archive identity")

  resolve_work : String → String → M (Unit {0})
  unfolding resolve_archive
  resolve_work profile storage = do
    s ← require_state env opts profile
    throw_if (not (is_upload_ambiguous s.status)) (browser_login "no ambiguous upload exists")
    resolve_archive s storage s.archive

  -- resolveUploadAmbiguous
  unfoldable pub resolve_upload : String → String → M (Unit {0})
  unfolding resolve_work
  resolve_upload profile storage = with_transition env opts profile (resolve_work profile storage)

  abbrev pid_is : Option ℕ → ℕ → Bool
  pid_is none pid = false
  pid_is (some p) pid = p == pid

  stop_closed : RecoveryState → M (Option Session)
  stop_closed s = do
    next ← transition env opts (clear_runner s) archive_materialized
    save env opts next
    r ← stop_locked env opts next
    pure (some r)

  closed_found : String → ℕ → Option RecoveryState → M (Option Session)
  unfolding stop_closed
  closed_found run pid none = pure none
  closed_found run pid (some s) =
      if str_eq s.run_id run && (pid_is s.runner_pid pid && is_running s.status)
      then stop_closed s
      else pure none

  closed_work : String → String → ℕ → M (Option Session)
  unfolding closed_found
  closed_work profile run pid = do found ← load env opts profile; closed_found run pid found

  -- browserProcessClosed
  unfoldable pub process_closed : String → String → ℕ → M (Option Session)
  unfolding closed_work
  process_closed profile run pid = with_transition env opts profile (closed_work profile run pid)

  retry_found : Option RecoveryState → M (Unit {0})
  retry_found none = skip
  retry_found (some s) = save_retry env opts s

  retry_work : String → M (Unit {0})
  unfolding retry_found
  retry_work profile = do found ← load env opts profile; retry_found found

  unfoldable pub note_closed_failure : String → Failure → M (Option Session)
  unfolding retry_work
  note_closed_failure profile e = do
    try_catch (with_transition env opts profile (retry_work profile)) (λ _. skip)
    pure none

  -- `runner.closed.then(browserProcessClosed).catch(…)`, of a promise that resolves or is rejected.
  unfoldable pub on_closed : Option Failure → String → String → ℕ → M (Option Session)
  unfolding note_closed_failure
  on_closed none profile run pid =
      try_catch (process_closed profile run pid) (note_closed_failure profile)
  on_closed (some e) profile run pid = note_closed_failure profile e

  mark_closed : String → M (Unit {0})
  mark_closed profile =
      modify (λ w. record w { naturally_closed = set_key w.naturally_closed profile true })

  -- The callback `onNormalStop`.
  unfoldable pub on_normal_stop : String → M Session
  unfolding mark_closed
  on_normal_stop profile = do mark_closed profile; stop env opts profile
