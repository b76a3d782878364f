-- ===== src/Coordinator/Store.antt =====
-- src/core/coordinator/state.ts, `createRecoveryStore`, `assertStatePath`, `profileStatePath` and
-- `immutableIdempotencyKey`; and the coordinator's `transition`, `newState` and `requireState`.
pub mod Files
pub mod RoundTrip
pub mod Reload
pub mod Quiet
use text.Mathlib.Text.{starts_with}
use browserlogin_client.Prelude.{
  ◌+◌, String, false, not, Option, none, some, [], ◌∷◌, ◌||◌, str_eq, append, if◌then◌else◌,
}
use browserlogin_client.Recovery.{RecoveryState, RecoveryStatus, start_intent}
use browserlogin_client.Recovery.Legacy.{migrate}
use browserlogin_client.Recovery.Validate.{Fault, bad_schema, validate}
use browserlogin_client.Coordinator.World.{
  browser_login, invalid_state, state_error, ok, err, Stored, current, legacy, other, Disk,
  read_state, write_state, remove_state, make_dir, take_lock, drop_lock, read_clock, ensure_paths,
  crash, CrashPoint, KeyPayload, Written, saved, failed_before, failed_after, Env, Options,
}
use browserlogin_client.Coordinator.Exec.{
  M, logged, pure, throw, call, observe, gets, modify, ◌>>=◌, ◌>>◌, finally, throw_if,
}

-- A file is replaced or removed.
abbrev pub put : Disk → String → Option Stored → Disk
put d path v p = if str_eq path p then v else d p

module _ (env : Env) (opts : Options) where
  -- statePaths(root).state, .locks
  abbrev pub state_dir : String
  state_dir = env.join (opts.root ∷ "state" ∷ [])

  abbrev pub locks_dir : String
  locks_dir = env.join (opts.root ∷ "locks" ∷ [])

  -- profileStatePath
  unfoldable pub path_for : String → String
  path_for profile = env.join (state_dir ∷ append (env.sha256 profile) ".json" ∷ [])

  -- assertStatePath
  unfoldable pub assert_state_path : String → M String
  assert_state_path value =
      let resolved = env.resolve value in
      let suffix = env.relative (env.resolve opts.root) resolved in
      if env.is_absolute suffix || (str_eq suffix ".." || starts_with suffix "../")
      then throw (state_error "recovery path escapes the coordinator root")
      else pure resolved

  -- immutableIdempotencyKey
  unfoldable pub immutable_key : String → String → KeyPayload → String
  immutable_key operation run_id payload =
      append operation (append "-" (env.key_digest operation run_id payload))

  -- now().toISOString()
  unfoldable pub stamp : M String
  stamp = do t ← observe read_clock env.clock; pure (env.iso t)

  -- new Date(Date.now() + 1_000).toISOString()
  unfoldable pub stamp_later : M String
  stamp_later = do t ← observe read_clock env.clock; pure (env.iso (t + 1000))

  accept : RecoveryState → Option Fault → M RecoveryState
  accept s none = pure s
  accept s (some f) = throw (invalid_state f)

  -- validateRecoveryState
  unfoldable pub check : RecoveryState → M RecoveryState
  unfolding accept
  check s = accept s (validate s)

  or_bad_schema : Option RecoveryState → M RecoveryState
  or_bad_schema none = throw (invalid_state bad_schema)
  or_bad_schema (some s) = pure s

  -- What the JSON of a recovery file stands for after the legacy migration.
  decode : Stored → M RecoveryState
  unfolding or_bad_schema
  decode (current s) = pure s
  decode (legacy l) = do now ← stamp; or_bad_schema (migrate env.join opts.root now l)
  decode other = throw (invalid_state bad_schema)

  accepted : String → Stored → M (Option RecoveryState)
  unfolding decode
  accepted profile stored = do
    value ← decode stored
    s ← check value
    throw_if (not (str_eq s.profile_id profile)) (state_error "recovery profile identity mismatch")
    pure (some s)

  present : String → Option Stored → M (Option RecoveryState)
  unfolding accepted
  present profile none = pure none
  present profile (some stored) = accepted profile stored

  -- load
  unfoldable pub load : String → M (Option RecoveryState)
  unfolding present
  load profile = do
    call (read_state (path_for profile)) env.read_file
    found ← gets (λ w. w.disk (path_for profile))
    present profile found

  -- atomicWriteJson, over its three endings.
  end_write : String → RecoveryState → Written → M (Unit {0})
  end_write path s saved w = (ok tt, record w { disk = put w.disk path (some (current s)) })
  end_write path s (failed_before f) w = (err f, w)
  end_write path s (failed_after f) w =
      (err f, record w { disk = put w.disk path (some (current s)) })

  unfoldable pub write : String → RecoveryState → M (Unit {0})
  unfolding end_write
  write path s = do ended ← observe (write_state path) env.write_file; end_write path s ended

  -- save
  unfoldable pub save : RecoveryState → M (Unit {0})
  save s = do
    validated ← check s
    call (make_dir state_dir) env.make_dir
    write (path_for validated.profile_id) validated

  forget : String → M (Unit {0})
  forget path = modify (λ w. record w { disk = put w.disk path none })

  -- remove
  unfoldable pub remove : String → M (Unit {0})
  unfolding forget
  remove profile = do
    call (remove_state (path_for profile)) env.remove_file
    forget (path_for profile)

  -- withLock
  unfoldable pub with_lock : {A : Type 0} → String → M A → M A
  with_lock lock work = do
    call (take_lock lock) env.take_lock
    finally work (λ w. logged w (drop_lock lock))

  -- withTransition
  unfoldable pub with_transition : {A : Type 0} → String → M A → M A
  with_transition profile work = do
    call ensure_paths env.ensure_paths
    with_lock (env.join (locks_dir ∷ "connection-transition.lock" ∷ [])) (
        with_lock
          (env.join (locks_dir ∷ append (append "profile-" (env.lock_name profile)) ".lock" ∷ []))
          work)

  -- transition
  unfoldable pub transition : RecoveryState → RecoveryStatus → M RecoveryState
  transition s next = do now ← stamp; pure (record s { status = next; updated_at = now })

  -- crashInjector?.(point, state)
  unfoldable pub crash_at : CrashPoint → M (Unit {0})
  crash_at point = call (crash point) env.crashes

  -- The copy of the state that is saved when an attempt failed.
  unfoldable pub save_retry : RecoveryState → M (Unit {0})
  save_retry s = do
    later ← stamp_later
    now ← stamp
    save (record s { retry_count = s.retry_count + 1; retry_after = some later; updated_at = now })

  some_state : Option RecoveryState → M RecoveryState
  some_state none = throw (browser_login "no recoverable remote session for profile identity")
  some_state (some s) = pure s

  -- requireState
  unfoldable pub require_state : String → M RecoveryState
  unfolding some_state
  require_state profile = do found ← load profile; some_state found

  -- newState
  unfoldable pub new_state : String → String → String → M RecoveryState
  new_state profile run_id start_key = do
    now ← stamp
    pure (record {
      profile_id = profile;
      run_id = run_id;
      start_key = start_key;
      stop_key = none;
      remote_session_id = none;
      archive = none;
      archive_artifact = none;
      work_dir = env.join (opts.root ∷ "work" ∷ run_id ∷ []);
      cache_dir = env.join (opts.root ∷ "browser-cache" ∷ run_id ∷ []);
      launch_file = none;
      runner_pid = none;
      runner_start_time = none;
      runner_cmdline_hash = none;
      license_acquired = false;
      materialized = false;
      browser_launched = false;
      relay_cdp_url = none;
      uploaded_storage_id = none;
      stop_payload = none;
      retry_count = 0;
      retry_after = none;
      updated_at = now;
      status = start_intent;
    })
