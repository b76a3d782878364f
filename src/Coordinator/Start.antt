-- ===== src/Coordinator/Start.antt =====
-- src/core/coordinator/coordinator.ts: `startLocked`.
pub mod Safety
pub mod Verified
use browserlogin_client.Prelude.{
  ℕ, String, true, not, Option, none, some, [], ◌∷◌, ◌&&◌, append, opt_eq, truthy, is_some, or_else,
  if◌then◌else◌,
}
use browserlogin_client.Recovery.{
  RecoveryState, ArchiveRecord, license, remote_active, archive_materialized, spawn_intent, running,
}
use browserlogin_client.Coordinator.World.{
  ProcessIdentity, ArchiveIdentity, LaunchSpec, RunnerPaths, RunnerHandle, CoordinatorProfile,
  Failure, browser_login, Result, ok, err, make_dir, ensure_browser, acquire_license, load_profile,
  start_session, cache_remove, assert_identity, read_identity, kill_tree, launch_runner,
  after_license_save, after_remote_active_save, after_archive_materialized_save,
  after_spawn_identity_save_before_ready, after_running_save, Env, Options,
}
use browserlogin_client.Coordinator.Exec.{
  M, pure, throw, call, observe, gets, modify, ◌>>=◌, ◌>>◌, try_catch, when, throw_if, skip,
}
use browserlogin_client.Coordinator.Store.{save, transition, crash_at, save_retry}
use browserlogin_client.Coordinator.Cleanup.{cache_origin}
use browserlogin_client.Coordinator.Fields.{set_key, clear_identity}
use browserlogin_client.Coordinator.Restore.{restore_archive}

-- 512 * 1024 * 1024
abbrev pub cache_limit : ℕ
cache_limit = 536870912

abbrev archive_record : Option ArchiveIdentity → Option ArchiveRecord
archive_record none = none
archive_record (some a) =
    some (record { generation = a.generation; size = a.size; sha256 = a.sha256 })

-- `sessionLaunchSpec?.(profile) ?? launchSpec`
abbrev session_spec : CoordinatorProfile → String → String
session_spec c profile = elim c.session_launch_spec [ none ↦ c.launch_spec | some f ↦ f profile ]

abbrev with_runner : RecoveryState → ProcessIdentity → RecoveryState
with_runner s id = record s {
  runner_pid = some id.pid;
  runner_start_time = some id.process_start_time;
  runner_cmdline_hash = some id.cmdline_hash;
}

module _ (env : Env) (opts : Options) where
  -- `state = s`, where the catch block and the callback see it.
  assign : RecoveryState → M (Unit {0})
  assign s = modify (λ w. record w { local = some s })

  -- `state = s; await this.store.save(state);`
  assign_save : RecoveryState → M (Unit {0})
  unfolding assign
  assign_save s = do assign s; save env opts s

  ask_license : Option String → M (Option String)
  ask_license none = call acquire_license env.acquire
  ask_license (some url) = pure (some url)

  license_url : String → M (Option String)
  unfolding ask_license
  license_url profile = do known ← gets (λ w. w.license_urls profile); ask_license known

  keep_url : String → Option String → M (Unit {0})
  keep_url profile url =
      modify (λ w. record w { license_urls = set_key w.license_urls profile url })

  acquire_for : String → M (Option String)
  unfolding license_url keep_url
  acquire_for profile = do
    url ← if truthy opts.license_key then license_url profile else pure none
    throw_if (truthy opts.license_key && not (truthy url))
        (browser_login "paid start did not acquire a license relay")
    when (truthy url) (keep_url profile url)
    pure url

  take_license : RecoveryState → M RecoveryState
  unfolding assign_save
  take_license s = do
    next ← transition env opts (record s { license_acquired = truthy opts.license_key }) license
    assign_save next
    crash_at env opts after_license_save
    pure next

  mark_license : RecoveryState → M RecoveryState
  unfolding take_license
  mark_license s = if s.license_acquired then pure s else take_license s

  begin_session : RecoveryState → CoordinatorProfile → M (RecoveryState × String)
  unfolding assign_save
  begin_session s c = do
    started ← call (start_session s.profile_id s.start_key) env.start_session
    next ←
        transition env opts
          (record s {
            remote_session_id = some started.session.id;
            archive = archive_record started.archive;
          })
          remote_active
    assign_save next
    crash_at env opts after_remote_active_save
    pure (next, session_spec c started.profile)

  replay_session : RecoveryState → (String → String) → M (RecoveryState × String)
  replay_session s f = do
    again ← call (start_session s.profile_id s.start_key) env.start_session
    throw_if (not (opt_eq (some again.session.id) s.remote_session_id))
        (browser_login "replayed session identity does not match recovery state")
    pure (s, f again.profile)

  keep_session :
      RecoveryState → CoordinatorProfile → Option (String → String) → M (RecoveryState × String)
  unfolding replay_session
  keep_session s c none = pure (s, c.launch_spec)
  keep_session s c (some f) = replay_session s f

  open_session : RecoveryState → CoordinatorProfile → M (RecoveryState × String)
  unfolding begin_session keep_session
  open_session s c =
      if truthy s.remote_session_id
      then keep_session s c c.session_launch_spec
      else begin_session s c

  drop_cached : String → Option String → M (Unit {0})
  drop_cached profile none = skip
  drop_cached profile (some origin) = call (cache_remove origin profile) env.cache_remove

  restore_once : RecoveryState → ArchiveRecord → M (Unit {0})
  restore_once s a =
      if s.materialized
      then skip
      else restore_archive env (cache_origin env opts) s.profile_id a
          (env.join (opts.root ∷ "artifacts" ∷ append s.run_id ".zip" ∷ [])) s.work_dir

  restore_work : RecoveryState → Option ArchiveRecord → M (Unit {0})
  unfolding drop_cached restore_once
  restore_work s none = drop_cached s.profile_id (cache_origin env opts)
  restore_work s (some a) = restore_once s a

  materialize : RecoveryState → M RecoveryState
  unfolding restore_work assign_save
  materialize s = do
    call (make_dir s.work_dir) env.make_dir
    restore_work s s.archive
    call (make_dir s.cache_dir) env.make_dir
    next ← transition env opts (record s { materialized = true }) archive_materialized
    assign_save next
    crash_at env opts after_archive_materialized_save
    pure next

  find_browser : Option String → M String
  find_browser none = call ensure_browser env.ensure_browser
  find_browser (some path) = pure path

  abbrev paths_of : RecoveryState → RunnerPaths
  paths_of s = record {
    launch_file = env.join (opts.root ∷ "launch" ∷ append s.run_id ".json" ∷ []);
    gate_file = env.join (opts.root ∷ "gates" ∷ append s.run_id ".gate" ∷ []);
    control_file = env.join (opts.root ∷ "controls" ∷ append s.run_id ".control" ∷ []);
    ready_file = env.join (opts.root ∷ "ready" ∷ append s.run_id ".ready" ∷ []);
  }

  intend_spawn : RecoveryState → M RecoveryState
  unfolding assign_save
  intend_spawn s = do
    next ←
        transition env opts (record s { launch_file = some (paths_of s).launch_file }) spawn_intent
    assign_save next
    pure next

  kill_recorded : ProcessIdentity → M (Unit {0})
  kill_recorded id = do
    call (assert_identity id) env.assert_identity
    call (kill_tree id) env.kill_tree

  unless_gone : ProcessIdentity → Failure → M (Unit {0})
  unless_gone id e = do
    actual ← call (read_identity id) env.read_identity
    throw_if (is_some actual) e

  pub kill_previous : RecoveryState → Option ℕ → M RecoveryState
  unfolding kill_recorded unless_gone assign_save
  kill_previous s none = pure s
  kill_previous s (some pid) = do
    let id : ProcessIdentity = record {
      pid = pid;
      process_start_time = or_else s.runner_start_time "";
      cmdline_hash = or_else s.runner_cmdline_hash "";
    }
    try_catch (kill_recorded id) (unless_gone id)
    assign_save (clear_identity s)
    pure (clear_identity s)

  -- The callback `onSpawned`.
  on_spawned : RecoveryState → Option ProcessIdentity → M RecoveryState
  unfolding assign_save
  on_spawned s none = pure s
  on_spawned s (some id) = do
    assign_save (with_runner s id)
    crash_at env opts after_spawn_identity_save_before_ready
    pure (with_runner s id)

  outcome_of : Result RunnerHandle → M RunnerHandle
  outcome_of (ok h) = pure h
  outcome_of (err f) = throw f

  enter_running : RecoveryState → RunnerHandle → M RecoveryState
  unfolding assign_save
  enter_running s h = do
    modify (λ w. record w { handles = set_key w.handles s.profile_id (some h) })
    next ←
        transition env opts
          (record (with_runner s h.identity) {
            browser_launched = true;
            relay_cdp_url = h.relay_cdp_url;
          })
          running
    assign_save next
    crash_at env opts after_running_save
    pure next

  launch : RecoveryState → LaunchSpec → String → Option String → M RecoveryState
  unfolding on_spawned outcome_of enter_running
  launch s spec binary url = do
    launched ← observe (launch_runner spec binary url (paths_of s)) env.launch
    spawned ← on_spawned s launched.spawned
    h ← outcome_of launched.outcome
    enter_running spawned h

  abbrev full_spec : RecoveryState → String → LaunchSpec
  full_spec s base = record {
    base = base;
    user_data_dir = s.work_dir;
    browser_cache_dir = s.cache_dir;
    browser_cache_max_bytes = cache_limit;
  }

  spawn : RecoveryState → CoordinatorProfile → String → Option String → M RecoveryState
  unfolding find_browser intend_spawn kill_previous launch
  spawn s c base url = do
    binary ← find_browser c.binary
    intended ← intend_spawn s
    free ← kill_previous intended intended.runner_pid
    launch free (full_spec s base) binary url

  -- The try block.
  attempt : RecoveryState → CoordinatorProfile → Option String → M RecoveryState
  unfolding open_session materialize spawn
  attempt s c url = do
    opened ← open_session s c
    ready ← materialize opened.0
    spawn ready c opened.1 url

  -- The catch block: the variable `state` as it stands is saved for a later attempt.
  note_failure : RecoveryState → Failure → M RecoveryState
  note_failure s e = do latest ← gets (λ w. or_else w.local s); save_retry env opts latest; throw e

  -- startLocked
  unfoldable pub start_locked : RecoveryState → M RecoveryState
  unfolding assign acquire_for mark_license attempt note_failure
  start_locked s = do
    assign s
    c ← call (load_profile s.profile_id) env.profile
    url ← acquire_for s.profile_id
    marked ← mark_license s
    try_catch (attempt marked c url) (note_failure marked)
