-- ===== src/Coordinator/Cleanup.antt =====
-- src/core/coordinator/coordinator.ts: `stopRunner`, `cleanupLocked` and
-- `adoptCommittedUploadLocked`, and the parts that several methods write out alike.
pub mod Safety
pub mod Verified
use browserlogin_client.Prelude.{
  ℕ, String, Bool, false, not, Option, none, some, List, [], ◌∷◌, ◌||◌, ◌&&◌, str_eq, append,
  opt_eq, truthy, if◌then◌else◌,
}
use browserlogin_client.Json.{Json, obj, arr, Fields, end, get, is_num, is_str, natural}
use browserlogin_client.Recovery.{RecoveryState, ArchiveRecord, done}
use browserlogin_client.Recovery.Validate.{payload_get}
use browserlogin_client.Coordinator.World.{
  ProcessIdentity, Session, Digest, RunnerHandle, browser_login, Result, ok, err, remove_path,
  release_license, stop_runtime, cache_publish, digest_file, read_identity, kill_tree, stop_handle,
  stop_custom, after_runner_stopped_before_identity_save, after_license_released_before_state_save,
  after_cache_publication_before_done_save, Env, Options,
}
use browserlogin_client.Coordinator.Exec.{
  M, pure, throw, call, observe, gets, modify, ◌>>=◌, ◌>>◌, when, throw_if, skip,
}
use browserlogin_client.Coordinator.Store.{assert_state_path, save, remove, transition, crash_at}
use browserlogin_client.Coordinator.Fields.{
  set_key, persisted_identity, differs, object_fields, same_bytes,
}

module _ (env : Env) (opts : Options) where
  -- The context that the constructor keeps.
  abbrev pub cache_origin : Option String
  cache_origin = if opts.has_archive_cache && truthy opts.app_origin then opts.app_origin else none

  drop_handle : String → M (Unit {0})
  drop_handle profile = modify (λ w. record w { handles = set_key w.handles profile none })

  stop_live : RunnerHandle → Option ProcessIdentity → M (Unit {0})
  stop_live h none = skip
  stop_live h (some actual) = do
    throw_if (differs h.identity actual)
        (browser_login "runner handle identity does not match the live process")
    call (stop_handle h.identity) env.stop_handle

  kill_persisted : ProcessIdentity → Option ProcessIdentity → M (Unit {0})
  kill_persisted id none = skip
  kill_persisted id (some actual) = do
    throw_if (differs id actual)
        (browser_login "persisted runner identity does not match the live process")
    call (kill_tree id) env.kill_tree

  stop_identity : Option ProcessIdentity → M (Unit {0})
  unfolding kill_persisted
  stop_identity none = skip
  stop_identity (some id) = do
    actual ← call (read_identity id) env.read_identity
    kill_persisted id actual

  stop_unhandled : RecoveryState → M (Unit {0})
  unfolding stop_identity
  stop_unhandled s =
      if opts.has_stop_runner
      then call (stop_custom s) env.stop_custom
      else stop_identity (persisted_identity s)

  stop_by_handle : RecoveryState → Option RunnerHandle → M (Unit {0})
  unfolding stop_unhandled stop_live drop_handle
  stop_by_handle s none = stop_unhandled s
  stop_by_handle s (some h) = do
    actual ← call (read_identity h.identity) env.read_identity
    stop_live h actual
    drop_handle s.profile_id

  forget_closed : String → M (Unit {0})
  forget_closed profile = modify (λ w. record w {
    naturally_closed = set_key w.naturally_closed profile false;
    handles = set_key w.handles profile none;
  })

  stop_running : RecoveryState → M (Unit {0})
  unfolding stop_by_handle
  stop_running s = do handle ← gets (λ w. w.handles s.profile_id); stop_by_handle s handle

  -- stopRunner
  unfoldable pub stop_runner : RecoveryState → M (Unit {0})
  unfolding stop_running forget_closed
  stop_runner s = do
    closed ← gets (λ w. w.naturally_closed s.profile_id)
    if closed then forget_closed s.profile_id else stop_running s

  -- `if (hadLicense) { await license?.release(); licenseUrls.delete(profile); }`
  unfoldable pub give_back_license : RecoveryState → M (Unit {0})
  give_back_license s = do
    when opts.has_license (call release_license env.release)
    modify (λ w. record w { license_urls = set_key w.license_urls s.profile_id none })

  release_and_crash : RecoveryState → M (Unit {0})
  unfolding give_back_license
  release_and_crash s = do
    give_back_license s
    crash_at env opts after_license_released_before_state_save

  -- The runtime, the runner and the license, as `stopLocked`, `forceStopLocked` and
  -- `cleanupRemoteStoppedLocked` stop them.
  unfoldable pub halt : RecoveryState → M (Unit {0})
  unfolding release_and_crash
  halt s = do
    when opts.has_runtime_stop (call (stop_runtime s.profile_id) env.stop_runtime)
    stop_runner s
    crash_at env opts after_runner_stopped_before_identity_save
    when s.license_acquired (release_and_crash s)

  -- `rm(path)` is started; its outcome is awaited by `Promise.all` at the end.
  start_rm : String → M (Result (Unit {0}))
  start_rm path = observe (remove_path path) env.remove_file

  rm_asserted : String → M (Result (Unit {0}))
  unfolding start_rm
  rm_asserted path = do inside ← assert_state_path env opts path; start_rm inside

  rm_optional : Option String → M (Result (Unit {0}))
  unfolding rm_asserted
  rm_optional none = pure (ok tt)
  rm_optional (some path) = if str_eq path "" then pure (ok tt) else rm_asserted path

  -- `Promise.all`: the first outcome that is an error.
  settle : List (Result (Unit {0})) → M (Unit {0})
  settle [] = skip
  settle (ok u ∷ rs) = settle rs
  settle (err f ∷ rs) = throw f

  -- The set of archive artifacts has one or two members.
  rm_artifacts : String → Option String → M (Result (Unit {0}) × Result (Unit {0}))
  unfolding start_rm
  rm_artifacts own none = do a ← start_rm own; pure (a, ok tt)
  rm_artifacts own (some other) = do
    a ← start_rm own
    b ← if str_eq own other then pure (ok tt) else start_rm other
    pure (a, b)

  assert_artifact : Option String → M (Option String)
  assert_artifact none = pure none
  assert_artifact (some path) =
      if str_eq path ""
      then pure none
      else do inside ← assert_state_path env opts path; pure (some inside)

  rm_run_files : RecoveryState → Bool → M (List (Result (Unit {0})))
  unfolding rm_asserted rm_optional
  rm_run_files s preserve = do
    a ← rm_asserted s.work_dir
    b ← if preserve then pure (ok tt) else rm_asserted s.cache_dir
    c ← rm_optional s.launch_file
    d ← start_rm (env.join (opts.root ∷ "gates" ∷ append s.run_id ".gate" ∷ []))
    e ← start_rm (env.join (opts.root ∷ "controls" ∷ append s.run_id ".control" ∷ []))
    f ← start_rm (env.join (opts.root ∷ "ready" ∷ append s.run_id ".ready" ∷ []))
    pure (a ∷ b ∷ c ∷ d ∷ e ∷ f ∷ [])

  -- cleanupLocked
  unfoldable pub cleanup_locked : RecoveryState → Bool → M (Unit {0})
  unfolding rm_artifacts assert_artifact rm_run_files settle
  cleanup_locked s preserve = do
    own ←
        assert_state_path env opts
          (env.join (opts.root ∷ "artifacts" ∷ append s.run_id ".zip" ∷ []))
    other ← assert_artifact s.archive_artifact
    two ← rm_artifacts own other
    rest ← rm_run_files s preserve
    settle (two.0 ∷ two.1 ∷ rest)
    remove env opts s.profile_id

  publish_committed : RecoveryState → ℕ → Digest → String → Option String → M (Unit {0})
  publish_committed s generation d artifact none = skip
  publish_committed s generation d artifact (some origin) =
      call
        (cache_publish
          (record {
            app_origin = origin;
            profile_id = s.profile_id;
            generation = generation;
            size = d.size;
            sha256 = d.sha256;
          })
          artifact)
        env.cache_publish

  finish_done : RecoveryState → Session → M Session
  finish_done s remote = do
    finished ← transition env opts s done
    save env opts finished
    cleanup_locked (record s { status = done }) false
    pure remote

  adopt_verified : RecoveryState → Session → String → Fields → ℕ → M Session
  unfolding publish_committed finish_done
  adopt_verified s remote artifact payload generation = do
    d ← call (digest_file artifact) env.digest
    throw_if (not (same_bytes d payload))
        (browser_login "committed upload artifact no longer matches its archive identity")
    publish_committed s generation d artifact cache_origin
    crash_at env opts after_cache_publication_before_done_save
    finish_done s remote

  adopt_generation : RecoveryState → Session → String → Fields → Option ℕ → M Session
  unfolding adopt_verified
  adopt_generation s remote artifact payload none =
      throw (browser_login "committed stop response has invalid archive generation")
  adopt_generation s remote artifact payload (some g) = adopt_verified s remote artifact payload g

  adopt_parts :
      RecoveryState → Session → Option String → Option ArchiveRecord → Option Fields → M Session
  unfolding adopt_generation
  adopt_parts s remote (some artifact) (some a) (some payload) =
      if str_eq artifact ""
      then throw (browser_login "committed upload state is incomplete")
      else adopt_generation s remote artifact payload (natural remote.archive_generation)
  adopt_parts s remote _ _ _ = throw (browser_login "committed upload state is incomplete")

  -- adoptCommittedUploadLocked
  unfoldable pub adopt_committed : RecoveryState → Session → M Session
  unfolding adopt_parts
  adopt_committed s remote =
      adopt_parts s remote s.archive_artifact s.archive
        (object_fields (payload_get "archive" s.stop_payload))
