-- ===== src/Coordinator/Tests.antt =====
-- Runs of the coordinator from the sample worlds, and the theorems at them.
pub mod Sample
pub mod Runner
use browserlogin_client.Prelude.{String, true, false, some, none, ◌≡◌, refl, [], ◌∷◌, ◌↔◌}
use browserlogin_client.Recovery.{RecoveryState, ArchiveRecord, running}
use browserlogin_client.Recovery.Text.{safe_id, safe_text, hex64, run_id_text, iso_date, forbidden}
use browserlogin_client.Recovery.Validate.{
  validate, schema_ok, state_fault, state_secret_free, secret_free, secret_free_items,
  secret_free_fields,
}
use browserlogin_client.Coordinator.World.{ok, err, Session, World, Result}
use browserlogin_client.Coordinator.Exec.{
  pure, throw, call, observe, gets, modify, continue, ◌>>=◌, handle, try_catch, finally, skip, when,
  throw_if,
}
use browserlogin_client.Coordinator.Store.{
  load, save, with_transition, with_lock, path_for, check, stamp, stamp_later, write, remove,
  transition, crash_at, save_retry, require_state, new_state, immutable_key, assert_state_path,
}
use browserlogin_client.Coordinator.Store.RoundTrip.{save-load}
use browserlogin_client.Coordinator.Guard.{Stands}
use browserlogin_client.Coordinator.Guard.Rules.{Consistent, Since}
use browserlogin_client.Coordinator.Cleanup.{
  cleanup_locked, adopt_committed, halt, stop_runner, give_back_license,
}
use browserlogin_client.Coordinator.Fields.{reports_stopped}
use browserlogin_client.Coordinator.Stop.{persisted_commit, commit_persisted, stop_locked}
use browserlogin_client.Coordinator.Reconcile.{
  reconcile_locked, force_stop_locked, cleanup_remote_stopped,
}
use browserlogin_client.Coordinator.Start.{start_locked}
use browserlogin_client.Coordinator.Start.Safety.{SameRun, IsRunning}
use browserlogin_client.Coordinator.Operations.{start, stop, force_stop_session, rollback}
use browserlogin_client.Coordinator.Recover.{storage_payload, resolve_upload}
use browserlogin_client.Coordinator.WriteAhead.{Allowed}
use browserlogin_client.Coordinator.WriteAhead.Histories.{
  starts, stops, recovers, run, step, run-Consistent,
}
use browserlogin_client.Coordinator.Outcomes.{
  NoArchive, Unguarded, Resends, start-runs, start_locked-same_attempt, stop-ends, force_stop-ends,
  rollback-ends, force_stop-sends_no_archive, rollback-sends_no_archive, stop_locked-resends,
}
use browserlogin_client.Coordinator.Outcomes.Ambiguous.{ambiguous-never_resent}
use browserlogin_client.Coordinator.Outcomes.Resolve.{resolve_upload-commits}
use browserlogin_client.Coordinator.Recover.Resolve.{Resolves, commit_key, resolution}
use browserlogin_client.Coordinator.Tests.Sample.{
  env, opts, fresh, profile, running_state, intent_state, active_state, ambiguous_state,
  pending_state, payload, ended, filed,
}

run-Consistent_example :
    Consistent env opts
      (Allowed env opts)
      (run env opts (starts profile ∷ recovers profile ∷ stops profile ∷ []) fresh)
run-Consistent_example =
    run-Consistent env opts (starts profile ∷ recovers profile ∷ stops profile ∷ []) fresh
      (record { calls = tt; files = λ path s e. cc })

ambiguous-never_resent_example :
    Since NoArchive [] (step env opts (stops profile) (filed ambiguous_state)).trace
unfolding path_for
ambiguous-never_resent_example =
    ambiguous-never_resent env opts (stops profile) ambiguous_state (filed ambiguous_state) refl
      refl

start-runs_example :
    (running_state.profile_id ≡ profile)
    × (running_state.status ≡ running)
    × Stands env opts (start env opts profile fresh).1.disk running_state
unfolding start stop force_stop_session rollback start_locked stop_locked reconcile_locked
    force_stop_locked cleanup_remote_stopped cleanup_locked adopt_committed halt stop_runner
    give_back_license persisted_commit commit_persisted load save remove with_transition with_lock
    path_for check assert_state_path stamp stamp_later write transition crash_at save_retry
    require_state new_state immutable_key pure throw call observe gets modify continue ◌>>=◌ handle
    try_catch finally skip when throw_if validate schema_ok state_fault state_secret_free
    secret_free_fields secret_free safe_id hex64 run_id_text iso_date forbidden
start-runs_example =
    start-runs env opts profile fresh (start env opts profile fresh).1 running_state refl

-- A start from a persisted commit begins a new run, and the commit is in no file any more.
start_over_commit_test : (start env opts profile (filed pending_state)).0 ≡ ok running_state
unfolding start stop force_stop_session rollback start_locked stop_locked reconcile_locked
    force_stop_locked cleanup_remote_stopped cleanup_locked adopt_committed halt stop_runner
    give_back_license persisted_commit commit_persisted load save remove with_transition with_lock
    path_for check assert_state_path stamp stamp_later write transition crash_at save_retry
    require_state new_state immutable_key pure throw call observe gets modify continue ◌>>=◌ handle
    try_catch finally skip when throw_if validate schema_ok state_fault state_secret_free
    secret_free_fields secret_free safe_id hex64 run_id_text iso_date forbidden
start_over_commit_test = refl

start_locked-same_attempt_example :
    SameRun intent_state running_state
    × IsRunning running_state
    × Stands env opts (start_locked env opts intent_state (filed intent_state)).1.disk running_state
unfolding start stop force_stop_session rollback start_locked stop_locked reconcile_locked
    force_stop_locked cleanup_remote_stopped cleanup_locked adopt_committed halt stop_runner
    give_back_license persisted_commit commit_persisted load save remove with_transition with_lock
    path_for check assert_state_path stamp stamp_later write transition crash_at save_retry
    require_state new_state immutable_key pure throw call observe gets modify continue ◌>>=◌ handle
    try_catch finally skip when throw_if validate schema_ok state_fault state_secret_free
    secret_free_fields secret_free safe_id hex64 run_id_text iso_date forbidden
start_locked-same_attempt_example =
    start_locked-same_attempt env opts intent_state (filed intent_state)
      (start_locked env opts intent_state (filed intent_state)).1 running_state refl refl

stop-ends_example :
    (ended.profile_id ≡ profile)
    × (reports_stopped ended ≡ true)
    × ((stop env opts profile (filed running_state)).1.disk (path_for env opts profile) ≡ none)
unfolding start stop force_stop_session rollback start_locked stop_locked reconcile_locked
    force_stop_locked cleanup_remote_stopped cleanup_locked adopt_committed halt stop_runner
    give_back_license persisted_commit commit_persisted load save remove with_transition with_lock
    path_for check assert_state_path stamp stamp_later write transition crash_at save_retry
    require_state new_state immutable_key pure throw call observe gets modify continue ◌>>=◌ handle
    try_catch finally skip when throw_if validate schema_ok state_fault state_secret_free
    secret_free_fields secret_free safe_id hex64 run_id_text iso_date forbidden
stop-ends_example =
    stop-ends env opts profile (filed running_state) (stop env opts profile (filed running_state)).1
      ended refl

force_stop-ends_example :
    (ended.profile_id ≡ profile)
    × (reports_stopped ended ≡ true)
    × ((force_stop_session env opts profile (filed running_state)).1.disk
          (path_for env opts profile)
        ≡ none)
unfolding start stop force_stop_session rollback start_locked stop_locked reconcile_locked
    force_stop_locked cleanup_remote_stopped cleanup_locked adopt_committed halt stop_runner
    give_back_license persisted_commit commit_persisted load save remove with_transition with_lock
    path_for check assert_state_path stamp stamp_later write transition crash_at save_retry
    require_state new_state immutable_key pure throw call observe gets modify continue ◌>>=◌ handle
    try_catch finally skip when throw_if validate schema_ok state_fault state_secret_free
    secret_free_fields secret_free safe_id hex64 run_id_text iso_date forbidden
force_stop-ends_example =
    force_stop-ends env opts profile (filed running_state)
      (force_stop_session env opts profile (filed running_state)).1 ended refl

rollback-ends_example :
    (ended.profile_id ≡ profile)
    × (reports_stopped ended ≡ true)
    × ((rollback env opts profile (filed active_state)).1.disk (path_for env opts profile) ≡ none)
unfolding start stop force_stop_session rollback start_locked stop_locked reconcile_locked
    force_stop_locked cleanup_remote_stopped cleanup_locked adopt_committed halt stop_runner
    give_back_license persisted_commit commit_persisted load save remove with_transition with_lock
    path_for check assert_state_path stamp stamp_later write transition crash_at save_retry
    require_state new_state immutable_key pure throw call observe gets modify continue ◌>>=◌ handle
    try_catch finally skip when throw_if validate schema_ok state_fault state_secret_free
    secret_free_fields secret_free safe_id hex64 run_id_text iso_date forbidden
rollback-ends_example =
    rollback-ends env opts profile (filed active_state)
      (rollback env opts profile (filed active_state)).1 ended refl

stop_locked-resends_example :
    Since
      (Resends "s1" "stop-key" payload)
      []
      (stop_locked env opts pending_state (filed pending_state)).1.trace
unfolding path_for persisted_commit
stop_locked-resends_example =
    stop_locked-resends env opts pending_state "s1" "stop-key" payload (filed pending_state) refl
      refl refl

force_stop-sends_no_archive_example :
    Since NoArchive [] (force_stop_session env opts profile (filed running_state)).1.trace
force_stop-sends_no_archive_example =
    force_stop-sends_no_archive env opts profile (filed running_state)

rollback-sends_no_archive_example :
    Since NoArchive [] (rollback env opts profile (filed active_state)).1.trace
rollback-sends_no_archive_example = rollback-sends_no_archive env opts profile (filed active_state)

-- An ambiguous upload is resolved, and the stop that follows commits it.
resolve_upload-commits_example :
    (a : ArchiveRecord) × (time : String) × Resolves ambiguous_state "stored" a
    × Stands env opts
        (resolve_upload env opts profile "stored" (filed ambiguous_state)).1.disk
        (resolution env opts ambiguous_state "stored" a time)
    × Since Unguarded [] (resolve_upload env opts profile "stored" (filed ambiguous_state)).1.trace
    × Since
        (Resends "s1" (commit_key env opts ambiguous_state "stored" a) (storage_payload "stored" a))
        (resolve_upload env opts profile "stored" (filed ambiguous_state)).1.trace
        (stop_locked env opts
          (resolution env opts ambiguous_state "stored" a time)
          (resolve_upload env opts profile "stored" (filed ambiguous_state)).1).1.trace
unfolding resolve_upload load save with_transition with_lock path_for check stamp write transition
    require_state immutable_key pure throw call observe gets modify continue ◌>>=◌ handle try_catch
    finally skip when throw_if validate schema_ok state_fault state_secret_free secret_free_fields
    secret_free safe_id safe_text hex64 run_id_text iso_date forbidden
resolve_upload-commits_example =
    resolve_upload-commits env opts profile "stored" "s1" ambiguous_state (filed ambiguous_state)
      (resolve_upload env opts profile "stored" (filed ambiguous_state)).1 refl refl refl

save-load_example :
    (validate running_state ≡ none)
    × ((load env opts profile (save env opts running_state fresh).1).0 ≡ ok (some running_state))
unfolding start stop force_stop_session rollback start_locked stop_locked reconcile_locked
    force_stop_locked cleanup_remote_stopped cleanup_locked adopt_committed halt stop_runner
    give_back_license persisted_commit commit_persisted load save remove with_transition with_lock
    path_for check assert_state_path stamp stamp_later write transition crash_at save_retry
    require_state new_state immutable_key pure throw call observe gets modify continue ◌>>=◌ handle
    try_catch finally skip when throw_if validate schema_ok state_fault state_secret_free
    secret_free_fields secret_free safe_id hex64 run_id_text iso_date forbidden
save-load_example =
    save-load env opts running_state fresh (save env opts running_state fresh).1 refl refl
