-- ===== src/Coordinator/Recover/Safety.antt =====
-- `recover`, `resolveUploadAmbiguous` and the callbacks of the runner's end keep the rule.
use browserlogin_client.Prelude.{
  ℕ, String, not, Option, none, some, refl, truthy, arith, ltb, ◌||◌, ◌&&◌, str_eq,
}
use browserlogin_client.Recovery.{
  RecoveryState, ArchiveRecord, upload_pending, archive_materialized, is_done, is_force_stop,
  is_upload_ambiguous, is_upload_pending, is_archive_ready, is_running,
}
use browserlogin_client.Recovery.Text.{safe_text}
use browserlogin_client.Coordinator.World.{Session, Failure, Env, Options}
use browserlogin_client.Coordinator.Exec.{M, pure, throw, skip, when}
use browserlogin_client.Coordinator.Spec.{
  Spec, Spec-pure, Spec-throw, Spec-bind, Spec-if, Spec-weaken, Spec-fact, Spec-try,
}
use browserlogin_client.Coordinator.Store.{with_transition}
use browserlogin_client.Coordinator.Store.Files.{
  Loaded, load-At, require_state-At, save-At, save_retry-At, with_transition-Spec,
}
use browserlogin_client.Coordinator.Guard.{Ended, Rule, IsRule, At, Keeps}
use browserlogin_client.Coordinator.Guard.Steps.{
  At-none, At-logged, Ended-none, Keeps-observe, Keeps-modify, Keeps-skip, Keeps-throw_if,
  transition-At,
}
use browserlogin_client.Coordinator.Stop.Safety.{AllowsStop}
use browserlogin_client.Coordinator.Stop.Safety.Upload.{stop_locked-Ended}
use browserlogin_client.Coordinator.Reconcile.Safety.{
  AllowsForce, Reconciled, reconcile_locked-Reconciled, force_stop_locked-Ended,
}
use browserlogin_client.Coordinator.Start.Safety.{AllowsStart}
use browserlogin_client.Coordinator.Start.Safety.Spawn.{start_locked-At}
use browserlogin_client.Coordinator.Operations.{resumable}
use browserlogin_client.Coordinator.Recover.{
  after_loop, then_null, then_state, recover_loaded, recover_unless, recover_state, recover_work,
  recover, resolve_archive, resolve_work, resolve_upload, stop_closed, closed_found, closed_work,
  process_closed, pid_is, retry_found, retry_work, note_closed_failure, on_closed, mark_closed,
  on_normal_stop,
}
use browserlogin_client.Coordinator.Operations.Stopping.{stop-Ended}

module _ {env : Env} {opts : Options} {G : Rule} (rule : IsRule env opts G) where
  locked-Keeps :
      {A : Type 0} (profile : String) (m : M A)
      → Keeps env opts G none m
      → Keeps env opts G none (with_transition env opts profile m)
  locked-Keeps profile m h =
      with_transition-Spec env opts (At-logged rule) (λ _. At-logged rule) (At-logged rule)
        (λ w k. k) profile m h

  -- A method that ends with the file removed keeps the rule.
  ended-Keeps :
      {o : Option RecoveryState} {profile : String} {m : M Session}
      → Spec (At env opts G o) m (Ended env opts G profile) (At env opts G none)
      → Spec (At env opts G o) m (λ _. At env opts G none) (At env opts G none)
  ended-Keeps h = Spec-weaken (λ w k. k) Ended-none (λ w k. k) h

  pub after_loop-Keeps :
      {o : Option RecoveryState} (deadline : ℕ) (found : Option RecoveryState)
      → Spec
          (At env opts G o)
          (after_loop env opts deadline found)
          (λ _. At env opts G none)
          (At env opts G none)
  unfolding after_loop when skip
  after_loop-Keeps deadline none = Spec-pure none At-none
  after_loop-Keeps deadline (some s) = Spec-bind _ _ (Keeps-observe rule _ _ refl) λ now.
      Spec-bind _ _
        (Spec-if (not (ltb now deadline)) _ skip (λ _. save_retry-At rule s)
          (λ _. Spec-pure tt At-none))
        (λ _. Spec-pure _ (λ w h. h))

  pub resolve_upload-Keeps :
      (profile storage : String) → Keeps env opts G none (resolve_upload env opts profile storage)
  unfolding resolve_upload resolve_work
  resolve_upload-Keeps profile storage = locked-Keeps profile _ (
      Spec-bind _ _ (require_state-At rule profile)
        λ s. Spec-fact λ e. Spec-bind _ _ (Keeps-throw_if _ _) (λ _. resolved s s.archive))
    where
      resolved :
          (s : RecoveryState) (a : Option ArchiveRecord)
          → Spec
              (At env opts G (some s))
              (resolve_archive env opts s storage a)
              (λ _. At env opts G none)
              (At env opts G none)
      resolved s none = Spec-throw _ At-none
      resolved s (some a) =
          Spec-if (truthy s.archive_artifact && safe_text storage) _ (throw _)
            (λ _. Spec-bind _ _ (transition-At rule _ upload_pending) λ next.
              Spec-fact λ m. Spec-weaken (λ w h. h) (λ _. At-none) (λ w h. h) (save-At rule next))
            (λ _. Spec-throw _ At-none)

  pub note_closed_failure-Keeps :
      (profile : String) (e : Failure)
      → Keeps env opts G none (note_closed_failure env opts profile e)
  unfolding note_closed_failure retry_work
  note_closed_failure-Keeps profile e =
      Spec-bind _ _
        (Spec-try _ _
          (locked-Keeps profile _ (Spec-bind _ _ (load-At rule profile) (λ found. retried found)))
          (λ _. Keeps-skip))
        (λ _. Spec-pure none (λ w h. h))
    where
      retried :
          (found : Option RecoveryState)
          → Spec
              (Loaded env opts G profile found)
              (retry_found env opts found)
              (λ _. At env opts G none)
              (At env opts G none)
      retried none = Keeps-skip
      retried (some s) = Spec-fact λ e. save_retry-At rule s

  module _ (may : AllowsStop env opts G) where
    process_closed-Keeps :
        (profile run : String) (pid : ℕ)
        → Keeps env opts G none (process_closed env opts profile run pid)
    unfolding process_closed closed_work stop_closed
    process_closed-Keeps profile run pid =
        locked-Keeps profile _ (Spec-bind _ _ (load-At rule profile) (λ found. found_then found))
      where
        found_then :
            (found : Option RecoveryState)
            → Spec
                (Loaded env opts G profile found)
                (closed_found env opts run pid found)
                (λ _. At env opts G none)
                (At env opts G none)
        found_then none = Spec-pure none (λ w h. h)
        found_then (some s) = Spec-fact λ e.
            Spec-if
              (str_eq s.run_id run && (pid_is env opts s.runner_pid pid && is_running s.status))
              (stop_closed env opts s) (pure none)
              (λ _. Spec-bind _ _ (transition-At rule _ archive_materialized) λ next. Spec-fact λ m.
                Spec-bind _ _ (save-At rule next) λ _.
                  Spec-bind _ _ (stop_locked-Ended rule may next)
                    (λ r. Spec-pure (some r) (Ended-none r)))
              (λ _. Spec-pure none At-none)

    pub on_closed-Keeps :
        (e : Option Failure) (profile run : String) (pid : ℕ)
        → Keeps env opts G none (on_closed env opts e profile run pid)
    unfolding on_closed
    on_closed-Keeps (some e) profile run pid = note_closed_failure-Keeps profile e
    on_closed-Keeps none profile run pid =
        Spec-try _ _ (process_closed-Keeps profile run pid)
          (λ e. note_closed_failure-Keeps profile e)

    pub on_normal_stop-Keeps :
        (profile : String) → Keeps env opts G none (on_normal_stop env opts profile)
    unfolding on_normal_stop mark_closed
    on_normal_stop-Keeps profile =
        Spec-bind _ _ (Keeps-modify rule _ (λ w. (refl, refl)))
          (λ _. ended-Keeps (stop-Ended rule may profile))

    module _ (starts : AllowsStart env opts G) (forces : AllowsForce env opts G) where
      recover_loaded-Keeps :
          (deadline : ℕ) (profile : String) (found : Option RecoveryState)
          → Spec
              (Loaded env opts G profile found)
              (recover_loaded env opts deadline found)
              (λ _. At env opts G none)
              (At env opts G none)
      unfolding recover_loaded then_null then_state
      recover_loaded-Keeps deadline profile none = after_loop-Keeps deadline none
      recover_loaded-Keeps deadline profile (some s) = Spec-fact λ e.
          Spec-if (is_done s.status || is_upload_ambiguous s.status) _ _
            (λ _. after_loop-Keeps deadline (some s))
            λ _.
              Spec-if (is_force_stop s.status) _ _
                (λ f.
                  Spec-bind _ _ (ended-Keeps (force_stop_locked-Ended rule forces s (ground arith)))
                    (λ _. Spec-pure none (λ w h. h)))
                λ _.
                  Spec-if (is_upload_pending s.status || is_archive_ready s.status) _ _
                    (λ _.
                      Spec-bind _ _ (ended-Keeps (stop_locked-Ended rule may s))
                        (λ _. Spec-pure none (λ w h. h)))
                    λ _.
                      Spec-if (resumable s.status) _ _
                        (λ _.
                          Spec-bind _ _ (start_locked-At rule starts s)
                            (λ v. Spec-pure (some v) (λ w h. At-none w h.1)))
                        (λ _. after_loop-Keeps deadline (some s))

      pub recover-Keeps : (profile : String) → Keeps env opts G none (recover env opts profile)
      unfolding recover recover_work
      recover-Keeps profile = Spec-bind _ _ (Keeps-observe rule _ _ refl) λ now.
          locked-Keeps profile _
            (Spec-bind _ _ (load-At rule profile) (λ found. found_then _ found))
        where
          round :
              (deadline : ℕ) (s : RecoveryState) (found : Option Session)
              → Spec
                  (Reconciled env opts G s found)
                  (recover_unless env opts profile deadline found)
                  (λ _. At env opts G none)
                  (At env opts G none)
          round deadline s (some r) = Spec-pure none (Ended-none r)
          round deadline s none =
              Spec-bind _ _ (load-At rule profile)
                (λ again. recover_loaded-Keeps deadline profile again)

          found_then :
              (deadline : ℕ) (found : Option RecoveryState)
              → Spec
                  (Loaded env opts G profile found)
                  (recover_state env opts profile deadline found)
                  (λ _. At env opts G none)
                  (At env opts G none)
          found_then deadline none = after_loop-Keeps deadline none
          found_then deadline (some s) = Spec-fact λ e.
              Spec-bind _ _ (Keeps-observe rule _ _ refl) λ now.
                Spec-if (ltb now deadline) _ _
                  (λ _.
                    Spec-bind _ _ (reconcile_locked-Reconciled rule may s)
                      (λ found. round deadline s found))
                  (λ _. after_loop-Keeps deadline (some s))
