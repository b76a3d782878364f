-- ===== src/Coordinator/Operations/Stopping.antt =====
-- `stop`, `forceStop` and `rollbackStart` keep the rule, and end with the recovery file removed.
use browserlogin_client.Prelude.{
  String, true, false, not, Option, none, some, ◌≡◌, refl, ◌∙◌, if◌then◌else◌, truthy, or_else,
  arith,
}
use browserlogin_client.Recovery.{RecoveryState, force_stop, is_force_stop}
use browserlogin_client.Coordinator.World.{
  Session, Env, Options, Disk, stop_session, rollback_start,
}
use browserlogin_client.Coordinator.Exec.{M, pure}
use browserlogin_client.Coordinator.Spec.{
  Spec, Spec-pure, Spec-throw, Spec-bind, Spec-if, Spec-throw_if, Spec-fact,
}
use browserlogin_client.Coordinator.Store.{immutable_key, with_transition}
use browserlogin_client.Coordinator.Store.Files.{
  Loaded, load-At, require_state-At, save-At, with_transition-Spec,
}
use browserlogin_client.Coordinator.Guard.{Ended, Rule, IsRule, At, Stands}
use browserlogin_client.Coordinator.Guard.Steps.{
  At-none, At-logged, Ended-logged, Keeps-call, Keeps-when, Keeps-throw_if, Keeps-crash_at,
  Keeps-guarded, transition-At,
}
use browserlogin_client.Coordinator.Cleanup.Safety.{
  stop_runner-Keeps, give_back_license-Keeps, cleanup_locked-Gone,
}
use browserlogin_client.Coordinator.Stop.Safety.{AllowsStop}
use browserlogin_client.Coordinator.Stop.Safety.Upload.{stop_locked-Ended}
use browserlogin_client.Coordinator.Reconcile.Safety.{
  stopped_own, AllowsForce, Reconciled, reconcile_locked-Reconciled, force_stop_locked-Ended,
}
use browserlogin_client.Coordinator.Operations.{
  rolls_back, stop_current, stop_loaded, stop_unless, stop_work, stop, intend_force,
  force_stop_work, force_stop_session, roll_back, rollback_work, rollback,
}

-- The rule allows a rollback's stop, which carries no archive, before the browser is ready.
pub record AllowsRollback (env : Env) (opts : Options) (G : Rule) : Type 0 where
  pub back :
      (s : RecoveryState) (d : Disk) (session : String)
      → Stands env opts d s
      → rolls_back s.status ≡ true
      → s.remote_session_id ≡ some session
      → G.allows
          (stop_session session none (immutable_key env opts "stop" s.run_id rollback_start))
          d

module _ {env : Env} {opts : Options} {G : Rule} (rule : IsRule env opts G) where
  -- Under the locks a method ends as its work does.
  pub locked-Ended :
      (profile key : String) (m : M Session)
      → Spec (At env opts G none) m (Ended env opts G key) (At env opts G none)
      → Spec
          (At env opts G none)
          (with_transition env opts profile m)
          (Ended env opts G key)
          (At env opts G none)
  locked-Ended profile key m h =
      with_transition-Spec env opts (At-logged rule) (Ended-logged rule) (At-logged rule) (λ w k. k)
        profile m h

  module _ (may : AllowsStop env opts G) where
    stop_loaded-Ended :
        (profile : String) (found : Option RecoveryState)
        → Spec
            (Loaded env opts G profile found)
            (stop_loaded env opts found)
            (Ended env opts G profile)
            (At env opts G none)
    unfolding stop_loaded stop_current
    stop_loaded-Ended profile none = Spec-throw _ (λ w h. h)
    stop_loaded-Ended profile (some s) = Spec-fact λ e.
        Spec-bind _ _ (Keeps-throw_if _ _)
          λ _. Spec-bind _ _ (Keeps-throw_if _ _) (λ _. rw (← e) (stop_locked-Ended rule may s))

    -- A stop that returns has removed the profile's recovery file.
    stop_work-Ended :
        (profile : String)
        → Spec
            (At env opts G none)
            (stop_work env opts profile)
            (Ended env opts G profile)
            (At env opts G none)
    unfolding stop_work
    stop_work-Ended profile = Spec-bind _ _ (require_state-At rule profile) λ s.
        Spec-fact λ e.
          Spec-bind _ _ (reconcile_locked-Reconciled rule may s) (λ found. found_then s e found)
      where
        found_then :
            (s : RecoveryState)
            → s.profile_id ≡ profile
            → (found : Option Session)
            → Spec
                (Reconciled env opts G s found)
                (stop_unless env opts profile found)
                (Ended env opts G profile)
                (At env opts G none)
        found_then s e (some r) = Spec-pure r (λ w h. rw (← e) h)
        found_then s e none =
            Spec-bind _ _ (load-At rule profile) (λ again. stop_loaded-Ended profile again)

    -- A stop that returns has removed the profile's recovery file.
    pub stop-Ended :
        (profile : String)
        → Spec
            (At env opts G none)
            (stop env opts profile)
            (Ended env opts G profile)
            (At env opts G none)
    unfolding stop
    stop-Ended profile = locked-Ended profile profile _ (stop_work-Ended profile)

  intend_force-At :
      {o : Option RecoveryState} (s : RecoveryState)
      → Spec
          (At env opts G o)
          (intend_force env opts s)
          (λ v w. ((v.status ≡ force_stop) × (v.profile_id ≡ s.profile_id)) × At env opts G none w)
          (At env opts G none)
  unfolding intend_force
  intend_force-At s = Spec-bind _ _ (transition-At rule _ force_stop) λ next. Spec-fact λ moved.
      Spec-bind _ _ (save-At rule next) λ _.
        Spec-bind _ _ (Keeps-crash_at rule _)
          λ _. Spec-pure next (λ w h. ((ground arith, ground arith), At-none w h))

  -- A forced stop that returns has removed the profile's recovery file.
  pub force_stop-Ended :
      AllowsForce env opts G
      → (profile : String)
      → Spec
          (At env opts G none)
          (force_stop_session env opts profile)
          (Ended env opts G profile)
          (At env opts G none)
  unfolding force_stop_session force_stop_work
  force_stop-Ended may profile = locked-Ended profile profile _ (
      Spec-bind _ _ (require_state-At rule profile) λ s. Spec-fact λ e.
        Spec-bind _ _ (Keeps-throw_if _ _) λ _.
          Spec-bind _ _ (intended s)
            λ v. Spec-fact λ f. rw (← (f.1 ∙ e)) (force_stop_locked-Ended rule may v f.0))
    where
      intended :
          (s : RecoveryState)
          → Spec
              (At env opts G (some s))
              (if is_force_stop s.status then pure s else intend_force env opts s)
              (λ v w.
                ((v.status ≡ force_stop) × (v.profile_id ≡ s.profile_id)) × At env opts G none w)
              (At env opts G none)
      intended s =
          Spec-if (is_force_stop s.status) (pure s) _
            (λ t. Spec-pure s (λ w h. ((ground arith, refl), At-none w h))) (λ _. intend_force-At s)

  -- A rollback that returns has removed the profile's recovery file.
  pub rollback-Ended :
      AllowsRollback env opts G
      → (profile : String)
      → Spec
          (At env opts G none)
          (rollback env opts profile)
          (Ended env opts G profile)
          (At env opts G none)
  unfolding rollback rollback_work roll_back
  rollback-Ended may profile = locked-Ended profile profile _ (
      Spec-bind _ _ (require_state-At rule profile) λ s. Spec-fact λ e.
        Spec-bind _ _ (Spec-throw_if _ _ At-none) λ _. Spec-fact λ known.
          Spec-bind _ _ (Spec-throw_if _ _ At-none) λ _. Spec-fact λ early. rw (← e) (
            Spec-bind _ _ (Keeps-when _ _ (Keeps-call rule _ _ refl)) λ _.
              Spec-bind _ _ (stop_runner-Keeps rule s) λ _.
                Spec-bind _ _ (Keeps-when _ _ (give_back_license-Keeps rule s)) λ _.
                  Spec-bind _ _
                    (Keeps-guarded rule _ _ (λ d h.
                      may.back s d _ h (ground arith) (session_known s.remote_session_id known)))
                    λ r. Spec-bind _ _ (Spec-throw_if _ _ At-none) λ _. Spec-fact λ done.
                      Spec-bind _ _ (cleanup_locked-Gone rule s false) (λ _. Spec-pure r (λ w h.
                        record {
                          owner = (stopped_own s r done).0;
                          reported = (stopped_own s r done).1;
                          gone = h;
                        }))))
    where
      session_known : (id : Option String) → not (truthy id) ≡ false → id ≡ some (or_else id "")
      session_known none h = cc
      session_known (some id) h = refl
