-- ===== src/Coordinator/Start/Safety/Spawn.antt =====
-- From the restored archive to the running browser: what `startLocked` has in the recovery file when
-- it launches the runner, and what it leaves there.
use browserlogin_client.Prelude.{
  ℕ, String, true, Option, none, some, ◌≡◌, refl, ◌∙◌, ap, arith, sym, append, [], ◌∷◌,
}
use browserlogin_client.Recovery.{RecoveryState, spawn_intent, running}
use browserlogin_client.Coordinator.World.{
  ProcessIdentity, LaunchSpec, RunnerHandle, CoordinatorProfile, Result, ok, err, Env, Options,
}
use browserlogin_client.Coordinator.Spec.{
  Spec, Spec-pure, Spec-throw, Spec-bind, Spec-weaken, Spec-fact, Spec-try,
}
use browserlogin_client.Coordinator.Store.Files.{save_retry-At}
use browserlogin_client.Coordinator.Guard.{Rule, IsRule, At, Keeps}
use browserlogin_client.Coordinator.Guard.Steps.{
  call-At, Keeps-modify, Keeps-call, Keeps-gets, Keeps-pure, Keeps-throw, Keeps-throw_if,
  Keeps-crash_at, Keeps-guarded_observe, transition-At,
}
use browserlogin_client.Coordinator.Fields.{clear_identity}
use browserlogin_client.Coordinator.Start.{
  with_runner, find_browser, paths_of, intend_spawn, kill_recorded, unless_gone, kill_previous,
  on_spawned, outcome_of, enter_running, launch, full_spec, spawn, attempt, note_failure,
  start_locked,
}
use browserlogin_client.Coordinator.Start.Safety.{
  AllowsStart, Intends, IsRunning, Launches, SameRun, SameRun-self, SameRun-trans,
  acquire_for-Keeps, assign-Keeps, assign_save-At, mark_license-At, materialize-At, open_session-At,
}

module _ {env : Env} {opts : Options} {G : Rule} (rule : IsRule env opts G) where
  find_browser-Keeps :
      {o : Option RecoveryState} (b : Option String) → Keeps env opts G o (find_browser env opts b)
  unfolding find_browser
  find_browser-Keeps none = Keeps-call rule _ _ refl
  find_browser-Keeps (some path) = Keeps-pure path

  intend_spawn-At :
      {o : Option RecoveryState} (s : RecoveryState)
      → s.materialized ≡ true
      → Spec
          (At env opts G o)
          (intend_spawn env opts s)
          (λ v w. Intends (paths_of env opts s).launch_file s v × At env opts G (some v) w)
          (At env opts G none)
  unfolding intend_spawn
  intend_spawn-At s e = Spec-bind _ _ (transition-At rule _ spawn_intent) λ next. Spec-fact λ moved.
      Spec-bind _ _ (assign_save-At rule next) λ _. Spec-pure next (λ w h. (ground arith, h))

  kill_previous-At :
      (file : String) (a s : RecoveryState) (pid : Option ℕ)
      → s.runner_pid ≡ pid
      → Intends file a s
      → Spec
          (At env opts G (some s))
          (kill_previous env opts s pid)
          (λ v w. ((v.runner_pid ≡ none) × Intends file a v) × At env opts G (some v) w)
          (At env opts G none)
  unfolding kill_previous kill_recorded unless_gone
  kill_previous-At file a s none e i = Spec-pure s (λ w h. ((e, i), h))
  kill_previous-At file a s (some pid) e i =
      Spec-bind _ _
        (Spec-try _ _ (Spec-bind _ _ (call-At rule _ _ refl) (λ _. call-At rule _ _ refl))
          (λ f. Spec-bind _ _ (Keeps-call rule _ _ refl) (λ actual. Keeps-throw_if _ _)))
        λ _.
          Spec-bind _ _ (assign_save-At rule (clear_identity s))
            (λ _. Spec-pure _ (λ w h. ((refl, ground arith), h)))

  on_spawned-At :
      (s : RecoveryState) (id : Option ProcessIdentity)
      → Spec
          (At env opts G (some s))
          (on_spawned env opts s id)
          (λ v w. SameRun s v × At env opts G (some v) w)
          (At env opts G none)
  unfolding on_spawned
  on_spawned-At s none = Spec-pure s (λ w h. (SameRun-self s, h))
  on_spawned-At s (some id) = Spec-bind _ _ (assign_save-At rule (with_runner s id)) λ _.
      Spec-bind _ _ (Keeps-crash_at rule _) (λ _.
        Spec-pure _ (λ w h. (record { profile = refl; run = refl; key = refl; work = refl }, h)))

  outcome_of-Keeps :
      {o : Option RecoveryState} (r : Result RunnerHandle)
      → Keeps env opts G o (outcome_of env opts r)
  unfolding outcome_of
  outcome_of-Keeps (ok h) = Keeps-pure h
  outcome_of-Keeps (err f) = Keeps-throw f

  enter_running-At :
      {o : Option RecoveryState} (s : RecoveryState) (h : RunnerHandle)
      → Spec
          (At env opts G o)
          (enter_running env opts s h)
          (λ v w. (SameRun s v × IsRunning v) × At env opts G (some v) w)
          (At env opts G none)
  unfolding enter_running
  enter_running-At s h = Spec-bind _ _ (Keeps-modify rule _ (λ w. (refl, refl))) λ _.
      Spec-bind _ _ (transition-At rule _ running) λ next. Spec-fact λ moved.
        Spec-bind _ _ (assign_save-At rule next) λ _.
          Spec-bind _ _ (Keeps-crash_at rule _)
            λ _. Spec-pure next (λ w h. ((ground arith, ground arith), h))

  module _ (may : AllowsStart env opts G) where
    launch-At :
        (s : RecoveryState) (spec : LaunchSpec) (binary : String) (url : Option String)
        → Launches s spec (paths_of env opts s)
        → Spec
            (At env opts G (some s))
            (launch env opts s spec binary url)
            (λ v w. (SameRun s v × IsRunning v) × At env opts G (some v) w)
            (At env opts G none)
    unfolding launch
    launch-At s spec binary url l =
        Spec-bind _ _ (Keeps-guarded_observe rule _ _ (λ d h. may.launch s d spec binary url _ h l))
          λ launched. Spec-bind _ _ (on_spawned-At s launched.spawned) λ v. Spec-fact λ same.
            Spec-bind _ _ (outcome_of-Keeps launched.outcome) λ h.
              Spec-weaken (λ w k. k) (λ u w k. ((SameRun-trans same k.0.0, k.0.1), k.1)) (λ w k. k)
                (enter_running-At v h)

    spawn-At :
        {o : Option RecoveryState} (s : RecoveryState) (c : CoordinatorProfile) (base : String)
        (url : Option String)
        → s.materialized ≡ true
        → Spec
            (At env opts G o)
            (spawn env opts s c base url)
            (λ v w. (SameRun s v × IsRunning v) × At env opts G (some v) w)
            (At env opts G none)
    unfolding spawn
    spawn-At s c base url e = Spec-bind _ _ (find_browser-Keeps c.binary) λ binary.
        Spec-bind _ _ (intend_spawn-At s e) λ v. Spec-fact λ i.
          Spec-bind _ _ (kill_previous-At _ s v v.runner_pid refl i) λ u. Spec-fact λ f.
            Spec-weaken (λ w k. k) (λ t w k. ((SameRun-trans f.1.same k.0.0, k.0.1), k.1))
              (λ w k. k)
              (launch-At u (full_spec env opts s base) binary url (record {
                status = f.1.status;
                restored = f.1.restored;
                unowned = f.0;
                file =
                    f.1.launch_file
                    ∙ ap
                        (λ (r : String).
                          some (env.join (opts.root ∷ "launch" ∷ append r ".json" ∷ [])))
                        (sym f.1.same.run);
                dir = sym f.1.same.work;
              }))

    attempt-At :
        (s : RecoveryState) (c : CoordinatorProfile) (url : Option String)
        → Spec
            (At env opts G (some s))
            (attempt env opts s c url)
            (λ v w. (SameRun s v × IsRunning v) × At env opts G (some v) w)
            (At env opts G none)
    unfolding attempt
    attempt-At s c url = Spec-bind _ _ (open_session-At rule may s c) λ opened. Spec-fact λ same.
        Spec-bind _ _ (materialize-At rule opened.0) λ ready. Spec-fact λ f.
          Spec-weaken (λ w k. k)
            (λ t w k. ((SameRun-trans same (SameRun-trans f.0 k.0.0), k.0.1), k.1)) (λ w k. k)
            (spawn-At ready c opened.1 url f.1)

    -- A start that returns leaves the same attempt, running, in the recovery file.
    pub start_locked-At :
        (s : RecoveryState)
        → Spec
            (At env opts G (some s))
            (start_locked env opts s)
            (λ v w. (SameRun s v × IsRunning v) × At env opts G (some v) w)
            (At env opts G none)
    unfolding start_locked note_failure
    start_locked-At s = Spec-bind _ _ (assign-Keeps rule s) λ _.
        Spec-bind _ _ (Keeps-call rule _ _ refl) λ c.
          Spec-bind _ _ (acquire_for-Keeps rule s.profile_id) λ url.
            Spec-bind _ _ (mark_license-At rule s) λ marked. Spec-fact λ same.
              Spec-weaken (λ w k. k) (λ t w k. ((SameRun-trans same k.0.0, k.0.1), k.1)) (λ w k. k)
                (Spec-try _ _ (attempt-At marked c url) λ e. Spec-bind _ _ (Keeps-gets _) λ latest.
                  Spec-bind _ _ (save_retry-At rule latest) (λ _. Spec-throw e (λ w k. k)))
