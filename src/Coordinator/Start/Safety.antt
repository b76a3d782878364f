-- ===== src/Coordinator/Start/Safety.antt =====
-- What `startLocked` has in the recovery file when it starts the session and launches the runner,
-- and what it leaves there.
pub mod Spawn
use browserlogin_client.Prelude.{
  ℕ, String, true, Option, none, some, ◌≡◌, refl, ◌∙◌, ap, truthy, arith, sym, append, [], ◌∷◌,
}
use browserlogin_client.Recovery.{
  RecoveryState, ArchiveRecord, license, remote_active, archive_materialized, spawn_intent, running,
}
use browserlogin_client.Coordinator.World.{
  ProcessIdentity, LaunchSpec, RunnerPaths, RunnerHandle, CoordinatorProfile, Result, ok, err, Env,
  Options, Disk, start_session, launch_runner,
}
use browserlogin_client.Coordinator.Exec.{pure}
use browserlogin_client.Coordinator.Spec.{
  Spec, Spec-pure, Spec-throw, Spec-bind, Spec-if, Spec-weaken, Spec-fact, Spec-try,
}
use browserlogin_client.Coordinator.Store.Files.{save-At, save_retry-At}
use browserlogin_client.Coordinator.Guard.{Rule, IsRule, At, Keeps, Stands}
use browserlogin_client.Coordinator.Guard.Steps.{
  call-At, Keeps-bind, Keeps-modify, Keeps-call, Keeps-gets, Keeps-pure, Keeps-throw, Keeps-if,
  Keeps-skip, Keeps-when, Keeps-throw_if, Keeps-crash_at, Keeps-guarded, Keeps-guarded_observe,
  transition-At,
}
use browserlogin_client.Coordinator.Restore.Safety.{restore_archive-Keeps}
use browserlogin_client.Coordinator.Cleanup.{cache_origin}
use browserlogin_client.Coordinator.Fields.{clear_identity}
use browserlogin_client.Coordinator.Start.{
  with_runner, assign, assign_save, ask_license, license_url, keep_url, acquire_for, take_license,
  mark_license, begin_session, keep_session, open_session, drop_cached, restore_once, restore_work,
  materialize, find_browser, paths_of, intend_spawn, kill_recorded, unless_gone, kill_previous,
  on_spawned, outcome_of, enter_running, launch, full_spec, spawn, attempt, note_failure,
  start_locked,
}

-- The state belongs to the same attempt.
pub record SameRun (s v : RecoveryState) : Type 0 where
  pub profile : v.profile_id ≡ s.profile_id
  pub run : v.run_id ≡ s.run_id
  pub key : v.start_key ≡ s.start_key
  pub work : v.work_dir ≡ s.work_dir

SameRun-self : (s : RecoveryState) → SameRun s s
SameRun-self s = record { profile = refl; run = refl; key = refl; work = refl }

SameRun-trans : {s t u : RecoveryState} → SameRun s t → SameRun t u → SameRun s u
SameRun-trans h k = record {
  profile = k.profile ∙ h.profile;
  run = k.run ∙ h.run;
  key = k.key ∙ h.key;
  work = k.work ∙ h.work;
}

-- The state is about to launch a runner at these paths, and records none.
pub record Launches (s : RecoveryState) (spec : LaunchSpec) (paths : RunnerPaths) : Type 0 where
  pub status : s.status ≡ spawn_intent
  pub restored : s.materialized ≡ true
  pub unowned : s.runner_pid ≡ none
  pub file : s.launch_file ≡ some paths.launch_file
  pub dir : spec.user_data_dir ≡ s.work_dir

-- The browser of the state runs.
pub record IsRunning (v : RecoveryState) : Type 0 where
  pub status : v.status ≡ running
  pub launched : v.browser_launched ≡ true

-- What holds between the intent to spawn, with this launch file, and the launch.
record Intends (file : String) (s v : RecoveryState) : Type 0 where
  same : SameRun s v
  status : v.status ≡ spawn_intent
  restored : v.materialized ≡ true
  launch_file : v.launch_file ≡ some file

-- The rule allows the calls of a start from such states.
pub record AllowsStart (env : Env) (opts : Options) (G : Rule) : Type 0 where
  pub start :
      (s : RecoveryState) (d : Disk)
      → Stands env opts d s
      → G.allows (start_session s.profile_id s.start_key) d
  pub launch :
      (s : RecoveryState) (d : Disk) (spec : LaunchSpec) (binary : String) (url : Option String)
      (paths : RunnerPaths)
      → Stands env opts d s
      → Launches s spec paths
      → G.allows (launch_runner spec binary url paths) d

module _ {env : Env} {opts : Options} {G : Rule} (rule : IsRule env opts G) where
  assign-Keeps :
      {o : Option RecoveryState} (s : RecoveryState) → Keeps env opts G o (assign env opts s)
  unfolding assign
  assign-Keeps s = Keeps-modify rule _ (λ w. (refl, refl))

  assign_save-At :
      {o : Option RecoveryState} (s : RecoveryState)
      → Spec
          (At env opts G o)
          (assign_save env opts s)
          (λ _. At env opts G (some s))
          (At env opts G none)
  unfolding assign_save
  assign_save-At s = Spec-bind _ _ (assign-Keeps s) (λ _. save-At rule s)

  acquire_for-Keeps :
      {o : Option RecoveryState} (profile : String)
      → Keeps env opts G o (acquire_for env opts profile)
  unfolding acquire_for license_url keep_url
  acquire_for-Keeps {o} profile =
      Keeps-bind _ _
        (Keeps-if _ _ _ (Keeps-bind _ _ (Keeps-gets _) (λ known. ask_license-Keeps known))
          (Keeps-pure _))
        λ url. Keeps-bind _ _ (Keeps-throw_if _ _) λ _.
          Keeps-bind _ _ (Keeps-when _ _ (Keeps-modify rule _ (λ w. (refl, refl))))
            (λ _. Keeps-pure url)
    where
      ask_license-Keeps : (known : Option String) → Keeps env opts G o (ask_license env opts known)
      ask_license-Keeps none = Keeps-call rule _ _ refl
      ask_license-Keeps (some url) = Keeps-pure _

  mark_license-At :
      (s : RecoveryState)
      → Spec
          (At env opts G (some s))
          (mark_license env opts s)
          (λ v w. SameRun s v × At env opts G (some v) w)
          (At env opts G none)
  unfolding mark_license take_license
  mark_license-At s =
      Spec-if s.license_acquired (pure s) _ (λ _. Spec-pure s (λ w h. (SameRun-self s, h)))
        λ _. Spec-bind _ _ (transition-At rule _ license) λ next. Spec-fact λ moved.
          Spec-bind _ _ (assign_save-At next) λ _.
            Spec-bind _ _ (Keeps-crash_at rule _) λ _. Spec-pure next (λ w h. (ground arith, h))

  module _ (may : AllowsStart env opts G) where
    open_session-At :
        (s : RecoveryState) (c : CoordinatorProfile)
        → Spec
            (At env opts G (some s))
            (open_session env opts s c)
            (λ p w. SameRun s p.0 × At env opts G (some p.0) w)
            (At env opts G none)
    unfolding open_session begin_session
    open_session-At s c =
        Spec-if (truthy s.remote_session_id) _ _ (λ _. kept c.session_launch_spec)
          λ _. Spec-bind _ _ (Keeps-guarded rule _ _ (λ d h. may.start s d h)) λ started.
            Spec-bind _ _ (transition-At rule _ remote_active) λ next. Spec-fact λ moved.
              Spec-bind _ _ (assign_save-At next) λ _.
                Spec-bind _ _ (Keeps-crash_at rule _) λ _. Spec-pure _ (λ w h. (ground arith, h))
      where
        kept :
            (f : Option (String → String))
            → Spec
                (At env opts G (some s))
                (keep_session env opts s c f)
                (λ p w. SameRun s p.0 × At env opts G (some p.0) w)
                (At env opts G none)
        kept none = Spec-pure _ (λ w h. (SameRun-self s, h))
        kept (some f) = Spec-bind _ _ (Keeps-guarded rule _ _ (λ d h. may.start s d h)) λ again.
            Spec-bind _ _ (Keeps-throw_if _ _) (λ _. Spec-pure _ (λ w h. (SameRun-self s, h)))

  restore_work-Keeps :
      {o : Option RecoveryState} (s : RecoveryState) (a : Option ArchiveRecord)
      → Keeps env opts G o (restore_work env opts s a)
  unfolding restore_work restore_once
  restore_work-Keeps s (some a) =
      Keeps-if _ _ _ Keeps-skip (restore_archive-Keeps rule _ s.profile_id a _ s.work_dir)
  restore_work-Keeps {o} s none = dropped (cache_origin env opts)
    where
      dropped :
          (origin : Option String) → Keeps env opts G o (drop_cached env opts s.profile_id origin)
      dropped none = Keeps-skip
      dropped (some origin) = Keeps-call rule _ _ refl

  materialize-At :
      {o : Option RecoveryState} (s : RecoveryState)
      → Spec
          (At env opts G o)
          (materialize env opts s)
          (λ v w. (SameRun s v × (v.materialized ≡ true)) × At env opts G (some v) w)
          (At env opts G none)
  unfolding materialize
  materialize-At s = Spec-bind _ _ (Keeps-call rule _ _ refl) λ _.
      Spec-bind _ _ (restore_work-Keeps s s.archive) λ _.
        Spec-bind _ _ (Keeps-call rule _ _ refl) λ _.
          Spec-bind _ _ (transition-At rule _ archive_materialized) λ next. Spec-fact λ moved.
            Spec-bind _ _ (assign_save-At next) λ _.
              Spec-bind _ _ (Keeps-crash_at rule _)
                λ _. Spec-pure next (λ w h. ((ground arith, ground arith), h))
