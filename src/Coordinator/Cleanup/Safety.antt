-- ===== src/Coordinator/Cleanup/Safety.antt =====
-- Stopping the runner leaves the recovery file alone; a cleanup ends with the file removed.
use browserlogin_client.Prelude.{
  ℕ, String, Bool, false, Option, none, some, List, [], ◌∷◌, ◌≡◌, true, refl, str_eq,
}
use browserlogin_client.Json.{Fields, natural}
use browserlogin_client.Recovery.{RecoveryState, ArchiveRecord}
use browserlogin_client.Coordinator.World.{
  Session, Digest, ProcessIdentity, RunnerHandle, browser_login, Result, ok, err, Env, Options,
}
use browserlogin_client.Coordinator.Exec.{throw}
use browserlogin_client.Coordinator.Spec.{Spec, Spec-pure, Spec-throw, Spec-bind, Spec-if}
use browserlogin_client.Coordinator.Store.Files.{save-At, remove-Gone}
use browserlogin_client.Coordinator.Guard.{Ended, Rule, IsRule, At, Gone, Keeps}
use browserlogin_client.Coordinator.Guard.Steps.{
  At-none, Keeps-bind, Keeps-modify, Keeps-call, Keeps-observe, Keeps-pure, Keeps-throw, Keeps-if,
  Keeps-skip, Keeps-when, Keeps-throw_if, Keeps-transition, Keeps-crash_at, Keeps-assert_state_path,
  keeps_rules,
}
use browserlogin_client.Coordinator.Cleanup.{
  drop_handle, stop_live, kill_persisted, stop_identity, stop_unhandled, stop_by_handle,
  forget_closed, stop_runner, give_back_license, release_and_crash, halt, start_rm, rm_asserted,
  rm_optional, settle, rm_artifacts, assert_artifact, rm_run_files, cleanup_locked,
  publish_committed, finish_done, adopt_generation, adopt_parts, adopt_committed,
}
use browserlogin_client.Coordinator.Fields.{reports_stopped, persisted_identity}

module _ {env : Env} {opts : Options} {G : Rule} {o : Option RecoveryState}
    (rule : IsRule env opts G) where
  drop_handle-Keeps : (profile : String) → Keeps env opts G o (drop_handle env opts profile)
  unfolding drop_handle
  drop_handle-Keeps profile = Keeps-modify rule _ (λ w. (refl, refl))

  forget_closed-Keeps : (profile : String) → Keeps env opts G o (forget_closed env opts profile)
  unfolding forget_closed
  forget_closed-Keeps profile = Keeps-modify rule _ (λ w. (refl, refl))

  stop_live-Keeps :
      (h : RunnerHandle) (actual : Option ProcessIdentity)
      → Keeps env opts G o (stop_live env opts h actual)
  unfolding stop_live
  stop_live-Keeps h none = Keeps-skip
  stop_live-Keeps h (some actual) = search (keeps_rules, rule)

  stop_identity-Keeps :
      (id : Option ProcessIdentity) → Keeps env opts G o (stop_identity env opts id)
  unfolding stop_identity
  stop_identity-Keeps none = Keeps-skip
  stop_identity-Keeps (some id) =
      Keeps-bind _ _ (Keeps-call rule _ _ refl) (λ actual. kill_persisted-Keeps actual)
    where
      kill_persisted-Keeps :
          (actual : Option ProcessIdentity) → Keeps env opts G o (kill_persisted env opts id actual)
      kill_persisted-Keeps none = Keeps-skip
      kill_persisted-Keeps (some actual) = search (keeps_rules, rule)

  stop_unhandled-Keeps : (s : RecoveryState) → Keeps env opts G o (stop_unhandled env opts s)
  unfolding stop_unhandled
  stop_unhandled-Keeps s =
      Keeps-if _ _ _ (Keeps-call rule _ _ refl) (stop_identity-Keeps (persisted_identity s))

  stop_by_handle-Keeps :
      (s : RecoveryState) (h : Option RunnerHandle)
      → Keeps env opts G o (stop_by_handle env opts s h)
  unfolding stop_by_handle
  stop_by_handle-Keeps s none = stop_unhandled-Keeps s
  stop_by_handle-Keeps s (some h) = search (keeps_rules, rule, stop_live-Keeps, drop_handle-Keeps)

  pub stop_runner-Keeps : (s : RecoveryState) → Keeps env opts G o (stop_runner env opts s)
  unfolding stop_runner
  stop_runner-Keeps s = search (keeps_rules, stop_by_handle-Keeps, forget_closed-Keeps)

  pub give_back_license-Keeps :
      (s : RecoveryState) → Keeps env opts G o (give_back_license env opts s)
  unfolding give_back_license
  give_back_license-Keeps s =
      Keeps-bind _ _ (Keeps-when _ _ (Keeps-call rule _ _ refl))
        (λ _. Keeps-modify rule _ (λ w. (refl, refl)))

  release_and_crash-Keeps : (s : RecoveryState) → Keeps env opts G o (release_and_crash env opts s)
  unfolding release_and_crash
  release_and_crash-Keeps s =
      Keeps-bind _ _ (give_back_license-Keeps s) (λ _. Keeps-crash_at rule _)

  -- Halting touches no recovery file and makes no guarded call.
  pub halt-Keeps : (s : RecoveryState) → Keeps env opts G o (halt env opts s)
  unfolding halt
  halt-Keeps s = search (keeps_rules, rule, stop_runner-Keeps, release_and_crash-Keeps)

  start_rm-Keeps : (path : String) → Keeps env opts G o (start_rm env opts path)
  unfolding start_rm
  start_rm-Keeps path = Keeps-observe rule _ _ refl

  rm_asserted-Keeps : (path : String) → Keeps env opts G o (rm_asserted env opts path)
  unfolding rm_asserted
  rm_asserted-Keeps path =
      Keeps-bind _ _ (Keeps-assert_state_path rule path) (λ inside. start_rm-Keeps inside)

  rm_optional-Keeps : (path : Option String) → Keeps env opts G o (rm_optional env opts path)
  unfolding rm_optional
  rm_optional-Keeps none = Keeps-pure _
  rm_optional-Keeps (some path) = Keeps-if _ _ _ (Keeps-pure _) (rm_asserted-Keeps path)

  rm_artifacts-Keeps :
      (own : String) (other : Option String) → Keeps env opts G o (rm_artifacts env opts own other)
  unfolding rm_artifacts
  rm_artifacts-Keeps own none = search (keeps_rules, start_rm-Keeps)
  rm_artifacts-Keeps own (some other) = search (keeps_rules, start_rm-Keeps)

  assert_artifact-Keeps :
      (path : Option String) → Keeps env opts G o (assert_artifact env opts path)
  unfolding assert_artifact
  assert_artifact-Keeps none = Keeps-pure _
  assert_artifact-Keeps (some path) = search (keeps_rules, rule)

  settle-Keeps : (rs : List (Result (Unit {0}))) → Keeps env opts G o (settle env opts rs)
  unfolding settle
  settle-Keeps [] = Keeps-skip
  settle-Keeps (ok u ∷ rs) = settle-Keeps rs
  settle-Keeps (err f ∷ rs) = Keeps-throw f

  rm_run_files-Keeps :
      (s : RecoveryState) (preserve : Bool) → Keeps env opts G o (rm_run_files env opts s preserve)
  unfolding rm_run_files
  rm_run_files-Keeps s preserve =
      search (keeps_rules, rm_asserted-Keeps, rm_optional-Keeps, start_rm-Keeps) depth 9

  -- A cleanup that returns has removed the profile's recovery file.
  pub cleanup_locked-Gone :
      (s : RecoveryState) (preserve : Bool)
      → Spec
          (At env opts G o)
          (cleanup_locked env opts s preserve)
          (λ _. Gone env opts G s.profile_id)
          (At env opts G none)
  unfolding cleanup_locked
  cleanup_locked-Gone s preserve = Spec-bind _ _ (Keeps-assert_state_path rule _) λ own.
      Spec-bind _ _ (assert_artifact-Keeps s.archive_artifact) λ other.
        Spec-bind _ _ (rm_artifacts-Keeps own other) λ two.
          Spec-bind _ _ (rm_run_files-Keeps s preserve) λ rest.
            Spec-bind _ _ (settle-Keeps (two.0 ∷ two.1 ∷ rest)) (λ _. remove-Gone rule s.profile_id)

  publish_committed-Keeps :
      (s : RecoveryState) (g : ℕ) (d : Digest) (artifact : String) (origin : Option String)
      → Keeps env opts G o (publish_committed env opts s g d artifact origin)
  unfolding publish_committed
  publish_committed-Keeps s g d artifact none = Keeps-skip
  publish_committed-Keeps s g d artifact (some origin) = Keeps-call rule _ _ refl

-- The session is the state's profile's, and the service calls it stopped.
abbrev pub IsEnd : RecoveryState → Session → Type 0
IsEnd s r = (r.profile_id ≡ s.profile_id) × (reports_stopped r ≡ true)

module _ {env : Env} {opts : Options} {G : Rule} (rule : IsRule env opts G) where
  finish_done-Ended :
      {o : Option RecoveryState} (s : RecoveryState) (r : Session)
      → IsEnd s r
      → Spec
          (At env opts G o)
          (finish_done env opts s r)
          (Ended env opts G s.profile_id)
          (At env opts G none)
  unfolding finish_done
  finish_done-Ended s r k = Spec-bind _ _ (Keeps-transition rule _ _) λ finished.
      Spec-bind _ _ (save-At rule finished) λ _.
        Spec-bind _ _ (cleanup_locked-Gone rule _ false)
          (λ _. Spec-pure r (λ w h. record { owner = k.0; reported = k.1; gone = h }))

  adopt_generation-Ended :
      {o : Option RecoveryState} (s : RecoveryState) (r : Session) (artifact : String)
      (payload : Fields) (g : Option ℕ)
      → IsEnd s r
      → Spec
          (At env opts G o)
          (adopt_generation env opts s r artifact payload g)
          (Ended env opts G s.profile_id)
          (At env opts G none)
  unfolding adopt_generation
  adopt_generation-Ended s r artifact payload none k = Spec-throw _ At-none
  adopt_generation-Ended s r artifact payload (some g) k =
      Spec-bind _ _ (Keeps-call rule _ _ refl) λ d. Spec-bind _ _ (Keeps-throw_if _ _) λ _.
        Spec-bind _ _ (publish_committed-Keeps rule s g d artifact _)
          λ _. Spec-bind _ _ (Keeps-crash_at rule _) (λ _. finish_done-Ended s r k)

  adopt_parts-Ended :
      {o : Option RecoveryState} (s : RecoveryState) (r : Session) (artifact : Option String)
      (a : Option ArchiveRecord) (payload : Option Fields)
      → IsEnd s r
      → Spec
          (At env opts G o)
          (adopt_parts env opts s r artifact a payload)
          (Ended env opts G s.profile_id)
          (At env opts G none)
  unfolding adopt_parts
  adopt_parts-Ended s r (some artifact) (some a) (some payload) k =
      Spec-if (str_eq artifact "") (throw (browser_login "committed upload state is incomplete")) _
        (λ _. Spec-throw _ At-none)
        (λ _. adopt_generation-Ended s r artifact payload (natural r.archive_generation) k)
  adopt_parts-Ended s r _ _ _ k = Spec-throw _ At-none

  -- An adopted commit leaves no recovery file, and returns the session it was given.
  pub adopt_committed-Ended :
      {o : Option RecoveryState} (s : RecoveryState) (r : Session)
      → IsEnd s r
      → Spec
          (At env opts G o)
          (adopt_committed env opts s r)
          (Ended env opts G s.profile_id)
          (At env opts G none)
  unfolding adopt_committed
  adopt_committed-Ended s r k = adopt_parts-Ended s r s.archive_artifact s.archive _ k
