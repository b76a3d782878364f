-- ===== src/Coordinator/Reconcile/Safety.antt =====
-- What `cleanupRemoteStoppedLocked`, `reconcileLocked` and `forceStopLocked` leave of the recovery
-- file, and what is in it when a forced stop is sent.
use browserlogin_client.Prelude.{
  String, true, false, not, Option, none, some, ◌≡◌, refl, str_eq, opt_eq, eq_iff, arith, is_some,
  or_else, ◌&&◌, ◌||◌,
}
use browserlogin_client.Recovery.{
  RecoveryState, archive_materialized, force_stop, upload_ambiguous, is_upload_pending,
  is_force_stop, is_upload_ambiguous, is_running,
}
use browserlogin_client.Coordinator.World.{
  Session, ProcessIdentity, Result, ok, err, Env, Options, World, Disk, force_stop_session,
}
use browserlogin_client.Coordinator.Exec.{pure}
use browserlogin_client.Coordinator.Spec.{
  Spec, Spec-pure, Spec-bind, Spec-if, Spec-throw_if, Spec-fact,
}
use browserlogin_client.Coordinator.Store.Files.{save-At}
use browserlogin_client.Coordinator.Guard.{Ended, Rule, IsRule, At, Keeps, Stands}
use browserlogin_client.Coordinator.Guard.Steps.{
  At-none, Keeps-bind, Keeps-call, Keeps-observe, Keeps-gets, Keeps-pure, Keeps-if, Keeps-throw_if,
  Keeps-guarded, transition-At,
}
use browserlogin_client.Coordinator.Fields.{
  stopped, reports_stopped, clear_session, persisted_identity,
}
use browserlogin_client.Coordinator.Cleanup.Safety.{
  halt-Keeps, cleanup_locked-Gone, adopt_committed-Ended, IsEnd,
}
use browserlogin_client.Coordinator.Reconcile.{
  discard_stopped, cleanup_remote_stopped, some_session, ask_status, status_of, stop_dead,
  check_dead, check_runner, reconcile_running, reconcile_local, reconcile_remote, reconcile_locked,
  force_halted, force_remote, force_stop_locked,
}
use browserlogin_client.Coordinator.Stop.Safety.{AllowsStop}
use browserlogin_client.Coordinator.Stop.Safety.Upload.{stop_locked-Ended}

-- After a reconciliation: a returned session has ended, else the state stands as it was.
abbrev pub Reconciled : Env → Options → Rule → RecoveryState → Option Session → World → Type 0
Reconciled env opts G s none = At env opts G (some s)
Reconciled env opts G s (some r) = Ended env opts G s.profile_id r

-- The rule allows a forced stop from a state that intends it.
pub record AllowsForce (env : Env) (opts : Options) (G : Rule) : Type 0 where
  pub force :
      (s : RecoveryState) (d : Disk)
      → Stands env opts d s
      → s.status ≡ force_stop
      → G.allows (force_stop_session (or_else s.remote_session_id "") (or_else s.stop_key "")) d

own_profile :
    (s : RecoveryState) (r : Session)
    → not (opt_eq (some r.id) s.remote_session_id) || not (str_eq r.profile_id s.profile_id) ≡ false
    → r.profile_id ≡ s.profile_id
own_profile s r h = (eq_iff r.profile_id s.profile_id).0 (ground arith)

-- The answer to a stop without archive, as `forceStopLocked` and `rollbackStart` accept it.
pub stopped_own :
    (s : RecoveryState) (r : Session)
    → not (opt_eq (some r.id) s.remote_session_id)
        || (not (str_eq r.profile_id s.profile_id) || not (stopped r))
      ≡ false
    → IsEnd s r
stopped_own s r h = ((eq_iff r.profile_id s.profile_id).0 (ground arith), ground arith)

module _ {env : Env} {opts : Options} {G : Rule} (rule : IsRule env opts G) where
  -- A session that the service reports stopped ends with its file removed.
  pub cleanup_remote_stopped-Ended :
      {o : Option RecoveryState} (s : RecoveryState) (r : Session)
      → IsEnd s r
      → Spec
          (At env opts G o)
          (cleanup_remote_stopped env opts s r)
          (Ended env opts G s.profile_id)
          (At env opts G none)
  unfolding cleanup_remote_stopped discard_stopped
  cleanup_remote_stopped-Ended s r k =
      Spec-if (is_upload_pending s.status) _ _ (λ _. adopt_committed-Ended rule s r k)
        λ _. Spec-bind _ _ (halt-Keeps rule s) λ _. Spec-bind _ _ (save-At rule _) λ _.
          Spec-bind _ _ (cleanup_locked-Gone rule _ true)
            (λ _. Spec-pure r (λ w h. record { owner = k.0; reported = k.1; gone = h }))

  status_of-Keeps :
      {o : Option RecoveryState} (id : Option String) → Keeps env opts G o (status_of env opts id)
  unfolding status_of some_session ask_status
  status_of-Keeps none = Keeps-pure _
  status_of-Keeps (some id) =
      Keeps-if _ _ _ (Keeps-bind _ _ (Keeps-call rule _ _ refl) (λ r. Keeps-pure _)) (Keeps-pure _)

  module _ (may : AllowsStop env opts G) where
    -- A stop of the state with its dead runner cleared.
    stop_dead-Ended :
        {o : Option RecoveryState} (s : RecoveryState)
        → Spec
            (At env opts G o)
            (stop_dead env opts s)
            (Reconciled env opts G s)
            (At env opts G none)
    unfolding stop_dead
    stop_dead-Ended s = Spec-bind _ _ (transition-At rule _ archive_materialized) λ next.
        Spec-fact λ moved. rw (moved.1) (
          Spec-bind _ _ (save-At rule _)
            λ _. Spec-bind _ _ (stop_locked-Ended rule may _) (λ r. Spec-pure (some r) (λ w h. h)))

    check_runner-Reconciled :
        (s : RecoveryState) (id : Option ProcessIdentity)
        → Spec
            (At env opts G (some s))
            (check_runner env opts s id)
            (Reconciled env opts G s)
            (At env opts G none)
    unfolding check_runner
    check_runner-Reconciled s none = Spec-pure none (λ w h. h)
    check_runner-Reconciled s (some id) =
        Spec-bind _ _ (Keeps-observe rule _ _ refl) (λ alive. check_dead-Reconciled alive)
      where
        check_dead-Reconciled :
            (alive : Result (Unit {0}))
            → Spec
                (At env opts G (some s))
                (check_dead env opts s id alive)
                (Reconciled env opts G s)
                (At env opts G none)
        check_dead-Reconciled (ok u) = Spec-pure none (λ w h. h)
        check_dead-Reconciled (err f) =
            Spec-bind _ _ (Keeps-call rule _ _ refl)
              λ actual. Spec-bind _ _ (Keeps-throw_if _ _) (λ _. stop_dead-Ended s)

    reconcile_local-Reconciled :
        (s : RecoveryState)
        → Spec
            (At env opts G (some s))
            (reconcile_local env opts s)
            (Reconciled env opts G s)
            (At env opts G none)
    unfolding reconcile_local reconcile_running
    reconcile_local-Reconciled s =
        Spec-if (is_force_stop s.status || is_upload_ambiguous s.status) (pure none) _
          (λ _. Spec-pure none (λ w h. h))
          λ _. Spec-bind _ _ (Keeps-gets _) λ handle.
            Spec-if (is_running s.status && not (is_some handle)) _ (pure none)
              (λ _. check_runner-Reconciled s (persisted_identity s))
              (λ _. Spec-pure none (λ w h. h))

    -- A reconciliation ends the session or leaves the state as it was.
    pub reconcile_locked-Reconciled :
        (s : RecoveryState)
        → Spec
            (At env opts G (some s))
            (reconcile_locked env opts s)
            (Reconciled env opts G s)
            (At env opts G none)
    unfolding reconcile_locked
    reconcile_locked-Reconciled s =
        Spec-bind _ _ (status_of-Keeps s.remote_session_id) (λ r. by_remote r)
      where
        by_remote :
            (r : Option Session)
            → Spec
                (At env opts G (some s))
                (reconcile_remote env opts s r)
                (Reconciled env opts G s)
                (At env opts G none)
        by_remote none = reconcile_local-Reconciled s
        by_remote (some r) = Spec-bind _ _ (Spec-throw_if _ _ (λ w h. At-none w h)) λ _.
            Spec-fact λ own.
              Spec-if (reports_stopped r) _ _
                (λ ends.
                  Spec-bind _ _ (cleanup_remote_stopped-Ended s r (own_profile s r own, ends))
                    (λ v. Spec-pure (some v) (λ w h. h)))
                (λ _. reconcile_local-Reconciled s)

  -- A state in upload-ambiguous is reconciled without a rule for stops: no stop is tried.
  pub ambiguous-Reconciled :
      (s : RecoveryState)
      → s.status ≡ upload_ambiguous
      → Spec
          (At env opts G (some s))
          (reconcile_locked env opts s)
          (Reconciled env opts G s)
          (At env opts G none)
  unfolding reconcile_locked reconcile_local
  ambiguous-Reconciled s e = Spec-bind _ _ (status_of-Keeps s.remote_session_id) (λ r. by_remote r)
    where
      local :
          Spec
            (At env opts G (some s))
            (reconcile_local env opts s)
            (Reconciled env opts G s)
            (At env opts G none)
      local =
          Spec-if (is_force_stop s.status || is_upload_ambiguous s.status) (pure none) _
            (λ _. Spec-pure none (λ w h. h)) (λ other. ground arith)

      by_remote :
          (r : Option Session)
          → Spec
              (At env opts G (some s))
              (reconcile_remote env opts s r)
              (Reconciled env opts G s)
              (At env opts G none)
      by_remote none = local
      by_remote (some r) = Spec-bind _ _ (Spec-throw_if _ _ (λ w h. At-none w h)) λ _.
          Spec-fact λ own.
            Spec-if (reports_stopped r) _ _
              (λ ends.
                Spec-bind _ _ (cleanup_remote_stopped-Ended s r (own_profile s r own, ends))
                  (λ v. Spec-pure (some v) (λ w h. h)))
              (λ _. local)

  module _ (may : AllowsForce env opts G) where
    force_halted-Ended :
        {o : Option RecoveryState} (s : RecoveryState)
        → s.status ≡ force_stop
        → Spec
            (At env opts G o)
            (force_halted env opts s)
            (Ended env opts G s.profile_id)
            (At env opts G none)
    unfolding force_halted
    force_halted-Ended s e = Spec-bind _ _ (halt-Keeps rule s) λ _.
        Spec-bind _ _ (save-At rule (clear_session s)) λ _.
          Spec-bind _ _ (Keeps-guarded rule _ _ (λ d h. may.force (clear_session s) d h e)) λ r.
            Spec-bind _ _ (Spec-throw_if _ _ At-none) λ _. Spec-fact λ done.
              Spec-bind _ _ (cleanup_locked-Gone rule _ true) (λ _. Spec-pure r (λ w h. record {
                owner = (stopped_own s r done).0;
                reported = (stopped_own s r done).1;
                gone = h;
              }))

    -- A forced stop that returns has removed the recovery file.
    pub force_stop_locked-Ended :
        {o : Option RecoveryState} (s : RecoveryState)
        → s.status ≡ force_stop
        → Spec
            (At env opts G o)
            (force_stop_locked env opts s)
            (Ended env opts G s.profile_id)
            (At env opts G none)
    unfolding force_stop_locked
    force_stop_locked-Ended {o} s e =
        Spec-bind _ _ (status_of-Keeps s.remote_session_id) (λ r. by_remote r)
      where
        by_remote :
            (r : Option Session)
            → Spec
                (At env opts G o)
                (force_remote env opts s r)
                (Ended env opts G s.profile_id)
                (At env opts G none)
        by_remote none = force_halted-Ended s e
        by_remote (some r) = Spec-bind _ _ (Spec-throw_if _ _ (λ w h. At-none w h)) λ _.
            Spec-fact λ own.
              Spec-if (reports_stopped r) _ _
                (λ ends. cleanup_remote_stopped-Ended s r (own_profile s r own, ends))
                (λ _. force_halted-Ended s e)
