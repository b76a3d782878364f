-- ===== src/Coordinator/Recover/Ambiguous.antt =====
-- A profile whose upload is ambiguous, under `recover` and the callbacks.
use browserlogin_client.Prelude.{
  ℕ, String, Option, none, some, ◌≡◌, refl, ltb, str_eq, ◌&&◌, ◌||◌, ◌∙◌, arith,
}
use browserlogin_client.Recovery.{
  RecoveryState, upload_ambiguous, is_done, is_running, is_upload_ambiguous,
}
use browserlogin_client.Coordinator.World.{Session, Failure, Env, Options}
use browserlogin_client.Coordinator.Spec.{
  Spec, Spec-pure, Spec-bind, Spec-if, Spec-fact, Spec-try, Spec-modify, Spec-observe, Spec-weaken,
}
use browserlogin_client.Coordinator.Store.Files.{Loaded}
use browserlogin_client.Coordinator.Store.Reload.{Kept, load-again, load-known}
use browserlogin_client.Coordinator.Guard.{Rule, IsRule, At}
use browserlogin_client.Coordinator.Guard.Steps.{At-none, Ended-none, Keeps-observe}
use browserlogin_client.Coordinator.Reconcile.Safety.{Reconciled, ambiguous-Reconciled}
use browserlogin_client.Coordinator.Recover.{
  recover_loaded, recover_unless, recover_round, recover_state, recover_work, recover, pid_is,
  closed_found, closed_work, process_closed, on_closed, mark_closed, on_normal_stop,
}
use browserlogin_client.Coordinator.Recover.Safety.{after_loop-Keeps, note_closed_failure-Keeps}
use browserlogin_client.Coordinator.Operations.Ambiguous.{Filed, Filed-logged, locked, stop-quiet}

module _ {env : Env} {opts : Options} {G : Rule} (rule : IsRule env opts G) (profile : String)
    (s : RecoveryState) (ambiguous : s.status ≡ upload_ambiguous) where
  pub on_normal_stop-quiet :
      Spec
        (Filed env opts G profile s)
        (on_normal_stop env opts profile)
        (λ _. At env opts G none)
        (At env opts G none)
  unfolding on_normal_stop mark_closed
  on_normal_stop-quiet =
      Spec-bind {R = λ _. Filed env opts G profile s} _ _
        (Spec-modify _
          (λ w h. (record { guarded = rule.framed w _ refl refl h.0.guarded; stored = tt }, h.1)))
        (λ _. stop-quiet rule profile s ambiguous)

  recover_loaded-quiet :
      (deadline : ℕ) (t : RecoveryState) (found : Option RecoveryState)
      → t.status ≡ upload_ambiguous
      → Kept t found
      → Spec
          (Loaded env opts G profile found)
          (recover_loaded env opts deadline found)
          (λ _. At env opts G none)
          (At env opts G none)
  unfolding recover_loaded
  recover_loaded-quiet deadline t none a k = after_loop-Keeps rule deadline none
  recover_loaded-quiet deadline t (some u) a k = Spec-fact λ e.
      Spec-if (is_done u.status || is_upload_ambiguous u.status) _ _
        (λ _. after_loop-Keeps rule deadline (some u)) (λ other. ground arith)

  pub recover-quiet :
      Spec
        (Filed env opts G profile s)
        (recover env opts profile)
        (λ _. At env opts G none)
        (At env opts G none)
  unfolding recover recover_work recover_round
  recover-quiet =
      Spec-bind {R = λ _. Filed env opts G profile s} _ _
        (Spec-observe _ _ (λ w h t. Filed-logged rule profile s ambiguous _ w refl h))
        λ now. locked rule profile s ambiguous _ (
          Spec-bind _ _ (load-known rule s profile)
            λ found. Spec-fact λ kept. found_then _ found kept)
    where
      round :
          (deadline : ℕ) (t : RecoveryState)
          → t.profile_id ≡ profile
          → t.status ≡ upload_ambiguous
          → (found : Option Session)
          → Spec
              (Reconciled env opts G t found)
              (recover_unless env opts profile deadline found)
              (λ _. At env opts G none)
              (At env opts G none)
      round deadline t e a (some r) = Spec-pure none (Ended-none r)
      round deadline t e a none =
          Spec-bind _ _ (load-again rule t profile e)
            λ again. Spec-fact λ kept. recover_loaded-quiet deadline t again a kept

      found_then :
          (deadline : ℕ) (found : Option RecoveryState)
          → Kept s found
          → Spec
              (Loaded env opts G profile found)
              (recover_state env opts profile deadline found)
              (λ _. At env opts G none)
              (At env opts G none)
      found_then deadline none k = after_loop-Keeps rule deadline none
      found_then deadline (some t) k = Spec-fact λ e.
          Spec-bind _ _ (Keeps-observe rule _ _ refl) λ now.
            Spec-if (ltb now deadline) _ _
              (λ _.
                Spec-bind _ _ (ambiguous-Reconciled rule t (k ∙ ambiguous))
                  (λ found. round deadline t e (k ∙ ambiguous) found))
              (λ _. after_loop-Keeps rule deadline (some t))

  pub on_closed-quiet :
      (f : Option Failure) (run : String) (pid : ℕ)
      → Spec
          (Filed env opts G profile s)
          (on_closed env opts f profile run pid)
          (λ _. At env opts G none)
          (At env opts G none)
  unfolding on_closed process_closed closed_work
  on_closed-quiet (some e) run pid =
      Spec-weaken (λ w h. h.0) (λ _ w h. h) (λ w h. h) (note_closed_failure-Keeps rule profile e)
  on_closed-quiet none run pid =
      Spec-try _ _
        (locked rule profile s ambiguous _ (
          Spec-bind _ _ (load-known rule s profile)
            λ found. Spec-fact λ kept. found_then found kept))
        (λ e. note_closed_failure-Keeps rule profile e)
    where
      found_then :
          (found : Option RecoveryState)
          → Kept s found
          → Spec
              (Loaded env opts G profile found)
              (closed_found env opts run pid found)
              (λ _. At env opts G none)
              (At env opts G none)
      found_then none k = Spec-pure none (λ w h. h)
      found_then (some t) k = Spec-fact λ e.
          Spec-if (str_eq t.run_id run && (pid_is env opts t.runner_pid pid && is_running t.status))
            _ _ (λ running_now. ground arith) (λ _. Spec-pure none At-none)
