-- ===== src/Coordinator/Operations/Safety.antt =====
-- The public methods keep the rule, and leave in the recovery file what they promise.
use browserlogin_client.Prelude.{String, false, Option, none, some, ◌≡◌, refl, ◌∙◌, arith}
use browserlogin_client.Recovery.{RecoveryState, running, is_done, is_running, is_upload_ambiguous}
use browserlogin_client.Coordinator.World.{Session, Env, Options, World}
use browserlogin_client.Coordinator.Exec.{pure, throw, skip}
use browserlogin_client.Coordinator.Spec.{
  Spec, Spec-pure, Spec-throw, Spec-bind, Spec-if, Spec-weaken, Spec-fact,
}
use browserlogin_client.Coordinator.Store.{new_state}
use browserlogin_client.Coordinator.Store.Files.{Loaded, load-At, save-At, with_transition-Spec}
use browserlogin_client.Coordinator.Guard.{Rule, IsRule, At}
use browserlogin_client.Coordinator.Guard.Steps.{
  Ended-none, At-none, At-logged, Keeps-observe, Keeps-crash_at, Keeps-stamp,
}
use browserlogin_client.Coordinator.Cleanup.Safety.{cleanup_locked-Gone}
use browserlogin_client.Coordinator.Stop.Safety.{AllowsStop}
use browserlogin_client.Coordinator.Reconcile.Safety.{Reconciled, reconcile_locked-Reconciled}
use browserlogin_client.Coordinator.Start.{start_locked}
use browserlogin_client.Coordinator.Start.Safety.{AllowsStart}
use browserlogin_client.Coordinator.Start.Safety.Spawn.{start_locked-At}
use browserlogin_client.Coordinator.Operations.{
  clean_done, start_fresh, start_reconciled, start_found, start_work, start,
}

-- What a start that returns leaves: the profile runs, and its file says so.
pub record Started (env : Env) (opts : Options) (G : Rule) (profile : String) (v : RecoveryState)
    (w : World) : Type 0 where
  pub profile_is : v.profile_id ≡ profile
  pub status : v.status ≡ running
  pub at : At env opts G (some v) w

module _ {env : Env} {opts : Options} {G : Rule} (rule : IsRule env opts G) where
  pub Reconciled-none :
      (s : RecoveryState) (found : Option Session) (w : World)
      → Reconciled env opts G s found w
      → At env opts G none w
  Reconciled-none s none w h = At-none w h
  Reconciled-none s (some r) w h = Ended-none r w h

  new_state-profile :
      {o : Option RecoveryState} (profile run key : String)
      → Spec
          (At env opts G o)
          (new_state env opts profile run key)
          (λ v w. (v.profile_id ≡ profile) × At env opts G o w)
          (At env opts G none)
  unfolding new_state
  new_state-profile profile run key =
      Spec-bind _ _ (Keeps-stamp rule) (λ t. Spec-pure _ (λ w h. (refl, h)))

  clean_done-At :
      {o : Option RecoveryState} (found : Option RecoveryState)
      → Spec
          (At env opts G o)
          (clean_done env opts found)
          (λ _. At env opts G none)
          (At env opts G none)
  unfolding clean_done skip
  clean_done-At none = Spec-pure tt At-none
  clean_done-At (some s) =
      Spec-if (is_done s.status) _ skip
        (λ _.
          Spec-weaken (λ w h. h) (λ _ w h. record { guarded = h.guarded; stored = tt }) (λ w h. h)
            (cleanup_locked-Gone rule s false))
        (λ _. Spec-pure tt At-none)

  module _ (may : AllowsStart env opts G) where
    start_locked-Started :
        (profile : String) (s : RecoveryState)
        → s.profile_id ≡ profile
        → Spec
            (At env opts G (some s))
            (start_locked env opts s)
            (Started env opts G profile)
            (At env opts G none)
    start_locked-Started profile s e =
        Spec-weaken (λ w h. h)
          (λ v w h. record { profile_is = h.0.0.profile ∙ e; status = h.0.1.status; at = h.1 })
          (λ w h. h) (start_locked-At rule may s)

    pub start_fresh-Started :
        {o : Option RecoveryState} (profile : String) (found : Option RecoveryState)
        → Spec
            (At env opts G o)
            (start_fresh env opts profile found)
            (Started env opts G profile)
            (At env opts G none)
    unfolding start_fresh
    start_fresh-Started profile found = Spec-bind _ _ (clean_done-At found) λ _.
        Spec-bind _ _ (Keeps-observe rule _ _ refl) λ run.
          Spec-bind _ _ (new_state-profile profile run _) λ fresh. Spec-fact λ e.
            Spec-bind _ _ (save-At rule fresh)
              λ _. Spec-bind _ _ (Keeps-crash_at rule _) (λ _. start_locked-Started profile fresh e)

    pub start_reconciled-Started :
        (profile : String) (found : Option RecoveryState)
        → Spec
            (Loaded env opts G profile found)
            (start_reconciled env opts profile found)
            (Started env opts G profile)
            (At env opts G none)
    unfolding start_reconciled
    start_reconciled-Started profile none = start_fresh-Started profile none
    start_reconciled-Started profile (some s) = Spec-fact λ e.
        Spec-if (is_running s.status) (pure s) _
          (λ r. Spec-pure s (λ w h. record { profile_is = e; status = ground arith; at = h }))
          λ _.
            Spec-if (is_upload_ambiguous s.status) (throw _) _ (λ _. Spec-throw _ At-none)
              λ _.
                Spec-if _ _ _ (λ _. start_locked-Started profile s e)
                  (λ _. start_fresh-Started profile (some s))

    module _ (ends : AllowsStop env opts G) where
      start_work-Started :
          (profile : String)
          → Spec
              (At env opts G none)
              (start_work env opts profile)
              (Started env opts G profile)
              (At env opts G none)
      unfolding start_work
      start_work-Started profile = Spec-bind _ _ (load-At rule profile) (λ found. found_then found)
        where
          found_then :
              (found : Option RecoveryState)
              → Spec
                  (Loaded env opts G profile found)
                  (start_found env opts profile found)
                  (Started env opts G profile)
                  (At env opts G none)
          found_then none = start_fresh-Started profile none
          found_then (some s) = Spec-fact λ e.
              Spec-if (is_done s.status) _ _ (λ _. start_fresh-Started profile (some s))
                λ _.
                  Spec-bind _ _
                    (Spec-weaken (λ w h. h) (Reconciled-none s) (λ w h. h)
                      (reconcile_locked-Reconciled rule ends s))
                    λ _.
                      Spec-bind _ _ (load-At rule profile)
                        (λ again. start_reconciled-Started profile again)

      -- A start that returns leaves the profile running.
      pub start-Started :
          (profile : String)
          → Spec
              (At env opts G none)
              (start env opts profile)
              (Started env opts G profile)
              (At env opts G none)
      unfolding start
      start-Started profile =
          with_transition-Spec env opts (At-logged rule)
            (λ v e w q h. record {
              profile_is = h.profile_is;
              status = h.status;
              at = At-logged rule e w q h.at;
            })
            (At-logged rule) (λ w h. h) profile _ (start_work-Started profile)
