-- ===== src/Coordinator/WriteAhead/Histories.antt =====
-- Histories: any sequence of the coordinator's public methods and callbacks, each run to its end.
use browserlogin_client.Prelude.{ℕ, String, Option, List, [], ◌∷◌, none}
use browserlogin_client.Coordinator.World.{Session, Failure, Env, Options, Result, ok, err, World}
use browserlogin_client.Coordinator.Exec.{M}
use browserlogin_client.Coordinator.Spec.{Spec, End, Spec-weaken}
use browserlogin_client.Coordinator.Guard.{At, Rule, Keeps}
use browserlogin_client.Coordinator.Guard.Steps.{Ended-none, At-none}
use browserlogin_client.Coordinator.Guard.Rules.{Consistent}
use browserlogin_client.Coordinator.Operations.{start, stop, force_stop_session, rollback}
use browserlogin_client.Coordinator.Recover.{recover, resolve_upload, on_closed, on_normal_stop}
use browserlogin_client.Coordinator.Operations.Safety.{Started, start-Started}
use browserlogin_client.Coordinator.Operations.Stopping.{
  stop-Ended, force_stop-Ended, rollback-Ended,
}
use browserlogin_client.Coordinator.Recover.Safety.{
  recover-Keeps, resolve_upload-Keeps, on_closed-Keeps, on_normal_stop-Keeps,
}
use browserlogin_client.Coordinator.Guard.{IsRule, Ended}
use browserlogin_client.Coordinator.Start.Safety.{AllowsStart}
use browserlogin_client.Coordinator.Stop.Safety.{AllowsStop}
use browserlogin_client.Coordinator.Reconcile.Safety.{AllowsForce}
use browserlogin_client.Coordinator.WriteAhead.{
  Allowed, WriteAhead, WriteAhead-IsRule, WriteAhead-AllowsStart, WriteAhead-AllowsStop,
  WriteAhead-AllowsForce, WriteAhead-AllowsRollback,
}

pub data Call : Type 0 where
  starts stops forces rolls_back recovers normally_stops : String → Call
  resolves : (profile storage : String) → Call
  closes : Option Failure → (profile run : String) → ℕ → Call

module _ (env : Env) (opts : Options) where
  unfoldable pub step : Call → World → World
  step (starts profile) w = (start env opts profile w).1
  step (stops profile) w = (stop env opts profile w).1
  step (forces profile) w = (force_stop_session env opts profile w).1
  step (rolls_back profile) w = (rollback env opts profile w).1
  step (recovers profile) w = (recover env opts profile w).1
  step (normally_stops profile) w = (on_normal_stop env opts profile w).1
  step (resolves profile storage) w = (resolve_upload env opts profile storage w).1
  step (closes e profile id pid) w = (on_closed env opts e profile id pid w).1

  unfoldable pub run : List Call → World → World
  run [] w = w
  run (c ∷ cs) w = run cs (step c w)

module _ (env : Env) (opts : Options) (G : Rule) where
  -- Whether a method returns or throws, it kept the rule.
  End-guarded :
      {A : Type 0} (r : Result A) (w : World)
      → End (λ _. At env opts G none) (At env opts G none) r w
      → G.Holds w
  End-guarded (ok a) w h = h.guarded
  End-guarded (err f) w h = h.guarded

  Keeps-guarded :
      {A : Type 0} (m : M A) (w : World) → Keeps env opts G none m → G.Holds w → G.Holds (m w).1
  Keeps-guarded m w h g = End-guarded (m w).0 (m w).1 (h.at w (record { guarded = g; stored = tt }))

  module _ (rule : IsRule env opts G) where
    Started-Keeps :
        AllowsStart env opts G
        → AllowsStop env opts G
        → (profile : String) → Keeps env opts G none (start env opts profile)
    Started-Keeps may ends profile =
        Spec-weaken (λ w h. h) (λ v w (h : Started env opts G profile v w). At-none w h.at)
          (λ w h. h) (start-Started rule may ends profile)

    Ended-Keeps :
        (profile : String) (m : M Session)
        → Spec (At env opts G none) m (Ended env opts G profile) (At env opts G none)
        → Keeps env opts G none m
    Ended-Keeps profile m h = Spec-weaken (λ w k. k) Ended-none (λ w k. k) h

module _ (env : Env) (opts : Options) where
  step-Consistent :
      (c : Call) (w : World)
      → Consistent env opts (Allowed env opts) w
      → Consistent env opts (Allowed env opts) (step env opts c w)
  unfolding step
  step-Consistent c w g = by_call c
    where
      G : Rule
      G = WriteAhead env opts

      rule : IsRule env opts G
      rule = WriteAhead-IsRule env opts

      starts_ok : AllowsStart env opts G
      starts_ok = WriteAhead-AllowsStart env opts

      stops_ok : AllowsStop env opts G
      stops_ok = WriteAhead-AllowsStop env opts

      forces_ok : AllowsForce env opts G
      forces_ok = WriteAhead-AllowsForce env opts

      by_call : (c : Call) → G.Holds (step env opts c w)
      by_call (starts profile) =
          Keeps-guarded env opts G _ w (Started-Keeps env opts G rule starts_ok stops_ok profile) g
      by_call (stops profile) =
          Keeps-guarded env opts G _ w
            (Ended-Keeps env opts G rule profile _ (stop-Ended rule stops_ok profile)) g
      by_call (forces profile) =
          Keeps-guarded env opts G _ w
            (Ended-Keeps env opts G rule profile _ (force_stop-Ended rule forces_ok profile)) g
      by_call (rolls_back profile) =
          Keeps-guarded env opts G _ w
            (Ended-Keeps env opts G rule profile _
              (rollback-Ended rule (WriteAhead-AllowsRollback env opts) profile))
            g
      by_call (recovers profile) =
          Keeps-guarded env opts G _ w (recover-Keeps rule stops_ok starts_ok forces_ok profile) g
      by_call (normally_stops profile) =
          Keeps-guarded env opts G _ w (on_normal_stop-Keeps rule stops_ok profile) g
      by_call (resolves profile storage) =
          Keeps-guarded env opts G _ w (resolve_upload-Keeps rule profile storage) g
      by_call (closes e profile id pid) =
          Keeps-guarded env opts G _ w (on_closed-Keeps rule stops_ok e profile id pid) g

  -- The coordinator's invariant survives every history. Suppose each call so far was one that
  -- `Allowed` accepts with the recovery files as they stood when it was made, and each recovery file
  -- that holds a state holds a valid one under its profile's name. Then both are so after any
  -- sequence of the coordinator's methods and callbacks, each run to its end, whatever the outside
  -- answers and whichever of the calls fail.
  pub run-Consistent :
      (calls : List Call) (w : World)
      → Consistent env opts (Allowed env opts) w
      → Consistent env opts (Allowed env opts) (run env opts calls w)
  unfolding run
  run-Consistent [] w g = g
  run-Consistent (c ∷ cs) w g = run-Consistent cs (step env opts c w) (step-Consistent c w g)
