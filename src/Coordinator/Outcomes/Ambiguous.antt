-- ===== src/Coordinator/Outcomes/Ambiguous.antt =====
-- A profile whose upload is ambiguous, under every method and callback of the coordinator.
use browserlogin_client.Prelude.{String, none, some, ◌≡◌, refl}
use browserlogin_client.Recovery.{RecoveryState, upload_ambiguous}
use browserlogin_client.Coordinator.World.{current, Env, Options, World}
use browserlogin_client.Coordinator.Exec.{M}
use browserlogin_client.Coordinator.Spec.{Spec}
use browserlogin_client.Coordinator.Store.{path_for}
use browserlogin_client.Coordinator.Guard.{At, IsRule, Rule}
use browserlogin_client.Coordinator.Guard.Steps.{Ended-none}
use browserlogin_client.Coordinator.Guard.Rules.{Since, SinceRule, SinceRule-IsRule}
use browserlogin_client.Coordinator.Outcomes.{NoArchive, NoArchive-free, since, unmoved}
use browserlogin_client.Coordinator.Operations.Ambiguous.{Filed, stop-quiet, start-quiet}
use browserlogin_client.Coordinator.Recover.Ambiguous.{
  recover-quiet, on_closed-quiet, on_normal_stop-quiet,
}
use browserlogin_client.Coordinator.Operations.Stopping.{force_stop-Ended, rollback-Ended}
use browserlogin_client.Coordinator.Recover.Safety.{resolve_upload-Keeps}
use browserlogin_client.Coordinator.WriteAhead.Histories.{
  Call, starts, stops, forces, rolls_back, recovers, normally_stops, resolves, closes, step,
}

-- The profile that a call is about.
abbrev pub subject : Call → String
subject (starts profile) = profile
subject (stops profile) = profile
subject (forces profile) = profile
subject (rolls_back profile) = profile
subject (recovers profile) = profile
subject (normally_stops profile) = profile
subject (resolves profile storage) = profile
subject (closes e profile id pid) = profile

-- While the profile's recovery file holds a state in upload-ambiguous, no method or callback that
-- is called for the profile sends the archive again: however it ends, none of the calls that it
-- adds to the trace uploads archive bytes or stops the session with an archive.
pub ambiguous-never_resent :
    (env : Env) (opts : Options) (c : Call) (s : RecoveryState) (w : World)
    → w.disk (path_for env opts (subject c)) ≡ some (current s)
    → s.status ≡ upload_ambiguous
    → Since NoArchive w.trace (step env opts c w).trace
unfolding step
ambiguous-never_resent env opts c s w filed a = by_call c filed
  where
    G : Rule
    G = SinceRule NoArchive w

    rule : IsRule env opts G
    rule = SinceRule-IsRule env opts NoArchive w NoArchive-free

    here : At env opts G none w
    here = unmoved env opts NoArchive none w tt

    quiet :
        {A : Type 0} {m : M A} (profile : String)
        → w.disk (path_for env opts profile) ≡ some (current s)
        → Spec (Filed env opts G profile s) m (λ _. At env opts G none) (At env opts G none)
        → Since NoArchive w.trace (m w).1.trace
    quiet profile f spec = since env opts NoArchive w (here, f) spec (λ a v h. h)

    by_call :
        (c : Call)
        → w.disk (path_for env opts (subject c)) ≡ some (current s)
        → Since NoArchive w.trace (step env opts c w).trace
    by_call (starts profile) f = quiet profile f (
        start-quiet rule profile s a
          (record { start = λ s d h. refl; launch = λ s d spec binary url paths h l. refl }))
    by_call (stops profile) f = quiet profile f (stop-quiet rule profile s a)
    by_call (forces profile) f =
        since env opts NoArchive w here
          (force_stop-Ended rule (record { force = λ s d h i. refl }) profile) Ended-none
    by_call (rolls_back profile) f =
        since env opts NoArchive w here
          (rollback-Ended rule (record { back = λ s d i h b k. refl }) profile) Ended-none
    by_call (recovers profile) f = quiet profile f (recover-quiet rule profile s a)
    by_call (normally_stops profile) f = quiet profile f (on_normal_stop-quiet rule profile s a)
    by_call (resolves profile storage) f =
        since env opts NoArchive w here (resolve_upload-Keeps rule profile storage) (λ u v h. h)
    by_call (closes e profile id pid) f =
        quiet profile f (on_closed-quiet rule profile s a e id pid)
