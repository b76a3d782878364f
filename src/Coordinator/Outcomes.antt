-- ===== src/Coordinator/Outcomes.antt =====
-- What a run of the coordinator's methods leaves: in the recovery file, when the method returns,
-- and in the trace, however it ends.
pub mod Ambiguous
pub mod Resolve
use browserlogin_client.Prelude.{String, Bool, true, false, Option, none, some, ◌≡◌, refl}
use browserlogin_client.Json.{Json, obj, Fields}
use browserlogin_client.Recovery.{RecoveryState, running}
use browserlogin_client.Coordinator.World.{
  Session, Result, ok, err, Disk, Effect, Entry, start_session, direct_upload, stop_session,
  force_stop_session, launch_runner, Env, Options, World,
}
use browserlogin_client.Coordinator.Exec.{M}
use browserlogin_client.Coordinator.Spec.{Spec, End, Spec-returns}
use browserlogin_client.Coordinator.Store.{path_for}
use browserlogin_client.Coordinator.Guard.{is_guarded, Rule, IsRule, At, Ended, Stands, StoredAs}
use browserlogin_client.Coordinator.Guard.Rules.{
  Allows, NoRule, NoRule-IsRule, Since, Since-self, SinceRule, SinceRule-IsRule,
}
use browserlogin_client.Coordinator.Guard.Steps.{Ended-none}
use browserlogin_client.Coordinator.Fields.{reports_stopped}
use browserlogin_client.Coordinator.Stop.{persisted_commit, stop_locked}
use browserlogin_client.Coordinator.Stop.Safety.{AllowsStop}
use browserlogin_client.Coordinator.Reconcile.Safety.{AllowsForce}
use browserlogin_client.Coordinator.Stop.Resume.{resume-Ended}
use browserlogin_client.Coordinator.Start.{start_locked}
use browserlogin_client.Coordinator.Start.Safety.{AllowsStart, SameRun, IsRunning}
use browserlogin_client.Coordinator.Start.Safety.Spawn.{start_locked-At}
use browserlogin_client.Coordinator.Operations.{
  start, stop, force_stop_session as force_stop, rollback,
}
use browserlogin_client.Coordinator.Operations.Safety.{Started, start-Started}
use browserlogin_client.Coordinator.Operations.Stopping.{
  AllowsRollback, stop-Ended, force_stop-Ended, rollback-Ended,
}

-- The call sends archive bytes, or commits an archive.
abbrev pub sends_archive : Effect → Bool
sends_archive (direct_upload path session d) = true
sends_archive (stop_session session (some archive) key) = true
sends_archive _ = false

abbrev pub NoArchive : Allows
NoArchive e d = sends_archive e ≡ false

abbrev pub Unguarded : Allows
Unguarded e d = is_guarded e ≡ false

-- Of the guarded calls only this commit.
abbrev pub Resends : String → String → Fields → Allows
Resends session key payload (stop_session s a k) d =
    (s ≡ session) × (a ≡ some (obj payload)) × (k ≡ key)
Resends session key payload (start_session p k) d = ⊥
Resends session key payload (direct_upload p s b) d = ⊥
Resends session key payload (force_stop_session s k) d = ⊥
Resends session key payload (launch_runner spec binary url paths) d = ⊥
Resends session key payload _ d = Unit

pub NoArchive-free : (e : Effect) (d : Disk) → is_guarded e ≡ false → NoArchive e d
NoArchive-free (direct_upload path session b) d h = cc
NoArchive-free (stop_session session j key) d h = cc
NoArchive-free _ d h = refl

Resends-free :
    (session key : String) (payload : Fields) (e : Effect) (d : Disk)
    → is_guarded e ≡ false
    → Resends session key payload e d
Resends-free session key payload (start_session p k) d h = cc
Resends-free session key payload (launch_runner spec binary license paths) d h = cc
Resends-free session key payload (direct_upload path s b) d h = cc
Resends-free session key payload (stop_session s j k) d h = cc
Resends-free session key payload (force_stop_session s k) d h = cc
Resends-free session key payload _ d h = tt

module _ (env : Env) (opts : Options) where
  anywhere : (w : World) → At env opts NoRule none w
  anywhere w = record { guarded = tt; stored = tt }

  -- When `start` returns a state, that state is the profile's, is running, and is the one in the
  -- profile's recovery file.
  pub start-runs :
      (profile : String) (w w' : World) (v : RecoveryState)
      → start env opts profile w ≡ (ok v, w')
      → (v.profile_id ≡ profile) × (v.status ≡ running) × Stands env opts w'.disk v
  start-runs profile w w' v e =
      let h : Started env opts NoRule profile v w' =
        Spec-returns
          (start-Started (NoRule-IsRule env opts)
            (record { start = λ s d h. tt; launch = λ s d spec binary url paths h l. tt })
            (record { upload = λ s d p i b h u. tt; commit = λ s d i k f h c. tt }) profile)
          (anywhere w) e in
      (h.profile_is, h.status, h.at.stored)

  -- When `startLocked` goes on from the state in the recovery file and returns, the returned state
  -- is the one then in the file; it belongs to the same attempt (profile, run, start key and work
  -- directory are those of the state it went on from), and its browser is launched and running.
  pub start_locked-same_attempt :
      (s : RecoveryState) (w w' : World) (v : RecoveryState)
      → Stands env opts w.disk s
      → start_locked env opts s w ≡ (ok v, w')
      → SameRun s v × IsRunning v × Stands env opts w'.disk v
  start_locked-same_attempt s w w' v stored e =
      let h =
        Spec-returns
          (start_locked-At (NoRule-IsRule env opts)
            (record { start = λ s d h. tt; launch = λ s d spec binary url paths h l. tt }) s)
          (record { guarded = tt; stored = stored }) e in
      (h.0.0, h.0.1, h.1.stored)

  ended :
      (profile : String) (m : M Session) (w w' : World) (r : Session)
      → Spec (At env opts NoRule none) m (Ended env opts NoRule profile) (At env opts NoRule none)
      → m w ≡ (ok r, w')
      → (r.profile_id ≡ profile)
        × (reports_stopped r ≡ true)
        × (w'.disk (path_for env opts profile) ≡ none)
  ended profile m w w' r spec e =
      let h = Spec-returns spec (anywhere w) e in (h.owner, h.reported, h.gone.absent)

  -- When `stop` returns a session, that session is the profile's, the service calls it stopped, and
  -- the profile has no recovery file any more.
  pub stop-ends :
      (profile : String) (w w' : World) (r : Session)
      → stop env opts profile w ≡ (ok r, w')
      → (r.profile_id ≡ profile)
        × (reports_stopped r ≡ true)
        × (w'.disk (path_for env opts profile) ≡ none)
  stop-ends profile w w' r = ended profile _ w w' r (
      stop-Ended (NoRule-IsRule env opts)
        (record { upload = λ s d p i b h u. tt; commit = λ s d i k f h c. tt }) profile)

  -- When `forceStop` returns a session, that session is the profile's, the service calls it stopped,
  -- and the profile has no recovery file any more.
  pub force_stop-ends :
      (profile : String) (w w' : World) (r : Session)
      → force_stop env opts profile w ≡ (ok r, w')
      → (r.profile_id ≡ profile)
        × (reports_stopped r ≡ true)
        × (w'.disk (path_for env opts profile) ≡ none)
  force_stop-ends profile w w' r =
      ended profile _ w w' r
        (force_stop-Ended (NoRule-IsRule env opts) (record { force = λ s d h f. tt }) profile)

  -- When `rollbackStart` returns a session, that session is the profile's, the service calls it
  -- stopped, and the profile has no recovery file any more.
  pub rollback-ends :
      (profile : String) (w w' : World) (r : Session)
      → rollback env opts profile w ≡ (ok r, w')
      → (r.profile_id ≡ profile)
        × (reports_stopped r ≡ true)
        × (w'.disk (path_for env opts profile) ≡ none)
  rollback-ends profile w w' r =
      ended profile _ w w' r
        (rollback-Ended (NoRule-IsRule env opts) (record { back = λ s d i h b f. tt }) profile)

  -- A run from a world that the precondition accepts has added only allowed calls.
  pub since :
      {A : Type 0} {P : World → Type 0} {Q : A → World → Type 0} {m : M A} (allows : Allows)
      (w : World)
      → P w
      → Spec P m Q (At env opts (SinceRule allows w) none)
      → ((a : A) (v : World) → Q a v → At env opts (SinceRule allows w) none v)
      → Since allows w.trace (m w).1.trace
  since {A} {P} {Q} {m} allows w p spec out = by_end (m w).0 (m w).1 (spec.at w p)
    where
      by_end :
          (r : Result A) (v : World)
          → End Q (At env opts (SinceRule allows w) none) r v
          → Since allows w.trace v.trace
      by_end (ok a) v h = (out a v h).guarded
      by_end (err f) v h = h.guarded

  -- No call is made yet.
  pub unmoved :
      (allows : Allows) (o : Option RecoveryState) (w : World)
      → StoredAs env opts w.disk o
      → At env opts (SinceRule allows w) o w
  unmoved allows o w stored = record { guarded = Since-self allows w.trace; stored = stored }

  -- Whatever the outside answers, a forced stop uploads no archive bytes and commits no archive:
  -- none of the calls that it adds to the trace is one of those.
  pub force_stop-sends_no_archive :
      (profile : String) (w : World)
      → Since NoArchive w.trace (force_stop env opts profile w).1.trace
  force_stop-sends_no_archive profile w =
      since NoArchive w (unmoved NoArchive none w tt)
        (force_stop-Ended (SinceRule-IsRule env opts NoArchive w NoArchive-free)
          (record { force = λ s d h f. refl }) profile)
        Ended-none

  -- Whatever the outside answers, the rollback of a start uploads no archive bytes and commits no
  -- archive: none of the calls that it adds to the trace is one of those.
  pub rollback-sends_no_archive :
      (profile : String) (w : World) → Since NoArchive w.trace (rollback env opts profile w).1.trace
  rollback-sends_no_archive profile w =
      since NoArchive w (unmoved NoArchive none w tt)
        (rollback-Ended (SinceRule-IsRule env opts NoArchive w NoArchive-free)
          (record { back = λ s d i h b f. refl }) profile)
        Ended-none

  -- When the recovery file holds a state in upload-pending with a complete commit, `stopLocked`
  -- uploads, starts, launches and forces nothing, and every stop that it sends has the session, the
  -- idempotency key and the archive payload that the file has.
  pub stop_locked-resends :
      (s : RecoveryState) (session key : String) (payload : Fields) (w : World)
      → Stands env opts w.disk s
      → s.remote_session_id ≡ some session
      → persisted_commit s ≡ some (key, payload)
      → Since (Resends session key payload) w.trace (stop_locked env opts s w).1.trace
  stop_locked-resends s session key payload w stored e f =
      since (Resends session key payload) w
        (unmoved (Resends session key payload) (some s) w stored)
        (resume-Ended
          (SinceRule-IsRule env opts (Resends session key payload) w
            (Resends-free session key payload))
          s session key payload e f (λ d h. (refl, refl, refl)))
        Ended-none
