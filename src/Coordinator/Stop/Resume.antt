-- ===== src/Coordinator/Stop/Resume.antt =====
-- A stop that finds its commit persisted: `stopLocked` sends it again and does nothing else.
use browserlogin_client.Prelude.{str_eq, String, Option, none, some, ◌≡◌}
use browserlogin_client.Json.{obj, Fields}
use browserlogin_client.Recovery.{RecoveryState}
use browserlogin_client.Coordinator.World.{Disk, stop_session, Env, Options}
use browserlogin_client.Coordinator.Spec.{Spec, Spec-bind, Spec-if, Spec-throw}
use browserlogin_client.Coordinator.Guard.{Rule, IsRule, At, Ended, Stands}
use browserlogin_client.Coordinator.Guard.Steps.{At-none, Keeps-throw_if}
use browserlogin_client.Coordinator.Stop.{
  persisted_commit, stop_or_resume, stop_confirmed, stop_session_of, stop_locked,
}
use browserlogin_client.Coordinator.Stop.Safety.{commit_persisted-Ended}

module _ {env : Env} {opts : Options} {G : Rule} (rule : IsRule env opts G) where
  pub resume-Ended :
      (s : RecoveryState) (session key : String) (payload : Fields)
      → s.remote_session_id ≡ some session
      → persisted_commit s ≡ some (key, payload)
      → ((d : Disk)
          → Stands env opts d s
          → G.allows (stop_session session (some (obj payload)) key) d)
      → Spec
          (At env opts G (some s))
          (stop_locked env opts s)
          (Ended env opts G s.profile_id)
          (At env opts G none)
  unfolding stop_locked stop_session_of stop_confirmed stop_or_resume
  resume-Ended s session key payload e f allowed = by_session s.remote_session_id e
    where
      resumed :
          (c : Option (String × Fields))
          → c ≡ some (key, payload)
          → Spec
              (At env opts G (some s))
              (stop_or_resume env opts s session c)
              (Ended env opts G s.profile_id)
              (At env opts G none)
      resumed c k = rw k (commit_persisted-Ended rule s session key payload allowed)

      by_session :
          (r : Option String)
          → r ≡ some session
          → Spec
              (At env opts G (some s))
              (stop_session_of env opts s r)
              (Ended env opts G s.profile_id)
              (At env opts G none)
      by_session r k = rw k (
          Spec-if (str_eq session "") _ _ (λ _. Spec-throw _ At-none)
            λ _.
              Spec-bind _ _ (Keeps-throw_if _ _)
                λ _. Spec-bind _ _ (Keeps-throw_if _ _) (λ _. resumed (persisted_commit s) f))
