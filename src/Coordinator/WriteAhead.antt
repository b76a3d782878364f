-- ===== src/Coordinator/WriteAhead.antt =====
-- The write-ahead rule of the coordinator: what its recovery file holds when it starts a session,
-- launches a runner, uploads an archive, commits a stop or forces one.
pub mod Histories
use browserlogin_client.Prelude.{
  ℕ, String, Bool, true, false, Option, none, some, List, [], ◌∷◌, ◌≡◌, refl, or_else,
}
use browserlogin_client.Json.{Json, obj, Fields}
use browserlogin_client.Recovery.{RecoveryState, force_stop}
use browserlogin_client.Coordinator.World.{
  Disk, Effect, start_session, direct_upload, stop_session, force_stop_session, launch_runner,
  rollback_start, Env, Options, World,
}
use browserlogin_client.Coordinator.Store.{immutable_key}
use browserlogin_client.Coordinator.Guard.{Rule, IsRule, Stands, is_guarded}
use browserlogin_client.Coordinator.Guard.Rules.{Allows, ConsistentRule, ConsistentRule-IsRule}
use browserlogin_client.Coordinator.Start.Safety.{AllowsStart, Launches}
use browserlogin_client.Coordinator.Stop.Safety.{AllowsStop, Uploads, Commits}
use browserlogin_client.Coordinator.Reconcile.Safety.{AllowsForce}
use browserlogin_client.Coordinator.Operations.{
  rolls_back, start, stop, force_stop_session as force_stop_profile, rollback,
}
use browserlogin_client.Coordinator.Recover.{recover, resolve_upload, on_closed, on_normal_stop}
use browserlogin_client.Coordinator.Operations.Stopping.{AllowsRollback}

-- A state that its profile's recovery file holds at the call, and that fits the call:
-- a session starts under the key that is kept; a runner is launched for a state in spawn-intent,
-- with the archive restored and no other runner recorded; bytes are uploaded in upload-ambiguous,
-- and are those of the recorded archive; a commit carries the key and the payload of a state in
-- upload-pending, and a stop without archive rolls back a start that is not ready; a forced stop
-- carries the key of a state in force-stop.
abbrev pub Allowed : Env → Options → Allows
Allowed env opts (start_session profile key) d =
    (s : RecoveryState) × Stands env opts d s × (s.profile_id ≡ profile) × (s.start_key ≡ key)
Allowed env opts (launch_runner spec binary license paths) d =
    (s : RecoveryState) × Stands env opts d s × Launches s spec paths
Allowed env opts (direct_upload path session b) d =
    (s : RecoveryState) × Stands env opts d s × Uploads s path session b
Allowed env opts (stop_session session (some j) key) d =
    (s : RecoveryState) × (payload : Fields) × (j ≡ obj payload)
    × Stands env opts d s
    × Commits s session key payload
Allowed env opts (stop_session session none key) d =
    (s : RecoveryState) × Stands env opts d s
    × (rolls_back s.status ≡ true)
    × (s.remote_session_id ≡ some session)
    × (key ≡ immutable_key env opts "stop" s.run_id rollback_start)
Allowed env opts (force_stop_session session key) d =
    (s : RecoveryState) × Stands env opts d s
    × (s.status ≡ force_stop)
    × (session ≡ or_else s.remote_session_id "")
    × (key ≡ or_else s.stop_key "")
Allowed env opts _ d = Unit

module _ (env : Env) (opts : Options) where
  -- The coordinator's invariant: each call was so allowed, and each recovery file is well kept.
  abbrev pub WriteAhead : Rule
  WriteAhead = ConsistentRule env opts (Allowed env opts)

  pub WriteAhead-IsRule : IsRule env opts WriteAhead
  WriteAhead-IsRule = ConsistentRule-IsRule env opts (Allowed env opts) free
    where
      free : (e : Effect) (d : Disk) → is_guarded e ≡ false → Allowed env opts e d
      free (start_session profile key) d h = cc
      free (launch_runner spec binary license paths) d h = cc
      free (direct_upload path session b) d h = cc
      free (stop_session session j key) d h = cc
      free (force_stop_session session key) d h = cc
      free _ d h = tt

  pub WriteAhead-AllowsStart : AllowsStart env opts WriteAhead
  WriteAhead-AllowsStart = record {
    start = λ s d h. (s, h, refl, refl);
    launch = λ s d spec binary url paths h l. (s, h, l);
  }

  pub WriteAhead-AllowsStop : AllowsStop env opts WriteAhead
  WriteAhead-AllowsStop = record {
    upload = λ s d path session b h u. (s, h, u);
    commit = λ s d session key payload h c. (s, payload, refl, h, c);
  }

  pub WriteAhead-AllowsForce : AllowsForce env opts WriteAhead
  WriteAhead-AllowsForce = record { force = λ s d h e. (s, h, e, refl, refl) }

  pub WriteAhead-AllowsRollback : AllowsRollback env opts WriteAhead
  WriteAhead-AllowsRollback = record { back = λ s d session h r e. (s, h, r, e, refl) }
