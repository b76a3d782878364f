-- ===== src/Coordinator/Guard.antt =====
-- The coordinator's safety is stated call by call: a rule says of each call what the recovery files
-- must hold when it is made. This file has the rule's general shape and the assertions about the
-- files that the proofs carry along.
pub mod Steps
pub mod Rules
use browserlogin_client.Prelude.{String, Bool, true, false, Option, none, some, ◌≡◌, All, List}
use browserlogin_client.Recovery.{RecoveryState}
use browserlogin_client.Recovery.Legacy.{migrate}
use browserlogin_client.Recovery.Validate.{validate}
use browserlogin_client.Coordinator.World.{
  Session, Stored, current, legacy, other, Disk, Effect, start_session, direct_upload, stop_session,
  force_stop_session, launch_runner, Entry, Env, Options, World,
}
use browserlogin_client.Coordinator.Exec.{M, logged}
use browserlogin_client.Coordinator.Spec.{Spec}
use browserlogin_client.Coordinator.Store.{path_for, put}
use browserlogin_client.Coordinator.Fields.{reports_stopped}

-- The calls that change what the service or the machine runs: the session, the upload, the runner.
abbrev pub is_guarded : Effect → Bool
is_guarded (start_session profile key) = true
is_guarded (direct_upload path session d) = true
is_guarded (stop_session session archive key) = true
is_guarded (force_stop_session session key) = true
is_guarded (launch_runner spec binary license paths) = true
is_guarded _ = false

-- What a guarded call may do where, and an invariant of the world.
pub record Rule : Type 1 where
  pub allows : Effect → Disk → Type 0
  pub Holds : World → Type 0

-- The rule asks nothing of the other calls, and its invariant survives each thing that happens to
-- the world: an allowed call, a change of the maps, a valid state saved, a file removed.
pub record IsRule (env : Env) (opts : Options) (G : Rule) : Type 0 where
  pub unguarded : (e : Effect) (d : Disk) → is_guarded e ≡ false → G.allows e d
  pub after : (e : Effect) (w : World) → G.allows e w.disk → G.Holds w → G.Holds (logged w e)
  pub framed : (w v : World) → v.disk ≡ w.disk → v.trace ≡ w.trace → G.Holds w → G.Holds v
  pub saved :
      (s : RecoveryState) (w : World)
      → validate s ≡ none
      → G.Holds w
      → G.Holds (record w { disk = put w.disk (path_for env opts s.profile_id) (some (current s)) })
  pub removed :
      (profile : String) (w : World)
      → G.Holds w
      → G.Holds (record w { disk = put w.disk (path_for env opts profile) none })

-- A file's content stands for the state.
abbrev pub Reads : Env → Options → Option Stored → RecoveryState → Type 0
Reads env opts none s = ⊥
Reads env opts (some (current t)) s = t ≡ s
Reads env opts (some (legacy l)) s = (now : String) × (migrate env.join opts.root now l ≡ some s)
Reads env opts (some other) s = ⊥

module _ (env : Env) (opts : Options) where
  -- The state is the one in its profile's recovery file.
  abbrev pub Stands : Disk → RecoveryState → Type 0
  Stands d s = Reads env opts (d (path_for env opts s.profile_id)) s

  abbrev pub StoredAs : Disk → Option RecoveryState → Type 0
  StoredAs d none = Unit
  StoredAs d (some s) = Stands d s

-- The invariant holds, and the recovery file has the given state, if one is given.
pub record At (env : Env) (opts : Options) (G : Rule) (o : Option RecoveryState) (w : World)
    : Type 0 where
  pub guarded : G.Holds w
  pub stored : StoredAs env opts w.disk o

-- The invariant holds, and the profile has no recovery file.
pub record Gone (env : Env) (opts : Options) (G : Rule) (profile : String) (w : World)
    : Type 0 where
  pub guarded : G.Holds w
  pub absent : w.disk (path_for env opts profile) ≡ none

-- The method returned this session: the service calls it stopped and this profile's, and the
-- profile has no recovery file.
pub record Ended (env : Env) (opts : Options) (G : Rule) (profile : String) (r : Session)
    (w : World) : Type 0 where
  pub owner : r.profile_id ≡ profile
  pub reported : reports_stopped r ≡ true
  pub gone : Gone env opts G profile w

-- The method leaves the state of the file as it is.
abbrev pub Keeps : Env → Options → Rule → {A : Type 0} → Option RecoveryState → M A → Type 0
Keeps env opts G o m = Spec (At env opts G o) m (λ _. At env opts G o) (At env opts G none)
