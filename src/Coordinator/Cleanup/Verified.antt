-- ===== src/Coordinator/Cleanup/Verified.antt =====
-- The calls of `stopRunner`: its stops and kills, and the reads and assertions before them.
use browserlogin_client.Prelude.{false, Option, none, some, [], ◌∷◌, ◌≡◌, refl, ◌⊎◌, inl}
use browserlogin_client.Recovery.{RecoveryState}
use browserlogin_client.Coordinator.World.{
  ProcessIdentity, RunnerHandle, Result, ok, err, Effect, read_identity, assert_identity, kill_tree,
  stop_handle, Trace, Env, Options, World,
}
use browserlogin_client.Coordinator.Exec.{logged, call, skip}
use browserlogin_client.Coordinator.Spec.{
  End, Spec, Spec-pure, Spec-bind, Spec-if, Spec-call, Spec-gets, Spec-modify, Spec-throw_if,
  Spec-fact, Spec-call_reply,
}
use browserlogin_client.Coordinator.Cleanup.{
  drop_handle, stop_live, kill_persisted, stop_identity, stop_unhandled, stop_by_handle,
  forget_closed, stop_running, stop_runner,
}
use browserlogin_client.Coordinator.Fields.{differs, persisted_identity}

-- The last call read, or asserted, this identity.
abbrev pub IsRead : ProcessIdentity → Trace → Type 0
IsRead id [] = ⊥
IsRead id (x ∷ t) = x.effect ≡ read_identity id

abbrev pub IsAsserted : ProcessIdentity → Trace → Type 0
IsAsserted id [] = ⊥
IsAsserted id (x ∷ t) = x.effect ≡ assert_identity id

-- The last call read the identity, and the live process had the recorded start time and command
-- line; or it asserted the identity, with success.
abbrev pub Seen : Env → ProcessIdentity → Trace → Type 0
Seen env id t =
    (actual : ProcessIdentity) × IsRead id t
    × (env.read_identity t ≡ ok (some actual))
    × (differs id actual ≡ false)

abbrev pub Asserted : Env → ProcessIdentity → Trace → Type 0
Asserted env id t = IsAsserted id t × (env.assert_identity t ≡ ok tt)

abbrev pub Checked : Env → Effect → Trace → Type 0
Checked env (kill_tree id) t = Seen env id t ⊎ Asserted env id t
Checked env (stop_handle id) t = Seen env id t ⊎ Asserted env id t
Checked env _ t = Unit

-- Each kill and each stop of a handle came directly after such a check of the same process.
abbrev pub Verified : Env → Trace → Type 0
Verified env [] = Unit
Verified env (x ∷ t) = Checked env x.effect t × Verified env t

abbrev pub Safe : Env → World → Type 0
Safe env w = Verified env w.trace

-- What a read of the identity answered.
abbrev JustRead : Env → ProcessIdentity → Option ProcessIdentity → World → Type 0
JustRead env id none w = Safe env w
JustRead env id (some actual) w =
    (IsRead id w.trace × (env.read_identity w.trace ≡ ok (some actual))) × Safe env w

module _ (env : Env) (opts : Options) where
  read_then :
      (id : ProcessIdentity)
      → Spec (Safe env) (call (read_identity id) env.read_identity) (JustRead env id) (Safe env)
  read_then id = Spec-call_reply _ _ (λ w h actual e. read w h actual e) (λ w h. (tt, h))
    where
      read :
          (w : World)
          → Safe env w
          → (actual : Option ProcessIdentity)
          → env.read_identity (logged w (read_identity id)).trace ≡ ok actual
          → JustRead env id actual (logged w (read_identity id))
      read w h none e = (tt, h)
      read w h (some actual) e = ((refl, e), (tt, h))

  skip-Safe : Spec (Safe env) skip (λ _. Safe env) (Safe env)
  unfolding skip
  skip-Safe = Spec-pure tt (λ w h. h)

  kill_persisted-Safe :
      (id : ProcessIdentity) (actual : Option ProcessIdentity)
      → Spec (JustRead env id actual) (kill_persisted env opts id actual) (λ _. Safe env) (Safe env)
  unfolding kill_persisted
  kill_persisted-Safe id none = skip-Safe
  kill_persisted-Safe id (some actual) = Spec-bind _ _ (Spec-throw_if _ _ (λ w h. h.1)) λ _.
      Spec-fact λ same.
        Spec-call _ _ (λ w h a. (inl (actual, h.0.0, h.0.1, same), h.1))
          (λ w h. (inl (actual, h.0.0, h.0.1, same), h.1))

  stop_unhandled-Safe :
      (s : RecoveryState) → Spec (Safe env) (stop_unhandled env opts s) (λ _. Safe env) (Safe env)
  unfolding stop_unhandled stop_identity
  stop_unhandled-Safe s =
      Spec-if opts.has_stop_runner _ _ (λ _. Spec-call _ _ (λ w h a. (tt, h)) (λ w h. (tt, h)))
        (λ _. by_identity (persisted_identity s))
    where
      by_identity :
          (id : Option ProcessIdentity)
          → Spec (Safe env) (stop_identity env opts id) (λ _. Safe env) (Safe env)
      by_identity none = skip-Safe
      by_identity (some id) = Spec-bind _ _ (read_then id) (λ actual. kill_persisted-Safe id actual)

  stop_live-Safe :
      (h : RunnerHandle) (actual : Option ProcessIdentity)
      → Spec
          (JustRead env h.identity actual)
          (stop_live env opts h actual)
          (λ _. Safe env)
          (Safe env)
  unfolding stop_live
  stop_live-Safe h none = skip-Safe
  stop_live-Safe h (some actual) = Spec-bind _ _ (Spec-throw_if _ _ (λ w k. k.1)) λ _.
      Spec-fact λ same.
        Spec-call _ _ (λ w k a. (inl (actual, k.0.0, k.0.1, same), k.1))
          (λ w k. (inl (actual, k.0.0, k.0.1, same), k.1))

  stop_by_handle-Safe :
      (s : RecoveryState) (h : Option RunnerHandle)
      → Spec (Safe env) (stop_by_handle env opts s h) (λ _. Safe env) (Safe env)
  unfolding stop_by_handle drop_handle
  stop_by_handle-Safe s none = stop_unhandled-Safe s
  stop_by_handle-Safe s (some h) =
      Spec-bind _ _ (read_then h.identity)
        λ actual. Spec-bind _ _ (stop_live-Safe h actual) (λ _. Spec-modify _ (λ w k. k))

  stop_runner-Safe :
      (s : RecoveryState) → Spec (Safe env) (stop_runner env opts s) (λ _. Safe env) (Safe env)
  unfolding stop_runner stop_running forget_closed
  stop_runner-Safe s = Spec-bind {R = λ _. Safe env} _ _ (Spec-gets _ (λ w h. h)) λ closed.
      Spec-if closed _ _ (λ _. Spec-modify _ (λ w h. h))
        λ _.
          Spec-bind {R = λ _. Safe env} _ _ (Spec-gets _ (λ w h. h))
            λ handle. stop_by_handle-Safe s handle

  -- `stopRunner` kills or stops no process that it has not just verified: if every kill and every
  -- stop of a handle so far came directly after a read of the same process whose answer had the
  -- recorded start time and command line (or after its asserted identity), so does each that it adds,
  -- whether it returns or throws.
  pub stop_runner-Verified :
      (s : RecoveryState) (w : World)
      → Verified env w.trace
      → Verified env (stop_runner env opts s w).1.trace
  stop_runner-Verified s w h = by_end (stop_runner env opts s w).0 _ ((stop_runner-Safe s).at w h)
    where
      by_end :
          (r : Result (Unit {0})) (v : World)
          → End (λ _. Safe env) (Safe env) r v
          → Verified env v.trace
      by_end (ok u) v k = k
      by_end (err f) v k = k
