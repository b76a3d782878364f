-- ===== src/Coordinator/Start/Verified.antt =====
-- The part of `startLocked` that kills the runner which an earlier attempt left recorded, call by call.
use browserlogin_client.Prelude.{ℕ, Option, none, some, ◌∷◌, ◌≡◌, refl}
use browserlogin_client.Recovery.{RecoveryState}
use browserlogin_client.Coordinator.World.{
  ProcessIdentity, Failure, Result, ok, err, Effect, kill_tree, stop_handle, Entry, Trace, Env,
  Options, World,
}
use browserlogin_client.Coordinator.Spec.{
  End, Spec, Spec-pure, Spec-bind, Spec-call, Spec-modify, Spec-throw_if, Spec-call_reply, Spec-try,
  Spec-weaken,
}
use browserlogin_client.Coordinator.Store.Quiet.{save-Quiet}
use browserlogin_client.Coordinator.Fields.{clear_identity}
use browserlogin_client.Coordinator.Cleanup.Verified.{IsAsserted, Asserted}
use browserlogin_client.Coordinator.Start.{
  assign, assign_save, kill_recorded, unless_gone, kill_previous,
}

-- A kill is of a process whose identity the call before it asserted, with success; no handle is stopped.
abbrev pub AfterAssert : Env → Effect → Trace → Type 0
AfterAssert env (kill_tree id) t = Asserted env id t
AfterAssert env (stop_handle id) t = ⊥
AfterAssert env _ t = Unit

-- Each call that a trace has beyond another one is such a call.
pub data Asserts (env : Env) (base : Trace) : Trace → Type 0 where
  nothing : Asserts env base base
  also :
      {x : Entry} {t : Trace}
      → AfterAssert env x.effect t
      → Asserts env base t
      → Asserts env base (x ∷ t)

module _ (env : Env) (opts : Options) (base : Trace) where
  abbrev Safe : World → Type 0
  Safe w = Asserts env base w.trace

  kill_recorded-Safe :
      (id : ProcessIdentity) → Spec (Safe) (kill_recorded env opts id) (λ _. Safe) (Safe)
  unfolding kill_recorded
  kill_recorded-Safe id =
      Spec-bind
        {R = λ _ w. (IsAsserted id w.trace × (env.assert_identity w.trace ≡ ok tt)) × Safe w} _ _
        (Spec-call_reply _ _ (λ w h u e. ((refl, e), also tt h)) (λ w h. also tt h))
        λ _. Spec-call _ _ (λ w h u. also h.0 h.1) (λ w h. also h.0 h.1)

  unless_gone-Safe :
      (id : ProcessIdentity) (e : Failure)
      → Spec (Safe) (unless_gone env opts id e) (λ _. Safe) (Safe)
  unfolding unless_gone
  unless_gone-Safe id e =
      Spec-bind {R = λ _. Safe} _ _ (Spec-call _ _ (λ w h a. also tt h) (λ w h. also tt h))
        λ actual. Spec-weaken (λ w h. h) (λ _ w h. h.1) (λ w h. h) (Spec-throw_if _ _ (λ w h. h))

  assign_save-Safe : (s : RecoveryState) → Spec (Safe) (assign_save env opts s) (λ _. Safe) (Safe)
  unfolding assign_save assign
  assign_save-Safe s = Spec-bind {R = λ _. Safe} _ _ (Spec-modify _ (λ w h. h)) (λ _.
      save-Quiet env opts (Safe) (λ w path h. also tt h) (λ w path h. also tt h) (λ w d h. h) s)

  kill_previous-Safe :
      (s : RecoveryState) (pid : Option ℕ)
      → Spec (Safe) (kill_previous env opts s pid) (λ _. Safe) (Safe)
  unfolding kill_previous
  kill_previous-Safe s none = Spec-pure s (λ w h. h)
  kill_previous-Safe s (some pid) =
      Spec-bind _ _ (Spec-try _ _ (kill_recorded-Safe _) (λ e. unless_gone-Safe _ e))
        λ _. Spec-bind _ _ (assign_save-Safe (clear_identity s)) (λ _. Spec-pure _ (λ w h. h))

-- The part of `startLocked` that deals with the runner of an earlier attempt adds no kill but of a
-- process whose identity was asserted, with success, by the call directly before, and stops no
-- handle, whether it goes on or throws.
pub kill_previous-Asserts :
    (env : Env) (opts : Options) (s : RecoveryState) (pid : Option ℕ) (w : World)
    → Asserts env w.trace (kill_previous env opts s pid w).1.trace
kill_previous-Asserts env opts s pid w =
    by_end (kill_previous env opts s pid w).0 _
      ((kill_previous-Safe env opts w.trace s pid).at w nothing)
  where
    by_end :
        (r : Result RecoveryState) (v : World)
        → End (λ _. Safe env opts w.trace) (Safe env opts w.trace) r v
        → Asserts env w.trace v.trace
    by_end (ok u) v k = k
    by_end (err f) v k = k
