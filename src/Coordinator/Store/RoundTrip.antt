-- ===== src/Coordinator/Store/RoundTrip.antt =====
-- A recovery state that is saved is the one that is loaded.
use browserlogin_client.Prelude.{Option, none, some, ◌≡◌, refl, eq_refl}
use browserlogin_client.Recovery.{RecoveryState}
use browserlogin_client.Recovery.Validate.{Fault, validate}
use browserlogin_client.Coordinator.World.{
  ok, current, Written, saved, failed_before, failed_after, read_state, Env, Options, World,
}
use browserlogin_client.Coordinator.Exec.{logged, pure, call, gets, ◌>>=◌, continue, throw_if, skip}
use browserlogin_client.Coordinator.Spec.{
  Spec, Spec-pure, Spec-throw, Spec-bind, Spec-call, Spec-observe, Spec-fact, Spec-returns,
}
use browserlogin_client.Coordinator.Store.{
  path_for, accept, check, end_write, write, save, load, present, accepted, decode,
}

module _ (env : Env) (opts : Options) where
  -- The state is valid, and its file holds it.
  abbrev pub Saved : RecoveryState → World → Type 0
  Saved s w = (validate s ≡ none) × (w.disk (path_for env opts s.profile_id) ≡ some (current s))

  end_write-Saved :
      (s : RecoveryState) (ended : Written)
      → Spec
          (λ w. validate s ≡ none)
          (end_write env opts (path_for env opts s.profile_id) s ended)
          (λ _. Saved s)
          (λ _. Unit)
  unfolding end_write
  end_write-Saved s saved = record {
    at = λ w v. (v, rw (eq_refl (path_for env opts s.profile_id)) refl);
  }
  end_write-Saved s (failed_before f) = record { at = λ w v. tt }
  end_write-Saved s (failed_after f) = record { at = λ w v. tt }

  checked :
      (s : RecoveryState) (f : Option Fault)
      → validate s ≡ f
      → Spec (λ _. Unit) (accept env opts s f) (λ v w. (v ≡ s) × (validate s ≡ none)) (λ _. Unit)
  unfolding accept
  checked s none e = Spec-pure s (λ w h. (refl, e))
  checked s (some f) e = Spec-throw _ (λ w h. tt)

  save-Saved : (s : RecoveryState) → Spec (λ _. Unit) (save env opts s) (λ _. Saved s) (λ _. Unit)
  unfolding save check write
  save-Saved s = Spec-bind _ _ (checked s (validate s) refl) λ v. Spec-fact λ e. rw e (
      Spec-bind {R = λ _ w. validate s ≡ none} _ _ (Spec-call _ _ (λ w h a. h) (λ w h. tt)) λ _.
        Spec-bind {R = λ _ w. validate s ≡ none} _ _ (Spec-observe _ _ (λ w h a. h))
          (λ ended. end_write-Saved s ended))

  -- A valid state that the file of its profile holds is what `load` answers, when the file is read.
  load-Saved :
      (s : RecoveryState) (w : World)
      → Saved s w
      → env.read_file (logged w (read_state (path_for env opts s.profile_id))).trace ≡ ok tt
      → (load env opts s.profile_id w).0 ≡ ok (some s)
  unfolding load present accepted decode check accept call gets ◌>>=◌ continue pure throw_if skip
  load-Saved s w h r = rw (r, h.1, h.0, eq_refl s.profile_id) refl

  -- When `save` returns, the state is valid, and `load` of its profile then answers that state,
  -- provided that the file can be read.
  pub save-load :
      (s : RecoveryState) (w w' : World)
      → save env opts s w ≡ (ok tt, w')
      → env.read_file (logged w' (read_state (path_for env opts s.profile_id))).trace ≡ ok tt
      → (validate s ≡ none) × ((load env opts s.profile_id w').0 ≡ ok (some s))
  save-load s w w' e r =
      let h : Saved s w' = Spec-returns (save-Saved s) tt e in (h.0, load-Saved s w' h r)
