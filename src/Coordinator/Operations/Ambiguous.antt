-- ===== src/Coordinator/Operations/Ambiguous.antt =====
-- A profile whose upload is ambiguous: no method but `resolveUploadAmbiguous` moves it on, and none
-- tries a stop, so nothing is uploaded or committed a second time.
use browserlogin_client.Prelude.{String, false, Option, none, some, ◌≡◌, ◌∙◌, arith}
use browserlogin_client.Recovery.{RecoveryState, upload_ambiguous, is_done}
use browserlogin_client.Coordinator.World.{Session, current, Effect, Env, Options, World}
use browserlogin_client.Coordinator.Exec.{M, logged}
use browserlogin_client.Coordinator.Spec.{
  Spec, Spec-pure, Spec-throw, Spec-bind, Spec-if, Spec-weaken, Spec-throw_if, Spec-fact,
}
use browserlogin_client.Coordinator.Store.{path_for, with_transition}
use browserlogin_client.Coordinator.Store.Files.{Loaded, load-At, with_transition-Spec}
use browserlogin_client.Coordinator.Store.Reload.{Kept, load-again, load-known, require-known}
use browserlogin_client.Coordinator.Guard.{is_guarded, Rule, IsRule, At}
use browserlogin_client.Coordinator.Guard.Steps.{At-none, At-logged, Ended-none}
use browserlogin_client.Coordinator.Reconcile.Safety.{Reconciled, ambiguous-Reconciled}
use browserlogin_client.Coordinator.Start.Safety.{AllowsStart}
use browserlogin_client.Coordinator.Operations.{
  start_stored, start_found, start_work, start, stop_current, stop_loaded, stop_unless, stop_work,
  stop,
}
use browserlogin_client.Coordinator.Operations.Safety.{
  Started, Reconciled-none, start_fresh-Started, start_reconciled-Started,
}

-- The profile's file holds this state.
abbrev pub Filed : Env → Options → Rule → String → RecoveryState → World → Type 0
Filed env opts G profile s w =
    At env opts G none w × (w.disk (path_for env opts profile) ≡ some (current s))

module _ {env : Env} {opts : Options} {G : Rule} (rule : IsRule env opts G) (profile : String)
    (s : RecoveryState) (ambiguous : s.status ≡ upload_ambiguous) where
  pub Filed-logged :
      (e : Effect) (w : World)
      → is_guarded e ≡ false
      → Filed env opts G profile s w
      → Filed env opts G profile s (logged w e)
  Filed-logged e w q h = (At-logged rule e w q h.0, h.1)

  -- Under the locks, and from the file.
  pub locked :
      {A : Type 0} (m : M A)
      → Spec (Filed env opts G profile s) m (λ _. At env opts G none) (At env opts G none)
      → Spec
          (Filed env opts G profile s)
          (with_transition env opts profile m)
          (λ _. At env opts G none)
          (At env opts G none)
  locked m h =
      with_transition-Spec env opts Filed-logged (λ _. At-logged rule) (At-logged rule) (λ w k. k.0)
        profile m h

  stop_loaded-quiet :
      (t : RecoveryState) (found : Option RecoveryState)
      → t.status ≡ upload_ambiguous
      → Kept t found
      → Spec
          (Loaded env opts G profile found)
          (stop_loaded env opts found)
          (λ _. At env opts G none)
          (At env opts G none)
  unfolding stop_loaded stop_current
  stop_loaded-quiet t none a k = Spec-throw _ (λ w h. h)
  stop_loaded-quiet t (some u) a k = Spec-fact λ e. Spec-bind _ _ (Spec-throw_if _ _ At-none) λ _.
      Spec-bind _ _ (Spec-throw_if _ _ (λ w h. At-none w h.1)) λ _. Spec-fact λ other. ground arith

  stop_work-quiet :
      Spec
        (Filed env opts G profile s)
        (stop_work env opts profile)
        (λ _. At env opts G none)
        (At env opts G none)
  unfolding stop_work stop_unless
  stop_work-quiet = Spec-bind _ _ (require-known rule s profile) λ t. Spec-fact λ same.
      Spec-fact λ e.
        Spec-bind _ _ (ambiguous-Reconciled rule t (same ∙ ambiguous))
          (λ found. found_then t e (same ∙ ambiguous) found)
    where
      found_then :
          (t : RecoveryState)
          → t.profile_id ≡ profile
          → t.status ≡ upload_ambiguous
          → (found : Option Session)
          → Spec
              (Reconciled env opts G t found)
              (stop_unless env opts profile found)
              (λ _. At env opts G none)
              (At env opts G none)
      found_then t e a (some r) = Spec-pure r (Ended-none r)
      found_then t e a none =
          Spec-bind _ _ (load-again rule t profile e)
            λ again. Spec-fact λ kept. stop_loaded-quiet t again a kept

  pub stop-quiet :
      Spec
        (Filed env opts G profile s)
        (stop env opts profile)
        (λ _. At env opts G none)
        (At env opts G none)
  unfolding stop
  stop-quiet = locked _ stop_work-quiet

  module _ (may : AllowsStart env opts G) where
    pub start-quiet :
        Spec
          (Filed env opts G profile s)
          (start env opts profile)
          (λ _. At env opts G none)
          (At env opts G none)
    unfolding start start_work start_stored
    start-quiet =
        locked _ (
          Spec-bind _ _ (load-known rule s profile)
            λ found. Spec-fact λ kept. found_then found kept)
      where
        started :
            {o : Option RecoveryState} {m : M RecoveryState}
            → Spec (At env opts G o) m (Started env opts G profile) (At env opts G none)
            → Spec (At env opts G o) m (λ _. At env opts G none) (At env opts G none)
        started h = Spec-weaken (λ w k. k) (λ v w k. At-none w k.at) (λ w k. k) h

        found_then :
            (found : Option RecoveryState)
            → Kept s found
            → Spec
                (Loaded env opts G profile found)
                (start_found env opts profile found)
                (λ _. At env opts G none)
                (At env opts G none)
        found_then none k = started (start_fresh-Started rule may profile none)
        found_then (some t) k = Spec-fact λ e.
            Spec-if (is_done t.status) _ _ (λ finished. ground arith)
              λ _.
                Spec-bind _ _
                  (Spec-weaken (λ w h. h) (Reconciled-none rule t) (λ w h. h)
                    (ambiguous-Reconciled rule t (k ∙ ambiguous)))
                  λ _. Spec-bind _ _ (load-At rule profile) λ again.
                    Spec-weaken (λ w h. h) (λ v w h. At-none w h.at) (λ w h. h)
                      (start_reconciled-Started rule may profile again)
