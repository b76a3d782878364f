-- ===== src/Coordinator/Store/Reload.antt =====
-- Loading leaves the recovery files as they are, so a state is loaded the same again.
use mathlib.Core.Path.{subst}
use browserlogin_client.Prelude.{
  String, Bool, Option, true, false, none, some, ◌≡◌, refl, ap, ◌∙◌, sym, if◌then◌else◌,
}
use browserlogin_client.Recovery.{RecoveryState, upload_pending}
use browserlogin_client.Recovery.Legacy.{LegacyState, legacy_ok, migrated, migrate}
use browserlogin_client.Recovery.Validate.{Fault, validate}
use browserlogin_client.Coordinator.World.{Stored, current, legacy, other, Env, Options, World}
use browserlogin_client.Coordinator.Spec.{
  Spec, Spec-pure, Spec-throw, Spec-bind, Spec-call, Spec-observe, Spec-gets, Spec-weaken,
  Spec-throw_if, Spec-fact, Spec-and, Spec-from,
}
use browserlogin_client.Coordinator.Store.{
  path_for, stamp, accept, or_bad_schema, check, decode, accepted, present, load, some_state,
  require_state,
}
use browserlogin_client.Coordinator.Store.Files.{Loaded, load-At}
use browserlogin_client.Coordinator.Guard.Steps.{At-none}
use browserlogin_client.Coordinator.Guard.{Rule, IsRule, At, Reads}

-- The file holds this.
abbrev Holds : String → Option Stored → World → Type 0
Holds path f w = w.disk path ≡ f

module _ (env : Env) (opts : Options) (path : String) (file : Option Stored) where
  stamp-Fixed : Spec (Holds path file) (stamp env opts) (λ _. Holds path file) (Holds path file)
  unfolding stamp
  stamp-Fixed =
      Spec-bind {R = λ _. Holds path file} _ _ (Spec-observe _ _ (λ w h a. h))
        (λ t. Spec-pure _ (λ w h. h))

  decode-Fixed :
      (f : Stored)
      → Spec (Holds path file) (decode env opts f) (λ _. Holds path file) (Holds path file)
  unfolding decode or_bad_schema
  decode-Fixed (current s) = Spec-pure s (λ w h. h)
  decode-Fixed (legacy l) =
      Spec-bind _ _ stamp-Fixed (λ now. by_schema (migrate env.join opts.root now l))
    where
      by_schema :
          (m : Option RecoveryState)
          → Spec
              (Holds path file)
              (or_bad_schema env opts m)
              (λ _. Holds path file)
              (Holds path file)
      by_schema none = Spec-throw _ (λ w h. h)
      by_schema (some s) = Spec-pure s (λ w h. h)
  decode-Fixed other = Spec-throw _ (λ w h. h)

  check-Fixed :
      (s : RecoveryState)
      → Spec (Holds path file) (check env opts s) (λ _. Holds path file) (Holds path file)
  unfolding check accept
  check-Fixed s = by_fault (validate s)
    where
      by_fault :
          (f : Option Fault)
          → Spec (Holds path file) (accept env opts s f) (λ _. Holds path file) (Holds path file)
      by_fault none = Spec-pure s (λ w h. h)
      by_fault (some f) = Spec-throw _ (λ w h. h)

  pub load-Fixed :
      (profile : String)
      → Spec (Holds path file) (load env opts profile) (λ _. Holds path file) (Holds path file)
  unfolding load present accepted
  load-Fixed profile =
      Spec-bind {R = λ _. Holds path file} _ _ (Spec-call _ _ (λ w h a. h) (λ w h. h)) λ _.
        Spec-bind {R = λ _. Holds path file} _ _ (Spec-gets _ (λ w h. h)) (λ found. by_file found)
    where
      by_file :
          (found : Option Stored)
          → Spec
              (Holds path file)
              (present env opts profile found)
              (λ _. Holds path file)
              (Holds path file)
      by_file none = Spec-pure none (λ w h. h)
      by_file (some f) = Spec-bind _ _ (decode-Fixed f) λ v.
          Spec-bind _ _ (check-Fixed v)
            λ s. Spec-bind _ _ (Spec-throw_if _ _ (λ w h. h)) (λ _. Spec-pure _ (λ w h. h.1))

-- What is found, if anything is, has the state's status.
abbrev pub Kept : RecoveryState → Option RecoveryState → Type 0
Kept s none = Unit
Kept s (some t) = t.status ≡ s.status

module _ (env : Env) (opts : Options) where
  migrate-status :
      (now : String) (l : LegacyState) (s : RecoveryState)
      → migrate env.join opts.root now l ≡ some s
      → s.status ≡ upload_pending
  unfolding migrate migrated
  migrate-status now l s e = by_ok (legacy_ok l) e
    where
      some-inj : {a b : RecoveryState} → some a ≡ some b → a ≡ b
      some-inj e = cc

      by_ok :
          (b : Bool)
          → (if b then some (migrated env.join opts.root now l) else none) ≡ some s
          → s.status ≡ upload_pending
      by_ok true e = ap (λ (v : RecoveryState). v.status) (sym (some-inj e))
      by_ok false e = cc

  -- Two states that one file stands for have the same status.
  Reads-status :
      (f : Option Stored) (s t : RecoveryState)
      → Reads env opts f s
      → Reads env opts f t
      → t.status ≡ s.status
  Reads-status (some (current u)) s t h k = ap (λ (v : RecoveryState). v.status) (sym k ∙ h)
  Reads-status (some (legacy l)) s t h k =
      migrate-status k.0 l t k.1 ∙ sym (migrate-status h.0 l s h.1)
  Reads-status none s t h k = elim h [ ]
  Reads-status (some other) s t h k = elim h [ ]

module _ {env : Env} {opts : Options} {G : Rule} (rule : IsRule env opts G) where
  -- What the profile's file stands for is what is loaded.
  load-Kept :
      (s : RecoveryState) (profile : String) (f : Option Stored)
      → Reads env opts f s
      → Spec
          (λ w. At env opts G none w × (w.disk (path_for env opts profile) ≡ f))
          (load env opts profile)
          (λ found w. Kept s found × Loaded env opts G profile found w)
          (At env opts G none)
  load-Kept s profile f reads =
      Spec-weaken (λ w h. h) kept (λ w h. h.0)
        (Spec-and (load-At rule profile)
          (load-Fixed env opts (path_for env opts profile) f profile))
    where
      kept :
          (found : Option RecoveryState) (w : World)
          → Loaded env opts G profile found w × (w.disk (path_for env opts profile) ≡ f)
          → Kept s found × Loaded env opts G profile found w
      kept none w h = (tt, h.0)
      kept (some t) w h =
          let named : w.disk (path_for env opts t.profile_id) ≡ f =
            ap (λ p. w.disk (path_for env opts p)) h.0.0 ∙ h.1 in
          (Reads-status env opts f s t reads (rw (← named) h.0.1.stored), h.0)

  -- A state that is loaded again has the status that it had.
  pub load-again :
      (s : RecoveryState) (profile : String)
      → s.profile_id ≡ profile
      → Spec
          (At env opts G (some s))
          (load env opts profile)
          (λ found w. Kept s found × Loaded env opts G profile found w)
          (At env opts G none)
  load-again s profile e =
      Spec-from (λ w. w.disk (path_for env opts profile))
        λ f.
          Spec-weaken
            {P' = λ w.
              Reads env opts f s
              × (At env opts G none w × (w.disk (path_for env opts profile) ≡ f))}
            (λ w h.
              let named : w.disk (path_for env opts s.profile_id) ≡ f =
                ap (λ p. w.disk (path_for env opts p)) e ∙ h.1 in
              (rw (← named) h.0.stored, (At-none w h.0, h.1)))
            (λ _ w h. h) (λ w h. h) (Spec-fact (λ reads. load-Kept s profile f reads))

  -- A state that the profile's file is known to hold is the one that is loaded.
  pub load-known :
      (s : RecoveryState) (profile : String)
      → Spec
          (λ w. At env opts G none w × (w.disk (path_for env opts profile) ≡ some (current s)))
          (load env opts profile)
          (λ found w. Kept s found × Loaded env opts G profile found w)
          (At env opts G none)
  load-known s profile = load-Kept s profile (some (current s)) refl

  -- The state that the file has is the one that is required.
  pub require-current :
      (s : RecoveryState) (profile : String)
      → Spec
          (λ w. At env opts G none w × (w.disk (path_for env opts profile) ≡ some (current s)))
          (require_state env opts profile)
          (λ t w. (s ≡ t) × At env opts G (some t) w)
          (At env opts G none)
  unfolding require_state some_state
  require-current s profile =
      Spec-bind _ _
        (Spec-weaken (λ w h. h) found_same (λ w h. h.0)
          (Spec-and (load-At rule profile)
            (load-Fixed env opts (path_for env opts profile) (some (current s)) profile)))
        (λ found. required found)
    where
      Same : Option RecoveryState → World → Type 0
      Same none w = At env opts G none w
      Same (some t) w = (s ≡ t) × At env opts G (some t) w

      found_same :
          (found : Option RecoveryState) (w : World)
          → Loaded env opts G profile found w
            × (w.disk (path_for env opts profile) ≡ some (current s))
          → Same found w
      found_same none w h = h.0
      found_same (some t) w h =
          let named : w.disk (path_for env opts t.profile_id) ≡ some (current s) =
            ap (λ p. w.disk (path_for env opts p)) h.0.0 ∙ h.1 in
          (subst (λ f. Reads env opts f t) named h.0.1.stored, h.0.1)

      required :
          (found : Option RecoveryState)
          → Spec
              (Same found)
              (some_state env opts found)
              (λ t w. (s ≡ t) × At env opts G (some t) w)
              (At env opts G none)
      required none = Spec-throw _ (λ w h. h)
      required (some t) = Spec-pure t (λ w h. h)

  -- Likewise where a state is required.
  pub require-known :
      (s : RecoveryState) (profile : String)
      → Spec
          (λ w. At env opts G none w × (w.disk (path_for env opts profile) ≡ some (current s)))
          (require_state env opts profile)
          (λ t w. (t.status ≡ s.status) × Loaded env opts G profile (some t) w)
          (At env opts G none)
  unfolding require_state some_state
  require-known s profile = Spec-bind _ _ (load-known s profile) (λ found. required found)
    where
      required :
          (found : Option RecoveryState)
          → Spec
              (λ w. Kept s found × Loaded env opts G profile found w)
              (some_state env opts found)
              (λ t w. (t.status ≡ s.status) × Loaded env opts G profile (some t) w)
              (At env opts G none)
      required none = Spec-throw _ (λ w h. h.1)
      required (some t) = Spec-pure t (λ w h. h)
