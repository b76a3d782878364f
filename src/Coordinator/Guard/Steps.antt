-- ===== src/Coordinator/Guard/Steps.antt =====
-- Each primitive step leaves the recovery file's state as it is, if its call is unguarded.
use browserlogin_client.Prelude.{String, Bool, false, Option, none, ◌≡◌, refl, if◌then◌else◌}
use browserlogin_client.Recovery.{RecoveryState, RecoveryStatus}
use browserlogin_client.Coordinator.World.{
  Disk, Session, Failure, Result, Effect, Trace, CrashPoint, Env, Options, World,
}
use browserlogin_client.Coordinator.Exec.{
  M, logged, pure, throw, call, observe, gets, modify, ◌>>=◌, skip, when, throw_if,
}
use browserlogin_client.Coordinator.Spec.{
  Spec, Spec-pure, Spec-throw, Spec-gets, Spec-call, Spec-observe, Spec-modify, Spec-bind, Spec-if,
}
use browserlogin_client.Coordinator.Store.{
  stamp, stamp_later, transition, crash_at, assert_state_path,
}
use browserlogin_client.Coordinator.Guard.{
  is_guarded, Rule, IsRule, At, Gone, Ended, StoredAs, Keeps,
}

module _ {env : Env} {opts : Options} {G : Rule} where
  pub At-none : {o : Option RecoveryState} (w : World) → At env opts G o w → At env opts G none w
  At-none w h = record { guarded = h.guarded; stored = tt }

  pub Gone-none : {profile : String} (w : World) → Gone env opts G profile w → At env opts G none w
  Gone-none w h = record { guarded = h.guarded; stored = tt }

  pub Ended-none :
      {profile : String} (r : Session) (w : World)
      → Ended env opts G profile r w
      → At env opts G none w
  Ended-none r w h = Gone-none w h.gone

  module _ (rule : IsRule env opts G) where
    pub Gone-logged :
        {profile : String} (e : Effect) (w : World)
        → is_guarded e ≡ false
        → Gone env opts G profile w
        → Gone env opts G profile (logged w e)
    Gone-logged e w q h = record {
      guarded = rule.after e w (rule.unguarded e w.disk q) h.guarded;
      absent = h.absent;
    }

    pub Ended-logged :
        {profile : String} (r : Session) (e : Effect) (w : World)
        → is_guarded e ≡ false
        → Ended env opts G profile r w
        → Ended env opts G profile r (logged w e)
    Ended-logged r e w q h = record {
      owner = h.owner;
      reported = h.reported;
      gone = Gone-logged e w q h.gone;
    }

  module _ {o : Option RecoveryState} (rule : IsRule env opts G) where
    pub At-logged :
        (e : Effect) (w : World)
        → is_guarded e ≡ false
        → At env opts G o w
        → At env opts G o (logged w e)
    At-logged e w q h = record {
      guarded = rule.after e w (rule.unguarded e w.disk q) h.guarded;
      stored = h.stored;
    }

    module _ {A : Type 0} where
      pub Keeps-call :
          (e : Effect) (reply : Trace → Result A)
          → is_guarded e ≡ false
          → Keeps env opts G o (call e reply)
      Keeps-call e reply q =
          Spec-call e reply (λ w h _. At-logged e w q h)
            (λ w h. At-none (logged w e) (At-logged e w q h))

      -- A call that fails leaves it so too.
      pub call-At :
          (e : Effect) (reply : Trace → Result A)
          → is_guarded e ≡ false
          → Spec (At env opts G o) (call e reply) (λ _. At env opts G o) (At env opts G o)
      call-At e reply q = Spec-call e reply (λ w h _. At-logged e w q h) (λ w h. At-logged e w q h)

      pub Keeps-observe :
          (e : Effect) (reply : Trace → A)
          → is_guarded e ≡ false
          → Keeps env opts G o (observe e reply)
      Keeps-observe e reply q = Spec-observe e reply (λ w h _. At-logged e w q h)

  module _ {o : Option RecoveryState} where
    module _ {A : Type 0} where
      pub Keeps-pure : (a : A) → Keeps env opts G o (pure a)
      Keeps-pure a = Spec-pure a (λ w h. h)

      pub Keeps-throw : (f : Failure) → Keeps env opts G o (throw {A = A} f)
      Keeps-throw f = Spec-throw f At-none

      pub Keeps-gets : (f : World → A) → Keeps env opts G o (gets f)
      Keeps-gets f = Spec-gets f (λ w h. h)

      pub Keeps-if :
          (b : Bool) (m n : M A)
          → Keeps env opts G o m
          → Keeps env opts G o n
          → Keeps env opts G o (if b then m else n)
      Keeps-if b m n hm hn = Spec-if b m n (λ _. hm) (λ _. hn)

      pub Keeps-bind :
          {B : Type 0} (m : M B) (f : B → M A)
          → Keeps env opts G o m
          → ((b : B) → Keeps env opts G o (f b))
          → Keeps env opts G o (m >>= f)
      Keeps-bind m f hm hf = Spec-bind m f hm hf

    pub Keeps-skip : Keeps env opts G o skip
    unfolding skip
    Keeps-skip = Keeps-pure tt

    pub Keeps-when :
        (b : Bool) (m : M (Unit {0})) → Keeps env opts G o m → Keeps env opts G o (when b m)
    unfolding when
    Keeps-when b m h = Keeps-if b m skip h Keeps-skip

    pub Keeps-throw_if : (b : Bool) (f : Failure) → Keeps env opts G o (throw_if b f)
    unfolding throw_if
    Keeps-throw_if b f = Keeps-if b (throw f) skip (Keeps-throw f) Keeps-skip

  module _ {o : Option RecoveryState} (rule : IsRule env opts G) where
    -- A change of the maps or of the variable `state`.
    pub Keeps-modify :
        (f : World → World)
        → ((w : World) → ((f w).disk ≡ w.disk) × ((f w).trace ≡ w.trace))
        → Keeps env opts G o (modify f)
    Keeps-modify f same = Spec-modify f (λ w h. record {
      guarded = rule.framed w (f w) (same w).0 (same w).1 h.guarded;
      stored = rw ((same w).0) h.stored;
    })

    pub Keeps-stamp : Keeps env opts G o (stamp env opts)
    unfolding stamp
    Keeps-stamp = Keeps-bind _ _ (Keeps-observe rule _ _ refl) (λ t. Keeps-pure _)

    pub Keeps-stamp_later : Keeps env opts G o (stamp_later env opts)
    unfolding stamp_later
    Keeps-stamp_later = Keeps-bind _ _ (Keeps-observe rule _ _ refl) (λ t. Keeps-pure _)

    pub Keeps-transition :
        (s : RecoveryState) (next : RecoveryStatus)
        → Keeps env opts G o (transition env opts s next)
    unfolding transition
    Keeps-transition s next = Keeps-bind _ _ Keeps-stamp (λ t. Keeps-pure _)

    pub Keeps-crash_at : (point : CrashPoint) → Keeps env opts G o (crash_at env opts point)
    unfolding crash_at
    Keeps-crash_at point = Keeps-call rule _ _ refl

    pub Keeps-assert_state_path :
        (path : String) → Keeps env opts G o (assert_state_path env opts path)
    unfolding assert_state_path
    Keeps-assert_state_path path = Keeps-if _ _ _ (Keeps-throw _) (Keeps-pure _)

module _ {env : Env} {opts : Options} {G : Rule} (rule : IsRule env opts G)
    {o : Option RecoveryState} {A : Type 0} where
  -- A guarded call is made where the files allow it.
  pub Keeps-guarded :
      (e : Effect) (reply : Trace → Result A)
      → ((d : Disk) → StoredAs env opts d o → G.allows e d)
      → Keeps env opts G o (call e reply)
  Keeps-guarded e reply allowed =
      let step : (w : World) → At env opts G o w → At env opts G o (logged w e) = λ w h. record {
        guarded = rule.after e w (allowed w.disk h.stored) h.guarded;
        stored = h.stored;
      } in
      Spec-call e reply (λ w h _. step w h) (λ w h. At-none (logged w e) (step w h))

  pub Keeps-guarded_observe :
      (e : Effect) (reply : Trace → A)
      → ((d : Disk) → StoredAs env opts d o → G.allows e d)
      → Keeps env opts G o (observe e reply)
  Keeps-guarded_observe e reply allowed = Spec-observe e reply (λ w h _. record {
    guarded = rule.after e w (allowed w.disk h.stored) h.guarded;
    stored = h.stored;
  })

module _ {env : Env} {opts : Options} {G : Rule} {o : Option RecoveryState}
    (rule : IsRule env opts G) where
  -- A transition gives the state its new status and time.
  pub transition-At :
      (s : RecoveryState) (next : RecoveryStatus)
      → Spec
          (At env opts G o)
          (transition env opts s next)
          (λ v w.
            ((t : String) × (v ≡ record s { status = next; updated_at = t })) × At env opts G o w)
          (At env opts G none)
  unfolding transition
  transition-At s next = Spec-bind _ _ (Keeps-stamp rule) (λ t. Spec-pure _ (λ w h. ((t, refl), h)))

pub ruleset keeps_rules = (
  Keeps-pure, Keeps-throw, Keeps-gets, Keeps-if, Keeps-bind, Keeps-skip, Keeps-when, Keeps-throw_if,
  Keeps-transition, Keeps-crash_at, Keeps-assert_state_path, Keeps-call, Keeps-observe,
)
