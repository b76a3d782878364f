-- ===== src/Coordinator/Spec.antt =====
-- Pre- and postconditions of the coordinator's methods: what holds when a method returns, and
-- what holds when it throws.
use mathlib.Core.Path.{subst}
use browserlogin_client.Prelude.{◌≡◌, refl, Bool, true, false, if◌then◌else◌}
use browserlogin_client.Coordinator.World.{Failure, Result, ok, err, Effect, Trace, World}
use browserlogin_client.Coordinator.Exec.{
  M, logged, pure, throw, call, observe, gets, modify, continue, ◌>>=◌, try_catch, handle, finally,
  skip, throw_if,
}

abbrev pub End : {A : Type 0} → (A → World → Type 0) → (World → Type 0) → Result A → World → Type 0
End Q E (ok a) w = Q a w
End Q E (err f) w = E w

pub record Spec {A : Type 0} (P : World → Type 0) (m : M A) (Q : A → World → Type 0)
    (E : World → Type 0) : Type 0 where
  pub at : (w : World) → P w → End Q E (m w).0 (m w).1

module _ {A : Type 0} (Q : A → World → Type 0) (E : World → Type 0) where
  End-call : (r : Result A) (w : World) → ((a : A) → Q a w) → E w → End Q E r w
  End-call (ok a) w h k = h a
  End-call (err f) w h k = k

  End-reply : (r : Result A) (w : World) → ((a : A) → r ≡ ok a → Q a w) → E w → End Q E r w
  End-reply (ok a) w h k = h a refl
  End-reply (err f) w h k = k

  End-weaken :
      (Q' : A → World → Type 0) (E' : World → Type 0) (r : Result A) (w : World)
      → ((a : A) (v : World) → Q' a v → Q a v)
      → ((v : World) → E' v → E v)
      → End Q' E' r w
      → End Q E r w
  End-weaken Q' E' (ok a) w hq he h = hq a w h
  End-weaken Q' E' (err f) w hq he h = he w h

  End-finally :
      (f : World → World) (r : Result A) (w : World)
      → ((a : A) (v : World) → Q a v → Q a (f v))
      → ((v : World) → E v → E (f v))
      → End Q E r w
      → End Q E r (f w)
  End-finally f (ok a) w hq he h = hq a w h
  End-finally f (err e) w hq he h = he w h

  End-handle :
      (F : World → Type 0) (h : Failure → M A) (r : Result A) (w : World)
      → ((e : Failure) → Spec F (h e) Q E)
      → End Q F r w
      → End Q E (handle r h w).0 (handle r h w).1
  unfolding handle
  End-handle F h (ok a) w k p = p
  End-handle F h (err e) w k p = (k e).at w p

  End-continue :
      {B : Type 0} (R : B → World → Type 0) (f : B → M A) (r : Result B) (w : World)
      → ((b : B) → Spec (R b) (f b) Q E)
      → End R E r w
      → End Q E (continue r f w).0 (continue r f w).1
  unfolding continue
  End-continue R f (ok a) w h k = (h a).at w k
  End-continue R f (err e) w h k = k

module _ {A : Type 0} {P : World → Type 0} {Q : A → World → Type 0} {E : World → Type 0} where
  pub Spec-pure : (a : A) → ((w : World) → P w → Q a w) → Spec P (pure a) Q E
  unfolding pure
  Spec-pure a h = record { at = h }

  pub Spec-throw : (f : Failure) → ((w : World) → P w → E w) → Spec P (throw f) Q E
  unfolding throw
  Spec-throw f h = record { at = h }

  pub Spec-gets : (f : World → A) → ((w : World) → P w → Q (f w) w) → Spec P (gets f) Q E
  unfolding gets
  Spec-gets f h = record { at = h }

  pub Spec-if :
      (b : Bool) (m n : M A)
      → (b ≡ true → Spec P m Q E)
      → (b ≡ false → Spec P n Q E)
      → Spec P (if b then m else n) Q E
  Spec-if true m n hm hn = hm refl
  Spec-if false m n hm hn = hn refl

  -- A call keeps what the world says after it is logged.
  pub Spec-call :
      (e : Effect) (reply : Trace → Result A)
      → ((w : World) → P w → (a : A) → Q a (logged w e))
      → ((w : World) → P w → E (logged w e))
      → Spec P (call e reply) Q E
  unfolding call
  Spec-call e reply h k = record {
    at = λ w p. End-call Q E (reply (logged w e).trace) (logged w e) (h w p) (k w p);
  }

  -- What a call answered is known afterwards.
  pub Spec-call_reply :
      (e : Effect) (reply : Trace → Result A)
      → ((w : World) → P w → (a : A) → reply (logged w e).trace ≡ ok a → Q a (logged w e))
      → ((w : World) → P w → E (logged w e))
      → Spec P (call e reply) Q E
  unfolding call
  Spec-call_reply e reply h k = record {
    at = λ w p. End-reply Q E (reply (logged w e).trace) (logged w e) (h w p) (k w p);
  }

  pub Spec-observe :
      (e : Effect) (reply : Trace → A)
      → ((w : World) → P w → (a : A) → Q a (logged w e))
      → Spec P (observe e reply) Q E
  unfolding observe
  Spec-observe e reply h = record { at = λ w p. h w p (reply (logged w e).trace) }

  pub Spec-try :
      {F : World → Type 0} (m : M A) (h : Failure → M A)
      → Spec P m Q F
      → ((e : Failure) → Spec F (h e) Q E)
      → Spec P (try_catch m h) Q E
  unfolding try_catch
  Spec-try {F} m h s k = record { at = λ w p. End-handle Q E F h (m w).0 (m w).1 k (s.at w p) }

  pub Spec-finally :
      (m : M A) (f : World → World)
      → ((a : A) (v : World) → Q a v → Q a (f v))
      → ((v : World) → E v → E (f v))
      → Spec P m Q E
      → Spec P (finally m f) Q E
  unfolding finally
  Spec-finally m f hq he s = record {
    at = λ w p. End-finally Q E f (m w).0 (m w).1 hq he (s.at w p);
  }

  pub Spec-bind :
      {B : Type 0} {R : B → World → Type 0} (m : M B) (f : B → M A)
      → Spec P m R E
      → ((b : B) → Spec (R b) (f b) Q E)
      → Spec P (m >>= f) Q E
  unfolding ◌>>=◌
  Spec-bind {R} m f h k = record { at = λ w p. End-continue Q E R f (m w).0 (m w).1 k (h.at w p) }

  -- A weaker assumption and a stronger conclusion do.
  pub Spec-weaken :
      {P' : World → Type 0} {Q' : A → World → Type 0} {E' : World → Type 0} {m : M A}
      → ((w : World) → P w → P' w)
      → ((a : A) (w : World) → Q' a w → Q a w)
      → ((w : World) → E' w → E w)
      → Spec P' m Q' E'
      → Spec P m Q E
  Spec-weaken {Q'} {E'} {m} hp hq he s = record {
    at = λ w p. End-weaken Q E Q' E' (m w).0 (m w).1 hq he (s.at w (hp w p));
  }

pub Spec-modify :
    {P : World → Type 0} {Q : Unit {0} → World → Type 0} {E : World → Type 0} (f : World → World)
    → ((w : World) → P w → Q tt (f w))
    → Spec P (modify f) Q E
unfolding modify
Spec-modify f h = record { at = h }

-- After a guard its test is known to have failed.
pub Spec-throw_if :
    {P : World → Type 0} {E : World → Type 0} (b : Bool) (f : Failure)
    → ((w : World) → P w → E w)
    → Spec P (throw_if b f) (λ _ w. (b ≡ false) × P w) E
unfolding throw_if skip
Spec-throw_if b f h =
    Spec-if b (throw f) skip (λ _. Spec-throw f h) (λ no_throw. Spec-pure tt (λ w p. (no_throw, p)))

-- A fact that the precondition carries is a fact of the proof.
pub Spec-fact :
    {A : Type 0} {X : Type 0} {P : World → Type 0} {Q : A → World → Type 0} {E : World → Type 0}
    {m : M A}
    → (X → Spec P m Q E)
    → Spec (λ w. X × P w) m Q E
Spec-fact h = record { at = λ w p. (h p.0).at w p.1 }

-- Two specifications of one method hold together.
End-and :
    {A : Type 0} (Q Q' : A → World → Type 0) (E E' : World → Type 0) (r : Result A) (w : World)
    → End Q E r w
    → End Q' E' r w
    → End (λ a v. Q a v × Q' a v) (λ v. E v × E' v) r w
End-and Q Q' E E' (ok a) w h k = (h, k)
End-and Q Q' E E' (err f) w h k = (h, k)

pub Spec-and :
    {A : Type 0} {P P' : World → Type 0} {Q Q' : A → World → Type 0} {E E' : World → Type 0}
    {m : M A}
    → Spec P m Q E
    → Spec P' m Q' E'
    → Spec (λ w. P w × P' w) m (λ a w. Q a w × Q' a w) (λ w. E w × E' w)
Spec-and {Q} {Q'} {E} {E'} {m} h k = record {
  at = λ w p. End-and Q Q' E E' (m w).0 (m w).1 (h.at w p.0) (k.at w p.1);
}

-- What holds for the world that a run starts in.
pub Spec-from :
    {A : Type 0} {X : Type 0} {P : World → Type 0} {Q : A → World → Type 0} {E : World → Type 0}
    {m : M A} (f : World → X)
    → ((x : X) → Spec (λ w. P w × (f w ≡ x)) m Q E)
    → Spec P m Q E
Spec-from f h = record { at = λ w p. (h (f w)).at w (p, refl) }

-- What holds when a run is known to have returned, and to have thrown.
pub Spec-returns :
    {A : Type 0} {P : World → Type 0} {Q : A → World → Type 0} {E : World → Type 0} {m : M A}
    {w w' : World} {a : A}
    → Spec P m Q E
    → P w
    → m w ≡ (ok a, w')
    → Q a w'
Spec-returns {Q} {E} h p e = subst (λ r. End Q E r.0 r.1) e (h.at _ p)

pub Spec-throws :
    {A : Type 0} {P : World → Type 0} {Q : A → World → Type 0} {E : World → Type 0} {m : M A}
    {w w' : World} {f : Failure}
    → Spec P m Q E
    → P w
    → m w ≡ (err f, w')
    → E w'
Spec-throws {Q} {E} h p e = subst (λ r. End Q E r.0 r.1) e (h.at _ p)
