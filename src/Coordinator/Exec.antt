-- ===== src/Coordinator/Exec.antt =====
-- The coordinator's methods as functions of the world that return or throw. What was written and
-- called before a throw stays written and called, so the world comes back beside the error too.
use browserlogin_client.Prelude.{Bool, ◌∷◌, if◌then◌else◌}
use browserlogin_client.Coordinator.World.{Failure, Result, ok, err, Effect, Entry, Trace, World}

abbrev pub M : Type 0 → Type 0
M A = World → Result A × World

-- The entry of a call that is made now.
abbrev pub entry : World → Effect → Entry
entry w e = record { effect = e; disk = w.disk }

abbrev pub logged : World → Effect → World
logged w e = record w { trace = entry w e ∷ w.trace }

module _ {A : Type 0} where
  unfoldable pub pure : A → M A
  pure a w = (ok a, w)

  unfoldable pub throw : Failure → M A
  throw f w = (err f, w)

  -- A call that may fail.
  unfoldable pub call : Effect → (Trace → Result A) → M A
  call e reply w = (reply (logged w e).trace, logged w e)

  -- A call that answers.
  unfoldable pub observe : Effect → (Trace → A) → M A
  observe e reply w = (ok (reply (logged w e).trace), logged w e)

  unfoldable pub gets : (World → A) → M A
  gets f w = (ok (f w), w)

unfoldable pub modify : (World → World) → M (Unit {0})
modify f w = (ok tt, f w)

module _ {A B : Type 0} where
  unfoldable pub continue : Result A → (A → M B) → M B
  continue (ok a) f w = f a w
  continue (err e) f w = (err e, w)

  infixl 5 ◌>>=◌ ◌>>◌
  unfoldable pub ◌>>=◌ : M A → (A → M B) → M B
  unfolding continue
  ◌>>=◌ m f w = let (r, w') = m w in continue r f w'

  abbrev pub ◌>>◌ : M A → M B → M B
  m >> n = m >>= λ _. n

module _ {A : Type 0} where
  unfoldable pub handle : Result A → (Failure → M A) → M A
  handle (ok a) h w = (ok a, w)
  handle (err e) h w = h e w

  -- `try { m } catch (error) { h error }`
  unfoldable pub try_catch : M A → (Failure → M A) → M A
  unfolding handle
  try_catch m h w = let (r, w') = m w in handle r h w'

  -- `try { m } finally { f }`, with a last part that does not throw.
  unfoldable pub finally : M A → (World → World) → M A
  finally m f w = let (r, w') = m w in (r, f w')

unfoldable pub skip : M (Unit {0})
unfolding pure
skip = pure tt

-- `if (b) m;`
unfoldable pub when : Bool → M (Unit {0}) → M (Unit {0})
unfolding skip
when b m = if b then m else skip

-- `if (b) throw f;`
unfoldable pub throw_if : Bool → Failure → M (Unit {0})
unfolding skip throw
throw_if b f = if b then throw f else skip
