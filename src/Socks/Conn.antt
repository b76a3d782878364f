-- ===== src/Socks/Conn.antt =====
-- src/core/proxy/socks-relay.ts: one client's connection, as `handleClient` sees it, and the methods
-- that work on it. What was sent before a failure stays sent.
use browserlogin_client.Prelude.{ℕ, Bool, true, Option, List, ◌∷◌, if◌then◌else◌}
use browserlogin_client.Socks.Stream.{Input, Diagnostic, Result, ok, err, read_exact}

-- SocksRelayPhase
pub data Phase : Type 0 where
  client_greeting client_request upstream_connect upstream_method upstream_authentication : Phase
  upstream_request tunnel : Phase

-- What the relay does to the two sockets, and the calls of `onDiagnostic`. The tunnel is entered with
-- what the handshake has not read of either side.
pub data Action : Type 0 where
  to_client end_client to_upstream : List ℕ → Action
  connects destroys : Action
  reports : Phase → Option Diagnostic → Action
  tunnels : (from_client from_upstream : List ℕ) → Action

-- The socket that is read from.
pub data Peer : Type 0 where
  client upstream : Peer

-- The two sockets, the locals `protocolReady` and `phase`, and what was done, last first.
pub record Conn : Type 0 where
  pub from_client : Input
  pub from_upstream : Input
  pub ready : Bool
  pub phase : Phase
  pub done : List Action

abbrev pub M : Type 0 → Type 0
M A = Conn → Result A × Conn

unfoldable pub input_of : Peer → Conn → Input
input_of client c = c.from_client
input_of upstream c = c.from_upstream

unfoldable pub with_input : Peer → Input → Conn → Conn
with_input client i c = record c { from_client = i }
with_input upstream i c = record c { from_upstream = i }

unfoldable pub received : Peer → Result (List ℕ × Input) → M (List ℕ)
received p (ok (bs, rest)) c = (ok bs, with_input p rest c)
received p (err d) c = (err d, c)

-- `await readExact(socket, size, deadline)`; a socket is not read again after a failure.
unfoldable pub read : Peer → ℕ → M (List ℕ)
read p size c = received p (read_exact size (input_of p c)) c

module _ {A : Type 0} where
  unfoldable pub pure : A → M A
  pure a c = (ok a, c)

  unfoldable pub throw : Option Diagnostic → M A
  throw d c = (err d, c)

unfoldable pub act : Action → M (Unit {0})
act a c = (ok tt, record c { done = a ∷ c.done })

unfoldable pub enter : Phase → M (Unit {0})
enter p c = (ok tt, record c { phase = p })

unfoldable pub protocol_ready : M (Unit {0})
protocol_ready c = (ok tt, record c { ready = true })

unfoldable pub throw_if : Bool → Option Diagnostic → M (Unit {0})
throw_if b d = if b then throw d else pure tt

module _ {A B : Type 0} where
  unfoldable pub continue : Result A → (A → M B) → M B
  continue (ok a) f c = f a c
  continue (err d) f c = (err d, c)

  infixl 5 ◌>>=◌ ◌>>◌
  unfoldable pub ◌>>=◌ : M A → (A → M B) → M B
  unfolding continue
  ◌>>=◌ m f c = let (r, c') = m c in continue r f c'

  abbrev pub ◌>>◌ : M A → M B → M B
  m >> n = m >>= λ _. n
