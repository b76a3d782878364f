-- ===== src/Socks/Relay.antt =====
-- src/core/proxy/socks-relay.ts: `readAddress`, and `handleClient` with `connectUpstream` and
-- `sendFailure`. `Env` has what the relay is built with and what the network answers to the one
-- connection that it opens.
pub mod Alike
pub mod Chunks
pub mod Allowed
pub mod Safety
pub mod Reads
pub mod Relays
use browserlogin_client.Prelude.{
  ℕ, zero, suc, ◌+◌, ◌-◌, ◌*◌, ◌/◌, ◌%◌, ◌<◌, String, Bool, true, false, not, Option, none, some,
  List, [], ◌∷◌, ◌++◌, ◌&&◌, ◌||◌, leb, ltb, ◌==◌, if◌then◌else◌, length, any, is_some, str_eq,
}
use browserlogin_client.Socks.Login.{Relay, login}
use browserlogin_client.Socks.Stream.{
  Ending, Input, Diagnostic, bad_version, offered_methods, Result, ok, err, bytes,
}
use browserlogin_client.Socks.Conn.{
  Phase, client_greeting, client_request, upstream_connect, upstream_method,
  upstream_authentication, upstream_request, tunnel, Action, to_client, end_client, to_upstream,
  connects, destroys, reports, tunnels, Peer, client, upstream, Conn, M, read, pure, throw, act,
  enter, protocol_ready, throw_if, ◌>>=◌, ◌>>◌,
}

-- What `connectUpstream` gets, what the client sends once the tunnel is open, and whether the
-- client's socket can be written to in `sendFailure`.
pub record Env : Type 0 where
  pub relay : Relay
  pub connection : Option Input
  pub later : Input
  pub writable : Bool

-- `buffer[i]` in range.
abbrev pub at : List ℕ → ℕ → ℕ
at [] i = 0
at (b ∷ bs) zero = b
at (b ∷ bs) (suc i) = at bs i

abbrev pub socks_failure : List ℕ
socks_failure = 5 ∷ 1 ∷ 0 ∷ 1 ∷ 0 ∷ 0 ∷ 0 ∷ 0 ∷ 0 ∷ 0 ∷ []

abbrev pub not_allowed : List ℕ
not_allowed = 5 ∷ 7 ∷ 0 ∷ 1 ∷ 0 ∷ 0 ∷ 0 ∷ 0 ∷ 0 ∷ 0 ∷ []

abbrev pub method_offer : List ℕ
method_offer = 5 ∷ 1 ∷ 2 ∷ []

-- `a.equals(Buffer.from([x, y]))`
abbrev pub is_pair : List ℕ → ℕ → ℕ → Bool
is_pair (a ∷ b ∷ []) x y = a == x && b == y
is_pair _ x y = false

read_name : Peer → ℕ → M (List ℕ)
read_name p n = do throw_if (n == 0) none; name ← read p n; pure (n ∷ name)

-- readAddress
unfoldable pub read_address : Peer → ℕ → M (List ℕ)
unfolding read_name
read_address p atyp =
    if atyp == 1
    then read p 4
    else if atyp == 4
    then read p 16
    else if atyp == 3
    then (do head ← read p 1; read_name p (at head 0))
    else throw none

-- connectUpstream. While it is awaited, and up to the tunnel, the client's socket flows and nothing listens
-- to its data: what it still holds and what comes meanwhile is lost, so what is left to be read of it
-- is what comes later. The reads before it follow each other without such a gap, and the upstream's
-- socket begins to flow with its first read and is read or piped without one.
unfoldable pub connect_upstream : Input → Option Input → M (Unit {0})
connect_upstream later none c =
    (err none, record c { done = connects ∷ c.done; from_client = later })
connect_upstream later (some i) c =
    (ok tt, record c { done = connects ∷ c.done; from_upstream = i; from_client = later })

unfoldable pub open_tunnel : M (Unit {0})
open_tunnel c = act (tunnels (bytes c.from_client) (bytes c.from_upstream)) c

unfoldable pub enter_tunnel : M (Unit {0})
unfolding open_tunnel
enter_tunnel = do enter tunnel; open_tunnel

-- `handleClient` from the upstream's reply on: `tunnel` is entered if it reports success.
unfoldable pub answer_client : List ℕ → List ℕ → List ℕ → M (Unit {0})
answer_client head address port = do
  act (to_client (head ++ (address ++ port)))
  if not (at head 1 == 0) then act (reports upstream_request none) else enter_tunnel

-- From the upstream's confirmation of the login on.
unfoldable pub forward_request : List ℕ → List ℕ → List ℕ → M (Unit {0})
forward_request request address port = do
  enter upstream_request
  act (to_upstream (request ++ (address ++ port)))
  head ← read upstream 4
  throw_if (not (at head 0 == 5) || (not (at head 2 == 0) || ltb 8 (at head 1))) none
  reply_address ← read_address upstream (at head 3)
  reply_port ← read upstream 2
  answer_client head reply_address reply_port

-- From the upstream's choice of a method on.
unfoldable pub log_in : Env → List ℕ → List ℕ → List ℕ → M (Unit {0})
log_in env request address port = do
  enter upstream_authentication
  act (to_upstream (login env.relay))
  granted ← read upstream 2
  throw_if (not (is_pair granted 1 0)) none
  forward_request request address port

unfoldable pub reach_upstream : Env → List ℕ → List ℕ → List ℕ → M (Unit {0})
reach_upstream env request address port = do
  enter upstream_connect
  connect_upstream env.later env.connection
  enter upstream_method
  act (to_upstream method_offer)
  chosen ← read upstream 2
  throw_if (not (is_pair chosen 5 2)) none
  log_in env request address port

-- The client's request. Only CONNECT goes on.
unfoldable pub take_request : Env → M (Unit {0})
take_request env = do
  request ← read client 4
  throw_if (not (at request 0 == 5) || not (at request 2 == 0)) none
  address ← read_address client (at request 3)
  port ← read client 2
  if not (at request 1 == 1)
      then act (end_client not_allowed)
      else (reach_upstream env request address port)

unfoldable pub refuse_methods : List ℕ → M (Unit {0})
refuse_methods methods = do
  act (reports client_greeting (some (offered_methods methods)))
  act (end_client (5 ∷ 255 ∷ []))

unfoldable pub accept_greeting : Env → M (Unit {0})
accept_greeting env = do
  act (to_client (5 ∷ 0 ∷ []))
  protocol_ready
  enter client_request
  take_request env

-- The `try` block of `handleClient`.
unfoldable pub handshake : Env → M (Unit {0})
handshake env = do
  greeting ← read client 2
  throw_if (not (at greeting 0 == 5)) (some (bad_version (at greeting 0)))
  methods ← read client (at greeting 1)
  if not (any (λ b. b == 0) methods) then refuse_methods methods else accept_greeting env

-- sendFailure
unfoldable pub send_failure : Env → Conn → Conn
send_failure env c =
    if env.writable then record c { done = end_client socks_failure ∷ c.done } else c

-- The `catch` block.
unfoldable pub on_failure : Env → Option Diagnostic → Conn → Conn
unfolding send_failure
on_failure env d c =
    let reported = record c { done = reports c.phase d ∷ c.done } in
    if c.ready then send_failure env reported else reported

unfoldable pub ended_by : Env → Result (Unit {0}) → Conn → Conn
ended_by env (ok _) c = c
ended_by env (err d) c = on_failure env d c

-- The `finally` block.
unfoldable pub destroy_both : Conn → Conn
destroy_both c = record c { done = destroys ∷ c.done }

abbrev pub accepted : Input → Conn
accepted i = record {
  from_client = i;
  from_upstream = record { chunks = []; ending = Ending.silent };
  ready = false;
  phase = client_greeting;
  done = [];
}

-- handleClient: what is done to the sockets, last first.
unfoldable pub handle_client : Env → Input → List Action
handle_client env i =
    let (r, c) = handshake env (accepted i) in (destroy_both (ended_by env r c)).done
