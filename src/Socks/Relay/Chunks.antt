-- ===== src/Socks/Relay/Chunks.antt =====
-- The relay on two inputs that differ in how they are cut into chunks.
use browserlogin_client.Prelude.{ℕ, Option, none, some, List, ◌∷◌, ◌≡◌, refl, ap, ◌∙◌, arith}
use browserlogin_client.Socks.Stream.{Input, Diagnostic, Result, ok, err}
use browserlogin_client.Socks.Conn.{connects, destroys, Peer, Conn, act}
use browserlogin_client.Socks.Relay.{
  Env, read_name, read_address, connect_upstream, answer_client, open_tunnel, enter_tunnel,
  forward_request, log_in, reach_upstream, take_request, refuse_methods, accept_greeting, handshake,
  send_failure, on_failure, ended_by, destroy_both, accepted, handle_client,
}
use browserlogin_client.Socks.Relay.Alike.{SameStream, Alike, Agree, agrees}

read_address-Agree : (p : Peer) (n : ℕ) → Agree (read_address p n) (read_address p n)
unfolding read_address read_name
read_address-Agree p n = search agrees depth 12

-- The upstream answers alike.
abbrev pub SameConnection : Option Input → Option Input → Type 0
SameConnection none none = Unit
SameConnection (some i) (some j) = SameStream i j
SameConnection _ _ = ⊥

connect_upstream-Agree :
    (x y : Input) (o p : Option Input)
    → SameStream x y
    → SameConnection o p
    → Agree (connect_upstream x o) (connect_upstream y p)
unfolding connect_upstream
connect_upstream-Agree x y none none l s = record {
  apply = λ c d h. (
    refl,
    record {
      from_client = l;
      from_upstream = h.from_upstream;
      ready = h.ready;
      phase = h.phase;
      done = ap (λ t. connects ∷ t) h.done;
    },
  );
}
connect_upstream-Agree x y (some i) (some j) l s = record {
  apply = λ c d h. (
    refl,
    record {
      from_client = l;
      from_upstream = s;
      ready = h.ready;
      phase = h.phase;
      done = ap (λ t. connects ∷ t) h.done;
    },
  );
}
connect_upstream-Agree x y none (some j) l s = absurd s
connect_upstream-Agree x y (some i) none l s = absurd s

open_tunnel-Agree : Agree open_tunnel open_tunnel
unfolding open_tunnel act
open_tunnel-Agree = record {
  apply = λ c d h. (
    refl,
    record {
      from_client = h.from_client;
      from_upstream = h.from_upstream;
      ready = h.ready;
      phase = h.phase;
      done = cc (h.done, h.from_client.content, h.from_upstream.content);
    },
  );
}

answer_client-Agree :
    (head address port : List ℕ)
    → Agree (answer_client head address port) (answer_client head address port)
unfolding answer_client enter_tunnel
answer_client-Agree head address port = search (agrees, open_tunnel-Agree)

forward_request-Agree :
    (request address port : List ℕ)
    → Agree (forward_request request address port) (forward_request request address port)
unfolding forward_request
forward_request-Agree request address port =
    search (agrees, read_address-Agree, answer_client-Agree) depth 24

module _ (env : Env) (o : Option Input) (same : SameConnection env.connection o) (y : Input)
    (same_later : SameStream env.later y) where
  abbrev recut : Env
  recut = record env { connection = o; later = y }

  log_in-Agree :
      (request address port : List ℕ)
      → Agree (log_in env request address port) (log_in recut request address port)
  unfolding log_in
  log_in-Agree request address port = search (agrees, forward_request-Agree) depth 24

  reconnect-Agree : Agree (connect_upstream env.later env.connection) (connect_upstream y o)
  reconnect-Agree = connect_upstream-Agree env.later y env.connection o same_later same

  reach_upstream-Agree :
      (request address port : List ℕ)
      → Agree (reach_upstream env request address port) (reach_upstream recut request address port)
  unfolding reach_upstream
  reach_upstream-Agree request address port =
      search (agrees, reconnect-Agree, log_in-Agree) depth 24

  take_request-Agree : Agree (take_request env) (take_request recut)
  unfolding take_request
  take_request-Agree = search (agrees, read_address-Agree, reach_upstream-Agree) depth 24

  handshake-Agree : Agree (handshake env) (handshake recut)
  unfolding handshake refuse_methods accept_greeting
  handshake-Agree = search (agrees, take_request-Agree) depth 24

  on_failure-done :
      (d : Option Diagnostic) (b c : Conn)
      → Alike b c
      → (on_failure env d b).done ≡ (on_failure recut d c).done
  unfolding on_failure send_failure
  on_failure-done d b c h = ground (arith, h.ready, h.phase, h.done)

  ended_by-done :
      (r s : Result (Unit {0})) (b c : Conn)
      → r ≡ s
      → Alike b c
      → (ended_by env r b).done ≡ (ended_by recut s c).done
  unfolding ended_by
  ended_by-done (ok _) (ok _) b c e h = h.done
  ended_by-done (err d) (err d') b c e h =
      on_failure-done d b c h ∙ ap (λ x. (on_failure recut x c).done) (cc)
  ended_by-done (ok _) (err _) b c e h = cc
  ended_by-done (err _) (ok _) b c e h = cc

  -- For two clients that send the same bytes and stop alike before the tunnel, and the same bytes and
  -- stop alike once it is open, and two answers of the network that give the same bytes and stop
  -- alike, however each of these streams is cut into chunks, the relay does the same to both of its
  -- sockets, to the last byte, and reports the same. Bytes of the client that go beyond its request but
  -- come before the tunnel are lost either way.
  pub handle_client-chunks :
      (i j : Input) → SameStream i j → handle_client env i ≡ handle_client recut j
  unfolding handle_client destroy_both
  handle_client-chunks i j h =
      let start : Alike (accepted i) (accepted j) = record {
        from_client = h;
        from_upstream = record { content = refl; stop = refl };
        ready = refl;
        phase = refl;
        done = refl;
      } in
      let (e, a) = handshake-Agree.apply (accepted i) (accepted j) start in
      ap (λ t. destroys ∷ t) (ended_by-done _ _ _ _ e a)
