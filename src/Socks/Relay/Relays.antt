-- ===== src/Socks/Relay/Relays.antt =====
-- The relay on a client and an upstream that keep to the protocol.
use browserlogin_client.Prelude.{
  ℕ, ◌≤◌, true, some, List, [], ◌∷◌, ◌++◌, ◌≡◌, refl, ap, ◌∙◌, arith, ◌==◌, length, any,
}
use browserlogin_client.Socks.Stream.{Ending, Input, ok, one}
use browserlogin_client.Socks.Conn.{
  client_request, upstream_method, Action, to_client, to_upstream, connects, destroys, tunnels,
  client, upstream, Conn, input_of, with_input, act, enter, protocol_ready,
}
use browserlogin_client.Socks.Relay.Alike.{SameStream}
use browserlogin_client.Socks.Relay.Chunks.{SameConnection, handle_client-chunks}
use browserlogin_client.Socks.Login.{Relay, login}
use browserlogin_client.Socks.Relay.{
  Env, log_in, reach_upstream, take_request, accept_greeting, handshake, ended_by, destroy_both,
  accepted, handle_client, method_offer,
}
use browserlogin_client.Socks.Relay.Reads.{
  IsAddress, read-one, read_address-one, then_, passes, forward_request-one, connect_upstream-some,
}

-- What passes in a relayed connection. The upstream chooses the login and confirms it before its reply.
pub record Exchange : Type 0 where
  pub methods : List ℕ
  pub kind : ℕ
  pub address : List ℕ
  pub port_high : ℕ
  pub port_low : ℕ
  pub client_early : List ℕ
  pub client_stop : Ending
  pub client_more : List ℕ
  pub later_stop : Ending
  pub reply_kind : ℕ
  pub reply_address : List ℕ
  pub reply_high : ℕ
  pub reply_low : ℕ
  pub upstream_more : List ℕ
  pub upstream_stop : Ending

module _ (x : Exchange) where
  open x use {
    methods, kind, address, port_high, port_low, client_early, client_stop, client_more, later_stop,
    reply_kind, reply_address, reply_high, reply_low, upstream_more, upstream_stop,
  }

  -- A CONNECT request with its address and port, and a successful reply with its own.
  abbrev pub request_bytes : List ℕ
  request_bytes = 5 ∷ 1 ∷ 0 ∷ kind ∷ (address ++ (port_high ∷ port_low ∷ []))

  abbrev pub reply_bytes : List ℕ
  reply_bytes = 5 ∷ 0 ∷ 0 ∷ reply_kind ∷ (reply_address ++ (reply_high ∷ reply_low ∷ []))

  abbrev request_then : List ℕ
  request_then = 5 ∷ 1 ∷ 0 ∷ kind ∷ (address ++ (port_high ∷ port_low ∷ client_early))

  abbrev reply_then : List ℕ
  reply_then = 5 ∷ 0 ∷ 0 ∷ reply_kind ∷ (reply_address ++ (reply_high ∷ reply_low ∷ upstream_more))

  -- The client's bytes before the tunnel, and the upstream's.
  abbrev pub client_says : List ℕ
  client_says = 5 ∷ length methods ∷ (methods ++ request_then)

  abbrev pub upstream_says : List ℕ
  upstream_says = 5 ∷ 2 ∷ 1 ∷ 0 ∷ reply_then

  -- The methods are a byte's count, and one is that no login is needed; the addresses are well formed.
  pub record IsProper : Type 0 where
    pub few : length methods ≤ 255
    pub open_ : any (λ b. b == 0) methods ≡ true
    pub to : IsAddress kind address
    pub from : IsAddress reply_kind reply_address

  -- What is done after the greeting was answered, last first.
  abbrev pub relayed : Relay → List Action
  relayed r =
      tunnels client_more upstream_more
      ∷ to_client reply_bytes
      ∷ to_upstream request_bytes
      ∷ to_upstream (login r)
      ∷ to_upstream method_offer
      ∷ connects
      ∷ to_client (5 ∷ 0 ∷ [])
      ∷ []

  module _ (env : Env) (p : IsProper) (l : env.later ≡ one client_more later_stop) where
    log_in-one :
        (c : Conn)
        → c.from_client ≡ one client_more later_stop
        → c.from_upstream ≡ one (1 ∷ 0 ∷ reply_then) upstream_stop
        → c.done ≡ to_upstream method_offer ∷ connects ∷ to_client (5 ∷ 0 ∷ []) ∷ []
        → (d : Conn) × (log_in env (5 ∷ 1 ∷ 0 ∷ kind ∷ []) address (port_high ∷ port_low ∷ []) c
            ≡ (ok tt, d))
          × (d.done ≡ relayed env.relay)
    unfolding log_in enter act input_of with_input
    log_in-one c cl up past = (
      _,
      then_ _ _ refl (
          then_ _ _ refl (
            then_ _ _
              (read-one upstream 2 (1 ∷ 0 ∷ []) reply_then upstream_stop _ refl (omega arith) up)
              (passes _ _ _ refl (
                forward_request-one env (5 ∷ 1 ∷ 0 ∷ kind ∷ []) address (port_high ∷ port_low ∷ [])
                  reply_kind reply_high reply_low reply_address upstream_more client_more later_stop
                  upstream_stop _ p.from cl refl)))),
      cc past,
    )

    reach_upstream-one :
        (c : Conn)
        → env.connection ≡ some (one upstream_says upstream_stop)
        → c.done ≡ to_client (5 ∷ 0 ∷ []) ∷ []
        → (d : Conn) × (reach_upstream env
              (5 ∷ 1 ∷ 0 ∷ kind ∷ [])
              address
              (port_high ∷ port_low ∷ [])
              c
            ≡ (ok tt, d))
          × (d.done ≡ relayed env.relay)
    unfolding reach_upstream enter act input_of with_input
    reach_upstream-one c conn past =
        let (d, run, done) =
          log_in-one
            (record c {
              phase = upstream_method;
              from_client = env.later;
              from_upstream = one (1 ∷ 0 ∷ reply_then) upstream_stop;
              done = to_upstream method_offer ∷ connects ∷ c.done;
            })
            l refl (cc past) in
        (
          d,
          then_ _ _ refl (
              then_ _ _ (connect_upstream-some env.later env.connection _ _ conn) (
                then_ _ _ refl (
                  then_ _ _ refl (
                    then_ _ _
                      (read-one upstream 2 (5 ∷ 2 ∷ []) (1 ∷ 0 ∷ reply_then) upstream_stop _ refl
                        (omega arith) refl)
                      (passes _ _ _ refl run))))),
          done,
        )

    take_request-one :
        (c : Conn)
        → env.connection ≡ some (one upstream_says upstream_stop)
        → c.from_client ≡ one request_then client_stop
        → c.done ≡ to_client (5 ∷ 0 ∷ []) ∷ []
        → (d : Conn) × (take_request env c ≡ (ok tt, d)) × (d.done ≡ relayed env.relay)
    unfolding take_request input_of with_input
    take_request-one c conn cl past =
        let (d, run, done) =
          reach_upstream-one (record c { from_client = one client_early client_stop }) conn past in
        (
          d,
          then_ _ _
              (read-one client 4 (5 ∷ 1 ∷ 0 ∷ kind ∷ []) _ client_stop c refl (omega arith) cl)
              (passes _ _ _ refl (
                then_ _ _ (read_address-one client kind address _ client_stop _ p.to refl) (
                  then_ _ _
                    (read-one client 2 (port_high ∷ port_low ∷ []) client_early client_stop _ refl
                      (omega arith) refl)
                    run))),
          done,
        )

    handshake-one :
        env.connection ≡ some (one upstream_says upstream_stop)
        → (d : Conn) × (handshake env (accepted (one client_says client_stop)) ≡ (ok tt, d))
          × (d.done ≡ relayed env.relay)
    unfolding handshake accept_greeting protocol_ready enter act input_of with_input
    handshake-one conn =
        let (d, run, done) =
          take_request-one
            (record (accepted (one request_then client_stop)) {
              ready = true;
              phase = client_request;
              done = to_client (5 ∷ 0 ∷ []) ∷ [];
            })
            conn refl refl in
        (
          d,
          then_ _ _
              (read-one client 2 (5 ∷ length methods ∷ []) _ client_stop _ refl (omega arith) refl)
              (passes _ _ _ refl (
                then_ _ _
                  (read-one client (length methods) methods request_then client_stop _ refl
                    (omega (arith, p.few)) refl)
                  (rw p.open_ (then_ _ _ refl (then_ _ _ refl (then_ _ _ refl run)))))),
          done,
        )

    handle_client-one :
        env.connection ≡ some (one upstream_says upstream_stop)
        → handle_client env (one client_says client_stop) ≡ destroys ∷ relayed env.relay
    unfolding handle_client destroy_both ended_by
    handle_client-one conn =
        let (d, run, done) = handshake-one conn in rw run (ap (λ t. destroys ∷ t) done)

-- When the client greets with at least one method that is no login and sends a CONNECT request, and
-- the upstream chooses the login, confirms it and replies with success, the relay, however the
-- streams are cut, writes to the upstream exactly its offer, the login and the client's request, and
-- to the client exactly that no login is needed and the upstream's reply; then it passes on what the
-- client sends once the tunnel is open and all that the upstream sends after its reply, and destroys
-- both when they end. What the client sends after its request and before the tunnel is lost.
pub handle_client-relays :
    (x : Exchange) (env : Env) (i j : Input)
    → IsProper x
    → SameStream i (one (client_says x) x.client_stop)
    → SameStream env.later (one x.client_more x.later_stop)
    → SameStream j (one (upstream_says x) x.upstream_stop)
    → env.connection ≡ some j
    → handle_client env i ≡ destroys ∷ relayed x env.relay
handle_client-relays x env i j p ci cl uj conn =
    let whole : Input = one (upstream_says x) x.upstream_stop in
    let rest : Input = one x.client_more x.later_stop in
    let same : SameConnection env.connection (some whole) = rw conn uj in
    handle_client-chunks env (some whole) same rest cl i (one (client_says x) x.client_stop) ci
    ∙ handle_client-one x (record env { connection = some whole; later = rest }) p refl refl
