-- ===== src/Socks/Tests.antt =====
-- The relay at small connections.
use browserlogin_client.Prelude.{◌≤◌, true, none, some, [], ◌∷◌, ◌≡◌, refl, arith, All}
use browserlogin_client.Socks.Stream.{
  ended, silent, Input, one, viewed, first_bytes, read_exact, bytes, read_exact-first_bytes,
}
use browserlogin_client.Socks.Conn.{destroys}
use browserlogin_client.Socks.Login.{
  Relay, Upstream, make_relay, login, utf8, credential, utf8_code,
}
use browserlogin_client.Socks.Login.Parse.{text_bytes, parse_login, make_relay-login}
use browserlogin_client.Socks.Relay.{Env, handle_client}
use browserlogin_client.Socks.Relay.Chunks.{handle_client-chunks}
use browserlogin_client.Socks.Relay.Allowed.{Allowed}
use browserlogin_client.Socks.Relay.Safety.{handle_client-Allowed}
use browserlogin_client.Socks.Relay.Relays.{
  Exchange, IsProper, client_says, upstream_says, relayed, handle_client-relays,
}
use browserlogin_client.Socks.Relay.Reads.{v4, name}
use browserlogin_client.Socks.Tunnel.{
  joined, Settles, pass_all, client_sends, client_ends, client_breaks, upstream_ends,
  pass_all-Settles, pass_all-settles,
}
use browserlogin_client.Socks.Server.{
  new_server, Bounded, serve_all, starts, connects, closes, listens, serve_all-Bounded,
}

abbrev proxy : Upstream
proxy = record { host = "proxy"; port = 1080; username = some "ann"; password = none }

abbrev ann : Relay
ann = record { username = b'a' ∷ b'n' ∷ b'n' ∷ []; password = []; max_connections = 128 }

ann_test : make_relay proxy 128 ≡ some ann
unfolding make_relay credential utf8 utf8_code
ann_test = refl

make_relay-login_example :
    (parse_login (login ann) ≡ some (text_bytes (some "ann"), text_bytes none))
    × (1 ≤ 1080)
    × (1080 ≤ 65535)
    × (1 ≤ 128)
make_relay-login_example = make_relay-login proxy 128 ann ann_test

-- A client that asks for the name `x`, and sends one byte too early and two in the tunnel; the upstream answers with an IPv4 address.
abbrev visit : Exchange
visit = record {
  methods = 2 ∷ 0 ∷ [];
  kind = 3;
  address = 1 ∷ b'x' ∷ [];
  port_high = 0;
  port_low = 80;
  client_early = 7 ∷ [];
  client_stop = silent;
  client_more = 8 ∷ 9 ∷ [];
  later_stop = ended;
  reply_kind = 1;
  reply_address = 127 ∷ 0 ∷ 0 ∷ 1 ∷ [];
  reply_high = 4;
  reply_low = 210;
  upstream_more = [];
  upstream_stop = silent;
}

visit-IsProper : IsProper visit
visit-IsProper = record {
  few = omega arith;
  open_ = refl;
  to = name 3 1 (b'x' ∷ []) refl (omega arith) (omega arith) refl;
  from = v4 1 (127 ∷ 0 ∷ 0 ∷ 1 ∷ []) refl refl;
}

-- The client's bytes in three chunks, and the upstream's in two.
abbrev cut_client : Input
cut_client = record {
  chunks = (5 ∷ []) ∷ (2 ∷ 2 ∷ 0 ∷ 5 ∷ 1 ∷ 0 ∷ []) ∷ (3 ∷ 1 ∷ b'x' ∷ 0 ∷ 80 ∷ 7 ∷ []) ∷ [];
  ending = silent;
}

abbrev cut_later : Input
cut_later = record { chunks = (8 ∷ []) ∷ (9 ∷ []) ∷ []; ending = ended }

abbrev cut_upstream : Input
cut_upstream = record {
  chunks = (5 ∷ 2 ∷ 1 ∷ []) ∷ (0 ∷ 5 ∷ 0 ∷ 0 ∷ 1 ∷ 127 ∷ 0 ∷ 0 ∷ 1 ∷ 4 ∷ 210 ∷ []) ∷ [];
  ending = silent;
}

abbrev network : Env
network = record { relay = ann; connection = some cut_upstream; later = cut_later; writable = true }

read_exact-first_bytes_example :
    viewed (read_exact 2 cut_client) ≡ first_bytes 2 (bytes cut_client) silent
read_exact-first_bytes_example = read_exact-first_bytes 2 cut_client (omega arith)

handle_client-relays_example : handle_client network cut_client ≡ destroys ∷ relayed visit ann
handle_client-relays_example =
    handle_client-relays visit network cut_client cut_upstream visit-IsProper
      (record { content = refl; stop = refl }) (record { content = refl; stop = refl })
      (record { content = refl; stop = refl }) refl

handle_client-chunks_example :
    handle_client network cut_client
    ≡ handle_client
        (record {
          relay = ann;
          connection = some (one (upstream_says visit) silent);
          later = one (8 ∷ 9 ∷ []) ended;
          writable = true;
        })
        (one (client_says visit) silent)
handle_client-chunks_example =
    handle_client-chunks network (some (one (upstream_says visit) silent))
      (record { content = refl; stop = refl }) (one (8 ∷ 9 ∷ []) ended)
      (record { content = refl; stop = refl }) cut_client (one (client_says visit) silent)
      (record { content = refl; stop = refl })

handle_client-Allowed_example :
    All (Allowed ann (bytes cut_upstream)) (handle_client network cut_client)
handle_client-Allowed_example = handle_client-Allowed network cut_client

joined-Settles : Settles joined
joined-Settles = record {
  once = refl;
  spared = λ e. refl;
  half_closed = (refl, refl);
  over = λ e. cc;
  clean = λ e f. cc;
}

pass_all-Settles_example :
    Settles (pass_all (client_sends (1 ∷ []) ∷ client_ends ∷ upstream_ends ∷ []) joined)
pass_all-Settles_example =
    pass_all-Settles (client_sends (1 ∷ []) ∷ client_ends ∷ upstream_ends ∷ []) joined
      joined-Settles

pass_all-settles_example :
    (pass_all (client_ends ∷ client_breaks ∷ upstream_ends ∷ []) joined).settled ≡ true
pass_all-settles_example =
    pass_all-settles (client_ends ∷ client_breaks ∷ upstream_ends ∷ []) joined refl

new_server-Bounded : Bounded 1 (new_server 1)
new_server-Bounded = record { bound = refl; few = omega arith; named = refl; started = λ e. cc }

serve_all-Bounded_example :
    Bounded 1 (serve_all (starts ∷ listens 4000 ∷ connects ∷ connects ∷ closes ∷ []) (new_server 1))
serve_all-Bounded_example =
    serve_all-Bounded (starts ∷ listens 4000 ∷ connects ∷ connects ∷ closes ∷ []) (new_server 1)
      new_server-Bounded
