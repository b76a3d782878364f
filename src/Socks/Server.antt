-- ===== src/Socks/Server.antt =====
-- src/core/proxy/socks-relay.ts: `start`, `close` and the connections of `Socks5Relay`. What Node calls
-- back is an event: the server listens or fails to, a client connects, a worker's promise settles.
use browserlogin_client.Prelude.{
  ℕ, ◌+◌, ◌-◌, ◌≤◌, Bool, true, false, not, Option, none, some, List, [], ◌∷◌, ◌≡◌, arith, ◌&&◌,
  ◌==◌, leb, is_some, if◌then◌else◌,
}

-- The fields of the class: `serving` says whether `server` is set, `listening` whether that server
-- takes connections, and `stopping` whether a `close` is under way. `refused` counts the connections
-- that were destroyed at once.
pub record Server : Type 0 where
  pub max_connections : ℕ
  pub serving : Bool
  pub listening : Bool
  pub port : Option ℕ
  pub stopping : Bool
  pub workers : ℕ
  pub refused : ℕ

abbrev pub new_server : ℕ → Server
new_server n = record {
  max_connections = n;
  serving = false;
  listening = false;
  port = none;
  stopping = false;
  workers = 0;
  refused = 0;
}

-- `start` up to its first await; it throws on a relay that runs.
unfoldable pub start : Server → Server
start s = if s.serving then s else record s { serving = true }

-- The server listens, and `server.address()` has its port, unless `close` came first.
unfoldable pub on_listening : ℕ → Server → Server
on_listening port s =
    if s.serving && not s.listening then record s { listening = true; port = some port } else s

-- The listener of the server: `handleClient` runs, or the connection is destroyed.
unfoldable pub on_connection : Server → Server
on_connection s =
    if not s.listening
    then s
    else if leb s.max_connections s.workers
    then record s { refused = s.refused + 1 }
    else record s { workers = s.workers + 1 }

-- The `finally` of a worker.
unfoldable pub worker_done : Server → Server
worker_done s = record s { workers = s.workers - 1 }

-- `close` up to its first await.
unfoldable pub close : Server → Server
close s =
    if s.stopping
    then s
    else record s { stopping = true; serving = false; listening = false; port = none }

-- The end of `close`, once every worker has settled.
unfoldable pub close_done : Server → Server
close_done s = if s.stopping && s.workers == 0 then record s { stopping = false } else s

pub data ServerEvent : Type 0 where
  starts connects settles closes closed : ServerEvent
  listens : ℕ → ServerEvent

unfoldable pub serve : ServerEvent → Server → Server
serve starts s = start s
serve connects s = on_connection s
serve settles s = worker_done s
serve closes s = close s
serve closed s = close_done s
serve (listens port) s = on_listening port s

unfoldable pub serve_all : List ServerEvent → Server → Server
serve_all [] s = s
serve_all (e ∷ es) s = serve_all es (serve e s)

-- No more workers run than the bound; the relay has a port exactly while it listens, and listens only
-- while it is started; the bound stays.
pub record Bounded (n : ℕ) (s : Server) : Type 0 where
  pub bound : s.max_connections ≡ n
  pub few : s.workers ≤ n
  pub named : is_some s.port ≡ s.listening
  pub started : s.listening ≡ true → s.serving ≡ true

serve-Bounded : {n : ℕ} (e : ServerEvent) (s : Server) → Bounded n s → Bounded n (serve e s)
unfolding serve start on_listening on_connection worker_done close close_done
serve-Bounded starts s h = ground arith
serve-Bounded _ s h = ground arith

-- Under every sequence of starts, connections, settled workers and closes no more clients are handled at
-- a time than `maxConnections`, the relay has a port exactly while it listens, and it listens only
-- while it is started.
pub serve_all-Bounded :
    {n : ℕ} (es : List ServerEvent) (s : Server) → Bounded n s → Bounded n (serve_all es s)
unfolding serve_all
serve_all-Bounded [] s h = h
serve_all-Bounded (e ∷ es) s h = serve_all-Bounded es (serve e s) (serve-Bounded e s h)
