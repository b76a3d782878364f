-- ===== src/Socks/Tunnel.antt =====
-- src/core/proxy/socks-relay.ts: `tunnel`, the two sockets joined after the handshake. Each listener
-- and each piece of data that a pipe moves is one event, so that a run of the tunnel is a list of
-- events. A listener set by `once` hears its event once; a socket sends nothing after its end.
use browserlogin_client.Prelude.{
  ℕ, ◌+◌, Bool, true, false, not, List, [], ◌∷◌, ◌++◌, ◌≡◌, inl, inr, arith, ◌&&◌, ◌||◌,
  if◌then◌else◌, any, Bool-cases,
}

-- The locals of `tunnel`, what was called on the sockets, and what the pipes moved. `resolves` counts
-- the calls of `resolve`.
pub record Tunnel : Type 0 where
  pub client_ended : Bool
  pub upstream_ended : Bool
  pub settled : Bool
  pub client_finished : Bool
  pub upstream_finished : Bool
  pub destroyed : Bool
  pub resolves : ℕ
  pub to_client : List ℕ
  pub to_upstream : List ℕ

abbrev pub joined : Tunnel
joined = record {
  client_ended = false;
  upstream_ended = false;
  settled = false;
  client_finished = false;
  upstream_finished = false;
  destroyed = false;
  resolves = 0;
  to_client = [];
  to_upstream = [];
}

-- finish
unfoldable pub finish : Tunnel → Tunnel
finish t =
    if not t.settled && (t.client_ended && t.upstream_ended)
    then record t { settled = true; resolves = t.resolves + 1 }
    else t

-- fail
unfoldable pub fail : Tunnel → Tunnel
fail t =
    if t.settled
    then t
    else record t { settled = true; destroyed = true; resolves = t.resolves + 1 }

pub data TunnelEvent : Type 0 where
  client_sends upstream_sends : List ℕ → TunnelEvent
  client_ends upstream_ends : TunnelEvent
  client_closes upstream_closes client_breaks upstream_breaks : TunnelEvent

-- The listeners on `end`; `end: false` keeps the pipes from ending the other socket themselves.
unfoldable pub client_end : Tunnel → Tunnel
unfolding finish
client_end t = finish (record t { client_ended = true; upstream_finished = true })

unfoldable pub upstream_end : Tunnel → Tunnel
unfolding finish
upstream_end t = finish (record t { upstream_ended = true; client_finished = true })

-- The listeners on `close`.
unfoldable pub on_close : Tunnel → Tunnel
unfolding finish fail
on_close t = if not t.client_ended || not t.upstream_ended then fail t else finish t

unfoldable pub pass : TunnelEvent → Tunnel → Tunnel
pass (client_sends bs) t =
    if t.client_ended || t.destroyed then t else record t { to_upstream = t.to_upstream ++ bs }
pass (upstream_sends bs) t =
    if t.upstream_ended || t.destroyed then t else record t { to_client = t.to_client ++ bs }
pass client_ends t = if t.client_ended || t.destroyed then t else client_end t
pass upstream_ends t = if t.upstream_ended || t.destroyed then t else upstream_end t
pass client_closes t = on_close t
pass upstream_closes t = on_close t
pass client_breaks t = fail t
pass upstream_breaks t = fail t

unfoldable pub pass_all : List TunnelEvent → Tunnel → Tunnel
pass_all [] t = t
pass_all (e ∷ es) t = pass_all es (pass e t)

abbrev count : Bool → ℕ
count true = 1
count false = 0

-- The promise of the tunnel is resolved once, when it is settled and not before; the sockets are
-- destroyed only then; a side is told of the other's end exactly when the other has ended; and a
-- tunnel whose two sides have ended is settled.
pub record Settles (t : Tunnel) : Type 0 where
  pub once : t.resolves ≡ count t.settled
  pub spared : t.settled ≡ false → t.destroyed ≡ false
  pub half_closed : (t.upstream_finished ≡ t.client_ended) × (t.client_finished ≡ t.upstream_ended)
  pub over : t.client_ended && t.upstream_ended ≡ true → t.settled ≡ true
  pub clean : t.settled ≡ true → t.destroyed ≡ false → t.client_ended && t.upstream_ended ≡ true

pass-Settles : (e : TunnelEvent) (t : Tunnel) → Settles t → Settles (pass e t)
unfolding pass client_end upstream_end on_close finish fail
pass-Settles (client_sends bs) t h = ground arith
pass-Settles _ t h = ground arith

-- Whatever the two sides do, and in whatever order: the promise of the tunnel is resolved once, exactly
-- when the tunnel is settled; the sockets are destroyed only then; each side is told of the other's end
-- exactly when the other has ended; the tunnel is settled once both sides have ended, and is settled
-- without destroying the sockets only then.
pub pass_all-Settles : (es : List TunnelEvent) (t : Tunnel) → Settles t → Settles (pass_all es t)
unfolding pass_all
pass_all-Settles [] t h = h
pass_all-Settles (e ∷ es) t h = pass_all-Settles es (pass e t) (pass-Settles e t h)

-- A socket closes or fails.
abbrev pub stops : TunnelEvent → Bool
stops (client_sends _) = false
stops (upstream_sends _) = false
stops client_ends = false
stops upstream_ends = false
stops _ = true

pass-stays_settled : (e : TunnelEvent) (t : Tunnel) → t.settled ≡ true → (pass e t).settled ≡ true
unfolding pass client_end upstream_end on_close finish fail
pass-stays_settled (client_sends bs) t h = ground arith
pass-stays_settled _ t h = ground arith

pass_all-stays_settled :
    (es : List TunnelEvent) (t : Tunnel) → t.settled ≡ true → (pass_all es t).settled ≡ true
unfolding pass_all
pass_all-stays_settled [] t h = h
pass_all-stays_settled (e ∷ es) t h =
    pass_all-stays_settled es (pass e t) (pass-stays_settled e t h)

pass-settles : (e : TunnelEvent) (t : Tunnel) → stops e ≡ true → (pass e t).settled ≡ true
unfolding pass on_close finish fail
pass-settles (client_sends bs) t h = cc
pass-settles _ t h = ground arith

-- A tunnel one of whose sockets closes or fails at some time is settled in the end, whatever comes before
-- and after.
pub pass_all-settles :
    (es : List TunnelEvent) (t : Tunnel) → any stops es ≡ true → (pass_all es t).settled ≡ true
unfolding pass_all
pass_all-settles [] t h = cc
pass_all-settles (e ∷ es) t h = elim (Bool-cases (stops e)) [
  | inl now ↦ pass_all-stays_settled es (pass e t) (pass-settles e t now)
  | inr later ↦ pass_all-settles es (pass e t) (rw later at h)
]
