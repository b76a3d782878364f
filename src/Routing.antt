-- ===== src/Routing.antt =====
-- src/core/proxy/routing.ts: how a profile's proxy is given to the browser. A proxy's fields have their
-- declared types, so the tests of `typeof` hold, and a port is a natural number. Node's `isIP` and `URL`
-- are parameters.
pub mod Safety
mod Tests
use Prim.Native.Char.{code}
use browserlogin_client.Prelude.{
  ℕ, ◌+◌, String, Bool, true, false, not, Option, none, some, List, [], ◌∷◌, ◌&&◌, ◌||◌, ◌==◌, leb,
  ltb, if◌then◌else◌, any, is_some, str_eq, map, append,
}
use browserlogin_client.Recovery.Text.{codes}

pub data Protocol : Type 0 where
  http https socks4 socks5 : Protocol

-- ProxyInput
pub record ProxyInput : Type 0 where
  pub protocol : String
  pub host : String
  pub port : ℕ
  pub username : Option String
  pub password : Option String

-- The text `${protocol}://${host}:${port}`, by its parts.
pub record ServerText : Type 0 where
  pub protocol : Protocol
  pub host : String
  pub port : ℕ

-- DirectProxy
pub data DirectProxy : Type 0 where
  plain : ServerText → DirectProxy
  with_login : ServerText → (username password : Option String) → DirectProxy

-- ProxyRoute, by its mode; a relay's route has the upstream proxy and no proxy for the launch.
pub data ProxyRoute : Type 0 where
  direct : DirectProxy → ProxyRoute
  relay : Protocol → ProxyInput → ProxyRoute

pub data RouteError : Type 0 where
  unsupported_protocol invalid_host invalid_port socks4_credentials : RouteError

pub data Routed {ℓ} (A : Type ℓ) : Type ℓ where
  ok : A → Routed A
  err : RouteError → Routed A

infixl 5 ◌>>=◌ ◌>>◌
abbrev pub ◌>>=◌ {ℓ κ} : {A : Type ℓ} {B : Type κ} → Routed A → (A → Routed B) → Routed B
ok a >>= f = f a
err e >>= f = err e

abbrev pub ◌>>◌ {ℓ} : {B : Type ℓ} → Routed (Unit {0}) → Routed B → Routed B
m >> n = m >>= λ _. n

abbrev pub throw_if : Bool → RouteError → Routed (Unit {0})
throw_if true e = err e
throw_if false e = ok tt

-- `isIP(host)`, and `new URL("http://[host]:1").hostname`, which throws on an address with a zone.
pub record Net : Type 0 where
  pub is_ip : String → ℕ
  pub url_hostname : String → Option String

-- `toLowerCase` where its result can be one of the protocols' letters: the Kelvin sign becomes `k`.
abbrev pub lower : ℕ → ℕ
lower c = if leb b'A' c && leb c b'Z' then c + 32 else if c == 8490 then b'k' else c

pub same_codes : List ℕ → List ℕ → Bool
same_codes [] [] = true
same_codes (a ∷ as_) (b ∷ bs) = a == b && same_codes as_ bs
same_codes _ _ = false

-- `proxy.protocol.toLowerCase()`, if PROTOCOLS has it.
unfoldable pub protocol_of : String → Option Protocol
unfolding same_codes
protocol_of text =
    let cs = map lower (codes text) in
    if same_codes cs (codes "http")
    then some http
    else if same_codes cs (codes "https")
    then some https
    else if same_codes cs (codes "socks4")
    then some socks4
    else if same_codes cs (codes "socks5")
    then some socks5
    else none

abbrev is_delimiter : ℕ → Bool
is_delimiter c = c == b'/' || (c == b'?' || (c == b'#' || (c == b'@' || (c == b'[' || c == b']'))))

abbrev or_invalid_host : Option String → Routed String
or_invalid_host none = err invalid_host
or_invalid_host (some h) = ok h

-- formatHost
unfoldable pub format_host : Net → String → Routed String
format_host net host =
    if str_eq host "" || any is_delimiter (codes host)
    then err invalid_host
    else if net.is_ip host == 6
    then or_invalid_host (net.url_hostname host)
    else if any (λ c. c == b':') (codes host)
    then err invalid_host
    else ok host

abbrev or_unsupported : Option Protocol → Routed Protocol
or_unsupported none = err unsupported_protocol
or_unsupported (some p) = ok p

abbrev pub has_credentials : ProxyInput → Bool
has_credentials p = is_some p.username || is_some p.password

-- `routeProxy` from its choice of a mode on.
unfoldable pub route_by : Protocol → ServerText → ProxyInput → Routed ProxyRoute
route_by socks5 server p = ok (if has_credentials p then relay socks5 p else direct (plain server))
route_by socks4 server p =
    if has_credentials p then err socks4_credentials else ok (direct (plain server))
route_by _ server p = ok (direct (with_login server p.username p.password))

-- routeProxy
unfoldable pub route_proxy : Net → ProxyInput → Routed ProxyRoute
route_proxy net p = do
  protocol ← or_unsupported (protocol_of p.protocol)
  host ← format_host net p.host
  throw_if (ltb p.port 1 || ltb 65535 p.port) invalid_port
  route_by protocol (record { protocol = protocol; host = host; port = p.port }) p
