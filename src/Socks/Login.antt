-- ===== src/Socks/Login.antt =====
-- src/core/proxy/socks-relay.ts: `credential`, the constructor of `Socks5Relay`, and the message that
-- logs in at the upstream proxy.
pub mod Parse
use Prim.Native.Char.{code}
use browserlogin_client.Prelude.{
  ℕ, ◌+◌, ◌/◌, ◌%◌, String, Bool, true, false, not, Option, none, some, List, [], ◌∷◌, ◌++◌, ◌&&◌,
  ◌||◌, ltb, ◌==◌, if◌then◌else◌, length, any, is_some, str_eq,
}

-- Socks5Upstream
pub record Upstream : Type 0 where
  pub host : String
  pub port : ℕ
  pub username : Option String
  pub password : Option String

-- The UTF-8 bytes of a code point.
unfoldable pub utf8_code : ℕ → List ℕ
utf8_code c =
    if ltb c 128
    then c ∷ []
    else if ltb c 2048
    then (192 + c / 64) ∷ (128 + c % 64) ∷ []
    else if ltb c 65536
    then (224 + c / 4096) ∷ (128 + c / 64 % 64) ∷ (128 + c % 64) ∷ []
    else (240 + c / 262144) ∷ (128 + c / 4096 % 64) ∷ (128 + c / 64 % 64) ∷ (128 + c % 64) ∷ []

-- `Buffer.from(value, "utf8")`
unfoldable pub utf8 : String → List ℕ
unfolding utf8_code
utf8 String.[] = []
utf8 (String.◌∷◌ c s) = utf8_code (code c) ++ utf8 s

abbrev pub is_control : ℕ → Bool
is_control b = b == 0 || (ltb b 32 || b == 127)

-- credential; none is a throw.
unfoldable pub credential : Option String → Option (List ℕ)
credential none = some []
credential (some value) =
    let encoded = utf8 value in
    if ltb 255 (length encoded) || any is_control encoded then none else some encoded

-- What the constructor keeps.
pub record Relay : Type 0 where
  pub username : List ℕ
  pub password : List ℕ
  pub max_connections : ℕ

abbrev pub both : Option (List ℕ) → Option (List ℕ) → ℕ → Option Relay
both (some u) (some p) n =
    if ltb n 1 then none else some (record { username = u; password = p; max_connections = n })
both _ _ n = none

-- The constructor of Socks5Relay, with `options.maxConnections ?? 128` put in; none is a throw.
unfoldable pub make_relay : Upstream → ℕ → Option Relay
make_relay u n =
    if str_eq u.host "" || (ltb u.port 1 || ltb 65535 u.port)
    then none
    else if not (is_some u.username) && not (is_some u.password)
    then none
    else both (credential u.username) (credential u.password) n

-- `Buffer.from([n])` keeps the low byte of n.
abbrev pub byte : ℕ → ℕ
byte n = n % 256

-- The request of the username and password login.
abbrev pub login : Relay → List ℕ
login r = 1 ∷ byte (length r.username) ∷ (r.username ++ (byte (length r.password) ∷ r.password))
