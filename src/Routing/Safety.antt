-- ===== src/Routing/Safety.antt =====
-- Where the credentials of a proxy go.
use browserlogin_client.Prelude.{
  ◌≤◌, true, false, Option, none, some, ◌≡◌, refl, ◌⊎◌, inl, inr, arith, ◌||◌, ltb, is_some,
  Bool-cases, List, [], ◌∷◌, map, ℕ, String, if-cases,
}
use mathlib.Core.Path.{subst}
use browserlogin_client.Recovery.Text.{codes}
use browserlogin_client.Routing.{
  same_codes, lower, Protocol, http, https, socks4, socks5, ProxyInput, ServerText, plain,
  with_login, ProxyRoute, direct, relay, invalid_port, Routed, ok, err, Net, protocol_of,
  format_host, has_credentials, route_by, route_proxy, or_unsupported, throw_if, ◌>>=◌,
}

abbrev pub name_of : Protocol → String
name_of http = "http"
name_of https = "https"
name_of socks4 = "socks4"
name_of socks5 = "socks5"

-- The protocol is the one that the input spells, in letters of either case.
abbrev pub Spells : String → Protocol → Type 0
Spells text k = map lower (codes text) ≡ codes (name_of k)

-- The browser gets a proxy's credentials only with an HTTP or HTTPS proxy, and then just those; the relay
-- gets the whole of a SOCKS5 proxy that has some; a proxy that is given without a login has none.
abbrev pub Faithful : ProxyInput → ProxyRoute → Type 0
Faithful p (direct (plain server)) =
    (p.username ≡ none)
    × (p.password ≡ none)
    × ((server.protocol ≡ socks4) ⊎ (server.protocol ≡ socks5))
    × Spells p.protocol server.protocol
Faithful p (direct (with_login server u w)) =
    (u ≡ p.username)
    × (w ≡ p.password)
    × ((server.protocol ≡ http) ⊎ (server.protocol ≡ https))
    × Spells p.protocol server.protocol
Faithful p (relay protocol q) =
    (protocol ≡ socks5) × Spells p.protocol protocol × (q ≡ p) × (has_credentials p ≡ true)

-- The browser's proxy stands at the host and port of the input, in the form of `formatHost`.
abbrev pub Addressed : Net → ProxyInput → ProxyRoute → Type 0
Addressed net p (direct (plain server)) =
    (format_host net p.host ≡ ok server.host) × (server.port ≡ p.port)
Addressed net p (direct (with_login server _ _)) =
    (format_host net p.host ≡ ok server.host) × (server.port ≡ p.port)
Addressed net p (relay _ _) = Unit

no_credentials : (u w : Option String) → is_some u || is_some w ≡ false → (u ≡ none) × (w ≡ none)
no_credentials none none h = (refl, refl)
no_credentials none (some w) h = cc
no_credentials (some u) w h = cc

abbrev Sound : Net → ProxyInput → ProxyRoute → Type 0
Sound net p r = Faithful p r × Addressed net p r

of_ok : (P : ProxyRoute → Type 0) (a b : ProxyRoute) → ok a ≡ ok b → P a → P b
of_ok P a b e h = let e' : a ≡ b = cc in subst P e' h

module _ (net : Net) (p : ProxyInput) (server : ServerText) (r : ProxyRoute) where
  route_by-Sound :
      (k : Protocol)
      → server.protocol ≡ k
      → Spells p.protocol k
      → format_host net p.host ≡ ok server.host
      → server.port ≡ p.port
      → route_by k server p ≡ ok r
      → Sound net p r
  unfolding route_by
  route_by-Sound http s t h n e = of_ok (Sound net p) _ r e ((refl, refl, inl s, rw s t), (h, n))
  route_by-Sound https s t h n e = of_ok (Sound net p) _ r e ((refl, refl, inr s, rw s t), (h, n))
  route_by-Sound socks4 s t h n e = elim (Bool-cases (has_credentials p)) [
    | inl some_ ↦ cc (rw some_ at e)
    | inr bare ↦
        let (u, w) = no_credentials p.username p.password bare in
        of_ok (Sound net p) _ r (rw bare at e) ((u, w, inl s, rw s t), (h, n))
  ]
  route_by-Sound socks5 s t h n e = elim (Bool-cases (has_credentials p)) [
    | inl some_ ↦ of_ok (Sound net p) _ r (rw some_ at e) ((refl, t, refl, some_), tt)
    | inr bare ↦
        let (u, w) = no_credentials p.username p.password bare in
        of_ok (Sound net p) _ r (rw bare at e) ((u, w, inr s, rw s t), (h, n))
  ]

same_codes-eq : (as_ bs : List ℕ) → same_codes as_ bs ≡ true → as_ ≡ bs
unfolding same_codes
same_codes-eq [] [] h = refl
same_codes-eq [] (b ∷ bs) h = cc
same_codes-eq (a ∷ as_) [] h = cc
same_codes-eq (a ∷ as_) (b ∷ bs) h =
    let rest = same_codes-eq as_ bs (ground (arith, h)) in
    let first : a ≡ b = ground (arith, h) in cc

protocol_of-Spells : (text : String) (k : Protocol) → protocol_of text ≡ some k → Spells text k
unfolding protocol_of
protocol_of-Spells text k e =
    if-cases Known (same_codes (map lower (codes text)) (codes "http")) _ _ (spelt http)
      (λ _.
        if-cases Known (same_codes (map lower (codes text)) (codes "https")) _ _ (spelt https) (λ _.
          if-cases Known (same_codes (map lower (codes text)) (codes "socks4")) _ _ (spelt socks4)
            (λ _.
              if-cases Known (same_codes (map lower (codes text)) (codes "socks5")) _ _
                (spelt socks5) (λ _ h. cc h))))
      e
  where
    Known : Option Protocol → Type 0
    Known o = o ≡ some k → Spells text k

    spelt :
        (j : Protocol)
        → same_codes (map lower (codes text)) (codes (name_of j)) ≡ true
        → Known (some j)
    spelt j s h = let same : j ≡ k = cc in subst (Spells text) same (same_codes-eq _ _ s)

bind-ok :
    {A B : Type 0} (m : Routed A) (f : A → Routed B) {b : B}
    → (m >>= f) ≡ ok b
    → (a : A) × (m ≡ ok a) × (f a ≡ ok b)
bind-ok (ok a) f h = (a, refl, h)
bind-ok (err e) f h = cc

known_protocol :
    (text : String) (k : Protocol) → or_unsupported (protocol_of text) ≡ ok k → Spells text k
known_protocol text k e = known (protocol_of text) refl e
  where
    known : (o : Option Protocol) → protocol_of text ≡ o → or_unsupported o ≡ ok k → Spells text k
    known none e h = cc
    known (some j) e h = protocol_of-Spells text k (cc)

-- A proxy that is routed has a port of 1 to 65535 and, if it is given to the browser, the host that
-- `formatHost` makes of its own. The browser is given a login only with an HTTP or HTTPS proxy, and then the
-- proxy's own; a SOCKS5 proxy with credentials goes to the relay whole; and a SOCKS proxy that is
-- given to the browser has no credentials. The protocol is always the one that the proxy's text spells.
pub route_proxy-Faithful :
    (net : Net) (p : ProxyInput) (r : ProxyRoute)
    → route_proxy net p ≡ ok r
    → Faithful p r × Addressed net p r × (1 ≤ p.port) × (p.port ≤ 65535)
unfolding route_proxy
route_proxy-Faithful net p r e =
    let (k, known, e1) = bind-ok (or_unsupported (protocol_of p.protocol)) _ e in
    let (host, formed, e2) = bind-ok (format_host net p.host) _ e1 in
    let (_, checked, e3) =
      bind-ok (throw_if (ltb p.port 1 || ltb 65535 p.port) invalid_port) _ e2 in
    let (faithful, addressed) =
      route_by-Sound net p (record { protocol = k; host = host; port = p.port }) r k refl
        (known_protocol p.protocol k known) formed refl e3 in
    (faithful, addressed, ground (arith, checked), ground (arith, checked))
