-- ===== src/Routing/Tests.antt =====
-- Proxies at small examples.
use browserlogin_client.Prelude.{none, some, ◌≡◌, refl, ◌≤◌}
use browserlogin_client.Routing.{
  socks5, ProxyInput, relay, ok, err, Net, protocol_of, format_host, route_by, route_proxy,
  socks4_credentials,
}
use browserlogin_client.Routing.Safety.{Faithful, Addressed, route_proxy-Faithful}

-- A network in which no host is an address.
abbrev names : Net
names = record { is_ip = λ _. 0; url_hostname = λ h. some h }

abbrev upper : ProxyInput
upper = record {
  protocol = "SOCKS5";
  host = "proxy";
  port = 1080;
  username = some "ann";
  password = none;
}

upper_test : route_proxy names upper ≡ ok (relay socks5 upper)
unfolding route_proxy protocol_of format_host route_by
upper_test = refl

socks4_test :
    route_proxy names
      (record { protocol = "socks4"; host = "p"; port = 1; username = none; password = some "" })
    ≡ err socks4_credentials
unfolding route_proxy protocol_of format_host route_by
socks4_test = refl

route_proxy-Faithful_example :
    Faithful upper (relay socks5 upper)
    × Addressed names upper (relay socks5 upper)
    × (1 ≤ 1080)
    × (1080 ≤ 65535)
route_proxy-Faithful_example = route_proxy-Faithful names upper (relay socks5 upper) upper_test
