-- ===== src/Wrapper/Proxying/Chosen.antt =====
-- Where `proxyTCP` (apple-wrapper/netstack.go) sends a connection.
use folo_xray_apple.Prelude.{
  ℕ, ◌≡◌, refl, true, [], Option, Bytes, is_empty, Bool-cases, inl, inr, ok, if◌then◌else◌,
}
use folo_xray_apple.Folotun.Stream.{Reader}
use folo_xray_apple.Folotun.Endpoint.{tcp}
use folo_xray_apple.Router.Addresses.{is_private_ip}
use folo_xray_apple.Router.Decision.{Env, Router, route}
use folo_xray_apple.Router.Direct.{direct_dial}
use folo_xray_apple.Wrapper.Sniffer.{sniff_domain}
use folo_xray_apple.Wrapper.Sniffer.Domain.{KeepsPrefix, sniff_domain_total}
use folo_xray_apple.Wrapper.Proxying.{
  peek, or_failed, relayed, Dialers, open_outbound, sniff_and_open, proxy_tcp,
}

-- The first bytes, if there are any, give a name or none.
sniffed-name :
    (env : Env)
    → KeepsPrefix env.wide_lower
    → (first : Bytes)
    → (name : Bytes) × ((if is_empty first then ok [] else sniff_domain env.wide_lower first)
        ≡ ok name)
sniffed-name env keeps first = elim (Bool-cases (is_empty first)) [
  | inl e ↦ ([], rw e refl)
  | inr e ↦
      let (name, sniffs) = sniff_domain_total env.wide_lower keeps first in (name, rw e sniffs)
]

-- Where lower case does not make "host:" of less than five bytes, a connection to a private address is
-- dialled directly at that address and port, whatever the client sends and whatever the mode and the
-- rules of the router are: no first bytes bring it to the proxy or block it, and none stop `proxyTCP`.
pub proxy_tcp-private :
    (env : Env) {Address Instance Conn : Type 0} (dialers : Dialers Address Instance Conn)
    (router : Router) (i : Option Instance) (destination : Bytes) (port room : ℕ) (client : Reader)
    (back_room : ℕ) (server : Reader)
    → KeepsPrefix env.wide_lower
    → is_private_ip (env.parse_ip destination) ≡ true
    → proxy_tcp env dialers router i destination port room client back_room server
      ≡ ok (
          relayed room
            (peek client)
            back_room
            server
            (or_failed (direct_dial dialers.dial_context tcp destination port)))
unfolding proxy_tcp sniff_and_open open_outbound route
proxy_tcp-private env dialers router i destination port room client back_room server keeps private =
    let (name, sniffs) = sniffed-name env keeps (peek client).0 in
    rw sniffs (rw (open_outbound, route, private) refl)
