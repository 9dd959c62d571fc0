-- ===== src/Wrapper/Proxying/Named.antt =====
-- Where `proxyTCP` (apple-wrapper/netstack.go) sends a TLS client that names a host.
use folo_xray_apple.Prelude.{
  ℕ, ◌≤◌, ◌≡◌, ◌≢◌, refl, ap, ◌∙◌, ◌⊎◌, true, false, [], ◌∷◌, map, Bytes, lower_byte, is_ascii,
  is_empty, length, take_whole, ok, ◌>>=◌, Option, Outcome,
}
use folo_xray_apple.Folotun.Stream.{Reader, got}
use folo_xray_apple.Router.Addresses.{is_private_ip}
use folo_xray_apple.Router.Rules.{RouteAction, proxy, direct, block}
use folo_xray_apple.Router.Direct.{direct_dial}
use folo_xray_apple.Folotun.Endpoint.{tcp}
use folo_xray_apple.Folotun.Endpoint.Dial.{dial_tcp}
use folo_xray_apple.Router.Decision.{
  Env, Config, Router, new_router, route, effective_mode, mode_rule,
}
use folo_xray_apple.Router.Decision.Routing.{looked_up, RuledBy, NotRuled, route_rule_mode}
use folo_xray_apple.Router.Decision.AddressRules.{address_action}
use folo_xray_apple.Wrapper.Sniffer.{Miss, sniff_domain}
use folo_xray_apple.Wrapper.Sniffer.Hello.{Hello, wire_hello, IsHello}
use folo_xray_apple.Wrapper.Sniffer.Hello.Found.{filled_lower, sniff_domain-finds}
use folo_xray_apple.Wrapper.Proxying.{
  peek_size, peek, relayed, Dialers, Opened, blocked, or_failed, tunnelled, open_as, open_outbound,
  sniff_and_open, proxy_tcp,
}

-- How the router decides for a domain in rule mode: by the longest suffix with a rule, or, where
-- there is none, by the custom address rules and the Chinese ranges.
abbrev pub DecidedBy : Env → Config → Bytes → Bytes → RouteAction → Type 0
DecidedBy env cfg domain destination action =
    RuledBy env cfg (looked_up env domain) action
    ⊎ (NotRuled env cfg (looked_up env domain)
        × (action ≡ address_action env cfg (env.parse_ip destination)))

-- Where a connection to `destination` goes whose client named a host: nowhere, to the address, or
-- through the engine to the name.
abbrev pub opened_by :
    Env
    → {Address Instance Conn : Type 0} → Dialers Address Instance Conn
    → Option Instance
    → (name destination : Bytes) → ℕ
    → RouteAction
    → Outcome Miss (Opened Conn)
opened_by env dialers i name destination port block = ok blocked
opened_by env dialers i name destination port direct =
    ok (or_failed (direct_dial dialers.dial_context tcp destination port))
opened_by env dialers i name destination port proxy =
    tunnelled (dial_tcp env.parse_ip dialers.parse_address dialers.core_dial i name port)

open_as-opened_by :
    (env : Env) {Address Instance Conn : Type 0} (dialers : Dialers Address Instance Conn)
    (i : Option Instance) (name destination : Bytes) (port : ℕ) (action : RouteAction)
    → is_empty name ≡ false
    → open_as env dialers i name destination port action
      ≡ opened_by env dialers i name destination port action
unfolding open_as
open_as-opened_by env dialers i name destination port block filled = refl
open_as-opened_by env dialers i name destination port direct filled = refl
open_as-opened_by env dialers i name destination port proxy filled = rw filled refl

-- The first Read of a client whose hello fits the buffer.
peek-hello :
    (hello : Bytes) (r : Reader) → length hello ≤ peek_size → (peek (got hello ∷ r)).0 ≡ hello
unfolding peek
peek-hello hello r fits = take_whole peek_size hello fits

-- The outbound for first bytes with a name.
sniff_and_open-named :
    (env : Env) {Address Instance Conn : Type 0} (dialers : Dialers Address Instance Conn)
    (router : Router) (i : Option Instance) (destination : Bytes) (port : ℕ) (first name : Bytes)
    → is_empty first ≡ false
    → is_empty name ≡ false
    → sniff_domain env.wide_lower first ≡ ok name
    → sniff_and_open env dialers router i destination port first
      ≡ opened_by env dialers i name destination port
          (route env router name (env.parse_ip destination) port)
unfolding sniff_and_open open_outbound
sniff_and_open-named env dialers router i destination port first name some_given named sniffs =
    rw (some_given, sniffs)
      (open_as-opened_by env dialers i name destination port
        (route env router name (env.parse_ip destination) port) named)

-- In rule mode a TLS client that names an ASCII host in a ClientHello that the first Read gets
-- whole, to a destination that is not private, is sent where the rule of the longest suffix of that
-- name says, or, where no suffix of it has a rule, where the custom address rules and the Chinese
-- ranges say: nowhere, to the address, or through the engine to the name in small letters.
pub proxy_tcp-hello :
    (env : Env) (cfg : Config) {Address Instance Conn : Type 0}
    (dialers : Dialers Address Instance Conn) (i : Option Instance) (destination : Bytes)
    (port room : ℕ) (h : Hello) (r : Reader) (back_room : ℕ) (server : Reader)
    → effective_mode env cfg.mode ≡ mode_rule
    → is_private_ip (env.parse_ip destination) ≡ false
    → IsHello h
    → is_ascii h.name ≡ true
    → h.name ≢ []
    → length (wire_hello h) ≤ peek_size
    → (action : RouteAction) × DecidedBy env cfg (map lower_byte h.name) destination action
      × (proxy_tcp env dialers
            (new_router env cfg)
            i
            destination
            port
            room
            (got (wire_hello h) ∷ r)
            back_room
            server
          ≡ (do
            outbound ← opened_by env dialers i (map lower_byte h.name) destination port action
            ok (relayed room (peek (got (wire_hello h) ∷ r)) back_room server outbound)))
unfolding proxy_tcp
proxy_tcp-hello env cfg dialers i destination port room h r back_room server mode public is ascii ne
      fits =
    let name : Bytes = map lower_byte h.name in
    let router : Router = new_router env cfg in
    let action : RouteAction = route env router name (env.parse_ip destination) port in
    let first = peek-hello (wire_hello h) r fits in
    let sniffs = sniff_domain-finds env.wide_lower h is ascii ne in
    let filled : is_empty (wire_hello h) ≡ false = unfold is_empty in refl in
    (
      action,
      route_rule_mode env cfg name (env.parse_ip destination) port mode public,
      ap
          (λ o. o >>= λ outbound.
            ok (relayed room (peek (got (wire_hello h) ∷ r)) back_room server outbound))
          (ap (sniff_and_open env dialers router i destination port) first
            ∙ sniff_and_open-named env dialers router i destination port (wire_hello h) name filled
                (filled_lower h.name ne) sniffs),
    )
