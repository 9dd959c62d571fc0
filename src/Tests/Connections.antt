-- ===== src/Tests/Connections.antt =====
-- The connections of apple-wrapper/netstack.go at concrete requests.
use folo_xray_apple.Prelude.{
  arith, map, lower_byte, is_ascii, to_lower, trim_space, is_empty, ◌>>=◌, if◌then◌else◌, ltb,
  length, ℕ, ◌≡◌, refl, true, false, [], ◌∷◌, none, some, text, Bytes, ok, take,
}
use folo_xray_apple.Folotun.Stream.Chunks.{contents}
use folo_xray_apple.Folotun.Stream.{Reader, broke, got}
use folo_xray_apple.Folotun.Endpoint.{Network, tcp}
use folo_xray_apple.Router.Rules.{RouteAction}
use folo_xray_apple.Router.Addresses.{is_private_ip}
use folo_xray_apple.Router.Decision.{Env, Router, new_router, effective_mode, mode_rule}
use folo_xray_apple.Router.Direct.{direct_dial, join_host_port, decimal, has_colon}
use folo_xray_apple.Wrapper.Engine.{default_config}
use folo_xray_apple.Wrapper.Connections.{
  Texts, Pool, Request, Place, arrived, holding, ready, working, System, init_system, take_token,
  start_work, returns, tcp_returns, netstack_address, handler_step, ConnectionSteps, here, later,
  arriving, going_on,
}
use folo_xray_apple.Wrapper.Connections.Balance.{IsBalanced, ConnectionSteps-IsBalanced}
use folo_xray_apple.Wrapper.Connections.Drain.{IsOver, ConnectionSteps-close}
use folo_xray_apple.Wrapper.Sniffer.Domain.{KeepsPrefix, has_prefix-length, sniff_domain_total}
use folo_xray_apple.Wrapper.Sniffer.{sniff_domain}
use folo_xray_apple.Wrapper.Proxying.{
  replies, peek, or_failed, opened, relayed, Dialers, proxy_tcp, sends,
}
use folo_xray_apple.Wrapper.Proxying.Chosen.{proxy_tcp-private}
use folo_xray_apple.Wrapper.Proxying.Relay.{client_bytes, proxy_tcp-relays}
use folo_xray_apple.Tests.Routing.{env}
use folo_xray_apple.Tests.Sniffing.{named_hello, named_hello-IsHello}
use folo_xray_apple.Wrapper.Sniffer.Hello.{wire_hello}
use folo_xray_apple.Wrapper.Proxying.Named.{DecidedBy, opened_by, proxy_tcp-hello}

-- Every text is the address 192.168.0.1, and every address has that text.
abbrev pub home : Bytes
home = text "192.168.0.1"

abbrev pub home_env : Env
home_env = record env { parse_ip = λ s. some (192 ∷ 168 ∷ 0 ∷ 1 ∷ []); wide_lower = λ s. s }

abbrev pub home_text : Texts
home_text = record { address_text = λ a. home; ip_text = λ a. home }

abbrev pub router : Router
router = new_router home_env default_config

abbrev pub request : Network → Request
request network = record {
  network = network;
  local_address = 192 ∷ 168 ∷ 0 ∷ 1 ∷ [];
  local_port = 80;
  creates = true;
  opens = true;
}

abbrev at : Pool → Place → System
at pool place = record { pool = pool; handlers = (request tcp, place) ∷ []; waited = false }

abbrev pool_of : (tokens work : ℕ) → Pool
pool_of tokens work = record { tcp_tokens = tokens; udp_tokens = 0; work = work; closed = false }

-- One TCP connection that is being relayed.
relaying : ConnectionSteps home_env home_text router init_system (at (pool_of 1 1) working)
unfolding handler_step take_token start_work returns tcp_returns netstack_address
relaying =
    later
      (later
        (later (later here (arriving (request tcp)))
          (going_on [] [] (request tcp) arrived refl refl))
        (going_on [] [] (request tcp) holding refl refl))
      (going_on [] [] (request tcp) ready refl refl)

ConnectionSteps-IsBalanced_example : IsBalanced (at (pool_of 1 1) working)
ConnectionSteps-IsBalanced_example =
    ConnectionSteps-IsBalanced home_env home_text router (at (pool_of 1 1) working) relaying

ConnectionSteps-close_example :
    (t : System) × ConnectionSteps home_env home_text router (at (pool_of 1 1) working) t
    × (t.waited ≡ true)
    × IsOver t
    × (t.pool.tcp_tokens ≡ 0)
    × (t.pool.udp_tokens ≡ 0)
ConnectionSteps-close_example =
    ConnectionSteps-close home_env home_text router (at (pool_of 1 1) working) relaying

same-KeepsPrefix : KeepsPrefix (λ s. s)
same-KeepsPrefix s h = has_prefix-length s (text "host:") h

sniff_domain_total_example :
    (name : Bytes) × (sniff_domain (λ s. s) (text "GET / HTTP/1.1") ≡ ok name)
sniff_domain_total_example = sniff_domain_total (λ s. s) same-KeepsPrefix (text "GET / HTTP/1.1")

-- A direct connection is the text that net.Dialer is given.
abbrev dialers : Dialers Bytes ℕ Bytes
dialers = record {
  parse_address = λ s. s;
  core_dial = λ i d. none;
  dial_context = λ network target. some target;
}

abbrev pub client : Reader
client = got (text "GET / HTTP/1.1\r\n") ∷ got (text "Host: a.b\r\n\r\n") ∷ []

abbrev pub server : Reader
server = got (text "HTTP/1.1 200 OK\r\n") ∷ broke ∷ []

private_home : is_private_ip (some (192 ∷ 168 ∷ 0 ∷ 1 ∷ [])) ≡ true
unfolding is_private_ip
private_home = refl

proxy_tcp-private_example :
    proxy_tcp home_env dialers router (some 7) home 80 20 client 99 server
    ≡ ok (
        relayed 20
          (peek client)
          99
          server
          (or_failed (direct_dial dialers.dial_context tcp home 80)))
proxy_tcp-private_example =
    proxy_tcp-private home_env dialers router (some 7) home 80 20 client 99 server same-KeepsPrefix
      private_home

relayed_home :
    proxy_tcp home_env dialers router (some 7) home 80 20 client 99 server
    ≡ ok (
      opened (join_host_port home 80),
      sends 20 (peek client),
      replies 20 (peek client) 99 server,
    )
unfolding direct_dial
relayed_home =
    proxy_tcp-private home_env dialers router (some 7) home 80 20 client 99 server same-KeepsPrefix
      private_home

proxy_tcp-relays_example :
    (sends 20 (peek client) ≡ take 20 (client_bytes client))
    × (replies 20 (peek client) 99 server
        ≡ (if ltb 20 (length (peek client).0) then [] else take 99 (contents server)))
proxy_tcp-relays_example =
    proxy_tcp-relays home_env dialers router (some 7) home 80 20 client 99 server
      (join_host_port home 80) (sends 20 (peek client)) (replies 20 (peek client) 99 server)
      relayed_home

-- The text of a direct target.
direct_target : join_host_port home 80 ≡ text "192.168.0.1:80"
unfolding join_host_port decimal has_colon
direct_target = refl

-- Every text is the address 203.0.113.7.
abbrev pub far_env : Env
far_env = record env { parse_ip = λ s. some (203 ∷ 0 ∷ 113 ∷ 7 ∷ []) }

pub far_public : is_private_ip (some (203 ∷ 0 ∷ 113 ∷ 7 ∷ [])) ≡ false
unfolding is_private_ip
far_public = refl

rule_mode : effective_mode far_env default_config.mode ≡ mode_rule
unfolding effective_mode to_lower trim_space is_empty
rule_mode = refl

proxy_tcp-hello_example :
    (action : RouteAction) × DecidedBy far_env default_config
      (map lower_byte named_hello.name)
      home
      action
    × (proxy_tcp far_env dialers
          (new_router far_env default_config)
          (some 7)
          home
          443
          900
          (got (wire_hello named_hello) ∷ client)
          900
          server
        ≡ (do
          outbound ←
              opened_by far_env dialers (some 7) (map lower_byte named_hello.name) home 443 action
          ok (relayed 900 (peek (got (wire_hello named_hello) ∷ client)) 900 server outbound)))
unfolding is_ascii
proxy_tcp-hello_example =
    proxy_tcp-hello far_env default_config dialers (some 7) home 443 900 named_hello client 900
      server rule_mode far_public named_hello-IsHello refl (λ e. cc) (omega arith)
