-- ===== src/Tests/Flows.antt =====
-- UDP flows and the start of a network stack of apple-wrapper/netstack.go at concrete inputs.
use folo_xray_apple.Prelude.{
  map, ℕ, ◌≡◌, refl, true, false, [], ◌∷◌, none, some, text, ok, take, ◌⊎◌, err,
}
use folo_xray_apple.Folotun.Stream.{got}
use folo_xray_apple.Folotun.Endpoint.{udp}
use folo_xray_apple.Router.Decision.{Router, route, new_router, mode_global, Config}
use folo_xray_apple.Wrapper.Engine.{default_config}
use folo_xray_apple.Wrapper.Connections.{
  netstack_address, udp_returns, netstack_udp_address, max_concurrent_tcp, max_concurrent_udp,
}
use folo_xray_apple.Wrapper.Proxying.Datagrams.{
  PacketConn, connected, unconnected, UdpAddr, udp_conn, proxy_udp, handle_udp, handle_udp-relays,
  udp_buffer_size, datagrams,
}
use folo_xray_apple.Router.Rules.{proxy, direct}
use folo_xray_apple.Router.Addresses.{is_private_ip}
use folo_xray_apple.Router.Decision.Overrides.{route_global}
use folo_xray_apple.Wrapper.Startup.{StackAnswers, StartError, or_rule_mode, new_netstack_runtime}
use folo_xray_apple.Wrapper.Startup.Order.{
  Stage, calls_on, unmade, all_answer, running, new_netstack_runtime-calls_on,
}
use folo_xray_apple.Tests.Connections.{
  home, home_env, home_text, router, request, client, server, far_env, far_public,
}

abbrev global_config : Config
global_config = record default_config { mode = mode_global }

abbrev global_router : Router
global_router = new_router far_env global_config

proxied_far : route far_env global_router [] (far_env.parse_ip home) 80 ≡ proxy
proxied_far = (route_global far_env global_config [] (far_env.parse_ip home) 80 refl).1.1 far_public

-- The address that every text is.
abbrev far : UdpAddr
far = (some (203 ∷ 0 ∷ 113 ∷ 7 ∷ []), 80)

udp_addressed : netstack_udp_address far_env home_text (request udp).local_address 80 ≡ some far
unfolding netstack_udp_address netstack_address
udp_addressed = refl

udp_relays : udp_returns far_env home_text global_router (request udp) ≡ none
unfolding udp_returns
udp_relays = rw (udp_returns, udp_addressed, proxied_far) refl

-- A connected socket of net.Dialer refuses each WriteTo with net.ErrWriteToConnected, the other takes
-- five datagrams.
abbrev refusing : PacketConn → ℕ
refusing connected = 0
refusing unconnected = 5

handle_udp-relays_example :
    (conn : PacketConn) × (((route far_env global_router [] (far_env.parse_ip home) 80 ≡ direct)
        × (conn ≡ connected))
      ⊎ ((route far_env global_router [] (far_env.parse_ip home) 80 ≡ proxy)
          × (conn ≡ unconnected)))
    × (handle_udp far_env home_text global_router (request udp) refusing client 1 server ≡ (
      map (λ d. (far, take udp_buffer_size d)) (take (refusing conn) (datagrams client)),
      map (take udp_buffer_size) (take 1 (datagrams server)),
    ))
handle_udp-relays_example =
    handle_udp-relays far_env home_text global_router (request udp) far refusing client 1 server
      udp_relays udp_addressed

-- So the datagrams of a flow that the router sends direct do not leave.
direct_flow :
    (handle_udp home_env home_text router (request udp) refusing (got (text "?") ∷ []) 5 server).0
    ≡ []
unfolding handle_udp udp_returns udp_conn netstack_udp_address netstack_address proxy_udp route
    is_private_ip
direct_flow = refl

-- A stack that refuses the NIC.
abbrev no_nic_answers : StackAnswers
no_nic_answers = record {
  sets_receive_buffer = true;
  sets_send_buffer = true;
  creates_nic = false;
  sets_promiscuous = true;
  sets_spoofing = true;
}

new_netstack_runtime-calls_on_example :
    let started = new_netstack_runtime {Instance = ℕ} no_nic_answers far_env (some 7) none in
    (stage : Stage) × (calls_on started.0 unmade ≡ some stage)
    × (((all_answer no_nic_answers ≡ true)
          × (stage ≡ running)
          × (started.1
              ≡ ok (record {
                instance_used = 7;
                router = or_rule_mode far_env none;
                tcp_room = max_concurrent_tcp;
                udp_room = max_concurrent_udp;
              })))
        ⊎ ((all_answer no_nic_answers ≡ false)
            × (stage.cancelled ≡ true)
            × (stage.closed ≡ true)
            × ((e : StartError) × (started.1 ≡ err e))))
new_netstack_runtime-calls_on_example = new_netstack_runtime-calls_on no_nic_answers far_env 7 none
