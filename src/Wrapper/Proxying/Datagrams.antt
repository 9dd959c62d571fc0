-- ===== src/Wrapper/Proxying/Datagrams.antt =====
-- apple-wrapper/netstack.go: the relays of `proxyUDP` and `handleUDP` around them. A `got` is the
-- datagram of one ReadFrom, a `broke` a ReadFrom that fails, as it does after 30 seconds of silence and
-- once the other relay has ended and both connections are closed.
use folo_xray_apple.Prelude.{
  ℕ, zero, suc, ◌≡◌, refl, arith, List, [], ◌∷◌, Option, none, some, map, take, Bytes, ap, ◌⊎◌, inl,
  inr,
}
use folo_xray_apple.Folotun.Stream.{Reader, got, broke}
use folo_xray_apple.Router.Rules.{RouteAction, proxy, direct, block}
use folo_xray_apple.Router.Decision.{Env, Router, route}
use folo_xray_apple.Router.Ip.{Ip}
use folo_xray_apple.Wrapper.Connections.{Texts, Request, udp_returns, netstack_udp_address}

-- The outbound of `handleUDP`: what net.Dialer connected to the destination, which is a net.PacketConn, so
-- that `handleUDP` does not come to net.ListenPacket, or the unconnected one of the engine.
pub data PacketConn : Type 0 where
  connected unconnected : PacketConn

abbrev pub UdpAddr : Type 0
UdpAddr = Option Ip × ℕ

abbrev pub udp_buffer_size : ℕ
udp_buffer_size = 4096

-- The first goroutine of `proxyUDP`: what leaves of what the client sends, and where to, through a
-- connection of which `room` calls of WriteTo end without an error before one fails.
unfoldable pub proxy_udp : UdpAddr → ℕ → Reader → List (UdpAddr × Bytes)
proxy_udp address room [] = []
proxy_udp address room (broke ∷ r) = []
proxy_udp address zero (got d ∷ r) = []
proxy_udp address (suc room) (got d ∷ r) =
    (address, take udp_buffer_size d) ∷ proxy_udp address room r

-- The second: what the client gets of what comes back, if it takes `room` datagrams.
unfoldable pub udp_replies : ℕ → Reader → List Bytes
udp_replies room [] = []
udp_replies room (broke ∷ r) = []
udp_replies zero (got d ∷ r) = []
udp_replies (suc room) (got d ∷ r) = take udp_buffer_size d ∷ udp_replies room r

module _ (env : Env) (texts : Texts) (router : Router) where
  unfoldable pub udp_conn : Request → PacketConn
  udp_conn r =
      elim (route env router [] (env.parse_ip (texts.address_text r.local_address)) r.local_port) [
        | direct ↦ connected
        | proxy ↦ unconnected
        | block ↦ unconnected
      ]

  -- `handleUDP` and the relays that it starts; `room` is that of each kind of connection.
  unfoldable pub handle_udp :
      Request → (PacketConn → ℕ) → Reader → ℕ → Reader → List (UdpAddr × Bytes) × List Bytes
  unfolding udp_conn proxy_udp udp_replies
  handle_udp r room client back_room server = elim (udp_returns env texts router r) [
    | some e ↦ ([], [])
    | none ↦ elim (netstack_udp_address env texts r.local_address r.local_port) [
      | none ↦ ([], [])
      | some destination ↦
          (proxy_udp destination (room (udp_conn r)) client, udp_replies back_room server)
    ]
  ]

-- The datagrams that are read before a ReadFrom fails.
abbrev pub datagrams : Reader → List Bytes
datagrams [] = []
datagrams (broke ∷ r) = []
datagrams (got d ∷ r) = d ∷ datagrams r

take_nil {ℓ} : {A : Type ℓ} (n : ℕ) → take {A = A} n [] ≡ []
take_nil zero = refl
take_nil (suc n) = refl

proxy_udp-take :
    (address : UdpAddr) (room : ℕ) (r : Reader)
    → proxy_udp address room r
      ≡ map (λ d. (address, take udp_buffer_size d)) (take room (datagrams r))
unfolding proxy_udp
proxy_udp-take address room [] = rw (take_nil {A = Bytes} room) refl
proxy_udp-take address room (broke ∷ r) = rw (take_nil {A = Bytes} room) refl
proxy_udp-take address zero (got d ∷ r) = refl
proxy_udp-take address (suc room) (got d ∷ r) =
    ap ((address, take udp_buffer_size d) ∷◌) (proxy_udp-take address room r)

udp_replies-take :
    (room : ℕ) (r : Reader)
    → udp_replies room r ≡ map (take udp_buffer_size) (take room (datagrams r))
unfolding udp_replies
udp_replies-take room [] = rw (take_nil {A = Bytes} room) refl
udp_replies-take room (broke ∷ r) = rw (take_nil {A = Bytes} room) refl
udp_replies-take zero (got d ∷ r) = refl
udp_replies-take (suc room) (got d ∷ r) = ap (take udp_buffer_size d ∷◌) (udp_replies-take room r)

route_action-cases : (a : RouteAction) → (a ≡ direct) ⊎ ((a ≡ proxy) ⊎ (a ≡ block))
route_action-cases direct = inl refl
route_action-cases proxy = inr (inl refl)
route_action-cases block = inr (inr refl)

-- A flow that is relayed is not blocked, and its connection is that of its routing decision.
udp_conn-decided :
    (env : Env) (texts : Texts) (router : Router) (r : Request)
    → udp_returns env texts router r ≡ none
    → ((route env router [] (env.parse_ip (texts.address_text r.local_address)) r.local_port
          ≡ direct)
        × (udp_conn env texts router r ≡ connected))
      ⊎ ((route env router [] (env.parse_ip (texts.address_text r.local_address)) r.local_port
            ≡ proxy)
          × (udp_conn env texts router r ≡ unconnected))
unfolding udp_returns udp_conn
udp_conn-decided env texts router r relays =
    elim (route_action-cases
      (route env router [] (env.parse_ip (texts.address_text r.local_address)) r.local_port)) [
        | inl e ↦ inl (e, rw (udp_conn, e) refl)
        | inr (inl e) ↦ inr (e, rw (udp_conn, e) refl)
        | inr (inr e) ↦ absurd (ground (arith, e, relays))
      ]

-- Through a UDP flow that is relayed the datagrams of the client go to its destination and those that
-- come back to the client, each at most 4096 bytes of it, in order, until a ReadFrom fails and as far as
-- the other side takes them: that of the client through a connected socket if the router sends the flow
-- direct, through one of the engine if it sends it to the proxy.
pub handle_udp-relays :
    (env : Env) (texts : Texts) (router : Router) (r : Request) (destination : UdpAddr)
    (room : PacketConn → ℕ) (client : Reader) (back_room : ℕ) (server : Reader)
    → udp_returns env texts router r ≡ none
    → netstack_udp_address env texts r.local_address r.local_port ≡ some destination
    → ((conn : PacketConn) × (((route env router []
                (env.parse_ip (texts.address_text r.local_address))
                r.local_port
              ≡ direct)
            × (conn ≡ connected))
          ⊎ ((route env router [] (env.parse_ip (texts.address_text r.local_address)) r.local_port
                ≡ proxy)
              × (conn ≡ unconnected)))
        × (handle_udp env texts router r room client back_room server ≡ (
          map (λ d. (destination, take udp_buffer_size d)) (take (room conn) (datagrams client)),
          map (take udp_buffer_size) (take back_room (datagrams server)),
        )))
unfolding handle_udp
handle_udp-relays env texts router r destination room client back_room server relays addressed = (
  udp_conn env texts router r,
  udp_conn-decided env texts router r relays,
  rw (handle_udp, relays, addressed)
      (rw
        (
          proxy_udp-take destination (room (udp_conn env texts router r)) client,
          udp_replies-take back_room server,
        )
        refl),
)
