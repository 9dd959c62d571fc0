-- ===== src/Wrapper/Connections.antt =====
-- apple-wrapper/netstack.go: `handleTCP`, `handleUDP` and `startWork` as steps of handlers that run side
-- by side, and `close` as far as they see it. A handler changes what it shares with the others in one
-- place at a time: a channel of tokens, the wait group, or `closed` under its lock. The texts of an
-- address are parameters.
pub mod Held
pub mod Advance
pub mod Balance
pub mod Drain
use folo_xray_apple.Prelude.{
  ℕ, suc, zero, ◌+◌, Bool, true, false, not, ◌||◌, List, [], ◌∷◌, ◌++◌, Option, none, some, ltb,
  ◌==◌, if◌then◌else◌, length, Outcome, ok, err, panic, ◌>>=◌, Bytes, ◌≡◌,
}
use folo_xray_apple.Folotun.Endpoint.{Network, tcp, udp}
use folo_xray_apple.Router.Ip.{Ip}
use folo_xray_apple.Router.Rules.{RouteAction, proxy, direct, block}
use folo_xray_apple.Router.Decision.{Env, Router, route}

abbrev pub max_concurrent_tcp : ℕ
max_concurrent_tcp = 48

abbrev pub max_concurrent_udp : ℕ
max_concurrent_udp = 48

-- The tokens in the channels, the counter of the wait group, and `closed`.
pub record Pool : Type 0 where
  pub tcp_tokens : ℕ
  pub udp_tokens : ℕ
  pub work : ℕ
  pub closed : Bool

-- A request of the network stack, whether its endpoint can be created, and whether the outbound of a
-- UDP flow opens.
pub record Request : Type 0 where
  pub network : Network
  pub local_address : Bytes
  pub local_port : ℕ
  pub creates : Bool
  pub opens : Bool

-- A request is refused, its connection is closed before any relay, or it is relayed.
pub data End : Type 0 where
  refused discarded served : End

-- Where a handler stands: before its token; with a token; before startWork; after startWork said no;
-- its goroutine relays; it has returned the token; the end.
pub data Place : Type 0 where
  arrived holding ready stopped working returned : Place
  ended : End → Place

-- The runtime: `waited` says that a call of `close` is past work.Wait.
pub record System : Type 0 where
  pub pool : Pool
  pub handlers : List (Request × Place)
  pub waited : Bool

abbrev pub init_system : System
init_system = record {
  pool = record { tcp_tokens = 0; udp_tokens = 0; work = 0; closed = false };
  handlers = [];
  waited = false;
}

-- A receive from an empty channel.
pub data Stuck : Type 0 where
  blocked : Stuck

-- `select { case tokens <- struct{}{}: default: }`
unfoldable pub take_token : Network → Pool → Option Pool
take_token tcp p =
    if ltb p.tcp_tokens max_concurrent_tcp
    then some (record p { tcp_tokens = suc p.tcp_tokens })
    else none
take_token udp p =
    if ltb p.udp_tokens max_concurrent_udp
    then some (record p { udp_tokens = suc p.udp_tokens })
    else none

abbrev one_less : ℕ → Option ℕ
one_less zero = none
one_less (suc n) = some n

-- `<-tokens`
unfoldable pub release_token : Network → Pool → Outcome Stuck Pool
release_token tcp p = elim (one_less p.tcp_tokens) [
  | none ↦ err blocked
  | some n ↦ ok (record p { tcp_tokens = n })
]
release_token udp p = elim (one_less p.udp_tokens) [
  | none ↦ err blocked
  | some n ↦ ok (record p { udp_tokens = n })
]

-- `startWork` up to the goroutine.
unfoldable pub start_work : Pool → Option Pool
start_work p = if p.closed then none else some (record p { work = suc p.work })

-- `n.work.Done()`, which panics below zero.
unfoldable pub work_done : Pool → Outcome Stuck Pool
work_done p = elim (one_less p.work) [ none ↦ panic | some n ↦ ok (record p { work = n }) ]

-- `tcpip.Address.String`, and `net.IP.String` of the bytes of an address.
pub record Texts : Type 0 where
  pub address_text : Bytes → Bytes
  pub ip_text : Bytes → Bytes

module _ (env : Env) (texts : Texts) where
  unfoldable pub netstack_address : Bytes → Option Bytes
  netstack_address address =
      if length address == 4 || length address == 16 then some (texts.ip_text address) else none

  -- The address and the port of a `net.UDPAddr`, whose address is nil if net.ParseIP has none.
  unfoldable pub netstack_udp_address : Bytes → ℕ → Option (Option Ip × ℕ)
  unfolding netstack_address
  netstack_udp_address address port = elim (netstack_address address) [
    | none ↦ none
    | some value ↦ if port == 0 then none else some (env.parse_ip value, port)
  ]

  -- `handleTCP` between its token and startWork: `some` where it returns.
  unfoldable pub tcp_returns : Request → Option End
  tcp_returns r = if not r.creates then some refused else elim (netstack_address r.local_address) [
    | none ↦ some discarded
    | some destination ↦ if r.local_port == 0 then some discarded else none
  ]

  -- `handleUDP` between its token and startWork.
  unfoldable pub udp_returns : Router → Request → Option End
  udp_returns router r = elim (netstack_udp_address r.local_address r.local_port) [
    | none ↦ some refused
    | some destination ↦
        elim (route env router [] (env.parse_ip (texts.address_text r.local_address))
          r.local_port) [
            | block ↦ some discarded
            | direct ↦
                if not r.creates then some refused else if r.opens then none else some discarded
            | proxy ↦
                if not r.creates then some refused else if r.opens then none else some discarded
          ]
  ]

  module _ (router : Router) where
    unfoldable pub returns : Request → Option End
    unfolding tcp_returns udp_returns
    returns r = elim r.network [ tcp ↦ tcp_returns r | udp ↦ udp_returns router r ]

    unfoldable pub handler_step : Request → Pool → Place → Outcome Stuck (Pool × Place)
    unfolding take_token start_work
    handler_step r p arrived = elim (take_token r.network p) [
      | none ↦ ok (p, ended refused)
      | some q ↦ ok (q, holding)
    ]
    handler_step r p holding = elim (returns r) [
      | some e ↦ do q ← release_token r.network p; ok (q, ended e)
      | none ↦ ok (p, ready)
    ]
    handler_step r p ready = elim (start_work p) [
      | none ↦ ok (p, stopped)
      | some q ↦ ok (q, working)
    ]
    handler_step r p stopped = do q ← release_token r.network p; ok (q, ended discarded)
    handler_step r p working = do q ← release_token r.network p; ok (q, returned)
    handler_step r p returned = do q ← work_done p; ok (q, ended served)
    handler_step r p (ended e) = ok (p, ended e)

    -- A request arrives, a handler goes on, `close` sets `closed`, or its work.Wait returns.
    pub data ConnectionStep (s : System) : System → Type 0 where
      arriving :
          (r : Request) → ConnectionStep s (record s { handlers = (r, arrived) ∷ s.handlers })
      going_on :
          (before after : List (Request × Place)) (r : Request) (place : Place) {q : Pool}
          {next : Place}
          → s.handlers ≡ before ++ (r, place) ∷ after
          → handler_step r s.pool place ≡ ok (q, next)
          → ConnectionStep s (record s { pool = q; handlers = before ++ (r, next) ∷ after })
      closing : ConnectionStep s (record s { pool = record s.pool { closed = true } })
      waiting :
          s.pool.closed ≡ true → s.pool.work ≡ 0 → ConnectionStep s (record s { waited = true })

    pub data ConnectionSteps (s : System) : System → Type 0 where
      here : ConnectionSteps s s
      later : {t u : System} → ConnectionSteps s t → ConnectionStep t u → ConnectionSteps s u
