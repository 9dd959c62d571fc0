-- ===== src/Wrapper/Proxying.antt =====
-- apple-wrapper/netstack.go: `proxyTCP`. A
-- `broke` is a Read that fails, as the first one does when its deadline passes, and the Reads of one
-- direction five seconds after the other has ended.
pub mod Relay
pub mod Chosen
pub mod Named
pub mod Datagrams
use folo_xray_apple.Prelude.{
  ℕ, zero, suc, ◌+◌, ◌-◌, ◌*◌, Bool, true, false, List, [], ◌∷◌, ◌++◌, Option, none, some, ltb, leb,
  if◌then◌else◌, length, take, drop, Bytes, is_empty, Outcome, ok, err, panic, ◌>>=◌,
}
use folo_xray_apple.Folotun.Stream.{Reader, got, broke}
use folo_xray_apple.Folotun.Endpoint.{Network, tcp, udp, EndpointError}
use folo_xray_apple.Folotun.Endpoint.Dial.{Destination, dial_tcp}
use folo_xray_apple.Router.Rules.{RouteAction, proxy, direct, block}
use folo_xray_apple.Router.Decision.{Env, Router, route}
use folo_xray_apple.Router.Direct.{direct_dial}
use folo_xray_apple.Wrapper.Sniffer.{Miss, sniff_domain}
use folo_xray_apple.Wrapper.Connections.{Request, udp_returns}

abbrev pub peek_size : ℕ
peek_size = 2048

abbrev pub copy_buffer_size : ℕ
copy_buffer_size = 4 * 1024

-- What one Read into a buffer of `n` bytes leaves of a chunk and the chunks after it.
abbrev pub rest_of_chunk : ℕ → Bytes → Reader → Reader
rest_of_chunk n c r = if leb (length c) n then r else got (drop n c) ∷ r

-- The first Read, whose error is ignored.
unfoldable pub peek : Reader → Bytes × Reader
peek [] = ([], [])
peek (broke ∷ r) = ([], r)
peek (got c ∷ r) = (take peek_size c, rest_of_chunk peek_size c r)

-- io.CopyBuffer to a connection that takes `room` more bytes before it fails.
unfoldable pub copy_buffer : (fuel room : ℕ) → Reader → Bytes
copy_buffer zero room r = []
copy_buffer (suc fuel) room [] = []
copy_buffer (suc fuel) room (broke ∷ r) = []
copy_buffer (suc fuel) room (got c ∷ r) =
    let piece = take copy_buffer_size c in
    let rest = copy_buffer fuel (room - length piece) (rest_of_chunk copy_buffer_size c r) in
    if ltb room (length piece) then take room piece else piece ++ rest

-- More than the Reads of the copy.
abbrev pub reads_left : Reader → ℕ
reads_left [] = 1
reads_left (broke ∷ r) = suc (reads_left r)
reads_left (got c ∷ r) = suc (length c) + reads_left r

-- What the server takes of the first bytes and of the copy after them.
unfoldable pub sends : ℕ → Bytes × Reader → Bytes
unfolding copy_buffer
sends room (first, r) =
    if ltb room (length first)
    then take room first
    else first ++ copy_buffer (reads_left r) (room - length first) r

-- What the client takes: nothing where the first write fails, which ends `proxyTCP`.
unfoldable pub replies : ℕ → Bytes × Reader → ℕ → Reader → Bytes
unfolding copy_buffer
replies room (first, r) back_room server =
    if ltb room (length first) then [] else copy_buffer (reads_left server) back_room server

-- No outbound for a blocked connection, none after a failed dial, or one.
pub data Opened (Conn : Type 0) : Type 0 where
  blocked failed : Opened Conn
  opened : Conn → Opened Conn

abbrev pub or_failed : {Conn : Type 0} → Option Conn → Opened Conn
or_failed none = failed
or_failed (some conn) = opened conn

abbrev pub tunnelled :
    {Conn : Type 0} → Outcome EndpointError (Option Conn) → Outcome Miss (Opened Conn)
tunnelled (ok conn) = ok (or_failed conn)
tunnelled (err e) = ok failed
tunnelled panic = panic

-- xnet.ParseAddress, core.Dial, and DialContext of net.Dialer.
pub record Dialers (Address Instance Conn : Type 0) : Type 0 where
  pub parse_address : Bytes → Address
  pub core_dial : Instance → Destination Address → Option Conn
  pub dial_context : Network → Bytes → Option Conn

-- The name if there is one, and else the destination.
abbrev pub target : Bytes → Bytes → Bytes
target sniffed destination = if is_empty sniffed then destination else sniffed

-- The relay, which is reached only with an outbound: what the server takes of the client's bytes, and
-- what the client takes of the server's.
abbrev pub relayed :
    {Conn : Type 0} → ℕ → Bytes × Reader → ℕ → Reader → Opened Conn → Opened Conn × Bytes × Bytes
relayed room client back_room server blocked = (blocked, [], [])
relayed room client back_room server failed = (failed, [], [])
relayed room client back_room server (opened conn) =
    (opened conn, sends room client, replies room client back_room server)

module _ (env : Env) {Address Instance Conn : Type 0} (dialers : Dialers Address Instance Conn)
    (i : Option Instance) where
  -- The outbound of a routing decision.
  unfoldable pub open_as : Bytes → Bytes → ℕ → RouteAction → Outcome Miss (Opened Conn)
  open_as sniffed destination port block = ok blocked
  open_as sniffed destination port direct =
      ok (or_failed (direct_dial dialers.dial_context tcp destination port))
  open_as sniffed destination port proxy = tunnelled (
      dial_tcp env.parse_ip dialers.parse_address dialers.core_dial i (target sniffed destination)
        port)

module _ (env : Env) {Address Instance Conn : Type 0} (dialers : Dialers Address Instance Conn)
    (router : Router) (i : Option Instance) where
  unfoldable pub open_outbound : Bytes → Bytes → ℕ → Outcome Miss (Opened Conn)
  unfolding open_as
  open_outbound sniffed destination port =
      open_as env dialers i sniffed destination port
        (route env router sniffed (env.parse_ip destination) port)

  -- The outbound that `proxyTCP` opens for a client that begins with these bytes.
  unfoldable pub sniff_and_open : Bytes → ℕ → Bytes → Outcome Miss (Opened Conn)
  unfolding open_outbound
  sniff_and_open destination port first = do
    sniffed ← if is_empty first then ok [] else sniff_domain env.wide_lower first
    open_outbound sniffed destination port

  -- `proxyTCP`: the outbound, what its server takes, and what the client takes.
  unfoldable pub proxy_tcp :
      Bytes → ℕ → ℕ → Reader → ℕ → Reader → Outcome Miss (Opened Conn × Bytes × Bytes)
  unfolding sniff_and_open peek sends replies
  proxy_tcp destination port room client back_room server = do
    outbound ← sniff_and_open destination port (peek client).0
    ok (relayed room (peek client) back_room server outbound)
