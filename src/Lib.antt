-- ===== src/Lib.antt =====
-- Models of the Folo Xray runtime for Apple platforms: the repository's own Go code, around copies
-- of Xray-core and libXray.
--
-- The program is a C library for a packet tunnel. The tunnel hands packets to a stream socket in
-- frames (upstream/xray-core/main/folotun) or to a network stack; for each connection that comes out
-- of the stack the wrapper sniffs a domain (apple-wrapper/sniffer.go) and asks the router
-- (apple-wrapper/router) whether it goes to the proxy, goes direct or is blocked. A destination of
-- the proxy is checked and dialled through the engine (main/folotun/transport.go).
--
-- Parts and files:
--   Prelude           numbers, lists, byte strings, and `Outcome`: a Go call returns a value,
--                     returns an error, or panics on an access out of range
--   Hostname          the grammar of DNS names
--   Json              JSON texts as json.Marshal of the Go library makes them, and a reader of them
--   Profile/Config    main/folojson/folojson.go: the profile and the configuration made of it
--   Profile/Hex, Profile/Base64  hex and base 64 of the Go library; decodeURLBase64
--   Profile/Build     Build of the profile, of its outbounds and of REALITY; validServerName
--   Profile/Load      Load
--   Folotun/Packet    main/folotun/frame.go: Packet, InspectPacket
--   Folotun/Stream    io.ReadFull and writeAll over a socket
--   Folotun/Frame     EncodeFrame, WriteFrame, ReadFrame
--   Folotun/Endpoint  main/folotun/transport.go: ValidateEndpointAddress; Dial: DialTCP, DialUDP
--   Folotun/Socket    main/folotun/socket.go: Echo
--   Folotun/Descriptors  socket.go: NewPacketSocketFromFD and Close, and the descriptors they use
--   Router/Rules      router.go: RouteAction; a map from strings to actions as an association list
--   Router/Domains    compact_trie.go: DomainMatcher
--   Router/Ip         net.IP, net.IPNet.Contains and net.CIDRMask as the router uses them
--   Router/Addresses  compact_cidr.go: IPMatcher, IsPrivateIP
--   Router/Search     sort.Search
--   Router/China      china_ip.go: IsChinaIPv4, IsChinaIPv6
--   Router/Builtin    builtin_rules.go
--   Router/Decision   router.go: Config, NewRouter, Route
--   Router/Direct     direct.go: DirectDialer
--   Wrapper/Sniffer   sniffer.go: sniffTLS, sniffHTTP, SniffDomain; Hello and Http: what a ClientHello
--                     and a request are, apart from the code
--   Wrapper/Engine    folo_apple.go: the engine behind the ABI
--   Wrapper/Bridge    folo_apple.go: the packet bridge and its goroutines
--   Wrapper/Stats     folo_apple.go: the state, the errors, the version and the statistics of both
--   Wrapper/Netstack  netstack.go: injectPacket, readPacket, close, and the ABI calls around them
--   Wrapper/Connections  netstack.go: handleTCP, handleUDP, startWork side by side, and close
--   Wrapper/Startup   netstack.go: newNetstackRuntime
--   Wrapper/Proxying  netstack.go: proxyTCP; Datagrams: proxyUDP
--   Tests             runs on the inputs of the Go tests, and the theorems at concrete inputs
-- A child of one of these files holds proofs about it. Besides, Wrapper/Proxying/Datagrams holds the
-- relays of datagrams, Folotun/Endpoint/Dial the dialling, and Wrapper/Engine/Reach and
-- Wrapper/Bridge/Serial the steps of the engine and of the bridge; Wrapper/Engine/Profiles joins the
-- engine with the loader of profiles, and Wrapper/Bridge/Adopt the packet bridge with the packet socket.
--
-- State is passed explicitly: a matcher or a router is a record and each operation returns the next
-- one. A mutex that is held for a whole operation makes the operation one step. A reader is the list
-- of the results of its Read calls and a writer the list of the answers of its Write calls, so a
-- theorem over all of them covers every way a socket can cut the data.
--
-- Fuel: the loops of sniffTLS take as fuel the length of the data, and each round moves forward by at
-- least three bytes, so it does not run out (Wrapper/Sniffer/Total). sort.Search has as much fuel as the
-- size of the interval, which each round makes smaller. io.CopyBuffer has the number of bytes and chunks
-- that are left, of which each Read takes some. The decimal text of a port has fuel for five digits,
-- enough for 16 bits, that of a number n in JSON one more than n, and the reader of JSON one more than the
-- length of the text (Json/Room). All other loops are structural recursion.
--
-- Parameters, since they are not code of the repository: net.ParseIP, net.ParseCIDR, strings.ToLower
-- and json.Marshal on text beyond ASCII, net.ParseAddress and uuid.ParseString of Xray-core, the
-- generated tables of china_ip_data.go, and what Xray-core, the JSON decoder, net.Dialer, the network
-- stack and the calls of os and net on descriptors and connections answer, and the texts of an
-- address, tcpip.Address.String and net.IP.String.
--
-- Not modelled: JSON decoding of a profile, and the copies of Xray-core and libXray. The generation of
-- the packet bridge, a uint64, is taken not to wrap.
pub mod Prelude
pub mod Hostname
pub mod Json
pub mod Folotun
pub mod Router
pub mod Profile
pub mod Wrapper
mod Tests
