-- ===== src/Folotun/Descriptors.antt =====
-- main/folotun/socket.go: `NewPacketSocketFromFD` and `PacketSocket.Close`, with the descriptors that
-- they open and close. What the system answers to the calls of os and net is a parameter; net.FileConn
-- makes a duplicate of the descriptor, which the connection owns. A Close that returns an error is taken
-- to have released its descriptor as well.
pub mod Balance
use folo_xray_apple.Prelude.{
  ℕ, zero, suc, Bool, true, false, List, [], ◌∷◌, Option, none, some, Outcome, ok, err, panic, ◌==◌,
  ◌+◌, ◌≡◌, if◌then◌else◌, ℤ, pos, negsuc,
}

-- Whether os.NewFile wraps the descriptor, the duplicate that net.FileConn makes if it is a socket, and
-- whether the Close of the file, and a Close of the connection, end without an error.
pub record SystemAnswers : Type 0 where
  pub wraps : Bool
  pub file_conn : Option ℕ
  pub file_closes : Bool
  pub conn_closes : Bool

pub data SocketError : Type 0 where
  invalid_descriptor not_wrapped not_a_stream not_a_stream_and_not_closed not_closed : SocketError

pub record PacketSocket : Type 0 where
  pub conn : ℕ
  pub close_once : Bool

-- The descriptors that os.NewFile wrapped, which `NewPacketSocketFromFD` closes whether it then makes a
-- socket or not, those that were opened as duplicates, and those that were closed, each as often as it
-- happened.
pub record Descriptors : Type 0 where
  pub wrapped : List ℕ
  pub opened : List ℕ
  pub closed : List ℕ

abbrev pub close_descriptor : ℕ → Descriptors → Descriptors
close_descriptor n d = record d { closed = n ∷ d.closed }

-- `NewPacketSocketFromFD` after the file was closed.
abbrev pub attach_file :
    SystemAnswers → Option ℕ → Descriptors → Outcome SocketError PacketSocket × Descriptors
attach_file s none d =
    if s.file_closes then (err not_a_stream, d) else (err not_a_stream_and_not_closed, d)
attach_file s (some c) d =
    let duplicated = record d { opened = c ∷ d.opened } in
    if s.file_closes
    then (ok (record { conn = c; close_once = false }), duplicated)
    else (err not_closed, close_descriptor c duplicated)

-- `NewPacketSocketFromFD`
unfoldable pub new_packet_socket :
    SystemAnswers → ℤ → Descriptors → Outcome SocketError PacketSocket × Descriptors
new_packet_socket s (negsuc n) d = (err invalid_descriptor, d)
new_packet_socket s (pos n) d =
    if s.wraps
    then attach_file s s.file_conn (close_descriptor n (record d { wrapped = n ∷ d.wrapped }))
    else (err not_wrapped, d)

-- `PacketSocket.Close`: whether it returns no error, the socket and the descriptors after it.
unfoldable pub close_packet_socket :
    SystemAnswers → PacketSocket → Descriptors → Bool × PacketSocket × Descriptors
close_packet_socket s socket d =
    if socket.close_once
    then (true, socket, d)
    else (s.conn_closes, record socket { close_once = true }, close_descriptor socket.conn d)

-- The sockets of a process.
pub record Sockets : Type 0 where
  pub sockets : List PacketSocket
  pub descriptors : Descriptors

abbrev pub no_sockets : Sockets
no_sockets = record {
  sockets = [];
  descriptors = record { wrapped = []; opened = []; closed = [] };
}

abbrev pub keep_socket :
    Outcome SocketError PacketSocket × Descriptors → List PacketSocket → Sockets
keep_socket (ok socket, d) rest = record { sockets = socket ∷ rest; descriptors = d }
keep_socket (err e, d) rest = record { sockets = rest; descriptors = d }
keep_socket (panic, d) rest = record { sockets = rest; descriptors = d }

-- `NewPacketSocketFromFD` by a caller that keeps the socket.
unfoldable pub attach : SystemAnswers → ℤ → Sockets → Sockets
unfolding new_packet_socket
attach s fd p = keep_socket (new_packet_socket s fd p.descriptors) p.sockets

-- `Close` of the k-th socket, of which there may be any number.
unfoldable pub close_at : SystemAnswers → ℕ → List PacketSocket → Descriptors → Sockets
unfolding close_packet_socket
close_at s k [] d = record { sockets = []; descriptors = d }
close_at s zero (socket ∷ rest) d =
    let after = close_packet_socket s socket d in
    record { sockets = after.1 ∷ rest; descriptors = after.2 }
close_at s (suc k) (socket ∷ rest) d =
    let p = close_at s k rest d in
    record { sockets = socket ∷ p.sockets; descriptors = p.descriptors }

pub data SocketReach : Sockets → Type 0 where
  start : SocketReach no_sockets
  attaches :
      (s : SystemAnswers) (fd : ℤ) {p : Sockets} → SocketReach p → SocketReach (attach s fd p)
  closes :
      (s : SystemAnswers) (k : ℕ) {p : Sockets}
      → SocketReach p
      → SocketReach (close_at s k p.sockets p.descriptors)

-- How often a descriptor stands in a list.
unfoldable pub times : ℕ → List ℕ → ℕ
times n [] = 0
times n (x ∷ xs) = let rest = times n xs in if x == n then suc rest else rest

-- The connection of a socket, until it is closed.
unfoldable pub held : PacketSocket → List ℕ
held socket = if socket.close_once then [] else socket.conn ∷ []

unfoldable pub open_conns : List PacketSocket → ℕ → ℕ
unfolding times held
open_conns [] n = 0
open_conns (socket ∷ rest) n = times n (held socket) + open_conns rest n

-- Each descriptor that was wrapped or opened is held by one socket or was closed, once.
abbrev pub IsBalanced : (ℕ → ℕ) → Descriptors → Type 0
IsBalanced holds d = (n : ℕ) → times n d.wrapped + times n d.opened ≡ holds n + times n d.closed
