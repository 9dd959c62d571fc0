-- ===== src/Folotun/Descriptors/Balance.antt =====
-- main/folotun/socket.go: no descriptor leaks and none is closed twice.
use folo_xray_apple.Prelude.{
  ℕ, zero, suc, List, [], ◌∷◌, Option, none, some, Outcome, ok, err, panic, ◌+◌, arith, inl, inr,
  refl, Bool-cases, ℤ, pos, negsuc,
}
use folo_xray_apple.Folotun.Descriptors.{
  SystemAnswers, SocketError, PacketSocket, Descriptors, Sockets, new_packet_socket, attach,
  close_packet_socket, close_descriptor, close_at, SocketReach, start, attaches, closes, times,
  held, open_conns, IsBalanced, attach_file, keep_socket,
}

-- What a socket that was just made, or none, holds.
unfoldable pub taken : Outcome SocketError PacketSocket → ℕ → ℕ
unfolding held times
taken (ok socket) n = times n (held socket)
taken (err e) n = 0
taken panic n = 0

attach_file-IsBalanced :
    (s : SystemAnswers) (c : Option ℕ) (holds : ℕ → ℕ) (d : Descriptors)
    → IsBalanced holds d
    → let r = attach_file s c d in IsBalanced (λ n. taken r.0 n + holds n) r.1
unfolding times held taken
attach_file-IsBalanced s none holds d b n = let e = b n in ground arith
attach_file-IsBalanced s (some c) holds d b n = let e = b n in ground arith

pub new_packet_socket-IsBalanced :
    (s : SystemAnswers) (fd : ℤ) (holds : ℕ → ℕ) (d : Descriptors)
    → IsBalanced holds d
    → let r = new_packet_socket s fd d in IsBalanced (λ n. taken r.0 n + holds n) r.1
unfolding new_packet_socket times held taken
new_packet_socket-IsBalanced s (negsuc m) holds d b n = let e = b n in omega arith
new_packet_socket-IsBalanced s (pos m) holds d b n =
    let wrapped : IsBalanced holds (close_descriptor m (record d { wrapped = m ∷ d.wrapped })) =
      λ k. let e = b k in ground arith in
    elim (Bool-cases s.wraps) [
      | inl w ↦ rw w (attach_file-IsBalanced s s.file_conn holds _ wrapped n)
      | inr w ↦ rw w (let e = b n in omega arith)
    ]

pub close_packet_socket-IsBalanced :
    (s : SystemAnswers) (socket : PacketSocket) (holds : ℕ → ℕ) (d : Descriptors)
    → IsBalanced (λ n. times n (held socket) + holds n) d
    → let r = close_packet_socket s socket d in IsBalanced (λ n. times n (held r.1) + holds n) r.2
unfolding close_packet_socket times held
close_packet_socket-IsBalanced s socket holds d b n = let e = b n in ground arith

keep_socket-IsBalanced :
    (r : Outcome SocketError PacketSocket) (d : Descriptors) (rest : List PacketSocket)
    → IsBalanced (λ n. taken r n + open_conns rest n) d
    → let p = keep_socket (r, d) rest in IsBalanced (open_conns p.sockets) p.descriptors
unfolding open_conns taken
keep_socket-IsBalanced (ok socket) d rest b n = b n
keep_socket-IsBalanced (err e) d rest b n = let e = b n in omega arith
keep_socket-IsBalanced panic d rest b n = let e = b n in omega arith

close_at-IsBalanced :
    (s : SystemAnswers) (k : ℕ) (sockets : List PacketSocket) (holds : ℕ → ℕ) (d : Descriptors)
    → IsBalanced (λ n. open_conns sockets n + holds n) d
    → let p = close_at s k sockets d in
      IsBalanced (λ n. open_conns p.sockets n + holds n) p.descriptors
unfolding close_at open_conns
close_at-IsBalanced s k [] holds d b = b
close_at-IsBalanced s zero (socket ∷ rest) holds d b =
    let moved : IsBalanced (λ n. times n (held socket) + (open_conns rest n + holds n)) d =
      λ n. let e = b n in omega arith in
    let closed =
      close_packet_socket-IsBalanced s socket (λ n. open_conns rest n + holds n) d moved in
    λ n. let e = closed n in omega arith
close_at-IsBalanced s (suc k) (socket ∷ rest) holds d b =
    let moved : IsBalanced (λ n. open_conns rest n + (times n (held socket) + holds n)) d =
      λ n. let e = b n in omega arith in
    let closed = close_at-IsBalanced s k rest (λ n. times n (held socket) + holds n) d moved in
    λ n. let e = closed n in omega arith

-- Whatever the system answers to sockets that are made and closed in any order and any number of
-- times: each descriptor was wrapped or opened exactly as often as it was closed, but for one more
-- if it is the connection of a socket that was not closed.
pub SocketReach-IsBalanced :
    (p : Sockets) → SocketReach p → IsBalanced (open_conns p.sockets) p.descriptors
unfolding open_conns times attach
SocketReach-IsBalanced p start = λ n. refl
SocketReach-IsBalanced q (attaches s fd {p} reach) =
    keep_socket-IsBalanced (new_packet_socket s fd p.descriptors).0
      (new_packet_socket s fd p.descriptors).1 p.sockets
      (new_packet_socket-IsBalanced s fd (open_conns p.sockets) p.descriptors
        (SocketReach-IsBalanced p reach))
SocketReach-IsBalanced q (closes s k {p} reach) =
    let before = SocketReach-IsBalanced p reach in
    let alone : IsBalanced (λ n. open_conns p.sockets n + 0) p.descriptors =
      λ n. let e = before n in omega arith in
    let closed = close_at-IsBalanced s k p.sockets (λ n. 0) p.descriptors alone in
    λ n. let e = closed n in omega arith
