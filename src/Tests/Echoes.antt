-- ===== src/Tests/Echoes.antt =====
-- upstream/xray-core/main/folotun/socket.go at concrete packets and descriptors.
use folo_xray_apple.Prelude.{
  Bool, false, List, ◌≡◌, refl, [], ◌∷◌, ◌++◌, put_uint32, index, slice, uint16_in, true, some, pos,
}
use folo_xray_apple.Folotun.Packet.{Packet, inspect_packet}
use folo_xray_apple.Folotun.Stream.{got, Reader, Write, wrote, write_all}
use folo_xray_apple.Folotun.Frame.{frame_bytes}
use folo_xray_apple.Folotun.Socket.{running, echo}
use folo_xray_apple.Folotun.Socket.Loopback.{Served, nothing, next, frames, echo-frames}
use folo_xray_apple.Tests.Framing.{ipv4}
use folo_xray_apple.Folotun.Descriptors.{
  SystemAnswers, Sockets, no_sockets, attach, close_at, start, attaches, closes, open_conns,
  IsBalanced,
}
use folo_xray_apple.Folotun.Descriptors.Balance.{SocketReach-IsBalanced}

-- An inspected packet, as the socket returns it.
abbrev echoed_packet : Packet
echoed_packet = record { family = 4; protocol = 17; payload = ipv4 }

-- Two frames in two chunks that cut the second header, and streams that take up to 20 bytes of a call.
abbrev two_frames : Reader
two_frames =
    got (frame_bytes echoed_packet ++ (0x46 ∷ []))
    ∷ got (0x50 ∷ 1 ∷ 4 ∷ 17 ∷ 0 ∷ 0 ∷ 0 ∷ 0 ∷ 20 ∷ 0 ∷ 0 ∷ ipv4)
    ∷ []

abbrev two_rounds : List (Bool × List Write)
two_rounds = (false, wrote 20 ∷ wrote 12 ∷ []) ∷ (false, wrote 32 ∷ []) ∷ []

served : Served two_rounds (echoed_packet ∷ echoed_packet ∷ [])
unfolding inspect_packet index slice uint16_in write_all put_uint32
served = next refl refl (next refl refl nothing)

echo-frames_example : echo two_rounds two_frames ≡ record {
  sent = frames (echoed_packet ∷ echoed_packet ∷ []);
  echoed = echoed_packet ∷ echoed_packet ∷ [];
  end = running;
}
unfolding put_uint32
echo-frames_example = echo-frames [] two_frames served refl

-- A stream socket whose duplicate is 9.
abbrev stream_socket : SystemAnswers
stream_socket = record { wraps = true; file_conn = some 9; file_closes = true; conn_closes = true }

-- Descriptor 7 is wrapped, and its socket is closed twice.
abbrev closed_twice : Sockets
closed_twice =
    let one = attach stream_socket (pos 7) no_sockets in
    let two = close_at stream_socket 0 one.sockets one.descriptors in
    close_at stream_socket 0 two.sockets two.descriptors

closed_twice_test :
    closed_twice.descriptors ≡ record { wrapped = 7 ∷ []; opened = 9 ∷ []; closed = 9 ∷ 7 ∷ [] }
unfolding attach close_at
closed_twice_test = refl

SocketReach-IsBalanced_example :
    IsBalanced (open_conns closed_twice.sockets) closed_twice.descriptors
SocketReach-IsBalanced_example =
    SocketReach-IsBalanced closed_twice
      (closes stream_socket 0 (closes stream_socket 0 (attaches stream_socket (pos 7) start)))
