-- ===== src/Wrapper/Bridge/Adopt.antt =====
-- apple-wrapper/folo_apple.go: `FoloXrayPacketBridgeStart` with the socket that main/folotun/socket.go
-- makes of the descriptor.
use folo_xray_apple.Prelude.{
  ℕ, Bool, true, false, Option, none, some, Outcome, ok, ◌==◌, ◌≡◌, ◌||◌, if◌then◌else◌, refl, ℤ,
}
use folo_xray_apple.Folotun.Descriptors.{
  SystemAnswers, SocketError, PacketSocket, Descriptors, new_packet_socket, close_packet_socket,
  times, held,
}
use folo_xray_apple.Wrapper.Engine.{state_running, status_invalid_argument}
use folo_xray_apple.Wrapper.Bridge.{Bridge, bridge_start, is_open}

-- The status, the bridge, the socket that it keeps, and the descriptors.
pub record Adopted : Type 0 where
  pub code : ℕ
  pub bridge : Bridge
  pub kept : Option PacketSocket
  pub descriptors : Descriptors

abbrev pub is_busy : Bridge → Bool
is_busy b = is_open b.socket || b.state == state_running

-- `FoloXrayPacketBridgeStart` after `NewPacketSocketFromFD`.
abbrev pub start_with :
    SystemAnswers → Bridge → Outcome SocketError PacketSocket × Descriptors → Adopted
start_with s b (ok socket, d) =
    let started = bridge_start true b in
    if is_busy b
    then record {
      code = started.0;
      bridge = started.1;
      kept = none;
      descriptors = (close_packet_socket s socket d).2;
    }
    else record { code = started.0; bridge = started.1; kept = some socket; descriptors = d }
start_with s b (_, d) =
    let refused = bridge_start false b in
    record { code = refused.0; bridge = refused.1; kept = none; descriptors = d }

-- `FoloXrayPacketBridgeStart`
unfoldable pub start_from_fd : SystemAnswers → ℤ → Bridge → Descriptors → Adopted
unfolding new_packet_socket
start_from_fd s fd b d = start_with s b (new_packet_socket s fd d)

-- What the bridge holds of the sockets that it was given.
unfoldable pub kept_conns : Option PacketSocket → ℕ → ℕ
unfolding times held
kept_conns none n = 0
kept_conns (some socket) n = times n (held socket)

bridge_start_refused : (b : Bridge) → (bridge_start false b).0 ≡ status_invalid_argument
unfolding bridge_start
bridge_start_refused b = refl
