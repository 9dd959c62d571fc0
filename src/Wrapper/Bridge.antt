-- ===== src/Wrapper/Bridge.antt =====
-- apple-wrapper/folo_apple.go: the packet bridge. A goroutine is named by the generation that started
-- it; it pumps, then has closed its socket and sent its result, then has run its last section. A socket
-- is named by that generation too. The channel `done` has room for one result, so sending never waits.
-- The generation, a uint64 that each start adds one to, is taken not to wrap.
-- `received` tells whether a result has been taken off the channel of a generation.
pub mod Serial
pub mod Adopt
use folo_xray_apple.Prelude.{
  ℕ, suc, ◌+◌, ◌%◌, ◌^◌, ◌==◌, Bool, true, false, not, ◌&&◌, ◌||◌, Option, none, some,
  if◌then◌else◌, text, Bytes,
}
use folo_xray_apple.Wrapper.Engine.{
  status_ok, status_invalid_argument, status_invalid_state, state_idle, state_running,
}

abbrev pub status_internal_error : ℕ
status_internal_error = 6

pub data Phase : Type 0 where
  absent pumping sent settled : Phase

pub record Bridge : Type 0 where
  pub socket : Option ℕ
  pub generation : ℕ
  pub state : ℕ
  pub last_code : ℕ
  pub last_error : Bytes
  pub frames_in : ℕ
  pub frames_out : ℕ
  pub bytes_in : ℕ
  pub bytes_out : ℕ
  pub phase : ℕ → Phase
  pub cancelled : ℕ → Bool
  pub received : ℕ → Bool

abbrev pub bridge_init : Bridge
bridge_init = record {
  socket = none;
  generation = 0;
  state = state_idle;
  last_code = status_ok;
  last_error = text "ok";
  frames_in = 0;
  frames_out = 0;
  bytes_in = 0;
  bytes_out = 0;
  phase = λ g. absent;
  cancelled = λ g. false;
  received = λ g. false;
}

abbrev pub set_at {ℓ} : {A : Type ℓ} → (ℕ → A) → ℕ → A → ℕ → A
set_at f i a j = if j == i then a else f j

abbrev pub is_open : Option ℕ → Bool
is_open none = false
is_open (some g) = true

-- `setPacketBridgeErrorLocked`
unfoldable pub set_bridge_error : ℕ → Bytes → Bridge → Bridge
set_bridge_error code message b = record b { last_code = code; last_error = message }

-- `FoloXrayPacketBridgeStart`; `adopts` tells whether NewPacketSocketFromFD took the descriptor. A
-- socket that is refused because the bridge runs is closed at once.
unfoldable pub bridge_start : Bool → Bridge → ℕ × Bridge
unfolding set_bridge_error
bridge_start adopts b =
    if not adopts
    then (
      status_invalid_argument,
      set_bridge_error status_invalid_argument (text "packet socket rejected") b,
    )
    else if is_open b.socket || b.state == state_running
    then (status_invalid_state, b)
    else (
      status_ok,
      record b {
        socket = some (suc b.generation);
        generation = suc b.generation;
        state = state_running;
        last_code = status_ok;
        last_error = text "ok";
        frames_in = 0;
        frames_out = 0;
        bytes_in = 0;
        bytes_out = 0;
        phase = set_at b.phase (suc b.generation) pumping;
      },
    )

-- The callback of Echo before and after it writes a packet back.
unfoldable pub count_in : ℕ → Bridge → Bridge
count_in size b = record b {
  frames_in = (b.frames_in + 1) % 2 ^ 64;
  bytes_in = (b.bytes_in + size) % 2 ^ 64;
}

unfoldable pub count_out : ℕ → Bridge → Bridge
count_out size b = record b {
  frames_out = (b.frames_out + 1) % 2 ^ 64;
  bytes_out = (b.bytes_out + size) % 2 ^ 64;
}

-- Echo has returned: the goroutine closes its socket and sends the result.
unfoldable pub ends : ℕ → Bridge → Bridge
ends g b = record b { phase = set_at b.phase g sent }

-- The last section of goroutine `g`; `failed` tells whether Echo returned an error.
unfoldable pub settle : ℕ → Bool → Bridge → Bridge
unfolding set_bridge_error
settle g failed b =
    let gone = record b { phase = set_at b.phase g settled } in
    let idle = record gone { socket = none; state = state_idle } in
    if not (b.generation == g)
    then gone
    else if failed && not (b.cancelled g)
    then set_bridge_error status_internal_error (text "packet bridge terminated") idle
    else idle

-- The sections of `FoloXrayPacketBridgeStop`: without a socket it ends in the first; with socket `g` it
-- cancels, closes the socket, and takes the result of goroutine `g` before the second.
unfoldable pub stop_idle : Bridge → Bridge
stop_idle b = record b { state = state_idle; last_code = status_ok; last_error = text "ok" }

unfoldable pub stop_first : ℕ → Bridge → Bridge
stop_first g b = record b { cancelled = set_at b.cancelled g true }

unfoldable pub stop_last : ℕ → Bridge → Bridge
stop_last g b = record b {
  socket = none;
  state = state_idle;
  last_code = status_ok;
  last_error = text "ok";
  received = set_at b.received g true;
}
