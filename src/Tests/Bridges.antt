-- ===== src/Tests/Bridges.antt =====
-- The packet bridge of apple-wrapper/folo_apple.go at concrete schedules.
use folo_xray_apple.Prelude.{◌≡◌, ◌⊎◌, refl, true, none, some}
use folo_xray_apple.Wrapper.Engine.{state_idle}
use folo_xray_apple.Wrapper.Bridge.{
  Bridge, bridge_init, pumping, bridge_start, ends, settle, stop_first, stop_last,
}
use folo_xray_apple.Wrapper.Bridge.Serial.{
  Serial, SerialReach, SerialStep, start, later, starting, stopping, IsTracked,
  SerialReach-IsTracked,
}
use folo_xray_apple.Wrapper.Bridge.Serial.Returning.{Returns, SerialReach-Returns}

abbrev started_once : Bridge
started_once = (bridge_start true bridge_init).1

abbrev stopping_once : Bridge
stopping_once = stop_first 1 started_once

-- While Stop waits, the goroutine ends, and a second thread starts the bridge again.
abbrev started_twice : Bridge
started_twice = (bridge_start true (settle 1 true (ends 1 stopping_once))).1

-- The second section of that Stop forgets the new socket: the state is idle while goroutine 2 pumps.
overlapping_stop :
    ((stop_last 1 started_twice).socket ≡ none)
    × ((stop_last 1 started_twice).state ≡ state_idle)
    × ((stop_last 1 started_twice).phase 2 ≡ pumping)
unfolding bridge_start settle ends stop_first stop_last
overlapping_stop = (refl, refl, refl)

abbrev waiting_stop : SerialReach (record { bridge = stopping_once; waits_for = some 1 })
unfolding bridge_start
waiting_stop = later (later start (starting true)) (stopping {g = 1} refl)

SerialReach-IsTracked_example : IsTracked (record { bridge = stopping_once; waits_for = some 1 })
SerialReach-IsTracked_example = SerialReach-IsTracked waiting_stop

SerialReach-Returns_example :
    Returns (record { bridge = stopping_once; waits_for = some 1 })
    ⊎ ((u : Serial) × SerialStep stopping_once (some 1) u × Returns u)
SerialReach-Returns_example = SerialReach-Returns stopping_once 1 waiting_stop
