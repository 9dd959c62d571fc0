-- ===== src/Wrapper/Bridge/Serial.antt =====
-- The packet bridge (apple-wrapper/folo_apple.go) under calls of Start and Stop that come one after the
-- other, while the goroutines run as they like.
pub mod Returning
use folo_xray_apple.Prelude.{
  ℕ, ◌<◌, ◌==◌, Bool, true, false, not, ◌&&◌, ◌||◌, Option, none, some, ◌≡◌, ◌≢◌, refl, ◌⊎◌, inl,
  inr, arith, Bool-cases,
}
use folo_xray_apple.Wrapper.Engine.{state_idle, state_running}
use folo_xray_apple.Wrapper.Bridge.{
  Bridge, bridge_init, Phase, absent, pumping, sent, settled, bridge_start, count_in, count_out,
  ends, settle, is_open, stop_idle, stop_first, stop_last, set_bridge_error,
}

-- The bridge, and the goroutine whose result a call of Stop waits for.
pub record Serial : Type 0 where
  pub bridge : Bridge
  pub waits_for : Option ℕ

pub data SerialStep (b : Bridge) : Option ℕ → Serial → Type 0 where
  starting :
      (adopts : Bool)
      → SerialStep b none (record { bridge = (bridge_start adopts b).1; waits_for = none })
  stopping_nothing :
      b.socket ≡ none → SerialStep b none (record { bridge = stop_idle b; waits_for = none })
  stopping :
      {g : ℕ}
      → b.socket ≡ some g
      → SerialStep b none (record { bridge = stop_first g b; waits_for = some g })
  stopped :
      {g : ℕ}
      → (b.phase g ≡ sent) ⊎ (b.phase g ≡ settled)
      → b.received g ≡ false
      → SerialStep b (some g) (record { bridge = stop_last g b; waits_for = none })
  counting_in :
      {w : Option ℕ} {g : ℕ} (size : ℕ)
      → b.phase g ≡ pumping
      → SerialStep b w (record { bridge = count_in size b; waits_for = w })
  counting_out :
      {w : Option ℕ} {g : ℕ} (size : ℕ)
      → b.phase g ≡ pumping
      → SerialStep b w (record { bridge = count_out size b; waits_for = w })
  ending :
      {w : Option ℕ} {g : ℕ}
      → b.phase g ≡ pumping
      → SerialStep b w (record { bridge = ends g b; waits_for = w })
  settling :
      {w : Option ℕ} {g : ℕ} (failed : Bool)
      → b.phase g ≡ sent
      → SerialStep b w (record { bridge = settle g failed b; waits_for = w })

pub data SerialReach : Serial → Type 0 where
  start : SerialReach (record { bridge = bridge_init; waits_for = none })
  later : {s t : Serial} → SerialReach s → SerialStep s.bridge s.waits_for t → SerialReach t

-- Only the newest goroutine may pump; without a socket none does and the state is idle; a socket is that
-- of the newest goroutine, which is not past its last section, and the state is running; and a result
-- that Stop waits for is the newest goroutine's and not yet taken.
pub record IsTracked (s : Serial) : Type 0 where
  pub newest : (g : ℕ) → s.bridge.phase g ≡ pumping → g ≡ s.bridge.generation
  pub absent_socket :
      s.bridge.socket ≡ none
      → (s.bridge.state ≡ state_idle) × (s.bridge.phase s.bridge.generation ≢ pumping)
  pub present_socket :
      (g : ℕ)
      → s.bridge.socket ≡ some g
      → (g ≡ s.bridge.generation)
        × (s.bridge.state ≡ state_running)
        × ((s.bridge.phase g ≡ pumping) ⊎ (s.bridge.phase g ≡ sent))
        × (s.bridge.received g ≡ false)
  pub waits :
      (g : ℕ)
      → s.waits_for ≡ some g
      → (g ≡ s.bridge.generation) × (s.bridge.phase g ≢ absent) × (s.bridge.received g ≡ false)
  pub fresh : (g : ℕ) → s.bridge.generation < g → s.bridge.received g ≡ false

start-IsTracked :
    (b : Bridge) (adopts : Bool)
    → IsTracked (record { bridge = b; waits_for = none })
    → IsTracked (record { bridge = (bridge_start adopts b).1; waits_for = none })
unfolding bridge_start set_bridge_error
start-IsTracked b false h = record {
  newest = h.newest;
  absent_socket = h.absent_socket;
  present_socket = h.present_socket;
  waits = h.waits;
  fresh = h.fresh;
}
start-IsTracked b true h = elim (Bool-cases (is_open b.socket || b.state == state_running)) [
  | inl e ↦ rw e h
  | inr e ↦ rw e (record {
    newest = λ x n. ground (arith, h.newest x, h.absent_socket);
    absent_socket = λ n. ground arith;
    present_socket = λ x n. ground (arith, h.fresh x);
    waits = λ x n. ground arith;
    fresh = λ x n. ground (arith, h.fresh x);
  })
]

settle-IsTracked :
    (b : Bridge) (w : Option ℕ) (g : ℕ) (failed : Bool)
    → b.phase g ≡ sent
    → IsTracked (record { bridge = b; waits_for = w })
    → IsTracked (record { bridge = settle g failed b; waits_for = w })
unfolding settle set_bridge_error
settle-IsTracked b w g failed p h = elim (Bool-cases (b.generation == g)) [
  | inl same ↦ elim (Bool-cases (failed && not (b.cancelled g))) [
    | inl e ↦
        rw (same, e)
          (record {
            newest = λ x n. ground (arith, h.newest x);
            absent_socket = λ n. ground arith;
            present_socket = λ x n. ground arith;
            waits = λ x n. ground (arith, h.waits x n);
            fresh = h.fresh;
          })
    | inr e ↦
        rw (same, e)
          (record {
            newest = λ x n. ground (arith, h.newest x);
            absent_socket = λ n. ground arith;
            present_socket = λ x n. ground arith;
            waits = λ x n. ground (arith, h.waits x n);
            fresh = h.fresh;
          })
  ]
  | inr other ↦ rw other (record {
    newest = λ x n. ground (arith, h.newest x);
    absent_socket = λ n. ground (arith, h.absent_socket n);
    present_socket = λ x n. ground (arith, h.present_socket x n);
    waits = λ x n. ground (arith, h.waits x n);
    fresh = h.fresh;
  })
]

SerialStep-IsTracked :
    {b : Bridge} {w : Option ℕ} {t : Serial}
    → IsTracked (record { bridge = b; waits_for = w })
    → SerialStep b w t
    → IsTracked t
unfolding bridge_start count_in count_out ends settle stop_idle stop_first stop_last
    set_bridge_error
SerialStep-IsTracked {b} h (starting adopts) = start-IsTracked b adopts h
SerialStep-IsTracked {b} h (stopping_nothing e) = record {
  newest = h.newest;
  absent_socket = λ n. ground (arith, h.absent_socket e);
  present_socket = λ g n. ground arith;
  waits = λ g n. ground arith;
  fresh = h.fresh;
}
SerialStep-IsTracked {b} h (stopping {g} e) = record {
  newest = h.newest;
  absent_socket = h.absent_socket;
  present_socket = h.present_socket;
  waits = λ x n. ground (arith, h.present_socket g e);
  fresh = h.fresh;
}
SerialStep-IsTracked {b} h (stopped {g} p r) = record {
  newest = h.newest;
  absent_socket = λ n. (refl, ground (arith, h.waits g refl));
  present_socket = λ x n. ground arith;
  waits = λ x n. ground arith;
  fresh = λ x n. ground (arith, h.waits g refl, h.fresh x n);
}
SerialStep-IsTracked {b} h (counting_in size p) = record {
  newest = h.newest;
  absent_socket = h.absent_socket;
  present_socket = h.present_socket;
  waits = h.waits;
  fresh = h.fresh;
}
SerialStep-IsTracked {b} h (counting_out size p) = record {
  newest = h.newest;
  absent_socket = h.absent_socket;
  present_socket = h.present_socket;
  waits = h.waits;
  fresh = h.fresh;
}
SerialStep-IsTracked {b} h (ending {g} p) = record {
  newest = λ x n. ground (arith, h.newest x);
  absent_socket = λ n. ground (arith, h.absent_socket n);
  present_socket = λ x n. ground (arith, h.present_socket x n);
  waits = λ x n. ground (arith, h.waits x n);
  fresh = h.fresh;
}
SerialStep-IsTracked {b} h (settling {g} failed p) = settle-IsTracked b _ g failed p h

-- Under calls one after the other, in every order with the goroutines: only the newest goroutine may
-- pump; without a socket none does and FoloXrayPacketBridgeState is idle; with one it is running and
-- the goroutine is not past its last section; and a result that FoloXrayPacketBridgeStop waits for is
-- the newest goroutine's and not yet taken.
pub SerialReach-IsTracked : {s : Serial} → SerialReach s → IsTracked s
SerialReach-IsTracked start = record {
  newest = λ g n. ground arith;
  absent_socket = λ n. (refl, ground arith);
  present_socket = λ g n. ground arith;
  waits = λ g n. ground arith;
  fresh = λ g n. refl;
}
SerialReach-IsTracked (later r step) = SerialStep-IsTracked (SerialReach-IsTracked r) step
