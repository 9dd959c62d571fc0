-- ===== src/Wrapper/Bridge/Serial/Returning.antt =====
-- A waiting FoloXrayPacketBridgeStop (apple-wrapper/folo_apple.go) can return.
use folo_xray_apple.Prelude.{ℕ, false, none, some, ◌≡◌, ◌≢◌, refl, ◌⊎◌, inl, inr, arith}
use folo_xray_apple.Wrapper.Engine.{state_idle}
use folo_xray_apple.Wrapper.Bridge.{Bridge, Phase, absent, pumping, sent, settled, ends, stop_last}
use folo_xray_apple.Wrapper.Bridge.Serial.{
  Serial, SerialStep, stopped, ending, SerialReach, SerialReach-IsTracked,
}

-- The waiting call returns in the next step, and leaves the bridge idle.
pub Returns : Serial → Type 0
Returns s =
    (t : Serial) × SerialStep s.bridge s.waits_for t
    × (t.waits_for ≡ none)
    × (t.bridge.state ≡ state_idle)
    × (t.bridge.socket ≡ none)

Returns-now :
    (b : Bridge) (g : ℕ)
    → (b.phase g ≡ sent) ⊎ (b.phase g ≡ settled)
    → b.received g ≡ false
    → Returns (record { bridge = b; waits_for = some g })
unfolding Returns stop_last
Returns-now b g p r =
    (record { bridge = stop_last g b; waits_for = none }, stopped p r, refl, refl, refl)

Returns-soon :
    (b : Bridge) (g : ℕ)
    → (b.phase g ≢ absent)
    → b.received g ≡ false
    → (s : Phase) → b.phase g ≡ s
    → Returns (record { bridge = b; waits_for = some g })
      ⊎ ((u : Serial) × SerialStep b (some g) u × Returns u)
unfolding ends
Returns-soon b g n r absent e = absurd (n e)
Returns-soon b g n r sent e = inl (Returns-now b g (inl e) r)
Returns-soon b g n r settled e = inl (Returns-now b g (inr e) r)
Returns-soon b g n r pumping e = inr (
  record { bridge = ends g b; waits_for = some g },
  ending e,
  Returns-now (ends g b) g (inl (ground arith)) r,
)

-- Under calls one after the other a waiting FoloXrayPacketBridgeStop is never stuck: it can return with
-- the bridge idle, at once or as soon as Echo has returned on the closed socket.
pub SerialReach-Returns :
    (b : Bridge) (g : ℕ)
    → SerialReach (record { bridge = b; waits_for = some g })
    → Returns (record { bridge = b; waits_for = some g })
      ⊎ ((u : Serial) × SerialStep b (some g) u × Returns u)
SerialReach-Returns b g r =
    let (_, n, c) = (SerialReach-IsTracked r).waits g refl in Returns-soon b g n c (b.phase g) refl
