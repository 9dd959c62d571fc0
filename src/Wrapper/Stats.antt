-- ===== src/Wrapper/Stats.antt =====
-- apple-wrapper/folo_apple.go: the calls that read the state of the engine and of the packet bridge, as
-- numbers and as C strings. core.Version, time.Since and the counters of the engine's statistics are
-- parameters.
pub mod Reading
use folo_xray_apple.Prelude.{
  ℕ, Bool, true, false, ◌&&◌, List, [], ◌∷◌, Option, none, some, ltb, ◌==◌, if◌then◌else◌, Bytes,
  text, bytes_eq, ℤ, pos,
}
use folo_xray_apple.Json.{Json, number, string, object, Members, no_members, member, write_json}
use folo_xray_apple.Json.CStrings.{c_string}
use folo_xray_apple.Wrapper.Engine.{Process, state_running}
use folo_xray_apple.Wrapper.Bridge.{Bridge}

-- The version, the whole seconds since a time, and the manager of the statistics of an instance, if it
-- is one: what its counters count, for those it has.
pub record StatsAnswers : Type 0 where
  pub version : Bytes
  pub since : ℕ → ℤ
  pub manager : ℕ → Option (Bytes → Option ℤ)
  pub wide : Bytes → Bytes

abbrev pub uplink : Bytes
uplink = text "inbound>>>folo-tun>>>traffic>>>uplink"

abbrev pub downlink : Bytes
downlink = text "inbound>>>folo-tun>>>traffic>>>downlink"

-- The order of strings.
unfoldable pub less : Bytes → Bytes → Bool
less s [] = false
less [] (d ∷ t) = true
less (c ∷ s) (d ∷ t) = let rest = less s t in if ltb c d then true else c == d && rest

-- `counters[name] = value` for a map whose members json.Marshal writes in the order of their names.
unfoldable pub set_counter : Bytes → ℤ → Members → Members
unfolding less
set_counter k n no_members = member k (number n) no_members
set_counter k n (member l v m) =
    let rest = set_counter k n m in
    if bytes_eq k l
    then member k (number n) m
    else if less k l
    then member k (number n) (member l v m)
    else member l v rest

-- The loop over the names of the counters.
unfoldable pub add_counters : (Bytes → Option ℤ) → List Bytes → Members → Members
unfolding set_counter
add_counters counter [] m = m
add_counters counter (name ∷ names) m = elim (counter name) [
  | none ↦ add_counters counter names m
  | some n ↦ add_counters counter names (set_counter name n m)
]

-- The manager of the statistics of the running instance.
unfoldable pub stats_manager : StatsAnswers → Process → Option (Bytes → Option ℤ)
stats_manager s p = elim p.engine.instance_id [ none ↦ none | some i ↦ s.manager i ]

unfoldable pub counters : Option (Bytes → Option ℤ) → Members
unfolding add_counters
counters none = no_members
counters (some counter) = add_counters counter (uplink ∷ downlink ∷ []) no_members

unfoldable pub uptime : StatsAnswers → Process → ℤ
uptime s p = elim p.engine.started_at [
  | none ↦ pos 0
  | some t ↦ if p.engine.state == state_running then s.since t else pos 0
]

-- `omitempty` of the counters.
abbrev pub unless_empty : Members → Members
unless_empty no_members = no_members
unless_empty (member k v m) = member (text "counters") (object (member k v m)) no_members

-- `statsSnapshot`
unfoldable pub snapshot : StatsAnswers → Process → Json
unfolding counters uptime stats_manager
snapshot s p = object (
    member (text "state") (number (pos p.engine.state)) (
      member (text "version") (string s.version) (
        member (text "uptimeSeconds") (number (uptime s p))
          (unless_empty (counters (stats_manager s p))))))

-- `FoloXrayCopyStatsJSON`; json.Marshal has no error for such a value.
unfoldable pub copy_stats_json : StatsAnswers → Process → Bytes
unfolding snapshot c_string write_json
copy_stats_json s p = c_string (write_json s.wide (snapshot s p))

-- `packetBridgeStats`
unfoldable pub bridge_snapshot : Bridge → Json
bridge_snapshot b = object (
    member (text "state") (number (pos b.state)) (
      member (text "framesIn") (number (pos b.frames_in)) (
        member (text "framesOut") (number (pos b.frames_out)) (
          member (text "bytesIn") (number (pos b.bytes_in)) (
            member (text "bytesOut") (number (pos b.bytes_out))
              (member (text "lastError") (string b.last_error) no_members))))))

-- `FoloXrayPacketBridgeCopyStatsJSON`
unfoldable pub packet_bridge_copy_stats_json : (Bytes → Bytes) → Bridge → Bytes
unfolding bridge_snapshot c_string write_json
packet_bridge_copy_stats_json wide b = c_string (write_json wide (bridge_snapshot b))

-- `FoloXrayState`
unfoldable pub xray_state : Process → ℕ
xray_state p = p.engine.state

-- `FoloXrayLastErrorCode`
unfoldable pub last_error_code : Process → ℕ
last_error_code p = p.engine.last_code

-- `FoloXrayCopyLastError`
unfoldable pub copy_last_error : Process → Bytes
unfolding c_string
copy_last_error p = c_string p.engine.last_error

-- `FoloXrayCopyVersion`
unfoldable pub copy_version : StatsAnswers → Bytes
unfolding c_string
copy_version s = c_string s.version

-- `FoloXrayPacketBridgeState`
unfoldable pub packet_bridge_state : Bridge → ℕ
packet_bridge_state b = b.state
