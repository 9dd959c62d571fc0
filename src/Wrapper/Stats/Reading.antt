-- ===== src/Wrapper/Stats/Reading.antt =====
-- apple-wrapper/folo_apple.go: what a caller in C reads in the statistics.
use folo_xray_apple.Prelude.{
  ℕ, arith, Bool-cases, ==_iff, ◌==◌, ◌≢◌, ◌⊎◌, true, ◌≡◌, refl, ap, ◌∙◌, inl, inr, Option-cases,
  Option, none, some, if◌then◌else◌, Bytes, text, bytes_eq, ok, is_ascii, ℤ, pos,
}
use folo_xray_apple.Json.{Json, number, string, object, Members, no_members, member, write_json}
use folo_xray_apple.Json.Read.{read_json}
use folo_xray_apple.Json.RoundTrip.{all_ascii, all_ascii_of, read_json-write_json}
use folo_xray_apple.Json.CStrings.{c_string, read_c, read_c-write_json}
use folo_xray_apple.Wrapper.Engine.{Process, state_running}
use folo_xray_apple.Wrapper.Bridge.{Bridge}
use folo_xray_apple.Wrapper.Stats.{
  StatsAnswers, uplink, downlink, less, set_counter, add_counters, counters, stats_manager, uptime,
  unless_empty, snapshot, copy_stats_json, bridge_snapshot, packet_bridge_copy_stats_json,
}

-- The first member with a name, and the number there.
unfoldable pub find : Bytes → Members → Option Json
find k no_members = none
find k (member l v m) = let rest = find k m in if bytes_eq k l then some v else rest

unfoldable pub field : Bytes → Json → Option Json
unfolding find
field k (object m) = find k m
field k j = none

-- The counter with a name, where the statistics have it.
unfoldable pub counted : Bytes → Json → Option Json
unfolding field
counted k j = elim (field (text "counters") j) [ none ↦ none | some m ↦ field k m ]

-- What a manager says of a counter.
abbrev pub counter_of : Option (Bytes → Option ℤ) → Bytes → Option Json
counter_of none name = none
counter_of (some counter) name = elim (counter name) [ none ↦ none | some n ↦ some (number n) ]

read_back :
    (wide : Bytes → Bytes) (j : Json)
    → all_ascii j ≡ true
    → read_json (read_c (c_string (write_json wide j))) ≡ ok j
read_back wide j plain =
    ap read_json (read_c-write_json wide j plain) ∙ read_json-write_json wide j plain

-- The counters are of ASCII and stand for those of the manager.
abbrev Counted : Option (Bytes → Option ℤ) → Type 0
Counted c =
    (all_ascii_of (unless_empty (counters c)) ≡ true)
    × (counted uplink (object (unless_empty (counters c))) ≡ counter_of c uplink)
    × (counted downlink (object (unless_empty (counters c))) ≡ counter_of c downlink)

counters-Counted : (c : Option (Bytes → Option ℤ)) → Counted c
unfolding counters add_counters set_counter less counted field find bytes_eq all_ascii is_ascii
counters-Counted none = (refl, refl, refl)
counters-Counted (some counter) = elim (Option-cases (counter uplink)) [
  | inl up ↦ elim (Option-cases (counter downlink)) [
    | inl down ↦ rw (add_counters, up, add_counters, down) (refl, refl, refl)
    | inr (n, down) ↦ rw (add_counters, up, add_counters, down) (refl, refl, refl)
  ]
  | inr (k, up) ↦ elim (Option-cases (counter downlink)) [
    | inl down ↦ rw (add_counters, up, add_counters, down) (refl, refl, refl)
    | inr (n, down) ↦ rw (add_counters, up, add_counters, down) (refl, refl, refl)
  ]
]

snapshot-ascii :
    (s : StatsAnswers) (p : Process) → is_ascii s.version ≡ true → all_ascii (snapshot s p) ≡ true
unfolding snapshot all_ascii is_ascii
snapshot-ascii s p plain = rw (plain, (counters-Counted (stats_manager s p)).0) refl

-- The counter that the statistics of the instance have under a name, if there is an instance.
abbrev pub engine_counter : StatsAnswers → Option ℕ → Bytes → Option Json
engine_counter s none name = none
engine_counter s (some i) name = counter_of (s.manager i) name

engine_counter-stats_manager :
    (s : StatsAnswers) (p : Process) (name : Bytes)
    → counter_of (stats_manager s p) name ≡ engine_counter s p.engine.instance_id name
unfolding stats_manager
engine_counter-stats_manager s p name = elim (Option-cases p.engine.instance_id) [
  | inl e ↦ rw (stats_manager, e) refl
  | inr (i, e) ↦ rw (stats_manager, e) refl
]

-- The seconds since the start of an engine that runs, and 0 for one that does not or has no start.
abbrev pub IsUptime : StatsAnswers → Process → ℤ → Type 0
IsUptime s p z =
    ((t : ℕ) × (p.engine.state ≡ state_running) × (p.engine.started_at ≡ some t) × (z ≡ s.since t))
    ⊎ (((p.engine.state ≢ state_running) ⊎ (p.engine.started_at ≡ none)) × (z ≡ pos 0))

uptime-IsUptime : (s : StatsAnswers) (p : Process) → IsUptime s p (uptime s p)
unfolding uptime
uptime-IsUptime s p = elim (Option-cases p.engine.started_at) [
  | inl e ↦ inr (inr e, rw (uptime, e) refl)
  | inr (t, e) ↦ elim (Bool-cases (p.engine.state == state_running)) [
    | inl runs ↦ inl (t, (==_iff p.engine.state state_running).0 runs, e, rw (uptime, e, runs) refl)
    | inr idle ↦ inr (inl (λ f. ground (arith, idle, f)), rw (uptime, e, idle) refl)
  ]
]

-- Where the version is of ASCII, the text that a caller in C gets of `FoloXrayCopyStatsJSON` is a JSON
-- object with the state, the version, the uptime, which is the seconds since the start while the engine
-- runs and 0 else, and each of the two counters exactly if there is an instance whose statistics have
-- it.
pub copy_stats_json-reads :
    (s : StatsAnswers) (p : Process)
    → is_ascii s.version ≡ true
    → (j : Json) × (z : ℤ) × (read_json (read_c (copy_stats_json s p)) ≡ ok j)
      × (field (text "state") j ≡ some (number (pos p.engine.state)))
      × (field (text "version") j ≡ some (string s.version))
      × (field (text "uptimeSeconds") j ≡ some (number z))
      × IsUptime s p z
      × (counted uplink j ≡ engine_counter s p.engine.instance_id uplink)
      × (counted downlink j ≡ engine_counter s p.engine.instance_id downlink)
unfolding copy_stats_json snapshot field find counted bytes_eq
copy_stats_json-reads s p plain =
    let about = counters-Counted (stats_manager s p) in
    (
      snapshot s p,
      uptime s p,
      read_back s.wide (snapshot s p) (snapshot-ascii s p plain),
      refl,
      refl,
      refl,
      uptime-IsUptime s p,
      about.1 ∙ engine_counter-stats_manager s p uplink,
      about.2 ∙ engine_counter-stats_manager s p downlink,
    )

-- Where the last error is of ASCII, the text that a caller in C gets of
-- `FoloXrayPacketBridgeCopyStatsJSON` is a JSON object with the state, the four counts and the last
-- error of the packet bridge.
pub packet_bridge_copy_stats_json-reads :
    (wide : Bytes → Bytes) (b : Bridge)
    → is_ascii b.last_error ≡ true
    → (j : Json) × (read_json (read_c (packet_bridge_copy_stats_json wide b)) ≡ ok j)
      × (field (text "state") j ≡ some (number (pos b.state)))
      × (field (text "framesIn") j ≡ some (number (pos b.frames_in)))
      × (field (text "framesOut") j ≡ some (number (pos b.frames_out)))
      × (field (text "bytesIn") j ≡ some (number (pos b.bytes_in)))
      × (field (text "bytesOut") j ≡ some (number (pos b.bytes_out)))
      × (field (text "lastError") j ≡ some (string b.last_error))
unfolding packet_bridge_copy_stats_json bridge_snapshot field find bytes_eq all_ascii is_ascii
packet_bridge_copy_stats_json-reads wide b plain =
    let ascii : all_ascii (bridge_snapshot b) ≡ true = rw plain refl in
    (
      bridge_snapshot b,
      read_back wide (bridge_snapshot b) ascii,
      refl,
      refl,
      refl,
      refl,
      refl,
      refl,
    )
