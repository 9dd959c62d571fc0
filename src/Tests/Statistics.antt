-- ===== src/Tests/Statistics.antt =====
-- The statistics of apple-wrapper/folo_apple.go at concrete states.
use folo_xray_apple.Prelude.{
  ℤ, ◌≡◌, refl, some, text, Bytes, bytes_eq, if◌then◌else◌, ok, is_ascii, [], pos, negsuc,
}
use folo_xray_apple.Json.{
  Json, number, string, object, no_members, member, write_json, write_number, write_string, digits,
  escape, escape_byte,
}
use folo_xray_apple.Json.Read.{read_json}
use folo_xray_apple.Json.RoundTrip.{all_ascii, read_json-write_json}
use folo_xray_apple.Json.CStrings.{read_c}
use folo_xray_apple.Wrapper.Engine.{Process, init, state_running}
use folo_xray_apple.Wrapper.Bridge.{Bridge, bridge_init}
use folo_xray_apple.Wrapper.Stats.{
  StatsAnswers, uplink, downlink, stats_manager, uptime, copy_stats_json,
  packet_bridge_copy_stats_json, snapshot, counters, add_counters, set_counter, less,
}
use folo_xray_apple.Wrapper.Stats.Reading.{
  field, counted, IsUptime, copy_stats_json-reads, packet_bridge_copy_stats_json-reads,
}

-- Strings beyond ASCII are not met below.
abbrev same : Bytes → Bytes
same s = s

abbrev running : Process
running = record init {
  engine = record init.engine { instance_id = some 3; state = state_running; started_at = some 5 };
}

-- Both counters, of which one is negative.
abbrev answers : StatsAnswers
answers = record {
  version = text "26.1.13";
  since = λ t. pos 120;
  manager = λ i. some (λ name. if bytes_eq name uplink then some (pos 1500) else some (negsuc 6));
  wide = same;
}

written :
    write_json same (snapshot answers running)
    ≡ text
        "{\"state\":1,\"version\":\"26.1.13\",\"uptimeSeconds\":120,\"counters\":{\"inbound\\u003e\\u003e\\u003efolo-tun\\u003e\\u003e\\u003etraffic\\u003e\\u003e\\u003edownlink\":-7,\"inbound\\u003e\\u003e\\u003efolo-tun\\u003e\\u003e\\u003etraffic\\u003e\\u003e\\u003euplink\":1500}}"
unfolding snapshot counters add_counters set_counter less bytes_eq write_json write_number
    write_string digits escape escape_byte uptime stats_manager is_ascii
written = refl

-- A nested value with every kind of escape.
abbrev escaped : Json
escaped =
    object
      (member (text "a\n\t\"<&>") (object (member [] (number (negsuc 41)) no_members)) no_members)

escaped_read : read_json (write_json same escaped) ≡ ok escaped
unfolding is_ascii all_ascii
escaped_read = read_json-write_json same escaped refl

copy_stats_json-reads_example :
    (j : Json) × (z : ℤ) × (read_json (read_c (copy_stats_json answers running)) ≡ ok j)
    × (field (text "state") j ≡ some (number (pos 1)))
    × (field (text "version") j ≡ some (string (text "26.1.13")))
    × (field (text "uptimeSeconds") j ≡ some (number z))
    × IsUptime answers running z
    × (counted uplink j ≡ some (number (pos 1500)))
    × (counted downlink j ≡ some (number (negsuc 6)))
unfolding is_ascii bytes_eq
copy_stats_json-reads_example = copy_stats_json-reads answers running refl

abbrev counting : Bridge
counting = record bridge_init { frames_in = 2; bytes_in = 2900 }

packet_bridge_copy_stats_json-reads_example :
    (j : Json) × (read_json (read_c (packet_bridge_copy_stats_json same counting)) ≡ ok j)
    × (field (text "state") j ≡ some (number (pos 0)))
    × (field (text "framesIn") j ≡ some (number (pos 2)))
    × (field (text "framesOut") j ≡ some (number (pos 0)))
    × (field (text "bytesIn") j ≡ some (number (pos 2900)))
    × (field (text "bytesOut") j ≡ some (number (pos 0)))
    × (field (text "lastError") j ≡ some (string (text "ok")))
unfolding is_ascii
packet_bridge_copy_stats_json-reads_example = packet_bridge_copy_stats_json-reads same counting refl
