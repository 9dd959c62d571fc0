-- ===== src/Tests/Engines.antt =====
-- apple-wrapper/folo_apple.go at concrete calls.
use folo_xray_apple.Prelude.{
  ◌≡◌, refl, true, Option, none, some, text, Bytes, bytes_eq, if◌then◌else◌,
}
use folo_xray_apple.Router.Decision.{Config, new_router, mode_global}
use folo_xray_apple.Wrapper.Engine.{
  Process, init, Answers, start_instance, started, after_close, close_instance, stop_netstack,
  netstack_start_with, start_netstack, succeeds, clear_error, default_config, or_default,
  copy_config, validate_config, start_json, stop, netstack_start, status_ok,
}
use folo_xray_apple.Wrapper.Engine.Reach.{start, later, starting, starting_netstack}
use folo_xray_apple.Wrapper.Engine.States.{IsIdle, IsCoherent}
use folo_xray_apple.Wrapper.Engine.Coherent.{Reach-IsCoherent}
use folo_xray_apple.Wrapper.Engine.Calls.{IsReported, calls-IsReported, start_json-netstack_start}
use folo_xray_apple.Tests.Routing.{env}

abbrev global_routing : Config
global_routing = record default_config { mode = mode_global }

-- A core that takes the text "{}" as a configuration.
abbrev core : Answers Bytes
core = record {
  load_config = λ s. if bytes_eq s (text "{}") then some s else none;
  creates = λ s. true;
  starts = true;
  closes = true;
  routing = λ s. some global_routing;
  creates_stack = true;
  now = 7;
}

abbrev config : Option Bytes
config = some (text "{}")

abbrev running : Process
running = (netstack_start core env (start_json core config 2 init).1).1

-- An engine that was started, stopped and started again is running instance 1.
restarted : (start_json core config 2 (stop core running).1).1.engine.instance_id ≡ some 1
unfolding start_json start_instance started stop after_close close_instance stop_netstack
    netstack_start netstack_start_with start_netstack copy_config bytes_eq succeeds clear_error
restarted = refl

Reach-IsCoherent_example : IsCoherent env running
Reach-IsCoherent_example =
    Reach-IsCoherent env (later (later start (starting core config 2)) (starting_netstack core))

calls-IsReported_example :
    IsReported (validate_config core config 2 running)
    × IsReported (start_json core config 2 running)
    × IsReported (stop core running)
    × IsReported (netstack_start core env running)
calls-IsReported_example = calls-IsReported env core config 2 running

init-IsIdle : IsIdle env init
init-IsIdle = record { no_instance = refl; state = refl; no_stack = refl; closed = refl }

start_json-netstack_start_example :
    (bytes : Bytes) × (copy_config config 2 ≡ some bytes)
    × ((netstack_start core env (start_json core config 2 init).1).0 ≡ status_ok)
    × (running.netstack
        ≡ some (record { dials = 0; router = new_router env (or_default (core.routing bytes)) }))
unfolding start_json start_instance started copy_config bytes_eq succeeds clear_error
start_json-netstack_start_example =
    start_json-netstack_start env core core config 2 init init-IsIdle refl refl
