-- ===== src/Wrapper/Engine/Reach.antt =====
-- The processes that calls of the ABI (apple-wrapper/folo_apple.go) lead to, in any order and from any
-- threads. `FoloXrayNetstackStop` holds the engine lock for its second half only, so it is two steps,
-- between which other calls may come.
use folo_xray_apple.Prelude.{ℕ, Bytes, Option}
use folo_xray_apple.Router.Decision.{Env}
use folo_xray_apple.Wrapper.Engine.{
  Process, init, Answers, validate_config, start_json, stop, netstack_start, stop_netstack,
  clear_error,
}

module _ (Parsed : Type 0) (env : Env) where
  pub data Step (p : Process) : Process → Type 0 where
    validating :
        (core : Answers Parsed) (pointer : Option Bytes) (size : ℕ)
        → Step p (validate_config core pointer size p).1
    starting :
        (core : Answers Parsed) (pointer : Option Bytes) (size : ℕ)
        → Step p (start_json core pointer size p).1
    stopping : (core : Answers Parsed) → Step p (stop core p).1
    starting_netstack : (core : Answers Parsed) → Step p (netstack_start core env p).1
    stopping_netstack : Step p (stop_netstack p)
    clearing : Step p (clear_error p)

  pub data Reach : Process → Type 0 where
    start : Reach init
    later : {p q : Process} → Reach p → Step p q → Reach q
