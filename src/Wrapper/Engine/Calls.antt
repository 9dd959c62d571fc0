-- ===== src/Wrapper/Engine/Calls.antt =====
-- What single calls of the ABI (apple-wrapper/folo_apple.go) return and leave behind.
use folo_xray_apple.Prelude.{
  ℕ, true, Option, none, some, text, Bytes, ◌≡◌, inl, inr, ◌↔◌, Option-cases, arith,
}
use folo_xray_apple.Router.Decision.{Env, new_router}
use folo_xray_apple.Wrapper.Engine.{
  Process, Answers, validate_config, start_json, stop, netstack_start, stop_netstack, status_ok,
  state_idle, fails, succeeds, set_error, clear_error, copy_config, after_close, close_instance,
  started, start_instance, netstack_start_with, start_netstack, or_default,
}
use folo_xray_apple.Wrapper.Engine.States.{IsIdle}

-- The call returns the code that FoloXrayLastErrorCode returns after it, and FoloXrayCopyLastError
-- says "ok" for success and something else for a failure.
pub record IsReported (call : ℕ × Process) : Type 0 where
  pub code : call.1.engine.last_code ≡ call.0
  pub message : (call.0 ≡ status_ok) ↔ (call.1.engine.last_error ≡ text "ok")

module _ {Parsed : Type 0} (env : Env) (core : Answers Parsed) where
  validate_config-IsReported :
      (pointer : Option Bytes) (size : ℕ) (p : Process)
      → IsReported (validate_config core pointer size p)
  unfolding validate_config fails succeeds set_error clear_error
  validate_config-IsReported pointer size p = record { code = ground arith; message = ground arith }

  start_json-IsReported :
      (pointer : Option Bytes) (size : ℕ) (p : Process)
      → IsReported (start_json core pointer size p)
  unfolding start_json start_instance started fails succeeds set_error clear_error
  start_json-IsReported pointer size p = record { code = ground arith; message = ground arith }

  stop-IsReported : (p : Process) → IsReported (stop core p)
  unfolding stop after_close fails succeeds set_error clear_error
  stop-IsReported p = record { code = ground arith; message = ground arith }

  netstack_start-IsReported : (p : Process) → IsReported (netstack_start core env p)
  unfolding netstack_start netstack_start_with start_netstack fails succeeds set_error clear_error
  netstack_start-IsReported p = record { code = ground arith; message = ground arith }

  -- Whatever the engine does, each of FoloXrayValidateConfigJSON, FoloXrayStartJSON, FoloXrayStop and
  -- FoloXrayNetstackStart returns the code that FoloXrayLastErrorCode tells afterwards, and the last
  -- error is "ok" exactly after a success.
  pub calls-IsReported :
      (pointer : Option Bytes) (size : ℕ) (p : Process)
      → IsReported (validate_config core pointer size p)
        × IsReported (start_json core pointer size p)
        × IsReported (stop core p)
        × IsReported (netstack_start core env p)
  calls-IsReported pointer size p = (
    validate_config-IsReported pointer size p,
    start_json-IsReported pointer size p,
    stop-IsReported p,
    netstack_start-IsReported p,
  )

  -- On an idle engine FoloXrayStartJSON succeeds exactly if the bytes are there, parse, and core.New
  -- and Start succeed on them.
  pub start_json-ok_iff :
      (pointer : Option Bytes) (size : ℕ) (p : Process)
      → IsIdle env p
      → ((start_json core pointer size p).0 ≡ status_ok) ↔ (
          (config : Bytes) × (parsed : Parsed) × (copy_config pointer size ≡ some config)
          × (core.load_config config ≡ some parsed)
          × (core.creates parsed ≡ true)
          × (core.starts ≡ true))
  unfolding start_json start_instance started fails succeeds
  start_json-ok_iff pointer size p idle = elim (Option-cases (copy_config pointer size)) [
    | inl e ↦ ground arith
    | inr (config, e) ↦ elim (Option-cases (core.load_config config)) [
      | inl l ↦ ground arith
      | inr (parsed, l) ↦ (λ h. (config, parsed, e, l, ground arith, ground arith), ground arith)
    ]
  ]

  -- FoloXrayStop leaves no instance, no running state and no network stack of an engine that ran,
  -- whether the instance closes with an error or not, and returns success exactly if it does not.
  pub stop-idle :
      (i : ℕ) (p : Process)
      → p.engine.instance_id ≡ some i
      → ((stop core p).1.engine.instance_id ≡ none)
        × ((stop core p).1.engine.state ≡ state_idle)
        × ((stop core p).1.netstack ≡ none)
        × (((stop core p).0 ≡ status_ok) ↔ (core.closes ≡ true))
  unfolding stop after_close fails succeeds set_error clear_error close_instance stop_netstack
  stop-idle i p h = (ground arith, ground arith, ground arith, ground arith)

  start_json-runs :
      (pointer : Option Bytes) (size : ℕ) (p : Process)
      → IsIdle env p
      → (config : Bytes) (parsed : Parsed) {Other : Type 0} (later : Answers Other)
      → copy_config pointer size ≡ some config
      → core.load_config config ≡ some parsed
      → core.creates parsed ≡ true
      → core.starts ≡ true
      → later.creates_stack ≡ true
      → ((netstack_start later env (start_json core pointer size p).1).0 ≡ status_ok)
        × ((netstack_start later env (start_json core pointer size p).1).1.netstack
            ≡ some (record {
              dials = p.open_instances;
              router = new_router env (or_default (core.routing config));
            }))
  unfolding start_json start_instance started fails succeeds netstack_start netstack_start_with
      start_netstack set_error clear_error
  start_json-runs pointer size p idle config parsed later e l c s stack =
      (ground arith, ground arith)

  -- After FoloXrayStartJSON has succeeded on an idle engine, FoloXrayNetstackStart succeeds if the
  -- network stack can be made, and the stack dials through the new instance with the router of the
  -- "routing" part of the same bytes, or with the default router where there is none.
  pub start_json-netstack_start :
      {Other : Type 0} (later : Answers Other) (pointer : Option Bytes) (size : ℕ) (p : Process)
      → IsIdle env p
      → (start_json core pointer size p).0 ≡ status_ok
      → later.creates_stack ≡ true
      → (config : Bytes) × (copy_config pointer size ≡ some config)
        × ((netstack_start later env (start_json core pointer size p).1).0 ≡ status_ok)
        × ((netstack_start later env (start_json core pointer size p).1).1.netstack
            ≡ some (record {
              dials = p.open_instances;
              router = new_router env (or_default (core.routing config));
            }))
  unfolding start_json start_instance started fails succeeds netstack_start netstack_start_with
      start_netstack set_error clear_error
  start_json-netstack_start later pointer size p idle h stack =
      let (config, parsed, e, l, c, s) = (start_json-ok_iff pointer size p idle).0 h in
      let (returned, stack_is) =
        start_json-runs pointer size p idle config parsed later e l c s stack in
      (config, e, returned, stack_is)
