-- ===== src/Wrapper/Engine.antt =====
-- apple-wrapper/folo_apple.go: the engine behind the ABI, and `startNetstack` and `stopNetstack` of
-- apple-wrapper/netstack.go as far as they change `netstack.runtime`. A call that holds the engine
-- lock throughout is one step. An instance is the number of core.New calls that succeeded before it.
-- `open_instances` and `closed_instances` record the calls of core.New and of Close.
pub mod Reach
pub mod States
pub mod Stacks
pub mod Coherent
pub mod Calls
pub mod Profiles
use folo_xray_apple.Prelude.{
  ℕ, suc, ◌*◌, Bool, true, false, ◌||◌, List, [], ◌∷◌, Option, none, some, ltb, ◌==◌, if◌then◌else◌,
  take, text, Bytes,
}
use folo_xray_apple.Router.Decision.{Env, Config, Router, new_router, mode_rule}

abbrev pub max_config_bytes : ℕ
max_config_bytes = 4 * 1024 * 1024

abbrev pub status_ok : ℕ
status_ok = 0

abbrev pub status_invalid_argument : ℕ
status_invalid_argument = 1

abbrev pub status_invalid_configuration : ℕ
status_invalid_configuration = 2

abbrev pub status_invalid_state : ℕ
status_invalid_state = 3

abbrev pub status_start_failed : ℕ
status_start_failed = 4

abbrev pub status_stop_failed : ℕ
status_stop_failed = 5

abbrev pub state_idle : ℕ
state_idle = 0

abbrev pub state_running : ℕ
state_running = 1

abbrev pub default_config : Config
default_config = record {
  mode = mode_rule;
  custom_direct_domains = [];
  custom_proxy_domains = [];
  custom_block_domains = [];
  custom_direct_ips = [];
  custom_proxy_ips = [];
  custom_block_ips = [];
}

pub record Engine : Type 0 where
  pub instance_id : Option ℕ
  pub router_config : Config
  pub state : ℕ
  pub last_code : ℕ
  pub last_error : Bytes
  pub started_at : Option ℕ

-- `netstackRuntime`, by what `newNetstackRuntime` is given.
pub record Runtime : Type 0 where
  pub dials : ℕ
  pub router : Router

pub record Process : Type 0 where
  pub engine : Engine
  pub netstack : Option Runtime
  pub open_instances : ℕ
  pub closed_instances : List ℕ

abbrev pub init : Process
init = record {
  engine = record {
    instance_id = none;
    router_config = default_config;
    state = state_idle;
    last_code = status_ok;
    last_error = text "ok";
    started_at = none;
  };
  netstack = none;
  open_instances = 0;
  closed_instances = [];
}

-- What core.LoadConfig, core.New, Start, Close, json.Unmarshal of the routing part, the creation of
-- a network stack and time.Now answer during one call.
pub record Answers (Parsed : Type 0) : Type 0 where
  pub load_config : Bytes → Option Parsed
  pub creates : Parsed → Bool
  pub starts : Bool
  pub closes : Bool
  pub routing : Bytes → Option Config
  pub creates_stack : Bool
  pub now : ℕ

unfoldable pub set_error : ℕ → Bytes → Process → Process
set_error code message p = record p {
  engine = record p.engine { last_code = code; last_error = message };
}

unfoldable pub clear_error : Process → Process
clear_error p = record p {
  engine = record p.engine { last_code = status_ok; last_error = text "ok" };
}

-- `return setErrorLocked(code, message)`
unfoldable pub fails : ℕ → Bytes → Process → ℕ × Process
fails code message p = (code, set_error code message p)

-- `clearErrorLocked(); return statusOK`
unfoldable pub succeeds : Process → ℕ × Process
succeeds p = (status_ok, clear_error p)

-- `copyConfig`: `none` is the nil pointer, and the bytes are those from the pointer on.
unfoldable pub copy_config : Option Bytes → ℕ → Option Bytes
copy_config none size = none
copy_config (some bytes) size =
    if size == 0 || ltb max_config_bytes size then none else some (take size bytes)

abbrev pub is_some {ℓ} : {A : Type ℓ} → Option A → Bool
is_some none = false
is_some (some a) = true

abbrev pub or_default : Option Config → Config
or_default none = default_config
or_default (some config) = config

-- The part of `stopNetstack` under its lock; the old runtime is closed after it.
unfoldable pub stop_netstack : Process → Process
stop_netstack p = record p { netstack = none }

module _ {Parsed : Type 0} (core : Answers Parsed) where
  -- `FoloXrayValidateConfigJSON`
  unfoldable pub validate_config : Option Bytes → ℕ → Process → ℕ × Process
  validate_config pointer size p = elim (copy_config pointer size) [
    | none ↦ fails status_invalid_argument (text "configuration bytes are empty or too large") p
    | some config ↦ elim (core.load_config config) [
      | none ↦ fails status_invalid_configuration (text "configuration rejected") p
      | some parsed ↦ succeeds p
    ]
  ]

  -- `engine.instance.Close()` or `instance.Close()`
  unfoldable pub close_instance : ℕ → Process → Process
  close_instance i p = record p { closed_instances = i ∷ p.closed_instances }

  -- `FoloXrayStartJSON` after `instance.Start()` has returned no error.
  unfoldable pub started : Bytes → ℕ → Process → ℕ × Process
  started config i p = succeeds (record p {
    engine = record p.engine {
      router_config = or_default (core.routing config);
      instance_id = some i;
      state = state_running;
      started_at = some core.now;
    };
  })

  -- `FoloXrayStartJSON` after `core.New` has returned instance `i`.
  unfoldable pub start_instance : Bytes → ℕ → Process → ℕ × Process
  unfolding close_instance
  start_instance config i p =
      if core.starts
      then started config i p
      else fails status_start_failed (text "engine start failed") (close_instance i p)

  -- `FoloXrayStartJSON`
  unfoldable pub start_json : Option Bytes → ℕ → Process → ℕ × Process
  start_json pointer size p =
      if is_some p.engine.instance_id || p.engine.state == state_running
      then fails status_invalid_state (text "engine is already running") p
      else elim (copy_config pointer size) [
        | none ↦ fails status_invalid_argument (text "configuration bytes are empty or too large") p
        | some config ↦ elim (core.load_config config) [
          | none ↦ fails status_invalid_configuration (text "configuration rejected") p
          | some parsed ↦
              if core.creates parsed
              then start_instance config p.open_instances
                  (record p { open_instances = suc p.open_instances })
              else fails status_start_failed (text "engine creation failed") p
        ]
      ]

  -- The part of `FoloXrayStop` after `engine.instance.Close()`.
  unfoldable pub after_close : Process → ℕ × Process
  after_close p =
      let idle = record p { engine = record p.engine { instance_id = none; state = state_idle } } in
      if core.closes
      then succeeds (record idle { engine = record idle.engine { started_at = none } })
      else fails status_stop_failed (text "engine stop failed") idle

  -- `FoloXrayStop`
  unfoldable pub stop : Process → ℕ × Process
  unfolding stop_netstack close_instance after_close
  stop p = elim p.engine.instance_id [
    | none ↦ succeeds (record p { engine = record p.engine { state = state_idle } })
    | some i ↦ after_close (close_instance i (stop_netstack p))
  ]

  -- `startNetstack`: `none` is an error.
  unfoldable pub start_netstack : ℕ → Router → Process → Option Process
  start_netstack i router p =
      if is_some p.netstack
      then none
      else if core.creates_stack
      then some (record p { netstack = some (record { dials = i; router = router }) })
      else none

  module _ (env : Env) where
    -- `FoloXrayNetstackStart` with the instance of a running engine.
    unfoldable pub netstack_start_with : ℕ → Process → ℕ × Process
    netstack_start_with i p = elim (start_netstack i (new_router env p.engine.router_config) p) [
      | none ↦ fails status_start_failed (text "netstack start failed") p
      | some q ↦ succeeds q
    ]

    -- `FoloXrayNetstackStart`
    unfoldable pub netstack_start : Process → ℕ × Process
    unfolding netstack_start_with
    netstack_start p = elim p.engine.instance_id [
      | none ↦ fails status_invalid_state (text "engine is not running") p
      | some i ↦
          if p.engine.state == state_running
          then netstack_start_with i p
          else fails status_invalid_state (text "engine is not running") p
    ]
