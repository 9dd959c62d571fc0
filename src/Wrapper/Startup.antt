-- ===== src/Wrapper/Startup.antt =====
-- apple-wrapper/netstack.go: `newNetstackRuntime`, with the calls that it makes of the network stack and
-- of its context in their order. The network stack is a parameter: what it answers to the calls that can
-- fail.
pub mod Order
use folo_xray_apple.Prelude.{
  ℕ, ◌*◌, Bool, true, false, List, [], ◌∷◌, ◌++◌, Option, none, some, Outcome, ok, err, panic,
  if◌then◌else◌,
}
use folo_xray_apple.Router.Decision.{Env, Router, new_router}
use folo_xray_apple.Wrapper.Engine.{default_config}
use folo_xray_apple.Wrapper.Connections.{max_concurrent_tcp, max_concurrent_udp}

abbrev pub nic_id : ℕ
nic_id = 1

abbrev pub mtu : ℕ
mtu = 1500

abbrev pub packet_queue_depth : ℕ
packet_queue_depth = 64

abbrev pub tcp_receive_window : ℕ
tcp_receive_window = 16 * 1024

abbrev pub max_tcp_accepts : ℕ
max_tcp_accepts = 16

-- Whether the calls end without an error.
pub record StackAnswers : Type 0 where
  pub sets_receive_buffer : Bool
  pub sets_send_buffer : Bool
  pub creates_nic : Bool
  pub sets_promiscuous : Bool
  pub sets_spoofing : Bool

pub data StartError : Type 0 where
  no_instance no_receive_buffer no_send_buffer no_nic no_promiscuous no_spoofing : StartError

-- The calls: a buffer range is its minimum, default and maximum, the handler of TCP has its window and
-- its number of accepts, and the NIC its id and its link's depth and MTU.
pub data StackCall : Type 0 where
  make_stack set_handler_udp add_notify set_route_table cancel close_stack : StackCall
  set_receive_buffer set_send_buffer : (least usual most : ℕ) → StackCall
  set_handler_tcp : (window accepts : ℕ) → StackCall
  create_nic : (id depth size : ℕ) → StackCall
  set_promiscuous set_spoofing : (id : ℕ) → StackCall

-- The runtime as it starts: the instance and the router of its handlers, and the room of its channels.
pub record NetstackRuntime (Instance : Type 0) : Type 0 where
  pub instance_used : Instance
  pub router : Router
  pub tcp_room : ℕ
  pub udp_room : ℕ

-- The calls and the result.
abbrev pub Startup : Type 0 → Type 0
Startup Instance = List StackCall × Outcome StartError (NetstackRuntime Instance)

-- A call that can fail: an error cancels the context, closes the stack and is returned.
unfoldable pub checked_call :
    {Instance : Type 0} → Bool → StackCall → StartError → Startup Instance → Startup Instance
checked_call answer call e (calls, result) =
    if answer then (call ∷ calls, result) else (call ∷ cancel ∷ close_stack ∷ [], err e)

abbrev pub after : {Instance : Type 0} → List StackCall → Startup Instance → Startup Instance
after before (calls, result) = (before ++ calls, result)

-- A router that is not given is the one of the rule mode without rules.
abbrev pub or_rule_mode : Env → Option Router → Router
or_rule_mode env none = new_router env default_config
or_rule_mode env (some r) = r

abbrev pub new_runtime :
    {Instance : Type 0} → Env → Instance → Option Router → NetstackRuntime Instance
new_runtime env i r = record {
  instance_used = i;
  router = or_rule_mode env r;
  tcp_room = max_concurrent_tcp;
  udp_room = max_concurrent_udp;
}

-- `newNetstackRuntime`
unfoldable pub new_netstack_runtime :
    {Instance : Type 0} → StackAnswers → Env → Option Instance → Option Router → Startup Instance
unfolding checked_call
new_netstack_runtime s env none r = ([], err no_instance)
new_netstack_runtime s env (some i) r =
    let spoofed =
      checked_call s.sets_spoofing (set_spoofing nic_id) no_spoofing
        (set_route_table ∷ [], ok (new_runtime env i r)) in
    let promiscuous =
      checked_call s.sets_promiscuous (set_promiscuous nic_id) no_promiscuous spoofed in
    let attached =
      checked_call s.creates_nic (create_nic nic_id packet_queue_depth mtu) no_nic
        (after (add_notify ∷ []) promiscuous) in
    let handled =
      after (set_handler_tcp tcp_receive_window max_tcp_accepts ∷ set_handler_udp ∷ []) attached in
    let sending =
      checked_call s.sets_send_buffer
        (set_send_buffer (2 * 1024) tcp_receive_window tcp_receive_window) no_send_buffer handled in
    let receiving =
      checked_call s.sets_receive_buffer
        (set_receive_buffer (2 * 1024) tcp_receive_window tcp_receive_window) no_receive_buffer
        sending in
    after (make_stack ∷ []) receiving
