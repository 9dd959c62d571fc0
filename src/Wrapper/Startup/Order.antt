-- ===== src/Wrapper/Startup/Order.antt =====
-- apple-wrapper/netstack.go: `newNetstackRuntime` keeps the protocol of the network stack.
use folo_xray_apple.Prelude.{
  Bool, true, false, not, ◌&&◌, ◌≡◌, ◌⊎◌, inl, inr, refl, List, [], ◌∷◌, Option, none, some, ok,
  err, if◌then◌else◌, Bool-cases,
}
use folo_xray_apple.Router.Decision.{Env, Router}
use folo_xray_apple.Wrapper.Connections.{max_concurrent_tcp, max_concurrent_udp}
use folo_xray_apple.Wrapper.Startup.{
  StackAnswers, StartError, StackCall, make_stack, set_handler_udp, add_notify, set_route_table,
  cancel, close_stack, set_receive_buffer, set_send_buffer, set_handler_tcp, create_nic,
  set_promiscuous, set_spoofing, checked_call, or_rule_mode, new_netstack_runtime,
}

-- How far a stack is.
pub record Stage : Type 0 where
  pub made : Bool
  pub tcp_handled : Bool
  pub udp_handled : Bool
  pub attached : Bool
  pub cancelled : Bool
  pub closed : Bool

abbrev pub unmade : Stage
unmade = record {
  made = false;
  tcp_handled = false;
  udp_handled = false;
  attached = false;
  cancelled = false;
  closed = false;
}

abbrev pub is_up : Stage → Bool
is_up g = g.made && not g.closed

abbrev pub allowed_if : Bool → Stage → Option Stage
allowed_if b g = if b then some g else none

-- The protocol of a stack: a packet can come in as soon as there is a NIC, so both handlers stand before
-- it; there is one NIC; the context is cancelled before the stack is closed; a closed stack has no calls.
abbrev pub call_on : StackCall → Stage → Option Stage
call_on make_stack g = allowed_if (not g.made) (record g { made = true })
call_on (set_receive_buffer a b c) g = allowed_if (is_up g && not g.attached) g
call_on (set_send_buffer a b c) g = allowed_if (is_up g && not g.attached) g
call_on (set_handler_tcp a b) g =
    allowed_if (is_up g && not g.attached) (record g { tcp_handled = true })
call_on set_handler_udp g = allowed_if (is_up g && not g.attached) (record g { udp_handled = true })
call_on (create_nic a b c) g =
    allowed_if (is_up g && g.tcp_handled && g.udp_handled && not g.attached)
      (record g { attached = true })
call_on add_notify g = allowed_if (is_up g && g.attached) g
call_on (set_promiscuous a) g = allowed_if (is_up g && g.attached) g
call_on (set_spoofing a) g = allowed_if (is_up g && g.attached) g
call_on set_route_table g = allowed_if (is_up g && g.attached) g
call_on cancel g = allowed_if (is_up g && not g.cancelled) (record g { cancelled = true })
call_on close_stack g = allowed_if (is_up g && g.cancelled) (record g { closed = true })

-- The stage after some calls, if the protocol allows all of them.
unfoldable pub calls_on : List StackCall → Stage → Option Stage
calls_on [] g = some g
calls_on (c ∷ cs) g = elim (call_on c g) [ none ↦ none | some next ↦ calls_on cs next ]

abbrev pub running : Stage
running = record unmade { made = true; tcp_handled = true; udp_handled = true; attached = true }

abbrev pub all_answer : StackAnswers → Bool
all_answer s =
    s.sets_receive_buffer && s.sets_send_buffer && s.creates_nic && s.sets_promiscuous
    && s.sets_spoofing

-- Whatever the network stack answers, `newNetstackRuntime` with an instance calls it in the order of its
-- protocol. If all calls end well it returns a runtime with this instance, the given router or else the
-- one of the rule mode, 48 TCP and 48 UDP places, and the stack runs; else it returns an error, and the
-- context is cancelled and the stack is closed.
pub new_netstack_runtime-calls_on :
    {Instance : Type 0} (s : StackAnswers) (env : Env) (i : Instance) (r : Option Router)
    → let started = new_netstack_runtime s env (some i) r in
      (stage : Stage) × (calls_on started.0 unmade ≡ some stage)
      × (((all_answer s ≡ true)
            × (stage ≡ running)
            × (started.1
                ≡ ok (record {
                  instance_used = i;
                  router = or_rule_mode env r;
                  tcp_room = max_concurrent_tcp;
                  udp_room = max_concurrent_udp;
                })))
          ⊎ ((all_answer s ≡ false)
              × (stage.cancelled ≡ true)
              × (stage.closed ≡ true)
              × ((e : StartError) × (started.1 ≡ err e))))
unfolding new_netstack_runtime calls_on checked_call
new_netstack_runtime-calls_on s env i r = elim (Bool-cases s.sets_receive_buffer) [
  | inr fails ↦ rw fails (_, refl, inr (refl, refl, refl, (_, refl)))
  | inl receives ↦ elim (Bool-cases s.sets_send_buffer) [
    | inr fails ↦ rw (receives, fails) (_, refl, inr (refl, refl, refl, (_, refl)))
    | inl sends ↦ elim (Bool-cases s.creates_nic) [
      | inr fails ↦ rw (receives, sends, fails) (_, refl, inr (refl, refl, refl, (_, refl)))
      | inl creates ↦ elim (Bool-cases s.sets_promiscuous) [
        | inr fails ↦
            rw (receives, sends, creates, fails) (_, refl, inr (refl, refl, refl, (_, refl)))
        | inl promiscuous ↦ elim (Bool-cases s.sets_spoofing) [
          | inr fails ↦
              rw (receives, sends, creates, promiscuous, fails)
                (_, refl, inr (refl, refl, refl, (_, refl)))
          | inl spoofs ↦
              rw (receives, sends, creates, promiscuous, spoofs) (_, refl, inl (refl, refl, refl))
        ]
      ]
    ]
  ]
]
