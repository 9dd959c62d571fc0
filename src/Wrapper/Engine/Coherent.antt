-- ===== src/Wrapper/Engine/Coherent.antt =====
-- What holds of every process that calls of the ABI (apple-wrapper/folo_apple.go) lead to.
use folo_xray_apple.Prelude.{
  ℕ, suc, ◌∷◌, Option, none, some, text, Bytes, ◌≡◌, refl, inl, inr, Option-cases, Bool-cases,
  arith, sym, ap, ◌∙◌,
}
use folo_xray_apple.Router.Decision.{Env}
use folo_xray_apple.Wrapper.Engine.{
  Process, Answers, validate_config, start_json, stop, stop_netstack, state_idle, copy_config,
  after_close, close_instance, started, start_instance,
}
use folo_xray_apple.Wrapper.Engine.Reach.{
  Step, Reach, validating, starting, stopping, starting_netstack, stopping_netstack, clearing,
  start, later,
}
use folo_xray_apple.Wrapper.Engine.Stacks.{netstack_start-IsCoherent}
use folo_xray_apple.Wrapper.Engine.States.{
  countdown, IsCoherent, init-IsCoherent, clear_error-IsCoherent, stop_netstack-IsCoherent,
  fails-IsCoherent, succeeds-IsCoherent,
}

module _ (env : Env) where
  module _ {Parsed : Type 0} (core : Answers Parsed) where
    validate_config-IsCoherent :
        (pointer : Option Bytes) (size : ℕ) (p : Process)
        → IsCoherent env p
        → IsCoherent env (validate_config core pointer size p).1
    unfolding validate_config
    validate_config-IsCoherent pointer size p h = ground (
      arith,
      fails-IsCoherent env 1 (text "configuration bytes are empty or too large") p h,
      fails-IsCoherent env 2 (text "configuration rejected") p h,
      succeeds-IsCoherent env p h,
    )

    after_close-IsCoherent :
        (i : ℕ) (p : Process)
        → p.open_instances ≡ suc i
        → p.closed_instances ≡ countdown (suc i)
        → p.netstack ≡ none
        → IsCoherent env (after_close core p).1
    unfolding after_close
    after_close-IsCoherent i p opened closed no_stack =
        let idle = record p {
          engine = record p.engine { instance_id = none; state = state_idle };
        } in
        let h : IsCoherent env idle = inl (record {
          no_instance = refl;
          state = refl;
          no_stack = no_stack;
          closed = closed ∙ ap countdown (sym opened);
        }) in
        let k : IsCoherent env (record idle { engine = record idle.engine { started_at = none } }) =
          inl (record {
            no_instance = refl;
            state = refl;
            no_stack = no_stack;
            closed = closed ∙ ap countdown (sym opened);
          }) in
        elim (Bool-cases core.closes) [
          | inl e ↦ rw (e) (succeeds-IsCoherent env _ k)
          | inr e ↦ rw (e) (fails-IsCoherent env 5 (text "engine stop failed") idle h)
        ]

    stop-IsCoherent : (p : Process) → IsCoherent env p → IsCoherent env (stop core p).1
    unfolding stop close_instance stop_netstack
    stop-IsCoherent p (inl h) = rw (h.no_instance) (
        succeeds-IsCoherent env _ (
          inl (record {
            no_instance = refl;
            state = refl;
            no_stack = h.no_stack;
            closed = h.closed;
          })))
    stop-IsCoherent p (inr (i, h)) = rw (h.instance_is) (
        after_close-IsCoherent i
          (close_instance core i
            (stop_netstack (record p { engine = record p.engine { instance_id = some i } })))
          h.newest (ap (λ xs. i ∷ xs) h.closed) refl)

    started-IsCoherent :
        (config : Bytes) (i : ℕ) (p : Process)
        → p.open_instances ≡ suc i
        → p.closed_instances ≡ countdown i
        → p.netstack ≡ none
        → IsCoherent env (started core config i p).1
    unfolding started
    started-IsCoherent config i p opened closed no_stack = succeeds-IsCoherent env _ (
        inr (
          i,
          record {
            instance_is = refl;
            state = refl;
            newest = opened;
            closed = closed;
            stack = inl no_stack;
          },
        ))

    start_instance-IsCoherent :
        (config : Bytes) (i : ℕ) (p : Process)
        → p.open_instances ≡ suc i
        → p.closed_instances ≡ countdown i
        → p.netstack ≡ none
        → p.engine.instance_id ≡ none
        → p.engine.state ≡ state_idle
        → IsCoherent env (start_instance core config i p).1
    unfolding start_instance close_instance started
    start_instance-IsCoherent config i p opened closed no_stack no_instance idle =
        elim (Bool-cases core.starts) [
          | inl e ↦ rw (e) (started-IsCoherent config i p opened closed no_stack)
          | inr e ↦ rw (e) (
              fails-IsCoherent env 4 (text "engine start failed") _ (
                inl (record {
                  no_instance = no_instance;
                  state = idle;
                  no_stack = no_stack;
                  closed = ap (λ xs. i ∷ xs) closed ∙ ap countdown (sym opened);
                })))
        ]

    start_json-IsCoherent :
        (pointer : Option Bytes) (size : ℕ) (p : Process)
        → IsCoherent env p
        → IsCoherent env (start_json core pointer size p).1
    unfolding start_json
    start_json-IsCoherent pointer size p (inr (i, h)) = rw (h.instance_is) (
        fails-IsCoherent env _ _ _ (
          inr (
            i,
            record {
              instance_is = refl;
              state = h.state;
              newest = h.newest;
              closed = h.closed;
              stack = h.stack;
            },
          )))
    start_json-IsCoherent pointer size p (inl h) =
        let h1 =
          fails-IsCoherent env 1 (text "configuration bytes are empty or too large") p (inl h) in
        elim (Option-cases (copy_config pointer size)) [
          | inl e ↦ ground arith
          | inr (config, e) ↦
              let h2 = fails-IsCoherent env 2 (text "configuration rejected") p (inl h) in
              let h4 = fails-IsCoherent env 4 (text "engine creation failed") p (inl h) in
              let k =
                start_instance-IsCoherent config p.open_instances
                  (record p { open_instances = suc p.open_instances }) refl h.closed h.no_stack
                  h.no_instance h.state in
              ground arith
        ]

module _ {Parsed : Type 0} (env : Env) where
  Step-IsCoherent : {p q : Process} → IsCoherent env p → Step Parsed env p q → IsCoherent env q
  Step-IsCoherent {p} h (validating core pointer size) =
      validate_config-IsCoherent env core pointer size p h
  Step-IsCoherent {p} h (starting core pointer size) =
      start_json-IsCoherent env core pointer size p h
  Step-IsCoherent {p} h (stopping core) = stop-IsCoherent env core p h
  Step-IsCoherent {p} h (starting_netstack core) = netstack_start-IsCoherent env core p h
  Step-IsCoherent {p} h stopping_netstack = stop_netstack-IsCoherent env p h
  Step-IsCoherent {p} h clearing = clear_error-IsCoherent env p h

  -- In whatever order calls of the ABI come, the engine is idle without an instance or a network stack,
  -- and every instance ever made is closed exactly once; or it is running with the newest instance, all
  -- earlier ones are closed exactly once, and a network stack, if there is one, dials through that
  -- instance and routes by its configuration.
  pub Reach-IsCoherent : {p : Process} → Reach Parsed env p → IsCoherent env p
  Reach-IsCoherent start = init-IsCoherent env
  Reach-IsCoherent (later r s) = Step-IsCoherent (Reach-IsCoherent r) s
