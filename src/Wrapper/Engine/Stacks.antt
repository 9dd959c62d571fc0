-- ===== src/Wrapper/Engine/Stacks.antt =====
-- FoloXrayNetstackStart (apple-wrapper/folo_apple.go) keeps what holds of every process.
use folo_xray_apple.Prelude.{ℕ, none, refl, inl, inr, Bool-cases}
use folo_xray_apple.Router.Decision.{Env}
use folo_xray_apple.Wrapper.Engine.{
  Process, Answers, netstack_start, netstack_start_with, start_netstack,
}
use folo_xray_apple.Wrapper.Engine.States.{
  IsRunning, IsCoherent, fails-IsCoherent, succeeds-IsCoherent,
}

module _ (env : Env) where
  module _ {Parsed : Type 0} (core : Answers Parsed) where
    netstack_start_with-IsCoherent :
        (i : ℕ) (p : Process)
        → IsRunning env i p
        → IsCoherent env (netstack_start_with core env i p).1
    unfolding netstack_start_with start_netstack
    netstack_start_with-IsCoherent i p h = elim h.stack [
      | inl absent ↦ elim (Bool-cases core.creates_stack) [
        | inl e ↦
            rw (absent, e)
              (succeeds-IsCoherent env _ (
                inr (
                  i,
                  record {
                    instance_is = h.instance_is;
                    state = h.state;
                    newest = h.newest;
                    closed = h.closed;
                    stack = inr refl;
                  },
                )))
        | inr e ↦
            rw (absent, e)
              (fails-IsCoherent env _ _ (record p { netstack = none })
                (inr (
                  i,
                  record {
                    instance_is = h.instance_is;
                    state = h.state;
                    newest = h.newest;
                    closed = h.closed;
                    stack = inl refl;
                  },
                )))
      ]
      | inr present ↦ rw (present) (
          fails-IsCoherent env _ _ _ (
            inr (
              i,
              record {
                instance_is = h.instance_is;
                state = h.state;
                newest = h.newest;
                closed = h.closed;
                stack = inr refl;
              },
            )))
    ]

    pub netstack_start-IsCoherent :
        (p : Process) → IsCoherent env p → IsCoherent env (netstack_start core env p).1
    unfolding netstack_start
    netstack_start-IsCoherent p (inl h) = rw (h.no_instance) (
        fails-IsCoherent env _ _ _ (
          inl (record {
            no_instance = refl;
            state = h.state;
            no_stack = h.no_stack;
            closed = h.closed;
          })))
    netstack_start-IsCoherent p (inr (i, h)) =
        rw (h.instance_is, h.state)
          (netstack_start_with-IsCoherent i _ (record {
            instance_is = refl;
            state = refl;
            newest = h.newest;
            closed = h.closed;
            stack = h.stack;
          }))
