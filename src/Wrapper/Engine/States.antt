-- ===== src/Wrapper/Engine/States.antt =====
-- The states of the engine (apple-wrapper/folo_apple.go) between calls, and what its smallest changes
-- keep.
use folo_xray_apple.Prelude.{
  ℕ, zero, suc, List, [], ◌∷◌, none, some, text, Bytes, ◌≡◌, refl, ◌⊎◌, inl, inr,
}
use folo_xray_apple.Router.Decision.{Env, new_router}
use folo_xray_apple.Wrapper.Engine.{
  Process, init, stop_netstack, clear_error, state_idle, state_running, fails, succeeds, set_error,
}

abbrev pub countdown : ℕ → List ℕ
countdown zero = []
countdown (suc n) = n ∷ countdown n

module _ (env : Env) where
  -- No instance, no network stack, and every instance of core.New is closed once.
  pub record IsIdle (p : Process) : Type 0 where
    pub no_instance : p.engine.instance_id ≡ none
    pub state : p.engine.state ≡ state_idle
    pub no_stack : p.netstack ≡ none
    pub closed : p.closed_instances ≡ countdown p.open_instances

  -- Instance `i` is the newest, all before it are closed once, and a network stack dials through it
  -- with the router of its configuration.
  pub record IsRunning (i : ℕ) (p : Process) : Type 0 where
    pub instance_is : p.engine.instance_id ≡ some i
    pub state : p.engine.state ≡ state_running
    pub newest : p.open_instances ≡ suc i
    pub closed : p.closed_instances ≡ countdown i
    pub stack :
        (p.netstack ≡ none)
        ⊎ (p.netstack ≡ some (record { dials = i; router = new_router env p.engine.router_config }))

  abbrev pub IsCoherent : Process → Type 0
  IsCoherent p = IsIdle p ⊎ ((i : ℕ) × IsRunning i p)

  pub init-IsCoherent : IsCoherent init
  init-IsCoherent =
      inl (record { no_instance = refl; state = refl; no_stack = refl; closed = refl })

  pub set_error-IsCoherent :
      (code : ℕ) (message : Bytes) (p : Process)
      → IsCoherent p
      → IsCoherent (set_error code message p)
  unfolding set_error
  set_error-IsCoherent code message p (inl h) = inl (record {
    no_instance = h.no_instance;
    state = h.state;
    no_stack = h.no_stack;
    closed = h.closed;
  })
  set_error-IsCoherent code message p (inr (i, h)) = inr (
    i,
    record {
      instance_is = h.instance_is;
      state = h.state;
      newest = h.newest;
      closed = h.closed;
      stack = h.stack;
    },
  )

  pub clear_error-IsCoherent : (p : Process) → IsCoherent p → IsCoherent (clear_error p)
  unfolding clear_error set_error
  clear_error-IsCoherent p h = set_error-IsCoherent 0 (text "ok") p h

  pub stop_netstack-IsCoherent : (p : Process) → IsCoherent p → IsCoherent (stop_netstack p)
  unfolding stop_netstack
  stop_netstack-IsCoherent p (inl h) =
      inl (record {
        no_instance = h.no_instance;
        state = h.state;
        no_stack = refl;
        closed = h.closed;
      })
  stop_netstack-IsCoherent p (inr (i, h)) = inr (
    i,
    record {
      instance_is = h.instance_is;
      state = h.state;
      newest = h.newest;
      closed = h.closed;
      stack = inl refl;
    },
  )

  pub fails-IsCoherent :
      (code : ℕ) (message : Bytes) (p : Process)
      → IsCoherent p
      → IsCoherent (fails code message p).1
  unfolding fails
  fails-IsCoherent = set_error-IsCoherent

  pub succeeds-IsCoherent : (p : Process) → IsCoherent p → IsCoherent (succeeds p).1
  unfolding succeeds
  succeeds-IsCoherent = clear_error-IsCoherent
