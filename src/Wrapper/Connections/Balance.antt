-- ===== src/Wrapper/Connections/Balance.antt =====
-- The tokens and the wait group of apple-wrapper/netstack.go in every reachable state.
use folo_xray_apple.Prelude.{
  ℕ, ◌+◌, ◌≤◌, ◌≡◌, refl, sym, ap, subst, ◌∙◌, arith, true, List, ◌∷◌, ◌++◌, ok,
}
use folo_xray_apple.Router.Decision.{Env, Router}
use folo_xray_apple.Wrapper.Connections.{
  Texts, max_concurrent_tcp, max_concurrent_udp, Pool, Request, Place, System, init_system,
  handler_step, ConnectionStep, arriving, going_on, closing, waiting, ConnectionSteps, here, later,
}
use folo_xray_apple.Wrapper.Connections.Held.{holds_tcp, holds_udp, runs, total, total-append, Fits}
use folo_xray_apple.Wrapper.Connections.Advance.{Advance, handler_step-Advance}

-- The tokens taken are those that handlers hold, the counter of the wait group is the number of
-- goroutines, and once work.Wait has returned there is none.
pub record IsBalanced (s : System) : Type 0 where
  pub tcp_held : s.pool.tcp_tokens ≡ total holds_tcp s.handlers
  pub tcp_cap : s.pool.tcp_tokens ≤ max_concurrent_tcp
  pub udp_held : s.pool.udp_tokens ≡ total holds_udp s.handlers
  pub udp_cap : s.pool.udp_tokens ≤ max_concurrent_udp
  pub running : s.pool.work ≡ total runs s.handlers
  pub over : s.waited ≡ true → (s.pool.closed ≡ true) × (s.pool.work ≡ 0)

-- What the handlers beside one of them hold and run.
abbrev pub others : (Request × Place → ℕ) → (before after : List (Request × Place)) → ℕ
others f before after = total f before + total f after

pub total-others :
    (f : Request × Place → ℕ) (before after : List (Request × Place)) (h : Request × Place)
    → total f (before ++ h ∷ after) ≡ others f before after + f h
total-others f before after h = omega (arith, total-append f before (h ∷ after))

pub IsBalanced-Fits :
    (s : System) (before after : List (Request × Place)) (h : Request × Place)
    → s.handlers ≡ before ++ h ∷ after
    → IsBalanced s
    → Fits
        (others holds_tcp before after)
        (others holds_udp before after)
        (others runs before after)
        s.pool
        h
IsBalanced-Fits s before after h e b =
    let sum : (f : Request × Place → ℕ) → total f s.handlers ≡ others f before after + f h =
      λ f. ap (total f) e ∙ total-others f before after h in
    record {
      tcp_held = b.tcp_held ∙ sum holds_tcp;
      tcp_cap = b.tcp_cap;
      udp_held = b.udp_held ∙ sum holds_udp;
      udp_cap = b.udp_cap;
      running = b.running ∙ sum runs;
    }

pub init_system-IsBalanced : IsBalanced init_system
init_system-IsBalanced = record {
  tcp_held = refl;
  tcp_cap = omega arith;
  udp_held = refl;
  udp_cap = omega arith;
  running = refl;
  over = λ e. absurd cc;
}

module _ (env : Env) (texts : Texts) (router : Router) where
  pub going_on-IsBalanced :
      (s : System) (before after : List (Request × Place)) (r : Request) (place next : Place)
      (q : Pool)
      → s.handlers ≡ before ++ (r, place) ∷ after
      → Advance
          (others holds_tcp before after)
          (others holds_udp before after)
          (others runs before after)
          s.pool
          r
          place
          q
          next
      → IsBalanced s
      → IsBalanced (record s { pool = q; handlers = before ++ (r, next) ∷ after })
  going_on-IsBalanced s before after r place next q e a b = record {
    tcp_held = a.fits.tcp_held ∙ sym (total-others holds_tcp before after (r, next));
    tcp_cap = a.fits.tcp_cap;
    udp_held = a.fits.udp_held ∙ sym (total-others holds_udp before after (r, next));
    udp_cap = a.fits.udp_cap;
    running = a.fits.running ∙ sym (total-others runs before after (r, next));
    over = λ w.
        let (closed, none_left) = b.over w in
        (a.same_closed ∙ closed, omega (arith, a.no_more closed));
  }

  step-Advance :
      (t u w : ℕ) (r : Request) (p : Pool) (place : Place) (q : Pool) (next : Place)
      → handler_step env texts router r p place ≡ ok (q, next)
      → Fits t u w p (r, place)
      → Advance t u w p r place q next
  step-Advance t u w r p place q next moved f =
      let (q', next', steps, a) = handler_step-Advance env texts router t u w r p place f in
      let same : ◌≡◌ {A = Pool × Place} (q', next') (q, next) = cc (steps, moved) in
      subst (λ o. Advance t u w p r place o.0 o.1) same a

  ConnectionStep-IsBalanced :
      (s t : System) → ConnectionStep env texts router s t → IsBalanced s → IsBalanced t
  ConnectionStep-IsBalanced s t (arriving r) b = record {
    tcp_held = ground (arith, b.tcp_held);
    tcp_cap = b.tcp_cap;
    udp_held = ground (arith, b.udp_held);
    udp_cap = b.udp_cap;
    running = ground (arith, b.running);
    over = b.over;
  }
  ConnectionStep-IsBalanced s t (going_on before after r place {q = q} {next = next} e moved) b =
      going_on-IsBalanced s before after r place next q e
        (step-Advance _ _ _ r s.pool place q next moved
          (IsBalanced-Fits s before after (r, place) e b))
        b
  ConnectionStep-IsBalanced s t closing b = record {
    tcp_held = b.tcp_held;
    tcp_cap = b.tcp_cap;
    udp_held = b.udp_held;
    udp_cap = b.udp_cap;
    running = b.running;
    over = λ w. (refl, (b.over w).1);
  }
  ConnectionStep-IsBalanced s t (waiting closed none_left) b = record {
    tcp_held = b.tcp_held;
    tcp_cap = b.tcp_cap;
    udp_held = b.udp_held;
    udp_cap = b.udp_cap;
    running = b.running;
    over = λ w. (closed, none_left);
  }

  -- At any moment, whatever requests arrive and however their handlers and `close` run side by side, as
  -- many TCP tokens and as many UDP tokens are taken as handlers hold, at most 48 of each; the counter
  -- of the wait group is the number of goroutines; and once work.Wait has returned there is none.
  pub ConnectionSteps-IsBalanced :
      (s : System) → ConnectionSteps env texts router init_system s → IsBalanced s
  ConnectionSteps-IsBalanced s here = init_system-IsBalanced
  ConnectionSteps-IsBalanced s (later {t = t} before step) =
      ConnectionStep-IsBalanced t s step (ConnectionSteps-IsBalanced t before)
