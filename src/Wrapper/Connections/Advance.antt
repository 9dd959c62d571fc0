-- ===== src/Wrapper/Connections/Advance.antt =====
-- A step of one handler of apple-wrapper/netstack.go among the others.
use folo_xray_apple.Prelude.{
  ℕ, suc, ◌≤◌, ◌≡◌, ◌≢◌, refl, arith, true, Option-cases, inl, inr, Bool-cases, ok,
}
use folo_xray_apple.Router.Decision.{Env, Router}
use folo_xray_apple.Wrapper.Connections.{
  Texts, Pool, Request, Place, arrived, holding, ready, stopped, working, returned, ended,
  discarded, served, refused, take_token, start_work, work_done, returns, handler_step,
}
use folo_xray_apple.Wrapper.Connections.Held.{
  holds, runs, Fits, Freed, release_token-Freed, take_token-Fits,
}

-- A place that is nearer to the end.
abbrev pub rank : Place → ℕ
rank arrived = 5
rank holding = 4
rank ready = 3
rank stopped = 2
rank working = 2
rank returned = 1
rank (ended e) = 0

-- What a step of a handler leaves.
pub record Advance (t u w : ℕ) (p : Pool) (r : Request) (place : Place) (q : Pool) (next : Place)
    : Type 0 where
  pub fits : Fits t u w q (r, next)
  pub same_closed : q.closed ≡ p.closed
  pub no_more : p.closed ≡ true → q.work ≤ p.work
  pub nearer : rank place ≢ 0 → suc (rank next) ≤ rank place

-- A step that leaves the pool as it is.
staying-Advance :
    (t u w : ℕ) (p : Pool) (r : Request) (place next : Place)
    → Fits t u w p (r, place)
    → holds next ≡ holds place
    → runs (r, next) ≡ runs (r, place)
    → (rank place ≢ 0 → suc (rank next) ≤ rank place)
    → Advance t u w p r place p next
staying-Advance t u w p r place next f held ran nearer = record {
  fits = record {
    tcp_held = ground (arith, f.tcp_held);
    tcp_cap = f.tcp_cap;
    udp_held = ground (arith, f.udp_held);
    udp_cap = f.udp_cap;
    running = omega (arith, f.running, ran);
  };
  same_closed = refl;
  no_more = λ c. omega arith;
  nearer = nearer;
}

-- A step that returns the token.
Freed-Advance :
    (t u w : ℕ) (p : Pool) (r : Request) (place next : Place) (a : Freed t u w p r next)
    → suc (rank next) ≤ rank place
    → Advance t u w p r place a.pool next
Freed-Advance t u w p r place next a nearer = record {
  fits = a.fits;
  same_closed = a.same_closed;
  no_more = λ c. omega (arith, a.same_work);
  nearer = λ c. nearer;
}

module _ (env : Env) (texts : Texts) (router : Router) where
  -- The step of a handler from one place to another.
  Steps : (t u w : ℕ) → Request → Pool → Place → Type 0
  Steps t u w r p place =
      (q : Pool) × (next : Place) × (handler_step env texts router r p place ≡ ok (q, next))
      × Advance t u w p r place q next

  freeing :
      (t u w : ℕ) (r : Request) (p : Pool) (place next : Place) (a : Freed t u w p r next)
      → handler_step env texts router r p place ≡ ok (a.pool, next)
      → suc (rank next) ≤ rank place
      → Steps t u w r p place
  unfolding Steps
  freeing t u w r p place next a e nearer =
      (a.pool, next, e, Freed-Advance t u w p r place next a nearer)

  -- A handler is never blocked, and does not take the counter below zero.
  pub handler_step-Advance :
      (t u w : ℕ) (r : Request) (p : Pool) (place : Place)
      → Fits t u w p (r, place)
      → (q : Pool) × (next : Place) × (handler_step env texts router r p place ≡ ok (q, next))
        × Advance t u w p r place q next
  unfolding handler_step start_work work_done Steps
  handler_step-Advance t u w r p arrived f = elim (Option-cases (take_token r.network p)) [
    | inl e ↦ (
      p,
      ended refused,
      rw (handler_step, e) refl,
      staying-Advance t u w p r arrived (ended refused) f refl refl (λ c. omega arith),
    )
    | inr (q, e) ↦
        let (fits, closed, work) = take_token-Fits t u w p q r e f in
        (
          q,
          holding,
          rw (handler_step, e) refl,
          record {
            fits = fits;
            same_closed = closed;
            no_more = λ c. omega (arith, work);
            nearer = λ c. omega arith;
          },
        )
  ]
  handler_step-Advance t u w r p holding f = elim (Option-cases (returns env texts router r)) [
    | inl e ↦ (
      p,
      ready,
      ground arith,
      staying-Advance t u w p r holding ready f refl refl (λ c. omega arith),
    )
    | inr (e, g) ↦
        let a = release_token-Freed t u w p r holding (ended e) refl refl refl f in
        freeing t u w r p holding (ended e) a (ground (arith, a.releases)) (omega arith)
  ]
  handler_step-Advance t u w r p ready f = elim (Bool-cases p.closed) [
    | inl c ↦ (
      p,
      stopped,
      ground (arith, c),
      staying-Advance t u w p r ready stopped f refl refl (λ d. omega arith),
    )
    | inr c ↦ (
      record p { work = suc p.work },
      working,
      ground (arith, c),
      record {
        fits = record {
          tcp_held = f.tcp_held;
          tcp_cap = f.tcp_cap;
          udp_held = f.udp_held;
          udp_cap = f.udp_cap;
          running = omega (arith, f.running);
        };
        same_closed = refl;
        no_more = λ d. absurd (cc (c, d));
        nearer = λ d. omega arith;
      },
    )
  ]
  handler_step-Advance t u w r p stopped f =
      let a = release_token-Freed t u w p r stopped (ended discarded) refl refl refl f in
      freeing t u w r p stopped (ended discarded) a (ground (arith, a.releases)) (omega arith)
  handler_step-Advance t u w r p working f =
      let a = release_token-Freed t u w p r working returned refl refl refl f in
      freeing t u w r p working returned a (ground (arith, a.releases)) (omega arith)
  handler_step-Advance t u w r p returned f = (
    record p { work = w },
    ended served,
    ground (arith, f.running),
    record {
      fits = record {
        tcp_held = f.tcp_held;
        tcp_cap = f.tcp_cap;
        udp_held = f.udp_held;
        udp_cap = f.udp_cap;
        running = omega arith;
      };
      same_closed = refl;
      no_more = λ c. omega (arith, f.running);
      nearer = λ c. omega arith;
    },
  )
  handler_step-Advance t u w r p (ended e) f = (
    p,
    ended e,
    refl,
    staying-Advance t u w p r (ended e) (ended e) f refl refl (λ c. absurd (c refl)),
  )
