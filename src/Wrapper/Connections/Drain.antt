-- ===== src/Wrapper/Connections/Drain.antt =====
-- The handlers of apple-wrapper/netstack.go come to their ends, and `close` returns.
use native.Mathlib.Decide.{ℕ_discrete}
use folo_xray_apple.Prelude.{
  ℕ, zero, suc, ◌≤◌, ◌≡◌, ◌≢◌, refl, ap, ◌∙◌, arith, true, List, [], ◌∷◌, ◌++◌,
}
use folo_xray_apple.Router.Decision.{Env, Router}
use folo_xray_apple.Wrapper.Connections.{
  Texts, Request, Place, arrived, holding, ready, stopped, working, returned, ended, System,
  init_system, ConnectionStep, going_on, closing, waiting, ConnectionSteps, here, later,
}
use folo_xray_apple.Wrapper.Connections.Held.{holds, holds_tcp, holds_udp, runs, total}
use folo_xray_apple.Wrapper.Connections.Advance.{rank, handler_step-Advance}
use folo_xray_apple.Wrapper.Connections.Balance.{
  total-others, IsBalanced, IsBalanced-Fits, going_on-IsBalanced, ConnectionSteps-IsBalanced,
}

abbrev rank_of : Request × Place → ℕ
rank_of (r, place) = rank place

-- A handler that is not at its end.
record Unfinished (hs : List (Request × Place)) : Type 0 where
  before : List (Request × Place)
  after : List (Request × Place)
  request : Request
  place : Place
  found : hs ≡ before ++ (request, place) ∷ after
  unfinished : rank place ≢ 0

at_front :
    (r : Request) (place : Place) (hs : List (Request × Place))
    → rank place ≢ 0
    → Unfinished ((r, place) ∷ hs)
at_front r place hs n = record {
  before = [];
  after = hs;
  request = r;
  place = place;
  found = refl;
  unfinished = n;
}

total-Unfinished : (hs : List (Request × Place)) → total rank_of hs ≢ 0 → Unfinished hs
total-Unfinished [] n = absurd (n refl)
total-Unfinished ((r, ended e) ∷ hs) n =
    let f = total-Unfinished hs (λ e. n (omega (arith, e))) in
    record {
      before = (r, ended e) ∷ f.before;
      after = f.after;
      request = f.request;
      place = f.place;
      found = ap (◌∷◌ (r, ended e)) f.found;
      unfinished = f.unfinished;
    }
total-Unfinished ((r, arrived) ∷ hs) n = at_front r arrived hs (λ e. omega (arith, e))
total-Unfinished ((r, holding) ∷ hs) n = at_front r holding hs (λ e. omega (arith, e))
total-Unfinished ((r, ready) ∷ hs) n = at_front r ready hs (λ e. omega (arith, e))
total-Unfinished ((r, stopped) ∷ hs) n = at_front r stopped hs (λ e. omega (arith, e))
total-Unfinished ((r, working) ∷ hs) n = at_front r working hs (λ e. omega (arith, e))
total-Unfinished ((r, returned) ∷ hs) n = at_front r returned hs (λ e. omega (arith, e))

-- Every handler is at its end.
abbrev pub IsOver : System → Type 0
IsOver s = total rank_of s.handlers ≡ 0

-- An ended handler has no token and no goroutine.
IsOver-total :
    (f : Request × Place → ℕ)
    → ((h : Request × Place) → f h ≤ rank_of h)
    → (hs : List (Request × Place)) → total rank_of hs ≡ 0
    → total f hs ≡ 0
IsOver-total f below [] e = refl
IsOver-total f below (h ∷ hs) e = ground (arith, below h, IsOver-total f below hs)

holds-rank : (place : Place) → holds place ≤ rank place
holds-rank arrived = omega arith
holds-rank holding = omega arith
holds-rank ready = omega arith
holds-rank stopped = omega arith
holds-rank working = omega arith
holds-rank returned = omega arith
holds-rank (ended e) = omega arith

runs-rank : (h : Request × Place) → runs h ≤ rank_of h
runs-rank (r, arrived) = omega arith
runs-rank (r, holding) = omega arith
runs-rank (r, ready) = omega arith
runs-rank (r, stopped) = omega arith
runs-rank (r, working) = omega arith
runs-rank (r, returned) = omega arith
runs-rank (r, ended e) = omega arith

holds_tcp-rank : (h : Request × Place) → holds_tcp h ≤ rank_of h
holds_tcp-rank (r, place) = ground (arith, holds-rank place)

holds_udp-rank : (h : Request × Place) → holds_udp h ≤ rank_of h
holds_udp-rank (r, place) = ground (arith, holds-rank place)

module _ (env : Env) (texts : Texts) (router : Router) where
  Leads : System → System → Type 0
  Leads s t = ConnectionSteps env texts router s t

  ConnectionSteps-first :
      (s t u : System) → ConnectionStep env texts router s t → Leads t u → Leads s u
  unfolding Leads
  ConnectionSteps-first s t u first here = later here first
  ConnectionSteps-first s t u first (later {t = v} rest last) =
      later (ConnectionSteps-first s t v first rest) last

  -- From a state in balance the handlers can go on to their ends.
  drain :
      (n : ℕ) (s : System)
      → total rank_of s.handlers ≤ n
      → IsBalanced s
      → (t : System) × Leads s t × IsBalanced t × IsOver t × (t.pool.closed ≡ s.pool.closed)
  unfolding Leads
  drain zero s h b = (s, here, b, omega (arith, h), refl)
  drain (suc n) s h b = elim (ℕ_discrete (total rank_of s.handlers) 0) [
    | yes e ↦ (s, here, b, e, refl)
    | no ne ↦
        let f = total-Unfinished s.handlers ne in
        let (q, next, steps, a) =
          handler_step-Advance env texts router _ _ _ f.request s.pool f.place
            (IsBalanced-Fits s f.before f.after (f.request, f.place) f.found b) in
        let moved : System = record s {
          pool = q;
          handlers = f.before ++ (f.request, next) ∷ f.after;
        } in
        let less : total rank_of moved.handlers ≤ n = omega (
          arith,
          h,
          ap (total rank_of) f.found,
          total-others rank_of f.before f.after (f.request, f.place),
          total-others rank_of f.before f.after (f.request, next),
          a.nearer f.unfinished,
        ) in
        let (t, leads, balanced, over, closed) = drain n moved less (
          going_on-IsBalanced env texts router s f.before f.after f.request f.place next q f.found a
            b) in
        (
          t,
          ConnectionSteps-first s moved t
              (going_on f.before f.after f.request f.place f.found steps) leads,
          balanced,
          over,
          closed ∙ a.same_closed,
        )
  ]

  -- From every state that can come about, the handlers can go on one by one, none of them blocked, until
  -- each is at its end and all tokens are back; with `closed` set by then, work.Wait of `close` returns.
  pub ConnectionSteps-close :
      (s : System)
      → ConnectionSteps env texts router init_system s
      → (t : System) × ConnectionSteps env texts router s t
        × (t.waited ≡ true)
        × IsOver t
        × (t.pool.tcp_tokens ≡ 0)
        × (t.pool.udp_tokens ≡ 0)
  unfolding Leads
  ConnectionSteps-close s reach =
      let (t, leads, b, over, closed) =
        drain (total rank_of s.handlers) s (omega arith)
          (ConnectionSteps-IsBalanced env texts router s reach) in
      let closed_now : System = record t { pool = record t.pool { closed = true } } in
      (
        record closed_now { waited = true },
        later (later leads closing)
            (waiting refl (b.running ∙ IsOver-total runs runs-rank t.handlers over)),
        refl,
        over,
        b.tcp_held ∙ IsOver-total holds_tcp holds_tcp-rank t.handlers over,
        b.udp_held ∙ IsOver-total holds_udp holds_udp-rank t.handlers over,
      )
