-- ===== src/Wrapper/Connections/Held.antt =====
-- One handler of apple-wrapper/netstack.go: the token it holds and the goroutine it runs.
use folo_xray_apple.Prelude.{
  ℕ, ◌+◌, ◌≤◌, ◌≡◌, refl, arith, List, [], ◌∷◌, ◌++◌, some, inl, inr, ◌⊎◌, ok,
}
use folo_xray_apple.Folotun.Endpoint.{Network, tcp, udp}
use folo_xray_apple.Wrapper.Connections.{
  max_concurrent_tcp, max_concurrent_udp, Pool, Request, Place, arrived, holding, ready, stopped,
  working, returned, ended, take_token, release_token,
}

-- One for a place where the handler has a token.
abbrev pub holds : Place → ℕ
holds arrived = 0
holds holding = 1
holds ready = 1
holds stopped = 1
holds working = 1
holds returned = 0
holds (ended e) = 0

abbrev pub holds_tcp : Request × Place → ℕ
holds_tcp (r, place) = elim r.network [ tcp ↦ holds place | udp ↦ 0 ]

abbrev pub holds_udp : Request × Place → ℕ
holds_udp (r, place) = elim r.network [ tcp ↦ 0 | udp ↦ holds place ]

-- One for a place where a goroutine runs.
abbrev pub runs : Request × Place → ℕ
runs (r, working) = 1
runs (r, returned) = 1
runs (r, _) = 0

abbrev pub total : (Request × Place → ℕ) → List (Request × Place) → ℕ
total f [] = 0
total f (h ∷ hs) = f h + total f hs

pub total-append :
    (f : Request × Place → ℕ) (xs ys : List (Request × Place))
    → total f (xs ++ ys) ≡ total f xs + total f ys
total-append f [] ys = omega arith
total-append f (x ∷ xs) ys = omega (arith, total-append f xs ys)

-- One handler beside others that hold `t` and `u` tokens and run `w` goroutines.
pub record Fits (t u w : ℕ) (p : Pool) (h : Request × Place) : Type 0 where
  pub tcp_held : p.tcp_tokens ≡ t + holds_tcp h
  pub tcp_cap : p.tcp_tokens ≤ max_concurrent_tcp
  pub udp_held : p.udp_tokens ≡ u + holds_udp h
  pub udp_cap : p.udp_tokens ≤ max_concurrent_udp
  pub running : p.work ≡ w + runs h

Network-cases : (n : Network) → (n ≡ tcp) ⊎ (n ≡ udp)
Network-cases tcp = inl refl
Network-cases udp = inr refl

-- The receive of a handler that holds a token.
pub record Freed (t u w : ℕ) (p : Pool) (r : Request) (next : Place) : Type 0 where
  pub pool : Pool
  pub releases : release_token r.network p ≡ ok pool
  pub fits : Fits t u w pool (r, next)
  pub same_closed : pool.closed ≡ p.closed
  pub same_work : pool.work ≡ p.work

pub release_token-Freed :
    (t u w : ℕ) (p : Pool) (r : Request) (place next : Place)
    → holds place ≡ 1
    → holds next ≡ 0
    → runs (r, next) ≡ runs (r, place)
    → Fits t u w p (r, place)
    → Freed t u w p r next
unfolding release_token
release_token-Freed t u w p r place next h n e f = elim (Network-cases r.network) [
  | inl net ↦ record {
    pool = record p { tcp_tokens = t };
    releases = ground arith;
    fits = record {
      tcp_held = ground arith;
      tcp_cap = ground arith;
      udp_held = ground arith;
      udp_cap = f.udp_cap;
      running = ground arith;
    };
    same_closed = refl;
    same_work = refl;
  }
  | inr net ↦ record {
    pool = record p { udp_tokens = u };
    releases = ground arith;
    fits = record {
      tcp_held = ground arith;
      tcp_cap = f.tcp_cap;
      udp_held = ground arith;
      udp_cap = ground arith;
      running = ground arith;
    };
    same_closed = refl;
    same_work = refl;
  }
]

pub take_token-Fits :
    (t u w : ℕ) (p q : Pool) (r : Request)
    → take_token r.network p ≡ some q
    → Fits t u w p (r, arrived)
    → Fits t u w q (r, holding) × (q.closed ≡ p.closed) × (q.work ≡ p.work)
unfolding take_token
take_token-Fits t u w p q r e f = elim (Network-cases r.network) [
  | inl net ↦ (
    record {
      tcp_held = ground arith;
      tcp_cap = ground arith;
      udp_held = ground arith;
      udp_cap = ground arith;
      running = ground arith;
    },
    ground arith,
    ground arith,
  )
  | inr net ↦ (
    record {
      tcp_held = ground arith;
      tcp_cap = ground arith;
      udp_held = ground arith;
      udp_cap = ground arith;
      running = ground arith;
    },
    ground arith,
    ground arith,
  )
]
