-- ===== src/Router/Search.antt =====
-- sort.Search of the Go library, as apple-wrapper/router/china_ip.go uses it, and what it returns
-- for a test that is false up to some place and true from there on.
use folo_xray_apple.Prelude.{
  ℕ, zero, suc, ◌+◌, ◌-◌, ◌/◌, ◌≤◌, ◌<◌, ◌≡◌, arith, Bool, true, false, ltb,
}

-- `for i < j`; the fuel bounds the rounds.
unfoldable pub search_loop : ℕ → (ℕ → Bool) → ℕ → ℕ → ℕ
search_loop zero test i j = i
search_loop (suc fuel) test i j = elim (ltb i j) [
  | false ↦ i
  | true ↦ elim (test ((i + j) / 2)) [
    | false ↦ search_loop fuel test ((i + j) / 2 + 1) j
    | true ↦ search_loop fuel test i ((i + j) / 2)
  ]
]

-- `sort.Search(n, test)`: each round shortens `j - i`, so `n` rounds are enough.
unfoldable pub sort_search : ℕ → (ℕ → Bool) → ℕ
sort_search n test = search_loop n test 0 n

-- The test turns true at `t`.
pub record TurnsAt (n : ℕ) (test : ℕ → Bool) (t : ℕ) : Type 0 where
  pub within : t ≤ n
  pub before : (m : ℕ) → m < t → test m ≡ false
  pub after : (m : ℕ) → t ≤ m → m < n → test m ≡ true

search_loop-TurnsAt :
    (n t : ℕ) (test : ℕ → Bool)
    → TurnsAt n test t
    → (fuel i j : ℕ) → j - i ≤ fuel
    → i ≤ t
    → t ≤ j
    → j ≤ n
    → search_loop fuel test i j ≡ t
unfolding search_loop
search_loop-TurnsAt n t test turns zero i j f a b c = omega arith
search_loop-TurnsAt n t test turns (suc fuel) i j f a b c = ground (
  arith,
  turns.before ((i + j) / 2),
  turns.after ((i + j) / 2),
  search_loop-TurnsAt n t test turns fuel ((i + j) / 2 + 1) j,
  search_loop-TurnsAt n t test turns fuel i ((i + j) / 2),
)

pub sort_search-TurnsAt : (n t : ℕ) (test : ℕ → Bool) → TurnsAt n test t → sort_search n test ≡ t
unfolding sort_search
sort_search-TurnsAt n t test turns =
    search_loop-TurnsAt n t test turns n 0 n (omega arith) (omega arith) turns.within (omega arith)
