-- ===== src/Router/Rules.antt =====
-- apple-wrapper/router/router.go, compact_trie.go: the actions, and a Go map from strings to actions.
use folo_xray_apple.Prelude.{
  ◌≡◌, refl, arith, List, [], ◌∷◌, Option, none, some, if◌then◌else◌, Bytes, bytes_eq, bytes_eq_iff,
}

pub data RouteAction : Type 0 where
  proxy direct block : RouteAction

abbrev pub Table : Type 0
Table = List (Bytes × RouteAction)

unfoldable pub lookup : Bytes → Table → Option RouteAction
lookup k [] = none
lookup k ((j, a) ∷ t) = if bytes_eq j k then some a else lookup k t

-- `m[k] = a`
unfoldable pub insert : Bytes → RouteAction → Table → Table
insert k a [] = (k, a) ∷ []
insert k a ((j, b) ∷ t) = if bytes_eq j k then (k, a) ∷ t else (j, b) ∷ insert k a t

pub lookup-insert :
    (k j : Bytes) (a : RouteAction) (t : Table)
    → lookup j (insert k a t) ≡ (if bytes_eq k j then some a else lookup j t)
unfolding lookup insert
lookup-insert k j a [] = refl
lookup-insert k j a ((i, b) ∷ t) =
    ground (arith, bytes_eq_iff k j, bytes_eq_iff i k, bytes_eq_iff i j, lookup-insert k j a t)

-- The first result of a two-value lookup with `ok`, or else the second.
abbrev pub or_else : Option RouteAction → Option RouteAction → Option RouteAction
or_else (some a) later = some a
or_else none later = later
