-- ===== src/Router/Domains.antt =====
-- apple-wrapper/router/compact_trie.go. `(ActionProxy, false)` is `none`. The mutex is held for the
-- whole of each operation, so an operation is one step. `wide_lower` is strings.ToLower beyond ASCII.
pub mod Longest
use folo_xray_apple.Prelude.{
  ℕ, Bool, true, false, not, ◌&&◌, List, [], ◌∷◌, ◌++◌, Option, none, some, ◌==◌, if◌then◌else◌,
  Bytes, is_empty, to_lower, trim_space, contains,
}
use folo_xray_apple.Router.Rules.{RouteAction, Table, lookup, insert, or_else}

pub record KeywordRule : Type 0 where
  pub keyword : Bytes
  pub action : RouteAction

pub record DomainMatcher : Type 0 where
  pub exact : Table
  pub suffixes : Table
  pub keywords : List KeywordRule

abbrev pub new_domain_matcher : DomainMatcher
new_domain_matcher = record { exact = []; suffixes = []; keywords = [] }

-- `strings.TrimPrefix(suffix, ".")`
abbrev pub trim_dot : Bytes → Bytes
trim_dot [] = []
trim_dot (c ∷ cs) = if c == b'.' then cs else c ∷ cs

-- The suffix loop of `Match`, at the rest `domain[i:]` of the domain.
unfoldable pub match_suffixes : Table → Bytes → Option RouteAction
match_suffixes t [] = none
match_suffixes t (c ∷ cs) =
    let rest = match_suffixes t cs in
    if c == b'.' && not (is_empty cs) then or_else (lookup cs t) rest else rest

unfoldable pub match_keywords : List KeywordRule → Bytes → Option RouteAction
match_keywords [] domain = none
match_keywords (k ∷ ks) domain =
    let rest = match_keywords ks domain in if contains domain k.keyword then some k.action else rest

-- The suffix lookups of `Match`: the whole domain, then what follows each dot.
unfoldable pub match_suffix : Table → Bytes → Option RouteAction
match_suffix t domain = or_else (lookup domain t) (match_suffixes t domain)

module _ (wide_lower : Bytes → Bytes) where
  -- `strings.TrimSpace(strings.ToLower(s))`
  unfoldable pub normal : Bytes → Bytes
  normal s = trim_space (to_lower wide_lower s)

  unfoldable pub add_exact : DomainMatcher → Bytes → RouteAction → DomainMatcher
  add_exact m domain action =
      let d = normal domain in
      if not (is_empty d) then record m { exact = insert d action m.exact } else m

  unfoldable pub add_suffix : DomainMatcher → Bytes → RouteAction → DomainMatcher
  add_suffix m suffix action =
      let s = trim_dot (normal suffix) in
      if not (is_empty s) then record m { suffixes = insert s action m.suffixes } else m

  unfoldable pub add_keyword : DomainMatcher → Bytes → RouteAction → DomainMatcher
  add_keyword m keyword action =
      let k = normal keyword in
      if not (is_empty k)
      then record m { keywords = m.keywords ++ record { keyword = k; action = action } ∷ [] }
      else m

  unfoldable pub match_domain : DomainMatcher → Bytes → Option RouteAction
  match_domain m domain =
      let d = normal domain in
      if is_empty d
      then none
      else or_else (lookup d m.exact)
          (or_else (match_suffix m.suffixes d) (match_keywords m.keywords d))
