-- ===== src/Config/Walk/Stores.antt =====
-- Where the rules of a body keep their counters: the connection to Redis that is declared nearest around
-- a rule, and the label of its scope.
pub mod Cache
pub mod Kept
pub mod Listener
use mathlib.Core.List.{append-nil, append_assoc, map-append}
use mathlib.Core.Path.{subst}
use noxy.Common.{
  ℕ, suc, ◌+◌, ◌&&◌, Option, none, some, List, [], ◌∷◌, ◌++◌, ◌≡◌, refl, sym, ap, ◌∙◌, arith, map,
  All, and_true, Bool-cases, inl, inr,
}
use noxy.Http.{Bytes, bytes_eq, bytes_eq_iff}
use noxy.Config.{Result, ok, ◌>>=◌, Libraries, RedisConfig, Leaf, RuleNode, Body, rule_is_exclusive}
use noxy.Config.Matching.{Predicate, MatchSpec, default_spec, from_general, into_predicate, list_of}
use noxy.Config.Walk.{
  RedisConnection, RedisCache, cache_get, Decl, WalkCtx, Walk, push_back, last?, to_string, join,
  current_scope, push_scope, prefix_of, with_path, new_ctx, open_with_prefix, cached_connection,
  open_redis, push_redis, walk_listener, listener_initial_redis, or_else, walk_match, walk_leaf,
  walk_node, walk_body,
}
use noxy.Config.Shadow.{resolve, resolve_from, resolve_exclusions, walk_listener_body}
use noxy.Config.Walk.Balance.{
  steps_ok, ok_pair, ok_injective, Restored, unchanged, push_redis-Entered, scoped, left_scope,
}

-- A rule, the connection it has, and its label.
abbrev pub Declared : Type 0
Declared = Leaf × Option RedisConnection × Bytes

-- The connection that a declaration of `redis` asks for.
abbrev pub connection_to : RedisConfig → RedisConnection
connection_to cfg = record { url = cfg.url; prefix = prefix_of cfg }

abbrev pub nearest : Option RedisConfig → Option RedisConnection → Option RedisConnection
nearest none around = around
nearest (some cfg) around = some (connection_to cfg)

-- The labels around a scope's rules: its name, or else the next number.
abbrev pub labels_in : Option Bytes → List Bytes → ℕ → List Bytes
labels_in (some name) labels n = labels ++ name ∷ []
labels_in none labels n = labels ++ to_string n ∷ []

abbrev pub next_number : Option Bytes → ℕ → ℕ
next_number (some name) n = n
next_number none n = n + 1

-- All rules of a body, in order, each with its connection and its label, and the number for the next unnamed scope.
unfoldable mutual
  pub stores_rule : RuleNode → Option RedisConnection → List Bytes → ℕ → List Declared × ℕ
  stores_rule (RuleNode.general host path method header name redis body) around labels n =
      stores body (nearest redis around) (labels_in name labels n) (next_number name n)
  stores_rule (RuleNode.host host name redis body) around labels n =
      stores body (nearest redis around) (labels_in name labels n) (next_number name n)
  stores_rule (RuleNode.path path name redis body) around labels n =
      stores body (nearest redis around) (labels_in name labels n) (next_number name n)
  stores_rule (RuleNode.method method name redis body) around labels n =
      stores body (nearest redis around) (labels_in name labels n) (next_number name n)
  stores_rule (RuleNode.methods methods name redis body) around labels n =
      stores body (nearest redis around) (labels_in name labels n) (next_number name n)
  stores_rule (RuleNode.leaf leaf) around labels n = ((leaf, around, join labels) ∷ [], n)

  pub stores : Body → Option RedisConnection → List Bytes → ℕ → List Declared × ℕ
  stores Body.nil around labels n = ([], n)
  stores (Body.cons node body) around labels n =
      let (first, n') = stores_rule node around labels n in
      let (others, n'') = stores body around labels n' in (first ++ others, n'')

abbrev pub declared_of : Decl → Declared
declared_of d = (d.leaf, d.redis, d.scope_label)

-- A cache holds under each key the connection that the key asks for.
abbrev pub IsCache : RedisCache → Type 0
IsCache cache = All (λ r. r.1 ≡ record { url = r.0.0; prefix = r.0.1 }) cache

-- What a listener declares: the global rules and then its own, around which stands the connection of the
-- listener, or else that of the process.
abbrev pub listener_stores : Option RedisConfig → Option RedisConfig → Body → Body → List Declared
listener_stores own process globals body =
    let around = nearest (or_else own process) none in
    let (first, n) = stores globals around [] 0 in first ++ (stores body around [] n).0
