-- ===== src/Config/Shadow.antt =====
-- config.rs, `resolve_exclusions` and `effective_predicate`: an exclusive rule yields to a rule of its
-- kind that is declared more deeply.
pub mod Override
pub mod Effect
pub mod Active
pub mod Innermost
pub mod Collision
pub mod Coverage
use noxy.Common.{
  ℕ, suc, ◌+◌, Bool, true, false, not, ◌&&◌, Option, none, some, List, [], ◌∷◌, length, any,
  if◌then◌else◌, ltb, ◌==◌, ◌||◌,
}
use noxy.Http.{Request}
use noxy.Config.{Leaf, Body, discriminant, rule_is_exclusive, Result, ok, err, ◌>>=◌, Libraries}
use noxy.Config.Matching.{Predicate, is_empty}
use noxy.Config.Walk.{Decl, walk_listener, RedisConnection, RedisCache}

-- `path.starts_with(&prefix)`, the prefix first.
unfoldable pub starts_with : List ℕ → List ℕ → Bool
starts_with [] path = true
starts_with (a ∷ prefix) [] = false
starts_with (a ∷ prefix) (b ∷ path) = a == b && starts_with prefix path

abbrev pub always_true : Predicate
always_true req = true

abbrev pub or_always : Option Predicate → Predicate
or_always none = always_true
or_always (some p) = p

-- Whether the declaration at `j` shadows the one at `i`.
unfoldable pub shadows : ℕ → Decl → ℕ → Decl → Bool
unfolding starts_with discriminant
shadows i d j e =
    if i == j || not (discriminant e.leaf == discriminant d.leaf)
    then false
    else ltb (length d.path) (length e.path) && starts_with d.path e.path

-- The inner loop of `resolve_exclusions`, from `j` on.
unfoldable pub excluded_by : ℕ → Decl → ℕ → List Decl → List Predicate
unfolding shadows
excluded_by i d j [] = []
excluded_by i d j (e ∷ decls) =
    let rest = excluded_by i d (suc j) decls in
    if shadows i d j e then or_always e.scope_pred ∷ rest else rest

unfoldable pub resolve : List Decl → ℕ → Decl → Decl
unfolding excluded_by rule_is_exclusive
resolve decls i d =
    if rule_is_exclusive d.leaf then record d { excluded_preds = excluded_by i d 0 decls } else d

-- The outer loop, from `i` on. It changes `excluded_preds` only, which it never reads.
unfoldable pub resolve_from : List Decl → ℕ → List Decl → List Decl
unfolding resolve
resolve_from decls i [] = []
resolve_from decls i (d ∷ ds) = resolve decls i d ∷ resolve_from decls (suc i) ds

unfoldable pub resolve_exclusions : List Decl → List Decl
unfolding resolve_from
resolve_exclusions decls = resolve_from decls 0 decls

abbrev pub in_scope : Option Predicate → Request → Bool
in_scope none req = true
in_scope (some p) req = p req

-- `effective_predicate`
unfoldable pub effective_predicate : Decl → Option Predicate
effective_predicate d =
    if is_empty d.excluded_preds
    then d.scope_pred
    else some (λ req.
      if not (in_scope d.scope_pred req) then false else not (any (λ p. p req) d.excluded_preds))

-- `walk_listener_body`
unfoldable pub walk_listener_body :
    Libraries → Body → Body → Option RedisConnection → RedisCache → Result (RedisCache × List Decl)
unfolding walk_listener resolve_exclusions
walk_listener_body l globals body initial_redis cache = do
  (cache', decls) ← walk_listener l globals body initial_redis cache
  ok (cache', resolve_exclusions decls)
