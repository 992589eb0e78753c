-- ===== src/Config/Walk/Stores/Kept.antt =====
-- The walk gives each rule of a body the connection and the label of its place.
use mathlib.Core.List.{append-nil, append_assoc, map-append}
use mathlib.Core.Path.{subst}
use noxy.Common.{ℕ, suc, ◌+◌, Option, none, some, List, [], ◌∷◌, ◌++◌, ◌≡◌, refl, sym, ap, ◌∙◌, map}
use noxy.Http.{Bytes}
use noxy.Config.{ok, Libraries, RedisConfig, Leaf, RuleNode, Body}
use noxy.Config.Matching.{Predicate, MatchSpec, default_spec, from_general, into_predicate}
use noxy.Config.Walk.{
  RedisConnection, Decl, WalkCtx, Walk, push_back, last?, to_string, join, current_scope,
  push_scope, with_path, cached_connection, open_redis, push_redis, walk_match, walk_leaf,
  walk_node, walk_body,
}
use noxy.Config.Walk.Balance.{
  steps_ok, ok_pair, ok_injective, Restored, unchanged, push_redis-Entered, scoped, left_scope,
}
use noxy.Config.Walk.Stores.{
  Declared, declared_of, connection_to, nearest, labels_in, next_number, stores, stores_rule,
  IsCache,
}
use noxy.Config.Walk.Stores.Cache.{cached_connection-IsCache}

last-push {ℓ} : {A : Type ℓ} (xs : List A) (x : A) → last? (push_back xs x) ≡ some x
last-push [] x = refl
last-push (y ∷ []) x = refl
last-push (y ∷ (z ∷ zs)) x = last-push (z ∷ zs) x

-- What a walk stands in: the connection and the labels around it, and the next number.
pub record Stands (around : Option RedisConnection) (labels : List Bytes) (n : ℕ) (ctx : WalkCtx)
    : Type 0 where
  pub redis_above : last? ctx.redis_stack ≡ around
  pub scopes : ctx.scope_stack ≡ labels
  pub number : ctx.scope_counter ≡ n
  pub cache : IsCache ctx.redis_cache

-- A walk that succeeds restores the context but for the number and the cache, and its declarations keep
-- their counters at these places.
abbrev pub Keeps : (Option RedisConnection → List Bytes → ℕ → List Declared × ℕ) → Walk → Type 0
Keeps places walk =
    (around : Option RedisConnection) (labels : List Bytes) (n : ℕ) (ctx : WalkCtx)
    (out : List Decl) (ctx' : WalkCtx) (out' : List Decl)
    → Stands around labels n ctx
    → walk ctx out ≡ ok (ctx', out')
    → Stands around labels (places around labels n).1 ctx'
      × Restored ctx ctx'
      × (map declared_of out' ≡ map declared_of out ++ (places around labels n).0)

walk_leaf-Keeps :
    (l : Libraries) (leaf : Leaf)
    → Keeps (λ around labels n. ((leaf, around, join labels) ∷ [], n)) (walk_leaf l leaf)
unfolding walk_leaf current_scope
walk_leaf-Keeps l leaf around labels n ctx out ctx' out' s h =
    let (same, added) = ok_pair h in
    (
      subst (Stands around labels n) same s,
      unchanged ctx ctx' same,
      ap (map declared_of) (sym added)
          ∙ map-append declared_of out _
          ∙ (λ i. map declared_of out ++ (leaf, s.redis_above i, join (s.scopes i)) ∷ []),
    )

connected-Stands :
    (l : Libraries) (around : Option RedisConnection) (labels : List Bytes) (n : ℕ)
    (ctx entered : WalkCtx) (redis : Option RedisConfig)
    → Stands around labels n ctx
    → push_redis l ctx redis ≡ ok entered
    → Stands (nearest redis around) labels n entered
unfolding push_redis open_redis
connected-Stands l around labels n ctx entered none s h =
    subst (Stands around labels n) (ok_injective h) s
connected-Stands l around labels n ctx entered (some cfg) s h =
    let ((ctx1, conn), h1, h2) = steps_ok (open_redis l ctx cfg) _ h in
    let ((cache, conn'), h3, h4) = steps_ok (cached_connection l ctx.redis_cache cfg) _ h1 in
    let (grown, same) = ok_pair h4 in
    let (exact, v) = cached_connection-IsCache l ctx.redis_cache cache cfg conn' s.cache h3 in
    subst (Stands (some (connection_to cfg)) labels n) (ok_injective h2) (
      subst
        (λ (c : WalkCtx).
          Stands (some (connection_to cfg)) labels n
            (record c { redis_stack = push_back c.redis_stack conn }))
        grown
        (record {
          redis_above = last-push ctx.redis_stack conn ∙ ap some (sym same ∙ exact);
          scopes = s.scopes;
          number = s.number;
          cache = v;
        }))

scoped-Stands :
    (around : Option RedisConnection) (labels : List Bytes) (n idx : ℕ) (ctx : WalkCtx)
    (name : Option Bytes) (redis : Option RedisConfig) (pred : Option Predicate)
    → Stands around labels n ctx
    → Stands around (labels_in name labels n) (next_number name n) (scoped ctx name redis idx pred)
unfolding push_scope
scoped-Stands around labels n idx ctx none redis pred s = record {
  redis_above = s.redis_above;
  scopes = λ i. s.scopes i ++ to_string (s.number i) ∷ [];
  number = ap (λ k. k + 1) s.number;
  cache = s.cache;
}
scoped-Stands around labels n idx ctx (some label) redis pred s = record {
  redis_above = s.redis_above;
  scopes = ap (λ ls. ls ++ label ∷ []) s.scopes;
  number = s.number;
  cache = s.cache;
}

module _ (l : Libraries) (spec : MatchSpec) (name : Option Bytes) (walk : Walk)
    (redis : Option RedisConfig) where
  walk_match-Keeps :
      (places : Option RedisConnection → List Bytes → ℕ → List Declared × ℕ) (idx : ℕ)
      → Keeps places walk
      → Keeps
          (λ around labels n.
            places (nearest redis around) (labels_in name labels n) (next_number name n))
          (walk_match l spec name walk redis idx)
  unfolding walk_match
  walk_match-Keeps places idx walks around labels n ctx out ctx' out' s h =
      let (pred, _, h1) = steps_ok (into_predicate l spec) _ h in
      let (entered, pushed, h2) =
        steps_ok (push_redis l (scoped ctx name redis idx pred) redis) _ h1 in
      let ((inner, out1), walked, h3) =
        steps_ok (walk (with_path entered (push_back entered.path idx)) out) _ h2 in
      let (left, same) = ok_pair h3 in
      let e = push_redis-Entered l (scoped ctx name redis idx pred) redis entered pushed in
      let inside =
        connected-Stands l around _ _ (scoped ctx name redis idx pred) entered redis
          (scoped-Stands around labels n idx ctx name redis pred s) pushed in
      let (after, kept, added) =
        walks (nearest redis around) (labels_in name labels n) (next_number name n)
          (with_path entered (push_back entered.path idx)) out inner out1
          (record {
            redis_above = inside.redis_above;
            scopes = inside.scopes;
            number = inside.number;
            cache = inside.cache;
          })
          walked in
      let restored = left_scope ctx name redis idx pred entered inner e kept in
      (
        subst (Stands around labels _) left (record {
          redis_above = ap last? restored.redis_stack ∙ s.redis_above;
          scopes = restored.scope_stack ∙ s.scopes;
          number = after.number;
          cache = after.cache;
        }),
        subst (Restored ctx) left restored,
        ap (map declared_of) (sym same) ∙ added,
      )

-- The places of a rule, and those of what follows it.
both :
    (rule_places : List Declared × ℕ) (body_places : ℕ → List Declared × ℕ)
    (around : Option RedisConnection) (labels : List Bytes) (ctx ctx1 ctx' : WalkCtx)
    (out out1 out' : List Decl)
    → Stands around labels rule_places.1 ctx1
      × Restored ctx ctx1
      × (map declared_of out1 ≡ map declared_of out ++ rule_places.0)
    → Stands around labels (body_places rule_places.1).1 ctx'
      × Restored ctx1 ctx'
      × (map declared_of out' ≡ map declared_of out1 ++ (body_places rule_places.1).0)
    → Stands around labels (body_places rule_places.1).1 ctx'
      × Restored ctx ctx'
      × (map declared_of out'
          ≡ map declared_of out ++ (rule_places.0 ++ (body_places rule_places.1).0))
both rule_places body_places around labels ctx ctx1 ctx' out out1 out' (s1, r1, added1)
      (s2, r2, added2) =
    (
      s2,
      record {
        path = r2.path ∙ r1.path;
        preds = r2.preds ∙ r1.preds;
        scope_stack = r2.scope_stack ∙ r1.scope_stack;
        redis_stack = r2.redis_stack ∙ r1.redis_stack;
      },
      added2
          ∙ ap (λ ds. ds ++ (body_places rule_places.1).0) added1
          ∙ append_assoc (map declared_of out) _ _,
    )

mutual
  unfolding walk_node walk_body stores_rule stores

  walk_node-Keeps :
      (l : Libraries) (node : RuleNode) (idx : ℕ) → Keeps (stores_rule node) (walk_node l node idx)
  walk_node-Keeps l (RuleNode.general host path method header name redis body) idx =
      walk_match-Keeps l (from_general host path method header) name (walk_body l body 0) redis
        (stores body) idx (walk_body-Keeps l body 0)
  walk_node-Keeps l (RuleNode.host host name redis body) idx =
      walk_match-Keeps l (record default_spec { host = some host }) name (walk_body l body 0) redis
        (stores body) idx (walk_body-Keeps l body 0)
  walk_node-Keeps l (RuleNode.path path name redis body) idx =
      walk_match-Keeps l (record default_spec { path = some path }) name (walk_body l body 0) redis
        (stores body) idx (walk_body-Keeps l body 0)
  walk_node-Keeps l (RuleNode.method method name redis body) idx =
      walk_match-Keeps l (record default_spec { methods = method ∷ [] }) name (walk_body l body 0)
        redis (stores body) idx (walk_body-Keeps l body 0)
  walk_node-Keeps l (RuleNode.methods methods name redis body) idx =
      walk_match-Keeps l (record default_spec { methods = methods }) name (walk_body l body 0) redis
        (stores body) idx (walk_body-Keeps l body 0)
  walk_node-Keeps l (RuleNode.leaf leaf) idx = walk_leaf-Keeps l leaf

  pub walk_body-Keeps :
      (l : Libraries) (body : Body) (idx : ℕ) → Keeps (stores body) (walk_body l body idx)
  walk_body-Keeps l Body.nil idx around labels n ctx out ctx' out' s h =
      let (e, same) = ok_pair h in
      (
        subst (Stands around labels n) e s,
        unchanged ctx ctx' e,
        ap (map declared_of) (sym same) ∙ sym (append-nil (map declared_of out)),
      )
  walk_body-Keeps l (Body.cons node body) idx around labels n ctx out ctx' out' s h =
      let ((ctx1, out1), walked, h') = steps_ok (walk_node l node idx ctx out) _ h in
      let first = walk_node-Keeps l node idx around labels n ctx out ctx1 out1 s walked in
      both (stores_rule node around labels n) (stores body around labels) around labels ctx ctx1
        ctx' out out1 out' first
        (walk_body-Keeps l body (suc idx) around labels _ ctx1 out1 ctx' out' first.0 h')
