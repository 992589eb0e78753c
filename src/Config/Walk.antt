-- ===== src/Config/Walk.antt =====
-- config.rs, the walk that collects the declarations of a tree of rules: `WalkCtx`, `walk_body`,
-- `walk_node`, `walk_match`, `walk_listener_body` and `listener_initial_redis`. The mutable context and
-- the output are passed along; after an error both are dropped, as the caller drops them.
pub mod Balance
pub mod Collect
pub mod Stores
use noxy.Common.{
  ℕ, zero, suc, ◌+◌, ◌-◌, ◌/◌, ◌%◌, ◌*◌, Bool, true, false, ◌&&◌, Option, none, some, List, [], ◌∷◌,
  ◌++◌, if◌then◌else◌, ltb,
}
use noxy.Http.{Bytes, bytes_eq, text}
use noxy.Config.{
  Result, ok, err, Error, invalid_redis_url, ◌>>=◌, Libraries, RedisConfig, Leaf, RuleNode, Body,
}
use noxy.Config.Matching.{
  Predicate, MatchSpec, default_spec, from_general, into_predicate, and_predicates, list_of,
}

-- `RedisConnection`: no connection is made before the first use.
pub record RedisConnection : Type 0 where
  pub url : Bytes
  pub prefix : Bytes

abbrev pub RedisCache : Type 0
RedisCache = List ((Bytes × Bytes) × RedisConnection)

-- `cache.get(&(url, prefix))`
unfoldable pub cache_get : Bytes → Bytes → RedisCache → Option RedisConnection
cache_get url prefix [] = none
cache_get url prefix (((u, p), conn) ∷ cache) =
    if bytes_eq u url && bytes_eq p prefix then some conn else cache_get url prefix cache

pub record Decl : Type 0 where
  pub path : List ℕ
  pub scope_pred : Option Predicate
  pub excluded_preds : List Predicate
  pub leaf : Leaf
  pub redis : Option RedisConnection
  pub scope_label : Bytes

pub record WalkCtx : Type 0 where
  pub preds : List Predicate
  pub path : List ℕ
  pub scope_stack : List Bytes
  pub scope_counter : ℕ
  pub redis_stack : List RedisConnection
  pub redis_cache : RedisCache

-- `Vec::push`, `Vec::pop` and `last`.
abbrev pub push_back {ℓ} : {A : Type ℓ} → List A → A → List A
push_back xs x = xs ++ x ∷ []

abbrev pub pop_back {ℓ} : {A : Type ℓ} → List A → List A
pop_back [] = []
pop_back (x ∷ []) = []
pop_back (x ∷ (y ∷ ys)) = x ∷ pop_back (y ∷ ys)

abbrev pub last? {ℓ} : {A : Type ℓ} → List A → Option A
last? [] = none
last? (x ∷ []) = some x
last? (x ∷ (y ∷ ys)) = last? (y ∷ ys)

-- `n.to_string()`; a number has at most as many digits as it says, and one more.
unfoldable pub to_digits : ℕ → ℕ → Bytes
to_digits zero n = []
to_digits (suc fuel) n =
    let rest = to_digits fuel (n / 10) in
    if ltb n 10 then (48 + n) ∷ [] else rest ++ (48 + n % 10) ∷ []

unfoldable pub to_string : ℕ → Bytes
unfolding to_digits
to_string n = to_digits (suc n) n

-- `join(".")`
unfoldable pub join : List Bytes → Bytes
join [] = []
join (label ∷ []) = label
join (label ∷ (next ∷ labels)) = label ++ 46 ∷ join (next ∷ labels)

unfoldable pub current_scope : WalkCtx → Bytes
unfolding join
current_scope ctx = join ctx.scope_stack

unfoldable pub push_scope : WalkCtx → Option Bytes → WalkCtx
unfolding to_string
push_scope ctx (some name) = record ctx { scope_stack = push_back ctx.scope_stack name }
push_scope ctx none = record ctx {
  scope_stack = push_back ctx.scope_stack (to_string ctx.scope_counter);
  scope_counter = ctx.scope_counter + 1;
}

abbrev pub prefix_of : RedisConfig → Bytes
prefix_of cfg = elim cfg.prefix [ none ↦ text "noxy:" | some p ↦ p ]

abbrev pub with_path : WalkCtx → List ℕ → WalkCtx
with_path ctx path = record ctx { path = path }

-- A push where there is something to push, and a pop where something was pushed.
abbrev pub push_back_if {ℓ} : {A : Type ℓ} → List A → Option A → List A
push_back_if xs none = xs
push_back_if xs (some x) = push_back xs x

abbrev pub pop_back_if {ℓ κ} : {A : Type ℓ} {B : Type κ} → List A → Option B → List A
pop_back_if xs none = xs
pop_back_if xs (some _) = pop_back xs

abbrev pub Walk : Type 0
Walk = WalkCtx → List Decl → Result (WalkCtx × List Decl)

abbrev pub new_ctx : Option RedisConnection → RedisCache → WalkCtx
new_ctx initial_redis cache = record {
  preds = [];
  path = [];
  scope_stack = [];
  scope_counter = 0;
  redis_stack = list_of initial_redis;
  redis_cache = cache;
}

-- `listener.or(process)`
abbrev pub or_else {ℓ} : {A : Type ℓ} → Option A → Option A → Option A
or_else none b = b
or_else (some a) b = some a

module _ (l : Libraries) where
  -- `RedisConnection::open_with_prefix`
  unfoldable pub open_with_prefix : Bytes → Bytes → Result RedisConnection
  open_with_prefix url prefix =
      if l.redis_url_valid url
      then ok (record { url = url; prefix = prefix })
      else err (invalid_redis_url url)

  -- The body that `open_redis` and `listener_initial_redis` share: the cached connection, or a new one.
  unfoldable pub cached_connection :
      RedisCache → RedisConfig → Result (RedisCache × RedisConnection)
  unfolding cache_get open_with_prefix
  cached_connection cache cfg = elim (cache_get cfg.url (prefix_of cfg) cache) [
    | some conn ↦ ok (cache, conn)
    | none ↦ do
      conn ← open_with_prefix cfg.url (prefix_of cfg)
      ok (((cfg.url, prefix_of cfg), conn) ∷ cache, conn)
  ]

  -- `open_redis`
  unfoldable pub open_redis : WalkCtx → RedisConfig → Result (WalkCtx × RedisConnection)
  unfolding cached_connection
  open_redis ctx cfg = do
    (cache, conn) ← cached_connection ctx.redis_cache cfg
    ok (record ctx { redis_cache = cache }, conn)

  unfoldable pub push_redis : WalkCtx → Option RedisConfig → Result WalkCtx
  unfolding open_redis
  push_redis ctx none = ok ctx
  push_redis ctx (some cfg) = do
    (ctx', conn) ← open_redis ctx cfg
    ok (record ctx' { redis_stack = push_back ctx'.redis_stack conn })

  -- `walk_match`; `walk` is the walk of its body.
  unfoldable pub walk_match : MatchSpec → Option Bytes → Walk → Option RedisConfig → ℕ → Walk
  unfolding push_scope push_redis
  walk_match spec name walk redis self_idx ctx out = do
    pred ← into_predicate l spec
    entered ←
        push_redis (push_scope (record ctx { preds = push_back_if ctx.preds pred }) name) redis
    (ctx', out') ← walk (with_path entered (push_back entered.path self_idx)) out
    ok (
      record ctx' {
        path = pop_back ctx'.path;
        redis_stack = pop_back_if ctx'.redis_stack redis;
        preds = pop_back_if ctx'.preds pred;
        scope_stack = pop_back ctx'.scope_stack;
      },
      out',
    )

  -- The last branch of `walk_node`.
  unfoldable pub walk_leaf : Leaf → Walk
  unfolding current_scope and_predicates
  walk_leaf leaf ctx out = ok (
    ctx,
    push_back out (record {
      path = ctx.path;
      scope_pred = and_predicates ctx.preds;
      excluded_preds = [];
      leaf = leaf;
      redis = last? ctx.redis_stack;
      scope_label = current_scope ctx;
    }),
  )

  -- `walk_node`, and `walk_body` from an index on.
  unfoldable mutual
    unfolding walk_match walk_leaf

    pub walk_node : RuleNode → ℕ → Walk
    walk_node (RuleNode.general host path method header name redis body) idx =
        walk_match (from_general host path method header) name (walk_body body 0) redis idx
    walk_node (RuleNode.host host name redis body) idx =
        walk_match (record default_spec { host = some host }) name (walk_body body 0) redis idx
    walk_node (RuleNode.path path name redis body) idx =
        walk_match (record default_spec { path = some path }) name (walk_body body 0) redis idx
    walk_node (RuleNode.method method name redis body) idx =
        walk_match (record default_spec { methods = method ∷ [] }) name (walk_body body 0) redis idx
    walk_node (RuleNode.methods methods name redis body) idx =
        walk_match (record default_spec { methods = methods }) name (walk_body body 0) redis idx
    walk_node (RuleNode.leaf leaf) idx = walk_leaf leaf

    pub walk_body : Body → ℕ → Walk
    walk_body Body.nil idx ctx out = ok (ctx, out)
    walk_body (Body.cons node body) idx ctx out = do
      (ctx', out') ← walk_node node idx ctx out
      walk_body body (suc idx) ctx' out'

  -- `walk_listener_body`, without its last step, `resolve_exclusions`.
  unfoldable pub walk_listener :
      Body → Body → Option RedisConnection → RedisCache → Result (RedisCache × List Decl)
  unfolding walk_body
  walk_listener globals body initial_redis cache = do
    (ctx, decls) ← walk_body globals 0 (new_ctx initial_redis cache) []
    (ctx', decls') ← walk_body body 0 (with_path ctx (push_back ctx.path 0)) decls
    ok (ctx'.redis_cache, decls')

  -- `listener_initial_redis`
  unfoldable pub listener_initial_redis :
      Option RedisConfig
      → Option RedisConfig
      → RedisCache
      → Result (RedisCache × Option RedisConnection)
  unfolding cached_connection
  listener_initial_redis listener process cache = elim (or_else listener process) [
    | none ↦ ok (cache, none)
    | some cfg ↦ do (cache', conn) ← cached_connection cache cfg; ok (cache', some conn)
  ]
