-- ===== src/Config/Listeners.antt =====
-- config.rs, `into_listeners` and what it calls: the rules of each listener, and what they add to its
-- builder. `build` makes a proxy of that.
pub mod Made
pub mod InEffect
mod Tests
use noxy.Common.{
  ℕ, Bool, true, false, ◌||◌, ◌&&◌, Option, none, some, List, [], ◌∷◌, ◌++◌, if◌then◌else◌,
}
use noxy.Http.{Bytes, text, Request}
use noxy.Router.{Backend, Upstream, parse_backend}
use noxy.Config.{
  Result, ok, err, invalid_upstream, invalid_identity, only_in_listener, no_listeners, ◌>>=◌, ok_or,
  transpose, Leaf, Body, RedisConfig, rule_min_scope, global, listener, rule_node_name,
}
use noxy.Config.Settings.{
  ProcessSettings, Identity, ProxyBuilder, new_builder, apply_process_settings,
}
use noxy.Config.Matching.{Predicate, is_empty}
use noxy.Config.Build.{Engines, unwrap_or, duration}
use noxy.Config.Emit.{Layer, Emitted, layer, route, emit}
use noxy.Config.Walk.{Decl, RedisCache, walk_body, new_ctx, listener_initial_redis, to_string}
use noxy.Config.Shadow.{effective_predicate, or_always, walk_listener_body}

pub record ForwardListener : Type 0 where
  pub port : ℕ
  pub bind : Option Bytes
  pub ca : Identity
  pub tls : Option Identity
  pub credentials : List (Bytes × Bytes)
  pub redis : Option RedisConfig
  pub body : Body

pub record ReverseListener : Type 0 where
  pub port : ℕ
  pub bind : Option Bytes
  pub upstream : Bytes
  pub tls : Option Identity
  pub redis : Option RedisConfig
  pub body : Body

pub record ProxyConfig : Type 0 where
  pub settings : ProcessSettings
  pub redis : Option RedisConfig
  pub forwards : List ForwardListener
  pub reverses : List ReverseListener
  pub body : Body

pub record CompiledListener : Type 0 where
  pub addr : Bytes
  pub proxy : ProxyBuilder

-- `{bind}:{port}`
abbrev pub address : Option Bytes → ℕ → Bytes
address bind port = unwrap_or (text "127.0.0.1") bind ++ 58 ∷ to_string port

-- What the end of each `emit` adds to the builder: `apply_layer`, and `route` under the predicate or
-- under none.
unfoldable pub add : ProxyBuilder → Option Predicate → Emitted → ProxyBuilder
add b pred (layer l) = record b { layers = b.layers ++ (pred, l) ∷ [] }
add b pred (route u) = record b { routes = b.routes ++ (or_always pred, u) ∷ [] }

-- `validate_min_scope_global`
unfoldable pub validate_min_scope_global : List Decl → Result (Unit {0})
unfolding rule_min_scope
validate_min_scope_global [] = ok tt
validate_min_scope_global (d ∷ decls) = elim (rule_min_scope d.leaf) [
  | listener ↦ err (only_in_listener (rule_node_name d.leaf))
  | global ↦ validate_min_scope_global decls
]

-- A loop of `into_listeners`, over the listeners of one kind.
unfoldable pub compile_all :
    {A : Type 0}
    → (A → RedisCache → Result (RedisCache × CompiledListener))
    → List A
    → RedisCache
    → Result (RedisCache × List CompiledListener)
compile_all compile [] cache = ok (cache, [])
compile_all compile (a ∷ rest) cache = do
  (cache', first) ← compile a cache
  (cache'', others) ← compile_all compile rest cache'
  ok (cache'', first ∷ others)

-- `e` and `now` are those of `emit`; whether a certificate and its key can be read from their files is
-- an argument.
module _ (e : Engines) (now : ℕ) (identity_valid : Identity → Bool) where
  -- `emit_decl`
  unfoldable pub emit_decl : ProxyBuilder → Decl → Result ProxyBuilder
  unfolding add emit
  emit_decl b d = do
    emitted ← emit e now d.redis d.scope_label d.leaf
    ok (add b (effective_predicate d) emitted)

  -- The loop over the declarations of a listener.
  unfoldable pub emit_decls : List Decl → ProxyBuilder → Result ProxyBuilder
  unfolding emit_decl
  emit_decls [] b = ok b
  emit_decls (d ∷ decls) b = do b' ← emit_decl b d; emit_decls decls b'

  -- `ca_pem_files` and `tls_identity`.
  unfoldable pub read_identity : Identity → Result Identity
  read_identity i = if identity_valid i then ok i else err (invalid_identity i.cert)

  -- The rules of a listener, and the cache after them.
  unfoldable pub listener_decls :
      Option RedisConfig
      → Option RedisConfig
      → Body
      → Body
      → RedisCache
      → Result (RedisCache × List Decl)
  unfolding walk_listener_body listener_initial_redis
  listener_decls own process globals body cache = do
    (cache', initial) ← listener_initial_redis e.libraries own process cache
    walk_listener_body e.libraries globals body initial cache'

  -- `compile_forward`
  unfoldable pub compile_forward :
      ProcessSettings
      → Option RedisConfig
      → Body
      → ForwardListener
      → RedisCache
      → Result (RedisCache × CompiledListener)
  unfolding listener_decls apply_process_settings read_identity emit_decls
  compile_forward process process_redis globals fwd cache = do
    (cache', decls) ← listener_decls fwd.redis process_redis globals fwd.body cache
    settled ← apply_process_settings e now new_builder process
    ca ← read_identity fwd.ca
    tls ← transpose read_identity fwd.tls
    b ←
        emit_decls decls
          (record settled { ca = some ca; tls_identity = tls; credentials = fwd.credentials })
    ok (cache', record { addr = address fwd.bind fwd.port; proxy = b })

  -- `compile_reverse`, with `reverse_proxy`, which parses a URL as the router does.
  unfoldable pub compile_reverse :
      ProcessSettings
      → Option RedisConfig
      → Body
      → ReverseListener
      → RedisCache
      → Result (RedisCache × CompiledListener)
  unfolding listener_decls apply_process_settings read_identity emit_decls
  compile_reverse process process_redis globals rev cache = do
    (cache', decls) ← listener_decls rev.redis process_redis globals rev.body cache
    settled ← apply_process_settings e now new_builder process
    target ← ok_or (invalid_upstream rev.upstream) (parse_backend e.parse_uri rev.upstream)
    tls ← transpose read_identity rev.tls
    b ← emit_decls decls (record settled { upstream_target = some target; tls_identity = tls })
    ok (cache', record { addr = address rev.bind rev.port; proxy = b })

  -- `into_listeners`
  unfoldable pub into_listeners : ProxyConfig → Result (List CompiledListener)
  unfolding walk_body validate_min_scope_global compile_forward compile_reverse compile_all
  into_listeners c = if is_empty c.forwards && is_empty c.reverses then err no_listeners else do
    (probe, decls) ← walk_body e.libraries c.body 0 (new_ctx none []) []
    checked ← validate_min_scope_global decls
    (cache, forwards) ← compile_all (compile_forward c.settings c.redis c.body) c.forwards []
    (cache', reverses) ← compile_all (compile_reverse c.settings c.redis c.body) c.reverses cache
    ok (forwards ++ reverses)
