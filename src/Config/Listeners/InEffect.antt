-- ===== src/Config/Listeners/InEffect.antt =====
-- A compiled listener has, at every request, the layers and the routes of the rules in effect.
use mathlib.Core.List.{map}
use noxy.Common.{
  ◌&&◌, ℕ, Bool, true, false, Option, none, some, List, [], ◌∷◌, ◌++◌, if◌then◌else◌, ◌≡◌, refl,
  sym, ap, ◌∙◌,
}
use noxy.Config.Listeners.Made.{Made, active_layers, active_routes, emit_decls-Grown}
use noxy.Http.{Bytes, Request}
use noxy.Config.{
  invalid_upstream, no_listeners, Error, invalid_upstream, ok_or, Result, ok, err, transpose, Body,
  RedisConfig,
}
use noxy.Config.Build.{Engines, duration}
use noxy.Config.Settings.{
  ProcessSettings, Identity, ProxyBuilder, new_builder, apply_process_settings,
}
use noxy.Config.Walk.{Decl, RedisCache}
use noxy.Config.Walk.Stores.Listener.{walk_listener_body-stores}
use noxy.Config.Walk.Stores.{declared_of, IsCache, listener_stores}
use noxy.Config.Shadow.Effect.{applies_to, leaves_in_effect}
use mathlib.Core.Path.{subst}
use noxy.Config.Listeners.Made.{applying}
use noxy.Common.{Bool-cases, inl, inr}
use noxy.Config.Walk.Balance.{steps_ok, ok_pair, ok_injective}
use noxy.Config.Forest.{forest_of, listener_in_effect}
use noxy.Config.Shadow.Innermost.{first_is_match, walk_listener_body-innermost}
use noxy.Config.Listeners.{
  validate_min_scope_global, new_ctx, walk_body, is_empty, into_listeners, parse_backend,
  ProxyConfig, ReverseListener, compile_all, address, compile_reverse, listener_initial_redis,
  read_identity, ForwardListener, CompiledListener, emit_decls, listener_decls, compile_forward,
}

-- A compiled listener, against its address and its rules: its declarations are those of the walk of its
-- rules, each with the connection to Redis that the tree declares nearest and the label of its scope;
-- those that apply to the request are the rules in effect, and of each of them, and of no other, comes a
-- layer or a route that applies to the request.
pub record Serves (e : Engines) (now : ℕ) (identity_valid : Identity → Bool) (req : Request)
    (process : Option RedisConfig) (globals : Body) (spec : Bytes × Option RedisConfig × Body)
    (found : CompiledListener) : Type 0 where
  pub addr : found.addr ≡ spec.0
  pub cache : RedisCache
  pub cache' : RedisCache
  pub decls : List Decl
  pub walked :
      listener_decls e now identity_valid spec.1 process globals spec.2 cache ≡ ok (cache', decls)
  pub stores : map declared_of decls ≡ listener_stores spec.1 process globals spec.2
  pub rules :
      map (λ (d : Decl). d.leaf) (applying req decls)
      ≡ listener_in_effect (forest_of e.libraries req globals) (forest_of e.libraries req spec.2)
  pub made :
      Made e now
        (applying req decls)
        (active_layers req found.proxy.layers)
        (active_routes req found.proxy.routes)

-- Two lists, item by item.
pub data Pairwise {A B : Type 0} (R : A → B → Type 0) : List A → List B → Type 0 where
  none_left : Pairwise R [] []
  both :
      {a : A} {b : B} {as' : List A} {bs : List B}
      → R a b
      → Pairwise R as' bs
      → Pairwise R (a ∷ as') (b ∷ bs)

Pairwise-append :
    {A B : Type 0} {R : A → B → Type 0} {as' cs : List A} {bs ds : List B}
    → Pairwise R as' bs
    → Pairwise R cs ds
    → Pairwise R (as' ++ cs) (bs ++ ds)
Pairwise-append none_left q = q
Pairwise-append (both r p) q = both r (Pairwise-append p q)

compile_all-Pairwise :
    {A S : Type 0} {R : S → CompiledListener → Type 0} (spec : A → S)
    (compile : A → RedisCache → Result (RedisCache × CompiledListener))
    → ((a : A) (cache cache' : RedisCache) (found : CompiledListener)
        → IsCache cache
        → compile a cache ≡ ok (cache', found)
        → R (spec a) found × IsCache cache')
    → (as' : List A) (cache cache' : RedisCache) (found : List CompiledListener) → IsCache cache
    → compile_all compile as' cache ≡ ok (cache', found)
    → Pairwise R (map spec as') found × IsCache cache'
unfolding compile_all
compile_all-Pairwise {R = R} spec compile each [] cache cache' found v h =
    let (same, e) = ok_pair h in (rw (sym e) none_left, subst IsCache same v)
compile_all-Pairwise {R = R} spec compile each (a ∷ as') cache cache' found v h =
    let ((cache1, first), h1, h2) = steps_ok (compile a cache) _ h in
    let ((cache2, others), h3, h4) = steps_ok (compile_all compile as' cache1) _ h2 in
    let (same, e) = ok_pair h4 in
    let (r, v1) = each a cache cache1 first v h1 in
    let (rs, v2) = compile_all-Pairwise spec compile each as' cache1 cache2 others v1 h3 in
    (rw (sym e) (both r rs), subst IsCache same v2)

-- The settings leave the layers and the routes alone.
apply_process_settings-keeps :
    (e : Engines) (now : ℕ) (b b' : ProxyBuilder) (s : ProcessSettings)
    → apply_process_settings e now b s ≡ ok b'
    → (b'.layers ≡ b.layers) × (b'.routes ≡ b.routes)
unfolding apply_process_settings
apply_process_settings-keeps e now b b' s h =
    let (_, _, h1) = steps_ok (transpose (duration e now) s.handshake_timeout) _ h in
    let (_, _, h2) = steps_ok (transpose (duration e now) s.idle_timeout) _ h1 in
    let (_, _, h3) = steps_ok (transpose (duration e now) s.connect_timeout) _ h2 in
    let (_, _, h4) = steps_ok (transpose (duration e now) s.request_timeout) _ h3 in
    let (_, _, h5) = steps_ok (transpose (duration e now) s.drain_timeout) _ h4 in
    let (_, _, h6) = steps_ok (transpose (duration e now) s.pool_idle_timeout) _ h5 in
    (
      ap (λ (p : ProxyBuilder). p.layers) (sym (ok_injective h6)),
      ap (λ (p : ProxyBuilder). p.routes) (sym (ok_injective h6)),
    )

module _ (e : Engines) (now : ℕ) (identity_valid : Identity → Bool) (req : Request) where
  leaves-applying :
      (decls : List Decl)
      → map (λ (d : Decl). d.leaf) (applying req decls) ≡ leaves_in_effect req decls
  unfolding applying leaves_in_effect
  leaves-applying [] = refl
  leaves-applying (d ∷ decls) = elim (Bool-cases (applies_to req d)) [
    | inl on ↦ rw on (ap (◌∷◌ d.leaf) (leaves-applying decls))
    | inr off ↦ rw off (leaves-applying decls)
  ]

  -- A listener of a builder that is made from one that has no layers yet.
  built-Serves :
      (globals body : Body) (own process : Option RedisConfig) (cache cache' : RedisCache)
      (decls : List Decl) (b b' : ProxyBuilder) (addr : Bytes)
      → first_is_match globals ≡ false
      → IsCache cache
      → listener_decls e now identity_valid own process globals body cache ≡ ok (cache', decls)
      → b.layers ≡ []
      → b.routes ≡ []
      → emit_decls e now identity_valid decls b ≡ ok b'
      → Serves e now identity_valid req process globals
          (addr, own, body)
          (record { addr = addr; proxy = b' })
        × IsCache cache'
  unfolding listener_decls active_layers active_routes
  built-Serves globals body own process cache cache' decls b b' addr free v walked no_layers
        no_routes h =
      let ((cache1, initial), began, found) =
        steps_ok (listener_initial_redis e.libraries own process cache) _ walked in
      let g = emit_decls-Grown e now req identity_valid decls b b' h in
      let e1 = g.layers_after ∙ ap (λ ls. active_layers req ls ++ g.layers) no_layers in
      let e2 = g.routes_after ∙ ap (λ rs. active_routes req rs ++ g.routes) no_routes in
      let (placed, v') =
        walk_listener_body-stores e.libraries own process globals body cache cache1 cache' initial
          decls v began found in
      (
        record {
          addr = refl;
          cache = cache;
          cache' = cache';
          decls = decls;
          walked = walked;
          stores = placed;
          rules =
              leaves-applying decls
              ∙ walk_listener_body-innermost e.libraries req globals body initial cache1 cache'
                  decls free found;
          made = rw (e1, e2) g.made;
        },
        v',
      )

  compile_forward-Serves :
      (process : ProcessSettings) (process_redis : Option RedisConfig) (globals : Body)
      (fwd : ForwardListener) (cache cache' : RedisCache) (found : CompiledListener)
      → first_is_match globals ≡ false
      → IsCache cache
      → compile_forward e now identity_valid process process_redis globals fwd cache
        ≡ ok (cache', found)
      → Serves e now identity_valid req process_redis globals
          (address fwd.bind fwd.port, fwd.redis, fwd.body)
          found
        × IsCache cache'
  unfolding compile_forward
  compile_forward-Serves process process_redis globals fwd cache cache' found free v h =
      let ((cache1, decls), walked, h1) =
        steps_ok
          (listener_decls e now identity_valid fwd.redis process_redis globals fwd.body cache) _
          h in
      let (settled, set, h2) = steps_ok (apply_process_settings e now new_builder process) _ h1 in
      let (ca, _, h3) = steps_ok (read_identity e now identity_valid fwd.ca) _ h2 in
      let (tls, _, h4) = steps_ok (transpose (read_identity e now identity_valid) fwd.tls) _ h3 in
      let start : ProxyBuilder = record settled {
        ca = some ca;
        tls_identity = tls;
        credentials = fwd.credentials;
      } in
      let (b, emitted, h5) = steps_ok (emit_decls e now identity_valid decls start) _ h4 in
      let (no_layers, no_routes) =
        apply_process_settings-keeps e now new_builder settled process set in
      let (kept, same) = ok_pair h5 in
      let (serves, v') =
        built-Serves globals fwd.body fwd.redis process_redis cache cache1 decls start b
          (address fwd.bind fwd.port) free v walked no_layers no_routes emitted in
      (rw (sym same) serves, subst IsCache kept v')

  compile_reverse-Serves :
      (process : ProcessSettings) (process_redis : Option RedisConfig) (globals : Body)
      (rev : ReverseListener) (cache cache' : RedisCache) (found : CompiledListener)
      → first_is_match globals ≡ false
      → IsCache cache
      → compile_reverse e now identity_valid process process_redis globals rev cache
        ≡ ok (cache', found)
      → Serves e now identity_valid req process_redis globals
          (address rev.bind rev.port, rev.redis, rev.body)
          found
        × IsCache cache'
  unfolding compile_reverse
  compile_reverse-Serves process process_redis globals rev cache cache' found free v h =
      let ((cache1, decls), walked, h1) =
        steps_ok
          (listener_decls e now identity_valid rev.redis process_redis globals rev.body cache) _
          h in
      let (settled, set, h2) = steps_ok (apply_process_settings e now new_builder process) _ h1 in
      let (target, _, h3) =
        steps_ok (ok_or (invalid_upstream rev.upstream) (parse_backend e.parse_uri rev.upstream)) _
          h2 in
      let (tls, _, h4) = steps_ok (transpose (read_identity e now identity_valid) rev.tls) _ h3 in
      let start : ProxyBuilder = record settled {
        upstream_target = some target;
        tls_identity = tls;
      } in
      let (b, emitted, h5) = steps_ok (emit_decls e now identity_valid decls start) _ h4 in
      let (no_layers, no_routes) =
        apply_process_settings-keeps e now new_builder settled process set in
      let (kept, same) = ok_pair h5 in
      let (serves, v') =
        built-Serves globals rev.body rev.redis process_redis cache cache1 decls start b
          (address rev.bind rev.port) free v walked no_layers no_routes emitted in
      (rw (sym same) serves, subst IsCache kept v')

-- What a configuration asks for.
abbrev pub specs : ProxyConfig → List (Bytes × Option RedisConfig × Body)
specs c =
    map (λ (fwd : ForwardListener). (address fwd.bind fwd.port, fwd.redis, fwd.body)) c.forwards
    ++ map (λ (rev : ReverseListener). (address rev.bind rev.port, rev.redis, rev.body)) c.reverses

unless_ok :
    {A : Type 0} (t : Bool) (failure : Error) (otherwise : Result A) (out : A)
    → (if t then err failure else otherwise) ≡ ok out
    → otherwise ≡ ok out
unless_ok true failure otherwise out h = cc
unless_ok false failure otherwise out h = h

-- Where a configuration compiles and its first global rule is not a match, there is one proxy for each
-- forward listener and then for each reverse one, in order and under its address. The rules that it is
-- made of are the global ones and then the listener's, in the order of the tree, each with the connection
-- to Redis that is declared nearest around it (in its scopes, or else for the listener, or else for the
-- process) and with the label of its scope. Of every request, the layers and the routes of the proxy whose
-- predicates hold of it are those made, with these connections and labels, of the rules that the tree puts
-- into effect, in order: one layer or one route for each such rule, and none for any other.
pub into_listeners-Serves :
    (e : Engines) (now : ℕ) (identity_valid : Identity → Bool) (req : Request) (c : ProxyConfig)
    (found : List CompiledListener)
    → first_is_match c.body ≡ false
    → into_listeners e now identity_valid c ≡ ok found
    → Pairwise (Serves e now identity_valid req c.redis c.body) (specs c) found
unfolding into_listeners
into_listeners-Serves e now identity_valid req c found free h =
    let h0 = unless_ok (is_empty c.forwards && is_empty c.reverses) no_listeners _ found h in
    let ((_, decls), _, h1) = steps_ok (walk_body e.libraries c.body 0 (new_ctx none []) []) _ h0 in
    let (_, _, h2) = steps_ok (validate_min_scope_global decls) _ h1 in
    let ((cache1, forwards), h3, h4) =
      steps_ok
        (compile_all (compile_forward e now identity_valid c.settings c.redis c.body) c.forwards [])
        _ h2 in
    let ((cache2, reverses), h5, h6) =
      steps_ok
        (compile_all (compile_reverse e now identity_valid c.settings c.redis c.body) c.reverses
          cache1)
        _ h4 in
    let (served, v) =
      compile_all-Pairwise _ _
        (λ fwd cache cache' one v made.
          compile_forward-Serves e now identity_valid req c.settings c.redis c.body fwd cache cache'
            one free v made)
        c.forwards [] cache1 forwards tt h3 in
    let (served', _) =
      compile_all-Pairwise _ _
        (λ rev cache cache' one v made.
          compile_reverse-Serves e now identity_valid req c.settings c.redis c.body rev cache cache'
            one free v made)
        c.reverses cache1 cache2 reverses v h5 in
    rw (sym (ok_injective h6)) (Pairwise-append served served')
