-- ===== src/Config/Walk/Stores/Listener.antt =====
-- The declarations of a listener, after the exclusions, have the connections and labels of their places.
use mathlib.Core.Path.{subst}
use noxy.Common.{
  ℕ, suc, Option, none, some, List, [], ◌∷◌, ◌++◌, ◌≡◌, refl, sym, ap, ◌∙◌, map, Bool-cases, inl,
  inr,
}
use noxy.Config.{ok, Libraries, RedisConfig, Body, rule_is_exclusive}
use noxy.Config.Matching.{list_of}
use noxy.Config.Walk.{
  RedisConnection, RedisCache, Decl, push_back, last?, with_path, new_ctx, cached_connection,
  walk_listener, listener_initial_redis, or_else, walk_body,
}
use noxy.Config.Shadow.{resolve, resolve_from, resolve_exclusions, walk_listener_body}
use noxy.Config.Walk.Balance.{steps_ok, ok_pair}
use noxy.Config.Walk.Stores.{declared_of, nearest, stores, IsCache, listener_stores}
use noxy.Config.Walk.Stores.Cache.{cached_connection-IsCache}
use noxy.Config.Walk.Stores.Kept.{walk_body-Keeps}

module _ (l : Libraries) where
  initial-nearest :
      (redis : Option RedisConfig) (own process : Option RedisConfig) (cache cache' : RedisCache)
      (initial : Option RedisConnection)
      → or_else own process ≡ redis
      → IsCache cache
      → listener_initial_redis l own process cache ≡ ok (cache', initial)
      → (initial ≡ nearest redis none) × IsCache cache'
  unfolding listener_initial_redis
  initial-nearest none own process cache cache' initial e v h =
      let (same, same') = ok_pair (rw (e, listener_initial_redis) at h) in
      (sym same', subst IsCache same v)
  initial-nearest (some cfg) own process cache cache' initial e v h =
      let ((cache1, conn), h1, h2) =
        steps_ok (cached_connection l cache cfg) _ (rw (e, listener_initial_redis) at h) in
      let (same, same') = ok_pair h2 in
      let (exact, v') = cached_connection-IsCache l cache cache1 cfg conn v h1 in
      (sym same' ∙ ap some exact, subst IsCache same v')

  resolve-declared_of :
      (decls : List Decl) (i : ℕ) (d : Decl) → declared_of (resolve decls i d) ≡ declared_of d
  unfolding resolve
  resolve-declared_of decls i d = elim (Bool-cases (rule_is_exclusive d.leaf)) [
    | inl e ↦ rw e refl
    | inr e ↦ rw e refl
  ]

  resolve_from-declared_of :
      (decls : List Decl) (i : ℕ) (ds : List Decl)
      → map declared_of (resolve_from decls i ds) ≡ map declared_of ds
  unfolding resolve_from
  resolve_from-declared_of decls i [] = refl
  resolve_from-declared_of decls i (d ∷ ds) =
      (λ k. resolve-declared_of decls i d k ∷ resolve_from-declared_of decls (suc i) ds k)

  first_connection : (initial : Option RedisConnection) → last? (list_of initial) ≡ initial
  first_connection none = refl
  first_connection (some conn) = refl

  pub walk_listener_body-stores :
      (own process : Option RedisConfig) (globals body : Body) (cache cache1 cache' : RedisCache)
      (initial : Option RedisConnection) (decls : List Decl)
      → IsCache cache
      → listener_initial_redis l own process cache ≡ ok (cache1, initial)
      → walk_listener_body l globals body initial cache1 ≡ ok (cache', decls)
      → (map declared_of decls ≡ listener_stores own process globals body) × IsCache cache'
  unfolding walk_listener_body walk_listener resolve_exclusions
  walk_listener_body-stores own process globals body cache cache1 cache' initial decls v h h0 =
      let (at_start, v1) =
        initial-nearest (or_else own process) own process cache cache1 initial refl v h in
      let ((cache2, found), h1, h2) = steps_ok (walk_listener l globals body initial cache1) _ h0 in
      let ((ctx, out), walked, h3) =
        steps_ok (walk_body l globals 0 (new_ctx initial cache1) []) _ h1 in
      let ((ctx', out'), walked', h4) =
        steps_ok (walk_body l body 0 (with_path ctx (push_back ctx.path 0)) out) _ h3 in
      let around = nearest (or_else own process) none in
      let (s, r, added) =
        walk_body-Keeps l globals 0 around [] 0 (new_ctx initial cache1) [] ctx out
          (record {
            redis_above = first_connection initial ∙ at_start;
            scopes = refl;
            number = refl;
            cache = v1;
          })
          walked in
      let (s', _, added') =
        walk_body-Keeps l body 0 around [] _ (with_path ctx (push_back ctx.path 0)) out ctx' out'
          (record {
            redis_above = s.redis_above;
            scopes = s.scopes;
            number = s.number;
            cache = s.cache;
          })
          walked' in
      let (kept, same) = ok_pair h4 in
      let (kept', resolved) = ok_pair h2 in
      (
        ap (map declared_of) (sym resolved)
            ∙ resolve_from-declared_of found 0 found
            ∙ ap (map declared_of) (sym same)
            ∙ added'
            ∙ ap (λ ds. ds ++ (stores body around [] (stores globals around [] 0).1).0) added,
        subst IsCache (kept ∙ kept') s'.cache,
      )
