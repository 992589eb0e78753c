-- ===== src/Config/Walk/Stores/Cache.antt =====
-- The cache of connections holds what was asked for.
use mathlib.Core.Path.{subst}
use noxy.Common.{
  ◌&&◌, Option, none, some, [], ◌∷◌, ◌≡◌, refl, sym, ◌∙◌, arith, and_true, Bool-cases, inl, inr,
}
use noxy.Http.{Bytes, bytes_eq, bytes_eq_iff}
use noxy.Config.{Result, ok, ◌>>=◌, Libraries, RedisConfig}
use noxy.Config.Walk.{
  RedisConnection, RedisCache, cache_get, prefix_of, open_with_prefix, cached_connection,
}
use noxy.Config.Walk.Balance.{steps_ok, ok_pair, ok_injective}
use noxy.Config.Walk.Stores.{connection_to, IsCache}

cache_get-IsCache :
    (url prefix : Bytes) (cache : RedisCache) (conn : RedisConnection)
    → IsCache cache
    → cache_get url prefix cache ≡ some conn
    → conn ≡ record { url = url; prefix = prefix }
unfolding cache_get
cache_get-IsCache url prefix [] conn v h = cc
cache_get-IsCache url prefix (((u, p), c) ∷ cache) conn (exact, v) h =
    elim (Bool-cases (bytes_eq u url && bytes_eq p prefix)) [
      | inl same ↦
          let (same_url, same_prefix) = and_true same in
          let e : u ≡ url = (bytes_eq_iff u url).0 same_url in
          let e' : p ≡ prefix = (bytes_eq_iff p prefix).0 same_prefix in
          let found : c ≡ conn = ground (arith, same, h) in
          sym found ∙ exact ∙ (λ i. record { url = e i; prefix = e' i })
      | inr other ↦ cache_get-IsCache url prefix cache conn v (rw other at h)
    ]

module _ (l : Libraries) where
  open_with_prefix-exact :
      (url prefix : Bytes) (conn : RedisConnection)
      → open_with_prefix l url prefix ≡ ok conn
      → conn ≡ record { url = url; prefix = prefix }
  unfolding open_with_prefix
  open_with_prefix-exact url prefix conn h = elim (Bool-cases (l.redis_url_valid url)) [
    | inl valid ↦ sym (ok_injective (rw valid at h))
    | inr invalid ↦ let wrong = rw invalid at h in cc
  ]

  abbrev from_cache :
      RedisCache → RedisConfig → Option RedisConnection → Result (RedisCache × RedisConnection)
  from_cache cache cfg (some known) = ok (cache, known)
  from_cache cache cfg none = do
    opened ← open_with_prefix l cfg.url (prefix_of cfg)
    ok (((cfg.url, prefix_of cfg), opened) ∷ cache, opened)

  found_or_opened :
      (cache cache' : RedisCache) (cfg : RedisConfig) (conn : RedisConnection)
      (got : Option RedisConnection)
      → IsCache cache
      → cache_get cfg.url (prefix_of cfg) cache ≡ got
      → from_cache cache cfg got ≡ ok (cache', conn)
      → (conn ≡ connection_to cfg) × IsCache cache'
  found_or_opened cache cache' cfg conn none v missing h =
      let (opened, e, e') = steps_ok (open_with_prefix l cfg.url (prefix_of cfg)) _ h in
      let exact = open_with_prefix-exact cfg.url (prefix_of cfg) opened e in
      let (grown, same) = ok_pair e' in (sym same ∙ exact, subst IsCache grown (exact, v))
  found_or_opened cache cache' cfg conn (some known) v found h =
      let (kept, same) = ok_pair h in
      (
        sym same ∙ cache_get-IsCache cfg.url (prefix_of cfg) cache known v found,
        subst IsCache kept v,
      )

  pub cached_connection-IsCache :
      (cache cache' : RedisCache) (cfg : RedisConfig) (conn : RedisConnection)
      → IsCache cache
      → cached_connection l cache cfg ≡ ok (cache', conn)
      → (conn ≡ connection_to cfg) × IsCache cache'
  unfolding cached_connection
  cached_connection-IsCache cache cache' cfg conn v h =
      found_or_opened cache cache' cfg conn (cache_get cfg.url (prefix_of cfg) cache) v refl h
