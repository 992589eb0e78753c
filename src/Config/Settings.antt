-- ===== src/Config/Settings.antt =====
-- config.rs, the process-wide settings and `apply_process_settings`; and `ProxyBuilder` of lib.rs, which
-- they are put into.
use noxy.Common.{ℕ, Bool, false, ◌||◌, Option, none, some, List, []}
use noxy.Http.{Bytes}
use noxy.Router.{Backend, Upstream}
use noxy.Config.{Result, ok, ◌>>=◌, transpose}
use noxy.Config.Matching.{Predicate}
use noxy.Config.Build.{Engines, unwrap_or, duration}
use noxy.Config.Emit.{Layer}

pub record ProcessSettings : Type 0 where
  pub accept_invalid_upstream_certs : Bool
  pub handshake_timeout : Option Bytes
  pub idle_timeout : Option Bytes
  pub connect_timeout : Option Bytes
  pub request_timeout : Option Bytes
  pub max_connections : Option ℕ
  pub drain_timeout : Option Bytes
  pub pool_max_idle_per_host : Option ℕ
  pub pool_idle_timeout : Option Bytes

-- `CaConfig` and `TlsConfig`.
pub record Identity : Type 0 where
  pub cert : Bytes
  pub key : Bytes

-- A layer with the predicate under which `Conditional` runs it, if it has one.
pub record ProxyBuilder : Type 0 where
  pub ca : Option Identity
  pub layers : List (Option Predicate × Layer)
  pub accept_invalid_upstream_certs : Bool
  pub handshake_timeout : Option ℕ
  pub idle_timeout : Option ℕ
  pub connect_timeout : Option ℕ
  pub request_timeout : Option ℕ
  pub max_connections : Option ℕ
  pub drain_timeout : Option ℕ
  pub credentials : List (Bytes × Bytes)
  pub pool_max_idle_per_host : ℕ
  pub pool_idle_timeout : ℕ
  pub upstream_target : Option Backend
  pub tls_identity : Option Identity
  pub routes : List (Predicate × Upstream)

-- `Proxy::builder`
abbrev pub new_builder : ProxyBuilder
new_builder = record {
  ca = none;
  layers = [];
  accept_invalid_upstream_certs = false;
  handshake_timeout = none;
  idle_timeout = none;
  connect_timeout = some 30_000_000_000;
  request_timeout = none;
  max_connections = none;
  drain_timeout = none;
  credentials = [];
  pool_max_idle_per_host = 8;
  pool_idle_timeout = 90_000_000_000;
  upstream_target = none;
  tls_identity = none;
  routes = [];
}

-- A setting that is given, or else what there was.
abbrev set {ℓ} : {A : Type ℓ} → Option A → Option A → Option A
set old none = old
set old (some a) = some a

module _ (e : Engines) (now : ℕ) where
  unfoldable pub apply_process_settings : ProxyBuilder → ProcessSettings → Result ProxyBuilder
  apply_process_settings b s = do
    handshake ← transpose (duration e now) s.handshake_timeout
    idle ← transpose (duration e now) s.idle_timeout
    connect ← transpose (duration e now) s.connect_timeout
    request ← transpose (duration e now) s.request_timeout
    drain ← transpose (duration e now) s.drain_timeout
    pool_idle ← transpose (duration e now) s.pool_idle_timeout
    ok (record b {
      accept_invalid_upstream_certs =
          b.accept_invalid_upstream_certs || s.accept_invalid_upstream_certs;
      handshake_timeout = set b.handshake_timeout handshake;
      idle_timeout = set b.idle_timeout idle;
      connect_timeout = set b.connect_timeout connect;
      request_timeout = set b.request_timeout request;
      max_connections = set b.max_connections s.max_connections;
      drain_timeout = set b.drain_timeout drain;
      pool_max_idle_per_host = unwrap_or b.pool_max_idle_per_host s.pool_max_idle_per_host;
      pool_idle_timeout = unwrap_or b.pool_idle_timeout pool_idle;
    })
