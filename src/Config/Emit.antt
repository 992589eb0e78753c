-- ===== src/Config/Emit.antt =====
-- config.rs, `Rule::emit` of each rule: a layer of the builder, or a route.
use noxy.Common.{ltb, ℕ, Bool, true, false, Option, none, some, List, [], if◌then◌else◌}
use noxy.Http.{Bytes}
use noxy.Gate.{BlockList, FaultInjector, Delay}
use noxy.Headers.{
  ModifyHeaders, request_phase, response_phase, new_headers, set_header, append_header,
  remove_header,
}
use noxy.Retry.Settings.{Retry}
use noxy.Router.{Upstream}
use noxy.Rewrite.{RewriteRule, and_path, and_regex}
use noxy.Config.{
  text, Result, ok, err, invalid_pattern, panicked, ◌>>=◌, ok_or, transpose, Leaf, ScriptConfig,
}
use noxy.Config.Build.{
  unwrap_or, status_code, Engines, duration, build_retry, build_block_list, build_upstream,
}
use noxy.Config.Texts.{parse_duration, parse_delay, parse_header_list}
use noxy.Config.Walk.{RedisConnection}

-- Where a store is: in the memory of the layer, or in Redis, under a scope's label.
pub data Store : Type 0 where
  memory : Store
  redis_store : RedisConnection → Bytes → Store

-- The layers, by what their constructors are given. The log's are its two switches and the names that
-- it redacts and then reveals beside its defaults.
pub data Layer : Type 0 where
  traffic_logger : (bodies redact : Bool) → (redacted revealed : List Bytes) → Layer
  latency_injector : Delay → Layer
  bandwidth_throttle : ℕ → Layer
  fault_injector : FaultInjector → Layer
  rate_limiter : Store → (count window burst : ℕ) → (per_host : Bool) → Layer
  sliding_window : Store → (count window : ℕ) → (per_host : Bool) → Layer
  retry : Retry → Layer
  circuit_breaker :
      Store
      → (threshold recovery : ℕ) → (half_open_probes cache_ttl : Option ℕ) → (per_host : Bool)
      → Layer
  set_response : ℕ → Bytes → Layer
  block_list : BlockList → Layer
  modify_headers : ModifyHeaders → Layer
  url_rewrite : List RewriteRule → Layer
  script_layer : Bytes → Option ℕ → Bool → Layer

-- What a rule adds to the builder.
pub data Emitted : Type 0 where
  layer : Layer → Emitted
  route : Upstream → Emitted

abbrev names_of : Option Bytes → List Bytes
names_of none = []
names_of (some list) = parse_header_list list

abbrev store_of : Option RedisConnection → Bytes → Store
store_of none label = memory
store_of (some conn) label = redis_store conn label

-- An operation of the header layer that panics on an invalid name or value.
abbrev headers_or_panic : Bytes → Option ModifyHeaders → Result Emitted
headers_or_panic name found = do m ← ok_or (panicked name) found; ok (layer (modify_headers m))

module _ (e : Engines) (now : ℕ) where
  -- The time to live is read for a store in Redis only.
  cache_ttl_of : Store → Option Bytes → Result (Option ℕ)
  cache_ttl_of memory ttl = ok none
  cache_ttl_of (redis_store conn label) ttl = transpose (duration e now) ttl

  script_of : Bool → ScriptConfig → Result Emitted
  script_of valid c =
      if valid
      then ok (layer (script_layer c.source c.max_body_bytes c.shared))
      else err (invalid_pattern c.source)

  -- The part of each `emit` before it adds to the builder.
  unfoldable pub emit : Option RedisConnection → Bytes → Leaf → Result Emitted
  unfolding parse_delay status_code parse_duration build_retry build_block_list build_upstream
      cache_ttl_of script_of
  emit redis label (Leaf.log c) = ok (
      layer (
        traffic_logger (unwrap_or false c.bodies) (unwrap_or true c.redact)
          (names_of c.redact_headers) (names_of c.reveal_headers)))
  emit redis label (Leaf.latency value) = do
    delay ← parse_delay e.seconds value
    ok (layer (latency_injector delay))
  emit redis label (Leaf.bandwidth bps) =
      if ltb 0 bps then ok (layer (bandwidth_throttle bps)) else err (panicked (text "bandwidth"))
  emit redis label (Leaf.fault c) = do
    status ← status_code (unwrap_or 500 c.error_status)
    ok (
        layer (
          fault_injector (record {
            abort_rate = c.abort_rate;
            error_rate = c.error_rate;
            error_status = status;
          })))
  emit redis label (Leaf.rate_limit c) = do
    window ← duration e now c.window
    ok (
        layer (
          rate_limiter (store_of redis label) c.count window (unwrap_or c.count c.burst)
            c.per_host))
  emit redis label (Leaf.sliding_window c) = do
    window ← duration e now c.window
    ok (layer (sliding_window (store_of redis label) c.count window c.per_host))
  emit redis label (Leaf.retry c) = do r ← build_retry e now c; ok (layer (retry r))
  emit redis label (Leaf.circuit_breaker c) = do
    recovery ← duration e now c.recovery
    ttl ← cache_ttl_of (store_of redis label) c.cache_ttl
    ok (
        layer (
          circuit_breaker (store_of redis label) c.threshold recovery c.half_open_probes ttl
            c.per_host))
  emit redis label (Leaf.respond c) = do
    status ← status_code (unwrap_or 200 c.status)
    ok (layer (set_response status c.body))
  emit redis label (Leaf.block c) = do b ← build_block_list e now c; ok (layer (block_list b))
  emit redis label (Leaf.set_request_header name value) =
      headers_or_panic name (set_header new_headers request_phase name value)
  emit redis label (Leaf.append_request_header name value) =
      headers_or_panic name (append_header new_headers request_phase name value)
  emit redis label (Leaf.remove_request_header name) =
      headers_or_panic name (remove_header new_headers request_phase name)
  emit redis label (Leaf.set_response_header name value) =
      headers_or_panic name (set_header new_headers response_phase name value)
  emit redis label (Leaf.append_response_header name value) =
      headers_or_panic name (append_header new_headers response_phase name value)
  emit redis label (Leaf.remove_response_header name) =
      headers_or_panic name (remove_header new_headers response_phase name)
  emit redis label (Leaf.rewrite_path pattern replacement) = do
    rules ← ok_or (invalid_pattern pattern) (and_path e.matchers [] pattern replacement)
    ok (layer (url_rewrite rules))
  emit redis label (Leaf.rewrite_path_regex pattern replacement) = do
    rules ← ok_or (invalid_pattern pattern) (and_regex e.matchers [] pattern replacement)
    ok (layer (url_rewrite rules))
  emit redis label (Leaf.upstream c) = do u ← build_upstream e now c; ok (route u)
  emit redis label (Leaf.script c) = script_of (e.source_valid c.source) c
  emit redis label (Leaf.script_file c) = script_of (e.file_valid c.source) c
