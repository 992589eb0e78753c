-- ===== src/Config/Listeners/Tests.antt =====
-- A configuration with a forward listener and a reverse one, compiled, and the texts of durations.
use noxy.Common.{if◌then◌else◌, true, false, none, some, List, [], ◌∷◌, ◌≡◌, refl, map, arith}
use noxy.Http.{bytes_eq, text, Request}
use noxy.Gate.{uniform}
use noxy.Config.{
  Result, ok, err, Libraries, panicked, only_in_listener, Leaf, RuleNode, Body, invalid_duration,
}
use noxy.Config.Build.{Engines}
use noxy.Config.Emit.{bandwidth_throttle, latency_injector}
use noxy.Config.Texts.{parse_duration, parse_delay, parse_header_list, Seconds}
use noxy.Config.Texts.Durations.{parse_duration-millis}
use noxy.Config.Walk.{to_string}
use noxy.Config.Listeners.{ProxyConfig, CompiledListener, into_listeners}
use noxy.Config.Listeners.Made.{active_layers}
use noxy.Config.Walk.Stores.{listener_stores}
use noxy.Config.Listeners.InEffect.{Serves, Pairwise, specs, into_listeners-Serves}

-- Of the numbers of seconds, `1.5` and the negative `-1`, of which `from_secs_f64` panics.
abbrev two_numbers : Seconds
two_numbers s =
    if bytes_eq s (text "1.5")
    then some (some 1_500_000_000)
    else if bytes_eq s (text "-1")
    then some none
    else none

abbrev engines : Engines
engines = record {
  libraries = record {
    compile_glob = λ pattern. some (bytes_eq pattern);
    uri_host = λ uri. none;
    method_from_bytes = λ m. some m;
    redis_url_valid = λ url. true;
  };
  matchers = record {
    route_valid = λ p. true;
    route_at = λ p path. none;
    regex_valid = λ p. true;
    regex_is_match = λ p path. false;
    regex_replace = λ p path r. path;
    parse_path = λ p. some (p, none);
  };
  parse_uri = λ url.
      some (record {
        scheme = some (text "http");
        authority = some url;
        path = text "/";
        query = none;
      });
  seconds = two_numbers;
  source_valid = λ s. true;
  file_valid = λ s. true;
}

abbrev request : Request
request = record {
  method = text "GET";
  uri = record { scheme = none; authority = none; path = text "/slow"; query = none };
  headers = [];
  target = none;
  body = [];
}

abbrev just : Leaf → Body
just leaf = Body.cons (RuleNode.leaf leaf) Body.nil

abbrev two_listeners : ProxyConfig
two_listeners = record {
  settings = record {
    accept_invalid_upstream_certs = false;
    handshake_timeout = some (text "200ms");
    idle_timeout = none;
    connect_timeout = none;
    request_timeout = none;
    max_connections = some 10;
    drain_timeout = none;
    pool_max_idle_per_host = none;
    pool_idle_timeout = none;
  };
  redis = some (record { url = text "redis://p"; prefix = none });
  forwards =
      record {
        port = 8080;
        bind = none;
        ca = record { cert = text "ca.pem"; key = text "ca.key" };
        tls = none;
        credentials = [];
        redis = some (record { url = text "redis://f"; prefix = some (text "f:") });
        body =
            Body.cons (RuleNode.path (text "/slow") none none (just (Leaf.bandwidth 100)))
              (just (Leaf.upstream (record { urls = text "a" ∷ []; balance = none })));
      }
      ∷ [];
  reverses =
      record {
        port = 80;
        bind = some (text "::");
        upstream = text "b";
        tls = none;
        redis = none;
        body = Body.nil;
      }
      ∷ [];
  body = Body.cons (RuleNode.leaf (Leaf.bandwidth 7)) (just (Leaf.latency (text "1.5s")));
}

abbrev compiled : ProxyConfig → List CompiledListener
compiled c = elim (into_listeners engines 0 (λ i. true) c) [ ok found ↦ found | err e ↦ [] ]

into_listeners-Serves_example :
    Pairwise
      (Serves engines 0 (λ i. true) request two_listeners.redis two_listeners.body)
      (specs two_listeners)
      (compiled two_listeners)
unfolding into_listeners noxy.Config.Matching.into_predicate noxy.Router.new_upstream
into_listeners-Serves_example =
    into_listeners-Serves engines 0 (λ i. true) request two_listeners (compiled two_listeners) refl
      refl

-- Where the rules of the reverse listener, a scope beside a leaf, keep their counters.
stores_of_reverse :
    listener_stores none two_listeners.redis two_listeners.body (
      Body.cons
        (RuleNode.path
          (text "/a")
          (some (text "a"))
          (some (record { url = text "redis://n"; prefix = none }))
          (Body.cons (RuleNode.path (text "/b") none none (just (Leaf.bandwidth 1))) Body.nil))
        (just (Leaf.bandwidth 2)))
    ≡ (Leaf.bandwidth 7, some (record { url = text "redis://p"; prefix = text "noxy:" }), [])
      ∷ (
        Leaf.latency (text "1.5s"),
        some (record { url = text "redis://p"; prefix = text "noxy:" }),
        [],
      )
      ∷ (
        Leaf.bandwidth 1,
        some (record { url = text "redis://n"; prefix = text "noxy:" }),
        text "a.0",
      )
      ∷ (Leaf.bandwidth 2, some (record { url = text "redis://p"; prefix = text "noxy:" }), [])
      ∷ []
unfolding noxy.Config.Walk.Stores.stores noxy.Config.Walk.join noxy.Config.Walk.to_string
stores_of_reverse = refl

-- The listener's own throttle on its path, and the global latency.
layers_at_slow :
    map (λ (c : CompiledListener). active_layers request c.proxy.layers) (compiled two_listeners)
    ≡ (latency_injector (noxy.Gate.fixed 1_500_000_000) ∷ bandwidth_throttle 100 ∷ [])
      ∷ (bandwidth_throttle 7 ∷ latency_injector (noxy.Gate.fixed 1_500_000_000) ∷ [])
      ∷ []
unfolding into_listeners noxy.Config.Matching.into_predicate noxy.Router.new_upstream active_layers
    noxy.Config.Shadow.effective_predicate
layers_at_slow = refl

-- A route that is declared for all listeners is refused.
global_upstream :
    into_listeners engines 0
      (λ i. true)
      (record two_listeners {
        body = just (Leaf.upstream (record { urls = text "a" ∷ []; balance = none }));
      })
    ≡ err (only_in_listener (text "upstream"))
unfolding into_listeners noxy.Config.rule_node_name
global_upstream = refl

parse_duration-millis_example : parse_duration two_numbers (text "200ms") ≡ ok 200_000_000
unfolding to_string
parse_duration-millis_example = parse_duration-millis two_numbers 200 (omega arith)

-- A range may be empty, and a negative number of seconds is no error.
empty_range : parse_delay two_numbers (text "500ms..100ms") ≡ ok (uniform 500_000_000 100_000_000)
unfolding parse_delay
empty_range = refl

negative_panics : parse_duration two_numbers (text "-1s") ≡ err (panicked (text "-1"))
unfolding parse_duration bytes_eq
negative_panics = refl

header_list : parse_header_list (text "a, b  c") ≡ text "a" ∷ text "b" ∷ text "c" ∷ []
unfolding parse_header_list
header_list = refl
