-- ===== src/Lib.antt =====
-- noxy is an HTTP proxy with a stack of middleware layers (README.md). A request goes through the
-- layers to the forwarding service, and its response comes back through them. This library models
-- the layers that keep state or make decisions, each as functions on explicit state, and proves
-- what they promise.
--
-- Common.antt holds what the parts share: numbers, Boolean tests and lists. KeyMap.antt is the
-- keyed map that each store of src/middleware keeps (a HashMap with the bookkeeping of
-- src/middleware/circuit_breaker.rs, `evict_if_needed`), and Http.antt the messages of src/http.rs
-- and the type of a service: a function of a request and of the state of everything below it.
--
-- Circuit.antt and the files below it are src/middleware/circuit_breaker.rs: `SharedState::check`
-- is `check`, `SharedState::record` is `record_result`, and Circuit/Service.antt is the layer.
-- Circuit/Redis.antt is the Redis-backed store, its Lua scripts `CB_CHECK_LUA` and `CB_RECORD_LUA`
-- as functions of the hash that they work on. Sliding.antt and the files below it are
-- src/middleware/sliding_window.rs: `SharedState::take` is `take`, and Sliding/Lua.antt the script
-- `SLIDING_WINDOW_LUA` over an interface of the sorted sets of Redis.
--
-- Retry.antt and the files below it are src/middleware/retry.rs: Retry/Budget.antt is
-- `BudgetState`, whose windows Retry/Budget/Window.antt counts from outside, Retry/Capture.antt
-- `ReplayCapture` and `RecordingBody`, Retry/Backoff.antt the delays, Retry/Settings.antt the
-- settings of the layer, and Retry/Service.antt its service, whose loop `for attempt in
-- 0..=max_retries` is `attempts`, a recursion on the number of attempts that are left.
--
-- Forward.antt and the files below it are the forwarding service of src/http.rs, at the bottom of
-- the stack; Forward/Service.antt is `ForwardService::call`. Router.antt and its files are
-- src/middleware/router.rs: a call returns the routes with the counter of the upstream that it
-- picked from. RateLimiter.antt is the token bucket of src/middleware/rate_limiter.rs, with exact
-- numbers of units for the tokens that the source counts in floating point, and
-- RateLimiter/Redis.antt its Lua script `RATE_LIMIT_LUA`.
--
-- Host.antt is `extract_host`, which four files of src/middleware declare. Gate.antt holds the
-- layers that decide whether a request goes on, src/middleware/conditional.rs, block_list.rs,
-- fault_injector.rs, set_response.rs and latency_injector.rs; Headers.antt is
-- src/middleware/modify_headers.rs, and Throttle.antt the body of
-- src/middleware/bandwidth_throttle.rs, poll by poll, with what its polls have yielded in
-- Throttle/Delivered.antt. Rewrite.antt is src/middleware/url_rewrite.rs; Rewrite/Template.antt
-- has a template as literal parts and placeholders.
--
-- Config.antt and the files below it are src/config.rs, which turns a tree of rules into layers:
-- Config/Matching.antt is `MatchSpec::into_predicate`, Config/Walk.antt the walk
-- `walk_listener_body` with its stacks, and Config/Shadow.antt `resolve_exclusions` and
-- `effective_predicate`. Config/Forest.antt is the meaning of a configuration apart from its
-- compilation: at one request, a body is a forest of rules and of scopes, and the innermost rule
-- of a kind is in effect. Config/Walk/Collect.antt says what the walk collects of a forest,
-- Config/Walk/Stores.antt which connection to Redis and which label each rule gets, and the files
-- below Config/Shadow what is left of it after the exclusion. Config/Texts.antt reads durations
-- and lists, Config/Build.antt and Config/Emit.antt are the `emit` of each rule,
-- Config/Settings.antt is `apply_process_settings`, and Config/Listeners.antt `into_listeners`;
-- Config/Listeners/Made.antt relates declarations to the layers and the routes made of them. The
-- hypothesis `first_is_match` of these theorems is about the paths of the walk: the source walks a
-- listener's body under the path that the first global rule has too.
--
-- Proxy.antt and the files below it are src/lib.rs: Proxy/Handshake.antt is `Proxy::handshake`,
-- with the credentials of Proxy/Credentials.antt; Proxy/Tunnel.antt `relay_tunnel`, `copy_half`
-- and `idle_watchdog`, on lists of timed reads; Proxy/Chain.antt `build_service_chain`, which puts
-- the layers around the forwarding service; and Proxy/Listen.antt the loop of
-- `listen_on_with_shutdown` as steps on its permits and its connections, over every order of
-- events.
--
-- The parts meet in three places: a layer of src/middleware is a function from the service below
-- it to a service (Http.antt), so that Retry/Service.antt runs the forwarding service or any stack
-- of layers; the stores of the circuit breaker and of the sliding window are the keyed map of
-- KeyMap.antt; and the layers of one kind that src/config.rs builds carry the predicates of
-- Config/Shadow.antt.
--
-- Code of other packages is an argument of the definitions that use it: the globs of globset, the
-- routes of matchit, the expressions of regex, the decoder of base64, the parser of a URI, the
-- script engine, the files of certificates, and the number of seconds that `parse::<f64>` makes of
-- a text. What a theorem needs of one is among its hypotheses.
--
-- Times are natural numbers of nanoseconds from an origin so early that a duration can be
-- subtracted from any of them. A clock reading is an argument of the operation that takes it, so
-- that every order of readings is covered. A mutex makes each store operation one step, and a list
-- of operations is an interleaving of all tasks. A panic is the value `none`. `u32` counters wrap
-- at 2 ^ 32. The loops of the source are recursions on their data; the watchdog of a tunnel runs
-- on fuel, one unit for each round, where its theorems ask for enough rounds to reach beyond the
-- last read; `to_digits` runs on the number itself and one more, since a number has at most that
-- many digits.
--
-- Not modelled: sockets, TLS, the async runtime, the expiry of Redis keys, logging and scripting
-- (src/middleware/script.rs runs a JavaScript engine of another package), the command line of
-- src/main.rs, and `build` and the connections of src/lib.rs, which assemble hyper, rustls and
-- tower. A panic in the compilation of a configuration is an error of its own kind.
pub mod Common
pub mod KeyMap
pub mod Http
pub mod Circuit
pub mod Config
pub mod Forward
pub mod Gate
pub mod Headers
pub mod Host
pub mod Proxy
pub mod RateLimiter
pub mod Retry
pub mod Rewrite
pub mod Router
pub mod Sliding
pub mod Throttle
