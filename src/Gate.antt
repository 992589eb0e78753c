-- ===== src/Gate.antt =====
-- The layers that decide whether a request goes on: src/middleware/conditional.rs, block_list.rs,
-- fault_injector.rs, set_response.rs and latency_injector.rs. Patterns are compiled by the globset crate
-- and hosts taken from URIs by the http crate: both are arguments. A rate, an `f64` of the source, and a
-- roll of the generator are numbers of one unit.
pub mod Rules
mod Tests
use noxy.Common.{
  ℕ, ◌+◌, ltb, Bool, true, false, ◌||◌, Option, none, some, List, [], ◌∷◌, ◌++◌, any, if◌then◌else◌,
  ◌>>=◌,
}
use noxy.Http.{
  Bytes, bytes_eq, text, Uri, Request, Response, Outcome, ok, err, Service, plain_response,
}
use noxy.Host.{extract_host}

-- A `tower::Layer`.
abbrev pub Layer : Type 0 → Type 0
Layer W = Service W → Service W

-- A `Rule`, and the `Conditional` of such rules.
abbrev pub Rule : Type 0 → Type 0
Rule W = (Request → Bool) × Layer W

-- `Conditional::when`
pub when : {W : Type 0} → List (Rule W) → (Request → Bool) → Layer W → List (Rule W)
when rules predicate layer = rules ++ (predicate, layer) ∷ []

-- `Conditional::when_path`, `when_method` and `when_methods`.
pub when_path : {W : Type 0} → List (Rule W) → Bytes → Layer W → List (Rule W)
unfolding when
when_path rules path layer = when rules (λ req. bytes_eq req.uri.path path) layer

pub when_methods : {W : Type 0} → List (Rule W) → List Bytes → Layer W → List (Rule W)
unfolding when
when_methods rules methods layer =
    when rules (λ req. any (λ m. bytes_eq m req.method) methods) layer

-- `Conditional::layer` puts each rule's layer around the one shared inner service, and
-- `ConditionalService::call` takes the first that matches.
unfoldable pub conditional : {W : Type 0} → List (Rule W) → Layer W
conditional [] inner req w = inner req w
conditional ((predicate, layer) ∷ rules) inner req w =
    let rest = conditional rules inner req w in if predicate req then layer inner req w else rest

-- `BlockList`
pub record BlockList : Type 0 where
  pub is_blocked : Request → Bool
  pub respond : Request → Response

abbrev pub default_respond : Request → Response
default_respond req = plain_response 403 []

-- `BlockList::new`
pub new_block_list : BlockList
new_block_list = record { is_blocked = λ req. false; respond = default_respond }

-- `BlockList::respond_with`, and `BlockList::response`.
pub respond_with : BlockList → (Request → Response) → BlockList
respond_with b f = record b { respond = f }

pub response : BlockList → ℕ → Bytes → BlockList
unfolding respond_with
response b status body = respond_with b (λ req. plain_response status body)

module _ (compile_glob : Bytes → Option (Bytes → Bool)) (uri_host : Uri → Option Bytes) where
  -- Whether a compiled pattern matches the host, where there is one.
  abbrev pub host_matches : (Bytes → Bool) → Option Bytes → Bool
  host_matches is_match none = false
  host_matches is_match (some host) = is_match host

  -- `BlockList::host`
  pub host : BlockList → Bytes → Option BlockList
  host b pattern = do
    is_match ← compile_glob pattern
    some (record b {
      is_blocked = λ req. b.is_blocked req || host_matches is_match (extract_host uri_host req);
    })

  -- `BlockList::path`
  pub path : BlockList → Bytes → Option BlockList
  path b pattern = do
    is_match ← compile_glob pattern
    some (record b { is_blocked = λ req. b.is_blocked req || is_match req.uri.path })

-- `BlockListService::call`
pub block : {W : Type 0} → BlockList → Layer W
block b inner req w = if b.is_blocked req then (ok (b.respond req), w) else inner req w

pub record FaultInjector : Type 0 where
  pub abort_rate : ℕ
  pub error_rate : ℕ
  pub error_status : ℕ

-- `FaultInjectorService::call`, where the generator rolls `roll`.
pub inject_fault : {W : Type 0} → FaultInjector → ℕ → Layer W
inject_fault f roll inner req w =
    if ltb roll f.abort_rate
    then (err (text "fault injector: connection aborted"), w)
    else if ltb roll (f.abort_rate + f.error_rate)
    then (ok (plain_response f.error_status (text "fault injected")), w)
    else inner req w

-- `SetResponseService::call`
pub set_response : {W : Type 0} → ℕ → Bytes → Layer W
set_response status body inner req w = (ok (plain_response status body), w)

-- `Delay` and `Delay::duration`; `random_range` is of the bounds of the range.
pub data Delay : Type 0 where
  fixed : ℕ → Delay
  uniform : ℕ → ℕ → Delay

pub duration : (ℕ → ℕ → ℕ) → Delay → ℕ
duration random_range (fixed d) = d
duration random_range (uniform start end) = random_range start end

-- `LatencyInjectorService::call`, at time `now`: the inner service runs when it is polled, after the
-- sleep.
pub inject_latency :
    {W : Type 0} → (ℕ → ℕ → ℕ) → Delay → Service (ℕ × W) → Request → ℕ × W → Outcome × (ℕ × W)
unfolding duration
inject_latency random_range delay inner req (now, w) =
    inner req (now + duration random_range delay, w)
