-- ===== src/Config.antt =====
-- src/config.rs, the tree of rules of a configuration, as `knus` decodes it, and what each rule declares
-- of itself. The texts of a configuration are bytes. The leaves of `RuleNode` are a type of their own, so
-- that a declaration holds a leaf by its type, where the source has `unreachable!`.
pub mod Matching
pub mod Walk
pub mod Shadow
pub mod Forest
pub mod Places
pub mod Texts
pub mod Build
pub mod Emit
pub mod Settings
pub mod Listeners
mod Tests
use noxy.Common.{ℕ, Bool, true, false, Option, none, some, List, [], ◌∷◌, if◌then◌else◌, ◌==◌, map}
use noxy.Http.{Bytes, text, Uri}
use noxy.Retry.Budget.{Ratio}

-- `anyhow::Error`: which step failed, and on what. A panic at the start ends the program as well.
pub data Error : Type 0 where
  invalid_glob invalid_method invalid_header_name : Bytes → Error
  invalid_redis_url invalid_duration invalid_pattern invalid_upstream : Bytes → Error
  invalid_identity : Bytes → Error
  invalid_status : ℕ → Error
  unknown_balance : Bytes → Error
  only_in_listener : Bytes → Error
  no_listeners : Error
  panicked : Bytes → Error

pub data Result {ℓ} (A : Type ℓ) : Type ℓ where
  ok : A → Result A
  err : Error → Result A

infixl 5 ◌>>=◌
abbrev pub ◌>>=◌ {ℓ κ} : {A : Type ℓ} {B : Type κ} → Result A → (A → Result B) → Result B
ok a >>= f = f a
err e >>= f = err e

-- `ok_or`
abbrev pub ok_or {ℓ} : {A : Type ℓ} → Error → Option A → Result A
ok_or e none = err e
ok_or e (some a) = ok a

-- `Option::map` of a fallible function, then `transpose`.
abbrev pub transpose {ℓ κ} :
    {A : Type ℓ} {B : Type κ} → (A → Result B) → Option A → Result (Option B)
transpose f none = ok none
transpose f (some a) = f a >>= λ b. ok (some b)

-- `map` and `collect`, up to the first error.
abbrev pub collect {ℓ κ} : {A : Type ℓ} {B : Type κ} → (A → Result B) → List A → Result (List B)
collect f [] = ok []
collect f (a ∷ as') = f a >>= λ b. collect f as' >>= λ bs. ok (b ∷ bs)

-- What the model takes of the libraries: `globset`'s compiled patterns, the host of a `Uri`,
-- `Method::from_bytes`, and whether `redis::Client::open` takes a URL.
pub record Libraries : Type 0 where
  pub compile_glob : Bytes → Option (Bytes → Bool)
  pub uri_host : Uri → Option Bytes
  pub method_from_bytes : Bytes → Option Bytes
  pub redis_url_valid : Bytes → Bool

pub record RedisConfig : Type 0 where
  pub url : Bytes
  pub prefix : Option Bytes

pub record HeaderMatch : Type 0 where
  pub name : Bytes
  pub value : Bytes

pub record LogConfig : Type 0 where
  pub bodies : Option Bool
  pub redact : Option Bool
  pub redact_headers : Option Bytes
  pub reveal_headers : Option Bytes

-- The rates, of type `f64` in the source, are numbers of one unit.
pub record FaultConfig : Type 0 where
  pub error_rate : ℕ
  pub abort_rate : ℕ
  pub error_status : Option ℕ

pub record RateLimitConfig : Type 0 where
  pub count : ℕ
  pub window : Bytes
  pub burst : Option ℕ
  pub per_host : Bool

pub record SlidingWindowConfig : Type 0 where
  pub count : ℕ
  pub window : Bytes
  pub per_host : Bool

pub record RetryBudget : Type 0 where
  pub ratio : Ratio
  pub window : Bytes
  pub min_retries : Option ℕ

pub record RetryConfig : Type 0 where
  pub max_retries : Option ℕ
  pub backoff : Option Bytes
  pub max_backoff : Option Bytes
  pub max_replay_body_bytes : Option ℕ
  pub methods : Option Bytes
  pub all_methods : Option Bool
  pub statuses : Option (List ℕ)
  pub budget : Option RetryBudget

pub record CircuitBreakerConfig : Type 0 where
  pub threshold : ℕ
  pub recovery : Bytes
  pub half_open_probes : Option ℕ
  pub per_host : Bool
  pub cache_ttl : Option Bytes

pub record RespondConfig : Type 0 where
  pub body : Bytes
  pub status : Option ℕ

pub record UpstreamConfig : Type 0 where
  pub urls : List Bytes
  pub balance : Option Bytes

pub record BlockResponse : Type 0 where
  pub status : Option ℕ
  pub body : Option Bytes

pub record BlockConfig : Type 0 where
  pub hosts : List Bytes
  pub paths : List Bytes
  pub response : Option BlockResponse

-- `Script` and `ScriptFile`: the text or the file, `shared`, and `max_body_bytes`.
pub record ScriptConfig : Type 0 where
  pub source : Bytes
  pub shared : Bool
  pub max_body_bytes : Option ℕ

-- The leaves of `RuleNode`, in its order. The headers' and the rewrites' hold a name and a value, or a
-- pattern and a replacement.
pub data Leaf : Type 0 where
  upstream : UpstreamConfig → Leaf
  log : LogConfig → Leaf
  latency : Bytes → Leaf
  bandwidth : ℕ → Leaf
  fault : FaultConfig → Leaf
  rate_limit : RateLimitConfig → Leaf
  sliding_window : SlidingWindowConfig → Leaf
  retry : RetryConfig → Leaf
  circuit_breaker : CircuitBreakerConfig → Leaf
  respond : RespondConfig → Leaf
  block : BlockConfig → Leaf
  set_request_header append_request_header : Bytes → Bytes → Leaf
  remove_request_header : Bytes → Leaf
  set_response_header append_response_header : Bytes → Bytes → Leaf
  remove_response_header : Bytes → Leaf
  rewrite_path rewrite_path_regex : Bytes → Bytes → Leaf
  script script_file : ScriptConfig → Leaf

-- `RuleNode`. A match holds its fields, its name, its own `redis`, and its body.
mutual
  pub data RuleNode : Type 0 where
    general :
        (host path method : Option Bytes)
        → Option HeaderMatch
        → Option Bytes
        → Option RedisConfig
        → Body
        → RuleNode
    host path method : Bytes → Option Bytes → Option RedisConfig → Body → RuleNode
    methods : List Bytes → Option Bytes → Option RedisConfig → Body → RuleNode
    leaf : Leaf → RuleNode

  pub data Body : Type 0 where
    nil : Body
    cons : RuleNode → Body → Body

-- `std::mem::discriminant` of a leaf.
unfoldable pub discriminant : Leaf → ℕ
discriminant (upstream _) = 0
discriminant (log _) = 1
discriminant (latency _) = 2
discriminant (bandwidth _) = 3
discriminant (fault _) = 4
discriminant (rate_limit _) = 5
discriminant (sliding_window _) = 6
discriminant (retry _) = 7
discriminant (circuit_breaker _) = 8
discriminant (respond _) = 9
discriminant (block _) = 10
discriminant (set_request_header _ _) = 11
discriminant (append_request_header _ _) = 12
discriminant (remove_request_header _) = 13
discriminant (set_response_header _ _) = 14
discriminant (append_response_header _ _) = 15
discriminant (remove_response_header _) = 16
discriminant (rewrite_path _ _) = 17
discriminant (rewrite_path_regex _ _) = 18
discriminant (script _) = 19
discriminant (script_file _) = 20

-- `Rule::is_exclusive` of each leaf, through `rule_is_exclusive`; its default is false.
unfoldable pub rule_is_exclusive : Leaf → Bool
rule_is_exclusive (log _) = true
rule_is_exclusive (latency _) = true
rule_is_exclusive (bandwidth _) = true
rule_is_exclusive (fault _) = true
rule_is_exclusive (retry _) = true
rule_is_exclusive (circuit_breaker _) = true
rule_is_exclusive (respond _) = true
rule_is_exclusive _ = false

pub data RuleScope : Type 0 where
  global listener : RuleScope

-- `Rule::min_scope` of each leaf, through `rule_min_scope`; its default is `Global`.
unfoldable pub rule_min_scope : Leaf → RuleScope
rule_min_scope (upstream _) = listener
rule_min_scope _ = global

unfoldable pub rule_node_name : Leaf → Bytes
rule_node_name (upstream _) = text "upstream"
rule_node_name (log _) = text "log"
rule_node_name (latency _) = text "latency"
rule_node_name (bandwidth _) = text "bandwidth"
rule_node_name (fault _) = text "fault"
rule_node_name (rate_limit _) = text "rate-limit"
rule_node_name (sliding_window _) = text "sliding-window"
rule_node_name (retry _) = text "retry"
rule_node_name (circuit_breaker _) = text "circuit-breaker"
rule_node_name (respond _) = text "respond"
rule_node_name (block _) = text "block"
rule_node_name (set_request_header _ _) = text "set-request-header"
rule_node_name (append_request_header _ _) = text "append-request-header"
rule_node_name (remove_request_header _) = text "remove-request-header"
rule_node_name (set_response_header _ _) = text "set-response-header"
rule_node_name (append_response_header _ _) = text "append-response-header"
rule_node_name (remove_response_header _) = text "remove-response-header"
rule_node_name (rewrite_path _ _) = text "rewrite-path"
rule_node_name (rewrite_path_regex _ _) = text "rewrite-path-regex"
rule_node_name (script _) = text "script"
rule_node_name (script_file _) = text "script-file"
