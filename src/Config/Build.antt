-- ===== src/Config/Build.antt =====
-- config.rs, what the rules build their layers from: `build_retry`, `parse_balance_strategy`, and the
-- lists of blocks and of upstreams. Read with the clock at `now`.
use noxy.Common.{ℕ, ◌&&◌, Bool, false, Option, none, some, List, [], ◌∷◌, leb, ltb, if◌then◌else◌}
use noxy.Http.{Bytes, bytes_eq, text, Uri}
use noxy.Gate.{BlockList, new_block_list, response, FaultInjector, Delay}
use noxy.Retry.Settings.{Retry, on_statuses, default, budget, budget_window, budget_min_retries}
use noxy.Router.{Upstream, LoadBalanceStrategy, round_robin, random, new_upstream, set_strategy}
use noxy.Rewrite.{Matchers}
use noxy.Config.{
  panicked, Result, ok, err, invalid_pattern, invalid_status, invalid_upstream, unknown_balance,
  ◌>>=◌, ok_or, transpose, Libraries, RetryBudget, RetryConfig, UpstreamConfig, BlockResponse,
  BlockConfig,
}
use noxy.Config.Texts.{Seconds, parse_duration, parse_method_list}

abbrev pub unwrap_or {ℓ} : {A : Type ℓ} → A → Option A → A
unwrap_or a none = a
unwrap_or a (some b) = b

-- `StatusCode::from_u16`
unfoldable pub status_code : ℕ → Result ℕ
status_code n = if leb 100 n && ltb n 1000 then ok n else err (invalid_status n)

-- `parse_balance_strategy`
unfoldable pub parse_balance_strategy : Bytes → Result LoadBalanceStrategy
unfolding bytes_eq
parse_balance_strategy s =
    if bytes_eq s (text "round-robin")
    then ok round_robin
    else if bytes_eq s (text "random")
    then ok random
    else err (unknown_balance s)

-- What the libraries do with the texts of rules: the matchers of rewrites, `Uri`'s parser, the numbers of
-- seconds, and whether the script engine takes a source or a file.
pub record Engines : Type 0 where
  pub libraries : Libraries
  pub matchers : Matchers
  pub parse_uri : Bytes → Option Uri
  pub seconds : Seconds
  pub source_valid : Bytes → Bool
  pub file_valid : Bytes → Bool

module _ (e : Engines) (now : ℕ) where
  abbrev pub duration : Bytes → Result ℕ
  duration s = parse_duration e.seconds s

  -- `build_retry`, by its steps.
  retry_base : Option (List ℕ) → Result Retry
  retry_base none = ok default
  retry_base (some statuses) = ok_or (panicked (text "retry")) (on_statuses statuses)

  retry_backoffs : RetryConfig → Retry → Result Retry
  retry_backoffs c r = do
    backoff ← transpose duration c.backoff
    max_backoff ← transpose duration c.max_backoff
    ok (record r {
      max_retries = unwrap_or r.max_retries c.max_retries;
      backoff = unwrap_or r.backoff backoff;
      max_backoff = unwrap_or r.max_backoff max_backoff;
      max_replay_body_bytes = unwrap_or r.max_replay_body_bytes c.max_replay_body_bytes;
    })

  retry_listed : Option Bytes → Retry → Result Retry
  retry_listed none r = ok r
  retry_listed (some list) r = do
    methods ← parse_method_list e.libraries.method_from_bytes list
    ok (record r { retry_methods = some methods })

  retry_methods : RetryConfig → Retry → Result Retry
  unfolding retry_listed
  retry_methods c r =
      if unwrap_or false c.all_methods
      then ok (record r { retry_methods = none })
      else retry_listed c.methods r

  retry_budget : Option RetryBudget → Retry → Result Retry
  retry_budget none r = ok r
  retry_budget (some b) r = do
    window ← duration b.window
    let limited = budget_window (budget r b.ratio now) window now
    ok (elim b.min_retries [ none ↦ limited | some n ↦ budget_min_retries limited n now ])

  unfoldable pub build_retry : RetryConfig → Result Retry
  unfolding on_statuses default retry_base retry_backoffs retry_methods retry_budget
  build_retry c = do
    base ← retry_base c.statuses
    delayed ← retry_backoffs c base
    allowed ← retry_methods c delayed
    retry_budget c.budget allowed

  -- `BlockConfig::emit`: the patterns of hosts and of paths, and the response.
  block_hosts : List Bytes → BlockList → Result BlockList
  block_hosts [] b = ok b
  block_hosts (h ∷ hosts) b = do
    b' ←
        ok_or (invalid_pattern h) (noxy.Gate.host e.libraries.compile_glob e.libraries.uri_host b h)
    block_hosts hosts b'

  block_paths : List Bytes → BlockList → Result BlockList
  block_paths [] b = ok b
  block_paths (p ∷ paths) b = do
    b' ←
        ok_or (invalid_pattern p) (noxy.Gate.path e.libraries.compile_glob e.libraries.uri_host b p)
    block_paths paths b'

  block_response : Option BlockResponse → BlockList → Result BlockList
  unfolding status_code
  block_response none b = ok b
  block_response (some r) b = do
    status ← status_code (unwrap_or 403 r.status)
    ok (response b status (unwrap_or [] r.body))

  unfoldable pub build_block_list : BlockConfig → Result BlockList
  unfolding block_hosts block_paths block_response
  build_block_list c = do
    with_hosts ← block_hosts c.hosts new_block_list
    with_paths ← block_paths c.paths with_hosts
    block_response c.response with_paths

  -- `UpstreamConfig::emit`; one URL makes the same upstream as a balanced one.
  unfoldable pub build_upstream : UpstreamConfig → Result Upstream
  unfolding parse_balance_strategy
  build_upstream c = do
    upstream ← ok_or (invalid_upstream (text "upstream")) (new_upstream e.parse_uri c.urls)
    strategy ← transpose parse_balance_strategy c.balance
    ok (elim strategy [ none ↦ upstream | some s ↦ set_strategy upstream s ])
