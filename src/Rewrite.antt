-- ===== src/Rewrite.antt =====
-- src/middleware/url_rewrite.rs: the first rule that matches a request's path rewrites it. The routes of
-- the matchit crate, the expressions of the regex crate and the parser of a path with its query are
-- arguments.
pub mod Template
mod Tests
use noxy.Common.{
  ℕ, zero, suc, ◌-◌, ◌==◌, Bool, true, false, Option, none, some, List, [], ◌∷◌, ◌++◌, length,
  if◌then◌else◌, ◌>>=◌,
}
use noxy.Http.{Bytes, text, Uri, Request, Outcome, Service}
use noxy.Proxy.Credentials.{strip_prefix}

-- What the model takes of the libraries: a router of one pattern, and what it captures of a path; an
-- expression, and its replacement in a path; and `PathAndQuery` of a text.
pub record Matchers : Type 0 where
  pub route_valid : Bytes → Bool
  pub route_at : Bytes → Bytes → Option (List (Bytes × Bytes))
  pub regex_valid : Bytes → Bool
  pub regex_is_match : Bytes → Bytes → Bool
  pub regex_replace : Bytes → Bytes → Bytes → Bytes
  pub parse_path : Bytes → Option (Bytes × Option Bytes)

-- `RewriteRule`; a router holds its pattern and the template.
pub data RewriteRule : Type 0 where
  pattern : Bytes → Bytes → RewriteRule
  regex : Bytes → Bytes → RewriteRule

abbrev pub is_some {ℓ} : {A : Type ℓ} → Option A → Bool
is_some none = false
is_some (some a) = true

-- `str::replace` of a text that is not empty, where `skip` characters of a match are still to pass.
unfoldable pub replace_from : Bytes → Bytes → ℕ → Bytes → Bytes
unfolding strip_prefix
replace_from sought value skip [] = []
replace_from sought value (suc skip) (c ∷ cs) = replace_from sought value skip cs
replace_from sought value zero (c ∷ cs) = elim (is_some (strip_prefix sought (c ∷ cs))) [
  | true ↦ value ++ replace_from sought value (length sought - 1) cs
  | false ↦ c ∷ replace_from sought value 0 cs
]

unfoldable pub replace : Bytes → Bytes → Bytes → Bytes
unfolding replace_from
replace sought value s = replace_from sought value 0 s

-- `format!("{{{key}}}")`
abbrev pub placeholder : Bytes → Bytes
placeholder key = 123 ∷ (key ++ 125 ∷ [])

-- The loop over the captured parameters.
unfoldable pub replace_params : List (Bytes × Bytes) → Bytes → Bytes
unfolding replace
replace_params [] result = result
replace_params ((key, value) ∷ params) result =
    replace_params params (replace (placeholder key) value result)

module _ (m : Matchers) where
  -- `RewriteRule::rewrite`
  unfoldable pub rewrite : RewriteRule → Bytes → Option Bytes
  unfolding replace_params
  rewrite (pattern route template) path = do
    params ← m.route_at route path
    some (replace_params params template)
  rewrite (regex expression replacement) path =
      if m.regex_is_match expression path
      then some (m.regex_replace expression path replacement)
      else none

  -- `UrlRewrite::path`, `and_path`, `regex` and `and_regex`: another rule, if its pattern is valid.
  pub and_path : List RewriteRule → Bytes → Bytes → Option (List RewriteRule)
  and_path rules route template =
      if m.route_valid route then some (rules ++ pattern route template ∷ []) else none

  pub and_regex : List RewriteRule → Bytes → Bytes → Option (List RewriteRule)
  and_regex rules expression replacement =
      if m.regex_valid expression then some (rules ++ regex expression replacement ∷ []) else none

  -- `rewrite_uri`; `none` is the panic of its `unwrap`.
  unfoldable pub rewrite_uri : Uri → Bytes → Option Uri
  rewrite_uri uri new_path = do
    (path, query) ← m.parse_path (elim uri.query [ none ↦ new_path | some q ↦ new_path ++ 63 ∷ q ])
    some (record uri { path = path; query = query })

  -- The loop of `UrlRewriteService::call`.
  unfoldable pub rewrite_first : List RewriteRule → Uri → Option Uri
  unfolding rewrite rewrite_uri
  rewrite_first [] uri = some uri
  rewrite_first (rule ∷ rules) uri = elim (rewrite rule uri.path) [
    | none ↦ rewrite_first rules uri
    | some new_path ↦ rewrite_uri uri new_path
  ]

  -- `UrlRewriteService::call`
  unfoldable pub call :
      {W : Type 0} → List RewriteRule → Service W → Request → W → Option (Outcome × W)
  unfolding rewrite_first
  call rules inner req w = do
    uri ← rewrite_first rules req.uri
    some (inner (record req { uri = uri }) w)
