-- ===== src/Config/Tests.antt =====
-- The rules of the README's example of a listener that overrides a global rule, compiled, and the
-- theorems at such configurations.
use noxy.Common.{◌++◌, true, false, none, some, List, [], ◌∷◌, ◌≡◌, refl}
use noxy.Http.{Bytes, bytes_eq, text, Request}
use noxy.Config.{
  Libraries, LogConfig, Leaf, log, bandwidth, RuleNode, Body, Result, ok, err, discriminant,
  rule_is_exclusive, rate_limit, RateLimitConfig,
}
use noxy.Config.Forest.{
  scope, more, empty, rule, forest_of, listener_in_effect, some_applies, some_nested, rule_of,
}
use noxy.Config.Walk.{Decl}
use noxy.Config.Shadow.{walk_listener_body}
use noxy.Config.Shadow.Effect.{leaves_in_effect, applies_to}
use noxy.Config.Shadow.Innermost.{walk_listener_body-innermost}
use noxy.Config.Shadow.Coverage.{walk_listener_body-covers, has_kind}
use noxy.Config.Shadow.Collision.{listener_rule-overridden}

-- Patterns without wildcards, and requests by their `Host` header.
abbrev plain_libraries : Libraries
plain_libraries = record {
  compile_glob = λ pattern. some (bytes_eq pattern);
  uri_host = λ uri. none;
  method_from_bytes = λ m. some m;
  redis_url_valid = λ url. true;
}

abbrev search_path : Bytes
search_path = text "/search"

abbrev request_for : Bytes → Request
request_for path = record {
  method = text "GET";
  uri = record { scheme = none; authority = none; path = path; query = none };
  headers = [];
  target = none;
  body = [];
}

abbrev full_log : Leaf
full_log =
    log (record { bodies = some true; redact = none; redact_headers = none; reveal_headers = none })

abbrev brief_log : Leaf
brief_log =
    log (record { bodies = none; redact = none; redact_headers = none; reveal_headers = none })

-- `log bodies=true`, and a listener with `path "/search" { log }`.
abbrev global_log : Body
global_log = Body.cons (RuleNode.leaf full_log) Body.nil

abbrev in_path : Body → Body
in_path body = Body.cons (RuleNode.path search_path none none body) Body.nil

abbrev search_log : Body
search_log = in_path (Body.cons (RuleNode.leaf brief_log) Body.nil)

abbrev compiled : Body → Body → List Decl
compiled globals body = elim (walk_listener_body plain_libraries globals body none []) [
  | ok (cache, decls) ↦ decls
  | err e ↦ []
]

inner_log_wins :
    leaves_in_effect (request_for search_path) (compiled global_log search_log) ≡ brief_log ∷ []
unfolding leaves_in_effect walk_listener_body noxy.Config.Matching.into_predicate bytes_eq
inner_log_wins = refl

outer_log_elsewhere :
    leaves_in_effect (request_for (text "/")) (compiled global_log search_log) ≡ full_log ∷ []
unfolding leaves_in_effect walk_listener_body noxy.Config.Matching.into_predicate bytes_eq
outer_log_elsewhere = refl

walk_listener_body-innermost_example :
    leaves_in_effect (request_for search_path) (compiled global_log search_log)
    ≡ listener_in_effect
        (forest_of plain_libraries (request_for search_path) global_log)
        (forest_of plain_libraries (request_for search_path) search_log)
unfolding walk_listener_body noxy.Config.Matching.into_predicate
walk_listener_body-innermost_example =
    walk_listener_body-innermost plain_libraries (request_for search_path) global_log search_log
      none [] [] (compiled global_log search_log) refl refl

walk_listener_body-covers_example :
    has_kind 1 (leaves_in_effect (request_for search_path) (compiled global_log search_log)) ≡ true
unfolding walk_listener_body noxy.Config.Matching.into_predicate some_applies forest_of
walk_listener_body-covers_example =
    walk_listener_body-covers plain_libraries (request_for search_path) global_log search_log none
      [] [] (compiled global_log search_log) 1 refl refl refl

-- A global `path "/search" { path "/search" { log } }` silences a listener's own `log`.
abbrev nested_log : RuleNode
nested_log = RuleNode.path search_path none none search_log

abbrev nested_decls : List Decl
nested_decls = compiled (Body.cons nested_log Body.nil) global_log

listener_rule-overridden_example :
    (front : List Decl) × (d : Decl) × (nested_decls ≡ front ++ d ∷ [])
    × (d.leaf ≡ full_log)
    × (applies_to (request_for search_path) d ≡ false)
unfolding rule_of noxy.Config.Matching.into_predicate bytes_eq some_nested some_applies discriminant
    rule_is_exclusive walk_listener_body
listener_rule-overridden_example =
    listener_rule-overridden plain_libraries (request_for search_path) nested_log Body.nil
      (more (scope true (more (rule brief_log) empty)) empty) full_log none [] [] nested_decls refl
      refl refl refl
