-- ===== src/Config/Forest.antt =====
-- What a configuration means, apart from how it is compiled: at one request, a body is a forest of rules
-- and of scopes, which the request is in or not. The innermost rule of a kind wins.
use noxy.Common.{ℕ, Bool, false, ◌&&◌, ◌||◌, some, List, [], ◌∷◌, ◌++◌, if◌then◌else◌, ◌==◌}
use noxy.Http.{Request}
use noxy.Config.{ok, err, Libraries, Leaf, RuleNode, Body, discriminant, rule_is_exclusive}
use noxy.Config.Matching.{MatchSpec, default_spec, from_general, into_predicate}
use noxy.Config.Shadow.{in_scope}

mutual
  pub data Rule : Type 0 where
    rule : Leaf → Rule
    scope : Bool → Forest → Rule

  pub data Forest : Type 0 where
    empty : Forest
    more : Rule → Forest → Forest

-- Whether the request is in the scope of a match. One that does not compile has none.
unfoldable pub is_in : Libraries → Request → MatchSpec → Bool
is_in l req spec = elim (into_predicate l spec) [ ok p ↦ in_scope p req | err _ ↦ false ]

unfoldable mutual
  unfolding is_in

  pub rule_of : Libraries → Request → RuleNode → Rule
  rule_of l req (RuleNode.general host path method header name redis body) =
      scope (is_in l req (from_general host path method header)) (forest_of l req body)
  rule_of l req (RuleNode.host host name redis body) =
      scope (is_in l req (record default_spec { host = some host })) (forest_of l req body)
  rule_of l req (RuleNode.path path name redis body) =
      scope (is_in l req (record default_spec { path = some path })) (forest_of l req body)
  rule_of l req (RuleNode.method method name redis body) =
      scope (is_in l req (record default_spec { methods = method ∷ [] })) (forest_of l req body)
  rule_of l req (RuleNode.methods methods name redis body) =
      scope (is_in l req (record default_spec { methods = methods })) (forest_of l req body)
  rule_of l req (RuleNode.leaf leaf) = rule leaf

  pub forest_of : Libraries → Request → Body → Forest
  forest_of l req Body.nil = empty
  forest_of l req (Body.cons node body) = more (rule_of l req node) (forest_of l req body)

-- Whether a rule of the kind applies to the request.
unfoldable mutual
  pub applies : ℕ → Rule → Bool
  applies kind (rule leaf) = discriminant leaf == kind
  applies kind (scope inside f) = inside && some_applies kind f

  pub some_applies : ℕ → Forest → Bool
  some_applies kind empty = false
  some_applies kind (more r f) = applies kind r || some_applies kind f

-- Whether one does that stands in a scope of the forest.
unfoldable pub some_nested : ℕ → Forest → Bool
some_nested kind empty = false
some_nested kind (more (rule leaf) f) = some_nested kind f
some_nested kind (more (scope inside inner) f) =
    inside && some_applies kind inner || some_nested kind f

-- The rules in effect, in order: those whose scopes the request is in, without the exclusive ones that
-- an inner rule overrides. `overridden` tells of which kinds there is one for the forest's own rules.
unfoldable mutual
  pub in_effect_rule : (ℕ → Bool) → Rule → List Leaf
  in_effect_rule overridden (rule leaf) =
      if rule_is_exclusive leaf && overridden (discriminant leaf) then [] else leaf ∷ []
  in_effect_rule overridden (scope inside f) =
      let inner = in_effect (λ kind. some_nested kind f) f in if inside then inner else []

  pub in_effect : (ℕ → Bool) → Forest → List Leaf
  in_effect overridden empty = []
  in_effect overridden (more r f) = in_effect_rule overridden r ++ in_effect overridden f

-- A listener's rules are nested in the global ones.
unfoldable pub listener_in_effect : Forest → Forest → List Leaf
listener_in_effect globals f =
    in_effect (λ kind. some_nested kind globals || some_applies kind f) globals
    ++ in_effect (λ kind. some_nested kind f) f
