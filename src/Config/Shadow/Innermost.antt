-- ===== src/Config/Shadow/Innermost.antt =====
-- The innermost rule wins: compiling a listener puts into effect, at every request, what the tree of its
-- rules means.
use noxy.Config.Walk.Balance.{steps_ok, ok_pair}
use noxy.Config.Walk.Collect.{place, walk_listener-places}
use noxy.Config.Shadow.Active.{active-rule, active-in_effect}
use noxy.Config.Places.{Place, places, places_rule, places-unresolved}
use mathlib.Core.Path.{ap₂}
use noxy.Common.{
  ℕ, ◌≤◌, Bool, true, false, ◌&&◌, ◌||◌, Option, List, [], ◌∷◌, ◌++◌, ◌≡◌, refl, sym, ap, ◌∙◌,
  arith, map, all, all-append,
}
use noxy.Http.{Request}
use noxy.Config.{Leaf, Body, RuleNode, ok, Libraries}
use noxy.Config.Forest.{
  rule_of, Forest, rule, empty, more, some_applies, some_nested, in_effect, listener_in_effect,
  forest_of,
}
use noxy.Config.Walk.{Decl, RedisConnection, RedisCache}
use noxy.Config.Shadow.{starts_with, is_empty, walk_listener, walk_listener_body}
use noxy.Config.Shadow.Override.{
  over-rule_parent, over, over-append, over-own, over-below, over-apart, over-before,
}
use noxy.Config.Shadow.Effect.{
  active_leaves, active_leaves-append, leaves_in_effect, resolve_exclusions-active,
}

-- Whether the first global rule is a match.
abbrev pub first_is_match : Body → Bool
first_is_match Body.nil = false
first_is_match (Body.cons (RuleNode.leaf leaf) body) = false
first_is_match (Body.cons node body) = true

module _ (globals own : Forest) where
  abbrev everywhere : List Place
  everywhere = places globals 0 [] true ++ places own 0 (0 ∷ []) true

  overridden :
      (kind : ℕ) (p : List ℕ)
      → over kind p everywhere
        ≡ (over kind p (places globals 0 [] true) || over kind p (places own 0 (0 ∷ []) true))
  overridden kind p = over-append kind p (places globals 0 [] true) (places own 0 (0 ∷ []) true)

  own-at_root :
      (kind : ℕ) → over kind [] everywhere ≡ (some_nested kind globals || some_applies kind own)
  unfolding starts_with
  own-at_root kind =
      overridden kind []
      ∙ ap₂ (λ a b. a || b) (over-own kind globals 0 [] true)
          (over-below kind [] own 0 (0 ∷ []) true refl)

  deeper-global :
      (kind i : ℕ) (r : List ℕ)
      → 1 ≤ i
      → over kind (i ∷ r) everywhere ≡ over kind (i ∷ r) (places globals 0 [] true)
  deeper-global kind i r le =
      overridden kind (i ∷ r)
      ∙ ap (λ b. over kind (i ∷ r) (places globals 0 [] true) || b)
          (over-apart kind [] r [] i 0 own 0 true (λ e. omega arith))
      ∙ ground arith

  -- Where no global place is at or below the listener's, the listener's rules see only their own.
  module _
      (apart : (kind : ℕ) (r : List ℕ) → over kind (0 ∷ r) (places globals 0 [] true) ≡ false) where
    listener_path :
        (kind : ℕ) (r : List ℕ)
        → over kind (0 ∷ r) everywhere ≡ over kind (0 ∷ r) (places own 0 (0 ∷ []) true)
    listener_path kind r =
        overridden kind (0 ∷ r)
        ∙ ap (λ b. b || over kind (0 ∷ r) (places own 0 (0 ∷ []) true)) (apart kind r)

    own-in_effect :
        active_leaves (λ kind p. over kind p everywhere) (places own 0 (0 ∷ []) true)
        ≡ in_effect (λ kind. some_nested kind own) own
    own-in_effect =
        active-in_effect (λ kind p. over kind p everywhere) (λ kind. some_nested kind own) own 0
          (0 ∷ []) (λ kind. listener_path kind [] ∙ over-own kind own 0 (0 ∷ []) true)
          (λ kind i r le. listener_path kind (i ∷ r))

compiled-empty :
    (own : Forest)
    → active_leaves (λ kind p. over kind p (everywhere empty own)) (everywhere empty own)
      ≡ listener_in_effect empty own
unfolding listener_in_effect places in_effect
compiled-empty own = own-in_effect empty own (λ kind r. refl)

module _ (leaf : Leaf) (f own : Forest) where
  abbrev globals_from : Forest
  globals_from = more (rule leaf) f

  root_rule :
      (kind i : ℕ) (r : List ℕ)
      → over kind (i ∷ r) (places globals_from 0 [] true) ≡ over kind (i ∷ r) (places f 1 [] true)
  unfolding places
  root_rule kind i r =
      over-append kind (i ∷ r) (places_rule (rule leaf) 0 [] true) (places f 1 [] true)
      ∙ ap (λ b. b || over kind (i ∷ r) (places f 1 [] true))
          (over-rule_parent kind [] r i leaf 0 true)

  compiled-leaf :
      active_leaves
        (λ kind p. over kind p (everywhere globals_from own))
        (everywhere globals_from own)
      ≡ listener_in_effect globals_from own
  unfolding listener_in_effect
  compiled-leaf =
      active_leaves-append (λ kind p. over kind p (everywhere globals_from own))
        (places globals_from 0 [] true) (places own 0 (0 ∷ []) true)
      ∙ ap₂ (λ (xs ys : List Leaf). xs ++ ys)
          (active-rule (λ kind p. over kind p (everywhere globals_from own)) _ leaf f 0 []
            (own-at_root globals_from own)
            (active-in_effect (λ kind p. over kind p (everywhere globals_from own)) _ f 1 []
              (own-at_root globals_from own)
              (λ kind i r le. deeper-global globals_from own kind i r le ∙ root_rule kind i r)))
          (own-in_effect globals_from own
            (λ kind r. root_rule kind 0 r ∙ over-before kind [] r 0 f 1 true (omega arith)))

compiled :
    (l : Libraries) (req : Request) (globals : Body) (own : Forest)
    → first_is_match globals ≡ false
    → active_leaves
        (λ kind p. over kind p (everywhere (forest_of l req globals) own))
        (everywhere (forest_of l req globals) own)
      ≡ listener_in_effect (forest_of l req globals) own
unfolding forest_of rule_of
compiled l req Body.nil own h = compiled-empty own
compiled l req (Body.cons (RuleNode.leaf leaf) body) own h =
    compiled-leaf leaf (forest_of l req body) own
compiled l req (Body.cons (RuleNode.general _ _ _ _ _ _ _) body) own h = cc
compiled l req (Body.cons (RuleNode.host _ _ _ _) body) own h = cc
compiled l req (Body.cons (RuleNode.path _ _ _ _) body) own h = cc
compiled l req (Body.cons (RuleNode.method _ _ _ _) body) own h = cc
compiled l req (Body.cons (RuleNode.methods _ _ _ _) body) own h = cc

all-unresolved :
    (req : Request) (decls : List Decl)
    → all (λ (e : Place). e.unresolved) (map (place req) decls)
      ≡ all (λ (d : Decl). is_empty d.excluded_preds) decls
all-unresolved req [] = refl
all-unresolved req (d ∷ decls) = ap (λ b. is_empty d.excluded_preds && b) (all-unresolved req decls)

pub walk_listener-unresolved :
    (l : Libraries) (req : Request) (globals body : Body) (redis : Option RedisConnection)
    (cache cache' : RedisCache) (decls : List Decl)
    → walk_listener l globals body redis cache ≡ ok (cache', decls)
    → all (λ (d : Decl). is_empty d.excluded_preds) decls ≡ true
walk_listener-unresolved l req globals body redis cache cache' decls h =
    sym (all-unresolved req decls)
    ∙ ap (all (λ (e : Place). e.unresolved))
        (walk_listener-places req l globals body redis cache cache' decls h)
    ∙ all-append (λ (e : Place). e.unresolved) (places (forest_of l req globals) 0 [] true)
        (places (forest_of l req body) 0 (0 ∷ []) true)
        (places-unresolved (forest_of l req globals) 0 [] true)
        (places-unresolved (forest_of l req body) 0 (0 ∷ []) true)

-- Where the compilation of a listener's rules succeeds and the first global rule is not a match, then at
-- every request the declarations whose effective predicate holds are, in order, the rules that the tree
-- puts into effect: the global ones and then the listener's, each in the scopes around it, without the
-- exclusive rules for which a rule of the same kind applies in a scope within theirs. The listener's
-- rules count as within the global ones.
pub walk_listener_body-innermost :
    (l : Libraries) (req : Request) (globals body : Body) (redis : Option RedisConnection)
    (cache cache' : RedisCache) (decls : List Decl)
    → first_is_match globals ≡ false
    → walk_listener_body l globals body redis cache ≡ ok (cache', decls)
    → leaves_in_effect req decls
      ≡ listener_in_effect (forest_of l req globals) (forest_of l req body)
unfolding walk_listener_body
walk_listener_body-innermost l req globals body redis cache cache' decls free h =
    let ((cache1, found), walked, e) = steps_ok (walk_listener l globals body redis cache) _ h in
    let (_, resolved) = ok_pair e in
    let e = walk_listener-places req l globals body redis cache cache1 found walked in
    ap (leaves_in_effect req) (sym resolved)
    ∙ resolve_exclusions-active req found
        (walk_listener-unresolved l req globals body redis cache cache1 found walked)
    ∙ ap (λ es. active_leaves (λ kind p. over kind p es) es) e
    ∙ compiled l req globals (forest_of l req body) free
