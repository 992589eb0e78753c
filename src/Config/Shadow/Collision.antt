-- ===== src/Config/Shadow/Collision.antt =====
-- The index paths of the first global match and of the listener's body are both 0: what is nested in the
-- one counts as nested in the other.
use noxy.Config.Walk.Balance.{steps_ok, ok_pair}
use noxy.Config.Walk.Collect.{place, walk_body-Collects, walk_listener-places}
use noxy.Config.Places.{places}
use noxy.Common.{
  ℕ, suc, ◌+◌, true, false, ◌||◌, Option, List, [], ◌∷◌, ◌++◌, ◌≡◌, refl, sym, ap, ◌∙◌, arith, map,
  length,
}
use noxy.Http.{Request}
use noxy.Config.{Leaf, Body, RuleNode, discriminant, rule_is_exclusive, ok, Libraries}
use noxy.Config.Forest.{Forest, scope, more, some_nested, forest_of, rule_of}
use noxy.Config.Walk.{
  push_back, new_ctx, walk_leaf, walk_body, Decl, RedisConnection, RedisCache, walk_listener,
}
use noxy.Config.Shadow.{is_empty, walk_listener_body, resolve, resolve_from, resolve_exclusions}
use noxy.Config.Shadow.Override.{over, over-append, over-own}
use noxy.Config.Shadow.Effect.{resolve-leaf, resolve-active, applies_to}

resolve_from-last :
    (decls ds : List Decl) (i : ℕ) (d : Decl)
    → resolve_from decls i (ds ++ d ∷ [])
      ≡ resolve_from decls i ds ++ resolve decls (i + length ds) d ∷ []
unfolding resolve_from
resolve_from-last decls [] i d = ap (λ n. resolve decls n d ∷ []) (omega arith)
resolve_from-last decls (e ∷ ds) i d = ap (◌∷◌ (resolve decls i e)) (
    resolve_from-last decls ds (suc i) d
    ∙ ap (λ n. resolve_from decls (suc i) ds ++ resolve decls n d ∷ []) (omega arith))

-- What overrides the kind at the listener's path, where the first global rule is a match of the request.
first_match-overrides :
    (kind : ℕ) (f rest own : Forest)
    → some_nested kind f ≡ true
    → over kind (0 ∷ []) (places (more (scope true f) rest) 0 [] true ++ places own 0 (0 ∷ []) true)
      ≡ true
unfolding places
first_match-overrides kind f rest own h =
    over-append kind (0 ∷ []) (places f 0 (0 ∷ []) true ++ places rest 1 [] true)
      (places own 0 (0 ∷ []) true)
    ∙ ap (λ b. b || over kind (0 ∷ []) (places own 0 (0 ∷ []) true))
        (over-append kind (0 ∷ []) (places f 0 (0 ∷ []) true) (places rest 1 [] true)
          ∙ ap (λ b. b || over kind (0 ∷ []) (places rest 1 [] true))
              (over-own kind f 0 (0 ∷ []) true ∙ h))

-- The last declaration of a list does not apply where its place is overridden.
last-not_in_effect :
    (req : Request) (decls : List Decl) (d : Decl)
    → is_empty d.excluded_preds ≡ true
    → rule_is_exclusive d.leaf ≡ true
    → over (discriminant d.leaf) d.path (map (place req) (decls ++ d ∷ [])) ≡ true
    → applies_to req (resolve (decls ++ d ∷ []) (length decls) d) ≡ false
last-not_in_effect req decls d fresh exclusive overridden =
    resolve-active req d decls [] fresh ∙ rw (exclusive, overridden) (ground arith)

-- The walk of a listener with one rule ends with that rule's declaration, at the path 0.
listener_leaf :
    (l : Libraries) (req : Request) (globals : Body) (leaf : Leaf) (redis : Option RedisConnection)
    (cache cache' : RedisCache) (decls : List Decl)
    → walk_listener l globals (Body.cons (RuleNode.leaf leaf) Body.nil) redis cache
      ≡ ok (cache', decls)
    → (out : List Decl) × (d : Decl) × (decls ≡ out ++ d ∷ [])
      × (d.leaf ≡ leaf)
      × (d.path ≡ 0 ∷ [])
      × (is_empty d.excluded_preds ≡ true)
unfolding walk_listener walk_body walk_leaf
listener_leaf l req globals leaf redis cache cache' decls h =
    let ((ctx, out), walked, e) = steps_ok (walk_body l globals 0 (new_ctx redis cache) []) _ h in
    let (r, _) = walk_body-Collects req l globals 0 (new_ctx redis cache) [] ctx out walked in
    (out, _, sym (ok_pair e).1, refl, ap (λ p. push_back p 0) r.path, refl)

-- Where the first global rule is a match that the request is in, and a rule applies that stands in a
-- match inside it, a listener's exclusive rule of the same kind does not apply: declared at the
-- listener's top as its only rule, it is compiled as the last declaration, and its effective predicate
-- is false at the request. So the global rule overrides the listener's.
pub listener_rule-overridden :
    (l : Libraries) (req : Request) (node : RuleNode) (globals : Body) (f : Forest) (leaf : Leaf)
    (redis : Option RedisConnection) (cache cache' : RedisCache) (decls : List Decl)
    → rule_of l req node ≡ scope true f
    → some_nested (discriminant leaf) f ≡ true
    → rule_is_exclusive leaf ≡ true
    → walk_listener_body l
        (Body.cons node globals)
        (Body.cons (RuleNode.leaf leaf) Body.nil)
        redis
        cache
      ≡ ok (cache', decls)
    → (front : List Decl) × (d : Decl) × (decls ≡ front ++ d ∷ [])
      × (d.leaf ≡ leaf)
      × (applies_to req d ≡ false)
unfolding walk_listener_body resolve_exclusions forest_of
listener_rule-overridden l req node globals f leaf redis cache cache' decls inside nested exclusive
      h =
    let ((cache1, found), walked, e) =
      steps_ok
        (walk_listener l (Body.cons node globals) (Body.cons (RuleNode.leaf leaf) Body.nil) redis
          cache)
        _ h in
    let (out, d, split, same_leaf, at_top, fresh) =
      listener_leaf l req (Body.cons node globals) leaf redis cache cache1 found walked in
    let all_places =
      walk_listener-places req l (Body.cons node globals) (Body.cons (RuleNode.leaf leaf) Body.nil)
        redis cache cache1 found walked in
    let first : forest_of l req (Body.cons node globals)
        ≡ more (scope true f) (forest_of l req globals) =
      ap (λ r. more r (forest_of l req globals)) inside in
    let own = forest_of l req (Body.cons (RuleNode.leaf leaf) Body.nil) in
    let above : over (discriminant d.leaf) d.path (map (place req) (out ++ d ∷ [])) ≡ true =
      (λ i. over (discriminant (same_leaf i)) (at_top i) (
        (ap (map (place req)) (sym split)
            ∙ all_places
            ∙ ap (λ g. places g 0 [] true ++ places own 0 (0 ∷ []) true) first)
          i))
      ∙ first_match-overrides (discriminant leaf) f (forest_of l req globals) own nested in
    (
      resolve_from (out ++ d ∷ []) 0 out,
      resolve (out ++ d ∷ []) (length out) d,
      sym (ok_pair e).1
          ∙ ap resolve_exclusions split
          ∙ resolve_from-last (out ++ d ∷ []) out 0 d
          ∙ ap (λ n. resolve_from (out ++ d ∷ []) 0 out ++ resolve (out ++ d ∷ []) n d ∷ [])
              (omega arith),
      resolve-leaf (out ++ d ∷ []) (length out) d ∙ same_leaf,
      last-not_in_effect req out d fresh (ap rule_is_exclusive same_leaf ∙ exclusive) above,
    )
