-- ===== src/Config/Walk/Collect.antt =====
-- The walk collects the rules of a body in order, each with its place in the tree and its scope.
use noxy.Config.Walk.Balance.{
  steps_ok, ok_pair, Restored, unchanged, Entered, push_redis-Entered, push_scope-Scoped, scoped,
  left_scope,
}
use noxy.Config.Places.{Place, places, places_rule}
use mathlib.Core.List.{append-nil, append_assoc, map-append}
use mathlib.Core.Path.{subst}
use noxy.Common.{
  ℕ, suc, Bool, true, ◌&&◌, Option, none, some, List, [], ◌∷◌, ◌++◌, all, ◌≡◌, refl, sym, ap, ◌∙◌,
  arith, map,
}
use noxy.Http.{Bytes, Request}
use noxy.Config.{ok, Libraries, RedisConfig, Leaf, RuleNode, Body}
use noxy.Config.Matching.{
  Predicate, MatchSpec, default_spec, from_general, into_predicate, and_predicates, is_empty,
}
use noxy.Config.Walk.{
  new_ctx, push_back_if, Decl, WalkCtx, Walk, walk_body, walk_node, walk_match, walk_leaf,
  push_back, push_redis, RedisConnection, RedisCache, walk_listener, with_path,
}
use noxy.Config.Shadow.{in_scope}
use noxy.Config.Forest.{Rule, Forest, rule, scope, more, is_in, rule_of, forest_of}

module _ (req : Request) where
  abbrev pub holds_all : List Predicate → Bool
  holds_all preds = all (λ p. p req) preds

  abbrev pub place : Decl → Place
  place d = record {
    path = d.path;
    holds = in_scope d.scope_pred req;
    leaf = d.leaf;
    unresolved = is_empty d.excluded_preds;
  }

  and_predicates-holds :
      (preds : List Predicate) → in_scope (and_predicates preds) req ≡ holds_all preds
  unfolding and_predicates
  and_predicates-holds [] = refl
  and_predicates-holds (p ∷ []) = ground arith
  and_predicates-holds (p ∷ (q ∷ preds)) = refl

  holds_all-push :
      (preds : List Predicate) (p : Predicate)
      → holds_all (push_back preds p) ≡ (holds_all preds && p req)
  holds_all-push [] p = ground arith
  holds_all-push (q ∷ preds) p = ground (arith, holds_all-push preds p)

  -- A walk that succeeds restores the context, and adds these places.
  abbrev Collects : (ℕ → List ℕ → Bool → List Place) → ℕ → Walk → Type 0
  Collects added n walk =
      (ctx : WalkCtx) (out : List Decl) (ctx' : WalkCtx) (out' : List Decl)
      → walk ctx out ≡ ok (ctx', out')
      → Restored ctx ctx'
        × (map place out' ≡ map place out ++ added n ctx.path (holds_all ctx.preds))

  walk_leaf-Collects :
      (l : Libraries) (leaf : Leaf) (n : ℕ)
      → Collects (places_rule (rule leaf)) n (walk_leaf l leaf)
  unfolding walk_leaf places_rule
  walk_leaf-Collects l leaf n ctx out ctx' out' h =
      let (e, added) = ok_pair h in
      (
        unchanged ctx ctx' e,
        ap (map place) (sym added)
            ∙ map-append place out _
            ∙ ap
                (λ (b : Bool).
                  map place out
                  ++ record { path = ctx.path; holds = b; leaf = leaf; unresolved = true } ∷ [])
                (and_predicates-holds ctx.preds),
      )

  holds_all-push_if :
      (preds : List Predicate) (pred : Option Predicate)
      → holds_all (push_back_if preds pred) ≡ (holds_all preds && in_scope pred req)
  holds_all-push_if preds none = ground arith
  holds_all-push_if preds (some p) = holds_all-push preds p

  module _ (l : Libraries) (spec : MatchSpec) (name : Option Bytes) (walk : Walk)
      (redis : Option RedisConfig) (f : Forest) (walks : Collects (places f) 0 walk) (n : ℕ)
      (ctx : WalkCtx) (out : List Decl) where
    added_places :
        (pred : Option Predicate) (entered inner : WalkCtx) (out1 : List Decl)
        → into_predicate l spec ≡ ok pred
        → Entered redis (scoped ctx name redis n pred) entered
        → walk (with_path entered (push_back entered.path n)) out ≡ ok (inner, out1)
        → map place out1
          ≡ map place out
            ++ places_rule (scope (is_in l req spec) f) n ctx.path (holds_all ctx.preds)
    unfolding places_rule is_in
    added_places pred entered inner out1 compiled (path, preds, _, _) walked =
        let (_, _, preds', _) =
          push_scope-Scoped (record ctx { preds = push_back_if ctx.preds pred }) name in
        let (_, path', _, _) =
          push_scope-Scoped (record ctx { preds = push_back_if ctx.preds pred }) name in
        let inside : in_scope pred req ≡ is_in l req spec = rw (compiled, is_in) in
        let held : holds_all entered.preds ≡ (holds_all ctx.preds && is_in l req spec) =
          ap holds_all (preds ∙ preds')
          ∙ holds_all-push_if ctx.preds pred
          ∙ ap (λ b. holds_all ctx.preds && b) inside in
        let (_, added) = walks _ out inner out1 walked in
        added
        ∙ ap (λ (q : List ℕ × Bool). map place out ++ places f 0 q.0 q.1)
            (λ i. (push_back ((path ∙ path') i) n, held i))

    walk_match-Collects :
        (ctx' : WalkCtx) (out' : List Decl)
        → walk_match l spec name walk redis n ctx out ≡ ok (ctx', out')
        → Restored ctx ctx'
          × (map place out'
              ≡ map place out
                ++ places_rule (scope (is_in l req spec) f) n ctx.path (holds_all ctx.preds))
    unfolding walk_match
    walk_match-Collects ctx' out' h =
        let (pred, compiled, h1) = steps_ok (into_predicate l spec) _ h in
        let (entered, pushed, h2) =
          steps_ok (push_redis l (scoped ctx name redis n pred) redis) _ h1 in
        let ((inner, out1), walked, h3) =
          steps_ok (walk (with_path entered (push_back entered.path n)) out) _ h2 in
        let (left, same) = ok_pair h3 in
        let e = push_redis-Entered l (scoped ctx name redis n pred) redis entered pushed in
        (
          subst (Restored ctx) left
              (left_scope ctx name redis n pred entered inner e (walks _ out inner out1 walked).0),
          subst
              (λ (ds : List Decl).
                map place ds
                ≡ map place out
                  ++ places_rule (scope (is_in l req spec) f) n ctx.path (holds_all ctx.preds))
              same (added_places pred entered inner out1 compiled e walked),
        )

  -- The places of a rule, and those of what follows it.
  both :
      (n : ℕ) (ctx : WalkCtx) (out : List Decl) (ctx1 : WalkCtx) (out1 : List Decl) (ctx' : WalkCtx)
      (out' : List Decl) (r : Rule) (f : Forest)
      → Restored ctx ctx1
        × (map place out1 ≡ map place out ++ places_rule r n ctx.path (holds_all ctx.preds))
      → Restored ctx1 ctx'
        × (map place out' ≡ map place out1 ++ places f (suc n) ctx1.path (holds_all ctx1.preds))
      → Restored ctx ctx'
        × (map place out' ≡ map place out ++ places (more r f) n ctx.path (holds_all ctx.preds))
  unfolding places
  both n ctx out ctx1 out1 ctx' out' r f (r1, added1) (r2, added2) = (
    record {
      path = r2.path ∙ r1.path;
      preds = r2.preds ∙ r1.preds;
      scope_stack = r2.scope_stack ∙ r1.scope_stack;
      redis_stack = r2.redis_stack ∙ r1.redis_stack;
    },
    added2
        ∙ (λ i. added1 i ++ places f (suc n) (r1.path i) (holds_all (r1.preds i)))
        ∙ append_assoc (map place out) _ _,
  )

  mutual
    unfolding walk_node walk_body rule_of forest_of places_rule places

    walk_node-Collects :
        (l : Libraries) (node : RuleNode) (n : ℕ) (ctx : WalkCtx) (out : List Decl) (ctx' : WalkCtx)
        (out' : List Decl)
        → walk_node l node n ctx out ≡ ok (ctx', out')
        → Restored ctx ctx'
          × (map place out'
              ≡ map place out ++ places_rule (rule_of l req node) n ctx.path (holds_all ctx.preds))
    walk_node-Collects l (RuleNode.general host path method header name redis body) n ctx out ctx'
          out' h =
        walk_match-Collects l (from_general host path method header) name (walk_body l body 0) redis
          (forest_of l req body) (walk_body-Collects l body 0) n ctx out ctx' out' h
    walk_node-Collects l (RuleNode.host host name redis body) n ctx out ctx' out' h =
        walk_match-Collects l (record default_spec { host = some host }) name (walk_body l body 0)
          redis (forest_of l req body) (walk_body-Collects l body 0) n ctx out ctx' out' h
    walk_node-Collects l (RuleNode.path path name redis body) n ctx out ctx' out' h =
        walk_match-Collects l (record default_spec { path = some path }) name (walk_body l body 0)
          redis (forest_of l req body) (walk_body-Collects l body 0) n ctx out ctx' out' h
    walk_node-Collects l (RuleNode.method method name redis body) n ctx out ctx' out' h =
        walk_match-Collects l (record default_spec { methods = method ∷ [] }) name
          (walk_body l body 0) redis (forest_of l req body) (walk_body-Collects l body 0) n ctx out
          ctx' out' h
    walk_node-Collects l (RuleNode.methods methods name redis body) n ctx out ctx' out' h =
        walk_match-Collects l (record default_spec { methods = methods }) name (walk_body l body 0)
          redis (forest_of l req body) (walk_body-Collects l body 0) n ctx out ctx' out' h
    walk_node-Collects l (RuleNode.leaf leaf) n ctx out ctx' out' h =
        walk_leaf-Collects l leaf n ctx out ctx' out' h

    pub walk_body-Collects :
        (l : Libraries) (body : Body) (n : ℕ) (ctx : WalkCtx) (out : List Decl) (ctx' : WalkCtx)
        (out' : List Decl)
        → walk_body l body n ctx out ≡ ok (ctx', out')
        → Restored ctx ctx'
          × (map place out'
              ≡ map place out ++ places (forest_of l req body) n ctx.path (holds_all ctx.preds))
    walk_body-Collects l Body.nil n ctx out ctx' out' h =
        let (e, same) = ok_pair h in
        (unchanged ctx ctx' e, ap (map place) (sym same) ∙ sym (append-nil (map place out)))
    walk_body-Collects l (Body.cons node body) n ctx out ctx' out' h =
        let ((ctx1, out1), walked, h') = steps_ok (walk_node l node n ctx out) _ h in
        both n ctx out ctx1 out1 ctx' out' (rule_of l req node) (forest_of l req body)
          (walk_node-Collects l node n ctx out ctx1 out1 walked)
          (walk_body-Collects l body (suc n) ctx1 out1 ctx' out' h')

-- The walk of a listener collects the global rules at the root, and its own as those of a scope 0.
pub walk_listener-places :
    (req : Request) (l : Libraries) (globals body : Body) (redis : Option RedisConnection)
    (cache cache' : RedisCache) (decls : List Decl)
    → walk_listener l globals body redis cache ≡ ok (cache', decls)
    → map (place req) decls
      ≡ places (forest_of l req globals) 0 [] true ++ places (forest_of l req body) 0 (0 ∷ []) true
unfolding walk_listener
walk_listener-places req l globals body redis cache cache' decls h =
    let ((ctx, out), walked, h1) = steps_ok (walk_body l globals 0 (new_ctx redis cache) []) _ h in
    let ((ctx', out'), walked', h2) =
      steps_ok (walk_body l body 0 (with_path ctx (push_back ctx.path 0)) out) _ h1 in
    let (r, added) = walk_body-Collects req l globals 0 (new_ctx redis cache) [] ctx out walked in
    let (r', added') =
      walk_body-Collects req l body 0 (with_path ctx (push_back ctx.path 0)) out ctx' out'
        walked' in
    let (_, same) = ok_pair h2 in
    ap (map (place req)) (sym same) ∙ added' ∙ (λ i.
      added i
      ++ places (forest_of l req body) 0 (push_back (r.path i) 0) (holds_all req (r.preds i)))
