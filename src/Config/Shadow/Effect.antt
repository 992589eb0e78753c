-- ===== src/Config/Shadow/Effect.antt =====
-- The declarations in effect at a request, after `resolve_exclusions`, read off their places.
use noxy.Config.Walk.Collect.{place}
use noxy.Config.Places.{Place}
use mathlib.Core.List.{append_assoc}
use mathlib.Core.Path.{ap₂}
use native.Mathlib.Numerals.{add-one}
use noxy.Common.{
  Bool-cases, inl, inr, all, and_true, length-append, ℕ, suc, ◌+◌, ◌<◌, Bool, true, false, not,
  ◌&&◌, ◌||◌, List, [], ◌∷◌, ◌++◌, any, length, ◌≡◌, ◌≢◌, refl, sym, ap, ◌∙◌, arith, map,
  if◌then◌else◌,
}
use noxy.Http.{Request}
use noxy.Config.{Leaf, discriminant, rule_is_exclusive}
use noxy.Config.Matching.{Predicate, is_empty}
use noxy.Config.Shadow.{
  shadows, excluded_by, resolve, resolve_from, resolve_exclusions, in_scope, effective_predicate,
}
use noxy.Config.Walk.{Decl}
use noxy.Config.Shadow.Override.{below_self, overrides, over}

-- Whether a declaration applies to the request, and the rules of those that do.
unfoldable pub applies_to : Request → Decl → Bool
unfolding effective_predicate
applies_to req d = in_scope (effective_predicate d) req

unfoldable pub leaves_in_effect : Request → List Decl → List Leaf
unfolding applies_to
leaves_in_effect req [] = []
leaves_in_effect req (d ∷ decls) =
    let rest = leaves_in_effect req decls in if applies_to req d then d.leaf ∷ rest else rest

-- The same of a place, among all places.
abbrev pub active : (ℕ → List ℕ → Bool) → Place → Bool
active overridden e =
    e.holds && not (rule_is_exclusive e.leaf && overridden (discriminant e.leaf) e.path)

unfoldable pub active_leaves : (ℕ → List ℕ → Bool) → List Place → List Leaf
active_leaves overridden [] = []
active_leaves overridden (e ∷ es) =
    let rest = active_leaves overridden es in if active overridden e then e.leaf ∷ rest else rest

pub active_leaves-append :
    (o : ℕ → List ℕ → Bool) (xs ys : List Place)
    → active_leaves o (xs ++ ys) ≡ active_leaves o xs ++ active_leaves o ys
unfolding active_leaves
active_leaves-append o [] ys = refl
active_leaves-append o (e ∷ xs) ys = ground (arith, active_leaves-append o xs ys)

effective-no_exclusions :
    (req : Request) (d : Decl)
    → applies_to req d ≡ (in_scope d.scope_pred req && not (any (λ p. p req) d.excluded_preds))
unfolding applies_to effective_predicate
effective-no_exclusions req d = ground arith

module _ (req : Request) (d : Decl) where
  abbrev hit : Decl → Bool
  hit e = overrides (discriminant d.leaf) d.path (place req e)

  abbrev excludes : List Predicate → Bool
  excludes ps = any (λ p. p req) ps

  shadows-other :
      (i j : ℕ) (e : Decl) → i ≢ j → (shadows i d j e && in_scope e.scope_pred req) ≡ hit e
  unfolding shadows overrides
  shadows-other i j e ne = ground arith

  excluded_by-step :
      (i j : ℕ) (e : Decl) (decls : List Decl)
      → excludes (excluded_by i d j (e ∷ decls)) ≡ (
          (shadows i d j e && in_scope e.scope_pred req)
          || excludes (excluded_by i d (suc j) decls))
  unfolding excluded_by
  excluded_by-step i j e decls = ground arith

  -- Past `d` itself, and before it.
  excluded_by-after :
      (i j : ℕ) (decls : List Decl)
      → i < j
      → excludes (excluded_by i d j decls)
        ≡ over (discriminant d.leaf) d.path (map (place req) decls)
  unfolding excluded_by
  excluded_by-after i j [] lt = refl
  excluded_by-after i j (e ∷ decls) lt =
      excluded_by-step i j e decls
      ∙ ap₂ (λ a b. a || b) (shadows-other i j e (λ same. omega arith))
          (excluded_by-after i (suc j) decls (omega arith))

  excluded_by_self :
      (i j : ℕ) (before after : List Decl)
      → i ≡ j + length before
      → excludes (excluded_by i d j (before ++ d ∷ after))
        ≡ over (discriminant d.leaf) d.path (map (place req) (before ++ d ∷ after))
  unfolding shadows overrides
  excluded_by_self i j [] after here =
      excluded_by-step i j d after
      ∙ ap₂ (λ a b. a || b) (rw (below_self d.path) (ground arith))
          (excluded_by-after i (suc j) after (omega arith))
  excluded_by_self i j (e ∷ before) after here =
      excluded_by-step i j e (before ++ d ∷ after)
      ∙ ap₂ (λ a b. a || b) (shadows-other i j e (λ same. omega arith))
          (excluded_by_self i (suc j) before after (omega arith))

  excludes-empty : (ps : List Predicate) → is_empty ps ≡ true → excludes ps ≡ false
  excludes-empty [] h = refl
  excludes-empty (p ∷ ps) h = cc

  -- A declaration is in effect if its place is active.
  pub resolve-active :
      (before after : List Decl)
      → is_empty d.excluded_preds ≡ true
      → applies_to req (resolve (before ++ d ∷ after) (length before) d)
        ≡ active (λ kind p. over kind p (map (place req) (before ++ d ∷ after))) (place req d)
  unfolding resolve
  resolve-active before after fresh = elim (Bool-cases (rule_is_exclusive d.leaf)) [
    | inl exclusive ↦
        rw (exclusive, resolve)
          (effective-no_exclusions req
              (record d { excluded_preds = excluded_by (length before) d 0 (before ++ d ∷ after) })
            ∙ ap (λ b. in_scope d.scope_pred req && not b)
                (excluded_by_self (length before) 0 before after (omega arith)))
    | inr additive ↦
        rw (additive, resolve)
          (effective-no_exclusions req d
            ∙ ap (λ b. in_scope d.scope_pred req && not b) (excludes-empty d.excluded_preds fresh))
  ]

pub resolve-leaf : (decls : List Decl) (i : ℕ) (d : Decl) → (resolve decls i d).leaf ≡ d.leaf
unfolding resolve
resolve-leaf decls i d = ground arith

-- The loop, from the declaration at `length before` on.
resolve_from-active :
    (req : Request) (decls before after : List Decl)
    → decls ≡ before ++ after
    → all (λ (d : Decl). is_empty d.excluded_preds) after ≡ true
    → leaves_in_effect req (resolve_from decls (length before) after)
      ≡ active_leaves (λ kind p. over kind p (map (place req) decls)) (map (place req) after)
unfolding resolve_from leaves_in_effect active_leaves
resolve_from-active req decls before [] parts fresh = refl
resolve_from-active req decls before (d ∷ after) parts fresh =
    let (fresh_d, fresh_after) = and_true fresh in
    let longer : length (before ++ d ∷ []) ≡ suc (length before) =
      length-append before (d ∷ []) ∙ add-one (length before) in
    let this : applies_to req (resolve decls (length before) d)
        ≡ active (λ kind p. over kind p (map (place req) decls)) (place req d) =
      rw parts (resolve-active req d before after fresh_d) in
    let rest =
      resolve_from-active req decls (before ++ d ∷ []) after
        (parts ∙ sym (append_assoc before (d ∷ []) after)) fresh_after in
    let next = ap (λ n. leaves_in_effect req (resolve_from decls n after)) (sym longer) ∙ rest in
    λ i. if this i then resolve-leaf decls (length before) d i ∷ next i else next i

pub resolve_exclusions-active :
    (req : Request) (decls : List Decl)
    → all (λ (d : Decl). is_empty d.excluded_preds) decls ≡ true
    → leaves_in_effect req (resolve_exclusions decls)
      ≡ active_leaves (λ kind p. over kind p (map (place req) decls)) (map (place req) decls)
unfolding resolve_exclusions
resolve_exclusions-active req decls fresh = resolve_from-active req decls [] decls refl fresh
