-- ===== src/Config/Shadow/Active.antt =====
-- Which places of a forest are active: those of the rules in effect.
use noxy.Config.Places.{places, places_rule}
use mathlib.Core.List.{append_assoc}
use mathlib.Core.Path.{ap₂}
use noxy.Common.{
  ℕ, suc, ◌≤◌, Bool, true, false, ◌||◌, List, [], ◌∷◌, ◌++◌, ◌≡◌, refl, sym, ap, ◌∙◌, arith,
}
use noxy.Config.{Leaf, discriminant}
use noxy.Config.Forest.{
  Rule, Forest, rule, scope, empty, more, some_nested, in_effect, in_effect_rule,
}
use noxy.Config.Shadow.Override.{over, over-append, over-own, over-before, over-sibling}
use noxy.Config.Shadow.Effect.{active_leaves, active_leaves-append}

-- Out of all scopes nothing is active.
mutual
  unfolding places places_rule active_leaves

  active-outside_rule :
      (o : ℕ → List ℕ → Bool) (r : Rule) (n : ℕ) (p : List ℕ)
      → active_leaves o (places_rule r n p false) ≡ []
  active-outside_rule o (rule leaf) n p = refl
  active-outside_rule o (scope inside f) n p = active-outside_forest o f 0 (p ++ n ∷ [])

  active-outside_forest :
      (o : ℕ → List ℕ → Bool) (f : Forest) (n : ℕ) (p : List ℕ)
      → active_leaves o (places f n p false) ≡ []
  active-outside_forest o empty n p = refl
  active-outside_forest o (more r f) n p =
      active_leaves-append o (places_rule r n p false) (places f (suc n) p false)
      ∙ ap₂ (λ (xs ys : List Leaf). xs ++ ys) (active-outside_rule o r n p)
          (active-outside_forest o f (suc n) p)

-- Where `o` tells what overrides a forest's own rules, and what overrides those in its scopes, the
-- active places are the rules in effect.
abbrev pub Deeper : (ℕ → List ℕ → Bool) → Forest → ℕ → List ℕ → Type 0
Deeper o f n p =
    (kind i : ℕ) (r : List ℕ)
    → n ≤ i
    → o kind (p ++ i ∷ r) ≡ over kind (p ++ i ∷ r) (places f n p true)

pub Deeper-later :
    (o : ℕ → List ℕ → Bool) (x : Rule) (f : Forest) (n : ℕ) (p : List ℕ)
    → Deeper o (more x f) n p
    → Deeper o f (suc n) p
unfolding places
Deeper-later o x f n p deeper kind i r le =
    deeper kind i r (omega arith)
    ∙ over-append kind (p ++ i ∷ r) (places_rule x n p true) (places f (suc n) p true)
    ∙ ap (λ b. b || over kind (p ++ i ∷ r) (places f (suc n) p true))
        (over-sibling kind p r i x n true le)

Deeper-inner :
    (o : ℕ → List ℕ → Bool) (inner f : Forest) (n : ℕ) (p r : List ℕ) (kind : ℕ)
    → Deeper o (more (scope true inner) f) n p
    → o kind (p ++ n ∷ r) ≡ over kind (p ++ n ∷ r) (places inner 0 (p ++ n ∷ []) true)
unfolding places places_rule
Deeper-inner o inner f n p r kind deeper =
    deeper kind n r (omega arith)
    ∙ over-append kind (p ++ n ∷ r) (places inner 0 (p ++ n ∷ []) true) (places f (suc n) p true)
    ∙ ap (λ b. over kind (p ++ n ∷ r) (places inner 0 (p ++ n ∷ []) true) || b)
        (over-before kind p r n f (suc n) true (omega arith))
    ∙ ground arith

pub active-rule :
    (o : ℕ → List ℕ → Bool) (c : ℕ → Bool) (leaf : Leaf) (f : Forest) (n : ℕ) (p : List ℕ)
    → ((kind : ℕ) → o kind p ≡ c kind)
    → active_leaves o (places f (suc n) p true) ≡ in_effect c f
    → active_leaves o (places (more (rule leaf) f) n p true) ≡ in_effect c (more (rule leaf) f)
unfolding places places_rule active_leaves in_effect in_effect_rule
active-rule o c leaf f n p own rest = rw (own (discriminant leaf), rest) (ground arith)

pub active-in_effect :
    (o : ℕ → List ℕ → Bool) (c : ℕ → Bool) (f : Forest) (n : ℕ) (p : List ℕ)
    → ((kind : ℕ) → o kind p ≡ c kind)
    → Deeper o f n p
    → active_leaves o (places f n p true) ≡ in_effect c f
unfolding places places_rule active_leaves in_effect in_effect_rule
active-in_effect o c empty n p own deeper = refl
active-in_effect o c (more (rule leaf) f) n p own deeper =
    active-rule o c leaf f n p own
      (active-in_effect o c f (suc n) p own (Deeper-later o (rule leaf) f n p deeper))
active-in_effect o c (more (scope false inner) f) n p own deeper =
    active_leaves-append o (places inner 0 (p ++ n ∷ []) false) (places f (suc n) p true)
    ∙ ap₂ (λ (xs ys : List Leaf). xs ++ ys) (active-outside_forest o inner 0 (p ++ n ∷ []))
        (active-in_effect o c f (suc n) p own (Deeper-later o (scope false inner) f n p deeper))
active-in_effect o c (more (scope true inner) f) n p own deeper =
    active_leaves-append o (places inner 0 (p ++ n ∷ []) true) (places f (suc n) p true)
    ∙ ap₂ (λ (xs ys : List Leaf). xs ++ ys)
        (active-in_effect o (λ kind. some_nested kind inner) inner 0 (p ++ n ∷ [])
          (λ kind.
            Deeper-inner o inner f n p [] kind deeper ∙ over-own kind inner 0 (p ++ n ∷ []) true)
          (λ kind i r le.
            let e = append_assoc p (n ∷ []) (i ∷ r) in
            ap (o kind) e
            ∙ Deeper-inner o inner f n p (i ∷ r) kind deeper
            ∙ ap (λ q. over kind q (places inner 0 (p ++ n ∷ []) true)) (sym e)))
        (active-in_effect o c f (suc n) p own (Deeper-later o (scope true inner) f n p deeper))
