-- ===== src/Config/Shadow/Override.antt =====
-- Which places override which: below a scope are the places of its forest, and no others.
use noxy.Config.Places.{Place, places, places_rule}
use mathlib.Core.List.{append_assoc}
use mathlib.Core.Path.{ap₂}
use noxy.Common.{
  ℕ, suc, ◌<◌, Bool, true, false, ◌&&◌, ◌||◌, List, [], ◌∷◌, ◌++◌, any, any-append, length, ltb,
  ◌==◌, ◌≡◌, ◌≢◌, refl, ap, ◌∙◌, arith,
}
use noxy.Config.{Leaf, discriminant}
use noxy.Config.Forest.{Rule, Forest, rule, scope, empty, more, applies, some_applies, some_nested}
use noxy.Config.Shadow.{starts_with}

-- The second path is strictly below the first.
abbrev pub below : List ℕ → List ℕ → Bool
below p q = ltb (length p) (length q) && starts_with p q

-- Whether a place of the kind overrides what stands at the path.
unfoldable pub overrides : ℕ → List ℕ → Place → Bool
overrides kind p e = discriminant e.leaf == kind && (below p e.path && e.holds)

abbrev pub over : ℕ → List ℕ → List Place → Bool
over kind p es = any (overrides kind p) es

pub over-append :
    (kind : ℕ) (p : List ℕ) (xs ys : List Place)
    → over kind p (xs ++ ys) ≡ (over kind p xs || over kind p ys)
over-append kind p xs ys = any-append (overrides kind p) xs ys

pub below_self : (p : List ℕ) → below p p ≡ false
unfolding starts_with
below_self p = ground arith

below-push : (p : List ℕ) (n : ℕ) → below p (p ++ n ∷ []) ≡ true
unfolding starts_with
below-push [] n = refl
below-push (a ∷ p) n = ground (arith, below-push p n)

below-append : (p q r : List ℕ) → below p q ≡ true → below p (q ++ r) ≡ true
unfolding starts_with
below-append [] (b ∷ q) r h = ground arith
below-append [] [] r h = absurd (ground arith)
below-append (a ∷ p) [] r h = absurd (ground arith)
below-append (a ∷ p) (b ∷ q) r h = ground (arith, below-append p q r)

-- A longer path is below no shorter one, and paths that part are not below one another.
below-parent : (p r : List ℕ) (i : ℕ) → below (p ++ i ∷ r) p ≡ false
unfolding starts_with
below-parent [] r i = ground arith
below-parent (a ∷ p) r i = ground (arith, below-parent p r i)

below-apart : (p r s : List ℕ) (i m : ℕ) → i ≢ m → below (p ++ i ∷ r) (p ++ m ∷ s) ≡ false
unfolding starts_with
below-apart [] r s i m h = ground arith
below-apart (a ∷ p) r s i m h = ground (arith, below-apart p r s i m h)

-- Below a path, a forest overrides by all of its rules.
mutual
  unfolding places places_rule applies some_applies overrides

  over-below_rule :
      (kind : ℕ) (p : List ℕ) (r : Rule) (n : ℕ) (q : List ℕ) (h : Bool)
      → below p q ≡ true
      → over kind p (places_rule r n q h) ≡ (h && applies kind r)
  over-below_rule kind p (rule leaf) n q h lower = rw lower (ground arith)
  over-below_rule kind p (scope inside f) n q h lower =
      over-below_forest kind p f 0 (q ++ n ∷ []) (h && inside) (below-append p q (n ∷ []) lower)
      ∙ ground arith

  over-below_forest :
      (kind : ℕ) (p : List ℕ) (f : Forest) (n : ℕ) (q : List ℕ) (h : Bool)
      → below p q ≡ true
      → over kind p (places f n q h) ≡ (h && some_applies kind f)
  over-below_forest kind p empty n q h lower = ground arith
  over-below_forest kind p (more r f) n q h lower =
      over-append kind p (places_rule r n q h) (places f (suc n) q h)
      ∙ ap₂ (λ a b. a || b) (over-below_rule kind p r n q h lower)
          (over-below_forest kind p f (suc n) q h lower)
      ∙ ground arith

pub over-below :
    (kind : ℕ) (p : List ℕ) (f : Forest) (n : ℕ) (q : List ℕ) (h : Bool)
    → below p q ≡ true
    → over kind p (places f n q h) ≡ (h && some_applies kind f)
over-below = over-below_forest

-- At its own path, by those that stand in its scopes.
pub over-own :
    (kind : ℕ) (f : Forest) (n : ℕ) (p : List ℕ) (h : Bool)
    → over kind p (places f n p h) ≡ (h && some_nested kind f)
unfolding places places_rule some_nested overrides
over-own kind empty n p h = ground arith
over-own kind (more (rule leaf) f) n p h =
    rw (below_self p) (ground (arith, over-own kind f (suc n) p h))
over-own kind (more (scope inside inner) f) n p h =
    over-append kind p (places inner 0 (p ++ n ∷ []) (h && inside)) (places f (suc n) p h)
    ∙ ap₂ (λ a b. a || b) (over-below kind p inner 0 (p ++ n ∷ []) (h && inside) (below-push p n))
        (over-own kind f (suc n) p h)
    ∙ ground arith

-- A path that parts from a forest's is not overridden by it.
mutual
  unfolding places places_rule overrides

  over-apart_rule :
      (kind : ℕ) (p r s : List ℕ) (i m : ℕ) (x : Rule) (n : ℕ) (h : Bool)
      → i ≢ m
      → over kind (p ++ i ∷ r) (places_rule x n (p ++ m ∷ s) h) ≡ false
  over-apart_rule kind p r s i m (rule leaf) n h ne = rw (below-apart p r s i m ne) (ground arith)
  over-apart_rule kind p r s i m (scope inside f) n h ne =
      ap (λ q. over kind (p ++ i ∷ r) (places f 0 q (h && inside)))
        (append_assoc p (m ∷ s) (n ∷ []))
      ∙ over-apart_forest kind p r (s ++ n ∷ []) i m f 0 (h && inside) ne

  over-apart_forest :
      (kind : ℕ) (p r s : List ℕ) (i m : ℕ) (f : Forest) (n : ℕ) (h : Bool)
      → i ≢ m
      → over kind (p ++ i ∷ r) (places f n (p ++ m ∷ s) h) ≡ false
  over-apart_forest kind p r s i m empty n h ne = refl
  over-apart_forest kind p r s i m (more x f) n h ne =
      over-append kind (p ++ i ∷ r) (places_rule x n (p ++ m ∷ s) h)
        (places f (suc n) (p ++ m ∷ s) h)
      ∙ ap₂ (λ a b. a || b) (over-apart_rule kind p r s i m x n h ne)
          (over-apart_forest kind p r s i m f (suc n) h ne)

pub over-apart :
    (kind : ℕ) (p r s : List ℕ) (i m : ℕ) (f : Forest) (n : ℕ) (h : Bool)
    → i ≢ m
    → over kind (p ++ i ∷ r) (places f n (p ++ m ∷ s) h) ≡ false
over-apart = over-apart_forest

-- Nor are the paths of the scopes that stand before a forest.
pub over-before :
    (kind : ℕ) (p r : List ℕ) (i : ℕ) (f : Forest) (n : ℕ) (h : Bool)
    → i < n
    → over kind (p ++ i ∷ r) (places f n p h) ≡ false
unfolding places places_rule overrides
over-before kind p r i empty n h lt = refl
over-before kind p r i (more (rule leaf) f) n h lt =
    rw (below-parent p r i) (ground (arith, over-before kind p r i f (suc n) h (omega arith)))
over-before kind p r i (more (scope inside inner) f) n h lt =
    over-append kind (p ++ i ∷ r) (places inner 0 (p ++ n ∷ []) (h && inside))
      (places f (suc n) p h)
    ∙ ap₂ (λ a b. a || b) (over-apart kind p r [] i n inner 0 (h && inside) (λ e. omega arith))
        (over-before kind p r i f (suc n) h (omega arith))

pub over-rule_parent :
    (kind : ℕ) (p r : List ℕ) (i : ℕ) (leaf : Leaf) (n : ℕ) (h : Bool)
    → over kind (p ++ i ∷ r) (places_rule (rule leaf) n p h) ≡ false
unfolding places_rule overrides
over-rule_parent kind p r i leaf n h = rw (below-parent p r i) (ground arith)

-- A rule's places override no path of a later one.
pub over-sibling :
    (kind : ℕ) (p r : List ℕ) (i : ℕ) (x : Rule) (n : ℕ) (h : Bool)
    → n < i
    → over kind (p ++ i ∷ r) (places_rule x n p h) ≡ false
unfolding places_rule overrides
over-sibling kind p r i (rule leaf) n h lt = over-rule_parent kind p r i leaf n h
over-sibling kind p r i (scope inside f) n h lt =
    over-apart kind p r [] i n f 0 (h && inside) (λ e. omega arith)
