-- ===== src/Config/Places.antt =====
-- The places of a forest: where its rules stand in the tree.
use noxy.Common.{all-append, ℕ, suc, Bool, true, ◌&&◌, List, [], ◌∷◌, ◌++◌, all, ◌≡◌, refl}
use noxy.Config.{Leaf}
use noxy.Config.Forest.{Rule, Forest, rule, scope, empty, more}

-- A rule's place: the path of the scopes around it, whether the request is in all of them, the rule, and
-- that nothing is excluded yet.
pub record Place : Type 0 where
  pub path : List ℕ
  pub holds : Bool
  pub leaf : Leaf
  pub unresolved : Bool

unfoldable mutual
  pub places_rule : Rule → ℕ → List ℕ → Bool → List Place
  places_rule (rule leaf) n path holds =
      record { path = path; holds = holds; leaf = leaf; unresolved = true } ∷ []
  places_rule (scope inside f) n path holds = places f 0 (path ++ n ∷ []) (holds && inside)

  pub places : Forest → ℕ → List ℕ → Bool → List Place
  places empty n path holds = []
  places (more r f) n path holds = places_rule r n path holds ++ places f (suc n) path holds

-- No declaration of a walk has exclusions.
mutual
  unfolding places places_rule

  places_rule-unresolved :
      (r : Rule) (n : ℕ) (path : List ℕ) (h : Bool)
      → all (λ (e : Place). e.unresolved) (places_rule r n path h) ≡ true
  places_rule-unresolved (rule leaf) n path h = refl
  places_rule-unresolved (scope inside f) n path h =
      places_forest-unresolved f 0 (path ++ n ∷ []) (h && inside)

  places_forest-unresolved :
      (f : Forest) (n : ℕ) (path : List ℕ) (h : Bool)
      → all (λ (e : Place). e.unresolved) (places f n path h) ≡ true
  places_forest-unresolved empty n path h = refl
  places_forest-unresolved (more r f) n path h =
      all-append (λ (e : Place). e.unresolved) (places_rule r n path h) (places f (suc n) path h)
        (places_rule-unresolved r n path h) (places_forest-unresolved f (suc n) path h)

pub places-unresolved :
    (f : Forest) (n : ℕ) (path : List ℕ) (h : Bool)
    → all (λ (e : Place). e.unresolved) (places f n path h) ≡ true
places-unresolved = places_forest-unresolved
