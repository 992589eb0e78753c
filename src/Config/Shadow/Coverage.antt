-- ===== src/Config/Shadow/Coverage.antt =====
-- No request that a rule is declared for is left without a rule of its kind: what overrides an exclusive
-- rule applies itself, or is overridden in turn by one that does.
use noxy.Common.{
  ℕ, Bool, true, false, ◌||◌, Option, List, ◌++◌, any, any-append, ◌≡◌, refl, sym, ap, ◌∙◌, arith,
  ==_iff, Bool-cases, inl, inr, ◌⊎◌, ◌==◌,
}
use noxy.Http.{Request}
use noxy.Config.{Leaf, Body, discriminant, ok, Libraries}
use noxy.Config.Forest.{
  Forest, rule, scope, empty, more, applies, some_applies, some_nested, in_effect, in_effect_rule,
  forest_of, listener_in_effect,
}
use noxy.Config.Walk.{Decl, RedisConnection, RedisCache}
use noxy.Config.Shadow.{walk_listener_body}
use noxy.Config.Shadow.Effect.{leaves_in_effect}
use noxy.Config.Shadow.Innermost.{first_is_match, walk_listener_body-innermost}

abbrev pub has_kind : ℕ → List Leaf → Bool
has_kind kind leaves = any (λ leaf. discriminant leaf == kind) leaves

has_kind-append :
    (kind : ℕ) (xs ys : List Leaf)
    → has_kind kind (xs ++ ys) ≡ (has_kind kind xs || has_kind kind ys)
has_kind-append kind xs ys = any-append (λ leaf. discriminant leaf == kind) xs ys

-- A rule of the kind, in a list of one, that nothing overrides.
rule-kept :
    (kind : ℕ) (c : ℕ → Bool) (leaf : Leaf)
    → c kind ≡ false
    → (discriminant leaf == kind) ≡ true
    → has_kind kind (in_effect_rule c (rule leaf)) ≡ true
unfolding in_effect_rule
rule-kept kind c leaf free same =
    let e = (==_iff (discriminant leaf) kind).0 same in rw (ap c e ∙ free) (ground arith)

-- A forest's rule applies where nothing overrides its kind, and a nested one whatever does.
abbrev Covered : ℕ → Forest → Type 0
Covered kind f =
    ((c : ℕ → Bool)
      → c kind ≡ false
      → some_applies kind f ≡ true
      → has_kind kind (in_effect c f) ≡ true)
    × ((c : ℕ → Bool) → some_nested kind f ≡ true → has_kind kind (in_effect c f) ≡ true)

-- A scope's rules, seen from outside.
inner-Covered :
    (kind : ℕ) (f : Forest)
    → Covered kind f
    → some_applies kind f ≡ true
    → has_kind kind (in_effect (λ k. some_nested k f) f) ≡ true
inner-Covered kind f (kept, nested) h = elim (Bool-cases (some_nested kind f)) [
  | inl deeper ↦ nested (λ k. some_nested k f) deeper
  | inr none_deeper ↦ kept (λ k. some_nested k f) none_deeper h
]

or_true : {a b : Bool} → (a || b) ≡ true → (a ≡ true) ⊎ (b ≡ true)
or_true {a = true} h = inl refl
or_true {a = false} h = inr h

or_left : {a b : Bool} → b ≡ false → (a || b) ≡ true → a ≡ true
or_left {a = true} e h = refl
or_left {a = false} e h = sym e ∙ h

-- A kind found on either side is found.
has_kind-either :
    (kind : ℕ) (xs ys : List Leaf)
    → (has_kind kind xs ≡ true) ⊎ (has_kind kind ys ≡ true)
    → has_kind kind (xs ++ ys) ≡ true
has_kind-either kind xs ys h =
    has_kind-append kind xs ys ∙ elim h [ inl l ↦ rw l | inr r ↦ rw r (ground arith) ]

all-Covered : (kind : ℕ) (f : Forest) → Covered kind f
unfolding some_applies some_nested applies in_effect in_effect_rule
all-Covered kind empty = (λ c free h. cc, λ c h. cc)
all-Covered kind (more (rule leaf) f) =
    let (kept, nested) = all-Covered kind f in
    (
      λ c free h.
          has_kind-either kind (in_effect_rule c (rule leaf)) (in_effect c f) (elim (or_true h) [
            | inl this ↦ inl (rule-kept kind c leaf free this)
            | inr rest ↦ inr (kept c free rest)
          ]),
      λ c h. has_kind-either kind (in_effect_rule c (rule leaf)) (in_effect c f) (inr (nested c h)),
    )
all-Covered kind (more (scope false inner) f) = all-Covered kind f
all-Covered kind (more (scope true inner) f) =
    let within = inner-Covered kind inner (all-Covered kind inner) in
    let (kept, nested) = all-Covered kind f in
    (
      λ c free h.
          has_kind-either kind (in_effect (λ k. some_nested k inner) inner) (in_effect c f)
            (elim (or_true h) [ inl this ↦ inl (within this) | inr rest ↦ inr (kept c free rest) ]),
      λ c h.
          has_kind-either kind (in_effect (λ k. some_nested k inner) inner) (in_effect c f)
            (elim (or_true h) [ inl this ↦ inl (within this) | inr rest ↦ inr (nested c rest) ]),
    )

-- A listener's rules, or else the global ones.
listener-Covered :
    (kind : ℕ) (globals own : Forest)
    → (some_applies kind globals || some_applies kind own) ≡ true
    → has_kind kind (listener_in_effect globals own) ≡ true
unfolding listener_in_effect
listener-Covered kind globals own h =
    has_kind-either kind (in_effect (λ k. some_nested k globals || some_applies k own) globals)
      (in_effect (λ k. some_nested k own) own)
      (elim (Bool-cases (some_applies kind own)) [
        | inl local ↦ inr (inner-Covered kind own (all-Covered kind own) local)
        | inr only_global ↦ inl (elim (Bool-cases (some_nested kind globals)) [
          | inl deeper ↦
              (all-Covered kind globals).1 (λ k. some_nested k globals || some_applies k own) deeper
          | inr none_deeper ↦
              (all-Covered kind globals).0 (λ k. some_nested k globals || some_applies k own)
                (rw (only_global, none_deeper)) (or_left only_global h)
        ])
      ])

-- Under the conditions of the refinement, a request for which some rule of a kind applies, global or the
-- listener's, has a declaration of that kind in effect: exclusion never removes the last one.
pub walk_listener_body-covers :
    (l : Libraries) (req : Request) (globals body : Body) (redis : Option RedisConnection)
    (cache cache' : RedisCache) (decls : List Decl) (kind : ℕ)
    → first_is_match globals ≡ false
    → walk_listener_body l globals body redis cache ≡ ok (cache', decls)
    → (some_applies kind (forest_of l req globals) || some_applies kind (forest_of l req body))
      ≡ true
    → has_kind kind (leaves_in_effect req decls) ≡ true
walk_listener_body-covers l req globals body redis cache cache' decls kind free h some_rule =
    ap (has_kind kind)
      (walk_listener_body-innermost l req globals body redis cache cache' decls free h)
    ∙ listener-Covered kind (forest_of l req globals) (forest_of l req body) some_rule
