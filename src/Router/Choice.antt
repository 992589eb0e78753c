-- ===== src/Router/Choice.antt =====
-- router.rs: which upstream a request goes to.
use noxy.Common.{Bool, true, false, Option, none, some, List, [], ◌∷◌, ◌++◌, All, ◌≡◌, refl, ap, ℕ}
use noxy.Http.{text, UpstreamTarget, Request, ok, Service, plain_response}
use noxy.Router.{Upstream, to_target, find_route, found, unmatched, call, map_found}

-- No route of a list takes the request.
abbrev pub NoMatch : Request → List ((Request → Bool) × Upstream) → Type 0
NoMatch req routes = All (λ r. r.0 req ≡ false) routes

find_route-first :
    (random_below : ℕ → ℕ) (req : Request) (before after : List ((Request → Bool) × Upstream))
    (predicate : Request → Bool) (u u' : Upstream) (t : UpstreamTarget)
    → NoMatch req before
    → predicate req ≡ true
    → to_target random_below u ≡ (u', some t)
    → find_route random_below req (before ++ (predicate, u) ∷ after)
      ≡ found (before ++ (predicate, u') ∷ after) t
unfolding find_route
find_route-first random_below req [] after predicate u u' t none_before takes picks =
    rw (takes, picks) refl
find_route-first random_below req ((p, v) ∷ before) after predicate u u' t (not_this, none_before)
      takes picks =
    rw not_this (
      ap (map_found (λ rs. (p, v) ∷ rs))
        (find_route-first random_below req before after predicate u u' t none_before takes picks))

find_route-NoMatch :
    (random_below : ℕ → ℕ) (req : Request) (routes : List ((Request → Bool) × Upstream))
    → NoMatch req routes
    → find_route random_below req routes ≡ unmatched
unfolding find_route
find_route-NoMatch random_below req [] no_match = refl
find_route-NoMatch random_below req ((p, v) ∷ routes) (not_this, no_match) =
    rw not_this
      (ap (map_found (λ rs. (p, v) ∷ rs)) (find_route-NoMatch random_below req routes no_match))

-- The first route whose predicate takes the request decides: the inner service is called once, with
-- the target that the route's upstream picks and the request otherwise unchanged, its outcome is
-- returned, and no other upstream's counter moves.
pub call-first :
    {W : Type 0} (random_below : ℕ → ℕ) (inner : Service W) (req : Request)
    (default : Option Upstream) (before after : List ((Request → Bool) × Upstream))
    (predicate : Request → Bool) (u u' : Upstream) (t : UpstreamTarget) (w : W)
    → NoMatch req before
    → predicate req ≡ true
    → to_target random_below u ≡ (u', some t)
    → let (outcome, w') = inner (record req { target = some t }) w in
      call random_below inner req
        (record { routes = before ++ (predicate, u) ∷ after; default = default })
        w
      ≡ some (outcome, record { routes = before ++ (predicate, u') ∷ after; default = default }, w')
unfolding call
call-first random_below inner req default before after predicate u u' t w none_before takes picks =
    rw (find_route-first random_below req before after predicate u u' t none_before takes picks)
      refl

-- Where no route takes the request, the answer is a 502 response if there is no default upstream, and
-- neither the inner service nor any counter is touched; if there is one, the inner service is called
-- with its target, and no counter moves but its own.
pub call-NoMatch :
    {W : Type 0} (random_below : ℕ → ℕ) (inner : Service W) (req : Request)
    (routes : List ((Request → Bool) × Upstream)) (u u' : Upstream) (t : UpstreamTarget) (w : W)
    → NoMatch req routes
    → to_target random_below u ≡ (u', some t)
    → let unserved = ok (plain_response 502 (text "no upstream configured for this request")) in
      let (outcome, w') = inner (record req { target = some t }) w in
      (call random_below inner req (record { routes = routes; default = none }) w
        ≡ some (unserved, record { routes = routes; default = none }, w))
      × (call random_below inner req (record { routes = routes; default = some u }) w
          ≡ some (outcome, record { routes = routes; default = some u' }, w'))
unfolding call
call-NoMatch random_below inner req routes u u' t w no_match picks =
    rw (find_route-NoMatch random_below req routes no_match, picks) (refl, refl)
