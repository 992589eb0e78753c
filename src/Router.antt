-- ===== src/Router.antt =====
-- src/middleware/router.rs. The shared counters stand in the routes, which a call returns; parsing a URL
-- is the http crate's, an argument here, and so is the random number. A panic is `none`.
pub mod Balance
pub mod Choice
mod Tests
use noxy.Common.{
  ◌++◌, ℕ, ◌+◌, ◌%◌, ◌^◌, ◌==◌, Bool, true, false, Option, none, some, List, [], ◌∷◌, length,
  get_elem?, if◌then◌else◌, ◌>>=◌,
}
use noxy.Http.{
  Bytes, text, Uri, UpstreamTarget, Request, Response, Outcome, ok, Service, plain_response,
}

pub data LoadBalanceStrategy : Type 0 where
  round_robin random : LoadBalanceStrategy

pub record Backend : Type 0 where
  pub authority : Bytes
  pub scheme : Bytes

-- The counter is a `usize`.
pub record Upstream : Type 0 where
  pub backends : List Backend
  pub strategy : LoadBalanceStrategy
  pub counter : ℕ

abbrev pub or_http : Option Bytes → Bytes
or_http none = text "http"
or_http (some scheme) = scheme

module _ (parse : Bytes → Option Uri) where
  unfoldable pub parse_backend : Bytes → Option Backend
  parse_backend url = do
    uri ← parse url
    authority ← uri.authority
    some (record { authority = authority; scheme = or_http uri.scheme })

  -- `.map(..).collect::<Result<_, _>>()`
  unfoldable pub parse_backends : List Bytes → Option (List Backend)
  unfolding parse_backend
  parse_backends [] = some []
  parse_backends (url ∷ urls) = do
    backend ← parse_backend url
    backends ← parse_backends urls
    some (backend ∷ backends)

-- `ensure!(!backends.is_empty(), ..)`
abbrev pub nonempty : List Backend → Option (List Backend)
nonempty [] = none
nonempty (b ∷ bs) = some (b ∷ bs)

-- `Upstream::new`; an error is `none`.
unfoldable pub new_upstream : (Bytes → Option Uri) → List Bytes → Option Upstream
unfolding parse_backends
new_upstream parse urls = do
  parsed ← parse_backends parse urls
  backends ← nonempty parsed
  some (record { backends = backends; strategy = round_robin; counter = 0 })

unfoldable pub set_strategy : Upstream → LoadBalanceStrategy → Upstream
set_strategy u strategy = record u { strategy = strategy }

-- `pick`, where there are several backends; `fetch_add` wraps.
pub pick_by : LoadBalanceStrategy → (ℕ → ℕ) → Upstream → Upstream × Option Backend
pick_by round_robin random_below u = (
  record u { counter = (u.counter + 1) % 2 ^ 64 },
  get_elem? u.backends (u.counter % length u.backends),
)
pick_by random random_below u = (u, get_elem? u.backends (random_below (length u.backends)))

pub pick : (ℕ → ℕ) → Upstream → Upstream × Option Backend
unfolding pick_by
pick random_below u =
    if length u.backends == 1
    then (u, get_elem? u.backends 0)
    else pick_by u.strategy random_below u

abbrev pub target_of : Backend → UpstreamTarget
target_of b = record { authority = b.authority; scheme = b.scheme }

abbrev pub map_target : Option Backend → Option UpstreamTarget
map_target none = none
map_target (some b) = some (target_of b)

pub to_target : (ℕ → ℕ) → Upstream → Upstream × Option UpstreamTarget
to_target random_below u = let (u', b) = pick random_below u in (u', map_target b)

pub record Router : Type 0 where
  pub routes : List ((Request → Bool) × Upstream)
  pub default : Option Upstream

pub new_router : Router
new_router = record { routes = []; default = none }

pub route : Router → (Request → Bool) → Upstream → Router
route r predicate upstream = record r { routes = r.routes ++ (predicate, upstream) ∷ [] }

pub default_upstream : Router → Upstream → Router
default_upstream r upstream = record r { default = some upstream }

-- What the routes come to for a request: no match, a panic, or the routes after the pick and a target.
pub data Found (A : Type 0) : Type 0 where
  unmatched panics : Found A
  found : A → UpstreamTarget → Found A

abbrev pub picked : {A : Type 0} → (Upstream → A) → Upstream × Option UpstreamTarget → Found A
picked put (u, none) = panics
picked put (u, some t) = found (put u) t

abbrev pub map_found : {A B : Type 0} → (A → B) → Found A → Found B
map_found f unmatched = unmatched
map_found f panics = panics
map_found f (found a t) = found (f a) t

pub find_route :
    (ℕ → ℕ)
    → Request
    → List ((Request → Bool) × Upstream)
    → Found (List ((Request → Bool) × Upstream))
find_route random_below req [] = unmatched
find_route random_below req ((predicate, u) ∷ routes) =
    let rest = find_route random_below req routes in
    if predicate req
    then picked (λ u'. (predicate, u') ∷ routes) (to_target random_below u)
    else map_found (λ rs. (predicate, u) ∷ rs) rest

pub find_default : (ℕ → ℕ) → Router → Option Upstream → Found Router
find_default random_below r none = unmatched
find_default random_below r (some u) =
    picked (λ u'. record r { default = some u' }) (to_target random_below u)

-- `.or(self.default.as_ref())`
pub or_default : (ℕ → ℕ) → Router → Found (List ((Request → Bool) × Upstream)) → Found Router
unfolding find_default
or_default random_below r unmatched = find_default random_below r r.default
or_default random_below r panics = panics
or_default random_below r (found routes t) = found (record r { routes = routes }) t

-- The match on the target.
pub relay :
    {W : Type 0} → Service W → Request → Router → W → Found Router → Option (Outcome × Router × W)
relay inner req r w unmatched =
    some (ok (plain_response 502 (text "no upstream configured for this request")), r, w)
relay inner req r w panics = none
relay inner req r w (found r' t) =
    let (outcome, w') = inner (record req { target = some t }) w in some (outcome, r', w')

-- `RouterService::call`
pub call : {W : Type 0} → (ℕ → ℕ) → Service W → Request → Router → W → Option (Outcome × Router × W)
unfolding relay or_default
call random_below inner req r w =
    relay inner req r w (or_default random_below r (find_route random_below req r.routes))
