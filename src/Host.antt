-- ===== src/Host.antt =====
-- `extract_host`, which src/middleware/circuit_breaker.rs, sliding_window.rs, rate_limiter.rs and
-- block_list.rs each declare: the host of a request, by which the first three key their stores per host
-- and the last matches its patterns. The host of a URI is the http crate's, an argument here; it puts an
-- IPv6 address in brackets.
mod Tests
use noxy.Common.{
  ℕ, ◌==◌, Bool, true, false, Option, none, some, List, [], ◌∷◌, ◌++◌, any, not, all, if◌then◌else◌,
  ◌>>=◌, ◌≡◌, refl, arith, sym, ap, ◌∙◌,
}
use noxy.Http.{Bytes, text, get, Uri, Request}
use noxy.Forward.{to_str}

-- `h.split(':').next()`
pub before_colon : Bytes → Bytes
before_colon [] = []
before_colon (c ∷ cs) = if c == 58 then [] else c ∷ before_colon cs

abbrev pub or_header : Option Bytes → Option Bytes → Option Bytes
or_header none header = header
or_header (some host) header = some host

-- `extract_host` of block_list.rs.
unfoldable pub extract_host : (Uri → Option Bytes) → Request → Option Bytes
unfolding before_colon
extract_host uri_host req = do
  host ← or_header (uri_host req.uri) (get (text "host") req.headers >>= to_str)
  some (before_colon host)

abbrev pub or_unknown : Option Bytes → Bytes
or_unknown none = text "unknown"
or_unknown (some host) = host

-- `extract_host` of the three stores' modules: the key of a request.
pub host_key : (Uri → Option Bytes) → Request → Bytes
unfolding extract_host
host_key uri_host req = or_unknown (extract_host uri_host req)

before_colon-group :
    (group rest : Bytes)
    → all (λ c. not (c == 58)) group ≡ true
    → before_colon (group ++ 58 ∷ rest) ≡ group
unfolding before_colon
before_colon-group [] rest h = refl
before_colon-group (c ∷ cs) rest h = ground (arith, before_colon-group cs rest)

-- The host of a URI is cut at its first colon, also where it is an IPv6 address in brackets: requests to
-- two hosts that begin alike up to a colon have the same key, which names neither.
pub host_key-group :
    (uri_host : Uri → Option Bytes) (a b : Request) (group rest_a rest_b : Bytes)
    → all (λ c. not (c == 58)) group ≡ true
    → uri_host a.uri ≡ some (group ++ 58 ∷ rest_a)
    → uri_host b.uri ≡ some (group ++ 58 ∷ rest_b)
    → (host_key uri_host a ≡ group) × (host_key uri_host b ≡ group)
unfolding host_key
host_key-group uri_host a b group rest_a rest_b plain host_a host_b =
    rw (host_a, host_b)
      (before_colon-group group rest_a plain, before_colon-group group rest_b plain)
