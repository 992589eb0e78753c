-- ===== src/Http.antt =====
-- The messages of src/http.rs and of the `http` crate that the middleware passes along, and the type
-- of a tower service. Bytes are numbers; a header map is the list of its entries in order, its names
-- in the lower case that `HeaderName` keeps. A response body is its bytes: streaming, which the
-- modules that depend on it model for themselves, is left out here.
use Prim.Native.Char.{code}
use noxy.Common.{
  String, some, if◌then◌else◌, none, ℕ, Bool, true, false, ◌&&◌, Option, List, [], ◌∷◌, ◌==◌, ◌≡◌,
  ◌↔◌, refl, arith, ==_iff,
}

abbrev pub Bytes : Type 0
Bytes = List ℕ

unfoldable pub bytes_eq : Bytes → Bytes → Bool
bytes_eq [] [] = true
bytes_eq (a ∷ as') (b ∷ bs) = a == b && bytes_eq as' bs
bytes_eq _ _ = false

pub bytes_eq_iff : (xs ys : Bytes) → (bytes_eq xs ys ≡ true) ↔ (xs ≡ ys)
unfolding bytes_eq
bytes_eq_iff [] [] = (λ _. refl, λ _. refl)
bytes_eq_iff [] (b ∷ bs) = (λ h. cc, λ h. cc)
bytes_eq_iff (a ∷ as') [] = (λ h. cc, λ h. cc)
bytes_eq_iff (a ∷ as') (b ∷ bs) = ground (arith, bytes_eq_iff as' bs, ==_iff a b)

-- The bytes of an ASCII text.
abbrev pub text : String → Bytes
text String.[] = []
text (String.◌∷◌ c s) = code c ∷ text s

abbrev pub HeaderMap : Type 0
HeaderMap = List (Bytes × Bytes)

-- `HeaderMap::get`: the first value of a name.
unfoldable pub get : Bytes → HeaderMap → Option Bytes
unfolding bytes_eq
get name [] = none
get name ((n, v) ∷ headers) = if bytes_eq n name then some v else get name headers

pub record Uri : Type 0 where
  pub scheme : Option Bytes
  pub authority : Option Bytes
  pub path : Bytes
  pub query : Option Bytes

-- `UpstreamTarget`, the request extension that the router sets.
pub record UpstreamTarget : Type 0 where
  pub authority : Bytes
  pub scheme : Bytes

pub record Request : Type 0 where
  pub method : Bytes
  pub uri : Uri
  pub headers : HeaderMap
  pub target : Option UpstreamTarget
  pub body : Bytes

pub record Response : Type 0 where
  pub status : ℕ
  pub headers : HeaderMap
  pub body : Bytes

-- What a service's future resolves to; a `BoxError` is its message.
pub data Outcome : Type 0 where
  ok : Response → Outcome
  err : Bytes → Outcome

-- A service over the state `W` of everything below it: `HttpService`.
abbrev pub Service : Type 0 → Type 0
Service W = Request → W → Outcome × W

-- `Response::builder().status(status).body(full_body(body))`
abbrev pub plain_response : ℕ → Bytes → Response
plain_response status body = record { status = status; headers = []; body = body }
