-- ===== src/Forward.antt =====
-- src/http.rs: the forwarding service, at the bottom of the stack of layers, and the headers that it
-- strips. The client and the construction of a URI are the hyper and http crates': arguments here.
pub mod Hop
pub mod Service
mod Tests
use noxy.Common.{
  filter_map, ℕ, ◌+◌, ◌==◌, Bool, true, false, not, ◌||◌, ◌&&◌, Option, none, some, List, [], ◌∷◌,
  ◌++◌, map, any, all, leb, ltb, if◌then◌else◌, filter,
}
use noxy.Http.{
  Bytes, bytes_eq, HeaderMap, Uri, UpstreamTarget, Request, Response, Outcome, ok, err, text,
  plain_response,
}

-- `HOP_BY_HOP_HEADERS`, and the two names that `strip_hop_by_hop` removes after them.
abbrev pub hop_by_hop_headers : List Bytes
hop_by_hop_headers =
    text "connection"
    ∷ text "te"
    ∷ text "trailer"
    ∷ text "transfer-encoding"
    ∷ text "upgrade"
    ∷ text "proxy-authenticate"
    ∷ text "proxy-authorization"
    ∷ []

abbrev pub connection : Bytes
connection = text "connection"

-- `HeaderMap::get_all` and `HeaderMap::remove`, of all values of a name. A map is a list of entries; the
-- values of one name have an order, as in the http crate. What order the entries of different names have
-- among each other is the crate's business, whose `remove` moves entries: no code here asks for it.
unfoldable pub get_all : Bytes → HeaderMap → List Bytes
get_all name [] = []
get_all name ((n, v) ∷ headers) =
    if bytes_eq n name then v ∷ get_all name headers else get_all name headers

unfoldable pub remove : Bytes → HeaderMap → HeaderMap
remove name [] = []
remove name ((n, v) ∷ headers) =
    if bytes_eq n name then remove name headers else (n, v) ∷ remove name headers

-- `value.to_str().ok()`: visible ASCII and tabs.
abbrev pub is_visible : ℕ → Bool
is_visible c = leb 32 c && ltb c 127 || c == 9

unfoldable pub to_str : Bytes → Option Bytes
to_str value = if all is_visible value then some value else none

abbrev prepend : ℕ → List Bytes → List Bytes
prepend c [] = (c ∷ []) ∷ []
prepend c (piece ∷ pieces) = (c ∷ piece) ∷ pieces

abbrev flat_map : (Bytes → List Bytes) → List Bytes → List Bytes
flat_map f [] = []
flat_map f (x ∷ xs) = f x ++ flat_map f xs

-- `value.split(',')`
pub split_commas : Bytes → List Bytes
split_commas [] = [] ∷ []
split_commas (c ∷ cs) = let rest = split_commas cs in if c == 44 then [] ∷ rest else prepend c rest

-- `token.trim()`, of visible ASCII and tabs.
abbrev pub is_blank : ℕ → Bool
is_blank c = c == 32 || c == 9

pub trim_start : Bytes → Bytes
trim_start [] = []
trim_start (c ∷ cs) = if is_blank c then trim_start cs else c ∷ cs

abbrev pub push_unless_blank : ℕ → Bytes → Bytes
push_unless_blank c [] = if is_blank c then [] else c ∷ []
push_unless_blank c (d ∷ ds) = c ∷ d ∷ ds

pub trim_end : Bytes → Bytes
trim_end [] = []
trim_end (c ∷ cs) = push_unless_blank c (trim_end cs)

pub trim : Bytes → Bytes
unfolding trim_start trim_end
trim s = trim_end (trim_start s)

abbrev pub to_lower : ℕ → ℕ
to_lower c = if leb 65 c && leb c 90 then c + 32 else c

-- The bytes that a header's name may have (RFC 9110, `token`).
abbrev pub is_token : ℕ → Bool
is_token c =
    leb 48 c && leb c 57
    || leb 65 c && leb c 90
    || leb 97 c && leb c 122
    || any (λ d. c == d) (text "!#$%&'*+-.^_`|~")

abbrev pub is_empty : Bytes → Bool
is_empty [] = true
is_empty (c ∷ cs) = false

-- `HeaderName::from_bytes(..).ok()`; names of 64 KiB and more, which it refuses too, do not occur in a
-- header that a connection has read.
pub from_bytes : Bytes → Option Bytes
from_bytes name =
    if not (is_empty name) && all is_token name then some (map to_lower name) else none

-- The tokens of all `Connection` headers.
pub connection_tokens : HeaderMap → List Bytes
unfolding get_all to_str split_commas
connection_tokens headers = flat_map split_commas (filter_map to_str (get_all connection headers))

-- `connection_named`
pub connection_named : HeaderMap → List Bytes
unfolding connection_tokens trim from_bytes
connection_named headers = filter_map (λ t. from_bytes (trim t)) (connection_tokens headers)

abbrev pub remove_each : List Bytes → HeaderMap → HeaderMap
remove_each [] headers = headers
remove_each (name ∷ names) headers = remove_each names (remove name headers)

pub strip_hop_by_hop : HeaderMap → HeaderMap
strip_hop_by_hop headers = remove (text "proxy-connection") (
    remove (text "keep-alive")
      (remove_each hop_by_hop_headers (remove_each (connection_named headers) headers)))

pub requests_upgrade : HeaderMap → Bool
unfolding connection_tokens trim
requests_upgrade headers =
    any (λ t. bytes_eq (map to_lower (trim t)) (text "upgrade")) (connection_tokens headers)
