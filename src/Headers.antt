-- ===== src/Headers.antt =====
-- src/middleware/modify_headers.rs. A name is in lower case, as `HeaderName` keeps it. A panic of
-- `expect`, on an invalid name or value, is `none`.
pub mod Values
mod Tests
use noxy.Common.{
  ℕ, ◌==◌, ◌||◌, ◌&&◌, Bool, true, false, Option, none, some, List, [], ◌∷◌, ◌++◌, leb, ltb, not,
  all, if◌then◌else◌, ◌>>=◌,
}
use noxy.Http.{Bytes, bytes_eq, HeaderMap, Request, Response, Outcome, ok, err, Service}
use noxy.Forward.{from_bytes, remove}

pub data Op : Type 0 where
  set append : Bytes → Bytes → Op
  remove_op : Bytes → Op

pub data Phase : Type 0 where
  request_phase response_phase : Phase

pub record ModifyHeaders : Type 0 where
  pub ops : List (Phase × Op)

pub new_headers : ModifyHeaders
new_headers = record { ops = [] }

pub push : ModifyHeaders → Phase → Op → ModifyHeaders
push m phase op = record { ops = m.ops ++ (phase, op) ∷ [] }

-- `HeaderValue::from_str`: no control characters but tabs.
pub parse_value : Bytes → Option Bytes
parse_value value =
    if all (λ c. leb 32 c && not (c == 127) || c == 9) value then some value else none

-- `set_request` and `set_response`.
pub set_header : ModifyHeaders → Phase → Bytes → Bytes → Option ModifyHeaders
unfolding push parse_value
set_header m phase name value = do
  n ← from_bytes name
  v ← parse_value value
  some (push m phase (set n v))

-- `append_request` and `append_response`.
pub append_header : ModifyHeaders → Phase → Bytes → Bytes → Option ModifyHeaders
unfolding push parse_value
append_header m phase name value = do
  n ← from_bytes name
  v ← parse_value value
  some (push m phase (append n v))

-- `remove_request` and `remove_response`.
pub remove_header : ModifyHeaders → Phase → Bytes → Option ModifyHeaders
unfolding push
remove_header m phase name = do n ← from_bytes name; some (push m phase (remove_op n))

-- `HeaderMap::insert`: the value takes the place of all values of the name. What order the names have
-- among each other is the map's business, and no code asks for it.
pub insert : Bytes → Bytes → HeaderMap → HeaderMap
insert name value headers = remove name headers ++ (name, value) ∷ []

pub apply_op : HeaderMap → Op → HeaderMap
unfolding insert
apply_op headers (set name value) = insert name value headers
apply_op headers (append name value) = headers ++ (name, value) ∷ []
apply_op headers (remove_op name) = remove name headers

pub apply_ops : HeaderMap → List Op → HeaderMap
unfolding apply_op
apply_ops headers [] = headers
apply_ops headers (op ∷ ops) = apply_ops (apply_op headers op) ops

-- The two loops of `layer`, by phase.
abbrev pub push_if : Phase → Phase × Op → List Op → List Op
push_if request_phase (request_phase, op) ops = op ∷ ops
push_if request_phase (response_phase, op) ops = ops
push_if response_phase (request_phase, op) ops = ops
push_if response_phase (response_phase, op) ops = op ∷ ops

pub ops_of : Phase → List (Phase × Op) → List Op
ops_of phase [] = []
ops_of phase (op ∷ ops) = push_if phase op (ops_of phase ops)

pub on_response : List Op → Outcome → Outcome
unfolding apply_ops
on_response ops (err e) = err e
on_response ops (ok resp) = ok (record resp { headers = apply_ops resp.headers ops })

-- `ModifyHeadersService::call`
pub call : {W : Type 0} → ModifyHeaders → Service W → Service W
unfolding ops_of on_response apply_ops
call m inner req w =
    let (outcome, w') =
      inner (record req { headers = apply_ops req.headers (ops_of request_phase m.ops) }) w in
    (on_response (ops_of response_phase m.ops) outcome, w')
