-- ===== src/Headers/Values.antt =====
-- modify_headers.rs: what the operations do to the values of each name.
use mathlib.Core.List.{append-nil}
use noxy.Common.{Bool, true, false, List, [], ◌∷◌, ◌++◌, if◌then◌else◌, ◌≡◌, refl, ap, ◌∙◌, arith}
use noxy.Http.{Bytes, bytes_eq, bytes_eq_iff, HeaderMap}
use noxy.Forward.{get_all, remove}
use noxy.Headers.{Op, set, append, remove_op, apply_op, apply_ops}

-- The values of one name, as the operations change them: set to one, joined by one, or removed.
abbrev pub change : Bytes → List Bytes → Op → List Bytes
change name values (set n v) = if bytes_eq n name then v ∷ [] else values
change name values (append n v) = if bytes_eq n name then values ++ v ∷ [] else values
change name values (remove_op n) = if bytes_eq n name then [] else values

abbrev pub changes : Bytes → List Bytes → List Op → List Bytes
changes name values [] = values
changes name values (op ∷ ops) = changes name (change name values op) ops

get_all-append :
    (name : Bytes) (xs ys : HeaderMap)
    → get_all name (xs ++ ys) ≡ get_all name xs ++ get_all name ys
unfolding get_all
get_all-append name [] ys = refl
get_all-append name ((n, v) ∷ xs) ys = ground (arith, get_all-append name xs ys)

get_all-remove :
    (name n : Bytes) (headers : HeaderMap)
    → get_all name (remove n headers) ≡ (if bytes_eq n name then [] else get_all name headers)
unfolding get_all remove
get_all-remove name n [] = ground arith
get_all-remove name n ((m, v) ∷ headers) = ground (
  arith,
  get_all-remove name n headers,
  bytes_eq_iff m n,
  bytes_eq_iff m name,
  bytes_eq_iff n name,
)

set_or_kept :
    (b : Bool) (v : Bytes) (values : List Bytes)
    → (if b then [] else values) ++ (if b then v ∷ [] else []) ≡ (if b then v ∷ [] else values)
set_or_kept true v values = refl
set_or_kept false v values = append-nil values

get_all-apply_op :
    (name : Bytes) (headers : HeaderMap) (op : Op)
    → get_all name (apply_op headers op) ≡ change name (get_all name headers) op
unfolding apply_op get_all
get_all-apply_op name headers (set n v) =
    get_all-append name (remove n headers) ((n, v) ∷ [])
    ∙ ap (λ values. values ++ get_all name ((n, v) ∷ [])) (get_all-remove name n headers)
    ∙ set_or_kept (bytes_eq n name) v (get_all name headers)
get_all-apply_op name headers (append n v) =
    ground (arith, get_all-append name headers ((n, v) ∷ []), append-nil (get_all name headers))
get_all-apply_op name headers (remove_op n) = get_all-remove name n headers

-- For every name, the values after a list of operations are the values before it, changed by the
-- operations on that name in their order, and by no other.
pub get_all-apply_ops :
    (name : Bytes) (headers : HeaderMap) (ops : List Op)
    → get_all name (apply_ops headers ops) ≡ changes name (get_all name headers) ops
unfolding apply_ops
get_all-apply_ops name headers [] = refl
get_all-apply_ops name headers (op ∷ ops) =
    get_all-apply_ops name (apply_op headers op) ops
    ∙ ap (λ values. changes name values ops) (get_all-apply_op name headers op)
