-- ===== src/Headers/Tests.antt =====
-- modify_headers.rs: the values of a name after three operations.
use noxy.Common.{List, [], ◌∷◌, ◌≡◌}
use noxy.Http.{text, HeaderMap}
use noxy.Forward.{get_all}
use noxy.Headers.{bytes_eq, Op, set, append, remove_op, apply_ops}
use noxy.Headers.Values.{get_all-apply_ops}

abbrev headers : HeaderMap
headers = (text "via", text "a") ∷ (text "accept", text "*") ∷ (text "via", text "b") ∷ []

abbrev ops : List Op
ops = set (text "via") (text "c") ∷ append (text "via") (text "d") ∷ remove_op (text "accept") ∷ []

get_all-apply_ops_example : get_all (text "via") (apply_ops headers ops) ≡ text "c" ∷ text "d" ∷ []
unfolding noxy.Http.bytes_eq
get_all-apply_ops_example = get_all-apply_ops (text "via") headers ops
