-- ===== src/Forward/Hop.antt =====
-- http.rs: no standard hop-by-hop header is left of a message.
use noxy.Common.{All, Bool, false, ◌||◌, List, [], ◌∷◌, any, ◌≡◌, refl, arith, Bool-cases, inl, inr}
use noxy.Http.{Bytes, bytes_eq, HeaderMap, text}
use noxy.Forward.{remove, remove_each, connection_named, strip_hop_by_hop, hop_by_hop_headers}

-- Whether a name is one of a list's.
abbrev pub is_one_of : List Bytes → Bytes → Bool
is_one_of names n = any (λ name. bytes_eq n name) names

-- The names of RFC 9110 and its predecessors that are of one connection only.
abbrev pub standard_names : List Bytes
standard_names =
    text "connection"
    ∷ text "te"
    ∷ text "trailer"
    ∷ text "transfer-encoding"
    ∷ text "upgrade"
    ∷ text "proxy-authenticate"
    ∷ text "proxy-authorization"
    ∷ text "keep-alive"
    ∷ text "proxy-connection"
    ∷ []

-- No header of a message has one of the names.
abbrev Without : List Bytes → HeaderMap → Type 0
Without names headers = All (λ h. is_one_of names h.0 ≡ false) headers

-- No header of a message has one of the standard hop-by-hop names.
abbrev pub NoStandard : HeaderMap → Type 0
NoStandard headers = All (λ h. is_one_of standard_names h.0 ≡ false) headers

remove-All :
    (P : Bytes × Bytes → Type 0) (name : Bytes) (headers : HeaderMap)
    → All P headers
    → All P (remove name headers)
unfolding remove
remove-All P name [] kept = tt
remove-All P name ((n, v) ∷ headers) (p, kept) = elim (Bool-cases (bytes_eq n name)) [
  | inl same ↦ rw same (remove-All P name headers kept)
  | inr other ↦ rw other (p, remove-All P name headers kept)
]

remove-Without :
    (name : Bytes) (headers : HeaderMap)
    → All (λ h. bytes_eq h.0 name ≡ false) (remove name headers)
unfolding remove
remove-Without name [] = tt
remove-Without name ((n, v) ∷ headers) = elim (Bool-cases (bytes_eq n name)) [
  | inl same ↦ rw same (remove-Without name headers)
  | inr other ↦ rw other (other, remove-Without name headers)
]

remove_each-All :
    (P : Bytes × Bytes → Type 0) (names : List Bytes) (headers : HeaderMap)
    → All P headers
    → All P (remove_each names headers)
remove_each-All P [] headers kept = kept
remove_each-All P (name ∷ names) headers kept =
    remove_each-All P names (remove name headers) (remove-All P name headers kept)

All-both :
    (P Q R : Bytes × Bytes → Type 0)
    → ((h : Bytes × Bytes) → P h → Q h → R h)
    → (headers : HeaderMap) → All P headers
    → All Q headers
    → All R headers
All-both P Q R both [] ps qs = tt
All-both P Q R both (h ∷ headers) (p, ps) (q, qs) = (both h p q, All-both P Q R both headers ps qs)

neither : (a b : Bool) → a ≡ false → b ≡ false → (a || b) ≡ false
neither a b none_left none_right = rw (none_left, none_right) refl

all_pass : (headers : HeaderMap) → Without [] headers
all_pass [] = tt
all_pass (h ∷ headers) = (refl, all_pass headers)

remove_each-Without :
    (names : List Bytes) (headers : HeaderMap) → Without names (remove_each names headers)
remove_each-Without [] headers = all_pass headers
remove_each-Without (name ∷ names) headers =
    All-both (λ h. bytes_eq h.0 name ≡ false) (λ h. is_one_of names h.0 ≡ false)
      (λ h. is_one_of (name ∷ names) h.0 ≡ false) (λ h. neither _ _)
      (remove_each names (remove name headers))
      (remove_each-All (λ h. bytes_eq h.0 name ≡ false) names (remove name headers)
        (remove-Without name headers))
      (remove_each-Without names (remove name headers))

-- The seven names of the source's list, and the two that it removes besides.
all_names :
    (n : Bytes)
    → is_one_of hop_by_hop_headers n ≡ false
    → bytes_eq n (text "keep-alive") ≡ false
    → bytes_eq n (text "proxy-connection") ≡ false
    → is_one_of standard_names n ≡ false
all_names n seven keep_alive proxy_connection = ground (arith, seven, keep_alive, proxy_connection)

pub strip_hop_by_hop-NoStandard : (headers : HeaderMap) → NoStandard (strip_hop_by_hop headers)
unfolding strip_hop_by_hop
strip_hop_by_hop-NoStandard headers =
    let seven = remove_each hop_by_hop_headers (remove_each (connection_named headers) headers) in
    let eight = remove (text "keep-alive") seven in
    let P = λ (h : Bytes × Bytes). is_one_of hop_by_hop_headers h.0 ≡ false in
    let Q = λ (h : Bytes × Bytes). bytes_eq h.0 (text "keep-alive") ≡ false in
    let R = λ (h : Bytes × Bytes). bytes_eq h.0 (text "proxy-connection") ≡ false in
    All-both (λ h. P h × Q h) R (λ h. is_one_of standard_names h.0 ≡ false)
      (λ h (p, q) r. all_names h.0 p q r) (remove (text "proxy-connection") eight)
      (remove-All (λ h. P h × Q h) (text "proxy-connection") eight
        (All-both P Q (λ h. P h × Q h) (λ h p q. (p, q)) eight
          (remove-All P (text "keep-alive") seven (
            remove_each-Without hop_by_hop_headers
              (remove_each (connection_named headers) headers)))
          (remove-Without (text "keep-alive") seven)))
      (remove-Without (text "proxy-connection") eight)
