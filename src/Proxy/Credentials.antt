-- ===== src/Proxy/Credentials.antt =====
-- lib.rs, `credentials_match` and the reading of the `Proxy-Authorization` header. The base64 decoder is
-- a library's, an argument.
use mathlib.Core.List.{Mem, mem-cons, not-mem-nil}
use mathlib.Core.Logic.Or
use noxy.Common.{
  inl, inr, and_true, Bool-cases, Bool-cases, and_true, ℕ, ◌==◌, Bool, true, false, ◌&&◌, ◌||◌,
  Option, none, some, List, [], ◌∷◌, leb, ltb, if◌then◌else◌, ◌>>=◌, ◌≡◌, ◌↔◌, refl, sym,
}
use noxy.Http.{Bytes, bytes_eq, bytes_eq_iff, text, get, Request}
use noxy.Forward.{to_str}

-- The loop of `credentials_match`: `Choice`'s `|=` and `&` do not stop early.
unfoldable pub match_from : Bool → List (Bytes × Bytes) → Bytes → Bytes → Bool
unfolding bytes_eq
match_from matched [] user pass = matched
match_from matched ((expected_user, expected_pass) ∷ credentials) user pass =
    match_from (matched || bytes_eq expected_user user && bytes_eq expected_pass pass) credentials
      user pass

-- `credentials_match`
unfoldable pub credentials_match : List (Bytes × Bytes) → Bytes → Bytes → Bool
unfolding match_from
credentials_match credentials user pass = match_from false credentials user pass

-- `strip_prefix`
unfoldable pub strip_prefix : Bytes → Bytes → Option Bytes
strip_prefix [] s = some s
strip_prefix (c ∷ prefix) [] = none
strip_prefix (c ∷ prefix) (d ∷ s) = if c == d then strip_prefix prefix s else none

-- `split_once`, of one character.
unfoldable pub split_once : ℕ → Bytes → Option (Bytes × Bytes)
split_once c [] = none
split_once c (b ∷ bs) =
    let rest = split_once c bs in
    if b == c then some ([], bs) else elim rest [ none ↦ none | some (l, r) ↦ some (b ∷ l, r) ]

-- The ranges of the bytes that follow a leading byte of UTF-8.
abbrev tail_byte : ℕ × ℕ
tail_byte = (128, 191)

unfoldable pub continuation : ℕ → Option (List (ℕ × ℕ))
continuation b =
    if ltb b 128
    then some []
    else if leb 194 b && leb b 223
    then some (tail_byte ∷ [])
    else if b == 224
    then some ((160, 191) ∷ tail_byte ∷ [])
    else if b == 237
    then some ((128, 159) ∷ tail_byte ∷ [])
    else if leb 225 b && leb b 239
    then some (tail_byte ∷ tail_byte ∷ [])
    else if b == 240
    then some ((144, 191) ∷ tail_byte ∷ tail_byte ∷ [])
    else if leb 241 b && leb b 243
    then some (tail_byte ∷ tail_byte ∷ tail_byte ∷ [])
    else if b == 244
    then some ((128, 143) ∷ tail_byte ∷ tail_byte ∷ [])
    else none

unfoldable pub is_utf8 : List (ℕ × ℕ) → Bytes → Bool
unfolding continuation
is_utf8 [] [] = true
is_utf8 (_ ∷ _) [] = false
is_utf8 [] (b ∷ bs) = elim (continuation b) [ none ↦ false | some ranges ↦ is_utf8 ranges bs ]
is_utf8 ((lo, hi) ∷ ranges) (b ∷ bs) = leb lo b && leb b hi && is_utf8 ranges bs

-- `String::from_utf8(..).ok()`
unfoldable pub from_utf8 : Bytes → Option Bytes
unfolding is_utf8
from_utf8 bytes = if is_utf8 [] bytes then some bytes else none

abbrev pub unwrap_or_false : Option Bool → Bool
unwrap_or_false none = false
unwrap_or_false (some b) = b

module _ (decode : Bytes → Option Bytes) where
  -- The user and the password that the header holds, where it holds any.
  unfoldable pub basic_credentials : Request → Option (Bytes × Bytes)
  unfolding strip_prefix split_once from_utf8
  basic_credentials req = do
    v ← get (text "proxy-authorization") req.headers
    auth ← to_str v
    b64 ← strip_prefix (text "Basic ") auth
    bytes ← decode b64
    decoded ← from_utf8 bytes
    split_once 58 decoded

  -- `authenticated`
  unfoldable pub authenticated : List (Bytes × Bytes) → Request → Bool
  unfolding basic_credentials credentials_match
  authenticated creds req =
      unwrap_or_false (do (u, p) ← basic_credentials req; some (credentials_match creds u p))

match_from-true :
    (credentials : List (Bytes × Bytes)) (user pass : Bytes)
    → match_from true credentials user pass ≡ true
unfolding match_from
match_from-true [] user pass = refl
match_from-true (c ∷ credentials) user pass = match_from-true credentials user pass

pairs_equal :
    (u p user pass : Bytes)
    → (bytes_eq u user && bytes_eq p pass) ≡ true
    → ◌≡◌ {A = Bytes × Bytes} (user, pass) (u, p)
pairs_equal u p user pass h =
    let (same_user, same_pass) = and_true h in
    let e : u ≡ user = (bytes_eq_iff u user).0 same_user in
    let f : p ≡ pass = (bytes_eq_iff p pass).0 same_pass in λ i. (sym e i, sym f i)

equal_pairs :
    (u p user pass : Bytes)
    → ◌≡◌ {A = Bytes × Bytes} (user, pass) (u, p)
    → (bytes_eq u user && bytes_eq p pass) ≡ true
equal_pairs u p user pass e =
    let same_user : bytes_eq u user ≡ true = (bytes_eq_iff u user).1 (λ i. (sym e i).0) in
    let same_pass : bytes_eq p pass ≡ true = (bytes_eq_iff p pass).1 (λ i. (sym e i).1) in
    rw (same_user, same_pass)

-- The loop over all credentials accepts a user and a password exactly when they are one of the pairs.
pub credentials_match_iff :
    (credentials : List (Bytes × Bytes)) (user pass : Bytes)
    → (credentials_match credentials user pass ≡ true) ↔ Mem (user, pass) credentials
unfolding credentials_match match_from
credentials_match_iff [] user pass = (λ h. cc, λ m. absurd (not-mem-nil m))
credentials_match_iff ((u, p) ∷ credentials) user pass =
    elim (Bool-cases (bytes_eq u user && bytes_eq p pass)) [
      | inl same ↦ (
        λ h. mem-cons.1 (Or.inl (pairs_equal u p user pass same)),
        λ m. rw same (match_from-true credentials user pass),
      )
      | inr other ↦ (
        λ h. mem-cons.1 (Or.inr ((credentials_match_iff credentials user pass).0 (rw other at h))),
        λ m. rw other (
            Or.elim (hlevel) (mem-cons.0 m) (λ e. cc (equal_pairs u p user pass e))
              (λ r. (credentials_match_iff credentials user pass).1 r)),
      )
    ]
