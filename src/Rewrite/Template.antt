-- ===== src/Rewrite/Template.antt =====
-- What the parameters make of a template.
use mathlib.Core.List.{append_assoc}
use noxy.Common.{
  all-append, and_true, ℕ, ◌-◌, ◌==◌, Bool, true, false, not, ◌&&◌, List, [], ◌∷◌, ◌++◌, length,
  all, All, map, if◌then◌else◌, ◌≡◌, refl, sym, ap, ◌∙◌, arith, Bool-cases, inl, inr,
}
use noxy.Http.{Bytes, bytes_eq, bytes_eq_iff}
use noxy.Proxy.Credentials.{strip_prefix}
use noxy.Rewrite.{replace, replace_from, replace_params, placeholder, is_some}

-- A template as its literal parts and its placeholders.
pub data Token : Type 0 where
  literal : Bytes → Token
  hole : Bytes → Token

abbrev pub render_token : Token → Bytes
render_token (literal s) = s
render_token (hole key) = placeholder key

unfoldable pub render : List Token → Bytes
render [] = []
render (t ∷ ts) = render_token t ++ render ts

-- No brace opens in a literal, and none opens or closes in a name.
abbrev pub opens_none : Bytes → Bool
opens_none s = all (λ c. not (c == 123)) s

abbrev pub closes_none : Bytes → Bool
closes_none s = all (λ c. not (c == 125)) s

abbrev pub is_plain : Token → Bool
is_plain (literal s) = opens_none s
is_plain (hole key) = closes_none key && opens_none key

-- A parameter put into its placeholders.
unfoldable pub fill : Bytes → Bytes → Token → Token
fill key value (literal s) = literal s
fill key value (hole k) = if bytes_eq k key then literal value else hole k

-- A literal is left alone, whatever follows it.
replace-literal :
    (sought value : Bytes) (s rest : Bytes)
    → opens_none s ≡ true
    → replace_from (123 ∷ sought) value 0 (s ++ rest)
      ≡ s ++ replace_from (123 ∷ sought) value 0 rest
unfolding replace_from strip_prefix
replace-literal sought value [] rest h = refl
replace-literal sought value (c ∷ cs) rest h = ground (arith, replace-literal sought value cs rest)

-- Passing over what was matched.
replace-skip :
    (sought value : Bytes) (s rest : Bytes)
    → replace_from sought value (length s) (s ++ rest) ≡ replace_from sought value 0 rest
unfolding replace_from
replace-skip sought value [] rest = refl
replace-skip sought value (c ∷ cs) rest = replace-skip sought value cs rest

-- A placeholder's name is matched to the end.
prefix-name :
    (key k rest : Bytes)
    → closes_none key ≡ true
    → closes_none k ≡ true
    → is_some (strip_prefix (key ++ 125 ∷ []) (k ++ 125 ∷ rest)) ≡ bytes_eq k key
unfolding strip_prefix bytes_eq
prefix-name [] [] rest hk h = refl
prefix-name [] (d ∷ k) rest hk h = ground arith
prefix-name (c ∷ key) [] rest hk h = ground arith
prefix-name (c ∷ key) (d ∷ k) rest hk h = ground (arith, prefix-name key k rest)

strip_prefix-append : (a rest : Bytes) → is_some (strip_prefix a (a ++ rest)) ≡ true
unfolding strip_prefix
strip_prefix-append [] rest = refl
strip_prefix-append (c ∷ a) rest = ground (arith, strip_prefix-append a rest)

replace-hit :
    (sought value : Bytes) (c : ℕ) (cs : Bytes)
    → is_some (strip_prefix sought (c ∷ cs)) ≡ true
    → replace_from sought value 0 (c ∷ cs)
      ≡ value ++ replace_from sought value (length sought - 1) cs
unfolding replace_from
replace-hit sought value c cs h = ground arith

replace-miss :
    (sought value : Bytes) (c : ℕ) (cs : Bytes)
    → is_some (strip_prefix sought (c ∷ cs)) ≡ false
    → replace_from sought value 0 (c ∷ cs) ≡ c ∷ replace_from sought value 0 cs
unfolding replace_from
replace-miss sought value c cs h = ground arith

module _ (key value : Bytes) (closed : closes_none key ≡ true) where
  abbrev go : Bytes → Bytes
  go = replace_from (placeholder key) value 0

  replace-filled : (rest : Bytes) → go (placeholder key ++ rest) ≡ value ++ go rest
  unfolding strip_prefix
  replace-filled rest =
      replace-hit (placeholder key) value 123 ((key ++ 125 ∷ []) ++ rest)
        (strip_prefix-append (key ++ 125 ∷ []) rest)
      ∙ ap (λ n. value ++ replace_from (placeholder key) value n ((key ++ 125 ∷ []) ++ rest))
          (omega arith)
      ∙ ap (λ r. value ++ r) (replace-skip (placeholder key) value (key ++ 125 ∷ []) rest)

  replace-other :
      (k rest : Bytes)
      → closes_none k ≡ true
      → opens_none k ≡ true
      → bytes_eq k key ≡ false
      → go (placeholder k ++ rest) ≡ placeholder k ++ go rest
  unfolding strip_prefix
  replace-other k rest closed_k opened_k other =
      replace-miss (placeholder key) value 123 ((k ++ 125 ∷ []) ++ rest) (
        ap (λ s. is_some (strip_prefix (key ++ 125 ∷ []) s)) (append_assoc k (125 ∷ []) rest)
        ∙ prefix-name key k rest closed closed_k
        ∙ other)
      ∙ ap (◌∷◌ 123) (
          replace-literal (key ++ 125 ∷ []) value (k ++ 125 ∷ []) rest
            (all-append (λ c. not (c == 123)) k (125 ∷ []) opened_k refl))

  replace-token :
      (t : Token) (rest : Bytes)
      → is_plain t ≡ true
      → go (render_token t ++ rest) ≡ render_token (fill key value t) ++ go rest
  unfolding fill
  replace-token (literal s) rest plain = replace-literal (key ++ 125 ∷ []) value s rest plain
  replace-token (hole k) rest plain =
      let (closed_k, opened_k) = and_true plain in
      elim (Bool-cases (bytes_eq k key)) [
        | inl same ↦
            let e : k ≡ key = (bytes_eq_iff k key).0 same in
            rw same (ap (λ n. go (placeholder n ++ rest)) e ∙ replace-filled rest)
        | inr other ↦ rw other (replace-other k rest closed_k opened_k other)
      ]

  replace-render :
      (ts : List Token)
      → All (λ t. is_plain t ≡ true) ts
      → replace (placeholder key) value (render ts) ≡ render (map (fill key value) ts)
  unfolding replace render
  replace-render [] plain = refl
  replace-render (t ∷ ts) (plain, plains) =
      replace-token t (render ts) plain
      ∙ ap (λ r. render_token (fill key value t) ++ r) (replace-render ts plains)

fill-plain :
    (key value : Bytes) (ts : List Token)
    → opens_none value ≡ true
    → All (λ t. is_plain t ≡ true) ts
    → All (λ t. is_plain t ≡ true) (map (fill key value) ts)
unfolding fill
fill-plain key value [] opened plain = tt
fill-plain key value (literal s ∷ ts) opened (plain, plains) =
    (plain, fill-plain key value ts opened plains)
fill-plain key value (hole k ∷ ts) opened (plain, plains) = elim (Bool-cases (bytes_eq k key)) [
  | inl same ↦ (rw same opened, fill-plain key value ts opened plains)
  | inr other ↦ (rw other plain, fill-plain key value ts opened plains)
]

-- All parameters at once: the first of a name, if there is one.
unfoldable pub fill_all : List (Bytes × Bytes) → Token → Token
fill_all params (literal s) = literal s
fill_all [] (hole k) = hole k
fill_all ((key, value) ∷ params) (hole k) =
    if bytes_eq k key then literal value else fill_all params (hole k)

fill_all-fill :
    (key value : Bytes) (params : List (Bytes × Bytes)) (t : Token)
    → fill_all params (fill key value t) ≡ fill_all ((key, value) ∷ params) t
unfolding fill_all fill
fill_all-fill key value params (literal s) = ground arith
fill_all-fill key value params (hole k) = ground arith

map-fill_all :
    (key value : Bytes) (params : List (Bytes × Bytes)) (ts : List Token)
    → map (fill_all params) (map (fill key value) ts) ≡ map (fill_all ((key, value) ∷ params)) ts
map-fill_all key value params [] = refl
map-fill_all key value params (t ∷ ts) =
    λ i. fill_all-fill key value params t i ∷ map-fill_all key value params ts i

map-fill_none : (ts : List Token) → map (fill_all []) ts ≡ ts
unfolding fill_all
map-fill_none [] = refl
map-fill_none (literal s ∷ ts) = ap (◌∷◌ (literal s)) (map-fill_none ts)
map-fill_none (hole k ∷ ts) = ap (◌∷◌ (hole k)) (map-fill_none ts)

-- Parameters that can be put in one after the other: no name holds a closing brace, and no value an
-- opening one.
abbrev pub Harmless : Bytes × Bytes → Type 0
Harmless (key, value) = (closes_none key ≡ true) × (opens_none value ≡ true)

-- Take a template of literal parts without an opening brace and of placeholders whose names hold
-- neither brace, and parameters whose names hold no closing brace and whose values hold no opening one.
-- Putting the parameters into the template one after the other, as the code does, is then putting them
-- all in at once: each placeholder becomes the first value that was captured under its name, or stays
-- where none was, and the rest of the template is left alone.
pub replace_params-at_once :
    (params : List (Bytes × Bytes)) (ts : List Token)
    → All Harmless params
    → All (λ t. is_plain t ≡ true) ts
    → replace_params params (render ts) ≡ render (map (fill_all params) ts)
unfolding replace_params
replace_params-at_once [] ts harmless plain = ap render (sym (map-fill_none ts))
replace_params-at_once ((key, value) ∷ params) ts ((closed, opened), harmless) plain =
    ap (replace_params params) (replace-render key value closed ts plain)
    ∙ replace_params-at_once params (map (fill key value) ts) harmless
        (fill-plain key value ts opened plain)
    ∙ ap render (map-fill_all key value params ts)
