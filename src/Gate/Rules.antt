-- ===== src/Gate/Rules.antt =====
-- conditional.rs and block_list.rs: which requests a layer takes.
use mathlib.Core.Path.{subst}
use noxy.Common.{
  Bool, true, false, ◌||◌, Option, none, some, List, [], ◌∷◌, ◌++◌, All, any, if◌then◌else◌, ◌>>=◌,
  ◌≡◌, refl, sym, ap, ◌∙◌, inl, inr, Option-cases,
}
use noxy.Http.{Bytes, Uri, Request, ok, Service}
use noxy.Host.{extract_host}
use noxy.Gate.{Layer, Rule, conditional, BlockList, new_block_list, host_matches, host, path, block}

-- The first rule that matches a request applies its layer to the inner service, and no other rule has a
-- part in it; a request that no rule matches goes to the inner service as it is.
pub conditional-first :
    {W : Type 0} (before after : List (Rule W)) (predicate : Request → Bool) (layer : Layer W)
    (inner : Service W) (req : Request) (w : W)
    → All (λ r. r.0 req ≡ false) before
    → predicate req ≡ true
    → (conditional (before ++ (predicate, layer) ∷ after) inner req w ≡ layer inner req w)
      × (conditional before inner req w ≡ inner req w)
unfolding conditional
conditional-first [] after predicate layer inner req w none_before matches = (rw matches refl, refl)
conditional-first ((p, l) ∷ before) after predicate layer inner req w (not_this, none_before)
      matches =
    rw not_this (conditional-first before after predicate layer inner req w none_before matches)

pub data Pattern : Type 0 where
  host_pattern path_pattern : Bytes → Pattern

or_false : (a : Bool) → a ≡ (a || false)
or_false true = refl
or_false false = refl

or_assoc : (a b c : Bool) → ((a || b) || c) ≡ (a || (b || c))
or_assoc true b c = refl
or_assoc false b c = refl

module _ (compile_glob : Bytes → Option (Bytes → Bool)) (uri_host : Uri → Option Bytes) where
  abbrev pub add : BlockList → Pattern → Option BlockList
  add b (host_pattern p) = host compile_glob uri_host b p
  add b (path_pattern p) = path compile_glob uri_host b p

  -- A chain of `host` and `path` calls; an invalid pattern ends it.
  unfoldable pub add_all : BlockList → List Pattern → Option BlockList
  add_all b [] = some b
  add_all b (p ∷ ps) = add b p >>= λ b'. add_all b' ps

  abbrev is_match : Option (Bytes → Bool) → Option Bytes → Bool
  is_match none subject = false
  is_match (some m) subject = host_matches compile_glob uri_host m subject

  -- Whether one pattern, compiled on its own, matches a request.
  abbrev pub matches : Request → Pattern → Bool
  matches req (host_pattern p) = is_match (compile_glob p) (extract_host uri_host req)
  matches req (path_pattern p) = is_match (compile_glob p) (some req.uri.path)

  add-matches :
      (b b' : BlockList) (p : Pattern) (req : Request)
      → add b p ≡ some b'
      → (b'.is_blocked req ≡ (b.is_blocked req || matches req p)) × (b'.respond ≡ b.respond)
  unfolding host path
  add-matches b b' (host_pattern p) req added = elim (Option-cases (compile_glob p)) [
    | inl invalid ↦ let never = rw invalid at added in cc
    | inr (m, compiled) ↦
        let made = rw compiled at added in
        let same : record b {
          is_blocked =
              λ r. b.is_blocked r || host_matches compile_glob uri_host m (extract_host uri_host r);
        }
            ≡ b' =
          cc in
        rw compiled (
          subst
            (λ x.
              (x.is_blocked req
                ≡ (b.is_blocked req || is_match (some m) (extract_host uri_host req)))
              × (x.respond ≡ b.respond))
            same (refl, refl))
  ]
  add-matches b b' (path_pattern p) req added = elim (Option-cases (compile_glob p)) [
    | inl invalid ↦ let never = rw invalid at added in cc
    | inr (m, compiled) ↦
        let made = rw compiled at added in
        let same : record b { is_blocked = λ r. b.is_blocked r || m r.uri.path } ≡ b' = cc in
        rw compiled (
          subst
            (λ x.
              (x.is_blocked req ≡ (b.is_blocked req || m req.uri.path)) × (x.respond ≡ b.respond))
            same (refl, refl))
  ]

  add_all-matches :
      (b b' : BlockList) (ps : List Pattern) (req : Request)
      → add_all b ps ≡ some b'
      → b'.is_blocked req ≡ (b.is_blocked req || any (matches req) ps)
  unfolding add_all
  add_all-matches b b' [] req built =
      let same : b ≡ b' = cc in ap (λ x. x.is_blocked req) (sym same) ∙ or_false (b.is_blocked req)
  add_all-matches b b' (p ∷ ps) req built = elim (Option-cases (add b p)) [
    | inl invalid ↦ let never = rw invalid at built in cc
    | inr (b'', added) ↦
        let rest = rw added at built in
        add_all-matches b'' b' ps req rest
        ∙ ap (λ t. t || any (matches req) ps) (add-matches b b'' p req added).0
        ∙ or_assoc (b.is_blocked req) (matches req p) (any (matches req) ps)
  ]

  -- A block list that was built from host and path patterns answers exactly the requests that one of the
  -- patterns matches, with its own response and without calling the inner service; all others go on.
  pub block-matches :
      {W : Type 0} (patterns : List Pattern) (b : BlockList) (inner : Service W) (req : Request)
      (w : W)
      → add_all new_block_list patterns ≡ some b
      → block b inner req w
        ≡ (if any (matches req) patterns then (ok (b.respond req), w) else inner req w)
  unfolding block new_block_list
  block-matches patterns b inner req w built =
      ap (λ t. if t then (ok (b.respond req), w) else inner req w)
        (add_all-matches new_block_list b patterns req built)
