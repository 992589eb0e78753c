-- ===== src/Config/Matching.antt =====
-- config.rs, `MatchSpec` and `PathMatcher`: the predicate of a match.
use noxy.Common.{
  ℕ, ◌-◌, Bool, true, false, ◌&&◌, ◌||◌, Option, none, some, List, [], ◌∷◌, ◌++◌, map, any, all,
  if◌then◌else◌, leb, ◌==◌,
}
use noxy.Http.{Bytes, bytes_eq, text, get, Request}
use noxy.Forward.{to_str, from_bytes}
use noxy.Host.{extract_host}
use noxy.Config.{
  Result, ok, invalid_glob, invalid_method, invalid_header_name, ◌>>=◌, ok_or, transpose, collect,
  Libraries, HeaderMatch,
}

abbrev pub Predicate : Type 0
Predicate = Request → Bool

-- A compiled glob is the test of `GlobMatcher::is_match`.
pub data PathMatcher : Type 0 where
  glob : (Bytes → Bool) → PathMatcher
  subtree : Bytes → (Bytes → Bool) → PathMatcher

-- `PathMatcher::is_match`
unfoldable pub path_matches : PathMatcher → Bytes → Bool
path_matches (glob g) path = g path
path_matches (subtree prefix g) path = bytes_eq path prefix || g path

-- `str::strip_suffix` of one character.
unfoldable pub strip_suffix : ℕ → Bytes → Option Bytes
strip_suffix c [] = none
strip_suffix c (b ∷ []) = if b == c then some [] else none
strip_suffix c (b ∷ bs) = elim (strip_suffix c bs) [ none ↦ none | some s ↦ some (b ∷ s) ]

abbrev pub to_upper : Bytes → Bytes
to_upper = map (λ c. if leb 97 c && leb c 122 then c - 32 else c)

pub record MatchSpec : Type 0 where
  pub host : Option Bytes
  pub path : Option Bytes
  pub methods : List Bytes
  pub header : Option (Bytes × Bytes)

abbrev pub default_spec : MatchSpec
default_spec = record { host = none; path = none; methods = []; header = none }

abbrev pub list_of {ℓ} : {A : Type ℓ} → Option A → List A
list_of none = []
list_of (some a) = a ∷ []

abbrev header_pair : Option HeaderMatch → Option (Bytes × Bytes)
header_pair none = none
header_pair (some h) = some (h.name, h.value)

-- `MatchSpec::from_general`
unfoldable pub from_general :
    Option Bytes → Option Bytes → Option Bytes → Option HeaderMatch → MatchSpec
from_general host path method header = record {
  host = host;
  path = path;
  methods = list_of method;
  header = header_pair header;
}

abbrev pub is_none {ℓ} : {A : Type ℓ} → Option A → Bool
is_none none = true
is_none (some _) = false

abbrev pub is_empty {ℓ} : {A : Type ℓ} → List A → Bool
is_empty [] = true
is_empty (_ ∷ _) = false

-- A test of an optional value, false without one.
abbrev pub is_some_and : Option Bytes → (Bytes → Bool) → Bool
is_some_and none test = false
is_some_and (some v) test = test v

module _ (l : Libraries) where
  unfoldable pub compile_glob : Bytes → Result (Bytes → Bool)
  compile_glob pattern = ok_or (invalid_glob pattern) (l.compile_glob pattern)

  unfoldable pub compile_path_glob : Bytes → Result PathMatcher
  unfolding compile_glob strip_suffix
  compile_path_glob pattern = elim (strip_suffix 47 pattern) [
    | some stripped ↦ do g ← compile_glob (stripped ++ text "/**"); ok (subtree stripped g)
    | none ↦ do g ← compile_glob pattern; ok (glob g)
  ]

  compile_header : Bytes × Bytes → Result (Bytes × (Bytes → Bool))
  unfolding compile_glob
  compile_header (name, value) = do
    n ← ok_or (invalid_header_name name) (from_bytes name)
    g ← compile_glob value
    ok (n, g)

  compile_method : Bytes → Result Bytes
  compile_method m = ok_or (invalid_method m) (l.method_from_bytes (to_upper m))

  abbrev pub host_test : Option (Bytes → Bool) → Request → Bool
  host_test none req = true
  host_test (some m) req = is_some_and (extract_host l.uri_host req) m

  abbrev pub header_test : Option (Bytes × (Bytes → Bool)) → Request → Bool
  header_test none req = true
  header_test (some (name, g)) req = elim (get name req.headers) [
    | none ↦ false
    | some v ↦ is_some_and (to_str v) g
  ]

  abbrev pub path_test : Option PathMatcher → Request → Bool
  path_test none req = true
  path_test (some m) req = path_matches m req.uri.path

  -- The closure of `into_predicate`; each early `return false` is a factor.
  unfoldable pub accepts :
      List Bytes
      → Option (Bytes → Bool)
      → Option (Bytes × (Bytes → Bool))
      → Option PathMatcher
      → Predicate
  unfolding path_matches
  accepts methods host_matcher header_matcher path_matcher req =
      (is_empty methods || any (λ m. bytes_eq m req.method) methods)
      && (host_test host_matcher req
          && (header_test header_matcher req && path_test path_matcher req))

  -- `MatchSpec::into_predicate`; a specification of nothing has no predicate.
  unfoldable pub into_predicate : MatchSpec → Result (Option Predicate)
  unfolding compile_glob compile_path_glob compile_header compile_method accepts
  into_predicate spec =
      if is_none spec.host && is_none spec.path && is_empty spec.methods && is_none spec.header
      then ok none
      else do
        host_matcher ← transpose compile_glob spec.host
        path_matcher ← transpose compile_path_glob spec.path
        methods ← collect compile_method spec.methods
        header_matcher ← transpose compile_header spec.header
        ok (some (accepts methods host_matcher header_matcher path_matcher))

-- `and_predicates`
unfoldable pub and_predicates : List Predicate → Option Predicate
and_predicates [] = none
and_predicates (p ∷ []) = some p
and_predicates preds = some (λ req. all (λ p. p req) preds)
