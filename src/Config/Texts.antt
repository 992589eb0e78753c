-- ===== src/Config/Texts.antt =====
-- config.rs, the texts in a configuration that stand for something else: durations, ranges of them, and
-- lists of names. White space is that of ASCII; durations are nanoseconds.
pub mod Durations
use noxy.Common.{
  ℕ, zero, suc, ◌+◌, ◌-◌, ◌*◌, ◌^◌, ◌==◌, Bool, true, false, not, ◌&&◌, ◌||◌, Option, none, some,
  List, [], ◌∷◌, map, filter, leb, ltb, if◌then◌else◌,
}
use noxy.Http.{Bytes, text}
use noxy.Gate.{Delay, fixed, uniform}
use noxy.Proxy.Credentials.{strip_prefix}
use noxy.Retry.Backoff.{parse_u64}
use noxy.Config.{Result, ok, err, invalid_duration, invalid_method, panicked, ◌>>=◌, ok_or, collect}
use noxy.Config.Matching.{strip_suffix, is_empty, to_upper}

-- `char::is_whitespace`
abbrev pub is_space : ℕ → Bool
is_space c = leb 9 c && leb c 13 || c == 32

unfoldable pub trim_start : Bytes → Bytes
trim_start [] = []
trim_start (c ∷ cs) = let rest = trim_start cs in if is_space c then rest else c ∷ cs

unfoldable pub trim_end : Bytes → Bytes
trim_end [] = []
trim_end (c ∷ cs) = let rest = trim_end cs in if is_space c && is_empty rest then [] else c ∷ rest

-- `str::trim`
unfoldable pub trim : Bytes → Bytes
unfolding trim_start trim_end
trim s = trim_end (trim_start s)

-- `strip_suffix("ms")`
unfoldable pub strip_ms : Bytes → Option Bytes
unfolding strip_suffix
strip_ms s = elim (strip_suffix 115 s) [ none ↦ none | some rest ↦ strip_suffix 109 rest ]

-- `split_once("..")`
unfoldable pub split_range : Bytes → Option (Bytes × Bytes)
unfolding strip_prefix
split_range [] = none
split_range (c ∷ cs) =
    let rest = split_range cs in
    elim (strip_prefix (46 ∷ 46 ∷ []) (c ∷ cs)) [
      | some after ↦ some ([], after)
      | none ↦ elim rest [ none ↦ none | some (lo, hi) ↦ some (c ∷ lo, hi) ]
    ]

abbrev is_separator : ℕ → Bool
is_separator c = c == 44 || c == 32 || c == 9 || c == 10

abbrev put_first : ℕ → List Bytes → List Bytes
put_first c [] = (c ∷ []) ∷ []
put_first c (word ∷ words) = (c ∷ word) ∷ words

-- `split` at each of the separators.
split_words : Bytes → List Bytes
split_words [] = [] ∷ []
split_words (c ∷ cs) =
    let rest = split_words cs in if is_separator c then [] ∷ rest else put_first c rest

-- `parse_header_list`
unfoldable pub parse_header_list : Bytes → List Bytes
unfolding split_words trim
parse_header_list list = filter (λ s. not (is_empty s)) (map trim (split_words list))

-- `parse_method_list`, with `Method::from_bytes`.
unfoldable pub parse_method_list : (Bytes → Option Bytes) → Bytes → Result (List Bytes)
unfolding parse_header_list
parse_method_list method_from_bytes list =
    collect (λ name. ok_or (invalid_method name) (method_from_bytes (to_upper name)))
      (parse_header_list list)

-- The number of seconds that `str::parse::<f64>` makes of a text; `Duration::from_secs_f64` of it, where
-- that does not panic.
abbrev pub Seconds : Type 0
Seconds = Bytes → Option (Option ℕ)

module _ (seconds : Seconds) where
  parse_seconds : Bytes → Result ℕ
  parse_seconds s = elim (seconds s) [
    | none ↦ err (invalid_duration s)
    | some parsed ↦ ok_or (panicked s) parsed
  ]

  -- `parse_duration`
  unfoldable pub parse_duration : Bytes → Result ℕ
  unfolding trim strip_ms strip_suffix parse_u64 parse_seconds
  parse_duration s = elim (strip_ms (trim s)) [
    | some ms ↦ do n ← ok_or (invalid_duration ms) (parse_u64 ms); ok (n * 1_000_000)
    | none ↦ elim (strip_suffix 115 (trim s)) [
      | some secs ↦ parse_seconds secs
      | none ↦ err (invalid_duration (trim s))
    ]
  ]

  -- `DurationOrRange::from_str`, and the match on it in `LatencyConfig::emit`.
  unfoldable pub parse_delay : Bytes → Result Delay
  unfolding split_range parse_duration
  parse_delay s = elim (split_range s) [
    | some (lo, hi) ↦ do lo' ← parse_duration lo; hi' ← parse_duration hi; ok (uniform lo' hi')
    | none ↦ do d ← parse_duration s; ok (fixed d)
  ]
