-- ===== src/Config/Texts/Durations.antt =====
-- A number of milliseconds, written out and read again.
use mathlib.Core.List.{append_assoc}
use noxy.Common.{
  ℕ, zero, suc, ◌+◌, ◌-◌, ◌*◌, ◌/◌, ◌%◌, ◌^◌, ◌<◌, Bool, true, false, ◌&&◌, Option, none, some, [],
  ◌∷◌, ◌++◌, leb, ltb, ◌≡◌, refl, sym, ap, ◌∙◌, arith, all, all-append, Bool-cases, inl, inr,
}
use noxy.Http.{Bytes, text}
use noxy.Config.{ok}
use noxy.Config.Matching.{strip_suffix, is_empty}
use noxy.Config.Walk.{to_digits, to_string}
use noxy.Retry.Backoff.{parse_digits, parse_unsigned, parse_u64}
use noxy.Config.Texts.{trim, trim_start, trim_end, strip_ms, Seconds, parse_duration}

abbrev is_digit : ℕ → Bool
is_digit c = leb 48 c && leb c 57

-- What is written is digits, at least one.
to_digits-digits : (fuel n : ℕ) → all is_digit (to_digits fuel n) ≡ true
unfolding to_digits
to_digits-digits zero n = refl
to_digits-digits (suc fuel) n = elim (Bool-cases (ltb n 10)) [
  | inl small ↦ rw small (ground arith)
  | inr large ↦ rw large (
      all-append is_digit (to_digits fuel (n / 10)) ((48 + n % 10) ∷ [])
        (to_digits-digits fuel (n / 10)) (ground arith))
]

-- Reading stops where the next text begins.
parse_digits-append :
    (acc mid : ℕ) (xs : Bytes) (d : ℕ)
    → parse_digits acc xs ≡ some mid
    → parse_digits acc (xs ++ d ∷ []) ≡ parse_digits mid (d ∷ [])
unfolding parse_digits
parse_digits-append acc mid [] d h = ground arith
parse_digits-append acc mid (c ∷ cs) d h =
    ground (arith, parse_digits-append (acc * 10 + (c - 48)) mid cs d)

parse_digits-to_digits :
    (fuel n : ℕ) → n < fuel → n < 2 ^ 64 → parse_digits 0 (to_digits fuel n) ≡ some n
unfolding parse_digits to_digits
parse_digits-to_digits zero n le bound = ground arith
parse_digits-to_digits (suc fuel) n le bound = elim (Bool-cases (ltb n 10)) [
  | inl small ↦ rw small (ground arith)
  | inr large ↦
      let shorter = parse_digits-to_digits fuel (n / 10) (ground arith) (ground arith) in
      let whole : n / 10 * 10 + (48 + n % 10 - 48) ≡ n = omega arith in
      rw large (
        parse_digits-append 0 (n / 10) (to_digits fuel (n / 10)) (48 + n % 10) shorter
        ∙ rw whole (ground arith))
]

to_string-digits : (n : ℕ) → all is_digit (to_string n) ≡ true
unfolding to_string
to_string-digits n = to_digits-digits (suc n) n

parse_digits-to_string : (n : ℕ) → n < 2 ^ 64 → parse_digits 0 (to_string n) ≡ some n
unfolding to_string
parse_digits-to_string n bound = parse_digits-to_digits (suc n) n (omega arith) bound

strip_suffix-append : (c : ℕ) (s : Bytes) → strip_suffix c (s ++ c ∷ []) ≡ some s
unfolding strip_suffix
strip_suffix-append c [] = ground arith
strip_suffix-append c (b ∷ []) = ground arith
strip_suffix-append c (b ∷ (b' ∷ s)) = rw (strip_suffix-append c (b' ∷ s)) refl

trim_end-digits :
    (s : Bytes) → all is_digit s ≡ true → trim_end (s ++ 109 ∷ 115 ∷ []) ≡ s ++ 109 ∷ 115 ∷ []
unfolding trim_end
trim_end-digits [] h = refl
trim_end-digits (c ∷ cs) h = ground (arith, trim_end-digits cs)

trim_start-digits :
    (s : Bytes) → all is_digit s ≡ true → trim_start (s ++ 109 ∷ 115 ∷ []) ≡ s ++ 109 ∷ 115 ∷ []
unfolding trim_start
trim_start-digits [] h = refl
trim_start-digits (c ∷ cs) h = ground arith

trim-digits : (s : Bytes) → all is_digit s ≡ true → trim (s ++ 109 ∷ 115 ∷ []) ≡ s ++ 109 ∷ 115 ∷ []
unfolding trim
trim-digits s digits = ap trim_end (trim_start-digits s digits) ∙ trim_end-digits s digits

is_empty-append : (s : Bytes) (c : ℕ) → is_empty (s ++ c ∷ []) ≡ false
is_empty-append [] c = refl
is_empty-append (b ∷ s) c = refl

to_string-nonempty : (n : ℕ) → is_empty (to_string n) ≡ false
unfolding to_string to_digits
to_string-nonempty n = elim (Bool-cases (ltb n 10)) [
  | inl small ↦ rw small refl
  | inr large ↦ rw large (is_empty-append (to_digits n (n / 10)) (48 + n % 10))
]

-- A text of digits has no plus in front.
parse_u64-digits :
    (s : Bytes) → all is_digit s ≡ true → is_empty s ≡ false → parse_u64 s ≡ parse_digits 0 s
unfolding parse_u64 parse_unsigned
parse_u64-digits [] h nonempty = cc
parse_u64-digits (c ∷ []) h nonempty = ground arith
parse_u64-digits (c ∷ (d ∷ cs)) h nonempty = ground arith

strip_ms-append : (s : Bytes) → strip_ms (s ++ 109 ∷ 115 ∷ []) ≡ some s
unfolding strip_ms
strip_ms-append s =
    let last : strip_suffix 115 (s ++ 109 ∷ 115 ∷ []) ≡ some (s ++ 109 ∷ []) =
      ap (strip_suffix 115) (sym (append_assoc s (109 ∷ []) (115 ∷ [])))
      ∙ strip_suffix-append 115 (s ++ 109 ∷ []) in
    ap (λ (r : Option Bytes). elim r [ none ↦ none | some rest ↦ strip_suffix 109 rest ]) last
    ∙ strip_suffix-append 109 s

-- A duration of a whole number of milliseconds below 2 ^ 64 that is written as the number and `ms` is
-- read as that number of milliseconds.
pub parse_duration-millis :
    (seconds : Seconds) (n : ℕ)
    → n < 2 ^ 64
    → parse_duration seconds (to_string n ++ text "ms") ≡ ok (n * 1_000_000)
unfolding parse_duration
parse_duration-millis seconds n bound =
    let digits : all is_digit (to_string n) ≡ true = to_string-digits n in
    rw
      (
        parse_duration,
        trim-digits (to_string n) digits,
        strip_ms-append (to_string n),
        parse_u64-digits (to_string n) digits (to_string-nonempty n),
        parse_digits-to_string n bound,
      )
      refl
