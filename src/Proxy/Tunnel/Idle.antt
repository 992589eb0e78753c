-- ===== src/Proxy/Tunnel/Idle.antt =====
-- When the watchdog of a tunnel ends it.
use mathlib.Core.Path.{subst}
use native.Mathlib.Decide.{dec_le}
use noxy.Common.{
  ap, leb→le, ℕ, zero, suc, ◌+◌, ◌*◌, ◌^◌, ◌≤◌, ◌<◌, ◌==◌, max, Bool, true, false, Option, none,
  some, List, [], ◌∷◌, ◌++◌, leb, All, length, if◌then◌else◌, ◌≡◌, refl, sym, arith, Bool-cases,
  inl, inr, ==_iff, ◌⊎◌, ◌≢◌,
}
use noxy.Proxy.Tunnel.{
  Read, chunk, failed, TunnelOutcome, copy_half, join_halves, count_until, activity_at, watch,
  idle_watchdog, select, relay_tunnel,
}

count_until-le : (now : ℕ) (times : List ℕ) → count_until now times ≤ length times
unfolding count_until
count_until-le now [] = omega arith
count_until-le now (t ∷ times) = ground (arith, count_until-le now times)

count_until_mono :
    (now later : ℕ) (times : List ℕ) → now ≤ later → count_until now times ≤ count_until later times
unfolding count_until
count_until_mono now later [] le = omega arith
count_until_mono now later (t ∷ times) le = ground (arith, count_until_mono now later times le)

-- No chunk of the list is read after `now` and by `later`.
abbrev pub Quiet : ℕ → ℕ → List ℕ → Type 0
Quiet now later times = All (λ t. (t ≤ now) ⊎ (later < t)) times

count_until-Quiet :
    (now later : ℕ) (times : List ℕ)
    → now ≤ later
    → count_until now times ≡ count_until later times
    → Quiet now later times
unfolding count_until
count_until-Quiet now later [] le e = tt
count_until-Quiet now later (t ∷ times) le e =
    let fewer = count_until_mono now later times le in
    elim (Bool-cases (leb t now)) [
      | inl early ↦
          (inl (leb→le t now early), count_until-Quiet now later times le (ground (arith, early)))
      | inr after ↦ elim (Bool-cases (leb t later)) [
        | inl within ↦ absurd (ground (arith, after, within))
        | inr late ↦
            (inr (ground arith), count_until-Quiet now later times le (ground (arith, after, late)))
      ]
    ]

activity_at-Quiet :
    (now later : ℕ) (times : List ℕ)
    → now ≤ later
    → length times < 2 ^ 64
    → activity_at times now ≡ activity_at times later
    → Quiet now later times
unfolding activity_at
activity_at-Quiet now later times le few e =
    count_until-Quiet now later times le
      (omega (arith, e, count_until-le now times, count_until-le later times))

-- One round of the watchdog.
fired :
    (b : Bool) (x t : ℕ) (rest : Option ℕ)
    → b ≡ true
    → (if b then some x else rest) ≡ some t
    → x ≡ t
fired b x t rest e h = ground (arith, e)

not_fired :
    (b : Bool) (x t : ℕ) (rest : Option ℕ)
    → b ≡ false
    → (if b then some x else rest) ≡ some t
    → rest ≡ some t
not_fired b x t rest e h = ground (arith, e)

-- The watchdog fires at a time before which nothing was read for the whole interval.
watch-Quiet :
    (fuel timeout : ℕ) (times : List ℕ) (now t : ℕ)
    → length times < 2 ^ 64
    → watch fuel timeout times now (activity_at times now) ≡ some t
    → (from : ℕ) × (t ≡ from + timeout) × (now ≤ from) × Quiet from t times
unfolding watch
watch-Quiet zero timeout times now t few h = cc
watch-Quiet (suc fuel) timeout times now t few h =
    let later : ℕ = now + timeout in
    elim (Bool-cases (activity_at times later == activity_at times now)) [
      | inl same ↦
          let e =
            fired _ later t (watch fuel timeout times later (activity_at times later)) same h in
          let steady = (==_iff (activity_at times later) (activity_at times now)).0 same in
          (
            now,
            sym e,
            omega arith,
            subst (λ x. Quiet now x times) e
                (activity_at-Quiet now later times (omega arith) few (sym steady)),
          )
      | inr more ↦
          let (from, e, le, quiet) = watch-Quiet fuel timeout times later t few (
            not_fired _ later t (watch fuel timeout times later (activity_at times later)) more
              h) in
          (from, e, omega arith, quiet)
    ]

count_until-All :
    (last now : ℕ) (times : List ℕ)
    → All (λ t. t ≤ last) times
    → last ≤ now
    → count_until now times ≡ length times
unfolding count_until
count_until-All last now [] old le = refl
count_until-All last now (t ∷ times) (early, old) le =
    ground (arith, count_until-All last now times old le)

steady :
    (last now timeout : ℕ) (times : List ℕ)
    → All (λ t. t ≤ last) times
    → last ≤ now
    → (activity_at times (now + timeout) == activity_at times now) ≡ true
unfolding activity_at
steady last now timeout times old le =
    rw
      (
        count_until-All last now times old le,
        count_until-All last (now + timeout) times old (omega arith),
      )
      (ground arith)

-- Once no more is read, the watchdog fires.
watch-fires :
    (k timeout : ℕ) (times : List ℕ) (last now : ℕ)
    → All (λ t. t ≤ last) times
    → last ≤ now + k * timeout
    → (t : ℕ) × (watch (suc k) timeout times now (activity_at times now) ≡ some t)
      × (t ≤ max (now + timeout) (last + 2 * timeout))
unfolding watch
watch-fires zero timeout times last now old le =
    (now + timeout, rw (steady last now timeout times old (omega arith)), omega arith)
watch-fires (suc k) timeout times last now old le =
    elim (Bool-cases (activity_at times (now + timeout) == activity_at times now)) [
      | inl same ↦ (now + timeout, rw same, omega arith)
      | inr more ↦ elim (dec_le last now) [
        | yes past ↦ absurd (ground (arith, more, steady last now timeout times old past))
        | no before ↦
            let (t, e, bound) =
              watch-fires k timeout times last (now + timeout) old (grind arith) in
            (t, rw more e, omega arith)
      ]
    ]

join_halves-not_idle :
    (a b : Option (ℕ × Bool)) (t : ℕ) → join_halves a b ≢ some (t, TunnelOutcome.idle)
unfolding join_halves
join_halves-not_idle none none t h = cc
join_halves-not_idle (some (u, false)) none t h = cc
join_halves-not_idle none (some (u, false)) t h = cc
join_halves-not_idle (some (u, true)) none t h = cc
join_halves-not_idle none (some (u, true)) t h = cc
join_halves-not_idle (some (u, true)) (some (v, true)) t h = cc
join_halves-not_idle (some (u, false)) (some (v, true)) t h = cc
join_halves-not_idle (some (u, true)) (some (v, false)) t h = cc
join_halves-not_idle (some (u, false)) (some (v, false)) t h = cc

select-idle :
    (relay_first : Bool) (relay : Option (ℕ × TunnelOutcome)) (watch_end : Option ℕ) (t : ℕ)
    → relay ≢ some (t, TunnelOutcome.idle)
    → select relay_first relay watch_end ≡ some (t, TunnelOutcome.idle)
    → watch_end ≡ some t
unfolding select
select-idle relay_first none none t busy h = cc
select-idle relay_first (some ended) none t busy h = absurd (busy h)
select-idle relay_first none (some u) t busy h = cc
select-idle relay_first (some (v, outcome)) (some u) t busy h = ground (arith, busy)

-- When a direction reads data, until it ends: at the end of the stream, at an error of its reader, or
-- at one of its writer.
abbrev pub data_times : List Read → List ℕ
data_times [] = []
data_times (failed t ∷ reads) = []
data_times (chunk t [] written ∷ reads) = []
data_times (chunk t (b ∷ bs) false ∷ reads) = t ∷ []
data_times (chunk t (b ∷ bs) true ∷ reads) = t ∷ data_times reads

copy_half-data_times : (reads : List Read) → (copy_half reads).activity ≡ data_times reads
unfolding copy_half
copy_half-data_times [] = refl
copy_half-data_times (failed t ∷ reads) = refl
copy_half-data_times (chunk t [] written ∷ reads) = refl
copy_half-data_times (chunk t (b ∷ bs) false ∷ reads) = refl
copy_half-data_times (chunk t (b ∷ bs) true ∷ reads) = ap (◌∷◌ t) (copy_half-data_times reads)

-- A tunnel that is ended as idle at a time had no data read in either direction during the whole timeout
-- before that time, and the timeout began after the tunnel's start. The number of reads with data is
-- below 2 ^ 64.
pub relay_tunnel-Quiet :
    (fuel : ℕ) (relay_first : Bool) (timeout start t : ℕ) (from_client from_upstream : List Read)
    → length (data_times from_client ++ data_times from_upstream) < 2 ^ 64
    → relay_tunnel fuel relay_first (some timeout) start from_client from_upstream
      ≡ some (t, TunnelOutcome.idle)
    → (from : ℕ) × (t ≡ from + timeout)
      × (start ≤ from)
      × Quiet from t (data_times from_client ++ data_times from_upstream)
unfolding relay_tunnel idle_watchdog
relay_tunnel-Quiet fuel relay_first timeout start t from_client from_upstream few h =
    let client = copy_half-data_times from_client in
    let upstream = copy_half-data_times from_upstream in
    let times : (copy_half from_client).activity ++ (copy_half from_upstream).activity
        ≡ data_times from_client ++ data_times from_upstream =
      λ i. client i ++ upstream i in
    rw (sym client, sym upstream)
      (watch-Quiet fuel timeout
        ((copy_half from_client).activity ++ (copy_half from_upstream).activity) start t
        (subst (λ (ts : List ℕ). length ts < 2 ^ 64) (sym times) few)
        (select-idle relay_first
          (join_halves (copy_half from_client).ended (copy_half from_upstream).ended) _ t
          (join_halves-not_idle (copy_half from_client).ended (copy_half from_upstream).ended t) h))

-- A tunnel that stalls, neither direction of which ends, is ended as idle, and soon: at the latest when
-- twice the timeout has passed since the last chunk, or once since the start.
pub relay_tunnel-ends :
    (k : ℕ) (relay_first : Bool) (timeout start last : ℕ) (from_client from_upstream : List Read)
    → (copy_half from_client).ended ≡ none
    → (copy_half from_upstream).ended ≡ none
    → All (λ t. t ≤ last) ((copy_half from_client).activity ++ (copy_half from_upstream).activity)
    → last ≤ start + k * timeout
    → (t : ℕ) × (relay_tunnel (suc k) relay_first (some timeout) start from_client from_upstream
        ≡ some (t, TunnelOutcome.idle))
      × (t ≤ max (start + timeout) (last + 2 * timeout))
unfolding relay_tunnel idle_watchdog select join_halves
relay_tunnel-ends k relay_first timeout start last from_client from_upstream open_client
      open_upstream old le =
    let (t, e, bound) =
      watch-fires k timeout ((copy_half from_client).activity ++ (copy_half from_upstream).activity)
        last start old le in
    (t, rw (open_client, open_upstream, e), bound)
