-- ===== src/RateLimiter/Rate.antt =====
-- rate_limiter.rs: the rate at which a bucket lets requests pass.
use mathlib.Core.Path.{subst}
use noxy.Common.{
  mul_flow, ap, sym, ℕ, zero, suc, ◌+◌, ◌-◌, ◌*◌, ◌≤◌, ◌<◌, ◌==◌, false, Option, none, some, List,
  [], ◌∷◌, length, ◌≡◌, refl, ltb, ◌>>=◌, arith, inl, inr, Bool-cases,
}
use noxy.RateLimiter.{TokenBucket, delay_for, take_token}

-- When a request goes on, in units: its arrival and its delay.
abbrev pub release : ℕ → ℕ → Option ℕ → ℕ
release count now none = now * count
release count now (some delay) = now * count + delay

-- Requests of one bucket, by their arrivals: when each goes on, or a panic.
unfoldable pub releases : ℕ → ℕ → ℕ → TokenBucket → List ℕ → Option (List ℕ)
releases count window burst b [] = some []
releases count window burst b (now ∷ nows) = do
  (b', delay) ← take_token count window burst b now
  later ← releases count window burst b' nows
  some (release count now delay ∷ later)

abbrev pub Ascending : ℕ → List ℕ → Type 0
Ascending start [] = Unit
Ascending start (now ∷ nows) = (start ≤ now) × Ascending now nows

abbrev pub last_of : ℕ → List ℕ → ℕ
last_of x [] = x
last_of x (y ∷ ys) = last_of y ys

-- The time, in units, at which a bucket would be full if nothing more were taken.
abbrev full_at : ℕ → TokenBucket → ℕ
full_at count b = b.last_refill * count + b.missing

-- One request moves that time by a token at least, past its own release, and past the bound that the
-- burst allows.
record Taken (count window burst now : ℕ) (b b' : TokenBucket) (delay : Option ℕ) : Type 0 where
  result : take_token count window burst b now ≡ some (b', delay)
  refilled : b'.last_refill ≡ now
  moved : full_at count b + window ≤ full_at count b'
  after_release : release count now delay + window ≤ full_at count b'
  within : full_at count b' ≤ release count now delay + burst * window

burst-ge : (burst window : ℕ) → 0 < burst → window ≤ burst * window
burst-ge zero window h = absurd (omega arith)
burst-ge (suc burst) window h = omega arith

take_token-Taken :
    (count window burst now : ℕ) (b : TokenBucket)
    → 0 < count
    → 0 < burst
    → b.last_refill ≤ now
    → (b' : TokenBucket) × (delay : Option ℕ) × Taken count window burst now b b' delay
unfolding take_token delay_for
take_token-Taken count window burst now b positive some_burst past =
    let flow = mul_flow b.last_refill now count past in
    let enough = burst-ge burst window some_burst in
    let missing : ℕ = b.missing - (now - b.last_refill) * count + window in
    let rate : (count == 0) ≡ false = ground arith in
    elim (Bool-cases (ltb 0 (missing - burst * window))) [
      | inl waits ↦ (
        record { missing = missing; last_refill = now },
        some (missing - burst * window),
        record {
          result = rw (waits, rate) refl;
          refilled = refl;
          moved = omega (arith, flow);
          after_release = ground (arith, enough, waits);
          within = ground (arith, waits);
        },
      )
      | inr at_once ↦ (
        record { missing = missing; last_refill = now },
        none,
        record {
          result = rw at_once refl;
          refilled = refl;
          moved = omega (arith, flow);
          after_release = ground (arith, enough);
          within = ground (arith, at_once);
        },
      )
    ]

-- After a first request, each further one is held back by a token.
later-rate :
    (count window burst first : ℕ) (b : TokenBucket) (nows : List ℕ)
    → 0 < count
    → 0 < burst
    → Ascending b.last_refill nows
    → full_at count b ≤ first + burst * window
    → (later : List ℕ) × (releases count window burst b nows ≡ some later)
      × (length later ≡ length nows)
      × (full_at count b + length nows * window ≤ last_of first later + burst * window)
unfolding releases
later-rate count window burst first b [] positive some_burst a within =
    ([], refl, refl, omega arith)
later-rate count window burst first b (now ∷ nows) positive some_burst (past, a) within =
    let (b', delay, t) = take_token-Taken count window burst now b positive some_burst past in
    let (later, ran, len, held) =
      later-rate count window burst (release count now delay) b' nows positive some_burst
        (subst (λ n. Ascending n nows) (sym t.refilled) a) t.within in
    (
      release count now delay ∷ later,
      rw (t.result, ran) refl,
      ap suc len,
      omega (arith, held, t.moved),
    )

-- With a positive rate and a positive burst, nothing panics: each request of a bucket, at ascending
-- times from its last refill on, is let through or delayed. And the rate holds of the requests as they go on, waiting or not: as many of them as there are from
-- one to a later one take no more than the burst and what flows in between the moments at which the
-- two go on.
pub releases-rate :
    (count window burst : ℕ) (b : TokenBucket) (now : ℕ) (nows : List ℕ)
    → 0 < count
    → 0 < burst
    → Ascending b.last_refill (now ∷ nows)
    → (first : ℕ) × (later : List ℕ) × (releases count window burst b (now ∷ nows)
        ≡ some (first ∷ later))
      × (length later ≡ length nows)
      × (first + suc (length nows) * window ≤ last_of first later + burst * window)
unfolding releases
releases-rate count window burst b now nows positive some_burst ascending =
    let (past, a) = ascending in
    let (b', delay, t) = take_token-Taken count window burst now b positive some_burst past in
    let (later, ran, len, held) =
      later-rate count window burst (release count now delay) b' nows positive some_burst
        (subst (λ n. Ascending n nows) (sym t.refilled) a) t.within in
    (
      release count now delay,
      later,
      rw (t.result, ran) refl,
      len,
      omega (arith, held, t.after_release),
    )
