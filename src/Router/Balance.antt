-- ===== src/Router/Balance.antt =====
-- router.rs: how an upstream's requests are spread over its backends.
use native.Mathlib.Nat.{mul-add-mod_self_right, mod-lt, mod-eq_of_lt}
use mathlib.Core.Path.{subst}
use mathlib.Core.List.{append_assoc}
use noxy.Common.{
  ==_iff, length-append, ℕ, zero, suc, ◌+◌, ◌*◌, ◌%◌, ◌^◌, ◌≤◌, ◌<◌, ◌==◌, false, Option, some,
  List, [], ◌∷◌, ◌++◌, map, length, get_elem?, ◌≡◌, refl, sym, ap, ◌∙◌, arith, inl, inr, Bool-cases,
  Option-cases,
}
use noxy.Http.{Bytes, Uri, UpstreamTarget}
use noxy.Router.{
  Upstream, Backend, LoadBalanceStrategy, round_robin, random, new_upstream, nonempty,
  parse_backends, pick, pick_by, to_target, target_of, map_target,
}

-- The targets of so many requests in a row, and the upstream after them; a panic ends them.
pub targets : (ℕ → ℕ) → ℕ → Upstream → Upstream × List (Option UpstreamTarget)
targets random_below zero u = (u, [])
targets random_below (suc n) u =
    let (u', t) = to_target random_below u in
    let (u'', ts) = targets random_below n u' in (u'', t ∷ ts)

abbrev IsValid : Upstream → Type 0
IsValid u = 0 < length u.backends

get_elem?-some :
    {A : Type 0} (xs : List A) (i : ℕ) → i < length xs → (a : A) × (get_elem? xs i ≡ some a)
get_elem?-some [] i h = absurd (omega arith)
get_elem?-some (x ∷ xs) zero h = (x, refl)
get_elem?-some (x ∷ xs) (suc i) h = get_elem?-some xs i (omega arith)

pick_by-some :
    (random_below : ℕ → ℕ) (strategy : LoadBalanceStrategy) (u : Upstream)
    → 0 < length u.backends
    → ((n : ℕ) → 0 < n → random_below n < n)
    → (b : Backend) × ((pick_by strategy random_below u).1 ≡ some b)
unfolding pick_by
pick_by-some random_below round_robin u h drawn = get_elem?-some u.backends _ (mod-lt u.counter h)
pick_by-some random_below random u h drawn =
    get_elem?-some u.backends _ (drawn (length u.backends) h)

pick-some :
    (random_below : ℕ → ℕ) (u : Upstream)
    → 0 < length u.backends
    → ((n : ℕ) → 0 < n → random_below n < n)
    → (b : Backend) × ((pick random_below u).1 ≡ some b)
pick-some random_below u h drawn = elim (Bool-cases (length u.backends == 1)) [
  | inl single ↦ unfold pick in rw single (get_elem?-some u.backends 0 h)
  | inr several ↦ unfold pick in rw several (pick_by-some random_below u.strategy u h drawn)
]

nonempty-length :
    (parsed backends : List Backend) → nonempty parsed ≡ some backends → 0 < length backends
nonempty-length [] backends h = cc
nonempty-length (b ∷ bs) backends h =
    let same : b ∷ bs ≡ backends = cc in rw (sym same) (omega arith)

new_upstream-nonempty :
    (parse : Bytes → Option Uri) (urls : List Bytes) (u : Upstream)
    → new_upstream parse urls ≡ some u
    → 0 < length u.backends
unfolding new_upstream
new_upstream-nonempty parse urls u built = elim (Option-cases (parse_backends parse urls)) [
  | inl bad ↦ absurd (ground (arith, bad))
  | inr (parsed, p) ↦ elim (Option-cases (nonempty parsed)) [
    | inl no_url ↦ absurd (ground (arith, p, no_url))
    | inr (backends, q) ↦
        let same : backends ≡ u.backends = ground (arith, p, q) in
        subst (λ bs. 0 < length bs) same (nonempty-length parsed backends q)
  ]
]

-- An upstream that was built picks a backend for every request: `pick` never indexes out of range, for
-- any state of its counter and either strategy, where the generator keeps to its range.
pub to_target-total :
    (parse : Bytes → Option Uri) (urls : List Bytes) (u : Upstream) (strategy : LoadBalanceStrategy)
    (counter : ℕ) (random_below : ℕ → ℕ)
    → new_upstream parse urls ≡ some u
    → ((n : ℕ) → 0 < n → random_below n < n)
    → (t : UpstreamTarget) × ((to_target random_below
          (record u { strategy = strategy; counter = counter })).1
        ≡ some t)
unfolding to_target
to_target-total parse urls u strategy counter random_below built drawn =
    let some_backend = new_upstream-nonempty parse urls u built in
    let (b, picks) =
      pick-some random_below (record u { strategy = strategy; counter = counter }) some_backend
        drawn in
    (target_of b, ap map_target picks)

-- The backends of an upstream, each as the target of one request.
abbrev pub each_backend : Upstream → List (Option UpstreamTarget)
each_backend u = map (λ b. some (target_of b)) u.backends

get_elem?-middle :
    {A : Type 0} (xs : List A) (y : A) (ys : List A) → get_elem? (xs ++ y ∷ ys) (length xs) ≡ some y
get_elem?-middle [] y ys = refl
get_elem?-middle (x ∷ xs) y ys = get_elem?-middle xs y ys

abbrev robin : List Backend → ℕ → Upstream
robin backends counter = record { backends = backends; strategy = round_robin; counter = counter }

pick_next :
    (random_below : ℕ → ℕ) (past : List Backend) (b : Backend) (rest : List Backend)
    (round counter : ℕ)
    → let n = length past + suc (length rest) in
      2 ≤ n
      → counter ≡ round * n + length past
      → counter + 1 < 2 ^ 64
      → to_target random_below (robin (past ++ b ∷ rest) counter)
        ≡ (robin (past ++ b ∷ rest) (counter + 1), some (target_of b))
unfolding to_target pick pick_by
pick_next random_below past b rest round counter several at_slot no_wrap =
    let n : ℕ = length past + suc (length rest) in
    let len : length (past ++ b ∷ rest) ≡ n = length-append past (b ∷ rest) in
    let several' : (n == 1) ≡ false = ground arith in
    let slot : counter % n ≡ length past =
      ap (λ c. c % n) at_slot
      ∙ mul-add-mod_self_right round n (length past)
      ∙ mod-eq_of_lt (omega arith) in
    let kept : (counter + 1) % 2 ^ 64 ≡ counter + 1 = omega arith in
    rw (len, several', slot, get_elem?-middle past b rest, kept) refl

next_slot :
    (round p r counter : ℕ) (grown : List Backend)
    → length grown ≡ p + 1
    → counter ≡ round * (p + suc r) + p
    → counter + 1 ≡ round * (length grown + r) + length grown
next_slot round p r counter grown len at_slot =
    let same : length grown + r ≡ p + suc r = omega (arith, len) in
    rw (same, len) (omega (arith, at_slot))

targets_from :
    (random_below : ℕ → ℕ) (past rest : List Backend) (round counter : ℕ)
    → let n = length past + length rest in
      2 ≤ n
      → counter ≡ round * n + length past
      → counter + length rest < 2 ^ 64
      → (targets random_below (length rest) (robin (past ++ rest) counter)).1
        ≡ map (λ b. some (target_of b)) rest
unfolding targets
targets_from random_below past [] round counter several at_slot no_wrap = refl
targets_from random_below past (b ∷ rest) round counter several at_slot no_wrap =
    let grown : List Backend = past ++ b ∷ [] in
    let len = length-append past (b ∷ []) in
    let same : grown ++ rest ≡ past ++ b ∷ rest = append_assoc past (b ∷ []) rest in
    let ih =
      targets_from random_below grown rest round (counter + 1) (omega (arith, len))
        (next_slot round (length past) (length rest) counter grown len at_slot) (omega arith) in
    let later = ap (λ bs. (targets random_below (length rest) (robin bs (counter + 1))).1) same in
    rw (pick_next random_below past b rest round counter several at_slot (omega arith))
      (ap (◌∷◌ (some (target_of b))) (sym later ∙ ih))

one_backend :
    (random_below : ℕ → ℕ) (strategy : LoadBalanceStrategy) (bs : List Backend) (counter : ℕ)
    → length bs ≡ 1
    → (targets random_below
        (length bs)
        (record { backends = bs; strategy = strategy; counter = counter })).1
      ≡ map (λ b. some (target_of b)) bs
unfolding targets to_target pick
one_backend random_below strategy [] counter h = absurd (omega arith)
one_backend random_below strategy (b ∷ []) counter h = refl
one_backend random_below strategy (b ∷ c ∷ bs) counter h = absurd (omega arith)

-- Round robin is fair: from a counter that is a multiple of the number of backends on, the next so many
-- requests go to each backend once, in the order in which they are configured, as long as the counter
-- does not wrap.
pub targets-each_backend :
    (random_below : ℕ → ℕ) (u : Upstream) (round : ℕ)
    → u.strategy ≡ round_robin
    → 0 < length u.backends
    → u.counter ≡ round * length u.backends
    → u.counter + length u.backends < 2 ^ 64
    → (targets random_below (length u.backends) u).1 ≡ each_backend u
targets-each_backend random_below u round robin_set some_backend start no_wrap =
    elim (Bool-cases (length u.backends == 1)) [
      | inl single ↦
          one_backend random_below u.strategy u.backends u.counter
            ((==_iff (length u.backends) 1).0 single)
      | inr several ↦
          let same : u ≡ robin u.backends u.counter =
            ap (λ st. record { backends = u.backends; strategy = st; counter = u.counter })
              robin_set in
          ap (λ v. (targets random_below (length u.backends) v).1) same
          ∙ targets_from random_below [] u.backends round u.counter (ground arith)
              (start ∙ omega arith) no_wrap
    ]
