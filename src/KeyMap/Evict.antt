-- ===== src/KeyMap/Evict.antt =====
-- Eviction: it takes only what may go, never the key in use, and makes room when it can.
use noxy.Common.{
  ℕ, ◌≤◌, ◌+◌, max, Bool, true, false, not, ◌||◌, all, none, some, List, [], ◌∷◌, String, length,
  str_eq, ◌≡◌, ◌⊎◌, refl, arith, eq_iff, eq_refl, inl, inr, Bool-cases, Option-cases, ltb,
}
use noxy.KeyMap.{
  retain, is_some, lookup, insert, remove, oldest, evict, evict_if_needed, Distinct, AllValues,
}
use noxy.KeyMap.Lookup.{lookup-remove_self, lookup-remove_ne, remove-Distinct, remove-AllValues}

module _ {ℓ} {V : Type ℓ} where
  length-insert-le :
      (k : String) (v : V) (m : List (String × V)) → length (insert k v m) ≤ length m + 1
  unfolding insert
  length-insert-le k v [] = omega arith
  length-insert-le k v ((i, w) ∷ m) = ground (arith, length-insert-le k v m)

  length-insert_old :
      (k : String) (v : V) {old : V} (m : List (String × V))
      → lookup k m ≡ some old
      → length (insert k v m) ≡ length m
  unfolding insert lookup
  length-insert_old k v {old} [] h = cc
  length-insert_old k v {old} ((i, w) ∷ m) h = ground (arith, length-insert_old k v {old = old} m)

  length-remove :
      (k : String) {v : V} (m : List (String × V))
      → lookup k m ≡ some v
      → length (remove k m) + 1 ≡ length m
  unfolding remove lookup
  length-remove k {v} [] h = cc
  length-remove k {v} ((i, w) ∷ m) h = ground (arith, length-remove k {v = v} m)

  pub length-retain-le :
      (keep : V → Bool) (m : List (String × V)) → length (retain keep m) ≤ length m
  unfolding retain
  length-retain-le keep [] = omega arith
  length-retain-le keep ((i, w) ∷ m) = ground (arith, length-retain-le keep m)

module _ {ℓ} {V : Type ℓ} (can_evict : V → Bool) (seen : V → ℕ) where
  -- The chosen entry is one of the table, and it may go.
  oldest-lookup :
      (m : List (String × V)) {k : String} {v : V}
      → Distinct m
      → oldest can_evict seen m ≡ some (k, v)
      → (lookup k m ≡ some v) × (can_evict v ≡ true)
  unfolding oldest lookup
  oldest-lookup [] d h = cc
  oldest-lookup ((i, w) ∷ m) {k} {v} (new, d) h = elim (Option-cases (oldest can_evict seen m)) [
    | inl e ↦ ground (arith, eq_iff i k, eq_refl i)
    | inr ((j, u), e) ↦
        let ih = oldest-lookup m d e in ground (arith, ih, eq_iff i k, eq_refl i, eq_iff i j, new)
  ]

  oldest-none :
      (m : List (String × V))
      → oldest can_evict seen m ≡ none
      → all (λ v. not (can_evict v.1)) m ≡ true
  unfolding oldest
  oldest-none [] h = refl
  oldest-none ((i, w) ∷ m) h = ground (arith, oldest-none m)

  -- What may not go stays.
  evict-keeps :
      (m : List (String × V)) (j : String) {v : V}
      → Distinct m
      → lookup j m ≡ some v
      → can_evict v ≡ false
      → lookup j (evict can_evict seen m) ≡ some v
  unfolding evict
  evict-keeps m j d h keep = elim (Option-cases (oldest can_evict seen m)) [
    | inl e ↦ rw (e, evict) h
    | inr ((k, u), e) ↦
        let chosen = oldest-lookup m d e in
        rw (e, evict) (ground (arith, chosen, lookup-remove_ne k j m))
  ]

  evict-Distinct : (m : List (String × V)) → Distinct m → Distinct (evict can_evict seen m)
  unfolding evict
  evict-Distinct m d = elim (Option-cases (oldest can_evict seen m)) [
    | inl e ↦ rw (e, evict) d
    | inr ((k, u), e) ↦ rw (e, evict) (remove-Distinct k m d)
  ]

  evict-AllValues {κ} :
      (P : V → Type κ) (m : List (String × V))
      → AllValues P m
      → AllValues P (evict can_evict seen m)
  unfolding evict
  evict-AllValues P m h = elim (Option-cases (oldest can_evict seen m)) [
    | inl e ↦ rw (e, evict) h
    | inr ((k, u), e) ↦ rw (e, evict) (remove-AllValues P k m h)
  ]

  -- An entry stays as it is, or it was one that may go.
  evict-lookup :
      (m : List (String × V)) (j : String)
      → Distinct m
      → (lookup j (evict can_evict seen m) ≡ lookup j m)
        ⊎ ((v : V) × (lookup j m ≡ some v)
            × (lookup j (evict can_evict seen m) ≡ none)
            × (can_evict v ≡ true))
  unfolding evict
  evict-lookup m j d = elim (Option-cases (oldest can_evict seen m)) [
    | inl e ↦ inl (rw (e, evict))
    | inr ((k, u), e) ↦ elim (Bool-cases (str_eq k j)) [
      | inl same ↦
          let chosen = oldest-lookup m d e in
          let eq : k ≡ j = (eq_iff k j).0 same in
          inr (u, (rw (← eq) chosen.0), (rw (e, evict, ← eq) (lookup-remove_self k m d)), chosen.1)
      | inr other ↦ inl (rw (e, evict) (lookup-remove_ne k j m (ground (arith, eq_iff k j))))
    ]
  ]

  -- A missing key stays missing.
  evict-missing :
      (m : List (String × V)) (j : String)
      → Distinct m
      → lookup j m ≡ none
      → lookup j (evict can_evict seen m) ≡ none
  unfolding evict
  evict-missing m j d h = elim (Option-cases (oldest can_evict seen m)) [
    | inl e ↦ rw (e, evict) h
    | inr ((k, u), e) ↦
        let chosen = oldest-lookup m d e in
        rw (e, evict) (ground (arith, chosen, lookup-remove_ne k j m))
  ]

  -- One entry goes, unless none may go.
  length-evict :
      (m : List (String × V))
      → Distinct m
      → (length (evict can_evict seen m) + 1 ≡ length m)
        ⊎ ((evict can_evict seen m ≡ m) × (all (λ e. not (can_evict e.1)) m ≡ true))
  unfolding evict
  length-evict m d = elim (Option-cases (oldest can_evict seen m)) [
    | inl e ↦ inr (rw (e, evict) (refl, oldest-none m e))
    | inr ((k, u), e) ↦ inl (rw (e, evict) (length-remove k m (oldest-lookup m d e).0))
  ]

module _ {ℓ} {V : Type ℓ} (can_evict : V → Bool) (seen : V → ℕ) (max_keys : ℕ) (key : String) where
  pub evict_if_needed-keeps :
      (m : List (String × V)) (j : String) {v : V}
      → Distinct m
      → lookup j m ≡ some v
      → can_evict v ≡ false
      → lookup j (evict_if_needed can_evict seen max_keys key m) ≡ some v
  unfolding evict_if_needed
  evict_if_needed-keeps m j d h keep = ground (arith, evict-keeps can_evict seen m j d h keep)

  pub evict_if_needed-lookup :
      (m : List (String × V)) (j : String)
      → Distinct m
      → (lookup j (evict_if_needed can_evict seen max_keys key m) ≡ lookup j m)
        ⊎ ((v : V) × (lookup j m ≡ some v)
            × (lookup j (evict_if_needed can_evict seen max_keys key m) ≡ none)
            × (can_evict v ≡ true))
  unfolding evict_if_needed
  evict_if_needed-lookup m j d =
      elim (Bool-cases (is_some (lookup key m) || ltb (length m) max_keys)) [
        | inl e ↦ inl (rw e)
        | inr e ↦ rw e (evict-lookup can_evict seen m j d)
      ]

  pub evict_if_needed_self :
      (m : List (String × V))
      → Distinct m
      → lookup key (evict_if_needed can_evict seen max_keys key m) ≡ lookup key m
  unfolding evict_if_needed
  evict_if_needed_self m d = ground (arith, evict-missing can_evict seen m key d)

  pub evict_if_needed-Distinct :
      (m : List (String × V))
      → Distinct m
      → Distinct (evict_if_needed can_evict seen max_keys key m)
  unfolding evict_if_needed
  evict_if_needed-Distinct m d = ground (arith, evict-Distinct can_evict seen m d)

  pub evict_if_needed-AllValues {κ} :
      (P : V → Type κ) (m : List (String × V))
      → AllValues P m
      → AllValues P (evict_if_needed can_evict seen max_keys key m)
  unfolding evict_if_needed
  evict_if_needed-AllValues P m h =
      elim (Bool-cases (is_some (lookup key m) || ltb (length m) max_keys)) [
        | inl e ↦ rw e h
        | inr e ↦ rw e (evict-AllValues can_evict seen P m h)
      ]

  -- After the key in use is written back, the table is no longer than its cap or than it was, unless
  -- it was full of entries that must stay.
  pub length-evict_if_needed :
      (m : List (String × V)) (v : V)
      → Distinct m
      → (length (insert key v (evict_if_needed can_evict seen max_keys key m))
          ≤ max (length m) max_keys)
        ⊎ (all (λ e. not (can_evict e.1)) m ≡ true)
  unfolding evict_if_needed
  length-evict_if_needed m v d = elim (Option-cases (lookup key m)) [
    | inl missing ↦ ground (
      arith,
      missing,
      length-evict can_evict seen m d,
      length-insert-le key v m,
      length-insert-le key v (evict can_evict seen m),
    )
    | inr (old, found) ↦ ground (arith, found, length-insert_old key v m found)
  ]
