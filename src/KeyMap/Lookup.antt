-- ===== src/KeyMap/Lookup.antt =====
-- What a lookup finds after each operation on a table, and that keys stay distinct.
use noxy.Common.{
  Bool, Option, none, some, List, [], ◌∷◌, String, str_eq, if◌then◌else◌, ◌≡◌, ◌≢◌, refl, arith,
  eq_iff, eq_refl, inl, inr, Bool-cases,
}
use noxy.KeyMap.{lookup, insert, remove, retain, Distinct, AllValues}

module _ {ℓ} {V : Type ℓ} where
  pub lookup-insert :
      (key other : String) (new : V) (entries : List (String × V))
      → lookup other (insert key new entries)
        ≡ (if str_eq key other then some new else lookup other entries)
  unfolding lookup insert
  lookup-insert key other new [] = refl
  lookup-insert key other new ((name, held) ∷ entries) = ground (
    arith,
    lookup-insert key other new entries,
    eq_iff name key,
    eq_iff name other,
    eq_iff key other,
  )

  pub lookup-insert_self :
      (k : String) (v : V) (m : List (String × V)) → lookup k (insert k v m) ≡ some v
  lookup-insert_self k v m = ground (arith, lookup-insert k k v m, eq_refl k)

  pub lookup-insert_ne :
      (k j : String) (v : V) (m : List (String × V)) → k ≢ j → lookup j (insert k v m) ≡ lookup j m
  lookup-insert_ne k j v m h = ground (arith, lookup-insert k j v m, eq_iff k j)

  pub lookup-remove_ne :
      (k j : String) (m : List (String × V)) → k ≢ j → lookup j (remove k m) ≡ lookup j m
  unfolding lookup remove
  lookup-remove_ne k j [] h = refl
  lookup-remove_ne k j ((i, w) ∷ m) h =
      ground (arith, eq_iff i k, eq_iff i j, lookup-remove_ne k j m h)

  lookup-remove-none :
      (k j : String) (m : List (String × V)) → lookup j m ≡ none → lookup j (remove k m) ≡ none
  unfolding lookup remove
  lookup-remove-none k j [] h = refl
  lookup-remove-none k j ((i, w) ∷ m) h =
      ground (arith, eq_iff i k, eq_iff i j, lookup-remove-none k j m)

  pub lookup-remove_self :
      (k : String) (m : List (String × V)) → Distinct m → lookup k (remove k m) ≡ none
  unfolding lookup remove
  lookup-remove_self k [] d = refl
  lookup-remove_self k ((i, w) ∷ m) (new, d) = ground (arith, eq_iff i k, lookup-remove_self k m d)

  lookup-retain-none :
      (keep : V → Bool) (j : String) (m : List (String × V))
      → lookup j m ≡ none
      → lookup j (retain keep m) ≡ none
  unfolding lookup retain
  lookup-retain-none keep j [] h = refl
  lookup-retain-none keep j ((i, w) ∷ m) h = ground (arith, eq_iff i j, lookup-retain-none keep j m)

  -- A lookup after `retain`: the old entry if it is kept, and nothing otherwise.
  abbrev pub if_kept : (V → Bool) → Option V → Option V
  if_kept keep none = none
  if_kept keep (some v) = if keep v then some v else none

  pub lookup-retain :
      (keep : V → Bool) (j : String) (m : List (String × V))
      → Distinct m
      → lookup j (retain keep m) ≡ if_kept keep (lookup j m)
  unfolding lookup retain
  lookup-retain keep j [] d = refl
  lookup-retain keep j ((i, w) ∷ m) (new, d) =
      ground (arith, eq_iff i j, lookup-retain keep j m d, lookup-retain-none keep j m)

  pub insert-Distinct :
      (k : String) (v : V) (m : List (String × V)) → Distinct m → Distinct (insert k v m)
  unfolding insert lookup
  insert-Distinct k v [] d = (refl, tt)
  insert-Distinct k v ((i, w) ∷ m) (new, d) =
      ground (arith, eq_iff i k, eq_iff k i, insert-Distinct k v m d, lookup-insert k i v m)

  pub remove-Distinct : (k : String) (m : List (String × V)) → Distinct m → Distinct (remove k m)
  unfolding remove
  remove-Distinct k [] d = tt
  remove-Distinct k ((i, w) ∷ m) (new, d) =
      ground (arith, remove-Distinct k m d, lookup-remove-none k i m new)

  pub retain-Distinct :
      (keep : V → Bool) (m : List (String × V)) → Distinct m → Distinct (retain keep m)
  unfolding retain
  retain-Distinct keep [] d = tt
  retain-Distinct keep ((i, w) ∷ m) (new, d) =
      ground (arith, retain-Distinct keep m d, lookup-retain-none keep i m new)

module _ {ℓ κ} {V : Type ℓ} (P : V → Type κ) where
  pub insert-AllValues :
      (k : String) (v : V) (m : List (String × V))
      → P v
      → AllValues P m
      → AllValues P (insert k v m)
  unfolding insert
  insert-AllValues k v [] p h = (p, tt)
  insert-AllValues k v ((i, w) ∷ m) p (q, h) = elim (Bool-cases (str_eq i k)) [
    | inl e ↦ rw e (p, h)
    | inr e ↦ rw e (q, insert-AllValues k v m p h)
  ]

  pub remove-AllValues :
      (k : String) (m : List (String × V)) → AllValues P m → AllValues P (remove k m)
  unfolding remove
  remove-AllValues k [] h = tt
  remove-AllValues k ((i, w) ∷ m) (q, h) = elim (Bool-cases (str_eq i k)) [
    | inl e ↦ rw e h
    | inr e ↦ rw e (q, remove-AllValues k m h)
  ]

  pub retain-AllValues :
      (keep : V → Bool) (m : List (String × V)) → AllValues P m → AllValues P (retain keep m)
  unfolding retain
  retain-AllValues keep [] h = tt
  retain-AllValues keep ((i, w) ∷ m) (q, h) = elim (Bool-cases (keep w)) [
    | inl e ↦ rw e (q, retain-AllValues keep m h)
    | inr e ↦ rw e (retain-AllValues keep m h)
  ]

  pub lookup-AllValues :
      (k : String) {v : V} (m : List (String × V)) → AllValues P m → lookup k m ≡ some v → P v
  unfolding lookup
  lookup-AllValues k [] h e = cc
  lookup-AllValues k {v} ((i, w) ∷ m) (q, h) e = elim (Bool-cases (str_eq i k)) [
    | inl t ↦ let same : some w ≡ some v = rw t at e in let eq : w ≡ v = cc in rw (← eq) q
    | inr t ↦ lookup-AllValues k m h (rw t at e)
  ]

module _ {ℓ κ} {V : Type ℓ} (P Q : V → Type κ) where
  pub AllValues-map :
      (weaken : (v : V) → P v → Q v) (m : List (String × V)) → AllValues P m → AllValues Q m
  AllValues-map weaken [] h = tt
  AllValues-map weaken ((i, w) ∷ m) (p, h) = (weaken w p, AllValues-map weaken m h)
