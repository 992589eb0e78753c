-- ===== src/KeyMap.antt =====
-- `HashMap<String, V>` as the stores of src/middleware use it: an association list in the order of
-- the table's iteration. The order of a hash table is arbitrary, and so is that of the list: the
-- laws hold for every order. `insert` stands for `entry(key).or_insert(..)` followed by a write.
pub mod Lookup
pub mod Evict
use noxy.Common.{
  ℕ, Bool, true, false, ◌||◌, Option, none, some, List, [], ◌∷◌, String, str_eq, length, ltb, leb,
  if◌then◌else◌, ◌≡◌,
}

module _ {ℓ} {V : Type ℓ} where
  unfoldable pub lookup : String → List (String × V) → Option V
  lookup key [] = none
  lookup key ((name, held) ∷ entries) = if str_eq name key then some held else lookup key entries

  -- Whether a lookup found something: `contains_key(key)`.
  abbrev pub is_some : Option V → Bool
  is_some none = false
  is_some (some v) = true

  abbrev pub get_or : Option V → V → V
  get_or none d = d
  get_or (some v) d = v

  unfoldable pub insert : String → V → List (String × V) → List (String × V)
  insert key new [] = (key, new) ∷ []
  insert key new ((name, held) ∷ entries) =
      if str_eq name key then (key, new) ∷ entries else (name, held) ∷ insert key new entries

  unfoldable pub remove : String → List (String × V) → List (String × V)
  remove k [] = []
  remove k ((j, w) ∷ m) = if str_eq j k then m else (j, w) ∷ remove k m

  -- `retain(|_, v| keep(v))`
  unfoldable pub retain : (V → Bool) → List (String × V) → List (String × V)
  retain keep [] = []
  retain keep ((j, w) ∷ m) = if keep w then (j, w) ∷ retain keep m else retain keep m

  -- `min_by_key` returns the first of the least elements.
  abbrev pub earlier : (V → ℕ) → String × V → Option (String × V) → String × V
  earlier seen a none = a
  earlier seen a (some b) = if leb (seen a.1) (seen b.1) then a else b

  -- `.iter().filter(|(_, v)| can_evict(v)).min_by_key(|(_, v)| seen(v))`
  pub oldest : (V → Bool) → (V → ℕ) → List (String × V) → Option (String × V)
  oldest can_evict seen [] = none
  oldest can_evict seen ((j, w) ∷ m) =
      if can_evict w
      then some (earlier seen (j, w) (oldest can_evict seen m))
      else oldest can_evict seen m

  -- Remove the oldest entry that may go.
  pub evict : (V → Bool) → (V → ℕ) → List (String × V) → List (String × V)
  unfolding oldest remove
  evict can_evict seen m = elim (oldest can_evict seen m) [ none ↦ m | some (k, _) ↦ remove k m ]

  -- The body of each store's `evict_if_needed`.
  unfoldable pub evict_if_needed :
      (V → Bool) → (V → ℕ) → ℕ → String → List (String × V) → List (String × V)
  unfolding evict lookup
  evict_if_needed can_evict seen max_keys key m =
      if is_some (lookup key m) || ltb (length m) max_keys then m else evict can_evict seen m

-- No key occurs twice.
abbrev pub Distinct {ℓ} : {V : Type ℓ} → List (String × V) → Type ℓ
Distinct [] = Unit
Distinct ((k, v) ∷ m) = (lookup k m ≡ none) × Distinct m

-- Every value satisfies a predicate.
abbrev pub AllValues {ℓ κ} : {V : Type ℓ} → (V → Type κ) → List (String × V) → Type κ
AllValues P [] = Unit
AllValues P ((k, v) ∷ m) = P v × AllValues P m
