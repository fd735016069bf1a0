-- ===== src/Listeners/Table.antt =====
-- The table from events to listeners: `AHashMap<K, Vec<C>>` as an association list. The program
-- walks over it only to change every list alike, so the order of the keys does not matter.
use kaspa_python_sdk.Prelude.{
  Bool, Option, none, some, List, [], ◌∷◌, ◌++◌, PartialEq, ◌==◌, if◌then◌else◌, retain, unwrap_or,
}

module _ {ℓ κ} {K : Type ℓ} {C : Type κ} ⦃e : PartialEq K⦄ where
  -- `callbacks.get(&k)`
  unfoldable pub get : List (K × List C) → K → Option (List C)
  get [] k = none
  get ((j, l) ∷ m) k = if j == k then some l else get m k

  -- `callbacks.entry(k).or_default().push(c)`
  unfoldable pub push : List (K × List C) → K → C → List (K × List C)
  push [] k c = (k, c ∷ []) ∷ []
  push ((j, l) ∷ m) k c = if j == k then (j, l ++ c ∷ []) ∷ m else (j, l) ∷ push m k c

  -- `callbacks.remove(&k)`
  unfoldable pub remove : List (K × List C) → K → List (K × List C)
  remove [] k = []
  remove ((j, l) ∷ m) k = let rest = remove m k in if j == k then rest else (j, l) ∷ rest

  -- `if let Some(l) = callbacks.get_mut(&k) { l.retain(p) }`
  unfoldable pub retain_at : List (K × List C) → K → (C → Bool) → List (K × List C)
  retain_at [] k p = []
  retain_at ((j, l) ∷ m) k p = if j == k then (j, retain p l) ∷ m else (j, l) ∷ retain_at m k p

module _ {ℓ κ} {K : Type ℓ} {C : Type κ} where
  -- `for l in callbacks.values_mut() { l.retain(p) }`
  unfoldable pub retain_all : List (K × List C) → (C → Bool) → List (K × List C)
  retain_all [] p = []
  retain_all ((j, l) ∷ m) p = (j, retain p l) ∷ retain_all m p

module _ {ℓ κ} {K : Type ℓ} {C : Type κ} ⦃e : PartialEq K⦄ (all : K) where
  -- The match on the listeners for all events and on those for this event.
  merge : Option (List C) → Option (List C) → Option (List C)
  merge (some vec_all) (some vec_target) = some (vec_all ++ vec_target)
  merge (some vec_all) none = some vec_all
  merge none (some vec_target) = some vec_target
  merge none none = none

  unfoldable pub notification_callbacks : List (K × List C) → K → Option (List C)
  unfolding merge
  notification_callbacks m event = merge (get m all) (get m event)

  -- the listeners that an event reaches, in the order of their calls
  abbrev pub handlers : List (K × List C) → K → List C
  handlers m event = unwrap_or [] (notification_callbacks m event)
