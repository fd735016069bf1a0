-- ===== src/Listeners/Laws.antt =====
-- What each change of a listener table does to the list of every event.
use kaspa_python_sdk.Prelude.{
  Bool, none, some, List, [], ◌∷◌, ◌++◌, PartialEq, ◌==◌, if◌then◌else◌, retain, retain-append,
  unwrap_or, ◌≡◌, refl, arith, append-nil,
}
use mathlib.Core.Option
use kaspa_python_sdk.Listeners.Table.{
  get, push, remove, retain_at, retain_all, notification_callbacks, handlers,
}

module _ {ℓ κ} {K : Type ℓ} {C : Type κ} ⦃e : PartialEq K⦄ where
  abbrev pub listed : List (K × List C) → K → List C
  listed m k = unwrap_or [] (get m k)

  pub get-push :
      (m : List (K × List C)) (k : K) (c : C) (j : K)
      → get (push m k c) j ≡ (if k == j then some (listed m k ++ c ∷ []) else get m j)
  unfolding get push
  get-push [] k c j = refl
  get-push ((i, l) ∷ m) k c j =
      ground (arith, e.eq_test_iff i k, e.eq_test_iff i j, e.eq_test_iff k j, get-push m k c j)

  pub get-remove :
      (m : List (K × List C)) (k j : K) → get (remove m k) j ≡ (if k == j then none else get m j)
  unfolding get remove
  get-remove [] k j = ground arith
  get-remove ((i, l) ∷ m) k j =
      ground (arith, e.eq_test_iff i k, e.eq_test_iff i j, e.eq_test_iff k j, get-remove m k j)

  pub get-retain_at :
      (m : List (K × List C)) (k : K) (p : C → Bool) (j : K)
      → get (retain_at m k p) j ≡ (if k == j then Option.map (retain p) (get m j) else get m j)
  unfolding get retain_at
  get-retain_at [] k p j = ground arith
  get-retain_at ((i, l) ∷ m) k p j =
      ground (arith, e.eq_test_iff i k, e.eq_test_iff i j, e.eq_test_iff k j, get-retain_at m k p j)

  pub get-retain_all :
      (m : List (K × List C)) (p : C → Bool) (j : K)
      → get (retain_all m p) j ≡ Option.map (retain p) (get m j)
  unfolding get retain_all
  get-retain_all [] p j = refl
  get-retain_all ((i, l) ∷ m) p j = ground (arith, get-retain_all m p j)

  -- An event reaches the listeners for all events first, then its own, each in order of
  -- registration.
  pub handlers-listed :
      (all : K) (m : List (K × List C)) (event : K)
      → handlers all m event ≡ listed m all ++ listed m event
  unfolding notification_callbacks
  handlers-listed all m event = ground (arith, append-nil (listed m all))

  -- A test applied to every list is applied to what an event reaches.
  pub handlers-retain_all :
      (all : K) (m : List (K × List C)) (p : C → Bool) (event : K)
      → handlers all (retain_all m p) event ≡ retain p (handlers all m event)
  handlers-retain_all all m p event =
      rw (handlers-listed all (retain_all m p) event, handlers-listed all m event)
        (ground (
          arith,
          get-retain_all m p all,
          get-retain_all m p event,
          retain-append p (listed m all) (listed m event),
        ))

  pub listed-push :
      (m : List (K × List C)) (k : K) (c : C) (j : K)
      → listed (push m k c) j ≡ (if k == j then listed m j ++ c ∷ [] else listed m j)
  listed-push m k c j = ground (arith, get-push m k c j, e.eq_test_iff k j)

  pub listed-remove :
      (m : List (K × List C)) (k j : K)
      → listed (remove m k) j ≡ (if k == j then [] else listed m j)
  listed-remove m k j = ground (arith, get-remove m k j)

  pub listed-retain_at :
      (m : List (K × List C)) (k : K) (p : C → Bool) (j : K)
      → listed (retain_at m k p) j ≡ (if k == j then retain p (listed m j) else listed m j)
  listed-retain_at m k p j = ground (arith, get-retain_at m k p j)

  pub listed-retain_all :
      (m : List (K × List C)) (p : C → Bool) (j : K)
      → listed (retain_all m p) j ≡ retain p (listed m j)
  listed-retain_all m p j = ground (arith, get-retain_all m p j)
