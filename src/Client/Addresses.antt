-- ===== src/Client/Addresses.antt =====
-- `PyTransaction::addresses` of src/consensus/client/transaction.rs. A `HashSet` is a list without
-- repetition; the order in which it hands out its elements is not specified.
use kaspa_python_sdk.Prelude.{
  ℕ, suc, ◌≡◌, refl, sym, ap, subst, ◌∙◌, Bool, true, false, ◌||◌, Option, none, some, List, [],
  ◌∷◌, count_if, contains, PartialEq, ◌==◌, ok_value, Result, String, if◌then◌else◌, Bool-cases,
  inl, inr,
}
use kaspa_python_sdk.Convert.Backend.{Backend}
use kaspa_python_sdk.Convert.ToDict.{TransactionInput}

module _ (b : Backend) (eq_address : PartialEq b.Address) (Prefix : Type 0)
    (extract_script_pub_key_address : b.ScriptPublicKey → Prefix → Result String b.Address) where
  open b use {Address}

  -- `list.insert(address)`
  unfoldable pub insert : List Address → Address → List Address
  insert list address = if contains ⦃e = eq_address⦄ list address then list else address ∷ list

  -- the address of an input: that of its entry, or else the one of its script
  unfoldable pub address_of : Prefix → TransactionInput b → Option Address
  address_of network_type input = elim input.utxo [
    | none ↦ none
    | some reference ↦ elim reference.utxo.address [
      | some address ↦ some address
      | none ↦
          ok_value (extract_script_pub_key_address reference.utxo.script_public_key network_type)
    ]
  ]

  unfoldable pub insert_some : List Address → Option Address → List Address
  unfolding insert
  insert_some list none = list
  insert_some list (some address) = insert list address

  -- the walk over the inputs, on top of the addresses found so far
  unfoldable pub collect : Prefix → List Address → List (TransactionInput b) → List Address
  unfolding insert_some address_of
  collect network_type list [] = list
  collect network_type list (input ∷ inputs) =
      collect network_type (insert_some list (address_of network_type input)) inputs

  unfoldable pub addresses : Prefix → List (TransactionInput b) → List Address
  unfolding collect
  addresses network_type inputs = collect network_type [] inputs

  -- whether an input has this address
  abbrev pub owns : Address → Option Address → Bool
  owns address none = false
  owns address (some a) = ◌==◌ ⦃same = eq_address⦄ a address

  abbrev pub occurs : Prefix → Address → List (TransactionInput b) → Bool
  occurs network_type address [] = false
  occurs network_type address (input ∷ inputs) =
      owns address (address_of network_type input) || occurs network_type address inputs

  abbrev times : Address → List Address → ℕ
  times address = count_if (λ a. ◌==◌ ⦃same = eq_address⦄ a address)

  -- a list without repetition that holds the address if so said
  abbrev IsOnce : Address → List Address → Bool → Type 0
  IsOnce address list found =
      (contains ⦃e = eq_address⦄ list address ≡ found)
      × (times address list ≡ (if found then 1 else 0))

  or_false : (found : Bool) → found ≡ found || false
  or_false true = refl
  or_false false = refl

  or_true : (found : Bool) → found || true ≡ true
  or_true true = refl
  or_true false = refl

  or_assoc : (found own later : Bool) → (found || own) || later ≡ found || (own || later)
  or_assoc true own later = refl
  or_assoc false own later = refl

  insert-own :
      (address a : Address) (list : List Address) (found : Bool)
      → ◌==◌ ⦃same = eq_address⦄ a address ≡ true
      → IsOnce address list found
      → IsOnce address (insert list a) true
  unfolding insert
  insert-own address a list true e (held, once) =
      let at =
        ap (contains ⦃e = eq_address⦄ list) ((eq_address.eq_test_iff a address).0 e) ∙ held in
      rw at (held, once)
  insert-own address a list false e (held, once) =
      let at =
        ap (contains ⦃e = eq_address⦄ list) ((eq_address.eq_test_iff a address).0 e) ∙ held in
      rw (at, e) (refl, ap suc once)

  insert-other :
      (address a : Address) (list : List Address) (found : Bool)
      → ◌==◌ ⦃same = eq_address⦄ a address ≡ false
      → IsOnce address list found
      → IsOnce address (insert list a) found
  unfolding insert
  insert-other address a list found e h = elim (Bool-cases (contains ⦃e = eq_address⦄ list a)) [
    | inl t ↦ rw t h
    | inr t ↦ rw (t, e) h
  ]

  insert-IsOnce :
      (address : Address) (list : List Address) (found : Bool) (a : Option Address)
      → IsOnce address list found
      → IsOnce address (insert_some list a) (found || owns address a)
  unfolding insert_some
  insert-IsOnce address list found none h = subst (IsOnce address list) (or_false found) h
  insert-IsOnce address list found (some a) h =
      elim (Bool-cases (◌==◌ ⦃same = eq_address⦄ a address)) [
        | inl e ↦ rw e (
            subst (IsOnce address (insert list a)) (sym (or_true found))
              (insert-own address a list found e h))
        | inr e ↦ rw e (
            subst (IsOnce address (insert list a)) (or_false found)
              (insert-other address a list found e h))
      ]

  collect-IsOnce :
      (network_type : Prefix) (address : Address) (list : List Address)
      (inputs : List (TransactionInput b)) (found : Bool)
      → IsOnce address list found
      → IsOnce address
          (collect network_type list inputs)
          (found || occurs network_type address inputs)
  unfolding collect
  collect-IsOnce network_type address list [] found h =
      subst (IsOnce address list) (or_false found) h
  collect-IsOnce network_type address list (input ∷ inputs) found h =
      let own = address_of network_type input in
      subst (IsOnce address (collect network_type (insert_some list own) inputs))
        (or_assoc found (owns address own) (occurs network_type address inputs))
        (collect-IsOnce network_type address (insert_some list own) inputs
          (found || owns address own) (insert-IsOnce address list found own h))

  -- `addresses` holds an address as often as the inputs have it, up to once.
  pub addresses-occurs :
      (network_type : Prefix) (inputs : List (TransactionInput b)) (address : Address)
      → (contains ⦃e = eq_address⦄ (addresses network_type inputs) address
          ≡ occurs network_type address inputs)
        × (count_if (λ a. ◌==◌ ⦃same = eq_address⦄ a address) (addresses network_type inputs)
            ≡ (if occurs network_type address inputs then 1 else 0))
  unfolding addresses
  addresses-occurs network_type inputs address =
      collect-IsOnce network_type address [] inputs false (refl, refl)
