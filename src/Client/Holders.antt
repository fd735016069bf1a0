-- ===== src/Client/Holders.antt =====
-- Which addresses `PyTransaction::addresses` of src/consensus/client/transaction.rs gives.
use kaspa_python_sdk.Prelude.{
  ◌≡◌, refl, sym, ap, ◌∙◌, ◌↔◌, Bool, true, none, some, List, [], ◌∷◌, ◌++◌, count_if, contains,
  PartialEq, ◌==◌, Result, ok, String, if◌then◌else◌, Bool-cases, Option-cases, Result-cases, inl,
  inr, arith,
}
use kaspa_python_sdk.Convert.Backend.{Backend}
use kaspa_python_sdk.Convert.ToDict.{UtxoEntryReference, TransactionInput}
use kaspa_python_sdk.Client.Addresses.{address_of, addresses, owns, occurs, addresses-occurs}

module _ (b : Backend) (eq_address : PartialEq b.Address) (Prefix : Type 0)
    (extract_script_pub_key_address : b.ScriptPublicKey → Prefix → Result String b.Address) where
  open b use {Address}

  -- An input has the address of its entry, or, where its entry has none, that of the entry's script.
  pub data HasAddress (network_type : Prefix) (input : TransactionInput b) (address : Address)
      : Type 0 where
    of_entry :
        (reference : UtxoEntryReference b)
        → input.utxo ≡ some reference
        → reference.utxo.address ≡ some address
        → HasAddress network_type input address
    of_script :
        (reference : UtxoEntryReference b)
        → input.utxo ≡ some reference
        → reference.utxo.address ≡ none
        → extract_script_pub_key_address reference.utxo.script_public_key network_type ≡ ok address
        → HasAddress network_type input address

  abbrev owned : Prefix → TransactionInput b → Address → Bool
  owned network_type input address =
      owns b eq_address Prefix extract_script_pub_key_address address
        (address_of b eq_address Prefix extract_script_pub_key_address network_type input)

  owns-HasAddress :
      (network_type : Prefix) (input : TransactionInput b) (address : Address)
      → owned network_type input address ≡ true
      → HasAddress network_type input address
  unfolding address_of
  owns-HasAddress network_type input address h = elim (Option-cases input.utxo) [
    | inl none_held ↦ absurd (ground (arith, (rw (address_of, none_held) at h)))
    | inr (reference, held) ↦ elim (Option-cases reference.utxo.address) [
      | inr (a, own) ↦
          let same = (eq_address.eq_test_iff a address).0 (rw (address_of, held, own) at h) in
          of_entry reference held (own ∙ ap some same)
      | inl absent ↦
          elim (Result-cases
            (extract_script_pub_key_address reference.utxo.script_public_key network_type)) [
              | inl (a, read) ↦
                  let same =
                    (eq_address.eq_test_iff a address).0
                      (rw (address_of, held, absent, read) at h) in
                  of_script reference held absent (read ∙ ap ok same)
              | inr (e, fails) ↦
                  absurd (ground (arith, (rw (address_of, held, absent, fails) at h)))
            ]
    ]
  ]

  HasAddress-owns :
      {network_type : Prefix} {input : TransactionInput b} {address : Address}
      → HasAddress network_type input address
      → owned network_type input address ≡ true
  unfolding address_of
  HasAddress-owns {address} (of_entry reference held own) =
      rw (address_of, held, own) ((eq_address.eq_test_iff address address).1 refl)
  HasAddress-owns {address} (of_script reference held absent read) =
      rw (address_of, held, absent, read) ((eq_address.eq_test_iff address address).1 refl)

  -- an input of the list has the address
  abbrev pub AnyHasAddress : Prefix → List (TransactionInput b) → Address → Type 0
  AnyHasAddress network_type inputs address =
      (before : List (TransactionInput b)) × (input : TransactionInput b) × (after : List
        (TransactionInput b))
      × (inputs ≡ before ++ input ∷ after)
      × HasAddress network_type input address

  occurs-AnyHasAddress :
      (network_type : Prefix) (address : Address) (inputs : List (TransactionInput b))
      → occurs b eq_address Prefix extract_script_pub_key_address network_type address inputs ≡ true
      → AnyHasAddress network_type inputs address
  occurs-AnyHasAddress network_type address [] h = absurd (ground (arith, h))
  occurs-AnyHasAddress network_type address (input ∷ inputs) h =
      elim (Bool-cases (owned network_type input address)) [
        | inl own ↦ ([], input, inputs, refl, owns-HasAddress network_type input address own)
        | inr other ↦
            let (before, holder, after, split, has) =
              occurs-AnyHasAddress network_type address inputs (ground (arith, h, other)) in
            (input ∷ before, holder, after, ap (λ r. input ∷ r) split, has)
      ]

  occurs-append :
      (network_type : Prefix) (address : Address) (before : List (TransactionInput b))
      (input : TransactionInput b) (after : List (TransactionInput b))
      → HasAddress network_type input address
      → occurs b eq_address Prefix extract_script_pub_key_address network_type address
          (before ++ input ∷ after)
        ≡ true
  occurs-append network_type address [] input after has =
      let own = HasAddress-owns has in ground (arith, own)
  occurs-append network_type address (first ∷ before) input after has =
      let later = occurs-append network_type address before input after has in ground (arith, later)

  -- `addresses` holds an address exactly if an input has it, that of its entry or, where the entry has
  -- none, that of the script of the entry; it then holds it once, however many inputs have it.
  pub addresses_iff :
      (network_type : Prefix) (inputs : List (TransactionInput b)) (address : Address)
      → ((contains ⦃e = eq_address⦄
              (addresses b eq_address Prefix extract_script_pub_key_address network_type inputs)
              address
            ≡ true)
          ↔ AnyHasAddress network_type inputs address)
        × (count_if
              (λ a. ◌==◌ ⦃same = eq_address⦄ a address)
              (addresses b eq_address Prefix extract_script_pub_key_address network_type inputs)
            ≡ (if contains ⦃e = eq_address⦄
                  (addresses b eq_address Prefix extract_script_pub_key_address network_type inputs)
                  address
                then 1
                else 0))
  addresses_iff network_type inputs address =
      let (held, times) =
        addresses-occurs b eq_address Prefix extract_script_pub_key_address network_type inputs
          address in
      (
        (
          λ h. occurs-AnyHasAddress network_type address inputs (sym held ∙ h),
          λ (before, input, after, split, has).
              held
              ∙ ap (occurs b eq_address Prefix extract_script_pub_key_address network_type address)
                  split
              ∙ occurs-append network_type address before input after has,
        ),
        rw held times,
      )
