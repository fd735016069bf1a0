-- ===== src/Keys/Public.antt =====
-- Public keys and their texts, src/wallet/keys/publickey.rs, and addresses of several keys,
-- src/wallet/core/derivation.rs. A result `none` is a panic.
use kaspa_python_sdk.Prelude.{
  ℕ, ◌≡◌, ◌↔◌, refl, subst, String, Bool, false, Option, none, some, List, [], ◌∷◌, Result, ok, err,
  PyResult, exception, map_err, try_map, unwrap_or, ◌>>=◌, >>=-eq-ok, map_err-eq-ok, arith,
}

-- What the classes use of kaspa_wallet_keys, kaspa_bip32 and kaspa_wallet_core.
pub record KeyCrates : Type 1 where
  pub SecpKey : Type 0
  pub XOnlyKey : Type 0
  pub Fingerprint : Type 0
  pub Address : Type 0
  pub NetworkType : Type 0
  pub AccountKind : Type 0
  pub secp_to_string : SecpKey → String
  pub xonly_to_string : XOnlyKey → String

module _ (k : KeyCrates) where
  open k use {SecpKey, XOnlyKey, Address, NetworkType, AccountKind}

  -- `PublicKey` of kaspa_wallet_keys: a key that was given as an x-only key has no full key.
  pub record PublicKey : Type 0 where
    pub xonly_public_key : XOnlyKey
    pub public_key : Option SecpKey

  pub record PublicKeyCalls : Type 0 where
    pub try_new : String → Result String PublicKey
    pub xonly_try_new : String → Result String XOnlyKey
    pub to_address : PublicKey → NetworkType → Result String Address
    pub to_address_ecdsa : PublicKey → NetworkType → Result String Address
    pub fingerprint : PublicKey → Option k.Fingerprint
    -- `String::try_from` of a fingerprint
    pub fingerprint_to_string : k.Fingerprint → Result String String
    pub xonly_from_address : Address → Result String XOnlyKey
    -- `TryFrom<PublicKey>` for the full key
    pub into_secp : PublicKey → Result String SecpKey
    pub create_address :
        ℕ → List SecpKey → NetworkType → Bool → Option AccountKind → Result String Address

  module _ (c : PublicKeyCalls) where
    unfoldable pub try_new : String → PyResult PublicKey
    try_new key = map_err exception (c.try_new key)

    unfoldable pub to_string_impl : PublicKey → String
    to_string_impl key = elim (key.public_key) [
      | some pk ↦ k.secp_to_string pk
      | none ↦ k.xonly_to_string key.xonly_public_key
    ]

    unfoldable pub to_address : PublicKey → NetworkType → PyResult Address
    to_address key network = map_err exception (c.to_address key network)

    unfoldable pub to_address_ecdsa : PublicKey → NetworkType → PyResult Address
    to_address_ecdsa key network = map_err exception (c.to_address_ecdsa key network)

    unfoldable pub to_x_only_public_key : PublicKey → XOnlyKey
    to_x_only_public_key key = key.xonly_public_key

    unfoldable pub fingerprint : PublicKey → Option (Option String)
    fingerprint key = elim (c.fingerprint key) [
      | none ↦ some none
      | some v ↦ elim (c.fingerprint_to_string v) [ ok s ↦ some (some s) | err _ ↦ none ]
    ]

    unfoldable pub xonly_try_new : String → PyResult XOnlyKey
    xonly_try_new key = map_err exception (c.xonly_try_new key)

    unfoldable pub xonly_to_string_impl : XOnlyKey → String
    xonly_to_string_impl key = k.xonly_to_string key

    unfoldable pub xonly_from_address : Address → PyResult XOnlyKey
    xonly_from_address address = map_err exception (c.xonly_from_address address)

    unfoldable pub create_multisig_address :
        ℕ → List PublicKey → NetworkType → Option Bool → Option AccountKind → PyResult Address
    create_multisig_address minimum_signatures keys network_type ecdsa account_kind = do
      full ← map_err exception (try_map c.into_secp keys)
      map_err exception (
          c.create_address minimum_signatures full network_type (unwrap_or false ecdsa)
            account_kind)

    -- What the crates document: a text of a full key is read with its x-only key, a text of an x-only key
    -- as that alone, and only a key that has a full key converts to it.
    pub record IsDocumented : Type 0 where
      pub x_only : SecpKey → XOnlyKey
      pub full_text :
          (pk : SecpKey)
          → c.try_new (k.secp_to_string pk)
            ≡ ok (record { xonly_public_key = x_only pk; public_key = some pk })
      pub xonly_text :
          (xonly : XOnlyKey)
          → c.try_new (k.xonly_to_string xonly)
            ≡ ok (record { xonly_public_key = xonly; public_key = none })
      pub into_secp_full :
          (key : PublicKey) (pk : SecpKey) → (c.into_secp key ≡ ok pk) ↔ (key.public_key ≡ some pk)

    -- the full keys of the keys, in order
    pub data AllFull : List PublicKey → List SecpKey → Type 0 where
      no_keys : AllFull [] []
      more_keys :
          {key : PublicKey} {pk : SecpKey} {keys : List PublicKey} {full : List SecpKey}
          → key.public_key ≡ some pk
          → AllFull keys full
          → AllFull (key ∷ keys) (pk ∷ full)

    module _ (law : IsDocumented) where
      -- If the crates read texts as they document and the x-only key is that of the full key, where
      -- there is one, the text of a public key is read as the key itself.
      pub try_new-to_string_impl :
          (xonly : XOnlyKey) (full : Option SecpKey)
          → ((pk : SecpKey) → full ≡ some pk → xonly ≡ law.x_only pk)
          → try_new (to_string_impl (record { xonly_public_key = xonly; public_key = full }))
            ≡ ok (record { xonly_public_key = xonly; public_key = full })
      unfolding try_new to_string_impl
      try_new-to_string_impl xonly none h = rw (law.xonly_text xonly) refl
      try_new-to_string_impl xonly (some pk) h = rw (law.full_text pk, ← h pk refl) refl

      AllFull-try_map :
          (keys : List PublicKey) (full : List SecpKey)
          → try_map c.into_secp keys ≡ ok full
          → AllFull keys full
      AllFull-try_map [] full h = subst (AllFull []) (ground (arith, h)) no_keys
      AllFull-try_map (key ∷ keys) full h =
          let (pk, first, h) = >>=-eq-ok (c.into_secp key) _ h in
          let (later, rest, h) = >>=-eq-ok (try_map c.into_secp keys) _ h in
          let same : pk ∷ later ≡ full = ground (arith, h) in
          subst (AllFull (key ∷ keys)) same
            (more_keys ((law.into_secp_full key pk).0 first) (AllFull-try_map keys later rest))

      try_map-AllFull :
          {keys : List PublicKey} {full : List SecpKey}
          → AllFull keys full
          → try_map c.into_secp keys ≡ ok full
      try_map-AllFull no_keys = refl
      try_map-AllFull (more_keys {key} {pk} e rest) =
          rw ((law.into_secp_full key pk).1 e, try_map-AllFull rest) refl

      -- If only keys with a full key convert to it, an address of several keys is made exactly if each of
      -- them has a full key and the wallet makes that address of these, in order, without ECDSA where
      -- this is left out; an x-only key among them makes it fail.
      pub create_multisig_address-AllFull :
          (minimum_signatures : ℕ) (keys : List PublicKey) (network_type : NetworkType)
          (ecdsa : Option Bool) (account_kind : Option AccountKind) (address : Address)
          → (create_multisig_address minimum_signatures keys network_type ecdsa account_kind
              ≡ ok address)
            ↔ ((full : List SecpKey) × AllFull keys full
                × (c.create_address minimum_signatures full network_type
                      (unwrap_or false ecdsa)
                      account_kind
                    ≡ ok address))
      unfolding create_multisig_address
      create_multisig_address-AllFull minimum_signatures keys network_type ecdsa account_kind
            address =
          (
            λ h.
                let (full, converted, h) =
                  >>=-eq-ok (map_err exception (try_map c.into_secp keys)) _ h in
                (
                  full,
                  AllFull-try_map keys full
                      (map_err-eq-ok exception (try_map c.into_secp keys) converted),
                  map_err-eq-ok exception _ h,
                ),
            λ (full, all, made). rw (create_multisig_address, try_map-AllFull all, made) refl,
          )
