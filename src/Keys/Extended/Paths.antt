-- ===== src/Keys/Extended/Paths.antt =====
-- Derivation along a path.
use kaspa_python_sdk.Prelude.{
  ℕ, ◌≡◌, refl, String, Bool, true, false, Option, none, some, List, [], ◌∷◌, ◌++◌, Result, ok, err,
  PyResult, exception, map_err, map_err-eq-ok, PyErr, unwrap_or, ◌>>=◌, ◌∙◌, sym, ap, Result-cases,
  Bool-cases, ok_value, ◌||◌, if◌then◌else◌, >>=-eq-ok, inl, inr, arith,
}
use kaspa_python_sdk.Keys.Extended.{Bip32}
use kaspa_python_sdk.Keys.Extended.DerivationPath
use kaspa_python_sdk.Keys.Extended.XPrv
use kaspa_python_sdk.Keys.Extended.XPub

-- a step for each item of a list, in order, up to the first error
abbrev pub try_fold {ℓ κ μ} :
    {E : Type ℓ} {A : Type κ} {B : Type μ} → (A → B → Result E A) → A → List B → Result E A
try_fold step a [] = ok a
try_fold step a (x ∷ xs) = step a x >>= λ c. try_fold step c xs

pub try_fold-append {ℓ κ μ} :
    {E : Type ℓ} {A : Type κ} {B : Type μ} (step : A → B → Result E A) (a : A) (xs ys : List B)
    → try_fold step a (xs ++ ys) ≡ (try_fold step a xs >>= λ c. try_fold step c ys)
try_fold-append step a [] ys = refl
try_fold-append step a (x ∷ xs) ys = elim (Result-cases (step a x)) [
  | inl (c, e) ↦ rw e (try_fold-append step c xs ys)
  | inr (_, e) ↦ rw e refl
]

>>=-ok {ℓ κ} : {E : Type ℓ} {A : Type κ} (r : Result E A) → (r >>= ok) ≡ r
>>=-ok (ok a) = refl
>>=-ok (err e) = refl

>>=_assoc {ℓ κ μ ν} :
    {E : Type ℓ} {A : Type κ} {B : Type μ} {C : Type ν} (r : Result E A) (f : A → Result E B)
    (g : B → Result E C)
    → ((r >>= f) >>= g) ≡ (r >>= λ a. f a >>= g)
>>=_assoc (ok a) f g = refl
>>=_assoc (err e) f g = refl

map_err-last {ℓ κ μ} :
    {E F : Type ℓ} {A : Type κ} {B : Type μ} (f : E → F) (r : Result E A) (g : A → Result E B)
    → map_err f (r >>= λ a. g a >>= ok) ≡ (map_err f r >>= λ a. map_err f (g a))
map_err-last f (ok a) g = ap (map_err f) (>>=-ok (g a))
map_err-last f (err e) g = refl

-- What kaspa_bip32 and kaspa_wallet_keys document: a path is a list of child numbers, along which a
-- key is derived child by child; a child that is not hardened commutes with the public key, and a
-- public key has no hardened children.
pub record IsBip32 (b : Bip32) : Type 0 where
  pub children : b.DerivationPath → List b.ChildNumber
  pub is_hardened : b.ChildNumber → Bool
  pub children-push :
      (path : b.DerivationPath) (n : b.ChildNumber)
      → children (b.path_push path n) ≡ children path ++ n ∷ []
  pub wallet_path-path_from_str : (text : String) → b.wallet_path text ≡ b.path_from_str text
  pub xprv_derive_path-children :
      (key : b.ExtendedPrivateKey) (path : b.DerivationPath)
      → b.xprv_derive_path key path ≡ try_fold b.xprv_derive_child key (children path)
  pub xpub_derive_path-children :
      (key : b.ExtendedPublicKey) (path : b.DerivationPath)
      → b.xpub_derive_path key path ≡ try_fold b.xpub_derive_child key (children path)
  pub normal_child :
      (key found : b.ExtendedPrivateKey) (n : b.ChildNumber)
      → is_hardened n ≡ false
      → b.xprv_derive_child key n ≡ ok found
      → b.xpub_derive_child (b.xprv_public_key key) n ≡ ok (b.xprv_public_key found)
  pub hardened_child :
      (key : b.ExtendedPublicKey) (n : b.ChildNumber)
      → is_hardened n ≡ true
      → (e : String) × (b.xpub_derive_child key n ≡ err e)

-- The arguments of calls of `push` or `derive_child`.
abbrev pub Calls : Type 0
Calls = List (ℕ × Option Bool)

-- The calls on a path or on a key, each on what the one before it made, up to the first error.
abbrev pub pushes : (b : Bip32) → b.DerivationPath → Calls → PyResult b.DerivationPath
pushes b = try_fold (λ path call. DerivationPath.push b path (call.0) (call.1))

abbrev pub derive_children :
    (b : Bip32) → b.ExtendedPrivateKey → Calls → PyResult b.ExtendedPrivateKey
derive_children b = try_fold (λ key call. XPrv.derive_child b key (call.0) (call.1))

module _ (b : Bip32) (law : IsBip32 b) where
  open b use {PyAny, ExtendedPrivateKey, ExtendedPublicKey, ChildNumber}

  -- whether a path has a hardened child
  pub has_hardened : List ChildNumber → Bool
  has_hardened [] = false
  has_hardened (n ∷ path) = law.is_hardened n || has_hardened path

  xpub_derives :
      (key found : ExtendedPrivateKey) (path : List ChildNumber)
      → try_fold b.xprv_derive_child key path ≡ ok found
      → ok_value (try_fold b.xpub_derive_child (b.xprv_public_key key) path)
        ≡ (if has_hardened path then none else some (b.xprv_public_key found))
  unfolding has_hardened
  xpub_derives key found [] h = ground (arith, h)
  xpub_derives key found (n ∷ path) h = elim (Bool-cases (law.is_hardened n)) [
    | inl hard ↦
        let (e, refused) = law.hardened_child (b.xprv_public_key key) n hard in
        rw (hard, refused) refl
    | inr soft ↦
        let (child, derived, rest) = >>=-eq-ok (b.xprv_derive_child key n) _ h in
        rw (soft, law.normal_child key child n soft derived) (xpub_derives child found path rest)
  ]

  ok_value-map_err {ℓ} :
      {A : Type ℓ} (f : String → PyErr) (r : Result String A) → ok_value (map_err f r) ≡ ok_value r
  ok_value-map_err f (ok a) = refl
  ok_value-map_err f (err e) = refl

  -- If the crates derive as they document, a private key derives `found` along a text of a path, and
  -- `xpub` is its public key, then `xpub` derives along the same text the public key of `found`,
  -- unless the path has a hardened child: then it derives none.
  pub derive_path-to_xpub :
      (key found : ExtendedPrivateKey) (xpub : ExtendedPublicKey) (path_obj : PyAny) (text : String)
      (path : b.DerivationPath)
      → b.extract_string path_obj ≡ some text
      → b.path_from_str text ≡ ok path
      → XPrv.to_xpub b key ≡ ok xpub
      → XPrv.derive_path b key path_obj ≡ ok found
      → ok_value (XPub.derive_path b xpub text)
        ≡ (if has_hardened (law.children path) then none else ok_value (XPrv.to_xpub b found))
  unfolding XPrv.derive_path XPrv.path_of XPrv.to_xpub XPub.derive_path DerivationPath.new
  derive_path-to_xpub key found xpub path_obj text path is_text parsed made derived =
      let same : b.xprv_public_key key ≡ xpub = ground (arith, made) in
      let along : try_fold b.xprv_derive_child key (law.children path) ≡ ok found =
        sym (law.xprv_derive_path-children key path)
        ∙ map_err-eq-ok exception (b.xprv_derive_path key path)
            (rw (XPrv.derive_path, XPrv.path_of, is_text, DerivationPath.new, parsed) at derived) in
      let both : ok_value (try_fold b.xpub_derive_child (b.xprv_public_key key) (law.children path))
          ≡ (if has_hardened (law.children path) then none else some (b.xprv_public_key found)) =
        xpub_derives key found (law.children path) along in
      rw
        (
          ← same,
          law.wallet_path-path_from_str text,
          parsed,
          law.xpub_derive_path-children (b.xprv_public_key key) path,
        )
        (ok_value-map_err exception _ ∙ both)

  derive_path-path_push :
      (key : ExtendedPrivateKey) (path : b.DerivationPath) (n : ChildNumber)
      → map_err exception (b.xprv_derive_path key (b.path_push path n)) ≡ (
          map_err exception (b.xprv_derive_path key path) >>= λ k.
          map_err exception (b.xprv_derive_child k n))
  derive_path-path_push key path n =
      rw
        (
          law.xprv_derive_path-children key (b.path_push path n),
          law.xprv_derive_path-children key path,
          law.children-push path n,
          try_fold-append b.xprv_derive_child key (law.children path) (n ∷ []),
        )
        (map_err-last exception (try_fold b.xprv_derive_child key (law.children path)) _)

  derive_children-pushes :
      (key : ExtendedPrivateKey) (path pushed : b.DerivationPath) (calls : Calls)
      → pushes b path calls ≡ ok pushed
      → map_err exception (b.xprv_derive_path key pushed)
        ≡ (map_err exception (b.xprv_derive_path key path) >>= λ k. derive_children b k calls)
  unfolding DerivationPath.push XPrv.derive_child
  derive_children-pushes key path pushed [] h =
      let same : path ≡ pushed = ground (arith, h) in rw (← same) (sym (>>=-ok _))
  derive_children-pushes key path pushed ((n, hardened) ∷ calls) h =
      let (next, first, rest) = >>=-eq-ok (DerivationPath.push b path n hardened) _ h in
      let (child, numbered, added) =
        >>=-eq-ok (map_err exception (b.child_number n (unwrap_or false hardened)))
          (λ x. ok (b.path_push path x)) first in
      let same : b.path_push path child ≡ next = ground (arith, added) in
      derive_children-pushes key next pushed calls rest
      ∙ rw (← same, derive_path-path_push key path child, numbered)
          (>>=_assoc (map_err exception (b.xprv_derive_path key path)) _ _)

  -- If the crates derive as they document, deriving by the path that calls of `push` make of `path` is
  -- deriving by `path` and then calling `derive_child` with the same arguments, in order, the errors
  -- included.
  pub derive_path-pushes :
      (key : ExtendedPrivateKey) (path pushed : b.DerivationPath) (calls : Calls)
      (path_obj pushed_obj : PyAny)
      → b.extract_string path_obj ≡ none
      → b.extract_path path_obj ≡ some path
      → b.extract_string pushed_obj ≡ none
      → b.extract_path pushed_obj ≡ some pushed
      → pushes b path calls ≡ ok pushed
      → XPrv.derive_path b key pushed_obj
        ≡ (XPrv.derive_path b key path_obj >>= λ k. derive_children b k calls)
  unfolding XPrv.derive_path XPrv.path_of
  derive_path-pushes key path pushed calls path_obj pushed_obj no_text is_path no_text2 is_pushed
        h =
      rw (XPrv.derive_path, XPrv.path_of, no_text, is_path, no_text2, is_pushed)
        (derive_children-pushes key path pushed calls h)
