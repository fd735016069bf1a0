-- ===== src/Tests/Extended.antt =====
-- Extended keys that are the lists of their child numbers, and paths along them.
use kaspa_python_sdk.Prelude.{
  ℕ, ◌≡◌, refl, String, Bool, true, false, Option, none, some, List, [], ◌∷◌, ◌++◌, Result, ok, err,
  ◌>>=◌, ok_value, ◌==◌, eq_of_string, eq_of_nat, arith, if◌then◌else◌,
}
use kaspa_python_sdk.Keys.Extended.{Bip32, Attrs}
use kaspa_python_sdk.Keys.Extended.DerivationPath
use kaspa_python_sdk.Keys.Extended.XPrv
use kaspa_python_sdk.Keys.Extended.XPub
use kaspa_python_sdk.Keys.Extended.Paths.{
  try_fold, IsBip32, has_hardened, derive_path-to_xpub, Calls, derive_children, derive_path-pushes,
}

data Object : Type 0 where
  text : String → Object
  path_object : List (ℕ × Bool) → Object

abbrev string_of : Object → Option String
string_of (text s) = some s
string_of (path_object _) = none

abbrev path_of_object : Object → Option (List (ℕ × Bool))
path_of_object (text _) = none
path_of_object (path_object path) = some path

abbrev parse : String → Result String (List (ℕ × Bool))
parse s = if s == "m/1/2" then ok ((1, false) ∷ (2, false) ∷ []) else err "no path"

-- the child 7 does not exist
abbrev private_child : List ℕ → ℕ × Bool → Result String (List ℕ)
private_child key (n, _) = if n == 7 then err "no child" else ok (n ∷ key)

abbrev public_child : List ℕ → ℕ × Bool → Result String (List ℕ)
public_child key (_, true) = err "hardened"
public_child key (n, false) = private_child key (n, false)

abbrev no_attrs : Attrs
no_attrs = record { depth = 0; parent_fingerprint = []; child_number = 0; chain_code = [] }

abbrev lists : Bip32
lists = record {
  PyAny = Object;
  ExtendedPrivateKey = List ℕ;
  ExtendedPublicKey = List ℕ;
  PrivateKey = Unit {0};
  PublicKey = Unit {0};
  ChildNumber = ℕ × Bool;
  DerivationPath = List (ℕ × Bool);
  Prefix = String;
  extract_string = string_of;
  extract_path = path_of_object;
  from_hex = λ _. ok [];
  to_hex = λ _. "";
  prefix_from_str = ok;
  child_number = λ n hardened. ok (n, hardened);
  path_from_str = parse;
  wallet_path = parse;
  path_is_empty = λ _. false;
  path_len = λ _. 0;
  path_parent = λ _. none;
  path_push = λ path n. path ++ n ∷ [];
  path_to_string = λ _. "";
  new = ok;
  xprv_from_str = λ _. ok [];
  xprv_derive_child = private_child;
  xprv_derive_path = try_fold private_child;
  xprv_to_extended_key = λ _ prefix. prefix;
  xprv_attrs = λ _. no_attrs;
  xprv_public_key = λ key. key;
  xprv_private_key = λ _. tt;
  secret_to_bytes = λ _. [];
  xpub_from_str = λ _. ok [];
  xpub_derive_child = public_child;
  xpub_derive_path = try_fold public_child;
  xpub_to_extended_key = λ _ prefix. prefix;
  xpub_to_string = λ _ prefix. prefix;
  xpub_attrs = λ _. no_attrs;
  xpub_public_key = λ _. tt;
}

normal :
    (key found : List ℕ) (n : ℕ × Bool)
    → n.1 ≡ false
    → private_child key n ≡ ok found
    → public_child key n ≡ ok found
normal key found (n, false) soft h = h
normal key found (n, true) soft h = absurd (ground (arith, soft))

hardened : (key : List ℕ) (n : ℕ × Bool) → n.1 ≡ true → (e : String) × (public_child key n ≡ err e)
hardened key (n, true) hard = ("hardened", refl)
hardened key (n, false) hard = absurd (ground (arith, hard))

abbrev lists-IsBip32 : IsBip32 lists
lists-IsBip32 = record {
  children = λ path. path;
  is_hardened = λ n. n.1;
  children-push = λ _ _. refl;
  wallet_path-path_from_str = λ _. refl;
  xprv_derive_path-children = λ _ _. refl;
  xpub_derive_path-children = λ _ _. refl;
  normal_child = normal;
  hardened_child = hardened;
}

derive_path-to_xpub_example : ok_value (XPub.derive_path lists (9 ∷ []) "m/1/2") ≡ (
    if has_hardened lists lists-IsBip32 ((1, false) ∷ (2, false) ∷ [])
    then none
    else ok_value (XPrv.to_xpub lists (2 ∷ 1 ∷ 9 ∷ [])))
unfolding XPrv.to_xpub XPrv.derive_path XPrv.path_of DerivationPath.new
derive_path-to_xpub_example =
    derive_path-to_xpub lists lists-IsBip32 (9 ∷ []) (2 ∷ 1 ∷ 9 ∷ []) (9 ∷ []) (text "m/1/2")
      "m/1/2" ((1, false) ∷ (2, false) ∷ []) refl refl refl refl

abbrev calls : Calls
calls = (1, none) ∷ (2, some true) ∷ []

derive_path-pushes_example :
    XPrv.derive_path lists (9 ∷ []) (path_object ((5, false) ∷ (1, false) ∷ (2, true) ∷ [])) ≡ (
      XPrv.derive_path lists (9 ∷ []) (path_object ((5, false) ∷ [])) >>= λ k.
      derive_children lists k calls)
unfolding DerivationPath.push
derive_path-pushes_example =
    derive_path-pushes lists lists-IsBip32 (9 ∷ []) ((5, false) ∷ [])
      ((5, false) ∷ (1, false) ∷ (2, true) ∷ []) calls (path_object ((5, false) ∷ []))
      (path_object ((5, false) ∷ (1, false) ∷ (2, true) ∷ [])) refl refl refl refl refl
