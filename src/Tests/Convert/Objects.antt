-- ===== src/Tests/Convert/Objects.antt =====
-- Python objects as data, and the conversions' backend over them.
use kaspa_python_sdk.Prelude.{
  ℕ, ◌<◌, ◌^◌, ◌≡◌, refl, ap, String, Bool, true, false, Option, none, some, List, [], ◌∷◌, Result,
  ok, err, raised, PyResult, ltb, nat_beq, ◌==◌, eq_of_string, if◌then◌else◌, arith,
}
use kaspa_python_sdk.Convert.Backend.{Backend, IsLawful}
use kaspa_python_sdk.Tests.Convert.Codec.{encode, decode, decode-encode, encode-empty}

mutual
  pub data Value : Type 0 where
    null : Value
    text : String → Value
    int : ℕ → Value
    bool : Bool → Value
    dict : Fields → Value
    items : Items → Value

  pub data Items : Type 0 where
    nil : Items
    cons : Value → Items → Items

  pub data Fields : Type 0 where
    end : Fields
    field : String → Value → Fields → Fields

abbrev get_item : Fields → String → Option Value
get_item end k = none
get_item (field j v d) k = if j == k then some v else get_item d k

abbrev of_list : List Value → Items
of_list [] = nil
of_list (v ∷ vs) = cons v (of_list vs)

abbrev to_list : Items → List Value
to_list nil = []
to_list (cons v vs) = v ∷ to_list vs

to_list-of_list : (vs : List Value) → to_list (of_list vs) ≡ vs
to_list-of_list [] = refl
to_list-of_list (v ∷ vs) = ap (◌∷◌ v) (to_list-of_list vs)

abbrev mismatch {ℓ} : {A : Type ℓ} → PyResult A
mismatch = err (raised "TypeError")

abbrev is_null : Value → Bool
is_null null = true
is_null _ = false

abbrev as_text : Value → PyResult String
as_text (text s) = ok s
as_text _ = mismatch

abbrev as_int : ℕ → Value → PyResult ℕ
as_int bound (int n) = if ltb n bound then ok n else mismatch
as_int bound _ = mismatch

abbrev as_bool : Value → PyResult Bool
as_bool (bool x) = ok x
as_bool _ = mismatch

abbrev as_dict : Value → PyResult Fields
as_dict (dict d) = ok d
as_dict _ = mismatch

abbrev as_list : Value → PyResult (List Value)
as_list (items vs) = ok (to_list vs)
as_list _ = mismatch

abbrev outpoint_of_fields : Fields → PyResult (String × ℕ)
outpoint_of_fields (field _ (int index) (field _ (text id) _)) = ok (id, index)
outpoint_of_fields _ = mismatch

-- A script public key is a version, 0 or 1, and a script.
abbrev pub objects : Backend
objects = record {
  PyAny = Value;
  PyDict = Fields;
  Address = String;
  Hash = String;
  SubnetworkId = List ℕ;
  ScriptPublicKey = Bool × List ℕ;
  TransactionOutpoint = String × ℕ;
  empty = end;
  set_item = λ d k v. field k v d;
  get_item = get_item;
  of_none = null;
  of_string = text;
  of_int = int;
  of_bool = bool;
  of_dict = dict;
  of_list = λ vs. items (of_list vs);
  is_none = is_null;
  extract_string = as_text;
  extract_u8 = as_int (2 ^ 8);
  extract_u16 = as_int (2 ^ 16);
  extract_u64 = as_int (2 ^ 64);
  extract_bool = as_bool;
  extract_spk = λ _. mismatch;
  cast_dict = as_dict;
  cast_list = as_list;
  cast_bytes = λ _. mismatch;
  to_hex = encode;
  hex_decode = λ s. ok (decode s);
  vec_from_hex = λ s. ok (decode s);
  address_to_string = λ s. s;
  address_from_string = λ s. ok s;
  hash_to_hex = λ s. s;
  hash_from_hex = λ s. ok s;
  subnetwork_to_hex = encode;
  subnetwork_from_bytes = λ bytes. ok bytes;
  new_spk = λ version script. (nat_beq version 1, script);
  spk_version = λ s. if s.0 then 1 else 0;
  script_as_hex = λ s. encode s.1;
  spk_from_str = λ s. ok (false, decode s);
  outpoint_to_dict = λ o. field "index" (int o.1) (field "transactionId" (text o.0) end);
  outpoint_from_dict = outpoint_of_fields;
}

as_int_lem : (bound n : ℕ) → n < bound → as_int bound (int n) ≡ ok n
as_int_lem bound n h = ground arith

spk_back :
    (s : Bool × List ℕ)
    → (script : List ℕ) × (◌≡◌ {A = Result String (List ℕ)} (ok (decode (encode s.1))) (ok script))
      × (◌≡◌ {A = Bool × List ℕ} (nat_beq (if s.0 then 1 else 0) 1, script) s)
spk_back (true, script) = (script, ap ok (decode-encode script), refl)
spk_back (false, script) = (script, ap ok (decode-encode script), refl)

spk_small : (s : Bool × List ℕ) → (if s.0 then 1 else 0) < 2 ^ 16
spk_small s = ground arith

pub objects_lawful : IsLawful objects
objects_lawful = record {
  get-empty = λ k. refl;
  get-set = λ d k v j. refl;
  none_is_none = refl;
  string_is_none = λ s. refl;
  dict_is_none = λ d. refl;
  string = λ s. refl;
  u8 = as_int_lem (2 ^ 8);
  u16 = as_int_lem (2 ^ 16);
  u64 = as_int_lem (2 ^ 64);
  bool = λ x. refl;
  dict = λ d. refl;
  list = λ vs. ap ok (to_list-of_list vs);
  dict_no_spk = λ d. (_, refl);
  dict_no_string = λ d. (_, refl);
  hex_decode-to_hex = λ bytes. ap ok (decode-encode bytes);
  vec_from_hex-to_hex = λ bytes. ap ok (decode-encode bytes);
  to_hex-empty = encode-empty;
  address = λ a. refl;
  hash = λ h. refl;
  subnetwork = λ s. (s, ap ok (decode-encode s), refl);
  spk = spk_back;
  spk_version_u16 = spk_small;
  outpoint = λ o. refl;
}
