-- ===== src/Convert/Parts.antt =====
-- Round trips of outputs and inputs through their dicts.
use kaspa_python_sdk.Prelude.{ℕ, ◌<◌, ◌^◌, Option, none, some, List, ◌≡◌, ok, arith, eq_of_string}
use kaspa_python_sdk.Convert.Backend.{Backend, IsLawful}
use kaspa_python_sdk.Convert.ToDict.{
  UtxoEntryReference, TransactionInput, TransactionOutput, signature_object, utxo_object,
  reference_to_dict, input_to_dict, output_to_dict,
}
use kaspa_python_sdk.Convert.FromDict.{
  decode_signature, signature_script_of, utxo_of, input_from_dict, output_from_dict,
}
use kaspa_python_sdk.Convert.Entries.{
  spk_of-spk_to_dict, outpoint_of_lem, IsEntry, reference_from_dict-reference_to_dict,
}

module _ (b : Backend) (law : IsLawful b) where
  -- If the Python objects and the printers are lawful and the value is a u64, `from_dict` after
  -- `to_dict` is the output itself.
  pub output_from_dict-output_to_dict :
      (o : TransactionOutput b) → o.value < 2 ^ 64 → output_from_dict b (output_to_dict b o) ≡ ok o
  unfolding output_from_dict output_to_dict
  output_from_dict-output_to_dict o h =
      simp (law.get-set, law.u64 o.value h, spk_of-spk_to_dict b law o.script_public_key)

  decode_signature-to_hex :
      (script : List ℕ) → decode_signature b (b.to_hex script) ≡ ok (some script)
  unfolding decode_signature
  decode_signature-to_hex script =
      ground (arith, law.to_hex-empty script, law.hex_decode-to_hex script)

  signature_script_of-signature_object :
      (d : b.PyDict) (s : Option (List ℕ))
      → b.get_item d "signatureScript" ≡ some (signature_object b s)
      → signature_script_of b d ≡ ok s
  unfolding signature_script_of signature_object
  signature_script_of-signature_object d none h = ground (arith, law.none_is_none)
  signature_script_of-signature_object d (some script) h =
      let s = b.to_hex script in
      ground (arith, law.string_is_none s, law.string s, decode_signature-to_hex script)

  -- the entry of an input, if it has one, fits its machine integers
  abbrev pub IsUtxo : Option (UtxoEntryReference b) → Type 0
  IsUtxo none = Unit {0}
  IsUtxo (some r) = IsEntry b law r.utxo

  utxo_of-utxo_object :
      (d : b.PyDict) (u : Option (UtxoEntryReference b))
      → IsUtxo u
      → b.get_item d "utxo" ≡ some (utxo_object b u)
      → utxo_of b d ≡ ok u
  unfolding utxo_of utxo_object
  utxo_of-utxo_object d none u h = ground (arith, law.none_is_none)
  utxo_of-utxo_object d (some r) u h =
      let x = reference_to_dict b r in
      ground
        (arith, law.dict_is_none x, law.dict x, reference_from_dict-reference_to_dict b law r u)

  pub record IsInput (i : TransactionInput b) : Type 0 where
    pub sequence_u64 : i.sequence < 2 ^ 64
    pub sig_op_count_u8 : i.sig_op_count < 2 ^ 8
    pub utxo_fits : IsUtxo i.utxo

  -- If the Python objects and the printers are lawful and the integers fit, `from_dict` after
  -- `to_dict` is the input itself, with its signature script and its entry, present or not.
  pub input_from_dict-input_to_dict :
      (i : TransactionInput b) → IsInput i → input_from_dict b (input_to_dict b i) ≡ ok i
  unfolding input_from_dict input_to_dict
  input_from_dict-input_to_dict i h =
      let d = input_to_dict b i in
      simp (
        outpoint_of_lem b law d "previousOutpoint" "Key `previousOutpoint` not present"
            i.previous_outpoint (simp law.get-set),
        signature_script_of-signature_object d i.signature_script (simp law.get-set),
        utxo_of-utxo_object d i.utxo h.utxo_fits (simp law.get-set),
        law.get-set,
        law.u64 i.sequence h.sequence_u64,
        law.u8 i.sig_op_count h.sig_op_count_u8,
      )
