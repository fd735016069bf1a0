-- ===== src/Convert/Entries.antt =====
-- Round trips of UTXO entries through their dicts.
use kaspa_python_sdk.Prelude.{◌<◌, ◌^◌, String, Option, none, some, ◌≡◌, ok, arith, eq_of_string}
use kaspa_python_sdk.Convert.Backend.{Backend, IsLawful}
use kaspa_python_sdk.Convert.Binary.{extract_binary-string}
use kaspa_python_sdk.Convert.ToDict.{
  UtxoEntry, UtxoEntryReference, spk_to_dict, address_object, entry_to_dict, reference_to_dict,
}
use kaspa_python_sdk.Convert.FromDict.{
  address_of, outpoint_of, spk_of_dict, spk_of, spk_or_hex_of, entry_from_dict, source_dict_of,
  reference_from_dict,
}

module _ (b : Backend) (law : IsLawful b) where
  pub spk_of_dict-spk_to_dict : (s : b.ScriptPublicKey) → spk_of_dict b (spk_to_dict b s) ≡ ok s
  unfolding spk_of_dict spk_to_dict
  spk_of_dict-spk_to_dict s =
      let (script, decoded, made) = law.spk s in
      simp (
        law.get-set,
        law.u16 (b.spk_version s) (law.spk_version_u16 s),
        extract_binary-string b (b.of_string (b.script_as_hex s)) (law.string _) decoded,
        made,
      )

  pub spk_of-spk_to_dict : (s : b.ScriptPublicKey) → spk_of b (b.of_dict (spk_to_dict b s)) ≡ ok s
  unfolding spk_of
  spk_of-spk_to_dict s =
      let d = spk_to_dict b s in
      let (e, no_spk) = law.dict_no_spk d in
      rw (no_spk, law.dict d, spk_of) (spk_of_dict-spk_to_dict s)

  pub spk_or_hex_of-spk_to_dict :
      (s : b.ScriptPublicKey) → spk_or_hex_of b (b.of_dict (spk_to_dict b s)) ≡ ok s
  unfolding spk_or_hex_of
  spk_or_hex_of-spk_to_dict s =
      let d = spk_to_dict b s in
      let (e, no_spk) = law.dict_no_spk d in
      let (f, no_string) = law.dict_no_string d in
      rw (no_spk, no_string, law.dict d, spk_or_hex_of) (spk_of_dict-spk_to_dict s)

  address_of-address_object :
      (d : b.PyDict) (a : Option b.Address)
      → b.get_item d "address" ≡ some (address_object b a)
      → address_of b d ≡ ok a
  unfolding address_of address_object
  address_of-address_object d none h = ground (arith, law.none_is_none)
  address_of-address_object d (some a) h =
      let s = b.address_to_string a in
      ground (arith, law.string_is_none s, law.string s, law.address a)

  pub outpoint_of_lem :
      (d : b.PyDict) (k missing : String) (o : b.TransactionOutpoint)
      → b.get_item d k ≡ some (b.of_dict (b.outpoint_to_dict o))
      → outpoint_of b d k missing ≡ ok o
  unfolding outpoint_of
  outpoint_of_lem d k missing o h = simp (h, law.dict, law.outpoint)

  -- the amount and the score fit their machine integers
  pub record IsEntry (e : UtxoEntry b) : Type 0 where
    pub amount_u64 : e.amount < 2 ^ 64
    pub block_daa_score_u64 : e.block_daa_score < 2 ^ 64

  -- If the Python objects and the printers are lawful and the integers fit, `from_dict` after
  -- `to_dict` is the entry itself.
  pub entry_from_dict-entry_to_dict :
      (e : UtxoEntry b) → IsEntry e → entry_from_dict b (entry_to_dict b e) ≡ ok e
  unfolding entry_from_dict entry_to_dict
  entry_from_dict-entry_to_dict e h = simp (
    address_of-address_object (entry_to_dict b e) e.address (simp law.get-set),
    outpoint_of_lem (entry_to_dict b e) "outpoint" "Key `outpoint` not present" e.outpoint
        (simp law.get-set),
    law.get-set,
    law.u64 e.amount h.amount_u64,
    law.u64 e.block_daa_score h.block_daa_score_u64,
    law.bool,
    spk_of-spk_to_dict e.script_public_key,
  )

  source_dict_of_flat : (d : b.PyDict) → b.get_item d "utxoEntry" ≡ none → source_dict_of b d ≡ ok d
  unfolding source_dict_of
  source_dict_of_flat d h = ground arith

  source_dict_of_nested :
      (d source : b.PyDict)
      → b.get_item d "utxoEntry" ≡ some (b.of_dict source)
      → source_dict_of b d ≡ ok source
  unfolding source_dict_of
  source_dict_of_nested d source h = ground (arith, law.dict source)

  -- If the Python objects and the printers are lawful and the integers of the entry fit, `from_dict`
  -- after `to_dict` is the entry reference itself.
  pub reference_from_dict-reference_to_dict :
      (r : UtxoEntryReference b)
      → IsEntry r.utxo
      → reference_from_dict b (reference_to_dict b r) ≡ ok r
  unfolding reference_from_dict reference_to_dict
  reference_from_dict-reference_to_dict r h =
      let e = r.utxo in
      let d = reference_to_dict b r in
      simp (
        address_of-address_object d e.address (simp law.get-set),
        outpoint_of_lem d "outpoint" "Key `outpoint` not present" e.outpoint (simp law.get-set),
        source_dict_of_flat d (simp (law.get-set, law.get-empty)),
        law.get-set,
        law.u64 e.amount h.amount_u64,
        law.u64 e.block_daa_score h.block_daa_score_u64,
        law.bool,
        spk_or_hex_of-spk_to_dict e.script_public_key,
      )

  -- the nested form: the entry's own dict under `utxoEntry`, beside its address and outpoint
  abbrev pub nested_dict : UtxoEntryReference b → b.PyDict
  nested_dict r =
      let d = b.set_item b.empty "address" (address_object b r.utxo.address) in
      let d = b.set_item d "outpoint" (b.of_dict (b.outpoint_to_dict r.utxo.outpoint)) in
      b.set_item d "utxoEntry" (b.of_dict (entry_to_dict b r.utxo))

  -- If the Python objects and the printers are lawful and the integers of the entry fit, the nested
  -- form, which has the entry's dict under `utxoEntry`, is read as the same entry reference as the
  -- flat form.
  pub reference_from_dict-nested_dict :
      (r : UtxoEntryReference b)
      → IsEntry r.utxo
      → reference_from_dict b (nested_dict r) ≡ reference_from_dict b (reference_to_dict b r)
  unfolding reference_from_dict entry_to_dict
  reference_from_dict-nested_dict r h =
      let e = r.utxo in
      let d = nested_dict r in
      rw (reference_from_dict-reference_to_dict r h) (
        simp (
          address_of-address_object d e.address (simp law.get-set),
          outpoint_of_lem d "outpoint" "Key `outpoint` not present" e.outpoint (simp law.get-set),
          source_dict_of_nested d (entry_to_dict b e) (simp law.get-set),
          law.get-set,
          law.u64 e.amount h.amount_u64,
          law.u64 e.block_daa_score h.block_daa_score_u64,
          law.bool,
          spk_or_hex_of-spk_to_dict e.script_public_key,
        ))
