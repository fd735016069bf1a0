-- ===== src/Tx/Sources.antt =====
-- Lists of entries as the source of a transaction generator.
use kaspa_python_sdk.Prelude.{
  ◌≡◌, refl, ◌∙◌, none, some, List, [], ◌∷◌, map, ok, try_map, eq_of_string,
}
use kaspa_python_sdk.Convert.Backend.{Backend, IsLawful}
use kaspa_python_sdk.Convert.ToDict.{UtxoEntryReference, reference_to_dict}
use kaspa_python_sdk.Convert.Entries.{
  IsEntry, nested_dict, reference_from_dict-reference_to_dict, reference_from_dict-nested_dict,
}
use kaspa_python_sdk.Client.EntryLists.{to_dict}
use kaspa_python_sdk.Tx.Generator.{
  GeneratorBackend, entry_item, extract_entries, parse_generator_source, utxo_entries,
}

-- A list and a dict are no instances of the classes of this library.
pub record AreNoInstances (b : Backend) (g : GeneratorBackend b) : Type 0 where
  pub list_no_context : (items : List b.PyAny) → g.extract_context (b.of_list items) ≡ none
  pub dict_no_reference : (d : b.PyDict) → g.extract_reference (b.of_dict d) ≡ none

module _ (b : Backend) (law : IsLawful b) (g : GeneratorBackend b)
    (plain : AreNoInstances b g) where
  -- the object is this entry, or a dict of it in the flat or the nested form
  pub data StandsFor (r : UtxoEntryReference b) : b.PyAny → Type 0 where
    instance_of : {item : b.PyAny} → g.extract_reference item ≡ some r → StandsFor r item
    flat : IsEntry b law r.utxo → StandsFor r (b.of_dict (reference_to_dict b r))
    nested : IsEntry b law r.utxo → StandsFor r (b.of_dict (nested_dict b law r))

  pub data AllStandFor : List (UtxoEntryReference b) → List b.PyAny → Type 0 where
    no_items : AllStandFor [] []
    more_items :
        {r : UtxoEntryReference b} {item : b.PyAny} {entries : List (UtxoEntryReference b)}
        {items : List b.PyAny}
        → StandsFor r item
        → AllStandFor entries items
        → AllStandFor (r ∷ entries) (item ∷ items)

  entry_item-StandsFor :
      (r : UtxoEntryReference b) (item : b.PyAny) → StandsFor r item → entry_item b g item ≡ ok r
  unfolding entry_item
  entry_item-StandsFor r item (instance_of e) = rw (entry_item, e) refl
  entry_item-StandsFor r _ (flat fits) =
      rw
        (
          entry_item,
          plain.dict_no_reference (reference_to_dict b r),
          law.dict (reference_to_dict b r),
        )
        (reference_from_dict-reference_to_dict b law r fits)
  entry_item-StandsFor r _ (nested fits) =
      rw (entry_item, plain.dict_no_reference (nested_dict b law r), law.dict (nested_dict b law r))
        (reference_from_dict-nested_dict b law r fits
          ∙ reference_from_dict-reference_to_dict b law r fits)

  entry_items :
      {entries : List (UtxoEntryReference b)} {items : List b.PyAny}
      → AllStandFor entries items
      → try_map (entry_item b g) items ≡ ok entries
  entry_items no_items = refl
  entry_items (more_items {r} {item} stands rest) =
      rw (entry_item-StandsFor r item stands, entry_items rest) refl

  -- If the Python objects and the printers are lawful, a list whose items stand each for an entry, as an
  -- instance, a flat dict or a nested one, in any mixture, is the source of exactly these entries, in
  -- order.
  pub parse_generator_source-AllStandFor :
      (entries : List (UtxoEntryReference b)) (items : List b.PyAny)
      → AllStandFor entries items
      → parse_generator_source b g (b.of_list items) ≡ ok (utxo_entries entries)
  unfolding parse_generator_source extract_entries
  parse_generator_source-AllStandFor entries items h =
      rw
        (
          parse_generator_source,
          plain.list_no_context items,
          extract_entries,
          law.list items,
          entry_items h,
        )
        refl

  pub data AllFit : List (UtxoEntryReference b) → Type 0 where
    none_fit : AllFit []
    more_fit :
        {r : UtxoEntryReference b} {entries : List (UtxoEntryReference b)}
        → IsEntry b law r.utxo
        → AllFit entries
        → AllFit (r ∷ entries)

  AllFit-AllStandFor :
      {entries : List (UtxoEntryReference b)}
      → AllFit entries
      → AllStandFor entries (map (λ r. b.of_dict (reference_to_dict b r)) entries)
  AllFit-AllStandFor none_fit = no_items
  AllFit-AllStandFor (more_fit fits rest) = more_items (flat fits) (AllFit-AllStandFor rest)

  -- If the Python objects and the printers are lawful and the integers of the entries fit, `to_dict` of
  -- a list of entries has under `utxos` a value that a generator reads as exactly these entries.
  pub parse_generator_source-to_dict :
      (entries : List (UtxoEntryReference b))
      → AllFit entries
      → (d : b.PyDict) × (value : b.PyAny) × (to_dict b entries ≡ ok d)
        × (b.get_item d "utxos" ≡ some value)
        × (parse_generator_source b g value ≡ ok (utxo_entries entries))
  unfolding to_dict
  parse_generator_source-to_dict entries h =
      let items = map (λ r. b.of_dict (reference_to_dict b r)) entries in
      (
        b.set_item b.empty "utxos" (b.of_list items),
        b.of_list items,
        refl,
        simp law.get-set,
        parse_generator_source-AllStandFor entries items (AllFit-AllStandFor h),
      )
