-- ===== src/Context/Pending.antt =====
-- `clear` and the pending entries of the processor.
use kaspa_python_sdk.Prelude.{
  String, Bool, false, not, ◌||◌, ◌≡◌, refl, ap, ◌∙◌, List, [], ◌∷◌, if◌then◌else◌, contains,
  retain, map_ok, ok, Result, arith,
}
use kaspa_python_sdk.Context.Backend.{Backend, PendingEntry, Context}
use kaspa_python_sdk.Context.Methods.{
  pending_of, keys_of, remove, remove_keys, purge_processor_pending, clear,
}

module _ (b : Backend) where
  open b use {ContextId, context_id_eq, EntryId, entry_id_eq, Entry}

  abbrev Pendings : Type 0
  Pendings = List (EntryId × PendingEntry b)

  abbrev mentions : EntryId → Pendings → Bool
  mentions k [] = false
  mentions k ((key, value) ∷ m) = entry_id_eq.eq_test key k || mentions k m

  -- A map holds each key once.
  abbrev pub IsDistinct : Pendings → Type 0
  IsDistinct [] = Unit {0}
  IsDistinct ((key, value) ∷ m) = (mentions key m ≡ false) × IsDistinct m

  abbrev of_other : ContextId → EntryId × PendingEntry b → Bool
  of_other id e = not (context_id_eq.eq_test e.1.utxo_context id)

  remove_absent : (k : EntryId) (m : Pendings) → mentions k m ≡ false → remove b k m ≡ m
  unfolding remove
  remove_absent k [] h = refl
  remove_absent k ((key, value) ∷ m) h = ground (arith, remove_absent k m)

  -- removing keys that a head does not have leaves it in place
  remove_keys-cons :
      (ks : List EntryId) (e : EntryId × PendingEntry b) (m : Pendings)
      → contains ⦃e = entry_id_eq⦄ ks e.0 ≡ false
      → remove_keys b ks (e ∷ m) ≡ e ∷ remove_keys b ks m
  unfolding remove_keys remove
  remove_keys-cons [] e m h = refl
  remove_keys-cons (k ∷ ks) (key, value) m h = ground (
    arith,
    entry_id_eq.eq_test_iff key k,
    entry_id_eq.eq_test_iff k key,
    remove_keys-cons ks (key, value) (remove b k m),
  )

  keys_of_absent :
      (id : ContextId) (k : EntryId) (m : Pendings)
      → mentions k m ≡ false
      → contains ⦃e = entry_id_eq⦄ (keys_of b id m) k ≡ false
  unfolding keys_of
  keys_of_absent id k [] h = refl
  keys_of_absent id k ((key, value) ∷ m) h = ground (arith, keys_of_absent id k m)

  remove_keys-keys_of :
      (id : ContextId) (m : Pendings)
      → IsDistinct m
      → remove_keys b (keys_of b id m) m ≡ retain (of_other id) m
  unfolding keys_of remove_keys remove
  remove_keys-keys_of id [] d = refl
  remove_keys-keys_of id ((key, value) ∷ m) d = ground (
    arith,
    entry_id_eq.eq_test_iff key key,
    remove_absent key m d.0,
    keys_of_absent id key m d.0,
    remove_keys-cons (keys_of b id m) (key, value) m,
    remove_keys-keys_of id m d.1,
  )

  pending_of-retain :
      (id other : ContextId) (m : Pendings)
      → pending_of b other (retain (of_other id) m)
        ≡ (if context_id_eq.eq_test id other then [] else pending_of b other m)
  unfolding pending_of
  pending_of-retain id other [] = ground arith
  pending_of-retain id other ((key, value) ∷ m) = ground (
    arith,
    context_id_eq.eq_test_iff value.utxo_context id,
    context_id_eq.eq_test_iff value.utxo_context other,
    context_id_eq.eq_test_iff id other,
    pending_of-retain id other m,
  )

  -- If the wallet clears the context and the processor's map holds each key once, `clear` succeeds:
  -- no entry of the cleared context is pending any more, and every other context keeps its pending
  -- entries.
  pub pending_of-clear :
      (wallet_clear : Context b → Result String (Context b)) (context cleared : Context b)
      (other : ContextId)
      → wallet_clear context ≡ ok cleared
      → IsDistinct cleared.processor.pending
      → map_ok (λ after. pending_of b other after.processor.pending) (clear b wallet_clear context)
        ≡ ok (
            if context_id_eq.eq_test cleared.id other
            then []
            else pending_of b other cleared.processor.pending)
  unfolding clear purge_processor_pending
  pending_of-clear wallet_clear context cleared other success distinct = rw success (
      ap ok (
        ap (pending_of b other) (remove_keys-keys_of cleared.id cleared.processor.pending distinct)
        ∙ pending_of-retain cleared.id other cleared.processor.pending))
