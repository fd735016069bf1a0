-- ===== src/Rpc/Orphans.antt =====
-- The two spellings of `allowOrphan` in `submit_transaction`.
use kaspa_python_sdk.Prelude.{
  ◌≡◌, ◌≢◌, refl, sym, ap, ◌∙◌, >>=-eq-ok, Bool, Option, none, some, ok, err, PyResult, key_error,
  ok_or, ◌>>=◌, ◌>>◌, eq_of_string, arith,
}
use kaspa_python_sdk.Convert.Backend.{Backend, IsLawful}
use kaspa_python_sdk.Rpc.Requests.{
  Messages, deprecated, allow_orphan_of, rpc_transaction_of, SubmitTransactionRequest,
  submit_transaction,
}

module _ (b : Backend) (m : Messages b) (law : IsLawful b) where
  open b use {PyAny, PyDict, get_item, set_item}

  abbrev flag_of : Option PyAny → Option PyAny → PyResult Bool
  flag_of (some item) _ = b.extract_bool item
  flag_of none (some item) = b.extract_bool item
  flag_of none none = err (key_error "Key `allowOrphan` not present")

  allow_orphan_of-flag_of :
      (dict : PyDict)
      → allow_orphan_of b m dict
        ≡ flag_of (get_item dict "allowOrphan") (get_item dict "allow_orphan")
  unfolding allow_orphan_of
  allow_orphan_of-flag_of dict = ground arith

  -- the request, from the transaction, what the warning comes to, and the flag
  abbrev submitted :
      Option PyAny → PyResult (Unit {0}) → PyResult Bool → PyResult (SubmitTransactionRequest b m)
  submitted found warned flag = do
    item ← ok_or (key_error "Key `transaction` not present") found
    transaction ← m.extract_transaction item
    warned
    allow_orphan ← flag
    ok (record { transaction = rpc_transaction_of b m transaction; allow_orphan = allow_orphan })

  submit_transaction-submitted :
      (dict : PyDict) {found : Option PyAny} {old new : Option PyAny}
      → get_item dict "transaction" ≡ found
      → get_item dict "allow_orphan" ≡ old
      → get_item dict "allowOrphan" ≡ new
      → submit_transaction b m dict ≡ submitted found (deprecated b m old) (flag_of new old)
  unfolding submit_transaction allow_orphan_of
  submit_transaction-submitted dict found old new =
      ap (submitted (get_item dict "transaction") (deprecated b m (get_item dict "allow_orphan")))
        (allow_orphan_of-flag_of dict)
      ∙ rw (found, old, new) refl

  -- If the Python objects are lawful and the deprecation warning does not raise, the old spelling
  -- counts for nothing beside the new one, whatever object it has; alone it means the same; and
  -- without the two there is no request, but an error.
  pub submit_transaction-allow_orphan :
      (dict : PyDict) (old new : PyAny)
      → m.warn ≡ ok tt
      → get_item dict "allowOrphan" ≡ none
      → get_item dict "allow_orphan" ≡ none
      → (submit_transaction b m (set_item (set_item dict "allowOrphan" new) "allow_orphan" old)
          ≡ submit_transaction b m (set_item dict "allowOrphan" new))
        × (submit_transaction b m (set_item dict "allow_orphan" old)
            ≡ submit_transaction b m (set_item dict "allowOrphan" old))
        × ((request : SubmitTransactionRequest b m) → submit_transaction b m dict ≢ ok request)
  unfolding deprecated
  submit_transaction-allow_orphan dict old new warns no_new no_old =
      let found = get_item dict "transaction" in
      let newer = set_item dict "allowOrphan" new in
      let only_new : (v : PyAny)
          → submit_transaction b m (set_item dict "allowOrphan" v)
            ≡ submitted found (ok tt) (b.extract_bool v) =
        λ v.
          submit_transaction-submitted (set_item dict "allowOrphan" v)
            (law.get-set dict "allowOrphan" v "transaction")
            (law.get-set dict "allowOrphan" v "allow_orphan" ∙ no_old)
            (law.get-set dict "allowOrphan" v "allowOrphan") in
      (
        submit_transaction-submitted (set_item newer "allow_orphan" old)
              (law.get-set newer "allow_orphan" old "transaction"
                ∙ law.get-set dict "allowOrphan" new "transaction")
              (law.get-set newer "allow_orphan" old "allow_orphan")
              (law.get-set newer "allow_orphan" old "allowOrphan"
                ∙ law.get-set dict "allowOrphan" new "allowOrphan")
            ∙ ap (λ warned. submitted found warned (b.extract_bool new)) warns
            ∙ sym (only_new new),
        submit_transaction-submitted (set_item dict "allow_orphan" old)
              (law.get-set dict "allow_orphan" old "transaction")
              (law.get-set dict "allow_orphan" old "allow_orphan")
              (law.get-set dict "allow_orphan" old "allowOrphan" ∙ no_new)
            ∙ ap (λ warned. submitted found warned (b.extract_bool old)) warns
            ∙ sym (only_new old),
        λ request h.
            let (item, _, h) =
              >>=-eq-ok (ok_or _ found) _
                (sym (submit_transaction-submitted dict refl no_old no_new) ∙ h) in
            let (transaction, _, h) = >>=-eq-ok (m.extract_transaction item) _ h in
            absurd (ground (arith, h)),
      )
