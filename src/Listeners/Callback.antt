-- ===== src/Listeners/Callback.antt =====
-- `PyCallback` of src/callback.rs.
use kaspa_python_sdk.Prelude.{
  String, Bool, Option, none, some, List, [], ◌∷◌, ◌++◌, nat_beq, exception, PyResult, map_err,
  unwrap_or, ◌≡◌, true, arith,
}
use kaspa_python_sdk.Listeners.Python.{Python}

module _ (py : Python) where
  open py use {Obj, Kwargs, Raised, as_ptr, call, format_exception, join}

  pub record PyCallback : Type 0 where
    pub callback : Obj
    pub args : Option (List Obj)
    pub kwargs : Option Kwargs

  unfoldable pub new : Obj → List Obj → Kwargs → PyCallback
  new callback args kwargs = record { callback = callback; args = some args; kwargs = some kwargs }

  unfoldable pub callback_ptr_eq : PyCallback → Obj → Bool
  callback_ptr_eq entry callback = nat_beq (as_ptr entry.callback) (as_ptr callback)

  -- The event comes behind the arguments given at registration.
  unfoldable pub add_event_to_args : PyCallback → Obj → List Obj
  add_event_to_args entry event = elim entry.args [
    | some existing_args ↦ existing_args ++ event ∷ []
    | none ↦ event ∷ []
  ]

  abbrev failed_traceback : String
  failed_traceback = "<Failed to retrieve traceback>"

  unfoldable pub traceback : Raised → String
  traceback raised = elim (format_exception raised) [
    | some formatted ↦ join (unwrap_or (failed_traceback ∷ []) formatted)
    | none ↦ failed_traceback
  ]

  unfoldable pub execute : PyCallback → Obj → PyResult Obj
  execute entry event =
      map_err (λ raised. exception (traceback raised))
        (call entry.callback (add_event_to_args entry event) entry.kwargs)

  pub callback_ptr_eq-new :
      (callback : Obj) (args : List Obj) (kwargs : Kwargs)
      → callback_ptr_eq (new callback args kwargs) callback ≡ true
  unfolding callback_ptr_eq new
  callback_ptr_eq-new callback args kwargs = ground arith
