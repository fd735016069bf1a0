-- ===== src/Listeners/Python.antt =====
-- The Python interpreter as the listeners use it.
use kaspa_python_sdk.Prelude.{ℕ, String, Option, List, Bool, Result, PyErr}

pub record Python : Type 1 where
  -- `Py<PyAny>`, and the keyword arguments of a call
  pub Obj : Type 0
  pub Kwargs : Type 0
  -- a raised exception with its traceback
  pub Raised : Type 0
  pub as_ptr : Obj → ℕ
  pub empty_kwargs : Kwargs
  -- a call with positional and keyword arguments
  pub call : Obj → List Obj → Option Kwargs → Result Raised Obj
  -- `traceback.format_exception(..)`, with the lines if they extract as strings
  pub format_exception : Raised → Option (Option (List String))
  -- `trace_lines.join("")`
  pub join : List String → String
  pub is_callable : Obj → Bool
  pub extract_string : Obj → Option String
  -- `None` when the object cannot be iterated; an item may raise
  pub try_iter : Obj → Option (List (Result PyErr Obj))
