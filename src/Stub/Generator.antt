-- ===== src/Stub/Generator.antt =====
-- The functions of src/bin/stub_gen.rs, a definition for each. Regular expressions, upper case and the
-- two files that `main` reads are parameters; warnings are not kept.
use kaspa_python_sdk.Prelude.{
  ℕ, ◌+◌, String, Bool, not, ◌&&◌, ◌||◌, Option, none, some, List, [], ◌∷◌, ◌++◌, map, Result, ok,
  err, take, drop, if◌then◌else◌,
}
use kaspa_python_sdk.Stub.Text.{
  Text, chars, newline, starts_with, contains_text, find, replace, split, lines, ends_with, pop,
  trim_start, trim_end,
}

abbrev same_text : Text → Text → Bool
same_text s t = starts_with s t && starts_with t s

-- the name of the class that a line declares as an enumeration, if it begins with `Py`
unfoldable pub enum_name : Text → Option Text
enum_name line = elim (find line (chars "class Py")) [
  | none ↦ none
  | some start ↦
      if not (contains_text line (chars "(enum.Enum)"))
      then none
      else let after_class = drop (start + 6) line in
        elim (find after_class (chars "(")) [
          | none ↦ none
          | some paren_pos ↦
              let class_name = take paren_pos after_class in
              if starts_with class_name (chars "Py") then some class_name else none
        ]
]

unfoldable pub enum_names : List Text → List Text
enum_names [] = []
enum_names (line ∷ rest) =
    let names = enum_names rest in elim (enum_name line) [ none ↦ names | some name ↦ name ∷ names ]

-- the loop over the names, each of which begins with `Py`
unfoldable pub strip_each : List Text → Text → Text
strip_each [] result = result
strip_each (py_name ∷ names) result = strip_each names (replace result py_name (drop 2 py_name))

unfoldable pub strip_py_prefix_from_enums : Text → Text
strip_py_prefix_from_enums content = strip_each (enum_names (lines content)) content

unfoldable pub rename_none_enum_variant : Text → Text
rename_none_enum_variant content =
    replace content (chars "    None = ...") (chars "    _None = ...")

abbrev add_impl : Text
add_impl =
    chars
      "    def add_event_listener(self, event_or_callback: typing.Any, callback: typing.Optional[typing.Any] = None, *args: typing.Any, **kwargs: typing.Any) -> None:"

abbrev remove_impl : Text
remove_impl =
    chars
      "    def remove_event_listener(self, event_or_callback: typing.Any, callback: typing.Optional[typing.Any] = None) -> None:"

abbrev overload : Text
overload = chars "    @typing.overload" ++ newline ∷ []

abbrev add_overloads : Text
add_overloads =
    overload
    ++ chars
        "    def add_event_listener(self, callback: typing.Callable[..., typing.Any], *args: typing.Any, **kwargs: typing.Any) -> None: ..."
    ++ newline ∷ overload
    ++ chars
        "    def add_event_listener(self, event_or_callback: builtins.str | UtxoProcessorEvent | typing.Sequence[builtins.str | UtxoProcessorEvent], callback: typing.Callable[..., typing.Any], *args: typing.Any, **kwargs: typing.Any) -> None: ..."
    ++ newline ∷ []

abbrev remove_overloads : Text
remove_overloads =
    overload
    ++ chars
        "    def remove_event_listener(self, event_or_callback: typing.Callable[..., typing.Any]) -> None: ..."
    ++ newline ∷ overload
    ++ chars
        "    def remove_event_listener(self, event_or_callback: builtins.str | UtxoProcessorEvent | typing.Sequence[builtins.str | UtxoProcessorEvent], callback: typing.Optional[typing.Callable[..., typing.Any]] = None) -> None: ..."
    ++ newline ∷ []

unfoldable pub fix_utxo_processor_event_listener_overloads : Text → Text
fix_utxo_processor_event_listener_overloads content =
    let out =
      if contains_text content add_impl
      then replace content add_impl (add_overloads ++ add_impl)
      else content in
    if contains_text out remove_impl
    then replace out remove_impl (remove_overloads ++ remove_impl)
    else out

-- the text that `append_rpc_types` reads, or an error
unfoldable pub append_rpc_types : Result String Text → Text → Text
append_rpc_types (ok rpc_content) content =
    let rule =
      chars "# ============================================================================="
      ++ newline ∷ [] in
    trim_end content
    ++ newline ∷ newline ∷ rule
    ++ chars "# RPC Types (from kaspa_rpc.pyi)"
    ++ newline ∷ rule
    ++ newline ∷ trim_start (trim_end rpc_content)
append_rpc_types (err e) content = content

-- names that are not of an RPC method
unfoldable pub is_not_rpc : Text → Bool
is_not_rpc method_name =
    starts_with method_name (chars "subscribe")
    || starts_with method_name (chars "unsubscribe")
    || same_text method_name (chars "connect")
    || same_text method_name (chars "disconnect")
    || same_text method_name (chars "start")
    || same_text method_name (chars "stop")
    || same_text method_name (chars "on")
    || same_text method_name (chars "remove_listener")

unfoldable pub collect : List Text → Text
collect [] = []
collect (word ∷ words) = word ++ collect words

-- `char::to_uppercase` gives some characters
module _ (to_uppercase : ℕ → Text) where
  unfoldable pub capitalized : Text → Text
  capitalized [] = []
  capitalized (first ∷ chars) = to_uppercase first ++ chars

  unfoldable pub snake_to_pascal : Text → Text
  snake_to_pascal s = collect (map capitalized (split 95 s))

  -- the line with the types of the method
  unfoldable pub with_types : Text → Text → Text
  with_types line method_name =
      let pascal_name = snake_to_pascal method_name in
      let request_type = pascal_name ++ chars "Request" in
      let response_type = pascal_name ++ chars "Response" in
      let transformed =
        if contains_text line (chars "typing.Optional[dict] = None")
        then replace line (chars "typing.Optional[dict] = None")
            (request_type ++ chars " | None = None")
        else if contains_text line (chars "request: dict)")
        then replace line (chars "request: dict)") (chars "request: " ++ request_type ++ chars ")")
        else line in
      replace transformed (chars "-> typing.Any") (chars "-> " ++ response_type)

  unfoldable pub transform_rpc_method_line : Text → Text
  transform_rpc_method_line line =
      if not (contains_text line (chars "request:"))
        || not (contains_text line (chars "-> typing.Any"))
      then line
      else elim (find line (chars "def ")) [
        | none ↦ line
        | some def_start ↦
            let after_def = drop (def_start + 4) line in
            elim (find after_def (chars "(")) [
              | none ↦ line
              | some paren_pos ↦
                  let method_name = take paren_pos after_def in
                  if is_not_rpc method_name then line else with_types line method_name
            ]
      ]

  unfoldable pub push_lines : List Text → Text
  push_lines [] = []
  push_lines (line ∷ rest) = transform_rpc_method_line line ++ newline ∷ push_lines rest

  unfoldable pub fix_rpc_method_signatures : Text → Text
  fix_rpc_method_signatures content =
      let result = push_lines (lines content) in
      if ends_with result newline && not (ends_with content newline) then pop result else result

  -- `remove_duplicates` replaces `(= \w+(?:\.\w+)?) = None\b` by its group, everywhere
  unfoldable pub post_process_stub_file : (Text → Text) → Result String Text → Text → Text
  post_process_stub_file remove_duplicates rpc_content content = append_rpc_types rpc_content (
      fix_utxo_processor_event_listener_overloads (
        remove_duplicates (
          fix_rpc_method_signatures
            (rename_none_enum_variant (strip_py_prefix_from_enums content)))))
