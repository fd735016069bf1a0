-- ===== src/Tests/Stub.antt =====
-- The stub file of a method and of a file of three lines, with the upper case of ASCII.
use kaspa_python_sdk.Prelude.{ℕ, ◌≡◌, refl, false, List, [], ◌∷◌, ◌++◌, map}
use kaspa_python_sdk.Stub.Text.{
  Text, chars, starts_with, contains_text, find, replace_from, split, lines_from,
}
use kaspa_python_sdk.Stub.Generator.{
  is_not_rpc, with_types, snake_to_pascal, collect, capitalized, transform_rpc_method_line,
  fix_rpc_method_signatures, strip_py_prefix_from_enums, strip_each, enum_names, enum_name,
}
use kaspa_python_sdk.Stub.Names.{ascii_uppercase, snake_case}
use kaspa_python_sdk.Stub.Signatures.{definition, IsPlain}
use kaspa_python_sdk.Stub.Types.{transform_rpc_method_line-typed}
use kaspa_python_sdk.Stub.Lines.{with_newlines, fix_rpc_method_signatures-with_newlines}

abbrev to_uppercase : ℕ → Text
to_uppercase c = ascii_uppercase c ∷ []

abbrev words : List Text
words = chars "block" ∷ chars "count" ∷ []

abbrev head : Text
head = definition (chars "    async ") (snake_case (chars "get") words)

get_block_count_is_rpc : is_not_rpc (snake_case (chars "get") words) ≡ false
unfolding is_not_rpc starts_with
get_block_count_is_rpc = refl

colon_IsPlain : IsPlain (chars ": ...")
unfolding contains_text starts_with
colon_IsPlain = (refl, refl, refl)

transform_rpc_method_line-typed_example :
    (transform_rpc_method_line to_uppercase
        (head ++ (chars "(self, request: dict) -> typing.Any" ++ chars ": ..."))
      ≡ head ++ chars "(self, request: GetBlockCountRequest) -> GetBlockCountResponse: ...")
    × (transform_rpc_method_line to_uppercase (
          head
          ++ (chars "(self, request: typing.Optional[dict] = None) -> typing.Any" ++ chars ": ..."))
        ≡ head
          ++ chars
              "(self, request: GetBlockCountRequest | None = None) -> GetBlockCountResponse: ...")
transform_rpc_method_line-typed_example =
    transform_rpc_method_line-typed to_uppercase (chars "    async ") (chars "get") words
      (chars ": ...") (λ c h. refl) refl refl get_block_count_is_rpc colon_IsPlain

abbrev rows : List Text
rows =
    chars "class RpcClient:"
    ∷ []
    ∷ chars "    def ping(self, request: dict) -> typing.Any: ..."
    ∷ []

fix_rpc_method_signatures-with_newlines_example :
    fix_rpc_method_signatures to_uppercase (with_newlines rows (chars "x = 1"))
    ≡ with_newlines
        (map (transform_rpc_method_line to_uppercase) rows)
        (transform_rpc_method_line to_uppercase (chars "x = 1"))
fix_rpc_method_signatures-with_newlines_example =
    fix_rpc_method_signatures-with_newlines to_uppercase rows (chars "x = 1") refl refl

ping_line :
    transform_rpc_method_line to_uppercase
      (chars "    def ping(self, request: dict) -> typing.Any: ...")
    ≡ chars "    def ping(self, request: PingRequest) -> PingResponse: ..."
unfolding transform_rpc_method_line contains_text starts_with find is_not_rpc with_types
    replace_from snake_to_pascal collect capitalized split
ping_line = refl

enum_line :
    strip_py_prefix_from_enums (chars "class PyKind(enum.Enum): x: PyKind")
    ≡ chars "class Kind(enum.Enum): x: Kind"
unfolding strip_py_prefix_from_enums strip_each enum_names enum_name find contains_text starts_with
    replace_from lines_from
enum_line = refl
