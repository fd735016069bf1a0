-- ===== src/Stub/Types.antt =====
-- What `transform_rpc_method_line` of src/bin/stub_gen.rs makes of the signatures of RPC methods.
use kaspa_python_sdk.Prelude.{
  ℕ, ◌≡◌, refl, ap, ◌∙◌, true, false, List, [], ◌∷◌, ◌++◌, append_assoc, nat_beq,
}
use kaspa_python_sdk.Stub.Text.{Text, chars, starts_with, contains_text, replace_from, replace}
use kaspa_python_sdk.Stub.Generator.{
  is_not_rpc, snake_to_pascal, with_types, transform_rpc_method_line,
}
use kaspa_python_sdk.Stub.Scan.{
  every, every-append, Skips-apart, replace_from-Skips, contains_text-Skips, contains_text-append,
  replace_of_absent,
}
use kaspa_python_sdk.Stub.Names.{
  is_word, all_alphanumeric, snake_case, pascal_case, IsAsciiUppercase, snake_to_pascal-snake_case,
  snake_case-is_word, pascal_case-is_word,
}
use kaspa_python_sdk.Stub.Signatures.{
  leads, IsPlain, definition, optional-Skips, dict-Skips, any-Skips,
  transform_rpc_method_line-with_types,
}

module _ (indent name : Text) (led : every leads indent ≡ true)
    (word : every is_word name ≡ true) where
  module _ (to_uppercase : ℕ → Text) (rest camel : Text) (plain : IsPlain rest)
      (pascal : snake_to_pascal to_uppercase name ≡ camel)
      (camel_word : every is_word camel ≡ true) where
    abbrev request_type : Text
    request_type = camel ++ chars "Request"

    abbrev response_type : Text
    response_type = camel ++ chars "Response"

    request_type-is_word : every is_word request_type ≡ true
    request_type-is_word = every-append is_word camel (chars "Request") camel_word refl

    -- the last replacement, up to what follows the type of the request
    return_type :
        (y : ℕ) (w : Text)
        → is_word y ≡ false
        → nat_beq 45 y ≡ false
        → replace
            (definition indent name ++ (chars "(self, request: " ++ (request_type ++ y ∷ w)))
            (chars "-> typing.Any")
            (chars "-> " ++ response_type)
          ≡ definition indent name
            ++ (chars "(self, request: "
                ++ (request_type
                    ++ replace (y ∷ w) (chars "-> typing.Any") (chars "-> " ++ response_type)))
    unfolding replace_from starts_with
    return_type y w hy ne =
        replace_from-Skips (chars "-> typing.Any") (chars "-> " ++ response_type)
          (definition indent name) (chars "(self, request: " ++ (request_type ++ y ∷ w))
          (any-Skips indent name led word _)
        ∙ ap (λ r. definition indent name ++ (chars "(self, request: " ++ r))
            (replace_from-Skips (chars "-> typing.Any") (chars "-> " ++ response_type) request_type
              (y ∷ w)
              (Skips-apart is_word [] 45 (chars "> typing.Any") request_type y w refl refl
                request_type-is_word hy ne))

    with_types-dict :
        with_types to_uppercase
          (definition indent name ++ (chars "(self, request: dict) -> typing.Any" ++ rest))
          name
        ≡ definition indent name
          ++ (chars "(self, request: "
              ++ (request_type ++ (chars ") -> " ++ (response_type ++ rest))))
    unfolding with_types replace_from contains_text starts_with
    with_types-dict =
        let head = definition indent name in
        let parameters = chars "(self, request: dict) -> typing.Any" ++ rest in
        let optional : contains_text (head ++ parameters) (chars "typing.Optional[dict] = None")
            ≡ false =
          contains_text-Skips (chars "typing.Optional[dict] = None") head parameters
            (optional-Skips indent name led word _)
          ∙ plain.1 in
        let required : contains_text (head ++ parameters) (chars "request: dict)") ≡ true =
          contains_text-append head parameters (chars "request: dict)") refl in
        let to = chars "request: " ++ request_type ++ chars ")" in
        let typed : replace (head ++ parameters) (chars "request: dict)") to
            ≡ head
              ++ (chars "(self, request: " ++ (request_type ++ (chars ") -> typing.Any" ++ rest))) =
          replace_from-Skips (chars "request: dict)") to head parameters
            (dict-Skips indent name led word _)
          ∙ ap (λ r. head ++ (chars "(self, " ++ (to ++ (chars " -> typing.Any" ++ r))))
              (replace_of_absent rest (chars "request: dict)") to plain.2)
          ∙ ap (λ r. head ++ (chars "(self, request: " ++ r))
              (append_assoc request_type (chars ")") (chars " -> typing.Any" ++ rest)) in
        rw (with_types, pascal, optional, required, typed)
          (return_type 41 (chars " -> typing.Any" ++ rest) refl refl
            ∙ ap
                (λ r.
                  head
                  ++ (chars "(self, request: "
                      ++ (request_type ++ (chars ") -> " ++ (response_type ++ r)))))
                (replace_of_absent rest (chars "-> typing.Any") (chars "-> " ++ response_type)
                  plain.0))

    with_types-optional :
        with_types to_uppercase
          (definition indent name
            ++ (chars "(self, request: typing.Optional[dict] = None) -> typing.Any" ++ rest))
          name
        ≡ definition indent name
          ++ (chars "(self, request: "
              ++ (request_type ++ (chars " | None = None) -> " ++ (response_type ++ rest))))
    unfolding with_types replace_from contains_text starts_with
    with_types-optional =
        let head = definition indent name in
        let parameters =
          chars "(self, request: typing.Optional[dict] = None) -> typing.Any" ++ rest in
        let optional : contains_text (head ++ parameters) (chars "typing.Optional[dict] = None")
            ≡ true =
          contains_text-append head parameters (chars "typing.Optional[dict] = None") refl in
        let to = request_type ++ chars " | None = None" in
        let typed : replace (head ++ parameters) (chars "typing.Optional[dict] = None") to
            ≡ head
              ++ (chars "(self, request: "
                  ++ (request_type ++ (chars " | None = None) -> typing.Any" ++ rest))) =
          replace_from-Skips (chars "typing.Optional[dict] = None") to head parameters
            (optional-Skips indent name led word _)
          ∙ ap (λ r. head ++ (chars "(self, request: " ++ (to ++ (chars ") -> typing.Any" ++ r))))
              (replace_of_absent rest (chars "typing.Optional[dict] = None") to plain.1)
          ∙ ap (λ r. head ++ (chars "(self, request: " ++ r))
              (append_assoc request_type (chars " | None = None")
                (chars ") -> typing.Any" ++ rest)) in
        rw (with_types, pascal, optional, typed)
          (return_type 32 (chars "| None = None) -> typing.Any" ++ rest) refl refl
            ∙ ap
                (λ r.
                  head
                  ++ (chars "(self, request: "
                      ++ (request_type ++ (chars " | None = None) -> " ++ (response_type ++ r)))))
                (replace_of_absent rest (chars "-> typing.Any") (chars "-> " ++ response_type)
                  plain.0))

-- If `to_uppercase` does to ASCII what it documents, a signature whose name is words of ASCII letters and
-- digits with `_` between them, and is not one of those left out, gets the types that the words in
-- Pascal case name, whether its request is required or optional. Before `def ` stand only characters
-- that no text looked for begins with, and what is replaced is not in the rest of the line.
pub transform_rpc_method_line-typed :
    (to_uppercase : ℕ → Text) (indent first : Text) (words : List Text) (rest : Text)
    → IsAsciiUppercase to_uppercase
    → every leads indent ≡ true
    → all_alphanumeric (first ∷ words) ≡ true
    → is_not_rpc (snake_case first words) ≡ false
    → IsPlain rest
    → let start = definition indent (snake_case first words) in
      let camel = pascal_case (first ∷ words) in
      (transform_rpc_method_line to_uppercase
          (start ++ (chars "(self, request: dict) -> typing.Any" ++ rest))
        ≡ start
          ++ (chars "(self, request: "
              ++ ((camel ++ chars "Request")
                  ++ (chars ") -> " ++ ((camel ++ chars "Response") ++ rest)))))
      × (transform_rpc_method_line to_uppercase
            (start ++ (chars "(self, request: typing.Optional[dict] = None) -> typing.Any" ++ rest))
          ≡ start
            ++ (chars "(self, request: "
                ++ ((camel ++ chars "Request")
                    ++ (chars " | None = None) -> " ++ ((camel ++ chars "Response") ++ rest)))))
unfolding contains_text starts_with
transform_rpc_method_line-typed to_uppercase indent first words rest upper led alphanumeric rpc
      plain =
    let name = snake_case first words in
    let word = snake_case-is_word first words alphanumeric in
    let pascal = snake_to_pascal-snake_case to_uppercase upper first words alphanumeric in
    let camel_word = pascal_case-is_word (first ∷ words) alphanumeric in
    let camel = pascal_case (first ∷ words) in
    (
      transform_rpc_method_line-with_types indent name led word to_uppercase _ rpc refl refl
          ∙ with_types-dict indent name led word to_uppercase rest camel plain pascal camel_word,
      transform_rpc_method_line-with_types indent name led word to_uppercase _ rpc refl refl
          ∙ with_types-optional indent name led word to_uppercase rest camel plain pascal
              camel_word,
    )
