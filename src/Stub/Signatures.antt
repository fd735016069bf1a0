-- ===== src/Stub/Signatures.antt =====
-- How `transform_rpc_method_line` of src/bin/stub_gen.rs finds the name in the signature of a method.
use kaspa_python_sdk.Prelude.{
  ℕ, ◌+◌, ◌≡◌, refl, ap, ap₂, ◌∙◌, Bool, true, false, not, ◌||◌, some, [], ◌∷◌, ◌++◌, append_assoc,
  nat_beq, length, take, drop, arith,
}
use kaspa_python_sdk.Stub.Text.{Text, chars, starts_with, contains_text, find}
use kaspa_python_sdk.Stub.Generator.{is_not_rpc, with_types, transform_rpc_method_line}
use kaspa_python_sdk.Stub.Scan.{
  every, Skips, Skips-apart, Skips-first, Skips-append, find-Skips, contains_text-append,
  drop-append, take-length,
}
use kaspa_python_sdk.Stub.Names.{is_word}

-- what can stand before `def `: not the first character of a text that is looked for
abbrev pub leads : ℕ → Bool
leads c = not (nat_beq c 100 || nat_beq c 114 || nat_beq c 116 || nat_beq c 45)

-- the rest of a line that has nothing to replace
abbrev pub IsPlain : Text → Type 0
IsPlain rest =
    (contains_text rest (chars "-> typing.Any") ≡ false)
    × (contains_text rest (chars "typing.Optional[dict] = None") ≡ false)
    × (contains_text rest (chars "request: dict)") ≡ false)

-- a signature up to its parameters
abbrev pub definition : Text → Text → Text
definition indent name = indent ++ (chars "def " ++ name)

transform_rpc_method_line-at :
    (to_uppercase : ℕ → Text) (line : Text) (def_start paren_pos : ℕ)
    → contains_text line (chars "request:") ≡ true
    → contains_text line (chars "-> typing.Any") ≡ true
    → find line (chars "def ") ≡ some def_start
    → find (drop (def_start + 4) line) (chars "(") ≡ some paren_pos
    → is_not_rpc (take paren_pos (drop (def_start + 4) line)) ≡ false
    → transform_rpc_method_line to_uppercase line
      ≡ with_types to_uppercase line (take paren_pos (drop (def_start + 4) line))
unfolding transform_rpc_method_line
transform_rpc_method_line-at to_uppercase line def_start paren_pos request any def paren rpc =
    rw (transform_rpc_method_line, request, any, def, paren, rpc) refl

module _ (indent name : Text) (led : every leads indent ≡ true)
    (word : every is_word name ≡ true) where
  definition-Skips :
      (pat t : Text)
      → Skips pat indent ((chars "def " ++ name) ++ 40 ∷ t)
      → Skips pat (chars "def ") (name ++ 40 ∷ t)
      → Skips pat name (40 ∷ t)
      → Skips pat (definition indent name) (40 ∷ t)
  definition-Skips pat t i d n =
      Skips-append pat indent (chars "def " ++ name) (40 ∷ t) i
        (Skips-append pat (chars "def ") name (40 ∷ t) d n)

  pub optional-Skips :
      (t : Text) → Skips (chars "typing.Optional[dict] = None") (definition indent name) (40 ∷ t)
  unfolding starts_with
  optional-Skips t =
      definition-Skips (chars "typing.Optional[dict] = None") t
        (Skips-first leads 116 (chars "yping.Optional[dict] = None") indent
          ((chars "def " ++ name) ++ 40 ∷ t) refl led)
        (refl, (refl, (refl, (refl, tt))))
        (Skips-apart is_word (chars "typing") 46 (chars "Optional[dict] = None") name 40 t refl refl
          word refl refl)

  pub dict-Skips : (t : Text) → Skips (chars "request: dict)") (definition indent name) (40 ∷ t)
  unfolding starts_with
  dict-Skips t =
      definition-Skips (chars "request: dict)") t
        (Skips-first leads 114 (chars "equest: dict)") indent ((chars "def " ++ name) ++ 40 ∷ t)
          refl led)
        (refl, (refl, (refl, (refl, tt))))
        (Skips-apart is_word (chars "request") 58 (chars " dict)") name 40 t refl refl word refl
          refl)

  pub any-Skips : (t : Text) → Skips (chars "-> typing.Any") (definition indent name) (40 ∷ t)
  unfolding starts_with
  any-Skips t =
      definition-Skips (chars "-> typing.Any") t
        (Skips-first leads 45 (chars "> typing.Any") indent ((chars "def " ++ name) ++ 40 ∷ t) refl
          led)
        (refl, (refl, (refl, (refl, tt))))
        (Skips-apart is_word [] 45 (chars "> typing.Any") name 40 t refl refl word refl refl)

  find_def :
      (t : Text) → find (definition indent name ++ t) (chars "def ") ≡ some (length indent + 0)
  unfolding find starts_with
  find_def t =
      ap (λ line. find line (chars "def ")) (append_assoc indent (chars "def " ++ name) t)
      ∙ find-Skips (chars "def ") indent (chars "def " ++ (name ++ t))
          (Skips-first leads 100 (chars "ef ") indent (chars "def " ++ (name ++ t)) refl led)

  after_def : (t : Text) → drop (length indent + 0 + 4) (definition indent name ++ t) ≡ name ++ t
  after_def t =
      let at : length indent + 0 + 4 ≡ length indent + 4 = omega arith in
      ap₂ drop at (append_assoc indent (chars "def " ++ name) t)
      ∙ drop-append indent (chars "def " ++ (name ++ t)) 4

  find_parenthesis : (t : Text) → find (name ++ 40 ∷ t) (chars "(") ≡ some (length name + 0)
  unfolding find starts_with
  find_parenthesis t =
      find-Skips (chars "(") name (40 ∷ t) (Skips-first is_word 40 [] name (40 ∷ t) refl word)

  method_name : (t : Text) → take (length name + 0) (name ++ 40 ∷ t) ≡ name
  method_name t =
      let at : length name + 0 ≡ length name = omega arith in
      ap (λ n. take n (name ++ 40 ∷ t)) at ∙ take-length name (40 ∷ t)

  -- The line of an RPC method gets its types.
  pub transform_rpc_method_line-with_types :
      (to_uppercase : ℕ → Text) (t : Text)
      → is_not_rpc name ≡ false
      → contains_text (40 ∷ t) (chars "request:") ≡ true
      → contains_text (40 ∷ t) (chars "-> typing.Any") ≡ true
      → transform_rpc_method_line to_uppercase (definition indent name ++ 40 ∷ t)
        ≡ with_types to_uppercase (definition indent name ++ 40 ∷ t) name
  transform_rpc_method_line-with_types to_uppercase t rpc request any =
      let line = definition indent name ++ 40 ∷ t in
      let named : take (length name + 0) (drop (length indent + 0 + 4) line) ≡ name =
        ap (take (length name + 0)) (after_def (40 ∷ t)) ∙ method_name t in
      transform_rpc_method_line-at to_uppercase line (length indent + 0) (length name + 0)
        (contains_text-append (definition indent name) (40 ∷ t) (chars "request:") request)
        (contains_text-append (definition indent name) (40 ∷ t) (chars "-> typing.Any") any)
        (find_def (40 ∷ t))
        (ap (λ text. find text (chars "(")) (after_def (40 ∷ t)) ∙ find_parenthesis t)
        (ap is_not_rpc named ∙ rpc)
      ∙ ap (with_types to_uppercase line) named
