-- ===== src/Stub/Names.antt =====
-- `snake_to_pascal` of src/bin/stub_gen.rs on the names of RPC methods.
use kaspa_python_sdk.Prelude.{
  ℕ, ◌-◌, ◌≡◌, refl, sym, ap, ap₂, ◌∙◌, Bool, true, false, ◌&&◌, ◌||◌, List, [], ◌∷◌, ◌++◌, map,
  append-nil, leb, nat_beq, Bool-cases, inl, inr, if◌then◌else◌, arith,
}
use kaspa_python_sdk.Stub.Text.{Text, split, cons_head}
use kaspa_python_sdk.Stub.Generator.{capitalized, collect, snake_to_pascal}
use kaspa_python_sdk.Stub.Scan.{every-append, every, every-append}

abbrev is_lower : ℕ → Bool
is_lower c = leb 97 c && leb c 122

-- ASCII letters and digits
abbrev pub is_alphanumeric : ℕ → Bool
is_alphanumeric c = is_lower c || (leb 65 c && leb c 90) || (leb 48 c && leb c 57)

abbrev pub is_word : ℕ → Bool
is_word c = is_alphanumeric c || nat_beq c 95

abbrev pub ascii_uppercase : ℕ → ℕ
ascii_uppercase c = if is_lower c then c - 32 else c

abbrev pub all_alphanumeric : List Text → Bool
all_alphanumeric [] = true
all_alphanumeric (word ∷ words) = every is_alphanumeric word && all_alphanumeric words

-- the words of a name, with `_` between them
abbrev pub snake_case : Text → List Text → Text
snake_case word [] = word
snake_case word (other ∷ words) = word ++ 95 ∷ snake_case other words

abbrev with_capital : Text → Text
with_capital [] = []
with_capital (c ∷ word) = ascii_uppercase c ∷ word

-- the words of a name, each with a capital
abbrev pub pascal_case : List Text → Text
pascal_case [] = []
pascal_case (word ∷ words) = with_capital word ++ pascal_case words

alphanumeric-is_word : (word : Text) → every is_alphanumeric word ≡ true → every is_word word ≡ true
alphanumeric-is_word [] h = refl
alphanumeric-is_word (c ∷ word) h = let rest = alphanumeric-is_word word in ground (arith, h, rest)

upper_case-is_word : (c : ℕ) → is_alphanumeric c ≡ true → is_word (ascii_uppercase c) ≡ true
upper_case-is_word c h = elim (Bool-cases (is_lower c)) [
  | inl e ↦ ground arith
  | inr e ↦ rw e (ground (arith, h))
]

with_capital-is_word :
    (word : Text) → every is_alphanumeric word ≡ true → every is_word (with_capital word) ≡ true
with_capital-is_word [] h = refl
with_capital-is_word (c ∷ word) h =
    let first = upper_case-is_word c (ground (arith, h)) in
    let rest = alphanumeric-is_word word (ground (arith, h)) in rw (first) rest

pub pascal_case-is_word :
    (words : List Text) → all_alphanumeric words ≡ true → every is_word (pascal_case words) ≡ true
pascal_case-is_word [] h = refl
pascal_case-is_word (word ∷ words) h =
    every-append is_word (with_capital word) (pascal_case words)
      (with_capital-is_word word (ground (arith, h)))
      (pascal_case-is_word words (ground (arith, h)))

-- what `to_uppercase` documents for ASCII
abbrev pub IsAsciiUppercase : (ℕ → Text) → Type 0
IsAsciiUppercase to_uppercase =
    (c : ℕ) → is_alphanumeric c ≡ true → to_uppercase c ≡ ascii_uppercase c ∷ []

pub snake_case-is_word :
    (word : Text) (words : List Text)
    → all_alphanumeric (word ∷ words) ≡ true
    → every is_word (snake_case word words) ≡ true
snake_case-is_word word [] h = alphanumeric-is_word word (ground (arith, h))
snake_case-is_word word (other ∷ words) h =
    every-append is_word word (95 ∷ snake_case other words)
      (alphanumeric-is_word word (ground (arith, h)))
      (snake_case-is_word other words (ground (arith, h)))

abbrev prepend : Text → List Text → List Text
prepend word [] = word ∷ []
prepend word (part ∷ parts) = (word ++ part) ∷ parts

prepend_cons :
    (c : ℕ) (word : Text) (parts : List Text)
    → cons_head c (prepend word parts) ≡ prepend (c ∷ word) parts
prepend_cons c word [] = refl
prepend_cons c word (part ∷ parts) = refl

cons_head-has_part :
    (c : ℕ) (parts : List Text) → cons_head c parts ≡ prepend [] (cons_head c parts)
cons_head-has_part c [] = refl
cons_head-has_part c (part ∷ parts) = refl

split-has_part : (t : Text) → split 95 t ≡ prepend [] (split 95 t)
unfolding split
split-has_part [] = refl
split-has_part (c ∷ t) = elim (Bool-cases (nat_beq c 95)) [
  | inl e ↦ rw (split, e) refl
  | inr e ↦ rw (split, e) (cons_head-has_part c (split 95 t))
]

split-prepend :
    (word t : Text)
    → every is_alphanumeric word ≡ true
    → split 95 (word ++ t) ≡ prepend word (split 95 t)
unfolding split
split-prepend [] t h = split-has_part t
split-prepend (c ∷ word) t h =
    let apart : nat_beq c 95 ≡ false = ground (arith, h) in
    rw (split, apart)
      (ap (cons_head c) (split-prepend word t (ground (arith, h)))
        ∙ prepend_cons c word (split 95 t))

split-snake_case :
    (word : Text) (words : List Text)
    → all_alphanumeric (word ∷ words) ≡ true
    → split 95 (snake_case word words) ≡ word ∷ words
unfolding split
split-snake_case word [] h =
    ap (split 95) (sym (append-nil word))
    ∙ split-prepend word [] (ground (arith, h))
    ∙ ap (λ w. w ∷ []) (append-nil word)
split-snake_case word (other ∷ words) h =
    split-prepend word (95 ∷ snake_case other words) (ground (arith, h))
    ∙ ap₂ (λ w ws. w ∷ ws) (append-nil word) (split-snake_case other words (ground (arith, h)))

module _ (to_uppercase : ℕ → Text) (upper : IsAsciiUppercase to_uppercase) where
  capitalized-with_capital :
      (word : Text)
      → every is_alphanumeric word ≡ true
      → capitalized to_uppercase word ≡ with_capital word
  unfolding capitalized
  capitalized-with_capital [] h = refl
  capitalized-with_capital (c ∷ word) h = ap (λ first. first ++ word) (upper c (ground (arith, h)))

  collect-pascal_case :
      (words : List Text)
      → all_alphanumeric words ≡ true
      → collect (map (capitalized to_uppercase) words) ≡ pascal_case words
  unfolding collect
  collect-pascal_case [] h = refl
  collect-pascal_case (word ∷ words) h =
      ap₂ (λ s t. s ++ t) (capitalized-with_capital word (ground (arith, h)))
        (collect-pascal_case words (ground (arith, h)))

  -- The words of a name in snake case are those of its name in Pascal case.
  pub snake_to_pascal-snake_case :
      (word : Text) (words : List Text)
      → all_alphanumeric (word ∷ words) ≡ true
      → snake_to_pascal to_uppercase (snake_case word words) ≡ pascal_case (word ∷ words)
  unfolding snake_to_pascal
  snake_to_pascal-snake_case word words h =
      ap (λ parts. collect (map (capitalized to_uppercase) parts)) (split-snake_case word words h)
      ∙ collect-pascal_case (word ∷ words) h
