-- ===== src/Stub/Text.antt =====
-- What src/bin/stub_gen.rs uses of Rust's `str`: a text is the list of the code points of its characters.
use kaspa_python_sdk.Prelude.{
  ℕ, zero, suc, ◌-◌, String, Bool, true, false, ◌&&◌, ◌||◌, Option, none, some, List, [], ◌∷◌, ◌++◌,
  nat_beq, length, leb, contains, eq_of_nat, if◌then◌else◌,
}
use Prim.Native.Char.{code}
use Prim.Native.String.{[] as empty, ◌∷◌ as cons}

abbrev pub Text : Type 0
Text = List ℕ

abbrev pub chars : String → Text
chars empty = []
chars (cons c s) = code c ∷ chars s

abbrev pub is_empty : Text → Bool
is_empty [] = true
is_empty (c ∷ text) = false

abbrev pub newline : ℕ
newline = 10

abbrev pub carriage_return : ℕ
carriage_return = 13

-- `text.starts_with(pat)`
unfoldable pub starts_with : Text → Text → Bool
starts_with text [] = true
starts_with [] (p ∷ pat) = false
starts_with (c ∷ text) (p ∷ pat) = nat_beq p c && starts_with text pat

unfoldable pub contains_text : Text → Text → Bool
contains_text [] pat = starts_with [] pat
contains_text (c ∷ text) pat = starts_with (c ∷ text) pat || contains_text text pat

abbrev pub next : Option ℕ → Option ℕ
next none = none
next (some i) = some (suc i)

-- `text.find(pat)`, in characters
unfoldable pub find : Text → Text → Option ℕ
find [] pat = if starts_with [] pat then some 0 else none
find (c ∷ text) pat =
    let later = find text pat in if starts_with (c ∷ text) pat then some 0 else next later

-- `text.replace(pat, to)` after the next `skip` characters, for a pattern that is not empty
unfoldable pub replace_from : Text → Text → ℕ → Text → Text
replace_from pat to skip [] = []
replace_from pat to (suc skip) (c ∷ text) = replace_from pat to skip text
replace_from pat to zero (c ∷ text) =
    let hit = starts_with (c ∷ text) pat in
    let rest = replace_from pat to (if hit then length pat - 1 else 0) text in
    if hit then to ++ rest else c ∷ rest

abbrev pub replace : Text → Text → Text → Text
replace text pat to = replace_from pat to 0 text

-- a character before the first part
abbrev pub cons_head : ℕ → List Text → List Text
cons_head c [] = (c ∷ []) ∷ []
cons_head c (part ∷ parts) = (c ∷ part) ∷ parts

-- `text.split(separator)`
unfoldable pub split : ℕ → Text → List Text
split separator [] = [] ∷ []
split separator (c ∷ text) =
    let rest = split separator text in if nat_beq c separator then [] ∷ rest else cons_head c rest

-- a line without the `\r` at its end
unfoldable pub strip_carriage_return : Text → Text
strip_carriage_return [] = []
strip_carriage_return (c ∷ line) =
    let rest = strip_carriage_return line in
    if nat_beq c carriage_return && is_empty line then [] else c ∷ rest

-- the lines of a text that begins with `before`, a part of a line
unfoldable pub lines_from : Text → Text → List Text
lines_from before [] = if is_empty before then [] else before ∷ []
lines_from before (c ∷ text) =
    let is_end = nat_beq c newline in
    let rest = lines_from (if is_end then [] else before ++ c ∷ []) text in
    if is_end then strip_carriage_return before ∷ rest else rest

abbrev pub lines : Text → List Text
lines text = lines_from [] text

-- `text.ends_with(c)`
unfoldable pub ends_with : Text → ℕ → Bool
ends_with [] c = false
ends_with (x ∷ text) c = (nat_beq x c && is_empty text) || ends_with text c

-- what `pop` leaves
unfoldable pub pop : Text → Text
pop [] = []
pop (c ∷ text) = let rest = pop text in if is_empty text then [] else c ∷ rest

-- `char::is_whitespace`
abbrev pub is_whitespace : ℕ → Bool
is_whitespace c =
    (leb 9 c && leb c 13)
    || (leb 0x2000 c && leb c 0x200a)
    || contains (0x20 ∷ 0x85 ∷ 0xa0 ∷ 0x1680 ∷ 0x2028 ∷ 0x2029 ∷ 0x202f ∷ 0x205f ∷ 0x3000 ∷ []) c

unfoldable pub trim_start : Text → Text
trim_start [] = []
trim_start (c ∷ text) = let rest = trim_start text in if is_whitespace c then rest else c ∷ text

unfoldable pub trim_end : Text → Text
trim_end [] = []
trim_end (c ∷ text) =
    let rest = trim_end text in if is_whitespace c && is_empty rest then [] else c ∷ rest
