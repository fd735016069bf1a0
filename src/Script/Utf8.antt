-- ===== src/Script/Utf8.antt =====
-- `String::from_utf8`: which bytes are a text. A text is the bytes that it stands for.
use kaspa_python_sdk.Prelude.{
  ℕ, zero, suc, ◌≤◌, ◌<◌, ◌≡◌, Bool, false, ◌&&◌, Option, none, some, List, [], ◌∷◌, leb, ltb,
  if◌then◌else◌, arith,
}

-- How many continuation bytes are due, and the range of the next one.
pub record Due : Type 0 where
  pub count : ℕ
  pub low : ℕ
  pub high : ℕ

abbrev pub none_due : Due
none_due = record { count = 0; low = 0x80; high = 0xbf }

abbrev pub between : ℕ → ℕ → ℕ → Bool
between low high n = leb low n && leb n high

-- after a first byte
unfoldable pub first : ℕ → Option Due
first n =
    if ltb n 0x80
    then some none_due
    else if between 0xc2 0xdf n
    then some (record { count = 1; low = 0x80; high = 0xbf })
    else if between 0xe0 0xe0 n
    then some (record { count = 2; low = 0xa0; high = 0xbf })
    else if between 0xed 0xed n
    then some (record { count = 2; low = 0x80; high = 0x9f })
    else if between 0xe1 0xef n
    then some (record { count = 2; low = 0x80; high = 0xbf })
    else if between 0xf0 0xf0 n
    then some (record { count = 3; low = 0x90; high = 0xbf })
    else if between 0xf1 0xf3 n
    then some (record { count = 3; low = 0x80; high = 0xbf })
    else if between 0xf4 0xf4 n
    then some (record { count = 3; low = 0x80; high = 0x8f })
    else none

-- after a byte where so many are due
unfoldable pub follow : ℕ → ℕ → ℕ → ℕ → Option Due
unfolding first
follow zero low high n = first n
follow (suc count) low high n =
    if between low high n then some (record { count = count; low = 0x80; high = 0xbf }) else none

-- whether these bytes end a text where so many are due
unfoldable pub ends : Option Due → List ℕ → Bool
unfolding follow
ends none bytes = false
ends (some due) [] = leb due.count 0
ends (some due) (byte ∷ bytes) = ends (follow due.count due.low due.high byte) bytes

unfoldable pub from_utf8 : List ℕ → Option (List ℕ)
unfolding ends
from_utf8 bytes = if ends (some none_due) bytes then some bytes else none

pub from_utf8-ascii : (byte : ℕ) → byte < 128 → from_utf8 (byte ∷ []) ≡ some (byte ∷ [])
unfolding from_utf8 ends follow first
from_utf8-ascii byte h = ground arith

-- a byte from 0x80 on is no text by itself
pub from_utf8-high : (byte : ℕ) → 128 ≤ byte → from_utf8 (byte ∷ []) ≡ none
unfolding from_utf8 ends follow first
from_utf8-high byte h = ground arith
