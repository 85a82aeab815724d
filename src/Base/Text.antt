-- ===== src/Base/Text.antt =====
-- What the program uses of `str`: trimming, splitting and tests, on texts as lists of characters.
pub mod Parts
pub mod Pairs
use Prim.Native.Nat.{ℕ, ◌+◌, ◌-◌, ◌*◌}
use Prim.Native.Char.{Char, code}
use Prim.Native.String.{String}
use mathlib.Core.Bool.{Bool, true, false, ◌&&◌, ◌||◌, not}
use mathlib.Core.List.{List, [], ◌∷◌}
use mathlib.Core.Option.{Option, none, some}
use network_l4_monitoring_co.Base.Tests.{leb, ◌==◌, if◌then◌else◌}

abbrev within : ℕ → ℕ → ℕ → Bool
within lo hi c = leb lo c && leb c hi

-- `char::is_whitespace`: the characters with the property White_Space of Unicode.
unfoldable pub is_whitespace : Char → Bool
is_whitespace ch =
    let c = code ch in
    within 9 13 c
    || c == 0x20
    || c == 0x85
    || c == 0xa0
    || c == 0x1680
    || within 0x2000 0x200a c
    || within 0x2028 0x2029 c
    || c == 0x202f
    || c == 0x205f
    || c == 0x3000

unfoldable pub is_empty : String → Bool
is_empty String.[] = true
is_empty (String.◌∷◌ c s) = false

unfoldable pub trim_start : String → String
trim_start String.[] = ""
trim_start (String.◌∷◌ c s) =
    let rest = trim_start s in if is_whitespace c then rest else String.◌∷◌ c s

unfoldable pub trim_end : String → String
trim_end String.[] = ""
trim_end (String.◌∷◌ c s) =
    let rest = trim_end s in if is_whitespace c && is_empty rest then "" else String.◌∷◌ c rest

unfoldable pub trim : String → String
trim s = trim_end (trim_start s)

-- A character in front of the first of two texts.
abbrev pub on_first : Char → Option (String × String) → Option (String × String)
on_first c none = none
on_first c (some (before, after)) = some (String.◌∷◌ c before, after)

-- `s.split_once(c)`: the text before the first occurrence, and the text after it.
unfoldable pub split_once : ℕ → String → Option (String × String)
split_once sep String.[] = none
split_once sep (String.◌∷◌ c s) =
    let rest = split_once sep s in if code c == sep then some ("", s) else on_first c rest

-- `s.rsplit_once(c)`: the same for the last occurrence.
unfoldable pub rsplit_once : ℕ → String → Option (String × String)
rsplit_once sep String.[] = none
rsplit_once sep (String.◌∷◌ c s) = elim (rsplit_once sep s) [
  | some (before, after) ↦ some (String.◌∷◌ c before, after)
  | none ↦ if code c == sep then some ("", s) else none
]

abbrev pub on_head : Char → List String → List String
on_head c [] = String.◌∷◌ c "" ∷ []
on_head c (part ∷ parts) = String.◌∷◌ c part ∷ parts

-- `s.split(c)`; there is always one part.
unfoldable pub split : ℕ → String → List String
split sep String.[] = "" ∷ []
split sep (String.◌∷◌ c s) =
    let rest = split sep s in if code c == sep then "" ∷ rest else on_head c rest

-- `s.split_whitespace()`: the parts between whitespace, none of them empty.
abbrev pub ends_part : String → Bool
ends_part String.[] = true
ends_part (String.◌∷◌ c s) = is_whitespace c

unfoldable pub split_whitespace : String → List String
unfolding ends_part
split_whitespace String.[] = []
split_whitespace (String.◌∷◌ c s) =
    let rest = split_whitespace s in
    if is_whitespace c then rest else if ends_part s then String.◌∷◌ c "" ∷ rest else on_head c rest

-- `nth(1)` of such parts.
abbrev pub second_word : List String → Option String
second_word [] = none
second_word (a ∷ []) = none
second_word (a ∷ b ∷ rest) = some b

-- `s.lines()`: a line ends at a line feed, which a carriage return may precede.
abbrev starts_line_feed : String → Bool
starts_line_feed String.[] = false
starts_line_feed (String.◌∷◌ c s) = code c == 10

unfoldable pub lines : String → List String
unfolding starts_line_feed
lines String.[] = []
lines (String.◌∷◌ c s) =
    let rest = lines s in
    if code c == 10
    then "" ∷ rest
    else if code c == 13 && starts_line_feed s
    then rest
    else on_head c rest

-- `s.strip_prefix(c)`
unfoldable pub strip_prefix : ℕ → String → Option String
strip_prefix ch String.[] = none
strip_prefix ch (String.◌∷◌ c s) = if code c == ch then some s else none

-- `s.strip_prefix(prefix)` for a text.
unfoldable pub strip_text : String → String → Option String
strip_text String.[] s = some s
strip_text (String.◌∷◌ p ps) String.[] = none
strip_text (String.◌∷◌ p ps) (String.◌∷◌ c s) =
    let rest = strip_text ps s in if code c == code p then rest else none

-- `s.starts_with(prefix)`
abbrev pub starts_with : String → String → Bool
starts_with prefix s = elim (strip_text prefix s) [ none ↦ false | some rest ↦ true ]

-- `s.len()`: the bytes of a text in UTF-8.
abbrev pub char_len : ℕ → ℕ
char_len c = if leb c 0x7f then 1 else if leb c 0x7ff then 2 else if leb c 0xffff then 3 else 4

unfoldable pub byte_len : String → ℕ
byte_len String.[] = 0
byte_len (String.◌∷◌ c s) = char_len (code c) + byte_len s

abbrev pub with_first : Char → Option String → Option String
with_first c none = none
with_first c (some s) = some (String.◌∷◌ c s)

-- `s.strip_suffix(c)`
unfoldable pub strip_suffix : ℕ → String → Option String
strip_suffix ch String.[] = none
strip_suffix ch (String.◌∷◌ c s) =
    let rest = strip_suffix ch s in
    if is_empty s then (if code c == ch then some "" else none) else with_first c rest

-- `s.parse::<u64>()`, and `u32` for the other bound: digits, at least one, after an optional `+`.
unfoldable pub parse_digits : ℕ → ℕ → String → Option ℕ
parse_digits bound acc String.[] = some acc
parse_digits bound acc (String.◌∷◌ c s) =
    let n = acc * 10 + (code c - 48) in
    let rest = parse_digits bound n s in if within 48 57 (code c) && leb n bound then rest else none

unfoldable pub parse_uint : ℕ → String → Option ℕ
unfolding is_empty parse_digits
parse_uint bound String.[] = none
parse_uint bound (String.◌∷◌ c s) =
    let plus = code c == 43 && not (is_empty s) in
    if plus then parse_digits bound 0 s else parse_digits bound 0 (String.◌∷◌ c s)
