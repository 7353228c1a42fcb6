-- ===== src/Prelude/Text.antt =====
-- The functions of Rust's `str` and `[u8]` that the program calls, on the bytes of a text.
use Prim.Native.Nat.{ℕ, ◌+◌, ◌-◌, ◌*◌}
use mathlib.Core.Bool.{Bool, true, false, ◌&&◌}
use mathlib.Core.Option.{Option, none, some}
use mathlib.Core.List.{List, [], ◌∷◌, ◌++◌}
use muadib.Prelude.Tests.{ltb, leb, ◌==◌, if◌then◌else◌}
use muadib.Prelude.Lists.{is_empty}
use muadib.Prelude.Bytes.{Bytes}

abbrev pub is_digit : ℕ → Bool
is_digit b = leb b'0' b && leb b b'9'

-- The value of the digits behind `acc`, if it stays below the limit.
unfoldable pub parse_digits : ℕ → ℕ → Bytes → Option ℕ
parse_digits limit acc [] = some acc
parse_digits limit acc (c ∷ cs) =
    let n = acc * 10 + (c - b'0') in
    let rest = parse_digits limit n cs in if is_digit c && ltb n limit then rest else none

-- `str::parse` of an unsigned type with values below the limit: a `+` may stand in front.
unfoldable pub parse_unsigned : ℕ → Bytes → Option ℕ
unfolding parse_digits
parse_unsigned limit [] = none
parse_unsigned limit (c ∷ cs) =
    if c == b'+'
    then (if is_empty cs then none else parse_digits limit 0 cs)
    else parse_digits limit 0 (c ∷ cs)

-- `str::strip_prefix`
unfoldable pub strip_prefix : Bytes → Bytes → Option Bytes
strip_prefix [] text = some text
strip_prefix (p ∷ ps) [] = none
strip_prefix (p ∷ ps) (t ∷ ts) = let rest = strip_prefix ps ts in if p == t then rest else none

-- `str::starts_with`
unfoldable pub starts_with : Bytes → Bytes → Bool
starts_with text [] = true
starts_with [] (p ∷ ps) = false
starts_with (t ∷ ts) (p ∷ ps) = let rest = starts_with ts ps in if p == t then rest else false

-- `==` on slices
unfoldable pub bytes_eq : Bytes → Bytes → Bool
bytes_eq [] [] = true
bytes_eq [] (b ∷ bs) = false
bytes_eq (a ∷ as') [] = false
bytes_eq (a ∷ as') (b ∷ bs) = let rest = bytes_eq as' bs in if a == b then rest else false

-- `CStr::from_bytes_until_nul`: the bytes in front of the first NUL.
unfoldable pub until_nul : Bytes → Option Bytes
until_nul [] = none
until_nul (b ∷ bs) = elim (until_nul bs) [
  | none ↦ if b == 0 then some [] else none
  | some text ↦ if b == 0 then some [] else some (b ∷ text)
]

-- The bytes that must follow a first byte of UTF-8, each with its range; `none` for no first byte.
abbrev pub Ranges : Type 0
Ranges = List (ℕ × ℕ)

abbrev pub between : ℕ → ℕ → ℕ → Bool
between lo b hi = leb lo b && leb b hi

abbrev pub tail_byte : ℕ × ℕ
tail_byte = (0x80, 0xbf)

abbrev pub after_first : ℕ → Option Ranges
after_first b =
    if ltb b 0x80
    then some []
    else if between 0xc2 b 0xdf
    then some (tail_byte ∷ [])
    else if b == 0xe0
    then some ((0xa0, 0xbf) ∷ tail_byte ∷ [])
    else if b == 0xed
    then some ((0x80, 0x9f) ∷ tail_byte ∷ [])
    else if between 0xe1 b 0xef
    then some (tail_byte ∷ tail_byte ∷ [])
    else if b == 0xf0
    then some ((0x90, 0xbf) ∷ tail_byte ∷ tail_byte ∷ [])
    else if between 0xf1 b 0xf3
    then some (tail_byte ∷ tail_byte ∷ tail_byte ∷ [])
    else if b == 0xf4
    then some ((0x80, 0x8f) ∷ tail_byte ∷ tail_byte ∷ [])
    else none

abbrev pub utf8_step : Option Ranges → ℕ → Option Ranges
utf8_step none b = none
utf8_step (some []) b = after_first b
utf8_step (some ((lo, hi) ∷ more)) b = if between lo b hi then some more else none

abbrev pub utf8_end : Option Ranges → Bool
utf8_end none = false
utf8_end (some []) = true
utf8_end (some (r ∷ more)) = false

-- `CStr::to_str`: whether the bytes are UTF-8.
unfoldable pub is_utf8_from : Option Ranges → Bytes → Bool
is_utf8_from s [] = utf8_end s
is_utf8_from s (b ∷ bs) = is_utf8_from (utf8_step s b) bs

unfoldable pub is_utf8 : Bytes → Bool
unfolding is_utf8_from
is_utf8 text = is_utf8_from (some []) text

abbrev pub ends_with : ℕ → Bytes → Bool
ends_with c [] = false
ends_with c (b ∷ []) = b == c
ends_with c (b ∷ d ∷ bs) = ends_with c (d ∷ bs)

-- `Path::join` with a relative path
abbrev pub join_path : Bytes → Bytes → Bytes
join_path base name =
    if is_empty base
    then name
    else if ends_with b'/' base
    then base ++ name
    else base ++ (b'/' ∷ name)
