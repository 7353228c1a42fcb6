-- ===== src/Prelude/Lines.antt =====
-- The functions of Rust's `str` that take a text apart, on the bytes of UTF-8.
use Prim.Native.Nat.{ℕ, zero, suc}
use mathlib.Core.Bool.{Bool, true, false, ◌&&◌, ◌||◌}
use mathlib.Core.Option.{Option, none, some}
use mathlib.Core.List.{List, [], ◌∷◌}
use muadib.Prelude.Tests.{leb, ◌==◌, if◌then◌else◌}
use muadib.Prelude.Bytes.{Bytes}

abbrev pub put_first : ℕ → List Bytes → List Bytes
put_first b [] = (b ∷ []) ∷ []
put_first b (line ∷ rest) = (b ∷ line) ∷ rest

-- `str::lines`: a line ends at `\n` or `\r\n`, which are not of it.
unfoldable pub lines : Bytes → List Bytes
lines [] = []
lines (b ∷ []) = if b == 10 then [] ∷ [] else (b ∷ []) ∷ []
lines (b ∷ c ∷ bs) = elim (b == 10) [
  | true ↦ [] ∷ lines (c ∷ bs)
  | false ↦ elim (b == 13 && c == 10) [
    | true ↦ [] ∷ lines bs
    | false ↦ put_first b (lines (c ∷ bs))
  ]
]

-- `str::split_once` at a byte of ASCII
unfoldable pub split_once : ℕ → Bytes → Option (Bytes × Bytes)
split_once c [] = none
split_once c (b ∷ bs) = elim (b == c) [
  | true ↦ some ([], bs)
  | false ↦ elim (split_once c bs) [ none ↦ none | some (key, value) ↦ some (b ∷ key, value) ]
]

abbrev reverse_onto : Bytes → Bytes → Bytes
reverse_onto [] acc = acc
reverse_onto (b ∷ bs) acc = reverse_onto bs (b ∷ acc)

abbrev pub reverse : Bytes → Bytes
reverse bs = reverse_onto bs []

-- Cuts characters off the front, as long as the test gives the length of one there.
unfoldable pub trim_front : (Bytes → ℕ) → ℕ → Bytes → Bytes
trim_front len skip [] = []
trim_front len (suc skip) (b ∷ bs) = trim_front len skip bs
trim_front len zero (b ∷ bs) = elim (len (b ∷ bs)) [
  | zero ↦ b ∷ bs
  | suc skip ↦ trim_front len skip bs
]

-- One byte of ASCII.
abbrev pub one_byte : ℕ → Bytes → ℕ
one_byte c [] = 0
one_byte c (b ∷ bs) = if b == c then 1 else 0

abbrev pub trim_front_matches : ℕ → Bytes → Bytes
trim_front_matches c bs = trim_front (one_byte c) 0 bs

-- `str::trim_end_matches` and `str::trim_matches`
abbrev pub trim_end_matches : ℕ → Bytes → Bytes
trim_end_matches c bs = reverse (trim_front_matches c (reverse bs))

abbrev pub trim_matches : ℕ → Bytes → Bytes
trim_matches c bs = trim_end_matches c (trim_front_matches c bs)

-- The characters of White_Space, by their bytes.
abbrev is_space : ℕ → Bool
is_space a = (leb 9 a && leb a 13) || a == 32

abbrev is_space_two : ℕ → ℕ → Bool
is_space_two a b = a == 0xc2 && (b == 0x85 || b == 0xa0)

abbrev is_space_three : ℕ → ℕ → ℕ → Bool
is_space_three a b c =
    (a == 0xe1 && b == 0x9a && c == 0x80)
    || (a == 0xe2
        && b == 0x80
        && ((leb 0x80 c && leb c 0x8a) || c == 0xa8 || c == 0xa9 || c == 0xaf))
    || (a == 0xe2 && b == 0x81 && c == 0x9f)
    || (a == 0xe3 && b == 0x80 && c == 0x80)

abbrev space_length : Bytes → ℕ
space_length [] = 0
space_length (a ∷ []) = if is_space a then 1 else 0
space_length (a ∷ b ∷ []) = if is_space a then 1 else if is_space_two a b then 2 else 0
space_length (a ∷ b ∷ c ∷ bs) =
    if is_space a then 1 else if is_space_two a b then 2 else if is_space_three a b c then 3 else 0

-- The same, from the end of a text.
abbrev space_length_back : Bytes → ℕ
space_length_back [] = 0
space_length_back (a ∷ []) = if is_space a then 1 else 0
space_length_back (a ∷ b ∷ []) = if is_space a then 1 else if is_space_two b a then 2 else 0
space_length_back (a ∷ b ∷ c ∷ bs) =
    if is_space a then 1 else if is_space_two b a then 2 else if is_space_three c b a then 3 else 0

-- `str::trim`
unfoldable pub trim : Bytes → Bytes
unfolding trim_front
trim bs = reverse (trim_front space_length_back 0 (reverse (trim_front space_length 0 bs)))
