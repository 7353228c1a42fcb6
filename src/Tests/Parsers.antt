-- ===== src/Tests/Parsers.antt =====
-- The parsers of `winnow` as functions, which do what its documentation says.
use muadib.Prelude.{
  ℕ, ◌<◌, ◌≡◌, refl, none, some, [], ◌∷◌, length, take, drop, leb, ◌==◌, if◌then◌else◌, arith,
}
use muadib.Prelude.Bytes.{Bytes, from_le_bytes}
use muadib.Interface.Winnow
use muadib.Interface.Winnow.{Winnow, Parser, ◌>>=◌, split_at_byte, span_digits, some_prefix}

abbrev le_u32_of : Parser ℕ
le_u32_of (a ∷ b ∷ c ∷ d ∷ rest) = some (from_le_bytes a b c d, rest)
le_u32_of _ = none

le_u32_of-short : (i : Bytes) → length i < 4 → le_u32_of i ≡ none
le_u32_of-short [] h = refl
le_u32_of-short (a ∷ []) h = refl
le_u32_of-short (a ∷ b ∷ []) h = refl
le_u32_of-short (a ∷ b ∷ c ∷ []) h = refl
le_u32_of-short (a ∷ b ∷ c ∷ d ∷ rest) h = absurd (omega arith)

abbrev literal_of : ℕ → Parser Bytes
literal_of c [] = none
literal_of c (x ∷ rest) = if x == c then some (c ∷ [], rest) else none

abbrev pub parsers : Winnow
parsers = record {
  le_u32 = le_u32_of;
  map = λ p f i. p i >>= λ r. some (f r.0, r.1);
  verify_map = λ p f i. p i >>= λ r. f r.0 >>= λ b. some (b, r.1);
  seq_two = λ p q i. p i >>= λ r. q r.1 >>= λ s. some ((r.0, s.0), s.1);
  seq_six = λ p q q1 q2 q3 q4 i. p i >>= λ r. q r.1 >>= λ s. q1 s.1 >>= λ t.
      q2 t.1 >>= λ u. q3 u.1 >>= λ v. q4 v.1 >>= λ x. some ((r.0, s.0, t.0, u.0, v.0, x.0), x.1);
  length_take =
      λ p i. p i >>= λ r. if leb r.0 (length r.1) then some (take r.0 r.1, drop r.0 r.1) else none;
  take_until_some = λ c i. split_at_byte c i >>= some_prefix;
  literal = literal_of;
  digit1 = λ i. some_prefix (span_digits i);
  separated_pair = λ p sep q i. p i >>= λ r. sep r.1 >>= λ s. q s.1 >>= λ t. some ((r.0, t.0), t.1);
}

pub parsers-IsDocumented : Winnow.IsDocumented parsers
parsers-IsDocumented = record {
  le_u32_ok = λ a b c d rest. refl;
  le_u32_short = le_u32_of-short;
  map_lem = λ p f i. refl;
  verify_map_lem = λ p f i. refl;
  seq_two_lem = λ p q i. refl;
  seq_six_lem = λ p q q1 q2 q3 q4 i. refl;
  length_take_lem = λ p i. refl;
  take_until_some_lem = λ c i. refl;
  literal_ok = λ c rest. ground arith;
  digit1_lem = λ i. refl;
  separated_pair_lem = λ p sep q i. refl;
}
