-- ===== src/Interface/Winnow.antt =====
-- The parsers and combinators of the `winnow` crate that message.rs and sync.rs call.
-- A parser takes the input slice and returns its value with the input that is left.
use muadib.Prelude.{
  ℕ, ◌<◌, ◌≡◌, refl, Option, none, some, [], ◌∷◌, length, take, drop, leb, ◌==◌, is_empty,
  if◌then◌else◌,
}
use muadib.Prelude.Bytes.{Bytes, from_le_bytes}
use muadib.Prelude.Text.{is_digit}

abbrev pub Parser : Type 0 → Type 0
Parser A = Bytes → Option (A × Bytes)

infixl 5 ◌>>=◌
abbrev pub ◌>>=◌ {ℓ κ} : {A : Type ℓ} {B : Type κ} → Option A → (A → Option B) → Option B
none >>= f = none
some a >>= f = f a

-- Inversion of a chain of parsers that succeeded.
pub bind_elim {ℓ κ μ} :
    {A : Type ℓ} {B : Type κ} {P : Type μ} (m : Option A) (f : A → Option B) {b : B}
    → (m >>= f) ≡ some b
    → ((a : A) → m ≡ some a → f a ≡ some b → P)
    → P
bind_elim none f h k = absurd (cc)
bind_elim (some a) f h k = k a refl h

pub record Winnow : Type 1 where
  pub le_u32 : Parser ℕ
  -- `Parser::map` and `Parser::verify_map`
  pub map : {A B : Type 0} → Parser A → (A → B) → Parser B
  pub verify_map : {A B : Type 0} → Parser A → (A → Option B) → Parser B
  -- `seq!` of two and of six parsers
  pub seq_two : {A B : Type 0} → Parser A → Parser B → Parser (A × B)
  pub seq_six :
      {A B : Type 0}
      → Parser A
      → Parser B
      → Parser B
      → Parser B
      → Parser B
      → Parser B
      → Parser (A × B × B × B × B × B)
  pub length_take : Parser ℕ → Parser Bytes
  -- `take_until(1.., c)` and the literal parser of one byte
  pub take_until_some : ℕ → Parser Bytes
  pub literal : ℕ → Parser Bytes
  pub digit1 : Parser Bytes
  pub separated_pair : {A B C : Type 0} → Parser A → Parser B → Parser C → Parser (A × C)

-- The input up to the first `c`, and from it on.
abbrev pub split_at_byte : ℕ → Bytes → Option (Bytes × Bytes)
split_at_byte c [] = none
split_at_byte c (x ∷ xs) =
    let later = split_at_byte c xs in
    if x == c then some ([], x ∷ xs) else (do (a, b) ← later; some (x ∷ a, b))

-- The longest prefix of digits, and what follows it.
abbrev pub span_digits : Bytes → Bytes × Bytes
span_digits [] = ([], [])
span_digits (x ∷ xs) =
    let (a, b) = span_digits xs in if is_digit x then (x ∷ a, b) else ([], x ∷ xs)

abbrev pub some_prefix : Bytes × Bytes → Option (Bytes × Bytes)
some_prefix (a, b) = if is_empty a then none else some (a, b)

-- What the crate's documentation says of each.
pub record IsDocumented (w : Winnow) : Type 1 where
  pub le_u32_ok :
      (a b c d : ℕ) (rest : Bytes)
      → w.le_u32 (a ∷ b ∷ c ∷ d ∷ rest) ≡ some (from_le_bytes a b c d, rest)
  pub le_u32_short : (i : Bytes) → length i < 4 → w.le_u32 i ≡ none
  pub map_lem :
      {A B : Type 0} (p : Parser A) (f : A → B) (i : Bytes)
      → w.map p f i ≡ (p i >>= λ r. some (f r.0, r.1))
  pub verify_map_lem :
      {A B : Type 0} (p : Parser A) (f : A → Option B) (i : Bytes)
      → w.verify_map p f i ≡ (p i >>= λ r. f r.0 >>= λ b. some (b, r.1))
  pub seq_two_lem :
      {A B : Type 0} (p : Parser A) (q : Parser B) (i : Bytes)
      → w.seq_two p q i ≡ (p i >>= λ r. q r.1 >>= λ s. some ((r.0, s.0), s.1))
  pub seq_six_lem :
      {A B : Type 0} (p : Parser A) (q q1 q2 q3 q4 : Parser B) (i : Bytes)
      → w.seq_six p q q1 q2 q3 q4 i ≡ (
          p i >>= λ r. q r.1 >>= λ s. q1 s.1 >>= λ t. q2 t.1 >>= λ u.
          q3 u.1 >>= λ v. q4 v.1 >>= λ x. some ((r.0, s.0, t.0, u.0, v.0, x.0), x.1))
  pub length_take_lem :
      (p : Parser ℕ) (i : Bytes)
      → w.length_take p i
        ≡ (p i >>= λ r. if leb r.0 (length r.1) then some (take r.0 r.1, drop r.0 r.1) else none)
  pub take_until_some_lem :
      (c : ℕ) (i : Bytes) → w.take_until_some c i ≡ (split_at_byte c i >>= some_prefix)
  pub literal_ok : (c : ℕ) (rest : Bytes) → w.literal c (c ∷ rest) ≡ some (c ∷ [], rest)
  pub digit1_lem : (i : Bytes) → w.digit1 i ≡ some_prefix (span_digits i)
  pub separated_pair_lem :
      {A B C : Type 0} (p : Parser A) (sep : Parser B) (q : Parser C) (i : Bytes)
      → w.separated_pair p sep q i
        ≡ (p i >>= λ r. sep r.1 >>= λ s. q s.1 >>= λ t. some ((r.0, t.0), t.1))
