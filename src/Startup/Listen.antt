-- ===== src/Startup/Listen.antt =====
-- Proofs about the number of descriptors that src/main.rs reads from LISTEN_FDS: the texts of 3.
use muadib.Prelude.{
  ℕ, zero, suc, ◌+◌, ◌*◌, ◌-◌, ◌^◌, ◌≤◌, ◌≡◌, ◌≢◌, refl, ◌⊎◌, inl, inr, false, Bool-cases, none,
  some, [], ◌∷◌, is_empty, ◌==◌, if◌then◌else◌, arith, Option, ap, sym, ◌∙◌,
}
use native.Mathlib.Decide.{dec_lt}
use muadib.Prelude.Bytes.{Bytes}
use muadib.Prelude.Text.{parse_digits, parse_unsigned}
use muadib.Interface.Os.{pos}
use muadib.Startup.{parse_i32, negated, positive}

-- Zeros and then the digit 3.
abbrev pub IsThreeDigits : Bytes → Type 0
IsThreeDigits [] = ⊥
IsThreeDigits (c ∷ []) = c ≡ b'3'
IsThreeDigits (c ∷ d ∷ ds) = (c ≡ b'0') × IsThreeDigits (d ∷ ds)

-- The same, or with a `+` in front.
abbrev pub IsThreeText : Bytes → Type 0
IsThreeText [] = ⊥
IsThreeText (c ∷ cs) = IsThreeDigits (c ∷ cs) ⊎ ((c ≡ b'+') × IsThreeDigits cs)

parse_digits-le : (limit acc n : ℕ) (cs : Bytes) → parse_digits limit acc cs ≡ some n → acc ≤ n
unfolding parse_digits
parse_digits-le limit acc n [] h = ground arith
parse_digits-le limit acc n (c ∷ cs) h =
    ground (arith, parse_digits-le limit (acc * 10 + (c - b'0')) n cs)

parse_digits-large :
    (limit acc : ℕ) (c : ℕ) (cs : Bytes) → 1 ≤ acc → parse_digits limit acc (c ∷ cs) ≢ some 3
unfolding parse_digits
parse_digits-large limit acc c cs h e =
    ground (arith, parse_digits-le limit (acc * 10 + (c - b'0')) 3 cs)

parse_digits-three : (cs : Bytes) → IsThreeDigits cs → parse_digits (2 ^ 31) 0 cs ≡ some 3
unfolding parse_digits
parse_digits-three [] h = absurd h
parse_digits-three (c ∷ []) h = rw h refl
parse_digits-three (c ∷ d ∷ ds) (h, k) = rw h (parse_digits-three (d ∷ ds) k)

-- A digit that others follow is added to the value behind it, if it stays below the limit.
parse_digits-step :
    (limit acc n c : ℕ) (cs : Bytes)
    → parse_digits limit acc (c ∷ cs) ≡ some n
    → (b'0' ≤ c) × (parse_digits limit (acc * 10 + (c - b'0')) cs ≡ some n)
unfolding parse_digits
parse_digits-step limit acc n c cs h = ground arith

first_zero : (c d : ℕ) (ds : Bytes) → parse_digits (2 ^ 31) 0 (c ∷ d ∷ ds) ≡ some 3 → c ≡ b'0'
first_zero c d ds h =
    let (lo, e) = parse_digits-step (2 ^ 31) 0 3 c (d ∷ ds) h in
    elim (dec_lt b'0' c) [
      | yes p ↦ absurd (parse_digits-large (2 ^ 31) (0 * 10 + (c - b'0')) d ds (omega arith) e)
      | no p ↦ omega (arith, lo)
    ]

parse_digits-only :
    (c : ℕ) (cs : Bytes) → parse_digits (2 ^ 31) 0 (c ∷ cs) ≡ some 3 → IsThreeDigits (c ∷ cs)
unfolding parse_digits
parse_digits-only c [] h = ground arith
parse_digits-only c (d ∷ ds) h =
    let zero_first = first_zero c d ds h in
    let (lo, e) = parse_digits-step (2 ^ 31) 0 3 c (d ∷ ds) h in
    (
      zero_first,
      parse_digits-only d ds (
          ap (λ (x : ℕ). parse_digits (2 ^ 31) (0 * 10 + (x - b'0')) (d ∷ ds)) (sym zero_first)
          ∙ e),
    )

negated-other : (o : Option ℕ) → negated o ≢ some (pos 3)
negated-other none h = cc
negated-other (some zero) h = ground arith
negated-other (some (suc n)) h = ground arith

positive-three : (o : Option ℕ) → positive o ≡ some (pos 3) → o ≡ some 3
positive-three none h = absurd (cc)
positive-three (some n) h = ground arith

no_sign :
    (c : ℕ) (cs : Bytes) → IsThreeDigits (c ∷ cs) → ((c == b'-') ≡ false) × ((c == b'+') ≡ false)
no_sign c [] h = rw h (refl, refl)
no_sign c (d ∷ ds) (h, k) = rw h (refl, refl)

-- The text names 3 when it is zeros and the digit, with a `+` in front or not.
pub parse_i32-three : (text : Bytes) → IsThreeText text → parse_i32 text ≡ some (pos 3)
unfolding parse_i32 parse_unsigned
parse_i32-three [] h = absurd h
parse_i32-three (c ∷ cs) (inl h) =
    let (minus, plus) = no_sign c cs h in
    rw (minus, plus) (ap positive (parse_digits-three (c ∷ cs) h))
parse_i32-three (c ∷ []) (inr (h, k)) = absurd k
parse_i32-three (c ∷ d ∷ ds) (inr (h, k)) = rw h (ap positive (parse_digits-three (d ∷ ds) k))

minus_other :
    (cs : Bytes)
    → (if is_empty cs then none else negated (parse_digits (2 ^ 31 + 1) 0 cs)) ≢ some (pos 3)
minus_other [] h = cc
minus_other (c ∷ cs) h = negated-other (parse_digits (2 ^ 31 + 1) 0 (c ∷ cs)) h

-- A text with a minus names another number.
without_minus :
    (c : ℕ) (cs : Bytes)
    → parse_i32 (c ∷ cs) ≡ some (pos 3)
    → parse_unsigned (2 ^ 31) (c ∷ cs) ≡ some 3
unfolding parse_i32
without_minus c cs h = elim (Bool-cases (c == b'-')) [
  | inl e ↦ absurd (minus_other cs (rw e at h))
  | inr e ↦ positive-three (parse_unsigned (2 ^ 31) (c ∷ cs)) (rw e at h)
]

plus_only :
    (cs : Bytes)
    → (if is_empty cs then none else parse_digits (2 ^ 31) 0 cs) ≡ some 3
    → IsThreeDigits cs
plus_only [] h = absurd (cc)
plus_only (c ∷ cs) h = parse_digits-only c cs h

pub parse_i32-only : (text : Bytes) → parse_i32 text ≡ some (pos 3) → IsThreeText text
unfolding parse_unsigned
parse_i32-only [] h = absurd (unfold parse_i32 in cc)
parse_i32-only (c ∷ cs) h = elim (Bool-cases (c == b'+')) [
  | inl e ↦ inr (ground (arith, e), plus_only cs (rw e at (without_minus c cs h)))
  | inr e ↦ inl (parse_digits-only c cs (rw e at (without_minus c cs h)))
]
