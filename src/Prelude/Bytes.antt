-- ===== src/Prelude/Bytes.antt =====
-- Bytes, machine words and the little-endian layout of a `u32`.
use Prim.Native.Nat.{ℕ, ◌+◌, ◌*◌, ◌/◌, ◌%◌, ◌^◌, ◌<◌}
use mathlib.Core.Path.{◌≡◌}
use mathlib.Core.List.{List, [], ◌∷◌, ◌++◌}
use native.Mathlib.Omega.{arith}
use muadib.Prelude.Lists.{All}

abbrev pub Bytes : Type 0
Bytes = List ℕ

abbrev pub IsByte : ℕ → Type 0
IsByte b = b < 256

abbrev pub IsU32 : ℕ → Type 0
IsU32 v = v < 2 ^ 32

-- The four bytes of a `u32` in memory, on a little-endian target.
abbrev pub u32_bytes : ℕ → Bytes
u32_bytes v = (v % 256) ∷ (v / 256 % 256) ∷ (v / 65536 % 256) ∷ (v / 16777216 % 256) ∷ []

-- `u32::from_le_bytes`
abbrev pub from_le_bytes : ℕ → ℕ → ℕ → ℕ → ℕ
from_le_bytes a b c d = a + b * 256 + c * 65536 + d * 16777216

pub from_le_bytes-u32_bytes :
    (v : ℕ)
    → IsU32 v
    → from_le_bytes (v % 256) (v / 256 % 256) (v / 65536 % 256) (v / 16777216 % 256) ≡ v
from_le_bytes-u32_bytes v h = omega arith

pub u32_bytes-from_le_bytes :
    (a b c d : ℕ)
    → IsByte a
    → IsByte b
    → IsByte c
    → IsByte d
    → u32_bytes (from_le_bytes a b c d) ≡ a ∷ b ∷ c ∷ d ∷ []
u32_bytes-from_le_bytes a b c d ha hb hc hd = ground arith

pub from_le_bytes-IsU32 :
    (a b c d : ℕ) → IsByte a → IsByte b → IsByte c → IsByte d → IsU32 (from_le_bytes a b c d)
from_le_bytes-IsU32 a b c d ha hb hc hd = omega arith

pub All-append {ℓ κ} :
    {A : Type ℓ} (P : A → Type κ) (xs ys : List A) → All P xs → All P ys → All P (xs ++ ys)
All-append P [] ys hx hy = hy
All-append P (x ∷ xs) ys hx hy = (hx.0, All-append P xs ys hx.1 hy)
