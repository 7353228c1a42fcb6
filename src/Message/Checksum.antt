-- ===== src/Message/Checksum.antt =====
-- Proofs about src/message.rs: the checksum, and the headers of `header_from_payload`.
use muadib.Prelude.{
  ℕ, ◌+◌, ◌*◌, ◌%◌, ◌^◌, ◌≤◌, ◌<◌, ◌≡◌, refl, some, [], ◌∷◌, ◌++◌, length, All, arith, done,
}
use muadib.Prelude.Bytes.{Bytes, IsByte, IsU32}
use muadib.Interface.Winnow
use muadib.Interface.Winnow.{Winnow}
use muadib.Message.{
  Command, ProtocolVersion, v0, v1, AdbHeader, checksum_from, checksum, checksum_for,
  command_to_u32, inverse, header_bytes, parse_header, header_from_payload,
}
use muadib.Message.RoundTrip.{IsWire, parse_header-header_bytes}

-- The sum with no bound on its size.
abbrev pub sum : Bytes → ℕ
sum [] = 0
sum (b ∷ data') = b + sum data'

sum-le : (data' : Bytes) → All IsByte data' → sum data' ≤ 255 * length data'
sum-le [] h = omega arith
sum-le (b ∷ data') (hb, h) = omega (arith, sum-le data' h)

checksum_from-eq-sum :
    (acc : ℕ) (data' : Bytes) → acc + sum data' < 2 ^ 32 → checksum_from acc data' ≡ acc + sum data'
unfolding checksum_from
checksum_from-eq-sum acc [] h = omega arith
checksum_from-eq-sum acc (b ∷ data') h =
    omega (arith, checksum_from-eq-sum ((acc + b) % 2 ^ 32) data' (omega arith))

-- For at most 2^24 bytes the u32 checksum does not wrap: it is the sum of the bytes.
pub checksum-eq-sum :
    (data' : Bytes) → All IsByte data' → length data' ≤ 2 ^ 24 → checksum data' ≡ sum data'
unfolding checksum
checksum-eq-sum data' h n =
    omega (arith, checksum_from-eq-sum 0 data' (omega (arith, sum-le data' h)))

checksum_from-eq-sum-mod :
    (acc : ℕ) (data' : Bytes) → IsU32 acc → checksum_from acc data' ≡ (acc + sum data') % 2 ^ 32
unfolding checksum_from
checksum_from-eq-sum-mod acc [] h = omega arith
checksum_from-eq-sum-mod acc (b ∷ data') h =
    omega (arith, checksum_from-eq-sum-mod ((acc + b) % 2 ^ 32) data' (omega arith))

-- Over any number of bytes the checksum is their sum modulo 2 ^ 32.
pub checksum-eq-sum-mod : (data' : Bytes) → checksum data' ≡ sum data' % 2 ^ 32
unfolding checksum
checksum-eq-sum-mod data' = omega (arith, checksum_from-eq-sum-mod 0 data' (omega arith))

checksum_from-lt : (acc : ℕ) (data' : Bytes) → IsU32 acc → IsU32 (checksum_from acc data')
unfolding checksum_from
checksum_from-lt acc [] h = h
checksum_from-lt acc (b ∷ data') h = checksum_from-lt ((acc + b) % 2 ^ 32) data' (omega arith)

checksum_for-IsU32 : (v : ProtocolVersion) (data' : Bytes) → IsU32 (checksum_for v data')
unfolding checksum
checksum_for-IsU32 v0 data' = checksum_from-lt 0 data' (omega arith)
checksum_for-IsU32 v1 data' = omega arith

abbrev pub made_header : ProtocolVersion → Command → ℕ → ℕ → Bytes → AdbHeader
made_header v c a b payload = record {
  command = c;
  arg0 = a;
  arg1 = b;
  data_length = length payload;
  data_check = checksum_for v payload;
  magic = inverse (command_to_u32 c);
}

module _ (v : ProtocolVersion) (c : Command) (a b : ℕ) (payload : Bytes) where
  -- A payload whose length is a `u32` never meets the `expect`.
  pub header_from_payload-eq_done :
      IsU32 (length payload)
      → header_from_payload v c a b payload ≡ done (made_header v c a b payload)
  unfolding header_from_payload
  header_from_payload-eq_done h = ground arith

  pub made_header-IsWire :
      IsU32 a → IsU32 b → IsU32 (length payload) → IsWire (made_header v c a b payload)
  made_header-IsWire ha hb hp = record {
    arg0 = ha;
    arg1 = hb;
    data_length = hp;
    data_check = checksum_for-IsU32 v payload;
    magic = refl;
  }

-- With parsers that do what winnow documents, for a command, two u32 arguments and a payload whose
-- length is a u32, building a header succeeds, and its bytes parse back to the command, the
-- arguments, the payload's length, and its checksum or 0 by the version.
pub header_from_payload-read_back :
    (w : Winnow)
    → Winnow.IsDocumented w
    → (v : ProtocolVersion) (c : Command) (a b : ℕ) (payload rest : Bytes) → IsU32 a
    → IsU32 b
    → IsU32 (length payload)
    → (h : AdbHeader) × (header_from_payload v c a b payload ≡ done h)
      × (parse_header w (header_bytes h ++ rest) ≡ some (h, rest))
      × (h.command ≡ c)
      × (h.arg0 ≡ a)
      × (h.arg1 ≡ b)
      × (h.data_length ≡ length payload)
      × (h.data_check ≡ checksum_for v payload)
header_from_payload-read_back w doc v c a b payload rest ha hb hp = (
  made_header v c a b payload,
  header_from_payload-eq_done v c a b payload hp,
  parse_header-header_bytes w doc _ rest (made_header-IsWire v c a b payload ha hb hp),
  refl,
  refl,
  refl,
  refl,
  refl,
)
