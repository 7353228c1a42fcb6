-- ===== src/UserData/RoundTrip.antt =====
-- Proofs about the user data of src/main.rs, to a `u64` and back.
use muadib.Prelude.{
  ℕ, zero, suc, ◌+◌, ◌*◌, ◌/◌, ◌%◌, ◌^◌, ◌≤◌, ◌<◌, ◌≡◌, refl, Option, none, some, ok, arith,
}
use muadib.Prelude.Bytes.{IsU32}
use muadib.UserData.{
  OpType, ep0_poll, bulk_out_read_header, bulk_out_read_payload, bulk_in_write, pty_read,
  socket_read, UserData, op_to_u32, op_try_from, id_or_zero, non_zero, user_data_to_u64,
  user_data_try_from,
}

op_try_from-to_u32 : (op : OpType) → op_try_from (op_to_u32 op) ≡ ok op
unfolding op_try_from
op_try_from-to_u32 ep0_poll = refl
op_try_from-to_u32 bulk_out_read_header = refl
op_try_from-to_u32 bulk_out_read_payload = refl
op_try_from-to_u32 bulk_in_write = refl
op_try_from-to_u32 pty_read = refl
op_try_from-to_u32 socket_read = refl

-- An `Option<NonZeroU32>`.
abbrev pub IsNonZeroU32 : Option ℕ → Type 0
IsNonZeroU32 none = Unit
IsNonZeroU32 (some n) = (1 ≤ n) × IsU32 n

non_zero-id_or_zero : (id : Option ℕ) → IsNonZeroU32 id → non_zero (id_or_zero id) ≡ id
non_zero-id_or_zero none h = refl
non_zero-id_or_zero (some zero) h = absurd (omega (arith, h.0))
non_zero-id_or_zero (some (suc n)) h = refl

id_or_zero-lt : (id : Option ℕ) → IsNonZeroU32 id → id_or_zero id < 2 ^ 32
id_or_zero-lt none h = omega arith
id_or_zero-lt (some n) h = h.1

-- The operation and the id of a submission come back from its u64, for every operation and an id
-- that is a non-zero u32 or absent.
pub user_data_try_from-to_u64 :
    (u : UserData) → IsNonZeroU32 u.id → user_data_try_from (user_data_to_u64 u) ≡ ok u
unfolding user_data_try_from user_data_to_u64
user_data_try_from-to_u64 u h =
    let low : id_or_zero u.id < 2 ^ 32 = id_or_zero-lt u.id h in
    let op = op_to_u32 u.op_type in
    let high : (op * 2 ^ 32 + id_or_zero u.id) / 2 ^ 32 ≡ op = omega arith in
    let rest : (op * 2 ^ 32 + id_or_zero u.id) % 2 ^ 32 ≡ id_or_zero u.id = omega arith in
    rw (high, rest, op_try_from-to_u32 u.op_type, non_zero-id_or_zero u.id h)
