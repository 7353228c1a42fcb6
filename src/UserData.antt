-- ===== src/UserData.antt =====
-- src/main.rs: the `u64` that names a submission, an operation above and an id below.
pub mod RoundTrip
use muadib.Prelude.{
  ℕ, zero, suc, ◌+◌, ◌*◌, ◌/◌, ◌%◌, ◌^◌, Option, none, some, ◌==◌, if◌then◌else◌, Result, ok, err,
}

pub data OpType : Type 0 where
  ep0_poll bulk_out_read_header bulk_out_read_payload bulk_in_write pty_read socket_read : OpType

pub data UserDataError : Type 0 where
  unknown_operation_type : ℕ → UserDataError

unfoldable pub op_try_from : ℕ → Result UserDataError OpType
op_try_from value =
    if value == 1
    then ok ep0_poll
    else if value == 2
    then ok bulk_out_read_header
    else if value == 3
    then ok bulk_out_read_payload
    else if value == 4
    then ok bulk_in_write
    else if value == 5
    then ok pty_read
    else if value == 6
    then ok socket_read
    else err (unknown_operation_type value)

abbrev pub op_to_u32 : OpType → ℕ
op_to_u32 ep0_poll = 1
op_to_u32 bulk_out_read_header = 2
op_to_u32 bulk_out_read_payload = 3
op_to_u32 bulk_in_write = 4
op_to_u32 pty_read = 5
op_to_u32 socket_read = 6

-- `data` is an `Option<NonZeroU32>`: its number is not 0.
pub record UserData : Type 0 where
  pub op_type : OpType
  pub id : Option ℕ

abbrev pub id_or_zero : Option ℕ → ℕ
id_or_zero none = 0
id_or_zero (some n) = n

-- `op << 32 | data`: the shifted operation leaves the low 32 bits free, so `|` adds.
unfoldable pub user_data_to_u64 : UserData → ℕ
user_data_to_u64 u = op_to_u32 u.op_type * 2 ^ 32 + id_or_zero u.id

-- `NonZeroU32::new`
abbrev pub non_zero : ℕ → Option ℕ
non_zero zero = none
non_zero (suc n) = some (suc n)

abbrev pub with_id : Result UserDataError OpType → ℕ → Result UserDataError UserData
with_id (ok op) low = ok (record { op_type = op; id = non_zero low })
with_id (err e) low = err e

-- The high 32 bits of the `u64` name the operation; the low ones are the id.
unfoldable pub user_data_try_from : ℕ → Result UserDataError UserData
unfolding op_try_from
user_data_try_from value = with_id (op_try_from (value / 2 ^ 32)) (value % 2 ^ 32)
