-- ===== src/Interface/Ring.antt =====
-- The submission queue of `io_uring`, as main.rs uses it: the entries pushed since the last submit.
use muadib.Prelude.{ℕ, ◌<◌, ◌≡◌, Bool, false, List, length}
use muadib.Prelude.Bytes.{Bytes}

-- The file descriptors that an entry names; that of a terminal or a socket by its number.
pub data Target : Type 0 where
  ep0 bulk_in bulk_out : Target
  pty socket : ℕ → Target

-- `opcode::PollAdd`, `opcode::Read` with its length, `opcode::Write` with the bytes of its buffer.
pub data Op : Type 0 where
  poll_add : Target → ℕ → Op
  read : Target → ℕ → Op
  write : Target → Bytes → Op

pub record Sqe : Type 0 where
  pub op : Op
  pub user_data : ℕ
  -- `Flags::IO_LINK`
  pub io_link : Bool

-- Whether the ring refuses one more entry.
pub record Ring : Type 0 where
  pub is_full : List Sqe → Bool

-- A ring made by `IoUring::new(32)` has room for 32 entries.
pub record IsRing32 (r : Ring) : Type 0 where
  pub has_room : (q : List Sqe) → length q < 32 → r.is_full q ≡ false
