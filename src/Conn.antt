-- ===== src/Conn.antt =====
-- src/main.rs: the state of an ADB connection, and the entries it submits.
pub mod Continue
pub mod Handlers
pub mod Commands
pub mod Events
pub mod Entries
pub mod Owned
pub mod Tidy
pub mod Keeps
pub mod Kept
pub mod Resumed
pub mod Obeyed
pub mod Lives
pub mod Exhausted
pub mod Flight
pub mod Accounts
pub mod Flow
pub mod Sends
pub mod Completions
pub mod Handshake
pub mod Delivery
pub mod Stops
pub mod Reboot
use muadib.Prelude.{
  ℕ, Bool, true, false, Option, none, some, List, [], ◌∷◌, ◌++◌, length, is_empty, if◌then◌else◌,
  Outcome, done, panic, queue_full, zero_id, ◌>>=◌,
}
use muadib.Prelude.Bytes.{Bytes}
use muadib.Interface.Os.{Os}
use muadib.Interface.Ring.{Ring, Op, Sqe, bulk_in, bulk_out, ep0, poll_add, read, write}
use muadib.Message.{ProtocolVersion, v0, AdbHeader, header_bytes, max_payload, protocol_version}
use muadib.Buffers.{BufferManager, new_buffers, alloc_with}
use muadib.Stream.{StreamManager, new_streams}
use muadib.UserData.{OpType, bulk_in_write, ep0_poll, UserData, user_data_to_u64, non_zero}

-- `AdbConnection`, the submission queue since the last submit, and the world. `ep0` and `info`
-- never change and are arguments of the handlers that use them.
pub record Conn (os : Os) : Type 0 where
  pub buffers : BufferManager
  pub streams : StreamManager os
  pub version : ProtocolVersion
  pub queue : List Sqe
  pub world : os.World

unfoldable pub new_conn : {os : Os} → os.World → Conn os
new_conn world = record {
  buffers = new_buffers;
  streams = new_streams;
  version = v0;
  queue = [];
  world = world;
}

-- `NonZeroU32::new(id).expect(…)`
abbrev pub expect_id : Option ℕ → Outcome (Option ℕ)
expect_id none = panic zero_id
expect_id (some id) = done (some id)

abbrev pub write_sqe : Bytes → Option ℕ → Bool → Sqe
write_sqe content slot linked = record {
  op = write bulk_in content;
  user_data = user_data_to_u64 (record { op_type = bulk_in_write; id = slot });
  io_link = linked;
}

-- `payload.filter(|p| !p.is_empty())`
abbrev pub filter_payload : Option Bytes → Option Bytes
filter_payload none = none
filter_payload (some p) = if is_empty p then none else some p

module _ (ring : Ring) {os : Os} where
  -- `sq.push(&sqe).expect("SQ full")`
  unfoldable pub push : Sqe → Conn os → Outcome (Conn os)
  push sqe c =
      if ring.is_full c.queue
      then panic queue_full
      else done (record c { queue = c.queue ++ (sqe ∷ []) })

  unfoldable pub submit_bulk_out_read : OpType → Conn os → Outcome (Conn os)
  unfolding push user_data_to_u64
  submit_bulk_out_read op c =
      push
        (record {
          op = read bulk_out (max_payload protocol_version);
          user_data = user_data_to_u64 (record { op_type = op; id = none });
          io_link = false;
        })
        c

  unfoldable pub submit_ep0_poll : Conn os → Outcome (Conn os)
  unfolding push user_data_to_u64
  submit_ep0_poll c =
      push
        (record {
          op = poll_add ep0 1;
          user_data = user_data_to_u64 (record { op_type = ep0_poll; id = none });
          io_link = false;
        })
        c

  -- A buffer of its own for the bytes, and a write of them.
  unfoldable pub submit_write : Bytes → Bool → Conn os → Outcome (Conn os)
  unfolding push user_data_to_u64 alloc_with
  submit_write content linked c = do
    (slot, buffers) ← alloc_with content c.buffers
    id ← expect_id (non_zero slot)
    push (write_sqe content id linked) (record c { buffers = buffers })

  abbrev pub submit_filtered : AdbHeader → Option Bytes → Conn os → Outcome (Conn os)
  submit_filtered header none c = submit_write (header_bytes header) false c
  submit_filtered header (some payload) c = do
    c' ← submit_write (header_bytes header) true c
    submit_write payload false c'

  unfoldable pub submit_message : AdbHeader → Option Bytes → Conn os → Outcome (Conn os)
  unfolding submit_write header_bytes
  submit_message header payload c = submit_filtered header (filter_payload payload) c
