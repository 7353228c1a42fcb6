-- ===== src/Conn/Continue.antt =====
-- src/main.rs: what moves a stream on: reads of its service, the next frame of a file, OKAY.
use muadib.Prelude.{
  ℕ, Bool, true, false, Option, none, some, ◌++◌, if◌then◌else◌, Outcome, done, panic,
  reboot_unreachable, ◌>>=◌,
}
use muadib.Prelude.Bytes.{Bytes}
use muadib.Interface.Os.{Os}
use muadib.Interface.Ring.{Ring, pty, socket, read}
use muadib.Message.{AdbHeader, wrte_header}
use muadib.Shell
use muadib.Forward
use muadib.Sync.{SyncFrameResponseHeader, response_header_bytes, SyncResponse}
use muadib.Sync.Sender.{FileSender, next_frame}
use muadib.Sync.Service.{SyncState, idle, sending, receiving}
use muadib.Stream.{
  Service, sync_service, shell_service, reboot_service, forward_service, Stream, get, put,
}
use muadib.UserData.{pty_read, socket_read, user_data_to_u64, non_zero}
use muadib.Conn.{Conn, expect_id, push, submit_message}

abbrev pub put_stream : {os : Os} → ℕ → Stream os → Conn os → Conn os
put_stream {os} local_id s c = record c { streams = put os c.streams local_id s }

-- `if let Some(stream) = streams.get(id)`
abbrev pub with_stream : {os : Os} {R : Type 0} → Option (Stream os) → R → (Stream os → R) → R
with_stream none absent present = absent
with_stream (some s) absent present = present s

module _ (ring : Ring) {os : Os} where
  unfoldable pub pty_read_of : Service os → Bool → ℕ → Conn os → Outcome (Conn os)
  unfolding push user_data_to_u64
  pty_read_of (shell_service shell) waiting local_id c = if waiting then done c else (do
    len ← Shell.read_buf_capacity os shell
    id ← expect_id (non_zero local_id)
    push ring
        (record {
          op = read (pty (Shell.master_raw_fd os shell)) len;
          user_data = user_data_to_u64 (record { op_type = pty_read; id = id });
          io_link = false;
        })
        c)
  pty_read_of _ waiting local_id c = done c

  unfoldable pub maybe_submit_pty_read : ℕ → Conn os → Outcome (Conn os)
  unfolding pty_read_of get
  maybe_submit_pty_read local_id c =
      with_stream (get os c.streams local_id) (done c)
        (λ s. pty_read_of s.service s.waiting_for_okay local_id c)

  unfoldable pub socket_read_of : Service os → Bool → ℕ → Conn os → Outcome (Conn os)
  unfolding push user_data_to_u64
  socket_read_of (forward_service fwd) waiting local_id c = if waiting then done c else (do
    len ← Forward.read_buf_capacity os fwd
    id ← expect_id (non_zero local_id)
    push ring
        (record {
          op = read (socket (Forward.as_raw_fd os fwd)) len;
          user_data = user_data_to_u64 (record { op_type = socket_read; id = id });
          io_link = false;
        })
        c)
  socket_read_of _ waiting local_id c = done c

  unfoldable pub maybe_submit_socket_read : ℕ → Conn os → Outcome (Conn os)
  unfolding socket_read_of get
  maybe_submit_socket_read local_id c =
      with_stream (get os c.streams local_id) (done c)
        (λ s. socket_read_of s.service s.waiting_for_okay local_id c)

  unfoldable pub submit_wrte : ℕ → ℕ → Bytes → Conn os → Outcome (Conn os)
  unfolding submit_message
  submit_wrte local_id remote_id payload c = do
    header ← wrte_header c.version local_id remote_id payload
    submit_message ring header (some payload) c

  abbrev pub submit_wrte_sync :
      ℕ → ℕ → SyncFrameResponseHeader → Bytes → Conn os → Outcome (Conn os)
  submit_wrte_sync local_id remote_id hdr payload c =
      submit_wrte local_id remote_id (response_header_bytes hdr ++ payload) c

  abbrev pub with_state : Stream os → SyncState os → Bool → Stream os
  with_state s state waiting = record s {
    service = sync_service (record { state = state });
    waiting_for_okay = waiting;
  }

  -- A frame of the sender goes out, and the stream waits; or the transfer is over.
  unfoldable pub sent_frame :
      ℕ → Stream os → Conn os → Option SyncResponse × FileSender os × os.World → Outcome (Conn os)
  unfolding submit_wrte response_header_bytes
  sent_frame local_id s c (some (hdr, payload), sender, w) =
      submit_wrte_sync local_id s.remote_id hdr payload
        (put_stream local_id (with_state s (sending sender) true) (record c { world = w }))
  sent_frame local_id s c (none, sender, w) =
      done (put_stream local_id (with_state s idle s.waiting_for_okay) (record c { world = w }))

  unfoldable pub wrte_sync_of : SyncState os → ℕ → Stream os → Conn os → Outcome (Conn os)
  unfolding sent_frame next_frame
  wrte_sync_of (sending sender) local_id s c = do
    sent ← next_frame os sender c.world
    sent_frame local_id s c sent
  wrte_sync_of idle local_id s c = done c
  wrte_sync_of (receiving _) local_id s c = done c

  unfoldable pub wrte_sync_service : Service os → ℕ → Stream os → Conn os → Outcome (Conn os)
  unfolding wrte_sync_of
  wrte_sync_service (sync_service sync_svc) local_id s c =
      if s.waiting_for_okay then done c else wrte_sync_of sync_svc.state local_id s c
  wrte_sync_service _ local_id s c = done c

  unfoldable pub maybe_submit_wrte_sync : ℕ → Conn os → Outcome (Conn os)
  unfolding wrte_sync_service get
  maybe_submit_wrte_sync local_id c =
      with_stream (get os c.streams local_id) (done c)
        (λ s. wrte_sync_service s.service local_id s c)

  unfoldable pub continue_service : Service os → ℕ → Conn os → Outcome (Conn os)
  unfolding maybe_submit_wrte_sync maybe_submit_pty_read maybe_submit_socket_read
  continue_service (sync_service _) local_id c = maybe_submit_wrte_sync local_id c
  continue_service (shell_service _) local_id c = maybe_submit_pty_read local_id c
  continue_service (forward_service _) local_id c = maybe_submit_socket_read local_id c
  continue_service reboot_service local_id c = panic reboot_unreachable

  unfoldable pub maybe_continue_stream : ℕ → Conn os → Outcome (Conn os)
  unfolding continue_service get
  maybe_continue_stream local_id c =
      with_stream (get os c.streams local_id) (done c) (λ s. continue_service s.service local_id c)

  abbrev pub acknowledge : ℕ → Option (Stream os) → Conn os → Conn os
  acknowledge local_id none c = c
  acknowledge local_id (some s) c = put_stream local_id (record s { waiting_for_okay = false }) c

  unfoldable pub handle_command_okay : AdbHeader → Conn os → Outcome (Conn os)
  unfolding maybe_continue_stream get put
  handle_command_okay header c =
      maybe_continue_stream header.arg1 (acknowledge header.arg1 (get os c.streams header.arg1) c)
