-- ===== src/Conn/Events.antt =====
-- src/main.rs: the event loop of `AdbConnection::run`, one completion at a time.
use muadib.Prelude.{
  ℕ, zero, suc, Bool, true, false, ◌&&◌, not, Option, none, some, List, [], ◌∷◌, length, take, leb,
  ltb, ◌==◌, if◌then◌else◌, Result, ok, err, Outcome, done, panic, slice_out_of_range,
  read_without_id, write_without_slot, ◌>>=◌,
}
use muadib.Prelude.Bytes.{Bytes}
use muadib.Interface.Winnow.{Winnow}
use muadib.Interface.Os.{Os, ℤ, pos, negsuc, on_result}
use muadib.Interface.Ring.{Ring}
use muadib.Message.{
  AdbHeader, parse_header, checksum, requires_checksum, ProtocolVersion, DeviceInfo,
}
use muadib.Ffs.{UsbFunctionFsEventType, unbind, disable, read_next_ffs_event_type}
use muadib.Buffers.{free}
use muadib.Stream.{Service, shell_service, forward_service, Stream, get}
use muadib.UserData.{
  OpType, ep0_poll, bulk_out_read_header, bulk_out_read_payload, bulk_in_write, pty_read,
  socket_read, UserData, user_data_try_from, UserDataError,
}
use muadib.Conn.{Conn, submit_bulk_out_read, submit_ep0_poll}
use muadib.Shell
use muadib.Forward
use muadib.Conn.Continue.{with_stream, put_stream, submit_wrte}
use muadib.Conn.Handlers.{submit_clse, close_stream}
use muadib.Conn.Commands.{handle_command}

-- A completion: its user data, its result, and what its buffer holds.
pub record Cqe : Type 0 where
  pub user_data : ℕ
  pub result : ℤ
  pub buffer : Bytes

-- The connection, with the header whose payload is awaited.
pub record Session (os : Os) : Type 0 where
  pub conn : Conn os
  pub pending_header : Option AdbHeader

-- How the loop goes on after a completion: on, or out of `run`.
pub data Flow (os : Os) : Type 0 where
  goes : Session os → Flow os
  ends_ok : Conn os → Flow os
  ends_err : Conn os → Flow os

abbrev pub is_stop : UsbFunctionFsEventType → Bool
is_stop disable = true
is_stop unbind = true
is_stop _ = false

-- `&buf[..len]`
abbrev pub slice_to : ℕ → Bytes → Outcome Bytes
slice_to len buffer =
    if leb len (length buffer) then done (take len buffer) else panic slice_out_of_range

abbrev pub checksum_fails : ProtocolVersion → AdbHeader → Bytes → Bool
checksum_fails v h data' = requires_checksum v && not (checksum data' == h.data_check)

module _ (w : Winnow) (ring : Ring) (os : Os) (ep0 : os.Fd) (info : DeviceInfo) where
  abbrev pub on_conn : Session os → Outcome (Conn os) → Outcome (Flow os)
  on_conn s m = do c ← m; done (goes (record s { conn = c }))

  -- A shell or a socket is at its end: CLSE for the stream, if it is still open.
  unfoldable pub read_ended : ℕ → Conn os → Outcome (Conn os)
  unfolding submit_clse close_stream get
  read_ended local_id c =
      with_stream (get os c.streams local_id) (done (close_stream ring local_id c))
        (λ s. do c' ← submit_clse ring local_id s.remote_id c; done (close_stream ring local_id c'))

  -- A read of a service's buffer, sent as WRTE; the stream then waits for OKAY.
  abbrev pub send_read : ℕ → Stream os → Bytes → Conn os → Outcome (Conn os)
  send_read local_id s data' c =
      submit_wrte ring local_id s.remote_id data'
        (put_stream local_id (record s { waiting_for_okay = true }) c)

  unfoldable pub pty_data_of : Service os → ℕ → Stream os → ℕ → Bytes → Conn os → Outcome (Conn os)
  unfolding submit_wrte
  pty_data_of (shell_service shell) local_id s len buffer c =
      send_read local_id s (Shell.read_buf_data os shell len buffer) c
  pty_data_of _ local_id s len buffer c = done c

  unfoldable pub socket_data_of :
      Service os → ℕ → Stream os → ℕ → Bytes → Conn os → Outcome (Conn os)
  unfolding submit_wrte
  socket_data_of (forward_service fwd) local_id s len buffer c =
      send_read local_id s (Forward.read_buf_data os fwd len buffer) c
  socket_data_of _ local_id s len buffer c = done c

  unfoldable pub pty_data : ℕ → ℕ → Bytes → Conn os → Outcome (Conn os)
  unfolding pty_data_of get
  pty_data local_id len buffer c =
      with_stream (get os c.streams local_id) (done c)
        (λ s. pty_data_of s.service local_id s len buffer c)

  unfoldable pub socket_data : ℕ → ℕ → Bytes → Conn os → Outcome (Conn os)
  unfolding socket_data_of get
  socket_data local_id len buffer c =
      with_stream (get os c.streams local_id) (done c)
        (λ s. socket_data_of s.service local_id s len buffer c)

  -- `handle_ep0_event`: whether to stop.
  abbrev pub ep0_stops : os.World → Bool × os.World
  ep0_stops world =
      on_result (read_next_ffs_event_type os ep0 world) (λ e world'. (is_stop e, world'))
        (λ _ world'. (true, world'))

  unfoldable pub on_ep0_poll : Session os → Outcome (Flow os)
  unfolding submit_ep0_poll read_next_ffs_event_type
  on_ep0_poll s =
      let (stops, world) = ep0_stops s.conn.world in
      let c : Conn os = record (s.conn) { world = world } in
      if stops then done (ends_ok c) else on_conn s (submit_ep0_poll ring c)

  -- A header with a payload waits for it; any other is handled, or dropped if it does not parse.
  unfoldable pub with_header : Option (AdbHeader × Bytes) → Session os → Outcome (Flow os)
  unfolding submit_bulk_out_read handle_command
  with_header none s = on_conn s (submit_bulk_out_read ring bulk_out_read_header s.conn)
  with_header (some (h, _)) s =
      if ltb 0 h.data_length
      then on_conn (record s { pending_header = some h })
          (submit_bulk_out_read ring bulk_out_read_payload s.conn)
      else on_conn s (do
        c ← handle_command w ring info h none s.conn
        submit_bulk_out_read ring bulk_out_read_header c)

  unfoldable pub on_header_read : ℕ → Bytes → Session os → Outcome (Flow os)
  unfolding with_header parse_header
  on_header_read len buffer s = do data' ← slice_to len buffer; with_header (parse_header w data') s

  unfoldable pub with_payload : Option AdbHeader → ℕ → Bytes → Conn os → Outcome (Conn os)
  unfolding handle_command checksum
  with_payload none len buffer c = done c
  with_payload (some h) len buffer c = do
    data' ← slice_to len buffer
    if checksum_fails c.version h data' then done c else handle_command w ring info h (some data') c

  -- `pending_header.take()`
  unfoldable pub on_payload_read : ℕ → Bytes → Session os → Outcome (Flow os)
  unfolding with_payload submit_bulk_out_read
  on_payload_read len buffer s =
      on_conn (record s { pending_header = none })
        (do
          c ← with_payload s.pending_header len buffer s.conn
          submit_bulk_out_read ring bulk_out_read_header c)

  abbrev pub free_slot : ℕ → Conn os → Outcome (Conn os)
  free_slot slot c = do buffers ← free slot c.buffers; done (record c { buffers = buffers })

  -- The arms of the `match` on the operation, its id and its result.
  unfoldable pub on_completion : OpType → Option ℕ → ℤ → Bytes → Session os → Outcome (Flow os)
  unfolding read_ended pty_data socket_data on_ep0_poll on_header_read on_payload_read free
  on_completion pty_read none res buffer s = panic read_without_id
  on_completion pty_read (some id) (pos zero) buffer s = on_conn s (read_ended id s.conn)
  on_completion pty_read (some id) (negsuc n) buffer s = on_conn s (read_ended id s.conn)
  on_completion pty_read (some id) (pos (suc n)) buffer s =
      on_conn s (pty_data id (suc n) buffer s.conn)
  on_completion socket_read none res buffer s = panic read_without_id
  on_completion socket_read (some id) (pos zero) buffer s = on_conn s (read_ended id s.conn)
  on_completion socket_read (some id) (negsuc n) buffer s = on_conn s (read_ended id s.conn)
  on_completion socket_read (some id) (pos (suc n)) buffer s =
      on_conn s (socket_data id (suc n) buffer s.conn)
  on_completion bulk_in_write (some slot) res buffer s = on_conn s (free_slot slot s.conn)
  on_completion bulk_in_write none (negsuc n) buffer s = done (ends_err s.conn)
  on_completion bulk_in_write none (pos n) buffer s = panic write_without_slot
  on_completion ep0_poll id (negsuc n) buffer s = done (ends_err s.conn)
  on_completion ep0_poll id (pos n) buffer s = on_ep0_poll s
  on_completion bulk_out_read_header id (negsuc n) buffer s = done (ends_err s.conn)
  on_completion bulk_out_read_header id (pos len) buffer s = on_header_read len buffer s
  on_completion bulk_out_read_payload id (negsuc n) buffer s = done (ends_err s.conn)
  on_completion bulk_out_read_payload id (pos len) buffer s = on_payload_read len buffer s

  abbrev pub on_user_data : Result UserDataError UserData → Cqe → Session os → Outcome (Flow os)
  on_user_data (err _) cqe s = done (goes s)
  on_user_data (ok u) cqe s = on_completion u.op_type u.id cqe.result cqe.buffer s

  unfoldable pub on_cqe : Cqe → Session os → Outcome (Flow os)
  unfolding on_completion user_data_try_from
  on_cqe cqe s = on_user_data (user_data_try_from cqe.user_data) cqe s

  -- The completions of one wait, in order, until one of them ends the loop.
  unfoldable pub on_batch : List Cqe → Session os → Outcome (Flow os)
  unfolding on_cqe
  on_batch [] s = done (goes s)
  on_batch (cqe ∷ cqes) s = on_cqe cqe s >>= elim [
    | goes s' ↦ on_batch cqes s'
    | ends_ok c ↦ done (ends_ok c)
    | ends_err c ↦ done (ends_err c)
  ]

  -- The queue is empty after `submit_and_wait`.
  abbrev pub submitted : Session os → Session os
  submitted s = record s { conn = record (s.conn) { queue = [] } }

  -- What `submit_and_wait` returns: an error, or a batch of completions.
  abbrev pub Wait : Type 0
  Wait = Result os.Error (List Cqe)

  -- The loop of `run`, on what its waits return.
  unfoldable pub run_batches : List Wait → Session os → Outcome (Flow os)
  unfolding on_batch
  run_batches [] s = done (goes s)
  run_batches (err e ∷ batches) s = done (ends_err s.conn)
  run_batches (ok batch ∷ batches) s = on_batch batch (submitted s) >>= elim [
    | goes s' ↦ run_batches batches s'
    | ends_ok c ↦ done (ends_ok c)
    | ends_err c ↦ done (ends_err c)
  ]

  -- The two entries that `run` submits first.
  unfoldable pub start : Conn os → Outcome (Session os)
  unfolding submit_ep0_poll submit_bulk_out_read
  start c = do
    c' ← submit_ep0_poll ring c
    c'' ← submit_bulk_out_read ring bulk_out_read_header c'
    done (record { conn = c''; pending_header = none })

  -- `AdbConnection::run` as a whole: the ring is set up, or that fails.
  unfoldable pub run : Result os.Error (Unit {0}) → List Wait → Conn os → Outcome (Flow os)
  unfolding start run_batches
  run (err e) waits c = done (ends_err c)
  run (ok made) waits c = start c >>= run_batches waits
