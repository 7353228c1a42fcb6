-- ===== src/Conn/Commands.antt =====
-- src/main.rs: OPEN, WRTE, and the dispatch on a header's command.
use muadib.Prelude.{
  ℕ, Option, none, some, [], if◌then◌else◌, Result, ok, err, Outcome, done, panic,
  okay_with_payload, missing_payload, reboot_unreachable, stream_missing, ◌>>=◌, bytes,
}
use muadib.Prelude.Bytes.{Bytes}
use muadib.Prelude.Text.{until_nul, is_utf8}
use muadib.Interface.Winnow.{Winnow}
use muadib.Interface.Os.{Os, pure}
use muadib.Interface.Ring.{Ring}
use muadib.Message.{
  Command, cnxn, auth, opens, okay, clse, wrte, stls, AdbHeader, okay_header, DeviceInfo,
}
use muadib.Sync.{stat_bytes, SyncResult, stat_result, data_result, continue_result, quit_result}
use muadib.Sync.Service.{SyncService, handle}
use muadib.Shell.{shell_write_input}
use muadib.Forward.{forward_write_input}
use muadib.Stream.{
  Service, sync_service, shell_service, reboot_service, forward_service, Stream, StreamManager, get,
  opens_stream,
}
use muadib.Conn.{Conn, submit_message}
use muadib.Conn.Continue.{
  with_stream, put_stream, maybe_submit_pty_read, maybe_submit_socket_read, submit_wrte,
  submit_wrte_sync, maybe_submit_wrte_sync, handle_command_okay,
}
use muadib.Conn.Handlers.{submit_clse, clse_and_close, handle_command_cnxn, handle_command_clse}

module _ (w : Winnow) (ring : Ring) {os : Os} where
  unfoldable pub submit_okay : ℕ → ℕ → Conn os → Outcome (Conn os)
  unfolding submit_message
  submit_okay local_id remote_id c = do
    header ← okay_header c.version local_id remote_id
    submit_message ring header none c

  -- What a new stream does first. `reboot` is spawned, and a failure is only logged.
  unfoldable pub start_service : Service os → ℕ → Conn os → Outcome (Conn os)
  unfolding maybe_submit_pty_read maybe_submit_socket_read
  start_service (shell_service _) local_id c = maybe_submit_pty_read ring local_id c
  start_service (forward_service _) local_id c = maybe_submit_socket_read ring local_id c
  start_service (sync_service _) local_id c = done c
  start_service reboot_service local_id c =
      done (record c { world = (os.spawn (bytes "reboot") [] [] (pure tt) c.world).1 })

  abbrev pub start_stream : ℕ → Conn os → Outcome (Conn os)
  start_stream local_id c =
      with_stream (get os c.streams local_id) (panic stream_missing)
        (λ s. start_service s.service local_id c)

  unfoldable pub after_open :
      ℕ → Conn os → Option ℕ × StreamManager os × os.World → Outcome (Conn os)
  unfolding submit_okay submit_clse start_service get
  after_open remote_id c (some local_id, m, world) = do
    c' ← submit_okay local_id remote_id (record c { streams = m; world = world })
    start_stream local_id c'
  after_open remote_id c (none, m, world) =
      submit_clse ring 0 remote_id (record c { streams = m; world = world })

  unfoldable pub open_service : Option Bytes → ℕ → Conn os → Outcome (Conn os)
  unfolding after_open opens_stream is_utf8
  open_service none remote_id c = submit_clse ring 0 remote_id c
  open_service (some service) remote_id c =
      if is_utf8 service
      then after_open remote_id c (opens_stream os c.streams remote_id service c.world)
      else submit_clse ring 0 remote_id c

  unfoldable pub handle_command_open : AdbHeader → Bytes → Conn os → Outcome (Conn os)
  unfolding open_service until_nul
  handle_command_open header payload c = open_service (until_nul payload) header.arg0 c

  abbrev pub put_sync : ℕ → Stream os → SyncService os → os.World → Conn os → Conn os
  put_sync local_id s svc world c =
      put_stream local_id (record s { service = sync_service svc }) (record c { world = world })

  unfoldable pub after_handle : SyncResult → ℕ → ℕ → Conn os → Outcome (Conn os)
  unfolding submit_wrte stat_bytes maybe_submit_wrte_sync submit_clse
  after_handle (stat_result stat) local_id remote_id c =
      submit_wrte ring local_id remote_id (stat_bytes stat) c
  after_handle (data_result hdr data') local_id remote_id c =
      submit_wrte_sync ring local_id remote_id hdr data' c
  after_handle continue_result local_id remote_id c = maybe_submit_wrte_sync ring local_id c
  after_handle quit_result local_id remote_id c = clse_and_close ring local_id remote_id c

  -- A service's write: an error closes the stream.
  abbrev pub after_write :
      ℕ → Stream os → Conn os → Result os.Error (Unit {0}) × os.World → Outcome (Conn os)
  after_write local_id s c (ok _, world) = done (record c { world = world })
  after_write local_id s c (err _, world) =
      clse_and_close ring local_id s.remote_id (record c { world = world })

  unfoldable pub wrte_service : Service os → ℕ → Stream os → Bytes → Conn os → Outcome (Conn os)
  unfolding after_handle handle forward_write_input submit_clse
  wrte_service (sync_service svc) local_id s payload c = do
    (result, svc', world) ← handle w os svc payload c.world
    after_handle result local_id s.remote_id (put_sync local_id s svc' world c)
  wrte_service (shell_service shell) local_id s payload c =
      after_write local_id s c (shell_write_input os shell payload c.world)
  wrte_service (forward_service fwd) local_id s payload c = do
    written ← forward_write_input os fwd payload c.world
    after_write local_id s c written
  wrte_service reboot_service local_id s payload c = panic reboot_unreachable

  unfoldable pub wrte_stream : Option (Stream os) → ℕ → Bytes → Conn os → Outcome (Conn os)
  unfolding wrte_service
  wrte_stream none local_id payload c = done c
  wrte_stream (some s) local_id payload c = wrte_service s.service local_id s payload c

  unfoldable pub handle_command_wrte : AdbHeader → Bytes → Conn os → Outcome (Conn os)
  unfolding submit_okay wrte_stream get
  handle_command_wrte header payload c = do
    c' ← submit_okay header.arg1 header.arg0 c
    wrte_stream (get os c'.streams header.arg1) header.arg1 payload c'

  unfoldable pub dispatch :
      Command → DeviceInfo → AdbHeader → Option Bytes → Conn os → Outcome (Conn os)
  unfolding handle_command_cnxn handle_command_open handle_command_wrte handle_command_okay
      handle_command_clse
  dispatch cnxn info header none c = panic missing_payload
  dispatch cnxn info header (some p) c = handle_command_cnxn ring info header c
  dispatch opens info header none c = panic missing_payload
  dispatch opens info header (some p) c = handle_command_open header p c
  dispatch wrte info header none c = panic missing_payload
  dispatch wrte info header (some p) c = handle_command_wrte header p c
  dispatch okay info header none c = handle_command_okay ring header c
  dispatch okay info header (some p) c = panic okay_with_payload
  dispatch clse info header p c = handle_command_clse ring header c
  dispatch auth info header p c = done c
  dispatch stls info header p c = done c

  unfoldable pub handle_command :
      DeviceInfo → AdbHeader → Option Bytes → Conn os → Outcome (Conn os)
  unfolding dispatch
  handle_command info header payload c = dispatch header.command info header payload c
