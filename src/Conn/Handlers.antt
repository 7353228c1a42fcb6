-- ===== src/Conn/Handlers.antt =====
-- src/main.rs: the handlers of `AdbConnection`, one for each command.
use muadib.Prelude.{
  ℕ, true, Option, none, some, ◌==◌, if◌then◌else◌, Result, ok, err, Outcome, done, panic,
  clse_remote_mismatch, ◌>>=◌,
}
use muadib.Interface.Os.{Os}
use muadib.Interface.Ring.{Ring}
use muadib.Message.{
  ProtocolVersion, v0, version_try_from, AdbHeader, clse_header, cnxn_response, DeviceInfo,
}
use muadib.Forward.{shutdown_write}
use muadib.Stream.{
  Service, sync_service, shell_service, reboot_service, forward_service, Stream, get, close,
}
use muadib.Conn.{Conn, submit_message}
use muadib.Conn.Continue.{put_stream}

abbrev pub version_or_v0 : {E : Type 0} → Result E ProtocolVersion → ProtocolVersion
version_or_v0 (ok v) = v
version_or_v0 (err _) = v0

module _ (ring : Ring) {os : Os} where
  -- `streams.close(local_id)`, with what the dropped service does
  unfoldable pub close_stream : ℕ → Conn os → Conn os
  unfolding close
  close_stream local_id c =
      let (m, w) = close os c.streams local_id c.world in record c { streams = m; world = w }

  -- CLSE for the stream, which is then removed.
  unfoldable pub submit_clse : ℕ → ℕ → Conn os → Outcome (Conn os)
  unfolding submit_message
  submit_clse local_id remote_id c = do
    header ← clse_header c.version local_id remote_id
    submit_message ring header none c

  abbrev pub clse_and_close : ℕ → ℕ → Conn os → Outcome (Conn os)
  clse_and_close local_id remote_id c = do
    c' ← submit_clse local_id remote_id c
    done (close_stream local_id c')

  unfoldable pub clse_service : Service os → ℕ → Stream os → Conn os → Outcome (Conn os)
  unfolding submit_clse close_stream
  clse_service (forward_service fwd) local_id s c = done (
      put_stream local_id (record s { remote_closed = true })
        (record c { world = (shutdown_write os fwd c.world).1 }))
  clse_service (sync_service _) local_id s c = clse_and_close local_id s.remote_id c
  clse_service (shell_service _) local_id s c = clse_and_close local_id s.remote_id c
  clse_service reboot_service local_id s c = clse_and_close local_id s.remote_id c

  unfoldable pub clse_stream : Option (Stream os) → AdbHeader → Conn os → Outcome (Conn os)
  unfolding clse_service
  clse_stream none header c = done c
  clse_stream (some s) header c =
      if s.remote_id == header.arg0
      then clse_service s.service header.arg1 s c
      else panic clse_remote_mismatch

  unfoldable pub handle_command_clse : AdbHeader → Conn os → Outcome (Conn os)
  unfolding clse_stream get
  handle_command_clse header c = clse_stream (get os c.streams header.arg1) header c

  unfoldable pub handle_command_cnxn : DeviceInfo → AdbHeader → Conn os → Outcome (Conn os)
  unfolding submit_message version_try_from cnxn_response
  handle_command_cnxn info header c = do
    let recv_version = version_or_v0 (version_try_from header.arg0)
    (response_header, response_payload) ← cnxn_response recv_version info
    submit_message ring response_header (some response_payload)
        (record c { version = recv_version })
