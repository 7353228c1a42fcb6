-- ===== src/Sync/Service.antt =====
-- `SyncService` of src/sync.rs: one request or one piece of a push in each WRTE payload.
use muadib.Prelude.{
  ℕ, ◌^◌, false, none, some, ◌++◌, is_empty, ltb, if◌then◌else◌, Outcome, done, panic,
  stat_too_large, stat_mtime_range, ◌>>=◌, bytes,
}
use muadib.Prelude.Bytes.{Bytes}
use muadib.Interface.Winnow.{Winnow}
use muadib.Interface.Os.{Os, on_result, ℤ, pos, negsuc}
use muadib.Sync.{
  SyncPacket, lstat_v1_request, recv_v1_request, send_v1_request, quit_request, parse_sync_packet,
  SyncResponse, fail_response, id_lstat_v1, SyncResult, stat_result, data_result, continue_result,
  quit_result,
}
use muadib.Sync.Sender.{FileSender}
use muadib.Sync.Receiver.{
  FileReceiver, header, FileReceiverResult, done_result, continue_receiving, receive,
}

pub data SyncState (os : Os) : Type 0 where
  idle : SyncState os
  sending : FileSender os → SyncState os
  receiving : FileReceiver os → SyncState os

pub record SyncService (os : Os) : Type 0 where
  pub state : SyncState os

abbrev pub new_sync : {os : Os} → SyncService os
new_sync = record { state = idle }

-- `meta.size().try_into()` and `meta.mtime().try_into()`, both into `u32`
abbrev pub size_u32 : ℕ → Outcome ℕ
size_u32 size = if ltb size (2 ^ 32) then done size else panic stat_too_large

abbrev pub mtime_u32 : ℤ → Outcome ℕ
mtime_u32 (pos t) = if ltb t (2 ^ 32) then done t else panic stat_mtime_range
mtime_u32 (negsuc t) = panic stat_mtime_range

abbrev pub stat_of : ℕ → ℕ → ℕ → SyncResult
stat_of mode size mtime =
    stat_result (record { id = id_lstat_v1; mode = mode; size = size; mtime = mtime })

module _ (w : Winnow) (os : Os) where
  abbrev pub Handled : Type 0
  Handled = Outcome (SyncResult × SyncService os × os.World)

  abbrev pub answer : SyncResponse → SyncService os → os.World → Handled
  answer frame s world = done (data_result frame.0 frame.1, s, world)

  unfoldable pub handle_lstat_v1 : SyncService os → Bytes → os.World → Handled
  handle_lstat_v1 s path world =
      on_result (os.symlink_metadata path world)
        (λ meta world'. do
          size ← size_u32 meta.size
          mtime ← mtime_u32 meta.mtime
          done (stat_of meta.mode size mtime, s, world'))
        (λ _ world'. done (stat_of 0 0 0, s, world'))

  unfoldable pub handle_recv_v1 : SyncService os → Bytes → os.World → Handled
  handle_recv_v1 s path world =
      on_result (os.file_open path world)
        (λ file world'. done (
          continue_result,
          record { state = sending (record { file = file; is_done = false }) },
          world',
        ))
        (λ e world'. do
          frame ← fail_response (bytes "cannot open " ++ (path ++ (bytes ": " ++ os.error_text e)))
          answer frame s world')

  abbrev pub after_leftover :
      SyncService os → FileReceiverResult × FileReceiver os × os.World → Handled
  after_leftover s (continue_receiving, r, world) =
      done (continue_result, record { state = receiving r }, world)
  after_leftover s (done_result frame, r, world) = answer frame s world

  abbrev pub receive_leftover : SyncService os → FileReceiver os → os.World → Bytes → Handled
  receive_leftover s r world leftover =
      if is_empty leftover
      then done (continue_result, record { state = receiving r }, world)
      else (do result ← receive w os r world leftover; after_leftover s result)

  unfoldable pub handle_send_v1 : SyncService os → Bytes → ℕ → Bytes → os.World → Handled
  unfolding receive
  handle_send_v1 s path mode leftover world =
      on_result (os.file_create path world)
        (λ file world'.
          receive_leftover s (record { file = file; path = path; mode = mode; state = header })
            world' leftover)
        (λ e world'. do
          frame ←
              fail_response (bytes "cannot create " ++ (path ++ (bytes ": " ++ os.error_text e)))
          answer frame s world')

  unfoldable pub handle_packet : SyncService os → SyncPacket → Bytes → os.World → Handled
  unfolding handle_lstat_v1 handle_recv_v1 handle_send_v1
  handle_packet s (lstat_v1_request p) rest world = handle_lstat_v1 s p world
  handle_packet s (recv_v1_request p) rest world = handle_recv_v1 s p world
  handle_packet s (send_v1_request p m) rest world = handle_send_v1 s p m rest world
  handle_packet s quit_request rest world = done (quit_result, s, world)

  unfoldable pub handle_request : SyncService os → Bytes → os.World → Handled
  unfolding handle_packet parse_sync_packet
  handle_request s data' world = elim (parse_sync_packet w data') [
    | none ↦ do frame ← fail_response (bytes "invalid sync request"); answer frame s world
    | some (packet, rest) ↦ handle_packet s packet rest world
  ]

  abbrev pub after_receive : FileReceiverResult × FileReceiver os × os.World → Handled
  after_receive (continue_receiving, r, world) =
      done (continue_result, record { state = receiving r }, world)
  after_receive (done_result frame, r, world) = answer frame new_sync world

  -- `handle`, by the state
  unfoldable pub handle_in : SyncState os → SyncService os → Bytes → os.World → Handled
  unfolding handle_request receive
  handle_in (receiving r) s data' world = do
    result ← receive w os r world data'
    after_receive result
  handle_in idle s data' world = handle_request s data' world
  handle_in (sending f) s data' world = handle_request s data' world

  unfoldable pub handle : SyncService os → Bytes → os.World → Handled
  unfolding handle_in
  handle s data' world = handle_in s.state s data' world
