-- ===== src/Sync/Sender.antt =====
-- `FileSender` of src/sync.rs: a file as DATA frames, and one DONE.
use muadib.Prelude.{
  Bool, true, false, Option, none, some, ◌++◌, is_empty, if◌then◌else◌, Outcome, done, ◌>>=◌, bytes,
}
use muadib.Interface.Os.{Os, on_result}
use muadib.Sync.{SyncResponse, payload_size_max_bytes, data_response, done_response, fail_response}

pub record FileSender (os : Os) : Type 0 where
  pub file : os.Fd
  pub is_done : Bool

module _ (os : Os) where
  -- `next_frame`, by its first test and the result of the read. A read of no byte is the end.
  abbrev pub Sent : Type 0
  Sent = Outcome (Option SyncResponse × FileSender os × os.World)

  unfoldable pub next_frame_at : Bool → FileSender os → os.World → Sent
  next_frame_at true s w = done (none, s, w)
  next_frame_at false s w =
      on_result (os.file_read s.file payload_size_max_bytes w)
        (λ buf w'.
          if is_empty buf
          then done (some done_response, record s { is_done = true }, w')
          else (do frame ← data_response buf; done (some frame, s, w')))
        (λ e w'. do
          frame ← fail_response (bytes "read error: " ++ os.error_text e)
          done (some frame, record s { is_done = true }, w'))

  unfoldable pub next_frame : FileSender os → os.World → Sent
  unfolding next_frame_at
  next_frame s w = next_frame_at s.is_done s w
