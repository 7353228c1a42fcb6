-- ===== src/Sync/Receiver.antt =====
-- `FileReceiver` of src/sync.rs: the frames of a push, cut into WRTE payloads at any byte.
pub mod Rounds
pub mod Feed
pub mod Ends
pub mod Headers
pub mod Chunks
pub mod Push
pub mod Left
use muadib.Prelude.{
  ℕ, zero, suc, ◌+◌, ◌-◌, ◌*◌, min, Bool, true, false, Option, none, some, List, [], ◌∷◌, ◌++◌,
  length, take, drop, replicate, leb, ltb, if◌then◌else◌, Result, ok, err, Outcome, done, panic,
  out_of_fuel, ◌>>=◌, bytes,
}
use muadib.Prelude.Bytes.{Bytes}
use muadib.Interface.Winnow.{Winnow}
use muadib.Interface.Os.{Os, on_result}
use muadib.Sync.{
  SyncFrameRequestId, data_frame, done_frame, SyncFrameRequestHeader, parse_sync_frame_header,
  SyncResponse, okay_response, fail_response,
}

-- The eight bytes of `SyncFrameRequestHeader`.
abbrev pub header_size : ℕ
header_size = 8

pub data RecvState : Type 0 where
  header : RecvState
  partial_header : Bytes → ℕ → RecvState
  receiving_data : ℕ → RecvState

pub record FileReceiver (os : Os) : Type 0 where
  pub file : os.Fd
  pub path : Bytes
  pub mode : ℕ
  pub state : RecvState

pub data FileReceiverResult : Type 0 where
  done_result : SyncResponse → FileReceiverResult
  continue_receiving : FileReceiverResult

-- `buf[at..at + chunk.len()].copy_from_slice(chunk)`
abbrev pub copy_at : ℕ → Bytes → Bytes → Bytes
copy_at at' chunk buf = take at' buf ++ (chunk ++ drop (at' + length chunk) buf)

abbrev pub after_data : ℕ → RecvState
after_data remaining = if ltb 0 remaining then receiving_data remaining else header

module _ (w : Winnow) (os : Os) where
  abbrev pub Received : Type 0
  Received = Outcome (FileReceiverResult × FileReceiver os × os.World)

  -- One round of the loop: it goes on with a receiver and the bytes from `pos` on, or returns.
  pub data Round : Type 0 where
    goes_on : FileReceiver os → os.World → Bytes → Round
    returns : Received → Round

  -- `fs::remove_file`; a failure is only logged.
  abbrev pub abort : FileReceiver os → os.World → os.World
  abort r world = (os.remove_file r.path world).1

  abbrev pub refuse : FileReceiver os → os.World → Bytes → Received
  refuse r world msg = do frame ← fail_response msg; done (done_result frame, r, abort r world)

  abbrev pub set_mtime : FileReceiver os → ℕ → os.World → os.World
  set_mtime r mtime world = (os.set_times r.file mtime world).1

  unfoldable pub finalize : FileReceiver os → ℕ → os.World → Received
  finalize r mtime world =
      on_result (os.set_permissions r.file r.mode world)
        (λ _ world'. done (done_result okay_response, r, set_mtime r mtime world'))
        (λ e world'.
          refuse r world'
            (bytes "cannot set permissions on " ++ (r.path ++ (bytes ": " ++ os.error_text e))))

  unfoldable pub on_header_id : SyncFrameRequestId → ℕ → FileReceiver os → os.World → Bytes → Round
  on_header_id data_frame len r world rest =
      goes_on (record r { state = receiving_data len }) world rest
  on_header_id done_frame len r world rest = returns (finalize r len world)

  unfoldable pub on_parsed :
      Option (SyncFrameRequestHeader × Bytes) → FileReceiver os → os.World → Bytes → Round
  unfolding on_header_id finalize
  on_parsed none r world rest = returns (refuse r world (bytes "invalid sync frame during send"))
  on_parsed (some (h, _)) r world rest = on_header_id h.id h.payload_len r world rest

  -- The eight bytes of a header are there, and `rest` follows them.
  unfoldable pub on_header : Bytes → FileReceiver os → os.World → Bytes → Round
  unfolding on_parsed
  on_header header' r world rest = on_parsed (parse_sync_frame_header w header') r world rest

  abbrev pub stays : RecvState → FileReceiver os → os.World → Round
  stays state r world = returns (done (continue_receiving, record r { state = state }, world))

  unfoldable pub round_header : FileReceiver os → os.World → Bytes → Round
  unfolding on_header
  round_header r world rest =
      if leb header_size (length rest)
      then on_header (take header_size rest) r world (drop header_size rest)
      else stays (partial_header (copy_at 0 rest (replicate header_size 0)) (length rest)) r world

  unfoldable pub round_partial : Bytes → ℕ → FileReceiver os → os.World → Bytes → Round
  unfolding on_header
  round_partial leftovers leftovers_len r world rest =
      let need = header_size - leftovers_len in
      if leb need (length rest)
      then on_header (copy_at leftovers_len (take need rest) leftovers) r world (drop need rest)
      else stays
          (partial_header (copy_at leftovers_len (take (min need (length rest)) rest) leftovers)
            (leftovers_len + min need (length rest)))
          r world

  unfoldable pub round_data : ℕ → FileReceiver os → os.World → Bytes → Round
  round_data remaining r world rest =
      let to_write = min remaining (length rest) in
      on_result (os.write_all r.file (take to_write rest) world)
        (λ _ world'.
          goes_on (record r { state = after_data (remaining - to_write) }) world'
            (drop to_write rest))
        (λ e world'. returns (
          refuse r world'
            (bytes "write error for " ++ (r.path ++ (bytes ": " ++ os.error_text e)))))

  unfoldable pub round_at : RecvState → FileReceiver os → os.World → Bytes → Round
  unfolding round_header round_partial round_data
  round_at header = round_header
  round_at (partial_header leftovers leftovers_len) = round_partial leftovers leftovers_len
  round_at (receiving_data remaining) = round_data remaining

  -- `while pos < data.len()`, with the bytes from `pos` on
  unfoldable pub receive_loop : ℕ → FileReceiver os → os.World → Bytes → Received
  unfolding round_at
  receive_loop fuel r world [] = done (continue_receiving, r, world)
  receive_loop zero r world (b ∷ rest) = panic out_of_fuel
  receive_loop (suc fuel) r world (b ∷ rest) = elim (round_at r.state r world (b ∷ rest)) [
    | goes_on r' world' rest' ↦ receive_loop fuel r' world' rest'
    | returns result ↦ result
  ]

  -- A round takes a byte, or leaves a frame of no data: two rounds a byte are enough.
  unfoldable pub receive : FileReceiver os → os.World → Bytes → Received
  unfolding receive_loop
  receive r world data' = receive_loop (2 * length data' + 2) r world data'
