-- ===== src/Sync.antt =====
-- src/sync.rs: the identifiers, requests and response frames of the sync protocol.
pub mod Fit
pub mod Requests
pub mod Sender
pub mod Pull
pub mod Receiver
pub mod Service
pub mod Session
pub mod Stats
use muadib.Prelude.{
  ℕ, ◌^◌, Bool, true, false, Option, none, some, [], ◌∷◌, ◌++◌, length, ltb, ◌==◌, if◌then◌else◌,
  Result, ok, err, Outcome, done, panic, length_out_of_range, String, bytes,
}
use muadib.Prelude.Bytes.{Bytes, u32_bytes, from_le_bytes}
use muadib.Prelude.Text.{parse_unsigned}
use muadib.Interface.Winnow.{Winnow, Parser, ◌>>=◌}
use muadib.Message.{ok?}

abbrev pub payload_size_max_bytes : ℕ
payload_size_max_bytes = 65536

abbrev pub id_lstat_v1 : ℕ
id_lstat_v1 = from_le_bytes b'S' b'T' b'A' b'T'

abbrev pub id_data : ℕ
id_data = from_le_bytes b'D' b'A' b'T' b'A'

abbrev pub id_done : ℕ
id_done = from_le_bytes b'D' b'O' b'N' b'E'

abbrev pub id_fail : ℕ
id_fail = from_le_bytes b'F' b'A' b'I' b'L'

abbrev pub id_okay : ℕ
id_okay = from_le_bytes b'O' b'K' b'A' b'Y'

abbrev pub id_recv_v1 : ℕ
id_recv_v1 = from_le_bytes b'R' b'E' b'C' b'V'

abbrev pub id_send_v1 : ℕ
id_send_v1 = from_le_bytes b'S' b'E' b'N' b'D'

abbrev pub id_quit : ℕ
id_quit = from_le_bytes b'Q' b'U' b'I' b'T'

pub data SyncCommandParsingError : Type 0 where
  unknown_sync_command : ℕ → SyncCommandParsingError

pub data SyncPacketId : Type 0 where
  lstat_v1 recv_v1 send_v1 quit : SyncPacketId

unfoldable pub packet_id_try_from : ℕ → Result SyncCommandParsingError SyncPacketId
packet_id_try_from value =
    if value == id_lstat_v1
    then ok lstat_v1
    else if value == id_recv_v1
    then ok recv_v1
    else if value == id_send_v1
    then ok send_v1
    else if value == id_quit
    then ok quit
    else err (unknown_sync_command value)

-- A request; a path is its bytes.
pub data SyncPacket : Type 0 where
  lstat_v1_request : Bytes → SyncPacket
  recv_v1_request : Bytes → SyncPacket
  send_v1_request : Bytes → ℕ → SyncPacket
  quit_request : SyncPacket

pub data SyncFrameRequestId : Type 0 where
  data_frame done_frame : SyncFrameRequestId

unfoldable pub request_id_try_from : ℕ → Result SyncCommandParsingError SyncFrameRequestId
request_id_try_from value =
    if value == id_data
    then ok data_frame
    else if value == id_done
    then ok done_frame
    else err (unknown_sync_command value)

pub record SyncFrameRequestHeader : Type 0 where
  pub id : SyncFrameRequestId
  pub payload_len : ℕ

module _ (w : Winnow) where
  abbrev pub parse_sync_packet_id : Parser SyncPacketId
  parse_sync_packet_id = w.verify_map w.le_u32 (λ v. ok? (packet_id_try_from v))

  -- `separated_pair(take_until(1.., ","), ",", digit1.verify_map(…))`; digits are valid UTF-8.
  abbrev pub parse_path_mode : Parser (Bytes × ℕ)
  parse_path_mode =
      w.separated_pair (w.take_until_some b',') (w.literal b',')
        (w.verify_map w.digit1 (parse_unsigned (2 ^ 32)))

  unfoldable pub parse_packet_body : SyncPacketId → Parser SyncPacket
  parse_packet_body lstat_v1 input = do
    (path, rest) ← w.length_take w.le_u32 input
    some (lstat_v1_request path, rest)
  parse_packet_body recv_v1 input = do
    (path, rest) ← w.length_take w.le_u32 input
    some (recv_v1_request path, rest)
  parse_packet_body send_v1 input = do
    (path_mode_bytes, rest) ← w.length_take w.le_u32 input
    (path_mode, _) ← parse_path_mode path_mode_bytes
    some (send_v1_request path_mode.0 path_mode.1, rest)
  parse_packet_body quit input = some (quit_request, input)

  unfoldable pub parse_sync_packet : Parser SyncPacket
  unfolding parse_packet_body
  parse_sync_packet input = do (id, rest) ← parse_sync_packet_id input; parse_packet_body id rest

  abbrev pub parse_sync_frame_id : Parser SyncFrameRequestId
  parse_sync_frame_id = w.verify_map w.le_u32 (λ v. ok? (request_id_try_from v))

  unfoldable pub parse_sync_frame_header : Parser SyncFrameRequestHeader
  parse_sync_frame_header =
      w.map (w.seq_two parse_sync_frame_id w.le_u32) (λ r. record { id = r.0; payload_len = r.1 })

pub data SyncFrameResponseId : Type 0 where
  data_response_id done_response_id okay_response_id fail_response_id : SyncFrameResponseId

abbrev pub response_id_to_u32 : SyncFrameResponseId → ℕ
response_id_to_u32 data_response_id = id_data
response_id_to_u32 done_response_id = id_done
response_id_to_u32 okay_response_id = id_okay
response_id_to_u32 fail_response_id = id_fail

-- `TryFrom<u32> for SyncFrameResponseId`
unfoldable pub response_id_try_from : ℕ → Result SyncCommandParsingError SyncFrameResponseId
response_id_try_from value =
    if value == id_data
    then ok data_response_id
    else if value == id_done
    then ok done_response_id
    else err (unknown_sync_command value)

-- `Display for SyncFrameResponseId`
unfoldable pub response_id_text : SyncFrameResponseId → String
response_id_text data_response_id = "DATA"
response_id_text done_response_id = "DONE"
response_id_text okay_response_id = "OKAY"
response_id_text fail_response_id = "FAIL"

pub record SyncFrameResponseHeader : Type 0 where
  pub id : SyncFrameResponseId
  pub payload_len : ℕ

-- `as_le_bytes` of the `repr(C)` struct
unfoldable pub response_header_bytes : SyncFrameResponseHeader → Bytes
response_header_bytes h = u32_bytes (response_id_to_u32 h.id) ++ u32_bytes h.payload_len

pub record SyncStat : Type 0 where
  pub id : ℕ
  pub mode : ℕ
  pub size : ℕ
  pub mtime : ℕ

unfoldable pub stat_bytes : SyncStat → Bytes
stat_bytes s = u32_bytes s.id ++ (u32_bytes s.mode ++ (u32_bytes s.size ++ u32_bytes s.mtime))

abbrev pub SyncResponse : Type 0
SyncResponse = SyncFrameResponseHeader × Bytes

pub data SyncResult : Type 0 where
  stat_result : SyncStat → SyncResult
  data_result : SyncFrameResponseHeader → Bytes → SyncResult
  continue_result : SyncResult
  quit_result : SyncResult

-- The length becomes a `u32`, or the `expect` panics.
unfoldable pub response : SyncFrameResponseId → Bytes → Outcome SyncResponse
response id payload =
    if ltb (length payload) (2 ^ 32)
    then done (record { id = id; payload_len = length payload }, payload)
    else panic length_out_of_range

abbrev pub data_response : Bytes → Outcome SyncResponse
data_response data' = response data_response_id data'

abbrev pub done_response : SyncResponse
done_response = (record { id = done_response_id; payload_len = 0 }, [])

abbrev pub okay_response : SyncResponse
okay_response = (record { id = okay_response_id; payload_len = 0 }, [])

abbrev pub fail_response : Bytes → Outcome SyncResponse
fail_response msg = response fail_response_id msg
