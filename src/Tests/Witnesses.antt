-- ===== src/Tests/Witnesses.antt =====
-- The theorems on the messages, the services and the tables at concrete inputs.
use muadib.Prelude.{
  ◌≡◌, false, List, inl, refl, some, [], ◌∷◌, ◌++◌, Result, ok, done, ◌>>=◌, All, arith, bytes,
}
use muadib.Prelude.Bytes.{Bytes, IsByte}
use muadib.Message.{
  opens, wrte, v0, AdbHeader, header_bytes, parse_header, inverse, command_to_u32, checksum,
  checksum_for, command_try_from, header_from_payload,
}
use muadib.Message.RoundTrip.{IsWire, parse_header-header_bytes}
use muadib.Message.Inverse.{parse_header-eq_some}
use muadib.Message.Checksum.{checksum-eq-sum, header_from_payload-read_back, sum}
use muadib.Sync.Receiver.{FileReceiver, header, receive}
use muadib.Sync.Receiver.Feed.{feed, then_feed}
use muadib.Sync.Receiver.Chunks.{feed-append}
use muadib.Sync.{okay_response}
use muadib.Prelude.Text.{parse_unsigned}
use muadib.Sync.{send_v1, send_v1_request, parse_sync_packet}
use muadib.Sync.Requests.{request_bytes, encodes_send, parse_sync_packet-Encodes}
use muadib.Sync.Sender.{FileSender}
use muadib.Sync.Pull.{frames, frames_of, reads_piece, reads_end, frames-Reads}
use muadib.Sync.Receiver.Ends.{ran_out, receive-ends}
use muadib.Sync.Receiver.Push.{at_header, push_bytes, feed-push_bytes}
use muadib.Forward.{ForwardService, forward_write_input}
use muadib.Forward.Write.{Writes, forward_write_input-Writes}
use muadib.UserData.{UserData, pty_read, user_data_to_u64, user_data_try_from}
use muadib.UserData.RoundTrip.{user_data_try_from-to_u64}
use muadib.Tests.Parsers.{parsers, parsers-IsDocumented}
use muadib.Tests.Host.{host, host-IsPosix}

abbrev pub open_header : AdbHeader
open_header = record {
  command = opens;
  arg0 = 7;
  arg1 = 0;
  data_length = 300;
  data_check = 70000;
  magic = inverse (command_to_u32 opens);
}

open_header-IsWire : IsWire open_header
open_header-IsWire = record {
  arg0 = omega arith;
  arg1 = omega arith;
  data_length = omega arith;
  data_check = omega arith;
  magic = refl;
}

parse_header-header_bytes_example :
    parse_header parsers (header_bytes open_header ++ (1 ∷ 2 ∷ [])) ≡ some (open_header, 1 ∷ 2 ∷ [])
parse_header-header_bytes_example =
    parse_header-header_bytes parsers parsers-IsDocumented open_header (1 ∷ 2 ∷ [])
      open_header-IsWire

abbrev pub open_bytes : Bytes
open_bytes =
    0x4f ∷ 0x50 ∷ 0x45 ∷ 0x4e ∷ 7 ∷ 0 ∷ 0 ∷ 0 ∷ 0 ∷ 0 ∷ 0 ∷ 0 ∷ 44 ∷ 1 ∷ 0 ∷ 0 ∷ 112 ∷ 17 ∷ 1 ∷ 0
    ∷ 0xb0 ∷ 0xaf ∷ 0xba ∷ 0xb1 ∷ 9 ∷ []

open_bytes-All : All IsByte open_bytes
open_bytes-All = ground arith

open_bytes-parsed : parse_header parsers open_bytes ≡ some (open_header, 9 ∷ [])
unfolding parse_header command_try_from
open_bytes-parsed = refl

parse_header-eq_some_example :
    (open_bytes ≡ header_bytes open_header ++ (9 ∷ [])) × IsWire open_header
parse_header-eq_some_example =
    parse_header-eq_some parsers parsers-IsDocumented open_bytes open_header (9 ∷ []) open_bytes-All
      open_bytes-parsed

checksum-eq-sum_example : checksum (200 ∷ 100 ∷ []) ≡ sum (200 ∷ 100 ∷ [])
checksum-eq-sum_example =
    checksum-eq-sum (200 ∷ 100 ∷ []) (omega arith, (omega arith, tt)) (omega arith)

header_from_payload-read_back_example :
    (h : AdbHeader) × (header_from_payload v0 wrte 3 7 (200 ∷ 100 ∷ []) ≡ done h)
    × (parse_header parsers (header_bytes h ++ []) ≡ some (h, []))
    × (h.command ≡ wrte)
    × (h.arg0 ≡ 3)
    × (h.arg1 ≡ 7)
    × (h.data_length ≡ 2)
    × (h.data_check ≡ checksum_for v0 (200 ∷ 100 ∷ []))
header_from_payload-read_back_example =
    header_from_payload-read_back parsers parsers-IsDocumented v0 wrte 3 7 (200 ∷ 100 ∷ []) []
      (omega arith) (omega arith) (omega arith)

abbrev receiver : FileReceiver host
receiver = record { file = tt; path = bytes "/tmp/f"; mode = 420; state = header }

-- A DATA frame of three bytes, cut inside its header.
abbrev first_piece : Bytes
first_piece = bytes "DATA" ++ (3 ∷ 0 ∷ [])

abbrev second_piece : Bytes
second_piece = 0 ∷ 0 ∷ 10 ∷ 20 ∷ 30 ∷ []

feed-append_example :
    feed parsers host receiver [] (first_piece ++ second_piece)
    ≡ (feed parsers host receiver [] first_piece >>= then_feed parsers host second_piece)
feed-append_example = feed-append parsers host host-IsPosix receiver [] first_piece second_piece tt

abbrev pub forward : ForwardService host
forward = record { socket = tt; capacity = 4096 }

forward_write_input-Writes_example :
    (result : Result (Unit {0}) (Unit {0})) × (w' : Bytes) × (forward_write_input host forward
        (1 ∷ 2 ∷ 3 ∷ 4 ∷ [])
        []
      ≡ done (result, w'))
    × Writes host host-IsPosix forward (1 ∷ 2 ∷ 3 ∷ 4 ∷ []) [] result w'
forward_write_input-Writes_example =
    forward_write_input-Writes host host-IsPosix forward (1 ∷ 2 ∷ 3 ∷ 4 ∷ []) []

abbrev pty_seven : UserData
pty_seven = record { op_type = pty_read; id = some 7 }

user_data_try_from-to_u64_example : user_data_try_from (user_data_to_u64 pty_seven) ≡ ok pty_seven
user_data_try_from-to_u64_example = user_data_try_from-to_u64 pty_seven (omega arith, omega arith)

abbrev chunks : List Bytes
chunks = (10 ∷ 20 ∷ []) ∷ (30 ∷ []) ∷ []

feed-push_bytes_example :
    feed parsers host
      (at_header parsers parsers-IsDocumented host receiver)
      []
      (push_bytes chunks 1000000)
    ≡ done (inl (okay_response, 10 ∷ 20 ∷ 30 ∷ []))
feed-push_bytes_example =
    feed-push_bytes parsers parsers-IsDocumented host host-IsPosix receiver chunks 1000000 []
      (10 ∷ 20 ∷ 30 ∷ []) (10 ∷ 20 ∷ 30 ∷ [])
      ((omega arith, omega arith), ((omega arith, omega arith), tt)) (omega arith) refl refl

-- `f,420` with a first DATA frame's bytes behind it.
parse_sync_packet-Encodes_example :
    parse_sync_packet parsers (request_bytes send_v1 (102 ∷ 44 ∷ 52 ∷ 50 ∷ 48 ∷ []) ++ (68 ∷ []))
    ≡ some (send_v1_request (102 ∷ []) 420, 68 ∷ [])
unfolding parse_unsigned
parse_sync_packet-Encodes_example =
    parse_sync_packet-Encodes parsers parsers-IsDocumented (send_v1_request (102 ∷ []) 420)
      (request_bytes send_v1 (102 ∷ 44 ∷ 52 ∷ 50 ∷ 48 ∷ [])) (68 ∷ [])
      (encodes_send (102 ∷ []) (52 ∷ 50 ∷ 48 ∷ []) 420 (omega arith) refl (refl, tt) refl
        (refl, (refl, (refl, tt))) refl)

abbrev sender : FileSender host
sender = record { file = tt; is_done = false }

frames-Reads_example :
    frames host 4 sender (1 ∷ 2 ∷ 3 ∷ []) ≡ done (frames_of ((1 ∷ 2 ∷ 3 ∷ []) ∷ []), [])
frames-Reads_example =
    frames-Reads host host-IsPosix 4 tt ((1 ∷ 2 ∷ 3 ∷ []) ∷ []) (1 ∷ 2 ∷ 3 ∷ []) []
      (reads_piece (1 ∷ 2 ∷ 3 ∷ []) [] (1 ∷ 2 ∷ 3 ∷ []) refl refl (reads_end [] [] refl))
      (omega arith)

receive-ends_example :
    ran_out (receive parsers host receiver [] (first_piece ++ second_piece)) ≡ false
receive-ends_example = receive-ends parsers host receiver [] (first_piece ++ second_piece) tt
