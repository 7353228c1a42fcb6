-- ===== src/Tests/Transfers.antt =====
-- The theorems on a whole push, on LSTAT, on the stream table and on commands at concrete inputs.
use muadib.Prelude.{
  ℕ, ◌≡◌, ◌↔◌, refl, true, false, none, some, List, [], ◌∷◌, ◌++◌, take, drop, Outcome, done, panic,
  reboot_unreachable, arith, bytes,
}
use muadib.Prelude.Bytes.{Bytes}
use muadib.Prelude.Text.{parse_unsigned, until_nul, is_utf8, strip_prefix, bytes_eq, starts_with}
use muadib.Message
use muadib.Message.{
  cnxn, okay, ProtocolVersion, AdbHeader, header_bytes, identity, header_from_payload,
}
use muadib.Sync.{send_v1, lstat_v1, recv_v1, continue_result, okay_response}
use muadib.Sync.Requests.{request_bytes, encodes_send, encodes_lstat, encodes_recv}
use muadib.Sync.Receiver.Push.{push_bytes}
use muadib.Sync.Service.{new_sync, handle, sending}
use muadib.Sync.Session.{exchange, exchange-push, handle-pull}
use muadib.Sync.Sender.{FileSender}
use muadib.Sync.Pull.{frames, frames_of, reads_piece, reads_end}
use muadib.Sync.Stats.{IsAnswered, FitsStat, handle-lstat}
use muadib.Stream.{get, lookup, new_streams, reboot_service}
use muadib.Stream.Ids.{IsTable-new}
use muadib.Stream.Table.{
  TableOp, opens, closes, Refines, Streams, apply_ops, abstract_ops, apply_ops-Refines,
}
use muadib.Conn.{Conn, new_conn}
use muadib.Conn.Commands.{handle_command, handle_command_open}
use muadib.Conn.Continue.{handle_command_okay}
use muadib.Conn.Sends.{IsQueued}
use muadib.Conn.Handshake.{Speaks, IsAnswer, handle_command-cnxn}
use muadib.Conn.Reboot.{open_reboot-panics}
use muadib.Tests.Parsers.{parsers, parsers-IsDocumented}
use muadib.Tests.Host.{host, host-IsPosix, ring32, ring32-IsRing32}
use muadib.Tests.Connections.{info, conn}

abbrev sent_frames : Bytes
sent_frames = push_bytes ((10 ∷ 20 ∷ []) ∷ (30 ∷ []) ∷ []) 1000000

abbrev request : Bytes
request = request_bytes send_v1 (102 ∷ 44 ∷ 52 ∷ 50 ∷ 48 ∷ [])

-- The sent_frames are cut inside a header and inside a chunk.
exchange-push_example :
    exchange parsers host
      ((request ++ take 5 sent_frames) ∷ take 4 (drop 5 sent_frames) ∷ drop 9 sent_frames ∷ [])
      new_sync
      []
    ≡ done (some okay_response, new_sync, 10 ∷ 20 ∷ 30 ∷ [])
unfolding parse_unsigned
exchange-push_example =
    exchange-push parsers host parsers-IsDocumented host-IsPosix (102 ∷ []) request
      (take 5 sent_frames) 420 1000000 (take 4 (drop 5 sent_frames) ∷ drop 9 sent_frames ∷ [])
      ((10 ∷ 20 ∷ []) ∷ (30 ∷ []) ∷ []) tt [] [] (10 ∷ 20 ∷ 30 ∷ []) (10 ∷ 20 ∷ 30 ∷ [])
      (encodes_send (102 ∷ []) (52 ∷ 50 ∷ 48 ∷ []) 420 (omega arith) refl (refl, tt) refl
        (refl, (refl, (refl, tt))) refl)
      refl ((omega arith, omega arith), ((omega arith, omega arith), tt)) (omega arith) refl refl
      refl

handle-pull_example :
    (f : FileSender host) × (handle parsers host new_sync
        (request_bytes recv_v1 (102 ∷ []) ++ [])
        (1 ∷ 2 ∷ 3 ∷ [])
      ≡ done (continue_result, record { state = sending f }, 1 ∷ 2 ∷ 3 ∷ []))
    × (frames host 4 f (1 ∷ 2 ∷ 3 ∷ []) ≡ done (frames_of ((1 ∷ 2 ∷ 3 ∷ []) ∷ []), []))
handle-pull_example =
    handle-pull parsers host parsers-IsDocumented host-IsPosix 4 (102 ∷ [])
      (request_bytes recv_v1 (102 ∷ [])) [] tt ((1 ∷ 2 ∷ 3 ∷ []) ∷ []) (1 ∷ 2 ∷ 3 ∷ [])
      (1 ∷ 2 ∷ 3 ∷ []) [] (encodes_recv (102 ∷ []) (omega arith)) refl
      (reads_piece (1 ∷ 2 ∷ 3 ∷ []) [] (1 ∷ 2 ∷ 3 ∷ []) refl refl (reads_end [] [] refl))
      (omega arith)

handle-lstat_example :
    IsAnswered (handle parsers host new_sync (request_bytes lstat_v1 (bytes "/tmp") ++ []) [])
    ↔ FitsStat (host.symlink_metadata (bytes "/tmp") [])
handle-lstat_example =
    handle-lstat parsers host parsers-IsDocumented (bytes "/tmp")
      (request_bytes lstat_v1 (bytes "/tmp")) [] [] (encodes_lstat (bytes "/tmp") (omega arith))

abbrev no_streams : Streams host
no_streams = record { at_id = λ j. none; next = 1 }

abbrev ops : List (TableOp host)
ops = opens 9 reboot_service ∷ opens 10 reboot_service ∷ closes 1 [] ∷ []

empty-Refines : Refines host new_streams no_streams
unfolding get lookup
empty-Refines = record { is_table = IsTable-new host; same_next = refl; same_streams = λ j. refl }

apply_ops-Refines_example :
    Refines host (apply_ops host ops new_streams) (abstract_ops host ops no_streams)
apply_ops-Refines_example =
    apply_ops-Refines host ops new_streams no_streams (omega arith) empty-Refines

abbrev cnxn_header : AdbHeader
cnxn_header = record {
  command = cnxn;
  arg0 = 0x01000001;
  arg1 = 4096;
  data_length = 1;
  data_check = 9;
  magic = 0;
}

handle_command-cnxn_example :
    (v : ProtocolVersion) × (h : AdbHeader) × (i : ℕ) × (j : ℕ) × (d : Conn host) × (e : Conn host)
    × (handle_command parsers ring32 info cnxn_header (some (9 ∷ [])) conn ≡ done e)
    × Speaks 0x01000001 v
    × (e.version ≡ v)
    × IsAnswer parsers v info h
    × IsQueued (record conn { version = v }) (header_bytes h) true i d
    × IsQueued d (identity info) false j e
unfolding new_conn identity
handle_command-cnxn_example =
    handle_command-cnxn parsers ring32 parsers-IsDocumented info cnxn_header (9 ∷ []) conn refl
      ring32-IsRing32 (omega arith) (omega arith) (omega arith)

abbrev open_reboot : AdbHeader
open_reboot = record cnxn_header { command = Message.opens; arg0 = 7; arg1 = 0 }

abbrev okay_one : AdbHeader
okay_one = record cnxn_header { command = okay; arg0 = 7; arg1 = 1 }

abbrev conn_of : Outcome (Conn host) → Conn host
conn_of (done c) = c
conn_of (panic why) = conn

abbrev rebooting : Conn host
rebooting =
    conn_of (handle_command_open parsers ring32 open_reboot (bytes "reboot:" ++ (0 ∷ [])) conn)

open_reboot-panics_example :
    handle_command_okay ring32 okay_one rebooting ≡ panic reboot_unreachable
unfolding new_conn handle_command_open until_nul is_utf8 bytes_eq strip_prefix starts_with
    header_from_payload
open_reboot-panics_example =
    open_reboot-panics parsers ring32 open_reboot okay_one (bytes "reboot:" ++ (0 ∷ [])) [] conn
      rebooting (IsTable-new host) (omega arith) refl refl refl refl
