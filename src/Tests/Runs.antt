-- ===== src/Tests/Runs.antt =====
-- The theorems on the states that the loop reaches, at a run: a CNXN message comes in, and its answer
-- goes out.
use muadib.Prelude.{
  ℕ, ◌≡◌, refl, none, some, List, [], false, ◌∷◌, get_elem?, Outcome, done, panic, arith, ◌*◌, ◌^◌,
  suc, ◌+◌, is_own, is_lack, missing_payload,
}
use muadib.Prelude.Bytes.{Bytes}
use muadib.Interface.Os.{ℤ, pos, negsuc}
use muadib.Interface.Ring.{Sqe, write, bulk_in, bulk_out, read, poll_add, ep0}
use muadib.Message.{
  command_try_from, header_from_payload, cnxn_response, checksum, checksum_from, max_payload,
  protocol_version,
}
use muadib.Conn.{new_conn}
use muadib.Conn.Events.{Session, Cqe, pty_data, Flow, goes, start, on_cqe, submitted}
use muadib.Conn.Flight.{IsSound}
use muadib.Conn.Flight.Reach.{
  System, Reach, starts, submits, completes, cqe_of, HadRoom, Reach-IsSound, Reach-buffer,
  Reach-write_completes,
}
use muadib.Buffers.{BufferManager, free}
use muadib.UserData.{user_data_to_u64}
use muadib.Tests.Parsers.{parsers}
use muadib.Tests.Host.{host, host-IsPosix, ring32, ring32-IsRing32}
use muadib.Tests.Connections.{info, shell, shelled}
use muadib.Conn.Flight.Panics.{Reach-no_own_panic, Reach-no_lack}
use muadib.Conn.Lives.{Goes, stays, Goes-IsLaterTable, IsClosed, Goes-IsClosed}
use muadib.Conn.Lives
use muadib.Stream.{shell_service, add_stream, insert, remove, get, lookup, new_streams}
use muadib.Stream.Ids.{IsTable, IsTable-new, add_stream-IsOpened}
use muadib.Stream.Lives.{IsLaterTable}

abbrev blank : Session host
blank = record { conn = new_conn []; pending_header = none }

abbrev started_of : Outcome (Session host) → Session host
started_of (done s) = s
started_of (panic why) = blank

abbrev session_of : Outcome (Flow host) → Session host
session_of (done (goes s)) = s
session_of _ = blank

abbrev first : Session host
first = started_of (start parsers ring32 host tt info (new_conn []))

-- CNXN of version 0x01000001, with a payload of one byte.
abbrev cnxn_bytes : Bytes
cnxn_bytes =
    0x43 ∷ 0x4e ∷ 0x58 ∷ 0x4e ∷ 1 ∷ 0 ∷ 0 ∷ 1 ∷ 0 ∷ 0 ∷ 16 ∷ 0 ∷ 1 ∷ 0 ∷ 0 ∷ 0 ∷ 9 ∷ 0 ∷ 0 ∷ 0
    ∷ 0xbc ∷ 0xb1 ∷ 0xa7 ∷ 0xb1 ∷ []

-- What the kernel has after the first wait: the poll of ep0 and the read of a header.
abbrev poll : Sqe
poll = record { op = poll_add ep0 1; user_data = 1 * 2 ^ 32; io_link = false }

abbrev read_header : Sqe
read_header = record {
  op = read bulk_out (max_payload protocol_version);
  user_data = 2 * 2 ^ 32;
  io_link = false;
}

abbrev waiting : Session host
waiting = submitted parsers ring32 host tt info first

abbrev waiting_reached :
    Reach parsers ring32 host tt info
      (record { flight = poll ∷ read_header ∷ []; session = waiting })
unfolding new_conn start
waiting_reached = submits (starts [] first refl)

-- The header is read, and then its payload.
abbrev headed : Session host
headed =
    session_of (on_cqe parsers ring32 host tt info (cqe_of read_header (pos 24) cnxn_bytes) waiting)

abbrev read_payload : Sqe
read_payload = record {
  op = read bulk_out (max_payload protocol_version);
  user_data = 3 * 2 ^ 32;
  io_link = false;
}

abbrev asking : Session host
asking = submitted parsers ring32 host tt info headed

abbrev headed_reached :
    Reach parsers ring32 host tt info
      (record { flight = poll ∷ read_payload ∷ []; session = asking })
unfolding new_conn start on_cqe command_try_from header_from_payload user_data_to_u64 cnxn_response
    checksum checksum_from
headed_reached =
    submits
      (completes (poll ∷ []) [] read_header (pos 24) cnxn_bytes waiting headed waiting_reached refl)

-- The answer is two writes, from slots 1 and 2.
abbrev answered : Session host
answered =
    session_of (on_cqe parsers ring32 host tt info (cqe_of read_payload (pos 1) (9 ∷ [])) asking)

abbrev sent : Session host
sent = submitted parsers ring32 host tt info answered

abbrev answers : List Sqe
answers = answered.conn.queue

abbrev answered_reached :
    Reach parsers ring32 host tt info (record { flight = poll ∷ answers; session = sent })
unfolding new_conn start on_cqe command_try_from header_from_payload user_data_to_u64 cnxn_response
    checksum checksum_from
answered_reached =
    submits
      (completes (poll ∷ []) [] read_payload (pos 1) (9 ∷ []) asking answered headed_reached refl)

abbrev first_of : List Sqe → Sqe
first_of [] = poll
first_of (e ∷ es) = e

abbrev rest_of : List Sqe → List Sqe
rest_of [] = []
rest_of (e ∷ es) = es

abbrev answering : System host
answering = record { flight = poll ∷ answers; session = sent }

had_room : HadRoom parsers ring32 host tt info answered_reached
unfolding new_conn answered_reached
had_room = (omega arith, (omega arith, tt))

Reach-IsSound_example : IsSound (poll ∷ answers) sent
Reach-IsSound_example = Reach-IsSound parsers ring32 host tt info answered_reached had_room

Reach-buffer_example :
    (k : ℕ) × (content : Bytes) × (1 ≡ suc k)
    × ((first_of answers).op ≡ write bulk_in content)
    × (get_elem? sent.conn.buffers.slots k ≡ some (some content))
unfolding new_conn start on_cqe command_try_from header_from_payload user_data_to_u64 cnxn_response
    checksum checksum_from
Reach-buffer_example =
    Reach-buffer parsers ring32 host tt info 1 (poll ∷ []) (rest_of answers) (first_of answers)
      answered_reached had_room refl refl (omega arith) (omega arith)

Reach-write_completes_example :
    (m : BufferManager) × (free 1 sent.conn.buffers ≡ done m)
    × (on_cqe parsers ring32 host tt info (cqe_of (first_of answers) (negsuc 4) []) sent
        ≡ done (goes (record sent { conn = record (sent.conn) { buffers = m } })))
unfolding new_conn start on_cqe command_try_from header_from_payload user_data_to_u64 cnxn_response
    checksum checksum_from
Reach-write_completes_example =
    Reach-write_completes parsers ring32 host tt info 1 (poll ∷ []) (rest_of answers)
      (first_of answers) (negsuc 4) [] sent answered_reached had_room refl (omega arith)
      (omega arith)

-- CNXN without a payload: not the daemon's own panic.
abbrev bare_cnxn : Bytes
bare_cnxn =
    0x43 ∷ 0x4e ∷ 0x58 ∷ 0x4e ∷ 1 ∷ 0 ∷ 0 ∷ 1 ∷ 0 ∷ 0 ∷ 16 ∷ 0 ∷ 0 ∷ 0 ∷ 0 ∷ 0 ∷ 0 ∷ 0 ∷ 0 ∷ 0
    ∷ 0xbc ∷ 0xb1 ∷ 0xa7 ∷ 0xb1 ∷ []

Reach-no_own_panic_example : is_own missing_payload ≡ false
unfolding new_conn start on_cqe command_try_from header_from_payload user_data_to_u64 cnxn_response
    checksum checksum_from
Reach-no_own_panic_example =
    Reach-no_own_panic parsers ring32 host tt info (poll ∷ []) [] read_header (pos 24) bare_cnxn
      waiting missing_payload waiting_reached host-IsPosix tt (omega arith) refl

Reach-no_lack_example : is_lack missing_payload ≡ false
unfolding new_conn start on_cqe command_try_from header_from_payload user_data_to_u64 cnxn_response
    checksum checksum_from
Reach-no_lack_example =
    Reach-no_lack parsers ring32 host tt info (poll ∷ []) [] read_header (pos 24) bare_cnxn waiting
      missing_payload waiting_reached host-IsPosix ring32-IsRing32 tt (omega arith) (omega arith)
      (omega arith) refl

-- A shell prints, and waits for OKAY; then it ends.
abbrev typing : Session host
typing = record { conn = shelled; pending_header = none }

abbrev pty_cqe : ℤ → Bytes → Cqe
pty_cqe res buffer = record { user_data = 5 * 2 ^ 32 + 1; result = res; buffer = buffer }

abbrev shown : Session host
shown = session_of (on_cqe parsers ring32 host tt info (pty_cqe (pos 2) (36 ∷ 32 ∷ [])) typing)

abbrev over : Session host
over = session_of (on_cqe parsers ring32 host tt info (pty_cqe (negsuc 4) []) shown)

abbrev goes_over : Goes parsers ring32 host tt info typing over
unfolding new_conn on_cqe pty_data get lookup header_from_payload
goes_over =
    Lives.completes (pty_cqe (negsuc 4) []) over
      (Lives.completes (pty_cqe (pos 2) (36 ∷ 32 ∷ [])) shown stays refl) refl

Goes-IsLaterTable_example : IsLaterTable host typing.conn.streams over.conn.streams
unfolding new_conn goes_over on_cqe pty_data get lookup header_from_payload
Goes-IsLaterTable_example =
    Goes-IsLaterTable parsers ring32 host tt info goes_over (omega arith, (omega arith, tt)) refl
      (unfold add_stream insert remove in
        (add_stream-IsOpened host new_streams 9 (shell_service shell) (IsTable-new host)
          (omega arith)).is_table)

-- The shell's stream is closed, and its id was handed out.
over-IsTable : IsTable host over.conn.streams
unfolding new_conn on_cqe pty_data get lookup header_from_payload remove
over-IsTable = record { positive = omega arith; bounded = omega arith; below = λ k s h. cc }

Goes-IsClosed_example :
    IsClosed parsers ring32 host tt info 1 (submitted parsers ring32 host tt info over).conn
unfolding new_conn on_cqe pty_data get lookup header_from_payload remove
Goes-IsClosed_example =
    Goes-IsClosed parsers ring32 host tt info {s = over} 1 (Lives.submits stays) tt refl
      over-IsTable (omega arith) refl
