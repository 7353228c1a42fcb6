-- ===== src/Tests/Connections.antt =====
-- The theorems on the connection at concrete inputs.
use muadib.Prelude.{
  ℕ, ◌^◌, ◌≡◌, ◌↔◌, Outcome, refl, true, false, none, some, [], ◌∷◌, done, panic, arith, bytes,
  length, ◌++◌, ◌>>=◌, ◌*◌, replicate, slots_in_use, inl,
}
use muadib.Prelude.Bytes.{Bytes}
use muadib.Interface.Os.{pos}
use muadib.Conn.Delivery.{read_cqe, on_cqe-message, on_cqe-damaged}
use muadib.Conn.Commands.{handle_command}
use muadib.Ffs.{read_next_ffs_event_type}
use muadib.Conn.Stops.{Returns, Stops, on_cqe-Stops}
use muadib.UserData.{ep0_poll, bulk_out_read_header, bulk_out_read_payload}
use muadib.Message.{
  AdbHeader, v0, wrte, checksum, checksum_from, header_bytes, header_from_payload, DeviceInfo,
}
use muadib.Sync.{response}
use muadib.Sync.Service.{sending}
use muadib.Shell.{ShellService}
use muadib.Stream.{shell_service, forward_service, Stream, get, lookup}
use muadib.Conn.Continue.{maybe_continue_stream}
use muadib.Conn.Flow.{sync_stream}
use muadib.Conn.Flow.Once.{maybe_continue_stream-once, relay-once}
use muadib.Conn.Exhausted.{handle_command-exhausted}
use muadib.Conn.Events.{socket_data}
use muadib.Stream.Ids.{IsTable-new}
use muadib.UserData.{user_data_try_from}
use muadib.Conn.{Conn, new_conn, submit_message, submit_bulk_out_read}
use muadib.Conn.Sends.{IsQueued, submit_message-IsQueued}
use muadib.Conn.Events.{Session, Cqe, on_cqe, on_conn}
use muadib.Conn.Accounts.{Accounts, reads_for}
use muadib.Conn.Completions.{on_cqe-Accounts}
use muadib.Tests.Parsers.{parsers, parsers-IsDocumented}
use muadib.Tests.Host.{host, ring32, ring32-IsRing32}
use muadib.Tests.Witnesses.{open_header, open_bytes, forward}

abbrev pub conn : Conn host
conn = new_conn []

submit_message-IsQueued_example :
    (i : ℕ) × (j : ℕ) × (d : Conn host) × (e : Conn host) × (submit_message ring32 open_header
        (some (1 ∷ []))
        conn
      ≡ done e)
    × IsQueued conn (header_bytes open_header) true i d
    × IsQueued d (1 ∷ []) false j e
unfolding new_conn
submit_message-IsQueued_example =
    submit_message-IsQueued ring32 open_header (1 ∷ []) conn ring32-IsRing32 refl (omega arith)
      (omega arith)

abbrev pub info : DeviceInfo
info = record { serial = bytes "1"; name = bytes "n"; model = bytes "m"; device = bytes "d" }

-- OPEN with a payload to come.
abbrev header_cqe : Cqe
header_cqe = record { user_data = 2 * 2 ^ 32; result = pos 24; buffer = open_bytes }

abbrev session : Session host
session = record { conn = conn; pending_header = none }

on_cqe-Accounts_example :
    Accounts
      (reads_for (user_data_try_from header_cqe.user_data))
      conn
      (on_cqe parsers ring32 host tt info header_cqe session)
unfolding new_conn
on_cqe-Accounts_example =
    on_cqe-Accounts parsers ring32 host tt info header_cqe session refl (IsTable-new host)
      (omega arith)

abbrev pub conn_with : Bytes → Stream host → Conn host
conn_with world s = record conn {
  streams = record { streams = (1, s) ∷ []; next_id = 2 };
  world = world;
}

-- A pull of five bytes that is about to send its first frame.
abbrev pulling : Conn host
pulling =
    conn_with (1 ∷ 2 ∷ 3 ∷ 4 ∷ 5 ∷ [])
      (sync_stream 9 (sending (record { file = tt; is_done = false })) false false)

abbrev conn_after : Outcome (Conn host) → Conn host
conn_after (done c) = c
conn_after (panic why) = conn

abbrev pulled : Conn host
pulled = conn_after (maybe_continue_stream ring32 1 pulling)

maybe_continue_stream-once_example : maybe_continue_stream ring32 1 pulled ≡ done pulled
unfolding new_conn maybe_continue_stream get lookup response header_from_payload
maybe_continue_stream-once_example =
    maybe_continue_stream-once ring32 1 9 (sending (record { file = tt; is_done = false })) false
      false pulling pulled refl refl

abbrev pub shell : ShellService host
shell = record { master = tt; child = tt; capacity = 4096 }

abbrev pub shelled : Conn host
shelled = conn_with [] (record {
  remote_id = 9;
  service = shell_service shell;
  waiting_for_okay = false;
  remote_closed = false;
})

-- A socket that a stream is relayed to.
abbrev relayed : Conn host
relayed = conn_with [] (record {
  remote_id = 9;
  service = forward_service forward;
  waiting_for_okay = false;
  remote_closed = false;
})

abbrev passed : Conn host
passed = conn_after (socket_data parsers ring32 host tt info 1 2 (36 ∷ 32 ∷ []) relayed)

relay-once_example : maybe_continue_stream ring32 1 passed ≡ done passed
unfolding new_conn socket_data get lookup header_from_payload
relay-once_example =
    relay-once parsers ring32 host tt info 1 9 (forward_service forward) false false 2
      (36 ∷ 32 ∷ []) relayed passed refl refl refl

-- WRTE of two bytes, whole, and with its last byte changed.
abbrev header_of : Outcome AdbHeader → AdbHeader
header_of (done h) = h
header_of (panic why) = open_header

on_cqe-message_example :
    (h : AdbHeader) × (header_from_payload v0 wrte 7 1 (5 ∷ 6 ∷ []) ≡ done h)
    × (on_cqe parsers ring32 host tt info
          (read_cqe bulk_out_read_header (length (header_bytes h)) (header_bytes h ++ (9 ∷ [])))
          session
        ≡ on_conn parsers ring32 host tt info
            (record session { pending_header = some h })
            (submit_bulk_out_read ring32 bulk_out_read_payload session.conn))
    × (on_cqe parsers ring32 host tt info
          (read_cqe bulk_out_read_payload 2 ((5 ∷ 6 ∷ []) ++ (9 ∷ [])))
          (record session { pending_header = some h })
        ≡ on_conn parsers ring32 host tt info
            (record session { pending_header = none })
            (handle_command parsers ring32 info h (some (5 ∷ 6 ∷ [])) session.conn
              >>= submit_bulk_out_read ring32 bulk_out_read_header))
unfolding new_conn
on_cqe-message_example =
    on_cqe-message parsers ring32 host tt info parsers-IsDocumented wrte 7 1 (5 ∷ 6 ∷ []) (9 ∷ [])
      (9 ∷ []) v0 session session (omega arith) (omega arith) (omega arith) (omega arith) refl

abbrev wrte_header : AdbHeader
wrte_header = header_of (header_from_payload v0 wrte 7 1 (5 ∷ 6 ∷ []))

abbrev expecting : Session host
expecting = record { conn = conn; pending_header = some wrte_header }

on_cqe-damaged_example :
    on_cqe parsers ring32 host tt info
      (read_cqe bulk_out_read_payload 2 ((5 ∷ 7 ∷ []) ++ []))
      expecting
    ≡ on_conn parsers ring32 host tt info
        (record expecting { pending_header = none })
        (submit_bulk_out_read ring32 bulk_out_read_header expecting.conn)
unfolding new_conn header_from_payload checksum checksum_from
on_cqe-damaged_example =
    on_cqe-damaged parsers ring32 host tt info wrte 7 1 (5 ∷ 6 ∷ []) (5 ∷ 7 ∷ []) [] wrte_header
      expecting refl refl refl (omega arith)

on_cqe-Stops_example :
    Returns (on_cqe parsers ring32 host tt info (read_cqe ep0_poll 1 []) session)
    ↔ Stops (read_next_ffs_event_type host tt [])
unfolding new_conn
on_cqe-Stops_example = on_cqe-Stops parsers ring32 host tt info 1 [] session

-- Eight writes that the host has not read.
abbrev full : Conn host
full = record conn { buffers = record { slots = replicate 8 (some (1 ∷ [])) } }

handle_command-exhausted_example :
    handle_command parsers ring32 info wrte_header (some (5 ∷ 6 ∷ [])) full ≡ panic slots_in_use
unfolding new_conn header_from_payload
handle_command-exhausted_example =
    handle_command-exhausted parsers ring32 info wrte_header (5 ∷ 6 ∷ []) full (inl refl) refl
