-- ===== src/Lib.antt =====
-- adibi, the device side of the Android Debug Bridge: a model of the daemon and its correctness.
--
-- The daemon serves a host over USB. Its event loop (src/main.rs) reads messages from an endpoint
-- through io_uring, parses their headers (src/message.rs), and hands each command to a handler.
-- A handler works on a table of streams (src/stream.rs); a stream belongs to a service: the sync
-- protocol that pushes and pulls files (src/sync.rs), a shell (src/shell.rs), a forwarded socket
-- (src/forward.rs) or a reboot. Answers are written from a pool of eight buffers (src/buffers.rs).
--
-- Files and what they model, by the names of the source in snake case:
--   Message        src/message.rs: commands, versions, headers, the checksum, `parse_header`,
--                  `header_from_payload`; and the record `DeviceInfo` of src/device_info.rs.
--   Sync           src/sync.rs: identifiers, the request parser, response frames.
--   Sync.Sender    `FileSender::next_frame`.
--   Sync.Receiver  `FileReceiver::receive`, `finalize` and `abort`. A round of the loop is a
--                  function (`round_header`, `round_partial`, `round_data`) of the bytes from the
--                  source's `pos` on.
--   Sync.Service   `SyncService::handle` and its handlers.
--                  The other modules below Sync and Sync.Receiver are proofs.
--   Shell, Forward, Stream, Buffers    the files of these names.
--   Ffs            src/ffs.rs: the events of the control endpoint. Ffs.Gadget has `setup_gadget`,
--                  `find_udc`, `bind_udc` and `unbind_udc`.
--   Device         the rest of src/device_info.rs: the sources of the identity, `from_system`.
--                  What stands below Device, Ffs.Gadget, Descriptors and Startup, and Ffs.Events,
--                  is proofs.
--   Usb            the constants of src/usb.rs.
--   Descriptors    build.rs: the structs of the descriptors, their bytes, the two blobs.
--   Startup        src/main.rs: `wait_for_enable`, `receive_usb_fds`, `run_daemon` and `main`.
--   UserData       `UserDataOpType` and `UserData` of src/main.rs.
--   Conn           `AdbConnection` of src/main.rs: its state, the entries it submits;
--                  Conn.Continue and Conn.Handlers and Conn.Commands have the command handlers,
--                  Conn.Events the arms of `run`. The modules beside them hold proofs;
--                  Conn.Flight.Reach has the ring as steps: a new connection, a submit of the
--                  queue, and the completion of any entry in flight with any result.
--   Interface      what is not in the repository: the parsers of winnow (Interface.Winnow), the
--                  calls into std and rustix (Interface.Os, and Interface.Files for the files
--                  that an identity is read from and the gadget's attributes in ConfigFS), the submission queue of io_uring (Interface.Ring), and the dmidecode
--                  crate (Interface.Dmi). Each is a record of operations that the model takes as
--                  a parameter, with a record of what its documentation promises.
--   Prelude        shared names and lemmas, the outcomes with panics, byte and text functions.
--   Tests          concrete parsers, hosts and a ring, which the theorems are applied to.
--
-- State is passed on explicitly. A `&mut Stream` that the source takes from the table is a
-- `get`, and what it writes a `put`. An `expect`, `assert!` or `unreachable!` that can be reached
-- is a `panic` of `Outcome`. Arithmetic on a `u32` wraps as in a release build. Numbers are
-- naturals, and bytes are naturals that theorems bound below 256 where it matters.
--
-- Loops: `receive` runs on fuel of two rounds a byte and two more, since a round takes a byte or
-- leaves a frame of no data; the write loop of src/forward.rs on one a byte, since a write takes
-- one. `out_of_fuel` marks the end of the fuel. `wait_for_enable` runs on fuel of one an event,
-- and gives nothing when it is used up; how many events come is for the host to say. Other loops
-- are structural. The event loop is a function of what the waits return, an error or a batch
-- of completions.
--
-- Not modelled: log output; the numbers and causes in the texts of a failed port, LISTEN_FDS or
-- event, and the replacement of bytes that are not UTF-8 when a path is displayed in an error;
-- pointers of read buffers, whose bytes a completion carries; the closing of descriptors when a
-- value is dropped (a shell's process is killed and reaped, but its terminal, a stream's socket and an
-- open file are only forgotten); what clap reads from the command line; the set-up of the log.
pub mod Prelude
pub mod Interface
pub mod Message
pub mod Sync
pub mod Shell
pub mod Forward
pub mod Stream
pub mod Buffers
pub mod UserData
pub mod Ffs
pub mod Usb
pub mod Descriptors
pub mod Device
pub mod Conn
pub mod Startup
pub mod Tests
