-- ===== src/Startup.antt =====
-- src/main.rs: how the daemon starts: the descriptors of systemd, the wait for the host, and the
-- commands. Log lines are left out.
pub mod Wait
pub mod Listen
pub mod Launch
pub mod Bind
use muadib.Prelude.{
  ℕ, zero, suc, ◌+◌, ◌^◌, Bool, true, false, Option, none, some, List, [], ◌∷◌, is_empty, ◌==◌,
  if◌then◌else◌, bytes, Result, ok, err, Outcome,
}
use muadib.Prelude.Bytes.{Bytes}
use muadib.Prelude.Text.{parse_digits, parse_unsigned}
use muadib.Interface.Winnow.{Winnow}
use muadib.Interface.Os.{Os, Io, pure, throw, on_result, ℤ, pos, negsuc, ◌>>=◌, ◌>>◌}
use muadib.Interface.Ring.{Ring}
use muadib.Interface.Dmi.{Dmi}
use muadib.Message.{DeviceInfo}
use muadib.Ffs.{UsbFunctionFsEventType, enable, read_next_ffs_event_type}
use muadib.Ffs.Gadget.{setup_gadget, bind_udc, unbind_udc}
use muadib.Device.{from_system}
use muadib.Conn.{new_conn}
use muadib.Conn.Events.{Cqe, Flow, run}

abbrev pub negated : Option ℕ → Option ℤ
negated none = none
negated (some zero) = some (pos 0)
negated (some (suc n)) = some (negsuc n)

abbrev pub positive : Option ℕ → Option ℤ
positive none = none
positive (some n) = some (pos n)

-- `str::parse::<i32>`
unfoldable pub parse_i32 : Bytes → Option ℤ
unfolding parse_digits parse_unsigned
parse_i32 [] = none
parse_i32 (c ∷ cs) =
    if c == b'-'
    then (if is_empty cs then none else negated (parse_digits (2 ^ 31 + 1) 0 cs))
    else positive (parse_unsigned (2 ^ 31) (c ∷ cs))

abbrev pub sd_listen_fds_start : ℕ
sd_listen_fds_start = 3

-- What `main` is asked to do.
pub data CliCommand : Type 0 where
  setup bind : CliCommand

pub record Cli : Type 0 where
  pub command : Option CliCommand

module _ (os : Os) where
  -- The loop of `wait_for_enable`: nothing when the fuel is used up while events still come.
  abbrev pub Waited : Type 0
  Waited = Option (Result os.Error (Unit {0}) × os.World)

  -- What the calls of io_uring return: the set-up, and each wait.
  abbrev pub RingCalls : Type 0
  RingCalls = Result os.Error (Unit {0}) × List (Result os.Error (List Cqe))

  -- The descriptors of ep0, bulk OUT and bulk IN.
  abbrev pub usb_fds : os.Fd × (os.Fd × os.Fd)
  usb_fds = (
    os.from_raw_fd sd_listen_fds_start,
    (os.from_raw_fd (sd_listen_fds_start + 1), os.from_raw_fd (sd_listen_fds_start + 2)),
  )

  -- The number that systemd passed, of which only 3 will do. The texts of the errors lack the number.
  abbrev pub take_fds : Option ℤ → Io os.World os.Error (os.Fd × (os.Fd × os.Fd))
  take_fds none = throw (os.other_error (bytes "invalid LISTEN_FDS"))
  take_fds (some (negsuc n)) =
      throw (os.other_error (bytes "expected 3 fds (ep0 + 2 data endpoints)"))
  take_fds (some (pos n)) =
      if n == 3
      then pure usb_fds
      else throw (os.other_error (bytes "expected 3 fds (ep0 + 2 data endpoints)"))

  unfoldable pub receive_usb_fds : Io os.World os.Error (os.Fd × (os.Fd × os.Fd))
  unfolding parse_i32
  receive_usb_fds = os.env_var (bytes "LISTEN_FDS") >>= (λ text. take_fds (parse_i32 text))

  -- An event ends the loop or lets it go on.
  unfoldable pub after_event : UsbFunctionFsEventType → (os.World → Waited) → os.World → Waited
  after_event enable again world = some (ok tt, world)
  after_event other again world = again world

  unfoldable pub wait_for_enable : ℕ → os.Fd → os.World → Waited
  unfolding after_event read_next_ffs_event_type
  wait_for_enable zero ep0 world = none
  wait_for_enable (suc fuel) ep0 world =
      on_result (read_next_ffs_event_type os ep0 world)
        (λ event world'. after_event event (wait_for_enable fuel ep0) world')
        (λ e world'. some (err e, world'))

-- How the daemon ends: still waiting for the host, with an error, or as its loop does.
pub data DaemonEnd (os : Os) : Type 0 where
  still_waits : DaemonEnd os
  fails : os.Error → os.World → DaemonEnd os
  runs : Outcome (Flow os) → DaemonEnd os

-- How the program ends: a command has a result, and without one it is the daemon.
pub data MainEnd (os : Os) : Type 0 where
  returns : Result os.Error (Unit {0}) → os.World → MainEnd os
  serves : DaemonEnd os → MainEnd os

module _ (w : Winnow) (ring : Ring) (os : Os) (dmi : Dmi) where
  abbrev pub after_wait : RingCalls os → os.Fd → DeviceInfo → Waited os → DaemonEnd os
  after_wait calls ep0 info none = still_waits
  after_wait calls ep0 info (some (err e, world)) = fails e world
  after_wait calls ep0 info (some (ok a, world)) =
      runs (run w ring os ep0 info calls.0 calls.1 (new_conn world))

  unfoldable pub run_daemon : ℕ → RingCalls os → os.Fd → os.World → DaemonEnd os
  unfolding from_system wait_for_enable run new_conn
  run_daemon fuel calls ep0 world =
      let (info, world') = from_system os dmi world in
      after_wait calls ep0 info (wait_for_enable os fuel ep0 world')

  -- The `match` of `main` on the command.
  unfoldable pub run_command : ℕ → RingCalls os → Option CliCommand → os.World → MainEnd os
  unfolding setup_gadget bind_udc unbind_udc receive_usb_fds run_daemon
  run_command fuel calls (some setup) world =
      let (result, world') = setup_gadget os dmi world in returns result world'
  run_command fuel calls (some bind) world =
      let (result, world') = (unbind_udc os >> bind_udc os) world in returns result world'
  run_command fuel calls none world =
      on_result (receive_usb_fds os world)
        (λ fds world'. serves (run_daemon fuel calls fds.0 world'))
        (λ e world'. returns (err e) world')

  -- The arguments as clap has parsed them.
  unfoldable pub main : ℕ → RingCalls os → Cli → os.World → MainEnd os
  unfolding run_command
  main fuel calls cli world = run_command fuel calls cli.command world
