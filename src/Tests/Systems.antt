-- ===== src/Tests/Systems.antt =====
-- The theorems on the identity, the descriptors, the gadget and the start at concrete inputs.
use muadib.Prelude.{
  ℕ, ◌≡◌, ◌≤◌, ◌↔◌, refl, none, some, [], ◌∷◌, ◌++◌, Result, ok, err, done, arith, bytes,
}
use muadib.Prelude.Bytes.{Bytes}
use muadib.Prelude.Lines.{split_once, trim}
use muadib.Prelude.Text.{bytes_eq}
use muadib.Descriptors.{fs_hs_bytes, fs_hs_descs, descs_count, ep_addr_in, ep_addr_out}
use muadib.Descriptors.Walk.{
  read_descriptors, read_descriptors-fs_hs_bytes, interface_with, endpoint_at,
}
use muadib.Usb.{usb_class_adb, usb_protocol_adb, usb_subclass_adb}
use muadib.Device.{scan_cpuinfo, from_system}
use muadib.Device.Fields.{scan_cpuinfo-IsEnd}
use muadib.Device.Identity.{IsIdentity, from_system-IsIdentity}
use muadib.Ffs.{enable, read_next_ffs_event_type}
use muadib.Ffs.Events.{IsEvent, read_next_ffs_event_type-IsEvent}
use muadib.Ffs.Gadget.{setup_gadget}
use muadib.Ffs.Gadget.Tree.{IsSetUp, setup_gadget-IsSetUp}
use muadib.Interface.Files.{udc_path}
use muadib.Startup.{wait_for_enable, run_daemon, run_command, main, runs, serves}
use muadib.Conn.{new_conn}
use muadib.Conn.Events.{ends_err}
use muadib.Interface.Os.{Os}
use muadib.Startup.Launch.{Launches, main-Launches}
use muadib.Tests.Parsers.{parsers}
use muadib.Startup.Wait.{Waits, wait_for_enable-Waits}
use muadib.Tests.Disk.{Disk, disk, board}
use muadib.Tests.DiskLaws.{disk_tree}
use muadib.Tests.Host.{host, ring32}

read_descriptors-fs_hs_bytes_example :
    read_descriptors descs_count (fs_hs_bytes (fs_hs_descs 512) ++ (1 ∷ []))
    ≡ some (
      interface_with 2 usb_class_adb usb_subclass_adb usb_protocol_adb
          ∷ endpoint_at ep_addr_out 2 512
          ∷ endpoint_at ep_addr_in 2 512
          ∷ [],
      1 ∷ [],
    )
read_descriptors-fs_hs_bytes_example = read_descriptors-fs_hs_bytes 512 (1 ∷ []) (omega arith)

-- The serial behind the blank line between the processors is not found.
scan_cpuinfo-IsEnd_example :
    scan_cpuinfo (bytes "Serial") ((bytes "processor : 0" ∷ []) ++ ([] ∷ bytes "Serial : 12" ∷ []))
    ≡ none
unfolding split_once trim bytes_eq
scan_cpuinfo-IsEnd_example =
    scan_cpuinfo-IsEnd (bytes "Serial") (bytes "processor : 0" ∷ []) (bytes "Serial : 12" ∷ []) []
      ((bytes "processor ", bytes " 0", refl, refl), tt) tt

abbrev files : Disk
files = record {
  files =
      (bytes "/etc/machine-id", bytes "f00d\n")
      ∷ (bytes "/proc/cpuinfo", bytes "cpu : 0\nSerial : 12\n")
      ∷ (bytes "/etc/hostname", bytes "pine\n")
      ∷ [];
  dirs = [];
  links = [];
}

abbrev state_of : Result (Unit {0}) (Unit {0}) × Disk → Disk
state_of (r, w) = w

abbrev files_after : Disk
files_after = state_of (setup_gadget disk board files)

setup_gadget-IsSetUp_example :
    IsSetUp disk disk_tree (from_system disk board files_after).0.serial files files_after
unfolding setup_gadget
setup_gadget-IsSetUp_example = setup_gadget-IsSetUp disk disk_tree board files files_after refl

from_system-IsIdentity_example :
    IsIdentity disk disk_tree board files (from_system disk board files).0
    × ((from_system disk board files).1 ≡ files)
from_system-IsIdentity_example = from_system-IsIdentity disk disk_tree board files

-- The serial number is the field of cpuinfo, where the DMI tables have none.
serial_of_files : (from_system disk board files).0.serial ≡ bytes "12"
unfolding from_system
serial_of_files = refl

wait_for_enable-Waits_example :
    (wait_for_enable host 3 tt [] ≡ some (err tt, []))
    ↔ ((n : ℕ) × (n ≤ 3) × Waits host tt n [] (err tt, []))
wait_for_enable-Waits_example = wait_for_enable-Waits host tt 3 [] (err tt, [])

-- A host that enables the function at once, and has no io_uring.
abbrev enabling : Os
enabling = record host {
  fd_read = λ f n w. (ok (0 ∷ 0 ∷ 0 ∷ 0 ∷ 0 ∷ 0 ∷ 0 ∷ 0 ∷ 2 ∷ 0 ∷ 0 ∷ 0 ∷ []), w);
}

read_next_ffs_event_type-IsEvent_example :
    (read_next_ffs_event_type enabling tt [] ≡ (ok enable, []))
    ↔ ((buf : Bytes) × (enabling.fd_read tt 12 [] ≡ (ok buf, [])) × IsEvent enable buf)
read_next_ffs_event_type-IsEvent_example = read_next_ffs_event_type-IsEvent enabling tt enable [] []

main-Launches_example :
    (main parsers ring32 enabling board 9 (err tt, []) (record { command = none }) []
      ≡ serves (runs (done (ends_err (new_conn [])))))
    ↔ Launches parsers ring32 enabling board 9 (err tt, []) [] (done (ends_err (new_conn [])))
main-Launches_example =
    main-Launches parsers ring32 enabling board 9 (err tt, []) [] (done (ends_err (new_conn [])))

launches : Launches parsers ring32 enabling board 9 (err tt, []) [] (done (ends_err (new_conn [])))
unfolding main run_command run_daemon
launches = main-Launches_example.0 refl

abbrev bound_files : Disk
bound_files = record files { files = (udc_path, bytes "dummy_udc.0") ∷ files.files }
