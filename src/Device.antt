-- ===== src/Device.antt =====
-- src/device_info.rs: the identity of the device, from the files of the system.
pub mod Fields
pub mod Reads
pub mod Sources
pub mod Identity
use muadib.Prelude.{
  ℕ, Bool, true, false, Option, none, some, List, [], ◌∷◌, is_empty, if◌then◌else◌, bytes, Result,
  ok, err,
}
use muadib.Prelude.Bytes.{Bytes}
use muadib.Prelude.Text.{bytes_eq}
use muadib.Prelude.Lines.{lines, split_once, trim, trim_end_matches, trim_matches}
use muadib.Interface.Os.{Os, on_result}
use muadib.Interface.Dmi.{Dmi, Structure, system, other_structure}
use muadib.Message.{DeviceInfo}

abbrev pub default_name : Bytes
default_name = bytes "adibi"

pub record DmiInfo : Type 0 where
  pub product : Option Bytes
  pub serial : Option Bytes

unfoldable pub non_empty : Bytes → Option Bytes
non_empty s = if is_empty s then none else some s

-- The first system structure that parses.
unfoldable pub find_system : List (Option Structure) → Option DmiInfo
unfolding non_empty
find_system [] = none
find_system (some (system product serial) ∷ rest) =
    some (record { product = non_empty product; serial = non_empty serial })
find_system (some other_structure ∷ rest) = find_system rest
find_system (none ∷ rest) = find_system rest

-- A line with the key ends the search; another leaves it to the lines behind.
unfoldable pub found : Bool → Bytes → Option Bytes → Option Bytes
unfolding non_empty
found true value later = non_empty value
found false value later = later

unfoldable pub at_field : Bytes → Option (Bytes × Bytes) → Option Bytes → Option Bytes
unfolding found trim bytes_eq
at_field field none later = none
at_field field (some (key, value)) later = found (bytes_eq (trim key) field) (trim value) later

-- The loop of `read_cpuinfo_field`: its `?` leaves the function at a line without a colon.
unfoldable pub scan_cpuinfo : Bytes → List Bytes → Option Bytes
unfolding at_field split_once
scan_cpuinfo field [] = none
scan_cpuinfo field (line ∷ rest) = at_field field (split_once b':' line) (scan_cpuinfo field rest)

unfoldable pub at_name : Option (Bytes × Bytes) → Option Bytes → Option Bytes
unfolding found bytes_eq
at_name none later = none
at_name (some (key, value)) later =
    found (bytes_eq key (bytes "PRETTY_NAME")) (trim_matches b'"' value) later

-- The loop of `read_os_pretty_name`, with the same `?`.
unfoldable pub scan_os_release : List Bytes → Option Bytes
unfolding at_name split_once
scan_os_release [] = none
scan_os_release (line ∷ rest) = at_name (split_once b'=' line) (scan_os_release rest)

abbrev pub no_dmi : DmiInfo
no_dmi = record { product = none; serial = none }

abbrev pub dmi_or_none : Option DmiInfo → DmiInfo
dmi_or_none none = no_dmi
dmi_or_none (some info) = info

module _ (os : Os) where
  -- A source of a name: it may have none, and reading it is a call.
  abbrev pub Source : Type 0
  Source = os.World → Option Bytes × os.World

  -- `fs::read_to_string(path).ok()?`, and what the function makes of the contents
  abbrev pub from_file : Bytes → (Bytes → Option Bytes) → Source
  from_file path use_contents world =
      on_result (os.read_to_string path world) (λ contents world'. (use_contents contents, world'))
        (λ _ world'. (none, world'))

  unfoldable pub read_cpuinfo_field : Bytes → Source
  unfolding scan_cpuinfo lines
  read_cpuinfo_field field =
      from_file (bytes "/proc/cpuinfo") (λ contents. scan_cpuinfo field (lines contents))

  unfoldable pub read_device_tree_model : Source
  unfolding non_empty trim
  read_device_tree_model =
      from_file (bytes "/proc/device-tree/model")
        (λ contents. non_empty (trim (trim_end_matches 0 contents)))

  unfoldable pub read_os_pretty_name : Source
  unfolding scan_os_release lines
  read_os_pretty_name =
      from_file (bytes "/etc/os-release") (λ contents. scan_os_release (lines contents))

  unfoldable pub read_machine_id : Source
  unfolding non_empty trim
  read_machine_id = from_file (bytes "/etc/machine-id") (λ contents. non_empty (trim contents))

  unfoldable pub read_hostname : Source
  unfolding non_empty trim
  read_hostname = from_file (bytes "/etc/hostname") (λ contents. non_empty (trim contents))

  -- `Option::or_else`, with a source that is read only when nothing was found
  abbrev pub or_else : Option Bytes × os.World → Source → Option Bytes × os.World
  or_else (some s, world) source = (some s, world)
  or_else (none, world) source = source world

  -- `unwrap_or_else(|| DEFAULT_NAME.to_owned())`
  abbrev pub or_default : Option Bytes × os.World → Bytes × os.World
  or_default (some s, world) = (s, world)
  or_default (none, world) = (default_name, world)

  module _ (dmi : Dmi) where
    abbrev pub dmi_of : Bytes → Bytes → Option DmiInfo
    dmi_of entry_data table_data = elim (dmi.search entry_data) [
      | none ↦ none
      | some entry_point ↦ find_system (dmi.structures entry_point table_data)
    ]

    unfoldable pub read_dmi : os.World → Option DmiInfo × os.World
    unfolding find_system
    read_dmi world =
        on_result (os.read (bytes "/sys/firmware/dmi/tables/smbios_entry_point") world)
          (λ entry_data world'.
            on_result (os.read (bytes "/sys/firmware/dmi/tables/DMI") world')
              (λ table_data world''. (dmi_of entry_data table_data, world''))
              (λ _ world''. (none, world'')))
          (λ _ world'. (none, world'))

    unfoldable pub from_system : os.World → DeviceInfo × os.World
    unfolding read_dmi read_cpuinfo_field read_machine_id read_os_pretty_name read_device_tree_model
        read_hostname
    from_system world =
        let (found, world0) = read_dmi world in
        let info : DmiInfo = dmi_or_none found in
        let (serial, world1) = or_default (
          or_else (or_else (info.serial, world0) (read_cpuinfo_field (bytes "Serial")))
            read_machine_id) in
        let (name, world2) = or_default (read_os_pretty_name world1) in
        let (model, world3) = or_default (
          or_else (or_else (info.product, world2) (read_cpuinfo_field (bytes "Model")))
            read_device_tree_model) in
        let (device, world4) = or_default (read_hostname world3) in
        (record { serial = serial; name = name; model = model; device = device }, world4)
