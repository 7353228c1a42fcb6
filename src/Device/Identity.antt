-- ===== src/Device/Identity.antt =====
-- Proofs about `DeviceInfo::from_system` of src/device_info.rs: each text, by the files of the system.
use muadib.Prelude.{◌≡◌, refl, Option, none, some, [], ◌∷◌, bytes, Result, ok, err}
use muadib.Prelude.Bytes.{Bytes}
use muadib.Prelude.Lines.{trim, trim_end_matches}
use muadib.Interface.Os.{Os, on_result}
use muadib.Interface.Files.{IsFileTree}
use muadib.Interface.Dmi.{Dmi}
use muadib.Message.{DeviceInfo, ok?}
use muadib.Device.{
  DmiInfo, find_system, scan_cpuinfo, scan_os_release, Source, from_file, read_cpuinfo_field,
  read_device_tree_model, read_os_pretty_name, read_machine_id, read_hostname, or_else, or_default,
  dmi_of, read_dmi, dmi_or_none, from_system,
}
use muadib.Device.Sources.{
  first_of, non_empty-filled, CpuField, PrettyName, scan_cpuinfo-CpuField,
  scan_os_release-PrettyName, first_system, product_of, serial_of, find_system-first, lines_of,
  stripped, stripped_model,
}

module _ (os : Os) (tree : IsFileTree os) (dmi : Dmi) (w : os.World) where
  -- What a file gives to a reader of text, and of bytes, if it can be read.
  abbrev pub text : Bytes → Option Bytes
  text p = ok? (tree.reads_text p (tree.content w p))

  abbrev pub raw : Bytes → Option Bytes
  raw p = ok? (tree.reads p (tree.content w p))

  abbrev pub strings_at : Option dmi.EntryPoint → Bytes → Option (Bytes × Bytes)
  strings_at none table = none
  strings_at (some entry_point) table = first_system (dmi.structures entry_point table)

  -- The product and the serial number of the DMI tables, when both files can be read.
  abbrev pub dmi_strings : Option Bytes → Option Bytes → Option (Bytes × Bytes)
  dmi_strings none table = none
  dmi_strings (some entry) none = none
  dmi_strings (some entry) (some table) = strings_at (dmi.search entry) table

  abbrev pub system_strings : Option (Bytes × Bytes)
  system_strings =
      dmi_strings (raw (bytes "/sys/firmware/dmi/tables/smbios_entry_point"))
        (raw (bytes "/sys/firmware/dmi/tables/DMI"))

  -- Each text of an identity is the first of its sources that has one, and else "adibi".
  pub record IsIdentity (info : DeviceInfo) : Type 0 where
    pub cpu_serial : Option Bytes
    pub cpu_model : Option Bytes
    pub pretty_name : Option Bytes
    pub serial_searched :
        CpuField (bytes "Serial") (lines_of (text (bytes "/proc/cpuinfo"))) cpu_serial
    pub model_searched :
        CpuField (bytes "Model") (lines_of (text (bytes "/proc/cpuinfo"))) cpu_model
    pub name_searched : PrettyName (lines_of (text (bytes "/etc/os-release"))) pretty_name
    pub serial :
        info.serial
        ≡ first_of
            (serial_of system_strings ∷ cpu_serial ∷ stripped (text (bytes "/etc/machine-id")) ∷ [])
            (bytes "adibi")
    pub name : info.name ≡ first_of (pretty_name ∷ []) (bytes "adibi")
    pub model :
        info.model
        ≡ first_of
            (product_of system_strings
              ∷ cpu_model
              ∷ stripped_model (text (bytes "/proc/device-tree/model"))
              ∷ [])
            (bytes "adibi")
    pub device :
        info.device ≡ first_of (stripped (text (bytes "/etc/hostname")) ∷ []) (bytes "adibi")

  from_file-text :
      (p : Bytes) (f : Bytes → Option Bytes) (g : Option Bytes → Option Bytes)
      → g none ≡ none
      → ((b : Bytes) → f b ≡ g (some b))
      → from_file os p f w ≡ (g (text p), w)
  from_file-text p f g absent present =
      rw (tree.read_to_string_law p w) (on_read (tree.reads_text p (tree.content w p)))
    where
      on_read :
          (r : Result os.Error Bytes)
          → ◌≡◌ {A = Option Bytes × os.World}
              (on_result (r, w) (λ b v. (f b, v)) (λ _ v. (none, v)))
              (g (ok? r), w)
      on_read (ok b) = rw (present b) refl
      on_read (err e) = rw absent refl

  read_cpuinfo_field-text :
      (field : Bytes)
      → read_cpuinfo_field os field w
        ≡ (scan_cpuinfo field (lines_of (text (bytes "/proc/cpuinfo"))), w)
  unfolding read_cpuinfo_field scan_cpuinfo
  read_cpuinfo_field-text field =
      from_file-text _ _ (λ o. scan_cpuinfo field (lines_of o)) refl (λ b. refl)

  read_os_pretty_name-text :
      read_os_pretty_name os w ≡ (scan_os_release (lines_of (text (bytes "/etc/os-release"))), w)
  unfolding read_os_pretty_name scan_os_release
  read_os_pretty_name-text = from_file-text _ _ (λ o. scan_os_release (lines_of o)) refl (λ b. refl)

  read_machine_id-text : read_machine_id os w ≡ (stripped (text (bytes "/etc/machine-id")), w)
  unfolding read_machine_id
  read_machine_id-text = from_file-text _ _ stripped refl (λ b. non_empty-filled (trim b))

  read_hostname-text : read_hostname os w ≡ (stripped (text (bytes "/etc/hostname")), w)
  unfolding read_hostname
  read_hostname-text = from_file-text _ _ stripped refl (λ b. non_empty-filled (trim b))

  read_device_tree_model-text :
      read_device_tree_model os w ≡ (stripped_model (text (bytes "/proc/device-tree/model")), w)
  unfolding read_device_tree_model
  read_device_tree_model-text =
      from_file-text _ _ stripped_model refl (λ b. non_empty-filled (trim (trim_end_matches 0 b)))

  abbrev strings_info : Option (Bytes × Bytes) → DmiInfo
  strings_info s = record { product = product_of s; serial = serial_of s }

  dmi_of-strings :
      (entry table : Bytes)
      → dmi_or_none (dmi_of os dmi entry table) ≡ strings_info (strings_at (dmi.search entry) table)
  dmi_of-strings entry table = at_entry (dmi.search entry)
    where
      at_entry :
          (o : Option dmi.EntryPoint)
          → dmi_or_none (elim o [ none ↦ none | some p ↦ find_system (dmi.structures p table) ])
            ≡ strings_info (strings_at o table)
      at_entry none = refl
      at_entry (some p) = find_system-first (dmi.structures p table)

  abbrev IsRead : Option DmiInfo × os.World → Option (Bytes × Bytes) → Type 0
  IsRead x s = (dmi_or_none x.0 ≡ strings_info s) × (x.1 ≡ w)

  read_dmi-text : IsRead (read_dmi os dmi w) system_strings
  unfolding read_dmi
  read_dmi-text =
      rw (tree.read_law (bytes "/sys/firmware/dmi/tables/smbios_entry_point") w)
        (with_entry (tree.reads _ (tree.content w _)))
    where
      with_table :
          (entry : Bytes) (r : Result os.Error Bytes)
          → IsRead
              (on_result (r, w) (λ table u. (dmi_of os dmi entry table, u)) (λ _ u. (none, u)))
              (dmi_strings (some entry) (ok? r))
      with_table entry (ok table) = (dmi_of-strings entry table, refl)
      with_table entry (err e) = (refl, refl)

      with_entry :
          (r : Result os.Error Bytes)
          → IsRead
              (on_result
                (r, w)
                (λ entry v.
                  on_result
                    (os.read (bytes "/sys/firmware/dmi/tables/DMI") v)
                    (λ table u. (dmi_of os dmi entry table, u))
                    (λ _ u. (none, u)))
                (λ _ v. (none, v)))
              (dmi_strings (ok? r) (raw (bytes "/sys/firmware/dmi/tables/DMI")))
      with_entry (err e) = (refl, refl)
      with_entry (ok entry) =
          rw (tree.read_law (bytes "/sys/firmware/dmi/tables/DMI") w)
            (with_table entry (tree.reads _ (tree.content w _)))

  -- A source and two behind it that are read only when nothing was found.
  first_of_three :
      (a b c : Option Bytes) (s t : Source os)
      → s w ≡ (b, w)
      → t w ≡ (c, w)
      → or_default os (or_else os (or_else os (a, w) s) t)
        ≡ (first_of (a ∷ b ∷ c ∷ []) (bytes "adibi"), w)
  first_of_three (some x) b c s t hs ht = refl
  first_of_three none (some x) c s t hs ht = rw hs refl
  first_of_three none none (some x) s t hs ht = rw (hs, ht) refl
  first_of_three none none none s t hs ht = rw (hs, ht) refl

  first_of_one : (a : Option Bytes) → or_default os (a, w) ≡ (first_of (a ∷ []) (bytes "adibi"), w)
  first_of_one none = refl
  first_of_one (some x) = refl

  abbrev cpu : Bytes → Option Bytes
  cpu field = scan_cpuinfo field (lines_of (text (bytes "/proc/cpuinfo")))

  abbrev pretty : Option Bytes
  pretty = scan_os_release (lines_of (text (bytes "/etc/os-release")))

  from_system-texts : from_system os dmi w ≡ (
    record {
      serial =
          first_of
            (serial_of system_strings
              ∷ cpu (bytes "Serial")
              ∷ stripped (text (bytes "/etc/machine-id"))
              ∷ [])
            (bytes "adibi");
      name = first_of (pretty ∷ []) (bytes "adibi");
      model =
          first_of
            (product_of system_strings
              ∷ cpu (bytes "Model")
              ∷ stripped_model (text (bytes "/proc/device-tree/model"))
              ∷ [])
            (bytes "adibi");
      device = first_of (stripped (text (bytes "/etc/hostname")) ∷ []) (bytes "adibi");
    },
    w,
  )
  unfolding from_system
  from_system-texts =
      let (found, still) = read_dmi-text in
      let serial_read =
        first_of_three (serial_of system_strings) (cpu (bytes "Serial"))
          (stripped (text (bytes "/etc/machine-id"))) (read_cpuinfo_field os (bytes "Serial"))
          (read_machine_id os) (read_cpuinfo_field-text (bytes "Serial")) read_machine_id-text in
      let model_read =
        first_of_three (product_of system_strings) (cpu (bytes "Model"))
          (stripped_model (text (bytes "/proc/device-tree/model")))
          (read_cpuinfo_field os (bytes "Model")) (read_device_tree_model os)
          (read_cpuinfo_field-text (bytes "Model")) read_device_tree_model-text in
      rw
        (
          found,
          still,
          serial_read,
          read_os_pretty_name-text,
          first_of_one pretty,
          model_read,
          read_hostname-text,
          first_of_one (stripped (text (bytes "/etc/hostname"))),
        )
        refl

  -- Over the files of an identity, `DeviceInfo::from_system` changes nothing, and gives as serial
  -- number the first of: that of the first system structure of the DMI tables, the field Serial of
  -- cpuinfo, and the machine's id; as name the pretty name of os-release; as model the first of: the
  -- product of the same structure, the field Model of cpuinfo, and the device tree's model; and as
  -- device the host's name. A source whose file cannot be read or whose text is empty has none, a
  -- search of lines ends at a line without its separator, and where no source has a text, it is
  -- "adibi".
  pub from_system-IsIdentity : IsIdentity (from_system os dmi w).0 × ((from_system os dmi w).1 ≡ w)
  from_system-IsIdentity = rw from_system-texts (
    record {
      cpu_serial = cpu (bytes "Serial");
      cpu_model = cpu (bytes "Model");
      pretty_name = pretty;
      serial_searched = scan_cpuinfo-CpuField _ _;
      model_searched = scan_cpuinfo-CpuField _ _;
      name_searched = scan_os_release-PrettyName _;
      serial = refl;
      name = refl;
      model = refl;
      device = refl;
    },
    refl,
  )
