-- ===== src/Device/Reads.antt =====
-- Proofs about the identity of src/device_info.rs: it depends on the files that it reads, and reading
-- them changes nothing.
use muadib.Prelude.{◌≡◌, refl, Option, none, some, bytes, Result, ok, err}
use muadib.Prelude.Bytes.{Bytes}
use muadib.Interface.Os.{Os, on_result}
use muadib.Interface.Files.{IsFileTree}
use muadib.Interface.Dmi.{Dmi}
use muadib.Device.{
  Source, from_file, read_cpuinfo_field, read_device_tree_model, read_os_pretty_name,
  read_machine_id, read_hostname, or_else, or_default, read_dmi, dmi_of, DmiInfo, dmi_or_none,
  from_system,
}

module _ (os : Os) (tree : IsFileTree os) (w w' : os.World) where
  abbrev SameAt : Bytes → Type 0
  SameAt p = tree.content w p ≡ tree.content w' p

  -- Two worlds with the same contents in the files that the identity is read from.
  pub record SameSources : Type 0 where
    pub cpuinfo : SameAt (bytes "/proc/cpuinfo")
    pub device_tree : SameAt (bytes "/proc/device-tree/model")
    pub os_release : SameAt (bytes "/etc/os-release")
    pub machine_id : SameAt (bytes "/etc/machine-id")
    pub hostname : SameAt (bytes "/etc/hostname")
    pub entry_point : SameAt (bytes "/sys/firmware/dmi/tables/smbios_entry_point")
    pub table : SameAt (bytes "/sys/firmware/dmi/tables/DMI")

  -- The same value, in the two worlds as they were.
  abbrev pub Same : {A : Type 0} → A × os.World → A × os.World → Type 0
  Same x y = (x.0 ≡ y.0) × (x.1 ≡ w) × (y.1 ≡ w')

  from_result-Same :
      {A : Type 0} (r : Result os.Error Bytes) (f : Bytes → A) (a : A)
      → Same
          (on_result (r, w) (λ b v. (f b, v)) (λ _ v. (a, v)))
          (on_result (r, w') (λ b v. (f b, v)) (λ _ v. (a, v)))
  from_result-Same (ok b) f a = (refl, refl, refl)
  from_result-Same (err e) f a = (refl, refl, refl)

  from_file-Same :
      (p : Bytes) (f : Bytes → Option Bytes)
      → SameAt p
      → Same (from_file os p f w) (from_file os p f w')
  from_file-Same p f same =
      rw (tree.read_to_string_law p w, tree.read_to_string_law p w', same)
        (from_result-Same (tree.reads_text p (tree.content w' p)) f none)

  or_else-Same :
      (x y : Option Bytes × os.World) (s : Source os)
      → Same x y
      → Same (s w) (s w')
      → Same (or_else os x s) (or_else os y s)
  or_else-Same (some a, v) (some b, v') s (e, h, h') k = (e, h, h')
  or_else-Same (some a, v) (none, v') s (e, h, h') k = absurd (cc)
  or_else-Same (none, v) (some b, v') s (e, h, h') k = absurd (cc)
  or_else-Same (none, v) (none, v') s (e, hv, hv') k = rw (hv, hv') k

  or_default-Same :
      (x y : Option Bytes × os.World) → Same x y → Same (or_default os x) (or_default os y)
  or_default-Same (some a, v) (some b, v') (e, h, h') = (cc, h, h')
  or_default-Same (some a, v) (none, v') (e, h, h') = absurd (cc)
  or_default-Same (none, v) (some b, v') (e, h, h') = absurd (cc)
  or_default-Same (none, v) (none, v') (e, h, h') = (refl, h, h')

  module _ (dmi : Dmi) (sources : SameSources) where
    with_table-Same :
        (entry : Bytes) (r : Result os.Error Bytes)
        → Same
            (on_result (r, w) (λ b v. (dmi_of os dmi entry b, v)) (λ _ v. (none, v)))
            (on_result (r, w') (λ b v. (dmi_of os dmi entry b, v)) (λ _ v. (none, v)))
    with_table-Same entry r = from_result-Same r (dmi_of os dmi entry) none

    read_dmi-Same : Same (read_dmi os dmi w) (read_dmi os dmi w')
    unfolding read_dmi
    read_dmi-Same =
        rw
          (
            tree.read_law (bytes "/sys/firmware/dmi/tables/smbios_entry_point") w,
            tree.read_law (bytes "/sys/firmware/dmi/tables/smbios_entry_point") w',
            sources.entry_point,
          )
          (read_entry (tree.reads _ (tree.content w' _)))
      where
        read_entry :
            (r : Result os.Error Bytes)
            → Same
                (on_result
                  (r, w)
                  (λ b v.
                    on_result
                      (os.read (bytes "/sys/firmware/dmi/tables/DMI") v)
                      (λ t u. (dmi_of os dmi b t, u))
                      (λ _ u. (none, u)))
                  (λ _ v. (none, v)))
                (on_result
                  (r, w')
                  (λ b v.
                    on_result
                      (os.read (bytes "/sys/firmware/dmi/tables/DMI") v)
                      (λ t u. (dmi_of os dmi b t, u))
                      (λ _ u. (none, u)))
                  (λ _ v. (none, v)))
        read_entry (err e) = (refl, refl, refl)
        read_entry (ok b) =
            rw
              (
                tree.read_law (bytes "/sys/firmware/dmi/tables/DMI") w,
                tree.read_law (bytes "/sys/firmware/dmi/tables/DMI") w',
                sources.table,
              )
              (with_table-Same b (tree.reads _ (tree.content w' _)))

    serial-Same :
        (i : Option Bytes)
        → Same
            (or_default os (
              or_else os
                (or_else os (i, w) (read_cpuinfo_field os (bytes "Serial")))
                (read_machine_id os)))
            (or_default os (
              or_else os
                (or_else os (i, w') (read_cpuinfo_field os (bytes "Serial")))
                (read_machine_id os)))
    unfolding read_cpuinfo_field read_machine_id
    serial-Same i = or_default-Same _ _ (
        or_else-Same _ _ _
          (or_else-Same (i, w) (i, w') _ (refl, refl, refl) (from_file-Same _ _ sources.cpuinfo))
          (from_file-Same _ _ sources.machine_id))

    name-Same :
        Same (or_default os (read_os_pretty_name os w)) (or_default os (read_os_pretty_name os w'))
    unfolding read_os_pretty_name
    name-Same = or_default-Same _ _ (from_file-Same _ _ sources.os_release)

    model-Same :
        (i : Option Bytes)
        → Same
            (or_default os (
              or_else os
                (or_else os (i, w) (read_cpuinfo_field os (bytes "Model")))
                (read_device_tree_model os)))
            (or_default os (
              or_else os
                (or_else os (i, w') (read_cpuinfo_field os (bytes "Model")))
                (read_device_tree_model os)))
    unfolding read_cpuinfo_field read_device_tree_model
    model-Same i = or_default-Same _ _ (
        or_else-Same _ _ _
          (or_else-Same (i, w) (i, w') _ (refl, refl, refl) (from_file-Same _ _ sources.cpuinfo))
          (from_file-Same _ _ sources.device_tree))

    device-Same : Same (or_default os (read_hostname os w)) (or_default os (read_hostname os w'))
    unfolding read_hostname
    device-Same = or_default-Same _ _ (from_file-Same _ _ sources.hostname)

    -- Where the files that it reads have the same contents, the identity is the same, and reading
    -- it leaves each of the two systems as it was.
    pub from_system-Same : Same (from_system os dmi w) (from_system os dmi w')
    unfolding from_system
    from_system-Same =
        let (d, d0, d1) = read_dmi-Same in
        let found : DmiInfo = dmi_or_none (read_dmi os dmi w').0 in
        let (s, s0, s1) = serial-Same found.serial in
        let (n, n0, n1) = name-Same in
        let (m, m0, m1) = model-Same found.product in
        let (h, h0, h1) = device-Same in
        rw (d, d0, d1, s, s0, s1, n, n0, n1, m, m0, m1, h, h0, h1) (refl, refl, refl)
