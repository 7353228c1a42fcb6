-- ===== src/Device/Fields.antt =====
-- Proofs about the identity of src/device_info.rs: where a field's text comes from.
use muadib.Prelude.{
  Bool, true, false, ◌≡◌, refl, Option, none, some, List, [], ◌∷◌, ◌++◌, All, is_empty, if_elim,
}
use muadib.Prelude.Bytes.{Bytes}
use muadib.Prelude.Text.{bytes_eq}
use muadib.Prelude.Lines.{lines, split_once, trim, trim_matches}
use muadib.Interface.Os.{Os, on_result_elim}
use muadib.Interface.Dmi.{Dmi, Structure, system, other_structure}
use muadib.Device.{
  DmiInfo, non_empty, find_system, found, at_field, at_name, scan_cpuinfo, scan_os_release, Source,
  from_file, read_cpuinfo_field, read_device_tree_model, read_os_pretty_name, read_machine_id,
  read_hostname, or_else, or_default, dmi_of, read_dmi, dmi_or_none, from_system,
}

abbrev pub IsFilled : Option Bytes → Type 0
IsFilled none = Unit
IsFilled (some s) = is_empty s ≡ false

non_empty-IsFilled : (s : Bytes) → IsFilled (non_empty s)
unfolding non_empty
non_empty-IsFilled s = if_elim IsFilled (is_empty s) (λ _. tt) (λ e. e)

found-IsFilled :
    (same : Bool) (value : Bytes) (later : Option Bytes)
    → IsFilled later
    → IsFilled (found same value later)
unfolding found
found-IsFilled true value later h = non_empty-IsFilled value
found-IsFilled false value later h = h

at_field-IsFilled :
    (field : Bytes) (o : Option (Bytes × Bytes)) (later : Option Bytes)
    → IsFilled later
    → IsFilled (at_field field o later)
unfolding at_field
at_field-IsFilled field none later h = tt
at_field-IsFilled field (some (key, value)) later h = found-IsFilled _ (trim value) later h

at_name-IsFilled :
    (o : Option (Bytes × Bytes)) (later : Option Bytes)
    → IsFilled later
    → IsFilled (at_name o later)
unfolding at_name
at_name-IsFilled none later h = tt
at_name-IsFilled (some (key, value)) later h = found-IsFilled _ (trim_matches b'"' value) later h

scan_cpuinfo-IsFilled : (field : Bytes) (ls : List Bytes) → IsFilled (scan_cpuinfo field ls)
unfolding scan_cpuinfo
scan_cpuinfo-IsFilled field [] = tt
scan_cpuinfo-IsFilled field (line ∷ rest) =
    at_field-IsFilled field (split_once b':' line) _ (scan_cpuinfo-IsFilled field rest)

scan_os_release-IsFilled : (ls : List Bytes) → IsFilled (scan_os_release ls)
unfolding scan_os_release
scan_os_release-IsFilled [] = tt
scan_os_release-IsFilled (line ∷ rest) =
    at_name-IsFilled (split_once b'=' line) _ (scan_os_release-IsFilled rest)

abbrev IsFilledInfo : DmiInfo → Type 0
IsFilledInfo i = IsFilled i.product × IsFilled i.serial

abbrev IsFilledDmi : Option DmiInfo → Type 0
IsFilledDmi none = Unit
IsFilledDmi (some i) = IsFilledInfo i

find_system-IsFilled : (ss : List (Option Structure)) → IsFilledDmi (find_system ss)
unfolding find_system
find_system-IsFilled [] = tt
find_system-IsFilled (some (system product serial) ∷ rest) =
    (non_empty-IsFilled product, non_empty-IsFilled serial)
find_system-IsFilled (some other_structure ∷ rest) = find_system-IsFilled rest
find_system-IsFilled (none ∷ rest) = find_system-IsFilled rest

dmi_or_none-IsFilled : (o : Option DmiInfo) → IsFilledDmi o → IsFilledInfo (dmi_or_none o)
dmi_or_none-IsFilled none h = (tt, tt)
dmi_or_none-IsFilled (some i) h = h

-- A line that is split at its colon, with a key other than the field.
abbrev pub IsOther : Bytes → Bytes → Type 0
IsOther field line =
    (key : Bytes) × (value : Bytes) × (split_once b':' line ≡ some (key, value))
    × (bytes_eq (trim key) field ≡ false)

-- A line that the search ends at: it has no colon, or the field's key.
abbrev pub IsEnd : Bytes → Option (Bytes × Bytes) → Type 0
IsEnd field none = Unit
IsEnd field (some (key, value)) = bytes_eq (trim key) field ≡ true

abbrev pub trimmed_value : Option (Bytes × Bytes) → Option Bytes
trimmed_value none = none
trimmed_value (some (key, value)) = non_empty (trim value)

at_field-IsEnd :
    (field : Bytes) (o : Option (Bytes × Bytes)) (later : Option Bytes)
    → IsEnd field o
    → at_field field o later ≡ trimmed_value o
unfolding at_field found
at_field-IsEnd field none later h = refl
at_field-IsEnd field (some (key, value)) later h = rw h refl

-- Behind lines with other keys, the search for a field ends at the first line that has no colon,
-- such as the empty line between two processors, or that has the field's key: it finds nothing at
-- the one and the trimmed value, if that is not empty, at the other, whatever lines follow.
pub scan_cpuinfo-IsEnd :
    (field : Bytes) (before after : List Bytes) (line : Bytes)
    → All (IsOther field) before
    → IsEnd field (split_once b':' line)
    → scan_cpuinfo field (before ++ (line ∷ after)) ≡ trimmed_value (split_once b':' line)
unfolding scan_cpuinfo at_field found
scan_cpuinfo-IsEnd field [] after line h end = at_field-IsEnd field (split_once b':' line) _ end
scan_cpuinfo-IsEnd field (l ∷ before) after line ((k, v, e, other), h) end =
    rw (e, other) (scan_cpuinfo-IsEnd field before after line h end)

module _ (os : Os) where
  from_file-IsFilled :
      (path : Bytes) (f : Bytes → Option Bytes) (world : os.World)
      → ((b : Bytes) → IsFilled (f b))
      → IsFilled (from_file os path f world).0
  from_file-IsFilled path f world h =
      on_result_elim (λ (r : Option Bytes × os.World). IsFilled r.0) (os.read_to_string path world)
        (λ b w _. h b) (λ _ _ _. tt)

  or_else-IsFilled :
      (r : Option Bytes × os.World) (source : Source os)
      → IsFilled r.0
      → ((w : os.World) → IsFilled (source w).0)
      → IsFilled (or_else os r source).0
  or_else-IsFilled (some s, w) source h k = h
  or_else-IsFilled (none, w) source h k = k w

  or_default-filled :
      (r : Option Bytes × os.World) → IsFilled r.0 → is_empty (or_default os r).0 ≡ false
  or_default-filled (some s, w) h = h
  or_default-filled (none, w) h = refl

  read_cpuinfo_field-IsFilled :
      (field : Bytes) (w : os.World) → IsFilled (read_cpuinfo_field os field w).0
  unfolding read_cpuinfo_field
  read_cpuinfo_field-IsFilled field w =
      from_file-IsFilled _ _ w (λ b. scan_cpuinfo-IsFilled field (lines b))

  read_device_tree_model-IsFilled : (w : os.World) → IsFilled (read_device_tree_model os w).0
  unfolding read_device_tree_model
  read_device_tree_model-IsFilled w = from_file-IsFilled _ _ w (λ b. non_empty-IsFilled _)

  read_machine_id-IsFilled : (w : os.World) → IsFilled (read_machine_id os w).0
  unfolding read_machine_id
  read_machine_id-IsFilled w = from_file-IsFilled _ _ w (λ b. non_empty-IsFilled _)

  read_hostname-IsFilled : (w : os.World) → IsFilled (read_hostname os w).0
  unfolding read_hostname
  read_hostname-IsFilled w = from_file-IsFilled _ _ w (λ b. non_empty-IsFilled _)

  read_os_pretty_name-IsFilled : (w : os.World) → IsFilled (read_os_pretty_name os w).0
  unfolding read_os_pretty_name
  read_os_pretty_name-IsFilled w =
      from_file-IsFilled _ _ w (λ b. scan_os_release-IsFilled (lines b))

  module _ (dmi : Dmi) where
    dmi_of-IsFilled : (a b : Bytes) → IsFilledDmi (dmi_of os dmi a b)
    dmi_of-IsFilled a b = found_entry (dmi.search a)
      where
        found_entry :
            (o : Option dmi.EntryPoint)
            → IsFilledDmi (elim o [ none ↦ none | some p ↦ find_system (dmi.structures p b) ])
        found_entry none = tt
        found_entry (some p) = find_system-IsFilled (dmi.structures p b)

    read_dmi-IsFilled : (w : os.World) → IsFilledDmi (read_dmi os dmi w).0
    unfolding read_dmi
    read_dmi-IsFilled w =
        on_result_elim (λ (r : Option DmiInfo × os.World). IsFilledDmi r.0) (os.read _ w)
          (λ a w' _.
            on_result_elim (λ (r : Option DmiInfo × os.World). IsFilledDmi r.0) (os.read _ w')
              (λ b _ _. dmi_of-IsFilled a b) (λ _ _ _. tt))
          (λ _ _ _. tt)

    -- On every system, whatever files it has and whatever they hold, no field of the identity is
    -- empty.
    pub from_system-filled :
        (world : os.World)
        → (is_empty (from_system os dmi world).0.serial ≡ false)
          × (is_empty (from_system os dmi world).0.name ≡ false)
          × (is_empty (from_system os dmi world).0.model ≡ false)
          × (is_empty (from_system os dmi world).0.device ≡ false)
    unfolding from_system
    from_system-filled world =
        let info = dmi_or_none-IsFilled (read_dmi os dmi world).0 (read_dmi-IsFilled world) in
        (
          or_default-filled _ (
              or_else-IsFilled _ (read_machine_id os)
                (or_else-IsFilled _ (read_cpuinfo_field os _) info.1
                  (read_cpuinfo_field-IsFilled _))
                read_machine_id-IsFilled),
          or_default-filled _ (read_os_pretty_name-IsFilled _),
          or_default-filled _ (
              or_else-IsFilled _ (read_device_tree_model os)
                (or_else-IsFilled _ (read_cpuinfo_field os _) info.0
                  (read_cpuinfo_field-IsFilled _))
                read_device_tree_model-IsFilled),
          or_default-filled _ (read_hostname-IsFilled _),
        )
