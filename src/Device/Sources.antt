-- ===== src/Device/Sources.antt =====
-- Proofs about the sources of src/device_info.rs: what a search of lines finds, and the DMI strings.
use muadib.Prelude.{ℕ, ◌≡◌, refl, Bool, true, false, Option, none, some, List, [], ◌∷◌, bytes}
use muadib.Prelude.Bytes.{Bytes}
use muadib.Prelude.Text.{bytes_eq}
use muadib.Prelude.Lines.{lines, split_once, trim, trim_end_matches, trim_matches}
use muadib.Interface.Dmi.{Structure, system, other_structure}
use muadib.Device.{
  non_empty, find_system, found, at_field, at_name, scan_cpuinfo, scan_os_release, dmi_or_none,
}

-- The first text of some, and else the default.
abbrev pub first_of : List (Option Bytes) → Bytes → Bytes
first_of [] default = default
first_of (some text ∷ others) default = text
first_of (none ∷ others) default = first_of others default

-- A text that is not empty.
abbrev pub filled : Bytes → Option Bytes
filled [] = none
filled (b ∷ bs) = some (b ∷ bs)

pub non_empty-filled : (s : Bytes) → non_empty s ≡ filled s
unfolding non_empty
non_empty-filled [] = refl
non_empty-filled (b ∷ bs) = refl

-- A search of lines for a key: it passes lines with other keys, and ends at a line that has no
-- separator, with nothing, at the first line with the key, with its value, and behind the last one.
pub data Searched (separator : ℕ) (key value : Bytes → Bytes) (wanted : Bytes)
    : List Bytes → Option Bytes → Type 0 where
  at_end : Searched separator key value wanted [] none
  at_other_line :
      (line : Bytes) (rest : List Bytes)
      → split_once separator line ≡ none
      → Searched separator key value wanted (line ∷ rest) none
  at_key :
      (line k v : Bytes) (rest : List Bytes)
      → split_once separator line ≡ some (k, v)
      → bytes_eq (key k) wanted ≡ true
      → Searched separator key value wanted (line ∷ rest) (filled (value v))
  passed :
      (line k v : Bytes) (rest : List Bytes) (result : Option Bytes)
      → split_once separator line ≡ some (k, v)
      → bytes_eq (key k) wanted ≡ false
      → Searched separator key value wanted rest result
      → Searched separator key value wanted (line ∷ rest) result

abbrev pub CpuField : Bytes → List Bytes → Option Bytes → Type 0
CpuField = Searched b':' trim trim

abbrev pub PrettyName : List Bytes → Option Bytes → Type 0
PrettyName = Searched b'=' (λ k. k) (trim_matches b'"') (bytes "PRETTY_NAME")

-- The line that ends a search or is passed, by whether its key is the wanted one.
found-Searched :
    (separator : ℕ) (key value : Bytes → Bytes) (wanted line k v : Bytes) (rest : List Bytes)
    (later : Option Bytes) (same : Bool)
    → split_once separator line ≡ some (k, v)
    → bytes_eq (key k) wanted ≡ same
    → Searched separator key value wanted rest later
    → Searched separator key value wanted (line ∷ rest) (found same (value v) later)
unfolding found
found-Searched separator key value wanted line k v rest later true e h more =
    rw (non_empty-filled (value v)) (at_key line k v rest e h)
found-Searched separator key value wanted line k v rest later false e h more =
    passed line k v rest later e h more

at_field-CpuField :
    (field line : Bytes) (rest : List Bytes) (later : Option Bytes) (o : Option (Bytes × Bytes))
    → split_once b':' line ≡ o
    → CpuField field rest later
    → CpuField field (line ∷ rest) (at_field field o later)
unfolding at_field
at_field-CpuField field line rest later none e more = at_other_line line rest e
at_field-CpuField field line rest later (some (k, v)) e more =
    found-Searched b':' trim trim field line k v rest later (bytes_eq (trim k) field) e refl more

pub scan_cpuinfo-CpuField :
    (field : Bytes) (ls : List Bytes) → CpuField field ls (scan_cpuinfo field ls)
unfolding scan_cpuinfo
scan_cpuinfo-CpuField field [] = at_end
scan_cpuinfo-CpuField field (line ∷ rest) =
    at_field-CpuField field line rest (scan_cpuinfo field rest) (split_once b':' line) refl
      (scan_cpuinfo-CpuField field rest)

at_name-PrettyName :
    (line : Bytes) (rest : List Bytes) (later : Option Bytes) (o : Option (Bytes × Bytes))
    → split_once b'=' line ≡ o
    → PrettyName rest later
    → PrettyName (line ∷ rest) (at_name o later)
unfolding at_name
at_name-PrettyName line rest later none e more = at_other_line line rest e
at_name-PrettyName line rest later (some (k, v)) e more =
    found-Searched b'=' (λ k. k) (trim_matches b'"') (bytes "PRETTY_NAME") line k v rest later
      (bytes_eq k (bytes "PRETTY_NAME")) e refl more

pub scan_os_release-PrettyName : (ls : List Bytes) → PrettyName ls (scan_os_release ls)
unfolding scan_os_release
scan_os_release-PrettyName [] = at_end
scan_os_release-PrettyName (line ∷ rest) =
    at_name-PrettyName line rest (scan_os_release rest) (split_once b'=' line) refl
      (scan_os_release-PrettyName rest)

-- The product and the serial number of the first system structure of a DMI table.
abbrev pub first_system : List (Option Structure) → Option (Bytes × Bytes)
first_system [] = none
first_system (some (system product serial) ∷ rest) = some (product, serial)
first_system (some other_structure ∷ rest) = first_system rest
first_system (none ∷ rest) = first_system rest

abbrev pub product_of : Option (Bytes × Bytes) → Option Bytes
product_of none = none
product_of (some (product, serial)) = filled product

abbrev pub serial_of : Option (Bytes × Bytes) → Option Bytes
serial_of none = none
serial_of (some (product, serial)) = filled serial

pub find_system-first :
    (ss : List (Option Structure))
    → dmi_or_none (find_system ss)
      ≡ record { product = product_of (first_system ss); serial = serial_of (first_system ss) }
unfolding find_system
find_system-first [] = refl
find_system-first (some (system product serial) ∷ rest) = simp (non_empty-filled)
find_system-first (some other_structure ∷ rest) = find_system-first rest
find_system-first (none ∷ rest) = find_system-first rest

abbrev pub lines_of : Option Bytes → List Bytes
lines_of none = []
lines_of (some text) = lines text

abbrev pub stripped : Option Bytes → Option Bytes
stripped none = none
stripped (some text) = filled (trim text)

-- A model of the device tree ends with NUL bytes.
abbrev pub stripped_model : Option Bytes → Option Bytes
stripped_model none = none
stripped_model (some text) = filled (trim (trim_end_matches 0 text))
