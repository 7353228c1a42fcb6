-- ===== src/Interface/Files.antt =====
-- The files of the operating system that the daemon reads and sets, as `std::fs`, procfs, sysfs and
-- ConfigFS document them.
use muadib.Prelude.{
  ◌≡◌, ◌≢◌, Bool, true, false, ◌||◌, Option, some, List, [], ◌∷◌, bytes, is_empty, Result, ok,
}
use muadib.Prelude.Bytes.{Bytes}
use muadib.Prelude.Text.{bytes_eq, starts_with}
use muadib.Interface.Os.{Os}

abbrev pub is_one_of : Bytes → List Bytes → Bool
is_one_of q [] = false
is_one_of q (p ∷ ps) = bytes_eq q p || is_one_of q ps

-- The attribute that names a gadget's controller, and the link of its function.
abbrev pub udc_path : Bytes
udc_path = bytes "/sys/kernel/config/usb_gadget/adibi/UDC"

abbrev pub function_link : Bytes
function_link = bytes "/sys/kernel/config/usb_gadget/adibi/configs/c.1/ffs.adb"

-- The attributes of the gadget in ConfigFS that the program sets.
abbrev pub attributes : List Bytes
attributes =
    bytes "/sys/kernel/config/usb_gadget/adibi/idVendor"
    ∷ bytes "/sys/kernel/config/usb_gadget/adibi/idProduct"
    ∷ bytes "/sys/kernel/config/usb_gadget/adibi/strings/0x409/manufacturer"
    ∷ bytes "/sys/kernel/config/usb_gadget/adibi/strings/0x409/product"
    ∷ bytes "/sys/kernel/config/usb_gadget/adibi/strings/0x409/serialnumber"
    ∷ bytes "/sys/kernel/config/usb_gadget/adibi/configs/c.1/strings/0x409/configuration"
    ∷ udc_path
    ∷ []

-- The files that the program takes an identity from.
abbrev pub sources : List Bytes
sources =
    bytes "/proc/cpuinfo"
    ∷ bytes "/proc/device-tree/model"
    ∷ bytes "/etc/os-release"
    ∷ bytes "/etc/machine-id"
    ∷ bytes "/etc/hostname"
    ∷ bytes "/sys/firmware/dmi/tables/smbios_entry_point"
    ∷ bytes "/sys/firmware/dmi/tables/DMI"
    ∷ []

-- What the program relies on while nobody else changes these files. An attribute's content is the
-- text that it was last set to, or its default; what a read of it gives follows from that.
pub record IsFileTree (os : Os) : Type 0 where
  pub content : os.World → Bytes → Option Bytes
  pub reads : Bytes → Option Bytes → Result os.Error Bytes
  pub reads_text : Bytes → Option Bytes → Result os.Error Bytes
  -- whether there is something at a path, and what a link there leads to
  pub there : os.World → Bytes → Bool
  pub target : os.World → Bytes → Option Bytes
  pub read_law : (p : Bytes) (w : os.World) → os.read p w ≡ (reads p (content w p), w)
  pub read_to_string_law :
      (p : Bytes) (w : os.World) → os.read_to_string p w ≡ (reads_text p (content w p), w)
  -- a text that is not empty sets the attribute, and no other file of these
  pub write_law :
      (p b : Bytes) (w w' : os.World)
      → is_one_of p attributes ≡ true
      → is_empty b ≡ false
      → os.write p b w ≡ (ok tt, w')
      → content w' p ≡ some b
  pub write_attribute_law :
      (p b q : Bytes) (w w' : os.World)
      → is_one_of p attributes ≡ true
      → is_one_of q attributes ≡ true
      → bytes_eq q p ≡ false
      → os.write p b w ≡ (ok tt, w')
      → content w' q ≡ content w q
  -- `fs::write` opens the file and writes all bytes: of no byte, no attribute hears
  pub write_nothing_law :
      (p q : Bytes) (w w' : os.World)
      → is_one_of p attributes ≡ true
      → is_one_of q attributes ≡ true
      → os.write p [] w ≡ (ok tt, w')
      → content w' q ≡ content w q
  pub write_source_law :
      (p b q : Bytes) (w w' : os.World)
      → is_one_of p attributes ≡ true
      → is_one_of q sources ≡ true
      → os.write p b w ≡ (ok tt, w')
      → content w' q ≡ content w q
  pub write_link_law :
      (p b : Bytes) (w w' : os.World)
      → is_one_of p attributes ≡ true
      → os.write p b w ≡ (ok tt, w')
      → (there w' function_link ≡ there w function_link)
        × (target w' function_link ≡ target w function_link)
  -- a gadget that is bound to a controller is busy: it takes no other
  pub write_busy_law :
      (b c : Bytes) (w w' : os.World)
      → content w udc_path ≡ some c
      → is_empty c ≡ false
      → is_empty b ≡ false
      → os.write udc_path b w ≢ (ok tt, w')
  -- a directory that is made in ConfigFS comes with attributes; those that were there stay
  pub create_dir_all_law :
      (p q b : Bytes) (w w' : os.World)
      → is_one_of q attributes ≡ true
      → os.create_dir_all p w ≡ (ok tt, w')
      → content w q ≡ some b
      → content w' q ≡ some b
  pub create_dir_all_source_law :
      (p q : Bytes) (w w' : os.World)
      → is_one_of q sources ≡ true
      → os.create_dir_all p w ≡ (ok tt, w')
      → content w' q ≡ content w q
  pub create_dir_all_link_law :
      (p : Bytes) (w w' : os.World)
      → starts_with p function_link ≡ false
      → os.create_dir_all p w ≡ (ok tt, w')
      → (there w' function_link ≡ there w function_link)
        × (target w' function_link ≡ target w function_link)
  pub create_dir_all_there_law :
      (p : Bytes) (w w' : os.World) → os.create_dir_all p w ≡ (ok tt, w') → there w' p ≡ true
  pub exists_law :
      (p : Bytes) (b : Bool) (w w' : os.World)
      → os.exists p w ≡ (ok b, w')
      → (there w p ≡ b) × (w ≡ w')
  -- a link is made where nothing is, and leads to what is there
  pub symlink_law :
      (t link : Bytes) (w w' : os.World)
      → os.symlink t link w ≡ (ok tt, w')
      → (there w link ≡ false)
        × (target w' link ≡ some t)
        × (there w t ≡ true → there w' link ≡ true)
  pub symlink_content_law :
      (t link q : Bytes) (w w' : os.World)
      → is_one_of q attributes || is_one_of q sources ≡ true
      → os.symlink t link w ≡ (ok tt, w')
      → content w' q ≡ content w q
  -- a listing changes nothing, and no entry has an empty name
  pub read_dir_law :
      (p : Bytes) (entries : List (Result os.Error Bytes)) (w w' : os.World)
      → os.read_dir p w ≡ (ok entries, w')
      → w ≡ w'
  pub read_dir_name_law :
      (p name : Bytes) (entries : List (Result os.Error Bytes)) (w w' : os.World)
      → os.read_dir p w ≡ (ok (ok name ∷ entries), w')
      → is_empty name ≡ false
