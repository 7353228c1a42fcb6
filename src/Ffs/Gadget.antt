-- ===== src/Ffs/Gadget.antt =====
-- src/ffs.rs: the gadget's files in ConfigFS, and its controller. Log lines are left out.
pub mod Writes
pub mod Tree
use muadib.Prelude.{
  ℕ, ◌+◌, ◌-◌, ◌/◌, ◌%◌, Bool, true, false, Option, none, some, List, [], ◌∷◌, ◌++◌, ltb, ◌==◌,
  if◌then◌else◌, bytes, Result, ok, err,
}
use muadib.Prelude.Bytes.{Bytes}
use muadib.Prelude.Text.{join_path}
use muadib.Interface.Os.{Os, Io, pure, throw, ◌>>=◌, ◌>>◌}
use muadib.Interface.Dmi.{Dmi}
use muadib.Message.{DeviceInfo}
use muadib.Device.{from_system}
use muadib.Usb.{
  adb_manufacturer_en, adb_product_en, usb_lang_en_us, usb_product_id_adb, usb_vendor_id_google,
}

abbrev pub ffs_path : Bytes
ffs_path = bytes "/run/adibi/ffs"

abbrev pub gadget_path : Bytes
gadget_path = bytes "/sys/kernel/config/usb_gadget/adibi"

-- The digits of a `u16` in base 16.
abbrev pub hex_digit : ℕ → ℕ
hex_digit d = if ltb d 10 then b'0' + d else b'a' + (d - 10)

abbrev pub hex_digits : ℕ → Bytes
hex_digits n =
    hex_digit (n / 4096 % 16)
    ∷ hex_digit (n / 256 % 16)
    ∷ hex_digit (n / 16 % 16)
    ∷ hex_digit (n % 16)
    ∷ []

-- A number is printed without leading zeros, and 0 as one digit.
abbrev pub strip_zeros : Bytes → Bytes
strip_zeros [] = []
strip_zeros (d ∷ []) = d ∷ []
strip_zeros (d ∷ e ∷ ds) = let rest = strip_zeros (e ∷ ds) in if d == b'0' then rest else d ∷ e ∷ ds

-- `{:#06x}`: zeros fill up to six characters with the prefix.
abbrev pub hex_padded : ℕ → Bytes
hex_padded n = bytes "0x" ++ hex_digits n

-- `{:#x}`
abbrev pub hex : ℕ → Bytes
hex n = bytes "0x" ++ strip_zeros (hex_digits n)

abbrev pub in_gadget : Bytes → Bytes
in_gadget name = join_path gadget_path name

abbrev pub strings_en_path : Bytes
strings_en_path = join_path (in_gadget (bytes "strings")) (hex usb_lang_en_us)

abbrev pub config_path : Bytes
config_path = in_gadget (bytes "configs/c.1")

abbrev pub config_strings_en_path : Bytes
config_strings_en_path = join_path (join_path config_path (bytes "strings")) (hex usb_lang_en_us)

abbrev pub function_path : Bytes
function_path = in_gadget (bytes "functions/ffs.adb")

abbrev pub link_path : Bytes
link_path = join_path config_path (bytes "ffs.adb")

module _ (os : Os) where
  abbrev Call : Type 0 → Type 0
  Call A = Io os.World os.Error A

  -- The link is made unless something is there.
  abbrev pub unless_there : Bool → Call (Unit {0})
  unless_there true = pure tt
  unless_there false = os.symlink function_path link_path

  -- What `setup_gadget` does in front of reading the device's identity, and behind it.
  unfoldable pub write_ids : Call (Unit {0})
  write_ids =
      os.create_dir_all ffs_path
      >> os.create_dir_all gadget_path
      >> os.write (in_gadget (bytes "idVendor")) (hex_padded usb_vendor_id_google)
      >> os.write (in_gadget (bytes "idProduct")) (hex_padded usb_product_id_adb)
      >> os.create_dir_all strings_en_path
      >> os.write (join_path strings_en_path (bytes "manufacturer")) adb_manufacturer_en
      >> os.write (join_path strings_en_path (bytes "product")) adb_product_en

  unfoldable pub write_identity : DeviceInfo → Call (Unit {0})
  write_identity info =
      os.write (join_path strings_en_path (bytes "serialnumber")) info.serial
      >> os.create_dir_all config_path
      >> os.create_dir_all config_strings_en_path
      >> os.write (join_path config_strings_en_path (bytes "configuration")) (bytes "adb")
      >> os.create_dir_all function_path
      >> (os.exists link_path >>= unless_there)

  module _ (dmi : Dmi) where
    -- `DeviceInfo::from_system()`, which has no error
    abbrev pub device_info : Call DeviceInfo
    device_info world = let (info, world') = from_system os dmi world in (ok info, world')

    unfoldable pub setup_gadget : Call (Unit {0})
    unfolding write_ids write_identity from_system
    setup_gadget = write_ids >> (device_info >>= write_identity)

  -- `.next().transpose()?.map(…).ok_or(…)`
  abbrev pub first_entry : List (Result os.Error Bytes) → Call Bytes
  first_entry [] = throw (os.other_error (bytes "no UDC found"))
  first_entry (ok name ∷ entries) = pure name
  first_entry (err e ∷ entries) = throw e

  unfoldable pub find_udc : Call Bytes
  find_udc = os.read_dir (bytes "/sys/class/udc") >>= first_entry

  abbrev pub write_udc : Bytes → Call (Unit {0})
  write_udc udc = os.write (in_gadget (bytes "UDC")) udc

  unfoldable pub bind_udc : Call (Unit {0})
  unfolding find_udc
  bind_udc = find_udc >>= write_udc

  unfoldable pub unbind_udc : Call (Unit {0})
  unbind_udc = write_udc []
