-- ===== src/Usb.antt =====
-- src/usb.rs: the constants of the ADB interface.
use muadib.Prelude.{ℕ, bytes}
use muadib.Prelude.Bytes.{Bytes}

abbrev pub adb_manufacturer_en : Bytes
adb_manufacturer_en = bytes "Android"

abbrev pub adb_product_en : Bytes
adb_product_en = bytes "Android Debug Bridge"

abbrev pub usb_class_adb : ℕ
usb_class_adb = 0xff

abbrev pub usb_subclass_adb : ℕ
usb_subclass_adb = 0x42

abbrev pub usb_protocol_adb : ℕ
usb_protocol_adb = 0x01

abbrev pub usb_vendor_id_google : ℕ
usb_vendor_id_google = 0x18d1

abbrev pub usb_product_id_adb : ℕ
usb_product_id_adb = 0x4ee7

abbrev pub usb_lang_en_us : ℕ
usb_lang_en_us = 0x409
