-- ===== src/Descriptors.antt =====
-- build.rs: the FunctionFS descriptors and strings, which the build writes to two files.
pub mod Walk
use muadib.Prelude.{ℕ, ◌+◌, ◌*◌, ◌/◌, ◌%◌, [], ◌∷◌, ◌++◌, bytes, bit_or}
use muadib.Prelude.Bytes.{Bytes, u32_bytes}
use muadib.Prelude.Text.{join_path}
use muadib.Interface.Os.{Os, Io, ◌>>=◌, ◌>>◌}
use muadib.Usb.{usb_class_adb, usb_subclass_adb, usb_protocol_adb, usb_lang_en_us}

abbrev pub functionfs_descriptors_magic_v2 : ℕ
functionfs_descriptors_magic_v2 = 3

abbrev pub functionfs_strings_magic : ℕ
functionfs_strings_magic = 2

abbrev pub functionfs_has_fs_desc : ℕ
functionfs_has_fs_desc = 1

abbrev pub functionfs_has_hs_desc : ℕ
functionfs_has_hs_desc = 2

abbrev pub usb_dt_interface : ℕ
usb_dt_interface = 4

abbrev pub usb_dt_endpoint : ℕ
usb_dt_endpoint = 5

abbrev pub ep_addr_out : ℕ
ep_addr_out = 0x01

abbrev pub ep_addr_in : ℕ
ep_addr_in = 0x82

abbrev pub fs_max_packet_size : ℕ
fs_max_packet_size = 64

abbrev pub hs_max_packet_size : ℕ
hs_max_packet_size = 512

abbrev pub adb_interface_string : Bytes
adb_interface_string = bytes "ADB Interface" ++ (0 ∷ [])

abbrev pub u16_bytes : ℕ → Bytes
u16_bytes v = (v % 256) ∷ (v / 256 % 256) ∷ []

-- A field `to_le` is the field on a little-endian target. The sizes are those of packed structs.
pub record FfsDescsHeadV2 : Type 0 where
  pub magic : ℕ
  pub length : ℕ
  pub flags : ℕ

abbrev pub descs_head_bytes : FfsDescsHeadV2 → Bytes
descs_head_bytes h = u32_bytes h.magic ++ (u32_bytes h.length ++ u32_bytes h.flags)

pub record FfsStringsHead : Type 0 where
  pub magic : ℕ
  pub length : ℕ
  pub str_count : ℕ
  pub lang_count : ℕ

abbrev pub strings_head_bytes : FfsStringsHead → Bytes
strings_head_bytes h =
    u32_bytes h.magic ++ (u32_bytes h.length ++ (u32_bytes h.str_count ++ u32_bytes h.lang_count))

pub record UsbInterfaceDescriptor : Type 0 where
  pub b_length : ℕ
  pub b_descriptor_type : ℕ
  pub b_interface_number : ℕ
  pub b_alternate_setting : ℕ
  pub b_num_endpoints : ℕ
  pub b_interface_class : ℕ
  pub b_interface_sub_class : ℕ
  pub b_interface_protocol : ℕ
  pub i_interface : ℕ

abbrev pub interface_size : ℕ
interface_size = 9

abbrev pub interface_bytes : UsbInterfaceDescriptor → Bytes
interface_bytes d =
    d.b_length ∷ d.b_descriptor_type ∷ d.b_interface_number ∷ d.b_alternate_setting
    ∷ d.b_num_endpoints ∷ d.b_interface_class ∷ d.b_interface_sub_class ∷ d.b_interface_protocol
    ∷ d.i_interface ∷ []

pub record UsbEndpointDescriptor : Type 0 where
  pub b_length : ℕ
  pub b_descriptor_type : ℕ
  pub b_endpoint_address : ℕ
  pub bm_attributes : ℕ
  pub w_max_packet_size : ℕ
  pub b_interval : ℕ

abbrev pub endpoint_size : ℕ
endpoint_size = 7

abbrev pub endpoint_bytes : UsbEndpointDescriptor → Bytes
endpoint_bytes d =
    d.b_length
    ∷ d.b_descriptor_type
    ∷ d.b_endpoint_address
    ∷ d.bm_attributes
    ∷ (u16_bytes d.w_max_packet_size ++ (d.b_interval ∷ []))

pub record FsHsDescriptors : Type 0 where
  pub intf : UsbInterfaceDescriptor
  pub ep_out : UsbEndpointDescriptor
  pub ep_in : UsbEndpointDescriptor

unfoldable pub fs_hs_bytes : FsHsDescriptors → Bytes
fs_hs_bytes d = interface_bytes d.intf ++ (endpoint_bytes d.ep_out ++ endpoint_bytes d.ep_in)

pub record AdbDescriptors : Type 0 where
  pub header : FfsDescsHeadV2
  pub fs_count : ℕ
  pub hs_count : ℕ
  pub fs : FsHsDescriptors
  pub hs : FsHsDescriptors

abbrev pub fs_hs_size : ℕ
fs_hs_size = interface_size + 2 * endpoint_size

abbrev pub adb_descriptors_size : ℕ
adb_descriptors_size = 12 + 4 + 4 + 2 * fs_hs_size

unfoldable pub descriptors_bytes : AdbDescriptors → Bytes
unfolding fs_hs_bytes
descriptors_bytes d =
    descs_head_bytes d.header
    ++ (u32_bytes d.fs_count ++ (u32_bytes d.hs_count ++ (fs_hs_bytes d.fs ++ fs_hs_bytes d.hs)))

pub record AdbStrings : Type 0 where
  pub header : FfsStringsHead
  pub lang_code : ℕ
  pub string : Bytes

abbrev pub adb_strings_size : ℕ
adb_strings_size = 16 + 2 + 14

unfoldable pub adb_strings_bytes : AdbStrings → Bytes
adb_strings_bytes s = strings_head_bytes s.header ++ (u16_bytes s.lang_code ++ s.string)

abbrev pub adb_interface : UsbInterfaceDescriptor
adb_interface = record {
  b_length = interface_size;
  b_descriptor_type = usb_dt_interface;
  b_interface_number = 0;
  b_alternate_setting = 0;
  b_num_endpoints = 2;
  b_interface_class = usb_class_adb;
  b_interface_sub_class = usb_subclass_adb;
  b_interface_protocol = usb_protocol_adb;
  i_interface = 1;
}

abbrev pub bulk_endpoint : ℕ → ℕ → UsbEndpointDescriptor
bulk_endpoint address max_packet_size = record {
  b_length = endpoint_size;
  b_descriptor_type = usb_dt_endpoint;
  b_endpoint_address = address;
  bm_attributes = 0x02;
  w_max_packet_size = max_packet_size;
  b_interval = 0;
}

abbrev pub fs_hs_descs : ℕ → FsHsDescriptors
fs_hs_descs max_packet_size = record {
  intf = adb_interface;
  ep_out = bulk_endpoint ep_addr_out max_packet_size;
  ep_in = bulk_endpoint ep_addr_in max_packet_size;
}

abbrev pub descs_count : ℕ
descs_count = 3

abbrev pub adb_descriptors : AdbDescriptors
adb_descriptors = record {
  header = record {
    magic = functionfs_descriptors_magic_v2;
    length = adb_descriptors_size;
    flags = bit_or functionfs_has_fs_desc functionfs_has_hs_desc;
  };
  fs_count = descs_count;
  hs_count = descs_count;
  fs = fs_hs_descs fs_max_packet_size;
  hs = fs_hs_descs hs_max_packet_size;
}

abbrev pub adb_strings : AdbStrings
adb_strings = record {
  header = record {
    magic = functionfs_strings_magic;
    length = adb_strings_size;
    str_count = 1;
    lang_count = 1;
  };
  lang_code = usb_lang_en_us;
  string = adb_interface_string;
}

-- `main` of the build script
unfoldable pub write_blobs : (os : Os) → Io os.World os.Error (Unit {0})
unfolding descriptors_bytes adb_strings_bytes
write_blobs os = do
  out_dir ← os.env_var (bytes "OUT_DIR")
  os.write (join_path out_dir (bytes "descriptors.bin")) (descriptors_bytes adb_descriptors)
  os.write (join_path out_dir (bytes "strings.bin")) (adb_strings_bytes adb_strings)
