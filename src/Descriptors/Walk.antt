-- ===== src/Descriptors/Walk.antt =====
-- Proofs about build.rs: what a reader of USB descriptors finds in the bytes.
use muadib.Prelude.{
  ℕ, zero, suc, ◌+◌, ◌*◌, ◌/◌, ◌%◌, ◌^◌, ◌<◌, ◌≡◌, refl, Option, none, some, List, [], ◌∷◌, ◌++◌,
  length, ◌==◌, ◌&&◌, if◌then◌else◌, arith,
}
use muadib.Prelude.Bytes.{Bytes}
use muadib.Usb.{usb_class_adb, usb_subclass_adb, usb_protocol_adb}
use muadib.Descriptors.{
  ep_addr_out, ep_addr_in, fs_hs_bytes, fs_hs_descs, descs_count, descriptors_bytes,
  adb_descriptors, adb_descriptors_size, adb_strings_bytes, adb_strings, adb_strings_size,
}

-- A descriptor as its reader sees it.
pub data Descriptor : Type 0 where
  -- endpoints, class, subclass, protocol
  interface_with : ℕ → ℕ → ℕ → ℕ → Descriptor
  -- address, attributes, packet size
  endpoint_at : ℕ → ℕ → ℕ → Descriptor

abbrev read_interface : Bytes → Option (Descriptor × Bytes)
read_interface (n ∷ alt ∷ eps ∷ cls ∷ sub ∷ prot ∷ istr ∷ rest) =
    some (interface_with eps cls sub prot, rest)
read_interface _ = none

abbrev read_endpoint : Bytes → Option (Descriptor × Bytes)
read_endpoint (address ∷ attributes ∷ lo ∷ hi ∷ interval ∷ rest) =
    some (endpoint_at address attributes (lo + hi * 256), rest)
read_endpoint _ = none

-- By the length and the type that a descriptor starts with.
abbrev read_descriptor : Bytes → Option (Descriptor × Bytes)
read_descriptor (len ∷ kind ∷ rest) =
    if len == 9 && kind == 4
    then read_interface rest
    else if len == 7 && kind == 5
    then read_endpoint rest
    else none
read_descriptor _ = none

abbrev pub read_descriptors : ℕ → Bytes → Option (List Descriptor × Bytes)
read_descriptors zero i = some ([], i)
read_descriptors (suc n) i = elim (read_descriptor i) [
  | none ↦ none
  | some (d, rest) ↦ elim (read_descriptors n rest) [
    | none ↦ none
    | some (ds, left) ↦ some (d ∷ ds, left)
  ]
]

-- The descriptors of one speed, for every packet size that is a `u16`: a reader that takes the
-- announced number of descriptors, each by its own length, finds the ADB interface with two
-- endpoints, the bulk endpoint towards the device and the one towards the host, both with that
-- packet size, and is at their end.
pub read_descriptors-fs_hs_bytes :
    (max_packet_size : ℕ) (rest : Bytes)
    → max_packet_size < 2 ^ 16
    → read_descriptors descs_count (fs_hs_bytes (fs_hs_descs max_packet_size) ++ rest)
      ≡ some (
        interface_with 2 usb_class_adb usb_subclass_adb usb_protocol_adb
            ∷ endpoint_at ep_addr_out 2 max_packet_size
            ∷ endpoint_at ep_addr_in 2 max_packet_size
            ∷ [],
        rest,
      )
unfolding fs_hs_bytes
read_descriptors-fs_hs_bytes size rest h =
    let back : size % 256 + size / 256 % 256 * 256 ≡ size = omega arith in rw back refl

length-descriptors_bytes : length (descriptors_bytes adb_descriptors) ≡ adb_descriptors_size
unfolding descriptors_bytes fs_hs_bytes
length-descriptors_bytes = refl

length-adb_strings_bytes : length (adb_strings_bytes adb_strings) ≡ adb_strings_size
unfolding adb_strings_bytes
length-adb_strings_bytes = refl
