-- ===== src/Ffs.antt =====
-- src/ffs.rs: the events of the control endpoint.
pub mod Events
pub mod Gadget
use muadib.Prelude.{ℕ, Option, none, some, length, get_elem?, ltb, ◌==◌, if◌then◌else◌, bytes}
use muadib.Prelude.Bytes.{Bytes}
use muadib.Interface.Os.{Os, Io, pure, throw, ◌>>=◌}

pub data UsbFunctionFsEventType : Type 0 where
  bind unbind enable disable setup suspend resume : UsbFunctionFsEventType

unfoldable pub event_try_from : ℕ → Option UsbFunctionFsEventType
event_try_from value =
    if value == 0
    then some bind
    else if value == 1
    then some unbind
    else if value == 2
    then some enable
    else if value == 3
    then some disable
    else if value == 4
    then some setup
    else if value == 5
    then some suspend
    else if value == 6
    then some resume
    else none

-- `UsbFunctionFsEvent`: eight bytes of setup, the type, three bytes of padding.
abbrev pub event_size : ℕ
event_size = 12

abbrev pub event_type_offset : ℕ
event_type_offset = 8

abbrev pub byte_at : Bytes → ℕ → ℕ
byte_at buf i = elim (get_elem? buf i) [ none ↦ 0 | some b ↦ b ]

module _ (os : Os) where
  abbrev pub known_event :
      Option UsbFunctionFsEventType → Io os.World os.Error UsbFunctionFsEventType
  known_event none = throw (os.other_error (bytes "Unknown FunctionFs Event Type"))
  known_event (some e) = pure e

  -- The buffer is zeroed, so a byte that the read did not fill is 0.
  unfoldable pub read_next_ffs_event_type : os.Fd → Io os.World os.Error UsbFunctionFsEventType
  unfolding event_try_from
  read_next_ffs_event_type ep0 = do
    buf ← os.fd_read ep0 event_size
    if ltb (length buf) event_size
        then throw (os.other_error (bytes "short ep0 event read"))
        else known_event (event_try_from (byte_at buf event_type_offset))
