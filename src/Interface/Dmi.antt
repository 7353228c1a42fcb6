-- ===== src/Interface/Dmi.antt =====
-- The `dmidecode` crate, as device_info.rs calls it: the entry point of the SMBIOS tables, and the
-- structures that it finds in them.
use muadib.Prelude.{Option, List}
use muadib.Prelude.Bytes.{Bytes}

-- A structure of the system, with its product name and serial, or another one.
pub data Structure : Type 0 where
  system : Bytes → Bytes → Structure
  other_structure : Structure

pub record Dmi : Type 1 where
  pub EntryPoint : Type 0
  pub search : Bytes → Option EntryPoint
  -- a structure that does not parse is `none`
  pub structures : EntryPoint → Bytes → List (Option Structure)
