-- ===== src/Startup/Bind.antt =====
-- Proofs about the command of src/main.rs that binds the gadget to a controller.
use muadib.Prelude.{◌≡◌, some, List, [], ◌∷◌, Result, ok, bytes}
use muadib.Prelude.Bytes.{Bytes}
use muadib.Interface.Winnow.{Winnow}
use muadib.Interface.Os.{Os}
use muadib.Interface.Files.{IsFileTree, udc_path}
use muadib.Interface.Ring.{Ring}
use muadib.Interface.Dmi.{Dmi}
use muadib.Startup.{MainEnd, returns, serves}

module _ (os : Os) (tree : IsFileTree os) where
  -- The empty text was written to the gadget's UDC, a listing of the controllers behind it began with
  -- an entry that could be read, and that entry's name was written and is what UDC holds.
  pub record NamesFirst (w w' : os.World) : Type 0 where
    pub emptied : os.World
    pub listed : os.World
    pub name : Bytes
    pub others : List (Result os.Error Bytes)
    pub writes_nothing : os.write udc_path [] w ≡ (ok tt, emptied)
    pub lists : os.read_dir (bytes "/sys/class/udc") emptied ≡ (ok (ok name ∷ others), listed)
    pub writes_name : os.write udc_path name listed ≡ (ok tt, w')
    pub named : tree.content w' udc_path ≡ some name

  abbrev result_of :
      Result os.Error (Unit {0}) × os.World → MainEnd os → Result os.Error (Unit {0}) × os.World
  result_of x (returns r world) = (r, world)
  result_of x (serves d) = x
