-- ===== src/Tests/Disk.antt =====
-- A host whose world is a disk of files, directories and links, the newest first; it has no sockets,
-- and its control endpoint gives no event. A write of no byte does nothing, as in ConfigFS.
use muadib.Prelude.{
  ℕ, Bool, true, false, ◌&&◌, ◌||◌, Option, none, some, List, [], ◌∷◌, Result, ok, err, bytes,
  is_empty, if◌then◌else◌,
}
use muadib.Prelude.Bytes.{Bytes}
use muadib.Prelude.Text.{bytes_eq}
use muadib.Interface.Os.{Os, pure, throw}
use muadib.Interface.Dmi.{Dmi, system}
use muadib.Interface.Files.{is_one_of, udc_path}

abbrev pub Files : Type 0
Files = List (Bytes × Bytes)

abbrev pub content_of : Files → Bytes → Option Bytes
content_of [] q = none
content_of ((p, b) ∷ files) q = if bytes_eq q p then some b else content_of files q

abbrev pub read_of : Option Bytes → Result (Unit {0}) Bytes
read_of none = err tt
read_of (some b) = ok b

abbrev pub filled_at : Option Bytes → Bool
filled_at none = false
filled_at (some []) = false
filled_at (some (b ∷ bs)) = true

pub record Disk : Type 0 where
  pub files : Files
  pub dirs : List Bytes
  pub links : Files

abbrev pub is_some : Option Bytes → Bool
is_some none = false
is_some (some b) = true

abbrev pub is_there : Disk → Bytes → Bool
is_there w q = is_some (content_of w.links q) || is_one_of q w.dirs

-- A name that is written to a bound gadget is refused.
abbrev pub is_busy : Bytes → Disk → Bool
is_busy p w = bytes_eq p udc_path && filled_at (content_of w.files udc_path)

abbrev pub Wrote : Type 0
Wrote = Result (Unit {0}) (Unit {0}) × Disk

abbrev pub write_file : Bytes → Bytes → Disk → Wrote
write_file p b w =
    if is_empty b
    then (ok tt, w)
    else if is_busy p w
    then (err tt, w)
    else (ok tt, record w { files = (p, b) ∷ w.files })

abbrev pub make_link : Bytes → Bytes → Disk → Wrote
make_link target link w =
    if is_there w link then (err tt, w) else (ok tt, record w { links = (link, target) ∷ w.links })

abbrev pub disk : Os
disk = record {
  World = Disk;
  Error = Unit;
  Fd = ℕ;
  Child = Unit;
  Addr = Unit;
  error_text = λ e. [];
  other_error = λ text. tt;
  symlink_metadata = λ path. throw tt;
  file_open = λ path. throw tt;
  file_create = λ path. throw tt;
  file_read = λ f n. throw tt;
  write_all = λ f b. throw tt;
  set_permissions = λ f mode. throw tt;
  set_times = λ f t. throw tt;
  remove_file = λ path. throw tt;
  read = λ path w. (read_of (content_of w.files path), w);
  read_to_string = λ path w. (read_of (content_of w.files path), w);
  create_dir_all = λ path w. (ok tt, record w { dirs = path ∷ w.dirs });
  write = write_file;
  exists = λ path w. (ok (is_there w path), w);
  symlink = make_link;
  read_dir = λ path. pure (ok (bytes "dummy_udc.0") ∷ []);
  env_var = λ name. pure (bytes "3");
  from_raw_fd = λ n. n;
  as_raw_fd = λ n. n;
  openpt = λ flags. throw tt;
  grantpt = λ f. throw tt;
  unlockpt = λ f. throw tt;
  tiocgptpeer = λ f flags. throw tt;
  try_clone = λ f. throw tt;
  spawn = λ name args fds setup. throw tt;
  setsid = throw tt;
  tiocsctty = λ n. throw tt;
  kill = λ c. throw tt;
  wait = λ c. throw tt;
  tcp_connect = λ h p. throw tt;
  from_abstract_name = λ n. throw tt;
  connect_addr = λ a. throw tt;
  connect_path = λ p. throw tt;
  socket_write = λ f b. throw tt;
  fd_read = λ f n. throw tt;
  socket_shutdown_write = λ f. throw tt;
}

-- A DMI table with one system structure, without a serial number.
abbrev pub board : Dmi
board = record {
  EntryPoint = Unit;
  search = λ b. some tt;
  structures = λ e b. some (system (bytes "Board") []) ∷ [];
}
