-- ===== src/Tests/Host.antt =====
-- A host whose world is one byte string, written at its end and read from its front, and whose
-- sockets take at most three bytes of a write; and a ring of 32 entries.
use muadib.Prelude.{
  ℕ, true, bytes, ◌≡◌, refl, [], ◌∷◌, ◌++◌, length, take, drop, min, length-take, Result, ok, err,
  not, ltb, ap, arith,
}
use muadib.Prelude.Bytes.{Bytes}
use muadib.Interface.Os.{Os, IsPosix, Io, pure, throw, pos}
use muadib.Interface.Ring.{Ring, IsRing32}

abbrev Call : Type 0 → Type 0
Call A = Io Bytes (Unit {0}) A

abbrev pub host : Os
host = record {
  World = Bytes;
  Error = Unit;
  Fd = Unit;
  Child = Unit;
  Addr = Unit;
  error_text = λ e. [];
  other_error = λ text. tt;
  symlink_metadata = λ path. pure (record { mode = 33188; size = 5; mtime = pos 7 });
  file_open = λ path. pure tt;
  file_create = λ path. pure tt;
  file_read = λ f n w. (ok (take n w), drop n w);
  write_all = λ f b w. (ok tt, w ++ b);
  set_permissions = λ f mode. pure tt;
  set_times = λ f t. pure tt;
  remove_file = λ path. pure tt;
  read = λ path. throw tt;
  read_to_string = λ path. pure (bytes "adb\n");
  create_dir_all = λ path. pure tt;
  write = λ path b w. (ok tt, w ++ b);
  exists = λ path. pure true;
  symlink = λ target link. pure tt;
  read_dir = λ path. pure (ok (bytes "dummy_udc.0") ∷ []);
  env_var = λ name. pure (bytes "3");
  from_raw_fd = λ n. tt;
  as_raw_fd = λ fd. 7;
  openpt = λ flags. pure tt;
  grantpt = λ f. pure tt;
  unlockpt = λ f. pure tt;
  tiocgptpeer = λ f flags. pure tt;
  try_clone = λ f. pure tt;
  spawn = λ name args fds setup. pure tt;
  setsid = pure 1;
  tiocsctty = λ n. pure tt;
  kill = λ c. pure tt;
  wait = λ c. pure tt;
  tcp_connect = λ h p. pure tt;
  from_abstract_name = λ n. pure tt;
  connect_addr = λ a. pure tt;
  connect_path = λ p. pure tt;
  socket_write = λ f b w. (ok (min 3 (length b)), w ++ take 3 b);
  fd_read = λ f n. pure [];
  socket_shutdown_write = λ f. pure tt;
}

append_nil : (xs : Bytes) → xs ++ [] ≡ xs
append_nil [] = refl
append_nil (x ∷ xs) = ap (λ (r : Bytes). x ∷ r) (append_nil xs)

append_assoc : (xs ys zs : Bytes) → xs ++ (ys ++ zs) ≡ (xs ++ ys) ++ zs
append_assoc [] ys zs = refl
append_assoc (x ∷ xs) ys zs = ap (λ (r : Bytes). x ∷ r) (append_assoc xs ys zs)

abbrev ok_value : {A : Type 0} → A → Result (Unit {0}) A × Bytes → A
ok_value a (ok b, w) = b
ok_value a (err e, w) = a

pub host-IsPosix : IsPosix host
host-IsPosix = record {
  write_all_nil = λ f w. ap (λ (x : Bytes). (ok tt, x)) (append_nil w);
  write_all_append = λ f a b w. ap (λ (x : Bytes). (ok tt, x)) (append_assoc w a b);
  file_read_bound = λ f n w w' data' e. omega (
    arith,
    length-take n w,
    ap (λ (r : Result (Unit {0}) Bytes × Bytes). length (ok_value [] r)) e,
  );
  socket_write_progress = λ f data' w w' n h e.
      let same : min 3 (length data') ≡ n =
        ap (λ (r : Result (Unit {0}) ℕ × Bytes). ok_value 0 r) e in
      (omega (arith, same), omega (arith, same));
}

abbrev pub ring32 : Ring
ring32 = record { is_full = λ q. not (ltb (length q) 32) }

pub ring32-IsRing32 : IsRing32 ring32
ring32-IsRing32 = record { has_room = λ q h. ground arith }
