-- ===== src/Interface/Os.antt =====
-- The operating system, as the program sees it through `std` and `rustix`. A world is the state of
-- everything outside the daemon; each call may change it and may fail.
use muadib.Prelude.{ℕ, Bool, ◌≤◌, ◌<◌, ◌≡◌, refl, List, [], ◌++◌, length, Result, ok, err}
use muadib.Prelude.Bytes.{Bytes}

-- A time or an `i32`: `negsuc n` is -(n + 1).
pub data ℤ : Type 0 where
  pos : ℕ → ℤ
  negsuc : ℕ → ℤ

pub record Metadata : Type 0 where
  pub mode : ℕ
  pub size : ℕ
  pub mtime : ℤ

-- The flags of `rustix::pty::OpenptFlags` that the program gives.
pub data OpenptFlag : Type 0 where
  rdwr noctty cloexec : OpenptFlag

abbrev pub Io : Type 0 → Type 0 → Type 0 → Type 0
Io W E A = W → Result E A × W

module _ {W E A B : Type 0} where
  abbrev pub after : Result E A × W → (A → Io W E B) → Result E B × W
  after (ok a, w) f = f a w
  after (err e, w) f = (err e, w)

  infixl 5 ◌>>=◌
  -- Rust's `?`
  abbrev pub ◌>>=◌ : Io W E A → (A → Io W E B) → Io W E B
  ◌>>=◌ m f w = after (m w) f

module _ {W E B : Type 0} where
  infixl 5 ◌>>◌
  abbrev pub ◌>>◌ : Io W E (Unit {0}) → Io W E B → Io W E B
  m >> k = m >>= λ _. k

abbrev pub pure : {W E A : Type 0} → A → Io W E A
pure a w = (ok a, w)

abbrev pub throw : {W E A : Type 0} → E → Io W E A
throw e w = (err e, w)

pub record Os : Type 1 where
  pub World : Type 0
  pub Error : Type 0
  pub Fd : Type 0
  pub Child : Type 0
  pub Addr : Type 0
  -- `Display` of an error, and `io::Error::other` of a text
  pub error_text : Error → Bytes
  pub other_error : Bytes → Error
  -- std::fs; a mode or an mtime is a number
  pub symlink_metadata : Bytes → Io World Error Metadata
  pub file_open : Bytes → Io World Error Fd
  pub file_create : Bytes → Io World Error Fd
  pub file_read : Fd → ℕ → Io World Error Bytes
  pub write_all : Fd → Bytes → Io World Error (Unit {0})
  pub set_permissions : Fd → ℕ → Io World Error (Unit {0})
  pub set_times : Fd → ℕ → Io World Error (Unit {0})
  pub remove_file : Bytes → Io World Error (Unit {0})
  pub read : Bytes → Io World Error Bytes
  pub read_to_string : Bytes → Io World Error Bytes
  pub create_dir_all : Bytes → Io World Error (Unit {0})
  pub write : Bytes → Bytes → Io World Error (Unit {0})
  pub exists : Bytes → Io World Error Bool
  pub symlink : Bytes → Bytes → Io World Error (Unit {0})
  -- the names of a directory's entries, or the error that the iterator gives for one
  pub read_dir : Bytes → Io World Error (List (Result Error Bytes))
  -- std::env, and a descriptor by its number
  pub env_var : Bytes → Io World Error Bytes
  pub from_raw_fd : ℕ → Fd
  pub as_raw_fd : Fd → ℕ
  -- rustix::pty and std::process
  pub openpt : List OpenptFlag → Io World Error Fd
  pub grantpt : Fd → Io World Error (Unit {0})
  pub unlockpt : Fd → Io World Error (Unit {0})
  pub tiocgptpeer : Fd → List OpenptFlag → Io World Error Fd
  pub try_clone : Fd → Io World Error Fd
  -- the program, its arguments and its standard streams, and what the child does before `exec`
  pub spawn : Bytes → List Bytes → List Fd → Io World Error (Unit {0}) → Io World Error Child
  -- rustix::process; a descriptor by its number
  pub setsid : Io World Error ℕ
  pub tiocsctty : ℕ → Io World Error (Unit {0})
  pub kill : Child → Io World Error (Unit {0})
  pub wait : Child → Io World Error (Unit {0})
  -- sockets
  pub tcp_connect : Bytes → ℕ → Io World Error Fd
  pub from_abstract_name : Bytes → Io World Error Addr
  pub connect_addr : Addr → Io World Error Fd
  pub connect_path : Bytes → Io World Error Fd
  pub socket_write : Fd → Bytes → Io World Error ℕ
  pub fd_read : Fd → ℕ → Io World Error Bytes
  pub socket_shutdown_write : Fd → Io World Error (Unit {0})

-- What the program relies on: a file is written in order, and a read fills at most the buffer.
pub record IsPosix (os : Os) : Type 0 where
  pub write_all_nil : (f : os.Fd) (w : os.World) → os.write_all f [] w ≡ (ok tt, w)
  pub write_all_append :
      (f : os.Fd) (a b : Bytes) (w : os.World)
      → os.write_all f (a ++ b) w ≡ after (os.write_all f a w) (λ _. os.write_all f b)
  pub file_read_bound :
      (f : os.Fd) (n : ℕ) (w w' : os.World) (data' : Bytes)
      → os.file_read f n w ≡ (ok data', w')
      → length data' ≤ n
  -- a write to a socket takes a byte of a buffer that is not empty, and no more than it holds
  pub socket_write_progress :
      (f : os.Fd) (data' : Bytes) (w w' : os.World) (n : ℕ)
      → 0 < length data'
      → os.socket_write f data' w ≡ (ok n, w')
      → (1 ≤ n) × (n ≤ length data')

-- `match call() { Ok(a) => …, Err(e) => … }`, with the world that the call leaves.
abbrev pub on_result {ℓ} :
    {W E A : Type 0} {R : Type ℓ} → Result E A × W → (A → W → R) → (E → W → R) → R
on_result (ok a, w) good bad = good a w
on_result (err e, w) good bad = bad e w

-- To prove something of both outcomes of a call.
pub on_result_elim {ℓ κ} :
    {W E A : Type 0} {R : Type ℓ} (P : R → Type κ) (x : Result E A × W) {good : A → W → R}
    → {bad : E → W → R} → ((a : A) (w : W) → x ≡ (ok a, w) → P (good a w))
    → ((e : E) (w : W) → x ≡ (err e, w) → P (bad e w))
    → P (on_result x good bad)
on_result_elim P (ok a, w) pg pb = pg a w refl
on_result_elim P (err e, w) pg pb = pb e w refl

pub on_result_cong {ℓ κ} :
    {W E A : Type 0} {R : Type ℓ} {S : Type κ} (h : R → S) (x : Result E A × W)
    → {good good' : A → W → R} {bad bad' : E → W → R}
    → ((a : A) (w : W) → h (good a w) ≡ h (good' a w))
    → ((e : E) (w : W) → h (bad e w) ≡ h (bad' e w))
    → h (on_result x good bad) ≡ h (on_result x good' bad')
on_result_cong h (ok a, w) pg pb = pg a w
on_result_cong h (err e, w) pg pb = pb e w

pub on_result_rel {ℓ κ} :
    {W E A : Type 0} {R : Type ℓ} (P : R → R → Type κ) (x : Result E A × W) {good good' : A → W → R}
    → {bad bad' : E → W → R} → ((a : A) (w : W) → P (good a w) (good' a w))
    → ((e : E) (w : W) → P (bad e w) (bad' e w))
    → P (on_result x good bad) (on_result x good' bad')
on_result_rel P (ok a, w) pg pb = pg a w
on_result_rel P (err e, w) pg pb = pb e w

-- A call that fails or gives a value of some kind.
abbrev pub Gives : {W E A : Type 0} → (A → Type 0) → Result E A × W → Type 0
Gives P (ok a, w) = P a
Gives P (err e, w) = Unit

pub after-Gives :
    {W E A B : Type 0} (P : B → Type 0) (x : Result E A × W) (f : A → Io W E B)
    → ((a : A) (w : W) → Gives P (f a w))
    → Gives P (after x f)
after-Gives P (ok a, w) f h = h a w
after-Gives P (err e, w) f h = tt
