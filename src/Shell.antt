-- ===== src/Shell.antt =====
-- src/shell.rs: a shell on a pseudo-terminal.
use muadib.Prelude.{
  ℕ, ◌^◌, Option, none, some, List, [], ◌∷◌, bytes, take, ltb, if◌then◌else◌, Outcome, done, panic,
  buffer_too_large,
}
use muadib.Prelude.Bytes.{Bytes}
use muadib.Interface.Os.{Os, Io, rdwr, noctty, cloexec, pure, ◌>>=◌, ◌>>◌}

abbrev pub pty_read_buf_size : ℕ
pty_read_buf_size = 4096

-- The read buffer is memory of the kernel's to write: here is its capacity, and its content comes
-- with a completion.
pub record ShellService (os : Os) : Type 0 where
  pub master : os.Fd
  pub child : os.Child
  pub capacity : ℕ

abbrev pub shell_args : Option Bytes → List Bytes
shell_args none = []
shell_args (some c) = bytes "-c" ∷ c ∷ []

module _ (os : Os) where
  -- What the child does before it runs the shell: a session of its own, whose controlling terminal
  -- is its standard input, descriptor 0.
  unfoldable pub pre_exec : Io os.World os.Error (Unit {0})
  pre_exec = os.setsid >>= λ _. os.tiocsctty 0

  unfoldable pub spawn : Option Bytes → Io os.World os.Error (ShellService os)
  unfolding pre_exec
  spawn command = do
    master_fd ← os.openpt (rdwr ∷ noctty ∷ cloexec ∷ [])
    os.grantpt master_fd
    os.unlockpt master_fd
    slave_fd ← os.tiocgptpeer master_fd (rdwr ∷ noctty ∷ [])
    stdin ← os.try_clone slave_fd
    stdout ← os.try_clone slave_fd
    child ←
        os.spawn (bytes "/bin/sh") (shell_args command) (stdin ∷ stdout ∷ slave_fd ∷ []) pre_exec
    pure (record { master = master_fd; child = child; capacity = pty_read_buf_size })

  abbrev pub master_raw_fd : ShellService os → ℕ
  master_raw_fd s = os.as_raw_fd s.master

  abbrev pub read_buf_capacity : ShellService os → Outcome ℕ
  read_buf_capacity s = if ltb s.capacity (2 ^ 32) then done s.capacity else panic buffer_too_large

  -- On the bytes that the kernel wrote to the buffer.
  abbrev pub read_buf_data : ShellService os → ℕ → Bytes → Bytes
  read_buf_data s len buffer = take len buffer

  abbrev pub shell_write_input : ShellService os → Bytes → Io os.World os.Error (Unit {0})
  shell_write_input s data' = os.write_all s.master data'

  -- `Drop for ShellService`: both results are dropped.
  abbrev pub drop_shell : ShellService os → os.World → os.World
  drop_shell s w = (os.wait s.child (os.kill s.child w).1).1
