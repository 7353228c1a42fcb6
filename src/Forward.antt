-- ===== src/Forward.antt =====
-- src/forward.rs: a socket that a stream is relayed to.
pub mod Write
use muadib.Prelude.{
  ℕ, zero, suc, ◌^◌, Option, none, some, [], ◌∷◌, ◌++◌, length, drop, Result, ok, err, Outcome,
  done, panic, out_of_fuel, buffer_too_large, take, ltb, if◌then◌else◌, bytes,
}
use muadib.Prelude.Bytes.{Bytes}
use muadib.Prelude.Text.{parse_unsigned, strip_prefix}
use muadib.Interface.Os.{Os, Io, pure, throw, on_result, ◌>>=◌}

abbrev pub socket_read_buf_size : ℕ
socket_read_buf_size = 4096

pub record ForwardService (os : Os) : Type 0 where
  pub socket : os.Fd
  pub capacity : ℕ

module _ (os : Os) where
  -- The text of a `ParseIntError` is left out of the message.
  abbrev pub connect_port : Option ℕ → Io os.World os.Error os.Fd
  connect_port none = throw (os.other_error (bytes "invalid port: "))
  connect_port (some port) = os.tcp_connect (bytes "127.0.0.1") port

  -- The socket of `connect`, by the prefix of the destination.
  unfoldable pub connect_socket : Bytes → Io os.World os.Error os.Fd
  connect_socket destination = elim (strip_prefix (bytes "tcp:") destination) [
    | some port_str ↦ connect_port (parse_unsigned (2 ^ 16) port_str)
    | none ↦ elim (strip_prefix (bytes "localabstract:") destination) [
      | some name ↦ (do addr ← os.from_abstract_name name; os.connect_addr addr)
      | none ↦ elim (strip_prefix (bytes "localfilesystem:") destination) [
        | some path ↦ os.connect_path path
        | none ↦ throw (os.other_error (bytes "unsupported forward destination: " ++ destination))
      ]
    ]
  ]

  unfoldable pub connect : Bytes → Io os.World os.Error (ForwardService os)
  unfolding connect_socket strip_prefix parse_unsigned
  connect destination = do
    socket ← connect_socket destination
    pure (record { socket = socket; capacity = socket_read_buf_size })

  abbrev pub read_buf_capacity : ForwardService os → Outcome ℕ
  read_buf_capacity f = if ltb f.capacity (2 ^ 32) then done f.capacity else panic buffer_too_large

  -- On the bytes that the kernel wrote to the buffer.
  abbrev pub read_buf_data : ForwardService os → ℕ → Bytes → Bytes
  read_buf_data f len buffer = take len buffer

  abbrev pub as_raw_fd : ForwardService os → ℕ
  as_raw_fd f = os.as_raw_fd f.socket

  abbrev pub shutdown_write : ForwardService os → Io os.World os.Error (Unit {0})
  shutdown_write f = os.socket_shutdown_write f.socket

  -- `while written < data.len()`, on the bytes from `written` on
  unfoldable pub write_loop :
      ℕ → ForwardService os → Bytes → os.World → Outcome (Result os.Error (Unit {0}) × os.World)
  write_loop fuel f [] w = done (ok tt, w)
  write_loop zero f (b ∷ rest) w = panic out_of_fuel
  write_loop (suc fuel) f (b ∷ rest) w =
      on_result (os.socket_write f.socket (b ∷ rest) w)
        (λ n w'. write_loop fuel f (drop n (b ∷ rest)) w') (λ e w'. done (err e, w'))

  -- Each write takes a byte at least.
  unfoldable pub forward_write_input :
      ForwardService os → Bytes → os.World → Outcome (Result os.Error (Unit {0}) × os.World)
  unfolding write_loop
  forward_write_input f data' w = write_loop (length data') f data' w
