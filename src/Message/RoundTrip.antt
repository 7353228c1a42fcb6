-- ===== src/Message/RoundTrip.antt =====
-- Proofs about src/message.rs: `parse_header` on the bytes of a header.
use muadib.Prelude.{ℕ, ◌≡◌, refl, ◌∙◌, some, ◌++◌, arith, ok}
use muadib.Prelude.Bytes.{Bytes, IsU32, u32_bytes, from_le_bytes-u32_bytes}
use muadib.Interface.Winnow
use muadib.Interface.Winnow.{Winnow, Parser}
use muadib.Message.{
  Command, cnxn, auth, opens, okay, clse, wrte, stls, command_try_from, command_to_u32, inverse,
  AdbHeader, header_bytes, check_magic, parse_command, parse_header,
}

-- A command is read back from the number that stands for it.
pub command_try_from-to_u32 : (c : Command) → command_try_from (command_to_u32 c) ≡ ok c
unfolding command_try_from
command_try_from-to_u32 cnxn = refl
command_try_from-to_u32 auth = refl
command_try_from-to_u32 opens = refl
command_try_from-to_u32 okay = refl
command_try_from-to_u32 clse = refl
command_try_from-to_u32 wrte = refl
command_try_from-to_u32 stls = refl

-- Only its own number is read as a command.
pub command_try_from-eq_ok :
    (v : ℕ) (c : Command) → command_try_from v ≡ ok c → v ≡ command_to_u32 c
unfolding command_try_from
command_try_from-eq_ok v c h = ground arith

command_to_u32-IsU32 : (c : Command) → IsU32 (command_to_u32 c)
command_to_u32-IsU32 cnxn = omega arith
command_to_u32-IsU32 auth = omega arith
command_to_u32-IsU32 opens = omega arith
command_to_u32-IsU32 okay = omega arith
command_to_u32-IsU32 clse = omega arith
command_to_u32-IsU32 wrte = omega arith
command_to_u32-IsU32 stls = omega arith

inverse-IsU32 : (c : Command) → IsU32 (inverse (command_to_u32 c))
inverse-IsU32 cnxn = omega arith
inverse-IsU32 auth = omega arith
inverse-IsU32 opens = omega arith
inverse-IsU32 okay = omega arith
inverse-IsU32 clse = omega arith
inverse-IsU32 wrte = omega arith
inverse-IsU32 stls = omega arith

-- A header that the wire can carry: its numbers are `u32`s and its magic is the inverted command.
pub record IsWire (h : AdbHeader) : Type 0 where
  pub arg0 : IsU32 h.arg0
  pub arg1 : IsU32 h.arg1
  pub data_length : IsU32 h.data_length
  pub data_check : IsU32 h.data_check
  pub magic : h.magic ≡ inverse (command_to_u32 h.command)

module _ (w : Winnow) (doc : Winnow.IsDocumented w) where
  pub le_u32-u32_bytes :
      (v : ℕ) (rest : Bytes) → IsU32 v → w.le_u32 (u32_bytes v ++ rest) ≡ some (v, rest)
  le_u32-u32_bytes v rest h = doc.le_u32_ok _ _ _ _ rest ∙ rw (from_le_bytes-u32_bytes v h)

  parse_command-u32_bytes :
      (c : Command) (rest : Bytes)
      → parse_command w (u32_bytes (command_to_u32 c) ++ rest) ≡ some (c, rest)
  parse_command-u32_bytes c rest =
      doc.verify_map_lem w.le_u32 _ _
      ∙ rw (
        le_u32-u32_bytes (command_to_u32 c) rest (command_to_u32-IsU32 c),
        command_try_from-to_u32 c,
      )

  check_magic_lem :
      (h : AdbHeader)
      → IsWire h
      → check_magic (h.command, h.arg0, h.arg1, h.data_length, h.data_check, h.magic) ≡ some h
  check_magic_lem h v = rw v.magic (ground arith)

  seq_six_ok :
      {A B : Type 0} (p : Parser A) (q : Parser B) {a : A} {b c d e f : B}
      → {i i0 i1 i2 i3 i4 i5 : Bytes} → p i ≡ some (a, i0)
      → q i0 ≡ some (b, i1)
      → q i1 ≡ some (c, i2)
      → q i2 ≡ some (d, i3)
      → q i3 ≡ some (e, i4)
      → q i4 ≡ some (f, i5)
      → w.seq_six p q q q q q i ≡ some ((a, b, c, d, e, f), i5)
  seq_six_ok p q {i} e0 e1 e2 e3 e4 e5 = doc.seq_six_lem p q q q q q i ∙ rw (e0, e1, e2, e3, e4, e5)

  -- With parsers that do what winnow documents, the bytes of a header whose words fit and whose
  -- magic is the command's parse back to that header and leave what follows.
  pub parse_header-header_bytes :
      (h : AdbHeader) (rest : Bytes)
      → IsWire h
      → parse_header w (header_bytes h ++ rest) ≡ some (h, rest)
  unfolding parse_header header_bytes
  parse_header-header_bytes h rest v =
      doc.verify_map_lem _ check_magic _
      ∙ rw
          (seq_six_ok (parse_command w) w.le_u32 (parse_command-u32_bytes h.command _)
            (le_u32-u32_bytes h.arg0 _ v.arg0) (le_u32-u32_bytes h.arg1 _ v.arg1)
            (le_u32-u32_bytes h.data_length _ v.data_length)
            (le_u32-u32_bytes h.data_check _ v.data_check)
            (le_u32-u32_bytes h.magic rest (rw v.magic (inverse-IsU32 h.command))))
          (rw (check_magic_lem h v))
