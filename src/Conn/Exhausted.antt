-- ===== src/Conn/Exhausted.antt =====
-- Proofs about src/main.rs with src/buffers.rs: messages that come while no slot of the pool is free.
use muadib.Prelude.{
  ℕ, ◌≡◌, refl, Option, none, some, [], if_elim, ◌⊎◌, inl, inr, done, panic, false, slots_in_use,
  Outcome, arith,
}
use muadib.Prelude.Bytes.{Bytes}
use muadib.Prelude.Text.{until_nul, is_utf8}
use muadib.Interface.Winnow.{Winnow}
use muadib.Interface.Os.{Os}
use muadib.Interface.Ring.{Ring}
use muadib.Message.{
  ProtocolVersion, Command, opens, okay, clse, wrte, AdbHeader, header_bytes, header_from_payload,
  DeviceInfo,
}
use muadib.Buffers.Slots.{count_free, alloc_with_cases}
use muadib.Stream.{StreamManager, opens_stream}
use muadib.Conn.{Conn, submit_write, submit_message}
use muadib.Conn.Handlers
use muadib.Conn.Commands

-- A header without a payload can always be made.
bare_header :
    (v : ProtocolVersion) (command : Command) (a b : ℕ)
    → (h : AdbHeader) × (header_from_payload v command a b [] ≡ done h)
unfolding header_from_payload
bare_header v command a b = (_, refl)

module _ (w : Winnow) (ring : Ring) {os : Os} where
  abbrev IsExhausted : Conn os → Type 0
  IsExhausted c = count_free c.buffers.slots ≡ 0

  submit_write-exhausted :
      (content : Bytes) (c : Conn os)
      → IsExhausted c
      → submit_write ring content false c ≡ panic slots_in_use
  unfolding submit_write
  submit_write-exhausted content c full = elim (alloc_with_cases c.buffers content) [
    | inl (_, e) ↦ rw e refl
    | inr (slot, m, e, a) ↦ absurd (omega (arith, full, a.one_fewer))
  ]

  submit_bare-exhausted :
      (h : AdbHeader) (c : Conn os)
      → IsExhausted c
      → submit_message ring h none c ≡ panic slots_in_use
  unfolding submit_message
  submit_bare-exhausted h c full = submit_write-exhausted (header_bytes h) c full

  submit_clse-exhausted :
      (k r : ℕ) (c : Conn os) → IsExhausted c → Handlers.submit_clse ring k r c ≡ panic slots_in_use
  unfolding Handlers.submit_clse
  submit_clse-exhausted k r c full =
      let (h, made) = bare_header c.version clse k r in rw made (submit_bare-exhausted h c full)

  submit_okay-exhausted :
      (k r : ℕ) (c : Conn os)
      → IsExhausted c
      → Commands.submit_okay w ring k r c ≡ panic slots_in_use
  unfolding Commands.submit_okay
  submit_okay-exhausted k r c full =
      let (h, made) = bare_header c.version okay k r in rw made (submit_bare-exhausted h c full)

  after_open-exhausted :
      (r : ℕ) (c : Conn os) (opened : Option ℕ × StreamManager os × os.World)
      → IsExhausted c
      → Commands.after_open w ring r c opened ≡ panic slots_in_use
  unfolding Commands.after_open
  after_open-exhausted r c (some k, m, world) full =
      rw (submit_okay-exhausted k r (record c { streams = m; world = world }) full) refl
  after_open-exhausted r c (none, m, world) full =
      submit_clse-exhausted 0 r (record c { streams = m; world = world }) full

  open_service-exhausted :
      (o : Option Bytes) (r : ℕ) (c : Conn os)
      → IsExhausted c
      → Commands.open_service w ring o r c ≡ panic slots_in_use
  unfolding Commands.open_service
  open_service-exhausted none r c full = submit_clse-exhausted 0 r c full
  open_service-exhausted (some name) r c full =
      if_elim (λ (m : Outcome (Conn os)). m ≡ panic slots_in_use) (is_utf8 name)
        (λ _. after_open-exhausted r c (opens_stream os c.streams r name c.world) full)
        (λ _. submit_clse-exhausted 0 r c full)

  dispatch-exhausted :
      (command : Command) (info : DeviceInfo) (h : AdbHeader) (p : Bytes) (c : Conn os)
      → (command ≡ wrte) ⊎ (command ≡ opens)
      → IsExhausted c
      → Commands.dispatch w ring command info h (some p) c ≡ panic slots_in_use
  unfolding Commands.dispatch Commands.handle_command_wrte Commands.handle_command_open
  dispatch-exhausted command info h p c (inl e) full =
      rw (e, submit_okay-exhausted h.arg1 h.arg0 c full) refl
  dispatch-exhausted command info h p c (inr e) full =
      rw e (open_service-exhausted (until_nul p) h.arg0 c full)

  -- While no slot of the pool is free, every WRTE and every OPEN with a payload panics for want of
  -- a slot, whatever its stream, its service and its payload.
  pub handle_command-exhausted :
      (info : DeviceInfo) (h : AdbHeader) (p : Bytes) (c : Conn os)
      → (h.command ≡ wrte) ⊎ (h.command ≡ opens)
      → count_free c.buffers.slots ≡ 0
      → Commands.handle_command w ring info h (some p) c ≡ panic slots_in_use
  unfolding Commands.handle_command
  handle_command-exhausted info h p c e full = dispatch-exhausted h.command info h p c e full
