-- ===== src/Conn/Sends.antt =====
-- Proofs about `submit_message` of src/main.rs: what it puts on the queue.
use muadib.Prelude.{
  ℕ, ◌+◌, ◌*◌, ◌^◌, ◌≤◌, ◌<◌, ◌≡◌, refl, true, false, some, List, [], ◌∷◌, ◌++◌, length,
  length-append, is_empty, ◌∙◌, ap, inl, inr, done, arith, Bool,
}
use muadib.Prelude.Bytes.{Bytes}
use muadib.Interface.Os.{Os}
use muadib.Interface.Ring.{Ring, IsRing32, Sqe, bulk_in, write}
use muadib.Message.{AdbHeader, header_bytes}
use muadib.Buffers.Slots.{count_free, IsAllocated, alloc_with_cases}
use muadib.UserData.{user_data_to_u64}
use muadib.Conn.Entries.{non_zero_of}
use muadib.Conn.{Conn, push, write_sqe, submit_write, submit_message}

-- The bytes sit in a slot of their own, and the write of that slot is the last entry of the queue,
-- with operation 4 and the slot's number in its user data, and the flag that links it or not.
pub record IsQueued {os : Os} (c : Conn os) (content : Bytes) (linked : Bool) (slot : ℕ)
    (c' : Conn os) : Type 0 where
  pub allocated : IsAllocated c.buffers content slot c'.buffers
  pub queued :
      c'.queue
      ≡ c.queue
        ++ (record { op = write bulk_in content; user_data = 4 * 2 ^ 32 + slot; io_link = linked }
            ∷ [])
  pub same_streams : c'.streams ≡ c.streams
  pub same_world : c'.world ≡ c.world
  pub same_version : c'.version ≡ c.version

module _ (ring : Ring) {os : Os} where
  submit_write-IsQueued :
      (content : Bytes) (linked : Bool) (c : Conn os)
      → IsRing32 ring
      → 1 ≤ count_free c.buffers.slots
      → length c.queue < 32
      → (slot : ℕ) × (c' : Conn os) × (submit_write ring content linked c ≡ done c')
        × IsQueued c content linked slot c'
  unfolding submit_write push user_data_to_u64
  submit_write-IsQueued content linked c r room short = elim (alloc_with_cases c.buffers content) [
    | inl (e, _) ↦ absurd (omega (arith, e))
    | inr (slot, m, e, a) ↦ (
      slot,
      record c { buffers = m; queue = c.queue ++ (write_sqe content (some slot) linked ∷ []) },
      rw (e, non_zero_of slot a.positive, r.has_room c.queue short) refl,
      record {
        allocated = a;
        queued = refl;
        same_streams = refl;
        same_world = refl;
        same_version = refl;
      },
    )
  ]

  -- With two free slots and room for two entries in a ring of 32, a message with a payload is sent:
  -- the write of its header's bytes is queued with the flag that links it to the write of the payload,
  -- which is queued behind it without, each to the bulk endpoint towards the host, from a slot of its
  -- own and under its number; streams, world and version stay as they were.
  pub submit_message-IsQueued :
      (h : AdbHeader) (payload : Bytes) (c : Conn os)
      → IsRing32 ring
      → is_empty payload ≡ false
      → 2 ≤ count_free c.buffers.slots
      → length c.queue + 1 < 32
      → (i : ℕ) × (j : ℕ) × (d : Conn os) × (e : Conn os) × (submit_message ring h (some payload) c
          ≡ done e)
        × IsQueued c (header_bytes h) true i d
        × IsQueued d payload false j e
  unfolding submit_message
  submit_message-IsQueued h payload c r filled room short =
      let (i, d, first, q) =
        submit_write-IsQueued (header_bytes h) true c r (omega arith) (omega arith) in
      let longer : length d.queue ≡ length c.queue + 1 =
        ap (λ (x : List Sqe). length x) q.queued ∙ length-append c.queue _ in
      let (j, e, second, p) =
        submit_write-IsQueued payload false d r (omega (arith, q.allocated.one_fewer))
          (omega (arith, longer)) in
      (i, j, d, e, rw (filled, first, second) refl, q, p)
