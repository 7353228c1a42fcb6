-- ===== src/Conn/Flight/Panics.antt =====
-- Proofs about `run` in src/main.rs: the panics that a run cannot end in.
use muadib.Prelude.{◌≡◌, List, ◌∷◌, ◌++◌, Panic, panic, is_own, is_lack, false, ◌+◌, ◌≤◌, length}
use mathlib.Core.Path.{subst}
use muadib.Prelude.Bytes.{Bytes}
use muadib.Interface.Winnow.{Winnow}
use muadib.Interface.Os.{Os, IsPosix, ℤ}
use muadib.Interface.Ring.{Ring, IsRing32, Sqe}
use muadib.Message.{DeviceInfo}
use muadib.Buffers.Slots.{count_free}
use muadib.Conn.Events
use muadib.Conn.Events.{Session}
use muadib.Conn.Flight.{IsSound, FlowHolds, Blamed}
use muadib.Conn.Flight.Handled.{HasRoom}
use muadib.Conn.Flight.Completed.{on_cqe-Holds}
use muadib.Conn.Flight.Reach.{Reach, HadRoom, Reach-IsSound, cqe_of}

module _ (w : Winnow) (ring : Ring) (os : Os) (ep0 : os.Fd) (info : DeviceInfo) where
  Reach-Blamed :
      (a b : List Sqe) (e : Sqe) (res : ℤ) (buffer : Bytes) (s : Session os) (why : Panic)
      (r : Reach w ring os ep0 info (record { flight = a ++ (e ∷ b); session = s }))
      → HadRoom w ring os ep0 info r
      → HasRoom s.conn
      → Events.on_cqe w ring os ep0 info (cqe_of e res buffer) s ≡ panic why
      → Blamed ring 4 s.conn why
  Reach-Blamed a b e res buffer s why r room here h =
      subst (FlowHolds ring 4 s.conn (IsSound (a ++ b))) h (
        on_cqe-Holds w ring os ep0 info a b e res buffer s here
          (Reach-IsSound w ring os ep0 info r room))

  -- From every state that the loop can reach before the ids of streams run out, over sockets that
  -- take a byte of every write, the completion of any entry in flight, with any result and any
  -- bytes read, ends in no panic of the daemon's own: no id is 0, no slot is out of range, a stream
  -- just opened is there, a read buffer's capacity is a `u32`, every read and every write has its
  -- id, and no loop runs out of fuel.
  pub Reach-no_own_panic :
      (a b : List Sqe) (e : Sqe) (res : ℤ) (buffer : Bytes) (s : Session os) (why : Panic)
      (r : Reach w ring os ep0 info (record { flight = a ++ (e ∷ b); session = s }))
      → IsPosix os
      → HadRoom w ring os ep0 info r
      → HasRoom s.conn
      → Events.on_cqe w ring os ep0 info (cqe_of e res buffer) s ≡ panic why
      → is_own why ≡ false
  Reach-no_own_panic a b e res buffer s why r posix room here h =
      (Reach-Blamed a b e res buffer s why r room here h posix).0

  -- From every state that the loop can reach before the ids of streams run out, over sockets that
  -- take a byte of every write and with a ring of 32 entries: with four free slots of the pool and
  -- four free entries of the queue, the completion of any entry in flight, with any result and any
  -- bytes read, does not panic for want of a slot or of an entry.
  pub Reach-no_lack :
      (a b : List Sqe) (e : Sqe) (res : ℤ) (buffer : Bytes) (s : Session os) (why : Panic)
      (r : Reach w ring os ep0 info (record { flight = a ++ (e ∷ b); session = s }))
      → IsPosix os
      → IsRing32 ring
      → HadRoom w ring os ep0 info r
      → HasRoom s.conn
      → 4 ≤ count_free s.conn.buffers.slots
      → length s.conn.queue + 4 ≤ 32
      → Events.on_cqe w ring os ep0 info (cqe_of e res buffer) s ≡ panic why
      → is_lack why ≡ false
  Reach-no_lack a b e res buffer s why r posix ring32 room here slots short h =
      (Reach-Blamed a b e res buffer s why r room here h posix).1 ring32 (slots, short)
