-- ===== src/Conn/Flight.antt =====
-- Proofs about src/main.rs: what the entries in flight and in the queue say of the pool and of the
-- message that is awaited.
pub mod Handled
pub mod Completed
pub mod Reach
pub mod Panics
use muadib.Prelude.{
  ℕ, ◌≡◌, refl, ◌∙◌, ap, Bool, true, false, Option, none, some, List, [], ◌∷◌, ◌++◌, if_elim, ltb,
  Outcome, done, panic, ◌>>=◌, ok, ◌+◌, ◌^◌, ◌<◌, sym, is_own, is_lack, Panic, arith, ◌≤◌,
}
use mathlib.Core.List.{append_assoc}
use muadib.Prelude.Bytes.{Bytes}
use muadib.Interface.Winnow.{Winnow}
use muadib.Interface.Os.{Os, IsPosix}
use muadib.Interface.Ring.{Ring, IsRing32, Sqe}
use muadib.Message.{AdbHeader, DeviceInfo}
use muadib.Buffers.Slots.{IsPool}
use muadib.Stream.Ids.{IsTable}
use muadib.Stream.Fit.{IsFit}
use muadib.UserData.{OpType, bulk_out_read_header, bulk_out_read_payload}
use muadib.Conn.{Conn, push, submit_bulk_out_read}
use muadib.Conn.Events
use muadib.Conn.Events.{Session, Flow, goes, ends_ok, ends_err}
use muadib.Conn.Entries.{
  collect, collect-append, collect-snoc, collect-snoc_some, lacks_of, lacks_of-Names, lacking,
  read_of, read_of-Names, read_kind, slot_of, Owned,
}
use muadib.Conn.Owned.{Owned-push}
use muadib.Conn.Tidy.{Tidy}
use muadib.Conn.Keeps.{Keeps, RoomFor, queue_has_room}

-- The kind of read that a session waits for.
abbrev pub awaited : Option AdbHeader → OpType
awaited none = bulk_out_read_header
awaited (some h) = bulk_out_read_payload

module _ {os : Os} where
  -- With the entries in flight: the pool and the table are well formed, the slots in use are those
  -- of the writes in flight or queued, and the reads of messages in flight or queued are `asked`.
  pub record IsReady (flight : List Sqe) (asked : List OpType) (c : Conn os) : Type 0 where
    pub pool : IsPool c.buffers
    pub table : IsTable os c.streams
    pub owned : Owned (flight ++ c.queue) c.buffers
    pub reads : collect read_of (flight ++ c.queue) ≡ asked
    pub named : collect lacks_of (flight ++ c.queue) ≡ []
    pub fit : IsFit os c.streams

  -- What a panic is not, of a computation from a good state that takes room for `n` writes.
  abbrev pub Blamed : Ring → ℕ → Conn os → Panic → Type 0
  Blamed ring n c why =
      IsPosix os → (is_own why ≡ false) × (IsRing32 ring → RoomFor ring n c → is_lack why ≡ false)

  abbrev pub Holds : Ring → ℕ → Conn os → (Conn os → Type 0) → Outcome (Conn os) → Type 0
  Holds ring n c P (done d) = P d
  Holds ring n c P (panic why) = Blamed ring n c why

  abbrev pub IsSound : List Sqe → Session os → Type 0
  IsSound flight s = IsReady flight (awaited s.pending_header ∷ []) s.conn

  abbrev pub FlowHolds : Ring → ℕ → Conn os → (Session os → Type 0) → Outcome (Flow os) → Type 0
  FlowHolds ring n c P (done (goes s)) = P s
  FlowHolds ring n c P (done (ends_ok d)) = Unit
  FlowHolds ring n c P (done (ends_err d)) = Unit
  FlowHolds ring n c P (panic why) = Blamed ring n c why

  pub Keeps-IsReady :
      (ring : Ring) (n : ℕ) (flight : List Sqe) (asked : List OpType) (c : Conn os)
      (m : Outcome (Conn os))
      → IsReady flight asked c
      → Keeps ring n c m
      → Holds ring n c (IsReady flight asked) m
  Keeps-IsReady ring n flight asked c (done d) r k = record {
    pool = k.pool r.pool;
    table = k.table r.table;
    owned = k.owned r.pool r.table flight r.owned;
    reads =
        collect-append read_of flight d.queue
        ∙ ap (λ (l : List OpType). collect read_of flight ++ l) (k.asks r.pool r.table)
        ∙ sym (collect-append read_of flight c.queue)
        ∙ r.reads;
    named =
        collect-append lacks_of flight d.queue
        ∙ ap (λ (l : List OpType). collect lacks_of flight ++ l) (k.named r.pool r.table)
        ∙ sym (collect-append lacks_of flight c.queue)
        ∙ r.named;
    fit = k.fits r.fit;
  }
  Keeps-IsReady ring n flight asked c (panic why) r k = λ posix. k posix r.table r.fit

  pub Holds-more :
      (ring : Ring) (n k : ℕ) (c : Conn os) (P : Conn os → Type 0) (m : Outcome (Conn os))
      → n ≤ k
      → Holds ring n c P m
      → Holds ring k c P m
  Holds-more ring n k c P (done d) le h = h
  Holds-more ring n k c P (panic why) le h = λ posix.
      let (own, lack) = h posix in
      (own, λ r room. lack r (omega (arith, le, room.0), omega (arith, le, room.1)))

  Holds-after :
      (ring : Ring) (n k : ℕ) (c d : Conn os) (P : Conn os → Type 0) (m : Outcome (Conn os))
      → Tidy n c d
      → Holds ring k d P m
      → Holds ring (n + k) c P m
  Holds-after ring n k c d P (done e) p h = h
  Holds-after ring n k c d P (panic why) p h = λ posix.
      let (own, lack) = h posix in
      (own, λ r room. lack r (omega (arith, p.free, room.0), omega (arith, p.queued, room.1)))

  module _ (ring : Ring) where
    -- A read of a message is queued.
    pub submit_bulk_out_read-IsReady :
        (flight : List Sqe) (op : OpType) (c : Conn os)
        → slot_of (ok (record { op_type = op; id = none })) ≡ none
        → read_kind (ok (record { op_type = op; id = none })) ≡ some op
        → lacking (ok (record { op_type = op; id = none })) ≡ none
        → IsReady flight [] c
        → Holds ring 1 c (IsReady flight (op ∷ [])) (submit_bulk_out_read ring op c)
    unfolding submit_bulk_out_read push
    submit_bulk_out_read-IsReady flight op c hs hk hl r =
        if_elim (Holds ring 1 c (IsReady flight (op ∷ []))) (ring.is_full c.queue)
          (λ full _. (refl, λ r32 room. queue_has_room ring c full r32 room))
          (λ _. record {
            pool = r.pool;
            table = r.table;
            owned =
                Owned-push flight c.queue _ (record { op_type = op; id = none }) c.buffers
                  (refl, tt) hs r.owned;
            reads =
                ap (collect read_of) (sym (append_assoc flight c.queue _))
                ∙ collect-snoc_some read_of (flight ++ c.queue) _ op
                    (read_of-Names _ (record { op_type = op; id = none }) (refl, tt) ∙ hk)
                ∙ ap (λ (l : List OpType). l ++ (op ∷ [])) r.reads;
            named =
                ap (collect lacks_of) (sym (append_assoc flight c.queue _))
                ∙ collect-snoc lacks_of (flight ++ c.queue) _
                    (lacks_of-Names _ (record { op_type = op; id = none }) (refl, tt) ∙ hl)
                ∙ r.named;
            fit = r.fit;
          })

    -- A handler, and then a read of the next header.
    pub then_read-IsReady :
        (n : ℕ) (flight : List Sqe) (c : Conn os) (m : Outcome (Conn os))
        → IsReady flight [] c
        → Keeps ring n c m
        → Holds ring
            (n + 1)
            c
            (IsReady flight (bulk_out_read_header ∷ []))
            (m >>= submit_bulk_out_read ring bulk_out_read_header)
    then_read-IsReady n flight c (done d) r k =
        Holds-after ring n 1 c d (IsReady flight (bulk_out_read_header ∷ [])) _ k (
          submit_bulk_out_read-IsReady flight bulk_out_read_header d refl refl refl
            (Keeps-IsReady ring n flight [] c (done d) r k))
    then_read-IsReady n flight c (panic why) r k =
        Holds-more ring n (n + 1) c (IsReady flight []) (panic why) (omega arith)
          (Keeps-IsReady ring n flight [] c (panic why) r k)
