-- ===== src/Conn/Tidy.antt =====
-- The accounts of the queue, the pool and the stream table that a handler of src/main.rs is held to.
use muadib.Prelude.{ℕ, ◌+◌, ◌≡◌, refl, ◌∙◌, some, List, [], ◌∷◌, ◌++◌, ◌≤◌, arith, length}
use muadib.Interface.Os.{Os}
use muadib.Interface.Ring.{Sqe, Op, Target, bulk_out, poll_add, read, write}
use muadib.Buffers.Slots.{count_free, IsPool}
use muadib.Stream.{Stream, get}
use muadib.Stream.Ids.{IsTable, put-IsTable}
use muadib.Stream.Fit.{IsFit, IsFitService, put-IsFit}
use muadib.Stream.Lives.{
  IsLater, IsLaterTable, IsLaterTable-refl, IsLaterTable-trans, put-IsLaterTable,
}
use muadib.Conn.{Conn}
use muadib.Conn.Continue.{put_stream}
use muadib.Conn.Entries.{collect, read_of, lacks_of, Owned}

-- Entries of the queue that read the next message, and that write a buffer of the pool.
abbrev pub out_read_of : Target → ℕ
out_read_of bulk_out = 1
out_read_of _ = 0

abbrev pub out_read : Op → ℕ
out_read (read target n) = out_read_of target
out_read (poll_add target n) = 0
out_read (write target b) = 0

abbrev pub pool_write : Op → ℕ
pool_write (write target b) = 1
pool_write (read target n) = 0
pool_write (poll_add target n) = 0

abbrev pub count_ops : (Op → ℕ) → List Sqe → ℕ
count_ops f [] = 0
count_ops f (e ∷ q) = f e.op + count_ops f q

pub count_ops-append :
    (f : Op → ℕ) (q r : List Sqe) → count_ops f (q ++ r) ≡ count_ops f q + count_ops f r
count_ops-append f [] r = omega arith
count_ops-append f (e ∷ q) r = omega (arith, count_ops-append f q r)

module _ {os : Os} where
  abbrev pub out_reads : Conn os → ℕ
  out_reads c = count_ops out_read c.queue

  -- Free slots and writes queued: a write takes a slot.
  abbrev pub ledger : Conn os → ℕ
  ledger c = count_free c.buffers.slots + count_ops pool_write c.queue

  -- At most `n` slots are taken, and at most `n` entries queued.
  pub record Tidy (n : ℕ) (c c' : Conn os) : Type 0 where
    pub pool : IsPool c.buffers → IsPool c'.buffers
    pub table : IsTable os c.streams → IsTable os c'.streams
    pub reads : out_reads c' ≡ out_reads c
    pub slots : ledger c' ≡ ledger c
    pub owned :
        IsPool c.buffers
        → IsTable os c.streams
        → (pre : List Sqe) → Owned (pre ++ c.queue) c.buffers
        → Owned (pre ++ c'.queue) c'.buffers
    pub asks :
        IsPool c.buffers → IsTable os c.streams → collect read_of c'.queue ≡ collect read_of c.queue
    pub named :
        IsPool c.buffers
        → IsTable os c.streams
        → collect lacks_of c'.queue ≡ collect lacks_of c.queue
    pub fits : IsFit os c.streams → IsFit os c'.streams
    pub later : IsLaterTable os c.streams c'.streams
    pub free : count_free c.buffers.slots ≤ count_free c'.buffers.slots + n
    pub queued : length c'.queue ≤ length c.queue + n

  pub Tidy-refl : {n : ℕ} (c : Conn os) → Tidy n c c
  Tidy-refl {n} c = record {
    pool = λ h. h;
    table = λ h. h;
    reads = refl;
    slots = refl;
    owned = λ _ _ pre o. o;
    asks = λ _ _. refl;
    named = λ _ _. refl;
    fits = λ h. h;
    later = IsLaterTable-refl os c.streams;
    free = omega arith;
    queued = omega arith;
  }

  pub Tidy-add : (n k : ℕ) {c d e : Conn os} → Tidy n c d → Tidy k d e → Tidy (n + k) c e
  Tidy-add n k p q = record {
    pool = λ h. q.pool (p.pool h);
    table = λ h. q.table (p.table h);
    reads = q.reads ∙ p.reads;
    slots = q.slots ∙ p.slots;
    owned = λ h t pre o. q.owned (p.pool h) (p.table t) pre (p.owned h t pre o);
    asks = λ h t. q.asks (p.pool h) (p.table t) ∙ p.asks h t;
    named = λ h t. q.named (p.pool h) (p.table t) ∙ p.named h t;
    fits = λ h. q.fits (p.fits h);
    later = IsLaterTable-trans os p.later q.later;
    free = omega (arith, p.free, q.free);
    queued = omega (arith, p.queued, q.queued);
  }

  pub Tidy-more : {n k : ℕ} {c d : Conn os} → n ≤ k → Tidy n c d → Tidy k c d
  Tidy-more le p = record {
    pool = p.pool;
    table = p.table;
    reads = p.reads;
    slots = p.slots;
    owned = p.owned;
    asks = p.asks;
    named = p.named;
    fits = p.fits;
    later = p.later;
    free = omega (arith, p.free, le);
    queued = omega (arith, p.queued, le);
  }

  -- What takes nothing comes first.
  pub Tidy-trans : {n : ℕ} {c d e : Conn os} → Tidy 0 c d → Tidy n d e → Tidy n c e
  Tidy-trans {n} p q = Tidy-more (omega arith) (Tidy-add 0 n p q)

  pub Tidy-world : {n : ℕ} (c : Conn os) (w : os.World) → Tidy n c (record c { world = w })
  Tidy-world {n} c w = record {
    pool = λ h. h;
    table = λ h. h;
    reads = refl;
    slots = refl;
    owned = λ _ _ pre o. o;
    asks = λ _ _. refl;
    named = λ _ _. refl;
    fits = λ h. h;
    later = IsLaterTable-refl os c.streams;
    free = omega arith;
    queued = omega arith;
  }

  pub Tidy-put :
      {n : ℕ} (c : Conn os) (k : ℕ) (s t : Stream os)
      → get os c.streams k ≡ some t
      → IsLater t s
      → (IsFit os c.streams → IsFitService s.service)
      → Tidy n c (put_stream k s c)
  Tidy-put {n} c k s t e l f = record {
    pool = λ h. h;
    table = λ h. put-IsTable os c.streams k s t e h;
    reads = refl;
    slots = refl;
    owned = λ _ _ pre o. o;
    asks = λ _ _. refl;
    named = λ _ _. refl;
    fits = λ h. put-IsFit os c.streams k s (f h) h;
    later = put-IsLaterTable os c.streams k s t e l;
    free = omega arith;
    queued = omega arith;
  }
