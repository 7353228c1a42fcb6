-- ===== src/Conn/Flight/Reach.antt =====
-- Proofs about the ring of src/main.rs: every state that the loop can reach, with completions in
-- any order.
use muadib.Prelude.{
  ℕ, zero, suc, ◌≡◌, refl, sym, ◌∙◌, ap, Option, none, some, List, [], ◌∷◌, ◌++◌, replicate,
  get_elem?, Outcome, done, panic, bind-eq-done, ok, arith, ◌≤◌, ==_self,
}
use mathlib.Core.Path.{subst}
use mathlib.Core.List.{append-nil}
use muadib.Prelude.Bytes.{Bytes, IsU32}
use muadib.Interface.Winnow.{Winnow}
use muadib.Interface.Os.{Os, ℤ}
use muadib.Interface.Ring.{Ring, Sqe, Op, write, bulk_in}
use muadib.Message.{DeviceInfo}
use muadib.Buffers.{BufferManager, free}
use muadib.Stream.Ids.{IsTable-new}
use muadib.Stream.Fit.{IsFit-new}
use muadib.UserData.{bulk_in_write, bulk_out_read_header, UserData, user_data_to_u64}
use muadib.Conn.{new_conn, submit_ep0_poll, submit_bulk_out_read}
use muadib.Conn.Events
use muadib.Conn.Events.{Session, Flow, goes, Cqe}
use muadib.Conn.Entries.{
  collect, decoded, collect-some, same_one, read_of, lacks_of, write_of, write_of-Names, held,
  held_write, Owned,
}
use muadib.Conn.Accounts.{submit_ep0_poll-Keeps}
use muadib.Conn.Flight.{
  IsReady, Holds, IsSound, FlowHolds, Keeps-IsReady, submit_bulk_out_read-IsReady,
}
use muadib.Conn.Flight.Handled.{HasRoom}
use muadib.Conn.Flight.Completed.{on_cqe-Holds, gone_write, Says-named}

-- The entries that the kernel has, and the session.
pub record System (os : Os) : Type 0 where
  pub flight : List Sqe
  pub session : Session os

abbrev pub all_entries : {os : Os} → System os → List Sqe
all_entries x = x.flight ++ x.session.conn.queue

abbrev pub cqe_of : Sqe → ℤ → Bytes → Cqe
cqe_of e res buffer = record { user_data = e.user_data; result = res; buffer = buffer }

held_write-replicate : (n i : ℕ) → held_write (get_elem? (replicate n none) i) ≡ []
held_write-replicate zero i = refl
held_write-replicate (suc n) zero = refl
held_write-replicate (suc n) (suc i) = held_write-replicate n i

-- A slot with a write among the entries holds the bytes of that write.
the_one :
    (o : Option (Option Bytes)) (l r : List Op) (op : Op)
    → l ++ (op ∷ r) ≡ held_write o
    → (content : Bytes) × (op ≡ write bulk_in content) × (o ≡ some (some content))
the_one none [] r op h = absurd (cc)
the_one none (x ∷ l) r op h = absurd (cc)
the_one (some none) [] r op h = absurd (cc)
the_one (some none) (x ∷ l) r op h = absurd (cc)
the_one (some (some b)) l r op h = (b, same_one (write_of 0) l op (write bulk_in b) r h, refl)

abbrev SessionHolds : {os : Os} → (Session os → Type 0) → Outcome (Session os) → Type 0
SessionHolds P (done s) = P s
SessionHolds P (panic why) = Unit

module _ (w : Winnow) (ring : Ring) (os : Os) (ep0 : os.Fd) (info : DeviceInfo) where
  -- `run` from a new connection: a wait submits the queue, and any entry in flight may complete
  -- next, with any result.
  pub data Reach : System os → Type 0 where
    starts :
        (world : os.World) (s : Session os)
        → Events.start w ring os ep0 info (new_conn {os = os} world) ≡ done s
        → Reach (record { flight = []; session = s })
    submits :
        {x : System os}
        → Reach x
        → Reach (record {
          flight = all_entries x;
          session = Events.submitted w ring os ep0 info x.session;
        })
    completes :
        (a b : List Sqe) (e : Sqe) (res : ℤ) (buffer : Bytes) (s s' : Session os)
        → Reach (record { flight = a ++ (e ∷ b); session = s })
        → Events.on_cqe w ring os ep0 info (cqe_of e res buffer) s ≡ done (goes s')
        → Reach (record { flight = a ++ b; session = s' })

  -- In no state on the way had the ids of streams run out.
  abbrev pub HadRoom : {x : System os} → Reach x → Type 0
  HadRoom (starts world s h) = Unit
  HadRoom (submits r) = HadRoom r
  HadRoom (completes a b e res buffer s s' r h) = HasRoom s.conn × HadRoom r

  new_conn-IsReady : (world : os.World) → IsReady [] [] (new_conn {os = os} world)
  unfolding new_conn
  new_conn-IsReady world = record {
    pool = refl;
    table = IsTable-new os;
    owned = all_free;
    reads = refl;
    named = refl;
    fit = IsFit-new os;
  }
    where
      all_free : Owned [] (new_conn {os = os} world).buffers
      all_free zero = refl
      all_free (suc i) = sym (held_write-replicate 8 i)

  start-IsSound :
      (world : os.World) (s : Session os)
      → Events.start w ring os ep0 info (new_conn {os = os} world) ≡ done s
      → IsSound [] s
  unfolding Events.start
  start-IsSound world s h =
      let (c1, e1, h1) = bind-eq-done (submit_ep0_poll ring (new_conn {os = os} world)) _ h in
      let (c2, e2, h2) = bind-eq-done (submit_bulk_out_read ring bulk_out_read_header c1) _ h1 in
      let ready : IsReady [] [] c1 = subst (Holds ring 1 (new_conn world) (IsReady [] [])) e1 (
        Keeps-IsReady ring 1 [] [] _ _ (new_conn-IsReady world)
          (submit_ep0_poll-Keeps w ring os ep0 info (new_conn {os = os} world))) in
      let asked : IsReady [] (bulk_out_read_header ∷ []) c2 =
        subst (Holds ring 1 c1 (IsReady [] (bulk_out_read_header ∷ []))) e2
          (submit_bulk_out_read-IsReady ring [] bulk_out_read_header c1 refl refl refl ready) in
      subst (SessionHolds (IsSound [])) h2 asked

  -- In every state that the loop can reach before the ids of streams run out: the pool has its
  -- eight slots and the stream table is well formed; exactly one read of a message is in flight or
  -- queued, and it reads a payload just when a header waits for one; each slot of the pool in use
  -- belongs to exactly one write in flight or queued, of the bytes that the slot holds, and a free
  -- slot to none; every entry whose operation wants an id has one; every receiver of a push is in a
  -- state that a receiver can be in, and the capacity of every read buffer is a `u32`.
  pub Reach-IsSound : {x : System os} (r : Reach x) → HadRoom r → IsSound x.flight x.session
  Reach-IsSound (starts world s h) room = start-IsSound world s h
  Reach-IsSound (submits {x} r) room =
      let k = Reach-IsSound r room in
      record {
        pool = k.pool;
        table = k.table;
        owned = λ i. ap (collect (write_of i)) (append-nil (all_entries x)) ∙ k.owned i;
        reads = ap (collect read_of) (append-nil (all_entries x)) ∙ k.reads;
        named = ap (collect lacks_of) (append-nil (all_entries x)) ∙ k.named;
        fit = k.fit;
      }
  Reach-IsSound (completes a b e res buffer s s' r h) (here, room) =
      subst (FlowHolds ring 4 s.conn (IsSound (a ++ b))) h
        (on_cqe-Holds w ring os ep0 info a b e res buffer s here (Reach-IsSound r room))

  -- In every state that the loop can reach before the ids of streams run out, a write in flight or
  -- queued that names a non-zero `u32` as its slot names one of the pool whose buffer is there and
  -- holds the bytes of the write.
  pub Reach-buffer :
      {x : System os} (i : ℕ) (a b : List Sqe) (e : Sqe) (r : Reach x)
      → HadRoom r
      → all_entries x ≡ a ++ (e ∷ b)
      → e.user_data ≡ user_data_to_u64 (record { op_type = bulk_in_write; id = some i })
      → 1 ≤ i
      → IsU32 i
      → (k : ℕ) × (content : Bytes) × (i ≡ suc k)
        × (e.op ≡ write bulk_in content)
        × (get_elem? x.session.conn.buffers.slots k ≡ some (some content))
  Reach-buffer {x} zero a b e r room split names lo hi = absurd (omega arith)
  Reach-buffer {x} (suc k) a b e r room split names lo hi =
      let this : write_of (suc k) e ≡ some e.op =
        write_of-Names e (record { op_type = bulk_in_write; id = some (suc k) }) (suc k)
          (names, (lo, hi))
        ∙ rw (==_self (suc k)) refl in
      let owned : collect (write_of (suc k)) (a ++ (e ∷ b)) ≡ held x.session.conn.buffers (suc k) =
        ap (collect (write_of (suc k))) (sym split) ∙ (Reach-IsSound r room).owned (suc k) in
      let (content, op, holds) =
        the_one (get_elem? x.session.conn.buffers.slots k) (collect (write_of (suc k)) a)
          (collect (write_of (suc k)) b) e.op
          (sym (collect-some (write_of (suc k)) a e b e.op this) ∙ owned) in
      (k, content, refl, op, holds)

  -- In every state that the loop can reach before the ids of streams run out, the completion of a
  -- write in flight that names a non-zero `u32` as its slot, whatever its result, frees the write's
  -- slot and changes nothing else: the loop goes on, and `free` does not panic.
  pub Reach-write_completes :
      (i : ℕ) (a b : List Sqe) (e : Sqe) (res : ℤ) (buffer : Bytes) (s : Session os)
      → (r : Reach (record { flight = a ++ (e ∷ b); session = s })) → HadRoom r
      → e.user_data ≡ user_data_to_u64 (record { op_type = bulk_in_write; id = some i })
      → 1 ≤ i
      → IsU32 i
      → (m : BufferManager) × (free i s.conn.buffers ≡ done m)
        × (Events.on_cqe w ring os ep0 info (cqe_of e res buffer) s
            ≡ done (goes (record s { conn = record (s.conn) { buffers = m } })))
  unfolding Events.on_cqe Events.on_completion
  Reach-write_completes i a b e res buffer s r room names lo hi =
      let u : UserData = record { op_type = bulk_in_write; id = some i } in
      let (m, freed, ready) =
        gone_write a b e (ok u) i _ s.conn (Says-named e u (names, (lo, hi))) refl refl
          (Reach-IsSound r room) in
      (m, freed, rw (decoded e u (names, (lo, hi)), freed) refl)
