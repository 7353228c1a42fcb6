-- ===== src/Conn/Flight/Completed.antt =====
-- Proofs about `run` in src/main.rs: a completed entry leaves the flight.
use muadib.Prelude.{
  ℕ, zero, suc, ◌≡◌, refl, sym, ◌∙◌, ap, Option, none, some, List, [], ◌∷◌, ◌++◌, done, ok, err,
  Result, arith,
}
use mathlib.Core.List.{append_assoc}
use muadib.Prelude.Bytes.{Bytes}
use muadib.Interface.Winnow.{Winnow}
use muadib.Interface.Os.{Os, ℤ, pos, negsuc}
use muadib.Interface.Ring.{Ring, Sqe}
use muadib.Message.{AdbHeader, DeviceInfo}
use muadib.Buffers.{BufferManager, free}
use muadib.UserData.{
  OpType, ep0_poll, bulk_out_read_header, bulk_out_read_payload, bulk_in_write, pty_read,
  socket_read, UserData, UserDataError, user_data_try_from,
}
use muadib.Conn.{Conn}
use muadib.Conn.Events
use muadib.Conn.Events.{Session, Flow, goes, ends_ok, ends_err, Cqe}
use muadib.Conn.Entries.{
  collect, collect-drop, collect-only, collect-only_same, collect-nil, lacks_of, lacks_of-Names,
  lacks_of_lem, lacking, write_of, read_of, read_kind, slot_of, if_slot, Names, write_of-Names,
  read_of-Names, write_of_lem, read_of_lem,
}
use muadib.Conn.Owned.{Owned-drop, Owned-free}
use muadib.Conn.Keeps.{Keeps-more}
use muadib.Conn.Accounts.{read_ended-Keeps, pty_data-Keeps, socket_data-Keeps}
use muadib.Conn.Flight.{awaited, IsReady, IsSound, FlowHolds}
use muadib.Conn.Flight.Handled.{
  HasRoom, on_conn-Holds, kept-Holds, on_header_read-Holds, on_payload_read-Holds,
  on_ep0_poll-Holds,
}

awaited-header : (o : Option AdbHeader) → bulk_out_read_header ≡ awaited o → o ≡ none
awaited-header none h = refl
awaited-header (some x) h = absurd (cc)

-- What its user data says of an entry.
pub record Says (e : Sqe) (u : Result UserDataError UserData) : Type 0 where
  pub writes : (i : ℕ) → write_of i e ≡ if_slot (slot_of u) i e.op
  pub reads : read_of e ≡ read_kind u
  pub lacks : lacks_of e ≡ lacking u

Says-decoded : (e : Sqe) → Says e (user_data_try_from e.user_data)
Says-decoded e = record { writes = write_of_lem e; reads = read_of_lem e; lacks = lacks_of_lem e }

pub Says-named : (e : Sqe) (u : UserData) → Names e u → Says e (ok u)
Says-named e u n = record {
  writes = λ i. write_of-Names e u i n;
  reads = read_of-Names e u n;
  lacks = lacks_of-Names e u n;
}

module _ (a b : List Sqe) (e : Sqe) where
  reads_dropped :
      (q : List Sqe)
      → read_of e ≡ none
      → collect read_of ((a ++ b) ++ q) ≡ collect read_of ((a ++ (e ∷ b)) ++ q)
  reads_dropped q h =
      ap (collect read_of) (append_assoc a b q)
      ∙ sym (collect-drop read_of a e (b ++ q) h)
      ∙ ap (collect read_of) (sym (append_assoc a (e ∷ b) q))

  abbrev NamesAll : List Sqe → Type 0
  NamesAll q = collect lacks_of ((a ++ (e ∷ b)) ++ q) ≡ []

  -- An entry with the id that it wants, among others that have theirs.
  is_named :
      (q : List Sqe) → NamesAll q → (lacks_of e ≡ none) × (collect lacks_of (a ++ (b ++ q)) ≡ [])
  is_named q h =
      collect-nil lacks_of a e (b ++ q) (ap (collect lacks_of) (sym (append_assoc a (e ∷ b) q)) ∙ h)

  named_dropped : (q : List Sqe) → NamesAll q → collect lacks_of ((a ++ b) ++ q) ≡ []
  named_dropped q h = ap (collect lacks_of) (append_assoc a b q) ∙ (is_named q h).1

module _ {os : Os} (a b : List Sqe) (e : Sqe) where
  -- An entry that wants an id and has none is not there.
  no_lack :
      (u : Result UserDataError UserData) (op : OpType) (asked : List OpType) (c : Conn os)
      → Says e u
      → lacking u ≡ some op
      → IsReady (a ++ (e ∷ b)) asked c
      → some op ≡ none
  no_lack u op asked c says h r = sym h ∙ sym says.lacks ∙ (is_named a b e c.queue r.named).0

  -- An entry that neither wrote nor read a message.
  gone :
      (u : Result UserDataError UserData) (asked : List OpType) (c : Conn os)
      → Says e u
      → slot_of u ≡ none
      → read_kind u ≡ none
      → IsReady (a ++ (e ∷ b)) asked c
      → IsReady (a ++ b) asked c
  gone u asked c says hs hk r = record {
    pool = r.pool;
    table = r.table;
    owned =
        Owned-drop a b c.queue e c.buffers (λ i. says.writes i ∙ ap (λ s. if_slot s i e.op) hs)
          r.owned;
    reads = reads_dropped a b e c.queue (says.reads ∙ hk) ∙ r.reads;
    named = named_dropped a b e c.queue r.named;
    fit = r.fit;
  }

  -- The one read of a message.
  gone_read :
      (u : Result UserDataError UserData) (k j : OpType) (c : Conn os)
      → Says e u
      → slot_of u ≡ none
      → read_kind u ≡ some k
      → IsReady (a ++ (e ∷ b)) (j ∷ []) c
      → (k ≡ j) × IsReady (a ++ b) [] c
  gone_read u k j c says hs hk r =
      let only : collect read_of (a ++ (e ∷ (b ++ c.queue))) ≡ j ∷ [] =
        ap (collect read_of) (sym (append_assoc a (e ∷ b) c.queue)) ∙ r.reads in
      (
        collect-only_same read_of a e (b ++ c.queue) k j (says.reads ∙ hk) only,
        record {
          pool = r.pool;
          table = r.table;
          owned =
              Owned-drop a b c.queue e c.buffers
                (λ i. says.writes i ∙ ap (λ s. if_slot s i e.op) hs) r.owned;
          reads =
              ap (collect read_of) (append_assoc a b c.queue)
              ∙ collect-only read_of a e (b ++ c.queue) k j (says.reads ∙ hk) only;
          named = named_dropped a b e c.queue r.named;
          fit = r.fit;
        },
      )

  -- A write, whose slot is then free.
  pub gone_write :
      (u : Result UserDataError UserData) (slot : ℕ) (asked : List OpType) (c : Conn os)
      → Says e u
      → slot_of u ≡ some slot
      → read_kind u ≡ none
      → IsReady (a ++ (e ∷ b)) asked c
      → (m : BufferManager) × (free slot c.buffers ≡ done m)
        × IsReady (a ++ b) asked (record c { buffers = m })
  gone_write u slot asked c says hs hk r =
      let (m, released) =
        Owned-free a b c.queue e c.buffers slot (λ i. says.writes i ∙ ap (λ s. if_slot s i e.op) hs)
          r.owned in
      (
        m,
        released.freed,
        record {
          pool = released.same_size ∙ r.pool;
          table = r.table;
          owned = released.owned;
          reads = reads_dropped a b e c.queue (says.reads ∙ hk) ∙ r.reads;
          named = named_dropped a b e c.queue r.named;
          fit = r.fit;
        },
      )

module _ (w : Winnow) (ring : Ring) (os : Os) (ep0 : os.Fd) (info : DeviceInfo) (a b : List Sqe)
    (e : Sqe) where
  -- What the loop makes of a completion.
  abbrev After : OpType → Option ℕ → ℤ → Bytes → Session os → Type 0
  After op id res buffer s =
      FlowHolds ring 4 s.conn (IsSound (a ++ b))
        (Events.on_completion w ring os ep0 info op id res buffer s)

  on_completion-Holds :
      (op : OpType) (id : Option ℕ) (res : ℤ) (buffer : Bytes) (s : Session os)
      → Says e (ok (record { op_type = op; id = id }))
      → HasRoom s.conn
      → IsSound (a ++ (e ∷ b)) s
      → After op id res buffer s
  unfolding Events.on_completion
  on_completion-Holds pty_read none res buffer s says room r =
      λ _. let wrong = no_lack a b e _ pty_read _ s.conn says refl r in absurd (cc)
  on_completion-Holds pty_read (some id) (pos zero) buffer s says room r =
      kept-Holds w ring os ep0 info 2 (a ++ b) s _ (omega arith)
        (gone a b e _ _ s.conn says refl refl r)
        (Keeps-more ring 1 2 s.conn _ (omega arith) (read_ended-Keeps w ring os ep0 info id s.conn))
  on_completion-Holds pty_read (some id) (negsuc n) buffer s says room r =
      kept-Holds w ring os ep0 info 2 (a ++ b) s _ (omega arith)
        (gone a b e _ _ s.conn says refl refl r)
        (Keeps-more ring 1 2 s.conn _ (omega arith) (read_ended-Keeps w ring os ep0 info id s.conn))
  on_completion-Holds pty_read (some id) (pos (suc n)) buffer s says room r =
      kept-Holds w ring os ep0 info 2 (a ++ b) s _ (omega arith)
        (gone a b e _ _ s.conn says refl refl r)
        (pty_data-Keeps w ring os ep0 info id (suc n) buffer s.conn)
  on_completion-Holds socket_read none res buffer s says room r =
      λ _. let wrong = no_lack a b e _ socket_read _ s.conn says refl r in absurd (cc)
  on_completion-Holds socket_read (some id) (pos zero) buffer s says room r =
      kept-Holds w ring os ep0 info 2 (a ++ b) s _ (omega arith)
        (gone a b e _ _ s.conn says refl refl r)
        (Keeps-more ring 1 2 s.conn _ (omega arith) (read_ended-Keeps w ring os ep0 info id s.conn))
  on_completion-Holds socket_read (some id) (negsuc n) buffer s says room r =
      kept-Holds w ring os ep0 info 2 (a ++ b) s _ (omega arith)
        (gone a b e _ _ s.conn says refl refl r)
        (Keeps-more ring 1 2 s.conn _ (omega arith) (read_ended-Keeps w ring os ep0 info id s.conn))
  on_completion-Holds socket_read (some id) (pos (suc n)) buffer s says room r =
      kept-Holds w ring os ep0 info 2 (a ++ b) s _ (omega arith)
        (gone a b e _ _ s.conn says refl refl r)
        (socket_data-Keeps w ring os ep0 info id (suc n) buffer s.conn)
  on_completion-Holds bulk_in_write (some slot) res buffer s says room r =
      let (m, freed, ready) = gone_write a b e _ slot _ s.conn says refl refl r in
      rw freed (
        on_conn-Holds w ring os ep0 info 0 (a ++ b) s (done (record (s.conn) { buffers = m }))
          (omega arith) ready)
  on_completion-Holds bulk_in_write none (negsuc n) buffer s says room r = tt
  on_completion-Holds bulk_in_write none (pos n) buffer s says room r =
      λ _. let wrong = no_lack a b e _ bulk_in_write _ s.conn says refl r in absurd (cc)
  on_completion-Holds ep0_poll id (negsuc n) buffer s says room r = tt
  on_completion-Holds ep0_poll id (pos n) buffer s says room r =
      on_ep0_poll-Holds w ring os ep0 info (a ++ b) s (gone a b e _ _ s.conn says refl refl r)
  on_completion-Holds bulk_out_read_header id (negsuc n) buffer s says room r = tt
  on_completion-Holds bulk_out_read_header id (pos len) buffer s says room r =
      let (awaited_one, ready) = gone_read a b e _ bulk_out_read_header _ s.conn says refl refl r in
      on_header_read-Holds w ring os ep0 info (a ++ b) len buffer s
        (awaited-header s.pending_header awaited_one) room ready
  on_completion-Holds bulk_out_read_payload id (negsuc n) buffer s says room r = tt
  on_completion-Holds bulk_out_read_payload id (pos len) buffer s says room r =
      on_payload_read-Holds w ring os ep0 info (a ++ b) len buffer s room
        (gone_read a b e _ bulk_out_read_payload _ s.conn says refl refl r).1

  on_user_data-Holds :
      (u : Result UserDataError UserData) (cqe : Cqe) (s : Session os)
      → Says e u
      → HasRoom s.conn
      → IsSound (a ++ (e ∷ b)) s
      → FlowHolds ring 4 s.conn (IsSound (a ++ b)) (Events.on_user_data w ring os ep0 info u cqe s)
  on_user_data-Holds (err x) cqe s says room r = gone a b e _ _ s.conn says refl refl r
  on_user_data-Holds (ok u) cqe s says room r =
      on_completion-Holds u.op_type u.id cqe.result cqe.buffer s says room r

  -- A completion of an entry in flight takes that entry out of the flight, and the rest is sound.
  pub on_cqe-Holds :
      (res : ℤ) (buffer : Bytes) (s : Session os)
      → HasRoom s.conn
      → IsSound (a ++ (e ∷ b)) s
      → FlowHolds ring 4 s.conn (IsSound (a ++ b)) (
          Events.on_cqe w ring os ep0 info
            (record { user_data = e.user_data; result = res; buffer = buffer })
            s)
  unfolding Events.on_cqe
  on_cqe-Holds res buffer s room r =
      on_user_data-Holds (user_data_try_from e.user_data) _ s (Says-decoded e) room r
