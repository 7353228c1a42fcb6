-- ===== src/Conn/Accounts.antt =====
-- Proofs about the event loop of src/main.rs: the reads of messages that are queued, and the slots
-- of the pool.
use muadib.Prelude.{
  none, ℕ, ◌+◌, ◌≤◌, ◌≡◌, refl, some, [], ◌∷◌, if_elim, Result, ok, err, Outcome, done, panic,
  ◌>>=◌, arith,
}
use muadib.Prelude.Bytes.{Bytes}
use muadib.Interface.Winnow.{Winnow}
use muadib.Interface.Os.{Os}
use muadib.Interface.Ring.{Ring}
use muadib.Message.{DeviceInfo}
use muadib.Buffers.Slots.{IsPool}
use muadib.Stream.{Service, shell_service, forward_service, Stream, get}
use muadib.Stream.Ids.{IsTable}
use muadib.Stream.Lives.{IsLaterTable, IsLaterTable-refl, IsLaterTable-trans, same_service-IsLater}
use muadib.UserData.{OpType, bulk_out_read_header, bulk_out_read_payload, UserData, UserDataError}
use muadib.UserData.{ep0_poll}
use muadib.Conn.{Conn, push, submit_bulk_out_read, submit_ep0_poll}
use muadib.Conn.Events
use muadib.Conn.Events.{Session, Flow, goes, ends_ok, ends_err, Cqe, ep0_stops}
use muadib.Conn.Tidy.{
  Tidy, Tidy-refl, Tidy-put, out_reads, ledger, out_read, pool_write, count_ops-append,
}
use muadib.Conn.Keeps.{Keeps, Keeps-after, Keeps-bind, Keeps-with_stream, push-Keeps}
use muadib.Conn.Kept.{close_stream-Tidy, submit_clse-Keeps}
use muadib.Conn.Resumed.{submit_wrte-Keeps}

-- The reads of a message that a completion asks to be replaced.
abbrev pub reads_of : OpType → ℕ
reads_of bulk_out_read_header = 1
reads_of bulk_out_read_payload = 1
reads_of _ = 0

abbrev pub reads_for : Result UserDataError UserData → ℕ
reads_for (ok u) = reads_of u.op_type
reads_for (err _) = 0

module _ {os : Os} where
  -- The pool and the table are well formed, `n` reads more of a message are queued, and no slot
  -- of the pool is lost.
  pub record IsAccounted (n : ℕ) (c c' : Conn os) : Type 0 where
    pub pool : IsPool c'.buffers
    pub table : IsTable os c'.streams
    pub reads : out_reads c' ≡ n + out_reads c
    pub slots : ledger c ≤ ledger c'
    pub later : IsLaterTable os c.streams c'.streams

  abbrev pub Accounts : ℕ → Conn os → Outcome (Flow os) → Type 0
  Accounts n c (done (goes s)) = IsAccounted n c s.conn
  Accounts n c (done (ends_ok _)) = Unit
  Accounts n c (done (ends_err _)) = Unit
  Accounts n c (panic _) = Unit

  abbrev AccountsConn : ℕ → Conn os → Outcome (Conn os) → Type 0
  AccountsConn n c (done c') = IsAccounted n c c'
  AccountsConn n c (panic _) = Unit

  Tidy-IsAccounted :
      {n : ℕ} (c c' : Conn os)
      → IsPool c.buffers
      → IsTable os c.streams
      → Tidy n c c'
      → IsAccounted 0 c c'
  Tidy-IsAccounted {n} c c' p t k = record {
    pool = k.pool p;
    table = k.table t;
    reads = omega (arith, k.reads);
    slots = omega (arith, k.slots);
    later = k.later;
  }

  pub Keeps-Accounts :
      (ring : Ring) (r : ℕ) (c : Conn os) (m : Outcome (Conn os))
      → IsPool c.buffers
      → IsTable os c.streams
      → Keeps ring r c m
      → AccountsConn 0 c m
  Keeps-Accounts ring r c (done d) p t k = Tidy-IsAccounted c d p t k
  Keeps-Accounts ring r c (panic _) p t k = tt

  -- Handling that keeps the accounts, then one read of a message.
  pub Keeps-then_read :
      (ring : Ring) (r n : ℕ) (c : Conn os) (m : Outcome (Conn os))
      (f : Conn os → Outcome (Conn os))
      → IsPool c.buffers
      → IsTable os c.streams
      → Keeps ring r c m
      → ((d : Conn os) → IsPool d.buffers → IsTable os d.streams → AccountsConn n d (f d))
      → AccountsConn n c (m >>= f)
  Keeps-then_read ring r n c (done d) f p t k g = after (f d) (g d (k.pool p) (k.table t))
    where
      after : (x : Outcome (Conn os)) → AccountsConn n d x → AccountsConn n c x
      after (done e) a = record {
        pool = a.pool;
        table = a.table;
        reads = omega (arith, a.reads, k.reads);
        slots = omega (arith, a.slots, k.slots);
        later = IsLaterTable-trans os k.later a.later;
      }
      after (panic _) a = tt
  Keeps-then_read ring r n c (panic _) f p t k g = tt

module _ (w : Winnow) (ring : Ring) (os : Os) (ep0 : os.Fd) (info : DeviceInfo) where
  pub submit_bulk_out_read-Accounts :
      (op : OpType) (c : Conn os)
      → IsPool c.buffers
      → IsTable os c.streams
      → AccountsConn 1 c (submit_bulk_out_read ring op c)
  unfolding submit_bulk_out_read push
  submit_bulk_out_read-Accounts op c p t =
      if_elim (AccountsConn 1 c) (ring.is_full c.queue) (λ _. tt)
        (λ _. record {
          pool = p;
          table = t;
          reads = omega (arith, count_ops-append out_read c.queue (_ ∷ []));
          slots = omega (arith, count_ops-append pool_write c.queue (_ ∷ []));
          later = IsLaterTable-refl os c.streams;
        })

  pub on_conn-Accounts :
      (n : ℕ) (s : Session os) (c : Conn os) (m : Outcome (Conn os))
      → AccountsConn n c m
      → Accounts n c (Events.on_conn w ring os ep0 info s m)
  on_conn-Accounts n s c (done d) a = a
  on_conn-Accounts n s c (panic _) a = tt

  pub read_ended-Keeps :
      (k : ℕ) (c : Conn os) → Keeps ring 1 c (Events.read_ended w ring os ep0 info k c)
  unfolding Events.read_ended
  read_ended-Keeps k c =
      Keeps-with_stream ring 1 c (get os c.streams k) _ _ (close_stream-Tidy ring k c) (λ s _.
        Keeps-bind ring 1 0 c _ _ (submit_clse-Keeps ring k s.remote_id c)
          (λ d _. close_stream-Tidy ring k d))

  send_read-Keeps :
      (k : ℕ) (s : Stream os) (data' : Bytes) (c : Conn os)
      → get os c.streams k ≡ some s
      → Keeps ring 2 c (Events.send_read w ring os ep0 info k s data' c)
  send_read-Keeps k s data' c e =
      Keeps-after ring 2 _ (Tidy-put c k _ s e (same_service-IsLater s) (λ fit. fit k s e))
        (submit_wrte-Keeps ring k s.remote_id data' _)

  pty_data_of-Keeps :
      (svc : Service os) (k : ℕ) (s : Stream os) (len : ℕ) (buffer : Bytes) (c : Conn os)
      → get os c.streams k ≡ some s
      → Keeps ring 2 c (Events.pty_data_of w ring os ep0 info svc k s len buffer c)
  unfolding Events.pty_data_of
  pty_data_of-Keeps (shell_service _) k s len buffer c e = send_read-Keeps k s _ c e
  pty_data_of-Keeps _ k s len buffer c e = Tidy-refl c

  socket_data_of-Keeps :
      (svc : Service os) (k : ℕ) (s : Stream os) (len : ℕ) (buffer : Bytes) (c : Conn os)
      → get os c.streams k ≡ some s
      → Keeps ring 2 c (Events.socket_data_of w ring os ep0 info svc k s len buffer c)
  unfolding Events.socket_data_of
  socket_data_of-Keeps (forward_service _) k s len buffer c e = send_read-Keeps k s _ c e
  socket_data_of-Keeps _ k s len buffer c e = Tidy-refl c

  pub pty_data-Keeps :
      (k : ℕ) (len : ℕ) (buffer : Bytes) (c : Conn os)
      → Keeps ring 2 c (Events.pty_data w ring os ep0 info k len buffer c)
  unfolding Events.pty_data
  pty_data-Keeps k len buffer c =
      Keeps-with_stream ring 2 c (get os c.streams k) _ _ (Tidy-refl c)
        (λ s e. pty_data_of-Keeps s.service k s len buffer c e)

  pub socket_data-Keeps :
      (k : ℕ) (len : ℕ) (buffer : Bytes) (c : Conn os)
      → Keeps ring 2 c (Events.socket_data w ring os ep0 info k len buffer c)
  unfolding Events.socket_data
  socket_data-Keeps k len buffer c =
      Keeps-with_stream ring 2 c (get os c.streams k) _ _ (Tidy-refl c)
        (λ s e. socket_data_of-Keeps s.service k s len buffer c e)

  pub submit_ep0_poll-Keeps : (c : Conn os) → Keeps ring 1 c (submit_ep0_poll ring c)
  unfolding submit_ep0_poll
  submit_ep0_poll-Keeps c =
      push-Keeps ring _ (record { op_type = ep0_poll; id = none }) c refl refl refl refl refl
        (λ _. (refl, tt))
