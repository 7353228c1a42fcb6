-- ===== src/Conn/Completions.antt =====
-- Proofs about the arms of `run` in src/main.rs, on the accounts of `Accounts`.
use muadib.Prelude.{
  ℕ, zero, suc, ◌+◌, ◌^◌, ◌≤◌, ◌<◌, Option, none, some, List, [], ◌∷◌, if_elim, length, ltb, Result,
  ok, err, Outcome, done, panic, ◌>>=◌, arith, ◌∙◌, set, length-set, slot_out_of_range,
  slice_out_of_range, stops_by, is_inner, leb, refl, false, ◌≡◌,
}
use muadib.Prelude.Bytes.{Bytes}
use muadib.Interface.Winnow.{Winnow}
use muadib.Interface.Os.{Os, ℤ, pos, negsuc}
use muadib.Interface.Ring.{Ring}
use muadib.Message.{AdbHeader, DeviceInfo, parse_header}
use muadib.Buffers.{BufferManager, free}
use muadib.Buffers.Slots.{IsPool, count_free}
use muadib.Stream.Ids.{IsTable}
use muadib.Stream.Lives.{IsLaterTable-refl}
use muadib.UserData.{
  OpType, ep0_poll, bulk_out_read_header, bulk_out_read_payload, bulk_in_write, pty_read,
  socket_read, UserData, user_data_try_from, UserDataError,
}
use muadib.Conn.{Conn}
use muadib.Conn.Events
use muadib.Conn.Events.{Session, Flow, goes, ends_ok, ends_err, Cqe, ep0_stops}
use muadib.Conn.Tidy.{Tidy-refl, Tidy-world}
use muadib.Conn.Keeps.{Keeps, Keeps-after, Keeps-bind_value}
use muadib.Conn.Accounts.{
  reads_of, reads_for, Accounts, Keeps-Accounts, Keeps-then_read, submit_bulk_out_read-Accounts,
  on_conn-Accounts, read_ended-Keeps, pty_data-Keeps, socket_data-Keeps, submit_ep0_poll-Keeps,
}
use muadib.Conn.Obeyed.{handle_command-Keeps}

module _ (w : Winnow) (ring : Ring) (os : Os) (ep0 : os.Fd) (info : DeviceInfo) where
  -- A header that parsed and waits for no payload is handled, and the next one is read.
  with_header-Accounts :
      (o : Option (AdbHeader × Bytes)) (s : Session os)
      → IsPool s.conn.buffers
      → IsTable os s.conn.streams
      → s.conn.streams.next_id + 1 < 2 ^ 32
      → Accounts 1 s.conn (Events.with_header w ring os ep0 info o s)
  unfolding Events.with_header
  with_header-Accounts none s p t room =
      on_conn-Accounts w ring os ep0 info 1 s s.conn _
        (submit_bulk_out_read-Accounts w ring os ep0 info bulk_out_read_header s.conn p t)
  with_header-Accounts (some (h, rest)) s p t room =
      if_elim (Accounts 1 s.conn) (ltb 0 h.data_length)
        (λ _.
          on_conn-Accounts w ring os ep0 info 1 (record s { pending_header = some h }) s.conn _
            (submit_bulk_out_read-Accounts w ring os ep0 info bulk_out_read_payload s.conn p t))
        (λ _. on_conn-Accounts w ring os ep0 info 1 s s.conn _ (
          Keeps-then_read ring 3 1 s.conn _ _ p t
            (handle_command-Keeps w ring info h none s.conn room)
            (λ d. submit_bulk_out_read-Accounts w ring os ep0 info bulk_out_read_header d)))

  sliced :
      (n len : ℕ) (buffer : Bytes) (c : Conn os) (f : Bytes → Outcome (Flow os))
      → ((b : Bytes) → Accounts n c (f b))
      → Accounts n c (Events.slice_to len buffer >>= f)
  sliced n len buffer c f k = bound (Events.slice_to len buffer)
    where
      bound : (m : Outcome Bytes) → Accounts n c (m >>= f)
      bound (done b) = k b
      bound (panic _) = tt

  pub slice_to-stops_by :
      (len : ℕ) (buffer : Bytes) → stops_by is_inner (Events.slice_to len buffer) ≡ false
  slice_to-stops_by len buffer =
      if_elim (λ (m : Outcome Bytes). stops_by is_inner m ≡ false) (leb len (length buffer))
        {y = panic slice_out_of_range} (λ _. refl) (λ _. refl)

  pub with_payload-Keeps :
      (o : Option AdbHeader) (len : ℕ) (buffer : Bytes) (c : Conn os)
      → c.streams.next_id + 1 < 2 ^ 32
      → Keeps ring 3 c (Events.with_payload w ring os ep0 info o len buffer c)
  unfolding Events.with_payload
  with_payload-Keeps none len buffer c room = Tidy-refl c
  with_payload-Keeps (some h) len buffer c room =
      Keeps-bind_value ring 3 c (Events.slice_to len buffer) _
        (λ _ _ _. slice_to-stops_by len buffer)
        (λ b _.
          if_elim (Keeps ring 3 c) (Events.checksum_fails c.version h b) {x = done c}
            (λ _. Tidy-refl c) (λ _. handle_command-Keeps w ring info h (some b) c room))

  on_payload_read-Accounts :
      (len : ℕ) (buffer : Bytes) (s : Session os)
      → IsPool s.conn.buffers
      → IsTable os s.conn.streams
      → s.conn.streams.next_id + 1 < 2 ^ 32
      → Accounts 1 s.conn (Events.on_payload_read w ring os ep0 info len buffer s)
  unfolding Events.on_payload_read
  on_payload_read-Accounts len buffer s p t room =
      on_conn-Accounts w ring os ep0 info 1 (record s { pending_header = none }) s.conn _
        (Keeps-then_read ring 3 1 s.conn _ _ p t
          (with_payload-Keeps s.pending_header len buffer s.conn room)
          (λ d. submit_bulk_out_read-Accounts w ring os ep0 info bulk_out_read_header d))

  on_ep0_poll-Accounts :
      (s : Session os)
      → IsPool s.conn.buffers
      → IsTable os s.conn.streams
      → Accounts 0 s.conn (Events.on_ep0_poll w ring os ep0 info s)
  unfolding Events.on_ep0_poll
  on_ep0_poll-Accounts s p t =
      let (stops, world) = ep0_stops w ring os ep0 info s.conn.world in
      if_elim (Accounts 0 s.conn) stops (λ _. tt)
        (λ _. on_conn-Accounts w ring os ep0 info 0 s s.conn _ (
          Keeps-Accounts ring 1 s.conn _ p t (
            Keeps-after ring 1 _ (Tidy-world s.conn world)
              (submit_ep0_poll-Keeps w ring os ep0 info (record (s.conn) { world = world })))))

  kept :
      (r : ℕ) (s : Session os) (m : Outcome (Conn os))
      → IsPool s.conn.buffers
      → IsTable os s.conn.streams
      → Keeps ring r s.conn m
      → Accounts 0 s.conn (Events.on_conn w ring os ep0 info s m)
  kept r s m p t k =
      on_conn-Accounts w ring os ep0 info 0 s s.conn m (Keeps-Accounts ring r s.conn m p t k)

  count_free-set-none :
      (slots : List (Option Bytes)) (i : ℕ) → count_free slots ≤ count_free (set slots i none)
  count_free-set-none [] i = omega arith
  count_free-set-none (none ∷ slots) zero = omega arith
  count_free-set-none (some b ∷ slots) zero = omega arith
  count_free-set-none (none ∷ slots) (suc i) = omega (arith, count_free-set-none slots i)
  count_free-set-none (some b ∷ slots) (suc i) = count_free-set-none slots i

  free_slot-Accounts :
      (k : ℕ) (s : Session os)
      → IsPool s.conn.buffers
      → IsTable os s.conn.streams
      → Accounts 0 s.conn
          (Events.on_conn w ring os ep0 info s (Events.free_slot w ring os ep0 info k s.conn))
  unfolding free
  free_slot-Accounts zero s p t = tt
  free_slot-Accounts (suc i) s p t =
      if_elim
        (λ (m : Outcome BufferManager).
          Accounts 0 s.conn (
            Events.on_conn w ring os ep0 info s
              (m >>= λ b. done (record (s.conn) { buffers = b }))))
        (ltb i (length s.conn.buffers.slots)) {y = panic slot_out_of_range}
        (λ _. record {
          pool = length-set s.conn.buffers.slots i none ∙ p;
          table = t;
          reads = omega arith;
          slots = omega (arith, count_free-set-none s.conn.buffers.slots i);
          later = IsLaterTable-refl os s.conn.streams;
        })
        (λ _. tt)

  pub on_completion-Accounts :
      (op : OpType) (id : Option ℕ) (res : ℤ) (buffer : Bytes) (s : Session os)
      → IsPool s.conn.buffers
      → IsTable os s.conn.streams
      → s.conn.streams.next_id + 1 < 2 ^ 32
      → Accounts (reads_of op) s.conn (Events.on_completion w ring os ep0 info op id res buffer s)
  unfolding Events.on_completion Events.on_header_read
  on_completion-Accounts pty_read none res buffer s p t room = tt
  on_completion-Accounts pty_read (some id) (pos zero) buffer s p t room =
      kept 1 s _ p t (read_ended-Keeps w ring os ep0 info id s.conn)
  on_completion-Accounts pty_read (some id) (negsuc n) buffer s p t room =
      kept 1 s _ p t (read_ended-Keeps w ring os ep0 info id s.conn)
  on_completion-Accounts pty_read (some id) (pos (suc n)) buffer s p t room =
      kept 2 s _ p t (pty_data-Keeps w ring os ep0 info id (suc n) buffer s.conn)
  on_completion-Accounts socket_read none res buffer s p t room = tt
  on_completion-Accounts socket_read (some id) (pos zero) buffer s p t room =
      kept 1 s _ p t (read_ended-Keeps w ring os ep0 info id s.conn)
  on_completion-Accounts socket_read (some id) (negsuc n) buffer s p t room =
      kept 1 s _ p t (read_ended-Keeps w ring os ep0 info id s.conn)
  on_completion-Accounts socket_read (some id) (pos (suc n)) buffer s p t room =
      kept 2 s _ p t (socket_data-Keeps w ring os ep0 info id (suc n) buffer s.conn)
  on_completion-Accounts bulk_in_write (some slot) res buffer s p t room =
      free_slot-Accounts slot s p t
  on_completion-Accounts bulk_in_write none (negsuc n) buffer s p t room = tt
  on_completion-Accounts bulk_in_write none (pos n) buffer s p t room = tt
  on_completion-Accounts ep0_poll id (negsuc n) buffer s p t room = tt
  on_completion-Accounts ep0_poll id (pos n) buffer s p t room = on_ep0_poll-Accounts s p t
  on_completion-Accounts bulk_out_read_header id (negsuc n) buffer s p t room = tt
  on_completion-Accounts bulk_out_read_header id (pos len) buffer s p t room =
      sliced 1 len buffer s.conn _ (λ b. with_header-Accounts (parse_header w b) s p t room)
  on_completion-Accounts bulk_out_read_payload id (negsuc n) buffer s p t room = tt
  on_completion-Accounts bulk_out_read_payload id (pos len) buffer s p t room =
      on_payload_read-Accounts len buffer s p t room

  on_user_data-Accounts :
      (u : Result UserDataError UserData) (cqe : Cqe) (s : Session os)
      → IsPool s.conn.buffers
      → IsTable os s.conn.streams
      → s.conn.streams.next_id + 1 < 2 ^ 32
      → Accounts (reads_for u) s.conn (Events.on_user_data w ring os ep0 info u cqe s)
  on_user_data-Accounts (err e) cqe s p t room =
      Keeps-Accounts ring 0 s.conn (done s.conn) p t (Tidy-refl s.conn)
  on_user_data-Accounts (ok u) cqe s p t room =
      on_completion-Accounts u.op_type u.id cqe.result cqe.buffer s p t room

  -- From a pool of eight slots and a well-formed stream table whose ids have not run out, a
  -- completion of any kind after which the loop goes on leaves both well formed, queues exactly one
  -- read of a further message when it completed one and none otherwise, and never lowers the sum of
  -- free slots and queued writes.
  pub on_cqe-Accounts :
      (cqe : Cqe) (s : Session os)
      → IsPool s.conn.buffers
      → IsTable os s.conn.streams
      → s.conn.streams.next_id + 1 < 2 ^ 32
      → Accounts
          (reads_for (user_data_try_from cqe.user_data))
          s.conn
          (Events.on_cqe w ring os ep0 info cqe s)
  unfolding Events.on_cqe
  on_cqe-Accounts cqe s p t room =
      on_user_data-Accounts (user_data_try_from cqe.user_data) cqe s p t room
