-- ===== src/Conn/Resumed.antt =====
-- Proofs about what moves a stream on in src/main.rs, on the accounts of `Tidy`.
use muadib.Prelude.{
  ℕ, arith, ◌≡◌, refl, Bool, true, false, Option, none, some, if_elim, panic, is_inner, stops_by,
  buffer_too_large, lt→ltb, ltb, ◌<◌, ◌^◌, done, if◌then◌else◌,
}
use mathlib.Core.Path.{subst}
use muadib.Prelude.Bytes.{Bytes, IsU32}
use muadib.Interface.Os.{Os}
use muadib.Interface.Ring.{Ring}
use muadib.Message.{AdbHeader, wrte}
use muadib.Sync.{SyncResponse}
use muadib.Sync.Sender.{FileSender, next_frame}
use muadib.Sync.Service.{SyncService, SyncState, idle, sending, receiving}
use muadib.Stream.{
  Service, sync_service, shell_service, reboot_service, forward_service, Stream, get,
}
use muadib.Stream.Ids.{IsTable}
use muadib.Stream.Fit.{IsFitService}
use muadib.Shell
use muadib.Forward
use muadib.Stream.Lives.{synced-IsLater, same_service-IsLater}
use muadib.Sync.Fit.{next_frame-stops_by}
use muadib.UserData.{pty_read, socket_read}
use muadib.Conn.{Conn}
use muadib.Conn.Continue
use muadib.Conn.Continue.{put_stream}
use muadib.Conn.Tidy.{Tidy, Tidy-refl, Tidy-trans, Tidy-world, Tidy-put}
use muadib.Conn.Keeps.{
  Keeps, Keeps-after, Keeps-bind_value, Keeps-header, Keeps-id, Keeps-with_stream, push-Keeps,
  submit_message-Keeps, Keeps-more,
}

-- A buffer whose capacity is a `u32`.
buffer_fits :
    (n : ℕ)
    → n < 2 ^ 32
    → stops_by is_inner (if ltb n (2 ^ 32) then done n else panic buffer_too_large) ≡ false
buffer_fits n h = rw (lt→ltb n (2 ^ 32) h) refl

module _ (ring : Ring) {os : Os} where
  stream_id-IsU32 :
      (k : ℕ) (s : Stream os) (c : Conn os)
      → get os c.streams k ≡ some s
      → IsTable os c.streams
      → IsU32 k
  stream_id-IsU32 k s c e t = omega (arith, t.below k s e, t.bounded)

  pty_read_of-Keeps :
      (svc : Service os) (waiting : Bool) (k : ℕ) (s : Stream os) (c : Conn os)
      → s.service ≡ svc
      → get os c.streams k ≡ some s
      → Keeps ring 1 c (Continue.pty_read_of ring svc waiting k c)
  unfolding Continue.pty_read_of
  pty_read_of-Keeps (shell_service f) true k s c p e = Tidy-refl c
  pty_read_of-Keeps (shell_service f) false k s c p e =
      Keeps-bind_value ring 1 c (Shell.read_buf_capacity os f) _
        (λ _ _ fit. buffer_fits f.capacity (subst IsFitService p (fit k s e)))
        (λ len _.
          Keeps-id ring 1 c k _ (λ t. (t.below k s e).0)
            (λ pos.
              push-Keeps ring _ (record { op_type = pty_read; id = some k }) c refl refl refl refl
                refl (λ t. (refl, (pos, stream_id-IsU32 k s c e t)))))
  pty_read_of-Keeps _ waiting k s c p e = Tidy-refl c

  socket_read_of-Keeps :
      (svc : Service os) (waiting : Bool) (k : ℕ) (s : Stream os) (c : Conn os)
      → s.service ≡ svc
      → get os c.streams k ≡ some s
      → Keeps ring 1 c (Continue.socket_read_of ring svc waiting k c)
  unfolding Continue.socket_read_of
  socket_read_of-Keeps (forward_service f) true k s c p e = Tidy-refl c
  socket_read_of-Keeps (forward_service f) false k s c p e =
      Keeps-bind_value ring 1 c (Forward.read_buf_capacity os f) _
        (λ _ _ fit. buffer_fits f.capacity (subst IsFitService p (fit k s e)))
        (λ len _.
          Keeps-id ring 1 c k _ (λ t. (t.below k s e).0)
            (λ pos.
              push-Keeps ring _ (record { op_type = socket_read; id = some k }) c refl refl refl
                refl refl (λ t. (refl, (pos, stream_id-IsU32 k s c e t)))))
  socket_read_of-Keeps _ waiting k s c p e = Tidy-refl c

  pub maybe_submit_pty_read-Keeps :
      (k : ℕ) (c : Conn os) → Keeps ring 1 c (Continue.maybe_submit_pty_read ring k c)
  unfolding Continue.maybe_submit_pty_read
  maybe_submit_pty_read-Keeps k c =
      Keeps-with_stream ring 1 c (get os c.streams k) _ _ (Tidy-refl c)
        (λ s e. pty_read_of-Keeps s.service s.waiting_for_okay k s c refl e)

  pub maybe_submit_socket_read-Keeps :
      (k : ℕ) (c : Conn os) → Keeps ring 1 c (Continue.maybe_submit_socket_read ring k c)
  unfolding Continue.maybe_submit_socket_read
  maybe_submit_socket_read-Keeps k c =
      Keeps-with_stream ring 1 c (get os c.streams k) _ _ (Tidy-refl c)
        (λ s e. socket_read_of-Keeps s.service s.waiting_for_okay k s c refl e)

  pub submit_wrte-Keeps :
      (k r : ℕ) (payload : Bytes) (c : Conn os)
      → Keeps ring 2 c (Continue.submit_wrte ring k r payload c)
  unfolding Continue.submit_wrte
  submit_wrte-Keeps k r payload c =
      Keeps-header ring 2 c c.version wrte k r payload _
        (λ h. submit_message-Keeps ring h (some payload) c)

  sent_frame-Keeps :
      (svc : SyncService os) (k : ℕ) (s : Stream os) (c : Conn os)
      (r : Option SyncResponse × FileSender os × os.World)
      → s.service ≡ sync_service svc
      → get os c.streams k ≡ some s
      → Keeps ring 2 c (Continue.sent_frame ring k s c r)
  unfolding Continue.sent_frame
  sent_frame-Keeps svc k s c (some (hdr, payload), sender, w) p e =
      Keeps-after ring 2 _
        (Tidy-trans (Tidy-world c w) (Tidy-put _ k _ s e (synced-IsLater svc _ s _ p) (λ _. tt)))
        (submit_wrte-Keeps k s.remote_id _ _)
  sent_frame-Keeps svc k s c (none, sender, w) p e =
      Tidy-trans (Tidy-world c w) (Tidy-put _ k _ s e (synced-IsLater svc _ s _ p) (λ _. tt))

  wrte_sync_of-Keeps :
      (state : SyncState os) (svc : SyncService os) (k : ℕ) (s : Stream os) (c : Conn os)
      → s.service ≡ sync_service svc
      → get os c.streams k ≡ some s
      → Keeps ring 2 c (Continue.wrte_sync_of ring state k s c)
  unfolding Continue.wrte_sync_of
  wrte_sync_of-Keeps (sending f) svc k s c p e =
      Keeps-bind_value ring 2 c (next_frame os f c.world) _
        (λ _ _ _. next_frame-stops_by os f c.world) (λ r _. sent_frame-Keeps svc k s c r p e)
  wrte_sync_of-Keeps idle svc k s c p e = Tidy-refl c
  wrte_sync_of-Keeps (receiving r) svc k s c p e = Tidy-refl c

  wrte_sync_service-Keeps :
      (svc : Service os) (k : ℕ) (s : Stream os) (c : Conn os)
      → s.service ≡ svc
      → get os c.streams k ≡ some s
      → Keeps ring 2 c (Continue.wrte_sync_service ring svc k s c)
  unfolding Continue.wrte_sync_service
  wrte_sync_service-Keeps (sync_service f) k s c p e =
      if_elim (Keeps ring 2 c) s.waiting_for_okay (λ _. Tidy-refl c)
        (λ _. wrte_sync_of-Keeps f.state f k s c p e)
  wrte_sync_service-Keeps (shell_service f) k s c p e = Tidy-refl c
  wrte_sync_service-Keeps reboot_service k s c p e = Tidy-refl c
  wrte_sync_service-Keeps (forward_service f) k s c p e = Tidy-refl c

  pub maybe_submit_wrte_sync-Keeps :
      (k : ℕ) (c : Conn os) → Keeps ring 2 c (Continue.maybe_submit_wrte_sync ring k c)
  unfolding Continue.maybe_submit_wrte_sync
  maybe_submit_wrte_sync-Keeps k c =
      Keeps-with_stream ring 2 c (get os c.streams k) _ _ (Tidy-refl c)
        (λ s e. wrte_sync_service-Keeps s.service k s c refl e)

  continue_service-Keeps :
      (svc : Service os) (k : ℕ) (c : Conn os)
      → Keeps ring 2 c (Continue.continue_service ring svc k c)
  unfolding Continue.continue_service
  continue_service-Keeps (sync_service s) k c = maybe_submit_wrte_sync-Keeps k c
  continue_service-Keeps (shell_service s) k c =
      Keeps-more ring 1 2 c (Continue.maybe_submit_pty_read ring k c) (omega arith)
        (maybe_submit_pty_read-Keeps k c)
  continue_service-Keeps (forward_service s) k c =
      Keeps-more ring 1 2 c (Continue.maybe_submit_socket_read ring k c) (omega arith)
        (maybe_submit_socket_read-Keeps k c)
  continue_service-Keeps reboot_service k c = λ _ _ _. (refl, λ _ _. refl)

  acknowledge-Tidy :
      {n : ℕ} (k : ℕ) (o : Option (Stream os)) (c : Conn os)
      → get os c.streams k ≡ o
      → Tidy n c (Continue.acknowledge ring k o c)
  acknowledge-Tidy k none c e = Tidy-refl c
  acknowledge-Tidy k (some s) c e = Tidy-put c k _ s e (same_service-IsLater s) (λ fit. fit k s e)

  maybe_continue_stream-Keeps :
      (k : ℕ) (c : Conn os) → Keeps ring 2 c (Continue.maybe_continue_stream ring k c)
  unfolding Continue.maybe_continue_stream
  maybe_continue_stream-Keeps k c =
      Keeps-with_stream ring 2 c (get os c.streams k) _ _ (Tidy-refl c)
        (λ s _. continue_service-Keeps s.service k c)

  pub handle_command_okay-Keeps :
      (h : AdbHeader) (c : Conn os) → Keeps ring 2 c (Continue.handle_command_okay ring h c)
  unfolding Continue.handle_command_okay
  handle_command_okay-Keeps h c =
      Keeps-after ring 2 _ (acknowledge-Tidy h.arg1 _ c refl) (maybe_continue_stream-Keeps h.arg1 _)
