-- ===== src/Conn/Flow/Once.antt =====
-- Proofs about src/main.rs: a stream that has sent a message and has had no OKAY since.
use muadib.Prelude.{
  ℕ, ◌≡◌, refl, sym, ap, Bool, true, false, Option, none, some, Outcome, done, panic, bind-eq-done,
  take, ◌++◌, ◌∙◌, if◌then◌else◌,
}
use mathlib.Core.Path.{subst}
use muadib.Prelude.Bytes.{Bytes}
use muadib.Interface.Winnow.{Winnow}
use muadib.Interface.Os.{Os}
use muadib.Interface.Ring.{Ring}
use muadib.Message.{DeviceInfo}
use muadib.Sync.{SyncResponse, response_header_bytes}
use muadib.Sync.Sender.{FileSender, next_frame}
use muadib.Sync.Service.{SyncState, idle, sending, receiving}
use muadib.Stream.{Service, sync_service, shell_service, reboot_service, forward_service, get}
use muadib.Forward.{ForwardService}
use muadib.Shell.{ShellService}
use muadib.Conn.{Conn}
use muadib.Conn.Continue
use muadib.Conn.Continue.{put_stream, maybe_continue_stream}
use muadib.Conn.Events
use muadib.Conn.Flow.{sync_stream, sent-quiet, get-put_stream}

module _ (ring : Ring) {os : Os} where
  -- What continuing a sync stream comes to.
  continue-sync_stream :
      (k r : ℕ) (state : SyncState os) (waiting closed : Bool) (c : Conn os)
      → get os c.streams k ≡ some (sync_stream r state waiting closed)
      → maybe_continue_stream ring k c ≡ (
          if waiting
          then done c
          else Continue.wrte_sync_of ring state k (sync_stream r state waiting closed) c)
  unfolding maybe_continue_stream Continue.continue_service Continue.maybe_submit_wrte_sync
      Continue.wrte_sync_service
  continue-sync_stream k r state waiting closed c e = rw (e, e) refl

  -- A sync stream does nothing if its state has nothing to send.
  still :
      (k r : ℕ) (state : SyncState os) (waiting closed : Bool) (c : Conn os)
      → get os c.streams k ≡ some (sync_stream r state waiting closed)
      → Continue.wrte_sync_of ring state k (sync_stream r state waiting closed) c ≡ done c
      → maybe_continue_stream ring k c ≡ done c
  still k r state true closed c e nothing = continue-sync_stream k r state true closed c e
  still k r state false closed c e nothing =
      continue-sync_stream k r state false closed c e ∙ nothing

  still_idle :
      (k r : ℕ) (waiting closed : Bool) (c : Conn os)
      → get os c.streams k ≡ some (sync_stream r idle waiting closed)
      → maybe_continue_stream ring k c ≡ done c
  unfolding Continue.wrte_sync_of
  still_idle k r waiting closed c e = still k r idle waiting closed c e refl

  conn_of : Conn os → Outcome (Conn os) → Conn os
  conn_of c (done d) = d
  conn_of c (panic why) = c

  same_conn : (c d : Conn os) → done c ≡ done d → c ≡ d
  unfolding conn_of
  same_conn c d h = ap (λ m. conn_of c m) h

  moved :
      (k : ℕ) (c d : Conn os)
      → done c ≡ done d
      → maybe_continue_stream ring k c ≡ done c
      → maybe_continue_stream ring k d ≡ done d
  moved k c d h q = subst (λ x. maybe_continue_stream ring k x ≡ done x) (same_conn c d h) q

  sent_frame-once :
      (k r : ℕ) (state : SyncState os) (waiting closed : Bool) (c d : Conn os)
      → (sent : Option SyncResponse × FileSender os × os.World)
      → Continue.sent_frame ring k (sync_stream r state waiting closed) c sent ≡ done d
      → maybe_continue_stream ring k d ≡ done d
  unfolding Continue.sent_frame
  sent_frame-once k r state waiting closed c d (some (hdr, payload), sender, w) h =
      sent-quiet ring k r (response_header_bytes hdr ++ payload)
        (sync_stream r (sending sender) true closed) (record c { world = w }) d refl refl h
  sent_frame-once k r state waiting closed c d (none, sender, w) h =
      moved k _ d h
        (still_idle k r waiting closed _ (get-put_stream ring k _ (record c { world = w })))

  wrte_sync_of-once :
      (k r : ℕ) (state : SyncState os) (waiting closed : Bool) (c d : Conn os)
      → get os c.streams k ≡ some (sync_stream r state waiting closed)
      → Continue.wrte_sync_of ring state k (sync_stream r state waiting closed) c ≡ done d
      → maybe_continue_stream ring k d ≡ done d
  unfolding Continue.wrte_sync_of
  wrte_sync_of-once k r idle waiting closed c d e h =
      moved k c d h (still k r idle waiting closed c e refl)
  wrte_sync_of-once k r (receiving f) waiting closed c d e h =
      moved k c d h (still k r (receiving f) waiting closed c e refl)
  wrte_sync_of-once k r (sending f) waiting closed c d e h =
      let (sent, _, then_sent) = bind-eq-done (next_frame os f c.world) _ h in
      sent_frame-once k r (sending f) waiting closed c d sent then_sent

  -- For an open stream of the sync service in any state: when continuing it does not panic,
  -- continuing it once more before another OKAY submits nothing and changes nothing.
  pub maybe_continue_stream-once :
      (k r : ℕ) (state : SyncState os) (waiting closed : Bool) (c d : Conn os)
      → get os c.streams k ≡ some (sync_stream r state waiting closed)
      → maybe_continue_stream ring k c ≡ done d
      → maybe_continue_stream ring k d ≡ done d
  maybe_continue_stream-once k r state true closed c d e h =
      let waits : maybe_continue_stream ring k c ≡ done c =
        continue-sync_stream k r state true closed c e in
      moved k c d (sym waits ∙ h) waits
  maybe_continue_stream-once k r state false closed c d e h =
      wrte_sync_of-once k r state false closed c d e
        (sym (continue-sync_stream k r state false closed c e) ∙ h)

module _ (w : Winnow) (ring : Ring) (os : Os) (ep0 : os.Fd) (info : DeviceInfo) where
  -- When bytes of an open shell stream are sent to the host, continuing the stream before another
  -- OKAY submits nothing and changes nothing.
  pub pty_data-once :
      (k r : ℕ) (shell : ShellService os) (waiting closed : Bool) (len : ℕ) (buffer : Bytes)
      (c d : Conn os)
      → get os c.streams k
        ≡ some (record {
          remote_id = r;
          service = shell_service shell;
          waiting_for_okay = waiting;
          remote_closed = closed;
        })
      → Events.pty_data w ring os ep0 info k len buffer c ≡ done d
      → maybe_continue_stream ring k d ≡ done d
  pty_data-once k r shell waiting closed len buffer c d e h =
      sent-quiet ring k r (take len buffer)
        (record {
          remote_id = r;
          service = shell_service shell;
          waiting_for_okay = true;
          remote_closed = closed;
        })
        c d refl refl (unfold Events.pty_data Events.pty_data_of in rw e at h)

  socket_data-once :
      (k r : ℕ) (socket : ForwardService os) (waiting closed : Bool) (len : ℕ) (buffer : Bytes)
      (c d : Conn os)
      → get os c.streams k
        ≡ some (record {
          remote_id = r;
          service = forward_service socket;
          waiting_for_okay = waiting;
          remote_closed = closed;
        })
      → Events.socket_data w ring os ep0 info k len buffer c ≡ done d
      → maybe_continue_stream ring k d ≡ done d
  socket_data-once k r socket waiting closed len buffer c d e h =
      sent-quiet ring k r (take len buffer)
        (record {
          remote_id = r;
          service = forward_service socket;
          waiting_for_okay = true;
          remote_closed = closed;
        })
        c d refl refl (unfold Events.socket_data Events.socket_data_of in rw e at h)

  -- A service whose reads are relayed to the host, and what `run` does with the bytes of one.
  abbrev pub is_relay : Service os → Bool
  is_relay (shell_service f) = true
  is_relay (forward_service f) = true
  is_relay (sync_service f) = false
  is_relay reboot_service = false

  abbrev pub relay : Service os → ℕ → ℕ → Bytes → Conn os → Outcome (Conn os)
  relay (shell_service f) k len buffer c = Events.pty_data w ring os ep0 info k len buffer c
  relay (forward_service f) k len buffer c = Events.socket_data w ring os ep0 info k len buffer c
  relay (sync_service f) k len buffer c = done c
  relay reboot_service k len buffer c = done c

  -- When bytes that a shell or a forwarded socket gave are sent to the host on its open stream,
  -- continuing the stream before another OKAY submits nothing and changes nothing.
  pub relay-once :
      (k r : ℕ) (svc : Service os) (waiting closed : Bool) (len : ℕ) (buffer : Bytes)
      (c d : Conn os)
      → is_relay svc ≡ true
      → get os c.streams k
        ≡ some (record {
          remote_id = r;
          service = svc;
          waiting_for_okay = waiting;
          remote_closed = closed;
        })
      → relay svc k len buffer c ≡ done d
      → maybe_continue_stream ring k d ≡ done d
  relay-once k r (shell_service f) waiting closed len buffer c d i e h =
      pty_data-once k r f waiting closed len buffer c d e h
  relay-once k r (forward_service f) waiting closed len buffer c d i e h =
      socket_data-once k r f waiting closed len buffer c d e h
  relay-once k r (sync_service f) waiting closed len buffer c d i e h = absurd (cc)
  relay-once k r reboot_service waiting closed len buffer c d i e h = absurd (cc)
