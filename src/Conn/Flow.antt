-- ===== src/Conn/Flow.antt =====
-- Proofs about the flow control of src/main.rs: streams that wait for OKAY.
pub mod Once
use muadib.Prelude.{
  ℕ, ◌≡◌, refl, sym, ◌∙◌, ap, Bool, true, false, Option, none, some, if_elim, if◌then◌else◌,
  Outcome, done, panic, ◌>>=◌, ◌⊎◌, inl, inr, ==_self, Bool-cases,
}
use mathlib.Core.Path.{subst}
use muadib.Prelude.Bytes.{Bytes}
use muadib.Interface.Winnow.{Winnow}
use muadib.Interface.Os.{Os}
use muadib.Interface.Ring.{Ring, Sqe}
use muadib.Conn.Commands.{submit_okay}
use muadib.Message.{okay_header, AdbHeader, header_bytes, DeviceInfo, wrte_header}
use muadib.Buffers.{BufferManager, alloc_with}
use muadib.Sync.{SyncResponse, response_header_bytes}
use muadib.Sync.Sender.{FileSender, next_frame}
use muadib.Sync.Service.{SyncState, SyncService, idle, sending, receiving}
use muadib.Stream.{
  Service, sync_service, shell_service, reboot_service, forward_service, Stream, get, put,
}
use muadib.Stream.Ids.{get-put}
use muadib.UserData.{non_zero}
use muadib.Conn.{
  Conn, expect_id, push, write_sqe, submit_write, filter_payload, submit_filtered, submit_message,
}
use muadib.Conn.Continue
use muadib.Conn.Continue.{put_stream, maybe_continue_stream, submit_wrte}
use muadib.Conn.Events

-- The streams stay as they are, unless it panics.
abbrev pub SameStreams : {os : Os} → Conn os → Outcome (Conn os) → Type 0
SameStreams c (done c') = c'.streams ≡ c.streams
SameStreams c (panic why) = Unit

-- A stream of the sync service, in any state.
abbrev pub sync_stream : {os : Os} → ℕ → SyncState os → Bool → Bool → Stream os
sync_stream remote_id state waiting closed = record {
  remote_id = remote_id;
  service = sync_service (record { state = state });
  waiting_for_okay = waiting;
  remote_closed = closed;
}

module _ (ring : Ring) {os : Os} where
  pub SameStreams-bind :
      {A : Type 0} (c : Conn os) (m : Outcome A) (f : A → Outcome (Conn os))
      → ((a : A) → SameStreams c (f a))
      → SameStreams c (m >>= f)
  SameStreams-bind c (done a) f k = k a
  SameStreams-bind c (panic why) f k = tt

  SameStreams-then :
      (c : Conn os) (m : Outcome (Conn os)) (f : Conn os → Outcome (Conn os))
      → SameStreams c m
      → ((d : Conn os) → SameStreams d (f d))
      → SameStreams c (m >>= f)
  SameStreams-then c (done d) f p k = after (f d) (k d)
    where
      after : (r : Outcome (Conn os)) → SameStreams d r → SameStreams c r
      after (done e) q = q ∙ p
      after (panic why) q = tt
  SameStreams-then c (panic why) f p k = tt

  push-SameStreams :
      (e : Sqe) (c : Conn os) (m : BufferManager)
      → SameStreams c (push ring e (record c { buffers = m }))
  unfolding push
  push-SameStreams e c m =
      if_elim (SameStreams c) (ring.is_full c.queue) {x = panic _} (λ _. tt) (λ _. refl)

  submit_write-SameStreams :
      (content : Bytes) (linked : Bool) (c : Conn os)
      → SameStreams c (submit_write ring content linked c)
  unfolding submit_write
  submit_write-SameStreams content linked c =
      SameStreams-bind c (alloc_with content c.buffers) _
        (λ a. SameStreams-bind c (expect_id (non_zero a.0)) _ (λ id. push-SameStreams _ c a.1))

  pub submit_filtered-SameStreams :
      (h : AdbHeader) (p : Option Bytes) (c : Conn os) → SameStreams c (submit_filtered ring h p c)
  submit_filtered-SameStreams h none c = submit_write-SameStreams (header_bytes h) false c
  submit_filtered-SameStreams h (some p) c =
      SameStreams-then c (submit_write ring (header_bytes h) true c) _
        (submit_write-SameStreams (header_bytes h) true c) (λ d. submit_write-SameStreams p false d)

  submit_wrte-SameStreams :
      (k r : ℕ) (p : Bytes) (c : Conn os) → SameStreams c (submit_wrte ring k r p c)
  unfolding submit_wrte submit_message
  submit_wrte-SameStreams k r p c =
      SameStreams-bind c (wrte_header c.version k r p) _
        (λ h. submit_filtered-SameStreams h (filter_payload (some p)) c)

  abbrev pub is_reboot : Service os → Bool
  is_reboot reboot_service = true
  is_reboot _ = false

  quiet_service :
      (svc : Service os) (k : ℕ) (s : Stream os) (c : Conn os)
      → get os c.streams k ≡ some s
      → s.service ≡ svc
      → s.waiting_for_okay ≡ true
      → is_reboot svc ≡ false
      → Continue.continue_service ring svc k c ≡ done c
  unfolding Continue.continue_service Continue.maybe_submit_wrte_sync Continue.wrte_sync_service
      Continue.maybe_submit_pty_read Continue.pty_read_of Continue.maybe_submit_socket_read
      Continue.socket_read_of
  quiet_service (sync_service f) k s c e es ew r = rw (e, es, ew) refl
  quiet_service (shell_service f) k s c e es ew r = rw (e, es, ew) refl
  quiet_service (forward_service f) k s c e es ew r = rw (e, es, ew) refl
  quiet_service reboot_service k s c e es ew r = absurd (cc)

  -- A stream that waits does nothing.
  quiet :
      (k : ℕ) (s : Stream os) (c : Conn os)
      → get os c.streams k ≡ some s
      → s.waiting_for_okay ≡ true
      → is_reboot s.service ≡ false
      → maybe_continue_stream ring k c ≡ done c
  unfolding maybe_continue_stream
  quiet k s c e ew r = rw e (quiet_service s.service k s c e refl ew r)

  get-put_stream :
      (k : ℕ) (s : Stream os) (c : Conn os) → get os (put_stream k s c).streams k ≡ some s
  get-put_stream k s c = get-put os c.streams k k s ∙ rw (==_self k) refl

  pub submit_okay-SameStreams :
      (w : Winnow) (k r : ℕ) (c : Conn os) → SameStreams c (submit_okay w ring k r c)
  unfolding submit_okay submit_message
  submit_okay-SameStreams w k r c =
      SameStreams-bind c (okay_header c.version k r) _
        (λ h. submit_filtered-SameStreams h (filter_payload none) c)

  -- A WRTE on a stream that is marked first.
  pub sent-quiet :
      (k r : ℕ) (p : Bytes) (s : Stream os) (c c' : Conn os)
      → s.waiting_for_okay ≡ true
      → is_reboot s.service ≡ false
      → submit_wrte ring k r p (put_stream k s c) ≡ done c'
      → maybe_continue_stream ring k c' ≡ done c'
  sent-quiet k r p s c c' ew er h =
      let same : c'.streams ≡ (put_stream k s c).streams =
        subst (SameStreams (put_stream k s c)) h
          (submit_wrte-SameStreams k r p (put_stream k s c)) in
      quiet k s c' (ap (λ m. get os m k) same ∙ get-put_stream k s c) ew er
