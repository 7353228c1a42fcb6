-- ===== src/Sync/Fit.antt =====
-- Proofs about the sync service of src/sync.rs: which states it can be in, and which panics its
-- steps can end in.
use muadib.Prelude.{
  ℕ, ◌≡◌, refl, Bool, true, false, none, some, if_elim, is_empty, ltb, ◌^◌, Outcome, done, panic,
  stops_by, stops_by-bind, is_inner, stat_too_large, stat_mtime_range, ◌>>=◌, bytes, Option,
}
use muadib.Prelude.Bytes.{Bytes}
use muadib.Interface.Winnow.{Winnow}
use muadib.Interface.Os.{Os, on_result_elim, Metadata, ℤ, pos, negsuc}
use muadib.Sync.{
  SyncPacket, lstat_v1_request, recv_v1_request, send_v1_request, quit_request, parse_sync_packet,
  SyncResponse, fail_response, data_response, payload_size_max_bytes, fail_response_id,
  data_response_id,
}
use muadib.Sync.Sender.{FileSender, Sent, next_frame_at, next_frame}
use muadib.Sync.Receiver.{FileReceiver, done_result, continue_receiving, Received, receive}
use muadib.Sync.Receiver.Rounds.{IsRecvState}
use muadib.Sync.Receiver.Feed.{seen, feed}
use muadib.Sync.Receiver.Ends.{response-stops_by, receive-stops_by}
use muadib.Sync.Receiver.Left.{IsLeft, feed-IsLeft}
use muadib.Sync.Service.{
  SyncState, idle, sending, receiving, SyncService, Handled, answer, size_u32, mtime_u32, stat_of,
  handle_lstat_v1, handle_recv_v1, handle_send_v1, after_leftover, handle_packet, handle_request,
  after_receive, handle_in, handle,
}

-- The receiver of a push is in a state that a receiver can be in.
abbrev pub IsFitState : {os : Os} → SyncState os → Type 0
IsFitState idle = Unit
IsFitState (sending f) = Unit
IsFitState (receiving r) = IsRecvState r.state

module _ (w : Winnow) (os : Os) where
  -- A step of the service leaves a fit state, and no panic of the daemon's own ends it.
  abbrev pub IsStep : Handled w os → Type 0
  IsStep (done (result, svc, world)) = IsFitState svc.state
  IsStep (panic why) = is_inner why ≡ false

  pub IsStep-stops_by : (m : Handled w os) → IsStep m → stops_by is_inner m ≡ false
  IsStep-stops_by (done (result, svc, world)) h = refl
  IsStep-stops_by (panic why) h = h

  abbrev IsTaken : Received w os → Type 0
  IsTaken (done (continue_receiving, r, world)) = IsRecvState r.state
  IsTaken (done (done_result frame, r, world)) = Unit
  IsTaken (panic why) = is_inner why ≡ false

  is_taken :
      (x : Received w os) → IsLeft w os (seen w os x) → stops_by is_inner x ≡ false → IsTaken x
  is_taken (done (continue_receiving, r, world)) l s = l
  is_taken (done (done_result frame, r, world)) l s = tt
  is_taken (panic why) l s = s

  receive-IsTaken :
      (r : FileReceiver os) (world : os.World) (data' : Bytes)
      → IsRecvState r.state
      → IsTaken (receive w os r world data')
  receive-IsTaken r world data' v =
      is_taken (receive w os r world data') (unfold feed in feed-IsLeft w os r world data' v)
        (receive-stops_by w os is_inner refl r world data' v)

  -- An answer leaves the service as it was.
  failed-IsStep :
      (msg : Bytes) (s : SyncService os) (world : os.World)
      → IsFitState s.state
      → IsStep (fail_response msg >>= λ frame. answer w os frame s world)
  failed-IsStep msg s world fit =
      answered (fail_response msg) (response-stops_by is_inner fail_response_id msg refl)
    where
      answered :
          (m : Outcome SyncResponse)
          → stops_by is_inner m ≡ false
          → IsStep (m >>= λ frame. answer w os frame s world)
      answered (done frame) h = fit
      answered (panic why) h = h

  lstat-IsStep :
      (s : SyncService os) (meta : Metadata) (world : os.World)
      → IsFitState s.state
      → IsStep (do
        size ← size_u32 meta.size
        mtime ← mtime_u32 meta.mtime
        done (stat_of meta.mode size mtime, s, world))
  lstat-IsStep s meta world fit = sized (size_u32 meta.size) (
      if_elim (λ (m : Outcome ℕ). stops_by is_inner m ≡ false) (ltb meta.size (2 ^ 32))
        {y = panic stat_too_large} (λ _. refl) (λ _. refl))
    where
      timed :
          (t : ℤ) (size : ℕ)
          → IsStep (mtime_u32 t >>= λ mtime. done (stat_of meta.mode size mtime, s, world))
      timed (pos t) size =
          if_elim (λ (m : Outcome ℕ). IsStep (m >>= λ x. done (stat_of meta.mode size x, s, world)))
            (ltb t (2 ^ 32)) {y = panic stat_mtime_range} (λ _. fit) (λ _. refl)
      timed (negsuc t) size = refl

      sized :
          (m : Outcome ℕ)
          → stops_by is_inner m ≡ false
          → IsStep (do
            size ← m
            mtime ← mtime_u32 meta.mtime
            done (stat_of meta.mode size mtime, s, world))
      sized (done size) h = timed meta.mtime size
      sized (panic why) h = h

  after_leftover-IsStep :
      (s : SyncService os) (x : Received w os)
      → IsFitState s.state
      → IsTaken x
      → IsStep (x >>= after_leftover w os s)
  after_leftover-IsStep s (done (continue_receiving, r, world)) fit t = t
  after_leftover-IsStep s (done (done_result frame, r, world)) fit t = fit
  after_leftover-IsStep s (panic why) fit t = t

  after_receive-IsStep : (x : Received w os) → IsTaken x → IsStep (x >>= after_receive w os)
  after_receive-IsStep (done (continue_receiving, r, world)) t = t
  after_receive-IsStep (done (done_result frame, r, world)) t = tt
  after_receive-IsStep (panic why) t = t

  handle_packet-IsStep :
      (s : SyncService os) (p : SyncPacket) (rest : Bytes) (world : os.World)
      → IsFitState s.state
      → IsStep (handle_packet w os s p rest world)
  unfolding handle_packet handle_lstat_v1 handle_recv_v1 handle_send_v1
  handle_packet-IsStep s (lstat_v1_request p) rest world fit =
      on_result_elim IsStep (os.symlink_metadata p world)
        (λ meta world' _. lstat-IsStep s meta world' fit) (λ _ _ _. fit)
  handle_packet-IsStep s (recv_v1_request p) rest world fit =
      on_result_elim IsStep (os.file_open p world) (λ _ _ _. tt)
        (λ e world' _. failed-IsStep _ s world' fit)
  handle_packet-IsStep s (send_v1_request p m) rest world fit =
      on_result_elim IsStep (os.file_create p world)
        (λ file world' _.
          if_elim IsStep (is_empty rest) (λ _. tt)
            (λ _. after_leftover-IsStep s _ fit (receive-IsTaken _ world' rest tt)))
        (λ e world' _. failed-IsStep _ s world' fit)
  handle_packet-IsStep s quit_request rest world fit = fit

  handle_request-IsStep :
      (s : SyncService os) (data' : Bytes) (world : os.World)
      → IsFitState s.state
      → IsStep (handle_request w os s data' world)
  unfolding handle_request
  handle_request-IsStep s data' world fit = parsed (parse_sync_packet w data')
    where
      parsed :
          (o : Option (SyncPacket × Bytes))
          → IsStep (elim o [
            | none ↦ do
              frame ← fail_response (bytes "invalid sync request")
              answer w os frame s world
            | some (packet, rest) ↦ handle_packet w os s packet rest world
          ])
      parsed none = failed-IsStep _ s world fit
      parsed (some (packet, rest)) = handle_packet-IsStep s packet rest world fit

  handle_in-IsStep :
      (state : SyncState os) (s : SyncService os) (data' : Bytes) (world : os.World)
      → IsFitState state
      → IsFitState s.state
      → IsStep (handle_in w os state s data' world)
  unfolding handle_in
  handle_in-IsStep (receiving r) s data' world v fit =
      after_receive-IsStep _ (receive-IsTaken r world data' v)
  handle_in-IsStep idle s data' world v fit = handle_request-IsStep s data' world fit
  handle_in-IsStep (sending f) s data' world v fit = handle_request-IsStep s data' world fit

  -- Whatever the host sends, a service in a fit state goes to one, and neither runs out of fuel nor
  -- panics for a reason of its own.
  pub handle-IsStep :
      (s : SyncService os) (data' : Bytes) (world : os.World)
      → IsFitState s.state
      → IsStep (handle w os s data' world)
  unfolding handle
  handle-IsStep s data' world fit = handle_in-IsStep s.state s data' world fit fit

module _ (os : Os) where
  next_frame_at-stops_by :
      (over : Bool) (s : FileSender os) (world : os.World)
      → stops_by is_inner (next_frame_at os over s world) ≡ false
  unfolding next_frame_at
  next_frame_at-stops_by true s world = refl
  next_frame_at-stops_by false s world =
      on_result_elim (λ (m : Sent os). stops_by is_inner m ≡ false)
        (os.file_read s.file payload_size_max_bytes world)
        (λ buf world' _.
          if_elim (λ (m : Sent os). stops_by is_inner m ≡ false) (is_empty buf) (λ _. refl)
            (λ _.
              stops_by-bind is_inner (data_response buf) _
                (response-stops_by is_inner data_response_id buf refl) (λ _. refl)))
        (λ e world' _.
          stops_by-bind is_inner (fail_response _) _
            (response-stops_by is_inner fail_response_id _ refl) (λ _. refl))

  pub next_frame-stops_by :
      (s : FileSender os) (world : os.World) → stops_by is_inner (next_frame os s world) ≡ false
  unfolding next_frame
  next_frame-stops_by s world = next_frame_at-stops_by s.is_done s world
