-- ===== src/Sync/Session.antt =====
-- Proofs about `SyncService::handle` of src/sync.rs: a push from its request to its answer.
use muadib.Prelude.{
  ℕ, ◌≡◌, refl, sym, ◌∙◌, ap, Option, none, some, List, [], ◌∷◌, ◌++◌, length, ◌<◌, false, All, inl,
  inr, Outcome, done, panic, ◌>>=◌, ok, bytes,
}
use muadib.Prelude.Bytes.{Bytes, IsU32}
use muadib.Interface.Winnow
use muadib.Interface.Winnow.{Winnow}
use muadib.Interface.Os.{Os, IsPosix}
use muadib.Sync.{
  recv_v1_request, fail_response, SyncPacket, parse_sync_packet, SyncResponse, okay_response,
  send_v1_request, SyncResult, stat_result, data_result, continue_result, quit_result,
}
use muadib.Sync.Requests.{Encodes, parse_sync_packet-Encodes}
use muadib.Sync.Receiver.{
  FileReceiver, FileReceiverResult, done_result, continue_receiving, header, receive,
}
use muadib.Sync.Receiver.Rounds.{receive-nil}
use muadib.Sync.Receiver.Feed.{Seen, seen, feed}
use muadib.Sync.Receiver.Push.{concat, push_bytes, IsChunk, feed-push_bytes}
use muadib.Sync.Receiver.Left.{feeds, then_waits, feeds-concat}
use muadib.Sync.Sender.{FileSender}
use muadib.Sync.Pull.{Reads, frames, frames_of, frames-Reads}
use muadib.Sync.Service.{
  sending, handle_recv_v1, SyncService, receiving, new_sync, handle, after_receive,
  receive_leftover, after_leftover, handle_send_v1, handle_request, handle_packet, Handled, answer,
}

module _ (w : Winnow) (os : Os) where
  abbrev pub Exchanged : Type 0
  Exchanged = Outcome (Option SyncResponse × SyncService os × os.World)

  abbrev pub then_payloads :
      (SyncService os → os.World → Exchanged) → SyncResult × SyncService os × os.World → Exchanged
  then_payloads go (continue_result, s, world) = go s world
  then_payloads go (data_result hdr data', s, world) = done (some (hdr, data'), s, world)
  then_payloads go (stat_result stat, s, world) = done (none, s, world)
  then_payloads go (quit_result, s, world) = done (none, s, world)

  -- WRTE payloads to the service, up to the first that it answers with a frame.
  unfoldable pub exchange : List Bytes → SyncService os → os.World → Exchanged
  unfolding handle
  exchange [] s world = done (none, s, world)
  exchange (p ∷ ps) s world = handle w os s p world >>= then_payloads (exchange ps)

  abbrev pub waits_with : FileReceiver os → SyncService os
  waits_with r = record { state = receiving r }

  abbrev shown : Seen w os → Exchanged
  shown (inl (frame, world)) = done (some frame, new_sync, world)
  shown (inr (r, world)) = done (none, waits_with r, world)

  then_shown :
      (ps : List Bytes) (m : Outcome (FileReceiverResult × FileReceiver os × os.World))
      → ((r : FileReceiver os) (world : os.World)
          → exchange ps (waits_with r) world ≡ (feeds w os ps r world >>= shown))
      → (m >>= after_receive w os >>= then_payloads (exchange ps))
        ≡ (seen w os m >>= then_waits w os (feeds w os ps) >>= shown)
  then_shown ps (done (done_result frame, r, world)) ih = refl
  then_shown ps (done (continue_receiving, r, world)) ih = ih r world
  then_shown ps (panic why) ih = refl

  exchange-waits_with :
      (ps : List Bytes) (r : FileReceiver os) (world : os.World)
      → exchange ps (waits_with r) world ≡ (feeds w os ps r world >>= shown)
  unfolding exchange handle feeds feed
  exchange-waits_with [] r world = refl
  exchange-waits_with (p ∷ ps) r world =
      then_shown ps (receive w os r world p) (exchange-waits_with ps)

  leftover_lem :
      (m : Outcome (FileReceiverResult × FileReceiver os × os.World))
      → (m >>= after_leftover w os new_sync) ≡ (m >>= after_receive w os)
  leftover_lem (done (done_result frame, r, world)) = refl
  leftover_lem (done (continue_receiving, r, world)) = refl
  leftover_lem (panic why) = refl

  receive_leftover-handle :
      (r : FileReceiver os) (world : os.World) (a : Bytes)
      → receive_leftover w os new_sync r world a ≡ handle w os (waits_with r) a world
  unfolding handle
  receive_leftover-handle r world [] =
      sym (ap (λ m. m >>= after_receive w os) (receive-nil w os r world))
  receive_leftover-handle r world (b ∷ bs) = leftover_lem (receive w os r world (b ∷ bs))

  -- What `handle` makes of a request that was read.
  abbrev pub of_request : SyncService os → os.World → Option (SyncPacket × Bytes) → Handled w os
  of_request s world parsed = elim parsed [
    | none ↦ do frame ← fail_response (bytes "invalid sync request"); answer w os frame s world
    | some (packet, rest) ↦ handle_packet w os s packet rest world
  ]

  pub handle-new_sync :
      (data' : Bytes) (world : os.World)
      → handle w os new_sync data' world ≡ of_request new_sync world (parse_sync_packet w data')
  unfolding handle handle_request
  handle-new_sync data' world = refl

  handle-send :
      (doc : Winnow.IsDocumented w) (path i a : Bytes) (mode : ℕ) (file : os.Fd)
      (world w0 : os.World)
      → Encodes (send_v1_request path mode) i
      → os.file_create path world ≡ (ok file, w0)
      → handle w os new_sync (i ++ a) world
        ≡ handle w os
            (waits_with (record { file = file; path = path; mode = mode; state = header }))
            a
            w0
  handle-send doc path i a mode file world w0 enc made =
      let r : FileReceiver os = record { file = file; path = path; mode = mode; state = header } in
      let asked : handle_packet w os new_sync (send_v1_request path mode) a world
          ≡ receive_leftover w os new_sync r w0 a =
        unfold handle_packet handle_send_v1 in rw made refl in
      handle-new_sync (i ++ a) world
      ∙ ap (of_request new_sync world)
          (parse_sync_packet-Encodes w doc (send_v1_request path mode) i a enc)
      ∙ asked
      ∙ receive_leftover-handle r w0 a

  -- With parsers that do what winnow documents and over a file that is written in order, from the
  -- request of a push to its answer, with chunks that are not empty and have `u32` lengths and a
  -- `u32` for mtime: when the file is created and takes the chunks' bytes and then the mode, the
  -- payloads, in however many pieces the frames behind the request come, are answered with OKAY and
  -- nothing before it, exactly these bytes are written, the mode is set behind them and the mtime
  -- last, and the service is idle.
  pub exchange-push :
      (doc : Winnow.IsDocumented w) (posix : IsPosix os) (path i a : Bytes) (mode mtime : ℕ)
      (ps chunks : List Bytes) (file : os.Fd) (world w0 w1 w2 : os.World)
      → Encodes (send_v1_request path mode) i
      → concat (a ∷ ps) ≡ push_bytes chunks mtime
      → All IsChunk chunks
      → IsU32 mtime
      → os.file_create path world ≡ (ok file, w0)
      → os.write_all file (concat chunks) w0 ≡ (ok tt, w1)
      → os.set_permissions file mode w1 ≡ (ok tt, w2)
      → exchange ((i ++ a) ∷ ps) new_sync world
        ≡ done (some okay_response, new_sync, (os.set_times file mtime w2).1)
  unfolding exchange
  exchange-push doc posix path i a mode mtime ps chunks file world w0 w1 w2 enc cut all m made
        written moded =
      let r : FileReceiver os = record { file = file; path = path; mode = mode; state = header } in
      let started : handle w os new_sync (i ++ a) world ≡ handle w os (waits_with r) a w0 =
        handle-send doc path i a mode file world w0 enc made in
      ap (λ x. x >>= then_payloads (exchange ps)) started
      ∙ exchange-waits_with (a ∷ ps) r w0
      ∙ ap (λ x. x >>= shown)
          (feeds-concat w os posix (a ∷ ps) r w0 tt
            ∙ ap (feed w os r w0) cut
            ∙ feed-push_bytes w doc os posix r chunks mtime w0 w1 w2 all m written moded)

  -- With parsers that do what winnow documents and over a file whose reads fill at most the buffer:
  -- a RECV request to an idle service for a path that can be opened puts the service into sending,
  -- and when the file is read to its end without an error, the calls of next_frame, at most n of
  -- them for any n above the number of pieces read, give a DATA frame for each piece, of its bytes
  -- and length, and one DONE.
  pub handle-pull :
      (doc : Winnow.IsDocumented w) (posix : IsPosix os) (n : ℕ) (path i rest : Bytes)
      (file : os.Fd) (pieces : List Bytes) (world w0 w1 : os.World)
      → Encodes (recv_v1_request path) i
      → os.file_open path world ≡ (ok file, w0)
      → Reads os file w0 pieces w1
      → length pieces < n
      → (f : FileSender os) × (handle w os new_sync (i ++ rest) world
          ≡ done (continue_result, record { state = sending f }, w0))
        × (frames os n f w0 ≡ done (frames_of pieces, w1))
  handle-pull doc posix n path i rest file pieces world w0 w1 enc opened read enough =
      let f : FileSender os = record { file = file; is_done = false } in
      let asked : handle_packet w os new_sync (recv_v1_request path) rest world
          ≡ done (continue_result, record { state = sending f }, w0) =
        unfold handle_packet handle_recv_v1 in rw opened refl in
      (
        f,
        handle-new_sync (i ++ rest) world
            ∙ ap (of_request new_sync world)
                (parse_sync_packet-Encodes w doc (recv_v1_request path) i rest enc)
            ∙ asked,
        frames-Reads os posix n file pieces w0 w1 read enough,
      )
