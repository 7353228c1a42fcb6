-- ===== src/Conn/Obeyed.antt =====
-- Proofs about OPEN, WRTE and the dispatch of src/main.rs, on the accounts of `Tidy`.
use muadib.Prelude.{
  ℕ, ◌+◌, ◌^◌, ◌<◌, ◌≡◌, refl, Option, none, some, if_elim, arith, Result, ok, err, [], done, ap,
  ◌∙◌, ==_self,
}
use mathlib.Core.Path.{subst}
use muadib.Prelude.Bytes.{Bytes}
use muadib.Prelude.Text.{until_nul, is_utf8}
use muadib.Interface.Winnow.{Winnow}
use muadib.Interface.Os.{Os}
use muadib.Interface.Ring.{Ring}
use muadib.Message.{Command, cnxn, auth, opens, okay, clse, wrte, stls, AdbHeader, DeviceInfo}
use muadib.Sync.{SyncResult, stat_result, data_result, continue_result, quit_result}
use muadib.Sync.Service.{SyncService, handle}
use muadib.Forward.{forward_write_input}
use muadib.Stream.{
  Service, sync_service, shell_service, reboot_service, forward_service, Stream, StreamManager, get,
  Made, add_stream, finish_open, make_service, opens_stream, new_stream,
}
use muadib.Stream.Ids.{IsTable, add_stream-IsOpened, get-add_stream}
use muadib.Stream.Fit.{IsFit, IsFitService, IsFitMade, add_stream-IsFit, make_service-IsFitMade}
use muadib.Stream.Lives.{IsLaterTable, IsLaterTable-refl, add_stream-IsLaterTable, synced-IsLater}
use muadib.Sync.Fit.{IsFitState, IsStep, IsStep-stops_by, handle-IsStep}
use muadib.Forward.Write.{forward_write_input-Writes}
use muadib.Conn.Flow.{SameStreams, submit_okay-SameStreams}
use muadib.Conn.{Conn}
use muadib.Conn.Commands
use muadib.Conn.Handlers
use muadib.Conn.Tidy.{Tidy, Tidy-refl, Tidy-trans, Tidy-world, Tidy-put}
use muadib.Conn.Keeps.{
  Keeps, Keeps-after, Keeps-bind, Keeps-bind_value, Keeps-header, submit_message-Keeps_bare,
  Keeps-more,
}
use muadib.Conn.Kept.{
  submit_clse-Keeps, clse_and_close-Keeps, handle_command_clse-Keeps, handle_command_cnxn-Keeps,
}
use muadib.Conn.Resumed.{
  submit_wrte-Keeps, maybe_submit_pty_read-Keeps, maybe_submit_socket_read-Keeps,
  maybe_submit_wrte_sync-Keeps, handle_command_okay-Keeps,
}

module _ (w : Winnow) (ring : Ring) {os : Os} where
  submit_okay-Keeps : (k r : ℕ) (c : Conn os) → Keeps ring 1 c (Commands.submit_okay w ring k r c)
  unfolding Commands.submit_okay
  submit_okay-Keeps k r c =
      Keeps-header ring 1 c c.version okay k r [] _ (λ h. submit_message-Keeps_bare ring h c)

  submit_clse-Keeps_two : (k r : ℕ) (c : Conn os) → Keeps ring 2 c (Handlers.submit_clse ring k r c)
  submit_clse-Keeps_two k r c = Keeps-more ring 1 2 c _ (omega arith) (submit_clse-Keeps ring k r c)

  clse_and_close-Keeps_two :
      (k r : ℕ) (c : Conn os) → Keeps ring 2 c (Handlers.clse_and_close ring k r c)
  clse_and_close-Keeps_two k r c =
      Keeps-more ring 1 2 c _ (omega arith) (clse_and_close-Keeps ring k r c)

  start_service-Keeps :
      (svc : Service os) (k : ℕ) (c : Conn os)
      → Keeps ring 1 c (Commands.start_service w ring svc k c)
  unfolding Commands.start_service
  start_service-Keeps (shell_service s) k c = maybe_submit_pty_read-Keeps ring k c
  start_service-Keeps (forward_service s) k c = maybe_submit_socket_read-Keeps ring k c
  start_service-Keeps (sync_service s) k c = Tidy-refl c
  start_service-Keeps reboot_service k c = Tidy-world c _

  -- A stream that is in the table.
  start_stream-Keeps :
      (k : ℕ) (s : Stream os) (c : Conn os)
      → get os c.streams k ≡ some s
      → Keeps ring 1 c (Commands.start_stream w ring k c)
  start_stream-Keeps k s c e = rw e (start_service-Keeps s.service k c)

  abbrev with_table : Conn os → StreamManager os → os.World → Conn os
  with_table c m world = record c { streams = m; world = world }

  Tidy-open :
      {n : ℕ} (c : Conn os) (m : StreamManager os) (world : os.World)
      → (IsTable os c.streams → IsTable os m)
      → (IsFit os c.streams → IsFit os m)
      → IsLaterTable os c.streams m
      → Tidy n c (with_table c m world)
  Tidy-open {n} c m world t f l = record {
    pool = λ h. h;
    table = t;
    reads = refl;
    slots = refl;
    owned = λ _ _ pre o. o;
    asks = λ _ _. refl;
    named = λ _ _. refl;
    fits = f;
    later = l;
    free = omega arith;
    queued = omega arith;
  }

  after_open-Keeps :
      (r : ℕ) (c : Conn os) (made : Made os)
      → IsFitMade os made
      → c.streams.next_id + 1 < 2 ^ 32
      → Keeps ring 2 c (Commands.after_open w ring r c (finish_open os c.streams r made))
  unfolding Commands.after_open finish_open
  after_open-Keeps r c (none, world) fit room =
      Keeps-after ring 2 _
        (Tidy-open c c.streams world (λ h. h) (λ h. h) (IsLaterTable-refl os c.streams))
        (submit_clse-Keeps_two 0 r _)
  after_open-Keeps r c (some svc, world) fit room =
      let (k, m) = add_stream os c.streams r svc in
      let d : Conn os = with_table c m world in
      Keeps-after ring 2 _
        (Tidy-open c m world (λ h. (add_stream-IsOpened os c.streams r svc h room).is_table)
          (add_stream-IsFit os c.streams r svc fit)
          (add_stream-IsLaterTable os c.streams r svc room))
        (Keeps-bind ring 1 1 d (Commands.submit_okay w ring k r d) _ (submit_okay-Keeps k r d)
          (λ e same. start_stream-Keeps k (new_stream os r svc) e (
            ap (λ t. get os t k) (subst (SameStreams d) same (submit_okay-SameStreams ring w k r d))
            ∙ get-add_stream os c.streams r k svc
            ∙ rw (==_self c.streams.next_id) refl)))

  open_service-Keeps :
      (o : Option Bytes) (r : ℕ) (c : Conn os)
      → c.streams.next_id + 1 < 2 ^ 32
      → Keeps ring 2 c (Commands.open_service w ring o r c)
  unfolding Commands.open_service opens_stream
  open_service-Keeps none r c room = submit_clse-Keeps_two 0 r c
  open_service-Keeps (some name) r c room =
      if_elim (Keeps ring 2 c) (is_utf8 name)
        (λ _.
          after_open-Keeps r c (make_service os name c.world)
            (make_service-IsFitMade os name c.world) room)
        (λ _. submit_clse-Keeps_two 0 r c)

  after_handle-Keeps :
      (result : SyncResult) (k r : ℕ) (c : Conn os)
      → Keeps ring 2 c (Commands.after_handle w ring result k r c)
  unfolding Commands.after_handle
  after_handle-Keeps (stat_result stat) k r c = submit_wrte-Keeps ring k r _ c
  after_handle-Keeps (data_result hdr data') k r c = submit_wrte-Keeps ring k r _ c
  after_handle-Keeps continue_result k r c = maybe_submit_wrte_sync-Keeps ring k c
  after_handle-Keeps quit_result k r c = clse_and_close-Keeps_two k r c

  after_write-Keeps :
      (k : ℕ) (s : Stream os) (c : Conn os) (written : Result os.Error (Unit {0}) × os.World)
      → Keeps ring 2 c (Commands.after_write w ring k s c written)
  after_write-Keeps k s c (ok _, world) = Tidy-world c world
  after_write-Keeps k s c (err _, world) =
      Keeps-after ring 2 _ (Tidy-world c world) (clse_and_close-Keeps_two k s.remote_id _)

  -- What the sync service leaves, when its step is one.
  stepped :
      (svc next : SyncService os) (result : SyncResult) (world : os.World) (payload : Bytes)
      (c : Conn os)
      → IsFitState svc.state
      → handle w os svc payload c.world ≡ done (result, next, world)
      → IsFitState next.state
  stepped svc next result world payload c fit e =
      subst (IsStep w os) e (handle-IsStep w os svc payload c.world fit)

  wrte_service-Keeps :
      (svc : Service os) (k : ℕ) (s : Stream os) (payload : Bytes) (c : Conn os)
      → s.service ≡ svc
      → get os c.streams k ≡ some s
      → Keeps ring 2 c (Commands.wrte_service w ring svc k s payload c)
  unfolding Commands.wrte_service
  wrte_service-Keeps (sync_service svc) k s payload c p e =
      let fit_state : IsFit os c.streams → IsFitState svc.state =
        λ fit. subst IsFitService p (fit k s e) in
      Keeps-bind_value ring 2 c (handle w os svc payload c.world) _
        (λ posix t fit.
          IsStep-stops_by w os _ (handle-IsStep w os svc payload c.world (fit_state fit)))
        (λ r same.
          Keeps-after ring 2 _
            (Tidy-trans (Tidy-world c r.2) (
              Tidy-put _ k _ s e (synced-IsLater svc r.1 s s.waiting_for_okay p)
                (λ fit. stepped svc r.1 r.0 r.2 payload c (fit_state fit) same)))
            (after_handle-Keeps r.0 k s.remote_id _))
  wrte_service-Keeps (shell_service shell) k s payload c p e = after_write-Keeps k s c _
  wrte_service-Keeps (forward_service fwd) k s payload c p e =
      Keeps-bind_value ring 2 c (forward_write_input os fwd payload c.world) _
        (λ posix _ _.
          let (result, world, ends, _) = forward_write_input-Writes os posix fwd payload c.world in
          rw ends refl)
        (λ r _. after_write-Keeps k s c r)
  wrte_service-Keeps reboot_service k s payload c p e = λ _ _ _. (refl, λ _ _. refl)

  wrte_stream-Keeps :
      (o : Option (Stream os)) (k : ℕ) (payload : Bytes) (c : Conn os)
      → get os c.streams k ≡ o
      → Keeps ring 2 c (Commands.wrte_stream w ring o k payload c)
  unfolding Commands.wrte_stream
  wrte_stream-Keeps none k payload c e = Tidy-refl c
  wrte_stream-Keeps (some s) k payload c e = wrte_service-Keeps s.service k s payload c refl e

  handle_command_wrte-Keeps :
      (h : AdbHeader) (payload : Bytes) (c : Conn os)
      → Keeps ring 3 c (Commands.handle_command_wrte w ring h payload c)
  unfolding Commands.handle_command_wrte
  handle_command_wrte-Keeps h payload c =
      Keeps-bind ring 1 2 c (Commands.submit_okay w ring h.arg1 h.arg0 c) _
        (submit_okay-Keeps h.arg1 h.arg0 c) (λ d _. wrte_stream-Keeps _ h.arg1 payload d refl)

  dispatch-Keeps :
      (command : Command) (info : DeviceInfo) (h : AdbHeader) (payload : Option Bytes) (c : Conn os)
      → c.streams.next_id + 1 < 2 ^ 32
      → Keeps ring 3 c (Commands.dispatch w ring command info h payload c)
  unfolding Commands.dispatch Commands.handle_command_open
  dispatch-Keeps cnxn info h none c room = λ _ _ _. (refl, λ _ _. refl)
  dispatch-Keeps cnxn info h (some p) c room =
      Keeps-more ring 2 3 c _ (omega arith) (handle_command_cnxn-Keeps ring info h c)
  dispatch-Keeps opens info h none c room = λ _ _ _. (refl, λ _ _. refl)
  dispatch-Keeps opens info h (some p) c room =
      Keeps-more ring 2 3 c _ (omega arith) (open_service-Keeps (until_nul p) h.arg0 c room)
  dispatch-Keeps wrte info h none c room = λ _ _ _. (refl, λ _ _. refl)
  dispatch-Keeps wrte info h (some p) c room = handle_command_wrte-Keeps h p c
  dispatch-Keeps okay info h none c room =
      Keeps-more ring 2 3 c _ (omega arith) (handle_command_okay-Keeps ring h c)
  dispatch-Keeps okay info h (some p) c room = λ _ _ _. (refl, λ _ _. refl)
  dispatch-Keeps clse info h p c room =
      Keeps-more ring 1 3 c _ (omega arith) (handle_command_clse-Keeps ring h c)
  dispatch-Keeps auth info h p c room = Tidy-refl c
  dispatch-Keeps stls info h p c room = Tidy-refl c

  -- Handling a message, if it does not panic, keeps the eight slots of the pool and the stream
  -- table, queues no read of a further message, and takes exactly one slot of the pool for each
  -- write that it queues. The stream ids must not have run out.
  pub handle_command-Keeps :
      (info : DeviceInfo) (h : AdbHeader) (payload : Option Bytes) (c : Conn os)
      → c.streams.next_id + 1 < 2 ^ 32
      → Keeps ring 3 c (Commands.handle_command w ring info h payload c)
  unfolding Commands.handle_command
  handle_command-Keeps info h payload c room = dispatch-Keeps h.command info h payload c room
