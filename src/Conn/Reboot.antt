-- ===== src/Conn/Reboot.antt =====
-- Proofs about streams of the reboot service in src/main.rs.
use muadib.Prelude.{
  ℕ, ◌≡◌, refl, sym, ◌∙◌, ap, true, false, some, [], ◌++◌, ◌+◌, ◌^◌, ◌<◌, done, panic,
  reboot_unreachable, ◌>>=◌, bind-eq-done, bytes, ==_self,
}
use mathlib.Core.Path.{subst}
use muadib.Prelude.Bytes.{Bytes}
use muadib.Prelude.Text.{until_nul, is_utf8, bytes_eq, strip_prefix, starts_with}
use muadib.Interface.Winnow.{Winnow}
use muadib.Interface.Os.{Os, pure}
use muadib.Interface.Ring.{Ring}
use muadib.Message.{AdbHeader}
use muadib.Stream.{
  reboot_service, Stream, get, new_stream, make_service, opens_stream, finish_open, add_stream,
}
use muadib.Stream.Ids.{IsTable, get-put, add_stream-IsOpened}
use muadib.Conn.{Conn}
use muadib.Conn.Continue
use muadib.Conn.Continue.{handle_command_okay, with_stream}
use muadib.Conn.Flow.{SameStreams, submit_okay-SameStreams}
use muadib.Conn.Commands.{
  handle_command_open, open_service, after_open, submit_okay, start_stream, start_service,
}

make_service-reboot :
    (os : Os) (arg : Bytes) (world : os.World)
    → make_service os (bytes "reboot:" ++ arg) world ≡ (some reboot_service, world)
unfolding make_service bytes_eq strip_prefix starts_with
make_service-reboot os arg world = refl

module _ (w : Winnow) (ring : Ring) {os : Os} where
  okay-reboot :
      (reply : AdbHeader) (c : Conn os) (s : Stream os)
      → get os c.streams reply.arg1 ≡ some s
      → s.service ≡ reboot_service
      → handle_command_okay ring reply c ≡ panic reboot_unreachable
  unfolding handle_command_okay Continue.maybe_continue_stream Continue.continue_service
  okay-reboot reply c s found es =
      rw
        (
          found,
          get-put os c.streams reply.arg1 reply.arg1 (record s { waiting_for_okay = false }),
          ==_self reply.arg1,
          es,
        )
        refl

  start_stream-reboot :
      (k : ℕ) (c c' : Conn os) (s : Stream os)
      → get os c.streams k ≡ some s
      → s.service ≡ reboot_service
      → start_stream w ring k c ≡ done c'
      → c'.streams ≡ c.streams
  unfolding start_service
  start_stream-reboot k c c' s found es h =
      let started : start_stream w ring k c
          ≡ done (record c { world = (os.spawn (bytes "reboot") [] [] (pure tt) c.world).1 }) =
        rw (found, es) refl in
      subst (SameStreams c) h (subst (SameStreams c) (sym started) refl)

  handle_command_open-reboot :
      (header : AdbHeader) (payload arg : Bytes) (c : Conn os)
      → until_nul payload ≡ some (bytes "reboot:" ++ arg)
      → is_utf8 (bytes "reboot:" ++ arg) ≡ true
      → handle_command_open w ring header payload c ≡ (
          submit_okay w ring c.streams.next_id header.arg0
            (record c { streams = (add_stream os c.streams header.arg0 reboot_service).1 })
          >>= start_stream w ring c.streams.next_id)
  handle_command_open-reboot header payload arg c text utf =
      let asked : handle_command_open w ring header payload c
          ≡ open_service w ring (some (bytes "reboot:" ++ arg)) header.arg0 c =
        unfold handle_command_open in rw text refl in
      let served : open_service w ring (some (bytes "reboot:" ++ arg)) header.arg0 c
          ≡ after_open w ring header.arg0 c
              (opens_stream os c.streams header.arg0 (bytes "reboot:" ++ arg) c.world) =
        unfold open_service in rw utf refl in
      let made : opens_stream os c.streams header.arg0 (bytes "reboot:" ++ arg) c.world ≡ (
        some c.streams.next_id,
        (add_stream os c.streams header.arg0 reboot_service).1,
        c.world,
      ) =
        unfold opens_stream finish_open add_stream in
        ap (finish_open os c.streams header.arg0) (make_service-reboot os arg c.world) in
      asked ∙ served ∙ ap (after_open w ring header.arg0 c) made ∙ (unfold after_open in refl)

  -- From a well-formed stream table whose ids have not run out: after an OPEN of a service that
  -- starts with `reboot:`, is UTF-8 and was answered, an OKAY for the new stream, as a host sends
  -- it, panics at the `unreachable!`.
  pub open_reboot-panics :
      (header reply : AdbHeader) (payload arg : Bytes) (c c' : Conn os)
      → IsTable os c.streams
      → c.streams.next_id + 1 < 2 ^ 32
      → until_nul payload ≡ some (bytes "reboot:" ++ arg)
      → is_utf8 (bytes "reboot:" ++ arg) ≡ true
      → handle_command_open w ring header payload c ≡ done c'
      → reply.arg1 ≡ c.streams.next_id
      → handle_command_okay ring reply c' ≡ panic reboot_unreachable
  open_reboot-panics header reply payload arg c c' t room text utf opened names =
      let k : ℕ = c.streams.next_id in
      let s : Stream os = new_stream os header.arg0 reboot_service in
      let c0 : Conn os = record c {
        streams = (add_stream os c.streams header.arg0 reboot_service).1;
      } in
      let there : get os c0.streams k ≡ some s =
        (add_stream-IsOpened os c.streams header.arg0 reboot_service t room).opened k
        ∙ (unfold add_stream in rw (==_self k) refl) in
      let (c1, e1, h1) =
        bind-eq-done (submit_okay w ring k header.arg0 c0) _
          (sym (handle_command_open-reboot header payload arg c text utf) ∙ opened) in
      let same : c1.streams ≡ c0.streams =
        subst (SameStreams c0) e1 (submit_okay-SameStreams ring w k header.arg0 c0) in
      let there1 : get os c1.streams k ≡ some s = ap (λ m. get os m k) same ∙ there in
      let same1 : c'.streams ≡ c1.streams = start_stream-reboot k c1 c' s there1 refl h1 in
      okay-reboot reply c' s (ap (get os c'.streams) names ∙ ap (λ m. get os m k) same1 ∙ there1)
        refl
