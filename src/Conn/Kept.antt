-- ===== src/Conn/Kept.antt =====
-- Proofs about the other handlers of src/main.rs, on the accounts of `Tidy`.
use muadib.Prelude.{
  ℕ, arith, ◌≡◌, refl, Option, none, some, if_elim, panic, ◌==◌, [], is_inner, stops_by-bind,
  clse_remote_mismatch,
}
use muadib.Interface.Os.{Os}
use muadib.Interface.Ring.{Ring}
use muadib.Message.{
  AdbHeader, DeviceInfo, version_try_from, clse, cnxn, cnxn_header, cnxn_response, identity,
  ProtocolVersion,
}
use muadib.Stream.{
  Service, sync_service, shell_service, reboot_service, forward_service, Stream, get,
}
use muadib.Stream.Ids.{close-IsTable}
use muadib.Stream.Fit.{close-IsFit}
use muadib.Stream.Lives.{IsLaterTable-refl, closed-IsLater, close-IsLaterTable}
use muadib.Conn.{Conn}
use muadib.Conn.Handlers
use muadib.Conn.Handlers.{close_stream}
use muadib.Conn.Tidy.{Tidy, Tidy-refl, Tidy-trans, Tidy-world, Tidy-put}
use muadib.Conn.Keeps.{
  Keeps, Keeps-after, Keeps-bind, Keeps-bind_value, Keeps-header, header_from_payload-stops_by,
  submit_message-Keeps, submit_message-Keeps_bare,
}

module _ (ring : Ring) {os : Os} where
  pub close_stream-Tidy : {n : ℕ} (k : ℕ) (c : Conn os) → Tidy n c (close_stream ring k c)
  unfolding close_stream
  close_stream-Tidy {n} k c = record {
    pool = λ h. h;
    table = λ h. close-IsTable os c.streams k c.world h;
    reads = refl;
    slots = refl;
    owned = λ _ _ pre o. o;
    asks = λ _ _. refl;
    named = λ _ _. refl;
    fits = λ h. close-IsFit os c.streams k c.world h;
    later = close-IsLaterTable os c.streams k c.world;
    free = omega arith;
    queued = omega arith;
  }

  pub submit_clse-Keeps : (k r : ℕ) (c : Conn os) → Keeps ring 1 c (Handlers.submit_clse ring k r c)
  unfolding Handlers.submit_clse
  submit_clse-Keeps k r c =
      Keeps-header ring 1 c c.version clse k r [] _ (λ h. submit_message-Keeps_bare ring h c)

  pub clse_and_close-Keeps :
      (k r : ℕ) (c : Conn os) → Keeps ring 1 c (Handlers.clse_and_close ring k r c)
  clse_and_close-Keeps k r c =
      Keeps-bind ring 1 0 c (Handlers.submit_clse ring k r c) _ (submit_clse-Keeps k r c)
        (λ d _. close_stream-Tidy k d)

  clse_service-Keeps :
      (svc : Service os) (k : ℕ) (s : Stream os) (c : Conn os)
      → get os c.streams k ≡ some s
      → Keeps ring 1 c (Handlers.clse_service ring svc k s c)
  unfolding Handlers.clse_service
  clse_service-Keeps (forward_service f) k s c e =
      Tidy-trans (Tidy-world c _) (Tidy-put _ k _ s e (closed-IsLater s) (λ fit. fit k s e))
  clse_service-Keeps (sync_service f) k s c e = clse_and_close-Keeps k s.remote_id c
  clse_service-Keeps (shell_service f) k s c e = clse_and_close-Keeps k s.remote_id c
  clse_service-Keeps reboot_service k s c e = clse_and_close-Keeps k s.remote_id c

  clse_stream-Keeps :
      (o : Option (Stream os)) (h : AdbHeader) (c : Conn os)
      → get os c.streams h.arg1 ≡ o
      → Keeps ring 1 c (Handlers.clse_stream ring o h c)
  unfolding Handlers.clse_stream
  clse_stream-Keeps none h c e = Tidy-refl c
  clse_stream-Keeps (some s) h c e =
      if_elim (Keeps ring 1 c) (s.remote_id == h.arg0) {y = panic clse_remote_mismatch}
        (λ _. clse_service-Keeps s.service h.arg1 s c e) (λ _ _ _ _. (refl, λ _ _. refl))

  pub handle_command_clse-Keeps :
      (h : AdbHeader) (c : Conn os) → Keeps ring 1 c (Handlers.handle_command_clse ring h c)
  unfolding Handlers.handle_command_clse
  handle_command_clse-Keeps h c = clse_stream-Keeps _ h c refl

  Tidy-version : {n : ℕ} (v : ProtocolVersion) (c : Conn os) → Tidy n c (record c { version = v })
  Tidy-version {n} v c = record {
    pool = λ x. x;
    table = λ x. x;
    reads = refl;
    slots = refl;
    owned = λ _ _ pre o. o;
    asks = λ _ _. refl;
    named = λ _ _. refl;
    fits = λ x. x;
    later = IsLaterTable-refl os c.streams;
    free = omega arith;
    queued = omega arith;
  }

  pub handle_command_cnxn-Keeps :
      (info : DeviceInfo) (h : AdbHeader) (c : Conn os)
      → Keeps ring 2 c (Handlers.handle_command_cnxn ring info h c)
  unfolding Handlers.handle_command_cnxn cnxn_response
  handle_command_cnxn-Keeps info h c =
      let v : ProtocolVersion = Handlers.version_or_v0 (version_try_from h.arg0) in
      Keeps-bind_value ring 2 c (cnxn_response v info) _
        (λ _ _ _.
          stops_by-bind is_inner (cnxn_header v (identity info)) _
            (header_from_payload-stops_by v cnxn _ _ (identity info)) (λ _. refl))
        (λ r _.
          Keeps-after ring 2 _ (Tidy-version v c)
            (submit_message-Keeps ring r.0 (some r.1) (record c { version = v })))
