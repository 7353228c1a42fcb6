-- ===== src/Conn/Flight/Handled.antt =====
-- Proofs about the arms of `run` in src/main.rs, on the entries in flight.
use muadib.Prelude.{
  ℕ, ◌≡◌, refl, Option, none, some, List, [], ◌∷◌, if_elim, ltb, Outcome, done, panic, ◌>>=◌, ◌+◌,
  ◌^◌, ◌<◌, stops_by, is_inner, is_inner_cases, ◌≤◌, arith, false,
}
use muadib.Prelude.Bytes.{Bytes}
use muadib.Interface.Winnow.{Winnow}
use muadib.Interface.Os.{Os}
use muadib.Interface.Ring.{Ring, Sqe}
use muadib.Message.{AdbHeader, DeviceInfo, parse_header}
use muadib.UserData.{bulk_out_read_header, bulk_out_read_payload}
use muadib.Conn.{Conn}
use muadib.Conn.Events
use muadib.Conn.Events.{Session, Flow, goes, ends_ok, ends_err, Cqe, ep0_stops}
use muadib.Conn.Tidy.{Tidy-world}
use muadib.Conn.Keeps.{Keeps, Keeps-after}
use muadib.Conn.Obeyed.{handle_command-Keeps}
use muadib.Conn.Accounts.{submit_ep0_poll-Keeps}
use muadib.Conn.Completions.{with_payload-Keeps, slice_to-stops_by}
use muadib.Conn.Flight.{
  awaited, IsReady, Holds, Holds-more, IsSound, FlowHolds, Keeps-IsReady,
  submit_bulk_out_read-IsReady, then_read-IsReady,
}

-- The ids of streams have not run out.
abbrev pub HasRoom : {os : Os} → Conn os → Type 0
HasRoom c = c.streams.next_id + 1 < 2 ^ 32

module _ (w : Winnow) (ring : Ring) (os : Os) (ep0 : os.Fd) (info : DeviceInfo) where
  pub on_conn-Holds :
      (n : ℕ) (flight : List Sqe) (s : Session os) (m : Outcome (Conn os))
      → n ≤ 4
      → Holds ring n s.conn (IsReady flight (awaited s.pending_header ∷ [])) m
      → FlowHolds ring 4 s.conn (IsSound flight) (Events.on_conn w ring os ep0 info s m)
  on_conn-Holds n flight s (done d) le h = h
  on_conn-Holds n flight s (panic why) le h =
      Holds-more ring n 4 s.conn (IsReady flight []) (panic why) le h

  pub kept-Holds :
      (n : ℕ) (flight : List Sqe) (s : Session os) (m : Outcome (Conn os))
      → n ≤ 4
      → IsSound flight s
      → Keeps ring n s.conn m
      → FlowHolds ring 4 s.conn (IsSound flight) (Events.on_conn w ring os ep0 info s m)
  kept-Holds n flight s m le r k =
      on_conn-Holds n flight s m le
        (Keeps-IsReady ring n flight (awaited s.pending_header ∷ []) s.conn m r k)

  with_header-Holds :
      (flight : List Sqe) (o : Option (AdbHeader × Bytes)) (s : Session os)
      → s.pending_header ≡ none
      → HasRoom s.conn
      → IsReady flight [] s.conn
      → FlowHolds ring 4 s.conn (IsSound flight) (Events.with_header w ring os ep0 info o s)
  unfolding Events.with_header
  with_header-Holds flight none s e room r =
      on_conn-Holds 1 flight s _ (omega arith) (
        rw e
          (submit_bulk_out_read-IsReady ring flight bulk_out_read_header s.conn refl refl refl r))
  with_header-Holds flight (some (h, rest)) s e room r =
      if_elim (FlowHolds ring 4 s.conn (IsSound flight)) (ltb 0 h.data_length)
        (λ _.
          on_conn-Holds 1 flight (record s { pending_header = some h }) _ (omega arith)
            (submit_bulk_out_read-IsReady ring flight bulk_out_read_payload s.conn refl refl refl
              r))
        (λ _. on_conn-Holds 4 flight s _ (omega arith) (
          rw e (
            then_read-IsReady ring 3 flight s.conn _ r
              (handle_command-Keeps w ring info h none s.conn room))))

  pub on_header_read-Holds :
      (flight : List Sqe) (len : ℕ) (buffer : Bytes) (s : Session os)
      → s.pending_header ≡ none
      → HasRoom s.conn
      → IsReady flight [] s.conn
      → FlowHolds ring 4 s.conn
          (IsSound flight)
          (Events.on_header_read w ring os ep0 info len buffer s)
  unfolding Events.on_header_read
  on_header_read-Holds flight len buffer s e room r =
      cut (Events.slice_to len buffer) (slice_to-stops_by w ring os ep0 info len buffer)
    where
      cut :
          (m : Outcome Bytes)
          → stops_by is_inner m ≡ false
          → FlowHolds ring 4 s.conn
              (IsSound flight)
              (m >>= λ b. Events.with_header w ring os ep0 info (parse_header w b) s)
      cut (done b) h = with_header-Holds flight (parse_header w b) s e room r
      cut (panic why) h = λ _. let (own, lack) = is_inner_cases why h in (own, λ _ _. lack)

  pub on_payload_read-Holds :
      (flight : List Sqe) (len : ℕ) (buffer : Bytes) (s : Session os)
      → HasRoom s.conn
      → IsReady flight [] s.conn
      → FlowHolds ring 4 s.conn
          (IsSound flight)
          (Events.on_payload_read w ring os ep0 info len buffer s)
  unfolding Events.on_payload_read
  on_payload_read-Holds flight len buffer s room r =
      on_conn-Holds 4 flight (record s { pending_header = none }) _ (omega arith)
        (then_read-IsReady ring 3 flight s.conn _ r
          (with_payload-Keeps w ring os ep0 info s.pending_header len buffer s.conn room))

  pub on_ep0_poll-Holds :
      (flight : List Sqe) (s : Session os)
      → IsSound flight s
      → FlowHolds ring 4 s.conn (IsSound flight) (Events.on_ep0_poll w ring os ep0 info s)
  unfolding Events.on_ep0_poll
  on_ep0_poll-Holds flight s r =
      let (stops, world) = ep0_stops w ring os ep0 info s.conn.world in
      if_elim (FlowHolds ring 4 s.conn (IsSound flight)) stops (λ _. tt)
        (λ _. kept-Holds 1 flight s _ (omega arith) r (
          Keeps-after ring 1 _ (Tidy-world s.conn world)
            (submit_ep0_poll-Keeps w ring os ep0 info (record (s.conn) { world = world }))))
