-- ===== src/Conn/Delivery.antt =====
-- Proofs about the loop of src/main.rs: a message that comes in as a header and a payload.
use muadib.Prelude.{
  ℕ, ◌≡◌, ◌≢◌, refl, sym, ◌∙◌, ap, true, false, none, some, [], ◌++◌, length, ltb, ◌==◌, ◌<◌,
  if◌then◌else◌, Outcome, done, panic, ◌>>=◌, ◌^◌, Bool-cases, inl, inr, arith, take-length_append,
  le→leb, ==_self, length-append,
}
use mathlib.Core.List.{append-nil}
use muadib.Prelude.Bytes.{Bytes, IsU32}
use muadib.Interface.Winnow
use muadib.Interface.Winnow.{Winnow}
use muadib.Interface.Os.{Os, pos}
use muadib.Interface.Ring.{Ring}
use muadib.Message.{
  Command, ProtocolVersion, v0, v1, AdbHeader, header_bytes, header_from_payload, parse_header,
  checksum, checksum_for, DeviceInfo,
}
use muadib.Message.Checksum.{header_from_payload-read_back}
use muadib.UserData.{OpType, bulk_out_read_header, bulk_out_read_payload, user_data_to_u64}
use muadib.UserData.RoundTrip.{user_data_try_from-to_u64}
use muadib.Conn.{Conn, submit_bulk_out_read}
use muadib.Conn.Commands.{handle_command}
use muadib.Conn.Events
use muadib.Conn.Events.{Session, Flow, Cqe, slice_to, checksum_fails}

abbrev pub read_cqe : OpType → ℕ → Bytes → Cqe
read_cqe op len buffer = record {
  user_data = user_data_to_u64 (record { op_type = op; id = none });
  result = pos len;
  buffer = buffer;
}

slice_to-length : (a rest : Bytes) → slice_to (length a) (a ++ rest) ≡ done a
slice_to-length a rest =
    rw
      (
        le→leb (length a) (length (a ++ rest)) (omega (arith, length-append a rest)),
        take-length_append a rest,
      )
      refl

-- The sender's header passes the check of its payload, under either version.
check-passes :
    (v : ProtocolVersion) (h : AdbHeader) (payload : Bytes)
    → h.data_check ≡ checksum_for v payload
    → checksum_fails v h payload ≡ false
check-passes v0 h payload e = rw (e, ==_self (checksum payload)) refl
check-passes v1 h payload e = refl

abbrev check_of : Outcome AdbHeader → ℕ
check_of (done x) = x.data_check
check_of (panic why) = 0

made_check :
    (command : Command) (a b : ℕ) (payload : Bytes) (h : AdbHeader)
    → header_from_payload v0 command a b payload ≡ done h
    → h.data_check ≡ checksum payload
unfolding header_from_payload
made_check command a b payload h made = elim (Bool-cases (ltb (length payload) (2 ^ 32))) [
  | inl e ↦ sym (ap check_of (rw e at made))
  | inr e ↦ absurd (let g = (rw e at made) in cc)
]

-- A payload with another sum fails it, under the version that sums.
check-fails :
    (command : Command) (a b : ℕ) (payload received : Bytes) (h : AdbHeader)
    → header_from_payload v0 command a b payload ≡ done h
    → checksum received ≢ checksum payload
    → checksum_fails v0 h received ≡ true
check-fails command a b payload received h made differs =
    let other : (checksum received == checksum payload) ≡ false = ground (arith, differs) in
    rw (made_check command a b payload h made, other) refl

module _ (w : Winnow) (ring : Ring) (os : Os) (ep0 : os.Fd) (info : DeviceInfo) where
  pub on_cqe-read_cqe :
      (op : OpType) (len : ℕ) (buffer : Bytes) (s : Session os)
      → Events.on_cqe w ring os ep0 info (read_cqe op len buffer) s
        ≡ Events.on_completion w ring os ep0 info op none (pos len) buffer s
  unfolding Events.on_cqe
  on_cqe-read_cqe op len buffer s =
      ap (λ r. Events.on_user_data w ring os ep0 info r (read_cqe op len buffer) s)
        (user_data_try_from-to_u64 (record { op_type = op; id = none }) tt)

  on_header_read-header_bytes :
      (h : AdbHeader) (rest : Bytes) (s : Session os)
      → parse_header w (header_bytes h) ≡ some (h, [])
      → 0 < h.data_length
      → Events.on_header_read w ring os ep0 info
          (length (header_bytes h))
          (header_bytes h ++ rest)
          s
        ≡ Events.on_conn w ring os ep0 info
            (record s { pending_header = some h })
            (submit_bulk_out_read ring bulk_out_read_payload s.conn)
  on_header_read-header_bytes h rest s parsed filled =
      let sliced : Events.on_header_read w ring os ep0 info (length (header_bytes h))
            (header_bytes h ++ rest) s
          ≡ (slice_to (length (header_bytes h)) (header_bytes h ++ rest) >>= λ d.
              Events.with_header w ring os ep0 info (parse_header w d) s) =
        unfold Events.on_header_read in refl in
      let waits : Events.with_header w ring os ep0 info (some (h, [])) s
          ≡ Events.on_conn w ring os ep0 info (record s { pending_header = some h })
              (submit_bulk_out_read ring bulk_out_read_payload s.conn) =
        unfold Events.with_header in ground (arith, filled) in
      sliced
      ∙ ap (λ m. m >>= λ d. Events.with_header w ring os ep0 info (parse_header w d) s)
          (slice_to-length (header_bytes h) rest)
      ∙ ap (λ o. Events.with_header w ring os ep0 info o s) parsed
      ∙ waits

  with_payload-payload :
      (h : AdbHeader) (payload rest : Bytes) (c : Conn os)
      → Events.with_payload w ring os ep0 info (some h) (length payload) (payload ++ rest) c ≡ (
          if checksum_fails c.version h payload
          then done c
          else handle_command w ring info h (some payload) c)
  with_payload-payload h payload rest c =
      let sliced : Events.with_payload w ring os ep0 info (some h) (length payload)
            (payload ++ rest) c
          ≡ (slice_to (length payload) (payload ++ rest) >>= λ d.
              if checksum_fails c.version h d
              then done c
              else handle_command w ring info h (some d) c) =
        unfold Events.with_payload in refl in
      sliced
      ∙ ap
          (λ m. m >>= λ d.
            if checksum_fails c.version h d
            then done c
            else handle_command w ring info h (some d) c)
          (slice_to-length payload rest)

  -- With parsers that do what winnow documents, a message that a peer builds for the version of the
  -- connection, with two u32 arguments and a payload that is not empty and has a u32 length: the
  -- completion of a read that holds its header in front makes the session await that header's
  -- payload and asks for it, whatever the session; and the completion of a read that holds the
  -- payload in front, in a session that awaits it, hands the header and exactly the payload to the
  -- command's handler, and then asks for the next header.
  pub on_cqe-message :
      (doc : Winnow.IsDocumented w) (command : Command) (a b : ℕ) (payload rest rest' : Bytes)
      (v : ProtocolVersion) (s s' : Session os)
      → IsU32 a
      → IsU32 b
      → IsU32 (length payload)
      → 0 < length payload
      → s'.conn.version ≡ v
      → (h : AdbHeader) × (header_from_payload v command a b payload ≡ done h)
        × (Events.on_cqe w ring os ep0 info
              (read_cqe bulk_out_read_header (length (header_bytes h)) (header_bytes h ++ rest))
              s
            ≡ Events.on_conn w ring os ep0 info
                (record s { pending_header = some h })
                (submit_bulk_out_read ring bulk_out_read_payload s.conn))
        × (Events.on_cqe w ring os ep0 info
              (read_cqe bulk_out_read_payload (length payload) (payload ++ rest'))
              (record s' { pending_header = some h })
            ≡ Events.on_conn w ring os ep0 info
                (record s' { pending_header = none })
                (handle_command w ring info h (some payload) s'.conn
                  >>= submit_bulk_out_read ring bulk_out_read_header))
  on_cqe-message doc command a b payload rest rest' v s s' ua ub ul filled ev =
      let (h, made, read, e1, e2, e3, e4, e5) =
        header_from_payload-read_back w doc v command a b payload [] ua ub ul in
      let parsed : parse_header w (header_bytes h) ≡ some (h, []) =
        ap (parse_header w) (sym (append-nil (header_bytes h))) ∙ read in
      let passes : checksum_fails s'.conn.version h payload ≡ false =
        ap (λ x. checksum_fails x h payload) ev ∙ check-passes v h payload e5 in
      let handled : Events.with_payload w ring os ep0 info (some h) (length payload)
            (payload ++ rest') s'.conn
          ≡ handle_command w ring info h (some payload) s'.conn =
        with_payload-payload h payload rest' s'.conn ∙ rw passes refl in
      (
        h,
        made,
        on_cqe-read_cqe bulk_out_read_header _ _ s
            ∙ (unfold Events.on_completion in
                on_header_read-header_bytes h rest s parsed (omega (arith, e4, filled))),
        on_cqe-read_cqe bulk_out_read_payload _ _ (record s' { pending_header = some h })
            ∙ (unfold Events.on_completion Events.on_payload_read in
                ap
                  (λ m.
                    Events.on_conn w ring os ep0 info (record s' { pending_header = none })
                      (m >>= submit_bulk_out_read ring bulk_out_read_header))
                  handled),
      )

  -- On a connection of version 0 that awaits the payload of a header that a peer built, a payload
  -- with another checksum is dropped: nothing is handled, and the next header is asked for.
  pub on_cqe-damaged :
      (command : Command) (a b : ℕ) (payload received rest : Bytes) (h : AdbHeader) (s : Session os)
      → header_from_payload v0 command a b payload ≡ done h
      → s.conn.version ≡ v0
      → s.pending_header ≡ some h
      → checksum received ≢ checksum payload
      → Events.on_cqe w ring os ep0 info
          (read_cqe bulk_out_read_payload (length received) (received ++ rest))
          s
        ≡ Events.on_conn w ring os ep0 info
            (record s { pending_header = none })
            (submit_bulk_out_read ring bulk_out_read_header s.conn)
  on_cqe-damaged command a b payload received rest h s made ev pending differs =
      let fails : checksum_fails s.conn.version h received ≡ true =
        ap (λ x. checksum_fails x h received) ev
        ∙ check-fails command a b payload received h made differs in
      let dropped : Events.with_payload w ring os ep0 info (some h) (length received)
            (received ++ rest) s.conn
          ≡ done s.conn =
        with_payload-payload h received rest s.conn ∙ rw fails refl in
      on_cqe-read_cqe bulk_out_read_payload _ _ s
      ∙ (unfold Events.on_completion Events.on_payload_read in
          ap
            (λ m.
              Events.on_conn w ring os ep0 info (record s { pending_header = none })
                (m >>= submit_bulk_out_read ring bulk_out_read_header))
            (ap
                (λ o.
                  Events.with_payload w ring os ep0 info o (length received) (received ++ rest)
                    s.conn)
                pending
              ∙ dropped))
