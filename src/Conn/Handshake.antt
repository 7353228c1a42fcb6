-- ===== src/Conn/Handshake.antt =====
-- Proofs about the handshake of src/main.rs: the answer to CNXN.
use muadib.Prelude.{
  ℕ, ◌%◌, ◌^◌, ◌≡◌, ◌≢◌, ◌==◌, Bool-cases, inl, inr, refl, ◌∙◌, true, false, some, [], length,
  is_empty, ◌≤◌, ◌<◌, ◌+◌, done, ◌>>=◌, ap, sym, arith,
}
use mathlib.Core.List.{append-nil}
use mathlib.Core.Path.{subst}
use muadib.Prelude.Bytes.{Bytes, IsU32}
use muadib.Interface.Winnow
use muadib.Interface.Winnow.{Winnow}
use muadib.Interface.Os.{Os}
use muadib.Interface.Ring.{Ring, IsRing32}
use muadib.Message.{
  cnxn, ProtocolVersion, v0, v1, version_try_from, version_to_u32, protocol_version, max_payload,
  AdbHeader, header_bytes, parse_header, checksum_for, DeviceInfo, identity, cnxn_response,
  header_from_payload,
}
use muadib.Message.Checksum.{sum, checksum-eq-sum-mod, header_from_payload-read_back}
use muadib.Buffers.Slots.{count_free}
use muadib.Conn.{Conn, submit_message}
use muadib.Conn.Sends.{IsQueued, submit_message-IsQueued}
use muadib.Conn.Handlers.{version_or_v0, handle_command_cnxn}
use muadib.Conn.Commands.{handle_command, dispatch}

-- The version of a connection by the number that the host names: 0 for one that is not known.
pub data Speaks : ℕ → ProtocolVersion → Type 0 where
  first : (a : ℕ) → a ≡ 0x0100_0000 → Speaks a v0
  second : (a : ℕ) → a ≡ 0x0100_0001 → Speaks a v1
  unknown : (a : ℕ) → a ≢ 0x0100_0000 → a ≢ 0x0100_0001 → Speaks a v0

-- The check of a payload: its bytes' sum as a `u32` in version 0, and 0 in version 1.
pub data IsCheck (payload : Bytes) : ProtocolVersion → ℕ → Type 0 where
  summed : (n : ℕ) → n ≡ sum payload % 2 ^ 32 → IsCheck payload v0 n
  unchecked : (n : ℕ) → n ≡ 0 → IsCheck payload v1 n

version-Speaks : (a : ℕ) → Speaks a (version_or_v0 (version_try_from a))
unfolding version_try_from
version-Speaks a = elim (Bool-cases (a == 0x0100_0000)) [
  | inl e ↦ rw e (first a (ground arith))
  | inr e ↦ elim (Bool-cases (a == 0x0100_0001)) [
    | inl e' ↦ rw (e, e') (second a (ground arith))
    | inr e' ↦ rw (e, e') (unknown a (ground arith) (ground arith))
  ]
]

checksum_for-IsCheck :
    (v : ProtocolVersion) (payload : Bytes) → IsCheck payload v (checksum_for v payload)
checksum_for-IsCheck v0 payload = summed _ (checksum-eq-sum-mod payload)
checksum_for-IsCheck v1 payload = unchecked _ refl

-- The header of the answer, in the version of the connection, as a reader of its bytes sees it: the
-- device's own version is 1, with payloads of up to 1 MiB.
pub record IsAnswer (w : Winnow) (v : ProtocolVersion) (info : DeviceInfo) (h : AdbHeader)
    : Type 0 where
  pub read : parse_header w (header_bytes h) ≡ some (h, [])
  pub command : h.command ≡ cnxn
  pub version : h.arg0 ≡ 0x0100_0001
  pub max_data : h.arg1 ≡ 1048576
  pub data_length : h.data_length ≡ length (identity info)
  pub data_check : IsCheck (identity info) v h.data_check

identity-filled : (info : DeviceInfo) → is_empty (identity info) ≡ false
unfolding identity
identity-filled info = refl

module _ (w : Winnow) (ring : Ring) {os : Os} where
  answers :
      (info : DeviceInfo) (header : AdbHeader) (p : Bytes) (c : Conn os) (v : ProtocolVersion)
      (h : AdbHeader)
      → header.command ≡ cnxn
      → version_or_v0 (version_try_from header.arg0) ≡ v
      → header_from_payload v cnxn
          (version_to_u32 protocol_version)
          (max_payload protocol_version)
          (identity info)
        ≡ done h
      → handle_command w ring info header (some p) c
        ≡ submit_message ring h (some (identity info)) (record c { version = v })
  answers info header p c v h is_cnxn ev made =
      let dispatched : handle_command w ring info header (some p) c
          ≡ handle_command_cnxn ring info header c =
        unfold handle_command dispatch in rw is_cnxn refl in
      let answered : handle_command_cnxn ring info header c ≡ (
          cnxn_response v info >>= λ r.
          submit_message ring r.0 (some r.1) (record c { version = v })) =
        unfold handle_command_cnxn in rw ev refl in
      let response : cnxn_response v info ≡ done (h, identity info) =
        unfold cnxn_response in ap (λ m. m >>= λ x. done (x, identity info)) made in
      dispatched
      ∙ answered
      ∙ ap (λ m. m >>= λ r. submit_message ring r.0 (some r.1) (record c { version = v })) response

  -- With parsers that do what winnow documents, two free slots, room for two entries in a ring of
  -- 32, and an identity whose length is a `u32`, a CNXN with a payload is answered: the version of
  -- the connection is 0 or 1 as the host named it, and 0 when it named neither; the header of CNXN
  -- with version 1 and a limit of 1 MiB is queued with the flag that links it to the identity, which
  -- is queued behind it, each from a slot of its own; the header's length is the identity's, and its
  -- check is the sum of the identity's bytes as a `u32` on version 0, and 0 on version 1.
  pub handle_command-cnxn :
      (doc : Winnow.IsDocumented w) (info : DeviceInfo) (header : AdbHeader) (p : Bytes)
      (c : Conn os)
      → header.command ≡ cnxn
      → IsRing32 ring
      → 2 ≤ count_free c.buffers.slots
      → length c.queue + 1 < 32
      → IsU32 (length (identity info))
      → (v : ProtocolVersion) × (h : AdbHeader) × (i : ℕ) × (j : ℕ) × (d : Conn os) × (e : Conn os)
        × (handle_command w ring info header (some p) c ≡ done e)
        × Speaks header.arg0 v
        × (e.version ≡ v)
        × IsAnswer w v info h
        × IsQueued (record c { version = v }) (header_bytes h) true i d
        × IsQueued d (identity info) false j e
  handle_command-cnxn doc info header p c is_cnxn r room short u =
      let v : ProtocolVersion = version_or_v0 (version_try_from header.arg0) in
      let (h, made, read, e1, e2, e3, e4, e5) =
        header_from_payload-read_back w doc v cnxn (version_to_u32 protocol_version)
          (max_payload protocol_version) (identity info) [] (omega arith) (omega arith) u in
      let (i, j, d, e, sent, q, p') =
        submit_message-IsQueued ring h (identity info) (record c { version = v }) r
          (identity-filled info) room short in
      (
        v,
        h,
        i,
        j,
        d,
        e,
        answers info header p c v h is_cnxn refl made ∙ sent,
        version-Speaks header.arg0,
        p'.same_version ∙ q.same_version,
        record {
          read = ap (parse_header w) (sym (append-nil (header_bytes h))) ∙ read;
          command = e1;
          version = e2;
          max_data = e3;
          data_length = e4;
          data_check =
              subst (IsCheck (identity info) v) (sym e5) (checksum_for-IsCheck v (identity info));
        },
        q,
        p',
      )
