-- ===== src/Sync/Requests.antt =====
-- Proofs about the request parser of src/sync.rs, against the bytes of a request.
use muadib.Prelude.{
  ℕ, ◌^◌, ◌≡◌, refl, ◌∙◌, true, false, some, [], ◌∷◌, ◌++◌, length, length-append, is_empty, le→leb,
  take-length_append, drop-length_append, All, ◌==◌, ok, arith, ==_self,
}
use muadib.Prelude.Bytes.{Bytes, IsU32, u32_bytes}
use muadib.Prelude.Text.{is_digit, parse_unsigned}
use muadib.Interface.Winnow
use muadib.Interface.Winnow.{Winnow, ◌>>=◌, split_at_byte, span_digits, some_prefix}
use muadib.Message.RoundTrip.{le_u32-u32_bytes}
use muadib.Sync.{
  id_lstat_v1, id_recv_v1, id_send_v1, id_quit, SyncPacketId, lstat_v1, recv_v1, send_v1, quit,
  packet_id_try_from, SyncPacket, lstat_v1_request, recv_v1_request, send_v1_request, quit_request,
  parse_sync_packet_id, parse_path_mode, parse_packet_body, parse_sync_packet,
}

abbrev pub packet_id_to_u32 : SyncPacketId → ℕ
packet_id_to_u32 lstat_v1 = id_lstat_v1
packet_id_to_u32 recv_v1 = id_recv_v1
packet_id_to_u32 send_v1 = id_send_v1
packet_id_to_u32 quit = id_quit

-- A request's identifier, the length of what it carries, and that.
abbrev pub request_bytes : SyncPacketId → Bytes → Bytes
request_bytes id carried =
    u32_bytes (packet_id_to_u32 id) ++ (u32_bytes (length carried) ++ carried)

-- The bytes of a request. A mode is written in decimal digits, behind a path without a comma.
pub data Encodes : SyncPacket → Bytes → Type 0 where
  encodes_lstat :
      (path : Bytes)
      → IsU32 (length path)
      → Encodes (lstat_v1_request path) (request_bytes lstat_v1 path)
  encodes_recv :
      (path : Bytes)
      → IsU32 (length path)
      → Encodes (recv_v1_request path) (request_bytes recv_v1 path)
  encodes_send :
      (path digits : Bytes) (mode : ℕ)
      → IsU32 (length (path ++ (b',' ∷ digits)))
      → is_empty path ≡ false
      → All (λ b. (b == b',') ≡ false) path
      → is_empty digits ≡ false
      → All (λ b. is_digit b ≡ true) digits
      → parse_unsigned (2 ^ 32) digits ≡ some mode
      → Encodes (send_v1_request path mode) (request_bytes send_v1 (path ++ (b',' ∷ digits)))
  encodes_quit : Encodes quit_request (u32_bytes (packet_id_to_u32 quit))

packet_id_try_from-to_u32 : (id : SyncPacketId) → packet_id_try_from (packet_id_to_u32 id) ≡ ok id
unfolding packet_id_try_from
packet_id_try_from-to_u32 lstat_v1 = refl
packet_id_try_from-to_u32 recv_v1 = refl
packet_id_try_from-to_u32 send_v1 = refl
packet_id_try_from-to_u32 quit = refl

packet_id_to_u32-IsU32 : (id : SyncPacketId) → IsU32 (packet_id_to_u32 id)
packet_id_to_u32-IsU32 lstat_v1 = omega arith
packet_id_to_u32-IsU32 recv_v1 = omega arith
packet_id_to_u32-IsU32 send_v1 = omega arith
packet_id_to_u32-IsU32 quit = omega arith

split_at_byte-append :
    (c : ℕ) (path rest : Bytes)
    → All (λ b. (b == c) ≡ false) path
    → split_at_byte c (path ++ (c ∷ rest)) ≡ some (path, c ∷ rest)
split_at_byte-append c [] rest h = rw (==_self c) refl
split_at_byte-append c (x ∷ path) rest h = rw (h.0, split_at_byte-append c path rest h.1) refl

span_digits-All : (ds : Bytes) → All (λ b. is_digit b ≡ true) ds → span_digits ds ≡ (ds, [])
span_digits-All [] h = refl
span_digits-All (d ∷ ds) h = rw (h.0, span_digits-All ds h.1) refl

some_prefix-filled : (a b : Bytes) → is_empty a ≡ false → some_prefix (a, b) ≡ some (a, b)
some_prefix-filled a b h = rw h refl

module _ (w : Winnow) (doc : Winnow.IsDocumented w) where
  parse_sync_packet_id-u32_bytes :
      (id : SyncPacketId) (rest : Bytes)
      → parse_sync_packet_id w (u32_bytes (packet_id_to_u32 id) ++ rest) ≡ some (id, rest)
  parse_sync_packet_id-u32_bytes id rest =
      doc.verify_map_lem w.le_u32 _ _
      ∙ rw
          (
            le_u32-u32_bytes w doc (packet_id_to_u32 id) rest (packet_id_to_u32-IsU32 id),
            packet_id_try_from-to_u32 id,
          )
          refl

  length_take-u32_bytes :
      (carried rest : Bytes)
      → IsU32 (length carried)
      → w.length_take w.le_u32 (u32_bytes (length carried) ++ (carried ++ rest))
        ≡ some (carried, rest)
  length_take-u32_bytes carried rest h =
      doc.length_take_lem w.le_u32 _
      ∙ rw
          (
            le_u32-u32_bytes w doc (length carried) (carried ++ rest) h,
            le→leb (length carried) (length (carried ++ rest))
                (omega (arith, length-append carried rest)),
            take-length_append carried rest,
            drop-length_append carried rest,
          )
          refl

  parse_path_mode_lem :
      (path digits : Bytes) (mode : ℕ)
      → is_empty path ≡ false
      → All (λ b. (b == b',') ≡ false) path
      → is_empty digits ≡ false
      → All (λ b. is_digit b ≡ true) digits
      → parse_unsigned (2 ^ 32) digits ≡ some mode
      → parse_path_mode w (path ++ (b',' ∷ digits)) ≡ some ((path, mode), [])
  parse_path_mode_lem path digits mode fp np fd nd e =
      doc.separated_pair_lem _ _ _ (path ++ (b',' ∷ digits))
      ∙ rw
          (
            doc.take_until_some_lem b',' (path ++ (b',' ∷ digits)),
            split_at_byte-append b',' path digits np,
            some_prefix-filled path (b',' ∷ digits) fp,
            doc.literal_ok b',' digits,
            doc.verify_map_lem w.digit1 (parse_unsigned (2 ^ 32)) digits,
            doc.digit1_lem digits,
            span_digits-All digits nd,
            some_prefix-filled digits [] fd,
            e,
          )
          refl

  -- With parsers that do what winnow documents: every request, with a path whose length is a u32
  -- (and, for SEND, a path that is not empty and has no comma, a mode in decimal digits, and a u32
  -- length of both with the comma), is read from its bytes, and what follows is left.
  pub parse_sync_packet-Encodes :
      (packet : SyncPacket) (i rest : Bytes)
      → Encodes packet i
      → parse_sync_packet w (i ++ rest) ≡ some (packet, rest)
  unfolding parse_sync_packet parse_packet_body
  parse_sync_packet-Encodes _ _ rest (encodes_lstat path h) =
      rw (parse_sync_packet_id-u32_bytes lstat_v1 _, length_take-u32_bytes path rest h) refl
  parse_sync_packet-Encodes _ _ rest (encodes_recv path h) =
      rw (parse_sync_packet_id-u32_bytes recv_v1 _, length_take-u32_bytes path rest h) refl
  parse_sync_packet-Encodes _ _ rest (encodes_send path digits mode h fp np fd nd e) =
      rw
        (
          parse_sync_packet_id-u32_bytes send_v1 _,
          length_take-u32_bytes (path ++ (b',' ∷ digits)) rest h,
          parse_path_mode_lem path digits mode fp np fd nd e,
        )
        refl
  parse_sync_packet-Encodes _ _ rest encodes_quit =
      rw (parse_sync_packet_id-u32_bytes quit rest) refl
