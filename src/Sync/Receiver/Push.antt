-- ===== src/Sync/Receiver/Push.antt =====
-- Proofs about `FileReceiver` of src/sync.rs: DATA frames and the DONE behind them.
use muadib.Prelude.{
  ℕ, ◌-◌, sym, ap, ◌<◌, ◌≡◌, refl, ◌∙◌, List, [], ◌∷◌, ◌++◌, length, length-append,
  take-length_append, drop-length_append, min, le→leb, All, some, Result, ok, err, done, arith, inl,
}
use muadib.Prelude.Bytes.{Bytes, IsU32, u32_bytes, from_le_bytes-u32_bytes}
use muadib.Interface.Winnow
use muadib.Interface.Winnow.{Winnow}
use muadib.Interface.Os.{Os, IsPosix, after}
use muadib.Sync.{
  SyncFrameRequestId, data_frame, done_frame, id_data, id_done, request_id_try_from,
  parse_sync_frame_header, okay_response,
}
use muadib.Sync.Receiver.{
  FileReceiver, header, receiving_data, header_size, finalize, on_header_id, on_parsed, on_header,
  round_at, round_header, round_data,
}
use muadib.Sync.Receiver.Feed.{see, feed, feed-round}

abbrev pub request_id_to_u32 : SyncFrameRequestId → ℕ
request_id_to_u32 data_frame = id_data
request_id_to_u32 done_frame = id_done

-- The eight bytes that start a frame.
abbrev pub frame_header : SyncFrameRequestId → ℕ → Bytes
frame_header id len = u32_bytes (request_id_to_u32 id) ++ u32_bytes len

abbrev pub concat : List Bytes → Bytes
concat [] = []
concat (c ∷ cs) = c ++ concat cs

-- A DATA frame for each chunk, and DONE with the mtime.
abbrev pub push_bytes : List Bytes → ℕ → Bytes
push_bytes [] mtime = frame_header done_frame mtime
push_bytes (c ∷ cs) mtime = frame_header data_frame (length c) ++ (c ++ push_bytes cs mtime)

abbrev pub IsChunk : Bytes → Type 0
IsChunk c = (0 < length c) × IsU32 (length c)

request_id_try_from-to_u32 :
    (id : SyncFrameRequestId) → request_id_try_from (request_id_to_u32 id) ≡ ok id
unfolding request_id_try_from
request_id_try_from-to_u32 data_frame = refl
request_id_try_from-to_u32 done_frame = refl

request_id_to_u32-IsU32 : (id : SyncFrameRequestId) → IsU32 (request_id_to_u32 id)
request_id_to_u32-IsU32 data_frame = omega arith
request_id_to_u32-IsU32 done_frame = omega arith

after-ok :
    {W E : Type 0} {w' : W} (x : Result E (Unit {0}) × W)
    → (k : W → Result E (Unit {0}) × W) → after x (λ _. k) ≡ (ok tt, w')
    → (w1 : W) × (x ≡ (ok tt, w1)) × (k w1 ≡ (ok tt, w'))
after-ok (ok tt, w1) k h = (w1, refl, h)
after-ok (err e, w1) k h = cc

module _ (w : Winnow) (doc : Winnow.IsDocumented w) (os : Os) where
  parse_sync_frame_header-frame_header :
      (id : SyncFrameRequestId) (len : ℕ)
      → IsU32 len
      → parse_sync_frame_header w (frame_header id len)
        ≡ some (record { id = id; payload_len = len }, [])
  unfolding parse_sync_frame_header
  parse_sync_frame_header-frame_header id len h =
      doc.map_lem _ _ _
      ∙ rw
          (
            doc.seq_two_lem _ _ (frame_header id len),
            doc.verify_map_lem w.le_u32 _ (frame_header id len),
            doc.le_u32_ok _ _ _ _ (u32_bytes len),
            from_le_bytes-u32_bytes (request_id_to_u32 id) (request_id_to_u32-IsU32 id),
            request_id_try_from-to_u32 id,
            doc.le_u32_ok _ _ _ _ [],
            from_le_bytes-u32_bytes len h,
          )
          refl

  module _ (r : FileReceiver os) where
    abbrev pub at_header : FileReceiver os
    at_header = record r { state = header }

    feed-frame_header :
        (id : SyncFrameRequestId) (len : ℕ) (world : os.World) (rest : Bytes)
        → IsU32 len
        → feed w os at_header world (frame_header id len ++ rest)
          ≡ see w os (on_header_id w os id len at_header world rest)
    feed-frame_header id len world rest h =
        feed-round w os at_header world (frame_header id len ++ rest) tt
          (omega (arith, length-append (frame_header id len) rest))
        ∙ unfold round_at round_header on_header on_parsed in
          rw
            (
              le→leb header_size (length (frame_header id len ++ rest))
                  (omega (arith, length-append (frame_header id len) rest)),
              parse_sync_frame_header-frame_header id len h,
            )
            refl

    feed-on_data_frame :
        (len : ℕ) (world : os.World) (rest : Bytes)
        → see w os (on_header_id w os data_frame len at_header world rest)
          ≡ feed w os (record r { state = receiving_data len }) world rest
    unfolding on_header_id feed
    feed-on_data_frame len world rest = refl

    -- DONE on a file that takes the mode.
    feed-done_frame :
        (mtime : ℕ) (world w2 : os.World)
        → IsU32 mtime
        → os.set_permissions r.file r.mode world ≡ (ok tt, w2)
        → feed w os at_header world (frame_header done_frame mtime)
          ≡ done (inl (okay_response, (os.set_times r.file mtime w2).1))
    feed-done_frame mtime world w2 m moded =
        feed-frame_header done_frame mtime world [] m
        ∙ unfold on_header_id finalize in rw moded refl

    -- A DATA frame whose chunk the file takes leaves the receiver at the next header.
    feed-chunk :
        (c rest : Bytes) (world w1 : os.World)
        → IsChunk c
        → os.write_all r.file c world ≡ (ok tt, w1)
        → feed w os at_header world (frame_header data_frame (length c) ++ (c ++ rest))
          ≡ feed w os at_header w1 rest
    feed-chunk c rest world w1 h e =
        let same : min (length c) (length (c ++ rest)) ≡ length c =
          omega (arith, length-append c rest) in
        let zero_left : length c - length c ≡ 0 = omega arith in
        feed-frame_header data_frame (length c) world (c ++ rest) h.1
        ∙ feed-on_data_frame (length c) world (c ++ rest)
        ∙ feed-round w os (record r { state = receiving_data (length c) }) world (c ++ rest) tt
            (omega (arith, h.0, length-append c rest))
        ∙ unfold round_at round_data feed in
          rw (same, zero_left, take-length_append c rest, drop-length_append c rest, e) refl

  -- With parsers that do what winnow documents and over a file that is written in order, a push of
  -- DATA frames whose chunks are not empty and have u32 lengths, and a DONE with a u32 for mtime:
  -- if the file takes the bytes and then the mode, exactly the chunks' bytes are written, the mode
  -- is set behind them and the mtime last, and OKAY is answered.
  pub feed-push_bytes :
      (posix : IsPosix os) (r : FileReceiver os) (chunks : List Bytes) (mtime : ℕ)
      → (world w1 w2 : os.World) → All IsChunk chunks
      → IsU32 mtime
      → os.write_all r.file (concat chunks) world ≡ (ok tt, w1)
      → os.set_permissions r.file r.mode w1 ≡ (ok tt, w2)
      → feed w os (at_header r) world (push_bytes chunks mtime)
        ≡ done (inl (okay_response, (os.set_times r.file mtime w2).1))
  feed-push_bytes posix r [] mtime world w1 w2 all m written moded =
      let same : world ≡ w1 =
        ap (λ (x : Result os.Error (Unit {0}) × os.World). x.1)
          (sym (posix.write_all_nil r.file world) ∙ written) in
      feed-done_frame r mtime world w2 m (ap (λ v. os.set_permissions r.file r.mode v) same ∙ moded)
  feed-push_bytes posix r (c ∷ cs) mtime world w1 w2 all m written moded =
      let (wc, first, more) =
        after-ok (os.write_all r.file c world) (os.write_all r.file (concat cs))
          (sym (posix.write_all_append r.file c (concat cs) world) ∙ written) in
      feed-chunk r c (push_bytes cs mtime) world wc all.0 first
      ∙ feed-push_bytes posix r cs mtime wc w1 w2 all.1 m more moded
