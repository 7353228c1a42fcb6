-- ===== src/Sync/Pull.antt =====
-- Proofs about `FileSender` of src/sync.rs: the frames that it makes of a file.
use muadib.Prelude.{
  ℕ, zero, suc, ◌^◌, ◌≤◌, ◌<◌, ◌≡◌, refl, false, true, Option, none, some, List, [], ◌∷◌, length,
  is_empty, lt→ltb, Outcome, done, ok, ◌>>=◌, arith,
}
use muadib.Prelude.Bytes.{Bytes}
use muadib.Interface.Os.{Os, IsPosix}
use muadib.Sync.{
  SyncResponse, data_response_id, payload_size_max_bytes, response, data_response, done_response,
}
use muadib.Sync.Sender.{FileSender, next_frame_at, next_frame}

-- A DATA frame with its bytes.
abbrev pub data_of : Bytes → SyncResponse
data_of piece = (record { id = data_response_id; payload_len = length piece }, piece)

abbrev pub frames_of : List Bytes → List SyncResponse
frames_of [] = done_response ∷ []
frames_of (piece ∷ pieces) = data_of piece ∷ frames_of pieces

module _ (os : Os) where
  -- The reads of a file up to its end: pieces that are not empty, and then one of no byte.
  pub data Reads (f : os.Fd) : os.World → List Bytes → os.World → Type 0 where
    reads_end :
        (w w' : os.World) → os.file_read f payload_size_max_bytes w ≡ (ok [], w') → Reads f w [] w'
    reads_piece :
        {pieces : List Bytes} {w2 : os.World} (w w1 : os.World) (piece : Bytes)
        → os.file_read f payload_size_max_bytes w ≡ (ok piece, w1)
        → is_empty piece ≡ false
        → Reads f w1 pieces w2
        → Reads f w (piece ∷ pieces) w2

  abbrev with_more :
      Option SyncResponse
      → os.World
      → Outcome (List SyncResponse × os.World)
      → Outcome (List SyncResponse × os.World)
  with_more none w more = done ([], w)
  with_more (some frame) w more = do (frames', w') ← more; done (frame ∷ frames', w')

  -- At most `n` calls of `next_frame`, until it gives no frame.
  unfoldable pub frames : ℕ → FileSender os → os.World → Outcome (List SyncResponse × os.World)
  unfolding next_frame
  frames zero s w = done ([], w)
  frames (suc n) s w = do (frame, s', w') ← next_frame os s w; with_more frame w' (frames n s' w')

  frames-is_done :
      (n : ℕ) (f : os.Fd) (w : os.World)
      → frames n (record { file = f; is_done = true }) w ≡ done ([], w)
  unfolding frames next_frame_at
  frames-is_done zero f w = refl
  frames-is_done (suc n) f w = refl

  data_response-data_of :
      (piece : Bytes)
      → length piece ≤ payload_size_max_bytes
      → data_response piece ≡ done (data_of piece)
  unfolding response
  data_response-data_of piece h = rw (lt→ltb (length piece) (2 ^ 32) (omega arith)) refl

  -- Over a file whose reads fill at most the buffer and that is read to its end without an error:
  -- the calls of next_frame until it gives no frame, at most n of them for any n above the number
  -- of pieces read, give a DATA frame for each piece, of its bytes and length, and one DONE.
  pub frames-Reads :
      (posix : IsPosix os) (n : ℕ) (f : os.Fd) (pieces : List Bytes) (w w' : os.World)
      → Reads f w pieces w'
      → length pieces < n
      → frames n (record { file = f; is_done = false }) w ≡ done (frames_of pieces, w')
  unfolding frames next_frame_at
  frames-Reads posix zero f pieces w w' r h = absurd (omega arith)
  frames-Reads posix (suc n) f _ _ _ (reads_end w w' e) h = rw (e, frames-is_done n f w') refl
  frames-Reads posix (suc n) f _ _ _ (reads_piece {pieces} {w2} w w1 piece e filled r) h =
      rw
        (
          e,
          filled,
          data_response-data_of piece (posix.file_read_bound f payload_size_max_bytes w w1 piece e),
          frames-Reads posix n f pieces w1 w2 r (omega arith),
        )
        refl
