-- ===== src/Sync/Receiver/Left.antt =====
-- Proofs about the receiver that a payload of a push leaves, and about a push in many payloads
-- (src/sync.rs).
use muadib.Prelude.{
  ℕ, zero, suc, ◌+◌, ◌-◌, ◌<◌, ◌≡◌, refl, sym, ◌∙◌, Option, none, some, List, [], ◌∷◌, ◌++◌, length,
  length-append, leb, if_elim, lt_of_leb-false, inl, inr, Outcome, done, panic, ◌>>=◌, arith,
}
use mathlib.Core.Path.{subst}
use muadib.Prelude.Bytes.{Bytes}
use muadib.Interface.Winnow.{Winnow}
use muadib.Interface.Os.{Os, IsPosix, on_result_elim}
use muadib.Sync.{SyncResponse, SyncFrameRequestId, data_frame, done_frame, SyncFrameRequestHeader}
use muadib.Sync.Receiver.{
  RecvState, header, partial_header, receiving_data, FileReceiver, done_result, Received, Round,
  goes_on, returns, finalize, on_header_id, on_parsed, on_header, header_size, round_header,
  round_partial, round_data, round_at,
}
use muadib.Sync.Receiver.Rounds.{IsRecvState, measure, Progress, round_at-Progress}
use muadib.Sync.Receiver.Feed.{Seen, seen, feed, then_feed, see, feed-nil, feed-round}
use muadib.Sync.Receiver.Headers.{copy_at-nil, waits-pad}
use muadib.Sync.Receiver.Chunks.{feed-append}
use muadib.Sync.Receiver.Push.{concat}

module _ (w : Winnow) (os : Os) where
  -- A receiver that waits for more is in a state that a receiver can be in.
  abbrev pub IsLeft : Outcome (Seen w os) → Type 0
  IsLeft (done (inl answer)) = Unit
  IsLeft (done (inr (r, world))) = IsRecvState r.state
  IsLeft (panic why) = Unit

  abbrev RoundLeft : Round w os → Type 0
  RoundLeft (goes_on r world rest) = Unit
  RoundLeft (returns result) = IsLeft (seen w os result)

  answered-IsLeft :
      (m : Outcome SyncResponse) (r : FileReceiver os) (world : os.World)
      → IsLeft (seen w os (m >>= λ frame. done (done_result frame, r, world)))
  answered-IsLeft (done frame) r world = tt
  answered-IsLeft (panic why) r world = tt

  finalize-IsLeft :
      (r : FileReceiver os) (mtime : ℕ) (world : os.World)
      → IsLeft (seen w os (finalize w os r mtime world))
  unfolding finalize
  finalize-IsLeft r mtime world =
      on_result_elim (λ (m : Received w os). IsLeft (seen w os m))
        (os.set_permissions r.file r.mode world) (λ _ _ _. tt) (λ e world' _. answered-IsLeft _ r _)

  on_parsed-RoundLeft :
      (parsed : Option (SyncFrameRequestHeader × Bytes)) (r : FileReceiver os) (world : os.World)
      → (rest : Bytes) → RoundLeft (on_parsed w os parsed r world rest)
  unfolding on_parsed
  on_parsed-RoundLeft none r world rest = answered-IsLeft _ r _
  on_parsed-RoundLeft (some (h, i)) r world rest = by_id h.id
    where
      by_id :
          (id : SyncFrameRequestId) → RoundLeft (on_header_id w os id h.payload_len r world rest)
      by_id data_frame = unfold on_header_id in tt
      by_id done_frame = unfold on_header_id in finalize-IsLeft r h.payload_len world

  round_at-RoundLeft :
      (s : RecvState) (r : FileReceiver os) (world : os.World) (rest : Bytes)
      → IsRecvState s
      → 0 < length rest
      → RoundLeft (round_at w os s r world rest)
  unfolding round_at round_header round_partial round_data on_header
  round_at-RoundLeft header r world rest v h =
      if_elim RoundLeft (leb header_size (length rest)) (λ _. on_parsed-RoundLeft _ r world _)
        (λ e.
          let short : length rest < header_size = lt_of_leb-false _ _ e in
          (rest, copy_at-nil rest short, refl, h, short))
  round_at-RoundLeft (partial_header leftovers len) r world rest (x, ex, el, lo, hi) h =
      rw (ex, el)
        (if_elim RoundLeft (leb (header_size - length x) (length rest))
          (λ _. on_parsed-RoundLeft _ r world _)
          (λ e.
            let short : length x + length rest < header_size =
              omega (arith, lt_of_leb-false _ _ e) in
            subst IsRecvState (sym (waits-pad x rest short)) (
              x ++ rest,
              refl,
              refl,
              omega (arith, length-append x rest),
              omega (arith, length-append x rest),
            )))
  round_at-RoundLeft (receiving_data n) r world rest v h =
      on_result_elim RoundLeft (os.write_all r.file _ world) (λ _ _ _. tt)
        (λ e world' _. answered-IsLeft _ r _)

  abbrev LeftBelow : ℕ → Type 0
  LeftBelow m =
      (r : FileReceiver os) (world : os.World) (rest : Bytes)
      → IsRecvState r.state
      → measure r.state rest < m
      → IsLeft (feed w os r world rest)

  see-IsLeft :
      (m : ℕ) (x : Round w os) → RoundLeft x → Progress w os m x → LeftBelow m → IsLeft (see w os x)
  unfolding feed
  see-IsLeft m (goes_on r world rest) f p below = below r world rest p.0 p.1
  see-IsLeft m (returns result) f p below = f

  left_below : (m : ℕ) → LeftBelow m
  left_below zero r world rest v h = absurd (omega arith)
  left_below (suc m) r world [] v h = rw (feed-nil w os r world) v
  left_below (suc m) r world (b ∷ rest) v h =
      rw (feed-round w os r world (b ∷ rest) v (omega arith)) (
        see-IsLeft (measure r.state (b ∷ rest)) _
          (round_at-RoundLeft r.state r world (b ∷ rest) v (omega arith))
          (round_at-Progress w os r.state r world (b ∷ rest) v (omega arith))
          (λ r' world' rest' v' h'. left_below m r' world' rest' v' (omega (arith, h, h'))))

  pub feed-IsLeft :
      (r : FileReceiver os) (world : os.World) (data' : Bytes)
      → IsRecvState r.state
      → IsLeft (feed w os r world data')
  feed-IsLeft r world data' v =
      left_below (suc (measure r.state data')) r world data' v (omega arith)

  abbrev pub then_waits :
      (FileReceiver os → os.World → Outcome (Seen w os)) → Seen w os → Outcome (Seen w os)
  then_waits go (inl answer) = done (inl answer)
  then_waits go (inr (r, world)) = go r world

  -- The payloads of a push, as long as a receiver waits for more.
  unfoldable pub feeds : List Bytes → FileReceiver os → os.World → Outcome (Seen w os)
  unfolding feed
  feeds [] r world = done (inr (r, world))
  feeds (p ∷ ps) r world = feed w os r world p >>= then_waits (feeds ps)

  then_feeds-then_feed :
      (ps : List Bytes) (x : Outcome (Seen w os))
      → ((r : FileReceiver os) (world : os.World)
          → IsRecvState r.state
          → feeds ps r world ≡ feed w os r world (concat ps))
      → IsLeft x
      → (x >>= then_waits (feeds ps)) ≡ (x >>= then_feed w os (concat ps))
  then_feeds-then_feed ps (done (inl answer)) ih h = refl
  then_feeds-then_feed ps (done (inr (r, world))) ih h = ih r world h
  then_feeds-then_feed ps (panic why) ih h = refl

  -- However a push is cut into payloads, they do what it does in one.
  pub feeds-concat :
      (posix : IsPosix os) (ps : List Bytes) (r : FileReceiver os) (world : os.World)
      → IsRecvState r.state
      → feeds ps r world ≡ feed w os r world (concat ps)
  unfolding feeds
  feeds-concat posix [] r world v = sym (feed-nil w os r world)
  feeds-concat posix (p ∷ ps) r world v =
      then_feeds-then_feed ps (feed w os r world p) (feeds-concat posix ps)
        (feed-IsLeft r world p v)
      ∙ sym (feed-append w os posix r world p (concat ps) v)
