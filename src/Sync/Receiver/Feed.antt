-- ===== src/Sync/Receiver/Feed.antt =====
-- What `SyncService::handle` sees of a call of `receive`: a frame to send, after which it drops
-- the receiver, or the receiver that waits for more.
use muadib.Prelude.{
  ℕ, ◌<◌, ◌≡◌, refl, sym, ap, Option, none, some, [], ◌++◌, length, ◌⊎◌, inl, inr, Outcome, done,
  panic, ◌>>=◌,
}
use muadib.Prelude.Bytes.{Bytes}
use muadib.Interface.Winnow.{Winnow}
use muadib.Interface.Os.{Os, on_result_elim, on_result_cong}
use muadib.Sync.{
  SyncResponse, SyncFrameRequestId, data_frame, done_frame, SyncFrameRequestHeader, fail_response,
}
use muadib.Sync.Receiver.{
  RecvState, FileReceiver, FileReceiverResult, done_result, continue_receiving, Received, Round,
  goes_on, returns, finalize, refuse, on_header_id, on_parsed, on_header, round_at, receive,
}
use muadib.Sync.Receiver.Rounds.{
  IsRecvState, measure, Progress, receive-nil, then_receive, receive-round,
}

module _ (w : Winnow) (os : Os) where
  abbrev pub Seen : Type 0
  Seen = (SyncResponse × os.World) ⊎ (FileReceiver os × os.World)

  abbrev pub observe : FileReceiverResult × FileReceiver os × os.World → Seen
  observe (done_result frame, r, world) = inl (frame, world)
  observe (continue_receiving, r, world) = inr (r, world)

  abbrev pub seen : Received w os → Outcome Seen
  seen x = x >>= λ t. done (observe t)

  unfoldable pub feed : FileReceiver os → os.World → Bytes → Outcome Seen
  feed r world data' = seen (receive w os r world data')

  -- The next payload, if a receiver waits for one.
  abbrev pub then_feed : Bytes → Seen → Outcome Seen
  then_feed data' (inl answer) = done (inl answer)
  then_feed data' (inr (r, world)) = feed r world data'

  abbrev pub see : Round w os → Outcome Seen
  see x = seen (then_receive w os x)

  pub feed-nil : (r : FileReceiver os) (world : os.World) → feed r world [] ≡ done (inr (r, world))
  unfolding feed
  feed-nil r world = ap seen (receive-nil w os r world)

  pub feed-round :
      (r : FileReceiver os) (world : os.World) (rest : Bytes)
      → IsRecvState r.state
      → 0 < length rest
      → feed r world rest ≡ see (round_at w os r.state r world rest)
  unfolding feed
  feed-round r world rest v h = ap seen (receive-round w os r world rest v h)

  -- A result after which nothing is fed.
  abbrev pub IsFinal : Received w os → Type 0
  IsFinal x = (more : Bytes) → (seen x >>= then_feed more) ≡ seen x

  answered-IsFinal :
      (m : Outcome SyncResponse) (r : FileReceiver os) (world : os.World)
      → IsFinal (m >>= λ frame. done (done_result frame, r, world))
  answered-IsFinal (done frame) r world more = refl
  answered-IsFinal (panic why) r world more = refl

  pub refuse-IsFinal :
      (r : FileReceiver os) (world : os.World) (msg : Bytes) → IsFinal (refuse w os r world msg)
  refuse-IsFinal r world msg = answered-IsFinal (fail_response msg) r _

  finalize-IsFinal :
      (r : FileReceiver os) (mtime : ℕ) (world : os.World) → IsFinal (finalize w os r mtime world)
  unfolding finalize
  finalize-IsFinal r mtime world =
      on_result_elim IsFinal (os.set_permissions r.file r.mode world) (λ _ world' _ more. refl)
        (λ e world' _. refuse-IsFinal r world' _)

  -- A round on `rest ++ more` that takes only bytes of `rest`.
  abbrev pub append_rest : Bytes → Round w os → Round w os
  append_rest more (goes_on r world rest) = goes_on r world (rest ++ more)
  append_rest more (returns result) = returns result

  abbrev pub IsFinalRound : Round w os → Type 0
  IsFinalRound (goes_on r world rest) = Unit
  IsFinalRound (returns result) = IsFinal result

  on_header_id-append :
      (id : SyncFrameRequestId) (len : ℕ) (r : FileReceiver os) (world : os.World)
      → (rest more : Bytes)
      → (on_header_id w os id len r world (rest ++ more)
          ≡ append_rest more (on_header_id w os id len r world rest))
        × IsFinalRound (on_header_id w os id len r world rest)
  unfolding on_header_id
  on_header_id-append data_frame len r world rest more = (refl, tt)
  on_header_id-append done_frame len r world rest more = (refl, finalize-IsFinal r len world)

  on_parsed-append :
      (parsed : Option (SyncFrameRequestHeader × Bytes)) (r : FileReceiver os) (world : os.World)
      → (rest more : Bytes)
      → (on_parsed w os parsed r world (rest ++ more)
          ≡ append_rest more (on_parsed w os parsed r world rest))
        × IsFinalRound (on_parsed w os parsed r world rest)
  unfolding on_parsed
  on_parsed-append none r world rest more = (refl, refuse-IsFinal r world _)
  on_parsed-append (some (h, i)) r world rest more =
      on_header_id-append h.id h.payload_len r world rest more

  pub on_header-append :
      (bytes' : Bytes) (r : FileReceiver os) (world : os.World) (rest more : Bytes)
      → (on_header w os bytes' r world (rest ++ more)
          ≡ append_rest more (on_header w os bytes' r world rest))
        × IsFinalRound (on_header w os bytes' r world rest)
  unfolding on_header
  on_header-append bytes' r world rest more = on_parsed-append _ r world rest more

  answered-state :
      (m : Outcome SyncResponse) (r r' : FileReceiver os) (world : os.World)
      → seen (m >>= λ frame. done (done_result frame, r, world))
        ≡ seen (m >>= λ frame. done (done_result frame, r', world))
  answered-state (done frame) r r' world = refl
  answered-state (panic why) r r' world = refl

  -- The state that a header finds does not show: it is replaced, or the receiver is dropped.
  module _ (s : RecvState) (r : FileReceiver os) (world : os.World) where
    pub see-refuse :
        (msg : Bytes)
        → seen (refuse w os (record r { state = s }) world msg) ≡ seen (refuse w os r world msg)
    see-refuse msg = answered-state (fail_response msg) _ r _

  see-finalize :
      (s : RecvState) (r : FileReceiver os) (mtime : ℕ) (world : os.World)
      → seen (finalize w os (record r { state = s }) mtime world)
        ≡ seen (finalize w os r mtime world)
  unfolding finalize
  see-finalize s r mtime world =
      on_result_cong seen (os.set_permissions r.file r.mode world) (λ _ _. refl)
        (λ e world'. see-refuse s r world' _)

  see-on_header_id :
      (id : SyncFrameRequestId) (len : ℕ) (s : RecvState) (r : FileReceiver os) (world : os.World)
      → (rest : Bytes)
      → see (on_header_id w os id len (record r { state = s }) world rest)
        ≡ see (on_header_id w os id len r world rest)
  unfolding on_header_id
  see-on_header_id data_frame len s r world rest = refl
  see-on_header_id done_frame len s r world rest = see-finalize s r len world

  see-on_parsed :
      (parsed : Option (SyncFrameRequestHeader × Bytes)) (s : RecvState) (r : FileReceiver os)
      → (world : os.World) (rest : Bytes)
      → see (on_parsed w os parsed (record r { state = s }) world rest)
        ≡ see (on_parsed w os parsed r world rest)
  unfolding on_parsed
  see-on_parsed none s r world rest = see-refuse s r world _
  see-on_parsed (some (h, i)) s r world rest = see-on_header_id h.id h.payload_len s r world rest

  pub see-on_header :
      (bytes' : Bytes) (s : RecvState) (r : FileReceiver os) (world : os.World) (rest : Bytes)
      → see (on_header w os bytes' (record r { state = s }) world rest)
        ≡ see (on_header w os bytes' r world rest)
  unfolding on_header
  see-on_header bytes' s r world rest = see-on_parsed _ s r world rest

  -- A part of a push: fed at once or in two pieces, the same is seen.
  abbrev pub IsSplit : FileReceiver os → os.World → Bytes → Bytes → Type 0
  IsSplit r world data' more =
      feed r world (data' ++ more) ≡ (feed r world data' >>= then_feed more)

  pub see-append_rest :
      (more : Bytes) (m : ℕ) (x : Round w os)
      → Progress w os m x
      → IsFinalRound x
      → ((r : FileReceiver os) (world : os.World) (rest : Bytes)
          → IsRecvState r.state
          → measure r.state rest < m
          → IsSplit r world rest more)
      → see (append_rest more x) ≡ (see x >>= then_feed more)
  see-append_rest more m (goes_on r world rest) p f ih = unfold feed in ih r world rest p.0 p.1
  see-append_rest more m (returns result) p f ih = sym (f more)
