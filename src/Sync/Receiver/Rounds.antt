-- ===== src/Sync/Receiver/Rounds.antt =====
-- Proofs about the rounds of the loop of `FileReceiver::receive` in src/sync.rs.
use muadib.Prelude.{
  ℕ, zero, suc, ◌+◌, ◌-◌, ◌*◌, min, ◌≤◌, ◌<◌, ◌≡◌, refl, sym, ◌∙◌, Option, none, some, [], ◌∷◌,
  ◌++◌, length, length-drop, drop, take, replicate, done, arith, leb, if_elim, ltb, leb→le,
}
use muadib.Prelude.Bytes.{Bytes}
use muadib.Interface.Winnow.{Winnow}
use muadib.Interface.Os.{Os, on_result_elim}
use muadib.Sync.{SyncFrameRequestId, data_frame, done_frame, SyncFrameRequestHeader}
use muadib.Sync.Receiver.{
  RecvState, header, partial_header, receiving_data, FileReceiver, continue_receiving, header_size,
  Received, Round, goes_on, returns, on_header_id, on_parsed, on_header, after_data, round_at,
  receive_loop, receive,
}

-- The bytes of a header that have come, in an array that was zero.
abbrev pub pad : Bytes → Bytes
pad x = x ++ replicate (header_size - length x) 0

-- A state that `receive` can leave: a part of a header is neither empty nor whole.
abbrev pub IsRecvState : RecvState → Type 0
IsRecvState header = Unit
IsRecvState (partial_header leftovers len) =
    (x : Bytes) × (leftovers ≡ pad x) × (len ≡ length x) × (1 ≤ length x) × (length x < header_size)
IsRecvState (receiving_data remaining) = Unit

-- A frame of no data wants a round and takes no byte.
abbrev pub weight : RecvState → ℕ
weight (receiving_data zero) = 1
weight _ = 0

abbrev pub measure : RecvState → Bytes → ℕ
measure s rest = 2 * length rest + weight s

weight-le : (s : RecvState) → weight s ≤ 1
weight-le header = omega arith
weight-le (partial_header leftovers len) = omega arith
weight-le (receiving_data zero) = omega arith
weight-le (receiving_data (suc n)) = omega arith

module _ (w : Winnow) (os : Os) where
  -- A round that goes on leaves a state as it should be, and less to do.
  abbrev pub Progress : ℕ → Round w os → Type 0
  Progress m (goes_on r world rest) = IsRecvState r.state × (measure r.state rest < m)
  Progress m (returns result) = Unit

  on_header_id-Progress :
      (id : SyncFrameRequestId) (len : ℕ) (r : FileReceiver os) (world : os.World) (rest : Bytes)
      (m : ℕ)
      → 2 * length rest + 1 < m
      → Progress m (on_header_id w os id len r world rest)
  unfolding on_header_id
  on_header_id-Progress data_frame len r world rest m h =
      (tt, omega (arith, weight-le (receiving_data len)))
  on_header_id-Progress done_frame len r world rest m h = tt

  on_parsed-Progress :
      (parsed : Option (SyncFrameRequestHeader × Bytes)) (r : FileReceiver os) (world : os.World)
      → (rest : Bytes) (m : ℕ) → 2 * length rest + 1 < m
      → Progress m (on_parsed w os parsed r world rest)
  unfolding on_parsed
  on_parsed-Progress none r world rest m h = tt
  on_parsed-Progress (some (f, i)) r world rest m h =
      on_header_id-Progress f.id f.payload_len r world rest m h

  pub on_header-Progress :
      (bytes' : Bytes) (r : FileReceiver os) (world : os.World) (rest : Bytes) (m : ℕ)
      → 2 * length rest + 1 < m
      → Progress m (on_header w os bytes' r world rest)
  unfolding on_header
  on_header-Progress bytes' r world rest m h = on_parsed-Progress _ r world rest m h

  after_data-IsRecvState : (n : ℕ) → IsRecvState (after_data n)
  after_data-IsRecvState n = if_elim IsRecvState (ltb 0 n) (λ _. tt) (λ _. tt)

  after_data-weight : (n : ℕ) → weight (after_data n) ≡ 0
  after_data-weight zero = ground arith
  after_data-weight (suc n) = ground arith

  data-shrinks :
      (n : ℕ) (rest : Bytes)
      → 0 < length rest
      → 2 * length (drop (min n (length rest)) rest) < 2 * length rest + weight (receiving_data n)
  data-shrinks zero rest h = omega (arith, length-drop (min 0 (length rest)) rest)
  data-shrinks (suc n) rest h = omega (arith, length-drop (min (suc n) (length rest)) rest)

  pub round_at-Progress :
      (s : RecvState) (r : FileReceiver os) (world : os.World) (rest : Bytes)
      → IsRecvState s
      → 0 < length rest
      → Progress (measure s rest) (round_at w os s r world rest)
  unfolding round_at
  round_at-Progress header r world rest v h =
      if_elim (Progress (measure header rest)) (leb header_size (length rest))
        (λ e.
          on_header-Progress _ r world _ _
            (omega (arith, leb→le _ _ e, length-drop header_size rest)))
        (λ _. tt)
  round_at-Progress (partial_header leftovers len) r world rest (x, _, e, lo, hi) h =
      if_elim (Progress (measure (partial_header leftovers len) rest))
        (leb (header_size - len) (length rest))
        (λ f.
          on_header-Progress _ r world _ _
            (omega (arith, leb→le _ _ f, length-drop (header_size - len) rest)))
        (λ _. tt)
  round_at-Progress (receiving_data n) r world rest v h =
      on_result_elim (Progress (measure (receiving_data n) rest))
        (os.write_all r.file (take (min n (length rest)) rest) world)
        (λ a world' _. (
          after_data-IsRecvState (n - min n (length rest)),
          omega (arith, after_data-weight (n - min n (length rest)), data-shrinks n rest h),
        ))
        (λ e world' _. tt)

  -- What the loop makes of a round.
  abbrev then_loop : ℕ → Round w os → Received w os
  then_loop fuel (goes_on r world rest) = receive_loop w os fuel r world rest
  then_loop fuel (returns result) = result

  receive_loop-suc :
      (fuel : ℕ) (r : FileReceiver os) (world : os.World) (b : ℕ) (rest : Bytes)
      → receive_loop w os (suc fuel) r world (b ∷ rest)
        ≡ then_loop fuel (round_at w os r.state r world (b ∷ rest))
  unfolding receive_loop
  receive_loop-suc fuel r world b rest = ground arith

  receive_loop-nil :
      (fuel : ℕ) (r : FileReceiver os) (world : os.World)
      → receive_loop w os fuel r world [] ≡ done (continue_receiving, r, world)
  unfolding receive_loop
  receive_loop-nil fuel r world = refl

  then_loop-fuel :
      (fuel fuel' m : ℕ) (x : Round w os)
      → ((r : FileReceiver os) (world : os.World) (rest : Bytes)
          → IsRecvState r.state
          → measure r.state rest < fuel
          → measure r.state rest < fuel'
          → receive_loop w os fuel r world rest ≡ receive_loop w os fuel' r world rest)
      → m ≤ fuel
      → m ≤ fuel'
      → Progress m x
      → then_loop fuel x ≡ then_loop fuel' x
  then_loop-fuel fuel fuel' m (goes_on r world rest) ih h h' p =
      ih r world rest p.0 (omega arith) (omega arith)
  then_loop-fuel fuel fuel' m (returns result) ih h h' p = refl

  -- With more fuel than there is to do, the fuel does not matter.
  receive_loop-fuel :
      (fuel fuel' : ℕ) (r : FileReceiver os) (world : os.World) (rest : Bytes)
      → IsRecvState r.state
      → measure r.state rest < fuel
      → measure r.state rest < fuel'
      → receive_loop w os fuel r world rest ≡ receive_loop w os fuel' r world rest
  receive_loop-fuel fuel fuel' r world [] v h h' =
      receive_loop-nil fuel r world ∙ sym (receive_loop-nil fuel' r world)
  receive_loop-fuel zero fuel' r world (b ∷ rest) v h h' = absurd (omega arith)
  receive_loop-fuel (suc fuel) zero r world (b ∷ rest) v h h' = absurd (omega arith)
  receive_loop-fuel (suc fuel) (suc fuel') r world (b ∷ rest) v h h' =
      receive_loop-suc fuel r world b rest
      ∙ then_loop-fuel fuel fuel' _ (round_at w os r.state r world (b ∷ rest))
          (receive_loop-fuel fuel fuel') (omega arith) (omega arith)
          (round_at-Progress r.state r world (b ∷ rest) v (omega arith))
      ∙ sym (receive_loop-suc fuel' r world b rest)

  pub receive-nil :
      (r : FileReceiver os) (world : os.World)
      → receive w os r world [] ≡ done (continue_receiving, r, world)
  unfolding receive
  receive-nil r world = receive_loop-nil 2 r world

  -- What `receive` makes of a round.
  abbrev pub then_receive : Round w os → Received w os
  then_receive (goes_on r world rest) = receive w os r world rest
  then_receive (returns result) = result

  then_loop-receive :
      (fuel m : ℕ) (x : Round w os) → m ≤ fuel → Progress m x → then_loop fuel x ≡ then_receive x
  unfolding receive
  then_loop-receive fuel m (goes_on r world rest) h p =
      receive_loop-fuel fuel _ r world rest p.0 (omega arith) (omega (arith, weight-le r.state))
  then_loop-receive fuel m (returns result) h p = refl

  -- On bytes that are not empty, in every state that the receiver can be in, receive is one round
  -- of its loop and then receive on what is left: its fuel is always enough.
  pub receive-round :
      (r : FileReceiver os) (world : os.World) (rest : Bytes)
      → IsRecvState r.state
      → 0 < length rest
      → receive w os r world rest ≡ then_receive (round_at w os r.state r world rest)
  unfolding receive
  receive-round r world [] v h = absurd (omega arith)
  receive-round r world (b ∷ rest) v h =
      receive_loop-fuel _ (suc (measure r.state (b ∷ rest))) r world (b ∷ rest) v
        (omega (arith, weight-le r.state)) (omega arith)
      ∙ receive_loop-suc _ r world b rest
      ∙ then_loop-receive _ _ (round_at w os r.state r world (b ∷ rest)) (omega arith)
          (round_at-Progress r.state r world (b ∷ rest) v h)
