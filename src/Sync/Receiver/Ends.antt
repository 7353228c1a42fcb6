-- ===== src/Sync/Receiver/Ends.antt =====
-- Proofs about the end of the loop of `receive` in src/sync.rs.
use muadib.Prelude.{
  ℕ, zero, suc, ◌<◌, ◌≡◌, refl, Bool, true, false, Option, none, some, [], ◌∷◌, length, leb,
  if_elim, ltb, Panic, out_of_fuel, stops_by, stops_by-bind, Outcome, panic, arith, ◌-◌, ◌^◌,
  length_out_of_range,
}
use muadib.Prelude.Bytes.{Bytes}
use muadib.Interface.Winnow.{Winnow}
use muadib.Interface.Os.{Os, on_result_elim}
use muadib.Sync.{
  SyncResponse, SyncFrameRequestId, data_frame, done_frame, SyncFrameRequestHeader, response,
  fail_response, SyncFrameResponseId,
}
use muadib.Sync.Receiver.{
  RecvState, header, partial_header, receiving_data, FileReceiver, Received, Round, goes_on,
  returns, refuse, finalize, on_header_id, on_parsed, on_header, header_size, round_header,
  round_partial, round_data, round_at, receive,
}
use muadib.Sync.Receiver.Rounds.{
  IsRecvState, measure, Progress, round_at-Progress, receive-nil, then_receive, receive-round,
}

abbrev pub is_fuel : Panic → Bool
is_fuel out_of_fuel = true
is_fuel _ = false

-- Whether a loop of the model stopped for want of fuel.
abbrev pub ran_out : {A : Type 0} → Outcome A → Bool
ran_out m = stops_by is_fuel m

pub response-stops_by :
    (bad : Panic → Bool) (id : SyncFrameResponseId) (payload : Bytes)
    → bad length_out_of_range ≡ false
    → stops_by bad (response id payload) ≡ false
unfolding response
response-stops_by bad id payload fine =
    if_elim (λ (m : Outcome SyncResponse). stops_by bad m ≡ false) (ltb (length payload) (2 ^ 32))
      {y = panic length_out_of_range} (λ _. refl) (λ _. fine)

-- The panics of `receive` are one: a message of 2 ^ 32 bytes or more.
module _ (w : Winnow) (os : Os) (bad : Panic → Bool) (fine : bad length_out_of_range ≡ false) where
  abbrev Fed : Round w os → Type 0
  Fed (goes_on r world rest) = Unit
  Fed (returns result) = stops_by bad result ≡ false

  refuse-stops_by :
      (r : FileReceiver os) (world : os.World) (msg : Bytes)
      → stops_by bad (refuse w os r world msg) ≡ false
  refuse-stops_by r world msg =
      stops_by-bind bad (fail_response msg) _ (response-stops_by bad _ msg fine) (λ _. refl)

  finalize-stops_by :
      (r : FileReceiver os) (mtime : ℕ) (world : os.World)
      → stops_by bad (finalize w os r mtime world) ≡ false
  unfolding finalize
  finalize-stops_by r mtime world =
      on_result_elim (λ (m : Received w os). stops_by bad m ≡ false)
        (os.set_permissions r.file r.mode world) (λ _ _ _. refl)
        (λ e world' _. refuse-stops_by r world' _)

  on_header_id-Fed :
      (id : SyncFrameRequestId) (len : ℕ) (r : FileReceiver os) (world : os.World) (rest : Bytes)
      → Fed (on_header_id w os id len r world rest)
  unfolding on_header_id
  on_header_id-Fed data_frame len r world rest = tt
  on_header_id-Fed done_frame len r world rest = finalize-stops_by r len world

  on_parsed-Fed :
      (parsed : Option (SyncFrameRequestHeader × Bytes)) (r : FileReceiver os) (world : os.World)
      → (rest : Bytes) → Fed (on_parsed w os parsed r world rest)
  unfolding on_parsed
  on_parsed-Fed none r world rest = refuse-stops_by r world _
  on_parsed-Fed (some (h, _)) r world rest = on_header_id-Fed h.id h.payload_len r world rest

  round_at-Fed :
      (s : RecvState) (r : FileReceiver os) (world : os.World) (rest : Bytes)
      → Fed (round_at w os s r world rest)
  unfolding round_at round_header round_partial round_data on_header
  round_at-Fed header r world rest =
      if_elim Fed (leb header_size (length rest)) (λ _. on_parsed-Fed _ r world _) (λ _. refl)
  round_at-Fed (partial_header leftovers len) r world rest =
      if_elim Fed (leb (header_size - len) (length rest)) (λ _. on_parsed-Fed _ r world _)
        (λ _. refl)
  round_at-Fed (receiving_data n) r world rest =
      on_result_elim Fed (os.write_all r.file _ world) (λ _ _ _. tt)
        (λ e world' _. refuse-stops_by r world' _)

  abbrev EndsBelow : ℕ → Type 0
  EndsBelow m =
      (r : FileReceiver os) (world : os.World) (rest : Bytes)
      → IsRecvState r.state
      → measure r.state rest < m
      → stops_by bad (receive w os r world rest) ≡ false

  ends_round :
      (m : ℕ) (x : Round w os)
      → Fed x
      → Progress w os m x
      → EndsBelow m
      → stops_by bad (then_receive w os x) ≡ false
  ends_round m (goes_on r world rest) f p below = below r world rest p.0 p.1
  ends_round m (returns result) f p below = f

  ends_below : (m : ℕ) → EndsBelow m
  ends_below zero r world rest v h = absurd (omega arith)
  ends_below (suc m) r world [] v h = rw (receive-nil w os r world) refl
  ends_below (suc m) r world (b ∷ rest) v h =
      rw (receive-round w os r world (b ∷ rest) v (omega arith)) (
        ends_round (measure r.state (b ∷ rest)) _ (round_at-Fed r.state r world (b ∷ rest))
          (round_at-Progress w os r.state r world (b ∷ rest) v (omega arith))
          (λ r' world' rest' v' h'. ends_below m r' world' rest' v' (omega (arith, h, h'))))

  pub receive-stops_by :
      (r : FileReceiver os) (world : os.World) (data' : Bytes)
      → IsRecvState r.state
      → stops_by bad (receive w os r world data') ≡ false
  receive-stops_by r world data' v =
      ends_below (suc (measure r.state data')) r world data' v (omega arith)

module _ (w : Winnow) (os : Os) where
  -- In every state that the receiver can be in, receive ends on every payload: the fuel of its loop
  -- is enough.
  pub receive-ends :
      (r : FileReceiver os) (world : os.World) (data' : Bytes)
      → IsRecvState r.state
      → ran_out (receive w os r world data') ≡ false
  receive-ends r world data' v = receive-stops_by w os is_fuel refl r world data' v
