-- ===== src/Sync/Receiver/Chunks.antt =====
-- Proofs about `receive` of src/sync.rs on a push that is cut into payloads.
use muadib.Prelude.{
  ℕ, zero, suc, ◌+◌, ◌-◌, ◌*◌, min, ◌≤◌, ◌<◌, ◌≡◌, refl, sym, ◌∙◌, ap, [], ◌∷◌, ◌++◌, length,
  length-append, length-drop, lt_of_leb-false, take, drop, leb, leb→le, take_all, drop_all, lt→ltb,
  take-append_le, drop-append_le, take-append_ge, drop-append_ge, Bool-cases, inl, inr, Outcome,
  done, panic, ◌>>=◌, arith, Result, ok, err,
}
use muadib.Prelude.Bytes.{Bytes}
use muadib.Interface.Winnow.{Winnow}
use muadib.Interface.Os.{Os, Io, IsPosix, on_result, on_result_rel, on_result_cong, after}
use muadib.Sync.Receiver.{
  RecvState, header, partial_header, receiving_data, FileReceiver, Round, goes_on, header_size,
  round_header, round_partial, round_data, round_at, after_data,
}
use muadib.Sync.Receiver.Rounds.{IsRecvState, pad, measure}
use muadib.Sync.Receiver.Feed.{
  Seen, feed, then_feed, see, feed-nil, feed-round, refuse-IsFinal, see-refuse,
}
use mathlib.Core.List.{append-nil, append_assoc}
use muadib.Sync.Receiver.Headers.{fewer, see-round_partial, SplitBelow, see-round_header_split}

module _ (w : Winnow) (os : Os) where
  -- A write of data that lies wholly in the first piece.
  see-round_data_within :
      (n : ℕ) (r : FileReceiver os) (world : os.World) (a b : Bytes)
      → 0 < length a
      → n ≤ length a
      → SplitBelow w os (measure (receiving_data n) a) b
      → see w os (round_data w os n r world (a ++ b))
        ≡ (see w os (round_data w os n r world a) >>= then_feed w os b)
  unfolding round_data
  see-round_data_within n r world a b h k ih =
      let whole : min n (length (a ++ b)) ≡ n = omega (arith, length-append a b) in
      let first : min n (length a) ≡ n = omega arith in
      let used : n - n ≡ 0 = omega arith in
      rw (whole, first, used, take-append_le n a b k, drop-append_le n a b k)
        (on_result_rel (λ x y. see w os x ≡ (see w os y >>= then_feed w os b))
          (os.write_all r.file (take n a) world)
          (λ _ world'.
            unfold feed in ih (record r { state = header }) world' (drop n a) tt (fewer n a h))
          (λ e world'. sym (refuse-IsFinal w os r world' _ b)))

  -- The rest of a frame's data, in the next piece.
  see-rest_of_data :
      (m : ℕ) (r : FileReceiver os) (world : os.World) (b : Bytes)
      → 0 < length b
      → see w os (round_data w os m r world b)
        ≡ feed w os (record r { state = receiving_data m }) world b
  see-rest_of_data m r world b h = sym (
      feed-round w os (record r { state = receiving_data m }) world b tt h
      ∙ unfold round_at round_data in
        on_result_cong (see w os) (os.write_all r.file (take (min m (length b)) b) world)
          (λ _ _. refl) (λ e world'. see-refuse w os (receiving_data m) r world' _))

  -- A first write that uses up its piece, and a second one.
  see-two_writes :
      (x : Result os.Error (Unit {0}) × os.World)
      → (g : Io os.World os.Error (Unit {0})) → (good : Unit {0} → os.World → Round w os)
      → (bad : os.Error → os.World → Round w os) → (r : FileReceiver os) (b : Bytes)
      → ((world : os.World) → see w os (on_result (g world) good bad) ≡ feed w os r world b)
      → ((e : os.Error) (world : os.World)
          → (see w os (bad e world) >>= then_feed w os b) ≡ see w os (bad e world))
      → see w os (on_result (after x (λ _. g)) good bad)
        ≡ (see w os (on_result x (λ _ world. goes_on r world []) bad) >>= then_feed w os b)
  see-two_writes (ok u, world) g good bad r b second failed =
      second world ∙ unfold feed in sym (ap (λ y. y >>= then_feed w os b) (feed-nil w os r world))
  see-two_writes (err e, world) g good bad r b second failed = sym (failed e world)

  module _ (posix : IsPosix os) where
    see-round_data_across :
        (n : ℕ) (r : FileReceiver os) (world : os.World) (a b : Bytes)
        → 0 < length b
        → length a < n
        → see w os (round_data w os n r world (a ++ b))
          ≡ (see w os (round_data w os n r world a) >>= then_feed w os b)
    unfolding round_data
    see-round_data_across n r world a b h k =
        let m : ℕ = n - length a in
        let t : ℕ = min m (length b) in
        let whole : min n (length (a ++ b)) ≡ length a + t = omega (arith, length-append a b) in
        let first : min n (length a) ≡ length a = omega arith in
        let left : length a + t - length a ≡ t = omega arith in
        let later : n - (length a + t) ≡ m - t = omega arith in
        let more : after_data m ≡ receiving_data m = rw (lt→ltb 0 m (omega arith)) in
        rw
          (
            whole,
            first,
            later,
            more,
            take-append_ge (length a + t) a b (omega arith),
            drop-append_ge (length a + t) a b (omega arith),
            left,
            take_all (length a) a (omega arith),
            drop_all (length a) a (omega arith),
            posix.write_all_append r.file a (take t b) world,
          )
          (see-two_writes (os.write_all r.file a world) _ _ _
            (record r { state = receiving_data m }) b (λ world'. see-rest_of_data m r world' b h)
            (λ e world'. refuse-IsFinal w os r world' _ b))

    see-round_data_split :
        (n : ℕ) (r : FileReceiver os) (world : os.World) (a b : Bytes)
        → 0 < length a
        → 0 < length b
        → SplitBelow w os (measure (receiving_data n) a) b
        → see w os (round_data w os n r world (a ++ b))
          ≡ (see w os (round_data w os n r world a) >>= then_feed w os b)
    see-round_data_split n r world a b ha hb ih = elim (Bool-cases (leb n (length a))) [
      | inl e ↦ see-round_data_within n r world a b ha (leb→le _ _ e) ih
      | inr e ↦ see-round_data_across n r world a b hb (lt_of_leb-false _ _ e)
    ]

    see-round_partial_split :
        (x : Bytes) (r : FileReceiver os) (world : os.World) (a b : Bytes)
        → length x < header_size
        → 0 < length a
        → SplitBelow w os (2 * length a) b
        → see w os (round_partial w os (pad x) (length x) r world (a ++ b))
          ≡ (see w os (round_partial w os (pad x) (length x) r world a) >>= then_feed w os b)
    see-round_partial_split x r world a b hx ha ih =
        see-round_partial w os x (a ++ b) r r.state world hx
        ∙ ap (λ l. see w os (round_header w os r world l)) (sym (append_assoc x a b))
        ∙ see-round_header_split w os r world (x ++ a) b (omega (arith, length-append x a))
            (λ r' world' rest v h.
              ih r' world' rest v
                (omega (arith, h, length-append x a, length-drop header_size (x ++ a))))
        ∙ ap (λ y. y >>= then_feed w os b) (sym (see-round_partial w os x a r r.state world hx))

    see-round_split :
        (s : RecvState) (r : FileReceiver os) (world : os.World) (a b : Bytes)
        → IsRecvState s
        → 0 < length a
        → 0 < length b
        → SplitBelow w os (measure s a) b
        → see w os (round_at w os s r world (a ++ b))
          ≡ (see w os (round_at w os s r world a) >>= then_feed w os b)
    unfolding round_at
    see-round_split header r world a b v ha hb ih =
        see-round_header_split w os r world a b ha (λ r' world' rest v' h.
          ih r' world' rest v' (omega (arith, h, length-drop header_size a)))
    see-round_split (partial_header leftovers len) r world a b (x, ex, el, lo, hi) ha hb ih =
        rw (ex, el)
          (see-round_partial_split x r world a b hi ha
            (λ r' world' rest v' h. ih r' world' rest v' (omega (arith, h))))
    see-round_split (receiving_data n) r world a b v ha hb ih =
        see-round_data_split n r world a b ha hb ih

    then_feed-nil : (x : Outcome (Seen w os)) → (x >>= then_feed w os []) ≡ x
    then_feed-nil (done (inl answer)) = refl
    then_feed-nil (done (inr (r, world))) = feed-nil w os r world
    then_feed-nil (panic why) = refl

    split_below : (n : ℕ) (more : Bytes) → SplitBelow w os n more
    split_below n [] r world rest v h =
        ap (feed w os r world) (append-nil rest) ∙ sym (then_feed-nil (feed w os r world rest))
    split_below n (y ∷ more) r world [] v h =
        sym (ap (λ x. x >>= then_feed w os (y ∷ more)) (feed-nil w os r world))
    split_below zero (y ∷ more) r world (z ∷ rest) v h = absurd (omega arith)
    split_below (suc n) (y ∷ more) r world (z ∷ rest) v h =
        feed-round w os r world (z ∷ (rest ++ (y ∷ more))) v (omega arith)
        ∙ see-round_split r.state r world (z ∷ rest) (y ∷ more) v (omega arith) (omega arith)
            (λ r' world' rest' v' h'.
              split_below n (y ∷ more) r' world' rest' v' (omega (arith, h')))
        ∙ ap (λ x. x >>= then_feed w os (y ∷ more))
            (sym (feed-round w os r world (z ∷ rest) v (omega arith)))

    -- Over a file that is written in order, a payload of a push fed in two pieces does what it does
    -- fed at once, in every state that the receiver can be in: same writes, same answer or same
    -- receiver that waits.
    pub feed-append :
        (r : FileReceiver os) (world : os.World) (data' more : Bytes)
        → IsRecvState r.state
        → feed w os r world (data' ++ more) ≡ (feed w os r world data' >>= then_feed w os more)
    feed-append r world data' more v =
        split_below (suc (measure r.state data')) more r world data' v (omega arith)
