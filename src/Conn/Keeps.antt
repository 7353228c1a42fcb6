-- ===== src/Conn/Keeps.antt =====
-- Proofs about `submit_message` of src/main.rs: computations that keep the accounts of `Tidy`, the
-- room that they take, and the panics that they can end in.
use muadib.Prelude.{
  ℕ, ◌+◌, ◌≡◌, refl, ◌∙◌, Bool, true, false, Option, none, some, [], ◌∷◌, if_elim, inl, inr,
  Outcome, ok, zero, suc, ◌≤◌, done, panic, ◌>>=◌, arith, is_own, is_lack, is_inner, is_inner_cases,
  Panic, length-append, stops_by, sym, length_out_of_range, ltb, length, ◌^◌,
}
use muadib.Prelude.Bytes.{Bytes}
use muadib.Interface.Os.{Os, IsPosix}
use muadib.Interface.Ring.{Ring, IsRing32, Sqe}
use muadib.Message.{AdbHeader, header_bytes, header_from_payload, Command, ProtocolVersion}
use muadib.Buffers.{BufferManager}
use muadib.Buffers.Slots.{count_free, IsAllocated, alloc_with_cases}
use muadib.Stream.{Stream}
use muadib.Stream.Ids.{IsTable}
use muadib.Stream.Fit.{IsFit}
use muadib.Stream.Lives.{IsLaterTable-refl}
use muadib.Conn.{
  Conn, expect_id, push, write_sqe, submit_write, filter_payload, submit_filtered, submit_message,
}
use muadib.Conn.Continue.{with_stream}
use muadib.UserData.{UserData, bulk_in_write, non_zero}
use muadib.Conn.Entries.{
  collect-snoc, slot_of, read_kind, read_of, read_of-Names, lacks_of, lacking, lacks_of-Names,
  Names, non_zero_of,
}
use muadib.Conn.Owned.{Owned-push, Owned-write, write_sqe-Names}
use muadib.Conn.Tidy.{out_read, pool_write, count_ops-append, Tidy, Tidy-add, Tidy-more}

pub header_from_payload-stops_by :
    (v : ProtocolVersion) (command : Command) (a b : ℕ) (payload : Bytes)
    → stops_by is_inner (header_from_payload v command a b payload) ≡ false
unfolding header_from_payload
header_from_payload-stops_by v command a b payload =
    if_elim (λ (m : Outcome AdbHeader). stops_by is_inner m ≡ false) (ltb (length payload) (2 ^ 32))
      {y = panic length_out_of_range} (λ _. refl) (λ _. refl)

module _ {os : Os} where
  -- Neither what no state and no host is the reason for nor want of room stops an operation on a
  -- value.
  abbrev pub Sure : {A : Type 0} → Conn os → Outcome A → Type 0
  Sure c m = IsPosix os → IsTable os c.streams → IsFit os c.streams → stops_by is_inner m ≡ false

module _ (ring : Ring) {os : Os} where
  -- Room for `n` writes.
  abbrev pub RoomFor : ℕ → Conn os → Type 0
  RoomFor n c = (n ≤ count_free c.buffers.slots) × (length c.queue + n ≤ 32)

  -- From a good state, no panic is the daemon's own, and with room none is for want of it.
  abbrev pub Blames : ℕ → Conn os → Panic → Type 0
  Blames n c why =
      IsPosix os
      → IsTable os c.streams
      → IsFit os c.streams
      → (is_own why ≡ false) × (IsRing32 ring → RoomFor n c → is_lack why ≡ false)

  -- A computation that keeps the accounts whenever it does not panic, and takes room for at most
  -- `n` writes.
  abbrev pub Keeps : ℕ → Conn os → Outcome (Conn os) → Type 0
  Keeps n c (done c') = Tidy n c c'
  Keeps n c (panic why) = Blames n c why

  Blames-after :
      (n k : ℕ) (c d : Conn os) (why : Panic) → Tidy n c d → Blames k d why → Blames (n + k) c why
  Blames-after n k c d why p b = λ posix t f.
      let (own, lack) = b posix (p.table t) (p.fits f) in
      (own, λ r room. lack r (omega (arith, p.free, room.0), omega (arith, p.queued, room.1)))

  pub Keeps-more :
      (n k : ℕ) (c : Conn os) (m : Outcome (Conn os)) → n ≤ k → Keeps n c m → Keeps k c m
  Keeps-more n k c (done d) le p = Tidy-more le p
  Keeps-more n k c (panic why) le p = λ posix t f.
      let (own, lack) = p posix t f in
      (own, λ r room. lack r (omega (arith, le, room.0), omega (arith, le, room.1)))

  Keeps-add :
      (n k : ℕ) (c d : Conn os) (m : Outcome (Conn os))
      → Tidy n c d
      → Keeps k d m
      → Keeps (n + k) c m
  Keeps-add n k c d (done e) p q = Tidy-add n k p q
  Keeps-add n k c d (panic why) p q = Blames-after n k c d why p q

  pub Keeps-after :
      {c d : Conn os} (n : ℕ) (m : Outcome (Conn os)) → Tidy 0 c d → Keeps n d m → Keeps n c m
  Keeps-after {c} {d} n m p k = Keeps-more (0 + n) n c m (omega arith) (Keeps-add 0 n c d m p k)

  pub Keeps-bind :
      (n k : ℕ) (c : Conn os) (m : Outcome (Conn os)) (f : Conn os → Outcome (Conn os))
      → Keeps n c m
      → ((d : Conn os) → m ≡ done d → Keeps k d (f d))
      → Keeps (n + k) c (m >>= f)
  Keeps-bind n k c (done d) f p q = Keeps-add n k c d (f d) p (q d refl)
  Keeps-bind n k c (panic why) f p q = Keeps-more n (n + k) c (panic why) (omega arith) p

  pub Keeps-bind_value :
      {A : Type 0} (n : ℕ) (c : Conn os) (m : Outcome A) (f : A → Outcome (Conn os))
      → Sure c m
      → ((a : A) → m ≡ done a → Keeps n c (f a))
      → Keeps n c (m >>= f)
  Keeps-bind_value n c (done a) f h k = k a refl
  Keeps-bind_value n c (panic why) f h k =
      λ posix t fit. let (own, lack) = is_inner_cases why (h posix t fit) in (own, λ r room. lack)

  -- A header that is made for a payload.
  pub Keeps-header :
      (n : ℕ) (c : Conn os) (v : ProtocolVersion) (command : Command) (a b : ℕ) (payload : Bytes)
      → (f : AdbHeader → Outcome (Conn os)) → ((h : AdbHeader) → Keeps n c (f h))
      → Keeps n c (header_from_payload v command a b payload >>= f)
  Keeps-header n c v command a b payload f k =
      Keeps-bind_value n c (header_from_payload v command a b payload) f
        (λ _ _ _. header_from_payload-stops_by v command a b payload) (λ h _. k h)

  -- The id of a stream, which is not 0.
  pub Keeps-id :
      (n : ℕ) (c : Conn os) (k : ℕ) (f : Option ℕ → Outcome (Conn os))
      → (IsTable os c.streams → 1 ≤ k)
      → (1 ≤ k → Keeps n c (f (some k)))
      → Keeps n c (expect_id (non_zero k) >>= f)
  Keeps-id n c zero f p h = λ posix t fit. absurd (omega (arith, p t))
  Keeps-id n c (suc k) f p h = h (omega arith)

  pub Keeps-with_stream :
      (n : ℕ) (c : Conn os) (o : Option (Stream os)) (absent : Outcome (Conn os))
      → (present : Stream os → Outcome (Conn os)) → Keeps n c absent
      → ((s : Stream os) → o ≡ some s → Keeps n c (present s))
      → Keeps n c (with_stream o absent present)
  Keeps-with_stream n c none x f a p = a
  Keeps-with_stream n c (some s) x f a p = p s refl

  pub queue_has_room :
      (c : Conn os) → ring.is_full c.queue ≡ true → IsRing32 ring → RoomFor 1 c → true ≡ false
  queue_has_room c full r room = sym full ∙ r.has_room c.queue (omega (arith, room.1))

  -- An entry that neither reads the next message nor writes a buffer.
  pub push-Keeps :
      (e : Sqe) (u : UserData) (c : Conn os)
      → out_read e.op ≡ 0
      → pool_write e.op ≡ 0
      → slot_of (ok u) ≡ none
      → read_kind (ok u) ≡ none
      → lacking (ok u) ≡ none
      → (IsTable os c.streams → Names e u)
      → Keeps 1 c (push ring e c)
  unfolding push
  push-Keeps e u c hr hw hs hk hl names =
      if_elim (Keeps 1 c) (ring.is_full c.queue)
        (λ full _ _ _. (refl, λ r room. queue_has_room c full r room))
        (λ _. record {
          pool = λ h. h;
          table = λ h. h;
          reads = omega (arith, count_ops-append out_read c.queue (e ∷ []), hr);
          slots = omega (arith, count_ops-append pool_write c.queue (e ∷ []), hw);
          owned = λ h t pre o. Owned-push pre c.queue e u c.buffers (names t) hs o;
          asks = λ h t. collect-snoc read_of c.queue e (read_of-Names e u (names t) ∙ hk);
          named = λ h t. collect-snoc lacks_of c.queue e (lacks_of-Names e u (names t) ∙ hl);
          fits = λ h. h;
          later = IsLaterTable-refl os c.streams;
          free = omega arith;
          queued = omega (arith, length-append c.queue (e ∷ []));
        })

  -- A buffer is taken, and the write of it is queued.
  push_write-Keeps :
      (c : Conn os) (content : Bytes) (slot : ℕ) (m : BufferManager) (linked : Bool)
      → IsAllocated c.buffers content slot m
      → Keeps 1 c (push ring (write_sqe content (some slot) linked) (record c { buffers = m }))
  unfolding push
  push_write-Keeps c content slot m linked a =
      let e : Sqe = write_sqe content (some slot) linked in
      if_elim (Keeps 1 c) (ring.is_full c.queue)
        (λ full _ _ _. (refl, λ r room. queue_has_room c full r room))
        (λ _. record {
          pool = λ h. a.same_size ∙ h;
          table = λ h. h;
          reads = omega (arith, count_ops-append out_read c.queue (e ∷ []));
          slots = omega (arith, a.one_fewer, count_ops-append pool_write c.queue (e ∷ []));
          owned = λ h t pre o. Owned-write pre c.queue c.buffers m content linked slot h a o;
          asks = λ h t. collect-snoc read_of c.queue e (
              read_of-Names e (record { op_type = bulk_in_write; id = some slot })
                (write_sqe-Names content slot linked a.positive (omega (arith, a.in_range, h))));
          named = λ h t. collect-snoc lacks_of c.queue e (
              lacks_of-Names e (record { op_type = bulk_in_write; id = some slot })
                (write_sqe-Names content slot linked a.positive (omega (arith, a.in_range, h))));
          fits = λ h. h;
          later = IsLaterTable-refl os c.streams;
          free = omega (arith, a.one_fewer);
          queued = omega (arith, length-append c.queue (e ∷ []));
        })

  pub submit_write-Keeps :
      (content : Bytes) (linked : Bool) (c : Conn os)
      → Keeps 1 c (submit_write ring content linked c)
  unfolding submit_write
  submit_write-Keeps content linked c = elim (alloc_with_cases c.buffers content) [
    | inl (none_free, e) ↦
        rw e (λ _ _ _. (refl, λ r room. absurd (omega (arith, none_free, room.0))))
    | inr (slot, m, e, a) ↦
        rw (e, non_zero_of slot a.positive) (push_write-Keeps c content slot m linked a)
  ]

  submit_filtered-Keeps :
      (h : AdbHeader) (payload : Option Bytes) (c : Conn os)
      → Keeps 2 c (submit_filtered ring h payload c)
  submit_filtered-Keeps h none c =
      Keeps-more 1 2 c (submit_write ring (header_bytes h) false c) (omega arith)
        (submit_write-Keeps (header_bytes h) false c)
  submit_filtered-Keeps h (some p) c =
      Keeps-bind 1 1 c (submit_write ring (header_bytes h) true c) _
        (submit_write-Keeps (header_bytes h) true c) (λ d _. submit_write-Keeps p false d)

  pub submit_message-Keeps :
      (h : AdbHeader) (payload : Option Bytes) (c : Conn os)
      → Keeps 2 c (submit_message ring h payload c)
  unfolding submit_message
  submit_message-Keeps h payload c = submit_filtered-Keeps h (filter_payload payload) c

  -- A header alone takes room for one write.
  pub submit_message-Keeps_bare :
      (h : AdbHeader) (c : Conn os) → Keeps 1 c (submit_message ring h none c)
  unfolding submit_message
  submit_message-Keeps_bare h c = submit_write-Keeps (header_bytes h) false c
