-- ===== src/Sync/Receiver/Headers.antt =====
-- Proofs about the header rounds of `receive` in src/sync.rs, on a payload that is cut.
use muadib.Prelude.{
  ℕ, zero, suc, ◌+◌, ◌-◌, ◌*◌, min, ◌≤◌, ◌<◌, ◌≡◌, refl, sym, ◌∙◌, ap, [], ◌∷◌, ◌++◌, length,
  length-append, length-drop, length-take, lt_of_leb-false, leb-false_of_lt, take, drop, replicate,
  leb, leb→le, le→leb, take_all, take-append_le, drop-append_le, take-append_ge, drop-append_ge,
  take-length_append, drop-replicate, Bool-cases, inl, inr, ◌>>=◌, arith,
}
use muadib.Prelude.Bytes.{Bytes}
use muadib.Interface.Winnow.{Winnow}
use muadib.Interface.Os.{Os}
use muadib.Sync.Receiver.{
  RecvState, header, partial_header, receiving_data, FileReceiver, header_size, copy_at,
  round_header, round_partial, round_at,
}
use muadib.Sync.Receiver.Rounds.{IsRecvState, pad, measure, on_header-Progress}
use muadib.Sync.Receiver.Feed.{
  feed, then_feed, see, feed-nil, feed-round, on_header-append, see-on_header, IsSplit,
  see-append_rest,
}
use mathlib.Core.List.{append-nil, append_assoc}

-- A header's bytes, copied behind those that came before.
copy_at-pad :
    (x y : Bytes)
    → length x + length y ≤ header_size
    → copy_at (length x) y (pad x) ≡ x ++ (y ++ replicate (header_size - length x - length y) 0)
copy_at-pad x y h =
    let z : Bytes = replicate (header_size - length x) 0 in
    rw
      (
        take-length_append x z,
        drop-append_ge (length x + length y) x z (omega arith),
        drop-replicate,
      )
      (ap (λ (n : ℕ). x ++ (y ++ replicate n 0)) (omega arith))

copy_at-pad_short :
    (x y : Bytes) → length x + length y < header_size → copy_at (length x) y (pad x) ≡ pad (x ++ y)
copy_at-pad_short x y h =
    copy_at-pad x y (omega arith)
    ∙ sym (append_assoc x y _)
    ∙ ap (λ (n : ℕ). (x ++ y) ++ replicate n 0) (omega (arith, length-append x y))

copy_at-pad_whole :
    (x y : Bytes) → length x + length y ≡ header_size → copy_at (length x) y (pad x) ≡ x ++ y
copy_at-pad_whole x y h =
    copy_at-pad x y (omega arith)
    ∙ ap (λ (n : ℕ). x ++ (y ++ replicate n 0)) {y = 0} (omega arith)
    ∙ ap (λ (l : Bytes). x ++ l) (append-nil y)

-- The state after a payload that ends inside a header, from both sides.
pub waits-pad :
    (x a : Bytes)
    → length x + length a < header_size
    → partial_header
        (copy_at (length x) (take (min (header_size - length x) (length a)) a) (pad x))
        (length x + min (header_size - length x) (length a))
      ≡ partial_header (pad (x ++ a)) (length (x ++ a))
waits-pad x a h =
    rw (take_all (min (header_size - length x) (length a)) a (omega arith), copy_at-pad_short x a h)
      (ap (partial_header (pad (x ++ a))) (omega (arith, length-append x a)))

pub copy_at-nil :
    (x : Bytes) → length x < header_size → copy_at 0 x (replicate header_size 0) ≡ pad x
copy_at-nil x h = copy_at-pad_short [] x (omega arith)

pub fewer :
    (n : ℕ) (a : Bytes) → 0 < length a → measure header (drop n a) < measure (receiving_data n) a
fewer zero a h = omega arith
fewer (suc n) a h = omega (arith, length-drop (suc n) a)

module _ (w : Winnow) (os : Os) where
  -- A part of a header that waits is as good as its bytes in front of the next payload.
  pub see-round_partial :
      (x a : Bytes) (r : FileReceiver os) (s : RecvState) (world : os.World)
      → length x < header_size
      → see w os (round_partial w os (pad x) (length x) (record r { state = s }) world a)
        ≡ see w os (round_header w os r world (x ++ a))
  unfolding round_partial round_header
  see-round_partial x a r s world h = elim (Bool-cases (leb (header_size - length x) (length a))) [
    | inl e ↦
        let enough : header_size ≤ length x + length a = omega (arith, leb→le _ _ e) in
        rw (e, le→leb header_size (length (x ++ a)) (omega (arith, length-append x a)))
          (see-on_header w os _ s r world _
            ∙ rw (
              copy_at-pad_whole x (take (header_size - length x) a)
                  (omega (arith, length-take (header_size - length x) a)),
              take-append_ge header_size x a (omega arith),
              drop-append_ge header_size x a (omega arith),
            ))
    | inr e ↦
        let short : length x + length a < header_size = omega (arith, lt_of_leb-false _ _ e) in
        rw (
          e,
          leb-false_of_lt header_size (length (x ++ a)) (omega (arith, length-append x a)),
          waits-pad x a short,
          copy_at-nil (x ++ a) (omega (arith, length-append x a)),
        )
  ]

  -- What is known of smaller inputs.
  abbrev pub SplitBelow : ℕ → Bytes → Type 0
  SplitBelow m more =
      (r : FileReceiver os) (world : os.World) (rest : Bytes)
      → IsRecvState r.state
      → measure r.state rest < m
      → IsSplit w os r world rest more

  see-round_header_short :
      (r : FileReceiver os) (world : os.World) (a b : Bytes)
      → 0 < length a
      → length a < header_size
      → see w os (round_header w os r world (a ++ b))
        ≡ feed w os (record r { state = partial_header (pad a) (length a) }) world b
  unfolding round_header
  see-round_header_short r world a [] h k =
      rw (append-nil a, leb-false_of_lt header_size (length a) k, copy_at-nil a k, feed-nil)
  see-round_header_short r world a (y ∷ ys) h k = sym (
      feed-round w os (record r { state = partial_header (pad a) (length a) }) world (y ∷ ys)
        (a, refl, refl, h, k) (omega arith)
      ∙ unfold round_at in see-round_partial a (y ∷ ys) r _ world k)

  pub see-round_header_split :
      (r : FileReceiver os) (world : os.World) (a b : Bytes)
      → 0 < length a
      → SplitBelow (2 * length (drop header_size a) + 2) b
      → see w os (round_header w os r world (a ++ b))
        ≡ (see w os (round_header w os r world a) >>= then_feed w os b)
  see-round_header_split r world a b h ih = elim (Bool-cases (leb header_size (length a))) [
    | inl e ↦
        let long : header_size ≤ length a = leb→le _ _ e in
        let (parts, final) =
          on_header-append w os (take header_size a) r world (drop header_size a) b in
        unfold round_header in
        rw
          (
            e,
            le→leb header_size (length (a ++ b)) (omega (arith, length-append a b)),
            take-append_le header_size a b long,
            drop-append_le header_size a b long,
            parts,
          )
          (see-append_rest w os b (2 * length (drop header_size a) + 2) _
            (on_header-Progress w os _ r world _ _ (omega arith)) final ih)
    | inr e ↦
        let short : length a < header_size = lt_of_leb-false _ _ e in
        see-round_header_short r world a b h short
        ∙ unfold round_header in rw (e, copy_at-nil a short)
  ]
