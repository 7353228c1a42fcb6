-- ===== src/Conn/Owned.antt =====
-- Proofs about the buffers of src/main.rs: each entry that is pushed and the slot that it uses.
use muadib.Prelude.{
  ℕ, zero, suc, ◌-◌, ◌≤◌, ◌<◌, ◌≡◌, refl, sym, ◌∙◌, ap, Bool, true, false, Option, none, some, ◌^◌,
  List, [], ◌∷◌, ◌++◌, length, get_elem?, ◌==◌, ==_iff, ==_self, Bool-cases, inl, inr,
  if◌then◌else◌, ok, arith, set, length-set, lt→ltb, done,
}
use mathlib.Core.List.{append-nil, append_assoc}
use muadib.Prelude.Bytes.{Bytes}
use muadib.Interface.Ring.{Sqe, Op, write, bulk_in}
use muadib.Buffers.{BufferManager, free}
use muadib.Buffers.Slots.{IsPool, IsAllocated, get_elem?-set}
use muadib.UserData.{bulk_in_write, UserData}
use muadib.Conn.{write_sqe}
use muadib.Conn.Entries.{
  collect, collect-append, collect-drop, collect-only, collect-snoc, slot_of, if_slot, write_of,
  held_write, held, Owned, Names, add_some, write_of-Names,
}

-- An entry that writes no buffer.
pub Owned-push :
    (pre q : List Sqe) (e : Sqe) (u : UserData) (m : BufferManager)
    → Names e u
    → slot_of (ok u) ≡ none
    → Owned (pre ++ q) m
    → Owned (pre ++ (q ++ (e ∷ []))) m
Owned-push pre q e u m n h o i =
    ap (collect (write_of i)) (sym (append_assoc pre q (e ∷ [])))
    ∙ collect-snoc (write_of i) (pre ++ q) e (write_of-Names e u i n ∙ ap (λ s. if_slot s i e.op) h)
    ∙ o i

pub write_sqe-Names :
    (content : Bytes) (slot : ℕ) (linked : Bool)
    → 1 ≤ slot
    → slot < 2 ^ 32
    → Names
        (write_sqe content (some slot) linked)
        (record { op_type = bulk_in_write; id = some slot })
write_sqe-Names content slot linked lo hi = (refl, (lo, hi))

-- The buffers after a slot is filled, with the write of it.
held-filled :
    (m m' : BufferManager) (content : Bytes) (k i : ℕ)
    → get_elem? m.slots k ≡ some none
    → ((j : ℕ)
        → get_elem? m'.slots j ≡ (if k == j then some (some content) else get_elem? m.slots j))
    → held m i ++ add_some (if_slot (some (suc k)) i (write bulk_in content)) [] ≡ held m' i
held-filled m m' content k zero free' after = ground arith
held-filled m m' content k (suc j) free' after = elim (Bool-cases (k == j)) [
  | inl e ↦
      let same : k ≡ j = (==_iff k j).0 e in
      let also : (suc k == suc j) ≡ true = ground arith in
      let was : get_elem? m.slots j ≡ some none =
        ap (λ (x : ℕ). get_elem? m.slots x) (sym same) ∙ free' in
      rw (after j, e, also, was) refl
  | inr e ↦
      let differ : (suc k == suc j) ≡ false = ground arith in
      rw (after j, e, differ) (append-nil (held_write (get_elem? m.slots j)))
]

-- A write of a buffer that was free.
Owned-write_at :
    (pre q : List Sqe) (m m' : BufferManager) (content : Bytes) (linked : Bool) (k : ℕ)
    → k < 8
    → get_elem? m.slots k ≡ some none
    → ((j : ℕ)
        → get_elem? m'.slots j ≡ (if k == j then some (some content) else get_elem? m.slots j))
    → Owned (pre ++ q) m
    → Owned (pre ++ (q ++ (write_sqe content (some (suc k)) linked ∷ []))) m'
Owned-write_at pre q m m' content linked k small free' after o i =
    let e = write_sqe content (some (suc k)) linked in
    ap (collect (write_of i)) (sym (append_assoc pre q (e ∷ [])))
    ∙ collect-append (write_of i) (pre ++ q) (e ∷ [])
    ∙ ap (λ (l : List Op). l ++ add_some (write_of i e) []) (o i)
    ∙ ap (λ (x : Option Op). held m i ++ add_some x [])
        (write_of-Names e _ i (write_sqe-Names content (suc k) linked (omega arith) (omega arith)))
    ∙ held-filled m m' content k i free' after

pub Owned-write :
    (pre q : List Sqe) (m m' : BufferManager) (content : Bytes) (linked : Bool) (slot : ℕ)
    → IsPool m
    → IsAllocated m content slot m'
    → Owned (pre ++ q) m
    → Owned (pre ++ (q ++ (write_sqe content (some slot) linked ∷ []))) m'
Owned-write pre q m m' content linked zero p a o = absurd (omega (arith, a.positive))
Owned-write pre q m m' content linked (suc k) p a o =
    let back : suc k - 1 ≡ k = omega arith in
    Owned-write_at pre q m m' content linked k (omega (arith, a.in_range, p))
      (rw back at a.was_free) (λ j. rw back at (a.contents j)) o

-- A completed entry that wrote no buffer is gone.
pub Owned-drop :
    (a b q : List Sqe) (e : Sqe) (m : BufferManager)
    → ((i : ℕ) → write_of i e ≡ none)
    → Owned ((a ++ (e ∷ b)) ++ q) m
    → Owned ((a ++ b) ++ q) m
Owned-drop a b q e m h o i =
    ap (collect (write_of i)) (append_assoc a b q)
    ∙ sym (collect-drop (write_of i) a e (b ++ q) (h i))
    ∙ ap (collect (write_of i)) (sym (append_assoc a (e ∷ b) q))
    ∙ o i

-- The buffers after a slot is freed.
held-freed :
    (m : BufferManager) (k i : ℕ)
    → k < length m.slots
    → held (record { slots = set m.slots k none }) i ≡ (if suc k == i then [] else held m i)
held-freed m k zero h = ground arith
held-freed m k (suc j) h = elim (Bool-cases (k == j)) [
  | inl e ↦
      let also : (suc k == suc j) ≡ true = ground arith in
      rw (get_elem?-set m.slots k j none h, e, also) refl
  | inr e ↦
      let differ : (suc k == suc j) ≡ false = ground arith in
      rw (get_elem?-set m.slots k j none h, e, differ) refl
]

in_use_range :
    (slots : List (Option Bytes)) (k : ℕ) (op : Op) (ops : List Op)
    → held_write (get_elem? slots k) ≡ op ∷ ops
    → k < length slots
in_use_range [] k op ops h = absurd (cc)
in_use_range (s ∷ slots) zero op ops h = omega arith
in_use_range (s ∷ slots) (suc k) op ops h = omega (arith, in_use_range slots k op ops h)

not_empty : {X : Type 0} (l r : List X) (x : X) → l ++ (x ∷ r) ≡ [] → (y : X) × ([] ≡ y ∷ [])
not_empty [] r x h = absurd (cc)
not_empty (z ∷ l) r x h = absurd (cc)

one_held :
    (x : Option (Option Bytes)) (l r : List Op) (op : Op)
    → l ++ (op ∷ r) ≡ held_write x
    → (y : Op) × (held_write x ≡ y ∷ [])
one_held none l r op h = not_empty l r op h
one_held (some none) l r op h = not_empty l r op h
one_held (some (some b)) l r op h = (write bulk_in b, refl)

-- What the completion of a write comes to: its slot is freed, and the other buffers stay.
pub record IsReleased (rest : List Sqe) (slot : ℕ) (m m' : BufferManager) : Type 0 where
  pub freed : free slot m ≡ done m'
  pub owned : Owned rest m'
  pub same_size : length m'.slots ≡ length m.slots

module _ (a b q : List Sqe) (e : Sqe) (m : BufferManager) where
  completed_write :
      (i : ℕ)
      → write_of i e ≡ some e.op
      → Owned ((a ++ (e ∷ b)) ++ q) m
      → collect (write_of i) a ++ (e.op ∷ collect (write_of i) (b ++ q)) ≡ held m i
  completed_write i h o =
      ap (λ (x : Option Op). collect (write_of i) a ++ add_some x (collect (write_of i) (b ++ q)))
        (sym h)
      ∙ sym (collect-append (write_of i) a (e ∷ (b ++ q)))
      ∙ ap (collect (write_of i)) (sym (append_assoc a (e ∷ b) q))
      ∙ o i

  pub Owned-free :
      (slot : ℕ)
      → ((i : ℕ) → write_of i e ≡ if_slot (some slot) i e.op)
      → Owned ((a ++ (e ∷ b)) ++ q) m
      → (m' : BufferManager) × IsReleased ((a ++ b) ++ q) slot m m'
  Owned-free zero w o =
      let (y, none_held) = not_empty _ _ _ (completed_write 0 (w 0) o) in absurd (cc)
  Owned-free (suc k) w o =
      let this : write_of (suc k) e ≡ some e.op = w (suc k) ∙ rw (==_self (suc k)) refl in
      let (y, only) = one_held (get_elem? m.slots k) _ _ e.op (completed_write (suc k) this o) in
      let small : k < length m.slots = in_use_range m.slots k y [] only in
      (
        record { slots = set m.slots k none },
        record {
          freed = unfold free in rw (lt→ltb k (length m.slots) small) refl;
          owned = λ i.
              ap (collect (write_of i)) (append_assoc a b q)
              ∙ left i y only this
              ∙ sym (held-freed m k i small);
          same_size = length-set m.slots k none;
        },
      )
    where
      left :
          (i : ℕ) (y : Op)
          → held m (suc k) ≡ y ∷ []
          → write_of (suc k) e ≡ some e.op
          → collect (write_of i) (a ++ (b ++ q)) ≡ (if suc k == i then [] else held m i)
      left i y only this = elim (Bool-cases (suc k == i)) [
        | inl s ↦
            let same : suc k ≡ i = (==_iff (suc k) i).0 s in
            rw s (
              ap (λ (j : ℕ). collect (write_of j) (a ++ (b ++ q))) (sym same)
              ∙ collect-only (write_of (suc k)) a e (b ++ q) e.op y this (
                  ap (collect (write_of (suc k))) (sym (append_assoc a (e ∷ b) q))
                  ∙ o (suc k)
                  ∙ only))
        | inr s ↦ rw s (
            sym (collect-drop (write_of i) a e (b ++ q) (w i ∙ rw s refl))
            ∙ ap (collect (write_of i)) (sym (append_assoc a (e ∷ b) q))
            ∙ o i)
      ]
