-- ===== src/Buffers/Slots.antt =====
-- Proofs about the slots of the pool in src/buffers.rs.
use muadib.Prelude.{
  ℕ, zero, suc, ◌+◌, ◌-◌, ◌≤◌, ◌<◌, ◌≡◌, refl, ap, ◌∙◌, ◌==◌, if◌then◌else◌, Option, none, some,
  List, [], ◌∷◌, length, get_elem?, set, length-set, lt→ltb, ◌⊎◌, inl, inr, Option-cases, done,
  panic, slots_in_use, arith,
}
use muadib.Prelude.Bytes.{Bytes}
use muadib.Buffers.{BufferManager, max_buffer_slots, position_none, alloc_with, free}

-- How many slots are free.
abbrev pub count_free : List (Option Bytes) → ℕ
count_free [] = 0
count_free (none ∷ slots) = suc (count_free slots)
count_free (some b ∷ slots) = count_free slots

-- The pool always has its eight slots.
abbrev pub IsPool : BufferManager → Type 0
IsPool m = length m.slots ≡ max_buffer_slots

-- `position_none` finds the first free slot, or there is none.
abbrev Found : List (Option Bytes) → Option ℕ → Type 0
Found slots none = count_free slots ≡ 0
Found slots (some i) = (i < length slots) × (get_elem? slots i ≡ some none) × (0 < count_free slots)

position_none-Found : (slots : List (Option Bytes)) → Found slots (position_none slots)
unfolding position_none
position_none-Found [] = refl
position_none-Found (none ∷ slots) = (omega arith, refl, omega arith)
position_none-Found (some b ∷ slots) = shifted (position_none slots) (position_none-Found slots)
  where
    shifted :
        (p : Option ℕ)
        → Found slots p
        → Found (some b ∷ slots) (elim p [ none ↦ none | some i ↦ some (suc i) ])
    shifted none f = f
    shifted (some i) f = (omega (arith, f.0), f.1, f.2)

count_free-set-some :
    (slots : List (Option Bytes)) (i : ℕ) (b : Bytes)
    → get_elem? slots i ≡ some none
    → count_free (set slots i (some b)) + 1 ≡ count_free slots
count_free-set-some [] i b h = cc
count_free-set-some (none ∷ slots) zero b h = omega arith
count_free-set-some (some c ∷ slots) zero b h = ground arith
count_free-set-some (none ∷ slots) (suc i) b h = omega (arith, count_free-set-some slots i b h)
count_free-set-some (some c ∷ slots) (suc i) b h = count_free-set-some slots i b h

set-set_free :
    (slots : List (Option Bytes)) (i : ℕ) (b : Bytes)
    → get_elem? slots i ≡ some none
    → set (set slots i (some b)) i none ≡ slots
set-set_free [] i b h = refl
set-set_free (s ∷ slots) zero b h = ap (λ (t : Option Bytes). t ∷ slots) (ground arith)
set-set_free (s ∷ slots) (suc i) b h =
    ap (λ (r : List (Option Bytes)). s ∷ r) (set-set_free slots i b h)

pub get_elem?-set :
    (slots : List (Option Bytes)) (i j : ℕ) (b : Option Bytes)
    → i < length slots
    → get_elem? (set slots i b) j ≡ (if i == j then some b else get_elem? slots j)
get_elem?-set [] i j b h = absurd (omega arith)
get_elem?-set (s ∷ slots) zero zero b h = refl
get_elem?-set (s ∷ slots) zero (suc j) b h = ground arith
get_elem?-set (s ∷ slots) (suc i) zero b h = ground arith
get_elem?-set (s ∷ slots) (suc i) (suc j) b h =
    get_elem?-set slots i j b (omega arith) ∙ ground arith

-- What an allocation promises: a slot from 1 to the pool's size that was free and now holds the
-- bytes, all other slots as they were, one free slot fewer, and a `free` of that slot that gives the old pool back.
pub record IsAllocated (m : BufferManager) (content : Bytes) (slot : ℕ) (m' : BufferManager)
    : Type 0 where
  pub positive : 1 ≤ slot
  pub in_range : slot ≤ length m.slots
  pub was_free : get_elem? m.slots (slot - 1) ≡ some none
  pub contents :
      (j : ℕ)
      → get_elem? m'.slots j ≡ (if slot - 1 == j then some (some content) else get_elem? m.slots j)
  pub same_size : length m'.slots ≡ length m.slots
  pub one_fewer : count_free m'.slots + 1 ≡ count_free m.slots
  pub freed : free slot m' ≡ done m

alloc_at :
    (m : BufferManager) (content : Bytes) (i : ℕ)
    → Found m.slots (some i)
    → IsAllocated m content (i + 1) (record { slots = set m.slots i (some content) })
alloc_at m content i f =
    let back : i + 1 - 1 ≡ i = omega arith in
    let step : i + 1 ≡ suc i = omega arith in
    let size : length (set m.slots i (some content)) ≡ length m.slots =
      length-set m.slots i (some content) in
    record {
      positive = omega arith;
      in_range = omega (arith, f.0);
      was_free = rw back f.1;
      contents = λ j. rw back (get_elem?-set m.slots i j (some content) f.0);
      same_size = size;
      one_fewer = count_free-set-some m.slots i content f.1;
      freed = rw step (
          unfold free in
          rw (lt→ltb i (length (set m.slots i (some content))) (omega (arith, size, f.0))) (
            ap (λ (s : List (Option Bytes)). done (record { slots = s }))
              (set-set_free m.slots i content f.1)));
    }

-- alloc panics when no slot is free; otherwise it hands out a slot that was free, which then holds
-- the bytes, and free on that slot takes the pool back to what it was.
pub alloc_with_cases :
    (m : BufferManager) (content : Bytes)
    → ((count_free m.slots ≡ 0) × (alloc_with content m ≡ panic slots_in_use))
      ⊎ ((slot : ℕ) × (m' : BufferManager) × (alloc_with content m ≡ done (slot, m'))
          × IsAllocated m content slot m')
alloc_with_cases m content = elim (Option-cases (position_none m.slots)) [
  | inl e ↦ inl (rw e at (position_none-Found m.slots), unfold alloc_with in rw e)
  | inr (i, e) ↦ inr (
    i + 1,
    record { slots = set m.slots i (some content) },
    unfold alloc_with in rw e,
    alloc_at m content i (rw e at (position_none-Found m.slots)),
  )
]
