-- ===== src/Buffers.antt =====
-- src/buffers.rs: the eight write buffers, one for each write in flight.
pub mod Slots
use muadib.Prelude.{
  ℕ, zero, suc, ◌+◌, Option, none, some, List, [], ◌∷◌, length, set, replicate, ltb, if◌then◌else◌,
  Outcome, done, panic, slots_in_use, slot_out_of_range,
}
use muadib.Prelude.Bytes.{Bytes}

abbrev pub max_buffer_slots : ℕ
max_buffer_slots = 8

pub record BufferManager : Type 0 where
  pub slots : List (Option Bytes)

abbrev pub new_buffers : BufferManager
new_buffers = record { slots = replicate max_buffer_slots none }

-- `slots.iter().position(Option::is_none)`
unfoldable pub position_none : List (Option Bytes) → Option ℕ
position_none [] = none
position_none (none ∷ slots) = some 0
position_none (some b ∷ slots) = elim (position_none slots) [ none ↦ none | some i ↦ some (suc i) ]

abbrev pub take_slot : Option ℕ → Bytes → BufferManager → Outcome (ℕ × BufferManager)
take_slot none content m = panic slots_in_use
take_slot (some slot) content m =
    done (slot + 1, record { slots = set m.slots slot (some content) })

-- `alloc` with what its caller writes through the reference: `extend_from_slice` on the new buffer.
unfoldable pub alloc_with : Bytes → BufferManager → Outcome (ℕ × BufferManager)
unfolding position_none
alloc_with content m = take_slot (position_none m.slots) content m

-- An index out of range panics; slot 0 wraps to one.
unfoldable pub free : ℕ → BufferManager → Outcome BufferManager
free zero m = panic slot_out_of_range
free (suc idx) m =
    if ltb idx (length m.slots)
    then done (record { slots = set m.slots idx none })
    else panic slot_out_of_range
