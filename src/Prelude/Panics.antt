-- ===== src/Prelude/Panics.antt =====
-- A computation that may panic. A panic ends the daemon, so no state comes back with it.
use mathlib.Core.Path.{◌≡◌, refl}
use mathlib.Core.Bool.{Bool, true, false, ◌||◌}

-- Each constructor is one `expect`, `assert!` or `unreachable!` of the source.
pub data Panic : Type 0 where
  slots_in_use slot_out_of_range queue_full : Panic
  clse_remote_mismatch okay_with_payload missing_payload : Panic
  reboot_unreachable read_without_id write_without_slot : Panic
  stat_too_large stat_mtime_range buffer_too_large : Panic
  zero_id slice_out_of_range length_out_of_range stream_missing : Panic
  -- no panic of the source: the fuel of a loop ran out
  out_of_fuel : Panic

pub data Outcome {ℓ} (A : Type ℓ) : Type ℓ where
  done : A → Outcome A
  panic : Panic → Outcome A

infixl 5 ◌>>=◌
abbrev pub ◌>>=◌ {ℓ κ} : {A : Type ℓ} {B : Type κ} → Outcome A → (A → Outcome B) → Outcome B
done a >>= f = f a
panic why >>= f = panic why

-- The panics for which no host, file or lack of room is the reason.
abbrev pub is_own : Panic → Bool
is_own slot_out_of_range = true
is_own read_without_id = true
is_own write_without_slot = true
is_own zero_id = true
is_own stream_missing = true
is_own out_of_fuel = true
is_own buffer_too_large = true
is_own _ = false

-- The panics for want of room: no free slot of the pool, or no free entry of the queue.
abbrev pub is_lack : Panic → Bool
is_lack slots_in_use = true
is_lack queue_full = true
is_lack _ = false

-- The panics that an operation on one value does not end in.
abbrev pub is_inner : Panic → Bool
is_inner why = is_own why || is_lack why

pub is_inner_cases :
    (why : Panic) → is_inner why ≡ false → (is_own why ≡ false) × (is_lack why ≡ false)
is_inner_cases why h = both (is_own why) (is_lack why) h
  where
    both : (a b : Bool) → (a || b) ≡ false → (a ≡ false) × (b ≡ false)
    both false false h = (refl, refl)
    both true b h = absurd (cc)
    both false true h = absurd (cc)

-- Whether a computation stops by a panic of some kind.
abbrev pub stops_by {ℓ} : {A : Type ℓ} → (Panic → Bool) → Outcome A → Bool
stops_by bad (done a) = false
stops_by bad (panic why) = bad why

pub stops_by-bind {ℓ κ} :
    {A : Type ℓ} {B : Type κ} (bad : Panic → Bool) (m : Outcome A) (f : A → Outcome B)
    → stops_by bad m ≡ false
    → ((a : A) → stops_by bad (f a) ≡ false)
    → stops_by bad (m >>= f) ≡ false
stops_by-bind bad (done a) f h k = k a
stops_by-bind bad (panic why) f h k = h

-- Inversion of a bind that did not panic.
pub bind-eq-done {ℓ κ} :
    {A : Type ℓ} {B : Type κ} (m : Outcome A) (f : A → Outcome B) {b : B}
    → (m >>= f) ≡ done b
    → (a : A) × (m ≡ done a) × (f a ≡ done b)
bind-eq-done (done a) f h = (a, refl, h)
bind-eq-done (panic why) f h = cc

-- Rust's `Result`.
pub data Result {ℓ} (E A : Type ℓ) : Type ℓ where
  ok : A → Result E A
  err : E → Result E A
