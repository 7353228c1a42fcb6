-- ===== src/Startup/Wait.antt =====
-- Proofs about the wait for the host of src/main.rs: when it ends.
use muadib.Prelude.{
  ℕ, zero, suc, ◌≤◌, arith, sym, ap, ◌⊎◌, inl, inr, ◌≡◌, ◌↔◌, ◌≢◌, refl, ◌∙◌, Option, none, some,
  Result, ok, err,
}
use mathlib.Core.Path.{subst}
use muadib.Interface.Os.{Os, on_result_elim}
use muadib.Ffs.{
  UsbFunctionFsEventType, enable, bind, unbind, disable, setup, suspend, resume,
  read_next_ffs_event_type,
}
use muadib.Startup.{wait_for_enable, after_event}

module _ (os : Os) (ep0 : os.Fd) where
  -- The wait as steps: events other than enable are passed over, enable and an error end it.
  pub data Waits : ℕ → os.World → Result os.Error (Unit {0}) × os.World → Type 0 where
    enabled :
        (w w' : os.World)
        → read_next_ffs_event_type os ep0 w ≡ (ok enable, w')
        → Waits 1 w (ok tt, w')
    failed :
        (w w' : os.World) (e : os.Error)
        → read_next_ffs_event_type os ep0 w ≡ (err e, w')
        → Waits 1 w (err e, w')
    passed :
        (n : ℕ) (w w' : os.World) (event : UsbFunctionFsEventType)
        (r : Result os.Error (Unit {0}) × os.World)
        → read_next_ffs_event_type os ep0 w ≡ (ok event, w')
        → event ≢ enable
        → Waits n w' r
        → Waits (suc n) w r

  after_event-other :
      (event : UsbFunctionFsEventType)
      (again : os.World → Option (Result os.Error (Unit {0}) × os.World)) (w : os.World)
      → event ≢ enable
      → after_event os event again w ≡ again w
  unfolding after_event
  after_event-other enable again w h = absurd (h refl)
  after_event-other bind again w h = refl
  after_event-other unbind again w h = refl
  after_event-other disable again w h = refl
  after_event-other setup again w h = refl
  after_event-other suspend again w h = refl
  after_event-other resume again w h = refl

  abbrev Waited : Type 0
  Waited = Option (Result os.Error (Unit {0}) × os.World)

  wait-enough :
      (fuel : ℕ) {n : ℕ} {w : os.World} {r : Result os.Error (Unit {0}) × os.World}
      → Waits n w r
      → n ≤ fuel
      → wait_for_enable os fuel ep0 w ≡ some r
  unfolding wait_for_enable after_event
  wait-enough zero (enabled w w' h) le = absurd (omega (arith, le))
  wait-enough zero (failed w w' e h) le = absurd (omega (arith, le))
  wait-enough zero (passed n w w' event r h other more) le = absurd (omega (arith, le))
  wait-enough (suc fuel) (enabled w w' h) le = rw (h) refl
  wait-enough (suc fuel) (failed w w' e h) le = rw (h) refl
  wait-enough (suc fuel) (passed n w w' event r h other more) le =
      rw (h, after_event-other event (wait_for_enable os fuel ep0) w' other)
        (wait-enough fuel more (omega (arith, le)))

  enable_or_other : (event : UsbFunctionFsEventType) → (event ≡ enable) ⊎ (event ≢ enable)
  enable_or_other enable = inl refl
  enable_or_other bind = inr (λ e. absurd (cc))
  enable_or_other unbind = inr (λ e. absurd (cc))
  enable_or_other disable = inr (λ e. absurd (cc))
  enable_or_other setup = inr (λ e. absurd (cc))
  enable_or_other suspend = inr (λ e. absurd (cc))
  enable_or_other resume = inr (λ e. absurd (cc))

  abbrev some_value :
      Result os.Error (Unit {0}) × os.World → Waited → Result os.Error (Unit {0}) × os.World
  some_value r none = r
  some_value r (some x) = x

  some-injective : {x y : Result os.Error (Unit {0}) × os.World} → some x ≡ some y → x ≡ y
  some-injective {x} e = ap (some_value x) e

  abbrev Ends : ℕ → os.World → Result os.Error (Unit {0}) × os.World → Type 0
  Ends fuel w r = (n : ℕ) × (n ≤ fuel) × Waits n w r

  wait-only :
      (fuel : ℕ) (w : os.World) (r : Result os.Error (Unit {0}) × os.World)
      → wait_for_enable os fuel ep0 w ≡ some r
      → Ends fuel w r
  unfolding wait_for_enable after_event
  wait-only zero w r = λ h. absurd (cc)
  wait-only (suc fuel) w r =
      on_result_elim (λ (x : Waited). x ≡ some r → Ends (suc fuel) w r)
        (read_next_ffs_event_type os ep0 w)
        (λ event w' e h. elim (enable_or_other event) [
          | inl same ↦ (
            1,
            omega arith,
            subst (Waits 1 w)
                (some-injective (
                  sym (
                    ap
                      (λ (x : UsbFunctionFsEventType).
                        after_event os x (wait_for_enable os fuel ep0) w')
                      same)
                  ∙ h))
                (enabled w w' (e ∙ ap (λ (x : UsbFunctionFsEventType). (ok x, w')) same)),
          )
          | inr other ↦
              let (n, le, more) =
                wait-only fuel w' r
                  (sym (after_event-other event (wait_for_enable os fuel ep0) w' other) ∙ h) in
              (suc n, omega (arith, le), passed n w w' event r e other more)
        ])
        (λ e w' h eq. (1, omega arith, subst (Waits 1 w) (some-injective eq) (failed w w' e h)))

  -- With fuel for so many events, the wait ends with a result just when it ends with it in at most
  -- so many steps: after events other than enable, which are passed over, an enable ends it, or an
  -- event that cannot be read, with the error of that read.
  pub wait_for_enable-Waits :
      (fuel : ℕ) (w : os.World) (r : Result os.Error (Unit {0}) × os.World)
      → (wait_for_enable os fuel ep0 w ≡ some r) ↔ ((n : ℕ) × (n ≤ fuel) × Waits n w r)
  wait_for_enable-Waits fuel w r = (wait-only fuel w r, λ (n, le, steps). wait-enough fuel steps le)
