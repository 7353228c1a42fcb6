-- ===== src/Conn/Stops.antt =====
-- Proofs about the control endpoint in the loop of src/main.rs: what ends the loop.
use muadib.Prelude.{
  ℕ, ◌≡◌, refl, none, ◌∙◌, ◌↔◌, true, Bool, if◌then◌else◌, Result, ok, err, Outcome, done, panic,
}
use muadib.Prelude.Bytes.{Bytes}
use muadib.Interface.Winnow.{Winnow}
use muadib.Interface.Os.{Os, on_result, pos}
use muadib.Interface.Ring.{Ring}
use muadib.Message.{DeviceInfo}
use muadib.Ffs.{
  UsbFunctionFsEventType, bind, unbind, enable, disable, setup, suspend, resume,
  read_next_ffs_event_type,
}
use muadib.UserData.{ep0_poll}
use muadib.Conn.{Conn, submit_ep0_poll}
use muadib.Conn.Delivery.{read_cqe, on_cqe-read_cqe}
use muadib.Conn.Events
use muadib.Conn.Events.{Session, Flow, goes, ends_ok, ends_err}

-- The interface was disabled or unbound, or its event cannot be read.
pub data Stops {W E : Type 0} : Result E UsbFunctionFsEventType × W → Type 0 where
  disabled : (w : W) → Stops (ok disable, w)
  unbound : (w : W) → Stops (ok unbind, w)
  unreadable : (e : E) (w : W) → Stops (err e, w)

abbrev IsStopping : {W E : Type 0} → Result E UsbFunctionFsEventType × W → Type 0
IsStopping (ok disable, w) = Unit
IsStopping (ok unbind, w) = Unit
IsStopping (ok _, w) = ⊥
IsStopping (err e, w) = Unit

abbrev pub Returns : {os : Os} → Outcome (Flow os) → Type 0
Returns {os} m = (c : Conn os) × (m ≡ done (ends_ok c))

module _ (w : Winnow) (ring : Ring) (os : Os) (ep0 : os.Fd) (info : DeviceInfo) where
  IsStopping-Stops :
      (x : Result os.Error UsbFunctionFsEventType × os.World) → Stops x → IsStopping x
  IsStopping-Stops _ (disabled w') = tt
  IsStopping-Stops _ (unbound w') = tt
  IsStopping-Stops _ (unreadable e w') = tt

  stays :
      (s : Session os) (m : Outcome (Conn os)) → Returns (Events.on_conn w ring os ep0 info s m) → ⊥
  stays s (done c) (d, h) = absurd (cc)
  stays s (panic why) (d, h) = absurd (cc)

  -- What the loop makes of the event that is read.
  abbrev after_read :
      Session os → Result os.Error UsbFunctionFsEventType × os.World → Outcome (Flow os)
  after_read s x =
      let (stops, world) =
        on_result {R = Bool × os.World} x (λ e world'. (Events.is_stop e, world'))
          (λ _ world'. (true, world')) in
      let c : Conn os = record (s.conn) { world = world } in
      if stops
      then done (ends_ok c)
      else Events.on_conn w ring os ep0 info s (submit_ep0_poll ring c)

  after_read-Stops :
      (s : Session os) (x : Result os.Error UsbFunctionFsEventType × os.World)
      → Returns (after_read s x) ↔ Stops x
  after_read-Stops s (err e, world) = (λ _. unreadable e world, λ _. (_, refl))
  after_read-Stops s (ok disable, world) = (λ _. disabled world, λ _. (_, refl))
  after_read-Stops s (ok unbind, world) = (λ _. unbound world, λ _. (_, refl))
  after_read-Stops s (ok bind, world) =
      (λ r. absurd (stays s _ r), λ h. absurd (IsStopping-Stops (ok bind, world) h))
  after_read-Stops s (ok enable, world) =
      (λ r. absurd (stays s _ r), λ h. absurd (IsStopping-Stops (ok enable, world) h))
  after_read-Stops s (ok setup, world) =
      (λ r. absurd (stays s _ r), λ h. absurd (IsStopping-Stops (ok setup, world) h))
  after_read-Stops s (ok suspend, world) =
      (λ r. absurd (stays s _ r), λ h. absurd (IsStopping-Stops (ok suspend, world) h))
  after_read-Stops s (ok resume, world) =
      (λ r. absurd (stays s _ r), λ h. absurd (IsStopping-Stops (ok resume, world) h))

  -- A completed poll of the control endpoint makes `run` return without an error just when the
  -- event that is then read is disable or unbind, or cannot be read.
  pub on_cqe-Stops :
      (n : ℕ) (buffer : Bytes) (s : Session os)
      → Returns (Events.on_cqe w ring os ep0 info (read_cqe ep0_poll n buffer) s)
        ↔ Stops (read_next_ffs_event_type os ep0 s.conn.world)
  on_cqe-Stops n buffer s =
      let polled : Events.on_cqe w ring os ep0 info (read_cqe ep0_poll n buffer) s
          ≡ Events.on_completion w ring os ep0 info ep0_poll none (pos n) buffer s =
        on_cqe-read_cqe w ring os ep0 info ep0_poll n buffer s in
      let handled : Events.on_completion w ring os ep0 info ep0_poll none (pos n) buffer s
          ≡ after_read s (read_next_ffs_event_type os ep0 s.conn.world) =
        unfold Events.on_completion Events.on_ep0_poll in refl in
      rw (polled ∙ handled) (after_read-Stops s (read_next_ffs_event_type os ep0 s.conn.world))
