-- ===== src/Startup/Launch.antt =====
-- Proofs about `main` of src/main.rs: when its loop runs, and on what.
use muadib.Prelude.{
  ℕ, ◌≡◌, ◌≤◌, refl, sym, ◌∙◌, ap, ◌↔◌, Bool-cases, inl, inr, none, some, ◌==◌, Result, ok, err,
  Option, bytes, arith, Outcome,
}
use muadib.Prelude.Bytes.{Bytes}
use muadib.Interface.Winnow.{Winnow}
use muadib.Interface.Os.{Os, on_result, pos, negsuc, ℤ, after}
use muadib.Interface.Ring.{Ring}
use muadib.Interface.Dmi.{Dmi}
use muadib.Message.{DeviceInfo}
use muadib.Device.{from_system}
use muadib.Conn.{new_conn}
use muadib.Conn.Events.{Flow, run}
use muadib.Startup.{
  RingCalls, Waited, take_fds, parse_i32, receive_usb_fds, wait_for_enable, after_wait, DaemonEnd,
  still_waits, fails, runs, MainEnd, returns, serves, run_daemon, run_command, main,
}
use muadib.Startup.Listen.{IsThreeText, parse_i32-three, parse_i32-only}
use muadib.Startup.Wait.{Waits, wait_for_enable-Waits}

module _ (w : Winnow) (ring : Ring) (os : Os) (dmi : Dmi) (fuel : ℕ) (calls : RingCalls os) where
  -- What the daemon does on its descriptors in front of its loop: it reads its identity, and then
  -- the host enables it, at most as many events later as the fuel.
  pub record Enabled (ep0 : os.Fd) (info : DeviceInfo) (world enabled : os.World) : Type 0 where
    pub identified : (from_system os dmi world).0 ≡ info
    pub events : ℕ
    pub few : events ≤ fuel
    pub waited : Waits os ep0 events (from_system os dmi world).1 (ok tt, enabled)

  -- The loop runs as it does on the descriptor 3, with the identity of this system, from a
  -- connection that has just been made.
  pub record Launches (world : os.World) (x : Outcome (Flow os)) : Type 0 where
    pub text : Bytes
    pub passed : os.World
    pub info : DeviceInfo
    pub enabled : os.World
    pub listens : os.env_var (bytes "LISTEN_FDS") world ≡ (ok text, passed)
    pub is_three : IsThreeText text
    pub is_enabled : Enabled (os.from_raw_fd 3) info passed enabled
    pub loops : x ≡ run w ring os (os.from_raw_fd 3) info calls.0 calls.1 (new_conn enabled)

  abbrev outcome_of : Outcome (Flow os) → DaemonEnd os → Outcome (Flow os)
  outcome_of x (runs y) = y
  outcome_of x still_waits = x
  outcome_of x (fails e world) = x

  abbrev daemon_of : MainEnd os → DaemonEnd os
  daemon_of (serves d) = d
  daemon_of (returns r world) = still_waits

  after_wait-runs :
      (ep0 : os.Fd) (info : DeviceInfo) (r : Waited os) (x : Outcome (Flow os))
      → after_wait w ring os dmi calls ep0 info r ≡ runs x
      → (v : os.World) × (r ≡ some (ok tt, v))
        × (x ≡ run w ring os ep0 info calls.0 calls.1 (new_conn v))
  after_wait-runs ep0 info none x h = absurd (cc)
  after_wait-runs ep0 info (some (err e, v)) x h = absurd (cc)
  after_wait-runs ep0 info (some (ok tt, v)) x h = (v, refl, ap (outcome_of x) (sym h))

  abbrev launched : Result os.Error (os.Fd × (os.Fd × os.Fd)) × os.World → MainEnd os
  launched x =
      on_result x (λ fds world. serves (run_daemon w ring os dmi fuel calls fds.0 world))
        (λ e world. returns (err e) world)

  abbrev number : Option ℤ → ℕ
  number (some (pos n)) = n
  number _ = 0

  -- Only the number 3 leads to the daemon, and it runs on the descriptor 3.
  launched-serves :
      (n : Option ℤ) (world : os.World) (d : DaemonEnd os)
      → launched (take_fds os n world) ≡ serves d
      → (n ≡ some (pos 3)) × (run_daemon w ring os dmi fuel calls (os.from_raw_fd 3) world ≡ d)
  launched-serves none world d h = absurd (cc)
  launched-serves (some (negsuc n)) world d h = absurd (cc)
  launched-serves (some (pos n)) world d h = elim (Bool-cases (n == 3)) [
    | inl e ↦ (ground (arith, e), ap daemon_of (rw e at h))
    | inr e ↦ absurd (let h' = rw e at h in cc)
  ]

  started :
      (world : os.World)
      → main w ring os dmi fuel calls (record { command = none }) world
        ≡ launched
            (after (os.env_var (bytes "LISTEN_FDS") world) (λ text. take_fds os (parse_i32 text)))
  unfolding main run_command receive_usb_fds
  started world = refl

  with_env :
      (x : Result os.Error Bytes × os.World) (d : DaemonEnd os)
      → launched (after x (λ text. take_fds os (parse_i32 text))) ≡ serves d
      → (text : Bytes) × (v : os.World) × (x ≡ (ok text, v))
        × IsThreeText text
        × (run_daemon w ring os dmi fuel calls (os.from_raw_fd 3) v ≡ d)
  with_env (ok text, v) d h =
      let (three, ran) = launched-serves (parse_i32 text) v d h in
      (text, v, refl, parse_i32-only text three, ran)
  with_env (err e, v) d h = absurd (cc)

  main-only :
      (world : os.World) (x : Outcome (Flow os))
      → main w ring os dmi fuel calls (record { command = none }) world ≡ serves (runs x)
      → Launches world x
  main-only world x h =
      let (text, v, listens, three, ran) =
        with_env (os.env_var (bytes "LISTEN_FDS") world) (runs x) (sym (started world) ∙ h) in
      let ep0 = os.from_raw_fd 3 in
      let (u, waited, loops) =
        after_wait-runs ep0 (from_system os dmi v).0
          (wait_for_enable os fuel ep0 (from_system os dmi v).1) x (unfold run_daemon in ran) in
      let (n, few, steps) =
        (wait_for_enable-Waits os ep0 fuel (from_system os dmi v).1 (ok tt, u)).0 waited in
      record {
        text = text;
        passed = v;
        info = (from_system os dmi v).0;
        enabled = u;
        listens = listens;
        is_three = three;
        is_enabled = record { identified = refl; events = n; few = few; waited = steps };
        loops = loops;
      }

  main-enough :
      (world : os.World) (x : Outcome (Flow os))
      → Launches world x
      → main w ring os dmi fuel calls (record { command = none }) world ≡ serves (runs x)
  unfolding run_daemon
  main-enough world x l =
      let ep0 = os.from_raw_fd 3 in
      let waits =
        (wait_for_enable-Waits os ep0 fuel (from_system os dmi l.passed).1 (ok tt, l.enabled)).1
          (l.is_enabled.events, l.is_enabled.few, l.is_enabled.waited) in
      started world
      ∙ rw (l.listens, parse_i32-three l.text l.is_three, waits, l.is_enabled.identified, l.loops)
          refl

  -- Without a command, the program runs its loop, with a given outcome, just when LISTEN_FDS can be
  -- read and is 3 in decimal digits (a `+` and zeros in front or not), enable is one of the first
  -- events of descriptor 3, as many as the fuel, with no event before it that cannot be read, and
  -- the outcome is that of the loop on descriptor 3, with the identity that was read in front of the
  -- wait, from a new connection.
  pub main-Launches :
      (world : os.World) (x : Outcome (Flow os))
      → (main w ring os dmi fuel calls (record { command = none }) world ≡ serves (runs x))
        ↔ Launches world x
  main-Launches world x = (main-only world x, main-enough world x)
