-- ===== src/Forward/Write.antt =====
-- Proofs about the write loop of src/forward.rs.
use muadib.Prelude.{
  ℕ, zero, suc, ◌≤◌, ◌≡◌, refl, [], ◌∷◌, length, length-drop, drop, Result, ok, err, Outcome, done,
  arith,
}
use muadib.Prelude.Bytes.{Bytes}
use muadib.Interface.Os.{Os, IsPosix, on_result_elim}
use muadib.Forward.{ForwardService, write_loop, forward_write_input}

module _ (os : Os) (posix : IsPosix os) where
  -- The writes that a run of the loop made: each takes some bytes from the front of what is left,
  -- until nothing is left or one fails.
  pub data Writes (f : ForwardService os)
      : Bytes → os.World → Result os.Error (Unit {0}) → os.World → Type 0 where
    all_written : (w : os.World) → Writes f [] w (ok tt) w
    failed :
        (rest : Bytes) (w w' : os.World) (e : os.Error)
        → os.socket_write f.socket rest w ≡ (err e, w')
        → Writes f rest w (err e) w'
    wrote :
        {result : Result os.Error (Unit {0})} {w'' : os.World} (rest : Bytes) (w w' : os.World)
        (n : ℕ)
        → os.socket_write f.socket rest w ≡ (ok n, w')
        → 1 ≤ n
        → n ≤ length rest
        → Writes f (drop n rest) w' result w''
        → Writes f rest w result w''

  abbrev Ends :
      ForwardService os
      → Bytes
      → os.World
      → Outcome (Result os.Error (Unit {0}) × os.World)
      → Type 0
  Ends f rest w x =
      (result : Result os.Error (Unit {0})) × (w' : os.World) × (x ≡ done (result, w'))
      × Writes f rest w result w'

  write_loop-Ends :
      (fuel : ℕ) (f : ForwardService os) (rest : Bytes) (w : os.World)
      → length rest ≤ fuel
      → Ends f rest w (write_loop os fuel f rest w)
  unfolding write_loop
  write_loop-Ends fuel f [] w h = (ok tt, w, refl, all_written w)
  write_loop-Ends zero f (b ∷ rest) w h = absurd (omega arith)
  write_loop-Ends (suc fuel) f (b ∷ rest) w h =
      on_result_elim (Ends f (b ∷ rest) w) (os.socket_write f.socket (b ∷ rest) w)
        (λ n w' e.
          let (lo, hi) = posix.socket_write_progress f.socket (b ∷ rest) w w' n (omega arith) e in
          let (result, w'', done_so, writes) =
            write_loop-Ends fuel f (drop n (b ∷ rest)) w'
              (omega (arith, lo, length-drop n (b ∷ rest))) in
          (result, w'', done_so, wrote (b ∷ rest) w w' n e lo hi writes))
        (λ e w' x. (err e, w', refl, failed (b ∷ rest) w w' e x))

  -- Over a socket that takes a byte of every write at least, write_input returns on every payload;
  -- it reports success only when its writes took all bytes from the front on, and an error only
  -- when a write failed.
  pub forward_write_input-Writes :
      (f : ForwardService os) (data' : Bytes) (w : os.World)
      → (result : Result os.Error (Unit {0})) × (w' : os.World) × (forward_write_input os f data' w
          ≡ done (result, w'))
        × Writes f data' w result w'
  unfolding forward_write_input
  forward_write_input-Writes f data' w = write_loop-Ends (length data') f data' w (omega arith)
