-- ===== src/Stream/Fit.antt =====
-- Proofs about src/stream.rs: the services that a stream can have.
use muadib.Prelude.{
  arith, ◌<◌, ◌^◌, Result, ok, err, ℕ, ◌≡◌, refl, sym, ◌∙◌, Option, none, some, ◌==◌, if◌then◌else◌,
  if_elim, bytes, is_empty,
}
use mathlib.Core.Path.{subst}
use muadib.Prelude.Bytes.{Bytes}
use muadib.Prelude.Text.{strip_prefix, starts_with, bytes_eq}
use muadib.Interface.Os.{Os, on_result, Gives, after-Gives}
use muadib.Shell.{ShellService, spawn}
use muadib.Forward.{ForwardService, connect_socket, connect}
use muadib.Sync.Fit.{IsFitState}
use muadib.Stream.{
  Service, sync_service, shell_service, reboot_service, forward_service, Stream, StreamManager, get,
  put, close, add_stream, new_stream, new_streams, lookup, Made, make_service, open_shell,
  open_forward, is_forward,
}
use muadib.Stream.Ids.{get-put, get-close, get-add_stream}

module _ {os : Os} where
  abbrev pub IsFitService : Service os → Type 0
  IsFitService (sync_service svc) = IsFitState svc.state
  IsFitService (shell_service f) = f.capacity < 2 ^ 32
  IsFitService reboot_service = Unit
  IsFitService (forward_service f) = f.capacity < 2 ^ 32

module _ (os : Os) where
  -- Every open stream is fit.
  abbrev pub IsFit : StreamManager os → Type 0
  IsFit m = (k : ℕ) (s : Stream os) → get os m k ≡ some s → IsFitService s.service

  pub IsFit-new : IsFit new_streams
  IsFit-new k s h = unfold get lookup in absurd (cc)

  abbrev FitEntry : Option (Stream os) → Type 0
  FitEntry none = Unit
  FitEntry (some s) = IsFitService s.service

  entry-FitEntry : (m : StreamManager os) → IsFit m → (j : ℕ) → FitEntry (get os m j)
  entry-FitEntry m fit j = at_entry (get os m j) (fit j)
    where
      at_entry :
          (o : Option (Stream os))
          → ((s : Stream os) → o ≡ some s → IsFitService s.service)
          → FitEntry o
      at_entry none f = tt
      at_entry (some s) f = f s refl

  -- A table each of whose entries is one that was there or a given fit one.
  written-IsFit :
      (m m' : StreamManager os) (k : ℕ) (o : Option (Stream os))
      → ((j : ℕ) → get os m' j ≡ (if k == j then o else get os m j))
      → FitEntry o
      → IsFit m
      → IsFit m'
  written-IsFit m m' k o law f fit j s e =
      subst FitEntry (sym (law j) ∙ e)
        (if_elim FitEntry (k == j) (λ b. f) (λ b. entry-FitEntry m fit j))

  pub put-IsFit :
      (m : StreamManager os) (k : ℕ) (s : Stream os)
      → IsFitService s.service
      → IsFit m
      → IsFit (put os m k s)
  put-IsFit m k s f = written-IsFit m (put os m k s) k (some s) (λ j. get-put os m k j s) f

  pub close-IsFit :
      (m : StreamManager os) (k : ℕ) (w : os.World) → IsFit m → IsFit (close os m k w).0
  close-IsFit m k w = written-IsFit m (close os m k w).0 k none (λ j. get-close os m k j w) tt

  pub add_stream-IsFit :
      (m : StreamManager os) (remote_id : ℕ) (service : Service os)
      → IsFitService service
      → IsFit m
      → IsFit (add_stream os m remote_id service).1
  add_stream-IsFit m remote_id service f =
      written-IsFit m (add_stream os m remote_id service).1 m.next_id
        (some (new_stream os remote_id service)) (λ j. get-add_stream os m remote_id j service) f

  abbrev pub IsFitMade : Made os → Type 0
  IsFitMade (none, w) = Unit
  IsFitMade (some service, w) = IsFitService service

  abbrev FitShell : ShellService os → Type 0
  FitShell f = f.capacity < 2 ^ 32

  abbrev FitForward : ForwardService os → Type 0
  FitForward f = f.capacity < 2 ^ 32

  -- A shell and a forwarded socket have the buffer that they are made with.
  spawn-Gives : (command : Option Bytes) (w : os.World) → Gives FitShell (spawn os command w)
  unfolding spawn
  spawn-Gives command w = after-Gives FitShell (os.openpt _ w) _ (λ master w1.
      after-Gives FitShell (os.grantpt master w1) _ (λ _ w2.
        after-Gives FitShell (os.unlockpt master w2) _ (λ _ w3.
          after-Gives FitShell (os.tiocgptpeer master _ w3) _ (λ slave w4.
            after-Gives FitShell (os.try_clone slave w4) _ (λ _ w5.
              after-Gives FitShell (os.try_clone slave w5) _
                (λ _ w6. after-Gives FitShell (os.spawn _ _ _ _ w6) _ (λ _ _. omega arith)))))))

  connect-Gives : (destination : Bytes) (w : os.World) → Gives FitForward (connect os destination w)
  unfolding connect
  connect-Gives destination w =
      after-Gives FitForward (connect_socket os destination w) _ (λ _ _. omega arith)

  shell-IsFitMade :
      (x : Result os.Error (ShellService os) × os.World)
      → Gives FitShell x
      → IsFitMade (on_result x (λ s w'. (some (shell_service s), w')) (λ _ w'. (none, w')))
  shell-IsFitMade (ok s, w) h = h
  shell-IsFitMade (err e, w) h = tt

  forward-IsFitMade :
      (x : Result os.Error (ForwardService os) × os.World)
      → Gives FitForward x
      → IsFitMade (on_result x (λ f w'. (some (forward_service f), w')) (λ _ w'. (none, w')))
  forward-IsFitMade (ok f, w) h = h
  forward-IsFitMade (err e, w) h = tt

  -- A service that `open` makes is fit.
  pub make_service-IsFitMade : (name : Bytes) (w : os.World) → IsFitMade (make_service os name w)
  unfolding make_service open_shell open_forward
  make_service-IsFitMade name w =
      if_elim IsFitMade (bytes_eq name (bytes "sync:")) (λ b. tt)
        (λ b. by_prefix (strip_prefix (bytes "shell:") name))
    where
      by_prefix :
          (o : Option Bytes)
          → IsFitMade (elim o [
            | some cmd ↦ open_shell os cmd w
            | none ↦
                if starts_with name (bytes "reboot:")
                then (some reboot_service, w)
                else if is_forward os name
                then open_forward os name w
                else (none, w)
          ])
      by_prefix (some cmd) =
          shell-IsFitMade _ (spawn-Gives (if is_empty cmd then none else some cmd) w)
      by_prefix none =
          if_elim IsFitMade (starts_with name (bytes "reboot:")) (λ _. tt)
            (λ _.
              if_elim IsFitMade (is_forward os name)
                (λ _. forward-IsFitMade _ (connect-Gives name w)) (λ _. tt))
