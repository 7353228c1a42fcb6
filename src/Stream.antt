-- ===== src/Stream.antt =====
-- src/stream.rs: the open streams of a connection, by their device-side id.
pub mod Ids
pub mod Fit
pub mod Lives
pub mod Table
use muadib.Prelude.{
  ℕ, ◌+◌, ◌%◌, ◌^◌, Bool, false, ◌||◌, Option, none, some, List, [], ◌∷◌, ◌==◌, is_empty,
  if◌then◌else◌, bytes,
}
use muadib.Prelude.Bytes.{Bytes}
use muadib.Prelude.Text.{strip_prefix, starts_with, bytes_eq}
use muadib.Interface.Os.{Os, on_result}
use muadib.Sync.Service.{SyncService, new_sync}
use muadib.Shell.{ShellService, spawn, drop_shell}
use muadib.Forward.{ForwardService, connect}

pub data Service (os : Os) : Type 0 where
  sync_service : SyncService os → Service os
  shell_service : ShellService os → Service os
  reboot_service : Service os
  forward_service : ForwardService os → Service os

pub record Stream (os : Os) : Type 0 where
  pub remote_id : ℕ
  pub service : Service os
  pub waiting_for_okay : Bool
  pub remote_closed : Bool

-- `HashMap<u32, Stream>`: the program only looks up, inserts and removes.
pub record StreamManager (os : Os) : Type 0 where
  pub streams : List (ℕ × Stream os)
  pub next_id : ℕ

module _ {os : Os} where
  unfoldable pub lookup : ℕ → List (ℕ × Stream os) → Option (Stream os)
  lookup k [] = none
  lookup k ((j, s) ∷ m) = if j == k then some s else lookup k m

  unfoldable pub remove : ℕ → List (ℕ × Stream os) → List (ℕ × Stream os)
  remove k [] = []
  remove k ((j, s) ∷ m) = let rest = remove k m in if j == k then rest else (j, s) ∷ rest

  unfoldable pub insert : ℕ → Stream os → List (ℕ × Stream os) → List (ℕ × Stream os)
  unfolding remove
  insert k s m = (k, s) ∷ remove k m

abbrev pub new_streams : {os : Os} → StreamManager os
new_streams = record { streams = []; next_id = 1 }

module _ (os : Os) where
  unfoldable pub get : StreamManager os → ℕ → Option (Stream os)
  unfolding lookup
  get m local_id = lookup local_id m.streams

  -- What a `&mut Stream` of `get` writes.
  unfoldable pub put : StreamManager os → ℕ → Stream os → StreamManager os
  unfolding insert
  put m local_id s = record m { streams = insert local_id s m.streams }

  -- A removed stream is dropped; a shell's process is killed and reaped. Its descriptors close, which
  -- is left out.
  abbrev pub drop_stream : Option (Stream os) → os.World → os.World
  drop_stream none w = w
  drop_stream (some s) w = elim s.service [ shell_service sh ↦ drop_shell os sh w | _ ↦ w ]

  unfoldable pub close : StreamManager os → ℕ → os.World → StreamManager os × os.World
  unfolding get remove
  close m local_id w =
      (record m { streams = remove local_id m.streams }, drop_stream (get m local_id) w)

  abbrev pub Made : Type 0
  Made = Option (Service os) × os.World

  unfoldable pub open_shell : Bytes → os.World → Made
  unfolding spawn
  open_shell cmd w =
      on_result (spawn os (if is_empty cmd then none else some cmd) w)
        (λ s w'. (some (shell_service s), w')) (λ _ w'. (none, w'))

  unfoldable pub open_forward : Bytes → os.World → Made
  unfolding connect
  open_forward service w =
      on_result (connect os service w) (λ f w'. (some (forward_service f), w')) (λ _ w'. (none, w'))

  abbrev pub is_forward : Bytes → Bool
  is_forward service =
      starts_with service (bytes "tcp:")
      || (starts_with service (bytes "localabstract:")
          || starts_with service (bytes "localfilesystem:"))

  -- The service that `open` makes for a name; `starts_with` and `strip_prefix` are one here.
  unfoldable pub make_service : Bytes → os.World → Made
  unfolding open_shell open_forward bytes_eq strip_prefix starts_with
  make_service service w =
      if bytes_eq service (bytes "sync:")
      then (some (sync_service new_sync), w)
      else elim (strip_prefix (bytes "shell:") service) [
        | some cmd ↦ open_shell cmd w
        | none ↦
            if starts_with service (bytes "reboot:")
            then (some reboot_service, w)
            else if is_forward service
            then open_forward service w
            else (none, w)
      ]

  abbrev pub new_stream : ℕ → Service os → Stream os
  new_stream remote_id service = record {
    remote_id = remote_id;
    service = service;
    waiting_for_okay = false;
    remote_closed = false;
  }

  -- The id is handed out, and the next one wraps at 2 ^ 32 in a release build.
  unfoldable pub add_stream : StreamManager os → ℕ → Service os → ℕ × StreamManager os
  unfolding insert
  add_stream m remote_id service = (
    m.next_id,
    record {
      streams = insert m.next_id (new_stream remote_id service) m.streams;
      next_id = (m.next_id + 1) % 2 ^ 32;
    },
  )

  abbrev pub Opened : Type 0
  Opened = Option ℕ × StreamManager os × os.World

  unfoldable pub finish_open : StreamManager os → ℕ → Made → Opened
  unfolding add_stream
  finish_open m remote_id (none, w) = (none, m, w)
  finish_open m remote_id (some service, w) =
      let (local_id, m') = add_stream m remote_id service in (some local_id, m', w)

  unfoldable pub opens_stream : StreamManager os → ℕ → Bytes → os.World → Opened
  unfolding make_service finish_open
  opens_stream m remote_id service w = finish_open m remote_id (make_service service w)
