-- ===== src/Sync/Stats.antt =====
-- Proofs about the LSTAT request of src/sync.rs: which files it can be answered for.
use muadib.Prelude.{
  ℕ, ◌^◌, ◌<◌, ◌≡◌, refl, ◌∙◌, ap, ◌↔◌, ltb, Outcome, done, Result, ok, err, ltb→lt, arith, ◌>>=◌,
  ◌++◌, Bool-cases, inl, inr, bind-eq-done,
}
use muadib.Prelude.Bytes.{Bytes}
use muadib.Interface.Winnow
use muadib.Interface.Winnow.{Winnow}
use muadib.Interface.Os.{Os, ℤ, pos, negsuc, Metadata, on_result}
use muadib.Sync.{lstat_v1_request}
use muadib.Sync.Requests.{Encodes, parse_sync_packet-Encodes}
use muadib.Sync.Session.{of_request, handle-new_sync}
use muadib.Sync.Service.{
  SyncService, new_sync, handle, handle_packet, handle_lstat_v1, size_u32, mtime_u32, stat_of,
  Handled,
}

-- A time that is a `u32`.
abbrev pub IsU32Time : ℤ → Type 0
IsU32Time (pos t) = t < 2 ^ 32
IsU32Time (negsuc t) = ⊥

-- What STAT can carry: the file cannot be looked up, or its size and its mtime are `u32`s.
abbrev pub FitsStat : {W E : Type 0} → Result E Metadata × W → Type 0
FitsStat (ok meta, world) = (meta.size < 2 ^ 32) × IsU32Time meta.mtime
FitsStat (err e, world) = Unit

abbrev pub IsAnswered : {A : Type 0} → Outcome A → Type 0
IsAnswered {A} m = (a : A) × (m ≡ done a)

size_u32_lem : (size : ℕ) → size < 2 ^ 32 → size_u32 size ≡ done size
size_u32_lem size h = ground arith

size_fits : (size n : ℕ) → size_u32 size ≡ done n → size < 2 ^ 32
size_fits size n h = elim (Bool-cases (ltb size (2 ^ 32))) [
  | inl e ↦ ltb→lt size (2 ^ 32) e
  | inr e ↦ absurd (let g = (rw e at h) in cc)
]

time_of : (time : ℤ) → IsU32Time time → (t : ℕ) × (mtime_u32 time ≡ done t)
time_of (pos t) h = (t, ground arith)
time_of (negsuc t) h = absurd h

time_fits : (time : ℤ) (n : ℕ) → mtime_u32 time ≡ done n → IsU32Time time
time_fits (pos t) n h = elim (Bool-cases (ltb t (2 ^ 32))) [
  | inl e ↦ ltb→lt t (2 ^ 32) e
  | inr e ↦ absurd (let g = (rw e at h) in cc)
]
time_fits (negsuc t) n h = absurd (cc)

module _ (w : Winnow) (os : Os) where
  abbrev lstat_answer : SyncService os → Result os.Error Metadata × os.World → Handled w os
  lstat_answer s x =
      on_result x
        (λ meta world'. do
          size ← size_u32 meta.size
          mtime ← mtime_u32 meta.mtime
          done (stat_of meta.mode size mtime, s, world'))
        (λ _ world'. done (stat_of 0 0 0, s, world'))

  small :
      (s : SyncService os) (meta : Metadata) (world : os.World)
      → IsAnswered (lstat_answer s (ok meta, world))
      → (meta.size < 2 ^ 32) × IsU32Time meta.mtime
  small s meta world (a, h) =
      let (size, e1, h1) = bind-eq-done (size_u32 meta.size) _ h in
      let (mtime, e2, h2) = bind-eq-done (mtime_u32 meta.mtime) _ h1 in
      (size_fits meta.size size e1, time_fits meta.mtime mtime e2)

  answered :
      (s : SyncService os) (meta : Metadata) (world : os.World)
      → (meta.size < 2 ^ 32) × IsU32Time meta.mtime
      → IsAnswered (lstat_answer s (ok meta, world))
  answered s meta world (size, time) =
      let (t, e) = time_of meta.mtime time in
      ((stat_of meta.mode meta.size t, s, world), rw (size_u32_lem meta.size size, e) refl)

  fits :
      (s : SyncService os) (x : Result os.Error Metadata × os.World)
      → IsAnswered (lstat_answer s x) ↔ FitsStat x
  fits s (ok meta, world) = (small s meta world, answered s meta world)
  fits s (err e, world) = (λ _. tt, λ _. (_, refl))

  -- With parsers that do what winnow documents, an LSTAT request to an idle service is answered
  -- just when the path cannot be looked up, or has a size and an mtime that are `u32`s; otherwise
  -- the program panics.
  pub handle-lstat :
      (doc : Winnow.IsDocumented w) (path i rest : Bytes) (world : os.World)
      → Encodes (lstat_v1_request path) i
      → IsAnswered (handle w os new_sync (i ++ rest) world)
        ↔ FitsStat (os.symlink_metadata path world)
  handle-lstat doc path i rest world enc =
      let asked : handle w os new_sync (i ++ rest) world
          ≡ lstat_answer new_sync (os.symlink_metadata path world) =
        handle-new_sync w os (i ++ rest) world
        ∙ ap (of_request w os new_sync world)
            (parse_sync_packet-Encodes w doc (lstat_v1_request path) i rest enc)
        ∙ (unfold handle_packet handle_lstat_v1 in refl) in
      rw asked (fits new_sync (os.symlink_metadata path world))
