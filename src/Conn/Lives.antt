-- ===== src/Conn/Lives.antt =====
-- Proofs about `run` in src/main.rs: a stream over the completions of a run.
use muadib.Prelude.{
  ℕ, none, ℕ, ◌+◌, ◌^◌, ◌<◌, ◌≡◌, refl, none, List, [], ◌∷◌, done, panic, Outcome, bind-eq-done,
  ◌>>=◌, ok, err, ap, ◌∙◌,
}
use mathlib.Core.Path.{subst}
use muadib.Interface.Winnow.{Winnow}
use muadib.Interface.Os.{Os}
use muadib.Interface.Ring.{Ring}
use muadib.Message.{DeviceInfo, AdbHeader}
use muadib.Buffers.Slots.{IsPool}
use muadib.Stream.Ids.{IsTable}
use muadib.Stream.Lives.{IsLaterTable, IsLaterTable-refl, IsLaterTable-trans}
use muadib.UserData.{user_data_try_from}
use muadib.Stream.{get, close}
use muadib.Prelude.Bytes.{Bytes}
use muadib.Conn.{Conn}
use muadib.Conn.Continue
use muadib.Conn.Handlers
use muadib.Conn.Commands
use muadib.Conn.Flow.{SameStreams, submit_okay-SameStreams}
use muadib.Conn.Events
use muadib.Conn.Events.{Session, Flow, goes, ends_ok, ends_err, Cqe}
use muadib.Conn.Accounts.{Accounts, reads_for}
use muadib.Conn.Completions.{on_cqe-Accounts}

module _ (w : Winnow) (ring : Ring) (os : Os) (ep0 : os.Fd) (info : DeviceInfo) where
  -- Waits and completions, in any order, after each of which the loop goes on.
  pub data Goes (s : Session os) : Session os → Type 0 where
    stays : Goes s s
    submits : {t : Session os} → Goes s t → Goes s (Events.submitted w ring os ep0 info t)
    completes :
        {t : Session os} (cqe : Cqe) (u : Session os)
        → Goes s t
        → Events.on_cqe w ring os ep0 info cqe t ≡ done (goes u)
        → Goes s u

  abbrev FlowGoes : Session os → Outcome (Flow os) → Type 0
  FlowGoes s (done (goes t)) = Goes s t
  FlowGoes s (done (ends_ok c)) = Unit
  FlowGoes s (done (ends_err c)) = Unit
  FlowGoes s (panic why) = Unit

  -- The loop goes on after one part, with the next.
  pub goes_on :
      (x : Flow os) (next : Session os → Outcome (Flow os)) (u : Session os)
      → elim x [ goes s ↦ next s | ends_ok c ↦ done (ends_ok c) | ends_err c ↦ done (ends_err c) ]
        ≡ done (goes u)
      → (v : Session os) × (x ≡ goes v) × (next v ≡ done (goes u))
  goes_on (goes v) next u h = (v, refl, h)
  goes_on (ends_ok c) next u h = absurd (cc)
  goes_on (ends_err c) next u h = absurd (cc)

  on_batch-Goes :
      (batch : List Cqe) (s t u : Session os)
      → Goes s t
      → Events.on_batch w ring os ep0 info batch t ≡ done (goes u)
      → Goes s u
  unfolding Events.on_batch
  on_batch-Goes [] s t u g h = subst (λ m. FlowGoes s m) h g
  on_batch-Goes (cqe ∷ batch) s t u g h =
      let (x, first, rest) = bind-eq-done (Events.on_cqe w ring os ep0 info cqe t) _ h in
      let (v, on, left) = goes_on x (Events.on_batch w ring os ep0 info batch) u rest in
      on_batch-Goes batch s v u (completes cqe v g (first ∙ ap (λ y. done y) on)) left

  -- The loop of `run` is such a sequence.
  pub run_batches-Goes :
      (waits : List (Events.Wait w ring os ep0 info)) (s t u : Session os)
      → Goes s t
      → Events.run_batches w ring os ep0 info waits t ≡ done (goes u)
      → Goes s u
  unfolding Events.run_batches
  run_batches-Goes [] s t u g h = subst (λ m. FlowGoes s m) h g
  run_batches-Goes (err e ∷ waits) s t u g h = absurd (cc)
  run_batches-Goes (ok batch ∷ waits) s t u g h =
      let t' : Session os = Events.submitted w ring os ep0 info t in
      let (x, first, rest) = bind-eq-done (Events.on_batch w ring os ep0 info batch t') _ h in
      let (v, on, left) = goes_on x (Events.run_batches w ring os ep0 info waits) u rest in
      run_batches-Goes waits s v u
        (on_batch-Goes batch s t' v (submits g) (first ∙ ap (λ y. done y) on)) left

  -- At no completion had the ids of streams run out.
  abbrev pub WithRoom : {s t : Session os} → Goes s t → Type 0
  WithRoom stays = Unit
  WithRoom (submits g) = WithRoom g
  WithRoom (completes {t} cqe u g h) = (t.conn.streams.next_id + 1 < 2 ^ 32) × WithRoom g

  record IsOn (s t : Session os) : Type 0 where
    pub pool : IsPool t.conn.buffers
    pub table : IsTable os t.conn.streams
    pub later : IsLaterTable os s.conn.streams t.conn.streams

  Goes-IsOn :
      {s t : Session os} (g : Goes s t)
      → WithRoom g
      → IsPool s.conn.buffers
      → IsTable os s.conn.streams
      → IsOn s t
  Goes-IsOn {s} stays room p t = record {
    pool = p;
    table = t;
    later = IsLaterTable-refl os s.conn.streams;
  }
  Goes-IsOn (submits g) room p t =
      let on = Goes-IsOn g room p t in record { pool = on.pool; table = on.table; later = on.later }
  Goes-IsOn (completes {t} cqe u g h) (here, room) p tab =
      let on = Goes-IsOn g room p tab in
      let next =
        subst (Accounts (reads_for (user_data_try_from cqe.user_data)) t.conn) h
          (on_cqe-Accounts w ring os ep0 info cqe t on.pool on.table here) in
      record {
        pool = next.pool;
        table = next.table;
        later = IsLaterTable-trans os on.later next.later;
      }

  -- From a pool of eight slots and a well-formed stream table, over any waits and completions after
  -- each of which the loop goes on, and as long as the ids of streams do not run out: a stream that
  -- was open is closed, or keeps the host's id and its service (a shell or a socket the very same
  -- one, a sync service its kind), and stays closed by the host once it was; an id that was handed
  -- out and is closed names no stream again.
  pub Goes-IsLaterTable :
      {s t : Session os} (g : Goes s t)
      → WithRoom g
      → IsPool s.conn.buffers
      → IsTable os s.conn.streams
      → IsLaterTable os s.conn.streams t.conn.streams
  Goes-IsLaterTable g room p t = (Goes-IsOn g room p t).later

  -- What is left to a closed stream: OKAY, CLSE and the reads of its service find nothing to do.
  pub record IsClosed (k : ℕ) (c : Conn os) : Type 0 where
    pub okay_ignored : (h : AdbHeader) → h.arg1 ≡ k → Continue.handle_command_okay ring h c ≡ done c
    pub clse_ignored : (h : AdbHeader) → h.arg1 ≡ k → Handlers.handle_command_clse ring h c ≡ done c
    pub pty_ignored :
        (len : ℕ) (buffer : Bytes) → Events.pty_data w ring os ep0 info k len buffer c ≡ done c
    pub socket_ignored :
        (len : ℕ) (buffer : Bytes) → Events.socket_data w ring os ep0 info k len buffer c ≡ done c
    pub wrte_acknowledged :
        (h : AdbHeader) (p : Bytes)
        → h.arg1 ≡ k
        → Commands.handle_command_wrte w ring h p c ≡ Commands.submit_okay w ring k h.arg0 c
    pub end_ignored :
        (d : Conn os)
        → Events.read_ended w ring os ep0 info k c ≡ done d
        → (d.queue ≡ c.queue) × (d.buffers ≡ c.buffers) × (d.world ≡ c.world)

  -- Nothing but the table differs.
  abbrev SameRest : Conn os → Outcome (Conn os) → Type 0
  SameRest c (done d) = (d.queue ≡ c.queue) × (d.buffers ≡ c.buffers) × (d.world ≡ c.world)
  SameRest c (panic why) = Unit

  read_ended-SameRest :
      (k : ℕ) (c : Conn os)
      → get os c.streams k ≡ none
      → SameRest c (Events.read_ended w ring os ep0 info k c)
  unfolding Events.read_ended Handlers.close_stream close
  read_ended-SameRest k c e = rw e (refl, refl, refl)

  bind_same :
      (m : Outcome (Conn os)) (f : Conn os → Outcome (Conn os))
      → ((d : Conn os) → m ≡ done d → f d ≡ done d)
      → (m >>= f) ≡ m
  bind_same (done d) f h = h d refl
  bind_same (panic why) f h = refl

  absent-IsClosed : (k : ℕ) (c : Conn os) → get os c.streams k ≡ none → IsClosed k c
  absent-IsClosed k c e = record {
    okay_ignored = λ h same.
        unfold Continue.handle_command_okay Continue.maybe_continue_stream in rw (same, e, e) refl;
    clse_ignored =
        λ h same. unfold Handlers.handle_command_clse Handlers.clse_stream in rw (same, e) refl;
    pty_ignored = λ len buffer. unfold Events.pty_data in rw e refl;
    socket_ignored = λ len buffer. unfold Events.socket_data in rw e refl;
    wrte_acknowledged = λ h p same.
        unfold Commands.handle_command_wrte in
        rw same (
          bind_same (Commands.submit_okay w ring k h.arg0 c) _ (λ d sent.
            let streams : d.streams ≡ c.streams =
              subst (SameStreams c) sent (submit_okay-SameStreams ring w k h.arg0 c) in
            let still : get os d.streams k ≡ none = ap (λ m. get os m k) streams ∙ e in
            unfold Commands.wrte_stream in rw still refl));
    end_ignored = λ d h. subst (SameRest c) h (read_ended-SameRest k c e);
  }

  -- From a pool of eight slots and a well-formed stream table, over any waits and completions after
  -- each of which the loop goes on, and as long as the ids of streams do not run out, an id that
  -- was handed out and is closed stays without effect: OKAY and CLSE for it and bytes read for it
  -- change nothing, WRTE for it is answered with OKAY and does nothing else, and the end of its
  -- service's reads queues nothing and changes neither the pool nor the world.
  pub Goes-IsClosed :
      {s t : Session os} (k : ℕ) (g : Goes s t)
      → WithRoom g
      → IsPool s.conn.buffers
      → IsTable os s.conn.streams
      → k < s.conn.streams.next_id
      → get os s.conn.streams k ≡ none
      → IsClosed k t.conn
  Goes-IsClosed {s} {t} k g room p tab lt e =
      absent-IsClosed k t.conn ((Goes-IsLaterTable g room p tab).gone k lt e)
