-- ===== src/Stream/Lives.antt =====
-- Proofs about src/stream.rs: what a stream keeps for as long as it is open.
use muadib.Prelude.{
  ℕ, ◌+◌, ◌^◌, ◌≤◌, ◌<◌, ◌≡◌, refl, sym, ◌∙◌, Bool, true, false, Option, none, some, ◌==◌, if_elim,
  arith,
}
use mathlib.Core.Path.{subst}
use muadib.Interface.Os.{Os}
use muadib.Sync.Service.{SyncService}
use muadib.Stream.{
  Service, sync_service, shell_service, reboot_service, forward_service, Stream, StreamManager, get,
  put, close, add_stream,
}
use muadib.Stream.Ids.{get-put, get-close, get-add_stream}

module _ {os : Os} where
  abbrev pub is_sync : Service os → Bool
  is_sync (sync_service svc) = true
  is_sync (shell_service f) = false
  is_sync reboot_service = false
  is_sync (forward_service f) = false

  -- A sync service changes its state and stays one; any other service stays what it is, with its
  -- descriptors and its process.
  abbrev pub SameService : Service os → Service os → Type 0
  SameService (sync_service a) t = is_sync t ≡ true
  SameService (shell_service a) t = t ≡ shell_service a
  SameService reboot_service t = t ≡ reboot_service
  SameService (forward_service a) t = t ≡ forward_service a

  SameService-refl : (a : Service os) → SameService a a
  SameService-refl (sync_service a) = refl
  SameService-refl (shell_service a) = refl
  SameService-refl reboot_service = refl
  SameService-refl (forward_service a) = refl

  is_sync-SameService :
      (a b : SyncService os) (s : Service os) → s ≡ sync_service a → SameService s (sync_service b)
  is_sync-SameService a b s p = subst (λ x. SameService x (sync_service b)) (sym p) refl

  SameService-trans : (a b c : Service os) → SameService a b → SameService b c → SameService a c
  SameService-trans (sync_service a) (sync_service b) c p q = q
  SameService-trans (sync_service a) (shell_service b) c p q = absurd (cc)
  SameService-trans (sync_service a) reboot_service c p q = absurd (cc)
  SameService-trans (sync_service a) (forward_service b) c p q = absurd (cc)
  SameService-trans (shell_service a) b c p q = subst (λ x. SameService x c) p q
  SameService-trans reboot_service b c p q = subst (λ x. SameService x c) p q
  SameService-trans (forward_service a) b c p q = subst (λ x. SameService x c) p q

  -- A stream later in its life: the host's id and the service are the same, and a host that has
  -- closed its side has closed it for good.
  pub record IsLater (s t : Stream os) : Type 0 where
    pub same_remote : t.remote_id ≡ s.remote_id
    pub same_service : SameService s.service t.service
    pub stays_closed : s.remote_closed ≡ true → t.remote_closed ≡ true

  -- A stream that only waits, or no longer waits.
  pub same_service-IsLater :
      {waiting : Bool} (s : Stream os) → IsLater s (record s { waiting_for_okay = waiting })
  same_service-IsLater s = record {
    same_remote = refl;
    same_service = SameService-refl s.service;
    stays_closed = λ h. h;
  }

  -- The host has closed its side of a stream.
  pub closed-IsLater : (s : Stream os) → IsLater s (record s { remote_closed = true })
  closed-IsLater s = record {
    same_remote = refl;
    same_service = SameService-refl s.service;
    stays_closed = λ _. refl;
  }

  -- A stream whose sync service goes to another state.
  pub synced-IsLater :
      (svc next : SyncService os) (s : Stream os) (waiting : Bool)
      → s.service ≡ sync_service svc
      → IsLater s (record s { service = sync_service next; waiting_for_okay = waiting })
  synced-IsLater svc next s waiting p = record {
    same_remote = refl;
    same_service = is_sync-SameService svc next s.service p;
    stays_closed = λ h. h;
  }

  IsLater-trans : (s t u : Stream os) → IsLater s t → IsLater t u → IsLater s u
  IsLater-trans s t u p q = record {
    same_remote = q.same_remote ∙ p.same_remote;
    same_service = SameService-trans s.service t.service u.service p.same_service q.same_service;
    stays_closed = λ h. q.stays_closed (p.stays_closed h);
  }

  abbrev pub Follows : Stream os → Option (Stream os) → Type 0
  Follows s none = Unit
  Follows s (some t) = IsLater s t

  abbrev pub IsAbsent : Option (Stream os) → Type 0
  IsAbsent o = o ≡ none

module _ (os : Os) where
  -- A later table: no id is handed out twice, and a stream that was open is closed or is later in
  -- its life.
  pub record IsLaterTable (m m' : StreamManager os) : Type 0 where
    pub grows : m.next_id ≤ m'.next_id
    pub gone : (k : ℕ) → k < m.next_id → get os m k ≡ none → get os m' k ≡ none
    pub kept :
        (k : ℕ) (s : Stream os) → k < m.next_id → get os m k ≡ some s → Follows s (get os m' k)

  pub IsLaterTable-refl : (m : StreamManager os) → IsLaterTable m m
  IsLaterTable-refl m = record {
    grows = omega arith;
    gone = λ k lt e. e;
    kept = λ k s lt e. rw e (record {
      same_remote = refl;
      same_service = SameService-refl s.service;
      stays_closed = λ h. h;
    });
  }

  Follows-later :
      (s : Stream os) (m m' : StreamManager os) (k : ℕ)
      → k < m.next_id
      → IsLaterTable m m'
      → (o : Option (Stream os)) → get os m k ≡ o
      → Follows s o
      → Follows s (get os m' k)
  Follows-later s m m' k lt p none e f = rw (p.gone k lt e) tt
  Follows-later s m m' k lt p (some t) e f = later (get os m' k) (p.kept k t lt e)
    where
      later : (o : Option (Stream os)) → Follows t o → Follows s o
      later none g = tt
      later (some u) g = IsLater-trans s t u f g

  pub IsLaterTable-trans :
      {m n p : StreamManager os} → IsLaterTable m n → IsLaterTable n p → IsLaterTable m p
  IsLaterTable-trans {m} {n} {p} a b = record {
    grows = omega (arith, a.grows, b.grows);
    gone = λ k lt e. b.gone k (omega (arith, lt, a.grows)) (a.gone k lt e);
    kept = λ k s lt e.
        Follows-later s n p k (omega (arith, lt, a.grows)) b (get os n k) refl (a.kept k s lt e);
  }

  same_stream :
      (m : StreamManager os) (k j : ℕ) (s t : Stream os)
      → (k == j) ≡ true
      → get os m k ≡ some t
      → get os m j ≡ some s
      → t ≡ s
  same_stream m k j s t b e h = let same_id : k ≡ j = ground arith in cc

  -- What a handler writes to a stream that it has looked up.
  pub put-IsLaterTable :
      (m : StreamManager os) (k : ℕ) (s t : Stream os)
      → get os m k ≡ some t
      → IsLater t s
      → IsLaterTable m (put os m k s)
  put-IsLaterTable m k s t e l = record {
    grows = unfold put in omega arith;
    gone = λ j lt n. subst IsAbsent (sym (get-put os m k j s)) (
        if_elim IsAbsent (k == j) (λ b. let same_id : k ≡ j = ground arith in absurd (cc))
          (λ b. n));
    kept = λ j u lt h. subst (Follows u) (sym (get-put os m k j s)) (
        if_elim (Follows u) (k == j) (λ b. subst (λ x. IsLater x s) (same_stream m k j u t b e h) l)
          (λ b. (IsLaterTable-refl m).kept j u lt h));
  }

  pub close-IsLaterTable :
      (m : StreamManager os) (k : ℕ) (w : os.World) → IsLaterTable m (close os m k w).0
  close-IsLaterTable m k w = record {
    grows = unfold close in omega arith;
    gone = λ j lt n.
        subst IsAbsent (sym (get-close os m k j w))
          (if_elim IsAbsent (k == j) (λ b. refl) (λ b. n));
    kept = λ j u lt h.
        subst (Follows u) (sym (get-close os m k j w))
          (if_elim (Follows u) (k == j) (λ b. tt) (λ b. (IsLaterTable-refl m).kept j u lt h));
  }

  -- The id of a new stream is none of those handed out before.
  pub add_stream-IsLaterTable :
      (m : StreamManager os) (remote_id : ℕ) (service : Service os)
      → m.next_id + 1 < 2 ^ 32
      → IsLaterTable m (add_stream os m remote_id service).1
  add_stream-IsLaterTable m remote_id service room = record {
    grows = unfold add_stream in omega arith;
    gone = λ j lt n.
        subst IsAbsent (sym (get-add_stream os m remote_id j service))
          (if_elim IsAbsent (m.next_id == j) (λ b. absurd (ground arith)) (λ b. n));
    kept = λ j u lt h. subst (Follows u) (sym (get-add_stream os m remote_id j service)) (
        if_elim (Follows u) (m.next_id == j) (λ b. absurd (ground arith))
          (λ b. (IsLaterTable-refl m).kept j u lt h));
  }
