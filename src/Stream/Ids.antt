-- ===== src/Stream/Ids.antt =====
-- Proofs about src/stream.rs: the ids of the stream table, and operations on one stream.
use muadib.Prelude.{
  ℕ, ◌+◌, ◌^◌, ◌≤◌, ◌<◌, ◌≡◌, refl, Option, none, some, List, [], ◌∷◌, ◌==◌, if◌then◌else◌, arith,
  ◌∙◌,
}
use muadib.Interface.Os.{Os}
use muadib.Stream.{
  Service, Stream, StreamManager, lookup, remove, insert, new_streams, get, put, close, new_stream,
  add_stream,
}

module _ {os : Os} where
  lookup-remove :
      (k j : ℕ) (m : List (ℕ × Stream os))
      → lookup j (remove k m) ≡ (if k == j then none else lookup j m)
  unfolding lookup remove
  lookup-remove k j [] = ground arith
  lookup-remove k j ((i, s) ∷ m) = ground (arith, lookup-remove k j m)

  lookup-insert :
      (k j : ℕ) (s : Stream os) (m : List (ℕ × Stream os))
      → lookup j (insert k s m) ≡ (if k == j then some s else lookup j m)
  unfolding lookup insert
  lookup-insert k j s m = ground (arith, lookup-remove k j m)

module _ (os : Os) where
  pub get-put :
      (m : StreamManager os) (k j : ℕ) (s : Stream os)
      → get os (put os m k s) j ≡ (if k == j then some s else get os m j)
  unfolding get put
  get-put m k j s = lookup-insert k j s m.streams

  pub get-close :
      (m : StreamManager os) (k j : ℕ) (w : os.World)
      → get os (close os m k w).0 j ≡ (if k == j then none else get os m j)
  unfolding get close
  get-close m k j w = lookup-remove k j m.streams

  -- Every open stream has an id from 1 up to the next one, which is a `u32`.
  pub record IsTable (m : StreamManager os) : Type 0 where
    pub positive : 1 ≤ m.next_id
    pub bounded : m.next_id < 2 ^ 32
    pub below : (k : ℕ) (s : Stream os) → get os m k ≡ some s → (1 ≤ k) × (k < m.next_id)

  pub IsTable-new : IsTable new_streams
  IsTable-new = record {
    positive = omega arith;
    bounded = omega arith;
    below = λ k s h. unfold get lookup in cc;
  }

  pub put-IsTable :
      (m : StreamManager os) (k : ℕ) (s t : Stream os)
      → get os m k ≡ some t
      → IsTable m
      → IsTable (put os m k s)
  put-IsTable m k s t h v = record {
    positive = unfold put in v.positive;
    bounded = unfold put in v.bounded;
    below = λ j u e. unfold put in ground (arith, get-put m k j s, e, v.below j u, v.below k t h);
  }

  pub close-IsTable :
      (m : StreamManager os) (k : ℕ) (w : os.World) → IsTable m → IsTable (close os m k w).0
  close-IsTable m k w v = record {
    positive = unfold close in v.positive;
    bounded = unfold close in v.bounded;
    below = λ j u e. unfold close in ground (arith, get-close m k j w, e, v.below j u);
  }

  -- What opening a stream promises: the id was unused, it now names a stream with the host's id
  -- and the service made, which waits for nothing, no other id changes, and the table is one.
  pub record IsOpened (m : StreamManager os) (remote_id : ℕ) (service : Service os) (local_id : ℕ)
      (m' : StreamManager os) : Type 0 where
    pub fresh : get os m local_id ≡ none
    pub opened :
        (j : ℕ)
        → get os m' j
          ≡ (if local_id == j then some (new_stream os remote_id service) else get os m j)
    pub is_table : IsTable m'

  fresh_id :
      (m : StreamManager os)
      → IsTable m
      → (o : Option (Stream os)) → get os m m.next_id ≡ o
      → o ≡ none
  fresh_id m v none e = refl
  fresh_id m v (some s) e = absurd (omega (arith, v.below m.next_id s e))

  pub get-add_stream :
      (m : StreamManager os) (remote_id j : ℕ) (service : Service os)
      → get os (add_stream os m remote_id service).1 j
        ≡ (if m.next_id == j then some (new_stream os remote_id service) else get os m j)
  unfolding get add_stream
  get-add_stream m remote_id j service =
      lookup-insert m.next_id j (new_stream os remote_id service) m.streams

  -- In a well-formed table whose ids have not run out, a new stream gets an id that no stream has,
  -- only that id's entry changes, and the table stays well formed.
  pub add_stream-IsOpened :
      (m : StreamManager os) (remote_id : ℕ) (service : Service os)
      → IsTable m
      → m.next_id + 1 < 2 ^ 32
      → IsOpened m remote_id service
          (add_stream os m remote_id service).0
          (add_stream os m remote_id service).1
  add_stream-IsOpened m remote_id service v room = record {
    fresh = unfold add_stream in fresh_id m v _ refl;
    opened = λ j. get-add_stream m remote_id j service ∙ unfold add_stream in refl;
    is_table = record {
      positive = unfold add_stream in omega arith;
      bounded = unfold add_stream in omega arith;
      below = λ k s e.
          unfold add_stream in
          ground (arith, get-add_stream m remote_id k service, e, v.below k s, v.positive);
    };
  }
