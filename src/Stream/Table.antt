-- ===== src/Stream/Table.antt =====
-- Proofs about src/stream.rs: the table as a function from ids to streams.
use muadib.Prelude.{
  ℕ, ◌+◌, ◌≤◌, ◌^◌, ◌<◌, ◌≡◌, refl, ◌∙◌, ap, Option, none, some, List, [], ◌∷◌, length, ◌==◌,
  if◌then◌else◌, arith,
}
use muadib.Interface.Os.{Os}
use muadib.Stream.{Service, Stream, StreamManager, get, put, close, new_stream, add_stream}
use muadib.Stream.Ids.{get-put, get-close, add_stream-IsOpened, IsTable, put-IsTable, close-IsTable}

module _ (os : Os) where
  -- What the daemon does to its streams: it opens one, changes one that it looked up, or closes one.
  pub data TableOp : Type 0 where
    opens : ℕ → Service os → TableOp
    changes : ℕ → (Stream os → Stream os) → TableOp
    closes : ℕ → os.World → TableOp

  abbrev change_found :
      StreamManager os → ℕ → (Stream os → Stream os) → Option (Stream os) → StreamManager os
  change_found m k f none = m
  change_found m k f (some s) = put os m k (f s)

  unfoldable pub apply_op : TableOp → StreamManager os → StreamManager os
  unfolding add_stream put close get
  apply_op (opens remote_id service) m = (add_stream os m remote_id service).1
  apply_op (changes k f) m = change_found m k f (get os m k)
  apply_op (closes k world) m = (close os m k world).0

  unfoldable pub apply_ops : List TableOp → StreamManager os → StreamManager os
  unfolding apply_op
  apply_ops [] m = m
  apply_ops (op ∷ ops) m = apply_ops ops (apply_op op m)

  -- The same on a function, with the next id.
  pub record Streams : Type 0 where
    pub at_id : ℕ → Option (Stream os)
    pub next : ℕ

  abbrev pub changed : (Stream os → Stream os) → Option (Stream os) → Option (Stream os)
  changed f none = none
  changed f (some s) = some (f s)

  abbrev pub abstract_op : TableOp → Streams → Streams
  abstract_op (opens remote_id service) t = record {
    at_id = λ j. if t.next == j then some (new_stream os remote_id service) else t.at_id j;
    next = t.next + 1;
  }
  abstract_op (changes k f) t = record t {
    at_id = λ j. if k == j then changed f (t.at_id j) else t.at_id j;
  }
  abstract_op (closes k world) t = record t { at_id = λ j. if k == j then none else t.at_id j }

  abbrev pub abstract_ops : List TableOp → Streams → Streams
  abstract_ops [] t = t
  abstract_ops (op ∷ ops) t = abstract_ops ops (abstract_op op t)

  pub record Refines (m : StreamManager os) (t : Streams) : Type 0 where
    pub is_table : IsTable os m
    pub same_next : m.next_id ≡ t.next
    pub same_streams : (j : ℕ) → get os m j ≡ t.at_id j

  change_found-Refines :
      (m : StreamManager os) (t : Streams) (k : ℕ) (f : Stream os → Stream os)
      → (o : Option (Stream os)) → get os m k ≡ o
      → Refines m t
      → Refines (change_found m k f o) (abstract_op (changes k f) t)
  change_found-Refines m t k f none e r = record {
    is_table = r.is_table;
    same_next = r.same_next;
    same_streams = λ j. grind (arith, e, r.same_streams j, r.same_streams k);
  }
  change_found-Refines m t k f (some s) e r = record {
    is_table = put-IsTable os m k (f s) s e r.is_table;
    same_next = unfold put in r.same_next;
    same_streams =
        λ j. grind (arith, e, r.same_streams j, r.same_streams k, get-put os m k j (f s));
  }

  apply_op-Refines :
      (op : TableOp) (m : StreamManager os) (t : Streams)
      → m.next_id + 1 < 2 ^ 32
      → Refines m t
      → Refines (apply_op op m) (abstract_op op t)
  unfolding apply_op
  apply_op-Refines (opens remote_id service) m t room r =
      let o = add_stream-IsOpened os m remote_id service r.is_table room in
      record {
        is_table = o.is_table;
        same_next = unfold add_stream in omega (arith, r.same_next, room);
        same_streams =
            λ j. o.opened j ∙ unfold add_stream in rw (r.same_next, r.same_streams j) refl;
      }
  apply_op-Refines (changes k f) m t room r = change_found-Refines m t k f (get os m k) refl r
  apply_op-Refines (closes k world) m t room r = record {
    is_table = close-IsTable os m k world r.is_table;
    same_next = unfold close in r.same_next;
    same_streams =
        λ j. get-close os m k j world ∙ ap (λ x. if k == j then none else x) (r.same_streams j);
  }

  next_id-bound :
      (op : TableOp) (m : StreamManager os)
      → m.next_id + 1 < 2 ^ 32
      → (apply_op op m).next_id ≤ m.next_id + 1
  unfolding apply_op
  next_id-bound (opens remote_id service) m room = unfold add_stream in omega (arith, room)
  next_id-bound (changes k f) m room = unchanged (get os m k)
    where
      unchanged : (o : Option (Stream os)) → (change_found m k f o).next_id ≤ m.next_id + 1
      unchanged none = omega arith
      unchanged (some s) = unfold put in omega arith
  next_id-bound (closes k world) m room = unfold close in omega arith

  -- The table refines a function from ids to streams: from a well-formed table, as long as the ids
  -- do not run out, any sequence of opening streams, changing those found and closing them leaves a
  -- well-formed table whose look-ups are those of the function after the same operations.
  pub apply_ops-Refines :
      (ops : List TableOp) (m : StreamManager os) (t : Streams)
      → m.next_id + length ops + 1 < 2 ^ 32
      → Refines m t
      → Refines (apply_ops ops m) (abstract_ops ops t)
  unfolding apply_ops
  apply_ops-Refines [] m t room r = r
  apply_ops-Refines (op ∷ ops) m t room r =
      let enough : m.next_id + 1 < 2 ^ 32 = omega (arith, room) in
      apply_ops-Refines ops (apply_op op m) (abstract_op op t)
        (omega (arith, next_id-bound op m enough, room)) (apply_op-Refines op m t enough r)
