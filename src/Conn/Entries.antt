-- ===== src/Conn/Entries.antt =====
-- Proofs about the entries that src/main.rs submits: what their user data says of them, and the
-- slots of the pool that hold the bytes of writes.
use muadib.Prelude.{
  ℕ, zero, suc, ◌≤◌, ◌≡◌, refl, sym, ◌∙◌, ap, Option, none, some, List, [], ◌∷◌, ◌++◌, get_elem?,
  ◌==◌, if◌then◌else◌, Result, ok, err, arith,
}
use mathlib.Core.List.{append-nil}
use muadib.Prelude.Bytes.{Bytes}
use muadib.Interface.Ring.{Sqe, Op, write, bulk_in}
use muadib.Buffers.{BufferManager}
use muadib.UserData.{
  OpType, bulk_out_read_header, bulk_out_read_payload, bulk_in_write, pty_read, socket_read,
  non_zero, UserData, UserDataError, user_data_to_u64, user_data_try_from,
}
use muadib.UserData.RoundTrip.{IsNonZeroU32, user_data_try_from-to_u64}

-- The values that a partial function has on a list.
abbrev pub add_some {ℓ} : {X : Type ℓ} → Option X → List X → List X
add_some none xs = xs
add_some (some x) xs = x ∷ xs

abbrev pub collect {ℓ} : {X : Type ℓ} → (Sqe → Option X) → List Sqe → List X
collect f [] = []
collect f (e ∷ q) = add_some (f e) (collect f q)

module _ {ℓ} {X : Type ℓ} (f : Sqe → Option X) where
  add_some-append : (o : Option X) (xs ys : List X) → add_some o (xs ++ ys) ≡ add_some o xs ++ ys
  add_some-append none xs ys = refl
  add_some-append (some x) xs ys = refl

  pub collect-append : (a b : List Sqe) → collect f (a ++ b) ≡ collect f a ++ collect f b
  collect-append [] b = refl
  collect-append (e ∷ a) b =
      ap (add_some (f e)) (collect-append a b) ∙ add_some-append (f e) (collect f a) (collect f b)

  -- An entry that is not counted can go.
  pub collect-drop :
      (a : List Sqe) (e : Sqe) (b : List Sqe)
      → f e ≡ none
      → collect f (a ++ (e ∷ b)) ≡ collect f (a ++ b)
  collect-drop [] e b h = rw h refl
  collect-drop (x ∷ a) e b h = ap (add_some (f x)) (collect-drop a e b h)

  nothing_else : (a : List X) (x y : X) (b : List X) → a ++ (x ∷ b) ≡ y ∷ [] → a ++ b ≡ []
  nothing_else [] x y b h = cc
  nothing_else (z ∷ []) x y b h = cc
  nothing_else (z ∷ u ∷ a) x y b h = cc

  -- When one entry alone is counted, none is left without it.
  pub collect-only :
      (a : List Sqe) (e : Sqe) (b : List Sqe) (x y : X)
      → f e ≡ some x
      → collect f (a ++ (e ∷ b)) ≡ y ∷ []
      → collect f (a ++ b) ≡ []
  collect-only a e b x y h only =
      collect-append a b
      ∙ nothing_else (collect f a) x y (collect f b) (
          ap (λ (o : Option X). collect f a ++ add_some o (collect f b)) (sym h)
          ∙ sym (collect-append a (e ∷ b))
          ∙ only)

  pub same_one : (a : List X) (x y : X) (b : List X) → a ++ (x ∷ b) ≡ y ∷ [] → x ≡ y
  same_one [] x y b h = cc
  same_one (z ∷ []) x y b h = cc
  same_one (z ∷ u ∷ a) x y b h = cc

  pub collect-some :
      (a : List Sqe) (e : Sqe) (b : List Sqe) (x : X)
      → f e ≡ some x
      → collect f (a ++ (e ∷ b)) ≡ collect f a ++ (x ∷ collect f b)
  collect-some a e b x h =
      collect-append a (e ∷ b) ∙ ap (λ (o : Option X). collect f a ++ add_some o (collect f b)) h

  pub collect-only_same :
      (a : List Sqe) (e : Sqe) (b : List Sqe) (x y : X)
      → f e ≡ some x
      → collect f (a ++ (e ∷ b)) ≡ y ∷ []
      → x ≡ y
  collect-only_same a e b x y h only = same_one (collect f a) x y (collect f b) (
      ap (λ (o : Option X). collect f a ++ add_some o (collect f b)) (sym h)
      ∙ sym (collect-append a (e ∷ b))
      ∙ only)

  nothing_added : (o : Option X) (xs : List X) → add_some o xs ≡ [] → (o ≡ none) × (xs ≡ [])
  nothing_added none xs h = (refl, h)
  nothing_added (some x) xs h = absurd (cc)

  -- When no entry is counted, this one is not, and none is without it.
  pub collect-nil :
      (a : List Sqe) (e : Sqe) (b : List Sqe)
      → collect f (a ++ (e ∷ b)) ≡ []
      → (f e ≡ none) × (collect f (a ++ b) ≡ [])
  collect-nil [] e b h = nothing_added (f e) (collect f b) h
  collect-nil (x ∷ a) e b h =
      let (this, rest) = nothing_added (f x) (collect f (a ++ (e ∷ b))) h in
      let (there, left) = collect-nil a e b rest in (there, rw (this, left) refl)

  pub collect-snoc : (a : List Sqe) (e : Sqe) → f e ≡ none → collect f (a ++ (e ∷ [])) ≡ collect f a
  collect-snoc a e h = collect-drop a e [] h ∙ ap (collect f) (append-nil a)

  pub collect-snoc_some :
      (a : List Sqe) (e : Sqe) (x : X)
      → f e ≡ some x
      → collect f (a ++ (e ∷ [])) ≡ collect f a ++ (x ∷ [])
  collect-snoc_some a e x h =
      collect-append a (e ∷ []) ∙ ap (λ (o : Option X). collect f a ++ add_some o []) h

-- The slot whose buffer a write uses, and the kind of read of a message.
abbrev pub slot_of : Result UserDataError UserData → Option ℕ
slot_of (err e) = none
slot_of (ok u) = elim u.op_type [ bulk_in_write ↦ u.id | _ ↦ none ]

abbrev pub read_kind : Result UserDataError UserData → Option OpType
read_kind (err e) = none
read_kind (ok u) = elim u.op_type [
  | bulk_out_read_header ↦ some bulk_out_read_header
  | bulk_out_read_payload ↦ some bulk_out_read_payload
  | _ ↦ none
]

abbrev pub if_slot : Option ℕ → ℕ → Op → Option Op
if_slot none i op = none
if_slot (some k) i op = if k == i then some op else none

-- The operation of an entry that wants an id and has none.
abbrev pub without_id : OpType → Option ℕ → Option OpType
without_id bulk_in_write none = some bulk_in_write
without_id pty_read none = some pty_read
without_id socket_read none = some socket_read
without_id op id = none

abbrev pub lacking : Result UserDataError UserData → Option OpType
lacking (err e) = none
lacking (ok u) = without_id u.op_type u.id

pub write_of : ℕ → Sqe → Option Op
write_of i e = if_slot (slot_of (user_data_try_from e.user_data)) i e.op

pub read_of : Sqe → Option OpType
read_of e = read_kind (user_data_try_from e.user_data)

pub lacks_of : Sqe → Option OpType
lacks_of e = lacking (user_data_try_from e.user_data)

abbrev pub held_write : Option (Option Bytes) → List Op
held_write none = []
held_write (some none) = []
held_write (some (some b)) = write bulk_in b ∷ []

-- The write that the buffer of a slot is for.
abbrev pub held : BufferManager → ℕ → List Op
held m zero = []
held m (suc i) = held_write (get_elem? m.slots i)

-- A slot in use has one write among the entries, of the bytes that it holds; a free one has none.
abbrev pub Owned : List Sqe → BufferManager → Type 0
Owned entries m = (i : ℕ) → collect (write_of i) entries ≡ held m i

-- An entry with this user data.
abbrev pub Names : Sqe → UserData → Type 0
Names e u = (e.user_data ≡ user_data_to_u64 u) × IsNonZeroU32 u.id

pub decoded : (e : Sqe) (u : UserData) → Names e u → user_data_try_from e.user_data ≡ ok u
decoded e u n = ap user_data_try_from n.0 ∙ user_data_try_from-to_u64 u n.1

pub write_of-Names :
    (e : Sqe) (u : UserData) (i : ℕ) → Names e u → write_of i e ≡ if_slot (slot_of (ok u)) i e.op
unfolding write_of
write_of-Names e u i n = ap (λ r. if_slot (slot_of r) i e.op) (decoded e u n)

pub read_of-Names : (e : Sqe) (u : UserData) → Names e u → read_of e ≡ read_kind (ok u)
unfolding read_of
read_of-Names e u n = ap read_kind (decoded e u n)

pub lacks_of-Names : (e : Sqe) (u : UserData) → Names e u → lacks_of e ≡ lacking (ok u)
unfolding lacks_of
lacks_of-Names e u n = ap lacking (decoded e u n)

pub non_zero_of : (n : ℕ) → 1 ≤ n → non_zero n ≡ some n
non_zero_of zero h = absurd (omega arith)
non_zero_of (suc n) h = refl

pub write_of_lem :
    (e : Sqe) (i : ℕ) → write_of i e ≡ if_slot (slot_of (user_data_try_from e.user_data)) i e.op
unfolding write_of
write_of_lem e i = refl

pub read_of_lem : (e : Sqe) → read_of e ≡ read_kind (user_data_try_from e.user_data)
unfolding read_of
read_of_lem e = refl

pub lacks_of_lem : (e : Sqe) → lacks_of e ≡ lacking (user_data_try_from e.user_data)
unfolding lacks_of
lacks_of_lem e = refl
