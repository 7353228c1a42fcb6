-- ===== src/Ffs/Gadget/Writes.antt =====
-- Proofs about the calls that src/ffs.rs makes in ConfigFS: what a chain of writes and of directories
-- that are made leaves.
use muadib.Prelude.{
  ◌≡◌, refl, sym, ◌∙◌, ap, true, false, Bool-cases, inl, inr, Option, none, some, List, [], ◌∷◌,
  ◌++◌, is_empty, Result, ok, err, if◌then◌else◌, arith,
}
use muadib.Prelude.Bytes.{Bytes}
use muadib.Prelude.Text.{bytes_eq, starts_with}
use muadib.Interface.Os.{Os, Io, after, ◌>>◌}
use muadib.Interface.Files.{IsFileTree, is_one_of, attributes, sources, function_link}

abbrev pub Writes : Type 0
Writes = List (Bytes × Bytes)

-- What a path has after writes to paths, in order.
unfoldable pub held_after : Option Bytes → Bytes → Writes → Option Bytes
unfolding bytes_eq
held_after prior q [] = prior
held_after prior q ((p, b) ∷ ws) = held_after (if bytes_eq q p then some b else prior) q ws

held_after-append :
    (q : Bytes) (a : Writes) (prior : Option Bytes) (b : Writes)
    → held_after prior q (a ++ b) ≡ held_after (held_after prior q a) q b
unfolding held_after
held_after-append q [] prior b = refl
held_after-append q ((p, c) ∷ a) prior b =
    held_after-append q a (if bytes_eq q p then some c else prior) b

-- What writes alone give to a path it has whatever it had before.
held_after-none :
    (q : Bytes) (ws : Writes) (prior : Option Bytes) (b : Bytes)
    → held_after none q ws ≡ some b
    → held_after prior q ws ≡ some b
unfolding held_after
held_after-none q [] prior b h = absurd (cc)
held_after-none q ((p, c) ∷ ws) prior b h = elim (Bool-cases (bytes_eq q p)) [
  | inl e ↦ rw e (rw e at h)
  | inr e ↦ rw e (held_after-none q ws prior b (rw e at h))
]

pub bytes_eq-eq : (a b : Bytes) → bytes_eq a b ≡ true → a ≡ b
unfolding bytes_eq
bytes_eq-eq [] [] h = refl
bytes_eq-eq [] (b ∷ bs) h = absurd (cc)
bytes_eq-eq (a ∷ as') [] h = absurd (cc)
bytes_eq-eq (a ∷ as') (b ∷ bs) h = ground (arith, bytes_eq-eq as' bs)

-- A chain that succeeds does so at its first call and then at the rest.
pub after-ok :
    {W E A B : Type 0} (x : Result E A × W) (f : A → Io W E B) (b : B) (w' : W)
    → after x f ≡ (ok b, w')
    → (a : A) × (v : W) × (x ≡ (ok a, v)) × (f a v ≡ (ok b, w'))
after-ok (ok a, v) f b w' h = (a, v, refl, h)
after-ok (err e, v) f b w' h = absurd (cc)

module _ (os : Os) (tree : IsFileTree os) where
  open tree use {content, there, target}

  -- The attributes hold what the writes leave, the sources what they held, and the link is as it was.
  pub record Leaves (ws : Writes) (w w' : os.World) : Type 0 where
    pub attribute :
        (q b : Bytes)
        → is_one_of q attributes ≡ true
        → held_after (content w q) q ws ≡ some b
        → content w' q ≡ some b
    pub source : (q : Bytes) → is_one_of q sources ≡ true → content w' q ≡ content w q
    pub same_there : there w' function_link ≡ there w function_link
    pub same_target : target w' function_link ≡ target w function_link

  abbrev pub Does : {A : Type 0} → Io os.World os.Error A → Writes → Type 0
  Does {A} m ws = (w : os.World) (a : A) (w' : os.World) → m w ≡ (ok a, w') → Leaves ws w w'

  pub Leaves-append :
      (a b : Writes) (w v w' : os.World) → Leaves a w v → Leaves b v w' → Leaves (a ++ b) w w'
  Leaves-append a b w v w' first second = record {
    attribute = λ q x named h.
        let h' : held_after (held_after (content w q) q a) q b ≡ some x =
          sym (held_after-append q a (content w q) b) ∙ h in
        second.attribute q x named (
          held_before (held_after (content w q) q a) q x (content v q)
            (λ y. first.attribute q y named) h');
    source = λ q named. second.source q named ∙ first.source q named;
    same_there = second.same_there ∙ first.same_there;
    same_target = second.same_target ∙ first.same_target;
  }
    where
      held_before :
          (prior : Option Bytes) (q x : Bytes) (now : Option Bytes)
          → ((y : Bytes) → prior ≡ some y → now ≡ some y)
          → held_after prior q b ≡ some x
          → held_after now q b ≡ some x
      held_before none q x now k h = held_after-none q b now x h
      held_before (some y) q x now k h = rw (k y refl) h

  pub then-Does :
      {m k : Io os.World os.Error (Unit {0})} (a b : Writes)
      → Does m a
      → Does k b
      → Does (m >> k) (a ++ b)
  then-Does {m} {k} a b dm dk w tt w' h =
      let (x, v, hm, hk) = after-ok (m w) (λ _. k) tt w' h in
      Leaves-append a b w v w' (dm w x v hm) (dk v tt w' hk)

  pub create-Does :
      (p : Bytes) → starts_with p function_link ≡ false → Does (os.create_dir_all p) []
  unfolding held_after
  create-Does p out w tt w' h =
      let (same_there, same_target) = tree.create_dir_all_link_law p w w' out h in
      record {
        attribute = λ q b named held. tree.create_dir_all_law p q b w w' named h held;
        source = λ q named. tree.create_dir_all_source_law p q w w' named h;
        same_there = same_there;
        same_target = same_target;
      }

  pub write-Does :
      (p b : Bytes)
      → is_one_of p attributes ≡ true
      → is_empty b ≡ false
      → Does (os.write p b) ((p, b) ∷ [])
  unfolding held_after
  write-Does p b one filled w tt w' h =
      let (same_there, same_target) = tree.write_link_law p b w w' one h in
      record {
        attribute = λ q x named held. elim (Bool-cases (bytes_eq q p)) [
          | inl e ↦
              ap (content w') (bytes_eq-eq q p e)
              ∙ tree.write_law p b w w' one filled h
              ∙ (rw e at held)
          | inr e ↦ tree.write_attribute_law p b q w w' one named e h ∙ (rw e at held)
        ];
        source = λ q named. tree.write_source_law p b q w w' one named h;
        same_there = same_there;
        same_target = same_target;
      }
