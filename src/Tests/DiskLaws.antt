-- ===== src/Tests/DiskLaws.antt =====
-- What the daemon relies on in its files holds of the disk.
use muadib.Prelude.{
  Bool, true, false, ◌≡◌, refl, sym, ap, ◌∙◌, ◌||◌, Bool-cases, inl, inr, Option, some, All, List,
  [], ◌∷◌, Result, ok, err, is_empty, arith,
}
use mathlib.Core.Path.{subst}
use muadib.Prelude.Bytes.{Bytes}
use muadib.Prelude.Text.{bytes_eq, starts_with}
use muadib.Ffs.Gadget.Writes.{bytes_eq-eq}
use muadib.Interface.Files.{IsFileTree, is_one_of, attributes, sources, udc_path, function_link}
use muadib.Tests.Disk.{
  Disk, Wrote, disk, read_of, content_of, is_there, is_some, is_busy, filled_at, write_file,
  make_link,
}

abbrev pub answer : Result (Unit {0}) Bool → Bool
answer (ok b) = b
answer (err e) = false

abbrev pub first_name : Result (Unit {0}) (List (Result (Unit {0}) Bytes)) → Bytes
first_name (ok (ok name ∷ entries)) = name
first_name _ = []

pub or-true : (a : Bool) → a || true ≡ true
or-true true = refl
or-true false = refl

pub clash : (b : Bool) → b ≡ true → b ≡ false → ⊥
clash b h k = cc

-- A write that succeeds either had no byte, or it leaves a new file in front.
pub wrote :
    (p b : Bytes) (w w' : Disk) (P : Disk → Type 0)
    → write_file p b w ≡ (ok tt, w')
    → (is_empty b ≡ true → P w)
    → (is_empty b ≡ false → is_busy p w ≡ false → P (record w { files = (p, b) ∷ w.files }))
    → P w'
wrote p b w w' P h nothing new = elim (Bool-cases (is_empty b)) [
  | inl e ↦ subst P (ap (λ (x : Wrote). x.1) (rw e at h)) (nothing e)
  | inr e ↦ elim (Bool-cases (is_busy p w)) [
    | inl busy ↦ absurd (let h' = rw (e, busy) at h in cc)
    | inr free ↦ subst P (ap (λ (x : Wrote). x.1) (rw (e, free) at h)) (new e free)
  ]
]

pub linked :
    (t link : Bytes) (w w' : Disk) (P : Disk → Type 0)
    → make_link t link w ≡ (ok tt, w')
    → (is_there w link ≡ false → P (record w { links = (link, t) ∷ w.links }))
    → P w'
linked t link w w' P h new = elim (Bool-cases (is_there w link)) [
  | inl e ↦ absurd (let h' = rw e at h in cc)
  | inr e ↦ subst P (ap (λ (x : Wrote). x.1) (rw e at h)) (new e)
]

pub made_dir :
    (p : Bytes) (w w' : Disk) (P : Disk → Type 0)
    → disk.create_dir_all p w ≡ (ok tt, w')
    → P (record w { dirs = p ∷ w.dirs })
    → P w'
made_dir p w w' P h new = subst P (ap (λ (x : Wrote). x.1) h) new

pub bytes_eq_refl : (b : Bytes) → bytes_eq b b ≡ true
unfolding bytes_eq
bytes_eq_refl [] = refl
bytes_eq_refl (b ∷ bs) = ground (arith, bytes_eq_refl bs)

-- A path that does not start with another is another.
pub starts_with-ne : (q p : Bytes) → starts_with p q ≡ false → bytes_eq q p ≡ false
unfolding bytes_eq starts_with
starts_with-ne [] [] h = absurd (cc)
starts_with-ne [] (c ∷ p) h = absurd (cc)
starts_with-ne (b ∷ q) [] h = refl
starts_with-ne (b ∷ q) (c ∷ p) h = ground (arith, starts_with-ne q p)

one_of : (P : Bytes → Type 0) (q : Bytes) (ps : List Bytes) → All P ps → is_one_of q ps ≡ true → P q
one_of P q [] all h = absurd (cc)
one_of P q (p ∷ ps) (at_p, all) h = elim (Bool-cases (bytes_eq q p)) [
  | inl e ↦ subst P (sym (bytes_eq-eq q p e)) at_p
  | inr e ↦ one_of P q ps all (rw e at h)
]

source-not_attribute : (q : Bytes) → is_one_of q sources ≡ true → is_one_of q attributes ≡ false
unfolding bytes_eq
source-not_attribute q h =
    one_of (λ x. is_one_of x attributes ≡ false) q sources
      (refl, (refl, (refl, (refl, (refl, (refl, (refl, tt))))))) h

pub apart :
    (q p : Bytes)
    → is_one_of q sources ≡ true
    → is_one_of p attributes ≡ true
    → bytes_eq q p ≡ false
apart q p h k = elim (Bool-cases (bytes_eq q p)) [
  | inl e ↦
      let one : is_one_of q attributes ≡ true =
        ap (λ x. is_one_of x attributes) (bytes_eq-eq q p e) ∙ k in
      let other = source-not_attribute q h in absurd (cc)
  | inr e ↦ e
]

pub filled-ne :
    (c : Bytes) (o : Option Bytes) → o ≡ some c → is_empty c ≡ false → filled_at o ≡ true
filled-ne [] o e h = absurd (cc)
filled-ne (b ∷ bs) o e h = rw e refl

abbrev pub disk_tree : IsFileTree disk
disk_tree = record {
  content = λ w. content_of w.files;
  reads = λ p. read_of;
  reads_text = λ p. read_of;
  there = is_there;
  target = λ w. content_of w.links;
  read_law = λ p w. refl;
  read_to_string_law = λ p w. refl;
  write_law = λ p b w w' one filled h.
      wrote p b w w' (λ u. content_of u.files p ≡ some b) h
        (λ e. absurd (clash (is_empty b) e filled)) (λ _ _. rw (bytes_eq_refl p) refl);
  write_attribute_law = λ p b q w w' one named other h.
      wrote p b w w' (λ u. content_of u.files q ≡ content_of w.files q) h (λ _. refl)
        (λ _ _. rw other refl);
  write_nothing_law = λ p q w w' one named h.
      wrote p [] w w' (λ u. content_of u.files q ≡ content_of w.files q) h (λ _. refl)
        (λ e _. absurd (clash true refl e));
  write_source_law = λ p b q w w' one named h.
      wrote p b w w' (λ u. content_of u.files q ≡ content_of w.files q) h (λ _. refl)
        (λ _ _. rw (apart q p named one) refl);
  write_link_law = λ p b w w' one h.
      wrote p b w w'
        (λ u.
          (is_there u function_link ≡ is_there w function_link)
          × (content_of u.links function_link ≡ content_of w.links function_link))
        h (λ _. (refl, refl)) (λ _ _. (refl, refl));
  write_busy_law = λ b c w w' held filled more h.
      wrote udc_path b w w' (λ u. ⊥) h (λ e. clash (is_empty b) e more)
        (λ _ free.
          let busy : is_busy udc_path w ≡ true =
            rw (bytes_eq_refl udc_path) (filled-ne c (content_of w.files udc_path) held filled) in
          clash (is_busy udc_path w) busy free);
  create_dir_all_law =
      λ p q b w w' named h held. made_dir p w w' (λ u. content_of u.files q ≡ some b) h held;
  create_dir_all_source_law =
      λ p q w w' named h. made_dir p w w' (λ u. content_of u.files q ≡ content_of w.files q) h refl;
  create_dir_all_link_law = λ p w w' out h.
      made_dir p w w'
        (λ u.
          (is_there u function_link ≡ is_there w function_link)
          × (content_of u.links function_link ≡ content_of w.links function_link))
        h (rw (starts_with-ne function_link p out) (refl, refl));
  create_dir_all_there_law = λ p w w' h.
      made_dir p w w' (λ u. is_there u p ≡ true) h
        (rw (bytes_eq_refl p) (or-true (is_some (content_of w.links p))));
  exists_law = λ p b w w' h. (
    ap (λ (x : Result (Unit {0}) Bool × Disk). answer x.0) h,
    ap (λ (x : Result (Unit {0}) Bool × Disk). x.1) h,
  );
  symlink_law = λ t link w w' h.
      linked t link w w'
        (λ u.
          (is_there w link ≡ false)
          × (content_of u.links link ≡ some t)
          × (is_there w t ≡ true → is_there u link ≡ true))
        h (λ e. (e, rw (bytes_eq_refl link) refl, λ _. rw (bytes_eq_refl link) refl));
  symlink_content_law = λ t link q w w' one h.
      linked t link w w' (λ u. content_of u.files q ≡ content_of w.files q) h (λ _. refl);
  read_dir_law = λ p entries w w' h.
      ap (λ (x : Result (Unit {0}) (List (Result (Unit {0}) Bytes)) × Disk). x.1) h;
  read_dir_name_law = λ p name entries w w' h.
      ap
        (λ (x : Result (Unit {0}) (List (Result (Unit {0}) Bytes)) × Disk).
          is_empty (first_name x.0))
        (sym h);
}
