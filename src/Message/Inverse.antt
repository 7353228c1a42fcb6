-- ===== src/Message/Inverse.antt =====
-- Proofs about src/message.rs: the bytes that `parse_header` accepts.
use muadib.Prelude.{ℕ, ◌≡◌, sym, ap, ◌∙◌, Option, some, [], ◌∷◌, ◌++◌, arith, Result, ok, err}
use muadib.Prelude.Bytes.{
  Bytes, IsByte, IsU32, u32_bytes, from_le_bytes, u32_bytes-from_le_bytes, from_le_bytes-IsU32,
}
use muadib.Prelude.{All}
use mathlib.Core.Path.{subst, subst₂}
use muadib.Interface.Winnow
use muadib.Interface.Winnow.{Winnow, Parser, ◌>>=◌, bind_elim}
use muadib.Message.{
  Command, command_try_from, command_to_u32, ok?, AdbHeader, header_bytes, check_magic, parse_words,
  parse_command, parse_header,
}
use muadib.Message.RoundTrip.{command_try_from-eq_ok, IsWire}

ok?-eq_some : {E A : Type 0} (r : Result E A) (a : A) → ok? r ≡ some a → r ≡ ok a
ok?-eq_some (ok b) a h = ground arith
ok?-eq_some (err e) a h = cc

-- What a parser of words took from the front of the input.
abbrev Took : Bytes → ℕ → Bytes → Type 0
Took i v rest = (i ≡ u32_bytes v ++ rest) × IsU32 v × All IsByte rest

some_pair-injective :
    {A B : Type 0} {a b : A} {x y : B}
    → ◌≡◌ {A = Option (A × B)} (some (a, x)) (some (b, y))
    → (a ≡ b) × (x ≡ y)
some_pair-injective h = ground arith

Took-of_bytes :
    (a b c d : ℕ) (r : Bytes)
    → All IsByte (a ∷ b ∷ c ∷ d ∷ r)
    → Took (a ∷ b ∷ c ∷ d ∷ r) (from_le_bytes a b c d) r
Took-of_bytes a b c d r (ha, (hb, (hc, (hd, hr)))) = (
  ap (λ (p : Bytes). p ++ r) (sym (u32_bytes-from_le_bytes a b c d ha hb hc hd)),
  from_le_bytes-IsU32 a b c d ha hb hc hd,
  hr,
)

header_of_words :
    {i r0 r1 r2 r3 r4 r5 : Bytes} (c : Command) (v1 v2 v3 v4 v5 : ℕ) (h : AdbHeader)
    → Took i (command_to_u32 c) r0
    → Took r0 v1 r1
    → Took r1 v2 r2
    → Took r2 v3 r3
    → Took r3 v4 r4
    → Took r4 v5 r5
    → check_magic (c, v1, v2, v3, v4, v5) ≡ some h
    → (i ≡ header_bytes h ++ r5) × IsWire h
unfolding header_bytes
header_of_words {i} {r5} c v1 v2 v3 v4 v5 h t0 t1 t2 t3 t4 t5 e =
    let made : AdbHeader = record {
      command = c;
      arg0 = v1;
      arg1 = v2;
      data_length = v3;
      data_check = v4;
      magic = v5;
    } in
    let fits : IsWire made = record {
      arg0 = t1.1;
      arg1 = t2.1;
      data_length = t3.1;
      data_check = t4.1;
      magic = ground arith;
    } in
    subst (λ (k : AdbHeader). (i ≡ header_bytes k ++ r5) × IsWire k) (ground arith)
      (t0.0 ∙ rw (t1.0, t2.0, t3.0, t4.0, t5.0), fits)

module _ (w : Winnow) (doc : Winnow.IsDocumented w) where
  le_u32-Took :
      (i : Bytes) (v : ℕ) (rest : Bytes)
      → All IsByte i
      → w.le_u32 i ≡ some (v, rest)
      → Took i v rest
  le_u32-Took [] v rest b h = cc (doc.le_u32_short [] (omega arith))
  le_u32-Took (x ∷ []) v rest b h = cc (doc.le_u32_short (x ∷ []) (omega arith))
  le_u32-Took (x ∷ y ∷ []) v rest b h = cc (doc.le_u32_short (x ∷ y ∷ []) (omega arith))
  le_u32-Took (x ∷ y ∷ z ∷ []) v rest b h = cc (doc.le_u32_short (x ∷ y ∷ z ∷ []) (omega arith))
  le_u32-Took (x ∷ y ∷ z ∷ t ∷ r) v rest b h =
      let (ev, er) = some_pair-injective (sym (doc.le_u32_ok x y z t r) ∙ h) in
      rw (← ev, ← er) (Took-of_bytes x y z t r b)

  -- One word of a chain: what it took, and the rest of the chain.
  le_u32_step :
      {B P : Type 0} (i : Bytes) (f : ℕ × Bytes → Option B) {b : B}
      → All IsByte i
      → (w.le_u32 i >>= f) ≡ some b
      → ((v : ℕ) (rest : Bytes) → Took i v rest → f (v, rest) ≡ some b → P)
      → P
  le_u32_step i f hb h k =
      bind_elim (w.le_u32 i) f h (λ r e g. k r.0 r.1 (le_u32-Took i r.0 r.1 hb e) g)

  parse_command-Took :
      (i : Bytes) (c : Command) (rest : Bytes)
      → All IsByte i
      → parse_command w i ≡ some (c, rest)
      → Took i (command_to_u32 c) rest
  parse_command-Took i c rest b h =
      le_u32_step i _ b (sym (doc.verify_map_lem w.le_u32 _ i) ∙ h) λ v r took g.
        bind_elim (ok? (command_try_from v)) _ g λ c' e k.
          let (ec, er) = some_pair-injective k in
          let ev : v ≡ command_to_u32 c =
            command_try_from-eq_ok v c (ok?-eq_some _ c (rw (← ec) e)) in
          subst₂ (Took i) ev er took

  -- With parsers that do what winnow documents, bytes below 256 that parse to a header are that
  -- header's bytes and what is left, and the header's words fit and its magic is the command's.
  pub parse_header-eq_some :
      (i : Bytes) (h : AdbHeader) (rest : Bytes)
      → All IsByte i
      → parse_header w i ≡ some (h, rest)
      → (i ≡ header_bytes h ++ rest) × IsWire h
  unfolding parse_header
  parse_header-eq_some i h rest b e =
      bind_elim (parse_words w i) _ (sym (doc.verify_map_lem (parse_words w) check_magic i) ∙ e)
        λ r er g. bind_elim (check_magic r.0) _ g λ h' eh k.
          let (ehh, erest) = some_pair-injective k in
          bind_elim (parse_command w i) _
            (sym (doc.seq_six_lem (parse_command w) w.le_u32 w.le_u32 w.le_u32 w.le_u32 w.le_u32 i)
              ∙ er)
            λ a ea g0.
              let t0 : Took i (command_to_u32 a.0) a.1 = parse_command-Took i a.0 a.1 b ea in
              le_u32_step a.1 _ t0.2 g0 λ v1 r1 t1 g1. le_u32_step r1 _ t1.2 g1 λ v2 r2 t2 g2.
                le_u32_step r2 _ t2.2 g2 λ v3 r3 t3 g3. le_u32_step r3 _ t3.2 g3 λ v4 r4 t4 g4.
                  le_u32_step r4 _ t4.2 g4 λ v5 r5 t5 g5.
                    let (ew, ei) = some_pair-injective g5 in
                    subst (λ (r0 : Bytes). (i ≡ header_bytes h ++ r0) × IsWire h) (ei ∙ erest)
                      (header_of_words a.0 v1 v2 v3 v4 v5 h t0 t1 t2 t3 t4 t5
                        (ap check_magic ew ∙ eh ∙ ap (λ (x : AdbHeader). some x) ehh))
