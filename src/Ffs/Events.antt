-- ===== src/Ffs/Events.antt =====
-- Proofs about `read_next_ffs_event_type` of src/ffs.rs: the bytes of an event.
use muadib.Prelude.{
  ℕ, false, ◌+◌, ◌≤◌, ◌≡◌, refl, sym, ◌∙◌, ap, ◌↔◌, Bool-cases, inl, inr, Option, none, some, [],
  ◌∷◌, ◌++◌, length, length-append, get_elem?, ltb, if◌then◌else◌, bytes, Result, ok, err, arith,
}
use muadib.Prelude.Bytes.{Bytes}
use muadib.Interface.Os.{Os, Io, after, throw}
use muadib.Ffs.{
  UsbFunctionFsEventType, bind, unbind, enable, disable, setup, suspend, resume, event_try_from,
  event_size, event_type_offset, byte_at, known_event, read_next_ffs_event_type,
}

-- The kernel's `usb_functionfs_event_type`.
abbrev pub number : UsbFunctionFsEventType → ℕ
number bind = 0
number unbind = 1
number enable = 2
number disable = 3
number setup = 4
number suspend = 5
number resume = 6

-- The kernel's `usb_functionfs_event`: a control request of eight bytes, the event, and padding.
pub record IsEvent (event : UsbFunctionFsEventType) (buf : Bytes) : Type 0 where
  pub request : Bytes
  pub padding : Bytes
  pub same : buf ≡ request ++ (number event ∷ padding)
  pub request_length : length request ≡ 8
  pub padding_length : 3 ≤ length padding

event_try_from-number : (e : UsbFunctionFsEventType) → event_try_from (number e) ≡ some e
unfolding event_try_from
event_try_from-number bind = refl
event_try_from-number e = refl

event_try_from-only :
    (v : ℕ) (e : UsbFunctionFsEventType) → event_try_from v ≡ some e → v ≡ number e
unfolding event_try_from
event_try_from-only v bind h = ground arith
event_try_from-only v e h = ground arith

get_elem?-append : (xs : Bytes) (t : ℕ) (r : Bytes) → get_elem? (xs ++ (t ∷ r)) (length xs) ≡ some t
get_elem?-append [] t r = refl
get_elem?-append (x ∷ xs) t r = get_elem?-append xs t r

-- Twelve bytes have a request, a type and padding.
parts :
    (buf : Bytes)
    → 12 ≤ length buf
    → (request : Bytes) × (t : ℕ) × (padding : Bytes) × (buf ≡ request ++ (t ∷ padding))
      × (length request ≡ 8)
      × (3 ≤ length padding)
parts (a ∷ b ∷ c ∷ d ∷ e ∷ f ∷ g ∷ h ∷ t ∷ padding) le =
    (a ∷ b ∷ c ∷ d ∷ e ∷ f ∷ g ∷ h ∷ [], t, padding, refl, refl, omega (arith, le))
parts _ le = absurd (omega (arith, le))

byte_at-event :
    (request padding : Bytes) (t : ℕ)
    → length request ≡ 8
    → byte_at (request ++ (t ∷ padding)) event_type_offset ≡ t
byte_at-event request padding t e =
    let at : get_elem? (request ++ (t ∷ padding)) 8 ≡ some t =
      ap (get_elem? (request ++ (t ∷ padding))) (sym e) ∙ get_elem?-append request t padding in
    rw (at, byte_at) refl

number-only :
    (buf : Bytes) (e : UsbFunctionFsEventType)
    → 12 ≤ length buf
    → event_try_from (byte_at buf event_type_offset) ≡ some e
    → IsEvent e buf
number-only buf e le h =
    let (request, t, padding, same, eight, three) = parts buf le in
    let is_number : t ≡ number e = event_try_from-only t e (
      ap event_try_from (
        sym (byte_at-event request padding t eight)
        ∙ ap (λ (b : Bytes). byte_at b event_type_offset) (sym same))
      ∙ h) in
    record {
      request = request;
      padding = padding;
      same = same ∙ ap (λ (x : ℕ). request ++ (x ∷ padding)) is_number;
      request_length = eight;
      padding_length = three;
    }

module _ (os : Os) where
  abbrev decoded : Bytes → Io os.World os.Error UsbFunctionFsEventType
  decoded buf =
      if ltb (length buf) event_size
      then throw (os.other_error (bytes "short ep0 event read"))
      else known_event os (event_try_from (byte_at buf event_type_offset))

  known_event-ok :
      (o : Option UsbFunctionFsEventType) (e : UsbFunctionFsEventType) (v w' : os.World)
      → known_event os o v ≡ (ok e, w')
      → (o ≡ some e) × (v ≡ w')
  known_event-ok none e v w' h = absurd (cc)
  known_event-ok (some x) e v w' h = (cc, cc)

  decoded-only :
      (x : Result os.Error Bytes × os.World) (e : UsbFunctionFsEventType) (w' : os.World)
      → after x decoded ≡ (ok e, w')
      → (buf : Bytes) × (x ≡ (ok buf, w')) × IsEvent e buf
  decoded-only (err r, v) e w' h = absurd (cc)
  decoded-only (ok buf, v) e w' h = elim (Bool-cases (ltb (length buf) event_size)) [
    | inl short ↦ absurd (let h' = rw short at h in cc)
    | inr long ↦
        let (known, same) = known_event-ok (event_try_from (byte_at buf 8)) e v w' (rw long at h) in
        (
          buf,
          ap (λ (u : os.World). (ok buf, u)) same,
          number-only buf e (ground (arith, long)) known,
        )
  ]

  decoded-event :
      (buf : Bytes) (e : UsbFunctionFsEventType) (v : os.World)
      → IsEvent e buf
      → decoded buf v ≡ (ok e, v)
  decoded-event buf e v i =
      let size : length buf ≡ length i.request + (1 + length i.padding) =
        ap length i.same ∙ length-append i.request (number e ∷ i.padding) ∙ omega arith in
      let long : ltb (length buf) event_size ≡ false =
        ground (arith, size, i.request_length, i.padding_length) in
      let at : byte_at buf event_type_offset ≡ number e =
        ap (λ (b : Bytes). byte_at b event_type_offset) i.same
        ∙ byte_at-event i.request i.padding (number e) i.request_length in
      rw (long, at, event_try_from-number e) refl

  -- Reading the next event succeeds with an event just when the read of twelve bytes gives eight
  -- bytes of a request, the kernel's number of the event and three bytes or more of padding.
  pub read_next_ffs_event_type-IsEvent :
      (ep0 : os.Fd) (e : UsbFunctionFsEventType) (w w' : os.World)
      → (read_next_ffs_event_type os ep0 w ≡ (ok e, w'))
        ↔ ((buf : Bytes) × (os.fd_read ep0 12 w ≡ (ok buf, w')) × IsEvent e buf)
  unfolding read_next_ffs_event_type
  read_next_ffs_event_type-IsEvent ep0 e w w' = (
    λ h. decoded-only (os.fd_read ep0 12 w) e w' h,
    λ (buf, read, i). rw read (decoded-event buf e w' i),
  )
