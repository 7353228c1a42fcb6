-- ===== src/Ffs/Gadget/Tree.antt =====
-- Proofs about `setup_gadget` of src/ffs.rs: the attributes and the link that it leaves.
use muadib.Prelude.{
  ◌≡◌, refl, sym, ◌∙◌, ap, ◌||◌, Bool, true, false, some, [], ◌∷◌, ◌++◌, bytes, is_empty, ok,
}
use mathlib.Core.Path.{subst}
use muadib.Prelude.Bytes.{Bytes}
use muadib.Prelude.Text.{bytes_eq, starts_with}
use muadib.Interface.Os.{Os, Io, ◌>>=◌, ◌>>◌}
use muadib.Interface.Dmi.{Dmi}
use muadib.Interface.Files.{IsFileTree, is_one_of, attributes, sources, udc_path, function_link}
use muadib.Message.{DeviceInfo}
use muadib.Device.{from_system}
use muadib.Device.Fields.{from_system-filled}
use muadib.Device.Reads.{from_system-Same}
use muadib.Ffs.Gadget.{
  in_gadget, config_path, config_strings_en_path, function_path, link_path, unless_there, write_ids,
  write_identity, device_info, setup_gadget,
}
use muadib.Ffs.Gadget.Writes.{
  Writes, held_after, after-ok, Leaves, Leaves-append, Does, then-Does, create-Does, write-Does,
}

-- The files of the gadget, for a serial number.
abbrev id_files : Writes
id_files =
    (in_gadget (bytes "idVendor"), bytes "0x18d1")
    ∷ (in_gadget (bytes "idProduct"), bytes "0x4ee7")
    ∷ (in_gadget (bytes "strings/0x409/manufacturer"), bytes "Android")
    ∷ (in_gadget (bytes "strings/0x409/product"), bytes "Android Debug Bridge")
    ∷ []

abbrev identity_files : Bytes → Writes
identity_files serial =
    (in_gadget (bytes "strings/0x409/serialnumber"), serial)
    ∷ (in_gadget (bytes "configs/c.1/strings/0x409/configuration"), bytes "adb")
    ∷ []

or-true : (a : Bool) {b : Bool} → b ≡ true → a || b ≡ true
or-true true h = refl
or-true false h = h

module _ (os : Os) (tree : IsFileTree os) where
  open tree use {content, there, target}

  -- The call of `write_identity` in front of the link, and in front of the function's directory.
  abbrev before_function : DeviceInfo → Io os.World os.Error (Unit {0})
  before_function info =
      os.write (in_gadget (bytes "strings/0x409/serialnumber")) info.serial
      >> os.create_dir_all config_path
      >> os.create_dir_all config_strings_en_path
      >> os.write (in_gadget (bytes "configs/c.1/strings/0x409/configuration")) (bytes "adb")

  write_ids-Does : Does os tree (write_ids os) id_files
  unfolding write_ids bytes_eq starts_with
  write_ids-Does =
      then-Does os tree _ _
        (then-Does os tree _ _
          (then-Does os tree _ _
            (then-Does os tree _ _
              (then-Does os tree _ _
                (then-Does os tree _ _ (create-Does os tree _ refl) (create-Does os tree _ refl))
                (write-Does os tree _ _ refl refl))
              (write-Does os tree _ _ refl refl))
            (create-Does os tree _ refl))
          (write-Does os tree _ _ refl refl))
        (write-Does os tree _ _ refl refl)

  before_function-Does :
      (info : DeviceInfo)
      → is_empty info.serial ≡ false
      → Does os tree (before_function info) (identity_files info.serial)
  unfolding bytes_eq starts_with
  before_function-Does info filled =
      then-Does os tree _ _
        (then-Does os tree _ _
          (then-Does os tree _ _ (write-Does os tree _ _ refl filled) (create-Does os tree _ refl))
          (create-Does os tree _ refl))
        (write-Does os tree _ _ refl refl)

  -- The link is there; it was made when nothing was there, and else it is as it was.
  record IsLinked (v w' : os.World) : Type 0 where
    same_content :
        (q : Bytes)
        → is_one_of q attributes || is_one_of q sources ≡ true
        → content w' q ≡ content v q
    linked : there w' function_link ≡ true
    made : there v function_link ≡ false → target w' function_link ≡ some function_path
    kept : there v function_link ≡ true → target w' function_link ≡ target v function_link

  unless_there-IsLinked :
      (b : Bool) (v w' : os.World)
      → there v function_path ≡ true
      → there v function_link ≡ b
      → unless_there os b v ≡ (ok tt, w')
      → IsLinked v w'
  unless_there-IsLinked true v w' here e h =
      let same : v ≡ w' = ap (λ x. x.1) h in
      record {
        same_content = λ q _. ap (λ u. content u q) (sym same);
        linked = ap (λ u. there u function_link) (sym same) ∙ e;
        made = λ none_there. absurd (cc);
        kept = λ _. ap (λ u. target u function_link) (sym same);
      }
  unless_there-IsLinked false v w' here e h =
      let (_, leads, now) = tree.symlink_law function_path function_link v w' h in
      record {
        same_content = λ q one. tree.symlink_content_law function_path function_link q v w' one h;
        linked = now here;
        made = λ _. leads;
        kept = λ some_there. absurd (cc);
      }

  link_step-IsLinked :
      (v w' : os.World)
      → there v function_path ≡ true
      → (os.exists link_path >>= unless_there os) v ≡ (ok tt, w')
      → IsLinked v w'
  link_step-IsLinked v w' here h =
      let (b, u, asked, h') = after-ok (os.exists link_path v) (unless_there os) tt w' h in
      let (e, same) = tree.exists_law function_link b v u asked in
      unless_there-IsLinked b v w' here e
        (subst (λ x. unless_there os b x ≡ (ok tt, w')) (sym same) h')

  -- The gadget as `setup_gadget` leaves it: the six attributes and the link, with a serial number.
  -- The link leads to the function where there was none, and is as it was where there was one; a
  -- controller that the gadget had been bound to stays.
  pub record IsSetUp (serial : Bytes) (w w' : os.World) : Type 0 where
    pub vendor : content w' (in_gadget (bytes "idVendor")) ≡ some (bytes "0x18d1")
    pub product : content w' (in_gadget (bytes "idProduct")) ≡ some (bytes "0x4ee7")
    pub manufacturer_name :
        content w' (in_gadget (bytes "strings/0x409/manufacturer")) ≡ some (bytes "Android")
    pub product_name :
        content w' (in_gadget (bytes "strings/0x409/product")) ≡ some (bytes "Android Debug Bridge")
    pub serial_number : content w' (in_gadget (bytes "strings/0x409/serialnumber")) ≡ some serial
    pub configuration :
        content w' (in_gadget (bytes "configs/c.1/strings/0x409/configuration"))
        ≡ some (bytes "adb")
    pub same_udc : (b : Bytes) → content w udc_path ≡ some b → content w' udc_path ≡ some b
    pub linked : there w' function_link ≡ true
    pub link_made : there w function_link ≡ false → target w' function_link ≡ some function_path
    pub link_kept : there w function_link ≡ true → target w' function_link ≡ target w function_link

  module _ (serial : Bytes) (w v w' : os.World)
      (l : Leaves os tree (id_files ++ identity_files serial) w v) (m : IsLinked v w') where
    attribute_after :
        (q b : Bytes)
        → is_one_of q attributes ≡ true
        → held_after (content w q) q (id_files ++ identity_files serial) ≡ some b
        → content w' q ≡ some b
    attribute_after q b one h = rw (m.same_content q (rw one refl)) (l.attribute q b one h)

    set_up : IsSetUp serial w w'
    unfolding bytes_eq held_after
    set_up = record {
      vendor = attribute_after _ _ refl refl;
      product = attribute_after _ _ refl refl;
      manufacturer_name = attribute_after _ _ refl refl;
      product_name = attribute_after _ _ refl refl;
      serial_number = attribute_after _ _ refl refl;
      configuration = attribute_after _ _ refl refl;
      same_udc = λ b h. attribute_after udc_path b refl h;
      linked = m.linked;
      link_made = λ h. m.made (l.same_there ∙ h);
      link_kept = λ h. m.kept (l.same_there ∙ h) ∙ l.same_target;
    }

  module _ (dmi : Dmi) where
    from_system-still : (v : os.World) → (from_system os dmi v).1 ≡ v
    from_system-still v =
        (from_system-Same os tree v v dmi (record {
          cpuinfo = refl;
          device_tree = refl;
          os_release = refl;
          machine_id = refl;
          hostname = refl;
          entry_point = refl;
          table = refl;
        })).1

    -- Calls that leave every source of the identity leave the identity.
    same_identity :
        (v w' : os.World)
        → ((q : Bytes) → is_one_of q sources ≡ true → content w' q ≡ content v q)
        → (from_system os dmi v).0 ≡ (from_system os dmi w').0
    unfolding bytes_eq
    same_identity v w' same =
        (from_system-Same os tree v w' dmi (record {
          cpuinfo = sym (same _ refl);
          device_tree = sym (same _ refl);
          os_release = sym (same _ refl);
          machine_id = sym (same _ refl);
          hostname = sym (same _ refl);
          entry_point = sym (same _ refl);
          table = sym (same _ refl);
        })).0

    write_identity-IsSetUp :
        (w v w' : os.World)
        → Leaves os tree id_files w v
        → write_identity os (from_system os dmi v).0 v ≡ (ok tt, w')
        → IsSetUp (from_system os dmi w').0.serial w w'
    write_identity-IsSetUp w v w' ids h =
        let info : DeviceInfo = (from_system os dmi v).0 in
        let filled = (from_system-filled os dmi v).0 in
        let (a, u, made, last) =
          after-ok ((before_function info >> os.create_dir_all function_path) v)
            (λ _. os.exists link_path >>= unless_there os) tt w' (unfold write_identity in h) in
        let (b, t, written, created) =
          after-ok (before_function info v) (λ _. os.create_dir_all function_path) a u made in
        let first = before_function-Does info filled v b t written in
        let second : Leaves os tree [] t u =
          create-Does os tree function_path (unfold starts_with in refl) t a u created in
        let whole = Leaves-append os tree _ _ v t u first second in
        let m : IsLinked u w' =
          link_step-IsLinked u w' (tree.create_dir_all_there_law function_path t u created) last in
        subst (λ i. IsSetUp i.serial w w')
          (same_identity v w'
            (λ q one. m.same_content q (or-true (is_one_of q attributes) one) ∙ whole.source q one))
          (set_up info.serial w u w' (Leaves-append os tree _ _ w v u ids whole) m)

    -- Over ConfigFS and the files of an identity, when `setup_gadget` succeeds: the gadget's vendor,
    -- product, their two names, the serial number and the configuration's name are set, and the
    -- serial number is that of the identity that `DeviceInfo::from_system` then reads, as the daemon
    -- does when it starts; the link of the function is there, and it leads to the function when
    -- nothing was there before, and is as it was when something was; and a controller that the
    -- gadget was bound to stays.
    pub setup_gadget-IsSetUp :
        (w w' : os.World)
        → setup_gadget os dmi w ≡ (ok tt, w')
        → IsSetUp (from_system os dmi w').0.serial w w'
    unfolding setup_gadget
    setup_gadget-IsSetUp w w' h =
        let (a, v, h1, h2) =
          after-ok (write_ids os w) (λ _. device_info os dmi >>= write_identity os) tt w' h in
        let info : DeviceInfo = (from_system os dmi v).0 in
        write_identity-IsSetUp w v w' (write_ids-Does w a v h1) (
          subst (λ (u : os.World). write_identity os info u ≡ (ok tt, w')) (from_system-still v) h2)
