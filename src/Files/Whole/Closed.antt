-- ===== src/Files/Whole/Closed.antt =====
-- The functions that use a whole file close the descriptor that they open.
use smpcil.Base.{
  if◌then◌else◌, none, some, ℕ, suc, ◌≡◌, refl, ◌∙◌, Bool, true, false, ◌||◌, Option, ℤ, negsuc,
  Ptr, null, arith, ◌==◌, is_error, Bool-cases, inl, inr, ◌+◌,
}
use smpcil.Libc.{Libc}
use smpcil.Error.{World, set_error, checked_value}
use smpcil.Error.Laws.{set_error-mem}
use smpcil.Error.Texts.{no_source}
use smpcil.Files.{
  Calls, o_rdonly, o_wronly, o_creat, o_append, def_mode, open_with, close_file, read_some,
  write_some,
}
use smpcil.Files.Whole.{closing, read_opened, write_opened, read_file, write_file, file_write_apend}

-- What POSIX documents of descriptors: a successful `open` gives one that was not open, `close` of
-- an open one closes it, and no other call opens or closes any.
pub record FdLaws {os : Libc} (calls : Calls os) : Type 0 where
  pub opened : os.Mem → ℕ
  pub is_open : os.Mem → ℤ → Bool
  pub open_opens :
      (file : Ptr) (flg : ℕ) (mode : Option ℤ) (m : os.Mem)
      → is_error (calls.open_file file flg mode m).0 ≡ false
      → (opened (calls.open_file file flg mode m).1 ≡ suc (opened m))
        × (is_open (calls.open_file file flg mode m).1 (calls.open_file file flg mode m).0 ≡ true)
  pub open_fails :
      (file : Ptr) (flg : ℕ) (mode : Option ℤ) (m : os.Mem)
      → is_error (calls.open_file file flg mode m).0 ≡ true
      → opened (calls.open_file file flg mode m).1 ≡ opened m
  pub close_closes :
      (fd : ℤ) (m : os.Mem) → is_open m fd ≡ true → suc (opened (calls.close fd m).1) ≡ opened m
  pub read_keeps :
      (fd : ℤ) (buf : Ptr) (n : ℕ) (m : os.Mem)
      → (opened (calls.read fd buf n m).1 ≡ opened m)
        × ((g : ℤ) → is_open (calls.read fd buf n m).1 g ≡ is_open m g)
  pub write_keeps :
      (fd : ℤ) (buf : Ptr) (n : ℕ) (m : os.Mem)
      → (opened (calls.write fd buf n m).1 ≡ opened m)
        × ((g : ℤ) → is_open (calls.write fd buf n m).1 g ≡ is_open m g)
  pub malloc_keeps :
      (n : ℕ) (m : os.Mem)
      → (opened (os.malloc n m).1 ≡ opened m)
        × ((g : ℤ) → is_open (os.malloc n m).1 g ≡ is_open m g)

module _ {os : Libc} (calls : Calls os) (laws : FdLaws calls) where
  abbrev Keeps : os.Mem → os.Mem → Type 0
  Keeps m m' = (laws.opened m' ≡ laws.opened m) × ((g : ℤ) → laws.is_open m' g ≡ laws.is_open m g)

  set_error-Keeps : (error : _) (w : World os) → Keeps w.mem (set_error error w).mem
  set_error-Keeps error w =
      set_error-mem {P = Keeps w.mem} error w
        (λ n m (count, each).
          let (count', each') = laws.malloc_keeps n m in (count' ∙ count, λ g. each' g ∙ each g))
        (refl, λ g. refl)

  read_some-Keeps :
      (fd : ℤ) (buf : Ptr) (n : ℕ) (w : World os) → Keeps w.mem (read_some calls fd buf n w).1.mem
  unfolding read_some
  read_some-Keeps fd buf n w = elim (Bool-cases ((buf == null) || (n == 0))) [
    | inl t ↦ rw t (set_error-Keeps no_source w)
    | inr f ↦ rw f (laws.read_keeps fd buf n w.mem)
  ]

  write_some-Keeps :
      (fd : ℤ) (buf : Ptr) (n : ℕ) (w : World os) → Keeps w.mem (write_some calls fd buf n w).1.mem
  unfolding write_some
  write_some-Keeps fd buf n w = elim (Bool-cases ((buf == null) || (n == 0))) [
    | inl t ↦ rw t (set_error-Keeps no_source w)
    | inr f ↦ rw f (laws.write_keeps fd buf n w.mem)
  ]

  -- What `smp_open` has done to the descriptors.
  data Opened (w : World os) (fd : ℤ) (w' : World os) : Type 0 where
    failed : is_error fd ≡ true → laws.opened w'.mem ≡ laws.opened w.mem → Opened w fd w'
    fresh :
        is_error fd ≡ false
        → laws.opened w'.mem ≡ suc (laws.opened w.mem)
        → laws.is_open w'.mem fd ≡ true
        → Opened w fd w'

  open_with-Opened :
      (file : Ptr) (flg : ℕ) (mode : ℤ) (w : World os)
      → Opened w (open_with calls file flg mode w).0 (open_with calls file flg mode w).1
  unfolding open_with
  open_with-Opened file flg mode w = go (if is_error mode then none else some mode)
    where
      go :
          (md : Option ℤ)
          → let r = calls.open_file file flg md w.mem in
            let q = checked_value r.0 (record w { mem = r.1 }) in Opened w q.0 q.1
      go md = elim (Bool-cases (is_error (calls.open_file file flg md w.mem).0)) [
        | inl t ↦ rw t (failed refl ((set_error-Keeps _ _).0 ∙ laws.open_fails file flg md w.mem t))
        | inr f ↦
            let (count, here) = laws.open_opens file flg md w.mem f in rw f (fresh f count here)
      ]

  -- The descriptor is closed after its use.
  closing-opened :
      (fd : ℤ) (w : World os) (r : ℤ × World os)
      → laws.is_open w.mem fd ≡ true
      → Keeps w.mem r.1.mem
      → suc (laws.opened (closing calls fd r).1.mem) ≡ laws.opened w.mem
  unfolding closing close_file
  closing-opened fd w (ret, w') here (count, each) =
      laws.close_closes fd w'.mem (each fd ∙ here) ∙ count

  suc_injective : (m n : ℕ) → suc m ≡ suc n → m ≡ n
  suc_injective m n e = omega arith

  read_opened-balanced :
      (buf : Ptr) (n : ℕ) (w : World os) (fd : ℤ) (w' : World os)
      → Opened w fd w'
      → laws.opened (read_opened calls buf n (fd, w')).1.mem ≡ laws.opened w.mem
  unfolding read_opened
  read_opened-balanced buf n w fd w' (failed e count) = rw e count
  read_opened-balanced buf n w fd w' (fresh e count here) = rw e (
      suc_injective _ _ (
        closing-opened fd w' (read_some calls fd buf n w') here (read_some-Keeps fd buf n w')
        ∙ count))

  write_opened-balanced :
      (buf : Ptr) (n : ℕ) (w : World os) (fd : ℤ) (w' : World os)
      → Opened w fd w'
      → laws.opened (write_opened calls buf n (fd, w')).1.mem ≡ laws.opened w.mem
  unfolding write_opened
  write_opened-balanced buf n w fd w' (failed e count) = rw e count
  write_opened-balanced buf n w fd w' (fresh e count here) = rw e (
      suc_injective _ _ (
        closing-opened fd w' (write_some calls fd buf n w') here (write_some-Keeps fd buf n w')
        ∙ count))

  module _ (file buf : Ptr) (n : ℕ) (w : World os) where
    abbrev FromOpen : Type 0
    FromOpen =
        (read_file calls file buf n w
          ≡ read_opened calls buf n (open_with calls file o_rdonly (negsuc 0) w))
        × (write_file calls file buf n w
            ≡ write_opened calls buf n (open_with calls file (o_wronly + o_creat) def_mode w))
        × (file_write_apend calls file buf n w
            ≡ write_opened calls buf n
                (open_with calls file (o_wronly + o_append + o_creat) def_mode w))

    whole_files-opens : (f : ((buf == null) || (n == 0)) ≡ false) → FromOpen
    unfolding read_file write_file file_write_apend
    whole_files-opens f = (rw f refl, rw f refl, rw f refl)

    whole_files-refuse :
        ((buf == null) || (n == 0)) ≡ true
        → (read_file calls file buf n w ≡ (negsuc 0, set_error no_source w))
          × (write_file calls file buf n w ≡ (negsuc 0, set_error no_source w))
          × (file_write_apend calls file buf n w ≡ (negsuc 0, set_error no_source w))
    unfolding read_file write_file file_write_apend
    whole_files-refuse t = (rw t refl, rw t refl, rw t refl)

    -- Whether they succeed or fail, `smp_read_file`, `smp_write_file` and `smp_file_write_apend`
    -- leave as many descriptors open as there were.
    pub whole_files-balanced :
        (laws.opened (read_file calls file buf n w).1.mem ≡ laws.opened w.mem)
        × (laws.opened (write_file calls file buf n w).1.mem ≡ laws.opened w.mem)
        × (laws.opened (file_write_apend calls file buf n w).1.mem ≡ laws.opened w.mem)
    whole_files-balanced = elim (Bool-cases ((buf == null) || (n == 0))) [
      | inl t ↦
          let same = (set_error-Keeps no_source w).0 in
          let (a, b, c) = whole_files-refuse t in (rw a same, rw b same, rw c same)
      | inr f ↦
          let (a, b, c) = whole_files-opens f in
          (
            rw a (read_opened-balanced buf n w _ _ (open_with-Opened file o_rdonly (negsuc 0) w)),
            rw b (
                write_opened-balanced buf n w _ _
                  (open_with-Opened file (o_wronly + o_creat) def_mode w)),
            rw c (
                write_opened-balanced buf n w _ _
                  (open_with-Opened file (o_wronly + o_append + o_creat) def_mode w)),
          )
    ]
