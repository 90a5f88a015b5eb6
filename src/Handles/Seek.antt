-- ===== src/Handles/Seek.antt =====
-- kernel/dosfns.c: the position in a file. Positions are 32-bit numbers that wrap around.
use burdah_dos_system.Base.{
  ℕ, ◌+◌, ◌%◌, ◌<◌, false, not, ◌&&◌, none, some, ltb, ◌==◌, if◌then◌else◌, ◌≡◌, ◌⊎◌, inl, inr,
  refl, sym, ap, subst, ◌∙◌, Bool-cases, Option-cases, arith,
}
use burdah_dos_system.Handles.{
  Result, ok, failed, de_invldfunc, de_invldhndl, Sft, has_bit, Sfttbl, idx_to_sft_, idx_to_sft,
  alter_sft, get_sft_idx,
}
use burdah_dos_system.Handles.Calls.{Services, State}
use burdah_dos_system.Handles.Table.{idx_to_sft-use, idx_to_sft_-alter_sft}

module _ (services : Services) where
  open services use {World, remote_lseek}

  -- The new position, from the entry; `mode` is SEEK_SET, SEEK_CUR or SEEK_END.
  unfoldable pub new_position : (i new_pos mode : ℕ) → Sft → World → ℕ × World
  unfolding has_bit
  new_position i new_pos mode f w =
      if has_bit f.sft_flags 0x0080
      then (0, w)
      else if mode == 1
      then ((new_pos + f.sft_posit) % 0x100000000, w)
      else if not (mode == 2)
      then (new_pos, w)
      else if has_bit f.sft_flags 0x8000 && has_bit f.sft_mode 0x0070
      then remote_lseek i new_pos w
      else ((new_pos + f.sft_size) % 0x100000000, w)

  unfoldable pub sft_seek2 : (sft_idx new_pos mode : ℕ) → State services → Result × State services
  unfolding idx_to_sft new_position
  sft_seek2 i new_pos mode s = elim (idx_to_sft i s.sfthead) [
    | none ↦ (failed de_invldhndl, s)
    | some f ↦
        let (p, w) = new_position i new_pos mode f s.world in
        if ltb 2 mode then (failed de_invldfunc, s) else (
          ok p,
          record s { sfthead = alter_sft i (λ x. record x { sft_posit = p }) s.sfthead; world = w },
        )
  ]

  unfoldable pub dos_seek : (hndl new_pos mode : ℕ) → State services → Result × State services
  unfolding get_sft_idx sft_seek2
  dos_seek hndl new_pos mode s = elim (get_sft_idx hndl s.psp) [
    | none ↦ (failed de_invldhndl, s)
    | some i ↦ sft_seek2 i new_pos mode s
  ]

  idx_to_sft-used :
      (i : ℕ) (t : Sfttbl) (f : Sft)
      → idx_to_sft_ i t ≡ some f
      → 0 < f.sft_count
      → idx_to_sft i t ≡ some f
  unfolding idx_to_sft
  idx_to_sft-used i t f at used =
      let n : (f.sft_count == 0) ≡ false = ground arith in rw (at, n, idx_to_sft) refl

  -- Asking an entry for its position; that of a device is 0.
  position_tell :
      (i : ℕ) (f : Sft) (w : World)
      → (has_bit f.sft_flags 0x0080 ≡ false) ⊎ (f.sft_posit ≡ 0)
      → f.sft_posit < 0x100000000
      → (new_position i 0 1 f w).0 ≡ f.sft_posit
  unfolding new_position
  position_tell i f w plain small = elim (Bool-cases (has_bit f.sft_flags 0x0080)) [
    | inr n ↦ rw (n, new_position) (omega arith)
    | inl y ↦ elim plain [
      | inl n ↦ absurd (ground (arith, y, n))
      | inr z ↦ rw (y, new_position) (sym z)
    ]
  ]

  sft_seek2-tell :
      (i : ℕ) (f : Sft) (s : State services)
      → idx_to_sft i s.sfthead ≡ some f
      → (sft_seek2 i 0 1 s).0 ≡ ok (new_position i 0 1 f s.world).0
  unfolding sft_seek2
  sft_seek2-tell i f s e = rw (e, sft_seek2) refl

  device_position :
      (i new_pos mode : ℕ) (f : Sft) (w : World)
      → (has_bit f.sft_flags 0x0080 ≡ false) ⊎ ((new_position i new_pos mode f w).0 ≡ 0)
  unfolding new_position
  device_position i new_pos mode f w = elim (Bool-cases (has_bit f.sft_flags 0x0080)) [
    | inr n ↦ inl n
    | inl y ↦ inr (rw (y, new_position) refl)
  ]

  -- The state after a seek that succeeds.
  abbrev moved : (i new_pos mode : ℕ) → Sft → State services → State services
  moved i new_pos mode f s = record s {
    sfthead =
        alter_sft i (λ x. record x { sft_posit = (new_position i new_pos mode f s.world).0 })
          s.sfthead;
    world = (new_position i new_pos mode f s.world).1;
  }

  sft_seek2-moved :
      (i new_pos mode : ℕ) (f : Sft) (s : State services)
      → idx_to_sft i s.sfthead ≡ some f
      → ltb 2 mode ≡ false
      → sft_seek2 i new_pos mode s
        ≡ (ok (new_position i new_pos mode f s.world).0, moved i new_pos mode f s)
  unfolding sft_seek2
  sft_seek2-moved i new_pos mode f s e n = rw (e, n, sft_seek2) refl

  moved-tell :
      (i new_pos mode : ℕ) (f : Sft) (s : State services)
      → idx_to_sft i s.sfthead ≡ some f
      → (new_position i new_pos mode f s.world).0 < 0x100000000
      → (sft_seek2 i 0 1 (moved i new_pos mode f s)).0
        ≡ ok (new_position i new_pos mode f s.world).0
  moved-tell i new_pos mode f s e small =
      let q = (new_position i new_pos mode f s.world).0 in
      let change = λ (x : Sft). record x { sft_posit = q } in
      let s1 = moved i new_pos mode f s in
      let (at, used) = idx_to_sft-use i s.sfthead f e in
      let again =
        idx_to_sft-used i s1.sfthead (change f) (idx_to_sft_-alter_sft i change s.sfthead f at)
          used in
      sft_seek2-tell i (change f) s1 again
      ∙ ap ok (position_tell i (change f) s1.world (device_position i new_pos mode f s.world) small)

  sft_seek2-position :
      (i new_pos mode p : ℕ) (s : State services)
      → (sft_seek2 i new_pos mode s).0 ≡ ok p
      → p < 0x100000000
      → (sft_seek2 i 0 1 (sft_seek2 i new_pos mode s).1).0 ≡ ok p
  unfolding sft_seek2
  sft_seek2-position i new_pos mode p s said small = elim (Option-cases (idx_to_sft i s.sfthead)) [
    | inl n ↦ absurd (ground (arith, rw (n, sft_seek2) at said))
    | inr (f, e) ↦ elim (Bool-cases (ltb 2 mode)) [
      | inl y ↦ absurd (ground (arith, rw (e, y, sft_seek2) at said))
      | inr n ↦
          let run = sft_seek2-moved i new_pos mode f s e n in
          let same : (new_position i new_pos mode f s.world).0 ≡ p =
            ground (arith, sym (ap (λ r. r.0) run) ∙ said) in
          subst (λ r. (sft_seek2 i 0 1 r.1).0 ≡ ok p) (sym run)
            (moved-tell i new_pos mode f s e (ground (arith, same, small)) ∙ ap ok same)
    ]
  ]

  sft_seek2-psp :
      (i new_pos mode : ℕ) (s : State services) → (sft_seek2 i new_pos mode s).1.psp ≡ s.psp
  unfolding sft_seek2
  sft_seek2-psp i new_pos mode s = elim (Option-cases (idx_to_sft i s.sfthead)) [
    | inl n ↦ rw (n, sft_seek2) refl
    | inr (f, e) ↦ elim (Bool-cases (ltb 2 mode)) [
      | inl y ↦ rw (e, y, sft_seek2) refl
      | inr n ↦ rw (e, n, sft_seek2) refl
    ]
  ]

  dos_seek-at :
      (hndl i new_pos mode : ℕ) (s : State services)
      → get_sft_idx hndl s.psp ≡ some i
      → dos_seek hndl new_pos mode s ≡ sft_seek2 i new_pos mode s
  unfolding dos_seek
  dos_seek-at hndl i new_pos mode s e = rw (e, dos_seek) refl

  -- A seek that succeeds with a position, whatever the kind of file and of seek, is told again by a seek
  -- of 0 bytes from the current position.
  pub dos_seek-tell :
      (hndl new_pos mode p : ℕ) (s : State services)
      → (dos_seek hndl new_pos mode s).0 ≡ ok p
      → p < 0x100000000
      → (dos_seek hndl 0 1 (dos_seek hndl new_pos mode s).1).0 ≡ ok p
  unfolding dos_seek
  dos_seek-tell hndl new_pos mode p s said small = elim (Option-cases (get_sft_idx hndl s.psp)) [
    | inl n ↦ absurd (ground (arith, rw (n, dos_seek) at said))
    | inr (i, e) ↦
        let run = dos_seek-at hndl i new_pos mode s e in
        let s1 = (sft_seek2 i new_pos mode s).1 in
        let e1 = ap (get_sft_idx hndl) (sft_seek2-psp i new_pos mode s) ∙ e in
        subst (λ r. (dos_seek hndl 0 1 r.1).0 ≡ ok p) (sym run)
          (ap (λ r. r.0) (dos_seek-at hndl i 0 1 s1 e1)
            ∙ sft_seek2-position i new_pos mode p s (sym (ap (λ r. r.0) run) ∙ said) small)
  ]
