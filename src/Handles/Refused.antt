-- ===== src/Handles/Refused.antt =====
-- kernel/dosfns.c: an open that fails, and a duplicate that is made.
use burdah_dos_system.Base.{
  ℕ, ◌+◌, ◌%◌, not, Option, none, some, List, ◌==◌, ◌≡◌, ◌⊎◌, ◌≢◌, inl, inr, refl, sym, ap, subst,
  ◌∙◌, Bool-cases, Option-cases, bit_and, arith,
}
use burdah_dos_system.Handles.{
  Result, ok, failed, de_invldhndl, de_toomany, Psp, Sft, idx_to_sft_, get_sft, get_free_hndl,
  store_handle,
}
use burdah_dos_system.Handles.Calls.{
  count_at, Services, State, raise, copy_handle, dup_as, dos_force_dup, dos_dup,
}
use burdah_dos_system.Handles.Open.{dos_open_sft, opened_as, dos_open_handle}
use burdah_dos_system.Handles.OpenAt.{Small, dos_open_sft-cases}
use burdah_dos_system.Handles.Table.{count-alter_sft}
use burdah_dos_system.Handles.Refs.{get_free_hndl-free, get_sft-found}
use burdah_dos_system.Handles.FirstFree.{
  AllTaken, FirstFree, NotInUse, get_free_hndl-FirstFree, get_free_hndl-AllTaken, get_sft-NotInUse,
}

module _ (services : Services) where
  open services use {World, Name}

  opened_as-refused :
      (h c : ℕ) (p : Psp) (ps : List Psp) (r : Result × State services)
      → r.1.psp ≡ p
      → r.1.waiting ≡ ps
      → (opened_as services h r).0 ≡ failed c
      → ((opened_as services h r).1.psp ≡ p) × ((opened_as services h r).1.waiting ≡ ps)
  unfolding opened_as
  opened_as-refused h c p ps (failed d, s) a b e = (a, b)
  opened_as-refused h c p ps (ok v, s) a b e = absurd (ground (arith, e))

  -- With at most 255 entries in the system file table, an open that fails, whatever the reason, leaves
  -- the handles of the process and of those that wait for it as they were.
  pub dos_open_handle-refused :
      (fname : Name) (mode attrib c : ℕ) (s : State services)
      → Small services s.sfthead
      → (dos_open_handle services fname mode attrib s).0 ≡ failed c
      → ((dos_open_handle services fname mode attrib s).1.psp ≡ s.psp)
        × ((dos_open_handle services fname mode attrib s).1.waiting ≡ s.waiting)
  unfolding dos_open_handle
  dos_open_handle-refused fname mode attrib c s small fails =
      elim (Bool-cases (not (bit_and mode 0x000c == 0))) [
        | inl y ↦ rw (y, dos_open_handle) (refl, refl)
        | inr n ↦ elim (Option-cases (get_free_hndl s.psp)) [
          | inl o ↦ rw (n, o, dos_open_handle) (refl, refl)
          | inr (h, e) ↦
              let r = dos_open_sft services fname mode attrib s in
              let said = rw (n, e, dos_open_handle) at fails in
              let (p, q) : (r.1.psp ≡ s.psp) × (r.1.waiting ≡ s.waiting) =
                elim (dos_open_sft-cases services 0 fname mode attrib s small) [
                  | inl (d, w, run) ↦ (ap (λ x. x.1.psp) run, ap (λ x. x.1.waiting) run)
                  | inr (j, under, unused, opens) ↦ (opens.same_psp, opens.same_waiting)
                ] in
              rw (n, e, dos_open_handle) (opened_as-refused h c s.psp s.waiting r p q said)
        ]
      ]

  -- What a successful duplicate of handle `old` as handle `new` leaves.
  pub record Twin (s : State services) (old new : ℕ) (s' : State services) : Type 0 where
    pub was_free : s.psp.ps_filetab new ≡ 0xff
    pub entry : ℕ
    pub count : ℕ
    pub of_old : s'.psp.ps_filetab old ≡ entry
    pub of_new : s'.psp.ps_filetab new ≡ entry
    pub counted : count_at entry s.sfthead ≡ some count
    pub raised : count_at entry s'.sfthead ≡ some ((count + 1) % 0x10000)
    pub others : (h : ℕ) → (h ≡ new) ⊎ (s'.psp.ps_filetab h ≡ s.psp.ps_filetab h)

  dos_force_dup-free :
      (old new j : ℕ) (f : Sft) (s : State services)
      → get_sft old s.psp s.sfthead ≡ some (j, f)
      → s.psp.ps_filetab new ≡ 0xff
      → dos_force_dup services old new s ≡ (ok 0, copy_handle services old new j s)
  unfolding dos_force_dup
  dos_force_dup-free old new j f s e free = rw (e, free, dos_force_dup) refl

  copy_handle-Twin :
      (old new j : ℕ) (f : Sft) (s : State services)
      → s.psp.ps_filetab new ≡ 0xff
      → s.psp.ps_filetab old ≡ j
      → j ≢ 0xff
      → idx_to_sft_ j s.sfthead ≡ some f
      → Twin s old new (copy_handle services old new j s)
  unfolding copy_handle store_handle raise
  copy_handle-Twin old new j f s free byte used at = record {
    was_free = free;
    entry = j;
    count = f.sft_count;
    of_old = ground (arith, byte);
    of_new = ground (arith, byte);
    counted = ap (λ o. elim o as (λ x. Option ℕ) [ none ↦ none | some x ↦ some x.sft_count ]) at;
    raised = count-alter_sft j raise s.sfthead f at;
    others =
        λ h. elim (Bool-cases (h == new)) [ inl y ↦ inl (ground arith) | inr n ↦ inr (rw n refl) ];
  }

  dos_force_dup-unused :
      (old new : ℕ) (s : State services)
      → get_sft old s.psp s.sfthead ≡ none
      → dos_force_dup services old new s ≡ (failed de_invldhndl, s)
  unfolding dos_force_dup
  dos_force_dup-unused old new s n = rw (n, dos_force_dup) refl

  dos_dup-free :
      (h new : ℕ) (s : State services)
      → get_free_hndl s.psp ≡ some new
      → dos_dup services h s ≡ dup_as services new (dos_force_dup services h new s)
  unfolding dos_dup
  dos_dup-free h new s e = rw (e, dos_dup) refl

  -- `dos_dup` of a handle. Either a handle below `ps_maxfiles` is free, and the first one that is
  -- becomes a second handle of the same entry, which counts one use more, and nothing else of the file
  -- table changes; or no handle below `ps_maxfiles` is free; or the handle is behind the file table,
  -- free, or of an entry that is not in use. In the last two cases nothing changes at all, and the code
  -- says which one it is.
  pub dos_dup-Twin :
      (h : ℕ) (s : State services)
      → ((new : ℕ) × FirstFree new s.psp
          × ((dos_dup services h s).0 ≡ ok new)
          × Twin s h new (dos_dup services h s).1)
        ⊎ (AllTaken s.psp.ps_maxfiles s.psp.ps_filetab
            × (dos_dup services h s ≡ (failed de_toomany, s)))
        ⊎ (NotInUse h s.psp s.sfthead × (dos_dup services h s ≡ (failed de_invldhndl, s)))
  unfolding dos_dup
  dos_dup-Twin h s = elim (Option-cases (get_free_hndl s.psp)) [
    | inl n ↦ inr (inl (get_free_hndl-AllTaken s.psp n, rw (n, dos_dup) refl))
    | inr (new, e) ↦ elim (Option-cases (get_sft h s.psp s.sfthead)) [
      | inl n ↦ inr (
          inr (
            get_sft-NotInUse h s.psp s.sfthead n,
            dos_dup-free h new s e ∙ ap (dup_as services new) (dos_force_dup-unused h new s n),
          ))
      | inr ((j, f), found) ↦
          let (under, free) = get_free_hndl-free new s.psp e in
          let (inside, inside_byte, used, at, some_use) =
            get_sft-found h j f s.psp s.sfthead found in
          let run =
            dos_dup-free h new s e
            ∙ ap (dup_as services new) (dos_force_dup-free h new j f s found free) in
          inl (
            new,
            get_free_hndl-FirstFree new s.psp e,
            ap (λ r. r.0) run,
            subst (λ r. Twin s h new r.1) (sym run)
                (copy_handle-Twin h new j f s free inside_byte used at),
          )
    ]
  ]
