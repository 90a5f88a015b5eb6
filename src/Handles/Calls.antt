-- ===== src/Handles/Calls.antt =====
-- kernel/dosfns.c and kernel/task.c: closing, duplicating and inheriting handles. Devices, the
-- redirector, the share program and the file system stand behind `Services`.
use burdah_dos_system.Base.{
  ℕ, zero, suc, ◌+◌, ◌%◌, Bool, true, false, not, ◌||◌, Option, none, some, List, [], ◌∷◌, ltb,
  ◌==◌, if◌then◌else◌, ◌≡◌, ◌⊎◌,
}
use burdah_dos_system.Handles.{
  Result, ok, failed, de_invldhndl, de_toomany, Sft, has_bit, no_share, Sfttbl, idx_to_sft_,
  alter_sft, idx_to_sft, Psp, get_sft, get_free_hndl, store_handle,
}

-- How often an entry of the table is in use; `none` behind the end of the table.
abbrev pub count_at : ℕ → Sfttbl → Option ℕ
count_at i t = elim (idx_to_sft_ i t) [ none ↦ none | some s ↦ some s.sft_count ]

-- The call of the redirector for an open, with the words that REM_EXTOC is given.
pub data RemoteOpen : Type 0 where
  rem_create : (attrib : ℕ) → RemoteOpen
  rem_open : (attrib : ℕ) → RemoteOpen
  rem_extoc : (attrib ext_open_mode ext_open_attrib ext_open_action : ℕ) → RemoteOpen

-- What the calls use of the other parts of the kernel. `char_open` and `char_close` are requests to a
-- device with their success, `remote_close` is REM_CLOSE or REM_FLUSH,
-- `pri_drive` the drive of `PriPathName`. None of these changes how often
-- an entry of the table is in use, but for the redirector, which counts the entry of a remote file.
pub record Services : Type 1 where
  pub World : Type 0
  pub Name : Type 0
  pub truename : Name → World → Result × World
  pub is_device : Name → World → Option ℕ
  pub char_open : (dev : ℕ) → World → Bool × World
  pub char_close : (dev : ℕ) → World → Bool × World
  pub pri_drive : World → ℕ
  pub remote_open : RemoteOpen → (i : ℕ) → Sfttbl → World → Result × Sfttbl × World
  pub remote_close : (commitonly : Bool) (i : ℕ) → Sfttbl → World → Result × Sfttbl × World
  pub remote_lseek : (i new_pos : ℕ) → World → ℕ × World
  pub is_share_installed : World → Bool × World
  pub share_open_check : (psp mode sharemode : ℕ) → World → Result × World
  pub share_close_file : (shroff : ℕ) → World → World
  pub dos_open : (flags attrib i : ℕ) → Sfttbl → World → Result × Sfttbl × World
  pub dos_close : (i : ℕ) → Sfttbl → World → Result × Sfttbl × World
  pub dos_open-counts :
      (flags attrib i : ℕ) (t : Sfttbl) (w : World) (j : ℕ)
      → count_at j (dos_open flags attrib i t w).1 ≡ count_at j t
  pub dos_close-counts :
      (i : ℕ) (t : Sfttbl) (w : World) (j : ℕ) → count_at j (dos_close i t w).1 ≡ count_at j t
  pub remote_open-counts :
      (cmd : RemoteOpen) (i : ℕ) (t : Sfttbl) (w : World) (j : ℕ)
      → (j ≡ i) ⊎ (count_at j (remote_open cmd i t w).1 ≡ count_at j t)
  pub remote_open-entry :
      (cmd : RemoteOpen) (i m : ℕ) (t : Sfttbl) (w : World)
      → count_at i t ≡ some m
      → (n : ℕ) × (count_at i (remote_open cmd i t w).1 ≡ some n)
  pub remote_close-counts :
      (commitonly : Bool) (i : ℕ) (t : Sfttbl) (w : World) (j : ℕ)
      → (count_at j (remote_close commitonly i t w).1 ≡ count_at j t)
        ⊎ ((j ≡ i)
            × (n : ℕ) × (count_at i t ≡ some (suc n))
            × (count_at i (remote_close commitonly i t w).1 ≡ some n))

unfoldable pub raise : Sft → Sft
raise s = record s { sft_count = (s.sft_count + 1) % 0x10000 }

unfoldable pub lower : Sft → Sft
lower s = record s { sft_count = (s.sft_count + 0xffff) % 0x10000 }

-- `sft_shroff >= 0`
unfoldable pub is_shared : Sft → Bool
is_shared s = ltb s.sft_shroff 0x8000

module _ (services : Services) where
  open services use {
    World, char_close, remote_close, is_share_installed, share_close_file, dos_close,
  }

  -- The process in question, the processes that wait for it, parent first, and the table.
  pub record State : Type 0 where
    pub psp : Psp
    pub waiting : List Psp
    pub sfthead : Sfttbl
    pub world : World

  -- The end of a share entry when the last use of a file is closed.
  unfoldable pub unshare : ℕ → State → State
  unfolding is_shared
  unshare i s = elim (idx_to_sft_ i s.sfthead) [
    | none ↦ s
    | some f ↦
        let (installed, w) = is_share_installed s.world in
        if not (f.sft_count == 1)
        then s
        else if not installed
        then record s { world = w }
        else record s {
          sfthead = alter_sft i (λ x. record x { sft_shroff = no_share }) s.sfthead;
          world = if is_shared f then share_close_file f.sft_shroff w else w;
        }
  ]

  unfoldable pub drop_use : ℕ → State → State
  unfolding lower
  drop_use i s = record s { sfthead = alter_sft i lower s.sfthead }

  unfoldable pub close_device : (i : ℕ) (commitonly : Bool) → Sft → State → Result × State
  unfolding drop_use has_bit
  close_device i commitonly f s =
      let (done, w) =
        if has_bit f.sft_dev 0x0800 then char_close f.sft_dev s.world else (true, s.world) in
      let s1 = record s { world = w } in
      if not done
      then (failed de_invldhndl, s1)
      else (ok 0, if commitonly then s1 else drop_use i s1)

  unfoldable pub close_file : (i : ℕ) (commitonly : Bool) → State → Result × State
  unfolding drop_use unshare
  close_file i commitonly s =
      let (r, t, w) = dos_close i s.sfthead s.world in
      let s1 = record s { sfthead = t; world = w } in
      elim r [
        | failed c ↦ (failed c, s1)
        | ok v ↦
            if commitonly || not (v == 0) then (ok v, s1) else (ok 0, drop_use i (unshare i s1))
      ]

  unfoldable pub dos_close_sft : (sft_idx : ℕ) (commitonly : Bool) → State → Result × State
  unfolding has_bit close_device close_file
  dos_close_sft i commitonly s = elim (idx_to_sft i s.sfthead) [
    | none ↦ (failed de_invldhndl, s)
    | some f ↦
        let (r, t, w) = remote_close commitonly i s.sfthead s.world in
        if has_bit f.sft_flags 0x8000
        then (r, record s { sfthead = t; world = w })
        else if has_bit f.sft_flags 0x0080
        then close_device i commitonly f s
        else close_file i commitonly s
  ]

  unfoldable pub dos_close_handle : (hndl : ℕ) → State → Result × State
  unfolding dos_close_sft get_sft store_handle
  dos_close_handle hndl s = elim (get_sft hndl s.psp s.sfthead) [
    | none ↦ (failed de_invldhndl, s)
    | some (i, f) ↦ dos_close_sft i false (record s { psp = store_handle hndl 0xff s.psp })
  ]

  unfoldable pub copy_handle : (old_handle new_handle i : ℕ) → State → State
  unfolding raise store_handle
  copy_handle old new i s = record s {
    psp = store_handle new (s.psp.ps_filetab old) s.psp;
    sfthead = alter_sft i raise s.sfthead;
  }

  -- What `dos_force_dup` does after it has closed the new handle.
  unfoldable pub after_close : (old_handle new_handle i : ℕ) → Result × State → Result × State
  unfolding copy_handle
  after_close old new i (failed c, s) = (failed c, s)
  after_close old new i (ok v, s) = if v == 0 then (ok 0, copy_handle old new i s) else (ok v, s)

  unfoldable pub dos_force_dup : (old_handle new_handle : ℕ) → State → Result × State
  unfolding dos_close_handle copy_handle after_close get_sft
  dos_force_dup old new s = elim (get_sft old s.psp s.sfthead) [
    | none ↦ (failed de_invldhndl, s)
    | some (i, f) ↦
        if s.psp.ps_filetab new == 0xff
        then (ok 0, copy_handle old new i s)
        else after_close old new i (dos_close_handle new s)
  ]

  -- The result of `dos_dup` from that of `dos_force_dup`.
  abbrev pub dup_as : (new_handle : ℕ) → Result × State → Result × State
  dup_as new r = (elim r.0 [ failed c ↦ failed de_invldhndl | ok v ↦ ok new ], r.1)

  unfoldable pub dos_dup : (handle : ℕ) → State → Result × State
  unfolding get_free_hndl dos_force_dup
  dos_dup h s = elim (get_free_hndl s.psp) [
    | none ↦ (failed de_toomany, s)
    | some n ↦ dup_as n (dos_force_dup h n s)
  ]

  unfoldable pub clone_handle : (hndl : ℕ) → State → Result × State
  unfolding get_sft has_bit raise
  clone_handle hndl s = elim (get_sft hndl s.psp s.sfthead) [
    | none ↦ (failed de_invldhndl, s)
    | some (i, f) ↦
        if has_bit f.sft_mode 0x0080
        then (failed de_invldhndl, s)
        else (ok 0, record s { sfthead = alter_sft i raise s.sfthead })
  ]

  -- The loop of `child_psp` over `n` handles from `i` on, which fills the file table of the child.
  unfoldable pub clone_files : (i n : ℕ) → Psp → State → Psp × State
  unfolding clone_handle store_handle
  clone_files i zero child s = (child, s)
  clone_files i (suc n) child s =
      let (r, s1) = clone_handle i s in
      let next : Psp = elim r [
        | ok v ↦ store_handle i (s.psp.ps_filetab i) child
        | failed c ↦ child
      ] in
      clone_files (suc i) n next s1

  -- A process starts a child, which is the current process from then on. `behind` is the memory behind
  -- the 20 handles in the child's prefix.
  unfoldable pub child_psp : (para : ℕ) (behind : ℕ → ℕ) → State → State
  unfolding clone_files
  child_psp para behind s =
      let files = λ (h : ℕ). if ltb h 20 then 0xff else behind h in
      let (child, s1) =
        clone_files 0 20 (record { ps_seg = para; ps_maxfiles = 20; ps_filetab = files }) s in
      record s1 { psp = child; waiting = s1.psp ∷ s1.waiting }

  -- The loop in `return_user` over the handles of a process that ends and does not stay resident. The
  -- calls around it, REM_CLOSEALL of the redirector in front and `FcbCloseAll` behind it, are not
  -- modelled.
  unfoldable pub close_handles : (i n : ℕ) → State → State
  unfolding dos_close_handle
  close_handles i zero s = s
  close_handles i (suc n) s = close_handles (suc i) n (dos_close_handle i s).1

  -- `cu_psp = p->ps_parent`: the parent goes on; a process without one is its own parent. The handles
  -- that the process has not closed are those of no process any more.
  unfoldable pub to_parent : State → State
  to_parent s = elim s.waiting [
    | [] ↦ s
    | parent ∷ rest ↦ record s { psp = parent; waiting = rest }
  ]
