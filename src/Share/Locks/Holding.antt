-- ===== src/Share/Locks/Holding.antt =====
-- A granted lock keeps other processes out of its region.
use burdah_dos_system.Base.{
  ℕ, ◌+◌, ◌<◌, ◌≡◌, ◌≢◌, refl, ◌∙◌, ap, sym, inl, inr, true, some, List, [], ◌∷◌, arith, ◌==◌,
  Bool-cases, Option-cases, ◌%◌,
}
use burdah_dos_system.Share.{
  FileEntry, LockEntry, Share, Reply, fnmatches, file_at, minus, dword_mod,
}
use burdah_dos_system.Share.Locks.{
  region_hit, lock_hit, any_hit, access_check, lock_first, lock, lock_unlock, end_offset,
  cut_length, new_lock,
}

pub fnmatches_refl : (name : List ℕ) → fnmatches name name ≡ true
unfolding fnmatches
fnmatches_refl [] = refl
fnmatches_refl (x ∷ xs) = ground (arith, fnmatches_refl xs)

any_hit-lock_first :
    (files : List FileEntry) (name : List ℕ) (psp ofs endofs : ℕ) (new : LockEntry)
    (ls : List LockEntry) {r : List LockEntry}
    → lock_first new ls ≡ some r
    → lock_hit files name psp ofs endofs new ≡ true
    → any_hit files name psp ofs endofs r ≡ true
unfolding lock_first any_hit
any_hit-lock_first files name psp ofs endofs new [] e h = cc
any_hit-lock_first files name psp ofs endofs new (l ∷ ls) e h =
    elim (Option-cases (lock_first new ls)) [
      | inl z ↦ ground arith
      | inr (t, z) ↦ ground (arith, any_hit-lock_first files name psp ofs endofs new ls z h)
    ]

-- What a successful lock has done.
lock-granted :
    (s : Share) (psp fileno ofs len : ℕ)
    → (lock s psp fileno ofs len).ax ≡ 0
    → (r : List LockEntry) × (lock_first (new_lock psp fileno ofs len) s.lock_table ≡ some r)
      × ((lock s psp fileno ofs len).share.lock_table ≡ r)
      × ((lock s psp fileno ofs len).share.file_table ≡ s.file_table)
unfolding lock
lock-granted s psp fileno ofs len e =
    elim (Bool-cases ((access_check s 0 fileno ofs len 0).ax == 0)) [
      | inr h ↦ absurd (ground arith)
      | inl h ↦ elim (Option-cases (lock_first (new_lock psp fileno ofs len) s.lock_table)) [
        | inl n ↦ absurd (ground arith)
        | inr (t, f) ↦ (t, f, rw (h, lock) (rw (f, lock) refl), rw (h, lock) (rw (f, lock) refl))
      ]
    ]

lock_unlock-lock :
    (s : Share) (psp fileno ofs len : ℕ)
    → 0 < len
    → ofs + len < dword_mod
    → lock_unlock s psp fileno ofs len 0 ≡ lock s psp fileno ofs len
unfolding lock_unlock cut_length
lock_unlock-lock s psp fileno ofs len pos le = ground arith

access_check-hit :
    (s : Share) (psp fileno ofs len : ℕ)
    → 0 < cut_length ofs len
    → any_hit s.file_table
        (file_at s.file_table fileno).filename
        psp
        ofs
        (end_offset ofs len)
        s.lock_table
      ≡ true
    → (access_check s psp fileno ofs len 0).ax ≡ minus 0x21
unfolding access_check cut_length end_offset
access_check-hit s psp fileno ofs len pos h = ground arith

new_lock-hit :
    (files : List FileEntry) (psp fileno ofs len psp' fileno' ofs' endofs' : ℕ)
    → ofs + len < dword_mod
    → psp' ≢ psp
    → fnmatches (file_at files fileno').filename (file_at files fileno).filename ≡ true
    → region_hit ofs' endofs' ofs (ofs + len) ≡ true
    → lock_hit files
        (file_at files fileno').filename
        psp'
        ofs'
        endofs'
        (new_lock psp fileno ofs len)
      ≡ true
unfolding lock_hit
new_lock-hit files psp fileno ofs len psp' fileno' ofs' endofs' le ne same hit =
    let wrap : (ofs + len) % dword_mod ≡ ofs + len = omega arith in ground arith

-- After a lock of the region of `len` bytes at `ofs`, which does not wrap, has been granted to `psp`, `access_check` for
-- another process, through any entry of a file of the same name, answers with a lock violation for
-- every region that is not empty and that its test finds in the locked one.
pub lock_unlock-holds :
    (s : Share) (psp fileno ofs len psp' fileno' ofs' len' : ℕ)
    → 0 < len
    → ofs + len < dword_mod
    → (lock_unlock s psp fileno ofs len 0).ax ≡ 0
    → psp' ≢ psp
    → fnmatches (file_at s.file_table fileno').filename (file_at s.file_table fileno).filename
      ≡ true
    → 0 < cut_length ofs' len'
    → region_hit ofs' (end_offset ofs' len') ofs (ofs + len) ≡ true
    → (access_check (lock_unlock s psp fileno ofs len 0).share psp' fileno' ofs' len' 0).ax
      ≡ minus 0x21
lock_unlock-holds s psp fileno ofs len psp' fileno' ofs' len' pos le ok ne same pos' hit =
    let run = lock_unlock-lock s psp fileno ofs len pos le in
    let (r, f, locks, files) =
      lock-granted s psp fileno ofs len (ap (λ (x : Reply). x.ax) (sym run) ∙ ok) in
    rw run (
      access_check-hit (lock s psp fileno ofs len).share psp' fileno' ofs' len' pos' (
        rw (locks, files)
          (any_hit-lock_first s.file_table (file_at s.file_table fileno').filename psp' ofs'
            (end_offset ofs' len') (new_lock psp fileno ofs len) s.lock_table f
            (new_lock-hit s.file_table psp fileno ofs len psp' fileno' ofs' (end_offset ofs' len')
              le ne same hit))))
