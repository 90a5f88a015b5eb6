-- ===== src/Share/Locks/Counts.antt =====
-- `lock_table_free` counts the unused entries of the lock table.
use burdah_dos_system.Base.{
  ℕ, ◌+◌, ◌≤◌, ◌≡◌, refl, ◌∙◌, ap, sym, inl, inr, Bool, true, false, not, some, List, [], ◌∷◌,
  arith, length, ◌==◌, if◌then◌else◌, Bool-cases, Option-cases, ◌%◌, ◌/◌, ◌||◌, ltb,
}
use burdah_dos_system.Share.{
  LockEntry, Share, Reply, reply, unlock_all, count_locks, close_file, do_open_check, open_check,
  put_file, free_file_table_entry,
}
use burdah_dos_system.Share.Locks.InBounds.{access_check-in_bounds, open_check-in_bounds}
use burdah_dos_system.Share.Locks.{
  unlock_first, lock_first, unlock, lock, lock_unlock, access_check, new_lock, long, inner_handler,
  Registers, cut_length, end_offset,
}

abbrev pub unused_locks : List LockEntry → ℕ
unused_locks [] = 0
unused_locks (l ∷ ls) = (if l.used then 0 else 1) + unused_locks ls

-- No write has gone past the end of the file table, the counter is right, and the table of locks is
-- within the limit of `LOCK_TABLE_MAX` entries.
pub record IsCounted (s : Share) : Type 0 where
  pub counted : s.lock_table_free ≡ unused_locks s.lock_table
  pub limited : length s.lock_table ≤ 3800
  pub no_overrun : s.in_bounds ≡ true

unused-le-length : (ls : List LockEntry) → unused_locks ls ≤ length ls
unused-le-length [] = omega arith
unused-le-length (l ∷ ls) = ground (arith, unused-le-length ls)

unused-unlock_all :
    (fileno : ℕ) (ls : List LockEntry)
    → unused_locks (unlock_all fileno ls) ≡ unused_locks ls + count_locks fileno ls
unfolding unlock_all count_locks
unused-unlock_all fileno [] = refl
unused-unlock_all fileno (l ∷ ls) = ground (arith, unused-unlock_all fileno ls)

length-unlock_all : (fileno : ℕ) (ls : List LockEntry) → length (unlock_all fileno ls) ≡ length ls
unfolding unlock_all
length-unlock_all fileno [] = refl
length-unlock_all fileno (l ∷ ls) = omega (arith, length-unlock_all fileno ls)

pub unlock_first-unused :
    (psp fileno ofs endofs : ℕ) (ls : List LockEntry) {r : List LockEntry}
    → unlock_first psp fileno ofs endofs ls ≡ some r
    → (unused_locks r ≡ unused_locks ls + 1) × (length r ≡ length ls)
unfolding unlock_first
unlock_first-unused psp fileno ofs endofs [] h = cc
unlock_first-unused psp fileno ofs endofs (l ∷ ls) h =
    elim (Option-cases (unlock_first psp fileno ofs endofs ls)) [
      | inl e ↦ ground arith
      | inr (t, e) ↦ ground (arith, unlock_first-unused psp fileno ofs endofs ls e)
    ]

pub lock_first-unused :
    (new : LockEntry) (ls : List LockEntry) {r : List LockEntry}
    → new.used ≡ true
    → lock_first new ls ≡ some r
    → (unused_locks r + 1 ≡ unused_locks ls) × (length r ≡ length ls)
unfolding lock_first
lock_first-unused new [] u h = cc
lock_first-unused new (l ∷ ls) u h = elim (Option-cases (lock_first new ls)) [
  | inl e ↦ ground arith
  | inr (t, e) ↦ ground (arith, lock_first-unused new ls u e)
]

pub close_file-IsCounted :
    (s : Share) (fileno : ℕ)
    → ltb fileno (length s.file_table) ≡ true
    → IsCounted s
    → IsCounted (close_file s fileno)
unfolding close_file free_file_table_entry put_file
close_file-IsCounted s fileno inside c = record {
  no_overrun = rw (inside, c.no_overrun) refl;
  counted = ground (
    arith,
    unused-unlock_all fileno s.lock_table,
    unused-le-length (unlock_all fileno s.lock_table),
    length-unlock_all fileno s.lock_table,
  );
  limited = omega (arith, length-unlock_all fileno s.lock_table, c.limited);
}

unlock-IsCounted :
    (s : Share) (psp fileno ofs endofs : ℕ)
    → IsCounted s
    → IsCounted (unlock s psp fileno ofs endofs).share
unfolding unlock
unlock-IsCounted s psp fileno ofs endofs c =
    elim (Option-cases (unlock_first psp fileno ofs endofs s.lock_table)) [
      | inl e ↦ rw (e, unlock) c
      | inr (t, e) ↦
          rw (e, unlock)
            (ground
              (arith, unlock_first-unused psp fileno ofs endofs s.lock_table e, unused-le-length t))
    ]

-- An operation that leaves the lock table and its counter alone.
abbrev SameLocks : Share → Share → Type 0
SameLocks s t = (t.lock_table ≡ s.lock_table) × (t.lock_table_free ≡ s.lock_table_free)

IsCounted-same : (s t : Share) → SameLocks s t → t.in_bounds ≡ true → IsCounted s → IsCounted t
IsCounted-same s t e b c = record {
  no_overrun = b;
  counted = e.1 ∙ c.counted ∙ ap unused_locks (sym e.0);
  limited = rw e.0 c.limited;
}

access_check-SameLocks :
    (s : Share) (psp fileno ofs len crit : ℕ)
    → SameLocks s (access_check s psp fileno ofs len crit).share
unfolding access_check
access_check-SameLocks s psp fileno ofs len crit = ground arith

do_open_check-SameLocks : (s : Share) (fileno : ℕ) → SameLocks s (do_open_check s fileno).share
unfolding do_open_check
do_open_check-SameLocks s fileno = ground arith

open_check-SameLocks :
    (s : Share) (name : List ℕ) (psp openmode sharemode : ℕ)
    → SameLocks s (open_check s name psp openmode sharemode).share
unfolding open_check
open_check-SameLocks s name psp openmode sharemode = ground arith

access_check-IsCounted :
    (s : Share) (psp fileno ofs len crit : ℕ)
    → ltb fileno (length s.file_table) ≡ true
    → IsCounted s
    → IsCounted (access_check s psp fileno ofs len crit).share
access_check-IsCounted s psp fileno ofs len crit inside c =
    IsCounted-same s _ (access_check-SameLocks s psp fileno ofs len crit)
      (access_check-in_bounds s psp fileno ofs len crit c.no_overrun inside) c

open_check-IsCounted :
    (s : Share) (name : List ℕ) (psp openmode sharemode : ℕ)
    → IsCounted s
    → IsCounted (open_check s name psp openmode sharemode).share
open_check-IsCounted s name psp openmode sharemode c =
    IsCounted-same s _ (open_check-SameLocks s name psp openmode sharemode)
      (open_check-in_bounds s name psp openmode sharemode c.no_overrun) c

lock-IsCounted :
    (s : Share) (psp fileno ofs len : ℕ) → IsCounted s → IsCounted (lock s psp fileno ofs len).share
unfolding lock
lock-IsCounted s psp fileno ofs len c =
    elim (Bool-cases ((access_check s 0 fileno ofs len 0).ax == 0)) [
      | inr h ↦ rw (h, lock) c
      | inl h ↦ elim (Option-cases (lock_first (new_lock psp fileno ofs len) s.lock_table)) [
        | inl e ↦ rw (h, lock) (rw (e, lock) c)
        | inr (t, e) ↦
            rw (h, lock)
              (rw (e, lock)
                (ground (
                  arith,
                  lock_first-unused (new_lock psp fileno ofs len) s.lock_table refl e,
                  unused-le-length s.lock_table,
                )))
      ]
    ]

of_reply :
    (b : Bool) (x y : Reply)
    → IsCounted x.share
    → IsCounted y.share
    → IsCounted (if b then x else y).share
of_reply true x y h k = h
of_reply false x y h k = k

lock_unlock-IsCounted :
    (s : Share) (psp fileno ofs len flag : ℕ)
    → IsCounted s
    → IsCounted (lock_unlock s psp fileno ofs len flag).share
unfolding lock_unlock
lock_unlock-IsCounted s psp fileno ofs len flag c =
    of_reply (cut_length ofs len == 0) (reply 0 s) _ c (
      of_reply (not (flag == 0)) (unlock s psp fileno ofs (end_offset ofs len))
        (lock s psp fileno ofs (cut_length ofs len))
        (unlock-IsCounted s psp fileno ofs (end_offset ofs len) c)
        (lock-IsCounted s psp fileno ofs (cut_length ofs len) c))

-- Whether the file number that the call takes from BX (close) or CX (access, lock and unlock) is an
-- index of the file table.
unfoldable pub names_files : Share → Registers → Bool
names_files s r =
    let al = r.ax % 256 in
    if al == 0xa1
    then ltb r.bx (length s.file_table)
    else if al / 2 == 0x51 || al / 2 == 0x52
    then ltb r.cx (length s.file_table)
    else true

-- When the file number of the call is an index of the file table, a call of the multiplex handler writes
-- nothing past the end of that table, and keeps `lock_table_free` the number of unused entries of the
-- lock table, and the table of locks within its limit.
pub inner_handler-IsCounted :
    (name_at : ℕ → ℕ → List ℕ) (s : Share) (r : Registers)
    → names_files s r ≡ true
    → IsCounted s
    → IsCounted (inner_handler name_at s r).share
unfolding inner_handler names_files
inner_handler-IsCounted name_at s r named c = ground (
  arith,
  open_check-IsCounted s (name_at r.ds r.si) r.bx r.cx r.dx c,
  close_file-IsCounted s r.bx,
  access_check-IsCounted s r.bx r.cx (long r.si r.di) (long r.es r.dx) (r.ax % 256 % 2),
  lock_unlock-IsCounted s r.bx r.cx (long r.si r.di) (long r.es r.dx) (r.ax % 256 % 2) c,
)
