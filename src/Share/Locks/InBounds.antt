-- ===== src/Share/Locks/InBounds.antt =====
-- share/src/share.c: with the number of an entry of the file table nothing is written past its end.
use burdah_dos_system.Base.{
  ℕ, ◌+◌, ◌≡◌, refl, inl, inr, true, some, List, [], ◌∷◌, arith, length, length-set, ◌<◌, ◌-◌,
  Bool-cases, Option-cases, ◌%◌, ltb,
}
use burdah_dos_system.Share.{
  FileEntry, Share, do_open_check, open_check, put_file, file_at, free_file_table_entry, first_open,
  find_unused, is_unused, valid_openmode, valid_sharemode, word_mod,
}
use burdah_dos_system.Share.Locks.{access_check}

put_file-in_bounds :
    (s : Share) (n : ℕ) (f : FileEntry)
    → s.in_bounds ≡ true
    → ltb n (length s.file_table) ≡ true
    → ((put_file s n f).in_bounds ≡ true) × (ltb n (length (put_file s n f).file_table) ≡ true)
unfolding put_file
put_file-in_bounds s n f b inside = (rw (b, inside) refl, rw (length-set s.file_table n f) inside)

free_file_table_entry-in_bounds :
    (s : Share) (n : ℕ)
    → s.in_bounds ≡ true
    → ltb n (length s.file_table) ≡ true
    → (free_file_table_entry s n).in_bounds ≡ true
unfolding free_file_table_entry put_file
free_file_table_entry-in_bounds s n b inside = rw (b, inside) refl

pub access_check-in_bounds :
    (s : Share) (psp fileno ofs len crit : ℕ)
    → s.in_bounds ≡ true
    → ltb fileno (length s.file_table) ≡ true
    → (access_check s psp fileno ofs len crit).share.in_bounds ≡ true
unfolding access_check
access_check-in_bounds s psp fileno ofs len crit b inside =
    ground (arith, free_file_table_entry-in_bounds s fileno b inside, b)

do_open_check-in_bounds :
    (s : Share) (n : ℕ)
    → s.in_bounds ≡ true
    → ltb n (length s.file_table) ≡ true
    → (do_open_check s n).share.in_bounds ≡ true
unfolding do_open_check
do_open_check-in_bounds s n b inside =
    elim (Option-cases (first_open 0 n (file_at s.file_table n).filename s.file_table)) [
      | inl e ↦
          let f = file_at s.file_table n in
          let f1 = record f { first_sharemode = f.sharemode; first_openmode = f.openmode } in
          rw (e, do_open_check) (put_file-in_bounds s n f1 b inside).0
      | inr (p, e) ↦
          let f = file_at s.file_table n in
          let f2 = record f {
            first_sharemode = p.first_sharemode;
            first_openmode = p.first_openmode;
          } in
          let (b2, inside2) = put_file-in_bounds s n f2 b inside in
          let freed = free_file_table_entry-in_bounds (put_file s n f2) n b2 inside2 in
          rw (e, do_open_check) (ground (arith, b2, freed))
    ]

find_unused-inside : (i n : ℕ) (fs : List FileEntry) → find_unused i fs ≡ some n → n < i + length fs
unfolding find_unused
find_unused-inside i n [] e = absurd cc
find_unused-inside i n (f ∷ fs) e = elim (Bool-cases (is_unused f)) [
  | inl y ↦ ground (arith, y, e)
  | inr no_ ↦ omega (arith, find_unused-inside (i + 1) n fs (ground (arith, no_, e)))
]

pub open_check-in_bounds :
    (s : Share) (name : List ℕ) (psp openmode sharemode : ℕ)
    → s.in_bounds ≡ true
    → (open_check s name psp openmode sharemode).share.in_bounds ≡ true
unfolding open_check
open_check-in_bounds s name psp openmode sharemode b =
    elim (Option-cases (find_unused 0 s.file_table)) [
      | inl e ↦ rw (e, open_check) b
      | inr (n, e) ↦
          let inside : ltb n (length s.file_table) ≡ true =
            ground (arith, find_unused-inside 0 n s.file_table e) in
          let f = record (file_at s.file_table n) {
            filename = name;
            psp = psp;
            openmode = valid_openmode openmode;
            sharemode = valid_sharemode sharemode;
          } in
          let (b1, inside1) = put_file-in_bounds s n f b inside in
          rw (e, open_check)
            (do_open_check-in_bounds
              (record (put_file s n f) {
                file_table_free = (s.file_table_free + word_mod - 1) % word_mod;
              })
              n b1 inside1)
    ]
