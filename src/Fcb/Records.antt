-- ===== src/Fcb/Records.antt =====
-- kernel/fcbfns.c: the number of the current record of a file control block.
use burdah_dos_system.Base.{◌+◌, ◌%◌, ◌<◌, leb, ◌≡◌, inl, inr, Bool-cases, arith}
use burdah_dos_system.Fcb.{Fcb, fcb_next_record, fcb_rec, fcb_set_random, fcb_calc_rec}

-- From the last record of a block to the first of the next one and inside a block, `FcbNextRecord` goes
-- on to the next number; the numbers wrap around after 65536 blocks of 128 records.
pub fcb_rec-fcb_next_record :
    (f : Fcb)
    → f.fcb_curec < 128
    → f.fcb_cublock < 0x10000
    → fcb_rec (fcb_next_record f) ≡ (fcb_rec f + 1) % 0x800000
unfolding fcb_rec fcb_next_record
fcb_rec-fcb_next_record f rec block = elim (Bool-cases (leb 128 ((f.fcb_curec + 1) % 0x100))) [
  | inl y ↦ let last : f.fcb_curec ≡ 127 = ground arith in rw (y, fcb_next_record) (omega arith)
  | inr n ↦ let within : f.fcb_curec < 127 = ground arith in rw (n, fcb_next_record) (omega arith)
]

-- Block and record are found again from the random record number that was made of them.
pub fcb_calc_rec-fcb_set_random :
    (f : Fcb)
    → f.fcb_curec < 128
    → f.fcb_cublock < 0x10000
    → ((fcb_calc_rec (fcb_set_random f)).fcb_cublock ≡ f.fcb_cublock)
      × ((fcb_calc_rec (fcb_set_random f)).fcb_curec ≡ f.fcb_curec)
unfolding fcb_calc_rec fcb_set_random fcb_rec
fcb_calc_rec-fcb_set_random f rec block = (omega arith, omega arith)
