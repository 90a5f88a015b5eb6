-- ===== src/Fcb/Tests.antt =====
-- A block of file names and texts, and the theorems on file control blocks at these.
use burdah_dos_system.Base.{
  ℕ, ◌+◌, ◌-◌, ◌%◌, Bool, true, [], ◌∷◌, ltb, leb, ◌&&◌, if◌then◌else◌, ◌≡◌, refl, replicate, arith,
}
use burdah_dos_system.Fcb.{
  Fcb, one_of, test_field_seps, fcb_parse_fname, fcb_rec, fcb_next_record, fcb_set_random,
  fcb_calc_rec,
}
use burdah_dos_system.Fcb.Plain.{are_plain, filled, ends, fcb_parse_fname-plain}
use burdah_dos_system.Fcb.Records.{fcb_rec-fcb_next_record, fcb_calc_rec-fcb_set_random}

abbrev upper : ℕ → ℕ
upper c = if leb 0x61 c && leb c 0x7a then c - 0x20 else c

abbrev drive_c : ℕ → Bool
drive_c d = ltb d 3

-- The last record of a block.
abbrev block : Fcb
block = record {
  fcb_drive = 3;
  fcb_fname = replicate 8 0x20;
  fcb_fext = replicate 3 0x20;
  fcb_cublock = 5;
  fcb_recsiz = 128;
  fcb_curec = 127;
  fcb_rndm = 0;
}

-- The name AB with the extension C.
ab_plain : are_plain upper drive_c (0x41 ∷ 0x42 ∷ []) ≡ true
unfolding test_field_seps one_of
ab_plain = refl

c_plain : are_plain upper drive_c (0x43 ∷ []) ≡ true
unfolding test_field_seps one_of
c_plain = refl

blank_ends : ends upper drive_c (0x20 ∷ []) ≡ true
unfolding test_field_seps one_of
blank_ends = refl

fcb_parse_fname-plain_example :
    fcb_parse_fname upper drive_c 1 (0x41 ∷ 0x42 ∷ 0x2e ∷ 0x43 ∷ 0x20 ∷ []) block ≡ record {
      fcb = filled upper drive_c 1 (0x41 ∷ 0x42 ∷ []) (0x43 ∷ []) block;
      test_mode = 0;
      rest = 0x20 ∷ [];
    }
fcb_parse_fname-plain_example =
    fcb_parse_fname-plain upper drive_c 1 0x41 (0x42 ∷ []) (0x43 ∷ []) (0x20 ∷ []) block ab_plain
      (omega arith) c_plain (omega arith) blank_ends

fcb_rec-fcb_next_record_example : fcb_rec (fcb_next_record block) ≡ (fcb_rec block + 1) % 0x800000
fcb_rec-fcb_next_record_example = fcb_rec-fcb_next_record block (omega arith) (omega arith)

fcb_calc_rec-fcb_set_random_example :
    ((fcb_calc_rec (fcb_set_random block)).fcb_cublock ≡ 5)
    × ((fcb_calc_rec (fcb_set_random block)).fcb_curec ≡ 127)
fcb_calc_rec-fcb_set_random_example = fcb_calc_rec-fcb_set_random block (omega arith) (omega arith)
