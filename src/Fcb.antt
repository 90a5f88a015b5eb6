-- ===== src/Fcb.antt =====
-- kernel/fcbfns.c: file control blocks, the parsing of a name into one, and its record numbers. A text
-- is the list of its bytes in front of the byte 0; the rest of it stands for the pointer into it.
pub mod Name
pub mod Plain
pub mod Records
mod Tests
use burdah_dos_system.Base.{
  ℕ, zero, suc, ◌+◌, ◌-◌, ◌*◌, ◌/◌, ◌%◌, Bool, true, false, not, ◌&&◌, ◌||◌, List, [], ◌∷◌, ◌++◌,
  replicate, set, ltb, leb, ◌==◌, if◌then◌else◌, bit_and,
}

-- `fcb`: the fields that these routines use.
pub record Fcb : Type 0 where
  pub fcb_drive : ℕ
  pub fcb_fname : List ℕ
  pub fcb_fext : List ℕ
  pub fcb_cublock : ℕ
  pub fcb_recsiz : ℕ
  pub fcb_curec : ℕ
  pub fcb_rndm : ℕ

unfoldable pub one_of : ℕ → List ℕ → Bool
one_of c [] = false
one_of c (d ∷ ds) = c == d || one_of c ds

-- `TestCmnSeps`: one of `:;,=+`, a blank or a tab.
unfoldable pub test_cmn_seps : ℕ → Bool
unfolding one_of
test_cmn_seps c = one_of c (0x3a ∷ 0x3b ∷ 0x2c ∷ 0x3d ∷ 0x2b ∷ 0x20 ∷ 0x09 ∷ [])

-- `TestFieldSeps`: a blank or less, or one of `/\"[]<>|.:;,=+` and the tab.
unfoldable pub test_field_seps : ℕ → Bool
unfolding one_of
test_field_seps c =
    leb c 0x20
    || one_of c (
        0x2f ∷ 0x5c ∷ 0x22 ∷ 0x5b ∷ 0x5d ∷ 0x3c ∷ 0x3e ∷ 0x7c ∷ 0x2e ∷ 0x3a ∷ 0x3b ∷ 0x2c ∷ 0x3d
        ∷ 0x2b ∷ 0x09 ∷ [])

unfoldable pub skip_seps : List ℕ → List ℕ
unfolding test_cmn_seps
skip_seps [] = []
skip_seps (c ∷ cs) = if test_cmn_seps c then skip_seps cs else c ∷ cs

unfoldable pub parse_skip_wh : List ℕ → List ℕ
parse_skip_wh [] = []
parse_skip_wh (c ∷ cs) = if c == 0x20 || c == 0x09 then parse_skip_wh cs else c ∷ cs

-- `FcbNextRecord`
unfoldable pub fcb_next_record : Fcb → Fcb
fcb_next_record f =
    let curec = (f.fcb_curec + 1) % 0x100 in
    if leb 128 curec
    then record f { fcb_curec = 0; fcb_cublock = (f.fcb_cublock + 1) % 0x10000 }
    else record f { fcb_curec = curec }

unfoldable pub fcb_rec : Fcb → ℕ
fcb_rec f = (f.fcb_cublock * 128 + f.fcb_curec) % 0x100000000

unfoldable pub fcb_set_random : Fcb → Fcb
unfolding fcb_rec
fcb_set_random f = record f { fcb_rndm = fcb_rec f }

unfoldable pub fcb_calc_rec : Fcb → Fcb
fcb_calc_rec f = record f {
  fcb_cublock = f.fcb_rndm / 128 % 0x10000;
  fcb_curec = f.fcb_rndm % 0x100 % 128;
}

abbrev pub fname_size : ℕ
fname_size = 8

abbrev pub fext_size : ℕ
fext_size = 3

-- The result of a parse: `fcb`, what is in AL, and the rest of the text.
pub record Parsed : Type 0 where
  pub fcb : Fcb
  pub test_mode : ℕ
  pub rest : List ℕ

-- `*p == c`
unfoldable pub starts_with : ℕ → List ℕ → Bool
starts_with c [] = false
starts_with c (d ∷ ds) = d == c

-- Upper case by the country's table, and whether a drive has a current directory structure.
module _ (dos_up_f_char : ℕ → ℕ) (has_cds : ℕ → Bool) where
  -- `GetNameField`: the rest of the text, the field, and whether it has a wildcard.
  unfoldable pub get_name_field : (n_field_size : ℕ) → List ℕ → List ℕ × List ℕ × Bool
  unfolding test_field_seps
  get_name_field zero cs = (cs, [], false)
  get_name_field (suc n) [] = ([], replicate (suc n) 0x20, false)
  get_name_field (suc n) (c ∷ cs) =
      let (rest, field, wild) = get_name_field n cs in
      if test_field_seps c
      then (c ∷ cs, replicate (suc n) 0x20, false)
      else if c == 0x2a
      then (cs, replicate (suc n) 0x3f, true)
      else (rest, dos_up_f_char c ∷ field, c == 0x3f || wild)

  -- The drive in front of a name: whether it is not there, its number in the FCB, and the rest.
  unfoldable pub parse_drive : (test_mode old : ℕ) → List ℕ → Bool × ℕ × List ℕ
  unfolding test_field_seps starts_with
  parse_drive mode old [] = (false, if bit_and mode 0x02 == 0 then 0 else old, [])
  parse_drive mode old (c ∷ cs) =
      let drive = (dos_up_f_char c + 0x100 - 0x41) % 0x100 in
      let keep = if bit_and mode 0x02 == 0 then 0 else old in
      let behind : List ℕ = elim cs [ [] ↦ [] | d ∷ ds ↦ ds ] in
      if not (test_field_seps c) && starts_with 0x3a cs
      then (not (has_cds drive), (drive + 1) % 0x100, behind)
      else (false, keep, c ∷ cs)

  unfoldable pub blanked : (test_mode : ℕ) → Fcb → Fcb
  blanked mode f = record f {
    fcb_cublock = 0;
    fcb_recsiz = 0;
    fcb_fname = if bit_and mode 0x04 == 0 then replicate 8 0x20 else f.fcb_fname;
    fcb_fext = if bit_and mode 0x08 == 0 then replicate 3 0x20 else f.fcb_fext;
  }

  -- A text that starts with a dot: `.` or `..`.
  unfoldable pub parse_dots : Fcb → List ℕ → Parsed
  unfolding starts_with
  parse_dots f cs =
      let one = record f { fcb_fname = set f.fcb_fname 0 0x2e } in
      if starts_with 0x2e cs
      then record {
        fcb = record one { fcb_fname = set one.fcb_fname 1 0x2e };
        test_mode = 0;
        rest = elim cs [ [] ↦ [] | d ∷ ds ↦ ds ];
      }
      else record { fcb = one; test_mode = 0; rest = cs }

  unfoldable pub extension : (old : List ℕ) → List ℕ → List ℕ × List ℕ × Bool
  unfolding get_name_field
  extension old [] = ([], old, false)
  extension old (c ∷ cs) = if c == 0x2e then get_name_field fext_size cs else (c ∷ cs, old, false)

  unfoldable pub parse_fields : (bad_drive : Bool) → Fcb → List ℕ → Parsed
  parse_fields bad f cs =
      let (rest1, name, wild1) = get_name_field fname_size cs in
      let (rest2, ext, wild2) = extension f.fcb_fext rest1 in
      record {
        fcb = record f { fcb_fname = name; fcb_fext = ext };
        test_mode = if bad then 0xff else if wild1 || wild2 then 1 else 0;
        rest = rest2;
      }

  -- The parse behind the drive.
  unfoldable pub parse_behind : (test_mode : ℕ) → Fcb → Bool × ℕ × List ℕ → Parsed
  unfolding blanked parse_dots parse_fields
  parse_behind mode f (bad, drive, []) =
      parse_fields bad (blanked mode (record f { fcb_drive = drive })) []
  parse_behind mode f (bad, drive, c ∷ cs) =
      let f1 = blanked mode (record f { fcb_drive = drive }) in
      if c == 0x2e then parse_dots f1 cs else parse_fields bad f1 (c ∷ cs)

  unfoldable pub fcb_parse_fname : (test_mode : ℕ) → List ℕ → Fcb → Parsed
  unfolding skip_seps parse_skip_wh parse_drive parse_behind
  fcb_parse_fname mode text f =
      let start = if bit_and mode 0x01 == 0 then text else skip_seps text in
      parse_behind mode f (parse_drive mode f.fcb_drive (parse_skip_wh start))
