-- ===== src/Fat/Tests.antt =====
-- A small FAT16 volume, and the theorems on the allocation table at it.
use burdah_dos_system.Base.{
  ◌%◌, ◌<◌, ◌≡◌, refl, some, none, false, true, arith, ◌==◌, if◌then◌else◌,
}
use burdah_dos_system.Fat.Entry.{decode16, unpack12, pack12, read_cluster}
use burdah_dos_system.Fat.Entry.Coding.{rest12, unpack12-pack12}
use burdah_dos_system.Fat.Link.{
  Buffer, Volume, is_fat12, is_fat16, is_fat32, refuses, entry_sector, link_fat,
}
use burdah_dos_system.Fat.Link.Table16.{Is16, link_fat-read_over_write}

-- The two sectors of a table, all of its entries free.
abbrev sector : Buffer
sector = record {
  b_flag = record {
    bfr_dirty = false;
    bfr_valid = true;
    bfr_data = false;
    bfr_dir = false;
    bfr_fat = true;
  };
  b_copies = 2;
  b_offset = 20;
  b_buffer = λ i. 0;
}

abbrev volume : Volume
volume = record {
  dpb = record {
    dpb_secsize = 512;
    dpb_fatstrt = 1;
    dpb_fats = 2;
    dpb_size = 5000;
    dpb_fatsize = 20;
    dpb_xflags = 0;
    dpb_xfsinfosec = 0xffff;
    dpb_xfatsize = 20;
    dpb_xsize = 5000;
    dpb_xnfreeclst = 4999;
    dpb_shftcnt = 2;
    dpb_data = 73;
    dpb_cluster = 0;
    dpb_xdata = 73;
    dpb_xcluster = 0;
    dpb_mdb = 0xf8;
    dpb_clsmask = 0;
    dpb_dirents = 512;
    dpb_dirstrt = 33;
    dpb_flags = 0;
    dpb_xbackupsec = 0xffff;
    dpb_xrootclst = 0;
  };
  getblock = λ s. if s == 1 then some sector else none;
}

volume-Is16 : Is16 volume
unfolding is_fat12 is_fat16 is_fat32
volume-Is16 = record {
  not12 = refl;
  is16 = refl;
  not32 = refl;
  secsize_low = omega arith;
  secsize_high = omega arith;
  fatstrt_high = omega arith;
}

mark_refused : refuses volume.dpb 5 0xffff ≡ true
unfolding refuses
mark_refused = refl

accepted_link : refuses volume.dpb 5 9 ≡ false
unfolding refuses
accepted_link = refl

first_sector : volume.getblock (entry_sector volume.dpb 5) ≡ some sector
unfolding entry_sector
first_sector = refl

counted : (link_fat volume 5 9).1.dpb.dpb_xnfreeclst ≡ 4998
unfolding link_fat
counted = refl

link_fat-read_over_write_example :
    ((link_fat volume 5 9).0 ≡ 0)
    × ((link_fat (link_fat volume 5 9).1 5 read_cluster).0 ≡ decode16 (9 % 0x10000))
    × ((link_fat (link_fat volume 5 9).1 6 read_cluster).0 ≡ (link_fat volume 6 read_cluster).0)
link_fat-read_over_write_example =
    link_fat-read_over_write volume 5 6 9 sector volume-Is16 accepted_link (omega arith)
      first_sector (omega arith)

unpack12-pack12_example :
    (pack12 3 0xabc 0x1234 < 0x10000)
    × (unpack12 3 (pack12 3 0xabc 0x1234) ≡ 0xabc % 0x1000)
    × (rest12 3 (pack12 3 0xabc 0x1234) ≡ rest12 3 0x1234)
unpack12-pack12_example = unpack12-pack12 3 0xabc 0x1234 (omega arith)
