-- ===== src/Files/Geometry/Tests.antt =====
-- The parameters of a small FAT16 volume.
use burdah_dos_system.Base.{◌+◌, ◌*◌, ◌≤◌, ◌<◌, ◌≡◌, refl, inl, none, true, arith}
use burdah_dos_system.Fat.Link.{Volume, is_fat16, entry_sector}
use burdah_dos_system.Files.Geometry.{Bpb, raw_size, bpb_to_dpb}
use burdah_dos_system.Files.Geometry.Covered.{
  table_bytes, bpb_to_dpb-table_bytes, bpb_to_dpb-entry_sector,
}

abbrev boot : Bpb
boot = record {
  bpb_nbyte = 512;
  bpb_nsector = 4;
  bpb_nreserved = 1;
  bpb_nfat = 2;
  bpb_ndirent = 512;
  bpb_nsize = 20000;
  bpb_mdesc = 0xf8;
  bpb_nfsect = 20;
  bpb_huge = 0;
  bpb_xnfsect = 0;
  bpb_xflags = 0;
  bpb_xrootclst = 0;
  bpb_xfsinfosec = 0xffff;
  bpb_xbackupsec = 0xffff;
}

-- A drive whose parameters are not set yet.
abbrev blank : Volume
blank = record {
  dpb = record {
    dpb_secsize = 0;
    dpb_fatstrt = 0;
    dpb_fats = 0;
    dpb_size = 0;
    dpb_fatsize = 0;
    dpb_xflags = 0;
    dpb_xfsinfosec = 0;
    dpb_xfatsize = 0;
    dpb_xsize = 0;
    dpb_xnfreeclst = 0;
    dpb_shftcnt = 0;
    dpb_data = 0;
    dpb_cluster = 0;
    dpb_xdata = 0;
    dpb_xcluster = 0;
    dpb_mdb = 0;
    dpb_clsmask = 0;
    dpb_dirents = 0;
    dpb_dirstrt = 0;
    dpb_flags = 0;
    dpb_xbackupsec = 0;
    dpb_xrootclst = 0;
  };
  getblock = λ s. none;
}

clusters_counted : raw_size boot ≡ 4982
unfolding raw_size
clusters_counted = refl

size_kept : (bpb_to_dpb boot true blank).dpb.dpb_size ≡ 4982
unfolding bpb_to_dpb
size_kept = refl

-- A table of 18 sectors is too short for these clusters.
size_backed_down : (bpb_to_dpb (record boot { bpb_nfsect = 18 }) true blank).dpb.dpb_size ≡ 4607
unfolding bpb_to_dpb
size_backed_down = refl

boot-is_fat16 : is_fat16 (bpb_to_dpb boot true blank).dpb ≡ true
unfolding bpb_to_dpb is_fat16
boot-is_fat16 = refl

bpb_to_dpb-table_bytes_example :
    table_bytes (bpb_to_dpb boot true blank).dpb.dpb_size
    ≤ (bpb_to_dpb boot true blank).dpb.dpb_fatsize * (bpb_to_dpb boot true blank).dpb.dpb_secsize
bpb_to_dpb-table_bytes_example =
    bpb_to_dpb-table_bytes boot true blank (omega arith) (omega arith) (inl (omega arith))

bpb_to_dpb-entry_sector_example :
    (1 ≤ entry_sector (bpb_to_dpb boot true blank).dpb 4982)
    × (entry_sector (bpb_to_dpb boot true blank).dpb 4982 < 1 + 20)
bpb_to_dpb-entry_sector_example =
    bpb_to_dpb-entry_sector boot true blank 4982 256 refl (omega arith) (omega arith) (omega arith)
      (omega arith) boot-is_fat16 (omega (arith, size_kept))
