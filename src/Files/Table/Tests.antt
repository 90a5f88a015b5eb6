-- ===== src/Files/Table/Tests.antt =====
-- A small FAT32 drive, whose table is one that the theorems on files are about.
use burdah_dos_system.Base.{◌≡◌, ◌≢◌, ◌≤◌, ℕ, refl, inr, some, true, false, arith}
use burdah_dos_system.Fat.Link.{
  Buffer, Volume, is_fat12, is_fat16, is_fat32, max_cluster, no_mirroring, entry_sector,
}
use burdah_dos_system.Files.{wipe_out_clusters}
use burdah_dos_system.Files.Wipe.{Cleared, wipe_out_clusters-Cleared}
use burdah_dos_system.Files.Table.Over32.{entry_sector32}
use burdah_dos_system.Files.Table.Reads32.{Is32, Is32Table}
use burdah_dos_system.Files.Table.Steps.{IsDrive}
use burdah_dos_system.Files.Table.ThirtyTwo.{table32, Is32Table-IsTable}

abbrev zeros : Buffer
zeros = record {
  b_flag = record {
    bfr_dirty = false;
    bfr_valid = true;
    bfr_data = false;
    bfr_dir = false;
    bfr_fat = true;
  };
  b_copies = 2;
  b_offset = 0;
  b_buffer = λ i. 0;
}

abbrev drive32 : Volume
drive32 = record {
  dpb = record {
    dpb_secsize = 512;
    dpb_fatstrt = 32;
    dpb_fats = 2;
    dpb_size = 0;
    dpb_fatsize = 0;
    dpb_xflags = 0;
    dpb_xfsinfosec = 1;
    dpb_xfatsize = 600;
    dpb_xsize = 70000;
    dpb_xnfreeclst = 69999;
    dpb_shftcnt = 0;
    dpb_data = 0;
    dpb_cluster = 0;
    dpb_xdata = 1232;
    dpb_xcluster = 2;
    dpb_mdb = 0xf8;
    dpb_clsmask = 0;
    dpb_dirents = 0;
    dpb_dirstrt = 0xffff;
    dpb_flags = 0;
    dpb_xbackupsec = 6;
    dpb_xrootclst = 2;
  };
  getblock = λ s. some zeros;
}

drive32-Is32 : Is32 drive32
unfolding is_fat12 is_fat16 is_fat32 no_mirroring
drive32-Is32 = record {
  not12 = refl;
  not16 = refl;
  is32 = refl;
  secsize_low = omega arith;
  secsize_high = omega arith;
  top_low = omega arith;
  sectors_high = omega arith;
}

top : max_cluster drive32.dpb ≡ 70000
unfolding max_cluster is_fat32
top = refl

behind_counts : (c : ℕ) → c ≤ 70000 → entry_sector drive32.dpb c ≢ 1
unfolding no_mirroring
behind_counts c low = λ h. omega (arith, h, entry_sector32 drive32 c drive32-Is32 low)

drive32-Is32Table : Is32Table drive32
drive32-Is32Table = record {
  numbers = drive32-Is32;
  readable = λ c low high. (zeros, refl);
  apart = λ c low high. behind_counts c (omega (arith, high, top));
}

drive32-IsDrive : IsDrive table32 drive32
unfolding is_fat32 max_cluster
drive32-IsDrive = record {
  table = Is32Table-IsTable drive32 drive32-Is32Table;
  hint_ok = inr (omega arith, omega arith);
}

wiped : (w : Volume) × (wipe_out_clusters drive32 2 ≡ some w) × Cleared table32 drive32 w
wiped = wipe_out_clusters-Cleared table32 drive32 2 drive32-IsDrive
