-- ===== src/Files/Geometry.antt =====
-- kernel/fatfs.c: `bpb_to_dpb` and `dpb16to32`, that make the parameters of a drive from the
-- parameter block of its boot sector. `unsigned` has 16 bits.
pub mod Covered
mod Tests
use burdah_dos_system.Base.{
  ℕ, zero, suc, ◌+◌, ◌-◌, ◌*◌, ◌/◌, ◌%◌, ◌^◌, Bool, ltb, leb, ◌==◌, if◌then◌else◌,
}
use burdah_dos_system.Fat.Link.{Dpb, Volume, is_fat32, read_fsinfo, unkncluster, xunknclstfree}

-- The fields of `bpb` that are used.
pub record Bpb : Type 0 where
  pub bpb_nbyte : ℕ
  pub bpb_nsector : ℕ
  pub bpb_nreserved : ℕ
  pub bpb_nfat : ℕ
  pub bpb_ndirent : ℕ
  pub bpb_nsize : ℕ
  pub bpb_mdesc : ℕ
  pub bpb_nfsect : ℕ
  pub bpb_huge : ℕ
  pub bpb_xnfsect : ℕ
  pub bpb_xflags : ℕ
  pub bpb_xrootclst : ℕ
  pub bpb_xfsinfosec : ℕ
  pub bpb_xbackupsec : ℕ

abbrev pub fat_magic : ℕ
fat_magic = 4085

abbrev pub dirent_size : ℕ
dirent_size = 32

abbrev pub unknclstfree : ℕ
unknclstfree = 0xffff

-- The loop that takes the binary logarithm of a byte; 8 rounds are enough.
unfoldable pub shift_loop : ℕ → ℕ → ℕ → ℕ
shift_loop zero nsector shftcnt = shftcnt
shift_loop (suc fuel) nsector shftcnt =
    let rest = shift_loop fuel nsector (shftcnt + 1) in
    if ltb 1 (nsector / 2 ^ shftcnt) then rest else shftcnt

unfoldable pub cluster_shift : ℕ → ℕ
unfolding shift_loop
cluster_shift nsector = if nsector == 0 then 8 else shift_loop 8 nsector 0

-- The number of clusters, and 1, in the sectors behind `first`.
unfoldable pub cluster_count : (size first shftcnt : ℕ) → ℕ
cluster_count size first shftcnt = (size + 0x100000000 - first) % 0x100000000 / 2 ^ shftcnt

abbrev pub shortened : ℕ → ℕ → ℕ
shortened size fatsiz = if leb fatsiz size then (fatsiz + 0xffff) % 0x10000 else size

-- The check that the table has an entry for each cluster; the answer is the new `dpb_size`.
unfoldable pub checked_size : (size fatsize secsize : ℕ) → ℕ
checked_size size fatsize secsize =
    let tmp = fatsize * (secsize / 2) in
    if leb 0x10000 tmp
    then size
    else if ltb fat_magic size
    then if leb tmp fat_magic then size else shortened size tmp
    else if leb 0x4000 tmp
    then size
    else shortened size (tmp * 4 / 3)

unfoldable pub fat_end : Bpb → ℕ
fat_end b = (b.bpb_nreserved + b.bpb_nfat * b.bpb_nfsect) % 0x10000

-- The first sector of the data area.
unfoldable pub data_start : Bpb → ℕ
unfolding fat_end
data_start b =
    let per_sector = b.bpb_nbyte / dirent_size in
    (fat_end b + (b.bpb_ndirent + per_sector + 0xffff) % 0x10000 / per_sector) % 0x10000

unfoldable pub volume_sectors : Bpb → ℕ
volume_sectors b = if b.bpb_nsize == 0 then b.bpb_huge else b.bpb_nsize

-- `dpb_size` before the check.
unfoldable pub raw_size : Bpb → ℕ
unfolding volume_sectors data_start cluster_count cluster_shift
raw_size b =
    (cluster_count (volume_sectors b) (data_start b) (cluster_shift b.bpb_nsector) % 0x10000 + 1)
    % 0x10000

-- `bpb_to_dpb` up to its extended part.
unfoldable pub standard_dpb : Bpb → Dpb → Dpb
unfolding cluster_shift fat_end data_start raw_size checked_size
standard_dpb b d = record d {
  dpb_shftcnt = cluster_shift b.bpb_nsector;
  dpb_mdb = b.bpb_mdesc;
  dpb_secsize = b.bpb_nbyte;
  dpb_clsmask = (b.bpb_nsector + 255) % 0x100;
  dpb_fatstrt = b.bpb_nreserved;
  dpb_fats = b.bpb_nfat;
  dpb_dirents = b.bpb_ndirent;
  dpb_fatsize = b.bpb_nfsect;
  dpb_dirstrt = fat_end b;
  dpb_data = data_start b;
  dpb_size = checked_size (raw_size b) b.bpb_nfsect b.bpb_nbyte;
  dpb_flags = 0;
  dpb_cluster = unkncluster;
  dpb_xnfreeclst = d.dpb_xnfreeclst - d.dpb_xnfreeclst % 0x10000 + unknclstfree;
}

unfoldable pub dpb16to32 : Dpb → Dpb
dpb16to32 d = record d {
  dpb_xflags = 0;
  dpb_xfsinfosec = 0xffff;
  dpb_xbackupsec = 0xffff;
  dpb_xrootclst = 0;
  dpb_xdata = d.dpb_data;
  dpb_xsize = d.dpb_size;
}

-- The part of `bpb_to_dpb` for FAT32.
unfoldable pub fat32_dpb : Bpb → Dpb → Dpb
unfolding cluster_count volume_sectors
fat32_dpb b d =
    let xdata = (d.dpb_fatstrt + d.dpb_fats * d.dpb_xfatsize) % 0x100000000 in
    record d {
      dpb_xflags = b.bpb_xflags;
      dpb_xfsinfosec = b.bpb_xfsinfosec;
      dpb_xbackupsec = b.bpb_xbackupsec;
      dpb_dirents = 0;
      dpb_dirstrt = 0xffff;
      dpb_size = 0;
      dpb_xdata = xdata;
      dpb_xsize = (cluster_count (volume_sectors b) xdata d.dpb_shftcnt + 1) % 0x100000000;
      dpb_xrootclst = b.bpb_xrootclst;
    }

abbrev pub with_dpb : Dpb → Volume → Volume
with_dpb d v = record v { dpb = d }

unfoldable pub bpb_to_dpb : Bpb → Bool → Volume → Volume
unfolding standard_dpb dpb16to32 fat32_dpb is_fat32 read_fsinfo
bpb_to_dpb b extended v =
    let d = standard_dpb b v.dpb in
    let x = dpb16to32 (record d {
      dpb_xfatsize = if b.bpb_nfsect == 0 then b.bpb_xnfsect else b.bpb_nfsect;
      dpb_xcluster = unkncluster;
      dpb_xnfreeclst = xunknclstfree;
    }) in
    if extended
    then if is_fat32 x then read_fsinfo (with_dpb (fat32_dpb b x) v) else with_dpb x v
    else with_dpb d v
