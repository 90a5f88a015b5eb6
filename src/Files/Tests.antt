-- ===== src/Files/Tests.antt =====
-- A small FAT16 drive with a file of two clusters, and the theorems on files at it.
use burdah_dos_system.Base.{
  ◌-◌, ◌≤◌, ◌≡◌, ◌≢◌, ◌⊎◌, ℕ, refl, inl, inr, Bool-cases, true, false, none, some, arith, ◌==◌,
  if◌then◌else◌, List, [], ◌∷◌,
}
use burdah_dos_system.Fat.Entry.{Bytes, long_last_cluster}
use burdah_dos_system.Fat.Link.{
  Buffer, Volume, is_fat12, is_fat16, is_fat32, max_cluster, entry_sector, link_fat,
}
use burdah_dos_system.Files.{Fnode, getdstart, setdstart, wipe_out_clusters, find_fat_free}
use burdah_dos_system.Files.Chain.{IsChain}
use burdah_dos_system.Files.Find.{FoundFree, find_fat_free-FoundFree}
use burdah_dos_system.Files.Map.{
  Status, xfr_read, xfr_write, Flush, extend, map_cluster, relcluster, shrink_file,
}
use burdah_dos_system.Files.Map.Extend.{Extended, Full, extend-Extended}
use burdah_dos_system.Files.Map.First.{extend-first}
use burdah_dos_system.Files.Map.Seek.{IsAt, Landed, Moved, map_cluster-Landed}
use burdah_dos_system.Files.Map.Shrink.{Shrunk, shrink_file-Shrunk}
use burdah_dos_system.Files.Map.Longer.{Mapped}
use burdah_dos_system.Files.Map.Write.{map_cluster-Mapped}
use burdah_dos_system.Files.Space.{dos_free}
use burdah_dos_system.Files.Space.Count.{
  IsUnknown, free_entries, dos_free-free_entries, dos_free-again,
}
use burdah_dos_system.Files.Table.{entry}
use burdah_dos_system.Files.Table.Reads16.{Is16Table}
use burdah_dos_system.Files.Table.Sixteen.{Is16Table-IsTable, table16}
use burdah_dos_system.Files.Table.Steps.{IsDrive, Alike}
use burdah_dos_system.Files.Wipe.{
  Cleared, Freed, wipe_out_clusters-Cleared, wipe_out_clusters-Freed,
}

-- The bytes of the first sector: cluster 2 leads to 3, which is the last.
abbrev linked : Bytes
linked i = if i == 4 then 3 else if i == 6 then 0xff else if i == 7 then 0xff else 0

abbrev block : Bytes → Buffer
block bytes = record {
  b_flag = record {
    bfr_dirty = false;
    bfr_valid = true;
    bfr_data = false;
    bfr_dir = false;
    bfr_fat = true;
  };
  b_copies = 2;
  b_offset = 16;
  b_buffer = bytes;
}

abbrev drive : Volume
drive = record {
  dpb = record {
    dpb_secsize = 512;
    dpb_fatstrt = 1;
    dpb_fats = 2;
    dpb_size = 4087;
    dpb_fatsize = 16;
    dpb_xflags = 0;
    dpb_xfsinfosec = 0xffff;
    dpb_xfatsize = 16;
    dpb_xsize = 4087;
    dpb_xnfreeclst = 0xffffffff;
    dpb_shftcnt = 0;
    dpb_data = 65;
    dpb_cluster = 0;
    dpb_xdata = 65;
    dpb_xcluster = 0;
    dpb_mdb = 0xf8;
    dpb_clsmask = 0;
    dpb_dirents = 512;
    dpb_dirstrt = 33;
    dpb_flags = 0;
    dpb_xbackupsec = 0xffff;
    dpb_xrootclst = 0;
  };
  getblock = λ s. if s == 1 then some (block linked) else some (block (λ i. 0));
}

abbrev clusters : List ℕ
clusters = 2 ∷ (3 ∷ [])

-- A file with 600 bytes, at its second cluster.
abbrev file : Fnode
file = record {
  f_dir = record { dir_start = 2; dir_start_high = 0; dir_size = 600 };
  f_offset = 600;
  f_cluster_offset = 1;
  f_cluster = 3;
  f_sft_idx = 5;
  dm_dircluster = 0;
}

abbrev empty_file : Fnode
empty_file = record {
  f_dir = record { dir_start = 0; dir_start_high = 0; dir_size = 0 };
  f_offset = 0;
  f_cluster_offset = 0;
  f_cluster = 0;
  f_sft_idx = 6;
  dm_dircluster = 0;
}

top : max_cluster drive.dpb ≡ 4087
unfolding max_cluster is_fat32
top = refl

drive-Is16Table : Is16Table drive
unfolding is_fat12 is_fat16 is_fat32
drive-Is16Table = record {
  numbers = record {
    not12 = refl;
    is16 = refl;
    not32 = refl;
    secsize_low = omega arith;
    secsize_high = omega arith;
    fatstrt_high = omega arith;
  };
  readable = λ c low high. elim (Bool-cases (entry_sector drive.dpb c == 1)) [
    | inl first ↦ (block linked, rw first refl)
    | inr later ↦ (block (λ i. 0), rw later refl)
  ];
}

drive-IsDrive : IsDrive table16 drive
unfolding is_fat32
drive-IsDrive = record { table = Is16Table-IsTable drive drive-Is16Table; hint_ok = inl refl }

big_enough : 2 ≤ max_cluster drive.dpb
unfolding max_cluster is_fat32
big_enough = omega arith

file-IsChain :
    IsChain (entry drive) (max_cluster drive.dpb) (getdstart drive.dpb file.f_dir) clusters
unfolding link_fat max_cluster is_fat32 getdstart
file-IsChain = record {
  links = (refl, (refl, refl));
  inside = (omega arith, omega arith, (omega arith, omega arith, tt));
  distinct = ((λ q. omega (arith, q), tt), (tt, tt));
}

file-IsAt : IsAt clusters file
file-IsAt = record { before = 2 ∷ []; behind = []; split = refl; place = refl }

file-placed : file.f_sft_idx ≢ 0xff
file-placed = λ q. omega (arith, q)

-- A flush whose writes fail, and that loses what was in the buffers.
abbrev lossy_flush : Flush
lossy_flush v = (false, record v { getblock = λ b. none })

lossy_quiet :
    (u : Volume) → IsDrive table16 u → (lossy_flush u).0 ≡ true → Alike table16 u (lossy_flush u).1
lossy_quiet u d e = absurd cc

wipe_out_clusters-Cleared_example :
    (w : Volume) × (wipe_out_clusters drive 2 ≡ some w) × Cleared table16 drive w
wipe_out_clusters-Cleared_example = wipe_out_clusters-Cleared table16 drive 2 drive-IsDrive

wipe_out_clusters-Freed_example :
    (w : Volume) × (wipe_out_clusters drive 2 ≡ some w) × Freed table16 clusters drive w
unfolding getdstart
wipe_out_clusters-Freed_example =
    wipe_out_clusters-Freed table16 drive 2 clusters drive-IsDrive file-IsChain

find_fat_free-FoundFree_example :
    (idx : ℕ) × (w : Volume) × (find_fat_free drive ≡ some (idx, w)) × FoundFree table16 drive idx w
find_fat_free-FoundFree_example = find_fat_free-FoundFree table16 drive drive-IsDrive big_enough

extend-Extended_example :
    (n : ℕ) × (w : Volume) × (extend file drive ≡ some (n, file, w))
    × (Extended table16 drive clusters 2 n w ⊎ ((n ≡ long_last_cluster) × Full table16 drive w))
unfolding getdstart
extend-Extended_example =
    extend-Extended table16 drive file 2 clusters drive-IsDrive big_enough file-IsChain refl

extend-first_example :
    (n : ℕ) × (f : Fnode) × (w : Volume) × (extend empty_file drive ≡ some (n, f, w))
    × (((f ≡ record empty_file { f_dir = setdstart w.dpb empty_file.f_dir n })
          × (getdstart w.dpb f.f_dir ≡ n)
          × Extended table16 drive [] n n w)
        ⊎ ((n ≡ long_last_cluster) × (f ≡ empty_file) × Full table16 drive w))
extend-first_example = extend-first table16 drive empty_file drive-IsDrive big_enough refl

map_cluster-Landed_example :
    (s : Status) × (f : Fnode) × (w : Volume) × (map_cluster xfr_read file drive ≡ some (s, f, w))
    × Landed clusters (relcluster drive.dpb 600) (relcluster drive.dpb 600) s f
    × Moved file f
    × Alike table16 drive w
map_cluster-Landed_example =
    map_cluster-Landed table16 drive file 2 (3 ∷ []) drive-IsDrive file-placed file-IsChain
      file-IsAt

map_cluster-Mapped_example :
    Mapped table16 drive
      (getdstart drive.dpb file.f_dir)
      clusters
      (relcluster drive.dpb 600)
      file
      (map_cluster xfr_write file drive)
map_cluster-Mapped_example =
    map_cluster-Mapped table16 drive file 2 (3 ∷ []) drive-IsDrive big_enough file-placed
      file-IsChain file-IsAt

shrink_file-Shrunk_example :
    (s : Status) × (f : Fnode) × (w : Volume) × (shrink_file lossy_flush file drive
      ≡ some (s, f, w))
    × (f.f_offset ≡ 600)
    × Shrunk table16 lossy_flush lossy_quiet drive
        (getdstart drive.dpb file.f_dir)
        clusters
        (relcluster drive.dpb (600 - 1))
        s
        f
        w
shrink_file-Shrunk_example =
    shrink_file-Shrunk table16 lossy_flush lossy_quiet drive file 2 (3 ∷ []) drive-IsDrive
      file-placed file-IsChain file-IsAt (λ q. omega (arith, q)) (λ q. omega (arith, q))

drive-IsUnknown : IsUnknown drive
unfolding is_fat32
drive-IsUnknown = inr (refl, refl)

dos_free-free_entries_example :
    ((dos_free drive).0 ≡ free_entries (entry drive) (max_cluster drive.dpb - 1) 2)
    × Alike table16 drive (dos_free drive).1
dos_free-free_entries_example =
    dos_free-free_entries table16 drive drive-IsDrive (omega (arith, big_enough)) drive-IsUnknown

dos_free-again_example : dos_free (dos_free drive).1 ≡ dos_free drive
dos_free-again_example =
    dos_free-again table16 drive drive-IsDrive (omega (arith, big_enough)) drive-IsUnknown
