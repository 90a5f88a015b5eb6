-- ===== src/Files.antt =====
-- kernel/fatfs.c: the clusters of files. A file's clusters are the chain that its first cluster and
-- the allocation table lead through. The calls that change the table take the volume and return it;
-- `CLUSTER` has 32 bits. `none` stands for a loop that ran out of the rounds it is given.
pub mod Chain
pub mod Table
pub mod Wipe
pub mod Find
pub mod Map
pub mod Space
pub mod Geometry
mod Tests
use burdah_dos_system.Base.{
  ℕ, zero, suc, ◌+◌, ◌-◌, ◌*◌, ◌/◌, ◌%◌, ◌^◌, Bool, true, false, not, ◌&&◌, ◌||◌, Option, none,
  some, ltb, leb, ◌==◌, if◌then◌else◌,
}
use burdah_dos_system.Fat.Entry.{free, long_last_cluster}
use burdah_dos_system.Fat.Link.{
  Dpb, Volume, is_fat32, max_cluster, link_fat, next_cluster, is_free_cluster, write_fsinfo,
  unkncluster, xunknclstfree,
}

-- The fields of `struct dirent` that name the clusters and the size of a file.
pub record Dirent : Type 0 where
  pub dir_start : ℕ
  pub dir_start_high : ℕ
  pub dir_size : ℕ

-- The fields of `struct f_node` that say where in a file the next operation is; `dm_dircluster` is
-- the one of its `f_dmp`.
pub record Fnode : Type 0 where
  pub f_dir : Dirent
  pub f_offset : ℕ
  pub f_cluster_offset : ℕ
  pub f_cluster : ℕ
  pub f_sft_idx : ℕ
  pub dm_dircluster : ℕ

-- The halves that the source joins with `|` share no bit and are added.
unfoldable pub getdstart : Dpb → Dirent → ℕ
unfolding is_fat32
getdstart d dentry =
    if not (is_fat32 d)
    then dentry.dir_start
    else dentry.dir_start_high * 0x10000 + dentry.dir_start

unfoldable pub setdstart : Dpb → Dirent → ℕ → Dirent
unfolding is_fat32
setdstart d dentry value = record dentry {
  dir_start = value % 0x10000;
  dir_start_high = if is_fat32 d then value / 0x10000 % 0x10000 else dentry.dir_start_high;
}

-- The first sector of a cluster.
unfoldable pub clus2phys : ℕ → Dpb → ℕ
unfolding is_fat32
clus2phys cl_no d =
    let first = if is_fat32 d then d.dpb_xdata else d.dpb_data in
    ((cl_no + 0x100000000 - 2) * 2 ^ d.dpb_shftcnt + first) % 0x100000000

abbrev pub with_cluster : ℕ → Volume → Volume
with_cluster c v = record v { dpb = record (v.dpb) { dpb_cluster = c } }

abbrev pub with_xcluster : ℕ → Volume → Volume
with_xcluster c v = record v { dpb = record (v.dpb) { dpb_xcluster = c } }

-- The step of `wipe_out_clusters` that keeps the start of the free space.
unfoldable pub lower_hint : ℕ → Volume → Volume
unfolding is_fat32
lower_hint st v =
    let d = v.dpb in
    if is_fat32 d
    then if d.dpb_xcluster == unkncluster || ltb st d.dpb_xcluster then with_xcluster st v else v
    else if d.dpb_cluster == unkncluster || ltb (st % 0x10000) d.dpb_cluster
    then with_cluster (st % 0x10000) v
    else v

unfoldable pub wipe_done : Volume → Volume
unfolding is_fat32 write_fsinfo
wipe_done v = if is_fat32 v.dpb then write_fsinfo v else v

-- The loop of `wipe_out_clusters`, with the number of rounds first.
unfoldable pub wipe_loop : ℕ → ℕ → Volume → Option Volume
unfolding next_cluster link_fat lower_hint wipe_done
wipe_loop zero st v = none
wipe_loop (suc fuel) st v =
    let (next, v1) = next_cluster v st in
    let (status, v2) = link_fat v1 st free in
    let rest = wipe_loop fuel next (lower_hint st v2) in
    if st == long_last_cluster
    then some (wipe_done v)
    else if leb next 1
    then some v1
    else if not (status == 0)
    then some v2
    else rest

-- Each round but the last frees a cluster.
unfoldable pub wipe_out_clusters : Volume → ℕ → Option Volume
unfolding wipe_loop max_cluster
wipe_out_clusters v st = wipe_loop (max_cluster v.dpb + 2) st v

unfoldable pub wipe_out : Fnode → Volume → Option Volume
unfolding wipe_out_clusters getdstart
wipe_out fnp v =
    let cluster = getdstart v.dpb fnp.f_dir in
    if not (cluster == free) then wipe_out_clusters v cluster else some v

-- Where `find_fat_free` starts to search.
unfoldable pub search_start : Dpb → ℕ
unfolding is_fat32
search_start d =
    let hint = if is_fat32 d then d.dpb_xcluster else d.dpb_cluster in
    if hint == unkncluster then 2 else hint

-- The cluster behind `idx`, and 2 behind the last.
unfoldable pub next_index : ℕ → ℕ → ℕ
next_index size idx = if ltb size (idx + 1) then 2 else idx + 1

-- The loop of `find_fat_free`: the new start of the free space, the cluster found, and the volume.
unfoldable pub free_search : ℕ → (size cluster idx : ℕ) → Volume → Option (ℕ × ℕ × Volume)
unfolding is_free_cluster next_index
free_search zero size cluster idx v = none
free_search (suc fuel) size cluster idx v =
    let (is_free, v1) = is_free_cluster v idx in
    let rest = free_search fuel size cluster (next_index size idx) v1 in
    if is_free
    then some (idx, idx, v1)
    else if next_index size idx == cluster
    then some (unkncluster, long_last_cluster, v1)
    else rest

-- The end of `find_fat_free`.
unfoldable pub set_hint : ℕ → Volume → Volume
unfolding is_fat32 write_fsinfo
set_hint cluster v =
    if is_fat32 v.dpb
    then write_fsinfo (with_xcluster cluster v)
    else with_cluster (cluster % 0x10000) v

unfoldable pub searched : Option (ℕ × ℕ × Volume) → Option (ℕ × Volume)
unfolding set_hint
searched none = none
searched (some (cluster, idx, v)) = some (idx, set_hint cluster v)

unfoldable pub find_fat_free : Volume → Option (ℕ × Volume)
unfolding search_start free_search searched max_cluster
find_fat_free v =
    let size = max_cluster v.dpb in
    searched (free_search (size + 2) size (search_start v.dpb) (search_start v.dpb) v)
