-- ===== src/Files/Space.antt =====
-- kernel/fatfs.c, `dos_free`: the number of free clusters.
pub mod Count
use burdah_dos_system.Base.{
  ℕ, zero, suc, ◌+◌, ◌-◌, ◌%◌, Bool, true, false, not, ◌&&◌, ltb, leb, ◌==◌, if◌then◌else◌,
}
use burdah_dos_system.Fat.Link.{
  Volume, is_fat32, is_free_cluster, max_cluster, write_fsinfo, xunknclstfree,
}
use burdah_dos_system.Fat.Link.Frame.{with_free}
use burdah_dos_system.Files.{with_cluster, with_xcluster}

-- The step of the loop that notes the first free cluster.
unfoldable pub note_first : ℕ → ℕ → Volume → Volume
unfolding is_fat32
note_first cnt i v =
    if not (cnt == 0)
    then v
    else if is_fat32 v.dpb
    then with_xcluster i v
    else with_cluster (i % 0x10000) v

-- A round of the loop of `dos_free`, for cluster `i`.
unfoldable pub count_one : ℕ → ℕ × Volume → ℕ × Volume
unfolding is_free_cluster note_first
count_one i (cnt, v) =
    let (is_free, v1) = is_free_cluster v i in
    if is_free then (cnt + 1, note_first cnt i v1) else (cnt, v1)

-- The loop of `dos_free` with `left` clusters to look at, from `i` on.
unfoldable pub count_loop : (left i : ℕ) → ℕ × Volume → ℕ × Volume
unfolding count_one
count_loop zero i s = s
count_loop (suc left) i s = count_loop left (i + 1) (count_one i s)

-- The end of `dos_free`. `dpb_nfreeclst` is the low word of `dpb_xnfreeclst`.
unfoldable pub note_count : ℕ × Volume → ℕ × Volume
unfolding is_fat32 write_fsinfo
note_count (cnt, v) =
    let n = v.dpb.dpb_xnfreeclst in
    (
      cnt,
      if is_fat32 v.dpb
          then write_fsinfo (with_free cnt v)
          else with_free (n - n % 0x10000 + cnt % 0x10000) v,
    )

unfoldable pub dos_free : Volume → ℕ × Volume
unfolding is_fat32 count_loop note_count max_cluster
dos_free v =
    let n = v.dpb.dpb_xnfreeclst in
    if is_fat32 v.dpb && not (n == xunknclstfree)
    then (n, v)
    else if not (is_fat32 v.dpb) && not (n % 0x10000 == 0xffff)
    then (n % 0x10000, v)
    else note_count (count_loop (max_cluster v.dpb - 1) 2 (0, v))
