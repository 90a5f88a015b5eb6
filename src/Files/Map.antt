-- ===== src/Files/Map.antt =====
-- kernel/fatfs.c: `extend`, `map_cluster` and `shrink_file`, that find, add and cut off clusters of a
-- file. `flush_buffers` is the buffer cache's, and here an argument.
pub mod Cases
pub mod Extend
pub mod First
pub mod Seek
pub mod Cut
pub mod Shrink
pub mod Longer
pub mod Write
use burdah_dos_system.Base.{
  ℕ, zero, suc, ◌+◌, ◌-◌, ◌/◌, ◌^◌, Bool, true, false, not, ◌&&◌, Option, none, some, ltb, leb,
  ◌==◌, if◌then◌else◌,
}
use burdah_dos_system.Fat.Entry.{free, long_last_cluster}
use burdah_dos_system.Fat.Link.{Dpb, Volume, link_fat, next_cluster}
use burdah_dos_system.Files.{Fnode, getdstart, setdstart, find_fat_free, wipe_out_clusters}

-- `XFR_READ` and `XFR_WRITE`.
pub data Mode : Type 0 where
  xfr_read xfr_write : Mode

-- `SUCCESS` and the codes `DE_...` of hdr/error.h.
pub data Status : Type 0 where
  success de_access de_seek de_hndldskfull : Status

-- The answer of `extend`, a cluster or the mark of the end, with the file and the volume.
abbrev pub Extension : Type 0
Extension = Option (ℕ × Fnode × Volume)

-- What `map_cluster` and `shrink_file` return, with the file and the volume.
abbrev pub Answer : Type 0
Answer = Option (Status × Fnode × Volume)

-- The end of `extend` for a file that has clusters.
unfoldable pub hang_on : ℕ → Fnode → Volume → Extension
unfolding next_cluster link_fat
hang_on free_fat fnp v =
    let (next, v1) = next_cluster v fnp.f_cluster in
    let (status, v2) = link_fat v1 fnp.f_cluster free_fat in
    if not (next == long_last_cluster)
    then some (long_last_cluster, fnp, v1)
    else if not (status == 0)
    then some (long_last_cluster, fnp, v2)
    else some (free_fat, fnp, v2)

-- `extend` from the cluster found on. The message for a damaged chain is left out.
unfoldable pub extend_by : Fnode → Option (ℕ × Volume) → Extension
unfolding link_fat setdstart hang_on
extend_by fnp none = none
extend_by fnp (some (free_fat, v)) =
    let (status, v1) = link_fat v free_fat long_last_cluster in
    if free_fat == long_last_cluster
    then some (free_fat, fnp, v)
    else if not (status == 0)
    then some (long_last_cluster, fnp, v1)
    else if fnp.f_cluster == free
    then some (free_fat, record fnp { f_dir = setdstart v1.dpb fnp.f_dir free_fat }, v1)
    else hang_on free_fat fnp v1

unfoldable pub extend : Fnode → Volume → Extension
unfolding extend_by find_fat_free
extend fnp v = extend_by fnp (find_fat_free v)

-- Goes on to a cluster behind the one the file is at.
abbrev pub advance : ℕ → Fnode → Fnode
advance cluster fnp = record fnp {
  f_cluster = cluster;
  f_cluster_offset = fnp.f_cluster_offset + 1;
}

abbrev pub at_cluster : ℕ → Fnode → Fnode
at_cluster cluster fnp = record fnp { f_cluster = cluster }

-- What `map_cluster` makes of the answer of `extend`.
unfoldable pub grown : (ℕ → Fnode → Fnode) → Extension → Answer
grown go none = none
grown go (some (cluster, fnp, v)) =
    if cluster == long_last_cluster
    then some (de_hndldskfull, fnp, v)
    else some (success, go cluster fnp, v)

-- The start of `map_cluster`, for a file without clusters.
unfoldable pub map_start : Mode → Fnode → Volume → Answer
unfolding grown extend
map_start xfr_read fnp v =
    if fnp.f_cluster == free then some (de_seek, fnp, v) else some (success, fnp, v)
map_start xfr_write fnp v =
    if fnp.f_cluster == free then grown at_cluster (extend fnp v) else some (success, fnp, v)

-- A round of the loop of `map_cluster` at the end of the chain.
unfoldable pub map_end : Mode → Fnode → Volume → Answer
unfolding grown extend
map_end xfr_read fnp v = some (de_seek, fnp, v)
map_end xfr_write fnp v = grown advance (extend fnp v)

-- A round of the loop of `map_cluster`; the loop goes on after `success`.
unfoldable pub map_round : Mode → Fnode → Volume → Answer
unfolding next_cluster map_end
map_round mode fnp v =
    let (cluster, v1) = next_cluster v fnp.f_cluster in
    if leb cluster 1
    then some (de_seek, fnp, v1)
    else if cluster == long_last_cluster
    then map_end mode fnp v1
    else some (success, advance cluster fnp, v1)

-- Goes on after `success`.
unfoldable pub and_then : (Fnode → Volume → Answer) → Answer → Answer
and_then next none = none
and_then next (some (success, fnp, v)) = next fnp v
and_then next (some (de_access, fnp, v)) = some (de_access, fnp, v)
and_then next (some (de_seek, fnp, v)) = some (de_seek, fnp, v)
and_then next (some (de_hndldskfull, fnp, v)) = some (de_hndldskfull, fnp, v)

-- The loop of `map_cluster`; the number is `relcluster` less `f_cluster_offset`.
unfoldable pub map_loop : Mode → ℕ → Fnode → Volume → Answer
unfolding map_round and_then
map_loop mode zero fnp v = some (success, fnp, v)
map_loop mode (suc left) fnp v = and_then (map_loop mode left) (map_round mode fnp v)

unfoldable pub relcluster : Dpb → ℕ → ℕ
relcluster d offset = offset / d.dpb_secsize / 2 ^ d.dpb_shftcnt

-- Back to the first cluster.
unfoldable pub rewind : Dpb → Fnode → Fnode
unfolding getdstart
rewind d fnp = record fnp {
  f_cluster = if fnp.f_sft_idx == 0xff then fnp.dm_dircluster else getdstart d fnp.f_dir;
  f_cluster_offset = 0;
}

unfoldable pub map_from : Mode → Fnode → Volume → Answer
unfolding relcluster rewind map_loop
map_from mode fnp v =
    let rel = relcluster v.dpb fnp.f_offset in
    if ltb rel fnp.f_cluster_offset
    then map_loop mode rel (rewind v.dpb fnp) v
    else map_loop mode (rel - fnp.f_cluster_offset) fnp v

unfoldable pub map_cluster : Mode → Fnode → Volume → Answer
unfolding map_start and_then map_from
map_cluster mode fnp v = and_then (map_from mode) (map_start mode fnp v)

-- `flush_buffers` of the drive: whether every write succeeded, and the drive with its buffers after.
abbrev pub Flush : Type 0
Flush = Volume → Bool × Volume

unfoldable pub flushed : Flush → Fnode → Option Volume → Answer
flushed flush_buffers fnp none = none
flushed flush_buffers fnp (some v) =
    let (ok, v1) = flush_buffers v in some (if ok then success else de_access, fnp, v1)

-- The end of `shrink_file`: the file ends at `st` with the mark `last`, and `next` and what follows
-- is freed.
unfoldable pub cut_off : Flush → (st last next : ℕ) → Fnode → Volume → Answer
unfolding link_fat flushed wipe_out_clusters
cut_off flush_buffers st last next fnp v =
    let (status, v1) = link_fat v st last in
    if not (status == 0)
    then some (de_access, fnp, v1)
    else flushed flush_buffers fnp (wipe_out_clusters v1 next)

unfoldable pub shrink_at : Flush → Fnode → Volume → Answer
unfolding next_cluster setdstart cut_off
shrink_at flush_buffers fnp v =
    let st = fnp.f_cluster in
    let (next, v1) = next_cluster v st in
    let empty = record fnp { f_cluster = free; f_dir = setdstart v1.dpb fnp.f_dir free } in
    if leb next 1
    then some (de_access, fnp, v1)
    else if fnp.f_dir.dir_size == 0
    then cut_off flush_buffers st free next empty v1
    else if next == long_last_cluster
    then some (success, fnp, v1)
    else cut_off flush_buffers st long_last_cluster next fnp v1

-- A failed `map_cluster` is the error `DE_ACCESS` here, and the offset is restored.
unfoldable pub restored : ℕ → Answer → Answer
restored offset none = none
restored offset (some (success, fnp, v)) = some (success, record fnp { f_offset = offset }, v)
restored offset (some (other, fnp, v)) = some (de_access, record fnp { f_offset = offset }, v)

unfoldable pub shrink_file : Flush → Fnode → Volume → Answer
unfolding restored and_then shrink_at map_cluster
shrink_file flush_buffers fnp v =
    let rest = λ (f : Fnode).
      restored fnp.f_offset (and_then (shrink_at flush_buffers) (map_cluster xfr_read f v)) in
    if not (fnp.f_offset == 0)
    then rest (record fnp { f_offset = fnp.f_offset - 1 })
    else if fnp.f_cluster == free
    then some (success, fnp, v)
    else rest fnp
