-- ===== src/Fat/Link.antt =====
-- kernel/fattab.c: `link_fat`, `next_cluster` and what they use.
pub mod Frame
pub mod Table16
use burdah_dos_system.Base.{
  ℕ, zero, suc, ◌+◌, ◌-◌, ◌*◌, ◌/◌, ◌%◌, Bool, true, false, not, ◌&&◌, ◌||◌, Option, none, some,
  ltb, leb, ◌==◌, if◌then◌else◌, bit_and, bit_or,
}
use burdah_dos_system.Fat.Entry.{
  free, read_cluster, long_last_cluster, long_bad, Bytes, put_byte, fgetword, fputword, fgetlong,
  fputlong, unpack12, pack12, decode12, decode16, decode32,
}

-- The fields of `struct dpb` that the routines on the table and on files use.
pub record Dpb : Type 0 where
  pub dpb_secsize : ℕ
  pub dpb_fatstrt : ℕ
  pub dpb_fats : ℕ
  pub dpb_size : ℕ
  pub dpb_fatsize : ℕ
  pub dpb_xflags : ℕ
  pub dpb_xfsinfosec : ℕ
  pub dpb_xfatsize : ℕ
  pub dpb_xsize : ℕ
  pub dpb_xnfreeclst : ℕ
  pub dpb_shftcnt : ℕ
  pub dpb_data : ℕ
  pub dpb_cluster : ℕ
  pub dpb_xdata : ℕ
  pub dpb_xcluster : ℕ
  pub dpb_mdb : ℕ
  pub dpb_clsmask : ℕ
  pub dpb_dirents : ℕ
  pub dpb_dirstrt : ℕ
  pub dpb_flags : ℕ
  pub dpb_xbackupsec : ℕ
  pub dpb_xrootclst : ℕ

-- The bits of `b_flag` that the table's routines use.
pub record Flags : Type 0 where
  pub bfr_dirty : Bool
  pub bfr_valid : Bool
  pub bfr_data : Bool
  pub bfr_dir : Bool
  pub bfr_fat : Bool

-- `struct buffer`; `b_dpbp` is always the volume's own.
pub record Buffer : Type 0 where
  pub b_flag : Flags
  pub b_copies : ℕ
  pub b_offset : ℕ
  pub b_buffer : Bytes

-- A drive: its parameters, and the buffer of each sector that can be read.
pub record Volume : Type 0 where
  pub dpb : Dpb
  pub getblock : ℕ → Option Buffer

unfoldable pub is_fat32 : Dpb → Bool
is_fat32 d = d.dpb_fatsize == 0

unfoldable pub is_fat16 : Dpb → Bool
is_fat16 d = ltb 4085 d.dpb_size && leb d.dpb_size 65525

-- A `dpb_size` of 0 minus 1 is 0xffff.
unfoldable pub is_fat12 : Dpb → Bool
is_fat12 d = ltb ((d.dpb_size + 0xffff) % 0x10000) 4085

unfoldable pub no_mirroring : Dpb → Bool
no_mirroring d = not (bit_and d.dpb_xflags 0x80 == 0)

unfoldable pub put_block : Volume → ℕ → Buffer → Volume
put_block v sec b = record v { getblock = λ s. if s == sec then some b else v.getblock s }

unfoldable pub fat_block : Dpb → Buffer → Buffer
unfolding is_fat32 no_mirroring
fat_block d b = record b {
  b_flag = record (b.b_flag) {
    bfr_data = false;
    bfr_dir = false;
    bfr_fat = true;
    bfr_valid = true;
  };
  b_copies = if is_fat32 d && no_mirroring d then 1 else d.dpb_fats;
  b_offset = d.dpb_fatsize;
}

-- `getFATblock`; the message for a sector that cannot be read is not modelled.
unfoldable pub get_fat_block : Volume → ℕ → Option (Buffer × Volume)
unfolding fat_block put_block
get_fat_block v clussec = elim (v.getblock clussec) [
  | none ↦ none
  | some b ↦ some (fat_block v.dpb b, put_block v clussec (fat_block v.dpb b))
]

unfoldable pub fsinfo_flags : Flags → Flags
fsinfo_flags f = record f { bfr_data = false; bfr_dir = false; bfr_fat = false; bfr_valid = true }

-- The places of `fi_nfreeclst` and `fi_cluster` in the sector.
abbrev pub fi_nfreeclst : ℕ
fi_nfreeclst = 0x1e8

abbrev pub fi_cluster : ℕ
fi_cluster = 0x1ec

abbrev pub unkncluster : ℕ
unkncluster = 0

abbrev pub xunknclstfree : ℕ
xunknclstfree = 0xffffffff

-- The routine goes on with the null buffer of a sector that cannot be read; here the volume is left
-- as it is.
unfoldable pub read_fsinfo : Volume → Volume
unfolding put_block fsinfo_flags fgetlong
read_fsinfo v =
    if v.dpb.dpb_xfsinfosec == 0xffff then v else elim (v.getblock v.dpb.dpb_xfsinfosec) [
      | none ↦ v
      | some b ↦
          let free_count = fgetlong b.b_buffer fi_nfreeclst in
          let cluster = fgetlong b.b_buffer fi_cluster in
          let d = v.dpb in
          let v1 =
            put_block v d.dpb_xfsinfosec
              (record b { b_flag = record (fsinfo_flags b.b_flag) { bfr_dirty = false } }) in
          record v1 {
            dpb = record d {
              dpb_xnfreeclst = if leb d.dpb_xsize free_count then xunknclstfree else free_count;
              dpb_xcluster =
                  if ltb cluster 2 || ltb d.dpb_xsize cluster then unkncluster else cluster;
            };
          }
    ]

-- The sector of the counts with the drive's own numbers.
unfoldable pub fsinfo_block : Dpb → Buffer → Buffer
unfolding fsinfo_flags fgetlong fputlong
fsinfo_block d b =
    let news =
      not (fgetlong b.b_buffer fi_nfreeclst == d.dpb_xnfreeclst)
      || not (fgetlong b.b_buffer fi_cluster == d.dpb_xcluster) in
    let f = fsinfo_flags b.b_flag in
    record b {
      b_flag = record f { bfr_dirty = f.bfr_dirty || news };
      b_buffer =
          fputlong (fputlong b.b_buffer fi_nfreeclst d.dpb_xnfreeclst) fi_cluster d.dpb_xcluster;
    }

-- As `read_fsinfo` for a sector that cannot be read.
unfoldable pub write_fsinfo : Volume → Volume
unfolding put_block fsinfo_block
write_fsinfo v =
    if v.dpb.dpb_xfsinfosec == 0xffff then v else elim (v.getblock v.dpb.dpb_xfsinfosec) [
      | none ↦ v
      | some b ↦ put_block v v.dpb.dpb_xfsinfosec (fsinfo_block v.dpb b)
    ]

unfoldable pub max_cluster : Dpb → ℕ
unfolding is_fat32
max_cluster d = if is_fat32 d then d.dpb_xsize else d.dpb_size

-- The two early checks of `link_fat`.
unfoldable pub refuses : Dpb → ℕ → ℕ → Bool
unfolding max_cluster
refuses d cluster1 cluster2 =
    (leb cluster1 1 || ltb (max_cluster d) cluster1)
    || (ltb cluster2 long_bad && ltb (max_cluster d) cluster2)

-- `secdiv`: entries in a sector, nibbles for FAT12.
unfoldable pub sector_entries : Dpb → ℕ
unfolding is_fat12 is_fat32
sector_entries d =
    if is_fat12 d
    then d.dpb_secsize * 2 % 0x10000
    else if is_fat32 d
    then d.dpb_secsize / 2 / 2
    else d.dpb_secsize / 2

-- The entry's place in the table, in the unit of `sector_entries`.
unfoldable pub entry_place : Dpb → ℕ → ℕ
unfolding is_fat12
entry_place d cluster1 = if is_fat12 d then cluster1 % 0x10000 * 3 % 0x10000 else cluster1

unfoldable pub entry_index : Dpb → ℕ → ℕ
unfolding entry_place sector_entries
entry_index d cluster1 = entry_place d cluster1 % sector_entries d % 0x10000

unfoldable pub entry_sector : Dpb → ℕ → ℕ
unfolding entry_place sector_entries is_fat32 no_mirroring
entry_sector d cluster1 =
    let sec = entry_place d cluster1 / sector_entries d + d.dpb_fatstrt in
    (if is_fat32 d && no_mirroring d then sec + bit_and d.dpb_xflags 0xf * d.dpb_xfatsize else sec)
    % 0x100000000

unfoldable pub mark_dirty : Buffer → Buffer
mark_dirty b = record b { b_flag = record (b.b_flag) { bfr_dirty = true; bfr_valid = true } }

-- The buffer, marked, with the bytes that `f` makes of its own.
unfoldable pub rewrite : (Bytes → Bytes) → Buffer → Buffer
unfolding mark_dirty
rewrite f b = mark_dirty (record b { b_buffer = f b.b_buffer })

-- The step of `link_fat` that counts the free clusters. `dpb_nfreeclst` is the low word of
-- `dpb_xnfreeclst`.
unfoldable pub update_free : (cluster2 : ℕ) (wasfree : Bool) → Volume → Volume
unfolding is_fat32 write_fsinfo
update_free cluster2 wasfree v =
    let d = v.dpb in
    let n = d.dpb_xnfreeclst in
    let low = n % 0x10000 in
    let adjust = if not wasfree then 1 else if not (cluster2 == free) then 0xffffffff else 0 in
    if not (cluster2 == free || wasfree)
    then v
    else if is_fat32 d && not (n == xunknclstfree)
    then write_fsinfo (record v { dpb = record d { dpb_xnfreeclst = (n + adjust) % 0x100000000 } })
    else if not (low == 0xffff)
    then record v { dpb = record d { dpb_xnfreeclst = n - low + (low + adjust) % 0x10000 } }
    else v

-- The branches of `link_fat` for the three kinds of table, from the buffer `bp` of the entry's sector
-- on: the answer and the volume.
unfoldable pub link_fat12 : (cluster1 cluster2 : ℕ) → (sec : ℕ) → Buffer → Volume → ℕ × Volume
unfolding get_fat_block put_block unpack12 pack12 decode12 put_byte rewrite mark_dirty update_free
    entry_index
link_fat12 cluster1 cluster2 sec bp v =
    let idx = entry_index v.dpb cluster1 / 2 in
    let reads = cluster2 % 0x10000 == read_cluster in
    if ltb idx (v.dpb.dpb_secsize - 1)
    then (let w = bp.b_buffer idx + bp.b_buffer (idx + 1) * 0x100 in
        let w2 = pack12 cluster1 cluster2 w in
        if reads then (decode12 (unpack12 cluster1 w), v) else (
          0,
          update_free cluster2 (unpack12 cluster1 w == free) (
              put_block v sec
                (rewrite (λ b. put_byte (put_byte b idx w2) (idx + 1) (w2 / 0x100)) bp)),
        ))
    else elim (get_fat_block v ((sec % 0x10000 + 1) % 0x10000)) [
      | none ↦ (1, v)
      | some (bp1, v1) ↦
          let w = bp.b_buffer idx + bp1.b_buffer 0 * 0x100 in
          let w2 = pack12 cluster1 cluster2 w in
          if not (cluster2 == read_cluster) && reads
          then (
            decode12 (unpack12 cluster1 w),
            put_block v1 ((sec % 0x10000 + 1) % 0x10000) (mark_dirty bp1),
          )
          else if reads
          then (decode12 (unpack12 cluster1 w), v1)
          else (
            0,
            update_free cluster2 (unpack12 cluster1 w == free) (
                put_block
                  (put_block v1 ((sec % 0x10000 + 1) % 0x10000)
                    (rewrite (λ b. put_byte b 0 (w2 / 0x100)) bp1))
                  sec (rewrite (λ b. put_byte b idx w2) bp)),
          )
    ]

unfoldable pub link_fat16 : (cluster1 cluster2 : ℕ) → (sec : ℕ) → Buffer → Volume → ℕ × Volume
unfolding put_block fgetword fputword decode16 rewrite update_free entry_index
link_fat16 cluster1 cluster2 sec bp v =
    let idx = entry_index v.dpb cluster1 in
    let res = fgetword bp.b_buffer (idx * 2) in
    if cluster2 % 0x10000 == read_cluster then (decode16 res, v) else (
      0,
      update_free cluster2 (res == free)
          (put_block v sec (rewrite (λ b. fputword b (idx * 2) (cluster2 % 0x10000)) bp)),
    )

-- `& LONG_LAST_CLUSTER` is the remainder by 2^28.
unfoldable pub link_fat32 : (cluster1 cluster2 : ℕ) → (sec : ℕ) → Buffer → Volume → ℕ × Volume
unfolding put_block fgetlong fputlong decode32 rewrite update_free entry_index
link_fat32 cluster1 cluster2 sec bp v =
    let idx = entry_index v.dpb cluster1 in
    let res = fgetlong bp.b_buffer (idx * 4) % 0x10000000 in
    if cluster2 == read_cluster then (decode32 res, v) else (
      0,
      update_free cluster2 (res == free)
          (put_block v sec (rewrite (λ b. fputlong b (idx * 4) (cluster2 % 0x10000000)) bp)),
    )

-- The answer is a cluster, 0 for a write that succeeds, or 1 for an error.
unfoldable pub link_fat : Volume → (cluster1 cluster2 : ℕ) → ℕ × Volume
unfolding refuses entry_sector get_fat_block link_fat12 link_fat16 link_fat32 is_fat12 is_fat16
    is_fat32
link_fat v cluster1 cluster2 =
    let sec = entry_sector v.dpb cluster1 in
    if refuses v.dpb cluster1 cluster2 then (1, v) else elim (get_fat_block v sec) [
      | none ↦ (1, v)
      | some (bp, v1) ↦
          if is_fat12 v.dpb
          then link_fat12 cluster1 cluster2 sec bp v1
          else if is_fat16 v.dpb
          then link_fat16 cluster1 cluster2 sec bp v1
          else if is_fat32 v.dpb
          then link_fat32 cluster1 cluster2 sec bp v1
          else (1, v1)
    ]

-- 0 for a free cluster, 1 for an error, LONG_LAST_CLUSTER at the end of a chain.
unfoldable pub next_cluster : Volume → ℕ → ℕ × Volume
unfolding link_fat max_cluster
next_cluster v cluster =
    let candidate = link_fat v cluster read_cluster in
    let following = link_fat (candidate.1) (candidate.0) read_cluster in
    if ltb (candidate.0) 2 || leb long_bad (candidate.0)
    then candidate
    else if ltb (following.0) 2
        || (ltb (following.0) long_bad && ltb (max_cluster v.dpb) (following.0))
    then (1, following.1)
    else (candidate.0, following.1)

unfoldable pub is_free_cluster : Volume → ℕ → Bool × Volume
unfolding link_fat
is_free_cluster v cluster = let r = link_fat v cluster read_cluster in (r.0 == free, r.1)
