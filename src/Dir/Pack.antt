-- ===== src/Dir/Pack.antt =====
-- kernel/syspack.c: what `putdirent` writes is what `getdirent` reads.
use burdah_dos_system.Base.{ℕ, ◌≤◌, ◌<◌, ◌≡◌, arith}
use burdah_dos_system.Fat.Entry.{Bytes}
use burdah_dos_system.Dir.{Dirent, name_size, getdirent, putdirent}

-- The fields are within their widths.
pub record IsDirent (d : Dirent) : Type 0 where
  pub attrib : d.dir_attrib < 0x100
  pub time : d.dir_time < 0x10000
  pub date : d.dir_date < 0x10000
  pub start : d.dir_start < 0x10000
  pub size : d.dir_size < 0x100000000

name_at :
    (d old : Dirent) (b : Bytes) (i : ℕ)
    → i < name_size
    → (getdirent (putdirent d b) old).dir_name i ≡ d.dir_name i
unfolding getdirent putdirent
name_at d old b i h = ground arith

-- In a build with `NONNATIVE` (MC68K), the only one that has these routines: an entry whose fields are
-- within their widths, put and then got, has the characters of its name and
-- its other fields back; the ten reserved bytes are 0, and bytes behind the 32 of the entry are kept.
pub getdirent-putdirent :
    (d old : Dirent) (b : Bytes) (i j k : ℕ)
    → IsDirent d
    → i < name_size
    → 12 ≤ j
    → j < 22
    → 32 ≤ k
    → ((getdirent (putdirent d b) old).dir_name i ≡ d.dir_name i)
      × ((getdirent (putdirent d b) old).dir_attrib ≡ d.dir_attrib)
      × ((getdirent (putdirent d b) old).dir_time ≡ d.dir_time)
      × ((getdirent (putdirent d b) old).dir_date ≡ d.dir_date)
      × ((getdirent (putdirent d b) old).dir_start ≡ d.dir_start)
      × ((getdirent (putdirent d b) old).dir_size ≡ d.dir_size)
      × (putdirent d b j ≡ 0)
      × (putdirent d b k ≡ b k)
unfolding getdirent putdirent
getdirent-putdirent d old b i j k w h lo hi out = (
  name_at d old b i h,
  ground (arith, w.attrib),
  ground (arith, w.time),
  ground (arith, w.date),
  ground (arith, w.start),
  ground (arith, w.size),
  ground arith,
  ground arith,
)
