-- ===== src/Dir/Tests.antt =====
-- A directory entry, and the theorem on packing at it.
use burdah_dos_system.Base.{◌≡◌, arith}
use burdah_dos_system.Dir.{Dirent, getdirent, putdirent}
use burdah_dos_system.Dir.Pack.{IsDirent, getdirent-putdirent}

abbrev entry : Dirent
entry = record {
  dir_name = λ i. 0x41;
  dir_attrib = 0x20;
  dir_time = 0x6000;
  dir_date = 0x5821;
  dir_start = 2;
  dir_size = 70000;
}

entry-IsDirent : IsDirent entry
entry-IsDirent = record {
  attrib = omega arith;
  time = omega arith;
  date = omega arith;
  start = omega arith;
  size = omega arith;
}

getdirent-putdirent_example :
    ((getdirent (putdirent entry (λ i. 7)) entry).dir_name 3 ≡ 0x41)
    × ((getdirent (putdirent entry (λ i. 7)) entry).dir_attrib ≡ 0x20)
    × ((getdirent (putdirent entry (λ i. 7)) entry).dir_time ≡ 0x6000)
    × ((getdirent (putdirent entry (λ i. 7)) entry).dir_date ≡ 0x5821)
    × ((getdirent (putdirent entry (λ i. 7)) entry).dir_start ≡ 2)
    × ((getdirent (putdirent entry (λ i. 7)) entry).dir_size ≡ 70000)
    × (putdirent entry (λ i. 7) 12 ≡ 0)
    × (putdirent entry (λ i. 7) 40 ≡ 7)
getdirent-putdirent_example =
    getdirent-putdirent entry entry (λ i. 7) 3 12 40 entry-IsDirent (omega arith) (omega arith)
      (omega arith) (omega arith)
