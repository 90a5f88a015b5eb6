-- ===== src/Dir.antt =====
-- kernel/syspack.c: a directory entry as the 32 bytes of a directory's sector. The bytes of the entry
-- start at offset 0. The routines are compiled only under `NONNATIVE`, which hdr/portab.h
-- defines for MC68K; the I86 kernel copies `struct dirent` as it is (kernel/proto.h), with the reserved
-- bytes.
pub mod Pack
mod Tests
use burdah_dos_system.Base.{ℕ, zero, suc, ◌+◌, ◌%◌, ◌-◌, ◌&&◌, leb, ltb, if◌then◌else◌}
use burdah_dos_system.Fat.Entry.{Bytes, put_byte, fgetword, fputword, fgetlong, fputlong}

-- The fields of `struct dirent` that are packed. `dir_name` gives the characters by their place.
pub record Dirent : Type 0 where
  pub dir_name : Bytes
  pub dir_attrib : ℕ
  pub dir_time : ℕ
  pub dir_date : ℕ
  pub dir_start : ℕ
  pub dir_size : ℕ

abbrev pub name_size : ℕ
name_size = 11

abbrev pub dir_attrib_at : ℕ
dir_attrib_at = 11

abbrev pub dir_reserved_at : ℕ
dir_reserved_at = 12

abbrev pub dir_time_at : ℕ
dir_time_at = 22

abbrev pub dir_date_at : ℕ
dir_date_at = 24

abbrev pub dir_start_at : ℕ
dir_start_at = 26

abbrev pub dir_size_at : ℕ
dir_size_at = 28

-- Copying `n` bytes, and clearing `n` bytes.
unfoldable pub fmemcpy : Bytes → Bytes → ℕ → Bytes
fmemcpy to from n i = if ltb i n then from i else to i

unfoldable pub clear : Bytes → (start n : ℕ) → Bytes
clear b start n i = if leb start i && ltb i (start + n) then 0 else b i

unfoldable pub getdirent : Bytes → Dirent → Dirent
unfolding fmemcpy fgetword fgetlong
getdirent vp dp = record {
  dir_name = fmemcpy dp.dir_name vp name_size;
  dir_attrib = vp dir_attrib_at;
  dir_time = fgetword vp dir_time_at;
  dir_date = fgetword vp dir_date_at;
  dir_start = fgetword vp dir_start_at;
  dir_size = fgetlong vp dir_size_at;
}

unfoldable pub putdirent : Dirent → Bytes → Bytes
unfolding fmemcpy put_byte fputword fputlong clear
putdirent dp vp =
    let b1 = fmemcpy vp dp.dir_name name_size in
    let b2 = put_byte b1 dir_attrib_at dp.dir_attrib in
    let b3 = fputword b2 dir_time_at dp.dir_time in
    let b4 = fputword b3 dir_date_at dp.dir_date in
    let b5 = fputword b4 dir_start_at dp.dir_start in
    clear (fputlong b5 dir_size_at dp.dir_size) dir_reserved_at 10
