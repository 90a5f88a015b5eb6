-- ===== src/Fat/Entry.antt =====
-- kernel/fattab.c, kernel/syspack.c, hdr/fat.h: the encodings of an entry of a file allocation table in the bytes of a
-- sector. Where the source joins bytes or fields with `|`, they share no bit and are added here.
pub mod Coding
use burdah_dos_system.Base.{
  ℕ, zero, suc, ◌+◌, ◌-◌, ◌*◌, ◌/◌, ◌%◌, Bool, ltb, leb, ◌==◌, if◌then◌else◌,
}

abbrev pub free : ℕ
free = 0

abbrev pub read_cluster : ℕ
read_cluster = 1

abbrev pub long_last_cluster : ℕ
long_last_cluster = 0x0fffffff

abbrev pub long_bad : ℕ
long_bad = 0x0ffffff7

abbrev pub mask16 : ℕ
mask16 = 0xfff8

abbrev pub bad16 : ℕ
bad16 = 0xfff7

abbrev pub mask12 : ℕ
mask12 = 0xff8

abbrev pub bad12 : ℕ
bad12 = 0xff7

-- The bytes of a buffer by their offset.
abbrev pub Bytes : Type 0
Bytes = ℕ → ℕ

unfoldable pub put_byte : Bytes → ℕ → ℕ → Bytes
put_byte b i v j = if j == i then v % 0x100 else b j

unfoldable pub fgetword : Bytes → ℕ → ℕ
fgetword b i = b i + b (i + 1) * 0x100

unfoldable pub fputword : Bytes → ℕ → ℕ → Bytes
unfolding put_byte
fputword b i v = put_byte (put_byte b i v) (i + 1) (v / 0x100)

unfoldable pub fgetlong : Bytes → ℕ → ℕ
unfolding fgetword
fgetlong b i = fgetword b i + fgetword b (i + 2) * 0x10000

unfoldable pub fputlong : Bytes → ℕ → ℕ → Bytes
unfolding fputword
fputlong b i v = fputword (fputword b i v) (i + 2) (v / 0x10000)

-- The 12 bits of an entry in the word that holds it.
unfoldable pub unpack12 : ℕ → ℕ → ℕ
unpack12 cluster1 w = (if cluster1 % 2 == 1 then w / 0x10 else w) % 0x1000

-- The word with the entry set to the low 12 bits of `cluster2`.
unfoldable pub pack12 : ℕ → ℕ → ℕ → ℕ
pack12 cluster1 cluster2 w =
    let c2 = cluster2 % 0x1000 in
    if cluster1 % 2 == 1 then w % 0x10 + c2 * 0x10 else w / 0x1000 % 0x10 * 0x1000 + c2

-- What a read answers for the contents of an entry.
unfoldable pub decode12 : ℕ → ℕ
decode12 c = if leb mask12 c then long_last_cluster else if c == bad12 then long_bad else c

unfoldable pub decode16 : ℕ → ℕ
decode16 c = if leb mask16 c then long_last_cluster else if c == bad16 then long_bad else c

unfoldable pub decode32 : ℕ → ℕ
decode32 c = if ltb long_bad c then long_last_cluster else c
