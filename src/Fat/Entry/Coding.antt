-- ===== src/Fat/Entry/Coding.antt =====
-- hdr/fat.h, kernel/fattab.c: what the encodings of an entry keep.
use burdah_dos_system.Base.{ℕ, ◌+◌, ◌/◌, ◌%◌, ◌≤◌, ◌<◌, ◌≡◌, ◌==◌, if◌then◌else◌, arith}
use burdah_dos_system.Fat.Entry.{Bytes, put_byte, fgetword, fputword, unpack12, pack12}

-- The four bits of the word that belong to the entry's neighbour.
abbrev pub rest12 : ℕ → ℕ → ℕ
rest12 c w = if c % 2 == 1 then w % 0x10 else w / 0x1000

-- Packing a value into the word of a FAT12 entry gives a word of 16 bits, from which the entry unpacks
-- as the low 12 bits of the value, and in which the four bits of the neighbouring entry are as before.
pub unpack12-pack12 :
    (c x w : ℕ)
    → w < 0x10000
    → (pack12 c x w < 0x10000)
      × (unpack12 c (pack12 c x w) ≡ x % 0x1000)
      × (rest12 c (pack12 c x w) ≡ rest12 c w)
unfolding pack12 unpack12
unpack12-pack12 c x w h = (ground arith, ground arith, ground arith)

pub fgetword-fputword : (b : Bytes) (i v : ℕ) → v < 0x10000 → fgetword (fputword b i v) i ≡ v
unfolding fgetword fputword put_byte
fgetword-fputword b i v h = ground arith

pub fgetword-fputword_other :
    (b : Bytes) (i j v : ℕ) → i + 2 ≤ j → fgetword (fputword b i v) j ≡ fgetword b j
unfolding fgetword fputword put_byte
fgetword-fputword_other b i j v h = ground arith

pub fgetword-fputword_before :
    (b : Bytes) (i j v : ℕ) → j + 2 ≤ i → fgetword (fputword b i v) j ≡ fgetword b j
unfolding fgetword fputword put_byte
fgetword-fputword_before b i j v h = ground arith
