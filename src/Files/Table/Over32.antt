-- ===== src/Files/Table/Over32.antt =====
-- kernel/fattab.c: a write of an entry of a FAT32 table is found by a read of it, and by no other.
use native.Mathlib.Nat.{mod-lt, mod-eq_of_lt, div-le_self}
use burdah_dos_system.Base.{
  ℕ, ◌+◌, ◌*◌, ◌/◌, ◌%◌, ◌≤◌, ◌<◌, ◌≡◌, ◌≢◌, refl, ◌∙◌, sym, ap, ◌==◌, ltb, ltb→lt, bit_and,
  Bool-cases, inl, inr, some, true, false, arith, ==→eq, if◌then◌else◌,
}
use burdah_dos_system.Fat.Entry.{
  read_cluster, Bytes, fgetword, fputword, fgetlong, fputlong, decode32, put_byte,
}
use burdah_dos_system.Fat.Entry.Coding.{fgetword-fputword_other, fgetword-fputword_before}
use burdah_dos_system.Fat.Link.{
  Dpb, Buffer, Volume, refuses, entry_sector, entry_index, put_block, fat_block, rewrite,
  mark_dirty, entry_place, sector_entries, no_mirroring, link_fat, link_fat32, get_fat_block,
  update_free,
}
use burdah_dos_system.Fat.Link.Table16.{same_place}
use burdah_dos_system.Files.Table.Reads32.{Is32, table_start, read32, answer32}

fgetword-fputword_low : (b : Bytes) (i v : ℕ) → fgetword (fputword b i v) i ≡ v % 0x10000
unfolding fgetword fputword put_byte
fgetword-fputword_low b i v = ground arith

fgetlong-fputlong : (b : Bytes) (i v : ℕ) → v < 0x100000000 → fgetlong (fputlong b i v) i ≡ v
unfolding fgetlong fputlong
fgetlong-fputlong b i v small =
    let low = fgetword-fputword_before (fputword b i v) (i + 2) i (v / 0x10000) (omega arith) in
    let low1 = fgetword-fputword_low b i v in
    let high = fgetword-fputword_low (fputword b i v) (i + 2) (v / 0x10000) in
    omega (arith, low, low1, high, small)

fgetlong-fputlong_apart :
    (b : Bytes) (i j v : ℕ) → i ≢ j → fgetlong (fputlong b (i * 4) v) (j * 4) ≡ fgetlong b (j * 4)
unfolding fgetlong fputlong
fgetlong-fputlong_apart b i j v ne =
    let a = fputword b (i * 4) v in
    let h = v / 0x10000 in
    elim (Bool-cases (ltb i j)) [
      | inl up ↦
          let lt = ltb→lt i j up in
          omega (
            arith,
            fgetword-fputword_other a (i * 4 + 2) (j * 4) h (omega (arith, lt)),
            fgetword-fputword_other a (i * 4 + 2) (j * 4 + 2) h (omega (arith, lt)),
            fgetword-fputword_other b (i * 4) (j * 4) v (omega (arith, lt)),
            fgetword-fputword_other b (i * 4) (j * 4 + 2) v (omega (arith, lt)),
          )
      | inr down ↦
          let lt : j < i = ground (arith, down, ne) in
          omega (
            arith,
            fgetword-fputword_before a (i * 4 + 2) (j * 4) h (omega (arith, lt)),
            fgetword-fputword_before a (i * 4 + 2) (j * 4 + 2) h (omega (arith, lt)),
            fgetword-fputword_before b (i * 4) (j * 4) v (omega (arith, lt)),
            fgetword-fputword_before b (i * 4) (j * 4 + 2) v (omega (arith, lt)),
          )
    ]

entry_index32 :
    (v : Volume) (c : ℕ) → Is32 v → entry_index v.dpb c ≡ c % (v.dpb.dpb_secsize / 2 / 2)
unfolding entry_index entry_place sector_entries
entry_index32 v c i =
    let n = v.dpb.dpb_secsize / 2 / 2 in
    let small : c % n < n = mod-lt c (omega (arith, i.secsize_low)) in
    rw (i.not12, i.is32) (mod-eq_of_lt (omega (arith, small, i.secsize_high)))

pub entry_sector32 :
    (v : Volume) (c : ℕ)
    → Is32 v
    → c ≤ v.dpb.dpb_xsize
    → entry_sector v.dpb c ≡ c / (v.dpb.dpb_secsize / 2 / 2) + table_start v.dpb
unfolding entry_sector entry_place sector_entries
entry_sector32 v c i low =
    let n = v.dpb.dpb_secsize / 2 / 2 in
    let q = div-le_self c n in
    let high = i.sectors_high in
    elim (Bool-cases (no_mirroring v.dpb)) [
      | inl one ↦
          let h : table_start v.dpb
              ≡ v.dpb.dpb_fatstrt + bit_and v.dpb.dpb_xflags 0xf * v.dpb.dpb_xfatsize =
            rw one refl in
          rw (i.not12, i.is32, one)
            (mod-eq_of_lt (omega (arith, q, low, high, h)) ∙ omega (arith, q))
      | inr all ↦
          let h : table_start v.dpb ≡ v.dpb.dpb_fatstrt = rw all refl in
          rw (i.not12, i.is32, all) (mod-eq_of_lt (omega (arith, q, low, high, h)))
    ]

-- Two entries of clusters in the same sector stand at different places in it.
entry_index_apart32 :
    (v : Volume) (c d : ℕ)
    → Is32 v
    → c ≤ v.dpb.dpb_xsize
    → d ≤ v.dpb.dpb_xsize
    → c ≢ d
    → entry_sector v.dpb d ≡ entry_sector v.dpb c
    → entry_index v.dpb c ≢ entry_index v.dpb d
entry_index_apart32 v c d i hc hd ne here = λ e. ne (
    same_place (v.dpb.dpb_secsize / 2 / 2) c d
      (omega (arith, entry_sector32 v c i hc, entry_sector32 v d i hd, here))
      (sym (entry_index32 v c i) ∙ e ∙ entry_index32 v d i))

-- The buffer with an entry written.
abbrev pub new_block : Volume → ℕ → ℕ → Buffer → Buffer
new_block v c x b =
    rewrite (λ b. fputlong b (entry_index v.dpb c * 4) (x % 0x10000000)) (fat_block v.dpb b)

-- The volume after the write of an entry and before its free clusters are counted again.
abbrev pub over32 : Volume → ℕ → ℕ → Buffer → Volume
over32 v c x b =
    put_block (put_block v (entry_sector v.dpb c) (fat_block v.dpb b)) (entry_sector v.dpb c)
      (new_block v c x b)

pub link_fat-write32 :
    (v : Volume) (c x : ℕ) (b : Buffer)
    → Is32 v
    → refuses v.dpb c x ≡ false
    → x ≢ read_cluster
    → v.getblock (entry_sector v.dpb c) ≡ some b
    → link_fat v c x ≡ (
      0,
      update_free x
          (fgetlong b.b_buffer (entry_index v.dpb c * 4) % 0x10000000 == 0)
          (over32 v c x b),
    )
unfolding link_fat get_fat_block link_fat32 fat_block put_block
link_fat-write32 v c x b i ok nr there =
    let wr : (x == read_cluster) ≡ false = ground (arith, nr) in
    rw (ok, there, i.not12, i.not16, i.is32, wr) refl

over32-sector :
    (v : Volume) (c x s : ℕ) (b : Buffer)
    → (over32 v c x b).getblock s
      ≡ (if s == entry_sector v.dpb c then some (new_block v c x b) else v.getblock s)
unfolding put_block
over32-sector v c x s b = ground arith

over32-read :
    (v : Volume) (c d x : ℕ) (b : Buffer)
    → read32 (over32 v c x b) d
      ≡ answer32 v.dpb
          (if entry_sector v.dpb d == entry_sector v.dpb c
            then some (new_block v c x b)
            else v.getblock (entry_sector v.dpb d))
          d
unfolding put_block
over32-read v c d x b = ap (λ o. answer32 v.dpb o d) (over32-sector v c x (entry_sector v.dpb d) b)

new_block-bytes :
    (v : Volume) (c x : ℕ) (b : Buffer)
    → (new_block v c x b).b_buffer ≡ fputlong b.b_buffer (entry_index v.dpb c * 4) (x % 0x10000000)
unfolding rewrite mark_dirty fat_block
new_block-bytes v c x b = refl

eq→== : (n : ℕ) → (n == n) ≡ true
eq→== n = ground arith

pub read32-over32 :
    (v : Volume) (c x : ℕ) (b : Buffer)
    → refuses v.dpb c read_cluster ≡ false
    → read32 (over32 v c x b) c ≡ decode32 (x % 0x10000000)
read32-over32 v c x b ok =
    over32-read v c c x b
    ∙ rw (eq→== (entry_sector v.dpb c), ok)
        (ap (λ bytes. decode32 (fgetlong bytes (entry_index v.dpb c * 4) % 0x10000000))
            (new_block-bytes v c x b)
          ∙ ap (λ n. decode32 (n % 0x10000000))
              (fgetlong-fputlong b.b_buffer (entry_index v.dpb c * 4) (x % 0x10000000)
                (omega arith))
          ∙ ap decode32 (omega arith))

pub read32-over32_other :
    (v : Volume) (c d x : ℕ) (b : Buffer)
    → Is32 v
    → c ≤ v.dpb.dpb_xsize
    → d ≤ v.dpb.dpb_xsize
    → c ≢ d
    → v.getblock (entry_sector v.dpb c) ≡ some b
    → read32 (over32 v c x b) d ≡ read32 v d
read32-over32_other v c d x b i hc hd ne there =
    over32-read v c d x b ∙ elim (Bool-cases (entry_sector v.dpb d == entry_sector v.dpb c)) [
      | inl same ↦
          let here = ==→eq (entry_sector v.dpb d) (entry_sector v.dpb c) same in
          let found : v.getblock (entry_sector v.dpb d) ≡ some b = ap v.getblock here ∙ there in
          let bytes =
            ap (λ bytes. fgetlong bytes (entry_index v.dpb d * 4)) (new_block-bytes v c x b)
            ∙ fgetlong-fputlong_apart b.b_buffer (entry_index v.dpb c) (entry_index v.dpb d)
                (x % 0x10000000) (entry_index_apart32 v c d i hc hd ne here) in
          rw (same, found) (answer32-same v.dpb d (new_block v c x b) b bytes)
      | inr differs ↦ rw differs refl
    ]
  where
    answer32-same :
        (p : Dpb) (d : ℕ) (a b : Buffer)
        → fgetlong a.b_buffer (entry_index p d * 4) ≡ fgetlong b.b_buffer (entry_index p d * 4)
        → answer32 p (some a) d ≡ answer32 p (some b) d
    answer32-same p d a b h = rw h refl
