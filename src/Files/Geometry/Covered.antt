-- ===== src/Files/Geometry/Covered.antt =====
-- kernel/fatfs.c, `bpb_to_dpb`: the table that the parameters of a drive describe has an entry for
-- each of its clusters.
use native.Mathlib.Nat.{mul-le-mul_left, mod-lt, div-lt_iff_lt-mul, le_trans}
use burdah_dos_system.Base.{
  ℕ, zero, suc, ◌+◌, ◌*◌, ◌/◌, ◌≤◌, ◌<◌, ◌≡◌, ◌⊎◌, refl, sym, ◌∙◌, subst, inl, inr, Bool, true,
  false, Bool-cases, ltb, leb, ◌==◌, if◌then◌else◌, arith,
}
use burdah_dos_system.Fat.Link.{Volume, is_fat12, is_fat16, is_fat32, entry_sector}
use burdah_dos_system.Fat.Link.Table16.{Is16, entry_sector16}
use burdah_dos_system.Files.Geometry.{
  Bpb, fat_magic, checked_size, raw_size, shortened, standard_dpb, bpb_to_dpb, dpb16to32,
}

-- The bytes that the entries up to that of cluster `size` take, by the kind of the table.
abbrev pub table_bytes : ℕ → ℕ
table_bytes size = if ltb fat_magic size then 2 * (size + 1) else (3 * (size + 1) + 1) / 2

halves : (f s : ℕ) → 2 * (f * (s / 2)) ≤ f * s
halves f s = let h : 2 * (s / 2) ≤ s = omega arith in omega (arith, mul-le-mul_left f h)

-- The check of the size of the table, from the number of its words.
checked :
    (size tmp : ℕ)
    → size < 0x10000
    → 16 ≤ tmp
    → (fat_magic < tmp) ⊎ (size ≤ fat_magic)
    → (new : ℕ)
    → new ≡ (
        if leb 0x10000 tmp
        then size
        else if ltb fat_magic size
        then if leb tmp fat_magic then size else shortened size tmp
        else if leb 0x4000 tmp
        then size
        else shortened size (tmp * 4 / 3))
    → table_bytes new ≤ 2 * tmp
checked size tmp small some_there ok new e = ground arith

enough_words : (f s : ℕ) → 1 ≤ f → 32 ≤ s → 16 ≤ f * (s / 2)
enough_words f s one low = let h : 16 ≤ s / 2 = omega arith in omega (arith, mul-le-mul_left f h)

-- A table with sectors is none of FAT32, and the extended part keeps its numbers.
bpb_to_dpb-standard_dpb :
    (b : Bpb) (extended : Bool) (v : Volume)
    → 1 ≤ b.bpb_nfsect
    → (is_fat32 (bpb_to_dpb b extended v).dpb ≡ false)
      × ((bpb_to_dpb b extended v).dpb.dpb_size ≡ (standard_dpb b v.dpb).dpb_size)
      × ((bpb_to_dpb b extended v).dpb.dpb_fatsize ≡ b.bpb_nfsect)
      × ((bpb_to_dpb b extended v).dpb.dpb_secsize ≡ b.bpb_nbyte)
      × ((bpb_to_dpb b extended v).dpb.dpb_fatstrt ≡ b.bpb_nreserved)
unfolding bpb_to_dpb standard_dpb dpb16to32 is_fat32
bpb_to_dpb-standard_dpb b extended v one =
    let not32 : (b.bpb_nfsect == 0) ≡ false = ground (arith, one) in
    elim (Bool-cases extended) [
      | inl yes_ ↦ rw (yes_, not32) (not32, refl, refl, refl, refl)
      | inr no_ ↦ rw no_ (not32, refl, refl, refl, refl)
    ]

-- `bpb_to_dpb` of a boot sector for a table of one sector at least and sectors of 32 bytes at least
-- gives parameters whose table is long enough for the entries of all clusters, if the table has more
-- than 4085 words or the sectors of the volume make a `dpb_size` of at most 4085.
pub bpb_to_dpb-table_bytes :
    (b : Bpb) (extended : Bool) (v : Volume)
    → 1 ≤ b.bpb_nfsect
    → 32 ≤ b.bpb_nbyte
    → (fat_magic < b.bpb_nfsect * (b.bpb_nbyte / 2)) ⊎ (raw_size b ≤ fat_magic)
    → table_bytes (bpb_to_dpb b extended v).dpb.dpb_size
      ≤ (bpb_to_dpb b extended v).dpb.dpb_fatsize * (bpb_to_dpb b extended v).dpb.dpb_secsize
unfolding standard_dpb checked_size
bpb_to_dpb-table_bytes b extended v one low ok =
    let tmp = b.bpb_nfsect * (b.bpb_nbyte / 2) in
    let (not32, size, fatsize, secsize, fatstrt) = bpb_to_dpb-standard_dpb b extended v one in
    let h =
      checked (raw_size b) tmp (mod-lt _ (omega arith))
        (enough_words b.bpb_nfsect b.bpb_nbyte one low) ok (standard_dpb b v.dpb).dpb_size refl in
    let fits : table_bytes (standard_dpb b v.dpb).dpb_size ≤ b.bpb_nfsect * b.bpb_nbyte =
      le_trans h (halves b.bpb_nfsect b.bpb_nbyte) in
    rw (size, fatsize, secsize) fits

bpb_to_dpb-Is16 :
    (b : Bpb) (extended : Bool) (v : Volume)
    → 1 ≤ b.bpb_nfsect
    → 32 ≤ b.bpb_nbyte
    → b.bpb_nbyte < 0x10000
    → b.bpb_nreserved < 0x10000
    → is_fat16 (bpb_to_dpb b extended v).dpb ≡ true
    → Is16 (bpb_to_dpb b extended v)
unfolding is_fat12 is_fat16
bpb_to_dpb-Is16 b extended v one low high start is16 =
    let (not32, size, fatsize, secsize, fatstrt) = bpb_to_dpb-standard_dpb b extended v one in
    record {
      not12 = ground (arith, is16);
      is16 = is16;
      not32 = not32;
      secsize_low = omega (arith, secsize, low);
      secsize_high = omega (arith, secsize, high);
      fatstrt_high = omega (arith, fatstrt, start);
    }

factor_pos : (a b n : ℕ) → n < a * b → 1 ≤ a
factor_pos zero b n h = absurd (omega (arith, h))
factor_pos (suc a) b n h = omega arith

-- A cluster of a FAT16 table of `words` entries is one of them.
below_table :
    (c size words : ℕ)
    → (fat_magic < size) × (size ≤ 65525)
    → table_bytes size ≤ 2 * words
    → c ≤ size
    → (c < 0x10000) × (c < words)
below_table c size words range bytes low = ground (arith, range, bytes, low)

-- For a boot sector of a FAT16 volume, its numbers within their fields, with sectors of an even
-- number of bytes, 32 at least, and a table of more than 4085 words, the entry of each cluster
-- that `bpb_to_dpb` counts stands in a sector of the first table: `link_fat` finds it there and
-- not in front of or behind the table.
pub bpb_to_dpb-entry_sector :
    (b : Bpb) (extended : Bool) (v : Volume) (c half : ℕ)
    → b.bpb_nbyte ≡ 2 * half
    → 32 ≤ b.bpb_nbyte
    → b.bpb_nbyte < 0x10000
    → b.bpb_nreserved < 0x10000
    → fat_magic < b.bpb_nfsect * half
    → is_fat16 (bpb_to_dpb b extended v).dpb ≡ true
    → c ≤ (bpb_to_dpb b extended v).dpb.dpb_size
    → (b.bpb_nreserved ≤ entry_sector (bpb_to_dpb b extended v).dpb c)
      × (entry_sector (bpb_to_dpb b extended v).dpb c < b.bpb_nreserved + b.bpb_nfsect)
unfolding is_fat16
bpb_to_dpb-entry_sector b extended v c half even low high start words is16 top =
    let d = (bpb_to_dpb b extended v).dpb in
    let one = factor_pos b.bpb_nfsect half fat_magic words in
    let half_is : b.bpb_nbyte / 2 ≡ half = omega (arith, even) in
    let (not32, size, fatsize, secsize, fatstrt) = bpb_to_dpb-standard_dpb b extended v one in
    let i = bpb_to_dpb-Is16 b extended v one low high start is16 in
    let bytes =
      bpb_to_dpb-table_bytes b extended v one low
        (inl (subst (λ h. fat_magic < b.bpb_nfsect * h) (sym half_is) words)) in
    let same : d.dpb_fatsize * d.dpb_secsize ≡ 2 * (b.bpb_nfsect * half) =
      rw (fatsize, secsize, even) (omega arith) in
    let inside =
      below_table c d.dpb_size (b.bpb_nfsect * half) (ground (arith, is16))
        (subst (λ n. table_bytes d.dpb_size ≤ n) same bytes) top in
    let at : entry_sector d c ≡ c / half + b.bpb_nreserved =
      entry_sector16 (bpb_to_dpb b extended v) c i inside.0 ∙ rw (secsize, half_is, fatstrt) refl in
    let under : c / half < b.bpb_nfsect =
      (div-lt_iff_lt-mul {k = half} {x = c} {y = b.bpb_nfsect} (omega (arith, even, low))).1
        inside.1 in
    (omega (arith, at), omega (arith, at, under))
