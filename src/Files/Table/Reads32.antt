-- ===== src/Files/Table/Reads32.antt =====
-- kernel/fattab.c: reads of the table of a FAT32 volume whose sectors can be read.
use burdah_dos_system.Base.{
  ℕ, ◌+◌, ◌*◌, ◌%◌, ◌≤◌, ◌<◌, ◌≡◌, ◌≢◌, ◌⊎◌, refl, ◌∙◌, sym, ap, subst, ◌==◌, Bool-cases, Option,
  Option-cases, inl, inr, some, none, true, false, ==→eq, bit_and, if◌then◌else◌,
}
use burdah_dos_system.Fat.Entry.{read_cluster, long_bad, fgetlong, decode32}
use burdah_dos_system.Fat.Link.{
  Dpb, Buffer, Volume, is_fat32, is_fat12, is_fat16, max_cluster, link_fat, refuses, entry_sector,
  entry_index, put_block, get_fat_block, link_fat32, fat_block, entry_place, sector_entries,
  no_mirroring,
}
use burdah_dos_system.Fat.Link.Frame.{with_free, Readable}
use burdah_dos_system.Files.{with_cluster, with_xcluster}
use burdah_dos_system.Files.Table.{entry}
use burdah_dos_system.Files.Table.Reads16.{put_block-Readable, with_counts}

-- Where the table that is in use starts.
abbrev pub table_start : Dpb → ℕ
unfolding no_mirroring
table_start d =
    if no_mirroring d
    then d.dpb_fatstrt + bit_and d.dpb_xflags 0xf * d.dpb_xfatsize
    else d.dpb_fatstrt

-- A volume with a FAT32 table, its numbers within their fields.
pub record Is32 (v : Volume) : Type 0 where
  pub not12 : is_fat12 v.dpb ≡ false
  pub not16 : is_fat16 v.dpb ≡ false
  pub is32 : is_fat32 v.dpb ≡ true
  pub secsize_low : 4 ≤ v.dpb.dpb_secsize
  pub secsize_high : v.dpb.dpb_secsize < 0x10000
  pub top_low : v.dpb.dpb_xsize < long_bad
  pub sectors_high : table_start v.dpb + v.dpb.dpb_xsize < 0x100000000

-- The entries of all clusters can be read, and the sector of the counts is not one of the table.
pub record Is32Table (v : Volume) : Type 0 where
  pub numbers : Is32 v
  pub readable : (c : ℕ) → 2 ≤ c → c ≤ max_cluster v.dpb → Readable v (entry_sector v.dpb c)
  pub apart : (c : ℕ) → 2 ≤ c → c ≤ max_cluster v.dpb → entry_sector v.dpb c ≢ v.dpb.dpb_xfsinfosec

pub top32 : (v : Volume) → Is32 v → max_cluster v.dpb ≡ v.dpb.dpb_xsize
unfolding max_cluster
top32 v i = rw (i.is32) refl

-- What a read of an entry answers, from the buffer of the entry's sector.
abbrev pub answer32 : Dpb → Option Buffer → ℕ → ℕ
answer32 d found c = if refuses d c read_cluster then 1 else elim found [
  | none ↦ 1
  | some b ↦ decode32 (fgetlong b.b_buffer (entry_index d c * 4) % 0x10000000)
]

abbrev pub read32 : Volume → ℕ → ℕ
read32 v c = answer32 v.dpb (v.getblock (entry_sector v.dpb c)) c

link_fat-read32 : (v : Volume) (c : ℕ) → Is32 v → (link_fat v c read_cluster).0 ≡ read32 v c
unfolding link_fat get_fat_block link_fat32 fat_block put_block
link_fat-read32 v c i = elim (Bool-cases (refuses v.dpb c read_cluster)) [
  | inl a ↦ rw a refl
  | inr a ↦ elim (Option-cases (v.getblock (entry_sector v.dpb c))) [
    | inl none_there ↦ rw (a, none_there) refl
    | inr (b, there) ↦ rw (a, there, i.not12, i.not16, i.is32) refl
  ]
]

pub entry-read32 : (v : Volume) (c : ℕ) → Is32Table v → entry v c ≡ read32 v c
entry-read32 v c t = link_fat-read32 v c t.numbers

after_read32 :
    (v : Volume) (c : ℕ)
    → Is32 v
    → ((link_fat v c read_cluster).1 ≡ v)
      ⊎ ((b : Buffer) × (v.getblock (entry_sector v.dpb c) ≡ some b)
          × ((link_fat v c read_cluster).1
              ≡ put_block v (entry_sector v.dpb c) (fat_block v.dpb b)))
unfolding link_fat get_fat_block link_fat32
after_read32 v c i = elim (Bool-cases (refuses v.dpb c read_cluster)) [
  | inl a ↦ inl (rw a refl)
  | inr a ↦ elim (Option-cases (v.getblock (entry_sector v.dpb c))) [
    | inl none_there ↦ inl (rw (a, none_there) refl)
    | inr (b, there) ↦ inr (b, there, rw (a, there, i.not12, i.not16, i.is32) refl)
  ]
]

pub read_dpb32 : (v : Volume) (c : ℕ) → Is32Table v → (link_fat v c read_cluster).1.dpb ≡ v.dpb
unfolding put_block
read_dpb32 v c t = elim (after_read32 v c t.numbers) [
  | inl e ↦ ap (λ w. w.dpb) e
  | inr (b, there, e) ↦ ap (λ w. w.dpb) e
]

pub put_block-Is32Table :
    (v : Volume) (s : ℕ) (b : Buffer) → Is32Table v → Is32Table (put_block v s b)
unfolding put_block
put_block-Is32Table v s b t = record {
  numbers = record {
    not12 = t.numbers.not12;
    not16 = t.numbers.not16;
    is32 = t.numbers.is32;
    secsize_low = t.numbers.secsize_low;
    secsize_high = t.numbers.secsize_high;
    top_low = t.numbers.top_low;
    sectors_high = t.numbers.sectors_high;
  };
  readable = λ c low high. put_block-Readable v s (entry_sector v.dpb c) b (t.readable c low high);
  apart = t.apart;
}

pub with_counts-Is32Table : (v : Volume) (n c x : ℕ) → Is32Table v → Is32Table (with_counts n c x v)
unfolding with_counts is_fat12 is_fat16 is_fat32 max_cluster entry_sector entry_place sector_entries
    no_mirroring
with_counts-Is32Table v n c x t = record {
  numbers = record {
    not12 = t.numbers.not12;
    not16 = t.numbers.not16;
    is32 = t.numbers.is32;
    secsize_low = t.numbers.secsize_low;
    secsize_high = t.numbers.secsize_high;
    top_low = t.numbers.top_low;
    sectors_high = t.numbers.sectors_high;
  };
  readable = t.readable;
  apart = t.apart;
}

pub with_free-Is32Table : (v : Volume) (n : ℕ) → Is32Table v → Is32Table (with_free n v)
unfolding with_counts
with_free-Is32Table v n t = with_counts-Is32Table v n v.dpb.dpb_cluster v.dpb.dpb_xcluster t

pub with_cluster-Is32Table : (v : Volume) (n : ℕ) → Is32Table v → Is32Table (with_cluster n v)
unfolding with_counts
with_cluster-Is32Table v n t = with_counts-Is32Table v v.dpb.dpb_xnfreeclst n v.dpb.dpb_xcluster t

pub with_xcluster-Is32Table : (v : Volume) (n : ℕ) → Is32Table v → Is32Table (with_xcluster n v)
unfolding with_counts
with_xcluster-Is32Table v n t = with_counts-Is32Table v v.dpb.dpb_xnfreeclst v.dpb.dpb_cluster n t

pub read_Is32Table : (v : Volume) (c : ℕ) → Is32Table v → Is32Table (link_fat v c read_cluster).1
read_Is32Table v c t = elim (after_read32 v c t.numbers) [
  | inl e ↦ subst Is32Table (sym e) t
  | inr (b, there, e) ↦
      subst Is32Table (sym e) (put_block-Is32Table v (entry_sector v.dpb c) (fat_block v.dpb b) t)
]

pub read32-fat_block :
    (v : Volume) (s d : ℕ) (b : Buffer)
    → v.getblock s ≡ some b
    → read32 (put_block v s (fat_block v.dpb b)) d ≡ read32 v d
unfolding put_block fat_block
read32-fat_block v s d b there = elim (Bool-cases (entry_sector v.dpb d == s)) [
  | inl same ↦
      let here = ap v.getblock (==→eq (entry_sector v.dpb d) s same) ∙ there in rw (same, here) refl
  | inr differs ↦ rw differs refl
]

pub read_entry32 :
    (v : Volume) (c d : ℕ) → Is32Table v → entry (link_fat v c read_cluster).1 d ≡ entry v d
read_entry32 v c d t = elim (after_read32 v c t.numbers) [
  | inl e ↦ ap (λ w. entry w d) e
  | inr (b, there, e) ↦
      let s = entry_sector v.dpb c in
      ap (λ w. entry w d) e
      ∙ entry-read32 (put_block v s (fat_block v.dpb b)) d
          (put_block-Is32Table v s (fat_block v.dpb b) t)
      ∙ read32-fat_block v s d b there
      ∙ sym (entry-read32 v d t)
]
