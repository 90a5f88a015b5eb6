-- ===== src/Files/Table/Reads16.antt =====
-- kernel/fattab.c: reads of the table of a FAT16 volume whose sectors can be read.
use burdah_dos_system.Base.{
  ℕ, ◌≤◌, ◌≡◌, ◌⊎◌, refl, ◌∙◌, sym, ap, subst, ◌==◌, Bool-cases, Option-cases, inl, inr, some,
  arith, ==→eq,
}
use burdah_dos_system.Fat.Entry.{read_cluster}
use burdah_dos_system.Fat.Link.{
  Buffer, Volume, is_fat32, is_fat12, is_fat16, max_cluster, link_fat, refuses, entry_sector,
  put_block, get_fat_block, link_fat16, fat_block, entry_place, sector_entries,
}
use burdah_dos_system.Fat.Link.Frame.{with_free, Readable, read16, link_fat-read16}
use burdah_dos_system.Fat.Link.Table16.{Is16}
use burdah_dos_system.Files.{with_cluster, with_xcluster}
use burdah_dos_system.Files.Table.{entry}

-- The entries of all clusters can be read.
pub record Is16Table (v : Volume) : Type 0 where
  pub numbers : Is16 v
  pub readable : (c : ℕ) → 2 ≤ c → c ≤ max_cluster v.dpb → Readable v (entry_sector v.dpb c)

pub top16 : (v : Volume) → Is16 v → max_cluster v.dpb ≤ 65525
unfolding max_cluster is_fat16
top16 v i = ground (arith, i.is16, i.not32)

pub entry-read16 : (v : Volume) (c : ℕ) → Is16Table v → entry v c ≡ read16 v c
entry-read16 v c t = link_fat-read16 v c t.numbers.not12 t.numbers.is16

-- The volume after a read.
pub after_read :
    (v : Volume) (c : ℕ)
    → Is16 v
    → ((link_fat v c read_cluster).1 ≡ v)
      ⊎ ((b : Buffer) × (v.getblock (entry_sector v.dpb c) ≡ some b)
          × ((link_fat v c read_cluster).1
              ≡ put_block v (entry_sector v.dpb c) (fat_block v.dpb b)))
unfolding link_fat get_fat_block link_fat16
after_read v c i = elim (Bool-cases (refuses v.dpb c read_cluster)) [
  | inl a ↦ inl (rw a refl)
  | inr a ↦ elim (Option-cases (v.getblock (entry_sector v.dpb c))) [
    | inl none_there ↦ inl (rw (a, none_there) refl)
    | inr (b, there) ↦ inr (b, there, rw (a, there, i.not12, i.is16) refl)
  ]
]

pub read_dpb16 : (v : Volume) (c : ℕ) → Is16Table v → (link_fat v c read_cluster).1.dpb ≡ v.dpb
unfolding put_block
read_dpb16 v c t = elim (after_read v c t.numbers) [
  | inl e ↦ ap (λ w. w.dpb) e
  | inr (b, there, e) ↦ ap (λ w. w.dpb) e
]

pub put_block-Readable :
    (v : Volume) (s d : ℕ) (b : Buffer) → Readable v d → Readable (put_block v s b) d
unfolding put_block
put_block-Readable v s d b (a, there) = elim (Bool-cases (d == s)) [
  | inl same ↦ (b, rw same refl)
  | inr differs ↦ (a, rw differs there)
]

pub put_block-Is16Table :
    (v : Volume) (s : ℕ) (b : Buffer) → Is16Table v → Is16Table (put_block v s b)
unfolding put_block
put_block-Is16Table v s b t = record {
  numbers = record {
    not12 = t.numbers.not12;
    is16 = t.numbers.is16;
    not32 = t.numbers.not32;
    secsize_low = t.numbers.secsize_low;
    secsize_high = t.numbers.secsize_high;
    fatstrt_high = t.numbers.fatstrt_high;
  };
  readable = λ c low high. put_block-Readable v s (entry_sector v.dpb c) b (t.readable c low high);
}

-- The counts and the hints are no part of the table.
unfoldable pub with_counts : (n c x : ℕ) → Volume → Volume
with_counts n c x v = record v {
  dpb = record (v.dpb) { dpb_xnfreeclst = n; dpb_cluster = c; dpb_xcluster = x };
}

pub with_counts-Is16Table : (v : Volume) (n c x : ℕ) → Is16Table v → Is16Table (with_counts n c x v)
unfolding with_counts is_fat12 is_fat16 is_fat32 max_cluster entry_sector entry_place sector_entries
with_counts-Is16Table v n c x t = record {
  numbers = record {
    not12 = t.numbers.not12;
    is16 = t.numbers.is16;
    not32 = t.numbers.not32;
    secsize_low = t.numbers.secsize_low;
    secsize_high = t.numbers.secsize_high;
    fatstrt_high = t.numbers.fatstrt_high;
  };
  readable = t.readable;
}

pub with_free-Is16Table : (v : Volume) (n : ℕ) → Is16Table v → Is16Table (with_free n v)
unfolding with_counts
with_free-Is16Table v n t = with_counts-Is16Table v n v.dpb.dpb_cluster v.dpb.dpb_xcluster t

pub with_cluster-Is16Table : (v : Volume) (n : ℕ) → Is16Table v → Is16Table (with_cluster n v)
unfolding with_counts
with_cluster-Is16Table v n t = with_counts-Is16Table v v.dpb.dpb_xnfreeclst n v.dpb.dpb_xcluster t

pub with_xcluster-Is16Table : (v : Volume) (n : ℕ) → Is16Table v → Is16Table (with_xcluster n v)
unfolding with_counts
with_xcluster-Is16Table v n t = with_counts-Is16Table v v.dpb.dpb_xnfreeclst v.dpb.dpb_cluster n t

pub read_Is16Table : (v : Volume) (c : ℕ) → Is16Table v → Is16Table (link_fat v c read_cluster).1
read_Is16Table v c t = elim (after_read v c t.numbers) [
  | inl e ↦ subst Is16Table (sym e) t
  | inr (b, there, e) ↦
      subst Is16Table (sym e) (put_block-Is16Table v (entry_sector v.dpb c) (fat_block v.dpb b) t)
]

pub read16-fat_block :
    (v : Volume) (s d : ℕ) (b : Buffer)
    → v.getblock s ≡ some b
    → read16 (put_block v s (fat_block v.dpb b)) d ≡ read16 v d
unfolding put_block fat_block
read16-fat_block v s d b there = elim (Bool-cases (entry_sector v.dpb d == s)) [
  | inl same ↦
      let here = ap v.getblock (==→eq (entry_sector v.dpb d) s same) ∙ there in rw (same, here) refl
  | inr differs ↦ rw differs refl
]

pub read_entry16 :
    (v : Volume) (c d : ℕ) → Is16Table v → entry (link_fat v c read_cluster).1 d ≡ entry v d
read_entry16 v c d t = elim (after_read v c t.numbers) [
  | inl e ↦ ap (λ w. entry w d) e
  | inr (b, there, e) ↦
      let s = entry_sector v.dpb c in
      ap (λ w. entry w d) e
      ∙ entry-read16 (put_block v s (fat_block v.dpb b)) d
          (put_block-Is16Table v s (fat_block v.dpb b) t)
      ∙ read16-fat_block v s d b there
      ∙ sym (entry-read16 v d t)
]
