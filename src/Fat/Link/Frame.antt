-- ===== src/Fat/Link/Frame.antt =====
-- kernel/fattab.c: what a write through `link_fat` changes and what a read finds afterwards.
use burdah_dos_system.Base.{
  ℕ, ◌*◌, ◌%◌, ◌≡◌, ◌≢◌, refl, inl, inr, Bool, true, false, ◌||◌, Bool-cases, Option, some, none,
  Option-cases, ◌==◌, if◌then◌else◌, arith,
}
use burdah_dos_system.Fat.Entry.{read_cluster, fgetword, fputword, decode16}
use burdah_dos_system.Fat.Link.{
  Dpb, Buffer, Volume, is_fat32, is_fat16, is_fat12, put_block, fat_block, get_fat_block, refuses,
  entry_index, entry_sector, rewrite, update_free, link_fat16, link_fat,
}

-- The volume can read the sector of an entry.
abbrev pub Readable : Volume → ℕ → Type 0
Readable v sec = (b : Buffer) × (v.getblock sec ≡ some b)

-- The volume with another count of free clusters.
abbrev pub with_free : ℕ → Volume → Volume
with_free n v = record v { dpb = record (v.dpb) { dpb_xnfreeclst = n } }

-- Off FAT32, counting the free clusters changes nothing but the count.
pub update_free-with_free :
    (x : ℕ) (free : Bool) (v : Volume)
    → is_fat32 v.dpb ≡ false
    → update_free x free v ≡ with_free (update_free x free v).dpb.dpb_xnfreeclst v
unfolding update_free
update_free-with_free x free v h = elim (Bool-cases (x == 0 || free)) [
  | inl a ↦ elim (Bool-cases (v.dpb.dpb_xnfreeclst % 0x10000 == 0xffff)) [
    | inl b ↦ rw (h, a, b) refl
    | inr b ↦ rw (h, a, b) refl
  ]
  | inr a ↦ rw (h, a) refl
]

-- What a read of an entry of a FAT16 volume answers, from the buffer of the entry's sector.
abbrev pub answer16 : Dpb → Option Buffer → ℕ → ℕ
answer16 d found c =
    if refuses d c read_cluster
    then 1
    else elim found [ none ↦ 1 | some b ↦ decode16 (fgetword b.b_buffer (entry_index d c * 2)) ]

abbrev pub read16 : Volume → ℕ → ℕ
read16 v c = answer16 v.dpb (v.getblock (entry_sector v.dpb c)) c

pub link_fat-read16 :
    (v : Volume) (c : ℕ)
    → is_fat12 v.dpb ≡ false
    → is_fat16 v.dpb ≡ true
    → (link_fat v c read_cluster).0 ≡ read16 v c
unfolding link_fat get_fat_block link_fat16 fat_block put_block
link_fat-read16 v c h12 h16 = elim (Bool-cases (refuses v.dpb c read_cluster)) [
  | inl a ↦ rw a refl
  | inr a ↦ elim (Option-cases (v.getblock (entry_sector v.dpb c))) [
    | inl none_there ↦ rw (a, none_there) refl
    | inr (b, there) ↦ rw (a, there, h12, h16) refl
  ]
]

pub link_fat-write16 :
    (v : Volume) (c x : ℕ) (b : Buffer)
    → is_fat12 v.dpb ≡ false
    → is_fat16 v.dpb ≡ true
    → refuses v.dpb c x ≡ false
    → x % 0x10000 ≢ read_cluster
    → v.getblock (entry_sector v.dpb c) ≡ some b
    → link_fat v c x ≡ (
      0,
      update_free x (fgetword b.b_buffer (entry_index v.dpb c * 2) == 0) (
          put_block
            (put_block v (entry_sector v.dpb c) (fat_block v.dpb b))
            (entry_sector v.dpb c)
            (rewrite
              (λ b. fputword b (entry_index v.dpb c * 2) (x % 0x10000))
              (fat_block v.dpb b))),
    )
unfolding link_fat get_fat_block link_fat16 fat_block put_block
link_fat-write16 v c x b h12 h16 ok nr there =
    let wr : (x % 0x10000 == read_cluster) ≡ false = ground arith in
    rw (ok, there, h12, h16, wr) refl
