-- ===== src/Fat/Link/Table16.antt =====
-- kernel/fattab.c: on a FAT16 volume a write of an entry is found by a read of it, and by no other.
use native.Mathlib.Nat.{div-add-mod, mod-lt, mod-eq_of_lt, div-le_self}
use burdah_dos_system.Base.{
  ℕ, ◌+◌, ◌*◌, ◌/◌, ◌%◌, ◌≤◌, ◌<◌, ◌≡◌, ◌≢◌, refl, sym, ap, ◌∙◌, inl, inr, Bool, true, false,
  Bool-cases, some, ltb, ◌==◌, ==→eq, if◌then◌else◌, arith,
}
use burdah_dos_system.Fat.Entry.{read_cluster, Bytes, fgetword, fputword, decode16}
use burdah_dos_system.Fat.Entry.Coding.{
  fgetword-fputword, fgetword-fputword_other, fgetword-fputword_before,
}
use burdah_dos_system.Fat.Link.{
  Dpb, Buffer, Volume, is_fat32, is_fat16, is_fat12, put_block, fat_block, max_cluster, refuses,
  sector_entries, entry_place, entry_index, entry_sector, rewrite, mark_dirty, link_fat,
  update_free,
}
use burdah_dos_system.Fat.Link.Frame.{
  with_free, update_free-with_free, answer16, read16, link_fat-read16, link_fat-write16,
}

-- The volume after the write of an entry and before its free clusters are counted again.
abbrev pub over16 : Volume → ℕ → ℕ → Buffer → Volume
over16 v c x b =
    put_block (put_block v (entry_sector v.dpb c) (fat_block v.dpb b)) (entry_sector v.dpb c)
      (rewrite (λ b. fputword b (entry_index v.dpb c * 2) (x % 0x10000)) (fat_block v.dpb b))

pub over16_sector :
    (v : Volume) (c x s : ℕ) (b : Buffer)
    → (over16 v c x b).getblock s ≡ (
        if s == entry_sector v.dpb c
        then some
            (rewrite (λ b. fputword b (entry_index v.dpb c * 2) (x % 0x10000)) (fat_block v.dpb b))
        else v.getblock s)
unfolding put_block
over16_sector v c x s b = ground arith

read16-with_free : (v : Volume) (n c : ℕ) → read16 (with_free n v) c ≡ read16 v c
unfolding refuses max_cluster is_fat32 entry_sector entry_index entry_place sector_entries is_fat12
read16-with_free v n c = refl

over16_dpb : (v : Volume) (c x : ℕ) (b : Buffer) → (over16 v c x b).dpb ≡ v.dpb
unfolding put_block
over16_dpb v c x b = refl

-- A volume whose FAT16 table a write of an entry can be looked at: the kind, and numbers as wide as
-- their fields.
pub record Is16 (v : Volume) : Type 0 where
  pub not12 : is_fat12 v.dpb ≡ false
  pub is16 : is_fat16 v.dpb ≡ true
  pub not32 : is_fat32 v.dpb ≡ false
  pub secsize_low : 2 ≤ v.dpb.dpb_secsize
  pub secsize_high : v.dpb.dpb_secsize < 0x10000
  pub fatstrt_high : v.dpb.dpb_fatstrt < 0x10000

entry_index16 : (v : Volume) (c : ℕ) → Is16 v → entry_index v.dpb c ≡ c % (v.dpb.dpb_secsize / 2)
unfolding entry_index entry_place
entry_index16 v c i =
    let half = v.dpb.dpb_secsize / 2 in
    let small : c % half < half = mod-lt c (omega (arith, i.secsize_low)) in
    rw (i.not12, i.not32) (mod-eq_of_lt (omega (arith, small, i.secsize_high)))

pub entry_sector16 :
    (v : Volume) (c : ℕ)
    → Is16 v
    → c < 0x10000
    → entry_sector v.dpb c ≡ c / (v.dpb.dpb_secsize / 2) + v.dpb.dpb_fatstrt
unfolding entry_sector entry_place
entry_sector16 v c i h =
    let small = div-le_self c (v.dpb.dpb_secsize / 2) in
    rw (i.not12, i.not32) (mod-eq_of_lt (omega (arith, small, h, i.fatstrt_high)))

-- Two entries of the same place in a table are the same.
pub same_place : (n c d : ℕ) → c / n ≡ d / n → c % n ≡ d % n → c ≡ d
same_place n c d q r =
    sym (div-add-mod c n)
    ∙ ap (λ k. n * k + c % n) q
    ∙ ap (λ k. n * (d / n) + k) r
    ∙ div-add-mod d n

fgetword-fputword_apart :
    (b : Bytes) (i j v : ℕ) → i ≢ j → fgetword (fputword b (i * 2) v) (j * 2) ≡ fgetword b (j * 2)
fgetword-fputword_apart b i j v h = elim (Bool-cases (ltb i j)) [
  | inl a ↦ fgetword-fputword_other b (i * 2) (j * 2) v (ground arith)
  | inr a ↦ fgetword-fputword_before b (i * 2) (j * 2) v (ground arith)
]

rewrite-bytes :
    (f : Bytes → Bytes) (d : Dpb) (b : Buffer) → (rewrite f (fat_block d b)).b_buffer ≡ f b.b_buffer
unfolding rewrite mark_dirty fat_block
rewrite-bytes f d b = refl

-- A read on the volume after a write.
over16-read :
    (v : Volume) (c d x : ℕ) (b : Buffer)
    → read16 (over16 v c x b) d
      ≡ answer16 v.dpb
          (if entry_sector v.dpb d == entry_sector v.dpb c
            then some (
                rewrite
                  (λ b. fputword b (entry_index v.dpb c * 2) (x % 0x10000))
                  (fat_block v.dpb b))
            else v.getblock (entry_sector v.dpb d))
          d
unfolding put_block
over16-read v c d x b = ap (λ o. answer16 v.dpb o d) (over16_sector v c x (entry_sector v.dpb d) b)

answer16-rewrite :
    (d : Dpb) (c i w : ℕ) (b : Buffer)
    → refuses d c read_cluster ≡ false
    → answer16 d (some (rewrite (λ b. fputword b i w) (fat_block d b))) c
      ≡ decode16 (fgetword (fputword b.b_buffer i w) (entry_index d c * 2))
unfolding rewrite mark_dirty fat_block
answer16-rewrite d c i w b ok = rw ok refl

answer16-same_bytes :
    (d : Dpb) (c : ℕ) (a b : Buffer)
    → fgetword a.b_buffer (entry_index d c * 2) ≡ fgetword b.b_buffer (entry_index d c * 2)
    → answer16 d (some a) c ≡ answer16 d (some b) c
answer16-same_bytes d c a b h = rw h refl

eq→== : (a b : ℕ) → a ≡ b → (a == b) ≡ true
eq→== a b h = ground arith

read16-over16 :
    (v : Volume) (c x : ℕ) (b : Buffer)
    → refuses v.dpb c read_cluster ≡ false
    → read16 (over16 v c x b) c ≡ decode16 (x % 0x10000)
read16-over16 v c x b ok =
    over16-read v c c x b
    ∙ rw (eq→== (entry_sector v.dpb c) (entry_sector v.dpb c) refl)
        (answer16-rewrite v.dpb c (entry_index v.dpb c * 2) (x % 0x10000) b ok)
    ∙ ap decode16
        (fgetword-fputword b.b_buffer (entry_index v.dpb c * 2) (x % 0x10000) (omega arith))

over16-bytes :
    (v : Volume) (c d x : ℕ) (b : Buffer)
    → entry_index v.dpb c ≢ entry_index v.dpb d
    → fgetword
        (rewrite
          (λ b. fputword b (entry_index v.dpb c * 2) (x % 0x10000))
          (fat_block v.dpb b)).b_buffer
        (entry_index v.dpb d * 2)
      ≡ fgetword b.b_buffer (entry_index v.dpb d * 2)
unfolding rewrite mark_dirty fat_block
over16-bytes v c d x b ne =
    fgetword-fputword_apart b.b_buffer (entry_index v.dpb c) (entry_index v.dpb d) (x % 0x10000) ne

entry_index_apart :
    (v : Volume) (c d : ℕ)
    → Is16 v
    → c < 0x10000
    → d < 0x10000
    → c ≢ d
    → entry_sector v.dpb d ≡ entry_sector v.dpb c
    → entry_index v.dpb c ≢ entry_index v.dpb d
entry_index_apart v c d i hc hd ne here = λ e. ne (
    same_place (v.dpb.dpb_secsize / 2) c d
      (omega (arith, entry_sector16 v c i hc, entry_sector16 v d i hd, here))
      (sym (entry_index16 v c i) ∙ e ∙ entry_index16 v d i))

read16-over16_other :
    (v : Volume) (c d x : ℕ) (b : Buffer)
    → Is16 v
    → c < 0x10000
    → d < 0x10000
    → c ≢ d
    → v.getblock (entry_sector v.dpb c) ≡ some b
    → read16 (over16 v c x b) d ≡ read16 v d
read16-over16_other v c d x b i hc hd ne there =
    over16-read v c d x b ∙ elim (Bool-cases (entry_sector v.dpb d == entry_sector v.dpb c)) [
      | inl same ↦
          let here = ==→eq (entry_sector v.dpb d) (entry_sector v.dpb c) same in
          rw same (
            answer16-same_bytes v.dpb d
              (rewrite (λ b. fputword b (entry_index v.dpb c * 2) (x % 0x10000))
                (fat_block v.dpb b))
              b (over16-bytes v c d x b (entry_index_apart v c d i hc hd ne here))
            ∙ ap (λ o. answer16 v.dpb o d) (sym (ap v.getblock here ∙ there)))
      | inr differs ↦ rw differs refl
    ]

readable16 :
    (v : Volume) (c x : ℕ)
    → Is16 v
    → refuses v.dpb c x ≡ false
    → (c < 0x10000) × (refuses v.dpb c read_cluster ≡ false)
unfolding refuses max_cluster is_fat16
readable16 v c x i ok = (ground (arith, i.is16, i.not32), ground (arith, i.is16, i.not32))

read16-refused : (v : Volume) (c : ℕ) → refuses v.dpb c read_cluster ≡ true → read16 v c ≡ 1
read16-refused v c h = rw h refl

link_fat-over16 :
    (v : Volume) (n c d x : ℕ) (b : Buffer)
    → Is16 v
    → (link_fat (with_free n (over16 v c x b)) d read_cluster).0 ≡ read16 (over16 v c x b) d
unfolding put_block is_fat12 is_fat16
link_fat-over16 v n c d x b i =
    link_fat-read16 (with_free n (over16 v c x b)) d i.not12 i.is16
    ∙ read16-with_free (over16 v c x b) n d

over16-with_free :
    (v : Volume) (c x : ℕ) (b : Buffer) (was_free : Bool)
    → Is16 v
    → update_free x was_free (over16 v c x b)
      ≡ with_free (update_free x was_free (over16 v c x b)).dpb.dpb_xnfreeclst (over16 v c x b)
unfolding put_block
over16-with_free v c x b was_free i = update_free-with_free x was_free (over16 v c x b) i.not32

others :
    (v : Volume) (c d x : ℕ) (b : Buffer)
    → Is16 v
    → c < 0x10000
    → c ≢ d
    → v.getblock (entry_sector v.dpb c) ≡ some b
    → read16 (over16 v c x b) d ≡ read16 v d
unfolding put_block
others v c d x b i hc ne there = elim (Bool-cases (refuses v.dpb d read_cluster)) [
  | inl refused ↦ read16-refused (over16 v c x b) d refused ∙ sym (read16-refused v d refused)
  | inr ok ↦ read16-over16_other v c d x b i hc ((readable16 v d read_cluster i ok).0) ne there
]

-- The volume after a write that is not refused.
pub written16 :
    (v : Volume) (c x : ℕ) (b : Buffer)
    → Is16 v
    → refuses v.dpb c x ≡ false
    → x % 0x10000 ≢ read_cluster
    → v.getblock (entry_sector v.dpb c) ≡ some b
    → (link_fat v c x).1 ≡ with_free (link_fat v c x).1.dpb.dpb_xnfreeclst (over16 v c x b)
written16 v c x b i ok nr there =
    let wrote = link_fat-write16 v c x b i.not12 i.is16 ok nr there in
    let was_free = fgetword b.b_buffer (entry_index v.dpb c * 2) == 0 in
    let after = ap (λ r. r.1) wrote in
    after
    ∙ over16-with_free v c x b was_free i
    ∙ ap (λ w. with_free w.dpb.dpb_xnfreeclst (over16 v c x b)) (sym after)

-- On a FAT16 volume whose sectors have 2 bytes at least and whose numbers are within their fields, a
-- write of an entry that is not refused, where the entry's sector can be read and the value is not the
-- one that asks for a read, succeeds; a read of the entry then finds the low 16 bits of the value,
-- decoded; and a read of any other entry answers what it answered before.
pub link_fat-read_over_write :
    (v : Volume) (c d x : ℕ) (b : Buffer)
    → Is16 v
    → refuses v.dpb c x ≡ false
    → x % 0x10000 ≢ read_cluster
    → v.getblock (entry_sector v.dpb c) ≡ some b
    → c ≢ d
    → ((link_fat v c x).0 ≡ 0)
      × ((link_fat (link_fat v c x).1 c read_cluster).0 ≡ decode16 (x % 0x10000))
      × ((link_fat (link_fat v c x).1 d read_cluster).0 ≡ (link_fat v d read_cluster).0)
link_fat-read_over_write v c d x b i ok nr there ne =
    let wrote = link_fat-write16 v c x b i.not12 i.is16 ok nr there in
    let (hc, reads) = readable16 v c x i ok in
    let n = (link_fat v c x).1.dpb.dpb_xnfreeclst in
    let after = written16 v c x b i ok nr there in
    (
      ap (λ r. r.0) wrote,
      ap (λ w. (link_fat w c read_cluster).0) after
          ∙ link_fat-over16 v n c c x b i
          ∙ read16-over16 v c x b reads,
      ap (λ w. (link_fat w d read_cluster).0) after
          ∙ link_fat-over16 v n c d x b i
          ∙ others v c d x b i hc ne there
          ∙ sym (link_fat-read16 v d i.not12 i.is16),
    )
