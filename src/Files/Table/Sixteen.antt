-- ===== src/Files/Table/Sixteen.antt =====
-- kernel/fattab.c: the table of a FAT16 volume whose sectors can be read is a `Table`.
use burdah_dos_system.Files.Table.Reads16.{
  Is16Table, top16, entry-read16, read_dpb16, put_block-Is16Table, with_free-Is16Table,
  with_cluster-Is16Table, with_xcluster-Is16Table, read_Is16Table, read_entry16,
}
use burdah_dos_system.Base.{
  ℕ, ◌%◌, ◌*◌, ◌≡◌, ◌≢◌, refl, ◌∙◌, sym, ap, subst, true, false, ◌==◌, Bool-cases, Option-cases,
  inl, inr, arith,
}
use burdah_dos_system.Fat.Entry.{read_cluster, decode16, fputword}
use burdah_dos_system.Fat.Link.{
  Volume, is_fat32, is_fat12, max_cluster, link_fat, write_fsinfo, refuses, entry_sector, put_block,
  fat_block, entry_index, rewrite, entry_place, sector_entries,
}
use burdah_dos_system.Fat.Link.Frame.{with_free, Readable, read16}
use burdah_dos_system.Fat.Link.Table16.{link_fat-read_over_write, over16, written16}
use burdah_dos_system.Files.{with_cluster, with_xcluster}
use burdah_dos_system.Files.Table.{entry, InRange, Writable, Table}

pub accepts : (v : Volume) (c x : ℕ) → InRange v c → Writable v x → refuses v.dpb c x ≡ false
unfolding refuses
accepts v c x range (inl e) = ground (arith, e)
accepts v c x range (inr (inl e)) = ground (arith, e)
accepts v c x range (inr (inr r)) = ground arith

no_read : (v : Volume) (x : ℕ) → Is16Table v → Writable v x → x % 0x10000 ≢ read_cluster
no_read v x t (inl e) = λ h. omega arith
no_read v x t (inr (inl e)) = λ h. omega arith
no_read v x t (inr (inr r)) = λ h. omega (arith, top16 v t.numbers)

decoded : (v : Volume) (x : ℕ) → Is16Table v → Writable v x → decode16 (x % 0x10000) ≡ x
unfolding decode16
decoded v x t (inl e) = rw e refl
decoded v x t (inr (inl e)) = rw e refl
decoded v x t (inr (inr r)) = ground (arith, top16 v t.numbers)

module _ (v : Volume) (c x : ℕ) (t : Is16Table v) (range : InRange v c) (w : Writable v x) where
  the_buffer : Readable v (entry_sector v.dpb c)
  the_buffer = t.readable c range.0 range.1

  over_write :
      (d : ℕ)
      → c ≢ d
      → ((link_fat v c x).0 ≡ 0)
        × (entry (link_fat v c x).1 c ≡ decode16 (x % 0x10000))
        × (entry (link_fat v c x).1 d ≡ entry v d)
  over_write d ne =
      link_fat-read_over_write v c d x the_buffer.0 t.numbers (accepts v c x range w)
        (no_read v x t w) the_buffer.1 ne

  written :
      (link_fat v c x).1
      ≡ with_free (link_fat v c x).1.dpb.dpb_xnfreeclst (over16 v c x the_buffer.0)
  written =
      written16 v c x the_buffer.0 t.numbers (accepts v c x range w) (no_read v x t w) the_buffer.1

  write_success16 : (link_fat v c x).0 ≡ 0
  write_success16 = (over_write 0 (λ e. omega (arith, e))).0

  write_entry16 : entry (link_fat v c x).1 c ≡ x
  write_entry16 = (over_write 0 (λ e. omega (arith, e))).1 ∙ decoded v x t w

  write_Is16Table : Is16Table (link_fat v c x).1
  write_Is16Table =
      let s = entry_sector v.dpb c in
      let b = fat_block v.dpb the_buffer.0 in
      subst Is16Table (sym written) (
        with_free-Is16Table (over16 v c x the_buffer.0) (link_fat v c x).1.dpb.dpb_xnfreeclst (
          put_block-Is16Table (put_block v s b) s
            (rewrite (λ b. fputword b (entry_index v.dpb c * 2) (x % 0x10000)) b)
            (put_block-Is16Table v s b t)))

  write_dpb16 :
      (link_fat v c x).1.dpb
      ≡ record (v.dpb) { dpb_xnfreeclst = (link_fat v c x).1.dpb.dpb_xnfreeclst }
  unfolding put_block
  write_dpb16 = ap (λ w. w.dpb) written

read16-counts :
    (v : Volume) (n d : ℕ)
    → (read16 (with_free n v) d ≡ read16 v d)
      × (read16 (with_cluster n v) d ≡ read16 v d)
      × (read16 (with_xcluster n v) d ≡ read16 v d)
unfolding refuses max_cluster is_fat32 entry_sector entry_index entry_place sector_entries is_fat12
read16-counts v n d = (refl, refl, refl)

write_fsinfo-dpb : (v : Volume) → (write_fsinfo v).dpb ≡ v.dpb
unfolding write_fsinfo put_block
write_fsinfo-dpb v = elim (Bool-cases (v.dpb.dpb_xfsinfosec == 0xffff)) [
  | inl a ↦ rw a refl
  | inr a ↦ elim (Option-cases (v.getblock v.dpb.dpb_xfsinfosec)) [
    | inl none_there ↦ rw (a, none_there) refl
    | inr (b, there) ↦ rw (a, there) refl
  ]
]

-- The table of FAT16 volumes.
pub table16 : Table
table16 = record {
  IsTable = Is16Table;
  top_small = λ v t. omega (arith, top16 v t.numbers);
  top_word = λ v t not32. omega (arith, top16 v t.numbers);
  read_IsTable = read_Is16Table;
  read_entry = read_entry16;
  read_dpb = read_dpb16;
  write_success = write_success16;
  write_IsTable = write_Is16Table;
  write_entry = write_entry16;
  write_other = λ v c d x t range w ne. (over_write v c x t range w d ne).2;
  write_dpb = write_dpb16;
  cluster_IsTable = with_cluster-Is16Table;
  cluster_entry = λ v n d t.
      entry-read16 (with_cluster n v) d (with_cluster-Is16Table v n t)
      ∙ (read16-counts v n d).1
      ∙ sym (entry-read16 v d t);
  xcluster_IsTable = with_xcluster-Is16Table;
  xcluster_entry = λ v n d t.
      entry-read16 (with_xcluster n v) d (with_xcluster-Is16Table v n t)
      ∙ (read16-counts v n d).2
      ∙ sym (entry-read16 v d t);
  free_IsTable = with_free-Is16Table;
  free_entry = λ v n d t.
      entry-read16 (with_free n v) d (with_free-Is16Table v n t)
      ∙ (read16-counts v n d).0
      ∙ sym (entry-read16 v d t);
  fsinfo_IsTable = λ v is32 t. absurd (no_32 v is32 t);
  fsinfo_entry = λ v d is32 t. absurd (no_32 v is32 t);
  fsinfo_dpb = write_fsinfo-dpb;
}
  where
    no_32 : (v : Volume) → is_fat32 v.dpb ≡ true → Is16Table v → ⊥
    no_32 v is32 t = ground (arith, t.numbers.not32)

pub Is16Table-IsTable : (v : Volume) → Is16Table v → table16.IsTable v
unfolding table16
Is16Table-IsTable v t = t
