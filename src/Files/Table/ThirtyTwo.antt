-- ===== src/Files/Table/ThirtyTwo.antt =====
-- kernel/fattab.c: the table of a FAT32 volume whose sectors can be read, and whose sector of the
-- counts is apart from it, is a `Table`.
use burdah_dos_system.Base.{
  ℕ, ◌+◌, ◌-◌, ◌*◌, ◌%◌, ◌≡◌, ◌≢◌, ◌⊎◌, refl, ◌∙◌, sym, ap, subst, ◌==◌, ◌||◌, not, Bool,
  Bool-cases, Option-cases, inl, inr, true, false, arith, if◌then◌else◌,
}
use burdah_dos_system.Fat.Entry.{free, read_cluster, decode32, fgetlong}
use burdah_dos_system.Fat.Link.{
  Buffer, Volume, is_fat32, max_cluster, refuses, entry_sector, entry_index, put_block, fat_block,
  link_fat, update_free, write_fsinfo, fsinfo_block, xunknclstfree, entry_place, sector_entries,
  is_fat12, no_mirroring,
}
use burdah_dos_system.Fat.Link.Frame.{with_free, Readable}
use burdah_dos_system.Files.{with_cluster, with_xcluster}
use burdah_dos_system.Files.Table.{entry, InRange, Writable, Table}
use burdah_dos_system.Files.Table.Sixteen.{accepts}
use burdah_dos_system.Files.Table.Reads32.{
  Is32Table, top32, read32, entry-read32, read_dpb32, put_block-Is32Table, with_free-Is32Table,
  with_cluster-Is32Table, with_xcluster-Is32Table, read_Is32Table, read_entry32,
}
use burdah_dos_system.Files.Table.Over32.{
  over32, new_block, link_fat-write32, read32-over32, read32-over32_other,
}

fsinfo-cases :
    (v : Volume)
    → (write_fsinfo v ≡ v) ⊎ ((b : Buffer) × (write_fsinfo v ≡ put_block v v.dpb.dpb_xfsinfosec b))
unfolding write_fsinfo
fsinfo-cases v = elim (Bool-cases (v.dpb.dpb_xfsinfosec == 0xffff)) [
  | inl a ↦ inl (rw a refl)
  | inr a ↦ elim (Option-cases (v.getblock v.dpb.dpb_xfsinfosec)) [
    | inl none_there ↦ inl (rw (a, none_there) refl)
    | inr (b, there) ↦ inr (fsinfo_block v.dpb b, rw (a, there) refl)
  ]
]

fsinfo-dpb : (v : Volume) → (write_fsinfo v).dpb ≡ v.dpb
unfolding put_block
fsinfo-dpb v = elim (fsinfo-cases v) [ inl e ↦ ap (λ w. w.dpb) e | inr (b, e) ↦ ap (λ w. w.dpb) e ]

fsinfo-Is32Table : (v : Volume) → Is32Table v → Is32Table (write_fsinfo v)
fsinfo-Is32Table v t = elim (fsinfo-cases v) [
  | inl e ↦ subst Is32Table (sym e) t
  | inr (b, e) ↦ subst Is32Table (sym e) (put_block-Is32Table v v.dpb.dpb_xfsinfosec b t)
]

read32-refused : (v : Volume) (d : ℕ) → refuses v.dpb d read_cluster ≡ true → read32 v d ≡ 1
read32-refused v d h = rw h refl

accepted-InRange : (v : Volume) (d : ℕ) → refuses v.dpb d read_cluster ≡ false → InRange v d
unfolding refuses
accepted-InRange v d ok = ground arith

read32-put_block :
    (v : Volume) (s d : ℕ) (b : Buffer)
    → entry_sector v.dpb d ≢ s
    → read32 (put_block v s b) d ≡ read32 v d
unfolding put_block
read32-put_block v s d b ne =
    let h : (entry_sector v.dpb d == s) ≡ false = ground (arith, ne) in rw h refl

refused_both :
    (v : Volume) (s d : ℕ) (b : Buffer)
    → refuses v.dpb d read_cluster ≡ true
    → read32 (put_block v s b) d ≡ read32 v d
unfolding put_block
refused_both v s d b no_ = rw no_ refl

refused_put :
    (v : Volume) (s d : ℕ) (b : Buffer)
    → refuses v.dpb d read_cluster ≡ true
    → refuses (put_block v s b).dpb d read_cluster ≡ true
unfolding put_block
refused_put v s d b no_ = no_

read32-fsinfo : (v : Volume) (d : ℕ) → Is32Table v → read32 (write_fsinfo v) d ≡ read32 v d
read32-fsinfo v d t = elim (fsinfo-cases v) [
  | inl e ↦ ap (λ w. read32 w d) e
  | inr (b, e) ↦ ap (λ w. read32 w d) e ∙ elim (Bool-cases (refuses v.dpb d read_cluster)) [
    | inl no_ ↦ refused_both v v.dpb.dpb_xfsinfosec d b no_
    | inr ok ↦
        let r = accepted-InRange v d ok in
        read32-put_block v v.dpb.dpb_xfsinfosec d b (t.apart d r.0 r.1)
  ]
]

read32-counts :
    (v : Volume) (n d : ℕ)
    → (read32 (with_free n v) d ≡ read32 v d)
      × (read32 (with_cluster n v) d ≡ read32 v d)
      × (read32 (with_xcluster n v) d ≡ read32 v d)
unfolding refuses max_cluster is_fat32 entry_sector entry_index entry_place sector_entries is_fat12
    no_mirroring
read32-counts v n d = (refl, refl, refl)

-- Counting the free clusters again.
record Counted (u w : Volume) : Type 0 where
  pub table : Is32Table w
  pub entries : (d : ℕ) → read32 w d ≡ read32 u d
  pub numbers : w.dpb ≡ record (u.dpb) { dpb_xnfreeclst = w.dpb.dpb_xnfreeclst }

with_free-Counted : (u : Volume) (n : ℕ) → Is32Table u → Counted u (with_free n u)
with_free-Counted u n t = record {
  table = with_free-Is32Table u n t;
  entries = λ d. (read32-counts u n d).0;
  numbers = refl;
}

same-Counted : (u : Volume) → Is32Table u → Counted u u
same-Counted u t = record { table = t; entries = λ d. refl; numbers = refl }

fsinfo-Counted : (u w : Volume) → Counted u w → Counted u (write_fsinfo w)
fsinfo-Counted u w c =
    let e = fsinfo-dpb w in
    record {
      table = fsinfo-Is32Table w c.table;
      entries = λ d. read32-fsinfo w d c.table ∙ c.entries d;
      numbers =
          subst (λ p. p ≡ record (u.dpb) { dpb_xnfreeclst = p.dpb_xnfreeclst }) (sym e) c.numbers;
    }

update_free-Counted :
    (x : ℕ) (was_free : Bool) (u : Volume) → Is32Table u → Counted u (update_free x was_free u)
unfolding update_free
update_free-Counted x was_free u t =
    let n = u.dpb.dpb_xnfreeclst in
    let is32 = t.numbers.is32 in
    let adjust = if not was_free then 1 else if not (x == free) then 0xffffffff else 0 in
    let m = n - n % 0x10000 + (n % 0x10000 + adjust) % 0x10000 in
    elim (Bool-cases (x == free || was_free)) [
      | inr kept ↦ rw kept (same-Counted u t)
      | inl changes ↦ elim (Bool-cases (n == xunknclstfree)) [
        | inr known ↦
            rw (changes, is32, known)
              (fsinfo-Counted u (with_free ((n + adjust) % 0x100000000) u)
                (with_free-Counted u ((n + adjust) % 0x100000000) t))
        | inl unknown ↦ elim (Bool-cases (n % 0x10000 == 0xffff)) [
          | inr low ↦ rw (changes, is32, unknown, low) (with_free-Counted u m t)
          | inl none_low ↦ rw (changes, is32, unknown, none_low) (same-Counted u t)
        ]
      ]
    ]

readable32 : (v : Volume) (c : ℕ) → InRange v c → refuses v.dpb c read_cluster ≡ false
unfolding refuses
readable32 v c range = ground arith

no_read : (v : Volume) (x : ℕ) → Writable v x → x ≢ read_cluster
no_read v x (inl e) = λ h. omega arith
no_read v x (inr (inl e)) = λ h. omega arith
no_read v x (inr (inr r)) = λ h. omega arith

decoded32 : (v : Volume) (x : ℕ) → Is32Table v → Writable v x → decode32 (x % 0x10000000) ≡ x
unfolding decode32
decoded32 v x t (inl e) = rw e refl
decoded32 v x t (inr (inl e)) = rw e refl
decoded32 v x t (inr (inr r)) = ground (arith, top32 v t.numbers, t.numbers.top_low)

module _ (v : Volume) (c x : ℕ) (t : Is32Table v) (range : InRange v c) (w : Writable v x) where
  the_buffer : Readable v (entry_sector v.dpb c)
  the_buffer = t.readable c range.0 range.1

  over-Is32Table : Is32Table (over32 v c x the_buffer.0)
  over-Is32Table =
      let s = entry_sector v.dpb c in
      let b = fat_block v.dpb the_buffer.0 in
      put_block-Is32Table (put_block v s b) s (new_block v c x the_buffer.0)
        (put_block-Is32Table v s b t)

  abbrev was_free : Bool
  was_free = fgetlong the_buffer.0.b_buffer (entry_index v.dpb c * 4) % 0x10000000 == 0

  wrote : link_fat v c x ≡ (0, update_free x was_free (over32 v c x the_buffer.0))
  wrote =
      link_fat-write32 v c x the_buffer.0 t.numbers (accepts v c x range w) (no_read v x w)
        the_buffer.1

  written : Counted (over32 v c x the_buffer.0) (link_fat v c x).1
  written =
      subst (Counted (over32 v c x the_buffer.0)) (sym (ap (λ r. r.1) wrote))
        (update_free-Counted x was_free (over32 v c x the_buffer.0) over-Is32Table)

  write_success32 : (link_fat v c x).0 ≡ 0
  write_success32 = ap (λ r. r.0) wrote

  write_Is32Table : Is32Table (link_fat v c x).1
  write_Is32Table = written.table

  write_entry32 : entry (link_fat v c x).1 c ≡ x
  write_entry32 =
      entry-read32 (link_fat v c x).1 c written.table
      ∙ written.entries c
      ∙ read32-over32 v c x the_buffer.0 (readable32 v c range)
      ∙ decoded32 v x t w

  write_other32 : (d : ℕ) → c ≢ d → entry (link_fat v c x).1 d ≡ entry v d
  write_other32 d ne =
      let e = top32 v t.numbers in
      entry-read32 (link_fat v c x).1 d written.table
      ∙ written.entries d
      ∙ elim (Bool-cases (refuses v.dpb d read_cluster)) [
        | inl no_ ↦
            refused_both (put_block v (entry_sector v.dpb c) (fat_block v.dpb the_buffer.0))
              (entry_sector v.dpb c) d (new_block v c x the_buffer.0)
              (refused_put v (entry_sector v.dpb c) d (fat_block v.dpb the_buffer.0) no_)
            ∙ refused_both v (entry_sector v.dpb c) d (fat_block v.dpb the_buffer.0) no_
        | inr ok ↦
            let r = accepted-InRange v d ok in
            read32-over32_other v c d x the_buffer.0 t.numbers (omega (arith, range.1, e))
              (omega (arith, r.1, e)) ne the_buffer.1
      ]
      ∙ sym (entry-read32 v d t)

  write_dpb32 :
      (link_fat v c x).1.dpb
      ≡ record (v.dpb) { dpb_xnfreeclst = (link_fat v c x).1.dpb.dpb_xnfreeclst }
  unfolding put_block
  write_dpb32 = written.numbers

-- The table of FAT32 volumes.
pub table32 : Table
table32 = record {
  IsTable = Is32Table;
  top_small = λ v t. omega (arith, top32 v t.numbers, t.numbers.top_low);
  top_word = λ v t not32. absurd (both v t not32);
  read_IsTable = read_Is32Table;
  read_entry = read_entry32;
  read_dpb = read_dpb32;
  write_success = write_success32;
  write_IsTable = write_Is32Table;
  write_entry = write_entry32;
  write_other = λ v c d x t range w ne. write_other32 v c x t range w d ne;
  write_dpb = write_dpb32;
  cluster_IsTable = with_cluster-Is32Table;
  cluster_entry = λ v n d t.
      entry-read32 (with_cluster n v) d (with_cluster-Is32Table v n t)
      ∙ (read32-counts v n d).1
      ∙ sym (entry-read32 v d t);
  xcluster_IsTable = with_xcluster-Is32Table;
  xcluster_entry = λ v n d t.
      entry-read32 (with_xcluster n v) d (with_xcluster-Is32Table v n t)
      ∙ (read32-counts v n d).2
      ∙ sym (entry-read32 v d t);
  free_IsTable = with_free-Is32Table;
  free_entry = λ v n d t.
      entry-read32 (with_free n v) d (with_free-Is32Table v n t)
      ∙ (read32-counts v n d).0
      ∙ sym (entry-read32 v d t);
  fsinfo_IsTable = λ v is32 t. fsinfo-Is32Table v t;
  fsinfo_entry = λ v d is32 t.
      entry-read32 (write_fsinfo v) d (fsinfo-Is32Table v t)
      ∙ read32-fsinfo v d t
      ∙ sym (entry-read32 v d t);
  fsinfo_dpb = fsinfo-dpb;
}
  where
    both : (v : Volume) → Is32Table v → is_fat32 v.dpb ≡ false → ⊥
    both v t not32 = ground (arith, t.numbers.is32)

pub Is32Table-IsTable : (v : Volume) → Is32Table v → table32.IsTable v
unfolding table32
Is32Table-IsTable v t = t
