-- ===== src/Files/Table.antt =====
-- What kernel/fatfs.c relies on of the allocation table: kernel/fattab.c, `link_fat`.
pub mod Sixteen
pub mod Steps
pub mod Hints
pub mod Reads16
pub mod Reads32
pub mod Over32
pub mod ThirtyTwo
mod Tests
use burdah_dos_system.Base.{
  ℕ, ◌%◌, ◌≤◌, ◌<◌, ◌≡◌, ◌≢◌, ◌⊎◌, refl, ◌∙◌, true, false, ltb, leb, ◌||◌, ◌&&◌, Bool-cases, inl,
  inr, if◌then◌else◌, arith,
}
use burdah_dos_system.Fat.Entry.{free, read_cluster, long_last_cluster, long_bad}
use burdah_dos_system.Fat.Link.{
  Dpb, Volume, is_fat32, max_cluster, link_fat, next_cluster, is_free_cluster, write_fsinfo,
  refuses,
}
use burdah_dos_system.Fat.Link.Frame.{with_free}
use burdah_dos_system.Files.{with_cluster, with_xcluster}

-- What a read of an entry answers.
abbrev pub entry : Volume → ℕ → ℕ
entry v c = (link_fat v c read_cluster).0

-- A cluster of the volume.
abbrev pub InRange : Volume → ℕ → Type 0
InRange v c = (2 ≤ c) × (c ≤ max_cluster v.dpb)

-- A value that the routines on files write into an entry.
abbrev pub Writable : Volume → ℕ → Type 0
Writable v x = (x ≡ free) ⊎ (x ≡ long_last_cluster) ⊎ InRange v x

-- The parameters of the volume but its counts and hints.
pub record SameSize (v w : Volume) : Type 0 where
  pub top : max_cluster w.dpb ≡ max_cluster v.dpb
  pub kind : is_fat32 w.dpb ≡ is_fat32 v.dpb

-- The operations of a table that can be read and written everywhere, by their laws: a read changes no
-- entry, a write changes one, and the counts and hints of the drive are no part of the table.
pub record Table : Type 1 where
  pub IsTable : Volume → Type 0
  pub top_small : (v : Volume) → IsTable v → max_cluster v.dpb < long_bad
  pub top_word : (v : Volume) → IsTable v → is_fat32 v.dpb ≡ false → max_cluster v.dpb < 0x10000
  pub read_IsTable : (v : Volume) (c : ℕ) → IsTable v → IsTable (link_fat v c read_cluster).1
  pub read_entry :
      (v : Volume) (c d : ℕ) → IsTable v → entry (link_fat v c read_cluster).1 d ≡ entry v d
  pub read_dpb : (v : Volume) (c : ℕ) → IsTable v → (link_fat v c read_cluster).1.dpb ≡ v.dpb
  pub write_success :
      (v : Volume) (c x : ℕ) → IsTable v → InRange v c → Writable v x → (link_fat v c x).0 ≡ 0
  pub write_IsTable :
      (v : Volume) (c x : ℕ) → IsTable v → InRange v c → Writable v x → IsTable (link_fat v c x).1
  pub write_entry :
      (v : Volume) (c x : ℕ)
      → IsTable v
      → InRange v c
      → Writable v x
      → entry (link_fat v c x).1 c ≡ x
  pub write_other :
      (v : Volume) (c d x : ℕ)
      → IsTable v
      → InRange v c
      → Writable v x
      → c ≢ d
      → entry (link_fat v c x).1 d ≡ entry v d
  pub write_dpb :
      (v : Volume) (c x : ℕ)
      → IsTable v
      → InRange v c
      → Writable v x
      → (link_fat v c x).1.dpb
        ≡ record (v.dpb) { dpb_xnfreeclst = (link_fat v c x).1.dpb.dpb_xnfreeclst }
  pub cluster_IsTable : (v : Volume) (n : ℕ) → IsTable v → IsTable (with_cluster n v)
  pub cluster_entry : (v : Volume) (n d : ℕ) → IsTable v → entry (with_cluster n v) d ≡ entry v d
  pub xcluster_IsTable : (v : Volume) (n : ℕ) → IsTable v → IsTable (with_xcluster n v)
  pub xcluster_entry : (v : Volume) (n d : ℕ) → IsTable v → entry (with_xcluster n v) d ≡ entry v d
  pub free_IsTable : (v : Volume) (n : ℕ) → IsTable v → IsTable (with_free n v)
  pub free_entry : (v : Volume) (n d : ℕ) → IsTable v → entry (with_free n v) d ≡ entry v d
  pub fsinfo_IsTable : (v : Volume) → is_fat32 v.dpb ≡ true → IsTable v → IsTable (write_fsinfo v)
  pub fsinfo_entry :
      (v : Volume) (d : ℕ)
      → is_fat32 v.dpb ≡ true
      → IsTable v
      → entry (write_fsinfo v) d ≡ entry v d
  pub fsinfo_dpb : (v : Volume) → (write_fsinfo v).dpb ≡ v.dpb
