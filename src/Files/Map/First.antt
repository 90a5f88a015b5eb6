-- ===== src/Files/Map/First.antt =====
-- kernel/fatfs.c, `extend` of a file without clusters.
use burdah_dos_system.Files.Map.Cases.{extend_by-full, extend_by-first}
use burdah_dos_system.Files.Map.Extend.{Extended, Full, mark_new, getdstart-setdstart}
use burdah_dos_system.Base.{
  ℕ, ◌≤◌, ◌<◌, ◌≡◌, ◌⊎◌, refl, sym, ap, ◌∙◌, subst, false, inl, inr, arith, [], some,
}
use burdah_dos_system.Fat.Entry.{free, long_last_cluster}
use burdah_dos_system.Fat.Link.{Volume, is_fat32, max_cluster, link_fat}
use burdah_dos_system.Files.{Fnode, getdstart, setdstart}
use burdah_dos_system.Files.Chain.{no_mark}
use burdah_dos_system.Files.Find.{find_fat_free-FoundFree}
use burdah_dos_system.Files.Table.{entry, InRange, Table}
use burdah_dos_system.Files.Table.Steps.{IsDrive, Alike, Wrote}
use burdah_dos_system.Files.Map.{extend_by, extend}

module _ (T : Table) where
  first_cluster :
      (v w : Volume) (n : ℕ)
      → Wrote T v n long_last_cluster w
      → InRange v n
      → entry v n ≡ free
      → Extended T v [] n n w
  first_cluster v w n a range is_free = record {
    drive = a.drive;
    top = a.top;
    kind = a.kind;
    was_free = is_free;
    inside = range;
    chain = record {
      links = (refl, a.here);
      inside = (range.0, subst (λ t. n ≤ t) (sym a.top) range.1, tt);
      distinct = (tt, tt);
    };
    others = λ d out. a.others d (λ q. out.0 (sym q));
  }

  fits :
      (v : Volume) (n : ℕ)
      → IsDrive T v
      → n ≤ max_cluster v.dpb
      → (n < 0x100000000) × (is_fat32 v.dpb ≡ false → n < 0x10000)
  fits v n d high = (
    omega (arith, high, T.top_small v d.table),
    λ not32. omega (arith, high, T.top_word v d.table not32),
  )

  extend_by-Started :
      (v u : Volume) (fnp : Fnode) (n : ℕ)
      → IsDrive T v
      → fnp.f_cluster ≡ free
      → Alike T v u
      → InRange v n
      → entry v n ≡ free
      → (w : Volume) × (extend_by fnp (some (n, u))
          ≡ some (n, record fnp { f_dir = setdstart w.dpb fnp.f_dir n }, w))
        × (getdstart w.dpb (setdstart w.dpb fnp.f_dir n) ≡ n)
        × Extended T v [] n n w
  extend_by-Started v u fnp n d empty alike range is_free =
      let w = (link_fat u n long_last_cluster).1 in
      let (ok, a) = mark_new T v u n alike range in
      let (word, half) = fits w n a.drive (subst (λ t. n ≤ t) (sym a.top) range.1) in
      (
        w,
        extend_by-first fnp n u (no_mark n (max_cluster v.dpb) range.1 (T.top_small v d.table)) ok
            empty,
        getdstart-setdstart w.dpb fnp.f_dir n word half,
        first_cluster v w n a range is_free,
      )

  -- On a drive with a table and at least one cluster, `extend` of a file that has no cluster returns.
  -- If a cluster is free, it answers one, that was free and is then a chain of its own, and makes it
  -- the first cluster of the file; every other entry is as before. If none is free it answers the mark
  -- of the end and changes neither an entry nor the file.
  pub extend-first :
      (v : Volume) (fnp : Fnode)
      → IsDrive T v
      → 2 ≤ max_cluster v.dpb
      → fnp.f_cluster ≡ free
      → (n : ℕ) × (f : Fnode) × (w : Volume) × (extend fnp v ≡ some (n, f, w))
        × (((f ≡ record fnp { f_dir = setdstart w.dpb fnp.f_dir n })
              × (getdstart w.dpb f.f_dir ≡ n)
              × Extended T v [] n n w)
            ⊎ ((n ≡ long_last_cluster) × (f ≡ fnp) × Full T v w))
  unfolding extend
  extend-first v fnp d big empty =
      let (n, u, found, f) = find_fat_free-FoundFree T v d big in
      elim f.result [
        | inl (low, high, is_free, h) ↦
            let (w, e, first, x) =
              extend_by-Started v u fnp n d empty f.alike (low, high) is_free in
            (
              n,
              record fnp { f_dir = setdstart w.dpb fnp.f_dir n },
              w,
              ap (extend_by fnp) found ∙ e,
              inl (refl, first, x),
            )
        | inr (last, full, h) ↦ (
          n,
          fnp,
          u,
          ap (extend_by fnp) found ∙ extend_by-full fnp n u last,
          inr (last, refl, record { alike = f.alike; full = full }),
        )
      ]
