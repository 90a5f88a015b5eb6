-- ===== src/Files/Map/Cases.antt =====
-- kernel/fatfs.c: the cases of the steps of `extend`, `map_cluster` and `shrink_file`.
use burdah_dos_system.Base.{
  ℕ, ◌≤◌, ◌<◌, ◌≡◌, ◌≢◌, refl, ◌∙◌, false, ◌==◌, not, if◌then◌else◌, arith, some, leb,
}
use burdah_dos_system.Fat.Entry.{free, long_last_cluster, long_bad}
use burdah_dos_system.Fat.Link.{Volume, link_fat, next_cluster}
use burdah_dos_system.Files.{Fnode, setdstart, wipe_out_clusters}
use burdah_dos_system.Files.Chain.{no_mark}
use burdah_dos_system.Files.Table.Steps.{follow}
use burdah_dos_system.Files.Map.{
  hang_on, extend_by, extend, Mode, xfr_write, success, de_seek, Answer, advance, map_end,
  map_round, and_then, de_access, de_hndldskfull, Flush, flushed, cut_off, shrink_at, grown,
}

pub extend_by-step :
    (fnp : Fnode) (n : ℕ) (v : Volume)
    → extend_by fnp (some (n, v)) ≡ (
        if n == long_last_cluster
        then some (n, fnp, v)
        else if not ((link_fat v n long_last_cluster).0 == 0)
        then some (long_last_cluster, fnp, (link_fat v n long_last_cluster).1)
        else if fnp.f_cluster == free
        then some (
          n,
          record fnp { f_dir = setdstart (link_fat v n long_last_cluster).1.dpb fnp.f_dir n },
          (link_fat v n long_last_cluster).1,
        )
        else hang_on n fnp (link_fat v n long_last_cluster).1)
unfolding extend_by
extend_by-step fnp n v = refl

pub extend_by-full :
    (fnp : Fnode) (n : ℕ) (v : Volume)
    → n ≡ long_last_cluster
    → extend_by fnp (some (n, v)) ≡ some (n, fnp, v)
extend_by-full fnp n v last = extend_by-step fnp n v ∙ ground (arith, last)

pub extend_by-hang :
    (fnp : Fnode) (n : ℕ) (v : Volume)
    → (n == long_last_cluster) ≡ false
    → (link_fat v n long_last_cluster).0 ≡ 0
    → (fnp.f_cluster == free) ≡ false
    → extend_by fnp (some (n, v)) ≡ hang_on n fnp (link_fat v n long_last_cluster).1
extend_by-hang fnp n v a ok b = extend_by-step fnp n v ∙ ground (arith, a, ok, b)

pub extend_by-first :
    (fnp : Fnode) (n : ℕ) (v : Volume)
    → (n == long_last_cluster) ≡ false
    → (link_fat v n long_last_cluster).0 ≡ 0
    → fnp.f_cluster ≡ free
    → extend_by fnp (some (n, v))
      ≡ some (
        n,
        record fnp { f_dir = setdstart (link_fat v n long_last_cluster).1.dpb fnp.f_dir n },
        (link_fat v n long_last_cluster).1,
      )
extend_by-first fnp n v a ok b = extend_by-step fnp n v ∙ ground (arith, a, ok, b)

pub hang_on-step :
    (n : ℕ) (fnp : Fnode) (v : Volume)
    → hang_on n fnp v ≡ (
        if not ((next_cluster v fnp.f_cluster).0 == long_last_cluster)
        then some (long_last_cluster, fnp, (next_cluster v fnp.f_cluster).1)
        else if not ((link_fat (next_cluster v fnp.f_cluster).1 fnp.f_cluster n).0 == 0)
        then some
            (long_last_cluster, fnp, (link_fat (next_cluster v fnp.f_cluster).1 fnp.f_cluster n).1)
        else some (n, fnp, (link_fat (next_cluster v fnp.f_cluster).1 fnp.f_cluster n).1))
unfolding hang_on
hang_on-step n fnp v = refl

pub follow-last :
    (e : ℕ → ℕ) (top c : ℕ) → e c ≡ long_last_cluster → follow e top c ≡ long_last_cluster
follow-last e top c last = rw last refl

pub map_round-step :
    (mode : Mode) (fnp : Fnode) (v : Volume)
    → map_round mode fnp v ≡ (
        if leb (next_cluster v fnp.f_cluster).0 1
        then some (de_seek, fnp, (next_cluster v fnp.f_cluster).1)
        else if (next_cluster v fnp.f_cluster).0 == long_last_cluster
        then map_end mode fnp (next_cluster v fnp.f_cluster).1
        else some (
          success,
          advance (next_cluster v fnp.f_cluster).0 fnp,
          (next_cluster v fnp.f_cluster).1,
        ))
unfolding map_round
map_round-step mode fnp v = refl

pub cluster_low : (n : ℕ) → 2 ≤ n → leb n 1 ≡ false
cluster_low n low = ground arith

pub map_round-end :
    (mode : Mode) (fnp : Fnode) (v : Volume)
    → (next_cluster v fnp.f_cluster).0 ≡ long_last_cluster
    → map_round mode fnp v ≡ map_end mode fnp (next_cluster v fnp.f_cluster).1
map_round-end mode fnp v last = map_round-step mode fnp v ∙ ground (arith, last)

pub map_round-next :
    (mode : Mode) (fnp : Fnode) (v : Volume) (n top : ℕ)
    → (next_cluster v fnp.f_cluster).0 ≡ n
    → 2 ≤ n
    → n ≤ top
    → top < long_bad
    → map_round mode fnp v ≡ some (success, advance n fnp, (next_cluster v fnp.f_cluster).1)
map_round-next mode fnp v n top e low high small =
    map_round-step mode fnp v ∙ rw (e, cluster_low n low, no_mark n top high small) refl

pub cut_off-step :
    (flush : Flush) (st last next : ℕ) (fnp : Fnode) (v : Volume)
    → (link_fat v st last).0 ≡ 0
    → cut_off flush st last next fnp v
      ≡ flushed flush fnp (wipe_out_clusters (link_fat v st last).1 next)
unfolding cut_off
cut_off-step flush st last next fnp v ok = rw ok refl

pub not_0 : (n : ℕ) → n ≢ 0 → (n == 0) ≡ false
not_0 n h = ground arith

pub next_low : (n m : ℕ) → n ≡ m → 2 ≤ m → leb n 1 ≡ false
next_low n m e low = ground arith

pub next_no_mark :
    (n m top : ℕ) → n ≡ m → m ≤ top → top < long_bad → (n == long_last_cluster) ≡ false
next_no_mark n m top e high small = ground arith

pub shrink_at-step :
    (flush : Flush) (fnp : Fnode) (v : Volume)
    → shrink_at flush fnp v ≡ (
        if leb (next_cluster v fnp.f_cluster).0 1
        then some (de_access, fnp, (next_cluster v fnp.f_cluster).1)
        else if fnp.f_dir.dir_size == 0
        then cut_off flush fnp.f_cluster free
            (next_cluster v fnp.f_cluster).0
            (record fnp {
              f_cluster = free;
              f_dir = setdstart (next_cluster v fnp.f_cluster).1.dpb fnp.f_dir free;
            })
            (next_cluster v fnp.f_cluster).1
        else if (next_cluster v fnp.f_cluster).0 == long_last_cluster
        then some (success, fnp, (next_cluster v fnp.f_cluster).1)
        else cut_off flush fnp.f_cluster long_last_cluster
            (next_cluster v fnp.f_cluster).0
            fnp
            (next_cluster v fnp.f_cluster).1)
unfolding shrink_at
shrink_at-step flush fnp v = refl

pub and_then-success :
    (k : Fnode → Volume → Answer) (f : Fnode) (v : Volume)
    → and_then k (some (success, f, v)) ≡ k f v
unfolding and_then
and_then-success k f v = refl

pub and_then-full :
    (k : Fnode → Volume → Answer) (f : Fnode) (v : Volume)
    → and_then k (some (de_hndldskfull, f, v)) ≡ some (de_hndldskfull, f, v)
unfolding and_then
and_then-full k f v = refl

pub map_end-write :
    (fnp : Fnode) (v : Volume) → map_end xfr_write fnp v ≡ grown advance (extend fnp v)
unfolding map_end
map_end-write fnp v = refl

pub grown-success :
    (go : ℕ → Fnode → Fnode) (n top : ℕ) (f : Fnode) (v : Volume)
    → n ≤ top
    → top < long_bad
    → grown go (some (n, f, v)) ≡ some (success, go n f, v)
unfolding grown
grown-success go n top f v high small = rw (no_mark n top high small) refl

pub grown-full :
    (go : ℕ → Fnode → Fnode) (n : ℕ) (f : Fnode) (v : Volume)
    → n ≡ long_last_cluster
    → grown go (some (n, f, v)) ≡ some (de_hndldskfull, f, v)
unfolding grown
grown-full go n f v last = rw last refl
