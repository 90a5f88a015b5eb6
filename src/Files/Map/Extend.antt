-- ===== src/Files/Map/Extend.antt =====
-- kernel/fatfs.c, `extend`: a file gets one more cluster, a free one, at the end of its chain.
use burdah_dos_system.Files.Map.Cases.{extend_by-full, extend_by-hang, hang_on-step, follow-last}
use burdah_dos_system.Base.{
  ℕ, ◌≤◌, ◌<◌, ◌≡◌, ◌≢◌, ◌⊎◌, refl, sym, ap, ◌∙◌, subst, false, Bool-cases, inl, inr, arith, List,
  [], ◌∷◌, ◌++◌, some,
}
use burdah_dos_system.Fat.Entry.{free, long_last_cluster, long_bad}
use burdah_dos_system.Fat.Link.{Dpb, Volume, is_fat32, max_cluster, link_fat, next_cluster}
use burdah_dos_system.Files.{Dirent, Fnode, getdstart, setdstart}
use burdah_dos_system.Files.Chain.{IsChain, Apart, no_mark, not_free}
use burdah_dos_system.Files.Chain.Grow.{Ends, IsChain-append, IsChain-Ends}
use burdah_dos_system.Files.Find.{find_fat_free-FoundFree}
use burdah_dos_system.Files.Table.{entry, InRange, Table}
use burdah_dos_system.Files.Table.Steps.{
  IsDrive, Alike, Wrote, Alike-Wrote, next_cluster-follow, link_fat-Wrote,
}
use burdah_dos_system.Files.Map.{hang_on, extend_by, extend}

-- The first cluster that was stored is found again.
pub getdstart-setdstart :
    (d : Dpb) (dentry : Dirent) (n : ℕ)
    → n < 0x100000000
    → (is_fat32 d ≡ false → n < 0x10000)
    → getdstart d (setdstart d dentry n) ≡ n
unfolding getdstart setdstart
getdstart-setdstart d dentry n small word = elim (Bool-cases (is_fat32 d)) [
  | inl is32 ↦ rw is32 (omega (arith, small))
  | inr not32 ↦ rw not32 (omega (arith, word not32))
]

Apart-last : (d l n : ℕ) (cs : List ℕ) → Ends l cs → Apart d (cs ++ (n ∷ [])) → l ≢ d
Apart-last d l n [] ends a = absurd ends
Apart-last d l n (c ∷ []) ends a = λ q. a.0 (sym q ∙ sym ends)
Apart-last d l n (c ∷ (b ∷ bs)) ends a = Apart-last d l n (b ∷ bs) ends a.1

Apart-new : (d n : ℕ) (cs : List ℕ) → Apart d (cs ++ (n ∷ [])) → n ≢ d
Apart-new d n [] a = λ q. a.0 (sym q)
Apart-new d n (c ∷ cs) a = Apart-new d n cs a.1

module _ (T : Table) where
  -- What `extend` leaves of the drive `v` and the chain `cs`: one cluster more, that was free, or the
  -- same entries and no free cluster.
  pub record Extended (v : Volume) (cs : List ℕ) (start n : ℕ) (w : Volume) : Type 0 where
    pub drive : IsDrive T w
    pub top : max_cluster w.dpb ≡ max_cluster v.dpb
    pub kind : is_fat32 w.dpb ≡ is_fat32 v.dpb
    pub was_free : entry v n ≡ free
    pub inside : InRange v n
    pub chain : IsChain (entry w) (max_cluster w.dpb) start (cs ++ (n ∷ []))
    pub others : (d : ℕ) → Apart d (cs ++ (n ∷ [])) → entry w d ≡ entry v d

  pub record Full (v w : Volume) : Type 0 where
    pub alike : Alike T v w
    pub full : (c : ℕ) → 2 ≤ c → c ≤ max_cluster v.dpb → entry v c ≢ free

  hang_on-Linked :
      (n : ℕ) (fnp : Fnode) (v : Volume)
      → IsDrive T v
      → InRange v n
      → InRange v fnp.f_cluster
      → entry v fnp.f_cluster ≡ long_last_cluster
      → (w : Volume) × (hang_on n fnp v ≡ some (n, fnp, w)) × Wrote T v fnp.f_cluster n w
  hang_on-Linked n fnp v d range at last =
      let (value, a1) = next_cluster-follow T v fnp.f_cluster d in
      let v1 = (next_cluster v fnp.f_cluster).1 in
      let stays = subst (λ t. fnp.f_cluster ≤ t) (sym a1.top) at.1 in
      let (ok, wrote) =
        link_fat-Wrote T v1 fnp.f_cluster n a1.drive (at.0, stays)
          (inr (inr (range.0, subst (λ t. n ≤ t) (sym a1.top) range.1))) in
      let v2 = (link_fat v1 fnp.f_cluster n).1 in
      (
        v2,
        hang_on-step n fnp v
            ∙ rw (value ∙ follow-last (entry v) (max_cluster v.dpb) fnp.f_cluster last, ok) refl,
        Alike-Wrote T v v1 v2 fnp.f_cluster n a1 wrote,
      )

  -- What the two writes of `extend` leave.
  two_writes :
      (v u w : Volume) (l n start : ℕ) (cs : List ℕ)
      → IsChain (entry v) (max_cluster v.dpb) start cs
      → Ends l cs
      → InRange v n
      → entry v n ≡ free
      → Wrote T v n long_last_cluster u
      → Wrote T u l n w
      → Extended v cs start n w
  two_writes v u w l n start cs chain ends range is_free a b =
      let last = IsChain-Ends (entry v) (max_cluster v.dpb) start l cs chain ends in
      let apart : l ≢ n = λ q. omega (arith, sym last.0 ∙ ap (entry v) q, is_free) in
      let same : (d : ℕ) → l ≢ d → n ≢ d → entry w d ≡ entry v d =
        λ d ne ne'. b.others d ne ∙ a.others d ne' in
      record {
        drive = b.drive;
        top = b.top ∙ a.top;
        kind = b.kind ∙ a.kind;
        was_free = is_free;
        inside = range;
        chain =
            subst (λ t. IsChain (entry w) t start (cs ++ (n ∷ []))) (sym (b.top ∙ a.top))
              (IsChain-append (entry v) (entry w) (max_cluster v.dpb) start l n cs chain ends
                is_free range.0 range.1 b.here (b.others n apart ∙ a.here) same);
        others = λ d out. same d (Apart-last d l n cs ends out) (Apart-new d n cs out);
      }

  pub mark_new :
      (v u : Volume) (n : ℕ)
      → Alike T v u
      → InRange v n
      → ((link_fat u n long_last_cluster).0 ≡ 0)
        × Wrote T v n long_last_cluster (link_fat u n long_last_cluster).1
  mark_new v u n alike range =
      let stays = subst (λ t. n ≤ t) (sym alike.top) range.1 in
      let (ok, a) =
        link_fat-Wrote T u n long_last_cluster alike.drive (range.0, stays) (inr (inl refl)) in
      (ok, Alike-Wrote T v u (link_fat u n long_last_cluster).1 n long_last_cluster alike a)

  extend_by-Extended :
      (v u : Volume) (fnp : Fnode) (n start : ℕ) (cs : List ℕ)
      → max_cluster v.dpb < long_bad
      → IsChain (entry v) (max_cluster v.dpb) start cs
      → Ends fnp.f_cluster cs
      → Alike T v u
      → InRange v n
      → entry v n ≡ free
      → (w : Volume) × (extend_by fnp (some (n, u)) ≡ some (n, fnp, w)) × Extended v cs start n w
  extend_by-Extended v u fnp n start cs small chain ends alike range is_free =
      let last = IsChain-Ends (entry v) (max_cluster v.dpb) start fnp.f_cluster cs chain ends in
      let u1 = (link_fat u n long_last_cluster).1 in
      let (ok, a) = mark_new v u n alike range in
      let apart : n ≢ fnp.f_cluster =
        λ q. omega (arith, sym last.0 ∙ ap (entry v) (sym q), is_free) in
      let (w, hung, b) =
        hang_on-Linked n fnp u1 a.drive (range.0, subst (λ t. n ≤ t) (sym a.top) range.1)
          (last.1, subst (λ t. fnp.f_cluster ≤ t) (sym a.top) last.2)
          (a.others fnp.f_cluster apart ∙ last.0) in
      (
        w,
        extend_by-hang fnp n u (no_mark n (max_cluster v.dpb) range.1 small) ok
              (not_free fnp.f_cluster last.1)
            ∙ hung,
        two_writes v u1 w fnp.f_cluster n start cs chain ends range is_free a b,
      )

  -- On a drive with a table and at least one cluster, `extend` of a file whose cluster is the last of
  -- a chain returns. If a cluster is free, it answers one, that was free, and the chain is then the old
  -- one with this cluster behind it; every entry that is not of the chain is as before. If none is free
  -- it answers the mark of the end and changes no entry.
  pub extend-Extended :
      (v : Volume) (fnp : Fnode) (start : ℕ) (cs : List ℕ)
      → IsDrive T v
      → 2 ≤ max_cluster v.dpb
      → IsChain (entry v) (max_cluster v.dpb) start cs
      → Ends fnp.f_cluster cs
      → (n : ℕ) × (w : Volume) × (extend fnp v ≡ some (n, fnp, w))
        × (Extended v cs start n w ⊎ ((n ≡ long_last_cluster) × Full v w))
  unfolding extend
  extend-Extended v fnp start cs d big chain ends =
      let (n, u, found, f) = find_fat_free-FoundFree T v d big in
      elim f.result [
        | inl (low, high, is_free, h) ↦
            let (w, e, x) =
              extend_by-Extended v u fnp n start cs (T.top_small v d.table) chain ends f.alike
                (low, high) is_free in
            (n, w, ap (extend_by fnp) found ∙ e, inl x)
        | inr (last, full, h) ↦ (
          n,
          u,
          ap (extend_by fnp) found ∙ extend_by-full fnp n u last,
          inr (last, record { alike = f.alike; full = full }),
        )
      ]
