-- ===== src/Files/Map/Cut.antt =====
-- kernel/fatfs.c, `shrink_file`: the cut of a chain.
use burdah_dos_system.Files.Map.Cases.{cut_off-step, not_0, next_low, next_no_mark, shrink_at-step}
use burdah_dos_system.Base.{
  ℕ, ◌≡◌, ◌≢◌, ◌⊎◌, refl, sym, ap, ◌∙◌, subst, true, false, Bool-cases, ◌==◌, inl, inr,
  if◌then◌else◌, arith, List, [], ◌∷◌, some, ==→eq,
}
use burdah_dos_system.Fat.Entry.{free, long_last_cluster}
use burdah_dos_system.Fat.Link.{Volume, max_cluster, next_cluster, link_fat}
use burdah_dos_system.Files.{Fnode}
use burdah_dos_system.Files.Chain.{
  IsChain, member, first-Inside, follow-IsChain, rest-IsChain, same-IsChain,
}
use burdah_dos_system.Files.Wipe.{wipe_out_clusters-Freed}
use burdah_dos_system.Files.Table.{entry, Writable, Table}
use burdah_dos_system.Files.Table.Steps.{IsDrive, Alike, Wrote, link_fat-Wrote, next_cluster-follow}
use burdah_dos_system.Files.Map.{Status, success, de_access, Flush, flushed, cut_off, shrink_at}

-- A drive of which `P` holds was flushed: it still does after success; with an error `P` is known of
-- the drive that the flush was given.
abbrev pub Flushed : Flush → (Volume → Type 0) → Status → Volume → Type 0
Flushed flush P s w =
    ((s ≡ success) × P w)
    ⊎ ((s ≡ de_access) × (u : Volume) × P u × ((flush u).0 ≡ false) × (w ≡ (flush u).1))

pub Flushed-map :
    (flush : Flush) (P Q : Volume → Type 0) (s : Status) (w : Volume)
    → ((u : Volume) → P u → Q u)
    → Flushed flush P s w
    → Flushed flush Q s w
Flushed-map flush P Q s w f (inl (e, p)) = inl (e, f w p)
Flushed-map flush P Q s w f (inr (e, u, p, failed, at)) = inr (e, u, f u p, failed, at)

flushed-Flushed :
    (flush : Flush) (P : Volume → Type 0) (fnp : Fnode) (v : Volume)
    → P v
    → ((flush v).0 ≡ true → P (flush v).1)
    → (s : Status) × (flushed flush fnp (some v) ≡ some (s, fnp, (flush v).1))
      × Flushed flush P s (flush v).1
unfolding flushed
flushed-Flushed flush P fnp v p kept = elim (Bool-cases (flush v).0) [
  | inl ok ↦ (success, rw ok refl, inl (refl, kept ok))
  | inr failed ↦ (de_access, rw failed refl, inr (refl, v, p, failed, refl))
]

module _ (T : Table) where
  -- The drive `w` is `v` with a new entry of `st` and the clusters of `suf` freed.
  pub record IsCut (v : Volume) (st last : ℕ) (suf : List ℕ) (w : Volume) : Type 0 where
    pub drive : IsDrive T w
    pub top : max_cluster w.dpb ≡ max_cluster v.dpb
    pub entries :
        (d : ℕ) → entry w d ≡ (if member d suf then free else if d == st then last else entry v d)

  pub Alike-IsCut :
      (u v w : Volume) (st last : ℕ) (suf : List ℕ)
      → Alike T u v
      → IsCut v st last suf w
      → IsCut u st last suf w
  Alike-IsCut u v w st last suf a c = record {
    drive = c.drive;
    top = c.top ∙ a.top;
    entries = λ d.
        c.entries d
        ∙ ap (λ k. if member d suf then free else if d == st then last else k) (a.entries d);
  }

  IsCut-Alike :
      (v w u : Volume) (st last : ℕ) (suf : List ℕ)
      → IsCut v st last suf w
      → Alike T w u
      → IsCut v st last suf u
  IsCut-Alike v w u st last suf c a = record {
    drive = a.drive;
    top = a.top ∙ c.top;
    entries = λ d. a.entries d ∙ c.entries d;
  }

  last-IsCut :
      (v w : Volume) (st : ℕ)
      → Alike T v w
      → entry v st ≡ long_last_cluster
      → IsCut v st long_last_cluster [] w
  last-IsCut v w st a last = record {
    drive = a.drive;
    top = a.top;
    entries = λ d. a.entries d ∙ elim (Bool-cases (d == st)) [
      | inl here ↦ rw here (ap (entry v) (==→eq d st here) ∙ last)
      | inr other ↦ rw other refl
    ];
  }

module _ (T : Table) (flush : Flush)
    (quiet : (u : Volume) → IsDrive T u → (flush u).0 ≡ true → Alike T u (flush u).1) where
  cut_off-IsCut :
      (fnp : Fnode) (v : Volume) (st last next : ℕ) (suf : List ℕ)
      → IsDrive T v
      → IsChain (entry v) (max_cluster v.dpb) st (st ∷ suf)
      → Writable v last
      → next ≡ entry v st
      → (s : Status) × (w : Volume) × (cut_off flush st last next fnp v ≡ some (s, fnp, w))
        × Flushed flush (IsCut T v st last suf) s w
  cut_off-IsCut fnp v st last next suf d chain w e =
      let top = max_cluster v.dpb in
      let (ok, wrote) =
        link_fat-Wrote T v st last d (first-Inside (entry v) top st st suf chain) w in
      let v1 = (link_fat v st last).1 in
      let rest : IsChain (entry v1) (max_cluster v1.dpb) next suf =
        subst (λ t. IsChain (entry v1) t next suf) (sym wrote.top)
          (subst (λ n. IsChain (entry v1) top n suf) (sym e)
            (rest-IsChain (entry v) top st st suf chain (entry v1) wrote.others)) in
      let (v2, wiped, freed) = wipe_out_clusters-Freed T v1 next suf wrote.drive rest in
      let cut : IsCut T v st last suf v2 = record {
        drive = freed.drive;
        top = freed.top ∙ wrote.top;
        entries = λ b. freed.entries b ∙ elim (Bool-cases (member b suf)) [
          | inl gone ↦ rw gone refl
          | inr kept ↦ rw kept (written v v1 st last wrote b)
        ];
      } in
      let (s, done, answer) =
        flushed-Flushed flush (IsCut T v st last suf) fnp v2 cut
          (λ ok. IsCut-Alike T v v2 _ st last suf cut (quiet v2 freed.drive ok)) in
      (
        s,
        (flush v2).1,
        cut_off-step flush st last next fnp v ok ∙ ap (flushed flush fnp) wiped ∙ done,
        answer,
      )
    where
      written :
          (v v1 : Volume) (st last : ℕ)
          → Wrote T v st last v1
          → (b : ℕ) → entry v1 b ≡ (if b == st then last else entry v b)
      written v v1 st last wrote b = elim (Bool-cases (b == st)) [
        | inl here ↦ rw here (ap (entry v1) (==→eq b st here) ∙ wrote.here)
        | inr other ↦ rw other (wrote.others b (λ q. ground (arith, q, other)))
      ]

  -- A file with bytes left is cut behind its cluster.
  pub shrink_at-IsCut :
      (fnp : Fnode) (v : Volume) (suf : List ℕ)
      → IsDrive T v
      → IsChain (entry v) (max_cluster v.dpb) fnp.f_cluster (fnp.f_cluster ∷ suf)
      → fnp.f_dir.dir_size ≢ 0
      → (s : Status) × (w : Volume) × (shrink_at flush fnp v ≡ some (s, fnp, w))
        × Flushed flush (IsCut T v fnp.f_cluster long_last_cluster suf) s w
  shrink_at-IsCut fnp v [] d chain size =
      let st = fnp.f_cluster in
      let v1 = (next_cluster v st).1 in
      let (value, a) = next_cluster-follow T v st d in
      let e =
        value
        ∙ follow-IsChain (entry v) (max_cluster v.dpb) st st [] chain (T.top_small v d.table)
        ∙ chain.links.1 in
      (
        success,
        v1,
        shrink_at-step flush fnp v ∙ rw (e, not_0 fnp.f_dir.dir_size size) refl,
        inl (refl, last-IsCut T v v1 st a chain.links.1),
      )
  shrink_at-IsCut fnp v (b ∷ bs) d chain size =
      let st = fnp.f_cluster in
      let small = T.top_small v d.table in
      let top = max_cluster v.dpb in
      let v1 = (next_cluster v st).1 in
      let next = (next_cluster v st).0 in
      let (value, a) = next_cluster-follow T v st d in
      let e : next ≡ entry v st = value ∙ follow-IsChain (entry v) top st st (b ∷ bs) chain small in
      let range =
        first-Inside (entry v) top (entry v st) b bs
          (rest-IsChain (entry v) top st st (b ∷ bs) chain (entry v) (λ x ne. refl)) in
      let same =
        subst (λ t. IsChain (entry v1) t st (st ∷ (b ∷ bs))) (sym a.top)
          (same-IsChain (entry v) (entry v1) top st (st ∷ (b ∷ bs)) a.entries chain) in
      let (s, w, cut, answer) =
        cut_off-IsCut fnp v1 st long_last_cluster next (b ∷ bs) a.drive same (inr (inl refl))
          (e ∙ sym (a.entries st)) in
      (
        s,
        w,
        shrink_at-step flush fnp v
            ∙ rw
                (
                  next_low next (entry v st) e range.0,
                  not_0 fnp.f_dir.dir_size size,
                  next_no_mark next (entry v st) top e range.1 small,
                )
                cut,
        Flushed-map flush (IsCut T v1 st long_last_cluster (b ∷ bs))
            (IsCut T v st long_last_cluster (b ∷ bs)) s w
            (λ u c. Alike-IsCut T v v1 u st long_last_cluster (b ∷ bs) a c) answer,
      )
