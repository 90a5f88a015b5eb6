-- ===== src/Files/Wipe.antt =====
-- kernel/fatfs.c, `wipe_out_clusters` and `wipe_out`: the loop ends on every table, and it frees the
-- clusters of a chain and no others.
use burdah_dos_system.Base.{
  ℕ, zero, suc, ◌+◌, ◌≤◌, ◌<◌, ◌≡◌, ◌≢◌, ◌⊎◌, refl, sym, ap, ◌∙◌, subst, true, false, leb, ◌==◌,
  Bool-cases, inl, inr, not, if◌then◌else◌, arith, ==→eq, List, [], ◌∷◌, some,
}
use burdah_dos_system.Fat.Entry.{free, read_cluster, long_last_cluster}
use burdah_dos_system.Fat.Link.{Volume, max_cluster, link_fat, next_cluster, refuses}
use burdah_dos_system.Files.{lower_hint, wipe_done, wipe_loop, wipe_out_clusters}
use burdah_dos_system.Files.Chain.{
  IsChain, member, used, used-bound, used-free, first-Inside, next-Inside, follow-IsChain,
  rest-IsChain,
}
use burdah_dos_system.Files.Table.{entry, InRange, Table}
use burdah_dos_system.Files.Table.Steps.{
  IsDrive, Alike, Wrote, Wrote-Alike, Alike-Wrote, next_cluster-follow, link_fat-Wrote,
}
use burdah_dos_system.Files.Table.Hints.{lower_hint-Alike, wipe_done-Alike}

read_refused :
    (v : Volume) (c : ℕ) → refuses v.dpb c read_cluster ≡ true → (link_fat v c read_cluster).0 ≡ 1
unfolding link_fat
read_refused v c refused = rw refused refl

-- A read outside the table answers 1.
pub entry-InRange : (v : Volume) (c : ℕ) → 2 ≤ entry v c → InRange v c
unfolding refuses
entry-InRange v c h = elim (Bool-cases (refuses v.dpb c read_cluster)) [
  | inl refused ↦ omega (arith, h, read_refused v c refused)
  | inr ok ↦ ground arith
]

-- The volume and the status after the round of the loop at cluster `st`.
abbrev zapped : ℕ → Volume → ℕ × Volume
zapped st v = link_fat (next_cluster v st).1 st free

wipe_loop-step :
    (fuel st : ℕ) (v : Volume)
    → wipe_loop (suc fuel) st v ≡ (
        if st == long_last_cluster
        then some (wipe_done v)
        else if leb (next_cluster v st).0 1
        then some (next_cluster v st).1
        else if not ((zapped st v).0 == 0)
        then some (zapped st v).1
        else wipe_loop fuel (next_cluster v st).0 (lower_hint st (zapped st v).1))
unfolding wipe_loop
wipe_loop-step fuel st v = refl

module _ (T : Table) where
  -- A round that goes on frees the cluster, and one entry less is in use.
  wipe-round :
      (fuel st : ℕ) (v : Volume)
      → IsDrive T v
      → st ≢ long_last_cluster
      → leb (next_cluster v st).0 1 ≡ false
      → used (entry v) (max_cluster v.dpb) < suc fuel
      → (wipe_loop (suc fuel) st v
          ≡ wipe_loop fuel (next_cluster v st).0 (lower_hint st (zapped st v).1))
        × Wrote T v st free (lower_hint st (zapped st v).1)
        × (used
              (entry (lower_hint st (zapped st v).1))
              (max_cluster (lower_hint st (zapped st v).1).dpb)
            < fuel)
  wipe-round fuel st v d going on enough =
      let v1 = (next_cluster v st).1 in
      let (value, a1) = next_cluster-follow T v st d in
      let big : 2 ≤ entry v st = ground (arith, value, on) in
      let range = entry-InRange v st big in
      let range1 : InRange v1 st = (range.0, subst (λ t. st ≤ t) (sym a1.top) range.1) in
      let (ok, w) = link_fat-Wrote T v1 st free a1.drive range1 (inl refl) in
      let v2 = (zapped st v).1 in
      let range2 : InRange v2 st = (range.0, subst (λ t. st ≤ t) (sym w.top) range1.1) in
      let wrote =
        Wrote-Alike T v v2 (lower_hint st v2) st free (Alike-Wrote T v v1 v2 st free a1 w)
          (lower_hint-Alike T v2 st w.drive range2) in
      let less =
        used-free (entry v) (entry (lower_hint st v2)) st (max_cluster v.dpb) range.1
          (λ z. omega (arith, z, big)) wrote.here wrote.others in
      (
        wipe_loop-step fuel st v ∙ ground (arith, going, on, ok),
        wrote,
        subst (λ t. used (entry (lower_hint st v2)) t < fuel) (sym wrote.top)
            (omega (arith, less, enough)),
      )

  -- What the loop leaves: a drive where each entry is as it was or free.
  pub record Cleared (v w : Volume) : Type 0 where
    pub drive : IsDrive T w
    pub entries : (d : ℕ) → (entry w d ≡ entry v d) ⊎ (entry w d ≡ free)
    pub top : max_cluster w.dpb ≡ max_cluster v.dpb

  Alike-Cleared : (v w : Volume) → Alike T v w → Cleared v w
  Alike-Cleared v w a = record { drive = a.drive; entries = λ d. inl (a.entries d); top = a.top }

  Wrote-Cleared : (u v w : Volume) (c : ℕ) → Wrote T u c free v → Cleared v w → Cleared u w
  Wrote-Cleared u v w c a b = record {
    drive = b.drive;
    entries = λ d. elim (b.entries d) [
      | inl same ↦ elim (Bool-cases (c == d)) [
        | inl here ↦ inr (same ∙ subst (λ k. entry v k ≡ free) (==→eq c d here) a.here)
        | inr other ↦ inl (same ∙ a.others d (ground arith))
      ]
      | inr freed ↦ inr freed
    ];
    top = b.top ∙ a.top;
  }

  wipe_loop-Cleared :
      (fuel st : ℕ) (v : Volume)
      → IsDrive T v
      → used (entry v) (max_cluster v.dpb) < fuel
      → (w : Volume) × (wipe_loop fuel st v ≡ some w) × Cleared v w
  wipe_loop-Cleared zero st v d enough = absurd (omega (arith, enough))
  wipe_loop-Cleared (suc fuel) st v d enough =
      let step = wipe_loop-step fuel st v in
      let (value, a1) = next_cluster-follow T v st d in
      elim (Bool-cases (st == long_last_cluster)) [
        | inl last ↦ (
          wipe_done v,
          step ∙ rw last refl,
          Alike-Cleared v (wipe_done v) (wipe_done-Alike T v d),
        )
        | inr going ↦ elim (Bool-cases (leb (next_cluster v st).0 1)) [
          | inl damaged ↦ (
            (next_cluster v st).1,
            step ∙ rw (going, damaged) refl,
            Alike-Cleared v (next_cluster v st).1 a1,
          )
          | inr on ↦
              let (round, wrote, less) = wipe-round fuel st v d (ground arith) on enough in
              let v2 = lower_hint st (zapped st v).1 in
              let (w, e, c) = wipe_loop-Cleared fuel (next_cluster v st).0 v2 wrote.drive less in
              (w, round ∙ e, Wrote-Cleared v v2 w st wrote c)
        ]
      ]

  -- On every drive with a table, from every cluster and however the entries are linked,
  -- `wipe_out_clusters` returns, and each entry is then free or what it was before.
  pub wipe_out_clusters-Cleared :
      (v : Volume) (st : ℕ)
      → IsDrive T v
      → (w : Volume) × (wipe_out_clusters v st ≡ some w) × Cleared v w
  unfolding wipe_out_clusters
  wipe_out_clusters-Cleared v st d =
      wipe_loop-Cleared (max_cluster v.dpb + 2) st v d
        (omega (arith, used-bound (entry v) (max_cluster v.dpb)))

  -- What freeing a chain leaves.
  pub record Freed (cs : List ℕ) (v w : Volume) : Type 0 where
    pub drive : IsDrive T w
    pub entries : (d : ℕ) → entry w d ≡ (if member d cs then free else entry v d)
    pub top : max_cluster w.dpb ≡ max_cluster v.dpb

  Wrote-Freed :
      (u v w : Volume) (st c : ℕ) (cs : List ℕ)
      → st ≡ c
      → Wrote T u st free v
      → Freed cs v w
      → Freed (c ∷ cs) u w
  Wrote-Freed u v w st c cs same a b = record {
    drive = b.drive;
    entries = λ d. b.entries d ∙ elim (Bool-cases (d == c)) [
      | inl here ↦
          let e : d ≡ st = ==→eq d c here ∙ sym same in ground (arith, here, ap (entry v) e, a.here)
      | inr other ↦
          let ne : st ≢ d = λ q. ground (arith, q, same) in ground (arith, other, a.others d ne)
    ];
    top = b.top ∙ a.top;
  }

  wipe_loop-Freed :
      (fuel st : ℕ) (cs : List ℕ) (v : Volume)
      → IsDrive T v
      → IsChain (entry v) (max_cluster v.dpb) st cs
      → used (entry v) (max_cluster v.dpb) < fuel
      → (w : Volume) × (wipe_loop fuel st v ≡ some w) × Freed cs v w
  wipe_loop-Freed zero st cs v d chain enough = absurd (omega (arith, enough))
  wipe_loop-Freed (suc fuel) st [] v d chain enough =
      let a = wipe_done-Alike T v d in
      (
        wipe_done v,
        wipe_loop-step fuel st v ∙ rw (chain.links) refl,
        record { drive = a.drive; entries = a.entries; top = a.top },
      )
  wipe_loop-Freed (suc fuel) st (c ∷ cs) v d chain enough =
      let small = T.top_small v d.table in
      let e = entry v in
      let top = max_cluster v.dpb in
      let next = (next_cluster v st).0 in
      let v2 = lower_hint st (zapped st v).1 in
      let range = first-Inside e top st c cs chain in
      let valid = next-Inside e top st c cs chain in
      let value : next ≡ e st =
        (next_cluster-follow T v st d).0 ∙ follow-IsChain e top st c cs chain small in
      let (round, wrote, less) =
        wipe-round fuel st v d (λ q. omega (arith, q, range, small)) (ground (arith, value, valid))
          enough in
      let rest : IsChain (entry v2) (max_cluster v2.dpb) next cs =
        subst (λ t. IsChain (entry v2) t next cs) (sym wrote.top)
          (subst (λ n. IsChain (entry v2) top n cs) (sym value)
            (rest-IsChain e top st c cs chain (entry v2) wrote.others)) in
      let (w, returned, freed) = wipe_loop-Freed fuel next cs v2 wrote.drive rest less in
      (w, round ∙ returned, Wrote-Freed v v2 w st c cs chain.links.0 wrote freed)

  -- On a drive with a table `wipe_out_clusters` of the first cluster of a chain, whose clusters are
  -- clusters of the drive and no two the same, returns; it frees the clusters of the chain and leaves
  -- every other entry as it was.
  pub wipe_out_clusters-Freed :
      (v : Volume) (st : ℕ) (cs : List ℕ)
      → IsDrive T v
      → IsChain (entry v) (max_cluster v.dpb) st cs
      → (w : Volume) × (wipe_out_clusters v st ≡ some w) × Freed cs v w
  unfolding wipe_out_clusters
  wipe_out_clusters-Freed v st cs d chain =
      wipe_loop-Freed (max_cluster v.dpb + 2) st cs v d chain
        (omega (arith, used-bound (entry v) (max_cluster v.dpb)))
