-- ===== src/Files/Table/Hints.antt =====
-- kernel/fatfs.c, kernel/fattab.c: the steps that change the start of the free space.
use burdah_dos_system.Files.Table.Steps.{
  hint, IsDrive, Alike, Alike-refl, Alike-trans, same_dpb-IsDrive,
}
use burdah_dos_system.Base.{
  ℕ, ◌%◌, ◌≡◌, ◌⊎◌, refl, sym, ap, subst, ◌∙◌, true, false, ltb, ◌==◌, ◌||◌, Bool-cases, inl, inr,
  arith,
}
use native.Mathlib.Nat.{mod-eq_of_lt}
use burdah_dos_system.Fat.Link.{Volume, is_fat32, max_cluster, write_fsinfo, unkncluster}
use burdah_dos_system.Files.{with_cluster, with_xcluster, lower_hint, set_hint, wipe_done}
use burdah_dos_system.Files.Table.{InRange, Table}

module _ (T : Table) where
  pub with_cluster-Alike :
      (v : Volume) (c : ℕ)
      → IsDrive T v
      → is_fat32 v.dpb ≡ false
      → (c ≡ unkncluster) ⊎ InRange v c
      → Alike T v (with_cluster c v) × (hint (with_cluster c v).dpb ≡ c)
  unfolding max_cluster is_fat32
  with_cluster-Alike v c d not32 ok =
      let e : hint (with_cluster c v).dpb ≡ c = rw not32 refl in
      (
        record {
          drive = record {
            table = T.cluster_IsTable v c d.table;
            hint_ok = subst (λ h. (h ≡ unkncluster) ⊎ InRange v h) (sym e) ok;
          };
          entries = λ b. T.cluster_entry v c b d.table;
          top = refl;
          kind = refl;
        },
        e,
      )

  pub with_xcluster-Alike :
      (v : Volume) (c : ℕ)
      → IsDrive T v
      → is_fat32 v.dpb ≡ true
      → (c ≡ unkncluster) ⊎ InRange v c
      → Alike T v (with_xcluster c v) × (hint (with_xcluster c v).dpb ≡ c)
  unfolding max_cluster is_fat32
  with_xcluster-Alike v c d is32 ok =
      let e : hint (with_xcluster c v).dpb ≡ c = rw is32 refl in
      (
        record {
          drive = record {
            table = T.xcluster_IsTable v c d.table;
            hint_ok = subst (λ h. (h ≡ unkncluster) ⊎ InRange v h) (sym e) ok;
          };
          entries = λ b. T.xcluster_entry v c b d.table;
          top = refl;
          kind = refl;
        },
        e,
      )

  pub write_fsinfo-Alike :
      (v : Volume) → IsDrive T v → is_fat32 v.dpb ≡ true → Alike T v (write_fsinfo v)
  write_fsinfo-Alike v d is32 =
      let e = T.fsinfo_dpb v in
      record {
        drive = same_dpb-IsDrive T v (write_fsinfo v) e (T.fsinfo_IsTable v is32 d.table) d;
        entries = λ b. T.fsinfo_entry v b is32 d.table;
        top = ap max_cluster e;
        kind = ap is_fat32 e;
      }

  pub word :
      (v : Volume) (c : ℕ)
      → IsDrive T v
      → is_fat32 v.dpb ≡ false
      → (c ≡ unkncluster) ⊎ InRange v c
      → c % 0x10000 ≡ c
  word v c d not32 (inl e) = rw e refl
  word v c d not32 (inr r) = mod-eq_of_lt (omega (arith, r, T.top_word v d.table not32))

  pub lower_hint-Alike :
      (v : Volume) (st : ℕ) → IsDrive T v → InRange v st → Alike T v (lower_hint st v)
  unfolding lower_hint
  lower_hint-Alike v st d range = elim (Bool-cases (is_fat32 v.dpb)) [
    | inl is32 ↦
        elim (Bool-cases (v.dpb.dpb_xcluster == unkncluster || ltb st v.dpb.dpb_xcluster)) [
          | inl lower ↦ rw (is32, lower) ((with_xcluster-Alike v st d is32 (inr range)).0)
          | inr kept ↦ rw (is32, kept) (Alike-refl T v d)
        ]
    | inr not32 ↦
        elim (Bool-cases
          (v.dpb.dpb_cluster == unkncluster || ltb (st % 0x10000) v.dpb.dpb_cluster)) [
            | inl lower ↦
                let e = word v st d not32 (inr range) in
                rw (not32, lower)
                  ((with_cluster-Alike v (st % 0x10000) d not32 (inr (rw e range))).0)
            | inr kept ↦ rw (not32, kept) (Alike-refl T v d)
          ]
  ]

  pub set_hint-Alike :
      (v : Volume) (c : ℕ)
      → IsDrive T v
      → (c ≡ unkncluster) ⊎ InRange v c
      → Alike T v (set_hint c v) × (hint (set_hint c v).dpb ≡ c)
  unfolding set_hint
  set_hint-Alike v c d ok = elim (Bool-cases (is_fat32 v.dpb)) [
    | inl is32 ↦
        let w = with_xcluster c v in
        let (a, e) = with_xcluster-Alike v c d is32 ok in
        let b = write_fsinfo-Alike w a.drive (a.kind ∙ is32) in
        rw is32 (Alike-trans T v w (write_fsinfo w) a b, ap hint (T.fsinfo_dpb w) ∙ e)
    | inr not32 ↦ let e = word v c d not32 ok in rw (not32, e) (with_cluster-Alike v c d not32 ok)
  ]

  pub wipe_done-Alike : (v : Volume) → IsDrive T v → Alike T v (wipe_done v)
  unfolding wipe_done
  wipe_done-Alike v d = elim (Bool-cases (is_fat32 v.dpb)) [
    | inl is32 ↦ rw is32 (write_fsinfo-Alike v d is32)
    | inr not32 ↦ rw not32 (Alike-refl T v d)
  ]
