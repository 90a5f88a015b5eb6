-- ===== src/Files/Table/Steps.antt =====
-- kernel/fatfs.c, kernel/fattab.c: what one step of the routines on files does to the entries of a
-- table and to the start of the free space.
use burdah_dos_system.Base.{
  ℕ, ◌≤◌, ◌≡◌, ◌≢◌, ◌⊎◌, refl, sym, ap, subst, ◌∙◌, ltb, leb, ◌||◌, ◌&&◌, Bool-cases, inl, inr,
  if◌then◌else◌,
}
use burdah_dos_system.Fat.Entry.{read_cluster, long_bad}
use burdah_dos_system.Fat.Link.{
  Dpb, Volume, is_fat32, max_cluster, link_fat, next_cluster, is_free_cluster, unkncluster,
}
use burdah_dos_system.Files.Table.{entry, InRange, Writable, Table}

-- The start of the free space that the drive keeps, 0 when it is not known.
abbrev pub hint : Dpb → ℕ
unfolding is_fat32
hint d = if is_fat32 d then d.dpb_xcluster else d.dpb_cluster

-- `next_cluster` on the entries of a table with clusters up to `top`.
abbrev pub follow : (ℕ → ℕ) → ℕ → ℕ → ℕ
follow e top c =
    if ltb (e c) 2 || leb long_bad (e c)
    then e c
    else if ltb (e (e c)) 2 || (ltb (e (e c)) long_bad && ltb top (e (e c)))
    then 1
    else e c

-- The end of `next_cluster` by the values of the two entries, and its answer.
abbrev chosen : (n f top : ℕ) (v1 v2 : Volume) → ℕ × Volume
chosen n f top v1 v2 =
    if ltb n 2 || leb long_bad n
    then (n, v1)
    else if ltb f 2 || (ltb f long_bad && ltb top f)
    then (1, v2)
    else (n, v2)

abbrev answer : (n f top : ℕ) → ℕ
answer n f top =
    if ltb n 2 || leb long_bad n
    then n
    else if ltb f 2 || (ltb f long_bad && ltb top f)
    then 1
    else n

followed :
    (P : Volume → Type 0) (n f top : ℕ) (v1 v2 : Volume)
    → P v1
    → P v2
    → ((chosen n f top v1 v2).0 ≡ answer n f top) × P (chosen n f top v1 v2).1
followed P n f top v1 v2 p1 p2 = elim (Bool-cases (ltb n 2 || leb long_bad n)) [
  | inl a ↦ rw a (refl, p1)
  | inr a ↦ elim (Bool-cases (ltb f 2 || (ltb f long_bad && ltb top f))) [
    | inl b ↦ rw (a, b) (refl, p2)
    | inr b ↦ rw (a, b) (refl, p2)
  ]
]

module _ (T : Table) where
  -- A drive with a table, whose start of the free space is not known or is one of its clusters.
  pub record IsDrive (v : Volume) : Type 0 where
    pub table : T.IsTable v
    pub hint_ok : (hint v.dpb ≡ unkncluster) ⊎ InRange v (hint v.dpb)

  -- `w` is a drive with the entries of `v`.
  pub record Alike (v w : Volume) : Type 0 where
    pub drive : IsDrive w
    pub entries : (d : ℕ) → entry w d ≡ entry v d
    pub top : max_cluster w.dpb ≡ max_cluster v.dpb
    pub kind : is_fat32 w.dpb ≡ is_fat32 v.dpb

  -- `w` is a drive with the entries of `v` but for one.
  pub record Wrote (v : Volume) (c x : ℕ) (w : Volume) : Type 0 where
    pub drive : IsDrive w
    pub here : entry w c ≡ x
    pub others : (d : ℕ) → c ≢ d → entry w d ≡ entry v d
    pub top : max_cluster w.dpb ≡ max_cluster v.dpb
    pub kind : is_fat32 w.dpb ≡ is_fat32 v.dpb

  pub Alike-refl : (v : Volume) → IsDrive v → Alike v v
  Alike-refl v d = record { drive = d; entries = λ c. refl; top = refl; kind = refl }

  pub Alike-trans : (u v w : Volume) → Alike u v → Alike v w → Alike u w
  Alike-trans u v w a b = record {
    drive = b.drive;
    entries = λ d. b.entries d ∙ a.entries d;
    top = b.top ∙ a.top;
    kind = b.kind ∙ a.kind;
  }

  pub Wrote-Alike : (u v w : Volume) (c x : ℕ) → Wrote u c x v → Alike v w → Wrote u c x w
  Wrote-Alike u v w c x a b = record {
    drive = b.drive;
    here = b.entries c ∙ a.here;
    others = λ d ne. b.entries d ∙ a.others d ne;
    top = b.top ∙ a.top;
    kind = b.kind ∙ a.kind;
  }

  pub Alike-Wrote : (u v w : Volume) (c x : ℕ) → Alike u v → Wrote v c x w → Wrote u c x w
  Alike-Wrote u v w c x a b = record {
    drive = b.drive;
    here = b.here;
    others = λ d ne. b.others d ne ∙ a.entries d;
    top = b.top ∙ a.top;
    kind = b.kind ∙ a.kind;
  }

  pub same_dpb-IsDrive : (v w : Volume) → w.dpb ≡ v.dpb → T.IsTable w → IsDrive v → IsDrive w
  same_dpb-IsDrive v w e t d = record {
    table = t;
    hint_ok =
        subst (λ p. (hint p ≡ unkncluster) ⊎ ((2 ≤ hint p) × (hint p ≤ max_cluster p))) (sym e)
          d.hint_ok;
  }

  pub read-Alike : (v : Volume) (c : ℕ) → IsDrive v → Alike v (link_fat v c read_cluster).1
  read-Alike v c d =
      let e = T.read_dpb v c d.table in
      record {
        drive = same_dpb-IsDrive v (link_fat v c read_cluster).1 e (T.read_IsTable v c d.table) d;
        entries = λ b. T.read_entry v c b d.table;
        top = ap max_cluster e;
        kind = ap is_fat32 e;
      }

  pub free-Alike : (v : Volume) (c : ℕ) → IsDrive v → Alike v (is_free_cluster v c).1
  unfolding is_free_cluster
  free-Alike v c d = read-Alike v c d

  pub link_fat-Wrote :
      (v : Volume) (c x : ℕ)
      → IsDrive v
      → InRange v c
      → Writable v x
      → ((link_fat v c x).0 ≡ 0) × Wrote v c x (link_fat v c x).1
  unfolding max_cluster is_fat32
  link_fat-Wrote v c x d range w =
      let e = T.write_dpb v c x d.table range w in
      (
        T.write_success v c x d.table range w,
        record {
          drive = record {
            table = T.write_IsTable v c x d.table range w;
            hint_ok =
                subst (λ p. (hint p ≡ unkncluster) ⊎ ((2 ≤ hint p) × (hint p ≤ max_cluster p)))
                  (sym e) d.hint_ok;
          };
          here = T.write_entry v c x d.table range w;
          others = λ b ne. T.write_other v c b x d.table range w ne;
          top = ap max_cluster e;
          kind = ap is_fat32 e;
        },
      )

  -- The value of `next_cluster`, and that it changes no entry.
  pub next_cluster-follow :
      (v : Volume) (c : ℕ)
      → IsDrive v
      → ((next_cluster v c).0 ≡ follow (entry v) (max_cluster v.dpb) c)
        × Alike v (next_cluster v c).1
  unfolding next_cluster
  next_cluster-follow v c d =
      let v1 = (link_fat v c read_cluster).1 in
      let a1 = read-Alike v c d in
      let a2 = read-Alike v1 (entry v c) a1.drive in
      let v2 = (link_fat v1 (entry v c) read_cluster).1 in
      subst
        (λ f.
          ((next_cluster v c).0 ≡ answer (entry v c) f (max_cluster v.dpb))
          × Alike v (next_cluster v c).1)
        (a1.entries (entry v c))
        (followed (Alike v) (entry v c) (entry v1 (entry v c)) (max_cluster v.dpb) v1 v2 a1
          (Alike-trans v v1 v2 a1 a2))
