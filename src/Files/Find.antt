-- ===== src/Files/Find.antt =====
-- kernel/fatfs.c, `find_fat_free`: the search goes once through the clusters of the drive.
use burdah_dos_system.Base.{
  ℕ, zero, suc, ◌+◌, ◌-◌, ◌≤◌, ◌<◌, ◌≡◌, ◌≢◌, ◌⊎◌, refl, sym, ap, ◌∙◌, true, Bool, ltb, leb, ◌==◌,
  ◌||◌, ◌&&◌, Bool-cases, inl, inr, if◌then◌else◌, arith, ==→eq, some,
}
use burdah_dos_system.Fat.Entry.{free, read_cluster, long_last_cluster}
use burdah_dos_system.Fat.Link.{
  Volume, is_fat32, max_cluster, link_fat, is_free_cluster, unkncluster,
}
use burdah_dos_system.Files.{
  next_index, free_search, searched, set_hint, search_start, find_fat_free,
}
use burdah_dos_system.Files.Table.{entry, InRange, Table}
use burdah_dos_system.Files.Table.Steps.{hint, IsDrive, Alike, Alike-refl, Alike-trans, read-Alike}
use burdah_dos_system.Files.Table.Hints.{set_hint-Alike}

-- The rounds that are left of a search that started at `start`.
abbrev left : (top start idx : ℕ) → ℕ
left top start idx = if leb start idx then top + start - idx else start - idx

-- Whether a search from `start` has been at a cluster before it comes to `idx`.
abbrev passed : (start idx c : ℕ) → Bool
passed start idx c = if leb start idx then leb start c && ltb c idx else leb start c || ltb c idx

-- The entries that a search from `start` has seen before `idx` are in use.
abbrev Seen : (ℕ → ℕ) → (top start idx : ℕ) → Type 0
Seen e top start idx = (c : ℕ) → 2 ≤ c → c ≤ top → passed start idx c ≡ true → e c ≢ free

nothing_passed : (start c : ℕ) → passed start start c ≡ true → ⊥
nothing_passed start c h = ground arith

left_start : (top start : ℕ) → left top start start < top + 2
left_start top start = ground arith

-- What a search finds: a free cluster, or that no cluster is free.
abbrev pub Result : (ℕ → ℕ) → (top cluster idx : ℕ) → Type 0
Result e top cluster idx =
    ((cluster ≡ idx) × (2 ≤ idx) × (idx ≤ top) × (e idx ≡ free))
    ⊎ ((cluster ≡ unkncluster)
        × (idx ≡ long_last_cluster)
        × ((c : ℕ) → 2 ≤ c → c ≤ top → e c ≢ free))

free_search-step :
    (fuel size start idx : ℕ) (v : Volume)
    → free_search (suc fuel) size start idx v ≡ (
        if entry v idx == free
        then some (idx, idx, (link_fat v idx read_cluster).1)
        else if next_index size idx == start
        then some (unkncluster, long_last_cluster, (link_fat v idx read_cluster).1)
        else free_search fuel size start (next_index size idx) (link_fat v idx read_cluster).1)
unfolding free_search is_free_cluster
free_search-step fuel size start idx v = refl

-- The clusters passed at the next step are the ones passed before and the one of this step; these are
-- all clusters when the search is back at its start.
next_index-passed :
    (top start idx c : ℕ)
    → 2 ≤ start
    → start ≤ top
    → idx ≤ top
    → 2 ≤ c
    → c ≤ top
    → (next_index top idx ≡ start) ⊎ (passed start (next_index top idx) c ≡ true)
    → (c ≡ idx) ⊎ (passed start idx c ≡ true)
unfolding next_index
next_index-passed top start idx c s2 st it c2 ct h = ground arith

next_index-Seen :
    (e : ℕ → ℕ) (top start idx : ℕ)
    → 2 ≤ start
    → start ≤ top
    → idx ≤ top
    → e idx ≢ free
    → Seen e top start idx
    → (c : ℕ) → 2 ≤ c
    → c ≤ top
    → (next_index top idx ≡ start) ⊎ (passed start (next_index top idx) c ≡ true)
    → e c ≢ free
next_index-Seen e top start idx s2 st it full seen c c2 ct h =
    elim (next_index-passed top start idx c s2 st it c2 ct h) [
      | inl here ↦ λ z. full (sym (ap e here) ∙ z)
      | inr before ↦ seen c c2 ct before
    ]

next_index-left :
    (top start idx : ℕ)
    → 2 ≤ start
    → start ≤ top
    → 2 ≤ idx
    → idx ≤ top
    → next_index top idx ≢ start
    → (left top start (next_index top idx) < left top start idx)
      × (2 ≤ next_index top idx)
      × (next_index top idx ≤ top)
unfolding next_index
next_index-left top start idx s2 st i2 it ne = ground arith

module _ (T : Table) where
  -- What a search of the drive `v` leaves.
  pub record Found (v : Volume) (cluster idx : ℕ) (w : Volume) : Type 0 where
    pub result : Result (entry v) (max_cluster v.dpb) cluster idx
    pub alike : Alike T v w

  free_search-Found :
      (fuel start idx : ℕ) (u v : Volume)
      → Alike T u v
      → InRange u start
      → InRange u idx
      → Seen (entry u) (max_cluster u.dpb) start idx
      → left (max_cluster u.dpb) start idx < fuel
      → (c : ℕ) × (i : ℕ) × (w : Volume) × (free_search fuel (max_cluster u.dpb) start idx v
          ≡ some (c, i, w))
        × Found u c i w
  free_search-Found zero start idx u v a s r seen enough = absurd (omega (arith, enough))
  free_search-Found (suc fuel) start idx u v a s r seen enough =
      let top = max_cluster u.dpb in
      let v1 = (link_fat v idx read_cluster).1 in
      let a1 = Alike-trans T u v v1 a (read-Alike T v idx a.drive) in
      let here = a.entries idx in
      let step = free_search-step fuel top start idx v in
      elim (Bool-cases (entry v idx == free)) [
        | inl is_free ↦ (
          idx,
          idx,
          v1,
          step ∙ rw is_free refl,
          record { result = inl (refl, r.0, r.1, ground (arith, here, is_free)); alike = a1 },
        )
        | inr in_use ↦
            let full : entry u idx ≢ free = λ z. ground (arith, here, in_use, z) in
            elim (Bool-cases (next_index top idx == start)) [
              | inl last ↦ (
                unkncluster,
                long_last_cluster,
                v1,
                step ∙ rw (in_use, last) refl,
                record {
                  result = inr (
                    refl,
                    refl,
                    λ c c2 ct.
                        next_index-Seen (entry u) top start idx s.0 s.1 r.1 full seen c c2 ct
                          (inl (==→eq (next_index top idx) start last)),
                  );
                  alike = a1;
                },
              )
              | inr more ↦
                  let (less, low, high) =
                    next_index-left top start idx s.0 s.1 r.0 r.1 (ground arith) in
                  let (c, i, w, e, f) =
                    free_search-Found fuel start (next_index top idx) u v1 a1 s (low, high)
                      (λ c c2 ct h.
                        next_index-Seen (entry u) top start idx s.0 s.1 r.1 full seen c c2 ct
                          (inr h))
                      (omega (arith, less, enough)) in
                  (c, i, w, step ∙ rw (in_use, more) e, f)
            ]
      ]

  search_start-InRange :
      (v : Volume) → IsDrive T v → 2 ≤ max_cluster v.dpb → InRange v (search_start v.dpb)
  unfolding search_start is_fat32
  search_start-InRange v d big = ground (arith, d.hint_ok)

  -- What `find_fat_free` of the drive `v` leaves when it returns `idx` and the drive `w`: a free
  -- cluster, which is the new start of the free space, or that no cluster is free.
  pub record FoundFree (v : Volume) (idx : ℕ) (w : Volume) : Type 0 where
    pub result :
        ((2 ≤ idx) × (idx ≤ max_cluster v.dpb) × (entry v idx ≡ free) × (hint w.dpb ≡ idx))
        ⊎ ((idx ≡ long_last_cluster)
            × ((c : ℕ) → 2 ≤ c → c ≤ max_cluster v.dpb → entry v c ≢ free)
            × (hint w.dpb ≡ unkncluster))
    pub alike : Alike T v w

  Found-FoundFree : (v w : Volume) (c i : ℕ) → Found v c i w → FoundFree v i (set_hint c w)
  Found-FoundFree v w c i f = elim f.result [
    | inl (same, low, high, is_free) ↦
        let (a, h) =
          set_hint-Alike T w c f.alike.drive
            (inr (omega (arith, same, low), omega (arith, same, high, f.alike.top))) in
        record {
          result = inl (low, high, is_free, h ∙ same);
          alike = Alike-trans T v w (set_hint c w) f.alike a;
        }
    | inr (unknown, last, full) ↦
        let (a, h) = set_hint-Alike T w c f.alike.drive (inl unknown) in
        record {
          result = inr (last, full, h ∙ unknown);
          alike = Alike-trans T v w (set_hint c w) f.alike a;
        }
  ]

  -- On a drive with a table and a cluster, whose start of the free space is not known or one of
  -- its clusters, `find_fat_free` returns and changes no entry. It finds a free cluster, which
  -- becomes the start of the free space, or answers the mark of the end, and then no cluster is
  -- free.
  pub find_fat_free-FoundFree :
      (v : Volume)
      → IsDrive T v
      → 2 ≤ max_cluster v.dpb
      → (idx : ℕ) × (w : Volume) × (find_fat_free v ≡ some (idx, w)) × FoundFree v idx w
  unfolding find_fat_free searched
  find_fat_free-FoundFree v d big =
      let start = search_start v.dpb in
      let s = search_start-InRange v d big in
      let (c, i, w, e, f) =
        free_search-Found (max_cluster v.dpb + 2) start start v v (Alike-refl T v d) s s
          (λ c c2 ct h. absurd (nothing_passed start c h)) (left_start (max_cluster v.dpb) start) in
      (i, set_hint c w, ap searched e, Found-FoundFree v w c i f)
