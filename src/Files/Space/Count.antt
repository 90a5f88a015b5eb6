-- ===== src/Files/Space/Count.antt =====
-- kernel/fatfs.c, `dos_free`: the answer is the number of free entries.
use burdah_dos_system.Base.{
  ℕ, zero, suc, ◌+◌, ◌-◌, ◌%◌, ◌≤◌, ◌<◌, ◌≡◌, ◌⊎◌, refl, sym, ap, ◌∙◌, subst, true, false,
  Bool-cases, ◌==◌, inl, inr, if◌then◌else◌, arith,
}
use burdah_dos_system.Fat.Entry.{free, read_cluster, long_bad}
use burdah_dos_system.Fat.Link.{
  Volume, is_fat32, is_free_cluster, link_fat, max_cluster, write_fsinfo, xunknclstfree,
}
use burdah_dos_system.Fat.Link.Frame.{with_free}
use burdah_dos_system.Files.Space.{note_first, count_one, count_loop, note_count, dos_free}
use burdah_dos_system.Files.Table.{entry, InRange, Table}
use burdah_dos_system.Files.Table.Steps.{IsDrive, Alike, Alike-refl, Alike-trans, read-Alike}
use burdah_dos_system.Files.Table.Hints.{
  write_fsinfo-Alike, with_cluster-Alike, with_xcluster-Alike, word,
}

-- The free entries among the `left` ones from `i` on.
abbrev pub free_entries : (ℕ → ℕ) → (left i : ℕ) → ℕ
free_entries e zero i = 0
free_entries e (suc left) i = (if e i == free then 1 else 0) + free_entries e left (i + 1)

free_entries-same :
    (e f : ℕ → ℕ) (left i : ℕ)
    → ((d : ℕ) → f d ≡ e d)
    → free_entries f left i ≡ free_entries e left i
free_entries-same e f zero i same = refl
free_entries-same e f (suc left) i same = rw (same i, free_entries-same e f left (i + 1) same) refl

-- The drive does not know the number of its free clusters.
abbrev pub IsUnknown : Volume → Type 0
IsUnknown v =
    ((is_fat32 v.dpb ≡ true) × (v.dpb.dpb_xnfreeclst ≡ xunknclstfree))
    ⊎ ((is_fat32 v.dpb ≡ false) × (v.dpb.dpb_xnfreeclst % 0x10000 ≡ 0xffff))

dos_free-unknown :
    (v : Volume)
    → IsUnknown v
    → dos_free v ≡ note_count (count_loop (max_cluster v.dpb - 1) 2 (0, v))
unfolding dos_free
dos_free-unknown v (inl (is32, unknown)) = rw (is32, unknown) refl
dos_free-unknown v (inr (not32, unknown)) = rw (not32, unknown) refl

count_one-step :
    (i cnt : ℕ) (v : Volume)
    → count_one i (cnt, v) ≡ (
        if entry v i == free
        then (cnt + 1, note_first cnt i (link_fat v i read_cluster).1)
        else (cnt, (link_fat v i read_cluster).1))
unfolding count_one is_free_cluster
count_one-step i cnt v = refl

dos_free-known32 :
    (v : Volume)
    → is_fat32 v.dpb ≡ true
    → (v.dpb.dpb_xnfreeclst == xunknclstfree) ≡ false
    → dos_free v ≡ (v.dpb.dpb_xnfreeclst, v)
unfolding dos_free
dos_free-known32 v is32 known = rw (is32, known) refl

dos_free-known16 :
    (v : Volume)
    → is_fat32 v.dpb ≡ false
    → (v.dpb.dpb_xnfreeclst % 0x10000 == 0xffff) ≡ false
    → dos_free v ≡ (v.dpb.dpb_xnfreeclst % 0x10000, v)
unfolding dos_free
dos_free-known16 v not32 known = rw (not32, known) refl

note_count-32 :
    (cnt : ℕ) (v : Volume)
    → is_fat32 v.dpb ≡ true
    → note_count (cnt, v) ≡ (cnt, write_fsinfo (with_free cnt v))
unfolding note_count
note_count-32 cnt v is32 = rw is32 refl

note_count-16 :
    (cnt : ℕ) (v : Volume)
    → is_fat32 v.dpb ≡ false
    → note_count (cnt, v)
      ≡ (cnt, with_free (v.dpb.dpb_xnfreeclst - v.dpb.dpb_xnfreeclst % 0x10000 + cnt % 0x10000) v)
unfolding note_count
note_count-16 cnt v not32 = rw not32 refl

not_unknown : (n cnt top : ℕ) → n ≡ cnt → cnt < top → top < long_bad → (n == xunknclstfree) ≡ false
not_unknown n cnt top e low small = ground arith

not_unknown16 : (n cnt top : ℕ) → n ≡ cnt → cnt < top → top < 0x10000 → (n == 0xffff) ≡ false
not_unknown16 n cnt top e low small = ground arith

low_word : (n cnt : ℕ) → cnt < 0x10000 → (n - n % 0x10000 + cnt % 0x10000) % 0x10000 ≡ cnt
low_word n cnt low = omega arith

module _ (T : Table) where
  note_first-Alike :
      (v : Volume) (cnt i : ℕ) → IsDrive T v → InRange v i → Alike T v (note_first cnt i v)
  unfolding note_first
  note_first-Alike v cnt i d range = elim (Bool-cases (cnt == 0)) [
    | inl first ↦ elim (Bool-cases (is_fat32 v.dpb)) [
      | inl is32 ↦ rw (first, is32) ((with_xcluster-Alike T v i d is32 (inr range)).0)
      | inr not32 ↦
          let e = word T v i d not32 (inr range) in
          rw (first, not32) ((with_cluster-Alike T v (i % 0x10000) d not32 (inr (rw e range))).0)
    ]
    | inr later ↦ rw later (Alike-refl T v d)
  ]

  count_one-Alike :
      (u v : Volume) (cnt i : ℕ)
      → Alike T u v
      → InRange u i
      → ((count_one i (cnt, v)).0 ≡ cnt + (if entry u i == free then 1 else 0))
        × Alike T u (count_one i (cnt, v)).1
  count_one-Alike u v cnt i a range =
      let v1 = (link_fat v i read_cluster).1 in
      let a1 = Alike-trans T u v v1 a (read-Alike T v i a.drive) in
      let range1 : InRange v1 i = (range.0, subst (λ t. i ≤ t) (sym a1.top) range.1) in
      let a2 =
        Alike-trans T u v1 (note_first cnt i v1) a1 (note_first-Alike v1 cnt i a1.drive range1) in
      let step = count_one-step i cnt v in
      let same = a.entries i in
      elim (Bool-cases (entry u i == free)) [
        | inl is_free ↦ rw (step, same, is_free) (refl, a2)
        | inr in_use ↦ rw (step, same, in_use) (omega arith, a1)
      ]

  count_loop-Alike :
      (left i cnt : ℕ) (u v : Volume)
      → Alike T u v
      → 2 ≤ i
      → i + left ≤ max_cluster u.dpb + 1
      → ((count_loop left i (cnt, v)).0 ≡ cnt + free_entries (entry u) left i)
        × Alike T u (count_loop left i (cnt, v)).1
  unfolding count_loop
  count_loop-Alike zero i cnt u v a low high = (omega arith, a)
  count_loop-Alike (suc left) i cnt u v a low high =
      let (e, a1) = count_one-Alike u v cnt i a (low, omega (arith, high)) in
      let (n, w) = count_one i (cnt, v) in
      let (f, a2) =
        count_loop-Alike left (i + 1) n u w a1 (omega (arith, low)) (omega (arith, high)) in
      (omega (arith, e, f), a2)

  with_free-Alike : (v : Volume) (n : ℕ) → IsDrive T v → Alike T v (with_free n v)
  unfolding max_cluster is_fat32
  with_free-Alike v n d = record {
    drive = record { table = T.free_IsTable v n d.table; hint_ok = d.hint_ok };
    entries = λ b. T.free_entry v n b d.table;
    top = refl;
    kind = refl;
  }

  note_count-Alike : (cnt : ℕ) (v : Volume) → IsDrive T v → Alike T v (note_count (cnt, v)).1
  unfolding note_count
  note_count-Alike cnt v d =
      let n = v.dpb.dpb_xnfreeclst in
      let a = with_free-Alike v cnt d in
      elim (Bool-cases (is_fat32 v.dpb)) [
        | inl is32 ↦
            let w = with_free cnt v in
            rw is32 (
              Alike-trans T v w (write_fsinfo w) a (write_fsinfo-Alike T w a.drive (a.kind ∙ is32)))
        | inr not32 ↦ rw not32 (with_free-Alike v (n - n % 0x10000 + cnt % 0x10000) d)
      ]

  -- On a drive with a table that does not know the number of its free clusters and whose highest
  -- number of a cluster is 1 at least, `dos_free` answers the number of the clusters whose entries
  -- are free, and changes no entry.
  pub dos_free-free_entries :
      (v : Volume)
      → IsDrive T v
      → 1 ≤ max_cluster v.dpb
      → IsUnknown v
      → ((dos_free v).0 ≡ free_entries (entry v) (max_cluster v.dpb - 1) 2)
        × Alike T v (dos_free v).1
  unfolding note_count
  dos_free-free_entries v d some_there unknown =
      let (e, a) =
        count_loop-Alike (max_cluster v.dpb - 1) 2 0 v v (Alike-refl T v d) (omega arith)
          (omega (arith, some_there)) in
      let (n, w) = count_loop (max_cluster v.dpb - 1) 2 (0, v) in
      rw (dos_free-unknown v unknown)
        (omega (arith, e), Alike-trans T v w (note_count (n, w)).1 a (note_count-Alike n w a.drive))

  dos_free-noted :
      (cnt : ℕ) (v : Volume)
      → IsDrive T v
      → cnt < max_cluster v.dpb
      → dos_free (note_count (cnt, v)).1 ≡ note_count (cnt, v)
  unfolding is_fat32
  dos_free-noted cnt v d low = elim (Bool-cases (is_fat32 v.dpb)) [
    | inl is32 ↦
        let w = write_fsinfo (with_free cnt v) in
        let e = note_count-32 cnt v is32 in
        let same = T.fsinfo_dpb (with_free cnt v) in
        let n : w.dpb.dpb_xnfreeclst ≡ cnt = ap (λ p. p.dpb_xnfreeclst) same in
        ap (λ r. dos_free r.1) e
        ∙ dos_free-known32 w (ap is_fat32 same ∙ is32)
            (not_unknown w.dpb.dpb_xnfreeclst cnt (max_cluster v.dpb) n low (T.top_small v d.table))
        ∙ ap (λ k. (k, w)) n
        ∙ sym e
    | inr not32 ↦
        let m = v.dpb.dpb_xnfreeclst - v.dpb.dpb_xnfreeclst % 0x10000 + cnt % 0x10000 in
        let w = with_free m v in
        let e = note_count-16 cnt v not32 in
        let word_ = T.top_word v d.table not32 in
        let n : m % 0x10000 ≡ cnt = low_word v.dpb.dpb_xnfreeclst cnt (omega (arith, low, word_)) in
        ap (λ r. dos_free r.1) e
        ∙ dos_free-known16 w not32 (not_unknown16 (m % 0x10000) cnt (max_cluster v.dpb) n low word_)
        ∙ ap (λ k. (k, w)) n
        ∙ sym e
  ]

  free_entries-bound : (e : ℕ → ℕ) (left i : ℕ) → free_entries e left i ≤ left
  free_entries-bound e zero i = omega arith
  free_entries-bound e (suc left) i = ground (arith, free_entries-bound e left (i + 1))

  -- On a drive with a table that does not know the number of its free clusters and whose highest
  -- number of a cluster is 1 at least, a second `dos_free` answers what the first did and changes
  -- nothing.
  pub dos_free-again :
      (v : Volume)
      → IsDrive T v
      → 1 ≤ max_cluster v.dpb
      → IsUnknown v
      → dos_free (dos_free v).1 ≡ dos_free v
  dos_free-again v d some_there unknown =
      let (e, a) =
        count_loop-Alike (max_cluster v.dpb - 1) 2 0 v v (Alike-refl T v d) (omega arith)
          (omega (arith, some_there)) in
      let r = count_loop (max_cluster v.dpb - 1) 2 (0, v) in
      let less = free_entries-bound (entry v) (max_cluster v.dpb - 1) 2 in
      let low : r.0 < max_cluster r.1.dpb = omega (arith, e, a.top, less, some_there) in
      rw (dos_free-unknown v unknown) (dos_free-noted r.0 r.1 a.drive low)
