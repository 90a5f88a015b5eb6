-- ===== src/Mem/Blocks/Change.antt =====
-- `DosMemChange` on a chain of control blocks.
use burdah_dos_system.Base.{
  ◌%◌, ℕ, ◌+◌, ◌-◌, ◌≤◌, ◌<◌, ◌≡◌, ◌≢◌, ◌⊎◌, inl, inr, refl, sym, ap, ◌∙◌, true, false, Option,
  some, List, ◌∷◌, arith, ltb, ltb→lt, Bool-cases,
}
use burdah_dos_system.Mem.{
  success, de_nomem, Mcb, Memory, mcb_normal, seg_mod, mcb_free, free_psp, store, mcb_valid,
  nxt_mcb_size, Arena, join_mcbs,
}
use burdah_dos_system.Mem.Chain.{
  Seg, IsTyped, IsChain, SameOutside, owned, Seg-span, Seg-frame, Seg-valid, owned-free, store_self,
  store_other, Seg-at,
}
use burdah_dos_system.Mem.Join.{
  absorb, Joined, join_mcbs-absorb, owned-absorb, psp-absorb, size-absorb, NoneFree,
  absorb-NoneFree,
}
use burdah_dos_system.Mem.Alloc.{put_size}
use burdah_dos_system.Mem.Alloc.Visit.{mcb_free-absorb}
use burdah_dos_system.Mem.Blocks.{
  Changed, changed, take_over, cut_block, shrink, grown, dos_mem_change,
}
use burdah_dos_system.Mem.Blocks.Free.{IsTyped-head}

-- Memory `g` holds the chain `c ∷ cs` where the chain `b ∷ bs` was, with the same blocks in use
-- behind the first one.
pub record Reshaped (m : Memory) (p : ℕ) (b : Mcb) (bs : List Mcb) (q : ℕ) (g : Memory) (c : Mcb)
    (cs : List Mcb) : Type 0 where
  pub seg : Seg g p (c ∷ cs) q
  pub typed : IsTyped c cs
  pub same : SameOutside p q m g
  pub others : owned (p + c.m_size + 1) cs ≡ owned (p + b.m_size + 1) bs

Reshaped-trans :
    (m g h : Memory) (p q : ℕ) (b c d : Mcb) (bs cs ds : List Mcb)
    → Reshaped m p b bs q g c cs
    → Reshaped g p c cs q h d ds
    → Reshaped m p b bs q h d ds
Reshaped-trans m g h p q b c d bs cs ds r s = record {
  seg = s.seg;
  typed = s.typed;
  same = λ a k. s.same a k ∙ r.same a k;
  others = s.others ∙ r.others;
}

abbrev pub Resized : Arena → ℕ → Mcb → List Mcb → ℕ → ℕ → Option ℕ → Changed → Type 0
Resized a p b bs q size n r =
    (c : Mcb) × (cs : List Mcb) × Reshaped a.mem p b bs q r.mem c cs
    × (((r.status ≡ success) × (c.m_size ≡ size) × (c.m_psp ≡ a.cu_psp) × (r.max_size ≡ n))
        ⊎ ((r.status ≡ de_nomem)
            × (c.m_size < size)
            × (b.m_size ≤ c.m_size)
            × NoneFree cs
            × (c.m_psp ≡ b.m_psp)
            × (r.max_size ≡ put_size n c.m_size)))

module _ (m : Memory) (p size : ℕ) (b : Mcb) (bs : List Mcb) (q : ℕ) (s : Seg m p (b ∷ bs) q)
    (t : IsTyped b bs) (le : q ≤ seg_mod) where
  abbrev head_cut : Mcb
  head_cut = record b { m_size = size; m_type = mcb_normal }

  abbrev rest_cut : Mcb
  rest_cut = record (m (p + size + 1)) {
    m_size = b.m_size - size - 1;
    m_type = b.m_type;
    m_psp = free_psp;
  }

  cut_nxt : size < b.m_size → nxt_mcb_size p size ≡ p + size + 1
  unfolding nxt_mcb_size
  cut_nxt lt = omega (arith, Seg-span m (p + b.m_size + 1) bs q s.1)

  cut_self : size < b.m_size → cut_block m p size p ≡ head_cut
  unfolding cut_block
  cut_self lt = ground (arith, s.0, Seg-span m (p + b.m_size + 1) bs q s.1)

  cut_rest : size < b.m_size → cut_block m p size (p + size + 1) ≡ rest_cut
  unfolding cut_block
  cut_rest lt = ground (arith, s.0, Seg-span m (p + b.m_size + 1) bs q s.1)

  cut_other : size < b.m_size → (a : ℕ) → a ≢ p → a ≢ p + size + 1 → cut_block m p size a ≡ m a
  unfolding cut_block
  cut_other lt a e f = ground (arith, Seg-span m (p + b.m_size + 1) bs q s.1)

  rest_free : mcb_free rest_cut ≡ true
  unfolding mcb_free
  rest_free = refl

  cut-Reshaped : size < b.m_size → Reshaped m p b bs q (cut_block m p size) head_cut (rest_cut ∷ bs)
  cut-Reshaped lt =
      let far = Seg-span m (p + b.m_size + 1) bs q s.1 in
      let g = cut_block m p size in
      record {
        seg = (
          cut_self lt,
          (
            cut_rest lt,
            Seg-at g bs q (p + b.m_size + 1) _ (omega arith) (
                Seg-frame {m = m} {g = g} (p + b.m_size + 1) bs q s.1
                  (λ a h k. cut_other lt a (omega arith) (omega arith))),
          ),
        );
        typed = (refl, IsTyped-head b rest_cut bs refl t);
        same = λ a h. cut_other lt a (omega arith) (omega arith);
        others =
            owned-free (p + size + 1) rest_cut bs rest_free ∙ ap (λ x. owned x bs) (omega arith);
      }

-- `p->m_psp = cu_psp`
take_over-Reshaped :
    (m : Memory) (p psp : ℕ) (b : Mcb) (bs : List Mcb) (q : ℕ)
    → Seg m p (b ∷ bs) q
    → IsTyped b bs
    → Reshaped m p b bs q (store m p (record (m p) { m_psp = psp })) (record b { m_psp = psp }) bs
take_over-Reshaped m p psp b bs q s t =
    let g = store m p (record (m p) { m_psp = psp }) in
    let far = Seg-span m (p + b.m_size + 1) bs q s.1 in
    record {
      seg = (
        store_self m p _ _ (ap (λ (c : Mcb). record c { m_psp = psp }) s.0),
        Seg-frame {m = m} {g = g} (p + b.m_size + 1) bs q s.1
            (λ a h k. store_other m p _ a (omega arith)),
      );
      typed = IsTyped-head b (record b { m_psp = psp }) bs refl t;
      same = λ a h. store_other m p _ a (omega arith);
      others = refl;
    }

-- The rest of a cut block is joined with the unused blocks behind it.
join_rest :
    (m : Memory) (p : ℕ) (c d : Mcb) (ds : List Mcb) (q : ℕ)
    → Seg m p (c ∷ d ∷ ds) q
    → IsTyped c (d ∷ ds)
    → q ≤ seg_mod
    → mcb_free d ≡ true
    → (g : Memory) × (join_mcbs m (p + c.m_size + 1) ≡ some (success, g))
      × Reshaped m p c (d ∷ ds) q g c ((absorb d ds).0 ∷ (absorb d ds).1)
join_rest m p c d ds q s t le free =
    let p1 = p + c.m_size + 1 in
    let (g, run, j) = join_mcbs-absorb m p1 d ds q s.1 t.1 le in
    (
      g,
      run,
      record {
        seg = (j.same p (inl (omega arith)) ∙ s.0, j.seg);
        typed = (t.0, j.typed);
        same = λ a h. j.same a (omega arith);
        others =
            owned-free p1 (absorb d ds).0 (absorb d ds).1 (mcb_free-absorb d ds free)
            ∙ owned-absorb p1 d ds
            ∙ sym (owned-free p1 d ds free);
      },
    )

abbrev Shrinks : Memory → ℕ → Mcb → List Mcb → ℕ → ℕ → ℕ → Option ℕ → Changed → Type 0
Shrinks m p b bs q size psp n r =
    (c : Mcb) × (cs : List Mcb) × Reshaped m p b bs q r.mem c cs
    × (r.status ≡ success)
    × (c.m_size ≡ size)
    × (c.m_psp ≡ psp)
    × (r.max_size ≡ n)

shrink-exact :
    (m : Memory) (p psp size : ℕ) (n : Option ℕ)
    → (ltb size (m p).m_size) ≡ false
    → shrink m p psp size n ≡ some (take_over m p psp n)
unfolding shrink
shrink-exact m p psp size n h = rw h refl

shrink-cut :
    (m : Memory) (p psp size : ℕ) (n : Option ℕ) (g : Memory)
    → (ltb size (m p).m_size) ≡ true
    → join_mcbs (cut_block m p size) (nxt_mcb_size p size) ≡ some (success, g)
    → shrink m p psp size n ≡ some (take_over g p psp n)
unfolding shrink
shrink-cut m p psp size n g h j = rw h (rw j refl)

shrink-Shrinks :
    (m : Memory) (p psp size : ℕ) (n : Option ℕ) (b : Mcb) (bs : List Mcb) (q : ℕ)
    → Seg m p (b ∷ bs) q
    → IsTyped b bs
    → q ≤ seg_mod
    → size ≤ b.m_size
    → (r : Changed) × (shrink m p psp size n ≡ some r) × Shrinks m p b bs q size psp n r
unfolding take_over
shrink-Shrinks m p psp size n b bs q s t le fits = elim (Bool-cases (ltb size b.m_size)) [
  | inr no_cut ↦ (
    take_over m p psp n,
    shrink-exact m p psp size n (rw s.0 no_cut),
    (
      record b { m_psp = psp },
      bs,
      take_over-Reshaped m p psp b bs q s t,
      refl,
      ground arith,
      refl,
      refl,
    ),
  )
  | inl lower ↦
      let lt : size < b.m_size = ltb→lt _ _ lower in
      let c = head_cut m p size b bs q s t le in
      let d = rest_cut m p size b bs q s t le in
      let r1 = cut-Reshaped m p size b bs q s t le lt in
      let (g, run, r2) =
        join_rest (cut_block m p size) p c d bs q r1.seg r1.typed le
          (rest_free m p size b bs q s t le) in
      let r3 = take_over-Reshaped g p psp c ((absorb d bs).0 ∷ (absorb d bs).1) q r2.seg r2.typed in
      (
        take_over g p psp n,
        shrink-cut m p psp size n g (rw s.0 lower) (rw (cut_nxt m p size b bs q s t le lt) run),
        (
          record c { m_psp = psp },
          (absorb d bs).0 ∷ (absorb d bs).1,
          Reshaped-trans m _ _ p q b c _ bs _ _ r1 (Reshaped-trans _ g _ p q c c _ _ _ _ r2 r3),
          refl,
          refl,
          refl,
          refl,
        ),
      )
]

join-Reshaped :
    (m : Memory) (p : ℕ) (b : Mcb) (bs : List Mcb) (q : ℕ) (g : Memory)
    → Joined m p (absorb b bs) q g
    → Reshaped m p b bs q g (absorb b bs).0 (absorb b bs).1
join-Reshaped m p b bs q g j = record {
  seg = j.seg;
  typed = j.typed;
  same = j.same;
  others = owned-absorb p b bs;
}

grown-enough :
    (p psp size : ℕ) (n : Option ℕ) (g : Memory)
    → ltb (g p).m_size size ≡ false
    → grown p psp size n (some (success, g)) ≡ shrink g p psp size n
unfolding grown
grown-enough p psp size n g h = rw h refl

grown-short :
    (p psp size : ℕ) (n : Option ℕ) (g : Memory)
    → ltb (g p).m_size size ≡ true
    → grown p psp size n (some (success, g)) ≡ some (changed de_nomem (put_size n (g p).m_size) g)
unfolding grown
grown-short p psp size n g h = rw h refl

grow-Resized :
    (a : Arena) (p size : ℕ) (n : Option ℕ) (b : Mcb) (bs : List Mcb) (q : ℕ) (g : Memory)
    → q ≤ seg_mod
    → Joined a.mem p (absorb b bs) q g
    → (r : Changed) × (grown p a.cu_psp size n (some (success, g)) ≡ some r)
      × Resized a p b bs q size n r
grow-Resized a p size n b bs q g le j = elim (Bool-cases (ltb (absorb b bs).0.m_size size)) [
  | inl short ↦ (
    changed de_nomem (put_size n (g p).m_size) g,
    grown-short p a.cu_psp size n g (rw j.seg.0 short),
    (
      (absorb b bs).0,
      (absorb b bs).1,
      join-Reshaped a.mem p b bs q g j,
      inr (
        refl,
        ltb→lt _ _ short,
        size-absorb b bs,
        absorb-NoneFree b bs,
        psp-absorb b bs,
        ap (λ (c : Mcb). put_size n c.m_size) j.seg.0,
      ),
    ),
  )
  | inr enough ↦
      let (r, run, (c, cs, resh, st, sz, ps, mx)) =
        shrink-Shrinks g p a.cu_psp size n (absorb b bs).0 (absorb b bs).1 q j.seg j.typed le
          (ground arith) in
      (
        r,
        grown-enough p a.cu_psp size n g (rw j.seg.0 enough) ∙ run,
        (
          c,
          cs,
          Reshaped-trans _ _ _ _ _ _ _ _ _ _ _ (join-Reshaped a.mem p b bs q g j) resh,
          inl (st, sz, ps, mx),
        ),
      )
]

header_below : (p : ℕ) → p < seg_mod → (p + 1 + seg_mod - 1) % seg_mod ≡ p
header_below p lt = omega arith

change-grow :
    (a : Arena) (p size : ℕ) (n : Option ℕ)
    → p < seg_mod
    → mcb_valid (a.mem p) ≡ true
    → ltb (a.mem p).m_size size ≡ true
    → dos_mem_change a (p + 1) size n ≡ grown p a.cu_psp size n (join_mcbs a.mem p)
unfolding dos_mem_change
change-grow a p size n lt v h = rw (header_below p lt) (rw (v, h) refl)

change-shrink :
    (a : Arena) (p size : ℕ) (n : Option ℕ)
    → p < seg_mod
    → mcb_valid (a.mem p) ≡ true
    → ltb (a.mem p).m_size size ≡ false
    → dos_mem_change a (p + 1) size n ≡ shrink a.mem p a.cu_psp size n
unfolding dos_mem_change
change-shrink a p size n lt v h = rw (header_below p lt) (rw (v, h) refl)

-- `DosMemChange` of a block (in use or not) of a chain returns, and writes only in the chain from the block on. The chain
-- keeps its extent, and the blocks in use behind this one stay as they are. Either the block has the
-- size that was asked for and belongs to the current process; or, with `DE_NOMEM`, it has grown up to
-- the next block in use or the end of the chain, has still less than was asked for, keeps its owner,
-- and `*maxSize` is its size.
pub dos_mem_change-Resized :
    (a : Arena) (p size : ℕ) (n : Option ℕ) (b : Mcb) (bs : List Mcb) (q : ℕ)
    → IsChain a.mem p b bs q
    → (r : Changed) × (dos_mem_change a (p + 1) size n ≡ some r) × Resized a p b bs q size n r
dos_mem_change-Resized a p size n b bs q ch =
    let v = Seg-valid a.mem p b bs q ch.seg ch.typed ch.start_pos ch.bounded in
    let e = Seg-span a.mem p (b ∷ bs) q ch.seg in
    let lt : p < seg_mod = omega (arith, ch.bounded) in
    elim (Bool-cases (ltb b.m_size size)) [
      | inl more ↦
          let (g, run, j) = join_mcbs-absorb a.mem p b bs q ch.seg ch.typed ch.bounded in
          let (r, run', z) = grow-Resized a p size n b bs q g ch.bounded j in
          (
            r,
            change-grow a p size n lt v (rw ch.seg.0 more)
                ∙ ap (grown p a.cu_psp size n) run
                ∙ run',
            z,
          )
      | inr less ↦
          let (r, run, (c, cs, resh, st, sz, ps, mx)) =
            shrink-Shrinks a.mem p a.cu_psp size n b bs q ch.seg ch.typed ch.bounded
              (ground arith) in
          (
            r,
            change-shrink a p size n lt v (rw ch.seg.0 less) ∙ run,
            (c, cs, resh, inl (st, sz, ps, mx)),
          )
    ]
