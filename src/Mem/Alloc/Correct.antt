-- ===== src/Mem/Alloc/Correct.antt =====
-- `DosMemAlloc` on a chain of control blocks: what it grants, and when it refuses.
use burdah_dos_system.Base.{
  ℕ, ◌≤◌, ◌<◌, ◌≡◌, ◌≢◌, ◌⊎◌, inl, inr, refl, sym, ap, ◌∙◌, true, false, Option, none, some, List,
  ◌∷◌, arith, ◌==◌, if◌then◌else◌, Bool-cases, ==→eq, right_of,
}
use burdah_dos_system.Mem.{Arena, Mcb, Memory, seg_mod}
use burdah_dos_system.Mem.Chain.{Seg, IsChain, Seg-span, length-le-span}
use burdah_dos_system.Mem.Alloc.{
  largest, first, Search, Walked, more, stop_it, walk, fit_of, mode_largest, search_start,
  Allocated, grant, settle, settle_size, takes_largest, no_block, refuse, searches_again,
  alloc_again, dos_mem_alloc, put_size,
}
use mathlib.Core.Path.{ap₂, subst}
use burdah_dos_system.Mem.Alloc.Visit.{FreeAt}
use burdah_dos_system.Mem.Alloc.Biggest.{IsBiggest}
use burdah_dos_system.Mem.Alloc.Walk.{Outcome, walk-Ends}
use burdah_dos_system.Mem.Alloc.Served.{IsLargest, Served, FreeAt-grow, FreeAt-size, grant-Served}

abbrev begin : Arena → Search
begin a = record { mem = a.mem; found = 0; biggest = 0 }

abbrev run_walk : Arena → ℕ → ℕ → Option Walked
run_walk a size mode = walk seg_mod (fit_of mode) size (begin a) (search_start a size mode)

module _ (a : Arena) (size mode para : ℕ) (asize : Option ℕ) (s : Search) where
  after_stop :
      run_walk a size mode ≡ some (stop_it s)
      → dos_mem_alloc a size mode para asize ≡ some (grant a size mode asize s)
  unfolding dos_mem_alloc alloc_again
  after_stop e = rw (e, alloc_again) refl

  after_found :
      run_walk a size mode ≡ some (more s)
      → no_block (settle size mode s) ≡ false
      → dos_mem_alloc a size mode para asize
        ≡ some (grant a size mode (settle_size size mode asize s) (settle size mode s))
  unfolding dos_mem_alloc alloc_again
  after_found e h = rw (e, alloc_again) (rw h refl)

  after_none :
      run_walk a size mode ≡ some (more s)
      → no_block (settle size mode s) ≡ true
      → searches_again a mode ≡ false
      → dos_mem_alloc a size mode para asize
        ≡ some (refuse a para (settle_size size mode asize s) (settle size mode s))
  unfolding dos_mem_alloc alloc_again
  after_none e h once = rw (e, alloc_again) (rw (h, once) refl)

fit_of-ne-largest : (mode : ℕ) → (mode == mode_largest) ≡ false → fit_of mode ≢ largest
unfolding fit_of
fit_of-ne-largest mode h e = ground arith

settle-yes :
    (size mode : ℕ) (s : Search)
    → takes_largest size mode s ≡ true
    → settle size mode s ≡ record s { found = s.biggest }
unfolding settle
settle-yes size mode s h = rw h refl

settle-no :
    (size mode : ℕ) (s : Search) → takes_largest size mode s ≡ false → settle size mode s ≡ s
unfolding settle
settle-no size mode s h = rw h refl

put_size-settle_size :
    (size mode n : ℕ) (asize : Option ℕ) (s : Search)
    → put_size (settle_size size mode asize s) n ≡ put_size asize n
unfolding settle_size put_size
put_size-settle_size size mode n none s = ground arith
put_size-settle_size size mode n (some k) s = ground arith

-- The search has gone through the chain `b ∷ bs` from `p` on, which is now `c ∷ cs`.
module _ (a : Arena) (size mode p : ℕ) (bs : List Mcb) (q : ℕ) (t : Search) (c : Mcb)
    (cs : List Mcb) (o : Outcome (fit_of mode) size (begin a) p bs q t c cs)
    (big : IsBiggest (begin a) p (c ∷ cs) t) where
  biggest_free : t.biggest ≢ 0 → FreeAt p (c ∷ cs) t.biggest 0
  biggest_free = right_of big.from_chain

  found_fits : t.found ≢ 0 → FreeAt p (c ∷ cs) t.found size
  found_fits = right_of o.found_free

  largest_fits : takes_largest size mode t ≡ true → FreeAt p (c ∷ cs) t.biggest size
  unfolding takes_largest
  largest_fits h =
      FreeAt-grow t.mem p (c ∷ cs) q t.biggest size o.seg (biggest_free (ground arith))
        (ground arith)

  IsLargest-report : IsLargest p (c ∷ cs) (if t.biggest == 0 then 0 else (t.mem t.biggest).m_size)
  IsLargest-report = elim (Bool-cases (t.biggest == 0)) [
    | inl z ↦ rw z (record {
      bound = λ x k f. absurd ((big.covers x k f).0 (==→eq _ _ z));
      reached = inl refl;
    })
    | inr nz ↦ rw nz (record {
      bound = λ x k f. (big.covers x k f).1;
      reached = inr (
        t.biggest,
        FreeAt-grow t.mem p (c ∷ cs) q t.biggest _ o.seg (biggest_free (ground arith))
            (omega arith),
      );
    })
  ]

  no_fit_largest :
      takes_largest size mode t ≡ true
      → no_block (record t { found = t.biggest }) ≡ true
      → 0 < size
      → ⊥
  unfolding takes_largest no_block
  no_fit_largest h k pos = ground arith

  no_fit_other :
      takes_largest size mode t ≡ false
      → no_block t ≡ true
      → 0 < size
      → (x : ℕ) → ¬ FreeAt p (c ∷ cs) x size
  no_fit_other h k pos x f = elim (Bool-cases (t.found == 0)) [
    | inl z ↦ elim (Bool-cases (mode == mode_largest)) [
      | inl e ↦ unfold takes_largest in ground (arith, big.covers x size f)
      | inr ne ↦ o.none_fits (fit_of-ne-largest mode ne) (==→eq _ _ z) x f
    ]
    | inr nz ↦
        unfold no_block in
        ground
          (arith, FreeAt-size t.mem p (c ∷ cs) q t.found size o.seg (found_fits (ground arith)))
  ]

  refuse-Served :
      (para : ℕ) (asize : Option ℕ)
      → no_block (settle size mode t) ≡ true
      → Served a size mode p bs q asize
          (refuse a para (settle_size size mode asize t) (settle size mode t))
  refuse-Served para asize h = elim (Bool-cases (takes_largest size mode t)) [
    | inl k ↦ rw (settle-yes size mode t k) (
        refused (record t { found = t.biggest }) refl refl
          (λ pos x f. no_fit_largest k (rw (settle-yes size mode t k) at h) pos))
    | inr k ↦
        rw (settle-no size mode t k)
          (refused t refl refl (no_fit_other k (rw (settle-no size mode t k) at h)))
  ]
    where
      refused :
          (s : Search)
          → s.mem ≡ t.mem
          → s.biggest ≡ t.biggest
          → (0 < size → (x : ℕ) → ¬ FreeAt p (c ∷ cs) x size)
          → Served a size mode p bs q asize (refuse a para (settle_size size mode asize t) s)
      refused s em eb unfit =
          unfold refuse in
          (
            refl,
            inr (
              refl,
              (
                c,
                cs,
                record {
                  seg = subst (λ (m : Memory). Seg m p (c ∷ cs) q) (sym em) o.seg;
                  typed = o.typed;
                  same = λ x k. ap (λ (m : Memory). m x) em ∙ o.same x k;
                  owned_same = o.owned_same;
                  none_fits = elim (Bool-cases (size == 0)) [
                    | inl y ↦ inl (ground arith)
                    | inr n ↦ inr (unfit (ground arith))
                  ];
                  reports = (
                    _,
                    IsLargest-report,
                    ap₂
                          (λ (m : Memory) x.
                            put_size (settle_size size mode asize t)
                              (if x == 0 then 0 else (m x).m_size))
                          em eb
                        ∙ put_size-settle_size size mode _ asize t,
                  );
                },
              ),
            ),
          )

  more-Served :
      (para : ℕ) (asize : Option ℕ)
      → 0 < a.cu_psp
      → q ≤ seg_mod
      → run_walk a size mode ≡ some (more t)
      → searches_again a mode ≡ false
      → (r : Allocated) × (dos_mem_alloc a size mode para asize ≡ some r)
        × Served a size mode p bs q asize r
  more-Served para asize pos le e once = elim (Bool-cases (no_block (settle size mode t))) [
    | inl h ↦ (_, after_none a size mode para asize t e h once, refuse-Served para asize h)
    | inr h ↦ (_, after_found a size mode para asize t e h, granted h)
  ]
    where
      asize' : Option ℕ
      asize' = settle_size size mode asize t

      granted :
          no_block (settle size mode t) ≡ false
          → Served a size mode p bs q asize (grant a size mode asize' (settle size mode t))
      granted h = elim (Bool-cases (takes_largest size mode t)) [
        | inl k ↦ rw (settle-yes size mode t k) (
            grant-Served a size mode p bs q asize asize' (record t { found = t.biggest }) c cs pos
              le o.seg o.typed o.same o.owned_same (largest_fits k))
        | inr k ↦ rw (settle-no size mode t k) (
            grant-Served a size mode p bs q asize asize' t c cs pos le o.seg o.typed o.same
              o.owned_same
              (found_fits (unfold no_block in ground (arith, rw (settle-no size mode t k) at h))))
      ]

-- On a chain of control blocks that ends within the address space, for a current process with a PSP
-- other than 0, a call of `DosMemAlloc` that does not search twice returns and changes no global but
-- memory, in which it writes only in the chain. Either it succeeds: the chain has the blocks in use
-- from before and one more, the one reported in `*para`, which belongs to the current process and has
-- the size asked for, or at least that if the mode is `LARGEST`. Or it answers `DE_NOMEM`: the blocks
-- in use are as before, no unused block is large enough for a size above 0, and `*asize`, if given, is
-- the size of the largest unused block, or 0.
pub dos_mem_alloc-Served :
    (a : Arena) (size mode para : ℕ) (asize : Option ℕ) (b : Mcb) (bs : List Mcb) (q : ℕ)
    → IsChain a.mem (search_start a size mode) b bs q
    → 0 < a.cu_psp
    → searches_again a mode ≡ false
    → (r : Allocated) × (dos_mem_alloc a size mode para asize ≡ some r)
      × Served a size mode (search_start a size mode) (b ∷ bs) q asize r
dos_mem_alloc-Served a size mode para asize b bs q ch pos once =
    let p = search_start a size mode in
    let e = Seg-span a.mem p (b ∷ bs) q ch.seg in
    let (t, c, cs, ends, o) =
      walk-Ends seg_mod (fit_of mode) size (begin a) p b bs q ch.seg ch.typed ch.start_pos
        ch.bounded (omega (arith, length-le-span bs, ch.bounded)) in
    go t c cs ends o
  where
    go :
        (t : Search) (c : Mcb) (cs : List Mcb)
        → ((run_walk a size mode ≡ some (more t))
            × (0 < search_start a size mode
                → IsBiggest (begin a) (search_start a size mode) (c ∷ cs) t))
          ⊎ ((fit_of mode ≡ first) × (t.found ≢ 0) × (run_walk a size mode ≡ some (stop_it t)))
        → Outcome (fit_of mode) size (begin a) (search_start a size mode) (b ∷ bs) q t c cs
        → (r : Allocated) × (dos_mem_alloc a size mode para asize ≡ some r)
          × Served a size mode (search_start a size mode) (b ∷ bs) q asize r
    go t c cs (inl h) o =
        more-Served a size mode _ (b ∷ bs) q t c cs o (h.1 ch.start_pos) para asize pos ch.bounded
          h.0 once
    go t c cs (inr h) o = (
      _,
      after_stop a size mode para asize t h.2,
      grant-Served a size mode _ (b ∷ bs) q asize asize t c cs pos ch.bounded o.seg o.typed o.same
          o.owned_same (right_of o.found_free h.1),
    )
