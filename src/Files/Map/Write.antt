-- ===== src/Files/Map/Write.antt =====
-- kernel/fatfs.c, `map_cluster` for writing: the chain of a file is made as long as a position needs.
use burdah_dos_system.Files.Map.Cases.{
  map_round-end, map_round-next, and_then-success, and_then-full, map_end-write, grown-success,
  grown-full,
}
use burdah_dos_system.Files.Map.Longer.{
  Mapped, here-Mapped, full-Mapped, Alike-Mapped, Extended-Mapped, Ends-append,
}
use burdah_dos_system.Base.{
  ℕ, zero, suc, ◌+◌, ◌-◌, ◌≤◌, ◌≡◌, ◌≢◌, refl, sym, ap, ◌∙◌, subst, false, Bool-cases, ◌==◌, ltb,
  inl, inr, arith, List, [], ◌∷◌, ◌++◌, length, append_assoc, length-append,
}
use burdah_dos_system.Fat.Entry.{free, long_last_cluster}
use burdah_dos_system.Fat.Link.{Volume, max_cluster, next_cluster}
use burdah_dos_system.Files.{Fnode, getdstart}
use burdah_dos_system.Files.Chain.{IsChain, not_free, follow-IsChain, same-IsChain}
use burdah_dos_system.Files.Chain.Cut.{suffix-IsChain, get_elem?-append}
use burdah_dos_system.Files.Table.{entry, Table}
use burdah_dos_system.Files.Table.Steps.{IsDrive, Alike-refl, next_cluster-follow}
use burdah_dos_system.Files.Map.{
  xfr_write, advance, grown, map_start, map_round, and_then, map_loop, relcluster, rewind, map_from,
  map_cluster,
}
use burdah_dos_system.Files.Map.Extend.{extend-Extended}
use burdah_dos_system.Files.Map.Seek.{IsAt, IsAt-IsChain}

module _ (T : Table) where
  map_loop-Mapped :
      (left : ℕ) (fnp : Fnode) (v : Volume) (start : ℕ) (pre suf : List ℕ)
      → IsDrive T v
      → 2 ≤ max_cluster v.dpb
      → IsChain (entry v) (max_cluster v.dpb) start (pre ++ (fnp.f_cluster ∷ suf))
      → length pre ≡ fnp.f_cluster_offset
      → Mapped T v start
          (pre ++ (fnp.f_cluster ∷ suf))
          (length pre + left)
          fnp
          (map_loop xfr_write left fnp v)
  unfolding map_loop
  map_loop-Mapped zero fnp v start pre suf d big chain placed =
      here-Mapped T v start (length pre + 0) (pre ++ (fnp.f_cluster ∷ suf)) fnp d chain
        (get_elem?-append pre (fnp.f_cluster ∷ suf) 0) (omega (arith, placed))
  map_loop-Mapped (suc left) fnp v start pre (b ∷ bs) d big chain placed =
      let st = fnp.f_cluster in
      let top = max_cluster v.dpb in
      let small = T.top_small v d.table in
      let v1 = (next_cluster v st).1 in
      let here = suffix-IsChain (entry v) top start st pre (b ∷ bs) chain in
      let (value, a) = next_cluster-follow T v st d in
      let e : (next_cluster v st).0 ≡ b =
        value ∙ follow-IsChain (entry v) top st st (b ∷ bs) here small ∙ here.links.1.0 in
      let round = map_round-next xfr_write fnp v b top e here.inside.2.0 here.inside.2.1 small in
      let list : (pre ++ (st ∷ [])) ++ (b ∷ bs) ≡ pre ++ (st ∷ (b ∷ bs)) =
        append_assoc pre (st ∷ []) (b ∷ bs) in
      let long : length (pre ++ (st ∷ [])) ≡ length pre + 1 = length-append pre (st ∷ []) in
      let chain1 =
        subst (λ t. IsChain (entry v1) t start ((pre ++ (st ∷ [])) ++ (b ∷ bs))) (sym a.top)
          (same-IsChain (entry v) (entry v1) top start ((pre ++ (st ∷ [])) ++ (b ∷ bs)) a.entries
            (subst (IsChain (entry v) top start) (sym list) chain)) in
      let place : length (pre ++ (st ∷ [])) + left ≡ length pre + suc left = omega (arith, long) in
      let rest =
        map_loop-Mapped left (advance b fnp) v1 start (pre ++ (st ∷ [])) bs a.drive
          (subst (λ t. 2 ≤ t) (sym a.top) big) chain1 (omega (arith, long, placed)) in
      let step =
        ap (and_then (map_loop xfr_write left)) round
        ∙ and_then-success (map_loop xfr_write left) (advance b fnp) v1 in
      subst (Mapped T v start (pre ++ (st ∷ (b ∷ bs))) (length pre + suc left) fnp) (sym step) (
        Alike-Mapped T v v1 start (length pre + suc left) (pre ++ (st ∷ (b ∷ bs))) fnp
          (advance b fnp) (map_loop xfr_write left (advance b fnp) v1) a refl
          (subst
            (λ l.
              Mapped T v1 start l (length pre + suc left) (advance b fnp)
                (map_loop xfr_write left (advance b fnp) v1))
            list
            (subst
              (λ k.
                Mapped T v1 start ((pre ++ (st ∷ [])) ++ (b ∷ bs)) k (advance b fnp)
                  (map_loop xfr_write left (advance b fnp) v1))
              place rest)))
  map_loop-Mapped (suc left) fnp v start pre [] d big chain placed =
      let st = fnp.f_cluster in
      let cs = pre ++ (st ∷ []) in
      let top = max_cluster v.dpb in
      let v1 = (next_cluster v st).1 in
      let here = suffix-IsChain (entry v) top start st pre [] chain in
      let (value, a) = next_cluster-follow T v st d in
      let last : (next_cluster v st).0 ≡ long_last_cluster =
        value ∙ follow-IsChain (entry v) top st st [] here (T.top_small v d.table) ∙ here.links.1 in
      let chain1 =
        subst (λ t. IsChain (entry v1) t start cs) (sym a.top)
          (same-IsChain (entry v) (entry v1) top start cs a.entries chain) in
      let big1 = subst (λ t. 2 ≤ t) (sym a.top) big in
      let (n, w, e, result) =
        extend-Extended T v1 fnp start cs a.drive big1 chain1 (Ends-append st pre) in
      let round =
        map_round-end xfr_write fnp v last ∙ map_end-write fnp v1 ∙ ap (grown advance) e in
      Alike-Mapped T v v1 start (length pre + suc left) cs fnp fnp
        (and_then (map_loop xfr_write left) (map_round xfr_write fnp v)) a refl
        (elim result [
          | inl x ↦
              let f = advance n fnp in
              let step =
                ap (and_then (map_loop xfr_write left)) (
                  round
                  ∙ grown-success advance n (max_cluster v1.dpb) fnp w x.inside.1
                      (T.top_small v1 a.drive.table))
                ∙ and_then-success (map_loop xfr_write left) f w in
              let long : length cs ≡ length pre + 1 = length-append pre (st ∷ []) in
              let place : length cs + left ≡ length pre + suc left = omega (arith, long) in
              let rest =
                map_loop-Mapped left f w start cs [] x.drive (subst (λ t. 2 ≤ t) (sym x.top) big1)
                  x.chain (omega (arith, long, placed)) in
              subst (Mapped T v1 start cs (length pre + suc left) fnp) (sym step) (
                Extended-Mapped T v1 w start n (length pre + suc left) cs fnp f
                  (map_loop xfr_write left f w) (omega (arith, long)) x refl
                  (subst (λ k. Mapped T w start (cs ++ (n ∷ [])) k f (map_loop xfr_write left f w))
                    place rest))
          | inr (none_left, full) ↦
              let step =
                ap (and_then (map_loop xfr_write left))
                  (round ∙ grown-full advance n fnp w none_left)
                ∙ and_then-full (map_loop xfr_write left) fnp w in
              subst (Mapped T v1 start cs (length pre + suc left) fnp) (sym step) (
                full-Mapped T v1 w start (length pre + suc left) cs fnp full.alike chain1 full.full)
        ])

  map_from-Mapped :
      (v : Volume) (fnp : Fnode) (c : ℕ) (cs : List ℕ)
      → IsDrive T v
      → 2 ≤ max_cluster v.dpb
      → fnp.f_sft_idx ≢ 0xff
      → IsChain (entry v) (max_cluster v.dpb) (getdstart v.dpb fnp.f_dir) (c ∷ cs)
      → IsAt (c ∷ cs) fnp
      → Mapped T v
          (getdstart v.dpb fnp.f_dir)
          (c ∷ cs)
          (relcluster v.dpb fnp.f_offset)
          fnp
          (map_from xfr_write fnp v)
  unfolding map_from rewind
  map_from-Mapped v fnp c cs d big file chain at =
      let rel = relcluster v.dpb fnp.f_offset in
      let start = getdstart v.dpb fnp.f_dir in
      let top = max_cluster v.dpb in
      elim (Bool-cases (ltb rel fnp.f_cluster_offset)) [
        | inl back ↦
            let first = rewind v.dpb fnp in
            let e : first.f_cluster ≡ c = ground (arith, file, chain.links.0) in
            let rest =
              map_loop-Mapped rel first v start [] cs d big
                (subst (λ k. IsChain (entry v) top start (k ∷ cs)) (sym e) chain) refl in
            rw back (
              Alike-Mapped T v v start rel (c ∷ cs) fnp first (map_loop xfr_write rel first v)
                (Alike-refl T v d) refl
                (subst (λ k. Mapped T v start (k ∷ cs) rel first (map_loop xfr_write rel first v)) e
                  (subst
                    (λ k.
                      Mapped T v start (first.f_cluster ∷ cs) k first
                        (map_loop xfr_write rel first v))
                    (omega arith) rest)))
        | inr on ↦
            let k = rel - fnp.f_cluster_offset in
            let rest =
              map_loop-Mapped k fnp v start at.before at.behind d big
                (subst (IsChain (entry v) top start) at.split chain) at.place in
            let low : fnp.f_cluster_offset ≤ rel = ground (arith, on) in
            let e : length at.before + k ≡ rel = omega (arith, at.place, low) in
            rw on (
              subst (λ l. Mapped T v start l rel fnp (map_loop xfr_write k fnp v)) (sym at.split)
                (subst
                  (λ p.
                    Mapped T v start (at.before ++ (fnp.f_cluster ∷ at.behind)) p fnp
                      (map_loop xfr_write k fnp v))
                  e rest))
      ]

  -- On a drive with a table and at least one cluster, for a file with a place in the system file table
  -- whose clusters are a chain and that is at one of them, `map_cluster` for writing returns. The chain
  -- is then the old one with clusters behind it that were free, no more than the position of the
  -- file's offset needs, and the other entries are as before. Either it succeeds and the file is at
  -- the cluster of that position, or it answers DE_HNDLDSKFULL and no cluster is free any more. Nothing
  -- else of the file changes.
  pub map_cluster-Mapped :
      (v : Volume) (fnp : Fnode) (c : ℕ) (cs : List ℕ)
      → IsDrive T v
      → 2 ≤ max_cluster v.dpb
      → fnp.f_sft_idx ≢ 0xff
      → IsChain (entry v) (max_cluster v.dpb) (getdstart v.dpb fnp.f_dir) (c ∷ cs)
      → IsAt (c ∷ cs) fnp
      → Mapped T v
          (getdstart v.dpb fnp.f_dir)
          (c ∷ cs)
          (relcluster v.dpb fnp.f_offset)
          fnp
          (map_cluster xfr_write fnp v)
  unfolding map_cluster map_start and_then
  map_cluster-Mapped v fnp c cs d big file chain at =
      let here = IsAt-IsChain T v fnp (getdstart v.dpb fnp.f_dir) (c ∷ cs) at chain in
      let e : (fnp.f_cluster == free) ≡ false = not_free fnp.f_cluster here.inside.0 in
      rw e (map_from-Mapped v fnp c cs d big file chain at)
