-- ===== src/Files/Map/Seek.antt =====
-- kernel/fatfs.c, `map_cluster` for reading: the cluster at a position of a file's chain.
use burdah_dos_system.Files.Map.Cases.{map_round-end, map_round-next}
use burdah_dos_system.Base.{
  ℕ, zero, suc, ◌+◌, ◌-◌, ◌≤◌, ◌≡◌, ◌≢◌, ◌⊎◌, refl, sym, ap, ◌∙◌, subst, false, Bool-cases, ◌==◌,
  ltb, inl, inr, arith, List, [], ◌∷◌, ◌++◌, some, none, length, get_elem?,
}
use burdah_dos_system.Fat.Entry.{free, long_last_cluster}
use burdah_dos_system.Fat.Link.{Volume, max_cluster, next_cluster}
use burdah_dos_system.Files.{Fnode, getdstart}
use burdah_dos_system.Files.Chain.{IsChain, not_free, first-Inside, follow-IsChain, rest-IsChain}
use burdah_dos_system.Files.Chain.Cut.{suffix-IsChain, get_elem?-append}
use burdah_dos_system.Files.Table.{entry, Table}
use burdah_dos_system.Files.Table.Steps.{
  IsDrive, Alike, Alike-refl, Alike-trans, next_cluster-follow,
}
use burdah_dos_system.Files.Map.{
  xfr_read, Status, success, de_seek, advance, map_start, map_end, and_then, map_loop, relcluster,
  rewind, map_from, map_cluster,
}

-- `f` is `g` at another cluster.
abbrev pub Moved : Fnode → Fnode → Type 0
Moved g f = f ≡ record g { f_cluster = f.f_cluster; f_cluster_offset = f.f_cluster_offset }

-- What a search from the first of the clusters `cs`, `left` clusters on, answers.
abbrev pub Landed : List ℕ → ℕ → ℕ → Status → Fnode → Type 0
Landed cs left offset s f =
    ((get_elem? cs left ≡ some f.f_cluster) × (f.f_cluster_offset ≡ offset) × (s ≡ success))
    ⊎ ((get_elem? cs left ≡ none) × (s ≡ de_seek))

-- Where a file is in its chain: at the cluster behind the first `f_cluster_offset`.
pub record IsAt (cs : List ℕ) (fnp : Fnode) : Type 0 where
  pub before : List ℕ
  pub behind : List ℕ
  pub split : cs ≡ before ++ (fnp.f_cluster ∷ behind)
  pub place : length before ≡ fnp.f_cluster_offset

module _ (T : Table) where
  map_loop-Landed :
      (left : ℕ) (fnp : Fnode) (v : Volume) (c : ℕ) (cs : List ℕ)
      → IsDrive T v
      → IsChain (entry v) (max_cluster v.dpb) fnp.f_cluster (c ∷ cs)
      → (s : Status) × (f : Fnode) × (w : Volume) × (map_loop xfr_read left fnp v ≡ some (s, f, w))
        × Landed (c ∷ cs) left (fnp.f_cluster_offset + left) s f
        × Moved fnp f
        × Alike T v w
  unfolding map_loop and_then map_end
  map_loop-Landed zero fnp v c cs d chain = (
    success,
    fnp,
    v,
    refl,
    inl (ap some (sym chain.links.0), omega arith, refl),
    refl,
    Alike-refl T v d,
  )
  map_loop-Landed (suc left) fnp v c [] d chain =
      let (value, a) = next_cluster-follow T v fnp.f_cluster d in
      let small = T.top_small v d.table in
      let last : (next_cluster v fnp.f_cluster).0 ≡ long_last_cluster =
        value
        ∙ follow-IsChain (entry v) (max_cluster v.dpb) fnp.f_cluster c [] chain small
        ∙ ap (entry v) chain.links.0
        ∙ chain.links.1 in
      (
        de_seek,
        fnp,
        (next_cluster v fnp.f_cluster).1,
        ap (and_then (map_loop xfr_read left)) (map_round-end xfr_read fnp v last),
        inr (refl, refl),
        refl,
        a,
      )
  map_loop-Landed (suc left) fnp v c (b ∷ bs) d chain =
      let e = entry v in
      let top = max_cluster v.dpb in
      let v1 = (next_cluster v fnp.f_cluster).1 in
      let (value, a) = next_cluster-follow T v fnp.f_cluster d in
      let small = T.top_small v d.table in
      let rest =
        rest-IsChain e top fnp.f_cluster c (b ∷ bs) chain (entry v1) (λ x ne. a.entries x) in
      let range = first-Inside (entry v1) top (e fnp.f_cluster) b bs rest in
      let round =
        map_round-next xfr_read fnp v (e fnp.f_cluster) top
          (value ∙ follow-IsChain e top fnp.f_cluster c (b ∷ bs) chain small) range.0 range.1
          small in
      let (s, f, w, went, landed, moved, a2) =
        map_loop-Landed left (advance (e fnp.f_cluster) fnp) v1 b bs a.drive
          (subst (λ t. IsChain (entry v1) t (e fnp.f_cluster) (b ∷ bs)) (sym a.top) rest) in
      (
        s,
        f,
        w,
        ap (and_then (map_loop xfr_read left)) round ∙ went,
        subst (λ k. Landed (b ∷ bs) left k s f) (omega arith) landed,
        moved,
        Alike-trans T v v1 w a a2,
      )

  pub IsAt-IsChain :
      (v : Volume) (fnp : Fnode) (start : ℕ) (cs : List ℕ) (at : IsAt cs fnp)
      → IsChain (entry v) (max_cluster v.dpb) start cs
      → IsChain (entry v) (max_cluster v.dpb) fnp.f_cluster (fnp.f_cluster ∷ at.behind)
  IsAt-IsChain v fnp start cs at chain =
      suffix-IsChain (entry v) (max_cluster v.dpb) start fnp.f_cluster at.before at.behind
        (subst (IsChain (entry v) (max_cluster v.dpb) start) at.split chain)

  pub at_place :
      (cs : List ℕ) (fnp : Fnode) (at : IsAt cs fnp) (rel : ℕ)
      → fnp.f_cluster_offset ≤ rel
      → get_elem? (fnp.f_cluster ∷ at.behind) (rel - fnp.f_cluster_offset) ≡ get_elem? cs rel
  at_place cs fnp at rel low =
      let e : length at.before + (rel - fnp.f_cluster_offset) ≡ rel =
        omega (arith, at.place, low) in
      sym (get_elem?-append at.before (fnp.f_cluster ∷ at.behind) (rel - fnp.f_cluster_offset))
      ∙ ap (get_elem? (at.before ++ (fnp.f_cluster ∷ at.behind))) e
      ∙ ap (λ l. get_elem? l rel) (sym at.split)

  map_from-Landed :
      (v : Volume) (fnp : Fnode) (c : ℕ) (cs : List ℕ)
      → IsDrive T v
      → fnp.f_sft_idx ≢ 0xff
      → IsChain (entry v) (max_cluster v.dpb) (getdstart v.dpb fnp.f_dir) (c ∷ cs)
      → IsAt (c ∷ cs) fnp
      → (s : Status) × (f : Fnode) × (w : Volume) × (map_from xfr_read fnp v ≡ some (s, f, w))
        × Landed (c ∷ cs) (relcluster v.dpb fnp.f_offset) (relcluster v.dpb fnp.f_offset) s f
        × Moved fnp f
        × Alike T v w
  unfolding map_from rewind
  map_from-Landed v fnp c cs d file chain at =
      let rel = relcluster v.dpb fnp.f_offset in
      let start = getdstart v.dpb fnp.f_dir in
      elim (Bool-cases (ltb rel fnp.f_cluster_offset)) [
        | inl back ↦
            let first = rewind v.dpb fnp in
            let e : first.f_cluster ≡ start = ground (arith, file) in
            let (s, f, w, went, landed, moved, a) =
              map_loop-Landed rel first v c cs d
                (subst (λ k. IsChain (entry v) (max_cluster v.dpb) k (c ∷ cs)) (sym e) chain) in
            (
              s,
              f,
              w,
              rw back went,
              subst (λ k. Landed (c ∷ cs) rel k s f) (omega arith) landed,
              moved,
              a,
            )
        | inr on ↦
            let low : fnp.f_cluster_offset ≤ rel = ground (arith, on) in
            let (s, f, w, went, landed, moved, a) =
              map_loop-Landed (rel - fnp.f_cluster_offset) fnp v fnp.f_cluster at.behind d
                (IsAt-IsChain v fnp start (c ∷ cs) at chain) in
            (
              s,
              f,
              w,
              rw on went,
              subst
                  (λ o.
                    ((o ≡ some f.f_cluster) × (f.f_cluster_offset ≡ rel) × (s ≡ success))
                    ⊎ ((o ≡ none) × (s ≡ de_seek)))
                  (at_place (c ∷ cs) fnp at rel low)
                  (subst
                    (λ k. Landed (fnp.f_cluster ∷ at.behind) (rel - fnp.f_cluster_offset) k s f)
                    (omega (arith, low)) landed),
              moved,
              a,
            )
      ]

  -- On a drive with a table, for a file with a place in the system file table whose clusters are a
  -- chain and that is at one of them, `map_cluster` for reading returns and changes no entry. If the
  -- chain has a cluster at the position that the file's offset is in, it succeeds and the file is at
  -- that cluster; otherwise it answers DE_SEEK. Nothing else of the file changes.
  pub map_cluster-Landed :
      (v : Volume) (fnp : Fnode) (c : ℕ) (cs : List ℕ)
      → IsDrive T v
      → fnp.f_sft_idx ≢ 0xff
      → IsChain (entry v) (max_cluster v.dpb) (getdstart v.dpb fnp.f_dir) (c ∷ cs)
      → IsAt (c ∷ cs) fnp
      → (s : Status) × (f : Fnode) × (w : Volume) × (map_cluster xfr_read fnp v ≡ some (s, f, w))
        × Landed (c ∷ cs) (relcluster v.dpb fnp.f_offset) (relcluster v.dpb fnp.f_offset) s f
        × Moved fnp f
        × Alike T v w
  unfolding map_cluster map_start and_then
  map_cluster-Landed v fnp c cs d file chain at =
      let here = IsAt-IsChain v fnp (getdstart v.dpb fnp.f_dir) (c ∷ cs) at chain in
      let e : (fnp.f_cluster == free) ≡ false = not_free fnp.f_cluster here.inside.0 in
      rw e (map_from-Landed v fnp c cs d file chain at)
