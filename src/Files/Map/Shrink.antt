-- ===== src/Files/Map/Shrink.antt =====
-- kernel/fatfs.c, `shrink_file`: the chain of a file is cut behind a cluster and the rest is freed.
use burdah_dos_system.Files.Map.Cases.{not_0}
use burdah_dos_system.Files.Map.Cut.{Flushed, Flushed-map, IsCut, Alike-IsCut, shrink_at-IsCut}
use burdah_dos_system.Base.{
  ℕ, ◌-◌, ◌≡◌, ◌≢◌, ◌⊎◌, refl, sym, ap, ◌∙◌, subst, true, ◌==◌, inl, inr, if◌then◌else◌, arith,
  List, [], ◌∷◌, ◌++◌, some, none, length, get_elem?,
}
use burdah_dos_system.Fat.Entry.{free, long_last_cluster}
use burdah_dos_system.Fat.Link.{Volume, max_cluster}
use burdah_dos_system.Files.{Fnode, getdstart}
use burdah_dos_system.Files.Chain.{IsChain, member, Apart, Apart-member, same-IsChain}
use burdah_dos_system.Files.Chain.Cut.{suffix-IsChain, prefix-IsChain, get_elem?-split}
use burdah_dos_system.Files.Table.{entry, Table}
use burdah_dos_system.Files.Table.Steps.{IsDrive, Alike}
use burdah_dos_system.Files.Map.{
  Status, de_access, Flush, relcluster, shrink_at, restored, and_then, shrink_file,
}
use burdah_dos_system.Files.Map.Seek.{IsAt, Landed, map_cluster-Landed}

at_cut :
    (d : ℕ) (suf : List ℕ) (x y : ℕ)
    → Apart d suf
    → (if member d suf then free else if d == d then x else y) ≡ x
at_cut d suf x y out = rw (Apart-member d suf out) (ground arith)

off_cut :
    (d c : ℕ) (suf : List ℕ) (y : ℕ)
    → c ≢ d
    → Apart d suf
    → (if member d suf then free else if d == c then long_last_cluster else y) ≡ y
off_cut d c suf y ne out = rw (Apart-member d suf out) (ground arith)

restored-Flushed :
    (flush : Flush) (P : Volume → Type 0) (offset : ℕ) (f : Fnode) (w : Volume) (t : Status)
    → Flushed flush P t w
    → restored offset (some (t, f, w)) ≡ some (t, record f { f_offset = offset }, w)
unfolding restored
restored-Flushed flush P offset f w t (inl (e, p)) = rw e refl
restored-Flushed flush P offset f w t (inr (e, u, p, failed, at)) = rw e refl

module _ (T : Table) (flush : Flush)
    (quiet : (u : Volume) → IsDrive T u → (flush u).0 ≡ true → Alike T u (flush u).1) where
  IsCut-IsChain :
      (v w : Volume) (start st : ℕ) (pre suf : List ℕ)
      → IsChain (entry v) (max_cluster v.dpb) start (pre ++ (st ∷ suf))
      → IsCut T v st long_last_cluster suf w
      → IsChain (entry w) (max_cluster w.dpb) start (pre ++ (st ∷ []))
  IsCut-IsChain v w start st pre suf chain cut =
      let top = max_cluster v.dpb in
      let here = suffix-IsChain (entry v) top start st pre suf chain in
      subst (λ t. IsChain (entry w) t start (pre ++ (st ∷ []))) (sym cut.top)
        (prefix-IsChain (entry v) (entry w) top start st pre suf chain
          (cut.entries st ∙ at_cut st suf long_last_cluster (entry v st) here.distinct.0)
          (λ d ne out. cut.entries d ∙ off_cut d st suf (entry v d) ne out))

  -- The chain `pre` with `st` behind it ends at `st`, and `suf`, which followed, is free.
  abbrev pub EndsAt : Volume → (start st : ℕ) (pre suf : List ℕ) → Volume → Type 0
  EndsAt v start st pre suf w =
      IsCut T v st long_last_cluster suf w
      × IsChain (entry w) (max_cluster w.dpb) start (pre ++ (st ∷ []))

  -- What `shrink_file` leaves of a file whose clusters are `cs`: the first `rel` of them and the
  -- next, at which the chain now ends, or an error because the chain is shorter.
  abbrev pub Shrunk :
      Volume → (start : ℕ) (cs : List ℕ) (rel : ℕ) → Status → Fnode → Volume → Type 0
  Shrunk v start cs rel s f w =
      ((pre : List ℕ) × (suf : List ℕ) × (cs ≡ pre ++ (f.f_cluster ∷ suf))
        × (length pre ≡ rel)
        × Flushed flush (EndsAt v start f.f_cluster pre suf) s w)
      ⊎ ((get_elem? cs rel ≡ none) × (s ≡ de_access) × Alike T v w)

  -- `shrink_file` from the answer of `map_cluster` on.
  shrink_mapped :
      (v u : Volume) (f : Fnode) (s : Status) (start rel offset : ℕ) (cs : List ℕ)
      → IsChain (entry v) (max_cluster v.dpb) start cs
      → f.f_dir.dir_size ≢ 0
      → Alike T v u
      → Landed cs rel rel s f
      → (t : Status) × (g : Fnode) × (w : Volume) × (restored offset
            (and_then (shrink_at flush) (some (s, f, u)))
          ≡ some (t, g, w))
        × (g.f_offset ≡ offset)
        × Shrunk v start cs rel t g w
  unfolding restored and_then
  shrink_mapped v u f s start rel offset cs chain size a (inl (found, placed, ok)) =
      let (pre, suf, split, long) = get_elem?-split cs rel f.f_cluster found in
      let whole = subst (IsChain (entry v) (max_cluster v.dpb) start) split chain in
      let here = suffix-IsChain (entry v) (max_cluster v.dpb) start f.f_cluster pre suf whole in
      let here_u =
        subst (λ t. IsChain (entry u) t f.f_cluster (f.f_cluster ∷ suf)) (sym a.top)
          (same-IsChain (entry v) (entry u) (max_cluster v.dpb) f.f_cluster (f.f_cluster ∷ suf)
            a.entries here) in
      let (t, w, went, answer) = shrink_at-IsCut T flush quiet f u suf a.drive here_u size in
      let cut_v = λ (x : Volume). Alike-IsCut T v u x f.f_cluster long_last_cluster suf a in
      (
        t,
        record f { f_offset = offset },
        w,
        rw (ok, went)
            (restored-Flushed flush (IsCut T u f.f_cluster long_last_cluster suf) offset f w t
              answer),
        refl,
        inl (
          pre,
          suf,
          split,
          long,
          Flushed-map flush (IsCut T u f.f_cluster long_last_cluster suf)
              (EndsAt v start f.f_cluster pre suf) t w
              (λ x c. (cut_v x c, IsCut-IsChain v x start f.f_cluster pre suf whole (cut_v x c)))
              answer,
        ),
      )
  shrink_mapped v u f s start rel offset cs chain size a (inr (missing, failed)) =
      (de_access, record f { f_offset = offset }, u, rw failed refl, refl, inr (missing, refl, a))

  -- `shrink_file` of a file that keeps bytes, at a position other than 0, whose clusters are a chain of
  -- a drive with a table and that is at one of them and has a place in the system file table, returns,
  -- if a flush that succeeds changes no entry. Where the chain has a cluster at the last byte in front
  -- of the position, the chain is made to end with this cluster, the clusters behind it are freed and
  -- every other entry is kept: this holds of the drive afterwards if the answer is success, and if the
  -- flush at the end fails, with the answer DE_ACCESS, of the drive that was flushed. Where the chain is
  -- shorter, the answer is DE_ACCESS and no entry has changed. The position is kept.
  pub shrink_file-Shrunk :
      (v : Volume) (fnp : Fnode) (c : ℕ) (cs : List ℕ)
      → IsDrive T v
      → fnp.f_sft_idx ≢ 0xff
      → IsChain (entry v) (max_cluster v.dpb) (getdstart v.dpb fnp.f_dir) (c ∷ cs)
      → IsAt (c ∷ cs) fnp
      → fnp.f_offset ≢ 0
      → fnp.f_dir.dir_size ≢ 0
      → (s : Status) × (f : Fnode) × (w : Volume) × (shrink_file flush fnp v ≡ some (s, f, w))
        × (f.f_offset ≡ fnp.f_offset)
        × Shrunk v (getdstart v.dpb fnp.f_dir) (c ∷ cs) (relcluster v.dpb (fnp.f_offset - 1)) s f w
  unfolding shrink_file
  shrink_file-Shrunk v fnp c cs d file chain at offset size =
      let f0 = record fnp { f_offset = fnp.f_offset - 1 } in
      let at0 : IsAt (c ∷ cs) f0 = record {
        before = at.before;
        behind = at.behind;
        split = at.split;
        place = at.place;
      } in
      let start = getdstart v.dpb fnp.f_dir in
      let (s, f, u, went, landed, moved, a) = map_cluster-Landed T v f0 c cs d file chain at0 in
      let rel = relcluster v.dpb (fnp.f_offset - 1) in
      let kept : f.f_dir.dir_size ≢ 0 =
        λ z. size (sym (ap (λ (g : Fnode). g.f_dir.dir_size) moved) ∙ z) in
      let (t, g, w, e, o, shrunk) =
        shrink_mapped v u f s start rel fnp.f_offset (c ∷ cs) chain kept a landed in
      (
        t,
        g,
        w,
        rw (not_0 fnp.f_offset offset)
            (ap (λ m. restored fnp.f_offset (and_then (shrink_at flush) m)) went ∙ e),
        o,
        shrunk,
      )
