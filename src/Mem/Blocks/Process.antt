-- ===== src/Mem/Blocks/Process.antt =====
-- `FreeProcessMem`: all blocks of a process are freed.
use burdah_dos_system.Base.{
  ℕ, zero, suc, ◌+◌, ◌≤◌, ◌<◌, ◌≡◌, ◌≢◌, inl, inr, refl, ap, ◌∙◌, true, some, List, [], ◌∷◌, arith,
  length, ◌==◌, if◌then◌else◌, Bool-cases,
}
use burdah_dos_system.Mem.{
  Status, success, Mcb, Memory, mcb_last, seg_mod, mcb_free, mcb_valid, nxt_mcb,
}
use burdah_dos_system.Mem.Chain.{
  Seg, IsTyped, IsChain, SameOutside, owned, Seg-span, Seg-frame, Seg-valid, Seg-nxt, owned-used,
  store_self, store_other, length-le-span,
}
use burdah_dos_system.Mem.Blocks.{dos_mem_free, free_loop}
use burdah_dos_system.Mem.Blocks.Free.{freed, freed-free, dos_mem_free-used}

-- What the loop makes of one header, and of all.
abbrev pub release_if : ℕ → Mcb → Mcb
release_if ps b = if b.m_psp == ps then freed b else b

abbrev pub release_all : ℕ → List Mcb → List Mcb
release_all ps [] = []
release_all ps (b ∷ bs) = release_if ps b ∷ release_all ps bs

-- The blocks in use that do not belong to `ps`.
abbrev pub drop_owner : ℕ → List (ℕ × Mcb) → List (ℕ × Mcb)
drop_owner ps [] = []
drop_owner ps ((x, b) ∷ os) = if b.m_psp == ps then drop_owner ps os else (x, b) ∷ drop_owner ps os

abbrev after_visit : ℕ → Memory → ℕ → Memory
after_visit ps m p = if (m p).m_psp == ps then (dos_mem_free m p).1 else m

after_visit_self :
    (ps : ℕ) (m : Memory) (p : ℕ) (b : Mcb)
    → m p ≡ b
    → 0 < ps
    → 0 < p
    → mcb_valid (m p) ≡ true
    → after_visit ps m p p ≡ release_if ps b
after_visit_self ps m p b at pos0 pos v = elim (Bool-cases (b.m_psp == ps)) [
  | inl e ↦ rw at (
      rw e (
        ap (λ (x : Status × Memory). x.1 p)
          (dos_mem_free-used m p pos v (rw at (unfold mcb_free in ground arith)))
        ∙ store_self m p _ _ (ap freed at)))
  | inr ne ↦ rw at (rw ne at)
]

after_visit_other :
    (ps : ℕ) (m : Memory) (p a : ℕ)
    → 0 < ps
    → 0 < p
    → mcb_valid (m p) ≡ true
    → a ≢ p
    → after_visit ps m p a ≡ m a
after_visit_other ps m p a pos0 pos v ne = elim (Bool-cases ((m p).m_psp == ps)) [
  | inl e ↦ rw e (
      ap (λ (x : Status × Memory). x.1 a)
        (dos_mem_free-used m p pos v (unfold mcb_free in ground arith))
      ∙ store_other m p _ a ne)
  | inr n ↦ rw n refl
]

size-release_if : (ps : ℕ) (b : Mcb) → (release_if ps b).m_size ≡ b.m_size
size-release_if ps b = ground arith

type-release_if : (ps : ℕ) (b : Mcb) → (release_if ps b).m_type ≡ b.m_type
type-release_if ps b = ground arith

pub IsTyped-release_all :
    (ps : ℕ) (b : Mcb) (bs : List Mcb)
    → IsTyped b bs
    → IsTyped (release_if ps b) (release_all ps bs)
IsTyped-release_all ps b [] t = type-release_if ps b ∙ t
IsTyped-release_all ps b (c ∷ cs) t = (type-release_if ps b ∙ t.0, IsTyped-release_all ps c cs t.1)

pub owned-release_all :
    (ps p : ℕ) (bs : List Mcb) → 0 < ps → owned p (release_all ps bs) ≡ drop_owner ps (owned p bs)
owned-release_all ps p [] pos = refl
owned-release_all ps p (b ∷ bs) pos = elim (Bool-cases (b.m_psp == ps)) [
  | inl e ↦
      let rest = owned-release_all ps (p + b.m_size + 1) bs pos in
      rw (owned-used p b bs (unfold mcb_free in ground arith)) (rw (e, freed-free b) rest)
  | inr ne ↦
      let rest = owned-release_all ps (p + b.m_size + 1) bs pos in
      elim (Bool-cases (mcb_free b)) [
        | inl h ↦ rw ne (rw h rest)
        | inr h ↦ rw ne (rw h (rw ne (ap (λ os. (p, b) ∷ os) rest)))
      ]
]

free_step :
    (f ps : ℕ) (m : Memory) (p : ℕ)
    → mcb_valid (m p) ≡ true
    → free_loop (suc f) ps m p ≡ (
        if (after_visit ps m p p).m_type == mcb_last
        then some (success, after_visit ps m p)
        else free_loop f ps (after_visit ps m p) (nxt_mcb (after_visit ps m p) p))
unfolding free_loop
free_step f ps m p v = rw v refl

pub free_loop-release_all :
    (f ps : ℕ) (m : Memory) (p : ℕ) (b : Mcb) (bs : List Mcb) (q : ℕ)
    → Seg m p (b ∷ bs) q
    → IsTyped b bs
    → 0 < p
    → q ≤ seg_mod
    → 0 < ps
    → length bs < f
    → (g : Memory) × (free_loop f ps m p ≡ some (success, g))
      × Seg g p (release_all ps (b ∷ bs)) q
      × SameOutside p q m g
free_loop-release_all zero ps m p b bs q s t pos le pos0 lt = absurd (omega arith)
free_loop-release_all (suc f) ps m p b [] q s t pos le pos0 lt =
    let v = Seg-valid m p b [] q s t pos le in
    let g = after_visit ps m p in
    let at = after_visit_self ps m p b s.0 pos0 pos v in
    (
      g,
      free_step f ps m p v ∙ rw at (rw (type-release_if ps b ∙ t) refl),
      (at, rw (size-release_if ps b) s.1),
      λ a h. after_visit_other ps m p a pos0 pos v (omega (arith, s.1)),
    )
free_loop-release_all (suc f) ps m p b (c ∷ cs) q s t pos le pos0 lt =
    let v = Seg-valid m p b (c ∷ cs) q s t pos le in
    let g = after_visit ps m p in
    let r = release_if ps b in
    let at = after_visit_self ps m p b s.0 pos0 pos v in
    let far = Seg-span m (p + b.m_size + 1) (c ∷ cs) q s.1 in
    let tail : Seg g (p + r.m_size + 1) (c ∷ cs) q = rw (size-release_if ps b) (
      Seg-frame {m = m} {g = g} (p + b.m_size + 1) (c ∷ cs) q s.1
        (λ a h k. after_visit_other ps m p a pos0 pos v (omega arith))) in
    let (x, run, seg, same) =
      free_loop-release_all f ps g (p + r.m_size + 1) c cs q tail t.1 (omega arith) le pos0
        (omega arith) in
    (
      x,
      free_step f ps m p v
          ∙ rw at (
              rw (type-release_if ps b ∙ t.0)
                (ap (free_loop f ps g) (Seg-nxt g p r c cs q (at, tail) le) ∙ run)),
      (same p (inl (omega arith)) ∙ at, seg),
      λ a h.
          same a (omega (arith, h, size-release_if ps b))
          ∙ after_visit_other ps m p a pos0 pos v (omega arith),
    )

-- The loop of `FreeProcessMem` for a process `ps` other than 0 over a chain succeeds and writes only in
-- the chain. It leaves a chain of the same extent, in which the blocks in use are those from before
-- that do not belong to `ps`.
pub free_loop-drop_owner :
    (ps : ℕ) (m : Memory) (p : ℕ) (b : Mcb) (bs : List Mcb) (q : ℕ)
    → IsChain m p b bs q
    → 0 < ps
    → (g : Memory) × (free_loop seg_mod ps m p ≡ some (success, g))
      × IsChain g p (release_if ps b) (release_all ps bs) q
      × (owned p (release_all ps (b ∷ bs)) ≡ drop_owner ps (owned p (b ∷ bs)))
      × SameOutside p q m g
free_loop-drop_owner ps m p b bs q ch pos =
    let e = Seg-span m p (b ∷ bs) q ch.seg in
    let (g, run, seg, same) =
      free_loop-release_all seg_mod ps m p b bs q ch.seg ch.typed ch.start_pos ch.bounded pos
        (omega (arith, length-le-span bs, ch.bounded)) in
    (
      g,
      run,
      record {
        seg = seg;
        typed = IsTyped-release_all ps b bs ch.typed;
        start_pos = ch.start_pos;
        bounded = ch.bounded;
      },
      owned-release_all ps p (b ∷ bs) pos,
      same,
    )
