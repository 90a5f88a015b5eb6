-- ===== src/Mem/Alloc/Walk.antt =====
-- The search loop of `DosMemAlloc` over a chain of control blocks.
use burdah_dos_system.Base.{
  ℕ, zero, suc, ◌+◌, ◌≤◌, ◌<◌, ◌≡◌, ◌≢◌, ◌⊎◌, inl, inr, refl, sym, ap, ◌∙◌, Option, some, List, [],
  ◌∷◌, arith, length, if◌then◌else◌,
}
use burdah_dos_system.Mem.{Mcb, mcb_last, mcb_normal, seg_mod, nxt_mcb, mcb_free}
use burdah_dos_system.Mem.Chain.{Seg, IsTyped, SameOutside, owned, Seg-nxt}
use burdah_dos_system.Mem.Alloc.{Fit, largest, first, Search, Walked, more, stop_it, visit, walk}
use burdah_dos_system.Mem.Alloc.Biggest.{IsBiggest, IsBiggest-last, IsBiggest-next}
use burdah_dos_system.Mem.Alloc.Visit.{
  FreeAt, FreeAt-le, Visited, Picked, BigPicked, Picked-ne-zero, Goes, visit-Visited,
}

-- How a search that started at header `p` of the chain may end: where the chain `b ∷ bs` stood there
-- is now a chain of the same extent with the same blocks in use, and `foundSeg` is what it was or
-- the header of an unused block that is large enough. It is 0 only if there is no such block.
pub record Outcome (fit : Fit) (size : ℕ) (s : Search) (p : ℕ) (bs : List Mcb) (q : ℕ) (t : Search)
    (b' : Mcb) (bs' : List Mcb) : Type 0 where
  pub seg : Seg t.mem p (b' ∷ bs') q
  pub typed : IsTyped b' bs'
  pub same : SameOutside p q s.mem t.mem
  pub owned_same : owned p (b' ∷ bs') ≡ owned p bs
  pub found_free : (t.found ≡ s.found) ⊎ FreeAt p (b' ∷ bs') t.found size
  pub none_fits : fit ≢ largest → t.found ≡ 0 → (a : ℕ) → ¬ FreeAt p (b' ∷ bs') a size

abbrev pub Ends : Fit → ℕ → Search → ℕ → List Mcb → ℕ → Option Walked → Type 0
Ends fit size s p bs q r =
    (t : Search) × (b' : Mcb) × (bs' : List Mcb) × (((r ≡ some (more t))
        × (s.biggest < p → IsBiggest s p (b' ∷ bs') t))
      ⊎ ((fit ≡ first) × (t.found ≢ 0) × (r ≡ some (stop_it t))))
    × Outcome fit size s p bs q t b' bs'

-- One round of the loop, by where the visit leads.
walk-end :
    (f : ℕ) (fit : Fit) (size : ℕ) (s : Search) (p : ℕ) (t : Search)
    → visit fit size s p ≡ some (more t)
    → (t.mem p).m_type ≡ mcb_last
    → walk (suc f) fit size s p ≡ some (more t)
unfolding walk
walk-end f fit size s p t v e = rw (v, walk) (rw e refl)

walk-stop :
    (f : ℕ) (fit : Fit) (size : ℕ) (s : Search) (p : ℕ) (t : Search)
    → visit fit size s p ≡ some (stop_it t)
    → walk (suc f) fit size s p ≡ some (stop_it t)
unfolding walk
walk-stop f fit size s p t v = rw (v, walk) refl

walk-next :
    (f : ℕ) (fit : Fit) (size : ℕ) (s : Search) (p : ℕ) (t : Search)
    → visit fit size s p ≡ some (more t)
    → (t.mem p).m_type ≡ mcb_normal
    → walk (suc f) fit size s p ≡ walk f fit size t (nxt_mcb t.mem p)
unfolding walk
walk-next f fit size s p t v e = rw (v, walk) (rw e refl)

found-last :
    (fit : Fit) (size : ℕ) (s : Search) (p : ℕ) (t : Search) (b : Mcb)
    → Picked fit size s p t b
    → (bs : List Mcb) → (t.found ≡ s.found) ⊎ FreeAt p (b ∷ bs) t.found size
found-last fit size s p t b (inl h) bs = inr (inl h)
found-last fit size s p t b (inr h) bs = inl h.0

found-next :
    (fit : Fit) (size : ℕ) (s : Search) (p : ℕ) (t : Search) (b : Mcb) (u : Search) (bs : List Mcb)
    → Picked fit size s p t b
    → (u.found ≡ t.found) ⊎ FreeAt (p + b.m_size + 1) bs u.found size
    → (u.found ≡ s.found) ⊎ FreeAt p (b ∷ bs) u.found size
found-next fit size s p t b u bs v (inr h) = inr (inr h)
found-next fit size s p t b u bs (inl h) (inl e) = inr (inl (e ∙ h.0, h.1, h.2))
found-next fit size s p t b u bs (inr h) (inl e) = inl (e ∙ h.0)

-- `foundSeg` is never set back to 0.
found-ne-zero :
    (t u : Search) (r : ℕ) (bs : List Mcb) (size : ℕ)
    → (u.found ≡ t.found) ⊎ FreeAt r bs u.found size
    → 0 < r
    → t.found ≢ 0
    → u.found ≢ 0
found-ne-zero t u r bs size (inl e) pos ne z = ne (sym e ∙ z)
found-ne-zero t u r bs size (inr h) pos ne z = omega (arith, FreeAt-le r bs u.found size h)

none-last :
    (fit : Fit) (size : ℕ) (s : Search) (p : ℕ) (t : Search) (b : Mcb)
    → Picked fit size s p t b
    → 0 < p
    → fit ≢ largest
    → t.found ≡ 0
    → (a : ℕ) → ¬ FreeAt p (b ∷ []) a size
none-last fit size s p t b v pos ne z a (inl h) = Picked-ne-zero fit size s p t b v pos h.1 h.2 ne z
none-last fit size s p t b v pos ne z a (inr h) = h

none-next :
    (fit : Fit) (size : ℕ) (s : Search) (p : ℕ) (t : Search) (b : Mcb) (u : Search) (bs : List Mcb)
    → Picked fit size s p t b
    → 0 < p
    → (u.found ≡ t.found) ⊎ FreeAt (p + b.m_size + 1) bs u.found size
    → ((a : ℕ) → ¬ FreeAt (p + b.m_size + 1) bs a size)
    → fit ≢ largest
    → u.found ≡ 0
    → (a : ℕ) → ¬ FreeAt p (b ∷ bs) a size
none-next fit size s p t b u bs v pos f rest ne z a (inl h) =
    found-ne-zero t u (p + b.m_size + 1) bs size f (omega arith)
      (Picked-ne-zero fit size s p t b v pos h.1 h.2 ne) z
none-next fit size s p t b u bs v pos f rest ne z a (inr h) = rest a h

big_below :
    (s t : Search) (p : ℕ) (b : Mcb)
    → 0 < p
    → s.biggest < p
    → BigPicked s p t b
    → t.biggest < p + b.m_size + 1
big_below s t p b pos lt (inl h) = omega (arith, h.0)
big_below s t p b pos lt (inr h) = omega (arith, h.0)

Outcome-last :
    (fit : Fit) (size : ℕ) (s : Search) (p : ℕ) (b : Mcb) (bs : List Mcb) (q : ℕ) (t : Search)
    (b1 : Mcb)
    → 0 < p
    → Visited fit size s p b bs q t b1 []
    → Outcome fit size s p (b ∷ bs) q t b1 []
Outcome-last fit size s p b bs q t b1 pos v = record {
  seg = v.seg;
  typed = v.typed;
  same = v.same;
  owned_same = v.owned_same;
  found_free = found-last fit size s p t b1 v.picked [];
  none_fits = none-last fit size s p t b1 v.picked pos;
}

Outcome-next :
    (fit : Fit) (size : ℕ) (s : Search) (p : ℕ) (b : Mcb) (bs : List Mcb) (q : ℕ) (t : Search)
    (b1 c : Mcb) (cs : List Mcb) (u : Search) (b2 : Mcb) (bs2 : List Mcb)
    → 0 < p
    → Visited fit size s p b bs q t b1 (c ∷ cs)
    → Outcome fit size t (p + b1.m_size + 1) (c ∷ cs) q u b2 bs2
    → Outcome fit size s p (b ∷ bs) q u b1 (b2 ∷ bs2)
Outcome-next fit size s p b bs q t b1 c cs u b2 bs2 pos v o = record {
  seg = (o.same p (inl (omega arith)) ∙ v.seg.0, o.seg);
  typed = (v.typed.0, o.typed);
  same = λ a h. o.same a (omega arith) ∙ v.same a h;
  owned_same = ap (λ os. if mcb_free b1 then os else (p, b1) ∷ os) o.owned_same ∙ v.owned_same;
  found_free = found-next fit size s p t b1 u (b2 ∷ bs2) v.picked o.found_free;
  none_fits = λ ne z.
      none-next fit size s p t b1 u (b2 ∷ bs2) v.picked pos o.found_free (o.none_fits ne z) ne z;
}

ends_next :
    (fit : Fit) (s : Search) (p : ℕ) (b : Mcb) (bs : List Mcb) (q : ℕ) (t : Search) (b1 c : Mcb)
    (cs : List Mcb) (size : ℕ) (u : Search) (b2 : Mcb) (bs2 : List Mcb) (r r' : Option Walked)
    → 0 < p
    → Visited fit size s p b bs q t b1 (c ∷ cs)
    → r ≡ r'
    → ((r' ≡ some (more u))
        × (t.biggest < p + b1.m_size + 1 → IsBiggest t (p + b1.m_size + 1) (b2 ∷ bs2) u))
      ⊎ ((fit ≡ first) × (u.found ≢ 0) × (r' ≡ some (stop_it u)))
    → ((r ≡ some (more u)) × (s.biggest < p → IsBiggest s p (b1 ∷ b2 ∷ bs2) u))
      ⊎ ((fit ≡ first) × (u.found ≢ 0) × (r ≡ some (stop_it u)))
ends_next fit s p b bs q t b1 c cs size u b2 bs2 r r' pos v e (inr h) = inr (h.0, h.1, e ∙ h.2)
ends_next fit s p b bs q t b1 c cs size u b2 bs2 r r' pos v e (inl h) = inl (
  e ∙ h.0,
  λ lt.
      IsBiggest-next s p t b1 pos v.seg.0 (v.same s.biggest (inl lt)) u (b2 ∷ bs2)
        (h.1 (big_below s t p b1 pos lt v.big)) v.big,
)

walk-step :
    (f : ℕ) (fit : Fit) (size : ℕ) (s : Search) (p : ℕ) (b : Mcb) (bs : List Mcb) (q : ℕ)
    (t : Search) (b1 : Mcb) (bs1 : List Mcb)
    → 0 < p
    → q ≤ seg_mod
    → Goes fit (visit fit size s p) t
    → Visited fit size s p b bs q t b1 bs1
    → ((c : Mcb) (cs : List Mcb)
        → Seg t.mem (p + b1.m_size + 1) (c ∷ cs) q
        → IsTyped c cs
        → length (c ∷ cs) ≤ length bs
        → Ends fit size t (p + b1.m_size + 1) (c ∷ cs) q (walk f fit size t (p + b1.m_size + 1)))
    → Ends fit size s p (b ∷ bs) q (walk (suc f) fit size s p)
walk-step f fit size s p b bs q t b1 bs1 pos le (inr h) v go = (
  t,
  b1,
  bs1,
  inr (h.0, h.1, walk-stop f fit size s p t h.2),
  record {
    seg = v.seg;
    typed = v.typed;
    same = v.same;
    owned_same = v.owned_same;
    found_free = found-last fit size s p t b1 v.picked bs1;
    none_fits = λ ne z. absurd (h.1 z);
  },
)
walk-step f fit size s p b bs q t b1 [] pos le (inl h) v go = (
  t,
  b1,
  [],
  inl (
    walk-end f fit size s p t h (rw v.seg.0 v.typed),
    λ lt. IsBiggest-last s p t b1 pos v.seg.0 (v.same s.biggest (inl lt)) v.big,
  ),
  Outcome-last fit size s p b bs q t b1 pos v,
)
walk-step f fit size s p b bs q t b1 (c ∷ cs) pos le (inl h) v go =
    let (u, b2, bs2, ends, o) = go c cs v.seg.1 v.typed.1 v.shorter in
    let e : walk (suc f) fit size s p ≡ walk f fit size t (p + b1.m_size + 1) =
      walk-next f fit size s p t h (rw v.seg.0 v.typed.0)
      ∙ ap (walk f fit size t) (Seg-nxt t.mem p b1 c cs q v.seg le) in
    (
      u,
      b1,
      b2 ∷ bs2,
      ends_next fit s p b bs q t b1 c cs size u b2 bs2 _ _ pos v e ends,
      Outcome-next fit size s p b bs q t b1 c cs u b2 bs2 pos v o,
    )

pub walk-Ends :
    (f : ℕ) (fit : Fit) (size : ℕ) (s : Search) (p : ℕ) (b : Mcb) (bs : List Mcb) (q : ℕ)
    → Seg s.mem p (b ∷ bs) q
    → IsTyped b bs
    → 0 < p
    → q ≤ seg_mod
    → length bs < f
    → Ends fit size s p (b ∷ bs) q (walk f fit size s p)
walk-Ends zero fit size s p b bs q g ty pos le lt = absurd (omega arith)
walk-Ends (suc f) fit size s p b bs q g ty pos le lt =
    let (t, b1, bs1, goes, v) = visit-Visited fit size s p b bs q g ty pos le in
    walk-step f fit size s p b bs q t b1 bs1 pos le goes v (λ c cs g' ty' sh.
      walk-Ends f fit size t (p + b1.m_size + 1) c cs q g' ty' (omega arith) le (omega arith))
