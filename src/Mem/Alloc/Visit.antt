-- ===== src/Mem/Alloc/Visit.antt =====
-- One header in the search loop of `DosMemAlloc`: what `joinMCBs` and the fit rule make of it.
use burdah_dos_system.Base.{
  ℕ, ◌+◌, ◌≤◌, ◌<◌, ◌≡◌, ◌≢◌, ◌⊎◌, inl, inr, refl, sym, ap, ◌∙◌, true, false, Option, some, List,
  [], ◌∷◌, arith, length, ltb, leb, leb→le, ◌||◌, ◌==◌, Bool-cases,
}
use mathlib.Core.Path.{subst}
use burdah_dos_system.Mem.{success, Mcb, Memory, seg_mod, mcb_free, mcb_valid, join_mcbs}
use burdah_dos_system.Mem.Chain.{Seg, IsTyped, SameOutside, owned, Seg-valid, owned-free}
use burdah_dos_system.Mem.Join.{
  absorb, Joined, join_mcbs-absorb, owned-absorb, psp-absorb, length-absorb,
}
use burdah_dos_system.Mem.Alloc.{
  Fit, largest, first, best, last, Search, Walked, more, stop_it, pick_biggest, consider, visit,
}

-- `a` is the header of an unused block of at least `n` paragraphs among `bs`, which start at `p`.
abbrev pub FreeAt : ℕ → List Mcb → ℕ → ℕ → Type 0
FreeAt p [] a n = ⊥
FreeAt p (b ∷ bs) a n =
    ((a ≡ p) × (mcb_free b ≡ true) × (n ≤ b.m_size)) ⊎ FreeAt (p + b.m_size + 1) bs a n

pub FreeAt-le : (p : ℕ) (bs : List Mcb) (a n : ℕ) → FreeAt p bs a n → p ≤ a
FreeAt-le p [] a n h = absurd h
FreeAt-le p (b ∷ bs) a n (inl h) = omega (arith, h.0)
FreeAt-le p (b ∷ bs) a n (inr h) = omega (arith, FreeAt-le (p + b.m_size + 1) bs a n h)

-- `foundSeg` is the visited block, unused and large enough; or it is what it was, and if the block
-- would have done, it was not 0.
abbrev pub Picked : Fit → ℕ → Search → ℕ → Search → Mcb → Type 0
Picked fit size s p t b =
    ((t.found ≡ p) × (mcb_free b ≡ true) × (size ≤ b.m_size))
    ⊎ ((t.found ≡ s.found) × (mcb_free b ≡ true → size ≤ b.m_size → fit ≢ largest → s.found ≢ 0))

pub Picked-ne-zero :
    (fit : Fit) (size : ℕ) (s : Search) (p : ℕ) (t : Search) (b : Mcb)
    → Picked fit size s p t b
    → 0 < p
    → mcb_free b ≡ true
    → size ≤ b.m_size
    → fit ≢ largest
    → t.found ≢ 0
Picked-ne-zero fit size s p t b (inl h) pos free le ne e = omega (arith, h.0)
Picked-ne-zero fit size s p t b (inr h) pos free le ne e = h.1 free le ne (sym h.0 ∙ e)

-- `biggestSeg` is the visited block, or it was at least as large.
abbrev pub BigPicked : Search → ℕ → Search → Mcb → Type 0
BigPicked s p t b =
    ((t.biggest ≡ p) × (mcb_free b ≡ true) × (s.biggest ≢ 0 → (t.mem s.biggest).m_size ≤ b.m_size))
    ⊎ ((t.biggest ≡ s.biggest)
        × (mcb_free b ≡ true → (s.biggest ≢ 0) × (b.m_size ≤ (t.mem s.biggest).m_size)))

pick_biggest-BigPicked :
    (s t : Search) (p : ℕ) (m : Memory) (b : Mcb)
    → m p ≡ b
    → mcb_free b ≡ true
    → t.mem ≡ m
    → t.biggest ≡ pick_biggest m p s.biggest
    → BigPicked s p t b
unfolding pick_biggest
pick_biggest-BigPicked s t p m b at free e big =
    elim (Bool-cases (s.biggest == 0 || ltb (m s.biggest).m_size (m p).m_size)) [
      | inl h ↦ inl (big ∙ rw h refl, free, λ ne. rw (e, ← at) (ground arith))
      | inr h ↦ inr (big ∙ rw h refl, λ _. (ground arith, rw (e, ← at) (ground arith)))
    ]

-- What one visit of the header `p` of the chain `b ∷ bs` does.
pub record Visited (fit : Fit) (size : ℕ) (s : Search) (p : ℕ) (b : Mcb) (bs : List Mcb) (q : ℕ)
    (t : Search) (b' : Mcb) (bs' : List Mcb) : Type 0 where
  pub seg : Seg t.mem p (b' ∷ bs') q
  pub typed : IsTyped b' bs'
  pub same : SameOutside p q s.mem t.mem
  pub owned_same : owned p (b' ∷ bs') ≡ owned p (b ∷ bs)
  pub shorter : length bs' ≤ length bs
  pub picked : Picked fit size s p t b'
  pub big : BigPicked s p t b'

-- `foundSeg` after an unused block: the block if it is large enough, or what it was.
abbrev Picks : Fit → ℕ → Search → ℕ → Type 0
Picks fit size s p =
    (t : Search) × ((consider fit size s p ≡ more t)
      ⊎ ((fit ≡ first) × (t.found ≢ 0) × (consider fit size s p ≡ stop_it t)))
    × (t.mem ≡ s.mem)
    × (t.biggest ≡ pick_biggest s.mem p s.biggest)
    × (((t.found ≡ p) × (size ≤ (s.mem p).m_size))
        ⊎ ((t.found ≡ s.found) × (size ≤ (s.mem p).m_size → fit ≢ largest → s.found ≢ 0)))

consider-small :
    (fit : Fit) (size : ℕ) (s : Search) (p : ℕ)
    → leb size (s.mem p).m_size ≡ false
    → Picks fit size s p
unfolding consider
consider-small fit size s p small = (
  record s { biggest = pick_biggest s.mem p s.biggest },
  inl (rw small refl),
  refl,
  refl,
  inr (refl, λ h. absurd (ground arith)),
)

consider-fits :
    (fit : Fit) (size : ℕ) (s : Search) (p : ℕ)
    → 0 < p
    → leb size (s.mem p).m_size ≡ true
    → Picks fit size s p
unfolding consider
consider-fits first size s p pos fits = (
  record s { biggest = pick_biggest s.mem p s.biggest; found = p },
  inr (refl, omega arith, rw fits refl),
  refl,
  refl,
  inl (refl, leb→le _ _ fits),
)
consider-fits last size s p pos fits = (
  record s { biggest = pick_biggest s.mem p s.biggest; found = p },
  inl (rw fits refl),
  refl,
  refl,
  inl (refl, leb→le _ _ fits),
)
consider-fits largest size s p pos fits = (
  record s { biggest = pick_biggest s.mem p s.biggest },
  inl (rw fits refl),
  refl,
  refl,
  inr (refl, λ h ne. absurd (ne refl)),
)
consider-fits best size s p pos fits =
    elim (Bool-cases (s.found == 0 || ltb (s.mem p).m_size (s.mem s.found).m_size)) [
      | inl better ↦ (
        record s { biggest = pick_biggest s.mem p s.biggest; found = p },
        inl (rw (fits, better) refl),
        refl,
        refl,
        inl (refl, leb→le _ _ fits),
      )
      | inr worse ↦ (
        record s { biggest = pick_biggest s.mem p s.biggest },
        inl (rw (fits, worse) refl),
        refl,
        refl,
        inr (refl, λ h ne. ground arith),
      )
    ]

consider-picked : (fit : Fit) (size : ℕ) (s : Search) (p : ℕ) → 0 < p → Picks fit size s p
consider-picked fit size s p pos = elim (Bool-cases (leb size (s.mem p).m_size)) [
  | inr small ↦ consider-small fit size s p small
  | inl fits ↦ consider-fits fit size s p pos fits
]

pub mcb_free-absorb :
    (b : Mcb) (bs : List Mcb) → mcb_free b ≡ true → mcb_free (absorb b bs).0 ≡ true
unfolding mcb_free
mcb_free-absorb b bs h = ground (arith, psp-absorb b bs)

visit-free :
    (fit : Fit) (size : ℕ) (s : Search) (p : ℕ) (g : Memory)
    → mcb_valid (s.mem p) ≡ true
    → mcb_free (s.mem p) ≡ true
    → join_mcbs (s.mem) p ≡ some (success, g)
    → visit fit size s p ≡ some (consider fit size (record s { mem = g }) p)
unfolding visit
visit-free fit size s p g v h j = rw (v, h, j) refl

visit-used :
    (fit : Fit) (size : ℕ) (s : Search) (p : ℕ)
    → mcb_valid (s.mem p) ≡ true
    → mcb_free (s.mem p) ≡ false
    → visit fit size s p ≡ some (more s)
unfolding visit
visit-used fit size s p v h = rw (v, h) refl

-- The ways in which the treatment of a block hands the search on.
abbrev HandsOn : Fit → Walked → Search → Type 0
HandsOn fit w t = (w ≡ more t) ⊎ ((fit ≡ first) × (t.found ≢ 0) × (w ≡ stop_it t))

abbrev pub Goes : Fit → Option Walked → Search → Type 0
Goes fit w t = (w ≡ some (more t)) ⊎ ((fit ≡ first) × (t.found ≢ 0) × (w ≡ some (stop_it t)))

Goes-some :
    (fit : Fit) (o : Option Walked) (w : Walked) (t : Search)
    → o ≡ some w
    → HandsOn fit w t
    → Goes fit o t
Goes-some fit o w t e (inl h) = inl (e ∙ ap (λ (x : Walked). some x) h)
Goes-some fit o w t e (inr h) = inr (h.0, h.1, e ∙ ap (λ (x : Walked). some x) h.2)

Picked-at :
    (size : ℕ) (fit : Fit) (s t : Search) (p : ℕ) (m : Memory) (b : Mcb)
    → m p ≡ b
    → mcb_free b ≡ true
    → (((t.found ≡ p) × (size ≤ (m p).m_size))
        ⊎ ((t.found ≡ s.found) × (size ≤ (m p).m_size → fit ≢ largest → s.found ≢ 0)))
    → Picked fit size s p t b
Picked-at size fit s t p m b e f (inl h) =
    inl (h.0, f, omega (arith, ap (λ (c : Mcb). c.m_size) e, h.1))
Picked-at size fit s t p m b e f (inr h) =
    inr (h.0, λ _ le. h.1 (omega (arith, ap (λ (c : Mcb). c.m_size) e, le)))

Visited-Joined :
    (fit : Fit) (size : ℕ) (s : Search) (p : ℕ) (b : Mcb) (bs : List Mcb) (q : ℕ) (m : Memory)
    (t : Search)
    → mcb_free b ≡ true
    → Joined s.mem p (absorb b bs) q m
    → t.mem ≡ m
    → t.biggest ≡ pick_biggest m p s.biggest
    → (((t.found ≡ p) × (size ≤ (m p).m_size))
        ⊎ ((t.found ≡ s.found) × (size ≤ (m p).m_size → fit ≢ largest → s.found ≢ 0)))
    → Visited fit size s p b bs q t (absorb b bs).0 (absorb b bs).1
Visited-Joined fit size s p b bs q m t free j mem big picked =
    let f = mcb_free-absorb b bs free in
    record {
      seg = subst (λ (x : Memory). Seg x p ((absorb b bs).0 ∷ (absorb b bs).1) q) (sym mem) j.seg;
      typed = j.typed;
      same = λ a h. ap (λ (x : Memory). x a) mem ∙ j.same a h;
      owned_same =
          owned-free p (absorb b bs).0 (absorb b bs).1 f
          ∙ owned-absorb p b bs
          ∙ sym (owned-free p b bs free);
      shorter = length-absorb b bs;
      picked = Picked-at size fit s t p m (absorb b bs).0 j.seg.0 f picked;
      big = pick_biggest-BigPicked s t p m (absorb b bs).0 j.seg.0 f mem big;
    }

pub visit-Visited :
    (fit : Fit) (size : ℕ) (s : Search) (p : ℕ) (b : Mcb) (bs : List Mcb) (q : ℕ)
    → Seg s.mem p (b ∷ bs) q
    → IsTyped b bs
    → 0 < p
    → q ≤ seg_mod
    → (t : Search) × (b' : Mcb) × (bs' : List Mcb) × Goes fit (visit fit size s p) t
      × Visited fit size s p b bs q t b' bs'
visit-Visited fit size s p b bs q g ty pos le = elim (Bool-cases (mcb_free b)) [
  | inr used ↦ (
    s,
    b,
    bs,
    inl (visit-used fit size s p (Seg-valid s.mem p b bs q g ty pos le) (rw g.0 used)),
    record {
      seg = g;
      typed = ty;
      same = λ a h. refl;
      owned_same = refl;
      shorter = omega arith;
      picked = inr (refl, λ h. cc);
      big = inr (refl, λ h. cc);
    },
  )
  | inl free ↦
      let (m, run, j) = join_mcbs-absorb s.mem p b bs q g ty le in
      let s1 = record s { mem = m } in
      let (t, ends, mem, big, picked) = consider-picked fit size s1 p pos in
      let v = visit-free fit size s p m (Seg-valid s.mem p b bs q g ty pos le) (rw g.0 free) run in
      (
        t,
        (absorb b bs).0,
        (absorb b bs).1,
        Goes-some fit _ _ t v ends,
        Visited-Joined fit size s p b bs q m t free j mem big picked,
      )
]
